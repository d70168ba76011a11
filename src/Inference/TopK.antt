-- ===== src/Inference/TopK.antt =====
-- person2_ssd/inference_backend.py, `compute_topk_filter` in the "file" mode without the native
-- kernel. The score of a candidate (an `einsum` and its maximum) is a parameter, and so is the
-- order of the scores.
use ai_ssd.Prelude.{
  ℕ, ◌+◌, Bool, Option, none, some, List, [], ◌∷◌, ◌++◌, map, length, take, if◌then◌else◌, Result,
  ok, err, key_error,
}
use ai_ssd.Prelude.Dict.{nat_key, pair_key, lookup}
use ai_ssd.Inference.Device.{Device}
use ai_ssd.Inference.State.{counted, uncounted, Array, Entry, Stats, computational_topk, float32}
use ai_ssd.Inference.Store.{RealInferenceStorageBackend, default_shape}
use ai_ssd.Inference.Batches.{count_page}

-- a candidate: offset, size, block and tokens
pub record Candidate : Type 0 where
  pub offset : ℕ
  pub size : ℕ
  pub bid : ℕ
  pub actual_tokens : ℕ
  pub entry : Option Entry

module _ {S : Type 0} (above : S → S → Bool) where
  -- a stable sort with the highest score first, as `sort(key=…, reverse=True)`
  unfoldable pub put : S × ℕ × ℕ → List (S × ℕ × ℕ) → List (S × ℕ × ℕ)
  put x [] = x ∷ []
  put x (y ∷ ys) = if above y.0 x.0 then y ∷ put x ys else x ∷ y ∷ ys

  unfoldable pub sort_scores : List (S × ℕ × ℕ) → List (S × ℕ × ℕ)
  unfolding put
  sort_scores [] = []
  sort_scores (x ∷ xs) = put x (sort_scores xs)

module _ (dev : Device) where
  open dev use {pread}

  -- the loop over the candidates: a missing one is taken for 4096 bytes at offset 0
  unfoldable pub candidates_of :
      RealInferenceStorageBackend dev
      → ℕ
      → List (ℕ × ℕ)
      → Stats × List Candidate
      → Stats × Result (List Candidate)
  unfolding count_page
  candidates_of b layer_idx [] (s, found) = (s, ok found)
  candidates_of b layer_idx ((bid, actual_tokens) ∷ cands) (s, found) =
      elim (lookup (layer_idx, bid) b.storage) [
        | none ↦ candidates_of b layer_idx cands (
          s,
          found
              ++ record {
                offset = 0;
                size = 4096;
                bid = bid;
                actual_tokens = actual_tokens;
                entry = none;
              }
                ∷ [],
        )
        | some e ↦ elim (count_page s e.channel e.k_size) [
          | uncounted t ↦ (t, err key_error)
          | counted t ↦ candidates_of b layer_idx cands (
            t,
            found
                ++ record {
                  offset = e.k_offset;
                  size = e.k_size;
                  bid = bid;
                  actual_tokens = actual_tokens;
                  entry = some e;
                }
                  ∷ [],
          )
        ]
      ]

  -- the bytes of a candidate as an array
  unfoldable pub scanned : RealInferenceStorageBackend dev → Candidate → Array
  scanned b c =
      let bytes = pread b.backing c.size c.offset in
      elim c.entry [
        | none ↦ record { shape = default_shape dev b; dtype = float32; bytes = bytes }
        | some e ↦ record { shape = e.k_shape; dtype = e.k_dtype; bytes = bytes }
      ]

  unfoldable pub sum_sizes : List Candidate → ℕ
  sum_sizes [] = 0
  sum_sizes (c ∷ cs) = c.size + sum_sizes cs

  -- `score` stands for the largest product of the query with the first tokens of a key array
  unfoldable pub compute_topk_filter :
      {S : Type 0}
      → (above : S → S → Bool) → (score : Array → ℕ → S) → RealInferenceStorageBackend dev
      → ℕ
      → List (ℕ × ℕ)
      → ℕ
      → RealInferenceStorageBackend dev × Result (List (S × ℕ × ℕ))
  unfolding candidates_of scanned sort_scores sum_sizes
  compute_topk_filter above score b layer_idx [] top_k = (b, ok [])
  compute_topk_filter above score b layer_idx (cand ∷ cands) top_k =
      let (s, candidates) = candidates_of b layer_idx (cand ∷ cands) (b.stats, []) in
      elim candidates [
        | err x ↦ (record b { stats = s }, err x)
        | ok found ↦ (
          record b {
            stats = record s {
              storage_batches = s.storage_batches + 1;
              requests = s.requests + 1;
              topk_calls = s.topk_calls + 1;
              internal_k_blocks = s.internal_k_blocks + length (cand ∷ cands);
              internal_k_bytes = s.internal_k_bytes + sum_sizes found;
              bytes_read = s.bytes_read + sum_sizes found;
              access_log =
                  s.access_log
                  ++ record {
                    op = computational_topk;
                    layer_id = layer_idx;
                    bytes = sum_sizes found;
                  }
                    ∷ [];
            };
          },
          ok (
              take top_k (
                sort_scores above (
                  map (λ c. (score (scanned b c) c.actual_tokens, c.bid, c.actual_tokens)) found))),
        )
      ]
