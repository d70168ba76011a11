-- ===== src/Prefetch/Staging.antt =====
-- person3_system/prefetch/prefetcher.py, `SpeculativePrefetcher`. The stall penalties are floats
-- with a division; their type and its operations are a parameter, and so is the backend's
-- `prefetch_kv`, a change of the backend's state (its exceptions are swallowed).
use ai_ssd.Prelude.{
  ℕ, ◌+◌, ◌*◌, Bool, true, false, ◌||◌, Option, none, some, List, [], ◌∷◌, ◌++◌, leb, ltb, ◌==◌,
  if◌then◌else◌, length, Result, ok, err, Error, key_error, ◌>>=◌,
}
use ai_ssd.Prelude.Dict.{Dict, pair_key, lookup, insert}
use ai_ssd.Prelude.Floats.{Float}
use ai_ssd.Prefetch.Ordered.{move_to_end, popitem, present}
use ai_ssd.Prefetch.Predictor.{
  NextLayerPredictor, AccessHistory, new_predictor, new_history, predict_next_layer_blocks,
  contains,
}

-- the staging buffer's part of a round of `stage_blocks`
unfoldable pub stage_key : ℕ → ℕ × ℕ → Dict (ℕ × ℕ) Bool → Result (Dict (ℕ × ℕ) Bool)
stage_key capacity key d =
    if present (lookup key d)
    then ok (move_to_end key true d)
    else (if leb capacity (length d)
        then elim (popitem d) [
          | none ↦ err key_error
          | some (oldest, rest) ↦ ok (insert key true rest)
        ]
        else ok (insert key true d))

module _ (fl : Float) where
  open fl use {F, zero_f, of_ℕ, add, sub, mul, div, max_f}

  pub record SpeculativePrefetcher : Type 0 where
    pub buffer_capacity : ℕ
    pub bytes_per_block : ℕ
    pub gpu_compute_time_per_layer_us : F
    pub staged_buffer : Dict (ℕ × ℕ) Bool
    pub legacy_staged_blocks : List ℕ
    pub predictor : NextLayerPredictor
    pub history : AccessHistory
    pub hits : ℕ
    pub misses : ℕ
    pub blocks_hit : ℕ
    pub blocks_requested : ℕ
    pub pipeline_stalls : ℕ
    pub total_stall_penalty_us : F
    pub total_prefetched_bytes : ℕ

  unfoldable pub new_prefetcher : ℕ → ℕ → F → SpeculativePrefetcher
  new_prefetcher buffer_capacity_blocks bytes_per_block gpu_compute_time_per_layer_us = record {
    buffer_capacity = buffer_capacity_blocks;
    bytes_per_block = bytes_per_block;
    gpu_compute_time_per_layer_us = gpu_compute_time_per_layer_us;
    staged_buffer = [];
    legacy_staged_blocks = [];
    predictor = new_predictor 32;
    history = new_history;
    hits = 0;
    misses = 0;
    blocks_hit = 0;
    blocks_requested = 0;
    pipeline_stalls = 0;
    total_stall_penalty_us = zero_f;
    total_prefetched_bytes = 0;
  }

  unfoldable pub used_capacity_blocks : SpeculativePrefetcher → ℕ
  used_capacity_blocks p =
      if length p.staged_buffer == 0 then length p.legacy_staged_blocks else length p.staged_buffer

  unfoldable pub used_capacity_bytes : SpeculativePrefetcher → ℕ
  unfolding used_capacity_blocks
  used_capacity_bytes p = used_capacity_blocks p * p.bytes_per_block

  -- the two parts of the state that the counters leave alone
  unfoldable pub clear : SpeculativePrefetcher → SpeculativePrefetcher
  clear p = record p {
    staged_buffer = [];
    legacy_staged_blocks = [];
    hits = 0;
    misses = 0;
    blocks_hit = 0;
    blocks_requested = 0;
    pipeline_stalls = 0;
    total_stall_penalty_us = zero_f;
    total_prefetched_bytes = 0;
  }

  -- `set.add`
  abbrev pub add_to_set : ℕ → List ℕ → List ℕ
  add_to_set a s = if contains s a then s else s ++ a ∷ []

  unfoldable pub stage_one : SpeculativePrefetcher → ℕ → ℕ → Result SpeculativePrefetcher
  unfolding stage_key
  stage_one p bid layer_id =
      stage_key p.buffer_capacity (layer_id, bid) p.staged_buffer >>= (λ staged. ok (record p {
        staged_buffer = staged;
        legacy_staged_blocks =
            if ltb (length p.legacy_staged_blocks) p.buffer_capacity
            then add_to_set bid p.legacy_staged_blocks
            else p.legacy_staged_blocks;
        total_prefetched_bytes = p.total_prefetched_bytes + p.bytes_per_block;
      }))

  -- What was staged before a raise stays.
  unfoldable pub stage_blocks :
      SpeculativePrefetcher → List ℕ → ℕ → SpeculativePrefetcher × Option Error
  unfolding stage_one
  stage_blocks p [] layer_id = (p, none)
  stage_blocks p (bid ∷ bids) layer_id = elim (stage_one p bid layer_id) [
    | ok q ↦ stage_blocks q bids layer_id
    | err e ↦ (p, some e)
  ]

  unfoldable pub prefetch_next_layer {ℓ} :
      {S : Type ℓ}
      → (prefetch_kv : Option (S → List ℕ → ℕ → S)) → SpeculativePrefetcher
      → S
      → ℕ
      → List ℕ
      → (SpeculativePrefetcher × S) × Result (List ℕ)
  unfolding stage_blocks
  prefetch_next_layer prefetch_kv p s current_layer_id active_block_ids =
      elim (predict_next_layer_blocks p.predictor current_layer_id active_block_ids 0) [
        | err e ↦ ((p, s), err e)
        | ok (predictor, next_layer, predicted) ↦
            let (q, raised) =
              stage_blocks (record p { predictor = predictor }) predicted next_layer in
            elim raised [
              | some e ↦ ((q, s), err e)
              | none ↦ (
                (q, elim prefetch_kv [ none ↦ s | some call ↦ call s predicted next_layer ]),
                ok predicted,
              )
            ]
      ]

  unfoldable pub any_layer : Dict (ℕ × ℕ) Bool → ℕ → Bool
  any_layer [] bid = false
  any_layer ((key, b) ∷ d) bid = let rest = any_layer d bid in key.1 == bid || rest

  unfoldable pub is_in : SpeculativePrefetcher → Option ℕ → ℕ → Bool
  unfolding any_layer
  is_in p none bid = contains p.legacy_staged_blocks bid || any_layer p.staged_buffer bid
  is_in p (some layer_id) bid = present (lookup (layer_id, bid) p.staged_buffer)

  -- the hits and the missing blocks, each in the order of the argument
  unfoldable pub check_staging : SpeculativePrefetcher → List ℕ → Option ℕ → List ℕ × List ℕ
  unfolding is_in
  check_staging p [] layer_id = ([], [])
  check_staging p (bid ∷ bids) layer_id =
      let rest = check_staging p bids layer_id in
      if is_in p layer_id bid then (bid ∷ rest.0, rest.1) else (rest.0, bid ∷ rest.1)

  -- what a request with `hit` of `n` blocks adds to the penalty
  unfoldable pub stall : SpeculativePrefetcher → F → ℕ → ℕ → F
  stall p latency n missing =
      max_f zero_f (sub (mul (of_ℕ missing) (div latency (of_ℕ n))) p.gpu_compute_time_per_layer_us)

  -- `len(hits) / float(len(block_ids)) >= 0.80` is written without the division.
  unfoldable pub is_staged :
      SpeculativePrefetcher → List ℕ → Option ℕ → F → SpeculativePrefetcher × Bool
  unfolding stall
  is_staged p [] layer_id latency = (p, true)
  is_staged p (bid ∷ bids) layer_id latency =
      let split = check_staging p (bid ∷ bids) layer_id in
      let n = length (bid ∷ bids) in
      let hit = length split.0 in
      let missing = length split.1 in
      let q = record p {
        blocks_hit = p.blocks_hit + hit;
        blocks_requested = p.blocks_requested + n;
      } in
      if leb (4 * n) (5 * hit)
      then (
        record q {
          hits = q.hits + 1;
          total_stall_penalty_us =
              if missing == 0
              then q.total_stall_penalty_us
              else add q.total_stall_penalty_us (stall p latency n missing);
        },
        true,
      )
      else (
        record q {
          misses = q.misses + 1;
          pipeline_stalls = q.pipeline_stalls + 1;
          total_stall_penalty_us =
              add q.total_stall_penalty_us
                (max_f zero_f (sub latency p.gpu_compute_time_per_layer_us));
        },
        false,
      )
