-- ===== src/Provider/Select.antt =====
-- person1_kv_engine/adapters/transformer_kv.py, `select_and_fetch_active_state` without the storage's
-- own filter and without the native kernel. The score of a block for a query is a parameter, and so
-- is the order of the scores.
use ai_ssd.Prelude.{
  ℕ, ◌+◌, ◌*◌, max, Bool, List, [], ◌∷◌, ◌++◌, map, length, take, leb, if◌then◌else◌, Result, ok,
  err, Error, key_error, value_error, Option, none, some,
}
use ai_ssd.Prelude.Dict.{Dict, nat_key, lookup}
use ai_ssd.Inference.TopK.{sort_scores}
use ai_ssd.Provider.Backend.{KvBackend}
use ai_ssd.Provider.State.{LayerData, Provider}

-- `sorted(top_bids, key=lambda x: x[1])`, stable; the scores are dropped
unfoldable pub put_bid : ℕ × ℕ → List (ℕ × ℕ) → List (ℕ × ℕ)
put_bid x [] = x ∷ []
put_bid x (y ∷ ys) = if leb x.0 y.0 then x ∷ y ∷ ys else y ∷ put_bid x ys

unfoldable pub sort_bids : List (ℕ × ℕ) → List (ℕ × ℕ)
unfolding put_bid
sort_bids [] = []
sort_bids (x ∷ xs) = put_bid x (sort_bids xs)

module _ {T : Type 0} where
  -- the blocks of a dict for a list of identifiers; a missing one raises
  unfoldable pub blocks_for : Dict ℕ (List T) → List ℕ → Result (List (List T))
  blocks_for pages [] = ok []
  blocks_for pages (bid ∷ bids) =
      let rest = blocks_for pages bids in
      elim (lookup bid pages) [
        | none ↦ err key_error
        | some block ↦ elim rest [ err e ↦ err e | ok blocks ↦ ok (block ∷ blocks) ]
      ]

  -- the first rows of the chosen blocks, one block after the other
  unfoldable pub rows_for : Dict ℕ (List T) → List (ℕ × ℕ) → Result (List T)
  rows_for pages [] = ok []
  rows_for pages ((bid, actual_tokens) ∷ chosen) =
      let rest = rows_for pages chosen in
      elim (lookup bid pages) [
        | none ↦ err key_error
        | some block ↦ elim rest [ err e ↦ err e | ok rows ↦ ok (take actual_tokens block ++ rows) ]
      ]

module _ {T B Q Score : Type 0} (be : KvBackend B (List T)) (above : Score → Score → Bool)
    (score : Q → List T → ℕ → Score) where
  open be use {read_key_page_batch, read_value_page_batch, predict_and_prefetch}

  -- a score for each candidate, in the order of the candidates
  unfoldable pub scored : Q → List (ℕ × ℕ) → List (List T) → List (Score × ℕ × ℕ)
  scored q [] blocks = []
  scored q (cand ∷ cands) [] = []
  scored q ((bid, actual_tokens) ∷ cands) (k_blk ∷ blocks) =
      (score q k_blk actual_tokens, bid, actual_tokens) ∷ scored q cands blocks

  -- the best candidates, by their scores
  unfoldable pub winners : Q → ℕ → List (ℕ × ℕ) → List (List T) → List (ℕ × ℕ)
  unfolding scored sort_scores
  winners q k_val cands blocks =
      map (λ (x : Score × ℕ × ℕ). (x.1, x.2))
        (take k_val (sort_scores above (scored q cands blocks)))

  abbrev pub bids_of : List (ℕ × ℕ) → List ℕ
  bids_of = map (λ (x : ℕ × ℕ). x.0)

  abbrev pub k_val_of : Provider T B → List (ℕ × ℕ) → ℕ
  k_val_of p cands = max 1 (p.quota (length cands))

  -- the prediction from the winning blocks, where it is enabled
  unfoldable pub predict : Bool → B → ℕ → List ℕ → B × Option Error
  predict enabled b layer_idx bids =
      if enabled then predict_and_prefetch b layer_idx bids else (b, none)

  abbrev pub with_backend : Provider T B → B → Provider T B
  with_backend p b = record p { backend = b }

  -- the chosen rows, keys and values, behind the reads and the prediction
  unfoldable pub fetch_rows :
      ℕ → Q → List (ℕ × ℕ) → Provider T B → Provider T B × Result (List T × List T)
  unfolding winners blocks_for predict rows_for sort_bids
  fetch_rows layer_idx q cands p =
      let (b1, k_pages) = read_key_page_batch p.backend layer_idx (bids_of cands) in
      let p1 = record p {
        backend = b1;
        candidate_k_bytes_to_host =
            p.candidate_k_bytes_to_host + length (bids_of cands) * p.page_bytes;
      } in
      elim (blocks_for k_pages (bids_of cands)) [
        | err e ↦ (with_backend p b1, err e)
        | ok blocks ↦
            let chosen = winners q (k_val_of p cands) cands blocks in
            let (b2, raised) = predict p.enable_prefetch b1 layer_idx (bids_of chosen) in
            elim raised [
              | some e ↦ (with_backend p1 b2, err e)
              | none ↦
                  let (b3, v_pages) = read_value_page_batch b2 layer_idx (bids_of chosen) in
                  let p3 = record p1 {
                    backend = b3;
                    winning_v_bytes_to_host =
                        p1.winning_v_bytes_to_host + length chosen * p.page_bytes;
                  } in
                  elim (rows_for k_pages (sort_bids chosen)) [
                    | err e ↦ (p3, err e)
                    | ok k_rows ↦ elim (rows_for v_pages (sort_bids chosen)) [
                      | err e ↦ (p3, err e)
                      | ok v_rows ↦ (p3, ok (k_rows, v_rows))
                    ]
                  ]
            ]
      ]

  -- the active keys and values: the sink, the chosen rows and the recent window
  unfoldable pub around : LayerData T → Result (List T × List T) → Result (List T × List T)
  around ld (err e) = err e
  around ld (ok (k_rows, v_rows)) =
      ok (ld.sink_k ++ (k_rows ++ ld.recent_k), ld.sink_v ++ (v_rows ++ ld.recent_v))

  unfoldable pub select_from :
      ℕ → Q → LayerData T → List (ℕ × ℕ) → Provider T B → Provider T B × Result (List T × List T)
  unfolding fetch_rows around
  select_from layer_idx q ld [] p = (p, around ld (ok ([], [])))
  select_from layer_idx q ld (cand ∷ cands) p =
      let (after, rows) = fetch_rows layer_idx q (cand ∷ cands) p in (after, around ld rows)

  unfoldable pub select_and_fetch_active_state :
      ℕ → Option Q → Provider T B → Provider T B × Result (List T × List T)
  unfolding select_from
  select_and_fetch_active_state layer_idx none p = (p, err value_error)
  select_and_fetch_active_state layer_idx (some q) p = elim (lookup layer_idx p.layer_data) [
    | none ↦ (p, err key_error)
    | some ld ↦ select_from layer_idx q ld ld.candidate_blocks p
  ]
