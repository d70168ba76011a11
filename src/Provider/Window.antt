-- ===== src/Provider/Window.antt =====
-- person1_kv_engine/adapters/sliding_window_kv.py: a selection from the blocks that reach into the
-- sliding window; the candidates are put back behind it, also where it raises.
use ai_ssd.Prelude.{
  ℕ, ◌+◌, ◌-◌, ◌*◌, Bool, List, [], ◌∷◌, ltb, if◌then◌else◌, Result, err, key_error, Option, none,
  some,
}
use ai_ssd.Prelude.Dict.{nat_key, lookup, insert}
use ai_ssd.Provider.Backend.{KvBackend}
use ai_ssd.Provider.State.{LayerData, Provider}
use ai_ssd.Provider.Select.{select_and_fetch_active_state}

-- a block reaches behind the start of the window
unfoldable pub in_window : (sink_tokens tokens_per_block window_start : ℕ) → ℕ × ℕ → Bool
in_window sink_tokens tokens_per_block window_start (bid, act_tok) =
    ltb window_start (sink_tokens + bid * tokens_per_block + act_tok)

unfoldable pub valid_blocks :
    (sink_tokens tokens_per_block window_start : ℕ) → List (ℕ × ℕ) → List (ℕ × ℕ)
unfolding in_window
valid_blocks sink size start [] = []
valid_blocks sink size start (c ∷ cands) =
    let rest = valid_blocks sink size start cands in
    if in_window sink size start c then c ∷ rest else rest

module _ {T B Q Score : Type 0} (be : KvBackend B (List T)) (above : Score → Score → Bool)
    (score : Q → List T → ℕ → Score) where
  abbrev pub with_candidates : LayerData T → List (ℕ × ℕ) → LayerData T
  with_candidates ld cands = record ld { candidate_blocks = cands }

  -- the candidates of a layer while it is selected from
  unfoldable pub effective : ℕ → Provider T B → LayerData T → List (ℕ × ℕ)
  unfolding valid_blocks
  effective sliding_window p ld =
      if ltb sliding_window ld.total_tokens
      then valid_blocks p.sink_tokens p.tokens_per_block (ld.total_tokens - sliding_window)
          ld.candidate_blocks
      else ld.candidate_blocks

  -- `finally`: the entry, whatever it is by then, gets its candidates back
  unfoldable pub put_back : ℕ → List (ℕ × ℕ) → Provider T B → Provider T B
  put_back layer_idx cands p = elim (lookup layer_idx p.layer_data) [
    | none ↦ p
    | some ld ↦ record p { layer_data = insert layer_idx (with_candidates ld cands) p.layer_data }
  ]

  unfoldable pub select_in_window :
      (sliding_window layer_idx : ℕ)
      → Option Q
      → Provider T B
      → Provider T B × Result (List T × List T)
  unfolding effective put_back select_and_fetch_active_state
  select_in_window sliding_window layer_idx query p = elim (lookup layer_idx p.layer_data) [
    | none ↦ (p, err key_error)
    | some ld ↦
        let (after, result) =
          select_and_fetch_active_state be above score layer_idx query (record p {
            layer_data =
                insert layer_idx (with_candidates ld (effective sliding_window p ld)) p.layer_data;
          }) in
        (put_back layer_idx ld.candidate_blocks after, result)
  ]
