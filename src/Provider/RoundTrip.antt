-- ===== src/Provider/RoundTrip.antt =====
-- person1_kv_engine/adapters/transformer_kv.py: what a selection behind a prefill gives is a part of
-- the sequence, and all of it where all candidates may win.
use mathlib.Core.Path.{subst}
use ai_ssd.Prelude.{
  ℕ, ◌≤◌, ◌≡◌, refl, sym, ap, ◌∙◌, List, [], ◌∷◌, ◌++◌, All, All-map, map, arith, length, Bool,
  true, false, none, some, ok,
}
use ai_ssd.Prelude.Dict.{nat_key, lookup}
use ai_ssd.Provider.Backend.{KvBackend, IsSound}
use ai_ssd.Provider.State.{LayerData, Provider}
use ai_ssd.Provider.Select.{
  sort_bids, rows_for, winners, predict, bids_of, k_val_of, fetch_rows, around, select_from,
  select_and_fetch_active_state,
}
use ai_ssd.Provider.Cutting.{Ascending, rows_held}
use ai_ssd.Provider.Ordering.{Sub, done, keep, skip, All-Sub, All-sort_bids}
use ai_ssd.Provider.Choosing.{winners-Sub, winners-all}
use ai_ssd.Provider.Picked.{
  Picked, Picked-all, Picked-append, Picked-rows_held, blocks_for_lem, rows_for_lem, All-of_bids,
  length-map,
}
use ai_ssd.Provider.Laid.{IsLaid}

eq_nil_of_Sub : {A : Type 0} {xs ys : List A} → Sub xs ys → ys ≡ [] → xs ≡ []
eq_nil_of_Sub done e = refl
eq_nil_of_Sub (keep x s) e = cc
eq_nil_of_Sub (skip y s) e = cc

module _ {T B Q Score : Type 0} (be : KvBackend B (List T)) (sound : IsSound be)
    (above : Score → Score → Bool) (score : Q → List T → ℕ → Score) where
  open sound use {held, Fresh, Ready}

  pub predict_lem :
      (enabled : Bool) (b : B) (l : ℕ) (bids : List ℕ)
      → Ready b
      → ((predict be above score enabled b l bids).1 ≡ none)
        × ((m i : ℕ) → held (predict be above score enabled b l bids).0 m i ≡ held b m i)
        × Ready (predict be above score enabled b l bids).0
  unfolding predict
  predict_lem true b l bids r = (
    sound.predict_quiet b l bids r,
    λ m i. sound.predict_keeps b l bids m i r,
    sound.predict_stays b l bids r,
  )
  predict_lem false b l bids r = (refl, λ m i. refl, r)

  module _ (l : ℕ) (q : Q) (p : Provider T B) (cands : List (ℕ × ℕ)) (asc : Ascending 0 cands)
      (r : Ready p.backend) where
    keys : ℕ → List T
    keys i = (held p.backend l i).0

    vals : ℕ → List T
    vals i = (held p.backend l i).1

    -- the winners, in the order of their scores
    pub best : List (ℕ × ℕ)
    best =
        winners be above score q (k_val_of be above score p cands) cands
          (map keys (bids_of be above score cands))

    best-Sub : Sub (sort_bids best) cands
    unfolding best
    best-Sub =
        winners-Sub be above score q _ 0 cands _
          (length-map keys (bids_of be above score cands) ∙ length-map _ cands) asc

    fetch_rows_lem :
        (fetch_rows be above score l q cands p).1
        ≡ ok (rows_held keys (sort_bids best), rows_held vals (sort_bids best))
    unfolding fetch_rows best keys vals
    fetch_rows_lem =
        let ids = bids_of be above score cands in
        let b1 = (be.read_key_page_batch p.backend l ids).0 in
        let k_pages = (be.read_key_page_batch p.backend l ids).1 in
        let found = sound.keys.values p.backend l ids r in
        let r1 = sound.keys.stays p.backend l ids r in
        let won = bids_of be above score best in
        let (quiet, kept, r2) = predict_lem p.enable_prefetch b1 l won r1 in
        let b2 = (predict be above score p.enable_prefetch b1 l won).0 in
        let v_pages = (be.read_value_page_batch b2 l won).1 in
        let v_found : All (λ i. lookup i v_pages ≡ some (vals i)) won =
          All-map _ _ won
            (λ i h. h ∙ ap (λ x. some x.1) (kept l i ∙ sound.keys.keeps p.backend l ids l i r))
            (sound.values.values b2 l won r2) in
        let k_rows : rows_for k_pages (sort_bids best) ≡ ok (rows_held keys (sort_bids best)) =
          rows_for_lem keys k_pages (sort_bids best)
            (All-Sub _ best-Sub (All-of_bids _ cands found)) in
        let v_rows : rows_for v_pages (sort_bids best) ≡ ok (rows_held vals (sort_bids best)) =
          rows_for_lem vals v_pages (sort_bids best)
            (All-sort_bids _ best (All-of_bids _ best v_found)) in
        rw (fetch_rows, blocks_for_lem keys k_pages ids found, quiet, k_rows, v_rows) refl

  -- a selection that gives rows of a layer
  abbrev pub Gives : Provider T B → ℕ → Q → List T × List T → Type 0
  Gives p l q r = (select_and_fetch_active_state be above score l (some q) p).1 ≡ ok r

  module _ (l : ℕ) (q : Q) (p : Provider T B) (ld : LayerData T) (ks vs : List T)
      (r : Ready p.backend) (there : lookup l p.layer_data ≡ some ld)
      (laid : IsLaid ks vs (held p.backend l) ld) where
    -- the active rows for a list of chosen blocks
    pub rows_around : List (ℕ × ℕ) → List T × List T
    rows_around chosen = (
      ld.sink_k ++ (rows_held (λ i. (held p.backend l i).0) chosen ++ ld.recent_k),
      ld.sink_v ++ (rows_held (λ i. (held p.backend l i).1) chosen ++ ld.recent_v),
    )

    -- the blocks that a selection takes
    abbrev pub chosen_of : (cands : List (ℕ × ℕ)) → Ascending 0 cands → List (ℕ × ℕ)
    chosen_of cands asc = sort_bids (best l q p cands asc r)

    select_from-eq :
        (cands : List (ℕ × ℕ)) (asc : Ascending 0 cands)
        → (select_from be above score l q ld cands p).1 ≡ ok (rows_around (chosen_of cands asc))
    unfolding select_from around rows_around keys vals
    select_from-eq [] asc =
        ap (λ chosen. ok (rows_around chosen)) (sym (eq_nil_of_Sub (best-Sub l q p [] asc r) refl))
    select_from-eq (c ∷ cands) asc =
        ap (around be above score ld) (fetch_rows_lem l q p (c ∷ cands) asc r)

    pub select-Gives : Gives p l q (rows_around (chosen_of ld.candidate_blocks laid.ascending))
    unfolding select_and_fetch_active_state
    select-Gives =
        rw (select_and_fetch_active_state, there)
          (select_from-eq ld.candidate_blocks laid.ascending)

    pub select-Picked :
        let active = rows_around (chosen_of ld.candidate_blocks laid.ascending) in
        Picked active.0 active.1 ks vs
    unfolding rows_around
    select-Picked =
        let active = rows_around (chosen_of ld.candidate_blocks laid.ascending) in
        subst (λ xs. Picked active.0 active.1 xs vs) laid.keys
          (subst
            (λ ys.
              Picked active.0 active.1
                (ld.sink_k
                  ++ (rows_held (λ i. (held p.backend l i).0) ld.candidate_blocks ++ ld.recent_k))
                ys)
            laid.values
            (Picked-append (Picked-all ld.sink_k ld.sink_v laid.sinks) (
              Picked-append
                (Picked-rows_held _ _ (best-Sub l q p ld.candidate_blocks laid.ascending r)
                  laid.even)
                (Picked-all ld.recent_k ld.recent_v laid.recents))))

    pub select_all :
        ((n : ℕ) → n ≤ p.quota n)
        → rows_around (chosen_of ld.candidate_blocks laid.ascending) ≡ (ks, vs)
    unfolding rows_around best
    select_all enough =
        let cands = ld.candidate_blocks in
        let all : chosen_of cands laid.ascending ≡ cands =
          winners-all be above score q _ 0 cands _
            (length-map _ (bids_of be above score cands) ∙ length-map _ cands) laid.ascending
            (omega (arith, enough (length cands))) in
        ap rows_around all ∙ (λ i. (laid.keys i, laid.values i))
