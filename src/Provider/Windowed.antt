-- ===== src/Provider/Windowed.antt =====
-- person1_kv_engine/adapters/sliding_window_kv.py: what a selection in the sliding window takes and
-- what it leaves.
use mathlib.Core.Path.{subst}
use ai_ssd.Prelude.{
  Among, ℕ, ◌+◌, ◌-◌, ◌*◌, ◌≤◌, ◌<◌, ◌≡◌, ◌↔◌, refl, sym, ap, ◌∙◌, Bool, true, Bool-cases, inl, inr,
  List, [], ◌∷◌, ◌++◌, All, arith, length, take, ltb, ok, Option, none, some, Option-cases,
  ℕ_discrete,
}
use ai_ssd.Prelude.Dict.{nat_key, lookup, insert, lookup-insert_self, lookup-insert_ne}
use ai_ssd.Provider.Backend.{KvBackend, IsSound}
use ai_ssd.Provider.State.{LayerData, Provider}
use ai_ssd.Provider.Select.{fetch_rows, select_from, select_and_fetch_active_state}
use ai_ssd.Provider.Cutting.{Ascending, rows_held}
use ai_ssd.Provider.Laid.{IsLaid}
use ai_ssd.Provider.RoundTrip.{select-Gives, select_all}
use ai_ssd.Provider.Window.{with_candidates, effective, put_back, select_in_window}
use ai_ssd.Provider.Valid.{
  in_window_iff, Ascending-valid_blocks, All-valid_blocks, Among-valid_blocks,
}

module _ {T B Q Score : Type 0} (be : KvBackend B (List T)) (above : Score → Score → Bool)
    (score : Q → List T → ℕ → Score) where
  -- The entries of a provider stay as they are in a selection.
  fetch_rows-layer_data :
      (l : ℕ) (q : Q) (cands : List (ℕ × ℕ)) (p : Provider T B)
      → (fetch_rows be above score l q cands p).0.layer_data ≡ p.layer_data
  unfolding fetch_rows
  fetch_rows-layer_data l q cands p = ground arith

  select-layer_data :
      (l : ℕ) (query : Option Q) (p : Provider T B)
      → (select_and_fetch_active_state be above score l query p).0.layer_data ≡ p.layer_data
  unfolding select_and_fetch_active_state select_from
  select-layer_data l none p = refl
  select-layer_data l (some q) p = elim (Option-cases (lookup l p.layer_data)) [
    | inl absent ↦ rw (select_and_fetch_active_state, absent) refl
    | inr (ld, there) ↦ rw (select_and_fetch_active_state, there) (from ld.candidate_blocks ld)
  ]
    where
      from :
          (cands : List (ℕ × ℕ)) (ld : LayerData T)
          → (select_from be above score l q ld cands p).0.layer_data ≡ p.layer_data
      from [] ld = refl
      from (c ∷ cands) ld = fetch_rows-layer_data l q (c ∷ cands) p

  -- In a sequence longer than the sliding window, a selection considers exactly the candidates of
  -- which one token lies in the window, where block `b` with `n` tokens, `n` above zero, has the
  -- tokens from `sink + b * size` on.
  pub Among-effective :
      (sliding_window : ℕ) (p : Provider T B) (ld : LayerData T) (bid n : ℕ)
      → 0 < n
      → sliding_window < ld.total_tokens
      → Among (bid, n) (effective be above score sliding_window p ld) ↔ (
          Among (bid, n) ld.candidate_blocks
          × ((t : ℕ) × (p.sink_tokens + bid * p.tokens_per_block ≤ t)
              × (t < p.sink_tokens + bid * p.tokens_per_block + n)
              × (ld.total_tokens ≤ t + sliding_window)))
  unfolding effective
  Among-effective w p ld bid n pos long =
      let long_enough : ltb w ld.total_tokens ≡ true = ground arith in
      let start = ld.total_tokens - w in
      let (into, back) =
        Among-valid_blocks p.sink_tokens p.tokens_per_block start bid n ld.candidate_blocks in
      let (token, window) = in_window_iff p.sink_tokens p.tokens_per_block start bid n pos in
      rw (effective, long_enough)
        (
          λ h.
              let (t, from, to, late) = token (into h).1 in
              ((into h).0, (t, from, to, omega (arith, late))),
          λ h.
              let (t, from, to, late) = h.1 in
              back (h.0, window (t, from, to, omega (arith, late))),
        )

  put_back-insert :
      (l : ℕ) (cands : List (ℕ × ℕ)) (p : Provider T B) (ld : LayerData T)
      → lookup l p.layer_data ≡ some ld
      → (put_back be above score l cands p).layer_data
        ≡ insert l (record ld { candidate_blocks = cands }) p.layer_data
  unfolding put_back
  put_back-insert l cands p ld there = rw (put_back, there) refl

  -- the provider that is selected from
  narrowed : ℕ → ℕ → Provider T B → LayerData T → Provider T B
  narrowed w l p ld = record p {
    layer_data =
        insert l (with_candidates be above score ld (effective be above score w p ld)) p.layer_data;
  }

  -- A selection in the sliding window leaves the entry of every layer as it was, its candidates
  -- included, also where the selection raises.
  pub select_in_window-keeps :
      (sliding_window l : ℕ) (query : Option Q) (p : Provider T B) (m : ℕ)
      → lookup m (select_in_window be above score sliding_window l query p).0.layer_data
        ≡ lookup m p.layer_data
  unfolding select_in_window narrowed
  select_in_window-keeps w l query p m = elim (Option-cases (lookup l p.layer_data)) [
    | inl absent ↦ rw (select_in_window, absent) refl
    | inr (ld, there) ↦ rw (select_in_window, there) (restored ld there)
  ]
    where
      restored :
          (ld : LayerData T)
          → lookup l p.layer_data ≡ some ld
          → lookup m
              (put_back be above score l ld.candidate_blocks
                (select_and_fetch_active_state be above score l query
                  (narrowed w l p ld)).0).layer_data
            ≡ lookup m p.layer_data
      restored ld there =
          let ld1 = with_candidates be above score ld (effective be above score w p ld) in
          let after =
            (select_and_fetch_active_state be above score l query (narrowed w l p ld)).0 in
          let same : after.layer_data ≡ insert l ld1 p.layer_data =
            select-layer_data l query (narrowed w l p ld) in
          let found : lookup l after.layer_data ≡ some ld1 =
            ap (lookup l) same ∙ lookup-insert_self l ld1 p.layer_data in
          let back = put_back-insert l ld.candidate_blocks after ld1 found in
          ap (lookup m) back ∙ elim (ℕ_discrete l m) [
            | yes eq ↦
                ap (λ n. lookup n (insert l ld after.layer_data)) (sym eq)
                ∙ lookup-insert_self l ld after.layer_data
                ∙ sym there
                ∙ ap (λ n. lookup n p.layer_data) eq
            | no ne ↦
                lookup-insert_ne l m ld after.layer_data ne
                ∙ ap (lookup m) same
                ∙ lookup-insert_ne l m ld1 p.layer_data ne
          ]

  module _ (sound : IsSound be) (w l : ℕ) (q : Q) (p : Provider T B) (ld : LayerData T)
      (ks vs : List T) where
    open sound use {held, Ready}

    effective-IsLaid :
        (cands : List (ℕ × ℕ))
        → cands ≡ effective be above score w p ld
        → IsLaid ks vs (held p.backend l) ld
        → IsLaid
            (ld.sink_k ++ (rows_held (λ i. (held p.backend l i).0) cands ++ ld.recent_k))
            (ld.sink_v ++ (rows_held (λ i. (held p.backend l i).1) cands ++ ld.recent_v))
            (held p.backend l)
            (record ld { candidate_blocks = cands })
    unfolding effective
    effective-IsLaid cands same laid = record {
      ascending = subst (Ascending 0) (sym same) asc;
      keys = refl;
      values = refl;
      even = subst (All _) (sym same) even;
      sinks = laid.sinks;
      recents = laid.recents;
    }
      where
        start : ℕ
        start = ld.total_tokens - w

        asc : Ascending 0 (effective be above score w p ld)
        asc = elim (Bool-cases (ltb w ld.total_tokens)) [
          | inl long ↦
              rw (effective, long)
                (Ascending-valid_blocks p.sink_tokens p.tokens_per_block start 0 ld.candidate_blocks
                  laid.ascending)
          | inr short ↦ rw (effective, short) laid.ascending
        ]

        even :
            All
              (λ c.
                length (take c.1 (held p.backend l c.0).0)
                ≡ length (take c.1 (held p.backend l c.0).1))
              (effective be above score w p ld)
        even = elim (Bool-cases (ltb w ld.total_tokens)) [
          | inl long ↦
              rw (effective, long)
                (All-valid_blocks _ p.sink_tokens p.tokens_per_block start ld.candidate_blocks
                  laid.even)
          | inr short ↦ rw (effective, short) laid.even
        ]

    -- In a layer that is laid out as a prefill does, over a backend that is ready, where the
    -- share of the candidates is all of them, a selection in the sliding window gives the sink,
    -- the rows of the candidates that it considers and the recent window, in the order of the
    -- sequence.
    pub select_in_window_all :
        Ready p.backend
        → lookup l p.layer_data ≡ some ld
        → IsLaid ks vs (held p.backend l) ld
        → ((n : ℕ) → n ≤ p.quota n)
        → let cands = effective be above score w p ld in
          (select_in_window be above score w l (some q) p).1
          ≡ ok (
            ld.sink_k ++ (rows_held (λ i. (held p.backend l i).0) cands ++ ld.recent_k),
            ld.sink_v ++ (rows_held (λ i. (held p.backend l i).1) cands ++ ld.recent_v),
          )
    unfolding select_in_window narrowed
    select_in_window_all ready there laid enough =
        let cands = effective be above score w p ld in
        let ld1 = with_candidates be above score ld cands in
        let p1 = narrowed w l p ld in
        let found : lookup l p1.layer_data ≡ some ld1 = lookup-insert_self l ld1 p.layer_data in
        let laid1 = effective-IsLaid cands refl laid in
        rw (select_in_window, there)
          (select-Gives be sound above score l q p1 ld1 _ _ ready found laid1
            ∙ ap ok (select_all be sound above score l q p1 ld1 _ _ ready found laid1 enough))
