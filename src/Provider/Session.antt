-- ===== src/Provider/Session.antt =====
-- person1_kv_engine/adapters/transformer_kv.py: a prefill and any number of selections. Each gives a
-- part of the sequence, and all of it where all candidates may win.
use mathlib.Core.Path.{subst}
use ai_ssd.Prelude.{
  inl, inr, ℕ, fun_ext, Option-cases, Result, err, ◌≤◌, ◌<◌, ◌≡◌, refl, sym, ap, ◌∙◌, List, [], ◌∷◌,
  All, map, length, Bool, none, some, ok,
}
use ai_ssd.Prelude.Dict.{Dict, nat_key, lookup}
use ai_ssd.Prefetch.Ordered.{IsDistinct}
use ai_ssd.Provider.Backend.{KvBackend, IsSound}
use ai_ssd.Provider.State.{LayerData, Provider, init_from_prefill}
use ai_ssd.Provider.Select.{
  sort_bids, rows_for, winners, predict, bids_of, k_val_of, fetch_rows, select_from,
  select_and_fetch_active_state,
}
use ai_ssd.Provider.Picked.{Picked, blocks_for_lem}
use ai_ssd.Provider.Laid.{IsLaid}
use ai_ssd.Provider.Layers.{Prefilled, init_from_prefill-Prefilled}
use ai_ssd.Provider.RoundTrip.{predict_lem, Gives, select-Gives, select-Picked, select_all}

module _ {T B Q Score : Type 0} (be : KvBackend B (List T)) (above : Score → Score → Bool)
    (score : Q → List T → ℕ → Score) where
  -- selections of layers by queries, one after the other
  unfoldable pub selects : List (ℕ × Q) → Provider T B → Provider T B
  unfolding select_and_fetch_active_state
  selects [] p = p
  selects ((l, q) ∷ queries) p =
      selects queries (select_and_fetch_active_state be above score l (some q) p).0

module _ {T B Q Score : Type 0} (be : KvBackend B (List T)) (sound : IsSound be)
    (above : Score → Score → Bool) (score : Q → List T → ℕ → Score) where
  open sound use {held, Fresh, Ready}

  -- what a selection leaves of a provider
  record Unmoved (p after : Provider T B) : Type 0 where
    layers : after.layer_data ≡ p.layer_data
    quota : after.quota ≡ p.quota
    ready : Ready after.backend
    kept : (l i : ℕ) → held after.backend l i ≡ held p.backend l i

  Unmoved-trans : (p q r : Provider T B) → Unmoved p q → Unmoved q r → Unmoved p r
  Unmoved-trans p q r f g = record {
    layers = g.layers ∙ f.layers;
    quota = g.quota ∙ f.quota;
    ready = g.ready;
    kept = λ l i. g.kept l i ∙ f.kept l i;
  }

  Unmoved-refl : (p : Provider T B) → Ready p.backend → Unmoved p p
  Unmoved-refl p r = record { layers = refl; quota = refl; ready = r; kept = λ l i. refl }

  fetch_rows-Unmoved :
      (l : ℕ) (q : Q) (cands : List (ℕ × ℕ)) (p : Provider T B)
      → Ready p.backend
      → Unmoved p (fetch_rows be above score l q cands p).0
  unfolding fetch_rows
  fetch_rows-Unmoved l q cands p r =
      let ids = bids_of be above score cands in
      let keys : ℕ → List T = λ i. (held p.backend l i).0 in
      let b1 = (be.read_key_page_batch p.backend l ids).0 in
      let k_pages = (be.read_key_page_batch p.backend l ids).1 in
      let r1 = sound.keys.stays p.backend l ids r in
      let blocks = blocks_for_lem keys k_pages ids (sound.keys.values p.backend l ids r) in
      let chosen =
        winners be above score q (k_val_of be above score p cands) cands (map keys ids) in
      let won = bids_of be above score chosen in
      let (quiet, kept, r2) = predict_lem be sound above score p.enable_prefetch b1 l won r1 in
      let b2 = (predict be above score p.enable_prefetch b1 l won).0 in
      let v_pages = (be.read_value_page_batch b2 l won).1 in
      rw (fetch_rows, blocks, quiet)
        (settle _ (rows_for k_pages (sort_bids chosen)) (rows_for v_pages (sort_bids chosen))
          (record {
            layers = refl;
            quota = refl;
            ready = sound.values.stays b2 l won r2;
            kept = λ m i.
                sound.values.keeps b2 l won m i r2
                ∙ kept m i
                ∙ sound.keys.keeps p.backend l ids m i r;
          }))
    where
      -- the rows that are found do not matter
      settle :
          (after : Provider T B) (x y : Result (List T))
          → Unmoved p after
          → Unmoved p
              (elim x as (λ r. Provider T B × Result (List T × List T)) [
                | err e ↦ (after, err e)
                | ok k_rows ↦ elim y [
                  | err e ↦ (after, err e)
                  | ok v_rows ↦ (after, ok (k_rows, v_rows))
                ]
              ]).0
      settle after (err e) y h = h
      settle after (ok k_rows) (err e) h = h
      settle after (ok k_rows) (ok v_rows) h = h

  select-Unmoved :
      (l : ℕ) (q : Q) (p : Provider T B)
      → Ready p.backend
      → Unmoved p (select_and_fetch_active_state be above score l (some q) p).0
  unfolding select_and_fetch_active_state select_from
  select-Unmoved l q p r = elim (Option-cases (lookup l p.layer_data)) [
    | inl absent ↦ rw (select_and_fetch_active_state, absent) (Unmoved-refl p r)
    | inr (ld, there) ↦ rw (select_and_fetch_active_state, there) (from ld.candidate_blocks ld)
  ]
    where
      from :
          (cands : List (ℕ × ℕ)) (ld : LayerData T)
          → Unmoved p (select_from be above score l q ld cands p).0
      from [] ld = Unmoved-refl p r
      from (c ∷ cands) ld = fetch_rows-Unmoved l q (c ∷ cands) p r

  selects-Unmoved :
      (queries : List (ℕ × Q)) (p : Provider T B)
      → Ready p.backend
      → Unmoved p (selects be above score queries p)
  unfolding selects
  selects-Unmoved [] p r = Unmoved-refl p r
  selects-Unmoved ((l, q) ∷ queries) p r =
      let one = select-Unmoved l q p r in
      Unmoved-trans p _ _ one (selects-Unmoved queries _ one.ready)

  IsLaid-Unmoved :
      (l : ℕ) (ks vs : List T) (ld : LayerData T) (p after : Provider T B)
      → Unmoved p after
      → IsLaid ks vs (held p.backend l) ld
      → IsLaid ks vs (held after.backend l) ld
  IsLaid-Unmoved l ks vs ld p after moved laid =
      subst (λ f. IsLaid ks vs f ld) (sym (fun_ext (λ i. moved.kept l i))) laid

  module _ (layers : Dict ℕ (List T × List T)) (p : Provider T B) (size : 0 < p.tokens_per_block)
      (recent : 0 < p.recent_tokens) (distinct : IsDistinct layers)
      (even : All (λ x. length x.1.0 ≡ length x.1.1) layers) (fresh : Fresh p.backend) (l : ℕ)
      (ks vs : List T) (there : lookup l layers ≡ some (ks, vs)) (q : Q)
      (queries : List (ℕ × Q)) where
    -- the provider behind the prefill
    abbrev prefilled : Provider T B
    prefilled = (init_from_prefill be layers p).0

    prefilled-Prefilled :
        ((init_from_prefill be layers p).1 ≡ none) × Prefilled be sound layers p prefilled
    prefilled-Prefilled =
        init_from_prefill-Prefilled be sound layers p l (ks, vs) there size recent distinct even
          fresh

    -- the provider behind the prefill and the selections
    abbrev used : Provider T B
    used = selects be above score queries prefilled

    -- A layer of the prompt is still laid out as it was.
    used_layer :
        ((init_from_prefill be layers p).1 ≡ none)
        × Ready used.backend
        × (used.quota ≡ p.quota)
        × ((ld : LayerData T) × (lookup l used.layer_data ≡ some ld)
            × IsLaid ks vs (held used.backend l) ld)
    used_layer =
        let (quiet, pre) = prefilled-Prefilled in
        let (ld, found, laid) = pre.layer l ks vs there in
        let moved = selects-Unmoved queries prefilled (sound.ready _ pre.fresh) in
        (
          quiet,
          moved.ready,
          moved.quota ∙ pre.quota,
          (
            ld,
            ap (lookup l) moved.layers ∙ found,
            IsLaid-Unmoved l ks vs ld prefilled used moved laid,
          ),
        )

    -- Over a sound backend, where blocks and the recent window have rows, no layer stands twice
    -- in the prompt and every layer has as many keys as values: a prefill raises nothing, and
    -- behind it and any number of selections a selection from a layer of the prompt gives rows of
    -- that layer, each at most once and in the order of the sequence, every key with its own
    -- value, whatever the scores and the share of the candidates are.
    pub prefill-selects_picks :
        ((init_from_prefill be layers p).1 ≡ none)
        × ((r : List T × List T) × Gives be sound above score used l q r × Picked r.0 r.1 ks vs)
    prefill-selects_picks =
        let (quiet, ready, quota, (ld, found, laid)) = used_layer in
        (
          quiet,
          (
            _,
            select-Gives be sound above score l q used ld ks vs ready found laid,
            select-Picked be sound above score l q used ld ks vs ready found laid,
          ),
        )

    -- Over a sound backend, where blocks and the recent window have rows, no layer stands twice
    -- in the prompt and every layer has as many keys as values: a prefill raises nothing, and
    -- where the share of the candidates is all of them, behind it and any number of selections a
    -- selection from a layer of the prompt gives all its keys and values in order, whatever the
    -- scores are.
    pub prefill-selects_all :
        ((n : ℕ) → n ≤ p.quota n)
        → ((init_from_prefill be layers p).1 ≡ none) × Gives be sound above score used l q (ks, vs)
    prefill-selects_all enough =
        let (quiet, ready, quota, (ld, found, laid)) = used_layer in
        let all : (n : ℕ) → n ≤ used.quota n = subst (λ f. (n : ℕ) → n ≤ f n) (sym quota) enough in
        (
          quiet,
          select-Gives be sound above score l q used ld ks vs ready found laid
              ∙ ap ok (select_all be sound above score l q used ld ks vs ready found laid all),
        )
