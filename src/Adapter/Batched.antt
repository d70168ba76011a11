-- ===== src/Adapter/Batched.antt =====
-- person3_system/prefetch/inference_adapter.py: a batch of demand reads gives what the storage holds
-- for every block of the batch, staged or not, and keeps the adapter coherent.
use ai_ssd.Prelude.{
  Among, All-Among, ℕ, ◌≡◌, ◌⊎◌, inl, inr, refl, sym, ap, ◌∙◌, Option-cases, some, List, [], ◌∷◌,
  ◌++◌, All, All-map, ℕ_discrete, arith, Result, ok, Result-cases,
}
use ai_ssd.Prelude.Dict.{
  Dict, nat_key, pair_key, lookup, insert, lookup-insert_self, lookup-insert_ne,
}
use ai_ssd.Prefetch.Ordered.{All-insert, All-lookup}
use mathlib.Core.Path.{subst}
use ai_ssd.Adapter.Interface.{KvStorage, IsLawful, IsBatchRead, AreShaped}
use ai_ssd.Adapter.State.{
  StagedInferenceBlock, RealInferencePrefetchAdapter, key_page_bytes, value_page_bytes,
}
use ai_ssd.Adapter.Reads.{
  hit, or_blank, update, probe, fetch_missing, read_batch, read_key_page_batch,
  read_value_page_batch, read_block_batch,
}
use ai_ssd.Adapter.Coherent.{Contents, IsFilled, IsCoherent}
use ai_ssd.Adapter.Hits.{hit_lem}
use ai_ssd.Adapter.Demands.{filled-both, shaped-both}

module _ {X : Type 0} where
  abbrev pub Has : Dict ℕ X → ℕ → Type 0
  Has d b = (x : X) × (lookup b d ≡ some x)

  Has-insert_self : (b : ℕ) (x : X) (d : Dict ℕ X) → Has (insert b x d) b
  Has-insert_self b x d = (x, lookup-insert_self b x d)

  Has-insert : (k b : ℕ) (x : X) (d : Dict ℕ X) → Has d b → Has (insert k x d) b
  Has-insert k b x d (y, h) = elim (ℕ_discrete k b) [
    | yes eq ↦ subst (λ c. Has (insert k x d) c) eq (Has-insert_self k x d)
    | no ne ↦ (y, lookup-insert_ne k b x d ne ∙ h)
  ]

  -- `results.update(fetched)` keeps what is there and adds what was fetched.
  update-All :
      (P : ℕ × X → Type 0) (fetched results : Dict ℕ X)
      → All P fetched
      → All P results
      → All P (update fetched results)
  update-All P [] results new all = all
  update-All P ((b, x) ∷ fetched) results new all =
      update-All P fetched (insert b x results) new.1 (All-insert P b x results all new.0)

  update-Has : (b : ℕ) (fetched results : Dict ℕ X) → Has results b → Has (update fetched results) b
  update-Has b [] results h = h
  update-Has b ((c, x) ∷ fetched) results h =
      update-Has b fetched (insert c x results) (Has-insert c b x results h)

  update-Has_fetched :
      (b : ℕ) (fetched results : Dict ℕ X) → Has fetched b → Has (update fetched results) b
  unfolding lookup
  update-Has_fetched b [] results (y, h) = cc
  update-Has_fetched b ((c, x) ∷ fetched) results (y, h) = elim (ℕ_discrete c b) [
    | yes eq ↦
        update-Has b fetched (insert c x results)
          (subst (λ k. Has (insert c x results) k) eq (Has-insert_self c x results))
    | no ne ↦ update-Has_fetched b fetched (insert c x results) (y, ground arith)
  ]

Among-append_left : (b : ℕ) (xs ys : List ℕ) → Among b xs → Among b (xs ++ ys)
Among-append_left b [] ys h = absurd h
Among-append_left b (x ∷ xs) ys (inl e) = inl e
Among-append_left b (x ∷ xs) ys (inr h) = inr (Among-append_left b xs ys h)

Among-append_last : (b : ℕ) (xs : List ℕ) → Among b (xs ++ b ∷ [])
Among-append_last b [] = inl refl
Among-append_last b (x ∷ xs) = inr (Among-append_last b xs)

module _ {A S X : Type 0} (st : KvStorage S A) (law : IsLawful st) (held : Contents A) (l : ℕ)
    (part : A × A → X) where
  -- the results of a batch have only what is held
  abbrev Right : Dict ℕ X → Type 0
  Right d = All (λ p. p.1 ≡ part (held l p.0)) d

  module _ (n : ℕ) (value : StagedInferenceBlock A → Result X) where
    -- what the loop over the staged blocks keeps, whether it raises or not
    probe-IsCoherent :
        (bids : List ℕ) (a : RealInferencePrefetchAdapter S A) (found : Dict ℕ X × List ℕ)
        → IsCoherent held law a
        → IsCoherent held law (probe st l n value bids a found).0
    unfolding probe
    probe-IsCoherent [] a found coh = coh
    probe-IsCoherent (c ∷ bids) a (results, misses) coh =
        elim (Option-cases (lookup (l, c) a.staging_buffer)) [
          | inl absent ↦
              rw (probe, absent)
                (probe-IsCoherent bids _ (results, misses ++ c ∷ [])
                  (record {
                    storage = coh.storage;
                    entries = coh.entries;
                    served = coh.served;
                    fresh = coh.fresh;
                  }))
          | inr (e, staged) ↦
              let (after, filled) = hit_lem st law held l c n a e staged coh in
              let (r, now) = hit st (l, c) e n a in
              elim (Result-cases (value now)) [
                | inl (x, it) ↦
                    rw (probe, staged, it)
                      (probe-IsCoherent bids r (insert c x results, misses) after)
                | inr (raised, it) ↦ rw (probe, staged, it) after
              ]
        ]

    -- the outcome of the loop where it does not raise: what is held, and no block is passed over
    abbrev Outcome : List ℕ → Dict ℕ X → List ℕ → Result (Dict ℕ X × List ℕ) → Type 0
    Outcome bids results misses r =
        (f : Dict ℕ X × List ℕ) × (r ≡ ok f)
        × Right f.0
        × ((b : ℕ) → Has results b ⊎ (Among b misses ⊎ Among b bids) → Has f.0 b ⊎ Among b f.1)

    Outcome-hit :
        (c : ℕ) (x : X) (bids : List ℕ) (results : Dict ℕ X) (misses : List ℕ)
        (r : Result (Dict ℕ X × List ℕ))
        → Outcome bids (insert c x results) misses r
        → Outcome (c ∷ bids) results misses r
    Outcome-hit c x bids results misses r (f, went, right, covers) = (f, went, right, all)
      where
        all :
            (b : ℕ)
            → Has results b ⊎ (Among b misses ⊎ Among b (c ∷ bids))
            → Has f.0 b ⊎ Among b f.1
        all b (inl h) = covers b (inl (Has-insert c b x results h))
        all b (inr (inl h)) = covers b (inr (inl h))
        all b (inr (inr (inl e))) =
            covers b
              (inl (subst (λ k. Has (insert c x results) k) (sym e) (Has-insert_self c x results)))
        all b (inr (inr (inr h))) = covers b (inr (inr h))

    Outcome-miss :
        (c : ℕ) (bids : List ℕ) (results : Dict ℕ X) (misses : List ℕ)
        (r : Result (Dict ℕ X × List ℕ))
        → Outcome bids results (misses ++ c ∷ []) r
        → Outcome (c ∷ bids) results misses r
    Outcome-miss c bids results misses r (f, went, right, covers) = (f, went, right, all)
      where
        all :
            (b : ℕ)
            → Has results b ⊎ (Among b misses ⊎ Among b (c ∷ bids))
            → Has f.0 b ⊎ Among b f.1
        all b (inl h) = covers b (inl h)
        all b (inr (inl h)) = covers b (inr (inl (Among-append_left b misses (c ∷ []) h)))
        all b (inr (inr (inl e))) =
            covers b
              (inr (inl (subst (λ k. Among b (misses ++ k ∷ [])) e (Among-append_last b misses))))
        all b (inr (inr (inr h))) = covers b (inr (inr h))

    -- a staged block gives the part that is held
    abbrev IsValued : ℕ → Type 0
    IsValued b =
        (e : StagedInferenceBlock A) → IsFilled held (l, b) e → value e ≡ ok (part (held l b))

    probe_lem :
        (bids : List ℕ) (a : RealInferencePrefetchAdapter S A) (results : Dict ℕ X)
        (misses : List ℕ)
        → All IsValued bids
        → IsCoherent held law a
        → Right results
        → Outcome bids results misses (probe st l n value bids a (results, misses)).1
    unfolding probe
    probe_lem [] a results misses valued coh right = (
      (results, misses),
      refl,
      right,
      λ b h. elim h [ inl x ↦ inl x | inr (inl m) ↦ inr m | inr (inr m) ↦ absurd m ],
    )
    probe_lem (c ∷ bids) a results misses valued coh right =
        elim (Option-cases (lookup (l, c) a.staging_buffer)) [
          | inl absent ↦
              rw (probe, absent)
                (Outcome-miss c bids results misses _ (
                  probe_lem bids _ results (misses ++ c ∷ []) valued.1
                    (record {
                      storage = coh.storage;
                      entries = coh.entries;
                      served = coh.served;
                      fresh = coh.fresh;
                    })
                    right))
          | inr (e, staged) ↦
              let (after, filled) = hit_lem st law held l c n a e staged coh in
              let (r, now) = hit st (l, c) e n a in
              let x = part (held l c) in
              let it : value now ≡ ok x = valued.0 now filled in
              rw (probe, staged, it)
                (Outcome-hit c x bids results misses _ (
                  probe_lem bids r (insert c x results) misses valued.1 after
                    (All-insert (λ p. p.1 ≡ part (held l p.0)) c x results right refl)))
        ]

    module _ (fetch : S → ℕ → List ℕ → (head_id token_start : ℕ) → S × Dict ℕ X)
        (fetches : IsBatchRead law.held part fetch) where
      fetch_missing-IsCoherent :
          (h t : ℕ) (a : RealInferencePrefetchAdapter S A) (results : Dict ℕ X) (misses : List ℕ)
          → IsCoherent held law a
          → IsCoherent held law (fetch_missing st fetch l n h t a results misses).0
      unfolding fetch_missing
      fetch_missing-IsCoherent h t a results [] coh = coh
      fetch_missing-IsCoherent h t a results (c ∷ misses) coh = record {
        storage = λ m k. fetches.keeps a.storage_backend l (c ∷ misses) h t m k ∙ coh.storage m k;
        entries = coh.entries;
        served = coh.served;
        fresh = coh.fresh;
      }

      -- The missing blocks are added, and none is left.
      fetch_missing_lem :
          (h t : ℕ) (a : RealInferencePrefetchAdapter S A) (results : Dict ℕ X) (misses : List ℕ)
          → IsCoherent held law a
          → Right results
          → Right (fetch_missing st fetch l n h t a results misses).1
            × ((b : ℕ)
                → Has results b ⊎ Among b misses
                → Has (fetch_missing st fetch l n h t a results misses).1 b)
      unfolding fetch_missing
      fetch_missing_lem h t a results [] coh right =
          (right, λ b k. elim k [ inl x ↦ x | inr m ↦ absurd m ])
      fetch_missing_lem h t a results (c ∷ misses) coh right =
          let bids = c ∷ misses in
          let s = a.storage_backend in
          (
            update-All (λ p. p.1 ≡ part (held l p.0)) _ results
                (All-map _ _ _ (λ p e. e ∙ ap part (coh.storage l p.0))
                  (fetches.values s l bids h t))
                right,
            λ b k. elim k [
              | inl x ↦ update-Has b (fetch s l bids h t).1 results x
              | inr m ↦ update-Has_fetched b (fetch s l bids h t).1 results (
                  All-Among (λ d. Has (fetch s l bids h t).1 d) b bids m (fetches.all s l bids h t))
            ],
          )

      -- A batch keeps the adapter coherent, whether it raises or not.
      read_batch-IsCoherent :
          (bids : List ℕ) (h t : ℕ) (a : RealInferencePrefetchAdapter S A)
          → IsCoherent held law a
          → IsCoherent held law (read_batch st fetch n value l bids h t a).0
      unfolding read_batch
      read_batch-IsCoherent [] h t a coh = coh
      read_batch-IsCoherent (c ∷ bids) h t a coh =
          let p = probe st l n value (c ∷ bids) a ([], []) in
          let probed = probe-IsCoherent (c ∷ bids) a ([], []) coh in
          elim (Result-cases p.1) [
            | inl ((results, misses), it) ↦
                let after = fetch_missing-IsCoherent h t p.0 results misses probed in
                rw (read_batch, it)
                  (record {
                    storage = after.storage;
                    entries = after.entries;
                    served = after.served;
                    fresh = after.fresh;
                  })
            | inr (raised, it) ↦ rw (read_batch, it) probed
          ]

      -- Where the staged blocks can be given, a batch gives every block that was asked for.
      read_batch_lem :
          (bids : List ℕ) (h t : ℕ) (a : RealInferencePrefetchAdapter S A)
          → All IsValued bids
          → IsCoherent held law a
          → (d : Dict ℕ X) × ((read_batch st fetch n value l bids h t a).1 ≡ ok d)
            × ((b : ℕ) → Among b bids → lookup b d ≡ some (part (held l b)))
      unfolding read_batch
      read_batch_lem [] h t a valued coh = ([], refl, λ b m. absurd m)
      read_batch_lem (c ∷ bids) h t a valued coh =
          let (f, went, right, covers) = probe_lem (c ∷ bids) a [] [] valued coh tt in
          let p = probe st l n value (c ∷ bids) a ([], []) in
          let probed = probe-IsCoherent (c ∷ bids) a ([], []) coh in
          let (all, has) = fetch_missing_lem h t p.0 f.0 f.1 probed right in
          (
            (fetch_missing st fetch l n h t p.0 f.0 f.1).1,
            rw (read_batch, went) refl,
            λ b m.
                let (x, found) = has b (covers b (inr (inr m))) in
                let same : x ≡ part (held l b) =
                  All-lookup (λ q. q.1 ≡ part (held l q.0)) b x _ all found in
                found ∙ ap some same,
          )

module _ {A S : Type 0} (st : KvStorage S A) (law : IsLawful st) (held : Contents A) (l h t : ℕ)
    (bids : List ℕ) (a : RealInferencePrefetchAdapter S A) (coh : IsCoherent held law a) where
  pub read_block_batch-IsCoherent : IsCoherent held law (read_block_batch st l bids h t a).0
  read_block_batch-IsCoherent =
      read_batch-IsCoherent st law held l (λ p. p) a.bytes_per_block _ st.read_block_batch
        law.block_batch bids h t a coh

  pub read_key_page_batch-IsCoherent : IsCoherent held law (read_key_page_batch st l bids h t a).0
  read_key_page_batch-IsCoherent =
      read_batch-IsCoherent st law held l (λ p. p.0) key_page_bytes _ st.read_key_page_batch
        law.key_batch bids h t a coh

  pub read_value_page_batch-IsCoherent :
      IsCoherent held law (read_value_page_batch st l bids h t a).0
  read_value_page_batch-IsCoherent =
      read_batch-IsCoherent st law held l (λ p. p.1) value_page_bytes _ st.read_value_page_batch
        law.value_batch bids h t a coh

  -- the blocks of the batch have the default shape
  abbrev pub AllShaped : Type 0
  AllShaped = All (λ b. AreShaped st (held l b)) bids

  -- a batch that gives a part of what is held, for every block
  abbrev pub GivesAll : {X : Type 0} → (A × A → X) → Result (Dict ℕ X) → Type 0
  GivesAll {X} part r =
      (d : Dict ℕ X) × (r ≡ ok d) × ((b : ℕ) → Among b bids → lookup b d ≡ some (part (held l b)))

  pub read_block_batch-held : AllShaped → GivesAll (λ p. p) (read_block_batch st l bids h t a).1
  read_block_batch-held shaped =
      read_batch_lem st law held l (λ p. p) a.bytes_per_block _ st.read_block_batch law.block_batch
        bids h t a
        (All-map _ _ bids
          (λ b s e filled.
            filled-both st law held l b e filled ∙ shaped-both st law held (held l b) s)
          shaped)
        coh

  pub read_key_page_batch-held :
      AllShaped → GivesAll (λ p. p.0) (read_key_page_batch st l bids h t a).1
  read_key_page_batch-held shaped =
      read_batch_lem st law held l (λ p. p.0) key_page_bytes _ st.read_key_page_batch law.key_batch
        bids h t a
        (All-map _ _ bids
          (λ b s e filled. ap (λ o. st.as_default_shape (or_blank st o)) filled.1 ∙ s.key) shaped)
        coh

  pub read_value_page_batch-held :
      AllShaped → GivesAll (λ p. p.1) (read_value_page_batch st l bids h t a).1
  read_value_page_batch-held shaped =
      read_batch_lem st law held l (λ p. p.1) value_page_bytes _ st.read_value_page_batch
        law.value_batch bids h t a
        (All-map _ _ bids
          (λ b s e filled. ap (λ o. st.as_default_shape (or_blank st o)) filled.2 ∙ s.value) shaped)
        coh
