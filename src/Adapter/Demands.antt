-- ===== src/Adapter/Demands.antt =====
-- person3_system/prefetch/inference_adapter.py: a demand read, staged or not, gives what the storage
-- holds and keeps the adapter coherent.
use ai_ssd.Prelude.{ℕ, ◌≡◌, inl, inr, refl, ap, ◌∙◌, Option, Option-cases, none, some, Result, ok}
use ai_ssd.Prelude.Dict.{pair_key, lookup}
use ai_ssd.Adapter.Interface.{KvStorage, IsLawful, AreShaped}
use ai_ssd.Adapter.State.{
  StagedInferenceBlock, RealInferencePrefetchAdapter, key_page_bytes, value_page_bytes,
}
use ai_ssd.Adapter.Reads.{
  hit, missed, or_blank, both_shaped, both_or_blank, read_key_page, read_value_page, read_block,
}
use ai_ssd.Adapter.Coherent.{Contents, IsFilled, IsCoherent}
use ai_ssd.Adapter.Hits.{hit_lem}

-- the arrays that a storage holds, as a block: a staged one is reshaped to the default shape
abbrev pub given :
    {A S : Type 0} → KvStorage S A → Option (StagedInferenceBlock A) → A × A → Result (A × A)
given st none p = ok p
given st (some e) p = both_shaped st p.0 p.1

module _ {A S : Type 0} (st : KvStorage S A) (law : IsLawful st) (held : Contents A) where
  -- a result of a read that leaves the adapter coherent
  abbrev pub Gives : {X : Type 0} → RealInferencePrefetchAdapter S A × X → X → Type 0
  Gives r x = IsCoherent held law r.0 × (r.1 ≡ x)

  -- what a staged entry gives as a block
  pub filled-both :
      (l b : ℕ) (e : StagedInferenceBlock A)
      → IsFilled held (l, b) e
      → both_or_blank st e.data_k e.data_v ≡ both_shaped st (held l b).0 (held l b).1
  filled-both l b e filled = rw (filled.1, filled.2) refl

  pub shaped-both : (p : A × A) → AreShaped st p → both_shaped st p.0 p.1 ≡ ok p
  shaped-both p shaped = rw (shaped.key, shaped.value) refl

  -- after a miss the storage holds the same
  missed-IsCoherent :
      (n : ℕ) (s : S) (a : RealInferencePrefetchAdapter S A)
      → ((m c : ℕ) → law.held s m c ≡ law.held a.storage_backend m c)
      → IsCoherent held law a
      → IsCoherent held law (missed st a s n)
  missed-IsCoherent n s a keeps coh = record {
    storage = λ m c. keeps m c ∙ coh.storage m c;
    entries = coh.entries;
    served = coh.served;
    fresh = coh.fresh;
  }

  module _ (l b h t : ℕ) (a : RealInferencePrefetchAdapter S A) (coh : IsCoherent held law a) where
    -- a block is given as it is held, or, where it is staged, reshaped
    pub read_block-held :
        IsCoherent held law (read_block st l b h t a).0
        × ((read_block st l b h t a).1 ≡ given st (lookup (l, b) a.staging_buffer) (held l b))
    unfolding read_block
    read_block-held = elim (Option-cases (lookup (l, b) a.staging_buffer)) [
      | inl e ↦
          rw (read_block, e)
            (
              missed-IsCoherent a.bytes_per_block _ a (law.block.keeps a.storage_backend l b h t)
                  coh,
              ap ok (law.block.value a.storage_backend l b h t ∙ coh.storage l b),
            )
      | inr (x, e) ↦
          let (after, filled) = hit_lem st law held l b a.bytes_per_block a x e coh in
          rw (read_block, e) (after, filled-both l b (hit st (l, b) x a.bytes_per_block a).1 filled)
    ]

    pub read_key_page-held : Gives (read_key_page st l b h t a) (held l b).0
    unfolding read_key_page
    read_key_page-held = go (lookup (l, b) a.staging_buffer) refl
      where
        go :
            (o : Option (StagedInferenceBlock A))
            → lookup (l, b) a.staging_buffer ≡ o
            → Gives (read_key_page st l b h t a) (held l b).0
        go none e =
            rw (read_key_page, e)
              (
                missed-IsCoherent key_page_bytes _ a (law.key_page.keeps a.storage_backend l b h t)
                    coh,
                law.key_page.value a.storage_backend l b h t
                    ∙ ap (λ (p : A × A). p.0) (coh.storage l b),
              )
        go (some x) e =
            let (after, filled) = hit_lem st law held l b key_page_bytes a x e coh in
            rw (read_key_page, e) (after, ap (or_blank st) filled.1)

    pub read_value_page-held : Gives (read_value_page st l b h t a) (held l b).1
    unfolding read_value_page
    read_value_page-held = go (lookup (l, b) a.staging_buffer) refl
      where
        go :
            (o : Option (StagedInferenceBlock A))
            → lookup (l, b) a.staging_buffer ≡ o
            → Gives (read_value_page st l b h t a) (held l b).1
        go none e =
            rw (read_value_page, e)
              (
                missed-IsCoherent value_page_bytes _ a
                    (law.value_page.keeps a.storage_backend l b h t) coh,
                law.value_page.value a.storage_backend l b h t
                    ∙ ap (λ (p : A × A). p.1) (coh.storage l b),
              )
        go (some x) e =
            let (after, filled) = hit_lem st law held l b value_page_bytes a x e coh in
            rw (read_value_page, e) (after, ap (or_blank st) filled.2)
