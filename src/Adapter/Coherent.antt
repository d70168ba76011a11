-- ===== src/Adapter/Coherent.antt =====
-- person3_system/prefetch/inference_adapter.py: the staging buffer and the tasks of the workers
-- agree with what the storage holds.
use mathlib.Core.Path.{subst}
use ai_ssd.Prelude.{
  Among, ℕ, ◌<◌, ◌≡◌, ◌≢◌, ◌⊎◌, inl, inr, refl, sym, ap, ◌∙◌, none, some, [], ◌∷◌, All,
  Option-cases, ℕ_discrete,
}
use ai_ssd.Prelude.Dict.{
  Dict, nat_key, pair_key, lookup, lookup-cons_ne, lookup-insert_self, lookup-insert_ne,
}
use ai_ssd.Prefetch.Ordered.{All-lookup, All-insert}
use ai_ssd.Adapter.Interface.{KvStorage, IsLawful}
use ai_ssd.Adapter.State.{StagedInferenceBlock, Task, Buffer, RealInferencePrefetchAdapter}
use ai_ssd.Adapter.Staging.{fill, populate}

-- the arrays of every layer and block
abbrev pub Contents : Type 0 → Type 0
Contents A = ℕ → ℕ → A × A

module _ {A : Type 0} (held : Contents A) where
  -- an entry with its arrays
  abbrev pub IsFilled : ℕ × ℕ → StagedInferenceBlock A → Type 0
  IsFilled (l, b) e =
      (e.future ≡ none) × (e.data_k ≡ some (held l b).0) × (e.data_v ≡ some (held l b).1)

  -- an entry that waits for a task which asked for its block
  abbrev pub Waits : Dict ℕ (Task A) → ℕ × ℕ → StagedInferenceBlock A → Type 0
  Waits tasks (l, b) e =
      (n : ℕ) × (t : Task A) × (e.future ≡ some n)
      × (lookup n tasks ≡ some t)
      × (t.layer_id ≡ l)
      × Among b t.block_ids

  abbrev pub IsGood : Dict ℕ (Task A) → ℕ × ℕ → StagedInferenceBlock A → Type 0
  IsGood tasks key e = (e.layer_id ≡ key.0) × (IsFilled key e ⊎ Waits tasks key e)

  abbrev pub AreGood : Dict ℕ (Task A) → Buffer A → Type 0
  AreGood tasks d = All (λ p. IsGood tasks p.0 p.1) d

  -- the result of a task: held arrays, those of every block that it asked for
  abbrev pub Serves : Task A → Dict ℕ (A × A) → Type 0
  Serves t batch =
      All (λ p. p.1 ≡ held t.layer_id p.0) batch
      × All (λ b. (p : A × A) × (lookup b batch ≡ some p)) t.block_ids

  abbrev filled : A × A → StagedInferenceBlock A → StagedInferenceBlock A
  filled p e = record e { data_k = some p.0; data_v = some p.1; future = none }

  fill_self :
      (key : ℕ × ℕ) (p : A × A) (d : Buffer A) (e : StagedInferenceBlock A)
      → lookup key d ≡ some e
      → lookup key (fill key p d) ≡ some (filled p e)
  unfolding fill
  fill_self key p d e h = rw (fill, h) (lookup-insert_self key (filled p e) d)

  fill-none : (key : ℕ × ℕ) (p : A × A) (d : Buffer A) → lookup key d ≡ none → fill key p d ≡ d
  unfolding fill
  fill-none key p d h = rw (fill, h) refl

  fill_ne :
      (key j : ℕ × ℕ) (p : A × A) (d : Buffer A) → key ≢ j → lookup j (fill key p d) ≡ lookup j d
  unfolding fill
  fill_ne key j p d ne = elim (Option-cases (lookup key d)) [
    | inl missing ↦ ap (lookup j) (fill-none key p d missing)
    | inr (e, there) ↦ rw (fill, there) (lookup-insert_ne key j (filled p e) d ne)
  ]

  pub filled-IsFilled :
      (l b : ℕ) (p : A × A) (e : StagedInferenceBlock A)
      → p ≡ held l b
      → IsFilled (l, b) (filled p e)
  filled-IsFilled l b p e same =
      (refl, ap (λ (q : A × A). some q.0) same, ap (λ (q : A × A). some q.1) same)

  fill-AreGood :
      (tasks : Dict ℕ (Task A)) (l b : ℕ) (p : A × A) (d : Buffer A)
      → p ≡ held l b
      → AreGood tasks d
      → AreGood tasks (fill (l, b) p d)
  unfolding fill
  fill-AreGood tasks l b p d same good = elim (Option-cases (lookup (l, b) d)) [
    | inl missing ↦ rw (fill, missing) good
    | inr (old, there) ↦
        let was_good = All-lookup (λ x. IsGood tasks x.0 x.1) (l, b) old d good there in
        rw (fill, there)
          (All-insert (λ x. IsGood tasks x.0 x.1) (l, b) (filled p old) d good
            (was_good.0, inl (filled-IsFilled l b p old same)))
  ]

  pub populate-AreGood :
      (tasks : Dict ℕ (Task A)) (l : ℕ) (batch : Dict ℕ (A × A)) (d : Buffer A)
      → All (λ p. p.1 ≡ held l p.0) batch
      → AreGood tasks d
      → AreGood tasks (populate l batch d)
  unfolding populate
  populate-AreGood tasks l [] d all good = good
  populate-AreGood tasks l ((b, p) ∷ batch) d all good =
      populate-AreGood tasks l batch (fill (l, b) p d) all.1 (fill-AreGood tasks l b p d all.0 good)

  pub populate_fills :
      (l b : ℕ) (batch : Dict ℕ (A × A)) (d : Buffer A) (e : StagedInferenceBlock A)
      → All (λ p. p.1 ≡ held l p.0) batch
      → lookup (l, b) d ≡ some e
      → IsFilled (l, b) e ⊎ ((p : A × A) × (lookup b batch ≡ some p))
      → (now : StagedInferenceBlock A) × (lookup (l, b) (populate l batch d) ≡ some now)
        × IsFilled (l, b) now
  unfolding populate lookup
  populate_fills l b [] d e all there (inl done) = (e, there, done)
  populate_fills l b [] d e all there (inr (p, found)) = cc
  populate_fills l b ((c, p) ∷ batch) d e all there h = elim (ℕ_discrete c b) [
    | yes eq ↦
        populate_fills l b batch (fill (l, c) p d) (filled p e) all.1
          (subst (λ x. lookup (l, b) (fill (l, x) p d) ≡ some (filled p e)) (sym eq)
            (fill_self (l, b) p d e there))
          (inl (filled-IsFilled l b p e (all.0 ∙ ap (held l) eq)))
    | no ne ↦
        populate_fills l b batch (fill (l, c) p d) e all.1
          (fill_ne (l, c) (l, b) p d (λ k. ne (ap (λ (x : ℕ × ℕ). x.1) k)) ∙ there) (later ne h)
  ]
    where
      later :
          ¬ (c ≡ b)
          → IsFilled (l, b) e ⊎ ((q : A × A) × (lookup b ((c, p) ∷ batch) ≡ some q))
          → IsFilled (l, b) e ⊎ ((q : A × A) × (lookup b batch ≡ some q))
      later ne (inl done) = inl done
      later ne (inr (q, found)) = inr (q, sym (lookup-cons_ne c b p batch ne) ∙ found)

  -- what the adapter is to keep: the storage holds the arrays, every entry has its own or waits for
  -- them, and every task that has run has them
  pub record IsCoherent {S : Type 0} {st : KvStorage S A} (law : IsLawful st)
      (a : RealInferencePrefetchAdapter S A) : Type 0 where
    pub storage : (l b : ℕ) → law.held a.storage_backend l b ≡ held l b
    pub entries : AreGood a.tasks a.staging_buffer
    pub served :
        (n : ℕ) (t : Task A) (batch : Dict ℕ (A × A))
        → lookup n a.tasks ≡ some t
        → t.result ≡ some batch
        → Serves t batch
    pub fresh : (n : ℕ) (t : Task A) → lookup n a.tasks ≡ some t → n < a.next_task
