-- ===== src/Adapter/Filling.antt =====
-- person3_system/prefetch/inference_adapter.py: making room, staging an entry and submitting a task
-- keep the adapter coherent.
use ai_ssd.Prelude.{
  Among, ℕ, ◌+◌, ◌≡◌, ◌⊎◌, inl, inr, refl, sym, ap, ◌∙◌, false, Option, none, some, List, [], ◌∷◌,
  All, arith, Option-cases, length, leb, Bool-cases,
}
use ai_ssd.Prelude.Dict.{Dict, nat_key, pair_key, lookup, insert, lookup-insert_inv}
use ai_ssd.Prefetch.Ordered.{All-lookup, All-insert}
use ai_ssd.Adapter.Interface.{KvStorage, IsLawful}
use ai_ssd.Adapter.State.{
  StagedInferenceBlock, Task, Buffer, Counters, RealInferencePrefetchAdapter, make_room,
  ensure_buffer_capacity, count_evicted,
}
use ai_ssd.Adapter.Staging.{ensure_for, stage, stage_pending, stage_fetched, count_peak}
use ai_ssd.Adapter.Coherent.{Contents, IsFilled, Waits, IsGood, IsCoherent}
use ai_ssd.Adapter.Workers.{Extends-fresh, AreGood-Extends}

make_room-All :
    {A : Type 0} (P : (ℕ × ℕ) × StagedInferenceBlock A → Type 0) (capacity : ℕ) (d : Buffer A)
    (c : Counters)
    → All P d
    → All P (make_room capacity d c).0.0
unfolding make_room
make_room-All P capacity [] c all = elim (Bool-cases (leb capacity 0)) [
  | inl e ↦ rw e tt
  | inr e ↦ rw e tt
]
make_room-All P capacity ((k, e) ∷ d) c all =
    elim (Bool-cases (leb capacity (length ((k, e) ∷ d)))) [
      | inl full ↦ rw full (make_room-All P capacity d (count_evicted c e) all.1)
      | inr room ↦ rw room all
    ]

module _ {A S : Type 0} (st : KvStorage S A) (law : IsLawful st) (held : Contents A) where
  abbrev Coherent : RealInferencePrefetchAdapter S A → Type 0
  Coherent = IsCoherent held law

  ensure-IsCoherent :
      (a : RealInferencePrefetchAdapter S A) → Coherent a → Coherent (ensure_buffer_capacity a).0
  unfolding ensure_buffer_capacity
  ensure-IsCoherent a coh = record {
    storage = coh.storage;
    entries = make_room-All _ a.buffer_capacity_blocks a.staging_buffer a.counters coh.entries;
    served = coh.served;
    fresh = coh.fresh;
  }

  pub ensure_for-IsCoherent :
      (bids : List ℕ) (a : RealInferencePrefetchAdapter S A)
      → Coherent a
      → Coherent (ensure_for st bids a).0
  unfolding ensure_for
  ensure_for-IsCoherent [] a coh = coh
  ensure_for-IsCoherent (b ∷ bids) a coh = elim (Option-cases (ensure_buffer_capacity a).1) [
    | inl went ↦
        rw (ensure_for, went)
          (ensure_for-IsCoherent bids (ensure_buffer_capacity a).0 (ensure-IsCoherent a coh))
    | inr (e, raised) ↦ rw (ensure_for, raised) (ensure-IsCoherent a coh)
  ]

  -- A new entry that is filled or waits.
  stage-IsCoherent :
      (l b h : ℕ) (k v : Option A) (future : Option ℕ) (a : RealInferencePrefetchAdapter S A)
      → ((e : StagedInferenceBlock A)
          → e.data_k ≡ k
          → e.data_v ≡ v
          → e.future ≡ future
          → IsFilled held (l, b) e ⊎ Waits held a.tasks (l, b) e)
      → Coherent a
      → Coherent (stage st l b h k v future a)
  unfolding stage
  stage-IsCoherent l b h k v future a good coh = record {
    storage = coh.storage;
    entries =
        All-insert (λ x. IsGood held a.tasks x.0 x.1) (l, b) _ a.staging_buffer coh.entries
          (refl, good entry refl refl refl);
    served = coh.served;
    fresh = coh.fresh;
  }
    where
      entry : StagedInferenceBlock A
      entry = record {
        block_id = b;
        layer_id = l;
        head_id = h;
        size_bytes = a.bytes_per_block;
        data_k = k;
        data_v = v;
        future = future;
        is_useful = false;
      }

  -- the task of a number asks for all the blocks of a layer
  abbrev Asked : RealInferencePrefetchAdapter S A → ℕ → ℕ → List ℕ → Type 0
  Asked a n l bids =
      (t : Task A) × (lookup n a.tasks ≡ some t)
      × (t.layer_id ≡ l)
      × All (λ b. Among b t.block_ids) bids

  pub stage_pending-IsCoherent :
      (l h n : ℕ) (bids : List ℕ) (a : RealInferencePrefetchAdapter S A)
      → Asked a n l bids
      → Coherent a
      → Coherent (stage_pending st l h n bids a)
  unfolding stage_pending stage
  stage_pending-IsCoherent l h n [] a asked coh = coh
  stage_pending-IsCoherent l h n (b ∷ bids) a (t, there, layer, among) coh =
      stage_pending-IsCoherent l h n bids (stage st l b h none none (some n) a)
        (t, there, layer, among.1)
        (stage-IsCoherent l b h none none (some n) a
          (λ e k v future. inr (n, t, future, there, layer, among.0)) coh)

  IsFilled-or-Waits :
      (tasks : Dict ℕ (Task A)) (l b : ℕ) (p : A × A)
      → p ≡ held l b
      → (e : StagedInferenceBlock A) → e.data_k ≡ some p.0
      → e.data_v ≡ some p.1
      → e.future ≡ none
      → IsFilled held (l, b) e ⊎ Waits held tasks (l, b) e
  IsFilled-or-Waits tasks l b p same e k v future =
      inl (future, k ∙ ap (λ (x : A × A). some x.0) same, v ∙ ap (λ (x : A × A). some x.1) same)

  pub stage_fetched-IsCoherent :
      (l h t : ℕ) (fetched : Dict ℕ (A × A)) (bids : List ℕ) (a : RealInferencePrefetchAdapter S A)
      → All (λ p. p.1 ≡ held l p.0) fetched
      → Coherent a
      → Coherent (stage_fetched st l h t fetched bids a)
  unfolding stage_fetched stage
  stage_fetched-IsCoherent l h t fetched [] a all coh = coh
  stage_fetched-IsCoherent l h t fetched (b ∷ bids) a all coh =
      elim (Option-cases (lookup b fetched)) [
        | inr (p, found) ↦
            let same : p ≡ held l b = All-lookup (λ x. x.1 ≡ held l x.0) b p fetched all found in
            rw (stage_fetched, found)
              (stage_fetched-IsCoherent l h t fetched bids _ all (
                stage-IsCoherent l b h (some p.0) (some p.1) none a
                  (IsFilled-or-Waits a.tasks l b p same) coh))
        | inl absent ↦
            let p = (st.read_block a.storage_backend l b h t).1 in
            let same : p ≡ held l b = law.block.value a.storage_backend l b h t ∙ coh.storage l b in
            rw (stage_fetched, absent)
              (stage_fetched-IsCoherent l h t fetched bids _ all (
                stage-IsCoherent l b h (some p.0) (some p.1) none _
                  (IsFilled-or-Waits a.tasks l b p same)
                  (record {
                    storage =
                        λ m c. law.block.keeps a.storage_backend l b h t m c ∙ coh.storage m c;
                    entries = coh.entries;
                    served = coh.served;
                    fresh = coh.fresh;
                  })))
      ]

  pub peak-IsCoherent :
      (a : RealInferencePrefetchAdapter S A) → Coherent a → Coherent (count_peak st a)
  peak-IsCoherent a coh = record {
    storage = coh.storage;
    entries = coh.entries;
    served = coh.served;
    fresh = coh.fresh;
  }

  -- A task that is submitted is a new one, and waits.
  pub submit-IsCoherent :
      (t : Task A) (a : RealInferencePrefetchAdapter S A)
      → t.result ≡ none
      → Coherent a
      → Coherent (record a { tasks = insert a.next_task t a.tasks; next_task = a.next_task + 1 })
  submit-IsCoherent t a waiting coh = record {
    storage = coh.storage;
    entries =
        AreGood-Extends held a.tasks _ a.staging_buffer
          (Extends-fresh a.next_task t a.tasks coh.fresh) coh.entries;
    served = λ n u batch h done. elim (lookup-insert_inv a.next_task n t u a.tasks h) [
      | inl (eq, same) ↦
          let no_result : none ≡ some batch =
            sym waiting ∙ ap (λ (x : Task A). x.result) same ∙ done in
          cc
      | inr (ne, old) ↦ coh.served n u batch old done
    ];
    fresh = λ n u h. elim (lookup-insert_inv a.next_task n t u a.tasks h) [
      | inl (eq, same) ↦ omega arith
      | inr (ne, old) ↦ omega (arith, coh.fresh n u old)
    ];
  }
