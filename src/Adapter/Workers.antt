-- ===== src/Adapter/Workers.antt =====
-- person3_system/prefetch/inference_adapter.py: a worker that runs its task at any moment keeps the
-- adapter coherent.
use mathlib.Core.Path.{subst}
use ai_ssd.Prelude.{
  Among, ℕ, ◌<◌, ◌≡◌, ◌⊎◌, inl, inr, refl, sym, ap, ◌∙◌, none, some, All-map, arith, Option-cases,
  ℕ_discrete,
}
use ai_ssd.Prelude.Dict.{
  Dict, nat_key, pair_key, lookup, insert, lookup-insert_self, lookup-insert_ne, lookup-insert_inv,
}
use ai_ssd.Adapter.Interface.{KvStorage, IsLawful}
use ai_ssd.Adapter.State.{StagedInferenceBlock, Task, Buffer, RealInferencePrefetchAdapter}
use ai_ssd.Adapter.Staging.{result_of, run_task}
use ai_ssd.Adapter.Coherent.{Contents, IsGood, AreGood, Serves, IsCoherent}

module _ {A : Type 0} where
  -- tasks stay, with what they were asked for
  abbrev pub Extends : Dict ℕ (Task A) → Dict ℕ (Task A) → Type 0
  Extends before after =
      (n : ℕ) (t : Task A)
      → lookup n before ≡ some t
      → (u : Task A) × (lookup n after ≡ some u)
        × (u.layer_id ≡ t.layer_id)
        × (u.block_ids ≡ t.block_ids)

  pub IsGood-Extends :
      (held : Contents A) (before after : Dict ℕ (Task A))
      → Extends before after
      → (key : ℕ × ℕ) (e : StagedInferenceBlock A) → IsGood held before key e
      → IsGood held after key e
  IsGood-Extends held before after ext key e (layer, inl done) = (layer, inl done)
  IsGood-Extends held before after ext key e (layer, inr (n, t, future, there, same, among)) =
      let (u, found, l, bids) = ext n t there in
      (layer, inr (n, u, future, found, l ∙ same, subst (Among key.1) (sym bids) among))

  pub AreGood-Extends :
      (held : Contents A) (before after : Dict ℕ (Task A)) (d : Buffer A)
      → Extends before after
      → AreGood held before d
      → AreGood held after d
  AreGood-Extends held before after d ext good =
      All-map _ _ d (λ p. IsGood-Extends held before after ext p.0 p.1) good

  Extends-insert :
      (n : ℕ) (t u : Task A) (tasks : Dict ℕ (Task A))
      → lookup n tasks ≡ some t
      → u.layer_id ≡ t.layer_id
      → u.block_ids ≡ t.block_ids
      → Extends tasks (insert n u tasks)
  Extends-insert n t u tasks there layer bids m v h = elim (ℕ_discrete n m) [
    | yes eq ↦
        let q : some t ≡ some v = sym there ∙ ap (λ k. lookup k tasks) eq ∙ h in
        let r : t ≡ v = cc in
        (
          u,
          subst (λ k. lookup k (insert n u tasks) ≡ some u) eq (lookup-insert_self n u tasks),
          layer ∙ ap (λ (x : Task A). x.layer_id) r,
          bids ∙ ap (λ (x : Task A). x.block_ids) r,
        )
    | no ne ↦ (v, lookup-insert_ne n m u tasks ne ∙ h, refl, refl)
  ]

  pub Extends-fresh :
      (n : ℕ) (u : Task A) (tasks : Dict ℕ (Task A))
      → ((m : ℕ) (t : Task A) → lookup m tasks ≡ some t → m < n)
      → Extends tasks (insert n u tasks)
  Extends-fresh n u tasks fresh m t h =
      let below = fresh m t h in
      (t, lookup-insert_ne n m u tasks (λ e. absurd (omega (arith, e, below))) ∙ h, refl, refl)

  -- the result of a task that a table has
  pub result_of_there :
      (n : ℕ) (t : Task A) (tasks : Dict ℕ (Task A))
      → lookup n tasks ≡ some t
      → result_of n tasks ≡ t.result
  unfolding result_of
  result_of_there n t tasks h = rw (result_of, h) refl

  module _ {S : Type 0} (st : KvStorage S A) (law : IsLawful st) (held : Contents A) where
    -- a state of the adapter after a worker ran the task, with its result
    abbrev pub Ran : RealInferencePrefetchAdapter S A → ℕ → Task A → Type 0
    Ran a n t =
        (batch : Dict ℕ (A × A)) × (result_of n (run_task st n a).tasks ≡ some batch)
        × Serves held t batch

    fetched_by : RealInferencePrefetchAdapter S A → Task A → S × Dict ℕ (A × A)
    fetched_by a t =
        st.read_block_batch a.storage_backend t.layer_id t.block_ids t.head_id t.token_start

    finished : Task A → Dict ℕ (A × A) → Task A
    finished t batch = record t { result = some batch }

    -- What a task fetches is held.
    fetched-Serves :
        (a : RealInferencePrefetchAdapter S A) (t : Task A)
        → IsCoherent held law a
        → Serves held t (fetched_by a t).1
    unfolding fetched_by
    fetched-Serves a t ok = (
      All-map _ _ _ (λ p h. h ∙ ok.storage t.layer_id p.0)
          (law.block_batch.values a.storage_backend t.layer_id t.block_ids t.head_id t.token_start),
      law.block_batch.all a.storage_backend t.layer_id t.block_ids t.head_id t.token_start,
    )

    finish-IsCoherent :
        (n : ℕ) (a : RealInferencePrefetchAdapter S A) (t : Task A)
        → lookup n a.tasks ≡ some t
        → IsCoherent held law a
        → IsCoherent held law (record a {
          storage_backend = (fetched_by a t).0;
          tasks = insert n (finished t (fetched_by a t).1) a.tasks;
        })
    unfolding fetched_by finished
    finish-IsCoherent n a t there ok = record {
      storage = λ l b.
          law.block_batch.keeps a.storage_backend t.layer_id t.block_ids t.head_id t.token_start l b
          ∙ ok.storage l b;
      entries =
          AreGood-Extends held a.tasks _ a.staging_buffer
            (Extends-insert n t _ a.tasks there refl refl) ok.entries;
      served = λ m u batch h done.
          served m u batch done (lookup-insert_inv n m (finished t (fetched_by a t).1) u a.tasks h);
      fresh =
          λ m u h. fresh m u (lookup-insert_inv n m (finished t (fetched_by a t).1) u a.tasks h);
    }
      where
        served :
            (m : ℕ) (u : Task A) (batch : Dict ℕ (A × A))
            → u.result ≡ some batch
            → ((n ≡ m) × (finished t (fetched_by a t).1 ≡ u))
              ⊎ ((¬ (n ≡ m)) × (lookup m a.tasks ≡ some u))
            → Serves held u batch
        served m u batch done (inl (eq, same)) =
            let now : some (fetched_by a t).1 ≡ some batch =
              ap (λ (x : Task A). x.result) same ∙ done in
            let fetched : (fetched_by a t).1 ≡ batch = cc in
            subst (λ x. Serves held x batch) same
              (subst (Serves held t) fetched (fetched-Serves a t ok))
        served m u batch done (inr (ne, h)) = ok.served m u batch h done

        fresh :
            (m : ℕ) (u : Task A)
            → ((n ≡ m) × (finished t (fetched_by a t).1 ≡ u))
              ⊎ ((¬ (n ≡ m)) × (lookup m a.tasks ≡ some u))
            → m < a.next_task
        fresh m u (inl (eq, same)) = subst (λ x. x < a.next_task) eq (ok.fresh n t there)
        fresh m u (inr (ne, h)) = ok.fresh m u h

    runs :
        (n : ℕ) (a : RealInferencePrefetchAdapter S A) (t : Task A)
        → lookup n a.tasks ≡ some t
        → t.result ≡ none
        → IsCoherent held law a
        → IsCoherent held law (run_task st n a) × Ran a n t
    unfolding run_task fetched_by finished
    runs n a t there waiting ok =
        let same : run_task st n a ≡ record a {
          storage_backend = (fetched_by a t).0;
          tasks = insert n (finished t (fetched_by a t).1) a.tasks;
        } =
          rw (run_task, there, waiting) refl in
        (
          subst (IsCoherent held law) (sym same) (finish-IsCoherent n a t there ok),
          (
            (fetched_by a t).1,
            ap (λ (x : RealInferencePrefetchAdapter S A). result_of n x.tasks) same
                ∙ result_of_there n (finished t (fetched_by a t).1) _
                    (lookup-insert_self n _ a.tasks),
            fetched-Serves a t ok,
          ),
        )

    -- A task that has a result is left alone.
    idles :
        (n : ℕ) (a : RealInferencePrefetchAdapter S A) (t : Task A) (batch : Dict ℕ (A × A))
        → lookup n a.tasks ≡ some t
        → t.result ≡ some batch
        → IsCoherent held law a
        → IsCoherent held law (run_task st n a) × Ran a n t
    unfolding run_task
    idles n a t batch there done ok =
        let same : run_task st n a ≡ a = rw (run_task, there, done) refl in
        (
          subst (IsCoherent held law) (sym same) ok,
          (
            batch,
            ap (λ (x : RealInferencePrefetchAdapter S A). result_of n x.tasks) same
                ∙ result_of_there n t a.tasks there
                ∙ done,
            ok.served n t batch there done,
          ),
        )

    -- A task that an entry waits for has a result once a worker has run it, which was asked for.
    pub run_task-Ran :
        (n : ℕ) (a : RealInferencePrefetchAdapter S A) (t : Task A)
        → lookup n a.tasks ≡ some t
        → IsCoherent held law a
        → IsCoherent held law (run_task st n a) × Ran a n t
    run_task-Ran n a t there ok = elim (Option-cases t.result) [
      | inl waiting ↦ runs n a t there waiting ok
      | inr (batch, done) ↦ idles n a t batch there done ok
    ]

    pub run_task-IsCoherent :
        (n : ℕ) (a : RealInferencePrefetchAdapter S A)
        → IsCoherent held law a
        → IsCoherent held law (run_task st n a)
    unfolding run_task
    run_task-IsCoherent n a ok = elim (Option-cases (lookup n a.tasks)) [
      | inl missing ↦ rw (run_task, missing) ok
      | inr (t, there) ↦ (run_task-Ran n a t there ok).0
    ]

    -- The buffer is left alone by a worker.
    pub run_task-buffer :
        (n : ℕ) (a : RealInferencePrefetchAdapter S A)
        → (run_task st n a).staging_buffer ≡ a.staging_buffer
    unfolding run_task
    run_task-buffer n a = ground arith
