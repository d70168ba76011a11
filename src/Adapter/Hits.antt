-- ===== src/Adapter/Hits.antt =====
-- person3_system/prefetch/inference_adapter.py: awaiting a staged entry gives it the arrays that the
-- storage holds.
use mathlib.Core.Path.{subst}
use ai_ssd.Prelude.{Among, All-Among, ℕ, ◌≡◌, inl, inr, sym, ap, ◌∙◌, true, some, All}
use ai_ssd.Prelude.Dict.{nat_key, pair_key, lookup}
use ai_ssd.Prefetch.Ordered.{All-lookup, All-move_to_end}
use ai_ssd.Adapter.Interface.{KvStorage, IsLawful}
use ai_ssd.Adapter.State.{
  StagedInferenceBlock, Task, Buffer, Counters, RealInferencePrefetchAdapter,
}
use ai_ssd.Adapter.Staging.{result_of, pairs_of, populate, run_task, resolve_task, resolve_entry}
use ai_ssd.Adapter.Reads.{hit}
use ai_ssd.Adapter.Coherent.{
  Contents, IsFilled, IsGood, AreGood, IsCoherent, populate-AreGood, populate_fills,
}
use ai_ssd.Adapter.Workers.{run_task-Ran, run_task-buffer}

module _ {A S : Type 0} (st : KvStorage S A) (law : IsLawful st) (held : Contents A) where
  pub IsCoherent-buffer :
      (a : RealInferencePrefetchAdapter S A) (d : Buffer A) (c : Counters)
      → AreGood held a.tasks d
      → IsCoherent held law a
      → IsCoherent held law (record a { staging_buffer = d; counters = c })
  IsCoherent-buffer a d c good ok = record {
    storage = ok.storage;
    entries = good;
    served = ok.served;
    fresh = ok.fresh;
  }

  -- an adapter that is coherent and has an entry with its arrays under a key
  abbrev pub Resolved : RealInferencePrefetchAdapter S A → ℕ × ℕ → Type 0
  Resolved r key =
      IsCoherent held law r
      × ((now : StagedInferenceBlock A) × (lookup key r.staging_buffer ≡ some now)
          × IsFilled held key now)

  resolve_task_lem :
      (l b n : ℕ) (a : RealInferencePrefetchAdapter S A) (e : StagedInferenceBlock A) (t : Task A)
      → lookup (l, b) a.staging_buffer ≡ some e
      → lookup n a.tasks ≡ some t
      → t.layer_id ≡ l
      → Among b t.block_ids
      → IsCoherent held law a
      → Resolved (resolve_task st l n a) (l, b)
  unfolding resolve_task
  resolve_task_lem l b n a e t staged there layer among ok =
      let (coherent, (batch, result, serves)) = run_task-Ran st law held n a t there ok in
      let w = run_task st n a in
      let held_batch : All (λ p. p.1 ≡ held l p.0) batch =
        subst (λ x. All (λ p. p.1 ≡ held x p.0) batch) layer serves.0 in
      let there' : lookup (l, b) w.staging_buffer ≡ some e =
        ap (lookup (l, b)) (run_task-buffer st law held n a) ∙ staged in
      let found : (p : A × A) × (lookup b batch ≡ some p) =
        All-Among (λ x. (p : A × A) × (lookup x batch ≡ some p)) b t.block_ids among serves.1 in
      let filled = populate_fills held l b batch w.staging_buffer e held_batch there' (inr found) in
      let pairs : batch ≡ pairs_of (result_of n w.tasks) = sym (ap pairs_of result) in
      (
        IsCoherent-buffer w _ _
            (subst (λ x. AreGood held w.tasks (populate l x w.staging_buffer)) pairs
              (populate-AreGood held w.tasks l batch w.staging_buffer held_batch coherent.entries))
            coherent,
        subst
            (λ x.
              (now : StagedInferenceBlock A) × (lookup (l, b) (populate l x w.staging_buffer)
                ≡ some now)
              × IsFilled held (l, b) now)
            pairs filled,
      )

  resolve_entry_lem :
      (l b : ℕ) (a : RealInferencePrefetchAdapter S A) (e : StagedInferenceBlock A)
      → lookup (l, b) a.staging_buffer ≡ some e
      → IsCoherent held law a
      → Resolved (resolve_entry st e a) (l, b)
  unfolding resolve_entry
  resolve_entry_lem l b a e staged ok =
      go (All-lookup (λ x. IsGood held a.tasks x.0 x.1) (l, b) e a.staging_buffer ok.entries staged)
    where
      go : IsGood held a.tasks (l, b) e → Resolved (resolve_entry st e a) (l, b)
      go (layer, inl done) = rw (resolve_entry, done.0) (ok, (e, staged, done))
      go (layer, inr (n, t, future, there, same, among)) =
          rw (resolve_entry, future)
            (subst (λ x. Resolved (resolve_task st x n a) (l, b)) (sym layer)
              (resolve_task_lem l b n a e t staged there same among ok))

  -- A hit hands out an entry with the arrays that are held, and keeps the adapter coherent.
  pub hit_lem :
      (l b n : ℕ) (a : RealInferencePrefetchAdapter S A) (e : StagedInferenceBlock A)
      → lookup (l, b) a.staging_buffer ≡ some e
      → IsCoherent held law a
      → IsCoherent held law (hit st (l, b) e n a).0 × IsFilled held (l, b) (hit st (l, b) e n a).1
  unfolding hit
  hit_lem l b n a e staged ok = go (resolve_entry_lem l b a e staged ok)
    where
      go :
          Resolved (resolve_entry st e a) (l, b)
          → IsCoherent held law (hit st (l, b) e n a).0
            × IsFilled held (l, b) (hit st (l, b) e n a).1
      go (coherent, (now, there, filled)) =
          let r = resolve_entry st e a in
          let good = λ (x : (ℕ × ℕ) × StagedInferenceBlock A). IsGood held r.tasks x.0 x.1 in
          let layer = (All-lookup good (l, b) now r.staging_buffer coherent.entries there).0 in
          rw (hit, there)
            (
              IsCoherent-buffer r _ _
                  (All-move_to_end good (l, b) (record now { is_useful = true }) r.staging_buffer
                    coherent.entries (layer, inl filled))
                  coherent,
              filled,
            )
