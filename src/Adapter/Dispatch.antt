-- ===== src/Adapter/Dispatch.antt =====
-- person3_system/prefetch/inference_adapter.py: a prefetch, at once or by a worker, keeps the
-- adapter coherent.
use ai_ssd.Prelude.{
  All-Among_self, ℕ, ◌≡◌, inl, inr, refl, ◌∙◌, Bool, true, false, Option, none, List, [], ◌∷◌,
  Option-cases, All-map, Result, ok, err,
}
use ai_ssd.Prelude.Dict.{nat_key, pair_key, lookup-insert_self}
use ai_ssd.Prefetch.Predictor.{NextLayerPredictor, predict_next_layer_blocks}
use ai_ssd.Adapter.Interface.{KvStorage, IsLawful}
use ai_ssd.Adapter.State.{Task, RealInferencePrefetchAdapter}
use ai_ssd.Adapter.Staging.{
  ensure_for, missing, dispatch, mode_or_default, prefetch, predict_and_prefetch,
}
use ai_ssd.Adapter.Coherent.{Contents, IsCoherent}
use ai_ssd.Adapter.Filling.{
  ensure_for-IsCoherent, stage_pending-IsCoherent, stage_fetched-IsCoherent, peak-IsCoherent,
  submit-IsCoherent,
}

module _ {A S : Type 0} (st : KvStorage S A) (law : IsLawful st) (held : Contents A) where
  abbrev Coherent : RealInferencePrefetchAdapter S A → Type 0
  Coherent = IsCoherent held law

  dispatch-IsCoherent :
      (is_async : Bool) (bids : List ℕ) (l h t : ℕ) (a : RealInferencePrefetchAdapter S A)
      → Coherent a
      → Coherent (dispatch st is_async bids l h t a)
  unfolding dispatch
  dispatch-IsCoherent true bids l h t a coh =
      let u : Task A = record {
        layer_id = l;
        block_ids = bids;
        head_id = h;
        token_start = t;
        result = none;
      } in
      peak-IsCoherent st law held _ (
        stage_pending-IsCoherent st law held l h a.next_task bids _
          (u, lookup-insert_self a.next_task u a.tasks, refl, All-Among_self bids)
          (submit-IsCoherent st law held u a refl coh))
  dispatch-IsCoherent false bids l h t a coh = peak-IsCoherent st law held _ (
      stage_fetched-IsCoherent st law held l h t _ bids _
        (All-map _ _ _ (λ p e. e ∙ coh.storage l p.0)
          (law.block_batch.values a.storage_backend l bids h t))
        (record {
          storage = λ m c. law.block_batch.keeps a.storage_backend l bids h t m c ∙ coh.storage m c;
          entries = coh.entries;
          served = coh.served;
          fresh = coh.fresh;
        }))

  pub prefetch-IsCoherent :
      (bids : List ℕ) (l h t : ℕ) (mode : Option Bool) (a : RealInferencePrefetchAdapter S A)
      → Coherent a
      → Coherent (prefetch st bids l h t mode a).0
  unfolding prefetch
  prefetch-IsCoherent bids l h t mode a coh = go (missing l bids a.staging_buffer) refl
    where
      go :
          (misses : List ℕ)
          → missing l bids a.staging_buffer ≡ misses
          → Coherent (prefetch st bids l h t mode a).0
      go [] e = rw (prefetch, e) coh
      go (b ∷ rest) e = elim (Option-cases (ensure_for st (b ∷ rest) a).1) [
        | inl went ↦
            rw (prefetch, e, went)
              (dispatch-IsCoherent (mode_or_default st mode a.enable_async_pipeline) (b ∷ rest) l h
                t _ (ensure_for-IsCoherent st law held (b ∷ rest) a coh))
        | inr (x, raised) ↦
            rw (prefetch, e, raised) (ensure_for-IsCoherent st law held (b ∷ rest) a coh)
      ]

  predicted-IsCoherent :
      (p : NextLayerPredictor) (a : RealInferencePrefetchAdapter S A)
      → Coherent a
      → Coherent (record a { predictor = p })
  predicted-IsCoherent p a coh = record {
    storage = coh.storage;
    entries = coh.entries;
    served = coh.served;
    fresh = coh.fresh;
  }

  pub predict_and_prefetch-IsCoherent :
      (l : ℕ) (bids : List ℕ) (stride : ℕ) (mode : Option Bool)
      (a : RealInferencePrefetchAdapter S A)
      → Coherent a
      → Coherent (predict_and_prefetch st l bids stride mode a).0
  unfolding predict_and_prefetch
  predict_and_prefetch-IsCoherent l bids stride mode a coh =
      go (predict_next_layer_blocks a.predictor l bids stride) refl
    where
      fetching :
          NextLayerPredictor → ℕ → List ℕ → RealInferencePrefetchAdapter S A × Result (List ℕ)
      fetching p next predicted = prefetch st predicted next 0 0 mode (record a { predictor = p })

      fetched :
          (p : NextLayerPredictor) (next : ℕ) (predicted : List ℕ)
          → predict_next_layer_blocks a.predictor l bids stride ≡ ok (p, next, predicted)
          → (r : Result (List ℕ)) → (fetching p next predicted).1 ≡ r
          → Coherent (predict_and_prefetch st l bids stride mode a).0
      fetched p next predicted e (err x) raised =
          rw (predict_and_prefetch, e, raised)
            (prefetch-IsCoherent predicted next 0 0 mode _ (predicted-IsCoherent p a coh))
      fetched p next predicted e (ok done) went =
          rw (predict_and_prefetch, e, went)
            (prefetch-IsCoherent predicted next 0 0 mode _ (predicted-IsCoherent p a coh))

      go :
          (r : Result (NextLayerPredictor × ℕ × List ℕ))
          → predict_next_layer_blocks a.predictor l bids stride ≡ r
          → Coherent (predict_and_prefetch st l bids stride mode a).0
      go (err x) e = rw (predict_and_prefetch, e) coh
      go (ok (p, next, predicted)) e = fetched p next predicted e (fetching p next predicted).1 refl
