-- ===== src/Adapter/Transparent.antt =====
-- person3_system/prefetch/inference_adapter.py: staging is transparent. Whatever is prefetched and
-- read, and whenever the workers run, a read gives what the storage holds; a write to a staged block
-- is not seen.
use ai_ssd.Prelude.{
  Among, ℕ, ◌≡◌, refl, ap, ◌∙◌, Bool, Option, none, some, List, [], ◌∷◌, inl, inr, ok, All, Result,
}
use ai_ssd.Prelude.Dict.{Dict, nat_key, pair_key, lookup}
use ai_ssd.Prefetch.Ordered.{All-lookup}
use ai_ssd.Adapter.Interface.{KvStorage, IsLawful, AreShaped}
use ai_ssd.Adapter.State.{StagedInferenceBlock, RealInferencePrefetchAdapter, new_adapter}
use ai_ssd.Adapter.Staging.{run_task, resolve_entry, prefetch, predict_and_prefetch}
use ai_ssd.Adapter.Reads.{
  hit, both_shaped, both_or_blank, read_key_page, read_value_page, read_block, read_key_page_batch,
  read_value_page_batch, read_block_batch,
}
use ai_ssd.Adapter.Writes.{write_block, reset_stats}
use ai_ssd.Adapter.Coherent.{Contents, IsFilled, IsGood, IsCoherent}
use ai_ssd.Adapter.Workers.{run_task-IsCoherent}
use ai_ssd.Adapter.Dispatch.{prefetch-IsCoherent, predict_and_prefetch-IsCoherent}
use ai_ssd.Adapter.Demands.{
  filled-both, read_block-held, given, read_key_page-held, read_value_page-held,
}
use ai_ssd.Adapter.Batched.{
  read_block_batch-IsCoherent, read_key_page_batch-IsCoherent, read_value_page_batch-IsCoherent,
  read_block_batch-held, read_key_page_batch-held, read_value_page_batch-held,
}

-- what can happen to an adapter that is not written: a worker runs a task, or a method is called
pub data Event : Type 0 where
  worker : (task : ℕ) → Event
  prefetching : List ℕ → (layer_id head_id token_start : ℕ) → Option Bool → Event
  predicting : (layer_id : ℕ) → List ℕ → (stride : ℕ) → Option Bool → Event
  reading reading_key reading_value : (layer_idx block_id head_id token_start : ℕ) → Event
  batch keys values : (layer_idx : ℕ) → List ℕ → (head_id token_start : ℕ) → Event
  resetting : Event

-- a batch that raised nothing and has `x` for a block
abbrev pub Answers : {X : Type 0} → ℕ → X → Result (Dict ℕ X) → Type 0
Answers {X} b x r = (d : Dict ℕ X) × (r ≡ ok d) × (lookup b d ≡ some x)

module _ {A S : Type 0} (st : KvStorage S A) where
  unfoldable pub happen :
      Event → RealInferencePrefetchAdapter S A → RealInferencePrefetchAdapter S A
  unfolding run_task prefetch predict_and_prefetch read_block read_key_page read_value_page
      reset_stats
  happen (worker task) a = run_task st task a
  happen (prefetching bids l h t mode) a = (prefetch st bids l h t mode a).0
  happen (predicting l bids stride mode) a = (predict_and_prefetch st l bids stride mode a).0
  happen (reading l b h t) a = (read_block st l b h t a).0
  happen (reading_key l b h t) a = (read_key_page st l b h t a).0
  happen (reading_value l b h t) a = (read_value_page st l b h t a).0
  happen (batch l bids h t) a = (read_block_batch st l bids h t a).0
  happen (keys l bids h t) a = (read_key_page_batch st l bids h t a).0
  happen (values l bids h t) a = (read_value_page_batch st l bids h t a).0
  happen resetting a = reset_stats st a

  -- events in their order, the interleaving of the calls and the workers
  unfoldable pub happens :
      List Event → RealInferencePrefetchAdapter S A → RealInferencePrefetchAdapter S A
  unfolding happen
  happens [] a = a
  happens (e ∷ events) a = happens events (happen e a)

  -- An entry that waits for nothing is handed out as it is.
  hit-ready :
      (key : ℕ × ℕ) (e : StagedInferenceBlock A) (n : ℕ) (a : RealInferencePrefetchAdapter S A)
      → e.future ≡ none
      → lookup key a.staging_buffer ≡ some e
      → (hit st key e n a).1 ≡ e
  unfolding hit resolve_entry
  hit-ready key e n a done staged =
      let same : resolve_entry st e a ≡ a = rw (resolve_entry, done) refl in
      rw (hit, same, staged) refl

  module _ (law : IsLawful st) where
    ready-IsFilled :
        (held : Contents A) (l b : ℕ) (a : RealInferencePrefetchAdapter S A)
        (e : StagedInferenceBlock A)
        → IsCoherent held law a
        → lookup (l, b) a.staging_buffer ≡ some e
        → e.future ≡ none
        → IsFilled held (l, b) e
    ready-IsFilled held l b a e coh staged done =
        elim (All-lookup (λ x. IsGood held a.tasks x.0 x.1) (l, b) e a.staging_buffer coh.entries
          staged).1 [ inl filled ↦ filled | inr (n, t, future, there, layer, among) ↦ cc ]

    pub new_adapter-IsCoherent :
        (s : S) (capacity bytes layers : ℕ) (is_async : Bool)
        → IsCoherent (law.held s) law (new_adapter {A = A} s capacity bytes layers is_async)
    unfolding new_adapter lookup
    new_adapter-IsCoherent s capacity bytes layers is_async = record {
      storage = λ l b. refl;
      entries = tt;
      served = λ n t batch h done. cc;
      fresh = λ n t h. cc;
    }

    module _ (held : Contents A) where
      happen-IsCoherent :
          (e : Event) (a : RealInferencePrefetchAdapter S A)
          → IsCoherent held law a
          → IsCoherent held law (happen e a)
      unfolding happen
      happen-IsCoherent (worker task) a coh = run_task-IsCoherent st law held task a coh
      happen-IsCoherent (prefetching bids l h t mode) a coh =
          prefetch-IsCoherent st law held bids l h t mode a coh
      happen-IsCoherent (predicting l bids stride mode) a coh =
          predict_and_prefetch-IsCoherent st law held l bids stride mode a coh
      happen-IsCoherent (reading l b h t) a coh = (read_block-held st law held l b h t a coh).0
      happen-IsCoherent (reading_key l b h t) a coh =
          (read_key_page-held st law held l b h t a coh).0
      happen-IsCoherent (reading_value l b h t) a coh =
          (read_value_page-held st law held l b h t a coh).0
      happen-IsCoherent (batch l bids h t) a coh =
          read_block_batch-IsCoherent st law held l h t bids a coh
      happen-IsCoherent (keys l bids h t) a coh =
          read_key_page_batch-IsCoherent st law held l h t bids a coh
      happen-IsCoherent (values l bids h t) a coh =
          read_value_page_batch-IsCoherent st law held l h t bids a coh
      happen-IsCoherent resetting a coh = record {
        storage = λ l b. law.reset_keeps a.storage_backend l b ∙ coh.storage l b;
        entries = tt;
        served = coh.served;
        fresh = coh.fresh;
      }

      pub happens-IsCoherent :
          (events : List Event) (a : RealInferencePrefetchAdapter S A)
          → IsCoherent held law a
          → IsCoherent held law (happens events a)
      unfolding happens
      happens-IsCoherent [] a coh = coh
      happens-IsCoherent (e ∷ events) a coh =
          happens-IsCoherent events (happen e a) (happen-IsCoherent e a coh)

    -- Staging is transparent: over a storage whose calls raise nothing, whose reads, single and
    -- batched, give the arrays that it holds and change none of them, and which holds what was
    -- written, after any sequence of prefetches, predictions, reads, batches, resets and tasks
    -- that workers run, in any order, a new adapter gives for every layer and block the key page
    -- and the value page that the storage held at the start, staged or not, and also where a
    -- worker has not yet run the task of a prefetch. As a block it gives the two arrays as they
    -- were held where the block is not staged; where it is, the two reshaped to the default
    -- shape, or the ValueError of the reshape.
    pub transparent :
        (s : S) (capacity bytes layers : ℕ) (is_async : Bool) (events : List Event) (l b h t : ℕ)
        → let a = happens events (new_adapter {A = A} s capacity bytes layers is_async) in
          let p = law.held s l b in
          ((read_block st l b h t a).1 ≡ given st (lookup (l, b) a.staging_buffer) p)
          × ((read_key_page st l b h t a).1 ≡ p.0)
          × ((read_value_page st l b h t a).1 ≡ p.1)
    transparent s capacity bytes layers is_async events l b h t =
        let held = law.held s in
        let a = happens events (new_adapter s capacity bytes layers is_async) in
        let coh =
          happens-IsCoherent held events _
            (new_adapter-IsCoherent s capacity bytes layers is_async) in
        (
          (read_block-held st law held l b h t a coh).1,
          (read_key_page-held st law held l b h t a coh).1,
          (read_value_page-held st law held l b h t a coh).1,
        )

    -- A batch is transparent, too: over a storage whose calls raise nothing, whose reads, single
    -- and batched, give the arrays that it holds and change none of them, and which holds what
    -- was written, after any sequence of prefetches, predictions, reads, batches, resets and
    -- tasks that workers run, in any order, where the arrays that the storage held at the start
    -- for the blocks that are asked for have the default shape, a batch of blocks, of key pages
    -- or of value pages on a new adapter raises nothing, and gives these arrays for every block
    -- that was asked for.
    pub batch_transparent :
        (s : S) (capacity bytes layers : ℕ) (is_async : Bool) (events : List Event) (l h t b : ℕ)
        (bids : List ℕ)
        → All (λ c. AreShaped st (law.held s l c)) bids
        → Among b bids
        → let a = happens events (new_adapter {A = A} s capacity bytes layers is_async) in
          Answers b (law.held s l b) (read_block_batch st l bids h t a).1
          × Answers b (law.held s l b).0 (read_key_page_batch st l bids h t a).1
          × Answers b (law.held s l b).1 (read_value_page_batch st l bids h t a).1
    batch_transparent s capacity bytes layers is_async events l h t b bids shaped asked =
        let held = law.held s in
        let a = happens events (new_adapter s capacity bytes layers is_async) in
        let coh =
          happens-IsCoherent held events _
            (new_adapter-IsCoherent s capacity bytes layers is_async) in
        let (read_blocks, block_went, block_all) =
          read_block_batch-held st law held l h t bids a coh shaped in
        let (read_keys, key_went, key_all) =
          read_key_page_batch-held st law held l h t bids a coh shaped in
        let (read_values, value_went, value_all) =
          read_value_page_batch-held st law held l h t bids a coh shaped in
        (
          (read_blocks, block_went, block_all b asked),
          (read_keys, key_went, key_all b asked),
          (read_values, value_went, value_all b asked),
        )

    -- A write to a block whose arrays are staged is lost to the reader: over a storage whose
    -- calls raise nothing, whose reads, single and batched, give the arrays that it holds and
    -- change none of them, and which holds what was written, in an adapter whose staged entries
    -- agree with given contents of the storage, a read behind the write gives the arrays of these
    -- contents from before it, reshaped to the default shape, or the ValueError of the reshape,
    -- whatever was written, while the storage holds the written arrays in the adapter's type.
    pub read_block-write_block_stale :
        (held : Contents A) (l b : ℕ) (k v : A) (h t h' t' : ℕ)
        (a : RealInferencePrefetchAdapter S A) (e : StagedInferenceBlock A)
        → IsCoherent held law a
        → lookup (l, b) a.staging_buffer ≡ some e
        → e.future ≡ none
        → ((read_block st l b h' t' (write_block st l b k v h t a)).1
            ≡ both_shaped st (held l b).0 (held l b).1)
          × (law.held (write_block st l b k v h t a).storage_backend l b
              ≡ (st.as_dtype k, st.as_dtype v))
    unfolding read_block write_block
    read_block-write_block_stale held l b k v h t h' t' a e coh staged done =
        let w = write_block st l b k v h t a in
        let now : (hit st (l, b) e w.bytes_per_block w).1 ≡ e =
          hit-ready (l, b) e w.bytes_per_block w done staged in
        let filled = ready-IsFilled held l b a e coh staged done in
        (
          rw (read_block, staged)
              (ap (λ (x : StagedInferenceBlock A). both_or_blank st x.data_k x.data_v) now
                ∙ filled-both st law held l b e filled),
          law.written a.storage_backend l b (st.as_dtype k) (st.as_dtype v) h t,
        )
