-- ===== src/Adapter/Staging.antt =====
-- person3_system/prefetch/inference_adapter.py: prefetching, at once or by a worker of the thread
-- pool, and what waits for a worker.
use ai_ssd.Prelude.{
  ℕ, ◌+◌, max, Bool, true, false, Option, none, some, List, [], ◌∷◌, if◌then◌else◌, Error, Result,
  ok, err,
}
use ai_ssd.Prelude.Dict.{Dict, nat_key, pair_key, lookup, insert}
use ai_ssd.Prefetch.Ordered.{present}
use ai_ssd.Prefetch.Predictor.{predict_next_layer_blocks}
use ai_ssd.Adapter.Interface.{KvStorage}
use ai_ssd.Adapter.State.{
  StagedInferenceBlock, Task, Buffer, RealInferencePrefetchAdapter, current_memory_bytes,
  ensure_buffer_capacity,
}

module _ {A : Type 0} where
  -- the data of a block of a batch, for its entry if it has one
  unfoldable pub fill : ℕ × ℕ → A × A → Buffer A → Buffer A
  fill key p d = elim (lookup key d) [
    | none ↦ d
    | some e ↦ insert key (record e { data_k = some p.0; data_v = some p.1; future = none }) d
  ]

  unfoldable pub populate : ℕ → Dict ℕ (A × A) → Buffer A → Buffer A
  unfolding fill
  populate layer_id [] d = d
  populate layer_id ((bid, p) ∷ batch) d = populate layer_id batch (fill (layer_id, bid) p d)

  unfoldable pub result_of : ℕ → Dict ℕ (Task A) → Option (Dict ℕ (A × A))
  result_of n tasks = elim (lookup n tasks) [ none ↦ none | some t ↦ t.result ]

  abbrev pub pairs_of : Option (Dict ℕ (A × A)) → Dict ℕ (A × A)
  pairs_of none = []
  pairs_of (some batch) = batch

  -- the identifiers of a layer that are not staged
  unfoldable pub missing : ℕ → List ℕ → Buffer A → List ℕ
  missing layer_id [] d = []
  missing layer_id (bid ∷ bids) d =
      let rest = missing layer_id bids d in
      if present (lookup (layer_id, bid) d) then rest else bid ∷ rest

module _ {S A : Type 0} (st : KvStorage S A) where
  open st use {read_block, read_block_batch}

  -- a worker runs a task: `_fetch_block_batch_sync` on the storage as it then is
  unfoldable pub run_task : ℕ → RealInferencePrefetchAdapter S A → RealInferencePrefetchAdapter S A
  run_task n a = elim (lookup n a.tasks) [
    | none ↦ a
    | some t ↦ elim t.result [
      | some r ↦ a
      | none ↦
          let (s, batch) =
            read_block_batch a.storage_backend t.layer_id t.block_ids t.head_id t.token_start in
          record a {
            storage_backend = s;
            tasks = insert n (record t { result = some batch }) a.tasks;
          }
    ]
  ]

  -- waits for the task of an entry and hands its blocks to their entries
  unfoldable pub resolve_task :
      ℕ → ℕ → RealInferencePrefetchAdapter S A → RealInferencePrefetchAdapter S A
  unfolding run_task populate result_of
  resolve_task layer_id n a =
      let w = run_task n a in
      let c = w.counters in
      record w {
        staging_buffer = populate layer_id (pairs_of (result_of n w.tasks)) w.staging_buffer;
        counters =
            if present (result_of n a.tasks)
            then record c { zero_wait_hits = c.zero_wait_hits + 1 }
            else record c { partial_wait_hits = c.partial_wait_hits + 1 };
      }

  unfoldable pub resolve_entry :
      StagedInferenceBlock A → RealInferencePrefetchAdapter S A → RealInferencePrefetchAdapter S A
  unfolding resolve_task
  resolve_entry e a = elim e.future [ none ↦ a | some n ↦ resolve_task e.layer_id n a ]

  -- `for _ in miss_bids: self._ensure_buffer_capacity()`, until it raises
  unfoldable pub ensure_for :
      List ℕ → RealInferencePrefetchAdapter S A → RealInferencePrefetchAdapter S A × Option Error
  unfolding ensure_buffer_capacity
  ensure_for [] a = (a, none)
  ensure_for (bid ∷ bids) a =
      let (a1, raised) = ensure_buffer_capacity a in
      let rest = ensure_for bids a1 in elim raised [ some e ↦ (a1, some e) | none ↦ rest ]

  -- a new entry, counted
  unfoldable pub stage :
      (layer_id bid head_id : ℕ)
      → Option A
      → Option A
      → Option ℕ
      → RealInferencePrefetchAdapter S A
      → RealInferencePrefetchAdapter S A
  stage layer_id bid head_id data_k data_v future a =
      let c = a.counters in
      record a {
        staging_buffer =
            insert (layer_id, bid)
              (record {
                block_id = bid;
                layer_id = layer_id;
                head_id = head_id;
                size_bytes = a.bytes_per_block;
                data_k = data_k;
                data_v = data_v;
                future = future;
                is_useful = false;
              })
              a.staging_buffer;
        counters = record c {
          prefetch_requests = c.prefetch_requests + 1;
          prefetched_bytes = c.prefetched_bytes + a.bytes_per_block;
        };
      }

  -- the loop of the asynchronous path
  unfoldable pub stage_pending :
      (layer_id head_id n : ℕ)
      → List ℕ
      → RealInferencePrefetchAdapter S A
      → RealInferencePrefetchAdapter S A
  unfolding stage
  stage_pending layer_id head_id n [] a = a
  stage_pending layer_id head_id n (bid ∷ bids) a =
      stage_pending layer_id head_id n bids (stage layer_id bid head_id none none (some n) a)

  -- the loop of the synchronous path, over the batch that was fetched
  unfoldable pub stage_fetched :
      (layer_id head_id token_start : ℕ)
      → Dict ℕ (A × A)
      → List ℕ
      → RealInferencePrefetchAdapter S A
      → RealInferencePrefetchAdapter S A
  unfolding stage
  stage_fetched layer_id head_id token_start fetched [] a = a
  stage_fetched layer_id head_id token_start fetched (bid ∷ bids) a = elim (lookup bid fetched) [
    | some p ↦
        stage_fetched layer_id head_id token_start fetched bids
          (stage layer_id bid head_id (some p.0) (some p.1) none a)
    | none ↦
        let (s, p) = read_block a.storage_backend layer_id bid head_id token_start in
        stage_fetched layer_id head_id token_start fetched bids
          (stage layer_id bid head_id (some p.0) (some p.1) none (record a { storage_backend = s }))
  ]

  abbrev pub count_peak : RealInferencePrefetchAdapter S A → RealInferencePrefetchAdapter S A
  count_peak a = record a {
    counters = record a.counters {
      peak_memory_bytes = max a.counters.peak_memory_bytes (current_memory_bytes a);
    };
  }

  -- both paths, once there is room
  unfoldable pub dispatch :
      Bool
      → List ℕ
      → (layer_id head_id token_start : ℕ) → RealInferencePrefetchAdapter S A
      → RealInferencePrefetchAdapter S A
  unfolding stage_pending stage_fetched
  dispatch true miss_bids layer_id head_id token_start a =
      let n = a.next_task in
      count_peak (
        stage_pending layer_id head_id n miss_bids (record a {
          tasks =
              insert n
                (record {
                  layer_id = layer_id;
                  block_ids = miss_bids;
                  head_id = head_id;
                  token_start = token_start;
                  result = none;
                })
                a.tasks;
          next_task = n + 1;
        }))
  dispatch false miss_bids layer_id head_id token_start a =
      let (s, fetched) =
        read_block_batch a.storage_backend layer_id miss_bids head_id token_start in
      count_peak (
        stage_fetched layer_id head_id token_start fetched miss_bids
          (record a { storage_backend = s }))

  abbrev pub mode_or_default : Option Bool → Bool → Bool
  mode_or_default none default = default
  mode_or_default (some b) default = b

  unfoldable pub prefetch :
      List ℕ
      → (layer_id head_id token_start : ℕ) → Option Bool
      → RealInferencePrefetchAdapter S A
      → RealInferencePrefetchAdapter S A × Result (List ℕ)
  unfolding missing ensure_for dispatch
  prefetch block_ids layer_id head_id token_start async_mode a =
      elim (missing layer_id block_ids a.staging_buffer) [
        | [] ↦ (a, ok [])
        | bid ∷ bids ↦
            let (room, raised) = ensure_for (bid ∷ bids) a in
            elim raised [
              | some e ↦ (room, err e)
              | none ↦ (
                dispatch (mode_or_default async_mode a.enable_async_pipeline) (bid ∷ bids) layer_id
                    head_id token_start room,
                ok (bid ∷ bids),
              )
            ]
      ]

  unfoldable pub predict_and_prefetch :
      (current_layer_id : ℕ)
      → List ℕ
      → (stride : ℕ) → Option Bool
      → RealInferencePrefetchAdapter S A
      → RealInferencePrefetchAdapter S A × Result (ℕ × List ℕ)
  unfolding prefetch predict_next_layer_blocks
  predict_and_prefetch current_layer_id current_block_ids stride async_mode a =
      elim (predict_next_layer_blocks a.predictor current_layer_id current_block_ids stride) [
        | err e ↦ (a, err e)
        | ok (p, next_layer, predicted) ↦
            let (after, dispatched) =
              prefetch predicted next_layer 0 0 async_mode (record a { predictor = p }) in
            elim dispatched [ err e ↦ (after, err e) | ok bids ↦ (after, ok (next_layer, bids)) ]
      ]
