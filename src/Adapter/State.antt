-- ===== src/Adapter/State.antt =====
-- person3_system/prefetch/inference_adapter.py: the adapter's state. Times are left out, and so are
-- the descriptions of blocks that are written and never used.
use ai_ssd.Prelude.{
  ℕ, ◌+◌, ◌*◌, Bool, Option, none, some, List, [], ◌∷◌, length, leb, if◌then◌else◌, Error,
  key_error,
}
use ai_ssd.Prelude.Dict.{Dict, nat_key, pair_key}
use ai_ssd.Prefetch.Predictor.{NextLayerPredictor, new_predictor}

-- the sizes of a key page and a value page
abbrev pub key_page_bytes : ℕ
key_page_bytes = 4096

abbrev pub value_page_bytes : ℕ
value_page_bytes = 4096

-- `future` is the number of a task, `none` once the data stand in the entry
pub record StagedInferenceBlock (A : Type 0) : Type 0 where
  pub block_id : ℕ
  pub layer_id : ℕ
  pub head_id : ℕ
  pub size_bytes : ℕ
  pub data_k : Option A
  pub data_v : Option A
  pub future : Option ℕ
  pub is_useful : Bool

-- a task of the thread pool with its result, `none` until a worker has run it
pub record Task (A : Type 0) : Type 0 where
  pub layer_id : ℕ
  pub block_ids : List ℕ
  pub head_id : ℕ
  pub token_start : ℕ
  pub result : Option (Dict ℕ (A × A))

pub record Counters : Type 0 where
  pub demand_reads : ℕ
  pub demand_hits : ℕ
  pub demand_misses : ℕ
  pub prefetch_requests : ℕ
  pub useful_prefetches : ℕ
  pub useless_prefetches : ℕ
  pub prefetched_bytes : ℕ
  pub useful_bytes : ℕ
  pub wasted_bytes : ℕ
  pub demand_bytes : ℕ
  pub peak_memory_bytes : ℕ
  pub storage_batches : ℕ
  pub batched_requests : ℕ
  pub zero_wait_hits : ℕ
  pub partial_wait_hits : ℕ
  pub misses : ℕ
  pub blocks_written : ℕ
  pub bytes_written : ℕ

unfoldable pub no_counters : Counters
no_counters = record {
  demand_reads = 0;
  demand_hits = 0;
  demand_misses = 0;
  prefetch_requests = 0;
  useful_prefetches = 0;
  useless_prefetches = 0;
  prefetched_bytes = 0;
  useful_bytes = 0;
  wasted_bytes = 0;
  demand_bytes = 0;
  peak_memory_bytes = 0;
  storage_batches = 0;
  batched_requests = 0;
  zero_wait_hits = 0;
  partial_wait_hits = 0;
  misses = 0;
  blocks_written = 0;
  bytes_written = 0;
}

abbrev pub Buffer : Type 0 → Type 0
Buffer A = Dict (ℕ × ℕ) (StagedInferenceBlock A)

pub record RealInferencePrefetchAdapter (S A : Type 0) : Type 0 where
  pub storage_backend : S
  pub buffer_capacity_blocks : ℕ
  pub bytes_per_block : ℕ
  pub enable_async_pipeline : Bool
  pub staging_buffer : Buffer A
  pub tasks : Dict ℕ (Task A)
  pub next_task : ℕ
  pub predictor : NextLayerPredictor
  pub counters : Counters

unfoldable pub new_adapter :
    {S A : Type 0}
    → S
    → (buffer_capacity_blocks bytes_per_block num_layers : ℕ) → Bool
    → RealInferencePrefetchAdapter S A
new_adapter storage_backend buffer_capacity_blocks bytes_per_block num_layers
      enable_async_pipeline =
    record {
      storage_backend = storage_backend;
      buffer_capacity_blocks = buffer_capacity_blocks;
      bytes_per_block = bytes_per_block;
      enable_async_pipeline = enable_async_pipeline;
      staging_buffer = [];
      tasks = [];
      next_task = 0;
      predictor = new_predictor num_layers;
      counters = no_counters;
    }

-- a hit and a miss of a demand of `n` bytes
abbrev pub record_hit : Counters → ℕ → Counters
record_hit c n = record c {
  demand_reads = c.demand_reads + 1;
  demand_hits = c.demand_hits + 1;
  demand_bytes = c.demand_bytes + n;
}

abbrev pub record_miss : Counters → ℕ → Counters
record_miss c n = record c {
  demand_reads = c.demand_reads + 1;
  demand_misses = c.demand_misses + 1;
  demand_bytes = c.demand_bytes + n;
}

module _ {A : Type 0} where
  -- an entry that leaves the buffer unread was useless
  abbrev pub count_evicted : Counters → StagedInferenceBlock A → Counters
  count_evicted c e = if e.is_useful then c else record c {
    useless_prefetches = c.useless_prefetches + 1;
    wasted_bytes = c.wasted_bytes + e.size_bytes;
  }

  -- the loop takes entries off the front while the buffer is full; an empty buffer that is still
  -- full raises
  unfoldable pub make_room : ℕ → Buffer A → Counters → (Buffer A × Counters) × Option Error
  make_room capacity [] c = if leb capacity 0 then (([], c), some key_error) else (([], c), none)
  make_room capacity ((key, e) ∷ rest) c =
      let popped = make_room capacity rest (count_evicted c e) in
      if leb capacity (length ((key, e) ∷ rest)) then popped else (((key, e) ∷ rest, c), none)

module _ {S A : Type 0} where
  abbrev pub current_memory_bytes : RealInferencePrefetchAdapter S A → ℕ
  current_memory_bytes a = length a.staging_buffer * a.bytes_per_block

  unfoldable pub ensure_buffer_capacity :
      RealInferencePrefetchAdapter S A → RealInferencePrefetchAdapter S A × Option Error
  unfolding make_room
  ensure_buffer_capacity a =
      let ((buffer, c), raised) = make_room a.buffer_capacity_blocks a.staging_buffer a.counters in
      (record a { staging_buffer = buffer; counters = c }, raised)
