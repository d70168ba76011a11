-- ===== src/Prefetch/Accounted.antt =====
-- person3_system/prefetch/v2_prefetcher.py, `V2Prefetcher`. The backend's `submit_batch` is a
-- parameter; times are whole microseconds, so `max(0.0, a - b)` is the subtraction that stops at 0.
use ai_ssd.Prelude.{
  ℕ, ◌+◌, ◌-◌, ◌*◌, Bool, true, false, not, Option, none, some, List, [], ◌∷◌, ◌++◌, leb, ltb,
  if◌then◌else◌, length, map, max, count_if, Result, ok, err, key_error,
}
use ai_ssd.Prelude.Dict.{Dict, pair_key, lookup, insert}
use ai_ssd.Prefetch.Ordered.{move_to_end, popitem, present}
use ai_ssd.Backend.Interface.{StorageRequest, StorageResult, Metadata, prefetch, demand_miss}

pub record StagedBlockEntry : Type 0 where
  pub block_id : ℕ
  pub layer_id : ℕ
  pub size_bytes : ℕ
  pub staged_at_us : ℕ
  pub ready_at_us : ℕ
  pub is_useful : Bool
  pub accessed_at_us : Option ℕ

-- The predictor that the object also holds is never used by it.
pub record V2Prefetcher : Type 0 where
  pub buffer_capacity : ℕ
  pub bytes_per_block : ℕ
  pub gpu_compute_time_per_layer_us : ℕ
  pub staged_buffer : Dict (ℕ × ℕ) StagedBlockEntry
  pub prefetch_requests : ℕ
  pub useful_prefetches : ℕ
  pub useless_prefetches : ℕ
  pub late_prefetches : ℕ
  pub demand_hits : ℕ
  pub demand_misses : ℕ
  pub extra_bytes_read : ℕ
  pub pipeline_stalls : ℕ
  pub total_stall_penalty_us : ℕ
  pub peak_memory_bytes : ℕ

abbrev pub new_v2 : ℕ → ℕ → ℕ → V2Prefetcher
new_v2 buffer_capacity_blocks bytes_per_block gpu_compute_time_per_layer_us = record {
  buffer_capacity = buffer_capacity_blocks;
  bytes_per_block = bytes_per_block;
  gpu_compute_time_per_layer_us = gpu_compute_time_per_layer_us;
  staged_buffer = [];
  prefetch_requests = 0;
  useful_prefetches = 0;
  useless_prefetches = 0;
  late_prefetches = 0;
  demand_hits = 0;
  demand_misses = 0;
  extra_bytes_read = 0;
  pipeline_stalls = 0;
  total_stall_penalty_us = 0;
  peak_memory_bytes = 0;
}

unfoldable pub current_memory_bytes : V2Prefetcher → ℕ
current_memory_bytes p = length p.staged_buffer * p.bytes_per_block

abbrev pub request_for : V2Prefetcher → Metadata → ℕ → ℕ → StorageRequest
request_for p why layer_id bid = record {
  block_id = bid;
  offset = 0;
  length = p.bytes_per_block;
  is_write = false;
  payload = none;
  layer_id = layer_id;
  head_id = 0;
  metadata = why;
}

-- the oldest entry leaves: one that was never read was useless
unfoldable pub evict : V2Prefetcher → Result V2Prefetcher
evict p = elim (popitem p.staged_buffer) [
  | none ↦ err key_error
  | some (oldest, rest) ↦ ok (elim oldest.1.is_useful [
    | true ↦ record p { staged_buffer = rest }
    | false ↦ record p {
      staged_buffer = rest;
      useless_prefetches = p.useless_prefetches + 1;
      extra_bytes_read = p.extra_bytes_read + oldest.1.size_bytes;
    }
  ])
]

-- the loop over the identifiers: those to be read, with an eviction for each while the buffer is full
unfoldable pub choose : V2Prefetcher → ℕ → List ℕ → List ℕ → V2Prefetcher × Result (List ℕ)
unfolding evict
choose p layer_id [] chosen = (p, ok chosen)
choose p layer_id (bid ∷ bids) chosen = elim (present (lookup (layer_id, bid) p.staged_buffer)) [
  | true ↦ choose p layer_id bids chosen
  | false ↦ elim (leb p.buffer_capacity (length p.staged_buffer)) [
    | false ↦ choose p layer_id bids (chosen ++ bid ∷ [])
    | true ↦ elim (evict p) [
      | err e ↦ (p, err e)
      | ok q ↦ choose q layer_id bids (chosen ++ bid ∷ [])
    ]
  ]
]

abbrev pub new_entry : ℕ → ℕ → StorageResult → StagedBlockEntry
new_entry layer_id now res = record {
  block_id = res.block_id;
  layer_id = layer_id;
  size_bytes = res.length;
  staged_at_us = now;
  ready_at_us = now + res.latency_us;
  is_useful = false;
  accessed_at_us = none;
}

-- the loop over the results
unfoldable pub stage : V2Prefetcher → ℕ → ℕ → List StorageResult → V2Prefetcher
stage p layer_id now [] = p
stage p layer_id now (res ∷ results) =
    stage
      (record p {
        prefetch_requests = p.prefetch_requests + 1;
        staged_buffer =
            insert (layer_id, res.block_id) (new_entry layer_id now res) p.staged_buffer;
      })
      layer_id now results

-- a hit: the entry moves to the end and is marked; `stalls` is the wait so far
unfoldable pub hit : V2Prefetcher → ℕ × ℕ → StagedBlockEntry → ℕ → ℕ → V2Prefetcher × ℕ
hit p key entry now stalls = (
  record p {
    staged_buffer =
        move_to_end key (record entry { is_useful = true; accessed_at_us = some now })
          p.staged_buffer;
    useful_prefetches = if entry.is_useful then p.useful_prefetches else p.useful_prefetches + 1;
    demand_hits = p.demand_hits + 1;
    late_prefetches =
        if ltb now entry.ready_at_us then p.late_prefetches + 1 else p.late_prefetches;
  },
  if ltb now entry.ready_at_us then max stalls (entry.ready_at_us - now) else stalls,
)

pub record Demand : Type 0 where
  pub prefetcher : V2Prefetcher
  pub hits : List ℕ
  pub misses : List ℕ
  pub stalls : ℕ

-- the loop over the demanded blocks
unfoldable pub demand : Demand → ℕ → ℕ → List ℕ → Demand
unfolding hit
demand d layer_id now [] = d
demand d layer_id now (bid ∷ bids) = elim (lookup (layer_id, bid) d.prefetcher.staged_buffer) [
  | some entry ↦
      let done = hit d.prefetcher (layer_id, bid) entry now d.stalls in
      demand (record d { prefetcher = done.0; hits = d.hits ++ bid ∷ []; stalls = done.1 }) layer_id
        now bids
  | none ↦
      demand
        (record d {
          prefetcher = record d.prefetcher { demand_misses = d.prefetcher.demand_misses + 1 };
          misses = d.misses ++ bid ∷ [];
        })
        layer_id now bids
]

abbrev pub sum_latency : List StorageResult → ℕ
sum_latency [] = 0
sum_latency (r ∷ rs) = r.latency_us + sum_latency rs

abbrev pub is_unread : (ℕ × ℕ) × StagedBlockEntry → Bool
is_unread item = not item.1.is_useful

-- `useless_prefetches` and `extra_bytes_read` as the telemetry reports them
unfoldable pub telemetry_useless : V2Prefetcher → ℕ × ℕ
telemetry_useless p =
    let unaccessed = count_if is_unread p.staged_buffer in
    (p.useless_prefetches + unaccessed, p.extra_bytes_read + unaccessed * p.bytes_per_block)

unfoldable pub clear : V2Prefetcher → V2Prefetcher
clear p = new_v2 p.buffer_capacity p.bytes_per_block p.gpu_compute_time_per_layer_us

module _ {S : Type 0} (submit_batch : S → List StorageRequest → S × List StorageResult) where
  unfoldable pub prefetch_blocks :
      V2Prefetcher → S → List ℕ → ℕ → ℕ → (V2Prefetcher × S) × Result (List ℕ)
  unfolding choose stage current_memory_bytes
  prefetch_blocks p s block_ids layer_id now =
      let (q, chosen) = choose p layer_id block_ids [] in
      elim chosen [
        | err e ↦ ((q, s), err e)
        | ok [] ↦ ((q, s), ok [])
        | ok (bid ∷ bids) ↦
            let answer = submit_batch s (map (request_for p prefetch layer_id) (bid ∷ bids)) in
            let staged = stage q layer_id now answer.1 in
            (
              (
                record staged {
                  peak_memory_bytes = max staged.peak_memory_bytes (current_memory_bytes staged);
                },
                answer.0,
              ),
              ok (bid ∷ bids),
            )
      ]

  -- the demand misses are read in one batch, if there are any
  unfoldable pub read_misses : Demand → S → ℕ → S × ℕ
  read_misses d s layer_id = elim d.misses [
    | [] ↦ (s, 0)
    | bid ∷ bids ↦
        let answer =
          submit_batch s (map (request_for d.prefetcher demand_miss layer_id) (bid ∷ bids)) in
        (answer.0, sum_latency answer.1)
  ]

  unfoldable pub access_blocks :
      V2Prefetcher → S → List ℕ → ℕ → ℕ → (V2Prefetcher × S) × (List ℕ × List ℕ × ℕ)
  unfolding demand read_misses
  access_blocks p s block_ids layer_id now =
      let d =
        demand (record { prefetcher = p; hits = []; misses = []; stalls = 0 }) layer_id now
          block_ids in
      let answer = read_misses d s layer_id in
      let net = d.stalls + answer.1 - p.gpu_compute_time_per_layer_us in
      let q = d.prefetcher in
      (
        (
          if ltb 0 net
              then record q {
                pipeline_stalls = q.pipeline_stalls + 1;
                total_stall_penalty_us = q.total_stall_penalty_us + net;
              }
              else q,
          answer.0,
        ),
        (d.hits, d.misses, net),
      )
