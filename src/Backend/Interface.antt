-- ===== src/Backend/Interface.antt =====
-- person3_system/storage/backend.py: requests, results, and the batch loop of `StorageBackend`.
-- The abstract `read` and `write` are parameters; latencies are whole microseconds. The thread
-- pool behind the asynchronous calls is not modelled.
use ai_ssd.Prelude.{ℕ, ◌+◌, Bool, true, false, Option, none, some, List, [], ◌∷◌}

-- the `metadata` that the prefetcher attaches; backends pass it on and do not read it
pub data Metadata : Type 0 where
  no_metadata prefetch demand_miss : Metadata

pub record StorageRequest : Type 0 where
  pub block_id : ℕ
  pub offset : ℕ
  pub length : ℕ
  pub is_write : Bool
  pub payload : Option (List ℕ)
  pub layer_id : ℕ
  pub head_id : ℕ
  pub metadata : Metadata

-- the texts of `error_msg`
pub data Message : Type 0 where
  read_failure write_failure : ℕ → Message

pub record StorageResult : Type 0 where
  pub block_id : ℕ
  pub length : ℕ
  pub latency_us : ℕ
  pub success : Bool
  pub error_msg : Option Message
  pub payload : Option (List ℕ)
  pub is_write : Bool

pub record Counters : Type 0 where
  pub total_reads : ℕ
  pub total_writes : ℕ
  pub bytes_read : ℕ
  pub bytes_written : ℕ
  pub total_latency_us : ℕ

abbrev pub no_counters : Counters
no_counters = record {
  total_reads = 0;
  total_writes = 0;
  bytes_read = 0;
  bytes_written = 0;
  total_latency_us = 0;
}

-- `get_stats`' totals over `get_telemetry`
unfoldable pub get_stats : Counters → ℕ × ℕ
get_stats c = (c.total_reads + c.total_writes, c.bytes_read + c.bytes_written)

-- `req.payload or b""`
abbrev pub payload_or_empty : Option (List ℕ) → List ℕ
payload_or_empty none = []
payload_or_empty (some bytes) = bytes

-- block, offset, length or bytes, layer, head
module _ {S : Type 0} (read : S → ℕ → ℕ → ℕ → ℕ → ℕ → S × StorageResult)
    (write : S → ℕ → ℕ → List ℕ → ℕ → ℕ → S × StorageResult) where
  unfoldable pub perform : S → StorageRequest → S × StorageResult
  perform s req = elim req.is_write [
    | true ↦ write s req.block_id req.offset (payload_or_empty req.payload) req.layer_id req.head_id
    | false ↦ read s req.block_id req.offset req.length req.layer_id req.head_id
  ]

  unfoldable pub submit_batch : S → List StorageRequest → S × List StorageResult
  unfolding perform
  submit_batch s [] = (s, [])
  submit_batch s (req ∷ reqs) =
      let one = perform s req in let rest = submit_batch one.0 reqs in (rest.0, one.1 ∷ rest.1)
