-- ===== src/Backend/Mock.antt =====
-- person3_system/storage/mock_backend.py, `MockStorageBackend`. Bytes are numbers, a block's
-- buffer is a list of them.
use ai_ssd.Prelude.{
  ℕ, ◌+◌, ◌-◌, Bool, true, false, Option, none, some, List, [], ◌++◌, ◌==◌, length, max, take, drop,
  replicate,
}
use ai_ssd.Prelude.Dict.{Dict, nat_key, lookup, insert}
use ai_ssd.Backend.Interface.{StorageResult, read_failure, write_failure, Counters, no_counters}

pub record MockStorageBackend : Type 0 where
  pub counters : Counters
  pub read_latency_us : ℕ
  pub write_latency_us : ℕ
  pub fail_block_id : Option ℕ
  pub store : Dict ℕ (List ℕ)

abbrev pub new_mock : ℕ → ℕ → Option ℕ → MockStorageBackend
new_mock read_latency_us write_latency_us fail_block_id = record {
  counters = no_counters;
  read_latency_us = read_latency_us;
  write_latency_us = write_latency_us;
  fail_block_id = fail_block_id;
  store = [];
}

unfoldable pub fails : Option ℕ → ℕ → Bool
fails none block_id = false
fails (some b) block_id = block_id == b

-- buf[offset : offset + length], or zeros where the block has no buffer
unfoldable pub read_bytes : Option (List ℕ) → ℕ → ℕ → List ℕ
read_bytes none offset n = replicate n 0
read_bytes (some buf) offset n = take n (drop offset buf)

unfoldable pub read :
    MockStorageBackend
    → (block_id offset n layer_id head_id : ℕ) → MockStorageBackend × StorageResult
unfolding read_bytes
read s block_id offset n layer_id head_id = elim (fails s.fail_block_id block_id) [
  | true ↦ (
    s,
    record {
      block_id = block_id;
      length = 0;
      latency_us = s.read_latency_us;
      success = false;
      error_msg = some (read_failure block_id);
      payload = none;
      is_write = false;
    },
  )
  | false ↦ (
    record s {
      counters = record s.counters {
        total_reads = s.counters.total_reads + 1;
        bytes_read = s.counters.bytes_read + n;
        total_latency_us = s.counters.total_latency_us + s.read_latency_us;
      };
    },
    record {
      block_id = block_id;
      length = n;
      latency_us = s.read_latency_us;
      success = true;
      error_msg = none;
      payload = some (read_bytes (lookup block_id s.store) offset n);
      is_write = false;
    },
  )
]

-- the buffer of a block, made at the first write
abbrev pub buffer_or_new : Option (List ℕ) → ℕ → List ℕ
buffer_or_new none size = replicate (max 4096 size) 0
buffer_or_new (some buf) size = buf

-- the buffer, extended where the bytes end behind it, with the slice assigned
unfoldable pub write_bytes : List ℕ → ℕ → List ℕ → List ℕ
write_bytes buf offset bytes =
    let end_ = offset + length bytes in
    let target = buf ++ replicate (end_ - length buf) 0 in
    take offset target ++ (bytes ++ drop end_ target)

unfoldable pub write :
    MockStorageBackend
    → (block_id offset : ℕ) → (bytes : List ℕ) → (layer_id head_id : ℕ)
    → MockStorageBackend × StorageResult
unfolding write_bytes
write s block_id offset bytes layer_id head_id = elim (fails s.fail_block_id block_id) [
  | true ↦ (
    s,
    record {
      block_id = block_id;
      length = 0;
      latency_us = s.write_latency_us;
      success = false;
      error_msg = some (write_failure block_id);
      payload = none;
      is_write = true;
    },
  )
  | false ↦ (
    record s {
      counters = record s.counters {
        total_writes = s.counters.total_writes + 1;
        bytes_written = s.counters.bytes_written + length bytes;
        total_latency_us = s.counters.total_latency_us + s.write_latency_us;
      };
      store =
          insert block_id
            (write_bytes (buffer_or_new (lookup block_id s.store) (offset + length bytes)) offset
              bytes)
            s.store;
    },
    record {
      block_id = block_id;
      length = length bytes;
      latency_us = s.write_latency_us;
      success = true;
      error_msg = none;
      payload = none;
      is_write = true;
    },
  )
]

unfoldable pub reset_stats : MockStorageBackend → MockStorageBackend
reset_stats s = record s { counters = no_counters }
