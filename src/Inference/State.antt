-- ===== src/Inference/State.antt =====
-- person2_ssd/inference_backend.py: the arrays, the entries and the counters of
-- `RealInferenceStorageBackend`. An array is its shape with the bytes of its elements; the time
-- stamps of the log are left out.
use ai_ssd.Prelude.{
  ℕ, zero, suc, ◌+◌, ◌-◌, none, some, List, [], ◌∷◌, ◌++◌, length, drop, ltb, if◌then◌else◌, ◌*◌,
  ◌==◌, Result, ok, err, value_error,
}
use ai_ssd.Prelude.Dict.{Dict, nat_key, lookup, insert}

pub data DType : Type 0 where
  float32 : DType
  other_dtype : (itemsize : ℕ) → DType

abbrev pub itemsize_of : DType → ℕ
itemsize_of float32 = 4
itemsize_of (other_dtype itemsize) = itemsize

pub record Array : Type 0 where
  pub shape : List ℕ
  pub dtype : DType
  pub bytes : List ℕ

abbrev pub elements : List ℕ → ℕ
elements [] = 1
elements (n ∷ ns) = n * elements ns

-- `np.frombuffer(bytes, dtype).reshape(shape)` raises where the bytes do not fit the shape
unfoldable pub reshaped : Array → Result Array
reshaped a =
    if length a.bytes == elements a.shape * itemsize_of a.dtype then ok a else err value_error

-- an argument of `write_block`
pub data Payload : Type 0 where
  array : Array → Payload
  raw : List ℕ → Payload

pub record Entry : Type 0 where
  pub k_offset : ℕ
  pub k_size : ℕ
  pub k_shape : List ℕ
  pub k_dtype : DType
  pub v_offset : ℕ
  pub v_size : ℕ
  pub v_shape : List ℕ
  pub v_dtype : DType
  pub head_id : ℕ
  pub token_start : ℕ
  pub channel : ℕ
  pub channels : List ℕ
  pub lba : ℕ

pub data LogOp : Type 0 where
  write read_key read_value read_block batch_read_key batch_read_value batch_read_block
        computational_topk :
      LogOp

pub record LogRecord : Type 0 where
  pub op : LogOp
  pub layer_id : ℕ
  pub bytes : ℕ

-- the counters that `reset_stats` clears
pub record Stats : Type 0 where
  pub channel_counters : Dict ℕ ℕ
  pub per_channel_reads : Dict ℕ ℕ
  pub per_channel_writes : Dict ℕ ℕ
  pub per_channel_read_bytes : Dict ℕ ℕ
  pub per_channel_write_bytes : Dict ℕ ℕ
  pub bytes_read : ℕ
  pub bytes_written : ℕ
  pub blocks_read : ℕ
  pub blocks_written : ℕ
  pub requests : ℕ
  pub key_page_read_requests : ℕ
  pub value_page_read_requests : ℕ
  pub combined_block_read_requests : ℕ
  pub storage_batches : ℕ
  pub batched_requests : ℕ
  pub topk_calls : ℕ
  pub internal_k_blocks : ℕ
  pub internal_k_bytes : ℕ
  pub access_log : List LogRecord

-- the counters after some of them were changed, and whether a missing one raised
pub data Counting : Type 0 where
  counted : Stats → Counting
  uncounted : Stats → Counting

-- `{c: 0 for c in range(channels)}`, from `c` on
unfoldable pub zeros_from : ℕ → ℕ → Dict ℕ ℕ
zeros_from c zero = []
zeros_from c (suc n) = (c, 0) ∷ zeros_from (suc c) n

unfoldable pub no_stats : ℕ → Stats
no_stats channels =
    let zeros = zeros_from 0 channels in
    record {
      channel_counters = zeros;
      per_channel_reads = zeros;
      per_channel_writes = zeros;
      per_channel_read_bytes = zeros;
      per_channel_write_bytes = zeros;
      bytes_read = 0;
      bytes_written = 0;
      blocks_read = 0;
      blocks_written = 0;
      requests = 0;
      key_page_read_requests = 0;
      value_page_read_requests = 0;
      combined_block_read_requests = 0;
      storage_batches = 0;
      batched_requests = 0;
      topk_calls = 0;
      internal_k_blocks = 0;
      internal_k_bytes = 0;
      access_log = [];
    }

-- `d[c] += n`, for a key that is there
unfoldable pub add_at : ℕ → ℕ → Dict ℕ ℕ → Dict ℕ ℕ
add_at c n d = elim (lookup c d) [ none ↦ d | some old ↦ insert c (old + n) d ]

-- the log keeps its last 200 entries
unfoldable pub append_log : LogRecord → List LogRecord → List LogRecord
append_log r log =
    let longer = log ++ r ∷ [] in
    if ltb 200 (length longer) then drop (length longer - 200) longer else longer
