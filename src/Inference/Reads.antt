-- ===== src/Inference/Reads.antt =====
-- person2_ssd/inference_backend.py, the reads of single pages and blocks. Of a read that raises no
-- state is kept.
use ai_ssd.Prelude.{
  ℕ, ◌+◌, ◌*◌, Option, none, some, replicate, if◌then◌else◌, Result, ok, err, key_error,
}
use ai_ssd.Prelude.Dict.{nat_key, pair_key, lookup}
use ai_ssd.Prefetch.Ordered.{present}
use ai_ssd.Mapper.Coordinates.{coordinate}
use ai_ssd.Mapper.Addressing.{tensor_to_nand_physical}
use ai_ssd.Inference.Device.{Device}
use ai_ssd.Inference.State.{Array, Entry, Stats, LogOp, add_at, append_log, float32, reshaped}
use ai_ssd.Inference.Store.{RealInferenceStorageBackend, default_shape}

module _ (dev : Device) where
  open dev use {pread}

  -- `np.zeros((tokens, heads, dim), dtype=np.float32)`
  unfoldable pub zeros : RealInferenceStorageBackend dev → Array
  zeros b = record {
    shape = default_shape dev b;
    dtype = float32;
    bytes = replicate (b.tokens_per_block * b.num_heads * b.head_dim * 4) 0;
  }

  -- the bytes of the key and of the value of an entry in the backing file
  unfoldable pub raw_key : RealInferenceStorageBackend dev → Entry → Array
  raw_key b e = record {
    shape = e.k_shape;
    dtype = e.k_dtype;
    bytes = pread b.backing e.k_size e.k_offset;
  }

  unfoldable pub raw_value : RealInferenceStorageBackend dev → Entry → Array
  raw_value b e = record {
    shape = e.v_shape;
    dtype = e.v_dtype;
    bytes = pread b.backing e.v_size e.v_offset;
  }

  -- the arrays in the recorded shapes
  unfoldable pub stored_key : RealInferenceStorageBackend dev → Entry → Result Array
  unfolding raw_key reshaped
  stored_key b e = reshaped (raw_key b e)

  unfoldable pub stored_value : RealInferenceStorageBackend dev → Entry → Result Array
  unfolding raw_value reshaped
  stored_value b e = reshaped (raw_value b e)

  -- a missing block reads as zeros
  unfoldable pub key_or_zeros : RealInferenceStorageBackend dev → Option Entry → Result Array
  unfolding stored_key
  key_or_zeros b none = ok (zeros b)
  key_or_zeros b (some e) = stored_key b e

  unfoldable pub value_or_zeros : RealInferenceStorageBackend dev → Option Entry → Result Array
  unfolding stored_value
  value_or_zeros b none = ok (zeros b)
  value_or_zeros b (some e) = stored_value b e

  -- the bytes that the counters take a page for
  abbrev pub key_size : RealInferenceStorageBackend dev → Option Entry → ℕ
  key_size b none = b.tokens_per_block * b.num_heads * b.head_dim * 4
  key_size b (some e) = e.k_size

  abbrev pub value_size : RealInferenceStorageBackend dev → Option Entry → ℕ
  value_size b none = b.tokens_per_block * b.num_heads * b.head_dim * 4
  value_size b (some e) = e.v_size

  -- a read of `n` bytes on a channel
  unfoldable pub counted_read : Stats → ℕ → ℕ → Stats
  counted_read s ch n = record s {
    per_channel_reads = add_at ch 1 s.per_channel_reads;
    per_channel_read_bytes = add_at ch n s.per_channel_read_bytes;
    requests = s.requests + 1;
    bytes_read = s.bytes_read + n;
  }

  -- a channel without its two counters raises
  unfoldable pub count_read : Stats → ℕ → ℕ → Result Stats
  unfolding counted_read
  count_read s ch n =
      if present (lookup ch s.per_channel_reads)
      then if present (lookup ch s.per_channel_read_bytes)
        then ok (counted_read s ch n)
        else err key_error
      else err key_error

  -- a read of `n` bytes with its outcome, counted on the channel that the mapper gives for a block
  unfoldable pub account :
      {X : Type 0}
      → RealInferenceStorageBackend dev
      → (layer_idx block_id head_id token_start n : ℕ) → Result X
      → Result (Stats × X)
  unfolding count_read
  account b layer_idx block_id head_id token_start n got =
      elim (tensor_to_nand_physical b.mapper
        (coordinate layer_idx head_id token_start b.tokens_per_block block_id) b.mapping_mode
        none) [
          | err e ↦ err e
          | ok l ↦ elim got [
            | err e ↦ err e
            | ok x ↦ elim (count_read b.stats l.channel n) [ err e ↦ err e | ok s ↦ ok (s, x) ]
          ]
        ]

  -- the key, then the value
  unfoldable pub both_of : Result Array → Result Array → Result (Array × Array)
  both_of (err e) v = err e
  both_of (ok k) (err e) = err e
  both_of (ok k) (ok v) = ok (k, v)

  abbrev pub logged : Stats → LogOp → ℕ → ℕ → Stats
  logged s op layer_idx n = record s {
    access_log = append_log (record { op = op; layer_id = layer_idx; bytes = n }) s.access_log;
  }

  unfoldable pub read_key_page :
      RealInferenceStorageBackend dev
      → (layer_idx block_id head_id token_start : ℕ)
      → Result (RealInferenceStorageBackend dev × Array)
  read_key_page b layer_idx block_id head_id token_start =
      let e = lookup (layer_idx, block_id) b.storage in
      elim (account b layer_idx block_id head_id token_start (key_size b e) (key_or_zeros b e)) [
        | err x ↦ err x
        | ok (s, got) ↦ ok (
          record b {
            stats =
                logged (record s { key_page_read_requests = s.key_page_read_requests + 1 })
                  LogOp.read_key layer_idx (key_size b e);
          },
          got,
        )
      ]

  unfoldable pub read_value_page :
      RealInferenceStorageBackend dev
      → (layer_idx block_id head_id token_start : ℕ)
      → Result (RealInferenceStorageBackend dev × Array)
  read_value_page b layer_idx block_id head_id token_start =
      let e = lookup (layer_idx, block_id) b.storage in
      elim (account b layer_idx block_id head_id token_start (value_size b e)
        (value_or_zeros b e)) [
          | err x ↦ err x
          | ok (s, got) ↦ ok (
            record b {
              stats =
                  logged
                    (record s {
                      blocks_read = s.blocks_read + 1;
                      value_page_read_requests = s.value_page_read_requests + 1;
                    })
                    LogOp.read_value layer_idx (value_size b e);
            },
            got,
          )
        ]

  unfoldable pub read_block :
      RealInferenceStorageBackend dev
      → (layer_idx block_id head_id token_start : ℕ)
      → Result (RealInferenceStorageBackend dev × (Array × Array))
  read_block b layer_idx block_id head_id token_start =
      let e = lookup (layer_idx, block_id) b.storage in
      let n = key_size b e + value_size b e in
      elim (account b layer_idx block_id head_id token_start n
        (both_of (key_or_zeros b e) (value_or_zeros b e))) [
          | err x ↦ err x
          | ok (s, got) ↦ ok (
            record b {
              stats =
                  logged
                    (record s {
                      blocks_read = s.blocks_read + 1;
                      combined_block_read_requests = s.combined_block_read_requests + 1;
                    })
                    LogOp.read_block layer_idx n;
            },
            got,
          )
        ]
