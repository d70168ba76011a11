-- ===== src/Inference/Store.antt =====
-- person2_ssd/inference_backend.py, `RealInferenceStorageBackend` in its "file" mode: the backend
-- and its write. The hint to the page cache is left out.
use ai_ssd.Prelude.{
  ℕ, zero, suc, ◌+◌, ◌/◌, Bool, true, false, Option, none, some, List, [], ◌∷◌, ◌++◌, length,
  if◌then◌else◌, Result, ok, err, Error, key_error,
}
use ai_ssd.Prelude.Dict.{Dict, nat_key, pair_key, lookup, insert, remove}
use ai_ssd.Mapper.Coordinates.{coordinate, MappingMode, LbaAddress}
use ai_ssd.Mapper.Addressing.{
  DeterministicTensorMapper, new_mapper, tensor_to_lba, tensor_to_nand_physical,
}
use ai_ssd.Prefetch.Ordered.{present}
use ai_ssd.Inference.Device.{Device}
use ai_ssd.Inference.State.{
  Array, Payload, array, raw, Entry, write, Stats, no_stats, add_at, append_log, float32, Counting,
  counted, uncounted,
}

module _ (dev : Device) where
  open dev use {File, pwrite}

  pub record RealInferenceStorageBackend : Type 0 where
    pub num_channels : ℕ
    pub num_heads : ℕ
    pub tokens_per_block : ℕ
    pub head_dim : ℕ
    pub mapping_mode : MappingMode
    pub enable_batching : Bool
    pub mapper : DeterministicTensorMapper
    pub storage : Dict (ℕ × ℕ) Entry
    pub backing : File
    pub file_offset : ℕ
    pub stats : Stats

  unfoldable pub new_backend :
      (channels dies_per_channel planes_per_die pages_per_block blocks_per_plane num_layers
        num_heads tokens_per_block head_dim : ℕ)
      → MappingMode
      → Bool
      → File
      → RealInferenceStorageBackend
  new_backend channels dies_per_channel planes_per_die pages_per_block blocks_per_plane num_layers
        num_heads tokens_per_block head_dim mapping_mode enable_batching backing =
      record {
        num_channels = channels;
        num_heads = num_heads;
        tokens_per_block = tokens_per_block;
        head_dim = head_dim;
        mapping_mode = mapping_mode;
        enable_batching = enable_batching;
        mapper =
            new_mapper channels dies_per_channel planes_per_die blocks_per_plane pages_per_block
              4096 65536 num_layers num_heads;
        storage = [];
        backing = backing;
        file_offset = 0;
        stats = no_stats channels;
      }

  -- the shape of the arrays that the backend makes up itself
  abbrev pub default_shape : RealInferenceStorageBackend → List ℕ
  default_shape b = b.tokens_per_block ∷ b.num_heads ∷ b.head_dim ∷ []

  -- bytes are taken for 32-bit floats of the default shape
  unfoldable pub as_array : RealInferenceStorageBackend → Payload → Array
  as_array b (array a) = a
  as_array b (raw bytes) = record { shape = default_shape b; dtype = float32; bytes = bytes }

  -- `k_block.shape[1]` of an array of three dimensions, else one
  abbrev pub heads_of_shape : List ℕ → ℕ
  heads_of_shape (t ∷ h ∷ d ∷ []) = h
  heads_of_shape _ = 1

  unfoldable pub heads_in_block : Payload → ℕ
  heads_in_block (array a) = heads_of_shape a.shape
  heads_in_block (raw bytes) = 1

  -- a write of `n` bytes on a channel
  unfoldable pub counted_write : Stats → ℕ → ℕ → Stats
  counted_write s ch n = record s {
    channel_counters = add_at ch 1 s.channel_counters;
    per_channel_writes = add_at ch 1 s.per_channel_writes;
    per_channel_write_bytes = add_at ch n s.per_channel_write_bytes;
  }

  -- the three counters one after the other; one that is missing raises
  unfoldable pub count_write : Stats → ℕ → ℕ → Counting
  unfolding counted_write
  count_write s ch n =
      let s1 = record s { channel_counters = add_at ch 1 s.channel_counters } in
      let s2 = record s1 { per_channel_writes = add_at ch 1 s.per_channel_writes } in
      if present (lookup ch s.channel_counters)
      then if present (lookup ch s.per_channel_writes)
        then if present (lookup ch s.per_channel_write_bytes)
          then counted (counted_write s ch n)
          else uncounted s2
        else uncounted s1
      else uncounted s

  -- the loop over the heads of a block, from the head `h_eff` on, `n` bytes for each
  unfoldable pub place_heads :
      RealInferenceStorageBackend
      → (layer_idx block_id token_start n h_eff rounds : ℕ) → Stats × List ℕ
      → Stats × Result (List ℕ)
  unfolding count_write
  place_heads b layer_idx block_id token_start n h_eff zero (s, assigned) = (s, ok assigned)
  place_heads b layer_idx block_id token_start n h_eff (suc rounds) (s, assigned) =
      elim (tensor_to_nand_physical b.mapper
        (coordinate layer_idx h_eff token_start b.tokens_per_block block_id) b.mapping_mode
        (some s.channel_counters)) [
          | err e ↦ (s, err e)
          | ok l ↦ elim (count_write s l.channel n) [
            | uncounted t ↦ (t, err key_error)
            | counted t ↦
                place_heads b layer_idx block_id token_start n (h_eff + 1) rounds
                  (t, assigned ++ l.channel ∷ [])
          ]
        ]

  abbrev pub first_channel : List ℕ → ℕ
  first_channel [] = 0
  first_channel (c ∷ cs) = c

  -- the entry of a block whose key and value stand one after the other at the end of the file
  unfoldable pub new_entry :
      RealInferenceStorageBackend → (head_id token_start : ℕ) → (k v : Array) → List ℕ → ℕ → Entry
  new_entry b head_id token_start k v assigned lba = record {
    k_offset = b.file_offset;
    k_size = length k.bytes;
    k_shape = k.shape;
    k_dtype = k.dtype;
    v_offset = b.file_offset + length k.bytes;
    v_size = length v.bytes;
    v_shape = v.shape;
    v_dtype = v.dtype;
    head_id = head_id;
    token_start = token_start;
    channel = first_channel assigned;
    channels = assigned;
    lba = lba;
  }

  -- what `write_block` does once the channels and the address are known
  unfoldable pub commit :
      RealInferenceStorageBackend
      → (layer_idx block_id head_id token_start : ℕ) → (k v : Array) → List ℕ
      → ℕ
      → RealInferenceStorageBackend
  unfolding new_entry
  commit b layer_idx block_id head_id token_start k v assigned lba =
      let k_size = length k.bytes in
      let v_size = length v.bytes in
      let k_offset = b.file_offset in
      let s = b.stats in
      record b {
        backing = (pwrite (pwrite b.backing k.bytes k_offset).0 v.bytes (k_offset + k_size)).0;
        file_offset = b.file_offset + (k_size + v_size);
        storage =
            insert (layer_idx, block_id) (new_entry b head_id token_start k v assigned lba)
              b.storage;
        stats = record s {
          blocks_written = s.blocks_written + 1;
          bytes_written = s.bytes_written + (k_size + v_size);
          requests = s.requests + 1;
          access_log =
              append_log (record { op = write; layer_id = layer_idx; bytes = k_size + v_size })
                s.access_log;
        };
      }

  -- the end of `write_block`, from the outcome of the loop and the block's address
  unfoldable pub finish_write :
      RealInferenceStorageBackend
      → (layer_idx block_id head_id token_start : ℕ) → (k v : Array) → Result (List ℕ)
      → Result LbaAddress
      → RealInferenceStorageBackend × Option Error
  unfolding commit
  finish_write b layer_idx block_id head_id token_start k v (err e) address = (b, some e)
  finish_write b layer_idx block_id head_id token_start k v (ok assigned) (err e) = (b, some e)
  finish_write b layer_idx block_id head_id token_start k v (ok assigned) (ok a) =
      (commit b layer_idx block_id head_id token_start k v assigned a.lba, none)

  -- The channels that were counted before a raise stay counted.
  unfoldable pub write_block :
      RealInferenceStorageBackend
      → (layer_idx block_id : ℕ) → (k_block v_block : Payload) → (head_id token_start : ℕ)
      → RealInferenceStorageBackend × Option Error
  unfolding place_heads finish_write
  write_block b layer_idx block_id k_block v_block head_id token_start =
      let k = as_array b k_block in
      let v = as_array b v_block in
      let heads = heads_in_block k_block in
      let (s, placed) =
        place_heads b layer_idx block_id token_start ((length k.bytes + length v.bytes) / heads)
          head_id heads (b.stats, []) in
      let counted = record b { stats = s } in
      finish_write counted layer_idx block_id head_id token_start k v placed (
        tensor_to_lba b.mapper (coordinate layer_idx head_id token_start 16 block_id)
          b.mapping_mode)

  unfoldable pub evict_block :
      RealInferenceStorageBackend → ℕ → ℕ → RealInferenceStorageBackend × Bool
  evict_block b layer_idx block_id =
      if present (lookup (layer_idx, block_id) b.storage)
      then (record b { storage = remove (layer_idx, block_id) b.storage }, true)
      else (b, false)

  unfoldable pub contains_block : RealInferenceStorageBackend → ℕ → ℕ → Bool
  contains_block b layer_idx block_id = present (lookup (layer_idx, block_id) b.storage)

  unfoldable pub reset_stats : RealInferenceStorageBackend → RealInferenceStorageBackend
  reset_stats b = record b { stats = no_stats b.num_channels }
