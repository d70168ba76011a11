-- ===== src/Adapter/Writes.antt =====
-- person3_system/prefetch/inference_adapter.py: writes, evictions and the reset.
use ai_ssd.Prelude.{
  ℕ, ◌+◌, ◌-◌, ◌/◌, Bool, [], ◌∷◌, ◌++◌, ◌||◌, List, Option, none, some, Error, Result, ok, err,
  length, take, drop, replicate, if◌then◌else◌,
}
use ai_ssd.Prelude.Dict.{pair_key, lookup, remove}
use ai_ssd.Prefetch.Ordered.{present}
use ai_ssd.Adapter.Interface.{KvStorage}
use ai_ssd.Adapter.State.{RealInferencePrefetchAdapter, no_counters}
use ai_ssd.Adapter.Staging.{prefetch}

-- what `register_block` is given: a dict with two arrays, bytes, or anything else
pub data Payload (A : Type 0) : Type 0 where
  arrays : A → A → Payload A
  bytes : List ℕ → Payload A
  other : Payload A

abbrev pub error_of : {X : Type 0} → Result X → Option Error
error_of (ok x) = none
error_of (err e) = some e

module _ {S A : Type 0} (st : KvStorage S A) where
  open st use {as_dtype, nbytes, of_bytes}

  -- a write of two arrays in the adapter's type; the staging buffer is left as it is
  unfoldable pub put_block :
      (layer_idx block_id : ℕ)
      → (k v : A) → (head_id token_start : ℕ) → RealInferencePrefetchAdapter S A
      → RealInferencePrefetchAdapter S A
  put_block layer_idx block_id k v head_id token_start a =
      let c = a.counters in
      record a {
        storage_backend =
            st.write_block a.storage_backend layer_idx block_id k v head_id token_start;
        counters = record c {
          blocks_written = c.blocks_written + 1;
          bytes_written = c.bytes_written + (nbytes k + nbytes v);
        };
      }

  unfoldable pub write_block :
      (layer_idx block_id : ℕ)
      → (k_block v_block : A) → (head_id token_start : ℕ) → RealInferencePrefetchAdapter S A
      → RealInferencePrefetchAdapter S A
  unfolding put_block
  write_block layer_idx block_id k_block v_block head_id token_start a =
      put_block layer_idx block_id (as_dtype k_block) (as_dtype v_block) head_id token_start a

  -- the two arrays of a payload; bytes are padded with zeros to the size of a block and halved
  unfoldable pub arrays_of : Payload A → ℕ → A × A
  arrays_of (arrays k v) n = (as_dtype k, as_dtype v)
  arrays_of (bytes b) n =
      let raw = b ++ replicate (n - length b) 0 in
      let half = length raw / 2 in (of_bytes (take half raw), of_bytes (drop half raw))
  arrays_of other n = (of_bytes (replicate (n / 2) 0), of_bytes (replicate (n / 2) 0))

  -- A raise of the prefetch goes through, behind the write.
  unfoldable pub register_block :
      (block_id layer_id head_id : ℕ)
      → Payload A
      → (token_start : ℕ) → (stage_in_dram : Bool) → RealInferencePrefetchAdapter S A
      → RealInferencePrefetchAdapter S A × Option Error
  unfolding arrays_of put_block prefetch
  register_block block_id layer_id head_id payload token_start stage_in_dram a =
      let (k, v) = arrays_of payload a.bytes_per_block in
      let written = put_block layer_id block_id k v head_id token_start a in
      let (staged, result) =
        prefetch st (block_id ∷ []) layer_id head_id token_start none written in
      if stage_in_dram then (staged, error_of result) else (written, none)

  unfoldable pub contains_block : ℕ → ℕ → RealInferencePrefetchAdapter S A → Bool
  contains_block layer_idx block_id a =
      present (lookup (layer_idx, block_id) a.staging_buffer)
      || st.contains_block a.storage_backend layer_idx block_id

  unfoldable pub evict_block :
      ℕ → ℕ → RealInferencePrefetchAdapter S A → RealInferencePrefetchAdapter S A × Bool
  evict_block layer_idx block_id a =
      let (s, evicted) = st.evict_block a.storage_backend layer_idx block_id in
      (
        record a {
          staging_buffer = remove (layer_idx, block_id) a.staging_buffer;
          storage_backend = s;
        },
        evicted,
      )

  -- Tasks that no entry refers to any more run on and are forgotten.
  unfoldable pub reset_stats : RealInferencePrefetchAdapter S A → RealInferencePrefetchAdapter S A
  reset_stats a = record a {
    staging_buffer = [];
    counters = no_counters;
    storage_backend = st.reset_stats a.storage_backend;
  }
