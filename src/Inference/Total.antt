-- ===== src/Inference/Total.antt =====
-- person2_ssd/inference_backend.py: writes do not raise in a backend that is ready, and leave it so.
use mathlib.Core.Path.{subst}
use ai_ssd.Prelude.{
  ℕ, ◌+◌, ◌/◌, ◌<◌, ◌≡◌, refl, sym, ap, ◌∙◌, none, some, List, [], ◌∷◌, length, Result, ok, arith,
}
use ai_ssd.Prelude.Dict.{
  nat_key, pair_key, lookup, insert, pair_discrete, lookup-insert_self, lookup-insert_ne,
}
use ai_ssd.Mapper.Coordinates.{coordinate, LbaAddress, tensor_aware}
use ai_ssd.Mapper.Addressing.{tensor_to_lba, stripe_unit}
use ai_ssd.Mapper.Distinct.{room, tensor_to_lba_bounds}
use ai_ssd.Inference.Device.{Device}
use ai_ssd.Inference.State.{Array, Payload, Entry, Stats}
use ai_ssd.Inference.Store.{
  RealInferenceStorageBackend, as_array, heads_in_block, place_heads, first_channel, new_entry,
  commit, finish_write, write_block,
}
use ai_ssd.Inference.Ready.{IsCounted, IsReady, BelowAll, place_heads_ready}

module _ (dev : Device) where
  first_channel-lt : (n : ℕ) (cs : List ℕ) → 0 < n → BelowAll dev n cs → first_channel dev cs < n
  first_channel-lt n [] pos h = pos
  first_channel-lt n (c ∷ cs) pos h = h.0

  commit-IsReady :
      (b : RealInferenceStorageBackend dev) (layer_idx block_id head_id token_start : ℕ)
      (k v : Array) (assigned : List ℕ) (lba : ℕ)
      → IsReady dev b
      → BelowAll dev b.num_channels assigned
      → IsReady dev (commit dev b layer_idx block_id head_id token_start k v assigned lba)
  unfolding commit new_entry
  commit-IsReady b layer_idx block_id head_id token_start k v assigned lba ready below = record {
    mode = ready.mode;
    tables = ready.tables;
    stripe = ready.stripe;
    same = ready.same;
    counted = ready.counted;
    entries = λ key e h. bounded key e h;
  }
    where
      entry : Entry
      entry = new_entry dev b head_id token_start k v assigned lba

      bounded :
          (key : ℕ × ℕ) (e : Entry)
          → lookup key (insert (layer_idx, block_id) entry b.storage) ≡ some e
          → e.channel < b.num_channels
      bounded key e h = elim (pair_discrete (layer_idx, block_id) key) [
        | yes same ↦
            let q : some entry ≡ some e =
              sym (lookup-insert_self key entry b.storage)
              ∙ ap (λ i. lookup key (insert i entry b.storage)) (sym same)
              ∙ h in
            let r : entry ≡ e = cc in
            let channel_of_entry : first_channel dev assigned ≡ e.channel = ap (λ x. x.channel) r in
            let pos : 0 < b.num_channels = omega (arith, ready.tables.0, ready.same) in
            let first = first_channel-lt b.num_channels assigned pos below in
            omega (arith, channel_of_entry, first)
        | no ne ↦
            ready.entries key e
              (sym (lookup-insert_ne (layer_idx, block_id) key entry b.storage ne) ∙ h)
      ]

  finish_write-IsReady :
      (b : RealInferenceStorageBackend dev) (layer_idx block_id head_id token_start : ℕ)
      (k v : Array) (placed : List ℕ) (a : LbaAddress) (placing : Result (List ℕ))
      (address : Result LbaAddress)
      → placing ≡ ok placed
      → address ≡ ok a
      → IsReady dev b
      → BelowAll dev b.num_channels placed
      → ((finish_write dev b layer_idx block_id head_id token_start k v placing address).1 ≡ none)
        × IsReady dev
            (finish_write dev b layer_idx block_id head_id token_start k v placing address).0
  unfolding finish_write
  finish_write-IsReady b layer_idx block_id head_id token_start k v placed a placing address e f
        ready below =
      rw (e, f, finish_write)
        (refl, commit-IsReady b layer_idx block_id head_id token_start k v placed a.lba ready below)

  -- In a backend that is ready, no write raises, and the backend is ready afterwards: its mapper
  -- has tables, every channel has all of its five counters, and every entry stands on a channel.
  pub write_block-IsReady :
      (b : RealInferenceStorageBackend dev) (layer_idx block_id : ℕ) (k_block v_block : Payload)
      (head_id token_start : ℕ)
      → IsReady dev b
      → ((write_block dev b layer_idx block_id k_block v_block head_id token_start).1 ≡ none)
        × IsReady dev (write_block dev b layer_idx block_id k_block v_block head_id token_start).0
  unfolding write_block room stripe_unit
  write_block-IsReady b layer_idx block_id k_block v_block head_id token_start ready =
      let k = as_array dev b k_block in
      let v = as_array dev b v_block in
      let heads = heads_in_block dev k_block in
      let n = (length k.bytes + length v.bytes) / heads in
      let loop : Stats × Result (List ℕ) =
        place_heads dev b layer_idx block_id token_start n head_id heads (b.stats, []) in
      let (s, placed, e, counted, below) =
        place_heads_ready dev b layer_idx block_id token_start n head_id heads b.stats [] ready
          ready.counted tt in
      let c = coordinate layer_idx head_id token_start 16 block_id in
      let mapped = tensor_to_lba_bounds b.mapper tensor_aware c ready.stripe in
      let found : tensor_to_lba b.mapper c b.mapping_mode ≡ ok mapped.0 =
        rw (ready.mode) mapped.1 in
      let same : IsCounted b.num_channels loop.0 =
        subst (λ p. IsCounted b.num_channels p.0) (sym e) counted in
      finish_write-IsReady (record b { stats = loop.0 }) layer_idx block_id head_id token_start k v
        placed mapped.0 loop.1 (tensor_to_lba b.mapper c b.mapping_mode) (ap (λ p. p.1) e) found
        (record {
          mode = ready.mode;
          tables = ready.tables;
          stripe = ready.stripe;
          same = ready.same;
          counted = same;
          entries = ready.entries;
        })
        below
