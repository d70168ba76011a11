-- ===== src/Ftl/TensorAware.antt =====
-- person2_ssd/ftl/tensor_aware.py: allocation striped over channels, dies and planes.
use ai_ssd.Prelude.{
  ℕ, ◌+◌, ◌*◌, ◌/◌, ◌%◌, max, Bool, true, false, ◌||◌, some, List, Result, ok, err,
  zero_division_error, ◌==◌, if◌then◌else◌, get_or, modify, replicate,
}
use ai_ssd.Location.Text.{Text, Location, to_location_str}
use ai_ssd.Schema.Block.{KvBlock}
use ai_ssd.Ftl.Base.{Geometry, BaseFtl, new_base, record_mapping, reset_base}

pub record TensorAwareFtl : Type 0 where
  pub base : BaseFtl
  pub channel_counters : List ℕ

unfoldable pub new_tensor_aware : Geometry → TensorAwareFtl
new_tensor_aware g = record { base = new_base g; channel_counters = replicate g.channels 0 }

-- `token_start // token_count`, where a count of zero is read as 16
unfoldable pub token_block_index : KvBlock → ℕ
token_block_index b = b.token_start / max 1 (if b.token_count == 0 then 16 else b.token_count)

-- the channel, die and plane of a token block of a head and a layer
unfoldable pub stripe_channel : Geometry → (head t : ℕ) → ℕ
stripe_channel g head t = (head + t + t / g.channels) % g.channels

unfoldable pub stripe_die : Geometry → (layer head t : ℕ) → ℕ
stripe_die g layer head t = (layer + head / g.channels + t / g.channels) % g.dies_per_channel

unfoldable pub stripe_plane : Geometry → (t : ℕ) → ℕ
stripe_plane g t = t / (g.channels * g.dies_per_channel) % g.planes_per_die

-- where a block goes, when its channel has been used `counter` times
unfoldable pub stripe_location : Geometry → KvBlock → ℕ → Location
unfolding token_block_index stripe_channel stripe_die stripe_plane
stripe_location g b counter =
    let t = token_block_index b in
    record {
      channel = stripe_channel g b.kv_head_start t;
      die = stripe_die g b.layer_id b.kv_head_start t;
      plane = stripe_plane g t;
      block = counter / g.pages_per_block % g.blocks_per_plane;
      page = counter % g.pages_per_block;
    }

-- a division by zero, which Python meets before any write
abbrev pub has_zero : Geometry → Bool
has_zero g =
    g.channels == 0
    || g.dies_per_channel == 0
    || g.planes_per_die == 0
    || g.pages_per_block == 0
    || g.blocks_per_plane == 0

unfoldable pub allocate : TensorAwareFtl → KvBlock → Result (TensorAwareFtl × KvBlock × Text)
allocate f b = elim (has_zero f.base.geometry) [
  | true ↦ err zero_division_error
  | false ↦
      let g = f.base.geometry in
      let ch = stripe_channel g b.kv_head_start (token_block_index b) in
      let loc = to_location_str (stripe_location g b (get_or f.channel_counters ch 0)) in
      ok (
        record {
          base = record_mapping f.base b.block_id loc;
          channel_counters = modify f.channel_counters ch (λ n. n + 1);
        },
        record b { physical_location = some loc },
        loc,
      )
]

unfoldable pub reset : TensorAwareFtl → TensorAwareFtl
reset f = record {
  base = reset_base f.base;
  channel_counters = replicate f.base.geometry.channels 0;
}
