-- ===== src/Ftl/Conventional.antt =====
-- person2_ssd/ftl/conventional.py: sequential allocation.
use ai_ssd.Prelude.{ℕ, ◌+◌, ◌/◌, ◌%◌, true, false, some, Result, ok, err, runtime_error, leb}
use ai_ssd.Location.Text.{Text, Location, to_location_str}
use ai_ssd.Schema.Block.{KvBlock}
use ai_ssd.Ftl.Base.{Geometry, BaseFtl, new_base, record_mapping, reset_base}

pub record ConventionalFtl : Type 0 where
  pub base : BaseFtl
  pub linear_counter : ℕ

unfoldable pub new_conventional : Geometry → ConventionalFtl
new_conventional g = record { base = new_base g; linear_counter = 0 }

-- The page, block, plane, die and channel of a linear index, the page fastest. (Where a size is
-- zero the capacity is too, and `allocate` raises before it divides.)
unfoldable pub linear_location : Geometry → ℕ → Location
linear_location g n =
    let i₁ = n / g.pages_per_block in
    let i₂ = i₁ / g.blocks_per_plane in
    let i₃ = i₂ / g.planes_per_die in
    record {
      channel = i₃ / g.dies_per_channel;
      die = i₃ % g.dies_per_channel;
      plane = i₂ % g.planes_per_die;
      block = i₁ % g.blocks_per_plane;
      page = n % g.pages_per_block;
    }

-- The layer, the block with its new `physical_location`, and the location. The test comes before
-- any write, so a raise leaves the layer as it was.
unfoldable pub allocate : ConventionalFtl → KvBlock → Result (ConventionalFtl × KvBlock × Text)
allocate f b = elim (leb f.base.total_pages f.linear_counter) [
  | true ↦ err runtime_error
  | false ↦
      let loc = to_location_str (linear_location f.base.geometry f.linear_counter) in
      ok (
        record {
          base = record_mapping f.base b.block_id loc;
          linear_counter = f.linear_counter + 1;
        },
        record b { physical_location = some loc },
        loc,
      )
]

unfoldable pub reset : ConventionalFtl → ConventionalFtl
reset f = record { base = reset_base f.base; linear_counter = 0 }
