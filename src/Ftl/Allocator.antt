-- ===== src/Ftl/Allocator.antt =====
-- person2_ssd/kv_allocator/allocator.py: one of the two translation layers, and the stored blocks.
use ai_ssd.Prelude.{ℕ, Option, [], Result, ok, err}
use ai_ssd.Prelude.Dict.{Dict, nat_key, lookup, insert}
use ai_ssd.Location.Text.{Text}
use ai_ssd.Schema.Block.{KvBlock}
use ai_ssd.Ftl.Base.{Geometry, BaseFtl}
use ai_ssd.Ftl.Base
use ai_ssd.Ftl.Conventional.{ConventionalFtl, new_conventional}
use ai_ssd.Ftl.Conventional
use ai_ssd.Ftl.TensorAware.{TensorAwareFtl, new_tensor_aware}
use ai_ssd.Ftl.TensorAware

-- the class of `self.ftl`
pub data Layer : Type 0 where
  conventional : ConventionalFtl → Layer
  tensor_aware : TensorAwareFtl → Layer

-- the part that both layers inherit
unfoldable pub base_of : Layer → BaseFtl
base_of (conventional f) = f.base
base_of (tensor_aware f) = f.base

-- `self.ftl.allocate(block)`
unfoldable pub dispatch : Layer → KvBlock → Result (Layer × KvBlock × Text)
dispatch (conventional f) b = elim (Conventional.allocate f b) [
  | err e ↦ err e
  | ok (f', b', loc) ↦ ok (conventional f', b', loc)
]
dispatch (tensor_aware f) b = elim (TensorAware.allocate f b) [
  | err e ↦ err e
  | ok (f', b', loc) ↦ ok (tensor_aware f', b', loc)
]

-- `mode == "tensor_aware"`; every other mode gives the conventional layer
pub data Mode : Type 0 where
  tensor_aware_mode other_mode : Mode

pub record KvStorageAllocator : Type 0 where
  pub mode : Mode
  pub ftl : Layer
  pub stored_blocks : Dict ℕ KvBlock

abbrev pub default_geometry : ℕ → Geometry
default_geometry channels = record {
  channels = channels;
  dies_per_channel = 4;
  planes_per_die = 2;
  blocks_per_plane = 64;
  pages_per_block = 128;
}

abbrev pub layer_for : Mode → ℕ → Layer
layer_for tensor_aware_mode channels = tensor_aware (new_tensor_aware (default_geometry channels))
layer_for other_mode channels = conventional (new_conventional (default_geometry channels))

unfoldable pub new_allocator : Mode → ℕ → KvStorageAllocator
new_allocator mode channels = record {
  mode = mode;
  ftl = layer_for mode channels;
  stored_blocks = [];
}

-- The stored object is the block that `allocate` has written the location into.
unfoldable pub store_block :
    KvStorageAllocator → KvBlock → Result (KvStorageAllocator × KvBlock × Text)
unfolding dispatch
store_block a b = elim (dispatch a.ftl b) [
  | err e ↦ err e
  | ok (ftl', b', loc) ↦
      ok (record a { ftl = ftl'; stored_blocks = insert b'.block_id b' a.stored_blocks }, b', loc)
]

unfoldable pub load_block : KvStorageAllocator → ℕ → Option KvBlock
load_block a block_id = lookup block_id a.stored_blocks

unfoldable pub get_location : KvStorageAllocator → ℕ → Option Text
unfolding base_of
get_location a block_id = Base.get_location (base_of a.ftl) block_id
