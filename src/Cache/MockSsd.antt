-- ===== src/Cache/MockSsd.antt =====
-- person1_kv_engine/mock_ssd.py, `MockSSD`. Its dict holds the very objects that it is given, so
-- here it holds their identifiers. Times are nanoseconds.
use ai_ssd.Prelude.{
  ℕ, ◌+◌, ◌*◌, ◌%◌, Bool, true, false, Option, none, some, List, [], ◌∷◌, ◌++◌, length,
}
use ai_ssd.Prelude.Dict.{Dict, nat_key, lookup, insert}
use ai_ssd.Location.Text.{Text, codes, decimal}
use ai_ssd.Schema.Block.{StorageTier, total_size_bytes}
use ai_ssd.Cache.Blocks.{BlockObject}
use ai_ssd.Cache.Hotness.{Heap}
use ai_ssd.Prefetch.Ordered.{present}

pub record MockSsd : Type 0 where
  -- the block's identifier, which is also the object's
  pub storage : Dict ℕ ℕ
  pub latency_per_block_ns : ℕ
  pub write_count : ℕ
  pub read_count : ℕ
  pub host_to_device_bytes : ℕ
  pub device_to_host_bytes : ℕ
  pub flash_read_bytes : ℕ
  pub flash_write_bytes : ℕ
  pub simulated_time_ns : ℕ

abbrev pub new_mock_ssd : ℕ → MockSsd
new_mock_ssd latency_per_block_ns = record {
  storage = [];
  latency_per_block_ns = latency_per_block_ns;
  write_count = 0;
  read_count = 0;
  host_to_device_bytes = 0;
  device_to_host_bytes = 0;
  flash_read_bytes = 0;
  flash_write_bytes = 0;
  simulated_time_ns = 0;
}

-- `1.5 + T_PROG_US` microseconds
abbrev pub write_time_ns : ℕ
write_time_ns = 201500

unfoldable pub mock_location : ℕ → Text
mock_location block_id =
    codes "mock_ch" ++ (decimal (block_id % 8) ++ (codes "_die0_pg" ++ decimal block_id))

-- the object's new tier and location
abbrev pub placed : BlockObject → BlockObject
placed b = record b {
  descriptor = record b.descriptor {
    storage_tier = StorageTier.ssd;
    physical_location = some (mock_location b.descriptor.block_id);
  };
}

-- An identifier that stands for no object changes nothing: the caller has the object.
unfoldable pub store_block : MockSsd → Heap → ℕ → MockSsd × Heap
store_block s heap i = elim (lookup i heap) [
  | none ↦ (s, heap)
  | some b ↦
      let bytes = total_size_bytes b.descriptor in
      (
        record s {
          storage = insert b.descriptor.block_id i s.storage;
          write_count = s.write_count + 1;
          host_to_device_bytes = s.host_to_device_bytes + bytes;
          flash_write_bytes = s.flash_write_bytes + bytes;
          simulated_time_ns = s.simulated_time_ns + write_time_ns;
        },
        insert i (placed b) heap,
      )
]

abbrev deref : Heap → Option ℕ → Option (ℕ × BlockObject)
deref heap none = none
deref heap (some i) = elim (lookup i heap) [ none ↦ none | some b ↦ some (i, b) ]

unfoldable pub load_block : MockSsd → Heap → ℕ → (MockSsd × Heap) × Option BlockObject
load_block s heap block_id =
    let counted = record s { read_count = s.read_count + 1 } in
    elim (deref heap (lookup block_id s.storage)) [
      | none ↦ ((counted, heap), none)
      | some (i, b) ↦
          let loaded : BlockObject = record b {
            descriptor = record b.descriptor { storage_tier = StorageTier.dram };
          } in
          let bytes = total_size_bytes b.descriptor in
          (
            (
              record counted {
                device_to_host_bytes = s.device_to_host_bytes + bytes;
                flash_read_bytes = s.flash_read_bytes + bytes;
                simulated_time_ns = s.simulated_time_ns + s.latency_per_block_ns;
              },
              insert i loaded heap,
            ),
            some loaded,
          )
    ]

unfoldable pub estimate_read_latency : MockSsd → List ℕ → ℕ
estimate_read_latency s block_ids = length block_ids * s.latency_per_block_ns

unfoldable pub has_block : MockSsd → ℕ → Bool
has_block s block_id = present (lookup block_id s.storage)

-- `prefetch`: the identifiers that are stored
unfoldable pub prefetch : MockSsd → List ℕ → List ℕ
unfolding has_block
prefetch s [] = []
prefetch s (i ∷ ids) =
    let rest = prefetch s ids in elim (has_block s i) [ true ↦ i ∷ rest | false ↦ rest ]

unfoldable pub clear : MockSsd → MockSsd
clear s = new_mock_ssd s.latency_per_block_ns
