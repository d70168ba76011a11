-- ===== src/Ftl/Base.antt =====
-- person2_ssd/ftl/mapping.py and base.py: the mapping table, the reverse map, and what the two
-- translation layers inherit. A map is a dict from block identifiers to location texts.
use ai_ssd.Prelude.{ℕ, ◌*◌, Option, none, some, List, [], ◌∷◌, Result, ok, err, length}
use ai_ssd.Prelude.Dict.{Dict, nat_key, text_key, lookup, insert, remove}
use ai_ssd.Location.Text.{Text}
use ai_ssd.Schema.Block.{KvBlock}

pub record MappingTable : Type 0 where
  pub entries : Dict ℕ Text

unfoldable pub set_mapping : MappingTable → ℕ → Text → MappingTable
set_mapping t block_id physical_loc = record { entries = insert block_id physical_loc t.entries }

unfoldable pub get_mapping : MappingTable → ℕ → Option Text
get_mapping t block_id = lookup block_id t.entries

-- the removed location comes back beside the table
unfoldable pub remove_mapping : MappingTable → ℕ → MappingTable × Option Text
remove_mapping t block_id =
    (record { entries = remove block_id t.entries }, lookup block_id t.entries)

unfoldable pub total_mapped : MappingTable → ℕ
total_mapped t = length t.entries

-- the geometry that the constructors take
pub record Geometry : Type 0 where
  pub channels : ℕ
  pub dies_per_channel : ℕ
  pub planes_per_die : ℕ
  pub blocks_per_plane : ℕ
  pub pages_per_block : ℕ

pub record BaseFtl : Type 0 where
  pub geometry : Geometry
  pub total_pages : ℕ
  pub mapping_table : MappingTable
  pub reverse_map : Dict Text ℕ

unfoldable pub new_base : Geometry → BaseFtl
new_base g = record {
  geometry = g;
  total_pages =
      g.channels * g.dies_per_channel * g.planes_per_die * g.blocks_per_plane * g.pages_per_block;
  mapping_table = record { entries = [] };
  reverse_map = [];
}

-- the reverse map without the location that a block had, if it had one
abbrev pub forget : Option Text → Dict Text ℕ → Dict Text ℕ
forget none r = r
forget (some old_loc) r = remove old_loc r

-- `_record_mapping`
unfoldable pub record_mapping : BaseFtl → ℕ → Text → BaseFtl
unfolding set_mapping get_mapping
record_mapping f block_id physical_loc = record f {
  mapping_table = set_mapping f.mapping_table block_id physical_loc;
  reverse_map =
      insert physical_loc block_id (forget (get_mapping f.mapping_table block_id) f.reverse_map);
}

unfoldable pub translate : BaseFtl → ℕ → Option Text
unfolding get_mapping
translate f block_id = get_mapping f.mapping_table block_id

unfoldable pub reverse_translate : BaseFtl → Text → Option ℕ
reverse_translate f physical_loc = lookup physical_loc f.reverse_map

unfoldable pub get_location : BaseFtl → ℕ → Option Text
unfolding translate
get_location f block_id = translate f block_id

unfoldable pub reset_base : BaseFtl → BaseFtl
reset_base f = record f { mapping_table = record { entries = [] }; reverse_map = [] }

-- `allocate_batch`, for the `allocate` of a translation layer. What was allocated before a raise
-- stays allocated, so the layer and the blocks come back beside the error too.
module _ {F : Type 0} (allocate : F → KvBlock → Result (F × KvBlock × Text)) where
  unfoldable pub allocate_batch :
      F → List KvBlock → Dict ℕ Text → F × List KvBlock × Result (Dict ℕ Text)
  allocate_batch f [] results = (f, [], ok results)
  allocate_batch f (b ∷ bs) results = elim (allocate f b) [
    | err e ↦ (f, b ∷ bs, err e)
    | ok (f', b', loc) ↦
        let (f'', done, r) = allocate_batch f' bs (insert b.block_id loc results) in
        (f'', b' ∷ done, r)
  ]
