-- ===== src/Mapper/Coordinates.antt =====
-- person2_ssd/kv_allocator/tensor_mapping.py: tensor coordinates and logical addresses.
use ai_ssd.Prelude.{ℕ, ◌*◌, ◌/◌, ◌%◌, max, Option, none, some, ltb, if◌then◌else◌}

pub record TensorCoordinate : Type 0 where
  pub layer_id : ℕ
  pub head_id : ℕ
  pub token_idx : ℕ
  pub tokens_per_block : ℕ
  pub block_id : Option ℕ
  pub blocks_per_head : ℕ

-- a coordinate with the defaults of the fields that a caller leaves out
abbrev pub coordinate :
    (layer_id head_id token_idx tokens_per_block block_id : ℕ) → TensorCoordinate
coordinate layer_id head_id token_idx tokens_per_block block_id = record {
  layer_id = layer_id;
  head_id = head_id;
  token_idx = token_idx;
  tokens_per_block = tokens_per_block;
  block_id = some block_id;
  blocks_per_head = 44;
}

-- without a token index: the block identifier within its head, if there is one
abbrev pub block_within_head : Option ℕ → ℕ → ℕ → ℕ
block_within_head none blocks_per_head otherwise = otherwise
block_within_head (some b) blocks_per_head otherwise =
    if ltb 0 blocks_per_head then b % blocks_per_head else otherwise

unfoldable pub token_block_idx : TensorCoordinate → ℕ
token_block_idx c =
    if ltb 0 c.token_idx
    then c.token_idx / max 1 c.tokens_per_block
    else block_within_head c.block_id c.blocks_per_head (c.token_idx / max 1 c.tokens_per_block)

-- the `mode` texts; any other is refused
pub data MappingMode : Type 0 where
  conventional tensor_aware unknown : MappingMode

pub record LbaAddress : Type 0 where
  pub lba : ℕ
  pub sector_size_bytes : ℕ
  pub mode : MappingMode

unfoldable pub byte_offset : LbaAddress → ℕ
byte_offset a = a.lba * a.sector_size_bytes
