-- ===== src/Cache/Blocks.antt =====
-- person1_kv_engine/cache_manager/block_manager.py, `BlockManager`. Its dict is also the store of
-- the block objects: others refer to an object by its block's identifier. The arrays that it
-- attaches hold zeros, so an array is its shape.
use ai_ssd.Prelude.{ℕ, ◌+◌, Bool, Option, none, some, [], ◌==◌, if◌then◌else◌, length}
use ai_ssd.Prelude.Dict.{Dict, nat_key, lookup, insert}
use ai_ssd.Location.Text.{Text}
use ai_ssd.Schema.Block.{KvBlock, StorageTier, create_default}

pub record Shape : Type 0 where
  pub tokens : ℕ
  pub heads : ℕ
  pub dim : ℕ

pub record BlockObject : Type 0 where
  pub descriptor : KvBlock
  pub k_data : Option Shape
  pub v_data : Option Shape

pub record BlockManager : Type 0 where
  pub block_tokens : ℕ
  pub head_dim : ℕ
  pub dtype : Text
  pub next_block_id : ℕ
  pub blocks : Dict ℕ BlockObject

abbrev pub new_block_manager : ℕ → ℕ → Text → BlockManager
new_block_manager block_tokens head_dim dtype = record {
  block_tokens = block_tokens;
  head_dim = head_dim;
  dtype = dtype;
  next_block_id = 0;
  blocks = [];
}

-- `token_count or self.block_tokens`: zero tokens count as none given
unfoldable pub count_or_default : Option ℕ → ℕ → ℕ
count_or_default none block_tokens = block_tokens
count_or_default (some n) block_tokens = if n == 0 then block_tokens else n

unfoldable pub allocate_block :
    BlockManager
    → (layer_id token_start : ℕ) → (token_count : Option ℕ) → (kv_head_start kv_head_count : ℕ)
    → (tier : StorageTier) → (attach_tensors : Bool) → BlockManager × BlockObject
unfolding count_or_default
allocate_block m layer_id token_start token_count kv_head_start kv_head_count tier attach_tensors =
    let cnt = count_or_default token_count m.block_tokens in
    let tensor : Option Shape =
      if attach_tensors
      then some (record { tokens = cnt; heads = kv_head_count; dim = m.head_dim })
      else none in
    let block : BlockObject = record {
      descriptor =
          create_default m.next_block_id layer_id token_start cnt kv_head_start kv_head_count
            m.head_dim m.dtype tier (record { num = 1; den = 1 });
      k_data = tensor;
      v_data = tensor;
    } in
    (
      record m {
        next_block_id = m.next_block_id + 1;
        blocks = insert m.next_block_id block m.blocks;
      },
      block,
    )

unfoldable pub get_block : BlockManager → ℕ → Option BlockObject
get_block m block_id = lookup block_id m.blocks

unfoldable pub total_blocks : BlockManager → ℕ
total_blocks m = length m.blocks

unfoldable pub clear : BlockManager → BlockManager
clear m = record m { blocks = []; next_block_id = 0 }
