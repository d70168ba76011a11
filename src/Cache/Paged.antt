-- ===== src/Cache/Paged.antt =====
-- person1_kv_engine/cache_manager/kv_cache.py, `PagedKVCache`, with an SSD that is a parameter.
use ai_ssd.Prelude.{
  ℕ, zero, suc, ◌+◌, ◌-◌, ◌*◌, ◌/◌, Bool, true, false, Option, none, some, List, [], ◌∷◌, ◌==◌,
  if◌then◌else◌, length, min, Result, ok, err, zero_division_error,
}
use ai_ssd.Schema.Block.{StorageTier, is_ssd, total_size_bytes}
use ai_ssd.Cache.Blocks.{BlockManager, allocate_block, total_blocks}
use ai_ssd.Cache.Hotness.{HotColdClassifier, Heap, partition_blocks, evict_to_ssd}

pub record PagedKvCache (S : Type 0) : Type 0 where
  pub layers : ℕ
  pub heads : ℕ
  pub block_tokens : ℕ
  pub block_manager : BlockManager
  pub classifier : HotColdClassifier
  pub ssd_backend : Option S

-- the innermost loop, from block `b_idx` on
unfoldable pub fill_head :
    BlockManager
    → (layer_id head_id block_tokens context_length : ℕ) → Bool
    → (b_idx rounds : ℕ) → BlockManager
fill_head m layer_id head_id block_tokens context_length attach b_idx zero = m
fill_head m layer_id head_id block_tokens context_length attach b_idx (suc rounds) =
    fill_head
      (allocate_block m layer_id (b_idx * block_tokens)
        (some (min block_tokens (context_length - b_idx * block_tokens))) head_id 1 StorageTier.gpu
        attach).0
      layer_id head_id block_tokens context_length attach (b_idx + 1) rounds

unfoldable pub fill_heads :
    BlockManager
    → (layer_id block_tokens context_length : ℕ) → Bool
    → (head_id rounds : ℕ) → BlockManager
unfolding fill_head
fill_heads m layer_id block_tokens context_length attach head_id zero = m
fill_heads m layer_id block_tokens context_length attach head_id (suc rounds) =
    fill_heads
      (fill_head m layer_id head_id block_tokens context_length attach 0
        ((context_length + block_tokens - 1) / block_tokens))
      layer_id block_tokens context_length attach (head_id + 1) rounds

unfoldable pub fill_layers :
    BlockManager
    → (heads block_tokens context_length : ℕ) → Bool
    → (layer_id rounds : ℕ) → BlockManager
unfolding fill_heads
fill_layers m heads block_tokens context_length attach layer_id zero = m
fill_layers m heads block_tokens context_length attach layer_id (suc rounds) =
    fill_layers (fill_heads m layer_id block_tokens context_length attach 0 heads) heads
      block_tokens context_length attach (layer_id + 1) rounds

abbrev pub keys : Heap → List ℕ
keys [] = []
keys ((i, b) ∷ d) = i ∷ keys d

-- bytes of the blocks whose test on the tier is `on_ssd`
abbrev pub tier_bytes : Bool → Heap → ℕ
tier_bytes on_ssd [] = 0
tier_bytes on_ssd ((i, b) ∷ d) =
    let rest = tier_bytes on_ssd d in
    elim (is_ssd b.descriptor.storage_tier) [
      | true ↦ if on_ssd then total_size_bytes b.descriptor + rest else rest
      | false ↦ if on_ssd then rest else total_size_bytes b.descriptor + rest
    ]

module _ {S : Type 0} (store_block : S → Heap → ℕ → S × Heap) where
  unfoldable pub initialize_context : PagedKvCache S → ℕ → Bool → Result (PagedKvCache S × ℕ)
  unfolding fill_layers
  initialize_context c context_length attach =
      if c.block_tokens == 0
      then err zero_division_error
      else (let m =
            fill_layers c.block_manager c.heads c.block_tokens context_length attach 0 c.layers in
          ok (record c { block_manager = m }, total_blocks m))

  unfoldable pub run_offload_pass : PagedKvCache S → ℕ → PagedKvCache S × (ℕ × ℕ)
  run_offload_pass c context_length =
      let m = c.block_manager in
      let (heap, hot, cold) =
        partition_blocks c.classifier m.blocks (keys m.blocks) context_length in
      elim c.ssd_backend [
        | none ↦
            (record c { block_manager = record m { blocks = heap } }, (length hot, length cold))
        | some s ↦
            let (t, after, gone) = evict_to_ssd store_block s heap cold in
            (
              record c { block_manager = record m { blocks = after }; ssd_backend = some t },
              (length hot, length cold),
            )
      ]

unfoldable pub get_host_memory_bytes : {S : Type 0} → PagedKvCache S → ℕ
get_host_memory_bytes c = tier_bytes false c.block_manager.blocks

unfoldable pub get_offloaded_memory_bytes : {S : Type 0} → PagedKvCache S → ℕ
get_offloaded_memory_bytes c = tier_bytes true c.block_manager.blocks
