-- ===== src/Cache/Offload.antt =====
-- The paged KV cache and the in-memory SSD (person1_kv_engine/cache_manager and mock_ssd.py).
use mathlib.Core.Path.{subst}
use ai_ssd.Prelude.{
  ℕ, zero, suc, ◌+◌, ◌-◌, ◌*◌, ◌/◌, ◌<◌, ◌≡◌, refl, ◌∙◌, Bool, false, none, some, [], ◌∷◌, arith,
  ◌==◌, length, ok,
}
use ai_ssd.Prelude.Dict.{nat_key, lookup, insert, lookup-insert}
use ai_ssd.Schema.Block.{StorageTier, is_ssd, total_size_bytes}
use ai_ssd.Cache.Blocks.{BlockObject, total_blocks}
use ai_ssd.Cache.Hotness.{Heap, evicted, evict_to_ssd}
use ai_ssd.Cache.MockSsd.{MockSsd, store_block, load_block, placed, write_time_ns}
use ai_ssd.Cache.Paged.{PagedKvCache, fill_layers, initialize_context}
use ai_ssd.Cache.Numbered.{IsNumbered, Covers, fill_layers-Grows, fill_layers-Covers}

module _ {S : Type 0} (store_block : S → Heap → ℕ → S × Heap) where
  -- `k` blocks are added for a manager's layers and heads, each under its own identifier
  abbrev pub Fills : PagedKvCache S → ℕ → Bool → Type 0
  Fills c context_length attach =
      let n = (context_length + c.block_tokens - 1) / c.block_tokens in
      let next = c.block_manager.next_block_id in
      (d : PagedKvCache S) × (initialize_context store_block c context_length attach
        ≡ ok (d, next + c.layers * (c.heads * n)))
      × IsNumbered d.block_manager
      × ((i : ℕ) → i < next → lookup i d.block_manager.blocks ≡ lookup i c.block_manager.blocks)
      × ((l k i : ℕ)
          → l < c.layers
          → k < c.heads
          → i < n
          → Covers c.block_tokens context_length d.block_manager
              (next + (l * (c.heads * n) + (k * n + i))) l k (i * c.block_tokens))

  row-lt : (k heads n i : ℕ) → k < heads → i < n → k * n + i < heads * n
  row-lt k zero n i below within = absurd (omega (arith, below))
  row-lt zero (suc heads) n i below within = omega (arith, within)
  row-lt (suc k) (suc heads) n i below within =
      omega (arith, row-lt k heads n i (omega (arith, below)) within)

  -- With a block size above zero, on a manager that has given out the identifiers below its next
  -- one, `initialize_context` does not raise. For every layer, head and started run of tokens
  -- there is then one new block, under the next identifier in the order of the three loops, whose
  -- descriptor has that layer, head and first token, and as many tokens as are left, a full block
  -- at most; the old blocks stay, and it returns how many blocks there are.
  pub initialize_context_count :
      (c : PagedKvCache S) (context_length : ℕ) (attach : Bool)
      → 0 < c.block_tokens
      → IsNumbered c.block_manager
      → Fills c context_length attach
  unfolding initialize_context total_blocks IsNumbered
  initialize_context_count c context_length attach pos h =
      let grown =
        fill_layers-Grows c.block_tokens context_length attach pos c.heads c.block_manager 0
          c.layers h in
      let m = fill_layers c.block_manager c.heads c.block_tokens context_length attach 0 c.layers in
      let n = (context_length + c.block_tokens - 1) / c.block_tokens in
      let size : length m.blocks ≡ c.block_manager.next_block_id + c.layers * (c.heads * n) =
        grown.0.0 ∙ grown.1 in
      let test : (c.block_tokens == 0) ≡ false = ground arith in
      (
        record c { block_manager = m },
        rw (test, size, initialize_context) refl,
        grown.0,
        grown.2,
        λ l k i layer head row.
            let from_zero : 0 + l ≡ l = omega arith in
            subst
              (λ x.
                Covers c.block_tokens context_length m
                  (c.block_manager.next_block_id + (l * (c.heads * n) + (k * n + i))) x k
                  (i * c.block_tokens))
              from_zero
              (fill_layers-Covers c.block_tokens context_length attach pos c.heads c.block_manager 0
                c.layers l k i h layer head row (row-lt k c.heads n i head row)),
      )

abbrev stored_state : MockSsd → ℕ → BlockObject → MockSsd
stored_state s i b =
    let bytes = total_size_bytes b.descriptor in
    record s {
      storage = insert b.descriptor.block_id i s.storage;
      write_count = s.write_count + 1;
      host_to_device_bytes = s.host_to_device_bytes + bytes;
      flash_write_bytes = s.flash_write_bytes + bytes;
      simulated_time_ns = s.simulated_time_ns + write_time_ns;
    }

store_one :
    (s : MockSsd) (heap : Heap) (i : ℕ) (b : BlockObject)
    → lookup i heap ≡ some b
    → store_block s heap i ≡ (stored_state s i b, insert i (placed b) heap)
unfolding store_block
store_one s heap i b found = rw (found, store_block) refl

-- the state of the SSD and the objects after a block that is not on it was evicted to it
evict_one :
    (s : MockSsd) (heap : Heap) (i : ℕ) (b : BlockObject)
    → lookup i heap ≡ some b
    → is_ssd b.descriptor.storage_tier ≡ false
    → evict_to_ssd store_block s heap (i ∷ [])
      ≡ (stored_state s i b, insert i (evicted (placed b)) (insert i (placed b) heap), i ∷ [])
unfolding evict_to_ssd
evict_one s heap i b found fast =
    let again : lookup i (insert i (placed b) heap) ≡ some (placed b) =
      ground (arith, lookup-insert i i (placed b) heap) in
    rw (found, fast, store_one s heap i b found, again, evict_to_ssd) refl

abbrev pub LosesTensors : MockSsd → Heap → ℕ → Type 0
LosesTensors s heap i =
    let out = evict_to_ssd store_block s heap (i ∷ []) in
    (out.2 ≡ i ∷ [])
    × (loaded : BlockObject) × ((load_block out.0 out.1 i).1 ≡ some loaded)
    × (loaded.k_data ≡ none)
    × (loaded.v_data ≡ none)

-- An eviction to the in-memory SSD keeps no tensor: the SSD holds the object whose tensors the
-- eviction frees. A block that stands under its identifier and was not on the SSD is evicted and loads without keys and values.
pub evict_to_ssd_loses :
    (s : MockSsd) (heap : Heap) (i : ℕ) (b : BlockObject)
    → lookup i heap ≡ some b
    → b.descriptor.block_id ≡ i
    → is_ssd b.descriptor.storage_tier ≡ false
    → LosesTensors s heap i
unfolding load_block
evict_to_ssd_loses s heap i b found named fast =
    let held : lookup i (insert i (evicted (placed b)) (insert i (placed b) heap))
        ≡ some (evicted (placed b)) =
      ground (arith, lookup-insert i i (evicted (placed b)) (insert i (placed b) heap)) in
    let indexed : lookup i (insert b.descriptor.block_id i s.storage) ≡ some i =
      ground (arith, lookup-insert b.descriptor.block_id i i s.storage) in
    rw (evict_one s heap i b found fast) (
      refl,
      record (evicted (placed b)) {
        descriptor = record (evicted (placed b)).descriptor { storage_tier = StorageTier.dram };
      },
      rw (indexed, held, load_block) refl,
      refl,
      refl,
    )
