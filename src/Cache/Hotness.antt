-- ===== src/Cache/Hotness.antt =====
-- person1_kv_engine/cache_manager/hot_cold.py and eviction.py. The objects are reached by their
-- identifiers in the store `Heap`; the SSD that evicted blocks go to may change an object that it
-- is given, and is a parameter.
use ai_ssd.Prelude.{
  ℕ, ◌+◌, ◌-◌, ◌*◌, Bool, true, false, ◌||◌, Option, none, some, List, [], ◌∷◌, ltb, if◌then◌else◌,
  max,
}
use ai_ssd.Prelude.Dict.{Dict, nat_key, lookup, insert}
use ai_ssd.Schema.Block.{KvBlock, StorageTier, is_ssd, Fraction}
use ai_ssd.Cache.Blocks.{BlockObject}

abbrev pub Heap : Type 0
Heap = Dict ℕ BlockObject

pub record HotColdClassifier : Type 0 where
  pub sink_tokens : ℕ
  pub recent_tokens : ℕ

unfoldable pub classify_block : HotColdClassifier → KvBlock → ℕ → Bool
classify_block c block total_context_tokens =
    ltb block.token_start c.sink_tokens
    || ltb (total_context_tokens - c.recent_tokens) (block.token_start + block.token_count)

-- `max(0.1, 1.0 - (total - start) / float(max(1, total)))`, where `start` is at most `total`
unfoldable pub cold_hotness : ℕ → ℕ → Fraction
cold_hotness total start =
    let den = max 1 total in
    let num = den - (total - start) in
    if ltb (10 * num) den then record { num = 1; den = 10 } else record { num = num; den = den }

abbrev pub with_hotness : BlockObject → Fraction → BlockObject
with_hotness b hotness = record b { descriptor = record b.descriptor { hotness = hotness } }

-- The hot and the cold identifiers in order; each object gets its hotness.
unfoldable pub partition_blocks : HotColdClassifier → Heap → List ℕ → ℕ → Heap × List ℕ × List ℕ
unfolding classify_block cold_hotness
partition_blocks c heap [] total = (heap, [], [])
partition_blocks c heap (i ∷ ids) total = elim (lookup i heap) [
  | none ↦ partition_blocks c heap ids total
  | some b ↦ elim (classify_block c b.descriptor total) [
    | true ↦
        let (after, hot, cold) =
          partition_blocks c (insert i (with_hotness b (record { num = 1; den = 1 })) heap) ids
            total in
        (after, i ∷ hot, cold)
    | false ↦
        let (after, hot, cold) =
          partition_blocks c
            (insert i (with_hotness b (cold_hotness total b.descriptor.token_start)) heap) ids
            total in
        (after, hot, i ∷ cold)
  ]
]

-- the end of an eviction: the object is on the SSD and its arrays are freed
abbrev pub evicted : BlockObject → BlockObject
evicted b = record {
  descriptor = record b.descriptor { storage_tier = StorageTier.ssd };
  k_data = none;
  v_data = none;
}

abbrev pub free_tensors : Heap → ℕ → Option BlockObject → Heap
free_tensors heap i none = heap
free_tensors heap i (some b) = insert i (evicted b) heap

module _ {S : Type 0} (store_block : S → Heap → ℕ → S × Heap) where
  -- the state of the SSD, the objects, and the evicted identifiers
  unfoldable pub evict_to_ssd : S → Heap → List ℕ → S × Heap × List ℕ
  evict_to_ssd s heap [] = (s, heap, [])
  evict_to_ssd s heap (i ∷ ids) = elim (lookup i heap) [
    | none ↦ evict_to_ssd s heap ids
    | some b ↦ elim (is_ssd b.descriptor.storage_tier) [
      | true ↦ evict_to_ssd s heap ids
      | false ↦
          let stored = store_block s heap i in
          let (t, after, gone) =
            evict_to_ssd stored.0 (free_tensors stored.1 i (lookup i stored.1)) ids in
          (t, after, i ∷ gone)
    ]
  ]
