-- ===== src/Tiering/Windows.antt =====
-- What the tiers keep in RAM and how a prefill is cut (person1_kv_engine/tiering).
use ai_ssd.Prelude.{
  ℕ, zero, suc, ◌+◌, ◌-◌, ◌*◌, ◌/◌, ◌≤◌, ◌<◌, ◌≡◌, sym, ap, ◌∙◌, ◌⊎◌, inl, inr, false, Option, none,
  some, List, [], ◌∷◌, ◌++◌, ltb, arith, length, min, take, drop, drop-drop, take-split, take_past,
  length-drop,
}
use native.Mathlib.Nat.{div-add-mod', mod-lt}
use ai_ssd.Tiering.Pool.{KvBlock, allocate_block}
use ai_ssd.Tiering.Policy.{TieringPolicy, is_hot}
use ai_ssd.Tiering.Manager.{StorageApi, TieredKvManager, chunk, slice}

-- A block that is not hot holds only tokens behind the sink and in front of the sliding window.
pub is_hot_covers :
    (Row : Type 0) (policy : TieringPolicy) (b : KvBlock Row) (total token : ℕ)
    → is_hot Row policy b total ≡ false
    → b.token_start ≤ token
    → token < b.token_start + b.token_count
    → (policy.sink_tokens ≤ token) × (token + policy.sliding_window_tokens < total)
unfolding is_hot
is_hot_covers Row policy b total token cold from to = (ground arith, ground arith)

le_total : (a b : ℕ) → (a ≤ b) ⊎ (b ≤ a)
le_total a b = ground arith

module _ {Row : Type 0} where
  abbrev rows_or_none : Option (List Row) → List Row
  rows_or_none none = []
  rows_or_none (some rows) = rows

  -- the cut at the end of the sequence changes no chunk
  chunk_lem :
      (rows : List Row) (start size : ℕ)
      → take (min (start + size) (length rows) - start) (drop start rows)
        ≡ take size (drop start rows)
  chunk_lem rows start size = elim (le_total (start + size) (length rows)) [
    | inl within ↦ ap (λ n. take n (drop start rows)) (omega arith)
    | inr past ↦
        take_past (min (start + size) (length rows) - start) (drop start rows)
          (omega (arith, length-drop start rows))
        ∙ sym (take_past size (drop start rows) (omega (arith, length-drop start rows)))
  ]

  -- the rows that the blocks of a layer have in RAM, one block after the other
  unfoldable pub rows_of : (KvBlock Row → Option (List Row)) → List (KvBlock Row) → List Row
  rows_of field [] = []
  rows_of field (b ∷ bs) = rows_or_none (field b) ++ rows_of field bs

module _ (Row S : Type 0) (api : StorageApi Row S) where
  slice_rows :
      (m : TieredKvManager Row S api) (layer_id : ℕ) (ks vs : List Row) (b_idx rounds : ℕ)
      → rows_of (λ b. b.k_data) (slice Row S api m layer_id ks vs b_idx rounds).1
        ≡ take (rounds * m.policy.tokens_per_block) (drop (b_idx * m.policy.tokens_per_block) ks)
  unfolding slice rows_of allocate_block chunk
  slice_rows m layer_id ks vs b_idx zero =
      let none_left : 0 ≡ 0 * m.policy.tokens_per_block = omega arith in
      ap (λ n. take n (drop (b_idx * m.policy.tokens_per_block) ks)) none_left
  slice_rows m layer_id ks vs b_idx (suc rounds) =
      let size = m.policy.tokens_per_block in
      let start = b_idx * size in
      let t_end = min (start + size) (length ks) in
      let one =
        allocate_block Row m.block_pool layer_id start (t_end - start)
          (some (chunk Row S api ks start t_end)) (some (chunk Row S api vs start t_end))
          (ltb start m.policy.sink_tokens) in
      let rest = slice_rows (record m { block_pool = one.0 }) layer_id ks vs (b_idx + 1) rounds in
      let next : (b_idx + 1) * size ≡ start + size = omega arith in
      let sum : size + rounds * size ≡ suc rounds * size = omega arith in
      let tail : drop ((b_idx + 1) * size) ks ≡ drop size (drop start ks) =
        ap (λ n. drop n ks) next ∙ sym (drop-drop size start ks) in
      ap
        (λ ys.
          ys
          ++ rows_of (λ b. b.k_data)
              (slice Row S api (record m { block_pool = one.0 }) layer_id ks vs (b_idx + 1)
                rounds).1)
        (chunk_lem ks start size)
      ∙ ap (λ ys. take size (drop start ks) ++ ys) (rest ∙ ap (take (rounds * size)) tail)
      ∙ take-split size (rounds * size) (drop start ks)
      ∙ ap (λ n. take n (drop start ks)) sum

  -- With a block size above zero the blocks that a prefill cuts hold the keys of the sequence, in
  -- order, without a gap and to the end.
  pub rows_of-slice :
      (m : TieredKvManager Row S api) (layer_id : ℕ) (ks vs : List Row)
      → 0 < m.policy.tokens_per_block
      → rows_of
          (λ b. b.k_data)
          (slice Row S api m layer_id ks vs 0
            ((length ks + m.policy.tokens_per_block - 1) / m.policy.tokens_per_block)).1
        ≡ ks
  rows_of-slice m layer_id ks vs pos =
      let size = m.policy.tokens_per_block in
      let rounds = (length ks + size - 1) / size in
      let enough : length ks ≤ rounds * size =
        omega
          (arith, div-add-mod' (length ks + size - 1) size, mod-lt (length ks + size - 1) pos) in
      let front : 0 * size ≡ 0 = omega arith in
      slice_rows m layer_id ks vs 0 rounds
      ∙ ap (λ n. take (rounds * size) (drop n ks)) front
      ∙ take_past (rounds * size) ks enough
