-- ===== src/Cache/Numbered.antt =====
-- person1_kv_engine/cache_manager: the blocks that the three loops of `initialize_context` add, with
-- their identifiers.
use mathlib.Core.Path.{subst}
use ai_ssd.Prelude.{
  ℕ, zero, suc, ◌+◌, ◌-◌, ◌*◌, ◌/◌, ◌≤◌, ◌<◌, ◌≡◌, refl, ap, ◌∙◌, Bool, false, Option, none, some,
  [], ◌∷◌, arith, ◌==◌, length, length-append, min,
}
use ai_ssd.Prelude.Dict.{nat_key, lookup, lookup-insert, lookup-insert_self}
use ai_ssd.Schema.Block.{create_default, StorageTier}
use ai_ssd.Prefetch.Ordered.{insert-absent}
use ai_ssd.Cache.Blocks.{BlockObject, BlockManager, allocate_block, count_or_default}
use ai_ssd.Cache.Paged.{fill_head, fill_heads, fill_layers}

-- The manager's identifiers are those below the next one.
unfoldable pub IsNumbered : BlockManager → Type 0
IsNumbered m =
    (length m.blocks ≡ m.next_block_id) × ((i : ℕ) → m.next_block_id ≤ i → lookup i m.blocks ≡ none)

-- more blocks, under the next identifiers; the old ones stay
abbrev pub Grows : BlockManager → BlockManager → ℕ → Type 0
Grows m n count =
    IsNumbered n
    × (n.next_block_id ≡ m.next_block_id + count)
    × ((i : ℕ) → i < m.next_block_id → lookup i n.blocks ≡ lookup i m.blocks)

-- the block of an identifier holds the tokens from `start` on of a layer and head
abbrev pub Covers :
    (block_tokens context_length : ℕ) → BlockManager → (id layer head start : ℕ) → Type 0
Covers block_tokens context_length m id layer head start =
    (b : BlockObject) × (lookup id m.blocks ≡ some b)
    × (b.descriptor.block_id ≡ id)
    × (b.descriptor.layer_id ≡ layer)
    × (b.descriptor.kv_head_start ≡ head)
    × (b.descriptor.token_start ≡ start)
    × (start < context_length
        → b.descriptor.token_count ≡ min block_tokens (context_length - start))

Covers-kept :
    (block_tokens context_length : ℕ) (m n : BlockManager) (id layer head start : ℕ)
    → lookup id n.blocks ≡ lookup id m.blocks
    → Covers block_tokens context_length m id layer head start
    → Covers block_tokens context_length n id layer head start
Covers-kept bt ctx m n id layer head start same (b, there, i, l, h, s, c) =
    (b, same ∙ there, i, l, h, s, c)

allocate_block-Grows :
    (m : BlockManager) (layer_id token_start : ℕ) (count : Option ℕ) (head heads : ℕ)
    (tier : StorageTier) (attach : Bool)
    → IsNumbered m
    → Grows m (allocate_block m layer_id token_start count head heads tier attach).0 1
unfolding IsNumbered allocate_block
allocate_block-Grows m layer_id token_start count head heads tier attach h =
    let b = (allocate_block m layer_id token_start count head heads tier attach).1 in
    let new = insert-absent m.next_block_id b m.blocks (h.1 m.next_block_id (omega arith)) in
    (
      (
        ap length new ∙ omega (arith, h.0, length-append m.blocks ((m.next_block_id, b) ∷ [])),
        (λ i le. ground (arith, lookup-insert m.next_block_id i b m.blocks, h.1 i)),
      ),
      refl,
      λ i below. ground (arith, lookup-insert m.next_block_id i b m.blocks),
    )

Grows-trans :
    (m n o : BlockManager) (a b c : ℕ) → a + b ≡ c → Grows m n a → Grows n o b → Grows m o c
Grows-trans m n o a b c sum one two = (
  two.0,
  omega (arith, sum, one.1, two.1),
  λ i below. two.2 i (omega (arith, one.1, below)) ∙ one.2 i below,
)

module _ (layer_id block_tokens context_length : ℕ) (attach : Bool) (pos : 0 < block_tokens) where
  -- a round of the innermost loop
  abbrev one_more : BlockManager → (head_id b_idx : ℕ) → BlockManager
  one_more m head_id b_idx =
      (allocate_block m layer_id (b_idx * block_tokens)
        (some (min block_tokens (context_length - b_idx * block_tokens))) head_id 1 StorageTier.gpu
        attach).0

  one_more-Covers :
      (m : BlockManager) (head_id b_idx : ℕ)
      → Covers block_tokens context_length
          (one_more m head_id b_idx)
          m.next_block_id
          layer_id
          head_id
          (b_idx * block_tokens)
  unfolding allocate_block count_or_default create_default
  one_more-Covers m head_id b_idx =
      (_, lookup-insert_self m.next_block_id _ m.blocks, refl, refl, refl, refl, counted)
    where
      counted :
          b_idx * block_tokens < context_length
          → count_or_default
              (some (min block_tokens (context_length - b_idx * block_tokens)))
              m.block_tokens
            ≡ min block_tokens (context_length - b_idx * block_tokens)
      counted started =
          let some_tokens : (min block_tokens (context_length - b_idx * block_tokens) == 0)
              ≡ false =
            ground arith in
          rw (count_or_default, some_tokens) refl

  fill_head-Grows :
      (m : BlockManager) (head_id b_idx rounds : ℕ)
      → IsNumbered m
      → Grows m
          (fill_head m layer_id head_id block_tokens context_length attach b_idx rounds)
          rounds
  unfolding fill_head
  fill_head-Grows m head_id b_idx zero h = (h, omega arith, λ i below. refl)
  fill_head-Grows m head_id b_idx (suc rounds) h =
      let one =
        allocate_block-Grows m layer_id (b_idx * block_tokens)
          (some (min block_tokens (context_length - b_idx * block_tokens))) head_id 1
          StorageTier.gpu attach h in
      Grows-trans m (one_more m head_id b_idx) _ 1 rounds _ (omega arith) one
        (fill_head-Grows (one_more m head_id b_idx) head_id (b_idx + 1) rounds one.0)

  fill_head-Covers :
      (m : BlockManager) (head_id b_idx rounds i : ℕ)
      → IsNumbered m
      → i < rounds
      → Covers block_tokens context_length
          (fill_head m layer_id head_id block_tokens context_length attach b_idx rounds)
          (m.next_block_id + i)
          layer_id
          head_id
          ((b_idx + i) * block_tokens)
  unfolding fill_head allocate_block
  fill_head-Covers m head_id b_idx zero i h below = absurd (omega arith)
  fill_head-Covers m head_id b_idx (suc rounds) zero h below =
      let next = one_more m head_id b_idx in
      let all : BlockManager =
        fill_head next layer_id head_id block_tokens context_length attach (b_idx + 1) rounds in
      let one =
        allocate_block-Grows m layer_id (b_idx * block_tokens)
          (some (min block_tokens (context_length - b_idx * block_tokens))) head_id 1
          StorageTier.gpu attach h in
      let rest = fill_head-Grows next head_id (b_idx + 1) rounds one.0 in
      let here =
        Covers-kept block_tokens context_length next all m.next_block_id layer_id head_id
          (b_idx * block_tokens) (rest.2 m.next_block_id (omega (arith, one.1)))
          (one_more-Covers m head_id b_idx) in
      let id : m.next_block_id ≡ m.next_block_id + 0 = omega arith in
      let at : b_idx ≡ b_idx + 0 = omega arith in
      subst
        (λ (x : ℕ × ℕ).
          Covers block_tokens context_length all x.0 layer_id head_id (x.1 * block_tokens))
        (λ j. (id j, at j)) here
  fill_head-Covers m head_id b_idx (suc rounds) (suc i) h below =
      let next = one_more m head_id b_idx in
      let all : BlockManager =
        fill_head next layer_id head_id block_tokens context_length attach (b_idx + 1) rounds in
      let one =
        allocate_block-Grows m layer_id (b_idx * block_tokens)
          (some (min block_tokens (context_length - b_idx * block_tokens))) head_id 1
          StorageTier.gpu attach h in
      let there = fill_head-Covers next head_id (b_idx + 1) rounds i one.0 (omega arith) in
      let id : next.next_block_id + i ≡ m.next_block_id + suc i = omega (arith, one.1) in
      let at : b_idx + 1 + i ≡ b_idx + suc i = omega arith in
      subst
        (λ (x : ℕ × ℕ).
          Covers block_tokens context_length all x.0 layer_id head_id (x.1 * block_tokens))
        (λ j. (id j, at j)) there

module _ (block_tokens context_length : ℕ) (attach : Bool) (pos : 0 < block_tokens) where
  -- how many blocks of tokens there are
  abbrev rows : ℕ
  rows = (context_length + block_tokens - 1) / block_tokens

  abbrev of_head : BlockManager → (layer_id head_id : ℕ) → BlockManager
  of_head m layer_id head_id =
      fill_head m layer_id head_id block_tokens context_length attach 0 rows

  fill_heads-Grows :
      (m : BlockManager) (layer_id head_id rounds : ℕ)
      → IsNumbered m
      → Grows m
          (fill_heads m layer_id block_tokens context_length attach head_id rounds)
          (rounds * rows)
  unfolding fill_heads
  fill_heads-Grows m layer_id head_id zero h = (h, omega arith, λ i below. refl)
  fill_heads-Grows m layer_id head_id (suc rounds) h =
      let one =
        fill_head-Grows layer_id block_tokens context_length attach pos m head_id 0 rows h in
      Grows-trans m (of_head m layer_id head_id) _ rows (rounds * rows) _ (omega arith) one
        (fill_heads-Grows (of_head m layer_id head_id) layer_id (head_id + 1) rounds one.0)

  fill_heads-Covers :
      (m : BlockManager) (layer_id head_id rounds k i : ℕ)
      → IsNumbered m
      → k < rounds
      → i < rows
      → Covers block_tokens context_length
          (fill_heads m layer_id block_tokens context_length attach head_id rounds)
          (m.next_block_id + (k * rows + i))
          layer_id
          (head_id + k)
          (i * block_tokens)
  unfolding fill_heads
  fill_heads-Covers m layer_id head_id zero k i h below within = absurd (omega (arith, below))
  fill_heads-Covers m layer_id head_id (suc rounds) zero i h below within =
      let next = of_head m layer_id head_id in
      let all : BlockManager =
        fill_heads next layer_id block_tokens context_length attach (head_id + 1) rounds in
      let one =
        fill_head-Grows layer_id block_tokens context_length attach pos m head_id 0 rows h in
      let rest = fill_heads-Grows next layer_id (head_id + 1) rounds one.0 in
      let here =
        Covers-kept block_tokens context_length next all (m.next_block_id + i) layer_id head_id
          ((0 + i) * block_tokens) (rest.2 (m.next_block_id + i) (omega (arith, one.1, within)))
          (fill_head-Covers layer_id block_tokens context_length attach pos m head_id 0 rows i h
            within) in
      let id : m.next_block_id + i ≡ m.next_block_id + (0 * rows + i) = omega arith in
      let head : head_id ≡ head_id + 0 = omega arith in
      let at : 0 + i ≡ i = omega arith in
      subst
        (λ (x : ℕ × ℕ × ℕ).
          Covers block_tokens context_length all x.0 layer_id x.1 (x.2 * block_tokens))
        (λ j. (id j, head j, at j)) here
  fill_heads-Covers m layer_id head_id (suc rounds) (suc k) i h below within =
      let next = of_head m layer_id head_id in
      let all : BlockManager =
        fill_heads next layer_id block_tokens context_length attach (head_id + 1) rounds in
      let one =
        fill_head-Grows layer_id block_tokens context_length attach pos m head_id 0 rows h in
      let there =
        fill_heads-Covers next layer_id (head_id + 1) rounds k i one.0 (omega (arith, below))
          within in
      let id : next.next_block_id + (k * rows + i) ≡ m.next_block_id + (suc k * rows + i) =
        omega (arith, one.1) in
      let head : head_id + 1 + k ≡ head_id + suc k = omega arith in
      subst
        (λ (x : ℕ × ℕ). Covers block_tokens context_length all x.0 layer_id x.1 (i * block_tokens))
        (λ j. (id j, head j)) there

  module _ (heads : ℕ) where
    abbrev of_layer : BlockManager → ℕ → BlockManager
    of_layer m layer_id = fill_heads m layer_id block_tokens context_length attach 0 heads

    pub fill_layers-Grows :
        (m : BlockManager) (layer_id rounds : ℕ)
        → IsNumbered m
        → Grows m
            (fill_layers m heads block_tokens context_length attach layer_id rounds)
            (rounds * (heads * rows))
    unfolding fill_layers
    fill_layers-Grows m layer_id zero h = (h, omega arith, λ i below. refl)
    fill_layers-Grows m layer_id (suc rounds) h =
        let one = fill_heads-Grows m layer_id 0 heads h in
        Grows-trans m (of_layer m layer_id) _ (heads * rows) (rounds * (heads * rows)) _
          (omega arith) one (fill_layers-Grows (of_layer m layer_id) (layer_id + 1) rounds one.0)

    pub fill_layers-Covers :
        (m : BlockManager) (layer_id rounds l k i : ℕ)
        → IsNumbered m
        → l < rounds
        → k < heads
        → i < rows
        → k * rows + i < heads * rows
        → Covers block_tokens context_length
            (fill_layers m heads block_tokens context_length attach layer_id rounds)
            (m.next_block_id + (l * (heads * rows) + (k * rows + i)))
            (layer_id + l)
            k
            (i * block_tokens)
    unfolding fill_layers
    fill_layers-Covers m layer_id zero l k i h below head_below within inside =
        absurd (omega (arith, below))
    fill_layers-Covers m layer_id (suc rounds) zero k i h below head_below within inside =
        let next = of_layer m layer_id in
        let all : BlockManager =
          fill_layers next heads block_tokens context_length attach (layer_id + 1) rounds in
        let one = fill_heads-Grows m layer_id 0 heads h in
        let rest = fill_layers-Grows next (layer_id + 1) rounds one.0 in
        let here =
          Covers-kept block_tokens context_length next all (m.next_block_id + (k * rows + i))
            layer_id (0 + k) (i * block_tokens)
            (rest.2 (m.next_block_id + (k * rows + i)) (omega (arith, one.1, inside)))
            (fill_heads-Covers m layer_id 0 heads k i h head_below within) in
        let id : m.next_block_id + (k * rows + i)
            ≡ m.next_block_id + (0 * (heads * rows) + (k * rows + i)) =
          omega arith in
        let layer : layer_id ≡ layer_id + 0 = omega arith in
        let head : 0 + k ≡ k = omega arith in
        subst
          (λ (x : ℕ × ℕ × ℕ). Covers block_tokens context_length all x.0 x.1 x.2 (i * block_tokens))
          (λ j. (id j, layer j, head j)) here
    fill_layers-Covers m layer_id (suc rounds) (suc l) k i h below head_below within inside =
        let next = of_layer m layer_id in
        let all : BlockManager =
          fill_layers next heads block_tokens context_length attach (layer_id + 1) rounds in
        let one = fill_heads-Grows m layer_id 0 heads h in
        let there =
          fill_layers-Covers next (layer_id + 1) rounds l k i one.0 (omega (arith, below))
            head_below within inside in
        let id : next.next_block_id + (l * (heads * rows) + (k * rows + i))
            ≡ m.next_block_id + (suc l * (heads * rows) + (k * rows + i)) =
          omega (arith, one.1) in
        let layer : layer_id + 1 + l ≡ layer_id + suc l = omega arith in
        subst (λ (x : ℕ × ℕ). Covers block_tokens context_length all x.0 x.1 k (i * block_tokens))
          (λ j. (id j, layer j)) there
