-- ===== src/Mapper/Distinct.antt =====
-- Logical addresses (person2_ssd/kv_allocator/tensor_mapping.py): where they lie, and that blocks
-- do not share one.
use native.Mathlib.Nat.{mul-add-div_right, div-eq_of_lt, mod-lt, mod-eq_of_lt, mul-div-le, div-zero}
use ai_ssd.Prelude.{
  ℕ, zero, suc, ◌+◌, ◌*◌, ◌/◌, ◌%◌, ◌≤◌, ◌<◌, ◌≡◌, refl, sym, ap, ◌∙◌, false, ok, arith, ◌==◌,
}
use ai_ssd.Mapper.Coordinates.{
  TensorCoordinate, token_block_idx, LbaAddress, MappingMode, conventional, tensor_aware, unknown,
}
use ai_ssd.Mapper.Addressing.{
  DeterministicTensorMapper, raw_lba, target_channel, target_die, stripe_unit, striped_lba,
  tensor_to_lba, address,
}

-- the quotient and the rest of a sum in mixed radix
quotient_of : (x b n : ℕ) → b < n → (x * n + b) / n ≡ x
quotient_of x b n h =
    let pos : 0 < n = omega arith in
    let small : b / n ≡ 0 = div-eq_of_lt h in omega (arith, mul-add-div_right pos x b, small)

digits_unique : (x y b c n : ℕ) → b < n → c < n → x * n + b ≡ y * n + c → (x ≡ y) × (b ≡ c)
digits_unique x y b c n hb hc e =
    let same : x ≡ y =
      sym (quotient_of x b n hb) ∙ ap (λ (k : ℕ). k / n) e ∙ quotient_of y c n hc in
    let scaled : x * n ≡ y * n = ap (λ (k : ℕ). k * n) same in (same, omega (arith, e, scaled))

index-lt-mul : (x b m n : ℕ) → x < m → b < n → x * n + b < m * n
index-lt-mul x b m n hx hb = grind arith

-- how many blocks a mode can tell apart
unfoldable pub room : DeterministicTensorMapper → MappingMode → ℕ
room m conventional = m.total_device_blocks
room m tensor_aware = stripe_unit m
room m unknown = 0

-- a block of a head of the model, which the room of a mode has a place for
pub record Fits (m : DeterministicTensorMapper) (mode : MappingMode) (c : TensorCoordinate)
    : Type 0 where
  pub head : c.head_id < m.num_heads
  pub index : token_block_idx c < m.blocks_per_head
  pub inside : raw_lba m c.layer_id c.head_id (token_block_idx c) < room m mode

raw_lba-injective :
    (m : DeterministicTensorMapper) (mode : MappingMode) (c d : TensorCoordinate)
    → Fits m mode c
    → Fits m mode d
    → raw_lba m c.layer_id c.head_id (token_block_idx c)
      ≡ raw_lba m d.layer_id d.head_id (token_block_idx d)
    → (c.layer_id ≡ d.layer_id) × (c.head_id ≡ d.head_id) × (token_block_idx c ≡ token_block_idx d)
unfolding raw_lba
raw_lba-injective m mode c d fc fd e =
    let outer = digits_unique _ _ _ _ m.blocks_per_head fc.index fd.index e in
    let inner =
      digits_unique c.layer_id d.layer_id c.head_id d.head_id m.num_heads fc.head fd.head outer.0 in
    (inner.0, inner.1, outer.1)

-- the address that a mode gives where nothing is divided by zero
unfoldable pub lba_value : DeterministicTensorMapper → MappingMode → TensorCoordinate → ℕ
lba_value m conventional c =
    raw_lba m c.layer_id c.head_id (token_block_idx c) % m.total_device_blocks
lba_value m tensor_aware c = striped_lba m c.layer_id c.head_id (token_block_idx c)
lba_value m unknown c = 0

pos_of_div : (a n : ℕ) → 0 < a / n → 0 < n
pos_of_div a zero h = absurd (omega (arith, h, div-zero a))
pos_of_div a (suc n) h = omega arith

pos_of_left : (a b : ℕ) → 0 < a * b → 0 < a
pos_of_left zero b h = absurd (omega arith)
pos_of_left (suc a) b h = omega arith

pos_of_right : (a b : ℕ) → 0 < a * b → 0 < b
pos_of_right a zero h = absurd (omega arith)
pos_of_right a (suc b) h = omega arith

pos_of_stripe :
    (m : DeterministicTensorMapper) → 0 < stripe_unit m → 0 < m.channels * m.dies_per_channel
unfolding stripe_unit
pos_of_stripe m h = pos_of_div m.total_device_blocks (m.channels * m.dies_per_channel) h

tensor_to_lba_value :
    (m : DeterministicTensorMapper) (mode : MappingMode) (c : TensorCoordinate)
    → 0 < room m mode
    → tensor_to_lba m c mode ≡ ok (address m (lba_value m mode c) mode)
unfolding tensor_to_lba room lba_value
tensor_to_lba_value m unknown c h = absurd (omega (arith, h))
tensor_to_lba_value m conventional c h = ground arith
tensor_to_lba_value m tensor_aware c h =
    let both = pos_of_stripe m h in
    let ch = pos_of_left m.channels m.dies_per_channel both in
    let die = pos_of_right m.channels m.dies_per_channel both in
    let first : (m.channels == 0) ≡ false = ground arith in
    let second : (m.dies_per_channel == 0) ≡ false = ground arith in
    let third : (stripe_unit m == 0) ≡ false = ground arith in rw (first, second, third) refl

stripes_fit :
    (m : DeterministicTensorMapper)
    → m.channels * m.dies_per_channel * stripe_unit m ≤ m.total_device_blocks
unfolding stripe_unit
stripes_fit m = omega (arith, mul-div-le m.total_device_blocks (m.channels * m.dies_per_channel))

lba_value-lt :
    (m : DeterministicTensorMapper) (mode : MappingMode) (c : TensorCoordinate)
    → 0 < room m mode
    → lba_value m mode c < m.total_device_blocks
unfolding lba_value room striped_lba target_channel target_die
lba_value-lt m unknown c h = absurd (omega (arith, h))
lba_value-lt m conventional c h = mod-lt _ h
lba_value-lt m tensor_aware c h =
    let both = pos_of_stripe m h in
    let ch = pos_of_left m.channels m.dies_per_channel both in
    let die = pos_of_right m.channels m.dies_per_channel both in
    let off = raw_lba m c.layer_id c.head_id (token_block_idx c) in
    let x = c.layer_id + c.head_id + token_block_idx c + token_block_idx c / m.channels in
    let y = c.layer_id + c.head_id / m.channels + token_block_idx c / m.channels in
    let unit =
      index-lt-mul (x % m.channels) (y % m.dies_per_channel) m.channels m.dies_per_channel
        (mod-lt x ch) (mod-lt y die) in
    let inside =
      index-lt-mul (x % m.channels * m.dies_per_channel + y % m.dies_per_channel)
        (off % stripe_unit m) (m.channels * m.dies_per_channel) (stripe_unit m) unit
        (mod-lt off h) in
    omega (arith, inside, stripes_fit m)

-- In either mode the mapper never raises where its room is not zero, and every address lies within
-- the device.
pub tensor_to_lba_bounds :
    (m : DeterministicTensorMapper) (mode : MappingMode) (c : TensorCoordinate)
    → 0 < room m mode
    → (a : LbaAddress) × (tensor_to_lba m c mode ≡ ok a) × (a.lba < m.total_device_blocks)
tensor_to_lba_bounds m mode c h =
    (address m (lba_value m mode c) mode, tensor_to_lba_value m mode c h, lba_value-lt m mode c h)

lba_value-injective :
    (m : DeterministicTensorMapper) (mode : MappingMode) (c d : TensorCoordinate)
    → Fits m mode c
    → Fits m mode d
    → lba_value m mode c ≡ lba_value m mode d
    → raw_lba m c.layer_id c.head_id (token_block_idx c)
      ≡ raw_lba m d.layer_id d.head_id (token_block_idx d)
unfolding lba_value room striped_lba
lba_value-injective m unknown c d fc fd e = absurd (omega (arith, fc.inside))
lba_value-injective m conventional c d fc fd e =
    omega (arith, e, mod-eq_of_lt fc.inside, mod-eq_of_lt fd.inside)
lba_value-injective m tensor_aware c d fc fd e =
    let pos : 0 < stripe_unit m = omega (arith, fc.inside) in
    let rest = (digits_unique _ _ _ _ (stripe_unit m) (mod-lt _ pos) (mod-lt _ pos) e).1 in
    omega (arith, rest, mod-eq_of_lt fc.inside, mod-eq_of_lt fd.inside)

-- Two blocks of the model that have room in a mode never share an address: the same address means
-- the same layer, head and block index.
pub tensor_to_lba-injective :
    (m : DeterministicTensorMapper) (mode : MappingMode) (c d : TensorCoordinate) {a : LbaAddress}
    → Fits m mode c
    → Fits m mode d
    → tensor_to_lba m c mode ≡ ok a
    → tensor_to_lba m d mode ≡ ok a
    → (c.layer_id ≡ d.layer_id) × (c.head_id ≡ d.head_id) × (token_block_idx c ≡ token_block_idx d)
tensor_to_lba-injective m mode c d fc fd ec ed =
    let pos : 0 < room m mode = omega (arith, fc.inside) in
    let vc = tensor_to_lba_value m mode c pos in
    let vd = tensor_to_lba_value m mode d pos in
    let same : lba_value m mode c ≡ lba_value m mode d = cc in
    raw_lba-injective m mode c d fc fd (lba_value-injective m mode c d fc fd same)
