-- ===== src/Mapper/Agreement.antt =====
-- The mapper against the tensor-aware translation layer
-- (person2_ssd/kv_allocator/tensor_mapping.py and person2_ssd/ftl/tensor_aware.py).
use native.Mathlib.Nat.{mod-lt, mod-eq_of_lt, mod-eq-sub-mod, add-mod}
use ai_ssd.Prelude.{
  ℕ, ◌+◌, ◌-◌, ◌/◌, ◌%◌, ◌≤◌, ◌<◌, ◌≡◌, ◌↔◌, ◌⊎◌, inl, inr, refl, sym, ap, ◌∙◌, arith,
}
use ai_ssd.Ftl.Base.{Geometry}
use ai_ssd.Ftl.TensorAware.{stripe_channel, stripe_die, stripe_plane}
use ai_ssd.Mapper.Addressing.{DeterministicTensorMapper, target_channel, target_die, target_plane}

abbrev pub geometry_of : DeterministicTensorMapper → Geometry
geometry_of m = record {
  channels = m.channels;
  dies_per_channel = m.dies_per_channel;
  planes_per_die = m.planes_per_die;
  blocks_per_plane = m.blocks_per_plane;
  pages_per_block = m.pages_per_block;
}

small-or-large : (a n : ℕ) → (a < n) ⊎ (n ≤ a)
small-or-large a n = ground arith

-- a rotation by `l` moves a remainder unless `l` is a multiple
rotation : (l x n : ℕ) → 0 < n → (l + x) % n ≡ x % n → l % n ≡ 0
rotation l x n pos e =
    let a = mod-lt l pos in
    let b = mod-lt x pos in
    let sum = add-mod l x n in
    elim (small-or-large (l % n + x % n) n) [
      | inl small ↦ omega (arith, e, sum, mod-eq_of_lt small)
      | inr large ↦
          let less : l % n + x % n - n < n = omega (arith, a, b) in
          omega (arith, a, b, e, sum, mod-eq-sub-mod large, mod-eq_of_lt less)
    ]

no_rotation : (l x n : ℕ) → 0 < n → l % n ≡ 0 → (l + x) % n ≡ x % n
no_rotation l x n pos e =
    let b = mod-lt x pos in
    let small : l % n + x % n < n = omega (arith, e, b) in
    omega (arith, e, add-mod l x n, mod-eq_of_lt small)

-- The mapper puts a block on the die and the plane that the tensor-aware layer uses, and on its
-- channel exactly when the layer of the model is a multiple of the number of channels.
pub target-agrees :
    (m : DeterministicTensorMapper) (layer head b_idx : ℕ)
    → 0 < m.channels
    → (target_die m layer head b_idx ≡ stripe_die (geometry_of m) layer head b_idx)
      × (target_plane m b_idx ≡ stripe_plane (geometry_of m) b_idx)
      × ((target_channel m layer head b_idx ≡ stripe_channel (geometry_of m) head b_idx)
          ↔ (layer % m.channels ≡ 0))
unfolding target_die target_plane target_channel stripe_die stripe_plane stripe_channel
target-agrees m layer head b_idx pos =
    let x = head + b_idx + b_idx / m.channels in
    let regroup : layer + head + b_idx + b_idx / m.channels ≡ layer + x = omega arith in
    (
      refl,
      refl,
      (
        (λ e. rotation layer x m.channels pos (sym (ap (λ (k : ℕ). k % m.channels) regroup) ∙ e)),
        (λ e. ap (λ (k : ℕ). k % m.channels) regroup ∙ no_rotation layer x m.channels pos e),
      ),
    )
