-- ===== src/Ftl/Striping.antt =====
-- The striping of the tensor-aware layer (person2_ssd/ftl/tensor_aware.py).
use native.Mathlib.Nat.{
  div-add-mod', mod-lt, add-mul-div_right, add-mul-mod_self_right, add-mod_right,
}
use ai_ssd.Prelude.{
  ℕ, ◌+◌, ◌-◌, ◌*◌, ◌/◌, ◌%◌, ◌<◌, ◌≤◌, ◌≡◌, ◌≢◌, sym, ap, ◌∙◌, arith, false, dec_le,
}
use ai_ssd.Schema.Block.{KvBlock}
use ai_ssd.Ftl.Base.{Geometry}
use ai_ssd.Ftl.TensorAware.{stripe_channel, stripe_die, stripe_plane, stripe_location, has_zero}
use ai_ssd.Ftl.Linear.{IsWithin}

-- A step of less than the modulus that comes back to the same remainder is no step.
shift_zero : (a d c : ℕ) → d < c → (a + d) % c ≡ a % c → d ≡ 0
shift_zero a d c h e = let e₁ = div-add-mod' a c in let e₂ = div-add-mod' (a + d) c in grind arith

mod_add-injective : (a c r s : ℕ) → r < c → s < c → (a + r) % c ≡ (a + s) % c → r ≤ s → r ≡ s
mod_add-injective a c r s hr hs e le =
    let e' : (a + r + (s - r)) % c ≡ (a + r) % c = ap (λ (t : ℕ). t % c) (omega arith) ∙ sym e in
    let z = shift_zero (a + r) (s - r) c (omega arith) e' in omega arith

remainder_unique : (a c r s : ℕ) → r < c → s < c → (a + r) % c ≡ (a + s) % c → r ≡ s
remainder_unique a c r s hr hs e = elim (dec_le r s) [
  | yes le ↦ mod_add-injective a c r s hr hs e le
  | no nle ↦ sym (mod_add-injective a c s r hs hr (sym e) (omega arith))
]

-- Token blocks of one head that stand in the same row, a run of as many token blocks as there are
-- channels, go to different channels.
pub stripe_channel-ne :
    (g : Geometry) (head t u : ℕ)
    → 0 < g.channels
    → t / g.channels ≡ u / g.channels
    → t ≢ u
    → stripe_channel g head t ≢ stripe_channel g head u
unfolding stripe_channel
stripe_channel-ne g head t u pos row ne e =
    let c = g.channels in
    let row' : t / c * c ≡ u / c * c = ap (λ (q : ℕ). q * c) row in
    let e' : (head + t / c * c + t / c + t % c) % c ≡ (head + t / c * c + t / c + u % c) % c =
      ap (λ (x : ℕ). x % c) (omega (arith, div-add-mod' t c))
      ∙ e
      ∙ ap (λ (x : ℕ). x % c) (omega (arith, div-add-mod' u c)) in
    let same = remainder_unique _ c (t % c) (u % c) (mod-lt t pos) (mod-lt u pos) e' in
    ne (omega (arith, div-add-mod' t c, div-add-mod' u c))

-- With no size zero every stripe lies within the geometry.
pub stripe_location-IsWithin :
    (g : Geometry) (b : KvBlock) (counter : ℕ)
    → has_zero g ≡ false
    → IsWithin g (stripe_location g b counter)
unfolding stripe_location stripe_channel stripe_die stripe_plane
stripe_location-IsWithin g b counter h = record {
  channel = mod-lt _ (ground arith);
  die = mod-lt _ (ground arith);
  plane = mod-lt _ (ground arith);
  block = mod-lt _ (ground arith);
  page = mod-lt _ (ground arith);
}

-- A channel's locations come back with a period of the pages of one plane: after so many
-- allocations on its channel a block gets the location that it would have had before them.
pub stripe_location_period :
    (g : Geometry) (b : KvBlock) (counter : ℕ)
    → has_zero g ≡ false
    → stripe_location g b (counter + g.blocks_per_plane * g.pages_per_block)
      ≡ stripe_location g b counter
unfolding stripe_location
stripe_location_period g b counter h =
    let pos : 0 < g.pages_per_block = ground arith in
    let e₁ = add-mul-div_right counter g.blocks_per_plane pos in
    rw (e₁, add-mod_right, add-mul-mod_self_right)
