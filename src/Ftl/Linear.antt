-- ===== src/Ftl/Linear.antt =====
-- The linear index behind the sequential placement (person2_ssd/ftl/conventional.py).
use native.Mathlib.Nat.{div-add-mod', mod-lt, div-lt_iff_lt-mul}
use ai_ssd.Prelude.{ℕ, zero, ◌+◌, ◌*◌, ◌/◌, ◌<◌, ◌≡◌, sym, ap, ◌∙◌, arith}
use ai_ssd.Location.Text.{Location, to_location_str}
use ai_ssd.Location.RoundTrip.{to_location_str-injective}
use ai_ssd.Ftl.Base.{Geometry}
use ai_ssd.Ftl.Conventional.{linear_location}

-- the position of a location in the order page, block, plane, die, channel
pub linear_index : Geometry → Location → ℕ
linear_index g l =
    (((l.channel * g.dies_per_channel + l.die) * g.planes_per_die + l.plane) * g.blocks_per_plane
        + l.block)
      * g.pages_per_block
    + l.page

-- Sequential placement loses nothing: the index of the location of `n` is `n`.
linear_index-linear_location : (g : Geometry) (n : ℕ) → linear_index g (linear_location g n) ≡ n
unfolding linear_index linear_location
linear_index-linear_location g n = simp div-add-mod'

-- So two allocations never share a location text.
pub linear_text-injective :
    (g : Geometry) (m n : ℕ)
    → to_location_str (linear_location g m) ≡ to_location_str (linear_location g n)
    → m ≡ n
linear_text-injective g m n e =
    sym (linear_index-linear_location g m)
    ∙ ap (linear_index g) (to_location_str-injective _ _ e)
    ∙ linear_index-linear_location g n

-- a location within the geometry
pub record IsWithin (g : Geometry) (l : Location) : Type 0 where
  pub channel : l.channel < g.channels
  pub die : l.die < g.dies_per_channel
  pub plane : l.plane < g.planes_per_die
  pub block : l.block < g.blocks_per_plane
  pub page : l.page < g.pages_per_block

abbrev pub capacity : Geometry → ℕ
capacity g =
    g.channels * g.dies_per_channel * g.planes_per_die * g.blocks_per_plane * g.pages_per_block

pos_of_mul_left : (a b n : ℕ) → n < a * b → 0 < a
pos_of_mul_left zero b n h = absurd (omega arith)
pos_of_mul_left a b n h = omega arith

pub pos_of_mul_right : (a b n : ℕ) → n < a * b → 0 < b
pos_of_mul_right a zero n h = absurd (omega arith)
pos_of_mul_right a b n h = omega arith

-- one division: a quotient below the rest of the product
pub div-lt-mul : (a b n : ℕ) → n < a * b → n / b < a
div-lt-mul a b n h = (div-lt_iff_lt-mul (pos_of_mul_right a b n h)).1 h

-- Every index below the capacity has its location within the geometry.
pub linear_location-IsWithin :
    (g : Geometry) (n : ℕ) → n < capacity g → IsWithin g (linear_location g n)
unfolding linear_location
linear_location-IsWithin g n h =
    let h₁ = div-lt-mul _ g.pages_per_block n h in
    let h₂ = div-lt-mul _ g.blocks_per_plane _ h₁ in
    let h₃ = div-lt-mul _ g.planes_per_die _ h₂ in
    record {
      channel = div-lt-mul g.channels g.dies_per_channel _ h₃;
      die = mod-lt _ (pos_of_mul_right g.channels _ _ h₃);
      plane = mod-lt _ (pos_of_mul_right _ g.planes_per_die _ h₂);
      block = mod-lt _ (pos_of_mul_right _ g.blocks_per_plane _ h₁);
      page = mod-lt _ (pos_of_mul_right _ g.pages_per_block _ h);
    }
