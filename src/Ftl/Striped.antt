-- ===== src/Ftl/Striped.antt =====
-- The maps of the tensor-aware layer (person2_ssd/ftl/tensor_aware.py): they stay inverse while no
-- channel has been used more often than it has pages in one plane.
use mathlib.Core.Path.{subst}
use native.Mathlib.Nat.{div-add-mod', mod-eq_of_lt}
use ai_ssd.Prelude.{
  ℕ, zero, suc, ◌+◌, ◌*◌, ◌≤◌, ◌<◌, ◌≡◌, refl, sym, ap, ◌∙◌, inl, inr, true, false, none, some,
  List, [], ◌∷◌, arith, ok, err, zero_division_error, length, get_or, modify, Option-cases,
  length-replicate, ite, ℕ_discrete, length-modify,
}
use ai_ssd.Prelude.Dict.{lookup}
use ai_ssd.Location.Text.{Text, Location, to_location_str}
use ai_ssd.Location.RoundTrip.{to_location_str-injective}
use ai_ssd.Schema.Block.{KvBlock}
use ai_ssd.Ftl.Base.{Geometry, record_mapping, translate, reverse_translate, new_base}
use ai_ssd.Ftl.TensorAware.{
  TensorAwareFtl, new_tensor_aware, stripe_location, stripe_channel, token_block_index, has_zero,
  allocate,
}
use ai_ssd.Ftl.Linear.{IsWithin, div-lt-mul}
use ai_ssd.Ftl.Striping.{stripe_location-IsWithin}
use ai_ssd.Ftl.Consistency.{IsConsistent, translate-record_mapping, record_mapping-IsConsistent}

-- how often a channel has been used
unfoldable pub used : TensorAwareFtl → ℕ → ℕ
used f ch = get_or f.channel_counters ch 0

-- Every mapped location was given out by an earlier use of its channel.
pub record IsStriped (f : TensorAwareFtl) : Type 0 where
  pub consistent : IsConsistent f.base
  pub sizes : has_zero f.base.geometry ≡ false
  pub counters : length f.channel_counters ≡ f.base.geometry.channels
  pub placed :
      (b : ℕ) (loc : Text)
      → translate f.base b ≡ some loc
      → (l : Location) × (loc ≡ to_location_str l)
        × (l.block * f.base.geometry.pages_per_block + l.page < used f l.channel)

pub new_tensor_aware-IsStriped :
    (g : Geometry) → has_zero g ≡ false → IsStriped (new_tensor_aware g)
unfolding new_tensor_aware new_base translate reverse_translate lookup
new_tensor_aware-IsStriped g h = record {
  consistent = record { forward = λ b loc e. cc; backward = λ b loc e. cc };
  sizes = h;
  counters = length-replicate g.channels 0;
  placed = λ b loc e. absurd (cc);
}

get_or-bump_ge : (xs : List ℕ) (i j : ℕ) → get_or xs j 0 ≤ get_or (modify xs i (λ n. n + 1)) j 0
get_or-bump_ge [] i j = omega arith
get_or-bump_ge (x ∷ xs) zero zero = omega arith
get_or-bump_ge (x ∷ xs) zero (suc j) = omega arith
get_or-bump_ge (x ∷ xs) (suc i) zero = omega arith
get_or-bump_ge (x ∷ xs) (suc i) (suc j) = get_or-bump_ge xs i j

get_or-bump_self :
    (xs : List ℕ) (i : ℕ)
    → i < length xs
    → get_or (modify xs i (λ n. n + 1)) i 0 ≡ get_or xs i 0 + 1
get_or-bump_self [] i h = elim h [ ]
get_or-bump_self (x ∷ xs) zero h = refl
get_or-bump_self (x ∷ xs) (suc i) h = get_or-bump_self xs i (omega arith)

module _ (f : TensorAwareFtl) (b : KvBlock) where
  -- the channel that the block goes to, and the location that it gets
  unfoldable pub channel_for : ℕ
  channel_for = stripe_channel f.base.geometry b.kv_head_start (token_block_index b)

  pub next_location : Location
  unfolding channel_for
  next_location = stripe_location f.base.geometry b (used f channel_for)

  next_slot :
      used f channel_for < f.base.geometry.blocks_per_plane * f.base.geometry.pages_per_block
      → next_location.block * f.base.geometry.pages_per_block + next_location.page
        ≡ used f channel_for
  unfolding next_location stripe_location
  next_slot h = rw (mod-eq_of_lt (div-lt-mul _ _ _ h)) (div-add-mod' _ _)

  next_channel : next_location.channel ≡ channel_for
  unfolding next_location stripe_location
  next_channel = refl

  next_is_free :
      IsStriped f
      → used f channel_for < f.base.geometry.blocks_per_plane * f.base.geometry.pages_per_block
      → reverse_translate f.base (to_location_str next_location) ≡ none
  next_is_free s h =
      elim (Option-cases (reverse_translate f.base (to_location_str next_location))) [
        | inl e ↦ e
        | inr (c, e) ↦
            let (l, text, lt) =
              s.placed c (to_location_str next_location)
                (s.consistent.backward c (to_location_str next_location) e) in
            let same : next_location ≡ l = to_location_str-injective next_location l text in
            let lt' : next_location.block * f.base.geometry.pages_per_block + next_location.page
                < used f next_location.channel =
              subst
                (λ (m : Location).
                  m.block * f.base.geometry.pages_per_block + m.page < used f m.channel)
                (sym same) lt in
            absurd (omega (arith, next_slot h, ap (used f) next_channel))
      ]

  after : TensorAwareFtl
  after = record {
    base = record_mapping f.base b.block_id (to_location_str next_location);
    channel_counters = modify f.channel_counters channel_for (λ n. n + 1);
  }

  translate-after :
      (c : ℕ)
      → translate after.base c
        ≡ ite (ℕ_discrete b.block_id c) (some (to_location_str next_location)) (translate f.base c)
  unfolding after
  translate-after c = translate-record_mapping f.base b.block_id c _

  used-after_ge : (ch : ℕ) → used f ch ≤ used after ch
  unfolding used after
  used-after_ge ch = get_or-bump_ge f.channel_counters channel_for ch

  module _ (s : IsStriped f)
      (room : used f channel_for
        < f.base.geometry.blocks_per_plane * f.base.geometry.pages_per_block) where
    channel_for-lt : channel_for < f.base.geometry.channels
    unfolding next_location
    channel_for-lt =
        rw (← next_channel)
          ((stripe_location-IsWithin f.base.geometry b (used f channel_for) s.sizes).channel)

    used-after_self : used after channel_for ≡ used f channel_for + 1
    unfolding used after
    used-after_self =
        get_or-bump_self f.channel_counters channel_for (omega (arith, s.counters, channel_for-lt))

    placed_after :
        (c : ℕ) (loc : Text)
        → translate after.base c ≡ some loc
        → (l : Location) × (loc ≡ to_location_str l)
          × (l.block * f.base.geometry.pages_per_block + l.page < used after l.channel)
    placed_after c loc h = elim (ℕ_discrete b.block_id c) [
      | yes p ↦ (
        next_location,
        ground (arith, translate-after c),
        omega (arith, next_slot room, used-after_self, ap (used after) next_channel),
      )
      | no p ↦
          let (l, text, lt) = s.placed c loc (ground (arith, translate-after c)) in
          (l, text, omega (arith, used-after_ge l.channel))
    ]

    after-IsStriped : IsStriped after
    unfolding after
    after-IsStriped = record {
      consistent =
          record_mapping-IsConsistent f.base b.block_id (to_location_str next_location) s.consistent
            (next_is_free s room);
      sizes = unfold record_mapping in s.sizes;
      counters = unfold record_mapping in (length-modify f.channel_counters _ _ ∙ s.counters);
      placed = λ c loc h. unfold record_mapping in placed_after c loc h;
    }

-- What `allocate` of the tensor-aware layer does where there is room on the channel.
abbrev pub GivesStripe : TensorAwareFtl → KvBlock → Type 0
GivesStripe f b =
    (f' : TensorAwareFtl) × (b' : KvBlock) × (l : Location) × (allocate f b
      ≡ ok (f', b', to_location_str l))
    × IsWithin f.base.geometry l
    × (reverse_translate f.base (to_location_str l) ≡ none)
    × (b'.physical_location ≡ some (to_location_str l))
    × ((c : ℕ)
        → translate f'.base c
          ≡ ite (ℕ_discrete b.block_id c) (some (to_location_str l)) (translate f.base c))
    × (reverse_translate f'.base (to_location_str l) ≡ some b.block_id)
    × (used f' (channel_for f b) ≡ used f (channel_for f b) + 1)
    × IsStriped f'

-- While the channel of a block has been used less often than it has pages in one plane,
-- `allocate` does not raise: it gives out a location within the geometry that no block had. The
-- block then translates to it and it back to the block, the other blocks keep their locations,
-- that channel counts one use more, and the layer stays striped.
pub allocate_striped :
    (f : TensorAwareFtl) (b : KvBlock)
    → IsStriped f
    → used f (channel_for f b) < f.base.geometry.blocks_per_plane * f.base.geometry.pages_per_block
    → GivesStripe f b
allocate_striped f b s room =
    let s' = after-IsStriped f b s room in
    let l = next_location f b in
    let here : translate (after f b).base b.block_id ≡ some (to_location_str l) =
      ground (arith, translate-after f b b.block_id) in
    (
      after f b,
      record b { physical_location = some (to_location_str l) },
      l,
      unfold allocate after used channel_for next_location in rw (s.sizes, allocate),
      unfold next_location in stripe_location-IsWithin f.base.geometry b _ s.sizes,
      next_is_free f b s room,
      refl,
      translate-after f b,
      s'.consistent.forward b.block_id (to_location_str l) here,
      used-after_self f b s room,
      s',
    )

-- With a size of zero in the geometry `allocate` raises, whatever the block.
pub allocate_degenerate :
    (f : TensorAwareFtl) (b : KvBlock)
    → has_zero f.base.geometry ≡ true
    → allocate f b ≡ err zero_division_error
unfolding allocate
allocate_degenerate f b h = rw (h, allocate)
