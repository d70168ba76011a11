-- ===== src/Ftl/Consistency.antt =====
-- The mapping table and the reverse map are inverse to each other (person2_ssd/ftl/base.py), for
-- the sequential layer always, and what an allocation changes in the table.
use ai_ssd.Prelude.{
  ℕ, ◌+◌, ◌≤◌, ◌<◌, ◌≡◌, refl, ◌⊎◌, inl, inr, Option, none, some, arith, ok, err, runtime_error,
  leb, Bool-cases, Option-cases, ite, ℕ_discrete,
}
use ai_ssd.Prelude.Dict.{
  Dict, nat_key, text_key, lookup, lookup-insert, lookup-remove, text_discrete,
}
use ai_ssd.Location.Text.{Text, Location, to_location_str}
use ai_ssd.Schema.Block.{KvBlock}
use ai_ssd.Ftl.Base.{
  Geometry, BaseFtl, record_mapping, translate, reverse_translate, new_base, forget,
}
use ai_ssd.Ftl.Conventional.{ConventionalFtl, linear_location, allocate, new_conventional}
use ai_ssd.Ftl.Linear.{linear_text-injective, capacity, IsWithin, linear_location-IsWithin}

-- The two maps hold the same pairs.
pub record IsConsistent (f : BaseFtl) : Type 0 where
  pub forward : (b : ℕ) (loc : Text) → translate f b ≡ some loc → reverse_translate f loc ≡ some b
  pub backward : (b : ℕ) (loc : Text) → reverse_translate f loc ≡ some b → translate f b ≡ some loc

-- A new mapping shows for its block, and no other block's location changes.
pub translate-record_mapping :
    (f : BaseFtl) (b c : ℕ) (loc : Text)
    → translate (record_mapping f b loc) c ≡ ite (ℕ_discrete b c) (some loc) (translate f c)
unfolding translate record_mapping
translate-record_mapping f b c loc = lookup-insert b c loc f.mapping_table.entries

abbrev without : Option Text → Text → Option ℕ → Option ℕ
without none loc found = found
without (some old) loc found = ite (text_discrete old loc) none found

lookup-forget :
    (old : Option Text) (r : Dict Text ℕ) (loc : Text)
    → lookup loc (forget old r) ≡ without old loc (lookup loc r)
lookup-forget none r loc = refl
lookup-forget (some o) r loc = lookup-remove o loc r

reverse-record_mapping :
    (f : BaseFtl) (b : ℕ) (loc l : Text)
    → reverse_translate (record_mapping f b loc) l
      ≡ ite (text_discrete loc l) (some b) (without (translate f b) l (reverse_translate f l))
unfolding translate reverse_translate record_mapping
reverse-record_mapping f b loc l =
    rw lookup-insert (rw (lookup-forget (lookup b f.mapping_table.entries) f.reverse_map l))

-- A mapping to a location that was free keeps the two maps inverse, also where the block had
-- another location before: that location is free again.
pub record_mapping-IsConsistent :
    (f : BaseFtl) (b : ℕ) (loc : Text)
    → IsConsistent f
    → reverse_translate f loc ≡ none
    → IsConsistent (record_mapping f b loc)
record_mapping-IsConsistent f b loc c free = record {
  forward = λ d l.
      rw (translate-record_mapping f b d loc, reverse-record_mapping f b loc l)
        (λ h. ground (arith, c.forward d l, c.forward b l));
  backward = λ d l.
      rw (translate-record_mapping f b d loc, reverse-record_mapping f b loc l)
        (λ h. ground (arith, c.backward d l));
}

-- The sequential layer: its maps are inverse, its capacity is that of its geometry, and every
-- mapped location is one that an earlier allocation gave out.
pub record IsSequential (f : ConventionalFtl) : Type 0 where
  pub consistent : IsConsistent f.base
  pub sized : f.base.total_pages ≡ capacity f.base.geometry
  pub placed :
      (b : ℕ) (loc : Text)
      → translate f.base b ≡ some loc
      → (n : ℕ) × (n < f.linear_counter)
        × (loc ≡ to_location_str (linear_location f.base.geometry n))

pub new_conventional-IsSequential : (g : Geometry) → IsSequential (new_conventional g)
unfolding new_conventional new_base translate reverse_translate lookup
new_conventional-IsSequential g = record {
  consistent = record { forward = λ b loc h. cc; backward = λ b loc h. cc };
  sized = refl;
  placed = λ b loc h. absurd (cc);
}

-- the location of the next allocation is not in use
next_is_free :
    (f : ConventionalFtl)
    → IsSequential f
    → reverse_translate f.base (to_location_str (linear_location f.base.geometry f.linear_counter))
      ≡ none
next_is_free f s = elim (Option-cases (reverse_translate f.base loc)) [
  | inl e ↦ e
  | inr (b, e) ↦
      let (n, lt, same) = s.placed b loc (s.consistent.backward b loc e) in
      let clash : f.linear_counter ≡ n = linear_text-injective f.base.geometry _ _ same in
      absurd (omega arith)
]
  where
    loc : Text
    loc = to_location_str (linear_location f.base.geometry f.linear_counter)

-- what an allocation leaves when there is room
after : ConventionalFtl → ℕ → ConventionalFtl
after f b = record {
  base =
      record_mapping f.base b (to_location_str (linear_location f.base.geometry f.linear_counter));
  linear_counter = f.linear_counter + 1;
}

translate-after :
    (f : ConventionalFtl) (b c : ℕ)
    → translate (after f b).base c
      ≡ ite
          (ℕ_discrete b c)
          (some (to_location_str (linear_location f.base.geometry f.linear_counter)))
          (translate f.base c)
unfolding after
translate-after f b c = translate-record_mapping f.base b c _

placed_after :
    (f : ConventionalFtl) (b : ℕ)
    → IsSequential f
    → (c : ℕ) (loc : Text) → translate (after f b).base c ≡ some loc
    → (n : ℕ) × (n < f.linear_counter + 1)
      × (loc ≡ to_location_str (linear_location f.base.geometry n))
unfolding after
placed_after f b s c loc h = elim (ℕ_discrete b c) [
  | yes p ↦
      (f.linear_counter, omega arith, ground (arith, translate-record_mapping f.base b c text))
  | no p ↦
      let (n, lt, e) = s.placed c loc (ground (arith, translate-record_mapping f.base b c text)) in
      (n, omega arith, e)
]
  where
    text : Text
    text = to_location_str (linear_location f.base.geometry f.linear_counter)

after-IsSequential : (f : ConventionalFtl) (b : ℕ) → IsSequential f → IsSequential (after f b)
unfolding after
after-IsSequential f b s = record {
  consistent = record_mapping-IsConsistent f.base b _ s.consistent (next_is_free f s);
  sized = unfold record_mapping in s.sized;
  placed = λ c loc h. unfold record_mapping in placed_after f b s c loc h;
}

-- What `allocate` of the sequential layer may do: raise, or give out the next location.
abbrev pub GivesNext : ConventionalFtl → KvBlock → Type 0
GivesNext f b =
    ((capacity f.base.geometry ≤ f.linear_counter) × (allocate f b ≡ err runtime_error))
    ⊎ ((f' : ConventionalFtl) × (b' : KvBlock) × (l : Location) × (allocate f b
          ≡ ok (f', b', to_location_str l))
        × (l ≡ linear_location f.base.geometry f.linear_counter)
        × IsWithin f.base.geometry l
        × (reverse_translate f.base (to_location_str l) ≡ none)
        × (b' ≡ record b { physical_location = some (to_location_str l) })
        × ((c : ℕ)
            → translate f'.base c
              ≡ ite (ℕ_discrete b.block_id c) (some (to_location_str l)) (translate f.base c))
        × (reverse_translate f'.base (to_location_str l) ≡ some b.block_id)
        × (f'.linear_counter ≡ f.linear_counter + 1)
        × (f'.base.geometry ≡ f.base.geometry)
        × IsSequential f')

-- On a sequential layer `allocate` raises exactly when the capacity is used up, with nothing
-- changed. Else it gives out the location of the next index, which lies within the geometry and
-- which no block had; the block then translates to it and it back to the block, the other blocks
-- keep their locations, and the layer stays sequential.
pub allocate_sequential : (f : ConventionalFtl) (b : KvBlock) → IsSequential f → GivesNext f b
unfolding allocate
allocate_sequential f b s = elim (Bool-cases (leb f.base.total_pages f.linear_counter)) [
  | inl full ↦ inl (ground (arith, s.sized), rw (full, allocate))
  | inr room ↦
      let l = linear_location f.base.geometry f.linear_counter in
      let s' = after-IsSequential f b.block_id s in
      let here : translate (after f b.block_id).base b.block_id ≡ some (to_location_str l) =
        ground (arith, translate-after f b.block_id b.block_id) in
      inr (
        after f b.block_id,
        record b { physical_location = some (to_location_str l) },
        l,
        unfold after in rw (room, allocate),
        refl,
        linear_location-IsWithin f.base.geometry f.linear_counter (ground (arith, s.sized)),
        next_is_free f s,
        refl,
        translate-after f b.block_id,
        s'.consistent.forward b.block_id (to_location_str l) here,
        unfold after in refl,
        unfold after record_mapping in refl,
        s',
      )
]
