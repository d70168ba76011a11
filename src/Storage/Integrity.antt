-- ===== src/Storage/Integrity.antt =====
-- The pages hold what the translation layer says (person2_ssd/storage_model/io_model.py with the
-- sequential layer): the integrity of `StorageSimulator.store_block`.
use mathlib.Core.Path.{subst}
use ai_ssd.Prelude.{
  ℕ, ◌+◌, ◌≤◌, ◌<◌, ◌≡◌, ◌≢◌, refl, sym, ap, ◌∙◌, inl, inr, none, some, arith, ok, ite, ℕ_discrete,
}
use ai_ssd.Prelude.Dict.{nat_key, lookup, insert, lookup-insert}
use ai_ssd.Location.Text.{Text, Location, to_location_str}
use ai_ssd.Location.RoundTrip.{to_location_str-injective, parse-to_location_str}
use ai_ssd.Schema.Block.{KvBlock, StorageTier}
use ai_ssd.Nand.Page.{FlashPage, PageState}
use ai_ssd.Ftl.Base.{Geometry, translate, reverse_translate}
use ai_ssd.Ftl.Base
use ai_ssd.Ftl.Conventional.{ConventionalFtl, linear_location}
use ai_ssd.Ftl.Conventional
use ai_ssd.Ftl.Allocator.{Layer, KvStorageAllocator, dispatch, base_of}
use ai_ssd.Ftl.Allocator
use ai_ssd.Ftl.Linear.{capacity, linear_text-injective}
use ai_ssd.Ftl.Consistency.{IsSequential, allocate_sequential}
use ai_ssd.Storage.Simulator.{StorageSimulator, place, store_block, get_location, load_block}
use ai_ssd.Storage.Pages.{page_at, programmed}
use ai_ssd.Storage.Placing.{place_lem}

-- From an index on, the pages of a geometry are there and free.
abbrev pub Blank : StorageSimulator → ℕ → Geometry → Type 0
Blank s counter g =
    (n : ℕ)
    → counter ≤ n
    → n < capacity g
    → (p : FlashPage) × (page_at s.channels (linear_location g n) ≡ some p)
      × (p.state ≡ PageState.free)

-- Every page that a block translates to is valid and holds that block, and the pages that the
-- layer has not reached are there and free.
pub record IsSound (s : StorageSimulator) (f : ConventionalFtl) : Type 0 where
  pub layer : s.allocator.ftl ≡ Layer.conventional f
  pub sequential : IsSequential f
  pub holds :
      (b : ℕ) (l : Location)
      → translate f.base b ≡ some (to_location_str l)
      → (p : FlashPage) × (page_at s.channels l ≡ some p)
        × (p.state ≡ PageState.valid)
        × (p.data_block_id ≡ some b)
  pub blank : Blank s f.linear_counter f.base.geometry

-- the allocator behind a successful allocation of the sequential layer
allocator_step :
    (a : KvStorageAllocator) (f f' : ConventionalFtl) (b b' : KvBlock) (text : Text)
    → a.ftl ≡ Layer.conventional f
    → Conventional.allocate f b ≡ ok (f', b', text)
    → Allocator.store_block a b
      ≡ ok (
        record a {
          ftl = Layer.conventional f';
          stored_blocks = insert b'.block_id b' a.stored_blocks;
        },
        b',
        text,
      )
unfolding Allocator.store_block
allocator_step a f f' b b' text e h = rw (e, Allocator.store_block) (rw (h, dispatch))

-- the whole of `store_block`, where both of its parts succeed
store_block_step :
    (s s' : StorageSimulator) (a' : KvStorageAllocator) (b b' : KvBlock) (l : Location)
    → Allocator.store_block s.allocator (record b { storage_tier = StorageTier.ssd })
      ≡ ok (a', b', to_location_str l)
    → place (record s { allocator = a' }) b'.block_id l ≡ (s', ok tt)
    → store_block s b ≡ (s', b', ok (to_location_str l))
unfolding store_block
store_block_step s s' a' b b' l e h = rw (e, store_block) (rw (parse-to_location_str l) (rw h))

module _ (s s' : StorageSimulator) (f f' : ConventionalFtl) (id : ℕ) (p : FlashPage)
    (sound : IsSound s f) (seq : IsSequential f') (geo : f'.base.geometry ≡ f.base.geometry)
    (count : f'.linear_counter ≡ f.linear_counter + 1) (next : Location)
    (next_lem : next ≡ linear_location f.base.geometry f.linear_counter)
    (free : reverse_translate f.base (to_location_str next) ≡ none)
    (table : (c : ℕ)
      → translate f'.base c
        ≡ ite (ℕ_discrete id c) (some (to_location_str next)) (translate f.base c)) where
  module _ (self : page_at s'.channels next ≡ some (programmed p id))
      (others : (m : Location) → next ≢ m → page_at s'.channels m ≡ page_at s.channels m) where
    holds_after :
        (b : ℕ) (l : Location)
        → translate f'.base b ≡ some (to_location_str l)
        → (q : FlashPage) × (page_at s'.channels l ≡ some q)
          × (q.state ≡ PageState.valid)
          × (q.data_block_id ≡ some b)
    holds_after b l h = elim (ℕ_discrete id b) [
      | yes e ↦
          let same : next ≡ l = to_location_str-injective next l (ground (arith, table b)) in
          (
            programmed p id,
            rw (← same) self,
            unfold programmed in refl,
            unfold programmed in ap some e,
          )
      | no e ↦
          let before : translate f.base b ≡ some (to_location_str l) = ground (arith, table b) in
          let apart : next ≢ l = λ same.
            let used = sound.sequential.consistent.forward b (to_location_str l) before in
            let used' : reverse_translate f.base (to_location_str next) ≡ some b = rw same used in
            absurd (cc) in
          let (q, at, valid, held) = sound.holds b l before in (q, others l apart ∙ at, valid, held)
    ]

    blank_after :
        (n : ℕ)
        → f'.linear_counter ≤ n
        → n < capacity f.base.geometry
        → (q : FlashPage) × (page_at s'.channels (linear_location f.base.geometry n) ≡ some q)
          × (q.state ≡ PageState.free)
    blank_after n le lt =
        let (q, at, is_free) = sound.blank n (omega (arith, count)) lt in
        let apart : next ≢ linear_location f.base.geometry n = λ same.
          let k =
            linear_text-injective f.base.geometry _ _ (ap to_location_str (sym next_lem ∙ same)) in
          absurd (omega (arith, count)) in
        (q, others (linear_location f.base.geometry n) apart ∙ at, is_free)

get_location-translate :
    (s : StorageSimulator) (f : ConventionalFtl) (c : ℕ)
    → s.allocator.ftl ≡ Layer.conventional f
    → get_location s c ≡ translate f.base c
unfolding get_location Allocator.get_location Base.get_location
get_location-translate s f c e =
    ap (λ (k : Layer). translate (base_of k) c) e ∙ (unfold base_of in refl)

load_block_self :
    (s : StorageSimulator) (a : KvStorageAllocator) (b : KvBlock) (c : ℕ)
    → s.allocator ≡ record a { stored_blocks = insert b.block_id b a.stored_blocks }
    → b.block_id ≡ c
    → load_block s c ≡ some b
unfolding load_block Allocator.load_block
load_block_self s a b c e same =
    ap (λ (k : KvStorageAllocator). lookup c k.stored_blocks) e
    ∙ ground (arith, lookup-insert b.block_id c b a.stored_blocks)

-- What `store_block` does where there is a page left.
abbrev pub Stores : StorageSimulator → ConventionalFtl → KvBlock → Type 0
Stores s f b =
    (s' : StorageSimulator) × (f' : ConventionalFtl) × (b' : KvBlock) × (l : Location)
    × (store_block s b ≡ (s', b', ok (to_location_str l)))
    × (reverse_translate f.base (to_location_str l) ≡ none)
    × (get_location s' b.block_id ≡ some (to_location_str l))
    × (load_block s' b.block_id ≡ some b')
    × (f'.linear_counter ≡ f.linear_counter + 1)
    × IsSound s' f'

-- On a sound simulator with a page left, `store_block` does not raise. It gives the block a
-- location that no block had; the simulator then translates the identifier to that location and
-- loads the stored block by it, and it is sound again: every block's page, the new one included,
-- is valid and holds that block.
pub store_block_total :
    (s : StorageSimulator) (f : ConventionalFtl) (b : KvBlock)
    → IsSound s f
    → f.linear_counter < capacity f.base.geometry
    → Stores s f b
store_block_total s f b sound room =
    let b₀ = record b { storage_tier = StorageTier.ssd } in
    elim (allocate_sequential f b₀ sound.sequential) [
      | inl (full, e) ↦ absurd (omega arith)
      | inr (f', b', l, e, next_l, within, free, b'_lem, table, back, count, geo, seq) ↦
          let id : b'.block_id ≡ b.block_id = ap (λ (k : KvBlock). k.block_id) b'_lem in
          let here : translate f'.base b.block_id ≡ some (to_location_str l) =
            ground (arith, table b.block_id) in
          let (p, at, is_free) = sound.blank f.linear_counter (omega arith) room in
          let a' = record s.allocator {
            ftl = Layer.conventional f';
            stored_blocks = insert b'.block_id b' s.allocator.stored_blocks;
          } in
          let s₁ = record s { allocator = a' } in
          let (s', placed, is) = place_lem s₁ b'.block_id l (rw next_l at) is_free in
          let layer : s'.allocator.ftl ≡ Layer.conventional f' =
            ap (λ (k : KvStorageAllocator). k.ftl) is.allocator in
          let self : page_at s'.channels l ≡ some (programmed p b.block_id) =
            is.self ∙ ap (λ (i : ℕ). some (programmed p i)) id in
          (
            s',
            f',
            b',
            l,
            store_block_step s s' a' b b' l
                (allocator_step s.allocator f f' b₀ b' (to_location_str l) sound.layer e) placed,
            free,
            get_location-translate s' f' b.block_id layer ∙ here,
            load_block_self s' (record s.allocator { ftl = Layer.conventional f' }) b' b.block_id
                is.allocator id,
            count,
            record {
              layer = layer;
              sequential = seq;
              holds =
                  holds_after s s' f f' b.block_id p sound seq geo count l next_l free table self
                    is.others;
              blank = subst (Blank s' f'.linear_counter) (sym geo) (
                  blank_after s s' f f' b.block_id p sound seq geo count l next_l free table self
                    is.others);
            },
          )
    ]
