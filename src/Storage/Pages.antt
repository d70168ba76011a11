-- ===== src/Storage/Pages.antt =====
-- The page behind a location (person2_ssd/storage_model/io_model.py), through the five levels of
-- the flash hierarchy.
use ai_ssd.Prelude.{
  ℕ, zero, suc, ◌+◌, max, ◌≡◌, ◌≢◌, refl, sym, ap, ◌∙◌, fun_ext, true, Option, none, some, List, [],
  ◌∷◌, arith, ok, get_elem?, modify, get_elem?-modify_self, get_elem?-modify_ne, ℕ_discrete,
}
use ai_ssd.Location.Text.{Location}
use ai_ssd.Nand.Page.{FlashPage, PageState, is_state, program}
use ai_ssd.Nand.Block.{FlashBlock}
use ai_ssd.Nand.Die.{FlashDie, FlashPlane}
use ai_ssd.Channel.Defs.{FlashChannel}
use ai_ssd.Storage.Simulator.{program_in_block, in_plane, in_die}

-- an item of a list, looked at
abbrev pub at {ℓ κ} : {A : Type ℓ} {B : Type κ} → List A → ℕ → (A → Option B) → Option B
at [] i view = none
at (x ∷ xs) zero view = view x
at (x ∷ xs) (suc i) view = at xs i view

module _ {ℓ κ} {A : Type ℓ} {B : Type κ} where
  pub at-modify_self :
      (xs : List A) (i : ℕ) (f : A → A) (view : A → Option B)
      → at (modify xs i f) i view ≡ at xs i (λ x. view (f x))
  at-modify_self [] i f view = refl
  at-modify_self (x ∷ xs) zero f view = refl
  at-modify_self (x ∷ xs) (suc i) f view = at-modify_self xs i f view

  pub at-modify_ne :
      (xs : List A) (i j : ℕ) (f : A → A) (view : A → Option B)
      → i ≢ j
      → at (modify xs i f) j view ≡ at xs j view
  at-modify_ne [] i j f view h = refl
  at-modify_ne (x ∷ xs) zero zero f view h = absurd (h refl)
  at-modify_ne (x ∷ xs) zero (suc j) f view h = refl
  at-modify_ne (x ∷ xs) (suc i) zero f view h = refl
  at-modify_ne (x ∷ xs) (suc i) (suc j) f view h = at-modify_ne xs i j f view (λ e. h (ap suc e))

  pub at-get :
      (xs : List A) (i : ℕ) (view : A → Option B) {x : A}
      → get_elem? xs i ≡ some x
      → at xs i view ≡ view x
  at-get [] i view h = cc
  at-get (x ∷ xs) zero view h = ground arith
  at-get (x ∷ xs) (suc i) view h = at-get xs i view h

  pub at-some :
      (xs : List A) (i : ℕ) (view : A → Option B) {b : B}
      → at xs i view ≡ some b
      → (x : A) × (get_elem? xs i ≡ some x) × (view x ≡ some b)
  at-some [] i view h = absurd (cc)
  at-some (x ∷ xs) zero view h = (x, refl, h)
  at-some (x ∷ xs) (suc i) view h = at-some xs i view h

abbrev pub block_page : (pg : ℕ) → FlashBlock → Option FlashPage
block_page pg b = get_elem? b.pages pg

abbrev pub plane_page : (blk pg : ℕ) → FlashPlane → Option FlashPage
plane_page blk pg p = at p.blocks blk (block_page pg)

abbrev pub die_page : (pl blk pg : ℕ) → FlashDie → Option FlashPage
die_page pl blk pg d = at d.planes pl (plane_page blk pg)

abbrev pub channel_page : (die pl blk pg : ℕ) → FlashChannel → Option FlashPage
channel_page die pl blk pg c = at c.dies die (die_page pl blk pg)

-- the page of a location
unfoldable pub page_at : List FlashChannel → Location → Option FlashPage
page_at channels l = at channels l.channel (channel_page l.die l.plane l.block l.page)

-- what programming a free page for a block leaves
unfoldable pub programmed : FlashPage → ℕ → FlashPage
programmed p id = record p {
  state = PageState.valid;
  data_block_id = some id;
  program_count = p.program_count + 1;
}

program-programmed :
    (p : FlashPage) (id : ℕ)
    → p.state ≡ PageState.free
    → program p (some id) none ≡ ok (programmed p id)
unfolding program programmed
program-programmed p id h = ground arith

module _ (b : FlashBlock) (pg id : ℕ) {p : FlashPage} where
  program_in_block_free :
      block_page pg b ≡ some p
      → p.state ≡ PageState.free
      → program_in_block b pg id ≡ record b {
        pages = modify b.pages pg (λ _. programmed p id);
        free_page_index = max b.free_page_index (pg + 1);
      }
  unfolding program_in_block programmed
  program_in_block_free e f =
      rw (e, program_in_block)
        (let t : is_state p.state PageState.free ≡ true = rw f in rw (t, program-programmed p id f))

  program_in_block_self :
      block_page pg b ≡ some p
      → p.state ≡ PageState.free
      → block_page pg (program_in_block b pg id) ≡ some (programmed p id)
  program_in_block_self e f =
      rw (program_in_block_free e f) (get_elem?-modify_self b.pages pg (λ _. programmed p id) e)

  program_in_block_ne :
      (g : ℕ)
      → block_page pg b ≡ some p
      → p.state ≡ PageState.free
      → pg ≢ g
      → block_page g (program_in_block b pg id) ≡ block_page g b
  program_in_block_ne g e f h =
      rw (program_in_block_free e f) (get_elem?-modify_ne b.pages pg g (λ _. programmed p id) h)

-- A change of the block of a location that holds the page `p` of it: it shows at the page of the
-- location, and nowhere else in the die.
module _ (f : FlashBlock → FlashBlock) (l : Location) (d : FlashDie) {p : FlashPage}
    (h : die_page l.plane l.block l.page d ≡ some p) where
  die_self :
      {q : Option FlashPage}
      → ((b : FlashBlock) → block_page l.page b ≡ some p → block_page l.page (f b) ≡ q)
      → die_page l.plane l.block l.page (in_die d l f) ≡ q
  unfolding in_die in_plane
  die_self step =
      let (plane, e₁, h₁) = at-some d.planes l.plane (plane_page l.block l.page) h in
      let (b, e₂, h₂) = at-some plane.blocks l.block (block_page l.page) h₁ in
      at-modify_self d.planes l.plane (λ plane. in_plane plane l.block f)
        (plane_page l.block l.page)
      ∙ at-get d.planes l.plane _ e₁
      ∙ at-modify_self plane.blocks l.block f (block_page l.page)
      ∙ at-get plane.blocks l.block _ e₂
      ∙ step b h₂

  die_ne_plane :
      (pl blk pg : ℕ) → l.plane ≢ pl → die_page pl blk pg (in_die d l f) ≡ die_page pl blk pg d
  unfolding in_die
  die_ne_plane pl blk pg ne = at-modify_ne d.planes l.plane pl _ (plane_page blk pg) ne

  die_ne_block :
      (blk pg : ℕ)
      → l.block ≢ blk
      → die_page l.plane blk pg (in_die d l f) ≡ die_page l.plane blk pg d
  unfolding in_die in_plane
  die_ne_block blk pg ne =
      at-modify_self d.planes l.plane (λ plane. in_plane plane l.block f) (plane_page blk pg)
      ∙ ap (at d.planes l.plane)
          (fun_ext λ plane. at-modify_ne plane.blocks l.block blk f (block_page pg) ne)

  die_ne_page :
      (pg : ℕ)
      → ((b : FlashBlock) → block_page l.page b ≡ some p → block_page pg (f b) ≡ block_page pg b)
      → die_page l.plane l.block pg (in_die d l f) ≡ die_page l.plane l.block pg d
  unfolding in_die in_plane
  die_ne_page pg step =
      let (plane, e₁, h₁) = at-some d.planes l.plane (plane_page l.block l.page) h in
      let (b, e₂, h₂) = at-some plane.blocks l.block (block_page l.page) h₁ in
      at-modify_self d.planes l.plane (λ plane. in_plane plane l.block f) (plane_page l.block pg)
      ∙ at-get d.planes l.plane _ e₁
      ∙ at-modify_self plane.blocks l.block f (block_page pg)
      ∙ at-get plane.blocks l.block _ e₂
      ∙ step b h₂
      ∙ sym (at-get d.planes l.plane _ e₁ ∙ at-get plane.blocks l.block _ e₂)

-- what `store_block` does with the block of a location
abbrev pub write : (pg id : ℕ) → FlashBlock → FlashBlock
write pg id blk = program_in_block blk pg id

-- Programming a free page in a die.
module _ (l : Location) (id : ℕ) (d : FlashDie) {p : FlashPage}
    (h : die_page l.plane l.block l.page d ≡ some p) (f : p.state ≡ PageState.free) where
  pub program_die_self :
      die_page l.plane l.block l.page (in_die d l (write l.page id)) ≡ some (programmed p id)
  program_die_self = die_self (write l.page id) l d h (λ b e. program_in_block_self b l.page id e f)

  pub program_die_ne :
      (pl blk pg : ℕ)
      → ¬ ((l.plane ≡ pl) × (l.block ≡ blk) × (l.page ≡ pg))
      → die_page pl blk pg (in_die d l (write l.page id)) ≡ die_page pl blk pg d
  program_die_ne pl blk pg ne = elim (ℕ_discrete l.plane pl) [
    | no a ↦ die_ne_plane (write l.page id) l d h pl blk pg a
    | yes a ↦ elim (ℕ_discrete l.block blk) [
      | no b ↦ rw (← a) (die_ne_block (write l.page id) l d h blk pg b)
      | yes b ↦ rw (← a) (
          rw (← b) (
            die_ne_page (write l.page id) l d h pg
              (λ blk' e. program_in_block_ne blk' l.page id pg e f (λ c. ne (a, b, c)))))
    ]
  ]
