-- ===== src/Storage/Placing.antt =====
-- One placement on the flash hierarchy (person2_ssd/storage_model/io_model.py, the part of
-- `store_block` behind the allocation).
use ai_ssd.Prelude.{ℕ, ◌≡◌, ◌≢◌, refl, sym, ◌∙◌, Option, some, ok, get_elem?, ℕ_discrete}
use ai_ssd.Location.Text.{Location}
use ai_ssd.Nand.Page.{FlashPage, PageState}
use ai_ssd.Nand.Die.{FlashDie, schedule_program}
use ai_ssd.Channel.Defs.{FlashChannel, schedule_transfer, set_die, bus_transfer_us_per_page}
use ai_ssd.Storage.Simulator.{StorageSimulator, in_die, place, set_channel}
use ai_ssd.Storage.Pages.{
  at, at-modify_self, at-modify_ne, at-get, at-some, die_page, channel_page, page_at, programmed,
  write, program_die_self, program_die_ne,
}

-- the die and the channel that `place` leaves
after_die : FlashDie → Location → ℕ → FlashDie
after_die d l id = (schedule_program (in_die d l (write l.page id)) 0).0

after_channel : FlashChannel → FlashDie → Location → ℕ → FlashChannel
after_channel c d l id =
    set_die (schedule_transfer c 0 bus_transfer_us_per_page).0 l.die (after_die d l id)

place-after :
    (s : StorageSimulator) (id : ℕ) (l : Location) {c : FlashChannel} {d : FlashDie}
    → get_elem? s.channels l.channel ≡ some c
    → get_elem? c.dies l.die ≡ some d
    → place s id l ≡ (set_channel s l.channel (after_channel c d l id), ok tt)
unfolding place after_channel after_die
place-after s id l e₁ e₂ = rw (e₁, place) (rw e₂)

location_eq :
    (l m : Location)
    → l.channel ≡ m.channel
    → l.die ≡ m.die
    → (l.plane ≡ m.plane) × (l.block ≡ m.block) × (l.page ≡ m.page)
    → l ≡ m
location_eq l m a b (c, d, e) =
    λ i. record { channel = a i; die = b i; plane = c i; block = d i; page = e i }

-- A placement on a location whose page is there and free succeeds, programs that page with the
-- block's identifier, and changes no other page and not the allocator.
pub record IsPlaced (s : StorageSimulator) (id : ℕ) (l : Location) (p : FlashPage)
    (s' : StorageSimulator) : Type 0 where
  pub allocator : s'.allocator ≡ s.allocator
  pub self : page_at s'.channels l ≡ some (programmed p id)
  pub others : (m : Location) → l ≢ m → page_at s'.channels m ≡ page_at s.channels m

module _ (s : StorageSimulator) (l : Location) {c : FlashChannel}
    (e : get_elem? s.channels l.channel ≡ some c) where
  at-set_channel :
      (c' : FlashChannel) (view : FlashChannel → Option FlashPage)
      → at (set_channel s l.channel c').channels l.channel view ≡ view c'
  unfolding set_channel
  at-set_channel c' view =
      at-modify_self s.channels l.channel (λ _. c') view ∙ at-get s.channels l.channel _ e

  at-after_channel :
      (d : FlashDie) (id : ℕ) (view : FlashDie → Option FlashPage) {d₀ : FlashDie}
      → get_elem? c.dies l.die ≡ some d₀
      → at (after_channel c d l id).dies l.die view ≡ view (after_die d l id)
  unfolding after_channel set_die schedule_transfer
  at-after_channel d id view e' =
      at-modify_self c.dies l.die (λ _. after_die d l id) view ∙ at-get c.dies l.die _ e'

  at-after_channel_ne :
      (d : FlashDie) (id : ℕ) (view : FlashDie → Option FlashPage) (die : ℕ)
      → l.die ≢ die
      → at (after_channel c d l id).dies die view ≡ at c.dies die view
  unfolding after_channel set_die schedule_transfer
  at-after_channel_ne d id view die ne =
      at-modify_ne c.dies l.die die (λ _. after_die d l id) view ne

die_page-after_die :
    (d : FlashDie) (l : Location) (id pl blk pg : ℕ)
    → die_page pl blk pg (after_die d l id) ≡ die_page pl blk pg (in_die d l (write l.page id))
unfolding after_die schedule_program
die_page-after_die d l id pl blk pg = refl

module _ (s : StorageSimulator) (id : ℕ) (l : Location) {p : FlashPage} (c : FlashChannel)
    (d : FlashDie) (e₁ : get_elem? s.channels l.channel ≡ some c)
    (e₂ : get_elem? c.dies l.die ≡ some d) (h : die_page l.plane l.block l.page d ≡ some p)
    (f : p.state ≡ PageState.free) where
  placed_self :
      page_at (set_channel s l.channel (after_channel c d l id)).channels l ≡ some (programmed p id)
  unfolding page_at
  placed_self =
      at-set_channel s l e₁ _ (channel_page l.die l.plane l.block l.page)
      ∙ at-after_channel s l e₁ d id (die_page l.plane l.block l.page) e₂
      ∙ die_page-after_die d l id l.plane l.block l.page
      ∙ program_die_self l id d h f

  placed_others :
      (m : Location)
      → l ≢ m
      → page_at (set_channel s l.channel (after_channel c d l id)).channels m ≡ page_at s.channels m
  unfolding page_at
  placed_others m ne = elim (ℕ_discrete l.channel m.channel) [
    | no a ↦ unfold set_channel in at-modify_ne s.channels l.channel m.channel _ _ a
    | yes a ↦ elim (ℕ_discrete l.die m.die) [
      | no b ↦ rw (← a) (
          at-set_channel s l e₁ _ (channel_page m.die m.plane m.block m.page)
          ∙ at-after_channel_ne s l e₁ d id (die_page m.plane m.block m.page) m.die b
          ∙ sym (at-get s.channels l.channel _ e₁))
      | yes b ↦ rw (← a) (
          rw (← b) (
            at-set_channel s l e₁ _ (channel_page l.die m.plane m.block m.page)
            ∙ at-after_channel s l e₁ d id (die_page m.plane m.block m.page) e₂
            ∙ die_page-after_die d l id m.plane m.block m.page
            ∙ program_die_ne l id d h f m.plane m.block m.page (λ k. ne (location_eq l m a b k))
            ∙ sym (at-get s.channels l.channel _ e₁ ∙ at-get c.dies l.die _ e₂)))
    ]
  ]

pub place_lem :
    (s : StorageSimulator) (id : ℕ) (l : Location) {p : FlashPage}
    → page_at s.channels l ≡ some p
    → p.state ≡ PageState.free
    → (s' : StorageSimulator) × (place s id l ≡ (s', ok tt)) × IsPlaced s id l p s'
unfolding page_at
place_lem s id l {p} h f =
    let (c, e₁, h₁) = at-some s.channels l.channel (channel_page l.die l.plane l.block l.page) h in
    let (d, e₂, h₂) = at-some c.dies l.die (die_page l.plane l.block l.page) h₁ in
    (
      set_channel s l.channel (after_channel c d l id),
      place-after s id l e₁ e₂,
      record {
        allocator = unfold set_channel in refl;
        self = placed_self s id l c d e₁ e₂ h₂ f;
        others = placed_others s id l c d e₁ e₂ h₂ f;
      },
    )
