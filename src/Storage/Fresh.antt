-- ===== src/Storage/Fresh.antt =====
-- A new simulator is sound (person2_ssd/storage_model/io_model.py, `__init__`): its flash has a
-- free page at every location of the geometry that its allocator uses.
use ai_ssd.Prelude.{ℕ, zero, suc, ◌+◌, ◌<◌, ◌≡◌, refl, ◌∙◌, Option, some, arith, get_elem?}
use ai_ssd.Prelude.Dict.{lookup}
use ai_ssd.Location.Text.{Location}
use ai_ssd.Nand.Page.{FlashPage, PageState, new_page}
use ai_ssd.Nand.Block.{FlashBlock, new_pages, new_block}
use ai_ssd.Nand.Die.{FlashDie, FlashPlane, new_blocks, new_plane, new_planes, new_die}
use ai_ssd.Channel.Defs.{FlashChannel, new_dies, new_channel}
use ai_ssd.Ftl.Base.{new_base, translate}
use ai_ssd.Ftl.Conventional.{new_conventional}
use ai_ssd.Ftl.Allocator.{other_mode, new_allocator, default_geometry}
use ai_ssd.Ftl.Linear.{IsWithin, linear_location-IsWithin}
use ai_ssd.Ftl.Consistency.{new_conventional-IsSequential}
use ai_ssd.Storage.Simulator.{new_channels, new_simulator}
use ai_ssd.Storage.Pages.{at, block_page, plane_page, die_page, channel_page, page_at}
use ai_ssd.Storage.Integrity.{IsSound}

at-new_pages :
    (n i k : ℕ)
    → k < n
    → (p : FlashPage) × (get_elem? (new_pages n i) k ≡ some p) × (p.state ≡ PageState.free)
unfolding new_pages new_page
at-new_pages zero i k h = elim h [ ]
at-new_pages (suc n) i zero h = (new_page i 4096, refl, refl)
at-new_pages (suc n) i (suc k) h = at-new_pages n (i + 1) k (omega arith)

at-new_blocks :
    (n i k : ℕ) (view : FlashBlock → Option FlashPage)
    → k < n
    → (j : ℕ) × (at (new_blocks n i) k view ≡ view (new_block j 128 3000))
unfolding new_blocks
at-new_blocks zero i k view h = elim h [ ]
at-new_blocks (suc n) i zero view h = (i, refl)
at-new_blocks (suc n) i (suc k) view h = at-new_blocks n (i + 1) k view (omega arith)

at-new_planes :
    (n m i k : ℕ) (view : FlashPlane → Option FlashPage)
    → k < n
    → (j : ℕ) × (at (new_planes n m i) k view ≡ view (new_plane j m))
unfolding new_planes
at-new_planes zero m i k view h = elim h [ ]
at-new_planes (suc n) m i zero view h = (i, refl)
at-new_planes (suc n) m i (suc k) view h = at-new_planes n m (i + 1) k view (omega arith)

at-new_dies :
    (n a b i k : ℕ) (view : FlashDie → Option FlashPage)
    → k < n
    → (j : ℕ) × (at (new_dies n a b i) k view ≡ view (new_die j a b))
unfolding new_dies
at-new_dies zero a b i k view h = elim h [ ]
at-new_dies (suc n) a b i zero view h = (i, refl)
at-new_dies (suc n) a b i (suc k) view h = at-new_dies n a b (i + 1) k view (omega arith)

at-new_channels :
    (n a b c i k : ℕ) (view : FlashChannel → Option FlashPage)
    → k < n
    → (j : ℕ) × (at (new_channels n a b c i) k view ≡ view (new_channel j a b c))
unfolding new_channels
at-new_channels zero a b c i k view h = elim h [ ]
at-new_channels (suc n) a b c i zero view h = (i, refl)
at-new_channels (suc n) a b c i (suc k) view h =
    at-new_channels n a b c (i + 1) k view (omega arith)

-- new flash is free at every location of the default geometry
new_channels_free :
    (channels : ℕ) (l : Location)
    → IsWithin (default_geometry channels) l
    → (p : FlashPage) × (page_at (new_channels channels 4 2 64 0) l ≡ some p)
      × (p.state ≡ PageState.free)
unfolding page_at new_channel new_die new_plane new_block
new_channels_free channels l w =
    let (c, e₁) =
      at-new_channels channels 4 2 64 0 l.channel (channel_page l.die l.plane l.block l.page)
        w.channel in
    let (d, e₂) = at-new_dies 4 2 64 0 l.die (die_page l.plane l.block l.page) w.die in
    let (pl, e₃) = at-new_planes 2 64 0 l.plane (plane_page l.block l.page) w.plane in
    let (b, e₄) = at-new_blocks 64 0 l.block (block_page l.page) w.block in
    let (p, e₅, free) = at-new_pages 128 0 l.page w.page in (p, e₁ ∙ e₂ ∙ e₃ ∙ e₄ ∙ e₅, free)

-- A new simulator with the default dies, planes and blocks, over the sequential layer, is sound.
pub new_simulator-IsSound :
    (channels : ℕ)
    → IsSound
        (new_simulator other_mode channels 4 2 64)
        (new_conventional (default_geometry channels))
unfolding new_simulator new_allocator new_conventional new_base translate lookup
new_simulator-IsSound channels = record {
  layer = refl;
  sequential = new_conventional-IsSequential (default_geometry channels);
  holds = λ b l h. absurd (cc);
  blank = λ n le lt.
      new_channels_free channels _ (linear_location-IsWithin (default_geometry channels) n lt);
}
