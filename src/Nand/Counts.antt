-- ===== src/Nand/Counts.antt =====
-- The page counters of an erase block (person2_ssd/nand/block.py).
use ai_ssd.Prelude.{suc, ◌+◌, ◌≡◌, refl, ap, List, [], ◌∷◌, map, arith, length}
use ai_ssd.Nand.Page.{PageState, FlashPage, erase_page}
use ai_ssd.Nand.Block.{
  FlashBlock, count_state, valid_page_count, invalid_page_count, free_page_count,
}

pub count_state_sum :
    (ps : List FlashPage)
    → count_state PageState.valid ps
        + count_state PageState.invalid ps
        + count_state PageState.free ps
      ≡ length ps
count_state_sum [] = omega arith
count_state_sum (p ∷ ps) = ground (arith, count_state_sum ps)

-- Every page is counted once: the valid, the invalid and the free pages add up to all pages.
pub page_counts_sum :
    (b : FlashBlock)
    → valid_page_count b + invalid_page_count b + free_page_count b ≡ length b.pages
unfolding valid_page_count invalid_page_count free_page_count
page_counts_sum b = count_state_sum b.pages

pub count_state-erase :
    (ps : List FlashPage) → count_state PageState.free (map erase_page ps) ≡ length ps
unfolding erase_page
count_state-erase [] = refl
count_state-erase (p ∷ ps) = ap suc (count_state-erase ps)
