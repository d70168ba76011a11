-- ===== src/Nand/Block.antt =====
-- person2_ssd/nand/block.py: an erase block, its counters and its sequential writes.
use ai_ssd.Prelude.{
  ℕ, zero, suc, ◌+◌, Bool, Option, none, some, List, [], ◌∷◌, map, Result, ok, err, leb, ◌==◌,
  length, get_elem?, modify, count_if,
}
use ai_ssd.Nand.Page.{PageState, is_state, FlashPage, new_page, or_else, program, erase_page}

pub record FlashBlock : Type 0 where
  pub block_id : ℕ
  pub pages_count : ℕ
  pub max_erase_cycles : ℕ
  pub pages : List FlashPage
  pub erase_count : ℕ
  pub free_page_index : ℕ

abbrev pub ssd_page_size_bytes : ℕ
ssd_page_size_bytes = 4096

abbrev pub ssd_pages_per_block : ℕ
ssd_pages_per_block = 128

-- `[FlashPage(i, SSD_PAGE_SIZE_BYTES) for i in range(pages_count)]`, from the index `i` on
unfoldable pub new_pages : ℕ → ℕ → List FlashPage
new_pages zero i = []
new_pages (suc n) i = new_page i ssd_page_size_bytes ∷ new_pages n (i + 1)

unfoldable pub new_block : ℕ → ℕ → ℕ → FlashBlock
new_block block_id pages_count max_erase_cycles = record {
  block_id = block_id;
  pages_count = pages_count;
  max_erase_cycles = max_erase_cycles;
  pages = new_pages pages_count 0;
  erase_count = 0;
  free_page_index = 0;
}

abbrev pub count_state : PageState → List FlashPage → ℕ
count_state s = count_if (λ p. is_state p.state s)

unfoldable pub valid_page_count : FlashBlock → ℕ
valid_page_count b = count_state PageState.valid b.pages

unfoldable pub invalid_page_count : FlashBlock → ℕ
invalid_page_count b = count_state PageState.invalid b.pages

unfoldable pub free_page_count : FlashBlock → ℕ
free_page_count b = count_state PageState.free b.pages

unfoldable pub is_full : FlashBlock → Bool
is_full b = leb (length b.pages) b.free_page_index

unfoldable pub is_empty : FlashBlock → Bool
is_empty b = free_page_count b == length b.pages

unfoldable pub is_bad_block : FlashBlock → Bool
is_bad_block b = leb b.max_erase_cycles b.erase_count

-- A page that is out of reach of the index cannot be met behind the test on `free_page_index`.
-- `program` raises before it writes, so a raise leaves the block as it was.
unfoldable pub allocate_page :
    FlashBlock → Option ℕ → Option ℕ → Result (FlashBlock × Option FlashPage)
allocate_page b data_block_id logical_block_id = elim (get_elem? b.pages b.free_page_index) [
  | none ↦ ok (b, none)
  | some page ↦ elim (program page (or_else data_block_id logical_block_id) none) [
    | err e ↦ err e
    | ok page' ↦ ok (
      record b {
        pages = modify b.pages b.free_page_index (λ _. page');
        free_page_index = b.free_page_index + 1;
      },
      some page',
    )
  ]
]

unfoldable pub erase : FlashBlock → FlashBlock
erase b = record b {
  pages = map erase_page b.pages;
  free_page_index = 0;
  erase_count = b.erase_count + 1;
}
