-- ===== src/Nand/Page.antt =====
-- person2_ssd/nand/page.py. Times are whole microseconds.
use ai_ssd.Prelude.{
  ℕ, ◌+◌, Bool, true, false, ◌&&◌, Option, none, some, Result, ok, err, value_error, ◌==◌,
  if◌then◌else◌,
}

pub data PageState : Type 0 where
  free valid invalid : PageState

abbrev pub is_state : PageState → PageState → Bool
is_state PageState.free PageState.free = true
is_state PageState.valid PageState.valid = true
is_state PageState.invalid PageState.invalid = true
is_state _ _ = false

pub record FlashPage : Type 0 where
  pub page_id : ℕ
  pub size_bytes : ℕ
  pub state : PageState
  pub data_block_id : Option ℕ
  pub program_count : ℕ
  pub read_count : ℕ
  pub last_accessed_us : ℕ

-- `FlashPage(page_id, size_bytes)`
unfoldable pub new_page : ℕ → ℕ → FlashPage
new_page page_id size_bytes = record {
  page_id = page_id;
  size_bytes = size_bytes;
  state = PageState.free;
  data_block_id = none;
  program_count = 0;
  read_count = 0;
  last_accessed_us = 0;
}

-- `a if a is not None else b`
abbrev pub or_else : Option ℕ → Option ℕ → Option ℕ
or_else (some a) b = some a
or_else none b = b

-- The two optional arguments are two spellings of the identifier.
unfoldable pub program : FlashPage → Option ℕ → Option ℕ → Result FlashPage
program p data_block_id block_id = elim (is_state p.state PageState.free) [
  | true ↦ ok (record p {
    state = PageState.valid;
    data_block_id = or_else data_block_id block_id;
    program_count = p.program_count + 1;
  })
  | false ↦ err value_error
]

unfoldable pub read : FlashPage → ℕ → FlashPage × Option ℕ
read p current_time_us = (
  record p { read_count = p.read_count + 1; last_accessed_us = current_time_us },
  if is_state p.state PageState.valid then p.data_block_id else none,
)

unfoldable pub invalidate : FlashPage → FlashPage
invalidate p = record p { state = PageState.invalid; data_block_id = none }

unfoldable pub erase_page : FlashPage → FlashPage
erase_page p = record p { state = PageState.free; data_block_id = none; read_count = 0 }

-- `__eq__` on an integer and on another page
unfoldable pub eq_int : FlashPage → ℕ → Bool
eq_int p other = p.page_id == other

abbrev eq_option : Option ℕ → Option ℕ → Bool
eq_option none none = true
eq_option (some a) (some b) = a == b
eq_option _ _ = false

unfoldable pub eq_page : FlashPage → FlashPage → Bool
eq_page p other =
    p.page_id == other.page_id
    && is_state p.state other.state
    && eq_option p.data_block_id other.data_block_id
