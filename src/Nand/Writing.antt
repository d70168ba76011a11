-- ===== src/Nand/Writing.antt =====
-- Writes into an erase block (person2_ssd/nand/block.py): the pages from `free_page_index` on are
-- free, which is what lets `allocate_page` program without a raise.
use ai_ssd.Prelude.{
  ℕ, zero, suc, ◌+◌, ◌≤◌, ◌<◌, ◌≡◌, ◌≢◌, refl, sym, ◌∙◌, ◌⊎◌, inl, inr, Option, none, some, List,
  [], ◌∷◌, map, arith, ok, length, get_elem?, modify, length-modify, get_elem?-modify_self,
  get_elem?-modify_ne, Option-cases,
}
use ai_ssd.Nand.Page.{PageState, FlashPage, or_else, program, erase_page}
use ai_ssd.Nand.Block.{
  FlashBlock, count_state, valid_page_count, free_page_count, allocate_page, erase,
}
use ai_ssd.Nand.Counts.{count_state-erase}

-- The pages that `allocate_page` has not reached are free.
pub record IsWritable (b : FlashBlock) : Type 0 where
  pub free_above :
      (i : ℕ) (p : FlashPage)
      → b.free_page_index ≤ i
      → get_elem? b.pages i ≡ some p
      → p.state ≡ PageState.free

-- `b'` is `b` with the page at its index programmed with `id`; the page is `p`.
pub record Writes (b : FlashBlock) (id : Option ℕ) (b' : FlashBlock) (p : FlashPage) : Type 0 where
  pub valid : p.state ≡ PageState.valid
  pub holds : p.data_block_id ≡ id
  pub placed : get_elem? b'.pages b.free_page_index ≡ some p
  pub others : (i : ℕ) → b.free_page_index ≢ i → get_elem? b'.pages i ≡ get_elem? b.pages i
  pub advanced : b'.free_page_index ≡ b.free_page_index + 1
  pub sized : length b'.pages ≡ length b.pages
  pub one_more : valid_page_count b' ≡ valid_page_count b + 1
  pub one_less : free_page_count b' + 1 ≡ free_page_count b
  pub worn : b'.erase_count ≡ b.erase_count

pub get_elem?-none_le {ℓ} :
    {A : Type ℓ} (xs : List A) (i : ℕ) → get_elem? xs i ≡ none → length xs ≤ i
get_elem?-none_le [] i h = omega arith
get_elem?-none_le (x ∷ xs) zero h = cc
get_elem?-none_le (x ∷ xs) (suc i) h = omega (arith, get_elem?-none_le xs i h)

pub get_elem?-some_lt {ℓ} :
    {A : Type ℓ} (xs : List A) (i : ℕ) {x : A} → get_elem? xs i ≡ some x → i < length xs
get_elem?-some_lt [] i h = cc
get_elem?-some_lt (x ∷ xs) zero h = omega arith
get_elem?-some_lt (x ∷ xs) (suc i) h = omega (arith, get_elem?-some_lt xs i h)

count_valid-modify :
    (ps : List FlashPage) (i : ℕ) (p q : FlashPage)
    → get_elem? ps i ≡ some p
    → p.state ≡ PageState.free
    → q.state ≡ PageState.valid
    → count_state PageState.valid (modify ps i (λ _. q)) ≡ count_state PageState.valid ps + 1
count_valid-modify [] i p q h f v = cc
count_valid-modify (r ∷ ps) zero p q h f v = ground arith
count_valid-modify (r ∷ ps) (suc i) p q h f v = ground (arith, count_valid-modify ps i p q h f v)

count_free-modify :
    (ps : List FlashPage) (i : ℕ) (p q : FlashPage)
    → get_elem? ps i ≡ some p
    → p.state ≡ PageState.free
    → q.state ≡ PageState.valid
    → count_state PageState.free (modify ps i (λ _. q)) + 1 ≡ count_state PageState.free ps
count_free-modify [] i p q h f v = cc
count_free-modify (r ∷ ps) zero p q h f v = ground arith
count_free-modify (r ∷ ps) (suc i) p q h f v = ground (arith, count_free-modify ps i p q h f v)

-- what `program` makes of a free page
programmed : FlashPage → Option ℕ → FlashPage
programmed p id = record p {
  state = PageState.valid;
  data_block_id = id;
  program_count = p.program_count + 1;
}

program-programmed :
    (p : FlashPage) (id : Option ℕ)
    → p.state ≡ PageState.free
    → program p id none ≡ ok (programmed p id)
unfolding program programmed
program-programmed p none h = ground arith
program-programmed p (some a) h = ground arith

written : FlashBlock → FlashPage → FlashBlock
written b q = record b {
  pages = modify b.pages b.free_page_index (λ _. q);
  free_page_index = b.free_page_index + 1;
}

written-Writes :
    (b : FlashBlock) (id : Option ℕ) (p : FlashPage)
    → get_elem? b.pages b.free_page_index ≡ some p
    → p.state ≡ PageState.free
    → Writes b id (written b (programmed p id)) (programmed p id)
unfolding written programmed valid_page_count free_page_count
written-Writes b id p h f = record {
  valid = refl;
  holds = refl;
  placed = get_elem?-modify_self b.pages b.free_page_index _ h;
  others = λ i ne. get_elem?-modify_ne b.pages b.free_page_index i _ ne;
  advanced = refl;
  sized = length-modify b.pages b.free_page_index _;
  one_more = count_valid-modify b.pages b.free_page_index p _ h f refl;
  one_less = count_free-modify b.pages b.free_page_index p _ h f refl;
  worn = refl;
}

written-IsWritable : (b : FlashBlock) (q : FlashPage) → IsWritable b → IsWritable (written b q)
unfolding written
written-IsWritable b q w = record {
  free_above = λ i p le h.
      w.free_above i p (omega arith)
        (sym (get_elem?-modify_ne b.pages b.free_page_index i _ (omega arith)) ∙ h);
}

-- What `allocate_page` may do: leave a full block, or write one page.
pub Allocates : FlashBlock → Option ℕ → Option ℕ → Type 0
Allocates b data_id logical_id =
    ((length b.pages ≤ b.free_page_index) × (allocate_page b data_id logical_id ≡ ok (b, none)))
    ⊎ ((b' : FlashBlock) × (p : FlashPage) × (allocate_page b data_id logical_id ≡ ok (b', some p))
        × Writes b (or_else data_id logical_id) b' p
        × IsWritable b')

-- On a writable block `allocate_page` never raises. A full block stays as it is and gives no page;
-- else the page at `free_page_index` is programmed with the given identifier, every other page
-- stays, one more page counts as valid and one less as free, and the block stays writable.
pub allocate_page_total :
    (b : FlashBlock) (data_id logical_id : Option ℕ) → IsWritable b → Allocates b data_id logical_id
unfolding Allocates allocate_page programmed written
allocate_page_total b d l w = elim (Option-cases (get_elem? b.pages b.free_page_index)) [
  | inl e ↦ inl (get_elem?-none_le b.pages b.free_page_index e, rw (e, allocate_page))
  | inr (p, e) ↦
      let id = or_else d l in
      let f = w.free_above b.free_page_index p (omega arith) e in
      inr (
        written b (programmed p id),
        programmed p id,
        rw (e, allocate_page) (rw (program-programmed p id f)),
        written-Writes b id p e f,
        written-IsWritable b (programmed p id) w,
      )
]

erased_free :
    (ps : List FlashPage) (i : ℕ) (p : FlashPage)
    → get_elem? (map erase_page ps) i ≡ some p
    → p.state ≡ PageState.free
unfolding erase_page
erased_free [] i p h = cc
erased_free (q ∷ ps) zero p h = ground arith
erased_free (q ∷ ps) (suc i) p h = erased_free ps i p h

count_valid-erase : (ps : List FlashPage) → count_state PageState.valid (map erase_page ps) ≡ 0
unfolding erase_page
count_valid-erase [] = refl
count_valid-erase (p ∷ ps) = count_valid-erase ps

-- Erasing makes every page free and takes the index back to the start: the block is writable and
-- empty, and has been erased once more.
pub erase_lem :
    (b : FlashBlock)
    → IsWritable (erase b)
      × (free_page_count (erase b) ≡ length b.pages)
      × (valid_page_count (erase b) ≡ 0)
      × ((erase b).free_page_index ≡ 0)
      × ((erase b).erase_count ≡ b.erase_count + 1)
unfolding erase free_page_count valid_page_count
erase_lem b = (
  record { free_above = λ i p le h. erased_free b.pages i p h },
  count_state-erase b.pages,
  count_valid-erase b.pages,
  refl,
  refl,
)
