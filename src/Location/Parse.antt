-- ===== src/Location/Parse.antt =====
-- `ADDRESS_PATTERN` and `parse_physical_location` of person2_ssd/storage_model/io_model.py, and
-- `CHANNEL_REGEX` and `extract_channel` of person2_ssd/storage_model/latency.py. The patterns are
-- read on ASCII text, where `\d` is 0 to 9 and IGNORECASE folds A to Z. No part of them can match
-- in two ways that both go on (a run of digits is followed by a letter, an underscore or the end),
-- so a match needs no backtracking; `search` takes the first position where the pattern matches.
use ai_ssd.Prelude.{
  ℕ, ◌+◌, ◌-◌, ◌*◌, ◌≡◌, refl, Bool, true, false, ◌&&◌, Option, none, some, [], ◌∷◌, leb, ◌==◌,
  if◌then◌else◌,
}
use ai_ssd.Location.Text.{Text, codes, Location}

infixl 5 ◌>>=◌
abbrev pub ◌>>=◌ : {A B : Type 0} → Option A → (A → Option B) → Option B
none >>= f = none
some a >>= f = f a

abbrev pub is_digit : ℕ → Bool
is_digit c = leb b'0' c && leb c b'9'

abbrev lower : ℕ → ℕ
lower c = if leb b'A' c && leb c b'Z' then c + 32 else c

-- a literal in lower case, in any case; what follows it
unfoldable pub literal : Text → Text → Option Text
literal [] s = some s
literal (c ∷ p) [] = none
literal (c ∷ p) (d ∷ s) = if lower d == c then literal p s else none

-- the digits that follow, read behind the number `n`
unfoldable pub more_digits : ℕ → Text → ℕ × Text
more_digits n [] = (n, [])
more_digits n (c ∷ s) = elim (is_digit c) [
  | true ↦ more_digits (n * 10 + (c - b'0')) s
  | false ↦ (n, c ∷ s)
]

-- `\d+` as an integer, and what follows it
unfoldable pub number : Text → Option (ℕ × Text)
unfolding more_digits
number [] = none
number (c ∷ s) = if is_digit c then some (more_digits (c - b'0') s) else none

-- `(?:ane)?`
unfoldable pub optional_ane : Text → Text
unfolding literal
optional_ane s = elim (literal (codes "ane") s) [ none ↦ s | some rest ↦ rest ]

-- `ADDRESS_PATTERN` at the start of a text
unfoldable pub match_address : Text → Option Location
unfolding literal number optional_ane
match_address s = do
  s₁ ← literal (codes "ch") s
  (ch, s₂) ← number s₁
  s₃ ← literal (codes "_die") s₂
  (die, s₄) ← number s₃
  s₅ ← literal (codes "_pl") s₄
  (pl, s₆) ← number (optional_ane s₅)
  s₇ ← literal (codes "_blk") s₆
  (blk, s₈) ← number s₇
  s₉ ← literal (codes "_pg") s₈
  (pg, _) ← number s₉
  some (record { channel = ch; die = die; plane = pl; block = blk; page = pg })

-- `.search`, and `None` on a text without a match
unfoldable pub parse_physical_location : Text → Option Location
unfolding match_address
parse_physical_location [] = none
parse_physical_location (c ∷ s) =
    let later = parse_physical_location s in
    elim (match_address (c ∷ s)) [ some l ↦ some l | none ↦ later ]

-- `(?:^|_)ch(\d+)` at a position that is not the start of the text
match_inner : Text → Option (ℕ × Text)
unfolding literal number
match_inner s = do rest ← literal (codes "_ch") s; number rest

search_inner : Text → Option (ℕ × Text)
unfolding match_inner
search_inner [] = none
search_inner (c ∷ s) =
    let later = search_inner s in elim (match_inner (c ∷ s)) [ some m ↦ some m | none ↦ later ]

-- the same at the start, where the underscore may be left out
match_first : Text → Option (ℕ × Text)
unfolding literal number
match_first s = do rest ← literal (codes "ch") s; number rest

abbrev channel_of : Option (ℕ × Text) → Option (ℕ × Text) → ℕ
channel_of (some (ch, _)) later = ch
channel_of none (some (ch, _)) = ch
channel_of none none = 0

unfoldable pub extract_channel : Text → ℕ
unfolding match_first search_inner
extract_channel loc = channel_of (match_first loc) (search_inner loc)

parse_examples :
    (parse_physical_location (codes "ssd_CH2_die1_plane0_blk12_pg4")
      ≡ some (record { channel = 2; die = 1; plane = 0; block = 12; page = 4 }))
    × (parse_physical_location (codes "ch2_die1_pl0_blk12") ≡ none)
    × (extract_channel (codes "pba_ch13_die1") ≡ 13)
    × (extract_channel (codes "CH2_die1") ≡ 2)
    × (extract_channel (codes "die1_xch2") ≡ 0)
unfolding parse_physical_location extract_channel
parse_examples = (refl, refl, refl, refl, refl)
