-- ===== src/Location/RoundTrip.antt =====
-- Reading a location back from its text (person2_ssd/storage_model/io_model.py, latency.py and
-- person2_ssd/kv_allocator/tensor_mapping.py), so that two coordinates never share a text.
use ai_ssd.Prelude.{
  ℕ, zero, suc, ◌+◌, ◌/◌, ◌%◌, ◌≤◌, ◌<◌, ◌≡◌, refl, ap, ◌∙◌, inl, inr, true, some, [], ◌∷◌, ◌++◌,
  arith, ltb, ltb→lt, ◌-◌, ◌*◌, Bool-cases,
}
use ai_ssd.Location.Text.{Text, digits, decimal, Location, to_location_str}
use ai_ssd.Location.Parse.{
  more_digits, number, optional_ane, match_address, parse_physical_location, extract_channel,
  is_digit,
}

digits-append : (f n : ℕ) (out rest : Text) → digits f n out ++ rest ≡ digits f n (out ++ rest)
unfolding digits
digits-append zero n out rest = refl
digits-append (suc f) n out rest = elim (Bool-cases (ltb n 10)) [
  | inl e ↦ rw e
  | inr e ↦ rw e (digits-append f (n / 10) _ rest)
]

decimal-append : (n : ℕ) (rest : Text) → decimal n ++ rest ≡ digits n n rest
unfolding decimal
decimal-append n rest = digits-append n n [] rest

is_digit-digit : (n : ℕ) → is_digit (b'0' + n % 10) ≡ true
is_digit-digit n = ground arith

number-digit :
    (n : ℕ) (out : Text) → n < 10 → number ((b'0' + n % 10) ∷ out) ≡ some (more_digits n out)
unfolding number
number-digit n out h =
    let e : b'0' + n % 10 - b'0' ≡ n = omega arith in rw (is_digit-digit n) (rw e)

more_digits-digit :
    (n : ℕ) (out : Text) → more_digits (n / 10) ((b'0' + n % 10) ∷ out) ≡ more_digits n out
unfolding more_digits
more_digits-digit n out =
    let e : n / 10 * 10 + (b'0' + n % 10 - b'0') ≡ n = omega arith in
    rw (is_digit-digit n, more_digits) (rw e)

-- The digits of a number read as that number, whatever follows them.
number-digits : (f n : ℕ) (out : Text) → n ≤ f → number (digits f n out) ≡ some (more_digits n out)
unfolding digits
number-digits zero n out h = number-digit n out (omega arith)
number-digits (suc f) n out h = elim (Bool-cases (ltb n 10)) [
  | inl e ↦ rw e (number-digit n out (ltb→lt n 10 e))
  | inr e ↦ rw e (number-digits f (n / 10) _ (ground arith) ∙ ap some (more_digits-digit n out))
]

optional_ane-digits : (f n : ℕ) (out : Text) → optional_ane (digits f n out) ≡ digits f n out
unfolding digits optional_ane
optional_ane-digits zero n out = ground arith
optional_ane-digits (suc f) n out = elim (Bool-cases (ltb n 10)) [
  | inl e ↦ rw e (ground arith)
  | inr e ↦ rw e (optional_ane-digits f (n / 10) _)
]

-- the decimal of a number in front of a text that goes on with no digit
number-decimal :
    (n : ℕ) (rest : Text)
    → more_digits n rest ≡ (n, rest)
    → number (decimal n ++ rest) ≡ some (n, rest)
number-decimal n rest h =
    rw (decimal-append n rest) (number-digits n n rest (omega arith) ∙ ap some h)

number-decimal_end : (n : ℕ) → number (decimal n) ≡ some (n, [])
unfolding decimal more_digits
number-decimal_end n = number-digits n n [] (omega arith)

optional_ane-decimal : (n : ℕ) (rest : Text) → optional_ane (decimal n ++ rest) ≡ decimal n ++ rest
optional_ane-decimal n rest = rw (decimal-append n rest) (optional_ane-digits n n rest)

match_address-to_location_str : (l : Location) → match_address (to_location_str l) ≡ some l
unfolding match_address to_location_str
match_address-to_location_str l = simp (number-decimal, number-decimal_end, optional_ane-decimal)

parse-of_match :
    (s : Text) (l : Location) → match_address s ≡ some l → parse_physical_location s ≡ some l
unfolding parse_physical_location
parse-of_match [] l h = cc
parse-of_match (c ∷ s) l h = rw (h, parse_physical_location)

-- Searching the text of a coordinate finds exactly that coordinate.
pub parse-to_location_str : (l : Location) → parse_physical_location (to_location_str l) ≡ some l
parse-to_location_str l = parse-of_match _ l (match_address-to_location_str l)

-- The channel that the latency model reads from the text of a coordinate is its channel.
extract_channel-to_location_str : (l : Location) → extract_channel (to_location_str l) ≡ l.channel
unfolding extract_channel to_location_str
extract_channel-to_location_str l = simp number-decimal

-- Two coordinates with one text are one coordinate.
pub to_location_str-injective : (l m : Location) → to_location_str l ≡ to_location_str m → l ≡ m
to_location_str-injective l m e = cc (parse-to_location_str l, parse-to_location_str m)
