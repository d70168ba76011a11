-- ===== src/Prelude/Lists.antt =====
-- Lists measured and indexed by native numbers, under the library's names.
use Prim.Native.Nat.{ℕ, zero, suc, ◌+◌, ◌-◌, ◌<◌, ◌≤◌, min}
use mathlib.Core.Path.{◌≡◌, refl, sym, ap, ◌∙◌, subst}
use mathlib.Core.Logic.{◌≢◌, ◌⊎◌, inl, inr}
use mathlib.Core.Bool.{Bool, true, false}
use mathlib.Core.List.{List, [], ◌∷◌, ◌++◌}
use mathlib.Core.Option.{Option, none, some}
use native.Mathlib.Omega.{arith}

module _ {ℓ} {A : Type ℓ} where
  abbrev pub length : List A → ℕ
  length [] = 0
  length (x ∷ xs) = suc (length xs)

  abbrev pub get_elem? : List A → ℕ → Option A
  get_elem? [] i = none
  get_elem? (x ∷ xs) zero = some x
  get_elem? (x ∷ xs) (suc i) = get_elem? xs i

  abbrev pub get_or : List A → ℕ → A → A
  get_or [] i d = d
  get_or (x ∷ xs) zero d = x
  get_or (x ∷ xs) (suc i) d = get_or xs i d

  -- A change of the item at an index; out of bounds nothing changes.
  abbrev pub modify : List A → ℕ → (A → A) → List A
  modify [] i f = []
  modify (x ∷ xs) zero f = f x ∷ xs
  modify (x ∷ xs) (suc i) f = x ∷ modify xs i f

  abbrev pub take : ℕ → List A → List A
  take zero xs = []
  take (suc n) [] = []
  take (suc n) (x ∷ xs) = x ∷ take n xs

  abbrev pub drop : ℕ → List A → List A
  drop zero xs = xs
  drop (suc n) [] = []
  drop (suc n) (x ∷ xs) = drop n xs

  abbrev pub replicate : ℕ → A → List A
  replicate zero a = []
  replicate (suc n) a = a ∷ replicate n a

  -- how many items pass a test
  abbrev pub count_if : (A → Bool) → List A → ℕ
  count_if p [] = 0
  count_if p (x ∷ xs) = elim (p x) [ true ↦ suc (count_if p xs) | false ↦ count_if p xs ]

module _ {ℓ κ} {A : Type ℓ} (P : A → Type κ) where
  abbrev pub All : List A → Type κ
  All [] = Unit
  All (x ∷ xs) = P x × All xs

  pub All-append : (xs ys : List A) → All xs → All ys → All (xs ++ ys)
  All-append [] ys hx hy = hy
  All-append (x ∷ xs) ys hx hy = (hx.0, All-append xs ys hx.1 hy)

-- an element is in a list
abbrev pub Among : {A : Type 0} → A → List A → Type 0
Among b [] = ⊥
Among b (c ∷ bids) = (b ≡ c) ⊎ Among b bids

pub All-Among {κ} :
    {A : Type 0} (P : A → Type κ) (b : A) (bids : List A) → Among b bids → All P bids → P b
All-Among P b [] h all = absurd h
All-Among P b (c ∷ bids) (inl e) all = subst P (sym e) all.0
All-Among P b (c ∷ bids) (inr h) all = All-Among P b bids h all.1

pub All-map {ℓ κ μ} :
    {A : Type ℓ} (P : A → Type κ) (Q : A → Type μ) (xs : List A)
    → ((x : A) → P x → Q x)
    → All P xs
    → All Q xs
All-map P Q [] f h = tt
All-map P Q (x ∷ xs) f h = (f x h.0, All-map P Q xs f h.1)

pub All-Among_self : {A : Type 0} (bids : List A) → All (λ b. Among b bids) bids
All-Among_self [] = tt
All-Among_self (b ∷ bids) = (inl refl, All-map _ _ bids (λ c h. inr h) (All-Among_self bids))

module _ {ℓ} {A : Type ℓ} where
  pub length-append : (xs ys : List A) → length (xs ++ ys) ≡ length xs + length ys
  length-append [] ys = omega arith
  length-append (x ∷ xs) ys = omega (arith, length-append xs ys)

  pub length-modify : (xs : List A) (i : ℕ) (f : A → A) → length (modify xs i f) ≡ length xs
  length-modify [] i f = refl
  length-modify (x ∷ xs) zero f = refl
  length-modify (x ∷ xs) (suc i) f = ap suc (length-modify xs i f)

  pub length-replicate : (n : ℕ) (a : A) → length (replicate n a) ≡ n
  length-replicate zero a = refl
  length-replicate (suc n) a = ap suc (length-replicate n a)

  pub length-take : (n : ℕ) (xs : List A) → length (take n xs) ≡ min n (length xs)
  length-take zero xs = omega arith
  length-take (suc n) [] = omega arith
  length-take (suc n) (x ∷ xs) = omega (arith, length-take n xs)

  pub get_elem?-modify_self :
      (xs : List A) (i : ℕ) (f : A → A) {x : A}
      → get_elem? xs i ≡ some x
      → get_elem? (modify xs i f) i ≡ some (f x)
  get_elem?-modify_self [] i f h = cc
  get_elem?-modify_self (y ∷ xs) zero f h = cc
  get_elem?-modify_self (y ∷ xs) (suc i) f h = get_elem?-modify_self xs i f h

  pub get_elem?-modify_ne :
      (xs : List A) (i j : ℕ) (f : A → A) → i ≢ j → get_elem? (modify xs i f) j ≡ get_elem? xs j
  get_elem?-modify_ne [] i j f h = refl
  get_elem?-modify_ne (x ∷ xs) zero zero f h = absurd (h refl)
  get_elem?-modify_ne (x ∷ xs) zero (suc j) f h = refl
  get_elem?-modify_ne (x ∷ xs) (suc i) zero f h = refl
  get_elem?-modify_ne (x ∷ xs) (suc i) (suc j) f h =
      get_elem?-modify_ne xs i j f (λ e. h (ap suc e))

  pub get_elem?-some_of_lt :
      (xs : List A) (i : ℕ) → i < length xs → (x : A) × (get_elem? xs i ≡ some x)
  get_elem?-some_of_lt [] i h = elim h [ ]
  get_elem?-some_of_lt (x ∷ xs) zero h = (x, refl)
  get_elem?-some_of_lt (x ∷ xs) (suc i) h = get_elem?-some_of_lt xs i (omega arith)

  pub drop-nil : (n : ℕ) → drop {A = A} n [] ≡ []
  drop-nil zero = refl
  drop-nil (suc n) = refl

  pub take-nil : (n : ℕ) → take {A = A} n [] ≡ []
  take-nil zero = refl
  take-nil (suc n) = refl

  pub drop-drop : (a b : ℕ) (xs : List A) → drop a (drop b xs) ≡ drop (b + a) xs
  drop-drop a zero xs = ap (λ n. drop n xs) (omega arith)
  drop-drop a (suc b) [] = drop-nil a ∙ sym (drop-nil (suc b + a))
  drop-drop a (suc b) (x ∷ xs) =
      let shift : suc (b + a) ≡ suc b + a = omega arith in
      drop-drop a b xs ∙ ap (λ n. drop n (x ∷ xs)) shift

  pub take-split : (a c : ℕ) (xs : List A) → take a xs ++ take c (drop a xs) ≡ take (a + c) xs
  take-split zero c xs = ap (λ n. take n xs) (omega arith)
  take-split (suc a) c [] = take-nil c ∙ sym (take-nil (suc a + c))
  take-split (suc a) c (x ∷ xs) =
      let shift : suc (a + c) ≡ suc a + c = omega arith in
      ap (λ ys. x ∷ ys) (take-split a c xs) ∙ ap (λ n. take n (x ∷ xs)) shift

  pub take_past : (n : ℕ) (xs : List A) → length xs ≤ n → take n xs ≡ xs
  take_past n [] h = take-nil n
  take_past zero (x ∷ xs) h = absurd (omega (arith, h))
  take_past (suc n) (x ∷ xs) h = ap (λ ys. x ∷ ys) (take_past n xs (omega arith))

  pub length-drop : (n : ℕ) (xs : List A) → length (drop n xs) ≡ length xs - n
  length-drop zero xs = omega arith
  length-drop (suc n) [] = omega arith
  length-drop (suc n) (x ∷ xs) = omega (arith, length-drop n xs)

  pub take-drop : (n : ℕ) (xs : List A) → take n xs ++ drop n xs ≡ xs
  take-drop zero xs = refl
  take-drop (suc n) [] = refl
  take-drop (suc n) (x ∷ xs) = ap (λ ys. x ∷ ys) (take-drop n xs)

  -- A prefix of a list that is no longer does not see what stands behind.
  pub take-append_front : (n : ℕ) (xs ys : List A) → n ≤ length xs → take n (xs ++ ys) ≡ take n xs
  take-append_front zero xs ys h = refl
  take-append_front (suc n) [] ys h = absurd (omega arith)
  take-append_front (suc n) (x ∷ xs) ys h =
      ap (λ zs. x ∷ zs) (take-append_front n xs ys (omega arith))
