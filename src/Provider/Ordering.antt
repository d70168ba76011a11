-- ===== src/Provider/Ordering.antt =====
-- Rearrangements of lists, their sorting by identifiers (`sorted` in
-- person1_kv_engine/adapters/transformer_kv.py), and parts of a list in its order.
use mathlib.Core.Path.{subst}
use mathlib.Core.List.{Permᴰ}
use ai_ssd.Prelude.{
  ℕ, zero, suc, ◌+◌, ◌≤◌, ◌≡◌, ◌≢◌, refl, sym, ap, ◌∙◌, inl, inr, Bool-cases, List, [], ◌∷◌, ◌++◌,
  All, All-map, arith, length, take, drop, take-drop, leb, map,
}
use ai_ssd.Provider.Select.{put_bid, sort_bids}
use ai_ssd.Provider.Cutting.{Ascending}

-- a part of a list in its order
pub data Sub {A : Type 0} : List A → List A → Type 0 where
  done : Sub [] []
  keep : {xs ys : List A} (x : A) → Sub xs ys → Sub (x ∷ xs) (x ∷ ys)
  skip : {xs ys : List A} (y : A) → Sub xs ys → Sub xs (y ∷ ys)

module _ {A : Type 0} where
  Sub-nil : (ys : List A) → Sub [] ys
  Sub-nil [] = done
  Sub-nil (y ∷ ys) = skip y (Sub-nil ys)

  pub All-Sub : (P : A → Type 0) {xs ys : List A} → Sub xs ys → All P ys → All P xs
  All-Sub P done all = tt
  All-Sub P (keep x s) all = (all.0, All-Sub P s all.1)
  All-Sub P (skip y s) all = All-Sub P s all.1

  pub All-perm : (P : A → Type 0) {xs ys : List A} → Permᴰ xs ys → All P xs → All P ys
  All-perm P Permᴰ.nil all = tt
  All-perm P (Permᴰ.cons e p) all = (subst P e all.0, All-perm P p all.1)
  All-perm P (Permᴰ.swap e f) all = (subst P f all.1.0, (subst P e all.0, all.1.1))
  All-perm P (Permᴰ.trans p q) all = All-perm P q (All-perm P p all)

  pub perm-refl : (xs : List A) → Permᴰ xs xs
  perm-refl [] = Permᴰ.nil
  perm-refl (x ∷ xs) = Permᴰ.cons refl (perm-refl xs)

pub map-perm :
    {A C : Type 0} (f : A → C) {xs ys : List A} → Permᴰ xs ys → Permᴰ (map f xs) (map f ys)
map-perm f Permᴰ.nil = Permᴰ.nil
map-perm f (Permᴰ.cons e p) = Permᴰ.cons (ap f e) (map-perm f p)
map-perm f (Permᴰ.swap e g) = Permᴰ.swap (ap f e) (ap f g)
map-perm f (Permᴰ.trans p q) = Permᴰ.trans (map-perm f p) (map-perm f q)

pub take-map :
    {A C : Type 0} (f : A → C) (n : ℕ) (xs : List A) → map f (take n xs) ≡ take n (map f xs)
take-map f zero xs = refl
take-map f (suc n) [] = refl
take-map f (suc n) (x ∷ xs) = ap (λ ys. f x ∷ ys) (take-map f n xs)

-- no identifier stands twice
abbrev pub Distinct : List (ℕ × ℕ) → Type 0
Distinct [] = Unit
Distinct (x ∷ xs) = All (λ y. x.0 ≢ y.0) xs × Distinct xs

pub Distinct-perm : {xs ys : List (ℕ × ℕ)} → Permᴰ xs ys → Distinct xs → Distinct ys
Distinct-perm Permᴰ.nil d = tt
Distinct-perm (Permᴰ.cons {l₂ = ys} e p) d =
    (subst (λ x. All (λ y. x.0 ≢ y.0) ys) e (All-perm _ p d.0), Distinct-perm p d.1)
Distinct-perm (Permᴰ.swap {l = l} e f) d = (
  (
    λ same. d.0.0 (ap (λ x. x.0) e ∙ sym same ∙ sym (ap (λ x. x.0) f)),
    subst (λ x. All (λ y. x.0 ≢ y.0) l) f d.1.0,
  ),
  (subst (λ x. All (λ y. x.0 ≢ y.0) l) e d.0.1, d.1.1),
)
Distinct-perm (Permᴰ.trans p q) d = Distinct-perm q (Distinct-perm p d)

put_bid_comm :
    (x y : ℕ × ℕ) (zs : List (ℕ × ℕ))
    → x.0 ≢ y.0
    → put_bid x (put_bid y zs) ≡ put_bid y (put_bid x zs)
unfolding put_bid
put_bid_comm x y [] ne = ground arith
put_bid_comm x y (z ∷ zs) ne = ground (arith, put_bid_comm x y zs)

pub sort_bids-eq_of_perm :
    {xs ys : List (ℕ × ℕ)} → Permᴰ xs ys → Distinct xs → sort_bids xs ≡ sort_bids ys
unfolding sort_bids
sort_bids-eq_of_perm Permᴰ.nil d = refl
sort_bids-eq_of_perm (Permᴰ.cons e p) d =
    let rest = sort_bids-eq_of_perm p d.1 in λ i. put_bid (e i) (rest i)
sort_bids-eq_of_perm (Permᴰ.swap {a = a} {b = b} {l = l} e f) d =
    put_bid_comm a b (sort_bids l) d.0.0 ∙ (λ i. put_bid (f i) (put_bid (e i) (sort_bids l)))
sort_bids-eq_of_perm (Permᴰ.trans p q) d =
    sort_bids-eq_of_perm p d ∙ sort_bids-eq_of_perm q (Distinct-perm p d)

-- the first identifier is the lowest
abbrev AtMost : ℕ × ℕ → List (ℕ × ℕ) → Type 0
AtMost x xs = All (λ y. x.0 ≤ y.0) xs

abbrev Sorted : List (ℕ × ℕ) → Type 0
Sorted [] = Unit
Sorted (x ∷ xs) = AtMost x xs × Sorted xs

put_bid_front : (x : ℕ × ℕ) (xs : List (ℕ × ℕ)) → AtMost x xs → put_bid x xs ≡ x ∷ xs
unfolding put_bid
put_bid_front x [] h = refl
put_bid_front x (y ∷ ys) h = ground arith

Sorted-put_bid : (x : ℕ × ℕ) (xs : List (ℕ × ℕ)) → Sorted xs → Sorted (put_bid x xs)
unfolding put_bid
Sorted-put_bid x [] h = (tt, tt)
Sorted-put_bid x (y ∷ ys) h = elim (Bool-cases (leb x.0 y.0)) [
  | inl e ↦
      let le : x.0 ≤ y.0 = ground arith in
      rw (put_bid, e) ((le, All-map _ _ ys (λ z k. omega (arith, le, k)) h.0), h)
  | inr e ↦
      let lt : y.0 ≤ x.0 = ground arith in
      rw (put_bid, e) (AtMost-put_bid y x ys lt h.0, Sorted-put_bid x ys h.1)
]
  where
    AtMost-put_bid :
        (a b : ℕ × ℕ) (zs : List (ℕ × ℕ)) → a.0 ≤ b.0 → AtMost a zs → AtMost a (put_bid b zs)
    AtMost-put_bid a b [] le all = (le, tt)
    AtMost-put_bid a b (z ∷ zs) le all = elim (Bool-cases (leb b.0 z.0)) [
      | inl e ↦ rw (put_bid, e) (le, all)
      | inr e ↦ rw (put_bid, e) (all.0, AtMost-put_bid a b zs le all.1)
    ]

Sub-put_bid :
    (x : ℕ × ℕ) {xs ys : List (ℕ × ℕ)} → Sub xs ys → Sorted ys → Sub (put_bid x xs) (put_bid x ys)
unfolding put_bid
Sub-put_bid x done sorted = keep x done
Sub-put_bid x (keep z s) sorted = elim (Bool-cases (leb x.0 z.0)) [
  | inl e ↦ rw (put_bid, e) (keep x (keep z s))
  | inr e ↦ rw (put_bid, e) (keep z (Sub-put_bid x s sorted.1))
]
Sub-put_bid x (skip {xs = xs} y s) sorted = elim (Bool-cases (leb x.0 y.0)) [
  | inl e ↦
      let le : x.0 ≤ y.0 = ground arith in
      let low : AtMost x xs = All-map _ _ xs (λ z k. omega (arith, le, k)) (All-Sub _ s sorted.0) in
      rw (put_bid_front x xs low, put_bid, e) (keep x (skip y s))
  | inr e ↦ rw (put_bid, e) (skip y (Sub-put_bid x s sorted.1))
]

Sorted-sort_bids : (xs : List (ℕ × ℕ)) → Sorted (sort_bids xs)
unfolding sort_bids
Sorted-sort_bids [] = tt
Sorted-sort_bids (x ∷ xs) = Sorted-put_bid x (sort_bids xs) (Sorted-sort_bids xs)

Sub-sort_bids : (xs rest : List (ℕ × ℕ)) → Sub (sort_bids xs) (sort_bids (xs ++ rest))
unfolding sort_bids
Sub-sort_bids [] rest = Sub-nil _
Sub-sort_bids (x ∷ xs) rest = Sub-put_bid x (Sub-sort_bids xs rest) (Sorted-sort_bids (xs ++ rest))

pub Ascending-AtLeast :
    (from : ℕ) (xs : List (ℕ × ℕ)) → Ascending from xs → All (λ y. from ≤ y.0) xs
Ascending-AtLeast from [] asc = tt
Ascending-AtLeast from (x ∷ xs) asc =
    (asc.0, All-map _ _ xs (λ y k. omega (arith, asc.0, k)) (Ascending-AtLeast (x.0 + 1) xs asc.1))

pub Ascending-Distinct : (from : ℕ) (xs : List (ℕ × ℕ)) → Ascending from xs → Distinct xs
Ascending-Distinct from [] asc = tt
Ascending-Distinct from (x ∷ xs) asc = (
  All-map _ _ xs (λ y k e. absurd (omega (arith, k, e))) (Ascending-AtLeast (x.0 + 1) xs asc.1),
  Ascending-Distinct (x.0 + 1) xs asc.1,
)

pub sort_bids-Ascending : (from : ℕ) (xs : List (ℕ × ℕ)) → Ascending from xs → sort_bids xs ≡ xs
unfolding sort_bids
sort_bids-Ascending from [] asc = refl
sort_bids-Ascending from (x ∷ xs) asc =
    ap (put_bid x) (sort_bids-Ascending (x.0 + 1) xs asc.1)
    ∙ put_bid_front x xs
        (All-map _ _ xs (λ y k. omega (arith, k)) (Ascending-AtLeast (x.0 + 1) xs asc.1))

put_bid-perm : (x : ℕ × ℕ) (ys : List (ℕ × ℕ)) → Permᴰ (put_bid x ys) (x ∷ ys)
unfolding put_bid
put_bid-perm x [] = perm-refl _
put_bid-perm x (y ∷ ys) = elim (Bool-cases (leb x.0 y.0)) [
  | inl e ↦ rw (put_bid, e) (perm-refl _)
  | inr e ↦
      rw (put_bid, e) (Permᴰ.trans (Permᴰ.cons refl (put_bid-perm x ys)) (Permᴰ.swap refl refl))
]

sort_bids-perm : (xs : List (ℕ × ℕ)) → Permᴰ (sort_bids xs) xs
unfolding sort_bids
sort_bids-perm [] = Permᴰ.nil
sort_bids-perm (x ∷ xs) =
    Permᴰ.trans (put_bid-perm x (sort_bids xs)) (Permᴰ.cons refl (sort_bids-perm xs))

pub length-perm : {A : Type 0} {xs ys : List A} → Permᴰ xs ys → length xs ≡ length ys
length-perm Permᴰ.nil = refl
length-perm (Permᴰ.cons e p) = ap suc (length-perm p)
length-perm (Permᴰ.swap e f) = refl
length-perm (Permᴰ.trans p q) = length-perm p ∙ length-perm q

pub symm : {A : Type 0} {xs ys : List A} → Permᴰ xs ys → Permᴰ ys xs
symm Permᴰ.nil = Permᴰ.nil
symm (Permᴰ.cons e p) = Permᴰ.cons (sym e) (symm p)
symm (Permᴰ.swap e f) = Permᴰ.swap (sym f) (sym e)
symm (Permᴰ.trans p q) = Permᴰ.trans (symm q) (symm p)

-- A predicate of the sorted list holds of the list itself.
pub All-sort_bids : (P : ℕ × ℕ → Type 0) (xs : List (ℕ × ℕ)) → All P xs → All P (sort_bids xs)
All-sort_bids P xs all = All-perm P (symm (sort_bids-perm xs)) all

pub All-of_sort_bids : (P : ℕ × ℕ → Type 0) (xs : List (ℕ × ℕ)) → All P (sort_bids xs) → All P xs
All-of_sort_bids P xs all = All-perm P (sort_bids-perm xs) all

-- A prefix of a rearrangement, sorted, is a part of the ascending list in its order.
pub Sub-sort_bids-take :
    (k from : ℕ) (zs cands : List (ℕ × ℕ))
    → Permᴰ cands zs
    → Ascending from cands
    → Sub (sort_bids (take k zs)) cands
Sub-sort_bids-take k from zs cands p asc =
    let whole : sort_bids (take k zs ++ drop k zs) ≡ cands =
      ap sort_bids (take-drop k zs)
      ∙ sym (sort_bids-eq_of_perm p (Ascending-Distinct from cands asc))
      ∙ sort_bids-Ascending from cands asc in
    subst (λ xs. Sub (sort_bids (take k zs)) xs) whole (Sub-sort_bids (take k zs) (drop k zs))
