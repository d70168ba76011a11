-- ===== src/Provider/Picked.antt =====
-- person1_kv_engine/adapters/transformer_kv.py: rows that a selection picks from the rows of a layer.
use ai_ssd.Prelude.{
  ℕ, suc, ◌≡◌, refl, ap, List, [], ◌∷◌, ◌++◌, All, map, arith, length, take, some, ok,
}
use ai_ssd.Prelude.Dict.{Dict, nat_key, lookup}
use ai_ssd.Provider.Select.{blocks_for, rows_for}
use ai_ssd.Provider.Cutting.{rows_held}
use ai_ssd.Provider.Ordering.{Sub, done, keep, skip}

pub All-of_bids :
    (P : ℕ → Type 0) (cands : List (ℕ × ℕ)) → All P (map (λ c. c.0) cands) → All (λ c. P c.0) cands
All-of_bids P [] all = tt
All-of_bids P (c ∷ cands) all = (all.0, All-of_bids P cands all.1)

pub length-map : {A C : Type 0} (f : A → C) (xs : List A) → length (map f xs) ≡ length xs
length-map f [] = refl
length-map f (x ∷ xs) = ap suc (length-map f xs)

module _ {T : Type 0} where
  -- rows of keys and of values at the same places of two sequences, in their order
  pub data Picked : List T → List T → List T → List T → Type 0 where
    none_left : Picked [] [] [] []
    pick :
        {ks vs xs ys : List T} (k v : T)
        → Picked ks vs xs ys
        → Picked (k ∷ ks) (v ∷ vs) (k ∷ xs) (v ∷ ys)
    pass : {ks vs xs ys : List T} (x y : T) → Picked ks vs xs ys → Picked ks vs (x ∷ xs) (y ∷ ys)

  pub Picked-all : (xs ys : List T) → length xs ≡ length ys → Picked xs ys xs ys
  Picked-all [] [] same = none_left
  Picked-all [] (y ∷ ys) same = absurd (omega arith)
  Picked-all (x ∷ xs) [] same = absurd (omega arith)
  Picked-all (x ∷ xs) (y ∷ ys) same = pick x y (Picked-all xs ys (omega arith))

  pub Picked-append :
      {ks vs xs ys ks' vs' xs' ys' : List T}
      → Picked ks vs xs ys
      → Picked ks' vs' xs' ys'
      → Picked (ks ++ ks') (vs ++ vs') (xs ++ xs') (ys ++ ys')
  Picked-append none_left q = q
  Picked-append (pick k v p) q = pick k v (Picked-append p q)
  Picked-append (pass x y p) q = pass x y (Picked-append p q)

  Picked-prepend :
      (xs ys : List T) {ks vs xs' ys' : List T}
      → length xs ≡ length ys
      → Picked ks vs xs' ys'
      → Picked ks vs (xs ++ xs') (ys ++ ys')
  Picked-prepend [] [] same p = p
  Picked-prepend [] (y ∷ ys) same p = absurd (omega arith)
  Picked-prepend (x ∷ xs) [] same p = absurd (omega arith)
  Picked-prepend (x ∷ xs) (y ∷ ys) same p = pass x y (Picked-prepend xs ys (omega arith) p)

  -- The rows of a part of the blocks are picked from the rows of the blocks.
  pub Picked-rows_held :
      (f g : ℕ → List T) {chosen cands : List (ℕ × ℕ)}
      → Sub chosen cands
      → All (λ c. length (take c.1 (f c.0)) ≡ length (take c.1 (g c.0))) cands
      → Picked (rows_held f chosen) (rows_held g chosen) (rows_held f cands) (rows_held g cands)
  Picked-rows_held f g done even = none_left
  Picked-rows_held f g (keep c s) even =
      Picked-append (Picked-all (take c.1 (f c.0)) (take c.1 (g c.0)) even.0)
        (Picked-rows_held f g s even.1)
  Picked-rows_held f g (skip c s) even =
      Picked-prepend (take c.1 (f c.0)) (take c.1 (g c.0)) even.0 (Picked-rows_held f g s even.1)

  pub blocks_for_lem :
      (f : ℕ → List T) (pages : Dict ℕ (List T)) (bids : List ℕ)
      → All (λ i. lookup i pages ≡ some (f i)) bids
      → blocks_for pages bids ≡ ok (map f bids)
  unfolding blocks_for
  blocks_for_lem f pages [] all = refl
  blocks_for_lem f pages (i ∷ bids) all =
      rw (blocks_for, all.0, blocks_for_lem f pages bids all.1) refl

  pub rows_for_lem :
      (f : ℕ → List T) (pages : Dict ℕ (List T)) (chosen : List (ℕ × ℕ))
      → All (λ c. lookup c.0 pages ≡ some (f c.0)) chosen
      → rows_for pages chosen ≡ ok (rows_held f chosen)
  unfolding rows_for
  rows_for_lem f pages [] all = refl
  rows_for_lem f pages ((i, n) ∷ chosen) all =
      rw (rows_for, all.0, rows_for_lem f pages chosen all.1) refl
