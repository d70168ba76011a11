-- ===== src/Prefetch/Ordered.antt =====
-- The part of Python's `OrderedDict` that the prefetchers use: a dict whose keys can be moved to
-- the end and taken off the front.
use ai_ssd.Prelude.{
  ◌≤◌, ◌<◌, ◌≡◌, ◌≢◌, refl, sym, Option, none, some, [], ◌∷◌, ◌++◌, arith, length, Bool, true,
  false, All, All-append,
}
use mathlib.Core.Path.{subst}
use mathlib.Core.Logic.{if_pos, if_neg}
use ai_ssd.Prelude.Dict.{Key, Dict, lookup, insert, remove, lookup-remove}

abbrev pub present {ℓ} : {V : Type ℓ} → Option V → Bool
present none = false
present (some v) = true

module _ {ℓ} {K V : Type ℓ} ⦃e : Key K⦄ where
  -- d.move_to_end(k), for a key that is there with the value v
  unfoldable pub move_to_end : K → V → Dict K V → Dict K V
  move_to_end k v d = remove k d ++ (k, v) ∷ []

  -- d.popitem(last=False); `None` where Python raises KeyError
  abbrev pub popitem : Dict K V → Option ((K × V) × Dict K V)
  popitem [] = none
  popitem ((k, v) ∷ d) = some ((k, v), d)

  -- a key stands at most once
  unfoldable pub IsDistinct : Dict K V → Type ℓ
  IsDistinct [] = Unit
  IsDistinct ((k, v) ∷ d) = (lookup k d ≡ none) × IsDistinct d

  pub remove-absent : (k : K) (d : Dict K V) → lookup k d ≡ none → remove k d ≡ d
  unfolding lookup remove
  remove-absent k [] h = refl
  remove-absent k ((j, v) ∷ d) h = ground (arith, remove-absent k d)

  pub insert-absent :
      (k : K) (v : V) (d : Dict K V) → lookup k d ≡ none → insert k v d ≡ d ++ (k, v) ∷ []
  unfolding lookup insert
  insert-absent k v [] h = refl
  insert-absent k v ((j, w) ∷ d) h = ground (arith, insert-absent k v d)

  pub length-remove-le : (k : K) (d : Dict K V) → length (remove k d) ≤ length d
  unfolding remove
  length-remove-le k [] = omega arith
  length-remove-le k ((j, v) ∷ d) = ground (arith, length-remove-le k d)

  pub length-remove_present :
      (k : K) (v : V) (d : Dict K V) → lookup k d ≡ some v → length (remove k d) < length d
  unfolding lookup remove
  length-remove_present k v [] h = cc
  length-remove_present k v ((j, w) ∷ d) h =
      ground (arith, length-remove_present k v d, length-remove-le k d)

  pub IsDistinct-remove : (k : K) (d : Dict K V) → IsDistinct d → IsDistinct (remove k d)
  unfolding remove IsDistinct
  IsDistinct-remove k [] h = tt
  IsDistinct-remove k ((j, v) ∷ d) h =
      ground (arith, IsDistinct-remove k d h.1, lookup-remove k j d)

  pub lookup-append_end :
      (k j : K) (v : V) (d : Dict K V)
      → lookup j d ≡ none
      → k ≢ j
      → lookup j (d ++ (k, v) ∷ []) ≡ none
  unfolding lookup
  lookup-append_end k j v [] h ne = ground arith
  lookup-append_end k j v ((i, w) ∷ d) h ne = ground (arith, lookup-append_end k j v d)

  pub lookup-append_self :
      (k : K) (v : V) (d : Dict K V) → lookup k d ≡ none → lookup k (d ++ (k, v) ∷ []) ≡ some v
  unfolding lookup
  lookup-append_self k v [] h = ground arith
  lookup-append_self k v ((i, w) ∷ d) h = ground (arith, lookup-append_self k v d)

  pub IsDistinct-append_end :
      (k : K) (v : V) (d : Dict K V)
      → IsDistinct d
      → lookup k d ≡ none
      → IsDistinct (d ++ (k, v) ∷ [])
  unfolding lookup IsDistinct
  IsDistinct-append_end k v [] hd h = (refl, tt)
  IsDistinct-append_end k v ((j, w) ∷ d) hd h =
      ground (arith, IsDistinct-append_end k v d hd.1, lookup-append_end k j v d hd.0)

-- a predicate on every item of a dict
module _ {ℓ κ} {K V : Type ℓ} ⦃e : Key K⦄ (P : K × V → Type κ) where
  pub All-lookup : (k : K) (v : V) (d : Dict K V) → All P d → lookup k d ≡ some v → P (k, v)
  unfolding lookup
  All-lookup k v [] all h = cc
  All-lookup k v ((j, w) ∷ d) all h = elim (e.dec j k) [
    | yes eq ↦
        let same : w ≡ v = ground arith in
        subst (λ x. P (k, x)) same (subst (λ x. P (x, w)) eq all.0)
    | no ne ↦ All-lookup k v d all.1 (ground arith)
  ]

  pub All-insert : (k : K) (v : V) (d : Dict K V) → All P d → P (k, v) → All P (insert k v d)
  unfolding insert
  All-insert k v [] all h = (h, tt)
  All-insert k v ((j, w) ∷ d) all h = elim (e.dec j k) [
    | yes eq ↦ rw (if_pos _ eq) (subst (λ x. P (x, v)) (sym eq) h, all.1)
    | no ne ↦ rw (if_neg _ ne) (all.0, All-insert k v d all.1 h)
  ]

  pub All-remove : (k : K) (d : Dict K V) → All P d → All P (remove k d)
  unfolding remove
  All-remove k [] all = tt
  All-remove k ((j, w) ∷ d) all = elim (e.dec j k) [
    | yes eq ↦ rw (if_pos _ eq) (All-remove k d all.1)
    | no ne ↦ rw (if_neg _ ne) (all.0, All-remove k d all.1)
  ]

  pub All-move_to_end :
      (k : K) (v : V) (d : Dict K V) → All P d → P (k, v) → All P (move_to_end k v d)
  unfolding move_to_end
  All-move_to_end k v d all h = All-append P (remove k d) _ (All-remove k d all) (h, tt)
