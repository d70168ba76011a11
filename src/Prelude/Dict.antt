-- ===== src/Prelude/Dict.antt =====
-- Python's `dict`: an association list in insertion order. A write to a present key keeps its
-- place, a write to a new key goes to the end. The keys need a decidable equality.
use Prim.Native.Nat.{ℕ}
use mathlib.Core.Path.{◌≡◌, refl}
use mathlib.Core.List.{List, [], ◌∷◌}
use mathlib.Core.Logic.{ite, ◌⊎◌, inl, inr}
use mathlib.Core.Option.{Option, none, some}
use native.Mathlib.Decide.{ℕ_discrete}
use native.Mathlib.Omega.{arith}

pub record Key {ℓ} (K : Type ℓ) : Type ℓ where
  pub dec : Discrete K

instance abbrev pub nat_key : Key ℕ
nat_key = record { dec = ℕ_discrete }

pub pair_discrete : Discrete (ℕ × ℕ)
unfolding ℕ_discrete
pair_discrete = hlevel ℕ_discrete

instance abbrev pub pair_key : Key (ℕ × ℕ)
pair_key = record { dec = pair_discrete }

pub text_discrete : Discrete (List ℕ)
unfolding ℕ_discrete
text_discrete = hlevel ℕ_discrete

instance abbrev pub text_key : Key (List ℕ)
text_key = record { dec = text_discrete }

abbrev pub Dict {ℓ} : Type ℓ → Type ℓ → Type ℓ
Dict K V = List (K × V)

module _ {ℓ} {K V : Type ℓ} ⦃e : Key K⦄ where
  -- d.get(k)
  unfoldable pub lookup : K → Dict K V → Option V
  lookup k [] = none
  lookup k ((j, v) ∷ d) = ite (e.dec j k) (some v) (lookup k d)

  -- d[k] = v
  unfoldable pub insert : K → V → Dict K V → Dict K V
  insert k v [] = (k, v) ∷ []
  insert k v ((j, w) ∷ d) = ite (e.dec j k) ((j, v) ∷ d) ((j, w) ∷ insert k v d)

  -- d.pop(k, None), del d[k]
  unfoldable pub remove : K → Dict K V → Dict K V
  remove k [] = []
  remove k ((j, v) ∷ d) = let rest = remove k d in ite (e.dec j k) rest ((j, v) ∷ rest)

  pub lookup-insert :
      (k j : K) (v : V) (d : Dict K V)
      → lookup j (insert k v d) ≡ ite (e.dec k j) (some v) (lookup j d)
  unfolding lookup insert
  lookup-insert k j v [] = refl
  lookup-insert k j v ((i, w) ∷ d) = ground (arith, lookup-insert k j v d)

  pub lookup-remove :
      (k j : K) (d : Dict K V) → lookup j (remove k d) ≡ ite (e.dec k j) none (lookup j d)
  unfolding lookup remove
  lookup-remove k j [] = ground arith
  lookup-remove k j ((i, w) ∷ d) = ground (arith, lookup-remove k j d)

module _ {ℓ} {K V : Type ℓ} ⦃e : Key K⦄ where
  pub lookup-insert_self : (k : K) (v : V) (d : Dict K V) → lookup k (insert k v d) ≡ some v
  lookup-insert_self k v d = ground (arith, lookup-insert k k v d)

  pub lookup-insert_ne :
      (k j : K) (v : V) (d : Dict K V) → ¬ (k ≡ j) → lookup j (insert k v d) ≡ lookup j d
  lookup-insert_ne k j v d ne = ground (arith, lookup-insert k j v d)

  pub lookup-remove_ne : (k j : K) (d : Dict K V) → ¬ (k ≡ j) → lookup j (remove k d) ≡ lookup j d
  lookup-remove_ne k j d ne = ground (arith, lookup-remove k j d)

  pub lookup-cons_ne :
      (j k : K) (v : V) (d : Dict K V) → ¬ (j ≡ k) → lookup k ((j, v) ∷ d) ≡ lookup k d
  unfolding lookup
  lookup-cons_ne j k v d ne = ground arith

  pub lookup-cons_self : (k : K) (v : V) (d : Dict K V) → lookup k ((k, v) ∷ d) ≡ some v
  unfolding lookup
  lookup-cons_self k v d = ground arith

  -- What stands in a dict after a write is what was written, or stood there before.
  pub lookup-insert_inv :
      (k j : K) (v w : V) (d : Dict K V)
      → lookup j (insert k v d) ≡ some w
      → ((k ≡ j) × (v ≡ w)) ⊎ ((¬ (k ≡ j)) × (lookup j d ≡ some w))
  lookup-insert_inv k j v w d h = elim (e.dec k j) [
    | yes eq ↦ inl (eq, ground (arith, lookup-insert k j v d))
    | no ne ↦ inr (ne, ground (arith, lookup-insert k j v d))
  ]

pub ruleset dict_laws = (lookup-insert, lookup-remove)
