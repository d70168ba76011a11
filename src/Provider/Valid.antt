-- ===== src/Provider/Valid.antt =====
-- person1_kv_engine/adapters/sliding_window_kv.py: the loop that keeps the blocks which reach into
-- the window.
use ai_ssd.Prelude.{
  Among, false, ℕ, ◌+◌, ◌-◌, ◌*◌, ◌≤◌, ◌<◌, ◌≡◌, ◌↔◌, sym, ap, ◌∙◌, true, Bool-cases, inl, inr,
  List, [], ◌∷◌, All, arith,
}
use ai_ssd.Prelude.Dict.{nat_key}
use ai_ssd.Provider.Cutting.{Ascending}
use ai_ssd.Provider.Window.{in_window, valid_blocks}

-- A block is kept exactly where one of its tokens lies in the window.
pub in_window_iff :
    (sink size start bid n : ℕ)
    → 0 < n
    → (in_window sink size start (bid, n) ≡ true)
      ↔ ((t : ℕ) × (sink + bid * size ≤ t) × (t < sink + bid * size + n) × (start ≤ t))
unfolding in_window
in_window_iff sink size start bid n pos = (
  λ h. (sink + bid * size + n - 1, omega arith, omega arith, ground arith),
  λ x. let (t, from, to, late) = x in ground arith,
)

pub Ascending-valid_blocks :
    (sink size start from : ℕ) (cands : List (ℕ × ℕ))
    → Ascending from cands
    → Ascending from (valid_blocks sink size start cands)
unfolding valid_blocks
Ascending-valid_blocks sink size start from [] asc = tt
Ascending-valid_blocks sink size start from (c ∷ cands) asc =
    elim (Bool-cases (in_window sink size start c)) [
      | inl kept ↦ rw kept (asc.0, Ascending-valid_blocks sink size start (c.0 + 1) cands asc.1)
      | inr gone ↦ rw gone (
          Ascending-weaken (c.0 + 1) from _ (omega (arith, asc.0))
            (Ascending-valid_blocks sink size start (c.0 + 1) cands asc.1))
    ]
  where
    Ascending-weaken : (a b : ℕ) (xs : List (ℕ × ℕ)) → b ≤ a → Ascending a xs → Ascending b xs
    Ascending-weaken a b [] le h = tt
    Ascending-weaken a b (x ∷ xs) le h = (omega (arith, h.0), h.1)

pub All-valid_blocks :
    (P : ℕ × ℕ → Type 0) (sink size start : ℕ) (cands : List (ℕ × ℕ))
    → All P cands
    → All P (valid_blocks sink size start cands)
unfolding valid_blocks
All-valid_blocks P sink size start [] all = tt
All-valid_blocks P sink size start (c ∷ cands) all =
    elim (Bool-cases (in_window sink size start c)) [
      | inl kept ↦ rw kept (all.0, All-valid_blocks P sink size start cands all.1)
      | inr gone ↦ rw gone (All-valid_blocks P sink size start cands all.1)
    ]

pub Among-valid_blocks :
    (sink size start bid n : ℕ) (cands : List (ℕ × ℕ))
    → Among (bid, n) (valid_blocks sink size start cands)
      ↔ (Among (bid, n) cands × (in_window sink size start (bid, n) ≡ true))
unfolding valid_blocks
Among-valid_blocks sink size start bid n [] = (λ h. absurd h, λ h. absurd h.0)
Among-valid_blocks sink size start bid n (c ∷ cands) =
    let (into, back) = Among-valid_blocks sink size start bid n cands in
    elim (Bool-cases (in_window sink size start c)) [
      | inl kept ↦
          rw (valid_blocks, kept)
            (
              λ h. elim h [
                | inl e ↦ (inl e, ap (in_window sink size start) e ∙ kept)
                | inr h1 ↦ (inr (into h1).0, (into h1).1)
              ],
              λ h. elim h.0 [ inl e ↦ inl e | inr h1 ↦ inr (back (h1, h.1)) ],
            )
      | inr gone ↦
          rw (valid_blocks, gone)
            (
              λ h. (inr (into h).0, (into h).1),
              λ h. elim h.0 [
                | inl e ↦ absurd (ne-true (sym (h.1) ∙ ap (in_window sink size start) e ∙ gone))
                | inr h1 ↦ back (h1, h.1)
              ],
            )
    ]
  where
    ne-true : ¬ (true ≡ false)
    ne-true e = ground arith
