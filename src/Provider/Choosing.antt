-- ===== src/Provider/Choosing.antt =====
-- person1_kv_engine/adapters/transformer_kv.py: the winners of a selection, sorted by their
-- identifiers, are a subsequence of the candidates.
use mathlib.Core.Path.{subst}
use mathlib.Core.List.{Permᴰ}
use ai_ssd.Prelude.{
  ℕ, ◌≤◌, ◌≡◌, refl, sym, ap, ◌∙◌, Bool, inl, inr, Bool-cases, List, [], ◌∷◌, arith, length, take,
  take_past, map, min, length-take,
}
use ai_ssd.Inference.TopK.{put, sort_scores}
use ai_ssd.Provider.Backend.{KvBackend}
use ai_ssd.Provider.Select.{sort_bids, scored, winners}
use ai_ssd.Provider.Ordering.{
  Sub, map-perm, take-map, length-perm, symm, perm-refl, Ascending-Distinct, sort_bids-Ascending,
  sort_bids-eq_of_perm, Sub-sort_bids-take,
}
use ai_ssd.Provider.Cutting.{Ascending}

module _ {Score : Type 0} (above : Score → Score → Bool) where
  put-perm : (x : Score × ℕ × ℕ) (ys : List (Score × ℕ × ℕ)) → Permᴰ (put above x ys) (x ∷ ys)
  unfolding put
  put-perm x [] = perm-refl _
  put-perm x (y ∷ ys) = elim (Bool-cases (above y.0 x.0)) [
    | inl e ↦ rw (put, e) (Permᴰ.trans (Permᴰ.cons refl (put-perm x ys)) (Permᴰ.swap refl refl))
    | inr e ↦ rw (put, e) (perm-refl _)
  ]

  sort_scores-perm : (xs : List (Score × ℕ × ℕ)) → Permᴰ (sort_scores above xs) xs
  unfolding sort_scores
  sort_scores-perm [] = Permᴰ.nil
  sort_scores-perm (x ∷ xs) =
      Permᴰ.trans (put-perm x (sort_scores above xs)) (Permᴰ.cons refl (sort_scores-perm xs))

module _ {T B Q Score : Type 0} (be : KvBackend B (List T)) (above : Score → Score → Bool)
    (score : Q → List T → ℕ → Score) where
  abbrev unscored : List (Score × ℕ × ℕ) → List (ℕ × ℕ)
  unscored = map (λ x. (x.1, x.2))

  unscored-scored :
      (q : Q) (cands : List (ℕ × ℕ)) (blocks : List (List T))
      → length blocks ≡ length cands
      → unscored (scored be above score q cands blocks) ≡ cands
  unfolding scored
  unscored-scored q [] blocks same = refl
  unscored-scored q (c ∷ cands) [] same = absurd (omega arith)
  unscored-scored q (c ∷ cands) (block ∷ blocks) same =
      ap (λ xs. c ∷ xs) (unscored-scored q cands blocks (omega arith))

  module _ (q : Q) (k from : ℕ) (cands : List (ℕ × ℕ)) (blocks : List (List T))
      (same : length blocks ≡ length cands) (asc : Ascending from cands) where
    ranked : List (ℕ × ℕ)
    ranked = unscored (sort_scores above (scored be above score q cands blocks))

    cands-perm-ranked : Permᴰ cands ranked
    unfolding ranked
    cands-perm-ranked = symm (
        subst (λ xs. Permᴰ ranked xs) (unscored-scored q cands blocks same)
          (map-perm _ (sort_scores-perm above (scored be above score q cands blocks))))

    winners-eq : winners be above score q k cands blocks ≡ take k ranked
    unfolding winners ranked
    winners-eq = take-map _ k (sort_scores above (scored be above score q cands blocks))

    -- The winners in the order of the sequence are a part of the candidates.
    pub winners-Sub : Sub (sort_bids (winners be above score q k cands blocks)) cands
    winners-Sub =
        subst (λ xs. Sub (sort_bids xs) cands) (sym winners-eq)
          (Sub-sort_bids-take k from ranked cands cands-perm-ranked asc)

    -- As many candidates win as may win.
    pub length-winners : length (winners be above score q k cands blocks) ≡ min k (length cands)
    length-winners =
        ap length winners-eq
        ∙ length-take k ranked
        ∙ ap (min k) (sym (length-perm cands-perm-ranked))

    -- Where all may win, all win.
    pub winners-all : length cands ≤ k → sort_bids (winners be above score q k cands blocks) ≡ cands
    winners-all enough =
        ap sort_bids
          (winners-eq ∙ take_past k ranked (omega (arith, length-perm cands-perm-ranked)))
        ∙ sym (sort_bids-eq_of_perm cands-perm-ranked (Ascending-Distinct from cands asc))
        ∙ sort_bids-Ascending from cands asc
