-- ===== src/Provider/Cutting.antt =====
-- person1_kv_engine/adapters/transformer_kv.py: the blocks that a prefill offloads hold the history
-- of the sequence.
use ai_ssd.Prelude.{
  ℕ, zero, suc, ◌+◌, ◌≤◌, ◌<◌, min, ◌≡◌, ◌≢◌, ◌⊎◌, inl, inr, refl, sym, ap, ◌∙◌, List, [], ◌∷◌,
  ◌++◌, All, arith, length, take, drop, take-drop, take_past, take-append_front, length-take,
  length-drop,
}
use ai_ssd.Provider.Backend.{KvBackend, IsSound}
use ai_ssd.Provider.State.{padded, offload}

-- strictly ascending identifiers, the first not below a bound
abbrev pub Ascending : ℕ → List (ℕ × ℕ) → Type 0
Ascending from [] = Unit
Ascending from ((bid, n) ∷ cands) = (from ≤ bid) × Ascending (bid + 1) cands

module _ {T : Type 0} where
  -- the rows that the blocks of a list hold, where `block` gives the rows of a block
  abbrev pub rows_held : (ℕ → List T) → List (ℕ × ℕ) → List T
  rows_held block [] = []
  rows_held block ((bid, n) ∷ cands) = take n (block bid) ++ rows_held block cands

  pub take-padded :
      (n : ℕ) (blank : T) (rows : List T)
      → take (min n (length rows)) (padded n blank rows) ≡ take n rows
  unfolding padded
  take-padded n blank rows =
      take-append_front (min n (length rows)) (take n rows) _ (omega (arith, length-take n rows))
      ∙ prefix n rows
    where
      prefix : (m : ℕ) (xs : List T) → take (min m (length xs)) (take m xs) ≡ take m xs
      prefix m xs = take_past _ _ (omega (arith, length-take m xs))

  rows_held-cong :
      (f g : ℕ → List T) (from : ℕ) (cands : List (ℕ × ℕ))
      → Ascending from cands
      → ((i : ℕ) → from ≤ i → f i ≡ g i)
      → rows_held f cands ≡ rows_held g cands
  rows_held-cong f g from [] asc same = refl
  rows_held-cong f g from ((bid, n) ∷ cands) asc same =
      let first = same bid asc.0 in
      let rest =
        rows_held-cong f g (bid + 1) cands asc.1 (λ i h. same i (omega (arith, asc.0, h))) in
      λ i. take n (first i) ++ rest i

module _ {T B : Type 0} (be : KvBackend B (List T)) (sound : IsSound be) where
  open sound use {held, Fresh}

  abbrev pub keys_of : B → ℕ → ℕ → List T
  keys_of b l i = (held b l i).0

  abbrev pub values_of : B → ℕ → ℕ → List T
  values_of b l i = (held b l i).1

  -- a block has as many rows of keys as of values
  abbrev pub IsEven : B → ℕ → ℕ × ℕ → Type 0
  IsEven b l c = length (take c.1 (keys_of b l c.0)) ≡ length (take c.1 (values_of b l c.0))

  -- what an offload of the rows `ks` and `vs` leaves
  pub record Offloads (l bid : ℕ) (ks vs : List T) (before after : B) (cands : List (ℕ × ℕ))
      : Type 0 where
    pub fresh : Fresh after
    pub ascending : Ascending bid cands
    pub keys : rows_held (keys_of after l) cands ≡ ks
    pub values : rows_held (values_of after l) cands ≡ vs
    pub even : All (IsEven after l) cands
    -- other layers, and blocks in front of the first one, stay
    pub apart : (m i : ℕ) → (l ≢ m) ⊎ (i < bid) → held after m i ≡ held before m i

  -- One block is written in front of those that follow.
  Offloads-cons :
      (l bid n : ℕ) (blank : T) (ks vs : List T) (b after : B) (cands : List (ℕ × ℕ))
      → length ks ≡ length vs
      → Fresh b
      → Offloads l
          (bid + 1)
          (drop n ks)
          (drop n vs)
          (be.write_block b l bid (padded n blank ks) (padded n blank vs))
          after
          cands
      → Offloads l bid ks vs b after ((bid, min n (length ks)) ∷ cands)
  Offloads-cons l bid n blank ks vs b after cands same fresh rest =
      let pk = padded n blank ks in
      let pv = padded n blank vs in
      let size = min n (length ks) in
      let first : held after l bid ≡ (pk, pv) =
        rest.apart l bid (inr (omega arith)) ∙ sound.written b l bid pk pv fresh in
      let key_rows : take size (keys_of after l bid) ≡ take n ks =
        ap (λ (p : List T × List T). take size p.0) first ∙ take-padded n blank ks in
      let value_rows : take size (values_of after l bid) ≡ take n vs =
        ap (λ (p : List T × List T). take size p.1) first
        ∙ ap (λ m. take (min n m) pv) same
        ∙ take-padded n blank vs in
      record {
        fresh = rest.fresh;
        ascending = (omega arith, rest.ascending);
        keys = (λ i. key_rows i ++ rest.keys i) ∙ take-drop n ks;
        values = (λ i. value_rows i ++ rest.values i) ∙ take-drop n vs;
        even = (
          ap length key_rows
              ∙ omega (arith, length-take n ks, length-take n vs)
              ∙ sym (ap length value_rows),
          rest.even,
        );
        apart = λ m i h.
            rest.apart m i (later m i h) ∙ sound.written_ne b l bid m i pk pv fresh (other m i h);
      }
    where
      later : (m i : ℕ) → (l ≢ m) ⊎ (i < bid) → (l ≢ m) ⊎ (i < bid + 1)
      later m i (inl ne) = inl ne
      later m i (inr lt) = inr (omega arith)

      other : (m i : ℕ) → (l ≢ m) ⊎ (i < bid) → ◌≢◌ {A = ℕ × ℕ} (l, bid) (m, i)
      other m i (inl ne) e = ne (ap (λ (p : ℕ × ℕ). p.0) e)
      other m i (inr lt) e = let q : bid ≡ i = ap (λ (p : ℕ × ℕ). p.1) e in absurd (omega arith)

  pub offload_lem :
      (fuel n : ℕ) (blank : T) (l bid : ℕ) (ks vs : List T) (b : B)
      → 0 < n
      → length ks ≤ fuel
      → length ks ≡ length vs
      → Fresh b
      → Offloads l bid ks vs b
          (offload be fuel n blank l bid ks vs b).0
          (offload be fuel n blank l bid ks vs b).1
  unfolding offload
  offload_lem zero n blank l bid [] [] b pos enough same fresh = record {
    fresh = fresh;
    ascending = tt;
    keys = refl;
    values = refl;
    even = tt;
    apart = λ m i h. refl;
  }
  offload_lem zero n blank l bid [] (v ∷ vs) b pos enough same fresh = absurd (omega arith)
  offload_lem zero n blank l bid (k ∷ ks) vs b pos enough same fresh = absurd (omega arith)
  offload_lem (suc fuel) n blank l bid [] [] b pos enough same fresh = record {
    fresh = fresh;
    ascending = tt;
    keys = refl;
    values = refl;
    even = tt;
    apart = λ m i h. refl;
  }
  offload_lem (suc fuel) n blank l bid [] (v ∷ vs) b pos enough same fresh = absurd (omega arith)
  offload_lem (suc fuel) n blank l bid (k ∷ ks) vs b pos enough same fresh =
      Offloads-cons l bid n blank (k ∷ ks) vs b _ _ same fresh (
        offload_lem fuel n blank l (bid + 1) (drop n (k ∷ ks)) (drop n vs) _ pos
          (omega (arith, length-drop n (k ∷ ks)))
          (omega (arith, length-drop n (k ∷ ks), length-drop n vs))
          (sound.stays_fresh b l bid _ _ fresh))
