-- ===== src/Prefetch/Lru.antt =====
-- The staging buffer of the first prefetcher (person3_system/prefetch/prefetcher.py) as an LRU.
use ai_ssd.Prelude.{
  ◌+◌, ◌*◌, ltb, if◌then◌else◌, ℕ, zero, suc, ◌-◌, ◌≤◌, ◌<◌, ◌≡◌, refl, ap, ◌⊎◌, inl, inr, Bool,
  true, false, none, some, List, [], ◌∷◌, ◌++◌, leb, arith, length, length-append, drop, ok,
  Option-cases,
}
use ai_ssd.Prelude.Floats.{Float}
use ai_ssd.Prelude.Dict.{Dict, pair_key, lookup, insert, remove, lookup-remove}
use ai_ssd.Prefetch.Ordered.{
  move_to_end, IsDistinct, remove-absent, insert-absent, length-remove_present, IsDistinct-remove,
  lookup-append_self, IsDistinct-append_end,
}
use ai_ssd.Prefetch.Staging.{SpeculativePrefetcher, stage_key, stage_one, stage_blocks, add_to_set}

-- the buffer of a least recently used policy: the key moves to the end of the line, and the front
-- is cut so that `capacity` keys are left
unfoldable pub keep_recent : ℕ → ℕ × ℕ → Dict (ℕ × ℕ) Bool → Dict (ℕ × ℕ) Bool
keep_recent capacity key d =
    let line = remove key d ++ (key, true) ∷ [] in drop (length line - capacity) line

unfoldable pub IsLruBuffer : ℕ → Dict (ℕ × ℕ) Bool → Type 0
IsLruBuffer capacity d = IsDistinct d × (length d ≤ capacity)

abbrev pub StagesKey : ℕ → ℕ × ℕ → Dict (ℕ × ℕ) Bool → Type 0
StagesKey capacity key d =
    (stage_key capacity key d ≡ ok (keep_recent capacity key d))
    × IsLruBuffer capacity (keep_recent capacity key d)
    × (lookup key (keep_recent capacity key d) ≡ some true)

length-append_end : {A : Type 0} (xs : List A) (x : A) → length (xs ++ x ∷ []) ≡ suc (length xs)
length-append_end xs x = omega (arith, length-append xs (x ∷ []))

drop-none : {A : Type 0} (n : ℕ) (xs : List A) → n ≡ 0 → drop n xs ≡ xs
drop-none zero xs h = refl
drop-none (suc n) xs h = absurd (omega (arith, h))

keep_recent_present :
    (capacity : ℕ) (key : ℕ × ℕ) (v : Bool) (d : Dict (ℕ × ℕ) Bool)
    → length d ≤ capacity
    → lookup key d ≡ some v
    → keep_recent capacity key d ≡ move_to_end key true d
unfolding keep_recent move_to_end
keep_recent_present capacity key v d le found =
    drop-none (length (remove key d ++ (key, true) ∷ []) - capacity)
      (remove key d ++ (key, true) ∷ [])
      (omega
        (arith, length-append_end (remove key d) (key, true), length-remove_present key v d found))

keep_recent_room :
    (capacity : ℕ) (key : ℕ × ℕ) (d : Dict (ℕ × ℕ) Bool)
    → length d < capacity
    → lookup key d ≡ none
    → keep_recent capacity key d ≡ insert key true d
unfolding keep_recent
keep_recent_room capacity key d lt new =
    rw (remove-absent key d new, insert-absent key true d new)
      (drop-none (length (d ++ (key, true) ∷ []) - capacity) (d ++ (key, true) ∷ [])
        (omega (arith, length-append_end d (key, true))))

keep_recent_full :
    (capacity : ℕ) (key : ℕ × ℕ) (oldest : (ℕ × ℕ) × Bool) (d : Dict (ℕ × ℕ) Bool)
    → length (oldest ∷ d) ≡ capacity
    → lookup key (oldest ∷ d) ≡ none
    → lookup key d ≡ none
    → keep_recent capacity key (oldest ∷ d) ≡ insert key true d
unfolding keep_recent
keep_recent_full capacity key oldest d full new rest =
    let one : suc (length (d ++ (key, true) ∷ [])) - capacity ≡ 1 =
      omega (arith, length-append_end d (key, true)) in
    rw (remove-absent key (oldest ∷ d) new, insert-absent key true d rest)
      (ap (λ n. drop n (oldest ∷ (d ++ (key, true) ∷ []))) one)

lookup-tail :
    (key : ℕ × ℕ) (j : ℕ × ℕ) (v : Bool) (d : Dict (ℕ × ℕ) Bool)
    → lookup key ((j, v) ∷ d) ≡ none
    → lookup key d ≡ none
unfolding lookup
lookup-tail key j v d h = ground arith

le_or_eq : (a b : ℕ) → a ≤ b → (a < b) ⊎ (a ≡ b)
le_or_eq a b h = ground arith

stage_key_full :
    (capacity : ℕ) (key : ℕ × ℕ) (d : Dict (ℕ × ℕ) Bool)
    → 0 < capacity
    → IsDistinct d
    → length d ≡ capacity
    → lookup key d ≡ none
    → StagesKey capacity key d
unfolding stage_key IsLruBuffer IsDistinct
stage_key_full capacity key [] pos distinct full new = absurd (omega (arith, pos, full))
stage_key_full capacity key (oldest ∷ d) pos distinct full new =
    let rest = lookup-tail key oldest.0 oldest.1 d new in
    let line = keep_recent_full capacity key oldest d full new rest in
    let test : leb capacity (length (oldest ∷ d)) ≡ true = ground arith in
    rw (new, test, line, insert-absent key true d rest)
      (
        refl,
        (
          IsDistinct-append_end key true d distinct.1 rest,
          omega (arith, length-append_end d (key, true)),
        ),
        lookup-append_self key true d rest,
      )

stage_key_new :
    (capacity : ℕ) (key : ℕ × ℕ) (d : Dict (ℕ × ℕ) Bool)
    → 0 < capacity
    → IsDistinct d
    → length d ≤ capacity
    → lookup key d ≡ none
    → StagesKey capacity key d
unfolding stage_key IsLruBuffer
stage_key_new capacity key d pos distinct bound new = elim (le_or_eq (length d) capacity bound) [
  | inl lt ↦
      let room = keep_recent_room capacity key d lt new in
      let test : leb capacity (length d) ≡ false = ground arith in
      rw (new, test, room, insert-absent key true d new)
        (
          refl,
          (
            IsDistinct-append_end key true d distinct new,
            omega (arith, length-append_end d (key, true)),
          ),
          lookup-append_self key true d new,
        )
  | inr full ↦ stage_key_full capacity key d pos distinct full new
]

-- One round of `stage_blocks`, on a buffer that is within a capacity above zero and has every key
-- once, never raises: the buffer becomes what a
-- least recently used policy keeps. It is again within its capacity with every key once, and the
-- staged key is in it.
stage_key_lem :
    (capacity : ℕ) (key : ℕ × ℕ) (d : Dict (ℕ × ℕ) Bool)
    → 0 < capacity
    → IsLruBuffer capacity d
    → StagesKey capacity key d
unfolding stage_key IsLruBuffer move_to_end
stage_key_lem capacity key d pos (distinct, bound) = elim (Option-cases (lookup key d)) [
  | inr (v, found) ↦
      let moved = keep_recent_present capacity key v d bound found in
      let gone : lookup key (remove key d) ≡ none = ground (arith, lookup-remove key key d) in
      rw (found, moved)
        (
          refl,
          (
            IsDistinct-append_end key true (remove key d) (IsDistinct-remove key d distinct) gone,
            omega (
              arith,
              length-append_end (remove key d) (key, true),
              length-remove_present key v d found,
            ),
          ),
          lookup-append_self key true (remove key d) gone,
        )
  | inl new ↦ stage_key_new capacity key d pos distinct bound new
]

-- the buffer after a batch of one layer
unfoldable pub keep_all : ℕ → ℕ → List ℕ → Dict (ℕ × ℕ) Bool → Dict (ℕ × ℕ) Bool
keep_all capacity layer_id [] d = d
keep_all capacity layer_id (bid ∷ bids) d =
    keep_all capacity layer_id bids (keep_recent capacity (layer_id, bid) d)

module _ (fl : Float) where
  abbrev pub StagesBatch : SpeculativePrefetcher fl → List ℕ → ℕ → Type 0
  StagesBatch p bids layer_id =
      let out = stage_blocks fl p bids layer_id in
      (out.1 ≡ none)
      × (out.0.staged_buffer ≡ keep_all p.buffer_capacity layer_id bids p.staged_buffer)
      × IsLruBuffer p.buffer_capacity out.0.staged_buffer
      × (out.0.total_prefetched_bytes ≡ p.total_prefetched_bytes + length bids * p.bytes_per_block)

  -- what a round leaves, with the buffer of the policy
  abbrev after_one : SpeculativePrefetcher fl → ℕ → ℕ → SpeculativePrefetcher fl
  after_one p bid layer_id = record p {
    staged_buffer = keep_recent p.buffer_capacity (layer_id, bid) p.staged_buffer;
    legacy_staged_blocks =
        if ltb (length p.legacy_staged_blocks) p.buffer_capacity
        then add_to_set fl bid p.legacy_staged_blocks
        else p.legacy_staged_blocks;
    total_prefetched_bytes = p.total_prefetched_bytes + p.bytes_per_block;
  }

  stage_one_lem :
      (p : SpeculativePrefetcher fl) (bid layer_id : ℕ)
      → 0 < p.buffer_capacity
      → IsLruBuffer p.buffer_capacity p.staged_buffer
      → stage_one fl p bid layer_id ≡ ok (after_one p bid layer_id)
  unfolding stage_one
  stage_one_lem p bid layer_id pos h =
      rw (stage_key_lem p.buffer_capacity (layer_id, bid) p.staged_buffer pos h).0 refl

  -- Where the capacity is above zero and the buffer is within it with every key once,
  -- `stage_blocks` never raises: the whole batch goes through the buffer of a
  -- least recently used policy, one block after the other, which stays within its capacity with
  -- every key once, and the bytes of every block of the batch are counted.
  pub stage_blocks_lem :
      (p : SpeculativePrefetcher fl) (bids : List ℕ) (layer_id : ℕ)
      → 0 < p.buffer_capacity
      → IsLruBuffer p.buffer_capacity p.staged_buffer
      → StagesBatch p bids layer_id
  unfolding stage_blocks keep_all
  stage_blocks_lem p [] layer_id pos h = (refl, refl, h, omega arith)
  stage_blocks_lem p (bid ∷ bids) layer_id pos h =
      let q : SpeculativePrefetcher fl = after_one p bid layer_id in
      let kept = (stage_key_lem p.buffer_capacity (layer_id, bid) p.staged_buffer pos h).1 in
      let (calm, buffer, lru, bytes) = stage_blocks_lem q bids layer_id pos kept in
      rw (stage_one_lem p bid layer_id pos h, stage_blocks)
        (calm, buffer, lru, omega (arith, bytes))
