-- ===== src/Ftl/Batch.antt =====
-- `allocate_batch` of the sequential layer (person2_ssd/ftl/base.py and conventional.py).
use ai_ssd.Prelude.{
  ℕ, All, sym, ◌∙◌, suc, ◌+◌, ◌≤◌, ◌≡◌, refl, ap, ◌⊎◌, inl, inr, none, some, List, [], ◌∷◌, arith,
  ok, length, ite, ℕ_discrete,
}
use ai_ssd.Prelude.Dict.{Dict, nat_key, lookup, insert, lookup-insert}
use ai_ssd.Location.Text.{Text, to_location_str}
use ai_ssd.Schema.Block.{KvBlock}
use ai_ssd.Ftl.Base.{allocate_batch, translate}
use ai_ssd.Ftl.Conventional.{ConventionalFtl, allocate}
use ai_ssd.Ftl.Linear.{capacity}
use ai_ssd.Ftl.Consistency.{IsSequential, allocate_sequential}

-- What the results of a batch say is what the table says.
abbrev pub Agrees : ConventionalFtl → Dict ℕ Text → Type 0
Agrees f results = (c : ℕ) → (lookup c results ≡ none) ⊎ (lookup c results ≡ translate f.base c)

Agrees-insert :
    (f f' : ConventionalFtl) (b : ℕ) (text : Text) (results : Dict ℕ Text)
    → ((c : ℕ) → translate f'.base c ≡ ite (ℕ_discrete b c) (some text) (translate f.base c))
    → Agrees f results
    → Agrees f' (insert b text results)
Agrees-insert f f' b text results table a c = elim (ℕ_discrete b c) [
  | yes p ↦ inr (ground (arith, lookup-insert b c text results, table c))
  | no p ↦ elim (a c) [
    | inl e ↦ inl (ground (arith, lookup-insert b c text results))
    | inr e ↦ inr (ground (arith, lookup-insert b c text results, table c))
  ]
]

batch_step :
    (f f' f'' : ConventionalFtl) (b b' : KvBlock) (bs bs' : List KvBlock) (text : Text)
    (results r : Dict ℕ Text)
    → allocate f b ≡ ok (f', b', text)
    → allocate_batch allocate f' bs (insert b.block_id text results) ≡ (f'', bs', ok r)
    → allocate_batch allocate f (b ∷ bs) results ≡ (f'', b' ∷ bs', ok r)
unfolding allocate_batch
batch_step f f' f'' b b' bs bs' text results r e e' = rw (e, allocate_batch) (rw e')

abbrev Found : ℕ → Dict ℕ Text → Type 0
Found c results = (text : Text) × (lookup c results ≡ some text)

Found-insert :
    (c b : ℕ) (text : Text) (results : Dict ℕ Text)
    → (b ≡ c) ⊎ Found c results
    → Found c (insert b text results)
Found-insert c b text results h = elim (ℕ_discrete b c) [
  | yes p ↦ (text, ground (arith, lookup-insert b c text results))
  | no p ↦ elim h [
    | inl e ↦ absurd (p e)
    | inr (old, there) ↦ (old, ground (arith, lookup-insert b c text results))
  ]
]

-- every block of a batch is in the results, under the location that the table has for it
abbrev pub AllMapped : ConventionalFtl → Dict ℕ Text → List KvBlock → Type 0
AllMapped f r bs =
    All
      (λ b.
        (text : Text) × (lookup b.block_id r ≡ some text)
        × (translate f.base b.block_id ≡ some text))
      bs

-- What a batch that raises nothing leaves.
abbrev pub AllocatesAll : ConventionalFtl → List KvBlock → Dict ℕ Text → Type 0
AllocatesAll f bs results =
    (f' : ConventionalFtl) × (bs' : List KvBlock) × (r : Dict ℕ Text) × (allocate_batch allocate f
        bs results
      ≡ (f', bs', ok r))
    × IsSequential f'
    × Agrees f' r
    × AllMapped f' r bs
    × ((c : ℕ) → Found c results → Found c r)
    × (f'.linear_counter ≡ f.linear_counter + length bs)
    × (length bs' ≡ length bs)

Agrees-Found :
    (f : ConventionalFtl) (r : Dict ℕ Text) (c : ℕ)
    → Agrees f r
    → Found c r
    → (text : Text) × (lookup c r ≡ some text) × (translate f.base c ≡ some text)
Agrees-Found f r c a (text, there) = elim (a c) [
  | inl missing ↦ cc
  | inr same ↦ (text, there, sym same ∙ there)
]

-- A batch that fits into the pages left of a sequential layer, with results so far that agree
-- with its table, never raises. Every block of the batch is then in the results under the
-- location that the table maps it to; earlier results keep a location, the results agree with the
-- table, the counter has grown by the length of the batch, and the layer stays sequential.
pub allocate_batch_total :
    (f : ConventionalFtl) (bs : List KvBlock) (results : Dict ℕ Text)
    → IsSequential f
    → Agrees f results
    → f.linear_counter + length bs ≤ capacity f.base.geometry
    → AllocatesAll f bs results
unfolding allocate_batch
allocate_batch_total f [] results s a h =
    (f, [], results, refl, s, a, tt, (λ c there. there), omega arith, refl)
allocate_batch_total f (b ∷ bs) results s a h = elim (allocate_sequential f b s) [
  | inl (full, e) ↦ absurd (omega arith)
  | inr (f', b', l, e, next, within, free, loc, table, back, count, geo, s') ↦
      let text = to_location_str l in
      let a' : Agrees f' (insert b.block_id text results) =
        Agrees-insert f f' b.block_id text results table a in
      let room : f'.linear_counter + length bs ≤ capacity f'.base.geometry = rw geo (omega arith) in
      let (f'', bs', r, e', s'', a'', mapped, kept, count', len) =
        allocate_batch_total f' bs (insert b.block_id text results) s' a' room in
      let here = kept b.block_id (Found-insert b.block_id b.block_id text results (inl refl)) in
      (
        f'',
        b' ∷ bs',
        r,
        batch_step f f' f'' b b' bs bs' text results r e e',
        s'',
        a'',
        (Agrees-Found f'' r b.block_id a'' here, mapped),
        (λ c there. kept c (Found-insert c b.block_id text results (inr there))),
        omega arith,
        ap suc len,
      )
]
