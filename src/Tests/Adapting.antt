-- ===== src/Tests/Adapting.antt =====
-- Concrete runs of the prefetch adapter, over a storage in memory whose arrays are numbers.
use ai_ssd.Prelude.{
  All-Among_self, ◌≢◌, Among, ℕ, ◌+◌, ◌*◌, ◌≡◌, inl, inr, refl, sym, true, false, none, some, List,
  [], ◌∷◌, All, All-map, ite, ℕ_discrete, length, arith, ltb, if◌then◌else◌, Result, ok, err,
  value_error,
}
use ai_ssd.Prelude.Dict.{Dict, lookup, nat_key, pair_key, pair_discrete, lookup-insert_self}
use ai_ssd.Adapter.Interface.{KvStorage, IsLawful}
use ai_ssd.Adapter.State.{StagedInferenceBlock, RealInferencePrefetchAdapter, new_adapter}
use ai_ssd.Adapter.Reads.{
  read_block, read_key_page, read_value_page, read_block_batch, read_key_page_batch,
  read_value_page_batch,
}
use ai_ssd.Adapter.Writes.{write_block}
use ai_ssd.Adapter.Demands.{given}
use ai_ssd.Adapter.Transparent.{
  Answers, Event, happens, transparent, batch_transparent, read_block-write_block_stale,
  happens-IsCoherent, new_adapter-IsCoherent,
}

-- a storage: the arrays of every layer and block
abbrev Memory : Type 0
Memory = ℕ → ℕ → ℕ × ℕ

unfoldable pub gather : {X : Type 0} → (ℕ → X) → List ℕ → Dict ℕ X
gather f [] = []
gather f (b ∷ bids) = (b, f b) ∷ gather f bids

pub gather-All : {X : Type 0} (f : ℕ → X) (bids : List ℕ) → All (λ p. p.1 ≡ f p.0) (gather f bids)
unfolding gather
gather-All f [] = tt
gather-All f (b ∷ bids) = (refl, gather-All f bids)

gather-Among :
    {X : Type 0} (f : ℕ → X) (b : ℕ) (bids : List ℕ)
    → Among b bids
    → lookup b (gather f bids) ≡ some (f b)
unfolding gather lookup
gather-Among f b [] m = absurd m
gather-Among f b (c ∷ bids) m = elim (ℕ_discrete c b) [
  | yes e ↦ ground arith
  | no ne ↦ let found = gather-Among f b bids (tail m ne) in ground arith
]
  where
    tail : Among b (c ∷ bids) → ¬ (c ≡ b) → Among b bids
    tail (inl e) ne = absurd (ne (sym e))
    tail (inr h) ne = h

pub gather_lem :
    {X : Type 0} (f : ℕ → X) (bids : List ℕ) → All (λ b. lookup b (gather f bids) ≡ some (f b)) bids
gather_lem f bids = All-map _ _ bids (λ b m. gather-Among f b bids m) (All-Among_self bids)

pub gather_complete :
    {X : Type 0} (f : ℕ → X) (bids : List ℕ)
    → All (λ b. (x : X) × (lookup b (gather f bids) ≡ some x)) bids
gather_complete f bids = All-map _ _ bids (λ b h. (f b, h)) (gather_lem f bids)

unfoldable pub put : {X : Type 0} → (ℕ → ℕ → X) → ℕ → ℕ → X → ℕ → ℕ → X
put s l b p m c = ite (pair_discrete (l, b) (m, c)) p (s m c)

pub put_self : {X : Type 0} (s : ℕ → ℕ → X) (l b : ℕ) (p : X) → put s l b p l b ≡ p
unfolding put
put_self s l b p = ground arith

pub put_ne :
    {X : Type 0} (s : ℕ → ℕ → X) (l b m c : ℕ) (p : X)
    → ◌≢◌ {A = ℕ × ℕ} (l, b) (m, c)
    → put s l b p m c ≡ s m c
unfolding put
put_ne s l b m c p ne = ground arith

-- the numbers below 1000 are the arrays of the default shape
abbrev in_shape : ℕ → Result ℕ
in_shape x = if ltb x 1000 then ok x else err value_error

abbrev memory : KvStorage Memory ℕ
memory = record {
  write_block = λ s l b k v h t. put s l b (k, v);
  read_key_page = λ s l b h t. (s, (s l b).0);
  read_value_page = λ s l b h t. (s, (s l b).1);
  read_block = λ s l b h t. (s, s l b);
  read_key_page_batch = λ s l bids h t. (s, gather (λ b. (s l b).0) bids);
  read_value_page_batch = λ s l bids h t. (s, gather (λ b. (s l b).1) bids);
  read_block_batch = λ s l bids h t. (s, gather (s l) bids);
  contains_block = λ s l b. true;
  evict_block = λ s l b. (put s l b (0, 0), true);
  reset_stats = λ s. s;
  as_dtype = λ x. x;
  of_bytes = length;
  as_default_shape = in_shape;
  nbytes = λ x. 4096;
  blank = 0;
}

abbrev memory-IsLawful : IsLawful memory
memory-IsLawful = record {
  held = λ s. s;
  block = record { value = λ s l b h t. refl; keeps = λ s l b h t m c. refl };
  key_page = record { value = λ s l b h t. refl; keeps = λ s l b h t m c. refl };
  value_page = record { value = λ s l b h t. refl; keeps = λ s l b h t m c. refl };
  block_batch = record {
    values = λ s l bids h t. gather-All (s l) bids;
    all = λ s l bids h t. gather_complete (s l) bids;
    keeps = λ s l bids h t m c. refl;
  };
  key_batch = record {
    values = λ s l bids h t. gather-All (λ b. (s l b).0) bids;
    all = λ s l bids h t. gather_complete (λ b. (s l b).0) bids;
    keeps = λ s l bids h t m c. refl;
  };
  value_batch = record {
    values = λ s l bids h t. gather-All (λ b. (s l b).1) bids;
    all = λ s l bids h t. gather_complete (λ b. (s l b).1) bids;
    keeps = λ s l bids h t m c. refl;
  };
  written = λ s l b k v h t. put_self s l b (k, v);
  reset_keeps = λ s l b. refl;
}

abbrev contents : Memory
contents l b = (10 * l + b, 100 + b)

-- a prefetch by a worker, a read before the worker has run, and one of the next layer
abbrev events : List Event
events =
    Event.prefetching (3 ∷ 5 ∷ []) 1 0 0 (some true)
    ∷ Event.reading 1 5 0 0
    ∷ Event.predicting 1 (3 ∷ []) 0 none
    ∷ Event.worker 0
    ∷ []

abbrev MemoryAdapter : Type 0
MemoryAdapter = RealInferencePrefetchAdapter Memory ℕ

abbrev fresh_adapter : MemoryAdapter
fresh_adapter = new_adapter contents 4 8192 8 false

abbrev ran : MemoryAdapter
ran = happens memory events fresh_adapter

-- block 3 of layer 1, prefetched at once
abbrev staged : MemoryAdapter
staged = happens memory (Event.prefetching (3 ∷ []) 1 0 0 none ∷ []) fresh_adapter

abbrev entry : StagedInferenceBlock ℕ
entry = record {
  block_id = 3;
  layer_id = 1;
  head_id = 0;
  size_bytes = 8192;
  data_k = some 13;
  data_v = some 103;
  future = none;
  is_useful = false;
}

staged_entry : lookup (1, 3) staged.staging_buffer ≡ some entry
unfolding happens new_adapter lookup gather ℕ_discrete
staged_entry = lookup-insert_self (1, 3) entry []

-- The staged block does not see the write of 7 and 8.
read_block-write_block_stale_example :
    ((read_block memory 1 3 0 0 (write_block memory 1 3 7 8 0 0 staged)).1 ≡ ok (13, 103))
    × ((write_block memory 1 3 7 8 0 0 staged).storage_backend 1 3 ≡ (7, 8))
read_block-write_block_stale_example =
    read_block-write_block_stale memory memory-IsLawful contents 1 3 7 8 0 0 0 0 staged entry
      (happens-IsCoherent memory memory-IsLawful contents
        (Event.prefetching (3 ∷ []) 1 0 0 none ∷ []) fresh_adapter
        (new_adapter-IsCoherent memory memory-IsLawful contents 4 8192 8 false))
      staged_entry refl

transparent_example :
    ((read_block memory 1 3 0 0 ran).1 ≡ given memory (lookup (1, 3) ran.staging_buffer) (13, 103))
    × ((read_key_page memory 1 3 0 0 ran).1 ≡ 13)
    × ((read_value_page memory 1 3 0 0 ran).1 ≡ 103)
transparent_example = transparent memory memory-IsLawful contents 4 8192 8 false events 1 3 0 0

batch_transparent_example :
    Answers 3 (13, 103) (read_block_batch memory 1 (7 ∷ 3 ∷ []) 0 0 ran).1
    × Answers 3 13 (read_key_page_batch memory 1 (7 ∷ 3 ∷ []) 0 0 ran).1
    × Answers 3 103 (read_value_page_batch memory 1 (7 ∷ 3 ∷ []) 0 0 ran).1
batch_transparent_example =
    batch_transparent memory memory-IsLawful contents 4 8192 8 false events 1 0 0 3 (7 ∷ 3 ∷ [])
      (record { key = refl; value = refl }, (record { key = refl; value = refl }, tt))
      (inr (inl refl))
