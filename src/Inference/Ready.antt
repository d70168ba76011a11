-- ===== src/Inference/Ready.antt =====
-- person2_ssd/inference_backend.py: when nothing raises. The mapper's tables must not be empty,
-- every channel must have its counters, and every entry must stand on a channel.
use native.Mathlib.Nat.{mod-lt}
use ai_ssd.Prelude.{
  false, ite, ℕ_discrete, Option-cases, All, All-append, inl, inr, ℕ, zero, suc, ◌+◌, ◌≤◌, ◌<◌, ◌≡◌,
  refl, true, Option, none, some, List, [], ◌∷◌, ◌++◌, ok, arith, ◌==◌,
}
use ai_ssd.Prelude.Dict.{Dict, nat_key, pair_key, lookup, lookup-insert}
use ai_ssd.Prefetch.Ordered.{present}
use ai_ssd.Location.Text.{Location}
use ai_ssd.Mapper.Coordinates.{
  TensorCoordinate, coordinate, MappingMode, tensor_aware, token_block_idx,
}
use ai_ssd.Mapper.Addressing.{
  DeterministicTensorMapper, tensor_to_nand_physical, target_channel, target_die, target_plane,
  at_counter, counter_of, stripe_unit,
}
use ai_ssd.Inference.Device.{Device}
use ai_ssd.Inference.State.{counted, Entry, Stats, add_at, zeros_from}
use ai_ssd.Inference.Store.{RealInferenceStorageBackend, counted_write, count_write, place_heads}
use ai_ssd.Inference.Reads.{counted_read, count_read, account}

-- the channels below `n` have a counter
abbrev pub AllCounted : ℕ → Dict ℕ ℕ → Type 0
AllCounted n d = (c : ℕ) → c < n → present (lookup c d) ≡ true

pub present-add_at :
    (c a n : ℕ) (d : Dict ℕ ℕ)
    → present (lookup c d) ≡ true
    → present (lookup c (add_at a n d)) ≡ true
unfolding add_at
present-add_at c a n d h = elim (Option-cases (lookup a d)) [
  | inl none_there ↦ rw (add_at, none_there) h
  | inr (old, there) ↦
      let new = lookup-insert a c (old + n) d in rw (add_at, there, new) (ground arith)
]

pub zeros_from-AllCounted :
    (from n c : ℕ) → from ≤ c → c < from + n → present (lookup c (zeros_from from n)) ≡ true
unfolding zeros_from lookup
zeros_from-AllCounted from zero c low high = absurd (omega (arith, low, high))
zeros_from-AllCounted from (suc n) c low high =
    elim (ℕ_discrete from c)
      as (λ d. present (ite d (some 0) (lookup c (zeros_from (suc from) n))) ≡ true) [
        | yes same ↦ refl
        | no ne ↦ zeros_from-AllCounted (suc from) n c (omega (arith, ne)) (omega arith)
      ]

-- what a mapper in the tensor-aware mode needs
abbrev pub HasTables : DeterministicTensorMapper → Type 0
HasTables m =
    (0 < m.channels)
    × (0 < m.dies_per_channel)
    × (0 < m.planes_per_die)
    × (0 < m.pages_per_block)
    × (0 < m.blocks_per_plane)

-- the place that the mapper gives
abbrev place_of : (m : DeterministicTensorMapper) → TensorCoordinate → Option (Dict ℕ ℕ) → Location
place_of m c counters =
    let b_idx = token_block_idx c in
    let ch = target_channel m c.layer_id c.head_id b_idx in
    at_counter m ch (target_die m c.layer_id c.head_id b_idx) (target_plane m b_idx)
      (counter_of m counters ch)

tensor_to_nand_physical_place :
    (m : DeterministicTensorMapper) (mode : MappingMode) (c : TensorCoordinate)
    (counters : Option (Dict ℕ ℕ))
    → mode ≡ tensor_aware
    → HasTables m
    → tensor_to_nand_physical m c mode counters ≡ ok (place_of m c counters)
unfolding tensor_to_nand_physical
tensor_to_nand_physical_place m mode c counters e (h0, h1, h2, h3, h4) =
    let e0 : (m.channels == 0) ≡ false = ground arith in
    let e1 : (m.dies_per_channel == 0) ≡ false = ground arith in
    let e2 : (m.planes_per_die == 0) ≡ false = ground arith in
    let e3 : (m.pages_per_block == 0) ≡ false = ground arith in
    let e4 : (m.blocks_per_plane == 0) ≡ false = ground arith in
    rw (e, tensor_to_nand_physical, e0, e1, e2, e3, e4) refl

target_channel-lt :
    (m : DeterministicTensorMapper) (layer head b_idx : ℕ)
    → HasTables m
    → target_channel m layer head b_idx < m.channels
unfolding target_channel
target_channel-lt m layer head b_idx h = mod-lt _ h.0

-- the counters of a backend that nothing raises on
abbrev pub IsCounted : ℕ → Stats → Type 0
IsCounted n s =
    AllCounted n s.channel_counters
    × AllCounted n s.per_channel_writes
    × AllCounted n s.per_channel_write_bytes
    × AllCounted n s.per_channel_reads
    × AllCounted n s.per_channel_read_bytes

module _ (dev : Device) where
  -- the state in which no operation raises
  pub record IsReady (b : RealInferenceStorageBackend dev) : Type 0 where
    pub mode : b.mapping_mode ≡ tensor_aware
    pub tables : HasTables b.mapper
    pub stripe : 0 < stripe_unit b.mapper
    pub same : b.mapper.channels ≡ b.num_channels
    pub counted : IsCounted b.num_channels b.stats
    pub entries :
        (key : ℕ × ℕ) (e : Entry) → lookup key b.storage ≡ some e → e.channel < b.num_channels

  -- the channel of a block of a layer and head
  unfoldable pub page_channel :
      RealInferenceStorageBackend dev → (layer_idx block_id head_id token_start : ℕ) → ℕ
  page_channel b layer_idx block_id head_id token_start =
      target_channel b.mapper layer_idx head_id
        (token_block_idx (coordinate layer_idx head_id token_start b.tokens_per_block block_id))

  pub account_ready :
      {X : Type 0} (x : X) (b : RealInferenceStorageBackend dev) (s : Stats)
      (layer_idx block_id head_id token_start n : ℕ)
      → IsReady b
      → IsCounted b.num_channels s
      → account dev (record b { stats = s }) layer_idx block_id head_id token_start n (ok x)
        ≡ ok (counted_read dev s (page_channel b layer_idx block_id head_id token_start) n, x)
  unfolding account page_channel
  account_ready x b s layer_idx block_id head_id token_start n ready counts =
      let c = coordinate layer_idx head_id token_start b.tokens_per_block block_id in
      let found =
        tensor_to_nand_physical_place b.mapper b.mapping_mode c none ready.mode ready.tables in
      let ch = target_channel b.mapper layer_idx head_id (token_block_idx c) in
      let below : ch < b.mapper.channels =
        target_channel-lt b.mapper layer_idx head_id (token_block_idx c) ready.tables in
      let inside : ch < b.num_channels = omega (arith, below, ready.same) in
      let (cc, w, wb, r, rb) = counts in
      let reads = r ch inside in
      let bytes = rb ch inside in rw (account, found, count_read, reads, bytes) refl

  pub counted_read-IsCounted :
      (n : ℕ) (s : Stats) (ch k : ℕ) → IsCounted n s → IsCounted n (counted_read dev s ch k)
  unfolding counted_read
  counted_read-IsCounted n s ch k (cc, w, wb, r, rb) = (
    cc,
    w,
    wb,
    (λ c h. present-add_at c ch 1 s.per_channel_reads (r c h)),
    (λ c h. present-add_at c ch k s.per_channel_read_bytes (rb c h)),
  )

  pub counted_write-IsCounted :
      (n : ℕ) (s : Stats) (ch k : ℕ) → IsCounted n s → IsCounted n (counted_write dev s ch k)
  unfolding counted_write
  counted_write-IsCounted n s ch k (cc, w, wb, r, rb) = (
    (λ c h. present-add_at c ch 1 s.channel_counters (cc c h)),
    (λ c h. present-add_at c ch 1 s.per_channel_writes (w c h)),
    (λ c h. present-add_at c ch k s.per_channel_write_bytes (wb c h)),
    r,
    rb,
  )

  count_write_ready :
      (n : ℕ) (s : Stats) (ch k : ℕ)
      → IsCounted n s
      → ch < n
      → count_write dev s ch k ≡ counted (counted_write dev s ch k)
  unfolding count_write
  count_write_ready n s ch k (cc, w, wb, r, rb) below =
      let counters = cc ch below in
      let writes = w ch below in
      let bytes = wb ch below in rw (count_write, counters, writes, bytes) refl

  abbrev pub BelowAll : ℕ → List ℕ → Type 0
  BelowAll n cs = All (λ c. c < n) cs

  pub place_heads_ready :
      (b : RealInferenceStorageBackend dev) (layer_idx block_id token_start n h_eff rounds : ℕ)
      (s : Stats) (assigned : List ℕ)
      → IsReady b
      → IsCounted b.num_channels s
      → BelowAll b.num_channels assigned
      → (t : Stats) × (placed : List ℕ) × (place_heads dev b layer_idx block_id token_start n h_eff
            rounds
            (s, assigned)
          ≡ (t, ok placed))
        × IsCounted b.num_channels t
        × BelowAll b.num_channels placed
  unfolding place_heads
  place_heads_ready b layer_idx block_id token_start n h_eff zero s assigned ready counts below =
      (s, assigned, refl, counts, below)
  place_heads_ready b layer_idx block_id token_start n h_eff (suc rounds) s assigned ready counts
        below =
      let c = coordinate layer_idx h_eff token_start b.tokens_per_block block_id in
      let found =
        tensor_to_nand_physical_place b.mapper b.mapping_mode c (some s.channel_counters) ready.mode
          ready.tables in
      let ch = target_channel b.mapper layer_idx h_eff (token_block_idx c) in
      let inside : ch < b.num_channels = omega (
        arith,
        target_channel-lt b.mapper layer_idx h_eff (token_block_idx c) ready.tables,
        ready.same,
      ) in
      let there = count_write_ready b.num_channels s ch n counts inside in
      let (t, placed, e, rest, all) =
        place_heads_ready b layer_idx block_id token_start n (h_eff + 1) rounds
          (counted_write dev s ch n) (assigned ++ ch ∷ []) ready
          (counted_write-IsCounted b.num_channels s ch n counts)
          (All-append (λ x. x < b.num_channels) assigned (ch ∷ []) below (inside, tt)) in
      (t, placed, rw (place_heads, found, there) e, rest, all)
