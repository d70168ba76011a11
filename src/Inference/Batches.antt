-- ===== src/Inference/Batches.antt =====
-- person2_ssd/inference_backend.py, the batched reads. What a batch counted before a raise stays
-- counted, so that a state comes with every result.
use ai_ssd.Prelude.{
  ℕ, ◌+◌, Option, none, some, List, [], ◌∷◌, length, take, drop, if◌then◌else◌, Result, ok, err,
  key_error,
}
use ai_ssd.Prelude.Dict.{Dict, nat_key, pair_key, lookup, insert}
use ai_ssd.Prefetch.Ordered.{present}
use ai_ssd.Inference.Device.{Device}
use ai_ssd.Inference.State.{
  Array, Entry, Stats, LogOp, batch_read_key, batch_read_value, batch_read_block, add_at, reshaped,
  Counting, counted, uncounted,
}
use ai_ssd.Inference.Store.{RealInferenceStorageBackend}
use ai_ssd.Inference.Reads.{
  zeros, key_or_zeros, value_or_zeros, key_size, value_size, read_key_page, read_value_page,
  read_block, logged, both_of,
}

-- a page of a batch is counted on its entry's channel, that of a missing block on the first one
abbrev pub channel_of : Option Entry → ℕ
channel_of none = 0
channel_of (some e) = e.channel

-- what a batch counts on a channel for each of its pages
unfoldable pub counted_page : Stats → ℕ → ℕ → Stats
counted_page s ch n = record s {
  per_channel_reads = add_at ch 1 s.per_channel_reads;
  per_channel_read_bytes = add_at ch n s.per_channel_read_bytes;
}

-- the two counters one after the other; one that is missing raises
unfoldable pub count_page : Stats → ℕ → ℕ → Counting
unfolding counted_page
count_page s ch n =
    if present (lookup ch s.per_channel_reads)
    then if present (lookup ch s.per_channel_read_bytes)
      then counted (counted_page s ch n)
      else uncounted (record s { per_channel_reads = add_at ch 1 s.per_channel_reads })
    else uncounted s

module _ {A : Type 0} (page : ℕ → Option Entry) (size : Option Entry → ℕ)
    (get : Option Entry → Result A) where
  -- the loop over the blocks of a batch: the counters, the bytes so far, the results so far
  unfoldable pub gather : List ℕ → Stats → ℕ → Dict ℕ A → Stats × Result (ℕ × Dict ℕ A)
  gather [] s total results = (s, ok (total, results))
  gather (bid ∷ bids) s total results = elim (get (page bid)) [
    | err x ↦ (s, err x)
    | ok a ↦ elim (count_page s (channel_of (page bid)) (size (page bid))) [
      | uncounted t ↦ (t, err key_error)
      | counted t ↦ gather bids t (total + size (page bid)) (insert bid a results)
    ]
  ]

module _ (dev : Device) where
  open dev use {pread}

  -- without batching, one read after the other
  unfoldable pub one_by_one :
      {A : Type 0}
      → (RealInferenceStorageBackend dev → ℕ → Result (RealInferenceStorageBackend dev × A))
      → RealInferenceStorageBackend dev
      → List ℕ
      → Dict ℕ A
      → RealInferenceStorageBackend dev × Result (Dict ℕ A)
  one_by_one read b [] results = (b, ok results)
  one_by_one read b (bid ∷ bids) results = elim (read b bid) [
    | err x ↦ (b, err x)
    | ok (b1, a) ↦ one_by_one read b1 bids (insert bid a results)
  ]

  -- the counters that all three batched reads change in the end
  unfoldable pub count_batch : Stats → LogOp → (layer_idx n total : ℕ) → Stats
  count_batch s op layer_idx n total =
      logged dev
        (record s {
          storage_batches = s.storage_batches + 1;
          batched_requests = s.batched_requests + n;
          requests = s.requests + n;
          bytes_read = s.bytes_read + total;
        })
        op layer_idx total

  -- a batch: its loop, then its counters, of which `more` are those of the operation
  unfoldable pub batch :
      {A : Type 0}
      → RealInferenceStorageBackend dev
      → LogOp
      → ℕ
      → (Option Entry → ℕ)
      → (Option Entry → Result A)
      → (Stats → ℕ → Stats)
      → List ℕ
      → RealInferenceStorageBackend dev × Result (Dict ℕ A)
  unfolding gather count_batch
  batch b op layer_idx size get more bids =
      let (s, gathered) =
        gather (λ bid. lookup (layer_idx, bid) b.storage) size get bids b.stats 0 [] in
      elim gathered [
        | err x ↦ (record b { stats = s }, err x)
        | ok (total, results) ↦ (
          record b { stats = more (count_batch s op layer_idx (length bids) total) (length bids) },
          ok results,
        )
      ]

  abbrev pub more_keys : Stats → ℕ → Stats
  more_keys s n = record s { key_page_read_requests = s.key_page_read_requests + n }

  abbrev pub more_values : Stats → ℕ → Stats
  more_values s n = record s {
    blocks_read = s.blocks_read + n;
    value_page_read_requests = s.value_page_read_requests + n;
  }

  abbrev pub more_blocks : Stats → ℕ → Stats
  more_blocks s n = record s {
    blocks_read = s.blocks_read + n;
    combined_block_read_requests = s.combined_block_read_requests + n;
  }

  unfoldable pub read_key_page_batch :
      RealInferenceStorageBackend dev
      → ℕ
      → List ℕ
      → (head_id token_start : ℕ) → RealInferenceStorageBackend dev × Result (Dict ℕ Array)
  unfolding one_by_one batch read_key_page
  read_key_page_batch b layer_idx [] head_id token_start = (b, ok [])
  read_key_page_batch b layer_idx (bid ∷ bids) head_id token_start =
      if b.enable_batching
      then batch b batch_read_key layer_idx (key_size dev b) (key_or_zeros dev b) more_keys
          (bid ∷ bids)
      else one_by_one (λ c i. read_key_page dev c layer_idx i head_id token_start) b (bid ∷ bids) []

  unfoldable pub read_value_page_batch :
      RealInferenceStorageBackend dev
      → ℕ
      → List ℕ
      → (head_id token_start : ℕ) → RealInferenceStorageBackend dev × Result (Dict ℕ Array)
  unfolding one_by_one batch read_value_page
  read_value_page_batch b layer_idx [] head_id token_start = (b, ok [])
  read_value_page_batch b layer_idx (bid ∷ bids) head_id token_start =
      if b.enable_batching
      then batch b batch_read_value layer_idx (value_size dev b) (value_or_zeros dev b) more_values
          (bid ∷ bids)
      else one_by_one (λ c i. read_value_page dev c layer_idx i head_id token_start) b (bid ∷ bids)
          []

  -- key and value of a block in one read of the file, cut in two
  unfoldable pub block_or_zeros :
      RealInferenceStorageBackend dev → Option Entry → Result (Array × Array)
  unfolding zeros reshaped both_of
  block_or_zeros b none = ok (zeros dev b, zeros dev b)
  block_or_zeros b (some e) =
      let raw = pread b.backing (e.k_size + e.v_size) e.k_offset in
      both_of dev
        (reshaped (record { shape = e.k_shape; dtype = e.k_dtype; bytes = take e.k_size raw }))
        (reshaped (record { shape = e.v_shape; dtype = e.v_dtype; bytes = drop e.k_size raw }))

  unfoldable pub read_block_batch :
      RealInferenceStorageBackend dev
      → ℕ
      → List ℕ
      → (head_id token_start : ℕ)
      → RealInferenceStorageBackend dev × Result (Dict ℕ (Array × Array))
  unfolding one_by_one batch read_block block_or_zeros
  read_block_batch b layer_idx [] head_id token_start = (b, ok [])
  read_block_batch b layer_idx (bid ∷ bids) head_id token_start =
      if b.enable_batching
      then batch b batch_read_block layer_idx (λ e. key_size dev b e + value_size dev b e)
          (block_or_zeros b) more_blocks (bid ∷ bids)
      else one_by_one (λ c i. read_block dev c layer_idx i head_id token_start) b (bid ∷ bids) []
