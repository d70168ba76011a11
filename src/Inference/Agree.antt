-- ===== src/Inference/Agree.antt =====
-- person2_ssd/inference_backend.py: batched reads against single ones.
use ai_ssd.Prelude.{
  ℕ, ◌+◌, ◌<◌, ◌≡◌, refl, sym, ap, ◌∙◌, Bool, true, false, Option, none, some, List, [], ◌∷◌,
  length, Result, ok, arith, if◌then◌else◌, fun_ext, Option-cases, inl, inr,
}
use ai_ssd.Prelude.Dict.{Dict, nat_key, pair_key, lookup}
use ai_ssd.Inference.Device.{Device}
use ai_ssd.Inference.State.{Array, Entry, Stats, read_key, batch_read_key}
use ai_ssd.Inference.Store.{RealInferenceStorageBackend}
use ai_ssd.Inference.Reads.{
  zeros, raw_key, key_or_zeros, stored_key, key_size, read_key_page, counted_read, logged,
}
use ai_ssd.Inference.Batches.{
  channel_of, counted_page, one_by_one, count_batch, more_keys, batch, read_key_page_batch,
}
use ai_ssd.Inference.Ready.{IsCounted, IsReady, page_channel, account_ready, counted_read-IsCounted}
use ai_ssd.Inference.Fitting.{KeysFit}
use ai_ssd.Inference.Loops.{
  results_of, total_of, one_by_one_ready, gather_ready, after_all-adds, total_of-one, total_of-zero,
}

if-either : {A : Type 0} (P : A → Type 0) (c : Bool) {x y : A} → P x → P y → P (if c then x else y)
if-either P true px py = px
if-either P false px py = py

module _ (dev : Device) where
  -- the key of an entry as it stands in the file, or zeros
  unfoldable pub key_of : RealInferenceStorageBackend dev → Option Entry → Array
  unfolding zeros raw_key
  key_of b none = zeros dev b
  key_of b (some e) = raw_key dev b e

  module _ (b : RealInferenceStorageBackend dev) (layer_idx head_id token_start : ℕ)
      (ready : IsReady dev b) (fit : KeysFit dev b) where
    abbrev entry_at : ℕ → Option Entry
    entry_at bid = lookup (layer_idx, bid) b.storage

    channel_of-lt : (bid : ℕ) → channel_of (entry_at bid) < b.num_channels
    channel_of-lt bid = elim (Option-cases (entry_at bid)) [
      | inl missing ↦
          let pos : 0 < b.num_channels = omega (arith, ready.tables.0, ready.same) in
          rw (missing) pos
      | inr (e, there) ↦ rw (there) (ready.entries (layer_idx, bid) e there)
    ]

    key_size_counted :
        (s : Stats) (e : Option Entry) → key_size dev (record b { stats = s }) e ≡ key_size dev b e
    key_size_counted s none = refl
    key_size_counted s (some e) = refl

    key_or_zeros-ok :
        (s : Stats) (bid : ℕ)
        → key_or_zeros dev (record b { stats = s }) (entry_at bid) ≡ ok (key_of b (entry_at bid))
    unfolding key_or_zeros key_of zeros stored_key raw_key
    key_or_zeros-ok s bid = elim (Option-cases (entry_at bid)) [
      | inl missing ↦ rw (missing) refl
      | inr (e, there) ↦ rw (there) (fit (layer_idx, bid) e there)
    ]

    -- the counters after a single read of a key
    abbrev key_step : Stats → ℕ → Stats
    key_step s bid =
        let n = key_size dev b (entry_at bid) in
        let t = counted_read dev s (page_channel dev b layer_idx bid head_id token_start) n in
        logged dev (record t { key_page_read_requests = t.key_page_read_requests + 1 }) read_key
          layer_idx n

    read_key_page_ready :
        (s : Stats) (bid : ℕ)
        → IsCounted b.num_channels s
        → read_key_page dev (record b { stats = s }) layer_idx bid head_id token_start
          ≡ ok (record b { stats = key_step s bid }, key_of b (entry_at bid))
    unfolding read_key_page
    read_key_page_ready s bid h =
        let size = key_size_counted s (entry_at bid) in
        let got = key_or_zeros-ok s bid in
        let n = key_size dev b (entry_at bid) in
        let counted =
          account_ready dev (key_of b (entry_at bid)) b s layer_idx bid head_id token_start n ready
            h in
        rw (read_key_page, size, got, counted, size) refl

    -- the arrays of some blocks, and the bytes that they are counted for
    abbrev keys_of : List ℕ → Dict ℕ Array
    keys_of bids = results_of (λ bid. key_of b (entry_at bid)) bids []

    abbrev key_bytes : List ℕ → ℕ
    key_bytes bids = total_of (λ bid. key_size dev b (entry_at bid)) bids

    -- a state and a result after the keys of some blocks were read
    abbrev KeysRead : List ℕ → RealInferenceStorageBackend dev × Result (Dict ℕ Array) → Type 0
    KeysRead bids (after, result) =
        (result ≡ ok (keys_of bids))
        × (after.stats.bytes_read ≡ b.stats.bytes_read + key_bytes bids)
        × (after.stats.requests ≡ b.stats.requests + length bids)
        × (after.stats.key_page_read_requests ≡ b.stats.key_page_read_requests + length bids)

    one_by_one-KeysRead :
        (bids : List ℕ)
        → KeysRead bids
            (one_by_one dev (λ c i. read_key_page dev c layer_idx i head_id token_start) b bids [])
    unfolding counted_read
    one_by_one-KeysRead bids =
        let run =
          one_by_one_ready b.num_channels key_step keeps dev b (λ bid. key_of b (entry_at bid))
            (λ c i. read_key_page dev c layer_idx i head_id token_start) read_key_page_ready bids
            b.stats [] ready.counted in
        let one = total_of-one bids in
        let bytes =
          after_all-adds key_step (λ s. s.bytes_read) (λ bid. key_size dev b (entry_at bid))
            (λ s bid. refl) bids b.stats in
        let requests =
          after_all-adds key_step (λ s. s.requests) (λ bid. 1) (λ s bid. refl) bids b.stats in
        let keys =
          after_all-adds key_step (λ s. s.key_page_read_requests) (λ bid. 1) (λ s bid. refl) bids
            b.stats in
        rw (run) (refl, bytes, omega (arith, requests, one), omega (arith, keys, one))
      where
        keeps :
            (s : Stats) (bid : ℕ)
            → IsCounted b.num_channels s
            → IsCounted b.num_channels (key_step s bid)
        keeps s bid h =
            counted_read-IsCounted dev b.num_channels s
              (page_channel dev b layer_idx bid head_id token_start) (key_size dev b (entry_at bid))
              h

    batch-KeysRead :
        (bids : List ℕ)
        → KeysRead bids (
            batch dev b batch_read_key layer_idx
              (key_size dev b)
              (key_or_zeros dev b)
              (more_keys dev)
              bids)
    unfolding batch counted_page count_batch
    batch-KeysRead bids =
        let run =
          gather_ready b.num_channels entry_at (key_size dev b) (key_or_zeros dev b)
            (λ bid. key_of b (entry_at bid)) (λ bid. key_or_zeros-ok b.stats bid) channel_of-lt bids
            b.stats 0 [] ready.counted in
        let page_step = λ (s : Stats) (bid : ℕ).
          counted_page s (channel_of (entry_at bid)) (key_size dev b (entry_at bid)) in
        let none_more = total_of-zero bids in
        let bytes =
          after_all-adds page_step (λ s. s.bytes_read) (λ bid. 0) (λ s bid. omega arith) bids
            b.stats in
        let requests =
          after_all-adds page_step (λ s. s.requests) (λ bid. 0) (λ s bid. omega arith) bids
            b.stats in
        let keys =
          after_all-adds page_step (λ s. s.key_page_read_requests) (λ bid. 0) (λ s bid. omega arith)
            bids b.stats in
        let counters = ap (λ p. p.0) run in
        let bytes_now = ap (λ (s : Stats). s.bytes_read) counters in
        let requests_now = ap (λ (s : Stats). s.requests) counters in
        let keys_now = ap (λ (s : Stats). s.key_page_read_requests) counters in
        rw (batch, run)
          (
            refl,
            omega (arith, bytes, bytes_now, none_more),
            omega (arith, requests, requests_now, none_more),
            omega (arith, keys, keys_now, none_more),
          )

    read_key_page_batch_ready :
        (bids : List ℕ)
        → KeysRead bids (read_key_page_batch dev b layer_idx bids head_id token_start)
    unfolding read_key_page_batch results_of total_of
    read_key_page_batch_ready [] = (refl, omega arith, omega arith, omega arith)
    read_key_page_batch_ready (bid ∷ bids) =
        if-either (KeysRead (bid ∷ bids)) b.enable_batching (batch-KeysRead (bid ∷ bids))
          (one_by_one-KeysRead (bid ∷ bids))

  abbrev pub in_mode : Bool → RealInferenceStorageBackend dev → RealInferenceStorageBackend dev
  in_mode batching b = record b { enable_batching = batching }

  -- a state and a result of a batch, as far as the reads of single keys tell it
  abbrev pub outcome :
      RealInferenceStorageBackend dev × Result (Dict ℕ Array) → Result (Dict ℕ Array) × ℕ × ℕ × ℕ
  outcome (after, result) =
      (result, after.stats.bytes_read, after.stats.requests, after.stats.key_page_read_requests)

  in_mode-IsReady :
      (batching : Bool) (b : RealInferenceStorageBackend dev)
      → IsReady dev b
      → IsReady dev (in_mode batching b)
  in_mode-IsReady batching b ready = record {
    mode = ready.mode;
    tables = ready.tables;
    stripe = ready.stripe;
    same = ready.same;
    counted = ready.counted;
    entries = ready.entries;
  }

  KeysFit-in_mode :
      (x : Bool) (b : RealInferenceStorageBackend dev) → KeysFit dev b → KeysFit dev (in_mode x b)
  unfolding stored_key raw_key
  KeysFit-in_mode x b fit = fit

  key_of-in_mode :
      (x : Bool) (b : RealInferenceStorageBackend dev) (e : Option Entry)
      → key_of (in_mode x b) e ≡ key_of b e
  unfolding key_of zeros raw_key
  key_of-in_mode x b none = refl
  key_of-in_mode x b (some e) = refl

  key_size-in_mode :
      (x : Bool) (b : RealInferenceStorageBackend dev) (e : Option Entry)
      → key_size dev (in_mode x b) e ≡ key_size dev b e
  key_size-in_mode x b none = refl
  key_size-in_mode x b (some e) = refl

  outcome-in_mode :
      (batching : Bool) (b : RealInferenceStorageBackend dev) (layer_idx : ℕ) (bids : List ℕ)
      (head_id token_start : ℕ)
      → IsReady dev b
      → KeysFit dev b
      → outcome (read_key_page_batch dev (in_mode batching b) layer_idx bids head_id token_start)
        ≡ (
          ok (results_of (λ bid. key_of b (lookup (layer_idx, bid) b.storage)) bids []),
          b.stats.bytes_read
              + total_of (λ bid. key_size dev b (lookup (layer_idx, bid) b.storage)) bids,
          b.stats.requests + length bids,
          b.stats.key_page_read_requests + length bids,
        )
  outcome-in_mode batching b layer_idx bids head_id token_start ready fit =
      let (arrays, bytes, requests, keys) =
        read_key_page_batch_ready (in_mode batching b) layer_idx head_id token_start
          (in_mode-IsReady batching b ready) (KeysFit-in_mode batching b fit) bids in
      let same_arrays : (λ (bid : ℕ).
        key_of (in_mode batching b) (lookup (layer_idx, bid) b.storage))
          ≡ (λ bid. key_of b (lookup (layer_idx, bid) b.storage)) =
        fun_ext (λ bid. key_of-in_mode batching b (lookup (layer_idx, bid) b.storage)) in
      let same_sizes : (λ (bid : ℕ).
        key_size dev (in_mode batching b) (lookup (layer_idx, bid) b.storage))
          ≡ (λ bid. key_size dev b (lookup (layer_idx, bid) b.storage)) =
        fun_ext (λ bid. key_size-in_mode batching b (lookup (layer_idx, bid) b.storage)) in
      let result = arrays ∙ ap (λ get. ok (results_of get bids [])) same_arrays in
      let read = bytes ∙ ap (λ size. b.stats.bytes_read + total_of size bids) same_sizes in
      rw (result, read, requests, keys) refl

  -- In a backend that is ready, where the bytes of every stored key fit its recorded shape, a
  -- batch of keys raises nothing. It gives the arrays that single reads give, the stored key or
  -- zeros for every block, and counts the bytes and the requests that they count.
  pub read_key_page_batch-agrees :
      (b : RealInferenceStorageBackend dev) (layer_idx : ℕ) (bids : List ℕ)
      (head_id token_start : ℕ)
      → IsReady dev b
      → KeysFit dev b
      → (outcome (read_key_page_batch dev (in_mode true b) layer_idx bids head_id token_start)
          ≡ outcome (read_key_page_batch dev (in_mode false b) layer_idx bids head_id token_start))
        × ((read_key_page_batch dev (in_mode true b) layer_idx bids head_id token_start).1
            ≡ ok (results_of (λ bid. key_of b (lookup (layer_idx, bid) b.storage)) bids []))
  read_key_page_batch-agrees b layer_idx bids head_id token_start ready fit =
      let on = outcome-in_mode true b layer_idx bids head_id token_start ready fit in
      let off = outcome-in_mode false b layer_idx bids head_id token_start ready fit in
      (on ∙ sym off, ap (λ o. o.0) on)
