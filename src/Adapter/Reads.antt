-- ===== src/Adapter/Reads.antt =====
-- person3_system/prefetch/inference_adapter.py: demand reads, from the staging buffer or from the
-- storage, single and batched.
use ai_ssd.Prelude.{
  ℕ, ◌+◌, true, Option, none, some, List, [], ◌∷◌, ◌++◌, length, if◌then◌else◌, Result, ok, err,
  ◌>>=◌,
}
use ai_ssd.Prelude.Dict.{Dict, nat_key, pair_key, lookup, insert}
use ai_ssd.Prefetch.Ordered.{move_to_end}
use ai_ssd.Adapter.Interface.{KvStorage}
use ai_ssd.Adapter.State.{
  StagedInferenceBlock, Counters, RealInferencePrefetchAdapter, record_hit, record_miss,
  key_page_bytes, value_page_bytes,
}
use ai_ssd.Adapter.Staging.{resolve_entry}

-- the first use of an entry makes its prefetch a useful one
abbrev pub count_useful : {A : Type 0} → Counters → StagedInferenceBlock A → ℕ → Counters
count_useful c e n =
    if e.is_useful
    then c
    else record c { useful_prefetches = c.useful_prefetches + 1; useful_bytes = c.useful_bytes + n }

-- `results.update(fetched)`
abbrev pub update : {X : Type 0} → Dict ℕ X → Dict ℕ X → Dict ℕ X
update [] results = results
update ((bid, x) ∷ fetched) results = update fetched (insert bid x results)

-- a miss of `n` bytes for every block
abbrev pub record_misses : Counters → List ℕ → ℕ → Counters
record_misses c [] n = c
record_misses c (bid ∷ bids) n = record_misses (record_miss c n) bids n

module _ {S A : Type 0} (st : KvStorage S A) where
  open st use {as_default_shape, blank}

  -- the object of an entry, after its data were handed to it
  abbrev pub now_of :
      Option (StagedInferenceBlock A) → StagedInferenceBlock A → StagedInferenceBlock A
  now_of none e = e
  now_of (some now) e = now

  -- a hit on an entry, for a demand of `n` bytes: the entry is awaited, used and moved to the end
  unfoldable pub hit :
      ℕ × ℕ
      → StagedInferenceBlock A
      → ℕ
      → RealInferencePrefetchAdapter S A
      → RealInferencePrefetchAdapter S A × StagedInferenceBlock A
  unfolding resolve_entry
  hit key e n a =
      let r = resolve_entry st e a in
      let now = now_of (lookup key r.staging_buffer) e in
      (
        record r {
          staging_buffer = move_to_end key (record now { is_useful = true }) r.staging_buffer;
          counters = record_hit (count_useful r.counters now n) n;
        },
        now,
      )

  abbrev pub or_blank : Option A → A
  or_blank none = blank
  or_blank (some x) = x

  -- two arrays in the default shape, the key first
  abbrev pub both_shaped : A → A → Result (A × A)
  both_shaped k v = do k_ret ← as_default_shape k; v_ret ← as_default_shape v; ok (k_ret, v_ret)

  -- the two arrays of an entry in the default shape; both must be there
  abbrev pub both_or_blank : Option A → Option A → Result (A × A)
  both_or_blank (some k) (some v) = both_shaped k v
  both_or_blank _ _ = both_shaped blank blank

  -- a miss of `n` bytes
  abbrev pub missed : RealInferencePrefetchAdapter S A → S → ℕ → RealInferencePrefetchAdapter S A
  missed a s n = record a {
    storage_backend = s;
    counters = record_miss (record a.counters { misses = a.counters.misses + 1 }) n;
  }

  unfoldable pub read_key_page :
      (layer_idx block_id head_id token_start : ℕ)
      → RealInferencePrefetchAdapter S A
      → RealInferencePrefetchAdapter S A × A
  unfolding hit
  read_key_page layer_idx block_id head_id token_start a =
      elim (lookup (layer_idx, block_id) a.staging_buffer) [
        | some e ↦
            let (r, now) = hit (layer_idx, block_id) e key_page_bytes a in (r, or_blank now.data_k)
        | none ↦
            let (s, k) =
              st.read_key_page a.storage_backend layer_idx block_id head_id token_start in
            (missed a s key_page_bytes, k)
      ]

  unfoldable pub read_value_page :
      (layer_idx block_id head_id token_start : ℕ)
      → RealInferencePrefetchAdapter S A
      → RealInferencePrefetchAdapter S A × A
  unfolding hit
  read_value_page layer_idx block_id head_id token_start a =
      elim (lookup (layer_idx, block_id) a.staging_buffer) [
        | some e ↦
            let (r, now) = hit (layer_idx, block_id) e value_page_bytes a in
            (r, or_blank now.data_v)
        | none ↦
            let (s, v) =
              st.read_value_page a.storage_backend layer_idx block_id head_id token_start in
            (missed a s value_page_bytes, v)
      ]

  unfoldable pub read_block :
      (layer_idx block_id head_id token_start : ℕ)
      → RealInferencePrefetchAdapter S A
      → RealInferencePrefetchAdapter S A × Result (A × A)
  unfolding hit
  read_block layer_idx block_id head_id token_start a =
      elim (lookup (layer_idx, block_id) a.staging_buffer) [
        | some e ↦
            let (r, now) = hit (layer_idx, block_id) e a.bytes_per_block a in
            (r, both_or_blank now.data_k now.data_v)
        | none ↦
            let (s, p) = st.read_block a.storage_backend layer_idx block_id head_id token_start in
            (missed a s a.bytes_per_block, ok p)
      ]

  -- the loop of a batch over the staged blocks: the results so far and the blocks that are missing
  unfoldable pub probe :
      {X : Type 0}
      → ℕ
      → ℕ
      → (StagedInferenceBlock A → Result X)
      → List ℕ
      → RealInferencePrefetchAdapter S A
      → Dict ℕ X × List ℕ
      → RealInferencePrefetchAdapter S A × Result (Dict ℕ X × List ℕ)
  unfolding hit
  probe layer_idx n value [] a found = (a, ok found)
  probe layer_idx n value (bid ∷ bids) a (results, miss_bids) =
      elim (lookup (layer_idx, bid) a.staging_buffer) [
        | some e ↦
            let (r, now) = hit (layer_idx, bid) e n a in
            elim (value now) [
              | ok x ↦ probe layer_idx n value bids r (insert bid x results, miss_bids)
              | err raised ↦ (r, err raised)
            ]
        | none ↦
            probe layer_idx n value bids
              (record a { counters = record a.counters { misses = a.counters.misses + 1 } })
              (results, miss_bids ++ bid ∷ [])
      ]

  abbrev pub count_batch : RealInferencePrefetchAdapter S A → ℕ → RealInferencePrefetchAdapter S A
  count_batch a n = record a {
    counters = record a.counters {
      storage_batches = a.counters.storage_batches + 1;
      batched_requests = a.counters.batched_requests + n;
    };
  }

  -- the blocks that are missing, in one batch of the storage
  unfoldable pub fetch_missing :
      {X : Type 0}
      → (S → ℕ → List ℕ → (head_id token_start : ℕ) → S × Dict ℕ X)
      → (layer_idx n head_id token_start : ℕ) → RealInferencePrefetchAdapter S A
      → Dict ℕ X
      → List ℕ
      → RealInferencePrefetchAdapter S A × Dict ℕ X
  fetch_missing fetch layer_idx n head_id token_start a results [] = (a, results)
  fetch_missing fetch layer_idx n head_id token_start a results (bid ∷ bids) =
      let (s, fetched) = fetch a.storage_backend layer_idx (bid ∷ bids) head_id token_start in
      (
        record a { storage_backend = s; counters = record_misses a.counters (bid ∷ bids) n },
        update fetched results,
      )

  unfoldable pub read_batch :
      {X : Type 0}
      → (S → ℕ → List ℕ → (head_id token_start : ℕ) → S × Dict ℕ X)
      → ℕ
      → (StagedInferenceBlock A → Result X)
      → ℕ
      → List ℕ
      → (head_id token_start : ℕ) → RealInferencePrefetchAdapter S A
      → RealInferencePrefetchAdapter S A × Result (Dict ℕ X)
  unfolding probe fetch_missing
  read_batch fetch n value layer_idx [] head_id token_start a = (a, ok [])
  read_batch fetch n value layer_idx (bid ∷ bids) head_id token_start a =
      let p = probe layer_idx n value (bid ∷ bids) a ([], []) in
      elim p.1 [
        | ok (results, miss_bids) ↦
            let (after, all) =
              fetch_missing fetch layer_idx n head_id token_start p.0 results miss_bids in
            (count_batch after (length (bid ∷ bids)), ok all)
        | err raised ↦ (p.0, err raised)
      ]

  abbrev pub read_key_page_batch :
      ℕ
      → List ℕ
      → (head_id token_start : ℕ) → RealInferencePrefetchAdapter S A
      → RealInferencePrefetchAdapter S A × Result (Dict ℕ A)
  read_key_page_batch =
      read_batch st.read_key_page_batch key_page_bytes (λ e. as_default_shape (or_blank e.data_k))

  abbrev pub read_value_page_batch :
      ℕ
      → List ℕ
      → (head_id token_start : ℕ) → RealInferencePrefetchAdapter S A
      → RealInferencePrefetchAdapter S A × Result (Dict ℕ A)
  read_value_page_batch =
      read_batch st.read_value_page_batch value_page_bytes
        (λ e. as_default_shape (or_blank e.data_v))

  abbrev pub read_block_batch :
      ℕ
      → List ℕ
      → (head_id token_start : ℕ) → RealInferencePrefetchAdapter S A
      → RealInferencePrefetchAdapter S A × Result (Dict ℕ (A × A))
  read_block_batch layer_idx block_ids head_id token_start a =
      read_batch st.read_block_batch a.bytes_per_block (λ e. both_or_blank e.data_k e.data_v)
        layer_idx block_ids head_id token_start a
