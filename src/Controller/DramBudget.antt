-- ===== src/Controller/DramBudget.antt =====
-- The controller's DRAM and what it stores (person1_kv_engine/storage_backend/mock_ssd.py).
use ai_ssd.Prelude.{
  ℕ, Bool, ◌++◌, ◌∙◌, ◌+◌, ◌≤◌, ◌≡◌, refl, ap, inl, inr, true, none, some, List, [], ◌∷◌, arith, ok,
  Option-cases, Bool-cases,
}
use ai_ssd.Prelude.Floats.{Float}
use ai_ssd.Prelude.Dict.{Dict, pair_key, lookup, insert, lookup-insert, lookup-remove}
use ai_ssd.Prefetch.Ordered.{present, insert-absent}
use ai_ssd.Controller.MockSsdController.{
  MockSsdController, Tensor, Entry, payload_bytes, store_kv, load_kv, read_in, evict_kv,
  prefetch_entry, prefetch_kv,
}

module _ (fl : Float) where
  -- the bytes of the stored payloads that are cached
  unfoldable pub cached_bytes : Dict (ℕ × ℕ) Entry → Dict (ℕ × ℕ) Bool → ℕ
  cached_bytes store [] = 0
  cached_bytes store ((key, b) ∷ cache) =
      let rest = cached_bytes store cache in
      elim (lookup key store) [ none ↦ rest | some e ↦ payload_bytes e.k e.v + rest ]

  abbrev pub bytes_cached : MockSsdController fl → ℕ
  bytes_cached c = cached_bytes c.flash_store c.controller_dram_cache

  -- What is cached fits into what is counted as used, this into the capacity, and only stored blocks
  -- are cached.
  unfoldable pub IsBudgeted : MockSsdController fl → Type 0
  IsBudgeted c =
      (bytes_cached c ≤ c.controller_dram_used_bytes)
      × (c.controller_dram_used_bytes ≤ c.dram_capacity_bytes)
      × ((key : ℕ × ℕ)
          → present (lookup key c.controller_dram_cache) ≡ true
          → present (lookup key c.flash_store) ≡ true)

  -- the counter moves with the bytes that are cached
  abbrev pub CountsCached : MockSsdController fl → MockSsdController fl → Type 0
  CountsCached c d =
      d.controller_dram_used_bytes + bytes_cached c ≡ c.controller_dram_used_bytes + bytes_cached d

  cached_bytes_end :
      (store : Dict (ℕ × ℕ) Entry) (cache : Dict (ℕ × ℕ) Bool) (key : ℕ × ℕ) (e : Entry)
      → lookup key store ≡ some e
      → cached_bytes store (cache ++ (key, true) ∷ [])
        ≡ cached_bytes store cache + payload_bytes e.k e.v
  unfolding cached_bytes
  cached_bytes_end store [] key e found = rw (cached_bytes, found) (omega arith)
  cached_bytes_end store ((k, b) ∷ cache) key e found =
      let rest = cached_bytes_end store cache key e found in
      elim (Option-cases (lookup k store)) [
        | inl absent ↦ rw (cached_bytes, absent) rest
        | inr (x, there) ↦ rw (cached_bytes, there) (omega (arith, rest))
      ]

  prefetch_entry_staged :
      (c d : MockSsdController fl) (key : ℕ × ℕ) (e : Entry)
      → prefetch_entry fl c key e ≡ some d
      → (d.controller_dram_used_bytes ≤ d.dram_capacity_bytes)
        × (d.controller_dram_used_bytes ≡ c.controller_dram_used_bytes + payload_bytes e.k e.v)
        × (lookup key c.controller_dram_cache ≡ none)
        × (d.controller_dram_cache ≡ insert key true c.controller_dram_cache)
        × (d.flash_store ≡ c.flash_store)
  unfolding prefetch_entry
  prefetch_entry_staged c d key e eq =
      (ground arith, ground arith, ground arith, ground arith, ground arith)

  prefetch_entry-IsBudgeted :
      (c d : MockSsdController fl) (key : ℕ × ℕ) (e : Entry)
      → lookup key c.flash_store ≡ some e
      → prefetch_entry fl c key e ≡ some d
      → IsBudgeted c
      → IsBudgeted d × CountsCached c d
  unfolding IsBudgeted
  prefetch_entry-IsBudgeted c d key e found eq h =
      let (used, counted, fresh, cache, store) = prefetch_entry_staged c d key e eq in
      let more : bytes_cached d ≡ bytes_cached c + payload_bytes e.k e.v =
        (λ i. cached_bytes (store i) (cache i))
        ∙ ap (cached_bytes c.flash_store) (insert-absent key true c.controller_dram_cache fresh)
        ∙ cached_bytes_end c.flash_store c.controller_dram_cache key e found in
      (
        (
          omega (arith, more, counted, h.0),
          used,
          rw (cache, store) (λ other there. kept c key e found h.2 other there),
        ),
        omega (arith, more, counted),
      )
    where
      kept :
          (c : MockSsdController fl) (key : ℕ × ℕ) (e : Entry)
          → lookup key c.flash_store ≡ some e
          → ((k : ℕ × ℕ)
              → present (lookup k c.controller_dram_cache) ≡ true
              → present (lookup k c.flash_store) ≡ true)
          → (other : ℕ × ℕ)
          → present (lookup other (insert key true c.controller_dram_cache)) ≡ true
          → present (lookup other c.flash_store) ≡ true
      kept c key e found all other there =
          ground (arith, lookup-insert key other true c.controller_dram_cache, all other)

  -- Where the bytes of the cached payloads fit into what is counted as used, this into the
  -- capacity, and only stored blocks are cached, all of this still holds after any prefetch, and
  -- the counter has grown by exactly the bytes that are cached in addition.
  pub prefetch_kv-IsBudgeted :
      (c : MockSsdController fl) (bids : List ℕ) (layer_id : ℕ)
      → IsBudgeted c
      → IsBudgeted (prefetch_kv fl c bids layer_id).0
        × CountsCached c (prefetch_kv fl c bids layer_id).0
  unfolding prefetch_kv
  prefetch_kv-IsBudgeted c [] layer_id h = (h, refl)
  prefetch_kv-IsBudgeted c (bid ∷ bids) layer_id h =
      elim (Option-cases (lookup (layer_id, bid) c.flash_store)) [
        | inl absent ↦ rw (absent, prefetch_kv) (prefetch_kv-IsBudgeted c bids layer_id h)
        | inr (e, found) ↦ elim (Option-cases (prefetch_entry fl c (layer_id, bid) e)) [
          | inl full ↦ rw (found, full, prefetch_kv) (prefetch_kv-IsBudgeted c bids layer_id h)
          | inr (d, staged) ↦
              let (one, moved) = prefetch_entry-IsBudgeted c d (layer_id, bid) e found staged h in
              let (all, rest) = prefetch_kv-IsBudgeted d bids layer_id one in
              rw (found, staged, prefetch_kv) (all, omega (arith, moved, rest))
        ]
      ]

  read_in_traffic :
      (c : MockSsdController fl) (key : ℕ × ℕ) (bytes : ℕ)
      → ((read_in fl c key bytes).traffic.host_to_device ≡ c.traffic.host_to_device)
        × ((read_in fl c key bytes).traffic.device_to_host ≡ c.traffic.device_to_host)
        × ((read_in fl c key bytes).traffic.flash_write ≡ c.traffic.flash_write)
  unfolding read_in
  read_in_traffic c key bytes = elim (Bool-cases (present (lookup key c.controller_dram_cache))) [
    | inl cached ↦ rw (cached, read_in) (refl, refl, refl)
    | inr fresh ↦ rw (fresh, read_in) (refl, refl, refl)
  ]

  abbrev pub Loads : MockSsdController fl → (block_id layer_id : ℕ) → Entry → Type 0
  Loads c block_id layer_id e =
      (d : MockSsdController fl) × (load_kv fl c block_id layer_id ≡ ok (d, e.k, e.v))
      × (d.traffic.host_to_device ≡ c.traffic.host_to_device)
      × (d.traffic.device_to_host ≡ c.traffic.device_to_host + payload_bytes e.k e.v)
      × (d.traffic.flash_write ≡ c.traffic.flash_write)

  load_kv_found :
      (c : MockSsdController fl) (block_id layer_id : ℕ) (e : Entry)
      → lookup (layer_id, block_id) c.flash_store ≡ some e
      → Loads c block_id layer_id e
  unfolding load_kv
  load_kv_found c block_id layer_id e found =
      let bytes = payload_bytes e.k e.v in
      let same = read_in_traffic c (layer_id, block_id) bytes in
      rw (found, load_kv) (_, refl, same.0, ap (λ n. n + bytes) same.1, same.2)

  abbrev pub LoadsStored : MockSsdController fl → (block_id layer_id : ℕ) → Tensor → Tensor → Type 0
  LoadsStored c block_id layer_id k v =
      (d : MockSsdController fl) × (load_kv fl (store_kv fl c block_id layer_id k v).0 block_id
          layer_id
        ≡ ok (d, k, v))
      × (d.traffic.host_to_device ≡ c.traffic.host_to_device + payload_bytes k v)
      × (d.traffic.device_to_host ≡ c.traffic.device_to_host + payload_bytes k v)
      × (d.traffic.flash_write ≡ c.traffic.flash_write + payload_bytes k v)

  -- Loading a block that was just stored gives back its two tensors; the payload is counted once
  -- towards the device, once towards the host and once as written to the flash.
  pub load_kv-store_kv :
      (c : MockSsdController fl) (block_id layer_id : ℕ) (k v : Tensor)
      → LoadsStored c block_id layer_id k v
  unfolding store_kv
  load_kv-store_kv c block_id layer_id k v =
      let e : Entry = record { k = k; v = v; access_count = 0 } in
      let found : lookup (layer_id, block_id) (insert (layer_id, block_id) e c.flash_store)
          ≡ some e =
        ground (arith, lookup-insert (layer_id, block_id) (layer_id, block_id) e c.flash_store) in
      load_kv_found (store_kv fl c block_id layer_id k v).0 block_id layer_id e found

  abbrev pub Evicts : MockSsdController fl → (block_id layer_id : ℕ) → Type 0
  Evicts c block_id layer_id =
      let out = evict_kv fl c block_id layer_id in
      (out.1 ≡ true)
      × (lookup (layer_id, block_id) out.0.flash_store ≡ none)
      × (lookup (layer_id, block_id) out.0.controller_dram_cache ≡ none)
      × (out.0.controller_dram_used_bytes ≡ c.controller_dram_used_bytes)

  -- Evicting a stored block takes it out of the store and out of the cache, also where it was
  -- cached, but the bytes that the cache counts as used stay: they are not given back.
  pub evict_kv_leaks :
      (c : MockSsdController fl) (block_id layer_id : ℕ) (e : Entry)
      → lookup (layer_id, block_id) c.flash_store ≡ some e
      → Evicts c block_id layer_id
  unfolding evict_kv
  evict_kv_leaks c block_id layer_id e found =
      rw (found, evict_kv)
        (
          refl,
          ground (arith, lookup-remove (layer_id, block_id) (layer_id, block_id) c.flash_store),
          ground (
            arith,
            lookup-remove (layer_id, block_id) (layer_id, block_id) c.controller_dram_cache,
          ),
          refl,
        )
