-- ===== src/Prefetch/Accounts.antt =====
-- The accounts of the second prefetcher (person3_system/prefetch/v2_prefetcher.py).
use ai_ssd.Prelude.{
  Result-cases, ℕ, suc, ◌+◌, ◌-◌, ◌≤◌, ◌<◌, ◌≡◌, refl, inl, inr, true, false, some, List, [], ◌∷◌,
  ◌++◌, leb, ltb, arith, length, map, count_if, ok, Option-cases, Bool-cases,
}
use ai_ssd.Prelude.Dict.{Dict, pair_key, lookup, insert, remove}
use ai_ssd.Prefetch.Ordered.{move_to_end, present}
use ai_ssd.Backend.Interface.{StorageRequest, StorageResult, prefetch}
use ai_ssd.Prefetch.Accounted.{
  StagedBlockEntry, V2Prefetcher, Demand, request_for, evict, choose, stage, hit, demand, is_unread,
  new_entry, prefetch_blocks, read_misses, access_blocks,
}

-- the entries that nobody has read
unfoldable pub unread : Dict (ℕ × ℕ) StagedBlockEntry → ℕ
unread d = count_if is_unread d

-- every prefetch that was useful, was evicted unread or waits unread was once requested
unfoldable pub IsAccounted : V2Prefetcher → Type 0
unfolding unread
IsAccounted p =
    p.useful_prefetches + (p.useless_prefetches + unread p.staged_buffer) ≤ p.prefetch_requests

unread-insert :
    (key : ℕ × ℕ) (e : StagedBlockEntry) (d : Dict (ℕ × ℕ) StagedBlockEntry)
    → unread (insert key e d) ≤ suc (unread d)
unfolding unread insert
unread-insert key e [] = ground arith
unread-insert key e ((j, f) ∷ d) = ground (arith, unread-insert key e d)

unread-remove-le :
    (key : ℕ × ℕ) (d : Dict (ℕ × ℕ) StagedBlockEntry) → unread (remove key d) ≤ unread d
unfolding unread remove
unread-remove-le key [] = omega arith
unread-remove-le key ((j, f) ∷ d) = ground (arith, unread-remove-le key d)

unread-remove :
    (key : ℕ × ℕ) (e : StagedBlockEntry) (d : Dict (ℕ × ℕ) StagedBlockEntry)
    → lookup key d ≡ some e
    → e.is_useful ≡ false
    → unread (remove key d) < unread d
unfolding unread remove lookup
unread-remove key e [] found new = cc
unread-remove key e ((j, f) ∷ d) found new =
    ground (arith, unread-remove key e d, unread-remove-le key d)

unread-append_read :
    (item : (ℕ × ℕ) × StagedBlockEntry) (d : Dict (ℕ × ℕ) StagedBlockEntry)
    → item.1.is_useful ≡ true
    → unread (d ++ item ∷ []) ≡ unread d
unfolding unread
unread-append_read item [] read = ground arith
unread-append_read item (j ∷ d) read = ground (arith, unread-append_read item d)

evict-IsAccounted : (p q : V2Prefetcher) → evict p ≡ ok q → IsAccounted p → IsAccounted q
unfolding evict IsAccounted unread
evict-IsAccounted p q e h = ground arith

choose-IsAccounted :
    (p : V2Prefetcher) (layer_id : ℕ) (bids chosen : List ℕ)
    → IsAccounted p
    → IsAccounted (choose p layer_id bids chosen).0
unfolding choose
choose-IsAccounted p layer_id [] chosen h = h
choose-IsAccounted p layer_id (bid ∷ bids) chosen h =
    elim (Bool-cases (present (lookup (layer_id, bid) p.staged_buffer))) [
      | inl there ↦ rw (there, choose) (choose-IsAccounted p layer_id bids chosen h)
      | inr absent ↦ elim (Bool-cases (leb p.buffer_capacity (length p.staged_buffer))) [
        | inr room ↦
            rw (absent, room, choose) (choose-IsAccounted p layer_id bids (chosen ++ bid ∷ []) h)
        | inl full ↦ elim (Result-cases (evict p)) [
          | inl (q, left) ↦
              rw (absent, full, left, choose)
                (choose-IsAccounted q layer_id bids (chosen ++ bid ∷ [])
                  (evict-IsAccounted p q left h))
          | inr (e, raised) ↦ rw (absent, full, raised, choose) h
        ]
      ]
    ]

stage-IsAccounted :
    (p : V2Prefetcher) (layer_id now : ℕ) (results : List StorageResult)
    → IsAccounted p
    → IsAccounted (stage p layer_id now results)
unfolding stage IsAccounted
stage-IsAccounted p layer_id now [] h = h
stage-IsAccounted p layer_id now (res ∷ results) h =
    stage-IsAccounted
      (record p {
        prefetch_requests = p.prefetch_requests + 1;
        staged_buffer =
            insert (layer_id, res.block_id) (new_entry layer_id now res) p.staged_buffer;
      })
      layer_id now results
      (omega (
        arith,
        h,
        unread-insert (layer_id, res.block_id) (new_entry layer_id now res) p.staged_buffer,
      ))

hit-IsAccounted :
    (p : V2Prefetcher) (key : ℕ × ℕ) (e : StagedBlockEntry) (now stalls : ℕ)
    → lookup key p.staged_buffer ≡ some e
    → IsAccounted p
    → IsAccounted (hit p key e now stalls).0
unfolding hit IsAccounted move_to_end
hit-IsAccounted p key e now stalls found h =
    let moved : (ℕ × ℕ) × StagedBlockEntry =
      (key, record e { is_useful = true; accessed_at_us = some now }) in
    let same = unread-append_read moved (remove key p.staged_buffer) refl in
    elim (Bool-cases e.is_useful) [
      | inl read ↦ rw read (omega (arith, h, same, unread-remove-le key p.staged_buffer))
      | inr new ↦ rw new (omega (arith, h, same, unread-remove key e p.staged_buffer found new))
    ]

demand-IsAccounted :
    (d : Demand) (layer_id now : ℕ) (bids : List ℕ)
    → IsAccounted d.prefetcher
    → IsAccounted (demand d layer_id now bids).prefetcher
unfolding demand IsAccounted
demand-IsAccounted d layer_id now [] h = h
demand-IsAccounted d layer_id now (bid ∷ bids) h =
    elim (Option-cases (lookup (layer_id, bid) d.prefetcher.staged_buffer)) [
      | inl absent ↦
          rw (absent, demand)
            (demand-IsAccounted
              (record d {
                prefetcher = record d.prefetcher { demand_misses = d.prefetcher.demand_misses + 1 };
                misses = d.misses ++ bid ∷ [];
              })
              layer_id now bids h)
      | inr (e, found) ↦
          let done = hit d.prefetcher (layer_id, bid) e now d.stalls in
          rw (found, demand)
            (demand-IsAccounted
              (record d { prefetcher = done.0; hits = d.hits ++ bid ∷ []; stalls = done.1 })
              layer_id now bids
              (hit-IsAccounted d.prefetcher (layer_id, bid) e now d.stalls found h))
    ]

module _ {S : Type 0} (submit_batch : S → List StorageRequest → S × List StorageResult) where
  -- Whatever the backend answers, a prefetch keeps the accounts: no more prefetches are useful,
  -- evicted unread or still unread than were requested.
  pub prefetch_blocks-IsAccounted :
      (p : V2Prefetcher) (s : S) (bids : List ℕ) (layer_id now : ℕ)
      → IsAccounted p
      → IsAccounted (prefetch_blocks submit_batch p s bids layer_id now).0.0
  unfolding prefetch_blocks IsAccounted
  prefetch_blocks-IsAccounted p s bids layer_id now h =
      let chosen = choose-IsAccounted p layer_id bids [] h in
      elim (Result-cases (choose p layer_id bids []).1) [
        | inr (e, raised) ↦ rw (raised, prefetch_blocks) chosen
        | inl ([], none_left) ↦ rw (none_left, prefetch_blocks) chosen
        | inl (bid ∷ rest, some_left) ↦
            rw (some_left, prefetch_blocks)
              (stage-IsAccounted (choose p layer_id bids []).0 layer_id now
                (submit_batch s (map (request_for p prefetch layer_id) (bid ∷ rest))).1 chosen)
      ]

  -- A demand keeps the accounts, too.
  pub access_blocks-IsAccounted :
      (p : V2Prefetcher) (s : S) (bids : List ℕ) (layer_id now : ℕ)
      → IsAccounted p
      → IsAccounted (access_blocks submit_batch p s bids layer_id now).0.0
  unfolding access_blocks IsAccounted
  access_blocks-IsAccounted p s bids layer_id now h =
      let start : Demand = record { prefetcher = p; hits = []; misses = []; stalls = 0 } in
      let done = demand-IsAccounted start layer_id now bids h in
      let net =
        (demand start layer_id now bids).stalls
        + (read_misses submit_batch (demand start layer_id now bids) s layer_id).1
        - p.gpu_compute_time_per_layer_us in
      elim (Bool-cases (ltb 0 net)) [
        | inl late ↦ rw (late, access_blocks) done
        | inr in_time ↦ rw (in_time, access_blocks) done
      ]
