-- ===== src/Prefetch/Requests.antt =====
-- How the second prefetcher (person3_system/prefetch/v2_prefetcher.py) splits a demand.
use ai_ssd.Prelude.{
  ℕ, ◌+◌, ◌-◌, ◌≤◌, ◌≡◌, refl, inl, inr, true, some, List, [], ◌∷◌, ◌++◌, ltb, arith, length,
  length-append, Option-cases, Bool-cases,
}
use ai_ssd.Prelude.Dict.{pair_key, lookup, remove}
use ai_ssd.Prefetch.Ordered.{move_to_end, length-remove_present}
use ai_ssd.Backend.Interface.{StorageRequest, StorageResult}
use ai_ssd.Prefetch.Accounted.{
  StagedBlockEntry, V2Prefetcher, Demand, hit, demand, read_misses, access_blocks,
}

-- from one state of the loop to a later one, `n` blocks on
unfoldable pub Serves : Demand → Demand → ℕ → Type 0
Serves d e n =
    (e.prefetcher.demand_hits + length d.hits ≡ d.prefetcher.demand_hits + length e.hits)
    × (e.prefetcher.demand_misses + length d.misses ≡ d.prefetcher.demand_misses + length e.misses)
    × (length e.hits + length e.misses ≡ length d.hits + length d.misses + n)
    × (length e.prefetcher.staged_buffer ≤ length d.prefetcher.staged_buffer)
    × (e.prefetcher.total_stall_penalty_us ≡ d.prefetcher.total_stall_penalty_us)

length-move_to_end :
    (p : V2Prefetcher) (key : ℕ × ℕ) (e : StagedBlockEntry) (now stalls : ℕ)
    → lookup key p.staged_buffer ≡ some e
    → length (hit p key e now stalls).0.staged_buffer ≤ length p.staged_buffer
unfolding hit move_to_end
length-move_to_end p key e now stalls found =
    let moved : (ℕ × ℕ) × StagedBlockEntry =
      (key, record e { is_useful = true; accessed_at_us = some now }) in
    omega (
      arith,
      length-append (remove key p.staged_buffer) (moved ∷ []),
      length-remove_present key e p.staged_buffer found,
    )

demand-Serves :
    (d : Demand) (layer_id now : ℕ) (bids : List ℕ)
    → Serves d (demand d layer_id now bids) (length bids)
unfolding demand Serves hit
demand-Serves d layer_id now [] = (refl, refl, omega arith, omega arith, refl)
demand-Serves d layer_id now (bid ∷ bids) =
    elim (Option-cases (lookup (layer_id, bid) d.prefetcher.staged_buffer)) [
      | inl absent ↦
          let missed : Demand = record d {
            prefetcher = record d.prefetcher { demand_misses = d.prefetcher.demand_misses + 1 };
            misses = d.misses ++ bid ∷ [];
          } in
          let (h, m, n, s, t) = demand-Serves missed layer_id now bids in
          let one = length-append d.misses (bid ∷ []) in
          rw (absent, demand) (h, omega (arith, m, one), omega (arith, n, one), s, t)
      | inr (e, found) ↦
          let done = hit d.prefetcher (layer_id, bid) e now d.stalls in
          let served : Demand = record d {
            prefetcher = done.0;
            hits = d.hits ++ bid ∷ [];
            stalls = done.1;
          } in
          let (h, m, n, s, t) = demand-Serves served layer_id now bids in
          let one = length-append d.hits (bid ∷ []) in
          let room = length-move_to_end d.prefetcher (layer_id, bid) e now d.stalls found in
          rw (found, demand)
            (omega (arith, h, one), m, omega (arith, n, one), omega (arith, s, room), t)
    ]

module _ {S : Type 0} (submit_batch : S → List StorageRequest → S × List StorageResult) where
  abbrev pub Accesses : V2Prefetcher → S → List ℕ → ℕ → ℕ → Type 0
  Accesses p s bids layer_id now =
      let (after, (hits, misses, net)) = access_blocks submit_batch p s bids layer_id now in
      (length hits + length misses ≡ length bids)
      × (after.0.demand_hits ≡ p.demand_hits + length hits)
      × (after.0.demand_misses ≡ p.demand_misses + length misses)
      × (after.0.total_stall_penalty_us ≡ p.total_stall_penalty_us + net)
      × (length after.0.staged_buffer ≤ length p.staged_buffer)

  -- A demand counts every block once, as a hit or as a miss: the counters grow by the hits and the
  -- misses that are returned, and the total penalty by the stall that is returned, whatever the
  -- backend answers. The staging buffer does not grow.
  pub access_blocks-Serves :
      (p : V2Prefetcher) (s : S) (bids : List ℕ) (layer_id now : ℕ) → Accesses p s bids layer_id now
  unfolding access_blocks Serves
  access_blocks-Serves p s bids layer_id now =
      let start : Demand = record { prefetcher = p; hits = []; misses = []; stalls = 0 } in
      let (h, m, n, b, t) = demand-Serves start layer_id now bids in
      let net : ℕ =
        (demand start layer_id now bids).stalls
        + (read_misses submit_batch (demand start layer_id now bids) s layer_id).1
        - p.gpu_compute_time_per_layer_us in
      elim (Bool-cases (ltb 0 net)) [
        | inl late ↦
            rw (late, access_blocks)
              (omega (arith, n), omega (arith, h), omega (arith, m), omega (arith, t), b)
        | inr in_time ↦
            let none_left : net ≡ 0 = ground arith in
            rw (in_time, access_blocks)
              (omega (arith, n), omega (arith, h), omega (arith, m), omega (arith, t, none_left), b)
      ]
