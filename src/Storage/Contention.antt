-- ===== src/Storage/Contention.antt =====
-- What the batch latencies mean (person2_ssd/storage_model/latency.py): the busiest channel sets
-- the time.
use native.Mathlib.Nat.{mul-le-mul_right}
use ai_ssd.Prelude.{ℕ, ◌+◌, ◌*◌, ◌≤◌, ◌≡◌, ◌≢◌, refl, max, List, [], ◌∷◌, arith, ◌==◌, count_if}
use ai_ssd.Prelude.Dict.{Dict, nat_key, lookup, insert, lookup-insert}
use ai_ssd.Location.Text.{Text}
use ai_ssd.Location.Parse.{extract_channel}
use ai_ssd.Storage.Latency.{
  LatencyModel, or_zero, add_loads, channel_loads, max_value, calculate_batch_read_latency,
}

-- how many of the locations are on a channel
unfoldable pub requests_on : ℕ → List Text → ℕ
requests_on ch = count_if (λ loc. extract_channel loc == ch)

add_loads_lem :
    (ch : ℕ) (locs : List Text) (d : Dict ℕ ℕ)
    → or_zero (lookup ch (add_loads locs d)) ≡ or_zero (lookup ch d) + requests_on ch locs
unfolding add_loads requests_on
add_loads_lem ch [] d = omega arith
add_loads_lem ch (loc ∷ locs) d =
    let c = extract_channel loc in
    let v = or_zero (lookup c d) + 1 in
    ground (arith, add_loads_lem ch locs (insert c v d), lookup-insert c ch v d)

-- The load of a channel is the number of locations on it.
pub channel_loads_lem :
    (ch : ℕ) (locs : List Text) → or_zero (lookup ch (channel_loads locs)) ≡ requests_on ch locs
unfolding channel_loads lookup
channel_loads_lem ch locs = omega (arith, add_loads_lem ch locs [])

lookup-le-max_value : (k : ℕ) (d : Dict ℕ ℕ) → or_zero (lookup k d) ≤ max_value d
unfolding max_value lookup
lookup-le-max_value k [] = omega arith
lookup-le-max_value k ((j, v) ∷ d) = ground (arith, lookup-le-max_value k d)

max_value-insert : (k v : ℕ) (d : Dict ℕ ℕ) → max_value (insert k v d) ≤ max v (max_value d)
unfolding max_value insert
max_value-insert k v [] = omega arith
max_value-insert k v ((j, w) ∷ d) = ground (arith, max_value-insert k v d)

add_loads-le :
    (m : ℕ) (locs : List Text) (d : Dict ℕ ℕ)
    → max_value d ≤ m
    → ((ch : ℕ) → or_zero (lookup ch d) + requests_on ch locs ≤ m)
    → max_value (add_loads locs d) ≤ m
unfolding add_loads requests_on
add_loads-le m [] d h all = h
add_loads-le m (loc ∷ locs) d h all =
    let c = extract_channel loc in
    let v = or_zero (lookup c d) + 1 in
    add_loads-le m locs (insert c v d) (ground (arith, max_value-insert c v d, all c))
      (λ ch. ground (arith, lookup-insert c ch v d, all ch))

-- A batch is read no faster than any one channel can: a channel with n of the locations takes n
-- times the sensing and the transfer, after the PCIe overhead.
pub read_latency_lower :
    (m : LatencyModel) (ch : ℕ) (locs : List Text)
    → locs ≢ []
    → m.pcie_overhead_us + requests_on ch locs * (m.t_r_us + m.bus_transfer_us)
      ≤ calculate_batch_read_latency m locs
unfolding calculate_batch_read_latency
read_latency_lower m ch [] h = absurd (h refl)
read_latency_lower m ch (loc ∷ locs) h =
    let a = channel_loads_lem ch (loc ∷ locs) in
    let b = lookup-le-max_value ch (channel_loads (loc ∷ locs)) in grind arith

-- And no slower than the channels need: where no channel has more than n of the locations, n times
-- the sensing and the transfer are enough, after the PCIe overhead.
pub read_latency_upper :
    (m : LatencyModel) (n : ℕ) (locs : List Text)
    → ((ch : ℕ) → requests_on ch locs ≤ n)
    → calculate_batch_read_latency m locs ≤ m.pcie_overhead_us + n * (m.t_r_us + m.bus_transfer_us)
unfolding calculate_batch_read_latency
read_latency_upper m n [] h = omega arith
read_latency_upper m n (loc ∷ locs) h =
    let a : max_value (channel_loads (loc ∷ locs)) ≤ n =
      unfold channel_loads lookup max_value in
      add_loads-le n (loc ∷ locs) [] (omega arith) (λ ch. omega (arith, h ch)) in
    omega (arith, mul-le-mul_right (m.t_r_us + m.bus_transfer_us) a)
