-- ===== src/Storage/Latency.antt =====
-- person2_ssd/storage_model/latency.py: batch latencies from the load of each channel. Times are
-- whole microseconds, as the constants of common/constants.py are.
use ai_ssd.Prelude.{ℕ, ◌+◌, ◌*◌, max, true, false, Option, none, some, List, [], ◌∷◌, ltb, length}
use ai_ssd.Prelude.Dict.{Dict, nat_key, lookup, insert}
use ai_ssd.Location.Text.{Text}
use ai_ssd.Location.Parse.{extract_channel}

pub record LatencyModel : Type 0 where
  pub t_r_us : ℕ
  pub t_prog_us : ℕ
  pub t_bers_us : ℕ
  pub bus_transfer_us : ℕ
  pub pcie_overhead_us : ℕ
  pub channels : ℕ

-- `LatencyModel(channels=channels)`
unfoldable pub default_model : ℕ → LatencyModel
default_model channels = record {
  t_r_us = 25;
  t_prog_us = 200;
  t_bers_us = 2000;
  bus_transfer_us = 5;
  pcie_overhead_us = 10;
  channels = channels;
}

-- `d.get(k, 0)`
abbrev pub or_zero : Option ℕ → ℕ
or_zero none = 0
or_zero (some n) = n

-- the loop of `_get_channel_loads`
unfoldable pub add_loads : List Text → Dict ℕ ℕ → Dict ℕ ℕ
add_loads [] loads = loads
add_loads (loc ∷ locs) loads =
    let ch = extract_channel loc in add_loads locs (insert ch (or_zero (lookup ch loads) + 1) loads)

unfoldable pub channel_loads : List Text → Dict ℕ ℕ
unfolding add_loads
channel_loads locs = add_loads locs []

-- `max(d.values()) if d else 0`
unfoldable pub max_value : Dict ℕ ℕ → ℕ
max_value [] = 0
max_value ((k, v) ∷ d) = max v (max_value d)

module _ (m : LatencyModel) where
  unfoldable pub calculate_batch_read_latency : List Text → ℕ
  calculate_batch_read_latency [] = 0
  calculate_batch_read_latency (loc ∷ locs) =
      m.pcie_overhead_us + max_value (channel_loads (loc ∷ locs)) * (m.t_r_us + m.bus_transfer_us)

  unfoldable pub calculate_batch_write_latency : List Text → ℕ
  calculate_batch_write_latency [] = 0
  calculate_batch_write_latency (loc ∷ locs) =
      m.pcie_overhead_us
      + max_value (channel_loads (loc ∷ locs)) * (m.bus_transfer_us + m.t_prog_us)

  unfoldable pub calculate_batch_erase_latency : List Text → ℕ
  calculate_batch_erase_latency [] = 0
  calculate_batch_erase_latency (loc ∷ locs) =
      m.pcie_overhead_us + max_value (channel_loads (loc ∷ locs)) * m.t_bers_us

-- `max(d, key=d.get)`: the first key whose value no later one exceeds
abbrev first_max : ℕ → ℕ → Dict ℕ ℕ → ℕ
first_max k v [] = k
first_max k v ((j, w) ∷ d) = elim (ltb v w) [ true ↦ first_max j w d | false ↦ first_max k v d ]

unfoldable pub bottleneck_channel : Dict ℕ ℕ → Option ℕ
bottleneck_channel [] = none
bottleneck_channel ((k, v) ∷ d) = some (first_max k v d)

pub record Breakdown : Type 0 where
  pub total_requests : ℕ
  pub loads : Dict ℕ ℕ
  pub bottleneck : Option ℕ
  pub max_channel_load : ℕ
  pub pcie_overhead : ℕ
  pub read_channel_time : ℕ
  pub total_read_latency : ℕ
  pub write_channel_time : ℕ
  pub total_write_latency : ℕ
  pub total_erase_latency : ℕ

unfoldable pub latency_breakdown : LatencyModel → List Text → Breakdown
latency_breakdown m locs =
    let loads = channel_loads locs in
    let max_load = max_value loads in
    record {
      total_requests = length locs;
      loads = loads;
      bottleneck = bottleneck_channel loads;
      max_channel_load = max_load;
      pcie_overhead = m.pcie_overhead_us;
      read_channel_time = max_load * (m.t_r_us + m.bus_transfer_us);
      total_read_latency = calculate_batch_read_latency m locs;
      write_channel_time = max_load * (m.bus_transfer_us + m.t_prog_us);
      total_write_latency = calculate_batch_write_latency m locs;
      total_erase_latency = calculate_batch_erase_latency m locs;
    }
