-- ===== src/Tests/Simulation.antt =====
-- The latency model and the simulator.
use ai_ssd.Prelude.{◌+◌, ◌*◌, ◌≤◌, List, [], ◌∷◌, arith}
use ai_ssd.Location.Text.{Text, codes}
use ai_ssd.Location.Parse.{extract_channel}
use ai_ssd.Schema.Block.{KvBlock, StorageTier, create_default}
use ai_ssd.Ftl.Conventional.{ConventionalFtl, new_conventional}
use ai_ssd.Ftl.Base.{new_base}
use ai_ssd.Ftl.Allocator.{other_mode, default_geometry}
use ai_ssd.Storage.Latency.{default_model, calculate_batch_read_latency}
use ai_ssd.Storage.Contention.{requests_on, read_latency_lower, read_latency_upper}
use ai_ssd.Storage.Simulator.{StorageSimulator, new_simulator}
use ai_ssd.Storage.Integrity.{IsSound, Stores, store_block_total}
use ai_ssd.Storage.Fresh.{new_simulator-IsSound}

abbrev locations : List Text
locations =
    codes "ch0_die0_pl0_blk0_pg0"
    ∷ codes "ch1_die0_pl0_blk0_pg0"
    ∷ codes "ch0_die1_pl0_blk0_pg0"
    ∷ []

read_latency_lower_example :
    10 + requests_on 0 locations * (25 + 5)
    ≤ calculate_batch_read_latency (default_model 2) locations
unfolding default_model
read_latency_lower_example = read_latency_lower (default_model 2) 0 locations (λ e. cc)

read_latency_upper_example :
    calculate_batch_read_latency (default_model 2) locations ≤ 10 + 2 * (25 + 5)
unfolding default_model requests_on extract_channel
read_latency_upper_example = read_latency_upper (default_model 2) 2 locations (λ ch. ground arith)

abbrev simulator : StorageSimulator
simulator = new_simulator other_mode 1 4 2 64

abbrev sequential : ConventionalFtl
sequential = new_conventional (default_geometry 1)

abbrev block : KvBlock
block = create_default 42 0 0 16 0 1 64 (codes "FP32") StorageTier.gpu (record { num = 1; den = 1 })

new_simulator-IsSound_example : IsSound simulator sequential
new_simulator-IsSound_example = new_simulator-IsSound 1

store_block_total_example : Stores simulator sequential block
unfolding new_conventional new_base
store_block_total_example =
    store_block_total simulator sequential block (new_simulator-IsSound 1) (omega arith)
