-- ===== src/Tests/Engine.antt =====
-- Concrete runs of the KV engine: tiers, paged cache and simulated controller.
use ai_ssd.Prelude.{
  ℕ, ◌+◌, ◌-◌, ◌*◌, ◌/◌, ◌≡◌, refl, max, true, false, none, some, [], ◌∷◌, arith, ℕ_discrete,
}
use ai_ssd.Prelude.Dict.{lookup, insert, lookup-insert, nat_key, pair_key}
use ai_ssd.Prelude.Floats.{Float}
use ai_ssd.Location.Text.{codes}
use ai_ssd.Schema.Block.{StorageTier, create_default}
use ai_ssd.Tiering.Pool.{KvBlock, hot_ram}
use ai_ssd.Tiering.Policy.{TieringPolicy}
use ai_ssd.Tiering.Manager.{StorageApi, TieredKvManager, new_manager, slice}
use ai_ssd.Tiering.Windows.{rows_of, rows_of-slice}
use ai_ssd.Cache.Blocks.{BlockObject, new_block_manager, allocate_block}
use ai_ssd.Cache.Hotness.{Heap}
use ai_ssd.Cache.MockSsd.{MockSsd, new_mock_ssd, store_block}
use ai_ssd.Cache.Paged.{PagedKvCache}
use ai_ssd.Cache.Numbered.{IsNumbered}
use ai_ssd.Cache.Offload.{Fills, initialize_context_count, LosesTensors, evict_to_ssd_loses}
use ai_ssd.Controller.FlashModel.{FlashModel}
use ai_ssd.Controller.MockSsdController.{
  MockSsdController, Tensor, Entry, new_controller, store_kv, prefetch_kv,
}
use ai_ssd.Controller.DramBudget.{
  IsBudgeted, CountsCached, cached_bytes, LoadsStored, Evicts, prefetch_kv-IsBudgeted,
  load_kv-store_kv, evict_kv_leaks,
}

-- tokens 16 to 31 of 100
abbrev middle : KvBlock ℕ
middle = record {
  block_id = 1;
  layer_id = 0;
  token_start = 16;
  token_count = 16;
  is_pinned = false;
  is_in_ram = true;
  tier = hot_ram;
  k_data = none;
  v_data = none;
  access_count = 0;
  last_access_step = 0;
}

abbrev no_storage : StorageApi ℕ ℕ
no_storage = record { store_kv = none; store_block = none; load_kv = none; load_block = none }

abbrev small : TieringPolicy
small = record {
  sink_tokens = 1;
  sliding_window_tokens = 1;
  max_hot_blocks_per_layer = 4;
  tokens_per_block = 2;
}

abbrev manager : TieredKvManager ℕ ℕ no_storage
manager = new_manager ℕ ℕ no_storage 1 1 4 0 small

rows_of-slice_example :
    rows_of
      (λ b. b.k_data)
      (slice ℕ ℕ no_storage manager 0 (7 ∷ 8 ∷ 9 ∷ []) (4 ∷ 5 ∷ 6 ∷ []) 0 ((3 + 2 - 1) / 2)).1
    ≡ 7 ∷ 8 ∷ 9 ∷ []
rows_of-slice_example =
    rows_of-slice ℕ ℕ no_storage manager 0 (7 ∷ 8 ∷ 9 ∷ []) (4 ∷ 5 ∷ 6 ∷ []) (omega arith)

abbrev cache : PagedKvCache MockSsd
cache = record {
  layers = 2;
  heads = 2;
  block_tokens = 16;
  block_manager = new_block_manager 16 64 (codes "FP32");
  classifier = record { sink_tokens = 16; recent_tokens = 16 };
  ssd_backend = none;
}

cache-IsNumbered : IsNumbered cache.block_manager
unfolding IsNumbered lookup
cache-IsNumbered = (refl, λ i le. refl)

initialize_context_count_example : Fills store_block cache 40 true
initialize_context_count_example =
    initialize_context_count store_block cache 40 true (omega arith) cache-IsNumbered

abbrev object : BlockObject
object = (allocate_block cache.block_manager 0 0 none 0 1 StorageTier.gpu true).1

abbrev heap : Heap
heap = (0, object) ∷ []

evict_to_ssd_loses_example : LosesTensors (new_mock_ssd 28000) heap 0
unfolding lookup allocate_block create_default ℕ_discrete
evict_to_ssd_loses_example = evict_to_ssd_loses (new_mock_ssd 28000) heap 0 object refl refl refl

-- whole numbers in place of floats
abbrev whole : Float
whole = record {
  F = ℕ;
  zero_f = 0;
  of_ℕ = λ n. n;
  add = λ a b. a + b;
  sub = λ a b. a - b;
  mul = λ a b. a * b;
  div = λ a b. a / b;
  max_f = λ a b. max a b;
}

abbrev model : FlashModel whole
model = record {
  t_read_us = 35;
  t_prog_us = 650;
  pcie_bytes_per_us = 15750;
  bus_bytes_per_us = 1200;
  dma_overhead_us = 1;
  internal_channels = 8;
  page_size_bytes = 16384;
}

abbrev tensor : Tensor
tensor = record { nbytes = 4; content = 1 ∷ 2 ∷ [] }

abbrev controller : MockSsdController whole
controller = new_controller whole 1 model

abbrev loaded : MockSsdController whole
loaded = (store_kv whole controller 5 0 tensor tensor).0

loaded-IsBudgeted : IsBudgeted whole loaded
unfolding IsBudgeted cached_bytes store_kv lookup
loaded-IsBudgeted = (omega arith, omega arith, λ key there. cc)

prefetch_kv-IsBudgeted_example :
    IsBudgeted whole (prefetch_kv whole loaded (5 ∷ 6 ∷ []) 0).0
    × CountsCached whole loaded (prefetch_kv whole loaded (5 ∷ 6 ∷ []) 0).0
prefetch_kv-IsBudgeted_example =
    prefetch_kv-IsBudgeted whole loaded (5 ∷ 6 ∷ []) 0 loaded-IsBudgeted

load_kv-store_kv_example : LoadsStored whole controller 5 0 tensor tensor
load_kv-store_kv_example = load_kv-store_kv whole controller 5 0 tensor tensor

-- the controller with that block in its DRAM
abbrev caching : MockSsdController whole
caching = record loaded {
  controller_dram_cache = ((0, 5), true) ∷ [];
  controller_dram_used_bytes = 8;
}

abbrev entry : Entry
entry = record { k = tensor; v = tensor; access_count = 0 }

evict_kv_leaks_example : Evicts whole caching 5 0
unfolding store_kv
evict_kv_leaks_example =
    let key : ℕ × ℕ = (0, 5) in
    let found : lookup key (insert key entry []) ≡ some entry =
      ground (arith, lookup-insert key key entry []) in
    evict_kv_leaks whole caching 5 0 entry found
