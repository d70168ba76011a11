-- ===== src/Controller/MockSsdController.antt =====
-- person1_kv_engine/storage_backend/mock_ssd.py, `MockSSDController`, without the top-k attention
-- inside the storage; `store_kv` is called with the metadata of a block, which nothing else here
-- reads but for its count of accesses, zero at first. A tensor is its bytes with what it
-- holds. The wall-clock time in a block's metadata is left out, and so are the listeners, which
-- are told every event of the log.
use ai_ssd.Prelude.{
  ℕ, ◌+◌, ◌*◌, Bool, true, false, Option, none, some, List, [], ◌∷◌, ◌++◌, leb, Result, ok, err,
  key_error,
}
use ai_ssd.Prelude.Dict.{Dict, pair_key, lookup, insert, remove}
use ai_ssd.Prelude.Floats.{Float}
use ai_ssd.Prefetch.Ordered.{present}
use ai_ssd.Controller.FlashModel.{
  FlashModel, calculate_pcie_transfer_time_us, calculate_flash_read_time_us,
  calculate_flash_write_time_us,
}

pub record Tensor : Type 0 where
  pub nbytes : ℕ
  pub content : List ℕ

pub record Entry : Type 0 where
  pub k : Tensor
  pub v : Tensor
  pub access_count : ℕ

abbrev pub payload_bytes : Tensor → Tensor → ℕ
payload_bytes k v = k.nbytes + v.nbytes

pub data Op : Type 0 where
  store load : Op

pub record Event (F : Type 0) : Type 0 where
  pub op : Op
  pub layer_id : ℕ
  pub block_id : ℕ
  pub bytes : ℕ
  pub sim_time_us : F

-- the counters of bytes and operations
pub record Traffic : Type 0 where
  pub host_to_device : ℕ
  pub device_to_host : ℕ
  pub flash_read : ℕ
  pub flash_write : ℕ
  pub dram_read : ℕ
  pub dram_write : ℕ
  pub nand_read_ops : ℕ
  pub nand_write_ops : ℕ

abbrev pub no_traffic : Traffic
no_traffic = record {
  host_to_device = 0;
  device_to_host = 0;
  flash_read = 0;
  flash_write = 0;
  dram_read = 0;
  dram_write = 0;
  nand_read_ops = 0;
  nand_write_ops = 0;
}

module _ (fl : Float) where
  open fl use {F, zero_f, add}

  pub record MockSsdController : Type 0 where
    pub dram_capacity_bytes : ℕ
    pub flash_model : FlashModel fl
    pub flash_store : Dict (ℕ × ℕ) Entry
    -- the set of cached blocks
    pub controller_dram_cache : Dict (ℕ × ℕ) Bool
    pub controller_dram_used_bytes : ℕ
    pub traffic : Traffic
    pub simulated_time_us : F
    pub trace_log : List (Event F)

  abbrev pub new_controller : ℕ → FlashModel fl → MockSsdController
  new_controller controller_dram_size_mb flash_model = record {
    dram_capacity_bytes = controller_dram_size_mb * 1024 * 1024;
    flash_model = flash_model;
    flash_store = [];
    controller_dram_cache = [];
    controller_dram_used_bytes = 0;
    traffic = no_traffic;
    simulated_time_us = zero_f;
    trace_log = [];
  }

  abbrev pub event : Op → ℕ → ℕ → ℕ → F → Event F
  event op layer_id block_id bytes time = record {
    op = op;
    layer_id = layer_id;
    block_id = block_id;
    bytes = bytes;
    sim_time_us = time;
  }

  unfoldable pub store_kv : MockSsdController → ℕ → ℕ → Tensor → Tensor → MockSsdController × Bool
  store_kv c block_id layer_id key_data value_data =
      let bytes = payload_bytes key_data value_data in
      let time = add c.simulated_time_us (
        add (calculate_pcie_transfer_time_us fl c.flash_model bytes)
          (calculate_flash_write_time_us fl c.flash_model bytes)) in
      (
        record c {
          traffic = record c.traffic {
            host_to_device = c.traffic.host_to_device + bytes;
            flash_write = c.traffic.flash_write + bytes;
            nand_write_ops = c.traffic.nand_write_ops + 1;
          };
          simulated_time_us = time;
          flash_store =
              insert (layer_id, block_id)
                (record { k = key_data; v = value_data; access_count = 0 }) c.flash_store;
          trace_log = c.trace_log ++ event Op.store layer_id block_id bytes time ∷ [];
        },
        true,
      )

  -- a block that is not in the controller's DRAM is read from the flash
  unfoldable pub read_in : MockSsdController → ℕ × ℕ → ℕ → MockSsdController
  read_in c key bytes = elim (present (lookup key c.controller_dram_cache)) [
    | true ↦ record c { traffic = record c.traffic { dram_read = c.traffic.dram_read + bytes } }
    | false ↦ record c {
      traffic = record c.traffic {
        flash_read = c.traffic.flash_read + bytes;
        nand_read_ops = c.traffic.nand_read_ops + 1;
        dram_write = c.traffic.dram_write + bytes;
      };
      simulated_time_us =
          add c.simulated_time_us (calculate_flash_read_time_us fl c.flash_model bytes);
    }
  ]

  unfoldable pub load_kv : MockSsdController → ℕ → ℕ → Result (MockSsdController × Tensor × Tensor)
  unfolding read_in
  load_kv c block_id layer_id = elim (lookup (layer_id, block_id) c.flash_store) [
    | none ↦ err key_error
    | some e ↦
        let bytes = payload_bytes e.k e.v in
        let d = read_in c (layer_id, block_id) bytes in
        let time =
          add d.simulated_time_us (calculate_pcie_transfer_time_us fl c.flash_model bytes) in
        ok (
          record d {
            traffic = record d.traffic { device_to_host = d.traffic.device_to_host + bytes };
            simulated_time_us = time;
            flash_store =
                insert (layer_id, block_id) (record e { access_count = e.access_count + 1 })
                  d.flash_store;
            trace_log = d.trace_log ++ event Op.load layer_id block_id bytes time ∷ [];
          },
          e.k,
          e.v,
        )
  ]

  unfoldable pub evict_kv : MockSsdController → ℕ → ℕ → MockSsdController × Bool
  evict_kv c block_id layer_id = elim (lookup (layer_id, block_id) c.flash_store) [
    | none ↦ (c, false)
    | some e ↦ (
      record c {
        flash_store = remove (layer_id, block_id) c.flash_store;
        controller_dram_cache = remove (layer_id, block_id) c.controller_dram_cache;
      },
      true,
    )
  ]

  -- a round of `prefetch_kv` for a stored block
  unfoldable pub prefetch_entry : MockSsdController → ℕ × ℕ → Entry → Option MockSsdController
  prefetch_entry c key e =
      let bytes = payload_bytes e.k e.v in
      elim (present (lookup key c.controller_dram_cache)) [
        | true ↦ none
        | false ↦ elim (leb (c.controller_dram_used_bytes + bytes) c.dram_capacity_bytes) [
          | false ↦ none
          | true ↦ some (record c {
            controller_dram_cache = insert key true c.controller_dram_cache;
            controller_dram_used_bytes = c.controller_dram_used_bytes + bytes;
            traffic = record c.traffic {
              flash_read = c.traffic.flash_read + bytes;
              nand_read_ops = c.traffic.nand_read_ops + 1;
            };
            simulated_time_us =
                add c.simulated_time_us (calculate_flash_read_time_us fl c.flash_model bytes);
          })
        ]
      ]

  unfoldable pub prefetch_kv : MockSsdController → List ℕ → ℕ → MockSsdController × ℕ
  unfolding prefetch_entry
  prefetch_kv c [] layer_id = (c, 0)
  prefetch_kv c (bid ∷ bids) layer_id = elim (lookup (layer_id, bid) c.flash_store) [
    | none ↦ prefetch_kv c bids layer_id
    | some e ↦ elim (prefetch_entry c (layer_id, bid) e) [
      | none ↦ prefetch_kv c bids layer_id
      | some d ↦ let rest = prefetch_kv d bids layer_id in (rest.0, rest.1 + 1)
    ]
  ]

  unfoldable pub reset_telemetry : MockSsdController → MockSsdController
  reset_telemetry c = record c { traffic = no_traffic; simulated_time_us = zero_f; trace_log = [] }
