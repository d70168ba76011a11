-- ===== src/Controller/FlashModel.antt =====
-- person1_kv_engine/storage_backend/flash_model.py: the pages and rounds of a transfer, exactly,
-- and its time, a float. The energy account is not modelled.
use ai_ssd.Prelude.{ℕ, ◌+◌, ◌-◌, ◌/◌, ◌==◌, if◌then◌else◌, max, min}
use ai_ssd.Prelude.Floats.{Float}

-- `math.ceil(a / b)`
abbrev pub ceil_div : ℕ → ℕ → ℕ
ceil_div a b = (a + (b - 1)) / b

unfoldable pub pages_needed : ℕ → ℕ → ℕ
pages_needed page_size_bytes num_bytes = max 1 (ceil_div num_bytes page_size_bytes)

unfoldable pub rounds : ℕ → ℕ → ℕ → ℕ
unfolding pages_needed
rounds page_size_bytes internal_channels num_bytes =
    let pages = pages_needed page_size_bytes num_bytes in
    ceil_div pages (min pages internal_channels)

module _ (fl : Float) where
  open fl use {F, zero_f, of_ℕ, add, mul, div}

  pub record FlashModel : Type 0 where
    pub t_read_us : F
    pub t_prog_us : F
    -- the bandwidths in bytes per microsecond, and the fixed cost of a DMA
    pub pcie_bytes_per_us : F
    pub bus_bytes_per_us : F
    pub dma_overhead_us : F
    pub internal_channels : ℕ
    pub page_size_bytes : ℕ

  unfoldable pub calculate_pcie_transfer_time_us : FlashModel → ℕ → F
  calculate_pcie_transfer_time_us m num_bytes =
      if num_bytes == 0
      then zero_f
      else add m.dma_overhead_us (div (of_ℕ num_bytes) m.pcie_bytes_per_us)

  unfoldable pub calculate_flash_read_time_us : FlashModel → ℕ → F
  calculate_flash_read_time_us m num_bytes =
      if num_bytes == 0
      then zero_f
      else mul (of_ℕ (rounds m.page_size_bytes m.internal_channels num_bytes))
          (add m.t_read_us (div (of_ℕ m.page_size_bytes) m.bus_bytes_per_us))

  unfoldable pub calculate_flash_write_time_us : FlashModel → ℕ → F
  calculate_flash_write_time_us m num_bytes =
      if num_bytes == 0
      then zero_f
      else mul (of_ℕ (rounds m.page_size_bytes m.internal_channels num_bytes)) m.t_prog_us
