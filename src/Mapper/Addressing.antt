-- ===== src/Mapper/Addressing.antt =====
-- person2_ssd/kv_allocator/tensor_mapping.py, `DeterministicTensorMapper`. A division by zero
-- raises before anything else is computed with its result.
use ai_ssd.Prelude.{
  ℕ, ◌+◌, ◌*◌, ◌/◌, ◌%◌, ◌||◌, Option, none, some, Result, ok, err, value_error,
  zero_division_error, ◌==◌, if◌then◌else◌,
}
use ai_ssd.Prelude.Dict.{Dict, nat_key, lookup}
use ai_ssd.Location.Text.{Location}
use ai_ssd.Mapper.Coordinates.{
  TensorCoordinate, token_block_idx, LbaAddress, MappingMode, conventional, tensor_aware, unknown,
}

pub record DeterministicTensorMapper : Type 0 where
  pub channels : ℕ
  pub dies_per_channel : ℕ
  pub planes_per_die : ℕ
  pub blocks_per_plane : ℕ
  pub pages_per_block : ℕ
  pub sector_size_bytes : ℕ
  pub max_tokens_per_head : ℕ
  pub num_layers : ℕ
  pub num_heads : ℕ
  pub blocks_per_head : ℕ
  pub total_device_blocks : ℕ

unfoldable pub new_mapper :
    (channels dies_per_channel planes_per_die blocks_per_plane pages_per_block sector_size_bytes
      max_tokens_per_head num_layers num_heads : ℕ)
    → DeterministicTensorMapper
new_mapper channels dies_per_channel planes_per_die blocks_per_plane pages_per_block
      sector_size_bytes max_tokens_per_head num_layers num_heads =
    record {
      channels = channels;
      dies_per_channel = dies_per_channel;
      planes_per_die = planes_per_die;
      blocks_per_plane = blocks_per_plane;
      pages_per_block = pages_per_block;
      sector_size_bytes = sector_size_bytes;
      max_tokens_per_head = max_tokens_per_head;
      num_layers = num_layers;
      num_heads = num_heads;
      blocks_per_head = max_tokens_per_head / 16;
      total_device_blocks =
          channels * dies_per_channel * planes_per_die * blocks_per_plane * pages_per_block;
    }

module _ (m : DeterministicTensorMapper) where
  -- the index of a block among those of all heads
  unfoldable pub raw_lba : (layer head b_idx : ℕ) → ℕ
  raw_lba layer head b_idx = (layer * m.num_heads + head) * m.blocks_per_head + b_idx

  unfoldable pub target_channel : (layer head b_idx : ℕ) → ℕ
  target_channel layer head b_idx = (layer + head + b_idx + b_idx / m.channels) % m.channels

  unfoldable pub target_die : (layer head b_idx : ℕ) → ℕ
  target_die layer head b_idx =
      (layer + head / m.channels + b_idx / m.channels) % m.dies_per_channel

  unfoldable pub target_plane : ℕ → ℕ
  target_plane b_idx = b_idx / (m.channels * m.dies_per_channel) % m.planes_per_die

  unfoldable pub stripe_unit : ℕ
  stripe_unit = m.total_device_blocks / (m.channels * m.dies_per_channel)

  -- the address in the tensor-aware mode
  unfoldable pub striped_lba : (layer head b_idx : ℕ) → ℕ
  unfolding raw_lba target_channel target_die stripe_unit
  striped_lba layer head b_idx =
      (target_channel layer head b_idx * m.dies_per_channel + target_die layer head b_idx)
        * stripe_unit
      + raw_lba layer head b_idx % stripe_unit

  abbrev pub address : ℕ → MappingMode → LbaAddress
  address lba mode = record { lba = lba; sector_size_bytes = m.sector_size_bytes; mode = mode }

  unfoldable pub tensor_to_lba : TensorCoordinate → MappingMode → Result LbaAddress
  unfolding stripe_unit
  tensor_to_lba c unknown = err value_error
  tensor_to_lba c conventional =
      if m.total_device_blocks == 0
      then err zero_division_error
      else ok (
          address (raw_lba c.layer_id c.head_id (token_block_idx c) % m.total_device_blocks)
            conventional)
  tensor_to_lba c tensor_aware =
      if m.channels == 0 || m.dies_per_channel == 0 || stripe_unit == 0
      then err zero_division_error
      else ok (address (striped_lba c.layer_id c.head_id (token_block_idx c)) tensor_aware)

  -- `channel_counters.get(ch, 0)`, where the counters are given
  abbrev pub counter_of : Option (Dict ℕ ℕ) → ℕ → ℕ
  counter_of none ch = 0
  counter_of (some counters) ch = elim (lookup ch counters) [ none ↦ 0 | some n ↦ n ]

  -- the page of a die and plane that a counter stands for
  abbrev pub at_counter : (channel die plane counter : ℕ) → Location
  at_counter channel die plane counter = record {
    channel = channel;
    die = die;
    plane = plane;
    block = counter / m.pages_per_block % m.blocks_per_plane;
    page = counter % m.pages_per_block;
  }

  unfoldable pub tensor_to_nand_physical :
      TensorCoordinate → MappingMode → Option (Dict ℕ ℕ) → Result Location
  unfolding target_channel target_die target_plane
  tensor_to_nand_physical c unknown counters = err value_error
  tensor_to_nand_physical c conventional counters =
      if m.pages_per_block == 0 || m.blocks_per_plane == 0
      then err zero_division_error
      else ok (at_counter 0 0 0 (counter_of counters 0))
  tensor_to_nand_physical c tensor_aware counters =
      let b_idx = token_block_idx c in
      let ch = target_channel c.layer_id c.head_id b_idx in
      if m.channels == 0
        || m.dies_per_channel == 0
        || m.planes_per_die == 0
        || m.pages_per_block == 0
        || m.blocks_per_plane == 0
      then err zero_division_error
      else ok (
          at_counter ch (target_die c.layer_id c.head_id b_idx) (target_plane b_idx)
            (counter_of counters ch))
