-- ===== src/Schema/Block.antt =====
-- common/schemas/kv_block.py: the descriptor of a block of the KV cache. `hotness`, a float there,
-- is an exact fraction here.
use ai_ssd.Prelude.{
  ℕ, ◌+◌, ◌-◌, ◌*◌, Bool, true, false, ◌&&◌, Option, none, [], ◌∷◌, map, ltb, leb, ◌==◌,
  if◌then◌else◌,
}
use ai_ssd.Location.Text.{Text, codes}

pub data StorageTier : Type 0 where
  gpu dram ssd : StorageTier

abbrev pub is_ssd : StorageTier → Bool
is_ssd StorageTier.ssd = true
is_ssd _ = false

pub record Fraction : Type 0 where
  pub num : ℕ
  pub den : ℕ

abbrev pub key_page_bytes : ℕ
key_page_bytes = 4096

pub record KvBlock : Type 0 where
  pub block_id : ℕ
  pub layer_id : ℕ
  pub token_start : ℕ
  pub token_count : ℕ
  pub kv_head_start : ℕ
  pub kv_head_count : ℕ
  pub head_dim : ℕ
  pub dtype : Text
  pub key_size_bytes : ℕ
  pub value_size_bytes : ℕ
  pub storage_tier : StorageTier
  pub hotness : Fraction
  pub physical_location : Option Text

unfoldable pub total_size_bytes : KvBlock → ℕ
total_size_bytes b = b.key_size_bytes + b.value_size_bytes

-- `str.upper` on ASCII text
abbrev pub upper : Text → Text
upper = map (λ c. if leb b'a' c && leb c b'z' then c - 32 else c)

abbrev pub text_eq : Text → Text → Bool
text_eq [] [] = true
text_eq (a ∷ s) (b ∷ t) = a == b && text_eq s t
text_eq _ _ = false

unfoldable pub bytes_per_elem : Text → ℕ
bytes_per_elem dtype =
    if text_eq (upper dtype) (codes "FP32")
    then 4
    else if text_eq (upper dtype) (codes "FP16")
    then 2
    else 1

-- `create_default`, whose arguments are the fields that it does not compute
unfoldable pub create_default :
    (block_id layer_id token_start token_count kv_head_start kv_head_count head_dim : ℕ)
    → Text
    → StorageTier
    → Fraction
    → KvBlock
unfolding bytes_per_elem
create_default block_id layer_id token_start token_count kv_head_start kv_head_count head_dim dtype
      storage_tier hotness =
    let calc_page_size = token_count * kv_head_count * head_dim * bytes_per_elem dtype in
    let page_size =
      if token_count == 0
      then 0
      else if ltb 0 calc_page_size
      then calc_page_size
      else key_page_bytes in
    record {
      block_id = block_id;
      layer_id = layer_id;
      token_start = token_start;
      token_count = token_count;
      kv_head_start = kv_head_start;
      kv_head_count = kv_head_count;
      head_dim = head_dim;
      dtype = dtype;
      key_size_bytes = page_size;
      value_size_bytes = page_size;
      storage_tier = storage_tier;
      hotness = hotness;
      physical_location = none;
    }
