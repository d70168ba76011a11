-- ===== src/Tiering/Pool.antt =====
-- person1_kv_engine/tiering/kv_block.py: blocks and their pool. An array of keys or values is the
-- list of its rows, one for each token. The pool's two dicts hold the same objects; here `blocks`
-- holds the objects and `layer_blocks` their identifiers.
use ai_ssd.Prelude.{ℕ, ◌+◌, ◌*◌, Bool, true, Option, none, some, List, [], ◌∷◌, ◌++◌, length}
use ai_ssd.Prelude.Dict.{Dict, nat_key, lookup, insert}

pub data Tier : Type 0 where
  hot_ram cold_ssd : Tier

module _ (Row : Type 0) where
  pub record KvBlock : Type 0 where
    pub block_id : ℕ
    pub layer_id : ℕ
    pub token_start : ℕ
    pub token_count : ℕ
    pub is_pinned : Bool
    pub is_in_ram : Bool
    pub tier : Tier
    pub k_data : Option (List Row)
    pub v_data : Option (List Row)
    pub access_count : ℕ
    pub last_access_step : ℕ

  -- `row_bytes` is the size of a token's row of an array.
  unfoldable pub total_size_bytes : ℕ → KvBlock → ℕ
  total_size_bytes row_bytes b = elim b.k_data [
    | none ↦ b.token_count * 4 * 32 * 4 * 2
    | some k ↦ elim b.v_data [
      | none ↦ b.token_count * 4 * 32 * 4 * 2
      | some v ↦ length k * row_bytes + length v * row_bytes
    ]
  ]

  pub record KvBlockPool : Type 0 where
    pub tokens_per_block : ℕ
    pub next_id : ℕ
    pub blocks : Dict ℕ KvBlock
    pub layer_blocks : Dict ℕ (List ℕ)

  abbrev pub new_pool : ℕ → KvBlockPool
  new_pool tokens_per_block = record {
    tokens_per_block = tokens_per_block;
    next_id = 0;
    blocks = [];
    layer_blocks = [];
  }

  abbrev pub ids_or_empty : Option (List ℕ) → List ℕ
  ids_or_empty none = []
  ids_or_empty (some ids) = ids

  unfoldable pub layer_ids : KvBlockPool → ℕ → List ℕ
  layer_ids p layer_id = ids_or_empty (lookup layer_id p.layer_blocks)

  -- the objects behind identifiers
  unfoldable pub objects : KvBlockPool → List ℕ → List KvBlock
  objects p [] = []
  objects p (i ∷ ids) = elim (lookup i p.blocks) [
    | none ↦ objects p ids
    | some b ↦ b ∷ objects p ids
  ]

  unfoldable pub get_layer_blocks : KvBlockPool → ℕ → List KvBlock
  unfolding layer_ids objects
  get_layer_blocks p layer_id = objects p (layer_ids p layer_id)

  unfoldable pub get_block : KvBlockPool → ℕ → Option KvBlock
  get_block p block_id = lookup block_id p.blocks

  unfoldable pub all_blocks : KvBlockPool → List KvBlock
  all_blocks p = values p.blocks
    where
      values : Dict ℕ KvBlock → List KvBlock
      values [] = []
      values ((i, b) ∷ d) = b ∷ values d

  unfoldable pub allocate_block :
      KvBlockPool
      → (layer_id token_start token_count : ℕ) → (k_data v_data : Option (List Row))
      → (is_pinned : Bool) → KvBlockPool × KvBlock
  unfolding layer_ids
  allocate_block p layer_id token_start token_count k_data v_data is_pinned =
      let block : KvBlock = record {
        block_id = p.next_id;
        layer_id = layer_id;
        token_start = token_start;
        token_count = token_count;
        is_pinned = is_pinned;
        is_in_ram = true;
        tier = hot_ram;
        k_data = k_data;
        v_data = v_data;
        access_count = 0;
        last_access_step = 0;
      } in
      (
        record p {
          next_id = p.next_id + 1;
          blocks = insert p.next_id block p.blocks;
          layer_blocks = insert layer_id (layer_ids p layer_id ++ p.next_id ∷ []) p.layer_blocks;
        },
        block,
      )
