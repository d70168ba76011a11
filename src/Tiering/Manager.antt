-- ===== src/Tiering/Manager.antt =====
-- person1_kv_engine/tiering/tiered_kv_manager.py, `TieredKVManager`. The storage is any object
-- that may have `store_kv` or `store_block`, `load_kv` or `load_block`: a state with four optional
-- operations. A row is one token's keys or values for all heads.
use ai_ssd.Prelude.{
  ℕ, zero, suc, ◌+◌, ◌-◌, ◌*◌, ◌/◌, true, false, not, ◌&&◌, Option, none, some, List, [], ◌∷◌, ◌++◌,
  ltb, ◌==◌, if◌then◌else◌, length, min, take, drop, Result, ok, err, value_error, attribute_error,
  zero_division_error,
}
use ai_ssd.Prelude.Dict.{nat_key, insert}
use ai_ssd.Tiering.Pool.{
  KvBlock, KvBlockPool, new_pool, get_layer_blocks, get_block, all_blocks, allocate_block, hot_ram,
  cold_ssd,
}
use ai_ssd.Tiering.Policy.{TieringPolicy, is_hot}

pub record StorageApi (Row S : Type 0) : Type 0 where
  pub store_kv : Option (S → ℕ → ℕ → Option (List Row) → Option (List Row) → S)
  pub store_block : Option (S → KvBlock Row → S)
  pub load_kv : Option (S → ℕ → ℕ → S × List Row × List Row)
  pub load_block : Option (S → ℕ → S × List Row × List Row)

module _ (Row S : Type 0) (api : StorageApi Row S) where
  pub record TieredKvManager : Type 0 where
    pub num_heads : ℕ
    pub head_dim : ℕ
    pub elem_bytes : ℕ
    pub storage : S
    pub policy : TieringPolicy
    pub block_pool : KvBlockPool Row

  abbrev pub new_manager : ℕ → ℕ → ℕ → S → TieringPolicy → TieredKvManager
  new_manager num_heads head_dim elem_bytes storage policy = record {
    num_heads = num_heads;
    head_dim = head_dim;
    elem_bytes = elem_bytes;
    storage = storage;
    policy = policy;
    block_pool = new_pool Row policy.tokens_per_block;
  }

  -- the object of a block changes, in both of the pool's dicts
  abbrev pub update_block : KvBlockPool Row → KvBlock Row → KvBlockPool Row
  update_block p b = record p { blocks = insert b.block_id b p.blocks }

  unfoldable pub store : S → ℕ → KvBlock Row → S
  store s layer_id b = elim api.store_kv [
    | some store_kv ↦ store_kv s b.block_id layer_id b.k_data b.v_data
    | none ↦ elim api.store_block [ some store_block ↦ store_block s b | none ↦ s ]
  ]

  abbrev pub cooled : KvBlock Row → KvBlock Row
  cooled b = record b { is_in_ram = false; tier = cold_ssd; k_data = none; v_data = none }

  -- a cold block goes to the SSD and its arrays are dropped
  unfoldable pub offload : TieredKvManager → ℕ → KvBlock Row → TieredKvManager
  unfolding store
  offload m layer_id b = record m {
    storage = store m.storage layer_id b;
    block_pool = update_block m.block_pool (cooled b);
  }

  -- the rows that a prefill cuts out for a block
  unfoldable pub chunk : List Row → ℕ → ℕ → List Row
  chunk rows t_start t_end = take (t_end - t_start) (drop t_start rows)

  -- the first loop: the blocks `b_idx`, `b_idx + 1`, … are cut and allocated
  unfoldable pub slice :
      TieredKvManager
      → (layer_id : ℕ) → (k_seq v_seq : List Row) → (b_idx rounds : ℕ)
      → TieredKvManager × List (KvBlock Row)
  unfolding chunk
  slice m layer_id k_seq v_seq b_idx zero = (m, [])
  slice m layer_id k_seq v_seq b_idx (suc rounds) =
      let t_start = b_idx * m.policy.tokens_per_block in
      let t_end = min (t_start + m.policy.tokens_per_block) (length k_seq) in
      let one =
        allocate_block Row m.block_pool layer_id t_start (t_end - t_start)
          (some (chunk k_seq t_start t_end)) (some (chunk v_seq t_start t_end))
          (ltb t_start m.policy.sink_tokens) in
      let rest = slice (record m { block_pool = one.0 }) layer_id k_seq v_seq (b_idx + 1) rounds in
      (rest.0, one.1 ∷ rest.1)

  unfoldable pub offload_prefilled : TieredKvManager → ℕ → ℕ → List (KvBlock Row) → TieredKvManager
  unfolding offload
  offload_prefilled m layer_id seq_len [] = m
  offload_prefilled m layer_id seq_len (b ∷ bs) =
      offload_prefilled (if is_hot Row m.policy b seq_len then m else offload m layer_id b) layer_id
        seq_len bs

  unfoldable pub prefill_sequence :
      TieredKvManager → ℕ → List Row → List Row → Result TieredKvManager
  unfolding slice offload_prefilled
  prefill_sequence m layer_id k_seq v_seq =
      let tokens_per_block = m.policy.tokens_per_block in
      if tokens_per_block == 0
      then err zero_division_error
      else (let done =
            slice m layer_id k_seq v_seq 0
              ((length k_seq + tokens_per_block - 1) / tokens_per_block) in
          ok (offload_prefilled done.0 layer_id (length k_seq) done.1))

  abbrev pub last : List (KvBlock Row) → Option (KvBlock Row)
  last [] = none
  last (b ∷ []) = some b
  last (b ∷ c ∷ bs) = last (c ∷ bs)

  abbrev pub sum_tokens : List (KvBlock Row) → ℕ
  sum_tokens [] = 0
  sum_tokens (b ∷ bs) = b.token_count + sum_tokens bs

  -- A token is put behind a block's arrays; where one of them is missing, both start anew.
  unfoldable pub extend : KvBlock Row → Row → Row → KvBlock Row
  extend b k_token v_token = elim b.k_data [
    | some k ↦ elim b.v_data [
      | some v ↦ record b {
        token_count = b.token_count + 1;
        k_data = some (k ++ k_token ∷ []);
        v_data = some (v ++ v_token ∷ []);
      }
      | none ↦ record b {
        token_count = b.token_count + 1;
        k_data = some (k_token ∷ []);
        v_data = some (v_token ∷ []);
      }
    ]
    | none ↦ record b {
      token_count = b.token_count + 1;
      k_data = some (k_token ∷ []);
      v_data = some (v_token ∷ []);
    }
  ]

  -- the token gets a place: in the last block of the layer or in a new one
  unfoldable pub place_token : TieredKvManager → ℕ → Row → Row → TieredKvManager
  unfolding extend
  place_token m layer_id k_token v_token =
      let layer_blocks = get_layer_blocks Row m.block_pool layer_id in
      let fresh = record m {
        block_pool =
            (allocate_block Row m.block_pool layer_id (sum_tokens layer_blocks) 1
              (some (k_token ∷ [])) (some (v_token ∷ [])) false).0;
      } in
      elim (last layer_blocks) [
        | none ↦ fresh
        | some b ↦ elim (ltb b.token_count m.policy.tokens_per_block) [
          | true ↦ record m { block_pool = update_block m.block_pool (extend b k_token v_token) }
          | false ↦ fresh
        ]
      ]

  -- the loop at the end of `append_token`
  unfoldable pub offload_cold : TieredKvManager → ℕ → ℕ → List (KvBlock Row) → TieredKvManager
  unfolding offload
  offload_cold m layer_id total_tokens [] = m
  offload_cold m layer_id total_tokens (b ∷ bs) =
      offload_cold
        (if b.is_in_ram && not b.is_pinned && not (is_hot Row m.policy b total_tokens)
          then offload m layer_id b
          else m)
        layer_id total_tokens bs

  unfoldable pub append_token : TieredKvManager → ℕ → Row → Row → TieredKvManager
  unfolding place_token offload_cold
  append_token m layer_id k_token v_token =
      let placed = place_token m layer_id k_token v_token in
      let layer_blocks = get_layer_blocks Row placed.block_pool layer_id in
      offload_cold placed layer_id (sum_tokens layer_blocks) layer_blocks

  -- what the storage answers; `AttributeError` where it has neither method
  unfoldable pub load : S → ℕ → ℕ → Result (S × List Row × List Row)
  load s block_id layer_id = elim api.load_kv [
    | some load_kv ↦ ok (load_kv s block_id layer_id)
    | none ↦ elim api.load_block [
      | some load_block ↦ ok (load_block s block_id)
      | none ↦ err attribute_error
    ]
  ]

  unfoldable pub fetch_cold_block : TieredKvManager → ℕ → ℕ → Result (TieredKvManager × KvBlock Row)
  unfolding load
  fetch_cold_block m block_id layer_id = elim (get_block Row m.block_pool block_id) [
    | none ↦ err value_error
    | some b ↦ elim b.is_in_ram [
      | true ↦ ok (m, b)
      | false ↦ elim (load m.storage block_id layer_id) [
        | err e ↦ err e
        | ok (s, k_block, v_block) ↦
            let fetched : KvBlock Row = record b {
              k_data = some k_block;
              v_data = some v_block;
              is_in_ram = true;
              tier = hot_ram;
            } in
            ok (record m { storage = s; block_pool = update_block m.block_pool fetched }, fetched)
      ]
    ]
  ]

  abbrev pub range : ℕ → ℕ → List ℕ
  range start zero = []
  range start (suc n) = start ∷ range (suc start) n

  unfoldable pub gather_hot : List (KvBlock Row) → List Row × List Row × List ℕ
  gather_hot [] = ([], [], [])
  gather_hot (b ∷ bs) =
      let (ks, vs, indices) = gather_hot bs in
      elim b.is_in_ram [
        | false ↦ (ks, vs, indices)
        | true ↦ elim b.k_data [
          | none ↦ (ks, vs, indices)
          | some k ↦ elim b.v_data [
            | none ↦ (ks, vs, indices)
            | some v ↦ (k ++ ks, v ++ vs, range b.token_start b.token_count ++ indices)
          ]
        ]
      ]

  unfoldable pub get_hot_kv : TieredKvManager → ℕ → List Row × List Row × List ℕ
  unfolding gather_hot
  get_hot_kv m layer_id = gather_hot (get_layer_blocks Row m.block_pool layer_id)

  abbrev pub cold_only : List (KvBlock Row) → List (KvBlock Row)
  cold_only [] = []
  cold_only (b ∷ bs) = let rest = cold_only bs in if b.is_in_ram then rest else b ∷ rest

  unfoldable pub get_cold_blocks : TieredKvManager → ℕ → List (KvBlock Row)
  get_cold_blocks m layer_id = cold_only (get_layer_blocks Row m.block_pool layer_id)

  abbrev pub ram_bytes : ℕ → List (KvBlock Row) → ℕ
  ram_bytes row [] = 0
  ram_bytes row (b ∷ bs) =
      let rest = ram_bytes row bs in
      elim b.is_in_ram [
        | false ↦ rest
        | true ↦ elim b.k_data [
          | none ↦ rest
          | some k ↦ elim b.v_data [ none ↦ rest | some v ↦ length k * row + length v * row + rest ]
        ]
      ]

  unfoldable pub get_host_ram_usage_bytes : TieredKvManager → ℕ
  get_host_ram_usage_bytes m =
      ram_bytes (m.num_heads * m.head_dim * m.elem_bytes) (all_blocks Row m.block_pool)

  unfoldable pub get_offloaded_storage_bytes : TieredKvManager → ℕ
  get_offloaded_storage_bytes m =
      2
      * sum_tokens (cold_only (all_blocks Row m.block_pool))
      * m.num_heads
      * m.head_dim
      * m.elem_bytes
