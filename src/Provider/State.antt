-- ===== src/Provider/State.antt =====
-- person1_kv_engine/adapters/transformer_kv.py: the state of a provider, its prefill and a new
-- token. A tensor of a layer is the list of its rows, one for each token; the batch has one sequence,
-- the layers come in a dict, and a layer has as many keys as values.
use ai_ssd.Prelude.{
  ℕ, zero, suc, ◌+◌, ◌-◌, min, Bool, List, [], ◌∷◌, ◌++◌, length, take, drop, replicate, leb, ◌==◌,
  if◌then◌else◌, Result, ok, err, Error, key_error, value_error, stop_iteration, true, Option, none,
  some,
}
use ai_ssd.Prelude.Dict.{Dict, nat_key, lookup, insert}
use ai_ssd.Provider.Backend.{KvBackend}

-- an entry of `layer_data`
pub record LayerData (T : Type 0) : Type 0 where
  pub sink_k : List T
  pub sink_v : List T
  pub recent_k : List T
  pub recent_v : List T
  pub candidate_blocks : List (ℕ × ℕ)
  pub total_tokens : ℕ

-- the provider with its counters; `blank` is a row of zeros, `quota` the number of blocks that a
-- percentage of the candidates is, rounded up
pub record Provider (T B : Type 0) : Type 0 where
  pub backend : B
  pub sink_tokens : ℕ
  pub recent_tokens : ℕ
  pub tokens_per_block : ℕ
  pub quota : ℕ → ℕ
  pub enable_prefetch : Bool
  pub page_bytes : ℕ
  pub blank : T
  pub layer_data : Dict ℕ (LayerData T)
  pub candidate_k_bytes_to_host : ℕ
  pub winning_v_bytes_to_host : ℕ
  pub is_active : Bool

module _ {T : Type 0} where
  -- `xs[-n:]`, which is all of `xs` for zero
  unfoldable pub last_rows : ℕ → List T → List T
  last_rows n xs = if n == 0 then xs else drop (length xs - n) xs

  -- `xs[a:b]`
  abbrev pub rows_between : ℕ → ℕ → List T → List T
  rows_between a b xs = take (b - a) (drop a xs)

  -- a block of zeros with the rows at its front
  unfoldable pub padded : ℕ → T → List T → List T
  padded tokens_per_block blank rows =
      take tokens_per_block rows
      ++ replicate (tokens_per_block - min tokens_per_block (length rows)) blank

module _ {T B : Type 0} (be : KvBackend B (List T)) where
  open be use {write_block}

  -- the loop over the blocks of the rows that are left; a round for each row is enough
  unfoldable pub offload :
      (fuel tokens_per_block : ℕ) → T → (l_idx bid : ℕ) → List T → List T → B → B × List (ℕ × ℕ)
  unfolding padded
  offload zero n blank l_idx bid k_t v_t b = (b, [])
  offload (suc fuel) n blank l_idx bid [] v_t b = (b, [])
  offload (suc fuel) n blank l_idx bid (k ∷ k_t) v_t b =
      let rows = k ∷ k_t in
      let written = write_block b l_idx bid (padded n blank rows) (padded n blank v_t) in
      let (after, cand_bids) =
        offload fuel n blank l_idx (bid + 1) (drop n rows) (drop n v_t) written in
      (after, (bid, min n (length rows)) ∷ cand_bids)

  -- the body of the loop over the layers; `range` with a step of zero raises
  unfoldable pub init_layer : Provider T B → ℕ → List T → List T → B × Result (LayerData T)
  unfolding offload last_rows
  init_layer p l_idx k_tensor v_tensor =
      let seq_len = length k_tensor in
      let hist_start = p.sink_tokens in
      let hist_end = seq_len - p.recent_tokens in
      let k_t = rows_between hist_start hist_end k_tensor in
      let v_t = rows_between hist_start hist_end v_tensor in
      let (after, cand_bids) =
        offload (length k_t) p.tokens_per_block p.blank l_idx 0 k_t v_t p.backend in
      if leb seq_len (p.sink_tokens + p.recent_tokens)
      then (
        p.backend,
        ok (record {
          sink_k = k_tensor;
          sink_v = v_tensor;
          recent_k = [];
          recent_v = [];
          candidate_blocks = [];
          total_tokens = seq_len;
        }),
      )
      else if p.tokens_per_block == 0
      then (p.backend, err value_error)
      else (
        after,
        ok (record {
          sink_k = take p.sink_tokens k_tensor;
          sink_v = take p.sink_tokens v_tensor;
          recent_k = last_rows p.recent_tokens k_tensor;
          recent_v = last_rows p.recent_tokens v_tensor;
          candidate_blocks = cand_bids;
          total_tokens = seq_len;
        }),
      )

  unfoldable pub init_layers : Dict ℕ (List T × List T) → Provider T B → Provider T B × Option Error
  unfolding init_layer
  init_layers [] p = (record p { is_active = true }, none)
  init_layers ((l_idx, (k, v)) ∷ layers) p = elim (init_layer p l_idx k v).1 [
    | err e ↦ (record p { backend = (init_layer p l_idx k v).0 }, some e)
    | ok ld ↦ init_layers layers (record p {
      backend = (init_layer p l_idx k v).0;
      layer_data = insert l_idx ld p.layer_data;
    })
  ]

  -- The first layer of a prefill without layers raises.
  unfoldable pub init_from_prefill :
      Dict ℕ (List T × List T) → Provider T B → Provider T B × Option Error
  unfolding init_layers
  init_from_prefill [] p = (p, some stop_iteration)
  init_from_prefill (layer ∷ layers) p = init_layers (layer ∷ layers) p

  -- the first row of the window goes, a missing layer raises
  unfoldable pub append_new_token : ℕ → T → T → Provider T B → Provider T B × Option Error
  append_new_token layer_idx k_tok v_tok p = elim (lookup layer_idx p.layer_data) [
    | none ↦ (p, some key_error)
    | some ld ↦ (
      record p {
        layer_data =
            insert layer_idx
              (record ld {
                recent_k = drop 1 ld.recent_k ++ k_tok ∷ [];
                recent_v = drop 1 ld.recent_v ++ v_tok ∷ [];
                total_tokens = ld.total_tokens + 1;
              })
              p.layer_data;
      },
      none,
    )
  ]
