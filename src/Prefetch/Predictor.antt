-- ===== src/Prefetch/Predictor.antt =====
-- person3_system/prefetch/history.py and predictor.py.
use ai_ssd.Prelude.{
  map, ℕ, ◌+◌, ◌-◌, ◌%◌, Bool, false, ◌||◌, List, [], ◌∷◌, ◌++◌, ltb, ◌==◌, if◌then◌else◌, length,
  drop, Result, ok, err, zero_division_error,
}

pub record Access : Type 0 where
  pub layer_id : ℕ
  pub block_ids : List ℕ

pub record AccessHistory : Type 0 where
  pub capacity : ℕ
  pub history : List Access

abbrev pub new_history : AccessHistory
new_history = record { capacity = 1000; history = [] }

-- `list.pop(0)` of a list that is not empty
abbrev tail : List Access → List Access
tail [] = []
tail (a ∷ as') = as'

unfoldable pub record_access : AccessHistory → ℕ → List ℕ → AccessHistory
record_access h layer_id block_ids =
    let longer = h.history ++ record { layer_id = layer_id; block_ids = block_ids } ∷ [] in
    record h { history = if ltb h.capacity (length longer) then tail longer else longer }

-- `self._history[-n:]`, which is the whole list at n = 0
unfoldable pub get_recent : AccessHistory → ℕ → List Access
get_recent h n = if n == 0 then h.history else drop (length h.history - n) h.history

pub record NextLayerPredictor : Type 0 where
  pub total_layers : ℕ
  pub history : AccessHistory

abbrev pub new_predictor : ℕ → NextLayerPredictor
new_predictor total_layers = record { total_layers = total_layers; history = new_history }

abbrev pub contains : List ℕ → ℕ → Bool
contains [] a = false
contains (x ∷ xs) a = x == a || contains xs a

-- the loop over the identifiers: a target is appended when it is new
unfoldable pub predict : List ℕ → ℕ → List ℕ → List ℕ
predict [] stride predicted = predicted
predict (bid ∷ bids) stride predicted =
    predict bids stride
      (if contains predicted (bid + stride) then predicted else predicted ++ (bid + stride) ∷ [])

-- Python raises on `% 0` before anything is recorded.
unfoldable pub predict_next_layer_blocks :
    NextLayerPredictor
    → (current_layer_id : ℕ) → (current_block_ids : List ℕ) → (stride : ℕ)
    → Result (NextLayerPredictor × ℕ × List ℕ)
predict_next_layer_blocks p current_layer_id current_block_ids stride =
    if p.total_layers == 0
    then err zero_division_error
    else ok (
      record p { history = record_access p.history current_layer_id current_block_ids },
      (current_layer_id + 1) % p.total_layers,
      predict current_block_ids stride [],
    )

-- The confidence is in percent: 0.90 for every block.
unfoldable pub predict_with_confidence :
    NextLayerPredictor → ℕ → List ℕ → Result (NextLayerPredictor × List (ℕ × ℕ))
unfolding predict_next_layer_blocks
predict_with_confidence p current_layer_id current_block_ids =
    elim (predict_next_layer_blocks p current_layer_id current_block_ids 0) [
      | err e ↦ err e
      | ok (q, next_layer, blocks) ↦ ok (q, map (λ b. (b, 90)) blocks)
    ]
