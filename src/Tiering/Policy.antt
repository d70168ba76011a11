-- ===== src/Tiering/Policy.antt =====
-- person1_kv_engine/tiering/hot_cold_classifier.py.
use ai_ssd.Prelude.{ℕ, ◌+◌, ◌-◌, Bool, ◌||◌, ltb}
use ai_ssd.Tiering.Pool.{KvBlock}

pub record TieringPolicy : Type 0 where
  pub sink_tokens : ℕ
  pub sliding_window_tokens : ℕ
  pub max_hot_blocks_per_layer : ℕ
  pub tokens_per_block : ℕ

abbrev pub default_policy : TieringPolicy
default_policy = record {
  sink_tokens = 16;
  sliding_window_tokens = 32;
  max_hot_blocks_per_layer = 4;
  tokens_per_block = 16;
}

module _ (Row : Type 0) where
  unfoldable pub is_hot : TieringPolicy → KvBlock Row → ℕ → Bool
  is_hot policy block total_tokens =
      ltb block.token_start policy.sink_tokens
      || ltb (total_tokens - policy.sliding_window_tokens) (block.token_start + block.token_count)
