-- ===== src/Provider/Backend.antt =====
-- What person1_kv_engine/adapters/transformer_kv.py uses of the storage behind it: a backend that
-- has `read_key_page_batch`, `read_value_page_batch` and `predict_and_prefetch`. `A` is a block of
-- rows. Only a prediction may raise.
use ai_ssd.Prelude.{ℕ, ◌≡◌, ◌≢◌, Option, none, some, List, All, Error}
use ai_ssd.Prelude.Dict.{Dict, nat_key, lookup}

pub record KvBackend (B A : Type 0) : Type 0 where
  pub write_block : B → (layer_idx block_id : ℕ) → (k_block v_block : A) → B
  pub read_key_page_batch : B → ℕ → List ℕ → B × Dict ℕ A
  pub read_value_page_batch : B → ℕ → List ℕ → B × Dict ℕ A
  pub predict_and_prefetch : B → (current_layer_id : ℕ) → List ℕ → B × Option Error

-- A batch read gives a part of what is held, for every block that was asked for, and leaves it.
pub record IsReader {B A : Type 0} (held : B → ℕ → ℕ → A × A) (Ready : B → Type 0)
    (part : A × A → A) (read : B → ℕ → List ℕ → B × Dict ℕ A) : Type 0 where
  pub values :
      (b : B) (l : ℕ) (bids : List ℕ)
      → Ready b
      → All (λ i. lookup i (read b l bids).1 ≡ some (part (held b l i))) bids
  pub keeps :
      (b : B) (l : ℕ) (bids : List ℕ) (m i : ℕ) → Ready b → held (read b l bids).0 m i ≡ held b m i
  pub stays : (b : B) (l : ℕ) (bids : List ℕ) → Ready b → Ready (read b l bids).0

-- What a backend promises: it is written while it is `Fresh`; a `Ready` one reads what it holds,
-- predicts without a raise, and stays so.
pub record IsSound {B A : Type 0} (be : KvBackend B A) : Type 1 where
  pub held : B → ℕ → ℕ → A × A
  pub Fresh : B → Type 0
  pub Ready : B → Type 0
  pub ready : (b : B) → Fresh b → Ready b
  pub written : (b : B) (l i : ℕ) (k v : A) → Fresh b → held (be.write_block b l i k v) l i ≡ (k, v)
  pub written_ne :
      (b : B) (l i m j : ℕ) (k v : A)
      → Fresh b
      → ◌≢◌ {A = ℕ × ℕ} (l, i) (m, j)
      → held (be.write_block b l i k v) m j ≡ held b m j
  pub stays_fresh : (b : B) (l i : ℕ) (k v : A) → Fresh b → Fresh (be.write_block b l i k v)
  pub keys : IsReader held Ready (λ p. p.0) be.read_key_page_batch
  pub values : IsReader held Ready (λ p. p.1) be.read_value_page_batch
  pub predict_quiet :
      (b : B) (l : ℕ) (bids : List ℕ) → Ready b → (be.predict_and_prefetch b l bids).1 ≡ none
  pub predict_keeps :
      (b : B) (l : ℕ) (bids : List ℕ) (m i : ℕ)
      → Ready b
      → held (be.predict_and_prefetch b l bids).0 m i ≡ held b m i
  pub predict_stays :
      (b : B) (l : ℕ) (bids : List ℕ) → Ready b → Ready (be.predict_and_prefetch b l bids).0
