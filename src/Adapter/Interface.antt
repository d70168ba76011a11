-- ===== src/Adapter/Interface.antt =====
-- What person3_system/prefetch/inference_adapter.py uses of the storage behind it and of NumPy. The
-- storage is one with all the methods that the adapter looks for, and none of them raises.
use ai_ssd.Prelude.{ℕ, ◌≡◌, Bool, some, List, All, Result, ok}
use ai_ssd.Prelude.Dict.{Dict, nat_key, lookup}

pub record KvStorage (S A : Type 0) : Type 0 where
  pub write_block : S → (layer_idx block_id : ℕ) → (k v : A) → (head_id token_start : ℕ) → S
  pub read_key_page : S → (layer_idx block_id head_id token_start : ℕ) → S × A
  pub read_value_page : S → (layer_idx block_id head_id token_start : ℕ) → S × A
  pub read_block : S → (layer_idx block_id head_id token_start : ℕ) → S × (A × A)
  pub read_key_page_batch : S → ℕ → List ℕ → (head_id token_start : ℕ) → S × Dict ℕ A
  pub read_value_page_batch : S → ℕ → List ℕ → (head_id token_start : ℕ) → S × Dict ℕ A
  pub read_block_batch : S → ℕ → List ℕ → (head_id token_start : ℕ) → S × Dict ℕ (A × A)
  pub contains_block : S → ℕ → ℕ → Bool
  pub evict_block : S → ℕ → ℕ → S × Bool
  pub reset_stats : S → S
  -- NumPy: the array in the adapter's type, an array of bytes, the array reshaped to the default
  -- shape or the ValueError of it, the size in bytes, and the array of zero bytes
  pub as_dtype : A → A
  pub of_bytes : List ℕ → A
  pub as_default_shape : A → Result A
  pub nbytes : A → ℕ
  pub blank : A

-- what a storage holds: the arrays of every layer and block
abbrev pub Holding : Type 0 → Type 0 → Type 0
Holding S A = S → ℕ → ℕ → A × A

-- A read gives a part of the arrays that are held and leaves them.
pub record IsRead {S A X : Type 0} (held : Holding S A) (part : A × A → X)
    (read : S → (layer_idx block_id head_id token_start : ℕ) → S × X) : Type 0 where
  pub value : (s : S) (l b h t : ℕ) → (read s l b h t).1 ≡ part (held s l b)
  pub keeps : (s : S) (l b h t m c : ℕ) → held (read s l b h t).0 m c ≡ held s m c

-- A batch gives the part for every block that was asked for, and for no other arrays.
pub record IsBatchRead {S A X : Type 0} (held : Holding S A) (part : A × A → X)
    (read : S → ℕ → List ℕ → (head_id token_start : ℕ) → S × Dict ℕ X) : Type 0 where
  pub values :
      (s : S) (l : ℕ) (bids : List ℕ) (h t : ℕ)
      → All (λ p. p.1 ≡ part (held s l p.0)) (read s l bids h t).1
  pub all :
      (s : S) (l : ℕ) (bids : List ℕ) (h t : ℕ)
      → All (λ b. (x : X) × (lookup b (read s l bids h t).1 ≡ some x)) bids
  pub keeps :
      (s : S) (l : ℕ) (bids : List ℕ) (h t m c : ℕ) → held (read s l bids h t).0 m c ≡ held s m c

-- A storage reads what it holds in all ways of reading, and a write is what it then holds
-- under its layer and block.
pub record IsLawful {S A : Type 0} (st : KvStorage S A) : Type 0 where
  pub held : Holding S A
  pub block : IsRead held (λ p. p) st.read_block
  pub key_page : IsRead held (λ p. p.0) st.read_key_page
  pub value_page : IsRead held (λ p. p.1) st.read_value_page
  pub block_batch : IsBatchRead held (λ p. p) st.read_block_batch
  pub key_batch : IsBatchRead held (λ p. p.0) st.read_key_page_batch
  pub value_batch : IsBatchRead held (λ p. p.1) st.read_value_page_batch
  pub written :
      (s : S) (l b : ℕ) (k v : A) (h t : ℕ) → held (st.write_block s l b k v h t) l b ≡ (k, v)
  pub reset_keeps : (s : S) (l b : ℕ) → held (st.reset_stats s) l b ≡ held s l b

-- Two arrays have the adapter's default shape, so that a reshape to it leaves them as they are.
pub record AreShaped {S A : Type 0} (st : KvStorage S A) (p : A × A) : Type 0 where
  pub key : st.as_default_shape p.0 ≡ ok p.0
  pub value : st.as_default_shape p.1 ≡ ok p.1
