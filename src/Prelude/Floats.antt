-- ===== src/Prelude/Floats.antt =====
-- Python's floats, as far as the modelled code computes with them: a type with its operations, a
-- parameter of the modules that use it.
use Prim.Native.Nat.{ℕ}

pub record Float : Type 1 where
  pub F : Type 0
  pub zero_f : F
  pub of_ℕ : ℕ → F
  pub add : F → F → F
  pub sub : F → F → F
  pub mul : F → F → F
  pub div : F → F → F
  pub max_f : F → F → F
