-- ===== src/Prelude/Float.antt =====
-- Go's float64 as an interface: the operations that the code uses, with nothing assumed of them.
use leetsheet.Prelude.{ℕ, Bool}

pub record Float64 : Type 1 where
  pub F : Type 0
  pub of_int : ℕ → F
  pub quot : F → F → F
  pub le : F → F → Bool
  pub zero_float : F
  pub half : F
