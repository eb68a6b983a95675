-- ===== src/Floats.antt =====
-- The floating-point operations that the daemon uses, as a parameter of the model: arithmetic in
-- `float` or `double`, `floorf`, the conversions from and to integers, and `%f` of `sscanf`.
use tablet_magic.Base.{ℕ, List, Option}
use tablet_magic.Int.{ℤ}

pub record Floats : Type 1 where
  pub Float : Type 0
  pub of_int : ℤ → Float
  -- The literal n / 10 ^ k.
  pub literal : ℕ → ℕ → Float
  pub add : Float → Float → Float
  pub sub : Float → Float → Float
  pub mul : Float → Float → Float
  pub div : Float → Float → Float
  pub floor : Float → Float
  -- The conversion to an integer, which cuts off toward zero.
  pub to_int : Float → ℤ
  pub scan : List ℕ → Option Float
