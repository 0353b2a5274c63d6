-- ===== src/Prelude/Float.antt =====
-- Rust's floats, as far as the program compares them: NaN, the infinities, and a finite value
-- counted in units of the format's least positive number, so that every comparison is exact.
-- The sign of a zero is not kept: no comparison reads it.
use mathlib.Core.Path.{◌≡◌}
use mathlib.Core.Bool.{Bool, true, false}
use Prim.Native.Nat.{ℕ}
use Prim.Native.String.{String}
use mathlib.Core.Option.{Option}
use native.Mathlib.Omega.{arith}
use fps_anticheat_data_platf.Prelude.Tests.{if◌then◌else◌}
use fps_anticheat_data_platf.Prelude.Int.{ℤ, pos, ltb_ℤ, leb_ℤ}

pub data Float : Type 0 where
  nan : Float
  neg_inf : Float
  fin : ℤ → Float
  pos_inf : Float

abbrev pub is_finite : Float → Bool
is_finite (fin z) = true
is_finite _ = false

abbrev pub is_nan : Float → Bool
is_nan nan = true
is_nan _ = false

-- `a < b`: false where either side is NaN
abbrev pub lt : Float → Float → Bool
lt nan b = false
lt neg_inf nan = false
lt neg_inf neg_inf = false
lt neg_inf _ = true
lt (fin a) (fin b) = ltb_ℤ a b
lt (fin a) pos_inf = true
lt (fin a) _ = false
lt pos_inf b = false

-- `a <= b`
abbrev pub le : Float → Float → Bool
le nan b = false
le neg_inf nan = false
le neg_inf _ = true
le (fin a) (fin b) = leb_ℤ a b
le (fin a) pos_inf = true
le (fin a) _ = false
le pos_inf pos_inf = true
le pos_inf _ = false

abbrev pub nought : Float
nought = fin (pos 0)

pub le_trans : (a b c : Float) → le a b ≡ true → le b c ≡ true → le a c ≡ true
le_trans a b c h k = ground arith

pub lt-not_le : (a b : Float) → lt a b ≡ true → le b a ≡ false
lt-not_le a b h = ground arith

pub lt-le : (a b : Float) → lt a b ≡ true → le a b ≡ true
lt-le a b h = ground arith

pub le_total : (a b : Float) → is_nan a ≡ false → is_nan b ≡ false → le a b ≡ false → lt b a ≡ true
le_total a b h k l = ground arith

pub lt-le_trans : (a b c : Float) → lt a b ≡ true → le b c ≡ true → lt a c ≡ true
lt-le_trans a b c h k = ground arith

-- `f64::max` and `f64::min`: the other operand where one is NaN
abbrev pub fmax : Float → Float → Float
fmax nan b = b
fmax a nan = a
fmax a b = if lt a b then b else a

abbrev pub fmin : Float → Float → Float
fmin nan b = b
fmin a nan = a
fmin a b = if lt b a then b else a

-- What the program takes from the arithmetic of a float format, whose rounding is not modelled:
-- `literal d p` is the decimal literal d / 10 ^ p.
pub record Arithmetic : Type 0 where
  pub literal : ℕ → ℕ → Float
  pub of_nat : ℕ → Float
  pub add : Float → Float → Float
  pub sub : Float → Float → Float
  pub mul : Float → Float → Float
  pub div : Float → Float → Float
  pub powi : Float → ℕ → Float
  pub sqrt : Float → Float
  pub round : Float → Float
  pub parse : String → Option Float
  -- `{:.p}` of a format string
  pub show : ℕ → Float → String
