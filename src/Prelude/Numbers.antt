-- ===== src/Prelude/Numbers.antt =====
-- A JavaScript number, as far as the program looks at one: `Number.isSafeInteger` and its sign.
use Prim.Native.Nat.{ℕ}
use mathlib.Core.Bool.{Bool, false, ◌&&◌}
use dsh_subagent_admission.Prelude.Tests.{ltb, leb}

-- `negative n` is -(n + 1); `other` is a fraction, an infinity or NaN.
pub data Number : Type 0 where
  natural : ℕ → Number
  negative : ℕ → Number
  other : Number

-- `Number.MAX_SAFE_INTEGER`.
abbrev pub max_safe_integer : ℕ
max_safe_integer = 9007199254740991

-- `Number.isSafeInteger(x) && x >= 0`.
abbrev pub is_safe_nonnegative : Number → Bool
is_safe_nonnegative (natural n) = leb n max_safe_integer
is_safe_nonnegative (negative n) = false
is_safe_nonnegative other = false

-- `Number.isSafeInteger(x) && x > 0`.
abbrev pub is_safe_positive : Number → Bool
is_safe_positive (natural n) = ltb 0 n && leb n max_safe_integer
is_safe_positive (negative n) = false
is_safe_positive other = false
