-- ===== src/Prelude/Texts.antt =====
-- Texts by their characters, for the regular expressions of character classes.
use Prim.Native.Nat.{ℕ}
use Prim.Native.Char.{code}
use Prim.Native.String.{String, [], ◌∷◌}
use mathlib.Core.Bool.{Bool, true, ◌&&◌}

-- Every character passes the test, which reads its number.
unfoldable pub all_characters : (ℕ → Bool) → String → Bool
all_characters p [] = true
all_characters p (c ∷ s) = p (code c) && all_characters p s
