-- ===== src/Prelude/Names.antt =====
-- Texts that the program makes: `String(n)`, and template literals over it.
use Prim.Native.Nat.{ℕ, zero, suc, ◌+◌, ◌-◌, ◌*◌, ◌/◌, ◌%◌, ◌<◌}
use Prim.Native.Char.{Char, code}
use Prim.Native.String.{String}
use mathlib.Core.Path.{◌≡◌, refl, ap, sym, ◌∙◌}
use native.Mathlib.Omega.{arith}
use dsh_subagent_admission.Prelude.Tests.{nat_eq, if◌then◌else◌}

digit : ℕ → Char
digit zero = "0"
digit (suc zero) = "1"
digit (suc (suc zero)) = "2"
digit (suc (suc (suc zero))) = "3"
digit (suc (suc (suc (suc zero)))) = "4"
digit (suc (suc (suc (suc (suc zero))))) = "5"
digit (suc (suc (suc (suc (suc (suc zero)))))) = "6"
digit (suc (suc (suc (suc (suc (suc (suc zero))))))) = "7"
digit (suc (suc (suc (suc (suc (suc (suc (suc zero)))))))) = "8"
digit (suc (suc (suc (suc (suc (suc (suc (suc (suc n))))))))) = "9"

-- One digit to a round; `n` halts it before the fuel does.
emit : ℕ → ℕ → String → String
emit zero n out = out
emit (suc f) n out =
    let rest = emit f (n / 10) (String.◌∷◌ (digit (n % 10)) out) in
    if nat_eq (n / 10) 0 then String.◌∷◌ (digit (n % 10)) out else rest

-- `String(n)` for a natural number.
unfoldable pub decimal : ℕ → String
unfolding emit digit
decimal n = emit (suc n) n ""

value : String → ℕ → ℕ
value String.[] acc = acc
value (String.◌∷◌ c s) acc = value s (acc * 10 + (code c - 48))

code-digit : (d : ℕ) → d < 10 → code (digit d) - 48 ≡ d
unfolding digit
code-digit zero h = refl
code-digit (suc zero) h = refl
code-digit (suc (suc zero)) h = refl
code-digit (suc (suc (suc zero))) h = refl
code-digit (suc (suc (suc (suc zero)))) h = refl
code-digit (suc (suc (suc (suc (suc zero))))) h = refl
code-digit (suc (suc (suc (suc (suc (suc zero)))))) h = refl
code-digit (suc (suc (suc (suc (suc (suc (suc zero))))))) h = refl
code-digit (suc (suc (suc (suc (suc (suc (suc (suc zero)))))))) h = refl
code-digit (suc (suc (suc (suc (suc (suc (suc (suc (suc n))))))))) h = omega arith

value-emit : (f n : ℕ) (out : String) → n < f → value (emit f n out) 0 ≡ value out n
unfolding emit value
value-emit zero n out h = absurd (omega arith)
value-emit (suc f) n out h =
    let d = code-digit (n % 10) (omega arith) in
    ground (arith, d, value-emit f (n / 10) (String.◌∷◌ (digit (n % 10)) out))

value-decimal : (n : ℕ) → value (decimal n) 0 ≡ n
unfolding decimal value
value-decimal n = value-emit (suc n) n "" (omega arith)

-- Different numbers print differently.
pub decimal-injective : (m n : ℕ) → decimal m ≡ decimal n → m ≡ n
decimal-injective m n e = sym (value-decimal m) ∙ ap (λ s. value s 0) e ∙ value-decimal n

decimal_tests : decimal 0 ≡ "0"
unfolding decimal
decimal_tests = refl

decimal_long : decimal 9007199254740991 ≡ "9007199254740991"
unfolding decimal
decimal_long = refl
