-- ===== src/Guard/Owner/RoundTrip.antt =====
-- process-guard.ts, an owner record that is written and read back.
use Prim.Native.Char.{Char, code}
use dsh_subagent_admission.Prelude.{
  ℕ, suc, ◌+◌, ◌≤◌, ◌<◌, ◌≡◌, refl, ap, ◌∙◌, String, Option, some, true, false, natural,
  max_safe_integer, lookup, arith, Dict,
}
use dsh_subagent_admission.Compatibility.Targets.{IsHexDigit, AllHexDigits}
use dsh_subagent_admission.Guard.Owner.{
  OwnerRecord, JsonField, number, string, Json, object, is_hex_digit, is_dash_place, is_nonce_from,
  is_nonce, pid_of, nonce_of, created_of, parse_owner, owner_fields,
}

abbrev pub letters : String → ℕ
letters String.[] = 0
letters (String.◌∷◌ c s) = suc (letters s)

abbrev pub joined : String → String → String
joined String.[] t = t
joined (String.◌∷◌ c s) t = String.◌∷◌ c (joined s t)

-- So many small hexadecimal digits.
abbrev pub IsGroup : ℕ → String → Type 0
IsGroup n s = (letters s ≡ n) × AllHexDigits s

-- What `randomUUID` makes: groups of 8, 4, 4, 4 and 12 digits with dashes between them.
pub record IsUuid (s : String) : Type 0 where
  pub a : String
  pub b : String
  pub c : String
  pub d : String
  pub e : String
  pub first : IsGroup 8 a
  pub second : IsGroup 4 b
  pub third : IsGroup 4 c
  pub fourth : IsGroup 4 d
  pub fifth : IsGroup 12 e
  pub form :
      s
      ≡ joined a (
          joined "-"
            (joined b (joined "-" (joined c (joined "-" (joined d (joined "-" (joined e ""))))))))

hex_digit : (n : ℕ) → IsHexDigit n → is_hex_digit n ≡ true
hex_digit n h = ground arith

step-nonce :
    (i : ℕ) (c : Char) (s : String)
    → is_dash_place i ≡ false
    → IsHexDigit (code c)
    → is_nonce_from i (String.◌∷◌ c s) ≡ is_nonce_from (i + 1) s
unfolding is_nonce_from
step-nonce i c s p h = rw (p, hex_digit (code c) h) refl

-- A group is read where no dash is expected.
group-nonce :
    (s t : String) (i n : ℕ)
    → letters s ≡ n
    → AllHexDigits s
    → ((j : ℕ) → i ≤ j → j < i + n → is_dash_place j ≡ false)
    → is_nonce_from i (joined s t) ≡ is_nonce_from (i + n) t
group-nonce String.[] t i n e h places = ap (λ (k : ℕ). is_nonce_from k t) (omega (arith, e))
group-nonce (String.◌∷◌ c s) t i n e h places =
    step-nonce i c (joined s t) (places i (omega arith) (omega (arith, e))) h.0
    ∙ group-nonce s t (i + 1) (letters s) refl h.1
        (λ j low high. places j (omega (arith, low)) (omega (arith, high, e)))
    ∙ ap (λ (k : ℕ). is_nonce_from k t) (omega (arith, e))

-- What `makeOwner` makes: a process number, a random UUID and the time.
pub record IsOwner (r : OwnerRecord) : Type 0 where
  pub pid : (0 < r.pid) × (r.pid ≤ max_safe_integer)
  pub nonce : IsUuid r.nonce
  pub created : r.created_at ≤ max_safe_integer

uuid-is_nonce : (s : String) → IsUuid s → is_nonce s ≡ true
unfolding is_nonce is_nonce_from
uuid-is_nonce s u =
    ap is_nonce u.form
    ∙ group-nonce u.a _ 0 8 u.first.0 u.first.1 (λ j low high. ground (arith, low, high))
    ∙ group-nonce u.b _ 9 4 u.second.0 u.second.1 (λ j low high. ground (arith, low, high))
    ∙ group-nonce u.c _ 14 4 u.third.0 u.third.1 (λ j low high. ground (arith, low, high))
    ∙ group-nonce u.d _ 19 4 u.fourth.0 u.fourth.1 (λ j low high. ground (arith, low, high))
    ∙ group-nonce u.e "" 24 12 u.fifth.0 u.fifth.1 (λ j low high. ground (arith, low, high))

pid_of-safe : (n : ℕ) → 0 < n → n ≤ max_safe_integer → pid_of (some (number (natural n))) ≡ some n
pid_of-safe n low high = ground arith

nonce_of-nonce : (s : String) → is_nonce s ≡ true → nonce_of (some (string s)) ≡ some s
nonce_of-nonce s h = rw h

created_of-safe : (n : ℕ) → n ≤ max_safe_integer → created_of (some (number (natural n))) ≡ some n
created_of-safe n h = ground arith

-- A record that was written is read back: if `JSON.parse` reads the text that `JSON.stringify` makes
-- of it as an object with the same fields, `parseOwner` gives the record that `publishOwner` wrote, for
-- a positive safe process number, a safe time, and a nonce that is any UUID in small letters: groups of
-- 8, 4, 4, 4 and 12 hexadecimal digits with dashes between them.
pub owner_is_read_back :
    (parse_json : String → Option Json) (stringify : Dict JsonField → String) (r : OwnerRecord)
    → parse_json (stringify (owner_fields r)) ≡ some (object (owner_fields r))
    → IsOwner r
    → parse_owner parse_json (stringify (owner_fields r)) ≡ some r
unfolding parse_owner lookup
owner_is_read_back parse_json stringify r e v = rw (
  e,
  pid_of-safe r.pid v.pid.0 v.pid.1,
  nonce_of-nonce r.nonce (uuid-is_nonce r.nonce v.nonce),
  created_of-safe r.created_at v.created,
)
