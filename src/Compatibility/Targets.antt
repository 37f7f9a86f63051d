-- ===== src/Compatibility/Targets.antt =====
-- compatibility.ts, `exactTarget`: the targets that fit the installed build.
use Prim.Native.String.{count}
use Prim.Native.Char.{code}
use dsh_subagent_admission.Prelude.{
  ◌≡◌, ◌≢◌, ◌≤◌, ◌↔◌, ◌⊎◌, refl, ap, ℕ, String, Option, none, some, Bool, true, false, ◌&&◌, ◌==◌,
  not, nat_eq, is_empty, all_characters, inl, inr, Bool-cases, Number, natural, negative, other,
  eq_iff, arith,
}
use dsh_subagent_admission.Compatibility.{
  StrictCompatibilityTarget, CompatibilityRuntime, is_hex, is_hex_text, is_one, is_same_number,
  valid_target, is_exact,
}

-- A small hexadecimal digit.
abbrev pub IsHexDigit : ℕ → Type 0
IsHexDigit n = ((48 ≤ n) × (n ≤ 57)) ⊎ ((97 ≤ n) × (n ≤ 102))

abbrev pub AllHexDigits : String → Type 0
AllHexDigits String.[] = Unit
AllHexDigits (String.◌∷◌ c s) = IsHexDigit (code c) × AllHexDigits s

-- A text of so many small hexadecimal digits.
abbrev pub IsDigest : ℕ → String → Type 0
IsDigest length s = (count s ≡ length) × AllHexDigits s

-- The target is well formed, of protocol 1, and of the version and the protocol of the runtime.
pub record IsInstalled (runtime : CompatibilityRuntime) (t : StrictCompatibilityTarget)
    : Type 0 where
  pub commit : IsDigest 40 t.source_commit
  pub patch : IsDigest 64 t.patch_sha256
  pub command : t.verification_command ≢ ""
  pub named : t.source_package_version ≢ ""
  pub version : t.source_package_version ≡ runtime.package_version
  pub protocol : t.protocol_version ≡ natural 1
  pub same_protocol : runtime.admission_protocol_version ≡ some (natural 1)

is_hex-lem : (n : ℕ) → (is_hex n ≡ true) ↔ IsHexDigit n
is_hex-lem n = (λ h. ground arith, λ h. ground arith)

and-true : (a b : Bool) → (a && b ≡ true) ↔ ((a ≡ true) × (b ≡ true))
and-true true b = (λ h. (refl, h), λ h. h.1)
and-true false b = (λ h. cc, λ h. cc)

not_lem : (b : Bool) → (not b ≡ true) ↔ (b ≡ false)
not_lem true = (λ h. cc, λ h. cc)
not_lem false = (λ h. refl, λ h. refl)

pub all_characters-hex : (s : String) → (all_characters is_hex s ≡ true) ↔ AllHexDigits s
unfolding all_characters
all_characters-hex String.[] = (λ h. tt, λ h. refl)
all_characters-hex (String.◌∷◌ c s) =
    let both = and-true (is_hex (code c)) (all_characters is_hex s) in
    let digit = is_hex-lem (code c) in
    let rest = all_characters-hex s in
    (λ h. let (a, b) = both.0 h in (digit.0 a, rest.0 b), λ h. both.1 (digit.1 h.0, rest.1 h.1))

is_hex_text-lem : (n : ℕ) (s : String) → (is_hex_text n s ≡ true) ↔ IsDigest n s
unfolding is_hex_text
is_hex_text-lem n s =
    let both = and-true (all_characters is_hex s) (nat_eq (count s) n) in
    let all = all_characters-hex s in
    (
      λ h. let (a, b) = both.0 h in (ground (arith, b), all.0 a),
      λ h. both.1 (all.1 h.1, ground (arith, h.0)),
    )

pub is_empty-lem : (s : String) → (is_empty s ≡ false) ↔ (s ≢ "")
is_empty-lem s =
    let same = eq_iff s "" in
    (
      λ h e. cc (h, same.1 e),
      λ h. elim (Bool-cases (is_empty s)) [ inl e ↦ absurd (h (same.0 e)) | inr e ↦ e ],
    )

abbrev value_or_zero : Number → ℕ
value_or_zero (natural n) = n
value_or_zero (negative n) = 0
value_or_zero other = 0

pub is_one-lem : (n : Number) → (is_one n ≡ true) ↔ (n ≡ natural 1)
is_one-lem (natural n) =
    (λ h. ap natural (ground arith), λ h. let e : n ≡ 1 = ap value_or_zero h in ground arith)
is_one-lem (negative n) = (λ h. cc, λ h. cc)
is_one-lem other = (λ h. cc, λ h. cc)

and_five :
    (a b c d e : Bool)
    → (a && b && c && d && e ≡ true)
      ↔ ((a ≡ true) × (b ≡ true) × (c ≡ true) × (d ≡ true) × (e ≡ true))
and_five a b c d e = (λ h. ground arith, λ h. ground arith)

and_three : (a b c : Bool) → (a && b && c ≡ true) ↔ ((a ≡ true) × (b ≡ true) × (c ≡ true))
and_three a b c = (λ h. ground arith, λ h. ground arith)

valid_target-lem :
    (t : StrictCompatibilityTarget)
    → (valid_target t ≡ true) ↔ (
        IsDigest 40 t.source_commit
        × (t.source_package_version ≢ "")
        × (t.protocol_version ≡ natural 1)
        × IsDigest 64 t.patch_sha256
        × (t.verification_command ≢ ""))
unfolding valid_target
valid_target-lem t =
    let commit = is_hex_text-lem 40 t.source_commit in
    let named = is_empty-lem t.source_package_version in
    let one = is_one-lem t.protocol_version in
    let patch = is_hex_text-lem 64 t.patch_sha256 in
    let command = is_empty-lem t.verification_command in
    let not_named = not_lem (is_empty t.source_package_version) in
    let not_command = not_lem (is_empty t.verification_command) in
    let all =
      and_five (is_hex_text 40 t.source_commit) (not (is_empty t.source_package_version))
        (is_one t.protocol_version) (is_hex_text 64 t.patch_sha256)
        (not (is_empty t.verification_command)) in
    (
      λ h.
          let (a, b, c, d, e) = all.0 h in
          (commit.0 a, named.0 (not_named.0 b), one.0 c, patch.0 d, command.0 (not_command.0 e)),
      λ (a, b, c, d, e).
          all.1
            (commit.1 a, not_named.1 (named.1 b), one.1 c, patch.1 d, not_command.1 (command.1 e)),
    )

abbrev some_or_zero : Option Number → ℕ
some_or_zero none = 0
some_or_zero (some n) = value_or_zero n

same_one :
    (n : Number) (o : Option Number)
    → n ≡ natural 1
    → (is_same_number n o ≡ true) ↔ (o ≡ some (natural 1))
same_one (natural n) none e = (λ h. cc, λ h. cc)
same_one (natural n) (some (natural m)) e =
    let one : n ≡ 1 = ap value_or_zero e in
    (
      λ h. ap (λ (k : ℕ). some (natural k)) (ground (arith, h)),
      λ h. let same : m ≡ 1 = ap some_or_zero h in ground (arith, one, same),
    )
same_one (natural n) (some (negative m)) e = (λ h. cc, λ h. cc)
same_one (natural n) (some other) e = (λ h. cc, λ h. cc)
same_one (negative n) o e = cc
same_one other o e = cc

-- The test of `exactTarget` finds the targets that fit the installed build.
pub is_exact-IsInstalled :
    (runtime : CompatibilityRuntime) (t : StrictCompatibilityTarget)
    → (is_exact runtime t ≡ true) ↔ IsInstalled runtime t
unfolding is_exact
is_exact-IsInstalled runtime t =
    let all =
      and_three (valid_target t) (t.source_package_version == runtime.package_version)
        (is_same_number t.protocol_version runtime.admission_protocol_version) in
    let valid = valid_target-lem t in
    let version = eq_iff t.source_package_version runtime.package_version in
    (
      λ h.
          let (a, b, c) = all.0 h in
          let (commit, named, one, patch, command) = valid.0 a in
          record {
            commit = commit;
            patch = patch;
            command = command;
            named = named;
            version = version.0 b;
            protocol = one;
            same_protocol =
                (same_one t.protocol_version runtime.admission_protocol_version one).0 c;
          },
      λ i. all.1 (
        valid.1 (i.commit, i.named, i.protocol, i.patch, i.command),
        version.1 i.version,
        (same_one t.protocol_version runtime.admission_protocol_version i.protocol).1
            i.same_protocol,
      ),
    )
