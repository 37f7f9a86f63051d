-- ===== src/Compatibility.antt =====
-- packages/dsh-subagent-admission/src/host/compatibility.ts: the choice of the runtime mode from
-- facts about the installed build.
pub mod Targets
pub mod Selection
use Prim.Native.String.{count}
use dsh_subagent_admission.Prelude.{
  all_characters, ℕ, String, Option, none, some, Bool, true, false, List, [], ◌∷◌, not, ◌&&◌, ◌||◌,
  ◌==◌, nat_eq, leb, is_empty, if◌then◌else◌, Number, natural, negative, other,
}
use dsh_subagent_admission.Config.{ConfiguredMode, strict, audit}

pub record StrictCompatibilityTarget : Type 0 where
  pub source_commit : String
  pub source_package_version : String
  pub protocol_version : Number
  pub patch_sha256 : String
  pub verification_command : String

-- The schema version of the baseline is 1 by its type.
pub record CompatibilityBaseline : Type 0 where
  pub strict_targets : List StrictCompatibilityTarget

-- `can_register`: that `registerAdmissionPolicy` is a function.
pub record CompatibilityRuntime : Type 0 where
  pub package_version : String
  pub admission_protocol_version : Option Number
  pub can_register : Bool

pub record CompatibilityBootstrap : Type 0 where
  pub is_safe : Bool
  pub reason : Option String

pub record CompatibilitySelectionInput : Type 0 where
  pub configured : ConfiguredMode
  pub runtime : CompatibilityRuntime
  pub baseline : CompatibilityBaseline
  pub has_storage_domain : Bool
  pub bootstrap : CompatibilityBootstrap
  pub holds_guard : Bool

pub data RuntimeMode : Type 0 where
  strict_mode audit_mode unavailable_mode : RuntimeMode

pub record CompatibilitySelection : Type 0 where
  pub mode : RuntimeMode
  pub is_enforced : Bool
  pub reason : Option String
  pub target : Option StrictCompatibilityTarget

abbrev pub between : ℕ → ℕ → ℕ → Bool
between a b n = leb a n && leb n b

-- `[0-9a-f]`.
abbrev pub is_hex : ℕ → Bool
is_hex n = between 48 57 n || between 97 102 n

-- `[A-Za-z0-9_.:-]`.
abbrev pub is_reason_character : ℕ → Bool
is_reason_character n =
    between 65 90 n
    || between 97 122 n
    || between 48 58 n
    || nat_eq n 95
    || nat_eq n 46
    || nat_eq n 45

unfoldable pub is_hex_text : ℕ → String → Bool
is_hex_text length s = all_characters is_hex s && nat_eq (count s) length

-- `safeReason`.
unfoldable pub safe_reason : Option String → String → String
safe_reason none fallback = fallback
safe_reason (some s) fallback =
    if all_characters is_reason_character s && between 1 128 (count s) then s else fallback

-- `value === 1`.
abbrev pub is_one : Number → Bool
is_one (natural n) = nat_eq n 1
is_one (negative n) = false
is_one other = false

-- `a === b`; two values that are not integers are taken to differ.
abbrev pub is_same_number : Number → Option Number → Bool
is_same_number (natural a) (some (natural b)) = nat_eq a b
is_same_number (negative a) (some (negative b)) = nat_eq a b
is_same_number a b = false

unfoldable pub valid_target : StrictCompatibilityTarget → Bool
unfolding is_hex_text
valid_target t =
    is_hex_text 40 t.source_commit
    && not (is_empty t.source_package_version)
    && is_one t.protocol_version
    && is_hex_text 64 t.patch_sha256
    && not (is_empty t.verification_command)

-- The test in the loop of `exactTarget`.
unfoldable pub is_exact : CompatibilityRuntime → StrictCompatibilityTarget → Bool
is_exact runtime t =
    valid_target t
    && t.source_package_version == runtime.package_version
    && is_same_number t.protocol_version runtime.admission_protocol_version

unfoldable pub first_exact :
    CompatibilityRuntime → List StrictCompatibilityTarget → Option StrictCompatibilityTarget
first_exact runtime [] = none
first_exact runtime (t ∷ ts) = if is_exact runtime t then some t else first_exact runtime ts

unfoldable pub exact_target :
    CompatibilityBaseline → CompatibilityRuntime → Option StrictCompatibilityTarget
exact_target baseline runtime =
    if is_empty runtime.package_version then none else first_exact runtime baseline.strict_targets

abbrev pub unavailable_for : String → Option StrictCompatibilityTarget → CompatibilitySelection
unavailable_for reason target = record {
  mode = unavailable_mode;
  is_enforced = false;
  reason = some reason;
  target = target;
}

-- The checks after the target was found.
unfoldable pub select_for_target :
    CompatibilitySelectionInput → StrictCompatibilityTarget → CompatibilitySelection
select_for_target input t =
    if not input.has_storage_domain
    then unavailable_for "storage-domain-unavailable" (some t)
    else if not input.bootstrap.is_safe
    then unavailable_for (safe_reason input.bootstrap.reason "unsafe-bootstrap") (some t)
    else if not input.holds_guard
    then unavailable_for "ownership-guard-unavailable" (some t)
    else record { mode = strict_mode; is_enforced = true; reason = none; target = some t }

abbrev pub is_protocol_one : Option Number → Bool
is_protocol_one none = false
is_protocol_one (some n) = is_one n

abbrev pub protocol_reason : Option Number → String
protocol_reason none = "admission-seam-unavailable"
protocol_reason (some n) = "unsupported-admission-protocol"

unfoldable pub select_strict : CompatibilitySelectionInput → CompatibilitySelection
unfolding select_for_target
select_strict input =
    let version = input.runtime.admission_protocol_version in
    if not (is_protocol_one version)
    then unavailable_for (protocol_reason version) none
    else if not input.runtime.can_register
    then unavailable_for "admission-seam-unavailable" none
    else elim (exact_target input.baseline input.runtime) [
      | none ↦ unavailable_for "unsupported-runtime-build" none
      | some t ↦ select_for_target input t
    ]

abbrev pub audit_selection : CompatibilitySelection
audit_selection = record {
  mode = audit_mode;
  is_enforced = false;
  reason = some "audit-observation-only";
  target = none;
}

abbrev pub select_configured : ConfiguredMode → CompatibilitySelection → CompatibilitySelection
select_configured audit selected = audit_selection
select_configured strict selected = selected

unfoldable pub select_admission_mode : CompatibilitySelectionInput → CompatibilitySelection
unfolding select_strict
select_admission_mode input = select_configured input.configured (select_strict input)
