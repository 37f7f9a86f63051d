-- ===== src/Config.antt =====
-- packages/dsh-subagent-admission/src/host/config.ts: the configuration, with its defaults and its
-- checks.
pub mod Checks
use dsh_subagent_admission.Prelude.{
  ℕ, String, Option, none, some, Bool, true, false, not, ◌&&◌, ◌==◌, ltb, leb, is_empty,
  if◌then◌else◌, Number, natural, negative, other, max_safe_integer, Result, ok, err, ◌>>=◌, ◌>>◌,
  throw_if,
}
use dsh_subagent_admission.Vocabulary.{AdmissionLimits}
use dsh_subagent_admission.StateModel.{or_else}

-- `ConfiguredAdmissionMode`.
pub data ConfiguredMode : Type 0 where
  strict audit : ConfiguredMode

pub record ResolvedConfig : Type 0 where
  pub mode : ConfiguredMode
  pub limits : AdmissionLimits
  pub ownership_path : String

-- A mode is a text, and a limit any number, until they are checked.
pub record ConfigInput : Type 0 where
  pub mode : Option String
  pub global_active : Option Number
  pub per_root_active : Option Number
  pub per_root_admitted_total : Option Number
  pub per_parent_children : Option Number
  pub ownership_path : Option String

-- The errors, by their messages; the second carries the name of a limit.
pub data ConfigError : Type 0 where
  unknown_mode : ConfigError
  not_positive : String → ConfigError
  root_exceeds_global root_exceeds_total children_exceed_total empty_path : ConfigError

-- A number that is a positive safe integer.
unfoldable pub assert_positive_safe_integer : Number → String → Result ConfigError ℕ
assert_positive_safe_integer (natural n) name =
    if ltb 0 n && leb n max_safe_integer then ok n else err (not_positive name)
assert_positive_safe_integer (negative n) name = err (not_positive name)
assert_positive_safe_integer other name = err (not_positive name)

unfoldable pub check_mode : String → Result ConfigError ConfiguredMode
check_mode text =
    if text == "strict" then ok strict else if text == "audit" then ok audit else err unknown_mode

-- The checks between the limits, and that of the path.
unfoldable pub check_coherence :
    ConfiguredMode → AdmissionLimits → String → Result ConfigError ResolvedConfig
check_coherence mode limits path =
    if ltb limits.global_active limits.per_root_active
    then err root_exceeds_global
    else if ltb limits.per_root_admitted_total limits.per_root_active
    then err root_exceeds_total
    else if ltb limits.per_root_admitted_total limits.per_parent_children
    then err children_exceed_total
    else if is_empty path
    then err empty_path
    else ok (record { mode = mode; limits = limits; ownership_path = path })

abbrev pub limits_of : ℕ → ℕ → ℕ → ℕ → AdmissionLimits
limits_of global root total children = record {
  global_active = global;
  per_root_active = root;
  per_root_admitted_total = total;
  per_parent_children = children;
}

-- `resolveConfig` with `DEFAULT_CONFIG`.
unfoldable pub resolve_config : ConfigInput → Result ConfigError ResolvedConfig
unfolding check_mode assert_positive_safe_integer check_coherence
resolve_config input = do
  mode ← check_mode (or_else input.mode "audit")
  global ← assert_positive_safe_integer (or_else input.global_active (natural 6)) "globalActive"
  root ← assert_positive_safe_integer (or_else input.per_root_active (natural 4)) "perRootActive"
  total ←
      assert_positive_safe_integer (or_else input.per_root_admitted_total (natural 24))
        "perRootAdmittedTotal"
  children ←
      assert_positive_safe_integer (or_else input.per_parent_children (natural 8))
        "perParentChildren"
  check_coherence mode (limits_of global root total children)
      (or_else input.ownership_path "sessions/.dsh-subagent-admission-owner")
