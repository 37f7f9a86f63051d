-- ===== src/Examples/Compatibility.antt =====
-- compatibility.ts at concrete inputs.
use dsh_subagent_admission.Prelude.{
  ◌≡◌, refl, some, none, true, false, [], ◌∷◌, inl, natural, all_characters, eq_iff,
}
use dsh_subagent_admission.Config.{strict}
use dsh_subagent_admission.Compatibility.{
  StrictCompatibilityTarget, CompatibilitySelectionInput, is_hex_text, valid_target, is_exact,
  select_admission_mode,
}
use dsh_subagent_admission.Compatibility.Targets.{is_exact-IsInstalled}
use dsh_subagent_admission.Compatibility.Selection.{enforcement_decides}

abbrev tested : StrictCompatibilityTarget
tested = record {
  source_commit = "0123456789abcdef0123456789abcdef01234567";
  source_package_version = "1.3.1";
  protocol_version = natural 1;
  patch_sha256 = "0123456789abcdef0123456789abcdef0123456789abcdef0123456789abcdef";
  verification_command = "verify";
}

abbrev installed : CompatibilitySelectionInput
installed = record {
  configured = strict;
  runtime = record {
    package_version = "1.3.1";
    admission_protocol_version = some (natural 1);
    can_register = true;
  };
  baseline = record { strict_targets = tested ∷ [] };
  has_storage_domain = true;
  bootstrap = record { is_safe = true; reason = none };
  holds_guard = true;
}

tested-exact : is_exact installed.runtime tested ≡ true
unfolding is_exact valid_target is_hex_text all_characters
tested-exact = refl

enforcement_decides_example : (select_admission_mode installed).is_enforced ≡ true
enforcement_decides_example = (enforcement_decides installed).1 (
  record {
    configured = refl;
    protocol = refl;
    registers = refl;
    version = λ e. cc ((eq_iff "1.3.1" "").1 e);
    storage = refl;
    bootstrap = refl;
    guard = refl;
  },
  (tested, (inl refl, (is_exact-IsInstalled installed.runtime tested).0 tested-exact)),
)

-- The commit of a target must be written in small letters.
other_commit :
    valid_target (record tested { source_commit = "0123456789ABCDEF0123456789abcdef01234567" })
    ≡ false
unfolding valid_target is_hex_text all_characters
other_commit = refl
