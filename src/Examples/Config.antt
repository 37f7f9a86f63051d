-- ===== src/Examples/Config.antt =====
-- config.ts at concrete inputs.
use dsh_subagent_admission.Prelude.{◌≡◌, refl, none, some, arith, [], natural, ok, err}
use dsh_subagent_admission.Ledger.{LedgerState}
use dsh_subagent_admission.Authority.Steps.{new_authority, create_authority}
use dsh_subagent_admission.Config.{
  audit, ResolvedConfig, ConfigInput, root_exceeds_global, assert_positive_safe_integer, check_mode,
  check_coherence, limits_of, resolve_config,
}
use dsh_subagent_admission.Config.Checks.{resolve_config_decides, create_authority-resolve_config}

-- Only the number of children of a parent is given.
abbrev given : ConfigInput
given = record {
  mode = none;
  global_active = none;
  per_root_active = none;
  per_root_admitted_total = none;
  per_parent_children = some (natural 3);
  ownership_path = none;
}

abbrev expected : ResolvedConfig
expected = record {
  mode = audit;
  limits = limits_of 6 4 24 3;
  ownership_path = "sessions/.dsh-subagent-admission-owner";
}

resolve_config_decides_example : resolve_config given ≡ ok expected
resolve_config_decides_example = (resolve_config_decides given expected).1 (
  record {
    mode = refl;
    global_active = refl;
    per_root_active = refl;
    per_root_admitted_total = refl;
    per_parent_children = refl;
    ownership_path = refl;
  },
  record {
    root_positive = omega arith;
    children_positive = omega arith;
    root_global = omega arith;
    root_total = omega arith;
    children_total = omega arith;
    global_safe = omega arith;
    total_safe = omega arith;
  },
  refl,
)

more_of_a_root :
    resolve_config (record given { per_root_active = some (natural 7) }) ≡ err root_exceeds_global
unfolding resolve_config check_mode assert_positive_safe_integer check_coherence
more_of_a_root = refl

abbrev empty_ledger : LedgerState
empty_ledger = record { rows = []; writes = 0 }

create_authority-resolve_config_example :
    create_authority (limits_of 6 4 24 3) "epoch" empty_ledger
    ≡ some (new_authority (limits_of 6 4 24 3) "epoch" empty_ledger)
create_authority-resolve_config_example =
    create_authority-resolve_config given expected "epoch" empty_ledger
      resolve_config_decides_example refl
