-- ===== src/Examples/Service.antt =====
-- service.ts at concrete inputs.
use dsh_subagent_admission.Prelude.{
  ℕ, ◌≡◌, inl, refl, String, Option, some, none, true, false, [], ◌∷◌, natural, ok, lookup, insert,
  all_characters, decimal, eq_iff,
}
use dsh_subagent_admission.Vocabulary.{AdmissionLimits}
use dsh_subagent_admission.Config.{strict}
use dsh_subagent_admission.Compatibility.Targets.{is_exact-IsInstalled}
use dsh_subagent_admission.Compatibility.{
  StrictCompatibilityTarget, CompatibilityRuntime, CompatibilityBaseline, is_hex_text, valid_target,
  is_exact, exact_target, first_exact, select_admission_mode,
}
use dsh_subagent_admission.Telemetry.{new_telemetry, record_event}
use dsh_subagent_admission.Telemetry.Values.{text, mode_named}
use dsh_subagent_admission.Telemetry.Snapshot.{answers, throws, Readers, snapshot}
use dsh_subagent_admission.Service.Start.{
  HostDependencies, returns_disposer, returns_other, StartAnswers, strict_service, create_service,
}
use dsh_subagent_admission.Service.Start.Resources.{
  HoldsAs, undisposed, hold_all, nothing, start_gives_back,
}
use dsh_subagent_admission.Service.Start.Conditions.{StrictConditions, start_strict_decides}
use dsh_subagent_admission.Service.Audit.{
  AuditLineage, RawLifecycle, LifecycleIdentity, AuditState, lifecycle_identity, safe_now, on_start,
  on_end, starts, ends, audit_steps,
}
use dsh_subagent_admission.Service.Audit.Pairs.{release_of_run, unpaired_end, audit_end_pairs}
use dsh_subagent_admission.Service.Modes.{start_telemetry, service_readers}
use dsh_subagent_admission.Service.Modes.Enforcement.{
  begins_drain, mode_steps, only_strict_services_enforce,
}

-- A start whose parts all answer well.
abbrev target : StrictCompatibilityTarget
target = record {
  source_commit = "0123456789abcdef0123456789abcdef01234567";
  source_package_version = "1.3.1";
  protocol_version = natural 1;
  patch_sha256 = "0123456789abcdef0123456789abcdef0123456789abcdef0123456789abcdef";
  verification_command = "verify";
}

abbrev runtime : CompatibilityRuntime
runtime = record {
  package_version = "1.3.1";
  admission_protocol_version = some (natural 1);
  can_register = true;
}

abbrev baseline : CompatibilityBaseline
baseline = record { strict_targets = target ∷ [] }

abbrev host : HostDependencies
host = record {
  has_runtime = true;
  has_sessions = true;
  has_persistence = true;
  has_storage_domain = true;
}

abbrev all_well : StartAnswers
all_well = record {
  acquires_guard = true;
  holds_guard = true;
  opens_ledger = true;
  bootstrap = ok ("r" ∷ []);
  read_row = λ root. some none;
  is_quiet_after_reads = true;
  is_quiet_at_registration = true;
  registration = returns_disposer;
  closes_ledger = true;
  releases_guard = true;
}

target-fits : is_exact runtime target ≡ true
unfolding is_exact valid_target is_hex_text all_characters
target-fits = refl

start_strict_decides_example :
    (create_service strict host runtime baseline all_well).0 ≡ strict_service
unfolding select_admission_mode exact_target first_exact is_exact valid_target is_hex_text
    all_characters
start_strict_decides_example =
    (start_strict_decides strict host runtime baseline all_well).1 (record {
      configured = refl;
      protocol = refl;
      registers = refl;
      version = λ e. cc ((eq_iff "1.3.1" "").1 e);
      target = target;
      listed = inl refl;
      installed = (is_exact-IsInstalled runtime target).0 target-fits;
      has_runtime = refl;
      has_sessions = refl;
      has_persistence = refl;
      has_storage_domain = refl;
      acquired = refl;
      held = refl;
      opened = refl;
      roots = "r" ∷ [];
      bootstrapped = refl;
      readable = (λ e. cc, tt);
      quiet_after_reads = refl;
      quiet_at_registration = refl;
      disposer = refl;
    })

-- The registration returns no function, and the ledger cannot be closed.
abbrev no_disposer : StartAnswers
no_disposer = record all_well { registration = returns_other; closes_ledger = false }

start_gives_back_example :
    HoldsAs no_disposer
      (create_service strict host runtime baseline no_disposer).0
      (hold_all nothing (create_service strict host runtime baseline no_disposer).1)
start_gives_back_example = start_gives_back no_disposer strict host runtime baseline

-- The guard is released; the ledger and the policy are not given back.
left_behind :
    hold_all nothing (create_service strict host runtime baseline no_disposer).1
    ≡ record { guard = false; ledger = true; policy = undisposed }
unfolding create_service select_admission_mode exact_target first_exact is_exact valid_target
    is_hex_text all_characters
left_behind = refl

-- The guard is acquired, and `assertHeld` rejects: the guard is not released.
guard_is_kept :
    hold_all nothing
      (create_service strict host runtime baseline (record all_well { holds_guard = false })).1
    ≡ record nothing { guard = true }
unfolding create_service select_admission_mode exact_target first_exact is_exact valid_target
    is_hex_text all_characters
guard_is_kept = refl

abbrev limits : AdmissionLimits
limits = record {
  global_active = 4;
  per_root_active = 2;
  per_root_admitted_total = 8;
  per_parent_children = 4;
}

abbrev fresh : AuditState
fresh = record { active = []; telemetry = new_telemetry "epoch" limits }

abbrev run : String → String → LifecycleIdentity
run run_id child = record { run_id = run_id; child_id = child }

abbrev raw_run : String → String → RawLifecycle
raw_run run_id child = record { run_id = text run_id; id = text child }

abbrev family : String → Option AuditLineage
family child = some (record { parent_id = some "p"; root_id = "r" })

abbrev iso : ℕ → String
iso n = decimal n

-- Between the start and the end of the run `1`, the run `2` starts and ends.
abbrev between : AuditState
between =
    audit_steps iso (answers (natural 5)) family
      (starts (raw_run "2" "d") ∷ ends (raw_run "2" "d") ∷ [])
      (on_start iso (answers (natural 5)) family (some (run "1" "c")) fresh)

abbrev ended_once : AuditState
ended_once = on_end iso (answers (natural 5)) (some (run "1" "c")) between

audit_end_pairs_example :
    (ended_once.telemetry
      ≡ (record_event iso
          (release_of_run (safe_now (answers (natural 5))) "c" (family "c"))
          between.telemetry).0)
    × ((on_end iso (answers (natural 5)) (some (run "1" "e")) ended_once).telemetry
        ≡ (record_event iso
            (unpaired_end (safe_now (answers (natural 5))) "e")
            ended_once.telemetry).0)
unfolding lifecycle_identity
audit_end_pairs_example =
    audit_end_pairs iso (answers (natural 5)) family (run "1" "c") (run "1" "e")
      (starts (raw_run "2" "d") ∷ ends (raw_run "2" "d") ∷ []) fresh
      ((λ e. cc ((eq_iff "2" "1").1 e)), ((λ e. cc ((eq_iff "2" "1").1 e)), tt)) refl

abbrev readers : Readers
readers = record {
  read_status = throws;
  read_leases = answers [];
  read_root_ledger = λ root. answers none;
  resolve_root = λ session. answers none;
  clock = answers (natural 9);
}

-- The service is being disposed.
only_strict_services_enforce_example : StrictConditions strict host runtime baseline all_well
unfolding create_service select_admission_mode exact_target first_exact is_exact valid_target
    is_hex_text all_characters snapshot mode_named new_telemetry mode_steps start_telemetry
    service_readers lookup insert record_event
only_strict_services_enforce_example =
    only_strict_services_enforce iso (answers (natural 5)) strict host runtime baseline all_well
      true (new_telemetry "epoch" limits) (begins_drain ∷ []) readers family "r" refl
