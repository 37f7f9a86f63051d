-- ===== src/Authority/Effects.antt =====
-- authority.ts, the abstract view of a step: what it does to the counts, the ledger and the serial
-- section. Every step of the authority is one of five effects.
pub mod Entry
pub mod Insertion
pub mod Acquire
pub mod Permit
use dsh_subagent_admission.Prelude.{
  ℕ, ◌+◌, ◌≤◌, ◌<◌, ◌≡◌, refl, sym, ap, subst, ◌∙◌, ◌⊎◌, inl, inr, String, Option, none, some, Bool,
  true, false, List, [], ◌∷◌, ◌++◌, Dict, lookup, insert, arith, eq_iff, ◌==◌, if◌then◌else◌, not,
  ◌||◌, Number, is_safe_nonnegative, Result, ok, err, Bool-cases, Option-cases, Result-cases,
}
use dsh_subagent_admission.Vocabulary.{
  AdmissionLimits, AdmissionErrorCode, admission_closed, admission_state_io, admission_unavailable,
  AdmissionDenied,
}
use dsh_subagent_admission.Leases.{
  LeaseError, ActiveLease, ActiveLeaseRegistry, LeaseBindResult, root_active, global_active,
  insert_lease, new_lease, available, already_bound, LeaseBindInspection,
}
use dsh_subagent_admission.Leases.Operations.{
  bind_lease, remove_lease, inspect_binding, mark_draining,
}
use dsh_subagent_admission.Leases.Invariant.{IsValid}
use dsh_subagent_admission.Leases.Contract.{capacity_decides}
use dsh_subagent_admission.Leases.Effects.{
  Fewer, Entered, Fewer-same, mark_draining-Fewer, bind_lease-Fewer, remove_lease-Fewer,
  insert_lease-ok,
}
use dsh_subagent_admission.Ledger.{
  RootLedgerRow, ReserveNewInput, LedgerState, PutAnswer, stored, rejected_before, rejected_after,
  ReserveError, next_row, check_totals, run_callback, prepare_row, put_row,
}
use dsh_subagent_admission.Ledger.Reservation.{current_row, HasTotals}
use dsh_subagent_admission.Resolver.{
  Reading, ResolverError, DurableRootResolver, ResolvedLineage, resolve, bind_child,
  has_other_parent,
}
use dsh_subagent_admission.Authority.{
  SubagentAdmissionRequest, Thrown, Settled, granted, refused, rejected, Awaiting, guarding,
  resolving, reserving, writing, Diagnostic, Job, acquiring, releasing, ReleaseReason, Release,
  under_way, fulfilled, failed, AdmissionAuthority, is_cold_resume, is_valid_request,
  invalid_request, abort_reason, accepted_event, event_for_lease, lease_thrown,
  post_commit_lease_insertion_failed, denial, denied_event_of, close_admission,
}
use dsh_subagent_admission.Authority.Section.{
  deny_as, Signal, is_aborted, silent, aborts_late, has_aborted, catch_error, acquire, begin,
  guard_answered, check_child, check_capacity, lease_input, insert_step, resume_step,
  after_resolution, resolution_answered, resolution_error, clock_number,
}
use dsh_subagent_admission.Authority.Reserve.{
  LedgerAnswer, reservation_input, capacity_callback, prepare_step, ledger_answered, put_answered,
}
use dsh_subagent_admission.Authority.Permits.{
  bind_in_registry, bind_available, bind_lease_child, permit_bind, permit_release, release_lease,
  RuntimeReason,
}
use dsh_subagent_admission.Authority.Steps.{
  Step, start_job, to_guard, to_resolution, to_ledger, to_put, on_permit, step,
}

-- One for a permit of a new child under this root.
abbrev pub new_for : String → Settled → ℕ
new_for r (granted request lease) =
    if is_cold_resume request.operation then 0 else if lease.root_session_id == r then 1 else 0
new_for r (refused request d) = 0
new_for r (rejected request t) = 0

-- The permits for new children granted under a root.
unfoldable pub new_grants : String → List Settled → ℕ
new_grants r [] = 0
new_grants r (x ∷ xs) = new_for r x + new_grants r xs

pub new_grants-append :
    (r : String) (xs : List Settled) (x : Settled)
    → new_grants r (xs ++ x ∷ []) ≡ new_grants r xs + new_for r x
unfolding new_grants
new_grants-append r [] x = omega arith
new_grants-append r (y ∷ xs) x = omega (arith, new_grants-append r xs x)

-- Room for one lease more under a root.
abbrev pub HasRoom : AdmissionAuthority → String → Type 0
HasRoom a root =
    (root_active a.leases root < a.limits.per_root_active)
    × (global_active a.leases < a.limits.global_active)

-- No row is being written.
abbrev pub IsCalm : Option Awaiting → Type 0
IsCalm none = Unit {0}
IsCalm (some (guarding request)) = Unit {0}
IsCalm (some (resolving request)) = Unit {0}
IsCalm (some (reserving request root now)) = Unit {0}
IsCalm (some (writing request root now row)) = ⊥

-- Permits granted by a step.
abbrev pub NoGrant : AdmissionAuthority → AdmissionAuthority → Type 0
NoGrant a b = (r : String) → new_grants r b.settled ≡ new_grants r a.settled

pub data Effect (a b : AdmissionAuthority) : Type 0 where
  calm :
      b.limits ≡ a.limits
      → b.ledger ≡ a.ledger
      → Fewer a.leases b.leases
      → (b.section ≡ a.section) ⊎ IsCalm b.section
      → NoGrant a b
      → Effect a b
  resumes :
      (root : String)
      → b.limits ≡ a.limits
      → b.ledger ≡ a.ledger
      → HasRoom a root
      → Entered root a.leases b.leases
      → b.section ≡ none
      → NoGrant a b
      → Effect a b
  prepares :
      (request : SubagentAdmissionRequest) (root : String) (now : Number)
      → HasRoom a root
      → HasTotals a.ledger (reservation_input a request root now)
      → b.limits ≡ a.limits
      → b.ledger ≡ a.ledger
      → b.leases ≡ a.leases
      → b.section
        ≡ some (
            writing request root now
              (next_row (lookup root a.ledger.rows) (reservation_input a request root now)))
      → NoGrant a b
      → Effect a b
  commits :
      (request : SubagentAdmissionRequest) (root : String) (now : Number) (row : RootLedgerRow)
      → a.section ≡ some (writing request root now row)
      → b.limits ≡ a.limits
      → b.ledger.rows ≡ insert root row a.ledger.rows
      → Entered root a.leases b.leases
      → b.section ≡ none
      → ((r : String)
          → new_grants r b.settled ≤ new_grants r a.settled + (if root == r then 1 else 0))
      → Effect a b
  spends :
      (request : SubagentAdmissionRequest) (root : String) (now : Number) (row : RootLedgerRow)
      → a.section ≡ some (writing request root now row)
      → b.limits ≡ a.limits
      → (b.ledger ≡ a.ledger) ⊎ (b.ledger.rows ≡ insert root row a.ledger.rows)
      → Fewer a.leases b.leases
      → b.section ≡ none
      → NoGrant a b
      → Effect a b

-- A step that adds no lease and leaves the section as it is.
pub record Calms (a b : AdmissionAuthority) : Type 0 where
  pub limits : b.limits ≡ a.limits
  pub ledger : b.ledger ≡ a.ledger
  pub fewer : Fewer a.leases b.leases
  pub section : b.section ≡ a.section
  pub grants : NoGrant a b

pub Calms-Effect : (a b : AdmissionAuthority) → Calms a b → Effect a b
Calms-Effect a b c = calm c.limits c.ledger c.fewer (inl c.section) c.grants

-- The resolver is not part of the view.
pub Effect-resolver :
    (a c : AdmissionAuthority) (resolver : DurableRootResolver)
    → Effect (record a { resolver = resolver }) c
    → Effect a c
unfolding reservation_input
Effect-resolver a c resolver (calm l m f s g) = calm l m f s g
Effect-resolver a c resolver (resumes root l m h e s g) = resumes root l m h e s g
Effect-resolver a c resolver (prepares request root now h t l m n s g) =
    prepares request root now h t l m n s g
Effect-resolver a c resolver (commits request root now row w l m e s g) =
    commits request root now row w l m e s g
Effect-resolver a c resolver (spends request root now row w l m f s g) =
    spends request root now row w l m f s g

-- What an error leaves: everything that the effects read, and an idle section.
pub record Caught (a b : AdmissionAuthority) : Type 0 where
  pub limits : b.limits ≡ a.limits
  pub ledger : b.ledger ≡ a.ledger
  pub leases : b.leases ≡ a.leases
  pub section : b.section ≡ none
  pub grants : NoGrant a b

pub catch_error-Caught :
    (signal : Signal) (request : SubagentAdmissionRequest) (root : String)
    (pending : List Diagnostic) (thrown : Thrown) (a : AdmissionAuthority)
    → Caught a (catch_error signal request root pending thrown a)
unfolding catch_error
catch_error-Caught silent request root pending thrown a = record {
  limits = refl;
  ledger = refl;
  leases = refl;
  section = refl;
  grants = λ r. omega (arith, new_grants-append r a.settled (refused request _));
}
catch_error-Caught aborts_late request root pending thrown a = record {
  limits = refl;
  ledger = refl;
  leases = refl;
  section = refl;
  grants = λ r. omega (arith, new_grants-append r a.settled (rejected request thrown));
}
catch_error-Caught has_aborted request root pending thrown a = record {
  limits = refl;
  ledger = refl;
  leases = refl;
  section = refl;
  grants = λ r. omega (arith, new_grants-append r a.settled (rejected request thrown));
}
