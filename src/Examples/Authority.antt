-- ===== src/Examples/Authority.antt =====
-- authority.ts at concrete inputs.
use dsh_subagent_admission.Prelude.{
  ◌⊎◌, ◌++◌, ◌+◌, ◌≡◌, ◌≤◌, refl, none, some, true, false, List, [], ◌∷◌, lookup, insert, size, max,
  natural,
}
use dsh_subagent_admission.Vocabulary.{admission_unavailable, AdmissionLimits, new_one_shot}
use dsh_subagent_admission.StateModel.{permit_name, increment_count}
use dsh_subagent_admission.Leases.{
  binding_conflict, ActiveLease, active, root_active, global_active, new_registry, is_valid_insert,
  is_claimed, new_lease, inserted, insert_lease, assert_root_then_global_capacity,
}
use dsh_subagent_admission.Leases.Operations.{inspect_lease, inspect_binding, bind_lease}
use dsh_subagent_admission.Leases.Invariant.{live_of, IsValid}
use dsh_subagent_admission.Ledger.{
  stored, LedgerState, is_valid_reservation, next_row, check_totals, run_callback, prepare_row,
  put_row,
}
use dsh_subagent_admission.Ledger.Rows.{root_total}
use dsh_subagent_admission.Resolver.{
  header, Reading, is_acceptable, visit, traverse, memoize_all, finish, resolve_fresh, resolve,
  bind_child, bind_fresh,
}
use dsh_subagent_admission.Authority.{
  normalize_error, lease_thrown, denial, error_counts, granted, SubagentAdmissionRequest, uncoded,
  AdmissionAuthority, is_valid_request, close_admission,
}
use dsh_subagent_admission.Authority.Section.{
  silent, acquire, begin, guard_answered, check_child, check_capacity, lease_input, insert_step,
  after_resolution, resolution_settled, resolution_answered,
}
use dsh_subagent_admission.Authority.Reserve.{
  reservation_input, prepare_step, ledger_answered, put_answered,
}
use dsh_subagent_admission.Authority.Permits.{
  permit_bind, bind_lease_child, bind_available, bind_in_registry, binding_conflict_of,
  quiescent_reason,
}
use dsh_subagent_admission.Authority.Steps.{
  Step, calls_release, calls_acquire, starts_job, guard_answers, resolution_answers, ledger_answers,
  put_answers, new_authority, start_job, to_guard, to_resolution, to_ledger, to_put, step, steps,
}
use dsh_subagent_admission.Authority.Effects.{new_grants, Effect}
use dsh_subagent_admission.Authority.Refinement.{step-Effect}
use dsh_subagent_admission.Authority.Commit.{insertion_decides}
use dsh_subagent_admission.Authority.Limits.{
  steps_within_limits, steps-IsSound, new_authority-IsSound,
}
use dsh_subagent_admission.Authority.Durability.{grants_are_durable, counter_within_limit}
use dsh_subagent_admission.Authority.Bindings.{IsBoundIn, permit_bind_atomic, permit_bind_agrees}
use dsh_subagent_admission.Authority.Closing.{permits_granted, running}
use dsh_subagent_admission.Authority.Closing.Drained.{drained_stays_drained}
use dsh_subagent_admission.Authority.Effects.Entry.{closed-Fewer}
use dsh_subagent_admission.Authority.Closing.End.{closing_ends_admission, close_admission-closed}

abbrev limits : AdmissionLimits
limits = record {
  global_active = 2;
  per_root_active = 1;
  per_root_admitted_total = 3;
  per_parent_children = 2;
}

abbrev no_rows : LedgerState
no_rows = record { rows = []; writes = 0 }

abbrev request : SubagentAdmissionRequest
request = record {
  request_id = "q";
  operation = new_one_shot;
  provider = "agent";
  parent_session_id = "r";
  child_session_id = none;
}

abbrev reading : Reading
reading = record { inspect = λ n id. header id none; is_aborted = λ n. false }

-- One acquisition from its call to its permit.
abbrev acquisition : List Step
acquisition =
    calls_acquire false request
    ∷ starts_job silent
    ∷ guard_answers silent true
    ∷ resolution_answers silent reading uncoded (some (natural 7))
    ∷ ledger_answers silent (record { is_closed = false; get_throws = false })
    ∷ put_answers silent stored
    ∷ []

abbrev admitted : AdmissionAuthority
admitted = steps (new_authority limits "epoch" no_rows) acquisition

one_permit :
    (new_grants "r" admitted.settled ≡ 1)
    × (root_active admitted.leases "r" ≡ 1)
    × (root_total "r" admitted.ledger ≡ 1)
unfolding steps step new_authority acquire is_valid_request start_job begin to_guard guard_answered
    to_resolution resolution_answered resolution_settled resolve resolve_fresh traverse visit
    is_acceptable finish memoize_all after_resolution check_child to_ledger ledger_answered
    prepare_step is_valid_reservation prepare_row check_totals run_callback check_capacity
    assert_root_then_global_capacity next_row to_put put_answered put_row insert_step insert_lease
    is_valid_insert inserted new_lease new_registry permit_name increment_count lookup insert
    new_grants reservation_input lease_input
one_permit = (refl, refl, refl)

steps_within_limits_example :
    (live_of "r" admitted.leases.leases ≤ 1)
    × (size admitted.leases.leases ≤ 2)
    × (root_active admitted.leases "r" ≡ live_of "r" admitted.leases.leases)
steps_within_limits_example = steps_within_limits limits "epoch" no_rows acquisition "r"

grants_are_durable_example :
    root_total "r" no_rows + new_grants "r" admitted.settled ≤ root_total "r" admitted.ledger
grants_are_durable_example = grants_are_durable limits "epoch" no_rows acquisition "r"

counter_within_limit_example :
    (root_total "r" no_rows ≤ root_total "r" admitted.ledger)
    × (root_total "r" admitted.ledger ≤ max (root_total "r" no_rows) 3)
counter_within_limit_example = counter_within_limit limits "epoch" no_rows acquisition "r"

-- The step that grants the permit: the row is stored, the lease entered.
abbrev writing_row : AdmissionAuthority
writing_row = steps (new_authority limits "epoch" no_rows) (
    calls_acquire false request
    ∷ starts_job silent
    ∷ guard_answers silent true
    ∷ resolution_answers silent reading uncoded (some (natural 7))
    ∷ ledger_answers silent (record { is_closed = false; get_throws = false })
    ∷ [])

writing_row-IsValid : IsValid writing_row.leases
writing_row-IsValid =
    (steps-IsSound (new_authority limits "epoch" no_rows) _
      (new_authority-IsSound limits "epoch" no_rows)).leases

step-Effect_example : Effect writing_row (step writing_row (put_answers silent stored))
step-Effect_example = step-Effect writing_row writing_row-IsValid (put_answers silent stored)

abbrev first_lease : ActiveLease
first_lease = record {
  permit_id = "permit-0";
  request_id = "q";
  operation = new_one_shot;
  root_session_id = "r";
  parent_session_id = "r";
  expected_child_session_id = none;
  child_session_id = none;
  admitted_at = natural 7;
  phase = active;
}

admitted-IsValid : IsValid admitted.leases
admitted-IsValid =
    (steps-IsSound (new_authority limits "epoch" no_rows) acquisition
      (new_authority-IsSound limits "epoch" no_rows)).leases

-- The caller names another parent.
permit_bind_atomic_example : (permit_bind first_lease "c" (some "x") admitted).1 ≡ admitted
unfolding permit_bind bind_lease_child steps step new_authority acquire is_valid_request start_job
    begin to_guard guard_answered to_resolution resolution_answered resolution_settled resolve
    resolve_fresh traverse visit is_acceptable finish memoize_all after_resolution check_child
    to_ledger ledger_answered prepare_step is_valid_reservation prepare_row check_totals
    run_callback check_capacity assert_root_then_global_capacity next_row to_put put_answered
    put_row insert_step insert_lease is_valid_insert inserted new_lease new_registry permit_name
    increment_count lookup insert reservation_input lease_input
permit_bind_atomic_example =
    (permit_bind_atomic admitted admitted-IsValid first_lease "c" (some "x")
      (binding_conflict_of admitted first_lease) refl).0

permit_bind_agrees_example :
    IsBoundIn admitted admitted-IsValid first_lease "c" none
      (permit_bind first_lease "c" none admitted).1.leases
unfolding permit_bind bind_lease_child steps step new_authority acquire is_valid_request start_job
    begin to_guard guard_answered to_resolution resolution_answered resolution_settled resolve
    resolve_fresh traverse visit is_acceptable finish memoize_all after_resolution check_child
    to_ledger ledger_answered prepare_step is_valid_reservation prepare_row check_totals
    run_callback check_capacity assert_root_then_global_capacity next_row to_put put_answered
    put_row insert_step insert_lease is_valid_insert inserted new_lease new_registry permit_name
    increment_count lookup insert reservation_input lease_input bind_available bind_in_registry
    bind_child bind_fresh bind_lease inspect_binding inspect_lease
permit_bind_agrees_example =
    (permit_bind_agrees admitted admitted-IsValid first_lease "c" none refl).0

-- Admission is closed while the row is written: the permit is granted still, and no other.
closing_ends_admission_example :
    ((steps (close_admission writing_row) (put_answers silent stored ∷ acquisition)).is_closed
      ≡ true)
    × (permits_granted
          (steps (close_admission writing_row) (put_answers silent stored ∷ acquisition)).settled
        ≤ permits_granted (close_admission writing_row).settled
          + running (close_admission writing_row).section)
closing_ends_admission_example =
    closing_ends_admission (close_admission writing_row) (put_answers silent stored ∷ acquisition)
      (close_admission-closed writing_row)

-- One lease is live and an acquisition waits when admission is closed.
abbrev with_waiting : AdmissionAuthority
with_waiting =
    steps (new_authority limits "epoch" no_rows) (acquisition ++ calls_acquire false request ∷ [])

abbrev closed_waiting : AdmissionAuthority
closed_waiting = close_admission with_waiting

closed_waiting-IsValid : IsValid closed_waiting.leases
closed_waiting-IsValid =
    (closed-Fewer with_waiting
      (steps-IsSound (new_authority limits "epoch" no_rows) _
        (new_authority-IsSound limits "epoch" no_rows)).leases).valid

closed_waiting-idle : closed_waiting.section ≡ none
unfolding close_admission permit_bind bind_lease_child steps step new_authority acquire
    is_valid_request start_job begin to_guard guard_answered to_resolution resolution_answered
    resolution_settled resolve resolve_fresh traverse visit is_acceptable finish memoize_all
    after_resolution check_child to_ledger ledger_answered prepare_step is_valid_reservation
    prepare_row check_totals run_callback check_capacity assert_root_then_global_capacity next_row
    to_put put_answered put_row insert_step insert_lease is_valid_insert inserted new_lease
    new_registry permit_name increment_count lookup insert reservation_input lease_input
    bind_available bind_in_registry bind_child bind_fresh bind_lease inspect_binding inspect_lease
closed_waiting-idle = refl

abbrev last_steps : List Step
last_steps = calls_release "permit-0" quiescent_reason ∷ starts_job silent ∷ starts_job silent ∷ []

drained_stays_drained_example :
    ((steps closed_waiting last_steps).section ≡ none)
    × (global_active (steps closed_waiting last_steps).leases ≤ global_active closed_waiting.leases)
drained_stays_drained_example =
    drained_stays_drained closed_waiting last_steps closed_waiting-IsValid
      (close_admission-closed with_waiting) closed_waiting-idle

insertion_decides_example :
    let b = insert_step silent request "r" (natural 7) writing_row in
    ((is_claimed none writing_row.leases.child_claims ≡ false)
      × (b.settled
          ≡ writing_row.settled
            ++ granted request (new_lease writing_row.leases (lease_input request "r" (natural 7)))
              ∷ [])
      × (b.leases ≡ inserted writing_row.leases (lease_input request "r" (natural 7)))
      × (b.is_closed ≡ writing_row.is_closed))
    ⊎ ((is_claimed none writing_row.leases.child_claims ≡ true)
        × (permits_granted b.settled ≡ permits_granted writing_row.settled)
        × (b.leases ≡ (close_admission writing_row).leases)
        × (b.is_closed ≡ true))
unfolding is_valid_request
insertion_decides_example =
    insertion_decides writing_row writing_row-IsValid request "r" (natural 7) refl refl refl silent

-- A conflict of leases is reported with the counts that it carries.
conflict_counts :
    (normalize_error limits "epoch" admission_unavailable request "r"
      (lease_thrown binding_conflict)).observed_value
    ≡ 1
unfolding normalize_error lease_thrown denial error_counts
conflict_counts = refl
