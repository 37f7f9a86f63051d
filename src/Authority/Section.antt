-- ===== src/Authority/Section.antt =====
-- authority.ts, `acquire`: one function for each stretch of code between two awaits. What other
-- code answers is an argument.
use dsh_subagent_admission.Prelude.{
  String, Option, none, some, Bool, true, false, List, [], ◌∷◌, ◌++◌, insert, not, if◌then◌else◌,
  Number, is_safe_nonnegative, other, Result, ok, err, rethrow,
}
use dsh_subagent_admission.Vocabulary.{
  AdmissionErrorCode, admission_unavailable, admission_closed, admission_state_io,
}
use dsh_subagent_admission.Leases.{
  LeaseError, ActiveLeaseInsert, ActiveLeaseRegistry, insert_lease,
  assert_root_then_global_capacity, assert_child_available,
}
use dsh_subagent_admission.Resolver.{Reading, ResolvedLineage, ResolverError, resolve}
use dsh_subagent_admission.Authority.{
  SubagentAdmissionRequest, Thrown, authority_error, abort_reason, accepted_event, granted, refused,
  rejected, guarding, resolving, reserving, acquiring, Diagnostic,
  post_commit_lease_insertion_failed, AdmissionAuthority, is_cold_resume, is_valid_request,
  invalid_request, denial, normalize_error, lease_thrown, resolver_thrown, close_admission,
  event_for_lease, denied_event_of,
}

-- The signal over a stretch: it stays silent, aborts only before the caller of the serial section
-- catches the stretch's error, or has aborted already.
pub data Signal : Type 0 where
  silent aborts_late has_aborted : Signal

abbrev pub is_aborted : Signal → Bool
is_aborted silent = false
is_aborted aborts_late = false
is_aborted has_aborted = true

abbrev pub is_aborted_at_catch : Signal → Bool
is_aborted_at_catch silent = false
is_aborted_at_catch aborts_late = true
is_aborted_at_catch has_aborted = true

abbrev pub deny_as :
    AdmissionAuthority → AdmissionErrorCode → SubagentAdmissionRequest → String → Thrown
unfolding denial
deny_as a code request root = authority_error (denial code request a.policy_epoch root 0 0)

-- The outer `catch`: an abort passes the error on, anything else is normalized and reported.
unfoldable pub catch_error :
    Signal
    → SubagentAdmissionRequest
    → String
    → List Diagnostic
    → Thrown
    → AdmissionAuthority
    → AdmissionAuthority
unfolding normalize_error denied_event_of
catch_error signal request root pending thrown a =
    let d = normalize_error a.limits a.policy_epoch admission_unavailable request root thrown in
    if is_aborted_at_catch signal
    then record a { section = none; settled = a.settled ++ rejected request thrown ∷ [] }
    else record a {
      section = none;
      settled = a.settled ++ refused request d ∷ [];
      events = a.events ++ denied_event_of request d ∷ [];
      diagnostics = a.diagnostics ++ pending;
    }

-- `acquire` up to the serial section. An invalid request is denied without an event, and an abort
-- rejects without one.
unfoldable pub acquire : Bool → SubagentAdmissionRequest → AdmissionAuthority → AdmissionAuthority
unfolding invalid_request denial denied_event_of
acquire aborts request a =
    let d = denial admission_closed request a.policy_epoch "" 0 0 in
    if not (is_valid_request request)
    then record a { settled = a.settled ++ refused request (invalid_request a.policy_epoch) ∷ [] }
    else if aborts
    then record a { settled = a.settled ++ rejected request abort_reason ∷ [] }
    else if a.is_closed
    then record a {
      settled = a.settled ++ refused request d ∷ [];
      events = a.events ++ denied_event_of request d ∷ [];
    }
    else record a { tail = a.tail ++ acquiring request ∷ [] }

-- The section begins an acquisition: it calls the guard unless admission is closed.
unfoldable pub begin : Signal → SubagentAdmissionRequest → AdmissionAuthority → AdmissionAuthority
unfolding catch_error
begin signal request a =
    if is_aborted signal
    then catch_error signal request "" [] abort_reason a
    else if a.is_closed
    then catch_error signal request "" [] (deny_as a admission_closed request "") a
    else record a { section = some (guarding request) }

-- `assertHeld` has fulfilled or rejected.
unfoldable pub guard_answered :
    Signal → Bool → SubagentAdmissionRequest → AdmissionAuthority → AdmissionAuthority
unfolding catch_error
guard_answered signal is_held request a =
    if not is_held
    then catch_error signal request "" [] (deny_as a admission_unavailable request "") a
    else if is_aborted signal
    then catch_error signal request "" [] abort_reason a
    else record a { section = some (resolving request) }

-- What a clock answers: a number, or it throws.
abbrev pub clock_number : Option Number → Number
clock_number none = other
clock_number (some n) = n

-- `if (request.childSessionId !== undefined) assertChildAvailable(...)`.
unfoldable pub check_child : ActiveLeaseRegistry → Option String → Result Thrown (Unit {0})
unfolding lease_thrown assert_child_available
check_child g none = ok tt
check_child g (some child) = rethrow lease_thrown (assert_child_available g child)

unfoldable pub check_capacity : AdmissionAuthority → String → Result LeaseError (Unit {0})
check_capacity a root = assert_root_then_global_capacity a.leases root a.limits

-- The input of the lease: a cold resume has its child from the start.
unfoldable pub lease_input : SubagentAdmissionRequest → String → Number → ActiveLeaseInsert
lease_input request root now = record {
  request_id = request.request_id;
  operation = request.operation;
  root_session_id = root;
  parent_session_id = request.parent_session_id;
  expected_child_session_id = request.child_session_id;
  initial_child_session_id =
      if is_cold_resume request.operation then request.child_session_id else none;
  admitted_at = now;
}

-- The insertion at the end of the section. Its failure closes admission.
unfoldable pub insert_step :
    Signal → SubagentAdmissionRequest → String → Number → AdmissionAuthority → AdmissionAuthority
unfolding event_for_lease
insert_step signal request root now a =
    elim (insert_lease a.leases (lease_input request root now)) [
      | err e ↦
          let closed = close_admission a in
          catch_error signal request root (post_commit_lease_insertion_failed ∷ [])
            (deny_as a admission_state_io request root) closed
      | ok (lease, leases) ↦ record a {
        leases = leases;
        section = none;
        permits = insert lease.permit_id lease a.permits;
        settled = a.settled ++ granted request lease ∷ [];
        events =
            a.events ++ event_for_lease accepted_event lease lease.child_session_id none false ∷ [];
      }
    ]

-- A cold resume: no ledger, so nothing is awaited between the check and the insertion.
unfoldable pub resume_step :
    Signal → SubagentAdmissionRequest → String → Number → AdmissionAuthority → AdmissionAuthority
unfolding check_capacity insert_step catch_error
resume_step signal request root now a = elim (check_capacity a root) [
  | err e ↦ catch_error signal request root [] (lease_thrown e) a
  | ok _ ↦ insert_step signal request root now a
]

-- The section after the resolution: a cold resume is inserted, a new child goes to the ledger.
unfoldable pub after_resolution :
    Signal
    → Option Number
    → SubagentAdmissionRequest
    → String
    → AdmissionAuthority
    → AdmissionAuthority
unfolding check_child
after_resolution signal clock request root a =
    elim (check_child a.leases request.child_session_id) [
      | err e ↦ catch_error signal request root [] e a
      | ok _ ↦
          if not (is_safe_nonnegative (clock_number clock))
          then catch_error signal request root [] (deny_as a admission_state_io request root) a
          else if is_cold_resume request.operation
          then resume_step signal request root (clock_number clock) a
          else record a { section = some (reserving request root (clock_number clock)) }
    ]

-- The inner `catch` around the resolution: an abort passes the error on.
unfoldable pub resolution_error :
    Signal → AdmissionAuthority → SubagentAdmissionRequest → Thrown → Thrown
unfolding normalize_error
resolution_error signal a request thrown =
    if is_aborted signal
    then thrown
    else authority_error
        (normalize_error a.limits a.policy_epoch admission_unavailable request "" thrown)

-- What `roots.resolve` came to; the second argument is what the header reader rejects with.
unfoldable pub resolution_settled :
    Signal
    → Thrown
    → Option Number
    → SubagentAdmissionRequest
    → Result ResolverError ResolvedLineage
    → AdmissionAuthority
    → AdmissionAuthority
unfolding resolver_thrown resolution_error
resolution_settled signal rejection clock request (err e) a =
    catch_error signal request "" []
      (resolution_error signal a request (resolver_thrown rejection e)) a
resolution_settled signal rejection clock request (ok lineage) a =
    if is_aborted signal
    then catch_error signal request "" [] abort_reason a
    else after_resolution signal clock request lineage.root_session_id a

-- `roots.resolve` has settled.
unfoldable pub resolution_answered :
    Signal
    → Reading
    → Thrown
    → Option Number
    → SubagentAdmissionRequest
    → AdmissionAuthority
    → AdmissionAuthority
unfolding resolution_settled
resolution_answered signal reading rejection clock request a =
    let outcome = resolve reading a.resolver request.parent_session_id in
    resolution_settled signal rejection clock request outcome.0 (record a { resolver = outcome.1 })
