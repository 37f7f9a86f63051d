-- ===== src/Authority.antt =====
-- packages/dsh-subagent-admission/src/host/authority.ts and seam-v1.ts: the authority that composes
-- the registry, the resolver and the ledger. Its state, and what it makes of an error.
pub mod Reserve
pub mod Section
pub mod Permits
pub mod Steps
pub mod Effects
pub mod Refinement
pub mod Limits
pub mod Durability
pub mod Commit
pub mod Closing
pub mod Bindings
use dsh_subagent_admission.Prelude.{
  ℕ, String, Option, none, some, Bool, true, false, List, [], ◌∷◌, ◌++◌, Dict, not, ◌&&◌, ◌||◌, leb,
  is_empty, if◌then◌else◌, Number, Result, ok, err,
}
use dsh_subagent_admission.Vocabulary.{
  AdmissionOperation, new_one_shot, new_continuable, cold_resume, AdmissionLimits,
  AdmissionErrorCode, admission_unavailable, admission_closed, admission_state_io,
  admission_binding_conflict, root_total_limit, parent_child_limit, root_active_limit,
  global_active_limit, AdmissionDenied,
}
use dsh_subagent_admission.Leases.{
  LeaseError, active_capacity, binding_conflict, invalid_insertion, duplicate_permit_id,
  root_count_failed, ActiveLease, ActiveLeaseRegistry, absent_or,
}
use dsh_subagent_admission.Leases.Operations.{mark_draining, is_present}
use dsh_subagent_admission.Ledger.{
  LedgerOperationalError, ReserveError, operational, from_callback, LedgerState, RootLedgerRow,
}
use dsh_subagent_admission.Resolver.{
  ResolverError, unavailable, conflict, aborted, reader_rejected, out_of_fuel, DurableRootResolver,
}

pub record SubagentAdmissionRequest : Type 0 where
  pub request_id : String
  pub operation : AdmissionOperation
  pub provider : String
  pub parent_session_id : String
  pub child_session_id : Option String

pub data ReleaseReason : Type 0 where
  startup_failed quiescent : ReleaseReason

-- What can be thrown, as far as `normalizeError` reads it: a denial of the authority, a value with
-- one of the eight codes and perhaps finite counts, any other value, or the reason of the signal.
pub data Thrown : Type 0 where
  authority_error : AdmissionDenied → Thrown
  coded : AdmissionErrorCode → Option (ℕ × ℕ) → Thrown
  uncoded abort_reason : Thrown

pub data EventKind : Type 0 where
  accepted_event bound_event denied_event released_event failed_start_event : EventKind

-- The time of an event is left out.
pub record AuthorityEvent : Type 0 where
  pub kind : EventKind
  pub request_id : String
  pub operation : AdmissionOperation
  pub root_id : String
  pub parent_session_id : String
  pub child_session_id : Option String
  pub code : Option AdmissionErrorCode
  pub reason : Option ReleaseReason
  pub is_duplicate : Bool

-- What a caller of `acquire` got: a permit for a lease, or what was thrown.
pub data Settled : Type 0 where
  granted : SubagentAdmissionRequest → ActiveLease → Settled
  refused : SubagentAdmissionRequest → AdmissionDenied → Settled
  rejected : SubagentAdmissionRequest → Thrown → Settled

-- What the serial section awaits inside of `acquire`: the ownership guard, the resolution, the
-- ledger's turn, or the write of a row.
pub data Awaiting : Type 0 where
  guarding resolving : SubagentAdmissionRequest → Awaiting
  reserving : SubagentAdmissionRequest → String → Number → Awaiting
  writing : SubagentAdmissionRequest → String → Number → RootLedgerRow → Awaiting

-- What waits for the serial section.
pub data Job : Type 0 where
  acquiring : SubagentAdmissionRequest → Job
  releasing : ActiveLease → ReleaseReason → Job

pub data Diagnostic : Type 0 where
  post_commit_lease_insertion_failed lease_release_invariant_failed : Diagnostic

-- The release of a permit, from its first call on: under way, with the reasons of the later calls
-- that wait for it, or settled.
pub data Release : Type 0 where
  under_way : List ReleaseReason → Release
  fulfilled failed : Release

-- The permits handed out, each with the lease that its closures hold, and their releases.
pub record AdmissionAuthority : Type 0 where
  pub limits : AdmissionLimits
  pub policy_epoch : String
  pub leases : ActiveLeaseRegistry
  pub resolver : DurableRootResolver
  pub ledger : LedgerState
  pub is_closed : Bool
  pub section : Option Awaiting
  pub tail : List Job
  pub permits : Dict ActiveLease
  pub releases : Dict Release
  pub settled : List Settled
  pub events : List AuthorityEvent
  pub diagnostics : List Diagnostic

abbrev pub is_cold_resume : AdmissionOperation → Bool
is_cold_resume cold_resume = true
is_cold_resume new_one_shot = false
is_cold_resume new_continuable = false

-- `validateRequest`; the operation is one of the three by its type.
unfoldable pub is_valid_request : SubagentAdmissionRequest → Bool
is_valid_request request =
    not (is_empty request.request_id)
    && not (is_empty request.provider)
    && not (is_empty request.parent_session_id)
    && absent_or (λ s. not (is_empty s)) request.child_session_id
    && (not (is_cold_resume request.operation) || is_present request.child_session_id)

-- The denial of a request that is not valid.
unfoldable pub invalid_request : String → AdmissionDenied
invalid_request epoch = record {
  code = admission_unavailable;
  operation = new_one_shot;
  root_id = "";
  parent_id = none;
  observed_value = 0;
  limit = 0;
  policy_epoch = epoch;
  request_id = "";
}

unfoldable pub denial :
    AdmissionErrorCode → SubagentAdmissionRequest → String → String → ℕ → ℕ → AdmissionDenied
denial code request epoch root observed limit = record {
  code = code;
  operation = request.operation;
  root_id = root;
  parent_id = some request.parent_session_id;
  observed_value = observed;
  limit = limit;
  policy_epoch = epoch;
  request_id = request.request_id;
}

-- `errorCounts`: the counts of the error, or those of the limit that its code names.
unfoldable pub error_counts : AdmissionLimits → AdmissionErrorCode → Option (ℕ × ℕ) → ℕ × ℕ
error_counts limits code (some counts) = counts
error_counts limits root_total_limit none =
    (limits.per_root_admitted_total, limits.per_root_admitted_total)
error_counts limits parent_child_limit none =
    (limits.per_parent_children, limits.per_parent_children)
error_counts limits root_active_limit none = (limits.per_root_active, limits.per_root_active)
error_counts limits global_active_limit none = (limits.global_active, limits.global_active)
error_counts limits admission_unavailable none = (0, 0)
error_counts limits admission_closed none = (0, 0)
error_counts limits admission_state_io none = (0, 0)
error_counts limits admission_binding_conflict none = (0, 0)

-- `normalizeError` with its fallback code.
unfoldable pub normalize_error :
    AdmissionLimits
    → String
    → AdmissionErrorCode
    → SubagentAdmissionRequest
    → String
    → Thrown
    → AdmissionDenied
unfolding denial error_counts
normalize_error limits epoch fallback request root (authority_error d) = d
normalize_error limits epoch fallback request root (coded code counts) =
    let (observed, limit) = error_counts limits code counts in
    denial code request epoch root observed limit
normalize_error limits epoch fallback request root uncoded = denial fallback request epoch root 0 0
normalize_error limits epoch fallback request root abort_reason =
    denial fallback request epoch root 0 0

-- What the errors of the other parts show to `normalizeError`.
unfoldable pub lease_thrown : LeaseError → Thrown
lease_thrown (active_capacity code observed limit) = coded code (some (observed, limit))
lease_thrown binding_conflict = coded admission_binding_conflict (some (1, 1))
lease_thrown invalid_insertion = uncoded
lease_thrown duplicate_permit_id = uncoded
lease_thrown root_count_failed = uncoded

unfoldable pub ledger_thrown : ReserveError LeaseError → Thrown
unfolding lease_thrown
ledger_thrown (operational e) = coded e.code (some (e.observed_value, e.limit))
ledger_thrown (from_callback e) = lease_thrown e

-- The first argument is what the header reader rejects with.
unfoldable pub resolver_thrown : Thrown → ResolverError → Thrown
resolver_thrown rejection (unavailable id) = coded admission_unavailable none
resolver_thrown rejection (conflict id) = coded admission_binding_conflict none
resolver_thrown rejection aborted = abort_reason
resolver_thrown rejection reader_rejected = rejection
resolver_thrown rejection out_of_fuel = uncoded

-- `closeAdmission`: a second call does nothing.
unfoldable pub close_admission : AdmissionAuthority → AdmissionAuthority
close_admission a =
    if a.is_closed then a else record a { is_closed = true; leases = mark_draining a.leases }

abbrev pub emit : AuthorityEvent → AdmissionAuthority → AdmissionAuthority
emit event a = record a { events = a.events ++ event ∷ [] }

-- `eventForLease`.
unfoldable pub event_for_lease :
    EventKind → ActiveLease → Option String → Option ReleaseReason → Bool → AuthorityEvent
event_for_lease kind lease child reason is_duplicate = record {
  kind = kind;
  request_id = lease.request_id;
  operation = lease.operation;
  root_id = lease.root_session_id;
  parent_session_id = lease.parent_session_id;
  child_session_id = child;
  code = none;
  reason = reason;
  is_duplicate = is_duplicate;
}

-- `emitDenied`.
unfoldable pub denied_event_of : SubagentAdmissionRequest → AdmissionDenied → AuthorityEvent
denied_event_of request d = record {
  kind = denied_event;
  request_id = request.request_id;
  operation = request.operation;
  root_id = d.root_id;
  parent_session_id = request.parent_session_id;
  child_session_id = request.child_session_id;
  code = some d.code;
  reason = none;
  is_duplicate = false;
}
