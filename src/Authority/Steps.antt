-- ===== src/Authority/Steps.antt =====
-- authority.ts, its histories: the authority acts in stretches of code without an await, and calls
-- of permits, `acquire` and `closeAdmission` may come between any two of them.
use dsh_subagent_admission.Prelude.{
  ◌&&◌, leb, not, is_empty, if◌then◌else◌, String, Option, none, some, Bool, false, List, [], ◌∷◌,
  lookup, Number,
}
use dsh_subagent_admission.Leases.{ActiveLease, new_registry}
use dsh_subagent_admission.Vocabulary.{AdmissionLimits}
use dsh_subagent_admission.Ledger.{PutAnswer, LedgerState, is_positive_safe_integer}
use dsh_subagent_admission.Resolver.{Reading}
use dsh_subagent_admission.Authority.{
  SubagentAdmissionRequest, Thrown, Awaiting, guarding, resolving, reserving, writing, Job,
  acquiring, releasing, AdmissionAuthority, close_admission,
}
use dsh_subagent_admission.Authority.Section.{
  Signal, acquire, begin, guard_answered, resolution_answered,
}
use dsh_subagent_admission.Authority.Reserve.{LedgerAnswer, ledger_answered, put_answered}
use dsh_subagent_admission.Authority.Permits.{
  RuntimeReason, permit_bind, permit_release, release_lease,
}

-- The constructor's state, over a ledger that may hold rows already.
unfoldable pub new_authority : AdmissionLimits → String → LedgerState → AdmissionAuthority
new_authority limits epoch ledger = record {
  limits = limits;
  policy_epoch = epoch;
  leases = new_registry;
  resolver = record { resolved = []; bound_children = [] };
  ledger = ledger;
  is_closed = false;
  section = none;
  tail = [];
  permits = [];
  releases = [];
  settled = [];
  events = [];
  diagnostics = [];
}

-- `assertLimits`.
unfoldable pub assert_limits : AdmissionLimits → Bool
assert_limits limits =
    is_positive_safe_integer limits.global_active
    && is_positive_safe_integer limits.per_root_active
    && is_positive_safe_integer limits.per_root_admitted_total
    && is_positive_safe_integer limits.per_parent_children
    && leb limits.per_root_active limits.global_active
    && leb limits.per_root_active limits.per_root_admitted_total
    && leb limits.per_parent_children limits.per_root_admitted_total

-- The constructor, which throws on limits that are not coherent and on an empty epoch.
unfoldable pub create_authority : AdmissionLimits → String → LedgerState → Option AdmissionAuthority
unfolding new_authority assert_limits
create_authority limits epoch ledger =
    if not (assert_limits limits)
    then none
    else if is_empty epoch
    then none
    else some (new_authority limits epoch ledger)

-- A call by a client, or the end of one of the awaits with its answer; a permit is named by its id.
pub data Step : Type 0 where
  calls_acquire : Bool → SubagentAdmissionRequest → Step
  calls_bind : String → String → Option String → Step
  calls_release : String → RuntimeReason → Step
  calls_close : Step
  starts_job : Signal → Step
  guard_answers : Signal → Bool → Step
  resolution_answers : Signal → Reading → Thrown → Option Number → Step
  ledger_answers : Signal → LedgerAnswer → Step
  put_answers : Signal → PutAnswer → Step

-- The serial section takes its next job.
unfoldable pub start_job :
    Signal → Option Awaiting → List Job → AdmissionAuthority → AdmissionAuthority
start_job signal (some w) jobs a = a
start_job signal none [] a = a
start_job signal none (acquiring request ∷ jobs) a = begin signal request (record a { tail = jobs })
start_job signal none (releasing lease reason ∷ jobs) a =
    release_lease lease reason (record a { tail = jobs })

-- An answer goes to the await that asked for it.
unfoldable pub to_guard : Signal → Bool → Option Awaiting → AdmissionAuthority → AdmissionAuthority
to_guard signal is_held (some (guarding request)) a = guard_answered signal is_held request a
to_guard signal is_held w a = a

unfoldable pub to_resolution :
    Signal
    → Reading
    → Thrown
    → Option Number
    → Option Awaiting
    → AdmissionAuthority
    → AdmissionAuthority
to_resolution signal reading rejection clock (some (resolving request)) a =
    resolution_answered signal reading rejection clock request a
to_resolution signal reading rejection clock w a = a

unfoldable pub to_ledger :
    Signal → LedgerAnswer → Option Awaiting → AdmissionAuthority → AdmissionAuthority
to_ledger signal answer (some (reserving request root now)) a =
    ledger_answered signal answer request root now a
to_ledger signal answer w a = a

unfoldable pub to_put :
    Signal → PutAnswer → Option Awaiting → AdmissionAuthority → AdmissionAuthority
to_put signal answer (some (writing request root now row)) a =
    put_answered signal answer request root now row a
to_put signal answer w a = a

-- A call on a permit that was not handed out cannot be made.
unfoldable pub on_permit :
    (ActiveLease → AdmissionAuthority)
    → Option ActiveLease
    → AdmissionAuthority
    → AdmissionAuthority
on_permit act none a = a
on_permit act (some lease) a = act lease

unfoldable pub step : AdmissionAuthority → Step → AdmissionAuthority
unfolding to_guard to_resolution to_ledger to_put on_permit start_job
step a (calls_acquire is_aborted request) = acquire is_aborted request a
step a (calls_bind id child local_parent) =
    on_permit (λ lease. (permit_bind lease child local_parent a).1) (lookup id a.permits) a
step a (calls_release id reason) =
    on_permit (λ lease. permit_release lease reason a) (lookup id a.permits) a
step a calls_close = close_admission a
step a (starts_job signal) = start_job signal a.section a.tail a
step a (guard_answers signal is_held) = to_guard signal is_held a.section a
step a (resolution_answers signal reading rejection clock) =
    to_resolution signal reading rejection clock a.section a
step a (ledger_answers signal answer) = to_ledger signal answer a.section a
step a (put_answers signal answer) = to_put signal answer a.section a

unfoldable pub steps : AdmissionAuthority → List Step → AdmissionAuthority
steps a [] = a
steps a (s ∷ ss) = steps (step a s) ss
