-- ===== src/Telemetry/Snapshot.antt =====
-- telemetry.ts, `snapshot`: the state as it is shown to one session. The functions that read the
-- authority are arguments, given by what they answer.
use dsh_subagent_admission.Prelude.{
  ℕ, String, Option, none, some, Bool, true, false, List, [], ◌∷◌, ◌==◌, ◌||◌, not, nat_eq,
  is_empty, if◌then◌else◌, Number, natural, is_safe_nonnegative, lookup, length,
}
use dsh_subagent_admission.StateModel.{count_at}
use dsh_subagent_admission.Vocabulary.{AdmissionLimits, AdmissionOperation}
use dsh_subagent_admission.Telemetry.Values.{
  AdmissionMode, AdmissionLeasePhase, RawStatus, TelemetryStatus, TelemetryLeaseInput,
  SanitizedLease, RawLedger, SanitizedLedger, sanitize_status, sanitize_lease, sanitize_ledger,
  iso_time, or_second, unavailable_status,
}
use dsh_subagent_admission.Telemetry.{AdmissionTelemetry, AdmissionEvent}

-- A call that answers, or throws.
pub data Answer (A : Type 0) : Type 0 where
  answers : A → Answer A
  throws : Answer A

-- `resolve_root` answers `none` where there is no resolver.
pub record Readers : Type 0 where
  pub read_status : Answer RawStatus
  pub read_leases : Answer (List TelemetryLeaseInput)
  pub read_root_ledger : String → Answer (Option RawLedger)
  pub resolve_root : String → Answer (Option String)
  pub clock : Answer Number

pub record SnapshotInputs : Type 0 where
  pub status : TelemetryStatus
  pub leases : List SanitizedLease
  pub has_failed : Bool

pub record AdmissionLease : Type 0 where
  pub child_session_id : Option String
  pub parent_session_id : String
  pub root_id : String
  pub operation : AdmissionOperation
  pub mode : AdmissionMode
  pub admitted_at : String
  pub phase : AdmissionLeasePhase

pub record AdmissionSnapshot : Type 0 where
  pub time : String
  pub epoch : String
  pub revision : ℕ
  pub requested_session_id : String
  pub requested_root_id : Option String
  pub status : TelemetryStatus
  pub limits : AdmissionLimits
  pub global_active : ℕ
  pub root_active : ℕ
  pub root_admitted_total : ℕ
  pub parent_children : ℕ
  pub leases : List AdmissionLease
  pub history : List AdmissionEvent
  pub dropped_history : ℕ

-- `telemetryNow`.
unfoldable pub telemetry_now : Answer Number → Number
telemetry_now throws = natural 0
telemetry_now (answers now) = if is_safe_nonnegative now then now else natural 0

abbrev pub keep_clean : Option SanitizedLease → List SanitizedLease → List SanitizedLease
keep_clean none leases = leases
keep_clean (some lease) leases = lease ∷ leases

-- `map` of `sanitizeLease` and the `filter` after it.
unfoldable pub clean_leases : AdmissionMode → List TelemetryLeaseInput → List SanitizedLease
clean_leases fallback [] = []
clean_leases fallback (lease ∷ leases) =
    keep_clean (sanitize_lease lease fallback) (clean_leases fallback leases)

abbrev pub read_status_safely : Answer RawStatus → TelemetryStatus
read_status_safely throws = unavailable_status "telemetry-reader-unavailable"
read_status_safely (answers status) = sanitize_status status

abbrev pub has_thrown : {A : Type 0} → Answer A → Bool
has_thrown throws = true
has_thrown (answers a) = false

abbrev pub read_leases_safely :
    AdmissionMode → Answer (List TelemetryLeaseInput) → List SanitizedLease × Bool
read_leases_safely fallback throws = ([], true)
read_leases_safely fallback (answers raw) =
    let leases = clean_leases fallback raw in (leases, not (nat_eq (length leases) (length raw)))

-- `readSnapshotInputs`.
unfoldable pub read_snapshot_inputs : Readers → SnapshotInputs
unfolding clean_leases sanitize_status sanitize_lease
read_snapshot_inputs readers =
    let status = read_status_safely readers.read_status in
    let (leases, failed) = read_leases_safely status.mode readers.read_leases in
    record {
      status = status;
      leases = leases;
      has_failed = has_thrown readers.read_status || failed;
    }

-- `a === b` for a text that may be missing.
abbrev pub is_text : Option String → String → Bool
is_text none s = false
is_text (some t) s = t == s

-- The test in the loop of `inferRootFromLeases`.
abbrev pub names_session : String → SanitizedLease → Bool
names_session session lease =
    lease.root_session_id == session
    || lease.parent_session_id == session
    || is_text lease.child_session_id session
    || is_text lease.expected_child_session_id session

-- `inferRootFromLeases`.
unfoldable pub infer_root_from_leases : String → List SanitizedLease → Option String
infer_root_from_leases session [] = none
infer_root_from_leases session (lease ∷ leases) =
    if names_session session lease
    then some lease.root_session_id
    else infer_root_from_leases session leases

abbrev pub resolved_of : Answer (Option String) → Option String
resolved_of throws = none
resolved_of (answers root) = root

-- The root of the requested session, and whether the resolver threw.
unfoldable pub find_root :
    Readers → AdmissionTelemetry → List SanitizedLease → String → Option String × Bool
unfolding infer_root_from_leases
find_root readers t leases session = if is_empty session then (none, false) else (
  or_second (resolved_of (readers.resolve_root session))
      (or_second (lookup session t.session_roots) (infer_root_from_leases session leases)),
  has_thrown (readers.resolve_root session),
)

-- What the ledger part of `snapshot` finds.
pub record LedgerView : Type 0 where
  pub root : Option String
  pub ledger : Option SanitizedLedger
  pub has_failed : Bool

abbrev pub view_clean : String → Option SanitizedLedger → LedgerView
view_clean root none = record { root = some root; ledger = none; has_failed = true }
view_clean root (some l) =
    if l.root_session_id == root
    then record { root = some root; ledger = some l; has_failed = false }
    else record { root = some root; ledger = none; has_failed = true }

-- The ledger of a root that was found.
abbrev pub view_ledger : String → Answer (Option RawLedger) → LedgerView
view_ledger root throws = record { root = some root; ledger = none; has_failed = true }
view_ledger root (answers none) = record { root = some root; ledger = none; has_failed = false }
view_ledger root (answers (some raw)) = view_clean root (sanitize_ledger raw)

abbrev pub candidate_clean : String → Option SanitizedLedger → LedgerView
candidate_clean session none = record { root = none; ledger = none; has_failed = true }
candidate_clean session (some l) =
    if l.root_session_id == session
    then record { root = some session; ledger = some l; has_failed = false }
    else record { root = none; ledger = none; has_failed = false }

-- The session itself is tried as a root.
abbrev pub view_candidate : String → Answer (Option RawLedger) → LedgerView
view_candidate session throws = record { root = none; ledger = none; has_failed = true }
view_candidate session (answers none) = record { root = none; ledger = none; has_failed = false }
view_candidate session (answers (some raw)) = candidate_clean session (sanitize_ledger raw)

unfoldable pub find_ledger : Readers → String → Option String → LedgerView
unfolding sanitize_ledger
find_ledger readers session (some root) = view_ledger root (readers.read_root_ledger root)
find_ledger readers session none =
    if is_empty session
    then record { root = none; ledger = none; has_failed = false }
    else view_candidate session (readers.read_root_ledger session)

-- The status that is shown.
unfoldable pub shown_status : Bool → Option String → TelemetryStatus → TelemetryStatus
shown_status true reason status = unavailable_status "telemetry-reader-unavailable"
shown_status false (some reason) status = unavailable_status reason
shown_status false none status = status

-- `lease.rootSessionId === requestedRootId`.
unfoldable pub leases_of : Option String → List SanitizedLease → List SanitizedLease
leases_of root [] = []
leases_of root (lease ∷ leases) =
    let rest = leases_of root leases in
    if is_text root lease.root_session_id then lease ∷ rest else rest

unfoldable pub show_leases : (ℕ → String) → List SanitizedLease → List AdmissionLease
show_leases to_iso [] = []
show_leases to_iso (lease ∷ leases) =
    record {
      child_session_id = or_second lease.child_session_id lease.expected_child_session_id;
      parent_session_id = lease.parent_session_id;
      root_id = lease.root_session_id;
      operation = lease.operation;
      mode = lease.mode;
      admitted_at = iso_time to_iso lease.admitted_at;
      phase = lease.phase;
    }
    ∷ show_leases to_iso leases

abbrev pub shows_event : Option String → Option String → Bool
shows_event root none = true
shows_event root (some own) = is_text root own

unfoldable pub events_of : Option String → List AdmissionEvent → List AdmissionEvent
events_of root [] = []
events_of root (event ∷ events) =
    let rest = events_of root events in
    if shows_event root event.root_id then event ∷ rest else rest

abbrev pub admitted_of : Option SanitizedLedger → ℕ
admitted_of none = 0
admitted_of (some l) = l.admitted_total

abbrev pub children_at : String → Option SanitizedLedger → ℕ
children_at session none = 0
children_at session (some l) = count_at session l.admitted_children_by_parent

-- The end of `snapshot`, once the root and its ledger are known.
unfoldable pub show :
    (ℕ → String)
    → Readers
    → AdmissionTelemetry
    → String
    → SnapshotInputs
    → LedgerView
    → Bool
    → AdmissionSnapshot
unfolding shown_status leases_of show_leases events_of telemetry_now
show to_iso readers t session inputs view failed = record {
  time = iso_time to_iso (telemetry_now readers.clock);
  epoch = t.epoch;
  revision = t.revision;
  requested_session_id = session;
  requested_root_id = view.root;
  status =
      shown_status (inputs.has_failed || failed || view.has_failed) t.projection_reason
        inputs.status;
  limits = t.limits;
  global_active = length inputs.leases;
  root_active = length (leases_of view.root inputs.leases);
  root_admitted_total = admitted_of view.ledger;
  parent_children = children_at session view.ledger;
  leases = show_leases to_iso (leases_of view.root inputs.leases);
  history = events_of view.root t.history;
  dropped_history = t.dropped_history;
}

-- `snapshot`.
unfoldable pub snapshot : (ℕ → String) → Readers → String → AdmissionTelemetry → AdmissionSnapshot
unfolding read_snapshot_inputs find_root find_ledger show
snapshot to_iso readers session t =
    let inputs = read_snapshot_inputs readers in
    let (root, failed) = find_root readers t inputs.leases session in
    show to_iso readers t session inputs (find_ledger readers session root) failed
