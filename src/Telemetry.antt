-- ===== src/Telemetry.antt =====
-- packages/dsh-subagent-admission/src/host/telemetry.ts: the record of what happened, for those who
-- watch. `Values` cleans what it is given, `Snapshot` shows a state to one session, and `Watch` waits
-- for a change; the other modules prove properties of them.
pub mod Values
pub mod Snapshot
pub mod Watch
pub mod History
pub mod Roots
pub mod Conflicts
pub mod Isolation
pub mod Answers
pub mod Enforcement
use dsh_subagent_admission.Prelude.{
  ℕ, ◌+◌, String, Option, none, some, Bool, true, false, List, [], ◌∷◌, ◌++◌, ◌==◌, not, ltb,
  if◌then◌else◌, Dict, lookup, insert, length, shift,
}
use dsh_subagent_admission.StateModel.{or_else}
use dsh_subagent_admission.Vocabulary.{AdmissionLimits, AdmissionOperation}
use dsh_subagent_admission.Telemetry.Values.{
  AdmissionEventKind, accepted, bound_child, denied, released, failed_start, protocol, bootstrap,
  AdmissionTelemetryEventInput, SanitizedEvent, sanitize_event, or_second,
}

-- `MAX_HISTORY_EVENTS`.
abbrev pub max_history_events : ℕ
max_history_events = 200

pub record AdmissionEvent : Type 0 where
  pub kind : AdmissionEventKind
  pub time : String
  pub request_id : Option String
  pub operation : Option AdmissionOperation
  pub root_id : Option String
  pub parent_session_id : Option String
  pub code : Option String

-- A waiter is known by a number. The revision is not bounded here.
pub record AdmissionTelemetry : Type 0 where
  pub epoch : String
  pub limits : AdmissionLimits
  pub history : List AdmissionEvent
  pub session_roots : Dict String
  pub change_waiters : List ℕ
  pub revision : ℕ
  pub dropped_history : ℕ
  pub projection_reason : Option String

-- The constructor's state, for an epoch that is not empty.
unfoldable pub new_telemetry : String → AdmissionLimits → AdmissionTelemetry
new_telemetry epoch limits = record {
  epoch = epoch;
  limits = limits;
  history = [];
  session_roots = [];
  change_waiters = [];
  revision = 0;
  dropped_history = 0;
  projection_reason = none;
}

abbrev pub remember_at : Option String → String → String → AdmissionTelemetry → AdmissionTelemetry
remember_at none session root t = record t { session_roots = insert session root t.session_roots }
remember_at (some existing) session root t =
    if existing == root
    then record t { session_roots = insert session root t.session_roots }
    else record t { projection_reason = some "telemetry-binding-conflict" }

-- `rememberSessionRoot`.
unfoldable pub remember_session_root : String → String → AdmissionTelemetry → AdmissionTelemetry
remember_session_root session root t = remember_at (lookup session t.session_roots) session root t

abbrev pub remember_maybe : Option String → String → AdmissionTelemetry → AdmissionTelemetry
remember_maybe none root t = t
remember_maybe (some session) root t = remember_session_root session root t

-- `event.kind !== 'denied'`.
abbrev pub keeps_child : AdmissionEventKind → Option String → Option String
keeps_child denied child = none
keeps_child accepted child = child
keeps_child bound_child child = child
keeps_child released child = child
keeps_child failed_start child = child
keeps_child protocol child = child
keeps_child bootstrap child = child

abbrev pub remember_under : Option String → SanitizedEvent → AdmissionTelemetry → AdmissionTelemetry
remember_under none event t = t
remember_under (some root) event t =
    remember_maybe (keeps_child event.kind event.child_session_id) root
      (remember_maybe event.parent_session_id root (remember_session_root root root t))

-- `rememberBindings`.
unfoldable pub remember_bindings : SanitizedEvent → AdmissionTelemetry → AdmissionTelemetry
unfolding remember_session_root
remember_bindings event t = remember_under event.root_id event t

abbrev pub root_of : Dict String → Option String → Option String
root_of roots none = none
root_of roots (some session) = lookup session roots

-- `inferredRootId` of `scopeEvent`.
abbrev pub inferred_root : Dict String → SanitizedEvent → Option String
inferred_root roots event =
    or_second (root_of roots event.parent_session_id) (root_of roots event.child_session_id)

abbrev pub scope_by : Option String → SanitizedEvent → SanitizedEvent
scope_by (some root) event = record event { root_id = some root }
scope_by none event = record event {
  request_id = none;
  parent_session_id = none;
  child_session_id = none;
}

abbrev pub scope_under : Option String → Option String → SanitizedEvent → SanitizedEvent
scope_under (some root) inferred event = event
scope_under none inferred event = scope_by inferred event

-- `scopeEvent`.
unfoldable pub scope_event : Dict String → SanitizedEvent → SanitizedEvent
scope_event roots event = scope_under event.root_id (inferred_root roots event) event

-- The event that `record` shows, under its own kind and code or as a duplicate release.
unfoldable pub projected : SanitizedEvent → AdmissionEvent
projected event = record {
  kind = if event.is_duplicate then protocol else event.kind;
  time = event.time;
  request_id = event.request_id;
  operation = event.operation;
  root_id = event.root_id;
  parent_session_id = event.parent_session_id;
  code = if event.is_duplicate then some "DUPLICATE_RELEASE" else event.code;
}

-- `event.kind === 'bound'`.
abbrev pub is_bound : AdmissionEventKind → Bool
is_bound bound_child = true
is_bound accepted = false
is_bound denied = false
is_bound released = false
is_bound failed_start = false
is_bound protocol = false
is_bound bootstrap = false

-- `push`, and `shift` above the maximum.
unfoldable pub push_history : AdmissionEvent → AdmissionTelemetry → AdmissionTelemetry
push_history event t =
    let grown = t.history ++ event ∷ [] in
    if ltb max_history_events (length grown)
    then record t { history = shift grown; dropped_history = t.dropped_history + 1 }
    else record t { history = grown }

-- The bindings, and the new revision.
unfoldable pub advance : SanitizedEvent → AdmissionTelemetry → AdmissionTelemetry
unfolding remember_bindings
advance event t =
    let remembered = remember_bindings event t in
    record remembered { revision = remembered.revision + 1 }

-- `if (event.kind !== 'bound')`.
unfoldable pub keep_event : SanitizedEvent → AdmissionTelemetry → AdmissionTelemetry
unfolding projected push_history
keep_event event t = if is_bound event.kind then t else push_history (projected event) t

-- `record` of a clean and scoped event, with the waiters that it wakes.
unfoldable pub record_scoped : SanitizedEvent → AdmissionTelemetry → AdmissionTelemetry × List ℕ
unfolding advance keep_event
record_scoped event t =
    let kept = keep_event event (advance event t) in
    (record kept { change_waiters = [] }, kept.change_waiters)

module _ (to_iso : ℕ → String) where
  -- `scopeEvent(sanitizeEvent(input))`.
  unfoldable pub scoped : AdmissionTelemetryEventInput → AdmissionTelemetry → SanitizedEvent
  unfolding scope_event sanitize_event
  scoped input t = scope_event t.session_roots (sanitize_event to_iso input)

  -- `record`.
  unfoldable pub record_event :
      AdmissionTelemetryEventInput → AdmissionTelemetry → AdmissionTelemetry × List ℕ
  unfolding scoped record_scoped
  record_event input t = record_scoped (scoped input t) t

  -- A history of calls of `record`.
  unfoldable pub record_all :
      List AdmissionTelemetryEventInput → AdmissionTelemetry → AdmissionTelemetry
  unfolding record_event
  record_all [] t = t
  record_all (input ∷ inputs) t = record_all inputs (record_event input t).0
