-- ===== src/Service/Audit.antt =====
-- service.ts, `observeAuditLifecycle`: how an audit service records the children that start and end.
-- `lineage` is what `auditLineage` finds for a child: its parent, if it has one, and its root.
pub mod Pairs
pub mod Lineage
use dsh_subagent_admission.Prelude.{
  ℕ, String, Option, none, some, Bool, true, false, List, [], ◌∷◌, is_empty, ◌||◌, if◌then◌else◌,
  Number, natural, is_safe_nonnegative, Dict, lookup, insert, erase,
}
use dsh_subagent_admission.Telemetry.{AdmissionTelemetry, record_event}
use dsh_subagent_admission.Telemetry.Values.{Value, text, not_text, AdmissionTelemetryEventInput}
use dsh_subagent_admission.Telemetry.Snapshot.{Answer, answers, throws}

pub record AuditObservation : Type 0 where
  pub child_id : String
  pub parent_id : Option String
  pub root_id : Option String

pub record AuditLineage : Type 0 where
  pub parent_id : Option String
  pub root_id : String

-- What a lifecycle event carries; a value that is no object has no texts.
pub record RawLifecycle : Type 0 where
  pub run_id : Value
  pub id : Value

pub record LifecycleIdentity : Type 0 where
  pub run_id : String
  pub child_id : String

pub record AuditState : Type 0 where
  pub active : Dict AuditObservation
  pub telemetry : AdmissionTelemetry

abbrev pub identity_of : Value → Value → Option LifecycleIdentity
identity_of (text run) (text child) =
    if is_empty run || is_empty child
    then none
    else some (record { run_id = run; child_id = child })
identity_of run child = none

-- `lifecycleIdentity`.
unfoldable pub lifecycle_identity : RawLifecycle → Option LifecycleIdentity
lifecycle_identity raw = identity_of raw.run_id raw.id

-- `safeNow`.
unfoldable pub safe_now : Answer Number → Number
safe_now throws = natural 0
safe_now (answers now) = if is_safe_nonnegative now then now else natural 0

-- A text, or `null`.
abbrev pub value_of : Option String → Value
value_of none = not_text
value_of (some s) = text s

abbrev pub audit_input :
    String
    → Number
    → Option String
    → Option String
    → Option String
    → Option String
    → AdmissionTelemetryEventInput
audit_input kind time root parent child code = record {
  kind = text kind;
  time = time;
  request_id = not_text;
  operation = not_text;
  root_id = value_of root;
  parent_session_id = value_of parent;
  child_session_id = value_of child;
  code = value_of code;
  is_duplicate = false;
}

-- A `protocol` event that has only a code.
abbrev pub protocol_input : Number → String → AdmissionTelemetryEventInput
protocol_input time code = audit_input "protocol" time none none none (some code)

abbrev pub observation_of : String → Option AuditLineage → AuditObservation
observation_of child none = record { child_id = child; parent_id = none; root_id = none }
observation_of child (some l) = record {
  child_id = child;
  parent_id = l.parent_id;
  root_id = some l.root_id;
}

abbrev pub started_input : Number → AuditObservation → AdmissionTelemetryEventInput
started_input time o = audit_input "accepted" time o.root_id o.parent_id (some o.child_id) none

abbrev pub ended_input : Number → String → Option AuditObservation → AdmissionTelemetryEventInput
ended_input time child none =
    audit_input "protocol" time none none (some child) (some "audit-unpaired-end")
ended_input time child (some o) =
    audit_input "released" time o.root_id o.parent_id (some o.child_id) none

module _ (to_iso : ℕ → String) (clock : Answer Number) where
  abbrev pub tell : AdmissionTelemetryEventInput → AdmissionTelemetry → AdmissionTelemetry
  tell input t = (record_event to_iso input t).0

  -- The listener of `subagent/start`.
  unfoldable pub on_start :
      (String → Option AuditLineage) → Option LifecycleIdentity → AuditState → AuditState
  unfolding safe_now
  on_start lineage none s = record s {
    telemetry = tell (protocol_input (safe_now clock) "audit-invalid-start") s.telemetry;
  }
  on_start lineage (some info) s =
      let o = observation_of info.child_id (lineage info.child_id) in
      record {
        active = insert info.run_id o s.active;
        telemetry = tell (started_input (safe_now clock) o) s.telemetry;
      }

  -- The listener of `subagent/end`.
  unfoldable pub on_end : Option LifecycleIdentity → AuditState → AuditState
  unfolding safe_now
  on_end none s = record s {
    telemetry = tell (protocol_input (safe_now clock) "audit-invalid-end") s.telemetry;
  }
  on_end (some info) s = record {
    active = erase info.run_id s.active;
    telemetry =
        tell (ended_input (safe_now clock) info.child_id (lookup info.run_id s.active)) s.telemetry;
  }

-- The disposer clears the map.
unfoldable pub stop_observation : AuditState → AuditState
stop_observation s = record s { active = [] }

pub data LifecycleEvent : Type 0 where
  starts ends : RawLifecycle → LifecycleEvent

module _ (to_iso : ℕ → String) (clock : Answer Number)
    (lineage : String → Option AuditLineage) where
  unfoldable pub audit_step : LifecycleEvent → AuditState → AuditState
  unfolding on_start on_end lifecycle_identity
  audit_step (starts raw) s = on_start to_iso clock lineage (lifecycle_identity raw) s
  audit_step (ends raw) s = on_end to_iso clock (lifecycle_identity raw) s

  unfoldable pub audit_steps : List LifecycleEvent → AuditState → AuditState
  unfolding audit_step
  audit_steps [] s = s
  audit_steps (e ∷ es) s = audit_steps es (audit_step e s)
