-- ===== src/Service/Modes.antt =====
-- service.ts, the telemetry of a service: its status when it is started and when it is being disposed,
-- the events that its start and its disposal record, and what its telemetry reads.
pub mod Enforcement
use dsh_subagent_admission.Prelude.{
  ℕ, String, Option, none, some, Bool, true, false, List, [], Number,
}
use dsh_subagent_admission.Vocabulary.{AdmissionLimits}
use dsh_subagent_admission.Telemetry.{AdmissionTelemetry, new_telemetry, record_event}
use dsh_subagent_admission.Telemetry.Values.{
  Value, text, not_text, AdmissionTelemetryEventInput, RawStatus,
}
use dsh_subagent_admission.Telemetry.Snapshot.{Answer, answers, Readers}
use dsh_subagent_admission.Service.Disposal.{ServiceResources}
use dsh_subagent_admission.Service.Start.{
  Started, strict_service, audit_service, unavailable_service,
}
use dsh_subagent_admission.Service.Audit.{AuditLineage, audit_input, safe_now}

abbrev pub status_of : String → Bool → Value → RawStatus
status_of mode is_enforced reason = record {
  mode = text mode;
  is_enforced = some is_enforced;
  reason = reason;
}

-- `observes` tells whether the audit observer could be attached.
unfoldable pub start_status : Started → Bool → RawStatus
start_status strict_service observes = status_of "strict" true not_text
start_status audit_service true = status_of "audit" false (text "audit-observation-only")
start_status audit_service false = status_of "unavailable" false (text "audit-observer-unavailable")
start_status (unavailable_service reason) observes = status_of "unavailable" false (text reason)

-- The status that `beginDrain` sets; an unavailable service has none.
unfoldable pub drain_status : Started → Bool → RawStatus
unfolding start_status
drain_status strict_service observes = status_of "draining" true (text "disposing")
drain_status audit_service observes = status_of "draining" false (text "disposing")
drain_status (unavailable_service reason) observes =
    start_status (unavailable_service reason) observes

-- An event that has a kind and a code.
abbrev pub coded_input : String → Number → Value → AdmissionTelemetryEventInput
coded_input kind time code = record (audit_input kind time none none none none) { code = code }

-- The event of a start.
unfoldable pub start_event : Started → Bool → Number → AdmissionTelemetryEventInput
unfolding start_status
start_event strict_service observes time =
    coded_input "bootstrap" time (text "strict-bootstrap-complete")
start_event audit_service observes time =
    coded_input "bootstrap" time (start_status audit_service observes).reason
start_event (unavailable_service reason) observes time = coded_input "protocol" time (text reason)

-- What the host service owns.
unfoldable pub resources_of : Started → Bool → ServiceResources
resources_of strict_service observes = record {
  has_authority = true;
  has_begin_drain = true;
  has_unregister_policy = true;
  has_stop_audit = false;
  has_close_ledger = true;
  has_release_guard = true;
}
resources_of audit_service observes = record {
  has_authority = false;
  has_begin_drain = true;
  has_unregister_policy = false;
  has_stop_audit = observes;
  has_close_ledger = false;
  has_release_guard = false;
}
resources_of (unavailable_service reason) observes = record {
  has_authority = false;
  has_begin_drain = false;
  has_unregister_policy = false;
  has_stop_audit = false;
  has_close_ledger = false;
  has_release_guard = false;
}

pub record ServiceTelemetry : Type 0 where
  pub status : RawStatus
  pub telemetry : AdmissionTelemetry

module _ (to_iso : ℕ → String) (clock : Answer Number) where
  -- `t` has the events before the start is recorded.
  unfoldable pub start_telemetry : Started → Bool → AdmissionTelemetry → ServiceTelemetry
  unfolding start_status start_event safe_now
  start_telemetry started observes t = record {
    status = start_status started observes;
    telemetry = (record_event to_iso (start_event started observes (safe_now clock)) t).0;
  }

  -- `beginDrain`.
  unfoldable pub begin_drain_telemetry : Started → Bool → ServiceTelemetry → ServiceTelemetry
  unfolding drain_status safe_now
  begin_drain_telemetry (unavailable_service reason) observes s = s
  begin_drain_telemetry strict_service observes s = record {
    status = drain_status strict_service observes;
    telemetry =
        (record_event to_iso (coded_input "protocol" (safe_now clock) (text "draining"))
          s.telemetry).0;
  }
  begin_drain_telemetry audit_service observes s = record {
    status = drain_status audit_service observes;
    telemetry =
        (record_event to_iso (coded_input "protocol" (safe_now clock) (text "draining"))
          s.telemetry).0;
  }

abbrev pub lineage_root : Option AuditLineage → Option String
lineage_root none = none
lineage_root (some l) = some l.root_id

-- The readers of a service's telemetry: `strict_readers` are those of a strict one, on its leases, its
-- ledger cache and its roots.
unfoldable pub service_readers :
    Started → RawStatus → Readers → (String → Option AuditLineage) → Readers
service_readers strict_service status strict_readers lineage = record strict_readers {
  read_status = answers status;
}
service_readers audit_service status strict_readers lineage = record {
  read_status = answers status;
  read_leases = answers [];
  read_root_ledger = λ root. answers none;
  resolve_root = λ session. answers (lineage_root (lineage session));
  clock = strict_readers.clock;
}
service_readers (unavailable_service reason) status strict_readers lineage = record {
  read_status = answers status;
  read_leases = answers [];
  read_root_ledger = λ root. answers none;
  resolve_root = λ session. answers none;
  clock = strict_readers.clock;
}
