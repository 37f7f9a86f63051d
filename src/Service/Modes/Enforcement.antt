-- ===== src/Service/Modes/Enforcement.antt =====
-- service.ts, which services can claim that admission is enforced.
use dsh_subagent_admission.Prelude.{
  ◌≡◌, refl, subst, ℕ, String, Option, some, Bool, true, false, List, [], ◌∷◌, Number,
}
use dsh_subagent_admission.Config.{ConfiguredMode}
use dsh_subagent_admission.Compatibility.{CompatibilityBaseline, CompatibilityRuntime}
use dsh_subagent_admission.Telemetry.{AdmissionTelemetry, record_event}
use dsh_subagent_admission.Telemetry.Values.{AdmissionTelemetryEventInput, RawStatus}
use dsh_subagent_admission.Telemetry.Snapshot.{Answer, answers, Readers, snapshot}
use dsh_subagent_admission.Telemetry.Enforcement.{ReportsEnforced, snapshot_enforcement_decides}
use dsh_subagent_admission.Service.Start.{
  HostDependencies, StartAnswers, Started, strict_service, audit_service, unavailable_service,
  create_service,
}
use dsh_subagent_admission.Service.Start.Conditions.{StrictConditions, start_strict_decides}
use dsh_subagent_admission.Service.Audit.{AuditLineage}
use dsh_subagent_admission.Service.Modes.{
  start_status, drain_status, start_telemetry, begin_drain_telemetry, ServiceTelemetry,
  service_readers,
}

-- What happens to a service's telemetry after its start: events are recorded, and the disposal begins.
pub data ModeStep : Type 0 where
  tells : AdmissionTelemetryEventInput → ModeStep
  begins_drain : ModeStep

module _ (to_iso : ℕ → String) (clock : Answer Number) (started : Started) (observes : Bool) where
  unfoldable pub mode_step : ModeStep → ServiceTelemetry → ServiceTelemetry
  unfolding begin_drain_telemetry
  mode_step (tells input) s = record s { telemetry = (record_event to_iso input s.telemetry).0 }
  mode_step begins_drain s = begin_drain_telemetry to_iso clock started observes s

  unfoldable pub mode_steps : List ModeStep → ServiceTelemetry → ServiceTelemetry
  unfolding mode_step
  mode_steps [] s = s
  mode_steps (step ∷ steps) s = mode_steps steps (mode_step step s)

-- Only a strict service has a status that enforces.
abbrev ClaimsAs : Started → Option Bool → Type 0
ClaimsAs strict_service claims = Unit
ClaimsAs audit_service claims = claims ≡ some false
ClaimsAs (unavailable_service reason) claims = claims ≡ some false

start_status-ClaimsAs :
    (started : Started) (observes : Bool)
    → ClaimsAs started (start_status started observes).is_enforced
unfolding start_status
start_status-ClaimsAs strict_service observes = tt
start_status-ClaimsAs audit_service true = refl
start_status-ClaimsAs audit_service false = refl
start_status-ClaimsAs (unavailable_service reason) observes = refl

module _ (to_iso : ℕ → String) (clock : Answer Number) where
  mode_step-ClaimsAs :
      (started : Started) (observes : Bool) (step : ModeStep) (s : ServiceTelemetry)
      → ClaimsAs started s.status.is_enforced
      → ClaimsAs started (mode_step to_iso clock started observes step s).status.is_enforced
  unfolding mode_step begin_drain_telemetry drain_status
  mode_step-ClaimsAs started observes (tells input) s h = h
  mode_step-ClaimsAs strict_service observes begins_drain s h = tt
  mode_step-ClaimsAs audit_service observes begins_drain s h = refl
  mode_step-ClaimsAs (unavailable_service reason) observes begins_drain s h = h

  mode_steps-ClaimsAs :
      (started : Started) (observes : Bool) (steps : List ModeStep) (s : ServiceTelemetry)
      → ClaimsAs started s.status.is_enforced
      → ClaimsAs started (mode_steps to_iso clock started observes steps s).status.is_enforced
  unfolding mode_steps
  mode_steps-ClaimsAs started observes [] s h = h
  mode_steps-ClaimsAs started observes (step ∷ steps) s h =
      mode_steps-ClaimsAs started observes steps (mode_step to_iso clock started observes step s)
        (mode_step-ClaimsAs started observes step s h)

service_readers-status :
    (started : Started) (status : RawStatus) (readers : Readers)
    (lineage : String → Option AuditLineage)
    → (service_readers started status readers lineage).read_status ≡ answers status
unfolding service_readers
service_readers-status strict_service status readers lineage = refl
service_readers-status audit_service status readers lineage = refl
service_readers-status (unavailable_service reason) status readers lineage = refl

claims-strict :
    (started : Started) (claims : Option Bool)
    → ClaimsAs started claims
    → claims ≡ some true
    → started ≡ strict_service
claims-strict strict_service claims h e = refl
claims-strict audit_service claims h e = cc
claims-strict (unavailable_service reason) claims h e = cc

-- Whatever is configured and mounted and whatever the parts answer: if a snapshot of the service that
-- was started claims that admission is enforced, then all that a strict service needs did hold at the
-- start. This stays so after any events and after the disposal has begun.
pub only_strict_services_enforce :
    (to_iso : ℕ → String) (clock : Answer Number) (mode : ConfiguredMode) (host : HostDependencies)
    (runtime : CompatibilityRuntime) (baseline : CompatibilityBaseline) (parts : StartAnswers)
    (observes : Bool) (t : AdmissionTelemetry) (steps : List ModeStep) (readers : Readers)
    (lineage : String → Option AuditLineage) (session : String)
    → let started = (create_service mode host runtime baseline parts).0 in
      let s =
        mode_steps to_iso clock started observes steps
          (start_telemetry to_iso clock started observes t) in
      (snapshot to_iso
          (service_readers started s.status readers lineage)
          session
          s.telemetry).status.is_enforced
        ≡ true
      → StrictConditions mode host runtime baseline parts
unfolding start_telemetry
only_strict_services_enforce to_iso clock mode host runtime baseline parts observes t steps readers
      lineage session h =
    let started = (create_service mode host runtime baseline parts).0 in
    let s =
      mode_steps to_iso clock started observes steps
        (start_telemetry to_iso clock started observes t) in
    let own = service_readers started s.status readers lineage in
    let reported : ReportsEnforced (answers s.status) =
      subst ReportsEnforced (service_readers-status started s.status readers lineage)
        (((snapshot_enforcement_decides to_iso own session s.telemetry).0 h).status) in
    let claims =
      mode_steps-ClaimsAs to_iso clock started observes steps
        (start_telemetry to_iso clock started observes t)
        (start_status-ClaimsAs started observes) in
    (start_strict_decides mode host runtime baseline parts).0
      (claims-strict started s.status.is_enforced claims reported.0)
