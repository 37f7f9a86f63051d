-- ===== src/Service/Audit/Pairs.antt =====
-- service.ts, the end of a run that was seen to start.
use dsh_subagent_admission.Prelude.{
  ◌≡◌, false, ◌≢◌, refl, ◌∙◌, ap, ℕ, String, Option, none, some, List, [], ◌∷◌, All, Number, Dict,
  lookup, erase, lookup-insert, lookup-erase, eq_iff, arith,
}
use dsh_subagent_admission.Telemetry.{record_event}
use dsh_subagent_admission.Telemetry.Values.{Value, text, not_text, AdmissionTelemetryEventInput}
use dsh_subagent_admission.Telemetry.Snapshot.{Answer}
use dsh_subagent_admission.Service.Audit.{
  AuditObservation, AuditLineage, LifecycleIdentity, AuditState, lifecycle_identity, safe_now,
  observation_of, ended_input, on_start, on_end, LifecycleEvent, starts, ends, audit_step,
  audit_steps,
}

-- The event is not one of this run.
abbrev pub IsOfOther : String → Option LifecycleIdentity → Type 0
IsOfOther run none = Unit
IsOfOther run (some info) = info.run_id ≢ run

abbrev pub IsOtherEvent : String → LifecycleEvent → Type 0
IsOtherEvent run (starts raw) = IsOfOther run (lifecycle_identity raw)
IsOtherEvent run (ends raw) = IsOfOther run (lifecycle_identity raw)

module _ (to_iso : ℕ → String) (clock : Answer Number) (lineage : String → Option AuditLineage)
    (run : String) where
  on_start-keeps :
      (o : Option LifecycleIdentity) (s : AuditState)
      → IsOfOther run o
      → lookup run (on_start to_iso clock lineage o s).active ≡ lookup run s.active
  unfolding on_start
  on_start-keeps none s h = refl
  on_start-keeps (some info) s h =
      let new = observation_of info.child_id (lineage info.child_id) in
      ground (arith, lookup-insert info.run_id run new s.active, eq_iff info.run_id run)

  on_end-keeps :
      (o : Option LifecycleIdentity) (s : AuditState)
      → IsOfOther run o
      → lookup run (on_end to_iso clock o s).active ≡ lookup run s.active
  unfolding on_end
  on_end-keeps none s h = refl
  on_end-keeps (some info) s h =
      ground (arith, lookup-erase info.run_id run s.active, eq_iff info.run_id run)

  audit_steps-keeps :
      (es : List LifecycleEvent) (s : AuditState)
      → All (IsOtherEvent run) es
      → lookup run (audit_steps to_iso clock lineage es s).active ≡ lookup run s.active
  unfolding audit_steps audit_step
  audit_steps-keeps [] s h = refl
  audit_steps-keeps (starts raw ∷ es) s h =
      audit_steps-keeps es _ h.1 ∙ on_start-keeps (lifecycle_identity raw) s h.0
  audit_steps-keeps (ends raw ∷ es) s h =
      audit_steps-keeps es _ h.1 ∙ on_end-keeps (lifecycle_identity raw) s h.0

  on_start-own :
      (info : LifecycleIdentity) (s : AuditState)
      → info.run_id ≡ run
      → lookup run (on_start to_iso clock lineage (some info) s).active
        ≡ some (observation_of info.child_id (lineage info.child_id))
  unfolding on_start
  on_start-own info s e =
      let new = observation_of info.child_id (lineage info.child_id) in
      ground (arith, lookup-insert info.run_id run new s.active, eq_iff info.run_id run)

erased_run :
    (run other : String) (active : Dict AuditObservation)
    → other ≡ run
    → lookup other (erase run active) ≡ none
erased_run run other active e = ground (arith, lookup-erase run other active, eq_iff run other)

abbrev pub root_text : Option AuditLineage → Value
root_text none = not_text
root_text (some l) = text l.root_id

abbrev pub parent_text : Option AuditLineage → Value
parent_text none = not_text
parent_text (some l) = elim l.parent_id [ none ↦ not_text | some p ↦ text p ]

-- The event of a run that ends as it was seen to start.
abbrev pub release_of_run : Number → String → Option AuditLineage → AdmissionTelemetryEventInput
release_of_run time child l = record {
  kind = text "released";
  time = time;
  request_id = not_text;
  operation = not_text;
  root_id = root_text l;
  parent_session_id = parent_text l;
  child_session_id = text child;
  code = not_text;
  is_duplicate = false;
}

-- The event of an end without a start.
abbrev pub unpaired_end : Number → String → AdmissionTelemetryEventInput
unpaired_end time child = record {
  kind = text "protocol";
  time = time;
  request_id = not_text;
  operation = not_text;
  root_id = not_text;
  parent_session_id = not_text;
  child_session_id = text child;
  code = text "audit-unpaired-end";
  is_duplicate = false;
}

ended_input-lineage :
    (time : Number) (child : String) (l : Option AuditLineage)
    → ended_input time child (some (observation_of child l)) ≡ release_of_run time child l
ended_input-lineage time child none = refl
ended_input-lineage time child (some l) = parent-lineage time child l.root_id l.parent_id
  where
    parent-lineage :
        (time : Number) (child root : String) (parent : Option String)
        → ended_input time child
            (some (observation_of child (some (record { parent_id = parent; root_id = root }))))
          ≡ release_of_run time child (some (record { parent_id = parent; root_id = root }))
    parent-lineage time child root none = refl
    parent-lineage time child root (some p) = refl

-- After a run was seen to start, and then any events of other runs, its end is recorded once: as a
-- `released` event with the child, and the parent and the root that the lineage gave at the start; a
-- second end of the same run is recorded as a `protocol` event `audit-unpaired-end`, without either.
pub audit_end_pairs :
    (to_iso : ℕ → String) (clock : Answer Number) (lineage : String → Option AuditLineage)
    (info again : LifecycleIdentity) (es : List LifecycleEvent) (s : AuditState)
    → All (IsOtherEvent info.run_id) es
    → again.run_id ≡ info.run_id
    → let before =
        audit_steps to_iso clock lineage es (on_start to_iso clock lineage (some info) s) in
      let first = on_end to_iso clock (some info) before in
      let second = on_end to_iso clock (some again) first in
      (first.telemetry
        ≡ (record_event to_iso
            (release_of_run (safe_now clock) info.child_id (lineage info.child_id))
            before.telemetry).0)
      × (second.telemetry
          ≡ (record_event to_iso (unpaired_end (safe_now clock) again.child_id) first.telemetry).0)
unfolding on_end
audit_end_pairs to_iso clock lineage info again es s h e =
    let run = info.run_id in
    let now = safe_now clock in
    let begun = on_start to_iso clock lineage (some info) s in
    let before = audit_steps to_iso clock lineage es begun in
    let found : lookup run before.active
        ≡ some (observation_of info.child_id (lineage info.child_id)) =
      audit_steps-keeps to_iso clock lineage run es begun h
      ∙ on_start-own to_iso clock lineage run info s refl in
    (
      ap (λ (i : AdmissionTelemetryEventInput). (record_event to_iso i before.telemetry).0)
          (ap (ended_input now info.child_id) found
            ∙ ended_input-lineage now info.child_id (lineage info.child_id)),
      ap
          (λ (o : Option AuditObservation).
            (record_event to_iso (ended_input now again.child_id o)
              (on_end to_iso clock (some info) before).telemetry).0)
          (erased_run run again.run_id before.active e),
    )
