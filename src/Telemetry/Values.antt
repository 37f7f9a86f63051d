-- ===== src/Telemetry/Values.antt =====
-- packages/dsh-subagent-admission/src/host/telemetry.ts, what it takes from other parts and how it
-- cleans each value before it shows one.
use Prim.Native.String.{count}
use dsh_subagent_admission.Prelude.{
  all_characters, ℕ, String, Option, none, some, Bool, true, false, [], ◌∷◌, not, ◌&&◌, ◌==◌, leb,
  is_empty, if◌then◌else◌, Number, natural, negative, other, is_safe_nonnegative, Dict, insert,
}
use dsh_subagent_admission.Vocabulary.{
  AdmissionOperation, new_one_shot, new_continuable, cold_resume,
}
use dsh_subagent_admission.StateModel.{or_else}
use dsh_subagent_admission.Compatibility.{is_reason_character, between}

-- A value whose type the code looks up: a text, or one that is not.
pub data Value : Type 0 where
  text : String → Value
  not_text : Value

pub data AdmissionMode : Type 0 where
  strict audit unavailable draining : AdmissionMode

pub data AdmissionEventKind : Type 0 where
  accepted bound_child denied released failed_start protocol bootstrap : AdmissionEventKind

pub data AdmissionLeasePhase : Type 0 where
  active_lease draining_lease : AdmissionLeasePhase

-- `is_enforced` is `none` for a value that is not a boolean.
pub record RawStatus : Type 0 where
  pub mode : Value
  pub is_enforced : Option Bool
  pub reason : Value

pub record TelemetryStatus : Type 0 where
  pub mode : AdmissionMode
  pub is_enforced : Bool
  pub reason : Option String

pub record TelemetryLeaseInput : Type 0 where
  pub permit_id : String
  pub request_id : String
  pub operation : Value
  pub root_session_id : String
  pub parent_session_id : String
  pub expected_child_session_id : Value
  pub child_session_id : Value
  pub admitted_at : Number
  pub phase : Value
  pub mode : Value

pub record SanitizedLease : Type 0 where
  pub permit_id : String
  pub request_id : String
  pub operation : AdmissionOperation
  pub root_session_id : String
  pub parent_session_id : String
  pub expected_child_session_id : Option String
  pub child_session_id : Option String
  pub admitted_at : Number
  pub phase : AdmissionLeasePhase
  pub mode : AdmissionMode

pub record RawLedger : Type 0 where
  pub root_session_id : String
  pub admitted_total : Number
  pub admitted_children_by_parent : Dict Number

pub record SanitizedLedger : Type 0 where
  pub root_session_id : String
  pub admitted_total : ℕ
  pub admitted_children_by_parent : Dict ℕ

pub record AdmissionTelemetryEventInput : Type 0 where
  pub kind : Value
  pub time : Number
  pub request_id : Value
  pub operation : Value
  pub root_id : Value
  pub parent_session_id : Value
  pub child_session_id : Value
  pub code : Value
  pub is_duplicate : Bool

pub record SanitizedEvent : Type 0 where
  pub kind : AdmissionEventKind
  pub time : String
  pub request_id : Option String
  pub operation : Option AdmissionOperation
  pub root_id : Option String
  pub parent_session_id : Option String
  pub child_session_id : Option String
  pub code : Option String
  pub is_duplicate : Bool

-- `nullableId`.
unfoldable pub nullable_id : Value → Option String
nullable_id (text s) = if is_empty s then none else some s
nullable_id not_text = none

-- `safeCode`: `[A-Za-z0-9_.:-]{1,128}`.
unfoldable pub safe_code : Value → Option String
safe_code (text s) =
    if all_characters is_reason_character s && between 1 128 (count s) then some s else none
safe_code not_text = none

-- `isAdmissionOperation`, with the operation that a text names.
unfoldable pub operation_named : Value → Option AdmissionOperation
operation_named (text s) =
    if s == "new-one-shot"
    then some new_one_shot
    else if s == "new-continuable"
    then some new_continuable
    else if s == "cold-resume"
    then some cold_resume
    else none
operation_named not_text = none

-- `isAdmissionMode`.
unfoldable pub mode_named : Value → Option AdmissionMode
mode_named (text s) =
    if s == "strict"
    then some strict
    else if s == "audit"
    then some audit
    else if s == "unavailable"
    then some unavailable
    else if s == "draining"
    then some draining
    else none
mode_named not_text = none

-- `isTelemetryEventKind`.
unfoldable pub event_kind_named : Value → Option AdmissionEventKind
event_kind_named (text s) =
    if s == "accepted"
    then some accepted
    else if s == "bound"
    then some bound_child
    else if s == "denied"
    then some denied
    else if s == "released"
    then some released
    else if s == "failed-start"
    then some failed_start
    else if s == "protocol"
    then some protocol
    else if s == "bootstrap"
    then some bootstrap
    else none
event_kind_named not_text = none

-- The test of a lease's phase.
unfoldable pub phase_named : Value → Option AdmissionLeasePhase
phase_named (text s) =
    if s == "active"
    then some active_lease
    else if s == "draining"
    then some draining_lease
    else none
phase_named not_text = none

-- `a ?? b`, where `b` may be missing too.
abbrev pub or_second {ℓ} : {A : Type ℓ} → Option A → Option A → Option A
or_second none o = o
or_second (some a) o = some a

-- The greatest time of a JavaScript `Date`.
abbrev pub max_date : ℕ
max_date = 8640000000000000

abbrev pub date_value : Number → ℕ
date_value (natural n) = if leb n max_date then n else 0
date_value (negative n) = 0
date_value other = 0

-- `isoTime`; `to_iso` is `new Date(n).toISOString()`.
unfoldable pub iso_time : (ℕ → String) → Number → String
iso_time to_iso value = to_iso (date_value value)

-- `sanitizeEvent`.
unfoldable pub sanitize_event : (ℕ → String) → AdmissionTelemetryEventInput → SanitizedEvent
unfolding iso_time nullable_id safe_code operation_named event_kind_named
sanitize_event to_iso input = record {
  kind = or_else (event_kind_named input.kind) protocol;
  time = iso_time to_iso input.time;
  request_id = nullable_id input.request_id;
  operation = operation_named input.operation;
  root_id = nullable_id input.root_id;
  parent_session_id = nullable_id input.parent_session_id;
  child_session_id = nullable_id input.child_session_id;
  code = safe_code input.code;
  is_duplicate = input.is_duplicate;
}

abbrev pub unavailable_status : String → TelemetryStatus
unavailable_status reason = record { mode = unavailable; is_enforced = false; reason = some reason }

-- The conditions on `status.enforced`, for a known mode.
abbrev pub is_coherent : AdmissionMode → Option Bool → Bool
is_coherent mode none = false
is_coherent strict (some e) = e
is_coherent audit (some e) = not e
is_coherent unavailable (some e) = not e
is_coherent draining (some e) = true

abbrev pub clean_status : Option AdmissionMode → Option Bool → Value → TelemetryStatus
clean_status none is_enforced reason = unavailable_status "telemetry-reader-unavailable"
clean_status (some mode) is_enforced reason =
    if is_coherent mode is_enforced
    then record { mode = mode; is_enforced = or_else is_enforced false; reason = safe_code reason }
    else unavailable_status "telemetry-reader-unavailable"

-- `sanitizeStatus`.
unfoldable pub sanitize_status : RawStatus → TelemetryStatus
unfolding mode_named safe_code
sanitize_status status = clean_status (mode_named status.mode) status.is_enforced status.reason

-- The checks of `sanitizeLease` on the fields that keep their form.
unfoldable pub has_lease_ids : TelemetryLeaseInput → Bool
has_lease_ids lease =
    not (is_empty lease.permit_id)
    && not (is_empty lease.request_id)
    && not (is_empty lease.root_session_id)
    && not (is_empty lease.parent_session_id)
    && is_safe_nonnegative lease.admitted_at

abbrev pub clean_lease :
    TelemetryLeaseInput
    → AdmissionMode
    → Option AdmissionOperation
    → Option AdmissionLeasePhase
    → Option SanitizedLease
clean_lease lease fallback none phase = none
clean_lease lease fallback (some operation) none = none
clean_lease lease fallback (some operation) (some phase) = some (record {
  permit_id = lease.permit_id;
  request_id = lease.request_id;
  operation = operation;
  root_session_id = lease.root_session_id;
  parent_session_id = lease.parent_session_id;
  expected_child_session_id = nullable_id lease.expected_child_session_id;
  child_session_id = nullable_id lease.child_session_id;
  admitted_at = lease.admitted_at;
  phase = phase;
  mode = or_else (mode_named lease.mode) fallback;
})

-- `sanitizeLease`.
unfoldable pub sanitize_lease : TelemetryLeaseInput → AdmissionMode → Option SanitizedLease
unfolding has_lease_ids
sanitize_lease lease fallback =
    if has_lease_ids lease
    then clean_lease lease fallback (operation_named lease.operation) (phase_named lease.phase)
    else none

-- The loop of `sanitizeLedger`.
unfoldable pub sanitize_counts : Dict Number → Dict ℕ → Dict ℕ
sanitize_counts [] counts = counts
sanitize_counts ((parent, natural n) ∷ rest) counts = sanitize_counts rest (
    if not (is_empty parent) && is_safe_nonnegative (natural n)
    then insert parent n counts
    else counts)
sanitize_counts ((parent, negative n) ∷ rest) counts = sanitize_counts rest counts
sanitize_counts ((parent, other) ∷ rest) counts = sanitize_counts rest counts

abbrev pub clean_ledger : RawLedger → Number → Option SanitizedLedger
clean_ledger ledger (natural total) =
    if is_safe_nonnegative (natural total)
    then some (record {
      root_session_id = ledger.root_session_id;
      admitted_total = total;
      admitted_children_by_parent = sanitize_counts ledger.admitted_children_by_parent [];
    })
    else none
clean_ledger ledger (negative n) = none
clean_ledger ledger other = none

-- `sanitizeLedger` of a ledger that is there.
unfoldable pub sanitize_ledger : RawLedger → Option SanitizedLedger
unfolding sanitize_counts
sanitize_ledger ledger =
    if is_empty ledger.root_session_id then none else clean_ledger ledger ledger.admitted_total
