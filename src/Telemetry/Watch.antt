-- ===== src/Telemetry/Watch.antt =====
-- telemetry.ts, `watch`: an answer at once, or a wait that a change, the timeout or an abort ends.
pub mod Wakes
use dsh_subagent_admission.Prelude.{
  ℕ, String, Option, none, some, Bool, true, false, List, [], ◌∷◌, ◌++◌, ◌==◌, ◌||◌, not, nat_eq,
  leb, if◌then◌else◌, Number, natural, negative, other,
}
use dsh_subagent_admission.Telemetry.{AdmissionTelemetry, record_event}
use dsh_subagent_admission.Telemetry.Values.{AdmissionTelemetryEventInput}
use dsh_subagent_admission.Telemetry.Snapshot.{Readers, AdmissionSnapshot, snapshot}

-- A JavaScript number by its floor.
pub data Milliseconds : Type 0 where
  floors_to : ℕ → Milliseconds
  below_zero not_finite : Milliseconds

abbrev pub max_timeout : ℕ
max_timeout = 30000

-- `clampTimeout`.
unfoldable pub clamp_timeout : Milliseconds → ℕ
clamp_timeout (floors_to n) = if leb n max_timeout then n else max_timeout
clamp_timeout below_zero = 0
clamp_timeout not_finite = 0

pub record SnapshotWatchRequest : Type 0 where
  pub session_id : String
  pub epoch : Option String
  pub revision : Number
  pub timeout : Milliseconds

-- A `Set` of waiters: `has`, `add` and `delete`.
unfoldable pub has_waiter : ℕ → List ℕ → Bool
has_waiter w [] = false
has_waiter w (x ∷ xs) = nat_eq x w || has_waiter w xs

unfoldable pub add_waiter : ℕ → List ℕ → List ℕ
unfolding has_waiter
add_waiter w ws = if has_waiter w ws then ws else ws ++ w ∷ []

unfoldable pub delete_waiter : ℕ → List ℕ → List ℕ
delete_waiter w [] = []
delete_waiter w (x ∷ xs) = let rest = delete_waiter w xs in if nat_eq x w then rest else x ∷ rest

-- The promise of `changedOrTimeout`: it waits, was fulfilled, or was rejected with the abort error.
pub data Wait : Type 0 where
  waiting : ℕ → Wait
  resolved rejected : Wait

pub data WaitOutcome : Type 0 where
  change timeout abort : WaitOutcome

abbrev pub settled_wait : WaitOutcome → Wait
settled_wait change = resolved
settled_wait timeout = resolved
settled_wait abort = rejected

-- `finish_wait`, with `cleanup`.
unfoldable pub finish_wait : WaitOutcome → Wait → AdmissionTelemetry → Wait × AdmissionTelemetry
unfolding delete_waiter
finish_wait outcome (waiting w) t =
    (settled_wait outcome, record t { change_waiters = delete_waiter w t.change_waiters })
finish_wait outcome resolved t = (resolved, t)
finish_wait outcome rejected t = (rejected, t)

-- Whether the signal is aborted at the start, and after the waiter was added.
pub record Signals : Type 0 where
  pub at_start : Bool
  pub at_end : Bool

-- `changedOrTimeout`; `w` is the new waiter, which no other promise has.
unfoldable pub changed_or_timeout :
    Milliseconds → Signals → ℕ → AdmissionTelemetry → Wait × AdmissionTelemetry
unfolding clamp_timeout add_waiter finish_wait
changed_or_timeout raw signals w t =
    if signals.at_start
    then (rejected, t)
    else if nat_eq (clamp_timeout raw) 0
    then (resolved, t)
    else (let added = record t { change_waiters = add_waiter w t.change_waiters } in
        if signals.at_end then finish_wait abort (waiting w) added else (waiting w, added))

-- `request.epoch !== this.epoch`.
abbrev pub is_epoch : Option String → String → Bool
is_epoch none epoch = false
is_epoch (some e) epoch = e == epoch

-- `request.revision !== this.revisionValue`.
abbrev pub is_revision : Number → ℕ → Bool
is_revision (natural n) revision = nat_eq n revision
is_revision (negative n) revision = false
is_revision other revision = false

-- The first part of `watch`, up to the wait. A resolved wait is followed by `snapshot`.
unfoldable pub begin_watch :
    SnapshotWatchRequest → Signals → ℕ → AdmissionTelemetry → Wait × AdmissionTelemetry
unfolding changed_or_timeout
begin_watch request signals w t =
    if not (is_epoch request.epoch t.epoch) || not (is_revision request.revision t.revision)
    then (resolved, t)
    else changed_or_timeout request.timeout signals w t

-- What `watch` gives, once its wait has ended.
unfoldable pub end_watch :
    (ℕ → String)
    → Readers
    → SnapshotWatchRequest
    → Wait
    → AdmissionTelemetry
    → Option AdmissionSnapshot
end_watch to_iso readers request resolved t = some (snapshot to_iso readers request.session_id t)
end_watch to_iso readers request rejected t = none
end_watch to_iso readers request (waiting w) t = none

-- What may happen while one watch waits. Other watches have other waiters.
pub data WatchStep : Type 0 where
  records : AdmissionTelemetryEventInput → WatchStep
  other_waits other_ends : ℕ → WatchStep
  times_out aborts : WatchStep

-- `resolve()` of the waiters that `record` woke, as far as it is this watch's.
unfoldable pub wake : List ℕ → Wait → AdmissionTelemetry → Wait × AdmissionTelemetry
unfolding finish_wait has_waiter
wake woken (waiting w) t =
    if has_waiter w woken then finish_wait change (waiting w) t else (waiting w, t)
wake woken resolved t = (resolved, t)
wake woken rejected t = (rejected, t)

unfoldable pub watch_step :
    (ℕ → String) → WatchStep → Wait × AdmissionTelemetry → Wait × AdmissionTelemetry
unfolding wake
watch_step to_iso (records input) (wait, t) =
    let (t', woken) = record_event to_iso input t in wake woken wait t'
watch_step to_iso (other_waits w) (wait, t) =
    (wait, record t { change_waiters = add_waiter w t.change_waiters })
watch_step to_iso (other_ends w) (wait, t) =
    (wait, record t { change_waiters = delete_waiter w t.change_waiters })
watch_step to_iso times_out (wait, t) = finish_wait timeout wait t
watch_step to_iso aborts (wait, t) = finish_wait abort wait t

unfoldable pub watch_steps :
    (ℕ → String) → List WatchStep → Wait × AdmissionTelemetry → Wait × AdmissionTelemetry
unfolding watch_step
watch_steps to_iso [] s = s
watch_steps to_iso (step ∷ steps) s = watch_steps to_iso steps (watch_step to_iso step s)
