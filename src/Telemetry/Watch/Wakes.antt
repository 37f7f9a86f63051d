-- ===== src/Telemetry/Watch/Wakes.antt =====
-- telemetry.ts, when a watch ends its wait.
use dsh_subagent_admission.Prelude.{
  ℕ, ◌+◌, ◌↔◌, eq_iff, ◌<◌, ◌≡◌, ◌≢◌, ◌⊎◌, inl, inr, refl, ◌∙◌, ap, String, Option, none, some,
  true, false, List, [], ◌∷◌, ◌++◌, ◌||◌, nat_eq, if◌then◌else◌, All, Bool-cases, Number, natural,
  negative, other, arith,
}
use dsh_subagent_admission.Telemetry.{
  AdmissionTelemetry, advance, keep_event, push_history, record_scoped, scoped, record_event,
}
use dsh_subagent_admission.Telemetry.Values.{AdmissionTelemetryEventInput, SanitizedEvent}
use dsh_subagent_admission.Telemetry.History.{remember_bindings-Keeps}
use dsh_subagent_admission.Telemetry.Watch.{
  Milliseconds, floors_to, below_zero, not_finite, is_epoch, is_revision, clamp_timeout,
  SnapshotWatchRequest, has_waiter, add_waiter, delete_waiter, Wait, waiting, resolved, rejected,
  WaitOutcome, change, timeout, abort, finish_wait, Signals, changed_or_timeout, begin_watch,
  WatchStep, records, other_waits, other_ends, times_out, aborts, wake, watch_step, watch_steps,
}

has_waiter-append :
    (v w : ℕ) (ws : List ℕ) → has_waiter v (ws ++ w ∷ []) ≡ (has_waiter v ws || nat_eq w v)
unfolding has_waiter
has_waiter-append v w [] = ground arith
has_waiter-append v w (x ∷ ws) = ground (arith, has_waiter-append v w ws)

has_waiter-add :
    (v w : ℕ) (ws : List ℕ) → has_waiter v (add_waiter w ws) ≡ (has_waiter v ws || nat_eq w v)
unfolding add_waiter
has_waiter-add v w ws = elim (Bool-cases (has_waiter w ws)) [
  | inl e ↦ rw e (ground arith)
  | inr e ↦ rw e (has_waiter-append v w ws)
]

has_waiter-delete :
    (v w : ℕ) (ws : List ℕ)
    → has_waiter v (delete_waiter w ws) ≡ (if nat_eq w v then false else has_waiter v ws)
unfolding has_waiter delete_waiter
has_waiter-delete v w [] = ground arith
has_waiter-delete v w (x ∷ ws) = ground (arith, has_waiter-delete v w ws)

-- The step is not one of another watch with the waiter `w`.
abbrev pub IsOther : ℕ → WatchStep → Type 0
IsOther w (records input) = Unit
IsOther w (other_waits v) = v ≢ w
IsOther w (other_ends v) = v ≢ w
IsOther w times_out = Unit
IsOther w aborts = Unit

-- The watch waits, its waiter is known and nothing was recorded; or it has ended, and its waiter is
-- forgotten.
abbrev Follows : ℕ → ℕ → Wait × AdmissionTelemetry → Type 0
Follows w revision (waiting v, t) =
    (v ≡ w) × (has_waiter w t.change_waiters ≡ true) × (t.revision ≡ revision)
Follows w revision (resolved, t) = has_waiter w t.change_waiters ≡ false
Follows w revision (rejected, t) = has_waiter w t.change_waiters ≡ false

finish_wait-Follows :
    (w revision : ℕ) (outcome : WaitOutcome) (wait : Wait) (t : AdmissionTelemetry)
    → Follows w revision (wait, t)
    → Follows w revision (finish_wait outcome wait t)
unfolding finish_wait
finish_wait-Follows w revision change (waiting v) t h =
    ground (arith, has_waiter-delete w v t.change_waiters)
finish_wait-Follows w revision timeout (waiting v) t h =
    ground (arith, has_waiter-delete w v t.change_waiters)
finish_wait-Follows w revision abort (waiting v) t h =
    ground (arith, has_waiter-delete w v t.change_waiters)
finish_wait-Follows w revision outcome resolved t h = h
finish_wait-Follows w revision outcome rejected t h = h

-- Keeping an event touches neither the revision nor the waiters.
record KeepsRest (t u : AdmissionTelemetry) : Type 0 where
  revision : u.revision ≡ t.revision
  waiters : u.change_waiters ≡ t.change_waiters

keep_event-KeepsRest :
    (event : SanitizedEvent) (t : AdmissionTelemetry) → KeepsRest t (keep_event event t)
unfolding keep_event push_history
keep_event-KeepsRest event t = ground arith

pub record_event-revision :
    (to_iso : ℕ → String) (input : AdmissionTelemetryEventInput) (t : AdmissionTelemetry)
    → (record_event to_iso input t).0.revision ≡ t.revision + 1
unfolding record_event record_scoped advance
record_event-revision to_iso input t =
    let event = scoped to_iso input t in
    omega (
      arith,
      (keep_event-KeepsRest event (advance event t)).revision,
      (remember_bindings-Keeps event t).revision,
    )

record_event-woken :
    (to_iso : ℕ → String) (input : AdmissionTelemetryEventInput) (t : AdmissionTelemetry)
    → (record_event to_iso input t).1 ≡ t.change_waiters
unfolding record_event record_scoped advance
record_event-woken to_iso input t =
    let event = scoped to_iso input t in
    (keep_event-KeepsRest event (advance event t)).waiters
    ∙ (remember_bindings-Keeps event t).waiters

record_event-waiters :
    (to_iso : ℕ → String) (input : AdmissionTelemetryEventInput) (t : AdmissionTelemetry)
    → (record_event to_iso input t).0.change_waiters ≡ []
unfolding record_event record_scoped
record_event-waiters to_iso input t = refl

module _ (to_iso : ℕ → String) (w revision : ℕ) where
  records-Follows :
      (input : AdmissionTelemetryEventInput) (wait : Wait) (t : AdmissionTelemetry)
      → Follows w revision (wait, t)
      → Follows w revision (watch_step to_iso (records input) (wait, t))
  unfolding watch_step wake has_waiter finish_wait delete_waiter
  records-Follows input (waiting v) t h =
      let t' = (record_event to_iso input t).0 in
      let woken : has_waiter v (record_event to_iso input t).1 ≡ true =
        rw (record_event-woken to_iso input t, h.0) h.1 in
      rw (woken, record_event-waiters to_iso input t) refl
  records-Follows input resolved t h = rw (record_event-waiters to_iso input t) refl
  records-Follows input rejected t h = rw (record_event-waiters to_iso input t) refl

  watch_step-Follows :
      (step : WatchStep) (wait : Wait) (t : AdmissionTelemetry)
      → IsOther w step
      → Follows w revision (wait, t)
      → Follows w revision (watch_step to_iso step (wait, t))
  unfolding watch_step
  watch_step-Follows (records input) wait t o h = records-Follows input wait t h
  watch_step-Follows (other_waits v) (waiting u) t o h =
      ground (arith, has_waiter-add w v t.change_waiters)
  watch_step-Follows (other_waits v) resolved t o h =
      ground (arith, has_waiter-add w v t.change_waiters)
  watch_step-Follows (other_waits v) rejected t o h =
      ground (arith, has_waiter-add w v t.change_waiters)
  watch_step-Follows (other_ends v) (waiting u) t o h =
      ground (arith, has_waiter-delete w v t.change_waiters)
  watch_step-Follows (other_ends v) resolved t o h =
      ground (arith, has_waiter-delete w v t.change_waiters)
  watch_step-Follows (other_ends v) rejected t o h =
      ground (arith, has_waiter-delete w v t.change_waiters)
  watch_step-Follows times_out wait t o h = finish_wait-Follows w revision timeout wait t h
  watch_step-Follows aborts wait t o h = finish_wait-Follows w revision abort wait t h

  watch_steps-Follows :
      (steps : List WatchStep) (wait : Wait) (t : AdmissionTelemetry)
      → All (IsOther w) steps
      → Follows w revision (wait, t)
      → Follows w revision (watch_steps to_iso steps (wait, t))
  unfolding watch_steps
  watch_steps-Follows [] wait t o h = h
  watch_steps-Follows (step ∷ steps) wait t o h =
      let (wait', t') = watch_step to_iso step (wait, t) in
      watch_steps-Follows steps wait' t' o.1 (watch_step-Follows step wait t o.0 h)

-- A new watch waits with its waiter, or has ended without one.
begin_watch-Follows :
    (request : SnapshotWatchRequest) (signals : Signals) (w : ℕ) (t : AdmissionTelemetry)
    → has_waiter w t.change_waiters ≡ false
    → Follows w t.revision (begin_watch request signals w t)
unfolding begin_watch changed_or_timeout finish_wait
begin_watch-Follows request signals w t h =
    let added : has_waiter w (add_waiter w t.change_waiters) ≡ true =
      ground (arith, has_waiter-add w w t.change_waiters) in
    let deleted : has_waiter w (delete_waiter w (add_waiter w t.change_waiters)) ≡ false =
      ground (arith, has_waiter-delete w w (add_waiter w t.change_waiters)) in
    ground (arith, added, deleted)

-- What the invariant says of a watch, read off.
Follows-cases :
    (w revision : ℕ) (wait : Wait) (t : AdmissionTelemetry)
    → Follows w revision (wait, t)
    → ((wait ≡ waiting w) × (has_waiter w t.change_waiters ≡ true) × (t.revision ≡ revision))
      ⊎ (((wait ≡ resolved) ⊎ (wait ≡ rejected)) × (has_waiter w t.change_waiters ≡ false))
Follows-cases w revision (waiting v) t h = inl (ap waiting h.0, h.1, h.2)
Follows-cases w revision resolved t h = inr (inl refl, h)
Follows-cases w revision rejected t h = inr (inr refl, h)

-- Whatever happens after a watch began with a new waiter, it still waits only if nothing was recorded
-- since, with its waiter among those that the next record wakes; otherwise its wait has ended, and its
-- waiter is forgotten.
pub no_change_is_missed :
    (to_iso : ℕ → String) (request : SnapshotWatchRequest) (signals : Signals) (w : ℕ)
    (t : AdmissionTelemetry) (steps : List WatchStep)
    → has_waiter w t.change_waiters ≡ false
    → All (IsOther w) steps
    → let (wait, t') = watch_steps to_iso steps (begin_watch request signals w t) in
      ((wait ≡ waiting w) × (has_waiter w t'.change_waiters ≡ true) × (t'.revision ≡ t.revision))
      ⊎ (((wait ≡ resolved) ⊎ (wait ≡ rejected)) × (has_waiter w t'.change_waiters ≡ false))
no_change_is_missed to_iso request signals w t steps fresh others =
    let (wait, t') = begin_watch request signals w t in
    let (last, end) = watch_steps to_iso steps (wait, t') in
    Follows-cases w t.revision last end (
      watch_steps-Follows to_iso w t.revision steps wait t' others
        (begin_watch-Follows request signals w t fresh))

is_epoch-eq : (o : Option String) (epoch : String) → (is_epoch o epoch ≡ true) ↔ (o ≡ some epoch)
is_epoch-eq none epoch = (λ h. cc, λ h. cc)
is_epoch-eq (some e) epoch =
    (λ h. ground (arith, eq_iff e epoch), λ h. ground (arith, eq_iff e epoch))

is_revision-eq :
    (n : Number) (revision : ℕ) → (is_revision n revision ≡ true) ↔ (n ≡ natural revision)
is_revision-eq (natural n) revision = (λ h. ground arith, λ h. ground arith)
is_revision-eq (negative n) revision = (λ h. cc, λ h. cc)
is_revision-eq other revision = (λ h. cc, λ h. cc)

clamp_timeout-pos :
    (m : Milliseconds)
    → (nat_eq (clamp_timeout m) 0 ≡ false) ↔ ((n : ℕ) × (m ≡ floors_to n) × (0 < n))
unfolding clamp_timeout
clamp_timeout-pos (floors_to n) = (λ h. (n, refl, ground arith), λ (k, e, p). ground arith)
clamp_timeout-pos below_zero = (λ h. cc, λ (k, e, p). cc)
clamp_timeout-pos not_finite = (λ h. cc, λ (k, e, p). cc)

waits-iff_tests :
    (request : SnapshotWatchRequest) (signals : Signals) (w : ℕ) (t : AdmissionTelemetry)
    → ((begin_watch request signals w t).0 ≡ waiting w) ↔ (
        (is_epoch request.epoch t.epoch ≡ true)
        × (is_revision request.revision t.revision ≡ true)
        × (signals.at_start ≡ false)
        × (signals.at_end ≡ false)
        × (nat_eq (clamp_timeout request.timeout) 0 ≡ false))
unfolding begin_watch changed_or_timeout finish_wait
waits-iff_tests request signals w t =
    (λ h. (ground arith, ground arith, ground arith, ground arith, ground arith), λ h. ground arith)

-- A watch waits exactly when it names the telemetry's epoch and revision, its signal is not aborted
-- and its timeout is at least a millisecond.
pub watch_waits_decides :
    (request : SnapshotWatchRequest) (signals : Signals) (w : ℕ) (t : AdmissionTelemetry)
    → ((begin_watch request signals w t).0 ≡ waiting w) ↔ (
        (request.epoch ≡ some t.epoch)
        × (request.revision ≡ natural t.revision)
        × (signals.at_start ≡ false)
        × (signals.at_end ≡ false)
        × ((n : ℕ) × (request.timeout ≡ floors_to n) × (0 < n)))
watch_waits_decides request signals w t =
    let tests = waits-iff_tests request signals w t in
    let epoch = is_epoch-eq request.epoch t.epoch in
    let revision = is_revision-eq request.revision t.revision in
    let clamped = clamp_timeout-pos request.timeout in
    (
      (λ h. let (e, r, s, a, c) = tests.0 h in (epoch.0 e, revision.0 r, s, a, clamped.0 c)),
      (λ (e, r, s, a, c). tests.1 (epoch.1 e, revision.1 r, s, a, clamped.1 c)),
    )
