-- ===== src/Controller/Sessions.antt =====
-- controller.ts, whose snapshot is shown.
use dsh_subagent_admission.Prelude.{
  ℕ, ◌≡◌, sym, ap, ◌∙◌, subst, String, Option, none, some, true, false, List, [], ◌∷◌, ◌&&◌,
  is_empty, is_safe_nonnegative, inl, inr, Bool-cases, Option-cases, eq_iff, arith,
}
use dsh_subagent_admission.Controller.{
  AdmissionSnapshot, AdmissionSnapshotController, Poll, RemoteAnswer, value, error_result,
  rejection, is_one, is_snapshot_for_session, is_session, is_same_object, replace, cancel_active,
  stop, is_current, has_number, has_live_abort, start, poll_succeeds, poll_fails, poll_answered,
  subscribe, unsubscribe, new_controller, ControllerStep, starts, stops, answers, subscribes,
  unsubscribes, controller_step, controller_steps,
}

-- The snapshot is of the session, and passes the checks.
abbrev IsShownFor : Option String → Option AdmissionSnapshot → Type 0
IsShownFor session none = Unit
IsShownFor session (some s) =
    (session ≡ some s.requested_session_id)
    × (is_one s.schema_version ≡ true)
    × (is_empty s.epoch ≡ false)
    × (is_safe_nonnegative s.revision ≡ true)

abbrev ShowsOwn : AdmissionSnapshotController → Type 0
ShowsOwn c = IsShownFor c.active_session_id c.current

replace-none : (c : AdmissionSnapshotController) → (replace none c).current ≡ none
unfolding replace
replace-none c = elim (Option-cases c.current) [ inl e ↦ ground arith | inr (s, e) ↦ ground arith ]

shows_nothing :
    (session : Option String) (o : Option AdmissionSnapshot) → o ≡ none → IsShownFor session o
shows_nothing session o e = rw e tt

stop-ShowsOwn : (c : AdmissionSnapshotController) → ShowsOwn (stop c)
unfolding stop
stop-ShowsOwn c = shows_nothing _ _ (replace-none (cancel_active c))

start-ShowsOwn :
    (session : String) (c : AdmissionSnapshotController) → ShowsOwn c → ShowsOwn (start session c).1
unfolding start
start-ShowsOwn session c h = elim (Bool-cases (is_empty session)) [
  | inl e ↦ rw e h
  | inr e ↦
      elim (Bool-cases
        (is_session c.active_session_id session && has_live_abort c.active_abort c.aborted)) [
          | inl f ↦ rw (e, f) h
          | inr f ↦ rw (e, f) (shows_nothing _ _ (replace-none (cancel_active c)))
        ]
]

replace-ShowsOwn :
    (s : AdmissionSnapshot) (c : AdmissionSnapshotController)
    → ShowsOwn c
    → IsShownFor c.active_session_id (some s)
    → ShowsOwn (replace (some s) c)
unfolding replace
replace-ShowsOwn s c h k = elim (Bool-cases (is_same_object c.current (some s))) [
  | inl e ↦ rw e h
  | inr e ↦ rw e k
]

is_session-eq : (o : Option String) (s : String) → is_session o s ≡ true → o ≡ some s
is_session-eq none s h = cc
is_session-eq (some t) s h = ground (arith, eq_iff t s)

current_session :
    (p : Poll) (c : AdmissionSnapshotController)
    → is_current p c ≡ true
    → c.active_session_id ≡ some p.session_id
unfolding is_current
current_session p c h = is_session-eq c.active_session_id p.session_id (ground arith)

-- A snapshot that passes the check of a current poll may be shown.
accepted_snapshot :
    (s : AdmissionSnapshot) (p : Poll) (c : AdmissionSnapshotController)
    → is_current p c ≡ true
    → is_snapshot_for_session s p.session_id ≡ true
    → IsShownFor c.active_session_id (some s)
unfolding is_snapshot_for_session
accepted_snapshot s p c h k =
    let own : s.requested_session_id ≡ p.session_id =
      ground (arith, eq_iff s.requested_session_id p.session_id) in
    (current_session p c h ∙ ap some (sym own), ground arith, ground arith, ground arith)

poll_answered-ShowsOwn :
    (answer : RemoteAnswer) (p : Poll) (c : AdmissionSnapshotController)
    → ShowsOwn c
    → ShowsOwn (poll_answered answer p c).1
unfolding poll_answered poll_succeeds poll_fails
poll_answered-ShowsOwn error_result p c h = elim (Bool-cases (is_current p c)) [
  | inl e ↦ rw e h
  | inr e ↦ rw e h
]
poll_answered-ShowsOwn rejection p c h = elim (Bool-cases (is_current p c)) [
  | inl e ↦ rw e h
  | inr e ↦ rw e h
]
poll_answered-ShowsOwn (value s) p c h = elim (Bool-cases (is_current p c)) [
  | inl e ↦ elim (Bool-cases (is_snapshot_for_session s p.session_id)) [
    | inl f ↦ rw (e, f) (replace-ShowsOwn s c h (accepted_snapshot s p c e f))
    | inr f ↦ rw (e, f) h
  ]
  | inr e ↦ rw e h
]

subscribe-ShowsOwn :
    (listener : ℕ) (c : AdmissionSnapshotController) → ShowsOwn c → ShowsOwn (subscribe listener c)
unfolding subscribe
subscribe-ShowsOwn listener c h = elim (Bool-cases (has_number listener c.listeners)) [
  | inl e ↦ rw e h
  | inr e ↦ rw e h
]

controller_step-ShowsOwn :
    (step : ControllerStep) (c : AdmissionSnapshotController)
    → ShowsOwn c
    → ShowsOwn (controller_step step c)
unfolding controller_step unsubscribe
controller_step-ShowsOwn (starts session) c h = start-ShowsOwn session c h
controller_step-ShowsOwn stops c h = stop-ShowsOwn c
controller_step-ShowsOwn (answers p answer) c h = poll_answered-ShowsOwn answer p c h
controller_step-ShowsOwn (subscribes listener) c h = subscribe-ShowsOwn listener c h
controller_step-ShowsOwn (unsubscribes listener) c h = h

controller_steps-ShowsOwn :
    (steps : List ControllerStep) (c : AdmissionSnapshotController)
    → ShowsOwn c
    → ShowsOwn (controller_steps steps c)
unfolding controller_steps
controller_steps-ShowsOwn [] c h = h
controller_steps-ShowsOwn (step ∷ steps) c h =
    controller_steps-ShowsOwn steps _ (controller_step-ShowsOwn step c h)

-- After any calls and answers, in any order, a snapshot that the controller shows is one of the active
-- session, with schema version 1, an epoch and a safe revision.
pub shown_snapshot_is_own :
    (steps : List ControllerStep) (s : AdmissionSnapshot)
    → (controller_steps steps new_controller).current ≡ some s
    → ((controller_steps steps new_controller).active_session_id ≡ some s.requested_session_id)
      × (is_one s.schema_version ≡ true)
      × (is_empty s.epoch ≡ false)
      × (is_safe_nonnegative s.revision ≡ true)
unfolding new_controller
shown_snapshot_is_own steps s h =
    subst (IsShownFor (controller_steps steps new_controller).active_session_id) h
      (controller_steps-ShowsOwn steps new_controller tt)
