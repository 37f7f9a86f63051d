-- ===== src/Telemetry/History.antt =====
-- telemetry.ts, the bounded history against the journal of all events.
use mathlib.Core.List.{append-nil, append_assoc}
use dsh_subagent_admission.Prelude.{
  suc, ◌≤◌, ◌-◌, ℕ, ◌+◌, ◌≡◌, refl, sym, ap, ◌∙◌, String, Option, none, some, List, [], ◌∷◌, ◌++◌,
  ltb, if◌then◌else◌, inl, inr, Bool-cases, length, length-append, shift, drop, length-drop,
  shift-drop, drop-append_left, arith,
}
use dsh_subagent_admission.Vocabulary.{AdmissionLimits}
use dsh_subagent_admission.Telemetry.Values.{AdmissionTelemetryEventInput, SanitizedEvent}
use dsh_subagent_admission.Telemetry.{
  AdmissionTelemetry, AdmissionEvent, new_telemetry, remember_at, remember_session_root,
  remember_maybe, remember_under, remember_bindings, is_bound, projected, push_history, advance,
  keep_event, record_scoped, scoped, record_event, record_all, max_history_events, keeps_child,
}

-- What the bindings leave as it was.
pub record Keeps (t u : AdmissionTelemetry) : Type 0 where
  pub history : u.history ≡ t.history
  pub dropped : u.dropped_history ≡ t.dropped_history
  pub revision : u.revision ≡ t.revision
  pub waiters : u.change_waiters ≡ t.change_waiters

same-Keeps : (t : AdmissionTelemetry) → Keeps t t
same-Keeps t = record { history = refl; dropped = refl; revision = refl; waiters = refl }

both-Keeps : (t u v : AdmissionTelemetry) → Keeps t u → Keeps u v → Keeps t v
both-Keeps t u v k l = record {
  history = l.history ∙ k.history;
  dropped = l.dropped ∙ k.dropped;
  revision = l.revision ∙ k.revision;
  waiters = l.waiters ∙ k.waiters;
}

remember_at-Keeps :
    (o : Option String) (session root : String) (t : AdmissionTelemetry)
    → Keeps t (remember_at o session root t)
remember_at-Keeps none session root t = record {
  history = refl;
  dropped = refl;
  revision = refl;
  waiters = refl;
}
remember_at-Keeps (some existing) session root t = ground arith

remember_maybe-Keeps :
    (o : Option String) (root : String) (t : AdmissionTelemetry) → Keeps t (remember_maybe o root t)
unfolding remember_session_root
remember_maybe-Keeps none root t = same-Keeps t
remember_maybe-Keeps (some session) root t = remember_at-Keeps _ session root t

remember_under-Keeps :
    (o : Option String) (event : SanitizedEvent) (t : AdmissionTelemetry)
    → Keeps t (remember_under o event t)
remember_under-Keeps none event t = same-Keeps t
remember_under-Keeps (some root) event t =
    let own = remember_maybe (some root) root t in
    let parent = remember_maybe event.parent_session_id root own in
    let child = keeps_child event.kind event.child_session_id in
    both-Keeps t own _ (remember_maybe-Keeps (some root) root t) (
      both-Keeps own parent _ (remember_maybe-Keeps event.parent_session_id root own)
        (remember_maybe-Keeps child root parent))

pub remember_bindings-Keeps :
    (event : SanitizedEvent) (t : AdmissionTelemetry) → Keeps t (remember_bindings event t)
unfolding remember_bindings
remember_bindings-Keeps event t = remember_under-Keeps event.root_id event t

-- The event that one call of `record` shows, if it shows one.
abbrev pub shown : SanitizedEvent → List AdmissionEvent
shown event = if is_bound event.kind then [] else projected event ∷ []

-- All events that the calls show, with no bound on their number.
unfoldable pub journal :
    (ℕ → String) → List AdmissionTelemetryEventInput → AdmissionTelemetry → List AdmissionEvent
journal to_iso [] t = []
journal to_iso (input ∷ inputs) t =
    shown (scoped to_iso input t) ++ journal to_iso inputs (record_event to_iso input t).0

-- The history holds the end of the events `all`, as much as is kept of them.
pub record IsEndOf (all : List AdmissionEvent) (t : AdmissionTelemetry) : Type 0 where
  pub history : t.history ≡ drop (length all - max_history_events) all
  pub dropped : t.dropped_history ≡ length all - max_history_events

module _ (all : List AdmissionEvent) (event : AdmissionEvent) (t : AdmissionTelemetry)
    (h : IsEndOf all t) where
  grown-eq-drop :
      t.history ++ event ∷ [] ≡ drop (length all - max_history_events) (all ++ event ∷ [])
  grown-eq-drop =
      ap (λ (l : List AdmissionEvent). l ++ event ∷ []) h.history
      ∙ sym (drop-append_left (length all - max_history_events) all (event ∷ []) (omega arith))

  length-grown :
      length (t.history ++ event ∷ []) ≡ length all - (length all - max_history_events) + 1
  length-grown = omega (
    arith,
    ap length grown-eq-drop,
    length-drop (length all - max_history_events) (all ++ event ∷ []),
    length-append all (event ∷ []),
  )

  push_history-IsEndOf : IsEndOf (all ++ event ∷ []) (push_history event t)
  unfolding push_history
  push_history-IsEndOf =
      elim (Bool-cases (ltb max_history_events (length (t.history ++ event ∷ [])))) [
        | inl e ↦
            let k : length (all ++ event ∷ []) - max_history_events
                ≡ suc (length all - max_history_events) =
              ground (arith, length-grown, length-append all (event ∷ [])) in
            rw e (record {
              history =
                  ap shift grown-eq-drop
                  ∙ shift-drop (length all - max_history_events) (all ++ event ∷ [])
                  ∙ ap (λ (n : ℕ). drop n (all ++ event ∷ [])) (sym k);
              dropped = omega (arith, k, h.dropped);
            })
        | inr e ↦
            let k : length (all ++ event ∷ []) - max_history_events
                ≡ length all - max_history_events =
              ground (arith, length-grown, length-append all (event ∷ [])) in
            rw e (record {
              history = grown-eq-drop ∙ ap (λ (n : ℕ). drop n (all ++ event ∷ [])) (sym k);
              dropped = omega (arith, k, h.dropped);
            })
      ]

advance-IsEndOf :
    (all : List AdmissionEvent) (event : SanitizedEvent) (t : AdmissionTelemetry)
    → IsEndOf all t
    → IsEndOf all (advance event t)
unfolding advance
advance-IsEndOf all event t h =
    let k = remember_bindings-Keeps event t in
    record { history = k.history ∙ h.history; dropped = k.dropped ∙ h.dropped }

keep_event-IsEndOf :
    (all : List AdmissionEvent) (event : SanitizedEvent) (t : AdmissionTelemetry)
    → IsEndOf all t
    → IsEndOf (all ++ shown event) (keep_event event t)
unfolding keep_event
keep_event-IsEndOf all event t h = elim (Bool-cases (is_bound event.kind)) [
  | inl e ↦ rw (e, append-nil) h
  | inr e ↦ rw e (push_history-IsEndOf all (projected event) t h)
]

record_scoped-IsEndOf :
    (all : List AdmissionEvent) (event : SanitizedEvent) (t : AdmissionTelemetry)
    → IsEndOf all t
    → IsEndOf (all ++ shown event) (record_scoped event t).0
unfolding record_scoped
record_scoped-IsEndOf all event t h =
    let k = keep_event-IsEndOf all event (advance event t) (advance-IsEndOf all event t h) in
    record { history = k.history; dropped = k.dropped }

record_all-IsEndOf :
    (to_iso : ℕ → String) (all : List AdmissionEvent) (inputs : List AdmissionTelemetryEventInput)
    (t : AdmissionTelemetry)
    → IsEndOf all t
    → IsEndOf (all ++ journal to_iso inputs t) (record_all to_iso inputs t)
unfolding record_all journal record_event
record_all-IsEndOf to_iso all [] t h = rw append-nil h
record_all-IsEndOf to_iso all (input ∷ inputs) t h =
    let event = scoped to_iso input t in
    let one = record_scoped-IsEndOf all event t h in
    rw (← append_assoc) (record_all-IsEndOf to_iso (all ++ shown event) inputs _ one)

-- After any calls of `record` on a new telemetry, the history holds exactly the last 200 of the
-- events that the calls showed, in order, and `droppedHistory` counts those before them.
pub history_is_last_events :
    (to_iso : ℕ → String) (epoch : String) (limits : AdmissionLimits)
    (inputs : List AdmissionTelemetryEventInput)
    → let start = new_telemetry epoch limits in
      let all = journal to_iso inputs start in
      let t = record_all to_iso inputs start in
      (t.history ≡ drop (length all - 200) all)
      × (t.dropped_history ≡ length all - 200)
      × (length t.history ≤ 200)
unfolding new_telemetry
history_is_last_events to_iso epoch limits inputs =
    let start = new_telemetry epoch limits in
    let all = journal to_iso inputs start in
    let e : IsEndOf all (record_all to_iso inputs start) =
      record_all-IsEndOf to_iso [] inputs start (record { history = refl; dropped = refl }) in
    (e.history, e.dropped, omega (arith, ap length e.history, length-drop (length all - 200) all))
