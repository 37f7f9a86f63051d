-- ===== src/Telemetry/Roots.antt =====
-- telemetry.ts, the roots that are remembered for sessions.
use dsh_subagent_admission.Prelude.{
  ℕ, ◌≡◌, refl, String, Option, none, some, Bool, true, false, List, [], ◌∷◌, inl, inr, Bool-cases,
  lookup, lookup-insert, eq_iff, arith,
}
use dsh_subagent_admission.Telemetry.Values.{AdmissionTelemetryEventInput, SanitizedEvent}
use dsh_subagent_admission.Telemetry.{
  AdmissionTelemetry, remember_at, remember_session_root, remember_maybe, remember_under,
  remember_bindings, is_bound, projected, push_history, advance, keep_event, record_scoped, scoped,
  record_event, record_all, keeps_child,
}

-- Whether a conflict was met: `projectionReason !== null`.
abbrev pub has_conflict : AdmissionTelemetry → Bool
has_conflict t = elim t.projection_reason [ none ↦ false | some _ ↦ true ]

-- The roots of `t` are roots of `u`, and so is a conflict.
pub record Extends (t u : AdmissionTelemetry) : Type 0 where
  pub roots :
      (session root : String)
      → lookup session t.session_roots ≡ some root
      → lookup session u.session_roots ≡ some root
  pub conflict : has_conflict t ≡ true → has_conflict u ≡ true

pub same-Extends : (t : AdmissionTelemetry) → Extends t t
same-Extends t = record { roots = λ session root e. e; conflict = λ c. c }

pub both-Extends : (t u v : AdmissionTelemetry) → Extends t u → Extends u v → Extends t v
both-Extends t u v e f = record {
  roots = λ session root h. f.roots session root (e.roots session root h);
  conflict = λ c. f.conflict (e.conflict c);
}

remember_at-roots :
    (o : Option String) (session root : String) (t : AdmissionTelemetry) (other own : String)
    → lookup session t.session_roots ≡ o
    → lookup other t.session_roots ≡ some own
    → lookup other (remember_at o session root t).session_roots ≡ some own
remember_at-roots none session root t other own e h =
    ground (arith, lookup-insert session other root t.session_roots, eq_iff session other)
remember_at-roots (some existing) session root t other own e h = ground (
  arith,
  lookup-insert session other root t.session_roots,
  eq_iff session other,
  eq_iff existing root,
)

remember_at-conflict :
    (o : Option String) (session root : String) (t : AdmissionTelemetry)
    → has_conflict t ≡ true
    → has_conflict (remember_at o session root t) ≡ true
remember_at-conflict none session root t c = c
remember_at-conflict (some existing) session root t c = ground arith

pub remember_session_root-Extends :
    (session root : String) (t : AdmissionTelemetry)
    → Extends t (remember_session_root session root t)
unfolding remember_session_root
remember_session_root-Extends session root t = record {
  roots = λ other own. remember_at-roots _ session root t other own refl;
  conflict = remember_at-conflict (lookup session t.session_roots) session root t;
}

pub remember_maybe-Extends :
    (o : Option String) (root : String) (t : AdmissionTelemetry)
    → Extends t (remember_maybe o root t)
remember_maybe-Extends none root t = same-Extends t
remember_maybe-Extends (some session) root t = remember_session_root-Extends session root t

pub remember_under-Extends :
    (o : Option String) (event : SanitizedEvent) (t : AdmissionTelemetry)
    → Extends t (remember_under o event t)
remember_under-Extends none event t = same-Extends t
remember_under-Extends (some root) event t =
    let own = remember_session_root root root t in
    let parent = remember_maybe event.parent_session_id root own in
    both-Extends t own _ (remember_session_root-Extends root root t) (
      both-Extends own parent _ (remember_maybe-Extends event.parent_session_id root own)
        (remember_maybe-Extends (keeps_child event.kind event.child_session_id) root parent))

-- The rest of `record` leaves the roots and the conflict as the bindings made them.
pub record SameRoots (t u : AdmissionTelemetry) : Type 0 where
  pub roots : u.session_roots ≡ t.session_roots
  pub reason : u.projection_reason ≡ t.projection_reason

push_history-SameRoots :
    (event : SanitizedEvent) (t : AdmissionTelemetry)
    → SameRoots t (push_history (projected event) t)
unfolding push_history
push_history-SameRoots event t = ground arith

keep_event-SameRoots :
    (event : SanitizedEvent) (t : AdmissionTelemetry) → SameRoots t (keep_event event t)
unfolding keep_event
keep_event-SameRoots event t = elim (Bool-cases (is_bound event.kind)) [
  | inl e ↦ rw e (record { roots = refl; reason = refl })
  | inr e ↦ rw e (push_history-SameRoots event t)
]

pub record_scoped-SameRoots :
    (event : SanitizedEvent) (t : AdmissionTelemetry)
    → SameRoots (remember_under event.root_id event t) (record_scoped event t).0
unfolding record_scoped advance remember_bindings
record_scoped-SameRoots event t =
    let k = keep_event-SameRoots event (advance event t) in
    record { roots = k.roots; reason = k.reason }

pub SameRoots-Extends : (t u : AdmissionTelemetry) → SameRoots t u → Extends t u
SameRoots-Extends t u s = record {
  roots = λ session root e. rw s.roots e;
  conflict = λ c. rw s.reason c;
}

module _ (to_iso : ℕ → String) where
  pub record_event-Extends :
      (input : AdmissionTelemetryEventInput) (t : AdmissionTelemetry)
      → Extends t (record_event to_iso input t).0
  unfolding record_event
  record_event-Extends input t =
      let event = scoped to_iso input t in
      both-Extends t _ _ (remember_under-Extends event.root_id event t)
        (SameRoots-Extends _ _ (record_scoped-SameRoots event t))

  pub record_all-Extends :
      (inputs : List AdmissionTelemetryEventInput) (t : AdmissionTelemetry)
      → Extends t (record_all to_iso inputs t)
  unfolding record_all
  record_all-Extends [] t = same-Extends t
  record_all-Extends (input ∷ inputs) t =
      both-Extends t _ _ (record_event-Extends input t) (record_all-Extends inputs _)

  -- Once a root is remembered for a session, no later events change it.
  pub session_root_is_final :
      (inputs : List AdmissionTelemetryEventInput) (t : AdmissionTelemetry) (session root : String)
      → lookup session t.session_roots ≡ some root
      → lookup session (record_all to_iso inputs t).session_roots ≡ some root
  session_root_is_final inputs t session root h = (record_all-Extends inputs t).roots session root h
