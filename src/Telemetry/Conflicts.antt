-- ===== src/Telemetry/Conflicts.antt =====
-- telemetry.ts, roots that do not agree.
use dsh_subagent_admission.Prelude.{
  ◌⊎◌, ◌≢◌, ℕ, ◌≡◌, refl, String, Option, none, some, Bool, true, false, List, [], ◌∷◌, ◌==◌,
  if◌then◌else◌, inl, inr, Bool-cases, Dict, lookup, insert, lookup-insert, eq_iff, arith,
}
use dsh_subagent_admission.Vocabulary.{AdmissionLimits}
use dsh_subagent_admission.Telemetry.Values.{
  AdmissionTelemetryEventInput, SanitizedEvent, sanitize_event, nullable_id,
}
use dsh_subagent_admission.Telemetry.{
  AdmissionTelemetry, new_telemetry, remember_at, remember_session_root, remember_maybe,
  remember_under, scope_event, scoped, record_event, record_all, keeps_child,
}
use dsh_subagent_admission.Telemetry.Roots.{
  has_conflict, Extends, SameRoots, remember_session_root-Extends, remember_maybe-Extends,
  record_scoped-SameRoots, SameRoots-Extends,
}

-- Another root than the one that is remembered is a conflict.
remember_session_root-conflict :
    (session root other : String) (t : AdmissionTelemetry)
    → lookup session t.session_roots ≡ some other
    → other ≢ root
    → has_conflict (remember_session_root session root t) ≡ true
unfolding remember_session_root
remember_session_root-conflict session root other t h d = rw h (ground (arith, eq_iff other root))

-- Every remembered root is remembered as its own root.
abbrev pub IsFlat : AdmissionTelemetry → Type 0
IsFlat t =
    has_conflict t ≡ false
    → (session root : String) → lookup session t.session_roots ≡ some root
    → lookup root t.session_roots ≡ some root

-- `root` is its own root, or there was a conflict.
abbrev IsOwn : String → AdmissionTelemetry → Type 0
IsOwn root t = has_conflict t ≡ false → lookup root t.session_roots ≡ some root

no_conflict_before :
    (t u : AdmissionTelemetry) → Extends t u → has_conflict u ≡ false → has_conflict t ≡ false
no_conflict_before t u e c = elim (Bool-cases (has_conflict t)) [
  | inl old ↦ cc (e.conflict old)
  | inr new ↦ new
]

Extends-IsOwn :
    (root : String) (t u : AdmissionTelemetry) → Extends t u → IsOwn root t → IsOwn root u
Extends-IsOwn root t u e h c = e.roots root root (h (no_conflict_before t u e c))

remember_at-IsOwn :
    (o : Option String) (root : String) (t : AdmissionTelemetry)
    → lookup root t.session_roots ≡ o
    → IsOwn root (remember_at o root root t)
remember_at-IsOwn none root t e c =
    ground (arith, lookup-insert root root root t.session_roots, eq_iff root root)
remember_at-IsOwn (some existing) root t e c =
    ground
      (arith, eq_iff existing root, lookup-insert root root root t.session_roots, eq_iff root root)

insert-IsFlat :
    (session root : String) (roots : Dict String)
    → ((s r : String) → lookup s roots ≡ some r → lookup r roots ≡ some r)
    → (lookup session roots ≡ none) ⊎ (lookup session roots ≡ some root)
    → (root ≡ session) ⊎ (lookup root roots ≡ some root)
    → (s r : String) → lookup s (insert session root roots) ≡ some r
    → lookup r (insert session root roots) ≡ some r
insert-IsFlat session root roots flat fits own s r e = ground (
  arith,
  lookup-insert session s root roots,
  lookup-insert session r root roots,
  eq_iff session s,
  eq_iff session r,
  flat s r,
)

remember_existing-IsFlat :
    (is_same : Bool) (existing session root : String) (t : AdmissionTelemetry)
    → (existing == root) ≡ is_same
    → lookup session t.session_roots ≡ some existing
    → (has_conflict t ≡ false → (root ≡ session) ⊎ (lookup root t.session_roots ≡ some root))
    → IsFlat t
    → IsFlat (
        if is_same
        then record t { session_roots = insert session root t.session_roots }
        else record t { projection_reason = some "telemetry-binding-conflict" })
remember_existing-IsFlat true existing session root t same e own flat c s r h =
    let fits : lookup session t.session_roots ≡ some root = ground (arith, eq_iff existing root) in
    insert-IsFlat session root t.session_roots (flat c) (inr fits) (own c) s r h
remember_existing-IsFlat false existing session root t same e own flat c s r h = cc

remember_at-IsFlat :
    (o : Option String) (session root : String) (t : AdmissionTelemetry)
    → lookup session t.session_roots ≡ o
    → (has_conflict t ≡ false → (root ≡ session) ⊎ (lookup root t.session_roots ≡ some root))
    → IsFlat t
    → IsFlat (remember_at o session root t)
remember_at-IsFlat none session root t e own flat c s r h =
    insert-IsFlat session root t.session_roots (flat c) (inl e) (own c) s r h
remember_at-IsFlat (some existing) session root t e own flat c s r h =
    remember_existing-IsFlat (existing == root) existing session root t refl e own flat c s r h

remember_own-IsFlat :
    (root : String) (t : AdmissionTelemetry) → IsFlat t → IsFlat (remember_session_root root root t)
unfolding remember_session_root
remember_own-IsFlat root t flat = remember_at-IsFlat _ root root t refl (λ c. inl refl) flat

remember_maybe-IsFlat :
    (o : Option String) (root : String) (t : AdmissionTelemetry)
    → IsOwn root t
    → IsFlat t
    → IsFlat (remember_maybe o root t)
unfolding remember_session_root
remember_maybe-IsFlat none root t own flat = flat
remember_maybe-IsFlat (some session) root t own flat =
    remember_at-IsFlat _ session root t refl (λ c. inr (own c)) flat

remember_under-IsFlat :
    (o : Option String) (event : SanitizedEvent) (t : AdmissionTelemetry)
    → IsFlat t
    → IsFlat (remember_under o event t)
unfolding remember_session_root
remember_under-IsFlat none event t flat = flat
remember_under-IsFlat (some root) event t flat =
    let own = remember_session_root root root t in
    let parent = remember_maybe event.parent_session_id root own in
    let is_own = remember_at-IsOwn (lookup root t.session_roots) root t refl in
    let flat_parent =
      remember_maybe-IsFlat event.parent_session_id root own is_own
        (remember_own-IsFlat root t flat) in
    remember_maybe-IsFlat (keeps_child event.kind event.child_session_id) root parent
      (Extends-IsOwn root own parent (remember_maybe-Extends event.parent_session_id root own)
        is_own)
      flat_parent

SameRoots-IsFlat : (t u : AdmissionTelemetry) → SameRoots t u → IsFlat t → IsFlat u
SameRoots-IsFlat t u same flat c s r h =
    let before = no_conflict_before t u (SameRoots-Extends t u same) c in
    rw same.roots (flat before s r (rw same.roots at h))

module _ (to_iso : ℕ → String) where
  record_all-IsFlat :
      (inputs : List AdmissionTelemetryEventInput) (t : AdmissionTelemetry)
      → IsFlat t
      → IsFlat (record_all to_iso inputs t)
  unfolding record_all record_event
  record_all-IsFlat [] t flat = flat
  record_all-IsFlat (input ∷ inputs) t flat =
      let event = scoped to_iso input t in
      record_all-IsFlat inputs _ (
        SameRoots-IsFlat _ _ (record_scoped-SameRoots event t)
          (remember_under-IsFlat event.root_id event t flat))

  -- As long as no conflict was met, every root that is remembered after any events of a new telemetry
  -- is remembered as its own root.
  pub roots_are_own_roots :
      (epoch : String) (limits : AdmissionLimits) (inputs : List AdmissionTelemetryEventInput)
      (session root : String)
      → (record_all to_iso inputs (new_telemetry epoch limits)).projection_reason ≡ none
      → lookup session (record_all to_iso inputs (new_telemetry epoch limits)).session_roots
        ≡ some root
      → lookup root (record_all to_iso inputs (new_telemetry epoch limits)).session_roots
        ≡ some root
  unfolding new_telemetry lookup
  roots_are_own_roots epoch limits inputs session root c h =
      record_all-IsFlat inputs (new_telemetry epoch limits) (λ c s r e. cc) (rw c) session root h

  -- The parent of an event is remembered under another root.
  remember_under-conflict :
      (event : SanitizedEvent) (t : AdmissionTelemetry) (root parent other : String)
      → event.parent_session_id ≡ some parent
      → lookup parent t.session_roots ≡ some other
      → other ≢ root
      → has_conflict (remember_under (some root) event t) ≡ true
  remember_under-conflict event t root parent other p h d =
      let own = remember_session_root root root t in
      let after = remember_session_root parent root own in
      let kept = (remember_session_root-Extends root root t).roots parent other h in
      let met = remember_session_root-conflict parent root other own kept d in
      rw p (
        (remember_maybe-Extends (keeps_child event.kind event.child_session_id) root after).conflict
          met)

  scoped_with_root :
      (input : AdmissionTelemetryEventInput) (t : AdmissionTelemetry) (root : String)
      → nullable_id input.root_id ≡ some root
      → scoped to_iso input t ≡ sanitize_event to_iso input
  unfolding scoped scope_event sanitize_event
  scoped_with_root input t root r = rw r

  pub record_event-conflict :
      (input : AdmissionTelemetryEventInput) (t : AdmissionTelemetry) (root parent other : String)
      → nullable_id input.root_id ≡ some root
      → nullable_id input.parent_session_id ≡ some parent
      → lookup parent t.session_roots ≡ some other
      → other ≢ root
      → has_conflict (record_event to_iso input t).0 ≡ true
  unfolding record_event
  record_event-conflict input t root parent other r p h d =
      let event = sanitize_event to_iso input in
      let met : has_conflict (remember_under event.root_id event t) ≡ true =
        unfold sanitize_event in rw r (remember_under-conflict event t root parent other p h d) in
      rw (scoped_with_root input t root r)
        ((SameRoots-Extends _ _ (record_scoped-SameRoots event t)).conflict met)
