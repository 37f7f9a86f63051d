-- ===== src/Telemetry/Answers.antt =====
-- telemetry.ts, which answers of the resolver and of the ledger a snapshot takes for a failure.
use dsh_subagent_admission.Prelude.{
  ◌⊎◌, ◌≢◌, ◌↔◌, ◌≡◌, refl, ap, ◌∙◌, String, Option, none, some, false, List, [], ◌∷◌, ◌==◌,
  is_empty, if◌then◌else◌, inl, inr, Bool-cases, lookup, eq_iff,
}
use dsh_subagent_admission.Telemetry.Values.{
  SanitizedLease, RawLedger, SanitizedLedger, sanitize_ledger, or_second,
}
use dsh_subagent_admission.Telemetry.{AdmissionTelemetry}
use dsh_subagent_admission.Telemetry.Snapshot.{
  Answer, answers, throws, Readers, has_thrown, resolved_of, infer_root_from_leases, find_root,
  view_clean, view_ledger, candidate_clean, view_candidate, find_ledger,
}

-- Whether the resolver answered, where it is asked.
abbrev pub ResolverAnswers : String → Answer (Option String) → Type 0
ResolverAnswers session throws = session ≡ ""
ResolverAnswers session (answers root) = Unit

-- The ledger answered with nothing, or with a sound row of this root.
abbrev pub HasRowOf : String → Answer (Option RawLedger) → Type 0
HasRowOf root throws = ⊥
HasRowOf root (answers none) = Unit
HasRowOf root (answers (some raw)) =
    (l : SanitizedLedger) × (sanitize_ledger raw ≡ some l) × (l.root_session_id ≡ root)

-- The ledger answered with nothing, or with a sound row.
abbrev pub HasRow : Answer (Option RawLedger) → Type 0
HasRow throws = ⊥
HasRow (answers none) = Unit
HasRow (answers (some raw)) = sanitize_ledger raw ≢ none

-- The ledger is asked for the root of the session, or for the session itself where no root is known.
abbrev pub LedgerAnswers : (String → Answer (Option RawLedger)) → String → Option String → Type 0
LedgerAnswers read session (some root) = HasRowOf root (read root)
LedgerAnswers read session none = (session ≡ "") ⊎ HasRow (read session)

abbrev pub first_of : List (Option String) → Option String
first_of [] = none
first_of (none ∷ rest) = first_of rest
first_of (some root ∷ rest) = some root

abbrev pub answered_root : Answer (Option String) → Option String
answered_root throws = none
answered_root (answers root) = root

-- The root of a session: what the resolver answers, what was remembered, what the leases say.
abbrev pub root_asked : Readers → AdmissionTelemetry → List SanitizedLease → String → Option String
root_asked readers t leases session =
    if session == ""
    then none
    else first_of (
        answered_root (readers.resolve_root session)
        ∷ lookup session t.session_roots
        ∷ infer_root_from_leases session leases
        ∷ [])

first_of_three : (a b c : Option String) → or_second a (or_second b c) ≡ first_of (a ∷ b ∷ c ∷ [])
first_of_three (some r) b c = refl
first_of_three none (some r) c = refl
first_of_three none none (some r) = refl
first_of_three none none none = refl

answered_root-lem : (a : Answer (Option String)) → resolved_of a ≡ answered_root a
answered_root-lem throws = refl
answered_root-lem (answers root) = refl

pub find_root-root_asked :
    (readers : Readers) (t : AdmissionTelemetry) (leases : List SanitizedLease) (session : String)
    → (find_root readers t leases session).0 ≡ root_asked readers t leases session
unfolding find_root
find_root-root_asked readers t leases session = elim (Bool-cases (is_empty session)) [
  | inl e ↦ rw e refl
  | inr e ↦ rw e (
      ap
        (λ (o : Option String).
          or_second o
            (or_second (lookup session t.session_roots) (infer_root_from_leases session leases)))
        (answered_root-lem (readers.resolve_root session))
      ∙ first_of_three (answered_root (readers.resolve_root session))
          (lookup session t.session_roots) (infer_root_from_leases session leases))
]

has_thrown-answers :
    (session : String) (answer : Answer (Option String))
    → is_empty session ≡ false
    → (has_thrown answer ≡ false) ↔ ResolverAnswers session answer
has_thrown-answers session throws e = (λ h. cc, λ h. cc ((eq_iff session "").1 h, e))
has_thrown-answers session (answers root) e = (λ h. tt, λ h. refl)

empty-answers :
    (session : String) (answer : Answer (Option String))
    → session ≡ ""
    → ResolverAnswers session answer
empty-answers session throws e = e
empty-answers session (answers root) e = tt

pub find_root-answers :
    (readers : Readers) (t : AdmissionTelemetry) (leases : List SanitizedLease) (session : String)
    → ((find_root readers t leases session).1 ≡ false)
      ↔ ResolverAnswers session (readers.resolve_root session)
unfolding find_root
find_root-answers readers t leases session = elim (Bool-cases (is_empty session)) [
  | inl e ↦ rw e (
    λ h. empty-answers session (readers.resolve_root session) ((eq_iff session "").0 e),
    λ h. refl,
  )
  | inr e ↦ rw e (has_thrown-answers session (readers.resolve_root session) e)
]

view_clean-answers :
    (root : String) (o : Option SanitizedLedger)
    → ((view_clean root o).has_failed ≡ false)
      ↔ ((l : SanitizedLedger) × (o ≡ some l) × (l.root_session_id ≡ root))
view_clean-answers root none = (λ h. cc, λ (l, e, h). cc)
view_clean-answers root (some l) =
    let same = eq_iff l.root_session_id root in
    elim (Bool-cases (l.root_session_id == root)) [
      | inl own ↦ rw own (λ h. (l, refl, same.0 own), λ h. refl)
      | inr differ ↦ rw differ (
        λ h. cc,
        λ (m, e, h).
            let one : l ≡ m = some_row l m e in
            cc (same.1 (ap (λ (x : SanitizedLedger). x.root_session_id) one ∙ h), differ),
      )
    ]
  where
    some_row : (a b : SanitizedLedger) → some a ≡ some b → a ≡ b
    some_row a b e = cc

candidate_clean-answers :
    (session : String) (o : Option SanitizedLedger)
    → ((candidate_clean session o).has_failed ≡ false) ↔ (o ≢ none)
candidate_clean-answers session none = (λ h. cc, λ h. absurd (h refl))
candidate_clean-answers session (some l) = elim (Bool-cases (l.root_session_id == session)) [
  | inl own ↦ rw own (λ h e. cc, λ h. refl)
  | inr differ ↦ rw differ (λ h e. cc, λ h. refl)
]

view_ledger-answers :
    (root : String) (answer : Answer (Option RawLedger))
    → ((view_ledger root answer).has_failed ≡ false) ↔ HasRowOf root answer
view_ledger-answers root throws = (λ h. cc, λ h. absurd h)
view_ledger-answers root (answers none) = (λ h. tt, λ h. refl)
view_ledger-answers root (answers (some raw)) = view_clean-answers root (sanitize_ledger raw)

view_candidate-answers :
    (session : String) (answer : Answer (Option RawLedger))
    → ((view_candidate session answer).has_failed ≡ false) ↔ HasRow answer
view_candidate-answers session throws = (λ h. cc, λ h. absurd h)
view_candidate-answers session (answers none) = (λ h. tt, λ h. refl)
view_candidate-answers session (answers (some raw)) =
    candidate_clean-answers session (sanitize_ledger raw)

pub find_ledger-answers :
    (readers : Readers) (session : String) (root : Option String)
    → ((find_ledger readers session root).has_failed ≡ false)
      ↔ LedgerAnswers readers.read_root_ledger session root
unfolding find_ledger
find_ledger-answers readers session (some root) =
    view_ledger-answers root (readers.read_root_ledger root)
find_ledger-answers readers session none =
    let same = eq_iff session "" in
    let row = view_candidate-answers session (readers.read_root_ledger session) in
    elim (Bool-cases (is_empty session)) [
      | inl e ↦ rw e (λ h. inl (same.0 e), λ h. refl)
      | inr e ↦
          rw e (λ h. inr (row.0 h), λ h. elim h [ inl n ↦ cc (same.1 n, e) | inr k ↦ row.1 k ])
    ]
