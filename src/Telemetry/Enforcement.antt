-- ===== src/Telemetry/Enforcement.antt =====
-- telemetry.ts, when a snapshot claims that admission is enforced.
use dsh_subagent_admission.Prelude.{
  ◌⊎◌, ◌≢◌, ◌≤◌, ◌↔◌, ℕ, suc, ◌≡◌, refl, sym, subst, String, Option, none, some, Bool, true, false,
  List, [], ◌∷◌, All, not, ◌||◌, nat_eq, inl, inr, lookup, length, arith,
}
use dsh_subagent_admission.Telemetry.Values.{
  AdmissionMode, strict, audit, unavailable, draining, RawStatus, TelemetryStatus,
  TelemetryLeaseInput, SanitizedLease, sanitize_status, sanitize_lease, mode_named, clean_status,
  Value, AdmissionTelemetryEventInput, nullable_id,
}
use dsh_subagent_admission.Telemetry.{AdmissionTelemetry, record_event, record_all}
use dsh_subagent_admission.Telemetry.Answers.{
  ResolverAnswers, LedgerAnswers, root_asked, find_root-root_asked, find_root-answers,
  find_ledger-answers,
}
use dsh_subagent_admission.Telemetry.Roots.{record_all-Extends}
use dsh_subagent_admission.Telemetry.Conflicts.{record_event-conflict}
use dsh_subagent_admission.Telemetry.Snapshot.{
  Answer, answers, throws, Readers, clean_leases, keep_clean, read_status_safely,
  read_leases_safely, has_thrown, shown_status, show, snapshot, read_snapshot_inputs, find_root,
  find_ledger,
}

-- The status that the authority reports enforces admission.
abbrev pub ReportsEnforced : Answer RawStatus → Type 0
ReportsEnforced throws = ⊥
ReportsEnforced (answers status) =
    (status.is_enforced ≡ some true)
    × ((mode_named status.mode ≡ some strict) ⊎ (mode_named status.mode ≡ some draining))

abbrev pub IsCleanLease : AdmissionMode → TelemetryLeaseInput → Type 0
IsCleanLease fallback lease = sanitize_lease lease fallback ≢ none

abbrev pub ReportsLeases : AdmissionMode → Answer (List TelemetryLeaseInput) → Type 0
ReportsLeases fallback throws = ⊥
ReportsLeases fallback (answers leases) = All (IsCleanLease fallback) leases

clean_status-enforced :
    (mode : Option AdmissionMode) (is_enforced : Option Bool) (reason : Value)
    → ((clean_status mode is_enforced reason).is_enforced ≡ true)
      ↔ ((is_enforced ≡ some true) × ((mode ≡ some strict) ⊎ (mode ≡ some draining)))
clean_status-enforced none o reason = (λ h. cc, λ h. elim h.1 [ inl e ↦ cc | inr e ↦ cc ])
clean_status-enforced (some mode) none reason = (λ h. cc, λ h. cc)
clean_status-enforced (some strict) (some true) reason = (λ h. (refl, inl refl), λ h. refl)
clean_status-enforced (some draining) (some true) reason = (λ h. (refl, inr refl), λ h. refl)
clean_status-enforced (some audit) (some true) reason =
    (λ h. cc, λ h. elim h.1 [ inl e ↦ cc | inr e ↦ cc ])
clean_status-enforced (some unavailable) (some true) reason =
    (λ h. cc, λ h. elim h.1 [ inl e ↦ cc | inr e ↦ cc ])
clean_status-enforced (some strict) (some false) reason = (λ h. cc, λ h. cc)
clean_status-enforced (some draining) (some false) reason = (λ h. cc, λ h. cc)
clean_status-enforced (some audit) (some false) reason = (λ h. cc, λ h. cc)
clean_status-enforced (some unavailable) (some false) reason = (λ h. cc, λ h. cc)

status-ReportsEnforced :
    (status : Answer RawStatus)
    → ((read_status_safely status).is_enforced ≡ true) ↔ ReportsEnforced status
unfolding sanitize_status
status-ReportsEnforced throws = (λ h. cc, λ h. absurd h)
status-ReportsEnforced (answers status) =
    clean_status-enforced (mode_named status.mode) status.is_enforced status.reason

clean_leases-le :
    (fallback : AdmissionMode) (leases : List TelemetryLeaseInput)
    → length (clean_leases fallback leases) ≤ length leases
unfolding clean_leases
clean_leases-le fallback [] = omega arith
clean_leases-le fallback (l ∷ leases) = ground (arith, clean_leases-le fallback leases)

clean_leases-cons :
    (fallback : AdmissionMode) (o : Option SanitizedLease) (l : TelemetryLeaseInput)
    (leases : List TelemetryLeaseInput)
    → ((length (clean_leases fallback leases) ≡ length leases) ↔ All (IsCleanLease fallback) leases)
    → (length (keep_clean o (clean_leases fallback leases)) ≡ suc (length leases))
      ↔ ((o ≢ none) × All (IsCleanLease fallback) leases)
clean_leases-cons fallback none l leases ih =
    (λ h. absurd (omega (arith, clean_leases-le fallback leases, h)), λ h. absurd (h.0 refl))
clean_leases-cons fallback (some c) l leases ih =
    (λ h. (λ e. cc, ih.0 (omega (arith, h))), λ h. omega (arith, ih.1 h.1))

-- No lease is left out exactly when each is clean.
clean_leases-length :
    (fallback : AdmissionMode) (leases : List TelemetryLeaseInput)
    → (length (clean_leases fallback leases) ≡ length leases) ↔ All (IsCleanLease fallback) leases
unfolding clean_leases
clean_leases-length fallback [] = (λ h. tt, λ h. refl)
clean_leases-length fallback (l ∷ leases) =
    clean_leases-cons fallback (sanitize_lease l fallback) l leases
      (clean_leases-length fallback leases)

not_all-false : (b : Bool) → (not b ≡ false) ↔ (b ≡ true)
not_all-false true = (λ h. refl, λ h. refl)
not_all-false false = (λ h. cc, λ h. cc)

nat_eq-true : (m n : ℕ) → (nat_eq m n ≡ true) ↔ (m ≡ n)
nat_eq-true m n = (λ h. ground arith, λ h. ground arith)

leases-ReportsLeases :
    (fallback : AdmissionMode) (leases : Answer (List TelemetryLeaseInput))
    → ((read_leases_safely fallback leases).1 ≡ false) ↔ ReportsLeases fallback leases
leases-ReportsLeases fallback throws = (λ h. cc, λ h. absurd h)
leases-ReportsLeases fallback (answers raw) =
    let lengths = clean_leases-length fallback raw in
    let equal = nat_eq-true (length (clean_leases fallback raw)) (length raw) in
    let negated = not_all-false (nat_eq (length (clean_leases fallback raw)) (length raw)) in
    (λ h. lengths.0 (equal.0 (negated.0 h)), λ h. negated.1 (equal.1 (lengths.1 h)))

shown_status-enforced :
    (failed : Bool) (reason : Option String) (status : TelemetryStatus)
    → ((shown_status failed reason status).is_enforced ≡ true)
      ↔ ((failed ≡ false) × (reason ≡ none) × (status.is_enforced ≡ true))
unfolding shown_status
shown_status-enforced true reason status = (λ h. cc, λ h. cc)
shown_status-enforced false none status = (λ h. (refl, refl, h), λ h. h.2)
shown_status-enforced false (some r) status = (λ h. cc, λ h. cc)

-- What must hold for a snapshot to claim enforcement.
pub record EnforcementIsKnown (readers : Readers) (session : String) (t : AdmissionTelemetry)
    : Type 0 where
  pub status : ReportsEnforced readers.read_status
  pub leases : ReportsLeases (read_status_safely readers.read_status).mode readers.read_leases
  pub no_conflict : t.projection_reason ≡ none
  pub resolver : ResolverAnswers session (readers.resolve_root session)
  pub ledger :
      LedgerAnswers readers.read_root_ledger session
        (root_asked readers t (read_snapshot_inputs readers).leases session)

or-false : (a b : Bool) → ((a || b) ≡ false) ↔ ((a ≡ false) × (b ≡ false))
or-false true b = (λ h. cc, λ h. cc)
or-false false b = (λ h. (refl, h), λ h. h.1)

no_throw : (status : Answer RawStatus) → ReportsEnforced status → has_thrown status ≡ false
no_throw throws h = absurd h
no_throw (answers status) h = refl

module _ (to_iso : ℕ → String) (readers : Readers) (session : String) (t : AdmissionTelemetry) where
  abbrev found : Option String × Bool
  found = find_root readers t (read_snapshot_inputs readers).leases session

  abbrev failures : Bool
  failures =
      (read_snapshot_inputs readers).has_failed
      || found.1
      || (find_ledger readers session found.0).has_failed

  snapshot-status :
      (snapshot to_iso readers session t).status
      ≡ shown_status failures t.projection_reason (read_snapshot_inputs readers).status
  unfolding snapshot show
  snapshot-status = refl

  -- A snapshot claims enforcement exactly when the authority reports a strict or draining mode that
  -- enforces, every lease that it reports is well formed, the resolver answers where the session has a
  -- name, the ledger answers, for the root that is found for the session or else for the session itself,
  -- with no row or with a sound one, of that root where it was found, and no conflict of roots was met.
  pub snapshot_enforcement_decides :
      ((snapshot to_iso readers session t).status.is_enforced ≡ true)
      ↔ EnforcementIsKnown readers session t
  unfolding read_snapshot_inputs
  snapshot_enforcement_decides =
      let inputs = read_snapshot_inputs readers in
      let view = find_ledger readers session found.0 in
      let fallback = (read_status_safely readers.read_status).mode in
      let decides = shown_status-enforced failures t.projection_reason inputs.status in
      let all = or-false (inputs.has_failed || found.1) view.has_failed in
      let answered =
        or-false (has_thrown readers.read_status)
          (read_leases_safely fallback readers.read_leases).1 in
      let reads = or-false inputs.has_failed found.1 in
      let reported = status-ReportsEnforced readers.read_status in
      let resolved = find_root-answers readers t inputs.leases session in
      let found_row = find_ledger-answers readers session found.0 in
      let listed = leases-ReportsLeases fallback readers.read_leases in
      rw snapshot-status (
        (λ h.
            let parts = decides.0 h in
            let views = all.0 parts.0 in
            let sound = reads.0 views.0 in
            record {
              status = reported.0 parts.2;
              leases = listed.0 (answered.0 sound.0).1;
              no_conflict = parts.1;
              resolver = resolved.0 sound.1;
              ledger =
                  subst (LedgerAnswers readers.read_root_ledger session)
                    (find_root-root_asked readers t inputs.leases session) (found_row.0 views.1);
            }),
        (λ k. decides.1 (
          all.1 (
            reads.1 (
              answered.1 (no_throw readers.read_status k.status, listed.1 k.leases),
              resolved.1 k.resolver,
            ),
            found_row.1 (
                subst (LedgerAnswers readers.read_root_ledger session)
                  (sym (find_root-root_asked readers t inputs.leases session)) k.ledger),
          ),
          k.no_conflict,
          reported.1 k.status,
        )),
      )

shown_status-conflict :
    (failed : Bool) (reason : Option String) (status : TelemetryStatus)
    → (elim reason [ none ↦ false | some _ ↦ true ]) ≡ true
    → ((shown_status failed reason status).mode ≡ unavailable)
      × ((shown_status failed reason status).is_enforced ≡ false)
unfolding shown_status
shown_status-conflict true reason status h = (refl, refl)
shown_status-conflict false none status h = cc
shown_status-conflict false (some r) status h = (refl, refl)

-- An event that names a root other than the one remembered for its parent session ends every claim
-- of enforcement: whatever events come later and whatever the readers answer, a snapshot for any
-- session says that admission is unavailable and not enforced.
pub conflict_ends_enforcement :
    (to_iso : ℕ → String) (input : AdmissionTelemetryEventInput)
    (later : List AdmissionTelemetryEventInput) (t : AdmissionTelemetry)
    (root parent other : String) (readers : Readers) (session : String)
    → nullable_id input.root_id ≡ some root
    → nullable_id input.parent_session_id ≡ some parent
    → lookup parent t.session_roots ≡ some other
    → other ≢ root
    → let shown = snapshot to_iso readers session (record_all to_iso (input ∷ later) t) in
      (shown.status.mode ≡ unavailable) × (shown.status.is_enforced ≡ false)
unfolding record_all
conflict_ends_enforcement to_iso input later t root parent other readers session r p h d =
    let u = (record_event to_iso input t).0 in
    let met = record_event-conflict to_iso input t root parent other r p h d in
    let kept = (record_all-Extends to_iso later u).conflict met in
    let t' = record_all to_iso later u in
    rw (snapshot-status to_iso readers session t')
      (shown_status-conflict _ t'.projection_reason _ kept)
