-- ===== src/Authority/Commit.antt =====
-- authority.ts, the end of an acquisition: the insertion of the lease after the row was stored.
use dsh_subagent_admission.Prelude.{
  ◌≡◌, refl, ap, ◌∙◌, ◌⊎◌, inl, inr, String, Option, none, some, Bool, true, false, List, [], ◌∷◌,
  ◌++◌, Number, is_empty, is_safe_nonnegative, arith, eq_iff, if◌then◌else◌, ok, err, Bool-cases,
}
use dsh_subagent_admission.Vocabulary.{admission_state_io}
use dsh_subagent_admission.Leases.{
  binding_conflict, is_valid_insert, claimed_child, is_claimed, new_lease, inserted, insert_lease,
  either_child,
}
use dsh_subagent_admission.Leases.Invariant.{IsValid}
use dsh_subagent_admission.Leases.Contract.{insert_lease_decides}
use dsh_subagent_admission.Authority.{
  SubagentAdmissionRequest, Thrown, Diagnostic, refused, rejected, granted, AdmissionAuthority,
  is_cold_resume, is_valid_request, close_admission, post_commit_lease_insertion_failed,
}
use dsh_subagent_admission.Authority.Section.{
  is_aborted_at_catch, Signal, catch_error, deny_as, lease_input, insert_step,
}
use dsh_subagent_admission.Authority.Effects.Entry.{close_admission-frame}
use dsh_subagent_admission.Authority.Effects.Insertion.{insert_step-ok, insert_step-err}
use dsh_subagent_admission.Authority.Closing.{permits_granted, permits_granted-append}
use dsh_subagent_admission.Authority.Closing.End.{close_admission-closed}

-- A validated request makes a valid lease.
lease_input-valid :
    (request : SubagentAdmissionRequest) (root : String) (now : Number)
    → is_valid_request request ≡ true
    → is_empty root ≡ false
    → is_safe_nonnegative now ≡ true
    → is_valid_insert (lease_input request root now) ≡ true
unfolding is_valid_request is_valid_insert lease_input
lease_input-valid request root now v r n = go request.child_session_id refl
  where
    go :
        (o : Option String)
        → request.child_session_id ≡ o
        → is_valid_insert (lease_input request root now) ≡ true
    go none e = ground (arith, v, r, n, e)
    go (some child) e = ground (arith, v, r, n, e, eq_iff child child)

either_child-if : (o : Option String) (t : Bool) → either_child o (if t then o else none) ≡ o
either_child-if none true = refl
either_child-if none false = refl
either_child-if (some child) t = refl

-- The child that the lease will claim is that of the request.
claimed_child-lease_input :
    (request : SubagentAdmissionRequest) (root : String) (now : Number)
    → claimed_child (lease_input request root now) ≡ request.child_session_id
unfolding lease_input
claimed_child-lease_input request root now =
    either_child-if request.child_session_id (is_cold_resume request.operation)

-- An error grants nothing, and leaves the registry and `admissionClosed` as they are.
catch_error-frame :
    (signal : Signal) (request : SubagentAdmissionRequest) (root : String)
    (pending : List Diagnostic) (thrown : Thrown) (b : AdmissionAuthority)
    → let c = catch_error signal request root pending thrown b in
      (c.leases ≡ b.leases)
      × (c.is_closed ≡ b.is_closed)
      × (permits_granted c.settled ≡ permits_granted b.settled)
unfolding catch_error
catch_error-frame signal request root pending thrown b =
    elim (Bool-cases (is_aborted_at_catch signal)) [
      | inl e ↦
          rw (e, catch_error)
            (refl, refl, permits_granted-append b.settled (rejected request thrown) ∙ omega arith)
      | inr e ↦
          rw (e, catch_error)
            (refl, refl, permits_granted-append b.settled (refused request _) ∙ omega arith)
    ]

module _ (a : AdmissionAuthority) (v : IsValid a.leases) (request : SubagentAdmissionRequest)
    (root : String) (now : Number) (valid : is_valid_request request ≡ true)
    (rooted : is_empty root ≡ false) (timed : is_safe_nonnegative now ≡ true) where
  abbrev is_taken : Bool
  is_taken = is_claimed request.child_session_id a.leases.child_claims

  insertion_taken :
      is_taken ≡ true → insert_lease a.leases (lease_input request root now) ≡ err binding_conflict
  insertion_taken h =
      insert_lease_decides a.leases (lease_input request root now) v
      ∙ rw
          (
            lease_input-valid request root now valid rooted timed,
            claimed_child-lease_input request root now,
            h,
          )
          refl

  insertion_free :
      is_taken ≡ false
      → insert_lease a.leases (lease_input request root now)
        ≡ ok (
          new_lease a.leases (lease_input request root now),
          inserted a.leases (lease_input request root now),
        )
  insertion_free h =
      insert_lease_decides a.leases (lease_input request root now) v
      ∙ rw
          (
            lease_input-valid request root now valid rooted timed,
            claimed_child-lease_input request root now,
            h,
          )
          refl

  -- At the end of a validated acquisition, whether its row was just stored or it resumes, the permit
  -- is granted exactly if no live lease claims its child at that moment; if one does, because it was
  -- bound in the meantime, no permit is granted and admission is closed.
  pub insertion_decides :
      (signal : Signal)
      → let b = insert_step signal request root now a in
        ((is_claimed request.child_session_id a.leases.child_claims ≡ false)
          × (b.settled
              ≡ a.settled
                ++ granted request (new_lease a.leases (lease_input request root now)) ∷ [])
          × (b.leases ≡ inserted a.leases (lease_input request root now))
          × (b.is_closed ≡ a.is_closed))
        ⊎ ((is_claimed request.child_session_id a.leases.child_claims ≡ true)
            × (permits_granted b.settled ≡ permits_granted a.settled)
            × (b.leases ≡ (close_admission a).leases)
            × (b.is_closed ≡ true))
  insertion_decides signal = elim (Bool-cases is_taken) [
    | inr free ↦
        let same = insert_step-ok a signal request root now _ _ (insertion_free free) in
        inl (
          free,
          ap (λ (t : AdmissionAuthority). t.settled) same,
          ap (λ (t : AdmissionAuthority). t.leases) same,
          ap (λ (t : AdmissionAuthority). t.is_closed) same,
        )
    | inl taken ↦
        let closed = close_admission a in
        let same =
          insert_step-err a signal request root now binding_conflict (insertion_taken taken) in
        let (l, c, p) =
          catch_error-frame signal request root (post_commit_lease_insertion_failed ∷ [])
            (deny_as a admission_state_io request root) closed in
        inr (
          taken,
          ap (λ (t : AdmissionAuthority). permits_granted t.settled) same
              ∙ p
              ∙ ap permits_granted (close_admission-frame a v).3,
          ap (λ (t : AdmissionAuthority). t.leases) same ∙ l,
          ap (λ (t : AdmissionAuthority). t.is_closed) same ∙ c ∙ close_admission-closed a,
        )
  ]
