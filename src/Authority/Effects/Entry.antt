-- ===== src/Authority/Effects/Entry.antt =====
-- authority.ts, the effects of the stretches before the resolver is asked.
use dsh_subagent_admission.Prelude.{
  ◌≡◌, refl, sym, ap, subst, ◌∙◌, ◌⊎◌, inl, inr, String, some, Bool, true, false, List, [], ◌∷◌,
  ◌++◌, arith, if◌then◌else◌, Bool-cases,
}
use dsh_subagent_admission.Vocabulary.{admission_closed}
use dsh_subagent_admission.Leases.Invariant.{IsValid}
use dsh_subagent_admission.Leases.Effects.{Fewer, Fewer-same, mark_draining-Fewer}
use dsh_subagent_admission.Authority.{
  SubagentAdmissionRequest, Thrown, refused, rejected, guarding, Diagnostic, Job, acquiring,
  AdmissionAuthority, is_valid_request, invalid_request, abort_reason, denial, denied_event_of,
  close_admission,
}
use dsh_subagent_admission.Authority.Section.{
  deny_as, Signal, is_aborted, catch_error, acquire, begin, guard_answered,
}
use dsh_subagent_admission.Authority.Effects.{
  new_grants, new_grants-append, IsCalm, NoGrant, Effect, calm, catch_error-Caught,
}

module _ (a : AdmissionAuthority) (v : IsValid a.leases) where
  pub same-Effect : Effect a a
  same-Effect = calm refl refl (Fewer-same a.leases v) (inl refl) (λ r. refl)

  -- An error after updates that the effects do not read.
  pub catch-Effect :
      (signal : Signal) (request : SubagentAdmissionRequest) (root : String)
      (pending : List Diagnostic) (thrown : Thrown) (b : AdmissionAuthority)
      → b.limits ≡ a.limits
      → b.ledger ≡ a.ledger
      → Fewer a.leases b.leases
      → NoGrant a b
      → Effect a (catch_error signal request root pending thrown b)
  catch-Effect signal request root pending thrown b l m f g =
      let c = catch_error-Caught signal request root pending thrown b in
      calm (c.limits ∙ l) (c.ledger ∙ m) (subst (Fewer a.leases) (sym c.leases) f)
        (inr (subst IsCalm (sym c.section) tt)) (λ r. c.grants r ∙ g r)

  -- An update that the effects do not read, but for an answer that is no grant.
  pub calm-Effect :
      (b : AdmissionAuthority)
      → b.limits ≡ a.limits
      → b.ledger ≡ a.ledger
      → b.leases ≡ a.leases
      → (b.section ≡ a.section) ⊎ IsCalm b.section
      → NoGrant a b
      → Effect a b
  calm-Effect b l m n s g = calm l m (subst (Fewer a.leases) (sym n) (Fewer-same a.leases v)) s g

  pub if-Effect :
      (t : Bool) (x y : AdmissionAuthority)
      → Effect a x
      → Effect a y
      → Effect a (if t then x else y)
  if-Effect true x y e f = e
  if-Effect false x y e f = f

  pub acquire-Effect :
      (aborts : Bool) (request : SubagentAdmissionRequest) → Effect a (acquire aborts request a)
  unfolding acquire
  acquire-Effect aborts request = elim (Bool-cases (is_valid_request request)) [
    | inr e ↦
        rw (e, acquire)
          (calm-Effect _ refl refl refl (inl refl) (λ r.
            new_grants-append r a.settled (refused request (invalid_request a.policy_epoch))
            ∙ omega arith))
    | inl e ↦ elim (Bool-cases aborts) [
      | inl f ↦
          rw (e, f, acquire)
            (calm-Effect _ refl refl refl (inl refl)
              (λ r. new_grants-append r a.settled (rejected request abort_reason) ∙ omega arith))
      | inr f ↦
          let d = denial admission_closed request a.policy_epoch "" 0 0 in
          let closed = record a {
            settled = a.settled ++ refused request d ∷ [];
            events = a.events ++ denied_event_of request d ∷ [];
          } in
          let waiting = record a { tail = a.tail ++ acquiring request ∷ [] } in
          rw (e, f, acquire)
            (if-Effect a.is_closed closed waiting
              (calm-Effect closed refl refl refl (inl refl)
                (λ r. new_grants-append r a.settled (refused request d) ∙ omega arith))
              (calm-Effect waiting refl refl refl (inl refl) (λ r. refl)))
    ]
  ]

  pub closed-Fewer : Fewer a.leases (close_admission a).leases
  unfolding close_admission
  closed-Fewer = elim (Bool-cases a.is_closed) [
    | inl e ↦ rw (e, close_admission) (Fewer-same a.leases v)
    | inr e ↦ rw (e, close_admission) (mark_draining-Fewer a.leases v)
  ]

  pub close_admission-frame :
      ((close_admission a).limits ≡ a.limits)
      × ((close_admission a).ledger ≡ a.ledger)
      × ((close_admission a).section ≡ a.section)
      × ((close_admission a).settled ≡ a.settled)
  unfolding close_admission
  close_admission-frame = elim (Bool-cases a.is_closed) [
    | inl e ↦ rw (e, close_admission) (refl, refl, refl, refl)
    | inr e ↦ rw (e, close_admission) (refl, refl, refl, refl)
  ]

  pub close_admission-Effect : Effect a (close_admission a)
  close_admission-Effect =
      let (l, m, s, t) = close_admission-frame in
      calm l m closed-Fewer (inl s) (λ r. ap (new_grants r) t)

  pub begin-Effect :
      (signal : Signal) (request : SubagentAdmissionRequest) (jobs : List Job)
      → Effect a (begin signal request (record a { tail = jobs }))
  unfolding begin
  begin-Effect signal request jobs =
      let b = record a { tail = jobs } in
      let same = Fewer-same a.leases v in
      elim (Bool-cases (is_aborted signal)) [
        | inl e ↦ rw (e, begin) (catch-Effect signal request "" [] _ b refl refl same (λ r. refl))
        | inr e ↦
            let guarded = record b { section = some (guarding request) } in
            let thrown = deny_as b admission_closed request "" in
            rw (e, begin)
              (if-Effect a.is_closed (catch_error signal request "" [] thrown b) guarded
                (catch-Effect signal request "" [] thrown b refl refl same (λ r. refl))
                (calm-Effect guarded refl refl refl (inr tt) (λ r. refl)))
      ]

  pub guard_answered-Effect :
      (signal : Signal) (is_held : Bool) (request : SubagentAdmissionRequest)
      → Effect a (guard_answered signal is_held request a)
  unfolding guard_answered
  guard_answered-Effect signal false request =
      catch-Effect signal request "" [] _ a refl refl (Fewer-same a.leases v) (λ r. refl)
  guard_answered-Effect signal true request = elim (Bool-cases (is_aborted signal)) [
    | inl e ↦
        rw (e, guard_answered)
          (catch-Effect signal request "" [] _ a refl refl (Fewer-same a.leases v) (λ r. refl))
    | inr e ↦ rw (e, guard_answered) (calm-Effect _ refl refl refl (inr tt) (λ r. refl))
  ]
