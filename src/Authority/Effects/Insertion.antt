-- ===== src/Authority/Effects/Insertion.antt =====
-- authority.ts, the effect of the insertion of a lease, and of a cold resume.
use dsh_subagent_admission.Prelude.{
  ◌+◌, ◌≡◌, refl, sym, ap, subst, ◌∙◌, ◌⊎◌, inl, inr, String, none, true, false, [], ◌∷◌, ◌++◌,
  insert, arith, ◌==◌, if◌then◌else◌, Number, Result, ok, err,
}
use dsh_subagent_admission.Vocabulary.{admission_state_io}
use dsh_subagent_admission.Leases.{
  LeaseError, ActiveLease, ActiveLeaseRegistry, insert_lease, new_lease,
}
use dsh_subagent_admission.Leases.Invariant.{IsValid}
use dsh_subagent_admission.Leases.Contract.{capacity_decides}
use dsh_subagent_admission.Leases.Effects.{Fewer, Entered, Fewer-same, insert_lease-ok}
use dsh_subagent_admission.Authority.{
  SubagentAdmissionRequest, granted, AdmissionAuthority, is_cold_resume, accepted_event,
  event_for_lease, lease_thrown, post_commit_lease_insertion_failed, close_admission,
}
use dsh_subagent_admission.Authority.Section.{
  deny_as, Signal, catch_error, check_capacity, lease_input, insert_step, resume_step,
}
use dsh_subagent_admission.Authority.Effects.{
  new_grants, new_grants-append, HasRoom, IsCalm, NoGrant, Effect, calm, resumes,
  catch_error-Caught,
}
use dsh_subagent_admission.Authority.Effects.Entry.{
  catch-Effect, closed-Fewer, close_admission-frame,
}

-- An end of the section without a lease.
pub record Stopped (a b : AdmissionAuthority) : Type 0 where
  pub limits : b.limits ≡ a.limits
  pub ledger : b.ledger ≡ a.ledger
  pub leases : Fewer a.leases b.leases
  pub section : b.section ≡ none
  pub grants : NoGrant a b

-- An end of the section with a lease.
pub record Inserted (request : SubagentAdmissionRequest) (root : String) (a b : AdmissionAuthority)
    : Type 0 where
  pub limits : b.limits ≡ a.limits
  pub ledger : b.ledger ≡ a.ledger
  pub leases : Entered root a.leases b.leases
  pub section : b.section ≡ none
  pub grants :
      (r : String)
      → new_grants r b.settled
        ≡ new_grants r a.settled
          + (if is_cold_resume request.operation then 0 else if root == r then 1 else 0)

pub insert_step-err :
    (a : AdmissionAuthority) (signal : Signal) (request : SubagentAdmissionRequest) (root : String)
    (now : Number) (x : LeaseError)
    → insert_lease a.leases (lease_input request root now) ≡ err x
    → insert_step signal request root now a
      ≡ catch_error signal request root
          (post_commit_lease_insertion_failed ∷ [])
          (deny_as a admission_state_io request root)
          (close_admission a)
unfolding insert_step
insert_step-err a signal request root now x e = rw (e, insert_step) refl

pub insert_step-ok :
    (a : AdmissionAuthority) (signal : Signal) (request : SubagentAdmissionRequest) (root : String)
    (now : Number) (lease : ActiveLease) (leases : ActiveLeaseRegistry)
    → insert_lease a.leases (lease_input request root now) ≡ ok (lease, leases)
    → insert_step signal request root now a ≡ record a {
      leases = leases;
      section = none;
      permits = insert lease.permit_id lease a.permits;
      settled = a.settled ++ granted request lease ∷ [];
      events =
          a.events ++ event_for_lease accepted_event lease lease.child_session_id none false ∷ [];
    }
unfolding insert_step
insert_step-ok a signal request root now lease leases e = rw (e, insert_step) refl

inserts-Entered :
    (a : AdmissionAuthority) (v : IsValid a.leases) (lease : ActiveLease)
    (leases : ActiveLeaseRegistry) (request : SubagentAdmissionRequest) (root : String)
    (now : Number)
    → insert_lease a.leases (lease_input request root now) ≡ ok (lease, leases)
    → Entered root a.leases leases × (lease.root_session_id ≡ root)
unfolding lease_input new_lease
inserts-Entered a v lease leases request root now e =
    let (l, h, n) = insert_lease-ok a.leases leases (lease_input request root now) lease v e in
    (n, ap (λ (x : ActiveLease). x.root_session_id) l)

pub insert_step-cases :
    (a : AdmissionAuthority) (v : IsValid a.leases) (signal : Signal)
    (request : SubagentAdmissionRequest) (root : String) (now : Number)
    → Inserted request root a (insert_step signal request root now a)
      ⊎ Stopped a (insert_step signal request root now a)
insert_step-cases a v signal request root now =
    go (insert_lease a.leases (lease_input request root now)) refl
  where
    go :
        (i : Result LeaseError (ActiveLease × ActiveLeaseRegistry))
        → insert_lease a.leases (lease_input request root now) ≡ i
        → Inserted request root a (insert_step signal request root now a)
          ⊎ Stopped a (insert_step signal request root now a)
    go (ok (lease, leases)) e =
        let (entered, rooted) = inserts-Entered a v lease leases request root now e in
        inl (
          subst (Inserted request root a)
            (sym (insert_step-ok a signal request root now lease leases e))
            (record {
              limits = refl;
              ledger = refl;
              leases = entered;
              section = refl;
              grants = λ r.
                  new_grants-append r a.settled (granted request lease)
                  ∙ ap
                      (λ t.
                        new_grants r a.settled
                        + (if is_cold_resume request.operation then 0 else if t == r then 1 else 0))
                      rooted;
            }))
    go (err x) e =
        let (l, m, s, t) = close_admission-frame a v in
        let c =
          catch_error-Caught signal request root (post_commit_lease_insertion_failed ∷ [])
            (deny_as a admission_state_io request root) (close_admission a) in
        inr (
          subst (Stopped a) (sym (insert_step-err a signal request root now x e)) (record {
            limits = c.limits ∙ l;
            ledger = c.ledger ∙ m;
            leases = subst (Fewer a.leases) (sym c.leases) (closed-Fewer a v);
            section = c.section;
            grants = λ r. c.grants r ∙ ap (new_grants r) t;
          }))

resume_step-err :
    (a : AdmissionAuthority) (signal : Signal) (request : SubagentAdmissionRequest) (root : String)
    (now : Number) (x : LeaseError)
    → check_capacity a root ≡ err x
    → resume_step signal request root now a ≡ catch_error signal request root [] (lease_thrown x) a
unfolding resume_step
resume_step-err a signal request root now x e = rw (e, resume_step) refl

resume_step-ok :
    (a : AdmissionAuthority) (signal : Signal) (request : SubagentAdmissionRequest) (root : String)
    (now : Number)
    → check_capacity a root ≡ ok tt
    → resume_step signal request root now a ≡ insert_step signal request root now a
unfolding resume_step
resume_step-ok a signal request root now e = rw (e, resume_step) refl

-- The capacity check passes only with room.
pub check_capacity-HasRoom :
    (a : AdmissionAuthority) (root : String) → check_capacity a root ≡ ok tt → HasRoom a root
unfolding check_capacity
check_capacity-HasRoom a root e = (capacity_decides a.leases root a.limits).0.0 e

module _ (a : AdmissionAuthority) (v : IsValid a.leases) (signal : Signal)
    (request : SubagentAdmissionRequest) (root : String) where
  pub Stopped-Effect : (b : AdmissionAuthority) → Stopped a b → Effect a b
  Stopped-Effect b s =
      calm s.limits s.ledger s.leases (inr (subst IsCalm (sym s.section) tt)) s.grants

  pub resume_step-Effect :
      (now : Number)
      → is_cold_resume request.operation ≡ true
      → Effect a (resume_step signal request root now a)
  resume_step-Effect now cold = go (check_capacity a root) refl
    where
      go :
          (i : Result LeaseError (Unit {0}))
          → check_capacity a root ≡ i
          → Effect a (resume_step signal request root now a)
      go (err x) e = subst (Effect a) (sym (resume_step-err a signal request root now x e)) (
          catch-Effect a v signal request root [] (lease_thrown x) a refl refl
            (Fewer-same a.leases v) (λ r. refl))
      go (ok _) e =
          subst (Effect a) (sym (resume_step-ok a signal request root now e))
            (elim (insert_step-cases a v signal request root now) [
              | inl i ↦
                  resumes root i.limits i.ledger (check_capacity-HasRoom a root e) i.leases
                    i.section
                    (λ r.
                      i.grants r
                      ∙ ap
                          (λ t.
                            new_grants r a.settled + (if t then 0 else if root == r then 1 else 0))
                          cold
                      ∙ omega arith)
              | inr s ↦ Stopped-Effect (insert_step signal request root now a) s
            ])
