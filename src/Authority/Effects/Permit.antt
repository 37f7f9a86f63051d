-- ===== src/Authority/Effects/Permit.antt =====
-- authority.ts, the effects of a permit's calls.
use dsh_subagent_admission.Prelude.{
  ◌≡◌, refl, ap, sym, subst, inl, inr, String, Option, none, some, false, List, lookup, Result, ok,
  err, Bool-cases, Option-cases, Result-cases,
}
use dsh_subagent_admission.Leases.{
  LeaseError, ActiveLease, available, already_bound, LeaseBindInspection,
}
use dsh_subagent_admission.Leases.Operations.{bind_lease, remove_lease, inspect_binding}
use dsh_subagent_admission.Leases.Invariant.{IsValid}
use dsh_subagent_admission.Leases.Effects.{Fewer, Fewer-same, bind_lease-Fewer, remove_lease-Fewer}
use dsh_subagent_admission.Resolver.{DurableRootResolver, bind_child, has_other_parent}
use dsh_subagent_admission.Authority.{
  Job, ReleaseReason, Release, under_way, fulfilled, failed, AdmissionAuthority,
}
use dsh_subagent_admission.Authority.Permits.{
  binding_input, bind_in_registry, bind_available, bind_lease_child, permit_bind, permit_release,
  release_lease, RuntimeReason,
}
use dsh_subagent_admission.Authority.Effects.{new_grants, NoGrant, Calms}
use dsh_subagent_admission.Authority.Effects.Entry.{closed-Fewer, close_admission-frame}

module _ (a : AdmissionAuthority) (v : IsValid a.leases) where
  calms :
      {b : AdmissionAuthority}
      → b.limits ≡ a.limits
      → b.ledger ≡ a.ledger
      → Fewer a.leases b.leases
      → b.section ≡ a.section
      → NoGrant a b
      → Calms a b
  calms l m f s g = record { limits = l; ledger = m; fewer = f; section = s; grants = g }

  same-Calms : Calms a a
  same-Calms = calms refl refl (Fewer-same a.leases v) refl (λ r. refl)

  kept-Calms :
      (b : AdmissionAuthority)
      → b.limits ≡ a.limits
      → b.ledger ≡ a.ledger
      → b.leases ≡ a.leases
      → b.section ≡ a.section
      → NoGrant a b
      → Calms a b
  kept-Calms b l m n s g = calms l m (subst (Fewer a.leases) (sym n) (Fewer-same a.leases v)) s g

  bind_in_registry-Calms :
      (lease : ActiveLease) (child : String) (resolver : DurableRootResolver)
      → Calms a (bind_in_registry lease child (record a { resolver = resolver })).1
  unfolding bind_in_registry
  bind_in_registry-Calms lease child resolver =
      let id = lease.permit_id in
      elim (Result-cases (bind_lease a.leases id child)) [
        | inr (x, e) ↦ rw (e, bind_in_registry) (kept-Calms _ refl refl refl refl (λ r. refl))
        | inl ((result, leases), e) ↦
            let fewer = bind_lease-Fewer a.leases leases id child result v e in
            elim (Option-cases (lookup id leases.leases)) [
              | inl f ↦ rw (e, f, bind_in_registry) (calms refl refl fewer refl (λ r. refl))
              | inr (live, f) ↦ rw (e, f, bind_in_registry) (calms refl refl fewer refl (λ r. refl))
            ]
      ]

  bind_available-Calms :
      (lease : ActiveLease) (child : String) (local_parent : Option String)
      → Calms a (bind_available lease child local_parent a).1
  unfolding bind_available
  bind_available-Calms lease child local_parent =
      elim (Result-cases (bind_child a.resolver (binding_input lease child local_parent))) [
        | inr (x, e) ↦ rw (e, bind_available) (same-Calms)
        | inl (resolver, e) ↦ rw (e, bind_available) (bind_in_registry-Calms lease child resolver)
      ]

  bind_inspected-Calms :
      (lease : ActiveLease) (child : String) (local_parent : Option String)
      (i : Result LeaseError LeaseBindInspection)
      → inspect_binding a.leases lease.permit_id child ≡ i
      → has_other_parent local_parent lease.parent_session_id ≡ false
      → Calms a (bind_lease_child lease child local_parent a).1
  unfolding bind_lease_child
  bind_inspected-Calms lease child local_parent (err x) e f =
      rw (f, e, bind_lease_child) (same-Calms)
  bind_inspected-Calms lease child local_parent (ok already_bound) e f =
      rw (f, e, bind_lease_child) (same-Calms)
  bind_inspected-Calms lease child local_parent (ok available) e f =
      rw (f, e, bind_lease_child) (bind_available-Calms lease child local_parent)

  bind_lease_child-Calms :
      (lease : ActiveLease) (child : String) (local_parent : Option String)
      → Calms a (bind_lease_child lease child local_parent a).1
  unfolding bind_lease_child
  bind_lease_child-Calms lease child local_parent =
      elim (Bool-cases (has_other_parent local_parent lease.parent_session_id)) [
        | inl f ↦ rw (f, bind_lease_child) (same-Calms)
        | inr f ↦
            bind_inspected-Calms lease child local_parent
              (inspect_binding a.leases lease.permit_id child) refl f
      ]

  pub permit_bind-Calms :
      (lease : ActiveLease) (child : String) (local_parent : Option String)
      → Calms a (permit_bind lease child local_parent a).1
  unfolding permit_bind
  permit_bind-Calms lease child local_parent =
      elim (Option-cases (lookup lease.permit_id a.releases)) [
        | inl e ↦ rw (e, permit_bind) (bind_lease_child-Calms lease child local_parent)
        | inr (x, e) ↦ rw (e, permit_bind) (same-Calms)
      ]

  pub permit_release-Calms :
      (lease : ActiveLease) (reason : RuntimeReason) → Calms a (permit_release lease reason a)
  unfolding permit_release
  permit_release-Calms lease reason = go (lookup lease.permit_id a.releases) refl
    where
      go :
          (o : Option Release)
          → lookup lease.permit_id a.releases ≡ o
          → Calms a (permit_release lease reason a)
      go none e = rw (e, permit_release) (kept-Calms _ refl refl refl refl (λ r. refl))
      go (some (under_way reasons)) e =
          rw (e, permit_release) (kept-Calms _ refl refl refl refl (λ r. refl))
      go (some fulfilled) e = rw (e, permit_release) (kept-Calms _ refl refl refl refl (λ r. refl))
      go (some failed) e = rw (e, permit_release) (same-Calms)

  pub release_lease-Calms :
      (lease : ActiveLease) (reason : ReleaseReason) (jobs : List Job)
      → Calms a (release_lease lease reason (record a { tail = jobs }))
  unfolding release_lease
  release_lease-Calms lease reason jobs =
      elim (Result-cases (remove_lease a.leases lease.permit_id)) [
        | inr (x, e) ↦
            let b = record a { tail = jobs } in
            let (l, m, s, t) = close_admission-frame b v in
            rw (e, release_lease) (calms l m (closed-Fewer b v) s (λ r. ap (new_grants r) t))
        | inl ((taken, leases, waiters), e) ↦
            rw (e, release_lease)
              (calms refl refl
                (remove_lease-Fewer a.leases leases lease.permit_id taken waiters v e) refl
                (λ r. refl))
      ]
