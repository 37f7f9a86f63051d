-- ===== src/Authority/Closing/Permit.antt =====
-- authority.ts, the calls of a permit after admission was closed.
use dsh_subagent_admission.Prelude.{
  ◌≡◌, refl, ap, ◌∙◌, inl, inr, String, Option, none, some, true, false, List, lookup, Result, ok,
  err, Bool-cases, Option-cases, Result-cases,
}
use dsh_subagent_admission.Leases.{
  LeaseError, ActiveLease, LeaseBindInspection, available, already_bound,
}
use dsh_subagent_admission.Leases.Operations.{inspect_binding, bind_lease, remove_lease}
use dsh_subagent_admission.Resolver.{DurableRootResolver, bind_child, has_other_parent}
use dsh_subagent_admission.Authority.{
  Job, ReleaseReason, Release, under_way, fulfilled, failed, AdmissionAuthority,
}
use dsh_subagent_admission.Authority.Permits.{
  RuntimeReason, binding_input, bind_in_registry, bind_available, bind_lease_child, permit_bind,
  permit_release, release_lease,
}
use dsh_subagent_admission.Authority.Closing.{closed_again, Lets, same-Lets, kept-Lets}

module _ (a : AdmissionAuthority) (c : a.is_closed ≡ true) where
  bind_in_registry-Lets :
      (lease : ActiveLease) (child : String) (resolver : DurableRootResolver)
      → Lets a (bind_in_registry lease child (record a { resolver = resolver })).1
  unfolding bind_in_registry
  bind_in_registry-Lets lease child resolver =
      elim (Result-cases (bind_lease a.leases lease.permit_id child)) [
        | inr (x, e) ↦ rw (e, bind_in_registry) (kept-Lets a c _ c refl refl)
        | inl ((result, leases), e) ↦ elim (Option-cases (lookup lease.permit_id leases.leases)) [
          | inl f ↦ rw (e, f, bind_in_registry) (kept-Lets a c _ c refl refl)
          | inr (live, f) ↦ rw (e, f, bind_in_registry) (kept-Lets a c _ c refl refl)
        ]
      ]

  bind_available-Lets :
      (lease : ActiveLease) (child : String) (local_parent : Option String)
      → Lets a (bind_available lease child local_parent a).1
  unfolding bind_available
  bind_available-Lets lease child local_parent =
      elim (Result-cases (bind_child a.resolver (binding_input lease child local_parent))) [
        | inr (x, e) ↦ rw (e, bind_available) (same-Lets a c)
        | inl (resolver, e) ↦ rw (e, bind_available) (bind_in_registry-Lets lease child resolver)
      ]

  bind_inspected-Lets :
      (lease : ActiveLease) (child : String) (local_parent : Option String)
      (i : Result LeaseError LeaseBindInspection)
      → inspect_binding a.leases lease.permit_id child ≡ i
      → has_other_parent local_parent lease.parent_session_id ≡ false
      → Lets a (bind_lease_child lease child local_parent a).1
  unfolding bind_lease_child
  bind_inspected-Lets lease child local_parent (err x) e f =
      rw (f, e, bind_lease_child) (same-Lets a c)
  bind_inspected-Lets lease child local_parent (ok already_bound) e f =
      rw (f, e, bind_lease_child) (same-Lets a c)
  bind_inspected-Lets lease child local_parent (ok available) e f =
      rw (f, e, bind_lease_child) (bind_available-Lets lease child local_parent)

  pub permit_bind-Lets :
      (lease : ActiveLease) (child : String) (local_parent : Option String)
      → Lets a (permit_bind lease child local_parent a).1
  unfolding permit_bind bind_lease_child
  permit_bind-Lets lease child local_parent =
      elim (Option-cases (lookup lease.permit_id a.releases)) [
        | inr (x, e) ↦ rw (e, permit_bind) (same-Lets a c)
        | inl e ↦ elim (Bool-cases (has_other_parent local_parent lease.parent_session_id)) [
          | inl f ↦ rw (e, permit_bind, f, bind_lease_child) (same-Lets a c)
          | inr f ↦
              rw (e, permit_bind)
                (bind_inspected-Lets lease child local_parent
                  (inspect_binding a.leases lease.permit_id child) refl f)
        ]
      ]

  pub permit_release-Lets :
      (lease : ActiveLease) (reason : RuntimeReason) → Lets a (permit_release lease reason a)
  unfolding permit_release
  permit_release-Lets lease reason = go (lookup lease.permit_id a.releases) refl
    where
      go :
          (o : Option Release)
          → lookup lease.permit_id a.releases ≡ o
          → Lets a (permit_release lease reason a)
      go none e = rw (e, permit_release) (kept-Lets a c _ c refl refl)
      go (some (under_way reasons)) e = rw (e, permit_release) (kept-Lets a c _ c refl refl)
      go (some fulfilled) e = rw (e, permit_release) (kept-Lets a c _ c refl refl)
      go (some failed) e = rw (e, permit_release) (same-Lets a c)

  pub release_lease-Lets :
      (lease : ActiveLease) (reason : ReleaseReason) (jobs : List Job)
      → Lets a (release_lease lease reason (record a { tail = jobs }))
  unfolding release_lease
  release_lease-Lets lease reason jobs =
      elim (Result-cases (remove_lease a.leases lease.permit_id)) [
        | inr (x, e) ↦
            let b = record a { tail = jobs } in
            let again = closed_again b c in
            rw (e, release_lease)
              (kept-Lets a c _ (ap (λ (t : AdmissionAuthority). t.is_closed) again ∙ c)
                (ap (λ (t : AdmissionAuthority). t.settled) again)
                (ap (λ (t : AdmissionAuthority). t.section) again))
        | inl ((removal, leases, waiters), e) ↦ rw (e, release_lease) (kept-Lets a c _ c refl refl)
      ]
