-- ===== src/Authority/Bindings.antt =====
-- authority.ts, `bindChild` of a permit: its outcomes, in the registry and in the resolver.
use dsh_subagent_admission.Prelude.{
  ◌≡◌, refl, sym, ap, subst, ◌∙◌, ◌⊎◌, inl, inr, String, Option, none, some, false, [], ◌∷◌, ◌++◌,
  lookup, lookup-insert, arith, eq_iff, Result, ok, err, Bool-cases, Option-cases, Result-cases,
}
use dsh_subagent_admission.Vocabulary.{AdmissionDenied}
use dsh_subagent_admission.Leases.{
  LeaseError, ActiveLease, ActiveLeaseRegistry, available, already_bound, LeaseBindInspection,
}
use dsh_subagent_admission.Leases.Operations.{inspect_binding, inspect_lease, with_child, set_child}
use dsh_subagent_admission.Leases.Invariant.{IsValid}
use dsh_subagent_admission.Leases.Invariant.Bind.{
  CanBind, bound_registry, set_child_lem, inspect_binding-available, bind_lease-available,
}
use dsh_subagent_admission.Resolver.{DurableRootResolver, bind_child, has_other_parent}
use dsh_subagent_admission.Resolver.Bindings.{claimed, bind_child_decides}
use dsh_subagent_admission.Resolver.Finality.{Bound-claims}
use dsh_subagent_admission.Authority.{bound_event, AdmissionAuthority, event_for_lease}
use dsh_subagent_admission.Authority.Permits.{
  binding_conflict_of, binding_input, bind_in_registry, bind_available, bind_lease_child,
  permit_bind,
}

module _ (a : AdmissionAuthority) (v : IsValid a.leases) (lease : ActiveLease) (child : String)
    (local_parent : Option String) where
  -- What a binding did: nothing, with the conflict thrown; nothing, as it was there already; or both
  -- of its parts.
  pub data Outcome : Result AdmissionDenied (Unit {0}) × AdmissionAuthority → Type 0 where
    conflicts : Outcome (err (binding_conflict_of a lease), a)
    repeats : inspect_binding a.leases lease.permit_id child ≡ ok already_bound → Outcome (ok tt, a)
    binds :
        {b : AdmissionAuthority} (live : ActiveLease)
        → CanBind a.leases lease.permit_id child live
        → b.leases ≡ set_child a.leases lease.permit_id child
        → bind_child a.resolver (binding_input lease child local_parent) ≡ ok b.resolver
        → b.settled ≡ a.settled
        → b.ledger ≡ a.ledger
        → b.events
          ≡ a.events
            ++ event_for_lease bound_event (with_child live child) (some child) none false ∷ []
        → Outcome (ok tt, b)

  bind_in_registry-Outcome :
      (resolver : DurableRootResolver)
      → inspect_binding a.leases lease.permit_id child ≡ ok available
      → bind_child a.resolver (binding_input lease child local_parent) ≡ ok resolver
      → Outcome (bind_in_registry lease child (record a { resolver = resolver }))
  unfolding bind_in_registry bound_registry
  bind_in_registry-Outcome resolver i e =
      let id = lease.permit_id in
      let (live, c) = inspect_binding-available a.leases id child i in
      let found : lookup id (set_child a.leases id child).leases ≡ some (with_child live child) =
        ap (λ (t : ActiveLeaseRegistry). lookup id t.leases)
          (set_child_lem a.leases v id child live c)
        ∙ ground
            (arith, lookup-insert id id (with_child live child) a.leases.leases, eq_iff id id) in
      rw (bind_lease-available a.leases id child i, found, bind_in_registry)
        (binds live c refl e refl refl refl)

  bind_available-Outcome :
      inspect_binding a.leases lease.permit_id child ≡ ok available
      → Outcome (bind_available lease child local_parent a)
  unfolding bind_available
  bind_available-Outcome i =
      elim (Result-cases (bind_child a.resolver (binding_input lease child local_parent))) [
        | inr (x, e) ↦ rw (e, bind_available) conflicts
        | inl (resolver, e) ↦ rw (e, bind_available) (bind_in_registry-Outcome resolver i e)
      ]

  bind_inspected-Outcome :
      (i : Result LeaseError LeaseBindInspection)
      → inspect_binding a.leases lease.permit_id child ≡ i
      → has_other_parent local_parent lease.parent_session_id ≡ false
      → Outcome (bind_lease_child lease child local_parent a)
  unfolding bind_lease_child
  bind_inspected-Outcome (err x) e f = rw (f, e, bind_lease_child) conflicts
  bind_inspected-Outcome (ok already_bound) e f = rw (f, e, bind_lease_child) (repeats e)
  bind_inspected-Outcome (ok available) e f = rw (f, e, bind_lease_child) (bind_available-Outcome e)

  bind_lease_child-Outcome : Outcome (bind_lease_child lease child local_parent a)
  unfolding bind_lease_child
  bind_lease_child-Outcome =
      elim (Bool-cases (has_other_parent local_parent lease.parent_session_id)) [
        | inl f ↦ rw (f, bind_lease_child) conflicts
        | inr f ↦ bind_inspected-Outcome (inspect_binding a.leases lease.permit_id child) refl f
      ]

  permit_bind-Outcome : Outcome (permit_bind lease child local_parent a)
  unfolding permit_bind
  permit_bind-Outcome = elim (Option-cases (lookup lease.permit_id a.releases)) [
    | inl e ↦ rw (e, permit_bind) bind_lease_child-Outcome
    | inr (x, e) ↦ rw (e, permit_bind) conflicts
  ]

  Outcome-err :
      (o : Result AdmissionDenied (Unit {0}) × AdmissionAuthority) (d : AdmissionDenied)
      → Outcome o
      → o.0 ≡ err d
      → (o.1 ≡ a) × (d ≡ binding_conflict_of a lease)
  Outcome-err o d conflicts e = (refl, denied e)
    where
      denied :
          {x y : AdmissionDenied}
          → ◌≡◌ {A = Result AdmissionDenied (Unit {0})} (err x) (err y)
          → y ≡ x
      denied q = cc
  Outcome-err o d (repeats i) e = absurd (ground (arith, e))
  Outcome-err o d (binds live c l r s m n) e = absurd (ground (arith, e))

  -- The lease of the permit is live and bound to the child.
  abbrev pub IsBoundIn : ActiveLeaseRegistry → Type 0
  IsBoundIn g =
      (live : ActiveLease) × (lookup lease.permit_id g.leases ≡ some live)
      × (live.child_session_id ≡ some child)

  already-IsBoundIn :
      inspect_binding a.leases lease.permit_id child ≡ ok already_bound → IsBoundIn a.leases
  unfolding inspect_binding inspect_lease
  already-IsBoundIn i = elim (Option-cases (lookup lease.permit_id a.leases.leases)) [
    | inl e ↦ absurd (ground (arith, i, e))
    | inr (live, e) ↦ elim (Option-cases live.child_session_id) [
      | inl q ↦ absurd (ground (arith, i, e, q))
      | inr (x, q) ↦ (live, e, ground (arith, i, e, q, eq_iff x child))
    ]
  ]

  set_child-IsBoundIn :
      (live : ActiveLease)
      → CanBind a.leases lease.permit_id child live
      → IsBoundIn (set_child a.leases lease.permit_id child)
  unfolding bound_registry
  set_child-IsBoundIn live c =
      let id = lease.permit_id in
      (
        with_child live child,
        ap (λ (t : ActiveLeaseRegistry). lookup id t.leases)
              (set_child_lem a.leases v id child live c)
            ∙ ground
                (arith, lookup-insert id id (with_child live child) a.leases.leases, eq_iff id id),
        refl,
      )

  Outcome-ok :
      (o : Result AdmissionDenied (Unit {0}) × AdmissionAuthority)
      → Outcome o
      → o.0 ≡ ok tt
      → IsBoundIn o.1.leases
        × ((o.1 ≡ a)
            ⊎ (lookup child o.1.resolver.bound_children
                ≡ some (claimed (binding_input lease child local_parent))))
  Outcome-ok o conflicts e = absurd (ground (arith, e))
  Outcome-ok o (repeats i) e = (already-IsBoundIn i, inl refl)
  Outcome-ok o (binds {b = b} live c l r s m n) e = (
    subst IsBoundIn (sym l) (set_child-IsBoundIn live c),
    inr (
        Bound-claims a.resolver (binding_input lease child local_parent) b.resolver (
          (bind_child_decides a.resolver (binding_input lease child local_parent) b.resolver).0 r)),
  )

  -- A binding that throws, whichever part refuses it, throws the conflict of its lease and changes
  -- nothing: not the resolver, not the registry, and no event.
  pub permit_bind_atomic :
      (d : AdmissionDenied)
      → (permit_bind lease child local_parent a).0 ≡ err d
      → ((permit_bind lease child local_parent a).1 ≡ a) × (d ≡ binding_conflict_of a lease)
  permit_bind_atomic d e = Outcome-err _ d permit_bind-Outcome e

  -- After a binding that succeeds, the permit's lease is live and has the child; and either nothing
  -- changed, since it had it before, or the resolver holds the child under the lease's root and
  -- parent.
  pub permit_bind_agrees :
      (permit_bind lease child local_parent a).0 ≡ ok tt
      → IsBoundIn (permit_bind lease child local_parent a).1.leases
        × (((permit_bind lease child local_parent a).1 ≡ a)
            ⊎ (lookup child (permit_bind lease child local_parent a).1.resolver.bound_children
                ≡ some (claimed (binding_input lease child local_parent))))
  permit_bind_agrees e = Outcome-ok _ permit_bind-Outcome e
