-- ===== src/Leases/Invariant/Bind.antt =====
-- leases.ts, `bind` and the registry's invariant.
use dsh_subagent_admission.Prelude.{
  ◌≡◌, refl, sym, ap, subst, ◌∙◌, inl, inr, String, none, some, false, lookup, insert, size-replace,
  total-insert, insert-IsMap, lookup-insert, arith, eq_iff, is_empty, ◌==◌, Result, ok, err,
  Option-cases, Bool-cases,
}
use dsh_subagent_admission.StateModel.{permit_name}
use dsh_subagent_admission.Leases.{
  LeaseError, ActiveLease, ActiveLeaseRegistry, LeaseBindResult, bound, duplicate,
  LeaseBindInspection, available, already_bound,
}
use dsh_subagent_admission.Leases.Operations.{
  inspect_lease, inspect_binding, with_child, set_child, bind_lease, differs,
}
use dsh_subagent_admission.Leases.Invariant.{IsValid, of_root}

-- The lease may take this child: it is unbound, and neither it nor another lease says otherwise.
pub record CanBind (g : ActiveLeaseRegistry) (id child : String) (l : ActiveLease) : Type 0 where
  pub found : lookup id g.leases ≡ some l
  pub named : is_empty child ≡ false
  pub unbound : l.child_session_id ≡ none
  pub expects : differs l.expected_child_session_id child ≡ false
  pub unclaimed : differs (lookup child g.child_claims) id ≡ false

inspect_lease-available :
    (g : ActiveLeaseRegistry) (l : ActiveLease) (id child : String)
    → lookup id g.leases ≡ some l
    → inspect_lease g l id child ≡ ok available
    → CanBind g id child l
unfolding inspect_lease
inspect_lease-available g l id child e h = ground arith

pub inspect_binding-found :
    (g : ActiveLeaseRegistry) (id child : String) (l : ActiveLease)
    → lookup id g.leases ≡ some l
    → inspect_binding g id child ≡ inspect_lease g l id child
unfolding inspect_binding
inspect_binding-found g id child l e = rw (e, inspect_binding) refl

pub inspect_binding-available :
    (g : ActiveLeaseRegistry) (id child : String)
    → inspect_binding g id child ≡ ok available
    → (l : ActiveLease) × CanBind g id child l
unfolding inspect_binding
inspect_binding-available g id child h = elim (Option-cases (lookup id g.leases)) [
  | inl e ↦ absurd (ground (arith, e))
  | inr (l, e) ↦ (l, inspect_lease-available g l id child e (rw (e, inspect_binding) at h))
]

module _ (g : ActiveLeaseRegistry) (v : IsValid g) (id child : String) (l : ActiveLease)
    (c : CanBind g id child l) where
  unfoldable pub bound_registry : ActiveLeaseRegistry
  bound_registry = record g {
    leases = insert id (with_child l child) g.leases;
    child_claims = insert child id g.child_claims;
  }

  pub set_child_lem : set_child g id child ≡ bound_registry
  unfolding set_child bound_registry
  set_child_lem = rw (c.found, set_child) refl

  bound_registry-IsValid : IsValid bound_registry
  unfolding bound_registry
  bound_registry-IsValid = record {
    leases_map = insert-IsMap id (with_child l child) g.leases v.leases_map;
    roots_map = v.roots_map;
    claims_map = insert-IsMap child id g.child_claims v.claims_map;
    keyed = λ k m e. ground (
      arith,
      lookup-insert id k (with_child l child) g.leases,
      eq_iff id k,
      v.keyed k m,
      v.keyed id l c.found,
    );
    fresh = λ n h. ground (
      arith,
      lookup-insert id (permit_name n) (with_child l child) g.leases,
      eq_iff id (permit_name n),
      c.found,
      v.fresh n h,
    );
    root_count = λ r.
        ground (
          arith,
          total-insert (of_root r) id (with_child l child) g.leases,
          c.found,
          v.root_count r,
        );
    claim_of_lease = λ k m d e h. ground (
      arith,
      lookup-insert id k (with_child l child) g.leases,
      lookup-insert child d id g.child_claims,
      eq_iff id k,
      eq_iff k id,
      eq_iff child d,
      eq_iff d child,
      c.expects,
      c.unclaimed,
      v.claim_of_lease k m d,
    );
    lease_of_claim = λ d k e. elim (Bool-cases (child == d)) [
      | inl own ↦ (
        with_child l child,
        ground (
          arith,
          lookup-insert child d id g.child_claims,
          lookup-insert id k (with_child l child) g.leases,
          eq_iff id k,
        ),
        inr (ground (arith, eq_iff child d)),
      )
      | inr not_own ↦
          let (m, found, h) =
            v.lease_of_claim d k (ground (arith, lookup-insert child d id g.child_claims)) in
          elim (Bool-cases (id == k)) [
            | inl same ↦ (
              with_child l child,
              ground (arith, lookup-insert id k (with_child l child) g.leases),
              inl (ground (arith, eq_iff id k, c.found, c.unbound)),
            )
            | inr different ↦
                (m, ground (arith, lookup-insert id k (with_child l child) g.leases), h)
          ]
    ];
    phase_of = λ k m e. ground (
      arith,
      lookup-insert id k (with_child l child) g.leases,
      v.phase_of k m,
      v.phase_of id l c.found,
    );
    waited_for =
        λ h. omega (arith, size-replace id l (with_child l child) g.leases c.found, v.waited_for h);
  }

pub bind_lease-available :
    (g : ActiveLeaseRegistry) (id child : String)
    → inspect_binding g id child ≡ ok available
    → bind_lease g id child ≡ ok (bound, set_child g id child)
unfolding bind_lease
bind_lease-available g id child q = rw (q, bind_lease) refl

pub bind_lease-already_bound :
    (g : ActiveLeaseRegistry) (id child : String)
    → inspect_binding g id child ≡ ok already_bound
    → bind_lease g id child ≡ ok (duplicate, g)
unfolding bind_lease
bind_lease-already_bound g id child q = rw (q, bind_lease) refl

pub bind_lease-err :
    (g : ActiveLeaseRegistry) (id child : String) (x : LeaseError)
    → inspect_binding g id child ≡ err x
    → bind_lease g id child ≡ err x
unfolding bind_lease
bind_lease-err g id child x q = rw (q, bind_lease) refl

ok-injective : {E A : Type 0} {a b : A} → ◌≡◌ {A = Result E A} (ok a) (ok b) → a ≡ b
ok-injective e = cc

pub set_child-IsValid :
    (g : ActiveLeaseRegistry) (id child : String) (l : ActiveLease)
    → IsValid g
    → CanBind g id child l
    → IsValid (set_child g id child)
set_child-IsValid g id child l v c =
    subst IsValid (sym (set_child_lem g v id child l c)) (bound_registry-IsValid g v id child l c)

-- A binding that is made was available.
pub bind_lease-bound :
    (g h : ActiveLeaseRegistry) (id child : String)
    → bind_lease g id child ≡ ok (bound, h)
    → (l : ActiveLease) × CanBind g id child l × (h ≡ set_child g id child)
bind_lease-bound g h id child e = go (inspect_binding g id child) refl
  where
    go :
        (i : Result LeaseError LeaseBindInspection)
        → inspect_binding g id child ≡ i
        → (l : ActiveLease) × CanBind g id child l × (h ≡ set_child g id child)
    go (ok available) q =
        let (l, c) = inspect_binding-available g id child q in
        (l, c, ground (arith, bind_lease-available g id child q))
    go (ok already_bound) q = absurd (ground (arith, bind_lease-already_bound g id child q))
    go (err x) q = absurd (ground (arith, bind_lease-err g id child x q))

-- Binding a child, or finding it bound already, keeps the registry valid.
pub bind_lease-IsValid :
    (g h : ActiveLeaseRegistry) (id child : String) (r : LeaseBindResult)
    → IsValid g
    → bind_lease g id child ≡ ok (r, h)
    → IsValid h
bind_lease-IsValid g h id child r v e = go (inspect_binding g id child) refl
  where
    go : (i : Result LeaseError LeaseBindInspection) → inspect_binding g id child ≡ i → IsValid h
    go (ok available) q =
        let (l, c) = inspect_binding-available g id child q in
        subst IsValid
          (ap (λ (x : LeaseBindResult × ActiveLeaseRegistry). x.1)
            (ok-injective (sym (bind_lease-available g id child q) ∙ e)))
          (set_child-IsValid g id child l v c)
    go (ok already_bound) q =
        subst IsValid
          (ap (λ (x : LeaseBindResult × ActiveLeaseRegistry). x.1)
            (ok-injective (sym (bind_lease-already_bound g id child q) ∙ e)))
          v
    go (err x) q = absurd (ground (arith, bind_lease-err g id child x q))
