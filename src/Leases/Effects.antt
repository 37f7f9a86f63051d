-- ===== src/Leases/Effects.antt =====
-- leases.ts, what a call does to the registry's counts: the view of its client, the authority.
use dsh_subagent_admission.Prelude.{
  ◌+◌, ◌≤◌, ◌≡◌, refl, sym, ap, subst, ◌∙◌, inl, inr, String, Option, some, true, false, List,
  lookup, size-insert, size-erase, ℕ, size-replace, arith, ◌==◌, if◌then◌else◌, Result, ok, err,
  Bool-cases, Option-cases,
}
use dsh_subagent_admission.StateModel.{permit_name}
use dsh_subagent_admission.StateModel.Counts.{count_at-increment_count}
use dsh_subagent_admission.Leases.{
  LeaseError, ActiveLease, ActiveLeaseInsert, ActiveLeaseRegistry, LeaseBindResult, global_active,
  root_active, is_valid_insert, claimed_child, is_claimed, new_lease, inserted, insert_lease,
  LeaseBindInspection, available, already_bound,
}
use dsh_subagent_admission.Leases.Operations.{
  inspect_binding, with_child, bind_lease, set_child, removed, remove_lease, mark_draining,
}
use dsh_subagent_admission.Leases.Invariant.{IsValid}
use dsh_subagent_admission.Leases.Contract.{insert_lease_decides}
use dsh_subagent_admission.Leases.Invariant.Insert.{inserted-IsValid}
use dsh_subagent_admission.Leases.Invariant.Bind.{
  CanBind, bound_registry, set_child_lem, inspect_binding-available, bind_lease-available,
  bind_lease-already_bound, bind_lease-err, set_child-IsValid,
}
use dsh_subagent_admission.Leases.Invariant.Remove.{
  root_live, count_at-lower_count, removed-IsValid, remove_lease-live, remove_lease-absent,
}
use dsh_subagent_admission.Leases.Invariant.Drain.{
  size-drain_all, mark_draining_cases, mark_draining-IsValid,
}

-- A valid registry with no more live leases, in the process or of any root.
pub record Fewer (g h : ActiveLeaseRegistry) : Type 0 where
  pub valid : IsValid h
  pub of_root : (r : String) → root_active h r ≤ root_active g r
  pub of_all : global_active h ≤ global_active g

-- A valid registry with one lease more, of this root.
pub record Entered (root : String) (g h : ActiveLeaseRegistry) : Type 0 where
  pub valid : IsValid h
  pub of_root : (r : String) → root_active h r ≡ root_active g r + (if root == r then 1 else 0)
  pub of_all : global_active h ≡ global_active g + 1

pub Fewer-same : (g : ActiveLeaseRegistry) → IsValid g → Fewer g g
Fewer-same g v = record { valid = v; of_root = λ r. omega arith; of_all = omega arith }

pub mark_draining-Fewer : (g : ActiveLeaseRegistry) → IsValid g → Fewer g (mark_draining g)
mark_draining-Fewer g v = elim (mark_draining_cases g v) [
  | inl e ↦ subst (Fewer g) (sym e) (Fewer-same g v)
  | inr e ↦ subst (Fewer g) (sym e) (record {
    valid = subst IsValid e (mark_draining-IsValid g v);
    of_root = λ r. omega arith;
    of_all = omega (arith, size-drain_all g.leases);
  })
]

set_child-Fewer :
    (g : ActiveLeaseRegistry) (id child : String) (l : ActiveLease)
    → IsValid g
    → CanBind g id child l
    → Fewer g (set_child g id child)
unfolding bound_registry
set_child-Fewer g id child l v c = subst (Fewer g) (sym (set_child_lem g v id child l c)) (record {
  valid = subst IsValid (set_child_lem g v id child l c) (set_child-IsValid g id child l v c);
  of_root = λ r. omega arith;
  of_all = omega (arith, size-replace id l (with_child l child) g.leases c.found);
})

value : {A : Type 0} {a b : A} → ◌≡◌ {A = Result LeaseError A} (ok a) (ok b) → a ≡ b
value e = cc

pub bind_lease-Fewer :
    (g h : ActiveLeaseRegistry) (id child : String) (r : LeaseBindResult)
    → IsValid g
    → bind_lease g id child ≡ ok (r, h)
    → Fewer g h
bind_lease-Fewer g h id child r v e = go (inspect_binding g id child) refl
  where
    go : (i : Result LeaseError LeaseBindInspection) → inspect_binding g id child ≡ i → Fewer g h
    go (ok available) q =
        let (l, c) = inspect_binding-available g id child q in
        subst (Fewer g)
          (ap (λ (x : LeaseBindResult × ActiveLeaseRegistry). x.1)
            (value (sym (bind_lease-available g id child q) ∙ e)))
          (set_child-Fewer g id child l v c)
    go (ok already_bound) q =
        subst (Fewer g)
          (ap (λ (x : LeaseBindResult × ActiveLeaseRegistry). x.1)
            (value (sym (bind_lease-already_bound g id child q) ∙ e)))
          (Fewer-same g v)
    go (err x) q = absurd (ground (arith, bind_lease-err g id child x q))

removed-Fewer :
    (g : ActiveLeaseRegistry) (v : IsValid g) (id : String) (l : ActiveLease)
    → lookup id g.leases ≡ some l
    → Fewer g (removed g id l)
unfolding removed
removed-Fewer g v id l e = record {
  valid = removed-IsValid g v id l e;
  of_root = λ r.
      omega
        (arith, count_at-lower_count g.active_by_root l.root_session_id r (root_live g v id l e));
  of_all = omega (arith, size-erase id l g.leases v.leases_map e);
}

pub remove_lease-Fewer :
    (g h : ActiveLeaseRegistry) (id : String) (taken : Option ActiveLease) (waiters : List ℕ)
    → IsValid g
    → remove_lease g id ≡ ok (taken, h, waiters)
    → Fewer g h
remove_lease-Fewer g h id taken waiters v e = elim (Option-cases (lookup id g.leases)) [
  | inl q ↦
      subst (Fewer g)
        (ap (λ (x : Option ActiveLease × ActiveLeaseRegistry × List ℕ). x.1)
          (value (sym (remove_lease-absent g id q) ∙ e)))
        (Fewer-same g v)
  | inr (l, q) ↦
      subst (Fewer g)
        (ap (λ (x : Option ActiveLease × ActiveLeaseRegistry × List ℕ). x.1)
          (value (sym (remove_lease-live g id l v q) ∙ e)))
        (removed-Fewer g v id l q)
]

inserted-Entered :
    (g : ActiveLeaseRegistry) (input : ActiveLeaseInsert)
    → IsValid g
    → is_valid_insert input ≡ true
    → is_claimed (claimed_child input) g.child_claims ≡ false
    → Entered input.root_session_id g (inserted g input)
unfolding inserted
inserted-Entered g input v good free = record {
  valid = inserted-IsValid g input v good free;
  of_root = λ r. count_at-increment_count g.active_by_root input.root_session_id r;
  of_all =
      size-insert (permit_name g.permit_counter) (new_lease g input) g.leases
        (v.fresh g.permit_counter (omega arith));
}

-- What an insertion that succeeds gives.
pub insert_lease-ok :
    (g h : ActiveLeaseRegistry) (input : ActiveLeaseInsert) (l : ActiveLease)
    → IsValid g
    → insert_lease g input ≡ ok (l, h)
    → (l ≡ new_lease g input) × (h ≡ inserted g input) × Entered input.root_session_id g h
insert_lease-ok g h input l v e =
    let law = sym (insert_lease_decides g input v) ∙ e in
    elim (Bool-cases (is_valid_insert input)) [
      | inr bad ↦ absurd (ground (arith, law, bad))
      | inl good ↦ elim (Bool-cases (is_claimed (claimed_child input) g.child_claims)) [
        | inl taken ↦ absurd (ground (arith, law, good, taken))
        | inr free ↦
            let same : ◌≡◌ {A = ActiveLease × ActiveLeaseRegistry}
                (new_lease g input, inserted g input) (l, h) =
              value (ground (arith, law, good, free)) in
            (
              sym (ap (λ (x : ActiveLease × ActiveLeaseRegistry). x.0) same),
              sym (ap (λ (x : ActiveLease × ActiveLeaseRegistry). x.1) same),
              subst (Entered input.root_session_id g)
                  (ap (λ (x : ActiveLease × ActiveLeaseRegistry). x.1) same)
                  (inserted-Entered g input v good free),
            )
      ]
    ]
