-- ===== src/Leases/Contract.antt =====
-- leases.ts, what the registry promises to its client: exact outcomes of `insert`, `bind` and
-- `remove` in a valid registry.
use dsh_subagent_admission.Prelude.{
  ◌+◌, ◌≤◌, ◌<◌, ◌≡◌, ◌∙◌, ◌≢◌, ◌↔◌, refl, String, none, some, [], lookup, size, size-erase,
  lookup-erase, lookup-insert, arith, eq_iff, if◌then◌else◌, nat_eq, not, ok, err,
}
use dsh_subagent_admission.Vocabulary.{AdmissionLimits, root_active_limit, global_active_limit}
use dsh_subagent_admission.Leases.{
  active_capacity, binding_conflict, invalid_insertion, ActiveLease, ActiveLeaseInsert,
  ActiveLeaseRegistry, bound, duplicate, already_bound, global_active, root_active,
  assert_root_then_global_capacity, is_valid_insert, claimed_child, is_claimed, new_lease, inserted,
  insert_lease,
}
use dsh_subagent_admission.Leases.Operations.{
  inspect_lease, inspect_binding, with_child, set_child, bind_lease, removed, resolved_by,
  remove_lease,
}
use dsh_subagent_admission.Leases.Invariant.{IsValid, Claims}
use dsh_subagent_admission.Leases.Invariant.Bind.{
  CanBind, bound_registry, set_child_lem, inspect_binding-found, bind_lease-bound,
  bind_lease-already_bound, bind_lease-err,
}
use dsh_subagent_admission.Leases.Invariant.Remove.{
  root_live, remaining, lookup-remaining, count_at-lower_count, remove_lease-live,
  remove_lease-absent,
}

-- The capacity check passes exactly when the root and the process have room; it reports the root
-- exactly when the root is full, and the process exactly when that is full and the root is not.
pub capacity_decides :
    (g : ActiveLeaseRegistry) (root : String) (limits : AdmissionLimits)
    → ((assert_root_then_global_capacity g root limits ≡ ok tt) ↔ (
        (root_active g root < limits.per_root_active) × (global_active g < limits.global_active)))
      × ((assert_root_then_global_capacity g root limits
            ≡ err (active_capacity root_active_limit (root_active g root) limits.per_root_active))
          ↔ (limits.per_root_active ≤ root_active g root))
      × ((assert_root_then_global_capacity g root limits
            ≡ err (active_capacity global_active_limit (global_active g) limits.global_active))
          ↔ ((root_active g root < limits.per_root_active)
              × (limits.global_active ≤ global_active g)))
unfolding assert_root_then_global_capacity
capacity_decides g root limits = (
  ((λ h. ground arith), (λ h. ground arith)),
  ((λ h. ground arith), (λ h. ground arith)),
  ((λ h. ground arith), (λ h. ground arith)),
)

-- In a valid registry an insertion succeeds exactly when its input is well formed and the child that
-- it claims is free; it then adds one lease under a fresh id, and the registry stays valid.
pub insert_lease_decides :
    (g : ActiveLeaseRegistry) (input : ActiveLeaseInsert)
    → IsValid g
    → (insert_lease g input ≡ (
        if not (is_valid_insert input)
        then err invalid_insertion
        else if is_claimed (claimed_child input) g.child_claims
        then err binding_conflict
        else ok (new_lease g input, inserted g input)))
unfolding insert_lease
insert_lease_decides g input v = ground (arith, v.fresh g.permit_counter (omega arith))

-- Two live leases never claim the same child, as expected or as bound.
pub child_has_one_lease :
    (g : ActiveLeaseRegistry) (i j : String) (l m : ActiveLease) (child : String)
    → IsValid g
    → lookup i g.leases ≡ some l
    → lookup j g.leases ≡ some m
    → Claims l child
    → Claims m child
    → i ≡ j
child_has_one_lease g i j l m child v e f c d =
    ground (arith, v.claim_of_lease i l child e c, v.claim_of_lease j m child f d)

module _ (g : ActiveLeaseRegistry) (v : IsValid g) (id child : String) (l : ActiveLease)
    (c : CanBind g id child l) where
  bound_already : inspect_binding (set_child g id child) id child ≡ ok already_bound
  unfolding inspect_lease bound_registry
  bound_already = rw (set_child_lem g v id child l c) (
      inspect_binding-found _ id child (with_child l child)
        (ground (arith, lookup-insert id id (with_child l child) g.leases, eq_iff id id))
      ∙ ground (
        arith,
        lookup-insert child child id g.child_claims,
        eq_iff child child,
        eq_iff id id,
        c.expects,
        c.named,
      ))

  bound_to_one :
      (other : String)
      → other ≢ child
      → inspect_binding (set_child g id child) id other ≡ err binding_conflict
  unfolding inspect_lease bound_registry
  bound_to_one other different = rw (set_child_lem g v id child l c) (
      inspect_binding-found _ id other (with_child l child)
        (ground (arith, lookup-insert id id (with_child l child) g.leases, eq_iff id id))
      ∙ ground (arith, eq_iff child other))

-- After a child was bound, binding it again is a duplicate that changes nothing, and binding another
-- child to the same permit is a conflict.
pub bind_lease_once :
    (g h : ActiveLeaseRegistry) (id child other : String)
    → IsValid g
    → bind_lease g id child ≡ ok (bound, h)
    → other ≢ child
    → (bind_lease h id child ≡ ok (duplicate, h)) × (bind_lease h id other ≡ err binding_conflict)
bind_lease_once g h id child other v e d =
    let (l, c, q) = bind_lease-bound g h id child e in
    (
      bind_lease-already_bound h id child (rw q (bound_already g v id child l c)),
      bind_lease-err h id other binding_conflict (rw q (bound_to_one g v id child l c other d)),
    )

module _ (g : ActiveLeaseRegistry) (v : IsValid g) (id : String) (l : ActiveLease)
    (found : lookup id g.leases ≡ some l) where
  fewer_active :
      (global_active (removed g id l) + 1 ≡ global_active g)
      × (root_active (removed g id l) l.root_session_id + 1 ≡ root_active g l.root_session_id)
  unfolding removed
  fewer_active = (
    size-erase id l g.leases v.leases_map found,
    ground (
      arith,
      root_live g v id l found,
      count_at-lower_count g.active_by_root l.root_session_id l.root_session_id
          (root_live g v id l found),
      eq_iff l.root_session_id l.root_session_id,
    ),
  )

  claims_nothing : (child : String) → lookup child (removed g id l).child_claims ≢ some id
  unfolding removed remaining
  claims_nothing child e = (lookup-remaining g v id l found child id e).1 refl

  removed_gone : lookup id (removed g id l).leases ≡ none
  unfolding removed
  removed_gone = ground (arith, lookup-erase id id g.leases, eq_iff id id)

-- The removal of a live lease always succeeds, lowers the process's and the root's count by one, and
-- leaves no child claimed by the permit; the promises of `whenEmpty` are resolved exactly if
-- no lease is left; and a second removal finds nothing.
pub remove_lease_frees :
    (g : ActiveLeaseRegistry) (id : String) (l : ActiveLease)
    → IsValid g
    → lookup id g.leases ≡ some l
    → (h : ActiveLeaseRegistry) × (remove_lease g id
        ≡ ok (some l, h, (if nat_eq (size h.leases) 0 then g.empty_waiters else [])))
      × (global_active h + 1 ≡ global_active g)
      × (root_active h l.root_session_id + 1 ≡ root_active g l.root_session_id)
      × ((child : String) → lookup child h.child_claims ≢ some id)
      × (remove_lease h id ≡ ok (none, h, []))
unfolding resolved_by removed
remove_lease_frees g id l v e =
    let (fewer, fewer_of_root) = fewer_active g v id l e in
    (
      removed g id l,
      remove_lease-live g id l v e,
      fewer,
      fewer_of_root,
      claims_nothing g v id l e,
      remove_lease-absent (removed g id l) id (removed_gone g v id l e),
    )
