-- ===== src/Leases/Calls.antt =====
-- leases.ts, sequences of calls on the registry.
use dsh_subagent_admission.Prelude.{
  ℕ, inl, inr, String, Option, List, [], ◌∷◌, lookup, Result, ok, err, Option-cases, Result-cases,
  Bool-cases,
}
use dsh_subagent_admission.Leases.{
  LeaseError, ActiveLease, ActiveLeaseInsert, ActiveLeaseRegistry, LeaseBindResult, new_registry,
  is_valid_insert, claimed_child, is_claimed, insert_lease,
}
use dsh_subagent_admission.Leases.Operations.{bind_lease, remove_lease, mark_draining, when_empty}
use dsh_subagent_admission.Leases.Contract.{insert_lease_decides}
use dsh_subagent_admission.Leases.Invariant.{IsValid, new_registry-IsValid}
use dsh_subagent_admission.Leases.Invariant.Insert.{inserted-IsValid}
use dsh_subagent_admission.Leases.Invariant.Bind.{bind_lease-IsValid}
use dsh_subagent_admission.Leases.Invariant.Remove.{
  removed-IsValid, remove_lease-live, remove_lease-absent,
}
use dsh_subagent_admission.Leases.Invariant.Drain.{mark_draining-IsValid, when_empty-IsValid}

-- A call on the registry.
pub data Call : Type 0 where
  inserts : ActiveLeaseInsert → Call
  binds : String → String → Call
  removes : String → Call
  drains : Call
  waits : ℕ → Call

-- A call that throws leaves the registry as it was.
abbrev after_insert :
    ActiveLeaseRegistry
    → Result LeaseError (ActiveLease × ActiveLeaseRegistry)
    → ActiveLeaseRegistry
after_insert g (ok (l, h)) = h
after_insert g (err e) = g

abbrev after_bind :
    ActiveLeaseRegistry
    → Result LeaseError (LeaseBindResult × ActiveLeaseRegistry)
    → ActiveLeaseRegistry
after_bind g (ok (r, h)) = h
after_bind g (err e) = g

abbrev after_remove :
    ActiveLeaseRegistry
    → Result LeaseError (Option ActiveLease × ActiveLeaseRegistry × List ℕ)
    → ActiveLeaseRegistry
after_remove g (ok (l, h, w)) = h
after_remove g (err e) = g

unfoldable pub call : ActiveLeaseRegistry → Call → ActiveLeaseRegistry
call g (inserts input) = after_insert g (insert_lease g input)
call g (binds id child) = after_bind g (bind_lease g id child)
call g (removes id) = after_remove g (remove_lease g id)
call g drains = mark_draining g
call g (waits w) = (when_empty g w).0

unfoldable pub calls : ActiveLeaseRegistry → List Call → ActiveLeaseRegistry
calls g [] = g
calls g (c ∷ cs) = calls (call g c) cs

insert-IsValid :
    (g : ActiveLeaseRegistry) (input : ActiveLeaseInsert)
    → IsValid g
    → IsValid (after_insert g (insert_lease g input))
insert-IsValid g input v =
    rw (insert_lease_decides g input v) (elim (Bool-cases (is_valid_insert input)) [
      | inr bad ↦ rw bad v
      | inl good ↦ elim (Bool-cases (is_claimed (claimed_child input) g.child_claims)) [
        | inl taken ↦ rw (good, taken) v
        | inr free ↦ rw (good, free) (inserted-IsValid g input v good free)
      ]
    ])

bind-IsValid :
    (g : ActiveLeaseRegistry) (id child : String)
    → IsValid g
    → IsValid (after_bind g (bind_lease g id child))
bind-IsValid g id child v = elim (Result-cases (bind_lease g id child)) [
  | inl ((r, h), e) ↦ rw e (bind_lease-IsValid g h id child r v e)
  | inr (x, e) ↦ rw e v
]

remove-IsValid :
    (g : ActiveLeaseRegistry) (id : String)
    → IsValid g
    → IsValid (after_remove g (remove_lease g id))
remove-IsValid g id v = elim (Option-cases (lookup id g.leases)) [
  | inl e ↦ rw (remove_lease-absent g id e) v
  | inr (l, e) ↦ rw (remove_lease-live g id l v e) (removed-IsValid g v id l e)
]

call-IsValid : (g : ActiveLeaseRegistry) (c : Call) → IsValid g → IsValid (call g c)
unfolding call
call-IsValid g (inserts input) v = insert-IsValid g input v
call-IsValid g (binds id child) v = bind-IsValid g id child v
call-IsValid g (removes id) v = remove-IsValid g id v
call-IsValid g drains v = mark_draining-IsValid g v
call-IsValid g (waits w) v = when_empty-IsValid g v w

calls_from-IsValid : (g : ActiveLeaseRegistry) (cs : List Call) → IsValid g → IsValid (calls g cs)
unfolding calls
calls_from-IsValid g [] v = v
calls_from-IsValid g (c ∷ cs) v = calls_from-IsValid (call g c) cs (call-IsValid g c v)

-- After any sequence of calls on a new registry, whether they succeed or throw, its counters, claims,
-- phases and waiters agree with its leases.
pub calls-IsValid : (cs : List Call) → IsValid (calls new_registry cs)
calls-IsValid cs = calls_from-IsValid new_registry cs new_registry-IsValid
