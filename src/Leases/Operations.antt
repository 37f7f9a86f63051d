-- ===== src/Leases/Operations.antt =====
-- leases.ts, the methods that bind and remove a lease, and those that end admission.
use dsh_subagent_admission.Prelude.{
  ℕ, ◌-◌, String, Option, none, some, Bool, true, false, List, [], ◌∷◌, ◌++◌, Dict, lookup, insert,
  erase, size, not, ◌==◌, nat_eq, is_empty, if◌then◌else◌, Result, ok, err, ◌>>=◌,
}
use dsh_subagent_admission.StateModel.{count_at}
use dsh_subagent_admission.Leases.{
  LeaseError, binding_conflict, ActiveLease, LeaseBindResult, LeaseBindInspection,
  ActiveLeaseRegistry, root_active, root_count_failed, draining, bound, duplicate, available,
  already_bound,
}

-- `value !== null && value !== other`, and so for undefined.
abbrev pub differs : Option String → String → Bool
differs none other = false
differs (some s) other = not (s == other)

-- `value === other`.
abbrev pub is_same : Option String → String → Bool
is_same none other = false
is_same (some s) other = s == other

abbrev pub is_present {ℓ} : {A : Type ℓ} → Option A → Bool
is_present none = false
is_present (some a) = true

unfoldable pub inspect_lease :
    ActiveLeaseRegistry → ActiveLease → String → String → Result LeaseError LeaseBindInspection
inspect_lease g lease id child =
    if is_empty child
    then err binding_conflict
    else if differs lease.expected_child_session_id child
    then err binding_conflict
    else if differs (lookup child g.child_claims) id
    then err binding_conflict
    else if is_same lease.child_session_id child
    then ok already_bound
    else if is_present lease.child_session_id
    then err binding_conflict
    else ok available

unfoldable pub inspect_binding :
    ActiveLeaseRegistry → String → String → Result LeaseError LeaseBindInspection
unfolding inspect_lease
inspect_binding g id child = elim (lookup id g.leases) [
  | none ↦ err binding_conflict
  | some lease ↦ inspect_lease g lease id child
]

-- `{ ...lease, childSessionId }`.
abbrev pub with_child : ActiveLease → String → ActiveLease
with_child lease child = record lease { child_session_id = some child }

unfoldable pub set_child : ActiveLeaseRegistry → String → String → ActiveLeaseRegistry
set_child g id child = elim (lookup id g.leases) [
  | none ↦ g
  | some lease ↦ record g {
    leases = insert id (with_child lease child) g.leases;
    child_claims = insert child id g.child_claims;
  }
]

unfoldable pub bind_lease :
    ActiveLeaseRegistry
    → String
    → String
    → Result LeaseError (LeaseBindResult × ActiveLeaseRegistry)
unfolding set_child
bind_lease g id child = do
  inspection ← inspect_binding g id child
  elim inspection [
    | already_bound ↦ ok (duplicate, g)
    | available ↦ ok (bound, set_child g id child)
  ]

-- Drops the claim of a child if this permit holds it.
unfoldable pub drop_claim : String → Option String → Dict String → Dict String
drop_claim id none claims = claims
drop_claim id (some child) claims =
    if is_same (lookup child claims) id then erase child claims else claims

unfoldable pub lower_count : Dict ℕ → String → Dict ℕ
lower_count m root =
    if nat_eq (count_at root m) 1 then erase root m else insert root (count_at root m - 1) m

unfoldable pub removed : ActiveLeaseRegistry → String → ActiveLease → ActiveLeaseRegistry
unfolding lower_count drop_claim
removed g id lease =
    let leases = erase id g.leases in
    record g {
      leases = leases;
      active_by_root = lower_count g.active_by_root lease.root_session_id;
      child_claims =
          drop_claim id lease.child_session_id
            (drop_claim id lease.expected_child_session_id g.child_claims);
      empty_waiters = if nat_eq (size leases) 0 then [] else g.empty_waiters;
    }

-- The waiters whose promises a removal resolves.
unfoldable pub resolved_by : ActiveLeaseRegistry → String → List ℕ
resolved_by g id = if nat_eq (size (erase id g.leases)) 0 then g.empty_waiters else []

-- The removed lease, the registry, and the waiters resolved.
unfoldable pub remove_lease :
    ActiveLeaseRegistry
    → String
    → Result LeaseError (Option ActiveLease × ActiveLeaseRegistry × List ℕ)
remove_lease g id = elim (lookup id g.leases) [
  | none ↦ ok (none, g, [])
  | some lease ↦
      if nat_eq (root_active g lease.root_session_id) 0
      then err root_count_failed
      else ok (some lease, removed g id lease, resolved_by g id)
]

unfoldable pub drain_all : Dict ActiveLease → Dict ActiveLease
drain_all [] = []
drain_all ((id, lease) ∷ m) = (id, record lease { phase = draining }) ∷ drain_all m

unfoldable pub mark_draining : ActiveLeaseRegistry → ActiveLeaseRegistry
unfolding drain_all
mark_draining g =
    if g.is_draining then g else record g { is_draining = true; leases = drain_all g.leases }

-- The registry, and whether the promise is resolved at once.
unfoldable pub when_empty : ActiveLeaseRegistry → ℕ → ActiveLeaseRegistry × Bool
when_empty g waiter =
    if nat_eq (size g.leases) 0
    then (g, true)
    else (record g { empty_waiters = g.empty_waiters ++ waiter ∷ [] }, false)

values : Dict ActiveLease → List ActiveLease
values [] = []
values ((id, lease) ∷ m) = lease ∷ values m

unfoldable pub snapshot : ActiveLeaseRegistry → List ActiveLease
unfolding values
snapshot g = values g.leases
