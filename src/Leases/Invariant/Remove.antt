-- ===== src/Leases/Invariant/Remove.antt =====
-- leases.ts, `remove` and the registry's invariant.
use dsh_subagent_admission.Prelude.{
  ℕ, ◌-◌, ◌<◌, ◌≡◌, refl, ◌≢◌, ◌⊎◌, inl, inr, String, Option, none, some, [], Dict, lookup,
  total-erase, weight-le-total, insert-IsMap, erase-IsMap, IsMap, lookup-insert, lookup-erase,
  arith, eq_iff, ◌==◌, if◌then◌else◌, ok, Option-cases,
}
use dsh_subagent_admission.StateModel.{permit_name, count_at}
use dsh_subagent_admission.Leases.{ActiveLease, ActiveLeaseRegistry}
use dsh_subagent_admission.Leases.Operations.{
  drop_claim, lower_count, removed, remove_lease, resolved_by,
}
use dsh_subagent_admission.Leases.Invariant.{IsValid, Claims, of_root}

lower_count-IsMap : (m : Dict ℕ) (root : String) → IsMap m → IsMap (lower_count m root)
unfolding lower_count
lower_count-IsMap m root h =
    ground (arith, insert-IsMap root (count_at root m - 1) m, erase-IsMap root m)

pub count_at-lower_count :
    (m : Dict ℕ) (root r : String)
    → 0 < count_at root m
    → count_at r (lower_count m root) ≡ count_at r m - (if root == r then 1 else 0)
unfolding lower_count
count_at-lower_count m root r pos =
    ground
      (arith, lookup-insert root r (count_at root m - 1) m, lookup-erase root r m, eq_iff root r)

drop_claim-IsMap :
    (id : String) (o : Option String) (m : Dict String) → IsMap m → IsMap (drop_claim id o m)
unfolding drop_claim
drop_claim-IsMap id none m h = h
drop_claim-IsMap id (some child) m h = ground (arith, erase-IsMap child m)

-- Exactly the permit's own claim of that child goes.
lookup-drop_claim :
    (id : String) (o : Option String) (m : Dict String) (d : String)
    → ((o ≡ some d) × (lookup d m ≡ some id) × (lookup d (drop_claim id o m) ≡ none))
      ⊎ (((o ≢ some d) ⊎ (lookup d m ≢ some id)) × (lookup d (drop_claim id o m) ≡ lookup d m))
unfolding drop_claim
lookup-drop_claim id none m d = inr (inl (λ e. cc), refl)
lookup-drop_claim id (some child) m d = elim (Option-cases (lookup child m)) [
  | inl e ↦ ground (arith, e, eq_iff child d)
  | inr (x, e) ↦ ground (arith, e, eq_iff x id, eq_iff child d, lookup-erase child d m)
]

module _ (g : ActiveLeaseRegistry) (v : IsValid g) (id : String) (l : ActiveLease)
    (found : lookup id g.leases ≡ some l) where
  pub root_live : 0 < count_at l.root_session_id g.active_by_root
  root_live = ground (
    arith,
    weight-le-total (of_root l.root_session_id) id g.leases,
    found,
    v.root_count l.root_session_id,
    eq_iff l.root_session_id l.root_session_id,
  )

  unfoldable pub remaining : Dict String
  remaining =
      drop_claim id l.child_session_id (drop_claim id l.expected_child_session_id g.child_claims)

  own_claim : (child : String) → lookup child g.child_claims ≡ some id → Claims l child
  own_claim child e = let (m, f, c) = v.lease_of_claim child id e in ground (arith, found, f, c)

  -- What is claimed after the removal: what was, by another permit.
  pub lookup-remaining :
      (child k : String)
      → lookup child remaining ≡ some k
      → (lookup child g.child_claims ≡ some k) × (k ≢ id)
  unfolding remaining
  lookup-remaining child k e =
      let dropped = drop_claim id l.expected_child_session_id g.child_claims in
      let first = lookup-drop_claim id l.expected_child_session_id g.child_claims child in
      let second = lookup-drop_claim id l.child_session_id dropped child in
      (ground (arith, first, second), λ same. ground (arith, first, second, own_claim child))

  remaining-lookup :
      (child k : String)
      → lookup child g.child_claims ≡ some k
      → k ≢ id
      → lookup child remaining ≡ some k
  unfolding remaining
  remaining-lookup child k e h =
      let dropped = drop_claim id l.expected_child_session_id g.child_claims in
      let first = lookup-drop_claim id l.expected_child_session_id g.child_claims child in
      let second = lookup-drop_claim id l.child_session_id dropped child in
      ground (arith, first, second)

  pub removed-IsValid : IsValid (removed g id l)
  unfolding removed remaining
  removed-IsValid = record {
    leases_map = erase-IsMap id g.leases v.leases_map;
    roots_map = lower_count-IsMap g.active_by_root l.root_session_id v.roots_map;
    claims_map =
        drop_claim-IsMap id l.child_session_id _
          (drop_claim-IsMap id l.expected_child_session_id g.child_claims v.claims_map);
    keyed = λ k m e. ground (arith, lookup-erase id k g.leases, v.keyed k m);
    fresh = λ n h. ground (arith, lookup-erase id (permit_name n) g.leases, v.fresh n h);
    root_count = λ r. ground (
      arith,
      total-erase (of_root r) id g.leases v.leases_map,
      found,
      count_at-lower_count g.active_by_root l.root_session_id r root_live,
      v.root_count r,
    );
    claim_of_lease = λ k m d e h. ground (
      arith,
      lookup-erase id k g.leases,
      eq_iff id k,
      v.claim_of_lease k m d,
      remaining-lookup d k,
    );
    lease_of_claim = λ d k e.
        let (claimed, other) = lookup-remaining d k e in
        let (m, f, c) = v.lease_of_claim d k claimed in
        (m, ground (arith, lookup-erase id k g.leases, eq_iff id k), c);
    phase_of = λ k m e. ground (arith, lookup-erase id k g.leases, v.phase_of k m);
    waited_for = λ h. ground (arith, h);
  }

-- The accepted removal of a live lease, whose internal check cannot fail.
pub remove_lease-live :
    (g : ActiveLeaseRegistry) (id : String) (l : ActiveLease)
    → IsValid g
    → lookup id g.leases ≡ some l
    → remove_lease g id ≡ ok (some l, removed g id l, resolved_by g id)
unfolding remove_lease
remove_lease-live g id l v e = rw (e, remove_lease) (ground (arith, root_live g v id l e))

pub remove_lease-absent :
    (g : ActiveLeaseRegistry) (id : String)
    → lookup id g.leases ≡ none
    → remove_lease g id ≡ ok (none, g, [])
unfolding remove_lease
remove_lease-absent g id e = rw (e, remove_lease) refl
