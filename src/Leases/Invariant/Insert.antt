-- ===== src/Leases/Invariant/Insert.antt =====
-- leases.ts, `insert` and the registry's invariant.
use dsh_subagent_admission.Prelude.{
  ◌≡◌, refl, ◌≢◌, ◌⊎◌, inl, inr, String, Option, none, some, true, false, Dict, lookup,
  total-insert, size-insert_pos, sym, ◌∙◌, IsMap, insert-IsMap, lookup-insert, arith, eq_iff,
}
use dsh_subagent_admission.StateModel.{permit_name}
use dsh_subagent_admission.StateModel.Counts.{
  permit_name-injective, count_at-increment_count, increment_count-IsMap,
}
use dsh_subagent_admission.Leases.{
  ActiveLease, ActiveLeaseInsert, ActiveLeaseRegistry, new_lease, inserted, is_valid_insert, agree,
  either_child, is_claimed, claimed_child, claim,
}
use dsh_subagent_admission.Leases.Invariant.{IsValid, Claims, of_root}

agree-either_child :
    (a b : Option String) (child : String)
    → agree a b ≡ true
    → (a ≡ some child) ⊎ (b ≡ some child)
    → either_child a b ≡ some child
agree-either_child none b child h c = ground arith
agree-either_child (some x) none child h c = ground arith
agree-either_child (some x) (some y) child h c = ground (arith, eq_iff x y)

-- An expected and an initial child are the same, so the new lease claims exactly one child.
claimed_child_lem :
    (g : ActiveLeaseRegistry) (input : ActiveLeaseInsert) (child : String)
    → is_valid_insert input ≡ true
    → Claims (new_lease g input) child
    → claimed_child input ≡ some child
unfolding is_valid_insert new_lease
claimed_child_lem g input child h c =
    agree-either_child input.expected_child_session_id input.initial_child_session_id child
      (ground arith) c

new_lease-Claims :
    (g : ActiveLeaseRegistry) (input : ActiveLeaseInsert) (child : String)
    → claimed_child input ≡ some child
    → Claims (new_lease g input) child
unfolding new_lease
new_lease-Claims g input child h = ground arith

claim-IsMap : (o : Option String) (id : String) (m : Dict String) → IsMap m → IsMap (claim o id m)
claim-IsMap none id m h = h
claim-IsMap (some child) id m h = insert-IsMap child id m h

lookup-claim :
    (o : Option String) (id child : String) (m : Dict String)
    → ((o ≡ some child) × (lookup child (claim o id m) ≡ some id))
      ⊎ ((o ≢ some child) × (lookup child (claim o id m) ≡ lookup child m))
lookup-claim none id child m = inr ((λ e. cc), refl)
lookup-claim (some c) id child m = ground (arith, lookup-insert c child id m, eq_iff c child)

not_claimed :
    (o : Option String) (child : String) (m : Dict String)
    → is_claimed o m ≡ false
    → o ≡ some child
    → lookup child m ≡ none
not_claimed none child m h e = cc
not_claimed (some c) child m h e = ground arith

module _ (g : ActiveLeaseRegistry) (input : ActiveLeaseInsert) (v : IsValid g)
    (checked : is_valid_insert input ≡ true)
    (free : is_claimed (claimed_child input) g.child_claims ≡ false) where
  pub inserted-IsValid : IsValid (inserted g input)
  unfolding inserted
  inserted-IsValid = record {
    leases_map = insert-IsMap id lease g.leases v.leases_map;
    roots_map = increment_count-IsMap g.active_by_root input.root_session_id v.roots_map;
    claims_map = claim-IsMap (claimed_child input) id g.child_claims v.claims_map;
    keyed = λ k l e. ground (arith, lookup-insert id k lease g.leases, eq_iff id k, v.keyed k l);
    fresh = λ n h. ground (
      arith,
      lookup-insert id (permit_name n) lease g.leases,
      eq_iff id (permit_name n),
      permit_name-injective g.permit_counter n,
      v.fresh n (omega arith),
    );
    root_count = λ r. ground (
      arith,
      total-insert (of_root r) id lease g.leases,
      unused,
      count_at-increment_count g.active_by_root input.root_session_id r,
      v.root_count r,
    );
    claim_of_lease = λ k l child e c. ground (
      arith,
      lookup-insert id k lease g.leases,
      eq_iff id k,
      lookup-claim (claimed_child input) id child g.child_claims,
      not_claimed (claimed_child input) child g.child_claims free,
      claimed_child_lem g input child checked,
      v.claim_of_lease k l child,
    );
    lease_of_claim = λ child k e.
        elim (lookup-claim (claimed_child input) id child g.child_claims) [
          | inl (o, q) ↦ (
            lease,
            ground (arith, lookup-insert id k lease g.leases, eq_iff id k),
            new_lease-Claims g input child o,
          )
          | inr (o, q) ↦
              let (l, found, c) = v.lease_of_claim child k (sym q ∙ e) in
              (l, ground (arith, lookup-insert id k lease g.leases, eq_iff id k, unused), c)
        ];
    phase_of = λ k l e. ground (arith, lookup-insert id k lease g.leases, v.phase_of k l);
    waited_for = λ h. size-insert_pos id lease g.leases;
  }
    where
      id : String
      id = permit_name g.permit_counter

      lease : ActiveLease
      lease = new_lease g input

      unused : lookup id g.leases ≡ none
      unused = v.fresh g.permit_counter (omega arith)
