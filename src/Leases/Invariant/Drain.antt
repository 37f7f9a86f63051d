-- ===== src/Leases/Invariant/Drain.antt =====
-- leases.ts, `markDraining`, `whenEmpty` and the registry's invariant.
use dsh_subagent_admission.Prelude.{
  ℕ, ◌≡◌, refl, String, Option, none, some, true, [], ◌∷◌, ◌++◌, Dict, lookup, size, total, IsMap,
  arith, nat_eq, Bool-cases, Option-cases, inl, inr, ◌⊎◌, subst, sym, ◌<◌,
}
use dsh_subagent_admission.StateModel.{permit_name}
use dsh_subagent_admission.Leases.{ActiveLease, ActiveLeaseRegistry, draining}
use dsh_subagent_admission.Leases.Operations.{drain_all, mark_draining, when_empty}
use dsh_subagent_admission.Leases.Invariant.{IsValid, Claims, live_of}

abbrev drained : ActiveLease → ActiveLease
drained l = record l { phase = draining }

abbrev drained? : Option ActiveLease → Option ActiveLease
drained? none = none
drained? (some l) = some (drained l)

lookup-drain_all :
    (id : String) (m : Dict ActiveLease) → lookup id (drain_all m) ≡ drained? (lookup id m)
unfolding drain_all lookup
lookup-drain_all id [] = refl
lookup-drain_all id ((k, l) ∷ m) = ground (arith, lookup-drain_all id m)

drain_all-IsMap : (m : Dict ActiveLease) → IsMap m → IsMap (drain_all m)
unfolding drain_all
drain_all-IsMap [] h = tt
drain_all-IsMap ((k, l) ∷ m) h = ground (arith, lookup-drain_all k m, drain_all-IsMap m h.1)

pub size-drain_all : (m : Dict ActiveLease) → size (drain_all m) ≡ size m
unfolding drain_all
size-drain_all [] = refl
size-drain_all ((k, l) ∷ m) = omega (arith, size-drain_all m)

live_of-drain_all : (r : String) (m : Dict ActiveLease) → live_of r (drain_all m) ≡ live_of r m
unfolding drain_all total
live_of-drain_all r [] = refl
live_of-drain_all r ((k, l) ∷ m) = omega (arith, live_of-drain_all r m)

module _ (g : ActiveLeaseRegistry) (v : IsValid g) where
  -- A lease after the drain comes from one before it.
  undrained :
      (id : String) (m : ActiveLease)
      → lookup id (drain_all g.leases) ≡ some m
      → (l : ActiveLease) × (lookup id g.leases ≡ some l) × (m ≡ drained l)
  undrained id m e = elim (Option-cases (lookup id g.leases)) [
    | inl q ↦ absurd (ground (arith, lookup-drain_all id g.leases))
    | inr (l, q) ↦ (l, q, ground (arith, lookup-drain_all id g.leases))
  ]

  all_drained-IsValid : IsValid (record g { is_draining = true; leases = drain_all g.leases })
  all_drained-IsValid = record {
    leases_map = drain_all-IsMap g.leases v.leases_map;
    roots_map = v.roots_map;
    claims_map = v.claims_map;
    keyed = λ id m e. let (l, q, d) = undrained id m e in ground (arith, v.keyed id l q, d);
    fresh = λ n h. ground (arith, lookup-drain_all (permit_name n) g.leases, v.fresh n h);
    root_count = λ r. ground (arith, v.root_count r, live_of-drain_all r g.leases);
    claim_of_lease = λ id m c e h.
        let (l, q, d) = undrained id m e in
        v.claim_of_lease id l c q (subst (λ (x : ActiveLease). Claims x c) d h);
    lease_of_claim = λ c id e.
        let (l, q, h) = v.lease_of_claim c id e in
        (drained l, ground (arith, lookup-drain_all id g.leases, q), h);
    phase_of = λ id m e. let (l, q, d) = undrained id m e in ground (arith, d);
    waited_for = λ h. omega (arith, size-drain_all g.leases, v.waited_for h);
  }

  pub mark_draining_cases :
      (mark_draining g ≡ g)
      ⊎ (mark_draining g ≡ record g { is_draining = true; leases = drain_all g.leases })
  unfolding mark_draining
  mark_draining_cases = ground arith

  pub mark_draining-IsValid : IsValid (mark_draining g)
  mark_draining-IsValid = elim mark_draining_cases [
    | inl e ↦ subst IsValid (sym e) v
    | inr e ↦ subst IsValid (sym e) all_drained-IsValid
  ]

  waiting-IsValid :
      (waiter : ℕ)
      → 0 < size g.leases
      → IsValid (record g { empty_waiters = g.empty_waiters ++ waiter ∷ [] })
  waiting-IsValid waiter pos = record {
    leases_map = v.leases_map;
    roots_map = v.roots_map;
    claims_map = v.claims_map;
    keyed = v.keyed;
    fresh = v.fresh;
    root_count = v.root_count;
    claim_of_lease = v.claim_of_lease;
    lease_of_claim = v.lease_of_claim;
    phase_of = v.phase_of;
    waited_for = λ h. pos;
  }

  pub when_empty-IsValid : (waiter : ℕ) → IsValid (when_empty g waiter).0
  unfolding when_empty
  when_empty-IsValid waiter = elim (Bool-cases (nat_eq (size g.leases) 0)) [
    | inl e ↦ rw (e, when_empty) v
    | inr e ↦ rw (e, when_empty) (waiting-IsValid waiter (ground arith))
  ]
