-- ===== src/Leases/Invariant.antt =====
-- leases.ts, the registry's invariant: counters, claims, phases and waiters agree with the leases.
pub mod Insert
pub mod Bind
pub mod Remove
pub mod Drain
use dsh_subagent_admission.Prelude.{
  ℕ, ◌≤◌, ◌<◌, ◌≡◌, refl, ◌≢◌, ◌⊎◌, String, Option, none, some, [], Dict, lookup, size, total,
  IsMap, arith, ◌==◌, if◌then◌else◌,
}
use dsh_subagent_admission.StateModel.{permit_name, count_at}
use dsh_subagent_admission.Leases.{ActiveLease, ActiveLeaseRegistry, active, draining, new_registry}

abbrev pub of_root : String → ActiveLease → ℕ
of_root r l = if l.root_session_id == r then 1 else 0

-- The live leases of a root.
abbrev pub live_of : String → Dict ActiveLease → ℕ
live_of r m = total (of_root r) m

-- The lease expects the child, or is bound to it.
abbrev pub Claims : ActiveLease → String → Type 0
Claims l child = (l.expected_child_session_id ≡ some child) ⊎ (l.child_session_id ≡ some child)

pub record IsValid (g : ActiveLeaseRegistry) : Type 0 where
  pub leases_map : IsMap g.leases
  pub roots_map : IsMap g.active_by_root
  pub claims_map : IsMap g.child_claims
  pub keyed : (id : String) (l : ActiveLease) → lookup id g.leases ≡ some l → l.permit_id ≡ id
  pub fresh : (n : ℕ) → g.permit_counter ≤ n → lookup (permit_name n) g.leases ≡ none
  pub root_count : (r : String) → count_at r g.active_by_root ≡ live_of r g.leases
  pub claim_of_lease :
      (id : String) (l : ActiveLease) (child : String)
      → lookup id g.leases ≡ some l
      → Claims l child
      → lookup child g.child_claims ≡ some id
  pub lease_of_claim :
      (child id : String)
      → lookup child g.child_claims ≡ some id
      → (l : ActiveLease) × (lookup id g.leases ≡ some l) × Claims l child
  pub phase_of :
      (id : String) (l : ActiveLease)
      → lookup id g.leases ≡ some l
      → l.phase ≡ (if g.is_draining then draining else active)
  pub waited_for : g.empty_waiters ≢ [] → 0 < size g.leases

pub new_registry-IsValid : IsValid new_registry
unfolding new_registry total lookup
new_registry-IsValid = record {
  leases_map = tt;
  roots_map = tt;
  claims_map = tt;
  keyed = λ id l e. cc;
  fresh = λ n h. refl;
  root_count = λ r. refl;
  claim_of_lease = λ id l c e h. cc;
  lease_of_claim = λ c id e. absurd (ground arith);
  phase_of = λ id l e. cc;
  waited_for = λ h. absurd (h refl);
}
