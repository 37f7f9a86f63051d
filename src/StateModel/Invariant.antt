-- ===== src/StateModel/Invariant.antt =====
-- state-model.ts, the invariant of `AdmissionState`: the live permits and the active counters agree
-- and stay within the limits.
pub mod Steps
use dsh_subagent_admission.Prelude.{
  ℕ, ◌≤◌, ◌≡◌, refl, ◌≢◌, String, none, some, [], Dict, lookup, size, total, IsMap, arith, ◌==◌,
  if◌then◌else◌,
}
use dsh_subagent_admission.Vocabulary.{AdmissionLimits}
use dsh_subagent_admission.StateModel.{
  AdmissionLifecycle, AdmissionState, AdmissionPermit, CreateAdmissionStateInput,
  create_admission_state, count_at, permit_name,
}

-- One if the permit is of this root.
abbrev pub of_root : String → AdmissionPermit → ℕ
of_root r p = if p.root_id == r then 1 else 0

-- How many live permits a root has.
abbrev pub live_of : String → Dict AdmissionPermit → ℕ
live_of r m = total (of_root r) m

pub record IsValid (s : AdmissionState) : Type 0 where
  pub permits_map : IsMap s.permits
  pub keyed : (k : String) (p : AdmissionPermit) → lookup k s.permits ≡ some p → p.permit_id ≡ k
  pub fresh : (n : ℕ) → s.permit_counter ≤ n → lookup (permit_name n) s.permits ≡ none
  pub active_size : s.global_active ≡ size s.permits
  pub root_map : IsMap s.root_active
  pub root_sum : total (λ n. n) s.root_active ≡ s.global_active
  pub root_count : (r : String) → count_at r s.root_active ≡ live_of r s.permits
  pub root_positive : (r : String) → lookup r s.root_active ≢ some 0
  pub global_bound : s.global_active ≤ s.limits.global_active
  pub root_bound : (r : String) → count_at r s.root_active ≤ s.limits.per_root_active

-- With no live permit nothing is counted.
pub inactive-IsValid :
    (limits : AdmissionLimits) (lifecycle : AdmissionLifecycle) (totals children : Dict ℕ)
    (counter : ℕ)
    → IsValid (record {
      limits = limits;
      lifecycle = lifecycle;
      global_active = 0;
      root_active = [];
      root_admitted_total = totals;
      parent_children = children;
      permits = [];
      permit_counter = counter;
    })
unfolding total lookup
inactive-IsValid limits lifecycle totals children counter = record {
  permits_map = tt;
  keyed = λ k p e. cc;
  fresh = λ n h. refl;
  active_size = refl;
  root_map = tt;
  root_sum = refl;
  root_count = λ r. refl;
  root_positive = λ r e. cc;
  global_bound = omega arith;
  root_bound = λ r. omega arith;
}

pub create_admission_state-IsValid :
    (input : CreateAdmissionStateInput) → IsValid (create_admission_state input)
unfolding create_admission_state
create_admission_state-IsValid input = inactive-IsValid _ _ _ _ _
