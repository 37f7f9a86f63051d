-- ===== src/StateModel/Accounting.antt =====
-- state-model.ts, the cumulative counters: what a history adds to `rootAdmittedTotal` and
-- `parentChildren`.
use dsh_subagent_admission.Prelude.{
  ℕ, ◌+◌, ◌≤◌, ◌≡◌, refl, ap, max, String, Option, none, some, List, [], ◌∷◌, arith, ◌==◌,
  if◌then◌else◌, eq_iff,
}
use dsh_subagent_admission.Vocabulary.{AdmissionLimits}
use dsh_subagent_admission.StateModel.{
  AdmissionState, AdmissionPermit, AdmissionCommand, new_admission, cold_resuming,
  resident_follow_up, bind, release, unload, restart, AdmissionTransition, accepted, BindCommand,
  count_at,
}
use dsh_subagent_admission.StateModel.Transitions.{
  activated, released, transition_new_admission, transition_cold_resume, bind_permit,
  transition_bind, transition_release, transition_unload, transition_restart, transition_model,
}
use dsh_subagent_admission.StateModel.Counts.{count_at-increment_count}
use dsh_subagent_admission.StateModel.Runs.{state_of, run, limits-transition_model}

-- One if the command is a new admission of this root that was accepted.
abbrev pub admits_root : String → AdmissionCommand → AdmissionTransition → ℕ
admits_root r (new_admission c) (accepted t p) = if c.root_id == r then 1 else 0
admits_root r _ _ = 0

abbrev pub admits_parent : String → AdmissionCommand → AdmissionTransition → ℕ
admits_parent q (new_admission c) (accepted t p) = if c.parent_id == q then 1 else 0
admits_parent q _ _ = 0

-- How many new admissions of the root a history accepts.
pub root_admissions : String → AdmissionState → List AdmissionCommand → ℕ
root_admissions r s [] = 0
root_admissions r s (c ∷ cs) =
    admits_root r c (transition_model s c) + root_admissions r (state_of (transition_model s c)) cs

pub parent_admissions : String → AdmissionState → List AdmissionCommand → ℕ
parent_admissions q s [] = 0
parent_admissions q s (c ∷ cs) =
    admits_parent q c (transition_model s c)
    + parent_admissions q (state_of (transition_model s c)) cs

-- The parts of a state that only a new admission changes.
abbrev SameTotals : AdmissionState → AdmissionState → Type 0
SameTotals s t =
    (t.root_admitted_total ≡ s.root_admitted_total) × (t.parent_children ≡ s.parent_children)

bind_permit-SameTotals :
    (s : AdmissionState) (p : AdmissionPermit) (o : Option String) (c : BindCommand)
    → SameTotals s (state_of (bind_permit s p o c))
unfolding bind_permit
bind_permit-SameTotals s p none c = (refl, refl)
bind_permit-SameTotals s p (some child) c = ground arith

module _ (r q : String) (s : AdmissionState) where
  -- One command adds to the two counters exactly what it admits.
  transition_model-adds :
      (c : AdmissionCommand)
      → (count_at r (state_of (transition_model s c)).root_admitted_total
          ≡ count_at r s.root_admitted_total + admits_root r c (transition_model s c))
        × (count_at q (state_of (transition_model s c)).parent_children
            ≡ count_at q s.parent_children + admits_parent q c (transition_model s c))
  unfolding transition_model transition_new_admission transition_cold_resume transition_bind
      transition_release transition_unload transition_restart activated released
  transition_model-adds (new_admission c) = ground (
    arith,
    count_at-increment_count s.root_admitted_total c.root_id r,
    count_at-increment_count s.parent_children c.parent_id q,
  )
  transition_model-adds (cold_resuming c) = ground arith
  transition_model-adds resident_follow_up = ground arith
  transition_model-adds (bind c) =
      ground (arith, λ (p : AdmissionPermit). bind_permit-SameTotals s p p.child_id c)
  transition_model-adds (release id) = ground arith
  transition_model-adds unload = ground arith
  transition_model-adds restart = ground arith

  -- A counter that one command raises ends within its limit.
  transition_model-fuse :
      (c : AdmissionCommand)
      → (admits_root r c (transition_model s c) + count_at r s.root_admitted_total
          ≤ max (count_at r s.root_admitted_total) s.limits.per_root_admitted_total)
        × (admits_parent q c (transition_model s c) + count_at q s.parent_children
            ≤ max (count_at q s.parent_children) s.limits.per_parent_children)
  unfolding transition_model transition_new_admission
  transition_model-fuse (new_admission c) =
      (ground (arith, eq_iff c.root_id r), ground (arith, eq_iff c.parent_id q))
  transition_model-fuse (cold_resuming c) = (omega arith, omega arith)
  transition_model-fuse _ = (omega arith, omega arith)

-- Over any history, releases, drains and restarts included, the cumulative counters of a root and
-- of a parent grow by exactly the new admissions accepted for them.
pub run_accounts :
    (r q : String) (s : AdmissionState) (cs : List AdmissionCommand)
    → (count_at r (run s cs).root_admitted_total
        ≡ count_at r s.root_admitted_total + root_admissions r s cs)
      × (count_at q (run s cs).parent_children
          ≡ count_at q s.parent_children + parent_admissions q s cs)
unfolding run root_admissions parent_admissions
run_accounts r q s [] = (omega arith, omega arith)
run_accounts r q s (c ∷ cs) =
    let step = transition_model-adds r q s c in
    let rest = run_accounts r q (state_of (transition_model s c)) cs in
    (omega (arith, step.0, rest.0), omega (arith, step.1, rest.1))

-- The cumulative counters are a fuse: over any history they end at most at their limit, or at where
-- they began if that was above it.
pub run_fuse :
    (r q : String) (s : AdmissionState) (cs : List AdmissionCommand)
    → (count_at r (run s cs).root_admitted_total
        ≤ max (count_at r s.root_admitted_total) s.limits.per_root_admitted_total)
      × (count_at q (run s cs).parent_children
          ≤ max (count_at q s.parent_children) s.limits.per_parent_children)
unfolding run
run_fuse r q s [] = (omega arith, omega arith)
run_fuse r q s (c ∷ cs) =
    let step = transition_model-adds r q s c in
    let fuse = transition_model-fuse r q s c in
    let rest = run_fuse r q (state_of (transition_model s c)) cs in
    let same : (state_of (transition_model s c)).limits ≡ s.limits = limits-transition_model s c in
    (
      omega (
        arith,
        step.0,
        fuse.0,
        rest.0,
        ap (λ (l : AdmissionLimits). l.per_root_admitted_total) same,
      ),
      omega
          (arith, step.1, fuse.1, rest.1, ap (λ (l : AdmissionLimits). l.per_parent_children) same),
    )
