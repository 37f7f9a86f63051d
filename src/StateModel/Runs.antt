-- ===== src/StateModel/Runs.antt =====
-- state-model.ts, `transitionModel` and sequences of commands: the invariant after any history.
use dsh_subagent_admission.Prelude.{
  ◌≤◌, ◌<◌, ◌≡◌, refl, sym, subst, true, false, ◌∙◌, ◌⊎◌, inl, inr, String, Option, none, some,
  List, [], ◌∷◌, lookup, size, arith, Option-cases,
}
use dsh_subagent_admission.Vocabulary.{cold_resume}
use dsh_subagent_admission.StateModel.{
  AdmissionState, AdmissionPermit, AdmissionLifecycle, opened, draining, NewAdmissionCommand,
  ColdResumeCommand, BindCommand, AdmissionCommand, new_admission, cold_resuming,
  resident_follow_up, bind, release, unload, restart, AdmissionTransition, accepted, acknowledged,
  denied, as_operation, count_at, CreateAdmissionStateInput, create_admission_state,
}
use dsh_subagent_admission.StateModel.Transitions.{
  transition_new_admission, transition_cold_resume, bind_permit, transition_bind,
  transition_release, unload_at, transition_unload, transition_restart, transition_model, activated,
  released,
}
use dsh_subagent_admission.StateModel.Invariant.{
  IsValid, live_of, inactive-IsValid, create_admission_state-IsValid,
}
use dsh_subagent_admission.StateModel.Invariant.Steps.{
  activated-IsValid, released-IsValid, bound-IsValid,
}

-- The `state` of a transition.
abbrev pub state_of : AdmissionTransition → AdmissionState
state_of (accepted s p) = s
state_of (acknowledged s) = s
state_of (denied s d) = s

unfoldable pub run : AdmissionState → List AdmissionCommand → AdmissionState
run s [] = s
run s (c ∷ cs) = run (state_of (transition_model s c)) cs

pub new_admission_cases :
    (s : AdmissionState) (c : NewAdmissionCommand)
    → (state_of (transition_new_admission s c) ≡ s)
      ⊎ ((count_at c.root_id s.root_active < s.limits.per_root_active)
          × (s.global_active < s.limits.global_active)
          × (state_of (transition_new_admission s c)
              ≡ activated s (as_operation c.operation) c.root_id c.parent_id true))
unfolding transition_new_admission
new_admission_cases s c = ground arith

pub cold_resume_cases :
    (s : AdmissionState) (c : ColdResumeCommand)
    → (state_of (transition_cold_resume s c) ≡ s)
      ⊎ ((count_at c.root_id s.root_active < s.limits.per_root_active)
          × (s.global_active < s.limits.global_active)
          × (state_of (transition_cold_resume s c)
              ≡ activated s cold_resume c.root_id c.parent_id false))
unfolding transition_cold_resume
cold_resume_cases s c = ground arith

new_admission-IsValid :
    (s : AdmissionState) (c : NewAdmissionCommand)
    → IsValid s
    → IsValid (state_of (transition_new_admission s c))
new_admission-IsValid s c v = elim (new_admission_cases s c) [
  | inl e ↦ subst IsValid (sym e) v
  | inr (h, k, e) ↦ subst IsValid (sym e) (activated-IsValid s v _ c.root_id c.parent_id true h k)
]

cold_resume-IsValid :
    (s : AdmissionState) (c : ColdResumeCommand)
    → IsValid s
    → IsValid (state_of (transition_cold_resume s c))
cold_resume-IsValid s c v = elim (cold_resume_cases s c) [
  | inl e ↦ subst IsValid (sym e) v
  | inr (h, k, e) ↦ subst IsValid (sym e) (activated-IsValid s v _ c.root_id c.parent_id false h k)
]

bind_permit-IsValid :
    (s : AdmissionState) (p : AdmissionPermit) (o : Option String) (c : BindCommand)
    → IsValid s
    → lookup c.permit_id s.permits ≡ some p
    → IsValid (state_of (bind_permit s p o c))
unfolding bind_permit
bind_permit-IsValid s p none c v e = bound-IsValid s v c.permit_id p e c.child_id
bind_permit-IsValid s p (some child) c v e = ground arith

bind-IsValid :
    (s : AdmissionState) (c : BindCommand) → IsValid s → IsValid (state_of (transition_bind s c))
unfolding transition_bind
bind-IsValid s c v = elim (Option-cases (lookup c.permit_id s.permits)) [
  | inl e ↦ rw (e, transition_bind) v
  | inr (p, e) ↦ rw (e, transition_bind) (bind_permit-IsValid s p p.child_id c v e)
]

release-IsValid :
    (s : AdmissionState) (id : String) → IsValid s → IsValid (state_of (transition_release s id))
unfolding transition_release
release-IsValid s id v = elim (Option-cases (lookup id s.permits)) [
  | inl e ↦ rw (e, transition_release) v
  | inr (p, e) ↦ rw (e, transition_release) (released-IsValid s v id p e)
]

unload_at-IsValid :
    (l : AdmissionLifecycle) (s : AdmissionState) → IsValid s → IsValid (state_of (unload_at l s))
unfolding unload_at
unload_at-IsValid opened s v = record {
  permits_map = v.permits_map;
  keyed = v.keyed;
  fresh = v.fresh;
  active_size = v.active_size;
  root_map = v.root_map;
  root_sum = v.root_sum;
  root_count = v.root_count;
  root_positive = v.root_positive;
  global_bound = v.global_bound;
  root_bound = v.root_bound;
}
unload_at-IsValid draining s v = v

restart-IsValid : (s : AdmissionState) → IsValid s → IsValid (state_of (transition_restart s))
unfolding transition_restart
restart-IsValid s v = inactive-IsValid _ _ _ _ _

-- Every command, in every outcome, keeps the live permits and the active counters consistent and
-- within the limits.
pub transition_model-IsValid :
    (s : AdmissionState) (c : AdmissionCommand)
    → IsValid s
    → IsValid (state_of (transition_model s c))
unfolding transition_model
transition_model-IsValid s (new_admission c) v = new_admission-IsValid s c v
transition_model-IsValid s (cold_resuming c) v = cold_resume-IsValid s c v
transition_model-IsValid s resident_follow_up v = v
transition_model-IsValid s (bind c) v = bind-IsValid s c v
transition_model-IsValid s (release id) v = release-IsValid s id v
transition_model-IsValid s unload v = unfold transition_unload in unload_at-IsValid s.lifecycle s v
transition_model-IsValid s restart v = restart-IsValid s v

run-IsValid : (s : AdmissionState) (cs : List AdmissionCommand) → IsValid s → IsValid (run s cs)
unfolding run
run-IsValid s [] v = v
run-IsValid s (c ∷ cs) v =
    run-IsValid (state_of (transition_model s c)) cs (transition_model-IsValid s c v)

pub limits-transition_model :
    (s : AdmissionState) (c : AdmissionCommand)
    → (state_of (transition_model s c)).limits ≡ s.limits
unfolding transition_model transition_new_admission transition_cold_resume transition_bind
    transition_release transition_unload transition_restart activated released
limits-transition_model s c = ground arith

limits-run : (s : AdmissionState) (cs : List AdmissionCommand) → (run s cs).limits ≡ s.limits
unfolding run
limits-run s [] = refl
limits-run s (c ∷ cs) =
    limits-run (state_of (transition_model s c)) cs ∙ limits-transition_model s c

limits-create_admission_state :
    (input : CreateAdmissionStateInput) → (create_admission_state input).limits ≡ input.limits
unfolding create_admission_state
limits-create_admission_state input = refl

-- After any history from a fresh state, no more than `globalActive` permits are live, no root has
-- more than `perRootActive` of them; the counter of the process is the number of live permits, and the
-- counter of each root the number of its live permits.
pub run_within_limits :
    (input : CreateAdmissionStateInput) (cs : List AdmissionCommand)
    → let s = run (create_admission_state input) cs in
      (size s.permits ≤ input.limits.global_active)
      × ((r : String) → live_of r s.permits ≤ input.limits.per_root_active)
      × (s.global_active ≡ size s.permits)
      × ((r : String) → count_at r s.root_active ≡ live_of r s.permits)
run_within_limits input cs =
    let start = create_admission_state input in
    let v = run-IsValid start cs (create_admission_state-IsValid input) in
    let same = limits-run start cs ∙ limits-create_admission_state input in
    (
      ground (arith, v.active_size, v.global_bound, same),
      (λ r. ground (arith, v.root_count r, v.root_bound r, same)),
      v.active_size,
      v.root_count,
    )
