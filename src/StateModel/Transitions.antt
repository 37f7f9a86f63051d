-- ===== src/StateModel/Transitions.antt =====
-- state-model.ts, the transitions, one function to a command.
use dsh_subagent_admission.Prelude.{
  ℕ, ◌+◌, ◌-◌, String, Option, none, some, Bool, true, false, [], Dict, lookup, insert, erase, not,
  ◌==◌, ltb, leb, if◌then◌else◌,
}
use dsh_subagent_admission.Vocabulary.{
  AdmissionOperation, cold_resume, AdmissionErrorCode, admission_closed, admission_state_io,
  admission_binding_conflict, root_total_limit, parent_child_limit, root_active_limit,
  global_active_limit,
}
use dsh_subagent_admission.StateModel.{
  AdmissionLifecycle, AdmissionPermit, AdmissionState, as_operation, NewAdmissionCommand,
  ColdResumeCommand, BindCommand, AdmissionCommand, new_admission, cold_resuming,
  resident_follow_up, bind, release, unload, restart, AdmissionTransition, accepted, acknowledged,
  denied, count_at, permit_name, increment_count, opened, draining,
}

unfoldable pub deny :
    AdmissionState
    → AdmissionErrorCode
    → AdmissionOperation
    → String
    → Option String
    → ℕ
    → ℕ
    → String
    → String
    → AdmissionTransition
deny state code operation root parent observed limit request epoch = denied state (record {
  code = code;
  operation = operation;
  root_id = root;
  parent_id = parent;
  observed_value = observed;
  limit = limit;
  policy_epoch = epoch;
  request_id = request;
})

abbrev pub new_permit : AdmissionState → AdmissionOperation → String → String → AdmissionPermit
new_permit state operation root parent = record {
  permit_id = permit_name state.permit_counter;
  root_id = root;
  parent_id = parent;
  operation = operation;
  child_id = none;
}

unfoldable pub activated :
    AdmissionState → AdmissionOperation → String → String → Bool → AdmissionState
activated state operation root parent cumulative = record {
  limits = state.limits;
  lifecycle = state.lifecycle;
  global_active = state.global_active + 1;
  root_active = increment_count state.root_active root;
  root_admitted_total =
      if cumulative
      then increment_count state.root_admitted_total root
      else state.root_admitted_total;
  parent_children =
      if cumulative then increment_count state.parent_children parent else state.parent_children;
  permits =
      insert (permit_name state.permit_counter) (new_permit state operation root parent)
        state.permits;
  permit_counter = state.permit_counter + 1;
}

unfoldable pub activate :
    AdmissionState → AdmissionOperation → String → String → Bool → AdmissionTransition
activate state operation root parent cumulative =
    accepted (activated state operation root parent cumulative)
      (some (new_permit state operation root parent))

abbrev pub is_open : AdmissionLifecycle → Bool
is_open opened = true
is_open draining = false

-- `command.ledgerFailure === true`.
abbrev pub is_true : Option Bool → Bool
is_true (some true) = true
is_true _ = false

unfoldable pub transition_new_admission : AdmissionState → NewAdmissionCommand → AdmissionTransition
unfolding deny activate
transition_new_admission state command =
    let refuse = λ (code : AdmissionErrorCode) (observed limit : ℕ).
      deny state code (as_operation command.operation) command.root_id (some command.parent_id)
        observed limit command.request_id command.policy_epoch in
    let root_total = count_at command.root_id state.root_admitted_total in
    let children = count_at command.parent_id state.parent_children in
    let active = count_at command.root_id state.root_active in
    if not (is_open state.lifecycle)
    then refuse admission_closed 0 0
    else if leb limits.per_root_admitted_total root_total
    then refuse root_total_limit root_total limits.per_root_admitted_total
    else if leb limits.per_parent_children children
    then refuse parent_child_limit children limits.per_parent_children
    else if leb limits.per_root_active active
    then refuse root_active_limit active limits.per_root_active
    else if leb limits.global_active state.global_active
    then refuse global_active_limit state.global_active limits.global_active
    else if is_true command.ledger_failure
    then refuse admission_state_io 0 0
    else activate state (as_operation command.operation) command.root_id command.parent_id true
  where
    open state use {limits}

unfoldable pub transition_cold_resume : AdmissionState → ColdResumeCommand → AdmissionTransition
unfolding deny activate
transition_cold_resume state command =
    let refuse = λ (code : AdmissionErrorCode) (observed limit : ℕ).
      deny state code cold_resume command.root_id (some command.parent_id) observed limit
        command.request_id command.policy_epoch in
    let active = count_at command.root_id state.root_active in
    if not (is_open state.lifecycle)
    then refuse admission_closed 0 0
    else if leb limits.per_root_active active
    then refuse root_active_limit active limits.per_root_active
    else if leb limits.global_active state.global_active
    then refuse global_active_limit state.global_active limits.global_active
    else activate state cold_resume command.root_id command.parent_id false
  where
    open state use {limits}

abbrev pub bound_permit : AdmissionPermit → String → AdmissionPermit
bound_permit permit child = record permit { child_id = some child }

unfoldable pub bind_permit :
    AdmissionState → AdmissionPermit → Option String → BindCommand → AdmissionTransition
unfolding deny
bind_permit state permit none command =
    accepted
      (record state {
        permits = insert permit.permit_id (bound_permit permit command.child_id) state.permits;
      })
      (some (bound_permit permit command.child_id))
bind_permit state permit (some child) command =
    if child == command.child_id
    then acknowledged state
    else deny state admission_binding_conflict permit.operation permit.root_id
        (some permit.parent_id) 1 1 command.request_id command.policy_epoch

unfoldable pub transition_bind : AdmissionState → BindCommand → AdmissionTransition
unfolding bind_permit
transition_bind state command = elim (lookup command.permit_id state.permits) [
  | none ↦ acknowledged state
  | some permit ↦ bind_permit state permit permit.child_id command
]

-- `rootCount > 1` lowers the count, and a count of one goes with its entry.
unfoldable pub decrement_count : Dict ℕ → String → Dict ℕ
decrement_count source key =
    if ltb 1 (count_at key source)
    then insert key (count_at key source - 1) source
    else erase key source

-- `globalActive - 1` is taken only where a permit is live.
unfoldable pub released : AdmissionState → AdmissionPermit → AdmissionState
unfolding decrement_count
released state permit = record state {
  global_active = state.global_active - 1;
  root_active = decrement_count state.root_active permit.root_id;
  permits = erase permit.permit_id state.permits;
}

unfoldable pub transition_release : AdmissionState → String → AdmissionTransition
transition_release state permit_id = elim (lookup permit_id state.permits) [
  | none ↦ acknowledged state
  | some permit ↦ accepted (released state permit) (some permit)
]

unfoldable pub unload_at : AdmissionLifecycle → AdmissionState → AdmissionTransition
unload_at draining state = acknowledged state
unload_at opened state = accepted (record state { lifecycle = draining }) none

unfoldable pub transition_unload : AdmissionState → AdmissionTransition
unfolding unload_at
transition_unload state = unload_at state.lifecycle state

abbrev pub restarted : AdmissionState → AdmissionState
restarted state = record {
  limits = state.limits;
  lifecycle = opened;
  global_active = 0;
  root_active = [];
  root_admitted_total = state.root_admitted_total;
  parent_children = state.parent_children;
  permits = [];
  permit_counter = state.permit_counter;
}

unfoldable pub transition_restart : AdmissionState → AdmissionTransition
transition_restart state = accepted (restarted state) none

unfoldable pub transition_model : AdmissionState → AdmissionCommand → AdmissionTransition
transition_model state (new_admission command) = transition_new_admission state command
transition_model state (cold_resuming command) = transition_cold_resume state command
transition_model state resident_follow_up = acknowledged state
transition_model state (bind command) = transition_bind state command
transition_model state (release permit_id) = transition_release state permit_id
transition_model state unload = transition_unload state
transition_model state restart = transition_restart state
