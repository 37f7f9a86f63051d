-- ===== src/Examples/StateModel.antt =====
-- state-model.ts at concrete inputs.
use mathlib.Core.List.{Nodup}
use dsh_subagent_admission.Prelude.{
  ◌+◌, ◌≤◌, ◌≡◌, refl, String, none, some, List, [], ◌∷◌, lookup, size, insert, erase,
}
use dsh_subagent_admission.Vocabulary.{
  AdmissionLimits, root_active_limit, AdmissionDenied, new_one_shot,
}
use dsh_subagent_admission.StateModel.{
  AdmissionState, AdmissionPermit, AdmissionCommand, increment_count, NewAdmissionCommand, one_shot,
  BindCommand, new_admission, bind, release, unload, restart, denied, CreateAdmissionStateInput,
  create_admission_state, count_at, permit_name, from_pairs,
}
use dsh_subagent_admission.StateModel.Transitions.{
  transition_unload, transition_restart, released, transition_model, transition_new_admission,
  transition_release, transition_bind, activated,
}
use dsh_subagent_admission.StateModel.Invariant.{IsValid, create_admission_state-IsValid}
use dsh_subagent_admission.StateModel.Runs.{
  state_of, run, transition_model-IsValid, run_within_limits,
}
use dsh_subagent_admission.StateModel.Decisions.{
  HasRoom, Reports, counted_admission, new_admission_decides, new_admission_denial,
  new_admission-counted, Unaccepted, transition_model-Unaccepted,
}
use dsh_subagent_admission.StateModel.Accounting.{run_accounts, run_fuse, root_admissions}
use dsh_subagent_admission.StateModel.Issuing.{issued, issued-Nodup}
use dsh_subagent_admission.StateModel.Ownership.{Evolves, permit_keeps_owner, release_once}

abbrev small_limits : AdmissionLimits
small_limits = record {
  global_active = 2;
  per_root_active = 1;
  per_root_admitted_total = 3;
  per_parent_children = 3;
}

abbrev fresh_input : CreateAdmissionStateInput
fresh_input = record {
  limits = small_limits;
  lifecycle = none;
  root_admitted_total = some (from_pairs (("r1", 1) ∷ []));
  parent_children = none;
  permit_counter = none;
}

abbrev start_child : String → NewAdmissionCommand
start_child root = record {
  operation = one_shot;
  root_id = root;
  parent_id = "p";
  request_id = "q";
  policy_epoch = "e";
  ledger_failure = none;
}

abbrev bind_child : BindCommand
bind_child = record { permit_id = "permit-0"; child_id = "c"; request_id = "q"; policy_epoch = "e" }

abbrev history : List AdmissionCommand
history =
    new_admission (start_child "r1")
    ∷ new_admission (start_child "r1")
    ∷ bind bind_child
    ∷ new_admission (start_child "r2")
    ∷ release "permit-0"
    ∷ unload
    ∷ restart
    ∷ new_admission (start_child "r1")
    ∷ []

-- The second activation of r1 is refused, and the last one follows the restart.
issued_names :
    issued (create_admission_state fresh_input) history ≡ "permit-0" ∷ "permit-1" ∷ "permit-2" ∷ []
unfolding issued create_admission_state transition_model transition_new_admission transition_release
    transition_bind transition_unload transition_restart activated released increment_count
    permit_name lookup insert erase
issued_names = refl

fresh_IsValid : IsValid (create_admission_state fresh_input)
fresh_IsValid = create_admission_state-IsValid fresh_input

transition_model-IsValid_example : IsValid (
    state_of
      (transition_model (create_admission_state fresh_input) (new_admission (start_child "r1"))))
transition_model-IsValid_example =
    transition_model-IsValid (create_admission_state fresh_input) (new_admission (start_child "r1"))
      fresh_IsValid

run_within_limits_example : size (run (create_admission_state fresh_input) history).permits ≤ 2
run_within_limits_example = (run_within_limits fresh_input history).0

-- The state after the first command.
abbrev busy_state : AdmissionState
busy_state =
    state_of
      (transition_model (create_admission_state fresh_input) (new_admission (start_child "r1")))

abbrev first_permit : AdmissionPermit
first_permit = record {
  permit_id = "permit-0";
  root_id = "r1";
  parent_id = "p";
  operation = new_one_shot;
  child_id = none;
}

busy_IsValid : IsValid busy_state
busy_IsValid =
    transition_model-IsValid (create_admission_state fresh_input) (new_admission (start_child "r1"))
      fresh_IsValid

busy_lookup : lookup "permit-0" busy_state.permits ≡ some first_permit
unfolding create_admission_state transition_model transition_new_admission activated increment_count
    permit_name lookup insert
busy_lookup = refl

new_admission_decides_example : HasRoom (create_admission_state fresh_input) (start_child "r1")
unfolding create_admission_state transition_model transition_new_admission activated increment_count
    permit_name lookup insert
new_admission_decides_example =
    (new_admission_decides (create_admission_state fresh_input) (start_child "r1")).0.0 refl

abbrev limit_denial : AdmissionDenied
limit_denial = record {
  code = root_active_limit;
  operation = new_one_shot;
  root_id = "r1";
  parent_id = some "p";
  observed_value = 1;
  limit = 1;
  policy_epoch = "e";
  request_id = "q";
}

denied_at_limit :
    transition_model busy_state (new_admission (start_child "r1")) ≡ denied busy_state limit_denial
unfolding create_admission_state transition_model transition_new_admission activated increment_count
    permit_name lookup insert
denied_at_limit = refl

new_admission_denial_example :
    (busy_state ≡ busy_state) × Reports busy_state "r1" "p" limit_denial root_active_limit
new_admission_denial_example =
    new_admission_denial busy_state busy_state (start_child "r1") limit_denial denied_at_limit

transition_model-Unaccepted_example :
    Unaccepted busy_state (transition_model busy_state (new_admission (start_child "r1")))
transition_model-Unaccepted_example =
    transition_model-Unaccepted busy_state (new_admission (start_child "r1"))

new_admission-counted_example :
    transition_model busy_state (new_admission (start_child "r2"))
    ≡ counted_admission busy_state (start_child "r2")
new_admission-counted_example = new_admission-counted busy_state (start_child "r2") busy_IsValid

run_accounts_example :
    count_at "r1" (run (create_admission_state fresh_input) history).root_admitted_total
    ≡ count_at "r1" (create_admission_state fresh_input).root_admitted_total
      + root_admissions "r1" (create_admission_state fresh_input) history
run_accounts_example = (run_accounts "r1" "p" (create_admission_state fresh_input) history).0

run_fuse_example :
    count_at "r1" (run (create_admission_state fresh_input) history).root_admitted_total ≤ 3
unfolding create_admission_state insert lookup
run_fuse_example = (run_fuse "r1" "p" (create_admission_state fresh_input) history).0

issued-Nodup_example : Nodup (issued (create_admission_state fresh_input) history)
issued-Nodup_example = issued-Nodup (create_admission_state fresh_input) history

permit_keeps_owner_example :
    Evolves (some first_permit) (lookup "permit-0" (run busy_state history).permits)
permit_keeps_owner_example =
    permit_keeps_owner busy_state "permit-0" first_permit history busy_IsValid busy_lookup

release_once_example :
    (state_of (transition_model busy_state (release "permit-0"))).global_active + 1
    ≡ busy_state.global_active
release_once_example =
    (release_once busy_state "permit-0" first_permit history busy_IsValid busy_lookup).0
