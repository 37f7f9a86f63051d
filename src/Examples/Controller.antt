-- ===== src/Examples/Controller.antt =====
-- controller.ts at concrete inputs.
use dsh_subagent_admission.Prelude.{
  ℕ, ◌≤◌, ◌≡◌, refl, String, some, true, false, List, [], ◌∷◌, natural, length, is_empty,
  is_safe_nonnegative, arith,
}
use dsh_subagent_admission.Controller.{
  AdmissionSnapshot, AdmissionSnapshotController, retries, ended, value, get, is_one,
  is_snapshot_for_session, stop, start, is_current, new_poll, poll_request, poll_answered,
  new_controller, ControllerStep, starts, answers, subscribes, controller_steps,
}
use dsh_subagent_admission.Controller.Sessions.{shown_snapshot_is_own}
use dsh_subagent_admission.Controller.Polls.{stop_ends_polls, failed_answer_backs_off}

abbrev of_session : String → AdmissionSnapshot
of_session session = record {
  identity = 1;
  schema_version = natural 1;
  requested_session_id = session;
  epoch = "epoch";
  revision = natural 3;
}

-- A poll of `a` is answered after the controller has switched to `b`, and then one of `b`.
abbrev switches : List ControllerStep
switches =
    subscribes 7
    ∷ starts "a"
    ∷ starts "b"
    ∷ answers (new_poll "a" 1) (value (of_session "a"))
    ∷ answers (new_poll "b" 2) (value (of_session "b"))
    ∷ []

shown_snapshot_is_own_example :
    ((controller_steps switches new_controller).active_session_id ≡ some "b")
    × (is_one (of_session "b").schema_version ≡ true)
    × (is_empty (of_session "b").epoch ≡ false)
    × (is_safe_nonnegative (of_session "b").revision ≡ true)
unfolding controller_steps new_controller
shown_snapshot_is_own_example = shown_snapshot_is_own switches (of_session "b") refl

told_once : length (controller_steps switches new_controller).deliveries ≡ 1
unfolding controller_steps new_controller
told_once = refl

abbrev started : AdmissionSnapshotController
started = (start "a" new_controller).1

stop_ends_polls_example :
    poll_answered
      (value (of_session "a"))
      (new_poll "a" 1)
      (controller_steps (starts "a" ∷ []) (stop started))
    ≡ (record (new_poll "a" 1) { phase = ended }, controller_steps (starts "a" ∷ []) (stop started))
unfolding start new_controller
stop_ends_polls_example =
    stop_ends_polls started (new_poll "a" 1) (value (of_session "a")) (starts "a" ∷ [])
      (omega arith)

failed_answer_backs_off_example :
    (delay : ℕ) × (poll_answered (value (of_session "b")) (new_poll "a" 1) started
      ≡ (record (new_poll "a" 1) { failures = 1; phase = retries delay }, started))
    × (250 ≤ delay)
    × (delay ≤ 5000)
unfolding start new_controller is_current is_snapshot_for_session
failed_answer_backs_off_example =
    failed_answer_backs_off (value (of_session "b")) (new_poll "a" 1) started refl refl

first_request : poll_request (new_poll "a" 1) ≡ get "a"
unfolding poll_request
first_request = refl
