-- ===== src/Controller/Polls.antt =====
-- controller.ts, the polls of earlier sessions, and the answers to a poll.
use dsh_subagent_admission.Prelude.{
  ℕ, ◌+◌, ◌≤◌, ◌<◌, ◌≡◌, refl, String, Option, none, some, Bool, true, false, List, [], ◌∷◌, arith,
}
use dsh_subagent_admission.Controller.{
  AdmissionSnapshot, AdmissionSnapshotController, Poll, retries, ended, RemoteAnswer, value,
  error_result, rejection, retry_delay, is_snapshot_for_session, replace, cancel_active, stop,
  is_current, start, poll_succeeds, poll_fails, poll_answered, subscribe, unsubscribe,
  ControllerStep, starts, stops, answers, subscribes, unsubscribes, controller_step,
  controller_steps,
}

replace-generation :
    (o : Option AdmissionSnapshot) (c : AdmissionSnapshotController)
    → (replace o c).generation ≡ c.generation
unfolding replace
replace-generation o c = ground arith

stop-generation : (c : AdmissionSnapshotController) → (stop c).generation ≡ c.generation + 1
unfolding stop cancel_active
stop-generation c = omega (arith, replace-generation none (cancel_active c))

start-generation :
    (session : String) (c : AdmissionSnapshotController)
    → c.generation ≤ (start session c).1.generation
unfolding start cancel_active
start-generation session c = ground (arith, replace-generation none (cancel_active c))

poll_answered-generation :
    (answer : RemoteAnswer) (p : Poll) (c : AdmissionSnapshotController)
    → (poll_answered answer p c).1.generation ≡ c.generation
unfolding poll_answered poll_succeeds poll_fails
poll_answered-generation (value s) p c = ground (arith, replace-generation (some s) c)
poll_answered-generation error_result p c = ground arith
poll_answered-generation rejection p c = ground arith

controller_step-generation :
    (step : ControllerStep) (c : AdmissionSnapshotController)
    → c.generation ≤ (controller_step step c).generation
unfolding controller_step subscribe unsubscribe
controller_step-generation (starts session) c = start-generation session c
controller_step-generation stops c = omega (arith, stop-generation c)
controller_step-generation (answers p answer) c = omega (arith, poll_answered-generation answer p c)
controller_step-generation (subscribes listener) c = ground arith
controller_step-generation (unsubscribes listener) c = omega arith

controller_steps-generation :
    (steps : List ControllerStep) (c : AdmissionSnapshotController)
    → c.generation ≤ (controller_steps steps c).generation
unfolding controller_steps
controller_steps-generation [] c = omega arith
controller_steps-generation (step ∷ steps) c = omega (
  arith,
  controller_step-generation step c,
  controller_steps-generation steps (controller_step step c),
)

-- An answer to a poll of an earlier generation is dropped.
old_poll_is_dropped :
    (answer : RemoteAnswer) (p : Poll) (c : AdmissionSnapshotController)
    → p.generation < c.generation
    → poll_answered answer p c ≡ (record p { phase = ended }, c)
unfolding poll_answered
old_poll_is_dropped answer p c h =
    let old : is_current p c ≡ false = unfold is_current in ground arith in rw old refl

-- After `stop`, whatever is called later, the next answer to a poll that was begun before ends it and
-- changes nothing.
pub stop_ends_polls :
    (c : AdmissionSnapshotController) (p : Poll) (answer : RemoteAnswer)
    (later : List ControllerStep)
    → p.generation ≤ c.generation
    → let after = controller_steps later (stop c) in
      poll_answered answer p after ≡ (record p { phase = ended }, after)
stop_ends_polls c p answer later h =
    old_poll_is_dropped answer p (controller_steps later (stop c))
      (omega (arith, stop-generation c, controller_steps-generation later (stop c)))

retry_delay_bounds : (n : ℕ) → (250 ≤ retry_delay n) × (retry_delay n ≤ 5000)
unfolding retry_delay
retry_delay_bounds n = ground arith

-- Whether an answer is a snapshot that the poll may take.
abbrev pub is_usable : RemoteAnswer → String → Bool
is_usable (value s) session = is_snapshot_for_session s session
is_usable error_result session = false
is_usable rejection session = false

-- An answer to a current poll that is an error, a rejection or a snapshot for another session changes
-- nothing that is shown and keeps the poll's cursor: the poll counts one more failure and waits
-- between 250 and 5000 milliseconds.
pub failed_answer_backs_off :
    (answer : RemoteAnswer) (p : Poll) (c : AdmissionSnapshotController)
    → is_current p c ≡ true
    → is_usable answer p.session_id ≡ false
    → (delay : ℕ) × (poll_answered answer p c
        ≡ (record p { failures = p.failures + 1; phase = retries delay }, c))
      × (250 ≤ delay)
      × (delay ≤ 5000)
unfolding poll_answered poll_fails
failed_answer_backs_off (value s) p c h k =
    let (low, high) = retry_delay_bounds p.failures in
    (retry_delay p.failures, rw (h, k) refl, low, high)
failed_answer_backs_off error_result p c h k =
    let (low, high) = retry_delay_bounds p.failures in
    (retry_delay p.failures, rw h refl, low, high)
failed_answer_backs_off rejection p c h k =
    let (low, high) = retry_delay_bounds p.failures in
    (retry_delay p.failures, rw h refl, low, high)
