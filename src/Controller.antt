-- ===== src/Controller.antt =====
-- packages/dsh-subagent-admission/src/client/controller.ts: the snapshot that the view shows, and the
-- polls that fetch it. Listeners do not call the controller back here.
pub mod Sessions
pub mod Polls
use dsh_subagent_admission.Prelude.{
  ℕ, suc, ◌+◌, String, Option, none, some, Bool, true, false, List, [], ◌∷◌, ◌++◌, ◌==◌, ◌&&◌, ◌||◌,
  not, nat_eq, ltb, is_empty, if◌then◌else◌, Number, natural, negative, other, is_safe_nonnegative,
}

-- The fields of a decoded `AdmissionSnapshot` that the controller reads, and the object's identity.
pub record AdmissionSnapshot : Type 0 where
  pub identity : ℕ
  pub schema_version : Number
  pub requested_session_id : String
  pub epoch : String
  pub revision : Number

-- An `AbortController` is known by the generation that it was made in. `deliveries` has, for each
-- notification, the listeners that were called.
pub record AdmissionSnapshotController : Type 0 where
  pub listeners : List ℕ
  pub current : Option AdmissionSnapshot
  pub active_session_id : Option String
  pub active_abort : Option ℕ
  pub generation : ℕ
  pub aborted : List ℕ
  pub deliveries : List (List ℕ)

pub data PollPhase : Type 0 where
  asks : PollPhase
  retries : ℕ → PollPhase
  ended : PollPhase

-- The variables of one call of `poll`, whose signal is that of its generation.
pub record Poll : Type 0 where
  pub session_id : String
  pub generation : ℕ
  pub cursor : Option AdmissionSnapshot
  pub failures : ℕ
  pub phase : PollPhase

-- What `remote.get` and `remote.watch` give: a snapshot, an error result, or a rejection.
pub data RemoteAnswer : Type 0 where
  value : AdmissionSnapshot → RemoteAnswer
  error_result rejection : RemoteAnswer

-- What a poll asks for.
pub data RemoteRequest : Type 0 where
  get : String → RemoteRequest
  watch : String → String → Number → ℕ → RemoteRequest

abbrev pub watch_timeout_ms : ℕ
watch_timeout_ms = 25000

-- `RETRY_BACKOFF_MS[Math.min(failures, RETRY_BACKOFF_MS.length - 1)]`.
unfoldable pub retry_delay : ℕ → ℕ
retry_delay n =
    if nat_eq n 0
    then 250
    else if nat_eq n 1
    then 500
    else if nat_eq n 2
    then 1000
    else if nat_eq n 3
    then 2000
    else 5000

abbrev pub is_one : Number → Bool
is_one (natural n) = nat_eq n 1
is_one (negative n) = false
is_one other = false

-- `isSnapshotForSession`.
unfoldable pub is_snapshot_for_session : AdmissionSnapshot → String → Bool
is_snapshot_for_session snapshot session =
    is_one snapshot.schema_version
    && snapshot.requested_session_id == session
    && not (is_empty snapshot.epoch)
    && is_safe_nonnegative snapshot.revision

unfoldable pub has_number : ℕ → List ℕ → Bool
has_number n [] = false
has_number n (x ∷ xs) = nat_eq x n || has_number n xs

abbrev pub is_session : Option String → String → Bool
is_session none session = false
is_session (some s) session = s == session

-- `Object.is`.
abbrev pub is_same_object : Option AdmissionSnapshot → Option AdmissionSnapshot → Bool
is_same_object none none = true
is_same_object none (some s) = false
is_same_object (some s) none = false
is_same_object (some s) (some u) = nat_eq s.identity u.identity

-- `replace`.
unfoldable pub replace :
    Option AdmissionSnapshot → AdmissionSnapshotController → AdmissionSnapshotController
replace next c =
    if is_same_object c.current next
    then c
    else record c { current = next; deliveries = c.deliveries ++ c.listeners ∷ [] }

abbrev pub abort_active : Option ℕ → List ℕ → List ℕ
abort_active none aborted = aborted
abort_active (some g) aborted = g ∷ aborted

-- `cancelActive`.
unfoldable pub cancel_active : AdmissionSnapshotController → AdmissionSnapshotController
cancel_active c = record c {
  generation = c.generation + 1;
  active_session_id = none;
  aborted = abort_active c.active_abort c.aborted;
  active_abort = none;
}

-- `stop`.
unfoldable pub stop : AdmissionSnapshotController → AdmissionSnapshotController
unfolding cancel_active replace
stop c = replace none (cancel_active c)

-- `isCurrent`.
unfoldable pub is_current : Poll → AdmissionSnapshotController → Bool
unfolding has_number
is_current p c =
    not (has_number p.generation c.aborted)
    && nat_eq c.generation p.generation
    && is_session c.active_session_id p.session_id

-- `this.activeAbort?.signal.aborted === false`.
abbrev pub has_live_abort : Option ℕ → List ℕ → Bool
has_live_abort none aborted = false
has_live_abort (some g) aborted = not (has_number g aborted)

-- What `start` does: it throws, keeps the poll that runs, or begins a new one.
pub data Start : Type 0 where
  refuses keeps : Start
  begins : Poll → Start

abbrev pub new_poll : String → ℕ → Poll
new_poll session generation = record {
  session_id = session;
  generation = generation;
  cursor = none;
  failures = 0;
  phase = asks;
}

abbrev pub switch_to : String → AdmissionSnapshotController → AdmissionSnapshotController
switch_to session c =
    let cleared = replace none (cancel_active c) in
    record cleared { active_session_id = some session; active_abort = some cleared.generation }

-- `start`.
unfoldable pub start : String → AdmissionSnapshotController → Start × AdmissionSnapshotController
unfolding cancel_active replace has_number
start session c =
    if is_empty session
    then (refuses, c)
    else if is_session c.active_session_id session && has_live_abort c.active_abort c.aborted
    then (keeps, c)
    else (let switched = switch_to session c in
        (begins (new_poll session switched.generation), switched))

-- The request of one round of `poll`.
unfoldable pub poll_request : Poll → RemoteRequest
poll_request p = elim p.cursor [
  | none ↦ get p.session_id
  | some cursor ↦ watch p.session_id cursor.epoch cursor.revision watch_timeout_ms
]

-- The test of the loop.
unfoldable pub next_round : Poll → AdmissionSnapshotController → Poll
unfolding is_current
next_round p c = if is_current p c then record p { phase = asks } else record p { phase = ended }

-- `catch` in `poll`.
unfoldable pub poll_fails : Poll → AdmissionSnapshotController → Poll × AdmissionSnapshotController
unfolding retry_delay
poll_fails p c =
    (record p { failures = p.failures + 1; phase = retries (retry_delay p.failures) }, c)

unfoldable pub poll_succeeds :
    AdmissionSnapshot → Poll → AdmissionSnapshotController → Poll × AdmissionSnapshotController
unfolding next_round replace
poll_succeeds snapshot p c =
    let shown = replace (some snapshot) c in
    (next_round (record p { cursor = some snapshot; failures = 0 }) shown, shown)

abbrev pub poll_current :
    RemoteAnswer → Poll → AdmissionSnapshotController → Poll × AdmissionSnapshotController
poll_current (value snapshot) p c =
    if is_snapshot_for_session snapshot p.session_id
    then poll_succeeds snapshot p c
    else poll_fails p c
poll_current error_result p c = poll_fails p c
poll_current rejection p c = poll_fails p c

-- The rest of a round of `poll`, once the remote has answered.
unfoldable pub poll_answered :
    RemoteAnswer → Poll → AdmissionSnapshotController → Poll × AdmissionSnapshotController
unfolding is_current is_snapshot_for_session poll_succeeds poll_fails
poll_answered answer p c =
    if is_current p c then poll_current answer p c else (record p { phase = ended }, c)

-- `subscribe`, and the function that it returns.
unfoldable pub subscribe : ℕ → AdmissionSnapshotController → AdmissionSnapshotController
unfolding has_number
subscribe listener c =
    if has_number listener c.listeners
    then c
    else record c { listeners = c.listeners ++ listener ∷ [] }

unfoldable pub without : ℕ → List ℕ → List ℕ
without n [] = []
without n (x ∷ xs) = let rest = without n xs in if nat_eq x n then rest else x ∷ rest

unfoldable pub unsubscribe : ℕ → AdmissionSnapshotController → AdmissionSnapshotController
unfolding without
unsubscribe listener c = record c { listeners = without listener c.listeners }

unfoldable pub new_controller : AdmissionSnapshotController
new_controller = record {
  listeners = [];
  current = none;
  active_session_id = none;
  active_abort = none;
  generation = 0;
  aborted = [];
  deliveries = [];
}

-- The polls that are answered may be any, at any time.
pub data ControllerStep : Type 0 where
  starts : String → ControllerStep
  stops : ControllerStep
  answers : Poll → RemoteAnswer → ControllerStep
  subscribes unsubscribes : ℕ → ControllerStep

unfoldable pub controller_step :
    ControllerStep → AdmissionSnapshotController → AdmissionSnapshotController
unfolding start stop poll_answered subscribe unsubscribe
controller_step (starts session) c = (start session c).1
controller_step stops c = stop c
controller_step (answers p answer) c = (poll_answered answer p c).1
controller_step (subscribes listener) c = subscribe listener c
controller_step (unsubscribes listener) c = unsubscribe listener c

unfoldable pub controller_steps :
    List ControllerStep → AdmissionSnapshotController → AdmissionSnapshotController
unfolding controller_step
controller_steps [] c = c
controller_steps (step ∷ steps) c = controller_steps steps (controller_step step c)
