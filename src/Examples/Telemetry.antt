-- ===== src/Examples/Telemetry.antt =====
-- telemetry.ts at concrete inputs.
use dsh_subagent_admission.Prelude.{
  ℕ, zero, suc, ◌-◌, ◌≤◌, ◌≡◌, ◌≢◌, ◌⊎◌, refl, String, some, none, true, false, List, [], ◌∷◌, All,
  inl, natural, lookup, insert, length, drop, decimal, eq_iff, arith,
}
use dsh_subagent_admission.Vocabulary.{AdmissionLimits}
use dsh_subagent_admission.Telemetry.Values.{
  Value, text, not_text, AdmissionTelemetryEventInput, TelemetryLeaseInput, unavailable,
  nullable_id, operation_named, mode_named, phase_named, sanitize_lease,
}
use dsh_subagent_admission.Telemetry.{AdmissionTelemetry, new_telemetry, record_event, record_all}
use dsh_subagent_admission.Telemetry.Snapshot.{answers, Readers, AdmissionLease, snapshot}
use dsh_subagent_admission.Telemetry.Watch.{
  SnapshotWatchRequest, floors_to, waiting, resolved, rejected, Signals, has_waiter, begin_watch,
  records, other_waits, watch_steps,
}
use dsh_subagent_admission.Telemetry.History.{journal, history_is_last_events}
use dsh_subagent_admission.Telemetry.Conflicts.{roots_are_own_roots}
use dsh_subagent_admission.Telemetry.Isolation.{IsVisible, snapshot_shows_own_root}
use dsh_subagent_admission.Telemetry.Enforcement.{
  snapshot_enforcement_decides, conflict_ends_enforcement,
}
use dsh_subagent_admission.Telemetry.Watch.Wakes.{no_change_is_missed}

abbrev limits : AdmissionLimits
limits = record {
  global_active = 4;
  per_root_active = 2;
  per_root_admitted_total = 8;
  per_parent_children = 4;
}

abbrev iso : ℕ → String
iso n = decimal n

abbrev fresh : AdmissionTelemetry
fresh = new_telemetry "epoch" limits

abbrev event : String → Value → Value → Value → AdmissionTelemetryEventInput
event kind root parent child = record {
  kind = text kind;
  time = natural 5;
  request_id = text "request";
  operation = text "cold-resume";
  root_id = root;
  parent_session_id = parent;
  child_session_id = child;
  code = not_text;
  is_duplicate = false;
}

-- A child is accepted and bound under the root `r`, and then denied with no root named.
abbrev story : List AdmissionTelemetryEventInput
story =
    event "accepted" (text "r") (text "p") not_text
    ∷ event "bound" (text "r") (text "p") (text "c")
    ∷ event "denied" not_text (text "c") not_text
    ∷ event "protocol" not_text (text "stranger") not_text
    ∷ []

story_roots : (record_all iso story fresh).session_roots ≡ ("r", "r") ∷ ("p", "r") ∷ ("c", "r") ∷ []
unfolding new_telemetry record_all lookup insert
story_roots = refl

history_is_last_events_example :
    ((record_all iso story fresh).history
      ≡ drop (length (journal iso story fresh) - 200) (journal iso story fresh))
    × ((record_all iso story fresh).dropped_history ≡ length (journal iso story fresh) - 200)
    × (length (record_all iso story fresh).history ≤ 200)
history_is_last_events_example = history_is_last_events iso "epoch" limits story

abbrev many : ℕ → List AdmissionTelemetryEventInput
many zero = []
many (suc n) = event "denied" (text "r") (text "p") not_text ∷ many n

-- Two events more than are kept.
dropped_two : (record_all iso (many 202) fresh).dropped_history ≡ 2
unfolding new_telemetry record_all lookup insert
dropped_two = refl

roots_are_own_roots_example : lookup "r" (record_all iso story fresh).session_roots ≡ some "r"
unfolding new_telemetry record_all lookup insert
roots_are_own_roots_example = roots_are_own_roots iso "epoch" limits story "c" "r" refl refl

abbrev lease : String → String → TelemetryLeaseInput
lease root parent = record {
  permit_id = "permit";
  request_id = "request";
  operation = text "new-continuable";
  root_session_id = root;
  parent_session_id = parent;
  expected_child_session_id = text "c";
  child_session_id = not_text;
  admitted_at = natural 7;
  phase = text "active";
  mode = not_text;
}

abbrev readers : Readers
readers = record {
  read_status =
      answers (record { mode = text "strict"; is_enforced = some true; reason = not_text });
  read_leases = answers (lease "r" "p" ∷ lease "other" "q" ∷ []);
  read_root_ledger = λ root. answers none;
  resolve_root = λ session. answers none;
  clock = answers (natural 9);
}

snapshot_shows_own_root_example :
    All
      (λ (l : AdmissionLease).
        (snapshot iso readers "c" (record_all iso story fresh)).requested_root_id ≡ some l.root_id)
      (snapshot iso readers "c" (record_all iso story fresh)).leases
    × All
        (IsVisible (snapshot iso readers "c" (record_all iso story fresh)).requested_root_id)
        (snapshot iso readers "c" (record_all iso story fresh)).history
snapshot_shows_own_root_example = snapshot_shows_own_root iso "epoch" limits story readers "c"

-- One of the two leases is of the root, and the event of the stranger lost its sessions.
shown_sizes :
    (length (snapshot iso readers "c" (record_all iso story fresh)).leases ≡ 1)
    × (length (snapshot iso readers "c" (record_all iso story fresh)).history ≡ 3)
unfolding snapshot new_telemetry record_all lookup insert phase_named
shown_sizes = (refl, refl)

snapshot_enforcement_decides_example :
    (snapshot iso readers "c" (record_all iso story fresh)).status.is_enforced ≡ true
unfolding snapshot mode_named sanitize_lease phase_named operation_named new_telemetry record_all
    lookup insert
snapshot_enforcement_decides_example =
    (snapshot_enforcement_decides iso readers "c" (record_all iso story fresh)).1 (record {
      status = (refl, inl refl);
      leases = (λ e. cc, (λ e. cc, tt));
      no_conflict = refl;
      resolver = tt;
      ledger = tt;
    })

r_is_not_s : ◌≢◌ {A = String} "r" "s"
r_is_not_s e = cc ((eq_iff "r" "s").1 e)

conflict_ends_enforcement_example :
    ((snapshot iso readers "c" (
        record_all iso
          (event "accepted" (text "s") (text "p") not_text ∷ story)
          (record_all iso story fresh))).status.mode
      ≡ unavailable)
    × ((snapshot iso readers "c" (
          record_all iso
            (event "accepted" (text "s") (text "p") not_text ∷ story)
            (record_all iso story fresh))).status.is_enforced
        ≡ false)
unfolding nullable_id new_telemetry record_all lookup insert
conflict_ends_enforcement_example =
    conflict_ends_enforcement iso (event "accepted" (text "s") (text "p") not_text) story
      (record_all iso story fresh) "s" "p" "r" readers "c" refl refl refl r_is_not_s

abbrev request : SnapshotWatchRequest
request = record {
  session_id = "c";
  epoch = some "epoch";
  revision = natural 0;
  timeout = floors_to 1000;
}

abbrev quiet : Signals
quiet = record { at_start = false; at_end = false }

no_change_is_missed_example :
    let (wait, t) =
      watch_steps iso
        (other_waits 2 ∷ records (event "denied" (text "r") not_text not_text) ∷ [])
        (begin_watch request quiet 1 fresh) in
    ((wait ≡ waiting 1) × (has_waiter 1 t.change_waiters ≡ true) × (t.revision ≡ fresh.revision))
    ⊎ (((wait ≡ resolved) ⊎ (wait ≡ rejected)) × (has_waiter 1 t.change_waiters ≡ false))
unfolding has_waiter new_telemetry
no_change_is_missed_example =
    no_change_is_missed iso request quiet 1 fresh
      (other_waits 2 ∷ records (event "denied" (text "r") not_text not_text) ∷ []) refl
      (omega arith, (tt, tt))

woken :
    (watch_steps iso
      (other_waits 2 ∷ records (event "denied" (text "r") not_text not_text) ∷ [])
      (begin_watch request quiet 1 fresh)).0
    ≡ resolved
unfolding watch_steps begin_watch new_telemetry record_event lookup insert
woken = refl
