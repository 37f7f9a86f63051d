-- ===== src/Telemetry/Isolation.antt =====
-- telemetry.ts, what a snapshot shows of other roots.
use dsh_subagent_admission.Prelude.{
  ◌⊎◌, ℕ, ◌≡◌, refl, String, Option, none, some, true, List, [], ◌∷◌, ◌++◌, All, shift, inl, inr,
  Bool-cases, ltb, length, eq_iff, arith,
}
use dsh_subagent_admission.Vocabulary.{AdmissionLimits}
use dsh_subagent_admission.Telemetry.Values.{
  AdmissionTelemetryEventInput, SanitizedEvent, SanitizedLease, sanitize_event,
}
use dsh_subagent_admission.Telemetry.{
  AdmissionTelemetry, AdmissionEvent, new_telemetry, is_bound, projected, push_history, advance,
  keep_event, max_history_events, scope_under, record_scoped, scope_event, scoped, record_event,
  record_all,
}
use dsh_subagent_admission.Telemetry.History.{remember_bindings-Keeps}
use dsh_subagent_admission.Telemetry.Snapshot.{
  Readers, AdmissionLease, leases_of, show_leases, events_of, is_text, shows_event, show, snapshot,
  read_snapshot_inputs,
}

-- An event names its root, or no request and no session.
abbrev IsScoped : AdmissionEvent → Type 0
IsScoped e =
    ((e.root_id ≡ none) × (e.request_id ≡ none) × (e.parent_session_id ≡ none))
    ⊎ ((root : String) × (e.root_id ≡ some root))

-- As above, and the root is the requested one.
abbrev pub IsVisible : Option String → AdmissionEvent → Type 0
IsVisible requested e =
    ((e.root_id ≡ none) × (e.request_id ≡ none) × (e.parent_session_id ≡ none))
    ⊎ ((root : String) × (e.root_id ≡ some root) × (requested ≡ some root))

projected-IsScoped :
    (own inferred : Option String) (event : SanitizedEvent)
    → event.root_id ≡ own
    → IsScoped (projected (scope_under own inferred event))
unfolding projected
projected-IsScoped none none event e = inl (e, refl, refl)
projected-IsScoped none (some root) event e = inr (root, refl)
projected-IsScoped (some root) inferred event e = inr (root, e)

All-append_one {ℓ κ} :
    {A : Type ℓ} (P : A → Type κ) (xs : List A) (x : A) → All P xs → P x → All P (xs ++ x ∷ [])
All-append_one P [] x h p = (p, tt)
All-append_one P (y ∷ xs) x h p = (h.0, All-append_one P xs x h.1 p)

All-shift {ℓ κ} : {A : Type ℓ} (P : A → Type κ) (xs : List A) → All P xs → All P (shift xs)
All-shift P [] h = tt
All-shift P (x ∷ xs) h = h.1

push_history-IsScoped :
    (event : AdmissionEvent) (t : AdmissionTelemetry)
    → All IsScoped t.history
    → IsScoped event
    → All IsScoped (push_history event t).history
unfolding push_history
push_history-IsScoped event t h s =
    let grown = All-append_one IsScoped t.history event h s in
    elim (Bool-cases (ltb max_history_events (length (t.history ++ event ∷ [])))) [
      | inl e ↦ rw e (All-shift IsScoped (t.history ++ event ∷ []) grown)
      | inr e ↦ rw e grown
    ]

keep_event-IsScoped :
    (event : SanitizedEvent) (t : AdmissionTelemetry)
    → All IsScoped t.history
    → IsScoped (projected event)
    → All IsScoped (keep_event event t).history
unfolding keep_event
keep_event-IsScoped event t h s = elim (Bool-cases (is_bound event.kind)) [
  | inl e ↦ rw e h
  | inr e ↦ rw e (push_history-IsScoped (projected event) t h s)
]

module _ (to_iso : ℕ → String) where
  record_event-IsScoped :
      (input : AdmissionTelemetryEventInput) (t : AdmissionTelemetry)
      → All IsScoped t.history
      → All IsScoped (record_event to_iso input t).0.history
  unfolding record_event record_scoped scoped scope_event advance
  record_event-IsScoped input t h =
      let event = scoped to_iso input t in
      keep_event-IsScoped event (advance event t) (rw (remember_bindings-Keeps event t).history h)
        (projected-IsScoped _ _ (sanitize_event to_iso input) refl)

  record_all-IsScoped :
      (inputs : List AdmissionTelemetryEventInput) (t : AdmissionTelemetry)
      → All IsScoped t.history
      → All IsScoped (record_all to_iso inputs t).history
  unfolding record_all
  record_all-IsScoped [] t h = h
  record_all-IsScoped (input ∷ inputs) t h =
      record_all-IsScoped inputs _ (record_event-IsScoped input t h)

is_text-eq : (o : Option String) (s : String) → is_text o s ≡ true → o ≡ some s
is_text-eq none s h = cc
is_text-eq (some t) s h = ground (arith, eq_iff t s)

shown-IsVisible :
    (requested own : Option String) (e : AdmissionEvent)
    → e.root_id ≡ own
    → shows_event requested own ≡ true
    → IsScoped e
    → IsVisible requested e
shown-IsVisible requested none e o h (inl s) = inl s
shown-IsVisible requested none e o h (inr (root, s)) = cc
shown-IsVisible requested (some root) e o h s = inr (root, o, is_text-eq requested root h)

events_of-IsVisible :
    (requested : Option String) (events : List AdmissionEvent)
    → All IsScoped events
    → All (IsVisible requested) (events_of requested events)
unfolding events_of
events_of-IsVisible requested [] h = tt
events_of-IsVisible requested (e ∷ events) h =
    let rest = events_of-IsVisible requested events h.1 in
    elim (Bool-cases (shows_event requested e.root_id)) [
      | inl s ↦ rw s (shown-IsVisible requested e.root_id e refl s h.0, rest)
      | inr s ↦ rw s rest
    ]

show_leases-root :
    (to_iso : ℕ → String) (requested : Option String) (leases : List SanitizedLease)
    → All
        (λ (l : AdmissionLease). requested ≡ some l.root_id)
        (show_leases to_iso (leases_of requested leases))
unfolding show_leases leases_of
show_leases-root to_iso requested [] = tt
show_leases-root to_iso requested (l ∷ leases) =
    let rest = show_leases-root to_iso requested leases in
    elim (Bool-cases (is_text requested l.root_session_id)) [
      | inl s ↦ rw s (is_text-eq requested l.root_session_id s, rest)
      | inr s ↦ rw s rest
    ]

-- A snapshot after any events of a new telemetry, whatever the readers answer, shows only leases of
-- the requested root, and only events that name the requested root or name no root, no request and no
-- parent session.
pub snapshot_shows_own_root :
    (to_iso : ℕ → String) (epoch : String) (limits : AdmissionLimits)
    (inputs : List AdmissionTelemetryEventInput) (readers : Readers) (session : String)
    → let shown =
        snapshot to_iso readers session (record_all to_iso inputs (new_telemetry epoch limits)) in
      All (λ (l : AdmissionLease). shown.requested_root_id ≡ some l.root_id) shown.leases
      × All (IsVisible shown.requested_root_id) shown.history
unfolding snapshot show new_telemetry
snapshot_shows_own_root to_iso epoch limits inputs readers session =
    let t = record_all to_iso inputs (new_telemetry epoch limits) in
    let inputs_read = read_snapshot_inputs readers in
    let requested = (snapshot to_iso readers session t).requested_root_id in
    (
      show_leases-root to_iso requested inputs_read.leases,
      events_of-IsVisible requested t.history
          (record_all-IsScoped to_iso inputs (new_telemetry epoch limits) tt),
    )
