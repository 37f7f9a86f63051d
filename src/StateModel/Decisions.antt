-- ===== src/StateModel/Decisions.antt =====
-- state-model.ts, who is admitted: the exact conditions, and the order in which limits are reported.
use dsh_subagent_admission.Prelude.{
  ℕ, ◌≤◌, ◌<◌, ◌≡◌, ◌≢◌, refl, ◌↔◌, Bool, String, true, false, Option, none, some, size, arith, leb,
  if◌then◌else◌, not,
}
use dsh_subagent_admission.Vocabulary.{
  AdmissionErrorCode, admission_unavailable, admission_closed, admission_state_io,
  admission_binding_conflict, root_total_limit, parent_child_limit, root_active_limit,
  global_active_limit, AdmissionDenied,
}
use dsh_subagent_admission.StateModel.{
  AdmissionState, AdmissionPermit, AdmissionLifecycle, opened, draining, NewAdmissionCommand,
  BindCommand, AdmissionCommand, new_admission, cold_resuming, as_operation, resident_follow_up,
  bind, release, unload, restart, AdmissionTransition, accepted, acknowledged, denied, count_at,
}
use dsh_subagent_admission.StateModel.Transitions.{
  is_open, is_true, new_permit, activated, transition_new_admission, transition_cold_resume,
  bind_permit, transition_bind, transition_release, unload_at, transition_unload,
  transition_restart, transition_model,
}
use dsh_subagent_admission.StateModel.Invariant.{IsValid, live_of}

-- The command's root and parent have room for one more child.
pub record HasRoom (s : AdmissionState) (c : NewAdmissionCommand) : Type 0 where
  pub open_for_new : s.lifecycle ≡ opened
  pub below_root_total : count_at c.root_id s.root_admitted_total < s.limits.per_root_admitted_total
  pub below_children : count_at c.parent_id s.parent_children < s.limits.per_parent_children
  pub below_root_active : count_at c.root_id s.root_active < s.limits.per_root_active
  pub below_global_active : s.global_active < s.limits.global_active
  pub ledger_wrote : c.ledger_failure ≢ some true

abbrev pub is_accepted : AdmissionTransition → Bool
is_accepted (accepted s p) = true
is_accepted (acknowledged s) = false
is_accepted (denied s d) = false

-- The command is accepted as a new child.
abbrev pub IsNewChild : AdmissionState → NewAdmissionCommand → Type 0
IsNewChild s c =
    transition_model s (new_admission c)
    ≡ accepted (activated s (as_operation c.operation) c.root_id c.parent_id true)
        (some (new_permit s (as_operation c.operation) c.root_id c.parent_id))

is_true-false : (o : Option Bool) → (is_true o ≡ false) ↔ (o ≢ some true)
is_true-false none = (λ h e. cc, λ h. refl)
is_true-false (some true) = (λ h. cc, λ h. absurd (h refl))
is_true-false (some false) = (λ h e. cc, λ h. refl)

-- A new child is accepted, in whatever way, only when the state is open, all four counters are below
-- their limits and the ledger did not fail to write; and when all this holds, it is accepted with the
-- permit and the next state of `activate` for a new child.
pub new_admission_decides :
    (s : AdmissionState) (c : NewAdmissionCommand)
    → ((is_accepted (transition_model s (new_admission c)) ≡ true) ↔ HasRoom s c)
      × (HasRoom s c ↔ IsNewChild s c)
unfolding transition_model transition_new_admission
new_admission_decides s c =
    let wrote = is_true-false c.ledger_failure in
    (
      (λ h. ground (arith, wrote), λ h. ground (arith, wrote)),
      (λ h. ground (arith, wrote), λ h. ground (arith, wrote)),
    )

-- What a denial reports: the first check that fails, with what was counted and the limit met.
abbrev pub Reports :
    AdmissionState → String → String → AdmissionDenied → AdmissionErrorCode → Type 0
Reports s root parent d admission_closed = s.lifecycle ≡ draining
Reports s root parent d root_total_limit =
    (d.observed_value ≡ count_at root s.root_admitted_total)
    × (d.limit ≡ s.limits.per_root_admitted_total)
    × (d.limit ≤ d.observed_value)
Reports s root parent d parent_child_limit =
    (d.observed_value ≡ count_at parent s.parent_children)
    × (d.limit ≡ s.limits.per_parent_children)
    × (d.limit ≤ d.observed_value)
    × (count_at root s.root_admitted_total < s.limits.per_root_admitted_total)
Reports s root parent d root_active_limit =
    (d.observed_value ≡ count_at root s.root_active)
    × (d.limit ≡ s.limits.per_root_active)
    × (d.limit ≤ d.observed_value)
    × (count_at root s.root_admitted_total < s.limits.per_root_admitted_total)
    × (count_at parent s.parent_children < s.limits.per_parent_children)
Reports s root parent d global_active_limit =
    (d.observed_value ≡ s.global_active)
    × (d.limit ≡ s.limits.global_active)
    × (d.limit ≤ d.observed_value)
    × (count_at root s.root_admitted_total < s.limits.per_root_admitted_total)
    × (count_at parent s.parent_children < s.limits.per_parent_children)
    × (count_at root s.root_active < s.limits.per_root_active)
Reports s root parent d admission_state_io =
    (s.global_active < s.limits.global_active)
    × (count_at root s.root_admitted_total < s.limits.per_root_admitted_total)
    × (count_at parent s.parent_children < s.limits.per_parent_children)
    × (count_at root s.root_active < s.limits.per_root_active)
Reports s root parent d admission_unavailable = ⊥
Reports s root parent d admission_binding_conflict = ⊥

-- A denied new admission reports the first failing check in the order closed, root total, parent
-- children, root active, global active, ledger: the counter it read has reached the limit that it
-- names, and the checks before it passed.
pub new_admission_denial :
    (s t : AdmissionState) (c : NewAdmissionCommand) (d : AdmissionDenied)
    → transition_model s (new_admission c) ≡ denied t d
    → (t ≡ s) × Reports s c.root_id c.parent_id d d.code
unfolding transition_model transition_new_admission
new_admission_denial s t c d e = ground arith

-- A command that is not accepted, denied or acknowledged, leaves the state as it was.
abbrev pub Unaccepted : AdmissionState → AdmissionTransition → Type 0
Unaccepted s (accepted t p) = Unit
Unaccepted s (acknowledged t) = t ≡ s
Unaccepted s (denied t d) = t ≡ s

bind_permit-Unaccepted :
    (s : AdmissionState) (p : AdmissionPermit) (o : Option String) (c : BindCommand)
    → Unaccepted s (bind_permit s p o c)
unfolding bind_permit
bind_permit-Unaccepted s p none c = tt
bind_permit-Unaccepted s p (some child) c = ground arith

unload_at-Unaccepted : (l : AdmissionLifecycle) (s : AdmissionState) → Unaccepted s (unload_at l s)
unfolding unload_at
unload_at-Unaccepted opened s = tt
unload_at-Unaccepted draining s = refl

-- A command that is denied or acknowledged returns the state unchanged.
pub transition_model-Unaccepted :
    (s : AdmissionState) (c : AdmissionCommand) → Unaccepted s (transition_model s c)
unfolding transition_model transition_new_admission transition_cold_resume transition_bind
    transition_release transition_unload transition_restart
transition_model-Unaccepted s (new_admission c) = ground arith
transition_model-Unaccepted s (cold_resuming c) = ground arith
transition_model-Unaccepted s resident_follow_up = refl
transition_model-Unaccepted s (bind c) =
    ground (arith, λ (p : AdmissionPermit). bind_permit-Unaccepted s p p.child_id c)
transition_model-Unaccepted s (release id) = ground arith
transition_model-Unaccepted s unload = unload_at-Unaccepted s.lifecycle s
transition_model-Unaccepted s restart = tt

-- The decision with every active count taken from the live permits themselves.
unfoldable pub counted_admission : AdmissionState → NewAdmissionCommand → AdmissionTransition
counted_admission s c =
    let refuse = λ (code : AdmissionErrorCode) (observed limit : ℕ). denied s (record {
      code = code;
      operation = as_operation c.operation;
      root_id = c.root_id;
      parent_id = some c.parent_id;
      observed_value = observed;
      limit = limit;
      policy_epoch = c.policy_epoch;
      request_id = c.request_id;
    }) in
    let total = count_at c.root_id s.root_admitted_total in
    let children = count_at c.parent_id s.parent_children in
    if not (is_open s.lifecycle)
    then refuse admission_closed 0 0
    else if leb s.limits.per_root_admitted_total total
    then refuse root_total_limit total s.limits.per_root_admitted_total
    else if leb s.limits.per_parent_children children
    then refuse parent_child_limit children s.limits.per_parent_children
    else if leb s.limits.per_root_active (live_of c.root_id s.permits)
    then refuse root_active_limit (live_of c.root_id s.permits) s.limits.per_root_active
    else if leb s.limits.global_active (size s.permits)
    then refuse global_active_limit (size s.permits) s.limits.global_active
    else if is_true c.ledger_failure
    then refuse admission_state_io 0 0
    else accepted (activated s (as_operation c.operation) c.root_id c.parent_id true)
        (some (new_permit s (as_operation c.operation) c.root_id c.parent_id))

-- In a valid state the cached active counters decide a new admission as counting the live permits
-- would.
pub new_admission-counted :
    (s : AdmissionState) (c : NewAdmissionCommand)
    → IsValid s
    → transition_model s (new_admission c) ≡ counted_admission s c
unfolding transition_model transition_new_admission counted_admission
new_admission-counted s c v = rw (← v.root_count c.root_id, ← v.active_size) refl
