-- ===== src/Authority/Permits.antt =====
-- authority.ts, `AdmissionPermit`, `bindLease` and `releaseLease`: what a permit does.
use dsh_subagent_admission.Prelude.{
  String, Option, none, some, Bool, true, false, List, [], ◌∷◌, ◌++◌, lookup, insert, if◌then◌else◌,
  Result, ok, err,
}
use dsh_subagent_admission.Vocabulary.{admission_binding_conflict, AdmissionDenied}
use dsh_subagent_admission.Leases.{ActiveLease, available, already_bound}
use dsh_subagent_admission.Leases.Operations.{inspect_binding, bind_lease, remove_lease}
use dsh_subagent_admission.Resolver.{ChildBindingInput, bind_child, has_other_parent}
use dsh_subagent_admission.Authority.{
  ReleaseReason, startup_failed, quiescent, EventKind, bound_event, released_event,
  failed_start_event, AuthorityEvent, releasing, lease_release_invariant_failed, Release, under_way,
  fulfilled, failed, AdmissionAuthority, close_admission, emit, event_for_lease,
}

-- `RuntimeReleaseReason`.
pub data RuntimeReason : Type 0 where
  startup_failed_reason quiescent_reason completed aborted_reason error_reason disposed :
      RuntimeReason

-- `normalizeReleaseReason`.
abbrev pub normalize_release_reason : RuntimeReason → ReleaseReason
normalize_release_reason startup_failed_reason = startup_failed
normalize_release_reason quiescent_reason = quiescent
normalize_release_reason completed = quiescent
normalize_release_reason aborted_reason = quiescent
normalize_release_reason error_reason = quiescent
normalize_release_reason disposed = quiescent

-- `bindingConflict`.
unfoldable pub binding_conflict_of : AdmissionAuthority → ActiveLease → AdmissionDenied
binding_conflict_of a lease = record {
  code = admission_binding_conflict;
  operation = lease.operation;
  root_id = lease.root_session_id;
  parent_id = some lease.parent_session_id;
  observed_value = 1;
  limit = 1;
  policy_epoch = a.policy_epoch;
  request_id = lease.request_id;
}

abbrev pub binding_input : ActiveLease → String → Option String → ChildBindingInput
binding_input lease child local_parent = record {
  child_session_id = child;
  expected_parent_session_id = lease.parent_session_id;
  expected_root_session_id = lease.root_session_id;
  local_parent_session_id = local_parent;
}

-- `leases.bind`, `leases.get` and the event, after the resolver has bound the child.
unfoldable pub bind_in_registry :
    ActiveLease
    → String
    → AdmissionAuthority
    → Result AdmissionDenied (Unit {0}) × AdmissionAuthority
unfolding binding_conflict_of event_for_lease
bind_in_registry lease child a = elim (bind_lease a.leases lease.permit_id child) [
  | err e ↦ (err (binding_conflict_of a lease), a)
  | ok (result, leases) ↦ elim (lookup lease.permit_id leases.leases) [
    | none ↦ (err (binding_conflict_of a lease), record a { leases = leases })
    | some live ↦ (
      ok tt,
      emit (event_for_lease bound_event live (some child) none false)
          (record a { leases = leases }),
    )
  ]
]

-- The case of an available child: the resolver binds first.
unfoldable pub bind_available :
    ActiveLease
    → String
    → Option String
    → AdmissionAuthority
    → Result AdmissionDenied (Unit {0}) × AdmissionAuthority
unfolding binding_conflict_of bind_in_registry
bind_available lease child local_parent a =
    elim (bind_child a.resolver (binding_input lease child local_parent)) [
      | err e ↦ (err (binding_conflict_of a lease), a)
      | ok resolver ↦ bind_in_registry lease child (record a { resolver = resolver })
    ]

-- `bindLease`.
unfoldable pub bind_lease_child :
    ActiveLease
    → String
    → Option String
    → AdmissionAuthority
    → Result AdmissionDenied (Unit {0}) × AdmissionAuthority
unfolding binding_conflict_of bind_available
bind_lease_child lease child local_parent a =
    if has_other_parent local_parent lease.parent_session_id
    then (err (binding_conflict_of a lease), a)
    else elim (inspect_binding a.leases lease.permit_id child) [
      | err e ↦ (err (binding_conflict_of a lease), a)
      | ok already_bound ↦ (ok tt, a)
      | ok available ↦ bind_available lease child local_parent a
    ]

-- `AdmissionPermit.bindChild`: once `release` was called, the permit binds nothing.
unfoldable pub permit_bind :
    ActiveLease
    → String
    → Option String
    → AdmissionAuthority
    → Result AdmissionDenied (Unit {0}) × AdmissionAuthority
unfolding binding_conflict_of bind_lease_child
permit_bind lease child local_parent a = elim (lookup lease.permit_id a.releases) [
  | some r ↦ (err (binding_conflict_of a lease), a)
  | none ↦ bind_lease_child lease child local_parent a
]

abbrev pub release_kind : ReleaseReason → EventKind
release_kind startup_failed = failed_start_event
release_kind quiescent = released_event

-- `emitRelease`.
unfoldable pub release_event : ActiveLease → ReleaseReason → Bool → AuthorityEvent
unfolding event_for_lease
release_event lease reason is_duplicate =
    event_for_lease (release_kind reason) lease lease.child_session_id (some reason) is_duplicate

-- `recordDuplicateRelease` for every call that waited.
unfoldable pub duplicate_events : ActiveLease → List ReleaseReason → List AuthorityEvent
unfolding release_event
duplicate_events lease [] = []
duplicate_events lease (reason ∷ reasons) =
    release_event lease reason true ∷ duplicate_events lease reasons

-- `AdmissionPermit.release`: the first call enters the serial section, a later one waits for it.
unfoldable pub permit_release :
    ActiveLease → RuntimeReason → AdmissionAuthority → AdmissionAuthority
unfolding release_event
permit_release lease runtime_reason a =
    let reason = normalize_release_reason runtime_reason in
    elim (lookup lease.permit_id a.releases) [
      | none ↦ record a {
        releases = insert lease.permit_id (under_way []) a.releases;
        tail = a.tail ++ releasing lease reason ∷ [];
      }
      | some (under_way reasons) ↦ record a {
        releases = insert lease.permit_id (under_way (reasons ++ reason ∷ [])) a.releases;
      }
      | some fulfilled ↦ emit (release_event lease reason true) a
      | some failed ↦ a
    ]

abbrev pub waiting_reasons : Option Release → List ReleaseReason
waiting_reasons none = []
waiting_reasons (some (under_way reasons)) = reasons
waiting_reasons (some fulfilled) = []
waiting_reasons (some failed) = []

-- `removed ?? lease`, and `removed === undefined`.
abbrev pub removed_or : Option ActiveLease → ActiveLease → ActiveLease
removed_or none lease = lease
removed_or (some removed) lease = removed

abbrev pub is_missing : Option ActiveLease → Bool
is_missing none = true
is_missing (some removed) = false

-- `releaseLease` in the serial section, and what follows when its promise settles.
unfoldable pub release_lease : ActiveLease → ReleaseReason → AdmissionAuthority → AdmissionAuthority
unfolding release_event duplicate_events
release_lease lease reason a =
    let id = lease.permit_id in
    let waiting = waiting_reasons (lookup id a.releases) in
    elim (remove_lease a.leases id) [
      | err e ↦
          let closed = close_admission a in
          record closed {
            releases = insert id failed closed.releases;
            diagnostics = closed.diagnostics ++ lease_release_invariant_failed ∷ [];
          }
      | ok (gone, leases, waiters) ↦ record a {
        leases = leases;
        releases = insert id fulfilled a.releases;
        events =
            a.events
            ++ release_event (removed_or gone lease) reason (is_missing gone)
              ∷ duplicate_events lease waiting;
      }
    ]
