-- ===== src/Leases.antt =====
-- packages/dsh-subagent-admission/src/host/leases.ts: the process-local registry of live leases.
-- A method that changes the registry returns the new one; a throw is an `err`.
pub mod Operations
pub mod Invariant
pub mod Contract
pub mod Calls
pub mod Effects
use dsh_subagent_admission.Prelude.{
  ℕ, ◌+◌, ◌-◌, String, Option, none, some, Bool, true, false, List, [], ◌∷◌, ◌++◌, Dict, lookup,
  contains, insert, erase, size, not, ◌&&◌, ◌||◌, ◌==◌, nat_eq, leb, is_empty, if◌then◌else◌,
  Number, is_safe_nonnegative, Result, ok, err, ◌>>=◌, ◌>>◌, throw_if,
}
use dsh_subagent_admission.Vocabulary.{
  AdmissionOperation, AdmissionLimits, AdmissionErrorCode, root_active_limit, global_active_limit,
}
use dsh_subagent_admission.StateModel.{permit_name, count_at, increment_count}

-- `ActiveCapacityError` with its code, `LeaseBindingConflict`, and the plain errors.
pub data LeaseError : Type 0 where
  active_capacity : AdmissionErrorCode → ℕ → ℕ → LeaseError
  binding_conflict : LeaseError
  invalid_insertion duplicate_permit_id root_count_failed : LeaseError

pub data LeasePhase : Type 0 where
  active draining : LeasePhase

pub record ActiveLease : Type 0 where
  pub permit_id : String
  pub request_id : String
  pub operation : AdmissionOperation
  pub root_session_id : String
  pub parent_session_id : String
  pub expected_child_session_id : Option String
  pub child_session_id : Option String
  pub admitted_at : Number
  pub phase : LeasePhase

pub record ActiveLeaseInsert : Type 0 where
  pub request_id : String
  pub operation : AdmissionOperation
  pub root_session_id : String
  pub parent_session_id : String
  pub expected_child_session_id : Option String
  pub initial_child_session_id : Option String
  pub admitted_at : Number

pub data LeaseBindResult : Type 0 where
  bound duplicate : LeaseBindResult

pub data LeaseBindInspection : Type 0 where
  available already_bound : LeaseBindInspection

-- A waiter is the number of the promise that `whenEmpty` handed out.
pub record ActiveLeaseRegistry : Type 0 where
  pub leases : Dict ActiveLease
  pub active_by_root : Dict ℕ
  pub child_claims : Dict String
  pub empty_waiters : List ℕ
  pub permit_counter : ℕ
  pub is_draining : Bool

unfoldable pub new_registry : ActiveLeaseRegistry
new_registry = record {
  leases = [];
  active_by_root = [];
  child_claims = [];
  empty_waiters = [];
  permit_counter = 0;
  is_draining = false;
}

abbrev pub global_active : ActiveLeaseRegistry → ℕ
global_active g = size g.leases

abbrev pub root_active : ActiveLeaseRegistry → String → ℕ
root_active g root = count_at root g.active_by_root

unfoldable pub assert_root_then_global_capacity :
    ActiveLeaseRegistry → String → AdmissionLimits → Result LeaseError (Unit {0})
assert_root_then_global_capacity g root limits = do
  throw_if (leb limits.per_root_active (root_active g root))
      (active_capacity root_active_limit (root_active g root) limits.per_root_active)
  throw_if (leb limits.global_active (global_active g))
      (active_capacity global_active_limit (global_active g) limits.global_active)

-- `value === undefined || test(value)`.
abbrev pub absent_or : (String → Bool) → Option String → Bool
absent_or p none = true
absent_or p (some s) = p s

-- `a === undefined || b === undefined || a === b`.
abbrev pub agree : Option String → Option String → Bool
agree (some a) (some b) = a == b
agree none b = true
agree a none = true

-- The operation is one of the three by its type.
unfoldable pub is_valid_insert : ActiveLeaseInsert → Bool
is_valid_insert input =
    not (is_empty input.request_id)
    && not (is_empty input.root_session_id)
    && not (is_empty input.parent_session_id)
    && is_safe_nonnegative input.admitted_at
    && absent_or (λ s. not (is_empty s)) input.expected_child_session_id
    && absent_or (λ s. not (is_empty s)) input.initial_child_session_id
    && agree input.expected_child_session_id input.initial_child_session_id

-- `input.expectedChildSessionId ?? input.initialChildSessionId`.
abbrev pub either_child : Option String → Option String → Option String
either_child (some c) d = some c
either_child none d = d

abbrev pub claimed_child : ActiveLeaseInsert → Option String
claimed_child input = either_child input.expected_child_session_id input.initial_child_session_id

abbrev pub is_claimed : Option String → Dict String → Bool
is_claimed none claims = false
is_claimed (some child) claims = contains child claims

abbrev pub claim : Option String → String → Dict String → Dict String
claim none id claims = claims
claim (some child) id claims = insert child id claims

unfoldable pub new_lease : ActiveLeaseRegistry → ActiveLeaseInsert → ActiveLease
new_lease g input = record {
  permit_id = permit_name g.permit_counter;
  request_id = input.request_id;
  operation = input.operation;
  root_session_id = input.root_session_id;
  parent_session_id = input.parent_session_id;
  expected_child_session_id = input.expected_child_session_id;
  child_session_id = input.initial_child_session_id;
  admitted_at = input.admitted_at;
  phase = if g.is_draining then draining else active;
}

unfoldable pub inserted : ActiveLeaseRegistry → ActiveLeaseInsert → ActiveLeaseRegistry
unfolding new_lease
inserted g input = record g {
  leases = insert (permit_name g.permit_counter) (new_lease g input) g.leases;
  active_by_root = increment_count g.active_by_root input.root_session_id;
  child_claims = claim (claimed_child input) (permit_name g.permit_counter) g.child_claims;
  permit_counter = g.permit_counter + 1;
}

unfoldable pub insert_lease :
    ActiveLeaseRegistry → ActiveLeaseInsert → Result LeaseError (ActiveLease × ActiveLeaseRegistry)
insert_lease g input = do
  throw_if (not (is_valid_insert input)) invalid_insertion
  throw_if (contains (permit_name g.permit_counter) g.leases) duplicate_permit_id
  throw_if (is_claimed (claimed_child input) g.child_claims) binding_conflict
  ok (new_lease g input, inserted g input)

unfoldable pub assert_child_available : ActiveLeaseRegistry → String → Result LeaseError (Unit {0})
assert_child_available g child =
    throw_if (is_empty child || contains child g.child_claims) binding_conflict
