-- ===== src/StateModel.antt =====
-- packages/dsh-subagent-admission/src/host/state-model.ts: the pure admission state machine.

pub mod Transitions
pub mod Counts
pub mod Invariant
pub mod Runs
pub mod Decisions
pub mod Accounting
pub mod Ownership
pub mod Issuing
use Prim.Native.String as Str
use dsh_subagent_admission.Prelude.{
  ℕ, ◌+◌, ◌-◌, String, Option, none, some, Bool, true, false, List, [], ◌∷◌, Dict, lookup, insert,
  erase, decimal, not, ◌==◌, ltb, leb, if◌then◌else◌,
}
use dsh_subagent_admission.Vocabulary.{
  AdmissionOperation, new_one_shot, new_continuable, cold_resume, AdmissionLimits,
  AdmissionErrorCode, admission_closed, admission_state_io, admission_binding_conflict,
  root_total_limit, parent_child_limit, root_active_limit, global_active_limit, AdmissionDenied,
}

pub data AdmissionLifecycle : Type 0 where
  opened draining : AdmissionLifecycle

pub record AdmissionPermit : Type 0 where
  pub permit_id : String
  pub root_id : String
  pub parent_id : String
  pub operation : AdmissionOperation
  pub child_id : Option String

pub record AdmissionState : Type 0 where
  pub limits : AdmissionLimits
  pub lifecycle : AdmissionLifecycle
  pub global_active : ℕ
  pub root_active : Dict ℕ
  pub root_admitted_total : Dict ℕ
  pub parent_children : Dict ℕ
  pub permits : Dict AdmissionPermit
  pub permit_counter : ℕ

-- The operation of a `NewAdmissionCommand`: 'new-one-shot' | 'new-continuable'.
pub data NewOperation : Type 0 where
  one_shot continuable : NewOperation

abbrev pub as_operation : NewOperation → AdmissionOperation
as_operation one_shot = new_one_shot
as_operation continuable = new_continuable

pub record NewAdmissionCommand : Type 0 where
  pub operation : NewOperation
  pub root_id : String
  pub parent_id : String
  pub request_id : String
  pub policy_epoch : String
  pub ledger_failure : Option Bool

pub record ColdResumeCommand : Type 0 where
  pub root_id : String
  pub parent_id : String
  pub request_id : String
  pub policy_epoch : String

pub record BindCommand : Type 0 where
  pub permit_id : String
  pub child_id : String
  pub request_id : String
  pub policy_epoch : String

pub data AdmissionCommand : Type 0 where
  new_admission : NewAdmissionCommand → AdmissionCommand
  cold_resuming : ColdResumeCommand → AdmissionCommand
  resident_follow_up : AdmissionCommand
  bind : BindCommand → AdmissionCommand
  release : String → AdmissionCommand
  unload : AdmissionCommand
  restart : AdmissionCommand

pub data AdmissionTransition : Type 0 where
  accepted : AdmissionState → Option AdmissionPermit → AdmissionTransition
  acknowledged : AdmissionState → AdmissionTransition
  denied : AdmissionState → AdmissionDenied → AdmissionTransition

-- `m.get(k) ?? 0`.
abbrev pub count_at : String → Dict ℕ → ℕ
count_at k m = elim (lookup k m) [ none ↦ 0 | some n ↦ n ]

-- The template literal `permit-${n}`.
unfoldable pub permit_name : ℕ → String
unfolding decimal
permit_name n = Str.◌++◌ "permit-" (decimal n)

unfoldable pub increment_count : Dict ℕ → String → Dict ℕ
increment_count source key = insert key (count_at key source + 1) source

-- The three forms of `CountMapInput`; a record is given by its `Object.entries`.
pub data CountMapInput : Type 0 where
  from_map from_pairs from_record : List (String × ℕ) → CountMapInput

-- `new Map(entries)`: a later entry of the same key wins.
unfoldable pub map_of : Dict ℕ → List (String × ℕ) → Dict ℕ
map_of m [] = m
map_of m ((k, n) ∷ rest) = map_of (insert k n m) rest

unfoldable pub to_count_map : Option CountMapInput → Dict ℕ
unfolding map_of
to_count_map none = []
to_count_map (some (from_map m)) = map_of [] m
to_count_map (some (from_pairs l)) = map_of [] l
to_count_map (some (from_record l)) = map_of [] l

pub record CreateAdmissionStateInput : Type 0 where
  pub limits : AdmissionLimits
  pub lifecycle : Option AdmissionLifecycle
  pub root_admitted_total : Option CountMapInput
  pub parent_children : Option CountMapInput
  pub permit_counter : Option ℕ

-- `value ?? fallback`.
abbrev pub or_else {ℓ} : {A : Type ℓ} → Option A → A → A
or_else none d = d
or_else (some a) d = a

unfoldable pub create_admission_state : CreateAdmissionStateInput → AdmissionState
unfolding to_count_map
create_admission_state input = record {
  limits = input.limits;
  lifecycle = or_else input.lifecycle opened;
  global_active = 0;
  root_active = [];
  root_admitted_total = to_count_map input.root_admitted_total;
  parent_children = to_count_map input.parent_children;
  permits = [];
  permit_counter = or_else input.permit_counter 0;
}
