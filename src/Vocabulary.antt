-- ===== src/Vocabulary.antt =====
-- packages/dsh-subagent-admission/src/types.ts and src/host/errors.ts: the words that the host's
-- parts share.
use dsh_subagent_admission.Prelude.{ℕ, String, Option}

pub data AdmissionOperation : Type 0 where
  new_one_shot new_continuable cold_resume : AdmissionOperation

-- Counters and limits are natural numbers: the host checks that they are safe integers.
pub record AdmissionLimits : Type 0 where
  pub global_active : ℕ
  pub per_root_active : ℕ
  pub per_root_admitted_total : ℕ
  pub per_parent_children : ℕ

-- `ADMISSION_ERROR_CODES`.
pub data AdmissionErrorCode : Type 0 where
  admission_unavailable admission_closed admission_state_io : AdmissionErrorCode
  admission_binding_conflict : AdmissionErrorCode
  root_total_limit parent_child_limit root_active_limit global_active_limit : AdmissionErrorCode

-- `createAdmissionDenied` copies exactly these fields, so a record literal stands for its call.
pub record AdmissionDenied : Type 0 where
  pub code : AdmissionErrorCode
  pub operation : AdmissionOperation
  pub root_id : String
  pub parent_id : Option String
  pub observed_value : ℕ
  pub limit : ℕ
  pub policy_epoch : String
  pub request_id : String
