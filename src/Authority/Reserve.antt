-- ===== src/Authority/Reserve.antt =====
-- authority.ts, `acquire` with the ledger: the reservation and what follows the write.
use dsh_subagent_admission.Prelude.{
  String, some, Bool, [], not, ◌||◌, if◌then◌else◌, Number, Result, ok, err,
}
use dsh_subagent_admission.Vocabulary.{admission_state_io}
use dsh_subagent_admission.Leases.{LeaseError}
use dsh_subagent_admission.Ledger.{
  ReserveNewInput, PutAnswer, CallbackOutcome, passes, throws, ReserveError, operational, state_io,
  RootLedgerRow, is_valid_reservation, prepare_row, put_row,
}
use dsh_subagent_admission.Authority.{
  SubagentAdmissionRequest, Thrown, authority_error, writing, AdmissionAuthority, normalize_error,
  ledger_thrown,
}
use dsh_subagent_admission.Authority.Section.{Signal, catch_error, check_capacity, insert_step}

unfoldable pub reservation_input :
    AdmissionAuthority → SubagentAdmissionRequest → String → Number → ReserveNewInput
reservation_input a request root now = record {
  root_session_id = root;
  parent_session_id = request.parent_session_id;
  limits = a.limits;
  now = now;
}

-- The callback of the reservation: the capacity check.
abbrev pub capacity_callback : Result LeaseError (Unit {0}) → CallbackOutcome LeaseError
capacity_callback (ok _) = passes
capacity_callback (err e) = throws e

-- How the ledger answers: whether it is closed, and whether its read throws.
pub record LedgerAnswer : Type 0 where
  pub is_closed : Bool
  pub get_throws : Bool

unfoldable pub prepare_step :
    LedgerAnswer
    → SubagentAdmissionRequest
    → String
    → Number
    → AdmissionAuthority
    → Result (ReserveError LeaseError) RootLedgerRow
unfolding check_capacity reservation_input
prepare_step answer request root now a =
    let input = reservation_input a request root now in
    if answer.is_closed || not (is_valid_reservation input)
    then err (operational (state_io root request.parent_session_id))
    else prepare_row answer.get_throws a.ledger input (capacity_callback (check_capacity a root))

-- What a rejected reservation throws.
unfoldable pub reservation_error :
    AdmissionAuthority → SubagentAdmissionRequest → String → ReserveError LeaseError → Thrown
unfolding ledger_thrown normalize_error
reservation_error a request root e =
    authority_error
      (normalize_error a.limits a.policy_epoch admission_state_io request root (ledger_thrown e))

-- The ledger's turn: the read, the checks with the callback, and the call of `put`.
unfoldable pub ledger_answered :
    Signal
    → LedgerAnswer
    → SubagentAdmissionRequest
    → String
    → Number
    → AdmissionAuthority
    → AdmissionAuthority
unfolding reservation_error prepare_step
ledger_answered signal answer request root now a = elim (prepare_step answer request root now a) [
  | err e ↦ catch_error signal request root [] (reservation_error a request root e) a
  | ok row ↦ record a { section = some (writing request root now row) }
]

-- `put` has settled: the lease is inserted without a further await.
unfoldable pub put_answered :
    Signal
    → PutAnswer
    → SubagentAdmissionRequest
    → String
    → Number
    → RootLedgerRow
    → AdmissionAuthority
    → AdmissionAuthority
put_answered signal answer request root now row a =
    let (result, ledger) =
      put_row {E = LeaseError} answer a.ledger (reservation_input a request root now) row in
    let written = record a { ledger = ledger } in
    elim result [
      | err e ↦ catch_error signal request root [] (reservation_error a request root e) written
      | ok _ ↦ insert_step signal request root now written
    ]
