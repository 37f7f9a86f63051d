-- ===== src/Ledger.antt =====
-- packages/dsh-subagent-admission/src/host/ledger.ts: the durable ledger of admissions, one row to a
-- root. The storage domain is not this repository's: what it answers is an argument, `Storage`.
pub mod Reservation
pub mod Rows
pub mod Tail
use dsh_subagent_admission.Prelude.{
  ℕ, ◌+◌, String, Option, none, some, Bool, [], Dict, lookup, insert, not, ◌&&◌, leb, ltb, is_empty,
  if◌then◌else◌, Number, is_safe_nonnegative, max_safe_integer, Result, ok, err, ◌>>◌, throw_if,
}
use dsh_subagent_admission.Vocabulary.{
  AdmissionLimits, AdmissionErrorCode, admission_state_io, root_total_limit, parent_child_limit,
}
use dsh_subagent_admission.StateModel.{count_at}

-- `schemaVersion` is always 1 and left out.
pub record RootLedgerRow : Type 0 where
  pub root_session_id : String
  pub coverage_started_at : Number
  pub admitted_total : ℕ
  pub admitted_children_by_parent : Dict ℕ
  pub revision : ℕ

pub record ReserveNewInput : Type 0 where
  pub root_session_id : String
  pub parent_session_id : String
  pub limits : AdmissionLimits
  pub now : Number

pub record LedgerOperationalError : Type 0 where
  pub code : AdmissionErrorCode
  pub root_session_id : String
  pub parent_session_id : String
  pub observed_value : ℕ
  pub limit : ℕ

-- What `roots.put` does: it stores and fulfils, or rejects, with the row stored or not.
pub data PutAnswer : Type 0 where
  stored rejected_before rejected_after : PutAnswer

-- How the domain answers the calls of one operation.
pub record Storage : Type 0 where
  pub get_throws : Bool
  pub put : PutAnswer

-- What `assertActiveCapacity` does: it returns nothing, throws, returns a thenable, or returns a
-- value whose `then` cannot be read.
pub data CallbackOutcome (E : Type 0) : Type 0 where
  passes : CallbackOutcome E
  throws : E → CallbackOutcome E
  returns_thenable returns_unreadable : CallbackOutcome E

-- What a reservation throws: an error of its own, or the callback's.
pub data ReserveError (E : Type 0) : Type 0 where
  operational : LedgerOperationalError → ReserveError E
  from_callback : E → ReserveError E

-- The durable rows, and how often the probe was told of a write.
pub record LedgerState : Type 0 where
  pub rows : Dict RootLedgerRow
  pub writes : ℕ

abbrev pub ledger_error : AdmissionErrorCode → String → String → ℕ → ℕ → LedgerOperationalError
ledger_error code root parent observed limit = record {
  code = code;
  root_session_id = root;
  parent_session_id = parent;
  observed_value = observed;
  limit = limit;
}

-- The error of every storage failure: both counts are 0.
abbrev pub state_io : String → String → LedgerOperationalError
state_io root parent = ledger_error admission_state_io root parent 0 0

-- `isPositiveSafeInteger`.
abbrev pub is_positive_safe_integer : ℕ → Bool
is_positive_safe_integer n = ltb 0 n && leb n max_safe_integer

-- `assertValidReservation`; the texts and the limits are there by their types.
unfoldable pub is_valid_reservation : ReserveNewInput → Bool
is_valid_reservation input =
    not (is_empty input.root_session_id)
    && not (is_empty input.parent_session_id)
    && is_safe_nonnegative input.now
    && is_positive_safe_integer input.limits.global_active
    && is_positive_safe_integer input.limits.per_root_active
    && is_positive_safe_integer input.limits.per_root_admitted_total
    && is_positive_safe_integer input.limits.per_parent_children

-- `current?.admittedTotal ?? 0`, and so for the other fields.
abbrev pub total_of : Option RootLedgerRow → ℕ
total_of none = 0
total_of (some row) = row.admitted_total

abbrev pub revision_of : Option RootLedgerRow → ℕ
revision_of none = 0
revision_of (some row) = row.revision

abbrev pub children_of : Option RootLedgerRow → Dict ℕ
children_of none = []
children_of (some row) = row.admitted_children_by_parent

abbrev pub started_at : Option RootLedgerRow → Number → Number
started_at none now = now
started_at (some row) now = row.coverage_started_at

unfoldable pub next_row : Option RootLedgerRow → ReserveNewInput → RootLedgerRow
next_row current input = record {
  root_session_id = input.root_session_id;
  coverage_started_at = started_at current input.now;
  admitted_total = total_of current + 1;
  admitted_children_by_parent =
      insert input.parent_session_id (count_at input.parent_session_id (children_of current) + 1)
        (children_of current);
  revision = revision_of current + 1;
}

module _ {E : Type 0} where
  -- The checks before the callback.
  unfoldable pub check_totals :
      Option RootLedgerRow → ReserveNewInput → Result (ReserveError E) (Unit {0})
  check_totals current input =
      let total = total_of current in
      let count = count_at input.parent_session_id (children_of current) in
      let limits = input.limits in
      throw_if (leb limits.per_root_admitted_total total) (
        operational (
          ledger_error root_total_limit input.root_session_id input.parent_session_id total
            limits.per_root_admitted_total))
      >> throw_if (leb limits.per_parent_children count) (
          operational (
            ledger_error parent_child_limit input.root_session_id input.parent_session_id count
              limits.per_parent_children))

  -- A thenable or an unreadable result is refused: the callback must be synchronous.
  unfoldable pub run_callback :
      CallbackOutcome E → ReserveNewInput → Result (ReserveError E) (Unit {0})
  run_callback passes input = ok tt
  run_callback (throws e) input = err (from_callback e)
  run_callback returns_thenable input =
      err (operational (state_io input.root_session_id input.parent_session_id))
  run_callback returns_unreadable input =
      err (operational (state_io input.root_session_id input.parent_session_id))

  unfoldable pub put_row :
      PutAnswer
      → LedgerState
      → ReserveNewInput
      → RootLedgerRow
      → Result (ReserveError E) RootLedgerRow × LedgerState
  put_row stored s input row =
      (ok row, record { rows = insert input.root_session_id row s.rows; writes = s.writes + 1 })
  put_row rejected_before s input row =
      (err (operational (state_io input.root_session_id input.parent_session_id)), s)
  put_row rejected_after s input row = (
    err (operational (state_io input.root_session_id input.parent_session_id)),
    record s { rows = insert input.root_session_id row s.rows },
  )

  -- `reserveNewLocked` up to the write: the read, the cumulative checks and the callback.
  unfoldable pub prepare_row :
      Bool
      → LedgerState
      → ReserveNewInput
      → CallbackOutcome E
      → Result (ReserveError E) RootLedgerRow
  prepare_row get_throws s input callback =
      let current = lookup input.root_session_id s.rows in
      if get_throws
      then err (operational (state_io input.root_session_id input.parent_session_id))
      else elim (check_totals current input >> run_callback callback input) [
        | err e ↦ err e
        | ok _ ↦ ok (next_row current input)
      ]

  -- `reserveNewLocked`, with its one write.
  unfoldable pub reserve_new_locked :
      Storage
      → LedgerState
      → ReserveNewInput
      → CallbackOutcome E
      → Result (ReserveError E) RootLedgerRow × LedgerState
  unfolding prepare_row
  reserve_new_locked storage s input callback =
      elim (prepare_row storage.get_throws s input callback) [
        | err e ↦ (err e, s)
        | ok row ↦ put_row storage.put s input row
      ]

-- The body of `read` inside the serial section.
unfoldable pub read_row :
    Storage → LedgerState → String → Result LedgerOperationalError (Option RootLedgerRow)
read_row storage s root =
    if storage.get_throws then err (state_io root "") else ok (lookup root s.rows)
