-- ===== src/Ledger/Reservation.antt =====
-- ledger.ts, one reservation: when it is granted, what it writes, and what every failure leaves.
use dsh_subagent_admission.Prelude.{
  ◌+◌, ◌≤◌, ◌<◌, ◌≡◌, ◌⊎◌, ◌↔◌, ◌≢◌, String, Option, true, false, lookup, insert, lookup-insert,
  arith, eq_iff, ◌==◌, if◌then◌else◌, ok, err,
}
use dsh_subagent_admission.Vocabulary.{root_total_limit, parent_child_limit}
use dsh_subagent_admission.StateModel.{count_at}
use dsh_subagent_admission.Ledger.{
  RootLedgerRow, ReserveNewInput, stored, rejected_after, Storage, CallbackOutcome, passes, throws,
  returns_thenable, returns_unreadable, ReserveError, operational, from_callback, LedgerState,
  ledger_error, state_io, total_of, revision_of, children_of, next_row, check_totals, run_callback,
  put_row, reserve_new_locked,
}

-- The row that a reservation reads.
abbrev pub current_row : LedgerState → ReserveNewInput → Option RootLedgerRow
current_row s input = lookup input.root_session_id s.rows

-- Room under the two cumulative limits.
abbrev pub HasTotals : LedgerState → ReserveNewInput → Type 0
HasTotals s input =
    (total_of (current_row s input) < input.limits.per_root_admitted_total)
    × (count_at input.parent_session_id (children_of (current_row s input))
        < input.limits.per_parent_children)

module _ {E : Type 0} (storage : Storage) (s : LedgerState) (input : ReserveNewInput)
    (callback : CallbackOutcome E) where
  -- A reservation is granted exactly when the row is read, both cumulative counters are below their
  -- limits, the callback passes and the write is confirmed.
  pub reserve_decides :
      ((row : RootLedgerRow) × ((reserve_new_locked storage s input callback).0 ≡ ok row)) ↔ (
        (storage.get_throws ≡ false)
        × HasTotals s input
        × (callback ≡ passes)
        × (storage.put ≡ stored))
  unfolding reserve_new_locked check_totals run_callback put_row
  reserve_decides =
      ((λ h. ground arith), (λ h. (next_row (current_row s input) input, ground arith)))

  -- A granted reservation stores the next row of its root, which counts one more admission of the
  -- root and of the parent.
  pub reserve_granted :
      (row : RootLedgerRow)
      → (reserve_new_locked storage s input callback).0 ≡ ok row
      → let t = (reserve_new_locked storage s input callback).1 in
        (t.rows ≡ insert input.root_session_id row s.rows)
        × (t.writes ≡ s.writes + 1)
        × (row.admitted_total ≡ total_of (current_row s input) + 1)
        × (row.revision ≡ revision_of (current_row s input) + 1)
        × ((parent : String)
            → count_at parent row.admitted_children_by_parent
              ≡ count_at parent (children_of (current_row s input))
                + (if input.parent_session_id == parent then 1 else 0))
  unfolding reserve_new_locked check_totals run_callback put_row next_row
  reserve_granted row e = (
    ground arith,
    ground arith,
    ground arith,
    ground arith,
    λ parent. ground (
      arith,
      lookup-insert input.parent_session_id parent
          (count_at input.parent_session_id (children_of (current_row s input)) + 1)
          (children_of (current_row s input)),
      eq_iff input.parent_session_id parent,
    ),
  )

  -- A refused reservation writes nothing, unless it is the storage that rejects a write which it
  -- made: then the row counts an admission that was not granted, and never the other way round.
  pub reserve_refused :
      (x : ReserveError E)
      → (reserve_new_locked storage s input callback).0 ≡ err x
      → ((reserve_new_locked storage s input callback).1 ≡ s)
        ⊎ ((storage.put ≡ rejected_after)
            × HasTotals s input
            × ((reserve_new_locked storage s input callback).1.rows
                ≡ insert input.root_session_id (next_row (current_row s input) input) s.rows))
  unfolding reserve_new_locked check_totals run_callback put_row
  reserve_refused x e = ground arith

  -- Which error: the total of the root is reported exactly when it was read and is full, the children
  -- of the parent exactly when they are full and the total is not, and the error of the callback
  -- exactly when neither is; a storage failure is reported exactly when the read throws, or both
  -- counters have room and either the callback is not synchronous or it passes and the write is
  -- rejected.
  pub reserve_errors :
      let total = total_of (current_row s input) in
      let count = count_at input.parent_session_id (children_of (current_row s input)) in
      let root = input.root_session_id in
      let parent = input.parent_session_id in
      let result = (reserve_new_locked storage s input callback).0 in
      ((result
          ≡ err (
              operational (
                ledger_error root_total_limit root parent total
                  input.limits.per_root_admitted_total)))
        ↔ ((storage.get_throws ≡ false) × (input.limits.per_root_admitted_total ≤ total)))
      × ((result
            ≡ err (
                operational (
                  ledger_error parent_child_limit root parent count
                    input.limits.per_parent_children)))
          ↔ ((storage.get_throws ≡ false)
              × (total < input.limits.per_root_admitted_total)
              × (input.limits.per_parent_children ≤ count)))
      × ((x : E)
          → (result ≡ err (from_callback x))
            ↔ ((storage.get_throws ≡ false) × HasTotals s input × (callback ≡ throws x)))
      × ((result ≡ err (operational (state_io root parent))) ↔ (
          (storage.get_throws ≡ true)
          ⊎ (HasTotals s input
              × ((callback ≡ returns_thenable)
                  ⊎ ((callback ≡ returns_unreadable)
                      ⊎ ((callback ≡ passes) × (storage.put ≢ stored)))))))
  unfolding reserve_new_locked check_totals run_callback put_row
  reserve_errors = (
    ((λ h. ground arith), (λ h. ground arith)),
    ((λ h. ground arith), (λ h. ground arith)),
    (λ x. ((λ h. ground arith), (λ h. ground arith))),
    ((λ h. ground arith), (λ h. ground arith)),
  )
