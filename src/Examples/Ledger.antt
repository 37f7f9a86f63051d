-- ===== src/Examples/Ledger.antt =====
-- ledger.ts at concrete inputs.
use dsh_subagent_admission.Prelude.{
  ◌+◌, ◌≡◌, ◌≤◌, refl, String, none, true, false, List, [], ◌∷◌, lookup, arith, insert, natural, ok,
  err, ◌⊎◌,
}
use dsh_subagent_admission.Vocabulary.{AdmissionLimits, parent_child_limit}
use dsh_subagent_admission.Ledger.{
  RootLedgerRow, ReserveNewInput, PutAnswer, stored, rejected_before, rejected_after, Storage,
  CallbackOutcome, passes, LedgerState, operational, state_io, ledger_error, next_row,
  reserve_new_locked, check_totals, run_callback, put_row,
}
use dsh_subagent_admission.Ledger.Reservation.{
  HasTotals, reserve_decides, reserve_granted, reserve_refused, reserve_errors,
}
use dsh_subagent_admission.Ledger.Rows.{
  IsValidLedger, Attempt, run, granted, root_total, run-IsValidLedger, run_counts_grants,
  run_counts_exactly, run_total_bound,
}
use dsh_subagent_admission.Ledger.Tail.{
  Operation, reserve, read, not_closing, domain_closed, Store, request, close, close_at, perform,
  Run, here, accepts, closes, performs, closes_domain, IsValid, Run-in_order, closed_after_all,
  close_completes, closed_refuses, Run-IsValid,
}

abbrev two_in_all : AdmissionLimits
two_in_all = record {
  global_active = 4;
  per_root_active = 1;
  per_root_admitted_total = 2;
  per_parent_children = 1;
}

abbrev input : ReserveNewInput
input = record {
  root_session_id = "r";
  parent_session_id = "p";
  limits = two_in_all;
  now = natural 5;
}

abbrev no_rows : LedgerState
no_rows = record { rows = []; writes = 0 }

abbrev answers : PutAnswer → Storage
answers a = record { get_throws = false; put = a }

abbrev ready : CallbackOutcome String
ready = passes

abbrev attempt : PutAnswer → Attempt String
attempt a = record { storage = answers a; input = input; callback = passes }

no_rows-IsValidLedger : IsValidLedger no_rows
unfolding lookup
no_rows-IsValidLedger r row e = cc

reserve_decides_example :
    (row : RootLedgerRow) × ((reserve_new_locked (answers stored) no_rows input ready).0 ≡ ok row)
unfolding lookup
reserve_decides_example =
    (reserve_decides {E = String} (answers stored) no_rows input ready).1
      (refl, (omega arith, omega arith), refl, refl)

reserve_granted_example : (reserve_new_locked (answers stored) no_rows input ready).1.writes ≡ 1
unfolding reserve_new_locked check_totals run_callback put_row lookup
reserve_granted_example =
    (reserve_granted {E = String} (answers stored) no_rows input ready (next_row none input) refl).1

-- A write that the storage makes and rejects: it counts, and it was not granted.
reserve_refused_example :
    (◌≡◌ {A = LedgerState}
      (reserve_new_locked (answers rejected_after) no_rows input ready).1
      no_rows)
    ⊎ ((rejected_after ≡ rejected_after)
        × HasTotals no_rows input
        × ((reserve_new_locked (answers rejected_after) no_rows input ready).1.rows
            ≡ insert "r" (next_row none input) []))
unfolding reserve_new_locked check_totals run_callback put_row lookup insert next_row
reserve_refused_example =
    reserve_refused {E = String} (answers rejected_after) no_rows input ready
      (operational (state_io "r" "p")) refl

abbrev one_row : LedgerState
unfolding next_row insert
one_row = record { rows = insert "r" (next_row none input) []; writes = 1 }

-- The parent has its one child: the second reservation reports it.
reserve_errors_example :
    (reserve_new_locked (answers stored) one_row input ready).0
    ≡ err (operational (ledger_error parent_child_limit "r" "p" 1 1))
unfolding next_row insert lookup
reserve_errors_example =
    (reserve_errors {E = String} (answers stored) one_row input ready).1.1
      (refl, omega arith, omega arith)

abbrev attempts : List (Attempt String)
attempts = attempt stored ∷ attempt rejected_before ∷ attempt stored ∷ []

run-IsValidLedger_example : IsValidLedger (run no_rows attempts)
run-IsValidLedger_example = run-IsValidLedger no_rows attempts no_rows-IsValidLedger

run_counts_grants_example :
    root_total "r" no_rows + granted "r" no_rows (attempt rejected_after ∷ [])
    ≤ root_total "r" (run no_rows (attempt rejected_after ∷ []))
run_counts_grants_example = run_counts_grants {E = String} "r" no_rows (attempt rejected_after ∷ [])

run_counts_exactly_example :
    root_total "r" (run no_rows attempts) ≡ root_total "r" no_rows + granted "r" no_rows attempts
run_counts_exactly_example =
    run_counts_exactly {E = String} "r" no_rows attempts ((λ e. cc), ((λ e. cc), ((λ e. cc), tt)))

run_total_bound_example : root_total "r" (run no_rows attempts) ≤ 2
unfolding lookup
run_total_bound_example =
    run_total_bound {E = String} "r" two_in_all no_rows attempts (refl, (refl, (refl, tt)))

-- A store that is asked for a reservation and a reading, and then closed.
abbrev reservation : Operation String
reservation = reserve input ready

abbrev asked : Store String
asked = record { ledger = no_rows; closed = false; closing = not_closing; tail = reservation ∷ [] }

asked-IsValid : IsValid asked
asked-IsValid = record { drained = λ e. cc; closed_first = λ e. refl; open_first = λ e. refl }

asked-Run : Run asked (read "r" ∷ []) [] (close (request asked (read "r")).0)
unfolding request
asked-Run = closes (accepts (read "r") here refl)

Run-IsValid_example : IsValid (close (request asked (read "r")).0)
Run-IsValid_example = Run-IsValid asked-IsValid asked-Run

Run-in_order_example :
    ◌≡◌ {A = List (Operation String)} (reservation ∷ read "r" ∷ []) (reservation ∷ read "r" ∷ [])
unfolding request close
Run-in_order_example = Run-in_order asked-Run

close_completes_example :
    (t : Store String) × Run (close asked) [] (reservation ∷ []) t × (t.closing ≡ domain_closed)
close_completes_example = close_completes asked (answers rejected_before) refl

-- The run to the closed domain.
abbrev done : Store String
done = record { ledger = one_row; closed = true; closing = domain_closed; tail = [] }

closed-Run : Run asked [] (reservation ∷ []) done
unfolding close close_at perform reserve_new_locked check_totals run_callback put_row next_row
    lookup insert
closed-Run =
    closes_domain (performs (answers stored) reservation [] (closes here) refl refl) refl refl refl

closed_after_all_example : ◌≡◌ {A = List (Operation String)} (reservation ∷ []) (reservation ∷ [])
closed_after_all_example =
    closed_after_all asked done [] (reservation ∷ []) asked-IsValid closed-Run refl

closed_refuses_example : (request (close asked) (read "r")).1 ≡ false
closed_refuses_example = closed_refuses asked (read "r") asked-IsValid
