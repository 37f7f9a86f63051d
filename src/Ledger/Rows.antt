-- ===== src/Ledger/Rows.antt =====
-- ledger.ts, sequences of reservations: the rows, and what the totals count.
use dsh_subagent_admission.Prelude.{
  ℕ, ◌+◌, ◌≤◌, ◌≡◌, refl, sym, subst, ap, ◌∙◌, ◌≢◌, ◌⊎◌, inl, inr, String, Option, none, some, List,
  [], ◌∷◌, Dict, lookup, insert, lookup-insert, total, total-insert, IsMap, insert-IsMap, All, max,
  arith, eq_iff, ◌==◌, if◌then◌else◌, Result, ok, err, Bool-cases,
}
use dsh_subagent_admission.Vocabulary.{AdmissionLimits}
use dsh_subagent_admission.StateModel.{count_at}
use dsh_subagent_admission.Ledger.{
  RootLedgerRow, ReserveNewInput, LedgerState, rejected_after, Storage, CallbackOutcome,
  ReserveError, total_of, next_row, check_totals, run_callback, put_row, reserve_new_locked,
}
use dsh_subagent_admission.Ledger.Reservation.{HasTotals, current_row}

-- A row is its root's, its revision and its total agree, and the total is the sum over the parents.
pub record IsValidRow (root : String) (row : RootLedgerRow) : Type 0 where
  pub own : row.root_session_id ≡ root
  pub revised : row.revision ≡ row.admitted_total
  pub summed : total (λ n. n) row.admitted_children_by_parent ≡ row.admitted_total
  pub children_map : IsMap row.admitted_children_by_parent

abbrev pub IsValidLedger : LedgerState → Type 0
IsValidLedger s =
    (root : String) (row : RootLedgerRow) → lookup root s.rows ≡ some row → IsValidRow root row

next_row-IsValidRow :
    (current : Option RootLedgerRow) (input : ReserveNewInput)
    → ((row : RootLedgerRow) → current ≡ some row → IsValidRow input.root_session_id row)
    → IsValidRow input.root_session_id (next_row current input)
unfolding next_row total lookup insert
next_row-IsValidRow none input h = record {
  own = refl;
  revised = refl;
  summed = refl;
  children_map = (refl, tt);
}
next_row-IsValidRow (some row) input h =
    let v = h row refl in
    record {
      own = refl;
      revised = omega (arith, v.revised);
      summed = ground (
        arith,
        v.summed,
        total-insert (λ n. n) input.parent_session_id
            (count_at input.parent_session_id row.admitted_children_by_parent + 1)
            row.admitted_children_by_parent,
      );
      children_map = insert-IsMap _ _ row.admitted_children_by_parent v.children_map;
    }

-- The durable total of a root.
abbrev pub root_total : String → LedgerState → ℕ
root_total r s = total_of (lookup r s.rows)

-- One call of `reserveNew` in the serial section, with the storage's answers and the callback's.
pub record Attempt (E : Type 0) : Type 0 where
  pub storage : Storage
  pub input : ReserveNewInput
  pub callback : CallbackOutcome E

module _ {E : Type 0} where
  abbrev pub outcome : LedgerState → Attempt E → Result (ReserveError E) RootLedgerRow
  outcome s a = (reserve_new_locked a.storage s a.input a.callback).0

  abbrev pub after : LedgerState → Attempt E → LedgerState
  after s a = (reserve_new_locked a.storage s a.input a.callback).1

  pub run : LedgerState → List (Attempt E) → LedgerState
  run s [] = s
  run s (a ∷ as') = run (after s a) as'

  -- The rows after an attempt: the same, or with the next row of a root that had room.
  attempt_cases :
      (s : LedgerState) (a : Attempt E)
      → ((after s a).rows ≡ s.rows)
        ⊎ (HasTotals s a.input
            × ((after s a).rows
                ≡ insert a.input.root_session_id (next_row (current_row s a.input) a.input) s.rows))
  unfolding reserve_new_locked check_totals run_callback put_row
  attempt_cases s a = ground arith

  after-IsValidLedger :
      (s : LedgerState) (a : Attempt E) → IsValidLedger s → IsValidLedger (after s a)
  after-IsValidLedger s a v root row e = elim (attempt_cases s a) [
    | inl same ↦ v root row (ap (λ (m : Dict RootLedgerRow). lookup root m) (sym same) ∙ e)
    | inr (_, next) ↦
        let r = a.input.root_session_id in
        let new = next_row (current_row s a.input) a.input in
        let e' : lookup root (insert r new s.rows) ≡ some row =
          ap (λ (m : Dict RootLedgerRow). lookup root m) (sym next) ∙ e in
        elim (Bool-cases (r == root)) [
          | inl own ↦
              subst (λ x. IsValidRow x row) ((eq_iff r root).0 own)
                (subst (IsValidRow r) (ground (arith, lookup-insert r root new s.rows, e', own))
                  (next_row-IsValidRow (current_row s a.input) a.input (v r)))
          | inr other ↦ v root row (ground (arith, lookup-insert r root new s.rows, e', other))
        ]
  ]

  -- Whatever the storage answers, every stored row stays the row of its root, with its revision equal
  -- to its total and its total equal to the sum over its parents.
  pub run-IsValidLedger :
      (s : LedgerState) (as' : List (Attempt E)) → IsValidLedger s → IsValidLedger (run s as')
  unfolding run
  run-IsValidLedger s [] v = v
  run-IsValidLedger s (a ∷ as') v = run-IsValidLedger (after s a) as' (after-IsValidLedger s a v)

  -- One if the attempt on this root is granted.
  abbrev pub grants : String → LedgerState → Attempt E → ℕ
  grants r s a = elim (outcome s a) [
    | ok row ↦ if a.input.root_session_id == r then 1 else 0
    | err e ↦ 0
  ]

  pub granted : String → LedgerState → List (Attempt E) → ℕ
  granted r s [] = 0
  granted r s (a ∷ as') = grants r s a + granted r (after s a) as'

  attempt_total :
      (r : String) (s : LedgerState) (a : Attempt E)
      → (root_total r s + grants r s a ≤ root_total r (after s a))
        × (a.storage.put ≢ rejected_after
            → root_total r (after s a) ≡ root_total r s + grants r s a)
        × (root_total r (after s a) ≤ max (root_total r s) a.input.limits.per_root_admitted_total)
  unfolding reserve_new_locked check_totals run_callback put_row next_row
  attempt_total r s a =
      let law =
        lookup-insert a.input.root_session_id r (next_row (current_row s a.input) a.input) s.rows in
      (
        ground (arith, law, eq_iff a.input.root_session_id r),
        (λ h. ground (arith, law, eq_iff a.input.root_session_id r)),
        ground (arith, law, eq_iff a.input.root_session_id r),
      )

  -- The durable total of a root never counts less than the admissions granted to it, whatever the
  -- storage answers.
  pub run_counts_grants :
      (r : String) (s : LedgerState) (as' : List (Attempt E))
      → root_total r s + granted r s as' ≤ root_total r (run s as')
  unfolding run granted
  run_counts_grants r s [] = omega arith
  run_counts_grants r s (a ∷ as') =
      omega (arith, run_counts_grants r (after s a) as', (attempt_total r s a).0)

  -- The durable total of a root counts exactly the admissions granted to it, if the storage never
  -- rejects a write that it made.
  pub run_counts_exactly :
      (r : String) (s : LedgerState) (as' : List (Attempt E))
      → All (λ a. a.storage.put ≢ rejected_after) as'
      → root_total r (run s as') ≡ root_total r s + granted r s as'
  unfolding run granted
  run_counts_exactly r s [] h = omega arith
  run_counts_exactly r s (a ∷ as') h =
      omega (arith, run_counts_exactly r (after s a) as' h.1, (attempt_total r s a).1 h.0)

  -- Under fixed limits the durable total of a root ends at most at the limit, or at where it began,
  -- whatever the storage answers.
  pub run_total_bound :
      (r : String) (limits : AdmissionLimits) (s : LedgerState) (as' : List (Attempt E))
      → All (λ a. a.input.limits ≡ limits) as'
      → root_total r (run s as') ≤ max (root_total r s) limits.per_root_admitted_total
  unfolding run
  run_total_bound r limits s [] h = omega arith
  run_total_bound r limits s (a ∷ as') h = omega (
    arith,
    run_total_bound r limits (after s a) as' h.1,
    (attempt_total r s a).2,
    ap (λ (l : AdmissionLimits). l.per_root_admitted_total) h.0,
  )
