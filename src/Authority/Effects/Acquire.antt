-- ===== src/Authority/Effects/Acquire.antt =====
-- authority.ts, the effects of the stretches of `acquire` that await the resolver and the ledger.
use dsh_subagent_admission.Prelude.{
  ◌≡◌, refl, sym, ap, subst, ◌∙◌, ◌⊎◌, inl, inr, String, Option, some, [], lookup, insert, arith,
  Number, is_safe_nonnegative, Result, ok, err, Bool-cases, Result-cases,
}
use dsh_subagent_admission.Vocabulary.{admission_state_io}
use dsh_subagent_admission.Leases.Invariant.{IsValid}
use dsh_subagent_admission.Leases.Effects.{Fewer, Fewer-same}
use dsh_subagent_admission.Ledger.{
  RootLedgerRow, LedgerState, PutAnswer, stored, rejected_before, rejected_after, next_row,
  check_totals, run_callback, prepare_row, put_row,
}
use dsh_subagent_admission.Ledger.Reservation.{HasTotals}
use dsh_subagent_admission.Resolver.{
  Reading, ResolverError, DurableRootResolver, ResolvedLineage, resolve,
}
use dsh_subagent_admission.Authority.{
  SubagentAdmissionRequest, Thrown, writing, AdmissionAuthority, is_cold_resume, abort_reason,
}
use dsh_subagent_admission.Authority.Section.{
  deny_as, Signal, is_aborted, catch_error, check_child, check_capacity, insert_step,
  after_resolution, resolution_answered, resolution_settled, clock_number,
}
use dsh_subagent_admission.Authority.Reserve.{
  LedgerAnswer, reservation_input, prepare_step, ledger_answered, put_answered, reservation_error,
}
use dsh_subagent_admission.Authority.Effects.{
  HasRoom, Effect, prepares, commits, spends, Effect-resolver, catch_error-Caught,
}
use dsh_subagent_admission.Authority.Effects.Entry.{catch-Effect, calm-Effect, if-Effect}
use dsh_subagent_admission.Authority.Effects.Insertion.{
  insert_step-cases, check_capacity-HasRoom, resume_step-Effect,
}

module _ (a : AdmissionAuthority) (v : IsValid a.leases) (signal : Signal)
    (request : SubagentAdmissionRequest) where
  after_resolution-Effect :
      (clock : Option Number) (root : String)
      → Effect a (after_resolution signal clock request root a)
  unfolding after_resolution
  after_resolution-Effect clock root =
      elim (Result-cases (check_child a.leases request.child_session_id)) [
        | inr (x, e) ↦
            rw (e, after_resolution)
              (catch-Effect a v signal request root [] x a refl refl (Fewer-same a.leases v)
                (λ r. refl))
        | inl (_, e) ↦ elim (Bool-cases (is_safe_nonnegative (clock_number clock))) [
          | inr f ↦
              rw (e, f, after_resolution)
                (catch-Effect a v signal request root [] (deny_as a admission_state_io request root)
                  a refl refl (Fewer-same a.leases v) (λ r. refl))
          | inl f ↦ elim (Bool-cases (is_cold_resume request.operation)) [
            | inl g ↦
                rw (e, f, g, after_resolution)
                  (resume_step-Effect a v signal request root (clock_number clock) g)
            | inr g ↦
                rw (e, f, g, after_resolution)
                  (calm-Effect a v _ refl refl refl (inr tt) (λ r. refl))
          ]
        ]
      ]

module _ (a : AdmissionAuthority) (v : IsValid a.leases) (signal : Signal)
    (request : SubagentAdmissionRequest) where
  resolved-Effect :
      (rejection : Thrown) (clock : Option Number) (resolver : DurableRootResolver)
      (result : Result ResolverError ResolvedLineage)
      → Effect a (
          resolution_settled signal rejection clock request result
            (record a { resolver = resolver }))
  unfolding resolution_settled
  resolved-Effect rejection clock resolver (err x) =
      catch-Effect a v signal request "" [] _ (record a { resolver = resolver }) refl refl
        (Fewer-same a.leases v) (λ r. refl)
  resolved-Effect rejection clock resolver (ok lineage) =
      let b = record a { resolver = resolver } in
      let root = lineage.root_session_id in
      if-Effect a v (is_aborted signal) (catch_error signal request "" [] abort_reason b)
        (after_resolution signal clock request root b)
        (catch-Effect a v signal request "" [] abort_reason b refl refl (Fewer-same a.leases v)
          (λ r. refl))
        (Effect-resolver a (after_resolution signal clock request root b) resolver
          (after_resolution-Effect b v signal request clock root))

  pub resolution_answered-Effect :
      (reading : Reading) (rejection : Thrown) (clock : Option Number)
      → Effect a (resolution_answered signal reading rejection clock request a)
  unfolding resolution_answered
  resolution_answered-Effect reading rejection clock =
      let outcome = resolve reading a.resolver request.parent_session_id in
      resolved-Effect rejection clock outcome.1 outcome.0

  prepare_step-ok :
      (answer : LedgerAnswer) (root : String) (now : Number) (row : RootLedgerRow)
      → prepare_step answer request root now a ≡ ok row
      → HasRoom a root
        × HasTotals a.ledger (reservation_input a request root now)
        × (row ≡ next_row (lookup root a.ledger.rows) (reservation_input a request root now))
  unfolding prepare_step prepare_row check_totals run_callback reservation_input
  prepare_step-ok answer root now row e = elim (Result-cases (check_capacity a root)) [
    | inl (_, q) ↦ (check_capacity-HasRoom a root q, ground (arith, e, q), ground (arith, e, q))
    | inr (x, q) ↦ absurd (ground (arith, e, q))
  ]

  pub ledger_answered-Effect :
      (answer : LedgerAnswer) (root : String) (now : Number)
      → Effect a (ledger_answered signal answer request root now a)
  unfolding ledger_answered
  ledger_answered-Effect answer root now =
      elim (Result-cases (prepare_step answer request root now a)) [
        | inr (x, e) ↦
            rw (e, ledger_answered)
              (catch-Effect a v signal request root [] (reservation_error a request root x) a refl
                refl (Fewer-same a.leases v) (λ r. refl))
        | inl (row, e) ↦
            let (room, totals, next) = prepare_step-ok answer root now row e in
            rw (e, ledger_answered)
              (prepares request root now room totals refl refl refl
                (ap (λ t. some (writing request root now t)) next) (λ r. refl))
      ]

  -- The end of a write that was stored.
  stored-Effect :
      (root : String) (now : Number) (row : RootLedgerRow) (ledger : LedgerState)
      → a.section ≡ some (writing request root now row)
      → ledger.rows ≡ insert root row a.ledger.rows
      → Effect a (insert_step signal request root now (record a { ledger = ledger }))
  stored-Effect root now row ledger w e =
      elim (insert_step-cases (record a { ledger = ledger }) v signal request root now) [
        | inl i ↦
            commits request root now row w i.limits (ap (λ (t : LedgerState). t.rows) i.ledger ∙ e)
              i.leases i.section (λ r. let g = i.grants r in ground arith)
        | inr s ↦
            spends request root now row w s.limits
              (inr (ap (λ (t : LedgerState). t.rows) s.ledger ∙ e)) s.leases s.section s.grants
      ]

  -- The end of a write that was rejected.
  unstored-Effect :
      (root : String) (now : Number) (row : RootLedgerRow) (thrown : Thrown) (ledger : LedgerState)
      → a.section ≡ some (writing request root now row)
      → (ledger ≡ a.ledger) ⊎ (ledger.rows ≡ insert root row a.ledger.rows)
      → Effect a (catch_error signal request root [] thrown (record a { ledger = ledger }))
  unstored-Effect root now row thrown ledger w e =
      let c = catch_error-Caught signal request root [] thrown (record a { ledger = ledger }) in
      spends request root now row w c.limits
        (elim e [
          | inl same ↦ inl (c.ledger ∙ same)
          | inr more ↦ inr (ap (λ (t : LedgerState). t.rows) c.ledger ∙ more)
        ])
        (subst (Fewer a.leases) (sym c.leases) (Fewer-same a.leases v)) c.section c.grants

  pub put_answered-Effect :
      (answer : PutAnswer) (root : String) (now : Number) (row : RootLedgerRow)
      → a.section ≡ some (writing request root now row)
      → Effect a (put_answered signal answer request root now row a)
  unfolding put_answered put_row reservation_input
  put_answered-Effect stored root now row w = stored-Effect root now row _ w refl
  put_answered-Effect rejected_before root now row w =
      unstored-Effect root now row _ a.ledger w (inl refl)
  put_answered-Effect rejected_after root now row w = unstored-Effect root now row _ _ w (inr refl)
