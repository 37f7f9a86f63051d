-- ===== src/Authority/Closing/Section.antt =====
-- authority.ts, the serial section after admission was closed.
use dsh_subagent_admission.Prelude.{
  ◌≡◌, refl, sym, ap, subst, ◌∙◌, inl, inr, String, Option, some, Bool, true, false, List, [], ◌∷◌,
  ◌++◌, Number, is_safe_nonnegative, arith, Result, ok, err, not, Result-cases,
}
use dsh_subagent_admission.Vocabulary.{admission_closed, admission_state_io}
use dsh_subagent_admission.Leases.{insert_lease}
use dsh_subagent_admission.Ledger.{
  PutAnswer, stored, rejected_before, rejected_after, put_row, RootLedgerRow,
}
use dsh_subagent_admission.Resolver.{Reading, ResolverError, ResolvedLineage, resolve}
use dsh_subagent_admission.Authority.{
  post_commit_lease_insertion_failed, SubagentAdmissionRequest, Thrown, abort_reason, granted,
  refused, rejected, resolving, reserving, writing, Job, acquiring, AdmissionAuthority,
  is_cold_resume, is_valid_request, invalid_request, denial, denied_event_of, lease_thrown,
}
use dsh_subagent_admission.Authority.Section.{
  Signal, is_aborted, catch_error, acquire, begin, guard_answered, check_child, check_capacity,
  lease_input, insert_step, resume_step, clock_number, deny_as, after_resolution,
  resolution_settled, resolution_answered,
}
use dsh_subagent_admission.Authority.Reserve.{
  LedgerAnswer, prepare_step, reservation_error, ledger_answered, put_answered,
}
use dsh_subagent_admission.Authority.Effects.Insertion.{insert_step-err, insert_step-ok}
use dsh_subagent_admission.Authority.Closing.{
  permits_granted, permits_granted-append, if_true, closed_again, running, Lets, if-Lets,
  catch-Lets,
}

module _ (a : AdmissionAuthority) (c : a.is_closed ≡ true) where
  pub acquire-Lets :
      (aborts : Bool) (request : SubagentAdmissionRequest) → Lets a (acquire aborts request a)
  unfolding acquire
  acquire-Lets aborts request =
      let refusal = refused request (invalid_request a.policy_epoch) in
      let rejection = rejected request abort_reason in
      let d = denial admission_closed request a.policy_epoch "" 0 0 in
      let x = record a { settled = a.settled ++ refusal ∷ [] } in
      let y = record a { settled = a.settled ++ rejection ∷ [] } in
      let z = record a {
        settled = a.settled ++ refused request d ∷ [];
        events = a.events ++ denied_event_of request d ∷ [];
      } in
      let w = record a { tail = a.tail ++ acquiring request ∷ [] } in
      if-Lets a c (not (is_valid_request request)) x _
        (record { closed = c; count = omega (arith, permits_granted-append a.settled refusal) })
        (if-Lets a c aborts y _
          (record { closed = c; count = omega (arith, permits_granted-append a.settled rejection) })
          (if-Lets a c a.is_closed z w
            (record {
              closed = c;
              count = omega (arith, permits_granted-append a.settled (refused request d));
            })
            (record { closed = c; count = omega arith })))

  pub begin-Lets :
      (signal : Signal) (request : SubagentAdmissionRequest) (jobs : List Job)
      → Lets a (begin signal request (record a { tail = jobs }))
  unfolding begin
  begin-Lets signal request jobs =
      let b = record a { tail = jobs } in
      let thrown = deny_as b admission_closed request "" in
      let x = catch_error signal request "" [] abort_reason b in
      let y = catch_error signal request "" [] thrown b in
      if-Lets a c (is_aborted signal) x _
        (catch-Lets a c signal request "" [] abort_reason b refl refl)
        (subst (Lets a) (sym (if_true a.is_closed y _ c))
          (catch-Lets a c signal request "" [] thrown b refl refl))

  module _ (busy : running a.section ≡ 1) (signal : Signal)
      (request : SubagentAdmissionRequest) where
    -- The running acquisition goes on, or ends.
    onward-Lets :
        (b : AdmissionAuthority)
        → b.is_closed ≡ true
        → b.settled ≡ a.settled
        → running b.section ≡ 1
        → Lets a b
    onward-Lets b d s w = record {
      closed = d;
      count = omega (arith, ap permits_granted s, w, busy);
    }

    pub guard_answered-Lets : (is_held : Bool) → Lets a (guard_answered signal is_held request a)
    unfolding guard_answered
    guard_answered-Lets false = catch-Lets a c signal request "" [] _ a refl refl
    guard_answered-Lets true =
        if-Lets a c (is_aborted signal) (catch_error signal request "" [] abort_reason a)
          (record a { section = some (resolving request) })
          (catch-Lets a c signal request "" [] abort_reason a refl refl)
          (onward-Lets (record a { section = some (resolving request) }) c refl refl)

    insert_step-Lets :
        (root : String) (now : Number) (b : AdmissionAuthority)
        → b.is_closed ≡ a.is_closed
        → b.settled ≡ a.settled
        → Lets a (insert_step signal request root now b)
    insert_step-Lets root now b d s =
        elim (Result-cases (insert_lease b.leases (lease_input request root now))) [
          | inl ((lease, leases), e) ↦
              subst (Lets a) (sym (insert_step-ok b signal request root now lease leases e))
                (record {
                  closed = d ∙ c;
                  count = omega (
                    arith,
                    ap permits_granted s,
                    permits_granted-append b.settled (granted request lease),
                    busy,
                  );
                })
          | inr (x, e) ↦
              subst (Lets a)
                (sym (
                  insert_step-err b signal request root now x e
                  ∙ ap
                      (λ t.
                        catch_error signal request root (post_commit_lease_insertion_failed ∷ [])
                          (deny_as b admission_state_io request root) t)
                      (closed_again b (d ∙ c))))
                (catch-Lets a c signal request root (post_commit_lease_insertion_failed ∷ [])
                  (deny_as b admission_state_io request root) b d s)
        ]

    resume_step-Lets :
        (root : String) (now : Number) (b : AdmissionAuthority)
        → b.is_closed ≡ a.is_closed
        → b.settled ≡ a.settled
        → Lets a (resume_step signal request root now b)
    unfolding resume_step
    resume_step-Lets root now b d s = elim (Result-cases (check_capacity b root)) [
      | inl (_, e) ↦ rw (e, resume_step) (insert_step-Lets root now b d s)
      | inr (x, e) ↦
          rw (e, resume_step) (catch-Lets a c signal request root [] (lease_thrown x) b d s)
    ]

    after_resolution-Lets :
        (clock : Option Number) (root : String) (b : AdmissionAuthority)
        → b.is_closed ≡ a.is_closed
        → b.settled ≡ a.settled
        → Lets a (after_resolution signal clock request root b)
    unfolding after_resolution
    after_resolution-Lets clock root b d s =
        let thrown = deny_as b admission_state_io request root in
        let next = record b { section = some (reserving request root (clock_number clock)) } in
        elim (Result-cases (check_child b.leases request.child_session_id)) [
          | inr (x, e) ↦ rw (e, after_resolution) (catch-Lets a c signal request root [] x b d s)
          | inl (_, e) ↦
              rw (e, after_resolution)
                (if-Lets a c (not (is_safe_nonnegative (clock_number clock)))
                  (catch_error signal request root [] thrown b) _
                  (catch-Lets a c signal request root [] thrown b d s)
                  (if-Lets a c (is_cold_resume request.operation)
                    (resume_step signal request root (clock_number clock) b) next
                    (resume_step-Lets root (clock_number clock) b d s)
                    (onward-Lets next (d ∙ c) s refl)))
        ]

    resolution_settled-Lets :
        (rejection : Thrown) (clock : Option Number) (result : Result ResolverError ResolvedLineage)
        (b : AdmissionAuthority)
        → b.is_closed ≡ a.is_closed
        → b.settled ≡ a.settled
        → Lets a (resolution_settled signal rejection clock request result b)
    unfolding resolution_settled
    resolution_settled-Lets rejection clock (err x) b d s =
        catch-Lets a c signal request "" [] _ b d s
    resolution_settled-Lets rejection clock (ok lineage) b d s =
        if-Lets a c (is_aborted signal) (catch_error signal request "" [] abort_reason b)
          (after_resolution signal clock request lineage.root_session_id b)
          (catch-Lets a c signal request "" [] abort_reason b d s)
          (after_resolution-Lets clock lineage.root_session_id b d s)

    pub resolution_answered-Lets :
        (reading : Reading) (rejection : Thrown) (clock : Option Number)
        → Lets a (resolution_answered signal reading rejection clock request a)
    unfolding resolution_answered
    resolution_answered-Lets reading rejection clock =
        let outcome = resolve reading a.resolver request.parent_session_id in
        resolution_settled-Lets rejection clock outcome.0 (record a { resolver = outcome.1 }) refl
          refl

    pub ledger_answered-Lets :
        (answer : LedgerAnswer) (root : String) (now : Number)
        → Lets a (ledger_answered signal answer request root now a)
    unfolding ledger_answered
    ledger_answered-Lets answer root now =
        elim (Result-cases (prepare_step answer request root now a)) [
          | inr (x, e) ↦
              rw (e, ledger_answered)
                (catch-Lets a c signal request root [] (reservation_error a request root x) a refl
                  refl)
          | inl (row, e) ↦
              rw (e, ledger_answered)
                (onward-Lets (record a { section = some (writing request root now row) }) c refl
                  refl)
        ]

    pub put_answered-Lets :
        (answer : PutAnswer) (root : String) (now : Number) (row : RootLedgerRow)
        → Lets a (put_answered signal answer request root now row a)
    unfolding put_answered put_row
    put_answered-Lets stored root now row = insert_step-Lets root now _ refl refl
    put_answered-Lets rejected_before root now row =
        catch-Lets a c signal request root [] _ _ refl refl
    put_answered-Lets rejected_after root now row =
        catch-Lets a c signal request root [] _ _ refl refl
