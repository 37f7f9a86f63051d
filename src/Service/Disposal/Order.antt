-- ===== src/Service/Disposal/Order.antt =====
-- service.ts, the order of disposal, and its end.
use dsh_subagent_admission.Prelude.{
  ◌≡◌, refl, sym, subst, ◌∙◌, ap, ℕ, Option, none, Bool, true, false, List, [], ◌∷◌, ◌++◌,
  if◌then◌else◌, inl, inr, Bool-cases, arith,
}
use dsh_subagent_admission.Service.Disposal.{
  ServiceResources, DisposalCall, close_admission, begin_drain, unregister_policy, stop_audit,
  drain, close_ledger, release_guard, DisposalPhase, in_use, draining, closing, releasing, disposed,
  Disposal, run_disposer, run_disposers, enter_release, enter_close, enter_drain, Thrown,
  begin_disposal, with_error, settle_at, dispose_at, DisposalStep, calls_dispose, step_settles,
  disposal_step, disposal_steps, new_disposal,
}

abbrev add_if : Bool → DisposalCall → List DisposalCall → List DisposalCall
add_if has call calls = if has then calls ++ call ∷ [] else calls

module _ (r : ServiceResources) where
  -- The calls before the first await.
  abbrev at_once : List DisposalCall
  at_once = add_if r.has_stop_audit stop_audit (
      add_if r.has_unregister_policy unregister_policy
        (add_if r.has_begin_drain begin_drain (add_if r.has_authority close_admission [])))

  abbrev until_drained : List DisposalCall
  until_drained = add_if r.has_authority drain at_once

  abbrev until_closed : List DisposalCall
  until_closed = add_if r.has_close_ledger close_ledger until_drained

  -- The calls that were made when a phase is reached, by the resources that the service has: admission
  -- is closed first, the guard is released last.
  abbrev pub calls_by : DisposalPhase → List DisposalCall
  calls_by in_use = []
  calls_by draining = at_once ++ drain ∷ []
  calls_by closing = until_drained ++ close_ledger ∷ []
  calls_by releasing = until_closed ++ release_guard ∷ []
  calls_by disposed = add_if r.has_release_guard release_guard until_closed

  -- A step is waited for only if the service has it.
  abbrev has_step : DisposalPhase → Bool
  has_step in_use = true
  has_step draining = r.has_authority
  has_step closing = r.has_close_ledger
  has_step releasing = r.has_release_guard
  has_step disposed = true

record IsInOrder (r : ServiceResources) (d : Disposal) : Type 0 where
  resources : d.resources ≡ r
  calls : d.calls ≡ calls_by r d.phase
  waits : has_step r d.phase ≡ true

enter_release-IsInOrder :
    (d : Disposal) → d.calls ≡ until_closed d.resources → IsInOrder d.resources (enter_release d)
unfolding enter_release
enter_release-IsInOrder d c = elim (Bool-cases d.resources.has_release_guard) [
  | inl e ↦ ground arith
  | inr e ↦ ground arith
]

enter_close-IsInOrder :
    (d : Disposal) → d.calls ≡ until_drained d.resources → IsInOrder d.resources (enter_close d)
unfolding enter_close
enter_close-IsInOrder d c = elim (Bool-cases d.resources.has_close_ledger) [
  | inl e ↦ ground arith
  | inr e ↦ ground (arith, enter_release-IsInOrder d)
]

enter_drain-IsInOrder :
    (d : Disposal) → d.calls ≡ at_once d.resources → IsInOrder d.resources (enter_drain d)
unfolding enter_drain
enter_drain-IsInOrder d c = elim (Bool-cases d.resources.has_authority) [
  | inl e ↦ ground arith
  | inr e ↦ ground (arith, enter_close-IsInOrder d)
]

run_disposer-calls :
    (has : Bool) (call : DisposalCall) (thrown : Option ℕ) (d : Disposal)
    → (run_disposer has call thrown d).calls ≡ add_if has call d.calls
unfolding run_disposer
run_disposer-calls true call thrown d = refl
run_disposer-calls false call thrown d = refl

run_disposer-resources :
    (has : Bool) (call : DisposalCall) (thrown : Option ℕ) (d : Disposal)
    → (run_disposer has call thrown d).resources ≡ d.resources
unfolding run_disposer
run_disposer-resources true call thrown d = refl
run_disposer-resources false call thrown d = refl

begin_disposal-IsInOrder :
    (thrown : Thrown) (d : Disposal)
    → d.calls ≡ []
    → IsInOrder d.resources (begin_disposal thrown d)
unfolding begin_disposal run_disposers
begin_disposal-IsInOrder thrown d c =
    let r = d.resources in
    let a = run_disposer r.has_authority close_admission none d in
    let b = run_disposer r.has_begin_drain begin_drain thrown.by_begin_drain a in
    let u = run_disposer r.has_unregister_policy unregister_policy thrown.by_unregister_policy b in
    let s = run_disposer r.has_stop_audit stop_audit thrown.by_stop_audit u in
    let same : s.resources ≡ r =
      run_disposer-resources r.has_stop_audit stop_audit thrown.by_stop_audit u
      ∙ run_disposer-resources r.has_unregister_policy unregister_policy thrown.by_unregister_policy
          b
      ∙ run_disposer-resources r.has_begin_drain begin_drain thrown.by_begin_drain a
      ∙ run_disposer-resources r.has_authority close_admission none d in
    let made : s.calls ≡ at_once r =
      run_disposer-calls r.has_stop_audit stop_audit thrown.by_stop_audit u
      ∙ ap (add_if r.has_stop_audit stop_audit) (
          run_disposer-calls r.has_unregister_policy unregister_policy thrown.by_unregister_policy b
          ∙ ap (add_if r.has_unregister_policy unregister_policy) (
              run_disposer-calls r.has_begin_drain begin_drain thrown.by_begin_drain a
              ∙ ap (add_if r.has_begin_drain begin_drain) (
                  run_disposer-calls r.has_authority close_admission none d
                  ∙ ap (add_if r.has_authority close_admission) c))) in
    subst (λ (x : ServiceResources). IsInOrder x (enter_drain s)) same
      (enter_drain-IsInOrder s (made ∙ ap at_once (sym same)))

dispose_at-IsInOrder :
    (phase : DisposalPhase) (thrown : Thrown) (d : Disposal)
    → d.phase ≡ phase
    → IsInOrder d.resources d
    → IsInOrder d.resources (dispose_at phase thrown d)
unfolding dispose_at
dispose_at-IsInOrder in_use thrown d e h =
    begin_disposal-IsInOrder thrown d (h.calls ∙ ap (calls_by d.resources) e)
dispose_at-IsInOrder draining thrown d e h = h
dispose_at-IsInOrder closing thrown d e h = h
dispose_at-IsInOrder releasing thrown d e h = h
dispose_at-IsInOrder disposed thrown d e h = h

-- While a step is waited for, the calls are those of the step before, with its own.
module _ (d : Disposal) (h : IsInOrder d.resources d) where
  drained : d.phase ≡ draining → d.calls ≡ until_drained d.resources
  drained e =
      ground
        (arith, h.calls ∙ ap (calls_by d.resources) e, ap (has_step d.resources) (sym e) ∙ h.waits)

  closed : d.phase ≡ closing → d.calls ≡ until_closed d.resources
  closed e =
      ground
        (arith, h.calls ∙ ap (calls_by d.resources) e, ap (has_step d.resources) (sym e) ∙ h.waits)

  freed : d.phase ≡ releasing → d.calls ≡ calls_by d.resources disposed
  freed e =
      ground
        (arith, h.calls ∙ ap (calls_by d.resources) e, ap (has_step d.resources) (sym e) ∙ h.waits)

settle_at-IsInOrder :
    (phase : DisposalPhase) (rejected : Option ℕ) (d : Disposal)
    → d.phase ≡ phase
    → IsInOrder d.resources d
    → IsInOrder d.resources (settle_at phase rejected d)
unfolding settle_at
settle_at-IsInOrder in_use rejected d e h = h
settle_at-IsInOrder draining rejected d e h =
    enter_close-IsInOrder (with_error rejected d) (drained d h e)
settle_at-IsInOrder closing rejected d e h =
    enter_release-IsInOrder (with_error rejected d) (closed d h e)
settle_at-IsInOrder releasing rejected d e h = record {
  resources = refl;
  calls = freed d h e;
  waits = refl;
}
settle_at-IsInOrder disposed rejected d e h = h

disposal_step-IsInOrder :
    (s : DisposalStep) (d : Disposal)
    → IsInOrder d.resources d
    → IsInOrder d.resources (disposal_step s d)
unfolding disposal_step
disposal_step-IsInOrder (calls_dispose thrown) d h = dispose_at-IsInOrder d.phase thrown d refl h
disposal_step-IsInOrder (step_settles rejected) d h = settle_at-IsInOrder d.phase rejected d refl h

disposal_steps-IsInOrder :
    (ss : List DisposalStep) (d : Disposal)
    → IsInOrder d.resources d
    → IsInOrder d.resources (disposal_steps ss d)
unfolding disposal_steps
disposal_steps-IsInOrder [] d h = h
disposal_steps-IsInOrder (s ∷ ss) d h =
    let one = disposal_step-IsInOrder s d h in
    let d' = disposal_step s d in
    subst (λ (r : ServiceResources). IsInOrder r (disposal_steps ss d')) one.resources
      (disposal_steps-IsInOrder ss d'
        (subst (λ (r : ServiceResources). IsInOrder r d') (sym one.resources) one))

-- Whatever calls of `dispose` come and whatever the steps throw or reject, each teardown call of the
-- service's resources was made at most once and in the one order that belongs to the phase: admission
-- is closed before anything else, the ledger is closed only after the drain settled, and the process
-- guard is released last.
pub disposal_in_order :
    (r : ServiceResources) (ss : List DisposalStep)
    → (disposal_steps ss (new_disposal r)).calls
      ≡ calls_by r (disposal_steps ss (new_disposal r)).phase
unfolding new_disposal
disposal_in_order r ss =
    (disposal_steps-IsInOrder ss (new_disposal r)
      (record { resources = refl; calls = refl; waits = refl })).calls
