-- ===== src/Service/Disposal.antt =====
-- service.ts, `dispose` and `finishDisposal`. A call of `dispose` runs up to the first await; each
-- later step begins when the one before has settled. Calls of `dispose` may come at any time.
pub mod Order
pub mod Completion
use dsh_subagent_admission.Prelude.{
  ◌≡◌, refl, sym, subst, ◌∙◌, ap, ℕ, Option, none, some, Bool, true, false, List, [], ◌∷◌, ◌++◌,
  if◌then◌else◌, inl, inr, Bool-cases, arith,
}
use mathlib.Core.List.{append-nil, append_assoc}

-- Which of the optional resources the service has.
pub record ServiceResources : Type 0 where
  pub has_authority : Bool
  pub has_begin_drain : Bool
  pub has_unregister_policy : Bool
  pub has_stop_audit : Bool
  pub has_close_ledger : Bool
  pub has_release_guard : Bool

pub data DisposalCall : Type 0 where
  close_admission begin_drain unregister_policy stop_audit drain close_ledger release_guard :
      DisposalCall

-- What `disposePromise` waits for.
pub data DisposalPhase : Type 0 where
  in_use draining closing releasing disposed : DisposalPhase

-- An error is known by a number.
pub record Disposal : Type 0 where
  pub resources : ServiceResources
  pub phase : DisposalPhase
  pub calls : List DisposalCall
  pub errors : List ℕ

abbrev pub error_list : Option ℕ → List ℕ
error_list none = []
error_list (some e) = e ∷ []

-- `runDisposer`; it may throw.
unfoldable pub run_disposer : Bool → DisposalCall → Option ℕ → Disposal → Disposal
run_disposer has call thrown d =
    if has
    then record d { calls = d.calls ++ call ∷ []; errors = d.errors ++ error_list thrown }
    else d

unfoldable pub enter_release : Disposal → Disposal
enter_release d =
    if d.resources.has_release_guard
    then record d { phase = releasing; calls = d.calls ++ release_guard ∷ [] }
    else record d { phase = disposed }

unfoldable pub enter_close : Disposal → Disposal
unfolding enter_release
enter_close d =
    if d.resources.has_close_ledger
    then record d { phase = closing; calls = d.calls ++ close_ledger ∷ [] }
    else enter_release d

-- The start of `finishDisposal`.
unfoldable pub enter_drain : Disposal → Disposal
unfolding enter_close
enter_drain d =
    if d.resources.has_authority
    then record d { phase = draining; calls = d.calls ++ drain ∷ [] }
    else enter_close d

-- What the three synchronous disposers throw.
pub record Thrown : Type 0 where
  pub by_begin_drain : Option ℕ
  pub by_unregister_policy : Option ℕ
  pub by_stop_audit : Option ℕ

-- The calls of `dispose` before its first await.
unfoldable pub run_disposers : Thrown → Disposal → Disposal
unfolding run_disposer
run_disposers thrown d =
    let r = d.resources in
    run_disposer r.has_stop_audit stop_audit thrown.by_stop_audit (
      run_disposer r.has_unregister_policy unregister_policy thrown.by_unregister_policy (
        run_disposer r.has_begin_drain begin_drain thrown.by_begin_drain
          (run_disposer r.has_authority close_admission none d)))

-- `dispose` of a service that is in use.
unfoldable pub begin_disposal : Thrown → Disposal → Disposal
unfolding run_disposers enter_drain
begin_disposal thrown d = enter_drain (run_disposers thrown d)

-- `settleStep`, when its step settled: the error is kept, and the next step begins.
abbrev pub with_error : Option ℕ → Disposal → Disposal
with_error rejected d = record d { errors = d.errors ++ error_list rejected }

unfoldable pub settle_at : DisposalPhase → Option ℕ → Disposal → Disposal
unfolding enter_close enter_release
settle_at in_use rejected d = d
settle_at draining rejected d = enter_close (with_error rejected d)
settle_at closing rejected d = enter_release (with_error rejected d)
settle_at releasing rejected d = record (with_error rejected d) { phase = disposed }
settle_at disposed rejected d = d

unfoldable pub dispose_at : DisposalPhase → Thrown → Disposal → Disposal
unfolding begin_disposal
dispose_at in_use thrown d = begin_disposal thrown d
dispose_at draining thrown d = d
dispose_at closing thrown d = d
dispose_at releasing thrown d = d
dispose_at disposed thrown d = d

pub data DisposalStep : Type 0 where
  calls_dispose : Thrown → DisposalStep
  step_settles : Option ℕ → DisposalStep

unfoldable pub disposal_step : DisposalStep → Disposal → Disposal
unfolding dispose_at settle_at
disposal_step (calls_dispose thrown) d = dispose_at d.phase thrown d
disposal_step (step_settles rejected) d = settle_at d.phase rejected d

unfoldable pub disposal_steps : List DisposalStep → Disposal → Disposal
unfolding disposal_step
disposal_steps [] d = d
disposal_steps (s ∷ ss) d = disposal_steps ss (disposal_step s d)

unfoldable pub new_disposal : ServiceResources → Disposal
new_disposal resources = record { resources = resources; phase = in_use; calls = []; errors = [] }

-- How the promise of `dispose` settles: by itself, by its only error, or by an `AggregateError`.
pub data DisposalEnd : Type 0 where
  fulfilled : DisposalEnd
  rejected_with : ℕ → DisposalEnd
  aggregate : List ℕ → DisposalEnd

unfoldable pub disposal_end : List ℕ → DisposalEnd
disposal_end [] = fulfilled
disposal_end (e ∷ []) = rejected_with e
disposal_end (e ∷ f ∷ rest) = aggregate (e ∷ f ∷ rest)
