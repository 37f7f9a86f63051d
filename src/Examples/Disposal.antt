-- ===== src/Examples/Disposal.antt =====
-- service.ts at concrete inputs: a disposal.
use dsh_subagent_admission.Prelude.{◌≡◌, refl, some, none, true, false, List, [], ◌∷◌, arith}
use dsh_subagent_admission.Service.Disposal.{
  ServiceResources, close_admission, begin_drain, unregister_policy, drain, close_ledger,
  release_guard, disposed, Thrown, DisposalStep, calls_dispose, step_settles, disposal_steps,
  new_disposal, aggregate, disposal_end,
}
use dsh_subagent_admission.Service.Disposal.Order.{disposal_in_order}
use dsh_subagent_admission.Service.Disposal.Completion.{disposal_completes}

-- A strict service, and its disposers.
abbrev strict_resources : ServiceResources
strict_resources = record {
  has_authority = true;
  has_begin_drain = true;
  has_unregister_policy = true;
  has_stop_audit = false;
  has_close_ledger = true;
  has_release_guard = true;
}

abbrev one_throws : Thrown
one_throws = record { by_begin_drain = none; by_unregister_policy = some 1; by_stop_audit = none }

-- Disposed twice, and the ledger fails to close.
abbrev ending : List DisposalStep
ending =
    step_settles none ∷ calls_dispose one_throws ∷ step_settles (some 2) ∷ step_settles none ∷ []

disposal_in_order_example :
    (disposal_steps (calls_dispose one_throws ∷ ending) (new_disposal strict_resources)).calls
    ≡ close_admission ∷ begin_drain ∷ unregister_policy ∷ drain ∷ close_ledger ∷ release_guard ∷ []
unfolding disposal_steps new_disposal
disposal_in_order_example = disposal_in_order strict_resources (calls_dispose one_throws ∷ ending)

disposal_completes_example :
    (disposal_steps (calls_dispose one_throws ∷ ending) (new_disposal strict_resources)).phase
    ≡ disposed
disposal_completes_example = disposal_completes strict_resources one_throws ending (ground arith)

both_errors :
    disposal_end
      (disposal_steps (calls_dispose one_throws ∷ ending) (new_disposal strict_resources)).errors
    ≡ aggregate (1 ∷ 2 ∷ [])
unfolding disposal_end disposal_steps new_disposal
both_errors = refl
