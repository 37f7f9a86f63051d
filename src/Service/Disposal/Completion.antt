-- ===== src/Service/Disposal/Completion.antt =====
-- service.ts, that a disposal ends.
use dsh_subagent_admission.Prelude.{◌≡◌, refl, ◌-◌, ◌≤◌, ℕ, suc, Option, List, [], ◌∷◌, arith}
use dsh_subagent_admission.Service.Disposal.{
  ServiceResources, DisposalPhase, in_use, draining, closing, releasing, disposed, Disposal,
  enter_release, enter_close, enter_drain, run_disposers, Thrown, begin_disposal, with_error,
  settle_at, dispose_at, DisposalStep, calls_dispose, step_settles, disposal_step, disposal_steps,
  new_disposal,
}

-- How many steps may still have to settle; a service in use has one more to go.
abbrev rank : DisposalPhase → ℕ
rank in_use = 4
rank draining = 3
rank closing = 2
rank releasing = 1
rank disposed = 0

enter_release-rank : (d : Disposal) → rank (enter_release d).phase ≤ 1
unfolding enter_release
enter_release-rank d = ground arith

enter_close-rank : (d : Disposal) → rank (enter_close d).phase ≤ 2
unfolding enter_close
enter_close-rank d = ground (arith, enter_release-rank d)

enter_drain-rank : (d : Disposal) → rank (enter_drain d).phase ≤ 3
unfolding enter_drain
enter_drain-rank d = ground (arith, enter_close-rank d)

begin_disposal-rank : (thrown : Thrown) (d : Disposal) → rank (begin_disposal thrown d).phase ≤ 3
unfolding begin_disposal
begin_disposal-rank thrown d = enter_drain-rank (run_disposers thrown d)

settle_at-rank :
    (phase : DisposalPhase) (rejected : Option ℕ) (d : Disposal)
    → d.phase ≡ phase
    → rank d.phase ≤ 3
    → rank (settle_at phase rejected d).phase ≤ rank d.phase - 1
unfolding settle_at
settle_at-rank in_use rejected d e h = ground arith
settle_at-rank draining rejected d e h = ground (arith, enter_close-rank (with_error rejected d))
settle_at-rank closing rejected d e h = ground (arith, enter_release-rank (with_error rejected d))
settle_at-rank releasing rejected d e h = omega arith
settle_at-rank disposed rejected d e h = ground arith

dispose_at-rank :
    (phase : DisposalPhase) (thrown : Thrown) (d : Disposal)
    → d.phase ≡ phase
    → rank d.phase ≤ 3
    → rank (dispose_at phase thrown d).phase ≤ rank d.phase
unfolding dispose_at
dispose_at-rank in_use thrown d e h = ground arith
dispose_at-rank draining thrown d e h = omega arith
dispose_at-rank closing thrown d e h = omega arith
dispose_at-rank releasing thrown d e h = omega arith
dispose_at-rank disposed thrown d e h = omega arith

-- How many steps settled.
abbrev pub settlings : List DisposalStep → ℕ
settlings [] = 0
settlings (calls_dispose thrown ∷ ss) = settlings ss
settlings (step_settles rejected ∷ ss) = suc (settlings ss)

disposal_steps-rank :
    (ss : List DisposalStep) (d : Disposal)
    → rank d.phase ≤ 3
    → rank (disposal_steps ss d).phase ≤ rank d.phase - settlings ss
unfolding disposal_steps disposal_step
disposal_steps-rank [] d h = omega arith
disposal_steps-rank (calls_dispose thrown ∷ ss) d h =
    let one = dispose_at-rank d.phase thrown d refl h in
    omega (arith, one, disposal_steps-rank ss (dispose_at d.phase thrown d) (omega (arith, one, h)))
disposal_steps-rank (step_settles rejected ∷ ss) d h =
    let one = settle_at-rank d.phase rejected d refl h in
    omega
      (arith, one, disposal_steps-rank ss (settle_at d.phase rejected d) (omega (arith, one, h)))

rank-zero : (phase : DisposalPhase) → rank phase ≤ 0 → phase ≡ disposed
rank-zero in_use h = absurd (omega arith)
rank-zero draining h = absurd (omega arith)
rank-zero closing h = absurd (omega arith)
rank-zero releasing h = absurd (omega arith)
rank-zero disposed h = refl

-- Once `dispose` was called, a service is disposed as soon as three steps have settled, whether they
-- were fulfilled or rejected, whatever the disposers threw and however often `dispose` is called again.
pub disposal_completes :
    (r : ServiceResources) (thrown : Thrown) (ss : List DisposalStep)
    → 3 ≤ settlings ss
    → (disposal_steps (calls_dispose thrown ∷ ss) (new_disposal r)).phase ≡ disposed
unfolding disposal_steps disposal_step dispose_at new_disposal
disposal_completes r thrown ss h =
    let begun = begin_disposal thrown (new_disposal r) in
    let low = begin_disposal-rank thrown (new_disposal r) in
    rank-zero _ (omega (arith, h, low, disposal_steps-rank ss begun low))
