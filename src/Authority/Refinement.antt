-- ===== src/Authority/Refinement.antt =====
-- authority.ts, every step and its abstract view.
use dsh_subagent_admission.Prelude.{
  ◌≡◌, refl, Option, none, some, Bool, List, [], ◌∷◌, lookup, Number,
}
use dsh_subagent_admission.Leases.{ActiveLease}
use dsh_subagent_admission.Leases.Invariant.{IsValid}
use dsh_subagent_admission.Ledger.{PutAnswer}
use dsh_subagent_admission.Resolver.{Reading}
use dsh_subagent_admission.Authority.{
  Thrown, Awaiting, guarding, resolving, reserving, writing, Job, acquiring, releasing,
  AdmissionAuthority,
}
use dsh_subagent_admission.Authority.Section.{Signal}
use dsh_subagent_admission.Authority.Reserve.{LedgerAnswer}
use dsh_subagent_admission.Authority.Permits.{permit_bind, permit_release}
use dsh_subagent_admission.Authority.Steps.{
  Step, calls_acquire, calls_bind, calls_release, calls_close, starts_job, guard_answers,
  resolution_answers, ledger_answers, put_answers, start_job, to_guard, to_resolution, to_ledger,
  to_put, on_permit, step,
}
use dsh_subagent_admission.Authority.Effects.{Effect, Calms-Effect}
use dsh_subagent_admission.Authority.Effects.Entry.{
  same-Effect, acquire-Effect, close_admission-Effect, begin-Effect, guard_answered-Effect,
}
use dsh_subagent_admission.Authority.Effects.Acquire.{
  resolution_answered-Effect, ledger_answered-Effect, put_answered-Effect,
}
use dsh_subagent_admission.Authority.Effects.Permit.{
  permit_bind-Calms, permit_release-Calms, release_lease-Calms,
}

module _ (a : AdmissionAuthority) (v : IsValid a.leases) where
  start_job-Effect :
      (signal : Signal) (w : Option Awaiting) (jobs : List Job)
      → Effect a (start_job signal w jobs a)
  unfolding start_job
  start_job-Effect signal (some w) jobs = same-Effect a v
  start_job-Effect signal none [] = same-Effect a v
  start_job-Effect signal none (acquiring request ∷ jobs) = begin-Effect a v signal request jobs
  start_job-Effect signal none (releasing lease reason ∷ jobs) =
      Calms-Effect a _ (release_lease-Calms a v lease reason jobs)

  to_guard-Effect :
      (signal : Signal) (is_held : Bool) (w : Option Awaiting)
      → Effect a (to_guard signal is_held w a)
  unfolding to_guard
  to_guard-Effect signal is_held none = same-Effect a v
  to_guard-Effect signal is_held (some (guarding request)) =
      guard_answered-Effect a v signal is_held request
  to_guard-Effect signal is_held (some (resolving request)) = same-Effect a v
  to_guard-Effect signal is_held (some (reserving request root now)) = same-Effect a v
  to_guard-Effect signal is_held (some (writing request root now row)) = same-Effect a v

  to_resolution-Effect :
      (signal : Signal) (reading : Reading) (rejection : Thrown) (clock : Option Number)
      (w : Option Awaiting)
      → Effect a (to_resolution signal reading rejection clock w a)
  unfolding to_resolution
  to_resolution-Effect signal reading rejection clock none = same-Effect a v
  to_resolution-Effect signal reading rejection clock (some (guarding request)) = same-Effect a v
  to_resolution-Effect signal reading rejection clock (some (resolving request)) =
      resolution_answered-Effect a v signal request reading rejection clock
  to_resolution-Effect signal reading rejection clock (some (reserving request root now)) =
      same-Effect a v
  to_resolution-Effect signal reading rejection clock (some (writing request root now row)) =
      same-Effect a v

  to_ledger-Effect :
      (signal : Signal) (answer : LedgerAnswer) (w : Option Awaiting)
      → Effect a (to_ledger signal answer w a)
  unfolding to_ledger
  to_ledger-Effect signal answer none = same-Effect a v
  to_ledger-Effect signal answer (some (guarding request)) = same-Effect a v
  to_ledger-Effect signal answer (some (resolving request)) = same-Effect a v
  to_ledger-Effect signal answer (some (reserving request root now)) =
      ledger_answered-Effect a v signal request answer root now
  to_ledger-Effect signal answer (some (writing request root now row)) = same-Effect a v

  to_put-Effect :
      (signal : Signal) (answer : PutAnswer) (w : Option Awaiting)
      → a.section ≡ w
      → Effect a (to_put signal answer w a)
  unfolding to_put
  to_put-Effect signal answer none e = same-Effect a v
  to_put-Effect signal answer (some (guarding request)) e = same-Effect a v
  to_put-Effect signal answer (some (resolving request)) e = same-Effect a v
  to_put-Effect signal answer (some (reserving request root now)) e = same-Effect a v
  to_put-Effect signal answer (some (writing request root now row)) e =
      put_answered-Effect a v signal request answer root now row e

  on_permit-Effect :
      (act : ActiveLease → AdmissionAuthority) (o : Option ActiveLease)
      → ((lease : ActiveLease) → Effect a (act lease))
      → Effect a (on_permit act o a)
  unfolding on_permit
  on_permit-Effect act none h = same-Effect a v
  on_permit-Effect act (some lease) h = h lease

  -- Every step of an authority with a valid registry, whatever the other parts answer, has one of
  -- the five effects of the abstract view: no lease, no permit for a new child and no durable row is
  -- added outside of them.
  pub step-Effect : (s : Step) → Effect a (step a s)
  unfolding step
  step-Effect (calls_acquire aborts request) = acquire-Effect a v aborts request
  step-Effect (calls_bind id child local_parent) =
      on_permit-Effect (λ lease. (permit_bind lease child local_parent a).1) (lookup id a.permits)
        (λ lease. Calms-Effect a _ (permit_bind-Calms a v lease child local_parent))
  step-Effect (calls_release id reason) =
      on_permit-Effect (λ lease. permit_release lease reason a) (lookup id a.permits)
        (λ lease. Calms-Effect a _ (permit_release-Calms a v lease reason))
  step-Effect calls_close = close_admission-Effect a v
  step-Effect (starts_job signal) = start_job-Effect signal a.section a.tail
  step-Effect (guard_answers signal is_held) = to_guard-Effect signal is_held a.section
  step-Effect (resolution_answers signal reading rejection clock) =
      to_resolution-Effect signal reading rejection clock a.section
  step-Effect (ledger_answers signal answer) = to_ledger-Effect signal answer a.section
  step-Effect (put_answers signal answer) = to_put-Effect signal answer a.section refl
