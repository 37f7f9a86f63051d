-- ===== src/Authority/Closing/End.antt =====
-- authority.ts, what closing promises.
use dsh_subagent_admission.Prelude.{
  ◌+◌, ◌≤◌, ◌≡◌, refl, sym, ap, subst, Option, none, some, Bool, true, List, [], ◌∷◌, lookup,
  Number, arith,
}
use dsh_subagent_admission.Leases.{ActiveLease}
use dsh_subagent_admission.Ledger.{PutAnswer}
use dsh_subagent_admission.Resolver.{Reading}
use dsh_subagent_admission.Authority.{
  Thrown, Awaiting, guarding, resolving, reserving, writing, Job, acquiring, releasing,
  AdmissionAuthority, close_admission,
}
use dsh_subagent_admission.Authority.Section.{Signal}
use dsh_subagent_admission.Authority.Reserve.{LedgerAnswer}
use dsh_subagent_admission.Authority.Permits.{permit_bind, permit_release}
use dsh_subagent_admission.Authority.Steps.{
  Step, calls_acquire, calls_bind, calls_release, calls_close, starts_job, guard_answers,
  resolution_answers, ledger_answers, put_answers, start_job, to_guard, to_resolution, to_ledger,
  to_put, on_permit, step, steps,
}
use dsh_subagent_admission.Authority.Closing.{
  permits_granted, closed_again, running, Lets, same-Lets,
}
use dsh_subagent_admission.Authority.Closing.Section.{
  acquire-Lets, begin-Lets, guard_answered-Lets, resolution_answered-Lets, ledger_answered-Lets,
  put_answered-Lets,
}
use dsh_subagent_admission.Authority.Closing.Permit.{
  permit_bind-Lets, permit_release-Lets, release_lease-Lets,
}

module _ (a : AdmissionAuthority) (c : a.is_closed ≡ true) where
  start_job-Lets :
      (signal : Signal) (w : Option Awaiting) (jobs : List Job) → Lets a (start_job signal w jobs a)
  unfolding start_job
  start_job-Lets signal (some w) jobs = (same-Lets a c)
  start_job-Lets signal none [] = (same-Lets a c)
  start_job-Lets signal none (acquiring request ∷ jobs) = begin-Lets a c signal request jobs
  start_job-Lets signal none (releasing lease reason ∷ jobs) =
      release_lease-Lets a c lease reason jobs

  to_guard-Lets :
      (signal : Signal) (is_held : Bool) (w : Option Awaiting)
      → a.section ≡ w
      → Lets a (to_guard signal is_held w a)
  unfolding to_guard
  to_guard-Lets signal is_held none e = (same-Lets a c)
  to_guard-Lets signal is_held (some (guarding request)) e =
      guard_answered-Lets a c (ap running e) signal request is_held
  to_guard-Lets signal is_held (some (resolving request)) e = (same-Lets a c)
  to_guard-Lets signal is_held (some (reserving request root now)) e = (same-Lets a c)
  to_guard-Lets signal is_held (some (writing request root now row)) e = (same-Lets a c)

  to_resolution-Lets :
      (signal : Signal) (reading : Reading) (rejection : Thrown) (clock : Option Number)
      (w : Option Awaiting)
      → a.section ≡ w
      → Lets a (to_resolution signal reading rejection clock w a)
  unfolding to_resolution
  to_resolution-Lets signal reading rejection clock none e = (same-Lets a c)
  to_resolution-Lets signal reading rejection clock (some (guarding request)) e = (same-Lets a c)
  to_resolution-Lets signal reading rejection clock (some (resolving request)) e =
      resolution_answered-Lets a c (ap running e) signal request reading rejection clock
  to_resolution-Lets signal reading rejection clock (some (reserving request root now)) e =
      (same-Lets a c)
  to_resolution-Lets signal reading rejection clock (some (writing request root now row)) e =
      (same-Lets a c)

  to_ledger-Lets :
      (signal : Signal) (answer : LedgerAnswer) (w : Option Awaiting)
      → a.section ≡ w
      → Lets a (to_ledger signal answer w a)
  unfolding to_ledger
  to_ledger-Lets signal answer none e = (same-Lets a c)
  to_ledger-Lets signal answer (some (guarding request)) e = (same-Lets a c)
  to_ledger-Lets signal answer (some (resolving request)) e = (same-Lets a c)
  to_ledger-Lets signal answer (some (reserving request root now)) e =
      ledger_answered-Lets a c (ap running e) signal request answer root now
  to_ledger-Lets signal answer (some (writing request root now row)) e = (same-Lets a c)

  to_put-Lets :
      (signal : Signal) (answer : PutAnswer) (w : Option Awaiting)
      → a.section ≡ w
      → Lets a (to_put signal answer w a)
  unfolding to_put
  to_put-Lets signal answer none e = (same-Lets a c)
  to_put-Lets signal answer (some (guarding request)) e = (same-Lets a c)
  to_put-Lets signal answer (some (resolving request)) e = (same-Lets a c)
  to_put-Lets signal answer (some (reserving request root now)) e = (same-Lets a c)
  to_put-Lets signal answer (some (writing request root now row)) e =
      put_answered-Lets a c (ap running e) signal request answer root now row

  on_permit-Lets :
      (act : ActiveLease → AdmissionAuthority) (o : Option ActiveLease)
      → ((lease : ActiveLease) → Lets a (act lease))
      → Lets a (on_permit act o a)
  unfolding on_permit
  on_permit-Lets act none h = (same-Lets a c)
  on_permit-Lets act (some lease) h = h lease

  pub step-Lets : (s : Step) → Lets a (step a s)
  unfolding step
  step-Lets (calls_acquire aborts request) = acquire-Lets a c aborts request
  step-Lets (calls_bind id child local_parent) =
      on_permit-Lets (λ lease. (permit_bind lease child local_parent a).1) (lookup id a.permits)
        (λ lease. permit_bind-Lets a c lease child local_parent)
  step-Lets (calls_release id reason) =
      on_permit-Lets (λ lease. permit_release lease reason a) (lookup id a.permits)
        (λ lease. permit_release-Lets a c lease reason)
  step-Lets calls_close = subst (Lets a) (sym (closed_again a c)) (same-Lets a c)
  step-Lets (starts_job signal) = start_job-Lets signal a.section a.tail
  step-Lets (guard_answers signal is_held) = to_guard-Lets signal is_held a.section refl
  step-Lets (resolution_answers signal reading rejection clock) =
      to_resolution-Lets signal reading rejection clock a.section refl
  step-Lets (ledger_answers signal answer) = to_ledger-Lets signal answer a.section refl
  step-Lets (put_answers signal answer) = to_put-Lets signal answer a.section refl

-- After admission was closed it stays closed, whatever happens, and no more permits are granted than
-- acquisitions ran in the serial section when it was closed: one, or none if it was idle.
pub closing_ends_admission :
    (a : AdmissionAuthority) (ss : List Step)
    → a.is_closed ≡ true
    → ((steps a ss).is_closed ≡ true)
      × (permits_granted (steps a ss).settled ≤ permits_granted a.settled + running a.section)
unfolding steps
closing_ends_admission a [] c = (c, omega arith)
closing_ends_admission a (s ∷ ss) c =
    let one = step-Lets a c s in
    let rest = closing_ends_admission (step a s) ss one.closed in
    (rest.0, omega (arith, rest.1, one.count))

pub close_admission-closed : (a : AdmissionAuthority) → (close_admission a).is_closed ≡ true
unfolding close_admission
close_admission-closed a = ground arith
