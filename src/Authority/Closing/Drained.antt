-- ===== src/Authority/Closing/Drained.antt =====
-- authority.ts, `drain`: what holds once its promise was fulfilled.
use dsh_subagent_admission.Prelude.{
  ◌≡◌, ◌≤◌, sym, subst, ◌∙◌, Option, none, some, Bool, true, false, List, [], ◌∷◌, lookup,
  if◌then◌else◌, not, arith,
}
use dsh_subagent_admission.Leases.{ActiveLease, global_active}
use dsh_subagent_admission.Leases.Invariant.{IsValid}
use dsh_subagent_admission.Leases.Effects.{Fewer, Fewer-same}
use dsh_subagent_admission.Authority.{
  SubagentAdmissionRequest, Thrown, Awaiting, Job, acquiring, releasing, AdmissionAuthority,
  is_valid_request,
}
use dsh_subagent_admission.Authority.Section.{Signal, is_aborted, catch_error, acquire, begin}
use dsh_subagent_admission.Authority.Permits.{permit_bind, permit_release}
use dsh_subagent_admission.Authority.Steps.{
  Step, calls_acquire, calls_bind, calls_release, calls_close, starts_job, guard_answers,
  resolution_answers, ledger_answers, put_answers, start_job, to_guard, to_resolution, to_ledger,
  to_put, on_permit, step, steps,
}
use dsh_subagent_admission.Authority.Effects.{Calms, catch_error-Caught}
use dsh_subagent_admission.Authority.Effects.Permit.{
  permit_bind-Calms, permit_release-Calms, release_lease-Calms,
}
use dsh_subagent_admission.Authority.Closing.{closed_again}
use dsh_subagent_admission.Authority.Closing.End.{step-Lets}

-- The section is idle and no lease is added.
record Rests (a b : AdmissionAuthority) : Type 0 where
  section : b.section ≡ none
  fewer : Fewer a.leases b.leases

module _ (a : AdmissionAuthority) (v : IsValid a.leases) (c : a.is_closed ≡ true)
    (idle : a.section ≡ none) where
  same-Rests : Rests a a
  same-Rests = record { section = idle; fewer = Fewer-same a.leases v }

  if-Rests :
      (t : Bool) (x y : AdmissionAuthority) → Rests a x → Rests a y → Rests a (if t then x else y)
  if-Rests true x y e f = e
  if-Rests false x y e f = f

  first-Rests :
      (t : Bool) (x y : AdmissionAuthority) → t ≡ true → Rests a x → Rests a (if t then x else y)
  first-Rests true x y e r = r
  first-Rests false x y e r = cc

  Calms-Rests : (b : AdmissionAuthority) → Calms a b → Rests a b
  Calms-Rests b k = record { section = k.section ∙ idle; fewer = k.fewer }

  catch-Rests :
      (signal : Signal) (request : SubagentAdmissionRequest) (thrown : Thrown) (jobs : List Job)
      → Rests a (catch_error signal request "" [] thrown (record a { tail = jobs }))
  catch-Rests signal request thrown jobs =
      let k = catch_error-Caught signal request "" [] thrown (record a { tail = jobs }) in
      record {
        section = k.section;
        fewer = subst (Fewer a.leases) (sym k.leases) (Fewer-same a.leases v);
      }

  begin-Rests :
      (signal : Signal) (request : SubagentAdmissionRequest) (jobs : List Job)
      → Rests a (begin signal request (record a { tail = jobs }))
  unfolding begin
  begin-Rests signal request jobs =
      if-Rests (is_aborted signal) _ _ (catch-Rests signal request _ jobs)
        (first-Rests a.is_closed _ _ c (catch-Rests signal request _ jobs))

  acquire-Rests :
      (aborts : Bool) (request : SubagentAdmissionRequest) → Rests a (acquire aborts request a)
  unfolding acquire
  acquire-Rests aborts request =
      let same = Fewer-same a.leases v in
      if-Rests (not (is_valid_request request)) _ _ (record { section = idle; fewer = same })
        (if-Rests aborts _ _ (record { section = idle; fewer = same })
          (if-Rests a.is_closed _ _ (record { section = idle; fewer = same })
            (record { section = idle; fewer = same })))

  start_job-Rests : (signal : Signal) (jobs : List Job) → Rests a (start_job signal none jobs a)
  unfolding start_job
  start_job-Rests signal [] = same-Rests
  start_job-Rests signal (acquiring request ∷ jobs) = begin-Rests signal request jobs
  start_job-Rests signal (releasing lease reason ∷ jobs) =
      Calms-Rests _ (release_lease-Calms a v lease reason jobs)

  on_permit-Rests :
      (act : ActiveLease → AdmissionAuthority) (o : Option ActiveLease)
      → ((lease : ActiveLease) → Rests a (act lease))
      → Rests a (on_permit act o a)
  unfolding on_permit
  on_permit-Rests act none h = same-Rests
  on_permit-Rests act (some lease) h = h lease

  step-Rests : (s : Step) → Rests a (step a s)
  unfolding step to_guard to_resolution to_ledger to_put
  step-Rests (calls_acquire aborts request) = acquire-Rests aborts request
  step-Rests (calls_bind id child local_parent) =
      on_permit-Rests (λ lease. (permit_bind lease child local_parent a).1) (lookup id a.permits)
        (λ lease. Calms-Rests _ (permit_bind-Calms a v lease child local_parent))
  step-Rests (calls_release id reason) =
      on_permit-Rests (λ lease. permit_release lease reason a) (lookup id a.permits)
        (λ lease. Calms-Rests _ (permit_release-Calms a v lease reason))
  step-Rests calls_close = subst (Rests a) (sym (closed_again a c)) same-Rests
  step-Rests (starts_job signal) =
      subst (λ (w : Option Awaiting). Rests a (start_job signal w a.tail a)) (sym idle)
        (start_job-Rests signal a.tail)
  step-Rests (guard_answers signal is_held) =
      subst (λ (w : Option Awaiting). Rests a (to_guard signal is_held w a)) (sym idle) same-Rests
  step-Rests (resolution_answers signal reading rejection clock) =
      subst (λ (w : Option Awaiting). Rests a (to_resolution signal reading rejection clock w a))
        (sym idle) same-Rests
  step-Rests (ledger_answers signal answer) =
      subst (λ (w : Option Awaiting). Rests a (to_ledger signal answer w a)) (sym idle) same-Rests
  step-Rests (put_answers signal answer) =
      subst (λ (w : Option Awaiting). Rests a (to_put signal answer w a)) (sym idle) same-Rests

-- Once admission was closed and the serial section is idle, no lease is ever added, whatever is still
-- waiting in the section and whatever calls come: the number of leases only falls, so that an
-- authority that has drained stays without leases, and the section stays idle.
pub drained_stays_drained :
    (a : AdmissionAuthority) (ss : List Step)
    → IsValid a.leases
    → a.is_closed ≡ true
    → a.section ≡ none
    → ((steps a ss).section ≡ none) × (global_active (steps a ss).leases ≤ global_active a.leases)
unfolding steps
drained_stays_drained a [] v c idle = (idle, omega arith)
drained_stays_drained a (s ∷ ss) v c idle =
    let one = step-Rests a v c idle s in
    let rest =
      drained_stays_drained (step a s) ss one.fewer.valid (step-Lets a c s).closed one.section in
    (rest.0, omega (arith, rest.1, one.fewer.of_all))
