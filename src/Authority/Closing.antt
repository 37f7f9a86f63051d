-- ===== src/Authority/Closing.antt =====
-- authority.ts, `closeAdmission`: what may still be granted after it.
pub mod Section
pub mod Permit
pub mod End
pub mod Drained
use dsh_subagent_admission.Prelude.{
  ℕ, ◌+◌, ◌≤◌, ◌≡◌, refl, sym, ap, subst, ◌∙◌, inl, inr, String, Option, none, some, Bool, true,
  false, List, [], ◌∷◌, ◌++◌, lookup, insert, Number, is_safe_nonnegative, arith, Result, ok, err,
  if◌then◌else◌, not, Bool-cases, Option-cases, Result-cases,
}
use dsh_subagent_admission.Vocabulary.{admission_closed, admission_state_io}
use dsh_subagent_admission.Leases.{
  LeaseError, ActiveLease, ActiveLeaseRegistry, insert_lease, LeaseBindInspection, available,
  already_bound,
}
use dsh_subagent_admission.Leases.Operations.{inspect_binding, bind_lease, remove_lease}
use dsh_subagent_admission.Ledger.{
  PutAnswer, stored, rejected_before, rejected_after, put_row, RootLedgerRow,
}
use dsh_subagent_admission.Resolver.{
  Reading, ResolverError, ResolvedLineage, DurableRootResolver, resolve, bind_child,
  has_other_parent,
}
use dsh_subagent_admission.Authority.{
  post_commit_lease_insertion_failed, SubagentAdmissionRequest, Thrown, abort_reason, Settled,
  granted, refused, rejected, Awaiting, guarding, resolving, reserving, writing, Job, acquiring,
  releasing, Diagnostic, ReleaseReason, Release, under_way, fulfilled, failed, AdmissionAuthority,
  is_cold_resume, is_valid_request, invalid_request, denial, denied_event_of, lease_thrown,
  close_admission,
}
use dsh_subagent_admission.Authority.Section.{
  Signal, is_aborted_at_catch, is_aborted, catch_error, acquire, begin, guard_answered, check_child,
  check_capacity, lease_input, insert_step, resume_step, clock_number, deny_as, after_resolution,
  resolution_settled, resolution_answered, resolution_error,
}
use dsh_subagent_admission.Authority.Reserve.{
  LedgerAnswer, prepare_step, reservation_error, reservation_input, ledger_answered, put_answered,
}
use dsh_subagent_admission.Authority.Permits.{
  RuntimeReason, binding_input, bind_in_registry, bind_available, bind_lease_child, permit_bind,
  permit_release, release_lease,
}
use dsh_subagent_admission.Authority.Steps.{
  Step, calls_acquire, calls_bind, calls_release, calls_close, starts_job, guard_answers,
  resolution_answers, ledger_answers, put_answers, start_job, to_guard, to_resolution, to_ledger,
  to_put, on_permit, step, steps,
}
use dsh_subagent_admission.Authority.Effects.Insertion.{insert_step-err, insert_step-ok}

abbrev pub permits_of : Settled → ℕ
permits_of (granted request lease) = 1
permits_of (refused request d) = 0
permits_of (rejected request t) = 0

-- The permits granted so far, for new children and for cold resumes.
unfoldable pub permits_granted : List Settled → ℕ
permits_granted [] = 0
permits_granted (x ∷ xs) = permits_of x + permits_granted xs

pub permits_granted-append :
    (xs : List Settled) (x : Settled)
    → permits_granted (xs ++ x ∷ []) ≡ permits_granted xs + permits_of x
unfolding permits_granted
permits_granted-append [] x = omega arith
permits_granted-append (y ∷ xs) x = omega (arith, permits_granted-append xs x)

pub if_true : (t : Bool) (x y : AdmissionAuthority) → t ≡ true → (if t then x else y) ≡ x
if_true true x y e = refl
if_true false x y e = absurd (ground (arith, e))

pub closed_again : (a : AdmissionAuthority) → a.is_closed ≡ true → close_admission a ≡ a
unfolding close_admission
closed_again a c = if_true a.is_closed a _ c

-- One while an acquisition runs in the serial section.
abbrev pub running : Option Awaiting → ℕ
running none = 0
running (some w) = 1

-- Closed, and with no more permits than granted or under way before.
pub record Lets (a b : AdmissionAuthority) : Type 0 where
  pub closed : b.is_closed ≡ true
  pub count :
      permits_granted b.settled + running b.section ≤ permits_granted a.settled + running a.section

-- The end of the section by an error, of an authority that has granted no more than this one.
catch_error-Lets :
    (signal : Signal) (request : SubagentAdmissionRequest) (root : String)
    (pending : List Diagnostic) (thrown : Thrown) (a b : AdmissionAuthority)
    → b.is_closed ≡ true
    → b.settled ≡ a.settled
    → Lets a (catch_error signal request root pending thrown b)
unfolding catch_error
catch_error-Lets signal request root pending thrown a b c s =
    let same = ap permits_granted s in
    elim (Bool-cases (is_aborted_at_catch signal)) [
      | inl e ↦
          rw (e, catch_error)
            (record {
              closed = c;
              count =
                  omega (arith, same, permits_granted-append b.settled (rejected request thrown));
            })
      | inr e ↦
          rw (e, catch_error)
            (record {
              closed = c;
              count = omega (arith, same, permits_granted-append b.settled (refused request _));
            })
    ]

module _ (a : AdmissionAuthority) (c : a.is_closed ≡ true) where
  pub same-Lets : Lets a a
  same-Lets = record { closed = c; count = omega arith }

  -- An authority that differs in neither the section nor the answers.
  pub kept-Lets :
      (b : AdmissionAuthority)
      → b.is_closed ≡ true
      → b.settled ≡ a.settled
      → b.section ≡ a.section
      → Lets a b
  kept-Lets b d s w = record {
    closed = d;
    count = omega (arith, ap permits_granted s, ap running w);
  }

  pub if-Lets :
      (t : Bool) (x y : AdmissionAuthority) → Lets a x → Lets a y → Lets a (if t then x else y)
  if-Lets true x y e f = e
  if-Lets false x y e f = f

  pub catch-Lets :
      (signal : Signal) (request : SubagentAdmissionRequest) (root : String)
      (pending : List Diagnostic) (thrown : Thrown) (b : AdmissionAuthority)
      → b.is_closed ≡ a.is_closed
      → b.settled ≡ a.settled
      → Lets a (catch_error signal request root pending thrown b)
  catch-Lets signal request root pending thrown b d s =
      catch_error-Lets signal request root pending thrown a b (d ∙ c) s
