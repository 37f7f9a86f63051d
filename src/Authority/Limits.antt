-- ===== src/Authority/Limits.antt =====
-- authority.ts over histories: the invariant of its states, and the live limits.
use dsh_subagent_admission.Prelude.{
  ◌≤◌, ◌≡◌, refl, sym, ap, subst, ◌∙◌, inl, inr, String, Option, none, some, List, [], ◌∷◌, lookup,
  size, arith, eq_iff, Number,
}
use dsh_subagent_admission.Vocabulary.{AdmissionLimits}
use dsh_subagent_admission.Leases.{root_active, global_active, new_registry}
use dsh_subagent_admission.Leases.Invariant.{live_of, IsValid, new_registry-IsValid}
use dsh_subagent_admission.Leases.Effects.{Fewer, Entered, Fewer-same}
use dsh_subagent_admission.Ledger.{RootLedgerRow, ReserveNewInput, LedgerState, next_row}
use dsh_subagent_admission.Ledger.Reservation.{HasTotals}
use dsh_subagent_admission.Authority.{
  SubagentAdmissionRequest, Awaiting, guarding, resolving, reserving, writing, AdmissionAuthority,
}
use dsh_subagent_admission.Authority.Reserve.{reservation_input}
use dsh_subagent_admission.Authority.Steps.{Step, step, steps, new_authority}
use dsh_subagent_admission.Authority.Effects.{
  HasRoom, IsCalm, Effect, calm, resumes, prepares, commits, spends,
}
use dsh_subagent_admission.Authority.Refinement.{step-Effect}

-- The row is the next one of its root, which has room in the ledger.
abbrev pub IsNext :
    SubagentAdmissionRequest
    → String
    → Number
    → RootLedgerRow
    → AdmissionLimits
    → LedgerState
    → Type 0
IsNext request root now row limits ledger =
    let input : ReserveNewInput = record {
      root_session_id = root;
      parent_session_id = request.parent_session_id;
      limits = limits;
      now = now;
    } in
    HasTotals ledger input × (row ≡ next_row (lookup root ledger.rows) input)

-- While a row is written, there is room for its lease and for the row.
abbrev pub IsPrepared : AdmissionAuthority → Option Awaiting → Type 0
IsPrepared a none = Unit {0}
IsPrepared a (some (guarding request)) = Unit {0}
IsPrepared a (some (resolving request)) = Unit {0}
IsPrepared a (some (reserving request root now)) = Unit {0}
IsPrepared a (some (writing request root now row)) =
    HasRoom a root × IsNext request root now row a.limits a.ledger

-- The invariant of the authority's histories.
pub record IsSound (a : AdmissionAuthority) : Type 0 where
  pub leases : IsValid a.leases
  pub of_root : (r : String) → root_active a.leases r ≤ a.limits.per_root_active
  pub of_all : global_active a.leases ≤ a.limits.global_active
  pub prepared : IsPrepared a a.section

IsCalm-IsPrepared : (a : AdmissionAuthority) (w : Option Awaiting) → IsCalm w → IsPrepared a w
IsCalm-IsPrepared a none c = tt
IsCalm-IsPrepared a (some (guarding request)) c = tt
IsCalm-IsPrepared a (some (resolving request)) c = tt
IsCalm-IsPrepared a (some (reserving request root now)) c = tt
IsCalm-IsPrepared a (some (writing request root now row)) c = absurd c

IsPrepared-kept :
    (a b : AdmissionAuthority) (w : Option Awaiting)
    → b.limits ≡ a.limits
    → b.ledger ≡ a.ledger
    → Fewer a.leases b.leases
    → IsPrepared a w
    → IsPrepared b w
IsPrepared-kept a b none l m f p = tt
IsPrepared-kept a b (some (guarding request)) l m f p = tt
IsPrepared-kept a b (some (resolving request)) l m f p = tt
IsPrepared-kept a b (some (reserving request root now)) l m f p = tt
IsPrepared-kept a b (some (writing request root now row)) l m f p = (
  (
    omega (arith, f.of_root root, p.0, ap (λ (t : AdmissionLimits). t.per_root_active) l),
    omega (arith, f.of_all, p.0, ap (λ (t : AdmissionLimits). t.global_active) l),
  ),
  subst (λ t. IsNext request root now row t b.ledger) (sym l)
      (subst (λ t. IsNext request root now row a.limits t) (sym m) p.1),
)

module _ (a b : AdmissionAuthority) (l : b.limits ≡ a.limits) (h : IsSound a) where
  Fewer-IsSound : Fewer a.leases b.leases → IsPrepared b b.section → IsSound b
  Fewer-IsSound f p = record {
    leases = f.valid;
    of_root = λ r.
        omega (arith, f.of_root r, h.of_root r, ap (λ (t : AdmissionLimits). t.per_root_active) l);
    of_all = omega (arith, f.of_all, h.of_all, ap (λ (t : AdmissionLimits). t.global_active) l);
    prepared = p;
  }

  Entered-IsSound :
      (root : String)
      → HasRoom a root
      → Entered root a.leases b.leases
      → b.section ≡ none
      → IsSound b
  Entered-IsSound root room e s = record {
    leases = e.valid;
    of_root = λ r. ground (
      arith,
      e.of_root r,
      h.of_root r,
      room,
      eq_iff root r,
      ap (λ (t : AdmissionLimits). t.per_root_active) l,
    );
    of_all = omega (arith, e.of_all, room, ap (λ (t : AdmissionLimits). t.global_active) l);
    prepared = subst (IsPrepared b) (sym s) tt;
  }

pub Effect-IsSound : (a b : AdmissionAuthority) → Effect a b → IsSound a → IsSound b
unfolding reservation_input
Effect-IsSound a b (calm l m f (inl s) g) h =
    Fewer-IsSound a b l h f
      (subst (IsPrepared b) (sym s) (IsPrepared-kept a b a.section l m f h.prepared))
Effect-IsSound a b (calm l m f (inr s) g) h =
    Fewer-IsSound a b l h f (IsCalm-IsPrepared b b.section s)
Effect-IsSound a b (resumes root l m room e s g) h = Entered-IsSound a b l h root room e s
Effect-IsSound a b (prepares request root now room t l m n s g) h =
    let f = subst (Fewer a.leases) (sym n) (Fewer-same a.leases h.leases) in
    Fewer-IsSound a b l h f (
      subst (IsPrepared b) (sym s) (
        IsPrepared-kept a b
          (some (
            writing request root now
              (next_row (lookup root a.ledger.rows) (reservation_input a request root now))))
          l m f (room, (t, refl))))
Effect-IsSound a b (commits request root now row w l m e s g) h =
    Entered-IsSound a b l h root (subst (IsPrepared a) w h.prepared).0 e s
Effect-IsSound a b (spends request root now row w l m f s g) h =
    Fewer-IsSound a b l h f (subst (IsPrepared b) (sym s) tt)

pub new_authority-IsSound :
    (limits : AdmissionLimits) (epoch : String) (ledger : LedgerState)
    → IsSound (new_authority limits epoch ledger)
unfolding new_authority new_registry lookup
new_authority-IsSound limits epoch ledger = record {
  leases = new_registry-IsValid;
  of_root = λ r. omega arith;
  of_all = omega arith;
  prepared = tt;
}

pub steps-IsSound : (a : AdmissionAuthority) (ss : List Step) → IsSound a → IsSound (steps a ss)
unfolding steps
steps-IsSound a [] h = h
steps-IsSound a (s ∷ ss) h =
    steps-IsSound (step a s) ss (Effect-IsSound a (step a s) (step-Effect a h.leases s) h)

pub Effect-limits : (a b : AdmissionAuthority) → Effect a b → b.limits ≡ a.limits
Effect-limits a b (calm l m f s g) = l
Effect-limits a b (resumes root l m room e s g) = l
Effect-limits a b (prepares request root now room t l m n s g) = l
Effect-limits a b (commits request root now row w l m e s g) = l
Effect-limits a b (spends request root now row w l m f s g) = l

pub steps-limits :
    (a : AdmissionAuthority) (ss : List Step) → IsSound a → (steps a ss).limits ≡ a.limits
unfolding steps
steps-limits a [] h = refl
steps-limits a (s ∷ ss) h =
    let e = step-Effect a h.leases s in
    steps-limits (step a s) ss (Effect-IsSound a (step a s) e h) ∙ Effect-limits a (step a s) e

-- In every history of a new authority, with any interleaving of acquisitions, bindings, releases
-- and closing, and whatever the guard, the header reader, the clock, the ledger and the signals
-- answer, no root ever has more leases in the registry than its limit, nor the process more than its
-- own, and the counter that is kept for a root is the number of its leases.
pub steps_within_limits :
    (limits : AdmissionLimits) (epoch : String) (ledger : LedgerState) (ss : List Step) (r : String)
    → let registry = (steps (new_authority limits epoch ledger) ss).leases in
      (live_of r registry.leases ≤ limits.per_root_active)
      × (size registry.leases ≤ limits.global_active)
      × (root_active registry r ≡ live_of r registry.leases)
unfolding new_authority
steps_within_limits limits epoch ledger ss r =
    let a = new_authority limits epoch ledger in
    let h = new_authority-IsSound limits epoch ledger in
    let s = steps-IsSound a ss h in
    let l = steps-limits a ss h in
    let counted = s.leases.root_count r in
    let below =
      subst (λ (t : AdmissionLimits). root_active (steps a ss).leases r ≤ t.per_root_active) l
        (s.of_root r) in
    (
      omega (arith, counted, below),
      subst (λ (t : AdmissionLimits). global_active (steps a ss).leases ≤ t.global_active) l
          s.of_all,
      counted,
    )
