-- ===== src/Authority/Durability.antt =====
-- authority.ts over histories: the durable counters and the permits for new children.
use dsh_subagent_admission.Prelude.{
  ◌+◌, ◌≤◌, ◌≡◌, ap, subst, inl, inr, String, List, [], ◌∷◌, lookup, insert, lookup-insert, arith,
  eq_iff, ◌==◌, if◌then◌else◌, max, Number,
}
use dsh_subagent_admission.Vocabulary.{AdmissionLimits}
use dsh_subagent_admission.Ledger.{RootLedgerRow, LedgerState, next_row, total_of}
use dsh_subagent_admission.Ledger.Rows.{root_total}
use dsh_subagent_admission.Authority.{SubagentAdmissionRequest, AdmissionAuthority}
use dsh_subagent_admission.Authority.Steps.{Step, step, steps, new_authority}
use dsh_subagent_admission.Authority.Effects.{
  new_grants, Effect, calm, resumes, prepares, commits, spends,
}
use dsh_subagent_admission.Authority.Refinement.{step-Effect}
use dsh_subagent_admission.Authority.Limits.{
  IsNext, IsPrepared, IsSound, Effect-IsSound, Effect-limits, new_authority-IsSound,
}

-- The counter of a root, after the row that was being written is stored.
row_counts :
    (a b : AdmissionAuthority) (request : SubagentAdmissionRequest) (root : String) (now : Number)
    (row : RootLedgerRow) (r : String)
    → IsNext request root now row a.limits a.ledger
    → b.ledger.rows ≡ insert root row a.ledger.rows
    → (root_total r b.ledger ≡ root_total r a.ledger + (if root == r then 1 else 0))
      × (root_total r b.ledger ≤ max (root_total r a.ledger) a.limits.per_root_admitted_total)
unfolding next_row
row_counts a b request root now row r n e =
    let law = lookup-insert root r row a.ledger.rows in
    let after : root_total r b.ledger ≡ total_of (lookup r (insert root row a.ledger.rows)) =
      ap (λ t. total_of (lookup r t)) e in
    let new = ap (λ (t : RootLedgerRow). t.admitted_total) n.1 in
    (
      ground (arith, after, law, new, eq_iff root r),
      ground (arith, after, law, new, n.0.0, eq_iff root r),
    )

-- What an effect does to the counter of a root, to its limit and to its permits.
pub record Counted (r : String) (a b : AdmissionAuthority) : Type 0 where
  pub covers :
      root_total r a.ledger + new_grants r b.settled
      ≤ root_total r b.ledger + new_grants r a.settled
  pub grows : root_total r a.ledger ≤ root_total r b.ledger
  pub within : root_total r b.ledger ≤ max (root_total r a.ledger) a.limits.per_root_admitted_total

Effect-Counted : (r : String) (a b : AdmissionAuthority) → IsSound a → Effect a b → Counted r a b
Effect-Counted r a b h (calm l m f s g) =
    let same = ap (root_total r) m in
    record {
      covers = omega (arith, same, g r);
      grows = omega (arith, same);
      within = omega (arith, same);
    }
Effect-Counted r a b h (resumes root l m room e s g) =
    let same = ap (root_total r) m in
    record {
      covers = omega (arith, same, g r);
      grows = omega (arith, same);
      within = omega (arith, same);
    }
Effect-Counted r a b h (prepares request root now room t l m n s g) =
    let same = ap (root_total r) m in
    record {
      covers = omega (arith, same, g r);
      grows = omega (arith, same);
      within = omega (arith, same);
    }
Effect-Counted r a b h (commits request root now row w l m e s g) =
    let counts = row_counts a b request root now row r (subst (IsPrepared a) w h.prepared).1 m in
    record {
      covers = omega (arith, counts.0, g r);
      grows = omega (arith, counts.0);
      within = counts.1;
    }
Effect-Counted r a b h (spends request root now row w l (inl m) f s g) =
    let same = ap (root_total r) m in
    record {
      covers = omega (arith, same, g r);
      grows = omega (arith, same);
      within = omega (arith, same);
    }
Effect-Counted r a b h (spends request root now row w l (inr m) f s g) =
    let counts = row_counts a b request root now row r (subst (IsPrepared a) w h.prepared).1 m in
    record {
      covers = omega (arith, counts.0, g r);
      grows = omega (arith, counts.0);
      within = counts.1;
    }

steps-Counted :
    (r : String) (a : AdmissionAuthority) (ss : List Step) → IsSound a → Counted r a (steps a ss)
unfolding steps
steps-Counted r a [] h = record { covers = omega arith; grows = omega arith; within = omega arith }
steps-Counted r a (s ∷ ss) h =
    let e = step-Effect a h.leases s in
    let one = Effect-Counted r a (step a s) h e in
    let rest = steps-Counted r (step a s) ss (Effect-IsSound a (step a s) e h) in
    let l =
      ap (λ (t : AdmissionLimits). t.per_root_admitted_total) (Effect-limits a (step a s) e) in
    record {
      covers = omega (arith, one.covers, rest.covers);
      grows = omega (arith, one.grows, rest.grows);
      within = omega (arith, one.within, rest.within, l);
    }

-- In every history of a new authority over a ledger, the permits granted for new children of a root
-- are covered by what its durable counter grew by: none is granted without a stored count, whatever
-- the ledger answers.
pub grants_are_durable :
    (limits : AdmissionLimits) (epoch : String) (ledger : LedgerState) (ss : List Step) (r : String)
    → root_total r ledger + new_grants r (steps (new_authority limits epoch ledger) ss).settled
      ≤ root_total r (steps (new_authority limits epoch ledger) ss).ledger
unfolding new_authority new_grants
grants_are_durable limits epoch ledger ss r =
    let a = new_authority limits epoch ledger in
    let c = steps-Counted r a ss (new_authority-IsSound limits epoch ledger) in
    omega (arith, c.covers)

-- In every history of a new authority the durable counter of a root never falls, and ends at most at
-- the limit, or at where the ledger had it.
pub counter_within_limit :
    (limits : AdmissionLimits) (epoch : String) (ledger : LedgerState) (ss : List Step) (r : String)
    → (root_total r ledger ≤ root_total r (steps (new_authority limits epoch ledger) ss).ledger)
      × (root_total r (steps (new_authority limits epoch ledger) ss).ledger
          ≤ max (root_total r ledger) limits.per_root_admitted_total)
unfolding new_authority
counter_within_limit limits epoch ledger ss r =
    let a = new_authority limits epoch ledger in
    let c = steps-Counted r a ss (new_authority-IsSound limits epoch ledger) in (c.grows, c.within)
