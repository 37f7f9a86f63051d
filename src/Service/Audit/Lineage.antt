-- ===== src/Service/Audit/Lineage.antt =====
-- service.ts, `auditLineage`: the parent and the root of a child, as the live sessions have them. `get` is
-- `sessions.get`, which may throw.
use dsh_subagent_admission.Prelude.{
  ◌≡◌, refl, subst, ℕ, zero, suc, ◌<◌, ◌≤◌, String, Option, none, some, Bool, true, false, List, [],
  ◌∷◌, ◌==◌, is_empty, if◌then◌else◌, ok, err, length, eq_iff, inl, inr, Bool-cases, arith,
}
use dsh_subagent_admission.Resolver.{is_visited}
use dsh_subagent_admission.Telemetry.Snapshot.{Answer, answers, throws}
use dsh_subagent_admission.Service.Bootstrap.{HostSession, Checked, normalized_parent, is_id}
use dsh_subagent_admission.Service.Audit.{AuditLineage}

-- How the walk to the root ends: at a root, without one, or by the model's own bound.
pub data Walk : Type 0 where
  reached : String → Walk
  stopped out_of_fuel : Walk

module _ (get : String → Answer (Option HostSession)) where
  -- `next === undefined || next.header.id !== parent`.
  abbrev pub next_session : String → Answer (Option HostSession) → Option HostSession
  next_session parent throws = none
  next_session parent (answers none) = none
  next_session parent (answers (some next)) =
      if is_id parent next.header.id then some next else none

  abbrev pub walk_from : (HostSession → Walk) → Option HostSession → Walk
  walk_from rest none = stopped
  walk_from rest (some next) = rest next

  abbrev pub walk_parent : (HostSession → Walk) → String → Checked (Option String) → Walk
  walk_parent rest id (err reason) = stopped
  walk_parent rest id (ok none) = reached id
  walk_parent rest id (ok (some parent)) = walk_from rest (next_session parent (get parent))

  -- The loop, one round to a unit of fuel.
  unfoldable pub walk : ℕ → List String → HostSession → Walk
  unfolding normalized_parent
  walk zero seen current = out_of_fuel
  walk (suc fuel) seen current =
      let rest = walk fuel (current.id ∷ seen) in
      if is_visited current.id seen
      then stopped
      else walk_parent rest current.id (normalized_parent current.header.parent_session)

  abbrev pub lineage_of : Checked (Option String) → Walk → Option AuditLineage
  lineage_of (err reason) found = none
  lineage_of (ok parent) stopped = none
  lineage_of (ok parent) out_of_fuel = none
  lineage_of (ok parent) (reached root) = some (record { parent_id = parent; root_id = root })

  abbrev pub child_lineage : ℕ → Option HostSession → Option AuditLineage
  child_lineage fuel none = none
  child_lineage fuel (some child) =
      lineage_of (normalized_parent child.header.parent_session) (walk fuel [] child)

  -- `auditLineage`, where sessions are mounted.
  unfoldable pub audit_lineage : ℕ → String → Option AuditLineage
  unfolding walk normalized_parent
  audit_lineage fuel child =
      if is_empty child then none else child_lineage fuel (next_session child (get child))

  -- The way from a session to its root, parent by parent.
  pub data Ascends : HostSession → String → Type 0 where
    top : {s : HostSession} → normalized_parent s.header.parent_session ≡ ok none → Ascends s s.id
    up :
        {s next : HostSession} {parent root : String}
        → normalized_parent s.header.parent_session ≡ ok (some parent)
        → next_session parent (get parent) ≡ some next
        → Ascends next root
        → Ascends s root

  -- A walk ends by itself, and a root that it reaches is the root of where it began.
  abbrev pub EndsWell : HostSession → Walk → Type 0
  EndsWell start (reached root) = Ascends start root
  EndsWell start stopped = Unit
  EndsWell start out_of_fuel = ⊥

  EndsWell-up :
      (s next : HostSession) (parent : String) (w : Walk)
      → normalized_parent s.header.parent_session ≡ ok (some parent)
      → next_session parent (get parent) ≡ some next
      → EndsWell next w
      → EndsWell s w
  EndsWell-up s next parent (reached root) p n h = up p n h
  EndsWell-up s next parent stopped p n h = tt
  EndsWell-up s next parent out_of_fuel p n h = absurd h

-- How many of the ids were not seen yet.
abbrev unseen : List String → List String → ℕ
unseen seen [] = 0
unseen seen (id ∷ ids) = if is_visited id seen then unseen seen ids else suc (unseen seen ids)

unseen-le : (x : String) (seen ids : List String) → unseen (x ∷ seen) ids ≤ unseen seen ids
unseen-le x seen [] = omega arith
unseen-le x seen (id ∷ ids) = elim (Bool-cases (x == id)) [
  | inl e ↦ ground (arith, e, unseen-le x seen ids)
  | inr e ↦ ground (arith, e, unseen-le x seen ids)
]

unseen-lt :
    (x : String) (seen ids : List String)
    → is_visited x ids ≡ true
    → is_visited x seen ≡ false
    → unseen (x ∷ seen) ids < unseen seen ids
unseen-lt x seen [] m n = cc
unseen-lt x seen (id ∷ ids) m n = elim (Bool-cases (id == x)) [
  | inl e ↦
      let same : id ≡ x = (eq_iff id x).0 e in
      ground (arith, same, m, n, eq_iff x x, unseen-le x seen ids)
  | inr e ↦ ground (arith, m, n, e, eq_iff x id, eq_iff id x, unseen-lt x seen ids)
]

unseen-length : (ids : List String) → unseen [] ids ≤ length ids
unseen-length [] = omega arith
unseen-length (id ∷ ids) = ground (arith, unseen-length ids)

if_some : {A : Type 0} (b : Bool) (s next : A) → (if b then some s else none) ≡ some next → s ≡ next
if_some true s next h = cc
if_some false s next h = cc

module _ (get : String → Answer (Option HostSession)) where
  walk_from-EndsWell :
      (rest : HostSession → Walk) (current : HostSession) (parent : String) (o : Option HostSession)
      → normalized_parent current.header.parent_session ≡ ok (some parent)
      → next_session get parent (get parent) ≡ o
      → ((next : HostSession) → o ≡ some next → EndsWell get next (rest next))
      → EndsWell get current (walk_from get rest o)
  walk_from-EndsWell rest current parent none p e all = tt
  walk_from-EndsWell rest current parent (some next) p e all =
      EndsWell-up get current next parent (rest next) p e (all next refl)

  walk_parent-EndsWell :
      (rest : HostSession → Walk) (current : HostSession) (o : Checked (Option String))
      → normalized_parent current.header.parent_session ≡ o
      → ((parent : String) (next : HostSession)
          → next_session get parent (get parent) ≡ some next
          → EndsWell get next (rest next))
      → EndsWell get current (walk_parent get rest current.id o)
  walk_parent-EndsWell rest current (err reason) p all = tt
  walk_parent-EndsWell rest current (ok none) p all = top p
  walk_parent-EndsWell rest current (ok (some parent)) p all =
      walk_from-EndsWell rest current parent (next_session get parent (get parent)) p refl
        (all parent)

module _ (get : String → Answer (Option HostSession)) (ids : List String) where
  -- The ids of the sessions that `get` may give.
  abbrev pub AreAllIds : Type 0
  AreAllIds =
      (parent : String) (s : HostSession)
      → get parent ≡ answers (some s)
      → is_visited s.id ids ≡ true

  next-is_listed :
      AreAllIds
      → (parent : String) (answer : Answer (Option HostSession)) (next : HostSession)
      → get parent ≡ answer
      → next_session get parent answer ≡ some next
      → is_visited next.id ids ≡ true
  next-is_listed all parent throws next e h = cc
  next-is_listed all parent (answers none) next e h = cc
  next-is_listed all parent (answers (some s)) next e h =
      subst (λ (x : HostSession). is_visited x.id ids ≡ true)
        (if_some (is_id parent s.header.id) s next h) (all parent s e)

  walk-EndsWell :
      AreAllIds
      → (fuel : ℕ) (seen : List String) (current : HostSession) → is_visited current.id ids ≡ true
      → unseen seen ids < fuel
      → EndsWell get current (walk get fuel seen current)
  unfolding walk
  walk-EndsWell all zero seen current m h = absurd (omega (arith, h))
  walk-EndsWell all (suc fuel) seen current m h = elim (Bool-cases (is_visited current.id seen)) [
    | inl old ↦ rw old tt
    | inr new ↦ rw new (
        walk_parent-EndsWell get (walk get fuel (current.id ∷ seen)) current
          (normalized_parent current.header.parent_session) refl
          (λ parent next found.
            walk-EndsWell all fuel (current.id ∷ seen) next
              (next-is_listed all parent (get parent) next refl found)
              (omega (arith, h, unseen-lt current.id seen ids m new))))
  ]

-- The lineage is that of the child: its parent, and the root to which its parents lead.
abbrev pub IsLineage :
    (String → Answer (Option HostSession)) → HostSession → Option AuditLineage → Type 0
IsLineage get child none = Unit
IsLineage get child (some l) =
    (normalized_parent child.header.parent_session ≡ ok l.parent_id) × Ascends get child l.root_id

lineage_of-IsLineage :
    (get : String → Answer (Option HostSession)) (child : HostSession) (o : Checked (Option String))
    (w : Walk)
    → normalized_parent child.header.parent_session ≡ o
    → EndsWell get child w
    → IsLineage get child (lineage_of get o w)
lineage_of-IsLineage get child (err reason) w p h = tt
lineage_of-IsLineage get child (ok parent) stopped p h = tt
lineage_of-IsLineage get child (ok parent) out_of_fuel p h = tt
lineage_of-IsLineage get child (ok parent) (reached root) p h = (p, h)

-- Where the ids of all sessions that `sessions.get` may give are among some ids, one round more than
-- these is enough for the walk from any session, which then ends by itself, also on a cycle; and the
-- lineage found for a child has its own parent, and the root to which its parents lead.
pub audit_walk_ends :
    (get : String → Answer (Option HostSession)) (ids : List String) (child_id : String)
    (child : HostSession)
    → AreAllIds get ids
    → is_empty child_id ≡ false
    → next_session get child_id (get child_id) ≡ some child
    → EndsWell get child (walk get (suc (length ids)) [] child)
      × IsLineage get child (audit_lineage get (suc (length ids)) child_id)
unfolding audit_lineage
audit_walk_ends get ids child_id child all named found =
    let fuel = suc (length ids) in
    let ends =
      walk-EndsWell get ids all fuel [] child
        (next-is_listed get ids all child_id (get child_id) child refl found)
        (omega (arith, unseen-length ids)) in
    (
      ends,
      rw named (
          rw found (
            lineage_of-IsLineage get child (normalized_parent child.header.parent_session)
              (walk get fuel [] child) refl ends)),
    )
