-- ===== src/Resolver/Suffixes.antt =====
-- root-resolver.ts, the entries of the memo.
use dsh_subagent_admission.Prelude.{
  ◌≡◌, refl, sym, ap, subst, inl, inr, String, some, List, [], ◌∷◌, Dict, lookup, insert,
  lookup-insert, arith, eq_iff, ◌==◌, Result, ok, err, Bool-cases, Option-cases,
}
use dsh_subagent_admission.Resolver.{
  Reading, ResolvedLineage, ResolverError, DurableRootResolver, traverse, traversal_fuel, last,
  memoize_all, finish, resolve_fresh, resolve,
}
use dsh_subagent_admission.Resolver.Memo.{
  some-value, last-cons, resolve_walks, resolve_aborted, resolve_memoized,
}

finish_root :
    (r : DurableRootResolver) (start x : String) (rest : List String) (root : String)
    → last (x ∷ rest) ≡ some root
    → finish r start (x ∷ rest) ≡ (
      ok (record { root_session_id = root; lineage = x ∷ rest }),
      record r { resolved = memoize_all root (x ∷ rest) r.resolved },
    )
unfolding finish
finish_root r start x rest root e = rw (e, finish) refl

-- A memo entry is a lineage from its own id to its root.
pub record IsLineage (id : String) (l : ResolvedLineage) : Type 0 where
  pub from : (rest : List String) × (l.lineage ≡ id ∷ rest)
  pub upto : last l.lineage ≡ some l.root_session_id

abbrev pub IsValidMemo : Dict ResolvedLineage → Type 0
IsValidMemo m = (id : String) (l : ResolvedLineage) → lookup id m ≡ some l → IsLineage id l

insert-IsValidMemo :
    (x : String) (rest : List String) (root : String) (m : Dict ResolvedLineage)
    → IsValidMemo m
    → last (x ∷ rest) ≡ some root
    → IsValidMemo (insert x (record { root_session_id = root; lineage = x ∷ rest }) m)
insert-IsValidMemo x rest root m v h id l e =
    let new : ResolvedLineage = record { root_session_id = root; lineage = x ∷ rest } in
    elim (Bool-cases (x == id)) [
      | inl q ↦
          let same : x ≡ id = ground (arith, q, eq_iff x id) in
          let value : new ≡ l = some-value (ground (arith, q, e, lookup-insert x id new m)) in
          subst (IsLineage id) value (record { from = (rest, ap (λ t. t ∷ rest) same); upto = h })
      | inr q ↦ v id l (ground (arith, q, e, lookup-insert x id new m))
    ]

memoize_all-IsValidMemo :
    (root x : String) (rest : List String) (m : Dict ResolvedLineage)
    → IsValidMemo m
    → last (x ∷ rest) ≡ some root
    → IsValidMemo (memoize_all root (x ∷ rest) m)
unfolding memoize_all
memoize_all-IsValidMemo root x [] m v h = insert-IsValidMemo x [] root m v h
memoize_all-IsValidMemo root x (y ∷ rest) m v h =
    memoize_all-IsValidMemo root y rest _ (insert-IsValidMemo x (y ∷ rest) root m v h) h

finish-IsValidMemo :
    (r : DurableRootResolver) (start : String) (path : List String)
    → IsValidMemo r.resolved
    → IsValidMemo (finish r start path).1.resolved
unfolding finish
finish-IsValidMemo r start [] v = v
finish-IsValidMemo r start (x ∷ rest) v =
    let (root, e) = last-cons x rest in
    subst IsValidMemo (sym (ap (λ t. t.1.resolved) (finish_root r start x rest root e)))
      (memoize_all-IsValidMemo root x rest r.resolved v e)

resolve_fresh-IsValidMemo :
    (reading : Reading) (r : DurableRootResolver) (start : String)
    (walk : Result ResolverError (List String))
    → IsValidMemo r.resolved
    → IsValidMemo (resolve_fresh reading r start walk).1.resolved
unfolding resolve_fresh
resolve_fresh-IsValidMemo reading r start (ok path) v = finish-IsValidMemo r start path v
resolve_fresh-IsValidMemo reading r start (err e) v = v

-- Every memo entry is a lineage that starts at its own id and ends at its root, and a resolution
-- keeps that, whatever it reads and however it ends.
pub resolve-IsValidMemo :
    (reading : Reading) (r : DurableRootResolver) (start : String)
    → IsValidMemo r.resolved
    → IsValidMemo (resolve reading r start).1.resolved
resolve-IsValidMemo reading r start v = elim (Bool-cases (reading.is_aborted 0)) [
  | inl a ↦ subst IsValidMemo (sym (ap (λ t. t.1.resolved) (resolve_aborted reading r start a))) v
  | inr a ↦ elim (Option-cases (lookup start r.resolved)) [
    | inl q ↦
        subst IsValidMemo (sym (ap (λ t. t.1.resolved) (resolve_walks reading r start a q)))
          (resolve_fresh-IsValidMemo reading r start (traverse reading traversal_fuel 0 start []) v)
    | inr (l, q) ↦
        subst IsValidMemo (sym (ap (λ t. t.1.resolved) (resolve_memoized reading r start l a q))) v
  ]
]
