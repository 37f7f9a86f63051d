-- ===== src/Resolver/Memo.antt =====
-- root-resolver.ts, the memo: what a resolution stores, and what a failed one leaves.
use dsh_subagent_admission.Prelude.{
  ◌≡◌, refl, sym, ap, subst, ◌∙◌, inl, inr, String, Option, none, some, true, false, List, [], ◌∷◌,
  ◌++◌, Dict, lookup, insert, lookup-insert, arith, eq_iff, Result, ok, err, Bool-cases,
  Option-cases,
}
use dsh_subagent_admission.Resolver.{
  Reading, ResolvedLineage, ResolverError, aborted, DurableRootResolver, is_visited, traverse,
  traversal_fuel, last, memoize_all, finish, resolve_fresh, resolve,
}
use dsh_subagent_admission.Resolver.Traversal.{IsNew, traverse-Found}

is_visited-append :
    (k y : String) (xs : List String) → is_visited k xs ≡ true → is_visited k (xs ++ y ∷ []) ≡ true
is_visited-append k y [] h = cc
is_visited-append k y (x ∷ xs) h = ground (arith, is_visited-append k y xs)

is_visited_end : (y : String) (xs : List String) → is_visited y (xs ++ y ∷ []) ≡ true
is_visited_end y [] = ground (arith, eq_iff y y)
is_visited_end y (x ∷ xs) = ground (arith, is_visited_end y xs)

-- What was visited before is not met again.
IsNew-not_visited :
    (k : String) (path l : List String)
    → IsNew path l
    → is_visited k path ≡ true
    → is_visited k l ≡ false
IsNew-not_visited k path [] h v = refl
IsNew-not_visited k path (y ∷ ys) h v =
    ground (
      arith,
      eq_iff y k,
      IsNew-not_visited k (path ++ y ∷ []) ys h.1 (is_visited-append k y path v),
    )

memoize_all_other :
    (k root : String) (path : List String) (m : Dict ResolvedLineage)
    → is_visited k path ≡ false
    → lookup k (memoize_all root path m) ≡ lookup k m
unfolding memoize_all
memoize_all_other k root [] m h = refl
memoize_all_other k root (x ∷ rest) m h =
    let l : ResolvedLineage = record { root_session_id = root; lineage = x ∷ rest } in
    memoize_all_other k root rest (insert x l m) (ground arith)
    ∙ ground (arith, lookup-insert x k l m)

memoize_all_at :
    (x root : String) (before pre rest : List String) (m : Dict ResolvedLineage)
    → IsNew before (pre ++ x ∷ rest)
    → lookup x (memoize_all root (pre ++ x ∷ rest) m)
      ≡ some (record { root_session_id = root; lineage = x ∷ rest })
unfolding memoize_all
memoize_all_at x root before [] rest m h =
    let l : ResolvedLineage = record { root_session_id = root; lineage = x ∷ rest } in
    memoize_all_other x root rest (insert x l m)
      (IsNew-not_visited x (before ++ x ∷ []) rest h.1 (is_visited_end x before))
    ∙ ground (arith, lookup-insert x x l m, eq_iff x x)
memoize_all_at x root before (y ∷ pre) rest m h =
    memoize_all_at x root (before ++ y ∷ []) pre rest _ h.1

ok-value :
    {a b : ResolvedLineage} → ◌≡◌ {A = Result ResolverError ResolvedLineage} (ok a) (ok b) → a ≡ b
ok-value e = cc

pub some-value :
    {a b : ResolvedLineage} → ◌≡◌ {A = Option ResolvedLineage} (some a) (some b) → a ≡ b
some-value e = cc

pub last-cons : (x : String) (xs : List String) → (y : String) × (last (x ∷ xs) ≡ some y)
last-cons x [] = (x, refl)
last-cons x (y ∷ rest) = last-cons y rest

module _ (reading : Reading) (r : DurableRootResolver) (start : String) where
  pub resolve_walks :
      reading.is_aborted 0 ≡ false
      → lookup start r.resolved ≡ none
      → resolve reading r start
        ≡ resolve_fresh reading r start (traverse reading traversal_fuel 0 start [])
  unfolding resolve
  resolve_walks a e = rw (a, e, resolve) refl

  resolve_fresh_walked :
      (path : List String)
      → traverse reading traversal_fuel 0 start [] ≡ ok path
      → (root : String) × (last path ≡ some root)
        × IsNew [] path
        × (resolve_fresh reading r start (traverse reading traversal_fuel 0 start []) ≡ (
          ok (record { root_session_id = root; lineage = path }),
          record r { resolved = memoize_all root path r.resolved },
        ))
  unfolding resolve_fresh finish
  resolve_fresh_walked path e =
      let f = traverse-Found reading traversal_fuel 0 start [] path e in
      let (root, l) = last-cons start f.rest in
      let l' : last path ≡ some root = ap last f.split ∙ l in
      (root, l', subst (IsNew []) (sym f.split) f.new, rw (e, resolve_fresh, l', finish) refl)

  pub resolve_aborted : reading.is_aborted 0 ≡ true → resolve reading r start ≡ (err aborted, r)
  unfolding resolve
  resolve_aborted a = rw (a, resolve) refl

  pub resolve_memoized :
      (l : ResolvedLineage)
      → reading.is_aborted 0 ≡ false
      → lookup start r.resolved ≡ some l
      → resolve reading r start ≡ (ok l, r)
  unfolding resolve
  resolve_memoized l a e = rw (a, e, resolve) refl

  finish_failed :
      (path : List String) (o : Option String)
      → last path ≡ o
      → (x : ResolverError) → (finish r start path).0 ≡ err x
      → (finish r start path).1 ≡ r
  unfolding finish
  finish_failed path none e x h = rw (e, finish) refl
  finish_failed path (some root) e x h = absurd (ground (arith, h, e))

  resolve_fresh_failed :
      (walk : Result ResolverError (List String)) (x : ResolverError)
      → (resolve_fresh reading r start walk).0 ≡ err x
      → (resolve_fresh reading r start walk).1 ≡ r
  unfolding resolve_fresh
  resolve_fresh_failed (ok path) x h = finish_failed path (last path) refl x h
  resolve_fresh_failed (err e) x h = refl

  -- A resolution that throws leaves the resolver, memo and bindings, as it was.
  pub resolve_failed :
      (x : ResolverError) → (resolve reading r start).0 ≡ err x → (resolve reading r start).1 ≡ r
  resolve_failed x e = elim (Bool-cases (reading.is_aborted 0)) [
    | inl a ↦ ap (λ t. t.1) (resolve_aborted a)
    | inr a ↦ elim (Option-cases (lookup start r.resolved)) [
      | inl q ↦
          let walks = resolve_walks a q in
          ap (λ t. t.1) walks
          ∙ resolve_fresh_failed (traverse reading traversal_fuel 0 start []) x
              (sym (ap (λ t. t.0) walks) ∙ e)
      | inr (l, q) ↦ ap (λ t. t.1) (resolve_memoized l a q)
    ]
  ]

  resolve_fresh_ok :
      (walk : Result ResolverError (List String)) (l : ResolvedLineage)
      → (resolve_fresh reading r start walk).0 ≡ ok l
      → (path : List String) × (walk ≡ ok path)
  unfolding resolve_fresh
  resolve_fresh_ok (ok path) l h = (path, refl)
  resolve_fresh_ok (err e) l h = absurd (ground (arith, h))

  -- After a resolution that walked the headers, every id on its lineage is memoized with the rest of
  -- the lineage from it and the same root.
  pub resolve_memoizes :
      (l : ResolvedLineage) (pre rest : List String) (x : String)
      → lookup start r.resolved ≡ none
      → (resolve reading r start).0 ≡ ok l
      → l.lineage ≡ pre ++ x ∷ rest
      → lookup x (resolve reading r start).1.resolved
        ≡ some (record { root_session_id = l.root_session_id; lineage = x ∷ rest })
  resolve_memoizes l pre rest x e h s = elim (Bool-cases (reading.is_aborted 0)) [
    | inl a ↦ absurd (ground (arith, h, ap (λ t. t.0) (resolve_aborted a)))
    | inr a ↦
        let walks = resolve_walks a e in
        let (path, q) =
          resolve_fresh_ok (traverse reading traversal_fuel 0 start []) l
            (sym (ap (λ t. t.0) walks) ∙ h) in
        let (root, _, new, done) = resolve_fresh_walked path q in
        let all = walks ∙ done in
        let same : l ≡ record { root_session_id = root; lineage = path } =
          ok-value (sym h ∙ ap (λ t. t.0) all) in
        let cut : path ≡ pre ++ x ∷ rest = sym (ap (λ t. t.lineage) same) ∙ s in
        ap (λ t. lookup x t.1.resolved) all
        ∙ ap (λ p. lookup x (memoize_all root p r.resolved)) cut
        ∙ memoize_all_at x root [] pre rest r.resolved (subst (IsNew []) cut new)
        ∙ ap (λ t. some (record { root_session_id = t; lineage = x ∷ rest }))
            (sym (ap (λ t. t.root_session_id) same))
  ]
