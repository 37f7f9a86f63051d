-- ===== src/Resolver/Bindings.antt =====
-- root-resolver.ts, `bindChild`: when it succeeds.
use dsh_subagent_admission.Prelude.{
  ◌≡◌, refl, sym, ap, ◌∙◌, ◌↔◌, inl, inr, String, Option, none, some, false, lookup, insert, arith,
  eq_iff, Result, ok, Option-cases,
}
use dsh_subagent_admission.Resolver.{
  ResolvedLineage, ResolverError, DurableRootResolver, ChildBindingInput, BoundChild,
  has_other_root, has_other_parent, bind_fresh, bind_child,
}

-- The claim of a binding.
abbrev pub claimed : ChildBindingInput → BoundChild
claimed input = record {
  root_session_id = input.expected_root_session_id;
  parent_session_id = input.expected_parent_session_id;
}

-- A resolved session, if it is one, has this root.
abbrev pub Agrees : Option ResolvedLineage → String → Type 0
Agrees none root = Unit {0}
Agrees (some l) root = l.root_session_id ≡ root

-- A parent, if it is given, is this one.
abbrev pub IsParent : Option String → String → Type 0
IsParent none parent = Unit {0}
IsParent (some p) parent = p ≡ parent

has_other_root-false :
    (o : Option ResolvedLineage) (root : String) → Agrees o root → has_other_root o root ≡ false
has_other_root-false none root h = refl
has_other_root-false (some l) root h = ground (arith, h, eq_iff l.root_session_id root)

Agrees-intro :
    (o : Option ResolvedLineage) (root : String) → has_other_root o root ≡ false → Agrees o root
Agrees-intro none root h = tt
Agrees-intro (some l) root h = ground (arith, h, eq_iff l.root_session_id root)

has_other_parent-false :
    (o : Option String) (parent : String) → IsParent o parent → has_other_parent o parent ≡ false
has_other_parent-false none parent h = refl
has_other_parent-false (some p) parent h = ground (arith, h, eq_iff p parent)

IsParent-intro :
    (o : Option String) (parent : String) → has_other_parent o parent ≡ false → IsParent o parent
IsParent-intro none parent h = tt
IsParent-intro (some p) parent h = ground (arith, h, eq_iff p parent)

ok-resolver :
    {a b : DurableRootResolver}
    → ◌≡◌ {A = Result ResolverError DurableRootResolver} (ok a) (ok b)
    → a ≡ b
ok-resolver e = cc

module _ (r : DurableRootResolver) (input : ChildBindingInput) where
  abbrev pub child : String
  child = input.child_session_id

  abbrev pub bound : DurableRootResolver
  bound = record r { bound_children = insert child (claimed input) r.bound_children }

  bind_fresh-ok :
      Agrees (lookup child r.resolved) input.expected_root_session_id
      → Agrees (lookup input.expected_parent_session_id r.resolved) input.expected_root_session_id
      → bind_fresh r input ≡ ok bound
  unfolding bind_fresh
  bind_fresh-ok a b = rw (has_other_root-false _ _ a, has_other_root-false _ _ b, bind_fresh) refl

  bind_fresh-Agrees :
      (r' : DurableRootResolver)
      → bind_fresh r input ≡ ok r'
      → Agrees (lookup child r.resolved) input.expected_root_session_id
        × Agrees (lookup input.expected_parent_session_id r.resolved) input.expected_root_session_id
  unfolding bind_fresh
  bind_fresh-Agrees r' e =
      (Agrees-intro _ _ (ground (arith, e)), Agrees-intro _ _ (ground (arith, e)))

  -- The ways a binding succeeds.
  pub data Bound (r' : DurableRootResolver) : Type 0 where
    repeated :
        IsParent input.local_parent_session_id input.expected_parent_session_id
        → lookup child r.bound_children ≡ some (claimed input)
        → r' ≡ r
        → Bound r'
    added :
        IsParent input.local_parent_session_id input.expected_parent_session_id
        → lookup child r.bound_children ≡ none
        → Agrees (lookup child r.resolved) input.expected_root_session_id
        → Agrees (lookup input.expected_parent_session_id r.resolved) input.expected_root_session_id
        → r' ≡ bound
        → Bound r'

  bind_child_complete : (r' : DurableRootResolver) → Bound r' → bind_child r input ≡ ok r'
  unfolding bind_child
  bind_child_complete r' (repeated p b e) =
      rw (has_other_parent-false _ _ p, b, bind_child)
        (ground (
          arith,
          e,
          eq_iff input.expected_root_session_id input.expected_root_session_id,
          eq_iff input.expected_parent_session_id input.expected_parent_session_id,
        ))
  bind_child_complete r' (added p b x y e) =
      rw (has_other_parent-false _ _ p, b, bind_child) (bind_fresh-ok x y ∙ ap ok (sym e))

  pub bind_child_again :
      (b : BoundChild) (r' : DurableRootResolver)
      → lookup child r.bound_children ≡ some b
      → bind_child r input ≡ ok r'
      → (b ≡ claimed input) × (r' ≡ r)
  unfolding bind_child
  bind_child_again b r' q e =
      let roots : b.root_session_id ≡ input.expected_root_session_id =
        ground (arith, e, q, eq_iff b.root_session_id input.expected_root_session_id) in
      let parents : b.parent_session_id ≡ input.expected_parent_session_id =
        ground (arith, e, q, eq_iff b.parent_session_id input.expected_parent_session_id) in
      (
        (λ i. record { root_session_id = roots i; parent_session_id = parents i }),
        ok-resolver (ground (arith, e, q)),
      )

  bind_child_first :
      (r' : DurableRootResolver)
      → lookup child r.bound_children ≡ none
      → bind_child r input ≡ ok r'
      → bind_fresh r input ≡ ok r'
  unfolding bind_child
  bind_child_first r' q e = ground (arith, e, q)

  bind_child-IsParent :
      (r' : DurableRootResolver)
      → bind_child r input ≡ ok r'
      → IsParent input.local_parent_session_id input.expected_parent_session_id
  unfolding bind_child
  bind_child-IsParent r' e = IsParent-intro _ _ (ground (arith, e))

  pub bind_child_sound : (r' : DurableRootResolver) → bind_child r input ≡ ok r' → Bound r'
  bind_child_sound r' e =
      let p = bind_child-IsParent r' e in
      elim (Option-cases (lookup child r.bound_children)) [
        | inl q ↦
            let f = bind_child_first r' q e in
            let (x, y) = bind_fresh-Agrees r' f in
            added p q x y (ok-resolver (sym f ∙ bind_fresh-ok x y))
        | inr (b, q) ↦
            let (same, kept) = bind_child_again b r' q e in repeated p (q ∙ ap some same) kept
      ]

  -- A child is bound exactly when the caller's own parent, if it is given, is the expected one, and
  -- either the child has that binding already, which changes nothing, or it has none and no
  -- resolved root of the child or of the parent differs from the expected one: then the binding is
  -- added, and nothing else changes.
  pub bind_child_decides : (r' : DurableRootResolver) → (bind_child r input ≡ ok r') ↔ Bound r'
  bind_child_decides r' = (bind_child_sound r', bind_child_complete r')
