-- ===== src/Resolver/Finality.antt =====
-- root-resolver.ts, bindings over sequences of calls.
use dsh_subagent_admission.Prelude.{
  ◌≡◌, refl, sym, ap, ◌∙◌, String, some, List, [], ◌∷◌, lookup, lookup-insert, arith, eq_iff,
  Result, ok, err,
}
use dsh_subagent_admission.Resolver.{
  Reading, ResolverError, DurableRootResolver, ChildBindingInput, BoundChild, bind_child, finish,
  resolve_fresh, resolve, traverse, traversal_fuel,
}
use dsh_subagent_admission.Resolver.Bindings.{
  claimed, Bound, repeated, added, bind_child_again, bind_child_sound,
}

-- What a caller may do with a resolver.
pub data ResolverCall : Type 0 where
  resolving : Reading → String → ResolverCall
  binding : ChildBindingInput → ResolverCall

abbrev pub bind_state :
    DurableRootResolver → Result ResolverError DurableRootResolver → DurableRootResolver
bind_state r (ok r') = r'
bind_state r (err e) = r

abbrev pub call : DurableRootResolver → ResolverCall → DurableRootResolver
call r (resolving reading start) = (resolve reading r start).1
call r (binding input) = bind_state r (bind_child r input)

abbrev pub calls : DurableRootResolver → List ResolverCall → DurableRootResolver
calls r [] = r
calls r (c ∷ cs) = calls (call r c) cs

finish-bound_children :
    (r : DurableRootResolver) (start : String) (path : List String)
    → (finish r start path).1.bound_children ≡ r.bound_children
unfolding finish
finish-bound_children r start path = ground arith

resolve_fresh-bound_children :
    (reading : Reading) (r : DurableRootResolver) (start : String)
    (walk : Result ResolverError (List String))
    → (resolve_fresh reading r start walk).1.bound_children ≡ r.bound_children
unfolding resolve_fresh
resolve_fresh-bound_children reading r start (ok path) = finish-bound_children r start path
resolve_fresh-bound_children reading r start (err e) = refl

resolve-bound_children :
    (reading : Reading) (r : DurableRootResolver) (start : String)
    → (resolve reading r start).1.bound_children ≡ r.bound_children
unfolding resolve
resolve-bound_children reading r start = ground (
  arith,
  resolve_fresh-bound_children reading r start (traverse reading traversal_fuel 0 start []),
)

Bound-keeps :
    (r : DurableRootResolver) (input : ChildBindingInput) (r' : DurableRootResolver) (k : String)
    (b : BoundChild)
    → Bound r input r'
    → lookup k r.bound_children ≡ some b
    → lookup k r'.bound_children ≡ some b
Bound-keeps r input r' k b (repeated p q e) h = ap (λ t. lookup k t.bound_children) e ∙ h
Bound-keeps r input r' k b (added p q x y e) h =
    ap (λ t. lookup k t.bound_children) e
    ∙ ground (
      arith,
      q,
      h,
      eq_iff input.child_session_id k,
      lookup-insert input.child_session_id k (claimed input) r.bound_children,
    )

pub Bound-claims :
    (r : DurableRootResolver) (input : ChildBindingInput) (r' : DurableRootResolver)
    → Bound r input r'
    → lookup input.child_session_id r'.bound_children ≡ some (claimed input)
Bound-claims r input r' (repeated p q e) =
    ap (λ t. lookup input.child_session_id t.bound_children) e ∙ q
Bound-claims r input r' (added p q x y e) =
    let c = input.child_session_id in
    ap (λ t. lookup c t.bound_children) e
    ∙ ground (arith, eq_iff c c, lookup-insert c c (claimed input) r.bound_children)

call_keeps :
    (r : DurableRootResolver) (c : ResolverCall) (k : String) (b : BoundChild)
    → lookup k r.bound_children ≡ some b
    → lookup k (call r c).bound_children ≡ some b
call_keeps r (resolving reading start) k b h =
    ap (lookup k) (resolve-bound_children reading r start) ∙ h
call_keeps r (binding input) k b h = go (bind_child r input) refl
  where
    go :
        (out : Result ResolverError DurableRootResolver)
        → bind_child r input ≡ out
        → lookup k (bind_state r out).bound_children ≡ some b
    go (ok r') e = Bound-keeps r input r' k b (bind_child_sound r input r' e) h
    go (err x) e = h

calls_keep :
    (r : DurableRootResolver) (cs : List ResolverCall) (k : String) (b : BoundChild)
    → lookup k r.bound_children ≡ some b
    → lookup k (calls r cs).bound_children ≡ some b
calls_keep r [] k b h = h
calls_keep r (c ∷ cs) k b h = calls_keep (call r c) cs k b (call_keeps r c k b h)

-- After a child has been bound, no calls whatever change its binding, and a later binding of it
-- succeeds only with the same root and the same parent.
pub binding_is_final :
    (r : DurableRootResolver) (input : ChildBindingInput) (r' : DurableRootResolver)
    (cs : List ResolverCall) (again : ChildBindingInput) (out : DurableRootResolver)
    → bind_child r input ≡ ok r'
    → again.child_session_id ≡ input.child_session_id
    → bind_child (calls r' cs) again ≡ ok out
    → (claimed again ≡ claimed input)
      × (out ≡ calls r' cs)
      × (lookup input.child_session_id out.bound_children ≡ some (claimed input))
binding_is_final r input r' cs again out e same f =
    let now = Bound-claims r input r' (bind_child_sound r input r' e) in
    let later = calls_keep r' cs input.child_session_id (claimed input) now in
    let (b, kept) =
      bind_child_again (calls r' cs) again (claimed input) out
        (ap (λ k. lookup k (calls r' cs).bound_children) same ∙ later) f in
    (sym b, kept, ap (λ t. lookup input.child_session_id t.bound_children) kept ∙ later)
