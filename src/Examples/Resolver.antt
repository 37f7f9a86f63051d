-- ===== src/Examples/Resolver.antt =====
-- root-resolver.ts at concrete inputs.
use dsh_subagent_admission.Prelude.{
  ◌≡◌, refl, String, none, some, false, [], ◌∷◌, lookup, arith, insert, ok, err, if◌then◌else◌,
  ◌==◌,
}
use dsh_subagent_admission.Resolver.{
  Inspection, missing, header, Reading, ResolvedLineage, ChildBindingInput, unavailable,
  DurableRootResolver, out_of_fuel, is_acceptable, visit, traverse, traversal_fuel, memoize_all,
  finish, resolve_fresh, resolve, bind_fresh, bind_child,
}
use dsh_subagent_admission.Resolver.Traversal.{Chain, root, child, traverse_decides}
use dsh_subagent_admission.Resolver.Memo.{resolve_failed, resolve_memoizes}
use dsh_subagent_admission.Resolver.Suffixes.{IsValidMemo, resolve-IsValidMemo}
use dsh_subagent_admission.Resolver.Bindings.{claimed, bound, added, bind_child_decides}
use dsh_subagent_admission.Resolver.Finality.{resolving, binding, calls, binding_is_final}
use dsh_subagent_admission.Resolver.Traversal.{traverse_total}

-- The session b is a child of the root a.
abbrev headers : String → Inspection
headers id =
    if id == "a" then header "a" none else if id == "b" then header "b" (some "a") else missing

abbrev two_sessions : Reading
two_sessions = record { inspect = λ n. headers; is_aborted = λ n. false }

abbrev empty_resolver : DurableRootResolver
empty_resolver = record { resolved = []; bound_children = [] }

two_sessions_chain : Chain two_sessions 0 ("b" ∷ "a" ∷ [])
two_sessions_chain = child refl (root refl)

traverse_total_example : ¬ (traverse two_sessions traversal_fuel 0 "c" [] ≡ err out_of_fuel)
traverse_total_example = traverse_total two_sessions "c"

traverse_decides_example : traverse two_sessions traversal_fuel 0 "b" [] ≡ ok ("b" ∷ "a" ∷ [])
traverse_decides_example =
    (traverse_decides two_sessions "b" ("a" ∷ []) (λ k. refl)).1
      (two_sessions_chain, (refl, (refl, tt)), omega arith)

abbrev lineage_of_b : ResolvedLineage
lineage_of_b = record { root_session_id = "a"; lineage = "b" ∷ "a" ∷ [] }

resolve_failed_example : (resolve two_sessions empty_resolver "c").1 ≡ empty_resolver
unfolding resolve resolve_fresh traverse visit is_acceptable lookup
resolve_failed_example = resolve_failed two_sessions empty_resolver "c" (unavailable "c") refl

resolve_memoizes_example :
    lookup "a" (resolve two_sessions empty_resolver "b").1.resolved
    ≡ some (record { root_session_id = "a"; lineage = "a" ∷ [] })
unfolding resolve resolve_fresh traverse visit is_acceptable lookup finish
resolve_memoizes_example =
    resolve_memoizes two_sessions empty_resolver "b" lineage_of_b ("b" ∷ []) [] "a" refl refl refl

empty_IsValidMemo : IsValidMemo []
unfolding lookup
empty_IsValidMemo id l e = cc

resolve-IsValidMemo_example : IsValidMemo (resolve two_sessions empty_resolver "b").1.resolved
resolve-IsValidMemo_example = resolve-IsValidMemo two_sessions empty_resolver "b" empty_IsValidMemo

-- The caller binds the child c to the parent b under the root a.
abbrev claim : ChildBindingInput
claim = record {
  child_session_id = "c";
  expected_parent_session_id = "b";
  expected_root_session_id = "a";
  local_parent_session_id = some "b";
}

bind_child_decides_example : bind_child empty_resolver claim ≡ ok (bound empty_resolver claim)
unfolding lookup
bind_child_decides_example =
    (bind_child_decides empty_resolver claim (bound empty_resolver claim)).1
      (added refl refl tt tt refl)

binding_is_final_example :
    let r = bound empty_resolver claim in
    let later = calls r (resolving two_sessions "b" ∷ binding claim ∷ []) in
    (claimed claim ≡ claimed claim)
    × (later ≡ later)
    × (lookup "c" later.bound_children ≡ some (claimed claim))
unfolding bind_child bind_fresh lookup insert resolve resolve_fresh traverse visit is_acceptable
    finish memoize_all
binding_is_final_example =
    binding_is_final empty_resolver claim (bound empty_resolver claim)
      (resolving two_sessions "b" ∷ binding claim ∷ []) claim _ refl refl refl
