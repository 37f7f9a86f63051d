-- ===== src/Examples/Leases.antt =====
-- leases.ts at concrete inputs.
use dsh_subagent_admission.Prelude.{
  eq_iff, ◌+◌, ◌≡◌, refl, String, none, some, List, [], ◌∷◌, lookup, arith, insert, natural, ok,
  err, inl,
}
use dsh_subagent_admission.Vocabulary.{AdmissionLimits, root_active_limit, new_continuable}
use dsh_subagent_admission.StateModel.{permit_name, increment_count}
use dsh_subagent_admission.Leases.{
  ActiveLease, ActiveLeaseInsert, ActiveLeaseRegistry, binding_conflict, duplicate, new_registry,
  active_capacity, global_active, assert_root_then_global_capacity, is_valid_insert, new_lease,
  inserted, insert_lease,
}
use dsh_subagent_admission.Leases.Operations.{inspect_binding, set_child, bind_lease}
use dsh_subagent_admission.Leases.Invariant.{IsValid}
use dsh_subagent_admission.Leases.Contract.{
  capacity_decides, insert_lease_decides, child_has_one_lease, bind_lease_once, remove_lease_frees,
}
use dsh_subagent_admission.Leases.Calls.{
  Call, inserts, binds, removes, waits, call, calls, calls-IsValid,
}

abbrev child_input : ActiveLeaseInsert
child_input = record {
  request_id = "q";
  operation = new_continuable;
  root_session_id = "r";
  parent_session_id = "p";
  expected_child_session_id = some "c";
  initial_child_session_id = none;
  admitted_at = natural 7;
}

-- One lease, which expects the child c.
abbrev one_lease : List Call
one_lease = inserts child_input ∷ []

abbrev first_lease : ActiveLease
unfolding new_lease permit_name new_registry
first_lease = new_lease new_registry child_input

busy_IsValid : IsValid (calls new_registry one_lease)
busy_IsValid = calls-IsValid one_lease

calls-IsValid_example : IsValid (
    calls new_registry
      (inserts child_input ∷ binds "permit-0" "c" ∷ waits 1 ∷ removes "permit-0" ∷ []))
calls-IsValid_example =
    calls-IsValid (inserts child_input ∷ binds "permit-0" "c" ∷ waits 1 ∷ removes "permit-0" ∷ [])

busy_lookup :
    lookup "permit-0" (calls new_registry one_lease).leases
    ≡ some (new_lease new_registry child_input)
unfolding calls call insert_lease is_valid_insert inserted new_lease new_registry permit_name lookup
    insert increment_count
busy_lookup = refl

abbrev tight : AdmissionLimits
tight = record {
  global_active = 4;
  per_root_active = 1;
  per_root_admitted_total = 4;
  per_parent_children = 4;
}

capacity_decides_example :
    assert_root_then_global_capacity (calls new_registry one_lease) "r" tight
    ≡ err (active_capacity root_active_limit 1 1)
unfolding calls call insert_lease is_valid_insert inserted new_lease new_registry permit_name lookup
    insert increment_count
capacity_decides_example =
    (capacity_decides (calls new_registry one_lease) "r" tight).1.1 (omega arith)

insert_lease_decides_example :
    insert_lease (calls new_registry one_lease) child_input ≡ err binding_conflict
unfolding calls call insert_lease is_valid_insert inserted new_lease new_registry permit_name lookup
    insert increment_count
insert_lease_decides_example =
    insert_lease_decides (calls new_registry one_lease) child_input busy_IsValid

child_has_one_lease_example : ◌≡◌ {A = String} "permit-0" "permit-0"
unfolding new_lease
child_has_one_lease_example =
    child_has_one_lease (calls new_registry one_lease) "permit-0" "permit-0"
      (new_lease new_registry child_input) (new_lease new_registry child_input) "c" busy_IsValid
      busy_lookup busy_lookup (inl refl) (inl refl)

bind_lease_once_example :
    let h = set_child (calls new_registry one_lease) "permit-0" "c" in
    bind_lease h "permit-0" "c" ≡ ok (duplicate, h)
unfolding calls call insert_lease is_valid_insert inserted new_lease new_registry permit_name lookup
    insert increment_count bind_lease inspect_binding
bind_lease_once_example =
    (bind_lease_once (calls new_registry one_lease) _ "permit-0" "c" "d" busy_IsValid refl
      (λ e. ground (arith, e, eq_iff "d" "c"))).0

remove_lease_frees_example :
    (h : ActiveLeaseRegistry) × (global_active h + 1 ≡ global_active (calls new_registry one_lease))
remove_lease_frees_example =
    let r =
      remove_lease_frees (calls new_registry one_lease) "permit-0"
        (new_lease new_registry child_input) busy_IsValid busy_lookup in
    (r.0, r.2)
