-- ===== src/StateModel/Invariant/Steps.antt =====
-- state-model.ts: `activate`, the accepted branch of `transitionRelease` and the accepted branch of
-- `transitionBind` keep the invariant.
use dsh_subagent_admission.Prelude.{
  size-insert, size-erase, size-replace, ◌<◌, ◌≡◌, String, Bool, none, some, lookup, insert,
  lookup-insert, lookup-erase, total-insert, total-erase, weight-le-total, insert-IsMap,
  erase-IsMap, arith, eq_iff,
}
use dsh_subagent_admission.Vocabulary.{AdmissionOperation}
use dsh_subagent_admission.StateModel.{AdmissionState, AdmissionPermit, count_at, permit_name}
use dsh_subagent_admission.StateModel.Transitions.{new_permit, bound_permit, activated, released}
use dsh_subagent_admission.StateModel.Counts.{
  permit_name-injective, count_at-increment_count, increment_count-IsMap, total-increment_count,
  count_at-decrement_count, decrement_count-IsMap, total-decrement_count, increment_count_positive,
  decrement_count_positive,
}
use dsh_subagent_admission.StateModel.Invariant.{IsValid, of_root}

module _ (s : AdmissionState) (v : IsValid s) where
  pub activated-IsValid :
      (operation : AdmissionOperation) (root parent : String) (cumulative : Bool)
      → count_at root s.root_active < s.limits.per_root_active
      → s.global_active < s.limits.global_active
      → IsValid (activated s operation root parent cumulative)
  unfolding activated
  activated-IsValid operation root parent cumulative room_in_root room = record {
    permits_map = insert-IsMap name permit s.permits v.permits_map;
    keyed =
        λ k p e. ground (arith, lookup-insert name k permit s.permits, eq_iff name k, v.keyed k p);
    fresh = λ n h. ground (
      arith,
      lookup-insert name (permit_name n) permit s.permits,
      eq_iff name (permit_name n),
      permit_name-injective s.permit_counter n,
      v.fresh n (omega arith),
    );
    active_size = omega (arith, size-insert name permit s.permits unused, v.active_size);
    root_map = increment_count-IsMap s.root_active root v.root_map;
    root_sum = omega (arith, total-increment_count s.root_active root, v.root_sum);
    root_count = λ r. ground (
      arith,
      total-insert (of_root r) name permit s.permits,
      unused,
      count_at-increment_count s.root_active root r,
      v.root_count r,
    );
    root_positive = λ r. increment_count_positive s.root_active root r (v.root_positive r);
    global_bound = omega arith;
    root_bound = λ r.
        ground
          (arith, count_at-increment_count s.root_active root r, v.root_bound r, eq_iff root r);
  }
    where
      name : String
      name = permit_name s.permit_counter

      permit : AdmissionPermit
      permit = new_permit s operation root parent

      unused : lookup name s.permits ≡ none
      unused = v.fresh s.permit_counter (omega arith)

  module _ (id : String) (p : AdmissionPermit) (found : lookup id s.permits ≡ some p) where
    live_root : 0 < count_at p.root_id s.root_active
    live_root = ground (
      arith,
      weight-le-total (of_root p.root_id) id s.permits,
      found,
      v.root_count p.root_id,
      eq_iff p.root_id p.root_id,
    )

    pub released-IsValid : IsValid (released s p)
    unfolding released
    released-IsValid = record {
      permits_map = erase-IsMap p.permit_id s.permits v.permits_map;
      keyed = λ k q e. ground (arith, lookup-erase p.permit_id k s.permits, v.keyed k q);
      fresh =
          λ n h. ground (arith, lookup-erase p.permit_id (permit_name n) s.permits, v.fresh n h);
      active_size =
          omega (arith, size-erase p.permit_id p s.permits v.permits_map own, v.active_size);
      root_map = decrement_count-IsMap s.root_active p.root_id v.root_map;
      root_sum =
          omega
            (arith, total-decrement_count s.root_active p.root_id v.root_map live_root, v.root_sum);
      root_count = λ r. ground (
        arith,
        total-erase (of_root r) p.permit_id s.permits v.permits_map,
        own,
        count_at-decrement_count s.root_active p.root_id r,
        v.root_count r,
      );
      root_positive = λ r. decrement_count_positive s.root_active p.root_id r (v.root_positive r);
      global_bound = omega (arith, v.global_bound);
      root_bound =
          λ r. ground (arith, count_at-decrement_count s.root_active p.root_id r, v.root_bound r);
    }
      where
        own : lookup p.permit_id s.permits ≡ some p
        own = ground (arith, v.keyed id p found)

    pub bound-IsValid :
        (child : String)
        → IsValid (record s { permits = insert p.permit_id (bound_permit p child) s.permits })
    bound-IsValid child = record {
      permits_map = insert-IsMap p.permit_id _ s.permits v.permits_map;
      keyed = λ k q e. ground (
        arith,
        lookup-insert p.permit_id k (bound_permit p child) s.permits,
        eq_iff p.permit_id k,
        v.keyed k q,
      );
      fresh = λ n h. ground (
        arith,
        lookup-insert p.permit_id (permit_name n) (bound_permit p child) s.permits,
        eq_iff p.permit_id (permit_name n),
        v.fresh n h,
        own,
      );
      active_size =
          omega
            (arith, size-replace p.permit_id p (bound_permit p child) s.permits own, v.active_size);
      root_map = v.root_map;
      root_sum = v.root_sum;
      root_count = λ r. ground (
        arith,
        total-insert (of_root r) p.permit_id (bound_permit p child) s.permits,
        own,
        v.root_count r,
      );
      root_positive = v.root_positive;
      global_bound = v.global_bound;
      root_bound = v.root_bound;
    }
      where
        own : lookup p.permit_id s.permits ≡ some p
        own = ground (arith, v.keyed id p found)
