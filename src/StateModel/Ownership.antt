-- ===== src/StateModel/Ownership.antt =====
-- state-model.ts, the life of one permit: who owns it, its binding, and its single release.
use dsh_subagent_admission.Prelude.{
  ℕ, ◌+◌, ◌≤◌, ◌≡◌, refl, sym, ap, subst, ◌∙◌, ◌≢◌, ◌⊎◌, inl, inr, String, Bool, Option, none, some,
  List, [], ◌∷◌, lookup, lookup-insert, lookup-erase, weight, weight-le-total, size-total, arith,
  eq_iff, Option-cases,
}
use dsh_subagent_admission.Vocabulary.{AdmissionOperation}
use dsh_subagent_admission.StateModel.{
  AdmissionLifecycle, opened, draining, AdmissionState, AdmissionPermit, BindCommand,
  AdmissionCommand, new_admission, cold_resuming, resident_follow_up, bind, release, unload,
  restart, accepted, acknowledged, permit_name,
}
use dsh_subagent_admission.StateModel.Transitions.{
  new_permit, bound_permit, activated, released, bind_permit, transition_bind, transition_release,
  transition_unload, unload_at, transition_restart, transition_model,
}
use dsh_subagent_admission.StateModel.Invariant.{IsValid}
use dsh_subagent_admission.StateModel.Runs.{
  state_of, run, transition_model-IsValid, new_admission_cases, cold_resume_cases,
}
use dsh_subagent_admission.StateModel.Invariant.Steps.{released-IsValid}
use dsh_subagent_admission.StateModel.Issuing.{transition_model-issues}

-- The same activation, with the same child or with one bound since.
pub record SameOwner (p q : AdmissionPermit) : Type 0 where
  pub same_permit : q.permit_id ≡ p.permit_id
  pub same_root : q.root_id ≡ p.root_id
  pub same_parent : q.parent_id ≡ p.parent_id
  pub same_operation : q.operation ≡ p.operation
  pub same_child : (p.child_id ≡ none) ⊎ (q.child_id ≡ p.child_id)

-- What stands later in a permit's place: nothing, or the same activation.
abbrev pub Evolves : Option AdmissionPermit → Option AdmissionPermit → Type 0
Evolves o none = Unit
Evolves none (some q) = ⊥
Evolves (some p) (some q) = SameOwner p q

Evolves-refl : (o : Option AdmissionPermit) → Evolves o o
Evolves-refl none = tt
Evolves-refl (some p) = record {
  same_permit = refl;
  same_root = refl;
  same_parent = refl;
  same_operation = refl;
  same_child = inr refl;
}

Evolves-trans : (o u w : Option AdmissionPermit) → Evolves o u → Evolves u w → Evolves o w
Evolves-trans o u none h k = tt
Evolves-trans o none (some r) h k = absurd k
Evolves-trans none (some q) (some r) h k = absurd h
Evolves-trans (some p) (some q) (some r) h k = ground arith

-- The id is none that later admissions will use.
abbrev Issued : AdmissionState → String → Type 0
Issued s id = (n : ℕ) → s.permit_counter ≤ n → permit_name n ≢ id

live-Issued :
    (s : AdmissionState) (id : String) (p : AdmissionPermit)
    → IsValid s
    → lookup id s.permits ≡ some p
    → Issued s id
live-Issued s id p v e n h c = cc (v.fresh n h)

bind_permit-Evolves :
    (s : AdmissionState) (id : String) (p : AdmissionPermit) (o : Option String) (c : BindCommand)
    → p.child_id ≡ o
    → lookup p.permit_id s.permits ≡ some p
    → Evolves (lookup id s.permits) (lookup id (state_of (bind_permit s p o c)).permits)
unfolding bind_permit
bind_permit-Evolves s id p none c e l = ground (
  arith,
  lookup-insert p.permit_id id (bound_permit p c.child_id) s.permits,
  eq_iff p.permit_id id,
  Evolves-refl (lookup id s.permits),
  Evolves-refl (some p),
)
bind_permit-Evolves s id p (some child) c e l = ground (arith, Evolves-refl (lookup id s.permits))

unload_at-Evolves :
    (l : AdmissionLifecycle) (s : AdmissionState) (id : String)
    → Evolves (lookup id s.permits) (lookup id (state_of (unload_at l s)).permits)
unfolding unload_at transition_unload
unload_at-Evolves opened s id = Evolves-refl (lookup id s.permits)
unload_at-Evolves draining s id = Evolves-refl (lookup id s.permits)

restart-Evolves :
    (s : AdmissionState) (id : String)
    → Evolves (lookup id s.permits) (lookup id (state_of (transition_restart s)).permits)
unfolding transition_restart lookup
restart-Evolves s id = go (lookup id s.permits)
  where
    go : (o : Option AdmissionPermit) → Evolves o none
    go none = tt
    go (some p) = tt

module _ (s : AdmissionState) (id : String) (v : IsValid s) (u : Issued s id) where
  -- An entry at `id` that is the same one.
  same-Evolves :
      (o : Option AdmissionPermit) → o ≡ lookup id s.permits → Evolves (lookup id s.permits) o
  same-Evolves o e = rw e (Evolves-refl (lookup id s.permits))

  lookup-activated :
      (operation : AdmissionOperation) (root parent : String) (cumulative : Bool)
      → lookup id (activated s operation root parent cumulative).permits ≡ lookup id s.permits
  unfolding activated
  lookup-activated operation root parent cumulative = ground (
    arith,
    lookup-insert (permit_name s.permit_counter) id (new_permit s operation root parent) s.permits,
    eq_iff (permit_name s.permit_counter) id,
    u s.permit_counter (omega arith),
  )

  released-Evolves :
      (p : AdmissionPermit) → Evolves (lookup id s.permits) (lookup id (released s p).permits)
  unfolding released
  released-Evolves p =
      ground (arith, lookup-erase p.permit_id id s.permits, Evolves-refl (lookup id s.permits))

  transition_model-Evolves :
      (c : AdmissionCommand)
      → Evolves (lookup id s.permits) (lookup id (state_of (transition_model s c)).permits)
  unfolding transition_model transition_unload transition_bind transition_release
  transition_model-Evolves (new_admission c) = elim (new_admission_cases s c) [
    | inl e ↦ same-Evolves _ (ap (λ (t : AdmissionState). lookup id t.permits) e)
    | inr (_, _, e) ↦
        same-Evolves _
          (ap (λ (t : AdmissionState). lookup id t.permits) e ∙ lookup-activated _ _ _ _)
  ]
  transition_model-Evolves (cold_resuming c) = elim (cold_resume_cases s c) [
    | inl e ↦ same-Evolves _ (ap (λ (t : AdmissionState). lookup id t.permits) e)
    | inr (_, _, e) ↦
        same-Evolves _
          (ap (λ (t : AdmissionState). lookup id t.permits) e ∙ lookup-activated _ _ _ _)
  ]
  transition_model-Evolves resident_follow_up = Evolves-refl (lookup id s.permits)
  transition_model-Evolves (bind c) = elim (Option-cases (lookup c.permit_id s.permits)) [
    | inl e ↦ rw (e, transition_bind) (Evolves-refl (lookup id s.permits))
    | inr (p, e) ↦
        rw (e, transition_bind)
          (bind_permit-Evolves s id p p.child_id c refl
            (subst (λ k. lookup k s.permits ≡ some p) (sym (v.keyed c.permit_id p e)) e))
  ]
  transition_model-Evolves (release k) = elim (Option-cases (lookup k s.permits)) [
    | inl e ↦ rw (e, transition_release) (Evolves-refl (lookup id s.permits))
    | inr (p, e) ↦ rw (e, transition_release) (released-Evolves p)
  ]
  transition_model-Evolves unload = unload_at-Evolves s.lifecycle s id
  transition_model-Evolves restart = restart-Evolves s id

counter_grows :
    (s : AdmissionState) (c : AdmissionCommand)
    → s.permit_counter ≤ (state_of (transition_model s c)).permit_counter
counter_grows s c = ground (arith, transition_model-issues s c)

run-Evolves :
    (s : AdmissionState) (id : String) (cs : List AdmissionCommand)
    → IsValid s
    → Issued s id
    → Evolves (lookup id s.permits) (lookup id (run s cs).permits)
unfolding run
run-Evolves s id [] v u = Evolves-refl (lookup id s.permits)
run-Evolves s id (c ∷ cs) v u =
    Evolves-trans (lookup id s.permits) _ _ (transition_model-Evolves s id v u c) (
      run-Evolves (state_of (transition_model s c)) id cs (transition_model-IsValid s c v)
        (λ n h. u n (omega (arith, counter_grows s c))))

-- Whatever happens to a live permit, its id afterwards names nothing or the same activation: the
-- owner, the parent and the operation never change, and a bound child stays bound.
pub permit_keeps_owner :
    (s : AdmissionState) (id : String) (p : AdmissionPermit) (cs : List AdmissionCommand)
    → IsValid s
    → lookup id s.permits ≡ some p
    → Evolves (some p) (lookup id (run s cs).permits)
permit_keeps_owner s id p cs v e =
    subst (λ o. Evolves o (lookup id (run s cs).permits)) e
      (run-Evolves s id cs v (live-Issued s id p v e))

Evolves-none : (o : Option AdmissionPermit) → Evolves none o → o ≡ none
Evolves-none none h = refl
Evolves-none (some q) h = absurd h

-- The accepted branch of a release.
release_live :
    (s : AdmissionState) (id : String) (p : AdmissionPermit)
    → lookup id s.permits ≡ some p
    → transition_model s (release id) ≡ accepted (released s p) (some p)
unfolding transition_model transition_release
release_live s id p e = rw (e, transition_release) refl

release_absent :
    (s : AdmissionState) (id : String)
    → lookup id s.permits ≡ none
    → transition_model s (release id) ≡ acknowledged s
unfolding transition_model transition_release
release_absent s id e = rw (e, transition_release) refl

module _ (s : AdmissionState) (id : String) (p : AdmissionPermit) (v : IsValid s)
    (e : lookup id s.permits ≡ some p) where
  released_frees :
      ((released s p).global_active + 1 ≡ s.global_active)
      × (lookup id (released s p).permits ≡ none)
      × ((released s p).permit_counter ≡ s.permit_counter)
  unfolding released
  released_frees = (
    omega (
      arith,
      weight-le-total (λ (_ : AdmissionPermit). 1) id s.permits,
      size-total s.permits,
      v.active_size,
      ap (weight (λ (_ : AdmissionPermit). 1)) e,
    ),
    ground (arith, lookup-erase p.permit_id id s.permits, v.keyed id p e, eq_iff p.permit_id id),
    refl,
  )

  stays_released : (cs : List AdmissionCommand) → lookup id (run (released s p) cs).permits ≡ none
  stays_released cs =
      let (_, gone, same) = released_frees in
      Evolves-none _ (
        subst (λ o. Evolves o (lookup id (run (released s p) cs).permits)) gone
          (run-Evolves (released s p) id cs (released-IsValid s v id p e)
            (λ n h. live-Issued s id p v e n (omega (arith, same)))))

-- A live permit is released once: the release frees exactly its place, and however the history goes
-- on, a second release is acknowledged and changes nothing.
pub release_once :
    (s : AdmissionState) (id : String) (p : AdmissionPermit) (cs : List AdmissionCommand)
    → IsValid s
    → lookup id s.permits ≡ some p
    → let first = state_of (transition_model s (release id)) in
      let t = run first cs in
      (first.global_active + 1 ≡ s.global_active)
      × (transition_model t (release id) ≡ acknowledged t)
release_once s id p cs v e =
    rw (release_live s id p e)
      ((released_frees s id p v e).0, release_absent _ id (stays_released s id p v e cs))
