-- ===== src/StateModel/Issuing.antt =====
-- state-model.ts, permit ids: what a history issues.
use Prim.Native.Nat.{zero, suc}
use mathlib.Core.List.{Mem, Nodup, Nodup-cons, Nodup-nil, mem-cons, not-mem-nil}
use mathlib.Core.Logic.Or
use native.Mathlib.Bridge.{le_prop}
use dsh_subagent_admission.Prelude.{
  ℕ, ◌≤◌, ◌≡◌, refl, sym, subst, String, Option, none, some, List, [], ◌∷◌, ◌++◌, arith, ◌⊎◌, inl,
  inr,
}
use dsh_subagent_admission.StateModel.{
  AdmissionState, AdmissionPermit, AdmissionCommand, new_admission, cold_resuming,
  resident_follow_up, bind, release, unload, restart, AdmissionTransition, accepted, permit_name,
  BindCommand,
}
use dsh_subagent_admission.StateModel.Transitions.{
  activated, released, transition_new_admission, transition_cold_resume, bind_permit,
  transition_bind, transition_release, transition_unload, transition_restart, transition_model,
}
use dsh_subagent_admission.StateModel.Counts.{permit_name-injective}
use dsh_subagent_admission.StateModel.Runs.{state_of}

-- The id of the permit that an accepted activation creates.
abbrev pub issued_by : AdmissionCommand → AdmissionTransition → List String
issued_by (new_admission c) (accepted t (some p)) = p.permit_id ∷ []
issued_by (cold_resuming c) (accepted t (some p)) = p.permit_id ∷ []
issued_by _ _ = []

-- All the ids that a history issues, oldest first.
unfoldable pub issued : AdmissionState → List AdmissionCommand → List String
issued s [] = []
issued s (c ∷ cs) =
    issued_by c (transition_model s c) ++ issued (state_of (transition_model s c)) cs

names_from : ℕ → ℕ → List String
names_from n zero = []
names_from n (suc k) = permit_name n ∷ names_from (suc n) k

mem-names_from : (i n k : ℕ) → Mem (permit_name i) (names_from n k) → n ≤ i
unfolding names_from
mem-names_from i n zero m = absurd (not-mem-nil m)
mem-names_from i n (suc k) m =
    Or.elim le_prop (mem-cons.0 m) (λ e. omega (arith, permit_name-injective i n e))
      (λ h. omega (arith, mem-names_from i (suc n) k h))

names_from-Nodup : (n k : ℕ) → Nodup (names_from n k)
unfolding names_from
names_from-Nodup n zero = Nodup-nil
names_from-Nodup n (suc k) =
    Nodup-cons.1 ((λ m. omega (arith, mem-names_from n (suc n) k m)), names_from-Nodup (suc n) k)

bind_permit-counter :
    (s : AdmissionState) (p : AdmissionPermit) (o : Option String) (c : BindCommand)
    → (state_of (bind_permit s p o c)).permit_counter ≡ s.permit_counter
unfolding bind_permit
bind_permit-counter s p none c = refl
bind_permit-counter s p (some child) c = ground arith

-- A command issues nothing and keeps the counter, or issues the counter's name and raises it.
pub transition_model-issues :
    (s : AdmissionState) (c : AdmissionCommand)
    → ((issued_by c (transition_model s c) ≡ [])
        × ((state_of (transition_model s c)).permit_counter ≡ s.permit_counter))
      ⊎ ((issued_by c (transition_model s c) ≡ permit_name s.permit_counter ∷ [])
          × ((state_of (transition_model s c)).permit_counter ≡ suc s.permit_counter))
unfolding transition_model transition_new_admission transition_cold_resume transition_bind
    transition_release transition_unload transition_restart activated released
transition_model-issues s (new_admission c) = ground arith
transition_model-issues s (cold_resuming c) = ground arith
transition_model-issues s resident_follow_up = ground arith
transition_model-issues s (bind c) =
    inl (refl, ground (arith, λ (p : AdmissionPermit). bind_permit-counter s p p.child_id c))
transition_model-issues s (release id) = ground arith
transition_model-issues s unload = ground arith
transition_model-issues s restart = ground arith

issued-names_from :
    (s : AdmissionState) (cs : List AdmissionCommand)
    → (k : ℕ) × (issued s cs ≡ names_from s.permit_counter k)
unfolding issued names_from
issued-names_from s [] = (0, refl)
issued-names_from s (c ∷ cs) =
    let (k, e) = issued-names_from (state_of (transition_model s c)) cs in
    elim (transition_model-issues s c) [
      | inl (h, n) ↦ (k, rw (h, e, n) refl)
      | inr (h, n) ↦ (suc k, rw (h, e, n) refl)
    ]

-- No history issues the same permit id twice, not even across releases and restarts.
pub issued-Nodup : (s : AdmissionState) (cs : List AdmissionCommand) → Nodup (issued s cs)
issued-Nodup s cs =
    let (k, e) = issued-names_from s cs in subst Nodup (sym e) (names_from-Nodup s.permit_counter k)
