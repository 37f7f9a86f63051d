-- ===== src/Service/Start/Preflight.antt =====
-- service.ts, what is asked of the host and of the installed build before a start takes anything.
use dsh_subagent_admission.Prelude.{
  ◌≡◌, ◌≢◌, ◌∙◌, arith, natural, ◌↔◌, refl, sym, Option, none, some, Bool, true, false, not,
  if◌then◌else◌,
}
use dsh_subagent_admission.Compatibility.{
  StrictCompatibilityTarget, CompatibilityBaseline, CompatibilityRuntime,
  CompatibilitySelectionInput, CompatibilitySelection, unavailable_for, is_protocol_one,
  exact_target, select_for_target, select_strict, select_admission_mode,
}
use dsh_subagent_admission.Compatibility.Targets.{IsInstalled}
use dsh_subagent_admission.Compatibility.Selection.{Member, enforcement_decides}
use dsh_subagent_admission.Service.Start.{
  HostDependencies, preflight_input, preflight, is_strict, has_all,
}

-- The mode is strict where the selection enforces.
abbrev IsCoherent : CompatibilitySelection → Type 0
IsCoherent s = is_strict s.mode ≡ s.is_enforced

if-IsCoherent :
    (b : Bool) (x y : CompatibilitySelection)
    → IsCoherent x
    → IsCoherent y
    → IsCoherent (if b then x else y)
if-IsCoherent true x y p q = p
if-IsCoherent false x y p q = q

select_for_target-IsCoherent :
    (input : CompatibilitySelectionInput) (t : StrictCompatibilityTarget)
    → IsCoherent (select_for_target input t)
unfolding select_for_target
select_for_target-IsCoherent input t = if-IsCoherent (not input.has_storage_domain) _ _ refl (
    if-IsCoherent (not input.bootstrap.is_safe) _ _ refl
      (if-IsCoherent (not input.holds_guard) _ _ refl refl))

target-IsCoherent :
    (input : CompatibilitySelectionInput) (o : Option StrictCompatibilityTarget)
    → IsCoherent (elim o [
      | none ↦ unavailable_for "unsupported-runtime-build" none
      | some t ↦ select_for_target input t
    ])
target-IsCoherent input none = refl
target-IsCoherent input (some t) = select_for_target-IsCoherent input t

select_strict-IsCoherent : (input : CompatibilitySelectionInput) → IsCoherent (select_strict input)
unfolding select_strict
select_strict-IsCoherent input =
    if-IsCoherent (not (is_protocol_one input.runtime.admission_protocol_version)) _ _ refl (
      if-IsCoherent (not input.runtime.can_register) _ _ refl
        (target-IsCoherent input (exact_target input.baseline input.runtime)))

pub has_all-lem :
    (host : HostDependencies)
    → (has_all host ≡ true) ↔ (
        (host.has_runtime ≡ true)
        × (host.has_sessions ≡ true)
        × (host.has_persistence ≡ true)
        × (host.has_storage_domain ≡ true))
has_all-lem host = (λ h. ground arith, λ h. ground arith)

module _ (host : HostDependencies) (runtime : CompatibilityRuntime)
    (baseline : CompatibilityBaseline) where
  pub preflight-lem : (is_strict (preflight host runtime baseline).mode ≡ true) ↔ (
      (host.has_storage_domain ≡ true)
      × (runtime.admission_protocol_version ≡ some (natural 1))
      × (runtime.can_register ≡ true)
      × (runtime.package_version ≢ "")
      × ((t : StrictCompatibilityTarget) × Member t baseline.strict_targets
          × IsInstalled runtime t))
  unfolding select_admission_mode
  preflight-lem =
      let input = preflight_input host runtime baseline in
      let same = select_strict-IsCoherent input in
      let decides = enforcement_decides input in
      (
        λ h.
            let (p, (t, k)) = decides.0 (sym same ∙ h) in
            (p.storage, p.protocol, p.registers, p.version, (t, k.0, k.1)),
        λ (d, o, r, v, (t, m, i)).
            same
            ∙ decides.1 (
              record {
                configured = refl;
                protocol = o;
                registers = r;
                version = v;
                storage = d;
                bootstrap = refl;
                guard = refl;
              },
              (t, (m, i)),
            ),
      )
