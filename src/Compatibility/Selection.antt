-- ===== src/Compatibility/Selection.antt =====
-- compatibility.ts, `selectAdmissionMode`: when the policy is enforced.
use dsh_subagent_admission.Prelude.{
  ◌≡◌, ◌≢◌, Number, natural, refl, sym, ap, subst, ◌∙◌, ◌⊎◌, ◌↔◌, inl, inr, Option, none, some,
  true, false, List, [], ◌∷◌, is_empty, arith, Bool-cases, Option-cases,
}
use dsh_subagent_admission.Compatibility.Targets.{
  IsInstalled, is_exact-IsInstalled, is_empty-lem, is_one-lem,
}
use dsh_subagent_admission.Config.{ConfiguredMode, strict, audit}
use dsh_subagent_admission.Compatibility.{
  StrictCompatibilityTarget, CompatibilityRuntime, CompatibilitySelectionInput,
  CompatibilitySelection, strict_mode, is_exact, first_exact, exact_target, select_for_target,
  select_strict, select_configured, select_admission_mode, is_protocol_one,
}

abbrev pub Member : StrictCompatibilityTarget → List StrictCompatibilityTarget → Type 0
Member t [] = ⊥
Member t (x ∷ xs) = (x ≡ t) ⊎ Member t xs

some-target :
    {a b : StrictCompatibilityTarget}
    → ◌≡◌ {A = Option StrictCompatibilityTarget} (some a) (some b)
    → a ≡ b
some-target e = cc

first_exact-Member :
    (runtime : CompatibilityRuntime) (ts : List StrictCompatibilityTarget)
    (t : StrictCompatibilityTarget)
    → first_exact runtime ts ≡ some t
    → Member t ts × (is_exact runtime t ≡ true)
unfolding first_exact
first_exact-Member runtime [] t e = absurd (ground (arith, e))
first_exact-Member runtime (x ∷ xs) t e = elim (Bool-cases (is_exact runtime x)) [
  | inl h ↦
      let same : x ≡ t = some-target (ground (arith, e, h)) in
      (inl same, subst (λ y. is_exact runtime y ≡ true) same h)
  | inr h ↦
      let (m, exact) = first_exact-Member runtime xs t (ground (arith, e, h)) in (inr m, exact)
]

first_exact-found :
    (runtime : CompatibilityRuntime) (ts : List StrictCompatibilityTarget)
    (t : StrictCompatibilityTarget)
    → Member t ts
    → is_exact runtime t ≡ true
    → (u : StrictCompatibilityTarget) × (first_exact runtime ts ≡ some u)
unfolding first_exact
first_exact-found runtime [] t m h = absurd m
first_exact-found runtime (x ∷ xs) t (inl same) h =
    (x, ground (arith, subst (λ y. is_exact runtime y ≡ true) (sym same) h))
first_exact-found runtime (x ∷ xs) t (inr m) h = elim (Bool-cases (is_exact runtime x)) [
  | inl g ↦ (x, ground (arith, g))
  | inr g ↦ let (u, e) = first_exact-found runtime xs t m h in (u, ground (arith, g, e))
]

protocol_one : (o : Option Number) → (is_protocol_one o ≡ true) ↔ (o ≡ some (natural 1))
protocol_one none = (λ h. cc, λ h. cc)
protocol_one (some n) =
    (λ h. ap some ((is_one-lem n).0 h), λ h. (is_one-lem n).1 (some-number n (natural 1) h))
  where
    some-number : (a b : Number) → some a ≡ some b → a ≡ b
    some-number a b e = cc

module _ (input : CompatibilitySelectionInput) where
  -- Every prerequisite of strict mode but the target.
  pub record HasPrerequisites : Type 0 where
    pub configured : input.configured ≡ strict
    pub protocol : input.runtime.admission_protocol_version ≡ some (natural 1)
    pub registers : input.runtime.can_register ≡ true
    pub version : input.runtime.package_version ≢ ""
    pub storage : input.has_storage_domain ≡ true
    pub bootstrap : input.bootstrap.is_safe ≡ true
    pub guard : input.holds_guard ≡ true

  is_strict : (m : ConfiguredMode) → (m ≡ strict) ⊎ (m ≡ audit)
  is_strict strict = inl refl
  is_strict audit = inr refl

  selects_strict : input.configured ≡ strict → select_admission_mode input ≡ select_strict input
  unfolding select_admission_mode
  selects_strict e = ap (λ m. select_configured m (select_strict input)) e

  selects_audit : input.configured ≡ audit → (select_admission_mode input).is_enforced ≡ false
  unfolding select_admission_mode
  selects_audit e = ap (λ m. (select_configured m (select_strict input)).is_enforced) e

  strict_sound :
      (t : StrictCompatibilityTarget)
      → exact_target input.baseline input.runtime ≡ some t
      → (select_strict input).is_enforced ≡ true
      → (is_protocol_one input.runtime.admission_protocol_version ≡ true)
        × (input.runtime.can_register ≡ true)
        × (input.has_storage_domain ≡ true)
        × (input.bootstrap.is_safe ≡ true)
        × (input.holds_guard ≡ true)
        × ((select_strict input).target ≡ some t)
        × ((select_strict input).mode ≡ strict_mode)
  unfolding select_strict select_for_target
  strict_sound t q e = ground (arith, q, e)

  strict_none :
      exact_target input.baseline input.runtime ≡ none → (select_strict input).is_enforced ≡ false
  unfolding select_strict
  strict_none q = ground (arith, q)

  exact_target-version :
      (t : StrictCompatibilityTarget)
      → exact_target input.baseline input.runtime ≡ some t
      → (is_empty input.runtime.package_version ≡ false)
        × (first_exact input.runtime input.baseline.strict_targets ≡ some t)
  unfolding exact_target
  exact_target-version t e = (ground (arith, e), ground (arith, e))

  -- A target of the baseline that is well formed and fits the installed build.
  abbrev pub HasTarget : StrictCompatibilityTarget → Type 0
  HasTarget t = Member t input.baseline.strict_targets × IsInstalled input.runtime t

  select_sound :
      (select_admission_mode input).is_enforced ≡ true
      → HasPrerequisites
        × ((t : StrictCompatibilityTarget) × HasTarget t
            × ((select_admission_mode input).target ≡ some t)
            × ((select_admission_mode input).mode ≡ strict_mode))
  select_sound e = elim (is_strict input.configured) [
    | inr a ↦ absurd (ground (arith, e, selects_audit a))
    | inl s ↦
        let same = selects_strict s in
        let enforced = sym (ap (λ (x : CompatibilitySelection). x.is_enforced) same) ∙ e in
        elim (Option-cases (exact_target input.baseline input.runtime)) [
          | inl q ↦ absurd (ground (arith, enforced, strict_none q))
          | inr (t, q) ↦
              let (p, r, d, b, g, target, mode) = strict_sound t q enforced in
              let (version, found) = exact_target-version t q in
              let (member, exact) =
                first_exact-Member input.runtime input.baseline.strict_targets t found in
              (
                record {
                  configured = s;
                  protocol = (protocol_one input.runtime.admission_protocol_version).0 p;
                  registers = r;
                  version = (is_empty-lem input.runtime.package_version).0 version;
                  storage = d;
                  bootstrap = b;
                  guard = g;
                },
                (
                  t,
                  (member, (is_exact-IsInstalled input.runtime t).0 exact),
                  ap (λ (x : CompatibilitySelection). x.target) same ∙ target,
                  ap (λ (x : CompatibilitySelection). x.mode) same ∙ mode,
                ),
              )
        ]
  ]

  select_complete :
      (t : StrictCompatibilityTarget)
      → HasPrerequisites
      → HasTarget t
      → (select_admission_mode input).is_enforced ≡ true
  unfolding select_strict select_for_target exact_target
  select_complete t h (m, installed) =
      let exact = (is_exact-IsInstalled input.runtime t).1 installed in
      let (u, found) = first_exact-found input.runtime input.baseline.strict_targets t m exact in
      let protocol = (protocol_one input.runtime.admission_protocol_version).1 h.protocol in
      let version = (is_empty-lem input.runtime.package_version).1 h.version in
      ap (λ (x : CompatibilitySelection). x.is_enforced) (selects_strict h.configured)
      ∙ ground (arith, found, protocol, h.registers, version, h.storage, h.bootstrap, h.guard)

  -- The policy is enforced exactly if strict mode is configured, the runtime speaks protocol 1 and
  -- can register a policy, the storage domain is there, the start-up scan was safe, the guard is
  -- held, the installed version is known, and some target of the baseline is of this version and of
  -- protocol 1, with a commit of 40 and a patch digest of 64 small hexadecimal digits and a command.
  pub enforcement_decides :
      ((select_admission_mode input).is_enforced ≡ true)
      ↔ (HasPrerequisites × ((t : StrictCompatibilityTarget) × HasTarget t))
  enforcement_decides = (
    (λ e. let (h, (t, k, _, _)) = select_sound e in (h, (t, k))),
    λ (h, (t, k)). select_complete t h k,
  )

  -- An enforced selection is strict, and names a target of the baseline that is exactly the
  -- installed build.
  pub enforced_names_target :
      (select_admission_mode input).is_enforced ≡ true
      → (t : StrictCompatibilityTarget) × HasTarget t
        × ((select_admission_mode input).target ≡ some t)
        × ((select_admission_mode input).mode ≡ strict_mode)
  enforced_names_target e = (select_sound e).1
