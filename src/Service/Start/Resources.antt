-- ===== src/Service/Start/Resources.antt =====
-- service.ts, what a start holds at its end.
use dsh_subagent_admission.Prelude.{
  ◌≡◌, ◌⊎◌, refl, String, Option, none, some, Bool, true, false, List, [], ◌∷◌, ◌++◌, not, ◌&&◌,
  if◌then◌else◌, inl, inr, Dict, Result, ok, err,
}
use dsh_subagent_admission.Ledger.{RootLedgerRow}
use dsh_subagent_admission.Config.{ConfiguredMode, strict, audit}
use dsh_subagent_admission.Compatibility.{CompatibilityBaseline, CompatibilityRuntime}
use dsh_subagent_admission.Service.Start.{
  HostDependencies, Registration, returns_disposer, returns_other, throws_error, StartAnswers,
  StartCall, took_guard, opened_ledger, asked_registration, closed_admission, drained,
  closed_ledger, released_guard, Started, strict_service, audit_service, unavailable_service,
  cleanup, read_rows, register_failed, register_by, register, after_rows, after_bootstrap,
  start_strict, preflight, is_strict, has_all, start_configured_strict, create_service,
}

-- What is known of the registration of the policy: it was not made, it can be taken back, or it may
-- have been made and nothing takes it back.
pub data PolicyHold : Type 0 where
  unregistered registered undisposed : PolicyHold

-- What is held: the guard, the ledger, and the registration of the policy.
pub record Held : Type 0 where
  pub guard : Bool
  pub ledger : Bool
  pub policy : PolicyHold

abbrev pub policy_after : Registration → PolicyHold
policy_after returns_disposer = registered
policy_after returns_other = undisposed
policy_after throws_error = unregistered

-- A resource stays held where the call that gives it back is rejected.
abbrev pub hold : StartCall → Held → Held
hold took_guard h = record h { guard = true }
hold opened_ledger h = record h { ledger = true }
hold (asked_registration r) h = record h { policy = policy_after r }
hold closed_admission h = h
hold drained h = h
hold (closed_ledger fulfilled) h = record h { ledger = h.ledger && not fulfilled }
hold (released_guard fulfilled) h = record h { guard = h.guard && not fulfilled }

abbrev pub hold_all : Held → List StartCall → Held
hold_all h [] = h
hold_all h (c ∷ calls) = hold_all (hold c h) calls

abbrev pub nothing : Held
nothing = record { guard = false; ledger = false; policy = unregistered }

-- What a start that failed still holds, and why.
pub record StillHolds (answers : StartAnswers) (h : Held) : Type 0 where
  pub guard :
      (h.guard ≡ false)
      ⊎ ((answers.acquires_guard ≡ true)
          × ((answers.holds_guard ≡ false) ⊎ (answers.releases_guard ≡ false)))
  pub ledger :
      (h.ledger ≡ false) ⊎ ((answers.opens_ledger ≡ true) × (answers.closes_ledger ≡ false))
  pub policy :
      (h.policy ≡ unregistered) ⊎ ((h.policy ≡ undisposed) × (answers.registration ≡ returns_other))

-- A strict service holds all three, an audit service none of them.
abbrev pub HoldsAs : StartAnswers → Started → Held → Type 0
HoldsAs answers strict_service h = h ≡ record { guard = true; ledger = true; policy = registered }
HoldsAs answers audit_service h = h ≡ nothing
HoldsAs answers (unavailable_service reason) h = StillHolds answers h

not-false : (b : Bool) → not b ≡ false → b ≡ true
not-false true e = refl
not-false false e = cc

not-true : (b : Bool) → not b ≡ true → b ≡ false
not-true true e = cc
not-true false e = refl

kept_unless : (b : Bool) → (not b ≡ false) ⊎ (b ≡ false)
kept_unless true = inl refl
kept_unless false = inr refl

module _ (answers : StartAnswers) where
  abbrev StartHolds : Started × List StartCall → Type 0
  StartHolds (started, calls) = HoldsAs answers started (hold_all nothing calls)

  if-StartHolds :
      (b : Bool) (x y : Started × List StartCall)
      → (b ≡ true → StartHolds x)
      → (b ≡ false → StartHolds y)
      → StartHolds (if b then x else y)
  if-StartHolds true x y p q = p refl
  if-StartHolds false x y p q = q refl

  nothing-StillHolds : StillHolds answers nothing
  nothing-StillHolds = record { guard = inl refl; ledger = inl refl; policy = inl refl }

  module _ (acquired : answers.acquires_guard ≡ true) where
    released-guard :
        (not answers.releases_guard ≡ false)
        ⊎ ((answers.acquires_guard ≡ true)
            × ((answers.holds_guard ≡ false) ⊎ (answers.releases_guard ≡ false)))
    released-guard = elim (kept_unless answers.releases_guard) [
      | inl e ↦ inl e
      | inr e ↦ inr (acquired, inr e)
    ]

    module _ (opened : answers.opens_ledger ≡ true) where
      closed-ledger :
          (not answers.closes_ledger ≡ false)
          ⊎ ((answers.opens_ledger ≡ true) × (answers.closes_ledger ≡ false))
      closed-ledger = elim (kept_unless answers.closes_ledger) [
        | inl e ↦ inl e
        | inr e ↦ inr (opened, e)
      ]

      cleanup-StillHolds :
          (policy : PolicyHold)
          → (policy ≡ unregistered)
            ⊎ ((policy ≡ undisposed) × (answers.registration ≡ returns_other))
          → StillHolds answers (record {
            guard = not answers.releases_guard;
            ledger = not answers.closes_ledger;
            policy = policy;
          })
      cleanup-StillHolds policy p = record {
        guard = released-guard;
        ledger = closed-ledger;
        policy = p;
      }

      abbrev taken : List StartCall
      taken = took_guard ∷ opened_ledger ∷ []

      register_by-StartHolds :
          (r : Registration) → answers.registration ≡ r → StartHolds (register_by r answers taken)
      register_by-StartHolds returns_disposer e = refl
      register_by-StartHolds returns_other e = cleanup-StillHolds undisposed (inr (refl, e))
      register_by-StartHolds throws_error e = cleanup-StillHolds unregistered (inl refl)

      register-StartHolds : StartHolds (register answers taken)
      unfolding register
      register-StartHolds =
          if-StartHolds answers.is_quiet_at_registration
            (register_by answers.registration answers taken) (register_failed answers taken)
            (λ e. register_by-StartHolds answers.registration refl)
            (λ e. cleanup-StillHolds unregistered (inl refl))

      after_rows-StartHolds :
          (rows : Option (Dict RootLedgerRow)) → StartHolds (after_rows answers rows taken)
      after_rows-StartHolds none = cleanup-StillHolds unregistered (inl refl)
      after_rows-StartHolds (some cache) =
          if-StartHolds answers.is_quiet_after_reads (register answers taken)
            (unavailable_service "unsafe-bootstrap", taken ++ cleanup answers)
            (λ e. register-StartHolds) (λ e. cleanup-StillHolds unregistered (inl refl))

      after_bootstrap-StartHolds :
          (found : Result String (List String)) → StartHolds (after_bootstrap answers found taken)
      after_bootstrap-StartHolds (err reason) = cleanup-StillHolds unregistered (inl refl)
      after_bootstrap-StartHolds (ok roots) =
          after_rows-StartHolds (read_rows answers.read_row roots [])

  start_strict-StartHolds : StartHolds (start_strict answers)
  unfolding start_strict
  start_strict-StartHolds =
      if-StartHolds (not answers.acquires_guard) _ _ (λ e. nothing-StillHolds)
        λ e.
          let acquired = not-false answers.acquires_guard e in
          if-StartHolds (not answers.holds_guard) _ _
            (λ f. record {
              guard = inr (acquired, inl (not-true answers.holds_guard f));
              ledger = inl refl;
              policy = inl refl;
            })
            λ f.
              if-StartHolds (not answers.opens_ledger) _ _
                (λ k. record {
                  guard = released-guard acquired;
                  ledger = inl refl;
                  policy = inl refl;
                })
                λ k.
                  after_bootstrap-StartHolds acquired (not-false answers.opens_ledger k)
                    answers.bootstrap

  -- Whatever the parts answer, a strict service holds the guard, the open ledger and the registration
  -- of its policy, and an audit service none of these. A start that ends unavailable holds the guard
  -- only where it was acquired and then not found held, or its release was rejected; the ledger only
  -- where its close was rejected; and the policy may be registered only where the registration returned
  -- no disposer.
  pub start_gives_back :
      (mode : ConfiguredMode) (host : HostDependencies) (runtime : CompatibilityRuntime)
      (baseline : CompatibilityBaseline)
      → let (started, calls) = create_service mode host runtime baseline answers in
        HoldsAs answers started (hold_all nothing calls)
  unfolding create_service start_configured_strict
  start_gives_back audit host runtime baseline = refl
  start_gives_back strict host runtime baseline =
      if-StartHolds (not (is_strict (preflight host runtime baseline).mode)) _ _
        (λ e. nothing-StillHolds)
        λ e.
          if-StartHolds (not (has_all host)) _ _ (λ f. nothing-StillHolds)
            λ f. start_strict-StartHolds
