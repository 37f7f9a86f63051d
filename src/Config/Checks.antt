-- ===== src/Config/Checks.antt =====
-- config.ts, which configurations are accepted, and what the authority makes of them.
use dsh_subagent_admission.Prelude.{
  ℕ, ◌≤◌, ◌<◌, ◌≡◌, refl, sym, ap, subst, ◌∙◌, ◌↔◌, String, some, false, is_empty, arith, eq_iff,
  Number, natural, negative, other, max_safe_integer, Result, ok, err, ◌>>=◌,
}
use dsh_subagent_admission.Vocabulary.{AdmissionLimits}
use dsh_subagent_admission.StateModel.{or_else}
use dsh_subagent_admission.Ledger.{LedgerState}
use dsh_subagent_admission.Authority.Steps.{new_authority, create_authority, assert_limits}
use dsh_subagent_admission.Config.{
  ConfiguredMode, strict, audit, ResolvedConfig, ConfigInput, ConfigError,
  assert_positive_safe_integer, check_mode, check_coherence, resolve_config,
}

-- Limits that a configuration may have.
pub record IsCoherent (limits : AdmissionLimits) : Type 0 where
  pub root_positive : 0 < limits.per_root_active
  pub children_positive : 0 < limits.per_parent_children
  pub root_global : limits.per_root_active ≤ limits.global_active
  pub root_total : limits.per_root_active ≤ limits.per_root_admitted_total
  pub children_total : limits.per_parent_children ≤ limits.per_root_admitted_total
  pub global_safe : limits.global_active ≤ max_safe_integer
  pub total_safe : limits.per_root_admitted_total ≤ max_safe_integer

abbrev pub mode_name : ConfiguredMode → String
mode_name strict = "strict"
mode_name audit = "audit"

-- What an input with its defaults says.
pub record Says (input : ConfigInput) (config : ResolvedConfig) : Type 0 where
  pub mode : or_else input.mode "audit" ≡ mode_name config.mode
  pub global_active : or_else input.global_active (natural 6) ≡ natural config.limits.global_active
  pub per_root_active :
      or_else input.per_root_active (natural 4) ≡ natural config.limits.per_root_active
  pub per_root_admitted_total :
      or_else input.per_root_admitted_total (natural 24)
      ≡ natural config.limits.per_root_admitted_total
  pub per_parent_children :
      or_else input.per_parent_children (natural 8) ≡ natural config.limits.per_parent_children
  pub ownership_path :
      or_else input.ownership_path "sessions/.dsh-subagent-admission-owner" ≡ config.ownership_path

assert_positive_safe_integer-ok :
    (x : Number) (name : String) (n : ℕ)
    → assert_positive_safe_integer x name ≡ ok n
    → (x ≡ natural n) × (0 < n) × (n ≤ max_safe_integer)
unfolding assert_positive_safe_integer
assert_positive_safe_integer-ok (natural m) name n e = ground arith
assert_positive_safe_integer-ok (negative m) name n e = absurd (ground (arith, e))
assert_positive_safe_integer-ok other name n e = absurd (ground (arith, e))

positive_accepted :
    (x : Number) (name : String) (n : ℕ)
    → x ≡ natural n
    → 0 < n
    → n ≤ max_safe_integer
    → assert_positive_safe_integer x name ≡ ok n
unfolding assert_positive_safe_integer
positive_accepted x name n e h k = ground (arith, e)

check_mode-ok :
    (text : String) (mode : ConfiguredMode) → (check_mode text ≡ ok mode) ↔ (text ≡ mode_name mode)
unfolding check_mode
check_mode-ok text strict = (
  (λ h. ground (arith, h, eq_iff text "strict", eq_iff text "audit")),
  (λ h. ground (arith, h, eq_iff text "strict")),
)
check_mode-ok text audit = (
  (λ h. ground (arith, h, eq_iff text "strict", eq_iff text "audit")),
  (λ h. subst (λ t. check_mode t ≡ ok audit) (sym h) refl),
)

bind-ok :
    {A B : Type 0} (m : Result ConfigError A) (f : A → Result ConfigError B) (b : B)
    → m >>= f ≡ ok b
    → (a : A) × (m ≡ ok a) × (f a ≡ ok b)
bind-ok (ok a) f b e = (a, refl, e)
bind-ok (err x) f b e = absurd (ground (arith, e))

check_coherence-ok :
    (mode : ConfiguredMode) (limits : AdmissionLimits) (path : String) (c : ResolvedConfig)
    → check_coherence mode limits path ≡ ok c
    → (c ≡ record { mode = mode; limits = limits; ownership_path = path })
      × (limits.per_root_active ≤ limits.global_active)
      × (limits.per_root_active ≤ limits.per_root_admitted_total)
      × (limits.per_parent_children ≤ limits.per_root_admitted_total)
      × (is_empty path ≡ false)
unfolding check_coherence
check_coherence-ok mode limits path c e = (
  value (ground (arith, e)),
  ground (arith, e),
  ground (arith, e),
  ground (arith, e),
  ground (arith, e),
)
  where
    value :
        {x y : ResolvedConfig} → ◌≡◌ {A = Result ConfigError ResolvedConfig} (ok x) (ok y) → y ≡ x
    value q = cc

check_coherence-accepts :
    (mode : ConfiguredMode) (limits : AdmissionLimits) (path : String)
    → IsCoherent limits
    → is_empty path ≡ false
    → check_coherence mode limits path
      ≡ ok (record { mode = mode; limits = limits; ownership_path = path })
unfolding check_coherence
check_coherence-accepts mode limits path h p =
    ground (arith, h.root_global, h.root_total, h.children_total, p)

module _ (input : ConfigInput) (c : ResolvedConfig) where
  resolve_config_sound :
      resolve_config input ≡ ok c
      → Says input c × IsCoherent c.limits × (is_empty c.ownership_path ≡ false)
  unfolding resolve_config
  resolve_config_sound e =
      let (mode, m, e1) = bind-ok _ _ c e in
      let (global, g, e2) = bind-ok _ _ c e1 in
      let (root, r, e3) = bind-ok _ _ c e2 in
      let (total, t, e4) = bind-ok _ _ c e3 in
      let (children, k, e5) = bind-ok _ _ c e4 in
      let (same, root_global, root_total, children_total, path) = check_coherence-ok _ _ _ c e5 in
      let g' = assert_positive_safe_integer-ok _ _ global g in
      let r' = assert_positive_safe_integer-ok _ _ root r in
      let t' = assert_positive_safe_integer-ok _ _ total t in
      let k' = assert_positive_safe_integer-ok _ _ children k in
      subst (λ x. Says input x × IsCoherent x.limits × (is_empty x.ownership_path ≡ false))
        (sym same)
        (
          record {
            mode = (check_mode-ok _ mode).0 m;
            global_active = g'.0;
            per_root_active = r'.0;
            per_root_admitted_total = t'.0;
            per_parent_children = k'.0;
            ownership_path = refl;
          },
          record {
            root_positive = r'.1;
            children_positive = k'.1;
            root_global = root_global;
            root_total = root_total;
            children_total = children_total;
            global_safe = g'.2;
            total_safe = t'.2;
          },
          path,
        )

  resolve_config_complete :
      Says input c
      → IsCoherent c.limits
      → is_empty c.ownership_path ≡ false
      → resolve_config input ≡ ok c
  unfolding resolve_config
  resolve_config_complete s h p =
      let l = c.limits in
      rw
        (
          (check_mode-ok _ c.mode).1 s.mode,
          positive_accepted _ "globalActive" l.global_active s.global_active
              (omega (arith, h.root_positive, h.root_global)) h.global_safe,
          positive_accepted _ "perRootActive" l.per_root_active s.per_root_active h.root_positive
              (omega (arith, h.root_global, h.global_safe)),
          positive_accepted _ "perRootAdmittedTotal" l.per_root_admitted_total
              s.per_root_admitted_total (omega (arith, h.root_positive, h.root_total)) h.total_safe,
          positive_accepted _ "perParentChildren" l.per_parent_children s.per_parent_children
              h.children_positive (omega (arith, h.children_total, h.total_safe)),
        )
        (ap (check_coherence c.mode l) s.ownership_path
          ∙ check_coherence-accepts c.mode l c.ownership_path h p)

  -- A configuration is accepted exactly when, with the defaults for what is missing, its mode is
  -- strict or audit, its limits are positive safe integers and coherent, and its path is not empty;
  -- and it is then what the input says.
  pub resolve_config_decides :
      (resolve_config input ≡ ok c)
      ↔ (Says input c × IsCoherent c.limits × (is_empty c.ownership_path ≡ false))
  resolve_config_decides = (resolve_config_sound, λ (s, h, p). resolve_config_complete s h p)

  -- The authority accepts the limits of every accepted configuration.
  pub create_authority-resolve_config :
      (epoch : String) (ledger : LedgerState)
      → resolve_config input ≡ ok c
      → is_empty epoch ≡ false
      → create_authority c.limits epoch ledger ≡ some (new_authority c.limits epoch ledger)
  unfolding create_authority assert_limits
  create_authority-resolve_config epoch ledger e p =
      let h = (resolve_config_sound e).1 in
      ground (
        arith, p, h.root_positive, h.children_positive, h.root_global, h.root_total,
        h.children_total, h.global_safe, h.total_safe,
      )
