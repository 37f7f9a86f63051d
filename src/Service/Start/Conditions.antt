-- ===== src/Service/Start/Conditions.antt =====
-- service.ts, when a start gives a strict service.
use dsh_subagent_admission.Prelude.{
  ◌≡◌, ◌≢◌, natural, ◌↔◌, refl, sym, ap, subst, String, Option, none, some, Bool, true, false, List,
  [], ◌∷◌, not, if◌then◌else◌, Dict, Result, ok, err,
}
use dsh_subagent_admission.Ledger.{RootLedgerRow}
use dsh_subagent_admission.Config.{ConfiguredMode, strict, audit}
use dsh_subagent_admission.Compatibility.{
  StrictCompatibilityTarget, CompatibilityBaseline, CompatibilityRuntime,
}
use dsh_subagent_admission.Compatibility.Targets.{IsInstalled}
use dsh_subagent_admission.Compatibility.Selection.{Member}
use dsh_subagent_admission.Service.Start.{
  HostDependencies, Registration, returns_disposer, returns_other, throws_error, StartAnswers,
  StartCall, took_guard, opened_ledger, Started, strict_service, unavailable_service, next_row_read,
  read_rows, register_failed, register_by, register, after_rows, after_bootstrap, start_strict,
  preflight, is_strict, has_all, start_configured_strict, create_service,
}
use dsh_subagent_admission.Service.Start.Preflight.{has_all-lem, preflight-lem}

abbrev IsStrictStart : Started × List StartCall → Type 0
IsStrictStart s = s.0 ≡ strict_service

unless :
    (b : Bool) (reason : String) (calls : List StartCall) (x : Started × List StartCall)
    → IsStrictStart (if b then (unavailable_service reason, calls) else x)
      ↔ ((b ≡ false) × IsStrictStart x)
unless true reason calls x = (λ h. cc, λ h. cc)
unless false reason calls x = (λ h. (refl, h), λ h. h.1)

unless_not :
    (b : Bool) (reason : String) (calls : List StartCall) (x : Started × List StartCall)
    → IsStrictStart (if not b then (unavailable_service reason, calls) else x)
      ↔ ((b ≡ true) × IsStrictStart x)
unless_not true reason calls x = (λ h. (refl, h), λ h. h.1)
unless_not false reason calls x = (λ h. cc, λ h. cc)

if_strict :
    (b : Bool) (x : Started × List StartCall) (reason : String) (calls : List StartCall)
    → IsStrictStart (if b then x else (unavailable_service reason, calls))
      ↔ ((b ≡ true) × IsStrictStart x)
if_strict true x reason calls = (λ h. (refl, h), λ h. h.1)
if_strict false x reason calls = (λ h. cc, λ h. cc)

register_by-strict :
    (r : Registration) (answers : StartAnswers) (calls : List StartCall)
    → IsStrictStart (register_by r answers calls) ↔ (r ≡ returns_disposer)
register_by-strict returns_disposer answers calls = (λ h. refl, λ h. refl)
register_by-strict returns_other answers calls = (λ h. cc, λ h. cc)
register_by-strict throws_error answers calls = (λ h. cc, λ h. cc)

-- Every row of the roots can be read.
abbrev pub IsReadable : (String → Option (Option RootLedgerRow)) → List String → Type 0
IsReadable read_row [] = Unit
IsReadable read_row (root ∷ roots) = (read_row root ≢ none) × IsReadable read_row roots

next_row-total :
    (read_row : String → Option (Option RootLedgerRow)) (roots : List String) (root : String)
    (o : Option (Option RootLedgerRow)) (cache : Dict RootLedgerRow)
    → ((c : Dict RootLedgerRow) → (read_rows read_row roots c ≢ none) ↔ IsReadable read_row roots)
    → (next_row_read root o (read_rows read_row roots) cache ≢ none)
      ↔ ((o ≢ none) × IsReadable read_row roots)
next_row-total read_row roots root none cache ih = (λ h. absurd (h refl), λ h. absurd (h.0 refl))
next_row-total read_row roots root (some row) cache ih =
    (λ h. (λ e. cc, (ih _).0 h), λ h. (ih _).1 h.1)

read_rows-total :
    (read_row : String → Option (Option RootLedgerRow)) (roots : List String)
    (cache : Dict RootLedgerRow)
    → (read_rows read_row roots cache ≢ none) ↔ IsReadable read_row roots
unfolding read_rows
read_rows-total read_row [] cache = (λ h. tt, λ h e. cc)
read_rows-total read_row (root ∷ roots) cache =
    next_row-total read_row roots root (read_row root) cache (read_rows-total read_row roots)

abbrev found_roots : Result String (List String) → List String
found_roots (ok roots) = roots
found_roots (err reason) = []

module _ (answers : StartAnswers) where
  register-strict :
      (calls : List StartCall)
      → IsStrictStart (register answers calls)
        ↔ ((answers.is_quiet_at_registration ≡ true) × (answers.registration ≡ returns_disposer))
  unfolding register
  register-strict calls =
      let quiet =
        if_strict answers.is_quiet_at_registration (register_by answers.registration answers calls)
          "policy-registration-failed" (register_failed answers calls).1 in
      let registered = register_by-strict answers.registration answers calls in
      (
        λ h. let parts = quiet.0 h in (parts.0, registered.0 parts.1),
        λ h. quiet.1 (h.0, registered.1 h.1),
      )

  -- The conditions from the reading of the rows on.
  abbrev IsRegistered : Type 0
  IsRegistered =
      (answers.is_quiet_after_reads ≡ true)
      × (answers.is_quiet_at_registration ≡ true)
      × (answers.registration ≡ returns_disposer)

  after_rows-strict :
      (rows : Option (Dict RootLedgerRow)) (calls : List StartCall)
      → IsStrictStart (after_rows answers rows calls) ↔ ((rows ≢ none) × IsRegistered)
  after_rows-strict none calls = (λ h. cc, λ h. absurd (h.0 refl))
  after_rows-strict (some cache) calls =
      let quiet =
        if_strict answers.is_quiet_after_reads (register answers calls) "unsafe-bootstrap" _ in
      let registered = register-strict calls in
      (
        λ h.
            let parts = quiet.0 h in
            let (q, r) = registered.0 parts.1 in (λ e. cc, (parts.0, q, r)),
        λ (some_rows, (a, q, r)). quiet.1 (a, registered.1 (q, r)),
      )

  after_bootstrap-strict :
      (found : Result String (List String)) (calls : List StartCall)
      → IsStrictStart (after_bootstrap answers found calls) ↔ (
          (roots : List String) × (found ≡ ok roots)
          × IsReadable answers.read_row roots
          × IsRegistered)
  after_bootstrap-strict (err reason) calls = (λ h. cc, λ (roots, e, h, k). cc)
  after_bootstrap-strict (ok roots) calls =
      let rows = read_rows answers.read_row roots [] in
      let strict_rows = after_rows-strict rows calls in
      let readable = read_rows-total answers.read_row roots [] in
      (
        λ h. let parts = strict_rows.0 h in (roots, refl, readable.0 parts.0, parts.1),
        λ (others, e, h, k).
            let same : others ≡ roots = sym (ap found_roots e) in
            strict_rows.1 (readable.1 (subst (IsReadable answers.read_row) same h), k),
      )

  -- The conditions from the guard on.
  abbrev IsOpened : Type 0
  IsOpened =
      (answers.acquires_guard ≡ true)
      × (answers.holds_guard ≡ true)
      × (answers.opens_ledger ≡ true)
      × ((roots : List String) × (answers.bootstrap ≡ ok roots)
          × IsReadable answers.read_row roots
          × IsRegistered)

  start_strict-strict : IsStrictStart (start_strict answers) ↔ IsOpened
  unfolding start_strict
  start_strict-strict =
      let guard = unless_not answers.acquires_guard _ _ _ in
      let held = unless_not answers.holds_guard _ _ _ in
      let opened = unless_not answers.opens_ledger _ _ _ in
      let boot = after_bootstrap-strict answers.bootstrap (took_guard ∷ opened_ledger ∷ []) in
      (
        λ h.
            let (a, h1) = guard.0 h in
            let (b, h2) = held.0 h1 in let (c, h3) = opened.0 h2 in (a, b, c, boot.0 h3),
        λ (a, b, c, k). guard.1 (a, held.1 (b, opened.1 (c, boot.1 k))),
      )

-- What must hold for a strict service, in the order in which it is asked.
pub record StrictConditions (mode : ConfiguredMode) (host : HostDependencies)
    (runtime : CompatibilityRuntime) (baseline : CompatibilityBaseline) (answers : StartAnswers)
    : Type 0 where
  pub configured : mode ≡ strict
  pub protocol : runtime.admission_protocol_version ≡ some (natural 1)
  pub registers : runtime.can_register ≡ true
  pub version : runtime.package_version ≢ ""
  pub target : StrictCompatibilityTarget
  pub listed : Member target baseline.strict_targets
  pub installed : IsInstalled runtime target
  pub has_runtime : host.has_runtime ≡ true
  pub has_sessions : host.has_sessions ≡ true
  pub has_persistence : host.has_persistence ≡ true
  pub has_storage_domain : host.has_storage_domain ≡ true
  pub acquired : answers.acquires_guard ≡ true
  pub held : answers.holds_guard ≡ true
  pub opened : answers.opens_ledger ≡ true
  pub roots : List String
  pub bootstrapped : answers.bootstrap ≡ ok roots
  pub readable : IsReadable answers.read_row roots
  pub quiet_after_reads : answers.is_quiet_after_reads ≡ true
  pub quiet_at_registration : answers.is_quiet_at_registration ≡ true
  pub disposer : answers.registration ≡ returns_disposer

-- A start gives a strict service exactly when strict is configured; the runtime speaks protocol 1, can
-- register a policy and has a version, which some well-formed target of the baseline names together
-- with protocol 1; the runtime, the sessions, the persistence and the storage domain are mounted; the
-- guard is acquired and found held, the ledger opens, the bootstrap finds its roots and the ledger reads
-- the row of each, no subagent is live after that and none at the registration, and the registration
-- returns a disposer.
pub start_strict_decides :
    (mode : ConfiguredMode) (host : HostDependencies) (runtime : CompatibilityRuntime)
    (baseline : CompatibilityBaseline) (answers : StartAnswers)
    → ((create_service mode host runtime baseline answers).0 ≡ strict_service)
      ↔ StrictConditions mode host runtime baseline answers
unfolding create_service start_configured_strict
start_strict_decides audit host runtime baseline answers = (λ h. cc, λ c. cc (c.configured))
start_strict_decides strict host runtime baseline answers =
    let selected = unless_not (is_strict (preflight host runtime baseline).mode) _ _ _ in
    let mounted = unless_not (has_all host) _ _ _ in
    let opened = start_strict-strict answers in
    (
      λ h.
          let (s, h1) = selected.0 h in
          let (m, h2) = mounted.0 h1 in
          let (a, b, c, (roots, e, r, q)) = opened.0 h2 in
          let (d, o, g, v, (t, l, i)) = (preflight-lem host runtime baseline).0 s in
          let all = (has_all-lem host).0 m in
          record {
            configured = refl;
            protocol = o;
            registers = g;
            version = v;
            target = t;
            listed = l;
            installed = i;
            has_runtime = all.0;
            has_sessions = all.1;
            has_persistence = all.2;
            has_storage_domain = all.3;
            acquired = a;
            held = b;
            opened = c;
            roots = roots;
            bootstrapped = e;
            readable = r;
            quiet_after_reads = q.0;
            quiet_at_registration = q.1;
            disposer = q.2;
          },
      λ c.
          let q : IsRegistered answers =
            (c.quiet_after_reads, c.quiet_at_registration, c.disposer) in
          selected.1 (
            (preflight-lem host runtime baseline).1 (
              c.has_storage_domain,
              c.protocol,
              c.registers,
              c.version,
              (c.target, c.listed, c.installed),
            ),
            mounted.1 (
              (has_all-lem host).1
                  (c.has_runtime, c.has_sessions, c.has_persistence, c.has_storage_domain),
              opened.1 (c.acquired, c.held, c.opened, (c.roots, c.bootstrapped, c.readable, q)),
            ),
          ),
    )
