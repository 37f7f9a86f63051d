-- ===== src/Service/Start.antt =====
-- service.ts, `createSubagentAdmissionService`: which service is made, and which resources are taken and
-- given back on the way.
pub mod Resources
pub mod Preflight
pub mod Conditions
use dsh_subagent_admission.Prelude.{
  ◌≡◌, refl, String, Option, none, some, Bool, true, false, List, [], ◌∷◌, ◌++◌, ◌&&◌, not,
  if◌then◌else◌, Dict, insert, Result, ok, err,
}
use dsh_subagent_admission.Ledger.{RootLedgerRow}
use dsh_subagent_admission.StateModel.{or_else}
use dsh_subagent_admission.Config.{ConfiguredMode, strict, audit}
use dsh_subagent_admission.Compatibility.{
  CompatibilityBaseline, CompatibilityRuntime, CompatibilitySelectionInput, CompatibilitySelection,
  RuntimeMode, strict_mode, audit_mode, unavailable_mode, select_admission_mode,
}

-- What was mounted in the context.
pub record HostDependencies : Type 0 where
  pub has_runtime : Bool
  pub has_sessions : Bool
  pub has_persistence : Bool
  pub has_storage_domain : Bool

-- What `registerAdmissionPolicy` gives.
pub data Registration : Type 0 where
  returns_disposer returns_other throws_error : Registration

-- What the parts answer: whether a call is fulfilled, and what the bootstrap found. `read_row` is
-- `none` where the ledger rejects.
pub record StartAnswers : Type 0 where
  pub acquires_guard : Bool
  pub holds_guard : Bool
  pub opens_ledger : Bool
  pub bootstrap : Result String (List String)
  pub read_row : String → Option (Option RootLedgerRow)
  pub is_quiet_after_reads : Bool
  pub is_quiet_at_registration : Bool
  pub registration : Registration
  pub closes_ledger : Bool
  pub releases_guard : Bool

-- What was called to take resources or to give them back, in order: `ledger.close` and `guard.release`
-- with whether they were fulfilled, `registerAdmissionPolicy` with what it gave.
pub data StartCall : Type 0 where
  took_guard opened_ledger closed_admission drained : StartCall
  asked_registration : Registration → StartCall
  closed_ledger released_guard : Bool → StartCall

pub data Started : Type 0 where
  strict_service audit_service : Started
  unavailable_service : String → Started

-- `cleanupStrictResources`: the guard is released also where the ledger rejects, and rejections are
-- swallowed.
abbrev pub cleanup : StartAnswers → List StartCall
cleanup answers = closed_ledger answers.closes_ledger ∷ released_guard answers.releases_guard ∷ []

abbrev pub keep_row : String → Option RootLedgerRow → Dict RootLedgerRow → Dict RootLedgerRow
keep_row root none cache = cache
keep_row root (some row) cache = insert root row cache

abbrev pub next_row_read :
    String
    → Option (Option RootLedgerRow)
    → (Dict RootLedgerRow → Option (Dict RootLedgerRow))
    → Dict RootLedgerRow
    → Option (Dict RootLedgerRow)
next_row_read root none rest cache = none
next_row_read root (some row) rest cache = rest (keep_row root row cache)

-- The loop over `bootstrap.rootIds`.
unfoldable pub read_rows :
    (String → Option (Option RootLedgerRow))
    → List String
    → Dict RootLedgerRow
    → Option (Dict RootLedgerRow)
read_rows read_row [] cache = some cache
read_rows read_row (root ∷ roots) cache =
    next_row_read root (read_row root) (read_rows read_row roots) cache

-- The catch after a registration that failed. `calls` were made before.
abbrev pub register_failed : StartAnswers → List StartCall → Started × List StartCall
register_failed answers calls = (
  unavailable_service "policy-registration-failed",
  calls ++ closed_admission ∷ drained ∷ cleanup answers,
)

-- `registerAdmissionPolicy` was called. Where it gave no disposer, the policy may stay registered.
abbrev pub register_by : Registration → StartAnswers → List StartCall → Started × List StartCall
register_by returns_disposer answers calls =
    (strict_service, calls ++ asked_registration returns_disposer ∷ [])
register_by returns_other answers calls =
    register_failed answers (calls ++ asked_registration returns_other ∷ [])
register_by throws_error answers calls =
    register_failed answers (calls ++ asked_registration throws_error ∷ [])

unfoldable pub register : StartAnswers → List StartCall → Started × List StartCall
register answers calls =
    if answers.is_quiet_at_registration
    then register_by answers.registration answers calls
    else register_failed answers calls

abbrev pub after_rows :
    StartAnswers → Option (Dict RootLedgerRow) → List StartCall → Started × List StartCall
after_rows answers none calls = (unavailable_service "unsafe-bootstrap", calls ++ cleanup answers)
after_rows answers (some cache) calls =
    if answers.is_quiet_after_reads
    then register answers calls
    else (unavailable_service "unsafe-bootstrap", calls ++ cleanup answers)

abbrev pub after_bootstrap :
    StartAnswers → Result String (List String) → List StartCall → Started × List StartCall
after_bootstrap answers (err reason) calls = (unavailable_service reason, calls ++ cleanup answers)
after_bootstrap answers (ok roots) calls =
    after_rows answers (read_rows answers.read_row roots []) calls

-- From the acquisition of the guard on.
unfoldable pub start_strict : StartAnswers → Started × List StartCall
unfolding read_rows register
start_strict answers =
    if not answers.acquires_guard
    then (unavailable_service "ownership-guard-unavailable", [])
    else if not answers.holds_guard
    then (unavailable_service "ownership-guard-unavailable", took_guard ∷ [])
    else if not answers.opens_ledger
    then (
      unavailable_service "admission-state-io",
      took_guard ∷ released_guard answers.releases_guard ∷ [],
    )
    else after_bootstrap answers answers.bootstrap (took_guard ∷ opened_ledger ∷ [])

abbrev pub preflight_input :
    HostDependencies → CompatibilityRuntime → CompatibilityBaseline → CompatibilitySelectionInput
preflight_input host runtime baseline = record {
  configured = strict;
  runtime = runtime;
  baseline = baseline;
  has_storage_domain = host.has_storage_domain;
  bootstrap = record { is_safe = true; reason = none };
  holds_guard = true;
}

-- The selection before any resource is taken.
abbrev pub preflight :
    HostDependencies → CompatibilityRuntime → CompatibilityBaseline → CompatibilitySelection
preflight host runtime baseline = select_admission_mode (preflight_input host runtime baseline)

abbrev pub is_strict : RuntimeMode → Bool
is_strict strict_mode = true
is_strict audit_mode = false
is_strict unavailable_mode = false

abbrev pub has_all : HostDependencies → Bool
has_all host =
    host.has_runtime && host.has_sessions && host.has_persistence && host.has_storage_domain

unfoldable pub start_configured_strict :
    HostDependencies
    → CompatibilityRuntime
    → CompatibilityBaseline
    → StartAnswers
    → Started × List StartCall
unfolding start_strict
start_configured_strict host runtime baseline answers =
    let selected = preflight host runtime baseline in
    if not (is_strict selected.mode)
    then (unavailable_service (or_else selected.reason "strict-unavailable"), [])
    else if not (has_all host)
    then (unavailable_service "host-dependencies-unavailable", [])
    else start_strict answers

-- `createSubagentAdmissionService`, for a configuration that was resolved.
unfoldable pub create_service :
    ConfiguredMode
    → HostDependencies
    → CompatibilityRuntime
    → CompatibilityBaseline
    → StartAnswers
    → Started × List StartCall
unfolding start_configured_strict
create_service audit host runtime baseline answers = (audit_service, [])
create_service strict host runtime baseline answers =
    start_configured_strict host runtime baseline answers
