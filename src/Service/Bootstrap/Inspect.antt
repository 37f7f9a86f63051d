-- ===== src/Service/Bootstrap/Inspect.antt =====
-- service.ts, `BootstrapHeaders.inspect`: the header of a session, for the resolver. A call takes what
-- the session stores and the abort signal answer to it.
pub mod Parents
use dsh_subagent_admission.Prelude.{
  ℕ, String, Option, none, some, Bool, true, false, List, [], ◌∷◌, ◌==◌, ◌&&◌, if◌then◌else◌,
  Result, ok, err, lookup,
}
use dsh_subagent_admission.Resolver.{Inspection, missing, header}
use dsh_subagent_admission.Telemetry.Snapshot.{Answer, answers, throws}
use dsh_subagent_admission.Service.Bootstrap.{
  RawHeader, HostSessionHeader, HostSession, Checked, Catalog, add_header,
}

-- `is_aborted n` is what the n-th check of the signal finds.
pub record InspectCall : Type 0 where
  pub session_id : String
  pub get : Answer (Option HostSession)
  pub inspected : Answer (Option RawHeader)
  pub is_aborted : ℕ → Bool

-- A failure with its reason, the error of the signal, or the one of the persistence.
pub data InspectError : Type 0 where
  failure : String → InspectError
  signal_error persistence_error : InspectError

abbrev pub Inspected : Type 0
Inspected = Result InspectError Inspection × Catalog

-- `resolverHeader`.
abbrev pub resolver_header : HostSessionHeader → Inspection
resolver_header h = header h.id h.parent_session

-- A live session that was added.
abbrev pub live_added :
    HostSession → String → Catalog → Checked (HostSessionHeader × Catalog) → Inspected
live_added live id catalog (err reason) = (err (failure reason), catalog)
live_added live id catalog (ok (h, grown)) =
    if live.id == id && h.id == id
    then (ok (resolver_header h), grown)
    else (err (failure "bootstrap-header-conflict"), grown)

abbrev pub persisted_added : String → Catalog → Checked (HostSessionHeader × Catalog) → Inspected
persisted_added id catalog (err reason) = (err (failure reason), catalog)
persisted_added id catalog (ok (h, grown)) =
    if h.id == id then (ok (resolver_header h), grown) else (ok missing, grown)

abbrev pub persisted_answer : String → Catalog → Option RawHeader → Inspected
persisted_answer id catalog none = (ok missing, catalog)
persisted_answer id catalog (some raw) = persisted_added id catalog (add_header raw catalog)

-- From the call of the persistence on.
abbrev pub from_persistence : Bool → String → Catalog → Answer (Option RawHeader) → Inspected
from_persistence is_aborted id catalog throws =
    if is_aborted
    then (err persistence_error, catalog)
    else (err (failure "bootstrap-lineage-incomplete"), catalog)
from_persistence is_aborted id catalog (answers o) =
    if is_aborted then (err signal_error, catalog) else persisted_answer id catalog o

abbrev pub from_cache : InspectCall → Catalog → Option HostSessionHeader → Inspected
from_cache call catalog (some cached) = (ok (resolver_header cached), catalog)
from_cache call catalog none =
    if call.is_aborted 1
    then (err signal_error, catalog)
    else from_persistence (call.is_aborted 2) call.session_id catalog call.inspected

abbrev pub from_live : InspectCall → Catalog → Answer (Option HostSession) → Inspected
from_live call catalog throws = (err (failure "bootstrap-session-read-unavailable"), catalog)
from_live call catalog (answers none) = from_cache call catalog (lookup call.session_id catalog)
from_live call catalog (answers (some live)) =
    live_added live call.session_id catalog (add_header live.header catalog)

-- `BootstrapHeaders.inspect`.
unfoldable pub inspect_header : InspectCall → Catalog → Inspected
unfolding add_header
inspect_header call catalog =
    if call.is_aborted 0 then (err signal_error, catalog) else from_live call catalog call.get

-- The catalog after a list of calls.
unfoldable pub inspect_all : List InspectCall → Catalog → Catalog
unfolding inspect_header
inspect_all [] catalog = catalog
inspect_all (call ∷ calls) catalog = inspect_all calls (inspect_header call catalog).1
