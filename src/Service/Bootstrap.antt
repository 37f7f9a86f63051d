-- ===== src/Service/Bootstrap.antt =====
-- service.ts, `bootstrapSessions`: the catalog of session headers, and the root of every session, before
-- a strict service starts. What the session stores answer is an argument, and so is what the resolver
-- finds for a session; the order of the root ids, which only orders reads, is left out.
pub mod Ensures
pub mod Listed
pub mod Quiet
pub mod Roots
pub mod Agreement
pub mod Inspect
use dsh_subagent_admission.Prelude.{
  String, Option, none, some, Bool, true, false, List, [], ◌∷◌, ◌==◌, is_empty, not, if◌then◌else◌,
  Result, ok, err, ◌>>=◌, ◌>>◌, Dict, lookup, insert,
}
use dsh_subagent_admission.Resolver.{ResolvedLineage}
use dsh_subagent_admission.Telemetry.Values.{Value, text, not_text}
use dsh_subagent_admission.Telemetry.Snapshot.{Answer, answers, throws}

pub data RawParent : Type 0 where
  absent : RawParent
  parent_value : Value → RawParent

-- A header that is no object has no text as its id.
pub record RawHeader : Type 0 where
  pub id : Value
  pub parent_session : RawParent
  pub is_subagent : Bool

pub record HostSessionHeader : Type 0 where
  pub id : String
  pub parent_session : Option String
  pub is_subagent : Bool

pub record HostSession : Type 0 where
  pub id : String
  pub header : RawHeader

-- A failure is known by its reason.
abbrev pub Checked : Type 0 → Type 0
Checked A = Result String A

-- `normalizedParent`.
unfoldable pub normalized_parent : RawParent → Checked (Option String)
normalized_parent absent = ok none
normalized_parent (parent_value not_text) = err "bootstrap-header-invalid"
normalized_parent (parent_value (text s)) =
    if is_empty s then err "bootstrap-header-invalid" else ok (some s)

abbrev pub is_own_parent : String → Option String → Bool
is_own_parent id none = false
is_own_parent id (some parent) = parent == id

abbrev pub header_with : String → Bool → Option String → Checked HostSessionHeader
header_with id is_subagent parent =
    if is_own_parent id parent
    then err "bootstrap-lineage-incomplete"
    else ok (record { id = id; parent_session = parent; is_subagent = is_subagent })

abbrev pub header_of_id : Value → RawHeader → Checked HostSessionHeader
header_of_id not_text raw = err "bootstrap-header-invalid"
header_of_id (text id) raw =
    if is_empty id
    then err "bootstrap-header-invalid"
    else normalized_parent raw.parent_session >>= header_with id raw.is_subagent

-- `normalizedHeader`.
unfoldable pub normalized_header : RawHeader → Checked HostSessionHeader
unfolding normalized_parent
normalized_header raw = header_of_id raw.id raw

abbrev pub Catalog : Type 0
Catalog = Dict HostSessionHeader

abbrev pub is_same_parent : Option String → Option String → Bool
is_same_parent none none = true
is_same_parent none (some s) = false
is_same_parent (some s) none = false
is_same_parent (some s) (some u) = s == u

abbrev pub add_over :
    Option HostSessionHeader → HostSessionHeader → Catalog → Checked (HostSessionHeader × Catalog)
add_over none header catalog = ok (header, insert header.id header catalog)
add_over (some current) header catalog =
    if is_same_parent current.parent_session header.parent_session
    then ok (header, insert header.id header catalog)
    else err "bootstrap-header-conflict"

-- `BootstrapHeaders.add`.
unfoldable pub add_header : RawHeader → Catalog → Checked (HostSessionHeader × Catalog)
unfolding normalized_header
add_header raw catalog =
    normalized_header raw >>= λ header. add_over (lookup header.id catalog) header catalog

unfoldable pub add_persisted : List RawHeader → Catalog → Checked Catalog
unfolding add_header
add_persisted [] catalog = ok catalog
add_persisted (raw ∷ raws) catalog = add_header raw catalog >>= λ added. add_persisted raws added.1

-- `session.id === session.header?.id`.
abbrev pub is_id : String → Value → Bool
is_id id not_text = false
is_id id (text s) = id == s

unfoldable pub add_live : List HostSession → Catalog → Checked Catalog
unfolding add_header
add_live [] catalog = ok catalog
add_live (session ∷ sessions) catalog =
    (if is_id session.id session.header.id
      then add_header session.header catalog
      else err "bootstrap-header-conflict")
    >>= λ added. add_live sessions added.1

abbrev pub check_session : String → HostSessionHeader → Checked (Unit {0})
check_session id header =
    if not (id == header.id)
    then err "bootstrap-header-conflict"
    else if header.is_subagent
    then err "bootstrap-live-subagent-present"
    else ok tt

unfoldable pub check_sessions : List HostSession → Checked (Unit {0})
unfolding normalized_header
check_sessions [] = ok tt
check_sessions (session ∷ sessions) =
    (normalized_header session.header >>= check_session session.id) >> check_sessions sessions

-- `assertNoLiveSubagents`.
unfoldable pub assert_no_live_subagents : Answer (List HostSession) → Checked (Unit {0})
unfolding check_sessions
assert_no_live_subagents throws = err "bootstrap-live-state-unavailable"
assert_no_live_subagents (answers live) = check_sessions live

-- What `resolver.resolve` rejects with: a failure of the headers passes through it.
pub data ResolveError : Type 0 where
  bootstrap_failure : String → ResolveError
  other_error : ResolveError

abbrev pub put_over : Option String → String → String → Dict String → Checked (Dict String)
put_over none session root roots = ok (insert session root roots)
put_over (some current) session root roots =
    if current == root then ok (insert session root roots) else err "bootstrap-root-conflict"

-- The loop over a lineage.
unfoldable pub put_lineage : String → List String → Dict String → Checked (Dict String)
put_lineage root [] roots = ok roots
put_lineage root (session ∷ sessions) roots =
    put_over (lookup session roots) session root roots >>= put_lineage root sessions

abbrev pub put_resolved : Result ResolveError ResolvedLineage → Dict String → Checked (Dict String)
put_resolved (err (bootstrap_failure reason)) roots = err reason
put_resolved (err other_error) roots = err "bootstrap-lineage-incomplete"
put_resolved (ok r) roots = put_lineage r.root_session_id r.lineage roots

module _ (resolve : String → Result ResolveError ResolvedLineage) where
  -- The loop over `catalog.values()`.
  unfoldable pub resolve_all : Catalog → Dict String → Checked (Dict String)
  unfolding put_lineage
  resolve_all [] roots = ok roots
  resolve_all ((id, header) ∷ catalog) roots =
      put_resolved (resolve header.id) roots >>= resolve_all catalog

  abbrev pub bootstrap_listed :
      List RawHeader
      → List HostSession
      → Answer (List HostSession)
      → Checked (Catalog × Dict String)
  bootstrap_listed persisted live later = add_persisted persisted [] >>= λ catalog.
      add_live live catalog >>= λ full.
      assert_no_live_subagents later >>= λ _. resolve_all full [] >>= λ roots. ok (full, roots)

  abbrev pub with_lists :
      Answer (List RawHeader)
      → Answer (List HostSession)
      → Answer (List HostSession)
      → Checked (Catalog × Dict String)
  with_lists throws live later = err "bootstrap-session-list-unavailable"
  with_lists (answers persisted) throws later = err "bootstrap-session-list-unavailable"
  with_lists (answers persisted) (answers live) later = bootstrap_listed persisted live later

  -- `bootstrapSessions`: the catalog, and the root of each session. `sessions.list` is asked twice.
  unfoldable pub bootstrap_sessions :
      Answer (List RawHeader)
      → Answer (List HostSession)
      → Answer (List HostSession)
      → Checked (Catalog × Dict String)
  unfolding add_persisted add_live assert_no_live_subagents resolve_all
  bootstrap_sessions persisted live later = with_lists persisted live later
