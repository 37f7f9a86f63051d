-- ===== src/Examples/Bootstrap.antt =====
-- service.ts at concrete inputs: a bootstrap.
use dsh_subagent_admission.Prelude.{
  ◌≡◌, Result, refl, String, true, false, ◌==◌, if◌then◌else◌, List, [], ◌∷◌, ok, err, Dict, lookup,
  insert,
}
use dsh_subagent_admission.Telemetry.Values.{text}
use dsh_subagent_admission.Telemetry.Snapshot.{answers}
use dsh_subagent_admission.Resolver.{ResolvedLineage}
use dsh_subagent_admission.Service.Bootstrap.{
  absent, parent_value, RawHeader, HostSession, Checked, Catalog, ResolveError, bootstrap_sessions,
}
use dsh_subagent_admission.Service.Bootstrap.Ensures.{Ensures}
use dsh_subagent_admission.Service.Bootstrap.Agreement.{AgreesWith, bootstrap_agrees}

abbrev parent_header : RawHeader
parent_header = record { id = text "r"; parent_session = absent; is_subagent = false }

abbrev child_header : RawHeader
child_header = record {
  id = text "c";
  parent_session = parent_value (text "r");
  is_subagent = true;
}

abbrev live : HostSession
live = record { id = "r"; header = parent_header }

abbrev to_root : String → Result ResolveError ResolvedLineage
to_root id =
    if id == "r"
    then ok (record { root_session_id = "r"; lineage = "r" ∷ [] })
    else ok (record { root_session_id = "r"; lineage = "c" ∷ "r" ∷ [] })

-- A persisted child and its live root.
bootstrap_agrees_example :
    Ensures
      (AgreesWith to_root (answers (child_header ∷ [])) (answers (live ∷ [])) (answers (live ∷ [])))
      (bootstrap_sessions to_root
        (answers (child_header ∷ []))
        (answers (live ∷ []))
        (answers (live ∷ [])))
bootstrap_agrees_example =
    bootstrap_agrees to_root (answers (child_header ∷ [])) (answers (live ∷ []))
      (answers (live ∷ []))

abbrev found_roots : Checked (Catalog × Dict String) → List (String × String)
found_roots (ok (catalog, roots)) = roots
found_roots (err reason) = []

bootstrap_finds_roots :
    found_roots (
      bootstrap_sessions to_root
        (answers (child_header ∷ []))
        (answers (live ∷ []))
        (answers (live ∷ [])))
    ≡ ("c", "r") ∷ ("r", "r") ∷ []
unfolding bootstrap_sessions lookup insert
bootstrap_finds_roots = refl

-- A live subagent ends the bootstrap.
subagent_is_refused :
    bootstrap_sessions to_root
      (answers [])
      (answers [])
      (answers (record { id = "c"; header = child_header } ∷ []))
    ≡ err "bootstrap-live-subagent-present"
unfolding bootstrap_sessions
subagent_is_refused = refl
