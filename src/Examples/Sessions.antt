-- ===== src/Examples/Sessions.antt =====
-- service.ts at concrete inputs: the headers of sessions, and the lineage of a child.
use dsh_subagent_admission.Prelude.{
  ◌≡◌, refl, subst, String, Option, some, none, Bool, true, false, ◌==◌, if◌then◌else◌, [], ◌∷◌,
  Result, ok, err, lookup, insert,
}
use dsh_subagent_admission.Resolver.{is_visited, Inspection, rejects, missing, header}
use dsh_subagent_admission.Telemetry.Values.{text}
use dsh_subagent_admission.Telemetry.Snapshot.{Answer, answers, throws}
use dsh_subagent_admission.Service.Bootstrap.{absent, parent_value, Catalog, RawHeader, HostSession}
use dsh_subagent_admission.Service.Bootstrap.Inspect.{
  InspectCall, InspectError, failure, inspect_header, inspect_all,
}
use dsh_subagent_admission.Service.Bootstrap.Inspect.Parents.{inspected_parent_is_final}
use dsh_subagent_admission.Service.Audit.Lineage.{
  walk, audit_lineage, EndsWell, IsLineage, audit_walk_ends,
}

abbrev root_header : RawHeader
root_header = record { id = text "r"; parent_session = absent; is_subagent = false }

abbrev child_of : String → RawHeader
child_of parent = record {
  id = text "c";
  parent_session = parent_value (text parent);
  is_subagent = true;
}

abbrev root : HostSession
root = record { id = "r"; header = root_header }

abbrev child : HostSession
child = record { id = "c"; header = child_of "r" }

-- The child is persisted, and is read from the headers when it is asked for again.
abbrev persisted_child : InspectCall
persisted_child = record {
  session_id = "c";
  get = answers none;
  inspected = answers (some (child_of "r"));
  is_aborted = λ n. false;
}

abbrev live_root : InspectCall
live_root = record {
  session_id = "r";
  get = answers (some root);
  inspected = throws;
  is_aborted = λ n. false;
}

abbrev child_again : InspectCall
child_again = record {
  session_id = "c";
  get = answers none;
  inspected = answers (some (child_of "other"));
  is_aborted = λ n. false;
}

abbrev answered_parent : Result InspectError Inspection → Option String
answered_parent (err e) = none
answered_parent (ok rejects) = none
answered_parent (ok missing) = none
answered_parent (ok (header id parent)) = parent

abbrev headers_between : Catalog
headers_between = inspect_all (live_root ∷ []) (inspect_header persisted_child []).1

inspected_parent_is_final_example :
    answered_parent (inspect_header child_again headers_between).0
    ≡ answered_parent (inspect_header persisted_child []).0
unfolding inspect_header inspect_all lookup insert
inspected_parent_is_final_example =
    inspected_parent_is_final persisted_child child_again (live_root ∷ []) [] "c" "c"
      (answered_parent (inspect_header persisted_child []).0)
      (answered_parent (inspect_header child_again headers_between).0) refl refl refl

parent_is_answered : answered_parent (inspect_header child_again headers_between).0 ≡ some "r"
unfolding inspect_header inspect_all lookup insert
parent_is_answered = refl

-- A live header with another parent is refused.
other_parent_is_refused :
    (inspect_header
      (record child_again { get = answers (some (record { id = "c"; header = child_of "o" })) })
      (inspect_header persisted_child []).1).0
    ≡ err (failure "bootstrap-header-conflict")
unfolding inspect_header lookup insert
other_parent_is_refused = refl

abbrev family : String → Answer (Option HostSession)
family id =
    if id == "c"
    then answers (some child)
    else if id == "r"
    then answers (some root)
    else answers none

found_session : (a b : HostSession) → answers (some a) ≡ answers (some b) → a ≡ b
found_session a b e = cc

pick-is_listed :
    (is_child is_root : Bool) (s : HostSession)
    → (if is_child
        then answers (some child)
        else if is_root
        then answers (some root)
        else answers none)
      ≡ answers (some s)
    → is_visited s.id ("c" ∷ "r" ∷ []) ≡ true
pick-is_listed true is_root s e =
    subst (λ (x : HostSession). is_visited x.id ("c" ∷ "r" ∷ []) ≡ true) (found_session child s e)
      refl
pick-is_listed false true s e =
    subst (λ (x : HostSession). is_visited x.id ("c" ∷ "r" ∷ []) ≡ true) (found_session root s e)
      refl
pick-is_listed false false s e = cc

audit_walk_ends_example :
    EndsWell family child (walk family 3 [] child)
    × IsLineage family child (audit_lineage family 3 "c")
audit_walk_ends_example =
    audit_walk_ends family ("c" ∷ "r" ∷ []) "c" child
      (λ parent s e. pick-is_listed (parent == "c") (parent == "r") s e) refl refl

finds_root : audit_lineage family 3 "c" ≡ some (record { parent_id = some "r"; root_id = "r" })
unfolding audit_lineage
finds_root = refl

-- Two sessions that are each other's parent.
abbrev cycle : String → Answer (Option HostSession)
cycle id = answers (
    some (record {
      id = id;
      header = record {
        id = text id;
        parent_session = parent_value (text (if id == "a" then "b" else "a"));
        is_subagent = true;
      };
    }))

cycle_stops : audit_lineage cycle 3 "a" ≡ none
unfolding audit_lineage
cycle_stops = refl
