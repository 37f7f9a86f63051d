-- ===== src/Service/Bootstrap/Quiet.antt =====
-- service.ts, `assertNoLiveSubagents`: what a list of live sessions is when nothing was thrown.
use dsh_subagent_admission.Prelude.{
  ◌≡◌, false, List, [], ◌∷◌, All, ◌==◌, ◌>>=◌, eq_iff, inl, inr, Bool-cases,
}
use dsh_subagent_admission.Telemetry.Snapshot.{Answer, answers, throws}
use dsh_subagent_admission.Service.Bootstrap.{
  HostSessionHeader, HostSession, normalized_header, check_session, check_sessions,
  assert_no_live_subagents,
}
use dsh_subagent_admission.Service.Bootstrap.Ensures.{Ensures, Ensures-bind, Ensures-map}
use dsh_subagent_admission.Service.Bootstrap.Listed.{IsHeaderOf, normalized_header-IsHeaderOf}

-- The session exists under its own id, its header is sound, and it is no subagent.
abbrev pub IsQuiet : HostSession → Type 0
IsQuiet session =
    (h : HostSessionHeader) × IsHeaderOf session.header h
    × (session.id ≡ h.id)
    × (h.is_subagent ≡ false)

check_session-IsQuiet :
    (session : HostSession) (h : HostSessionHeader)
    → IsHeaderOf session.header h
    → Ensures (λ (u : Unit {0}). IsQuiet session) (check_session session.id h)
check_session-IsQuiet session h own = elim (Bool-cases (session.id == h.id)) [
  | inl same ↦ rw same (elim (Bool-cases h.is_subagent) [
    | inl sub ↦ rw sub tt
    | inr not_sub ↦ rw not_sub (h, own, (eq_iff session.id h.id).0 same, not_sub)
  ])
  | inr differ ↦ rw differ tt
]

checked-IsQuiet :
    (session : HostSession)
    → Ensures
        (λ (u : Unit {0}). IsQuiet session)
        (normalized_header session.header >>= check_session session.id)
checked-IsQuiet session =
    Ensures-bind (IsHeaderOf session.header) (λ (u : Unit {0}). IsQuiet session)
      (normalized_header session.header) (check_session session.id)
      (normalized_header-IsHeaderOf session.header) (check_session-IsQuiet session)

check_sessions-IsQuiet :
    (sessions : List HostSession)
    → Ensures (λ (u : Unit {0}). All IsQuiet sessions) (check_sessions sessions)
unfolding check_sessions
check_sessions-IsQuiet [] = tt
check_sessions-IsQuiet (session ∷ sessions) =
    Ensures-bind (λ (u : Unit {0}). IsQuiet session)
      (λ (u : Unit {0}). All IsQuiet (session ∷ sessions))
      (normalized_header session.header >>= check_session session.id) (λ u. check_sessions sessions)
      (checked-IsQuiet session)
      (λ u quiet.
        Ensures-map (λ (v : Unit {0}). All IsQuiet sessions)
          (λ (v : Unit {0}). All IsQuiet (session ∷ sessions)) (check_sessions sessions)
          (check_sessions-IsQuiet sessions) (λ v rest. (quiet, rest)))

-- What `sessions.list` answered, each of them quiet.
abbrev pub AreQuiet : Answer (List HostSession) → Type 0
AreQuiet throws = ⊥
AreQuiet (answers live) = All IsQuiet live

pub assert_no_live_subagents-AreQuiet :
    (later : Answer (List HostSession))
    → Ensures (λ (u : Unit {0}). AreQuiet later) (assert_no_live_subagents later)
unfolding assert_no_live_subagents
assert_no_live_subagents-AreQuiet throws = tt
assert_no_live_subagents-AreQuiet (answers live) = check_sessions-IsQuiet live
