-- ===== src/Guard/Matches.antt =====
-- process-guard.ts, `matchesOwnedFile`: what it saw when the file fits.
use dsh_subagent_admission.Prelude.{◌≡◌, refl, true, ◌∷◌, inl, inr, Bool-cases, Result, ok, err}
use dsh_subagent_admission.Guard.Calls.{
  Errno, enoent, eexist, enotdir, eloop, esrch, other_errno, Target, Stats, Action, open_read,
  close, by_path, saw, Trace, Holds,
}
use dsh_subagent_admission.Guard.{ProcessOwnershipGuard, is_own_file, is_own_handle}
use dsh_subagent_admission.Guard.Release.{
  Match, fits, differs, unknown, file_error, last_match, handle_match, opened_match, first_match,
  matches_owned_file,
}

module _ (g : ProcessOwnershipGuard) (file : Target) where
  -- The latest call saw the guard's own owner file at this name.
  abbrev pub SawOwnFile : Trace → Type 0
  SawOwnFile t =
      (s : Stats) × (before : Trace) × (t ≡ saw by_path file (ok s) ∷ before)
      × (is_own_file g s ≡ true)

  abbrev pub IfFits : Trace → Match → Type 0
  IfFits t fits = SawOwnFile t
  IfFits t differs = Unit
  IfFits t unknown = Unit

  file_error-IfFits : (t : Trace) (e : Errno) → IfFits t (file_error e)
  file_error-IfFits t enoent = tt
  file_error-IfFits t enotdir = tt
  file_error-IfFits t eloop = tt
  file_error-IfFits t eexist = tt
  file_error-IfFits t esrch = tt
  file_error-IfFits t other_errno = tt

  last_match-IfFits :
      (t : Trace) (r : Result Errno Stats) → IfFits (saw by_path file r ∷ t) (last_match g r)
  last_match-IfFits t (err e) = file_error-IfFits _ e
  last_match-IfFits t (ok s) = elim (Bool-cases (is_own_file g s)) [
    | inl own ↦ rw own (s, t, refl, own)
    | inr differ ↦ rw differ tt
  ]

  module _ (P : Trace → Action → Type 0) (opens : (u : Trace) → P u (open_read file))
      (closes : (u : Trace) → P u (close file)) where
    handle_match-Holds :
        (t : Trace) (r : Result Errno Stats) → Holds P IfFits t (handle_match g file r)
    handle_match-Holds t (err e) = (closes t, λ c. file_error-IfFits _ e)
    handle_match-Holds t (ok s) = elim (Bool-cases (is_own_handle g s)) [
      | inl own ↦ rw own (closes t, λ c r. last_match-IfFits _ r)
      | inr differ ↦ rw differ (closes t, λ c. tt)
    ]

    opened_match-Holds :
        (t : Trace) (r : Result Errno (Unit {0})) → Holds P IfFits t (opened_match g file r)
    opened_match-Holds t (err e) = file_error-IfFits _ e
    opened_match-Holds t (ok _) = λ r. handle_match-Holds _ r

    first_match-Holds :
        (t : Trace) (r : Result Errno Stats) → Holds P IfFits t (first_match g file r)
    first_match-Holds t (err e) = file_error-IfFits _ e
    first_match-Holds t (ok s) = elim (Bool-cases (is_own_file g s)) [
      | inl own ↦ rw own (opens t, λ r. opened_match-Holds _ r)
      | inr differ ↦ rw differ tt
    ]

    pub matches_owned_file-Holds : (t : Trace) → Holds P IfFits t (matches_owned_file g file)
    unfolding matches_owned_file
    matches_owned_file-Holds t = λ r. first_match-Holds _ r
