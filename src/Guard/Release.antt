-- ===== src/Guard/Release.antt =====
-- process-guard.ts, `release`: the directory is moved aside before its owner file is removed. One call
-- runs at a time here; later calls join an attempt that runs.
use dsh_subagent_admission.Prelude.{
  String, Option, Bool, true, false, if◌then◌else◌, Result, ok, err,
}
use dsh_subagent_admission.Guard.Owner.{Json}
use dsh_subagent_admission.Guard.Calls.{
  Errno, enoent, eexist, enotdir, eloop, esrch, other_errno, LockPath, lock, release_of, Target,
  directory, owner_file, tombstone, Stats, open_read, close, rename, unlink, rmdir, by_path,
  by_handle, Io, pure, act, stat, ◌>>=◌,
}
use dsh_subagent_admission.Guard.{
  ProcessOwnershipGuard, is_enoent, PinnedOwner, pinned, is_lost, pin_failed, is_own_directory,
  is_own_file, is_own_handle, is_own_pin, read_pinned_owner,
}

-- `performRelease` sets `released`, or throws `owner-io`.
pub data ReleaseEnd : Type 0 where
  released release_failed : ReleaseEnd

-- The answer of a check of what was moved: it fits, it does not, or it cannot be told.
pub data Match : Type 0 where
  fits differs unknown : Match

abbrev pub directory_error : Errno → Match
directory_error enoent = differs
directory_error enotdir = differs
directory_error eloop = unknown
directory_error eexist = unknown
directory_error esrch = unknown
directory_error other_errno = unknown

abbrev pub file_error : Errno → Match
file_error enoent = differs
file_error enotdir = differs
file_error eloop = differs
file_error eexist = unknown
file_error esrch = unknown
file_error other_errno = unknown

abbrev pub match_if : Bool → Match
match_if true = fits
match_if false = differs

abbrev pub directory_match : ProcessOwnershipGuard → Result Errno Stats → Match
directory_match g (err e) = directory_error e
directory_match g (ok s) = match_if (is_own_directory g s)

-- `matchesOwnedDirectory`.
unfoldable pub matches_owned_directory : ProcessOwnershipGuard → LockPath → Io Match
matches_owned_directory g path = stat by_path (directory path) (λ r. pure (directory_match g r))

abbrev pub last_match : ProcessOwnershipGuard → Result Errno Stats → Match
last_match g (err e) = file_error e
last_match g (ok s) = match_if (is_own_file g s)

abbrev pub handle_match : ProcessOwnershipGuard → Target → Result Errno Stats → Io Match
handle_match g file (err e) = act (close file) (λ _. pure (file_error e))
handle_match g file (ok s) =
    if is_own_handle g s
    then act (close file) (λ _. stat by_path file (λ r. pure (last_match g r)))
    else act (close file) (λ _. pure differs)

abbrev pub opened_match : ProcessOwnershipGuard → Target → Result Errno (Unit {0}) → Io Match
opened_match g file (err e) = pure (file_error e)
opened_match g file (ok _) = stat by_handle file (handle_match g file)

abbrev pub first_match : ProcessOwnershipGuard → Target → Result Errno Stats → Io Match
first_match g file (err e) = pure (file_error e)
first_match g file (ok s) =
    if is_own_file g s then act (open_read file) (opened_match g file) else pure differs

-- `matchesOwnedFile`.
unfoldable pub matches_owned_file : ProcessOwnershipGuard → Target → Io Match
matches_owned_file g file = stat by_path file (first_match g file)

-- `lstat` of a name that must be free.
abbrev pub if_free : Io ReleaseEnd → Result Errno Stats → Io ReleaseEnd
if_free next (ok s) = pure release_failed
if_free next (err e) = if is_enoent e then next else pure release_failed

-- A step that was done, whose object had gone, or that failed.
abbrev pub if_done : Io ReleaseEnd → Result Errno (Unit {0}) → Io ReleaseEnd
if_done next (ok _) = next
if_done next (err e) = if is_enoent e then pure released else pure release_failed

abbrev pub if_fits : Io ReleaseEnd → Match → Io ReleaseEnd
if_fits next fits = next
if_fits next differs = pure released
if_fits next unknown = pure release_failed

abbrev pub rmdir_end : Result Errno (Unit {0}) → Io ReleaseEnd
rmdir_end (ok _) = pure released
rmdir_end (err e) = if is_enoent e then pure released else pure release_failed

module _ (parse_json : String → Option Json) (g : ProcessOwnershipGuard) where
  abbrev pub moved : LockPath
  moved = release_of g.owner.nonce

  abbrev pub grave : Target
  grave = tombstone moved g.owner.nonce

  abbrev pub if_own : Io ReleaseEnd → PinnedOwner → Io ReleaseEnd
  if_own next pin_failed = pure release_failed
  if_own next is_lost = pure released
  if_own next (pinned owner) =
      if is_own_pin parse_json g (pinned owner) then next else pure released

  -- From the removal of the owner file on.
  unfoldable pub bury : Io ReleaseEnd
  bury = act (unlink grave) (if_done (act (rmdir (directory moved)) rmdir_end))

  -- From the check of the name of the tombstone on.
  unfoldable pub entomb : Io ReleaseEnd
  unfolding bury matches_owned_file
  entomb = stat by_path grave (
      if_free (
        act (rename (owner_file moved) grave)
          (if_done (matches_owned_file g grave >>= if_fits bury))))

  -- From the move of the directory on.
  unfoldable pub move_aside : Io ReleaseEnd
  unfolding entomb matches_owned_directory
  move_aside = act (rename (directory lock) (directory moved)) (
      if_done (
        matches_owned_directory g moved
        >>= if_fits (read_pinned_owner parse_json g moved >>= if_own entomb)))

  -- `performRelease`.
  unfoldable pub perform_release : Io ReleaseEnd
  unfolding move_aside
  perform_release =
      read_pinned_owner parse_json g lock
      >>= if_own (stat by_path (directory moved) (if_free move_aside))

  -- `release` of a guard that is not being released.
  unfoldable pub release : Bool → Io ReleaseEnd
  unfolding perform_release
  release true = pure released
  release false = perform_release
