-- ===== src/Guard.antt =====
-- packages/dsh-subagent-admission/src/host/process-guard.ts: the lock directory by which one process
-- owns the admission state. The file system and the process table are not this repository's: a
-- program is given by the calls that it makes, and goes on for every answer.
pub mod Owner
pub mod Calls
pub mod Acquire
pub mod Release
pub mod Claims
pub mod Attempts
pub mod Pinned
pub mod Matches
pub mod Removal
use dsh_subagent_admission.Prelude.{
  ℕ, zero, suc, String, Option, none, some, Bool, true, false, ◌==◌, ◌&&◌, ◌||◌, not, nat_eq,
  if◌then◌else◌, Result, ok, err,
}
use dsh_subagent_admission.Guard.Owner.{OwnerRecord, Json, parse_owner}
use dsh_subagent_admission.Guard.Calls.{
  Errno, enoent, eexist, enotdir, eloop, esrch, other_errno, LockPath, lock, quarantine, release_of,
  Target, directory, owner_file, temp_file, tombstone, Stats, Action, mkdir, open_new, open_read,
  sync, close, remove, write, rename, probe, StatKind, by_path, by_handle, Io, pure, act, stat,
  read, ◌>>=◌,
}

pub data OwnershipUnavailable : Type 0 where
  owner_alive owner_corrupt owner_lost owner_io : OwnershipUnavailable

pub record FileSystemIdentity : Type 0 where
  pub dev : ℕ
  pub ino : ℕ

-- `released` is a variable of the object; it is passed on by the programs that set it.
pub record ProcessOwnershipGuard : Type 0 where
  pub owner : OwnerRecord
  pub directory_identity : FileSystemIdentity
  pub owner_identity : FileSystemIdentity

abbrev pub is_enoent : Errno → Bool
is_enoent enoent = true
is_enoent eexist = false
is_enoent enotdir = false
is_enoent eloop = false
is_enoent esrch = false
is_enoent other_errno = false

abbrev pub is_eexist : Errno → Bool
is_eexist eexist = true
is_eexist enoent = false
is_eexist enotdir = false
is_eexist eloop = false
is_eexist esrch = false
is_eexist other_errno = false

-- `matchesIdentity`.
abbrev pub matches_identity : Stats → FileSystemIdentity → Bool
matches_identity s identity = nat_eq s.dev identity.dev && nat_eq s.ino identity.ino

-- What `readOwner` finds.
pub data OwnerRead : Type 0 where
  owner_found : OwnerRecord → OwnerRead
  owner_missing owner_unreadable owner_failed : OwnerRead

pub data OwnerInspection : Type 0 where
  is_alive is_corrupt has_io_error is_missing : OwnerInspection
  is_dead : OwnerRecord → OwnerInspection

pub data PinnedOwner : Type 0 where
  pinned : OwnerRecord → PinnedOwner
  is_lost pin_failed : PinnedOwner

-- The `catch` of `readPinnedOwner`.
abbrev pub pinned_error : Errno → PinnedOwner
pinned_error enoent = is_lost
pinned_error enotdir = is_lost
pinned_error eloop = is_lost
pinned_error eexist = pin_failed
pinned_error esrch = pin_failed
pinned_error other_errno = pin_failed

abbrev pub is_own_directory : ProcessOwnershipGuard → Stats → Bool
is_own_directory g s =
    s.is_directory && not s.is_symbolic_link && matches_identity s g.directory_identity

abbrev pub is_own_file : ProcessOwnershipGuard → Stats → Bool
is_own_file g s = s.is_file && not s.is_symbolic_link && matches_identity s g.owner_identity

-- The test of the opened file, which is no link.
abbrev pub is_own_handle : ProcessOwnershipGuard → Stats → Bool
is_own_handle g s = s.is_file && matches_identity s g.owner_identity

-- One check of `readPinnedOwner`.
abbrev pub checked : (Stats → Bool) → Io PinnedOwner → Result Errno Stats → Io PinnedOwner
checked test next (err e) = pure (pinned_error e)
checked test next (ok s) = if test s then next else pure is_lost

-- A check while the handle is open: it is closed in any case.
abbrev pub checked_open :
    Target → (Stats → Bool) → Io PinnedOwner → Result Errno Stats → Io PinnedOwner
checked_open file test next (err e) = act (close file) (λ _. pure (pinned_error e))
checked_open file test next (ok s) = if test s then next else act (close file) (λ _. pure is_lost)

abbrev pub pinned_text : Option OwnerRecord → PinnedOwner
pinned_text none = is_lost
pinned_text (some owner) = pinned owner

abbrev pub read_parsed : Option OwnerRecord → OwnerRead
read_parsed none = owner_unreadable
read_parsed (some owner) = owner_found owner

module _ (parse_json : String → Option Json) where
  abbrev pub read_owner_text : Result Errno String → OwnerRead
  read_owner_text (err e) = if is_enoent e then owner_missing else owner_failed
  read_owner_text (ok text) = read_parsed (parse_owner parse_json text)

  -- `readOwner`.
  unfoldable pub read_owner : LockPath → Io OwnerRead
  read_owner path = read (owner_file path) (λ r. pure (read_owner_text r))

  -- `probePid`, with the inspection that follows from it.
  abbrev pub probed : OwnerRecord → Result Errno (Unit {0}) → OwnerInspection
  probed owner (ok _) = is_alive
  probed owner (err esrch) = is_dead owner
  probed owner (err enoent) = is_alive
  probed owner (err eexist) = is_alive
  probed owner (err enotdir) = is_alive
  probed owner (err eloop) = is_alive
  probed owner (err other_errno) = is_alive

  abbrev pub inspect_read : OwnerRead → Io OwnerInspection
  inspect_read (owner_found owner) = act (probe owner.pid) (λ r. pure (probed owner r))
  inspect_read owner_failed = pure has_io_error
  inspect_read owner_missing = pure is_corrupt
  inspect_read owner_unreadable = pure is_corrupt

  abbrev pub inspect_stats : Result Errno Stats → Io OwnerInspection
  inspect_stats (err e) = if is_enoent e then pure is_missing else pure has_io_error
  inspect_stats (ok s) =
      if not s.is_directory || s.is_symbolic_link
      then pure has_io_error
      else read_owner lock >>= inspect_read

  -- `inspectExistingOwner`.
  unfoldable pub inspect_existing_owner : Io OwnerInspection
  unfolding read_owner
  inspect_existing_owner = stat by_path (directory lock) inspect_stats

  -- `readPinnedOwner` from the second `lstat` of the owner file on, when the text was read.
  unfoldable pub pin_again : ProcessOwnershipGuard → LockPath → String → Io PinnedOwner
  pin_again g base text = stat by_path (owner_file base) (
      checked (is_own_file g) (
        stat by_path (directory base)
          (checked (is_own_directory g) (pure (pinned_text (parse_owner parse_json text))))))

  abbrev pub pin_text : ProcessOwnershipGuard → LockPath → Result Errno String → Io PinnedOwner
  pin_text g base (err e) = act (close (owner_file base)) (λ _. pure (pinned_error e))
  pin_text g base (ok text) = act (close (owner_file base)) (λ _. pin_again g base text)

  abbrev pub pin_opened :
      ProcessOwnershipGuard → LockPath → Result Errno (Unit {0}) → Io PinnedOwner
  pin_opened g base (err e) = pure (pinned_error e)
  pin_opened g base (ok _) =
      stat by_handle (owner_file base) (
        checked_open (owner_file base) (is_own_handle g) (read (owner_file base) (pin_text g base)))

  -- `readPinnedOwner`.
  unfoldable pub read_pinned_owner : ProcessOwnershipGuard → LockPath → Io PinnedOwner
  unfolding pin_again
  read_pinned_owner g base = stat by_path (directory base) (
      checked (is_own_directory g) (
        stat by_path (owner_file base)
          (checked (is_own_file g) (act (open_read (owner_file base)) (pin_opened g base)))))

  -- `existing.record.nonce === this.record.nonce`.
  abbrev pub is_own_pin : ProcessOwnershipGuard → PinnedOwner → Bool
  is_own_pin g (pinned owner) = owner.nonce == g.owner.nonce
  is_own_pin g is_lost = false
  is_own_pin g pin_failed = false

  abbrev pub held : ProcessOwnershipGuard → PinnedOwner → Result OwnershipUnavailable (Unit {0})
  held g pin_failed = err owner_io
  held g is_lost = err owner_lost
  held g (pinned owner) = if owner.nonce == g.owner.nonce then ok tt else err owner_lost

  -- `assertHeld`.
  unfoldable pub assert_held :
      Bool → ProcessOwnershipGuard → Io (Result OwnershipUnavailable (Unit {0}))
  unfolding read_pinned_owner
  assert_held true g = pure (err owner_lost)
  assert_held false g = read_pinned_owner g lock >>= λ existing. pure (held g existing)
