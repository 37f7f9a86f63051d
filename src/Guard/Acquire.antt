-- ===== src/Guard/Acquire.antt =====
-- process-guard.ts, `acquire` with `publishOwner` and `quarantineDeadOwner`.
use dsh_subagent_admission.Prelude.{
  ℕ, zero, suc, String, Option, none, some, Bool, true, false, ◌||◌, not, if◌then◌else◌, Result, ok,
  err,
}
use dsh_subagent_admission.Guard.Owner.{OwnerRecord, Json}
use dsh_subagent_admission.Guard.Calls.{
  Errno, lock, quarantine, Target, directory, owner_file, temp_file, Stats, mkdir, open_new, sync,
  close, remove, write, rename, by_path, Io, pure, act, stat, ◌>>=◌,
}
use dsh_subagent_admission.Guard.{
  OwnershipUnavailable, owner_alive, owner_corrupt, owner_io, ProcessOwnershipGuard, is_enoent,
  is_eexist, OwnerInspection, is_alive, is_corrupt, has_io_error, is_missing, is_dead, PinnedOwner,
  is_own_pin, inspect_existing_owner, read_pinned_owner,
}

-- The `finally` of `publishOwner` after an error.
abbrev pub give_up_open : Target → Io Bool
give_up_open temp = act (close temp) (λ _. act (remove temp) (λ _. pure false))

abbrev pub removed_temp : Bool → Result Errno (Unit {0}) → Io Bool
removed_temp is_renamed (ok _) = pure is_renamed
removed_temp is_renamed (err e) = pure false

abbrev pub renamed_temp : Target → Result Errno (Unit {0}) → Io Bool
renamed_temp temp (ok _) = act (remove temp) (removed_temp true)
renamed_temp temp (err e) = act (remove temp) (removed_temp false)

abbrev pub closed_temp : Target → Result Errno (Unit {0}) → Io Bool
closed_temp temp (ok _) = act (rename temp (owner_file lock)) (renamed_temp temp)
closed_temp temp (err e) = give_up_open temp

abbrev pub synced_temp : Target → Result Errno (Unit {0}) → Io Bool
synced_temp temp (ok _) = act (close temp) (closed_temp temp)
synced_temp temp (err e) = give_up_open temp

abbrev pub written_temp : Target → Result Errno (Unit {0}) → Io Bool
written_temp temp (ok _) = act (sync temp) (synced_temp temp)
written_temp temp (err e) = give_up_open temp

abbrev pub opened_temp : Target → OwnerRecord → Result Errno (Unit {0}) → Io Bool
opened_temp temp owner (ok _) = act (write temp owner) (written_temp temp)
opened_temp temp owner (err e) = pure false

-- `publishOwner`: whether it returns.
unfoldable pub publish_owner : OwnerRecord → Io Bool
publish_owner owner =
    let temp = temp_file lock owner.nonce in act (open_new temp) (opened_temp temp owner)

-- `none` lets the loop go on.
abbrev pub Failure : Type 0
Failure = Option OwnershipUnavailable

abbrev pub source_seen : Result Errno Stats → Io Failure
source_seen (ok s) = pure (some owner_io)
source_seen (err e) = if is_enoent e then pure none else pure (some owner_io)

abbrev pub quarantined : Result Errno (Unit {0}) → Io Failure
quarantined (ok _) = pure none
quarantined (err e) = if is_enoent e then pure none else stat by_path (directory lock) source_seen

abbrev pub destination_seen : OwnerRecord → Result Errno Stats → Io Failure
destination_seen owner (ok s) = pure (some owner_io)
destination_seen owner (err e) =
    if is_enoent e
    then act (rename (directory lock) (directory (quarantine owner.nonce))) quarantined
    else pure (some owner_io)

-- `quarantineDeadOwner`.
unfoldable pub quarantine_dead_owner : OwnerRecord → Io Failure
quarantine_dead_owner owner =
    stat by_path (directory (quarantine owner.nonce)) (destination_seen owner)

abbrev pub Acquired : Type 0
Acquired = Result OwnershipUnavailable ProcessOwnershipGuard

abbrev pub guard_of : OwnerRecord → Stats → Stats → ProcessOwnershipGuard
guard_of owner d s = record {
  owner = owner;
  directory_identity = record { dev = d.dev; ino = d.ino };
  owner_identity = record { dev = s.dev; ino = s.ino };
}

module _ (parse_json : String → Option Json) where
  -- What the loop does after it found the directory.
  abbrev pub after_inspection : OwnerInspection → Io Failure
  after_inspection is_alive = pure (some owner_alive)
  after_inspection is_corrupt = pure (some owner_corrupt)
  after_inspection has_io_error = pure (some owner_io)
  after_inspection is_missing = pure none
  after_inspection (is_dead owner) = quarantine_dead_owner owner

  abbrev pub confirmed : ProcessOwnershipGuard → PinnedOwner → Acquired
  confirmed g existing = if is_own_pin parse_json g existing then ok g else err owner_io

  abbrev pub owner_stats : OwnerRecord → Stats → Result Errno Stats → Io Acquired
  owner_stats owner d (err e) = pure (err owner_io)
  owner_stats owner d (ok s) =
      if not s.is_file || s.is_symbolic_link
      then pure (err owner_io)
      else read_pinned_owner parse_json (guard_of owner d s) lock >>= λ existing.
          pure (confirmed (guard_of owner d s) existing)

  abbrev pub directory_stats : OwnerRecord → Result Errno Stats → Io Acquired
  directory_stats owner (err e) = pure (err owner_io)
  directory_stats owner (ok d) =
      if not d.is_directory || d.is_symbolic_link
      then pure (err owner_io)
      else stat by_path (owner_file lock) (owner_stats owner d)

  abbrev pub after_publish : OwnerRecord → Bool → Io Acquired
  after_publish owner false = pure (err owner_io)
  after_publish owner true = stat by_path (directory lock) (directory_stats owner)

  -- `acquire` after its `mkdir` succeeded.
  unfoldable pub claim_directory : OwnerRecord → Io Acquired
  unfolding publish_owner
  claim_directory owner = publish_owner owner >>= after_publish owner

  abbrev pub retry_or : Io Acquired → Failure → Io Acquired
  retry_or again none = again
  retry_or again (some reason) = pure (err reason)

  abbrev pub after_mkdir : OwnerRecord → Io Acquired → Result Errno (Unit {0}) → Io Acquired
  after_mkdir owner again (ok _) = claim_directory owner
  after_mkdir owner again (err e) =
      if is_eexist e
      then (inspect_existing_owner parse_json >>= after_inspection) >>= retry_or again
      else pure (err owner_io)

  -- The loop of `acquire`, for as many attempts.
  unfoldable pub acquire_attempts : ℕ → OwnerRecord → Io Acquired
  unfolding claim_directory quarantine_dead_owner
  acquire_attempts zero owner = pure (err owner_io)
  acquire_attempts (suc n) owner =
      act (mkdir (directory lock)) (after_mkdir owner (acquire_attempts n owner))

  -- `acquire`; `owner` is what `makeOwner` makes after `mkdir`.
  unfoldable pub acquire : Bool → OwnerRecord → Io Acquired
  unfolding acquire_attempts
  acquire is_absolute owner = if is_absolute then acquire_attempts 3 owner else pure (err owner_io)
