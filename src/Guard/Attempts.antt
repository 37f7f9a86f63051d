-- ===== src/Guard/Attempts.antt =====
-- process-guard.ts, the attempts of `acquire`, and what an owner that is there does to them.
use dsh_subagent_admission.Prelude.{
  ℕ, zero, suc, ◌+◌, ◌≤◌, ◌≡◌, refl, ap, String, Option, none, some, Bool, true, false, [], ◌∷◌,
  ◌||◌, not, inl, inr, Bool-cases, Option-cases, Result, ok, err, arith,
}
use dsh_subagent_admission.Guard.Owner.{OwnerRecord, Json, parse_owner}
use dsh_subagent_admission.Guard.Calls.{
  Errno, enoent, eexist, enotdir, eloop, esrch, other_errno, lock, quarantine, Target, directory,
  owner_file, Stats, mkdir, rename, probe, by_path, Io, acted, saw, got, Trace, Holds, Holds-bind,
  ◌>>=◌,
}
use dsh_subagent_admission.Guard.{
  is_enoent, is_eexist, OwnerInspection, is_alive, is_corrupt, has_io_error, is_missing, is_dead,
  read_owner_text, read_owner, probed, inspect_read, inspect_stats, inspect_existing_owner,
}
use dsh_subagent_admission.Guard.Acquire.{
  Failure, source_seen, quarantined, destination_seen, quarantine_dead_owner, Acquired,
  after_inspection, retry_or, after_mkdir, acquire_attempts, acquire,
}
use dsh_subagent_admission.Guard.Claims.{
  mkdirs, claims, ClaimsSafely, IfAcquired, claim_directory-Holds,
}

module _ (parse_json : String → Option Json) (owner : OwnerRecord) (m : ℕ) where
  -- An owner that counts as dead was read and probed in the latest two calls.
  abbrev WasDead : Trace → OwnerInspection → Type 0
  WasDead t (is_dead dead) =
      (text : String) × (before : Trace) × (t
        ≡ acted (probe dead.pid) (err esrch) ∷ got (owner_file lock) (ok text) ∷ before)
      × (parse_owner parse_json text ≡ some dead)
  WasDead t is_alive = Unit
  WasDead t is_corrupt = Unit
  WasDead t has_io_error = Unit
  WasDead t is_missing = Unit

  -- No attempt has begun since, and none has succeeded.
  abbrev Unclaimed : Trace → Type 0
  Unclaimed t = (mkdirs t ≡ m) × (claims t ≡ 0)

  abbrev IfInspected : Trace → OwnerInspection → Type 0
  IfInspected t found = Unclaimed t × WasDead t found

  probed-IfInspected :
      (text : String) (dead : OwnerRecord) (t : Trace)
      → Unclaimed t
      → parse_owner parse_json text ≡ some dead
      → (r : Result Errno (Unit {0}))
      → IfInspected
          (acted (probe dead.pid) r ∷ got (owner_file lock) (ok text) ∷ t)
          (probed parse_json dead r)
  probed-IfInspected text dead t u e (ok _) = (u, tt)
  probed-IfInspected text dead t u e (err esrch) = (u, (text, t, refl, e))
  probed-IfInspected text dead t u e (err enoent) = (u, tt)
  probed-IfInspected text dead t u e (err eexist) = (u, tt)
  probed-IfInspected text dead t u e (err enotdir) = (u, tt)
  probed-IfInspected text dead t u e (err eloop) = (u, tt)
  probed-IfInspected text dead t u e (err other_errno) = (u, tt)

  inspect_read-Holds :
      (t : Trace)
      → Unclaimed t
      → (r : Result Errno String)
      → Holds
          (ClaimsSafely parse_json owner)
          IfInspected
          (got (owner_file lock) r ∷ t)
          (inspect_read parse_json (read_owner_text parse_json r))
  inspect_read-Holds t u (err e) = elim (Bool-cases (is_enoent e)) [
    | inl h ↦ rw h (u, tt)
    | inr h ↦ rw h (u, tt)
  ]
  inspect_read-Holds t u (ok text) = elim (Option-cases (parse_owner parse_json text)) [
    | inl e ↦ rw e (u, tt)
    | inr (dead, e) ↦ rw e (tt, λ r. probed-IfInspected text dead t u e r)
  ]

  inspect_stats-Holds :
      (t : Trace)
      → Unclaimed t
      → (r : Result Errno Stats)
      → Holds
          (ClaimsSafely parse_json owner)
          IfInspected
          (saw by_path (directory lock) r ∷ t)
          (inspect_stats parse_json r)
  unfolding read_owner
  inspect_stats-Holds t u (err e) = elim (Bool-cases (is_enoent e)) [
    | inl h ↦ rw h (u, tt)
    | inr h ↦ rw h (u, tt)
  ]
  inspect_stats-Holds t u (ok s) = elim (Bool-cases (not s.is_directory || s.is_symbolic_link)) [
    | inl h ↦ rw h (u, tt)
    | inr h ↦ rw h (λ r. inspect_read-Holds _ u r)
  ]

  abbrev IfFailed : Trace → Failure → Type 0
  IfFailed t failure = Unclaimed t

  source_seen-Holds :
      (t : Trace)
      → Unclaimed t
      → (r : Result Errno Stats)
      → Holds
          (ClaimsSafely parse_json owner)
          IfFailed
          (saw by_path (directory lock) r ∷ t)
          (source_seen r)
  source_seen-Holds t u (ok s) = u
  source_seen-Holds t u (err e) = elim (Bool-cases (is_enoent e)) [
    | inl h ↦ rw h u
    | inr h ↦ rw h u
  ]

  quarantined-Holds :
      (t : Trace) (f h : Target)
      → Unclaimed t
      → (r : Result Errno (Unit {0}))
      → Holds (ClaimsSafely parse_json owner) IfFailed (acted (rename f h) r ∷ t) (quarantined r)
  quarantined-Holds t f h u (ok _) = u
  quarantined-Holds t f h u (err e) = elim (Bool-cases (is_enoent e)) [
    | inl k ↦ rw k u
    | inr k ↦ rw k (λ q. source_seen-Holds _ u q)
  ]

  destination_seen-Holds :
      (dead : OwnerRecord) (t : Trace)
      → IfInspected t (is_dead dead)
      → (r : Result Errno Stats)
      → Holds
          (ClaimsSafely parse_json owner)
          IfFailed
          (saw by_path (directory (quarantine dead.nonce)) r ∷ t)
          (destination_seen dead r)
  destination_seen-Holds dead t (u, d) (ok s) = u
  destination_seen-Holds dead t (u, (text, before, calls, e)) (err enoent) = (
    inr (
      dead,
      refl,
      refl,
      (
        text,
        before,
        ap (λ (x : Trace). saw by_path (directory (quarantine dead.nonce)) (err enoent) ∷ x) calls,
        e,
      ),
    ),
    λ q. quarantined-Holds _ _ _ u q,
  )
  destination_seen-Holds dead t (u, d) (err eexist) = u
  destination_seen-Holds dead t (u, d) (err enotdir) = u
  destination_seen-Holds dead t (u, d) (err eloop) = u
  destination_seen-Holds dead t (u, d) (err esrch) = u
  destination_seen-Holds dead t (u, d) (err other_errno) = u

  after_inspection-Holds :
      (t : Trace) (found : OwnerInspection)
      → IfInspected t found
      → Holds (ClaimsSafely parse_json owner) IfFailed t (after_inspection parse_json found)
  unfolding quarantine_dead_owner
  after_inspection-Holds t is_alive h = h.0
  after_inspection-Holds t is_corrupt h = h.0
  after_inspection-Holds t has_io_error h = h.0
  after_inspection-Holds t is_missing h = h.0
  after_inspection-Holds t (is_dead dead) h = λ r. destination_seen-Holds dead t h r

  retry_or-Holds :
      (again : Io Acquired)
      → ((t : Trace)
          → Unclaimed t
          → Holds (ClaimsSafely parse_json owner) (IfAcquired parse_json owner) t again)
      → (t : Trace) (failure : Failure) → IfFailed t failure
      → Holds
          (ClaimsSafely parse_json owner)
          (IfAcquired parse_json owner)
          t
          (retry_or parse_json again failure)
  retry_or-Holds again k t none h = k t h
  retry_or-Holds again k t (some reason) h = tt

  inspect-Holds :
      (t : Trace)
      → Unclaimed t
      → Holds
          (ClaimsSafely parse_json owner)
          IfFailed
          t
          (inspect_existing_owner parse_json >>= after_inspection parse_json)
  unfolding inspect_existing_owner
  inspect-Holds t u =
      Holds-bind (ClaimsSafely parse_json owner) IfInspected IfFailed
        (inspect_existing_owner parse_json) (after_inspection parse_json) t
        (λ r. inspect_stats-Holds t u r) after_inspection-Holds

  after_mkdir-Holds :
      (again : Io Acquired)
      → ((t : Trace)
          → Unclaimed t
          → Holds (ClaimsSafely parse_json owner) (IfAcquired parse_json owner) t again)
      → (t : Trace) → suc (mkdirs t) ≡ m
      → claims t ≡ 0
      → (r : Result Errno (Unit {0}))
      → Holds
          (ClaimsSafely parse_json owner)
          (IfAcquired parse_json owner)
          (acted (mkdir (directory lock)) r ∷ t)
          (after_mkdir parse_json owner again r)
  after_mkdir-Holds again k t e c (ok _) = claim_directory-Holds parse_json owner _ (ap suc c)
  after_mkdir-Holds again k t e c (err errno) = elim (Bool-cases (is_eexist errno)) [
    | inl h ↦ rw h (
        Holds-bind (ClaimsSafely parse_json owner) IfFailed (IfAcquired parse_json owner)
          (inspect_existing_owner parse_json >>= after_inspection parse_json)
          (retry_or parse_json again) _ (inspect-Holds _ (e, c)) (retry_or-Holds again k))
    | inr h ↦ rw h tt
  ]

module _ (parse_json : String → Option Json) (owner : OwnerRecord) where
  acquire_attempts-Holds :
      (n : ℕ) (t : Trace)
      → mkdirs t + n ≤ 3
      → claims t ≡ 0
      → Holds
          (ClaimsSafely parse_json owner)
          (IfAcquired parse_json owner)
          t
          (acquire_attempts parse_json n owner)
  unfolding acquire_attempts
  acquire_attempts-Holds zero t h c = tt
  acquire_attempts-Holds (suc n) t h c = (
    (refl, omega arith, c),
    λ r.
        after_mkdir-Holds parse_json owner (suc (mkdirs t)) (acquire_attempts parse_json n owner)
          (λ u k. acquire_attempts-Holds n u (omega (arith, k.0)) k.1) t refl c r,
  )

  -- Whatever the file system answers, `acquire` makes the lock directory at most three times, and never
  -- after it succeeded once; it writes and publishes only its own record, in its own file and only in a
  -- directory that it made; it moves a lock aside only right after it read its owner, found that process
  -- dead and the new name free; it removes nothing but its temporary file. A guard that it gives has its
  -- own record, and in the latest calls the lock held a text with its nonce.
  pub acquire-ClaimsSafely :
      (is_absolute : Bool)
      → Holds
          (ClaimsSafely parse_json owner)
          (IfAcquired parse_json owner)
          []
          (acquire parse_json is_absolute owner)
  unfolding acquire
  acquire-ClaimsSafely true = acquire_attempts-Holds 3 [] (omega arith) refl
  acquire-ClaimsSafely false = tt
