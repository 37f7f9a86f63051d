-- ===== src/Guard/Pinned.antt =====
-- process-guard.ts, `readPinnedOwner` and `assertHeld`: what was seen when an owner is reported.
use dsh_subagent_admission.Prelude.{
  ◌≡◌, refl, String, Option, some, Bool, true, false, [], ◌∷◌, ◌==◌, inl, inr, Bool-cases,
  Option-cases, Result, ok, err, eq_iff,
}
use dsh_subagent_admission.Guard.Owner.{OwnerRecord, Json, parse_owner}
use dsh_subagent_admission.Guard.Calls.{
  Errno, enoent, eexist, enotdir, eloop, esrch, other_errno, LockPath, lock, Target, directory,
  owner_file, Stats, Action, mkdir, open_new, open_read, sync, close, remove, unlink, rmdir, write,
  rename, probe, StatKind, by_path, by_handle, Io, read, acted, saw, got, Trace, Holds, Holds-bind,
}
use dsh_subagent_admission.Guard.{
  OwnershipUnavailable, ProcessOwnershipGuard, PinnedOwner, pinned, is_lost, pin_failed,
  pinned_error, is_own_directory, is_own_file, is_own_handle, checked, checked_open, pinned_text,
  pin_again, pin_text, pin_opened, read_pinned_owner, held, assert_held,
}

-- The latest calls are those of `readPinnedOwner` in `base`: the directory and the owner file were the
-- guard's own before the text was read, while the file was open, and after.
pub record LooksOwn (g : ProcessOwnershipGuard) (base : LockPath) (text : String) (t : Trace)
    : Type 0 where
  pub before : Trace
  pub first_directory : Stats
  pub first_file : Stats
  pub opened_file : Stats
  pub closing : Result Errno (Unit {0})
  pub last_file : Stats
  pub last_directory : Stats
  pub calls :
      t
      ≡ saw by_path (directory base) (ok last_directory)
        ∷ saw by_path (owner_file base) (ok last_file)
        ∷ acted (close (owner_file base)) closing
        ∷ got (owner_file base) (ok text)
        ∷ saw by_handle (owner_file base) (ok opened_file)
        ∷ acted (open_read (owner_file base)) (ok tt)
        ∷ saw by_path (owner_file base) (ok first_file)
        ∷ saw by_path (directory base) (ok first_directory)
        ∷ before
  pub is_own_first_directory : is_own_directory g first_directory ≡ true
  pub is_own_first_file : is_own_file g first_file ≡ true
  pub is_own_opened_file : is_own_handle g opened_file ≡ true
  pub is_own_last_file : is_own_file g last_file ≡ true
  pub is_own_last_directory : is_own_directory g last_directory ≡ true

-- `Q` is asked of an owner that is found.
abbrev pub IfPinned : (Trace → OwnerRecord → Type 0) → Trace → PinnedOwner → Type 0
IfPinned Q t (pinned owner) = Q t owner
IfPinned Q t is_lost = Unit
IfPinned Q t pin_failed = Unit

module _ (P : Trace → Action → Type 0) (Q : Trace → OwnerRecord → Type 0) where
  pinned_error-IfPinned : (t : Trace) (e : Errno) → IfPinned Q t (pinned_error e)
  pinned_error-IfPinned t enoent = tt
  pinned_error-IfPinned t enotdir = tt
  pinned_error-IfPinned t eloop = tt
  pinned_error-IfPinned t eexist = tt
  pinned_error-IfPinned t esrch = tt
  pinned_error-IfPinned t other_errno = tt

  checked-Holds :
      (kind : StatKind) (target : Target) (t : Trace) (test : Stats → Bool) (next : Io PinnedOwner)
      → ((s : Stats) → test s ≡ true → Holds P (IfPinned Q) (saw kind target (ok s) ∷ t) next)
      → (r : Result Errno Stats)
      → Holds P (IfPinned Q) (saw kind target r ∷ t) (checked test next r)
  checked-Holds kind target t test next k (err e) = pinned_error-IfPinned _ e
  checked-Holds kind target t test next k (ok s) = elim (Bool-cases (test s)) [
    | inl own ↦ rw own (k s own)
    | inr differ ↦ rw differ tt
  ]

  checked_open-Holds :
      (file : Target) (t : Trace) (test : Stats → Bool) (next : Io PinnedOwner)
      → ((u : Trace) → P u (close file))
      → ((s : Stats) → test s ≡ true → Holds P (IfPinned Q) (saw by_handle file (ok s) ∷ t) next)
      → (r : Result Errno Stats)
      → Holds P (IfPinned Q) (saw by_handle file r ∷ t) (checked_open file test next r)
  checked_open-Holds file t test next closes k (err e) = (closes _, λ c. pinned_error-IfPinned _ e)
  checked_open-Holds file t test next closes k (ok s) = elim (Bool-cases (test s)) [
    | inl own ↦ rw own (k s own)
    | inr differ ↦ rw differ (closes _, λ c. tt)
  ]

module _ (parse_json : String → Option Json) (g : ProcessOwnershipGuard) (base : LockPath) where
  -- What is known of an owner that `readPinnedOwner` reports.
  abbrev pub IsPinned : Trace → OwnerRecord → Type 0
  IsPinned t owner =
      (text : String) × LooksOwn g base text t × (parse_owner parse_json text ≡ some owner)

  text-IfPinned :
      (text : String) (t : Trace)
      → LooksOwn g base text t
      → IfPinned IsPinned t (pinned_text (parse_owner parse_json text))
  text-IfPinned text t look = elim (Option-cases (parse_owner parse_json text)) [
    | inl e ↦ rw e tt
    | inr (owner, e) ↦ rw e (text, look, e)
  ]

  module _ (P : Trace → Action → Type 0) (t : Trace)
      (opens : (u : Trace) → P u (open_read (owner_file base)))
      (closes : (u : Trace) → P u (close (owner_file base))) where
    -- The calls up to the opening of the file.
    abbrev until_open : Stats → Stats → Trace
    until_open d s =
        acted (open_read (owner_file base)) (ok tt)
        ∷ saw by_path (owner_file base) (ok s)
        ∷ saw by_path (directory base) (ok d)
        ∷ t

    module _ (d1 s1 : Stats) (own_d1 : is_own_directory g d1 ≡ true)
        (own_s1 : is_own_file g s1 ≡ true) where
      pin_text-Holds :
          (h : Stats)
          → is_own_handle g h ≡ true
          → (r : Result Errno String)
          → Holds P
              (IfPinned IsPinned)
              (got (owner_file base) r ∷ saw by_handle (owner_file base) (ok h) ∷ until_open d1 s1)
              (pin_text parse_json g base r)
      unfolding pin_again
      pin_text-Holds h own_h (err e) = (closes _, λ c. pinned_error-IfPinned P IsPinned _ e)
      pin_text-Holds h own_h (ok text) = (
        closes _,
        λ c. checked-Holds P IsPinned by_path (owner_file base) _ (is_own_file g) _ λ s2 own_s2.
            checked-Holds P IsPinned by_path (directory base) _ (is_own_directory g) _ λ d2 own_d2.
              text-IfPinned text _ (record {
                before = t;
                first_directory = d1;
                first_file = s1;
                opened_file = h;
                closing = c;
                last_file = s2;
                last_directory = d2;
                calls = refl;
                is_own_first_directory = own_d1;
                is_own_first_file = own_s1;
                is_own_opened_file = own_h;
                is_own_last_file = own_s2;
                is_own_last_directory = own_d2;
              }),
      )

      pin_opened-Holds :
          (r : Result Errno (Unit {0}))
          → Holds P
              (IfPinned IsPinned)
              (acted (open_read (owner_file base)) r
                ∷ saw by_path (owner_file base) (ok s1)
                ∷ saw by_path (directory base) (ok d1)
                ∷ t)
              (pin_opened parse_json g base r)
      pin_opened-Holds (err e) = pinned_error-IfPinned P IsPinned _ e
      pin_opened-Holds (ok _) =
          checked_open-Holds P IsPinned (owner_file base) (until_open d1 s1) (is_own_handle g)
            (read (owner_file base) (pin_text parse_json g base)) closes pin_text-Holds

    pub read_pinned_owner-Holds :
        Holds P (IfPinned IsPinned) t (read_pinned_owner parse_json g base)
    unfolding read_pinned_owner
    read_pinned_owner-Holds =
        checked-Holds P IsPinned by_path (directory base) t (is_own_directory g) _ λ d1 own_d1.
          checked-Holds P IsPinned by_path (owner_file base) _ (is_own_file g) _
            λ s1 own_s1. (opens _, pin_opened-Holds d1 s1 own_d1 own_s1)

-- A program that changes nothing: it opens files to read them, and closes them.
abbrev pub OnlyReads : Trace → Action → Type 0
OnlyReads t (open_read f) = Unit
OnlyReads t (close f) = Unit
OnlyReads t (mkdir f) = ⊥
OnlyReads t (open_new f) = ⊥
OnlyReads t (sync f) = ⊥
OnlyReads t (remove f) = ⊥
OnlyReads t (unlink f) = ⊥
OnlyReads t (rmdir f) = ⊥
OnlyReads t (write f owner) = ⊥
OnlyReads t (rename f h) = ⊥
OnlyReads t (probe pid) = ⊥

module _ (parse_json : String → Option Json) (g : ProcessOwnershipGuard) where
  -- What `assertHeld` has seen when it returns.
  abbrev pub IfHeld : Trace → Result OwnershipUnavailable (Unit {0}) → Type 0
  IfHeld t (err reason) = Unit
  IfHeld t (ok _) =
      (owner : OwnerRecord) × IsPinned parse_json g lock t owner × (owner.nonce ≡ g.owner.nonce)

  held-IfHeld :
      (t : Trace) (existing : PinnedOwner)
      → IfPinned (IsPinned parse_json g lock) t existing
      → IfHeld t (held parse_json g existing)
  held-IfHeld t is_lost h = tt
  held-IfHeld t pin_failed h = tt
  held-IfHeld t (pinned owner) h = elim (Bool-cases (owner.nonce == g.owner.nonce)) [
    | inl e ↦ rw e (owner, h, (eq_iff owner.nonce g.owner.nonce).0 e)
    | inr e ↦ rw e tt
  ]

  -- Whatever the file system answers, `assertHeld` changes nothing, and returns only if, in its last
  -- eight calls, the directory and the owner file were the guard's own before, while and after the file
  -- was read, and the text names the guard's own nonce.
  pub assert_held_is_own :
      (is_released : Bool) → Holds OnlyReads IfHeld [] (assert_held parse_json is_released g)
  unfolding assert_held
  assert_held_is_own true = tt
  assert_held_is_own false =
      Holds-bind OnlyReads (IfPinned (IsPinned parse_json g lock)) IfHeld
        (read_pinned_owner parse_json g lock) _ []
        (read_pinned_owner-Holds parse_json g lock OnlyReads [] (λ u. tt) (λ u. tt)) held-IfHeld
