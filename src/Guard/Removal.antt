-- ===== src/Guard/Removal.antt =====
-- process-guard.ts, what `release` moves and removes.
use dsh_subagent_admission.Prelude.{
  ◌⊎◌, ◌≡◌, refl, String, Option, Bool, true, false, [], ◌∷◌, ◌==◌, inl, inr, Bool-cases, Result,
  ok, err,
}
use dsh_subagent_admission.Guard.Owner.{Json}
use dsh_subagent_admission.Guard.Calls.{
  Errno, LockPath, lock, release_of, Target, directory, owner_file, tombstone, Stats, Action, mkdir,
  open_new, open_read, sync, close, remove, unlink, rmdir, write, rename, probe, by_path, Io, saw,
  Trace, Event, acted, Holds, Holds-bind, Holds-with, ◌>>=◌,
}
use dsh_subagent_admission.Guard.{
  ProcessOwnershipGuard, is_enoent, PinnedOwner, pinned, is_lost, pin_failed, read_pinned_owner,
}
use dsh_subagent_admission.Guard.Pinned.{IfPinned, IsPinned, read_pinned_owner-Holds}
use dsh_subagent_admission.Guard.Release.{
  ReleaseEnd, Match, fits, differs, unknown, directory_match, matches_owned_directory,
  matches_owned_file, if_free, if_done, if_fits, rmdir_end, moved, grave, if_own, bury, entomb,
  move_aside, perform_release, release,
}
use dsh_subagent_admission.Guard.Matches.{SawOwnFile, IfFits, matches_owned_file-Holds}

-- The call was made and was fulfilled.
abbrev pub WasDone : Action → Trace → Type 0
WasDone a [] = ⊥
WasDone a (e ∷ t) = (e ≡ acted a (ok tt)) ⊎ WasDone a t

WasDone-grows : (a : Action) (e : Event) (t : Trace) → WasDone a t → WasDone a (e ∷ t)
WasDone-grows a e t h = inr h

module _ (g : ProcessOwnershipGuard) where
  abbrev aside : LockPath
  aside = release_of g.owner.nonce

  -- The lock directory is moved to its own name, and the owner file there to the tombstone.
  abbrev pub moves_lock : Action
  moves_lock = rename (directory lock) (directory aside)

  abbrev pub moves_owner : Action
  moves_owner = rename (owner_file aside) (tombstone aside g.owner.nonce)

  abbrev pub removes_tombstone : Action
  removes_tombstone = unlink (tombstone aside g.owner.nonce)

  -- What `release` may do: it moves the lock to its own name, and then its owner file to the tombstone;
  -- it unlinks only the tombstone, after both moves and right after it saw that this is its own file;
  -- and it removes only the directory that it moved, after the tombstone is gone.
  abbrev pub RemovesOwn : Trace → Action → Type 0
  RemovesOwn t (open_read f) = Unit
  RemovesOwn t (close f) = Unit
  RemovesOwn t (rename f h) =
      (rename f h ≡ moves_lock) ⊎ ((rename f h ≡ moves_owner) × WasDone moves_lock t)
  RemovesOwn t (unlink f) =
      (unlink f ≡ removes_tombstone)
      × SawOwnFile g f t
      × WasDone moves_owner t
      × WasDone moves_lock t
  RemovesOwn t (rmdir f) =
      (f ≡ directory aside) × WasDone removes_tombstone t × WasDone moves_lock t
  RemovesOwn t (mkdir f) = ⊥
  RemovesOwn t (open_new f) = ⊥
  RemovesOwn t (sync f) = ⊥
  RemovesOwn t (remove f) = ⊥
  RemovesOwn t (write f owner) = ⊥
  RemovesOwn t (probe pid) = ⊥

abbrev pub AnyEnd : Trace → ReleaseEnd → Type 0
AnyEnd t end = Unit

module _ (parse_json : String → Option Json) (g : ProcessOwnershipGuard) where
  if_free-Holds :
      (next : Io ReleaseEnd) (file : Target) (t : Trace)
      → ((e : Event) → Holds (RemovesOwn g) AnyEnd (e ∷ t) next)
      → (r : Result Errno Stats)
      → Holds (RemovesOwn g) AnyEnd (saw by_path file r ∷ t) (if_free next r)
  if_free-Holds next file t k (ok s) = tt
  if_free-Holds next file t k (err e) = elim (Bool-cases (is_enoent e)) [
    | inl h ↦ rw h (k (saw by_path file (err e)))
    | inr h ↦ rw h tt
  ]

  if_done-Holds :
      (next : Io ReleaseEnd) (a : Action) (t : Trace)
      → Holds (RemovesOwn g) AnyEnd (acted a (ok tt) ∷ t) next
      → (r : Result Errno (Unit {0})) → Holds (RemovesOwn g) AnyEnd (acted a r ∷ t) (if_done next r)
  if_done-Holds next a t k (ok u) = k
  if_done-Holds next a t k (err e) = elim (Bool-cases (is_enoent e)) [
    | inl h ↦ rw h tt
    | inr h ↦ rw h tt
  ]

  rmdir_end-Holds :
      (t : Trace) (r : Result Errno (Unit {0})) → Holds (RemovesOwn g) AnyEnd t (rmdir_end r)
  rmdir_end-Holds t (ok u) = tt
  rmdir_end-Holds t (err e) = elim (Bool-cases (is_enoent e)) [ inl h ↦ rw h tt | inr h ↦ rw h tt ]

  -- Both moves were made.
  abbrev HasMoved : Trace → Type 0
  HasMoved t = WasDone (moves_owner g) t × WasDone (moves_lock g) t

  bury-Holds :
      (t : Trace) (m : Match)
      → HasMoved t × IfFits g (grave parse_json g) t m
      → Holds (RemovesOwn g) AnyEnd t (if_fits (bury parse_json g) m)
  unfolding bury
  bury-Holds t fits (d, h) = (
    (refl, h, d.0, d.1),
    λ r.
        if_done-Holds _ (removes_tombstone g) t
          ((refl, inl refl, inr d.1), λ q. rmdir_end-Holds _ q) r,
  )
  bury-Holds t differs h = tt
  bury-Holds t unknown h = tt

  check-Holds :
      (t : Trace)
      → HasMoved t
      → Holds
          (RemovesOwn g)
          AnyEnd
          t
          (matches_owned_file g (grave parse_json g) >>= if_fits (bury parse_json g))
  check-Holds t d =
      let file = grave parse_json g in
      Holds-bind (RemovesOwn g) (λ (u : Trace) (m : Match). HasMoved u × IfFits g file u m) AnyEnd
        (matches_owned_file g file) (if_fits (bury parse_json g)) t
        (Holds-with (RemovesOwn g) (IfFits g file) HasMoved (matches_owned_file g file) t
          (λ e u h. (inr h.0, inr h.1)) d
          (matches_owned_file-Holds g file (RemovesOwn g) (λ w. tt) (λ w. tt) t))
        bury-Holds

  entomb-Holds :
      (t : Trace) → WasDone (moves_lock g) t → Holds (RemovesOwn g) AnyEnd t (entomb parse_json g)
  unfolding entomb
  entomb-Holds t d = λ r.
      if_free-Holds _ (grave parse_json g) t
        (λ e. (
          inr (refl, inr d),
          λ q. if_done-Holds _ (moves_owner g) (e ∷ t) (check-Holds _ (inl refl, inr (inr d))) q,
        ))
        r

  if_own-Holds :
      (next : Io ReleaseEnd) (t : Trace)
      → Holds (RemovesOwn g) AnyEnd t next
      → (existing : PinnedOwner) → Holds (RemovesOwn g) AnyEnd t (if_own parse_json g next existing)
  if_own-Holds next t k is_lost = tt
  if_own-Holds next t k pin_failed = tt
  if_own-Holds next t k (pinned owner) = elim (Bool-cases (owner.nonce == g.owner.nonce)) [
    | inl h ↦ rw h k
    | inr h ↦ rw h tt
  ]

  pin_then-Holds :
      (base : LockPath) (next : Io ReleaseEnd) (D : Trace → Type 0)
      → ((e : Event) (u : Trace) → D u → D (e ∷ u))
      → ((t : Trace) → D t → Holds (RemovesOwn g) AnyEnd t next)
      → (t : Trace) → D t
      → Holds
          (RemovesOwn g)
          AnyEnd
          t
          (read_pinned_owner parse_json g base >>= if_own parse_json g next)
  pin_then-Holds base next D grows k t d =
      let Q = IfPinned (IsPinned parse_json g base) in
      Holds-bind (RemovesOwn g) (λ (u : Trace) (o : PinnedOwner). D u × Q u o) AnyEnd
        (read_pinned_owner parse_json g base) (if_own parse_json g next) t
        (Holds-with (RemovesOwn g) Q D (read_pinned_owner parse_json g base) t grows d
          (read_pinned_owner-Holds parse_json g base (RemovesOwn g) t (λ u. tt) (λ u. tt)))
        (λ u existing h. if_own-Holds next u (k u h.0) existing)

  if_fits-Holds :
      (next : Io ReleaseEnd) (t : Trace)
      → Holds (RemovesOwn g) AnyEnd t next
      → (m : Match) → Holds (RemovesOwn g) AnyEnd t (if_fits next m)
  if_fits-Holds next t k fits = k
  if_fits-Holds next t k differs = tt
  if_fits-Holds next t k unknown = tt

  move_aside-Holds : (t : Trace) → Holds (RemovesOwn g) AnyEnd t (move_aside parse_json g)
  unfolding move_aside matches_owned_directory
  move_aside-Holds t = (
    inl refl,
    λ r.
        if_done-Holds _ (moves_lock g) t
          (λ q.
            if_fits-Holds _ _
              (pin_then-Holds (moved parse_json g) (entomb parse_json g) (WasDone (moves_lock g))
                (WasDone-grows (moves_lock g)) entomb-Holds _ (inr (inl refl)))
              (directory_match g q))
          r,
  )

  abbrev Anything : Trace → Type 0
  Anything t = Unit

  -- Whatever the file system answers, `release` changes nothing but this: it moves the lock directory to
  -- the name with its nonce; when this was done, it moves its owner file there to the tombstone; when this
  -- was done too, it unlinks the tombstone, only if its latest look showed its own owner file there; and
  -- when the tombstone was unlinked, it removes the directory that it moved.
  pub release-RemovesOwn :
      (is_released : Bool) → Holds (RemovesOwn g) AnyEnd [] (release parse_json g is_released)
  unfolding release perform_release
  release-RemovesOwn true = tt
  release-RemovesOwn false =
      pin_then-Holds lock _ Anything (λ e u d. tt)
        (λ t d r.
          if_free-Holds _ (directory (moved parse_json g)) t (λ e. move_aside-Holds (e ∷ t)) r)
        [] tt
