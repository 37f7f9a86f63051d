-- ===== src/Guard/Claims.antt =====
-- process-guard.ts, what `acquire` does before it gives a guard.
use dsh_subagent_admission.Prelude.{
  ◌⊎◌, ℕ, suc, ◌<◌, ◌≡◌, refl, ap, ◌∙◌, String, Option, some, Bool, true, false, [], ◌∷◌, ◌==◌,
  ◌||◌, not, inl, inr, Bool-cases, Result, ok, err, eq_iff,
}
use dsh_subagent_admission.Guard.Owner.{OwnerRecord, Json, parse_owner}
use dsh_subagent_admission.Guard.Calls.{
  Errno, enoent, esrch, lock, quarantine, Target, directory, owner_file, temp_file, Stats, Action,
  mkdir, open_new, open_read, sync, close, remove, unlink, rmdir, write, rename, probe, by_path,
  pure, Event, acted, saw, got, Trace, Holds, Holds-bind,
}
use dsh_subagent_admission.Guard.{
  ProcessOwnershipGuard, PinnedOwner, pinned, is_lost, pin_failed, read_pinned_owner,
}
use dsh_subagent_admission.Guard.Pinned.{IfPinned, IsPinned, read_pinned_owner-Holds}
use dsh_subagent_admission.Guard.Acquire.{
  give_up_open, removed_temp, renamed_temp, closed_temp, synced_temp, written_temp, opened_temp,
  publish_owner, Acquired, guard_of, confirmed, owner_stats, directory_stats, after_publish,
  claim_directory,
}

-- How often the lock directory was to be made, and how often it was made.
abbrev pub count_mkdir : Event → ℕ → ℕ
count_mkdir (acted (mkdir f) r) n = suc n
count_mkdir other_event n = n

abbrev pub count_claim : Event → ℕ → ℕ
count_claim (acted (mkdir f) (ok _)) n = suc n
count_claim other_event n = n

abbrev pub mkdirs : Trace → ℕ
mkdirs [] = 0
mkdirs (e ∷ t) = count_mkdir e (mkdirs t)

abbrev pub claims : Trace → ℕ
claims [] = 0
claims (e ∷ t) = count_claim e (claims t)

module _ (parse_json : String → Option Json) (owner : OwnerRecord) where
  -- The owner was read from the lock, its process was found dead, and the name that the directory
  -- shall get was free, in the latest three calls.
  abbrev pub SawDead : Trace → OwnerRecord → Type 0
  SawDead t dead =
      (text : String) × (before : Trace) × (t
        ≡ saw by_path (directory (quarantine dead.nonce)) (err enoent)
          ∷ acted (probe dead.pid) (err esrch)
          ∷ got (owner_file lock) (ok text)
          ∷ before)
      × (parse_owner parse_json text ≡ some dead)

  abbrev pub temporary : Target
  temporary = temp_file lock owner.nonce

  -- What `acquire` may do.
  abbrev pub ClaimsSafely : Trace → Action → Type 0
  ClaimsSafely t (mkdir f) = (f ≡ directory lock) × (mkdirs t < 3) × (claims t ≡ 0)
  ClaimsSafely t (open_new f) = (f ≡ temporary) × (claims t ≡ 1)
  ClaimsSafely t (write f written) = (f ≡ temporary) × (written ≡ owner) × (claims t ≡ 1)
  ClaimsSafely t (sync f) = f ≡ temporary
  ClaimsSafely t (remove f) = f ≡ temporary
  ClaimsSafely t (rename f h) =
      ((f ≡ temporary) × (h ≡ owner_file lock) × (claims t ≡ 1))
      ⊎ ((dead : OwnerRecord) × (f ≡ directory lock)
          × (h ≡ directory (quarantine dead.nonce))
          × SawDead t dead)
  ClaimsSafely t (open_read f) = Unit
  ClaimsSafely t (close f) = Unit
  ClaimsSafely t (probe pid) = Unit
  ClaimsSafely t (unlink f) = ⊥
  ClaimsSafely t (rmdir f) = ⊥

  -- What is known of a guard that `acquire` gives.
  abbrev pub IfAcquired : Trace → Acquired → Type 0
  IfAcquired t (err reason) = Unit
  IfAcquired t (ok g) =
      (g.owner ≡ owner)
      × ((seen : OwnerRecord) × IsPinned parse_json g lock t seen × (seen.nonce ≡ owner.nonce))

  IfPublished : Trace → Bool → Type 0
  IfPublished t is_published = claims t ≡ 1

  give_up_open-Holds :
      (t : Trace) → claims t ≡ 1 → Holds ClaimsSafely IfPublished t (give_up_open temporary)
  unfolding IfPublished
  give_up_open-Holds t c = (tt, λ r. (refl, λ q. c))

  removed_temp-Holds :
      (is_renamed : Bool) (t : Trace)
      → claims t ≡ 1
      → (r : Result Errno (Unit {0})) → Holds ClaimsSafely IfPublished t (removed_temp is_renamed r)
  unfolding IfPublished
  removed_temp-Holds is_renamed t c (ok _) = c
  removed_temp-Holds is_renamed t c (err e) = c

  renamed_temp-Holds :
      (t : Trace)
      → claims t ≡ 1
      → (r : Result Errno (Unit {0})) → Holds ClaimsSafely IfPublished t (renamed_temp temporary r)
  renamed_temp-Holds t c (ok _) = (refl, λ q. removed_temp-Holds true _ c q)
  renamed_temp-Holds t c (err e) = (refl, λ q. removed_temp-Holds false _ c q)

  closed_temp-Holds :
      (t : Trace)
      → claims t ≡ 1
      → (r : Result Errno (Unit {0})) → Holds ClaimsSafely IfPublished t (closed_temp temporary r)
  closed_temp-Holds t c (ok _) = (inl (refl, refl, c), λ q. renamed_temp-Holds _ c q)
  closed_temp-Holds t c (err e) = give_up_open-Holds t c

  synced_temp-Holds :
      (t : Trace)
      → claims t ≡ 1
      → (r : Result Errno (Unit {0})) → Holds ClaimsSafely IfPublished t (synced_temp temporary r)
  synced_temp-Holds t c (ok _) = (tt, λ q. closed_temp-Holds _ c q)
  synced_temp-Holds t c (err e) = give_up_open-Holds t c

  written_temp-Holds :
      (t : Trace)
      → claims t ≡ 1
      → (r : Result Errno (Unit {0})) → Holds ClaimsSafely IfPublished t (written_temp temporary r)
  written_temp-Holds t c (ok _) = (refl, λ q. synced_temp-Holds _ c q)
  written_temp-Holds t c (err e) = give_up_open-Holds t c

  opened_temp-Holds :
      (t : Trace)
      → claims t ≡ 1
      → (r : Result Errno (Unit {0}))
      → Holds ClaimsSafely IfPublished t (opened_temp temporary owner r)
  unfolding IfPublished
  opened_temp-Holds t c (ok _) = ((refl, refl, c), λ q. written_temp-Holds _ c q)
  opened_temp-Holds t c (err e) = c

  publish_owner-Holds :
      (t : Trace) → claims t ≡ 1 → Holds ClaimsSafely IfPublished t (publish_owner owner)
  unfolding publish_owner
  publish_owner-Holds t c = ((refl, c), λ q. opened_temp-Holds _ c q)

  confirmed-IfAcquired :
      (t : Trace) (g : ProcessOwnershipGuard)
      → g.owner ≡ owner
      → (existing : PinnedOwner) → IfPinned (IsPinned parse_json g lock) t existing
      → IfAcquired t (confirmed parse_json g existing)
  confirmed-IfAcquired t g own is_lost h = tt
  confirmed-IfAcquired t g own pin_failed h = tt
  confirmed-IfAcquired t g own (pinned seen) h = elim (Bool-cases (seen.nonce == g.owner.nonce)) [
    | inl e ↦
        let same : seen.nonce ≡ owner.nonce =
          (eq_iff seen.nonce g.owner.nonce).0 e ∙ ap (λ (o : OwnerRecord). o.nonce) own in
        rw e (own, (seen, h, same))
    | inr e ↦ rw e tt
  ]

  owner_stats-Holds :
      (t : Trace) (d : Stats) (r : Result Errno Stats)
      → Holds ClaimsSafely IfAcquired t (owner_stats parse_json owner d r)
  owner_stats-Holds t d (err e) = tt
  owner_stats-Holds t d (ok s) = elim (Bool-cases (not s.is_file || s.is_symbolic_link)) [
    | inl e ↦ rw e tt
    | inr e ↦
        let g = guard_of owner d s in
        rw e (
          Holds-bind ClaimsSafely (IfPinned (IsPinned parse_json g lock)) IfAcquired
            (read_pinned_owner parse_json g lock)
            (λ existing. pure (confirmed parse_json g existing)) t
            (read_pinned_owner-Holds parse_json g lock ClaimsSafely t (λ u. tt) (λ u. tt))
            (λ u existing h. confirmed-IfAcquired u g refl existing h))
  ]

  directory_stats-Holds :
      (t : Trace) (r : Result Errno Stats)
      → Holds ClaimsSafely IfAcquired t (directory_stats parse_json owner r)
  directory_stats-Holds t (err e) = tt
  directory_stats-Holds t (ok d) = elim (Bool-cases (not d.is_directory || d.is_symbolic_link)) [
    | inl e ↦ rw e tt
    | inr e ↦ rw e (λ r. owner_stats-Holds _ d r)
  ]

  pub claim_directory-Holds :
      (t : Trace)
      → claims t ≡ 1
      → Holds ClaimsSafely IfAcquired t (claim_directory parse_json owner)
  unfolding claim_directory
  claim_directory-Holds t c =
      Holds-bind ClaimsSafely IfPublished IfAcquired (publish_owner owner)
        (after_publish parse_json owner) t (publish_owner-Holds t c) after_publish-Holds
    where
      after_publish-Holds :
          (u : Trace) (b : Bool)
          → IfPublished u b
          → Holds ClaimsSafely IfAcquired u (after_publish parse_json owner b)
      after_publish-Holds u true h = λ r. directory_stats-Holds _ r
      after_publish-Holds u false h = tt
