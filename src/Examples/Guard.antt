-- ===== src/Examples/Guard.antt =====
-- process-guard.ts at concrete inputs.
use dsh_subagent_admission.Prelude.{
  ◌≡◌, refl, String, Option, some, none, true, false, List, [], ◌∷◌, ◌==◌, if◌then◌else◌, ok, err,
  lookup, arith, all_characters,
}
use dsh_subagent_admission.Guard.Owner.{OwnerRecord, Json, object, parse_owner, owner_fields}
use dsh_subagent_admission.Guard.Owner.RoundTrip.{IsUuid, owner_is_read_back}
use dsh_subagent_admission.Compatibility.Targets.{all_characters-hex}
use dsh_subagent_admission.Guard.Calls.{
  enoent, eexist, esrch, Stats, Holds, OsAnswer, of_action, of_stat, of_read, replay,
}
use dsh_subagent_admission.Guard.{
  ProcessOwnershipGuard, owner_alive, inspect_existing_owner, read_pinned_owner, assert_held,
}
use dsh_subagent_admission.Guard.Acquire.{guard_of, acquire}
use dsh_subagent_admission.Guard.Release.{released, release}
use dsh_subagent_admission.Guard.Pinned.{OnlyReads, IfHeld, assert_held_is_own}
use dsh_subagent_admission.Guard.Removal.{RemovesOwn, AnyEnd, release-RemovesOwn}
use dsh_subagent_admission.Guard.Claims.{ClaimsSafely, IfAcquired}
use dsh_subagent_admission.Guard.Attempts.{acquire-ClaimsSafely}

abbrev own : OwnerRecord
own = record { pid = 41; nonce = "01234567-89ab-cdef-0123-456789abcdef"; created_at = 5 }

abbrev earlier : OwnerRecord
earlier = record { pid = 7; nonce = "fedcba98-89ab-cdef-0123-456789abcdef"; created_at = 2 }

abbrev read_json : String → Option Json
read_json s =
    if s == "own"
    then some (object (owner_fields own))
    else if s == "earlier"
    then some (object (owner_fields earlier))
    else none

own-IsUuid : IsUuid own.nonce
unfolding all_characters
own-IsUuid = record {
  a = "01234567";
  b = "89ab";
  c = "cdef";
  d = "0123";
  e = "456789abcdef";
  first = (refl, (all_characters-hex "01234567").0 refl);
  second = (refl, (all_characters-hex "89ab").0 refl);
  third = (refl, (all_characters-hex "cdef").0 refl);
  fourth = (refl, (all_characters-hex "0123").0 refl);
  fifth = (refl, (all_characters-hex "456789abcdef").0 refl);
  form = refl;
}

owner_is_read_back_example : parse_owner read_json "own" ≡ some own
owner_is_read_back_example =
    owner_is_read_back read_json (λ fields. "own") own refl
      (record { pid = (omega arith, omega arith); nonce = own-IsUuid; created = omega arith })

abbrev dir_stats : Stats
dir_stats = record {
  is_directory = true;
  is_file = false;
  is_symbolic_link = false;
  dev = 1;
  ino = 10;
}

abbrev file_stats : Stats
file_stats = record {
  is_directory = false;
  is_file = true;
  is_symbolic_link = false;
  dev = 1;
  ino = 11;
}

abbrev done : OsAnswer
done = of_action (ok tt)

-- The answers to `readPinnedOwner` while the guard's own files stand.
abbrev pins : List OsAnswer → List OsAnswer
pins rest =
    of_stat (ok dir_stats)
    ∷ of_stat (ok file_stats)
    ∷ done
    ∷ of_stat (ok file_stats)
    ∷ of_read (ok "own")
    ∷ done
    ∷ of_stat (ok file_stats)
    ∷ of_stat (ok dir_stats)
    ∷ rest

-- `publishOwner`, and the two `lstat` after it.
abbrev publishes : List OsAnswer → List OsAnswer
publishes rest =
    done
    ∷ done
    ∷ done
    ∷ done
    ∷ done
    ∷ done
    ∷ of_stat (ok dir_stats)
    ∷ of_stat (ok file_stats)
    ∷ rest

abbrev result_of : {A : Type 0} {B : Type 0} → Option (A × B) → Option A
result_of none = none
result_of (some (a, b)) = some a

abbrev own_guard : ProcessOwnershipGuard
own_guard = guard_of own dir_stats file_stats

-- A lock of a dead process is moved aside, and the second attempt succeeds.
takes_over :
    result_of (
      replay
        (acquire read_json true own)
        (of_action (err eexist)
          ∷ of_stat (ok dir_stats)
          ∷ of_read (ok "earlier")
          ∷ of_action (err esrch)
          ∷ of_stat (err enoent)
          ∷ done
          ∷ done
          ∷ publishes (pins []))
        [])
    ≡ some (ok own_guard)
unfolding acquire inspect_existing_owner read_pinned_owner parse_owner lookup
takes_over = refl

-- A lock of a process that lives is left alone.
gives_way :
    result_of (
      replay
        (acquire read_json true own)
        (of_action (err eexist) ∷ of_stat (ok dir_stats) ∷ of_read (ok "earlier") ∷ done ∷ [])
        [])
    ≡ some (err owner_alive)
unfolding acquire inspect_existing_owner parse_owner lookup
gives_way = refl

-- With no error, the owner file and the directory are removed.
removes_all :
    result_of (
      replay
        (release read_json own_guard false)
        (pins (
          of_stat (err enoent)
          ∷ done
          ∷ of_stat (ok dir_stats)
          ∷ pins (
              of_stat (err enoent)
              ∷ done
              ∷ of_stat (ok file_stats)
              ∷ done
              ∷ of_stat (ok file_stats)
              ∷ done
              ∷ of_stat (ok file_stats)
              ∷ done
              ∷ done
              ∷ [])))
        [])
    ≡ some released
unfolding release read_pinned_owner parse_owner lookup
removes_all = refl

acquire-ClaimsSafely_example :
    Holds (ClaimsSafely read_json own) (IfAcquired read_json own) [] (acquire read_json true own)
acquire-ClaimsSafely_example = acquire-ClaimsSafely read_json own true

release-RemovesOwn_example :
    Holds (RemovesOwn own_guard) AnyEnd [] (release read_json own_guard false)
release-RemovesOwn_example = release-RemovesOwn read_json own_guard false

assert_held_is_own_example :
    Holds OnlyReads (IfHeld read_json own_guard) [] (assert_held read_json false own_guard)
assert_held_is_own_example = assert_held_is_own read_json own_guard false
