-- ===== src/Prelude/Maps.antt =====
-- A JavaScript `Map` with text keys: its entries in insertion order. `set` on a present key keeps
-- the entry's place, and `delete` takes the entry out.
use Prim.Native.String.{String}
use mathlib.Core.Path.{◌≡◌, refl}
use mathlib.Core.Bool.{Bool, true, false}
use mathlib.Core.List.{List, [], ◌∷◌}
use mathlib.Core.Option.{Option, none, some}
use native.Mathlib.Omega.{arith}
use text.Mathlib.TextEquality.{eq_iff}
use dsh_subagent_admission.Prelude.Tests.{◌==◌, if◌then◌else◌}

abbrev pub Dict {ℓ} : Type ℓ → Type ℓ
Dict V = List (String × V)

module _ {ℓ} {V : Type ℓ} where
  -- `m.get(key)`
  unfoldable pub lookup : String → Dict V → Option V
  lookup key [] = none
  lookup key ((own, value) ∷ rest) = if own == key then some value else lookup key rest

  -- `m.has(key)`
  abbrev pub contains : String → Dict V → Bool
  contains key m = elim (lookup key m) [ none ↦ false | some _ ↦ true ]

  -- `m.set(key, value)`
  unfoldable pub insert : String → V → Dict V → Dict V
  insert key value [] = (key, value) ∷ []
  insert key value ((own, old) ∷ rest) =
      if own == key then (own, value) ∷ rest else (own, old) ∷ insert key value rest

  -- `m.delete(key)`
  unfoldable pub erase : String → Dict V → Dict V
  erase key [] = []
  erase key ((own, old) ∷ rest) = if own == key then erase key rest else (own, old) ∷ erase key rest

  pub lookup-insert :
      (key other : String) (value : V) (m : Dict V)
      → lookup other (insert key value m) ≡ (if key == other then some value else lookup other m)
  unfolding lookup insert
  lookup-insert key other value [] = refl
  lookup-insert key other value ((own, old) ∷ rest) =
      let later = lookup-insert key other value rest in
      ground (arith, later, eq_iff own key, eq_iff own other, eq_iff key other)

  pub lookup-erase :
      (key other : String) (m : Dict V)
      → lookup other (erase key m) ≡ (if key == other then none else lookup other m)
  unfolding lookup erase
  lookup-erase key other [] = ground arith
  lookup-erase key other ((own, old) ∷ rest) =
      let later = lookup-erase key other rest in
      ground (arith, later, eq_iff own key, eq_iff own other, eq_iff key other)

  -- No key stands twice: what a `Map` guarantees.
  abbrev pub IsMap : Dict V → Type ℓ
  IsMap [] = Unit
  IsMap ((k, v) ∷ m) = (lookup k m ≡ none) × IsMap m
