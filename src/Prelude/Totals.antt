-- ===== src/Prelude/Totals.antt =====
-- Sums over the values of a map: its size, and how many values pass a test.
use Prim.Native.Nat.{◌<◌, ℕ, suc, ◌+◌, ◌≤◌}
use Prim.Native.String.{String}
use mathlib.Core.Path.{◌≡◌, refl}
use mathlib.Core.List.{[], ◌∷◌}
use mathlib.Core.Option.{Option, none, some}
use native.Mathlib.Omega.{arith}
use text.Mathlib.TextEquality.{eq_iff}
use dsh_subagent_admission.Prelude.Maps.{
  Dict, lookup, insert, erase, IsMap, lookup-insert, lookup-erase,
}

-- `m.size`
abbrev pub size {ℓ} : {V : Type ℓ} → Dict V → ℕ
size [] = 0
size (e ∷ m) = suc (size m)

module _ {ℓ} {V : Type ℓ} where
  -- The sum of `w` over the values of the map.
  unfoldable pub total : (V → ℕ) → Dict V → ℕ
  total w [] = 0
  total w ((j, v) ∷ m) = w v + total w m

  abbrev pub weight : (V → ℕ) → Option V → ℕ
  weight w none = 0
  weight w (some v) = w v

  pub total-nil : (w : V → ℕ) → total w [] ≡ 0
  unfolding total
  total-nil w = refl

  pub total-insert :
      (w : V → ℕ) (k : String) (v : V) (m : Dict V)
      → total w (insert k v m) + weight w (lookup k m) ≡ total w m + w v
  unfolding total lookup insert
  total-insert w k v [] = omega arith
  total-insert w k v ((j, u) ∷ m) = ground (arith, total-insert w k v m)

  erase_absent : (k : String) (m : Dict V) → lookup k m ≡ none → erase k m ≡ m
  unfolding lookup erase
  erase_absent k [] h = refl
  erase_absent k ((j, u) ∷ m) h = ground (arith, erase_absent k m)

  pub total-erase :
      (w : V → ℕ) (k : String) (m : Dict V)
      → IsMap m
      → total w (erase k m) + weight w (lookup k m) ≡ total w m
  unfolding total lookup erase
  total-erase w k [] h = omega arith
  total-erase w k ((j, u) ∷ m) h =
      ground (arith, eq_iff j k, total-erase w k m h.1, erase_absent k m)

  pub insert-IsMap : (k : String) (v : V) (m : Dict V) → IsMap m → IsMap (insert k v m)
  unfolding lookup insert
  insert-IsMap k v [] h = (refl, tt)
  insert-IsMap k v ((j, u) ∷ m) h =
      ground (arith, eq_iff j k, eq_iff k j, lookup-insert k j v m, insert-IsMap k v m h.1)

  pub erase-IsMap : (k : String) (m : Dict V) → IsMap m → IsMap (erase k m)
  unfolding lookup erase
  erase-IsMap k [] h = tt
  erase-IsMap k ((j, u) ∷ m) h =
      ground (arith, eq_iff j k, eq_iff k j, lookup-erase k j m, erase-IsMap k m h.1)

  pub size-total : (m : Dict V) → size m ≡ total (λ _. 1) m
  unfolding total
  size-total [] = refl
  size-total (e ∷ m) = omega (arith, size-total m)

  -- A present value weighs no more than the whole map.
  pub weight-le-total : (w : V → ℕ) (k : String) (m : Dict V) → weight w (lookup k m) ≤ total w m
  unfolding total lookup
  weight-le-total w k [] = omega arith
  weight-le-total w k ((j, u) ∷ m) = ground (arith, weight-le-total w k m)

  pub size-insert_pos : (k : String) (v : V) (m : Dict V) → 0 < size (insert k v m)
  unfolding insert
  size-insert_pos k v [] = omega arith
  size-insert_pos k v ((j, u) ∷ m) = ground arith

  pub size-insert :
      (k : String) (v : V) (m : Dict V) → lookup k m ≡ none → size (insert k v m) ≡ size m + 1
  size-insert k v m h =
      ground (arith, total-insert (λ _. 1) k v m, size-total m, size-total (insert k v m))

  pub size-erase :
      (k : String) (v : V) (m : Dict V)
      → IsMap m
      → lookup k m ≡ some v
      → size (erase k m) + 1 ≡ size m
  size-erase k v m u h =
      ground (arith, total-erase (λ _. 1) k m u, size-total m, size-total (erase k m))

  pub size-replace :
      (k : String) (v w : V) (m : Dict V) → lookup k m ≡ some v → size (insert k w m) ≡ size m
  size-replace k v w m h =
      ground (arith, total-insert (λ _. 1) k w m, size-total m, size-total (insert k w m))
