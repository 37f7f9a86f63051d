-- ===== src/StateModel/Counts.antt =====
-- state-model.ts, the counters: what `incrementCount`, the lowering in `transitionRelease` and the
-- permit names do.
use text.Mathlib.TextLemmas.{append_cancel_left}
use dsh_subagent_admission.Prelude.{
  ℕ, ◌+◌, ◌-◌, ◌<◌, ◌≡◌, ◌≢◌, String, some, Dict, lookup, lookup-insert, lookup-erase, total,
  total-insert, total-erase, IsMap, insert-IsMap, erase-IsMap, arith, eq_iff, ◌==◌, if◌then◌else◌,
  decimal-injective,
}
use dsh_subagent_admission.StateModel.{count_at, increment_count, permit_name}
use dsh_subagent_admission.StateModel.Transitions.{decrement_count}

pub permit_name-injective : (m n : ℕ) → permit_name m ≡ permit_name n → m ≡ n
unfolding permit_name
permit_name-injective m n e = decimal-injective m n (append_cancel_left "permit-" _ _ e)

module _ (m : Dict ℕ) (key : String) where
  pub count_at-increment_count :
      (k : String) → count_at k (increment_count m key) ≡ count_at k m + (if key == k then 1 else 0)
  unfolding increment_count
  count_at-increment_count k =
      ground (arith, lookup-insert key k (count_at key m + 1) m, eq_iff key k)

  pub increment_count-IsMap : IsMap m → IsMap (increment_count m key)
  unfolding increment_count
  increment_count-IsMap h = insert-IsMap key _ m h

  pub total-increment_count : total (λ n. n) (increment_count m key) ≡ total (λ n. n) m + 1
  unfolding increment_count
  total-increment_count = ground (arith, total-insert (λ n. n) key (count_at key m + 1) m)

  pub count_at-decrement_count :
      (k : String) → count_at k (decrement_count m key) ≡ count_at k m - (if key == k then 1 else 0)
  unfolding decrement_count
  count_at-decrement_count k =
      ground (arith, lookup-insert key k (count_at key m - 1) m, lookup-erase key k m, eq_iff key k)

  pub decrement_count-IsMap : IsMap m → IsMap (decrement_count m key)
  unfolding decrement_count
  decrement_count-IsMap h =
      ground (arith, insert-IsMap key (count_at key m - 1) m, erase-IsMap key m)

  pub total-decrement_count :
      IsMap m → 0 < count_at key m → total (λ n. n) (decrement_count m key) + 1 ≡ total (λ n. n) m
  unfolding decrement_count
  total-decrement_count h pos =
      ground (arith, total-insert (λ n. n) key (count_at key m - 1) m, total-erase (λ n. n) key m h)

  -- No stored count is zero.
  pub increment_count_positive :
      (k : String) → lookup k m ≢ some 0 → lookup k (increment_count m key) ≢ some 0
  unfolding increment_count
  increment_count_positive k h e = ground (arith, lookup-insert key k (count_at key m + 1) m)

  pub decrement_count_positive :
      (k : String) → lookup k m ≢ some 0 → lookup k (decrement_count m key) ≢ some 0
  unfolding decrement_count
  decrement_count_positive k h e =
      ground (arith, lookup-insert key k (count_at key m - 1) m, lookup-erase key k m)
