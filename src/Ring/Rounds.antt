-- ===== src/Ring/Rounds.antt =====
-- The loops that ask a test of index after index, where two tests agree.
use geometry.Prelude.{ℕ, zero, suc, ◌+◌, ◌<◌, ◌≤◌, Bool, true, false, arith}
use geometry.Prelude.Run.{Run}
use geometry.Prelude.Agree.{Agree, ok-Agree, or_else-Agree, and_then-Agree}
use geometry.Ring.{any_from, all_from}

module _ (test test' : ℕ → Run Bool) where
  pub any_from-Agree :
      (n i : ℕ)
      → ((j : ℕ) → i ≤ j → j < i + n → Agree (test j) (test' j))
      → Agree (any_from n i test) (any_from n i test')
  unfolding any_from
  any_from-Agree zero i h = ok-Agree false
  any_from-Agree (suc n) i h =
      or_else-Agree (test i) (test' i) (any_from n (i + 1) test) (any_from n (i + 1) test')
        (h i (omega arith) (omega arith))
        (any_from-Agree n (i + 1) λ j low high. h j (omega arith) (omega arith))

  pub all_from-Agree :
      (n i : ℕ)
      → ((j : ℕ) → i ≤ j → j < i + n → Agree (test j) (test' j))
      → Agree (all_from n i test) (all_from n i test')
  unfolding all_from
  all_from-Agree zero i h = ok-Agree true
  all_from-Agree (suc n) i h =
      and_then-Agree (test i) (test' i) (all_from n (i + 1) test) (all_from n (i + 1) test')
        (h i (omega arith) (omega arith))
        (all_from-Agree n (i + 1) λ j low high. h j (omega arith) (omega arith))
