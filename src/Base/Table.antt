-- ===== src/Base/Table.antt =====
-- Facts about small numbers that are decided by running a test on each.
use native.Mathlib.Decide.{ℕ_discrete}
use tsuki.Base.{
  ℕ, zero, suc, ◌+◌, ◌≤◌, ◌<◌, ◌≡◌, refl, ap, ◌∙◌, Bool, true, false, not, ◌&&◌, arith,
}

-- The test on `count` numbers from `first` on.
unfoldable pub all_from : ℕ → ℕ → (ℕ → Bool) → Bool
all_from first zero test = true
all_from first (suc count) test = test first && all_from (first + 1) count test

abbrev pub all_below : ℕ → (ℕ → Bool) → Bool
all_below n test = all_from 0 n test

and_parts : (a b : Bool) → a && b ≡ true → (a ≡ true) × (b ≡ true)
and_parts true b both = (refl, both)
and_parts false b both = cc

all_from_lem :
    (first count : ℕ) (test : ℕ → Bool) (x : ℕ)
    → first ≤ x
    → x < first + count
    → all_from first count test ≡ true
    → test x ≡ true
unfolding all_from
all_from_lem first zero test x low high runs = absurd (omega arith)
all_from_lem first (suc count) test x low high runs =
    let (here, later) = and_parts (test first) (all_from (first + 1) count test) runs in
    elim (ℕ_discrete x first) [
      | yes same ↦ ap test same ∙ here
      | no apart ↦ all_from_lem (first + 1) count test x (omega arith) (omega arith) later
    ]

pub all_below_lem :
    {n : ℕ} (test : ℕ → Bool) {x : ℕ} → all_below n test ≡ true → x < n → test x ≡ true
all_below_lem {n} test {x} runs small = all_from_lem 0 n test x (omega arith) (omega arith) runs

abbrev pub agree : Bool → Bool → Bool
agree true b = b
agree false b = not b

pub agree_lem : (a b : Bool) → agree a b ≡ true → a ≡ b
agree_lem a b same = ground arith

pub agree_below :
    (n : ℕ) (p q : ℕ → Bool) (x : ℕ)
    → all_below n (λ y. agree (p y) (q y)) ≡ true
    → x < n
    → p x ≡ q x
agree_below n p q x runs small =
    agree_lem (p x) (q x) (all_below_lem (λ y. agree (p y) (q y)) runs small)
