-- ===== src/Vm/ForLoop/Visits.antt =====
-- The whole integer loop: `forprep` of src/vm/mod.rs, then `OP_FORLOOP` of src/vm/interp/mod.rs
-- until it falls through. It runs the body once for each value of its range, in order.
use mathlib.Core.Option
use tsuki.Base.{
  ℕ, zero, suc, ◌+◌, ◌-◌, ◌%◌, ◌^◌, ◌≤◌, ◌<◌, ◌≡◌, ◌↔◌, refl, ap, Bool, true, false, Option, none,
  some, List, [], ◌∷◌, ltb, if◌then◌else◌, arith, Bool-cases, inl, inr,
}
use tsuki.Base.Int.{ℤ, pos, negsuc, ◌+ℤ◌}
use tsuki.Base.Int64.{of_u64, IsI64, to_u64-of_u64}
use tsuki.Value.{Floats, Value, int}
use tsuki.Vm.Arith.{is_zero}
use tsuki.Vm.Convert.{tointeger, tointegerns, strton}
use tsuki.Vm.ForLoop.{
  ForState, Result, ok, iterations, forlimit, forprep, prep_int, forloop, int_loop, past, ◌>>=◌,
}
use tsuki.Vm.ForLoop.Count.{
  nth, nth_up, nth_down, Within, add_wrapped, iterations_count, iterations-lt,
}

false_true : {b : Bool} {P : Type 0} → b ≡ true → b ≡ false → P
false_true h k = cc

module _ (fl : Floats) where
  open fl use {Float}

  -- The control values that the body sees, with fuel; `none` is a fault or the end of the fuel.
  abbrev pub visits : ℕ → ForState Float → Option (List (Value Float))
  visits zero s = none
  visits (suc n) s = elim (forloop fl s) [
    | none ↦ none
    | some (s', again) ↦ elim again [
      | true ↦ Option.map (λ vs. s.control ∷ vs) (visits n s')
      | false ↦ some (s.control ∷ [])
    ]
  ]

  abbrev pub run_loop : ℕ → ForState Float → Result (Option (List (Value Float)))
  run_loop n s = do (s', skip) ← forprep fl s; ok (if skip then some [] else visits n s')

  -- The first `k` values of the progression.
  abbrev pub terms : ℤ → ℤ → ℕ → List (Value Float)
  terms a step zero = []
  terms a step (suc k) = int a ∷ terms (a +ℤ step) step k

  abbrev running : ℤ → ℕ → ℤ → ForState Float
  running a c step = record {
    init = int a;
    limit = int (of_u64 c);
    step = int step;
    control = int a;
  }

  forloop_again :
      (a step : ℤ) (c : ℕ)
      → IsI64 a
      → IsI64 step
      → IsI64 (a +ℤ step)
      → suc c < 2 ^ 64
      → forloop fl (running a (suc c) step) ≡ some (running (a +ℤ step) c step, true)
  unfolding forloop int_loop
  forloop_again a step c ha hs hn lt =
      let count : (suc c + 2 ^ 64 - 1) % 2 ^ 64 ≡ c = omega arith in
      let some_left : ltb 0 (suc c) ≡ true = ground arith in
      rw (to_u64-of_u64 (suc c) lt, some_left, count, add_wrapped a step ha hs hn) refl

  forloop_last : (a step : ℤ) → forloop fl (running a 0 step) ≡ some (running a 0 step, false)
  unfolding forloop
  forloop_last a step = refl

  visits_lem :
      (c n : ℕ) (a step : ℤ)
      → c < n
      → c < 2 ^ 64
      → IsI64 step
      → ((k : ℕ) → k ≤ c → IsI64 (nth a step k))
      → visits n (running a c step) ≡ some (terms a step (suc c))
  visits_lem c zero a step lt small hs inside = absurd (omega arith)
  visits_lem zero (suc n) a step lt small hs inside = rw (forloop_last a step, visits) refl
  visits_lem (suc c) (suc n) a step lt small hs inside =
      rw (forloop_again a step c (inside 0 (omega arith)) hs (inside 1 (omega arith)) small, visits)
        (rw
          (visits_lem c n (a +ℤ step) step (omega arith) (omega arith) hs
            (λ k h. inside (suc k) (omega arith)))
          refl)

  abbrev pub start : ℤ → ℤ → ℤ → Value Float → ForState Float
  start init limit step v = record {
    init = int init;
    limit = int limit;
    step = int step;
    control = v;
  }

  past_lem :
      (init limit step : ℤ)
      → is_zero step ≡ false
      → (past init limit step ≡ false) ↔ Within limit step init
  unfolding past
  past_lem init limit (pos zero) nz = cc
  past_lem init limit (pos (suc s)) nz = (ground arith, ground arith)
  past_lem init limit (negsuc s) nz = (ground arith, ground arith)

  prep_lem :
      (init limit step : ℤ) (v : Value Float)
      → is_zero step ≡ false
      → forprep fl (start init limit step v)
        ≡ ok (
            if past init limit step
            then (
              record { init = int init; limit = int limit; step = int step; control = int init },
              true,
            )
            else (running init (iterations init limit step) step, false))
  unfolding forprep prep_int forlimit tointeger tointegerns strton
  prep_lem init limit step v nz = rw nz refl

  -- A value past the limit is followed by values past it only.
  past_stays :
      (init limit step : ℤ) (k : ℕ)
      → is_zero step ≡ false
      → Within limit step (nth init step k)
      → Within limit step init
  past_stays init limit (pos zero) k nz h = cc
  past_stays init limit (pos (suc s)) k nz h = omega (arith, nth_up init (suc s) k)
  past_stays init limit (negsuc s) k nz h = omega (arith, nth_down init s k)

  Within-IsI64 :
      (init limit step : ℤ) (k : ℕ)
      → IsI64 init
      → IsI64 limit
      → is_zero step ≡ false
      → Within limit step (nth init step k)
      → IsI64 (nth init step k)
  Within-IsI64 init limit (pos zero) k hi hl nz h = cc
  Within-IsI64 init limit (pos (suc s)) k hi hl nz h = omega (arith, nth_up init (suc s) k)
  Within-IsI64 init limit (negsuc s) k hi hl nz h = omega (arith, nth_down init s k)

  -- An integer loop with a step other than 0 runs its body for exactly the values of the
  -- progression from `init` by `step` that have not passed `limit`: it ends whenever the fuel is
  -- at least their number, and no value wraps.
  pub for_loop_visits :
      (init limit step : ℤ) (v : Value Float)
      → IsI64 init
      → IsI64 limit
      → IsI64 step
      → is_zero step ≡ false
      → (c : ℕ) × ((k : ℕ) → (k < c) ↔ Within limit step (nth init step k))
        × ((n : ℕ) → c ≤ n → run_loop n (start init limit step v) ≡ ok (some (terms init step c)))
        × ((k : ℕ) → k < c → IsI64 (nth init step k))
  for_loop_visits init limit step v hi hl hs nz = elim (Bool-cases (past init limit step)) [
    | inl ends ↦ (
      0,
      λ k. (
        λ p. absurd (omega arith),
        λ h. false_true ends ((past_lem init limit step nz).1 (past_stays init limit step k nz h)),
      ),
      λ n le. rw (prep_lem init limit step v nz, ends) refl,
      λ k p. absurd (omega arith),
    )
    | inr runs ↦
        let first = (past_lem init limit step nz).0 runs in
        let counts = λ (k : ℕ). iterations_count init limit hi hl step k hs nz first in
        let inside : (k : ℕ) → k ≤ iterations init limit step → IsI64 (nth init step k) =
          λ k p. Within-IsI64 init limit step k hi hl nz ((counts k).0 p) in
        (
          suc (iterations init limit step),
          λ k. (λ p. (counts k).0 (omega arith), λ h. omega (arith, (counts k).1 h)),
          λ n le.
              rw (prep_lem init limit step v nz, runs)
                (ap ok (
                  visits_lem (iterations init limit step) n init step (omega arith)
                    (iterations-lt init limit hi hl step hs nz first) hs inside)),
          λ k p. inside k (omega arith),
        )
  ]
