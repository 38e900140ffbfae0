-- ===== src/Gc/Sweep/Cycle.antt =====
-- A whole sweep, in as many steps as it takes (src/gc/mod.rs).
use tsuki.Base.{
  ℕ, zero, suc, ◌+◌, ◌≤◌, ◌<◌, ◌≡◌, refl, sym, ap, ◌∙◌, Bool, true, false, not, Option, none, some,
  List, [], ◌∷◌, ◌++◌, ◌==◌, length, arith, length-append,
}
use mathlib.Core.List.{append_assoc, append-nil}
use tsuki.Gc.Mark.{other_white}
use tsuki.Gc.Sweep.{
  Object, Gc, Released, free, sweep_state, sweep_more, sweep_step, begin_sweep, is_nil,
}
use tsuki.Gc.Sweep.Part.{survivors_of, dead_of, free_all, swept, sweep_loop_lem}

-- Two parts that are swept in turn.
survivors_of-append :
    (white : ℕ) (xs ys : List Object)
    → survivors_of white (xs ++ ys) ≡ survivors_of white xs ++ survivors_of white ys
survivors_of-append white [] ys = refl
survivors_of-append white (x ∷ xs) ys = ground (arith, survivors_of-append white xs ys)

dead_of-append :
    (white : ℕ) (xs ys : List Object)
    → dead_of white (xs ++ ys) ≡ dead_of white xs ++ dead_of white ys
dead_of-append white [] ys = refl
dead_of-append white (x ∷ xs) ys = ground (arith, dead_of-append white xs ys)

free_all-append :
    (xs ys : List Object) (h : Released) → free_all (xs ++ ys) h ≡ free_all ys (free_all xs h)
free_all-append [] ys h = refl
free_all-append (x ∷ xs) ys h = free_all-append xs ys (free x h)

-- A sweep with fuel: the state when the collector is idle again. `none` is a panic, or the end of
-- the fuel.
abbrev and_then : Option Gc → (Gc → Option Gc) → Option Gc
and_then none k = none
and_then (some g) k = k g

abbrev stop_if : Bool → Gc → Option Gc → Option Gc
stop_if true g next = some g
stop_if false g next = next

abbrev pub sweep_all : ℕ → Gc → Option Gc
sweep_all zero g = none
sweep_all (suc n) g = stop_if (g.state == 8) g (and_then (sweep_step g) (λ g'. sweep_all n g'))

-- The idle state after a sweep of `os`.
abbrev pub idle : List Object → Gc → Gc
idle os g =
    let s = swept os [] g in record s { sweep = false; state = 8; debt = s.debt + s.survivors }

idle-swept :
    (done left : List Object) (b : Bool) (g : Gc)
    → idle left (record (swept done left g) { sweep = b }) ≡ idle (done ++ left) g
idle-swept done left b g =
    let w = g.currentwhite in
    ground (
      arith,
      append_assoc g.ahead (survivors_of w done) (survivors_of w left),
      survivors_of-append w done left,
      dead_of-append w done left,
      free_all-append (dead_of w done) (dead_of w left) g.heap,
      length-append (survivors_of w done) (survivors_of w left),
      length-append (dead_of w done) (dead_of w left),
    )

-- The first branch of a step.
more-moves :
    (g : Gc)
    → length (dead_of g.currentwhite g.rest) ≤ g.debt
    → (done : List Object) × (left : List Object) × (g.rest ≡ done ++ left)
      × (sweep_more g ≡ some (record (swept done left g) { sweep = not (is_nil left) }))
      × (0 < length left → 0 < length done)
unfolding sweep_more
more-moves g fits =
    let part = sweep_loop_lem 100 0 g.rest g fits in
    (
      part.done,
      part.left,
      part.parts,
      rw (part.returns, sweep_more) refl,
      λ some_left.
          part.moves
            (omega arith, omega (arith, ap length part.parts, length-append part.done part.left)),
    )

step_on : (g : Gc) → g.sweep ≡ true → sweep_step g ≡ sweep_more g
unfolding sweep_step sweep_state
step_on g on = ap (λ b. sweep_state b g) on

step_off :
    (g : Gc)
    → g.sweep ≡ false
    → sweep_step g ≡ some (record g { debt = g.debt + g.survivors; state = 8 })
unfolding sweep_step sweep_state
step_off g off = ap (λ b. sweep_state b g) off

all_done : (n : ℕ) (g : Gc) → g.state ≡ 8 → sweep_all (suc n) g ≡ some g
all_done n g st = ap (λ s. stop_if (s == 8) g (and_then (sweep_step g) (sweep_all n))) st

all_more :
    (n : ℕ) (g g' : Gc)
    → g.state ≡ 3
    → sweep_step g ≡ some g'
    → sweep_all (suc n) g ≡ sweep_all n g'
all_more n g g' st step =
    ap (λ s. stop_if (s == 8) g (and_then (sweep_step g) (sweep_all n))) st
    ∙ ap (λ r. and_then r (sweep_all n)) step

sweep_off :
    (n : ℕ) (g : Gc)
    → g.state ≡ 3
    → g.sweep ≡ false
    → 1 < n
    → sweep_all n g ≡ some (record g { debt = g.debt + g.survivors; state = 8 })
sweep_off zero g st off lt = absurd (omega arith)
sweep_off (suc zero) g st off lt = absurd (omega arith)
sweep_off (suc (suc n)) g st off lt = all_more (suc n) g _ st (step_off g off) ∙ all_done n _ refl

-- What is left after a step.
between : List Object → List Object → Bool → Gc → Gc
between done left b g = record (swept done left g) { sweep = b }

ending :
    (done : List Object) (g : Gc)
    → let s = between done [] false g in
      record s { debt = s.debt + s.survivors; state = 8 } ≡ idle [] s
unfolding between
ending done g = ground (arith, append-nil (g.ahead ++ survivors_of g.currentwhite done))

after_step :
    (n : ℕ) (g : Gc) (done left : List Object)
    → g.state ≡ 3
    → 1 < n
    → g.rest ≡ done ++ left
    → (0 < length left
        → sweep_all n (between done left true g) ≡ some (idle left (between done left true g)))
    → sweep_all n (between done left (not (is_nil left)) g) ≡ some (idle g.rest g)
unfolding is_nil between
after_step n g done [] st lt parts again =
    sweep_off n (between done [] false g) st refl lt
    ∙ ap some (ending done g ∙ idle-swept done [] false g ∙ ap (λ l. idle l g) (sym parts))
after_step n g done (x ∷ xs) st lt parts again =
    again (omega arith) ∙ ap some (idle-swept done (x ∷ xs) true g ∙ ap (λ l. idle l g) (sym parts))

sweep_on :
    (n : ℕ) (g : Gc)
    → g.state ≡ 3
    → g.sweep ≡ true
    → length (dead_of g.currentwhite g.rest) ≤ g.debt
    → length g.rest + 2 < n
    → sweep_all n g ≡ some (idle g.rest g)
unfolding between
sweep_on zero g st on fits lt = absurd (omega arith)
sweep_on (suc n) g st on fits lt =
    let (done, left, parts, step, moves) = more-moves g fits in
    let total : length g.rest ≡ length done + length left =
      ap length parts ∙ length-append done left in
    let deads : length (dead_of g.currentwhite g.rest)
        ≡ length (dead_of g.currentwhite done) + length (dead_of g.currentwhite left) =
      ap (λ l. length (dead_of g.currentwhite l)) parts
      ∙ ap length (dead_of-append g.currentwhite done left)
      ∙ length-append (dead_of g.currentwhite done) (dead_of g.currentwhite left) in
    all_more n g _ st (step_on g on ∙ step)
    ∙ after_step n g done left st (omega arith) parts (λ some_left.
      sweep_on n (between done left true g) st refl (omega arith) (omega (arith, moves some_left)))

pub sweep_all-begin_sweep :
    (n fresh : ℕ) (g : Gc)
    → length (dead_of (other_white g.currentwhite) (g.ahead ++ g.rest)) ≤ g.debt + 1
    → length (g.ahead ++ g.rest) + 2 < n
    → sweep_all n (begin_sweep fresh g) ≡ some (idle (g.ahead ++ g.rest) (begin_sweep fresh g))
unfolding begin_sweep
sweep_all-begin_sweep n fresh g fits lt = sweep_on n (begin_sweep fresh g) refl refl fits lt
