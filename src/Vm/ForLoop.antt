-- ===== src/Vm/ForLoop.antt =====
-- The numeric `for` loop: `forlimit`, `forprep` and `floatforloop` of src/vm/mod.rs, and the step
-- of `OP_FORLOOP` in src/vm/interp/mod.rs. The four registers of a loop are a record.
pub mod Count
pub mod Visits
use tsuki.Base.{
  ℕ, ◌+◌, ◌-◌, ◌/◌, ◌%◌, ◌^◌, Bool, true, false, Option, none, some, ltb, ◌==◌, if◌then◌else◌,
}
use tsuki.Base.Int.{ℤ, pos, ◌+ℤ◌, ◌-ℤ◌, ltb_ℤ}
use tsuki.Base.Int64.{to_u64, of_u64, i64_min, i64_max}
use tsuki.Value.{Floats, Value, nil, boolean, int, num, str, object}
use tsuki.Vm.Arith.{is_zero}
use tsuki.Vm.Convert.{f2i_floor, f2i_ceil, tonumber, tointeger}

pub record ForState (F : Type 0) : Type 0 where
  pub init : Value F
  pub limit : Value F
  pub step : Value F
  pub control : Value F

pub data Slot : Type 0 where
  limit_slot step_slot init_slot : Slot

-- 'for' step is zero; `luaG_forerror` on the slot that is no number
pub data ForError : Type 0 where
  step_is_zero : ForError
  not_number : Slot → ForError

pub data Result {ℓ} (A : Type ℓ) : Type ℓ where
  ok : A → Result A
  err : ForError → Result A

infixl 5 ◌>>=◌
abbrev pub ◌>>=◌ {ℓ κ} : {A : Type ℓ} {B : Type κ} → Result A → (A → Result B) → Result B
ok a >>= f = f a
err e >>= f = err e

pub past : ℤ → ℤ → ℤ → Bool
past init p step = if ltb_ℤ (pos 0) step then ltb_ℤ p init else ltb_ℤ init p

sub_u64 : ℤ → ℤ → ℕ
sub_u64 a b = (to_u64 a + 2 ^ 64 - to_u64 b) % 2 ^ 64

-- How often the loop goes back, from its first value, its limit and its step.
unfoldable pub iterations : ℤ → ℤ → ℤ → ℕ
unfolding sub_u64 ◌+ℤ◌ ◌-ℤ◌
iterations init limit step =
    if ltb_ℤ (pos 0) step
    then (let count = sub_u64 limit init in
        if is_zero (step -ℤ pos 1) then count else count / to_u64 step)
    else sub_u64 init limit / ((to_u64 (pos 0 -ℤ (step +ℤ pos 1)) + 1) % 2 ^ 64)

module _ (fl : Floats) where
  open fl use {Float, ltf, lef, add, of_int}

  -- A float or what converts to one; the error names the slot.
  float_of : Slot → Value Float → Result Float
  float_of slot (num n) = ok n
  float_of slot v = elim (tonumber fl v) [ some n ↦ ok n | none ↦ err (not_number slot) ]

  -- A float limit beyond the integers: past the end it skips the loop, else it is clipped.
  clip : ℤ → ℤ → Bool → Result (ℤ × Bool)
  unfolding past
  clip init step true =
      if ltb_ℤ step (pos 0) then ok (pos 0, true) else ok (i64_max, past init i64_max step)
  clip init step false =
      if ltb_ℤ (pos 0) step then ok (pos 0, true) else ok (i64_min, past init i64_min step)

  -- The limit that is stored, and whether the loop is skipped.
  unfoldable pub forlimit : ℤ → Value Float → ℤ → Result (ℤ × Bool)
  unfolding float_of clip
  forlimit init lim step =
      elim (tointeger fl lim (if ltb_ℤ step (pos 0) then f2i_ceil else f2i_floor)) [
        | some p ↦ ok (p, past init p step)
        | none ↦ do flim ← float_of limit_slot lim; clip init step (ltf (of_int (pos 0)) flim)
      ]

  -- The integer loop: `true` skips it. The registers that are not written keep what they hold.
  prep_int : ForState Float → ℤ → ℤ → Result (ForState Float × Bool)
  unfolding forlimit iterations
  prep_int s init step = if is_zero step then err step_is_zero else (do
    (limit, skip) ← forlimit init s.limit step
    ok (
        if skip then (record s { control = int init }, true) else (
          record s { limit = int (of_u64 (iterations init limit step)); control = int init },
          false,
        )))

  prep_float : ForState Float → Result (ForState Float × Bool)
  unfolding float_of
  prep_float s = do
    limit ← float_of limit_slot s.limit
    step ← float_of step_slot s.step
    init ← float_of init_slot s.init
    let ends = if ltf (of_int (pos 0)) step then ltf limit init else ltf init limit
    elim (fl.eqf step (of_int (pos 0))) [
      | true ↦ err step_is_zero
      | false ↦ ok (
          if ends then (s, true) else (
            record { init = num init; limit = num limit; step = num step; control = num init },
            false,
          ))
    ]

  prep : ForState Float → Value Float → Value Float → Result (ForState Float × Bool)
  unfolding prep_int prep_float
  prep s (int init) (int step) = prep_int s init step
  prep s _ _ = prep_float s

  unfoldable pub forprep : ForState Float → Result (ForState Float × Bool)
  unfolding prep
  forprep s = prep s s.init s.step

  -- One `OP_FORLOOP`: `true` goes back to the body. `none` is a register of another type.
  unfoldable pub floatforloop : ForState Float → Float → Float → Float → ForState Float × Bool
  floatforloop s init limit step =
      let idx = add init step in
      if (if ltf (of_int (pos 0)) step then lef idx limit else lef limit idx)
      then (record s { init = num idx; control = num idx }, true)
      else (s, false)

  int_loop : ForState Float → ℤ → ℤ → ℤ → ForState Float × Bool
  int_loop s init limit step =
      let count = to_u64 limit in
      let idx = of_u64 ((to_u64 init + to_u64 step) % 2 ^ 64) in
      if ltb 0 count
      then (
        record s {
          init = int idx;
          limit = int (of_u64 ((count + 2 ^ 64 - 1) % 2 ^ 64));
          control = int idx;
        },
        true,
      )
      else (s, false)

  loop_step :
      ForState Float → Value Float → Value Float → Value Float → Option (ForState Float × Bool)
  unfolding floatforloop int_loop
  loop_step s (int init) (int limit) (int step) = some (int_loop s init limit step)
  loop_step s (num init) (num limit) (num step) = some (floatforloop s init limit step)
  loop_step s _ _ _ = none

  unfoldable pub forloop : ForState Float → Option (ForState Float × Bool)
  unfolding loop_step
  forloop s = loop_step s s.init s.limit s.step
