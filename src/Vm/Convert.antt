-- ===== src/Vm/Convert.antt =====
-- Conversions between numbers and to numbers: `luaV_tonumber_`, `luaV_flttointeger`,
-- `luaV_tointegerns` and `luaV_tointeger` of src/vm/mod.rs.
use tsuki.Base.{◌&&◌, not, Option, none, some, if◌then◌else◌}
use tsuki.Base.Int.{ℤ, pos}
use tsuki.Base.Int64.{i64_min}
use tsuki.Value.{Floats, Value, int, num, str, str2num}

-- The rounding modes: exact, down and up.
pub data F2Imod : Type 0 where
  f2i_eq f2i_floor f2i_ceil : F2Imod

module _ (fl : Floats) where
  open fl use {Float, eqf, ltf, lef, add, floor, negate, of_int, to_int}

  unfoldable pub strton : Value Float → Option (Value Float)
  strton (str s) = str2num fl s
  strton _ = none

  unfoldable pub tonumber : Value Float → Option Float
  unfolding strton
  tonumber (int i) = some (of_int i)
  tonumber v = elim (strton v) [
    | none ↦ none
    | some w ↦ elim w [ int i ↦ some (of_int i) | num n ↦ some n | _ ↦ none ]
  ]

  in_range : Float → Option ℤ
  in_range f =
      if lef (of_int i64_min) f && ltf f (negate (of_int i64_min)) then some (to_int f) else none

  unfoldable pub flttointeger : Float → F2Imod → Option ℤ
  unfolding in_range
  flttointeger n mode =
      let f = floor n in
      if not (eqf n f)
      then elim mode [
        | f2i_eq ↦ none
        | f2i_ceil ↦ in_range (add f (of_int (pos 1)))
        | f2i_floor ↦ in_range f
      ]
      else in_range f

  unfoldable pub tointegerns : Value Float → F2Imod → Option ℤ
  tointegerns (num n) mode = flttointeger n mode
  tointegerns (int i) mode = some i
  tointegerns _ mode = none

  unfoldable pub tointeger : Value Float → F2Imod → Option ℤ
  unfolding strton
  tointeger v mode = elim (strton v) [ some w ↦ tointegerns w mode | none ↦ tointegerns v mode ]
