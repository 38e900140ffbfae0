-- ===== src/Value.antt =====
-- Lua values (src/value/mod.rs) and the operations of `f64` that the source calls. The floats are a
-- parameter; a garbage-collected object other than a string is its address.
use tsuki.Base.{ℕ, Bool, Option, none, some, List, [], ◌∷◌, ◌||◌, ◌==◌, if◌then◌else◌}
use mathlib.Core.List.{reverse}
use tsuki.Base.Int.{ℤ}
use tsuki.Number.{str2int}

pub record Floats : Type 1 where
  pub Float : Type 0
  pub eqf : Float → Float → Bool
  pub ltf : Float → Float → Bool
  pub lef : Float → Float → Bool
  pub add : Float → Float → Float
  pub floor : Float → Float
  pub negate : Float → Float
  -- `i as f64` and `f as i64`
  pub of_int : ℤ → Float
  pub to_int : Float → ℤ
  -- `from_utf8` and then `str::parse`
  pub parse : List ℕ → Option Float
  pub is_finite : Float → Bool

pub data Value (F : Type 0) : Type 0 where
  nil : Value F
  boolean : Bool → Value F
  int : ℤ → Value F
  num : F → Value F
  str : List ℕ → Value F
  object : ℕ → Value F

-- `u8::is_ascii_whitespace`
abbrev white : ℕ → Bool
white b = b == 32 || b == 9 || b == 10 || b == 12 || b == 13

trim_start : List ℕ → List ℕ
trim_start [] = []
trim_start (b ∷ s) = if white b then trim_start s else b ∷ s

-- `trim_ascii`
abbrev trim : List ℕ → List ℕ
trim s = reverse (trim_start (reverse (trim_start s)))

module _ (fl : Floats) where
  open fl use {Float, parse, is_finite}

  unfoldable pub str2d : List ℕ → Option Float
  unfolding trim_start
  str2d s = elim (parse (trim s)) [ none ↦ none | some v ↦ if is_finite v then some v else none ]

  -- `luaO_str2num`
  unfoldable pub str2num : List ℕ → Option (Value Float)
  str2num s = elim (str2int s) [
    | some i ↦ some (int i)
    | none ↦ elim (str2d s) [ some n ↦ some (num n) | none ↦ none ]
  ]
