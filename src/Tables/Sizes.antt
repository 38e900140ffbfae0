-- ===== src/Tables/Sizes.antt =====
-- `computesizes` of src/table/legacy.rs: the size of the array part for given counts of integer keys.
-- `nums` has at `i` the number of keys above 2 ^ (i - 1) and up to 2 ^ i, and `pna` is their sum.
pub mod Best
use tsuki.Base.{
  ℕ, zero, suc, ◌+◌, ◌*◌, ◌/◌, ◌%◌, ◌^◌, ◌&&◌, true, false, Option, none, some, List, [], ◌∷◌,
  get_or, ltb, if◌then◌else◌,
}

-- The variables of the loop.
pub record Sizing : Type 0 where
  pub i : ℕ
  pub twotoi : ℕ
  pub a : ℕ
  pub na : ℕ
  pub optimal : ℕ

-- The body of the loop. An index past the array is never used (Tables/Sizes/Best).
unfoldable pub size_step : List ℕ → Sizing → Sizing
size_step nums s =
    let a = (s.a + get_or nums s.i 0) % 2 ^ 32 in
    let better = ltb (s.twotoi / 2) a in
    record {
      i = s.i + 1;
      twotoi = s.twotoi * 2 % 2 ^ 32;
      a = a;
      na = if better then a else s.na;
      optimal = if better then s.twotoi else s.optimal;
    }

-- `none` when the rounds run out.
unfoldable pub size_loop : ℕ → List ℕ → ℕ → Sizing → Option Sizing
unfolding size_step
size_loop zero nums pna s = none
size_loop (suc n) nums pna s = elim (ltb 0 s.twotoi && ltb (s.twotoi / 2) pna) [
  | true ↦ size_loop n nums pna (size_step nums s)
  | false ↦ some s
]

abbrev pub result : Option Sizing → Option (ℕ × ℕ)
result none = none
result (some s) = some (s.optimal, s.na)

-- The size, and the number of keys that go to the array part.
unfoldable pub computesizes : List ℕ → ℕ → Option (ℕ × ℕ)
unfolding size_loop
computesizes nums pna =
    result (size_loop 33 nums pna (record { i = 0; twotoi = 1; a = 0; na = 0; optimal = 0 }))
