-- ===== src/Gc/Mark.antt =====
-- The mark byte (src/gc/mark.rs, and its uses in src/gc/mod.rs): bits 3 and 4 are the two whites,
-- bit 5 is black, and an object with none of them is gray.
pub mod Colours
use tsuki.Base.{
  ℕ, ◌-◌, ◌^◌, bit_and, bit_or, bit_xor, Bool, true, false, not, ◌==◌, ◌||◌, if◌then◌else◌,
}

abbrev pub whites : ℕ
whites = bit_or (2 ^ 3) (2 ^ 4)

abbrev pub black_bit : ℕ
black_bit = 2 ^ 5

-- `!m` on `u8`
abbrev pub not8 : ℕ → ℕ
not8 m = 2 ^ 8 - 1 - m

unfoldable pub is_white : ℕ → Bool
is_white m = not (bit_and m whites == 0)

unfoldable pub is_black : ℕ → Bool
is_black m = not (bit_and m black_bit == 0)

unfoldable pub set_gray : ℕ → ℕ
set_gray m = bit_and m (not8 (bit_or black_bit whites))

-- How `mark` blackens an object that has nothing to traverse.
unfoldable pub blacken : ℕ → ℕ
blacken m = bit_or (bit_and m (not8 whites)) black_bit

unfoldable pub other_white : ℕ → ℕ
other_white white = bit_xor white whites

unfoldable pub is_dead : ℕ → ℕ → Bool
unfolding other_white
is_dead white m = not (bit_and m (other_white white) == 0)

unfoldable pub resurrect : ℕ → ℕ → ℕ
unfolding is_dead
resurrect white m = if is_dead white m then bit_xor m whites else m

-- What the sweep leaves: no age, not black, the current white.
unfoldable pub recolour : ℕ → ℕ → ℕ
recolour white m =
    bit_or (bit_and m (not8 (bit_or (bit_or black_bit whites) 7))) (bit_and white whites)

-- The mark of a new object.
unfoldable pub new_mark : ℕ → ℕ
new_mark white = bit_and white whites
