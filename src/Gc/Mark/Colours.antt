-- ===== src/Gc/Mark/Colours.antt =====
-- The operations on mark bytes, checked at every byte.
use tsuki.Base.Table.{all_from, all_below, all_below_lem, agree}
use tsuki.Base.{
  ℕ, ◌<◌, ◌≡◌, ◌≢◌, refl, ◌⊎◌, inl, inr, bit_and, Bool, true, false, not, ◌==◌, ◌&&◌, ◌||◌, arith,
}
use tsuki.Gc.Mark.{
  is_white, is_black, set_gray, blacken, other_white, is_dead, resurrect, recolour, whites,
}

-- One of the two whites.
abbrev pub IsColour : ℕ → Type 0
IsColour white = (white ≡ 8) ⊎ (white ≡ 16)

-- What the operations make of a byte that is not of both whites at once.
pub record Transitions (white m : ℕ) : Type 0 where
  pub gray : (is_white (set_gray m) ≡ false) × (is_black (set_gray m) ≡ false)
  pub black : (is_white (blacken m) ≡ false) × (is_black (blacken m) ≡ true)
  pub alive : is_dead white (resurrect white m) ≡ false
  pub same_colour :
      (is_white (resurrect white m) ≡ is_white m) × (is_black (resurrect white m) ≡ is_black m)
  pub recoloured :
      (is_white (recolour white m) ≡ true)
      × (is_black (recolour white m) ≡ false)
      × (is_dead white (recolour white m) ≡ false)
      × (is_dead (other_white white) (recolour white m) ≡ true)

-- The same as one test.
passes : ℕ → ℕ → Bool
passes white m =
    bit_and m whites == whites
    || (not (is_white (set_gray m))
        && not (is_black (set_gray m))
        && not (is_white (blacken m))
        && is_black (blacken m)
        && not (is_dead white (resurrect white m))
        && agree (is_white (resurrect white m)) (is_white m)
        && agree (is_black (resurrect white m)) (is_black m)
        && is_white (recolour white m)
        && not (is_black (recolour white m))
        && not (is_dead white (recolour white m))
        && is_dead (other_white white) (recolour white m))

white_table : all_below 256 (passes 8) && all_below 256 (passes 16) ≡ true
unfolding all_from passes is_white is_black set_gray blacken resurrect recolour
white_table = refl

passes-Transitions :
    (white m : ℕ) → bit_and m whites ≢ whites → passes white m ≡ true → Transitions white m
unfolding passes
passes-Transitions white m ne h = ground arith

-- On every mark byte that does not hold both whites: `set_gray` and the blackening of `mark` give
-- their colours, `resurrect` leaves an object that is not dead and of the colour that it had, and
-- the sweep's recolouring gives the current white, which is dead only once the whites change.
pub mark-Transitions :
    (white m : ℕ) → IsColour white → m < 256 → bit_and m whites ≢ whites → Transitions white m
mark-Transitions white m (inl e) lt ne =
    passes-Transitions white m ne (rw e (all_below_lem (passes 8) (ground (arith, white_table)) lt))
mark-Transitions white m (inr e) lt ne =
    passes-Transitions white m ne
      (rw e (all_below_lem (passes 16) (ground (arith, white_table)) lt))
