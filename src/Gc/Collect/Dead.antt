-- ===== src/Gc/Collect/Dead.antt =====
-- Which objects are dead once the marking is done and the whites are exchanged (src/gc/mod.rs).
use tsuki.Base.{
  ℕ, zero, suc, ◌≤◌, ◌<◌, ◌≡◌, refl, sym, ap, ◌∙◌, inl, inr, arith, Bool, true, false, not, ◌&&◌,
  ◌||◌, ◌^◌, ◌%◌, List, [], ◌∷◌, length, get_or, ◌==◌, Bool-cases,
}
use tsuki.Base.Table.{all_from, all_below, all_below_lem}
use tsuki.Gc.Mark.{is_white, is_dead, other_white}
use tsuki.Gc.Mark.Colours.{IsColour}
use tsuki.Gc.Sweep.Part.{dead_of}
use tsuki.Gc.Trace.Bytes.{low_byte, low_lt, is_white-low, whites_in}
use tsuki.Gc.Collect.{objects_from}

-- A byte with neither white is not dead, whichever white is the current one.
gray_alive : ℕ → ℕ → Bool
gray_alive w m = not (is_dead w m) || is_white m

gray_table : all_below (2 ^ 8) (gray_alive 8) && all_below (2 ^ 8) (gray_alive 16) ≡ true
unfolding all_from gray_alive is_dead is_white other_white
gray_table = refl

is_dead-low : (w m : ℕ) → other_white w < 2 ^ 8 → is_dead w m ≡ is_dead w (m % 2 ^ 8)
unfolding is_dead
is_dead-low w m lt = ap (λ (x : ℕ). not (x == 0)) (low_byte m (other_white w) lt)

gray_lem :
    (w m : ℕ)
    → other_white w < 2 ^ 8
    → all_below (2 ^ 8) (gray_alive w) ≡ true
    → is_white m ≡ false
    → is_dead w m ≡ false
unfolding gray_alive
gray_lem w m lt table gray =
    let passes = all_below_lem (gray_alive w) table (low_lt m) in
    let low : is_white (m % 2 ^ 8) ≡ false = sym (is_white-low m) ∙ gray in
    is_dead-low w m lt ∙ ground (arith, passes, low)

flipped_lem :
    (c w m : ℕ)
    → other_white w < 2 ^ 8
    → all_below (2 ^ 8) (gray_alive w) ≡ true
    → is_dead w c ≡ true
    → (is_white m ≡ true → m ≡ c)
    → is_dead w m ≡ is_white m
flipped_lem c w m lt table dead pure = elim (Bool-cases (is_white m)) [
  | inl e ↦ ap (is_dead w) (pure e) ∙ dead ∙ sym e
  | inr e ↦ gray_lem w m lt table e ∙ sym e
]

-- Once the whites change, dead is what was white.
pub is_dead-flipped :
    (white m : ℕ)
    → IsColour white
    → (is_white m ≡ true → m ≡ white)
    → is_dead (other_white white) m ≡ is_white m
unfolding is_dead other_white
is_dead-flipped white m (inl e) pure =
    ap (λ c. is_dead (other_white c) m) e
    ∙ flipped_lem 8 16 m (omega arith) (ground (arith, gray_table)) refl (λ w. pure w ∙ e)
is_dead-flipped white m (inr e) pure =
    ap (λ c. is_dead (other_white c) m) e
    ∙ flipped_lem 16 8 m (omega arith) (ground (arith, gray_table)) refl (λ w. pure w ∙ e)

-- No more objects are dead than bytes are white.
pub dead-le :
    (white i : ℕ) (tts ms : List ℕ)
    → IsColour white
    → ((x : ℕ) → is_white (get_or ms x 0) ≡ true → get_or ms x 0 ≡ white)
    → length (dead_of (other_white white) (objects_from i tts ms)) ≤ whites_in ms
dead-le white i [] ms c pure = omega arith
dead-le white i (tt ∷ tts) [] c pure = omega arith
dead-le white i (tt ∷ tts) (m ∷ ms) c pure =
    let later = dead-le white (suc i) tts ms c (λ x. pure (suc x)) in
    let here = is_dead-flipped white m c (pure zero) in ground (arith, later, here)
