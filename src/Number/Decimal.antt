-- ===== src/Number/Decimal.antt =====
-- What `l_str2int` of src/lobject.rs makes of a decimal text: blanks, a sign, digits, blanks.
use tsuki.Base.Int.{ℤ, pos}
use tsuki.Base.Int64.{of_u64, neg_ℕ}
use tsuki.Base.Table.{all_from, all_below, agree, agree_below}
use tsuki.Base.{
  ℕ, zero, suc, ◌+◌, ◌-◌, ◌*◌, ◌/◌, ◌%◌, ◌^◌, ◌≤◌, ◌<◌, ◌≡◌, refl, Bool, true, false, ◌&&◌, ◌||◌,
  not, Option, none, some, List, [], ◌∷◌, ltb, leb, ◌==◌, if◌then◌else◌, ◌++◌, arith, ◌∙◌,
  Bool-cases, leb→le, inl, inr,
}
use tsuki.Number.{
  is_space, is_digit, skip_space, dec_loop, finish, after_sign, signed, str2int, sign_room,
}

-- An independent account of the two classes.
abbrev pub blank : ℕ → Bool
blank b = b == 32 || b == 9 || b == 10 || b == 12 || b == 13

abbrev pub digit : ℕ → Bool
digit b = leb b'0' b && leb b b'9'

space_table : all_below 256 (λ b. agree (is_space b) (blank b)) ≡ true
unfolding all_from is_space
space_table = refl

digit_table : all_below 256 (λ b. agree (is_digit b) (digit b)) ≡ true
unfolding all_from is_digit
digit_table = refl

-- On bytes, `luai_ctype_` classes as spaces the five blanks without the vertical tab, and as
-- digits the ten from 0 to 9.
pub ctype_classes : (b : ℕ) → b < 256 → (is_space b ≡ blank b) × (is_digit b ≡ digit b)
ctype_classes b h =
    (agree_below 256 is_space blank b space_table h, agree_below 256 is_digit digit b digit_table h)

abbrev pub AllOf : (ℕ → Bool) → List ℕ → Type 0
AllOf p [] = Unit
AllOf p (b ∷ s) = (p b ≡ true) × AllOf p s

pub data Sign : Type 0 where
  absent plus minus : Sign

abbrev pub sign_text : Sign → List ℕ
sign_text absent = []
sign_text plus = b'+' ∷ []
sign_text minus = b'-' ∷ []

abbrev pub negative : Sign → Bool
negative minus = true
negative _ = false

-- The value of a row of digits, from the value of those before it.
abbrev pub digits_value : ℕ → List ℕ → ℕ
digits_value a [] = a
digits_value a (b ∷ s) = digits_value (a * 10 + (b - b'0')) s

abbrev pub apply_sign : Sign → ℕ → ℤ
apply_sign minus v = neg_ℕ v
apply_sign _ v = pos v

blank_facts : (b : ℕ) → blank b ≡ true → (is_space b ≡ true) × (is_digit b ≡ false)
blank_facts b h = ground (arith, ctype_classes b)

digit_facts : (b : ℕ) → digit b ≡ true → (is_space b ≡ false) × (is_digit b ≡ true)
digit_facts b h = ground (arith, ctype_classes b)

skip_space-blanks :
    (ws : List ℕ) (b : ℕ) (s : List ℕ)
    → AllOf blank ws
    → is_space b ≡ false
    → skip_space (ws ++ (b ∷ s)) ≡ some (b, s)
unfolding skip_space
skip_space-blanks [] b s h nb = rw nb refl
skip_space-blanks (w ∷ ws) b s h nb = rw (blank_facts w h.0).0 (skip_space-blanks ws b s h.1 nb)

skip_space_all : (ws : List ℕ) → AllOf blank ws → skip_space ws ≡ none
unfolding skip_space
skip_space_all [] h = refl
skip_space_all (w ∷ ws) h = rw (blank_facts w h.0).0 (skip_space_all ws h.1)

digits_value-le : (a : ℕ) (ds : List ℕ) → a ≤ digits_value a ds
digits_value-le a [] = omega arith
digits_value-le a (d ∷ ds) = omega (arith, digits_value-le (a * 10 + (d - b'0')) ds)

abbrev bound : Bool → ℕ
bound neg = 2 ^ 63 - 1 + sign_room neg

-- The loop's test for overflow asks exactly whether the next value fits.
room_lem :
    (neg : Bool) (a d : ℕ)
    → d ≤ 9
    → (leb ((2 ^ 63 - 1) / 10) a
        && (ltb ((2 ^ 63 - 1) / 10) a || ltb ((2 ^ 63 - 1) % 10 + sign_room neg) d))
      ≡ not (leb (a * 10 + d) (bound neg))
room_lem true a d h = ground arith
room_lem false a d h = ground arith

still_empty : Bool → List ℕ → Bool
still_empty e [] = e
still_empty e (_ ∷ _) = false

still_empty-false : (ds : List ℕ) → still_empty false ds ≡ false
unfolding still_empty
still_empty-false [] = refl
still_empty-false (_ ∷ _) = refl

-- The loop reads the digits up to the first blank, and fails exactly when the value is too large.
dec_loop_lem :
    (neg : Bool) (a : ℕ) (e : Bool) (ds ws : List ℕ)
    → AllOf digit ds
    → AllOf blank ws
    → a ≤ bound neg
    → dec_loop neg a e (ds ++ ws) ≡ (
        if leb (digits_value a ds) (bound neg)
        then some (record { value = digits_value a ds; empty = still_empty e ds; rest = ws })
        else none)
unfolding dec_loop still_empty
dec_loop_lem neg a e [] [] hd hw le = ground arith
dec_loop_lem neg a e [] (w ∷ ws) hd hw le = rw (blank_facts w hw.0).1 (ground arith)
dec_loop_lem neg a e (d ∷ ds) ws hd hw le =
    let small : d - b'0' ≤ 9 = ground arith in
    rw ((digit_facts d hd.0).1, room_lem neg a (d - b'0') small)
      (elim (Bool-cases (leb (a * 10 + (d - b'0')) (bound neg))) [
        | inl fits ↦ rw fits (
            rw (still_empty-false ds) at
              (dec_loop_lem neg (a * 10 + (d - b'0')) false ds ws hd.1 hw (leb→le _ _ fits)))
        | inr large ↦ rw large (ground (arith, digits_value-le (a * 10 + (d - b'0')) ds))
      ])

no_hex : List ℕ → Bool
no_hex [] = true
no_hex (x ∷ s) = not (x == b'x' || x == b'X')

read_decimal : Bool → List ℕ → Option ℤ
read_decimal neg s = elim (dec_loop neg 0 true s) [ none ↦ none | some r ↦ finish neg r ]

after_sign-no_hex :
    (neg : Bool) (b : ℕ) (s : List ℕ)
    → no_hex s ≡ true
    → after_sign neg b s ≡ read_decimal neg (b ∷ s)
unfolding after_sign no_hex read_decimal
after_sign-no_hex neg b [] h = refl
after_sign-no_hex neg b (x ∷ []) h = ground arith
after_sign-no_hex neg b (x ∷ y ∷ s) h = ground arith

no_hex-append : (ds ws : List ℕ) → AllOf digit ds → AllOf blank ws → no_hex (ds ++ ws) ≡ true
unfolding no_hex
no_hex-append [] [] hd hw = refl
no_hex-append [] (w ∷ ws) hd hw = ground arith
no_hex-append (d ∷ ds) ws hd hw = ground arith

abbrev read_value : Sign → ℕ → Option ℤ
read_value sg v = if leb v (bound (negative sg)) then some (apply_sign sg v) else none

apply_sign_lem :
    (sg : Sign) (v : ℕ)
    → v ≤ bound (negative sg)
    → of_u64 (if negative sg then (2 ^ 64 - v) % 2 ^ 64 else v) ≡ apply_sign sg v
apply_sign_lem absent v h = ground arith
apply_sign_lem plus v h = ground arith
apply_sign_lem minus zero h = refl
apply_sign_lem minus (suc v) h = ground arith

read_decimal_lem :
    (sg : Sign) (d : ℕ) (ds ws : List ℕ)
    → AllOf digit (d ∷ ds)
    → AllOf blank ws
    → read_decimal (negative sg) (d ∷ (ds ++ ws)) ≡ read_value sg (digits_value 0 (d ∷ ds))
unfolding read_decimal finish still_empty
read_decimal_lem sg d ds ws hd hw =
    let v = digits_value 0 (d ∷ ds) in
    rw (dec_loop_lem (negative sg) 0 true (d ∷ ds) ws hd hw (omega arith), read_decimal)
      (elim (Bool-cases (leb v (bound (negative sg)))) [
        | inl fits ↦ rw (fits, skip_space_all ws hw, apply_sign_lem sg v (leb→le _ _ fits)) refl
        | inr large ↦ rw large refl
      ])

signed-digit :
    (d : ℕ) (s : List ℕ)
    → digit d ≡ true
    → no_hex s ≡ true
    → signed d s ≡ read_decimal false (d ∷ s)
unfolding signed
signed-digit d [] hd nh = rw (← after_sign-no_hex false d [] nh) (ground arith)
signed-digit d (c ∷ s) hd nh = rw (← after_sign-no_hex false d (c ∷ s) nh) (ground arith)

signed_lem :
    (ws : List ℕ) (sg : Sign) (d : ℕ) (s : List ℕ)
    → AllOf blank ws
    → digit d ≡ true
    → no_hex s ≡ true
    → str2int (ws ++ (sign_text sg ++ (d ∷ s))) ≡ read_decimal (negative sg) (d ∷ s)
unfolding str2int signed
signed_lem ws absent d s hw hd nh =
    rw (skip_space-blanks ws d s hw (digit_facts d hd).0, str2int) (signed-digit d s hd nh)
signed_lem ws plus d s hw hd nh =
    rw (skip_space-blanks ws b'+' (d ∷ s) hw (ctype_classes b'+' (omega arith)).0, str2int)
      (after_sign-no_hex false d s nh)
signed_lem ws minus d s hw hd nh =
    rw (skip_space-blanks ws b'-' (d ∷ s) hw (ctype_classes b'-' (omega arith)).0, str2int)
      (after_sign-no_hex true d s nh)

-- A decimal text, which is blanks, an optional sign, at least one digit and blanks, is read as the
-- integer that it denotes if that is an `i64`, and is refused otherwise.
pub str2int_decimal :
    (ws : List ℕ) (sg : Sign) (d : ℕ) (ds zs : List ℕ)
    → AllOf blank ws
    → AllOf digit (d ∷ ds)
    → AllOf blank zs
    → str2int (ws ++ (sign_text sg ++ (d ∷ (ds ++ zs)))) ≡ (
        let v = digits_value 0 (d ∷ ds) in
        if leb v (2 ^ 63 - 1 + sign_room (negative sg)) then some (apply_sign sg v) else none)
str2int_decimal ws sg d ds zs hw hd hz =
    signed_lem ws sg d (ds ++ zs) hw hd.0 (no_hex-append ds zs hd.1 hz)
    ∙ read_decimal_lem sg d ds zs hd hz
