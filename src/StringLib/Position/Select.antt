-- ===== src/StringLib/Position/Select.antt =====
-- `sub` and `byte` pick the bytes whose positions are in a range.
use tsuki.Base.{
  ℕ, zero, suc, ◌+◌, ◌-◌, ◌≤◌, ◌<◌, ◌≡◌, refl, sym, ap, ◌∙◌, arith, List, [], ◌∷◌, length, take,
  drop, leb, ltb, if◌then◌else◌, Bool, true, false, not, ◌&&◌, Option, some, get_elem?, Bool-cases,
  inl, inr,
}
use tsuki.Base.Int.{ℤ, pos, negsuc, ◌+ℤ◌, ◌-ℤ◌, ltb_ℤ}
use tsuki.StringLib.Pattern.{ok, or_panic}
use tsuki.StringLib.Pattern.Captures.{slice}
use tsuki.StringLib.Position.{posrelat, getendpos, sub, byte, byte_loop, default_int}

-- A position counts from the end of the text where it is negative.
abbrev pub resolve : ℕ → ℤ → ℤ
resolve len (pos p) = pos p
resolve len (negsuc p) = pos (len + 1) -ℤ pos (suc p)

-- The bytes of a text that starts at position `n`, with positions that pass a test.
abbrev pub select : (ℕ → Bool) → ℕ → List ℕ → List ℕ
select test n [] = []
select test n (x ∷ xs) = if test n then x ∷ select test (n + 1) xs else select test (n + 1) xs

abbrev pub covers : ℤ → ℤ → ℕ → Bool
covers a b k = not (ltb_ℤ (pos k) a) && not (ltb_ℤ b (pos k))

select_same :
    (f g : ℕ → Bool) (n : ℕ) (xs : List ℕ)
    → ((k : ℕ) → n ≤ k → k < n + length xs → f k ≡ g k)
    → select f n xs ≡ select g n xs
select_same f g n [] h = refl
select_same f g n (x ∷ xs) h = rw (h n (omega arith) (omega arith)) (
    ap (λ r. if g n then x ∷ r else r)
      (select_same f g (n + 1) xs (λ k from to. h k (omega arith) (omega arith))))

abbrev stretch : ℕ → ℕ → ℕ → Bool
stretch lo hi k = leb lo k && leb k hi

take-nil : (n : ℕ) → take {A = ℕ} n [] ≡ []
take-nil zero = refl
take-nil (suc n) = refl

select-take :
    (lo hi n : ℕ) (xs : List ℕ) → lo ≤ n → select (stretch lo hi) n xs ≡ take (hi + 1 - n) xs
select-take lo hi n [] h = ground (arith, take-nil (hi + 1 - n))
select-take lo hi n (x ∷ xs) h = elim (Bool-cases (leb n hi)) [
  | inl e ↦
      let from : leb lo n ≡ true = ground arith in
      let count : hi + 1 - n ≡ suc (hi + 1 - (n + 1)) = ground arith in
      rw (from, e, count, select-take lo hi (n + 1) xs (omega arith)) refl
  | inr e ↦
      let from : leb lo n ≡ true = ground arith in
      let count : hi + 1 - n ≡ 0 = ground arith in
      let later : hi + 1 - (n + 1) ≡ 0 = ground arith in
      rw (from, e, count, select-take lo hi (n + 1) xs (omega arith), later) refl
]

select-stretch :
    (lo hi n k : ℕ) (xs : List ℕ)
    → lo ≡ n + k
    → select (stretch lo hi) n xs ≡ take (hi + 1 - lo) (drop k xs)
select-stretch lo hi n zero xs h =
    select-take lo hi n xs (omega arith) ∙ ap (λ m. take (hi + 1 - m) xs) (omega arith)
select-stretch lo hi n (suc k) [] h = ground (arith, take-nil (hi + 1 - lo))
select-stretch lo hi n (suc k) (x ∷ xs) h =
    let before : leb lo n ≡ false = ground arith in
    rw (before) (select-stretch lo hi (n + 1) k xs (omega arith))

module _ (s : List ℕ) (a b : ℤ) where
  from_same :
      (k : ℕ)
      → 1 ≤ k
      → k ≤ length s
      → not (ltb_ℤ (pos k) (resolve (length s) a)) ≡ leb (posrelat a (length s)) k
  unfolding posrelat ◌-ℤ◌ ◌+ℤ◌
  from_same k from to =
      elim a as (λ a. not (ltb_ℤ (pos k) (resolve (length s) a)) ≡ leb (posrelat a (length s)) k) [
        | pos p ↦ ground arith
        | negsuc p ↦ ground arith
      ]

  to_same :
      (k : ℕ)
      → 1 ≤ k
      → k ≤ length s
      → not (ltb_ℤ (resolve (length s) b) (pos k)) ≡ leb k (getendpos b (length s))
  unfolding getendpos ◌-ℤ◌ ◌+ℤ◌
  to_same k from to =
      elim b as (λ b. not (ltb_ℤ (resolve (length s) b) (pos k)) ≡ leb k (getendpos b (length s))) [
        | pos p ↦ ground arith
        | negsuc p ↦ ground arith
      ]

  posrelat-pos : 1 ≤ posrelat a (length s)
  unfolding posrelat ◌-ℤ◌ ◌+ℤ◌
  posrelat-pos = elim a as (λ a. 1 ≤ posrelat a (length s)) [
    | pos p ↦ ground arith
    | negsuc p ↦ ground arith
  ]

  getendpos-le : getendpos b (length s) ≤ length s
  unfolding getendpos ◌-ℤ◌ ◌+ℤ◌
  getendpos-le = elim b as (λ b. getendpos b (length s) ≤ length s) [
    | pos p ↦ ground arith
    | negsuc p ↦ ground arith
  ]

  range_same :
      (k : ℕ)
      → 1 ≤ k
      → k < 1 + length s
      → covers (resolve (length s) a) (resolve (length s) b) k
        ≡ stretch (posrelat a (length s)) (getendpos b (length s)) k
  range_same k from to = rw (from_same k from (omega arith), to_same k from (omega arith)) refl

  pub range_stretch :
      select (covers (resolve (length s) a) (resolve (length s) b)) 1 s
      ≡ take
          (getendpos b (length s) + 1 - posrelat a (length s))
          (drop (posrelat a (length s) - 1) s)
  range_stretch =
      select_same _ _ 1 s range_same
      ∙ select-stretch (posrelat a (length s)) (getendpos b (length s)) 1
          (posrelat a (length s) - 1) s (omega (arith, posrelat-pos))

-- The text of the slice, in bounds or empty.
slice_or_empty :
    (s : List ℕ) (from to : ℕ)
    → 1 ≤ from
    → to ≤ length s
    → (if leb from to then or_panic (slice s (from - 1) (to - from + 1)) else ok [])
      ≡ ok (take (to + 1 - from) (drop (from - 1) s))
slice_or_empty s from to h hi = elim (Bool-cases (leb from to)) [
  | inl e ↦
      let inside : leb (from - 1 + (to - from + 1)) (length s) ≡ true = ground arith in
      let count : to - from + 1 ≡ to + 1 - from = ground arith in rw (e, inside, count) refl
  | inr e ↦ let count : to + 1 - from ≡ 0 = ground arith in rw (e, count) refl
]

pub drop_next :
    (s : List ℕ) (i : ℕ)
    → i < length s
    → (x : ℕ) × (get_elem? s i ≡ some x) × (drop i s ≡ x ∷ drop (suc i) s)
drop_next [] i h = elim h [ ]
drop_next (x ∷ xs) zero h = (x, refl, refl)
drop_next (x ∷ xs) (suc i) h = let (y, here, rest) = drop_next xs i (omega arith) in (y, here, rest)

byte_loop-take :
    (s : List ℕ) (i n : ℕ) → i + n ≤ length s → byte_loop s i n ≡ ok (take n (drop i s))
byte_loop-take s i zero h = refl
byte_loop-take s i (suc n) h =
    let (x, here, rest) = drop_next s i (omega arith) in
    let next : i + 1 ≡ suc i = omega arith in
    rw (here, rest, next, byte_loop-take s (suc i) n (omega arith)) refl

bytes_or_empty :
    (s : List ℕ) (from to : ℕ)
    → 1 ≤ from
    → to ≤ length s
    → (if ltb to from then ok [] else byte_loop s (from - 1) (to - from + 1))
      ≡ ok (take (to + 1 - from) (drop (from - 1) s))
bytes_or_empty s from to h hi = elim (Bool-cases (ltb to from)) [
  | inr e ↦
      let count : to - from + 1 ≡ to + 1 - from = ground arith in
      rw (e, count) (byte_loop-take s (from - 1) (to + 1 - from) (ground arith))
  | inl e ↦ let count : to + 1 - from ≡ 0 = ground arith in rw (e, count) refl
]

-- `string.sub` and `string.byte` give the bytes of the text whose positions, counted from 1, are in
-- the range of their arguments, where a negative one counts from the end; they never go out of
-- bounds.
pub sub-byte_positions :
    (s : List ℕ) (start : ℤ) (end from to : Option ℤ)
    → (sub s start end
        ≡ ok (
            select
              (covers (resolve (length s) start) (resolve (length s) (default_int end (negsuc 0))))
              1
              s))
      × (byte s from to
          ≡ ok (
              select
                (covers
                  (resolve (length s) (default_int from (pos 1)))
                  (resolve (length s) (default_int to (default_int from (pos 1)))))
                1
                s))
unfolding sub byte
sub-byte_positions s start end from to =
    let e = default_int end (negsuc 0) in
    let f = default_int from (pos 1) in
    let t = default_int to f in
    (
      slice_or_empty s (posrelat start (length s)) (getendpos e (length s)) (posrelat-pos s start e)
            (getendpos-le s start e)
          ∙ ap ok (sym (range_stretch s start e)),
      bytes_or_empty s (posrelat f (length s)) (getendpos t (length s)) (posrelat-pos s f t)
            (getendpos-le s f t)
          ∙ ap ok (sym (range_stretch s f t)),
    )
