-- ===== src/StringLib/Pack/Unpack.antt =====
-- `unpackint` on the bytes of an integer.
use native.Mathlib.Nat.{one-le-pow}
use tsuki.Base.{
  ℕ, ◌+◌, ◌-◌, ◌*◌, ◌^◌, ◌≤◌, ◌<◌, ◌≡◌, refl, ap, ◌∙◌, arith, Bool, true, false, not, Bool-cases,
  inl, inr, some, ltb, leb, get_or, if◌then◌else◌,
}
use tsuki.Base.Int.{ℤ, pos, negsuc, ltb_ℤ}
use tsuki.Base.Int64.{to_u64, of_u64, IsI64, of_u64-to_u64}
use tsuki.StringLib.Pack.{unpack_bytes, read_loop, check_loop, sign_byte, sign_extend}
use tsuki.StringLib.Pack.Bytes.{
  low_bytes, low_bytes_high, value, value_same, value-low_bytes, low_bytes-lt, read_loop_lem,
  check_loop_lem,
}
use tsuki.StringLib.Pack.Sign.{FitsIn, extends}

pub to_u64-lt : (v : ℤ) → to_u64 v < 2 ^ 64
to_u64-lt (pos m) = omega arith
to_u64-lt (negsuc m) = omega arith

value_low :
    (size r a : ℕ)
    → r < 256 ^ size
    → value (λ j. get_or (low_bytes size (r + a * 256 ^ size)) j 0) size ≡ r
value_low size r a h =
    ap (λ bs. value (λ j. get_or bs j 0) size) (low_bytes_high size r a)
    ∙ value-low_bytes size size r (omega arith) h

same_or : (b : Bool) (v : ℤ) → (if b then some v else some v) ≡ some v
same_or true v = refl
same_or false v = refl

swap : (b : Bool) → if◌then◌else◌ {A = ℕ} (not b) 0 255 ≡ (if◌then◌else◌ {A = ℕ} b 255 0)
swap true = refl
swap false = refl

-- The bytes are those of the number `n` below `size` and below 8, and `top` from there on.
abbrev pub Reads : (ℕ → ℕ) → ℕ → ℕ → ℕ → Type 0
Reads byte n size top =
    ((j : ℕ) → j < 8 → j < size → byte j ≡ get_or (low_bytes size n) j 0)
    × ((j : ℕ) → 8 ≤ j → j < size → byte j ≡ top)

module _ (byte : ℕ → ℕ) (n size top : ℕ) (reads : Reads byte n size top) where
  read_low :
      (lim : ℕ)
      → lim ≤ 8
      → lim ≤ size
      → read_loop byte lim 0 ≡ value (λ j. get_or (low_bytes size n) j 0) lim
  read_low lim h8 hs =
      let same =
        value_same byte (λ j. get_or (low_bytes size n) j 0) lim
          (λ j lt. reads.0 j (omega arith) (omega arith)) in
      let read =
        read_loop_lem byte lim (8 - lim) 0
          (λ j lt. omega (arith, reads.0 j (omega arith) (omega arith), low_bytes-lt size j n))
          (omega arith) (one-le-pow (8 - lim) 256 (omega arith)) in
      omega (arith, read, same)

  unpack_short :
      (signed : Bool) (r a : ℕ)
      → size < 8
      → n ≡ r + a * 256 ^ size
      → r < 256 ^ size
      → unpack_bytes byte size signed ≡ some (of_u64 (if signed then sign_extend size r else r))
  unpack_short signed r a h e lt =
      let short : ltb size 8 ≡ true = ground arith in
      let fits : leb size 8 ≡ true = ground arith in
      let got : read_loop byte size 0 ≡ r =
        read_low size (omega arith) (omega arith)
        ∙ ap (λ m. value (λ j. get_or (low_bytes size m) j 0) size) e
        ∙ value_low size r a lt in
      rw (short, fits, got) refl

  unpack_long :
      (signed : Bool)
      → 8 ≤ size
      → n < 2 ^ 64
      → sign_byte signed n ≡ top
      → unpack_bytes byte size signed ≡ some (of_u64 n)
  unpack_long signed h lt sign =
      let short : ltb size 8 ≡ false = ground arith in
      let got : read_loop byte 8 0 ≡ n =
        read_low 8 (omega arith) h ∙ value-low_bytes 8 size n h lt in
      let limit : (if leb size 8 then size else 8) ≡ 8 = ground arith in
      let checked : check_loop byte top 8 (size - 8) ≡ true =
        check_loop_lem byte top 8 (size - 8) (λ j from to. reads.1 j from (omega arith)) in
      rw (limit, short, got, sign, checked) (same_or (ltb 8 size) (of_u64 n))

pub unpack_signed :
    (byte : ℕ → ℕ) (v : ℤ) (size : ℕ)
    → IsI64 v
    → 1 ≤ size
    → (size < 8 → FitsIn size v)
    → Reads byte (to_u64 v) size (if ltb_ℤ v (pos 0) then 255 else 0)
    → unpack_bytes byte size true ≡ some v
unpack_signed byte v size i64 h1 fits reads = elim (Bool-cases (ltb size 8)) [
  | inl e ↦
      let short : size < 8 = ground arith in
      let (r, a, whole, lt, sign) = extends size v h1 short i64 (fits short) in
      unpack_short byte (to_u64 v) size _ reads true r a short whole lt
      ∙ ap (λ w. some (of_u64 w)) sign
      ∙ ap some (of_u64-to_u64 v i64)
  | inr e ↦
      unpack_long byte (to_u64 v) size _ reads true (ground arith) (to_u64-lt v) (
        ap (λ w. if not (ltb_ℤ w (pos 0)) then 0 else 255) (of_u64-to_u64 v i64)
        ∙ swap (ltb_ℤ v (pos 0)))
      ∙ ap some (of_u64-to_u64 v i64)
]

pub unpack_unsigned :
    (byte : ℕ → ℕ) (n size : ℕ)
    → n < 2 ^ 64
    → (size < 8 → n < 256 ^ size)
    → Reads byte n size 0
    → unpack_bytes byte size false ≡ some (of_u64 n)
unpack_unsigned byte n size lt fits reads = elim (Bool-cases (ltb size 8)) [
  | inl e ↦
      let short : size < 8 = ground arith in
      unpack_short byte n size 0 reads false n 0 short (omega arith) (fits short)
  | inr e ↦ unpack_long byte n size 0 reads false (ground arith) lt refl
]
