-- ===== src/Number.antt =====
-- Reading numbers from text: `luai_ctype_` of src/lctype.rs, and `l_str2int`, `luaO_hexavalue` and
-- `luaO_str2num` of src/lobject.rs. A text is its list of bytes.
pub mod Decimal
use tsuki.Base.{
  ℕ, zero, suc, ◌+◌, ◌-◌, ◌*◌, ◌/◌, ◌%◌, ◌^◌, bit_and, bit_or, bit_xor, Bool, true, false, ◌&&◌,
  ◌||◌, not, Option, none, some, List, [], ◌∷◌, ltb, leb, ◌==◌, if◌then◌else◌, get_or, replicate,
  ◌++◌,
}
use tsuki.Base.Int.{ℤ}
use tsuki.Base.Int64.{of_u64}

-- The class bits of a byte, at index byte + 1: 1 letter, 2 digit, 4 printable, 8 space, 16 hex.
unfoldable pub luai_ctype : List ℕ
luai_ctype =
    replicate 10 0
    ++ (0x8 ∷ 0x8 ∷ 0x0 ∷ 0x8 ∷ 0x8 ∷ [])
    ++ replicate 18 0
    ++ (0xc ∷ [])
    ++ replicate 15 0x4
    ++ replicate 10 0x16
    ++ replicate 7 0x4
    ++ replicate 6 0x15
    ++ replicate 20 0x5
    ++ replicate 4 0x4
    ++ (0x5 ∷ 0x4 ∷ [])
    ++ replicate 6 0x15
    ++ replicate 20 0x5
    ++ replicate 4 0x4
    ++ replicate 129 0

has_class : ℕ → ℕ → Bool
unfolding luai_ctype
has_class b mask = not (bit_and (get_or luai_ctype (b + 1) 0) mask == 0)

unfoldable pub is_space : ℕ → Bool
unfolding has_class
is_space b = has_class b 8

unfoldable pub is_digit : ℕ → Bool
unfolding has_class
is_digit b = has_class b 2

unfoldable pub is_hex : ℕ → Bool
unfolding has_class
is_hex b = has_class b 16

-- `c` is a byte
unfoldable pub hexavalue : ℕ → ℕ
unfolding is_digit
hexavalue c = if is_digit c then c - b'0' else bit_or c (bit_xor b'A' b'a') - b'a' + 10

-- `next()?` until the byte is no space; the byte found and what follows it
unfoldable pub skip_space : List ℕ → Option (ℕ × List ℕ)
unfolding is_space
skip_space [] = none
skip_space (b ∷ s) = if is_space b then skip_space s else some (b, s)

pub record Digits : Type 0 where
  pub value : ℕ
  pub empty : Bool
  pub rest : List ℕ

-- The two parsing loops. The list is the current byte and what follows it; the end is `None`.
unfoldable pub hex_loop : ℕ → Bool → List ℕ → Digits
unfolding is_hex hexavalue
hex_loop a empty [] = record { value = a; empty = empty; rest = [] }
hex_loop a empty (v ∷ s) =
    let next = hex_loop ((a * 16 % 2 ^ 64 + hexavalue v) % 2 ^ 64) false s in
    if is_hex v then next else record { value = a; empty = empty; rest = v ∷ s }

abbrev max_by_10 : ℕ
max_by_10 = (2 ^ 63 - 1) / 10

abbrev max_last : ℕ
max_last = (2 ^ 63 - 1) % 10

abbrev pub sign_room : Bool → ℕ
sign_room true = 1
sign_room false = 0

unfoldable pub dec_loop : Bool → ℕ → Bool → List ℕ → Option Digits
unfolding is_digit
dec_loop neg a empty [] = some (record { value = a; empty = empty; rest = [] })
dec_loop neg a empty (v ∷ s) =
    let d = v - b'0' in
    let next = dec_loop neg (a * 10 + d) false s in
    if not (is_digit v)
    then some (record { value = a; empty = empty; rest = v ∷ s })
    else (if leb max_by_10 a && (ltb max_by_10 a || ltb (max_last + sign_room neg) d)
        then none
        else next)

-- Skips trailing whitespace, and gives the number if nothing else follows.
unfoldable pub finish : Bool → Digits → Option ℤ
finish neg r = if r.empty then none else elim (skip_space r.rest) [
  | some _ ↦ none
  | none ↦ some (of_u64 (if neg then (2 ^ 64 - r.value) % 2 ^ 64 else r.value))
]

-- After the sign: `b` and what follows it.
unfoldable pub after_sign : Bool → ℕ → List ℕ → Option ℤ
after_sign neg b (x ∷ []) =
    if b == b'0' && (x == b'x' || x == b'X')
    then none
    else elim (dec_loop neg 0 true (b ∷ x ∷ [])) [ none ↦ none | some r ↦ finish neg r ]
after_sign neg b (x ∷ y ∷ s) =
    if b == b'0' && (x == b'x' || x == b'X')
    then finish neg (hex_loop 0 true (y ∷ s))
    else elim (dec_loop neg 0 true (b ∷ x ∷ y ∷ s)) [ none ↦ none | some r ↦ finish neg r ]
after_sign neg b [] = elim (dec_loop neg 0 true (b ∷ [])) [ none ↦ none | some r ↦ finish neg r ]

unfoldable pub signed : ℕ → List ℕ → Option ℤ
signed b [] = if b == b'-' || b == b'+' then none else after_sign false b []
signed b (c ∷ s) =
    if b == b'-'
    then after_sign true c s
    else (if b == b'+' then after_sign false c s else after_sign false b (c ∷ s))

unfoldable pub str2int : List ℕ → Option ℤ
str2int s = elim (skip_space s) [ none ↦ none | some (b, r) ↦ signed b r ]
