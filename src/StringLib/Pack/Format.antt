-- ===== src/StringLib/Pack/Format.antt =====
-- The formats of `pack` and `unpack`: `Header` of src/builtin/string/mod.rs. A format is the list of its
-- characters. The target is a little-endian one of 64 bits, with the C types of Linux: 2 bytes for a
-- short, 4 for an int and a float, 8 for a long, a double and a usize.
pub mod Align
pub mod Options
pub mod Sizes
pub mod Letters
use tsuki.Base.{
  ℕ, zero, suc, ◌+◌, ◌-◌, ◌*◌, bit_and, Bool, true, false, not, ◌&&◌, ◌||◌, Option, none, some,
  List, [], ◌∷◌, ltb, leb, ◌==◌, if◌then◌else◌,
}

pub data FormatError : Type 0 where
  out_of_limits missing_size invalid_option invalid_next not_power_of_2 : FormatError

pub data Parsed {ℓ} (A : Type ℓ) : Type ℓ where
  parsed : A → Parsed A
  refused : FormatError → Parsed A

infixl 5 ◌>>=◌
abbrev pub ◌>>=◌ {ℓ κ} : {A : Type ℓ} {B : Type κ} → Parsed A → (A → Parsed B) → Parsed B
parsed a >>= f = f a
refused e >>= f = refused e

pub data Pack : Type 0 where
  signed unsigned char padding : ℕ → Pack
  float double number pad_align nop : Pack
  str : Option ℕ → Pack

pub record Header : Type 0 where
  pub islittle : Bool
  pub maxalign : ℕ

abbrev pub new_header : Header
new_header = record { islittle = true; maxalign = 1 }

abbrev is_ascii_digit : ℕ → Bool
is_ascii_digit c = leb b'0' c && leb c b'9'

-- A digit is taken while the number leaves room for it in an `i32`.
abbrev pub num_loop : List ℕ → ℕ → ℕ × List ℕ
num_loop [] a = (a, [])
num_loop (c ∷ cs) a =
    let rest = num_loop cs (a * 10 + (c - b'0')) in
    if is_ascii_digit c && leb a 214748363 then rest else (a, c ∷ cs)

unfoldable pub getnum : List ℕ → Option (ℕ × List ℕ)
getnum [] = none
getnum (c ∷ cs) = if is_ascii_digit c then some (num_loop cs (c - b'0')) else none

abbrev pub or_default : List ℕ → ℕ → Option (ℕ × List ℕ) → ℕ × List ℕ
or_default fmt df none = (df, fmt)
or_default fmt df (some r) = r

abbrev pub limited : ℕ × List ℕ → Parsed (ℕ × List ℕ)
limited (sz, rest) = if ltb 16 sz || leb sz 0 then refused out_of_limits else parsed (sz, rest)

unfoldable pub getnumlimit : List ℕ → ℕ → Parsed (ℕ × List ℕ)
unfolding getnum
getnumlimit fmt df = limited (or_default fmt df (getnum fmt))

-- What an option gives: its kind, the header after it and the rest of the format.
abbrev pub Got : Type 0
Got = Parsed (Pack × Header × List ℕ)

abbrev pub sized : (ℕ → Pack) → Header → Parsed (ℕ × List ℕ) → Got
sized kind h r = r >>= λ v. parsed (kind v.0, h, v.1)

abbrev pub char_size : Header → Option (ℕ × List ℕ) → Got
char_size h none = refused missing_size
char_size h (some v) = parsed (char v.0, h, v.1)

abbrev pub alignment : Header → Parsed (ℕ × List ℕ) → Got
alignment h r = r >>= λ v. parsed (nop, record h { maxalign = v.0 }, v.1)

-- The letters that take a size, and the ones that change the header.
abbrev pub letter : Header → ℕ → List ℕ → Got
letter h c fmt =
    if c == b'i'
    then sized signed h (getnumlimit fmt 4)
    else (if c == b'I'
        then sized unsigned h (getnumlimit fmt 4)
        else (if c == b's'
            then sized (λ v. str (some v)) h (getnumlimit fmt 8)
            else (if c == b'c'
                then char_size h (getnum fmt)
                else (if c == b'!'
                    then alignment h (getnumlimit fmt 8)
                    else (if c == 32
                        then parsed (nop, h, fmt)
                        else (if c == b'<'
                            then parsed (nop, record h { islittle = true }, fmt)
                            else (if c == b'>'
                                then parsed (nop, record h { islittle = false }, fmt)
                                else (if c == b'='
                                    then parsed (nop, record h { islittle = true }, fmt)
                                    else refused invalid_option))))))))

-- The letters of a fixed kind.
abbrev pub fixed_kind : ℕ → Option Pack
fixed_kind c =
    if c == b'b'
    then some (signed 1)
    else (if c == b'B'
        then some (unsigned 1)
        else (if c == b'h'
            then some (signed 2)
            else (if c == b'H'
                then some (unsigned 2)
                else (if c == b'l'
                    then some (signed 8)
                    else (if c == b'L'
                        then some (unsigned 8)
                        else (if c == b'j'
                            then some (signed 8)
                            else (if c == b'J'
                                then some (unsigned 8)
                                else (if c == b'T'
                                    then some (unsigned 8)
                                    else (if c == b'f'
                                        then some float
                                        else (if c == b'n'
                                            then some number
                                            else (if c == b'd'
                                                then some double
                                                else (if c == b'z'
                                                    then some (str none)
                                                    else (if c == b'x'
                                                        then some (padding 1)
                                                        else (if c == b'X'
                                                            then some pad_align
                                                            else none))))))))))))))

unfoldable pub getoption : Header → ℕ → List ℕ → Got
unfolding getnum getnumlimit
getoption h c fmt = elim (fixed_kind c) [ some k ↦ parsed (k, h, fmt) | none ↦ letter h c fmt ]

-- The size that a kind of option is aligned to.
abbrev pub size_of : Pack → ℕ
size_of (signed v) = v
size_of (unsigned v) = v
size_of float = 4
size_of double = 8
size_of number = 8
size_of (char v) = v
size_of (str none) = 0
size_of (str (some v)) = v
size_of (padding v) = v
size_of pad_align = 0
size_of nop = 0

abbrev is_char : Pack → Bool
is_char (char v) = true
is_char opt = false

-- The option after `X` gives the alignment, where it has one.
abbrev next_size : Pack × Header × List ℕ → Parsed (ℕ × Header × List ℕ)
next_size (char v, h, fmt) = refused invalid_next
next_size (opt, h, fmt) =
    if size_of opt == 0 then refused invalid_next else parsed (size_of opt, h, fmt)

abbrev details_size : Pack × Header × List ℕ → Parsed (ℕ × Header × List ℕ)
details_size (pad_align, h, []) = refused invalid_next
details_size (pad_align, h, c ∷ fmt) = getoption h c fmt >>= next_size
details_size (opt, h, fmt) = parsed (size_of opt, h, fmt)

-- How many bytes bring `totalsize` to a multiple of `align`, or of `maxalign` if that is less.
unfoldable pub padding_to : ℕ → ℕ → ℕ → Parsed ℕ
padding_to maxalign totalsize align =
    let a = if ltb maxalign align then maxalign else align in
    if bit_and a (a - 1) == 0
    then parsed (bit_and (a - bit_and totalsize (a - 1)) (a - 1))
    else refused not_power_of_2

-- The option, the bytes of padding before it, the header and the rest of the format.
unfoldable pub getdetails : Header → ℕ → ℕ → List ℕ → Parsed (Pack × ℕ × Header × List ℕ)
unfolding getoption padding_to
getdetails h totalsize first fmt = getoption h first fmt >>= λ got. details_size got >>= λ size.
    (if leb size.0 1 || is_char got.0
      then parsed 0
      else padding_to size.1.maxalign totalsize size.0)
    >>= λ ntoalign. parsed (got.0, ntoalign, size.1, size.2)
