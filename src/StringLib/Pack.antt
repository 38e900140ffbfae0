-- ===== src/StringLib/Pack.antt =====
-- Integers as bytes: src/builtin/string/pack.rs, and the cases for integers of `pack` and `unpack` of
-- src/builtin/string/mod.rs.
pub mod Bytes
pub mod Sign
pub mod Unpack
pub mod RoundTrip
pub mod Overwrite
pub mod Format
use tsuki.Base.{
  ℕ, zero, suc, ◌+◌, ◌-◌, ◌*◌, ◌/◌, ◌%◌, ◌^◌, bit_and, bit_or, bit_xor, Bool, true, false, not,
  ◌&&◌, ◌||◌, Option, none, some, List, [], ◌∷◌, ◌++◌, ltb, leb, ◌==◌, length, get_or, take, drop,
  replicate, reverse, if◌then◌else◌,
}
use tsuki.Base.Int.{ℤ, pos, negsuc, ◌-ℤ◌, ltb_ℤ}
use tsuki.Base.Int64.{to_u64, of_u64}
use tsuki.StringLib.Pattern.Captures.{slice}

-- The loop of `packint`, for the bytes after the first.
abbrev pub push_loop : ℕ → ℕ → List ℕ
push_loop zero n = []
push_loop (suc k) n = bit_and (n / 2 ^ 8) 255 ∷ push_loop k (n / 2 ^ 8)

-- `b[i..].fill(v)`, for an `i` in bounds.
abbrev pub fill_from : ℕ → ℕ → List ℕ → List ℕ
fill_from i v b = take i b ++ replicate (length b - i) v

-- The bytes of `n` after those of `b`.
unfoldable pub packint : List ℕ → ℕ → Bool → ℕ → Bool → List ℕ
packint b n little size neg =
    let pushed = b ++ bit_and n 255 ∷ push_loop (size - 1) n in
    let filled = if neg && ltb 8 size then fill_from 8 255 pushed else pushed in
    if little then filled else take (length b) filled ++ reverse (drop (length b) filled)

-- The index of the `i`-th byte, from the low end; it is in bounds below `size`.
abbrev pub byte_index : Bool → ℕ → ℕ → ℕ
byte_index little size i = if little then i else size - 1 - i

-- The two loops of `unpackint`, over the bytes from the low end.
abbrev pub read_loop : (ℕ → ℕ) → ℕ → ℕ → ℕ
read_loop byte zero res = res
read_loop byte (suc i) res = read_loop byte i (bit_or (res * 2 ^ 8 % 2 ^ 64) (byte i))

abbrev pub check_loop : (ℕ → ℕ) → ℕ → ℕ → ℕ → Bool
check_loop byte mask i zero = true
check_loop byte mask i (suc n) =
    let rest = check_loop byte mask (i + 1) n in if byte i == mask then rest else false

abbrev pub sign_extend : ℕ → ℕ → ℕ
sign_extend size res = let mask = 2 ^ (size * 8 - 1) in (bit_xor res mask + 2 ^ 64 - mask) % 2 ^ 64

abbrev pub sign_byte : Bool → ℕ → ℕ
sign_byte signed res = if not signed || not (ltb_ℤ (of_u64 res) (pos 0)) then 0 else 255

-- `unpackint` on bytes that are read from the low end; `none` is the error.
abbrev pub unpack_bytes : (ℕ → ℕ) → ℕ → Bool → Option ℤ
unpack_bytes byte size signed =
    let res = read_loop byte (if leb size 8 then size else 8) 0 in
    if ltb size 8
    then some (of_u64 (if signed then sign_extend size res else res))
    else (if ltb 8 size
        then (if check_loop byte (sign_byte signed res) 8 (size - 8)
            then some (of_u64 res)
            else none)
        else some (of_u64 res))

unfoldable pub unpackint : List ℕ → Bool → Bool → Option ℤ
unpackint str little signed =
    unpack_bytes (λ i. get_or str (byte_index little (length str) i) 0) (length str) signed

-- The case of `pack` for a signed integer of `size` bytes; `none` is the error of an overflow.
unfoldable pub pack_signed : List ℕ → ℤ → Bool → ℕ → Option (List ℕ)
unfolding ◌-ℤ◌
pack_signed b n little size =
    let lim = pos (2 ^ (size * 8 - 1)) in
    if ltb size 8 && not (not (ltb_ℤ n (pos 0 -ℤ lim)) && ltb_ℤ n lim)
    then none
    else some (packint b (to_u64 n) little size (ltb_ℤ n (pos 0)))

unfoldable pub pack_unsigned : List ℕ → ℤ → Bool → ℕ → Option (List ℕ)
pack_unsigned b n little size =
    if ltb size 8 && not (ltb (to_u64 n) (2 ^ (size * 8)))
    then none
    else some (packint b (to_u64 n) little size false)

-- The cases of `unpack` for an integer at `off`.
unfoldable pub unpack_int : List ℕ → ℕ → Bool → Bool → ℕ → Option ℤ
unpack_int packed off little signed size = elim (slice packed off size) [
  | none ↦ none
  | some v ↦ unpackint v little signed
]
