-- ===== src/Code/Word.antt =====
-- Instruction words: the fields that src/lcode.rs packs into a `u32`, reads and overwrites. From
-- the lowest bit: 7 bits of opcode, 8 of A, 1 of k, 8 of B, 8 of C. Bx is k, B and C together;
-- sJ is all but the opcode.
pub mod Fields
pub mod RoundTrip
use tsuki.Base.{ℕ, ◌+◌, ◌-◌, ◌*◌, ◌/◌, ◌%◌, ◌^◌, bit_and, bit_or}

-- `x << k` on `u32`
abbrev pub shl32 : ℕ → ℕ → ℕ
shl32 x k = x * 2 ^ k % 2 ^ 32

-- `!(!0 << n) << p`
abbrev pub mask1 : ℕ → ℕ → ℕ
mask1 n p = shl32 (2 ^ n - 1) p

-- `i >> p & !(!0 << n)`
unfoldable pub get_field : ℕ → ℕ → ℕ → ℕ
get_field p n i = bit_and (i / 2 ^ p) (2 ^ n - 1)

-- `i & !mask | v << p & mask`
unfoldable pub set_field : ℕ → ℕ → ℕ → ℕ → ℕ
set_field p n i v = bit_or (bit_and i (2 ^ 32 - 1 - mask1 n p)) (bit_and (shl32 v p) (mask1 n p))

abbrev pub get_opcode : ℕ → ℕ
get_opcode = get_field 0 7

abbrev pub get_a : ℕ → ℕ
get_a = get_field 7 8

abbrev pub get_k : ℕ → ℕ
get_k = get_field 15 1

abbrev pub get_b : ℕ → ℕ
get_b = get_field 16 8

abbrev pub get_c : ℕ → ℕ
get_c = get_field 24 8

abbrev pub get_bx : ℕ → ℕ
get_bx = get_field 15 17

abbrev pub get_sj : ℕ → ℕ
get_sj = get_field 7 25

-- The words that `luaK_codeABCk`, `luaK_codeABx`, `codeAsBx`, `codesJ` and `codeextraarg` emit.
unfoldable pub abck : ℕ → ℕ → ℕ → ℕ → ℕ → ℕ
abck o a b c k =
    bit_or (bit_or (bit_or (bit_or (shl32 o 0) (shl32 a 7)) (shl32 b 16)) (shl32 c 24)) (shl32 k 15)

unfoldable pub abx : ℕ → ℕ → ℕ → ℕ
abx o a bc = bit_or (bit_or (shl32 o 0) (shl32 a 7)) (shl32 bc 15)

unfoldable pub sj : ℕ → ℕ → ℕ → ℕ
sj o j k = bit_or (bit_or (shl32 o 0) (shl32 j 7)) (shl32 k 15)

unfoldable pub extra : ℕ → ℕ → ℕ
extra o a = bit_or (shl32 o 0) (shl32 a 7)
