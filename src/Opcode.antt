-- ===== src/Opcode.antt =====
-- The opcodes and their properties: src/vm/opcode/mod.rs, without `OP_LABEL`, which the
-- feature `jit` adds.
pub mod Modes
use tsuki.Base.{
  ℕ, zero, suc, ◌+◌, ◌*◌, ◌/◌, ◌%◌, ◌<◌, ◌≡◌, refl, Bool, true, false, List, [], ◌∷◌, get_or, ◌==◌,
  arith,
}

pub data OpCode : Type 0 where
  op_move op_loadi op_loadf op_loadk op_loadkx op_loadfalse op_lfalseskip : OpCode
  op_loadtrue op_loadnil op_getupval op_setupval op_gettabup op_gettable op_geti : OpCode
  op_getfield op_settabup op_settable op_seti op_setfield op_newtable op_self : OpCode
  op_addi op_addk op_subk op_mulk op_modk op_powk op_divk : OpCode
  op_idivk op_bandk op_bork op_bxork op_shri op_shli op_add : OpCode
  op_sub op_mul op_mod op_pow op_div op_idiv op_band : OpCode
  op_bor op_bxor op_shl op_shr op_mmbin op_mmbini op_mmbink : OpCode
  op_unm op_bnot op_not op_len op_concat op_close op_tbc : OpCode
  op_jmp op_eq op_lt op_le op_eqk op_eqi op_lti : OpCode
  op_lei op_gti op_gei op_test op_testset op_call op_tailcall : OpCode
  op_return op_return0 op_return1 op_forloop op_forprep op_tforprep op_tforcall : OpCode
  op_tforloop op_setlist op_closure op_vararg op_varargprep op_extraarg : OpCode

-- The number that an instruction holds.
abbrev pub op_num : OpCode → ℕ
op_num op_move = 0
op_num op_loadi = 1
op_num op_loadf = 2
op_num op_loadk = 3
op_num op_loadkx = 4
op_num op_loadfalse = 5
op_num op_lfalseskip = 6
op_num op_loadtrue = 7
op_num op_loadnil = 8
op_num op_getupval = 9
op_num op_setupval = 10
op_num op_gettabup = 11
op_num op_gettable = 12
op_num op_geti = 13
op_num op_getfield = 14
op_num op_settabup = 15
op_num op_settable = 16
op_num op_seti = 17
op_num op_setfield = 18
op_num op_newtable = 19
op_num op_self = 20
op_num op_addi = 21
op_num op_addk = 22
op_num op_subk = 23
op_num op_mulk = 24
op_num op_modk = 25
op_num op_powk = 26
op_num op_divk = 27
op_num op_idivk = 28
op_num op_bandk = 29
op_num op_bork = 30
op_num op_bxork = 31
op_num op_shri = 32
op_num op_shli = 33
op_num op_add = 34
op_num op_sub = 35
op_num op_mul = 36
op_num op_mod = 37
op_num op_pow = 38
op_num op_div = 39
op_num op_idiv = 40
op_num op_band = 41
op_num op_bor = 42
op_num op_bxor = 43
op_num op_shl = 44
op_num op_shr = 45
op_num op_mmbin = 46
op_num op_mmbini = 47
op_num op_mmbink = 48
op_num op_unm = 49
op_num op_bnot = 50
op_num op_not = 51
op_num op_len = 52
op_num op_concat = 53
op_num op_close = 54
op_num op_tbc = 55
op_num op_jmp = 56
op_num op_eq = 57
op_num op_lt = 58
op_num op_le = 59
op_num op_eqk = 60
op_num op_eqi = 61
op_num op_lti = 62
op_num op_lei = 63
op_num op_gti = 64
op_num op_gei = 65
op_num op_test = 66
op_num op_testset = 67
op_num op_call = 68
op_num op_tailcall = 69
op_num op_return = 70
op_num op_return0 = 71
op_num op_return1 = 72
op_num op_forloop = 73
op_num op_forprep = 74
op_num op_tforprep = 75
op_num op_tforcall = 76
op_num op_tforloop = 77
op_num op_setlist = 78
op_num op_closure = 79
op_num op_vararg = 80
op_num op_varargprep = 81
op_num op_extraarg = 82

-- The instruction formats.
abbrev pub i_abc : ℕ
i_abc = 0

abbrev pub i_abx : ℕ
i_abx = 1

abbrev pub i_asbx : ℕ
i_asbx = 2

abbrev pub i_ax : ℕ
i_ax = 3

abbrev pub i_sj : ℕ
i_sj = 4

-- `opmode`: metamethod, sets top, reads top, test, sets A, and the format.
abbrev opmode : ℕ → ℕ → ℕ → ℕ → ℕ → ℕ → ℕ
opmode mm ot it t a m = mm * 128 + ot * 64 + it * 32 + t * 16 + a * 8 + m

unfoldable pub opmodes : List ℕ
opmodes =
    opmode 0 0 0 0 1 i_abc
    ∷ opmode 0 0 0 0 1 i_asbx
    ∷ opmode 0 0 0 0 1 i_asbx
    ∷ opmode 0 0 0 0 1 i_abx
    ∷ opmode 0 0 0 0 1 i_abx
    ∷ opmode 0 0 0 0 1 i_abc
    ∷ opmode 0 0 0 0 1 i_abc
    ∷ opmode 0 0 0 0 1 i_abc
    ∷ opmode 0 0 0 0 1 i_abc
    ∷ opmode 0 0 0 0 1 i_abc
    ∷ opmode 0 0 0 0 0 i_abc
    ∷ opmode 0 0 0 0 1 i_abc
    ∷ opmode 0 0 0 0 1 i_abc
    ∷ opmode 0 0 0 0 1 i_abc
    ∷ opmode 0 0 0 0 1 i_abc
    ∷ opmode 0 0 0 0 0 i_abc
    ∷ opmode 0 0 0 0 0 i_abc
    ∷ opmode 0 0 0 0 0 i_abc
    ∷ opmode 0 0 0 0 0 i_abc
    ∷ opmode 0 0 0 0 1 i_abc
    ∷ opmode 0 0 0 0 1 i_abc
    ∷ opmode 0 0 0 0 1 i_abc
    ∷ opmode 0 0 0 0 1 i_abc
    ∷ opmode 0 0 0 0 1 i_abc
    ∷ opmode 0 0 0 0 1 i_abc
    ∷ opmode 0 0 0 0 1 i_abc
    ∷ opmode 0 0 0 0 1 i_abc
    ∷ opmode 0 0 0 0 1 i_abc
    ∷ opmode 0 0 0 0 1 i_abc
    ∷ opmode 0 0 0 0 1 i_abc
    ∷ opmode 0 0 0 0 1 i_abc
    ∷ opmode 0 0 0 0 1 i_abc
    ∷ opmode 0 0 0 0 1 i_abc
    ∷ opmode 0 0 0 0 1 i_abc
    ∷ opmode 0 0 0 0 1 i_abc
    ∷ opmode 0 0 0 0 1 i_abc
    ∷ opmode 0 0 0 0 1 i_abc
    ∷ opmode 0 0 0 0 1 i_abc
    ∷ opmode 0 0 0 0 1 i_abc
    ∷ opmode 0 0 0 0 1 i_abc
    ∷ opmode 0 0 0 0 1 i_abc
    ∷ opmode 0 0 0 0 1 i_abc
    ∷ opmode 0 0 0 0 1 i_abc
    ∷ opmode 0 0 0 0 1 i_abc
    ∷ opmode 0 0 0 0 1 i_abc
    ∷ opmode 0 0 0 0 1 i_abc
    ∷ opmode 1 0 0 0 0 i_abc
    ∷ opmode 1 0 0 0 0 i_abc
    ∷ opmode 1 0 0 0 0 i_abc
    ∷ opmode 0 0 0 0 1 i_abc
    ∷ opmode 0 0 0 0 1 i_abc
    ∷ opmode 0 0 0 0 1 i_abc
    ∷ opmode 0 0 0 0 1 i_abc
    ∷ opmode 0 0 0 0 1 i_abc
    ∷ opmode 0 0 0 0 0 i_abc
    ∷ opmode 0 0 0 0 0 i_abc
    ∷ opmode 0 0 0 0 0 i_sj
    ∷ opmode 0 0 0 1 0 i_abc
    ∷ opmode 0 0 0 1 0 i_abc
    ∷ opmode 0 0 0 1 0 i_abc
    ∷ opmode 0 0 0 1 0 i_abc
    ∷ opmode 0 0 0 1 0 i_abc
    ∷ opmode 0 0 0 1 0 i_abc
    ∷ opmode 0 0 0 1 0 i_abc
    ∷ opmode 0 0 0 1 0 i_abc
    ∷ opmode 0 0 0 1 0 i_abc
    ∷ opmode 0 0 0 1 0 i_abc
    ∷ opmode 0 0 0 1 1 i_abc
    ∷ opmode 0 1 1 0 1 i_abc
    ∷ opmode 0 1 1 0 1 i_abc
    ∷ opmode 0 0 1 0 0 i_abc
    ∷ opmode 0 0 0 0 0 i_abc
    ∷ opmode 0 0 0 0 0 i_abc
    ∷ opmode 0 0 0 0 1 i_abx
    ∷ opmode 0 0 0 0 1 i_abx
    ∷ opmode 0 0 0 0 0 i_abx
    ∷ opmode 0 0 0 0 0 i_abc
    ∷ opmode 0 0 0 0 1 i_abx
    ∷ opmode 0 0 1 0 0 i_abc
    ∷ opmode 0 0 0 0 1 i_abx
    ∷ opmode 0 1 0 0 1 i_abc
    ∷ opmode 0 0 1 0 1 i_abc
    ∷ opmode 0 0 0 0 0 i_ax
    ∷ []

-- `opmodes[op] & 1 << 4 != 0`, on the number of an opcode
unfoldable pub test_mode : ℕ → Bool
unfolding opmodes
test_mode n = get_or opmodes n 0 / 16 % 2 == 1

-- The instructions that the compiler follows by a jump.
abbrev pub is_test : OpCode → Bool
is_test op_eq = true
is_test op_lt = true
is_test op_le = true
is_test op_eqk = true
is_test op_eqi = true
is_test op_lti = true
is_test op_lei = true
is_test op_gti = true
is_test op_gei = true
is_test op_test = true
is_test op_testset = true
is_test _ = false
