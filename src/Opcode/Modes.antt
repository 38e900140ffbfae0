-- ===== src/Opcode/Modes.antt =====
-- The test bit of the mode table, for the opcodes of src/opcode/mod.rs.
use tsuki.Base.{◌≡◌, ◌<◌, ◌^◌, arith}
use tsuki.Opcode.{OpCode, op_num, test_mode, is_test}

-- Every opcode fits the seven bits of its field, and the test bit of the mode table is set on exactly
-- the instructions that the compiler follows by a jump.
pub test_mode-op_num : (op : OpCode) → (op_num op < 2 ^ 7) × (test_mode (op_num op) ≡ is_test op)
unfolding test_mode
test_mode-op_num op = ground arith
