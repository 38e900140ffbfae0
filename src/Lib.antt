-- ===== src/Lib.antt =====
-- Tsuki, an implementation of Lua in Rust: its compiler emits instruction words for a register
-- machine, whose objects an incremental collector frees. The development follows the source
-- function by function.
--
-- Base: lists, bits, integers and 64-bit arithmetic.
-- Opcode: the opcodes and the mode table of src/vm/opcode/mod.rs, without the feature jit.
-- Number: `l_str2int` and its helpers of src/lobject.rs, and the table of src/lctype.rs. A text is
--   the list of its bytes, and what is left of the iterator is the rest of the list.
-- Log2: `luaO_ceillog2` of src/lobject.rs.
-- Value: Lua values of src/value/mod.rs, and `l_str2d` and `luaO_str2num` of src/lobject.rs. The type
--   f64 with its operations and its parser is the parameter `Floats`.
-- Vm/Arith: `luaV_idiv`, `luaV_mod` and `luaV_shiftl` of src/vm/mod.rs. An i64 is an integer, and a
--   cast to u64 or back is a function.
-- Vm/Arith/Operate: `Ops` and `ArithError` of src/lib.rs and `intarith` of src/lobject.rs.
-- Vm/Convert: `l_strton`, `luaV_tonumber_`, `luaV_flttointeger`, `luaV_tointegerns` and
--   `luaV_tointeger` of src/vm/mod.rs.
-- Vm/ForLoop: `forlimit`, `forprep` and `floatforloop` of src/vm/mod.rs, and `OP_FORLOOP` of
--   src/vm/interp/mod.rs. The state is the four registers of a loop; an error is a value.
-- Code/Word: the instruction words that src/lcode.rs packs, reads and overwrites.
-- Code/Jumps: the lists of pending jumps of src/lcode.rs, from `getjump` to `finaltarget`. The code
--   array is a list of words, and an access outside it is `fault`.
-- LineInfo: `savelineinfo`, `removelastlineinfo` and `luaK_fixline` of src/lcode.rs, `getbaseline` and
--   `luaG_getfuncline` of src/ldebug.rs. The arrays are lists of the entries in use.
-- StringTable: the table of src/string/table.rs, `luaS_hash` of src/lstring.rs and the short branch of
--   `Str::new` of src/string/mod.rs. A bucket is the list of its chain.
-- Gc/Mark: the mark bytes of src/gc/mark.rs and src/gc/mod.rs.
-- Gc/Sweep: `alloc`, `step` in its state 3, `sweep` and `free` of src/gc/mod.rs. The linked list of
--   all objects is the part before the sweep pointer and the part after it.
-- Gc/Trace: `mark`, `mark_one_gray`, what they call for each type of object, and the states of `step`
--   that mark, of src/gc/mod.rs. The heap is a list of the shapes of its objects, and an object is its
--   index there; the state has the mark bytes, the gray lists, `twups`, the references of the host and
--   the debt.
-- Gc/Collect: `step` through a whole cycle, the marking and then the sweep.
-- StringLib/Pattern: `MatchState` of src/builtin/string/mod.rs, the pattern matcher. A panic is a result
--   of its own. A level of `match_0` is a function of the level below it.
-- StringLib/Position: `posrelatI`, `getendpos`, `sub` and `byte` of the same file.
-- StringLib/Find: `str_find_aux` of the same file, which `find` and `match` call; the search for a plain
--   text, of another package, is its parameter `memmem`.
-- StringLib/Pack: src/builtin/string/pack.rs, the integers of `pack` and `unpack`, and the parser
--   `Header` of their formats, for a little-endian target of 64 bits.
-- TableLib/Sort: `sort` of src/builtin/table/mod.rs with `auxsort`, `partition` and `choose_pivot`. The
--   table is the list of its items; the comparison, which may fail and keeps a state, and the random
--   numbers are parameters.
-- Tables/Sizes, Tables/Counts: `computesizes`, `numusearray`, `arrayindex` and `countint` of
--   src/table/legacy.rs; a slot of the array part is whether its value is not nil, and an integer key
--   is in two's complement.
-- Upvalues: `luaF_findupval`, `newupval` and `luaF_closeupval` of src/lfunc.rs, on the list of the open
--   upvalues of a thread and a map for the closed ones; in Upvalues/Tbc the list of the variables to be
--   closed, where `luaF_newtbcupval` and `poptbclist` step over long distances.
-- Tests: the theorems at concrete inputs, and runs of the definitions.
--
-- The parts meet where the source's do: Vm/ForLoop converts its registers by Vm/Convert, which reads
-- texts by Value and Number; Code/Jumps reads and writes words by Code/Word and asks Opcode for the
-- test instructions; Gc/Sweep decides by Gc/Mark what is dead, and Gc/Collect hands the mark bytes that
-- Gc/Trace leaves to Gc/Sweep. Tables/Counts finds the slice of a key by Log2.
--
-- Fuel: a walk along a list of jumps has one more than the length of the code, which bounds a list of
-- distinct jumps; `finaltarget` has the source's hundred; `luaO_ceillog2` has four rounds, which use
-- up a u32; `mark` calls itself three deep at most, from an upvalue to a userdata to its table; a loop
-- over the gray list has one round for each object; `computesizes` and `numusearray` have one round
-- for each bit of a u32 and one more, and the loop inside `numusearray` one more than its last slot;
-- `auxsort` has one level for each item of its range and one more, and the loops of `partition` one
-- round for each item; a round of the pattern matcher takes a byte off the pattern, and its
-- repetitions and its tries have one round more than the length of the text; the loops over the
-- variables to be closed have one round more than the slot, and each round moves by 65535 slots;
-- `sweep` has the source's hundred rounds. A whole loop and a whole sweep take their fuel as an
-- argument, with the amount that is enough in the theorem.
--
-- Not modelled: the lexer and the parser, the rest of the code generator and of the interpreter, the
-- JIT compiler, the hash part of tables and what moves values between it and the array part, long
-- strings, threads, `gsub`, `gmatch` and `format` of the string library, all of the table library but
-- `table.sort`, the other libraries and the interface for host programs. Destructors that `free`
-- runs are not modelled either: an object is its address, its tag, which is one that `free` knows, and
-- its mark byte. The open upvalues of Upvalues have no mark byte, so the write barriers of its closing
-- are left out. Of the marking the weak tables, the write barriers and the collections of the host are
-- left out: a cycle runs with no step of the program in between, from where `step` finds enough new
-- objects. `table.sort` runs on a table without metamethods that
-- its comparison does not change.
pub mod Base
pub mod StringLib
pub mod StringTable
pub mod Opcode
pub mod Log2
pub mod Number
pub mod Value
pub mod Gc
pub mod Code
pub mod Vm
pub mod Tests
pub mod TableLib
pub mod Tables
pub mod Upvalues
pub mod LineInfo
