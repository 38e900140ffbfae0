-- ===== src/Tests/Compiler.antt =====
-- Instruction words and lists of jumps at concrete inputs.
use tsuki.Base.{ℕ, ◌+◌, ◌*◌, ◌^◌, ◌<◌, ◌≡◌, refl, List, [], ◌∷◌, arith, get_or, ◌-◌, ltb, ltb→lt}
use tsuki.Base.Table.{all_from, all_below_lem}
use tsuki.Base.Int.{pos, ◌+ℤ◌, ◌-ℤ◌}
use tsuki.Opcode.{op_num, op_testset, op_jmp, test_mode, is_test}
use tsuki.Opcode.Modes.{test_mode-op_num}
use tsuki.Code.Word.{
  get_opcode, get_a, get_b, get_c, get_k, get_bx, get_sj, abck, abx, sj, get_field,
}
use tsuki.Code.Word.RoundTrip.{abck_fields, abx-sj_fields}
use tsuki.Code.Jumps.{ok, too_long, jump_target, concat, offset_sj, fixjump}
use tsuki.Code.Jumps.Concat.{concat-IsJoined, IsJoined, IsCode}
use tsuki.Code.Jumps.Write.{fixjump-getjump, JumpsTo}
use tsuki.Code.Jumps.Target.{InReach}

test_mode-op_num_example :
    (op_num op_testset < 2 ^ 7) × (test_mode (op_num op_testset) ≡ is_test op_testset)
test_mode-op_num_example = test_mode-op_num op_testset

abck_fields_example :
    (abck 67 3 4 0 1 < 2 ^ 32)
    × (get_opcode (abck 67 3 4 0 1) ≡ 67)
    × (get_a (abck 67 3 4 0 1) ≡ 3)
    × (get_b (abck 67 3 4 0 1) ≡ 4)
    × (get_c (abck 67 3 4 0 1) ≡ 0)
    × (get_k (abck 67 3 4 0 1) ≡ 1)
abck_fields_example =
    abck_fields 67 3 4 0 1 (omega arith) (omega arith) (omega arith) (omega arith) (omega arith)

abx-sj_fields_example :
    (abx 3 1 100000 < 2 ^ 32)
    × (get_opcode (abx 3 1 100000) ≡ 3)
    × (get_a (abx 3 1 100000) ≡ 1)
    × (get_bx (abx 3 1 100000) ≡ 100000)
    × (sj 3 5 0 < 2 ^ 32)
    × (get_opcode (sj 3 5 0) ≡ 3)
    × (get_sj (sj 3 5 0) ≡ 5)
abx-sj_fields_example =
    abx-sj_fields 3 1 100000 5 (omega arith) (omega arith) (omega arith) (omega arith)

-- A jump with no target, twice.
abbrev pending : ℕ
pending = op_num op_jmp + (offset_sj - 1) * 2 ^ 7

abbrev two_jumps : List ℕ
two_jumps = pending ∷ pending ∷ []

two_jumps-IsCode : IsCode two_jumps
two_jumps-IsCode = record {
  words = λ p lt. ltb→lt _ _ (
      all_below_lem {n = 2} (λ q. ltb (get_or two_jumps q 0) (2 ^ 32)) (unfold all_from in refl)
        lt);
  small = omega arith;
}

concat-IsJoined_example :
    (code' : List ℕ) × (concat two_jumps (pos 0) (pos 1) ≡ ok (code', pos 0))
    × IsJoined two_jumps 0 [] 1 [] code'
unfolding jump_target get_field ◌+ℤ◌ ◌-ℤ◌
concat-IsJoined_example =
    concat-IsJoined two_jumps 0 [] 1 [] two_jumps-IsCode (refl, omega arith, refl)
      (refl, omega arith, refl) ((ground arith, tt), (tt, tt))

fixjump-getjump_example :
    (InReach 0 7
      → (code' : List ℕ) × (fixjump two_jumps (pos 0) (pos 7) ≡ ok code')
        × JumpsTo two_jumps 0 7 code')
    × (¬ InReach 0 7 → fixjump two_jumps (pos 0) (pos 7) ≡ too_long)
fixjump-getjump_example = fixjump-getjump two_jumps 0 7 (omega arith) (omega arith) (ground arith)
