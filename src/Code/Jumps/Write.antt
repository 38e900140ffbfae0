-- ===== src/Code/Jumps/Write.antt =====
-- `fixjump` and then `getjump` (src/lcode.rs).
use tsuki.Base.{
  ℕ, ◌-◌, ◌^◌, ◌<◌, ◌≡◌, ◌≢◌, refl, ◌∙◌, true, ◌||◌, List, length, get_or, set, arith,
  get_or-set_self, get_or-set_ne, length-set,
}
use tsuki.Base.Int.{pos, ◌+ℤ◌, ◌-ℤ◌, ltb_ℤ}
use tsuki.Code.Word.{get_opcode}
use tsuki.Code.Jumps.{ok, too_long, offset_sj, getjump, fixjump}
use tsuki.Code.Jumps.Target.{
  jump_word, InReach, fixjump_lem, getjump_lem, fetch_lem, jump_target-jump_word, opcode-jump_word,
}

far_test :
    (p d : ℕ)
    → ¬ InReach p d
    → (ltb_ℤ (pos d -ℤ (pos p +ℤ pos 1)) (pos 0 -ℤ pos offset_sj)
        || ltb_ℤ (pos (2 ^ 25 - 1 - offset_sj)) (pos d -ℤ (pos p +ℤ pos 1)))
      ≡ true
unfolding ◌+ℤ◌ ◌-ℤ◌
far_test p d h = ground arith

-- What a jump to `d` leaves of the code.
pub record JumpsTo (code : List ℕ) (p d : ℕ) (code' : List ℕ) : Type 0 where
  pub target : getjump code' (pos p) ≡ ok (pos d)
  pub opcode : get_opcode (get_or code' p 0) ≡ get_opcode (get_or code p 0)
  pub others : (j : ℕ) → p ≢ j → get_or code' j 0 ≡ get_or code j 0
  pub same_length : length code' ≡ length code

-- `fixjump` at an instruction of the code makes it jump to a target other than itself, from which
-- `getjump` reads that target back, and changes neither its opcode nor another word; a target out
-- of the offset's range is the error, and only such a target is.
pub fixjump-getjump :
    (code : List ℕ) (p d : ℕ)
    → p < length code
    → get_or code p 0 < 2 ^ 32
    → p ≢ d
    → (InReach p d
        → (code' : List ℕ) × (fixjump code (pos p) (pos d) ≡ ok code') × JumpsTo code p d code')
      × (¬ InReach p d → fixjump code (pos p) (pos d) ≡ too_long)
fixjump-getjump code p d h word ne =
    let i = get_or code p 0 in
    (
      λ reach. (
        set code p (jump_word p d i),
        fixjump_lem code p d h word reach,
        record {
          target =
              getjump_lem (set code p (jump_word p d i)) p (rw length-set h)
              ∙ (rw
                  (
                    get_or-set_self code p (jump_word p d i) 0 h,
                    jump_target-jump_word p d i reach ne,
                  )
                  refl);
          opcode = rw (get_or-set_self code p (jump_word p d i) 0 h) (opcode-jump_word p d i reach);
          others = λ j apart. get_or-set_ne code p j (jump_word p d i) 0 apart;
          same_length = length-set code p (jump_word p d i);
        },
      ),
      λ far. unfold fixjump in rw (fetch_lem code p h, far_test p d far) refl,
    )
