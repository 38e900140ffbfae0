-- ===== src/Code/Jumps/Target.antt =====
-- One jump: what `getjump` reads after `fixjump` wrote (src/lcode.rs).
use tsuki.Base.{
  ℕ, ◌+◌, ◌-◌, ◌*◌, ◌%◌, ◌^◌, ◌≤◌, ◌<◌, ◌≡◌, ◌≢◌, refl, ◌∙◌, false, ◌||◌, List, lt→ltb, length,
  get_or, set, arith,
}
use tsuki.Base.Int.{pos, ◌+ℤ◌, ◌-ℤ◌, ltb_ℤ, pos_part}
use tsuki.Code.Word.{get_sj, get_opcode}
use tsuki.Code.Word.Fields.{get_field_lem, set_sj_lem}
use tsuki.Code.Jumps.{ok, fetch, offset_sj, jump_target, getjump, fixjump}

-- The word that jumps from `p` to `d`, with the opcode of `i`.
abbrev pub jump_word : ℕ → ℕ → ℕ → ℕ
jump_word p d i = (d + offset_sj - (p + 1)) * 2 ^ 7 + i % 2 ^ 7

-- The offset from `p` to `d` fits its field.
abbrev pub InReach : ℕ → ℕ → Type 0
InReach p d = (p + 1 ≤ d + offset_sj) × (d ≤ p + 1 + (2 ^ 25 - 1 - offset_sj))

pub sj-jump_word : (p d i : ℕ) → InReach p d → get_sj (jump_word p d i) ≡ d + offset_sj - (p + 1)
sj-jump_word p d i h = get_field_lem 7 25 (jump_word p d i) ∙ omega arith

pub opcode-jump_word : (p d i : ℕ) → InReach p d → get_opcode (jump_word p d i) ≡ get_opcode i
opcode-jump_word p d i h = get_field_lem 0 7 (jump_word p d i) ∙ omega (arith, get_field_lem 0 7 i)

pub jump_word-lt : (p d i : ℕ) → InReach p d → jump_word p d i < 2 ^ 32
jump_word-lt p d i h = omega arith

pub jump_target-jump_word :
    (p d i : ℕ) → InReach p d → p ≢ d → jump_target (pos p) (jump_word p d i) ≡ pos d
unfolding jump_target
jump_target-jump_word p d i h ne = rw (sj-jump_word p d i h) (ground arith)

pub fetch_lem :
    (code : List ℕ) (p : ℕ) → p < length code → fetch code (pos p) ≡ ok (get_or code p 0)
fetch_lem code p h = rw (lt→ltb p (length code) h) refl

reach_test :
    (p d : ℕ)
    → InReach p d
    → (ltb_ℤ (pos d -ℤ (pos p +ℤ pos 1)) (pos 0 -ℤ pos offset_sj)
        || ltb_ℤ (pos (2 ^ 25 - 1 - offset_sj)) (pos d -ℤ (pos p +ℤ pos 1)))
      ≡ false
unfolding ◌+ℤ◌ ◌-ℤ◌
reach_test p d h = ground arith

reach_value :
    (p d : ℕ)
    → InReach p d
    → pos_part (pos d -ℤ (pos p +ℤ pos 1) +ℤ pos offset_sj) ≡ d + offset_sj - (p + 1)
unfolding ◌+ℤ◌ ◌-ℤ◌
reach_value p d h = ground arith

pub fixjump_lem :
    (code : List ℕ) (p d : ℕ)
    → p < length code
    → get_or code p 0 < 2 ^ 32
    → InReach p d
    → fixjump code (pos p) (pos d) ≡ ok (set code p (jump_word p d (get_or code p 0)))
unfolding fixjump
fixjump_lem code p d h word reach =
    rw (fetch_lem code p h, reach_test p d reach, reach_value p d reach)
      (rw (set_sj_lem (get_or code p 0) (d + offset_sj - (p + 1)) word (omega arith)) refl)

pub getjump_lem :
    (code : List ℕ) (p : ℕ)
    → p < length code
    → getjump code (pos p) ≡ ok (jump_target (pos p) (get_or code p 0))
unfolding getjump
getjump_lem code p h = rw (fetch_lem code p h) refl
