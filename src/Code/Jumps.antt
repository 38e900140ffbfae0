-- ===== src/Code/Jumps.antt =====
-- Lists of pending jumps (src/lcode.rs). A list is a pc or `NO_JUMP`; each jump of it holds, in its
-- own offset, the next one. The code array is a list of words, and a `c_int` is an integer.
pub mod Target
pub mod Chain
pub mod Concat
pub mod Write
use tsuki.Base.{
  ℕ, zero, suc, ◌+◌, ◌-◌, ◌*◌, ◌/◌, ◌%◌, ◌^◌, ◌≡◌, Bool, true, false, ◌&&◌, ◌||◌, not, Option, none,
  some, List, [], ◌∷◌, ltb, leb, ◌==◌, if◌then◌else◌, length, get_or, set,
}
use tsuki.Base.Int.{ℤ, pos, negsuc, ◌+ℤ◌, ◌-ℤ◌, ltb_ℤ, pos_part}
use tsuki.Code.Word.{shl32, get_field, set_field, get_opcode, get_a, get_k, get_b, get_sj, abck}
use tsuki.Opcode.{
  test_mode, op_num, op_testset, op_test, op_jmp, op_return, op_return0, op_return1, op_tailcall,
}

-- `fault` is an access outside the code array, or the end of the fuel.
pub data Res {ℓ} (A : Type ℓ) : Type ℓ where
  ok : A → Res A
  too_long : Res A
  fault : Res A

infixl 5 ◌>>=◌
abbrev pub ◌>>=◌ {ℓ κ} : {A : Type ℓ} {B : Type κ} → Res A → (A → Res B) → Res B
ok a >>= f = f a
too_long >>= f = too_long
fault >>= f = fault

abbrev pub no_jump : ℤ
no_jump = negsuc 0

abbrev pub is_no_jump : ℤ → Bool
is_no_jump (negsuc n) = n == 0
is_no_jump (pos n) = false

abbrev pub offset_sj : ℕ
offset_sj = (2 ^ 25 - 1) / 2

-- `code[pc]`
abbrev pub fetch : List ℕ → ℤ → Res ℕ
fetch code (pos p) = if ltb p (length code) then ok (get_or code p 0) else fault
fetch code (negsuc _) = fault

abbrev pub store : List ℕ → ℤ → ℕ → List ℕ
store code (pos p) i = set code p i
store code (negsuc _) i = code

unfoldable pub jump_target : ℤ → ℕ → ℤ
unfolding ◌+ℤ◌ ◌-ℤ◌
jump_target pc i =
    let offset = pos (get_sj i) -ℤ pos offset_sj in
    if is_no_jump offset then no_jump else pc +ℤ pos 1 +ℤ offset

unfoldable pub getjump : List ℕ → ℤ → Res ℤ
getjump code pc = fetch code pc >>= λ i. ok (jump_target pc i)

unfoldable pub fixjump : List ℕ → ℤ → ℤ → Res (List ℕ)
fixjump code pc dest = fetch code pc >>= λ jmp.
    let offset = dest -ℤ (pc +ℤ pos 1) in
    if ltb_ℤ offset (pos 0 -ℤ pos offset_sj) || ltb_ℤ (pos (2 ^ 25 - 1 - offset_sj)) offset
    then too_long
    else ok (store code pc (set_field 7 25 jmp (pos_part (offset +ℤ pos offset_sj))))

-- The end of a list.
unfoldable pub last_jump : ℕ → List ℕ → ℤ → Res ℤ
last_jump zero code list = fault
last_jump (suc n) code list = getjump code list >>= λ next.
    let rest = last_jump n code next in if is_no_jump next then ok list else rest

-- `luaK_concat`: the code and the new value of `*l1`. The fuel is one more than the code's length.
unfoldable pub concat : List ℕ → ℤ → ℤ → Res (List ℕ × ℤ)
concat code l1 l2 =
    if is_no_jump l2
    then ok (code, l1)
    else (if is_no_jump l1 then ok (code, l2) else (do
      list ← last_jump (length code + 1) code l1
      code' ← fixjump code list l2
      ok (code', l1)))

-- The place of the instruction that controls a jump: the one before it if that is a test.
unfoldable pub getjumpcontrol : List ℕ → ℤ → Res ℤ
getjumpcontrol code pc = fetch code pc >>= λ _.
    (if ltb_ℤ pc (pos 1) then ok pc else (do
      prev ← fetch code (pc -ℤ pos 1)
      ok (if test_mode (get_opcode prev) then pc -ℤ pos 1 else pc)))

abbrev pub no_reg : ℕ
no_reg = 2 ^ 8 - 1

-- Whether the test has a value to give, and the code, in which it gives it to `reg` or to none.
unfoldable pub patchtestreg : List ℕ → ℤ → ℕ → Res (List ℕ × Bool)
patchtestreg code node reg = do
  at ← getjumpcontrol code node
  i ← fetch code at
  ok (
      if not (get_opcode i == op_num op_testset)
      then (code, false)
      else (if not (reg == no_reg) && not (reg == get_b i)
          then (store code at (set_field 7 8 i reg), true)
          else (store code at (abck (op_num op_test) (get_b i) 0 0 (get_k i)), true)))

unfoldable pub need_value : ℕ → List ℕ → ℤ → Res Bool
need_value zero code list = if is_no_jump list then ok false else fault
need_value (suc n) code list =
    let rest = getjump code list >>= need_value n code in
    if is_no_jump list then ok false else (do
      at ← getjumpcontrol code list
      i ← fetch code at
      if not (get_opcode i == op_num op_testset) then ok true else rest)

unfoldable pub removevalues : ℕ → List ℕ → ℤ → Res (List ℕ)
removevalues zero code list = if is_no_jump list then ok code else fault
removevalues (suc n) code list =
    let rest =
      patchtestreg code list no_reg >>= λ r. getjump r.0 list >>= λ next. removevalues n r.0 next in
    if is_no_jump list then ok code else rest

unfoldable pub patchlistaux : ℕ → List ℕ → ℤ → ℤ → ℕ → ℤ → Res (List ℕ)
patchlistaux zero code list vtarget reg dtarget = if is_no_jump list then ok code else fault
patchlistaux (suc n) code list vtarget reg dtarget =
    let rest = getjump code list >>= λ next. patchtestreg code list reg >>= λ r.
    fixjump r.0 list (if r.1 then vtarget else dtarget) >>= λ code'.
    patchlistaux n code' next vtarget reg dtarget in
    if is_no_jump list then ok code else rest

unfoldable pub patchlist : List ℕ → ℤ → ℤ → Res (List ℕ)
patchlist code list target = patchlistaux (length code + 1) code list target no_reg target

-- Follows a chain of `OP_JMP`, a hundred at most.
unfoldable pub finaltarget : ℕ → List ℕ → ℤ → Res ℤ
finaltarget zero code i = ok i
finaltarget (suc n) code i = fetch code i >>= λ pc.
    let rest = finaltarget n code (i +ℤ (pos (get_sj pc) -ℤ pos offset_sj +ℤ pos 1)) in
    if not (get_opcode pc == op_num op_jmp) then ok i else rest
