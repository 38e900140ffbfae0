-- ===== src/StringLib/Position.antt =====
-- Positions in a text: `posrelatI`, `getendpos`, and `sub` and `byte` of src/builtin/string/mod.rs.
-- A length is below 2 ^ 63, so that the casts to and from `i64` keep it.
pub mod Select
use tsuki.Base.{
  ℕ, zero, suc, ◌+◌, ◌-◌, ◌*◌, List, [], ◌∷◌, length, take, drop, leb, ltb, if◌then◌else◌, Bool,
  true, false, Option, none, some, get_elem?,
}
use tsuki.Vm.Arith.{is_zero}
use tsuki.Base.Int.{ℤ, pos, negsuc, ◌+ℤ◌, ◌-ℤ◌, ltb_ℤ, pos_part}
use tsuki.StringLib.Pattern.{Res, ok, err, panic, or_panic, ◌>>=◌}
use tsuki.StringLib.Pattern.Captures.{slice}

unfoldable pub posrelat : ℤ → ℕ → ℕ
unfolding ◌+ℤ◌ ◌-ℤ◌
posrelat p len =
    if ltb_ℤ (pos 0) p
    then pos_part p
    else (if is_zero p
        then 1
        else (if ltb_ℤ p (pos 0 -ℤ pos len) then 1 else pos_part (pos len +ℤ p +ℤ pos 1)))

unfoldable pub getendpos : ℤ → ℕ → ℕ
unfolding ◌+ℤ◌ ◌-ℤ◌
getendpos p len =
    if ltb_ℤ (pos len) p
    then len
    else (if ltb_ℤ p (pos 0)
        then (if ltb_ℤ p (pos 0 -ℤ pos len) then 0 else pos_part (pos len +ℤ p +ℤ pos 1))
        else pos_part p)

abbrev pub default_int : Option ℤ → ℤ → ℤ
default_int none d = d
default_int (some p) d = p

-- `sub`, once the arguments are read; the end is -1 by default.
unfoldable pub sub : List ℕ → ℤ → Option ℤ → Res (List ℕ)
unfolding posrelat getendpos
sub s start end =
    let from = posrelat start (length s) in
    let to = getendpos (default_int end (negsuc 0)) (length s) in
    if leb from to then or_panic (slice s (from - 1) (to - from + 1)) else ok []

-- The loop of `byte` over `n` bytes.
abbrev pub byte_loop : List ℕ → ℕ → ℕ → Res (List ℕ)
byte_loop s i zero = ok []
byte_loop s i (suc n) =
    or_panic (get_elem? s i) >>= λ b. byte_loop s (i + 1) n >>= λ bs. ok (b ∷ bs)

-- `byte`, where the stack has room: the start is 1 by default, the end the start.
unfoldable pub byte : List ℕ → Option ℤ → Option ℤ → Res (List ℕ)
unfolding posrelat getendpos
byte s start end =
    let pi = default_int start (pos 1) in
    let from = posrelat pi (length s) in
    let to = getendpos (default_int end pi) (length s) in
    if ltb to from then ok [] else byte_loop s (from - 1) (to - from + 1)
