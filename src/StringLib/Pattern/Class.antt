-- ===== src/StringLib/Pattern/Class.antt =====
-- Classes of characters: `classend`, `singlematch`, `matchbracketclass` and `match_class` of
-- src/builtin/string/mod.rs.
use tsuki.Base.{
  ℕ, zero, suc, ◌+◌, ◌-◌, Bool, true, false, not, ◌&&◌, ◌||◌, Option, none, some, List, [], ◌∷◌,
  ltb, leb, ◌==◌, if◌then◌else◌, get_elem?,
}
use tsuki.StringLib.Pattern.{
  Res, ok, err, panic, stuck, ◌>>=◌, or_panic, ends_with_escape, missing_bracket,
}

abbrev between : ℕ → ℕ → ℕ → Bool
between lo hi c = leb lo c && leb c hi

-- The classes of `u8` in the Rust library.
abbrev is_upper : ℕ → Bool
is_upper = between b'A' b'Z'

abbrev is_lower : ℕ → Bool
is_lower = between b'a' b'z'

abbrev is_decimal : ℕ → Bool
is_decimal = between b'0' b'9'

abbrev is_alphabetic : ℕ → Bool
is_alphabetic c = is_upper c || is_lower c

abbrev is_alphanumeric : ℕ → Bool
is_alphanumeric c = is_alphabetic c || is_decimal c

abbrev is_control : ℕ → Bool
is_control c = leb c 31 || c == 127

abbrev is_graphic : ℕ → Bool
is_graphic = between 33 126

abbrev is_punctuation : ℕ → Bool
is_punctuation c = is_graphic c && not (is_alphanumeric c)

abbrev is_hexdigit : ℕ → Bool
is_hexdigit c = is_decimal c || between b'A' b'F' c || between b'a' b'f' c

abbrev is_blank : ℕ → Bool
is_blank c = c == 32 || between 9 13 c

abbrev lowercase : ℕ → ℕ
lowercase c = if is_upper c then c + 32 else c

-- The test of a class letter, if it is one.
class_of : ℕ → Option (ℕ → Bool)
class_of l =
    if l == b'a'
    then some is_alphabetic
    else (if l == b'c'
        then some is_control
        else (if l == b'd'
            then some is_decimal
            else (if l == b'g'
                then some is_graphic
                else (if l == b'l'
                    then some is_lower
                    else (if l == b'p'
                        then some is_punctuation
                        else (if l == b's'
                            then some is_blank
                            else (if l == b'u'
                                then some is_upper
                                else (if l == b'w'
                                    then some is_alphanumeric
                                    else (if l == b'x' then some is_hexdigit else none)))))))))

unfoldable pub match_class : ℕ → ℕ → Bool
unfolding class_of
match_class c cl = elim (class_of (lowercase cl)) [
  | none ↦ cl == c
  | some test ↦ if is_lower cl then test c else not (test c)
]

-- The loop over a set, with fuel; `i` is the index before the one that is looked at.
unfoldable pub bracket_loop : ℕ → ℕ → List ℕ → ℕ → Bool → ℕ → Res Bool
bracket_loop zero c p ec sig i = stuck
bracket_loop (suc n) c p ec sig i = if leb ec (i + 1) then ok (not sig) else (do
  a ← or_panic (get_elem? p (i + 1))
  b ← or_panic (get_elem? p (i + 2))
  elim (a == b'%') [
    | true ↦ elim (match_class c b) [ true ↦ ok sig | false ↦ bracket_loop n c p ec sig (i + 2) ]
    | false ↦ elim (b == b'-' && ltb (i + 3) ec) [
      | true ↦ or_panic (get_elem? p (i + 3)) >>= λ hi. elim (leb a c && leb c hi) [
        | true ↦ ok sig
        | false ↦ bracket_loop n c p ec sig (i + 3)
      ]
      | false ↦ elim (a == c) [ true ↦ ok sig | false ↦ bracket_loop n c p ec sig (i + 1) ]
    ]
  ])

-- `ec` is the index of the closing bracket, and so more than enough rounds.
unfoldable pub matchbracketclass : ℕ → List ℕ → ℕ → Res Bool
unfolding bracket_loop
matchbracketclass c p ec = or_panic (get_elem? p 1) >>= λ b.
    if b == b'^' then bracket_loop (suc ec) c p ec false 1 else bracket_loop (suc ec) c p ec true 0

-- From the rest of a set, and the index of that rest, the index past its closing bracket.
unfoldable pub set_loop : List ℕ → ℕ → Res ℕ
set_loop [] o = err missing_bracket
set_loop (x ∷ []) o = err missing_bracket
set_loop (x ∷ y ∷ []) o =
    if x == b'%'
    then err missing_bracket
    else (if y == b']' then ok (o + 2) else err missing_bracket)
set_loop (x ∷ y ∷ z ∷ r) o = elim (x == b'%') [
  | true ↦ elim (z == b']') [ true ↦ ok (o + 3) | false ↦ set_loop (z ∷ r) (o + 2) ]
  | false ↦ elim (y == b']') [ true ↦ ok (o + 2) | false ↦ set_loop (y ∷ z ∷ r) (o + 1) ]
]

-- The index in `p` past its first single item.
unfoldable pub classend : List ℕ → Res ℕ
unfolding set_loop
classend [] = ok 1
classend (x ∷ []) =
    if x == b'%' then err ends_with_escape else (if x == b'[' then err missing_bracket else ok 1)
classend (x ∷ y ∷ r) =
    if x == b'%'
    then ok 2
    else (if x == b'[' then (if y == b'^' then set_loop r 2 else set_loop (y ∷ r) 1) else ok 1)

-- The first item of `p`, which ends at `ep`, at one byte of the text.
abbrev pub match_item : ℕ → List ℕ → ℕ → Res Bool
match_item c [] ep = panic
match_item c (x ∷ q) ep =
    if x == b'.'
    then ok true
    else (if x == b'%'
        then (or_panic (get_elem? q 0) >>= λ cl. ok (match_class c cl))
        else (if x == b'[' then matchbracketclass c (x ∷ q) (ep - 1) else ok (x == c)))

unfoldable pub singlematch : List ℕ → ℕ → List ℕ → ℕ → Res Bool
singlematch src off p ep = elim (get_elem? src off) [ none ↦ ok false | some c ↦ match_item c p ep ]
