-- ===== src/Tests/Patterns.antt =====
-- Runs of the pattern matcher and of the string library around it, and the theorems on them at
-- concrete texts.
use tsuki.Base.{
  ℕ, zero, suc, ◌≡◌, refl, arith, inr, true, false, Option, some, none, List, [], ◌∷◌, length,
  get_or, take, if◌then◌else◌,
}
use tsuki.Base.Int.{pos, negsuc}
use tsuki.StringLib.Pattern.{ok, err, panic, invalid_capture}
use tsuki.StringLib.Pattern.Class.{classend, singlematch, match_class, matchbracketclass}
use tsuki.StringLib.Pattern.Captures.{closed, bytes_eq}
use tsuki.StringLib.Pattern.Match.{match_0, max_expand}
use tsuki.StringLib.Pattern.Sound.{Sound}
use tsuki.StringLib.Pattern.Sound.Rounds.{match_0-Sound}
use tsuki.StringLib.Pattern.Panics.{match_0_panics}
use tsuki.StringLib.Pattern.Plus.{match_0-plus}
use tsuki.StringLib.Position.{sub, byte, posrelat}
use tsuki.StringLib.Position.Select.{sub-byte_positions, select, covers, resolve}
use tsuki.StringLib.Find.{str_find, nospecials, pattern_find, anchored}
use tsuki.StringLib.Find.Plain.{pattern_find-first_in}
use tsuki.StringLib.Find.Within.{str_find-FindsWithin, FindsWithin, FindsText}
use tsuki.StringLib.Pack.{packint, pack_signed, pack_unsigned, unpack_int}
use tsuki.StringLib.Pack.RoundTrip.{pack-unpack_signed, pack-unpack_unsigned}
use tsuki.StringLib.Pack.Overwrite.{packint-overwrites}

-- "key = 42" and the pattern "(%a+)%s*=%s*(%d+)".
abbrev key_text : List ℕ
key_text = b'k' ∷ b'e' ∷ b'y' ∷ 32 ∷ b'=' ∷ 32 ∷ b'4' ∷ b'2' ∷ []

abbrev key_pattern : List ℕ
key_pattern =
    b'(' ∷ b'%' ∷ b'a' ∷ b'+' ∷ b')' ∷ b'%' ∷ b's' ∷ b'*' ∷ b'=' ∷ b'%' ∷ b's' ∷ b'*' ∷ b'(' ∷ b'%'
    ∷ b'd' ∷ b'+' ∷ b')' ∷ []

key_match :
    match_0 key_text 200 [] 0 key_pattern
    ≡ ok (some 8, record { off = 0; len = closed 3 } ∷ record { off = 6; len = closed 2 } ∷ [])
unfolding match_0 classend singlematch match_class max_expand
key_match = refl

unopened : match_0 key_text 200 [] 0 (b'k' ∷ b')' ∷ []) ≡ err invalid_capture
unfolding match_0 classend singlematch
unopened = refl

match_0-Sound_example : Sound 8 [] 0 (match_0 key_text 200 [] 0 key_pattern)
match_0-Sound_example = match_0-Sound key_text 200 [] 0 key_pattern (omega arith) tt

match_0-plus_example :
    match_0 (b'a' ∷ []) 200 [] 0 (b'a' ∷ b'+' ∷ b'a' ∷ [])
    ≡ match_0 (b'a' ∷ []) 200 [] 0 (b'a' ∷ b'*' ∷ b'a' ∷ [])
match_0-plus_example = match_0-plus (b'a' ∷ []) 199 [] 0 b'a' (b'a' ∷ []) refl refl

-- "a+a" matches "a".
no_repetition : match_0 (b'a' ∷ []) 200 [] 0 (b'a' ∷ b'+' ∷ b'a' ∷ []) ≡ ok (some 1, [])
unfolding match_0 classend singlematch match_class max_expand
no_repetition = refl

-- The set "[%a]" and a text that ends with a digit.
abbrev letter_set : List ℕ
letter_set = b'%' ∷ b'a' ∷ b']' ∷ []

letter_set_end : classend (b'[' ∷ letter_set) ≡ ok 4
unfolding classend
letter_set_end = refl

two_outside : matchbracketclass b'2' (b'[' ∷ letter_set) 3 ≡ ok false
unfolding matchbracketclass match_class
two_outside = refl

match_0_panics_example :
    (match_0 (b'4' ∷ []) 200 [] 1 (b'%' ∷ b'b' ∷ b'(' ∷ letter_set) ≡ panic)
    × (match_0 (b'4' ∷ b'2' ∷ []) 200 [] 2 (b'%' ∷ b'f' ∷ b'[' ∷ letter_set) ≡ panic)
    × (match_0 (b'4' ∷ []) 201 [] 0 (b'(' ∷ b')' ∷ b'%' ∷ b'1' ∷ letter_set) ≡ panic)
match_0_panics_example =
    match_0_panics (b'4' ∷ []) b'2' 199 [] b'(' 4 0 letter_set letter_set_end two_outside

sub-byte_positions_example :
    (sub key_text (negsuc 1) none
      ≡ ok (select (covers (resolve 8 (negsuc 1)) (resolve 8 (negsuc 0))) 1 key_text))
    × (byte key_text (some (pos 2)) (some (pos 3))
        ≡ ok (select (covers (pos 2) (pos 3)) 1 key_text))
sub-byte_positions_example =
    sub-byte_positions key_text (negsuc 1) none (some (pos 2)) (some (pos 3))

last_two : sub key_text (negsuc 1) none ≡ ok (b'4' ∷ b'2' ∷ [])
unfolding sub
last_two = refl

-- A search for a text from the left.
abbrev later : Option ℕ → Option ℕ
later none = none
later (some i) = some (suc i)

abbrev first_in : List ℕ → List ℕ → Option ℕ
first_in [] p = if bytes_eq [] p then some 0 else none
first_in (x ∷ s) p =
    let rest = later (first_in s p) in if bytes_eq (take (length p) (x ∷ s)) p then some 0 else rest

bytes_eq-same : (s p : List ℕ) → bytes_eq s p ≡ true → s ≡ p
bytes_eq-same [] [] h = refl
bytes_eq-same [] (y ∷ p) h = ground arith
bytes_eq-same (x ∷ s) [] h = ground arith
bytes_eq-same (x ∷ s) (y ∷ p) h = ground (arith, bytes_eq-same s p)

first_in-FindsText : FindsText first_in
first_in-FindsText [] p i h = ground (arith, bytes_eq-same [] p)
first_in-FindsText (x ∷ s) p zero h = ground (arith, bytes_eq-same (take (length p) (x ∷ s)) p)
first_in-FindsText (x ∷ s) p (suc i) h = ground (arith, first_in-FindsText s p i)

str_find-FindsWithin_example :
    FindsWithin 8 2 (str_find (first_in) true key_text (b'4' ∷ []) (some (pos 3)) true)
unfolding posrelat
str_find-FindsWithin_example =
    str_find-FindsWithin (first_in) true key_text (b'4' ∷ []) (some (pos 3)) true first_in-FindsText

-- -2 in 3 bytes after one byte, the highest first.
two_packed : pack_signed (7 ∷ []) (negsuc 1) false 3 ≡ some (7 ∷ 255 ∷ 255 ∷ 254 ∷ [])
unfolding pack_signed packint
two_packed = refl

pack-unpack_signed_example : unpack_int (7 ∷ 255 ∷ 255 ∷ 254 ∷ []) 1 false true 3 ≡ some (negsuc 1)
pack-unpack_signed_example =
    pack-unpack_signed (7 ∷ []) (7 ∷ 255 ∷ 255 ∷ 254 ∷ []) (negsuc 1) false 3 (omega arith)
      (omega arith) (inr refl) two_packed

wide_packed :
    pack_unsigned (7 ∷ []) (pos 258) true 9 ≡ some (7 ∷ 2 ∷ 1 ∷ 0 ∷ 0 ∷ 0 ∷ 0 ∷ 0 ∷ 0 ∷ 0 ∷ [])
unfolding pack_unsigned packint
wide_packed = refl

pack-unpack_unsigned_example :
    unpack_int (7 ∷ 2 ∷ 1 ∷ 0 ∷ 0 ∷ 0 ∷ 0 ∷ 0 ∷ 0 ∷ 0 ∷ []) 1 true false 9 ≡ some (pos 258)
pack-unpack_unsigned_example =
    pack-unpack_unsigned (7 ∷ []) (7 ∷ 2 ∷ 1 ∷ 0 ∷ 0 ∷ 0 ∷ 0 ∷ 0 ∷ 0 ∷ 0 ∷ []) (pos 258) true 9
      (omega arith) (omega arith) wide_packed

packint-overwrites_example :
    get_or (packint (1 ∷ 2 ∷ 3 ∷ 4 ∷ 5 ∷ 6 ∷ 7 ∷ 8 ∷ 9 ∷ []) 5 false 16 true) 8 0 ≡ 255
packint-overwrites_example =
    packint-overwrites (1 ∷ 2 ∷ 3 ∷ 4 ∷ 5 ∷ 6 ∷ 7 ∷ 8 ∷ 9 ∷ []) 5 16 8 false (omega arith)
      (omega arith) (omega arith)

plain_number : nospecials (b'4' ∷ b'2' ∷ []) ≡ true
unfolding nospecials
plain_number = refl

-- "42" in the text, by the matcher.
pattern_find-first_in_example :
    pattern_find key_text 1 (anchored (b'4' ∷ b'2' ∷ []))
    ≡ ok (some (record { start = 6; stop = 8; captures = [] }))
pattern_find-first_in_example =
    pattern_find-first_in key_text (b'4' ∷ b'2' ∷ []) 1 plain_number refl (omega arith)
