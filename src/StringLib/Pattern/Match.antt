-- ===== src/StringLib/Pattern/Match.antt =====
-- The matcher of src/builtin/string/mod.rs: `match_0`, which calls itself with one less of the 200
-- levels of `matchdepth`, and the methods that it calls.
use tsuki.Base.{
  ℕ, zero, suc, ◌+◌, ◌-◌, Bool, true, false, ◌&&◌, Option, none, some, List, [], ◌∷◌, ◌++◌, leb,
  ◌==◌, if◌then◌else◌, get_elem?, length, drop,
}
use tsuki.StringLib.Pattern.{
  Res, ok, err, stuck, ◌>>=◌, or_panic, too_complex, too_many_captures, invalid_capture,
  missing_arguments, missing_set,
}
use tsuki.StringLib.Pattern.Class.{matchbracketclass, classend, singlematch}
use tsuki.StringLib.Pattern.Captures.{
  Capture, CaptureLen, unclosed, position, pop, set_len, capture_to_close, close, match_capture,
}

abbrev pub Out : Type 0
Out = Res (Option ℕ × List Capture)

-- From the captures, the offset in the text and the rest of the pattern.
abbrev pub Matcher : Type 0
Matcher = List Capture → ℕ → List ℕ → Out

abbrev pub after_start : Option ℕ × List Capture → Out
after_start (none, cs) = ok (none, pop cs)
after_start (some e, cs) = ok (some e, cs)

unfoldable pub start_capture : Matcher → List Capture → ℕ → List ℕ → CaptureLen → Out
start_capture rec caps off p what = elim (leb 32 (length caps)) [
  | true ↦ err too_many_captures
  | false ↦ rec (caps ++ record { off = off; len = what } ∷ []) off p >>= after_start
]

abbrev pub after_end : ℕ → Option ℕ × List Capture → Out
after_end l (none, cs) = ok (none, set_len cs l unclosed)
after_end l (some e, cs) = ok (some e, cs)

unfoldable pub end_capture : Matcher → List Capture → ℕ → List ℕ → Out
end_capture rec caps off p = elim (capture_to_close caps) [
  | none ↦ err invalid_capture
  | some l ↦ rec (close caps l off) off p >>= after_end l
]

abbrev is_byte : Option ℕ → ℕ → Bool
is_byte none x = false
is_byte (some e) x = x == e

-- The loop of `matchbalance` over the text from `off`.
abbrev pub balance_loop : List ℕ → ℕ → ℕ → Option ℕ → ℕ → Option ℕ
balance_loop [] off first e cont = none
balance_loop (x ∷ xs) off first e cont = elim (is_byte e x) [
  | true ↦ elim (cont == 1) [
    | true ↦ some (off + 1)
    | false ↦ balance_loop xs (off + 1) first e (cont - 1)
  ]
  | false ↦ balance_loop xs (off + 1) first e (if x == first then cont + 1 else cont)
]

unfoldable pub matchbalance : List ℕ → ℕ → List ℕ → Res (Option ℕ)
matchbalance src off [] = err missing_arguments
matchbalance src off (first ∷ q) = or_panic (get_elem? src off) >>= λ x. elim (x == first) [
  | true ↦ ok (balance_loop (drop (off + 1) src) (off + 1) first (get_elem? q 0) 1)
  | false ↦ ok none
]

-- Whether there is a frontier at `off`, for a set that ends at `ep`.
abbrev pub at_frontier : List ℕ → ℕ → List ℕ → ℕ → Res Bool
at_frontier src off p ep = do
  previous ← (if off == 0 then ok 0 else or_panic (get_elem? src (off - 1)))
  before ← matchbracketclass previous p (ep - 1)
  elim before [
    | true ↦ ok false
    | false ↦ or_panic (get_elem? src off) >>= λ c. matchbracketclass c p (ep - 1)
  ]

-- The two loops of `max_expand`: the count of matches, and the tries from the longest down.
abbrev pub count_loop : List ℕ → List ℕ → ℕ → ℕ → ℕ → Res ℕ
count_loop src p ep zero off = stuck
count_loop src p ep (suc n) off = singlematch src off p ep >>= λ m. elim m [
  | true ↦ count_loop src p ep n (off + 1) >>= λ k. ok (suc k)
  | false ↦ ok 0
]

abbrev pub or_else : (List Capture → Out) → Option ℕ × List Capture → Out
or_else next (none, cs) = next cs
or_else next (some e, cs) = ok (some e, cs)

abbrev pub max_try : Matcher → List Capture → ℕ → List ℕ → ℕ → Out
max_try rec caps off rest zero = rec caps off rest
max_try rec caps off rest (suc i) =
    rec caps (off + suc i) rest >>= or_else (λ cs. max_try rec cs off rest i)

-- The text is longer than the count of matches from `off`.
unfoldable pub max_expand : List ℕ → Matcher → List Capture → ℕ → List ℕ → ℕ → Out
max_expand src rec caps off p ep =
    count_loop src p ep (suc (length src)) off >>= max_try rec caps off (drop (ep + 1) p)

abbrev pub min_loop : List ℕ → Matcher → ℕ → List Capture → ℕ → List ℕ → ℕ → Out
min_loop src rec zero caps off p ep = stuck
min_loop src rec (suc n) caps off p ep =
    rec caps off (drop (ep + 1) p)
    >>= or_else (λ cs. singlematch src off p ep >>= λ m. elim m [
      | true ↦ min_loop src rec n cs (off + 1) p ep
      | false ↦ ok (none, cs)
    ])

unfoldable pub min_expand : List ℕ → Matcher → List Capture → ℕ → List ℕ → ℕ → Out
min_expand src rec caps off p ep = min_loop src rec (suc (length src)) caps off p ep

-- What follows a single item.
pub data Suffix : Type 0 where
  once optional star plus minus : Suffix

abbrev pub suffix_of : Option ℕ → Suffix
suffix_of none = once
suffix_of (some b) =
    if b == b'?'
    then optional
    else (if b == b'*'
        then star
        else (if b == b'+' then plus else (if b == b'-' then minus else once)))

-- A single item that does not match, and one that does; `next` is the loop again.
abbrev pub unmatched : Matcher → List Capture → ℕ → List ℕ → ℕ → Suffix → Out
unmatched next caps off p ep optional = next caps off (drop (ep + 1) p)
unmatched next caps off p ep star = next caps off (drop (ep + 1) p)
unmatched next caps off p ep minus = next caps off (drop (ep + 1) p)
unmatched next caps off p ep plus = ok (none, caps)
unmatched next caps off p ep once = ok (none, caps)

abbrev pub matched : List ℕ → Matcher → Matcher → List Capture → ℕ → List ℕ → ℕ → Suffix → Out
matched src rec next caps off p ep optional =
    rec caps (off + 1) (drop (ep + 1) p) >>= or_else (λ cs. next cs off (drop (ep + 1) p))
matched src rec next caps off p ep plus = max_expand src rec caps off p ep
matched src rec next caps off p ep star = max_expand src rec caps off p ep
matched src rec next caps off p ep minus = min_expand src rec caps off p ep
matched src rec next caps off p ep once = next caps (off + 1) (drop ep p)

unfoldable pub default_item : List ℕ → Matcher → Matcher → List Capture → ℕ → List ℕ → Out
default_item src rec next caps off p = do
  ep ← classend p
  m ← singlematch src off p ep
  elim m [
    | true ↦ matched src rec next caps off p ep (suffix_of (get_elem? p ep))
    | false ↦ unmatched next caps off p ep (suffix_of (get_elem? p ep))
  ]

-- Where the pattern goes on, if it does.
abbrev pub go_on : Matcher → List Capture → List ℕ → Option ℕ → Out
go_on next caps p none = ok (none, caps)
go_on next caps p (some off) = next caps off p

unfoldable pub frontier : List ℕ → Matcher → List Capture → ℕ → List ℕ → Out
frontier src next caps off [] = err missing_set
frontier src next caps off (x ∷ q) = elim (x == b'[') [
  | false ↦ err missing_set
  | true ↦ (do
    ep ← classend (x ∷ q)
    here ← at_frontier src off (x ∷ q) ep
    elim here [ true ↦ next caps off (drop ep (x ∷ q)) | false ↦ ok (none, caps) ])
]

-- A pattern `%y` and its rest `q`.
abbrev pub escape : List ℕ → Matcher → Matcher → List Capture → ℕ → ℕ → List ℕ → Out
escape src rec next caps off y q = elim (y == b'b') [
  | true ↦ matchbalance src off q >>= go_on next caps (drop 2 q)
  | false ↦ elim (y == b'f') [
    | true ↦ frontier src next caps off q
    | false ↦ elim (leb b'0' y && leb y b'9') [
      | true ↦ match_capture src caps off y >>= go_on next caps q
      | false ↦ default_item src rec next caps off (b'%' ∷ y ∷ q)
    ]
  ]
]

pub data First : Type 0 where
  open_group close_group dollar percent other : First

abbrev pub first_of : ℕ → First
first_of x =
    if x == b'('
    then open_group
    else (if x == b')'
        then close_group
        else (if x == b'$' then dollar else (if x == b'%' then percent else other)))

abbrev pub open_item : Matcher → List Capture → ℕ → List ℕ → Out
open_item rec caps off [] = start_capture rec caps off [] unclosed
open_item rec caps off (y ∷ q) = elim (y == b')') [
  | true ↦ start_capture rec caps off q position
  | false ↦ start_capture rec caps off (y ∷ q) unclosed
]

-- One round of the loop: `rec` is `match_0` one level down, `next` the loop again.
abbrev pub item : List ℕ → Matcher → Matcher → List Capture → ℕ → ℕ → List ℕ → First → Out
item src rec next caps off x q open_group = open_item rec caps off q
item src rec next caps off x q close_group = end_capture rec caps off q
item src rec next caps off x [] dollar = ok (if off == length src then some off else none, caps)
item src rec next caps off x (y ∷ q) dollar = default_item src rec next caps off (x ∷ y ∷ q)
item src rec next caps off x [] percent = default_item src rec next caps off (x ∷ [])
item src rec next caps off x (y ∷ q) percent = escape src rec next caps off y q
item src rec next caps off x q other = default_item src rec next caps off (x ∷ q)

unfoldable pub match_loop : List ℕ → Matcher → ℕ → Matcher
unfolding start_capture end_capture matchbalance match_capture frontier default_item
match_loop src rec zero caps off p = stuck
match_loop src rec (suc n) caps off [] = ok (some off, caps)
match_loop src rec (suc n) caps off (x ∷ q) =
    item src rec (match_loop src rec n) caps off x q (first_of x)

-- A round of the loop takes at least one byte off the pattern.
unfoldable pub match_0 : List ℕ → ℕ → Matcher
unfolding match_loop
match_0 src zero caps off p = err too_complex
match_0 src (suc depth) caps off p = match_loop src (match_0 src depth) (suc (length p)) caps off p
