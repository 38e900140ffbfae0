-- ===== src/StringLib/Pattern/Captures.antt =====
-- The captures of a match, `MatchCapture` of src/builtin/string/mod.rs: where each one starts, and
-- its length once it is closed.
use tsuki.Base.{
  ℕ, zero, suc, ◌+◌, ◌-◌, Bool, true, false, ◌&&◌, Option, none, some, List, [], ◌∷◌, ltb, leb,
  ◌==◌, if◌then◌else◌, get_elem?, take, drop, length,
}
use tsuki.StringLib.Pattern.{Res, ok, err, panic, ◌>>=◌, invalid_index}

-- `unclosed` is the length -1, `position` the length -2 of `()`.
pub data CaptureLen : Type 0 where
  unclosed position : CaptureLen
  closed : ℕ → CaptureLen

pub record Capture : Type 0 where
  pub off : ℕ
  pub len : CaptureLen

abbrev pub pop : List Capture → List Capture
pop [] = []
pop (c ∷ []) = []
pop (c ∷ d ∷ cs) = c ∷ pop (d ∷ cs)

abbrev pub set_len : List Capture → ℕ → CaptureLen → List Capture
set_len [] l v = []
set_len (c ∷ cs) zero v = record c { len = v } ∷ cs
set_len (c ∷ cs) (suc l) v = c ∷ set_len cs l v

-- The last open capture of a list, from that of its rest.
abbrev pub last_open : Option ℕ → CaptureLen → Option ℕ
last_open (some l) n = some (suc l)
last_open none unclosed = some 0
last_open none position = none
last_open none (closed n) = none

abbrev pub capture_to_close : List Capture → Option ℕ
capture_to_close [] = none
capture_to_close (c ∷ cs) = last_open (capture_to_close cs) c.len

-- Closes the `l`-th capture at `off`; no open capture starts past `off`.
abbrev pub close : List Capture → ℕ → ℕ → List Capture
close [] l off = []
close (c ∷ cs) zero off = record c { len = closed (off - c.off) } ∷ cs
close (c ∷ cs) (suc l) off = c ∷ close cs l off

-- A capture that a back reference accepts.
abbrev is_closed : Capture → CaptureLen → Res Capture
is_closed c unclosed = err invalid_index
is_closed c position = ok c
is_closed c (closed n) = ok c

-- `check_capture`, for the digit `l` after `%`.
abbrev pub check_capture : List Capture → ℕ → Res Capture
check_capture caps l =
    if ltb l b'1'
    then err invalid_index
    else elim (get_elem? caps (l - b'1')) [ none ↦ err invalid_index | some c ↦ is_closed c c.len ]

-- `&s[i..][..n]`, where it is in bounds.
abbrev pub slice : List ℕ → ℕ → ℕ → Option (List ℕ)
slice s i n = if leb (i + n) (length s) then some (take n (drop i s)) else none

abbrev pub bytes_eq : List ℕ → List ℕ → Bool
bytes_eq [] [] = true
bytes_eq [] (y ∷ ys) = false
bytes_eq (x ∷ xs) [] = false
bytes_eq (x ∷ xs) (y ∷ ys) = x == y && bytes_eq xs ys

-- The captured text again at `off`; a position capture has a length that no `usize` holds.
abbrev pub same_text : List ℕ → ℕ → ℕ → CaptureLen → Res (Option ℕ)
same_text src off start unclosed = panic
same_text src off start position = panic
same_text src off start (closed n) = elim (slice src start n) [
  | none ↦ panic
  | some c ↦ elim (slice src off n) [
    | none ↦ ok none
    | some s ↦ ok (if bytes_eq s c then some (off + n) else none)
  ]
]

unfoldable pub match_capture : List ℕ → List Capture → ℕ → ℕ → Res (Option ℕ)
match_capture src caps off l = check_capture caps l >>= λ c. same_text src off c.off c.len
