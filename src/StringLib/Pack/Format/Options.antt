-- ===== src/StringLib/Pack/Format/Options.antt =====
-- What a format can ask for, in a description of its own: the options of `getoption` of
-- src/builtin/string/mod.rs.
use tsuki.Base.{
  ℕ, ◌+◌, ◌-◌, ◌*◌, ◌≤◌, ◌≡◌, ◌⊎◌, Bool, true, false, ◌&&◌, ◌||◌, Option, none, some, List, [], ◌∷◌,
  leb, ◌==◌, if◌then◌else◌,
}
use tsuki.StringLib.Pack.Format.{
  FormatError, parsed, refused, out_of_limits, missing_size, invalid_option, Pack, signed, unsigned,
  str, padding, float, double, number, pad_align, nop, Header, Got, size_of,
}

abbrev pub is_digit : ℕ → Bool
is_digit c = leb b'0' c && leb c b'9'

-- The number that the digits at the head of a text write after `a`, however many, and what follows.
abbrev pub written : List ℕ → ℕ → ℕ × List ℕ
written [] a = (a, [])
written (c ∷ cs) a = if is_digit c then written cs (a * 10 + (c - b'0')) else (a, c ∷ cs)

abbrev pub has_digit : List ℕ → Bool
has_digit [] = false
has_digit (c ∷ cs) = is_digit c

-- The letters whose option takes a size, and the size where none is written.
abbrev pub takes_size : ℕ → Bool
takes_size c = c == b'i' || c == b'I' || c == b's' || c == b'!'

abbrev pub asked : ℕ → List ℕ → ℕ × List ℕ
asked c fmt =
    if has_digit fmt then written fmt 0 else (if c == b'i' || c == b'I' then 4 else 8, fmt)

abbrev pub in_limits : ℕ → Bool
in_limits v = leb 1 v && leb v 16

abbrev pub among : List ℕ → ℕ → Bool
among [] c = false
among (x ∷ xs) c = c == x || among xs c

-- The letters of the options of one kind, and the ones that only change the header or do nothing.
abbrev pub fixed_options : List (ℕ × Pack)
fixed_options =
    (b'b', signed 1)
    ∷ (b'B', unsigned 1)
    ∷ (b'h', signed 2)
    ∷ (b'H', unsigned 2)
    ∷ (b'l', signed 8)
    ∷ (b'L', unsigned 8)
    ∷ (b'j', signed 8)
    ∷ (b'J', unsigned 8)
    ∷ (b'T', unsigned 8)
    ∷ (b'f', float)
    ∷ (b'n', number)
    ∷ (b'd', double)
    ∷ (b'z', str none)
    ∷ (b'x', padding 1)
    ∷ (b'X', pad_align)
    ∷ []

abbrev pub lookup : List (ℕ × Pack) → ℕ → Option Pack
lookup [] c = none
lookup (o ∷ os) c = if c == o.0 then some o.1 else lookup os c

abbrev pub header_letters : List ℕ
header_letters = 32 ∷ b'<' ∷ b'>' ∷ b'=' ∷ []

abbrev pub has_some : Option Pack → Bool
has_some none = false
has_some (some k) = true

-- The error of an option, if it is one.
abbrev pub verdict : ℕ → List ℕ → Option FormatError
verdict c fmt =
    if takes_size c
    then (if in_limits (asked c fmt).0 then none else some out_of_limits)
    else (if c == b'c'
        then (if has_digit fmt then none else some missing_size)
        else (if has_some (lookup fixed_options c) || among header_letters c
            then none
            else some invalid_option))

-- A size that a format can ask for, and the limit of a header.
abbrev pub InLimits : ℕ → Type 0
InLimits v = (1 ≤ v) × (v ≤ 16)

abbrev pub IsKind : Pack → Type 0
IsKind (signed v) = InLimits v
IsKind (unsigned v) = InLimits v
IsKind (str (some v)) = InLimits v
IsKind opt = Unit

-- The size that an option has, in the header for the letter of the alignment.
abbrev pub size_got : ℕ → Pack → Header → ℕ
size_got c opt h = if c == b'!' then h.maxalign else size_of opt

-- The option that a letter stands for, with a size of `v` where the letter takes one.
abbrev pub sized_kind : ℕ → ℕ → Pack
sized_kind c v =
    if c == b'i'
    then signed v
    else (if c == b'I' then unsigned v else (if c == b's' then str (some v) else nop))

abbrev or_nop : Option Pack → Pack
or_nop none = nop
or_nop (some k) = k

abbrev pub meant : ℕ → List ℕ → Pack
meant c fmt = if takes_size c then sized_kind c (asked c fmt).0 else or_nop (lookup fixed_options c)

-- What `getoption` gives for a letter: the error that the verdict names, or, where it names none, an
-- option within the limits, the one that is meant unless it takes a count, and of the size that was
-- asked for where the letter takes one.
abbrev pub IsGot : ℕ → List ℕ → Got → Type 0
IsGot c fmt (refused e) = verdict c fmt ≡ some e
IsGot c fmt (parsed (opt, h, rest)) =
    (verdict c fmt ≡ none)
    × IsKind opt
    × InLimits h.maxalign
    × ((c ≡ b'c') ⊎ (opt ≡ meant c fmt))
    × ((takes_size c ≡ false) ⊎ ((size_got c opt h, rest) ≡ asked c fmt))
