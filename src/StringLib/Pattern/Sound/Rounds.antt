-- ===== src/StringLib/Pattern/Sound/Rounds.antt =====
-- The rounds of the loop of `match_0`: each one takes bytes off the pattern, and so the loop ends.
use tsuki.Base.{
  ℕ, zero, suc, ◌+◌, ◌≤◌, ◌<◌, refl, ap, ◌∙◌, arith, Bool, true, false, Option, none, some, List,
  [], ◌∷◌, length, leb, ◌==◌, ◌&&◌, if◌then◌else◌, drop, length-drop, get_elem?,
}
use tsuki.StringLib.Pattern.{Res, ok, err, panic, stuck, ◌>>=◌}
use tsuki.StringLib.Pattern.Class.{singlematch, classend}
use tsuki.StringLib.Pattern.Captures.{Capture, unclosed, position, match_capture}
use tsuki.StringLib.Pattern.Match.{
  Matcher, default_item, matched, unmatched, Suffix, once, optional, star, plus, minus, suffix_of,
  frontier, escape, go_on, item, First, first_of, open_group, close_group, dollar, percent, other,
  open_item, match_loop, match_0, matchbalance, at_frontier,
}
use tsuki.StringLib.Pattern.Sound.{
  Sound, SoundMatcher, Sound-bind, Sound-mono, Sound-elim, Fits, Fits-mono,
}
use tsuki.StringLib.Pattern.Sound.Items.{
  singlematch-Ends, singlematch-within, classend-Ends, classend-pos,
}
use tsuki.StringLib.Pattern.Sound.Parts.{
  GoesOn, matchbalance-GoesOn, match_capture-GoesOn, at_frontier-Ends,
}
use tsuki.StringLib.Pattern.Sound.Groups.{
  start_opened, end_closed, or_else-Sound, max_expand-Sound, min_expand-Sound,
}

-- A matcher that is sound on patterns of fewer than `n` bytes.
abbrev SoundBelow : ℕ → ℕ → Matcher → Type 0
SoundBelow size n m =
    (caps : List Capture) (off : ℕ) (p : List ℕ)
    → length p < n
    → off ≤ size
    → Fits off caps
    → Sound size caps off (m caps off p)

module _ (src : List ℕ) (rec next : Matcher) (sound : SoundMatcher (length src) rec) (n : ℕ)
    (more : 0 < n) (below : SoundBelow (length src) n next) where
  module _ (caps : List Capture) (off : ℕ) (h : off ≤ length src) (fits : Fits off caps) where
    skip :
        (p : List ℕ) (k : ℕ)
        → length p < k + n
        → Sound (length src) caps off (next caps off (drop k p))
    skip p k short = below caps off (drop k p) (omega (arith, length-drop k p)) h fits

    further :
        (e : ℕ) (p : List ℕ)
        → length p < n
        → off ≤ e
        → e ≤ length src
        → Sound (length src) caps off (next caps e p)
    further e p short from to =
        Sound-mono (length src) caps e off (next caps e p) from
          (below caps e p short to (Fits-mono off e caps from fits))

    unmatched-Sound :
        (p : List ℕ) (ep : ℕ) (s : Suffix)
        → length p < ep + n
        → Sound (length src) caps off (unmatched next caps off p ep s)
    unmatched-Sound p ep optional short = skip p (ep + 1) (omega arith)
    unmatched-Sound p ep star short = skip p (ep + 1) (omega arith)
    unmatched-Sound p ep minus short = skip p (ep + 1) (omega arith)
    unmatched-Sound p ep plus short = refl
    unmatched-Sound p ep once short = refl

    matched-Sound :
        (p : List ℕ) (ep : ℕ) (s : Suffix)
        → length p < ep + n
        → off < length src
        → Sound (length src) caps off (matched src rec next caps off p ep s)
    matched-Sound p ep optional short inside =
        or_else-Sound (length src) rec sound caps off (rec caps (off + 1) (drop (ep + 1) p)) _
          (Sound-mono (length src) caps (off + 1) off _ (omega arith) (
            sound caps (off + 1) (drop (ep + 1) p) (omega arith)
              (Fits-mono off (off + 1) caps (omega arith) fits)))
          (skip p (ep + 1) (omega arith))
    matched-Sound p ep plus short inside = max_expand-Sound src rec sound caps off p ep h fits
    matched-Sound p ep star short inside = max_expand-Sound src rec sound caps off p ep h fits
    matched-Sound p ep minus short inside = min_expand-Sound src rec sound caps off p ep h fits
    matched-Sound p ep once short inside =
        further (off + 1) (drop ep p) (omega (arith, length-drop ep p)) (omega arith) (omega arith)

    default-Sound :
        (p : List ℕ)
        → length p < suc n
        → Sound (length src) caps off (default_item src rec next caps off p)
    unfolding default_item
    default-Sound p short =
        Sound-bind (classend p) _ (length src) caps off (classend-Ends p) λ ep e.
          let past = classend-pos p ep e in
          Sound-bind (singlematch src off p ep) _ (length src) caps off
            (singlematch-Ends src off p ep)
            λ m em.
              Sound-elim (length src) caps off m _ _
                (λ yes.
                  matched-Sound p ep (suffix_of (get_elem? p ep)) (omega arith)
                    (singlematch-within src off p ep (em ∙ ap ok yes)))
                (λ no. unmatched-Sound p ep (suffix_of (get_elem? p ep)) (omega arith))

    go_on-Sound :
        (r : Res (Option ℕ)) (p : List ℕ)
        → GoesOn off (length src) r
        → length p < n
        → Sound (length src) caps off (r >>= go_on next caps p)
    go_on-Sound (ok none) p g short = refl
    go_on-Sound (ok (some e)) p g short = further e p short g.0 g.1
    go_on-Sound (err e) p g short = tt
    go_on-Sound panic p g short = tt
    go_on-Sound stuck p g short = g

    frontier-Sound :
        (p : List ℕ) → length p < n → Sound (length src) caps off (frontier src next caps off p)
    unfolding frontier
    frontier-Sound [] short = tt
    frontier-Sound (x ∷ q) short =
        Sound-elim (length src) caps off (x == b'[') _ _
          (λ yes.
            Sound-bind (classend (x ∷ q)) _ (length src) caps off (classend-Ends (x ∷ q)) λ ep e.
              Sound-bind (at_frontier src off (x ∷ q) ep) _ (length src) caps off
                (at_frontier-Ends src off (x ∷ q) ep)
                λ m em.
                  Sound-elim (length src) caps off m _ _ (λ here. skip (x ∷ q) ep (omega arith))
                    (λ away. refl))
          (λ no. tt)

    escape-Sound :
        (y : ℕ) (q : List ℕ)
        → suc (length q) < n
        → Sound (length src) caps off (escape src rec next caps off y q)
    escape-Sound y q short =
        Sound-elim (length src) caps off (y == b'b') _ _
          (λ balance.
            go_on-Sound (matchbalance src off q) (drop 2 q) (matchbalance-GoesOn src off q)
              (omega (arith, length-drop 2 q)))
          (λ e1.
            Sound-elim (length src) caps off (y == b'f') _ _ (λ e2. frontier-Sound q (omega arith))
              (λ e2.
                Sound-elim (length src) caps off (leb b'0' y && leb y b'9') _ _
                  (λ digit.
                    go_on-Sound (match_capture src caps off y) q
                      (match_capture-GoesOn src caps off y h) (omega arith))
                  (λ e3. default-Sound (b'%' ∷ y ∷ q) (omega arith))))

    open-Sound : (q : List ℕ) → Sound (length src) caps off (open_item rec caps off q)
    open-Sound [] = start_opened (length src) rec sound caps off [] unclosed h fits (omega arith)
    open-Sound (y ∷ q) =
        Sound-elim (length src) caps off (y == b')') _ _
          (λ e. start_opened (length src) rec sound caps off q position h fits (omega arith))
          (λ e. start_opened (length src) rec sound caps off (y ∷ q) unclosed h fits (omega arith))

    at_end : (b : Bool) → Sound (length src) caps off (ok (if b then some off else none, caps))
    at_end true = (omega arith, h, fits)
    at_end false = refl

    item-Sound :
        (x : ℕ) (q : List ℕ) (f : First)
        → length q < n
        → Sound (length src) caps off (item src rec next caps off x q f)
    item-Sound x q open_group short = open-Sound q
    item-Sound x q close_group short = end_closed (length src) rec sound caps off q h fits
    item-Sound x [] dollar short = at_end (off == length src)
    item-Sound x (y ∷ q) dollar short = default-Sound (x ∷ y ∷ q) (omega arith)
    item-Sound x [] percent short = default-Sound (x ∷ []) (omega arith)
    item-Sound x (y ∷ q) percent short = escape-Sound y q (omega arith)
    item-Sound x q other short = default-Sound (x ∷ q) (omega arith)

loop_sound :
    (src : List ℕ) (rec : Matcher)
    → SoundMatcher (length src) rec
    → (n : ℕ) → SoundBelow (length src) n (match_loop src rec n)
unfolding match_loop
loop_sound src rec sound zero caps off p short h fits = omega arith
loop_sound src rec sound (suc n) caps off [] short h fits = (omega arith, h, fits)
loop_sound src rec sound (suc n) caps off (x ∷ q) short h fits =
    item-Sound src rec (match_loop src rec n) sound n (omega arith) (loop_sound src rec sound n)
      caps off h fits x q (first_of x) (omega arith)

match_below : (src : List ℕ) (depth : ℕ) → SoundMatcher (length src) (match_0 src depth)
unfolding match_0
match_below src zero caps off p h fits = tt
match_below src (suc depth) caps off p h fits =
    loop_sound src (match_0 src depth) (match_below src depth) (suc (length p)) caps off p
      (omega arith) h fits

-- For each depth and each pattern, from an offset in the text and captures that end by it: the match
-- comes to an end; where it succeeds, its end is between the offset and the end of the text, and
-- its captures end by it; where it fails, it leaves the captures as they were.
pub match_0-Sound :
    (src : List ℕ) (depth : ℕ) (caps : List Capture) (off : ℕ) (p : List ℕ)
    → off ≤ length src
    → Fits off caps
    → Sound (length src) caps off (match_0 src depth caps off p)
match_0-Sound src depth caps off p h fits = match_below src depth caps off p h fits
