-- ===== src/StringLib/Pattern/Sound/Parts.antt =====
-- The parts of the matcher that do not call it: balance, frontier and back reference.
use tsuki.Base.{
  ℕ, zero, suc, ◌+◌, ◌-◌, ◌≤◌, ◌<◌, ◌≡◌, refl, arith, Bool, true, false, Option, none, some, List,
  [], ◌∷◌, length, get_elem?, ◌==◌, if◌then◌else◌, drop, length-drop,
}
use tsuki.StringLib.Pattern.{Res, ok, err, panic, stuck, ◌>>=◌, or_panic}
use tsuki.StringLib.Pattern.Class.{matchbracketclass, singlematch}
use tsuki.StringLib.Pattern.Captures.{
  Capture, CaptureLen, unclosed, position, closed, match_capture, check_capture, same_text,
}
use tsuki.StringLib.Pattern.Match.{balance_loop, matchbalance, count_loop, at_frontier}
use tsuki.StringLib.Pattern.Sound.{Ends, Ends-bind, Ends-elim, or_panic-Ends}
use tsuki.StringLib.Pattern.Sound.Items.{
  singlematch-Ends, matchbracketclass-Ends, singlematch-within,
}

-- An offset that goes on within the text.
abbrev pub Between : ℕ → ℕ → Option ℕ → Type 0
Between lo hi none = Unit
Between lo hi (some e) = (lo ≤ e) × (e ≤ hi)

abbrev pub GoesOn : ℕ → ℕ → Res (Option ℕ) → Type 0
GoesOn lo hi (ok o) = Between lo hi o
GoesOn lo hi (err e) = Unit
GoesOn lo hi panic = Unit
GoesOn lo hi stuck = ⊥

Between-mono : (lo from hi : ℕ) (o : Option ℕ) → from ≤ lo → Between lo hi o → Between from hi o
Between-mono lo from hi none h b = tt
Between-mono lo from hi (some e) h b = omega (arith, h, b.0, b.1)

balance_loop-Between :
    (xs : List ℕ) (off first : ℕ) (e : Option ℕ) (cont : ℕ)
    → Between off (off + length xs) (balance_loop xs off first e cont)
balance_loop-Between [] off first e cont = tt
balance_loop-Between (x ∷ xs) off first e cont =
    let later = λ (k : ℕ).
      Between-mono (off + 1) off (off + 1 + length xs) (balance_loop xs (off + 1) first e k)
        (omega arith) (balance_loop-Between xs (off + 1) first e k) in
    let here = later (cont - 1) in
    let same = later cont in let deeper = later (cont + 1) in ground (arith, here, same, deeper)

past_byte : (src : List ℕ) (off x : ℕ) → get_elem? src off ≡ some x → off < length src
past_byte [] off x h = ground arith
past_byte (y ∷ ys) zero x h = omega arith
past_byte (y ∷ ys) (suc off) x h = omega (arith, past_byte ys off x h)

GoesOn-bind {ℓ} :
    {A : Type ℓ} (r : Res A) (f : A → Res (Option ℕ)) (lo hi : ℕ)
    → Ends r
    → ((a : A) → r ≡ ok a → GoesOn lo hi (f a))
    → GoesOn lo hi (r >>= f)
GoesOn-bind (ok a) f lo hi h g = g a refl
GoesOn-bind (err e) f lo hi h g = tt
GoesOn-bind panic f lo hi h g = tt
GoesOn-bind stuck f lo hi h g = h

or_panic-ok {ℓ} : {A : Type ℓ} (o : Option A) (a : A) → or_panic o ≡ ok a → o ≡ some a
or_panic-ok none a h = ground arith
or_panic-ok (some b) a h = ground arith

pub matchbalance-GoesOn :
    (src : List ℕ) (off : ℕ) (p : List ℕ) → GoesOn off (length src) (matchbalance src off p)
unfolding matchbalance
matchbalance-GoesOn src off [] = tt
matchbalance-GoesOn src off (first ∷ q) =
    GoesOn-bind (or_panic (get_elem? src off)) _ off (length src)
      (or_panic-Ends (get_elem? src off))
      λ x e.
        let inside = past_byte src off x (or_panic-ok (get_elem? src off) x e) in
        let loop = balance_loop-Between (drop (off + 1) src) (off + 1) first (get_elem? q 0) 1 in
        ground (arith, inside, loop, length-drop (off + 1) src)

check_capture-Ends : (caps : List Capture) (l : ℕ) → Ends (check_capture caps l)
check_capture-Ends caps l = ground arith

same_text-GoesOn :
    (src : List ℕ) (off start : ℕ) (n : CaptureLen)
    → off ≤ length src
    → GoesOn off (length src) (same_text src off start n)
same_text-GoesOn src off start unclosed h = tt
same_text-GoesOn src off start position h = tt
same_text-GoesOn src off start (closed n) h = ground arith

pub match_capture-GoesOn :
    (src : List ℕ) (caps : List Capture) (off l : ℕ)
    → off ≤ length src
    → GoesOn off (length src) (match_capture src caps off l)
unfolding match_capture
match_capture-GoesOn src caps off l h =
    GoesOn-bind (check_capture caps l) _ off (length src) (check_capture-Ends caps l)
      λ c e. same_text-GoesOn src off c.off c.len h

pub at_frontier-Ends :
    (src : List ℕ) (off : ℕ) (p : List ℕ) (ep : ℕ) → Ends (at_frontier src off p ep)
at_frontier-Ends src off p ep =
    let previous = or_panic-Ends (get_elem? src (off - 1)) in
    Ends-bind (if off == 0 then ok 0 else or_panic (get_elem? src (off - 1))) _
      (ground (arith, previous))
      λ c ec.
        Ends-bind (matchbracketclass c p (ep - 1)) _ (matchbracketclass-Ends c p (ep - 1)) λ b eb.
          Ends-elim b _ _ tt (
            Ends-bind (or_panic (get_elem? src off)) _ (or_panic-Ends (get_elem? src off))
              λ d ed. matchbracketclass-Ends d p (ep - 1))

-- How many bytes match in a row, with enough rounds.
abbrev pub CountsWithin : ℕ → ℕ → Res ℕ → Type 0
CountsWithin size off (ok k) = off + k ≤ size
CountsWithin size off (err e) = Unit
CountsWithin size off panic = Unit
CountsWithin size off stuck = ⊥

count_suc :
    (size off : ℕ) (r : Res ℕ)
    → CountsWithin size (off + 1) r
    → CountsWithin size off (r >>= λ k. ok (suc k))
count_suc size off (ok k) h = omega (arith, h)
count_suc size off (err e) h = tt
count_suc size off panic h = tt
count_suc size off stuck h = h

count_from :
    (src p : List ℕ) (ep n off : ℕ) (r : Res Bool)
    → (r ≡ ok true → CountsWithin (length src) (off + 1) (count_loop src p ep n (off + 1)))
    → off ≤ length src
    → Ends r
    → CountsWithin (length src) off (
        r >>= λ m. elim m [
          | true ↦ count_loop src p ep n (off + 1) >>= λ k. ok (suc k)
          | false ↦ ok 0
        ])
count_from src p ep n off (ok true) h le e =
    count_suc (length src) off (count_loop src p ep n (off + 1)) (h refl)
count_from src p ep n off (ok false) h le e = omega arith
count_from src p ep n off (err f) h le e = tt
count_from src p ep n off panic h le e = tt
count_from src p ep n off stuck h le e = e

pub count_loop-CountsWithin :
    (src p : List ℕ) (ep n off : ℕ)
    → off ≤ length src
    → length src < off + n
    → CountsWithin (length src) off (count_loop src p ep n off)
count_loop-CountsWithin src p ep zero off h enough = omega arith
count_loop-CountsWithin src p ep (suc n) off h enough =
    count_from src p ep n off (singlematch src off p ep)
      (λ e.
        let inside = singlematch-within src off p ep e in
        count_loop-CountsWithin src p ep n (off + 1) (omega arith) (omega arith))
      h (singlematch-Ends src off p ep)
