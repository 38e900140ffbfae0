-- ===== src/StringLib/Pattern/Sound/Groups.antt =====
-- The items that call the matcher one level down: captures and repetitions.
use tsuki.Base.{
  ℕ, zero, suc, ◌+◌, ◌-◌, ◌≤◌, ◌<◌, ◌≡◌, refl, sym, ap, ◌∙◌, arith, Option, none, some, List, [],
  ◌∷◌, ◌++◌, length, leb, drop,
}
use tsuki.StringLib.Pattern.{invalid_capture, Res, ok, err, panic, stuck, ◌>>=◌}
use tsuki.StringLib.Pattern.Class.{singlematch}
use tsuki.StringLib.Pattern.Captures.{
  Capture, CaptureLen, unclosed, position, closed, pop, set_len, close, capture_to_close, last_open,
}
use tsuki.StringLib.Pattern.Match.{
  Out, Matcher, start_capture, end_capture, after_start, after_end, or_else, max_try, max_expand,
  min_loop, min_expand, count_loop,
}
use tsuki.StringLib.Pattern.Sound.{
  Sound, SoundMatcher, Sound-bind, Sound-mono, Sound-elim, Fits, FitsLen, Fits-mono,
}
use tsuki.StringLib.Pattern.Sound.Items.{singlematch-Ends, singlematch-within}
use tsuki.StringLib.Pattern.Sound.Parts.{CountsWithin, count_loop-CountsWithin}

pop-append : (cs : List Capture) (c : Capture) → pop (cs ++ c ∷ []) ≡ cs
pop-append [] c = refl
pop-append (d ∷ []) c = refl
pop-append (d ∷ e ∷ cs) c = ap (λ xs. d ∷ xs) (pop-append (e ∷ cs) c)

Fits-append :
    (off : ℕ) (cs : List Capture) (c : Capture)
    → Fits off cs
    → FitsLen off c.off c.len
    → Fits off (cs ++ c ∷ [])
Fits-append off [] c h hc = (hc, tt)
Fits-append off (d ∷ cs) c h hc = (h.0, Fits-append off cs c h.1 hc)

-- After a call with other captures, which a failure turns back into `caps`.
Sound-restore :
    (size : ℕ) (caps inner : List Capture) (off : ℕ) (o : Out) (f : Option ℕ × List Capture → Out)
    → Sound size inner off o
    → ((e : ℕ) (cs : List Capture) → f (some e, cs) ≡ ok (some e, cs))
    → f (none, inner) ≡ ok (none, caps)
    → Sound size caps off (o >>= f)
Sound-restore size caps inner off (ok (some e, cs)) f h keeps undoes = rw (keeps e cs) h
Sound-restore size caps inner off (ok (none, cs)) f h keeps undoes = rw (h, undoes) refl
Sound-restore size caps inner off (err e) f h keeps undoes = tt
Sound-restore size caps inner off panic f h keeps undoes = tt
Sound-restore size caps inner off stuck f h keeps undoes = h

open_len : (c : Capture) (o : Option ℕ) (n : CaptureLen) → last_open o n ≡ some 0 → n ≡ unclosed
open_len c o n h = ground arith

later_len : (o : Option ℕ) (n : CaptureLen) (l : ℕ) → last_open o n ≡ some (suc l) → o ≡ some l
later_len o n l h = ground arith

reopen :
    (caps : List Capture) (l off : ℕ)
    → capture_to_close caps ≡ some l
    → set_len (close caps l off) l unclosed ≡ caps
reopen [] l off h = refl
reopen (c ∷ cs) zero off h =
    ap (λ (n : CaptureLen). record { off = c.off; len = n } ∷ cs)
      (sym (open_len c (capture_to_close cs) c.len h))
reopen (c ∷ cs) (suc l) off h =
    ap (λ xs. c ∷ xs) (reopen cs l off (later_len (capture_to_close cs) c.len l h))

FitsLen-start :
    (off start : ℕ) (n : CaptureLen)
    → FitsLen off start n
    → FitsLen off start (closed (off - start))
FitsLen-start off start unclosed h = omega arith
FitsLen-start off start position h = omega arith
FitsLen-start off start (closed m) h = omega arith

Fits-close : (caps : List Capture) (l off : ℕ) → Fits off caps → Fits off (close caps l off)
Fits-close [] l off h = tt
Fits-close (c ∷ cs) zero off h = (FitsLen-start off c.off c.len h.0, h.1)
Fits-close (c ∷ cs) (suc l) off h = (h.0, Fits-close cs l off h.1)

module _ (size : ℕ) (rec : Matcher) (sound : SoundMatcher size rec) where
  pub start_opened :
      (caps : List Capture) (off : ℕ) (p : List ℕ) (what : CaptureLen)
      → off ≤ size
      → Fits off caps
      → FitsLen off off what
      → Sound size caps off (start_capture rec caps off p what)
  unfolding start_capture
  start_opened caps off p what h fits opens =
      let opened = caps ++ record { off = off; len = what } ∷ [] in
      Sound-elim size caps off (leb 32 (length caps)) _ _ (λ e. tt)
        λ e.
          Sound-restore size caps opened off (rec opened off p) after_start
            (sound opened off p h
              (Fits-append off caps (record { off = off; len = what }) fits opens))
            (λ e cs. refl)
            (ap (λ cs. ok (none, cs)) (pop-append caps (record { off = off; len = what })))

  pub end_closed :
      (caps : List Capture) (off : ℕ) (p : List ℕ)
      → off ≤ size
      → Fits off caps
      → Sound size caps off (end_capture rec caps off p)
  unfolding end_capture
  end_closed caps off p h fits = close_found (capture_to_close caps) refl
    where
      close_found :
          (o : Option ℕ)
          → capture_to_close caps ≡ o
          → Sound size caps off (elim o [
            | none ↦ err invalid_capture
            | some l ↦ rec (close caps l off) off p >>= after_end l
          ])
      close_found none e = tt
      close_found (some l) e =
          Sound-restore size caps (close caps l off) off (rec (close caps l off) off p)
            (after_end l) (sound (close caps l off) off p h (Fits-close caps l off fits))
            (λ e cs. refl) (ap (λ cs. ok (none, cs)) (reopen caps l off e))

  pub or_else-Sound :
      (caps : List Capture) (off : ℕ) (o : Out) (next : List Capture → Out)
      → Sound size caps off o
      → Sound size caps off (next caps)
      → Sound size caps off (o >>= or_else next)
  or_else-Sound caps off (ok (some e, cs)) next h hn = h
  or_else-Sound caps off (ok (none, cs)) next h hn = rw (h) hn
  or_else-Sound caps off (err e) next h hn = tt
  or_else-Sound caps off panic next h hn = tt
  or_else-Sound caps off stuck next h hn = h

  max_try-Sound :
      (caps : List Capture) (off : ℕ) (rest : List ℕ) (i : ℕ)
      → off + i ≤ size
      → Fits off caps
      → Sound size caps off (max_try rec caps off rest i)
  max_try-Sound caps off rest zero h fits = sound caps off rest (omega arith) fits
  max_try-Sound caps off rest (suc i) h fits =
      or_else-Sound caps off (rec caps (off + suc i) rest) _
        (Sound-mono size caps (off + suc i) off _ (omega arith)
          (sound caps (off + suc i) rest h (Fits-mono off (off + suc i) caps (omega arith) fits)))
        (max_try-Sound caps off rest i (omega arith) fits)

module _ (src : List ℕ) (rec : Matcher) (sound : SoundMatcher (length src) rec) where
  pub max_expand-Sound :
      (caps : List Capture) (off : ℕ) (p : List ℕ) (ep : ℕ)
      → off ≤ length src
      → Fits off caps
      → Sound (length src) caps off (max_expand src rec caps off p ep)
  unfolding max_expand
  max_expand-Sound caps off p ep h fits =
      count_then (count_loop src p ep (suc (length src)) off)
        (count_loop-CountsWithin src p ep (suc (length src)) off h (omega arith))
    where
      count_then :
          (r : Res ℕ)
          → CountsWithin (length src) off r
          → Sound (length src) caps off (r >>= max_try rec caps off (drop (ep + 1) p))
      count_then (ok k) hk =
          max_try-Sound (length src) rec sound caps off (drop (ep + 1) p) k hk fits
      count_then (err e) hk = tt
      count_then panic hk = tt
      count_then stuck hk = hk

  min_loop-Sound :
      (n : ℕ) (caps : List Capture) (off : ℕ) (p : List ℕ) (ep : ℕ)
      → off ≤ length src
      → length src < off + n
      → Fits off caps
      → Sound (length src) caps off (min_loop src rec n caps off p ep)
  min_loop-Sound zero caps off p ep h enough fits = omega arith
  min_loop-Sound (suc n) caps off p ep h enough fits =
      or_else-Sound (length src) rec sound caps off (rec caps off (drop (ep + 1) p)) _
        (sound caps off (drop (ep + 1) p) h fits)
        (Sound-bind (singlematch src off p ep) _ (length src) caps off
          (singlematch-Ends src off p ep)
          λ m em.
            Sound-elim (length src) caps off m _ _
              (λ yes.
                let inside = singlematch-within src off p ep (em ∙ ap ok yes) in
                Sound-mono (length src) caps (off + 1) off _ (omega arith) (
                  min_loop-Sound n caps (off + 1) p ep (omega arith) (omega arith)
                    (Fits-mono off (off + 1) caps (omega arith) fits)))
              (λ no. refl))

  pub min_expand-Sound :
      (caps : List Capture) (off : ℕ) (p : List ℕ) (ep : ℕ)
      → off ≤ length src
      → Fits off caps
      → Sound (length src) caps off (min_expand src rec caps off p ep)
  unfolding min_expand
  min_expand-Sound caps off p ep h fits =
      min_loop-Sound (suc (length src)) caps off p ep h (omega arith) fits
