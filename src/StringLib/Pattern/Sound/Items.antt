-- ===== src/StringLib/Pattern/Sound/Items.antt =====
-- A single item of a pattern: its length, and that the test of it comes to an end.
use mathlib.Core.Path.{subst}
use tsuki.Base.{
  ℕ, zero, suc, ◌+◌, ◌-◌, ◌≤◌, ◌<◌, ◌≡◌, arith, Bool, true, false, Option, none, some, List, [],
  ◌∷◌, length, get_elem?, ◌==◌, leb, ltb, ◌&&◌, Bool-cases, inl, inr,
}
use tsuki.StringLib.Pattern.{Res, ok, err, panic, stuck, or_panic}
use tsuki.StringLib.Pattern.Class.{
  set_loop, classend, bracket_loop, matchbracketclass, match_item, singlematch, match_class,
}
use tsuki.StringLib.Pattern.Sound.{Ends, Ends-bind, or_panic-Ends, Ends-elim}

-- Whether a length of an item is more than `o`.
abbrev Past : ℕ → Res ℕ → Type 0
Past o (ok ep) = o < ep
Past o (err e) = Unit
Past o panic = Unit
Past o stuck = ⊥

Past-mono : (o i : ℕ) (r : Res ℕ) → o ≤ i → Past i r → Past o r
Past-mono o i (ok ep) h p = omega (arith, h, p)
Past-mono o i (err e) h p = tt
Past-mono o i panic h p = tt
Past-mono o i stuck h p = p

set_loop-Past : (p : List ℕ) (o : ℕ) → Past o (set_loop p o)
unfolding set_loop
set_loop-Past [] o = tt
set_loop-Past (x ∷ []) o = tt
set_loop-Past (x ∷ y ∷ []) o = ground arith
set_loop-Past (x ∷ y ∷ z ∷ r) o =
    let far =
      Past-mono o (o + 2) (set_loop (z ∷ r) (o + 2)) (omega arith)
        (set_loop-Past (z ∷ r) (o + 2)) in
    let near =
      Past-mono o (o + 1) (set_loop (y ∷ z ∷ r) (o + 1)) (omega arith)
        (set_loop-Past (y ∷ z ∷ r) (o + 1)) in
    ground (arith, far, near)

classend-Past : (p : List ℕ) → Past 0 (classend p)
unfolding classend
classend-Past [] = omega arith
classend-Past (x ∷ []) = ground arith
classend-Past (x ∷ y ∷ r) =
    let after = Past-mono 0 2 (set_loop r 2) (omega arith) (set_loop-Past r 2) in
    let plain = Past-mono 0 1 (set_loop (y ∷ r) 1) (omega arith) (set_loop-Past (y ∷ r) 1) in
    ground (arith, after, plain)

bracket_loop-Ends :
    (n c : ℕ) (p : List ℕ) (ec : ℕ) (sig : Bool) (i : ℕ)
    → ec ≤ i + suc n
    → Ends (bracket_loop (suc n) c p ec sig i)
unfolding bracket_loop
bracket_loop-Ends zero c p ec sig i h = ground arith
bracket_loop-Ends (suc n) c p ec sig i h = elim (Bool-cases (leb ec (i + 1))) [
  | inl e ↦ rw (e) tt
  | inr e ↦ rw (e) (
      Ends-bind (or_panic (get_elem? p (i + 1))) _ (or_panic-Ends (get_elem? p (i + 1))) λ a ea.
        Ends-bind (or_panic (get_elem? p (i + 2))) _ (or_panic-Ends (get_elem? p (i + 2))) λ b eb.
          Ends-elim (a == b'%') _ _
            (Ends-elim (match_class c b) _ _ tt
              (bracket_loop-Ends n c p ec sig (i + 2) (omega arith)))
            (Ends-elim (b == b'-' && ltb (i + 3) ec) _ _
              (Ends-bind (or_panic (get_elem? p (i + 3))) _ (or_panic-Ends (get_elem? p (i + 3)))
                λ hi eh.
                  Ends-elim (leb a c && leb c hi) _ _ tt
                    (bracket_loop-Ends n c p ec sig (i + 3) (omega arith)))
              (Ends-elim (a == c) _ _ tt (bracket_loop-Ends n c p ec sig (i + 1) (omega arith)))))
]

pub matchbracketclass-Ends : (c : ℕ) (p : List ℕ) (ec : ℕ) → Ends (matchbracketclass c p ec)
unfolding matchbracketclass
matchbracketclass-Ends c p ec =
    let negated = bracket_loop-Ends ec c p ec false 1 (omega arith) in
    let plain = bracket_loop-Ends ec c p ec true 0 (omega arith) in
    Ends-bind (or_panic (get_elem? p 1)) _ (or_panic-Ends (get_elem? p 1))
      λ b e. ground (arith, negated, plain)

item_Ends :
    (o : Option ℕ) (p : List ℕ) (ep : ℕ)
    → Ends (elim o [ none ↦ ok false | some c ↦ match_item c p ep ])
item_Ends none p ep = tt
item_Ends (some c) [] ep = tt
item_Ends (some c) (x ∷ q) ep =
    let set = matchbracketclass-Ends c (x ∷ q) (ep - 1) in
    let class =
      Ends-bind (or_panic (get_elem? q 0)) (λ cl. ok (match_class c cl))
        (or_panic-Ends (get_elem? q 0)) (λ a e. tt) in
    ground (arith, set, class)

pub singlematch-Ends :
    (src : List ℕ) (off : ℕ) (p : List ℕ) (ep : ℕ) → Ends (singlematch src off p ep)
unfolding singlematch
singlematch-Ends src off p ep = item_Ends (get_elem? src off) p ep

-- A byte that an item matches is a byte of the text.
pub singlematch-within :
    (src : List ℕ) (off : ℕ) (p : List ℕ) (ep : ℕ)
    → singlematch src off p ep ≡ ok true
    → off < length src
unfolding singlematch
singlematch-within [] off p ep h = ground arith
singlematch-within (x ∷ xs) zero p ep h = omega arith
singlematch-within (x ∷ xs) (suc off) p ep h = omega (arith, singlematch-within xs off p ep h)

Past-Ends : (r : Res ℕ) → Past 0 r → Ends r
Past-Ends (ok ep) h = tt
Past-Ends (err e) h = tt
Past-Ends panic h = tt
Past-Ends stuck h = h

pub classend-pos : (p : List ℕ) (ep : ℕ) → classend p ≡ ok ep → 0 < ep
classend-pos p ep h = subst (Past 0) h (classend-Past p)

pub classend-Ends : (p : List ℕ) → Ends (classend p)
classend-Ends p = Past-Ends (classend p) (classend-Past p)
