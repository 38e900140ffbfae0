-- ===== src/StringLib/Pattern/Sound.antt =====
-- What a match is sound for: it comes to an end, its end and its captures are within the text, and a
-- failed match leaves the captures as they were.
pub mod Items
pub mod Parts
pub mod Groups
pub mod Rounds
use tsuki.Base.{
  ℕ, zero, suc, ◌+◌, ◌-◌, ◌≤◌, ◌≡◌, refl, arith, Bool, true, false, Option, none, some, List, [],
  ◌∷◌,
}
use tsuki.StringLib.Pattern.{Res, ok, err, panic, stuck, ◌>>=◌, or_panic}
use tsuki.StringLib.Pattern.Captures.{Capture, CaptureLen, unclosed, position, closed}
use tsuki.StringLib.Pattern.Match.{Out, Matcher}

-- A capture whose text ends by `off`.
abbrev pub FitsLen : ℕ → ℕ → CaptureLen → Type 0
FitsLen off start unclosed = start ≤ off
FitsLen off start position = start ≤ off
FitsLen off start (closed n) = start + n ≤ off

abbrev pub Fits : ℕ → List Capture → Type 0
Fits off [] = Unit
Fits off (c ∷ cs) = FitsLen off c.off c.len × Fits off cs

-- Of a match that starts at `off` with the captures `caps`, in a text of `size` bytes.
abbrev pub Sound : ℕ → List Capture → ℕ → Out → Type 0
Sound size caps off (ok (some e, cs)) = (off ≤ e) × (e ≤ size) × Fits e cs
Sound size caps off (ok (none, cs)) = cs ≡ caps
Sound size caps off (err e) = Unit
Sound size caps off panic = Unit
Sound size caps off stuck = ⊥

abbrev pub SoundMatcher : ℕ → Matcher → Type 0
SoundMatcher size m =
    (caps : List Capture) (off : ℕ) (p : List ℕ)
    → off ≤ size
    → Fits off caps
    → Sound size caps off (m caps off p)

-- It does not run out of fuel.
abbrev pub Ends {ℓ} : {A : Type ℓ} → Res A → Type 0
Ends (ok a) = Unit
Ends (err e) = Unit
Ends panic = Unit
Ends stuck = ⊥

pub Ends-bind {ℓ κ} :
    {A : Type ℓ} {B : Type κ} (r : Res A) (f : A → Res B)
    → Ends r
    → ((a : A) → r ≡ ok a → Ends (f a))
    → Ends (r >>= f)
Ends-bind (ok a) f h g = g a refl
Ends-bind (err e) f h g = tt
Ends-bind panic f h g = tt
Ends-bind stuck f h g = h

pub Ends-elim {ℓ} :
    {A : Type ℓ} (b : Bool) (x y : Res A) → Ends x → Ends y → Ends (elim b [ true ↦ x | false ↦ y ])
Ends-elim true x y hx hy = hx
Ends-elim false x y hx hy = hy

pub Sound-bind {ℓ} :
    {A : Type ℓ} (r : Res A) (f : A → Out) (size : ℕ) (caps : List Capture) (off : ℕ)
    → Ends r
    → ((a : A) → r ≡ ok a → Sound size caps off (f a))
    → Sound size caps off (r >>= f)
Sound-bind (ok a) f size caps off h g = g a refl
Sound-bind (err e) f size caps off h g = tt
Sound-bind panic f size caps off h g = tt
Sound-bind stuck f size caps off h g = h

pub or_panic-Ends {ℓ} : {A : Type ℓ} (o : Option A) → Ends (or_panic o)
or_panic-Ends none = tt
or_panic-Ends (some a) = tt

FitsLen-mono :
    (off e start : ℕ) (l : CaptureLen) → off ≤ e → FitsLen off start l → FitsLen e start l
FitsLen-mono off e start unclosed h fits = omega arith
FitsLen-mono off e start position h fits = omega arith
FitsLen-mono off e start (closed n) h fits = omega arith

pub Fits-mono : (off e : ℕ) (cs : List Capture) → off ≤ e → Fits off cs → Fits e cs
Fits-mono off e [] h fits = tt
Fits-mono off e (c ∷ cs) h fits =
    (FitsLen-mono off e c.off c.len h fits.0, Fits-mono off e cs h fits.1)

-- A match from further on is a match.
pub Sound-mono :
    (size : ℕ) (caps : List Capture) (off from : ℕ) (o : Out)
    → from ≤ off
    → Sound size caps off o
    → Sound size caps from o
Sound-mono size caps off from (ok (some e, cs)) h s = (omega (arith, s.0), s.1, s.2)
Sound-mono size caps off from (ok (none, cs)) h s = s
Sound-mono size caps off from (err e) h s = tt
Sound-mono size caps off from panic h s = tt
Sound-mono size caps off from stuck h s = s

pub Sound-elim :
    (size : ℕ) (caps : List Capture) (off : ℕ) (b : Bool) (x y : Out)
    → (b ≡ true → Sound size caps off x)
    → (b ≡ false → Sound size caps off y)
    → Sound size caps off (elim b [ true ↦ x | false ↦ y ])
Sound-elim size caps off true x y hx hy = hx refl
Sound-elim size caps off false x y hx hy = hy refl
