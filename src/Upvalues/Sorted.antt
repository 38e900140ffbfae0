-- ===== src/Upvalues/Sorted.antt =====
-- The order of the open upvalues, the highest slot first, and the map from slots that the list stands
-- for.
use tsuki.Base.{
  ℕ, ◌≤◌, ◌<◌, ◌≡◌, refl, arith, false, Option, none, some, List, [], ◌∷◌, ◌==◌, if◌then◌else◌,
}
use tsuki.Base.Distinct.{Distinct}
use tsuki.Upvalues.{OpenUpVal}

abbrev pub AllBelow : ℕ → List OpenUpVal → Type 0
AllBelow n [] = Unit
AllBelow n (p ∷ ps) = (p.level < n) × AllBelow n ps

abbrev pub Descends : List OpenUpVal → Type 0
Descends [] = Unit
Descends (p ∷ ps) = AllBelow p.level ps × Descends ps

abbrev pub addresses : List OpenUpVal → List ℕ
addresses [] = []
addresses (p ∷ ps) = p.address ∷ addresses ps

abbrev pub IsSorted : List OpenUpVal → Type 0
IsSorted ps = Descends ps × Distinct (addresses ps)

-- The upvalue of a slot.
abbrev pub at_level : List OpenUpVal → ℕ → Option ℕ
at_level [] l = none
at_level (p ∷ ps) l = let rest = at_level ps l in if p.level == l then some p.address else rest

pub AllBelow-mono : (n m : ℕ) (ps : List OpenUpVal) → n ≤ m → AllBelow n ps → AllBelow m ps
AllBelow-mono n m [] h below = tt
AllBelow-mono n m (p ∷ ps) h below = (omega (arith, below.0), AllBelow-mono n m ps h below.1)

-- No upvalue has a slot that is not below the bound.
pub at_level-above : (n l : ℕ) (ps : List OpenUpVal) → AllBelow n ps → n ≤ l → at_level ps l ≡ none
at_level-above n l [] below h = refl
at_level-above n l (p ∷ ps) below h =
    let later = at_level-above n l ps below.1 h in
    let other : (p.level == l) ≡ false = ground (arith, below.0) in rw (other) later
