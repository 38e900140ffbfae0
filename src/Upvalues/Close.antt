-- ===== src/Upvalues/Close.antt =====
-- `luaF_closeupval` closes the upvalues from a slot on, and none of them reads otherwise after it.
use mathlib.Core.Path.{ap₂}
use tsuki.Base.{
  ℕ, ◌<◌, ◌≡◌, refl, sym, ap, ◌∙◌, arith, Bool, true, false, Option, none, some, List, [], ◌∷◌,
  ◌==◌, leb, if◌then◌else◌, Bool-cases, inl, inr,
}
use tsuki.Base.Distinct.{NotIn, Distinct}
use tsuki.Upvalues.{
  OpenUpVal, UpVals, closeupval, close_loop, read, slot_of, closed_value, value_at,
}
use tsuki.Upvalues.Sorted.{
  AllBelow, Descends, addresses, IsSorted, at_level, AllBelow-mono, at_level-above,
}

slot_of-absent : (a : ℕ) (ps : List OpenUpVal) → NotIn a (addresses ps) → slot_of a ps ≡ none
slot_of-absent a [] h = refl
slot_of-absent a (p ∷ ps) h = ground (arith, slot_of-absent a ps h.1, h)

if_true {ℓ} : {A : Type ℓ} (b : Bool) (x y : A) → b ≡ true → (if b then x else y) ≡ x
if_true b x y e = rw (e) refl

if_false {ℓ} : {A : Type ℓ} (b : Bool) (x y : A) → b ≡ false → (if b then x else y) ≡ y
if_false b x y e = rw (e) refl

module _ {ℓ} {V : Type ℓ} (stack : ℕ → V) (level : ℕ) where
  still_open :
      (us : List OpenUpVal) (closed : List (ℕ × V))
      → Descends us
      → (l : ℕ)
      → at_level (close_loop stack level us closed).open_list l
        ≡ (if leb level l then none else at_level us l)
  unfolding close_loop
  still_open [] closed h l = ground arith
  still_open (uv ∷ us) closed h l =
      let later = still_open us ((uv.address, stack uv.level) ∷ closed) h.1 l in
      let above = at_level-above uv.level l us h.0 in ground (arith, later, above)

  IsSorted-still :
      (us : List OpenUpVal) (closed : List (ℕ × V))
      → IsSorted us
      → IsSorted (close_loop stack level us closed).open_list
  unfolding close_loop
  IsSorted-still [] closed h = h
  IsSorted-still (uv ∷ us) closed h =
      let later = IsSorted-still us ((uv.address, stack uv.level) ∷ closed) (h.0.1, h.1.1) in
      ground (arith, later, h)

  reads_same :
      (us : List OpenUpVal) (closed : List (ℕ × V)) (a : ℕ)
      → Distinct (addresses us)
      → read stack (close_loop stack level us closed) a
        ≡ value_at stack (slot_of a us) (closed_value a closed)
  unfolding close_loop
  reads_same [] closed a h = refl
  reads_same (uv ∷ us) closed a h = elim (Bool-cases (leb level uv.level)) [
    | inr e ↦ rw (e) refl
    | inl e ↦
        let later = reads_same us ((uv.address, stack uv.level) ∷ closed) a h.1 in
        elim (Bool-cases (uv.address == a)) [
          | inl same ↦
              let here : uv.address ≡ a = ground arith in
              let absent = slot_of-absent uv.address us h.0 in
              rw (e, same)
                (later
                  ∙ ap₂ (value_at stack) (ap (λ b. slot_of b us) (sym here) ∙ absent) (
                      if_true (uv.address == a) (some (stack uv.level)) (closed_value a closed)
                        same))
          | inr other ↦
              rw (e, other)
                (later
                  ∙ ap (value_at stack (slot_of a us)) (
                      if_false (uv.address == a) (some (stack uv.level)) (closed_value a closed)
                        other))
        ]
  ]

  open_below :
      (us : List OpenUpVal) (closed : List (ℕ × V))
      → Descends us
      → AllBelow level (close_loop stack level us closed).open_list
  unfolding close_loop
  open_below [] closed h = tt
  open_below (uv ∷ us) closed h =
      let later = open_below us ((uv.address, stack uv.level) ∷ closed) h.1 in
      let lower = AllBelow-mono uv.level level us in ground (arith, later, lower, h)

  -- A write to a slot from `level` on does not show below it.
  same_below :
      (other : ℕ → V) (us : List OpenUpVal) (a : ℕ) (v : Option V)
      → ((l : ℕ) → l < level → other l ≡ stack l)
      → AllBelow level us
      → value_at other (slot_of a us) v ≡ value_at stack (slot_of a us) v
  same_below other [] a v same below = refl
  same_below other (uv ∷ us) a v same below = elim (Bool-cases (uv.address == a)) [
    | inl e ↦ rw (e) (ap some (same uv.level below.0))
    | inr e ↦ rw (e) (same_below other us a v same below.1)
  ]

  -- Closing leaves exactly the upvalues below the slot open, in a sorted list, and each upvalue reads
  -- what it read before, whatever is written to the slots that were closed afterwards.
  pub closeupval-IsClosed :
      (u : UpVals V) (a l : ℕ) (other : ℕ → V)
      → IsSorted u.open_list
      → ((k : ℕ) → k < level → other k ≡ stack k)
      → IsSorted (closeupval stack level u).open_list
        × (at_level (closeupval stack level u).open_list l
            ≡ (if leb level l then none else at_level u.open_list l))
        × (read other (closeupval stack level u) a ≡ read stack u a)
  unfolding closeupval
  closeupval-IsClosed u a l other sorted same = (
    IsSorted-still u.open_list u.closed_list sorted,
    still_open u.open_list u.closed_list sorted.0 l,
    same_below other _ a _ same (open_below u.open_list u.closed_list sorted.0)
        ∙ reads_same u.open_list u.closed_list a sorted.1,
  )
