-- ===== src/Upvalues/Find.antt =====
-- `luaF_findupval` is a lookup with insertion in the map from slots to upvalues.
use tsuki.Base.{
  ℕ, ◌<◌, ◌≡◌, ◌≢◌, refl, sym, ap, ◌∙◌, arith, Option, none, some, List, [], ◌∷◌, ◌==◌, leb,
  if◌then◌else◌, Bool-cases, inl, inr,
}
use tsuki.Base.Distinct.{NotIn, Distinct}
use tsuki.Upvalues.{OpenUpVal, UpVals, findupval, find_loop}
use tsuki.Upvalues.Sorted.{
  AllBelow, Descends, addresses, IsSorted, at_level, AllBelow-mono, at_level-above,
}

abbrev pub or_fresh : Option ℕ → ℕ → ℕ
or_fresh none fresh = fresh
or_fresh (some a) fresh = a

AllBelow-find :
    (n fresh level : ℕ) (ps : List OpenUpVal)
    → AllBelow n ps
    → level < n
    → AllBelow n (find_loop fresh level ps).1
unfolding find_loop
AllBelow-find n fresh level [] below h = (h, tt)
AllBelow-find n fresh level (p ∷ ps) below h =
    let later = AllBelow-find n fresh level ps below.1 h in ground (arith, later, below, h)

Descends-find :
    (fresh level : ℕ) (ps : List OpenUpVal) → Descends ps → Descends (find_loop fresh level ps).1
unfolding find_loop
Descends-find fresh level [] h = (tt, tt)
Descends-find fresh level (p ∷ ps) h = elim (Bool-cases (leb level p.level)) [
  | inr e ↦
      let lower : p.level < level = ground arith in
      rw (e) ((lower, AllBelow-mono p.level level ps (omega arith) h.0), (h.0, h.1))
  | inl e ↦ elim (Bool-cases (p.level == level)) [
    | inl same ↦ rw (e, same) h
    | inr other ↦
        let under : level < p.level = ground arith in
        rw (e, other)
          (AllBelow-find p.level fresh level ps h.0 under, Descends-find fresh level ps h.1)
  ]
]

NotIn-find :
    (a fresh level : ℕ) (ps : List OpenUpVal)
    → a ≢ fresh
    → NotIn a (addresses ps)
    → NotIn a (addresses (find_loop fresh level ps).1)
unfolding find_loop
NotIn-find a fresh level [] ne h = (ne, tt)
NotIn-find a fresh level (p ∷ ps) ne h =
    let later = NotIn-find a fresh level ps ne h.1 in ground (arith, later, h, ne)

Distinct-find :
    (fresh level : ℕ) (ps : List OpenUpVal)
    → NotIn fresh (addresses ps)
    → Distinct (addresses ps)
    → Distinct (addresses (find_loop fresh level ps).1)
unfolding find_loop
Distinct-find fresh level [] new h = (tt, tt)
Distinct-find fresh level (p ∷ ps) new h =
    let later = Distinct-find fresh level ps new.1 h.1 in
    let apart = NotIn-find p.address fresh level ps (λ e. new.0 (sym e)) h.0 in
    ground (arith, later, apart, new, h)

found_at :
    (fresh level : ℕ) (ps : List OpenUpVal)
    → Descends ps
    → (at_level (find_loop fresh level ps).1 level ≡ some (find_loop fresh level ps).0)
      × ((find_loop fresh level ps).0 ≡ or_fresh (at_level ps level) fresh)
unfolding find_loop
found_at fresh level [] h = ground arith
found_at fresh level (p ∷ ps) h =
    let later = found_at fresh level ps h.1 in
    let none_below = at_level-above p.level level ps h.0 in ground (arith, later, none_below)

other_levels :
    (fresh level : ℕ) (ps : List OpenUpVal) (l : ℕ)
    → l ≢ level
    → at_level (find_loop fresh level ps).1 l ≡ at_level ps l
unfolding find_loop
other_levels fresh level [] l ne = ground arith
other_levels fresh level (p ∷ ps) l ne =
    let later = other_levels fresh level ps l ne in ground (arith, later, ne)

levels_after :
    (fresh level : ℕ) (ps : List OpenUpVal) (l : ℕ)
    → Descends ps
    → at_level (find_loop fresh level ps).1 l
      ≡ (if l == level then some (find_loop fresh level ps).0 else at_level ps l)
levels_after fresh level ps l h = elim (Bool-cases (l == level)) [
  | inl e ↦
      let here : l ≡ level = ground arith in
      rw (e) (ap (at_level (find_loop fresh level ps).1) here ∙ (found_at fresh level ps h).0)
  | inr e ↦ rw (e) (other_levels fresh level ps l (λ same. ground arith))
]

-- From a sorted list of distinct open upvalues without the fresh address, the search leaves such a
-- list; it returns the upvalue of the slot if there is one, and the fresh one if not; after it that
-- upvalue stands at the slot, and every other slot and the closed upvalues are as they were.
pub findupval_lem {ℓ} :
    {V : Type ℓ} (fresh level l : ℕ) (u : UpVals V)
    → IsSorted u.open_list
    → NotIn fresh (addresses u.open_list)
    → IsSorted (findupval fresh level u).1.open_list
      × ((findupval fresh level u).0 ≡ or_fresh (at_level u.open_list level) fresh)
      × (at_level (findupval fresh level u).1.open_list l
          ≡ (if l == level then some (findupval fresh level u).0 else at_level u.open_list l))
      × ((findupval fresh level u).1.closed_list ≡ u.closed_list)
unfolding findupval
findupval_lem fresh level l u sorted new = (
  (
    Descends-find fresh level u.open_list sorted.0,
    Distinct-find fresh level u.open_list new sorted.1,
  ),
  (found_at fresh level u.open_list sorted.0).1,
  levels_after fresh level u.open_list l sorted.0,
  refl,
)
