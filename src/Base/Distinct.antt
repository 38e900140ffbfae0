-- ===== src/Base/Distinct.antt =====
-- Lists of distinct numbers: as predicates by recursion, and the pigeonhole bound on their length.
use tsuki.Base.{
  ℕ, zero, suc, ◌+◌, ◌≤◌, ◌<◌, ◌≡◌, ◌≢◌, List, [], ◌∷◌, ◌++◌, length, arith, ◌==◌, if◌then◌else◌,
  Bool-cases, inl, inr,
}

abbrev pub NotIn : ℕ → List ℕ → Type 0
NotIn a [] = Unit
NotIn a (x ∷ xs) = (a ≢ x) × NotIn a xs

abbrev pub Distinct : List ℕ → Type 0
Distinct [] = Unit
Distinct (x ∷ xs) = NotIn x xs × Distinct xs

abbrev pub AllLt : ℕ → List ℕ → Type 0
AllLt n [] = Unit
AllLt n (x ∷ xs) = (x < n) × AllLt n xs

pub NotIn-append : (a : ℕ) (xs ys : List ℕ) → NotIn a (xs ++ ys) → NotIn a xs × NotIn a ys
NotIn-append a [] ys h = (tt, h)
NotIn-append a (x ∷ xs) ys h = let rest = NotIn-append a xs ys h.1 in ((h.0, rest.0), rest.1)

pub Distinct-append : (xs ys : List ℕ) → Distinct (xs ++ ys) → Distinct xs × Distinct ys
Distinct-append [] ys h = (tt, h)
Distinct-append (x ∷ xs) ys h =
    let rest = Distinct-append xs ys h.1 in (((NotIn-append x xs ys h.0).0, rest.0), rest.1)

drop_one : ℕ → List ℕ → List ℕ
drop_one a [] = []
drop_one a (x ∷ xs) = if a == x then xs else x ∷ drop_one a xs

NotIn-drop_one : (a b : ℕ) (xs : List ℕ) → NotIn b xs → NotIn b (drop_one a xs)
unfolding drop_one
NotIn-drop_one a b [] h = tt
NotIn-drop_one a b (x ∷ xs) h = elim (Bool-cases (a == x)) [
  | inl e ↦ rw e h.1
  | inr e ↦ rw e (h.0, NotIn-drop_one a b xs h.1)
]

Distinct-drop_one : (a : ℕ) (xs : List ℕ) → Distinct xs → Distinct (drop_one a xs)
unfolding drop_one
Distinct-drop_one a [] h = tt
Distinct-drop_one a (x ∷ xs) h = elim (Bool-cases (a == x)) [
  | inl e ↦ rw e h.1
  | inr e ↦ rw e (NotIn-drop_one a x xs h.0, Distinct-drop_one a xs h.1)
]

length-drop_one : (a : ℕ) (xs : List ℕ) → length xs ≤ length (drop_one a xs) + 1
unfolding drop_one
length-drop_one a [] = omega arith
length-drop_one a (x ∷ xs) = ground (arith, length-drop_one a xs)

AllLt-absent : (n : ℕ) (xs : List ℕ) → NotIn n xs → AllLt (suc n) xs → AllLt n xs
AllLt-absent n [] h lt = tt
AllLt-absent n (x ∷ xs) h lt = let ne : n ≢ x = h.0 in (omega arith, AllLt-absent n xs h.1 lt.1)

AllLt-drop_one : (n : ℕ) (xs : List ℕ) → Distinct xs → AllLt (suc n) xs → AllLt n (drop_one n xs)
unfolding drop_one
AllLt-drop_one n [] d lt = tt
AllLt-drop_one n (x ∷ xs) d lt = elim (Bool-cases (n == x)) [
  | inl e ↦ let same : n ≡ x = ground arith in rw e (AllLt-absent n xs (rw same d.0) lt.1)
  | inr e ↦ rw e (ground arith, AllLt-drop_one n xs d.1 lt.1)
]

pub length-le_of_Distinct : (n : ℕ) (xs : List ℕ) → Distinct xs → AllLt n xs → length xs ≤ n
length-le_of_Distinct zero [] d lt = omega arith
length-le_of_Distinct zero (x ∷ xs) d lt = absurd (omega arith)
length-le_of_Distinct (suc n) xs d lt = omega (
  arith,
  length-drop_one n xs,
  length-le_of_Distinct n (drop_one n xs) (Distinct-drop_one n xs d) (AllLt-drop_one n xs d lt),
)
