-- ===== src/StringTable/Chains.antt =====
-- Counting the strings of a table that pass a test, and what writing a bucket does to the count.
use native.Mathlib.Decide.{ℕ_discrete}
use tsuki.Base.{
  ℕ, zero, suc, ◌+◌, ◌≤◌, ◌<◌, ◌≡◌, ◌≢◌, refl, ap, Bool, true, false, ◌&&◌, List, [], ◌∷◌, ◌++◌,
  ◌==◌, length, set, arith, get_or-set_self, get_or-set_ne, none, some, Bool-cases, inl, inr,
}
use tsuki.StringTable.{Str, bucket, same_bytes, find, nulls}

abbrev pub AllOf : (Str → Bool) → List Str → Type 0
AllOf p [] = Unit
AllOf p (e ∷ es) = (p e ≡ true) × AllOf p es

pub AllOf-mono :
    (p q : Str → Bool) (xs : List Str)
    → ((e : Str) → p e ≡ true → q e ≡ true)
    → AllOf p xs
    → AllOf q xs
AllOf-mono p q [] h all = tt
AllOf-mono p q (e ∷ es) h all = (h e all.0, AllOf-mono p q es h all.1)

abbrev pub tick : Bool → ℕ
tick true = 1
tick false = 0

abbrev pub count : (Str → Bool) → List Str → ℕ
count p [] = 0
count p (e ∷ es) = tick (p e) + count p es

abbrev pub total : (Str → Bool) → List (List Str) → ℕ
total p [] = 0
total p (b ∷ v) = count p b + total p v

pub total-set :
    (p : Str → Bool) (v : List (List Str)) (i : ℕ) (xs : List Str)
    → i < length v
    → total p (set v i xs) + count p (bucket v i) ≡ total p v + count p xs
total-set p [] i xs h = absurd (omega arith)
total-set p (b ∷ v) zero xs h = omega arith
total-set p (b ∷ v) (suc i) xs h = omega (arith, total-set p v i xs (omega arith))

pub total-nulls :
    (p : Str → Bool) (v : List (List Str)) (n : ℕ) → total p (v ++ nulls n) ≡ total p v
total-nulls p [] zero = refl
total-nulls p [] (suc n) = omega (arith, total-nulls p [] n)
total-nulls p (b ∷ v) n = ap (λ (t : ℕ). count p b + t) (total-nulls p v n)

-- The whole count is that of one bucket if the others have none.
pub total-bucket :
    (p : Str → Bool) (v : List (List Str)) (j : ℕ)
    → ((i : ℕ) → i ≢ j → count p (bucket v i) ≡ 0)
    → total p v ≡ count p (bucket v j)
total-bucket p [] j h = refl
total-bucket p (b ∷ v) zero h = omega (arith, total_zero p v (λ i. h (suc i) (ground arith)))
  where
    total_zero :
        (p : Str → Bool) (v : List (List Str))
        → ((i : ℕ) → count p (bucket v i) ≡ 0)
        → total p v ≡ 0
    total_zero p [] h = refl
    total_zero p (b ∷ v) h = omega (arith, h 0, total_zero p v (λ i. h (suc i)))
total-bucket p (b ∷ v) (suc j) h =
    omega
      (arith, h 0 (ground arith), total-bucket p v j (λ i ne. h (suc i) (λ e. ne (omega arith))))

-- Every bucket's strings pass the test for its index.
abbrev pub Placed : (ℕ → Str → Bool) → List (List Str) → Type 0
Placed f v = (j : ℕ) → AllOf (f j) (bucket v j)

pub Placed-set :
    (f : ℕ → Str → Bool) (v : List (List Str)) (i : ℕ) (xs : List Str)
    → i < length v
    → AllOf (f i) xs
    → ((j : ℕ) → i ≢ j → AllOf (f j) (bucket v j))
    → Placed f (set v i xs)
Placed-set f v i xs h all others j = elim (ℕ_discrete i j) [
  | yes e ↦ rw (← e, get_or-set_self v i xs [] h) all
  | no ne ↦ rw (get_or-set_ne v i j xs [] ne) (others j ne)
]

-- Two strings are the same record.
abbrev pub same : Str → Str → Bool
same e d = (d.address == e.address) && (d.hash == e.hash) && same_bytes d.bytes e.bytes

abbrev pub named : List ℕ → Str → Bool
named s e = same_bytes e.bytes s

pub same_bytes_lem : (s t : List ℕ) → same_bytes s t ≡ true → s ≡ t
same_bytes_lem [] [] h = refl
same_bytes_lem [] (b ∷ t) h = cc
same_bytes_lem (a ∷ s) [] h = cc
same_bytes_lem (a ∷ s) (b ∷ t) h = ground (arith, same_bytes_lem s t)

pub same_bytes_refl : (s : List ℕ) → same_bytes s s ≡ true
same_bytes_refl [] = refl
same_bytes_refl (a ∷ s) = ground (arith, same_bytes_refl s)

pub same_lem : (e d : Str) → same e d ≡ true → d ≡ e
same_lem e d h = ground (arith, same_bytes_lem d.bytes e.bytes)

pub same_refl : (e : Str) → same e e ≡ true
same_refl e = ground (arith, same_bytes_refl e.bytes)

-- What `find` returns, by the counts.
pub find-none_of_count : (s : List ℕ) (xs : List Str) → count (named s) xs ≡ 0 → find s xs ≡ none
find-none_of_count s [] h = refl
find-none_of_count s (e ∷ es) h = ground (arith, find-none_of_count s es)

pub find-some :
    (s : List ℕ) (xs : List Str) (e : Str)
    → find s xs ≡ some e
    → (0 < count (same e) xs) × (same_bytes e.bytes s ≡ true) × (0 < count (named s) xs)
find-some s [] e h = cc
find-some s (d ∷ ds) e h = elim (Bool-cases (same_bytes d.bytes s)) [
  | inl yes_d ↦
      let eq : d ≡ e = ground (arith, h, yes_d) in rw (← eq) (ground (arith, same_refl d, yes_d))
  | inr no_d ↦ ground (arith, find-some s ds e (rw no_d at h))
]

same-named :
    (s : List ℕ) (xs : List Str) (e : Str)
    → same_bytes e.bytes s ≡ true
    → 0 < count (same e) xs
    → 0 < count (named s) xs
same-named s [] e bytes some_e = some_e
same-named s (d ∷ ds) e bytes some_e = elim (Bool-cases (same e d)) [
  | inl is_e ↦ rw (same_lem e d is_e, bytes) (omega arith)
  | inr other ↦ ground (arith, same-named s ds e bytes (omega (arith, ap tick other)))
]

pub find_unique :
    (s : List ℕ) (xs : List Str) (e : Str)
    → same_bytes e.bytes s ≡ true
    → count (named s) xs ≤ 1
    → 0 < count (same e) xs
    → find s xs ≡ some e
find_unique s [] e bytes few some_e = absurd (omega arith)
find_unique s (d ∷ ds) e bytes few some_e = elim (Bool-cases (same e d)) [
  | inl is_e ↦ rw (same_lem e d is_e, bytes) refl
  | inr other ↦
      let later : 0 < count (same e) ds = omega (arith, ap tick other) in
      elim (Bool-cases (same_bytes d.bytes s)) [
        | inl again ↦ absurd (omega (arith, same-named s ds e bytes later, ap tick again))
        | inr no_d ↦
            let one : tick (same_bytes d.bytes s) ≡ 0 = ap tick no_d in
            rw no_d (find_unique s ds e bytes (omega (arith, one)) later)
      ]
]

pub find-none : (s : List ℕ) (xs : List Str) → find s xs ≡ none → count (named s) xs ≡ 0
find-none s [] h = refl
find-none s (d ∷ ds) h = elim (Bool-cases (same_bytes d.bytes s)) [
  | inl is_d ↦ ground (arith, h, is_d)
  | inr no_d ↦ omega (arith, ap tick no_d, find-none s ds (rw no_d at h))
]

pub count-le-total :
    (p : Str → Bool) (v : List (List Str)) (j : ℕ) → count p (bucket v j) ≤ total p v
count-le-total p [] j = omega arith
count-le-total p (b ∷ v) zero = omega arith
count-le-total p (b ∷ v) (suc j) = omega (arith, count-le-total p v j)

-- A test that fails on all that pass a second test and fail a third.
pub count_neither :
    (p q r : Str → Bool) (xs : List Str)
    → ((e : Str) → q e ≡ true → r e ≡ false → p e ≡ false)
    → AllOf q xs
    → count r xs ≡ 0
    → count p xs ≡ 0
count_neither p q r [] h all clear = refl
count_neither p q r (e ∷ es) h all clear = elim (Bool-cases (r e)) [
  | inl bad ↦ absurd (omega (arith, ap tick bad))
  | inr good ↦ omega (
    arith,
    ap tick (h e all.0 good),
    ap tick good,
    count_neither p q r es h all.1 (omega (arith, ap tick good)),
  )
]
