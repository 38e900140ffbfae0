-- ===== src/TableLib/Sort/Whole.antt =====
-- `table.sort` as a whole (src/builtin/table/mod.rs).
use mathlib.Core.List.{Perm}
use mathlib.Core.List.Perm
use mathlib.Core.Path.{subst, ap₂}
use tsuki.Base.{
  ℕ, zero, suc, ◌+◌, ◌-◌, ◌≤◌, ◌<◌, ◌≡◌, refl, sym, ◌∙◌, arith, Bool, false, Option, List, [], ◌∷◌,
  length, get_or, leb, Bool-cases, inl, inr,
}
use tsuki.TableLib.Sort.{State, Outcome, ok, fail, auxsort, sort}
use tsuki.TableLib.Sort.Ensures.{Allowed, IsOrder, Ensures}
use tsuki.TableLib.Sort.Sorted.{Sorted, auxsort-Sorted}

-- Every outcome, an error too, leaves the items `xs` in some order; the errors are that of the
-- comparison and that of an invalid order function.
abbrev pub Keeps : {V : Type 0} {W : Type 0} → List V → Outcome V W (Unit {0}) → Type 0
Keeps xs (ok a t) = Perm t.items xs
Keeps xs (fail p t) = Allowed p × Perm t.items xs

-- No item goes after a later one.
abbrev pub AllAfter : {V : Type 0} → (V → V → Bool) → V → List V → Type 0
AllAfter lt a [] = Unit
AllAfter lt a (b ∷ l) = (lt b a ≡ false) × AllAfter lt a l

abbrev pub Ascends : {V : Type 0} → (V → V → Bool) → List V → Type 0
Ascends lt [] = Unit
Ascends lt (a ∷ l) = AllAfter lt a l × Ascends lt l

AllAfter-nth :
    {V : Type 0} (lt : V → V → Bool) (a d : V) (l : List V)
    → ((j : ℕ) → j < length l → lt (get_or l j d) a ≡ false)
    → AllAfter lt a l
AllAfter-nth lt a d [] h = tt
AllAfter-nth lt a d (b ∷ l) h =
    (h zero (omega arith), AllAfter-nth lt a d l (λ j lt'. h (suc j) (omega arith)))

Ascends-nth :
    {V : Type 0} (lt : V → V → Bool) (d : V) (l : List V)
    → ((i j : ℕ) → i < j → j < length l → lt (get_or l j d) (get_or l i d) ≡ false)
    → Ascends lt l
Ascends-nth lt d [] h = tt
Ascends-nth lt d (a ∷ l) h = (
  AllAfter-nth lt a d l (λ j lt'. h zero (suc j) (omega arith) (omega arith)),
  Ascends-nth lt d l (λ i j less lt'. h (suc i) (suc j) (omega arith) (omega arith)),
)

Ascends-short : {V : Type 0} (lt : V → V → Bool) (l : List V) → length l ≤ 1 → Ascends lt l
Ascends-short lt [] h = tt
Ascends-short lt (a ∷ []) h = (tt, tt)
Ascends-short lt (a ∷ b ∷ l) h = absurd (omega arith)

module _ {V : Type 0} {W : Type 0} (compare : W → V → V → Option (Bool × W))
    (random : W → ℕ × W) where
  -- The tests before the sort.
  sort_short : (s : State V W) → length s.items ≤ 1 → sort compare random s ≡ ok tt s
  unfolding sort
  sort_short s short = ground arith

  sort_long :
      (s : State V W)
      → 1 < length s.items
      → length s.items < 2147483647
      → sort compare random s ≡ auxsort compare random (length s.items + 1) 1 (length s.items) 0 s
  unfolding sort
  sort_long s long small = ground arith

  module _ (lt : V → V → Bool) (s : State V W) where
    abbrev Sorting : V → Outcome V W (Unit {0}) → Type 0
    Sorting d = Ensures compare lt s.items (Sorted compare lt s.items d 1 (length s.items) s.items)

    sorting :
        (d : V)
        → 1 < length s.items
        → length s.items < 2147483647
        → Sorting d (sort compare random s)
    sorting d long small = subst (Sorting d) (sym (sort_long s long small)) (
        auxsort-Sorted compare lt s.items d random (length s.items + 1) 1 (length s.items) 0 s
          Perm.rfl (omega arith) (omega (arith, long)) (omega arith) (omega (arith, small))
          (omega arith))

    weaken : (d : V) (o : Outcome V W (Unit {0})) → Sorting d o → Keeps s.items o
    weaken d (ok a t) h = h.moves.perm
    weaken d (fail p t) h = (h.0, h.1)

    ordered :
        (d : V) (o : Outcome V W (Unit {0}))
        → IsOrder compare lt
        → Sorting d o
        → (t : State V W) × (o ≡ ok tt t) × Perm t.items s.items × Ascends lt t.items
    ordered d (fail p t) order h = absurd (h.2 order)
    ordered d (ok a t) order h = (
      t,
      refl,
      h.moves.perm,
      Ascends-nth lt d t.items (λ i j less inside.
          let here : suc i - 1 ≡ i = omega arith in
          let there : suc j - 1 ≡ j = omega arith in
          let le =
            h.sorted order (suc i) (suc j) (omega arith) (omega (arith, less))
              (omega (arith, inside, h.moves.size)) in
          ap₂ (λ x y. lt (get_or t.items y d) (get_or t.items x d)) (sym here) (sym there) ∙ le),
    )

first_item : {V : Type 0} (l : List V) → 1 < length l → V
first_item [] h = absurd (omega arith)
first_item (a ∷ l) h = a

module _ {V : Type 0} {W : Type 0} (compare : W → V → V → Option (Bool × W)) (random : W → ℕ × W)
    (s : State V W) (small : length s.items < 2147483647) where
  -- `table.sort` with any comparison, one that raises errors or is no order included, and with any
  -- random numbers, on fewer than 2 ^ 31 - 1 items: it ends, reads no place outside the
  -- table, and leaves the items in some order, also when it ends with an error, which is that of the
  -- comparison or that of an invalid order function.
  pub sort-Keeps : Keeps s.items (sort compare random s)
  sort-Keeps = elim (Bool-cases (leb (length s.items) 1)) [
    | inl e ↦ subst (Keeps s.items) (sym (sort_short compare random s (ground arith))) Perm.rfl
    | inr e ↦
        let long : 1 < length s.items = ground arith in
        let d = first_item s.items long in
        weaken compare random (λ _ _. false) s d (sort compare random s)
          (sorting compare random (λ _ _. false) s d long small)
  ]

  -- With a comparison that never fails and is a strict weak order `lt`, `table.sort` returns, with
  -- the items in an order in which none is greater than a later one.
  pub sort-Ascends :
      (lt : V → V → Bool)
      → IsOrder compare lt
      → (t : State V W) × (sort compare random s ≡ ok tt t)
        × Perm t.items s.items
        × Ascends lt t.items
  sort-Ascends lt order = elim (Bool-cases (leb (length s.items) 1)) [
    | inl e ↦
        let short : length s.items ≤ 1 = ground arith in
        (s, sort_short compare random s short, Perm.rfl, Ascends-short lt s.items short)
    | inr e ↦
        let long : 1 < length s.items = ground arith in
        let d = first_item s.items long in
        ordered compare random lt s d (sort compare random s) order
          (sorting compare random lt s d long small)
  ]
