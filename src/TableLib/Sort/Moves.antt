-- ===== src/TableLib/Sort/Moves.antt =====
-- An exchange of two items of a range, and what such exchanges keep (src/builtin/table/mod.rs).
use mathlib.Core.List.{Perm}
use mathlib.Core.List.Perm
use mathlib.Core.Path.{subst}
use tsuki.Base.{
  ℕ, zero, suc, ◌-◌, ◌≤◌, ◌<◌, ◌≡◌, ◌≢◌, refl, sym, ap, ◌∙◌, ◌⊎◌, inl, inr, arith, Bool, true, List,
  [], ◌∷◌, length, get_or, set, length-set, get_or-set_self, get_or-set_ne, ◌==◌, if◌then◌else◌,
  Bool-cases, ltb,
}
use tsuki.TableLib.Sort.{State, set_item}

-- Setting an item exchanges it for another.
set-Perm :
    {V : Type 0} (xs : List V) (i : ℕ) (y d : V)
    → i < length xs
    → Perm (y ∷ xs) (get_or xs i d ∷ set xs i y)
set-Perm [] i y d lt = absurd (omega arith)
set-Perm (x ∷ xs) zero y d lt = Perm.swap _ _ _
set-Perm (x ∷ xs) (suc i) y d lt =
    Perm.trans (Perm.swap _ _ _)
      (Perm.trans (Perm.cons x (set-Perm xs i y d (omega arith))) (Perm.swap _ _ _))

set_self : {V : Type 0} (xs : List V) (i : ℕ) (d : V) → set xs i (get_or xs i d) ≡ xs
set_self [] i d = refl
set_self (x ∷ xs) zero d = refl
set_self (x ∷ xs) (suc i) d = ap (λ l. x ∷ l) (set_self xs i d)

exchange-Perm :
    {V : Type 0} (xs : List V) (i j : ℕ) (d : V)
    → i < length xs
    → j < length xs
    → Perm (set (set xs i (get_or xs j d)) j (get_or xs i d)) xs
exchange-Perm xs i j d li lj =
    let x = get_or xs i d in
    let y = get_or xs j d in
    let ys = set xs i y in
    let there : get_or ys j d ≡ y = elim (Bool-cases (i == j)) [
      | inl e ↦
          let same : i ≡ j = ground arith in
          ap (λ k. get_or ys k d) (sym same) ∙ get_or-set_self xs i y d li
      | inr e ↦ get_or-set_ne xs i j y d (ground arith)
    ] in
    let second = set-Perm ys j x d (omega (arith, length-set xs i y, lj)) in
    let both =
      Perm.trans (set-Perm xs i y d li)
        (subst (λ v. Perm (x ∷ ys) (v ∷ set ys j x)) there second) in
    Perm.symm (Perm.cons_inv both)

-- The item of an index from 1 on.
abbrev pub nth : {V : Type 0} → V → List V → ℕ → V
nth d l k = get_or l (k - 1) d

module _ {V : Type 0} (d : V) where
  -- What a sort of the items from `lo` to `up` may do to the table.
  pub record Moves (lo up : ℕ) (l m : List V) : Type 0 where
    pub perm : Perm m l
    pub size : length m ≡ length l
    pub outside : (k : ℕ) → 0 < k → (k < lo) ⊎ (up < k) → nth d m k ≡ nth d l k
    pub within :
        (Q : V → Bool)
        → ((k : ℕ) → lo ≤ k → k ≤ up → Q (nth d l k) ≡ true)
        → (k : ℕ) → lo ≤ k
        → k ≤ up
        → Q (nth d m k) ≡ true

  pub Moves-refl : (lo up : ℕ) (l : List V) → Moves lo up l l
  Moves-refl lo up l = record {
    perm = Perm.rfl;
    size = refl;
    outside = λ k p o. refl;
    within = λ Q h. h;
  }

  pub Moves-trans :
      (lo up : ℕ) (l m n : List V) → Moves lo up l m → Moves lo up m n → Moves lo up l n
  Moves-trans lo up l m n p q = record {
    perm = Perm.trans q.perm p.perm;
    size = q.size ∙ p.size;
    outside = λ k pos o. q.outside k pos o ∙ p.outside k pos o;
    within = λ Q h. q.within Q (p.within Q h);
  }

  -- A narrower range.
  pub Moves-wider :
      (lo up lo' up' : ℕ) (l m : List V)
      → 0 < lo
      → lo ≤ lo'
      → up' ≤ up
      → Moves lo' up' l m
      → Moves lo up l m
  Moves-wider lo up lo' up' l m pos a b moved = record {
    perm = moved.perm;
    size = moved.size;
    outside = λ k pos o. moved.outside k pos (ground arith);
    within = λ Q h k from to.
        let kept = λ (o : (k < lo') ⊎ (up' < k)).
          ap Q (moved.outside k (omega (arith, pos, from)) o) ∙ h k from to in
        elim (Bool-cases (ltb k lo')) [
          | inl e ↦ kept (inl (ground arith))
          | inr e ↦ elim (Bool-cases (ltb up' k)) [
            | inl f ↦ kept (inr (ground arith))
            | inr f ↦
                moved.within Q (λ x lx ux. h x (omega (arith, a, lx)) (omega (arith, b, ux))) k
                  (ground arith) (ground arith)
          ]
        ];
  }

module _ {V : Type 0} {W : Type 0} (d : V) where
  abbrev pub at : State V W → ℕ → V
  at s k = nth d s.items k

  abbrev pub exchanged : ℕ → ℕ → State V W → State V W
  exchanged i j s = set_item j (at s i) (set_item i (at s j) s)

  at-set_item :
      (s : State V W) (i : ℕ) (v : V) (k : ℕ)
      → 0 < i
      → i ≤ length s.items
      → 0 < k
      → at (set_item i v s) k ≡ (if k == i then v else at s k)
  unfolding set_item
  at-set_item s i v k pi li pk = elim (Bool-cases (k == i)) [
    | inl e ↦
        let same : k ≡ i = ground arith in
        ap (λ x. get_or (set s.items (i - 1) v) (x - 1) d) same
        ∙ get_or-set_self s.items (i - 1) v d (omega (arith, pi, li))
        ∙ sym (ap (λ b. if b then v else at s k) e)
    | inr e ↦
        let other : k ≢ i = ground arith in
        get_or-set_ne s.items (i - 1) (k - 1) v d (λ q. other (omega (arith, q, pi, pk)))
        ∙ sym (ap (λ b. if b then v else at s k) e)
  ]

  module _ (i j : ℕ) (s : State V W) (pi : 0 < i) (pj : 0 < j) (li : i ≤ length s.items)
      (lj : j ≤ length s.items) where
    pub at-exchanged :
        (k : ℕ)
        → 0 < k
        → at (exchanged i j s) k ≡ (if k == j then at s i else (if k == i then at s j else at s k))
    unfolding set_item
    at-exchanged k pk =
        at-set_item (set_item i (at s j) s) j (at s i) k pj
          (omega (arith, lj, length-set s.items (i - 1) (at s j))) pk
        ∙ ap (λ v. if k == j then at s i else v) (at-set_item s i (at s j) k pi li pk)

    size_exchanged : length (exchanged i j s).items ≡ length s.items
    unfolding set_item
    size_exchanged =
        length-set (set s.items (i - 1) (at s j)) (j - 1) (at s i)
        ∙ length-set s.items (i - 1) (at s j)

    pub exchanged-Moves :
        (lo up : ℕ)
        → 0 < lo
        → lo ≤ i
        → i ≤ up
        → lo ≤ j
        → j ≤ up
        → Moves d lo up s.items (exchanged i j s).items
    unfolding set_item
    exchanged-Moves lo up pos a b c e = record {
      perm =
          exchange-Perm s.items (i - 1) (j - 1) d (omega (arith, pi, li)) (omega (arith, pj, lj));
      size = size_exchanged;
      outside = λ k pk o. let here = at-exchanged k pk in ground (arith, here, o);
      within = λ Q h k l u.
          let here = ap Q (at-exchanged k (omega (arith, pos, l))) in
          let qi = h i a b in
          let qj = h j c e in let qk = h k l u in ground (arith, here, qi, qj, qk);
    }
