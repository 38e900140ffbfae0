-- ===== src/TableLib/Sort/Around.antt =====
-- Both sides of the pivot sorted, in either order, make the range sorted (src/builtin/table/mod.rs).
use tsuki.Base.{
  ℕ, ◌+◌, ◌-◌, ◌≤◌, ◌<◌, ◌≡◌, ap, ◌∙◌, inl, inr, arith, Bool, not, Option, List, ◌==◌, ltb,
  Bool-cases,
}
use tsuki.TableLib.Sort.Moves.{nth, Moves, Moves-trans, Moves-wider}
use tsuki.TableLib.Sort.Ensures.{IsOrder, Le}

module _ {V : Type 0} {W : Type 0} (compare : W → V → V → Option (Bool × W)) (lt : V → V → Bool)
    (d : V) where
  abbrev Legal : Type 0
  Legal = IsOrder compare lt

  abbrev pub IsSortedPart : ℕ → ℕ → List V → Type 0
  IsSortedPart lo up l =
      Legal → (i j : ℕ) → lo ≤ i → i < j → j ≤ up → Le compare lt (nth d l i) (nth d l j)

  -- The outcome of sorting a part.
  pub record Sorts (lo up : ℕ) (l m : List V) : Type 0 where
    pub moves : Moves d lo up l m
    pub sorted : IsSortedPart lo up m

  pub record Around (a : V) (lo p up : ℕ) (l : List V) : Type 0 where
    pub low : Legal → (k : ℕ) → lo ≤ k → k < p → Le compare lt (nth d l k) a
    pub middle : nth d l p ≡ a
    pub high : Legal → (k : ℕ) → p < k → k ≤ up → Le compare lt a (nth d l k)

  module _ (a : V) (lo p up : ℕ) (pos : 0 < lo) (above : lo < p) (below : p < up) where
    left_Around : (l m : List V) → Moves d lo (p - 1) l m → Around a lo p up l → Around a lo p up m
    left_Around l m moved h = record {
      low = λ o k from to.
          let goes =
            moved.within (λ v. not (lt a v))
              (λ x lx ux. ap not (h.low o x lx (omega (arith, ux, above)))) k from
              (omega (arith, to)) in
          ground (arith, goes);
      middle = moved.outside p (omega (arith, above)) (inr (omega (arith, above))) ∙ h.middle;
      high = λ o k from to.
          ap (λ v. lt v a) (moved.outside k (omega (arith, from)) (inr (omega (arith, from))))
          ∙ h.high o k from to;
    }

    right_Around : (l m : List V) → Moves d (p + 1) up l m → Around a lo p up l → Around a lo p up m
    right_Around l m moved h = record {
      low = λ o k from to.
          ap (λ v. lt a v) (moved.outside k (omega (arith, pos, from)) (inl (omega (arith, to))))
          ∙ h.low o k from to;
      middle = moved.outside p (omega (arith, above)) (inl (omega arith)) ∙ h.middle;
      high = λ o k from to.
          let goes =
            moved.within (λ v. not (lt v a)) (λ x lx ux. ap not (h.high o x (omega (arith, lx)) ux))
              k (omega (arith, from)) to in
          ground (arith, goes);
    }

    -- Sorting one side leaves the other side as it was.
    left_stays :
        (l m : List V)
        → Moves d (p + 1) up l m
        → IsSortedPart lo (p - 1) l
        → IsSortedPart lo (p - 1) m
    left_stays l m moved h o i j from less to =
        let first =
          moved.outside i (omega (arith, pos, from)) (inl (omega (arith, less, to, above))) in
        let last = moved.outside j (omega (arith, less)) (inl (omega (arith, to, above))) in
        let before = h o i j from less to in ground (arith, first, last, before)

    right_stays :
        (l m : List V)
        → Moves d lo (p - 1) l m
        → IsSortedPart (p + 1) up l
        → IsSortedPart (p + 1) up m
    right_stays l m moved h o i j from less to =
        let first = moved.outside i (omega (arith, from)) (inr (omega (arith, from, above))) in
        let last = moved.outside j (omega (arith, less)) (inr (omega (arith, from, less, above))) in
        let before = h o i j from less to in ground (arith, first, last, before)

    joined :
        (l : List V)
        → Around a lo p up l
        → IsSortedPart lo (p - 1) l
        → IsSortedPart (p + 1) up l
        → IsSortedPart lo up l
    joined l h left right o i j from less to = elim (Bool-cases (ltb j p)) [
      | inl e ↦ left o i j from less (ground arith)
      | inr e ↦ elim (Bool-cases (ltb p i)) [
        | inl f ↦ right o i j (ground arith) less to
        | inr f ↦ across i j o (ground arith) (ground arith) from less to
      ]
    ]
      where
        pivot : (x : ℕ) → x ≡ p → nth d l x ≡ a
        pivot x same = ap (nth d l) same ∙ h.middle

        across :
            (i j : ℕ)
            → Legal
            → i ≤ p
            → p ≤ j
            → lo ≤ i
            → i < j
            → j ≤ up
            → Le compare lt (nth d l i) (nth d l j)
        across i j o ip pj from less to = elim (Bool-cases (i == p)) [
          | inl e ↦
              let here = pivot i (ground arith) in
              let after = h.high o j (ground arith) to in ground (arith, here, after)
          | inr e ↦
              let before = h.low o i from (ground arith) in
              elim (Bool-cases (j == p)) [
                | inl f ↦ let here = pivot j (ground arith) in ground (arith, here, before)
                | inr f ↦ o.trans (nth d l i) a (nth d l j) before (h.high o j (ground arith) to)
              ]
        ]

    wider_left : (l m : List V) → Moves d lo (p - 1) l m → Moves d lo up l m
    wider_left l m = Moves-wider d lo up lo (p - 1) l m pos (omega arith) (omega (arith, below))

    wider_right : (l m : List V) → Moves d (p + 1) up l m → Moves d lo up l m
    wider_right l m = Moves-wider d lo up (p + 1) up l m pos (omega (arith, above)) (omega arith)

    -- The shorter side may be either of the two.
    pub left_first :
        (l m n : List V)
        → Around a lo p up l
        → Sorts lo (p - 1) l m
        → Sorts (p + 1) up m n
        → Sorts lo up l n
    left_first l m n h left right = record {
      moves = Moves-trans d lo up l m n (wider_left l m left.moves) (wider_right m n right.moves);
      sorted =
          joined n (right_Around m n right.moves (left_Around l m left.moves h))
            (left_stays m n right.moves left.sorted) right.sorted;
    }

    pub right_first :
        (l m n : List V)
        → Around a lo p up l
        → Sorts (p + 1) up l m
        → Sorts lo (p - 1) m n
        → Sorts lo up l n
    right_first l m n h right left = record {
      moves = Moves-trans d lo up l m n (wider_right l m right.moves) (wider_left m n left.moves);
      sorted =
          joined n (left_Around m n left.moves (right_Around l m right.moves h)) left.sorted
            (right_stays m n left.moves right.sorted);
    }
