-- ===== src/TableLib/Sort/Ensures.antt =====
-- What holds of an outcome of the sort, errors included (src/builtin/table/mod.rs).
use mathlib.Core.List.{Perm}
use mathlib.Core.Path.{subst}
use tsuki.Base.{
  ℕ, zero, suc, ◌+◌, ◌-◌, ◌^◌, ◌≤◌, ◌<◌, ◌≡◌, refl, sym, ap, ◌∙◌, arith, Bool, true, false, Option,
  none, some, List, [], ◌∷◌, length, get_or, get_elem?, Option-cases, inl, inr,
}
use tsuki.TableLib.Sort.{
  State, Outcome, ok, fail, Problem, invalid_order, compare_error, ◌>>=◌, found_item, compared,
  index_item, sort_comp, wrapping_add, wrapping_sub,
}
use tsuki.TableLib.Sort.Moves.{at}

-- The errors that the code raises by itself or passes on.
abbrev pub Allowed : Problem → Type 0
Allowed invalid_order = Unit
Allowed compare_error = Unit
Allowed _ = ⊥

pub wrapping_sub-le : (a b : ℕ) → b ≤ a → a < 2 ^ 32 → wrapping_sub a b ≡ a - b
wrapping_sub-le a b le lt = omega arith

pub wrapping_add-lt : (a b : ℕ) → a + b < 2 ^ 32 → wrapping_add a b ≡ a + b
wrapping_add-lt a b lt = omega arith

module _ {V : Type 0} {W : Type 0} (compare : W → V → V → Option (Bool × W))
    (lt : V → V → Bool) where
  -- The comparison never fails and is the strict weak order `lt`.
  pub record IsOrder : Type 0 where
    pub total : (w : W) (a b : V) → (w' : W) × (compare w a b ≡ some (lt a b, w'))
    pub asym : (a b : V) → lt a b ≡ true → lt b a ≡ false
    pub trans : (a b c : V) → lt b a ≡ false → lt c b ≡ false → lt c a ≡ false

  -- `a` may stand before `b`.
  abbrev pub Le : V → V → Type 0
  Le a b = lt b a ≡ false

  pub Le-refl : IsOrder → (a : V) → Le a a
  Le-refl o a =
      elim (lt a a) as (λ b. lt a a ≡ b → lt a a ≡ false) [
        | true ↦ λ e. let f = o.asym a a e in f
        | false ↦ λ e. e
      ]
        refl

  module _ (xs : List V) where
    abbrev pub Ensures : {A : Type 0} → (A → State V W → Type 0) → Outcome V W A → Type 0
    Ensures P (ok a s) = P a s
    Ensures P (fail p s) = Allowed p × Perm s.items xs × (¬ IsOrder)

    pub Ensures-bind :
        {A B : Type 0} (P : A → State V W → Type 0) (Q : B → State V W → Type 0) (o : Outcome V W A)
        (k : A → State V W → Outcome V W B)
        → Ensures P o
        → ((a : A) (s : State V W) → P a s → Ensures Q (k a s))
        → Ensures Q (o >>= k)
    Ensures-bind P Q (ok a s) k h g = g a s h
    Ensures-bind P Q (fail p s) k h g = h

    pub Ensures-map :
        {A : Type 0} (P Q : A → State V W → Type 0) (o : Outcome V W A)
        → Ensures P o
        → ((a : A) (s : State V W) → P a s → Q a s)
        → Ensures Q o
    Ensures-map P Q (ok a s) h g = g a s h
    Ensures-map P Q (fail p s) h g = h

    -- A comparison leaves the items, and says what `lt` says.
    pub compare-bind :
        {B : Type 0} (Q : B → State V W → Type 0) (a b : V) (s : State V W)
        (k : Bool → State V W → Outcome V W B)
        → Perm s.items xs
        → ((r : Bool) (w : W) → (IsOrder → r ≡ lt a b) → Ensures Q (k r (record s { world = w })))
        → Ensures Q (sort_comp compare a b s >>= k)
    unfolding sort_comp
    compare-bind Q a b s k p g = elim (Option-cases (compare s.world a b)) [
      | inl e ↦
          let stops : sort_comp compare a b s ≡ fail compare_error s = ap (compared s) e in
          subst (λ o. Ensures Q (o >>= k)) (sym stops)
            (tt, p, λ o. let (w, f) = o.total s.world a b in some≢none (sym f ∙ e))
      | inr ((r, w), e) ↦
          let goes : sort_comp compare a b s ≡ ok r (record s { world = w }) = ap (compared s) e in
          subst (λ o. Ensures Q (o >>= k)) (sym goes)
            (g r w (λ o. let (w', f) = o.total s.world a b in first (sym e ∙ f)))
    ]
      where
        some≢none : {x : Bool × W} → ¬ (some x ≡ none)
        some≢none e = cc

        first :
            {x y : Bool} {u v : W} → ◌≡◌ {A = Option (Bool × W)} (some (x, u)) (some (y, v)) → x ≡ y
        first e = cc

    pub index-bind :
        {B : Type 0} (Q : B → State V W → Type 0) (d : V) (i : ℕ) (s : State V W)
        (k : V → State V W → Outcome V W B)
        → 0 < i
        → i ≤ length s.items
        → Ensures Q (k (at d s i) s)
        → Ensures Q (index_item i s >>= k)
    unfolding index_item
    index-bind Q d zero s k pos le h = absurd (omega arith)
    index-bind Q d (suc i) s k pos le h =
        let back : suc i - 1 ≡ i = omega arith in
        subst (λ o. Ensures Q (o >>= k)) (sym (ap (λ o. found_item o s) (read_there s.items i le)))
          (subst (λ n. Ensures Q (k (get_or s.items n d) s)) back h)
      where
        read_there : (l : List V) (i : ℕ) → i < length l → get_elem? l i ≡ some (get_or l i d)
        read_there [] i lt = absurd (omega arith)
        read_there (x ∷ l) zero lt = refl
        read_there (x ∷ l) (suc i) lt = read_there l i (omega arith)
