-- ===== src/TableLib/Sort/Ends.antt =====
-- The ends of the range and the pivot between them are put in order (src/builtin/table/mod.rs).
use mathlib.Core.List.{Perm}
use native.Mathlib.Nat.{mod-lt}
use tsuki.Base.{
  ℕ, ◌+◌, ◌-◌, ◌*◌, ◌/◌, ◌%◌, ◌^◌, ◌≤◌, ◌<◌, ◌≡◌, refl, sym, arith, Bool, true, false, ◌||◌, Option,
  List, length, ◌==◌, ltb, if◌then◌else◌,
}
use tsuki.TableLib.Sort.{
  State, ok, ◌>>=◌, index_item, set_item, sort_comp, order_ends, order_pivot, pivot_of,
  choose_pivot, wrapping_add, wrapping_sub,
}
use tsuki.TableLib.Sort.Moves.{at, at-exchanged, exchanged-Moves, Moves, Moves-refl}
use tsuki.TableLib.Sort.Ensures.{
  IsOrder, Le, Ensures, compare-bind, index-bind, wrapping_sub-le, wrapping_add-lt,
}

-- The pivot lies within the range.
pub record IsInside (lo up p : ℕ) : Type 0 where
  pub above : lo < p
  pub below : p < up

choose_pivot-IsInside :
    (lo up rnd : ℕ) → lo + 100 ≤ up → up < 2 ^ 31 → IsInside lo up (choose_pivot lo up rnd)
unfolding choose_pivot
choose_pivot-IsInside lo up rnd room small =
    let width = wrapping_sub-le up lo (omega (arith, room)) (omega (arith, small)) in
    let r4 = wrapping_sub up lo / 4 in
    let many : 25 ≤ r4 = omega (arith, width, room) in
    let few : r4 * 4 ≤ up - lo = omega (arith, width) in
    let part = mod-lt rnd {m = r4 * 2} (omega (arith, many)) in
    let first = wrapping_add-lt lo r4 (omega (arith, few, small)) in
    let whole =
      wrapping_add-lt (rnd % (r4 * 2)) (wrapping_add lo r4)
        (omega (arith, part, first, few, small)) in
    record {
      above = omega (arith, whole, first, many);
      below = omega (arith, whole, first, part, few, many, room);
    }

pub pivot_of-IsInside :
    (lo up rnd : ℕ) → lo + 1 < up → up < 2 ^ 31 → IsInside lo up (pivot_of lo up rnd)
unfolding pivot_of
pivot_of-IsInside lo up rnd room small = inside (ltb (up - lo) 100 || rnd == 0) refl
  where
    inside :
        (b : Bool)
        → (ltb (up - lo) 100 || rnd == 0) ≡ b
        → IsInside lo up (if b then wrapping_add lo up / 2 else choose_pivot lo up rnd)
    inside true e = record { above = omega arith; below = omega arith }
    inside false e = choose_pivot-IsInside lo up rnd (ground arith) small

module _ {V : Type 0} {W : Type 0} (compare : W → V → V → Option (Bool × W)) (lt : V → V → Bool)
    (xs : List V) (d : V) where
  abbrev Legal : Type 0
  Legal = IsOrder compare lt

  -- The ends are in order.
  pub record EndsOrdered (lo up : ℕ) (l : List V) (t : State V W) : Type 0 where
    pub moves : Moves d lo up l t.items
    pub ends : Legal → Le compare lt (at d t lo) (at d t up)

  ends_case :
      (lo up : ℕ) (s : State V W) (r : Bool)
      → 0 < lo
      → lo < up
      → up ≤ length s.items
      → (Legal → r ≡ lt (at d s up) (at d s lo))
      → Ensures compare lt xs
          (λ _ t. EndsOrdered lo up s.items t)
          (elim r [
            | true ↦ ok true (set_item up (at d s lo) (set_item lo (at d s up) s))
            | false ↦ ok false s
          ])
  ends_case lo up s false pos room size says = record {
    moves = Moves-refl d lo up s.items;
    ends = λ o. sym (says o);
  }
  ends_case lo up s true pos room size says =
      let there =
        at-exchanged d lo up s pos (omega (arith, room)) (omega (arith, room, size)) size in
      record {
        moves =
            exchanged-Moves d lo up s pos (omega (arith, room)) (omega (arith, room, size)) size lo
              up pos (omega arith) (omega (arith, room)) (omega (arith, room)) (omega arith);
        ends = λ o.
            let less = o.asym (at d s up) (at d s lo) (sym (says o)) in
            let first = there lo pos in
            let last = there up (omega (arith, room)) in ground (arith, less, first, last);
      }

  pub order_ends-EndsOrdered :
      (lo up : ℕ) (s : State V W)
      → Perm s.items xs
      → 0 < lo
      → lo < up
      → up ≤ length s.items
      → Ensures compare lt xs (λ _ t. EndsOrdered lo up s.items t) (order_ends compare lo up s)
  unfolding order_ends
  order_ends-EndsOrdered lo up s p pos room size =
      let Q : Bool → State V W → Type 0 = λ _ t. EndsOrdered lo up s.items t in
      index-bind compare lt xs Q d up s _ (omega (arith, room)) size (
        index-bind compare lt xs Q d lo s _ pos (omega (arith, room, size)) (
          compare-bind compare lt xs Q (at d s up) (at d s lo) s _ p
            (λ r w says. ends_case lo up (record s { world = w }) r pos room size says)))

  -- The ends and the pivot are in order.
  pub record PivotOrdered (lo up p : ℕ) (l : List V) (t : State V W) : Type 0 where
    pub moves : Moves d lo up l t.items
    pub low : Legal → Le compare lt (at d t lo) (at d t p)
    pub high : Legal → Le compare lt (at d t p) (at d t up)

  more_case :
      (lo up p : ℕ) (s : State V W) (r : Bool)
      → 0 < lo
      → IsInside lo up p
      → up ≤ length s.items
      → (Legal → Le compare lt (at d s lo) (at d s up))
      → (Legal → Le compare lt (at d s lo) (at d s p))
      → (Legal → r ≡ lt (at d s up) (at d s p))
      → Ensures compare lt xs
          (λ _ t. PivotOrdered lo up p s.items t)
          (elim r [
            | true ↦ ok true (set_item up (at d s p) (set_item p (at d s up) s))
            | false ↦ ok false s
          ])
  more_case lo up p s false pos inside size ends low says = record {
    moves = Moves-refl d lo up s.items;
    low = low;
    high = λ o. sym (says o);
  }
  more_case lo up p s true pos inside size ends low says =
      let a = inside.above in
      let b = inside.below in
      let there =
        at-exchanged d p up s (omega (arith, a)) (omega (arith, a, b)) (omega (arith, b, size))
          size in
      record {
        moves =
            exchanged-Moves d p up s (omega (arith, a)) (omega (arith, a, b))
              (omega (arith, b, size)) size lo up pos (omega (arith, a)) (omega (arith, b))
              (omega (arith, a, b)) (omega arith);
        low = λ o.
            let before = ends o in
            let first = there lo pos in
            let middle = there p (omega (arith, a)) in ground (arith, before, first, middle, a, b);
        high = λ o.
            let less = o.asym (at d s up) (at d s p) (sym (says o)) in
            let middle = there p (omega (arith, a)) in
            let last = there up (omega (arith, a, b)) in ground (arith, less, middle, last, a, b);
      }

  pivot_case :
      (lo up p : ℕ) (s : State V W) (r : Bool)
      → Perm s.items xs
      → 0 < lo
      → IsInside lo up p
      → up ≤ length s.items
      → (Legal → Le compare lt (at d s lo) (at d s up))
      → (Legal → r ≡ lt (at d s p) (at d s lo))
      → Ensures compare lt xs
          (λ _ t. PivotOrdered lo up p s.items t)
          (elim r [
            | true ↦ ok true (set_item lo (at d s p) (set_item p (at d s lo) s))
            | false ↦ index_item up s >>= λ c w. sort_comp compare c (at d s p) w >>= λ more x.
                elim more [
                  | true ↦ ok true (set_item up (at d s p) (set_item p c x))
                  | false ↦ ok false x
                ]
          ])
  pivot_case lo up p s false pm pos inside size ends says =
      let Q : Bool → State V W → Type 0 = λ _ t. PivotOrdered lo up p s.items t in
      let low : Legal → Le compare lt (at d s lo) (at d s p) = λ o. sym (says o) in
      index-bind compare lt xs Q d up s _ (omega (arith, inside.above, inside.below)) size (
        compare-bind compare lt xs Q (at d s up) (at d s p) s _ pm (λ r w says'.
          more_case lo up p (record s { world = w }) r pos inside size ends low says'))
  pivot_case lo up p s true pm pos inside size ends says =
      let a = inside.above in
      let b = inside.below in
      let there =
        at-exchanged d p lo s (omega (arith, a)) pos (omega (arith, b, size))
          (omega (arith, a, b, size)) in
      record {
        moves =
            exchanged-Moves d p lo s (omega (arith, a)) pos (omega (arith, b, size))
              (omega (arith, a, b, size)) lo up pos (omega (arith, a)) (omega (arith, b))
              (omega arith) (omega (arith, a, b));
        low = λ o.
            let less = o.asym (at d s p) (at d s lo) (sym (says o)) in
            let first = there lo pos in
            let middle = there p (omega (arith, a)) in ground (arith, less, first, middle, a, b);
        high = λ o.
            let before = ends o in
            let middle = there p (omega (arith, a)) in
            let last = there up (omega (arith, a, b)) in ground (arith, before, middle, last, a, b);
      }

  pub order_pivot-PivotOrdered :
      (lo up p : ℕ) (s : State V W)
      → Perm s.items xs
      → 0 < lo
      → IsInside lo up p
      → up ≤ length s.items
      → (Legal → Le compare lt (at d s lo) (at d s up))
      → Ensures compare lt xs
          (λ _ t. PivotOrdered lo up p s.items t)
          (order_pivot compare lo up p s)
  unfolding order_pivot
  order_pivot-PivotOrdered lo up p s pm pos inside size ends =
      let Q : Bool → State V W → Type 0 = λ _ t. PivotOrdered lo up p s.items t in
      index-bind compare lt xs Q d p s _ (omega (arith, inside.above))
        (omega (arith, inside.below, size))
        (index-bind compare lt xs Q d lo s _ pos (omega (arith, inside.above, inside.below, size)) (
          compare-bind compare lt xs Q (at d s p) (at d s lo) s _ pm (λ r w says.
            pivot_case lo up p (record s { world = w }) r pm pos inside size ends says)))
