-- ===== src/TableLib/Sort/Sorted.antt =====
-- `auxsort` ends within the table, keeps its items, and sorts them when the comparison is an order
-- (src/builtin/table/mod.rs).
use mathlib.Core.List.{Perm}
use mathlib.Core.List.Perm
use mathlib.Core.Path.{subst, ap₂}
use tsuki.Base.{
  ℕ, zero, suc, ◌+◌, ◌-◌, ◌/◌, ◌^◌, ◌≤◌, ◌<◌, ◌≡◌, refl, sym, ◌∙◌, arith, Bool, true, false, Option,
  List, length, ◌==◌, ltb, Bool-cases, if◌then◌else◌, inl, inr,
}
use tsuki.TableLib.Sort.{
  State, Outcome, ok, ◌>>=◌, order_ends, order_pivot, pivot_of, split_at, next_random, sort_sides,
  sort_round, auxsort, Sorter, wrapping_add, wrapping_sub,
}
use tsuki.TableLib.Sort.Moves.{at, Moves-refl, Moves-trans}
use tsuki.TableLib.Sort.Ensures.{
  IsOrder, Ensures, Ensures-bind, Ensures-map, wrapping_sub-le, wrapping_add-lt,
}
use tsuki.TableLib.Sort.Partition.{Split, Split-after}
use tsuki.TableLib.Sort.Ends.{
  IsInside, pivot_of-IsInside, EndsOrdered, PivotOrdered, order_ends-EndsOrdered,
  order_pivot-PivotOrdered,
}
use tsuki.TableLib.Sort.Around.{Sorts, Around, left_first, right_first}
use tsuki.TableLib.Sort.SplitAt.{split_at-Split}

module _ {V : Type 0} {W : Type 0} (compare : W → V → V → Option (Bool × W)) (lt : V → V → Bool)
    (xs : List V) (d : V) where
  abbrev pub Legal : Type 0
  Legal = IsOrder compare lt

  abbrev pub Sorted : ℕ → ℕ → List V → Unit {0} → State V W → Type 0
  Sorted lo up l _ t = Sorts compare lt d lo up l t.items

  module _ (random : W → ℕ × W) where
    -- What a sorter promises for ranges up to a length.
    abbrev SortsAll : ℕ → Sorter compare random → Type 0
    SortsAll n rec =
        (lo up rnd : ℕ) (s : State V W)
        → Perm s.items xs
        → 0 < lo
        → lo ≤ up
        → up < lo + n
        → up < 2 ^ 31
        → up ≤ length s.items
        → Ensures compare lt xs (Sorted lo up s.items) (rec lo up rnd s)

    Split-Around :
        (a : V) (lo up p : ℕ) (l : List V) (t : State V W)
        → Split compare lt xs d a lo up l p t
        → Around compare lt d a lo p up t.items
    Split-Around a lo up p l t h = record {
      low = h.low;
      middle = h.middle;
      high = λ o k from to. h.high o k (omega (arith, from)) to;
    }

    -- The random number changes the state of the generator only.
    random-bind :
        (Q : Unit {0} → State V W → Type 0) (lo up n rnd : ℕ) (s : State V W)
        (k : ℕ → State V W → Outcome V W (Unit {0}))
        → ((r : ℕ) (w : W) → Ensures compare lt xs Q (k r (record s { world = w })))
        → Ensures compare lt xs Q (next_random compare random lo up n rnd s >>= k)
    unfolding next_random
    random-bind Q lo up n rnd s k g = drawn (ltb n (wrapping_sub up lo / 128))
      where
        drawn :
            (b : Bool)
            → Ensures compare lt xs Q (
                (if b
                  then (let (r, w) = random s.world in ok r (record s { world = w }))
                  else ok rnd s)
                >>= k)
        drawn true = g (random s.world).0 (random s.world).1
        drawn false = g rnd s.world

    sides_case :
        (rec : Sorter compare random) (lo up rnd p : ℕ) (l : List V) (s : State V W) (q : Bool)
        (Q : Unit {0} → State V W → Type 0)
        → length s.items ≡ length l
        → Perm s.items xs
        → ((t : State V W) (r : ℕ)
            → Perm t.items xs
            → length t.items ≡ length l
            → Ensures compare lt xs (Sorted lo (p - 1) t.items) (rec lo (wrapping_sub p 1) r t))
        → ((t : State V W) (r : ℕ)
            → Perm t.items xs
            → length t.items ≡ length l
            → Ensures compare lt xs (Sorted (p + 1) up t.items) (rec (wrapping_add p 1) up r t))
        → ((m n : State V W)
            → Sorts compare lt d lo (p - 1) s.items m.items
            → Sorts compare lt d (p + 1) up m.items n.items
            → Q tt n)
        → ((m n : State V W)
            → Sorts compare lt d (p + 1) up s.items m.items
            → Sorts compare lt d lo (p - 1) m.items n.items
            → Q tt n)
        → Ensures compare lt xs Q (elim q [
          | true ↦ rec lo (wrapping_sub p 1) rnd s >>= λ _ t.
              next_random compare random (wrapping_add p 1) up (wrapping_sub p lo) rnd t >>= λ r u.
              rec (wrapping_add p 1) up r u
          | false ↦ rec (wrapping_add p 1) up rnd s >>= λ _ t.
              next_random compare random lo (wrapping_sub p 1) (wrapping_sub up p) rnd t >>= λ r u.
              rec lo (wrapping_sub p 1) r u
        ])
    sides_case rec lo up rnd p l s true Q len perm left right lf rf =
        Ensures-bind compare lt xs (Sorted lo (p - 1) s.items) Q (rec lo (wrapping_sub p 1) rnd s) _
          (left s rnd perm len)
          (λ _ t h. random-bind Q (wrapping_add p 1) up (wrapping_sub p lo) rnd t _ (λ r w.
            Ensures-map compare lt xs (Sorted (p + 1) up t.items) Q
              (rec (wrapping_add p 1) up r (record t { world = w }))
              (right (record t { world = w }) r (Perm.trans h.moves.perm perm) (h.moves.size ∙ len))
              (λ _ u k. lf t u h k)))
    sides_case rec lo up rnd p l s false Q len perm left right lf rf =
        Ensures-bind compare lt xs (Sorted (p + 1) up s.items) Q (rec (wrapping_add p 1) up rnd s) _
          (right s rnd perm len)
          (λ _ t h. random-bind Q lo (wrapping_sub p 1) (wrapping_sub up p) rnd t _ (λ r w.
            Ensures-map compare lt xs (Sorted lo (p - 1) t.items) Q
              (rec lo (wrapping_sub p 1) r (record t { world = w }))
              (left (record t { world = w }) r (Perm.trans h.moves.perm perm) (h.moves.size ∙ len))
              (λ _ u k. rf t u h k)))

    sides-Sorted :
        (n : ℕ) (rec : Sorter compare random) (a : V) (lo up rnd p : ℕ) (l : List V) (s : State V W)
        → SortsAll n rec
        → Perm l xs
        → 0 < lo
        → up < lo + suc n
        → up < 2 ^ 31
        → up ≤ length l
        → Split compare lt xs d a lo up l p s
        → Ensures compare lt xs (Sorted lo up l) (sort_sides compare random rec lo up rnd p s)
    unfolding sort_sides
    sides-Sorted n rec a lo up rnd p l s all pm pos fuel small size h =
        let e1 = wrapping_sub-le p 1 (omega (arith, h.above)) (omega (arith, h.below, small)) in
        let e2 = wrapping_add-lt p 1 (omega (arith, h.below, small)) in
        let around = Split-Around a lo up p l s h in
        let perm = Perm.trans h.moves.perm pm in
        let len : length s.items ≡ length l = h.moves.size in
        let whole : (m : State V W)
            → Sorts compare lt d lo up s.items m.items
            → Sorted lo up l tt m =
          λ m q. record {
            moves = Moves-trans d lo up l s.items m.items h.moves q.moves;
            sorted = q.sorted;
          } in
        let left : (t : State V W) (r : ℕ)
            → Perm t.items xs
            → length t.items ≡ length l
            → Ensures compare lt xs (Sorted lo (p - 1) t.items) (rec lo (wrapping_sub p 1) r t) =
          λ t r pt lt'.
            subst (λ q. Ensures compare lt xs (Sorted lo (p - 1) t.items) (rec lo q r t)) (sym e1)
              (all lo (p - 1) r t pt pos (omega (arith, h.above)) (omega (arith, fuel, h.below))
                (omega (arith, small, h.below)) (omega (arith, lt', size, h.below))) in
        let right : (t : State V W) (r : ℕ)
            → Perm t.items xs
            → length t.items ≡ length l
            → Ensures compare lt xs (Sorted (p + 1) up t.items) (rec (wrapping_add p 1) up r t) =
          λ t r pt lt'.
            subst (λ q. Ensures compare lt xs (Sorted (p + 1) up t.items) (rec q up r t)) (sym e2)
              (all (p + 1) up r t pt (omega arith) (omega (arith, h.below))
                (omega (arith, fuel, h.above)) small (omega (arith, lt', size))) in
        sides_case rec lo up rnd p l s (ltb (wrapping_sub p lo) (wrapping_sub up p))
          (Sorted lo up l) len perm left right
          (λ m n q r. whole n (
            left_first compare lt d a lo p up pos h.above h.below s.items m.items n.items around q
              r))
          (λ m n q r. whole n (
            right_first compare lt d a lo p up pos h.above h.below s.items m.items n.items around q
              r))

    -- After the pivot: two sides, unless it stands between two items only.
    second_case :
        (n : ℕ) (rec : Sorter compare random) (lo up rnd p : ℕ) (l : List V) (s : State V W)
        (q : Bool)
        → (up - lo == 2) ≡ q
        → SortsAll n rec
        → Perm l xs
        → 0 < lo
        → lo + 1 < up
        → up < lo + suc n
        → up < 2 ^ 31
        → up ≤ length l
        → IsInside lo up p
        → PivotOrdered compare lt xs d lo up p l s
        → Ensures compare lt xs (Sorted lo up l) (elim q [
          | true ↦ ok tt s
          | false ↦ split_at compare (up - lo) lo up p s >>= λ p' v.
              sort_sides compare random rec lo up rnd p' v
        ])
    second_case n rec lo up rnd p l s true e all pm pos room fuel small size inside h =
        let a = inside.above in
        let b = inside.below in
        let two : up ≡ lo + 2 = ground arith in
        let middle : p ≡ lo + 1 = omega (arith, a, b, two) in
        record {
          moves = h.moves;
          sorted = λ o i j from less to.
              let ends = o.trans (at d s lo) (at d s p) (at d s up) (h.low o) (h.high o) in
              let at_ends : (x y : ℕ)
                  → i ≡ x
                  → j ≡ y
                  → lt (at d s y) (at d s x) ≡ false
                  → lt (at d s j) (at d s i) ≡ false =
                λ x y ei ej h'. ap₂ (λ u v. lt (at d s v) (at d s u)) ei ej ∙ h' in
              elim (Bool-cases (i == lo)) [
                | inl f ↦ elim (Bool-cases (j == p)) [
                  | inl g ↦ at_ends lo p (ground arith) (ground arith) (h.low o)
                  | inr g ↦ at_ends lo up (ground arith) (ground arith) ends
                ]
                | inr f ↦ at_ends p up (ground arith) (ground arith) (h.high o)
              ];
        }
    second_case n rec lo up rnd p l s false e all pm pos room fuel small size inside h =
        let perm = Perm.trans h.moves.perm pm in
        let len : length s.items ≡ length l = h.moves.size in
        Ensures-bind compare lt xs (Split compare lt xs d (at d s p) lo up s.items) (Sorted lo up l)
          (split_at compare (up - lo) lo up p s) _
          (split_at-Split compare lt xs d lo up p s perm pos (ground arith) small
            (omega (arith, len, size)) inside h.low h.high)
          (λ p' v k.
            sides-Sorted n rec (at d s p) lo up rnd p' l v all pm pos fuel small size
              (Split-after compare lt xs d (at d s p) lo up l s.items p' v h.moves k))

    first_case :
        (n : ℕ) (rec : Sorter compare random) (lo up rnd : ℕ) (l : List V) (s : State V W)
        (q : Bool)
        → (up - lo == 1) ≡ q
        → SortsAll n rec
        → Perm l xs
        → 0 < lo
        → lo < up
        → up < lo + suc n
        → up < 2 ^ 31
        → up ≤ length l
        → EndsOrdered compare lt xs d lo up l s
        → Ensures compare lt xs (Sorted lo up l) (elim q [
          | true ↦ ok tt s
          | false ↦ order_pivot compare lo up (pivot_of lo up rnd) s >>= λ _ u.
              elim (up - lo == 2) [
                | true ↦ ok tt u
                | false ↦ split_at compare (up - lo) lo up (pivot_of lo up rnd) u >>= λ p' v.
                    sort_sides compare random rec lo up rnd p' v
              ]
        ])
    first_case n rec lo up rnd l s true e all pm pos room fuel small size h =
        let one : up ≡ lo + 1 = ground arith in
        record {
          moves = h.moves;
          sorted = λ o i j from less to.
              let first : i ≡ lo = omega (arith, from, less, to, one) in
              let last : j ≡ up = omega (arith, from, less, to, one) in
              ap₂ (λ x y. lt (at d s y) (at d s x)) first last ∙ h.ends o;
        }
    first_case n rec lo up rnd l s false e all pm pos room fuel small size h =
        let p = pivot_of lo up rnd in
        let wide : lo + 1 < up = ground arith in
        let inside = pivot_of-IsInside lo up rnd wide small in
        Ensures-bind compare lt xs (λ _ t. PivotOrdered compare lt xs d lo up p s.items t)
          (Sorted lo up l) (order_pivot compare lo up p s) _
          (order_pivot-PivotOrdered compare lt xs d lo up p s (Perm.trans h.moves.perm pm) pos
            inside (omega (arith, h.moves.size, size)) h.ends)
          (λ _ u k.
            second_case n rec lo up rnd p l u (up - lo == 2) refl all pm pos wide fuel small size
              inside
              (record {
                moves = Moves-trans d lo up l s.items u.items h.moves k.moves;
                low = k.low;
                high = k.high;
              }))

    round-Sorted :
        (n : ℕ) (rec : Sorter compare random) (lo up rnd : ℕ) (s : State V W)
        → SortsAll n rec
        → Perm s.items xs
        → 0 < lo
        → lo < up
        → up < lo + suc n
        → up < 2 ^ 31
        → up ≤ length s.items
        → Ensures compare lt xs (Sorted lo up s.items) (sort_round compare random rec lo up rnd s)
    unfolding sort_round
    round-Sorted n rec lo up rnd s all pm pos room fuel small size =
        Ensures-bind compare lt xs (λ _ t. EndsOrdered compare lt xs d lo up s.items t)
          (Sorted lo up s.items) (order_ends compare lo up s) _
          (order_ends-EndsOrdered compare lt xs d lo up s pm pos room size)
          (λ _ t h.
            first_case n rec lo up rnd s.items t (up - lo == 1) refl all pm pos room fuel small size
              h)

    range_case :
        (n lo up rnd : ℕ) (s : State V W) (q : Bool)
        → ltb lo up ≡ q
        → SortsAll n (auxsort compare random n)
        → Perm s.items xs
        → 0 < lo
        → up < lo + suc n
        → up < 2 ^ 31
        → up ≤ length s.items
        → Ensures compare lt xs (Sorted lo up s.items) (elim q [
          | true ↦ sort_round compare random (auxsort compare random n) lo up rnd s
          | false ↦ ok tt s
        ])
    range_case n lo up rnd s true e all pm pos fuel small size =
        round-Sorted n (auxsort compare random n) lo up rnd s all pm pos (ground arith) fuel small
          size
    range_case n lo up rnd s false e all pm pos fuel small size = record {
      moves = Moves-refl d lo up s.items;
      sorted = λ o i j from less to. absurd (ground (arith, from, less, to));
    }

    pub auxsort-Sorted : (n : ℕ) → SortsAll n (auxsort compare random n)
    unfolding auxsort
    auxsort-Sorted zero lo up rnd s pm pos le fuel small size = absurd (omega (arith, le, fuel))
    auxsort-Sorted (suc n) lo up rnd s pm pos le fuel small size =
        range_case n lo up rnd s (ltb lo up) refl (auxsort-Sorted n) pm pos fuel small size
