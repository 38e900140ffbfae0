-- ===== src/TableLib/Sort/Partition.antt =====
-- `partition` ends, stays within the range, and leaves the pivot between the smaller and the greater
-- items (src/builtin/table/mod.rs).
use mathlib.Core.List.{Perm}
use mathlib.Core.List.Perm
use mathlib.Core.Path.{subst, ap₂}
use tsuki.Base.{
  ℕ, zero, suc, ◌+◌, ◌-◌, ◌^◌, ◌≤◌, ◌<◌, ◌≡◌, refl, sym, ap, ◌∙◌, inl, inr, arith, Bool, true,
  false, Option, List, length, ◌==◌, ltb, Bool-cases,
}
use tsuki.TableLib.Sort.{
  State, Outcome, ok, next_up, next_down, partition_loop, partition, wrapping_sub, set_item,
}
use tsuki.TableLib.Sort.Moves.{
  at, nth, exchanged, at-exchanged, exchanged-Moves, Moves, Moves-trans,
}
use tsuki.TableLib.Sort.Ensures.{IsOrder, Le, Ensures, Ensures-map, Ensures-bind, wrapping_sub-le}
use tsuki.TableLib.Sort.Inner.{Upped, Downed, LowPart, next_up-Ensures, next_down-Ensures}

module _ {V : Type 0} {W : Type 0} (compare : W → V → V → Option (Bool × W)) (lt : V → V → Bool)
    (xs : List V) (d : V) where
  abbrev pub Legal : Type 0
  Legal = IsOrder compare lt

  -- The items from `j` to `up` go after `a`.
  abbrev pub HighPart : V → ℕ → ℕ → List V → Type 0
  HighPart a j up l = Legal → (k : ℕ) → j ≤ k → k ≤ up → Le compare lt a (nth d l k)

  abbrev pub Low : V → ℕ → ℕ → List V → Type 0
  Low = LowPart compare lt xs d

  -- The pivot `a` stands at `p`.
  pub record Split (a : V) (lo up : ℕ) (l : List V) (p : ℕ) (t : State V W) : Type 0 where
    pub moves : Moves d lo up l t.items
    pub above : lo < p
    pub below : p < up
    pub low : Low a lo p t.items
    pub middle : nth d t.items p ≡ a
    pub high : HighPart a (p + 1) up t.items

  -- The state at the head of the loop.
  pub record Head (a : V) (lo up i j : ℕ) (l : List V) : Type 0 where
    pub perm : Perm l xs
    pub positive : 0 < lo
    pub last : nth d l (up - 1) ≡ a
    pub from_lo : lo ≤ i
    pub room : i + 1 < up
    pub down_to : lo < j
    pub before_up : j < up
    pub size : up ≤ length l
    pub low : Low a lo (i + 1) l
    pub high : HighPart a j up l

  -- Where both loops stopped: the items between `lo` and `i'` and those after `j'`.
  record Stopped (a : V) (lo up i j i' j' : ℕ) (l : List V) : Type 0 where
    head : Head a lo up i j l
    up_above : i < i'
    up_below : i' < up
    down_below : j' < j
    down_above : lo ≤ j'
    low : Low a lo i' l
    high : HighPart a (j' + 1) up l
    at_up : Legal → Le compare lt a (nth d l i')
    at_down : Legal → Le compare lt (nth d l j') a

  both_Stopped :
      (a : V) (lo up i j : ℕ) (l : List V) (r q : ℕ × V) (t u : State V W)
      → Head a lo up i j l
      → Upped compare lt xs d a up i l r t
      → Downed compare lt xs d a lo j l q u
      → Stopped a lo up i j r.0 q.0 l
  both_Stopped a lo up i j l r q t u h m n = record {
    head = h;
    up_above = m.above;
    up_below = m.below;
    down_below = n.below;
    down_above = n.above;
    low = λ o k from to. elim (Bool-cases (ltb k (i + 1))) [
      | inl e ↦ h.low o k from (ground arith)
      | inr e ↦ m.passed o k (ground arith) to
    ];
    high = λ o k from to. elim (Bool-cases (ltb k j)) [
      | inl e ↦ n.passed o k (omega (arith, from)) (ground arith)
      | inr e ↦ h.high o k (ground arith) to
    ];
    at_up = λ o. subst (λ v. Le compare lt a v) m.found (m.stopped o);
    at_down = λ o. subst (λ v. Le compare lt v a) n.found (n.stopped o);
  }

  -- The pivot takes the place where the loops crossed.
  Stopped-Split :
      (a : V) (lo up i j i' j' : ℕ) (s : State V W)
      → Stopped a lo up i j i' j' s.items
      → j' < i'
      → Split a lo up s.items i' (exchanged d (up - 1) i' s)
  Stopped-Split a lo up i j i' j' s h crossed =
      let pos = h.head.positive in
      let there =
        at-exchanged d (up - 1) i' s (omega (arith, h.up_below, h.up_above))
          (omega (arith, h.up_above)) (omega (arith, h.head.size))
          (omega (arith, h.up_below, h.head.size)) in
      record {
        moves =
            exchanged-Moves d (up - 1) i' s (omega (arith, h.up_below, h.up_above))
              (omega (arith, h.up_above)) (omega (arith, h.head.size))
              (omega (arith, h.up_below, h.head.size)) lo up pos
              (omega (arith, h.up_below, h.up_above, h.head.from_lo)) (omega arith)
              (omega (arith, h.up_above, h.head.from_lo)) (omega (arith, h.up_below));
        above = omega (arith, h.up_above, h.head.from_lo);
        below = h.up_below;
        low = λ o k from to.
            let here = there k (omega (arith, pos, from)) in
            let before = h.low o k from to in
            let inside = h.up_below in ground (arith, here, before);
        middle =
            let here = there i' (omega (arith, h.up_above)) in ground (arith, here, h.head.last);
        high = λ o k from to.
            let here = there k (omega (arith, from)) in
            let after = h.high o k (omega (arith, from, crossed)) to in
            let other = h.at_up o in ground (arith, here, after, other);
      }

  -- The two items change places, and the loop goes on.
  Stopped-Head :
      (a : V) (lo up i j i' j' : ℕ) (s : State V W)
      → Stopped a lo up i j i' j' s.items
      → i' ≤ j'
      → Moves d lo up s.items (exchanged d i' j' s).items
        × Head a lo up i' j' (exchanged d i' j' s).items
  Stopped-Head a lo up i j i' j' s h le =
      let pos = h.head.positive in
      let pi : 0 < i' = omega (arith, h.up_above) in
      let pj : 0 < j' = omega (arith, le, h.up_above) in
      let li : i' ≤ length s.items = omega (arith, h.up_below, h.head.size) in
      let lj : j' ≤ length s.items = omega (arith, h.down_below, h.head.before_up, h.head.size) in
      let there = at-exchanged d i' j' s pi pj li lj in
      let moved =
        exchanged-Moves d i' j' s pi pj li lj lo up pos (omega (arith, h.up_above, h.head.from_lo))
          (omega (arith, h.up_below)) h.down_above
          (omega (arith, h.down_below, h.head.before_up)) in
      let below = h.down_below in
      let before_up = h.head.before_up in
      (
        moved,
        record {
          perm = Perm.trans moved.perm h.head.perm;
          positive = pos;
          last =
              let here = there (up - 1) (omega (arith, h.up_below, h.up_above)) in
              ground (arith, here, h.head.last);
          from_lo = omega (arith, h.up_above, h.head.from_lo);
          room = omega (arith, le, below, before_up);
          down_to = omega (arith, le, h.up_above, h.head.from_lo);
          before_up = omega (arith, below, before_up);
          size = omega (arith, moved.size, h.head.size);
          low = λ o k from to.
              let here = there k (omega (arith, pos, from)) in
              let found = h.at_down o in
              elim (Bool-cases (k == i')) [
                | inl e ↦
                    let same : k ≡ i' = ground arith in
                    let alike : i' ≡ j' → at d s i' ≡ at d s j' = ap (at d s) in
                    let now = there i' pi in
                    subst (λ x. Le compare lt (nth d (exchanged d i' j' s).items x) a) (sym same)
                      (elim (Bool-cases (i' == j')) [
                        | inl f ↦
                            let both = alike (ground arith) in ground (arith, now, found, both)
                        | inr f ↦ ground (arith, now, found)
                      ])
                | inr e ↦ let before = h.low o k from (ground arith) in ground (arith, here, before)
              ];
          high = λ o k from to.
              let here = there k (omega (arith, pj, from)) in
              let found = h.at_up o in
              elim (Bool-cases (k == j')) [
                | inl e ↦ ground (arith, here, found)
                | inr e ↦ let after = h.high o k (ground arith) to in ground (arith, here, after)
              ];
        },
      )

  pub Split-after :
      (a : V) (lo up : ℕ) (l m : List V) (p : ℕ) (t : State V W)
      → Moves d lo up l m
      → Split a lo up m p t
      → Split a lo up l p t
  Split-after a lo up l m p t moved h = record {
    moves = Moves-trans d lo up l m t.items moved h.moves;
    above = h.above;
    below = h.below;
    low = h.low;
    middle = h.middle;
    high = h.high;
  }

  -- The test after both inner loops.
  loop_case :
      (n : ℕ) (a : V) (lo up i j i' j' : ℕ) (b c : V) (u : State V W) (q : Bool)
      → Stopped a lo up i j i' j' u.items
      → b ≡ at d u i'
      → c ≡ at d u j'
      → ltb j' i' ≡ q
      → wrapping_sub up 1 ≡ up - 1
      → ((s : State V W)
          → Head a lo up i' j' s.items
          → Ensures compare lt xs (Split a lo up s.items) (partition_loop compare n a up i' j' s))
      → Ensures compare lt xs (Split a lo up u.items) (elim q [
        | true ↦ ok i' (set_item i' a (set_item (wrapping_sub up 1) b u))
        | false ↦ partition_loop compare n a up i' j' (set_item j' b (set_item i' c u))
      ])
  loop_case n a lo up i j i' j' b c u true h fb fc e em rec =
      let inner : set_item (wrapping_sub up 1) b u ≡ set_item (up - 1) (at d u i') u =
        ap₂ (λ m v. set_item m v u) em fb in
      let swapped : set_item i' a (set_item (wrapping_sub up 1) b u) ≡ exchanged d (up - 1) i' u =
        ap₂ (set_item i') (sym h.head.last) inner in
      subst (Split a lo up u.items i') (sym swapped)
        (Stopped-Split a lo up i j i' j' u h (ground arith))
  loop_case n a lo up i j i' j' b c u false h fb fc e em rec =
      let swapped : set_item j' b (set_item i' c u) ≡ exchanged d i' j' u =
        ap₂ (set_item j') fb (ap (λ v. set_item i' v u) fc) in
      let (moved, head) = Stopped-Head a lo up i j i' j' u h (ground arith) in
      subst
        (λ s. Ensures compare lt xs (Split a lo up u.items) (partition_loop compare n a up i' j' s))
        (sym swapped)
        (Ensures-map compare lt xs (Split a lo up (exchanged d i' j' u).items)
          (Split a lo up u.items) (partition_loop compare n a up i' j' (exchanged d i' j' u))
          (rec (exchanged d i' j' u) head)
          (λ p t. Split-after a lo up u.items (exchanged d i' j' u).items p t moved))

  abbrev after_loops : ℕ → V → ℕ → ℕ × V → ℕ × V → State V W → Outcome V W ℕ
  after_loops n a up r q u = elim (ltb q.0 r.0) [
    | true ↦ ok r.0 (set_item r.0 a (set_item (wrapping_sub up 1) r.1 u))
    | false ↦ partition_loop compare n a up r.0 q.0 (set_item q.0 r.1 (set_item r.0 q.1 u))
  ]

  loop-Split :
      (n : ℕ) (a : V) (lo up i j : ℕ) (s : State V W)
      → Head a lo up i j s.items
      → up < 2 ^ 32
      → up ≤ i + 1 + n
      → Ensures compare lt xs (Split a lo up s.items) (partition_loop compare n a up i j s)
  unfolding partition_loop
  loop-Split zero a lo up i j s h small fuel = absurd (omega (arith, fuel, h.room))
  loop-Split (suc n) a lo up i j s h small fuel =
      Ensures-bind compare lt xs (Upped compare lt xs d a up i s.items) (Split a lo up s.items)
        (next_up compare (suc n) a up i s) _
        (next_up-Ensures compare lt xs d (suc n) a up i s h.perm h.room h.size small
          (omega (arith, fuel)) h.last)
        (λ r t m.
          let i' = r.0 in
          let low : Low a lo i' t.items = subst (Low a lo i') (sym m.same) (λ o k from to.
            elim (Bool-cases (ltb k (i + 1))) [
              | inl e ↦ h.low o k from (ground arith)
              | inr e ↦ m.passed o k (ground arith) to
            ]) in
          let size : length t.items ≡ length s.items = ap length m.same in
          Ensures-bind compare lt xs (Downed compare lt xs d a lo j t.items) (Split a lo up s.items)
            (next_down compare (suc n) a i' j t) _
            (next_down-Ensures compare lt xs d (suc n) a lo i' j t
              (subst (λ l. Perm l xs) (sym m.same) h.perm) h.positive h.down_to
              (omega (arith, h.before_up, h.size, size)) (omega (arith, small, h.before_up))
              (omega (arith, m.above, h.from_lo)) (omega arith)
              (omega (arith, h.before_up, fuel, m.above)) low)
            (λ q u v.
              let eq : u.items ≡ s.items = v.same ∙ m.same in
              let down = subst (λ l. Downed compare lt xs d a lo j l q u) m.same v in
              let stopped =
                subst (Stopped a lo up i j r.0 q.0) (sym eq)
                  (both_Stopped a lo up i j s.items r q t u h m down) in
              subst (λ l. Ensures compare lt xs (Split a lo up l) (after_loops n a up r q u)) eq
                (loop_case n a lo up i j r.0 q.0 r.1 q.1 u (ltb q.0 r.0) stopped
                  (m.found ∙ ap (λ l. nth d l r.0) (sym eq))
                  (down.found ∙ ap (λ l. nth d l q.0) (sym eq)) refl
                  (wrapping_sub-le up 1 (omega (arith, h.room)) small)
                  (λ s' head.
                    loop-Split n a lo up r.0 q.0 s' head small (omega (arith, fuel, m.above))))))

  pub partition-Split :
      (n : ℕ) (a : V) (lo up : ℕ) (s : State V W)
      → Head a lo up lo (up - 1) s.items
      → up < 2 ^ 32
      → up ≤ lo + n
      → Ensures compare lt xs (Split a lo up s.items) (partition compare n a lo up s)
  unfolding partition
  partition-Split n a lo up s h small fuel =
      let em = wrapping_sub-le up 1 (omega (arith, h.room)) small in
      subst
        (λ j. Ensures compare lt xs (Split a lo up s.items) (partition_loop compare n a up lo j s))
        (sym em) (loop-Split n a lo up lo (up - 1) s h small (omega (arith, fuel)))
