-- ===== src/TableLib/Sort/SplitAt.antt =====
-- The pivot goes next to the end of the range before `partition` (src/builtin/table/mod.rs).
use mathlib.Core.List.{Perm}
use mathlib.Core.List.Perm
use mathlib.Core.Path.{subst}
use tsuki.Base.{
  ℕ, ◌+◌, ◌-◌, ◌^◌, ◌≤◌, ◌<◌, ◌≡◌, sym, ap, ◌∙◌, arith, Bool, false, Option, List, length, ◌==◌,
  Bool-cases, inl, inr,
}
use tsuki.TableLib.Sort.{State, set_item, split_at, partition, wrapping_sub}
use tsuki.TableLib.Sort.Moves.{at, exchanged, at-exchanged, exchanged-Moves}
use tsuki.TableLib.Sort.Ensures.{
  IsOrder, Le, Le-refl, Ensures, Ensures-map, index-bind, wrapping_sub-le,
}
use tsuki.TableLib.Sort.Partition.{Head, Split, Split-after, partition-Split}
use tsuki.TableLib.Sort.Ends.{IsInside}

module _ {V : Type 0} {W : Type 0} (compare : W → V → V → Option (Bool × W)) (lt : V → V → Bool)
    (xs : List V) (d : V) where
  abbrev Legal : Type 0
  Legal = IsOrder compare lt

  -- The pivot goes next to the end, and the rest is partitioned.
  pub split_at-Split :
      (lo up p : ℕ) (s : State V W)
      → Perm s.items xs
      → 0 < lo
      → lo + 2 < up
      → up < 2 ^ 31
      → up ≤ length s.items
      → IsInside lo up p
      → (Legal → Le compare lt (at d s lo) (at d s p))
      → (Legal → Le compare lt (at d s p) (at d s up))
      → Ensures compare lt xs
          (Split compare lt xs d (at d s p) lo up s.items)
          (split_at compare (up - lo) lo up p s)
  unfolding split_at
  split_at-Split lo up p s pm pos room small size inside low high =
      let a = inside.above in
      let b = inside.below in
      let em = wrapping_sub-le up 1 (omega (arith, room)) (omega (arith, small)) in
      let u = exchanged d p (up - 1) s in
      let Q = Split compare lt xs d (at d s p) lo up s.items in
      let there =
        at-exchanged d p (up - 1) s (omega (arith, a)) (omega (arith, room))
          (omega (arith, b, size)) (omega (arith, size)) in
      let moved =
        exchanged-Moves d p (up - 1) s (omega (arith, a)) (omega (arith, room))
          (omega (arith, b, size)) (omega (arith, size)) lo up pos (omega (arith, a))
          (omega (arith, b)) (omega (arith, room)) (omega arith) in
      let head : Head compare lt xs d (at d s p) lo up lo (up - 1) u.items = record {
        perm = Perm.trans moved.perm pm;
        positive = pos;
        last = let here = there (up - 1) (omega (arith, room)) in ground (arith, here);
        from_lo = omega arith;
        room = omega (arith, room);
        down_to = omega (arith, room);
        before_up = omega (arith, room);
        size = omega (arith, moved.size, size);
        low = λ o k from to.
            let same : k ≡ lo = omega (arith, from, to) in
            let here = there k (omega (arith, pos, from)) in
            let before = ap (λ x. lt (at d s p) (at d s x)) same ∙ low o in
            ground (arith, here, before, same, a, room);
        high = λ o k from to.
            let here = there k (omega (arith, room, from)) in
            let self = Le-refl compare lt o (at d s p) in
            let last : k ≡ up → lt (at d s k) (at d s p) ≡ false =
              λ same. ap (λ x. lt (at d s x) (at d s p)) same ∙ high o in
            elim (Bool-cases (k == up - 1)) [
              | inl e ↦ ground (arith, here, self)
              | inr e ↦ let after = last (ground arith) in ground (arith, here, after, b)
            ];
      } in
      let goes =
        Ensures-map compare lt xs (Split compare lt xs d (at d s p) lo up u.items) Q
          (partition compare (up - lo) (at d s p) lo up u)
          (partition-Split compare lt xs d (up - lo) (at d s p) lo up u head (omega (arith, small))
            (omega arith))
          (λ q t. Split-after compare lt xs d (at d s p) lo up s.items u.items q t moved) in
      index-bind compare lt xs Q d p s _ (omega (arith, a)) (omega (arith, b, size)) (
        index-bind compare lt xs Q d (wrapping_sub up 1) s _ (omega (arith, em, room))
          (omega (arith, em, size))
          (subst
            (λ m. Ensures compare lt xs Q (
              partition compare (up - lo) (at d s p) lo up
                (set_item m (at d s p) (set_item p (at d s m) s))))
            (sym em) goes))
