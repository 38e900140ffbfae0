-- ===== src/TableLib/Sort/Inner.antt =====
-- The inner loops of `partition` stay within the range and stop at the first item on the wrong side
-- (src/builtin/table/mod.rs).
use mathlib.Core.List.{Perm}
use mathlib.Core.Path.{subst}
use tsuki.Base.{
  ℕ, zero, suc, ◌+◌, ◌-◌, ◌^◌, ◌≤◌, ◌<◌, ◌≡◌, ◌≢◌, refl, sym, ap, ◌∙◌, inl, inr, arith, Bool, true,
  false, Option, List, length, ◌==◌, ltb, Bool-cases,
}
use tsuki.TableLib.Sort.{
  State, ok, fail, invalid_order, next_up, next_down, wrapping_add, wrapping_sub,
}
use tsuki.TableLib.Sort.Moves.{at, nth}
use tsuki.TableLib.Sort.Ensures.{
  IsOrder, Le, Le-refl, Ensures, Ensures-map, compare-bind, index-bind, wrapping_sub-le,
  wrapping_add-lt,
}

module _ {V : Type 0} {W : Type 0} (compare : W → V → V → Option (Bool × W)) (lt : V → V → Bool)
    (xs : List V) (d : V) where
  abbrev Legal : Type 0
  Legal = IsOrder compare lt

  -- What stands between `i` and the item where `next_up` stops goes before `a`.
  pub record Upped (a : V) (up i : ℕ) (l : List V) (r : ℕ × V) (t : State V W) : Type 0 where
    pub same : t.items ≡ l
    pub above : i < r.0
    pub below : r.0 < up
    pub found : r.1 ≡ nth d l r.0
    pub stopped : Legal → Le compare lt a r.1
    pub passed : Legal → (k : ℕ) → i < k → k < r.0 → Le compare lt (nth d l k) a

  up_last :
      (n : ℕ) (a : V) (up i' m : ℕ) (s : State V W) (q : Bool)
      → (i' == m) ≡ q
      → Perm s.items xs
      → at d s m ≡ a
      → (Legal → true ≡ lt (at d s i') a)
      → (P : ℕ × V → State V W → Type 0)
      → (i' ≢ m → Ensures compare lt xs P (next_up compare n a up i' s))
      → Ensures compare lt xs P
          (elim q [ true ↦ fail invalid_order s | false ↦ next_up compare n a up i' s ])
  up_last n a up i' m s true e p last says P rec = (
    tt,
    p,
    λ o.
        let here : i' ≡ m = ground arith in
        let alike : at d s i' ≡ a = ap (at d s) here ∙ last in
        let less : true ≡ lt a a = says o ∙ ap (λ b. lt b a) alike in
        let not_less = Le-refl compare lt o a in cc,
  )
  up_last n a up i' m s false e p last says P rec = rec (ground arith)

  up_case :
      (n : ℕ) (a : V) (up i i' m : ℕ) (s : State V W)
      → i' ≡ i + 1
      → m ≡ up - 1
      → i' < up
      → Perm s.items xs
      → at d s m ≡ a
      → (r : Bool) → (Legal → r ≡ lt (at d s i') a)
      → (i' + 1 < up → Ensures compare lt xs (Upped a up i' s.items) (next_up compare n a up i' s))
      → Ensures compare lt xs (Upped a up i s.items) (elim r [
        | false ↦ ok (i', at d s i') s
        | true ↦ elim (i' == m) [
          | true ↦ fail invalid_order s
          | false ↦ next_up compare n a up i' s
        ]
      ])
  up_case n a up i i' m s ei em lu p last false says rec = record {
    same = refl;
    above = omega arith;
    below = lu;
    found = refl;
    stopped = λ o. sym (says o);
    passed = λ o k lo hi. absurd (omega arith);
  }
  up_case n a up i i' m s ei em lu p last true says rec =
      up_last n a up i' m s (i' == m) refl p last says (Upped a up i s.items) (λ ne.
        Ensures-map compare lt xs (Upped a up i' s.items) (Upped a up i s.items)
          (next_up compare n a up i' s) (rec (omega (arith, ne, em, lu)))
          (λ r t u. record {
            same = u.same;
            above = omega (arith, u.above, ei);
            below = u.below;
            found = u.found;
            stopped = u.stopped;
            passed = λ o k lo hi. elim (Bool-cases (k == i')) [
              | inl e ↦
                  let here : k ≡ i' = ground arith in
                  subst (λ x. Le compare lt (at d s x) a) (sym here)
                    (o.asym (at d s i') a (sym (says o)))
              | inr e ↦ u.passed o k (ground arith) hi
            ];
          }))

  pub next_up-Ensures :
      (n : ℕ) (a : V) (up i : ℕ) (s : State V W)
      → Perm s.items xs
      → i + 1 < up
      → up ≤ length s.items
      → up < 2 ^ 32
      → up ≤ i + 1 + n
      → at d s (up - 1) ≡ a
      → Ensures compare lt xs (Upped a up i s.items) (next_up compare n a up i s)
  unfolding next_up
  next_up-Ensures zero a up i s p room le small fuel last = absurd (omega arith)
  next_up-Ensures (suc n) a up i s p room le small fuel last =
      let ei = wrapping_add-lt i 1 (omega (arith, room, small)) in
      let em = wrapping_sub-le up 1 (omega (arith, room)) small in
      let i' = wrapping_add i 1 in
      index-bind compare lt xs (Upped a up i s.items) d i' s _ (omega (arith, ei))
        (omega (arith, ei, room, le))
        (compare-bind compare lt xs (Upped a up i s.items) (at d s i') a s _ p (λ r w says.
          up_case n a up i i' (wrapping_sub up 1) (record s { world = w }) ei em
            (omega (arith, ei, room)) p (ap (at d s) em ∙ last) r says
            (λ more.
              next_up-Ensures n a up i' (record s { world = w }) p more le small
                (omega (arith, ei, fuel)) last)))

  -- What stands between the item where `next_down` stops and `j` goes after `a`.
  pub record Downed (a : V) (lo j : ℕ) (l : List V) (r : ℕ × V) (t : State V W) : Type 0 where
    pub same : t.items ≡ l
    pub below : r.0 < j
    pub above : lo ≤ r.0
    pub found : r.1 ≡ nth d l r.0
    pub stopped : Legal → Le compare lt r.1 a
    pub passed : Legal → (k : ℕ) → r.0 < k → k < j → Le compare lt a (nth d l k)

  -- The items from `lo` up to `i` go before `a`.
  abbrev pub LowPart : V → ℕ → ℕ → List V → Type 0
  LowPart a lo i l = Legal → (k : ℕ) → lo ≤ k → k < i → Le compare lt (nth d l k) a

  down_last :
      (n : ℕ) (a : V) (lo i j' : ℕ) (s : State V W) (q : Bool)
      → ltb j' i ≡ q
      → lo ≤ j'
      → Perm s.items xs
      → LowPart a lo i s.items
      → (Legal → true ≡ lt a (at d s j'))
      → (P : ℕ × V → State V W → Type 0)
      → (i ≤ j' → Ensures compare lt xs P (next_down compare n a i j' s))
      → Ensures compare lt xs P
          (elim q [ true ↦ fail invalid_order s | false ↦ next_down compare n a i j' s ])
  down_last n a lo i j' s true e low p before says P rec = (
    tt,
    p,
    λ o.
        let small : j' < i = ground arith in
        let less = says o in let not_less = before o j' low small in cc,
  )
  down_last n a lo i j' s false e low p before says P rec = rec (ground arith)

  down_case :
      (n : ℕ) (a : V) (lo i j j' : ℕ) (s : State V W)
      → j' + 1 ≡ j
      → lo ≤ j'
      → Perm s.items xs
      → LowPart a lo i s.items
      → (r : Bool) → (Legal → r ≡ lt a (at d s j'))
      → (i ≤ j' → Ensures compare lt xs (Downed a lo j' s.items) (next_down compare n a i j' s))
      → Ensures compare lt xs (Downed a lo j s.items) (elim r [
        | false ↦ ok (j', at d s j') s
        | true ↦ elim (ltb j' i) [
          | true ↦ fail invalid_order s
          | false ↦ next_down compare n a i j' s
        ]
      ])
  down_case n a lo i j j' s ej low p before false says rec = record {
    same = refl;
    below = omega arith;
    above = low;
    found = refl;
    stopped = λ o. sym (says o);
    passed = λ o k from to. absurd (omega arith);
  }
  down_case n a lo i j j' s ej low p before true says rec =
      down_last n a lo i j' s (ltb j' i) refl low p before says (Downed a lo j s.items) (λ le.
        Ensures-map compare lt xs (Downed a lo j' s.items) (Downed a lo j s.items)
          (next_down compare n a i j' s) (rec le)
          (λ r t u. record {
            same = u.same;
            below = omega (arith, u.below, ej);
            above = u.above;
            found = u.found;
            stopped = u.stopped;
            passed = λ o k from to. elim (Bool-cases (k == j')) [
              | inl e ↦
                  let here : k ≡ j' = ground arith in
                  subst (λ x. Le compare lt a (at d s x)) (sym here)
                    (o.asym a (at d s j') (sym (says o)))
              | inr e ↦ u.passed o k from (ground arith)
            ];
          }))

  pub next_down-Ensures :
      (n : ℕ) (a : V) (lo i j : ℕ) (s : State V W)
      → Perm s.items xs
      → 0 < lo
      → lo < j
      → j ≤ length s.items
      → j < 2 ^ 32
      → lo < i
      → 0 < n
      → j + 1 ≤ i + n
      → LowPart a lo i s.items
      → Ensures compare lt xs (Downed a lo j s.items) (next_down compare n a i j s)
  unfolding next_down
  next_down-Ensures zero a lo i j s p pos room le small inside some_left fuel before =
      absurd (omega arith)
  next_down-Ensures (suc n) a lo i j s p pos room le small inside some_left fuel before =
      let ej = wrapping_sub-le j 1 (omega (arith, room)) small in
      let j' = wrapping_sub j 1 in
      index-bind compare lt xs (Downed a lo j s.items) d j' s _ (omega (arith, ej, room, pos))
        (omega (arith, ej, le))
        (compare-bind compare lt xs (Downed a lo j s.items) a (at d s j') s _ p (λ r w says.
          down_case n a lo i j j' (record s { world = w }) (omega (arith, ej, room))
            (omega (arith, ej, room)) p before r says
            (λ more.
              next_down-Ensures n a lo i j' (record s { world = w }) p pos
                (omega (arith, inside, more)) (omega (arith, ej, le)) (omega (arith, ej, small))
                inside (omega (arith, ej, more, fuel)) (omega (arith, ej, fuel, room)) before)))
