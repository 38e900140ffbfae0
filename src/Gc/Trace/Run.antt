-- ===== src/Gc/Trace/Run.antt =====
-- The states of `step` in turn, from an idle collector to the end of the marking (src/gc/mod.rs).
use mathlib.Core.Path.{subst}
use tsuki.Base.{
  ℕ, ◌≤◌, ◌<◌, ◌≡◌, refl, sym, ap, ◌∙◌, inl, inr, arith, true, false, some, List, [], ◌∷◌, map,
  length, ◌==◌,
}
use tsuki.Gc.Trace.{Ref, Heap, Marking, ◌>>=◌, white_at, mark_at, mark_ref, mark_each}
use tsuki.Gc.Trace.Bytes.{whites_in-le}
use tsuki.Gc.Trace.Step.{
  In, Refs, Refs-map, IsRanked, IsClosed, whites_of, still_white, Yields, Yields-bind, Yields-map,
  Settled,
}
use tsuki.Gc.Trace.Marks.{Pays, Done}
use tsuki.Gc.Trace.Gray.{marker, ref_Done, each_Done, both_Done}
use tsuki.Gc.Trace.Cycle.{start_marking, propagate, finish_marking, mark_cycle}
use tsuki.Gc.Trace.Invariant.{Inv, Inv-Done}
use tsuki.Gc.Trace.Loops.{Emptied, left_gray, left_all, propagate-Emptied}
use tsuki.Gc.Trace.Finish.{Midway, Stopped, finish_lem}

-- The state between two cycles: every object is white, and the debt counts at least the objects.
pub record IsFresh (h : Heap) (s : Marking) : Type 0 where
  pub white : (x : ℕ) → x < length h → white_at s x ≡ true
  pub size : length s.marks ≡ length h
  pub debt : length h ≤ s.debt

module _ (h : Heap) (R : ℕ → Type 0) (ranked : IsRanked h) (closed : IsClosed h R) (s : Marking)
    (fresh : IsFresh h s) where
  abbrev roots : ℕ → List Ref
  roots root = some root ∷ map some s.refs

  record Started (root : ℕ) (t : Marking) : Type 0 where
    inv : Inv h R [] t
    debt : left_gray t ≤ t.debt
    few : left_all t ≤ length h
    no_refs : t.refs ≡ []
    marked : Refs (λ c. white_at t c ≡ false) (roots root)
    pure : (x : ℕ) → white_at t x ≡ true → mark_at t x ≡ mark_at s x

  -- The state before the root is marked.
  abbrev reset : Marking
  reset = record s {
    gray = [];
    grayagain = [];
    refs = [];
    marked_refs = elim s.refs [ [] ↦ s.marked_refs | r ∷ rs ↦ r ∷ rs ];
  }

  reset-Inv : Inv h R [] reset
  reset-Inv = record {
    waits = λ x i. absurd i;
    waits_again = λ x i. absurd i;
    waits_held = λ x i. absurd i;
    reached = λ x lt g. absurd (true≢false (sym (fresh.white x lt) ∙ g));
    owed = λ x lt g. absurd (true≢false (sym (fresh.white x lt) ∙ g));
    size = fresh.size;
  }
    where
      true≢false : ¬ (true ≡ false)
      true≢false e = cc

  reset_le : whites_of reset ≤ length h
  reset_le = omega (arith, whites_in-le s.marks, fresh.size)

  start_lem : (root : ℕ) → Refs R (roots root) → Yields (Started root) (start_marking h root s)
  unfolding start_marking
  start_lem root r =
      let refs = map some s.refs in
      let p : Pays reset = omega (arith, reset_le, fresh.debt) in
      Yields-bind (Done h R 3 (roots root) reset) (Started root)
        (mark_ref (marker h) (some root) reset >>= mark_each (marker h) refs)
        (λ u. some (record u { state = 0 }))
        (both_Done h R ranked closed (some root ∷ []) refs reset
          (mark_ref (marker h) (some root) reset) (mark_each (marker h) refs) p
          (ref_Done h R ranked closed (some root) reset (r.0, tt) p)
          (λ t. each_Done h R ranked closed refs t r.1))
        (λ u q.
          let i = Inv-Done h R [] reset u (roots root) reset-Inv q in
          record {
            inv = record {
              waits = i.waits;
              waits_again = i.waits_again;
              waits_held = i.waits_held;
              reached = i.reached;
              owed = i.owed;
              size = i.size;
            };
            debt = omega (arith, q.0.balance, p);
            few = omega (arith, q.0.fewer, reset_le, ap length q.0.again);
            no_refs = q.0.refs;
            marked = q.2;
            pure = q.0.pure;
          })

  -- The end of the marking.
  pub record Finished (root : ℕ) (t : Marking) : Type 0 where
    pub wanted : (x : ℕ) → x < length h → white_at t x ≡ false → R x
    pub settled : (x : ℕ) → x < length h → white_at t x ≡ false → Settled h R t x
    pub marked : Refs (λ c. white_at t c ≡ false) (roots root)
    pub pays : Pays t
    pub size : length t.marks ≡ length h
    pub pure : (x : ℕ) → white_at t x ≡ true → mark_at t x ≡ mark_at s x

  -- State 2, after the steps of state 0.
  record Propagated (root : ℕ) (t : Marking) : Type 0 where
    inv : Inv h R [] t
    pays : Pays t
    busy : (t.state == 0) ≡ false
    few : left_all t ≤ length h
    wanted_refs : Refs R (map some t.refs)
    marked : Refs (λ c. white_at t c ≡ false) (roots root)
    pure : (x : ℕ) → white_at t x ≡ true → mark_at t x ≡ mark_at s x

  propagated :
      (root : ℕ) (t u : Marking)
      → Started root t
      → Emptied h R [] t u
      → Propagated root (record u { state = 2 })
  propagated root t u i q = record {
    inv = record {
      waits = q.inv.waits;
      waits_again = q.inv.waits_again;
      waits_held = q.inv.waits_held;
      reached = q.inv.reached;
      owed = q.inv.owed;
      size = q.inv.size;
    };
    pays = q.pays;
    busy = refl;
    few = omega (arith, q.total, i.few);
    wanted_refs = subst (λ rs. Refs R (map some rs)) (sym (q.refs ∙ i.no_refs)) tt;
    marked =
        Refs-map (λ c. white_at t c ≡ false) (λ c. white_at u c ≡ false) (roots root) q.kept
          i.marked;
    pure = λ x w. q.pure x w ∙ i.pure x (still_white t u q.kept x w);
  }

  finished :
      (root n : ℕ) (t u : Marking)
      → Propagated root t
      → Midway h R ranked closed n [] t u
      → u.gray ≡ []
      → Finished root u
  finished root n t u i m e = record {
    wanted = m.inv.reached;
    pays = m.pays;
    size = m.inv.size;
    settled = λ x lt g. elim (m.inv.owed x lt g) [
      | inl k ↦ absurd (subst (In x) e k)
      | inr (inl (inl k)) ↦ absurd (subst (In x) m.again k)
      | inr (inl (inr k)) ↦ absurd k
      | inr (inr d) ↦ d
    ];
    marked =
        Refs-map (λ c. white_at t c ≡ false) (λ c. white_at u c ≡ false) (roots root) m.kept
          i.marked;
    pure = λ x w. m.pure x w ∙ i.pure x (still_white t u m.kept x w);
  }

  pub mark_cycle_lem :
      (root n : ℕ)
      → length h ≤ n
      → Refs R (roots root)
      → Yields (Finished root) (mark_cycle h n root s)
  unfolding mark_cycle
  mark_cycle_lem root n le r =
      let go = start_marking h root s >>= propagate h n in
      Yields-bind (Propagated root) (Finished root) (go >>= λ t. some (record t { state = 2 }))
        (finish_marking h n)
        (Yields-bind (λ u. (t : Marking) × Started root t × Emptied h R [] t u) (Propagated root) go
          (λ t. some (record t { state = 2 }))
          (Yields-bind (Started root) (λ u. (t : Marking) × Started root t × Emptied h R [] t u)
            (start_marking h root s) (propagate h n) (start_lem root r)
            (λ t i.
              Yields-map (Emptied h R [] t)
                (λ u. (t : Marking) × Started root t × Emptied h R [] t u) (propagate h n t)
                (propagate-Emptied h R [] ranked closed n t (omega (arith, i.few, le)) i.inv i.debt)
                (λ u q. (t, i, q))))
          (λ u (t, i, q). propagated root t u i q))
        (λ t i.
          Yields-map (Stopped h R ranked closed n [] t) (Finished root) (finish_marking h n t)
            (finish_lem h R ranked closed n t i.inv i.pays i.busy (omega (arith, i.few, le))
              i.wanted_refs)
            (λ u m. finished root n t u i m.0 m.1))
