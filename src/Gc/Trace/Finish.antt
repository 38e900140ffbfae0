-- ===== src/Gc/Trace/Finish.antt =====
-- `finish_marking` ends with nothing left to traverse (src/gc/mod.rs).
use mathlib.Core.Path.{subst}
use tsuki.Base.{
  ℕ, ◌+◌, ◌≤◌, ◌≡◌, refl, sym, ap, ◌∙◌, inl, inr, arith, true, false, some, List, [], ◌++◌, map,
  length, ◌==◌,
}
use tsuki.Gc.Trace.{Ref, Heap, Marking, ◌>>=◌, white_at, mark_at, mark_each}
use tsuki.Gc.Trace.Step.{In, Refs, IsRanked, IsClosed, still_white, Yields, Yields-bind, Yields-map}
use tsuki.Gc.Trace.Marks.{Pays, Pays-kept, Done}
use tsuki.Gc.Trace.Gray.{marker, each_Done}
use tsuki.Gc.Trace.Cycle.{mark_all_gray, remark_upvalues, finish_marking}
use tsuki.Gc.Trace.Invariant.{Inv, Inv-Done}
use tsuki.Gc.Trace.Loops.{Emptied, left_gray, left_all, all_gray-Emptied}
use tsuki.Gc.Trace.Remark.{remark_Done}

module _ (h : Heap) (R : ℕ → Type 0) (ranked : IsRanked h) (closed : IsClosed h R) where
  -- Within `finish_marking`, from the state `s` and with the list `held` set aside.
  pub record Midway (n : ℕ) (held : List ℕ) (s t : Marking) : Type 0 where
    pub inv : Inv h R held t
    pub pays : Pays t
    pub busy : (t.state == 0) ≡ false
    pub again : t.grayagain ≡ []
    pub few : left_gray t + length held ≤ n
    pub kept : (x : ℕ) → white_at s x ≡ false → white_at t x ≡ false
    pub pure : (x : ℕ) → white_at t x ≡ true → mark_at t x ≡ mark_at s x

  Midway-Done :
      (n : ℕ) (held : List ℕ) (s t u : Marking) (rs : List Ref)
      → Midway n held s t
      → Done h R 3 rs t u
      → Midway n held s u
  Midway-Done n held s t u rs m q = record {
    inv = Inv-Done h R held t u rs m.inv q;
    pays = Pays-kept h R 3 t u q.0 m.pays;
    busy = subst (λ k. (k == 0) ≡ false) (sym q.0.state) m.busy;
    again = q.0.again ∙ m.again;
    few = omega (arith, q.0.fewer, m.few);
    kept = λ x g. q.0.kept x (m.kept x g);
    pure = λ x w. q.0.pure x w ∙ m.pure x (still_white t u q.0.kept x w);
  }

  Midway-Emptied :
      (n : ℕ) (held : List ℕ) (s t u : Marking)
      → Midway n held s t
      → Emptied h R held t u
      → Midway n held s u × (u.gray ≡ [])
  Midway-Emptied n held s t u m q = (
    record {
      inv = q.inv;
      pays = q.pays;
      busy = q.busy m.busy;
      again = q.again m.busy ∙ m.again;
      few = omega (arith, q.total, ap length m.again, m.few);
      kept = λ x g. q.kept x (m.kept x g);
      pure = λ x w. q.pure x w ∙ m.pure x (still_white t u q.kept x w);
    },
    q.empty,
  )

  -- The list that was set aside becomes the gray list.
  take_back :
      (n : ℕ) (held : List ℕ) (s t : Marking)
      → Midway n held s t
      → t.gray ≡ []
      → Midway n [] s (record t { gray = held })
  take_back n held s t m e = record {
    inv = record {
      waits = m.inv.waits_held;
      waits_again = m.inv.waits_again;
      waits_held = λ x i. absurd i;
      reached = m.inv.reached;
      owed = λ x lt g. elim (m.inv.owed x lt g) [
        | inl i ↦ absurd (subst (In x) e i)
        | inr (inl (inl i)) ↦ absurd (subst (In x) m.again i)
        | inr (inl (inr i)) ↦ inl i
        | inr (inr d) ↦ inr (inr d)
      ];
      size = m.inv.size;
    };
    pays = m.pays;
    busy = m.busy;
    again = m.again;
    few = omega (arith, m.few, ap length e);
    kept = m.kept;
    pure = m.pure;
  }

  -- Nothing is left on the gray list.
  abbrev pub Stopped : ℕ → List ℕ → Marking → Marking → Type 0
  Stopped n held s t = Midway n held s t × (t.gray ≡ [])

  all_gray_stage :
      (n : ℕ) (held : List ℕ) (s t : Marking)
      → Midway n held s t
      → Yields (Stopped n held s) (mark_all_gray h n t)
  all_gray_stage n held s t m =
      Yields-map (Emptied h R held t) (Stopped n held s) (mark_all_gray h n t)
        (all_gray-Emptied h R held ranked closed n t (omega (arith, m.few)) m.inv m.pays)
        (λ u. Midway-Emptied n held s t u m)

  remark_stage :
      (n : ℕ) (held : List ℕ) (s t : Marking)
      → Midway n held s t
      → Yields (Midway n held s) (remark_upvalues h t)
  remark_stage n held s t m =
      Yields-map (Done h R 3 [] t) (Midway n held s) (remark_upvalues h t)
        (remark_Done h R ranked closed t m.inv.reached m.pays) (λ u. Midway-Done n held s t u [] m)

  -- The state in which `finish_marking` begins to mark.
  abbrev begun : Marking → Marking
  begun s = record s { grayagain = []; refs = s.refs ++ s.marked_refs; marked_refs = [] }

  begun-Midway :
      (n : ℕ) (s : Marking)
      → Inv h R [] s
      → Pays s
      → (s.state == 0) ≡ false
      → left_all s ≤ n
      → Midway n s.grayagain s (begun s)
  begun-Midway n s i p busy le = record {
    inv = record {
      waits = i.waits;
      waits_again = λ x m. absurd m;
      waits_held = i.waits_again;
      reached = i.reached;
      owed = λ x lt g. elim (i.owed x lt g) [
        | inl m ↦ inl m
        | inr (inl (inl m)) ↦ inr (inl (inr m))
        | inr (inl (inr m)) ↦ absurd m
        | inr (inr d) ↦ inr (inr d)
      ];
      size = i.size;
    };
    pays = p;
    busy = busy;
    again = refl;
    few = omega (arith, le);
    kept = λ x g. g;
    pure = λ x w. refl;
  }

  pub finish_lem :
      (n : ℕ) (s : Marking)
      → Inv h R [] s
      → Pays s
      → (s.state == 0) ≡ false
      → left_all s ≤ n
      → Refs R (map some s.refs)
      → Yields (Stopped n [] s) (finish_marking h n s)
  unfolding finish_marking
  finish_lem n s i p busy le r =
      let held = s.grayagain in
      let rs = map some s.refs in
      let first = mark_each (marker h) rs (begun s) in
      let start = begun-Midway n s i p busy le in
      Yields-bind (Midway n [] s) (Stopped n [] s)
        (first
          >>= mark_all_gray h n
          >>= remark_upvalues h
          >>= mark_all_gray h n
          >>= (λ u. some (record u { gray = held })))
        (mark_all_gray h n)
        (Yields-bind (Stopped n held s) (Midway n [] s)
          (first >>= mark_all_gray h n >>= remark_upvalues h >>= mark_all_gray h n)
          (λ u. some (record u { gray = held }))
          (Yields-bind (Midway n held s) (Stopped n held s)
            (first >>= mark_all_gray h n >>= remark_upvalues h) (mark_all_gray h n)
            (Yields-bind (Stopped n held s) (Midway n held s) (first >>= mark_all_gray h n)
              (remark_upvalues h)
              (Yields-bind (Midway n held s) (Stopped n held s) first (mark_all_gray h n)
                (Yields-map (Done h R 3 rs (begun s)) (Midway n held s) first
                  (each_Done h R ranked closed rs (begun s) r p)
                  (λ u. Midway-Done n held s (begun s) u rs start))
                (all_gray_stage n held s))
              (λ u m. remark_stage n held s u m.0))
            (all_gray_stage n held s))
          (λ u m. take_back n held s u m.0 m.1))
        (all_gray_stage n [] s)
