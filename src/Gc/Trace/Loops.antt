-- ===== src/Gc/Trace/Loops.antt =====
-- The loops over the gray list end with the list empty, and the debt is enough for every step
-- (src/gc/mod.rs).
use mathlib.Core.Path.{subst}
use tsuki.Base.{
  ℕ, zero, suc, ◌+◌, ◌≤◌, ◌<◌, ◌≡◌, refl, sym, ap, ◌∙◌, ◌⊎◌, inl, inr, arith, true, false, some,
  List, [], ◌∷◌, length, ◌==◌,
}
use tsuki.Gc.Trace.{Heap, Marking, ◌>>=◌, white_at, mark_at, pay}
use tsuki.Gc.Trace.Step.{
  IsRanked, IsClosed, whites_of, still_white, Yields, Yields-bind, Yields-map,
}
use tsuki.Gc.Trace.Marks.{Pays, pay_eq}
use tsuki.Gc.Trace.Cycle.{mark_one_gray, mark_all_gray, propagate}
use tsuki.Gc.Trace.Invariant.{Inv}
use tsuki.Gc.Trace.Round.{Round, one_gray-Inv}

positive : (n : ℕ) → 0 < n → (d : ℕ) × (n ≡ suc d)
positive zero h = absurd (omega arith)
positive (suc d) h = (d, refl)

List-cases {ℓ} :
    {A : Type ℓ} (xs : List A) → (xs ≡ []) ⊎ ((x : A) × (rest : List A) × (xs ≡ x ∷ rest))
List-cases [] = inl refl
List-cases (x ∷ xs) = inr (x, xs, refl)

-- What is left to do on the gray list, and altogether.
abbrev pub left_gray : Marking → ℕ
left_gray s = whites_of s + length s.gray

abbrev pub left_all : Marking → ℕ
left_all s = left_gray s + length s.grayagain

module _ (h : Heap) (R : ℕ → Type 0) (held : List ℕ) where
  -- The end of a loop.
  pub record Emptied (s t : Marking) : Type 0 where
    pub inv : Inv h R held t
    pub empty : t.gray ≡ []
    pub pays : Pays t
    pub total : left_all t ≤ left_all s
    pub refs : t.refs ≡ s.refs
    pub again : (s.state == 0) ≡ false → t.grayagain ≡ s.grayagain
    pub busy : (s.state == 0) ≡ false → (t.state == 0) ≡ false
    pub kept : (x : ℕ) → white_at s x ≡ false → white_at t x ≡ false
    pub pure : (x : ℕ) → white_at t x ≡ true → mark_at t x ≡ mark_at s x

  Emptied-Round : (s t u : Marking) → Round h R held s t → Emptied t u → Emptied s u
  Emptied-Round s t u r q = record {
    inv = q.inv;
    empty = q.empty;
    pays = q.pays;
    total = omega (arith, r.total, q.total);
    refs = q.refs ∙ r.refs;
    again = λ busy. q.again (subst (λ n. (n == 0) ≡ false) (sym r.state) busy) ∙ r.again busy;
    busy = λ busy. q.busy (subst (λ n. (n == 0) ≡ false) (sym r.state) busy);
    kept = λ x g. q.kept x (r.kept x g);
    pure = λ x w. q.pure x w ∙ r.pure x (still_white t u q.kept x w);
  }

  Pays-Round : (s t : Marking) → Round h R held s t → Pays s → Pays t
  Pays-Round s t r p = omega (arith, r.balance, r.longer, p)

  -- The state after a payment or at the end of a loop: the same colours and lists.
  same_Inv :
      (s : Marking) (d n : ℕ) → Inv h R held s → Inv h R held (record s { debt = d; state = n })
  same_Inv s d n i = record {
    waits = i.waits;
    waits_again = i.waits_again;
    waits_held = i.waits_held;
    reached = i.reached;
    owed = i.owed;
    size = i.size;
  }

  all_gray_stopped : (n : ℕ) (s : Marking) → s.gray ≡ [] → mark_all_gray h n s ≡ some s
  unfolding mark_all_gray
  all_gray_stopped zero s e = ground arith
  all_gray_stopped (suc n) s e = ground arith

  all_gray_round :
      (n : ℕ) (s : Marking) (o : ℕ) (rest : List ℕ)
      → s.gray ≡ o ∷ rest
      → mark_all_gray h (suc n) s ≡ (mark_one_gray h s >>= mark_all_gray h n)
  unfolding mark_all_gray
  all_gray_round n s o rest e = ground arith

  propagate_stopped :
      (n : ℕ) (s : Marking) → s.gray ≡ [] → propagate h n s ≡ some (record s { state = 1 })
  unfolding propagate
  propagate_stopped zero s e = ground arith
  propagate_stopped (suc n) s e = ground arith

  propagate_round :
      (n : ℕ) (s : Marking) (o : ℕ) (rest : List ℕ)
      → s.gray ≡ o ∷ rest
      → propagate h (suc n) s ≡ (mark_one_gray h s >>= pay >>= propagate h n)
  unfolding propagate
  propagate_round n s o rest e = ground arith

  at_end : (s : Marking) → Inv h R held s → Pays s → s.gray ≡ [] → Emptied s s
  at_end s i p e = record {
    inv = i;
    empty = e;
    pays = p;
    total = omega arith;
    refs = refl;
    again = λ busy. refl;
    busy = λ busy. busy;
    kept = λ x g. g;
    pure = λ x w. refl;
  }

  at_end_state : (s : Marking) → Emptied s s → Emptied s (record s { state = 1 })
  at_end_state s q = record {
    inv = same_Inv s s.debt 1 q.inv;
    empty = q.empty;
    pays = q.pays;
    total = q.total;
    refs = refl;
    again = λ busy. refl;
    busy = λ _. refl;
    kept = λ x g. g;
    pure = λ x w. refl;
  }

  paid_Round : (s t : Marking) (d : ℕ) → Emptied (record s { debt = d }) t → Emptied s t
  paid_Round s t d q = record {
    inv = q.inv;
    empty = q.empty;
    pays = q.pays;
    total = q.total;
    refs = q.refs;
    again = q.again;
    busy = q.busy;
    kept = q.kept;
    pure = q.pure;
  }

  -- After a round and its payment.
  abbrev Paid : Marking → Marking → Type 0
  Paid s t =
      Inv h R held t
      × (left_gray t < left_gray s)
      × (left_gray t ≤ t.debt)
      × ((u : Marking) → Emptied t u → Emptied s u)

  pay-Paid :
      (s t : Marking)
      → Inv h R held t
      → Round h R held s t
      → left_gray s ≤ s.debt
      → Yields (Paid s) (pay t)
  pay-Paid s t i r p =
      let (d, owed) = positive t.debt (omega (arith, r.balance, p)) in
      subst (Yields (Paid s)) (sym (pay_eq t d owed)) (
        same_Inv t d t.state i,
        r.shrinks,
        omega (arith, r.balance, p, owed),
        λ u q. Emptied-Round s t u r (paid_Round t u d q),
      )

  module _ (ranked : IsRanked h) (closed : IsClosed h R) where
    pub all_gray-Emptied :
        (n : ℕ) (s : Marking)
        → left_gray s ≤ n
        → Inv h R held s
        → Pays s
        → Yields (Emptied s) (mark_all_gray h n s)
    all_gray-Emptied zero s le i p = elim (List-cases s.gray) [
      | inl e ↦ subst (Yields (Emptied s)) (sym (all_gray_stopped zero s e)) (at_end s i p e)
      | inr (o, rest, e) ↦ absurd (omega (arith, le, ap length e))
    ]
    all_gray-Emptied (suc n) s le i p = elim (List-cases s.gray) [
      | inl e ↦ subst (Yields (Emptied s)) (sym (all_gray_stopped (suc n) s e)) (at_end s i p e)
      | inr (o, rest, e) ↦ subst (Yields (Emptied s)) (sym (all_gray_round n s o rest e)) (
          Yields-bind (λ t. Inv h R held t × Round h R held s t) (Emptied s) (mark_one_gray h s)
            (mark_all_gray h n) (one_gray-Inv h R held ranked closed s o rest i e p)
            (λ t (it, r).
              Yields-map (Emptied t) (Emptied s) (mark_all_gray h n t)
                (all_gray-Emptied n t (omega (arith, r.shrinks, le)) it (Pays-Round s t r p))
                (λ u. Emptied-Round s t u r)))
    ]

    -- In state 0 every object on the gray list is paid for as well.
    pub propagate-Emptied :
        (n : ℕ) (s : Marking)
        → left_gray s ≤ n
        → Inv h R held s
        → left_gray s ≤ s.debt
        → Yields (Emptied s) (propagate h n s)
    propagate-Emptied zero s le i p = elim (List-cases s.gray) [
      | inl e ↦
          subst (Yields (Emptied s)) (sym (propagate_stopped zero s e))
            (at_end_state s (at_end s i (omega (arith, p)) e))
      | inr (o, rest, e) ↦ absurd (omega (arith, le, ap length e))
    ]
    propagate-Emptied (suc n) s le i p = elim (List-cases s.gray) [
      | inl e ↦
          subst (Yields (Emptied s)) (sym (propagate_stopped (suc n) s e))
            (at_end_state s (at_end s i (omega (arith, p)) e))
      | inr (o, rest, e) ↦ subst (Yields (Emptied s)) (sym (propagate_round n s o rest e)) (
          Yields-bind (Paid s) (Emptied s) (mark_one_gray h s >>= pay) (propagate h n)
            (Yields-bind (λ t. Inv h R held t × Round h R held s t) (Paid s) (mark_one_gray h s) pay
              (one_gray-Inv h R held ranked closed s o rest i e (omega (arith, p)))
              (λ t (it, r). pay-Paid s t it r p))
            (λ t (it, shorter, pt, back).
              Yields-map (Emptied t) (Emptied s) (propagate h n t)
                (propagate-Emptied n t (omega (arith, shorter, le)) it pt) back))
    ]
