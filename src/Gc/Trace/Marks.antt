-- ===== src/Gc/Trace/Marks.antt =====
-- `mark` ends and does not panic, and what it leaves is marked, paid for and owed (src/gc/mod.rs).
use mathlib.Core.Path.{subst}
use tsuki.Base.{
  ℕ, zero, suc, ◌+◌, ◌≤◌, ◌<◌, ◌≡◌, ◌≢◌, refl, sym, ap, ◌∙◌, inl, inr, arith, true, false, Option,
  none, some, List, [], ◌∷◌, ◌++◌, length, get_or-set_ne, set, length-set, ◌==◌, if◌then◌else◌,
  Bool-cases,
}
use tsuki.Gc.Mark.{is_white}
use tsuki.Gc.Trace.{Ref, Heap, Marking, ◌>>=◌, white_at, pay, mark_ref, mark_each}
use tsuki.Gc.Trace.Bytes.{whites_in-set, white_in_range, whiteness-set}
use tsuki.Gc.Trace.Step.{
  In, Refs, Refs-map, Refs-append, rank_at, Waits, whites_of, Yields, Yields-map, Grown, Settles,
  Grown-refl, Grown-trans, Grown-mono, Settles-trans,
}

-- Every white object can still be paid for.
abbrev pub Pays : Marking → Type 0
Pays s = whites_of s ≤ s.debt

pub one_owed : (s : Marking) (a : ℕ) → white_at s a ≡ true → Pays s → (d : ℕ) × (s.debt ≡ suc d)
unfolding is_white
one_owed s a w p = positive s.debt (ground (arith, p, whites_in-set s.marks a 0 w refl))
  where
    positive : (n : ℕ) → 0 < n → (d : ℕ) × (n ≡ suc d)
    positive zero h = absurd (omega arith)
    positive (suc d) h = (d, refl)

module _ (mk : ℕ → Marking → Option Marking) (a : ℕ) (s : Marking) where
  ref_white : white_at s a ≡ true → mark_ref mk (some a) s ≡ mk a s
  unfolding mark_ref
  ref_white w = ground arith

  ref_gray : white_at s a ≡ false → mark_ref mk (some a) s ≡ some s
  unfolding mark_ref
  ref_gray w = ground arith

pub pay_eq : (s : Marking) (d : ℕ) → s.debt ≡ suc d → pay s ≡ some (record s { debt = d })
unfolding pay
pay_eq s d e = rw e refl

-- The state with the byte of `a` replaced, the gray list `g` and the debt `d`.
abbrev pub changed : Marking → ℕ → ℕ → List ℕ → ℕ → Marking
changed s a v g d = record s { marks = set s.marks a v; gray = g; debt = d }

module _ (s : Marking) (a v : ℕ) (g : List ℕ) (d : ℕ) (w : white_at s a ≡ true)
    (gray : is_white v ≡ false) where
  white-changed :
      (x : ℕ) → white_at (changed s a v g d) x ≡ (if x == a then false else white_at s x)
  white-changed x =
      whiteness-set s.marks a v x (white_in_range s.marks a w)
      ∙ ap (λ b. if x == a then b else white_at s x) gray

  pub changed_self : white_at (changed s a v g d) a ≡ false
  changed_self = ground (arith, white-changed a)

  pub only_changed : (x : ℕ) → white_at s x ≡ true → white_at (changed s a v g d) x ≡ false → x ≡ a
  only_changed x e f = ground (arith, white-changed x)

  pub kept_gray : (x : ℕ) → white_at s x ≡ false → white_at (changed s a v g d) x ≡ false
  kept_gray x e = ground (arith, white-changed x)

  pub kept_other : (x : ℕ) → x ≢ a → white_at (changed s a v g d) x ≡ white_at s x
  kept_other x ne = ground (arith, white-changed x)

true≢false : ¬ (true ≡ false)
true≢false e = cc

module _ (h : Heap) (R : ℕ → Type 0) where
  -- One object changes its colour: it is paid for, or it goes to the gray list.
  pub changed-Grown :
      (s : Marking) (a v : ℕ) (g : List ℕ) (d : ℕ)
      → white_at s a ≡ true
      → is_white v ≡ false
      → R a
      → d + suc (length s.gray) ≡ s.debt + length g
      → length g ≤ suc (length s.gray)
      → length s.gray ≤ length g
      → ((x : ℕ) → In x s.gray → In x g)
      → (Waits h s s.gray → Waits h (changed s a v g d) g)
      → Grown h R (suc (rank_at h a)) s (changed s a v g d)
  changed-Grown s a v g d w e r bal le ge stays waits =
      let count = whites_in-set s.marks a v w e in
      let changed_gray : (x : ℕ) → a ≡ x → white_at (changed s a v g d) x ≡ true → ⊥ = λ x same wx.
        let self = changed_self s a v g d w e in
        true≢false (sym wx ∙ ap (white_at (changed s a v g d)) (sym same) ∙ self) in
      record {
        state = refl;
        again = refl;
        refs = refl;
        size = length-set s.marks a v;
        balance = omega (arith, count, bal);
        fewer = omega (arith, count, le);
        longer = ge;
        stays = stays;
        waits = waits;
        kept = kept_gray s a v g d w e;
        pure = λ x wx. get_or-set_ne s.marks a x v 0 (λ same. changed_gray x same wx);
        reached = λ x wx gx. rw (only_changed s a v g d w e x wx gx) r;
        high = λ x l. kept_other s a v g d w e x (λ same. omega (arith, ap (rank_at h) same, l));
      }

  -- The outcome for an object, and for references.
  abbrev pub Marked : ℕ → Marking → Marking → Type 0
  Marked a s t = Grown h R (suc (rank_at h a)) s t × Settles h R s t × (white_at t a ≡ false)

  abbrev pub Done : ℕ → List Ref → Marking → Marking → Type 0
  Done k rs s t = Grown h R k s t × Settles h R s t × Refs (λ c. white_at t c ≡ false) rs

  -- What a marking function promises for objects of rank below `n`.
  abbrev pub Marks : ℕ → (ℕ → Marking → Option Marking) → Type 0
  Marks n mk =
      (a : ℕ) (s : Marking)
      → rank_at h a < n
      → white_at s a ≡ true
      → Pays s
      → R a
      → Yields (Marked a s) (mk a s)

  pub Pays-kept : (k : ℕ) (s t : Marking) → Grown h R k s t → Pays s → Pays t
  Pays-kept k s t p e = omega (arith, p.balance, p.longer, e)

  pub Done-refl : (k : ℕ) (s : Marking) → Done k [] s s
  Done-refl k s = (Grown-refl h R k s, λ x w g. cc, tt)

  pub Done-trans :
      (k : ℕ) (rs qs : List Ref) (s t u : Marking)
      → Done k rs s t
      → Done k qs t u
      → Done k (rs ++ qs) s u
  Done-trans k rs qs s t u p q = (
    Grown-trans h R k s t u p.0 q.0,
    Settles-trans h R k s t u q.0 p.1 q.1,
    Refs-append (λ c. white_at u c ≡ false) rs qs
        (Refs-map (λ c. white_at t c ≡ false) (λ c. white_at u c ≡ false) rs q.0.kept p.2) q.2,
  )

  pub Done-bind :
      (k : ℕ) (rs qs : List Ref) (s : Marking) (o : Option Marking) (f : Marking → Option Marking)
      → Pays s
      → Yields (Done k rs s) o
      → ((t : Marking) → Pays t → Yields (Done k qs t) (f t))
      → Yields (Done k (rs ++ qs) s) (o >>= f)
  Done-bind k rs qs s none f e p q = absurd p
  Done-bind k rs qs s (some t) f e p q =
      Yields-map (Done k qs t) (Done k (rs ++ qs) s) (f t) (q t (Pays-kept k s t p.0 e))
        (λ u. Done-trans k rs qs s t u p)

  module _ (n : ℕ) (mk : ℕ → Marking → Option Marking) (spec : Marks n mk) (k : ℕ) where
    pub mark_ref_lem :
        (r : Ref) (s : Marking)
        → Refs (λ c. rank_at h c < n) (r ∷ [])
        → Refs (λ c. rank_at h c < k) (r ∷ [])
        → Refs R (r ∷ [])
        → Pays s
        → Yields (Done k (r ∷ []) s) (mark_ref mk r s)
    unfolding mark_ref
    mark_ref_lem none s low lk rs e = Done-refl k s
    mark_ref_lem (some a) s low lk rs e = elim (Bool-cases (white_at s a)) [
      | inl w ↦ subst (Yields (Done k (some a ∷ []) s)) (sym (ref_white mk a s w)) (
          Yields-map (Marked a s) (Done k (some a ∷ []) s) (mk a s) (spec a s low.0 w e rs.0)
            (λ t m. (Grown-mono h R (suc (rank_at h a)) k s t lk.0 m.0, m.1, (m.2, tt))))
      | inr g ↦
          subst (Yields (Done k (some a ∷ []) s)) (sym (ref_gray mk a s g))
            (Grown-refl h R k s, (λ x wx gx. cc), (g, tt))
    ]

    pub mark_each_lem :
        (rs : List Ref) (s : Marking)
        → Refs (λ c. rank_at h c < n) rs
        → Refs (λ c. rank_at h c < k) rs
        → Refs R rs
        → Pays s
        → Yields (Done k rs s) (mark_each mk rs s)
    unfolding mark_each
    mark_each_lem [] s low lk r e = Done-refl k s
    mark_each_lem (none ∷ rs) s low lk r e =
        Done-bind k (none ∷ []) rs s (mark_ref mk none s) (mark_each mk rs) e
          (mark_ref_lem none s tt tt tt e) (λ t et. mark_each_lem rs t low lk r et)
    mark_each_lem (some a ∷ rs) s low lk r e =
        Done-bind k (some a ∷ []) rs s (mark_ref mk (some a) s) (mark_each mk rs) e
          (mark_ref_lem (some a) s (low.0, tt) (lk.0, tt) (r.0, tt) e)
          (λ t et. mark_each_lem rs t low.1 lk.1 r.1 et)
