-- ===== src/Gc/Trace/Round.antt =====
-- `mark_one_gray` keeps the invariant and shortens the work that is left (src/gc/mod.rs).
use mathlib.Core.Path.{subst}
use tsuki.Base.{
  ℕ, zero, suc, ◌+◌, ◌≤◌, ◌<◌, ◌≡◌, ◌≢◌, refl, sym, ap, ◌∙◌, ◌⊎◌, inl, inr, arith, true, false,
  List, [], ◌∷◌, length, ◌==◌, Bool-cases, bit_or, length-set, get_or-set_ne,
}
use tsuki.Gc.Mark.{set_gray, black_bit}
use tsuki.Gc.Trace.{
  Shape, leaf, upvalue, userdata, table, lua_fn, rust_fn, proto, thread, Heap, shape_at, Marking,
  white_at, mark_at, recolour_at, link_grayagain, traverse,
}
use tsuki.Gc.Trace.Bytes.{
  is_white-set_gray, is_white-black_bit, whites_in-set_same, whiteness-set_same,
}
use tsuki.Gc.Trace.Step.{
  In, Refs-map, children, IsRanked, IsClosed, IsLinked, whites_of, Yields, Yields-map, Settled,
}
use tsuki.Gc.Trace.Marks.{Pays, Done}
use tsuki.Gc.Trace.Gray.{marker, PutOff, traverse-Done}
use tsuki.Gc.Trace.Cycle.{mark_one_gray}
use tsuki.Gc.Trace.Invariant.{Inv}

idle_of : (s : Marking) (sh : Shape) → PutOff s sh → s.state ≡ 0
idle_of s (thread _ _) e = e
idle_of s leaf e = absurd e
idle_of s (upvalue _ _) e = absurd e
idle_of s (userdata _ _ _) e = absurd e
idle_of s (table _ _ _) e = absurd e
idle_of s (lua_fn _ _) e = absurd e
idle_of s (rust_fn _) e = absurd e
idle_of s (proto _ _ _ _) e = absurd e

IsLinked-lt : (xs : Heap) (o : ℕ) → IsLinked (shape_at xs o) → o < length xs
IsLinked-lt [] o l = absurd l
IsLinked-lt (x ∷ xs) zero l = omega arith
IsLinked-lt (x ∷ xs) (suc o) l = omega (arith, IsLinked-lt xs o l)

-- `held` is a list of gray objects that is set aside.
module _ (h : Heap) (R : ℕ → Type 0) (held : List ℕ) where
  -- What one round does to the counts and the colours.
  pub record Round (s t : Marking) : Type 0 where
    pub state : t.state ≡ s.state
    pub refs : t.refs ≡ s.refs
    pub balance :
        t.debt + (whites_of s + length s.gray) ≡ suc (s.debt + (whites_of t + length t.gray))
    pub shrinks : whites_of t + length t.gray < whites_of s + length s.gray
    pub total :
        whites_of t + length t.gray + length t.grayagain
        ≤ whites_of s + length s.gray + length s.grayagain
    pub longer : length s.gray ≤ suc (length t.gray)
    pub again : (s.state == 0) ≡ false → t.grayagain ≡ s.grayagain
    pub kept : (x : ℕ) → white_at s x ≡ false → white_at t x ≡ false
    pub pure : (x : ℕ) → white_at t x ≡ true → mark_at t x ≡ mark_at s x

  module _ (s : Marking) (o : ℕ) (rest : List ℕ) (i : Inv h R held s)
      (front : s.gray ≡ o ∷ rest) where
    -- The object leaves the list.
    abbrev taken : Marking
    taken = recolour_at (record s { gray = rest }) o (λ m. bit_or m black_bit)

    here : IsLinked (shape_at h o) × (white_at s o ≡ false)
    here = i.waits o (subst (In o) (sym front) (inl refl))

    later : (x : ℕ) → In x rest → In x s.gray
    later x m = subst (In x) (sym front) (inr m)

    owed_taken :
        (x : ℕ)
        → x < length h
        → white_at s x ≡ false
        → (x ≡ o) ⊎ In x rest ⊎ (In x s.grayagain ⊎ In x held) ⊎ Settled h R s x
    owed_taken x lt g = elim (i.owed x lt g) [
      | inr d ↦ inr (inr d)
      | inl m ↦ elim (subst (In x) front m) [ inl same ↦ inl same | inr n ↦ inr (inl n) ]
    ]

    white-taken : (x : ℕ) → white_at taken x ≡ white_at s x
    white-taken x =
        whiteness-set_same s.marks o (bit_or (mark_at s o) black_bit) x
          (is_white-black_bit (mark_at s o))

    whites-taken : whites_of taken ≡ whites_of s
    whites-taken =
        whites_in-set_same s.marks o (bit_or (mark_at s o) black_bit)
          (is_white-black_bit (mark_at s o))

    length-front : length s.gray ≡ suc (length rest)
    length-front = ap length front

    Settled-same :
        (t : Marking) (x : ℕ)
        → ((y : ℕ) → white_at s y ≡ false → white_at t y ≡ false)
        → Settled h R s x
        → Settled h R t x
    Settled-same t x kept =
        Refs-map (λ c. white_at s c ≡ false) (λ c. white_at t c ≡ false) (children (shape_at h x))
          kept

    -- What is white after the round is another object.
    not_here :
        (t : Marking)
        → ((x : ℕ) → white_at s x ≡ false → white_at t x ≡ false)
        → (x : ℕ) → white_at t x ≡ true
        → o ≢ x
    not_here t kept x w same =
        let gray = kept x (ap (white_at s) (sym same) ∙ here.1) in
        let both : true ≡ false = sym w ∙ gray in cc

    -- A thread that goes to `grayagain`.
    white-put_off : (x : ℕ) → white_at (link_grayagain o taken) x ≡ white_at s x
    unfolding link_grayagain
    white-put_off x =
        whiteness-set_same taken.marks o (set_gray (mark_at taken o)) x
          (is_white-set_gray (mark_at taken o) ∙ sym (white-taken o ∙ here.1))
        ∙ white-taken x

    whites-put_off : whites_of (link_grayagain o taken) ≡ whites_of s
    unfolding link_grayagain
    whites-put_off =
        whites_in-set_same taken.marks o (set_gray (mark_at taken o))
          (is_white-set_gray (mark_at taken o) ∙ sym (white-taken o ∙ here.1))
        ∙ whites-taken

    put_off-Inv :
        s.state ≡ 0 → Inv h R held (link_grayagain o taken) × Round s (link_grayagain o taken)
    unfolding link_grayagain
    put_off-Inv idle =
        let t = link_grayagain o taken in
        let kept : (x : ℕ) → white_at s x ≡ false → white_at t x ≡ false =
          λ x g. white-put_off x ∙ g in
        let before : (x : ℕ) → white_at t x ≡ false → white_at s x ≡ false =
          λ x g. sym (white-put_off x) ∙ g in
        (
          record {
            waits = λ x m. let w = i.waits x (later x m) in (w.0, kept x w.1);
            waits_again = λ x m. elim m [
              | inl same ↦ (
                subst (λ y. IsLinked (shape_at h y)) (sym same) here.0,
                kept x (ap (white_at s) same ∙ here.1),
              )
              | inr n ↦ let w = i.waits_again x n in (w.0, kept x w.1)
            ];
            waits_held = λ x m. let w = i.waits_held x m in (w.0, kept x w.1);
            reached = λ x lt g. i.reached x lt (before x g);
            owed = λ x lt g. elim (owed_taken x lt (before x g)) [
              | inl same ↦ inr (inl (inl (inl same)))
              | inr (inl m) ↦ inl m
              | inr (inr (inl (inl m))) ↦ inr (inl (inl (inr m)))
              | inr (inr (inl (inr m))) ↦ inr (inl (inr m))
              | inr (inr (inr d)) ↦ inr (inr (Settled-same t x kept d))
            ];
            size =
                length-set taken.marks o (set_gray (mark_at taken o))
                ∙ length-set s.marks o (bit_or (mark_at s o) black_bit)
                ∙ i.size;
          },
          record {
            state = refl;
            refs = refl;
            balance = omega (arith, whites-put_off, length-front);
            shrinks = omega (arith, whites-put_off, length-front);
            total = omega (arith, whites-put_off, length-front);
            longer = omega (arith, length-front);
            again = λ busy. ground arith;
            kept = kept;
            pure = λ x w.
                let ne = not_here t kept x w in
                get_or-set_ne taken.marks o x (set_gray (mark_at taken o)) 0 ne
                ∙ get_or-set_ne s.marks o x (bit_or (mark_at s o) black_bit) 0 ne;
          },
        )

    -- An object that is traversed.
    traversed-Inv :
        (t : Marking) → Done h R 3 (children (shape_at h o)) taken t → Inv h R held t × Round s t
    traversed-Inv t (grown, settles, marked) =
        let kept : (x : ℕ) → white_at s x ≡ false → white_at t x ≡ false =
          λ x g. grown.kept x (white-taken x ∙ g) in
        (
          record {
            waits =
                grown.waits (λ x m. let w = i.waits x (later x m) in (w.0, white-taken x ∙ w.1));
            waits_again =
                λ x m. let w = i.waits_again x (subst (In x) grown.again m) in (w.0, kept x w.1);
            waits_held = λ x m. let w = i.waits_held x m in (w.0, kept x w.1);
            reached = λ x lt g. elim (Bool-cases (white_at taken x)) [
              | inl w ↦ grown.reached x w g
              | inr e ↦ i.reached x lt (sym (white-taken x) ∙ e)
            ];
            owed = λ x lt g. elim (Bool-cases (white_at taken x)) [
              | inl w ↦ elim (settles x w g) [ inl m ↦ inl m | inr d ↦ inr (inr d) ]
              | inr e ↦ elim (owed_taken x lt (sym (white-taken x) ∙ e)) [
                | inl same ↦ inr (inr (subst (Settled h R t) (sym same) marked))
                | inr (inl m) ↦ inl (grown.stays x m)
                | inr (inr (inl (inl m))) ↦ inr (inl (inl (subst (In x) (sym grown.again) m)))
                | inr (inr (inl (inr m))) ↦ inr (inl (inr m))
                | inr (inr (inr d)) ↦ inr (inr (Settled-same t x kept d))
              ]
            ];
            size = grown.size ∙ length-set s.marks o (bit_or (mark_at s o) black_bit) ∙ i.size;
          },
          record {
            state = grown.state;
            refs = grown.refs;
            balance = omega (arith, grown.balance, whites-taken, length-front);
            shrinks = omega (arith, grown.fewer, whites-taken, length-front);
            total = omega (arith, grown.fewer, whites-taken, length-front, ap length grown.again);
            longer = omega (arith, grown.longer, length-front);
            again = λ busy. grown.again;
            kept = kept;
            pure = λ x w.
                grown.pure x w
                ∙ get_or-set_ne s.marks o x (bit_or (mark_at s o) black_bit) 0
                    (not_here t kept x w);
          },
        )

    one_gray_eq : mark_one_gray h s ≡ traverse (marker h) o (shape_at h o) taken
    unfolding mark_one_gray
    one_gray_eq = rw (front, mark_one_gray) refl

  pub one_gray-Inv :
      IsRanked h
      → IsClosed h R
      → (s : Marking) (o : ℕ) (rest : List ℕ) → Inv h R held s
      → s.gray ≡ o ∷ rest
      → Pays s
      → Yields (λ t. Inv h R held t × Round s t) (mark_one_gray h s)
  one_gray-Inv ranked closed s o rest i front p =
      let (linked, marked) = here s o rest i front in
      let wanted = i.reached o (IsLinked-lt h o linked) marked in
      subst (Yields (λ t. Inv h R held t × Round s t)) (sym (one_gray_eq s o rest i front))
        (elim (traverse-Done h R ranked closed o (shape_at h o) (taken s o rest i front) linked
          (closed o wanted) (omega (arith, p, whites-taken s o rest i front))) [
            | inl (idle, e) ↦ subst (Yields (λ t. Inv h R held t × Round s t)) (sym e) (
                put_off-Inv s o rest i front (idle_of (taken s o rest i front) (shape_at h o) idle))
            | inr d ↦
                Yields-map (Done h R 3 (children (shape_at h o)) (taken s o rest i front))
                  (λ t. Inv h R held t × Round s t)
                  (traverse (marker h) o (shape_at h o) (taken s o rest i front)) d
                  (traversed-Inv s o rest i front)
          ])
