-- ===== src/Gc/Trace/Invariant.antt =====
-- The invariant of the marking: what is marked is wanted, and each marked object is on a gray list or
-- refers to marked objects only. `mark_one_gray` keeps it and shortens the work that is left
-- (src/gc/mod.rs).
use mathlib.Core.Path.{subst}
use tsuki.Base.{ℕ, ◌<◌, ◌≡◌, sym, ◌∙◌, ◌⊎◌, inl, inr, false, List, length, Bool-cases}
use tsuki.Gc.Trace.{Ref, Heap, Marking, white_at}
use tsuki.Gc.Trace.Step.{In, Waits, Settled, Settled-kept}
use tsuki.Gc.Trace.Marks.{Done}

-- `held` is a list of gray objects that is set aside.
module _ (h : Heap) (R : ℕ → Type 0) (held : List ℕ) where
  pub record Inv (s : Marking) : Type 0 where
    pub waits : Waits h s s.gray
    pub waits_again : Waits h s s.grayagain
    pub waits_held : Waits h s held
    pub reached : (x : ℕ) → x < length h → white_at s x ≡ false → R x
    pub owed :
        (x : ℕ)
        → x < length h
        → white_at s x ≡ false
        → In x s.gray ⊎ (In x s.grayagain ⊎ In x held) ⊎ Settled h R s x
    pub size : length s.marks ≡ length h

  pub Inv-Done : (s t : Marking) (rs : List Ref) → Inv s → Done h R 3 rs s t → Inv t
  Inv-Done s t rs i (grown, settles, marked) = record {
    waits = grown.waits i.waits;
    waits_again = λ x m.
        let before = i.waits_again x (subst (In x) grown.again m) in
        (before.0, grown.kept x before.1);
    waits_held = λ x m. let w = i.waits_held x m in (w.0, grown.kept x w.1);
    reached = λ x lt g. elim (Bool-cases (white_at s x)) [
      | inl w ↦ grown.reached x w g
      | inr e ↦ i.reached x lt e
    ];
    owed = λ x lt g. elim (Bool-cases (white_at s x)) [
      | inl w ↦ elim (settles x w g) [ inl m ↦ inl m | inr d ↦ inr (inr d) ]
      | inr e ↦ elim (i.owed x lt e) [
        | inl m ↦ inl (grown.stays x m)
        | inr (inl (inl m)) ↦ inr (inl (inl (subst (In x) (sym grown.again) m)))
        | inr (inl (inr m)) ↦ inr (inl (inr m))
        | inr (inr d) ↦ inr (inr (Settled-kept h R 3 s t x grown d))
      ]
    ];
    size = grown.size ∙ i.size;
  }
