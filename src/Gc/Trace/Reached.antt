-- ===== src/Gc/Trace/Reached.antt =====
-- After the marking of a whole cycle the objects that are not white are those that the root and the
-- references of the host lead to (src/gc/mod.rs).
use mathlib.Core.Path.{subst}
use tsuki.Base.{
  ℕ, ◌≤◌, ◌<◌, ◌≡◌, refl, sym, ◌⊎◌, inl, inr, ◌↔◌, true, false, Option, none, some, List, [], ◌∷◌,
  map, length,
}
use tsuki.Gc.Trace.{Ref, Heap, shape_at, Marking, white_at, mark_at}
use tsuki.Gc.Trace.Step.{Refs, children, IsRanked, IsClosed, Yields, Settled}
use tsuki.Gc.Trace.Marks.{Pays}
use tsuki.Gc.Trace.Cycle.{mark_cycle}
use tsuki.Gc.Trace.Remark.{shape-lt}
use tsuki.Gc.Trace.Run.{IsFresh, Finished, mark_cycle_lem}
use tsuki.Gc.Trace.Remark.{shape-lt}

-- One reference to `a` among the references.
abbrev pub Refers : ℕ → List Ref → Type 0
Refers a [] = ⊥
Refers a (none ∷ rs) = Refers a rs
Refers a (some b ∷ rs) = (a ≡ b) ⊎ Refers a rs

-- The objects that the roots lead to.
pub data Reach (h : Heap) (roots : List Ref) : ℕ → Type 0 where
  at_root : {a : ℕ} → Refers a roots → Reach h roots a
  onward : {a b : ℕ} → Reach h roots a → Refers b (children (shape_at h a)) → Reach h roots b

each_Refs : (P : ℕ → Type 0) (rs : List Ref) → ((a : ℕ) → Refers a rs → P a) → Refs P rs
each_Refs P [] f = tt
each_Refs P (none ∷ rs) f = each_Refs P rs f
each_Refs P (some a ∷ rs) f = (f a (inl refl), each_Refs P rs (λ b i. f b (inr i)))

Refs-at : (P : ℕ → Type 0) (rs : List Ref) (a : ℕ) → Refs P rs → Refers a rs → P a
Refs-at P [] a h i = absurd i
Refs-at P (none ∷ rs) a h i = Refs-at P rs a h i
Refs-at P (some b ∷ rs) a h (inl e) = subst P (sym e) h.0
Refs-at P (some b ∷ rs) a h (inr i) = Refs-at P rs a h.1 i

module _ (h : Heap) (rs : List Ref) (t : Marking)
    (settled : (x : ℕ) → x < length h → white_at t x ≡ false → Settled h (Reach h rs) t x)
    (marked : Refs (λ c. white_at t c ≡ false) rs) where
  complete : (a : ℕ) → Reach h rs a → white_at t a ≡ false
  complete a (at_root i) = Refs-at (λ c. white_at t c ≡ false) rs a marked i
  complete b (onward {a} r i) =
      Refs-at (λ c. white_at t c ≡ false) (children (shape_at h a)) b
        (settled a (shape-lt h a (λ l. subst (λ sh. Refers b (children sh)) l i)) (complete a r)) i

Yields-some :
    (P : Marking → Type 0) (o : Option Marking) → Yields P o → (t : Marking) × (o ≡ some t) × P t
Yields-some P none y = absurd y
Yields-some P (some t) y = (t, refl, y)

-- The objects that the root and the references of the host lead to.
abbrev pub Live : Heap → Marking → ℕ → ℕ → Type 0
Live h s root = Reach h (some root ∷ map some s.refs)

-- What the marking of a whole cycle leaves.
pub record Traced (h : Heap) (s : Marking) (root : ℕ) (t : Marking) : Type 0 where
  pub exact : (a : ℕ) → a < length h → (white_at t a ≡ false) ↔ Live h s root a
  pub pays : Pays t
  pub size : length t.marks ≡ length h
  pub pure : (x : ℕ) → white_at t x ≡ true → mark_at t x ≡ mark_at s x

pub mark_cycle-Traced :
    (h : Heap) (s : Marking) (root n : ℕ)
    → IsRanked h
    → IsFresh h s
    → length h ≤ n
    → (t : Marking) × (mark_cycle h n root s ≡ some t) × Traced h s root t
mark_cycle-Traced h s root n ranked fresh le =
    let rs : List Ref = some root ∷ map some s.refs in
    let closed : IsClosed h (Reach h rs) =
      λ a r. each_Refs (Reach h rs) (children (shape_at h a)) (λ b i. onward r i) in
    let (t, e, f) =
      Yields-some (Finished h (Reach h rs) ranked closed s fresh root) (mark_cycle h n root s) (
        mark_cycle_lem h (Reach h rs) ranked closed s fresh root n le
          (each_Refs (Reach h rs) rs (λ a i. at_root i))) in
    (
      t,
      e,
      record {
        exact = λ a lt. (f.wanted a lt, complete h rs t f.settled f.marked a);
        pays = f.pays;
        size = f.size;
        pure = f.pure;
      },
    )

-- The marking of a whole cycle, from a state in which every object is white and counted in the
-- debt, with as much fuel as there are objects: it ends, with no payment below 0, and then an object
-- is not white exactly when the root or a reference of the host leads to it. The condition on the
-- heap bounds the recursion of `mark`.
pub mark_cycle-Reach :
    (h : Heap) (s : Marking) (root n a : ℕ)
    → IsRanked h
    → IsFresh h s
    → length h ≤ n
    → a < length h
    → (t : Marking) × (mark_cycle h n root s ≡ some t) × ((white_at t a ≡ false) ↔ Live h s root a)
mark_cycle-Reach h s root n a ranked fresh le lt =
    let (t, e, f) = mark_cycle-Traced h s root n ranked fresh le in (t, e, f.exact a lt)
