-- ===== src/Gc/Collect/Whole.antt =====
-- A whole cycle frees what nothing leads to, and keeps the rest (src/gc/mod.rs).
use mathlib.Core.Path.{subst}
use tsuki.Base.{
  ℕ, ◌+◌, ◌≤◌, ◌<◌, ◌≡◌, refl, sym, ap, ◌∙◌, inl, inr, ◌↔◌, arith, Bool, true, false, not, none,
  some, List, [], ◌++◌, length, drop, Bool-cases,
}
use tsuki.Gc.Mark.{is_white, is_dead, other_white}
use tsuki.Gc.Mark.Colours.{IsColour}
use tsuki.Gc.Sweep.{Gc, begin_sweep}
use tsuki.Gc.Sweep.Part.{survivors_of, dead_of}
use tsuki.Gc.Sweep.Cycle.{sweep_all, idle, sweep_all-begin_sweep}
use tsuki.Gc.Trace.{Heap, Marking, white_at, mark_at}
use tsuki.Gc.Trace.Bytes.{white_in_range}
use tsuki.Gc.Trace.Step.{In, IsRanked}
use tsuki.Gc.Trace.Run.{IsFresh}
use tsuki.Gc.Trace.Reached.{Live, Traced, mark_cycle-Traced}
use tsuki.Gc.Collect.{objects_from, addresses, marked_gc, then_sweep, collect}
use tsuki.Gc.Collect.Listed.{
  picked-In_start, survivors-picked, dead-picked, length-objects, AllPlain, freed_lem,
}
use tsuki.Gc.Collect.Dead.{is_dead-flipped, dead-le}

-- An idle collector over the heap `h`: all marks are the current white, the debt counts the objects,
-- `tts` are their tags, and nothing is freed yet.
pub record IsIdle (h : Heap) (tts : List ℕ) (white : ℕ) (s : Marking) (g : Gc) : Type 0 where
  pub colour : IsColour white
  pub current : g.currentwhite ≡ white
  pub marks : (x : ℕ) → x < length h → mark_at s x ≡ white
  pub size : length s.marks ≡ length h
  pub debt : length h ≤ s.debt
  pub tags : length tts ≡ length h
  pub plain : AllPlain tts
  pub unfreed : g.heap.freed ≡ []

is_white-IsColour : (white : ℕ) → IsColour white → is_white white ≡ true
unfolding is_white
is_white-IsColour white (inl e) = rw e refl
is_white-IsColour white (inr e) = rw e refl

through_not :
    {P Q : Type 0} {dead white : Bool}
    → P ↔ (not dead ≡ true)
    → dead ≡ white
    → (white ≡ false) ↔ Q
    → P ↔ Q
through_not {dead = dead} (f, g) e (q, r) =
    (λ p. q (sym e ∙ not_true dead (f p)), λ x. g (ap not (e ∙ r x)))
  where
    not_true : (b : Bool) → not b ≡ true → b ≡ false
    not_true false h = refl
    not_true true h = cc

through_dead :
    {P Q : Type 0} {dead white : Bool}
    → P ↔ (dead ≡ true)
    → dead ≡ white
    → (white ≡ false) ↔ Q
    → P ↔ (¬ Q)
through_dead {white = white} (f, g) e (q, r) = (
  λ p x. true≢false (sym (f p) ∙ e ∙ r x),
  λ n. elim (Bool-cases white) [ inl w ↦ g (e ∙ w) | inr w ↦ absurd (n (q w)) ],
)
  where
    true≢false : ¬ (true ≡ false)
    true≢false h = cc

module _ (h : Heap) (tts : List ℕ) (white : ℕ) (s : Marking) (g : Gc)
    (idle_gc : IsIdle h tts white s g) where
  IsIdle-IsFresh : IsFresh h s
  IsIdle-IsFresh = record {
    white = λ x lt. ap is_white (idle_gc.marks x lt) ∙ is_white-IsColour white idle_gc.colour;
    size = idle_gc.size;
    debt = idle_gc.debt;
  }

  module _ (root : ℕ) (t : Marking) (traced : Traced h s root t) where
    abbrev swept_white : ℕ
    swept_white = other_white g.currentwhite

    white_mark : (x : ℕ) → white_at t x ≡ true → mark_at t x ≡ white
    white_mark x w =
        traced.pure x w ∙ idle_gc.marks x (omega (arith, white_in_range t.marks x w, traced.size))

    swept_is : swept_white ≡ other_white white
    swept_is = ap other_white idle_gc.current

    dead_white : (a : ℕ) → is_dead swept_white (mark_at t a) ≡ white_at t a
    dead_white a =
        ap (λ w. is_dead w (mark_at t a)) swept_is
        ∙ is_dead-flipped white (mark_at t a) idle_gc.colour (white_mark a)

    sized : length tts ≡ length t.marks
    sized = idle_gc.tags ∙ sym traced.size

    debt_left : length (dead_of swept_white (objects_from 0 tts t.marks)) ≤ t.debt + 1
    debt_left =
        let le = dead-le white 0 tts t.marks idle_gc.colour white_mark in
        let same = ap (λ w. length (dead_of w (objects_from 0 tts t.marks))) swept_is in
        omega (arith, le, same, traced.pays)

    kept_Live :
        (a : ℕ)
        → a < length h
        → In a (addresses (survivors_of swept_white (objects_from 0 tts t.marks))) ↔ Live h s root a
    kept_Live a lt =
        let listed =
          subst (λ l. In a l ↔ (not (is_dead swept_white (mark_at t a)) ≡ true))
            (sym (survivors-picked swept_white 0 tts t.marks sized))
            (picked-In_start (λ m. not (is_dead swept_white m)) a t.marks
              (omega (arith, lt, traced.size))) in
        let exact = traced.exact a lt in let same = dead_white a in through_not listed same exact

    freed_Live :
        (a : ℕ)
        → a < length h
        → In a (addresses (dead_of swept_white (objects_from 0 tts t.marks))) ↔ (¬ Live h s root a)
    freed_Live a lt =
        let listed =
          subst (λ l. In a l ↔ (is_dead swept_white (mark_at t a) ≡ true))
            (sym (dead-picked swept_white 0 tts t.marks sized))
            (picked-In_start (λ m. is_dead swept_white m) a t.marks
              (omega (arith, lt, traced.size))) in
        through_dead listed (dead_white a) (traced.exact a lt)

    swept_eq :
        (n fresh : ℕ)
        → length h + 2 < n
        → sweep_all n (begin_sweep fresh (marked_gc g tts t))
          ≡ some (idle (objects_from 0 tts t.marks) (begin_sweep fresh (marked_gc g tts t)))
    swept_eq n fresh lt =
        sweep_all-begin_sweep n fresh (marked_gc g tts t) debt_left
          (omega (arith, lt, length-objects 0 tts t.marks sized, traced.size))

-- A whole cycle of the collector with no step of the program in between, over the objects of a heap
-- that are all white, counted in the debt and none of them the mark of an earlier sweep: with fuel
-- for the objects and three steps it ends idle and panics nowhere; the objects that the root or a
-- reference of the host leads to are those on the list behind the new sweep mark, and the others
-- are those that were freed.
pub collect-Live :
    (n root fresh white a : ℕ) (h : Heap) (tts : List ℕ) (s : Marking) (g : Gc)
    → IsRanked h
    → IsIdle h tts white s g
    → length h + 2 < n
    → a < length h
    → (g' : Gc) × (collect n h tts root fresh s g ≡ some g')
      × (g'.state ≡ 8)
      × (In a (drop 1 (addresses g'.ahead)) ↔ Live h s root a)
      × (In a g'.heap.freed ↔ (¬ Live h s root a))
unfolding collect begin_sweep
collect-Live n root fresh white a h tts s g ranked idle_gc fuel lt =
    let (t, e, traced) =
      mark_cycle-Traced h s root n ranked (IsIdle-IsFresh h tts white s g idle_gc)
        (omega (arith, fuel)) in
    let dead = addresses (dead_of (other_white g.currentwhite) (objects_from 0 tts t.marks)) in
    let freed =
      freed_lem (other_white g.currentwhite) 0 tts t.marks
        (record { sweep_mark = none; freed = g.heap.freed }) idle_gc.plain
      ∙ ap (λ l. l ++ dead) idle_gc.unfreed in
    (
      idle (objects_from 0 tts t.marks) (begin_sweep fresh (marked_gc g tts t)),
      ap (then_sweep n tts fresh g) e ∙ swept_eq h tts white s g idle_gc root t traced n fresh fuel,
      refl,
      kept_Live h tts white s g idle_gc root t traced a lt,
      subst (λ l. In a l ↔ (¬ Live h s root a)) (sym freed)
          (freed_Live h tts white s g idle_gc root t traced a lt),
    )
