-- ===== src/Tests/Tracing.antt =====
-- The marking and a whole cycle of the collector on a small heap.
use tsuki.Base.{
  ℕ, zero, suc, ◌<◌, ◌≡◌, ◌≢◌, refl, ap, inl, ◌↔◌, arith, true, false, Option, none, some, List, [],
  ◌∷◌, drop,
}
use tsuki.Gc.Mark.{is_white, set_gray, blacken, is_dead}
use tsuki.Gc.Sweep.{Gc, sweep_step, sweep_loop, free}
use tsuki.Gc.Trace.{
  Heap, leaf, upvalue, userdata, table, lua_fn, thread, Marking, white_at, mark_at,
}
use tsuki.Gc.Trace.Step.{In, IsRanked}
use tsuki.Gc.Trace.Cycle.{mark_cycle}
use tsuki.Gc.Trace.Run.{IsFresh}
use tsuki.Gc.Trace.Reached.{Live, mark_cycle-Reach}
use tsuki.Gc.Collect.{addresses, collect}
use tsuki.Gc.Collect.Whole.{IsIdle, collect-Live}

-- The registry 0 holds the main thread 1, on whose stack is a function 2 with an open upvalue 3 of a
-- userdata 4 whose metatable is 5; the table 6 and the string 7 refer to each other from nowhere.
abbrev small_heap : Heap
small_heap =
    table none (some 1 ∷ none ∷ []) []
    ∷ thread (some 2 ∷ none ∷ []) (3 ∷ [])
    ∷ lua_fn none (some 3 ∷ [])
    ∷ upvalue true (some 4)
    ∷ userdata none (some 5) none
    ∷ table none [] (record { empty = true; key = some 7; value = none } ∷ [])
    ∷ table none [] (record { empty = false; key = some 7; value = some 6 } ∷ [])
    ∷ leaf
    ∷ []

abbrev before : Marking
before = record {
  state = 8;
  marks = 8 ∷ 8 ∷ 8 ∷ 8 ∷ 8 ∷ 8 ∷ 8 ∷ 8 ∷ [];
  gray = [];
  grayagain = [];
  twups = [];
  refs = [];
  marked_refs = [];
  debt = 8;
}

abbrev idle_gc : Gc
idle_gc = record {
  state = 8;
  currentwhite = 8;
  ahead = [];
  rest = [];
  sweep = false;
  heap = record { sweep_mark = none; freed = [] };
  debt = 8;
  survivors = 0;
}

abbrev tags : List ℕ
tags = 5 ∷ 8 ∷ 6 ∷ 9 ∷ 7 ∷ 5 ∷ 5 ∷ 4 ∷ []

small-IsRanked : IsRanked small_heap
small-IsRanked zero = tt
small-IsRanked (suc zero) = tt
small-IsRanked (suc (suc zero)) = tt
small-IsRanked (suc (suc (suc zero))) = (omega arith, tt)
small-IsRanked (suc (suc (suc (suc zero)))) = (omega arith, tt)
small-IsRanked (suc (suc (suc (suc (suc zero))))) = tt
small-IsRanked (suc (suc (suc (suc (suc (suc zero)))))) = tt
small-IsRanked (suc (suc (suc (suc (suc (suc (suc zero))))))) = tt
small-IsRanked (suc (suc (suc (suc (suc (suc (suc (suc a)))))))) = tt

all_eight : (x : ℕ) → x < 8 → mark_at before x ≡ 8
all_eight zero lt = refl
all_eight (suc zero) lt = refl
all_eight (suc (suc zero)) lt = refl
all_eight (suc (suc (suc zero))) lt = refl
all_eight (suc (suc (suc (suc zero)))) lt = refl
all_eight (suc (suc (suc (suc (suc zero))))) lt = refl
all_eight (suc (suc (suc (suc (suc (suc zero)))))) lt = refl
all_eight (suc (suc (suc (suc (suc (suc (suc zero))))))) lt = refl
all_eight (suc (suc (suc (suc (suc (suc (suc (suc x)))))))) lt = absurd (omega arith)

before-IsFresh : IsFresh small_heap before
unfolding is_white
before-IsFresh = record {
  white = λ x lt. ap is_white (all_eight x lt);
  size = refl;
  debt = omega arith;
}

mark_cycle-Reach_example :
    (t : Marking) × (mark_cycle small_heap 8 0 before ≡ some t)
    × ((white_at t 4 ≡ false) ↔ Live small_heap before 0 4)
mark_cycle-Reach_example =
    mark_cycle-Reach small_heap before 0 8 4 small-IsRanked before-IsFresh (omega arith)
      (omega arith)

small-IsIdle : IsIdle small_heap tags 8 before idle_gc
small-IsIdle = record {
  colour = inl refl;
  current = refl;
  marks = all_eight;
  size = refl;
  debt = omega arith;
  tags = refl;
  plain = (
    ne 5 (omega arith),
    (
      ne 8 (omega arith),
      (
        ne 6 (omega arith),
        (
          ne 9 (omega arith),
          (
            ne 7 (omega arith),
            (ne 5 (omega arith), (ne 5 (omega arith), (ne 4 (omega arith), tt))),
          ),
        ),
      ),
    ),
  );
  unfreed = refl;
}
  where
    ne : (n : ℕ) → n < 15 → n ≢ 15
    ne n lt e = omega arith

collect-Live_example :
    (g' : Gc) × (collect 11 small_heap tags 0 100 before idle_gc ≡ some g')
    × (g'.state ≡ 8)
    × (In 6 (drop 1 (addresses g'.ahead)) ↔ Live small_heap before 0 6)
    × (In 6 g'.heap.freed ↔ (¬ Live small_heap before 0 6))
collect-Live_example =
    collect-Live 11 0 100 8 6 small_heap tags before idle_gc small-IsRanked small-IsIdle
      (omega arith) (omega arith)

abbrev freed_of : Option Gc → List ℕ
freed_of none = []
freed_of (some g) = g.heap.freed

collect_test : freed_of (collect 11 small_heap tags 0 100 before idle_gc) ≡ 6 ∷ 7 ∷ []
unfolding collect is_white set_gray sweep_step sweep_loop is_dead blacken free
collect_test = refl
