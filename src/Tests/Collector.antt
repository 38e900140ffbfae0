-- ===== src/Tests/Collector.antt =====
-- Marks and sweeps at concrete inputs.
use tsuki.Base.{◌≡◌, refl, inl, none, false, [], ◌∷◌, arith}
use tsuki.Gc.Mark.Colours.{mark-Transitions, Transitions}
use tsuki.Gc.Mark.{is_dead, other_white}
use tsuki.Gc.Sweep.{Gc, begin_sweep, free}
use tsuki.Gc.Sweep.Cycle.{idle}

mark-Transitions_example : Transitions 8 16
mark-Transitions_example = mark-Transitions 8 16 (inl refl) (omega arith) (λ h. omega (arith, h))

-- A black object and one that stayed white.
abbrev marked_heap : Gc
marked_heap = record {
  state = 2;
  currentwhite = 8;
  ahead =
      record { address = 100; tt = 5; marked = 32 }
      ∷ record { address = 200; tt = 4; marked = 8 }
      ∷ [];
  rest = [];
  sweep = false;
  heap = record { sweep_mark = none; freed = [] };
  debt = 2;
  survivors = 0;
}

freed_test :
    Gc.heap (idle marked_heap.ahead (begin_sweep 300 marked_heap))
    ≡ record { sweep_mark = none; freed = 200 ∷ [] }
unfolding begin_sweep is_dead other_white free
freed_test = refl
