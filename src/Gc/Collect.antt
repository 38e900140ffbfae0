-- ===== src/Gc/Collect.antt =====
-- A whole cycle of `step` (src/gc/mod.rs): the marking, and then the sweep of the list of all objects.
pub mod Listed
pub mod Dead
pub mod Whole
use mathlib.Core.Path.{subst}
use mathlib.Core.List.{append_assoc, append-nil}
use tsuki.Base.{
  ℕ, zero, suc, ◌+◌, ◌≤◌, ◌<◌, ◌≡◌, ◌≢◌, refl, sym, ap, ◌∙◌, ◌⊎◌, inl, inr, ◌↔◌, arith, Bool, true,
  false, not, ◌&&◌, ◌||◌, ◌^◌, ◌%◌, Option, none, some, List, [], ◌∷◌, ◌++◌, map, length, get_or,
  drop, ◌==◌, if◌then◌else◌, Bool-cases, bit_and,
}
use tsuki.Base.Table.{all_from, all_below, all_below_lem, agree, agree_lem}
use tsuki.Gc.Mark.{is_white, is_dead, other_white, recolour}
use tsuki.Gc.Mark.Colours.{IsColour}
use tsuki.Gc.Sweep.{Object, Gc, Released, free, begin_sweep, sweep_tag}
use tsuki.Gc.Sweep.Part.{survivors_of, dead_of, free_all}
use tsuki.Gc.Sweep.Cycle.{sweep_all, idle, sweep_all-begin_sweep}
use tsuki.Gc.Trace.{Heap, Marking, white_at, mark_at}
use tsuki.Gc.Trace.Bytes.{low_byte, low_lt, is_white-low, whites_in, white_in_range}
use tsuki.Gc.Trace.Step.{In, IsRanked}
use tsuki.Gc.Trace.Cycle.{mark_cycle}
use tsuki.Gc.Trace.Reached.{Live, Traced, mark_cycle-Traced}

-- The list of all objects: their tags and their mark bytes, an address for each in turn.
abbrev pub objects_from : ℕ → List ℕ → List ℕ → List Object
objects_from i [] ms = []
objects_from i (tt ∷ tts) [] = []
objects_from i (tt ∷ tts) (m ∷ ms) =
    record { address = i; tt = tt; marked = m } ∷ objects_from (suc i) tts ms

abbrev pub addresses : List Object → List ℕ
addresses [] = []
addresses (o ∷ os) = o.address ∷ addresses os

-- The collector when the marking `t` is done.
abbrev pub marked_gc : Gc → List ℕ → Marking → Gc
marked_gc g tts t = record g { ahead = []; rest = objects_from 0 tts t.marks; debt = t.debt }

-- `step` until the collector is idle again.
abbrev pub then_sweep : ℕ → List ℕ → ℕ → Gc → Option Marking → Option Gc
then_sweep n tts fresh g none = none
then_sweep n tts fresh g (some t) = sweep_all n (begin_sweep fresh (marked_gc g tts t))

unfoldable pub collect : ℕ → Heap → List ℕ → ℕ → ℕ → Marking → Gc → Option Gc
unfolding mark_cycle begin_sweep
collect n h tts root fresh s g = then_sweep n tts fresh g (mark_cycle h n root s)
