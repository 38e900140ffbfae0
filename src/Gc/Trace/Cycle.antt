-- ===== src/Gc/Trace/Cycle.antt =====
-- The states of `step` that mark, up to the end of `finish_marking` (src/gc/mod.rs), in one run with
-- no step of the program between them. The collector has no weak table, so `finish_marking` stops
-- after the objects of `grayagain`.
use tsuki.Base.{
  ℕ, zero, suc, true, false, not, ◌&&◌, Option, none, some, List, [], ◌∷◌, ◌++◌, map, length,
  bit_or, ltb,
}
use tsuki.Gc.Mark.{black_bit}
use tsuki.Gc.Trace.{
  Ref, Shape, Heap, shape_at, Marking, ◌>>=◌, white_at, recolour_at, pay, mark_ref, mark, mark_each,
  traverse, upvalue, thread,
}

-- How deep `mark` calls itself.
abbrev pub depth : ℕ
depth = 3

abbrev pub open_upvalues : Shape → List ℕ
open_upvalues (thread stack openupval) = openupval
open_upvalues _ = []

abbrev pub upvalue_value : Shape → Ref
upvalue_value (upvalue is_open value) = value
upvalue_value _ = none

module _ (h : Heap) where
  -- The list is not empty where the source calls this.
  unfoldable pub mark_one_gray : Marking → Option Marking
  unfolding traverse mark
  mark_one_gray s = elim s.gray [
    | [] ↦ none
    | o ∷ rest ↦
        traverse (mark h depth) o (shape_at h o)
          (recolour_at (record s { gray = rest }) o (λ m. bit_or m black_bit))
  ]

  unfoldable pub mark_all_gray : ℕ → Marking → Option Marking
  unfolding mark_one_gray
  mark_all_gray zero s = elim s.gray [ [] ↦ some s | _ ∷ _ ↦ none ]
  mark_all_gray (suc n) s = elim s.gray [
    | [] ↦ some s
    | _ ∷ _ ↦ mark_one_gray s >>= mark_all_gray n
  ]

  -- The steps of state 0.
  unfoldable pub propagate : ℕ → Marking → Option Marking
  unfolding mark_one_gray pay
  propagate zero s = elim s.gray [ [] ↦ some (record s { state = 1 }) | _ ∷ _ ↦ none ]
  propagate (suc n) s = elim s.gray [
    | [] ↦ some (record s { state = 1 })
    | _ ∷ _ ↦ mark_one_gray s >>= pay >>= propagate n
  ]

  -- State 8, once enough objects are new. The list `refs` is empty until new references are made.
  unfoldable pub start_marking : ℕ → Marking → Option Marking
  unfolding mark_ref mark_each mark
  start_marking root s =
      let held = s.refs in
      let t : Marking = record s {
        gray = [];
        grayagain = [];
        refs = [];
        marked_refs = elim held [ [] ↦ s.marked_refs | r ∷ rs ↦ r ∷ rs ];
      } in
      mark_ref (mark h depth) (some root) t >>= mark_each (mark h depth) (map some held) >>= λ u.
      some (record u { state = 0 })

  unfoldable pub remark_values : List ℕ → Marking → Option Marking
  unfolding mark_ref mark
  remark_values [] s = some s
  remark_values (uv ∷ uvs) s = elim (white_at s uv) [
    | true ↦ remark_values uvs s
    | false ↦ mark_ref (mark h depth) (upvalue_value (shape_at h uv)) s >>= remark_values uvs
  ]

  -- `kept` are the threads that stay in `twups`.
  unfoldable pub remark_loop : List ℕ → List ℕ → Marking → Option Marking
  unfolding remark_values
  remark_loop kept [] s = some (record s { twups = kept })
  remark_loop kept (th ∷ ths) s =
      elim (not (white_at s th) && ltb 0 (length (open_upvalues (shape_at h th)))) [
        | true ↦ remark_loop (kept ++ th ∷ []) ths s
        | false ↦ remark_values (open_upvalues (shape_at h th)) s >>= remark_loop kept ths
      ]

  unfoldable pub remark_upvalues : Marking → Option Marking
  unfolding remark_loop
  remark_upvalues s = remark_loop [] s.twups s

  unfoldable pub finish_marking : ℕ → Marking → Option Marking
  unfolding mark_each mark mark_all_gray remark_upvalues
  finish_marking n s =
      let again = s.grayagain in
      let t : Marking = record s {
        grayagain = [];
        refs = s.refs ++ s.marked_refs;
        marked_refs = [];
      } in
      mark_each (mark h depth) (map some s.refs) t
      >>= mark_all_gray n
      >>= remark_upvalues
      >>= mark_all_gray n
      >>= (λ u. some (record u { gray = again }))
      >>= mark_all_gray n

  -- The marking of a whole cycle.
  unfoldable pub mark_cycle : ℕ → ℕ → Marking → Option Marking
  unfolding start_marking propagate finish_marking
  mark_cycle n root s =
      start_marking root s
      >>= propagate n
      >>= (λ t. some (record t { state = 2 }))
      >>= finish_marking n
