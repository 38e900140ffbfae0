-- ===== src/Gc/Trace.antt =====
-- The marking of src/gc/mod.rs: `mark`, `mark_one_gray` and what they call for each type of object,
-- and the states of `step` up to the end of `finish_marking`. An object is its index in the heap. A
-- reference is `none` where the source has a null pointer or a value that is not collectable. Tables
-- have no `__mode`, so the lists of weak tables stay empty, and those of `finish_marking` that walk
-- them are left out, and so are the collections of the host (tag 0x1E).
pub mod Bytes
pub mod Step
pub mod Marks
pub mod Shapes
pub mod Cycle
pub mod Gray
pub mod Invariant
pub mod Round
pub mod Loops
pub mod Remark
pub mod Finish
pub mod Run
pub mod Reached
use tsuki.Base.{
  ℕ, zero, suc, ◌+◌, Bool, true, false, not, ◌&&◌, ◌||◌, Option, none, some, List, [], ◌∷◌, ◌++◌,
  map, length, get_or, set, if◌then◌else◌, bit_or, ◌==◌, leb, ltb,
}
use tsuki.Gc.Mark.{is_white, set_gray, blacken, black_bit}
use tsuki.Gc.Sweep.{strict_sub}

abbrev pub Ref : Type 0
Ref = Option ℕ

-- An entry of the hash part; `empty` says that its value is nil.
pub record Node : Type 0 where
  pub empty : Bool
  pub key : Ref
  pub value : Ref

-- By type tag: 4 and 14; 9; 7; 5; 6; 38; 10; 8.
pub data Shape : Type 0 where
  leaf : Shape
  upvalue : (is_open : Bool) → (value : Ref) → Shape
  userdata : (props mt uv : Ref) → Shape
  table : (metatable : Ref) → (array : List Ref) → (nodes : List Node) → Shape
  lua_fn : (p : Ref) → (upvals : List Ref) → Shape
  rust_fn : (upvals : List Ref) → Shape
  proto : (k upvalues p locvars : List Ref) → Shape
  thread : (stack : List Ref) → (openupval : List ℕ) → Shape

abbrev pub Heap : Type 0
Heap = List Shape

abbrev pub shape_at : Heap → ℕ → Shape
shape_at h a = get_or h a leaf

-- `state` is 0 while the marking runs and 2 in `finish_marking`.
pub record Marking : Type 0 where
  pub state : ℕ
  pub marks : List ℕ
  pub gray : List ℕ
  pub grayagain : List ℕ
  pub twups : List ℕ
  pub refs : List ℕ
  pub marked_refs : List ℕ
  pub debt : ℕ

infixl 20 ◌>>=◌
abbrev pub ◌>>=◌ : Option Marking → (Marking → Option Marking) → Option Marking
none >>= k = none
some s >>= k = k s

abbrev pub mark_at : Marking → ℕ → ℕ
mark_at s a = get_or s.marks a 0

abbrev pub white_at : Marking → ℕ → Bool
white_at s a = is_white (mark_at s a)

abbrev pub recolour_at : Marking → ℕ → (ℕ → ℕ) → Marking
recolour_at s a f = record s { marks = set s.marks a (f (mark_at s a)) }

-- `debt.update(|v| v.strict_sub(1))`, which panics on 0
unfoldable pub pay : Marking → Option Marking
pay s = elim (strict_sub s.debt 1) [ none ↦ none | some d ↦ some (record s { debt = d }) ]

-- `linkgclist_` to the list `gray`, and to the list `grayagain`
unfoldable pub link_gray : ℕ → Marking → Marking
link_gray a s = recolour_at (record s { gray = a ∷ s.gray }) a set_gray

unfoldable pub link_grayagain : ℕ → Marking → Marking
link_grayagain a s = recolour_at (record s { grayagain = a ∷ s.grayagain }) a set_gray

-- A reference that is collectable and white is marked.
unfoldable pub mark_ref : (ℕ → Marking → Option Marking) → Ref → Marking → Option Marking
mark_ref mk none s = some s
mark_ref mk (some a) s = elim (white_at s a) [ true ↦ mk a s | false ↦ some s ]

abbrev pub is_member : ℕ → List ℕ → Bool
is_member a [] = false
is_member a (x ∷ xs) = a == x || is_member a xs

-- One level of `mark`, which calls itself through `mk`.
unfoldable pub mark_shape : (ℕ → Marking → Option Marking) → ℕ → Shape → Marking → Option Marking
unfolding pay mark_ref link_gray
mark_shape mk a leaf s = pay (recolour_at s a blacken)
mark_shape mk a (upvalue is_open value) s =
    pay (recolour_at s a (if is_open then set_gray else blacken)) >>= mark_ref mk value
mark_shape mk a (userdata props mt uv) s =
    mark_ref mk props s >>= mark_ref mk mt >>= mark_ref mk uv >>= λ t. pay (recolour_at t a blacken)
mark_shape mk a _ s = some (link_gray a s)

-- `mark`: its recursion goes from an upvalue to its value and from a userdata to what it holds, so
-- at most three deep (Gc/Trace/Step).
unfoldable pub mark : Heap → ℕ → ℕ → Marking → Option Marking
unfolding mark_shape
mark h zero a s = none
mark h (suc n) a s = mark_shape (mark h n) a (shape_at h a) s

-- A thread is entered in `twups` once, if it has open upvalues.
unfoldable pub enter_twups : ℕ → List ℕ → Marking → Marking
enter_twups a openupval s =
    if not (is_member a s.twups) && ltb 0 (length openupval)
    then record s { twups = a ∷ s.twups }
    else s

module _ (mk : ℕ → Marking → Option Marking) where
  -- The loops over an array, a stack, constants, names and upvalues.
  unfoldable pub mark_each : List Ref → Marking → Option Marking
  unfolding mark_ref
  mark_each [] s = some s
  mark_each (r ∷ rs) s = mark_ref mk r s >>= mark_each rs

  unfoldable pub mark_nodes : List Node → Marking → Option Marking
  unfolding mark_ref
  mark_nodes [] s = some s
  mark_nodes (n ∷ ns) s =
      elim n.empty [ true ↦ some s | false ↦ mark_ref mk n.key s >>= mark_ref mk n.value ]
      >>= mark_nodes ns

  unfoldable pub mark_strong_table : List Ref → List Node → Marking → Option Marking
  unfolding mark_each mark_nodes
  mark_strong_table array nodes s = mark_each array s >>= mark_nodes nodes

  unfoldable pub mark_table : Ref → List Ref → List Node → Marking → Option Marking
  unfolding mark_ref mark_strong_table
  mark_table metatable array nodes s = mark_ref mk metatable s >>= mark_strong_table array nodes

  unfoldable pub mark_lf : Ref → List Ref → Marking → Option Marking
  unfolding mark_ref mark_each
  mark_lf p upvals s = mark_ref mk p s >>= mark_each upvals

  unfoldable pub mark_rf : List Ref → Marking → Option Marking
  unfolding mark_each
  mark_rf upvals s = mark_each upvals s

  unfoldable pub mark_proto : (k upvalues p locvars : List Ref) → Marking → Option Marking
  unfolding mark_each
  mark_proto k upvalues p locvars s =
      mark_each k s >>= mark_each upvalues >>= mark_each p >>= mark_each locvars

  -- A thread waits in `grayagain` for the end of the marking; only then it is traversed.
  unfoldable pub mark_thread : ℕ → List Ref → List ℕ → Marking → Option Marking
  unfolding mark_each link_grayagain enter_twups
  mark_thread a stack openupval s = elim (s.state == 0) [
    | true ↦ some (link_grayagain a s)
    | false ↦ mark_each stack s >>= mark_each (map some openupval) >>= λ t.
        some (enter_twups a openupval t)
  ]

  -- The match of `mark_one_gray`; `none` where it is `unreachable!`.
  unfoldable pub traverse : ℕ → Shape → Marking → Option Marking
  unfolding mark_table mark_lf mark_rf mark_proto mark_thread
  traverse a (table metatable array nodes) s = mark_table metatable array nodes s
  traverse a (lua_fn p upvals) s = mark_lf p upvals s
  traverse a (rust_fn upvals) s = mark_rf upvals s
  traverse a (proto k upvalues p locvars) s = mark_proto k upvalues p locvars s
  traverse a (thread stack openupval) s = mark_thread a stack openupval s
  traverse a _ s = none
