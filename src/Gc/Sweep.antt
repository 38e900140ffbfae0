-- ===== src/Gc/Sweep.antt =====
-- The sweep of src/gc/mod.rs: `alloc`, the part of `step` after the marking, `sweep` and `free`.
-- The list `all` is `ahead ++ rest`: the sweep pointer is the link to `rest`. An object is its
-- address, its type tag and its mark byte.
pub mod Part
pub mod Cycle
use tsuki.Base.{
  ℕ, zero, suc, ◌+◌, ◌-◌, Bool, true, false, not, Option, none, some, List, [], ◌∷◌, ◌++◌, ◌==◌,
  if◌then◌else◌,
}
use tsuki.Gc.Mark.{is_dead, recolour, new_mark, other_white}

pub record Object : Type 0 where
  pub address : ℕ
  pub tt : ℕ
  pub marked : ℕ

-- What was given back to the allocator, and the sweep mark that is kept for the next cycle.
pub record Released : Type 0 where
  pub sweep_mark : Option ℕ
  pub freed : List ℕ

pub record Gc : Type 0 where
  pub state : ℕ
  pub currentwhite : ℕ
  pub ahead : List Object
  pub rest : List Object
  -- whether the sweep pointer is not null
  pub sweep : Bool
  pub heap : Released
  pub debt : ℕ
  pub survivors : ℕ

-- The tag of the object that marks where a sweep began.
abbrev pub sweep_tag : ℕ
sweep_tag = 15

-- The allocator chooses the address.
unfoldable pub alloc : Gc → ℕ → ℕ → Gc
alloc g address tt = record g {
  ahead = record { address = address; tt = tt; marked = new_mark g.currentwhite } ∷ g.ahead;
  debt = g.debt + 1;
}

-- A sweep mark is kept for the next cycle, in place of the one that was kept.
unfoldable pub free : Object → Released → Released
free o h =
    if o.tt == sweep_tag
    then record {
      sweep_mark = some o.address;
      freed = elim h.sweep_mark [ none ↦ h.freed | some p ↦ h.freed ++ (p ∷ []) ];
    }
    else record h { freed = h.freed ++ (o.address ∷ []) }

-- The state that the marking leaves, to the state in which the sweep runs. `fresh` is the address
-- of a new mark, used if none was kept.
unfoldable pub begin_sweep : ℕ → Gc → Gc
begin_sweep fresh g =
    let white = other_white g.currentwhite in
    let address : ℕ = elim g.heap.sweep_mark [ none ↦ fresh | some m ↦ m ] in
    record g {
      state = 3;
      currentwhite = white;
      ahead = record { address = address; tt = sweep_tag; marked = new_mark white } ∷ [];
      rest = g.ahead ++ g.rest;
      sweep = true;
      heap = record { sweep_mark = none; freed = g.heap.freed };
      debt = g.debt + 1;
      survivors = 0;
    }

-- `strict_sub` panics below 0.
abbrev pub strict_sub : ℕ → ℕ → Option ℕ
strict_sub zero (suc m) = none
strict_sub n zero = some n
strict_sub (suc n) (suc m) = strict_sub n m

release : Object → Gc → Option Gc
release o g = elim (strict_sub g.debt 1) [
  | none ↦ none
  | some debt ↦ some (record g { heap = free o g.heap; debt = debt })
]

keep : Object → Gc → Gc
keep o g = record g {
  ahead = g.ahead ++ (record o { marked = recolour g.currentwhite o.marked } ∷ []);
  survivors = g.survivors + 1;
}

-- The loop, with the rounds left and the number of objects freed: a hundred and two at most.
unfoldable pub sweep_loop : ℕ → ℕ → List Object → Gc → Option Gc
unfolding release keep
sweep_loop zero n os g = some (record g { rest = os })
sweep_loop (suc rounds) n [] g = some (record g { rest = [] })
sweep_loop (suc rounds) n (o ∷ os) g = elim (is_dead g.currentwhite o.marked) [
  | true ↦ elim (release o g) [
    | none ↦ none
    | some g' ↦ elim (n + 1 == 2) [
      | true ↦ some (record g' { rest = os })
      | false ↦ sweep_loop rounds (n + 1) os g'
    ]
  ]
  | false ↦ sweep_loop rounds n os (keep o g)
]

is_nil : List Object → Bool
is_nil [] = true
is_nil (_ ∷ _) = false

-- One `step` in state 3: while objects are left to visit, and after.
sweep_more : Gc → Option Gc
unfolding is_nil
sweep_more g = elim (sweep_loop 100 0 g.rest g) [
  | none ↦ none
  | some g' ↦ some (record g' { sweep = not (is_nil g'.rest) })
]

sweep_state : Bool → Gc → Option Gc
unfolding sweep_more
sweep_state true g = sweep_more g
sweep_state false g = some (record g { debt = g.debt + g.survivors; state = 8 })

unfoldable pub sweep_step : Gc → Option Gc
unfolding sweep_state
sweep_step g = sweep_state g.sweep g
