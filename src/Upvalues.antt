-- ===== src/Upvalues.antt =====
-- The open upvalues of a thread: `newupval`, `luaF_findupval`, `luaF_unlinkupval` and `luaF_closeupval`
-- of src/lfunc.rs. A stack slot is its index; the value of a slot is `stack` at it. The colours of the
-- upvalues and the write barriers are left aside.
pub mod Sorted
pub mod Find
pub mod Close
pub mod Tbc
pub mod Popped
use tsuki.Base.{
  ℕ, zero, suc, ◌+◌, ◌≤◌, ◌≡◌, Bool, true, false, Option, none, some, List, [], ◌∷◌, leb, ◌==◌,
  if◌then◌else◌,
}

-- An open upvalue: its address, and the slot that it points to.
pub record OpenUpVal : Type 0 where
  pub address : ℕ
  pub level : ℕ

-- The open upvalues in the order of `openupval`, and the addresses of the closed ones with their
-- values.
pub record UpVals {ℓ} (V : Type ℓ) : Type ℓ where
  pub open_list : List OpenUpVal
  pub closed_list : List (ℕ × V)

-- The loop of `luaF_findupval`, with `newupval` at the place where it stops: the address that it
-- returns, and the list after it.
unfoldable pub find_loop : ℕ → ℕ → List OpenUpVal → ℕ × List OpenUpVal
find_loop fresh level [] = (fresh, record { address = fresh; level = level } ∷ [])
find_loop fresh level (p ∷ ps) =
    let rest = find_loop fresh level ps in
    if leb level p.level
    then (if p.level == level then (p.address, p ∷ ps) else (rest.0, p ∷ rest.1))
    else (fresh, record { address = fresh; level = level } ∷ p ∷ ps)

unfoldable pub findupval {ℓ} : {V : Type ℓ} → ℕ → ℕ → UpVals V → ℕ × UpVals V
unfolding find_loop
findupval fresh level u =
    let found = find_loop fresh level u.open_list in (found.0, record u { open_list = found.1 })

-- The loop of `luaF_closeupval`: the first upvalue is unlinked and takes the value of its slot.
unfoldable pub close_loop {ℓ} :
    {V : Type ℓ} → (ℕ → V) → ℕ → List OpenUpVal → List (ℕ × V) → UpVals V
close_loop stack level [] closed = record { open_list = []; closed_list = closed }
close_loop stack level (uv ∷ us) closed =
    let rest = close_loop stack level us ((uv.address, stack uv.level) ∷ closed) in
    if leb level uv.level then rest else record { open_list = uv ∷ us; closed_list = closed }

unfoldable pub closeupval {ℓ} : {V : Type ℓ} → (ℕ → V) → ℕ → UpVals V → UpVals V
unfolding close_loop
closeupval stack level u = close_loop stack level u.open_list u.closed_list

-- What `*uv.v` reads: the slot of an open upvalue, the own value of a closed one.
abbrev pub slot_of : ℕ → List OpenUpVal → Option ℕ
slot_of a [] = none
slot_of a (p ∷ ps) = let rest = slot_of a ps in if p.address == a then some p.level else rest

abbrev pub closed_value {ℓ} : {V : Type ℓ} → ℕ → List (ℕ × V) → Option V
closed_value a [] = none
closed_value a (c ∷ cs) = let rest = closed_value a cs in if c.0 == a then some c.1 else rest

abbrev pub value_at {ℓ} : {V : Type ℓ} → (ℕ → V) → Option ℕ → Option V → Option V
value_at stack (some level) v = some (stack level)
value_at stack none v = v

abbrev pub read {ℓ} : {V : Type ℓ} → (ℕ → V) → UpVals V → ℕ → Option V
read stack u a = value_at stack (slot_of a u.open_list) (closed_value a u.closed_list)
