-- ===== src/Upvalues/Tbc.antt =====
-- The list of the variables to be closed: `luaF_newtbcupval` and `poptbclist` of src/lfunc.rs. Each slot of
-- the list holds its distance to the one before in a `u16`; slots with the distance 0 bridge a longer way.
-- A stack slot is its index.
use tsuki.Base.{ℕ, zero, suc, ◌+◌, ◌-◌, ◌&&◌, ◌==◌, Option, none, some, ltb, leb, if◌then◌else◌}

pub record TbcList : Type 0 where
  pub tbclist : ℕ
  pub tbcdelta : ℕ → ℕ

abbrev pub set_delta : (ℕ → ℕ) → ℕ → ℕ → ℕ → ℕ
set_delta delta i v k = if k == i then v else delta k

-- The loop that bridges a distance of more than 65535, with fuel.
abbrev pub bridge_loop : ℕ → ℕ → TbcList → Option TbcList
bridge_loop zero level s = none
bridge_loop (suc n) level s =
    let next = s.tbclist + 65535 in
    let rest =
      bridge_loop n level (record { tbclist = next; tbcdelta = set_delta s.tbcdelta next 0 }) in
    if ltb 65535 (level - s.tbclist) then rest else some s

-- `none` is also the distance that does not fit.
abbrev pub after_bridge : ℕ → Option TbcList → Option TbcList
after_bridge level none = none
after_bridge level (some s) =
    if leb (level - s.tbclist) 65535
    then some
        (record { tbclist = level; tbcdelta = set_delta s.tbcdelta level (level - s.tbclist) })
    else none

unfoldable pub newtbcupval : ℕ → TbcList → Option TbcList
newtbcupval level s = after_bridge level (bridge_loop (suc level) level s)

-- The loop that passes the bridges back to a real slot or to the start of the stack.
abbrev pub pass_loop : ℕ → (ℕ → ℕ) → ℕ → Option ℕ
pass_loop zero delta t = none
pass_loop (suc n) delta t =
    let rest = pass_loop n delta (t - 65535) in if ltb 0 t && delta t == 0 then rest else some t

unfoldable pub poptbclist : TbcList → Option ℕ
poptbclist s = let t = s.tbclist - s.tbcdelta s.tbclist in pass_loop (suc t) s.tbcdelta t
