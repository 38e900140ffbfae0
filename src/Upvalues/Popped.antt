-- ===== src/Upvalues/Popped.antt =====
-- `poptbclist` takes back what `luaF_newtbcupval` added.
use tsuki.Base.{
  ℕ, zero, suc, ◌+◌, ◌-◌, ◌≤◌, ◌<◌, ◌≡◌, ◌≢◌, ◌⊎◌, refl, arith, true, false, ◌&&◌, ◌==◌, Option,
  none, some, ltb, leb, Bool-cases, inl, inr,
}
use tsuki.Upvalues.Tbc.{
  TbcList, set_delta, bridge_loop, after_bridge, newtbcupval, pass_loop, poptbclist,
}

-- The start of the stack, or a real slot.
abbrev pub IsReal : TbcList → Type 0
IsReal s = (s.tbclist ≡ 0) ⊎ (s.tbcdelta s.tbclist ≢ 0)

-- From here the way back ends at `origin`, whatever is written further up.
Passes : ℕ → TbcList → Type 0
Passes origin s =
    (delta : ℕ → ℕ) (n : ℕ)
    → ((k : ℕ) → k ≤ s.tbclist → delta k ≡ s.tbcdelta k)
    → s.tbclist < n
    → pass_loop n delta s.tbclist ≡ some origin

Passes-start : (s : TbcList) → IsReal s → Passes s.tbclist s
unfolding Passes
Passes-start s real delta zero same lt = absurd (omega arith)
Passes-start s real delta (suc n) same lt =
    let stops : (ltb 0 s.tbclist && delta s.tbclist == 0) ≡ false =
      ground (arith, same s.tbclist (omega arith), real) in
    rw (stops) refl

Passes-bridge :
    (origin : ℕ) (s : TbcList)
    → Passes origin s
    → Passes origin (record {
      tbclist = s.tbclist + 65535;
      tbcdelta = set_delta s.tbcdelta (s.tbclist + 65535) 0;
    })
unfolding Passes
Passes-bridge origin s passes delta zero same lt = absurd (omega arith)
Passes-bridge origin s passes delta (suc n) same lt =
    let next = s.tbclist + 65535 in
    let bridge : delta next ≡ 0 = ground (arith, same next (omega arith)) in
    let on : (ltb 0 next && delta next == 0) ≡ true = ground (arith, bridge) in
    let back : next - 65535 ≡ s.tbclist = omega arith in
    rw (on, back) (passes delta n (λ k h. ground (arith, same k (omega arith), h)) (omega arith))

-- The slot from which the distance fits.
record IsBridged (origin level : ℕ) (s : TbcList) (r : TbcList) : Type 0 where
  passes : Passes origin r
  below : r.tbclist < level
  near : level - r.tbclist ≤ 65535
  kept : (k : ℕ) → k ≤ s.tbclist → r.tbcdelta k ≡ s.tbcdelta k

bridge :
    (n level origin : ℕ) (s : TbcList)
    → Passes origin s
    → s.tbclist < level
    → level < s.tbclist + n
    → (r : TbcList) × (bridge_loop n level s ≡ some r) × IsBridged origin level s r
bridge zero level origin s passes lt enough = absurd (omega arith)
bridge (suc n) level origin s passes lt enough = elim (Bool-cases (ltb 65535 (level - s.tbclist))) [
  | inr e ↦ (
    s,
    rw (e) refl,
    record { passes = passes; below = lt; near = ground arith; kept = λ k h. refl },
  )
  | inl e ↦
      let far : 65535 < level - s.tbclist = ground arith in
      let next = s.tbclist + 65535 in
      let (r, found, b) =
        bridge n level origin (record { tbclist = next; tbcdelta = set_delta s.tbcdelta next 0 })
          (Passes-bridge origin s passes) (omega arith) (omega arith) in
      (
        r,
        rw (e) found,
        record {
          passes = b.passes;
          below = b.below;
          near = b.near;
          kept = λ k h. ground (arith, b.kept k (omega (arith, h)), h);
        },
      )
]

-- A variable was added at `level`: it is on top, taking it off leads back, and a slot `k` before it holds
-- what it held.
abbrev pub IsAdded : ℕ → ℕ → TbcList → Option TbcList → Type 0
IsAdded level k s none = ⊥
IsAdded level k s (some r) =
    (r.tbclist ≡ level) × IsReal r × (poptbclist r ≡ some s.tbclist) × (r.tbcdelta k ≡ s.tbcdelta k)

added :
    (level k : ℕ) (s r : TbcList)
    → k ≤ s.tbclist
    → s.tbclist < level
    → IsBridged s.tbclist level s r
    → IsAdded level k s (after_bridge level (some r))
unfolding poptbclist Passes
added level k s r h lt b =
    let fits : leb (level - r.tbclist) 65535 ≡ true = ground (arith, b.near) in
    let delta = set_delta r.tbcdelta level (level - r.tbclist) in
    let here : delta level ≡ level - r.tbclist = ground arith in
    let back : level - delta level ≡ r.tbclist = omega (arith, here, b.below) in
    rw (fits) (
      refl,
      inr (λ z. omega (arith, here, b.below, z)),
      rw (back) (
          b.passes delta (suc r.tbclist) (λ j j_below. ground (arith, j_below, b.below))
            (omega arith)),
      ground (arith, b.kept k h, lt, h),
    )

-- From a list whose last slot is real or the start of the stack, a variable at a higher slot is always
-- added; taking it off leads back to that last slot, however far it is, and the slots up to there hold
-- what they held.
pub newtbcupval-IsAdded :
    (level k : ℕ) (s : TbcList)
    → IsReal s
    → k ≤ s.tbclist
    → s.tbclist < level
    → IsAdded level k s (newtbcupval level s)
unfolding newtbcupval
newtbcupval-IsAdded level k s real h lt =
    let (r, found, b) =
      bridge (suc level) level s.tbclist s (Passes-start s real) lt (omega arith) in
    rw (found) (added level k s r h lt b)
