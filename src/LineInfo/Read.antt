-- ===== src/LineInfo/Read.antt =====
-- `luaG_getfuncline` reads the lines that `savelineinfo` was given.
use tsuki.Base.{
  ℕ, zero, suc, ◌+◌, ◌-◌, ◌/◌, ◌≤◌, ◌<◌, ◌≡◌, ◌⊎◌, sym, ap, ◌∙◌, arith, false, ◌&&◌, ◌||◌, ◌==◌,
  List, ltb, leb, length, get_or, Bool-cases, inl, inr,
}
use tsuki.Base.Int.{ℤ, pos, ◌+ℤ◌}
use tsuki.LineInfo.{Lines, AbsLineInfo, abs_at, base_loop, add_loop, getbaseline, getfuncline}
use tsuki.LineInfo.Kept.{IsKept, Entry, line_at, line_before, fits_next}

-- Where the search for a base line stops: at the last absolute entry that is not past `pc`.
abbrev Stops : List AbsLineInfo → ℕ → ℕ → Type 0
Stops xs pc r =
    (r ≤ length xs)
    × ((r ≡ 0) ⊎ ((abs_at xs (r - 1)).pc ≤ pc))
    × ((r ≡ length xs) ⊎ (pc < (abs_at xs r).pc))

base_loop-Stops :
    (xs : List AbsLineInfo) (pc n j : ℕ)
    → j ≤ length xs
    → length xs < j + n
    → (j ≡ 0) ⊎ ((abs_at xs (j - 1)).pc ≤ pc)
    → Stops xs pc (base_loop xs pc n j)
unfolding base_loop
base_loop-Stops xs pc zero j h enough before = absurd (omega arith)
base_loop-Stops xs pc (suc n) j h enough before =
    elim (Bool-cases (ltb j (length xs) && leb (abs_at xs j).pc pc)) [
      | inl e ↦
          let inside : j < length xs = ground arith in
          let under : (abs_at xs j).pc ≤ pc = ground arith in
          let same : j + 1 - 1 ≡ j = omega arith in
          rw (e)
            (base_loop-Stops xs pc n (j + 1) (omega arith) (omega arith) (inr (rw (same) under)))
      | inr e ↦ rw (e) (h, before, ground arith)
    ]

lt_cases : (j r : ℕ) → (j < r) ⊎ (r ≤ j)
lt_cases j r = omega arith

le_cases : (i j : ℕ) → i ≤ j → (i < j) ⊎ (i ≡ j)
le_cases i j h = omega arith

module _ (d : ℤ) (ls : List ℤ) (s : Lines) (kept : IsKept d ls s) where
  -- Adding up the differences from an instruction on, where no entry is absolute.
  add_loop-line :
      (n k pc : ℕ) (line : ℤ)
      → k + n ≡ pc + 1
      → pc < length ls
      → line ≡ line_before d ls k
      → ((i j : ℕ)
          → k ≤ i
          → i ≤ pc
          → j < length s.abslineinfo
          → (abs_at s.abslineinfo j).pc ≡ i
          → ⊥)
      → add_loop s.lineinfo n k line ≡ line_before d ls (pc + 1)
  unfolding add_loop
  add_loop-line zero k pc line end under start plain =
      start ∙ ap (line_before d ls) (omega (arith, end))
  add_loop-line (suc n) k pc line end under start plain =
      add_loop-line n (k + 1) pc (line +ℤ get_or s.lineinfo k (pos 0)) (omega arith) under
        (next (kept.stored.entries k (omega (arith, end, under))))
        (λ i j from to. plain i j (omega arith) to)
    where
      next :
          Entry d ls s.lineinfo s.abslineinfo k
          → line +ℤ get_or s.lineinfo k (pos 0) ≡ line_before d ls (k + 1)
      next (inl (e, plain)) = let same : k + 1 ≡ suc k = omega arith in rw (start, same) (sym e)
      next (inr (j, lt, e)) = absurd (plain k j (omega arith) (omega (arith, end)) lt e)

  order_le :
      (i j : ℕ)
      → i ≤ j
      → j < length s.abslineinfo
      → (abs_at s.abslineinfo i).pc ≤ (abs_at s.abslineinfo j).pc
  order_le i j h lt = elim (le_cases i j h) [
    | inl less ↦ omega (arith, kept.stored.order i j less lt)
    | inr same ↦ rw (same) (omega arith)
  ]

  -- A first instruction and the line before it, with no absolute entry from there to `pc`.
  abbrev IsBase : ℕ → ℕ × ℤ → Type 0
  IsBase pc base =
      (base.0 ≤ pc + 1)
      × (base.1 ≡ line_before d ls base.0)
      × ((i j : ℕ)
          → base.0 ≤ i
          → i ≤ pc
          → j < length s.abslineinfo
          → (abs_at s.abslineinfo j).pc ≡ i
          → ⊥)

  start-IsBase :
      (pc : ℕ)
      → (length s.abslineinfo ≡ 0) ⊎ (pc < (abs_at s.abslineinfo 0).pc)
      → IsBase pc (0, s.linedefined)
  start-IsBase pc before = (
    omega arith,
    kept.stored.defined,
    λ i j from to lt e. omega (arith, before, order_le 0 j (omega arith) lt, e, to, lt),
  )

  entry-IsBase :
      (pc r : ℕ)
      → 1 ≤ r
      → Stops s.abslineinfo pc r
      → IsBase pc ((abs_at s.abslineinfo (r - 1)).pc + 1, (abs_at s.abslineinfo (r - 1)).line)
  entry-IsBase pc r positive (bound, reached, beyond) =
      let (under, same, marked) = kept.stored.lines (r - 1) (omega arith) in
      let after : (abs_at s.abslineinfo (r - 1)).pc + 1 ≡ suc (abs_at s.abslineinfo (r - 1)).pc =
        omega arith in
      (
        omega (arith, reached, positive),
        sym same ∙ ap (line_before d ls) (sym after),
        λ i j from to lt e. elim (lt_cases j r) [
          | inl old ↦ omega (arith, order_le j (r - 1) (omega arith) (omega arith), from, e)
          | inr new ↦ omega (arith, order_le r j new lt, beyond, e, to, lt, new)
        ],
      )

  guess_early :
      (pc : ℕ) → pc < length ls → (pc / 128 ≡ 0) ⊎ ((abs_at s.abslineinfo (pc / 128 - 1)).pc ≤ pc)
  guess_early pc under = elim (lt_cases 0 (pc / 128)) [
    | inl later ↦ inr (
        omega (
          arith,
          kept.stored.early (pc / 128 - 1)
              (omega (arith, fits_next d ls s (pos 0) kept, under, later)),
          later,
        ))
    | inr first ↦ inl (omega (arith, first))
  ]

  not_first :
      (pc r : ℕ)
      → (r ≡ length s.abslineinfo) ⊎ (pc < (abs_at s.abslineinfo r).pc)
      → 0 < length s.abslineinfo
      → (abs_at s.abslineinfo 0).pc ≤ pc
      → 1 ≤ r
  not_first pc zero beyond some_entry first = omega (arith, beyond, some_entry, first)
  not_first pc (suc r) beyond some_entry first = omega arith

  getbaseline-IsBase : (pc : ℕ) → pc < length ls → IsBase pc (getbaseline s pc)
  unfolding getbaseline
  getbaseline-IsBase pc under =
      let xs = s.abslineinfo in
      elim (Bool-cases ((length xs == 0) || ltb pc (abs_at xs 0).pc)) [
        | inl e ↦ rw (e) (start-IsBase pc (ground arith))
        | inr e ↦
            let some_entry : 0 < length xs = ground arith in
            let first : (abs_at xs 0).pc ≤ pc = ground arith in
            let guess : (pc / 128 ≡ 0) ⊎ ((abs_at xs (pc / 128 - 1)).pc ≤ pc) =
              guess_early pc under in
            let stops =
              base_loop-Stops xs pc (suc (length xs)) (pc / 128)
                (omega (arith, fits_next d ls s (pos 0) kept, under)) (omega arith) guess in
            rw (e) (
              entry-IsBase pc (base_loop xs pc (suc (length xs)) (pc / 128))
                (not_first pc (base_loop xs pc (suc (length xs)) (pc / 128)) stops.2 some_entry
                  first)
                stops)
      ]

  -- Every instruction of a function reads back its line.
  pub getfuncline-line : (pc : ℕ) → pc < length ls → getfuncline s pc ≡ line_at ls pc
  unfolding getfuncline
  getfuncline-line pc under =
      let (low, start, plain) = getbaseline-IsBase pc under in
      let base = getbaseline s pc in
      let present : (length s.lineinfo == 0) ≡ false = ground (arith, kept.stored.sizes, under) in
      let after : pc + 1 ≡ suc pc = omega arith in
      rw (present) (
        add_loop-line (pc + 1 - base.0) base.0 pc base.1 (omega (arith, low)) under start plain
        ∙ ap (line_before d ls) after)
