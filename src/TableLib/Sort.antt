-- ===== src/TableLib/Sort.antt =====
-- `sort` of src/builtin/table/mod.rs: `auxsort`, `partition` and `choose_pivot`. The table is its list
-- of items, which nothing but the sort changes and which has no metamethods; an access outside it is
-- `no_item`. A comparison may raise an error and keeps a state of its own, `W`, from which the random
-- numbers come as well. A u32 is a number below 2 ^ 32.
pub mod Moves
pub mod Ensures
pub mod Inner
pub mod Partition
pub mod Ends
pub mod Around
pub mod SplitAt
pub mod Sorted
pub mod Whole
use tsuki.Base.{
  ℕ, zero, suc, ◌+◌, ◌-◌, ◌*◌, ◌/◌, ◌%◌, ◌^◌, Bool, true, false, ◌||◌, Option, none, some, List, [],
  ◌∷◌, length, get_elem?, set, ◌==◌, ltb, leb, if◌then◌else◌,
}

pub data Problem : Type 0 where
  invalid_order : Problem
  compare_error : Problem
  too_big : Problem
  no_item : Problem
  out_of_rounds : Problem

pub record State {ℓ} (V : Type ℓ) (W : Type 0) : Type ℓ where
  pub items : List V
  pub world : W

-- A result, or an error, with the state that it leaves.
pub data Outcome {ℓ} (V : Type ℓ) (W : Type 0) (A : Type ℓ) : Type ℓ where
  ok : A → State V W → Outcome V W A
  fail : Problem → State V W → Outcome V W A

infixl 20 ◌>>=◌
abbrev pub ◌>>=◌ {ℓ} :
    {V : Type ℓ} {W : Type 0} {A B : Type ℓ}
    → Outcome V W A
    → (A → State V W → Outcome V W B)
    → Outcome V W B
ok a s >>= k = k a s
fail p s >>= k = fail p s

abbrev pub wrapping_add : ℕ → ℕ → ℕ
wrapping_add a b = (a + b) % 2 ^ 32

abbrev pub wrapping_sub : ℕ → ℕ → ℕ
wrapping_sub a b = (a + 2 ^ 32 - b) % 2 ^ 32

unfoldable pub choose_pivot : ℕ → ℕ → ℕ → ℕ
choose_pivot lo up rnd =
    let r4 = wrapping_sub up lo / 4 in wrapping_add (rnd % (r4 * 2)) (wrapping_add lo r4)

unfoldable pub pivot_of : ℕ → ℕ → ℕ → ℕ
unfolding choose_pivot
pivot_of lo up rnd =
    if ltb (up - lo) 100 || rnd == 0 then wrapping_add lo up / 2 else choose_pivot lo up rnd

module _ {V : Type 0} {W : Type 0} where
  abbrev pub compared : State V W → Option (Bool × W) → Outcome V W Bool
  compared s none = fail compare_error s
  compared s (some (r, w)) = ok r (record s { world = w })

  abbrev pub found_item : Option V → State V W → Outcome V W V
  found_item none s = fail no_item s
  found_item (some v) s = ok v s

  -- `index` and `set` of the thread; the first item is that of 1.
  unfoldable pub index_item : ℕ → State V W → Outcome V W V
  index_item zero s = fail no_item s
  index_item (suc i) s = found_item (get_elem? s.items i) s

  unfoldable pub set_item : ℕ → V → State V W → State V W
  set_item i v s = record s { items = set s.items (i - 1) v }

module _ {V : Type 0} {W : Type 0} (compare : W → V → V → Option (Bool × W)) where
  unfoldable pub sort_comp : V → V → State V W → Outcome V W Bool
  sort_comp a b s = compared s (compare s.world a b)

  -- The two inner loops of `partition`, with the rounds left.
  unfoldable pub next_up : ℕ → V → ℕ → ℕ → State V W → Outcome V W (ℕ × V)
  unfolding index_item sort_comp
  next_up zero a up i s = fail out_of_rounds s
  next_up (suc n) a up i s =
      let i' = wrapping_add i 1 in
      index_item i' s >>= λ b t. sort_comp b a t >>= λ less u. elim less [
        | false ↦ ok (i', b) u
        | true ↦ elim (i' == wrapping_sub up 1) [
          | true ↦ fail invalid_order u
          | false ↦ next_up n a up i' u
        ]
      ]

  unfoldable pub next_down : ℕ → V → ℕ → ℕ → State V W → Outcome V W (ℕ × V)
  unfolding index_item sort_comp
  next_down zero a i j s = fail out_of_rounds s
  next_down (suc n) a i j s =
      let j' = wrapping_sub j 1 in
      index_item j' s >>= λ c t. sort_comp a c t >>= λ less u. elim less [
        | false ↦ ok (j', c) u
        | true ↦ elim (ltb j' i) [ true ↦ fail invalid_order u | false ↦ next_down n a i j' u ]
      ]

  unfoldable pub partition_loop : ℕ → V → ℕ → ℕ → ℕ → State V W → Outcome V W ℕ
  unfolding next_up next_down set_item
  partition_loop zero a up i j s = fail out_of_rounds s
  partition_loop (suc n) a up i j s = next_up (suc n) a up i s >>= λ (i', b) t.
      next_down (suc n) a i' j t >>= λ (j', c) u. elim (ltb j' i') [
        | true ↦ ok i' (set_item i' a (set_item (wrapping_sub up 1) b u))
        | false ↦ partition_loop n a up i' j' (set_item j' b (set_item i' c u))
      ]

  unfoldable pub partition : ℕ → V → ℕ → ℕ → State V W → Outcome V W ℕ
  unfolding partition_loop
  partition n a lo up s = partition_loop n a up lo (wrapping_sub up 1) s

  -- The least and greatest of the range in order, and then the pivot between them.
  unfoldable pub order_ends : ℕ → ℕ → State V W → Outcome V W Bool
  unfolding index_item set_item sort_comp
  order_ends lo up s = index_item up s >>= λ a t. index_item lo t >>= λ b u.
      sort_comp a b u >>= λ less v. elim less [
        | true ↦ ok true (set_item up b (set_item lo a v))
        | false ↦ ok false v
      ]

  unfoldable pub order_pivot : ℕ → ℕ → ℕ → State V W → Outcome V W Bool
  unfolding index_item set_item sort_comp
  order_pivot lo up p s = index_item p s >>= λ a t. index_item lo t >>= λ b u.
      sort_comp a b u >>= λ less v. elim less [
        | true ↦ ok true (set_item lo a (set_item p b v))
        | false ↦ index_item up v >>= λ c w. sort_comp c a w >>= λ more x. elim more [
          | true ↦ ok true (set_item up a (set_item p c x))
          | false ↦ ok false x
        ]
      ]

  -- The pivot goes next to the end of the range, and the rest is partitioned around it.
  unfoldable pub split_at : ℕ → ℕ → ℕ → ℕ → State V W → Outcome V W ℕ
  unfolding index_item set_item partition
  split_at n lo up p s = index_item p s >>= λ a t. index_item (wrapping_sub up 1) t >>= λ b u.
      partition n a lo up (set_item (wrapping_sub up 1) a (set_item p b u))

module _ {V : Type 0} {W : Type 0} (compare : W → V → V → Option (Bool × W))
    (random : W → ℕ × W) where
  -- `rand::random`, for a range that was split badly.
  unfoldable pub next_random : ℕ → ℕ → ℕ → ℕ → State V W → Outcome V W ℕ
  next_random lo up n rnd s =
      if ltb n (wrapping_sub up lo / 128)
      then (let (r, w) = random s.world in ok r (record s { world = w }))
      else ok rnd s

  abbrev pub Sorter : Type 0
  Sorter = ℕ → ℕ → ℕ → State V W → Outcome V W (Unit {0})

  -- Both sides of the pivot `p`, the shorter one first.
  unfoldable pub sort_sides : Sorter → ℕ → ℕ → ℕ → ℕ → State V W → Outcome V W (Unit {0})
  unfolding next_random
  sort_sides rec lo up rnd p s = elim (ltb (wrapping_sub p lo) (wrapping_sub up p)) [
    | true ↦ rec lo (wrapping_sub p 1) rnd s >>= λ _ t.
        next_random (wrapping_add p 1) up (wrapping_sub p lo) rnd t >>= λ r u.
        rec (wrapping_add p 1) up r u
    | false ↦ rec (wrapping_add p 1) up rnd s >>= λ _ t.
        next_random lo (wrapping_sub p 1) (wrapping_sub up p) rnd t >>= λ r u.
        rec lo (wrapping_sub p 1) r u
  ]

  -- A round of the loop of `auxsort`, for a range of two items or more.
  unfoldable pub sort_round : Sorter → ℕ → ℕ → ℕ → State V W → Outcome V W (Unit {0})
  unfolding order_ends pivot_of order_pivot split_at sort_sides
  sort_round rec lo up rnd s = order_ends compare lo up s >>= λ _ t. elim (up - lo == 1) [
    | true ↦ ok tt t
    | false ↦ order_pivot compare lo up (pivot_of lo up rnd) t >>= λ _ u. elim (up - lo == 2) [
      | true ↦ ok tt u
      | false ↦ split_at compare (up - lo) lo up (pivot_of lo up rnd) u >>= λ p v.
          sort_sides rec lo up rnd p v
    ]
  ]

  unfoldable pub auxsort : ℕ → Sorter
  unfolding sort_round
  auxsort zero lo up rnd s = fail out_of_rounds s
  auxsort (suc n) lo up rnd s = elim (ltb lo up) [
    | true ↦ sort_round (auxsort n) lo up rnd s
    | false ↦ ok tt s
  ]

  unfoldable pub sort : State V W → Outcome V W (Unit {0})
  unfolding auxsort
  sort s =
      let n = length s.items in
      if leb n 1
      then ok tt s
      else if leb 2147483647 n
      then fail too_big s
      else auxsort (n + 1) 1 n 0 s
