-- ===== src/StringTable/Rehash.antt =====
-- Growing the table to twice its size: every string goes to its new bucket and none is lost.
use native.Mathlib.Nat.{
  pow-suc, one-le-pow, mod-mod_of_dvd, mod-eq_of_lt, mod-eq-sub-mod, mod-lt, dvd-mul_right,
}
use mathlib.Core.Path.{subst}
use tsuki.Base.{
  ℕ, zero, suc, ◌+◌, ◌-◌, ◌*◌, ◌%◌, ◌^◌, ◌≤◌, ◌<◌, ◌≡◌, ◌⊎◌, inl, inr, refl, ap, sym, ◌∙◌, Bool,
  true, ◌||◌, List, [], ◌∷◌, ◌++◌, ◌==◌, ltb, leb, if◌then◌else◌, length, set, arith, Bool-cases,
  ltb→lt, length-set, length-append,
}
use tsuki.Base.Bits.{bit_and_mask}
use tsuki.StringTable.{Str, StringTable, bucket, index, move_chain, rehash_loop, nulls, grow}
use tsuki.StringTable.Chains.{
  AllOf, AllOf-mono, count, total, total-set, total-nulls, Placed, Placed-set,
}

-- The next bit of the hash is 0 or 1.
split_index : (k x : ℕ) → (x % 2 ^ suc k ≡ x % 2 ^ k) ⊎ (x % 2 ^ suc k ≡ x % 2 ^ k + 2 ^ k)
split_index k x =
    let m = 2 ^ k in
    let y = x % 2 ^ suc k in
    let twice : 2 ^ suc k ≡ m * 2 = pow-suc 2 k in
    let again : y % m ≡ x % m = mod-mod_of_dvd m x (rw twice (dvd-mul_right m 2)) in
    let small : y < m * 2 =
      let lt = mod-lt x {m = 2 ^ suc k} (one-le-pow (suc k) 2 (omega arith)) in
      omega (arith, twice) in
    elim (Bool-cases (ltb y m)) [
      | inl low ↦ inl (sym (mod-eq_of_lt {n = y} {m = m} (ltb→lt y m low)) ∙ again)
      | inr high ↦
          let le : m ≤ y = ground (arith, high) in
          inr (
            omega (
              arith,
              again,
              mod-eq-sub-mod {n = y} {m = m} (omega arith),
              mod-eq_of_lt {n = y - m} {m = m} (omega arith),
            ))
    ]

pub index_lem : (k h : ℕ) → index (2 ^ k) h ≡ h % 2 ^ k
index_lem k h = bit_and_mask k h

-- The bucket of a string.
abbrev pub home : ℕ → ℕ → Str → Bool
home n j e = e.hash % 2 ^ n == j

module _ (k : ℕ) where
  -- Where a string may stand once the buckets before `i` were rehashed.
  abbrev during : ℕ → ℕ → Str → Bool
  during i j e = if ltb j i || leb (2 ^ k) j then e.hash % 2 ^ suc k == j else e.hash % 2 ^ k == j

  moved_home :
      (i : ℕ) (e : Str)
      → i < 2 ^ k
      → e.hash % 2 ^ k ≡ i
      → during (suc i) (index (2 ^ suc k) e.hash) e ≡ true
  moved_home i e small at =
      rw (index_lem (suc k) e.hash)
        (elim (split_index k e.hash) [ inl stays ↦ ground arith | inr moves ↦ ground arith ])

  -- What moving a chain or rehashing some buckets keeps.
  record Kept (f : ℕ → Str → Bool) (more : (Str → Bool) → ℕ) (v v' : List (List Str)) : Type 0 where
    pub same_length : length v' ≡ length v
    pub placed : Placed f v'
    pub counts : (p : Str → Bool) → total p v' ≡ total p v + more p

  index-lt : (h : ℕ) → index (2 ^ suc k) h < 2 ^ suc k
  index-lt h = rw (index_lem (suc k) h) (mod-lt h (one-le-pow (suc k) 2 (omega arith)))

  move_chain_lem :
      (i : ℕ) (ps : List Str) (v : List (List Str))
      → i < 2 ^ k
      → length v ≡ 2 ^ suc k
      → AllOf (home k i) ps
      → Placed (during (suc i)) v
      → Kept (during (suc i)) (λ p. count p ps) v (move_chain (2 ^ suc k) ps v)
  move_chain_lem i [] v small len homes placed = record {
    same_length = refl;
    placed = placed;
    counts = λ p. omega arith;
  }
  move_chain_lem i (e ∷ es) v small len homes placed =
      let h = index (2 ^ suc k) e.hash in
      let here : h < length v = rw len (index-lt e.hash) in
      let v1 = set v h (e ∷ bucket v h) in
      let at : e.hash % 2 ^ k ≡ i = ground (arith, homes.0) in
      let placed1 : Placed (during (suc i)) v1 =
        Placed-set (during (suc i)) v h (e ∷ bucket v h) here (moved_home i e small at, placed h)
          (λ j ne. placed j) in
      let rest = move_chain_lem i es v1 small (length-set v h _ ∙ len) homes.1 placed1 in
      record {
        same_length = rest.same_length ∙ length-set v h _;
        placed = rest.placed;
        counts = λ p. omega (arith, rest.counts p, total-set p v h (e ∷ bucket v h) here);
      }

  empty_bucket :
      (i : ℕ) (v : List (List Str))
      → i < length v
      → Placed (during i) v
      → Placed (during (suc i)) (set v i [])
  empty_bucket i v here placed = Placed-set (during (suc i)) v i [] here tt (λ j ne.
      AllOf-mono (during i j) (during (suc i) j) (bucket v j) (λ e h. ground (arith, h)) (placed j))

  rehash_lem :
      (n i : ℕ) (v : List (List Str))
      → i + n ≡ 2 ^ k
      → length v ≡ 2 ^ suc k
      → Placed (during i) v
      → Kept (during (2 ^ k)) (λ p. 0) v (rehash_loop (2 ^ suc k) i n v)
  rehash_lem zero i v all len placed = record {
    same_length = refl;
    placed = let e : i ≡ 2 ^ k = omega arith in rw (← e) placed;
    counts = λ p. omega arith;
  }
  rehash_lem (suc n) i v all len placed =
      let here : i < length v = omega (arith, pow-suc 2 k) in
      let homes : AllOf (home k i) (bucket v i) =
        AllOf-mono (during i i) (home k i) (bucket v i) (λ e h. ground (arith, h)) (placed i) in
      let moved =
        move_chain_lem i (bucket v i) (set v i []) (omega arith) (length-set v i [] ∙ len) homes
          (empty_bucket i v here placed) in
      let v1 = move_chain (2 ^ suc k) (bucket v i) (set v i []) in
      let up : suc i ≡ i + 1 = omega arith in
      let rest =
        rehash_lem n (i + 1) v1 (omega arith) (moved.same_length ∙ length-set v i [] ∙ len)
          (subst (λ (a : ℕ). Placed (during a) v1) up moved.placed) in
      record {
        same_length = rest.same_length ∙ moved.same_length ∙ length-set v i [];
        placed = rest.placed;
        counts = λ p. omega (arith, rest.counts p, moved.counts p, total-set p v i [] here);
      }

-- New buckets are empty.
pub Placed-nulls :
    (v : List (List Str)) (n : ℕ) (f g : ℕ → Str → Bool)
    → ((j : ℕ) (e : Str) → j < length v → g j e ≡ true → f j e ≡ true)
    → Placed g v
    → Placed f (v ++ nulls n)
Placed-nulls [] zero f g h placed j = tt
Placed-nulls [] (suc n) f g h placed zero = tt
Placed-nulls [] (suc n) f g h placed (suc j) =
    Placed-nulls [] n (λ i. f (suc i)) (λ i. g (suc i)) (λ i e lt. absurd (omega arith)) (λ i. tt) j
Placed-nulls (b ∷ v) n f g h placed zero =
    AllOf-mono (g 0) (f 0) b (λ e. h 0 e (omega arith)) (placed 0)
Placed-nulls (b ∷ v) n f g h placed (suc j) =
    Placed-nulls v n (λ i. f (suc i)) (λ i. g (suc i)) (λ i e lt. h (suc i) e (omega arith))
      (λ i. placed (suc i)) j

pub length-nulls : (n : ℕ) → length (nulls n) ≡ n
length-nulls zero = refl
length-nulls (suc n) = ap suc (length-nulls n)

-- The strings stand in the buckets of their hashes, and there are a power of two of these.
pub record IsHashed (k : ℕ) (v : List (List Str)) : Type 0 where
  pub size : length v ≡ 2 ^ k
  pub homes : Placed (home k) v

grow_buckets :
    (k : ℕ) (v : List (List Str))
    → IsHashed k v
    → let v' = rehash_loop (2 ^ suc k) 0 (2 ^ k) (v ++ nulls (2 ^ k)) in
      IsHashed (suc k) v' × ((p : Str → Bool) → total p v' ≡ total p v)
grow_buckets k v hashed =
    let wide = v ++ nulls (2 ^ k) in
    let len : length wide ≡ 2 ^ suc k =
      length-append v (nulls (2 ^ k))
      ∙ omega (arith, hashed.size, length-nulls (2 ^ k), pow-suc 2 k) in
    let start : Placed (during k 0) wide =
      Placed-nulls v (2 ^ k) (during k 0) (home k) (λ j e lt h. ground (arith, h, lt, hashed.size))
        hashed.homes in
    let kept = rehash_lem k (2 ^ k) 0 wide (omega arith) len start in
    (
      record {
        size = kept.same_length ∙ len;
        homes = λ j.
            AllOf-mono (during k (2 ^ k) j) (home (suc k) j) _ (λ e h. ground (arith, h))
              (kept.placed j);
      },
      λ p. kept.counts p ∙ omega (arith, total-nulls p v (2 ^ k)),
    )

pub grow_lem :
    (k : ℕ) (t : StringTable)
    → IsHashed k t.buckets
    → IsHashed (suc k) (StringTable.buckets (grow t (length t.buckets * 2)))
      × ((p : Str → Bool)
          → total p (StringTable.buckets (grow t (length t.buckets * 2))) ≡ total p t.buckets)
unfolding grow
grow_lem k t hashed =
    let twice : length t.buckets * 2 ≡ 2 ^ suc k = omega (arith, hashed.size, pow-suc 2 k) in
    let new_part : length t.buckets * 2 - length t.buckets ≡ 2 ^ k = omega (arith, hashed.size) in
    subst
      (λ (n : ℕ).
        IsHashed (suc k) (
          rehash_loop n 0 (length t.buckets)
            (t.buckets ++ nulls (length t.buckets * 2 - length t.buckets)))
        × ((p : Str → Bool)
            → total p (
                rehash_loop n 0 (length t.buckets)
                  (t.buckets ++ nulls (length t.buckets * 2 - length t.buckets)))
              ≡ total p t.buckets))
      (sym twice) (rw (new_part, hashed.size) (grow_buckets k t.buckets hashed))
