-- ===== src/StringTable/Lookup.antt =====
-- What a text finds in a table depends on the strings in it only, not on their order or the size.
use tsuki.Base.{
  ℕ, ◌%◌, ◌^◌, ◌≤◌, ◌≡◌, ◌≢◌, ap, sym, ◌∙◌, Bool, true, false, not, Option, List, ◌==◌, length,
  arith, Bool-cases, Option-cases, inl, inr,
}
use tsuki.StringTable.{Str, StringTable, bucket, index, same_bytes, find, luas_hash}
use tsuki.StringTable.Chains.{
  count, total, total-bucket, count-le-total, count_neither, named, same, same_bytes_lem, same_lem,
  find-none_of_count, find-some, find_unique, find-none,
}
use tsuki.StringTable.Rehash.{IsHashed, home, index_lem}

-- The string's hash is not that of its bytes.
abbrev pub misfit : ℕ → Str → Bool
misfit seed e = not (e.hash == luas_hash e.bytes seed)

-- The table's invariant: its size, every string in the bucket of its hash, no text twice, and `nuse`
-- their number.
pub record IsTable (seed k : ℕ) (t : StringTable) : Type 0 where
  pub hashed : IsHashed k t.buckets
  pub hashes : total (misfit seed) t.buckets ≡ 0
  pub unique : (s : List ℕ) → total (named s) t.buckets ≤ 1
  pub used : total (λ e. true) t.buckets ≡ t.nuse

abbrev pub lookup : StringTable → ℕ → List ℕ → Option Str
lookup t seed s = find s (bucket t.buckets (index (length t.buckets) (luas_hash s seed)))

abbrev pub Names : List ℕ → (Str → Bool) → Type 0
Names s p = (e : Str) → p e ≡ true → same_bytes e.bytes s ≡ true

module _ (seed k : ℕ) (t : StringTable) (valid : IsTable seed k t) (s : List ℕ) where
  home_of : ℕ
  home_of = index (length t.buckets) (luas_hash s seed)

  home_lem : home_of ≡ luas_hash s seed % 2 ^ k
  unfolding home_of
  home_lem =
      ap (λ (n : ℕ). index n (luas_hash s seed)) valid.hashed.size ∙ index_lem k (luas_hash s seed)

  here :
      (i : ℕ) (e : Str)
      → home k i e ≡ true
      → misfit seed e ≡ false
      → same_bytes e.bytes s ≡ true
      → i ≡ home_of
  here i e at good bytes =
      let at' : i ≡ e.hash % 2 ^ k = ground (arith, at) in
      let own : e.hash ≡ luas_hash e.bytes seed = ground (arith, good) in
      at'
      ∙ ap (λ (h : ℕ). h % 2 ^ k)
          (own ∙ ap (λ (b : List ℕ). luas_hash b seed) (same_bytes_lem e.bytes s bytes))
      ∙ sym home_lem

  elsewhere :
      (p : Str → Bool) → Names s p → (i : ℕ) → i ≢ home_of → count p (bucket t.buckets i) ≡ 0
  unfolding home_of
  elsewhere p names i ne =
      count_neither p (home k i) (misfit seed) (bucket t.buckets i)
        (λ e at good. elim (Bool-cases (p e)) [
          | inr no_p ↦ no_p
          | inl is_p ↦ absurd (ne (here i e at good (names e is_p)))
        ])
        (valid.hashed.homes i)
        (omega (arith, count-le-total (misfit seed) t.buckets i, valid.hashes))

  pub one_bucket :
      (p : Str → Bool)
      → Names s p
      → total p t.buckets ≡ count p (bucket t.buckets (index (length t.buckets) (luas_hash s seed)))
  unfolding home_of
  one_bucket p names = total-bucket p t.buckets home_of (elsewhere p names)

same-Names : (s : List ℕ) (e : Str) → same_bytes e.bytes s ≡ true → Names s (same e)
same-Names s e bytes d is_e = rw (same_lem e d is_e) bytes

-- Tables with the same strings of a text find the same for it.
pub lookup_agree :
    (seed k k' : ℕ) (t t' : StringTable) (s : List ℕ)
    → IsTable seed k t
    → IsTable seed k' t'
    → ((p : Str → Bool) → Names s p → total p t'.buckets ≡ total p t.buckets)
    → lookup t' seed s ≡ lookup t seed s
lookup_agree seed k k' t t' s valid valid' agrees = elim (Option-cases (lookup t seed s)) [
  | inl missing ↦
      find-none_of_count s _ (
        omega (
          arith,
          one_bucket seed k' t' valid' s (named s) (λ e h. h),
          one_bucket seed k t valid s (named s) (λ e h. h),
          agrees (named s) (λ e h. h),
          find-none s _ missing,
        ))
      ∙ sym missing
  | inr (e, found) ↦
      let (some_e, bytes, some_s) = find-some s _ e found in
      let names = same-Names s e bytes in
      find_unique s _ e bytes
        (omega (arith, valid'.unique s, one_bucket seed k' t' valid' s (named s) (λ e h. h)))
        (omega (
          arith,
          one_bucket seed k' t' valid' s (same e) names,
          one_bucket seed k t valid s (same e) names,
          agrees (same e) names,
        ))
      ∙ sym found
]
