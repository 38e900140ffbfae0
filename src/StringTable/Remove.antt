-- ===== src/StringTable/Remove.antt =====
-- Taking a string out of the table (src/string/table.rs).
use tsuki.Base.{
  ℕ, ◌+◌, ◌-◌, ◌≤◌, ◌<◌, ◌≡◌, ◌≢◌, refl, ap, sym, ◌∙◌, Bool, true, false, Option, none, some, List,
  [], ◌∷◌, ◌==◌, length, set, arith, Bool-cases, inl, inr, length-set,
}
use tsuki.StringTable.{
  Str, StringTable, bucket, index, unlink, after_unlink, remove_at, remove, luas_hash,
}
use tsuki.StringTable.Chains.{
  AllOf, total, count, tick, total-set, named, same, same_lem, same_bytes_lem, same_bytes_refl,
  find-none_of_count, find-some, Placed-set, count-le-total,
}
use tsuki.StringTable.Rehash.{home}
use tsuki.StringTable.Lookup.{IsTable, misfit, lookup, one_bucket, lookup_agree}
use tsuki.StringTable.Intern.{index-lt}

abbrev pub at_address : ℕ → Str → Bool
at_address a e = e.address == a

same-at : (e d : Str) → same e d ≡ true → at_address e.address d ≡ true
same-at e d h = ground (arith, h)

count-same : (e : Str) (xs : List Str) → count (same e) xs ≤ count (at_address e.address) xs
count-same e [] = omega arith
count-same e (d ∷ ds) = elim (Bool-cases (same e d)) [
  | inl is_e ↦ omega (arith, ap tick is_e, ap tick (same-at e d is_e), count-same e ds)
  | inr other ↦ omega (arith, ap tick other, count-same e ds)
]

-- A test that no string of the chain passes fails on each of them.
count-false :
    (p : Str → Bool) (e : Str) (xs : List Str)
    → count p xs ≡ 0
    → 0 < count (same e) xs
    → p e ≡ false
count-false p e [] clear some_e = absurd (omega arith)
count-false p e (d ∷ ds) clear some_e = elim (Bool-cases (same e d)) [
  | inr other ↦ count-false p e ds (omega arith) (omega (arith, ap tick other))
  | inl is_e ↦ elim (Bool-cases (p e)) [
    | inr no_p ↦ no_p
    | inl is_p ↦ absurd (omega (arith, ap tick (ap p (same_lem e d is_e) ∙ is_p)))
  ]
]

-- The chain without the string.
record Unlinked (e : Str) (xs : List Str) : Type 0 where
  pub left : List Str
  pub returns : unlink e.address xs ≡ some left
  pub counts : (p : Str → Bool) → count p xs ≡ count p left + tick (p e)
  pub kept : (p : Str → Bool) → AllOf p xs → AllOf p left

unlink_lem :
    (e : Str) (xs : List Str)
    → count (at_address e.address) xs ≤ 1
    → 0 < count (same e) xs
    → Unlinked e xs
unlink_lem e [] few some_e = absurd (omega arith)
unlink_lem e (d ∷ ds) few some_e = elim (Bool-cases (same e d)) [
  | inl is_e ↦ record {
    left = ds;
    returns = rw (same-at e d is_e) refl;
    counts = λ p. omega (arith, ap (λ (x : Str). tick (p x)) (same_lem e d is_e));
    kept = λ p all. all.1;
  }
  | inr other ↦
      let later : 0 < count (same e) ds = omega (arith, ap tick other) in
      elim (Bool-cases (at_address e.address d)) [
        | inl clash ↦ absurd (omega (arith, ap tick clash, count-same e ds))
        | inr apart ↦
            let rest = unlink_lem e ds (omega (arith, ap tick apart)) later in
            record {
              left = d ∷ rest.left;
              returns = rw (apart, rest.returns) refl;
              counts = λ p. omega (arith, rest.counts p);
              kept = λ p all. (all.0, rest.kept p all.1);
            }
      ]
]

-- What removing a string gives: a valid table without its text, which is otherwise the same map.
pub record Removed (seed k : ℕ) (t : StringTable) (e : Str) (result : Option StringTable)
    : Type 0 where
  pub after : StringTable
  pub returns : result ≡ some after
  pub valid : IsTable seed k after
  pub absent : lookup after seed e.bytes ≡ none
  pub others : (s : List ℕ) → s ≢ e.bytes → lookup after seed s ≡ lookup t seed s

module _ (seed k : ℕ) (t : StringTable) (e : Str) (valid : IsTable seed k t)
    (alone : total (at_address e.address) t.buckets ≤ 1)
    (there : lookup t seed e.bytes ≡ some e) where
  chain : List Str
  chain = bucket t.buckets (index (length t.buckets) (luas_hash e.bytes seed))

  in_chain : 0 < count (same e) chain
  unfolding chain
  in_chain = (find-some e.bytes _ e there).0

  own_hash : e.hash ≡ luas_hash e.bytes seed
  unfolding chain
  own_hash =
      let fits : misfit seed e ≡ false =
        count-false (misfit seed) e chain
          (omega (
            arith,
            count-le-total (misfit seed) t.buckets
                (index (length t.buckets) (luas_hash e.bytes seed)),
            valid.hashes,
          ))
          in_chain in
      ground (arith, fits)

  unlinked : Unlinked e chain
  unfolding chain
  unlinked =
      unlink_lem e chain
        (omega (
          arith,
          count-le-total (at_address e.address) t.buckets
              (index (length t.buckets) (luas_hash e.bytes seed)),
          alone,
        ))
        in_chain

  without : StringTable
  without = record {
    buckets = set t.buckets (index (length t.buckets) (luas_hash e.bytes seed)) unlinked.left;
    nuse = t.nuse - 1;
  }

  totals : (p : Str → Bool) → total p t.buckets ≡ total p without.buckets + tick (p e)
  unfolding without chain
  totals p =
      let i = index (length t.buckets) (luas_hash e.bytes seed) in
      omega (
        arith,
        total-set p t.buckets i unlinked.left (index-lt k t (luas_hash e.bytes seed) valid.hashed),
        unlinked.counts p,
      )

  without-IsTable : IsTable seed k without
  unfolding without chain
  without-IsTable =
      let i = index (length t.buckets) (luas_hash e.bytes seed) in
      record {
        hashed = record {
          size = length-set t.buckets i _ ∙ valid.hashed.size;
          homes =
              Placed-set (home k) t.buckets i unlinked.left
                (index-lt k t (luas_hash e.bytes seed) valid.hashed)
                (unlinked.kept (home k i) (valid.hashed.homes i)) (λ j ne. valid.hashed.homes j);
        };
        hashes = omega (arith, totals (misfit seed), valid.hashes);
        unique = λ s. omega (arith, totals (named s), valid.unique s);
        used = omega (arith, totals (λ x. true), valid.used);
      }

  without_absent : lookup without seed e.bytes ≡ none
  without_absent = find-none_of_count e.bytes _ (
      omega (
        arith,
        one_bucket seed k without without-IsTable e.bytes (named e.bytes) (λ x h. h),
        totals (named e.bytes),
        ap tick (same_bytes_refl e.bytes),
        valid.unique e.bytes,
      ))

  without_others : (s : List ℕ) → s ≢ e.bytes → lookup without seed s ≡ lookup t seed s
  without_others s ne = lookup_agree seed k k t without s valid without-IsTable (λ p names.
      elim (Bool-cases (p e)) [
        | inl is_e ↦ absurd (ne (sym (same_bytes_lem e.bytes s (names e is_e))))
        | inr no_e ↦ omega (arith, totals p, ap tick no_e)
      ])

  -- Removing a string that its text finds in a valid table, in which no other string has its
  -- address, stops at it and leaves a valid table in which its text finds nothing and every other
  -- text finds what it found before.
  pub remove-Removed : Removed seed k t e (remove t e)
  unfolding remove without chain
  remove-Removed = record {
    after = without;
    returns =
        ap (λ (h : ℕ). remove_at t h e.address) own_hash
        ∙ ap (after_unlink t (index (length t.buckets) (luas_hash e.bytes seed))) unlinked.returns;
    valid = without-IsTable;
    absent = without_absent;
    others = without_others;
  }
