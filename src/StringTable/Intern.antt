-- ===== src/StringTable/Intern.antt =====
-- Interning (src/string/table.rs, src/string/mod.rs) as a map from texts to strings.
use tsuki.Base.{
  ℕ, suc, ◌+◌, ◌%◌, ◌^◌, ◌≤◌, ◌<◌, ◌≡◌, ◌≢◌, refl, ap, sym, ◌∙◌, Bool, true, false, Option, none,
  some, List, [], ◌∷◌, leb, length, set, arith, Bool-cases, Option-cases, inl, inr, length-set,
  get_or-set_self,
}
use mathlib.Core.Path.{subst}
use native.Mathlib.Nat.{mod-lt, one-le-pow}
use tsuki.StringTable.{
  Str, StringTable, bucket, index, same_bytes, grow, make_room, after_find, after_insert, insert,
  intern, luas_hash, new_table,
}
use tsuki.StringTable.Chains.{
  total, tick, total-set, total-nulls, named, same_bytes_refl, same_bytes_lem, find-none, find-some,
  Placed-set,
}
use tsuki.StringTable.Rehash.{IsHashed, home, index_lem, grow_lem, Placed-nulls, length-nulls}
use tsuki.StringTable.Lookup.{IsTable, misfit, lookup, one_bucket, lookup_agree}

make_room_lem :
    (seed k : ℕ) (t : StringTable)
    → IsTable seed k t
    → (k' : ℕ) × IsTable seed k' (make_room t)
      × ((p : Str → Bool) → total p (StringTable.buckets (make_room t)) ≡ total p t.buckets)
make_room_lem seed k t valid = elim (Bool-cases (leb (length t.buckets) t.nuse)) [
  | inr roomy ↦ rw roomy (k, valid, λ p. refl)
  | inl full ↦
      let (hashed, totals) = grow_lem k t valid.hashed in
      rw full (
        suc k,
        record {
          hashed = hashed;
          hashes = totals (misfit seed) ∙ valid.hashes;
          unique = λ s. omega (arith, totals (named s), valid.unique s);
          used = totals (λ e. true) ∙ valid.used ∙ (unfold grow in refl);
        },
        totals,
      )
]

make_room_nuse : (t : StringTable) → StringTable.nuse (make_room t) ≡ t.nuse
unfolding grow
make_room_nuse t = elim (Bool-cases (leb (length t.buckets) t.nuse)) [
  | inl full ↦ rw full refl
  | inr roomy ↦ rw roomy refl
]

-- The table with a new string at the front of its bucket.
abbrev added : StringTable → ℕ → Str → StringTable
added t used v =
    let i = index (length t.buckets) v.hash in
    record { buckets = set t.buckets i (v ∷ bucket t.buckets i); nuse = used + 1 }

pub index-lt :
    (k : ℕ) (t : StringTable) (h : ℕ)
    → IsHashed k t.buckets
    → index (length t.buckets) h < length t.buckets
index-lt k t h hashed = rw (hashed.size, index_lem k h) (mod-lt h (one-le-pow k 2 (omega arith)))

total-added :
    (k : ℕ) (t : StringTable) (used : ℕ) (v : Str)
    → IsHashed k t.buckets
    → (p : Str → Bool)
    → total p (StringTable.buckets (added t used v)) ≡ total p t.buckets + tick (p v)
total-added k t used v hashed p =
    let i = index (length t.buckets) v.hash in
    omega (arith, total-set p t.buckets i (v ∷ bucket t.buckets i) (index-lt k t v.hash hashed))

module _ (seed k : ℕ) (t : StringTable) (used : ℕ) (v : Str) (valid : IsTable seed k t)
    (own : v.hash ≡ luas_hash v.bytes seed) where
  totals :
      (p : Str → Bool)
      → total p (StringTable.buckets (added t used v)) ≡ total p t.buckets + tick (p v)
  totals = total-added k t used v valid.hashed

  added-IsHashed : IsHashed k (StringTable.buckets (added t used v))
  added-IsHashed =
      let i = index (length t.buckets) v.hash in
      let at : i ≡ v.hash % 2 ^ k =
        ap (λ (n : ℕ). index n v.hash) valid.hashed.size ∙ index_lem k v.hash in
      record {
        size = length-set t.buckets i _ ∙ valid.hashed.size;
        homes =
            Placed-set (home k) t.buckets i (v ∷ bucket t.buckets i)
              (index-lt k t v.hash valid.hashed) (ground (arith, at), valid.hashed.homes i)
              (λ j ne. valid.hashed.homes j);
      }

  added_unique :
      lookup t seed v.bytes ≡ none
      → (s : List ℕ) → total (named s) (StringTable.buckets (added t used v)) ≤ 1
  added_unique missing s = elim (Bool-cases (same_bytes v.bytes s)) [
    | inr other ↦ omega (arith, totals (named s), ap tick other, valid.unique s)
    | inl is_v ↦
        let none_before : total (named s) t.buckets ≡ 0 =
          subst (λ (b : List ℕ). total (named b) t.buckets ≡ 0) (same_bytes_lem v.bytes s is_v)
            (one_bucket seed k t valid v.bytes (named v.bytes) (λ e h. h)
              ∙ find-none v.bytes _ missing) in
        omega (arith, totals (named s), ap tick is_v, none_before)
  ]

  added-IsTable : used ≡ t.nuse → lookup t seed v.bytes ≡ none → IsTable seed k (added t used v)
  added-IsTable same_use missing = record {
    hashed = added-IsHashed;
    hashes =
        let fits : misfit seed v ≡ false = ground (arith, own) in
        omega (arith, totals (misfit seed), valid.hashes, ap tick fits);
    unique = added_unique missing;
    used = omega (arith, totals (λ e. true), valid.used);
  }

  added-found : lookup (added t used v) seed v.bytes ≡ some v
  added-found =
      let i = index (length t.buckets) v.hash in
      rw
        (
          length-set t.buckets i (v ∷ bucket t.buckets i),
          ← own,
          get_or-set_self t.buckets i (v ∷ bucket t.buckets i) []
              (index-lt k t v.hash valid.hashed),
          same_bytes_refl v.bytes,
        )
        refl

  added-others :
      used ≡ t.nuse
      → lookup t seed v.bytes ≡ none
      → (s : List ℕ) → s ≢ v.bytes
      → lookup (added t used v) seed s ≡ lookup t seed s
  added-others same_use missing s ne =
      lookup_agree seed k k t (added t used v) s valid (added-IsTable same_use missing) (λ p names.
        elim (Bool-cases (p v)) [
          | inl is_v ↦ absurd (ne (sym (same_bytes_lem v.bytes s (names v is_v))))
          | inr no_v ↦ omega (arith, totals p, ap tick no_v)
        ])

-- The short string that `intern` makes for a text.
abbrev made : ℕ → ℕ → List ℕ → Str
made seed fresh s = record { address = fresh; hash = luas_hash s seed; bytes = s }

intern_known :
    (seed fresh : ℕ) (t : StringTable) (s : List ℕ) (e : Str)
    → lookup t seed s ≡ some e
    → intern t seed fresh s ≡ (e, false, t)
unfolding intern insert
intern_known seed fresh t s e found =
    ap (λ (r : Option Str). after_insert (made seed fresh s) (after_find t r)) found

intern_new :
    (seed fresh : ℕ) (t : StringTable) (s : List ℕ)
    → lookup t seed s ≡ none
    → intern t seed fresh s
      ≡ (made seed fresh s, true, added (make_room t) t.nuse (made seed fresh s))
unfolding intern insert
intern_new seed fresh t s missing =
    ap (λ (r : Option Str). after_insert (made seed fresh s) (after_find t r)) missing

-- What interning a text gives: a string of it, in a table that is valid and otherwise the same map.
pub record Interned (seed : ℕ) (t : StringTable) (s : List ℕ) (result : Str × Bool × StringTable)
    : Type 0 where
  pub valid : (k : ℕ) × IsTable seed k result.2
  pub text : Str.bytes result.0 ≡ s
  pub found : lookup result.2 seed s ≡ some result.0
  pub others : (s' : List ℕ) → s' ≢ s → lookup result.2 seed s' ≡ lookup t seed s'
  pub once : (e : Str) → lookup t seed s ≡ some e → result ≡ (e, false, t)
  pub first : lookup t seed s ≡ none → result.1 ≡ true

Interned-known :
    (seed k : ℕ) (t : StringTable) (s : List ℕ) (e : Str)
    → IsTable seed k t
    → lookup t seed s ≡ some e
    → Interned seed t s (e, false, t)
Interned-known seed k t s e valid found = record {
  valid = (k, valid);
  text = same_bytes_lem e.bytes s (find-some s _ e found).1;
  found = found;
  others = λ s' ne. refl;
  once = λ e' again. let same_e : e ≡ e' = cc in ap (λ (x : Str). (x, false, t)) same_e;
  first = λ missing. let no : some e ≡ none = sym found ∙ missing in cc;
}

Interned-new :
    (seed k fresh : ℕ) (t : StringTable) (s : List ℕ)
    → IsTable seed k t
    → lookup t seed s ≡ none
    → Interned seed t s (made seed fresh s, true, added (make_room t) t.nuse (made seed fresh s))
Interned-new seed k fresh t s valid missing =
    let (k', roomy, totals) = make_room_lem seed k t valid in
    let v = made seed fresh s in
    let same_use : t.nuse ≡ StringTable.nuse (make_room t) = sym (make_room_nuse t) in
    let kept : (s' : List ℕ) → lookup (make_room t) seed s' ≡ lookup t seed s' =
      λ s'. lookup_agree seed k k' t (make_room t) s' valid roomy (λ p names. totals p) in
    let missing' : lookup (make_room t) seed s ≡ none = kept s ∙ missing in
    record {
      valid = (k', added-IsTable seed k' (make_room t) t.nuse v roomy refl same_use missing');
      text = refl;
      found = added-found seed k' (make_room t) t.nuse v roomy refl;
      others = λ s' ne.
          added-others seed k' (make_room t) t.nuse v roomy refl same_use missing' s' ne ∙ kept s';
      once = λ e there. let no : none ≡ some e = sym missing ∙ there in cc;
      first = λ _. refl;
    }

-- Interning a text in a valid table, its resize included, leaves a valid table in which the text
-- finds the string that was returned and every other text finds what it found before. A text that is
-- there gives the string that is there and leaves the table alone; only a text that is not makes a
-- string.
pub intern-Interned :
    (seed k fresh : ℕ) (t : StringTable) (s : List ℕ)
    → IsTable seed k t
    → Interned seed t s (intern t seed fresh s)
intern-Interned seed k fresh t s valid = elim (Option-cases (lookup t seed s)) [
  | inr (e, found) ↦
      rw (intern_known seed fresh t s e found) (Interned-known seed k t s e valid found)
  | inl missing ↦
      rw (intern_new seed fresh t s missing) (Interned-new seed k fresh t s valid missing)
]

-- The empty table.
pub new_table-IsTable : (seed : ℕ) → IsTable seed 7 new_table
unfolding new_table
new_table-IsTable seed = record {
  hashed = record {
    size = length-nulls 128;
    homes = Placed-nulls [] 128 (home 7) (home 7) (λ j e lt h. h) (λ j. tt);
  };
  hashes = total-nulls (misfit seed) [] 128;
  unique = λ s. omega (arith, total-nulls (named s) [] 128);
  used = total-nulls (λ e. true) [] 128;
}
