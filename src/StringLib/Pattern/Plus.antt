-- ===== src/StringLib/Pattern/Plus.antt =====
-- The repetition `+` of the matcher (src/builtin/string/mod.rs): `match_0` hands `max_expand` the place
-- of the first byte that matched, and not the one after it.
use mathlib.Core.Path.{ap₂}
use tsuki.Base.{
  ℕ, zero, suc, ◌+◌, ◌≡◌, refl, sym, ap, ◌∙◌, arith, Bool, true, false, ◌||◌, ◌==◌, Option, none,
  some, List, ◌∷◌, length, get_elem?, if◌then◌else◌,
}
use tsuki.StringLib.Pattern.{Res, ok, ◌>>=◌}
use tsuki.StringLib.Pattern.Class.{classend, singlematch, match_item}
use tsuki.StringLib.Pattern.Captures.{Capture}
use tsuki.StringLib.Pattern.Match.{
  Matcher, match_0, match_loop, default_item, first_of, other, count_loop, max_try, max_expand,
  matched, suffix_of,
}

-- A byte that stands for itself in a pattern.
abbrev pub is_plain : ℕ → Bool
is_plain x =
    if x == b'.' || x == b'%' || x == b'[' || x == b'(' || x == b')' || x == b'$'
    then false
    else true

-- The count of matches after a first test.
abbrev counted : Res Bool → Res ℕ → Res ℕ
counted m rest = m >>= λ b. elim b [ true ↦ rest >>= λ k. ok (suc k) | false ↦ ok 0 ]

module _ (x : ℕ) (plain : is_plain x ≡ true) where
  first_of-plain : first_of x ≡ other
  first_of-plain = ground arith

  classend-plain : (y : ℕ) (q : List ℕ) → classend (x ∷ y ∷ q) ≡ ok 1
  unfolding classend
  classend-plain y q = ground arith

  match_item-plain : (c : ℕ) (q : List ℕ) → match_item c (x ∷ q) 1 ≡ ok (x == c)
  match_item-plain c q = ground arith

  -- What follows the byte in the pattern does not change what it matches.
  item_same :
      (o : Option ℕ) (p q : List ℕ)
      → Path
          (Res Bool)
          (elim o [ none ↦ ok false | some c ↦ match_item c (x ∷ p) 1 ])
          (elim o [ none ↦ ok false | some c ↦ match_item c (x ∷ q) 1 ])
  item_same none p q = refl
  item_same (some c) p q = match_item-plain c p ∙ sym (match_item-plain c q)

  singlematch_same :
      (src : List ℕ) (off : ℕ) (p q : List ℕ)
      → singlematch src off (x ∷ p) 1 ≡ singlematch src off (x ∷ q) 1
  unfolding singlematch
  singlematch_same src off p q = item_same (get_elem? src off) p q

  singlematch_here :
      (src : List ℕ) (off : ℕ) (q : List ℕ)
      → get_elem? src off ≡ some x
      → singlematch src off (x ∷ q) 1 ≡ ok true
  unfolding singlematch
  singlematch_here src off q here =
      let same : (x == x) ≡ true = ground arith in
      ap (λ o. elim o [ none ↦ ok false | some c ↦ match_item c (x ∷ q) 1 ]) here
      ∙ match_item-plain x q
      ∙ ap ok same

  count_loop_same :
      (src : List ℕ) (n off : ℕ) (p q : List ℕ)
      → count_loop src (x ∷ p) 1 n off ≡ count_loop src (x ∷ q) 1 n off
  count_loop_same src zero off p q = refl
  count_loop_same src (suc n) off p q =
      ap₂ counted (singlematch_same src off p q) (count_loop_same src n (off + 1) p q)

  -- An item that a repetition may follow, where the byte is at `off`.
  default_item-repeated :
      (src : List ℕ) (rec next : Matcher) (caps : List Capture) (off y : ℕ) (q : List ℕ)
      → get_elem? src off ≡ some x
      → default_item src rec next caps off (x ∷ y ∷ q)
        ≡ matched src rec next caps off (x ∷ y ∷ q) 1 (suffix_of (some y))
  unfolding default_item
  default_item-repeated src rec next caps off y q here =
      let yes : singlematch src off (x ∷ y ∷ q) 1 ≡ ok true =
        singlematch_here src off (y ∷ q) here in
      rw (classend-plain y q, yes) refl

  max_expand_same :
      (src : List ℕ) (rec : Matcher) (caps : List Capture) (off y z : ℕ) (q : List ℕ)
      → max_expand src rec caps off (x ∷ y ∷ q) 1 ≡ max_expand src rec caps off (x ∷ z ∷ q) 1
  unfolding max_expand
  max_expand_same src rec caps off y z q =
      ap (λ m. m >>= max_try rec caps off q)
        (count_loop_same src (suc (length src)) off (y ∷ q) (z ∷ q))

-- Where a byte that stands for itself in a pattern is at the offset in the text, the matcher gives the
-- same for a pattern that begins with that byte and `+` as for the pattern with `*` in place of the `+`:
-- also a match without that byte.
pub match_0-plus :
    (src : List ℕ) (depth : ℕ) (caps : List Capture) (off x : ℕ) (q : List ℕ)
    → is_plain x ≡ true
    → get_elem? src off ≡ some x
    → match_0 src (suc depth) caps off (x ∷ b'+' ∷ q)
      ≡ match_0 src (suc depth) caps off (x ∷ b'*' ∷ q)
unfolding match_0 match_loop
match_0-plus src depth caps off x q plain here =
    let rec = match_0 src depth in
    let next = match_loop src rec (suc (suc (length q))) in
    rw (first_of-plain x plain) (
      default_item-repeated x plain src rec next caps off b'+' q here
      ∙ max_expand_same x plain src rec caps off b'+' b'*' q
      ∙ sym (default_item-repeated x plain src rec next caps off b'*' q here))
