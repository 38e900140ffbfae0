-- ===== src/StringLib/Find/Plain.antt =====
-- A pattern without special characters is a plain text: the matcher finds what a search for it finds.
use tsuki.Base.{
  ℕ, zero, suc, ◌+◌, ◌≤◌, ◌<◌, ◌≡◌, refl, sym, ap, ◌∙◌, arith, Bool, true, false, not, ◌&&◌, ◌==◌,
  Option, none, some, List, [], ◌∷◌, ltb, length, drop, get_elem?, Bool-cases, inl, inr,
  if◌then◌else◌,
}
use tsuki.StringLib.Pattern.{ok, ◌>>=◌}
use tsuki.StringLib.Pattern.Class.{classend, singlematch, match_item}
use tsuki.StringLib.Pattern.Captures.{Capture}
use tsuki.StringLib.Pattern.Match.{
  Out, Matcher, match_0, match_loop, default_item, first_of, other, suffix_of, once, matched,
  unmatched,
}
use tsuki.StringLib.Position.Select.{drop_next}
use tsuki.StringLib.Find.{find_loop, after_try, pattern_find, plain_found, anchored, nospecials}

abbrev pub is_prefix : List ℕ → List ℕ → Bool
is_prefix [] s = true
is_prefix (x ∷ p) [] = false
is_prefix (x ∷ p) (c ∷ s) = x == c && is_prefix p s

abbrev later : Option ℕ → Option ℕ
later none = none
later (some i) = some (suc i)

-- The first place where a text stands.
abbrev pub first_in : List ℕ → List ℕ → Option ℕ
first_in [] p = if is_prefix p [] then some 0 else none
first_in (x ∷ s) p = let rest = later (first_in s p) in if is_prefix p (x ∷ s) then some 0 else rest

-- The shortcut also takes the closing parenthesis for a plain character, which the matcher does not.
abbrev pub no_close : List ℕ → Bool
no_close [] = true
no_close (x ∷ p) = not (x == b')') && no_close p

abbrev pub IsPlain : List ℕ → Type 0
IsPlain p = (nospecials p ≡ true) × (no_close p ≡ true)

IsPlain-tail : (x : ℕ) (p : List ℕ) → IsPlain (x ∷ p) → IsPlain p
unfolding nospecials
IsPlain-tail x p h = (ground (arith, h), ground (arith, h))

first_of-plain : (x : ℕ) (p : List ℕ) → IsPlain (x ∷ p) → first_of x ≡ other
unfolding nospecials
first_of-plain x p h = ground (arith, h)

classend-plain : (x : ℕ) (p : List ℕ) → IsPlain (x ∷ p) → classend (x ∷ p) ≡ ok 1
unfolding nospecials classend
classend-plain x [] h = ground (arith, h)
classend-plain x (y ∷ p) h = ground (arith, h)

match_item-plain : (c x : ℕ) (p : List ℕ) → IsPlain (x ∷ p) → match_item c (x ∷ p) 1 ≡ ok (x == c)
unfolding nospecials
match_item-plain c x p h = ground (arith, h)

no_suffix :
    (x : ℕ) (p : List ℕ)
    → IsPlain (x ∷ p)
    → ((x == b'?') ≡ false) × ((x == b'*') ≡ false) × ((x == b'+') ≡ false) × ((x == b'-') ≡ false)
unfolding nospecials
no_suffix x p h = (ground (arith, h), ground (arith, h), ground (arith, h), ground (arith, h))

suffix_of-plain : (p : List ℕ) → IsPlain p → suffix_of (get_elem? p 0) ≡ once
suffix_of-plain [] h = refl
suffix_of-plain (x ∷ p) h =
    let (optional, star, plus, minus) = no_suffix x p h in rw (optional, star, plus, minus) refl

drop-some : (s : List ℕ) (i c : ℕ) → get_elem? s i ≡ some c → drop i s ≡ c ∷ drop (i + 1) s
drop-some [] i c h = ground arith
drop-some (x ∷ s) zero c h = ground (arith, h)
drop-some (x ∷ s) (suc i) c h =
    let next : suc i + 1 ≡ suc (i + 1) = omega arith in rw (next) (drop-some s i c h)

drop-none : (s : List ℕ) (i : ℕ) → get_elem? s i ≡ none → drop i s ≡ []
drop-none [] zero h = refl
drop-none [] (suc i) h = refl
drop-none (x ∷ s) zero h = ground arith
drop-none (x ∷ s) (suc i) h = drop-none s i h

singlematch-none :
    (src : List ℕ) (off : ℕ) (p : List ℕ) (ep : ℕ)
    → get_elem? src off ≡ none
    → singlematch src off p ep ≡ ok false
unfolding singlematch
singlematch-none src off p ep e =
    ap (λ o. elim o [ none ↦ ok false | some c ↦ match_item c p ep ]) e

singlematch-some :
    (src : List ℕ) (off c : ℕ) (p : List ℕ) (ep : ℕ)
    → get_elem? src off ≡ some c
    → singlematch src off p ep ≡ match_item c p ep
unfolding singlematch
singlematch-some src off c p ep e =
    ap (λ o. elim o [ none ↦ ok false | some b ↦ match_item b p ep ]) e

module _ (src : List ℕ) (rec : Matcher) (caps : List Capture) where
  -- A plain character takes one byte or fails.
  one_byte : Matcher → ℕ → ℕ → List ℕ → Option ℕ → Out
  one_byte next off x q none = ok (none, caps)
  one_byte next off x q (some c) = if x == c then next caps (off + 1) q else ok (none, caps)

  -- The default item from where its single item ends.
  abbrev item_from : Matcher → ℕ → List ℕ → ℕ → Out
  item_from next off p ep = singlematch src off p ep >>= λ m. elim m [
    | true ↦ matched src rec next caps off p ep (suffix_of (get_elem? p ep))
    | false ↦ unmatched next caps off p ep (suffix_of (get_elem? p ep))
  ]

  item_from-plain :
      (next : Matcher) (off x : ℕ) (q : List ℕ) (o : Option ℕ)
      → IsPlain (x ∷ q)
      → get_elem? src off ≡ o
      → item_from next off (x ∷ q) 1 ≡ one_byte next off x q o
  unfolding one_byte
  item_from-plain next off x q none plain e =
      rw (singlematch-none src off (x ∷ q) 1 e, suffix_of-plain q (IsPlain-tail x q plain)) refl
  item_from-plain next off x q (some c) plain e = elim (Bool-cases (x == c)) [
    | inl same ↦
        rw
          (
            singlematch-some src off c (x ∷ q) 1 e ∙ match_item-plain c x q plain ∙ ap ok same,
            suffix_of-plain q (IsPlain-tail x q plain),
            same,
          )
          refl
    | inr apart ↦
        rw
          (
            singlematch-some src off c (x ∷ q) 1 e ∙ match_item-plain c x q plain ∙ ap ok apart,
            suffix_of-plain q (IsPlain-tail x q plain),
            apart,
          )
          refl
  ]

  default_item-plain :
      (next : Matcher) (off x : ℕ) (q : List ℕ)
      → IsPlain (x ∷ q)
      → default_item src rec next caps off (x ∷ q) ≡ one_byte next off x q (get_elem? src off)
  unfolding default_item
  default_item-plain next off x q plain =
      ap (λ r. r >>= item_from next off (x ∷ q)) (classend-plain x q plain)
      ∙ item_from-plain next off x q (get_elem? src off) plain refl

  match_loop-plain :
      (n off : ℕ) (p : List ℕ)
      → length p < n
      → IsPlain p
      → match_loop src rec n caps off p
        ≡ ok (if is_prefix p (drop off src) then some (off + length p) else none, caps)
  unfolding match_loop one_byte
  match_loop-plain zero off p h plain = absurd (omega arith)
  match_loop-plain (suc n) off [] h plain = ap (λ e. ok (some e, caps)) (omega arith)
  match_loop-plain (suc n) off (x ∷ q) h plain = rw (first_of-plain x q plain) (
      default_item-plain (match_loop src rec n) off x q plain
      ∙ by_byte (get_elem? src off) refl
          (match_loop-plain n (off + 1) q (omega arith) (IsPlain-tail x q plain)))
    where
      first_byte :
          (b : Bool)
          → match_loop src rec n caps (off + 1) q
            ≡ ok
                (if is_prefix q (drop (off + 1) src) then some (off + 1 + length q) else none, caps)
          → off + 1 + length q ≡ off + length (x ∷ q)
          → (if b then match_loop src rec n caps (off + 1) q else ok (none, caps))
            ≡ ok (
              if b && is_prefix q (drop (off + 1) src) then some (off + length (x ∷ q)) else none,
              caps,
            )
      first_byte true rest count =
          rest
          ∙ ap (λ k. ok (if is_prefix q (drop (off + 1) src) then some k else none, caps)) count
      first_byte false rest count = refl

      by_byte :
          (o : Option ℕ)
          → get_elem? src off ≡ o
          → match_loop src rec n caps (off + 1) q
            ≡ ok
                (if is_prefix q (drop (off + 1) src) then some (off + 1 + length q) else none, caps)
          → one_byte (match_loop src rec n) off x q o
            ≡ ok (
              if is_prefix (x ∷ q) (drop off src) then some (off + length (x ∷ q)) else none,
              caps,
            )
      by_byte none e rest = rw (drop-none src off e) refl
      by_byte (some c) e rest =
          let count : off + 1 + length q ≡ off + length (x ∷ q) = omega arith in
          rw (drop-some src off c e) (first_byte (x == c) rest count)

match_0-plain :
    (src : List ℕ) (depth : ℕ) (caps : List Capture) (off : ℕ) (p : List ℕ)
    → IsPlain p
    → match_0 src (suc depth) caps off p
      ≡ ok (if is_prefix p (drop off src) then some (off + length p) else none, caps)
unfolding match_0
match_0-plain src depth caps off p plain =
    match_loop-plain src (match_0 src depth) caps (suc (length p)) off p (omega arith) plain

first_in-here : (s p : List ℕ) → is_prefix p s ≡ true → first_in s p ≡ some 0
first_in-here [] p h = rw (h) refl
first_in-here (x ∷ s) p h = rw (h) refl

drop_past : (s : List ℕ) (i : ℕ) → length s ≤ i → drop i s ≡ []
drop_past [] zero h = refl
drop_past [] (suc i) h = refl
drop_past (x ∷ s) zero h = absurd (omega arith)
drop_past (x ∷ s) (suc i) h = drop_past s i (omega arith)

plain_found-later :
    (init lp : ℕ) (o : Option ℕ) → plain_found (init + 1) lp o ≡ plain_found init lp (later o)
plain_found-later init lp none = refl
plain_found-later init lp (some i) =
    let start : init + 1 + i ≡ init + suc i = omega arith in rw (start) refl

first_in-later :
    (s p : List ℕ) (x i : ℕ)
    → drop i s ≡ x ∷ drop (suc i) s
    → is_prefix p (drop i s) ≡ false
    → first_in (drop i s) p ≡ later (first_in (drop (i + 1) s) p)
first_in-later s p x i rest e =
    let next : i + 1 ≡ suc i = omega arith in
    let not_here : is_prefix p (x ∷ drop (suc i) s) ≡ false = ap (is_prefix p) (sym rest) ∙ e in
    rw (rest, not_here, next) refl

module _ (s p : List ℕ) (plain : IsPlain p) where
  find_loop-plain :
      (n init : ℕ)
      → init ≤ length s
      → length s < init + n
      → find_loop s p false n init ≡ ok (plain_found init (length p) (first_in (drop init s) p))
  unfolding find_loop
  find_loop-plain zero init h enough = absurd (omega arith)
  find_loop-plain (suc n) init h enough =
      ap
        (λ o. o >>= after_try (find_loop s p false n (init + 1)) (ltb init (length s) && true) init)
        (match_0-plain s 199 [] init p plain)
      ∙ tried (is_prefix p (drop init s)) (ltb init (length s)) refl refl
          (λ inside. find_loop-plain n (init + 1) (omega (arith, inside)) (omega arith))
    where
      tried :
          (found more : Bool)
          → is_prefix p (drop init s) ≡ found
          → ltb init (length s) ≡ more
          → (init < length s
              → find_loop s p false n (init + 1)
                ≡ ok (plain_found (init + 1) (length p) (first_in (drop (init + 1) s) p)))
          → after_try
              (find_loop s p false n (init + 1))
              (more && true)
              init
              (if found then some (init + length p) else none, [])
            ≡ ok (plain_found init (length p) (first_in (drop init s) p))
      tried true more e m next =
          let same : init + 0 ≡ init = omega arith in
          rw (first_in-here (drop init s) p e, same) refl
      tried false true e m next =
          let inside : init < length s = ground arith in
          let (x, here, rest) = drop_next s init inside in
          next inside
          ∙ ap ok (
              plain_found-later init (length p) (first_in (drop (init + 1) s) p)
              ∙ ap (plain_found init (length p)) (sym (first_in-later s p x init rest e)))
      tried false false e m next =
          let outside : length s ≤ init = ground arith in
          let nothing = drop_past s init outside in
          let nowhere : is_prefix p [] ≡ false = ap (is_prefix p) (sym nothing) ∙ e in
          rw (nothing, nowhere) refl

-- For a pattern that `nospecials` accepts and that has no closing parenthesis, from an initial position
-- in the text, the matcher finds exactly the first place where the pattern stands as a plain text, which
-- is what the shortcut of `string.find` searches for.
pub pattern_find-first_in :
    (s p : List ℕ) (init : ℕ)
    → nospecials p ≡ true
    → no_close p ≡ true
    → init ≤ length s
    → pattern_find s init (anchored p) ≡ ok (plain_found init (length p) (first_in (drop init s) p))
unfolding nospecials
pattern_find-first_in s [] init special close h =
    find_loop-plain s [] (refl, refl) (suc (length s)) init h (omega arith)
pattern_find-first_in s (x ∷ p) init special close h =
    let free : (x == b'^') ≡ false = ground (arith, special) in
    rw (free) (find_loop-plain s (x ∷ p) (special, close) (suc (length s)) init h (omega arith))
