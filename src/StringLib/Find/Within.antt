-- ===== src/StringLib/Find/Within.antt =====
-- A search ends, and what it finds is within the text.
use tsuki.Base.{
  ℕ, zero, suc, ◌+◌, ◌-◌, ◌≤◌, ◌<◌, ◌≡◌, refl, ap, arith, Bool, true, false, not, ◌&&◌, ◌||◌,
  Option, none, some, List, [], ltb, length, drop, take, length-drop, length-take,
}
use tsuki.Base.Int.{ℤ, pos}
use tsuki.StringLib.Pattern.{Res, ok, err, panic, stuck, ◌>>=◌}
use tsuki.StringLib.Pattern.Match.{match_0, Out}
use tsuki.StringLib.Pattern.Sound.{Fits, Sound}
use tsuki.StringLib.Pattern.Sound.Rounds.{match_0-Sound}
use tsuki.StringLib.Position.{posrelat, default_int}
use tsuki.StringLib.Find.{
  Found, find_loop, after_try, pattern_find, plain_found, str_find, anchored, nospecials,
}

abbrev pub IsFound : ℕ → ℕ → Found → Type 0
IsFound size from r =
    (from ≤ r.start) × (r.start ≤ r.stop) × (r.stop ≤ size) × Fits r.stop r.captures

abbrev pub FindsWithin : ℕ → ℕ → Res (Option Found) → Type 0
FindsWithin size from (ok none) = Unit
FindsWithin size from (ok (some r)) = IsFound size from r
FindsWithin size from (err e) = Unit
FindsWithin size from panic = Unit
FindsWithin size from stuck = ⊥

FindsWithin-mono :
    (size lo from : ℕ) (r : Res (Option Found))
    → lo ≤ from
    → FindsWithin size from r
    → FindsWithin size lo r
FindsWithin-mono size lo from (ok none) h f = tt
FindsWithin-mono size lo from (ok (some r)) h f = (omega (arith, f.0), f.1, f.2, f.3)
FindsWithin-mono size lo from (err e) h f = tt
FindsWithin-mono size lo from panic h f = tt
FindsWithin-mono size lo from stuck h f = f

module _ (s p : List ℕ) (anchor : Bool) where
  after_try_within :
      (again : Res (Option Found)) (more : Bool) (init : ℕ) (o : Out)
      → Sound (length s) [] init o
      → (more ≡ true → FindsWithin (length s) init again)
      → FindsWithin (length s) init (o >>= after_try again more init)
  after_try_within again more init (ok (some e, cs)) sound next =
      (omega arith, sound.0, sound.1, sound.2)
  after_try_within again true init (ok (none, cs)) sound next = next refl
  after_try_within again false init (ok (none, cs)) sound next = tt
  after_try_within again more init (err e) sound next = tt
  after_try_within again more init panic sound next = tt
  after_try_within again more init stuck sound next = sound

  find_loop_within :
      (n init : ℕ)
      → init ≤ length s
      → length s < init + n
      → FindsWithin (length s) init (find_loop s p anchor n init)
  unfolding find_loop
  find_loop_within zero init h enough = omega arith
  find_loop_within (suc n) init h enough =
      after_try_within (find_loop s p anchor n (init + 1)) (ltb init (length s) && not anchor) init
        (match_0 s 200 [] init p) (match_0-Sound s 200 [] init p h tt)
        λ more.
          let inside : init < length s = ground arith in
          FindsWithin-mono (length s) init (init + 1) _ (omega arith)
            (find_loop_within n (init + 1) (omega arith) (omega arith))

find_elim_within :
    (size from : ℕ) (b : Bool) (x y : Res (Option Found))
    → FindsWithin size from x
    → (b ≡ false → FindsWithin size from y)
    → FindsWithin size from (elim b [ true ↦ x | false ↦ y ])
find_elim_within size from true x y hx hy = hx
find_elim_within size from false x y hx hy = hy refl

-- What the search for a plain text relies on: where it finds one, the text stands there.
abbrev pub FindsText : (List ℕ → List ℕ → Option ℕ) → Type 0
FindsText memmem =
    (s p : List ℕ) (i : ℕ) → memmem s p ≡ some i → (i ≤ length s) × (take (length p) (drop i s) ≡ p)

plain_found_within :
    (memmem : List ℕ → List ℕ → Option ℕ) (s p : List ℕ) (i : ℕ) (o : Option ℕ)
    → FindsText memmem
    → i ≤ length s
    → memmem (drop i s) p ≡ o
    → FindsWithin (length s) i (ok (plain_found i (length p) o))
plain_found_within memmem s p i none finds h e = tt
plain_found_within memmem s p i (some k) finds h e =
    let found = finds (drop i s) p k e in
    let size : length (take (length p) (drop k (drop i s))) ≡ length p = ap length (found.1) in
    let lengths = length-take (length p) (drop k (drop i s)) in
    let left = length-drop k (drop i s) in
    let stop : i + k + length p ≤ length s =
      omega (arith, size, lengths, left, found.0, length-drop i s) in
    (omega arith, omega arith, stop, tt)

-- `str_find_aux` always comes to an end, and a match that it reports starts no earlier than the
-- initial position, ends no earlier than it starts and no later than the text, and has its captures
-- within the text. For a plain search this supposes that the search of the other package only finds
-- places where the text stands.
pub str_find-FindsWithin :
    (memmem : List ℕ → List ℕ → Option ℕ) (find : Bool) (s p : List ℕ) (init : Option ℤ)
    (plain : Bool)
    → FindsText memmem
    → FindsWithin
        (length s)
        (posrelat (default_int init (pos 1)) (length s) - 1)
        (str_find memmem find s p init plain)
unfolding str_find
str_find-FindsWithin memmem find s p init plain finds =
    let i = posrelat (default_int init (pos 1)) (length s) - 1 in
    find_elim_within (length s) i (ltb (length s) i) _ _ tt λ e.
      let inside : i ≤ length s = ground arith in
      find_elim_within (length s) i (find && (plain || nospecials p)) _ _
        (plain_found_within memmem s p i (memmem (drop i s) p) finds inside refl)
        (λ special. pattern_within i (anchored p) inside)
  where
    pattern_within :
        (i : ℕ) (a : Bool × List ℕ) → i ≤ length s → FindsWithin (length s) i (pattern_find s i a)
    pattern_within i (anchor, q) h = find_loop_within s q anchor (suc (length s)) i h (omega arith)
