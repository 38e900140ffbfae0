-- ===== src/StringLib/Find.antt =====
-- `str_find_aux` of src/builtin/string/mod.rs, the search that `string.find` and `string.match` share.
-- The search for a plain text is of another package: a parameter.
pub mod Within
pub mod Plain
use tsuki.Base.{
  ℕ, zero, suc, ◌+◌, ◌-◌, Bool, true, false, not, ◌&&◌, ◌||◌, Option, none, some, List, [], ◌∷◌,
  ltb, ◌==◌, length, drop, if◌then◌else◌,
}
use tsuki.Base.Int.{ℤ, pos}
use tsuki.StringLib.Pattern.{Res, ok, err, panic, stuck, ◌>>=◌}
use tsuki.StringLib.Pattern.Captures.{Capture}
use tsuki.StringLib.Pattern.Match.{match_0}
use tsuki.StringLib.Position.{posrelat, default_int}

unfoldable pub nospecials : List ℕ → Bool
nospecials [] = true
nospecials (b ∷ p) =
    if b == b'^'
      || b == b'$'
      || b == b'*'
      || b == b'+'
      || b == b'?'
      || b == b'.'
      || b == b'('
      || b == b'['
      || b == b'%'
      || b == b'-'
    then false
    else nospecials p

-- Where a match starts and ends, and its captures.
pub record Found : Type 0 where
  pub start : ℕ
  pub stop : ℕ
  pub captures : List Capture

-- The result of a try at `init`, and the next try where there is one.
abbrev pub after_try : Res (Option Found) → Bool → ℕ → Option ℕ × List Capture → Res (Option Found)
after_try again more init (some e, cs) =
    ok (some (record { start = init; stop = e; captures = cs }))
after_try again more init (none, cs) = elim more [ true ↦ again | false ↦ ok none ]

-- With fuel for the tries that are left.
unfoldable pub find_loop : List ℕ → List ℕ → Bool → ℕ → ℕ → Res (Option Found)
find_loop s p anchor zero init = stuck
find_loop s p anchor (suc n) init =
    match_0 s 200 [] init p
    >>= after_try (find_loop s p anchor n (init + 1)) (ltb init (length s) && not anchor) init

abbrev pub plain_found : ℕ → ℕ → Option ℕ → Option Found
plain_found init lp none = none
plain_found init lp (some i) =
    some (record { start = init + i; stop = init + i + lp; captures = [] })

-- A pattern that starts with `^` is anchored.
abbrev pub anchored : List ℕ → Bool × List ℕ
anchored [] = (false, [])
anchored (x ∷ p) = if x == b'^' then (true, p) else (false, x ∷ p)

abbrev pub pattern_find : List ℕ → ℕ → Bool × List ℕ → Res (Option Found)
pattern_find s init (anchor, p) = find_loop s p anchor (suc (length s)) init

-- `plain` is the fourth argument; each match gives the pushed values.
unfoldable pub str_find :
    (List ℕ → List ℕ → Option ℕ) → Bool → List ℕ → List ℕ → Option ℤ → Bool → Res (Option Found)
unfolding nospecials find_loop posrelat
str_find memmem find s p init plain =
    let i = posrelat (default_int init (pos 1)) (length s) - 1 in
    elim (ltb (length s) i) [
      | true ↦ ok none
      | false ↦ elim (find && (plain || nospecials p)) [
        | true ↦ ok (plain_found i (length p) (memmem (drop i s) p))
        | false ↦ pattern_find s i (anchored p)
      ]
    ]
