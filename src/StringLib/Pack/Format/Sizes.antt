-- ===== src/StringLib/Pack/Format/Sizes.antt =====
-- The options that take a size: `getnum` and `getnumlimit` of src/builtin/string/mod.rs.
use mathlib.Core.Path.{subst}
use tsuki.Base.{
  ℕ, ◌+◌, ◌-◌, ◌*◌, ◌≤◌, ◌≡◌, refl, sym, ap, ◌∙◌, arith, true, false, ◌||◌, none, some, List, [],
  ◌∷◌, ltb, leb, if◌then◌else◌, Bool-cases, inl, inr,
}
use tsuki.StringLib.Pack.Format.{
  parsed, refused, out_of_limits, num_loop, getnum, getnumlimit, limited, Pack, Header, ◌>>=◌,
  char_size,
}
use tsuki.StringLib.Pack.Format.Options.{
  sized_kind, meant, is_digit, written, has_digit, takes_size, asked, in_limits, verdict, InLimits,
  IsKind, size_got, IsGot,
}

written-ge : (cs : List ℕ) (a : ℕ) → a ≤ (written cs a).0
written-ge [] a = omega arith
written-ge (c ∷ cs) a = ground (arith, written-ge cs (a * 10 + (c - b'0')))

large_limited :
    (v : ℕ) (rest : List ℕ) → ltb 16 v ≡ true → limited (v, rest) ≡ refused out_of_limits
large_limited v rest h = rw (h) refl

-- The guard of `getnum` stops only at numbers out of the limits.
limited-num_loop : (cs : List ℕ) (a : ℕ) → limited (num_loop cs a) ≡ limited (written cs a)
limited-num_loop [] a = refl
limited-num_loop (c ∷ cs) a =
    let next = a * 10 + (c - b'0') in
    elim (Bool-cases (is_digit c)) [
      | inl d ↦ elim (Bool-cases (leb a 214748363)) [
        | inl e ↦ rw (d, e) (limited-num_loop cs next)
        | inr e ↦
            let large : ltb 16 a ≡ true = ground arith in
            let more : ltb 16 (written cs next).0 ≡ true =
              ground (arith, written-ge cs next, large) in
            rw (d, e)
              (large_limited a (c ∷ cs) large ∙ sym (large_limited _ (written cs next).1 more))
      ]
      | inr d ↦ rw (d) refl
    ]

limited-asked :
    (fmt : List ℕ) (df : ℕ)
    → getnumlimit fmt df ≡ limited (if has_digit fmt then written fmt 0 else (df, fmt))
unfolding getnumlimit getnum
limited-asked [] df = refl
limited-asked (c ∷ cs) df = elim (Bool-cases (is_digit c)) [
  | inl d ↦
      let first : 0 + (c - b'0') ≡ c - b'0' = omega arith in
      rw (d) (limited-num_loop cs (c - b'0') ∙ ap (λ v. limited (written cs v)) (sym first))
  | inr d ↦ rw (d) refl
]

verdict-sized :
    (c : ℕ) (fmt : List ℕ) (v : ℕ) (rest : List ℕ)
    → takes_size c ≡ true
    → asked c fmt ≡ (v, rest)
    → verdict c fmt ≡ (if in_limits v then none else some out_of_limits)
verdict-sized c fmt v rest takes e =
    rw (takes) (ap (λ (a : ℕ × List ℕ). if in_limits a.0 then none else some out_of_limits) e)

meant-sized :
    (c : ℕ) (fmt : List ℕ) (v : ℕ) (rest : List ℕ)
    → takes_size c ≡ true
    → asked c fmt ≡ (v, rest)
    → meant c fmt ≡ sized_kind c v
meant-sized c fmt v rest takes e = rw (takes) (ap (λ (a : ℕ × List ℕ). sized_kind c a.0) e)

-- An option that `make` makes of a size within the limits.
limited-IsGot :
    (c : ℕ) (fmt : List ℕ) (make : ℕ → Pack × Header) (v : ℕ) (rest : List ℕ)
    → takes_size c ≡ true
    → asked c fmt ≡ (v, rest)
    → ((w : ℕ)
        → InLimits w
        → IsKind (make w).0
          × InLimits (make w).1.maxalign
          × ((make w).0 ≡ sized_kind c w)
          × (size_got c (make w).0 (make w).1 ≡ w))
    → IsGot c fmt (limited (v, rest) >>= λ r. parsed ((make r.0).0, (make r.0).1, r.1))
limited-IsGot c fmt make v rest takes e all = elim (Bool-cases (in_limits v)) [
  | inl lim ↦
      let guard : (ltb 16 v || leb v 0) ≡ false = ground arith in
      let (kind, limit, opt, size) = all v (ground arith, ground arith) in
      rw (guard) (
        verdict-sized c fmt v rest takes e ∙ rw (lim) refl,
        kind,
        limit,
        inr (opt ∙ sym (meant-sized c fmt v rest takes e)),
        inr (ap (λ w. (w, rest)) size ∙ sym e),
      )
  | inr lim ↦
      let guard : (ltb 16 v || leb v 0) ≡ true = ground arith in
      rw (guard) (verdict-sized c fmt v rest takes e ∙ rw (lim) refl)
]

pub sized-IsGot :
    (c : ℕ) (fmt : List ℕ) (make : ℕ → Pack × Header) (df : ℕ)
    → takes_size c ≡ true
    → (if has_digit fmt then written fmt 0 else (df, fmt)) ≡ asked c fmt
    → ((w : ℕ)
        → InLimits w
        → IsKind (make w).0
          × InLimits (make w).1.maxalign
          × ((make w).0 ≡ sized_kind c w)
          × (size_got c (make w).0 (make w).1 ≡ w))
    → IsGot c fmt (getnumlimit fmt df >>= λ r. parsed ((make r.0).0, (make r.0).1, r.1))
sized-IsGot c fmt make df takes e all =
    subst (λ g. IsGot c fmt (g >>= λ r. parsed ((make r.0).0, (make r.0).1, r.1)))
      (sym (limited-asked fmt df ∙ ap limited e))
      (limited-IsGot c fmt make (asked c fmt).0 (asked c fmt).1 takes refl all)

pub char_size-IsGot :
    (h : Header) (fmt : List ℕ) → InLimits h.maxalign → IsGot b'c' fmt (char_size h (getnum fmt))
unfolding getnum
char_size-IsGot h [] limit = refl
char_size-IsGot h (c ∷ cs) limit = elim (Bool-cases (is_digit c)) [
  | inl d ↦ rw (d) (rw (d) refl, tt, limit, inl refl, inl refl)
  | inr d ↦ rw (d) (rw (d) refl)
]
