-- ===== src/LineInfo/Fixed.antt =====
-- `luaK_fixline` puts another line in the place of the last one.
use tsuki.Base.{
  ℕ, ◌+◌, ◌-◌, ◌*◌, ◌%◌, ◌≤◌, ◌<◌, ◌≡◌, ◌⊎◌, refl, sym, ap, ◌∙◌, arith, true, false, List, [], ◌∷◌,
  ◌++◌, leb, length, get_or, take, length-take, get_or-take, Bool-cases, inl, inr,
}
use tsuki.Base.Int.{ℤ, pos, ◌+ℤ◌, ◌-ℤ◌, +ℤ_cancel}
use tsuki.LineInfo.{Lines, abs_at, is_mark, savelineinfo, magnitude, fixline}
use tsuki.LineInfo.Kept.{
  Entry, IsStored, IsKept, line_at, line_before, last_pc, line_at-old, line_at-new, line_before-old,
  line_before-end, length-snoc, absolute-IsKept, savelineinfo-IsKept, old_or_last_index,
  abs_at-empty,
}

back : (a b c : ℤ) → a ≡ b +ℤ c → a -ℤ c ≡ b
back a b c h = ap (λ x. x -ℤ c) h ∙ +ℤ_cancel b c

last_or_less : (j n : ℕ) → j < n → (j < n - 1) ⊎ (j ≡ n - 1)
last_or_less j n h = omega arith

-- After an absolute entry was removed the next one is absolute.
after_mark :
    (d : ℤ) (ls : List ℤ) (r : Lines) (l : ℤ)
    → IsStored d ls r
    → r.iwthabs ≡ 129
    → length ls ≤ 128 * (length r.abslineinfo + 1)
    → IsKept d (ls ++ l ∷ []) (savelineinfo l r)
unfolding savelineinfo
after_mark d ls r l stored full fits =
    elim (Bool-cases (leb 128 (magnitude (l -ℤ r.previousline)))) [
      | inl far ↦ rw (far) (absolute-IsKept d ls r l stored fits)
      | inr near ↦
          let many : leb 128 r.iwthabs ≡ true = ground (arith, full) in
          rw (near, many) (absolute-IsKept d ls r l stored fits)
    ]

module _ (d : ℤ) (ls : List ℤ) (l0 : ℤ) (s : Lines) (kept : IsKept d (ls ++ l0 ∷ []) s) where
  -- What is left without the last instruction, where `ys` are the absolute entries before it.
  shorter-IsStored :
      (r : Lines)
      → r.linedefined ≡ s.linedefined
      → r.lineinfo ≡ take (length ls) s.lineinfo
      → length r.abslineinfo ≤ length s.abslineinfo
      → ((j : ℕ) → j < length r.abslineinfo → abs_at r.abslineinfo j ≡ abs_at s.abslineinfo j)
      → ((j : ℕ) → j < length r.abslineinfo → (abs_at s.abslineinfo j).pc < length ls)
      → ((j : ℕ)
          → j < length s.abslineinfo
          → (abs_at s.abslineinfo j).pc < length ls
          → j < length r.abslineinfo)
      → IsStored d ls r
  shorter-IsStored r same_start shorter fewer same_abs before all = record {
    defined = same_start ∙ kept.stored.defined;
    sizes = omega (
      arith,
      ap length shorter,
      length-take (length ls) s.lineinfo,
      kept.stored.sizes,
      length-snoc ls l0,
    );
    entries =
        λ k h. shorter_entry k h (kept.stored.entries k (omega (arith, h, length-snoc ls l0)));
    lines = λ j h.
        let (under, same, marked) = kept.stored.lines j (omega (arith, h, fewer)) in
        rw (same_abs j h, shorter)
          (
            before j h,
            sym (line_at-old ls l0 (abs_at s.abslineinfo j).pc (before j h)) ∙ same,
            ap is_mark (
                  get_or-take (length ls) (abs_at s.abslineinfo j).pc s.lineinfo (pos 0)
                    (before j h))
                ∙ marked,
          );
    order = λ i j h lt.
        rw (same_abs i (omega arith), same_abs j lt)
          (kept.stored.order i j h (omega (arith, lt, fewer)));
    early = λ j h. rw (same_abs j h) (kept.stored.early j (omega (arith, h, fewer)));
  }
    where
      shorter_entry :
          (k : ℕ)
          → k < length ls
          → Entry d (ls ++ l0 ∷ []) s.lineinfo s.abslineinfo k
          → Entry d ls r.lineinfo r.abslineinfo k
      shorter_entry k h (inl (e, plain)) = inl (
          rw (shorter, get_or-take (length ls) k s.lineinfo (pos 0) h)
            (
              sym (line_at-old ls l0 k h)
                  ∙ e
                  ∙ ap (λ b. b +ℤ get_or s.lineinfo k (pos 0))
                      (line_before-old d ls l0 k (omega arith)),
              plain,
            ))
      shorter_entry k h (inr (j, lt, e)) =
          let early_enough : (abs_at s.abslineinfo j).pc < length ls = omega (arith, e, h) in
          inr (j, all j lt early_enough, ap (λ x. x.pc) (same_abs j (all j lt early_enough)) ∙ e)

  last_index : length s.lineinfo - 1 ≡ length ls
  last_index = omega (arith, kept.stored.sizes, length-snoc ls l0)

  last_known : Entry d (ls ++ l0 ∷ []) s.lineinfo s.abslineinfo (length ls)
  last_known = kept.stored.entries (length ls) (omega (arith, length-snoc ls l0))

  -- The mark of the last entry tells where its line is.
  unmarked_before :
      is_mark (get_or s.lineinfo (length ls) (pos 0)) ≡ false
      → (j : ℕ) → j < length s.abslineinfo
      → (abs_at s.abslineinfo j).pc < length ls
  unmarked_before plain j h =
      let (under, same, marked) = kept.stored.lines j h in
      elim (last_or_before (abs_at s.abslineinfo j).pc (omega (arith, under, length-snoc ls l0))) [
        | inl lower ↦ lower
        | inr here ↦
            let again : is_mark (get_or s.lineinfo (length ls) (pos 0)) ≡ true =
              ap (λ k. is_mark (get_or s.lineinfo k (pos 0))) (sym here) ∙ marked in
            absurd (ground (arith, again, plain))
      ]
    where
      last_or_before : (k : ℕ) → k < length ls + 1 → (k < length ls) ⊎ (k ≡ length ls)
      last_or_before k h = omega arith

  last_pc-le :
      is_mark (get_or s.lineinfo (length ls) (pos 0)) ≡ false → last_pc s.abslineinfo ≤ length ls
  last_pc-le plain = elim (old_or_last_index (length s.abslineinfo)) [
    | inl none_yet ↦
        omega
          (arith, ap (λ y. y.pc) (abs_at-empty s.abslineinfo (length s.abslineinfo - 1) none_yet))
    | inr some_entry ↦ omega (arith, unmarked_before plain (length s.abslineinfo - 1) (omega arith))
  ]

  relative_removed :
      is_mark (get_or s.lineinfo (length ls) (pos 0)) ≡ false
      → IsKept d ls (record s {
        lineinfo = take (length ls) s.lineinfo;
        previousline = s.previousline -ℤ get_or s.lineinfo (length ls) (pos 0);
        iwthabs = (s.iwthabs + 255) % 256;
      })
  relative_removed plain = record {
    stored =
        shorter-IsStored _ refl refl (omega arith) (λ j h. refl) (unmarked_before plain)
          (λ j h lt. h);
    previous = earlier last_known;
    count = omega (arith, kept.count, kept.small, last_pc-le plain, length-snoc ls l0);
    small = omega (arith, kept.count, kept.small, last_pc-le plain, length-snoc ls l0);
  }
    where
      earlier :
          Entry d (ls ++ l0 ∷ []) s.lineinfo s.abslineinfo (length ls)
          → s.previousline -ℤ get_or s.lineinfo (length ls) (pos 0) ≡ line_before d ls (length ls)
      earlier (inl (e, unmarked)) =
          let last : line_at (ls ++ l0 ∷ []) (length ls) ≡ s.previousline =
            line_at-new ls l0 ∙ sym (kept.previous ∙ line_before-end d ls l0) in
          let before = line_before-old d ls l0 (length ls) (omega arith) in
          back s.previousline (line_before d ls (length ls)) (get_or s.lineinfo (length ls) (pos 0))
            (sym last ∙ e ∙ ap (λ b. b +ℤ get_or s.lineinfo (length ls) (pos 0)) before)
      earlier (inr (j, lt, e)) = absurd (omega (arith, unmarked_before plain j lt, e))

  -- The last entry is the last of the absolute ones.
  marked_last :
      is_mark (get_or s.lineinfo (length ls) (pos 0)) ≡ true
      → (0 < length s.abslineinfo) × (last_pc s.abslineinfo ≡ length ls)
  marked_last mark = found last_known
    where
      found :
          Entry d (ls ++ l0 ∷ []) s.lineinfo s.abslineinfo (length ls)
          → (0 < length s.abslineinfo) × (last_pc s.abslineinfo ≡ length ls)
      found (inl (e, plain)) = absurd (ground (arith, mark, plain))
      found (inr (j, lt, e)) =
          let (under, same, marked) =
            kept.stored.lines (length s.abslineinfo - 1) (omega (arith, lt)) in
          elim (last_or_less j (length s.abslineinfo) lt) [
            | inl less ↦ absurd (
                omega (
                  arith,
                  kept.stored.order j (length s.abslineinfo - 1) less (omega (arith, lt)),
                  e,
                  under,
                  length-snoc ls l0,
                ))
            | inr here ↦ (omega (arith, lt), ap (λ i. (abs_at s.abslineinfo i).pc) (sym here) ∙ e)
          ]

  absolute_removed :
      is_mark (get_or s.lineinfo (length ls) (pos 0)) ≡ true
      → IsStored d ls (record s {
        lineinfo = take (length ls) s.lineinfo;
        abslineinfo = take (length s.abslineinfo - 1) s.abslineinfo;
        iwthabs = 129;
      })
  absolute_removed mark =
      let (some_entry, last) = marked_last mark in
      let xs = s.abslineinfo in
      let size = length-take (length xs - 1) xs in
      shorter-IsStored _ refl refl (omega (arith, size))
        (λ j h. get_or-take (length xs - 1) j xs _ (omega (arith, size, h)))
        (λ j h.
          omega (
            arith,
            kept.stored.order j (length xs - 1) (omega (arith, size, h)) (omega arith),
            last,
          ))
        (λ j h lt. elim (last_or_less j (length xs) h) [
          | inl less ↦ omega (arith, size, less)
          | inr here ↦ absurd (omega (arith, ap (λ i. (abs_at xs i).pc) here, last, lt))
        ])

  -- `luaK_fixline` leaves the lines with another last one.
  pub fixline-IsKept : (l : ℤ) → IsKept d (ls ++ l ∷ []) (fixline l s)
  unfolding fixline
  fixline-IsKept l = elim (Bool-cases (is_mark (get_or s.lineinfo (length ls) (pos 0)))) [
    | inr plain ↦ rw (last_index, plain) (savelineinfo-IsKept d ls _ l (relative_removed plain))
    | inl mark ↦
        let (some_entry, last) = marked_last mark in
        let kept_entries = length-take (length s.abslineinfo - 1) s.abslineinfo in
        rw (last_index, mark)
          (after_mark d ls _ l (absolute_removed mark) refl (
            omega (
              arith,
              last,
              kept_entries,
              kept.stored.early (length s.abslineinfo - 1) (omega (arith, some_entry)),
            )))
  ]
