-- ===== src/LineInfo/Kept.antt =====
-- What `savelineinfo` keeps true of the entries.
use tsuki.Base.{
  ℕ, zero, suc, ◌+◌, ◌-◌, ◌*◌, ◌≤◌, ◌<◌, ◌≡◌, ◌⊎◌, refl, sym, ap, ◌∙◌, arith, true, false, List, [],
  ◌∷◌, ◌++◌, leb, length, get_or, length-append, get_or-append_left, get_or-append_right,
  Bool-cases, inl, inr,
}
use tsuki.Base.Int.{ℤ, pos, negsuc, ◌+ℤ◌, ◌-ℤ◌, int_laws}
use tsuki.LineInfo.{
  Lines, AbsLineInfo, abs_at, absolute_mark, savelineinfo, save_absolute, save_relative, magnitude,
  is_mark,
}

-- The line of an instruction, and of the one before it.
abbrev pub line_at : List ℤ → ℕ → ℤ
line_at ls k = get_or ls k (pos 0)

abbrev pub line_before : ℤ → List ℤ → ℕ → ℤ
line_before d ls zero = d
line_before d ls (suc k) = line_at ls k

abbrev pub last_pc : List AbsLineInfo → ℕ
last_pc xs = (abs_at xs (length xs - 1)).pc

-- An entry is the difference to the line before, or it is marked and its line is in `abslineinfo`.
abbrev pub Entry : ℤ → List ℤ → List ℤ → List AbsLineInfo → ℕ → Type 0
Entry d ls ds xs k =
    ((line_at ls k ≡ line_before d ls k +ℤ get_or ds k (pos 0))
      × (is_mark (get_or ds k (pos 0)) ≡ false))
    ⊎ ((j : ℕ) × (j < length xs) × ((abs_at xs j).pc ≡ k))

-- The entries stand for the lines `ls`; the absolute ones are marked and in order, and early enough for
-- the first guess of `getbaseline`.
pub record IsStored (d : ℤ) (ls : List ℤ) (s : Lines) : Type 0 where
  pub defined : s.linedefined ≡ d
  pub sizes : length s.lineinfo ≡ length ls
  pub entries : (k : ℕ) → k < length ls → Entry d ls s.lineinfo s.abslineinfo k
  pub lines :
      (j : ℕ)
      → j < length s.abslineinfo
      → ((abs_at s.abslineinfo j).pc < length ls)
        × (line_at ls (abs_at s.abslineinfo j).pc ≡ (abs_at s.abslineinfo j).line)
        × (is_mark (get_or s.lineinfo (abs_at s.abslineinfo j).pc (pos 0)) ≡ true)
  pub order :
      (i j : ℕ)
      → i < j
      → j < length s.abslineinfo
      → (abs_at s.abslineinfo i).pc < (abs_at s.abslineinfo j).pc
  pub early : (j : ℕ) → j < length s.abslineinfo → (abs_at s.abslineinfo j).pc ≤ 128 * (j + 1)

-- The next line can be saved.
pub record IsKept (d : ℤ) (ls : List ℤ) (s : Lines) : Type 0 where
  pub stored : IsStored d ls s
  pub previous : s.previousline ≡ line_before d ls (length ls)
  pub count : length ls ≡ last_pc s.abslineinfo + s.iwthabs
  pub small : s.iwthabs ≤ 128

pub line_at-old :
    (ls : List ℤ) (l : ℤ) (k : ℕ) → k < length ls → line_at (ls ++ l ∷ []) k ≡ line_at ls k
line_at-old ls l k h = get_or-append_left ls (l ∷ []) k (pos 0) h

pub line_at-new : (ls : List ℤ) (l : ℤ) → line_at (ls ++ l ∷ []) (length ls) ≡ l
line_at-new ls l = get_or-append_right ls (l ∷ []) (length ls) 0 (pos 0) (omega arith)

pub line_before-old :
    (d : ℤ) (ls : List ℤ) (l : ℤ) (k : ℕ)
    → k ≤ length ls
    → line_before d (ls ++ l ∷ []) k ≡ line_before d ls k
line_before-old d ls l zero h = refl
line_before-old d ls l (suc k) h = line_at-old ls l k (omega arith)

abs_at-old :
    (xs : List AbsLineInfo) (x : AbsLineInfo) (j : ℕ)
    → j < length xs
    → abs_at (xs ++ x ∷ []) j ≡ abs_at xs j
abs_at-old xs x j h = get_or-append_left xs (x ∷ []) j _ h

abs_at-new :
    (xs : List AbsLineInfo) (x : AbsLineInfo) (j : ℕ) → j ≡ length xs → abs_at (xs ++ x ∷ []) j ≡ x
abs_at-new xs x j h = get_or-append_right xs (x ∷ []) j 0 _ (omega (arith, h))

-- An index into a list with one more element is an old one or the last.
old_or_last : (n j : ℕ) → j < n + 1 → (j < n) ⊎ (j ≡ n)
old_or_last n j h = omega arith

pub length-snoc {ℓ} : {A : Type ℓ} (xs : List A) (x : A) → length (xs ++ x ∷ []) ≡ length xs + 1
length-snoc xs x = length-append xs (x ∷ [])

pub line_before-end :
    (d : ℤ) (ls : List ℤ) (l : ℤ) → line_before d (ls ++ l ∷ []) (length (ls ++ l ∷ [])) ≡ l
line_before-end d ls l =
    let count : length (ls ++ l ∷ []) ≡ suc (length ls) = omega (arith, length-snoc ls l) in
    rw (count) (line_at-new ls l)

-- An old entry stays one when the lists grow.
Entry-old :
    (d : ℤ) (ls : List ℤ) (l : ℤ) (ds : List ℤ) (v : ℤ) (xs ys : List AbsLineInfo) (k : ℕ)
    → length ds ≡ length ls
    → k < length ls
    → ((j : ℕ) → j < length xs → (j < length ys) × (abs_at ys j ≡ abs_at xs j))
    → Entry d ls ds xs k
    → Entry d (ls ++ l ∷ []) (ds ++ v ∷ []) ys k
Entry-old d ls l ds v xs ys k sizes h grows (inl e) = inl (
    rw
      (
        line_at-old ls l k h,
        line_before-old d ls l k (omega arith),
        get_or-append_left ds (v ∷ []) k (pos 0) (omega (arith, sizes)),
      )
      e)
Entry-old d ls l ds v xs ys k sizes h grows (inr (j, lt, e)) =
    inr (j, (grows j lt).0, ap (λ x. x.pc) (grows j lt).1 ∙ e)

pub old_or_last_index : (n : ℕ) → (n ≡ 0) ⊎ (0 < n)
old_or_last_index n = omega arith

pub abs_at-empty :
    (xs : List AbsLineInfo) (j : ℕ) → length xs ≡ 0 → abs_at xs j ≡ record { pc = 0; line = pos 0 }
abs_at-empty [] j h = refl
abs_at-empty (x ∷ xs) j h = absurd (omega (arith, h))

small_mark : (v : ℤ) → leb 128 (magnitude v) ≡ false → is_mark v ≡ false
small_mark (pos n) h = refl
small_mark (negsuc n) h = ground arith

module _ (d : ℤ) (ls : List ℤ) (s : Lines) (l : ℤ) (kept : IsStored d ls s) where
  module _ (x : AbsLineInfo) (here : x.pc ≡ length ls) (value : x.line ≡ l)
      (fits : length ls ≤ 128 * (length s.abslineinfo + 1)) where
    lines_grown :
        (j : ℕ)
        → j < length (s.abslineinfo ++ x ∷ [])
        → ((abs_at (s.abslineinfo ++ x ∷ []) j).pc < length (ls ++ l ∷ []))
          × (line_at (ls ++ l ∷ []) (abs_at (s.abslineinfo ++ x ∷ []) j).pc
              ≡ (abs_at (s.abslineinfo ++ x ∷ []) j).line)
          × (is_mark (
                get_or
                  (s.lineinfo ++ absolute_mark ∷ [])
                  (abs_at (s.abslineinfo ++ x ∷ []) j).pc
                  (pos 0))
              ≡ true)
    lines_grown j h =
        elim (old_or_last (length s.abslineinfo) j (omega (arith, length-snoc s.abslineinfo x))) [
          | inl old ↦
              let (under, same, marked) = kept.lines j old in
              rw
                (
                  abs_at-old s.abslineinfo x j old,
                  line_at-old ls l (abs_at s.abslineinfo j).pc under,
                  get_or-append_left s.lineinfo (absolute_mark ∷ []) (abs_at s.abslineinfo j).pc
                      (pos 0) (omega (arith, under, kept.sizes)),
                )
                (omega (arith, length-snoc ls l, under), same, marked)
          | inr last ↦
              rw
                (
                  abs_at-new s.abslineinfo x j last,
                  here,
                  get_or-append_right s.lineinfo (absolute_mark ∷ []) (length ls) 0 (pos 0)
                      (omega (arith, kept.sizes)),
                )
                (omega (arith, length-snoc ls l), line_at-new ls l ∙ sym value, refl)
        ]

    order_grown :
        (i j : ℕ)
        → i < j
        → j < length (s.abslineinfo ++ x ∷ [])
        → (abs_at (s.abslineinfo ++ x ∷ []) i).pc < (abs_at (s.abslineinfo ++ x ∷ []) j).pc
    order_grown i j h lt =
        elim (old_or_last (length s.abslineinfo) j (omega (arith, length-snoc s.abslineinfo x))) [
          | inl old ↦
              rw (abs_at-old s.abslineinfo x j old, abs_at-old s.abslineinfo x i (omega arith))
                (kept.order i j h old)
          | inr last ↦
              rw
                (
                  abs_at-new s.abslineinfo x j last,
                  abs_at-old s.abslineinfo x i (omega (arith, h, last)),
                  here,
                )
                ((kept.lines i (omega (arith, h, last))).0)
        ]

    early_grown :
        (j : ℕ)
        → j < length (s.abslineinfo ++ x ∷ [])
        → (abs_at (s.abslineinfo ++ x ∷ []) j).pc ≤ 128 * (j + 1)
    early_grown j h =
        elim (old_or_last (length s.abslineinfo) j (omega (arith, length-snoc s.abslineinfo x))) [
          | inl old ↦ rw (abs_at-old s.abslineinfo x j old) (kept.early j old)
          | inr last ↦ rw (abs_at-new s.abslineinfo x j last, here) (omega (arith, fits, last))
        ]

    entries_grown :
        (v : ℤ) (k : ℕ)
        → k < length (ls ++ l ∷ [])
        → Entry d (ls ++ l ∷ []) (s.lineinfo ++ v ∷ []) (s.abslineinfo ++ x ∷ []) k
    entries_grown v k h = elim (old_or_last (length ls) k (omega (arith, length-snoc ls l))) [
      | inl old ↦
          Entry-old d ls l s.lineinfo v s.abslineinfo (s.abslineinfo ++ x ∷ []) k kept.sizes old
            (λ j lt.
              (omega (arith, lt, length-snoc s.abslineinfo x), abs_at-old s.abslineinfo x j lt))
            (kept.entries k old)
      | inr last ↦ inr (
        length s.abslineinfo,
        omega (arith, length-snoc s.abslineinfo x),
        ap (λ y. y.pc) (abs_at-new s.abslineinfo x (length s.abslineinfo) refl) ∙ here ∙ sym last,
      )
    ]

  pub absolute-IsKept :
      length ls ≤ 128 * (length s.abslineinfo + 1) → IsKept d (ls ++ l ∷ []) (save_absolute l s)
  unfolding save_absolute
  absolute-IsKept fits =
      let x : AbsLineInfo = record { pc = length s.lineinfo; line = l } in
      record {
        stored = record {
          defined = kept.defined;
          sizes = omega (arith, length-snoc s.lineinfo absolute_mark, length-snoc ls l, kept.sizes);
          entries = entries_grown x kept.sizes refl fits absolute_mark;
          lines = lines_grown x kept.sizes refl fits;
          order = order_grown x kept.sizes refl fits;
          early = early_grown x kept.sizes refl fits;
        };
        previous = sym (line_before-end d ls l);
        count = omega (
          arith,
          length-snoc ls l,
          ap (λ y. y.pc)
              (abs_at-new s.abslineinfo x (length (s.abslineinfo ++ x ∷ []) - 1)
                (omega (arith, length-snoc s.abslineinfo x))),
          kept.sizes,
        );
        small = omega arith;
      }

module _ (d : ℤ) (ls : List ℤ) (s : Lines) (l : ℤ) (kept : IsKept d ls s) where
  -- How far the instructions have come since the last absolute entry.
  pub fits_next : length ls ≤ 128 * (length s.abslineinfo + 1)
  fits_next = elim (old_or_last_index (length s.abslineinfo)) [
    | inl none_yet ↦ omega (
      arith,
      kept.count,
      kept.small,
      ap (λ y. y.pc) (abs_at-empty s.abslineinfo (length s.abslineinfo - 1) none_yet),
    )
    | inr some_entry ↦
        omega (
          arith,
          kept.count,
          kept.small,
          kept.stored.early (length s.abslineinfo - 1) (omega arith),
        )
  ]

  relative-IsKept :
      s.iwthabs < 128
      → is_mark (l -ℤ s.previousline) ≡ false
      → IsKept d (ls ++ l ∷ []) (save_relative l (l -ℤ s.previousline) s)
  unfolding save_relative
  relative-IsKept near plain = record {
    stored = record {
      defined = kept.stored.defined;
      sizes = omega (
        arith,
        length-snoc s.lineinfo (l -ℤ s.previousline),
        length-snoc ls l,
        kept.stored.sizes,
      );
      entries = λ k h. elim (old_or_last (length ls) k (omega (arith, length-snoc ls l))) [
        | inl old ↦
            Entry-old d ls l s.lineinfo (l -ℤ s.previousline) s.abslineinfo s.abslineinfo k
              kept.stored.sizes old (λ j lt. (lt, refl)) (kept.stored.entries k old)
        | inr last ↦ inl (relative_entry k last)
      ];
      lines = λ j h.
          let (under, same, marked) = kept.stored.lines j h in
          (
            omega (arith, length-snoc ls l, under),
            line_at-old ls l (abs_at s.abslineinfo j).pc under ∙ same,
            ap is_mark (
                  get_or-append_left s.lineinfo ((l -ℤ s.previousline) ∷ [])
                    (abs_at s.abslineinfo j).pc (pos 0) (omega (arith, under, kept.stored.sizes)))
                ∙ marked,
          );
      order = kept.stored.order;
      early = kept.stored.early;
    };
    previous = sym (line_before-end d ls l);
    count = omega (arith, kept.count, near, length-snoc ls l);
    small = omega (arith, near);
  }
    where
      relative_entry :
          (k : ℕ)
          → k ≡ length ls
          → (line_at (ls ++ l ∷ []) k
              ≡ line_before d (ls ++ l ∷ []) k
                +ℤ get_or (s.lineinfo ++ (l -ℤ s.previousline) ∷ []) k (pos 0))
            × (is_mark (get_or (s.lineinfo ++ (l -ℤ s.previousline) ∷ []) k (pos 0)) ≡ false)
      relative_entry k last =
          rw
            (
              last,
              line_at-new ls l,
              line_before-old d ls l (length ls) (omega arith),
              get_or-append_right s.lineinfo ((l -ℤ s.previousline) ∷ []) (length ls) 0 (pos 0)
                  (omega (arith, kept.stored.sizes)),
              sym kept.previous,
            )
            (omega int_laws, plain)

  pub savelineinfo-IsKept : IsKept d (ls ++ l ∷ []) (savelineinfo l s)
  unfolding savelineinfo
  savelineinfo-IsKept = elim (Bool-cases (leb 128 (magnitude (l -ℤ s.previousline)))) [
    | inl far ↦ rw (far) (absolute-IsKept d ls s l kept.stored fits_next)
    | inr near ↦ elim (Bool-cases (leb 128 s.iwthabs)) [
      | inl many ↦ rw (near, many) (absolute-IsKept d ls s l kept.stored fits_next)
      | inr few ↦
          rw (near, few) (relative-IsKept (ground arith) (small_mark (l -ℤ s.previousline) near))
    ]
  ]
