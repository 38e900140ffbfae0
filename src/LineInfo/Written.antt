-- ===== src/LineInfo/Written.antt =====
-- The line information of a function as an implementation of the list of its lines.
use mathlib.Core.Path.{subst}
use tsuki.Base.{ℕ, suc, ◌-◌, ◌<◌, ◌≡◌, refl, sym, ap, ◌∙◌, arith, List, [], ◌∷◌, ◌++◌, length, take}
use tsuki.Base.Int.{ℤ}
use tsuki.LineInfo.{Lines, no_lines, savelineinfo, fixline, getfuncline}
use tsuki.LineInfo.Kept.{IsKept, line_at, length-snoc, savelineinfo-IsKept}
use tsuki.LineInfo.Fixed.{fixline-IsKept}
use tsuki.LineInfo.Read.{getfuncline-line}

-- What the code generator does with the line of an instruction: it saves one for a new instruction, or it
-- puts another one in the place of the last.
pub data LineStep : Type 0 where
  save fix : ℤ → LineStep

abbrev pub run : List LineStep → Lines → Lines
run [] s = s
run (save l ∷ steps) s = run steps (savelineinfo l s)
run (fix l ∷ steps) s = run steps (fixline l s)

-- The same on the list of the lines.
abbrev pub written : List LineStep → List ℤ → List ℤ
written [] ls = ls
written (save l ∷ steps) ls = written steps (ls ++ l ∷ [])
written (fix l ∷ steps) ls = written steps (take (length ls - 1) ls ++ l ∷ [])

no_lines-IsKept : (d : ℤ) → IsKept d [] (no_lines d)
no_lines-IsKept d = record {
  stored = record {
    defined = refl;
    sizes = refl;
    entries = λ k h. absurd (omega arith);
    lines = λ j h. absurd (omega arith);
    order = λ i j h lt. absurd (omega arith);
    early = λ j h. absurd (omega arith);
  };
  previous = refl;
  count = refl;
  small = omega arith;
}

split_last : (ls : List ℤ) → 0 < length ls → (l : ℤ) × (ls ≡ take (length ls - 1) ls ++ l ∷ [])
split_last [] h = absurd (omega arith)
split_last (x ∷ []) h = (x, refl)
split_last (x ∷ y ∷ ls) h =
    let (l, e) = split_last (y ∷ ls) (omega arith) in
    let count : length (x ∷ y ∷ ls) - 1 ≡ suc (length (y ∷ ls) - 1) = omega arith in
    (l, ap (λ xs. x ∷ xs) e ∙ ap (λ n. take n (x ∷ y ∷ ls) ++ l ∷ []) (sym count))

run-IsKept :
    (d : ℤ) (steps : List LineStep) (ls : List ℤ) (s : Lines)
    → 0 < length ls
    → IsKept d ls s
    → IsKept d (written steps ls) (run steps s)
run-IsKept d [] ls s some_line kept = kept
run-IsKept d (save l ∷ steps) ls s some_line kept =
    run-IsKept d steps (ls ++ l ∷ []) (savelineinfo l s) (omega (arith, length-snoc ls l))
      (savelineinfo-IsKept d ls s l kept)
run-IsKept d (fix l ∷ steps) ls s some_line kept =
    let (last, e) = split_last ls some_line in
    let rest = take (length ls - 1) ls in
    run-IsKept d steps (rest ++ l ∷ []) (fixline l s) (omega (arith, length-snoc rest l))
      (fixline-IsKept d rest last s (subst (λ (ms : List ℤ). IsKept d ms s) e kept) l)

-- After the line of a first instruction, and any sequence of further lines and corrections of the last
-- one, `luaG_getfuncline` gives each instruction the line that stands for it in the list of lines,
-- however far apart and in whatever order the lines are.
pub run-getfuncline :
    (d first : ℤ) (steps : List LineStep) (pc : ℕ)
    → pc < length (written steps (first ∷ []))
    → getfuncline (run steps (savelineinfo first (no_lines d))) pc
      ≡ line_at (written steps (first ∷ [])) pc
run-getfuncline d first steps pc under =
    getfuncline-line d (written steps (first ∷ [])) (run steps (savelineinfo first (no_lines d)))
      (run-IsKept d steps (first ∷ []) (savelineinfo first (no_lines d)) (omega arith)
        (savelineinfo-IsKept d [] (no_lines d) first (no_lines-IsKept d)))
      pc under
