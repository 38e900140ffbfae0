-- ===== src/Tests/Lines.antt =====
-- The theorem on the line information at concrete lines, and runs of it.
use tsuki.Base.{◌≡◌, refl, arith, List, [], ◌∷◌}
use tsuki.Base.Int.{pos}
use tsuki.LineInfo.{no_lines, savelineinfo, fixline, getfuncline}
use tsuki.LineInfo.Written.{LineStep, save, fix, run, run-getfuncline}

-- The lines 7, 900 and 3, the last corrected to 901.
abbrev few_steps : List LineStep
few_steps = save (pos 900) ∷ save (pos 3) ∷ fix (pos 901) ∷ []

run-getfuncline_example :
    getfuncline (run few_steps (savelineinfo (pos 7) (no_lines (pos 5)))) 2 ≡ pos 901
run-getfuncline_example = run-getfuncline (pos 5) (pos 7) few_steps 2 (omega arith)

second_line : getfuncline (run few_steps (savelineinfo (pos 7) (no_lines (pos 5)))) 1 ≡ pos 900
unfolding getfuncline savelineinfo fixline
second_line = refl
