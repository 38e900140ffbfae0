-- ===== src/Tests/Sorting.antt =====
-- `table.sort` on small tables.
use mathlib.Core.List.{Perm}
use tsuki.Base.{ℕ, ◌+◌, ◌≡◌, refl, arith, Bool, true, Option, some, List, [], ◌∷◌, ltb}
use tsuki.TableLib.Sort.{State, Outcome, ok, fail, sort}
use tsuki.TableLib.Sort.Ensures.{IsOrder}
use tsuki.TableLib.Sort.Whole.{Keeps, Ascends, sort-Keeps, sort-Ascends}

-- A comparison that counts its calls, and one that always says yes.
abbrev counted : ℕ → ℕ → ℕ → Option (Bool × ℕ)
counted w a b = some (ltb a b, w + 1)

abbrev always : ℕ → ℕ → ℕ → Option (Bool × ℕ)
always w a b = some (true, w)

abbrev dice : ℕ → ℕ × ℕ
dice w = (w, w)

abbrev five : State ℕ ℕ
five = record { items = 4 ∷ 1 ∷ 5 ∷ 1 ∷ 3 ∷ []; world = 0 }

counted-IsOrder : IsOrder counted ltb
counted-IsOrder = record {
  total = λ w a b. (w + 1, refl);
  asym = λ a b h. ground arith;
  trans = λ a b c h g. ground arith;
}

sort-Keeps_example : Keeps five.items (sort always dice five)
sort-Keeps_example = sort-Keeps always dice five (omega arith)

sort-Ascends_example :
    (t : State ℕ ℕ) × (sort counted dice five ≡ ok tt t)
    × Perm t.items five.items
    × Ascends ltb t.items
sort-Ascends_example = sort-Ascends counted dice five (omega arith) ltb counted-IsOrder

abbrev items_of : Outcome ℕ ℕ (Unit {0}) → List ℕ
items_of (ok a t) = t.items
items_of (fail p t) = t.items

sort_test : items_of (sort counted dice five) ≡ 1 ∷ 1 ∷ 3 ∷ 4 ∷ 5 ∷ []
unfolding sort
sort_test = refl
