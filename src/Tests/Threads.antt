-- ===== src/Tests/Threads.antt =====
-- The theorems on the open upvalues of a thread at a concrete list.
use tsuki.Base.{inr, ◌==◌, ℕ, ◌*◌, ◌≡◌, arith, some, [], ◌∷◌, leb, if◌then◌else◌}
use tsuki.Upvalues.{UpVals, findupval, closeupval, read}
use tsuki.Upvalues.Sorted.{IsSorted, at_level}
use tsuki.Upvalues.Find.{findupval_lem}
use tsuki.Upvalues.Close.{closeupval-IsClosed}
use tsuki.Upvalues.Tbc.{TbcList, newtbcupval}
use tsuki.Upvalues.Popped.{IsAdded, newtbcupval-IsAdded}

-- Two upvalues at the slots 9 and 4, and a closed one.
abbrev two_open : UpVals ℕ
two_open = record {
  open_list = record { address = 100; level = 9 } ∷ record { address = 101; level = 4 } ∷ [];
  closed_list = (102, 7) ∷ [];
}

two_open-IsSorted : IsSorted two_open.open_list
two_open-IsSorted = (((omega arith, tt), (tt, tt)), ((omega arith, tt), (tt, tt)))

findupval_lem_example :
    IsSorted (findupval 103 6 two_open).1.open_list
    × ((findupval 103 6 two_open).0 ≡ 103)
    × (at_level (findupval 103 6 two_open).1.open_list 9 ≡ some 100)
    × ((findupval 103 6 two_open).1.closed_list ≡ two_open.closed_list)
findupval_lem_example =
    findupval_lem 103 6 9 two_open two_open-IsSorted (omega arith, (omega arith, tt))

closeupval-IsClosed_example :
    IsSorted (closeupval (λ k. k * 2) 5 two_open).open_list
    × (at_level (closeupval (λ k. k * 2) 5 two_open).open_list 4 ≡ some 101)
    × (read (λ k. if leb 5 k then 0 else k * 2) (closeupval (λ k. k * 2) 5 two_open) 100 ≡ some 18)
closeupval-IsClosed_example =
    closeupval-IsClosed (λ k. k * 2) 5 two_open 100 4 (λ k. if leb 5 k then 0 else k * 2)
      two_open-IsSorted (λ k lt. ground arith)

-- A variable at the slot 70000 after one at the slot 3.
abbrev one_variable : TbcList
one_variable = record { tbclist = 3; tbcdelta = λ k. if k == 3 then 3 else 0 }

newtbcupval-IsAdded_example : IsAdded 70000 3 one_variable (newtbcupval 70000 one_variable)
newtbcupval-IsAdded_example =
    newtbcupval-IsAdded 70000 3 one_variable (inr (omega arith)) (omega arith) (omega arith)
