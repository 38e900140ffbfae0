-- ===== src/Tests/Strings.antt =====
-- The string table at concrete inputs.
use tsuki.Base.{ℕ, ◌≤◌, Bool, ◌≡◌, refl, List, [], ◌∷◌, arith}
use tsuki.StringTable.{Str, StringTable, intern, insert, luas_hash, hash_loop, new_table, remove}
use tsuki.StringTable.Chains.{total}
use tsuki.StringTable.Intern.{Interned, intern-Interned, new_table-IsTable}
use tsuki.StringTable.Remove.{Removed, remove-Removed, at_address}

-- "hi" in the empty table
abbrev hi : List ℕ
hi = b'h' ∷ b'i' ∷ []

intern-Interned_example : Interned 5 new_table hi (intern new_table 5 4096 hi)
intern-Interned_example = intern-Interned 5 7 4096 new_table hi (new_table-IsTable 5)

abbrev with_hi : Str × Bool × StringTable
with_hi = intern new_table 5 4096 hi

with_hi-Interned : Interned 5 new_table hi with_hi
with_hi-Interned = intern-Interned 5 7 4096 new_table hi (new_table-IsTable 5)

hi_alone : total (at_address 4096) (StringTable.buckets with_hi.2) ≤ 1
unfolding intern insert luas_hash hash_loop new_table
hi_alone = omega arith

abbrev hi_str : Str
hi_str = record { address = 4096; hash = luas_hash hi 5; bytes = hi }

hi_string : with_hi.0 ≡ hi_str
unfolding intern insert luas_hash hash_loop new_table
hi_string = refl

remove-Removed_example :
    Removed 5 with_hi-Interned.valid.0 with_hi.2 hi_str (remove with_hi.2 hi_str)
remove-Removed_example =
    remove-Removed 5 with_hi-Interned.valid.0 with_hi.2 hi_str with_hi-Interned.valid.1 hi_alone
      (rw hi_string at with_hi-Interned.found)
