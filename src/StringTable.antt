-- ===== src/StringTable.antt =====
-- The table of interned strings (src/string/table.rs), `luaS_hash` of src/lstring.rs, and
-- `Str::new` of src/string/mod.rs. A bucket is the list of its chain; a string is its address, its
-- hash and its bytes. `nuse` and the size are `usize`; the allocator chooses an address.
pub mod Chains
pub mod Rehash
pub mod Lookup
pub mod Intern
pub mod Remove
use tsuki.Base.{
  ℕ, zero, suc, ◌+◌, ◌-◌, ◌*◌, ◌/◌, ◌%◌, ◌^◌, bit_and, bit_xor, Bool, true, false, ◌&&◌, Option,
  none, some, List, [], ◌∷◌, ◌++◌, ◌==◌, leb, ltb, if◌then◌else◌, length, get_or, set,
}
use mathlib.Core.List.{reverse}
use native.Mathlib.Decide.{ℕ_discrete}

pub record Str : Type 0 where
  pub address : ℕ
  pub hash : ℕ
  pub bytes : List ℕ

pub record StringTable : Type 0 where
  pub buckets : List (List Str)
  pub nuse : ℕ

-- `h << 5` and the additions wrap on `u32`; the bytes come last first.
unfoldable pub hash_loop : ℕ → List ℕ → ℕ
hash_loop h [] = h
hash_loop h (b ∷ bs) = hash_loop (bit_xor h ((h * 2 ^ 5 % 2 ^ 32 + h / 2 ^ 2 + b) % 2 ^ 32)) bs

unfoldable pub luas_hash : List ℕ → ℕ → ℕ
unfolding hash_loop
luas_hash s seed = hash_loop (bit_xor seed (length s % 2 ^ 32)) (reverse s)

-- Slice equality.
abbrev pub same_bytes : List ℕ → List ℕ → Bool
same_bytes [] [] = true
same_bytes (a ∷ s) (b ∷ t) = (a == b) && same_bytes s t
same_bytes _ _ = false

abbrev pub bucket : List (List Str) → ℕ → List Str
bucket v i = get_or v i []

-- `h & (size - 1)`
abbrev pub index : ℕ → ℕ → ℕ
index size h = bit_and h (size - 1)

-- The walk along a chain.
abbrev pub find : List ℕ → List Str → Option Str
find s [] = none
find s (e ∷ es) = if same_bytes e.bytes s then some e else find s es

-- Each string of a chain goes to the front of its bucket.
abbrev pub move_chain : ℕ → List Str → List (List Str) → List (List Str)
move_chain nsize [] v = v
move_chain nsize (p ∷ ps) v =
    let h = index nsize p.hash in move_chain nsize ps (set v h (p ∷ bucket v h))

-- From bucket `i` on, `n` buckets.
abbrev pub rehash_loop : ℕ → ℕ → ℕ → List (List Str) → List (List Str)
rehash_loop nsize i zero v = v
rehash_loop nsize i (suc n) v =
    rehash_loop nsize (i + 1) n (move_chain nsize (bucket v i) (set v i []))

abbrev pub nulls : ℕ → List (List Str)
nulls zero = []
nulls (suc n) = [] ∷ nulls n

unfoldable pub new_table : StringTable
new_table = record { buckets = nulls 128; nuse = 0 }

-- `resize` where it grows: the new buckets are null.
unfoldable pub grow : StringTable → ℕ → StringTable
grow t nsize =
    let osize = length t.buckets in
    record t { buckets = rehash_loop nsize 0 osize (t.buckets ++ nulls (nsize - osize)) }

-- `insert`: the string that is there, or the table with room for a new one.
abbrev pub make_room : StringTable → StringTable
make_room t = if leb (length t.buckets) t.nuse then grow t (length t.buckets * 2) else t

abbrev pub after_find : StringTable → Option Str → Option Str × StringTable
after_find t (some e) = (some e, t)
after_find t none = (none, record (make_room t) { nuse = t.nuse + 1 })

unfoldable pub insert : StringTable → ℕ → List ℕ → Option Str × StringTable
insert t h s = after_find t (find s (bucket t.buckets (index (length t.buckets) h)))

-- The short branch of `Str::new`, after `insert`: the string, whether it is new, and the table.
abbrev pub after_insert : Str → Option Str × StringTable → Str × Bool × StringTable
after_insert v (some e, t) = (e, false, t)
after_insert v (none, t) =
    let i = index (length t.buckets) v.hash in
    (v, true, record t { buckets = set t.buckets i (v ∷ bucket t.buckets i) })

unfoldable pub intern : StringTable → ℕ → ℕ → List ℕ → Str × Bool × StringTable
unfolding insert
intern t seed fresh s =
    let h = luas_hash s seed in
    after_insert (record { address = fresh; hash = h; bytes = s }) (insert t h s)

-- `remove`: the chain without the string at that address. `none` is a walk past its end.
abbrev pub unlink : ℕ → List Str → Option (List Str)
unlink a [] = none
unlink a (e ∷ es) =
    let rest = unlink a es in
    if e.address == a then some es else (elim rest [ none ↦ none | some r ↦ some (e ∷ r) ])

abbrev pub after_unlink : StringTable → ℕ → Option (List Str) → Option StringTable
after_unlink t i none = none
after_unlink t i (some es) = some (record { buckets = set t.buckets i es; nuse = t.nuse - 1 })

abbrev pub remove_at : StringTable → ℕ → ℕ → Option StringTable
remove_at t h address =
    let i = index (length t.buckets) h in after_unlink t i (unlink address (bucket t.buckets i))

unfoldable pub remove : StringTable → Str → Option StringTable
remove t s = remove_at t s.hash s.address
