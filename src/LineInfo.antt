-- ===== src/LineInfo.antt =====
-- The lines of the instructions of a function: `savelineinfo` and `removelastlineinfo` of src/lcode.rs,
-- `getbaseline` and `luaG_getfuncline` of src/ldebug.rs. The arrays are the lists of the entries that are in
-- use; a new entry of `lineinfo` stands at the current instruction.
pub mod Kept
pub mod Read
pub mod Fixed
pub mod Written
use tsuki.Base.{
  ℕ, zero, suc, ◌+◌, ◌-◌, ◌*◌, ◌/◌, ◌%◌, Bool, true, false, ◌&&◌, ◌||◌, Option, none, some, List,
  [], ◌∷◌, ◌++◌, ltb, leb, ◌==◌, length, get_or, take, if◌then◌else◌,
}
use tsuki.Base.Int.{ℤ, pos, negsuc, ◌+ℤ◌, ◌-ℤ◌, pos_part, neg_part}

pub record AbsLineInfo : Type 0 where
  pub pc : ℕ
  pub line : ℤ

-- What `Proto` and `FuncState` hold of the lines.
pub record Lines : Type 0 where
  pub linedefined : ℤ
  pub lineinfo : List ℤ
  pub abslineinfo : List AbsLineInfo
  pub previousline : ℤ
  pub iwthabs : ℕ

-- As `open_func` of src/lparser.rs leaves it.
abbrev pub no_lines : ℤ → Lines
no_lines d = record {
  linedefined = d;
  lineinfo = [];
  abslineinfo = [];
  previousline = d;
  iwthabs = 0;
}

-- The entry of an instruction whose line is in `abslineinfo`, -128.
abbrev pub absolute_mark : ℤ
absolute_mark = negsuc 127

abbrev pub is_mark : ℤ → Bool
is_mark (pos n) = false
is_mark (negsuc n) = n == 127

abbrev pub magnitude : ℤ → ℕ
magnitude d = pos_part d + neg_part d

unfoldable pub save_absolute : ℤ → Lines → Lines
save_absolute line s = record s {
  abslineinfo = s.abslineinfo ++ record { pc = length s.lineinfo; line = line } ∷ [];
  lineinfo = s.lineinfo ++ absolute_mark ∷ [];
  previousline = line;
  iwthabs = 1;
}

unfoldable pub save_relative : ℤ → ℤ → Lines → Lines
save_relative line linedif s = record s {
  lineinfo = s.lineinfo ++ linedif ∷ [];
  previousline = line;
  iwthabs = (s.iwthabs + 1) % 256;
}

unfoldable pub savelineinfo : ℤ → Lines → Lines
unfolding save_absolute save_relative ◌-ℤ◌
savelineinfo line s =
    let linedif = line -ℤ s.previousline in
    if leb 128 (magnitude linedif)
    then save_absolute line s
    else (if leb 128 s.iwthabs then save_absolute line s else save_relative line linedif s)

abbrev pub last_entry : List ℤ → ℤ
last_entry xs = get_or xs (length xs - 1) (pos 0)

-- Both arrays lose their last entry by count. The next line after an absolute one is made absolute.
unfoldable pub removelastlineinfo : Lines → Lines
unfolding ◌-ℤ◌
removelastlineinfo s =
    if is_mark (last_entry s.lineinfo)
    then record s {
      lineinfo = take (length s.lineinfo - 1) s.lineinfo;
      abslineinfo = take (length s.abslineinfo - 1) s.abslineinfo;
      iwthabs = 129;
    }
    else record s {
      lineinfo = take (length s.lineinfo - 1) s.lineinfo;
      previousline = s.previousline -ℤ last_entry s.lineinfo;
      iwthabs = (s.iwthabs + 255) % 256;
    }

unfoldable pub fixline : ℤ → Lines → Lines
unfolding removelastlineinfo savelineinfo
fixline line s = savelineinfo line (removelastlineinfo s)

-- An entry of `abslineinfo`; every index that is read is in bounds.
abbrev pub abs_at : List AbsLineInfo → ℕ → AbsLineInfo
abs_at xs j = get_or xs j (record { pc = 0; line = pos 0 })

-- The loop of `getbaseline`; `j` is its `i + 1`.
unfoldable pub base_loop : List AbsLineInfo → ℕ → ℕ → ℕ → ℕ
base_loop xs pc zero j = j
base_loop xs pc (suc n) j =
    let rest = base_loop xs pc n (j + 1) in
    if ltb j (length xs) && leb (abs_at xs j).pc pc then rest else j

-- The instruction after `basepc`, and the line there.
unfoldable pub getbaseline : Lines → ℕ → ℕ × ℤ
unfolding base_loop
getbaseline s pc =
    if (length s.abslineinfo == 0) || ltb pc (abs_at s.abslineinfo 0).pc
    then (0, s.linedefined)
    else (let i = base_loop s.abslineinfo pc (suc (length s.abslineinfo)) (pc / 128) - 1 in
        ((abs_at s.abslineinfo i).pc + 1, (abs_at s.abslineinfo i).line))

-- The loop of `luaG_getfuncline` over `n` instructions from `k` on.
unfoldable pub add_loop : List ℤ → ℕ → ℕ → ℤ → ℤ
unfolding ◌+ℤ◌
add_loop xs zero k line = line
add_loop xs (suc n) k line = add_loop xs n (k + 1) (line +ℤ get_or xs k (pos 0))

unfoldable pub getfuncline : Lines → ℕ → ℤ
unfolding getbaseline add_loop
getfuncline s pc =
    if length s.lineinfo == 0
    then negsuc 0
    else (let base = getbaseline s pc in add_loop s.lineinfo (pc + 1 - base.0) base.0 base.1)
