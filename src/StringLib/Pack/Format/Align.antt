-- ===== src/StringLib/Pack/Format/Align.antt =====
-- The padding before an option: `getdetails` of src/builtin/string/mod.rs.
use tsuki.Base.{ℕ, ◌+◌, ◌%◌, ◌<◌, ◌≡◌, Bool, true, false, ◌||◌, ◌==◌}
use tsuki.StringLib.Pack.Format.{Parsed, parsed, refused, not_power_of_2}

abbrev pub is_power : ℕ → Bool
is_power a = a == 1 || a == 2 || a == 4 || a == 8 || a == 16

-- The padding brings the size to the next multiple of a power of 2; it is refused where there is none.
abbrev pub IsPadding : ℕ → ℕ → Parsed ℕ → Type 0
IsPadding total a (parsed n) = (is_power a ≡ true) × (n < a) × ((total + n) % a ≡ 0)
IsPadding total a (refused e) = (is_power a ≡ false) × (e ≡ not_power_of_2)
