-- ===== src/StringLib/Pack/Format/Letters.antt =====
-- The letters of the options: `getoption` of src/builtin/string/mod.rs.
use tsuki.Base.{ℕ, ◌≡◌, false, Option, none, some, List, [], ◌∷◌, ◌==◌}
use tsuki.StringLib.Pack.Format.{Pack}
use tsuki.StringLib.Pack.Format.Options.{takes_size, IsKind}

-- What a letter of one kind gives.
abbrev IsFixed : ℕ → Option Pack → Type 0
IsFixed c none = Unit
IsFixed c (some k) = (takes_size c ≡ false) × ((c == b'c') ≡ false) × IsKind k

abbrev AllFixed : List (ℕ × Pack) → Type 0
AllFixed [] = Unit
AllFixed (o ∷ os) = IsFixed o.0 (some o.1) × AllFixed os
