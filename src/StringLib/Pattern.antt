-- ===== src/StringLib/Pattern.antt =====
-- Pattern matching of src/builtin/string/mod.rs: `MatchState` and its methods. A text and a pattern
-- are lists of bytes; what the source slices off a pattern is the rest of the list.
pub mod Class
pub mod Captures
pub mod Match
pub mod Sound
pub mod Panics
pub mod Plus
use tsuki.Base.{ℕ, ◌≤◌, Option, none, some, List}

pub data PatternError : Type 0 where
  too_complex too_many_captures invalid_capture invalid_index : PatternError
  missing_arguments missing_set ends_with_escape missing_bracket : PatternError

-- `panic` is an index out of bounds or an `unwrap` that fails; `stuck` is the end of the fuel.
pub data Res {ℓ} (A : Type ℓ) : Type ℓ where
  ok : A → Res A
  err : PatternError → Res A
  panic : Res A
  stuck : Res A

infixl 5 ◌>>=◌
abbrev pub ◌>>=◌ {ℓ κ} : {A : Type ℓ} {B : Type κ} → Res A → (A → Res B) → Res B
ok a >>= f = f a
err e >>= f = err e
panic >>= f = panic
stuck >>= f = stuck

-- An access that must be in bounds.
abbrev pub or_panic {ℓ} : {A : Type ℓ} → Option A → Res A
or_panic none = panic
or_panic (some a) = ok a
