-- ===== src/Tests/Formats.antt =====
-- The theorems on the formats of `pack` at concrete formats.
use tsuki.Base.{◌≡◌, refl, [], ◌∷◌}
use tsuki.StringLib.Pack.Format.{
  new_header, getoption, getnum, getnumlimit, getdetails, padding_to, parsed, refused,
  out_of_limits, signed,
}

three_bytes :
    getdetails new_header 5 b'i' (b'3' ∷ b'<' ∷ []) ≡ parsed (signed 3, 0, new_header, b'<' ∷ [])
unfolding getdetails getoption getnumlimit getnum padding_to
three_bytes = refl

-- "i17" asks for too much.
too_wide : getoption new_header b'i' (b'1' ∷ b'7' ∷ []) ≡ refused out_of_limits
unfolding getoption getnumlimit getnum
too_wide = refl
