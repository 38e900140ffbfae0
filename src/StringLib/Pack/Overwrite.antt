-- ===== src/StringLib/Pack/Overwrite.antt =====
-- What `packint` does to the bytes before a negative number of more than 8 bytes.
use tsuki.Base.{
  if◌then◌else◌, ℕ, ◌-◌, ◌≤◌, ◌<◌, bit_and, ◌≡◌, ◌∙◌, arith, Bool, true, false, List, ◌∷◌, ◌++◌,
  ltb, length, get_or, take, drop, replicate, reverse, length-append, length-take, length-replicate,
  get_or-take, get_or-replicate, get_or-append_left, get_or-append_right,
}
use tsuki.StringLib.Pack.{packint, fill_from, push_loop}

filled_byte :
    (xs : List ℕ) (i : ℕ)
    → 8 ≤ i
    → i < length xs
    → (get_or (fill_from 8 255 xs) i 0 ≡ 255) × (length (fill_from 8 255 xs) ≡ length xs)
filled_byte xs i h lt = (
  get_or-append_right (take 8 xs) (replicate (length xs - 8) 255) i (i - 8) 0
        (omega (arith, length-take 8 xs))
      ∙ get_or-replicate (length xs - 8) (i - 8) 255 0 (omega arith),
  omega (
    arith,
    length-append (take 8 xs) (replicate (length xs - 8) 255),
    length-take 8 xs,
    length-replicate {A = ℕ} (length xs - 8) 255,
  ),
)

-- Packing a negative number in more than 8 bytes turns each byte from the ninth on that was written
-- before it into 255, whatever it was.
pub packint-overwrites :
    (b : List ℕ) (n size i : ℕ) (little : Bool)
    → 8 < size
    → 8 ≤ i
    → i < length b
    → get_or (packint b n little size true) i 0 ≡ 255
unfolding packint
packint-overwrites b n size i little hs h lt =
    let pushed = b ++ bit_and n 255 ∷ push_loop (size - 1) n in
    let long : ltb 8 size ≡ true = ground arith in
    let filled =
      filled_byte pushed i h
        (omega (arith, length-append b (bit_and n 255 ∷ push_loop (size - 1) n))) in
    rw (long) (ordered (fill_from 8 255 pushed) little filled.0 filled.1)
  where
    ordered :
        (f : List ℕ) (little : Bool)
        → get_or f i 0 ≡ 255
        → length f ≡ length (b ++ bit_and n 255 ∷ push_loop (size - 1) n)
        → get_or (if little then f else take (length b) f ++ reverse (drop (length b) f)) i 0 ≡ 255
    ordered f true e count = e
    ordered f false e count =
        get_or-append_left (take (length b) f) (reverse (drop (length b) f)) i 0 (
          omega (
            arith,
            length-take (length b) f,
            length-append b (bit_and n 255 ∷ push_loop (size - 1) n),
          ))
        ∙ get_or-take (length b) i f 0 lt
        ∙ e
