-- ===== src/StringLib/Pack/RoundTrip.antt =====
-- What `unpack` reads where `pack` wrote an integer.
use native.Mathlib.Nat.{pow-le-pow_right}
use tsuki.Base.{
  ℕ, zero, suc, ◌+◌, ◌-◌, ◌*◌, ◌^◌, ◌≤◌, ◌<◌, bit_and, ◌≡◌, refl, sym, ap, ◌∙◌, ◌⊎◌, inl, inr,
  arith, Bool, true, false, ◌&&◌, Bool-cases, none, some, List, [], ◌∷◌, ◌++◌, ltb, leb, length,
  get_or, take, drop, replicate, reverse, if◌then◌else◌, length-append, length-reverse, length-take,
  length-replicate, get_or-append_left, get_or-append_right, get_or-reverse, take-append,
  get_or-take, get_or-replicate, drop-append, take-all,
}
use tsuki.Base.Int.{ℤ, pos, negsuc, ltb_ℤ, ◌-ℤ◌}
use tsuki.Base.Int64.{to_u64, IsI64, of_u64-to_u64}
use tsuki.StringLib.Pattern.Captures.{slice}
use tsuki.StringLib.Pack.{
  packint, unpackint, unpack_bytes, byte_index, fill_from, push_loop, pack_signed, pack_unsigned,
  unpack_int,
}
use tsuki.StringLib.Pack.Bytes.{low_bytes, length-low_bytes, push_loop-low_bytes, low_bytes_zero}
use tsuki.StringLib.Pack.Sign.{FitsIn, power_256}
use tsuki.StringLib.Pack.Unpack.{Reads, to_u64-lt, unpack_signed, unpack_unsigned}

-- The bytes that `packint` means to write, from the low end.
abbrev content : ℕ → ℕ → Bool → List ℕ
content n size neg =
    if neg && ltb 8 size then fill_from 8 255 (low_bytes size n) else low_bytes size n

abbrev order : Bool → List ℕ → List ℕ
order little xs = if little then xs else reverse xs

-- The case where a fill would reach the bytes before.
abbrev pub WritesAlone : List ℕ → Bool → ℕ → Type 0
WritesAlone b neg size = (b ≡ []) ⊎ ((neg && ltb 8 size) ≡ false)

order_after :
    (b c : List ℕ) (little : Bool)
    → (if little then b ++ c else take (length b) (b ++ c) ++ reverse (drop (length b) (b ++ c)))
      ≡ b ++ order little c
order_after b c true = refl
order_after b c false = rw (take-append b c, drop-append b c) refl

abbrev packed : List ℕ → Bool → ℕ → Bool → List ℕ → List ℕ
packed b little size neg body =
    let filled = if neg && ltb 8 size then fill_from 8 255 (b ++ body) else b ++ body in
    if little then filled else take (length b) filled ++ reverse (drop (length b) filled)

packed_content :
    (b body : List ℕ) (little : Bool) (size : ℕ) (neg : Bool)
    → WritesAlone b neg size
    → packed b little size neg body
      ≡ b ++ order little (if neg && ltb 8 size then fill_from 8 255 body else body)
packed_content b body little size neg (inl empty) =
    rw (empty) (order_after [] (if neg && ltb 8 size then fill_from 8 255 body else body) little)
packed_content b body little size neg (inr e) = rw (e) (order_after b body little)

pub packint-content :
    (b : List ℕ) (n : ℕ) (little : Bool) (size : ℕ) (neg : Bool)
    → 1 ≤ size
    → WritesAlone b neg size
    → packint b n little size neg ≡ b ++ order little (content n size neg)
unfolding packint
packint-content b n little zero neg h alone = absurd (omega arith)
packint-content b n little (suc k) neg h alone =
    let less : suc k - 1 ≡ k = omega arith in
    ap (λ m. packed b little (suc k) neg (bit_and n 255 ∷ push_loop m n)) less
    ∙ ap (packed b little (suc k) neg) (push_loop-low_bytes k n)
    ∙ packed_content b (low_bytes (suc k) n) little (suc k) neg alone

length-content : (n size : ℕ) (neg : Bool) → length (content n size neg) ≡ size
length-content n size neg = elim (Bool-cases (neg && ltb 8 size)) [
  | inr e ↦ rw (e) (length-low_bytes size n)
  | inl e ↦
      let lb = low_bytes size n in
      let more : 8 < size = ground arith in
      rw (e) (
        omega (
          arith,
          more,
          length-append (take 8 lb) (replicate (length lb - 8) 255),
          length-take 8 lb,
          length-replicate {A = ℕ} (length lb - 8) 255,
          length-low_bytes size n,
        ))
]

-- The low 8 bytes, and those above them.
content_low :
    (n size j : ℕ) (neg : Bool)
    → j < 8
    → get_or (content n size neg) j 0 ≡ get_or (low_bytes size n) j 0
content_low n size j neg h = elim (Bool-cases (neg && ltb 8 size)) [
  | inr e ↦ rw (e) refl
  | inl e ↦
      let lb = low_bytes size n in
      let more : 8 < size = ground arith in
      rw (e) (
        get_or-append_left (take 8 lb) (replicate (length lb - 8) 255) j 0
          (omega (arith, length-take 8 lb, length-low_bytes size n))
        ∙ get_or-take 8 j lb 0 h)
]

content_high :
    (n size j : ℕ) (neg : Bool)
    → n < 2 ^ 64
    → 8 ≤ j
    → j < size
    → get_or (content n size neg) j 0 ≡ (if neg then 255 else 0)
content_high n size j false low h lt =
    let top : 256 ^ 8 ≤ 256 ^ j = pow-le-pow_right {n = 256} (omega arith) {i = 8} {j = j} h in
    low_bytes_zero size j n (omega (arith, top))
content_high n size j true low h lt =
    let lb = low_bytes size n in
    let more : ltb 8 size ≡ true = ground arith in
    rw (more) (
      get_or-append_right (take 8 lb) (replicate (length lb - 8) 255) j (j - 8) 0
        (omega (arith, length-take 8 lb, length-low_bytes size n))
      ∙ get_or-replicate (length lb - 8) (j - 8) 255 0 (omega (arith, length-low_bytes size n)))

-- The index function of `unpackint` undoes the order.
order_index :
    (c : List ℕ) (little : Bool) (j : ℕ)
    → j < length c
    → get_or (order little c) (byte_index little (length c) j) 0 ≡ get_or c j 0
order_index c true j h = refl
order_index c false j h = get_or-reverse c j (length c - 1 - j) 0 (omega arith)

length-order : (little : Bool) (c : List ℕ) → length (order little c) ≡ length c
length-order true c = refl
length-order false c = length-reverse c

slice_after : (b c : List ℕ) (size : ℕ) → size ≡ length c → slice (b ++ c) (length b) size ≡ some c
slice_after b c size h =
    let inside : leb (length b + size) (length (b ++ c)) ≡ true =
      ground (arith, length-append b c) in
    rw (inside, drop-append b c, take-all size c h) refl

module _ (b : List ℕ) (n size : ℕ) (little neg : Bool) (h : 1 ≤ size) (lt : n < 2 ^ 64) where
  Reads-content :
      Reads
        (λ j. get_or (order little (content n size neg)) (byte_index little size j) 0)
        n
        size
        (if neg then 255 else 0)
  Reads-content =
      let c = content n size neg in
      let at : (j : ℕ)
          → j < size
          → get_or (order little c) (byte_index little size j) 0 ≡ get_or c j 0 =
        λ j under.
          ap (λ s. get_or (order little c) (byte_index little s j) 0)
            (sym (length-content n size neg))
          ∙ order_index c little j (omega (arith, length-content n size neg)) in
      (
        λ j low under. at j under ∙ content_low n size j neg low,
        λ j high under. at j under ∙ content_high n size j neg lt high under,
      )

  unpack_packed :
      (signed : Bool)
      → WritesAlone b neg size
      → unpack_int (packint b n little size neg) (length b) little signed size
        ≡ unpack_bytes
            (λ j. get_or (order little (content n size neg)) (byte_index little size j) 0)
            size
            signed
  unfolding unpack_int unpackint
  unpack_packed signed alone =
      let c = order little (content n size neg) in
      let count : length c ≡ size =
        length-order little (content n size neg) ∙ length-content n size neg in
      ap (λ p. unpack_int p (length b) little signed size)
        (packint-content b n little size neg h alone)
      ∙ ap (λ o. elim o [ none ↦ none | some v ↦ unpackint v little signed ])
          (slice_after b c size (sym count))
      ∙ ap (λ s. unpack_bytes (λ j. get_or c (byte_index little s j) 0) s signed) count

-- The range that the guard of `pack` leaves.
guard_fits :
    (b packed : List ℕ) (v : ℤ) (little : Bool) (size : ℕ)
    → pack_signed b v little size ≡ some packed
    → (size < 8 → FitsIn size v) × (packint b (to_u64 v) little size (ltb_ℤ v (pos 0)) ≡ packed)
unfolding pack_signed ◌-ℤ◌
guard_fits b packed (pos m) little size h = (λ short. ground arith, ground arith)
guard_fits b packed (negsuc m) little size h = (λ short. ground arith, ground arith)

guard_fits_unsigned :
    (b packed : List ℕ) (v : ℤ) (little : Bool) (size : ℕ)
    → pack_unsigned b v little size ≡ some packed
    → (size < 8 → to_u64 v < 2 ^ (size * 8)) × (packint b (to_u64 v) little size false ≡ packed)
unfolding pack_unsigned
guard_fits_unsigned b packed v little size h = (λ short. ground arith, ground arith)

-- Where `pack` accepts an `i64` for a signed field of `size` bytes, `unpack` reads the integer back
-- from the end of what was there before, in either byte order. For a negative number in more than 8
-- bytes this supposes that nothing was written before it.
pub pack-unpack_signed :
    (b packed : List ℕ) (v : ℤ) (little : Bool) (size : ℕ)
    → IsI64 v
    → 1 ≤ size
    → WritesAlone b (ltb_ℤ v (pos 0)) size
    → pack_signed b v little size ≡ some packed
    → unpack_int packed (length b) little true size ≡ some v
pack-unpack_signed b packed v little size i64 h1 alone accepted =
    let neg = ltb_ℤ v (pos 0) in
    let (fits, written) = guard_fits b packed v little size accepted in
    ap (λ p. unpack_int p (length b) little true size) (sym written)
    ∙ unpack_packed b (to_u64 v) size little neg h1 (to_u64-lt v) true alone
    ∙ unpack_signed _ v size i64 h1 fits
        (Reads-content b (to_u64 v) size little neg h1 (to_u64-lt v))

-- Where `pack` accepts an `i64` for an unsigned field of `size` bytes, `unpack` reads the integer back
-- from the end of what was there before, in either byte order.
pub pack-unpack_unsigned :
    (b packed : List ℕ) (v : ℤ) (little : Bool) (size : ℕ)
    → IsI64 v
    → 1 ≤ size
    → pack_unsigned b v little size ≡ some packed
    → unpack_int packed (length b) little false size ≡ some v
pack-unpack_unsigned b packed v little size i64 h1 accepted =
    let (fits, written) = guard_fits_unsigned b packed v little size accepted in
    ap (λ p. unpack_int p (length b) little false size) (sym written)
    ∙ unpack_packed b (to_u64 v) size little false h1 (to_u64-lt v) false (inr refl)
    ∙ unpack_unsigned _ (to_u64 v) size (to_u64-lt v)
        (λ short. omega (arith, fits short, power_256 size))
        (Reads-content b (to_u64 v) size little false h1 (to_u64-lt v))
    ∙ ap some (of_u64-to_u64 v i64)
