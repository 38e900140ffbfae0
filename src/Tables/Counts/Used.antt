-- ===== src/Tables/Counts/Used.antt =====
-- `numusearray` counts the used slots of the array part (src/table/legacy.rs).
use mathlib.Core.Option
use native.Mathlib.Nat.{pow-suc}
use tsuki.Base.{
  ℕ, zero, suc, ◌+◌, ◌-◌, ◌*◌, ◌%◌, ◌^◌, ◌≤◌, ◌<◌, ◌≡◌, refl, ap, ◌∙◌, arith, Bool, true, false,
  Option, some, List, length, min, ltb, leb,
}
use tsuki.Tables.Sizes.Best.{keys_below, sum, small_power, pow_le, power_le}
use tsuki.Tables.Counts.{Usage, count_slice, usage_loop, numusearray}
use tsuki.Tables.Counts.Slices.{used_below, IsCounted, count_slice-IsCounted}

double : (k : ℕ) → 2 ^ k * 2 ≡ 2 ^ (k + 1)
double k =
    let next : k + 1 ≡ suc k = omega arith in omega (arith, pow-suc 2 k, ap (λ (n : ℕ). 2 ^ n) next)

module _ (array : List Bool) (nums : List ℕ) (fits : sum nums + length array < 2 ^ 32 - 1)
    (wide : length nums ≡ 32) (short : length array ≤ 2 ^ 31) where
  -- Before the slice `s.lg`.
  record IsRound (s : Usage) (done : ℕ) : Type 0 where
    counted : IsCounted array nums fits s done
    power : s.ttlg ≡ 2 ^ s.lg % 2 ^ 32
    within : done ≤ length array
    below : done ≤ 2 ^ s.lg
    before : (k : ℕ) → k < s.lg → min (2 ^ k) (length array) ≤ done

  count_slice-IsRound :
      (s : Usage) (done lim : ℕ)
      → s.lg < 32
      → done ≤ lim
      → lim ≤ 2 ^ s.lg
      → lim ≤ length array
      → min (2 ^ s.lg) (length array) ≤ lim
      → ((k : ℕ) → k < s.lg → 2 ^ k ≤ done)
      → IsRound s done
      → IsRound (count_slice array lim s) lim
  unfolding count_slice
  count_slice-IsRound s done lim room le low short reach before h = record {
    counted =
        count_slice-IsCounted array nums fits s done lim le short room wide before
          (λ k at. omega (arith, power_le s.lg k at, low)) h.counted;
    power =
        ap (λ x. x * 2 % 2 ^ 32) (h.power ∙ small_power s.lg room)
        ∙ ap (λ x. x % 2 ^ 32) (double s.lg);
    within = short;
    below = omega (arith, pow_le 1 s.lg, low);
    before = λ k at. omega (arith, power_le k s.lg (omega (arith, at)), reach);
  }

  module _ (k : ℕ) (lt : k < 32) where
    -- The used slots are counted, those of the first slices by the first counts.
    abbrev Answer : Option Usage → Type 0
    Answer r =
        (Option.map (λ s. s.ause) r ≡ some (used_below (length array) array))
        × (Option.map (λ s. keys_below (suc k) s.nums) r
            ≡ some (keys_below (suc k) nums + used_below (min (2 ^ k) (length array)) array))

    stop_Answer : (s : Usage) (done : ℕ) → length array ≤ done → IsRound s done → Answer (some s)
    stop_Answer s done enough h =
        let end : done ≡ length array = omega (arith, enough, h.within) in
        (
          ap some (h.counted.all ∙ ap (λ n. used_below n array) end),
          ap some (
              h.counted.each k lt
              ∙ ap (λ (n : ℕ). keys_below (suc k) nums + used_below (min (2 ^ k) n) array) end),
        )

    round_case :
        (n : ℕ) (s : Usage) (done : ℕ) (q r t : Bool)
        → leb s.lg 31 ≡ q
        → ltb (length array) s.ttlg ≡ r
        → ltb (length array) s.i ≡ t
        → s.lg ≤ 32
        → IsRound s done
        → ((lim : ℕ)
            → s.lg < 32
            → IsRound (count_slice array lim s) lim
            → Answer (usage_loop n array (count_slice array lim s)))
        → Answer (elim q [
          | false ↦ some s
          | true ↦ elim r [
            | true ↦ elim t [
              | true ↦ some s
              | false ↦ usage_loop n array (count_slice array (length array) s)
            ]
            | false ↦ usage_loop n array (count_slice array s.ttlg s)
          ]
        ])
    round_case n s done false r t e f g le h rec =
        let last : s.lg ≡ 32 = ground arith in
        stop_Answer s done (omega (arith, h.before 31 (omega (arith, last)), short)) h
    round_case n s done true true true e f g le h rec =
        stop_Answer s done (ground (arith, h.counted.index)) h
    round_case n s done true true false e f g le h rec =
        let room : s.lg < 32 = ground arith in
        let power = h.power ∙ small_power s.lg room in
        let beyond : length array < 2 ^ s.lg = ground (arith, power) in
        let more : done < length array = ground (arith, h.counted.index) in
        rec (length array) room (
          count_slice-IsRound s done (length array) room h.within (omega (arith, beyond))
            (omega arith) (omega arith) (λ j at. omega (arith, h.before j at, more)) h)
    round_case n s done true false t e f g le h rec =
        let room : s.lg < 32 = ground arith in
        let power = h.power ∙ small_power s.lg room in
        let within : s.ttlg ≤ length array = ground arith in
        rec s.ttlg room (
          count_slice-IsRound s done s.ttlg room (omega (arith, power, h.below))
            (omega (arith, power)) within (omega (arith, power))
            (λ j at.
              omega (arith, power_le j s.lg (omega (arith, at)), h.before j at, power, within))
            h)

    usage_loop_lem :
        (n : ℕ) (s : Usage) (done : ℕ)
        → n + s.lg ≡ 33
        → s.lg ≤ 32
        → IsRound s done
        → Answer (usage_loop n array s)
    unfolding usage_loop count_slice
    usage_loop_lem zero s done e le h = absurd (omega (arith, e, le))
    usage_loop_lem (suc n) s done e le h =
        round_case n s done (leb s.lg 31) (ltb (length array) s.ttlg) (ltb (length array) s.i) refl
          refl refl le h
          (λ lim room h'.
            usage_loop_lem n (count_slice array lim s) lim (omega (arith, e)) (omega (arith, room))
              h')

-- For an array part of at most 2 ^ 31 slots and 32 counts that with them stay below 2 ^ 32 - 1,
-- `numusearray` ends within its rounds, returns the number of the slots in use, and adds to the
-- first k + 1 counts together the number of those among the first 2 ^ k slots.
pub numusearray_used :
    (array : List Bool) (nums : List ℕ) (k : ℕ)
    → sum nums + length array < 2 ^ 32 - 1
    → length nums ≡ 32
    → length array ≤ 2 ^ 31
    → k < 32
    → (Option.map (λ s. s.ause) (numusearray array nums) ≡ some (used_below (length array) array))
      × (Option.map (λ s. keys_below (suc k) s.nums) (numusearray array nums)
          ≡ some (keys_below (suc k) nums + used_below (min (2 ^ k) (length array)) array))
unfolding numusearray
numusearray_used array nums k fits wide short lt =
    usage_loop_lem array nums fits wide short k lt 33
      (record { lg = 0; ttlg = 1; i = 1; ause = 0; nums = nums }) 0 refl (omega arith)
      (record {
        counted = record {
          index = refl;
          all = refl;
          each = λ j at.
              let none_yet : min (2 ^ j) 0 ≡ 0 = omega arith in
              omega (arith, ap (λ (m : ℕ). used_below m array) none_yet);
          size = refl;
        };
        power = refl;
        within = omega arith;
        below = omega arith;
        before = λ j at. absurd (omega (arith, at));
      })
