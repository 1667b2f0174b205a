-- ===== src/Therm/Curve.antt =====
-- The curve that src/thermistor_table.c computes, over all readings of the 10 bit converter.
use mathlib.Core.Path.{subst}
use bmsnode_firmware.Prelude.Int.{ℤ, pos, negsuc}
use bmsnode_firmware.Prelude.{
  ℕ, zero, suc, ◌+◌, ◌-◌, ◌*◌, ◌≤◌, ◌<◌, ◌≡◌, refl, Bool, true, ◌&&◌, arith, check_below,
  check_below_sound,
}
use bmsnode_firmware.Prelude.Int.{ℤ, pos, sub_ℕ, ◌+ℤ◌, ◌*ℤ◌, ◌≤ℤ◌, leb_ℤ}
use bmsnode_firmware.Therm.{entry, t_at_idx, adc_to_temp}

leb_ℤ_sound : (a b : ℤ) → leb_ℤ a b ≡ true → a ≤ℤ b
leb_ℤ_sound a b h = ground arith

rises : ℕ → Bool
rises adc = leb_ℤ (adc_to_temp adc) (adc_to_temp (adc + 1))

rises_table : check_below 1023 rises ≡ true
unfolding check_below rises adc_to_temp
rises_table = refl

adc_to_temp_step : (adc : ℕ) → adc < 1023 → adc_to_temp adc ≤ℤ adc_to_temp (adc + 1)
unfolding rises
adc_to_temp_step adc h =
    leb_ℤ_sound (adc_to_temp adc) (adc_to_temp (adc + 1))
      (check_below_sound 1023 rises adc rises_table h)

-- A higher reading never gives a lower temperature.
pub adc_to_temp_mono : (k adc : ℕ) → adc + k ≤ 1023 → adc_to_temp adc ≤ℤ adc_to_temp (adc + k)
adc_to_temp_mono zero adc h = let e : adc + 0 ≡ adc = omega arith in rw e (omega arith)
adc_to_temp_mono (suc k) adc h =
    let e : adc + suc k ≡ adc + k + 1 = omega arith in
    rw e (
      omega (arith, adc_to_temp_mono k adc (omega arith), adc_to_temp_step (adc + k) (omega arith)))

at_entry : ℕ → Bool
at_entry idx =
    leb_ℤ (adc_to_temp (entry idx)) (pos (t_at_idx idx))
    && leb_ℤ (pos (t_at_idx idx)) (adc_to_temp (entry idx))

at_entry_table : check_below 20 at_entry ≡ true
unfolding check_below at_entry adc_to_temp
at_entry_table = refl

-- The difference of two neighbours in the table.
abbrev pub width : ℕ → ℕ
width i = entry (i + 1) - entry i

-- Between the entry `i`, which is at `4 * i` degrees, and the next one: the result is away from the
-- straight line between the two by at most half a degree. Both are counted from `4 * i` degrees on,
-- and times twice the difference of the entries.
abbrev pub IsNearest : ℕ → ℕ → Type 0
IsNearest i adc =
    let t = (adc_to_temp adc +ℤ sub_ℕ 0 (4 * i)) *ℤ (2 * width i) in
    let l = pos (2 * (4 * (adc - entry i))) in (t ≤ℤ l +ℤ pos (width i)) × (l ≤ℤ t +ℤ pos (width i))

nearest : ℕ → ℕ → Bool
nearest i adc =
    let t = (adc_to_temp adc +ℤ sub_ℕ 0 (4 * i)) *ℤ (2 * width i) in
    let l = pos (2 * (4 * (adc - entry i))) in
    leb_ℤ t (l +ℤ pos (width i)) && leb_ℤ l (t +ℤ pos (width i))

segment_nearest : ℕ → Bool
segment_nearest i = check_below (width i) (λ k. nearest i (entry i + k))

nearest_table : check_below 19 segment_nearest ≡ true
unfolding check_below segment_nearest nearest adc_to_temp
nearest_table = refl

both_le : (a b c d : ℤ) → (leb_ℤ a b && leb_ℤ c d) ≡ true → (a ≤ℤ b) × (c ≤ℤ d)
both_le a b c d h = ground arith

nearest_sound : (i adc : ℕ) → nearest i adc ≡ true → IsNearest i adc
unfolding nearest
nearest_sound i adc h =
    let t = (adc_to_temp adc +ℤ sub_ℕ 0 (4 * i)) *ℤ (2 * width i) in
    let l = pos (2 * (4 * (adc - entry i))) in
    both_le t (l +ℤ pos (width i)) l (t +ℤ pos (width i)) h

-- For each two neighbours of the table, at `4 * i` and `4 * (i + 1)` degrees: a reading from the
-- first of them on and below the second gives a nearest degree to the straight line between them.
pub adc_to_temp-IsNearest :
    (i adc : ℕ) → i < 19 → entry i ≤ adc → adc < entry (i + 1) → IsNearest i adc
unfolding segment_nearest
adc_to_temp-IsNearest i adc h lo hi =
    let row = check_below_sound 19 segment_nearest i nearest_table h in
    let k = adc - entry i in
    let at = check_below_sound (width i) (λ k. nearest i (entry i + k)) k row (omega arith) in
    let e : entry i + k ≡ adc = omega arith in
    nearest_sound i adc (subst (λ a. nearest i a ≡ true) e at)

ℤ_antisym : (a b : ℤ) → a ≤ℤ b → b ≤ℤ a → a ≡ b
ℤ_antisym a b h k = ground arith

-- At each entry of the table the result is the entry's temperature.
pub adc_to_temp-entry : (idx : ℕ) → idx < 20 → adc_to_temp (entry idx) ≡ pos (t_at_idx idx)
unfolding at_entry
adc_to_temp-entry idx h =
    let e = check_below_sound 20 at_entry idx at_entry_table h in
    let t = adc_to_temp (entry idx) in
    let c = pos (t_at_idx idx) in let (le, ge) = both_le t c c t e in ℤ_antisym t c le ge

lowest : adc_to_temp 0 ≡ negsuc 27
unfolding adc_to_temp
lowest = refl

highest : adc_to_temp 1023 ≡ pos 117
unfolding adc_to_temp
highest = refl

-- Every reading of the converter gives a temperature from -28 to 117 degrees.
pub adc_to_temp_range :
    (adc : ℕ) → adc ≤ 1023 → (negsuc 27 ≤ℤ adc_to_temp adc) × (adc_to_temp adc ≤ℤ pos 117)
adc_to_temp_range adc h =
    let e : 0 + adc ≡ adc = omega arith in
    let f : adc + (1023 - adc) ≡ 1023 = omega arith in
    (
      subst (λ t. t ≤ℤ adc_to_temp adc) lowest
          (subst (λ a. adc_to_temp 0 ≤ℤ adc_to_temp a) e (adc_to_temp_mono adc 0 (omega arith))),
      subst (λ t. adc_to_temp adc ≤ℤ t) highest
          (subst (λ a. adc_to_temp adc ≤ℤ adc_to_temp a) f
            (adc_to_temp_mono (1023 - adc) adc (omega arith))),
    )
