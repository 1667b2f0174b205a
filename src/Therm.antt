-- ===== src/Therm.antt =====
-- The thermistor table of src/thermistor_table.c and the conversion of an ADC reading to degrees.
pub mod Curve
use bmsnode_firmware.Prelude.{
  ℕ, zero, suc, ◌+◌, ◌-◌, ◌*◌, ◌/◌, List, [], ◌∷◌, ltb, leb, if◌then◌else◌, get_or,
}
use bmsnode_firmware.Prelude.Int.{ℤ, pos, sub_ℕ, ◌+ℤ◌, ◌*ℤ◌, ◌/ℤ◌, from_u16, int16}

abbrev pub therm_table : List ℕ
therm_table =
    267 ∷ 304 ∷ 343 ∷ 382 ∷ 422 ∷ 462 ∷ 502 ∷ 540 ∷ 578 ∷ 613 ∷ 647 ∷ 679 ∷ 709 ∷ 736 ∷ 761 ∷ 785
    ∷ 806 ∷ 826 ∷ 843 ∷ 859 ∷ []

abbrev pub t_step : ℕ
t_step = 4

abbrev pub t_last_idx : ℕ
t_last_idx = 19

abbrev pub t_at_idx : ℕ → ℕ
t_at_idx idx = idx * 4

abbrev pub entry : ℕ → ℕ
entry idx = get_or therm_table idx 0

-- The two readings and the temperature between which the code interpolates.
pub record Segment : Type 0 where
  pub adc0 : ℕ
  pub adc1 : ℕ
  pub temp0 : ℕ

-- The `for` loop: `n` entries from `idx` on, with the last ones read in `seg`.
pub search_loop : ℕ → ℕ → ℕ → Segment → Segment
search_loop zero idx adc seg = seg
search_loop (suc n) idx adc seg =
    let here = record seg { adc0 = entry idx; adc1 = entry (idx + 1) } in
    let more = search_loop n (idx + 1) adc here in
    if ltb adc here.adc1 then record here { temp0 = t_at_idx idx } else more

unfoldable pub segment : ℕ → Segment
unfolding search_loop
segment adc =
    if ltb adc (entry 0)
    then record { adc0 = entry 0; adc1 = entry 1; temp0 = t_at_idx 0 }
    else if leb (entry t_last_idx) adc
    then record {
      adc0 = entry (t_last_idx - 1);
      adc1 = entry t_last_idx;
      temp0 = t_at_idx (t_last_idx - 1);
    }
    else search_loop t_last_idx 0 adc (record { adc0 = 0; adc1 = 0; temp0 = 0 })

-- `(int16_t)adc - adc0`, then the rounded interpolation.
abbrev pub interpolate : Segment → ℕ → ℤ
interpolate seg adc =
    let delta = int16 (from_u16 adc +ℤ sub_ℕ 0 seg.adc0) in
    let range = seg.adc1 - seg.adc0 in
    let half_digit = range / 2 in
    let temp = int16 (delta *ℤ t_step +ℤ pos half_digit) in int16 (temp /ℤ range +ℤ pos seg.temp0)

unfoldable pub adc_to_temp : ℕ → ℤ
unfolding segment
adc_to_temp adc = interpolate (segment adc) adc
