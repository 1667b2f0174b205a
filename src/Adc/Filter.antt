-- ===== src/Adc/Filter.antt =====
-- The smoothing of src/adc.c: no overflow, no overshoot, and it settles on a steady reading.
use bmsnode_firmware.Prelude.{
  ℕ, zero, suc, ◌+◌, ◌≤◌, ◌<◌, ◌≡◌, refl, ◌∙◌, inl, inr, true, false, ◌&&◌, List, [], ◌∷◌, arith,
  Bool-cases, u16, length, get_or, set, All, length-set,
}
use bmsnode_firmware.Tmr.{tmr_expired}
use bmsnode_firmware.Adc.{
  Channel, channel_index, collect_one, cellv, board_temp, ext_temp, mcu_temp, channels, adc_collect,
  adc_sample, adc_run, RefSel, Converter, AdcHw, Adc, adc_filter,
}

-- The smoothed value stays between any bounds of the sample and of the value before, for readings
-- below 2048: the 16 bit sums do not overflow.
pub adc_filter_bounds :
    (lo hi sample smoothed : ℕ)
    → hi < 2048
    → lo ≤ sample
    → sample ≤ hi
    → lo ≤ smoothed
    → smoothed ≤ hi
    → (lo ≤ adc_filter sample smoothed) × (adc_filter sample smoothed ≤ hi)
unfolding adc_filter
adc_filter_bounds lo hi sample smoothed h a b c d = omega arith

-- The smoothed value after `n` equal samples.
pub settle : ℕ → ℕ → ℕ → ℕ
settle zero sample smoothed = smoothed
settle (suc n) sample smoothed = settle n sample (adc_filter sample smoothed)

filter_closer :
    (sample smoothed n : ℕ)
    → sample ≤ 1023
    → smoothed ≤ 1023
    → sample ≤ smoothed + (suc n + 2)
    → smoothed ≤ sample + (suc n + 2)
    → (adc_filter sample smoothed ≤ 1023)
      × (sample ≤ adc_filter sample smoothed + (n + 2))
      × (adc_filter sample smoothed ≤ sample + (n + 2))
unfolding adc_filter
filter_closer sample smoothed n a b c d = omega arith

settle_within :
    (n sample smoothed : ℕ)
    → sample ≤ 1023
    → smoothed ≤ 1023
    → sample ≤ smoothed + (n + 2)
    → smoothed ≤ sample + (n + 2)
    → (sample ≤ settle n sample smoothed + 2) × (settle n sample smoothed ≤ sample + 2)
unfolding settle
settle_within zero sample smoothed a b c d = omega arith
settle_within (suc n) sample smoothed a b c d =
    let (x, y, z) = filter_closer sample smoothed n a b c d in
    settle_within n sample (adc_filter sample smoothed) a x y z

-- With a steady reading of the 10 bit converter the smoothed value comes within 2 of it, from any
-- value, after as many samples as it was away.
pub settle_lem :
    (sample smoothed n : ℕ)
    → sample ≤ 1023
    → smoothed ≤ 1023
    → sample ≤ smoothed + n
    → smoothed ≤ sample + n
    → (sample ≤ settle n sample smoothed + 2) × (settle n sample smoothed ≤ sample + 2)
settle_lem sample smoothed n a b c d =
    settle_within n sample smoothed a b (omega arith) (omega arith)

-- Four smoothed values of the 10 bit converters.
pub record IsValid (a : Adc) : Type 0 where
  pub size : length a.results ≡ 4
  pub in_range : All (λ x. x ≤ 1023) a.results

-- What the converters give is below 1024.
abbrev pub Is10Bit : AdcHw → Type 0
Is10Bit hw = (c : Converter) (mux : ℕ) (ref : RefSel) → hw.result c mux ref ≤ 1023

InRange-set :
    (xs : List ℕ) (i v : ℕ) → All (λ x. x ≤ 1023) xs → v ≤ 1023 → All (λ x. x ≤ 1023) (set xs i v)
InRange-set [] i v h w = h
InRange-set (x ∷ xs) zero v h w = (w, h.1)
InRange-set (x ∷ xs) (suc i) v h w = (h.0, InRange-set xs i v h.1 w)

InRange-get_or : (xs : List ℕ) (i : ℕ) → All (λ x. x ≤ 1023) xs → get_or xs i 0 ≤ 1023
InRange-get_or [] i h = omega arith
InRange-get_or (x ∷ xs) zero h = h.0
InRange-get_or (x ∷ xs) (suc i) h = InRange-get_or xs i h.1

abbrev FourInRange : List ℕ → Type 0
FourInRange xs = (length xs ≡ 4) × All (λ x. x ≤ 1023) xs

collect_one-FourInRange :
    (hw : AdcHw) (xs : List ℕ) (ch : Channel)
    → Is10Bit hw
    → FourInRange xs
    → FourInRange (collect_one hw xs ch)
unfolding adc_sample
collect_one-FourInRange hw xs ch ten v =
    let m = channels ch in
    let i = channel_index ch in
    let bounds =
      adc_filter_bounds 0 1023 (adc_sample hw m) (get_or xs i 0) (omega arith) (omega arith)
        (ten m.padc m.muxpos m.refsel) (omega arith) (InRange-get_or xs i v.1) in
    (
      length-set xs i (adc_filter (adc_sample hw m) (get_or xs i 0)) ∙ v.0,
      InRange-set xs i (adc_filter (adc_sample hw m) (get_or xs i 0)) v.1 bounds.1,
    )

adc_collect-IsValid : (hw : AdcHw) (a : Adc) → Is10Bit hw → IsValid a → IsValid (adc_collect hw a)
unfolding adc_collect
adc_collect-IsValid hw a ten v =
    let keep =
      λ (ch : Channel) (xs : List ℕ) (h : FourInRange xs). collect_one-FourInRange hw xs ch ten h in
    let all =
      keep mcu_temp _
        (keep ext_temp _ (keep board_temp _ (keep cellv a.results (v.size, v.in_range)))) in
    record { size = all.0; in_range = all.1 }

-- `adc_run` keeps four values in the range of the converters. It samples only when the converters
-- are on and the timeout has expired, and then moves the timeout on by 100 ms; otherwise it changes
-- nothing.
pub adc_run-IsValid :
    (hw : AdcHw) (ticks : ℕ) (a : Adc)
    → Is10Bit hw
    → IsValid a
    → IsValid (adc_run hw ticks a)
      × (let due = a.adc1_enabled && tmr_expired ticks a.adc_timeout in
          (due ≡ true → (adc_run hw ticks a).adc_timeout ≡ u16 (a.adc_timeout + 100))
          × (due ≡ false → adc_run hw ticks a ≡ a))
unfolding adc_run
adc_run-IsValid hw ticks a ten v =
    let t = record a { adc_timeout = u16 (a.adc_timeout + 100) } in
    let sampled = adc_collect-IsValid hw t ten (record { size = v.size; in_range = v.in_range }) in
    elim (Bool-cases (a.adc1_enabled && tmr_expired ticks a.adc_timeout)) [
      | inl due ↦ rw due (sampled, (λ e. refl, λ e. cc))
      | inr not_due ↦ rw not_due (v, (λ e. cc, λ e. refl))
    ]
