-- ===== src/Shunt/Safety.antt =====
-- What src/shunt.c never does, whatever voltage, temperature and configuration it is given.
use bmsnode_firmware.Prelude.{
  ℕ, ◌+◌, ◌≤◌, ◌<◌, ◌≡◌, refl, sym, ◌∙◌, ◌≢◌, ◌⊎◌, inl, inr, true, false, List, arith,
  if◌then◌else◌, Bool-cases,
}
use bmsnode_firmware.Tmr.{tmr_expired}
use bmsnode_firmware.Shunt.{
  ShuntStatus, shunt_off, Shunt, volt_level, temp_limit, adjust, shunt_start, shunt_stop,
  shunt_pass, shunt_run, is_off,
}

-- The level is a byte and stands in the compare register; when the status is off it is 0 and the
-- timer is stopped.
pub record IsSafe (s : Shunt) : Type 0 where
  pub byte : s.pwm < 256
  pub driven : s.cmp1 ≡ s.pwm
  pub stopped : s.status ≡ shunt_off → (s.pwm ≡ 0) × (s.timer_on ≡ false)

pub shunt_start-IsSafe :
    (ticks : ℕ) (parms : List ℕ) (s : Shunt) → IsSafe (shunt_start ticks parms s)
unfolding shunt_start
shunt_start-IsSafe ticks parms s = ground arith

pub shunt_stop-IsSafe : (s : Shunt) → IsSafe (shunt_stop s) × ((shunt_stop s).status ≡ shunt_off)
unfolding shunt_stop
shunt_stop-IsSafe s = (ground arith, refl)

-- One count at most, in either direction, and never round the ends of the byte.
adjust_step :
    (level pwm : ℕ)
    → level < 256
    → pwm < 256
    → (adjust level pwm ≤ pwm + 1)
      × (pwm ≤ adjust level pwm + 1)
      × (adjust level pwm < 256)
      × ((level ≤ pwm → adjust level pwm ≤ pwm) × (pwm ≤ level → pwm ≤ adjust level pwm))
adjust_step level pwm h k = ground arith

pub level_is_byte :
    (parms : List ℕ) (vrange trange cellmv tempc : ℕ)
    → (temp_limit parms trange tempc (volt_level parms vrange cellmv)).0 < 256
unfolding temp_limit volt_level
level_is_byte parms vrange trange cellmv tempc = ground arith

is_off→shunt_off : (st : ShuntStatus) → is_off st ≡ true → st ≡ shunt_off
is_off→shunt_off st h = ground arith

-- A pass keeps the status off or changes it to one of the others that go with it.
pub level_not_off :
    (parms : List ℕ) (vrange trange cellmv tempc : ℕ)
    → (temp_limit parms trange tempc (volt_level parms vrange cellmv)).1 ≢ shunt_off
unfolding temp_limit volt_level
level_not_off parms vrange trange cellmv tempc = ground arith

abbrev pub asked_level : List ℕ → ℕ → ℕ → Shunt → ℕ × ShuntStatus
asked_level parms cellmv tempc s =
    temp_limit parms s.trange tempc (volt_level parms s.vrange cellmv)

pub pass_cases :
    (ticks : ℕ) (parms : List ℕ) (cellmv tempc : ℕ) (s : Shunt)
    → let t = shunt_pass ticks parms cellmv tempc s in
      let next = adjust (asked_level parms cellmv tempc s).0 s.pwm in
      if tmr_expired ticks s.shunt_timeout
      then (t.status ≡ shunt_off) × (t.pwm ≡ 0) × (t.cmp1 ≡ 0) × (t.timer_on ≡ false)
      else (t.status ≡ (asked_level parms cellmv tempc s).1)
        × (t.pwm ≡ next)
        × (t.cmp1 ≡ next)
        × (t.timer_on ≡ s.timer_on)
unfolding shunt_pass
pass_cases ticks parms cellmv tempc s = elim (Bool-cases (tmr_expired ticks s.shunt_timeout)) [
  | inl late ↦ rw late (refl, refl, refl, refl)
  | inr early ↦ rw early (refl, refl, refl, refl)
]

pass_cmp1ov :
    (ticks : ℕ) (parms : List ℕ) (cellmv tempc : ℕ) (s : Shunt)
    → (shunt_pass ticks parms cellmv tempc s).cmp1ov
      ≡ (if tmr_expired ticks s.shunt_timeout then false else s.cmp1ov)
unfolding shunt_pass
pass_cmp1ov ticks parms cellmv tempc s = elim (Bool-cases (tmr_expired ticks s.shunt_timeout)) [
  | inl late ↦ rw late refl
  | inr early ↦ rw early refl
]

-- The compare register follows the level, an output that is off has none, and the output bit is
-- not set here.
pub shunt_pass_outputs :
    (ticks : ℕ) (parms : List ℕ) (cellmv tempc : ℕ) (s : Shunt)
    → let t = shunt_pass ticks parms cellmv tempc s in
      (t.cmp1 ≡ t.pwm)
      × (is_off t.status ≡ true → (t.pwm ≡ 0) × (t.timer_on ≡ false))
      × (t.cmp1ov ≡ true → s.cmp1ov ≡ true)
shunt_pass_outputs ticks parms cellmv tempc s =
    let c = pass_cases ticks parms cellmv tempc s in
    let o = pass_cmp1ov ticks parms cellmv tempc s in
    let n = level_not_off parms s.vrange s.trange cellmv tempc in
    elim (Bool-cases (tmr_expired ticks s.shunt_timeout)) [
      | inl late ↦
          let (st, p, d, off) = rw late at c in
          let cleared = rw late at o in (d ∙ sym p, λ _. (p, off), λ h. absurd (ground arith))
      | inr early ↦
          let (st, p, d, off) = rw early at c in
          let kept = rw early at o in
          (d ∙ sym p, λ h. absurd (n (sym st ∙ is_off→shunt_off _ h)), λ h. sym kept ∙ h)
    ]

pass-IsSafe :
    (ticks : ℕ) (parms : List ℕ) (cellmv tempc : ℕ) (s : Shunt)
    → IsSafe s
    → IsSafe (shunt_pass ticks parms cellmv tempc s)
pass-IsSafe ticks parms cellmv tempc s v =
    let c = pass_cases ticks parms cellmv tempc s in
    let a =
      adjust_step (asked_level parms cellmv tempc s).0 s.pwm
        (level_is_byte parms s.vrange s.trange cellmv tempc) v.byte in
    let n = level_not_off parms s.vrange s.trange cellmv tempc in
    elim (Bool-cases (tmr_expired ticks s.shunt_timeout)) [
      | inl late ↦ let (st, p, d, o) = rw late at c in ground arith
      | inr early ↦
          let (st, p, d, o) = rw early at c in
          record { byte = omega arith; driven = d ∙ sym p; stopped = λ e. absurd (n (sym st ∙ e)) }
    ]

-- Every pass keeps the level a byte that stands in the compare register, and the output off when
-- the status is off.
pub shunt_run-IsSafe :
    (ticks : ℕ) (parms : List ℕ) (cellmv tempc : ℕ) (s : Shunt)
    → IsSafe s
    → IsSafe (shunt_run ticks parms cellmv tempc s).0
unfolding shunt_run
shunt_run-IsSafe ticks parms cellmv tempc s v =
    ground (arith, shunt_stop-IsSafe s, pass-IsSafe ticks parms cellmv tempc s v)

-- The change of a level, as one run may make it.
abbrev pub IsSlew : ℕ → ℕ → ShuntStatus → Type 0
IsSlew old next status = (next ≤ old + 1) × ((old ≤ next + 1) ⊎ ((status ≡ shunt_off) × (next ≡ 0)))

-- If the status has not been asked for until the idle timeout expires, the next pass switches the
-- shunt off.
pub shunt_run_idle_off :
    (ticks : ℕ) (parms : List ℕ) (cellmv tempc : ℕ) (s : Shunt)
    → tmr_expired ticks s.loop_timeout ≡ true
    → tmr_expired ticks s.shunt_timeout ≡ true
    → let (t, status) = shunt_run ticks parms cellmv tempc s in
      (status ≡ shunt_off) × (t.pwm ≡ 0) × (t.timer_on ≡ false)
unfolding shunt_run
shunt_run_idle_off ticks parms cellmv tempc s due late =
    let c = rw late at (pass_cases ticks parms cellmv tempc s) in
    ground (arith, shunt_stop-IsSafe s)
