-- ===== src/Shunt/Settle.antt =====
-- The regulation of src/shunt.c under a steady voltage and temperature reaches the level that they
-- ask for, and stays there.
use bmsnode_firmware.Prelude.{
  ℕ, ◌+◌, ◌-◌, ◌≤◌, ◌<◌, ◌≡◌, refl, sym, ap, ap₂, ◌∙◌, ◌≢◌, inl, inr, false, List, arith,
  if◌then◌else◌, Bool-cases,
}
use bmsnode_firmware.Tmr.{tmr_expired}
use bmsnode_firmware.Shunt.{
  ShuntStatus, shunt_off, Shunt, volt_level, temp_limit, adjust, shunt_get_status, shunt_pass,
  shunt_run, is_off,
}
use bmsnode_firmware.Shunt.Safety.{asked_level, level_is_byte, level_not_off, pass_cases}

still_on : (st : ShuntStatus) → st ≢ shunt_off → is_off st ≡ false
still_on st h = ground arith

module _ (parms : List ℕ) (cellmv tempc : ℕ) where
  -- Runs and questions for the status at any ticks, none of the runs after the idle timeout: `n` of
  -- the runs saw the loop timeout expired.
  pub data Regulates (s : Shunt) : ℕ → Shunt → Type 0 where
    begun : Regulates s 0 s
    asked :
        {n : ℕ} {t : Shunt} (ticks : ℕ)
        → Regulates s n t
        → Regulates s n (shunt_get_status ticks t).0
    ran :
        {n : ℕ} {t : Shunt} (ticks : ℕ)
        → tmr_expired ticks t.shunt_timeout ≡ false
        → Regulates s n t
        → Regulates s
            (if tmr_expired ticks t.loop_timeout then n + 1 else n)
            (shunt_run ticks parms cellmv tempc t).0

  abbrev pub target : Shunt → ℕ
  target s = (asked_level parms cellmv tempc s).0

  -- What the way to the target keeps; `d` bounds the distance at the start.
  record Nears (s : Shunt) (d n : ℕ) (t : Shunt) : Type 0 where
    on : is_off t.status ≡ false
    ranges : (t.vrange ≡ s.vrange) × (t.trange ≡ s.trange)
    byte : t.pwm < 256
    above : t.pwm ≤ target s + (d - n)
    below : target s ≤ t.pwm + (d - n)
    driven : t.cmp1 ≡ t.pwm

  pass_ranges :
      (ticks : ℕ) (s : Shunt)
      → let t = shunt_pass ticks parms cellmv tempc s in
        (t.vrange ≡ s.vrange) × (t.trange ≡ s.trange)
  unfolding shunt_pass
  pass_ranges ticks s = ground arith

  same_target : (s t : Shunt) → t.vrange ≡ s.vrange → t.trange ≡ s.trange → target t ≡ target s
  same_target s t v r = ap₂ (λ a b. (temp_limit parms b tempc (volt_level parms a cellmv)).0) v r

  nearer :
      (level pwm e : ℕ)
      → level < 256
      → pwm < 256
      → pwm ≤ level + e
      → level ≤ pwm + e
      → (adjust level pwm < 256)
        × (adjust level pwm ≤ level + (e - 1))
        × (level ≤ adjust level pwm + (e - 1))
  nearer level pwm e a b c d = ground arith

  pass-Nears :
      (s : Shunt) (d n ticks : ℕ) (t : Shunt)
      → tmr_expired ticks t.shunt_timeout ≡ false
      → Nears s d n t
      → Nears s d (n + 1) (shunt_pass ticks parms cellmv tempc t)
  pass-Nears s d n ticks t early v =
      let (st, pwm, cmp, timer) = rw early at (pass_cases ticks parms cellmv tempc t) in
      let same = same_target s t v.ranges.0 v.ranges.1 in
      let (byte, up, down) =
        nearer (target t) t.pwm (d - n) (level_is_byte parms t.vrange t.trange cellmv tempc) v.byte
          (omega (arith, same, v.above)) (omega (arith, same, v.below)) in
      let (vr, tr) = pass_ranges ticks t in
      let not_off = level_not_off parms t.vrange t.trange cellmv tempc in
      record {
        on = ap is_off st ∙ still_on (asked_level parms cellmv tempc t).1 not_off;
        ranges = (vr ∙ v.ranges.0, tr ∙ v.ranges.1);
        byte = omega (arith, pwm, byte);
        above = omega (arith, pwm, up, same);
        below = omega (arith, pwm, down, same);
        driven = cmp ∙ sym pwm;
      }

  run-Nears :
      (s : Shunt) (d n ticks : ℕ) (t : Shunt)
      → tmr_expired ticks t.shunt_timeout ≡ false
      → Nears s d n t
      → Nears s d
          (if tmr_expired ticks t.loop_timeout then n + 1 else n)
          (shunt_run ticks parms cellmv tempc t).0
  unfolding shunt_run
  run-Nears s d n ticks t early v = elim (Bool-cases (tmr_expired ticks t.loop_timeout)) [
    | inl due ↦ let on = v.on in rw (on, due) (pass-Nears s d n ticks t early v)
    | inr waits ↦ let on = v.on in rw (on, waits) v
  ]

  way-Nears : (s : Shunt) (d n : ℕ) (t : Shunt) → Nears s d 0 s → Regulates s n t → Nears s d n t
  unfolding shunt_get_status
  way-Nears s d n t v begun = v
  way-Nears s d n t v (asked {t = u} ticks r) =
      let w = way-Nears s d n u v r in
      record {
        on = w.on;
        ranges = w.ranges;
        byte = w.byte;
        above = w.above;
        below = w.below;
        driven = w.driven;
      }
  way-Nears s d n t v (ran {n = k} {t = u} ticks early r) =
      run-Nears s d k ticks u early (way-Nears s d k u v r)

  -- Under a steady voltage and temperature, a shunt that is on and whose idle timeout does not
  -- expire has the level that they ask for in its compare register after as many due runs as the
  -- level was away from it, and after more; and it is still on.
  pub shunt_settles :
      (s : Shunt) (n : ℕ) (t : Shunt)
      → is_off s.status ≡ false
      → s.pwm < 256
      → s.cmp1 ≡ s.pwm
      → Regulates s n t
      → target s ≤ s.pwm + n
      → s.pwm ≤ target s + n
      → (t.pwm ≡ target s) × (t.cmp1 ≡ target s) × (is_off t.status ≡ false)
  shunt_settles s n t on byte driven r up down =
      let v : Nears s n 0 s = record {
        on = on;
        ranges = (refl, refl);
        byte = byte;
        above = omega arith;
        below = omega arith;
        driven = driven;
      } in
      let w = way-Nears s n n t v r in
      let e : t.pwm ≡ target s = omega (arith, w.above, w.below) in (e, w.driven ∙ e, w.on)
