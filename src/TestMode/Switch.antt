-- ===== src/TestMode/Switch.antt =====
-- One test function of src/testmode.c after another.
use bmsnode_firmware.Prelude.{
  ℕ, ◌+◌, ◌<◌, ◌≡◌, refl, ap, ◌∙◌, ◌⊎◌, inl, inr, Bool, true, false, List, arith, ltb,
  if◌then◌else◌, Bool-cases, u16,
}
use bmsnode_firmware.Prelude.Int.{to_u16}
use bmsnode_firmware.Shunt.{Shunt}
use bmsnode_firmware.Tmr.{tmr_set}
use bmsnode_firmware.Adc.{AdcHw, board_temp, adc_get_temp_c}
use bmsnode_firmware.Board.{Board}
use bmsnode_firmware.TestMode.{
  tmr_expired, testmode_run, testmode_on, TestMode, TestmodeStatus, testmode_off_status,
  testmode_vref, testmode_io, testmode_shunt, testmode_blink, run_test, is_testmode_off,
  to_testmode, start_test,
}
use bmsnode_firmware.TestMode.Expiry.{IsAllOff, testmode_off-IsAllOff, Runs, begun, ran}

-- The functions that leave the shunt timer alone.
is_apart : TestmodeStatus → Bool
is_apart testmode_vref = true
is_apart testmode_io = true
is_apart testmode_blink = true
is_apart _ = false

-- The shunt is what it was, but for the override of its output.
abbrev Keeps : Shunt → Shunt → Type 0
Keeps s t = t ≡ record s { cmp1ov = t.cmp1ov }

run_test-Keeps :
    (st : TestmodeStatus) (hw : AdcHw) (ticks : ℕ) (t : TestMode) (b : Board)
    → is_apart st ≡ true
    → t.test_state ≡ st
    → let ((u, c), status) = run_test st hw ticks (t, b) in
      Keeps b.shunt c.shunt × (u.test_state ≡ st) × (u.test_seconds ≡ t.test_seconds)
unfolding run_test is_apart
run_test-Keeps testmode_off_status hw ticks t b h e = absurd (ground arith)
run_test-Keeps testmode_vref hw ticks t b h e = (refl, e, refl)
run_test-Keeps testmode_io hw ticks t b h e = (refl, e, refl)
run_test-Keeps testmode_shunt hw ticks t b h e = absurd (ground arith)
run_test-Keeps testmode_blink hw ticks t b h e = ground arith

apart_on : (st : TestmodeStatus) → is_apart st ≡ true → is_testmode_off st ≡ false
unfolding is_apart
apart_on testmode_off_status h = absurd (ground arith)
apart_on testmode_vref h = refl
apart_on testmode_io h = refl
apart_on testmode_shunt h = absurd (ground arith)
apart_on testmode_blink h = refl

testmode_run-Keeps :
    (hw : AdcHw) (ticks : ℕ) (t : TestMode) (b : Board)
    → is_apart t.test_state ≡ true
    → (if tmr_expired ticks t.test_timeout then t.test_seconds + 1 else t.test_seconds) < 60
    → let (u, c) = (testmode_run hw ticks (t, b)).0 in
      Keeps b.shunt c.shunt
      × (u.test_state ≡ t.test_state)
      × (u.test_seconds
          ≡ (if tmr_expired ticks t.test_timeout then t.test_seconds + 1 else t.test_seconds))
unfolding testmode_run
testmode_run-Keeps hw ticks t b h few =
    let on : is_testmode_off t.test_state ≡ false = apart_on t.test_state h in
    elim (Bool-cases (tmr_expired ticks t.test_timeout)) [
      | inl due ↦
          let u = record t { test_seconds = u16 (t.test_seconds + 1) } in
          let v = record u { test_timeout = u16 (u.test_timeout + 1000) } in
          let n : t.test_seconds + 1 < 60 = ground arith in
          let e : u16 (t.test_seconds + 1) ≡ t.test_seconds + 1 = omega arith in
          let more : ltb (u16 (t.test_seconds + 1)) 60 ≡ true = ground arith in
          let (keeps, same, count) = run_test-Keeps t.test_state hw ticks v b h refl in
          rw (on, due, more) (keeps, same, count ∙ e)
      | inr early ↦ rw (on, early) (run_test-Keeps t.test_state hw ticks t b h refl)
    ]

-- A test function that leaves the shunt timer alone, and has counted `count` seconds.
record Apart (shunt : Shunt) (count : ℕ) (s : TestMode × Board) : Type 0 where
  keeps : Keeps shunt s.1.shunt
  apart : is_apart s.0.test_state ≡ true
  counted : s.0.test_seconds ≡ count

Runs-Apart :
    (shunt : Shunt) (s : TestMode × Board) (count : ℕ) (t : TestMode × Board)
    → Apart shunt 0 s
    → Runs s count t
    → count < 60
    → Apart shunt count t
Runs-Apart shunt s count t a begun few = a
Runs-Apart shunt s count t a (ran {t = u} hw ticks r) few =
    let before = Runs-Apart shunt s _ u a r (ground arith) in
    let (keeps, same, seconds) =
      testmode_run-Keeps hw ticks u.0 u.1 before.apart (ground (arith, before.counted)) in
    record {
      keeps =
          keeps
          ∙ ap (λ (x : Shunt). record x { cmp1ov = (testmode_run hw ticks u).0.1.shunt.cmp1ov })
              before.keeps;
      apart = ap is_apart same ∙ before.apart;
      counted = ground (arith, before.counted, seconds);
    }

hot_stops :
    (hw : AdcHw) (ticks : ℕ) (t : TestMode) (b : Board)
    → t.test_state ≡ testmode_shunt
    → 60 < to_u16 (adc_get_temp_c hw b.adc board_temp)
    → IsAllOff (testmode_run hw ticks (t, b)).0
unfolding testmode_run
hot_stops hw ticks t b e hot =
    let on : is_testmode_off t.test_state ≡ false = ap is_testmode_off e in
    let ended =
      λ (x : TestMode). testmode_off-IsAllOff (record x { test_state = testmode_shunt }, b) in
    let u = record t { test_seconds = u16 (t.test_seconds + 1) } in
    let above : ltb 60 (to_u16 (adc_get_temp_c hw b.adc board_temp)) ≡ true = ground arith in
    elim (Bool-cases (tmr_expired ticks t.test_timeout)) [
      | inl due ↦ elim (Bool-cases (ltb (u16 (t.test_seconds + 1)) 60)) [
        | inl more ↦
            rw (on, e, due, more, above)
              (ended (record u { test_timeout = u16 (u.test_timeout + 1000) }))
        | inr over ↦ rw (on, e, due, over) (ended u)
      ]
      | inr early ↦ rw (on, e, early, above) (ended t)
    ]

start-Apart :
    (st : TestmodeStatus) (ticks : ℕ) (parms : List ℕ) (val0 : ℕ) (t : TestMode) (b : Board)
    → is_apart st ≡ true
    → t.test_state ≡ st
    → t.test_seconds ≡ 0
    → Apart b.shunt 0 (start_test st ticks parms val0 (t, b))
unfolding start_test is_apart
start-Apart testmode_off_status ticks parms val0 t b h e z = absurd (ground arith)
start-Apart testmode_vref ticks parms val0 t b h e z = record {
  keeps = refl;
  apart = ap is_apart e;
  counted = z;
}
start-Apart testmode_io ticks parms val0 t b h e z = record {
  keeps = refl;
  apart = ap is_apart e;
  counted = z;
}
start-Apart testmode_shunt ticks parms val0 t b h e z = absurd (ground arith)
start-Apart testmode_blink ticks parms val0 t b h e z = record {
  keeps = refl;
  apart = ap is_apart e;
  counted = z;
}

on-Apart :
    (ticks : ℕ) (parms : List ℕ) (f val0 val1 : ℕ) (t : TestMode) (b : Board)
    → is_apart (to_testmode f) ≡ true
    → Apart b.shunt 0 (testmode_on ticks parms f val0 val1 (t, b))
unfolding testmode_on
on-Apart ticks parms f val0 val1 t b h =
    let u = record t {
      test_seconds = 0;
      test_timeout = tmr_set ticks 1000;
      test_state = to_testmode f;
    } in
    start-Apart (to_testmode f) ticks parms val0 u b h refl refl

-- A shunt test whose board temperature reads as more than 60 degrees is ended by the next call of testmode_run. If another
-- test function is started before that call, for the reference, the external output or the blinking,
-- then the shunt test is over but its shunt stays: in every run at any temperatures in which fewer
-- than 60 seconds are counted, the shunt keeps its status, its PWM and its running timer.
pub switch_unguards :
    (hw : AdcHw) (now ticks : ℕ) (parms : List ℕ) (f val0 val1 : ℕ) (t : TestMode) (b : Board)
    (count : ℕ) (s : TestMode × Board)
    → t.test_state ≡ testmode_shunt
    → 60 < to_u16 (adc_get_temp_c hw b.adc board_temp)
    → (f ≡ 1) ⊎ (f ≡ 2) ⊎ (f ≡ 4)
    → Runs (testmode_on ticks parms f val0 val1 (t, b)) count s
    → count < 60
    → IsAllOff (testmode_run hw now (t, b)).0
      × (s.1.shunt.status ≡ b.shunt.status)
      × (s.1.shunt.pwm ≡ b.shunt.pwm)
      × (s.1.shunt.cmp1 ≡ b.shunt.cmp1)
      × (s.1.shunt.timer_on ≡ b.shunt.timer_on)
unfolding to_testmode is_apart
switch_unguards hw now ticks parms f val0 val1 t b count s e hot other r few =
    let k =
      Runs-Apart b.shunt _ count s
        (on-Apart ticks parms f val0 val1 t b
          (elim other [ inl h ↦ rw h refl | inr (inl h) ↦ rw h refl | inr (inr h) ↦ rw h refl ]))
        r few in
    (
      hot_stops hw now t b e hot,
      ap (λ (x : Shunt). x.status) k.keeps,
      ap (λ (x : Shunt). x.pwm) k.keeps,
      ap (λ (x : Shunt). x.cmp1) k.keeps,
      ap (λ (x : Shunt). x.timer_on) k.keeps,
    )
