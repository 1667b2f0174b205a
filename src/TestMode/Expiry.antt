-- ===== src/TestMode/Expiry.antt =====
-- The end of a test function of src/testmode.c.
use bmsnode_firmware.Prelude.{
  ℕ, ◌+◌, ◌≤◌, ◌<◌, ◌≡◌, refl, ap, ◌∙◌, ◌≢◌, ◌⊎◌, inl, inr, true, false, arith, ltb, if◌then◌else◌,
  Bool-cases, u16,
}
use bmsnode_firmware.Adc.{AdcHw}
use bmsnode_firmware.Shunt.{shunt_off}
use bmsnode_firmware.Board.{Board}
use bmsnode_firmware.TestMode.{
  tmr_expired, testmode_run, TestMode, TestmodeStatus, testmode_off_status, testmode_vref,
  testmode_io, testmode_shunt, testmode_blink, testmode_off, run_test, is_testmode_off,
}

-- Test mode is off, and so is every output that it drives but for the reference.
pub record IsAllOff (s : TestMode × Board) : Type 0 where
  pub off : s.0.test_state ≡ testmode_off_status
  pub extio : s.1.extio ≡ false
  pub stopped : s.1.shunt.status ≡ shunt_off
  pub no_pwm : s.1.shunt.pwm ≡ 0
  pub no_timer : s.1.shunt.timer_on ≡ false
  pub no_shunt : s.1.shunt.cmp1ov ≡ false
  pub no_green : s.1.leds.green.pin ≡ false
  pub no_blue : s.1.leds.blue.pin ≡ false

-- Switching test mode off switches off every output that it drives but for the reference.
pub testmode_off-IsAllOff : (s : TestMode × Board) → IsAllOff (testmode_off s)
unfolding testmode_off
testmode_off-IsAllOff (t, b) = ground arith

-- What follows the counting of seconds keeps the count.
record Goes (t : TestMode) (out : (TestMode × Board) × TestmodeStatus) : Type 0 where
  seconds : out.0.0.test_seconds ≡ t.test_seconds
  status : out.1 ≡ out.0.0.test_state
  ended : out.1 ≡ testmode_off_status → IsAllOff out.0

run_test-Goes :
    (st : TestmodeStatus) (hw : AdcHw) (ticks : ℕ) (t : TestMode) (b : Board)
    → t.test_state ≡ st
    → is_testmode_off st ≡ false
    → Goes t (run_test st hw ticks (t, b))
unfolding run_test
run_test-Goes testmode_off_status hw ticks t b e h = absurd (ground arith)
run_test-Goes testmode_vref hw ticks t b e h = ground arith
run_test-Goes testmode_io hw ticks t b e h = ground arith
run_test-Goes testmode_shunt hw ticks t b e h = ground (arith, testmode_off-IsAllOff (t, b))
run_test-Goes testmode_blink hw ticks t b e h = ground arith

run_outcome :
    (t : TestMode) (out : (TestMode × Board) × TestmodeStatus)
    → Goes t out
    → t.test_seconds < 60
    → (out.1 ≡ out.0.0.test_state)
      × (IsAllOff out.0
          ⊎ ((out.0.0.test_state ≢ testmode_off_status)
              × (out.0.0.test_seconds ≡ t.test_seconds)
              × (out.0.0.test_seconds < 60)))
run_outcome t out g h = elim (Bool-cases (is_testmode_off out.1)) [
  | inl off ↦ (g.status, inl (g.ended (ground arith)))
  | inr on ↦ (g.status, inr (ground (arith, g.status), g.seconds, omega (arith, g.seconds)))
]

-- One run: off, or on with the seconds counted and fewer than a minute.
pub testmode_run_lem :
    (hw : AdcHw) (ticks : ℕ) (t : TestMode) (b : Board)
    → t.test_seconds < 60
    → let ((u, c), status) = testmode_run hw ticks (t, b) in
      (status ≡ u.test_state)
      × (IsAllOff (u, c)
          ⊎ ((u.test_state ≢ testmode_off_status)
              × (u.test_seconds ≡ (
                  if tmr_expired ticks t.test_timeout then t.test_seconds + 1 else t.test_seconds))
              × (u.test_seconds < 60)))
unfolding testmode_run
testmode_run_lem hw ticks t b h = elim (Bool-cases (is_testmode_off t.test_state)) [
  | inl off ↦ rw off (refl, inl (testmode_off-IsAllOff (t, b)))
  | inr on ↦ elim (Bool-cases (tmr_expired ticks t.test_timeout)) [
    | inl due ↦
        let u = record t { test_seconds = u16 (t.test_seconds + 1) } in
        let v = record u { test_timeout = u16 (u.test_timeout + 1000) } in
        let e : u16 (t.test_seconds + 1) ≡ t.test_seconds + 1 = omega arith in
        elim (Bool-cases (ltb (u16 (t.test_seconds + 1)) 60)) [
          | inl more ↦
              let out = run_test t.test_state hw ticks (v, b) in
              let (st, c) =
                run_outcome v out (run_test-Goes t.test_state hw ticks v b refl on)
                  (ground arith) in
              rw (on, due, more)
                (st, elim c [ inl ended ↦ inl ended | inr (go, n, few) ↦ inr (go, n ∙ e, few) ])
          | inr over ↦ rw (on, due, over) (refl, inl (testmode_off-IsAllOff (u, b)))
        ]
    | inr early ↦
        rw (on, early) (run_outcome t _ (run_test-Goes t.test_state hw ticks t b refl on) h)
  ]
]

off_stays :
    (hw : AdcHw) (ticks : ℕ) (s : TestMode × Board)
    → IsAllOff s
    → IsAllOff (testmode_run hw ticks s).0
unfolding testmode_run
off_stays hw ticks s o =
    let e : is_testmode_off s.0.test_state ≡ true = ap is_testmode_off o.off in
    rw e (testmode_off-IsAllOff s)

-- Runs of test mode, at any ticks and temperatures: `count` of them saw the second expired.
pub data Runs (s : TestMode × Board) : ℕ → TestMode × Board → Type 0 where
  begun : Runs s 0 s
  ran :
      {count : ℕ} {t : TestMode × Board} (hw : AdcHw) (ticks : ℕ)
      → Runs s count t
      → Runs s
          (if tmr_expired ticks t.0.test_timeout then count + 1 else count)
          (testmode_run hw ticks t).0

timed :
    (s : TestMode × Board) (count : ℕ) (t : TestMode × Board)
    → s.0.test_seconds ≡ 0
    → Runs s count t
    → IsAllOff t ⊎ ((t.0.test_seconds ≡ count) × (count < 60))
timed s count t z begun = inr (z, omega arith)
timed s count t z (ran {t = u} hw ticks r) = elim (timed s _ u z r) [
  | inl off ↦ inl (off_stays hw ticks u off)
  | inr (n, few) ↦
      let step = testmode_run_lem hw ticks u.0 u.1 (omega arith) in ground (arith, step.1)
]

run_test_reference :
    (st : TestmodeStatus) (hw : AdcHw) (ticks : ℕ) (t : TestMode) (b : Board)
    → (run_test st hw ticks (t, b)).0.1.adc.refon ≡ b.adc.refon
unfolding run_test testmode_off
run_test_reference st hw ticks t b = ground arith

testmode_run_reference :
    (hw : AdcHw) (ticks : ℕ) (t : TestMode) (b : Board)
    → (testmode_run hw ticks (t, b)).0.1.adc.refon ≡ b.adc.refon
unfolding testmode_run testmode_off
testmode_run_reference hw ticks t b =
    let u = record t {
      test_seconds = u16 (t.test_seconds + 1);
      test_timeout = u16 (t.test_timeout + 1000);
    } in
    ground (
      arith,
      run_test_reference t.test_state hw ticks t b,
      run_test_reference t.test_state hw ticks u b,
    )

reference :
    (s : TestMode × Board) (count : ℕ) (t : TestMode × Board)
    → Runs s count t
    → t.1.adc.refon ≡ s.1.adc.refon
reference s count t begun = refl
reference s count t (ran {t = u} hw ticks r) =
    testmode_run_reference hw ticks u.0 u.1 ∙ reference s _ u r

-- A test function that was started is off after its second has been seen expired 60 times, and so
-- is every output that test functions drive, but for the reference, which stays as it was.
pub testmode_ends :
    (s : TestMode × Board) (count : ℕ) (t : TestMode × Board)
    → s.0.test_seconds ≡ 0
    → Runs s count t
    → 60 ≤ count
    → IsAllOff t × (t.1.adc.refon ≡ s.1.adc.refon)
testmode_ends s count t z r h = elim (timed s count t z r) [
  | inl off ↦ (off, reference s count t r)
  | inr (n, few) ↦ absurd (omega arith)
]
