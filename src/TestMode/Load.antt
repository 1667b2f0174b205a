-- ===== src/TestMode/Load.antt =====
-- What the test functions of src/testmode.c and the state of src/main.c that runs the shunt account
-- for: the loads of the board are off without them.
use bmsnode_firmware.Prelude.{
  ℕ, ◌+◌, ◌≡◌, refl, inl, inr, Bool, true, false, not, ◌||◌, List, arith, ltb, Bool-cases, u16,
}
use bmsnode_firmware.Shunt.{Shunt, is_off, shunt_start, shunt_stop, shunt_run, shunt_set}
use bmsnode_firmware.Shunt.Safety.{shunt_pass_outputs, shunt_stop-IsSafe}
use bmsnode_firmware.Adc.{AdcHw}
use bmsnode_firmware.Board.{Board}
use bmsnode_firmware.TestMode.{
  tmr_expired, TestMode, TestmodeStatus, testmode_off_status, testmode_vref, testmode_io,
  testmode_shunt, testmode_blink, is_testmode_off, testmode_off, testmode_on, start_test, run_test,
  testmode_run, to_testmode,
}

-- The loads: the shunt is off unless `shunting` or a test function accounts for it, and the compare
-- output and the external output are off unless a test function does.
pub record Accounts (shunting : Bool) (s : TestMode × Board) : Type 0 where
  pub load :
      (is_off s.1.shunt.status ≡ false) → (shunting || not (is_testmode_off s.0.test_state)) ≡ true
  pub forced : s.1.shunt.cmp1ov ≡ true → is_testmode_off s.0.test_state ≡ false
  pub outside : s.1.extio ≡ true → is_testmode_off s.0.test_state ≡ false
  pub driven : s.1.shunt.cmp1 ≡ s.1.shunt.pwm
  pub stopped : is_off s.1.shunt.status ≡ true → (s.1.shunt.pwm ≡ 0) × (s.1.shunt.timer_on ≡ false)

pub testmode_off-Accounts : (w : Bool) (s : TestMode × Board) → Accounts w (testmode_off s)
unfolding testmode_off
testmode_off-Accounts w s = ground (arith, shunt_stop-IsSafe s.1.shunt)

shunt_start-on :
    (ticks : ℕ) (parms : List ℕ) (s : Shunt)
    → (is_off (shunt_start ticks parms s).status ≡ false)
      × ((shunt_start ticks parms s).cmp1ov ≡ false)
unfolding shunt_start
shunt_start-on ticks parms s = (refl, refl)

-- The shunt timer and its compare value, which no test function sets apart.
abbrev pub IsDriven : Shunt → Type 0
IsDriven s = (s.cmp1 ≡ s.pwm) × (is_off s.status ≡ true → (s.pwm ≡ 0) × (s.timer_on ≡ false))

start_test-Accounts :
    (w : Bool) (f : TestmodeStatus) (ticks : ℕ) (parms : List ℕ) (val0 : ℕ) (t : TestMode)
    (b : Board)
    → t.test_state ≡ f
    → IsDriven b.shunt
    → Accounts w (start_test f ticks parms val0 (t, b))
unfolding shunt_set testmode_off
start_test-Accounts w testmode_off_status ticks parms val0 t b e v = testmode_off-Accounts w (t, b)
start_test-Accounts w testmode_vref ticks parms val0 t b e v = ground arith
start_test-Accounts w testmode_io ticks parms val0 t b e v = ground arith
start_test-Accounts w testmode_shunt ticks parms val0 t b e v =
    ground (arith, shunt_start-on ticks parms b.shunt)
start_test-Accounts w testmode_blink ticks parms val0 t b e v = ground arith

pub testmode_on-Accounts :
    (w : Bool) (ticks : ℕ) (parms : List ℕ) (f val0 val1 : ℕ) (s : TestMode × Board)
    → Accounts w s
    → Accounts w (testmode_on ticks parms f val0 val1 s)
unfolding testmode_on
testmode_on-Accounts w ticks parms f val0 val1 (t, b) v =
    start_test-Accounts w (to_testmode f) ticks parms val0 _ b refl (v.driven, v.stopped)

-- A test function that goes on is not off; one that ends accounts for nothing.
pub record Tested (w : Bool) (out : (TestMode × Board) × TestmodeStatus) : Type 0 where
  pub holds : Accounts w out.0
  pub ended : is_testmode_off out.1 ≡ true → Accounts false out.0

run_test-Tested :
    (w : Bool) (f : TestmodeStatus) (hw : AdcHw) (ticks : ℕ) (t : TestMode) (b : Board)
    → t.test_state ≡ f
    → is_testmode_off f ≡ false
    → Accounts w (t, b)
    → Tested w (run_test f hw ticks (t, b))
unfolding testmode_off
run_test-Tested w testmode_off_status hw ticks t b e h v = absurd (ground arith)
run_test-Tested w testmode_vref hw ticks t b e h v = record {
  holds = v;
  ended = λ o. absurd (ground arith);
}
run_test-Tested w testmode_io hw ticks t b e h v = record {
  holds = v;
  ended = λ o. absurd (ground arith);
}
run_test-Tested w testmode_shunt hw ticks t b e h v = ground (
  arith,
  testmode_off-Accounts w (t, b),
  testmode_off-Accounts false (t, b),
  v.driven,
  v.stopped,
  v.load,
)
run_test-Tested w testmode_blink hw ticks t b e h v = ground (arith, v.driven, v.stopped, v.load)

-- The counters of test mode play no part.
Accounts-recount :
    (w : Bool) (t : TestMode) (b : Board) (seconds timeout : ℕ)
    → Accounts w (t, b)
    → Accounts w (record t { test_seconds = seconds; test_timeout = timeout }, b)
Accounts-recount w t b seconds timeout v = record {
  load = v.load;
  forced = v.forced;
  outside = v.outside;
  driven = v.driven;
  stopped = v.stopped;
}

pub testmode_run-Tested :
    (w : Bool) (hw : AdcHw) (ticks : ℕ) (s : TestMode × Board)
    → Accounts w s
    → Tested w (testmode_run hw ticks s)
unfolding testmode_run
testmode_run-Tested w hw ticks (t, b) v =
    let stops : (u : TestMode × Board) → Tested w (testmode_off u, testmode_off_status) = λ u.
      record { holds = testmode_off-Accounts w u; ended = λ _. testmode_off-Accounts false u } in
    elim (Bool-cases (is_testmode_off t.test_state)) [
      | inl off ↦ rw off (stops (t, b))
      | inr on ↦ elim (Bool-cases (tmr_expired ticks t.test_timeout)) [
        | inl due ↦
            let n = u16 (t.test_seconds + 1) in
            elim (Bool-cases (ltb n 60)) [
              | inl more ↦
                  rw (on, due, more)
                    (run_test-Tested w t.test_state hw ticks _ b refl on
                      (Accounts-recount w t b n (u16 (t.test_timeout + 1000)) v))
              | inr over ↦ rw (on, due, over) (stops (record t { test_seconds = n }, b))
            ]
        | inr early ↦ rw (on, early) (run_test-Tested w t.test_state hw ticks t b refl on v)
      ]
    ]

pub shunt_start-Accounts :
    (w : Bool) (ticks : ℕ) (parms : List ℕ) (t : TestMode) (b : Board)
    → Accounts w (t, b)
    → Accounts true (t, record b { shunt = shunt_start ticks parms b.shunt })
unfolding shunt_start
shunt_start-Accounts w ticks parms t b v = ground (arith, v.outside)

pub shunt_stop-Accounts :
    (w : Bool) (t : TestMode) (b : Board)
    → Accounts w (t, b)
    → Accounts false (t, record b { shunt = shunt_stop b.shunt })
unfolding shunt_stop
shunt_stop-Accounts w t b v = ground (arith, v.outside)

pub shunt_run-Accounts :
    (ticks : ℕ) (parms : List ℕ) (cellmv tempc : ℕ) (t : TestMode) (b : Board)
    → Accounts true (t, b)
    → let (s, status) = shunt_run ticks parms cellmv tempc b.shunt in
      Accounts (not (is_off status)) (t, record b { shunt = s })
unfolding shunt_run
shunt_run-Accounts ticks parms cellmv tempc t b v = ground (
  arith,
  shunt_pass_outputs ticks parms cellmv tempc b.shunt,
  shunt_stop-Accounts true t b v,
  v.stopped,
  v.outside,
  v.forced,
  v.driven,
)
