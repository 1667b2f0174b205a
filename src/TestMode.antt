-- ===== src/TestMode.antt =====
-- The test functions of src/testmode.c and src/testmode.h, which drive the outputs of the board
-- past their own modules for at most a minute.
pub mod Expiry
pub mod Load
pub mod Switch
use bmsnode_firmware.Prelude.{
  ℕ, ◌+◌, ◌%◌, Bool, true, false, List, ltb, ◌==◌, if◌then◌else◌, u8, u16,
}
use bmsnode_firmware.Prelude.Int.{to_u16}
use bmsnode_firmware.Tmr.{tmr_set, tmr_expired}
use bmsnode_firmware.Shunt.{shunt_set, shunt_start, shunt_stop}
use bmsnode_firmware.Led.{pin_set, pin_clear}
use bmsnode_firmware.Adc.{AdcHw, board_temp, adc_get_temp_c}
use bmsnode_firmware.Board.{Board}

pub data TestmodeStatus : Type 0 where
  testmode_off_status testmode_vref testmode_io testmode_shunt testmode_blink : TestmodeStatus

-- The statics of testmode.c.
pub record TestMode : Type 0 where
  pub test_seconds : ℕ
  pub test_timeout : ℕ
  pub test_state : TestmodeStatus
  pub blink_seq : ℕ
  pub blink_timeout : ℕ

-- A byte as a test function. The `default` case treats the bytes that name none like
-- `TESTMODE_OFF`, and leaves that as the state.
unfoldable pub to_testmode : ℕ → TestmodeStatus
to_testmode b =
    if b == 1
    then testmode_vref
    else if b == 2
    then testmode_io
    else if b == 3
    then testmode_shunt
    else if b == 4
    then testmode_blink
    else testmode_off_status

-- Writes to CMP1OV of TCA0.SINGLE.CTRLC.
abbrev pub shunt_output : Bool → Board → Board
shunt_output on b = record b { shunt = record b.shunt { cmp1ov = on } }

abbrev pub green_on : Board → Board
green_on b = record b { leds = record b.leds { green = pin_set b.leds.green } }

abbrev pub green_off : Board → Board
green_off b = record b { leds = record b.leds { green = pin_clear b.leds.green } }

abbrev pub blue_on : Board → Board
blue_on b = record b { leds = record b.leds { blue = pin_set b.leds.blue } }

abbrev pub blue_off : Board → Board
blue_off b = record b { leds = record b.leds { blue = pin_clear b.leds.blue } }

-- The three outputs that blink.
abbrev pub outputs_off : Board → Board
outputs_off b = blue_off (green_off (shunt_output false b))

unfoldable pub testmode_off : TestMode × Board → TestMode × Board
unfolding shunt_stop
testmode_off (t, b) =
    let c = record b { extio = false; shunt = shunt_stop b.shunt } in
    (record t { test_state = testmode_off_status }, outputs_off c)

-- The `switch` of `testmode_on`.
abbrev pub start_test : TestmodeStatus → ℕ → List ℕ → ℕ → TestMode × Board → TestMode × Board
unfolding testmode_off
start_test testmode_off_status ticks parms val0 s = testmode_off s
start_test testmode_vref ticks parms val0 (t, b) =
    (t, record b { adc = record b.adc { refon = true } })
start_test testmode_io ticks parms val0 (t, b) = (t, record b { extio = true })
start_test testmode_shunt ticks parms val0 (t, b) =
    (t, record b { shunt = shunt_set (shunt_start ticks parms b.shunt) val0 })
start_test testmode_blink ticks parms val0 (t, b) =
    (record t { blink_seq = 3; blink_timeout = tmr_set ticks 750 }, b)

-- `val1` is not used.
unfoldable pub testmode_on : ℕ → List ℕ → ℕ → ℕ → ℕ → TestMode × Board → TestMode × Board
unfolding start_test to_testmode
testmode_on ticks parms testfunc val0 val1 (t, b) =
    start_test (to_testmode testfunc) ticks parms val0 (
      record t {
        test_seconds = 0;
        test_timeout = tmr_set ticks 1000;
        test_state = to_testmode testfunc;
      },
      b,
    )

-- The blink actions: the sequence position that is reached, and what it does.
abbrev pub blink_action : ℕ → TestMode × Board → TestMode × Board
blink_action seq (t, b) =
    if seq == 0
    then (record t { blink_timeout = u16 (t.blink_timeout + 50) }, shunt_output true b)
    else if seq == 1
    then (record t { blink_timeout = u16 (t.blink_timeout + 100) }, green_on b)
    else if seq == 2
    then (record t { blink_timeout = u16 (t.blink_timeout + 100) }, blue_on b)
    else if seq == 3
    then (record t { blink_timeout = u16 (t.blink_timeout + 750) }, b)
    else (t, b)

abbrev pub blink : ℕ → TestMode × Board → TestMode × Board
blink ticks (t, b) =
    if tmr_expired ticks t.blink_timeout
    then (let seq = u8 (t.blink_seq + 1) % 4 in
        blink_action seq (record t { blink_seq = seq }, outputs_off b))
    else (t, b)

-- What the test function does after the seconds are counted. The temperature is read into an
-- unsigned variable.
abbrev pub run_test :
    TestmodeStatus → AdcHw → ℕ → TestMode × Board → (TestMode × Board) × TestmodeStatus
unfolding testmode_off
run_test testmode_blink hw ticks s = (blink ticks s, testmode_blink)
run_test testmode_shunt hw ticks (t, b) =
    if ltb 60 (to_u16 (adc_get_temp_c hw b.adc board_temp))
    then (testmode_off (t, b), testmode_off_status)
    else ((t, b), testmode_shunt)
run_test status hw ticks s = (s, status)

abbrev pub is_testmode_off : TestmodeStatus → Bool
is_testmode_off testmode_off_status = true
is_testmode_off _ = false

unfoldable pub testmode_run : AdcHw → ℕ → TestMode × Board → (TestMode × Board) × TestmodeStatus
unfolding run_test
testmode_run hw ticks (t, b) =
    if is_testmode_off t.test_state
    then (testmode_off (t, b), testmode_off_status)
    else if tmr_expired ticks t.test_timeout
    then (let u = record t { test_seconds = u16 (t.test_seconds + 1) } in
        if ltb u.test_seconds 60
        then run_test t.test_state hw ticks
            (record u { test_timeout = u16 (u.test_timeout + 1000) }, b)
        else (testmode_off (u, b), testmode_off_status))
    else run_test t.test_state hw ticks (t, b)
