-- ===== src/Cmd/Show.antt =====
-- The blue LED and the readings of the converters under the command processor of src/cmd.c: only a
-- run of a test function sets the pin of the LED, and nothing changes its mode, its times or the
-- readings.
use bmsnode_firmware.Prelude.{
  ℕ, ◌+◌, ◌≡◌, refl, ◌∙◌, inl, inr, true, false, List, arith, ◌==◌, Bool-cases, u16, get_or,
}
use bmsnode_firmware.Pkt.{PktPtr, null, rxbuf_ptr, pkt_ready}
use bmsnode_firmware.Cfg.{Eeprom}
use bmsnode_firmware.Adc.{AdcHw}
use bmsnode_firmware.Board.{Board}
use bmsnode_firmware.TestMode.{
  TestMode, TestmodeStatus, testmode_off, testmode_on, testmode_run, run_test, start_test,
  to_testmode,
}
use bmsnode_firmware.Node.{Node, Env}
use bmsnode_firmware.Cmd.{
  cmd_dfu, cmd_addr, run_testmode, has_key, run_command, own_command, cmd_ack, cmd_uid, cmd_adcraw,
  cmd_status, cmd_setparm, cmd_getparm, cmd_testmode, watch_packet, process_packet, cmd_process,
}
use bmsnode_firmware.Cmd.Code.{pkt_cmd, pkt_len, pkt_payload, ticks_of}

-- The same mode and the same times of the blue LED, and the same readings.
pub record SameShow (b c : Board) : Type 0 where
  pub mode : c.leds.blue.mode ≡ b.leds.blue.mode
  pub ton : c.leds.blue.ton ≡ b.leds.blue.ton
  pub toff : c.leds.blue.toff ≡ b.leds.blue.toff
  pub readings : c.adc.results ≡ b.adc.results

-- The blue LED is lit only if it was.
abbrev pub IsNoBrighter : Board → Board → Type 0
IsNoBrighter b c = c.leds.blue.pin ≡ true → b.leds.blue.pin ≡ true

pub record Untouched (b c : Board) : Type 0 where
  pub show : SameShow b c
  pub lit : IsNoBrighter b c

pub Untouched-trans : (b c d : Board) → Untouched b c → Untouched c d → Untouched b d
Untouched-trans b c d x y = record {
  show = record {
    mode = y.show.mode ∙ x.show.mode;
    ton = y.show.ton ∙ x.show.ton;
    toff = y.show.toff ∙ x.show.toff;
    readings = y.show.readings ∙ x.show.readings;
  };
  lit = λ h. x.lit (y.lit h);
}

testmode_off-Untouched : (t : TestMode) (b : Board) → Untouched b (testmode_off (t, b)).1
unfolding testmode_off
testmode_off-Untouched t b = ground arith

start_test-Untouched :
    (f : TestmodeStatus) (ticks : ℕ) (parms : List ℕ) (val0 : ℕ) (t : TestMode) (b : Board)
    → Untouched b (start_test f ticks parms val0 (t, b)).1
unfolding testmode_off
start_test-Untouched f ticks parms val0 t b = ground arith

testmode_on-Untouched :
    (ticks : ℕ) (parms : List ℕ) (f val0 val1 : ℕ) (t : TestMode) (b : Board)
    → Untouched b (testmode_on ticks parms f val0 val1 (t, b)).1
unfolding testmode_on
testmode_on-Untouched ticks parms f val0 val1 t b =
    start_test-Untouched (to_testmode f) ticks parms val0 _ b

run_test-SameShow :
    (f : TestmodeStatus) (hw : AdcHw) (ticks : ℕ) (t : TestMode) (b : Board)
    → SameShow b (run_test f hw ticks (t, b)).0.1
unfolding testmode_off
run_test-SameShow f hw ticks t b = ground arith

pub testmode_run-SameShow :
    (hw : AdcHw) (ticks : ℕ) (t : TestMode) (b : Board)
    → SameShow b (testmode_run hw ticks (t, b)).0.1
unfolding testmode_run
testmode_run-SameShow hw ticks t b =
    let u = record t {
      test_seconds = u16 (t.test_seconds + 1);
      test_timeout = u16 (t.test_timeout + 1000);
    } in
    ground (
      arith,
      run_test-SameShow t.test_state hw ticks t b,
      run_test-SameShow t.test_state hw ticks u b,
    )

run_testmode-Untouched : (n : Node) → Untouched n.board (run_testmode n).board
run_testmode-Untouched n =
    let p = pkt_payload n in
    let start : (v w : ℕ)
        → Untouched n.board
            (testmode_on (ticks_of n) n.cfg.parms (get_or p 0 0) v w (n.test, n.board)).1 =
      λ v w. testmode_on-Untouched (ticks_of n) n.cfg.parms (get_or p 0 0) v w n.test n.board in
    elim (Bool-cases (get_or p 0 0 == 0)) [
      | inl off ↦ rw off (testmode_off-Untouched n.test n.board)
      | inr on ↦ elim (Bool-cases (has_key p)) [
        | inr locked ↦
            rw (on, locked)
              (record {
                show = record { mode = refl; ton = refl; toff = refl; readings = refl };
                lit = λ h. h;
              })
        | inl key ↦ elim (Bool-cases (pkt_len n == 5)) [
          | inl five ↦ rw (on, key, five) (start (get_or p 3 0) (get_or p 4 0))
          | inr other ↦ rw (on, key, other) (start 0 0)
        ]
      ]
    ]

module _ (crc8 : ℕ → ℕ → ℕ) (ee : Eeprom) (env : Env) where
  cmd_testmode-Untouched : (n : Node) → Untouched n.board (cmd_testmode crc8 ee env n).0.board
  unfolding cmd_testmode cmd_ack
  cmd_testmode-Untouched n = run_testmode-Untouched n

  own_command-Untouched :
      (cmd : ℕ) (n : Node) → Untouched n.board (own_command crc8 ee env cmd n).0.board
  unfolding own_command cmd_ack cmd_dfu cmd_uid cmd_adcraw cmd_status cmd_setparm cmd_getparm
  own_command-Untouched cmd n = ground (arith, cmd_testmode-Untouched n)

  pub run_command-Untouched : (n : Node) → Untouched n.board (run_command crc8 ee env n).0.board
  unfolding run_command cmd_uid cmd_addr
  run_command-Untouched n = ground (arith, own_command-Untouched (pkt_cmd n) n)

  process_packet-Untouched :
      (n : Node) (p : PktPtr) → Untouched n.board (process_packet crc8 ee env n p).0.board
  unfolding watch_packet
  process_packet-Untouched n null = ground arith
  process_packet-Untouched n rxbuf_ptr =
      ground (arith, run_command-Untouched (record n { pkt_waiting = false }))

  pub cmd_process-Untouched : (n : Node) → Untouched n.board (cmd_process crc8 ee env n).0.board
  unfolding cmd_process
  cmd_process-Untouched n =
      process_packet-Untouched (record n { pkt = (pkt_ready n.pkt).0 }) (pkt_ready n.pkt).1
