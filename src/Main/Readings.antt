-- ===== src/Main/Readings.antt =====
-- The smoothed readings of the converters in a node of src/main.c, from its start on.
use bmsnode_firmware.Prelude.{ℕ, ◌≡◌, refl, ◌∙◌, Bool, true, false, Option, none, some, arith}
use mathlib.Core.Path.{subst}
use bmsnode_firmware.Adc.Filter
use bmsnode_firmware.Adc.Filter.{Is10Bit, adc_run-IsValid}
use bmsnode_firmware.Adc.{Adc, adc_powerup, adc_powerdown}
use bmsnode_firmware.Cfg.{Eeprom}
use bmsnode_firmware.Pkt.{PktPtr, null, rxbuf_ptr}
use bmsnode_firmware.Kissm.{
  Event, evt_entry, evt_exit, State, kissm_initial, app_state, Kissm, kissm_run, transition,
}
use bmsnode_firmware.Node.{Node, Env, rxc_isr}
use bmsnode_firmware.Cmd.Code.{ticks_of}
use bmsnode_firmware.Main.{main_init, main_step, next_event, run_background, free_packet}
use bmsnode_firmware.Main.States.{
  NodeState, powerup, AppEvent, schedule_state, powerup_handler, idle_handler, dfu_handler,
  shunt_handler, testmode_handler, sleep_handler, handler, same, device_init,
}
use bmsnode_firmware.Main.Machine.{is_outer, in_state, to_powerup}
use bmsnode_firmware.Main.Loop.{next_event-is_outer}
use bmsnode_firmware.Main.Graph.{leads, handler-Handles}
use bmsnode_firmware.Main.Show.{handler-SameShow, next_event-Untouched}
use bmsnode_firmware.Main.Run.{Run, start, after, pass, rxc, tick, dre, txc, Run-IsRunning}
use bmsnode_firmware.Main.Reset.{IsReset}

-- The results of the converters are the same.
abbrev SameReadings : Node → Node → Type 0
SameReadings m n = m.board.adc.results ≡ n.board.adc.results

exit-SameReadings :
    (env : Env) (p : NodeState) (n : Node) → SameReadings (handler env p evt_exit n).0 n
unfolding powerup_handler idle_handler dfu_handler shunt_handler testmode_handler sleep_handler
    adc_powerup
exit-SameReadings env p n = ground arith

entry-SameReadings :
    (env : Env) (p : NodeState) (n : Node) → SameReadings (handler env p evt_entry n).0 n
unfolding powerup_handler idle_handler dfu_handler shunt_handler testmode_handler sleep_handler
    schedule_state adc_powerdown
entry-SameReadings env p n = ground arith

transition-SameReadings :
    (env : Env) (p : NodeState) (m : Node) (ns : Option NodeState)
    → leads p ns ≡ true
    → SameReadings (transition (handler env) same (in_state (app_state p)) (m, ns)).1 m
transition-SameReadings env p m none d = refl
transition-SameReadings env p m (some q) d =
    let crosses : same p q ≡ false = ground arith in
    let x = (handler env p evt_exit m).0 in
    rw crosses (entry-SameReadings env q x ∙ exit-SameReadings env p m)

run-SameReadings :
    (env : Env) (s : State NodeState) (e : Event AppEvent) (n : Node)
    → is_outer e ≡ true
    → SameReadings (kissm_run (handler env) same e (in_state s, n)).1 n
unfolding kissm_run
run-SameReadings env kissm_initial e n o = entry-SameReadings env powerup n
run-SameReadings env (app_state p) e n o =
    let out = handler env p e n in
    transition-SameReadings env p out.0 out.1 (handler-Handles env p e n).edge
    ∙ (handler-SameShow env p e n o).readings

free_packet-SameReadings : (p : PktPtr) (n : Node) → SameReadings (free_packet p n) n
free_packet-SameReadings null n = refl
free_packet-SameReadings rxbuf_ptr n = refl

-- Readings that are the same are as valid.
same_valid : (a b : Adc) → b.results ≡ a.results → Filter.IsValid a → Filter.IsValid b
same_valid a b e v = record { size = rw e v.size; in_range = rw e v.in_range }

pub run_background-IsValid :
    (env : Env) (n : Node)
    → Is10Bit env.hw
    → Filter.IsValid n.board.adc
    → Filter.IsValid (run_background env n).board.adc
run_background-IsValid env n ten v = (adc_run-IsValid env.hw (ticks_of n) n.board.adc ten v).0

module _ (crc8 : ℕ → ℕ → ℕ) (ee : Eeprom) (env : Env) where
  pass-SameReadings :
      (s : State NodeState) (n : Node)
      → SameReadings (main_step crc8 ee env (in_state s, n)).1 (run_background env n)
  unfolding main_step
  pass-SameReadings s n =
      let b = run_background env n in
      let ((m, p), e) = next_event crc8 ee env b in
      let out = kissm_run (handler env) same e (in_state s, m) in
      free_packet-SameReadings p out.1
      ∙ run-SameReadings env s e m (next_event-is_outer crc8 ee env b)
      ∙ (next_event-Untouched crc8 ee env b).show.readings

  main_step-Readings :
      (y : Kissm NodeState × Node)
      → y.0.app_init_state ≡ powerup
      → Is10Bit env.hw
      → Filter.IsValid y.1.board.adc
      → Filter.IsValid (main_step crc8 ee env y).1.board.adc
  main_step-Readings (k, n) i ten v =
      let b = run_background env n in
      let kept : SameReadings (main_step crc8 ee env (k, n)).1 b =
        subst (λ j. SameReadings (main_step crc8 ee env (j, n)).1 b) (to_powerup k i)
          (pass-SameReadings k.p_ps n) in
      same_valid b.board.adc (main_step crc8 ee env (k, n)).1.board.adc kept
        (run_background-IsValid env n ten v)

module _ {crc8 : ℕ → ℕ → ℕ} {ee : Eeprom} where
  -- Every pass reads converters of 10 bits.
  unfoldable pub ReadsTenBits : {y z : Kissm NodeState × Node} → Run crc8 ee y z → Type 0
  ReadsTenBits start = Unit
  ReadsTenBits (after r (pass env)) = ReadsTenBits r × Is10Bit env.hw
  ReadsTenBits (after r (rxc f ch)) = ReadsTenBits r
  ReadsTenBits (after r tick) = ReadsTenBits r
  ReadsTenBits (after r (dre f)) = ReadsTenBits r
  ReadsTenBits (after r txc) = ReadsTenBits r

module _ (crc8 : ℕ → ℕ → ℕ) (ee : Eeprom) where
  rxc-SameReadings : (rxcif : Bool) (ch : ℕ) (n : Node) → SameReadings (rxc_isr crc8 rxcif ch n) n
  unfolding rxc_isr
  rxc-SameReadings true ch n = refl
  rxc-SameReadings false ch n = refl

  main_init-SameReadings : (n : Node) → SameReadings (main_init crc8 ee n).1 n
  unfolding main_init device_init adc_powerup
  main_init-SameReadings n = refl

  -- From a reset on, in every interleaving with converters of 10 bits, the node has four smoothed
  -- readings of at most 1023.
  pub Run-readings :
      (n : Node) (z : Kissm NodeState × Node)
      → IsReset n
      → (r : Run crc8 ee (main_init crc8 ee n) z) → ReadsTenBits r
      → Filter.IsValid z.1.board.adc
  unfolding ReadsTenBits
  Run-readings n z h start ten = same_valid n.board.adc _ (main_init-SameReadings n) h.readings
  Run-readings n z h (after {z = y} r (pass env)) ten =
      main_step-Readings crc8 ee env y (Run-IsRunning crc8 ee n y h.rxbuf r).initial ten.1
        (Run-readings n y h r ten.0)
  Run-readings n z h (after {z = y} r (rxc f ch)) ten =
      same_valid y.1.board.adc _ (rxc-SameReadings f ch y.1) (Run-readings n y h r ten)
  Run-readings n z h (after {z = y} r tick) ten = Run-readings n y h r ten
  Run-readings n z h (after {z = y} r (dre f)) ten = Run-readings n y h r ten
  Run-readings n z h (after {z = y} r txc) ten = Run-readings n y h r ten
