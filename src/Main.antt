-- ===== src/Main.antt =====
-- The application of src/main.c: the six states of the node, the main loop's pass that turns
-- timers and commands into events, and the start-up of the modules.
pub mod Cold
pub mod Graph
pub mod Machine
pub mod Loop
pub mod Run
pub mod StateTimer
pub mod Awake
pub mod Life
pub mod Load
pub mod Reset
pub mod Readings
pub mod Inquiry
pub mod Fit
pub mod Timeout
pub mod Lull
pub mod Show
pub mod Unattended
pub mod Preempt
pub mod States
use bmsnode_firmware.Prelude.{ℕ, ◌==◌, if◌then◌else◌}
use bmsnode_firmware.LinkedList
use bmsnode_firmware.Ser.{ser_flush}
use bmsnode_firmware.Pkt.{PktPtr, null, rxbuf_ptr, pkt_reset, pkt_rx_free}
use bmsnode_firmware.Tmr.{tmr_init, tmr_process}
use bmsnode_firmware.Cfg.{Eeprom, cfg_load}
use bmsnode_firmware.Adc.{adc_run}
use bmsnode_firmware.Led.{led_run}
use bmsnode_firmware.Kissm.{Event, evt_none, evt_app, Kissm, kissm_init, kissm_run}
use bmsnode_firmware.Node.{Node, Env}
use bmsnode_firmware.Cmd.{cmd_process}
use bmsnode_firmware.Cmd.Code.{ticks_of}
use bmsnode_firmware.Main.States.{
  AppEvent, NodeState, state_tmr_id, tmr_fuel, device_init, power_up, handler, same, evt_timeout,
  evt_cmd, powerup,
}

-- The modules that run on every pass.
abbrev pub run_background : Env → Node → Node
run_background env n =
    let b = n.board in
    record n {
      board = record b {
        leds = led_run (ticks_of n) b.leds;
        adc = adc_run env.hw (ticks_of n) b.adc;
      };
    }

abbrev pub cmd_event : PktPtr → Event AppEvent
cmd_event null = evt_none
cmd_event rxbuf_ptr = evt_app (evt_cmd rxbuf_ptr)

abbrev pub free_packet : PktPtr → Node → Node
free_packet null n = n
free_packet rxbuf_ptr n = record n { pkt = pkt_rx_free n.pkt }

module _ (crc8 : ℕ → ℕ → ℕ) (ee : Eeprom) (env : Env) where
  -- The event of a pass: an expired timer, else a command.
  abbrev pub next_event : Node → (Node × PktPtr) × Event AppEvent
  next_event n =
      let (tmr, expired) = tmr_process tmr_fuel n.tmr in
      let m = record n { tmr = tmr } in
      let (k, pkt) = cmd_process crc8 ee env m in
      if expired == LinkedList.null
      then ((k, pkt), cmd_event pkt)
      else if tmr.id expired == state_tmr_id
      then ((m, null), evt_app evt_timeout)
      else ((m, null), evt_none)

  -- One pass of `for (;;)`.
  unfoldable pub main_step : Kissm NodeState × Node → Kissm NodeState × Node
  main_step (k, n) =
      let ((m, pkt), evt) = next_event (run_background env n) in
      let (k', m') = kissm_run (handler env) same evt (k, m) in (k', free_packet pkt m')

module _ (crc8 : ℕ → ℕ → ℕ) (ee : Eeprom) where
  -- The start of `main_loop`, up to the loop.
  unfoldable pub main_init : Node → Kissm NodeState × Node
  unfolding device_init
  main_init n =
      let d = device_init n in
      let m = record d {
        cfg = (cfg_load crc8 ee d.cfg).0;
        tmr = tmr_init d.tmr;
        pkt = pkt_reset d.pkt;
        ser = ser_flush d.ser;
      } in
      (kissm_init powerup, power_up m)
