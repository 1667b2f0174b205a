-- ===== src/Main/Preempt.antt =====
-- The main loop of src/main.c in the steps between which interrupts happen: the calls that
-- `main_loop` makes, and inside `cmd_process` of src/cmd.c what follows each call that touches what
-- the receive interrupt shares.
pub mod Pass
pub mod Owned
pub mod Held
pub mod Fit
pub mod Awake
pub mod Outputs
pub mod Movers
use bmsnode_firmware.Prelude.{ℕ, Bool, true, false, ◌==◌, if◌then◌else◌}
use bmsnode_firmware.LinkedList
use bmsnode_firmware.Led.{led_run}
use bmsnode_firmware.Adc.{adc_run}
use bmsnode_firmware.Tmr.{tick_isr, tmr_set, tmr_expired, tmr_process}
use bmsnode_firmware.Ser.{dre_isr, txc_isr}
use bmsnode_firmware.Pkt.{PktPtr, null, rxbuf_ptr, pkt_is_active, pkt_ready, pkt_reset, pkt_rx_free}
use bmsnode_firmware.Cfg.{Eeprom}
use bmsnode_firmware.Kissm.{Event, evt_none, evt_app, Kissm, kissm_run}
use bmsnode_firmware.Node.{Node, Env, rxc_isr}
use bmsnode_firmware.Cmd.{run_command}
use bmsnode_firmware.Cmd.Code.{ticks_of}
use bmsnode_firmware.Main.{cmd_event, free_packet}
use bmsnode_firmware.Main.States.{
  AppEvent, NodeState, state_tmr_id, tmr_fuel, handler, same, evt_timeout,
}

-- What the main loop does next. The first three and the last two stand in `main_loop`, the others
-- in `cmd_process`: the pick-up, the command, the release of a packet that is not returned, the
-- tests on `pkt_waiting`, and what they lead to.
pub data Point : Type 0 where
  at_leds at_adc at_timers at_ready at_command at_release at_watch at_reset at_timeout : Point
  at_machine : Event AppEvent → PktPtr → Point
  at_free : PktPtr → Point

pub record Moment : Type 0 where
  pub kissm : Kissm NodeState
  pub node : Node
  pub point : Point

-- `cmd_process` returns NULL.
abbrev pub no_packet : Point
no_packet = at_machine evt_none null

abbrev pub after_ready : PktPtr → Point
after_ready null = at_watch
after_ready rxbuf_ptr = at_command

abbrev pub after_command : Bool → Point
after_command true = at_machine (cmd_event rxbuf_ptr) rxbuf_ptr
after_command false = at_release

abbrev pub after_timers : Bool → Bool → Point
after_timers true ours = at_ready
after_timers false true = at_machine (evt_app evt_timeout) null
after_timers false false = no_packet

-- The tests of `cmd_process` when there is no packet.
abbrev pub after_watch : Node → Point
after_watch n =
    if n.pkt_waiting
    then if tmr_expired (ticks_of n) n.pkt_timeout then at_reset else no_packet
    else if pkt_is_active n.pkt
    then at_timeout
    else no_packet

module _ (crc8 : ℕ → ℕ → ℕ) (ee : Eeprom) where
  -- One step of the main loop.
  abbrev pub step_at : Env → Kissm NodeState → Node → Point → Moment
  step_at env k n at_leds =
      let b = n.board in
      record {
        kissm = k;
        node = record n { board = record b { leds = led_run (ticks_of n) b.leds } };
        point = at_adc;
      }
  step_at env k n at_adc =
      let b = n.board in
      record {
        kissm = k;
        node = record n { board = record b { adc = adc_run env.hw (ticks_of n) b.adc } };
        point = at_timers;
      }
  step_at env k n at_timers =
      let (tmr, expired) = tmr_process tmr_fuel n.tmr in
      record {
        kissm = k;
        node = record n { tmr = tmr };
        point = after_timers (expired == LinkedList.null) (tmr.id expired == state_tmr_id);
      }
  step_at env k n at_ready =
      let (pkt, ready) = pkt_ready n.pkt in
      record { kissm = k; node = record n { pkt = pkt }; point = after_ready ready }
  step_at env k n at_command =
      let (m, ret) = run_command crc8 ee env (record n { pkt_waiting = false }) in
      record { kissm = k; node = m; point = after_command ret }
  step_at env k n at_release = record {
    kissm = k;
    node = record n { pkt = pkt_rx_free n.pkt };
    point = at_watch;
  }
  step_at env k n at_watch = record { kissm = k; node = n; point = after_watch n }
  step_at env k n at_reset = record {
    kissm = k;
    node = record n { pkt = pkt_reset n.pkt; pkt_waiting = false };
    point = no_packet;
  }
  step_at env k n at_timeout = record {
    kissm = k;
    node = record n { pkt_timeout = tmr_set (ticks_of n) 5000; pkt_waiting = true };
    point = no_packet;
  }
  step_at env k n (at_machine e p) =
      let (k', m) = kissm_run (handler env) same e (k, n) in
      record { kissm = k'; node = m; point = at_free p }
  step_at env k n (at_free p) = record { kissm = k; node = free_packet p n; point = at_leds }

  unfoldable pub step : Env → Moment → Moment
  step env t = step_at env t.kissm t.node t.point

  -- A step of the main loop, or an interrupt: a received byte, a tick, or one of the two transmit
  -- interrupts.
  pub data Occurs (t : Moment) : Moment → Type 0 where
    main : (env : Env) → Occurs t (step env t)
    rxc : (rxcif : Bool) (ch : ℕ) → Occurs t (record t { node = rxc_isr crc8 rxcif ch t.node })
    tick : Occurs t (record t { node = record t.node { tmr = tick_isr t.node.tmr } })
    dre :
        (dreif : Bool)
        → Occurs t (record t { node = record t.node { ser = (dre_isr dreif t.node.ser).0 } })
    txc : Occurs t (record t { node = record t.node { ser = txc_isr t.node.ser } })

  pub data Preempted (t : Moment) : Moment → Type 0 where
    start : Preempted t t
    after : {u v : Moment} → Preempted t u → Occurs u v → Preempted t v
