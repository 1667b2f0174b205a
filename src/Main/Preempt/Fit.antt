-- ===== src/Main/Preempt/Fit.antt =====
-- The transmit side and the configuration block of a node of src/main.c whose main loop is
-- interrupted between any two of its steps.
use bmsnode_firmware.Prelude.{ℕ, ◌≡◌, true, false}
use mathlib.Core.Path.{subst}
use bmsnode_firmware.Ser.{buf_cnt, dre_isr, txc_isr, ser_is_active}
use bmsnode_firmware.Ser.Queue.{contents}
use bmsnode_firmware.Ser.Duplex.{drain, drain_returns}
use bmsnode_firmware.Cfg.{Eeprom}
use bmsnode_firmware.Kissm.{Kissm}
use bmsnode_firmware.Node.{Node, Env}
use bmsnode_firmware.Cmd.Link.{IsFit, run_command-IsLink, run_command-IsBlock}
use bmsnode_firmware.Main.{main_init}
use bmsnode_firmware.Main.States.{NodeState, powerup}
use bmsnode_firmware.Main.Machine.{in_state, to_powerup, run-Ran}
use bmsnode_firmware.Main.Reset.{IsReset}
use bmsnode_firmware.Main.Fit.{
  moved-IsFit, dre-IsLink, txc-IsLink, rxc-IsFit, main_init-IsFit, free_packet-IsFit,
}
use bmsnode_firmware.Main.Preempt.{
  Preempted, start, after, main, rxc, tick, dre, txc, Occurs, Point, Moment, step, step_at, at_leds,
  at_adc, at_timers, at_ready, at_command, at_release, at_watch, at_reset, at_timeout, at_machine,
  at_free,
}
use bmsnode_firmware.Main.Preempt.Pass.{between}
use bmsnode_firmware.Main.Preempt.Owned.{IsOuter, IsSound, Preempted-IsSound}

module _ (crc8 : ℕ → ℕ → ℕ) (ee : Eeprom) where
  step_at-IsFit :
      (env : Env) (k : Kissm NodeState) (n : Node) (p : Point)
      → k.app_init_state ≡ powerup
      → IsOuter p
      → IsFit n
      → IsFit (step_at crc8 ee env k n p).node
  step_at-IsFit env k n at_leds i o v = record { link = v.link; block = v.block }
  step_at-IsFit env k n at_adc i o v = record { link = v.link; block = v.block }
  step_at-IsFit env k n at_timers i o v = record { link = v.link; block = v.block }
  step_at-IsFit env k n at_ready i o v = record { link = v.link; block = v.block }
  step_at-IsFit env k n at_command i o v =
      let m = record n { pkt_waiting = false } in
      record {
        link = run_command-IsLink crc8 ee env m v.link;
        block = run_command-IsBlock crc8 ee env m v.block;
      }
  step_at-IsFit env k n at_release i o v = record { link = v.link; block = v.block }
  step_at-IsFit env k n at_watch i o v = v
  step_at-IsFit env k n at_reset i o v = record { link = v.link; block = v.block }
  step_at-IsFit env k n at_timeout i o v = record { link = v.link; block = v.block }
  step_at-IsFit env k n (at_machine e p) i o v =
      subst (λ j. IsFit (step_at crc8 ee env j n (at_machine e p)).node) (to_powerup k i)
        (let (tx, ser, cfg) = (run-Ran env k.p_ps e n o).kept in
          moved-IsFit n (step_at crc8 ee env (in_state k.p_ps) n (at_machine e p)).node tx ser cfg
            v)
  step_at-IsFit env k n (at_free p) i o v = free_packet-IsFit p n v

  Occurs-IsFit : {t u : Moment} → Occurs crc8 ee t u → IsSound crc8 t → IsFit t.node → IsFit u.node
  unfolding step
  Occurs-IsFit {t} (main env) s v = step_at-IsFit env t.kissm t.node t.point s.initial s.outer v
  Occurs-IsFit {t} (rxc f ch) s v = rxc-IsFit crc8 ee f ch t.node v
  Occurs-IsFit tick s v = record { link = v.link; block = v.block }
  Occurs-IsFit {t} (dre f) s v = dre-IsLink f t.node v
  Occurs-IsFit {t} txc s v = txc-IsLink t.node v

  -- From a reset on, whatever bytes arrive and wherever interrupts fall between the steps of the
  -- main loop: the transmit packet and the ring are well formed, bytes that wait have both transmit
  -- interrupts on, the receiver is off while a transmission is not complete, and the configuration
  -- block has its 26 bytes.
  pub Preempted-IsFit :
      (n : Node) (t : Moment)
      → IsReset n
      → Preempted crc8 ee (between (main_init crc8 ee n)) t
      → IsFit t.node
  Preempted-IsFit n t h start = main_init-IsFit crc8 ee n h
  Preempted-IsFit n t h (after r e) =
      Occurs-IsFit e (Preempted-IsSound crc8 ee n _ h.rxbuf r) (Preempted-IsFit n _ h r)

  -- At any moment that a node reaches from a reset, also in the middle of a pass: once the data
  -- register interrupt has run as often as bytes wait, all of them are sent in order, and one more
  -- of it and the transmit complete interrupt turn the wire back to receive and leave the module
  -- idle.
  pub Preempted-drains :
      (n : Node) (t : Moment)
      → IsReset n
      → Preempted crc8 ee (between (main_init crc8 ee n)) t
      → let s = t.node.ser in
        ((drain (buf_cnt s) s).1 ≡ contents s)
        × (let t = txc_isr (dre_isr true (drain (buf_cnt s) s).0).0 in
            (ser_is_active false t ≡ false) × (t.rxen ≡ true) × (t.txen ≡ false))
  Preempted-drains n t h r = drain_returns t.node.ser (Preempted-IsFit n t h r).link.ring
