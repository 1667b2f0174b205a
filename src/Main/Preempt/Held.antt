-- ===== src/Main/Preempt/Held.antt =====
-- The packet that the main loop of src/main.c handles while bytes go on arriving.
use bmsnode_firmware.Prelude.{ℕ, ◌≡◌, refl, ap, ◌∙◌, Bool, true, false, ◌||◌, arith, length}
use mathlib.Core.Path.{subst}
use bmsnode_firmware.Pkt.{
  Pkt, PktPtr, null, rxbuf_ptr, in_search_or_sync, pkt_ready, pkt_reset, pkt_rx_free,
}
use bmsnode_firmware.Pkt.Owner.{System, has_ready, IsOwned, pkt_parser-IsKept}
use bmsnode_firmware.Cfg.{Eeprom}
use bmsnode_firmware.Kissm.{Event, Kissm}
use bmsnode_firmware.Node.{Node, Env, rxc_isr}
use bmsnode_firmware.Cmd.Buffer.{run_command-pkt}
use bmsnode_firmware.Main.{main_init}
use bmsnode_firmware.Main.States.{AppEvent, NodeState, powerup}
use bmsnode_firmware.Main.Machine.{is_outer, to_powerup, run-Ran}
use bmsnode_firmware.Main.Preempt.{
  Preempted, main, rxc, tick, dre, txc, Occurs, Point, Moment, step, step_at, at_leds, at_adc,
  at_timers, at_ready, at_command, at_release, at_watch, at_reset, at_timeout, at_machine, at_free,
}
use bmsnode_firmware.Main.Preempt.Pass.{between}
use bmsnode_firmware.Main.Preempt.Owned.{
  client_of, IsOuter, holds, IsSound, Occurs-IsSound, Preempted-IsSound,
}

-- A packet has been received and is not yet freed: it waits, or the main loop holds it.
abbrev pub is_taken : Moment → Bool
is_taken t = holds t.point || has_ready t.node.pkt

-- The parser then does not collect, and finds the buffer in use.
pub taken_out :
    (crc8 : ℕ → ℕ → ℕ) (y : System)
    → IsOwned crc8 y
    → (y.held || has_ready y.pkt) ≡ true
    → (in_search_or_sync y.pkt.state ≡ true) × (y.pkt.rxbuf_inuse ≡ true)
taken_out crc8 y o h = ground (arith, o.one_owner, o.flag)

module _ (crc8 : ℕ → ℕ → ℕ) (ee : Eeprom) where
  abbrev SameBuffer : Moment → Moment → Type 0
  SameBuffer t u = u.node.pkt.rxbuf ≡ t.node.pkt.rxbuf

  machine-pkt :
      (env : Env) (k : Kissm NodeState) (n : Node) (e : Event AppEvent) (p : PktPtr)
      → k.app_init_state ≡ powerup
      → is_outer e ≡ true
      → (step_at crc8 ee env k n (at_machine e p)).node.pkt ≡ n.pkt
  machine-pkt env k n e p i o =
      subst (λ j. (step_at crc8 ee env j n (at_machine e p)).node.pkt ≡ n.pkt) (to_powerup k i)
        (run-Ran env k.p_ps e n o).packet

  -- The main loop never writes to the buffer.
  step_at-SameBuffer :
      (env : Env) (k : Kissm NodeState) (n : Node) (p : Point)
      → k.app_init_state ≡ powerup
      → IsOuter p
      → (step_at crc8 ee env k n p).node.pkt.rxbuf ≡ n.pkt.rxbuf
  unfolding pkt_ready pkt_reset pkt_rx_free
  step_at-SameBuffer env k n at_leds i o = refl
  step_at-SameBuffer env k n at_adc i o = refl
  step_at-SameBuffer env k n at_timers i o = refl
  step_at-SameBuffer env k n at_ready i o = refl
  step_at-SameBuffer env k n at_command i o =
      ap (λ (s : Pkt). s.rxbuf) (run_command-pkt crc8 ee env (record n { pkt_waiting = false }))
  step_at-SameBuffer env k n at_release i o = refl
  step_at-SameBuffer env k n at_watch i o = refl
  step_at-SameBuffer env k n at_reset i o = refl
  step_at-SameBuffer env k n at_timeout i o = refl
  step_at-SameBuffer env k n (at_machine e p) i o =
      ap (λ (s : Pkt). s.rxbuf) (machine-pkt env k n e p i o)
  step_at-SameBuffer env k n (at_free null) i o = refl
  step_at-SameBuffer env k n (at_free rxbuf_ptr) i o = refl

  -- While a packet is received and not freed.
  Occurs-SameBuffer :
      {t u : Moment} → Occurs crc8 ee t u → IsSound crc8 t → is_taken t ≡ true → SameBuffer t u
  unfolding step rxc_isr
  Occurs-SameBuffer {t} (main env) v h =
      step_at-SameBuffer env t.kissm t.node t.point v.initial v.outer
  Occurs-SameBuffer {t} (rxc true ch) v h =
      let (idle, inuse) = taken_out crc8 (client_of t) v.owned h in
      (pkt_parser-IsKept crc8 t.node.pkt ch idle inuse).buffer
  Occurs-SameBuffer (rxc false ch) v h = refl
  Occurs-SameBuffer tick v h = refl
  Occurs-SameBuffer (dre f) v h = refl
  Occurs-SameBuffer txc v h = refl

  -- What happens from a moment on as long as a packet is received and not freed, up to the step that
  -- frees it or gives it up.
  pub data Handling (t : Moment) : Moment → Type 0 where
    begin : Handling t t
    go : {u v : Moment} → Handling t u → is_taken u ≡ true → Occurs crc8 ee u v → Handling t v

  handled : {t u : Moment} → Handling t u → IsSound crc8 t → IsSound crc8 u × SameBuffer t u
  handled begin v = (v, refl)
  handled (go r h e) v =
      let (w, same) = handled r v in (Occurs-IsSound crc8 ee e w, Occurs-SameBuffer e w h ∙ same)

  -- From the start on, wherever interrupts fall: from the moment that a packet is ready until the
  -- main loop frees it, its bytes stay as they are, whatever arrives meanwhile. So the command
  -- processor and the state machine read the packet that the parser has checked.
  pub Handling-rxbuf :
      (n : Node) (t u : Moment)
      → length n.pkt.rxbuf ≡ 16
      → Preempted crc8 ee (between (main_init crc8 ee n)) t
      → Handling t u
      → u.node.pkt.rxbuf ≡ t.node.pkt.rxbuf
  Handling-rxbuf n t u size r handling = (handled handling (Preempted-IsSound crc8 ee n t size r)).1
