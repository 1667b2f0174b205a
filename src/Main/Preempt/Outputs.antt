-- ===== src/Main/Preempt/Outputs.antt =====
-- The loads and the blue LED of a node of src/main.c whose main loop is interrupted between any two
-- of its steps.
use bmsnode_firmware.Prelude.{ℕ, ◌≡◌, refl, Bool, false, arith}
use mathlib.Core.Path.{subst}
use bmsnode_firmware.Cfg.{Eeprom}
use bmsnode_firmware.Kissm.{Kissm}
use bmsnode_firmware.Node.{Node, Env}
use bmsnode_firmware.Cmd.Load.{NodeAccounts, run_command-Accounts}
use bmsnode_firmware.Main.{main_init}
use bmsnode_firmware.Main.States.{NodeState, powerup}
use bmsnode_firmware.Main.Machine.{to_powerup}
use bmsnode_firmware.Main.Reset.{IsReset}
use bmsnode_firmware.Main.Load.{
  IsAccounted, run-IsAccounted, free_packet-Accounts, rxc-IsAccounted, main_init-IsAccounted,
}
use bmsnode_firmware.Main.Load.Handlers.{is_shunting}
use bmsnode_firmware.Main.Preempt.{
  Preempted, start, after, main, rxc, tick, dre, txc, Occurs, Point, Moment, step, step_at, at_leds,
  at_adc, at_timers, at_ready, at_command, at_release, at_watch, at_reset, at_timeout, at_machine,
  at_free,
}
use bmsnode_firmware.Main.Preempt.Pass.{between}
use bmsnode_firmware.Main.Preempt.Owned.{IsOuter, IsSound, Preempted-IsSound}

-- The pins of the LEDs and the converters are no loads.
same_loads :
    (w : Bool) (n m : Node)
    → m.test ≡ n.test
    → m.board.shunt ≡ n.board.shunt
    → m.board.extio ≡ n.board.extio
    → NodeAccounts w n
    → NodeAccounts w m
same_loads w n m t s x v = ground (arith, v.load, v.forced, v.outside, v.driven, v.stopped)

module _ (crc8 : ℕ → ℕ → ℕ) (ee : Eeprom) where
  abbrev pub pair_of : Moment → Kissm NodeState × Node
  pair_of t = (t.kissm, t.node)

  step_at-IsAccounted :
      (env : Env) (k : Kissm NodeState) (n : Node) (p : Point)
      → k.app_init_state ≡ powerup
      → IsOuter p
      → IsAccounted (k, n)
      → IsAccounted (pair_of (step_at crc8 ee env k n p))
  step_at-IsAccounted env k n at_leds i o v =
      same_loads (is_shunting k.p_ps) n (step_at crc8 ee env k n at_leds).node refl refl refl v
  step_at-IsAccounted env k n at_adc i o v =
      same_loads (is_shunting k.p_ps) n (step_at crc8 ee env k n at_adc).node refl refl refl v
  step_at-IsAccounted env k n at_timers i o v = v
  step_at-IsAccounted env k n at_ready i o v = v
  step_at-IsAccounted env k n at_command i o v =
      run_command-Accounts crc8 ee env (is_shunting k.p_ps) (record n { pkt_waiting = false }) v
  step_at-IsAccounted env k n at_release i o v = v
  step_at-IsAccounted env k n at_watch i o v = v
  step_at-IsAccounted env k n at_reset i o v = v
  step_at-IsAccounted env k n at_timeout i o v = v
  step_at-IsAccounted env k n (at_machine e p) i o v =
      subst (λ j. IsAccounted (pair_of (step_at crc8 ee env j n (at_machine e p)))) (to_powerup k i)
        (run-IsAccounted env k.p_ps e n o v)
  step_at-IsAccounted env k n (at_free p) i o v =
      free_packet-Accounts crc8 ee env (is_shunting k.p_ps) p n v

  Occurs-IsAccounted :
      {t u : Moment}
      → Occurs crc8 ee t u
      → IsSound crc8 t
      → IsAccounted (pair_of t)
      → IsAccounted (pair_of u)
  unfolding step
  Occurs-IsAccounted {t} (main env) s v =
      step_at-IsAccounted env t.kissm t.node t.point s.initial s.outer v
  Occurs-IsAccounted {t} (rxc f ch) s v = rxc-IsAccounted crc8 ee f ch (pair_of t) v
  Occurs-IsAccounted tick s v = v
  Occurs-IsAccounted (dre f) s v = v
  Occurs-IsAccounted txc s v = v

  -- From a reset on, whatever bytes arrive and wherever interrupts fall between the steps of the
  -- main loop: the shunt is off, its level 0 and its timer stopped, unless the node is in the state
  -- `shunt` or a test function is on; the compare output and the external output are off unless a
  -- test function is on; and the compare register holds the level.
  pub Preempted-IsAccounted :
      (n : Node) (t : Moment)
      → IsReset n
      → Preempted crc8 ee (between (main_init crc8 ee n)) t
      → IsAccounted (pair_of t)
  Preempted-IsAccounted n t h start = main_init-IsAccounted crc8 ee n h
  Preempted-IsAccounted n t h (after r e) =
      Occurs-IsAccounted e (Preempted-IsSound crc8 ee n _ h.rxbuf r) (Preempted-IsAccounted n _ h r)
