-- ===== src/Main/Life.antt =====
-- A node of src/main.c from its start on never waits in vain for its state timer.
use bmsnode_firmware.Prelude.{ℕ, ◌≡◌, inr, Bool, true, false, arith, length}
use bmsnode_firmware.Tmr.{tick_isr, tmr_init}
use bmsnode_firmware.Cfg.{Eeprom}
use bmsnode_firmware.Kissm.{Kissm, kissm_init}
use bmsnode_firmware.Node.{Node, rxc_isr}
use bmsnode_firmware.Main.{main_init}
use bmsnode_firmware.Main.States.{NodeState, powerup, device_init}
use bmsnode_firmware.Main.Awake.{IsAwake, main_step-IsAwake}
use bmsnode_firmware.Main.Run
use bmsnode_firmware.Main.Run.{Run, start, after, pass, rxc, tick, dre, txc, Run-IsRunning}

module _ (crc8 : ℕ → ℕ → ℕ) (ee : Eeprom) where
  pub rxc-IsAwake :
      (rxcif : Bool) (ch : ℕ) (y : Kissm NodeState × Node)
      → IsAwake y
      → IsAwake (y.0, rxc_isr crc8 rxcif ch y.1)
  unfolding rxc_isr
  rxc-IsAwake true ch (k, n) v = record { timer = v.timer; armed = v.armed }
  rxc-IsAwake false ch (k, n) v = v

  Event-IsAwake :
      {y z : Kissm NodeState × Node}
      → Run.Event crc8 ee y z
      → y.0.app_init_state ≡ powerup
      → IsAwake y
      → IsAwake z
  unfolding tick_isr
  Event-IsAwake {y} (pass env) i v = main_step-IsAwake crc8 ee env y i v
  Event-IsAwake {y} (rxc rxcif ch) i v = rxc-IsAwake rxcif ch y v
  Event-IsAwake tick i v = record { timer = v.timer; armed = v.armed }
  Event-IsAwake (dre f) i v = record { timer = v.timer; armed = v.armed }
  Event-IsAwake txc i v = record { timer = v.timer; armed = v.armed }

  pub main_init-IsAwake : (n : Node) → IsAwake (main_init crc8 ee n)
  unfolding main_init kissm_init tmr_init device_init
  main_init-IsAwake n = record { timer = inr (ground arith); armed = λ w. absurd (ground arith) }

  -- From the start on, whatever bytes arrive and however interrupts and passes alternate: at most
  -- the state timer is scheduled, and in the states `powerup`, `idle` and `dfu`, which wait for its
  -- timeout, it is scheduled for one expiry.
  pub Run-IsAwake :
      (n : Node) (z : Kissm NodeState × Node)
      → length n.pkt.rxbuf ≡ 16
      → Run crc8 ee (main_init crc8 ee n) z
      → IsAwake z
  Run-IsAwake n z h start = main_init-IsAwake n
  Run-IsAwake n z h (after r e) =
      Event-IsAwake e (Run-IsRunning crc8 ee n _ h r).initial (Run-IsAwake n _ h r)
