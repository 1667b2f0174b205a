-- ===== src/Main/Run.antt =====
-- A node of src/main.c from its start on, with the interrupts of src/tmr.c and src/ser.c between
-- the passes of the main loop.
use bmsnode_firmware.Prelude.{ℕ, ◌≡◌, Bool, true, false, arith, length}
use bmsnode_firmware.Pkt.{pkt_reset, null}
use bmsnode_firmware.Pkt.Owner.{byte, here, next, Reach-IsOwned}
use bmsnode_firmware.Cfg.{Eeprom}
use bmsnode_firmware.Ser.{dre_isr, txc_isr}
use bmsnode_firmware.Tmr.{tick_isr}
use bmsnode_firmware.Kissm.{Kissm, kissm_init}
use bmsnode_firmware.Node.{Node, Env, rxc_isr}
use bmsnode_firmware.Cmd.Buffer.{client}
use bmsnode_firmware.Main.{main_init, main_step}
use bmsnode_firmware.Main.States.{device_init, NodeState}
use bmsnode_firmware.Main.Loop.{IsRunning, main_step-IsRunning}

module _ (crc8 : ℕ → ℕ → ℕ) (ee : Eeprom) where
  -- A pass, whatever it reads; a received byte; a tick; and the two transmit interrupts.
  pub data Event (y : Kissm NodeState × Node) : Kissm NodeState × Node → Type 0 where
    pass : (env : Env) → Event y (main_step crc8 ee env y)
    rxc : (rxcif : Bool) (ch : ℕ) → Event y (y.0, rxc_isr crc8 rxcif ch y.1)
    tick : Event y (y.0, record y.1 { tmr = tick_isr y.1.tmr })
    dre : (dreif : Bool) → Event y (y.0, record y.1 { ser = (dre_isr dreif y.1.ser).0 })
    txc : Event y (y.0, record y.1 { ser = txc_isr y.1.ser })

  pub data Run (y : Kissm NodeState × Node) : Kissm NodeState × Node → Type 0 where
    start : Run y y
    after : {z w : Kissm NodeState × Node} → Run y z → Event z w → Run y w

  rxc-IsRunning :
      (rxcif : Bool) (ch : ℕ) (y : Kissm NodeState × Node)
      → IsRunning crc8 y
      → IsRunning crc8 (y.0, rxc_isr crc8 rxcif ch y.1)
  unfolding rxc_isr
  rxc-IsRunning false ch (k, n) v = v
  rxc-IsRunning true ch (k, n) v = record {
    initial = v.initial;
    owned = Reach-IsOwned crc8 v.owned (next here (byte (client (n, null)) ch));
    watched = v.watched;
  }

  Event-IsRunning : {y z : Kissm NodeState × Node} → Event y z → IsRunning crc8 y → IsRunning crc8 z
  Event-IsRunning {y} (pass env) v = (main_step-IsRunning crc8 ee env y v).0
  Event-IsRunning {y} (rxc rxcif ch) v = rxc-IsRunning rxcif ch y v
  Event-IsRunning tick v = record { initial = v.initial; owned = v.owned; watched = v.watched }
  Event-IsRunning (dre f) v = record { initial = v.initial; owned = v.owned; watched = v.watched }
  Event-IsRunning txc v = record { initial = v.initial; owned = v.owned; watched = v.watched }

  pub main_init-IsRunning :
      (n : Node) → length n.pkt.rxbuf ≡ 16 → IsRunning crc8 (main_init crc8 ee n)
  unfolding main_init kissm_init pkt_reset device_init
  main_init-IsRunning n h = ground arith

  -- From the start on, whatever bytes arrive and however interrupts and passes alternate: the
  -- receive buffer has at most one owner and is never lost to a pass that is over, the parser stays
  -- within its buffer, and the watchdog is on in every state but `sleep`.
  pub Run-IsRunning :
      (n : Node) (z : Kissm NodeState × Node)
      → length n.pkt.rxbuf ≡ 16
      → Run (main_init crc8 ee n) z
      → IsRunning crc8 z
  Run-IsRunning n z h start = main_init-IsRunning n h
  Run-IsRunning n z h (after r e) = Event-IsRunning e (Run-IsRunning n _ h r)
