-- ===== src/Main/Fit.antt =====
-- The transmit side and the configuration block of a node of src/main.c, from its start on.
use bmsnode_firmware.Prelude.{ℕ, ◌≡◌, sym, Bool, true, false, arith, length}
use mathlib.Core.Path.{subst}
use bmsnode_firmware.Ser.{Ser, ser_flush, dre_isr, txc_isr}
use bmsnode_firmware.Ser.Queue
use bmsnode_firmware.Ser.Queue.{dre_isr_lem}
use bmsnode_firmware.Ser.Duplex.{ser_flush-IsInStep, dre_isr-IsInStep, txc_isr-IsInStep}
use bmsnode_firmware.Pkt.{PktPtr, null, rxbuf_ptr}
use bmsnode_firmware.Tmr.{tmr_process}
use bmsnode_firmware.Cfg.{Eeprom}
use bmsnode_firmware.Cfg.Size.{IsBlock, cfg_load-IsBlock}
use bmsnode_firmware.Kissm.{State, Kissm, kissm_run}
use bmsnode_firmware.Node.{Node, Env, rxc_isr}
use bmsnode_firmware.Cmd.Link.{IsLink, IsFit, cmd_process-IsFit}
use bmsnode_firmware.Main.{main_init, main_step, next_event, run_background, free_packet}
use bmsnode_firmware.Main.States.{NodeState, powerup, tmr_fuel, device_init, handler, same}
use bmsnode_firmware.Main.Machine.{in_state, to_powerup, run-Ran}
use bmsnode_firmware.Main.Loop.{next_event-is_outer}
use bmsnode_firmware.Main.Run
use bmsnode_firmware.Main.Run.{Run, start, after, pass, rxc, tick, dre, txc, Run-IsRunning}
use bmsnode_firmware.Main.Reset.{IsReset}

pub moved-IsFit : (n m : Node) → m.tx ≡ n.tx → m.ser ≡ n.ser → m.cfg ≡ n.cfg → IsFit n → IsFit m
moved-IsFit n m tx ser cfg v = record {
  link = subst (λ t. IsLink t m.ser) (sym tx) (subst (λ s. IsLink n.tx s) (sym ser) v.link);
  block = subst IsBlock (sym cfg) v.block;
}

pub free_packet-IsFit : (p : PktPtr) (n : Node) → IsFit n → IsFit (free_packet p n)
free_packet-IsFit null n v = v
free_packet-IsFit rxbuf_ptr n v = record { link = v.link; block = v.block }

module _ (crc8 : ℕ → ℕ → ℕ) (ee : Eeprom) (env : Env) where
  next_event-IsFit : (n : Node) → IsFit n → IsFit (next_event crc8 ee env n).0.0
  next_event-IsFit n v =
      let m = record n { tmr = (tmr_process tmr_fuel n.tmr).0 } in
      let u : IsFit m = record { link = v.link; block = v.block } in
      let c = cmd_process-IsFit crc8 ee env m u in ground (arith, c, u)

  pass-IsFit :
      (s : State NodeState) (n : Node) → IsFit n → IsFit (main_step crc8 ee env (in_state s, n)).1
  unfolding main_step
  pass-IsFit s n v =
      let b = run_background env n in
      let ((m, p), e) = next_event crc8 ee env b in
      let (tx, ser, cfg) = (run-Ran env s e m (next_event-is_outer crc8 ee env b)).kept in
      let f = next_event-IsFit b (record { link = v.link; block = v.block }) in
      let out = kissm_run (handler env) same e (in_state s, m) in
      free_packet-IsFit p out.1 (moved-IsFit m out.1 tx ser cfg f)

  main_step-IsFit :
      (y : Kissm NodeState × Node)
      → y.0.app_init_state ≡ powerup
      → IsFit y.1
      → IsFit (main_step crc8 ee env y).1
  main_step-IsFit (k, n) i v =
      subst (λ j. IsFit (main_step crc8 ee env (j, n)).1) (to_powerup k i) (pass-IsFit k.p_ps n v)

pub dre-IsLink : (f : Bool) (n : Node) → IsFit n → IsFit (record n { ser = (dre_isr f n.ser).0 })
dre-IsLink f n v = record {
  link = record {
    packet = v.link.packet;
    ring = (dre_isr_lem f n.ser v.link.ring).0;
    step = dre_isr-IsInStep f n.ser v.link.step;
  };
  block = v.block;
}

txc_isr-IsValid : (s : Ser) → Queue.IsValid s → Queue.IsValid (txc_isr s)
unfolding txc_isr
txc_isr-IsValid s v = ground (arith, v)

pub txc-IsLink : (n : Node) → IsFit n → IsFit (record n { ser = txc_isr n.ser })
txc-IsLink n v = record {
  link = record {
    packet = v.link.packet;
    ring = txc_isr-IsValid n.ser v.link.ring;
    step = txc_isr-IsInStep n.ser v.link.step;
  };
  block = v.block;
}

module _ (crc8 : ℕ → ℕ → ℕ) (ee : Eeprom) where
  pub rxc-IsFit : (rxcif : Bool) (ch : ℕ) (n : Node) → IsFit n → IsFit (rxc_isr crc8 rxcif ch n)
  unfolding rxc_isr
  rxc-IsFit true ch n v = record { link = v.link; block = v.block }
  rxc-IsFit false ch n v = v

  Event-IsFit :
      {y z : Kissm NodeState × Node}
      → Run.Event crc8 ee y z
      → y.0.app_init_state ≡ powerup
      → IsFit y.1
      → IsFit z.1
  Event-IsFit {y} (pass env) i v = main_step-IsFit crc8 ee env y i v
  Event-IsFit {y} (rxc rxcif ch) i v = rxc-IsFit rxcif ch y.1 v
  Event-IsFit tick i v = record { link = v.link; block = v.block }
  Event-IsFit {y} (dre f) i v = dre-IsLink f y.1 v
  Event-IsFit {y} txc i v = txc-IsLink y.1 v

  flushed : (s : Ser) → length s.txbuf ≡ 32 → Queue.IsValid (ser_flush s)
  unfolding ser_flush
  flushed s h = ground arith

  pub main_init-IsFit : (n : Node) → IsReset n → IsFit (main_init crc8 ee n).1
  unfolding main_init device_init
  main_init-IsFit n h =
      let d = device_init n in
      record {
        link = record {
          packet = h.txpkt;
          ring = flushed d.ser h.txbuf;
          step = ser_flush-IsInStep d.ser;
        };
        block = cfg_load-IsBlock crc8 ee d.cfg;
      }

  -- From a reset on, whatever bytes arrive and however interrupts and passes alternate: the
  -- transmit packet and the ring are well formed, bytes that wait have both transmit interrupts on,
  -- the receiver is off while a transmission is not complete, and the configuration block has its
  -- 26 bytes.
  pub Run-IsFit :
      (n : Node) (z : Kissm NodeState × Node)
      → IsReset n
      → Run crc8 ee (main_init crc8 ee n) z
      → IsFit z.1
  Run-IsFit n z h start = main_init-IsFit n h
  Run-IsFit n z h (after r e) =
      Event-IsFit e (Run-IsRunning crc8 ee n _ h.rxbuf r).initial (Run-IsFit n _ h r)
