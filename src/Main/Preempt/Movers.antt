-- ===== src/Main/Preempt/Movers.antt =====
-- Receive interrupts of src/ser.c that make no difference: a byte that arrives while the main loop
-- of src/main.c works could as well have arrived before that work.
use bmsnode_firmware.Prelude.{ℕ, ◌≡◌, refl, sym, ap, ◌∙◌, Bool, true, false, List, arith, length}
use bmsnode_firmware.Pkt.{pkt_parser, Pkt}
use bmsnode_firmware.Cfg.{Eeprom}
use bmsnode_firmware.Node.{Node, Env, rxc_isr}
use bmsnode_firmware.Cmd.{
  run_command, own_command, cmd_ack, cmd_dfu, cmd_uid, cmd_addr, cmd_status, cmd_adcraw,
  cmd_setparm, cmd_getparm, cmd_testmode,
}
use bmsnode_firmware.Cmd.Code.{pkt_cmd}
use bmsnode_firmware.Cmd.Buffer.{run_command-pkt}
use bmsnode_firmware.Pkt.Owner.{IsOwned, pkt_parser-IsKept}
use bmsnode_firmware.Kissm.{Kissm}
use bmsnode_firmware.Main.{main_init}
use bmsnode_firmware.Main.States.{NodeState}
use bmsnode_firmware.Main.Preempt.{
  Preempted, Point, Moment, step, step_at, at_leds, at_adc, at_timers, at_command, after_command,
}
use bmsnode_firmware.Main.Preempt.Pass.{between}
use bmsnode_firmware.Main.Preempt.Owned.{holds, IsSound, Preempted-IsSound}
use bmsnode_firmware.Main.Preempt.Held.{taken_out}

-- The same packet in the buffer, and another state of the parser.
abbrev with_parser : Pkt → Node → Node
with_parser q n = record n { pkt = record q { rxbuf = n.pkt.rxbuf } }

abbrev carried : Pkt → List ℕ → Node × Bool → Node × Bool
carried q buf (m, ret) = (record m { pkt = record q { rxbuf = buf } }, ret)

module _ (crc8 : ℕ → ℕ → ℕ) (ee : Eeprom) (env : Env) (q : Pkt) where
  abbrev Carries : (Node → Node × Bool) → Node → Type 0
  Carries f n = f (with_parser q n) ≡ carried q n.pkt.rxbuf (f n)

  cmd_ack-Carries : (n : Node) → Carries (cmd_ack crc8 ee env) n
  unfolding cmd_ack
  cmd_ack-Carries n = refl

  cmd_testmode-Carries : (n : Node) → Carries (cmd_testmode crc8 ee env) n
  unfolding cmd_testmode cmd_ack
  cmd_testmode-Carries n = refl

  cmd_addr-Carries : (n : Node) → Carries (cmd_addr crc8 ee env) n
  unfolding cmd_addr
  cmd_addr-Carries n = ground arith

  own_command-Carries : (cmd : ℕ) (n : Node) → Carries (own_command crc8 ee env cmd) n
  unfolding own_command cmd_ack cmd_dfu cmd_uid cmd_status cmd_adcraw cmd_setparm cmd_getparm
      cmd_testmode
  own_command-Carries cmd n = ground arith

  run_command-Carries : (n : Node) → Carries (run_command crc8 ee env) n
  unfolding run_command cmd_uid
  run_command-Carries n = ground (arith, own_command-Carries (pkt_cmd n) n, cmd_addr-Carries n)

-- What the main loop does at these points does not depend on whether a byte has just arrived: the
-- modules that run on every pass, the timers, and a command, whose packet the parser cannot touch.
abbrev pub moves : Point → Bool
moves at_leds = true
moves at_adc = true
moves at_timers = true
moves at_command = true
moves _ = false

abbrev pub with_byte : (ℕ → ℕ → ℕ) → Bool → ℕ → Moment → Moment
with_byte crc8 rxcif ch t = record t { node = rxc_isr crc8 rxcif ch t.node }

module _ (crc8 : ℕ → ℕ → ℕ) (ee : Eeprom) (env : Env) where
  -- A command and a byte that arrives, in either order.
  command_byte :
      (n : Node) (ch : ℕ)
      → IsOwned crc8 (record { pkt = n.pkt; held = true })
      → let (m, ret) = run_command crc8 ee env n in
        run_command crc8 ee env (record n { pkt = pkt_parser crc8 n.pkt ch })
        ≡ (record m { pkt = pkt_parser crc8 m.pkt ch }, ret)
  command_byte n ch o =
      let q = pkt_parser crc8 n.pkt ch in
      let (m, ret) = run_command crc8 ee env n in
      let (idle, inuse) = taken_out crc8 (record { pkt = n.pkt; held = true }) o refl in
      let kept : q.rxbuf ≡ n.pkt.rxbuf = (pkt_parser-IsKept crc8 n.pkt ch idle inuse).buffer in
      let same_parser : record q { rxbuf = n.pkt.rxbuf } ≡ q =
        ap (λ b. record q { rxbuf = b }) (sym kept) in
      ap (λ s. run_command crc8 ee env (record n { pkt = s })) (sym same_parser)
      ∙ run_command-Carries crc8 ee env q n
      ∙ ap (λ (s : Pkt). (record m { pkt = s }, ret)) same_parser
      ∙ ap (λ (s : Pkt). (record m { pkt = pkt_parser crc8 s ch }, ret))
          (sym (run_command-pkt crc8 ee env n))

  byte_moves :
      (k : Kissm NodeState) (n : Node) (p : Point) (ch : ℕ)
      → moves p ≡ true
      → IsOwned crc8 (record { pkt = n.pkt; held = holds p })
      → step_at crc8 ee env k (record n { pkt = pkt_parser crc8 n.pkt ch }) p ≡ (
          let u = step_at crc8 ee env k n p in
          record u { node = record u.node { pkt = pkt_parser crc8 u.node.pkt ch } })
  byte_moves k n at_leds ch m o = refl
  byte_moves k n at_adc ch m o = refl
  byte_moves k n at_timers ch m o = refl
  byte_moves k n at_command ch m o =
      ap (λ (out : Node × Bool). record { kissm = k; node = out.0; point = after_command out.1 })
        (command_byte (record n { pkt_waiting = false }) ch o)
  byte_moves k n _ ch m o = absurd (ground arith)

  -- At the points where it makes no difference, a byte that arrives before a step of the main loop
  -- leads to the same moment as one that arrives after it.
  step-with_byte :
      (t : Moment) (rxcif : Bool) (ch : ℕ)
      → IsSound crc8 t
      → moves t.point ≡ true
      → step crc8 ee env (with_byte crc8 rxcif ch t) ≡ with_byte crc8 rxcif ch (step crc8 ee env t)
  unfolding step rxc_isr
  step-with_byte t true ch v m = byte_moves t.kissm t.node t.point ch m v.owned
  step-with_byte t false ch v m = refl

  -- In every moment that a node reaches from its start where the main loop is at the LEDs, the
  -- converters, the timers or a command: a byte that arrives before this step leads to the same
  -- moment as one that arrives after it, in all that the node keeps.
  pub step-rxc_isr :
      (n : Node) (t : Moment) (rxcif : Bool) (ch : ℕ)
      → length n.pkt.rxbuf ≡ 16
      → Preempted crc8 ee (between (main_init crc8 ee n)) t
      → moves t.point ≡ true
      → step crc8 ee env (with_byte crc8 rxcif ch t) ≡ with_byte crc8 rxcif ch (step crc8 ee env t)
  step-rxc_isr n t rxcif ch h r m = step-with_byte t rxcif ch (Preempted-IsSound crc8 ee n t h r) m
