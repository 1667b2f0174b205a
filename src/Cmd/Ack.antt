-- ===== src/Cmd/Ack.antt =====
-- The commands of src/cmd.c that are only acknowledged.
use bmsnode_firmware.Prelude.{
  ℕ, ◌≡◌, sym, ◌≢◌, ◌⊎◌, inl, inr, Bool, true, ◌||◌, [], arith, ◌==◌, set,
}
use mathlib.Core.Path.{subst}
use bmsnode_firmware.Cfg.{Eeprom, cfg_reset}
use bmsnode_firmware.Node.{Node, Env}
use bmsnode_firmware.Cmd.{cmd_ack, cmd_testmode, own_command, run_command, run_testmode}
use bmsnode_firmware.Cmd.Code.{
  node_id, pkt_addr, pkt_cmd, cmd_ping, cmd_shunton, cmd_shuntoff, cmd_testmode_code, cmd_factory,
}
use bmsnode_firmware.Cmd.Reply.{CanSend, Replies, cmd_ack-Replies}

-- PING, the two shunt commands, TESTMODE and FACTORY.
abbrev pub is_acked : ℕ → Bool
is_acked cmd =
    cmd == cmd_ping
    || cmd == cmd_shunton
    || cmd == cmd_shuntoff
    || cmd == cmd_testmode_code
    || cmd == cmd_factory

module _ (crc8 : ℕ → ℕ → ℕ) (ee : Eeprom) (env : Env) where
  cmd_testmode-Replies :
      (n : Node)
      → CanSend n
      → Replies crc8 n (pkt_addr n) (pkt_cmd n) [] (cmd_testmode crc8 ee env n)
  unfolding cmd_testmode
  cmd_testmode-Replies n c =
      let r = cmd_ack-Replies crc8 ee env (run_testmode n) (record { ring = c.ring; tx = c.tx }) in
      record { can = r.can; bytes = r.bytes; whole = r.whole }

  factory-Replies :
      (n : Node)
      → CanSend n
      → Replies crc8 n
          (pkt_addr n)
          (pkt_cmd n)
          []
          (cmd_ack crc8 ee env (record n { cfg = cfg_reset crc8 ee n.cfg }))
  factory-Replies n c =
      let m = record n { cfg = cfg_reset crc8 ee n.cfg } in
      let r = cmd_ack-Replies crc8 ee env m (record { ring = c.ring; tx = c.tx }) in
      record { can = r.can; bytes = r.bytes; whole = r.whole }

  acked_outcome :
      (n : Node)
      → node_id n ≢ 0
      → pkt_addr n ≡ node_id n
      → is_acked (pkt_cmd n) ≡ true
      → let out = run_command crc8 ee env n in
        (out ≡ cmd_ack crc8 ee env n)
        ⊎ (out ≡ cmd_testmode crc8 ee env n)
        ⊎ (out ≡ cmd_ack crc8 ee env (record n { cfg = cfg_reset crc8 ee n.cfg }))
  unfolding run_command own_command
  acked_outcome n set mine acked = ground arith

  -- PING, SHUNTON, SHUNTOFF, TESTMODE and FACTORY, sent to a node that has an address, are
  -- answered by an empty packet with the same command from the address that the packet names, also
  -- when FACTORY has just taken that address away. The reply is queued as far as the ring has
  -- room, and the command goes on to the main loop exactly when all of it is.
  pub run_command_acks :
      (n : Node)
      → CanSend n
      → node_id n ≢ 0
      → pkt_addr n ≡ node_id n
      → is_acked (pkt_cmd n) ≡ true
      → Replies crc8 n (pkt_addr n) (pkt_cmd n) [] (run_command crc8 ee env n)
  run_command_acks n c set mine acked =
      let motive = λ (out : Node × Bool). Replies crc8 n (pkt_addr n) (pkt_cmd n) [] out in
      elim (acked_outcome n set mine acked) [
        | inl e ↦ subst motive (sym e) (cmd_ack-Replies crc8 ee env n c)
        | inr (inl e) ↦ subst motive (sym e) (cmd_testmode-Replies n c)
        | inr (inr e) ↦ subst motive (sym e) (factory-Replies n c)
      ]
