-- ===== src/Cmd/Address.antt =====
-- Which node a packet is for, in src/cmd.c.
use bmsnode_firmware.Prelude.{ℕ, ◌≡◌, Bool, false, ◌&&◌, arith, ◌==◌, if◌then◌else◌}
use bmsnode_firmware.Cfg.{Eeprom, cfg_uid}
use bmsnode_firmware.Node.{Node, Env}
use bmsnode_firmware.Cmd.{pkt_uid, run_command, cmd_addr}
use bmsnode_firmware.Cmd.Code.{
  node_id, pkt_addr, pkt_cmd, cmd_addr_code, cmd_dfu_code, cmd_uid_code,
}

-- Whether the packet in the receive buffer asks this node for something: ADDR by the number of the
-- board, anything else by the node's address, and UID at address 0 from a node that has none.
abbrev pub is_for_me : Node → Bool
is_for_me n =
    if pkt_cmd n == cmd_addr_code
    then cfg_uid n.cfg == pkt_uid n
    else if node_id n == 0
    then pkt_addr n == 0 && pkt_cmd n == cmd_uid_code
    else pkt_addr n == node_id n

module _ (crc8 : ℕ → ℕ → ℕ) (ee : Eeprom) (env : Env) where
  pub run_command_foreign :
      (n : Node) → is_for_me n ≡ false → run_command crc8 ee env n ≡ (n, pkt_cmd n == cmd_dfu_code)
  unfolding run_command cmd_addr
  run_command_foreign n h = ground arith
