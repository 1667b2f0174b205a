-- ===== src/Cmd/Inquiry.antt =====
-- A STATUS request that is ready in src/pkt.c, what src/cmd.c does for it, and what the one who
-- asked reads from the reply.
use bmsnode_firmware.Prelude.{ℕ, ◌≡◌, sym, ◌∙◌, ◌≢◌, List, arith, set}
use mathlib.Core.Path.{subst}
use bmsnode_firmware.Adc.Filter
use bmsnode_firmware.Ser.{buf_cnt}
use bmsnode_firmware.Pkt.{Pkt}
use bmsnode_firmware.Pkt.Frame.{Packet}
use bmsnode_firmware.Cfg.{Eeprom}
use bmsnode_firmware.Node.{Node, Env}
use bmsnode_firmware.Cmd.{own_command, run_command, cmd_status, cmd_process}
use bmsnode_firmware.Cmd.Code.{node_id, pkt_addr, pkt_cmd, cmd_status_code}
use bmsnode_firmware.Cmd.Reply.{CanSend, Replies}
use bmsnode_firmware.Cmd.Report.{StatusReport, cmd_status_lem}
use bmsnode_firmware.Cmd.Exchange.{Waits, Answered, Holds, picked_up, answered}

module _ (crc8 : ℕ → ℕ → ℕ) (ee : Eeprom) (env : Env) where
  run_command-cmd_status :
      (n : Node)
      → node_id n ≢ 0
      → pkt_addr n ≡ node_id n
      → pkt_cmd n ≡ cmd_status_code
      → run_command crc8 ee env n ≡ cmd_status crc8 ee env n
  unfolding run_command own_command
  run_command-cmd_status n set mine asks = ground arith

  -- A ready STATUS request is answered by the report of the node.
  pub reported :
      (n : Node) (p : Packet) (other : Pkt)
      → CanSend n
      → Filter.IsValid n.board.adc
      → buf_cnt n.ser ≡ 0
      → node_id n ≢ 0
      → p.addr ≡ node_id n
      → p.cmd ≡ cmd_status_code
      → Holds p n.pkt
      → Waits other
      → (payload : List ℕ) × StatusReport env (picked_up n) payload
        × Answered crc8 (node_id n) cmd_status_code payload other (cmd_process crc8 ee env n)
  reported n p other c v empty set mine asks h w =
      let m = picked_up n in
      let (payload, r, report) =
        cmd_status_lem crc8 ee env m (record { ring = c.ring; tx = c.tx }) v in
      let runs = run_command-cmd_status m set (h.addr ∙ mine) (h.cmd ∙ asks) in
      (
        payload,
        report,
        answered crc8 ee env n p other (node_id n) cmd_status_code payload empty
            (rw report.size (omega arith)) h w
            (subst (Replies crc8 m (node_id n) cmd_status_code payload) (sym runs) r),
      )
