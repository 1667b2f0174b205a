-- ===== src/Cmd/Load.antt =====
-- The loads of the board under the command processor of src/cmd.c: only TESTMODE switches one on.
use bmsnode_firmware.Prelude.{ℕ, inl, inr, Bool, false, arith, ◌==◌, Bool-cases, get_or}
use bmsnode_firmware.Cfg.{Eeprom}
use bmsnode_firmware.Pkt.{PktPtr, null, rxbuf_ptr, pkt_ready}
use bmsnode_firmware.Shunt.{shunt_get_status}
use bmsnode_firmware.TestMode.Load.{Accounts, testmode_off-Accounts, testmode_on-Accounts}
use bmsnode_firmware.Node.{Node, Env}
use bmsnode_firmware.Cmd.{
  cmd_dfu, cmd_addr, run_testmode, has_key, run_command, own_command, cmd_ack, cmd_uid, cmd_adcraw,
  cmd_status, cmd_setparm, cmd_getparm, cmd_testmode, watch_packet, process_packet, cmd_process,
}
use bmsnode_firmware.TestMode.{testmode_on}
use bmsnode_firmware.Cmd.Code.{pkt_cmd, pkt_payload, pkt_len, ticks_of}

abbrev pub NodeAccounts : Bool → Node → Type 0
NodeAccounts w n = Accounts w (n.test, n.board)

run_testmode-Accounts : (w : Bool) (n : Node) → NodeAccounts w n → NodeAccounts w (run_testmode n)
run_testmode-Accounts w n v =
    let p = pkt_payload n in
    let start : (a b : ℕ)
        → Accounts w (testmode_on (ticks_of n) n.cfg.parms (get_or p 0 0) a b (n.test, n.board)) =
      λ a b.
        testmode_on-Accounts w (ticks_of n) n.cfg.parms (get_or p 0 0) a b (n.test, n.board) v in
    elim (Bool-cases (get_or p 0 0 == 0)) [
      | inl off ↦ rw off (testmode_off-Accounts w (n.test, n.board))
      | inr on ↦ elim (Bool-cases (has_key p)) [
        | inr locked ↦ rw (on, locked) v
        | inl key ↦ elim (Bool-cases (pkt_len n == 5)) [
          | inl five ↦ rw (on, key, five) (start (get_or p 3 0) (get_or p 4 0))
          | inr other ↦ rw (on, key, other) (start 0 0)
        ]
      ]
    ]

module _ (crc8 : ℕ → ℕ → ℕ) (ee : Eeprom) (env : Env) where
  cmd_status-Accounts :
      (w : Bool) (n : Node) → NodeAccounts w n → NodeAccounts w (cmd_status crc8 ee env n).0
  unfolding cmd_status shunt_get_status
  cmd_status-Accounts w n v = ground (arith, v.load, v.forced, v.outside, v.driven, v.stopped)

  cmd_testmode-Accounts :
      (w : Bool) (n : Node) → NodeAccounts w n → NodeAccounts w (cmd_testmode crc8 ee env n).0
  unfolding cmd_testmode cmd_ack
  cmd_testmode-Accounts w n v = run_testmode-Accounts w n v

  own_command-Accounts :
      (w : Bool) (cmd : ℕ) (n : Node)
      → NodeAccounts w n
      → NodeAccounts w (own_command crc8 ee env cmd n).0
  unfolding own_command cmd_ack cmd_dfu cmd_uid cmd_adcraw cmd_setparm cmd_getparm
  own_command-Accounts w cmd n v = ground (
    arith,
    cmd_status-Accounts w n v,
    cmd_testmode-Accounts w n v,
    v.load,
    v.forced,
    v.outside,
    v.driven,
    v.stopped,
  )

  pub run_command-Accounts :
      (w : Bool) (n : Node) → NodeAccounts w n → NodeAccounts w (run_command crc8 ee env n).0
  unfolding run_command cmd_uid cmd_addr
  run_command-Accounts w n v = ground (
    arith,
    own_command-Accounts w (pkt_cmd n) n v,
    v.load,
    v.forced,
    v.outside,
    v.driven,
    v.stopped,
  )

  process_packet-Accounts :
      (w : Bool) (n : Node) (p : PktPtr)
      → NodeAccounts w n
      → NodeAccounts w (process_packet crc8 ee env n p).0
  unfolding watch_packet
  process_packet-Accounts w n null v =
      ground (arith, v.load, v.forced, v.outside, v.driven, v.stopped)
  process_packet-Accounts w n rxbuf_ptr v =
      let r = run_command-Accounts w (record n { pkt_waiting = false }) v in
      ground (arith, r.load, r.forced, r.outside, r.driven, r.stopped)

  pub cmd_process-Accounts :
      (w : Bool) (n : Node) → NodeAccounts w n → NodeAccounts w (cmd_process crc8 ee env n).0
  unfolding cmd_process
  cmd_process-Accounts w n v =
      process_packet-Accounts w (record n { pkt = (pkt_ready n.pkt).0 }) (pkt_ready n.pkt).1 v
