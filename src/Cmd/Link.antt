-- ===== src/Cmd/Link.antt =====
-- The transmit side under the command processor of src/cmd.c: whatever a node answers, its transmit
-- packet, its ring and the turning of the wire stay in order.
use bmsnode_firmware.Prelude.{
  ℕ, ◌+◌, inl, inr, false, List, [], ◌∷◌, ◌++◌, arith, ◌==◌, Bool-cases, u8,
}
use bmsnode_firmware.Ser.{Ser}
use bmsnode_firmware.Ser.Queue
use bmsnode_firmware.Ser.Duplex.{IsInStep, ser_write-IsInStep}
use bmsnode_firmware.Pkt.{TxPacket, pkt_send, assemble}
use bmsnode_firmware.Pkt.Send
use bmsnode_firmware.Pkt.{PktPtr, null, rxbuf_ptr, pkt_ready, pkt_flag_reply}
use bmsnode_firmware.Cfg.{Eeprom, cfg_set, cfg_uid, cfg_reset}
use bmsnode_firmware.Cfg.Size.{IsBlock, cfg_set-IsBlock, cfg_store-IsBlock, cfg_reset-IsBlock}
use bmsnode_firmware.Node.{Node, Env}
use bmsnode_firmware.Cmd.{
  run_testmode, pkt_uid, cmd_dfu, cmd_addr, run_command, own_command, cmd_ack, cmd_uid, cmd_adcraw,
  cmd_status, cmd_setparm, cmd_getparm, cmd_testmode, watch_packet, process_packet, cmd_process,
}
use bmsnode_firmware.Cmd.Code.{pkt_addr, pkt_len, pkt_payload, pkt_cmd}

-- The transmit packet and the ring are well formed, and the wire is turned as the ring asks.
pub record IsLink (tx : TxPacket) (ser : Ser) : Type 0 where
  pub packet : Send.IsValid tx
  pub ring : Queue.IsValid ser
  pub step : IsInStep ser

module _ (crc8 : ℕ → ℕ → ℕ) where
  pub pkt_send-IsLink :
      (tx : TxPacket) (ser : Ser) (flags addr cmd : ℕ) (payload : List ℕ) (len : ℕ)
      → IsLink tx ser
      → let ((tx', ser'), ok) = pkt_send crc8 tx ser flags addr cmd payload len in IsLink tx' ser'
  unfolding pkt_send
  pkt_send-IsLink tx ser flags addr cmd payload len v =
      let pkt = assemble crc8 tx.pkt flags addr cmd payload len in
      let total = u8 (4 + 1 + 4 + len + 1) in
      let buf = tx.preambles ++ tx.sync_byte ∷ pkt in
      ground (
        arith,
        v.packet,
        v.ring,
        v.step,
        Queue.ser_write-IsValid ser buf total v.ring,
        ser_write-IsInStep ser buf total,
        Send.length-assemble crc8 tx.pkt flags addr cmd payload len,
      )

abbrev pub NodeLink : Node → Type 0
NodeLink n = IsLink n.tx n.ser

module _ (crc8 : ℕ → ℕ → ℕ) (ee : Eeprom) (env : Env) where
  -- Each command sends at most one reply.
  cmd_ack-IsLink : (n : Node) → NodeLink n → NodeLink (cmd_ack crc8 ee env n).0
  unfolding cmd_ack
  cmd_ack-IsLink n v = pkt_send-IsLink crc8 n.tx n.ser pkt_flag_reply _ _ _ _ v

  cmd_uid-IsLink : (n : Node) → NodeLink n → NodeLink (cmd_uid crc8 ee env n).0
  unfolding cmd_uid
  cmd_uid-IsLink n v = pkt_send-IsLink crc8 n.tx n.ser pkt_flag_reply _ _ _ _ v

  cmd_addr-IsLink : (n : Node) → NodeLink n → NodeLink (cmd_addr crc8 ee env n).0
  unfolding cmd_addr
  cmd_addr-IsLink n v = elim (Bool-cases (cfg_uid n.cfg == pkt_uid n)) [
    | inl mine ↦ rw mine (pkt_send-IsLink crc8 n.tx n.ser pkt_flag_reply _ _ _ _ v)
    | inr other ↦ rw other v
  ]

  cmd_status-IsLink : (n : Node) → NodeLink n → NodeLink (cmd_status crc8 ee env n).0
  unfolding cmd_status
  cmd_status-IsLink n v = pkt_send-IsLink crc8 n.tx n.ser pkt_flag_reply _ _ _ _ v

  cmd_adcraw-IsLink : (n : Node) → NodeLink n → NodeLink (cmd_adcraw crc8 ee env n).0
  unfolding cmd_adcraw
  cmd_adcraw-IsLink n v = pkt_send-IsLink crc8 n.tx n.ser pkt_flag_reply _ _ _ _ v

  cmd_setparm-IsLink : (n : Node) → NodeLink n → NodeLink (cmd_setparm crc8 ee env n).0
  unfolding cmd_setparm
  cmd_setparm-IsLink n v = pkt_send-IsLink crc8 n.tx n.ser pkt_flag_reply _ _ _ _ v

  cmd_getparm-IsLink : (n : Node) → NodeLink n → NodeLink (cmd_getparm crc8 ee env n).0
  unfolding cmd_getparm
  cmd_getparm-IsLink n v = pkt_send-IsLink crc8 n.tx n.ser pkt_flag_reply _ _ _ _ v

  cmd_testmode-IsLink : (n : Node) → NodeLink n → NodeLink (cmd_testmode crc8 ee env n).0
  unfolding cmd_testmode
  cmd_testmode-IsLink n v = cmd_ack-IsLink (run_testmode n) v

  own_command-IsLink :
      (cmd : ℕ) (n : Node) → NodeLink n → NodeLink (own_command crc8 ee env cmd n).0
  unfolding own_command cmd_dfu
  own_command-IsLink cmd n v =
      let factory = record n { cfg = cfg_reset crc8 ee n.cfg } in
      ground (
        arith,
        cmd_ack-IsLink n v,
        cmd_uid-IsLink n v,
        cmd_status-IsLink n v,
        cmd_adcraw-IsLink n v,
        cmd_setparm-IsLink n v,
        cmd_getparm-IsLink n v,
        cmd_testmode-IsLink n v,
        cmd_ack-IsLink factory v,
      )

  pub run_command-IsLink : (n : Node) → NodeLink n → NodeLink (run_command crc8 ee env n).0
  unfolding run_command
  run_command-IsLink n v =
      ground (arith, own_command-IsLink (pkt_cmd n) n v, cmd_addr-IsLink n v, cmd_uid-IsLink n v)

  process_packet-IsLink :
      (n : Node) (p : PktPtr) → NodeLink n → NodeLink (process_packet crc8 ee env n p).0
  unfolding watch_packet
  process_packet-IsLink n null v = ground (arith, v)
  process_packet-IsLink n rxbuf_ptr v =
      let r = run_command-IsLink (record n { pkt_waiting = false }) v in ground (arith, r)

  pub cmd_process-IsLink : (n : Node) → NodeLink n → NodeLink (cmd_process crc8 ee env n).0
  unfolding cmd_process
  cmd_process-IsLink n v =
      process_packet-IsLink (record n { pkt = (pkt_ready n.pkt).0 }) (pkt_ready n.pkt).1 v

-- The transmit side and the size of the configuration block.
pub record IsFit (n : Node) : Type 0 where
  pub link : NodeLink n
  pub block : IsBlock n.cfg

module _ (crc8 : ℕ → ℕ → ℕ) (ee : Eeprom) (env : Env) where
  cmd_addr-IsBlock : (n : Node) → IsBlock n.cfg → IsBlock (cmd_addr crc8 ee env n).0.cfg
  unfolding cmd_addr
  cmd_addr-IsBlock n h =
      let c = (cfg_set crc8 ee n.cfg 2 (1 ∷ pkt_addr n ∷ [])).0 in
      let d =
        cfg_store-IsBlock crc8 ee c (cfg_set-IsBlock crc8 ee n.cfg 2 (1 ∷ pkt_addr n ∷ []) h) in
      elim (Bool-cases (cfg_uid n.cfg == pkt_uid n)) [
        | inl mine ↦ rw mine d
        | inr other ↦ rw other h
      ]

  cmd_setparm-IsBlock : (n : Node) → IsBlock n.cfg → IsBlock (cmd_setparm crc8 ee env n).0.cfg
  unfolding cmd_setparm
  cmd_setparm-IsBlock n h = cfg_set-IsBlock crc8 ee n.cfg (pkt_len n) (pkt_payload n) h

  own_command-IsBlock :
      (cmd : ℕ) (n : Node) → IsBlock n.cfg → IsBlock (own_command crc8 ee env cmd n).0.cfg
  unfolding own_command cmd_ack cmd_dfu cmd_uid cmd_status cmd_adcraw cmd_getparm cmd_testmode
  own_command-IsBlock cmd n h =
      ground (arith, cmd_setparm-IsBlock n h, cfg_reset-IsBlock crc8 ee n.cfg)

  pub run_command-IsBlock : (n : Node) → IsBlock n.cfg → IsBlock (run_command crc8 ee env n).0.cfg
  unfolding run_command cmd_uid
  run_command-IsBlock n h =
      ground (arith, own_command-IsBlock (pkt_cmd n) n h, cmd_addr-IsBlock n h)

  process_packet-IsBlock :
      (n : Node) (p : PktPtr) → IsBlock n.cfg → IsBlock (process_packet crc8 ee env n p).0.cfg
  unfolding watch_packet
  process_packet-IsBlock n null h = ground arith
  process_packet-IsBlock n rxbuf_ptr h =
      let r = run_command-IsBlock (record n { pkt_waiting = false }) h in ground arith

  -- The command processor keeps the transmit side and the size of the configuration block.
  pub cmd_process-IsFit : (n : Node) → IsFit n → IsFit (cmd_process crc8 ee env n).0
  unfolding cmd_process
  cmd_process-IsFit n v = record {
    link = cmd_process-IsLink crc8 ee env n v.link;
    block =
        process_packet-IsBlock (record n { pkt = (pkt_ready n.pkt).0 }) (pkt_ready n.pkt).1 v.block;
  }
