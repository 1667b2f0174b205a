-- ===== src/Tests/System.antt =====
-- Whole nodes: commands, replies and passes of the main loop.
use bmsnode_firmware.Prelude.{
  ◌+◌, ◌≤◌, ◌<◌, ◌≡◌, refl, true, false, [], ◌∷◌, arith, ◌==◌, if◌then◌else◌, u16, get_or,
}
use bmsnode_firmware.Crc.{crc8_ccitt_update}
use bmsnode_firmware.Prelude.{
  ◌+◌, ◌≤◌, ◌<◌, ◌≡◌, refl, true, false, [], ◌∷◌, arith, ◌==◌, if◌then◌else◌, u16, get_or,
}
use bmsnode_firmware.Tests.Data.{node, env, eeprom, ser, tx, pkt, holding, cfg}
use bmsnode_firmware.Ser.Queue
use bmsnode_firmware.Pkt.{Pkt, rxbuf_ptr, pkt_is_active, pkt_reset, rx_header}
use bmsnode_firmware.Pkt.Send
use bmsnode_firmware.Cfg.{cfg_set, parm_count}
use bmsnode_firmware.Cfg.Parm.{value_bytes, cfg_set_accepts}
use bmsnode_firmware.Node.{Node}
use bmsnode_firmware.Cmd.{cmd_setparm, cmd_getparm, cmd_process}
use bmsnode_firmware.Cmd.Code.{node_id, pkt_len, pkt_payload, cmd_getparm_code}
use bmsnode_firmware.Cmd.Recover.{cmd_process_recovers}
use bmsnode_firmware.Cmd.Reply.{CanSend, Replies, cmd_setparm-cmd_getparm}

ser_ok : Queue.IsValid ser
ser_ok = ground arith

tx_ok : Send.IsValid tx
tx_ok = record { preambles = refl; sync_byte = refl; size = refl }

-- A PING that is ready, to the node at address 9.
abbrev foreign : Node
foreign =
    let n = holding (0 ∷ 9 ∷ 1 ∷ 0 ∷ []) in
    record n { pkt = record n.pkt { ready_packet = rxbuf_ptr } }

-- A SETPARM of the upper voltage threshold, and the node after it with a GETPARM of the same.
abbrev setting : Node
setting = holding (0 ∷ 7 ∷ 9 ∷ 3 ∷ 8 ∷ 0x68 ∷ 0x10 ∷ [])

abbrev asking : Node
asking = record (holding (0 ∷ 7 ∷ 10 ∷ 1 ∷ 8 ∷ [])) {
  cfg = (cmd_setparm crc8_ccitt_update eeprom env setting).0.cfg;
}

has_two : 3 ≡ parm_count 8 + 1
unfolding parm_count
has_two = refl

accepted :
    (cfg_set crc8_ccitt_update eeprom setting.cfg (pkt_len setting) (pkt_payload setting)).1 ≡ true
accepted =
    (cfg_set_accepts crc8_ccitt_update eeprom cfg 3 (pkt_payload setting)).0.1
      ((omega arith, omega arith), has_two)

-- A header that stops after two bytes.
abbrev stuck : Pkt
stuck = record pkt { state = rx_header; rxbuf_inuse = true; idx = 2; pbuf = rxbuf_ptr }

abbrev waiting : Node
waiting = record node { pkt = stuck }

can_asking : CanSend asking
can_asking = record { ring = ser_ok; tx = tx_ok }

active : pkt_is_active stuck ≡ true
unfolding pkt_is_active
active = refl

cmd_process_recovers_example :
    let m = (cmd_process crc8_ccitt_update eeprom env waiting).0 in
    let k = record m {
      pkt = stuck;
      tmr = record m.tmr { systick = u16 (waiting.tmr.systick + 6000) };
    } in
    let out = cmd_process crc8_ccitt_update eeprom env k in
    (6000 < 5000 → out.0 ≡ k)
    × (5000 ≤ 6000
        → (out.0.pkt ≡ pkt_reset stuck)
          × (pkt_is_active out.0.pkt ≡ false)
          × (out.0.pkt_waiting ≡ false))
cmd_process_recovers_example =
    cmd_process_recovers crc8_ccitt_update eeprom env waiting 6000 stuck refl active refl
      (omega arith) refl (omega arith)

cmd_setparm-cmd_getparm_example :
    let id = get_or (pkt_payload setting) 0 0 in
    Replies crc8_ccitt_update asking
      (node_id asking)
      cmd_getparm_code
      (id ∷ value_bytes id (pkt_payload setting))
      (cmd_getparm crc8_ccitt_update eeprom env asking)
cmd_setparm-cmd_getparm_example =
    cmd_setparm-cmd_getparm crc8_ccitt_update eeprom env setting asking refl can_asking accepted
      refl refl
