-- ===== src/Tests/Whole.antt =====
-- Whole nodes from their start on, and packets from one node to another.
use bmsnode_firmware.Prelude.{
  ℕ, zero, suc, ◌<◌, ◌≡◌, refl, inl, true, [], ◌∷◌, ◌++◌, arith, set, take,
}
use bmsnode_firmware.Prelude.{
  ℕ, zero, suc, ◌<◌, ◌≡◌, refl, inl, true, [], ◌∷◌, ◌++◌, arith, set, take,
}
use bmsnode_firmware.Crc.{crc8_ccitt_update, crc_from}
use bmsnode_firmware.Crc.Division.{divide, message_bits, bits_of, crc_from_remainder}
use bmsnode_firmware.Tests.Data.{node, test, env, eeprom, ser, tx, pkt, holding, cfg, parms}
use bmsnode_firmware.Ser.{buf_cnt}
use bmsnode_firmware.Ser.Queue
use bmsnode_firmware.Ser.Duplex.{drain}
use bmsnode_firmware.Pkt.{pkt_reset, pkt_is_active, pkt_ready, rxbuf_ptr, parse_all}
use bmsnode_firmware.Pkt.Send
use bmsnode_firmware.Pkt.Frame.{Packet, opened, body, packet_crc}
use bmsnode_firmware.Pkt.Corrupt.{Rejects, frame, receive_corrupted}
use bmsnode_firmware.Cfg.{Cfg, cfg_uid, cfg_load, get8}
use bmsnode_firmware.Cfg.Offset
use bmsnode_firmware.Adc.Filter
use bmsnode_firmware.Kissm.{Kissm, app_state, kissm_init, kissm_run}
use bmsnode_firmware.Tmr.{
  tick_isr, tmr_expired, tmr_set, tmr_schedule, tmr_unschedule, tmr_process, tmr_init,
}
use bmsnode_firmware.LinkedList.{list_iter, list_remove, list_add}
use bmsnode_firmware.Main.Timeout.{follower, is_late, Run-follower}
use bmsnode_firmware.Node.{Node}
use bmsnode_firmware.Cmd.{cmd_process, watch_packet, run_command}
use bmsnode_firmware.Cmd.Code.{cmd_addr_code, node_id, pkt_addr, pkt_payload, cmd_uid_code}
use bmsnode_firmware.Cmd.Reply.{CanSend, Replies}
use bmsnode_firmware.Cmd.Exchange.{Waits, Received, receive_bytes, request_reply}
use bmsnode_firmware.Cmd.Discover.{uid_payload, uid-addr}
use bmsnode_firmware.Main.Unattended
use bmsnode_firmware.Main.Unattended.Pass.{is_unattended}
use bmsnode_firmware.Main.Unattended.{unattended_test_stays}
use bmsnode_firmware.Main.{main_init, main_step}
use bmsnode_firmware.Main.States.{powerup_handler, schedule_state, device_init, NodeState, powerup}
use bmsnode_firmware.Main.Run.{Run, tick, start, after, pass}
use bmsnode_firmware.Main.Reset.{IsReset}

pub ser_ok : Queue.IsValid ser
ser_ok = ground arith

pub tx_ok : Send.IsValid tx
tx_ok = record { preambles = refl; sync_byte = refl; size = refl }

pub can_send : CanSend node
can_send = record { ring = ser_ok; tx = tx_ok }

pub filter_ok : Filter.IsValid node.board.adc
filter_ok = record { size = refl; in_range = ground arith }

pub node-IsReset : IsReset node
node-IsReset = record {
  rxbuf = refl;
  txbuf = refl;
  txpkt = tx_ok;
  shunt = refl;
  level = (refl, refl);
  timer = (refl, refl);
  readings = filter_ok;
  test = refl;
}

pub pkt-Waits : Waits pkt
pkt-Waits = record { state = refl; free = refl; size = refl }

abbrev pub started : Kissm NodeState × Node
started = main_init crc8_ccitt_update eeprom node

-- A PING to address 7, and with its command changed.
abbrev pub ping : Packet
ping = record { flags = 0; addr = 7; cmd = 1; payload = [] }

-- A board without an address, first with a UID packet and then with an ADDR packet to address 9.
abbrev fresh : Cfg
fresh = record cfg { parms = set parms 2 0 }

abbrev asked : Node
asked = record (holding (0 ∷ 0 ∷ 3 ∷ 0 ∷ [])) { cfg = fresh }

abbrev assigned : Node
assigned = record (holding (0 ∷ 9 ∷ 4 ∷ 4 ∷ 4 ∷ 3 ∷ 2 ∷ 1 ∷ [])) { cfg = fresh }

abbrev later : Cfg
later = (run_command crc8_ccitt_update eeprom env assigned).0.cfg

small_uid : cfg_uid asked.cfg < 4294967296
unfolding cfg_uid
small_uid = omega arith

same_uid : take 4 (pkt_payload assigned) ≡ take 4 (uid_payload env asked)
unfolding cfg_uid
same_uid = refl

request_reply_example :
    let asked =
      receive_bytes crc8_ccitt_update
        (opened 0 (body ping ++ packet_crc crc8_ccitt_update ping ∷ []))
        node in
    let (m, ret) = cmd_process crc8_ccitt_update eeprom env asked in
    (ret ≡ rxbuf_ptr)
    × Received ping.addr ping.cmd []
        (parse_all crc8_ccitt_update pkt (drain (buf_cnt m.ser) m.ser).1)
request_reply_example =
    request_reply crc8_ccitt_update eeprom env 0 ping node pkt (omega arith) refl (ground arith)
      refl can_send refl pkt-Waits pkt-Waits

receive_corrupted_example :
    Rejects pkt (parse_all crc8_ccitt_update pkt (opened 3 (set (frame ping) 2 3)))
receive_corrupted_example =
    receive_corrupted 3 ping 2 3 pkt (omega arith) (ground arith) (omega arith) (ground arith)
      (omega arith) (ground arith) refl refl refl

crc_from_remainder_example :
    crc_from crc8_ccitt_update 0 (0 ∷ 7 ∷ 1 ∷ [])
    ≡ divide 0 (message_bits (0 ∷ 7 ∷ 1 ∷ []) ++ bits_of 0)
crc_from_remainder_example = crc_from_remainder (0 ∷ 7 ∷ 1 ∷ []) (ground arith)

uid-addr_example :
    Replies crc8_ccitt_update asked 0 cmd_uid_code
      (uid_payload env asked)
      (run_command crc8_ccitt_update eeprom env asked)
    × (node_id (run_command crc8_ccitt_update eeprom env assigned).0 ≡ pkt_addr assigned)
    × (get8 (cfg_load crc8_ccitt_update eeprom later).0.parms Offset.addr ≡ pkt_addr assigned)
    × Replies crc8_ccitt_update assigned
        (pkt_addr assigned)
        cmd_addr_code
        (take 4 (uid_payload env asked))
        (run_command crc8_ccitt_update eeprom env assigned)
uid-addr_example =
    uid-addr crc8_ccitt_update eeprom env asked assigned later refl refl refl
      (record { ring = ser_ok; tx = tx_ok }) small_uid refl refl
      (record { ring = ser_ok; tx = tx_ok }) refl (omega arith) same_uid refl

-- Ticks of the timer, one after another.
unfoldable pub ticks : ℕ → Kissm NodeState × Node → Kissm NodeState × Node
ticks zero y = y
ticks (suc k) y = let z = ticks k y in (z.0, record z.1 { tmr = tick_isr z.1.tmr })

pub ticks-Run :
    (k : ℕ) {y z : Kissm NodeState × Node}
    → Run crc8_ccitt_update eeprom y z
    → Run crc8_ccitt_update eeprom y (ticks k z)
unfolding ticks
ticks-Run zero r = r
ticks-Run (suc k) r = after (ticks-Run k r) tick

-- One second after the first pass.
abbrev pub second_on : Kissm NodeState × Node
second_on = ticks 1000 (main_step crc8_ccitt_update eeprom env started)

in_powerup : second_on.0.p_ps ≡ app_state powerup
unfolding ticks main_step main_init kissm_init kissm_run
in_powerup = refl

-- A node in the state `powerup` with a test function that TESTMODE has just started.
abbrev untended : Kissm NodeState × Node
untended =
    (record { p_ps = app_state powerup; app_init_state = powerup }, record node { test = test })

unattended_test_stays_example :
    let z = main_step crc8_ccitt_update eeprom env untended in
    (z.1.test ≡ untended.1.test)
    × (z.1.board.shunt ≡ untended.1.board.shunt)
    × (is_unattended z.0.p_ps ≡ true)
unattended_test_stays_example =
    unattended_test_stays crc8_ccitt_update eeprom untended
      (main_step crc8_ccitt_update eeprom env untended) refl refl refl
      (Unattended.pass env Unattended.begin)

second_late : is_late second_on.1.tmr ≡ true
unfolding ticks main_step main_init kissm_init kissm_run tick_isr tmr_expired tmr_set tmr_schedule
    tmr_unschedule tmr_process list_iter list_remove list_add powerup_handler schedule_state
    device_init tmr_init cmd_process watch_packet pkt_ready pkt_reset pkt_is_active
second_late = refl

Run-follower_example :
    (main_step crc8_ccitt_update eeprom env second_on).0.p_ps ≡ app_state (follower powerup)
Run-follower_example =
    Run-follower crc8_ccitt_update eeprom env node second_on powerup refl
      (ticks-Run 1000 (after start (pass env))) in_powerup (inl (refl, second_late))
