-- ===== src/Tests/Inquiry.antt =====
-- A STATUS request to a node that has run, and its reply.
use bmsnode_firmware.Prelude.{ℕ, ◌≡◌, refl, sym, true, false, List, [], ◌∷◌, ◌++◌, arith}
use bmsnode_firmware.Prelude.{ℕ, ◌≡◌, refl, sym, true, false, List, [], ◌∷◌, ◌++◌, arith}
use bmsnode_firmware.Ser.{ser_flush}
use bmsnode_firmware.Pkt.{in_search_or_sync}
use bmsnode_firmware.Crc.{crc8_ccitt_update}
use bmsnode_firmware.Tests.Data.{node, env, eeprom, pkt, cfg}
use bmsnode_firmware.Ser.{buf_cnt}
use bmsnode_firmware.Ser.Duplex.{drain}
use bmsnode_firmware.Pkt.{pkt_reset, pkt_is_active, pkt_ready, parse_all}
use bmsnode_firmware.Pkt.Frame.{Packet, opened, body, packet_crc}
use bmsnode_firmware.Cfg.{cfg_load, cfg_store}
use bmsnode_firmware.Kissm.{Kissm, kissm_init, kissm_run}
use bmsnode_firmware.Tmr.{tmr_expired, tmr_set, tmr_schedule, tmr_unschedule, tmr_process, tmr_init}
use bmsnode_firmware.LinkedList.{list_iter, list_remove, list_add}
use bmsnode_firmware.Node.{Node}
use bmsnode_firmware.Cmd.{cmd_process}
use bmsnode_firmware.Cmd.Code.{node_id, cmd_status_code}
use bmsnode_firmware.Cmd.Exchange.{Received, receive_bytes}
use bmsnode_firmware.Cmd.Report.{StatusReport}
use bmsnode_firmware.Main.Inquiry.{NoneExpired, Run-reports}
use bmsnode_firmware.Main.Readings.{ReadsTenBits}
use bmsnode_firmware.Adc.Filter.{Is10Bit}
use bmsnode_firmware.Main.{main_init, main_step, run_background}
use bmsnode_firmware.Main.States.{powerup_handler, schedule_state, device_init, NodeState}
use bmsnode_firmware.Main.Run.{Run, start, after, pass}
use bmsnode_firmware.Main.Reset.{IsReset}
use bmsnode_firmware.Tests.Whole.{tx_ok, filter_ok, pkt-Waits}

-- A STATUS request to address 7.
abbrev inquiry : Packet
inquiry = record { flags = 0; addr = 7; cmd = 6; payload = [] }

-- A node that has stored its configuration, after the start and a pass.
abbrev settled : Node
settled = record node { cfg = cfg_store crc8_ccitt_update eeprom cfg }

settled-IsReset : IsReset settled
settled-IsReset = record {
  rxbuf = refl;
  txbuf = refl;
  txpkt = tx_ok;
  shunt = refl;
  level = (refl, refl);
  timer = (refl, refl);
  readings = filter_ok;
  test = refl;
}

abbrev ready : Kissm NodeState × Node
ready = main_step crc8_ccitt_update eeprom env (main_init crc8_ccitt_update eeprom settled)

abbrev one_pass : Run crc8_ccitt_update eeprom (main_init crc8_ccitt_update eeprom settled) ready
one_pass = after start (pass env)

ten_bits : Is10Bit env.hw
ten_bits c mux ref = omega arith

reads : ReadsTenBits one_pass
unfolding ReadsTenBits
reads = (tt, ten_bits)

addressed : node_id ready.1 ≡ 7
unfolding main_init main_step cfg_load cfg_store tmr_process list_iter tmr_init cmd_process
    pkt_ready pkt_reset kissm_run kissm_init powerup_handler schedule_state pkt_is_active
    crc8_ccitt_update
addressed = refl

quiet : NoneExpired ready.1
unfolding main_init main_step tmr_process list_iter tmr_init cmd_process device_init pkt_ready
    pkt_reset kissm_run kissm_init powerup_handler schedule_state pkt_is_active tmr_schedule
    tmr_expired tmr_set list_add list_remove tmr_unschedule
quiet = refl

nothing_underway :
    (buf_cnt ready.1.ser ≡ 0)
    × (in_search_or_sync ready.1.pkt.state ≡ true)
    × (ready.1.pkt.rxbuf_inuse ≡ false)
unfolding main_step tmr_process list_iter main_init tmr_init cmd_process pkt_ready pkt_reset
    kissm_run kissm_init powerup_handler schedule_state pkt_is_active ser_flush
nothing_underway = (refl, refl, refl)

Run-reports_example :
    let bytes = opened 0 (body inquiry ++ packet_crc crc8_ccitt_update inquiry ∷ []) in
    let s =
      (main_step crc8_ccitt_update eeprom env
        (ready.0, receive_bytes crc8_ccitt_update bytes ready.1)).1.ser in
    (payload : List ℕ) × StatusReport env (run_background env ready.1) payload
    × Received
        (node_id ready.1)
        cmd_status_code
        payload
        (parse_all crc8_ccitt_update pkt (drain (buf_cnt s) s).1)
Run-reports_example =
    Run-reports crc8_ccitt_update eeprom env settled ready 0 inquiry pkt settled-IsReset one_pass
      reads ten_bits (omega arith) refl (ground (arith, addressed)) (sym addressed)
      nothing_underway.0 quiet nothing_underway.1 nothing_underway.2 pkt-Waits
