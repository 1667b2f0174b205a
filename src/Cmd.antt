-- ===== src/Cmd.antt =====
-- The command processor of src/cmd.c and src/cmd.h: a ready packet is answered, handed on or freed,
-- and a packet that does not end is given up.
pub mod Buffer
pub mod Address
pub mod Speak
pub mod Stale
pub mod Recover
pub mod Reply
pub mod Assign
pub mod Ack
pub mod Load
pub mod Link
pub mod Exchange
pub mod Inquiry
pub mod Report
pub mod Show
pub mod Discover
pub mod Code
use bmsnode_firmware.Prelude.{
  ℕ, ◌+◌, ◌*◌, ◌/◌, Bool, true, false, ◌&&◌, ◌||◌, List, [], ◌∷◌, ◌++◌, ◌==◌, if◌then◌else◌, u8,
  get_or, set, replicate,
}
use bmsnode_firmware.Prelude.Int.{ℤ, to_u16}
use bmsnode_firmware.Pkt.{
  PktPtr, null, rxbuf_ptr, pkt_flag_reply, pkt_is_active, pkt_reset, pkt_rx_free, pkt_ready,
  pkt_send,
}
use bmsnode_firmware.Tmr.{tmr_set, tmr_expired}
use bmsnode_firmware.Cfg.{Eeprom, cfg_uid, cfg_board_type, cfg_set, cfg_get, cfg_store, cfg_reset}
use bmsnode_firmware.Cfg.Offset
use bmsnode_firmware.Adc.{
  board_temp, ext_temp, mcu_temp, adc_get_raw, adc_get_cellmv, adc_get_temp_c,
}
use bmsnode_firmware.Shunt.{shunt_get_status, shunt_get_pwm}
use bmsnode_firmware.TestMode.{TestMode, testmode_off, testmode_on}
use bmsnode_firmware.Board.{Board}
use bmsnode_firmware.Node.{Node, Env}
use bmsnode_firmware.Cmd.Code.{
  cmd_ping, cmd_dfu_code, cmd_uid_code, cmd_addr_code, cmd_adcraw_code, cmd_status_code,
  cmd_shunton, cmd_shuntoff, cmd_setparm_code, cmd_getparm_code, cmd_testmode_code, cmd_factory,
  node_id, pkt_addr, pkt_cmd, pkt_len, pkt_payload, status_code, word_bytes, ticks_of,
}

-- Asks for a software reset; the code that follows runs only until the reset comes.
unfoldable pub cmd_dfu : Node → Node × Bool
cmd_dfu n = (record n { mcu = record n.mcu { swrr = true } }, false)

abbrev pub uid_bytes : ℕ → List ℕ
uid_bytes uid = u8 uid ∷ u8 (uid / 256) ∷ u8 (uid / 65536) ∷ u8 (uid / 16777216) ∷ []

-- The four bytes of `pktuid`, as a 32 bit number.
abbrev pub pkt_uid : Node → ℕ
pkt_uid n =
    let p = pkt_payload n in
    get_or p 0 0 + 256 * get_or p 1 0 + 65536 * get_or p 2 0 + 16777216 * get_or p 3 0

abbrev pub temp_bytes : ℤ → List ℕ
temp_bytes t = word_bytes (to_u16 t)

abbrev pub has_key : List ℕ → Bool
has_key payload = get_or payload 1 0 == 0xCA && get_or payload 2 0 == 0xFE

abbrev pub run_testmode : Node → Node
run_testmode n =
    let p = pkt_payload n in
    let start : ℕ → ℕ → TestMode × Board = λ val0 val1.
      testmode_on (ticks_of n) n.cfg.parms (get_or p 0 0) val0 val1 (n.test, n.board) in
    let (test, board) =
      if get_or p 0 0 == 0
      then testmode_off (n.test, n.board)
      else if has_key p
      then if pkt_len n == 5 then start (get_or p 3 0) (get_or p 4 0) else start 0 0
      else (n.test, n.board) in
    record n { test = test; board = board }

-- What follows when no packet is returned: the timeout of a packet that is under way.
unfoldable pub watch_packet : Node → Node
watch_packet n =
    if n.pkt_waiting
    then if tmr_expired (ticks_of n) n.pkt_timeout
      then record n { pkt = pkt_reset n.pkt; pkt_waiting = false }
      else n
    else if pkt_is_active n.pkt
    then record n { pkt_timeout = tmr_set (ticks_of n) 5000; pkt_waiting = true }
    else n

-- A packet after its command, and the way on.
abbrev pub finish_command : Node × Bool → Node × PktPtr
finish_command (n, ret) =
    if ret then (n, rxbuf_ptr) else (watch_packet (record n { pkt = pkt_rx_free n.pkt }), null)

module _ (crc8 : ℕ → ℕ → ℕ) (ee : Eeprom) (env : Env) where
  -- `pkt_send` with the reply flag.
  abbrev pub send_reply : Node → ℕ → ℕ → List ℕ → ℕ → Node × Bool
  send_reply n addr cmd payload len =
      let ((tx, ser), sent) = pkt_send crc8 n.tx n.ser pkt_flag_reply addr cmd payload len in
      (record n { tx = tx; ser = ser }, sent)

  unfoldable pub cmd_ack : Node → Node × Bool
  cmd_ack n = send_reply n (pkt_addr n) (pkt_cmd n) [] 0

  unfoldable pub cmd_uid : Node → Node × Bool
  cmd_uid n =
      send_reply n (node_id n) cmd_uid_code
        (uid_bytes (cfg_uid n.cfg)
          ++ cfg_board_type n.cfg
            ∷ get_or env.version 0 0
            ∷ get_or env.version 1 0
            ∷ get_or env.version 2 0
            ∷ [])
        8

  unfoldable pub cmd_addr : Node → Node × Bool
  cmd_addr n =
      if cfg_uid n.cfg == pkt_uid n
      then (let c = cfg_store crc8 ee (cfg_set crc8 ee n.cfg 2 (1 ∷ pkt_addr n ∷ [])).0 in
          let m = record n { cfg = c } in send_reply m (node_id m) cmd_addr_code (pkt_payload m) 4)
      else (n, false)

  unfoldable pub cmd_status : Node → Node × Bool
  cmd_status n =
      let b = n.board in
      let (shunt, status) = shunt_get_status (ticks_of n) b.shunt in
      let m = record n { board = record b { shunt = shunt } } in
      send_reply m (node_id m) cmd_status_code
        (word_bytes (adc_get_cellmv b.adc n.cfg.parms)
          ++ temp_bytes (adc_get_temp_c env.hw b.adc board_temp)
          ++ (status_code status ∷ shunt_get_pwm shunt ∷ [])
          ++ temp_bytes (adc_get_temp_c env.hw b.adc ext_temp)
          ++ temp_bytes (adc_get_temp_c env.hw b.adc mcu_temp))
        10

  unfoldable pub cmd_adcraw : Node → Node × Bool
  cmd_adcraw n =
      let results = adc_get_raw n.board.adc in
      send_reply n (node_id n) cmd_adcraw_code
        (word_bytes (get_or results 0 0)
          ++ word_bytes (get_or results 1 0)
          ++ word_bytes (get_or results 2 0)
          ++ word_bytes (get_or results 3 0))
        8

  unfoldable pub cmd_setparm : Node → Node × Bool
  cmd_setparm n =
      let m = record n { cfg = (cfg_set crc8 ee n.cfg (pkt_len n) (pkt_payload n)).0 } in
      send_reply m (node_id m) cmd_setparm_code (get_or (pkt_payload m) 0 0 ∷ []) 1

  -- The bytes of the buffer that are not written are not sent either.
  unfoldable pub cmd_getparm : Node → Node × Bool
  cmd_getparm n =
      let (pld, len) = cfg_get n.cfg 12 (set (replicate 12 0) 0 (get_or (pkt_payload n) 0 0)) in
      send_reply n (node_id n) cmd_getparm_code pld (if len == 0 then 1 else len)

  unfoldable pub cmd_testmode : Node → Node × Bool
  unfolding cmd_ack
  cmd_testmode n = cmd_ack (run_testmode n)

  -- The `switch` for a packet to this node.
  unfoldable pub own_command : ℕ → Node → Node × Bool
  unfolding cmd_dfu
  own_command cmd n =
      if cmd == cmd_ping
      then cmd_ack n
      else if cmd == cmd_dfu_code
      then cmd_dfu n
      else if cmd == cmd_uid_code
      then cmd_uid n
      else if cmd == cmd_adcraw_code
      then cmd_adcraw n
      else if cmd == cmd_status_code
      then cmd_status n
      else if cmd == cmd_shunton || cmd == cmd_shuntoff
      then cmd_ack n
      else if cmd == cmd_getparm_code
      then cmd_getparm n
      else if cmd == cmd_setparm_code
      then cmd_setparm n
      else if cmd == cmd_testmode_code
      then cmd_testmode n
      else if cmd == cmd_factory
      then cmd_ack (record n { cfg = cfg_reset crc8 ee n.cfg })
      else (n, false)

  -- The result is `ret`: whether the packet goes on to the caller.
  unfoldable pub run_command : Node → Node × Bool
  unfolding own_command
  run_command n =
      if pkt_cmd n == cmd_addr_code
      then cmd_addr n
      else if node_id n == 0
      then if pkt_addr n == 0 && pkt_cmd n == cmd_uid_code
        then cmd_uid n
        else (n, pkt_cmd n == cmd_dfu_code)
      else if pkt_addr n == node_id n
      then own_command (pkt_cmd n) n
      else (n, pkt_cmd n == cmd_dfu_code)

  abbrev pub process_packet : Node → PktPtr → Node × PktPtr
  process_packet n null = (watch_packet n, null)
  process_packet n rxbuf_ptr = finish_command (run_command (record n { pkt_waiting = false }))

  unfoldable pub cmd_process : Node → Node × PktPtr
  unfolding run_command watch_packet
  cmd_process n =
      let (pkt, ready) = pkt_ready n.pkt in process_packet (record n { pkt = pkt }) ready
