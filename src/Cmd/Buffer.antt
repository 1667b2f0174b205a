-- ===== src/Cmd/Buffer.antt =====
-- The receive buffer under the command processor of src/cmd.c: what it returns is held, and
-- everything else is freed.
use bmsnode_firmware.Prelude.{ℕ, ◌≡◌, refl, Bool, true, false, not, arith}
use bmsnode_firmware.Pkt.{PktPtr, null, rxbuf_ptr, is_null, pkt_ready, pkt_rx_free}
use bmsnode_firmware.Pkt.Owner.{System, IsOwned, pick_up, free, reset, here, next, Reach-IsOwned}
use bmsnode_firmware.Cfg.{Eeprom}
use bmsnode_firmware.Node.{Node, Env}
use bmsnode_firmware.Cmd.{
  cmd_dfu, own_command, run_command, watch_packet, finish_command, process_packet, cmd_process,
  cmd_ack, cmd_uid, cmd_addr, cmd_status, cmd_adcraw, cmd_setparm, cmd_getparm, cmd_testmode,
}
use bmsnode_firmware.Cmd.Code.{pkt_cmd}

-- The command processor and its caller, as the client of the packet processor.
abbrev pub client : Node × PktPtr → System
client (n, p) = record { pkt = n.pkt; held = not (is_null p) }

module _ (crc8 : ℕ → ℕ → ℕ) (ee : Eeprom) (env : Env) where
  own_command-pkt : (cmd : ℕ) (n : Node) → (own_command crc8 ee env cmd n).0.pkt ≡ n.pkt
  unfolding own_command cmd_ack cmd_uid cmd_status cmd_adcraw cmd_setparm cmd_getparm cmd_testmode
  own_command-pkt cmd n = ground arith

  pub run_command-pkt : (n : Node) → (run_command crc8 ee env n).0.pkt ≡ n.pkt
  unfolding run_command cmd_uid cmd_addr
  run_command-pkt n = ground (arith, own_command-pkt (pkt_cmd n) n)

  own_command-wdt :
      (cmd : ℕ) (n : Node) → (own_command crc8 ee env cmd n).0.mcu.wdt_enabled ≡ n.mcu.wdt_enabled
  unfolding own_command cmd_ack cmd_dfu cmd_uid cmd_status cmd_adcraw cmd_setparm cmd_getparm
      cmd_testmode
  own_command-wdt cmd n = ground arith

  pub run_command-wdt :
      (n : Node) → (run_command crc8 ee env n).0.mcu.wdt_enabled ≡ n.mcu.wdt_enabled
  unfolding run_command cmd_uid cmd_addr
  run_command-wdt n = ground (arith, own_command-wdt (pkt_cmd n) n)

  process_packet-wdt :
      (n : Node) (p : PktPtr)
      → (process_packet crc8 ee env n p).0.mcu.wdt_enabled ≡ n.mcu.wdt_enabled
  unfolding watch_packet
  process_packet-wdt n null = ground arith
  process_packet-wdt n rxbuf_ptr =
      ground (arith, run_command-wdt (record n { pkt_waiting = false }))

  pub cmd_process-wdt :
      (n : Node) → (cmd_process crc8 ee env n).0.mcu.wdt_enabled ≡ n.mcu.wdt_enabled
  unfolding cmd_process
  cmd_process-wdt n =
      process_packet-wdt (record n { pkt = (pkt_ready n.pkt).0 }) (pkt_ready n.pkt).1

  own_command-tmr : (cmd : ℕ) (n : Node) → (own_command crc8 ee env cmd n).0.tmr ≡ n.tmr
  unfolding own_command cmd_ack cmd_dfu cmd_uid cmd_status cmd_adcraw cmd_setparm cmd_getparm
      cmd_testmode
  own_command-tmr cmd n = ground arith

  pub run_command-tmr : (n : Node) → (run_command crc8 ee env n).0.tmr ≡ n.tmr
  unfolding run_command cmd_uid cmd_addr
  run_command-tmr n = ground (arith, own_command-tmr (pkt_cmd n) n)

  process_packet-tmr : (n : Node) (p : PktPtr) → (process_packet crc8 ee env n p).0.tmr ≡ n.tmr
  unfolding watch_packet
  process_packet-tmr n null = ground arith
  process_packet-tmr n rxbuf_ptr =
      ground (arith, run_command-tmr (record n { pkt_waiting = false }))

  pub cmd_process-tmr : (n : Node) → (cmd_process crc8 ee env n).0.tmr ≡ n.tmr
  unfolding cmd_process
  cmd_process-tmr n =
      process_packet-tmr (record n { pkt = (pkt_ready n.pkt).0 }) (pkt_ready n.pkt).1

  watch_packet-IsOwned :
      (n : Node) → IsOwned crc8 (client (n, null)) → IsOwned crc8 (client (watch_packet n, null))
  unfolding watch_packet
  watch_packet-IsOwned n o =
      let y = client (n, null) in ground (arith, Reach-IsOwned crc8 o (next here (reset y refl)))

  finish_command-IsOwned :
      (out : Node × Bool)
      → IsOwned crc8 (client (out.0, rxbuf_ptr))
      → IsOwned crc8 (client (finish_command out))
  finish_command-IsOwned (n, true) o = o
  finish_command-IsOwned (n, false) o =
      let y = client (n, rxbuf_ptr) in
      watch_packet-IsOwned (record n { pkt = pkt_rx_free n.pkt })
        (Reach-IsOwned crc8 o (next here (free y refl)))

  process_packet-IsOwned :
      (n : Node) (p : PktPtr)
      → IsOwned crc8 (client (n, p))
      → IsOwned crc8 (client (process_packet crc8 ee env n p))
  process_packet-IsOwned n null o = watch_packet-IsOwned n o
  process_packet-IsOwned n rxbuf_ptr o =
      let m = record n { pkt_waiting = false } in
      finish_command-IsOwned (run_command crc8 ee env m) (rw (run_command-pkt m) o)

  -- The command processor never leaks the receive buffer: if the buffer has one owner before, and
  -- that is not the caller, then it has one owner after, which is the caller exactly when a packet
  -- is returned.
  pub cmd_process-IsOwned :
      (n : Node)
      → IsOwned crc8 (client (n, null))
      → IsOwned crc8 (client (cmd_process crc8 ee env n))
  unfolding cmd_process
  cmd_process-IsOwned n o =
      let (pkt, ready) = pkt_ready n.pkt in
      process_packet-IsOwned (record n { pkt = pkt }) ready
        (Reach-IsOwned crc8 o (next here (pick_up (client (n, null)) refl)))
