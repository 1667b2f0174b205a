-- ===== src/Cmd/Recover.antt =====
-- A packet that does not end, in src/cmd.c: the packet processor is given up after five seconds.
use bmsnode_firmware.Prelude.{ℕ, ◌+◌, ◌≤◌, ◌<◌, ◌≡◌, refl, sym, ap, ◌∙◌, true, false, arith, u16}
use bmsnode_firmware.Pkt.{Pkt, null, pkt_is_active, pkt_reset, pkt_ready}
use bmsnode_firmware.Tmr.{tmr_expired, tmr_set, tmr_expired}
use bmsnode_firmware.Cfg.{Eeprom}
use bmsnode_firmware.Node.{Node, Env}
use bmsnode_firmware.Cmd.{watch_packet, process_packet, cmd_process}
use bmsnode_firmware.Cmd.Code.{ticks_of}

module _ (crc8 : ℕ → ℕ → ℕ) (ee : Eeprom) (env : Env) where
  pub nothing_ready :
      (n : Node) → n.pkt.ready_packet ≡ null → cmd_process crc8 ee env n ≡ (watch_packet n, null)
  unfolding cmd_process pkt_ready
  nothing_ready n h =
      ap (process_packet crc8 ee env (record n { pkt = (pkt_ready n.pkt).0 })) h
      ∙ ap (λ p. (watch_packet (record n { pkt = record n.pkt { ready_packet = p } }), null))
          (sym h)

  pub starts_waiting :
      (n : Node)
      → pkt_is_active n.pkt ≡ true
      → n.pkt_waiting ≡ false
      → watch_packet n ≡ record n { pkt_timeout = tmr_set (ticks_of n) 5000; pkt_waiting = true }
  unfolding watch_packet
  starts_waiting n a w = rw (w, a) refl

  -- Once the processor is seen active with no packet ready, and no packet gets ready, it is seen
  -- active until 5 seconds have passed and is idle after the next look at it in the 32 seconds
  -- that follow: its buffer is free, and a new packet can begin.
  pub cmd_process_recovers :
      (n : Node) (later : ℕ) (pkt : Pkt)
      → n.pkt.ready_packet ≡ null
      → pkt_is_active n.pkt ≡ true
      → n.pkt_waiting ≡ false
      → n.tmr.systick < 65536
      → pkt.ready_packet ≡ null
      → later < 37768
      → let m = (cmd_process crc8 ee env n).0 in
        let k = record m {
          pkt = pkt;
          tmr = record m.tmr { systick = u16 (n.tmr.systick + later) };
        } in
        let out = cmd_process crc8 ee env k in
        (later < 5000 → out.0 ≡ k)
        × (5000 ≤ later
            → (out.0.pkt ≡ pkt_reset pkt)
              × (pkt_is_active out.0.pkt ≡ false)
              × (out.0.pkt_waiting ≡ false))
  unfolding watch_packet pkt_reset pkt_is_active tmr_set tmr_expired
  cmd_process_recovers n later pkt r a w t r' l =
      let m = record n { pkt_timeout = tmr_set (ticks_of n) 5000; pkt_waiting = true } in
      let first : cmd_process crc8 ee env n ≡ (m, null) =
        nothing_ready n r ∙ ap (λ x. (x, null)) (starts_waiting n a w) in
      let k = record m {
        pkt = pkt;
        tmr = record m.tmr { systick = u16 (n.tmr.systick + later) };
      } in
      let second = nothing_ready k r' in rw (first, second) (ground arith)
