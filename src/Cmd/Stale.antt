-- ===== src/Cmd/Stale.antt =====
-- The packet timeout of src/cmd.c after a packet that was dropped.
use bmsnode_firmware.Prelude.{
  ℕ, ◌+◌, ◌≤◌, ◌<◌, ◌≡◌, refl, sym, ap, ◌∙◌, true, false, List, [], ◌∷◌, ◌++◌, arith, ◌==◌, u16,
  length, All,
}
use bmsnode_firmware.Pkt.{
  null, rxbuf_ptr, rx_search, preamble, parse_all, pkt_is_active, pkt_reset, in_search_or_sync,
}
use bmsnode_firmware.Pkt.Frame.{Packet, body, opened, packet_crc}
use bmsnode_firmware.Pkt.Idle.{length-parse_all, unseen}
use bmsnode_firmware.Pkt.Receive.{receive_lem}
use bmsnode_firmware.Pkt.Steps.{parse_all-append}
use bmsnode_firmware.Tmr.{tmr_set, tmr_expired}
use mathlib.Core.Path.{subst}
use bmsnode_firmware.Cfg.{Eeprom}
use bmsnode_firmware.Node.{Node, Env}
use bmsnode_firmware.Cmd.{tmr_expired, watch_packet, cmd_process}
use bmsnode_firmware.Cmd.Code.{ticks_of}
use bmsnode_firmware.Cmd.Exchange.{Waits, receive_bytes, receive_bytes-pkt}
use bmsnode_firmware.Cmd.Recover.{nothing_ready, starts_waiting}

module _ (crc8 : ℕ → ℕ → ℕ) (ee : Eeprom) (env : Env) where
  -- A packet with a wrong check byte, seen under way once.
  record Dropped (n m : Node) : Type 0 where
    node : m ≡ record n { pkt = m.pkt; pkt_timeout = tmr_set (ticks_of n) 5000; pkt_waiting = true }
    idle : m.pkt.state ≡ rx_search
    free : m.pkt.rxbuf_inuse ≡ false
    nothing : m.pkt.ready_packet ≡ null
    size : length m.pkt.rxbuf ≡ 16

  pass-Dropped :
      (n : Node) (k : ℕ) (p : Packet) (c : ℕ) (first rest : List ℕ)
      → Waits n.pkt
      → n.pkt.ready_packet ≡ null
      → n.pkt_waiting ≡ false
      → length p.payload ≤ 12
      → (c == packet_crc crc8 p) ≡ false
      → first ++ rest ≡ opened k (body p ++ c ∷ [])
      → (parse_all crc8 n.pkt first).ready_packet ≡ null
      → pkt_is_active (parse_all crc8 n.pkt first) ≡ true
      → Dropped n (receive_bytes crc8 rest (cmd_process crc8 ee env (receive_bytes crc8 first n)).0)
  pass-Dropped n k p c first rest w blank off le wrong split still active =
      let a = record n { pkt = parse_all crc8 n.pkt first } in
      let b = record a { pkt_timeout = tmr_set (ticks_of n) 5000; pkt_waiting = true } in
      let passed : cmd_process crc8 ee env (receive_bytes crc8 first n) ≡ (b, null) =
        ap (cmd_process crc8 ee env) (receive_bytes-pkt crc8 first n)
        ∙ nothing_ready crc8 ee env a still
        ∙ ap (λ x. (x, null)) (starts_waiting crc8 ee env a active off) in
      let whole : parse_all crc8 b.pkt rest ≡ parse_all crc8 n.pkt (opened k (body p ++ c ∷ [])) =
        sym (parse_all-append crc8 first rest n.pkt) ∙ ap (parse_all crc8 n.pkt) split in
      let (st, bytes, ready, inuse) = receive_lem crc8 k p c n.pkt le w.state w.free w.size in
      rw (passed, receive_bytes-pkt crc8 rest b, whole)
        (record {
          node = refl;
          idle = st;
          free = inuse ∙ wrong;
          nothing = rw wrong at ready ∙ blank;
          size = length-parse_all crc8 n.pkt _ ∙ w.size;
        })

  -- A timeout that has run out while a packet is under way.
  cut_off :
      (n : Node) (first rest : List ℕ)
      → n.pkt_waiting ≡ true
      → tmr_expired (ticks_of n) n.pkt_timeout ≡ true
      → (parse_all crc8 n.pkt first).ready_packet ≡ null
      → All (λ b. (b == preamble) ≡ false) rest
      → (receive_bytes crc8 rest
          (cmd_process crc8 ee env (receive_bytes crc8 first n)).0).pkt.ready_packet
        ≡ null
  unfolding watch_packet pkt_reset
  cut_off n first rest waiting over still plain =
      let a = record n { pkt = parse_all crc8 n.pkt first } in
      let b = record a { pkt = pkt_reset a.pkt; pkt_waiting = false } in
      let watched : watch_packet a ≡ b = rw (waiting, over) refl in
      let passed : cmd_process crc8 ee env (receive_bytes crc8 first n) ≡ (b, null) =
        ap (cmd_process crc8 ee env) (receive_bytes-pkt crc8 first n)
        ∙ nothing_ready crc8 ee env a still
        ∙ ap (λ x. (x, null)) watched in
      rw (passed, receive_bytes-pkt crc8 rest b, unseen crc8 b.pkt rest refl plain) refl

  timed_out :
      (start later : ℕ)
      → start < 65536
      → 5000 ≤ later
      → later < 37768
      → tmr_expired (u16 (start + later)) (tmr_set start 5000) ≡ true
  unfolding tmr_expired tmr_set
  timed_out start later h more few = ground arith

  -- A packet with a wrong check byte is dropped, after cmd_process has seen it under way and set the
  -- timeout of 5 seconds. When that has run out, and less than 32 seconds after it, a good packet
  -- comes in, with a call of cmd_process after its first bytes. Then the timeout of the dropped
  -- packet resets the parser in the middle of the good packet: if the rest of it has no preamble
  -- byte, nothing gets ready, though the packet would be ready without that call.
  pub stale_timeout :
      (n m : Node) (k j later c : ℕ) (p q : Packet) (first rest first' rest' : List ℕ)
      → Waits n.pkt
      → n.pkt.ready_packet ≡ null
      → n.pkt_waiting ≡ false
      → ticks_of n < 65536
      → length p.payload ≤ 12
      → (c == packet_crc crc8 p) ≡ false
      → first ++ rest ≡ opened k (body p ++ c ∷ [])
      → (parse_all crc8 n.pkt first).ready_packet ≡ null
      → pkt_is_active (parse_all crc8 n.pkt first) ≡ true
      → 5000 ≤ later
      → later < 37768
      → length q.payload ≤ 12
      → first' ++ rest' ≡ opened j (body q ++ packet_crc crc8 q ∷ [])
      → All (λ b. (b == preamble) ≡ false) rest'
      → m ≡ receive_bytes crc8 rest (cmd_process crc8 ee env (receive_bytes crc8 first n)).0
      → (parse_all crc8 m.pkt first').ready_packet ≡ null
      → let k = record m { tmr = record m.tmr { systick = u16 (ticks_of n + later) } } in
        (m.pkt.ready_packet ≡ null)
        × ((receive_bytes crc8 rest'
              (cmd_process crc8 ee env (receive_bytes crc8 first' k)).0).pkt.ready_packet
            ≡ null)
        × ((receive_bytes crc8 (first' ++ rest') k).pkt.ready_packet ≡ rxbuf_ptr)
  stale_timeout n m k j later c p q first rest first' rest' w blank off ticks le wrong split still
        active more few le' split' plain e still' =
      let d =
        subst (Dropped n) (sym e)
          (pass-Dropped n k p c first rest w blank off le wrong split still active) in
      let a = record m { tmr = record m.tmr { systick = u16 (ticks_of n + later) } } in
      let waiting : m.pkt_waiting ≡ true = ap (λ (x : Node). x.pkt_waiting) d.node in
      let over : tmr_expired (ticks_of a) m.pkt_timeout ≡ true =
        ap (λ (x : Node). tmr_expired (ticks_of a) x.pkt_timeout) d.node
        ∙ timed_out (ticks_of n) later ticks more few in
      let good : (packet_crc crc8 q == packet_crc crc8 q) ≡ true = ground arith in
      let (st, bytes, ready, inuse) =
        receive_lem crc8 j q (packet_crc crc8 q) m.pkt le' (ap in_search_or_sync d.idle) d.free
          d.size in
      (
        d.nothing,
        cut_off a first' rest' waiting over still' plain,
        ap (λ (x : Node). x.pkt.ready_packet) (receive_bytes-pkt crc8 (first' ++ rest') a)
            ∙ ap (λ l. (parse_all crc8 m.pkt l).ready_packet) split'
            ∙ rw good at ready,
      )
