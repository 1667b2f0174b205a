-- ===== src/Pkt/Flush.antt =====
-- The receive state machine of src/pkt.c under a row of preambles, by which doc/packet.md resets the
-- parsers of all nodes on the bus.
use bmsnode_firmware.Prelude.{
  ℕ, zero, suc, ◌+◌, ◌-◌, ◌≤◌, ◌≡◌, refl, ◌∙◌, ◌⊎◌, inl, inr, true, false, List, [], ◌∷◌, ◌++◌,
  arith, ◌==◌, Bool-cases, length, replicate, get_or-set_self,
}
use bmsnode_firmware.Pkt.{
  rxbuf_ptr, pkt_parser, parse_all, in_search_or_sync, Pkt, RxState, rx_search, rx_sync, rx_header,
  rx_data, rx_check, preamble, dispatch,
}
use bmsnode_firmware.Pkt.Owner.{System, IsOwned, has_ready, byte, here, next, Reach-IsOwned}
use bmsnode_firmware.Pkt.Frame.{Packet, body, opened, packet_crc}
use bmsnode_firmware.Pkt.Receive.{receive_lem}
use bmsnode_firmware.Pkt.Bounds.{pkt_parser-IsValid, IsValid}

-- The most preambles until the parser waits: as the fourth byte of a header a preamble is a length
-- that is too large.
abbrev to_flush : RxState → Pkt → ℕ
to_flush rx_search s = 0
to_flush rx_sync s = 0
to_flush rx_header s = 4 - s.idx
to_flush rx_data s = s.len + 1
to_flush rx_check s = 1

module _ (crc8 : ℕ → ℕ → ℕ) where
  dispatch-preamble :
      (st : RxState) (s : Pkt)
      → s.state ≡ st
      → IsValid crc8 s
      → let t = dispatch crc8 st s preamble in to_flush t.state t ≤ to_flush st s - 1
  unfolding dispatch
  dispatch-preamble rx_search s e v = ground arith
  dispatch-preamble rx_sync s e v = ground arith
  dispatch-preamble rx_header s e v =
      ground (arith, v.header e, v.size, get_or-set_self s.rxbuf s.idx preamble 0)
  dispatch-preamble rx_data s e v = ground (arith, v.payload e)
  dispatch-preamble rx_check s e v = ground arith

  pub flush : ℕ → Pkt → Pkt
  flush m s = parse_all crc8 s (replicate m preamble)

  left_over :
      (m : ℕ) (s : Pkt)
      → IsValid crc8 s
      → IsValid crc8 (flush m s) × (to_flush (flush m s).state (flush m s) ≤ to_flush s.state s - m)
  unfolding flush parse_all pkt_parser
  left_over zero s v = (v, omega arith)
  left_over (suc m) s v =
      let t = pkt_parser crc8 s preamble in
      let one = dispatch-preamble s.state s refl v in
      let (w, few) = left_over m t (pkt_parser-IsValid crc8 s preamble v) in (w, omega arith)

  at_most_13 : (s : Pkt) → IsValid crc8 s → to_flush s.state s ≤ 13
  at_most_13 s v = ground (arith, v.payload)

  all_flushed :
      (s : Pkt) → IsValid crc8 s → to_flush s.state s ≡ 0 → in_search_or_sync s.state ≡ true
  all_flushed s v e = ground (arith, v.header)

  pub bytes-IsOwned :
      (bs : List ℕ) (y : System)
      → IsOwned crc8 y
      → IsOwned crc8 (record { pkt = parse_all crc8 y.pkt bs; held = y.held })
  unfolding parse_all
  bytes-IsOwned [] y o = record { valid = o.valid; one_owner = o.one_owner; flag = o.flag }
  bytes-IsOwned (b ∷ bs) y o =
      bytes-IsOwned bs (record y { pkt = pkt_parser crc8 y.pkt b })
        (Reach-IsOwned crc8 o (next here (byte y b)))

  unheld_flag :
      (s : Pkt)
      → IsOwned crc8 (record { pkt = s; held = false })
      → in_search_or_sync s.state ≡ true
      → s.rxbuf_inuse ≡ has_ready s
  unheld_flag s o w = ground (arith, o.flag, o.one_owner)

  good_frame :
      (k : ℕ) (p : Packet) (s : Pkt)
      → length p.payload ≤ 12
      → in_search_or_sync s.state ≡ true
      → s.rxbuf_inuse ≡ false
      → length s.rxbuf ≡ 16
      → (parse_all crc8 s (opened k (body p ++ packet_crc crc8 p ∷ []))).ready_packet ≡ rxbuf_ptr
  good_frame k p s le w free size =
      let (st, bytes, ready, inuse) = receive_lem crc8 k p (packet_crc crc8 p) s le w free size in
      let good : (packet_crc crc8 p == packet_crc crc8 p) ≡ true = ground arith in rw good at ready

  -- Whatever a well formed parser has been doing, while nobody holds its buffer: after 13 or more
  -- preambles it waits for a packet, and its buffer is free unless a packet is ready. Then the next
  -- packet, behind any preambles of its own, gets ready, unless one already is.
  pub flush-receive :
      (m k : ℕ) (p : Packet) (s : Pkt)
      → IsOwned crc8 (record { pkt = s; held = false })
      → 13 ≤ m
      → length p.payload ≤ 12
      → let t = flush m s in
        (in_search_or_sync t.state ≡ true)
        × (t.rxbuf_inuse ≡ has_ready t)
        × ((has_ready t ≡ true)
            ⊎ ((parse_all crc8 t (opened k (body p ++ packet_crc crc8 p ∷ []))).ready_packet
                ≡ rxbuf_ptr))
  unfolding flush
  flush-receive m k p s o h le =
      let t = parse_all crc8 s (replicate m preamble) in
      let (v, few) = left_over m s o.valid in
      let most = at_most_13 s o.valid in
      let waits : in_search_or_sync t.state ≡ true = all_flushed t v (omega arith) in
      let flag =
        unheld_flag t (bytes-IsOwned (replicate m preamble) (record { pkt = s; held = false }) o)
          waits in
      (
        waits,
        flag,
        elim (Bool-cases (has_ready t)) [
          | inl ready ↦ inl ready
          | inr none_ready ↦ inr (good_frame k p t le waits (flag ∙ none_ready) v.size)
        ],
      )
