-- ===== src/Pkt/Receive.antt =====
-- What the receive state machine of src/pkt.c makes of the bytes of a packet, right or wrong.
use bmsnode_firmware.Prelude.{
  ℕ, ◌+◌, ◌≤◌, ◌<◌, ◌≡◌, refl, true, false, [], ◌∷◌, ◌++◌, arith, ◌==◌, if◌then◌else◌, length,
  get_or, take,
}
use bmsnode_firmware.Pkt.{
  Pkt, RxState, rx_search, rx_sync, rx_header, rx_data, rx_check, null, rxbuf_ptr,
  in_search_or_sync, dispatch, pkt_parser, parse_all,
}
use bmsnode_firmware.Pkt.Bounds.{IsValid, crc_of}
use bmsnode_firmware.Pkt.Frame.{Packet, body, opened, packet_crc}
use bmsnode_firmware.Pkt.Steps.{
  at_length, length_ok, length_too_big, data_loop, check_step, opening, header_3, phases,
}

module _ (crc8 : ℕ → ℕ → ℕ) where
  dispatch_checked :
      (st : RxState) (s : Pkt) (b : ℕ)
      → s.state ≡ st
      → IsValid crc8 s
      → s.ready_packet ≡ null
      → (dispatch crc8 st s b).ready_packet ≡ rxbuf_ptr
      → let buf = (dispatch crc8 st s b).rxbuf in
        (get_or buf 3 0 ≤ 12) × (b ≡ crc_of crc8 (4 + get_or buf 3 0) buf)
  unfolding dispatch
  dispatch_checked rx_search s b e v n r = ground arith
  dispatch_checked rx_sync s b e v n r = ground arith
  dispatch_checked rx_header s b e v n r = ground arith
  dispatch_checked rx_data s b e v n r = ground arith
  dispatch_checked rx_check s b e v n r = ground (arith, v.check e)

  -- A packet becomes ready only when its check byte is the crc of the stored header and payload,
  -- whose length field is at most 12.
  pub ready_checked :
      (s : Pkt) (b : ℕ)
      → IsValid crc8 s
      → s.ready_packet ≡ null
      → (pkt_parser crc8 s b).ready_packet ≡ rxbuf_ptr
      → let buf = (pkt_parser crc8 s b).rxbuf in
        (get_or buf 3 0 ≤ 12) × (b ≡ crc_of crc8 (4 + get_or buf 3 0) buf)
  unfolding pkt_parser
  ready_checked s b v n r = dispatch_checked s.state s b refl v n r

  -- The bytes of a packet with a payload of at most 12, behind any preambles and with any check
  -- byte, reach a parser that waits and whose buffer is free: header and payload are stored, and
  -- the packet becomes ready exactly when the check byte is its crc; otherwise the buffer is free
  -- again and what was ready stays.
  pub receive_lem :
      (k : ℕ) (p : Packet) (c : ℕ) (s : Pkt)
      → length p.payload ≤ 12
      → in_search_or_sync s.state ≡ true
      → s.rxbuf_inuse ≡ false
      → length s.rxbuf ≡ 16
      → let t = parse_all crc8 s (opened k (body p ++ c ∷ [])) in
        let good = c == packet_crc crc8 p in
        (t.state ≡ rx_search)
        × (take (4 + length p.payload) t.rxbuf ≡ body p)
        × (t.ready_packet ≡ (if good then rxbuf_ptr else s.ready_packet))
        × (t.rxbuf_inuse ≡ good)
  receive_lem k p c s le e u v =
      let h = header_3 crc8 s p.flags p.addr p.cmd v in
      let n = length p.payload in
      let counted = length_ok crc8 (p.flags ∷ p.addr ∷ p.cmd ∷ []) n h refl le in
      let all =
        data_loop crc8 p.payload (p.flags ∷ p.addr ∷ p.cmd ∷ n ∷ [])
          (pkt_parser crc8 (at_length crc8 s p) n) counted.0 counted.1 le (omega arith) in
      let four : 4 + n ≡ length (body p) = omega arith in
      rw (opening crc8 k (body p ++ c ∷ []) s e u, phases crc8 s p c, four)
        (check_step crc8 (body p) c all)

  -- A header whose length byte is above 12 frees the buffer, makes nothing ready, and leaves the
  -- parser waiting for the next packet.
  pub receive_too_long :
      (k flags addr cmd n : ℕ) (s : Pkt)
      → 12 < n
      → in_search_or_sync s.state ≡ true
      → s.rxbuf_inuse ≡ false
      → length s.rxbuf ≡ 16
      → let t = parse_all crc8 s (opened k (flags ∷ addr ∷ cmd ∷ n ∷ [])) in
        (t.state ≡ rx_search) × (t.rxbuf_inuse ≡ false) × (t.ready_packet ≡ s.ready_packet)
  unfolding parse_all
  receive_too_long k flags addr cmd n s big e u v =
      rw (opening crc8 k (flags ∷ addr ∷ cmd ∷ n ∷ []) s e u) (
        length_too_big crc8 (flags ∷ addr ∷ cmd ∷ []) n (header_3 crc8 s flags addr cmd v) refl big)
