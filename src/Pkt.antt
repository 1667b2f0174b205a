-- ===== src/Pkt.antt =====
-- The packet processor of src/pkt.c and src/pkt.h: the receive state machine, the one receive
-- buffer with its owner flag, and the assembly of outgoing packets.
pub mod Bounds
pub mod Owner
pub mod Frame
pub mod Steps
pub mod Receive
pub mod Send
pub mod Corrupt
pub mod Ends
pub mod Flush
pub mod Idle
use bmsnode_firmware.Prelude.{
  ℕ, zero, suc, ◌+◌, Bool, true, false, not, ◌||◌, List, [], ◌∷◌, ◌++◌, ltb, ◌==◌, if◌then◌else◌,
  u8, get_or, set,
}
use bmsnode_firmware.Ser.{Ser, ser_write}

abbrev pub preamble : ℕ
preamble = 0x55

abbrev pub sync : ℕ
sync = 0xF0

abbrev pub pkt_header_len : ℕ
pkt_header_len = 4

abbrev pub pkt_payload_len : ℕ
pkt_payload_len = 12

abbrev pub pkt_flag_reply : ℕ
pkt_flag_reply = 0x80

pub data RxState : Type 0 where
  rx_search rx_sync rx_header rx_data rx_check : RxState

-- A `packet_t *` is null or points to the one receive buffer.
pub data PktPtr : Type 0 where
  null rxbuf_ptr : PktPtr

-- The statics of pkt.c and of `pkt_parser`.
pub record Pkt : Type 0 where
  pub state : RxState
  pub rxbuf_inuse : Bool
  pub rxbuf : List ℕ
  pub ready_packet : PktPtr
  pub idx : ℕ
  pub crc : ℕ
  pub len : ℕ
  pub pbuf : PktPtr

abbrev pub is_null : PktPtr → Bool
is_null null = true
is_null rxbuf_ptr = false

abbrev pub in_search_or_sync : RxState → Bool
in_search_or_sync rx_search = true
in_search_or_sync rx_sync = true
in_search_or_sync _ = false

unfoldable pub pkt_is_active : Pkt → Bool
pkt_is_active s = s.rxbuf_inuse || not (is_null s.ready_packet) || not (in_search_or_sync s.state)

unfoldable pub pkt_reset : Pkt → Pkt
pkt_reset s = record s { state = rx_search; rxbuf_inuse = false; ready_packet = null }

unfoldable pub pkt_rx_free : Pkt → Pkt
pkt_rx_free s = record s { rxbuf_inuse = false }

unfoldable pub pkt_rx_alloc : Pkt → Pkt × PktPtr
pkt_rx_alloc s = if s.rxbuf_inuse then (s, null) else (record s { rxbuf_inuse = true }, rxbuf_ptr)

unfoldable pub pkt_ready : Pkt → Pkt × PktPtr
pkt_ready s = (record s { ready_packet = null }, s.ready_packet)

-- `pbuf[idx] = byte`. A write through the null pointer or past the 16 bytes is out of the model:
-- nothing changes, and Pkt/Bounds.antt shows that there is none.
abbrev pub write_pbuf : PktPtr → List ℕ → ℕ → ℕ → List ℕ
write_pbuf null buf i byte = buf
write_pbuf rxbuf_ptr buf i byte = set buf i byte

module _ (crc8 : ℕ → ℕ → ℕ) where
  -- The three lines that the header and the data state share.
  abbrev pub take_byte : Pkt → ℕ → Pkt
  take_byte s nextbyte = record s {
    crc = crc8 s.crc nextbyte;
    rxbuf = write_pbuf s.pbuf s.rxbuf s.idx nextbyte;
    idx = u8 (s.idx + 1);
  }

  -- The case `RX_SYNC`, with `pbuf` as allocated.
  abbrev pub start_packet : Pkt × PktPtr → Pkt
  start_packet (s, null) = record s { pbuf = null; state = rx_search }
  start_packet (s, rxbuf_ptr) = record s { pbuf = rxbuf_ptr; state = rx_header; idx = 0; crc = 0 }

  -- `PKT_GET_LEN`, the test of the length, and the state that it leads to.
  abbrev pub end_header : Pkt → Pkt
  unfolding pkt_rx_free
  end_header s =
      let len = get_or s.rxbuf 3 0 in
      let t = record s { len = len } in
      if len == 0
      then record t { state = rx_check }
      else if ltb pkt_payload_len len
      then record (pkt_rx_free t) { state = rx_search }
      else record t { state = rx_data }

  -- The `switch` of `pkt_parser`.
  pub dispatch : RxState → Pkt → ℕ → Pkt
  unfolding pkt_rx_alloc pkt_rx_free
  dispatch rx_search s nextbyte = if nextbyte == preamble then record s { state = rx_sync } else s
  dispatch rx_sync s nextbyte =
      if nextbyte == sync
      then start_packet (pkt_rx_alloc s)
      else if nextbyte == preamble
      then s
      else record s { state = rx_search }
  dispatch rx_header s nextbyte =
      let t = take_byte s nextbyte in if t.idx == pkt_header_len then end_header t else t
  dispatch rx_data s nextbyte =
      let t = take_byte s nextbyte in
      let u = record t { len = u8 (t.len + 255) } in
      if u.len == 0 then record u { state = rx_check } else u
  dispatch rx_check s nextbyte =
      let t = record s { state = rx_search } in
      if nextbyte == s.crc then record t { ready_packet = s.pbuf } else pkt_rx_free t

  unfoldable pub pkt_parser : Pkt → ℕ → Pkt
  unfolding dispatch
  pkt_parser s nextbyte = dispatch s.state s nextbyte

  -- Bytes that arrive one after another.
  unfoldable pub parse_all : Pkt → List ℕ → Pkt
  parse_all s [] = s
  parse_all s (b ∷ bs) = parse_all (pkt_parser s b) bs

-- `txpkt`: the constant preambles and sync byte, and the 17 bytes of its `packet_t`.
pub record TxPacket : Type 0 where
  pub preambles : List ℕ
  pub sync_byte : ℕ
  pub pkt : List ℕ

abbrev pub write_header : List ℕ → ℕ → ℕ → ℕ → ℕ → List ℕ
write_header pkt flags addr cmd len = set (set (set (set pkt 0 flags) 1 addr) 2 cmd) 3 len

module _ (crc8 : ℕ → ℕ → ℕ) where
  -- The crc over the header: `n` bytes from `idx` on.
  pub crc_loop : ℕ → ℕ → List ℕ → ℕ → ℕ
  crc_loop zero idx pkt crc = crc
  crc_loop (suc n) idx pkt crc = crc_loop n (idx + 1) pkt (crc8 crc (get_or pkt idx 0))

  -- Copies `n` payload bytes from `idx` on, and goes on with the crc. The payload stands at offset
  -- 4 of the packet.
  pub payload_loop : ℕ → ℕ → List ℕ → List ℕ → ℕ → List ℕ × ℕ
  payload_loop zero idx payload pkt crc = (pkt, crc)
  payload_loop (suc n) idx payload pkt crc =
      payload_loop n (idx + 1) payload (set pkt (4 + idx) (get_or payload idx 0))
        (crc8 crc (get_or payload idx 0))

  -- The assembled packet, its crc behind the payload.
  pub assemble : List ℕ → ℕ → ℕ → ℕ → List ℕ → ℕ → List ℕ
  unfolding crc_loop payload_loop
  assemble pkt flags addr cmd payload len =
      let hdr = write_header pkt flags addr cmd len in
      let (body, crc) = payload_loop len 0 payload hdr (crc_loop 4 0 hdr 0) in
      set body (4 + len) crc

  unfoldable pub pkt_send : TxPacket → Ser → ℕ → ℕ → ℕ → List ℕ → ℕ → (TxPacket × Ser) × Bool
  unfolding assemble
  pkt_send tx ser flags addr cmd payload len =
      if ltb pkt_payload_len len
      then ((tx, ser), false)
      else let pkt = assemble tx.pkt flags addr cmd payload len in
        let total = u8 (4 + 1 + 4 + len + 1) in
        let (ser', n) = ser_write ser (tx.preambles ++ tx.sync_byte ∷ pkt) total in
        ((record tx { pkt = pkt }, ser'), n == total)
