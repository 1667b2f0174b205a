-- ===== src/Pkt/Send.antt =====
-- What `pkt_send` of src/pkt.c puts into the serial ring, and that a node which receives those
-- bytes has the packet.
use bmsnode_firmware.Prelude.{
  ℕ, zero, suc, ◌+◌, ◌-◌, ◌≤◌, ◌≡◌, refl, sym, ap, ◌∙◌, ◌↔◌, true, false, List, [], ◌∷◌, ◌++◌,
  append-nil, append_assoc, arith, ltb, ◌==◌, u8, length, get_or, set, take, drop, replicate,
  length-append, length-set, take-set, length-take, drop_at, take_all, take-take,
}
use bmsnode_firmware.Crc.{crc_from, crc_from-append}
use bmsnode_firmware.Ser.{Ser, buf_cnt}
use bmsnode_firmware.Ser.Queue
use bmsnode_firmware.Ser.Queue.{contents, ser_write_lem}
use bmsnode_firmware.Pkt.{
  Pkt, TxPacket, rxbuf_ptr, preamble, sync, in_search_or_sync, crc_loop, payload_loop, write_header,
  assemble, pkt_send, parse_all,
}
use bmsnode_firmware.Pkt.Frame.{Packet, body, packet_crc, wire}
use bmsnode_firmware.Pkt.Receive.{receive_lem}

-- The transmit packet as it is declared: four preambles, the sync byte and 17 bytes.
pub record IsValid (tx : TxPacket) : Type 0 where
  pub preambles : tx.preambles ≡ replicate 4 preamble
  pub sync_byte : tx.sync_byte ≡ sync
  pub size : length tx.pkt ≡ 17

-- The packet that `pkt_send` is asked for.
abbrev pub asked : ℕ → ℕ → ℕ → List ℕ → ℕ → Packet
asked flags addr cmd payload len = record {
  flags = flags;
  addr = addr;
  cmd = cmd;
  payload = take len payload;
}

length-write_header :
    (pkt : List ℕ) (flags addr cmd len : ℕ)
    → length (write_header pkt flags addr cmd len) ≡ length pkt
length-write_header pkt flags addr cmd len =
    length-set (set (set (set pkt 0 flags) 1 addr) 2 cmd) 3 len
    ∙ length-set (set (set pkt 0 flags) 1 addr) 2 cmd
    ∙ length-set (set pkt 0 flags) 1 addr
    ∙ length-set pkt 0 flags

module _ (crc8 : ℕ → ℕ → ℕ) where
  -- The payload loop has copied `n` bytes from `idx` on.
  record Copied (n idx : ℕ) (payload pkt : List ℕ) (crc : ℕ) (out : List ℕ × ℕ) : Type 0 where
    size : length out.0 ≡ length pkt
    bytes : take (4 + idx + n) out.0 ≡ take (4 + idx) pkt ++ take n (drop idx payload)
    check : out.1 ≡ crc_from crc8 crc (take n (drop idx payload))

  payload_loop-Copied :
      (n idx : ℕ) (payload pkt : List ℕ) (crc : ℕ)
      → idx + n ≤ length payload
      → 4 + idx + n ≤ length pkt
      → Copied n idx payload pkt crc (payload_loop crc8 n idx payload pkt crc)
  unfolding payload_loop crc_from
  payload_loop-Copied zero idx payload pkt crc h w =
      let e : 4 + idx + 0 ≡ 4 + idx = omega arith in
      record { size = refl; bytes = rw (e, append-nil); check = refl }
  payload_loop-Copied (suc n) idx payload pkt crc h w =
      let b = get_or payload idx 0 in
      let wrote = set pkt (4 + idx) b in
      let ih =
        payload_loop-Copied n (idx + 1) payload wrote (crc8 crc b) (omega arith)
          (omega (arith, length-set pkt (4 + idx) b)) in
      let e : 4 + idx + suc n ≡ 4 + (idx + 1) + n = omega arith in
      let e' : 4 + (idx + 1) ≡ suc (4 + idx) = omega arith in
      record {
        size = ih.size ∙ length-set pkt (4 + idx) b;
        bytes =
            rw
              (
                e,
                ih.bytes,
                e',
                take-set pkt (4 + idx) b (omega arith),
                drop_at payload idx 0 (omega arith),
              )
              (append_assoc (take (4 + idx) pkt) (b ∷ []) (take n (drop (idx + 1) payload)));
        check = rw (drop_at payload idx 0 (omega arith)) ih.check;
      }

  length-payload_loop :
      (n idx : ℕ) (payload pkt : List ℕ) (crc : ℕ)
      → length (payload_loop crc8 n idx payload pkt crc).0 ≡ length pkt
  unfolding payload_loop
  length-payload_loop zero idx payload pkt crc = refl
  length-payload_loop (suc n) idx payload pkt crc =
      let b = get_or payload idx 0 in
      length-payload_loop n (idx + 1) payload (set pkt (4 + idx) b) (crc8 crc b)
      ∙ length-set pkt (4 + idx) b

  -- Assembling a packet keeps the size of its buffer.
  pub length-assemble :
      (pkt : List ℕ) (flags addr cmd : ℕ) (payload : List ℕ) (len : ℕ)
      → length (assemble crc8 pkt flags addr cmd payload len) ≡ length pkt
  unfolding assemble
  length-assemble pkt flags addr cmd payload len =
      let hdr = write_header pkt flags addr cmd len in
      let (body, crc) = payload_loop crc8 len 0 payload hdr (crc_loop crc8 4 0 hdr 0) in
      length-set body (4 + len) crc
      ∙ length-payload_loop len 0 payload hdr (crc_loop crc8 4 0 hdr 0)
      ∙ length-write_header pkt flags addr cmd len

  header_crc :
      (pkt : List ℕ) (flags addr cmd len : ℕ)
      → 4 ≤ length pkt
      → let hdr = write_header pkt flags addr cmd len in
        (take 4 hdr ≡ flags ∷ addr ∷ cmd ∷ len ∷ [])
        × (crc_loop crc8 4 0 hdr 0 ≡ crc_from crc8 0 (flags ∷ addr ∷ cmd ∷ len ∷ []))
        × (length hdr ≡ length pkt)
  unfolding crc_loop crc_from
  header_crc [] f a c n h = absurd (omega arith)
  header_crc (x ∷ []) f a c n h = absurd (omega arith)
  header_crc (x ∷ y ∷ []) f a c n h = absurd (omega arith)
  header_crc (x ∷ y ∷ z ∷ []) f a c n h = absurd (omega arith)
  header_crc (x ∷ y ∷ z ∷ w ∷ pkt) f a c n h = (refl, refl, refl)

  -- The assembled bytes are the header, the payload and their crc.
  assemble_lem :
      (pkt : List ℕ) (flags addr cmd : ℕ) (payload : List ℕ) (len : ℕ)
      → length pkt ≡ 17
      → len ≤ 12
      → len ≤ length payload
      → let p = asked flags addr cmd payload len in
        let out = assemble crc8 pkt flags addr cmd payload len in
        (length out ≡ 17) × (take (5 + len) out ≡ body p ++ packet_crc crc8 p ∷ [])
  unfolding assemble
  assemble_lem pkt flags addr cmd payload len v le fit =
      let hdr = write_header pkt flags addr cmd len in
      let crc = crc_loop crc8 4 0 hdr 0 in
      let (bytes, crc_eq, size) = header_crc pkt flags addr cmd len (omega arith) in
      let copied = payload_loop-Copied len 0 payload hdr crc (omega arith) (omega arith) in
      let (out, c) = payload_loop crc8 len 0 payload hdr crc in
      let short : length out ≡ 17 = copied.size ∙ (size ∙ v) in
      let e : 5 + len ≡ suc (4 + len) = omega arith in
      let four : 4 + 0 + len ≡ 4 + len = omega arith in
      let n : length (take len payload) ≡ len = length-take len payload fit in
      (
        length-set out (4 + len) c ∙ short,
        rw
            (
              e,
              take-set out (4 + len) c (omega arith),
              ← four,
              copied.bytes,
              bytes,
              copied.check,
              crc_eq,
            )
            (rw (n, crc_from-append crc8 (flags ∷ addr ∷ cmd ∷ len ∷ []) (take len payload) 0)),
      )

  pub length-wire : (p : Packet) → length (wire crc8 p) ≡ 10 + length p.payload
  length-wire p = omega (arith, length-append p.payload (packet_crc crc8 p ∷ []))

  -- The bytes that are handed to the serial module are those of the packet on the wire.
  handed_over :
      (tx : TxPacket) (flags addr cmd : ℕ) (payload : List ℕ) (len : ℕ)
      → IsValid tx
      → len ≤ 12
      → len ≤ length payload
      → let pkt = assemble crc8 tx.pkt flags addr cmd payload len in
        take (10 + len) (tx.preambles ++ tx.sync_byte ∷ pkt)
        ≡ wire crc8 (asked flags addr cmd payload len)
  handed_over tx flags addr cmd payload len v le fit =
      let e : 10 + len ≡ suc (suc (suc (suc (suc (5 + len))))) = omega arith in
      rw (v.preambles, v.sync_byte, e)
        (ap (λ l. preamble ∷ preamble ∷ preamble ∷ preamble ∷ sync ∷ l)
          (assemble_lem tx.pkt flags addr cmd payload len v.size le fit).1)

  -- With a payload of at most 12 bytes, `pkt_send` appends to the ring as much of the packet on the
  -- wire as the ring has room for, and returns true exactly when that is all of it. When it is not,
  -- the first part of the packet is queued all the same.
  pub pkt_send_lem :
      (tx : TxPacket) (ser : Ser) (flags addr cmd : ℕ) (payload : List ℕ) (len : ℕ)
      → IsValid tx
      → Queue.IsValid ser
      → len ≤ 12
      → len ≤ length payload
      → let out = pkt_send crc8 tx ser flags addr cmd payload len in
        let bytes = wire crc8 (asked flags addr cmd payload len) in
        IsValid out.0.0
        × Queue.IsValid out.0.1
        × (contents out.0.1 ≡ contents ser ++ take (31 - buf_cnt ser) bytes)
        × ((out.1 ≡ true) ↔ (length bytes ≤ 31 - buf_cnt ser))
  unfolding pkt_send
  pkt_send_lem tx ser flags addr cmd payload len v sv le fit =
      let pkt = assemble crc8 tx.pkt flags addr cmd payload len in
      let buf = tx.preambles ++ tx.sync_byte ∷ pkt in
      let fits : ltb 12 len ≡ false = ground arith in
      let total : u8 (4 + 1 + 4 + len + 1) ≡ 10 + len = omega arith in
      let made = assemble_lem tx.pkt flags addr cmd payload len v.size le fit in
      let same = handed_over tx flags addr cmd payload len v le fit in
      let pre : length tx.preambles ≡ 4 = ap length v.preambles in
      let long : length buf ≡ 22 =
        omega (arith, length-append tx.preambles (tx.sync_byte ∷ pkt), made.0) in
      let sent = ser_write_lem ser buf (10 + len) sv (omega arith) (omega arith) in
      let size = length-wire (asked flags addr cmd payload len) in
      let n : length (take len payload) ≡ len = length-take len payload fit in
      rw (fits, total)
        (
          record { preambles = v.preambles; sync_byte = v.sync_byte; size = made.0 },
          sent.0,
          rw (sent.2, ← same, take-take (31 - buf_cnt ser) (10 + len) buf)
              (ap (λ k. contents ser ++ take k buf) (omega arith)),
          (λ h. ground arith, λ h. ground arith),
        )

  -- A packet that `pkt_send` queues into an empty ring reaches another node whole: fed with the
  -- queued bytes, a parser that waits with its buffer free has the packet ready, with the flags,
  -- address, command, length and payload that were sent.
  pub pkt_send-received :
      (tx : TxPacket) (ser : Ser) (flags addr cmd : ℕ) (payload : List ℕ) (len : ℕ) (other : Pkt)
      → IsValid tx
      → Queue.IsValid ser
      → buf_cnt ser ≡ 0
      → len ≤ 12
      → len ≤ length payload
      → in_search_or_sync other.state ≡ true
      → other.rxbuf_inuse ≡ false
      → length other.rxbuf ≡ 16
      → let out = pkt_send crc8 tx ser flags addr cmd payload len in
        let t = parse_all crc8 other (contents out.0.1) in
        (out.1 ≡ true)
        × (t.ready_packet ≡ rxbuf_ptr)
        × (take (4 + len) t.rxbuf ≡ flags ∷ addr ∷ cmd ∷ len ∷ take len payload)
  pkt_send-received tx ser flags addr cmd payload len other v sv empty le fit st free size =
      let p = asked flags addr cmd payload len in
      let n : length (take len payload) ≡ len = length-take len payload fit in
      let sent = pkt_send_lem tx ser flags addr cmd payload len v sv le fit in
      let room : length (wire crc8 p) ≤ 31 - buf_cnt ser = omega (arith, length-wire p) in
      let none_before : contents ser ≡ [] = rw empty in
      let whole : take (31 - buf_cnt ser) (wire crc8 p) ≡ wire crc8 p =
        take_all (wire crc8 p) _ room in
      let got = receive_lem crc8 3 p (packet_crc crc8 p) other (omega arith) st free size in
      let good : (packet_crc crc8 p == packet_crc crc8 p) ≡ true = ground arith in
      let buf = (parse_all crc8 other (wire crc8 p)).rxbuf in
      let bytes : take (4 + len) buf ≡ flags ∷ addr ∷ cmd ∷ len ∷ take len payload =
        ap (λ k. take (4 + k) buf) (sym n)
        ∙ got.1
        ∙ ap (λ k. flags ∷ addr ∷ cmd ∷ k ∷ take len payload) n in
      (
        sent.3.1 room,
        rw (sent.2, none_before, whole, got.2, good),
        rw (sent.2, none_before, whole) bytes,
      )
