-- ===== src/Tests/Line.antt =====
-- The wire: the transmit ring, packets there and back, and the owner of the receive buffer.
use bmsnode_firmware.Prelude.{
  ℕ, zero, suc, ◌+◌, ◌≤◌, ◌≡◌, refl, ◌⊎◌, Bool, true, false, List, [], ◌∷◌, ◌++◌, arith, ◌==◌,
  if◌then◌else◌, length, take,
}
use bmsnode_firmware.Crc.{crc8_ccitt_update}
use bmsnode_firmware.Tests.Data.{ser, pkt, tx}
use bmsnode_firmware.Ser.{ser_write, buf_cnt}
use bmsnode_firmware.Ser.Interleave.{interrupted_write, interrupted_write_lem}
use bmsnode_firmware.Ser.Queue
use bmsnode_firmware.Ser.Queue.{contents}
use bmsnode_firmware.Pkt.{pkt_send, parse_all, rx_search, rxbuf_ptr}
use bmsnode_firmware.Pkt.Frame.{Packet, opened, body, packet_crc}
use bmsnode_firmware.Pkt.Receive.{receive_lem}
use bmsnode_firmware.Pkt.Send
use bmsnode_firmware.Pkt.Send.{pkt_send-received}

ser_ok : Queue.IsValid ser
ser_ok = ground arith

tx_ok : Send.IsValid tx
tx_ok = record { preambles = refl; sync_byte = refl; size = refl }

-- A value and its parameter id.
abbrev payload : List ℕ
payload = 8 ∷ 0x04 ∷ 0x10 ∷ []

abbrev packet : Packet
packet = record { flags = 0; addr = 7; cmd = 9; payload = payload }

pkt_send-received_example :
    let out = pkt_send crc8_ccitt_update tx ser 0x80 7 9 payload 3 in
    let t = parse_all crc8_ccitt_update pkt (contents out.0.1) in
    (out.1 ≡ true)
    × (t.ready_packet ≡ rxbuf_ptr)
    × (take (4 + 3) t.rxbuf ≡ 0x80 ∷ 7 ∷ 9 ∷ 3 ∷ take 3 payload)
pkt_send-received_example =
    pkt_send-received crc8_ccitt_update tx ser 0x80 7 9 payload 3 pkt tx_ok ser_ok refl
      (omega arith) (omega arith) refl refl refl

receive_lem_example :
    let t = parse_all crc8_ccitt_update pkt (opened 3 (body packet ++ 77 ∷ [])) in
    let good = 77 == packet_crc crc8_ccitt_update packet in
    (t.state ≡ rx_search)
    × (take (4 + length packet.payload) t.rxbuf ≡ body packet)
    × (t.ready_packet ≡ (if good then rxbuf_ptr else pkt.ready_packet))
    × (t.rxbuf_inuse ≡ good)
receive_lem_example = receive_lem crc8_ccitt_update 3 packet 77 pkt (omega arith) refl refl refl

-- An interrupt with the data register free before the first test and after each one, and one with
-- the register taken before the other tests.
abbrev before_test : ℕ → List Bool
before_test zero = true ∷ []
before_test (suc k) = false ∷ []

abbrev after_test : ℕ → List Bool
after_test k = true ∷ []

interrupted_write_lem_example :
    let buf : List ℕ = 1 ∷ 2 ∷ 3 ∷ [] in
    let ((t, n), out) = interrupted_write before_test after_test ser buf 3 in
    Queue.IsValid t
    × (n ≤ 3)
    × ((n ≡ 3) ⊎ (buf_cnt t ≡ 31))
    × (out ++ contents t ≡ contents ser ++ take n buf)
    × (interrupted_write (λ k. []) (λ k. []) ser buf 3 ≡ (ser_write ser buf 3, []))
interrupted_write_lem_example =
    interrupted_write_lem before_test after_test ser (1 ∷ 2 ∷ 3 ∷ []) 3 ser_ok (omega arith)
      (omega arith)
