-- ===== src/Bus/Turn.antt =====
-- A packet on the wire and what becomes of all nodes.
use bmsnode_firmware.Prelude.{
  ℕ, ◌≡◌, sym, ◌∙◌, ◌⊎◌, inl, inr, true, List, [], ◌∷◌, map, arith, ◌==◌, Bool-cases, All,
}
use mathlib.Core.Path.{subst}
use bmsnode_firmware.Pkt.{Pkt, parse_all}
use bmsnode_firmware.Pkt.Frame.{Packet, wire, packet_crc}
use bmsnode_firmware.Pkt.Receive.{receive_lem}
use bmsnode_firmware.Cfg.{Eeprom}
use bmsnode_firmware.Cmd.Exchange.{Waits, Received}
use bmsnode_firmware.Cmd.Reply.{reply_packet}
use bmsnode_firmware.Bus.{Station, hearing, said, turn}
use bmsnode_firmware.Bus.Members.{Differ, Pairwise, Silent}
use bmsnode_firmware.Bus.Take.{IsIdle, IsWhole, wants}
use bmsnode_firmware.Bus.Voice.{wants_one, after, foreign-Silent, voices}
use bmsnode_firmware.Bus.Rest.{turn_rests}

module _ (crc8 : ℕ → ℕ → ℕ) (ee : Eeprom) (p : Packet) (whole : IsWhole p) where
  abbrev asking : Station → Station
  asking = after crc8 ee p whole

  alone_row :
      (s : Station) (ss : List Station)
      → IsIdle s.node
      → All (λ t. IsIdle t.node) ss
      → All (Differ s) ss
      → All (λ t. Silent (asking s) ⊎ Silent t) (map asking ss)
  alone_row s [] i is d = tt
  alone_row s (t ∷ ts) i (j, js) (d, ds) = (
    elim (Bool-cases (wants s.node.cfg p)) [
      | inl mine ↦
          inr (foreign-Silent crc8 ee p whole t j (wants_one p s.node.cfg t.node.cfg d mine))
      | inr other ↦ inl (foreign-Silent crc8 ee p whole s i other)
    ],
    alone_row s ts i js ds,
  )

  alone :
      (ss : List Station)
      → All (λ s. IsIdle s.node) ss
      → Pairwise Differ ss
      → Pairwise (λ s t. Silent s ⊎ Silent t) (map asking ss)
  alone [] i d = tt
  alone (s ∷ ss) (i, is) (d, ds) = (alone_row s ss i is d, alone ss is ds)

  -- A parser that waits hears all of it.
  received :
      (ss : List Station) (other : Pkt)
      → All (λ s. IsIdle s.node) ss
      → Pairwise Differ ss
      → Waits other
      → (said (map asking ss) ≡ [])
        ⊎ ((addr : ℕ) × (cmd : ℕ) × (payload : List ℕ) × Received addr cmd payload
              (parse_all crc8 other (said (map asking ss))))
  received ss other idle d w = elim (voices crc8 ee p whole ss idle d) [
    | inl e ↦ inl e
    | inr v ↦
        let q = reply_packet v.reply.addr v.reply.cmd v.reply.payload in
        let (st, bytes, ready, inuse) =
          receive_lem crc8 3 q (packet_crc crc8 q) other v.reply.whole.size w.state w.free w.size in
        let good : (packet_crc crc8 q == packet_crc crc8 q) ≡ true = ground arith in
        inr (
          v.reply.addr,
          v.reply.cmd,
          v.reply.payload,
          subst (λ l. Received v.reply.addr v.reply.cmd v.reply.payload (parse_all crc8 other l))
              (sym (v.bytes ∙ v.reply.bytes)) (record { ready = rw good at ready; bytes = bytes }),
        )
  ]

  -- Any number of nodes on one wire, all idle, with different board numbers and different addresses,
  -- also after the packet is processed; the packet has at most 12 bytes of payload, and at least 4
  -- if it is an ADDR. When it reaches all of them, at most one queues an answer; a controller that
  -- waits hears nothing, or has one whole packet ready. When that has reached all the others, every
  -- node is idle again, with a free buffer, nothing to send and the wire turned back to receive,
  -- still with different numbers and addresses: none has answered the answer, and the next packet
  -- finds the nodes as this one did.
  pub turn-IsIdle :
      (ss : List Station) (controller : Pkt)
      → All (λ s. IsIdle s.node) ss
      → Pairwise Differ ss
      → Pairwise Differ (map (hearing crc8 ee (wire crc8 p)) ss)
      → Waits controller
      → let asked = map (hearing crc8 ee (wire crc8 p)) ss in
        Pairwise (λ s t. Silent s ⊎ Silent t) asked
        × ((said asked ≡ [])
            ⊎ ((addr : ℕ) × (cmd : ℕ) × (payload : List ℕ) × Received addr cmd payload
                  (parse_all crc8 controller (said asked))))
        × All (λ s. IsIdle s.node) (turn crc8 ee (wire crc8 p) ss)
        × Pairwise Differ (turn crc8 ee (wire crc8 p) ss)
  turn-IsIdle ss controller idle d d' w =
      let (idle_again, differ_again) = turn_rests crc8 ee p whole ss idle d d' in
      (alone ss idle d, received ss controller idle d w, idle_again, differ_again)
