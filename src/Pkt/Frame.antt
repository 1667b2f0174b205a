-- ===== src/Pkt/Frame.antt =====
-- The packet format of doc/packet.md and src/pkt.h: header, payload and crc, behind preambles and
-- a sync byte.
use bmsnode_firmware.Prelude.{ℕ, suc, List, [], ◌∷◌, ◌++◌, length, replicate}
use bmsnode_firmware.Crc.{crc_from}
use bmsnode_firmware.Pkt.{preamble, sync}

pub record Packet : Type 0 where
  pub flags : ℕ
  pub addr : ℕ
  pub cmd : ℕ
  pub payload : List ℕ

-- Header and payload, which the crc covers.
abbrev pub body : Packet → List ℕ
body p = p.flags ∷ p.addr ∷ p.cmd ∷ length p.payload ∷ p.payload

-- `k + 1` preambles and the sync byte, in front of what follows.
abbrev pub opened : ℕ → List ℕ → List ℕ
opened k rest = replicate (suc k) preamble ++ sync ∷ rest

module _ (crc8 : ℕ → ℕ → ℕ) where
  abbrev pub packet_crc : Packet → ℕ
  packet_crc p = crc_from crc8 0 (body p)

  -- The bytes on the wire for a packet, with the four preambles that a node sends.
  abbrev pub wire : Packet → List ℕ
  wire p = opened 3 (body p ++ packet_crc p ∷ [])
