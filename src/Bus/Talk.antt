-- ===== src/Bus/Talk.antt =====
-- Nodes on one wire from their start in src/main.c on, in a conversation with a controller.
use bmsnode_firmware.Prelude.{ℕ, refl, List, [], ◌∷◌, map, All}
use bmsnode_firmware.Ser.{ser_flush}
use bmsnode_firmware.Pkt.{pkt_reset}
use bmsnode_firmware.Pkt.Frame.{Packet, wire}
use bmsnode_firmware.Cfg.{Eeprom}
use bmsnode_firmware.Node.{Node}
use bmsnode_firmware.Main.{main_init}
use bmsnode_firmware.Main.States.{device_init}
use bmsnode_firmware.Main.Reset.{IsReset}
use bmsnode_firmware.Main.Fit.{main_init-IsFit}
use bmsnode_firmware.Bus.{Station, hearing, turn}
use bmsnode_firmware.Bus.Members.{Differ, Pairwise}
use bmsnode_firmware.Bus.Take.{IsIdle, IsWhole}
use bmsnode_firmware.Bus.Rest.{turn_rests}

module _ (crc8 : ℕ → ℕ → ℕ) (ee : Eeprom) where
  main_init-IsIdle : (n : Node) → IsReset n → IsIdle (main_init crc8 ee n).1
  unfolding main_init device_init pkt_reset ser_flush
  main_init-IsIdle n h = record {
    waits = record { state = refl; free = refl; size = h.rxbuf };
    blank = refl;
    link = (main_init-IsFit crc8 ee n h).link;
    silent = refl;
    receiving = refl;
  }

  abbrev pub started : Station → Station
  started s = record s { node = (main_init crc8 ee s.node).1 }

  started-IsIdle :
      (ss : List Station) → All (λ s. IsReset s.node) ss → All (λ s. IsIdle s.node) (map started ss)
  started-IsIdle [] r = tt
  started-IsIdle (s ∷ ss) (r, rs) = (main_init-IsIdle s.node r, started-IsIdle ss rs)

  -- A conversation: one packet after another, after each of which the nodes still differ.
  pub data Talk (ss : List Station) : List Station → Type 0 where
    begun : Talk ss ss
    turned :
        {ts : List Station} (p : Packet)
        → IsWhole p
        → Pairwise Differ (map (hearing crc8 ee (wire crc8 p)) ts)
        → Talk ss ts
        → Talk ss (turn crc8 ee (wire crc8 p) ts)

  -- Nodes that have started from a reset, with different board numbers and different addresses, and
  -- then any conversation of packets with at most 12 bytes of payload, and at least 4 for ADDR, in
  -- which no packet gives two nodes the same address: after each turn all nodes wait with a free
  -- buffer, nothing to send and the wire turned to receive, and differ. So what holds of one turn
  -- holds of each.
  pub Talk-IsIdle :
      (ss ts : List Station)
      → All (λ s. IsReset s.node) ss
      → Pairwise Differ (map started ss)
      → Talk (map started ss) ts
      → All (λ s. IsIdle s.node) ts × Pairwise Differ ts
  Talk-IsIdle ss ts r d begun = (started-IsIdle ss r, d)
  Talk-IsIdle ss ts r d (turned {ts = us} p whole apart talk) =
      let (idle, differ) = Talk-IsIdle ss us r d talk in
      turn_rests crc8 ee p whole us idle differ apart
