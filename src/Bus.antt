-- ===== src/Bus.antt =====
-- Several nodes on one wire: what their receive interrupts of src/ser.c and their command processors
-- of src/cmd.c do with the bytes of a packet, and with the bytes that one of them then sends.
pub mod Take
pub mod Hear
pub mod Members
pub mod Voice
pub mod Rest
pub mod Turn
pub mod Talk
use bmsnode_firmware.Prelude.{ℕ, ◌+◌, true, List, [], ◌∷◌, ◌++◌, map, ◌==◌, if◌then◌else◌}
use bmsnode_firmware.Ser.{buf_cnt, dre_isr, txc_isr}
use bmsnode_firmware.Ser.Duplex.{drain}
use bmsnode_firmware.Cfg.{Eeprom}
use bmsnode_firmware.Node.{Node, Env}
use bmsnode_firmware.Cmd.{cmd_process}
use bmsnode_firmware.Cmd.Exchange.{receive_bytes}
use bmsnode_firmware.Main.{free_packet}

-- A node with what it reads from outside.
pub record Station : Type 0 where
  pub env : Env
  pub node : Node

-- The bytes that a node has queued.
abbrev pub spoken : Node → List ℕ
spoken n = (drain (buf_cnt n.ser) n.ser).1

-- The transmit interrupts until the wire is back to receive.
abbrev pub sent_all : Node → Node
sent_all n = record n { ser = txc_isr (dre_isr true (drain (buf_cnt n.ser) n.ser).0).0 }

-- What all of them put on the wire.
abbrev pub said : List Station → List ℕ
said [] = []
said (s ∷ ss) = spoken s.node ++ said ss

module _ (crc8 : ℕ → ℕ → ℕ) (ee : Eeprom) where
  -- A node takes bytes from the wire, processes what is ready, and frees it.
  abbrev pub hear : List ℕ → Env → Node → Node
  hear bytes env n =
      let (m, p) = cmd_process crc8 ee env (receive_bytes crc8 bytes n) in free_packet p m

  abbrev pub hearing : List ℕ → Station → Station
  hearing bytes s = record s { node = hear bytes s.env s.node }

  -- A node that sends does not hear itself, since its receiver is off.
  abbrev pub respond : List ℕ → Station → Station
  respond bytes s =
      if buf_cnt s.node.ser == 0 then hearing bytes s else record s { node = sent_all s.node }

  -- A packet reaches all nodes, and then what they answer reaches those that have not answered.
  abbrev pub turn : List ℕ → List Station → List Station
  turn bytes ss = let asked = map (hearing bytes) ss in map (respond (said asked)) asked
