-- ===== src/Node.antt =====
-- One node: the state of every module together, what the hardware reads, and the receive interrupt
-- of src/ser.c, which joins the serial line to the packet parser.
use bmsnode_firmware.Prelude.{ℕ, Bool, List, if◌then◌else◌}
use bmsnode_firmware.Ser.{Ser}
use bmsnode_firmware.Pkt.{Pkt, TxPacket, pkt_parser}
use bmsnode_firmware.Tmr.{Tmr}
use bmsnode_firmware.Cfg.{Cfg}
use bmsnode_firmware.Adc.{AdcHw}
use bmsnode_firmware.TestMode.{TestMode}
use bmsnode_firmware.Board.{Board}

-- The watchdog, and the resets and sleeps that software asks for: `wdt_resets` counts the calls of
-- `wdt_reset`, `sleeps` those of `sleep_mode`, and `swrr` is the software reset bit of RSTCTRL.
pub record Mcu : Type 0 where
  pub wdt_enabled : Bool
  pub wdt_resets : ℕ
  pub sleeps : ℕ
  pub swrr : Bool

-- The statics of all files; `pkt_timeout` and `pkt_waiting` are those of src/cmd.c.
pub record Node : Type 0 where
  pub ser : Ser
  pub pkt : Pkt
  pub tx : TxPacket
  pub tmr : Tmr
  pub cfg : Cfg
  pub board : Board
  pub test : TestMode
  pub mcu : Mcu
  pub pkt_timeout : ℕ
  pub pkt_waiting : Bool

-- What the node reads from outside: the converters, the receive flag of the USART, and the three
-- numbers of `g_version`.
pub record Env : Type 0 where
  pub hw : AdcHw
  pub rxcif : Bool
  pub version : List ℕ

-- `USART0_RXC_vect`: a received byte goes to the parser if the receive flag is up.
unfoldable pub rxc_isr : (ℕ → ℕ → ℕ) → Bool → ℕ → Node → Node
rxc_isr crc8 rxcif ch n = if rxcif then record n { pkt = pkt_parser crc8 n.pkt ch } else n
