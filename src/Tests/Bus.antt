-- ===== src/Tests/Bus.antt =====
-- Two nodes on one wire.
use bmsnode_firmware.Prelude.{ℕ, ◌≡◌, refl, sym, ◌⊎◌, List, [], ◌∷◌, map, arith, set, All}
use bmsnode_firmware.Crc.{crc8_ccitt_update, crc_from}
use bmsnode_firmware.Tests.Data.{node, env, eeprom, pkt, cfg, parms}
use bmsnode_firmware.Main.Reset.{IsReset}
use bmsnode_firmware.Tests.Whole.{node-IsReset, ping, pkt-Waits, ser_ok, tx_ok}
use mathlib.Core.Path.{subst}
use bmsnode_firmware.Ser.{ser_write, ser_flush}
use bmsnode_firmware.Ser.Duplex.{IsInStep}
use bmsnode_firmware.Node.{Node, rxc_isr}
use bmsnode_firmware.Pkt.{
  parse_all, pkt_parser, pkt_reset, pkt_send, pkt_ready, pkt_rx_free, pkt_is_active,
}
use bmsnode_firmware.Pkt.Frame.{wire}
use bmsnode_firmware.Cmd.{cmd_process, run_command, own_command, cmd_ack, watch_packet}
use bmsnode_firmware.Cmd.Code.{node_id}
use bmsnode_firmware.Cmd.Exchange.{receive_bytes, Received}
use bmsnode_firmware.Bus.{Station, hearing, hear, said, turn}
use bmsnode_firmware.Cfg.{Cfg, cfg_store, cfg_load, cfg_commit, cfg_uid}
use bmsnode_firmware.Main.{main_init}
use bmsnode_firmware.Bus.Talk.{started, begun, turned, Talk-IsIdle}
use bmsnode_firmware.Bus.Members.{Apart, Pairwise, Differ, Silent}
use bmsnode_firmware.Bus.Take.{IsIdle, IsWhole}
use bmsnode_firmware.Bus.Turn.{turn-IsIdle}

-- Nodes at the addresses 7 and 9, and a PING to the first.
abbrev listener : Node
listener = record node { cfg = record cfg { parms = set parms 2 9; uid_cell = 5 } }

abbrev seven : Station
seven = record { env = env; node = node }

abbrev nine : Station
nine = record { env = env; node = listener }

ping-IsWhole : IsWhole ping
ping-IsWhole = record { size = omega arith; number = λ h. absurd (ground arith) }

in_step : IsInStep node.ser
in_step = ground arith

node-IsIdle : IsIdle node
node-IsIdle = record {
  waits = pkt-Waits;
  blank = refl;
  link = record { packet = tx_ok; ring = ser_ok; step = in_step };
  silent = refl;
  receiving = refl;
}

listener-IsIdle : IsIdle listener
listener-IsIdle = record {
  waits = pkt-Waits;
  blank = refl;
  link = record { packet = tx_ok; ring = ser_ok; step = in_step };
  silent = refl;
  receiving = refl;
}

apart : Differ seven nine
unfolding cfg_uid
apart = (ground arith, ground arith)

abbrev pinged : Node
pinged = hear crc8_ccitt_update eeprom (wire crc8_ccitt_update ping) env node

pinged_cfg : pinged.cfg ≡ cfg
unfolding cmd_process receive_bytes rxc_isr pkt_parser pkt_ready run_command own_command cmd_ack
    watch_packet pkt_rx_free pkt_is_active crc8_ccitt_update crc_from pkt_send ser_write
pinged_cfg = refl

apart_after :
    Differ
      (hearing crc8_ccitt_update eeprom (wire crc8_ccitt_update ping) seven)
      (hearing crc8_ccitt_update eeprom (wire crc8_ccitt_update ping) nine)
unfolding cfg_uid cmd_process receive_bytes rxc_isr pkt_parser pkt_ready run_command own_command
    cmd_ack watch_packet pkt_rx_free pkt_is_active crc8_ccitt_update crc_from
apart_after = subst (λ c. Apart c listener.cfg) (sym pinged_cfg) (ground arith, ground arith)

turn-IsIdle_example :
    let both = seven ∷ nine ∷ [] in
    let bytes = wire crc8_ccitt_update ping in
    let asked = map (hearing crc8_ccitt_update eeprom bytes) both in
    Pairwise (λ s t. Silent s ⊎ Silent t) asked
    × ((said asked ≡ [])
        ⊎ ((addr : ℕ) × (cmd : ℕ) × (payload : List ℕ) × Received addr cmd payload
              (parse_all crc8_ccitt_update pkt (said asked))))
    × All (λ s. IsIdle s.node) (turn crc8_ccitt_update eeprom bytes both)
    × Pairwise Differ (turn crc8_ccitt_update eeprom bytes both)
turn-IsIdle_example =
    turn-IsIdle crc8_ccitt_update eeprom ping ping-IsWhole (seven ∷ nine ∷ []) pkt
      (node-IsIdle, (listener-IsIdle, tt)) ((apart, tt), (tt, tt)) ((apart_after, tt), (tt, tt))
      pkt-Waits

-- The same nodes before a reset, with their configurations stored.
abbrev stored : Station → Station
stored s = record s { node = record s.node { cfg = cfg_store crc8_ccitt_update eeprom s.node.cfg } }

abbrev restarted : Station → Station
restarted s = started crc8_ccitt_update eeprom (stored s)

loaded_addresses : (node_id (restarted seven).node ≡ 7) × (node_id (restarted nine).node ≡ 9)
unfolding main_init cfg_load cfg_store cfg_commit crc8_ccitt_update
loaded_addresses = (refl, refl)

loaded_numbers :
    (cfg_uid (restarted seven).node.cfg ≡ 0x01020304) × (cfg_uid (restarted nine).node.cfg ≡ 5)
unfolding main_init cfg_load cfg_store cfg_commit cfg_uid crc8_ccitt_update
loaded_numbers = (refl, refl)

apart_restarted : Differ (restarted seven) (restarted nine)
apart_restarted = (
  λ e. absurd (omega (arith, e, loaded_numbers)),
  λ e. absurd (omega (arith, e, loaded_addresses)),
)

heard_cfg :
    let bytes = wire crc8_ccitt_update ping in
    ((hearing crc8_ccitt_update eeprom bytes (restarted seven)).node.cfg
      ≡ (restarted seven).node.cfg)
    × ((hearing crc8_ccitt_update eeprom bytes (restarted nine)).node.cfg
        ≡ (restarted nine).node.cfg)
unfolding main_init cfg_load cfg_store cfg_commit cmd_process receive_bytes rxc_isr pkt_parser
    pkt_ready run_command own_command cmd_ack watch_packet pkt_rx_free pkt_is_active
    crc8_ccitt_update crc_from pkt_send ser_write pkt_reset ser_flush
heard_cfg = (refl, refl)

apart_heard :
    let bytes = wire crc8_ccitt_update ping in
    Differ
      (hearing crc8_ccitt_update eeprom bytes (restarted seven))
      (hearing crc8_ccitt_update eeprom bytes (restarted nine))
apart_heard =
    subst
      (λ c.
        Apart c
          (hearing crc8_ccitt_update eeprom (wire crc8_ccitt_update ping)
            (restarted nine)).node.cfg)
      (sym heard_cfg.0)
      (subst (λ c. Apart (restarted seven).node.cfg c) (sym heard_cfg.1) apart_restarted)

with_cfg-IsReset : (c : Cfg) → IsReset (record node { cfg = c })
with_cfg-IsReset c =
    let r = node-IsReset in
    record {
      rxbuf = r.rxbuf;
      txbuf = r.txbuf;
      txpkt = r.txpkt;
      shunt = r.shunt;
      level = r.level;
      timer = r.timer;
      readings = r.readings;
      test = r.test;
    }

Talk-IsIdle_example :
    let later =
      turn crc8_ccitt_update eeprom
        (wire crc8_ccitt_update ping)
        (restarted seven ∷ restarted nine ∷ []) in
    All (λ s. IsIdle s.node) later × Pairwise Differ later
Talk-IsIdle_example =
    Talk-IsIdle crc8_ccitt_update eeprom (stored seven ∷ stored nine ∷ [])
      (turn crc8_ccitt_update eeprom (wire crc8_ccitt_update ping)
        (restarted seven ∷ restarted nine ∷ []))
      (with_cfg-IsReset _, (with_cfg-IsReset _, tt)) ((apart_restarted, tt), (tt, tt))
      (turned ping ping-IsWhole ((apart_heard, tt), (tt, tt)) begun)
