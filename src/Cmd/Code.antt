-- ===== src/Cmd/Code.antt =====
-- The codes, the packet fields and the payload bytes of src/cmd.h, src/pkt.h and src/cmd.c.
use bmsnode_firmware.Prelude.{ℕ, ◌/◌, List, [], ◌∷◌, u8, get_or, drop}
use bmsnode_firmware.Cfg.{get8}
use bmsnode_firmware.Cfg.Offset
use bmsnode_firmware.Shunt.{
  ShuntStatus, shunt_off, shunt_idle, shunt_on, shunt_notused, shunt_limit,
}
use bmsnode_firmware.Node.{Node}

abbrev pub cmd_ping : ℕ
cmd_ping = 1

abbrev pub cmd_dfu_code : ℕ
cmd_dfu_code = 2

abbrev pub cmd_uid_code : ℕ
cmd_uid_code = 3

abbrev pub cmd_addr_code : ℕ
cmd_addr_code = 4

abbrev pub cmd_adcraw_code : ℕ
cmd_adcraw_code = 5

abbrev pub cmd_status_code : ℕ
cmd_status_code = 6

abbrev pub cmd_shunton : ℕ
cmd_shunton = 7

abbrev pub cmd_shuntoff : ℕ
cmd_shuntoff = 8

abbrev pub cmd_setparm_code : ℕ
cmd_setparm_code = 9

abbrev pub cmd_getparm_code : ℕ
cmd_getparm_code = 10

abbrev pub cmd_testmode_code : ℕ
cmd_testmode_code = 11

abbrev pub cmd_factory : ℕ
cmd_factory = 12

-- `NODEID`
abbrev pub node_id : Node → ℕ
node_id n = get8 n.cfg.parms Offset.addr

-- The fields of the packet in the receive buffer.
abbrev pub pkt_addr : Node → ℕ
pkt_addr n = get_or n.pkt.rxbuf 1 0

abbrev pub pkt_cmd : Node → ℕ
pkt_cmd n = get_or n.pkt.rxbuf 2 0

abbrev pub pkt_len : Node → ℕ
pkt_len n = get_or n.pkt.rxbuf 3 0

abbrev pub pkt_payload : Node → List ℕ
pkt_payload n = drop 4 n.pkt.rxbuf

abbrev pub status_code : ShuntStatus → ℕ
status_code shunt_off = 0
status_code shunt_idle = 1
status_code shunt_on = 2
status_code shunt_notused = 3
status_code shunt_limit = 4

-- A word as two bytes, the low one first.
abbrev pub word_bytes : ℕ → List ℕ
word_bytes w = u8 w ∷ u8 (w / 256) ∷ []

-- The tick that `tmr_get_ticks` reads.
abbrev pub ticks_of : Node → ℕ
ticks_of n = n.tmr.systick
