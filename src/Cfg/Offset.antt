-- ===== src/Cfg/Offset.antt =====
-- The byte offsets of `config_t` of src/cfg.h, which is packed.
use bmsnode_firmware.Prelude.{ℕ}

abbrev pub len : ℕ
len = 0

abbrev pub type : ℕ
type = 1

abbrev pub addr : ℕ
addr = 2

abbrev pub vscale : ℕ
vscale = 3

abbrev pub voffset : ℕ
voffset = 5

abbrev pub tscale : ℕ
tscale = 7

abbrev pub toffset : ℕ
toffset = 9

abbrev pub xscale : ℕ
xscale = 11

abbrev pub xoffset : ℕ
xoffset = 13

abbrev pub shuntmax : ℕ
shuntmax = 15

abbrev pub shuntmin : ℕ
shuntmin = 17

abbrev pub shunttime : ℕ
shunttime = 19

abbrev pub temphi : ℕ
temphi = 21

abbrev pub templo : ℕ
templo = 22

abbrev pub tempadj : ℕ
tempadj = 23

abbrev pub crc : ℕ
crc = 25
