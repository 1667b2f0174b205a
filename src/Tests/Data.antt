-- ===== src/Tests/Data.antt =====
-- The states of a node that the examples start from: at rest, with the configuration of a cell at
-- address 7.
use bmsnode_firmware.Prelude.{
  ℕ, zero, suc, ◌-◌, ◌≡◌, refl, ap, true, false, List, [], ◌∷◌, ◌++◌, arith, length, take,
  replicate, length-append, take-append, length-take,
}
use mathlib.Core.Path.{subst}
use bmsnode_firmware.Ser.{Ser}
use bmsnode_firmware.Pkt.{Pkt, TxPacket, rx_search, null}
use bmsnode_firmware.Tmr.{Tmr}
use bmsnode_firmware.Cfg.{Cfg, Eeprom}
use bmsnode_firmware.Adc.{Adc, AdcHw}
use bmsnode_firmware.Led.{Led, Leds, led_off_mode}
use bmsnode_firmware.Shunt.{Shunt, shunt_off, shunt_on}
use bmsnode_firmware.TestMode.{TestMode, testmode_off_status, testmode_io}
use bmsnode_firmware.Board.{Board}
use bmsnode_firmware.Node.{Mcu, Node, Env}

-- The ring is empty and about to wrap.
abbrev pub ser : Ser
ser = record {
  headp = 30;
  tailp = 30;
  txbuf = replicate 32 0;
  dreie = false;
  txcie = false;
  rxcie = true;
  rxen = true;
  txen = false;
}

abbrev pub pkt : Pkt
pkt = record {
  state = rx_search;
  rxbuf_inuse = false;
  rxbuf = replicate 16 0;
  ready_packet = null;
  idx = 0;
  crc = 0;
  len = 0;
  pbuf = null;
}

abbrev pub tx : TxPacket
tx = record { preambles = replicate 4 0x55; sync_byte = 0xF0; pkt = replicate 17 0 }

-- Address 7, 4000 and 4100 mV, 60 and 50 degrees.
abbrev pub parms : List ℕ
parms =
    26 ∷ 2 ∷ 7 ∷ 0x30 ∷ 0x11 ∷ 0 ∷ 0 ∷ 0 ∷ 0 ∷ 0 ∷ 0 ∷ 0 ∷ 0 ∷ 0 ∷ 0 ∷ 0x04 ∷ 0x10 ∷ 0xA0 ∷ 0x0F ∷ 0
    ∷ 0 ∷ 60 ∷ 50 ∷ 0 ∷ 0 ∷ 0 ∷ []

abbrev pub cfg : Cfg
cfg = record {
  parms = parms;
  ram_after = [];
  board_type = 2;
  eeprom = [];
  uid_cell = 0x01020304;
  board_type_cell = 2;
}

pub length-blank : (n : ℕ) → length {A = ℕ} (replicate n 255) ≡ n
length-blank zero = refl
length-blank (suc n) = ap suc (length-blank n)

-- An EEPROM of bytes that read 255 where nothing was written.
abbrev pub eeprom : Eeprom
eeprom = record {
  read_block = λ mem n. take n (mem ++ replicate n 255);
  update_block = λ mem buf n. buf;
  length-read = λ mem n.
      length-take n (mem ++ replicate n 255)
        (omega (arith, length-append mem (replicate n 255), length-blank n));
  read-update = λ mem buf n h.
      subst (λ k. take k (buf ++ replicate n 255) ≡ buf) h (take-append buf (replicate n 255));
}

abbrev pub tmr : Tmr
tmr = record { systick = 65000; p_next = λ a. 0; timeout = λ a. 0; periodic = λ a. 0; id = λ a. 0 }

abbrev pub hw : AdcHw
hw = record { result = λ c mux ref. 512; tempsense0 = 128; tempsense1 = 0 }

abbrev pub adc : Adc
adc = record {
  results = 512 ∷ 512 ∷ 512 ∷ 512 ∷ [];
  adc_timeout = 0;
  adc0_enabled = true;
  adc1_enabled = true;
  refon = true;
}

abbrev pub led : Led
led = record { ton = 0; toff = 0; tmr = 0; mode = led_off_mode; pin = false }

abbrev pub leds : Leds
leds = record { green = led; blue = led }

abbrev pub shunt : Shunt
shunt = record {
  shunt_timeout = 0;
  loop_timeout = 0;
  status = shunt_off;
  vrange = 100;
  trange = 10;
  pwm = 0;
  cmp1 = 0;
  cmp1ov = false;
  cmp1en = false;
  period = 256;
  timer_on = false;
}

-- The shunt runs at level 17, and its next pass is due at tick 1000.
abbrev pub shunting : Shunt
shunting = record shunt {
  shunt_timeout = 30000;
  loop_timeout = 1000;
  status = shunt_on;
  pwm = 17;
  cmp1 = 17;
  timer_on = true;
}

abbrev pub board : Board
board = record { shunt = shunt; leds = leds; adc = adc; extio = false; loadon = false }

abbrev pub test : TestMode
test = record {
  test_seconds = 0;
  test_timeout = 1000;
  test_state = testmode_io;
  blink_seq = 0;
  blink_timeout = 0;
}

abbrev pub mcu : Mcu
mcu = record { wdt_enabled = true; wdt_resets = 0; sleeps = 0; swrr = false }

abbrev pub node : Node
node = record {
  ser = ser;
  pkt = pkt;
  tx = tx;
  tmr = tmr;
  cfg = cfg;
  board = board;
  test = record test { test_state = testmode_off_status };
  mcu = mcu;
  pkt_timeout = 0;
  pkt_waiting = false;
}

abbrev pub env : Env
env = record { hw = hw; rxcif = false; version = 1 ∷ 2 ∷ 3 ∷ [] }

-- A node whose receive buffer has a packet, followed by unused bytes.
abbrev pub holding : List ℕ → Node
holding bytes = record node {
  pkt = record pkt { rxbuf = bytes ++ replicate (16 - length bytes) 0; rxbuf_inuse = true };
}
