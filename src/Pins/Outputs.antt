-- ===== src/Pins/Outputs.antt =====
-- The outputs of src/iomap.h are apart: a write to one pin is a write to one field of Board.
use bmsnode_firmware.Prelude.{
  ℕ, ◌-◌, ◌<◌, ◌≡◌, refl, ◌∙◌, Bool, true, false, not, ◌&&◌, List, [], ◌∷◌, arith, ltb, ◌==◌,
  check_below, check_below_sound,
}
use Prim.Native.Nat.{bit_or, bit_and}
use bmsnode_firmware.Board.{Board}
use bmsnode_firmware.Node.{Node}
use bmsnode_firmware.Main.States.{device_init}
use bmsnode_firmware.Pins.{
  porta_dir, portb_dir, init_ports, Ports, Output, extio, green, loadon, blue, refon, extio_pin,
  green_pin, loadon_pin, blue_pin, refon_pin, outset, outclr, mask_of, switch,
}

-- Whether the pins of a mask of one bit are high.
abbrev pub is_high : ℕ → ℕ → Bool
is_high out mask = not (bit_and out mask == 0)

-- The bytes of the two output registers have the levels of the pins in `b`.
pub record Represents (p : Ports) (b : Board) : Type 0 where
  pub bytes : (p.porta.out < 256) × (p.portb.out < 256)
  pub extio : is_high p.porta.out extio_pin ≡ b.extio
  pub green : is_high p.porta.out green_pin ≡ b.leds.green.pin
  pub loadon : is_high p.portb.out loadon_pin ≡ b.loadon
  pub blue : is_high p.portb.out blue_pin ≡ b.leds.blue.pin
  pub refon : is_high p.portb.out refon_pin ≡ b.adc.refon

-- The same output as a field of the board.
abbrev pub set_output : Output → Bool → Board → Board
set_output extio v b = record b { extio = v }
set_output green v b = record b { leds = record b.leds { green = record b.leds.green { pin = v } } }
set_output loadon v b = record b { loadon = v }
set_output blue v b = record b { leds = record b.leds { blue = record b.leds.blue { pin = v } } }
set_output refon v b = record b { adc = record b.adc { refon = v } }

abbrev agree : Bool → Bool → Bool
agree true b = b
agree false b = not b

-- Two bytes have the pins of the masks at the same levels.
abbrev unaffected : ℕ → ℕ → List ℕ → Bool
unaffected old new [] = true
unaffected old new (m ∷ ms) = agree (is_high new m) (is_high old m) && unaffected old new ms

-- Setting and clearing one pin of a byte does that, and leaves the others.
abbrev write_test : ℕ → List ℕ → ℕ → Bool
write_test mine others out =
    let on = bit_or out mine in
    let off = bit_and out (255 - mine) in
    is_high on mine
    && not (is_high off mine)
    && unaffected out on others
    && unaffected out off others
    && ltb on 256
    && ltb off 256

abbrev neighbours : Output → List ℕ
neighbours extio = green_pin ∷ []
neighbours green = extio_pin ∷ []
neighbours loadon = blue_pin ∷ refon_pin ∷ []
neighbours blue = loadon_pin ∷ refon_pin ∷ []
neighbours refon = loadon_pin ∷ blue_pin ∷ []

write_table : (o : Output) → check_below 256 (write_test (mask_of o) (neighbours o)) ≡ true
unfolding check_below
write_table extio = refl
write_table green = refl
write_table loadon = refl
write_table blue = refl
write_table refon = refl

write_lem : (o : Output) (out : ℕ) → out < 256 → write_test (mask_of o) (neighbours o) out ≡ true
write_lem o out h =
    check_below_sound 256 (write_test (mask_of o) (neighbours o)) out (write_table o) h

-- A write of the firmware to one of its outputs, to OUTSET or to OUTCLR of its port, changes the
-- level of that pin and of no other.
pub switch-Represents :
    (o : Output) (v : Bool) (p : Ports) (b : Board)
    → Represents p b
    → Represents (switch o v p) (set_output o v b)
unfolding outset outclr
switch-Represents extio v p b r = ground (arith, write_lem extio p.porta.out r.bytes.0)
switch-Represents green v p b r = ground (arith, write_lem green p.porta.out r.bytes.0)
switch-Represents loadon v p b r = ground (arith, write_lem loadon p.portb.out r.bytes.1)
switch-Represents blue v p b r = ground (arith, write_lem blue p.portb.out r.bytes.1)
switch-Represents refon v p b r = ground (arith, write_lem refon p.portb.out r.bytes.1)

-- Writes in the order of the list.
pub write_all : List (Output × Bool) → Ports → Ports
write_all [] p = p
write_all ((o, v) ∷ ws) p = write_all ws (switch o v p)

pub set_all : List (Output × Bool) → Board → Board
set_all [] b = b
set_all ((o, v) ∷ ws) b = set_all ws (set_output o v b)

write_all-Represents :
    (ws : List (Output × Bool)) (p : Ports) (b : Board)
    → Represents p b
    → Represents (write_all ws p) (set_all ws b)
unfolding write_all set_all
write_all-Represents [] p b r = r
write_all-Represents ((o, v) ∷ ws) p b r =
    write_all-Represents ws (switch o v p) (set_output o v b) (switch-Represents o v p b r)

abbrev pub dir_of : Output → Ports → ℕ
dir_of extio p = p.porta.dir
dir_of green p = p.porta.dir
dir_of loadon p = p.portb.dir
dir_of blue p = p.portb.dir
dir_of refon p = p.portb.dir

-- The pins of the five outputs are outputs of their ports.
abbrev pub IsDriven : Ports → Type 0
IsDriven p = (o : Output) → is_high (dir_of o p) (mask_of o) ≡ true

switch-dir :
    (o : Output) (v : Bool) (p : Ports)
    → ((switch o v p).porta.dir ≡ p.porta.dir) × ((switch o v p).portb.dir ≡ p.portb.dir)
unfolding outset outclr
switch-dir o v p = ground arith

write_all-dir :
    (ws : List (Output × Bool)) (p : Ports)
    → ((write_all ws p).porta.dir ≡ p.porta.dir) × ((write_all ws p).portb.dir ≡ p.portb.dir)
unfolding write_all outset outclr
write_all-dir [] p = (refl, refl)
write_all-dir ((o, v) ∷ ws) p =
    let (a, b) = write_all-dir ws (switch o v p) in let (c, d) = switch-dir o v p in (a ∙ c, b ∙ d)

init-Represents : (p : Ports) (n : Node) → Represents (init_ports p) (device_init n).board
unfolding init_ports device_init
init-Represents p n = record {
  bytes = (omega arith, omega arith);
  extio = refl;
  green = refl;
  loadon = refl;
  blue = refl;
  refon = refl;
}

driven :
    (o : Output) (p : Ports)
    → p.porta.dir ≡ porta_dir
    → p.portb.dir ≡ portb_dir
    → is_high (dir_of o p) (mask_of o) ≡ true
driven extio p a b = rw a refl
driven green p a b = rw a refl
driven loadon p a b = rw b refl
driven blue p a b = rw b refl
driven refon p a b = rw b refl

-- From `device_init` on, and after any writes to the outputs: the five pins are outputs, and the
-- bits of the port registers are what the fields of the board say.
pub outputs_lem :
    (ws : List (Output × Bool)) (p : Ports) (n : Node)
    → let q = write_all ws (init_ports p) in
      Represents q (set_all ws (device_init n).board) × IsDriven q
unfolding init_ports
outputs_lem ws p n =
    let (a, b) = write_all-dir ws (init_ports p) in
    (
      write_all-Represents ws (init_ports p) (device_init n).board (init-Represents p n),
      λ o. driven o (write_all ws (init_ports p)) a b,
    )
