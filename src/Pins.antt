-- ===== src/Pins.antt =====
-- The pins of src/iomap.h: which bit of which port an output is, and the writes that the code makes
-- to the registers of the ports, against the pins of Board.
pub mod Outputs
use bmsnode_firmware.Prelude.{ℕ, ◌-◌, Bool, true, false}
use Prim.Native.Nat.{bit_or, bit_and}

-- The masks of the pins that the firmware names.
abbrev pub tx_pin : ℕ
tx_pin = 0x02

abbrev pub extio_pin : ℕ
extio_pin = 0x08

abbrev pub spareio_pin : ℕ
spareio_pin = 0x20

abbrev pub green_pin : ℕ
green_pin = 0x40

abbrev pub loadon_pin : ℕ
loadon_pin = 0x02

abbrev pub blue_pin : ℕ
blue_pin = 0x04

abbrev pub refon_pin : ℕ
refon_pin = 0x08

abbrev pub porta_dir : ℕ
porta_dir = bit_or (bit_or (bit_or tx_pin extio_pin) green_pin) spareio_pin

abbrev pub portb_dir : ℕ
portb_dir = bit_or (bit_or loadon_pin blue_pin) refon_pin

-- The registers DIR and OUT of a port.
pub record Port : Type 0 where
  pub dir : ℕ
  pub out : ℕ

pub record Ports : Type 0 where
  pub porta : Port
  pub portb : Port

-- `PORT.OUTSET = mask` and `PORT.OUTCLR = mask`.
unfoldable pub outset : ℕ → Port → Port
outset mask p = record p { out = bit_or p.out mask }

unfoldable pub outclr : ℕ → Port → Port
outclr mask p = record p { out = bit_and p.out (255 - mask) }

-- The writes of `device_init`.
unfoldable pub init_ports : Ports → Ports
init_ports p = record {
  porta = record { dir = porta_dir; out = 0 };
  portb = record { dir = portb_dir; out = 0 };
}

-- The five outputs that the firmware drives through the ports.
pub data Output : Type 0 where
  extio green loadon blue refon : Output

abbrev pub mask_of : Output → ℕ
mask_of extio = extio_pin
mask_of green = green_pin
mask_of loadon = loadon_pin
mask_of blue = blue_pin
mask_of refon = refon_pin

abbrev pub on_port : Output → (Port → Port) → Ports → Ports
on_port extio f p = record p { porta = f p.porta }
on_port green f p = record p { porta = f p.porta }
on_port loadon f p = record p { portb = f p.portb }
on_port blue f p = record p { portb = f p.portb }
on_port refon f p = record p { portb = f p.portb }

abbrev pub switch : Output → Bool → Ports → Ports
switch o true p = on_port o (outset (mask_of o)) p
switch o false p = on_port o (outclr (mask_of o)) p
