-- ===== src/Board.antt =====
-- What one node drives besides its wire and its memory: the modules of src/shunt.c, src/led.c and
-- src/adc.c, and the two output pins of src/iomap.h that no module owns.
use bmsnode_firmware.Prelude.{Bool}
use bmsnode_firmware.Shunt.{Shunt}
use bmsnode_firmware.Led.{Leds}
use bmsnode_firmware.Adc.{Adc}

-- `EXTIO_PIN` of port A and `LOADON_PIN` of port B. `REFON_PIN` is in `Adc`, the LED pins are in
-- `Leds`.
pub record Board : Type 0 where
  pub shunt : Shunt
  pub leds : Leds
  pub adc : Adc
  pub extio : Bool
  pub loadon : Bool
