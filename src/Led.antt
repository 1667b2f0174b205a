-- ===== src/Led.antt =====
-- The two LEDs of src/led.c and src/led.h, each with its mode, its timer and its output pin.
pub mod Blink
use bmsnode_firmware.Prelude.{ℕ, ◌+◌, Bool, true, false, ◌==◌, if◌then◌else◌, u16}
use bmsnode_firmware.Tmr.{tmr_set, tmr_expired}

pub data LedMode : Type 0 where
  led_off_mode led_on_mode led_blink_off led_blink_on led_1shot : LedMode

-- `struct led`, with the output that its port and mask stand for.
pub record Led : Type 0 where
  pub ton : ℕ
  pub toff : ℕ
  pub tmr : ℕ
  pub mode : LedMode
  pub pin : Bool

pub data LedIndex : Type 0 where
  led_green led_blue : LedIndex

-- `led_table`
pub record Leds : Type 0 where
  pub green : Led
  pub blue : Led

abbrev pub led_at : Leds → LedIndex → Led
led_at l led_green = l.green
led_at l led_blue = l.blue

abbrev pub set_led : Leds → LedIndex → Led → Leds
set_led l led_green x = record l { green = x }
set_led l led_blue x = record l { blue = x }

-- Writes to OUTSET and OUTCLR.
abbrev pub pin_set : Led → Led
pin_set x = record x { pin = true }

abbrev pub pin_clear : Led → Led
pin_clear x = record x { pin = false }

abbrev pub turn_on : Led → Led
turn_on x = pin_set (record x { mode = led_on_mode })

abbrev pub turn_off : Led → Led
turn_off x = pin_clear (record x { mode = led_off_mode })

unfoldable pub led_on : Leds → LedIndex → Leds
led_on l idx = set_led l idx (turn_on (led_at l idx))

unfoldable pub led_off : Leds → LedIndex → Leds
led_off l idx = set_led l idx (turn_off (led_at l idx))

unfoldable pub led_blink : ℕ → Leds → LedIndex → ℕ → ℕ → Leds
unfolding led_on led_off
led_blink ticks l idx on off =
    if on == 0
    then led_off l idx
    else if off == 0
    then led_on l idx
    else set_led l idx (
        pin_set (record (led_at l idx) {
          ton = on;
          toff = off;
          mode = led_blink_on;
          tmr = tmr_set ticks on;
        }))

unfoldable pub led_oneshot : ℕ → Leds → LedIndex → ℕ → Leds
unfolding led_on led_off
led_oneshot ticks l idx on =
    if on == 0
    then led_off l idx
    else let m = led_on l idx in
      set_led m idx (record (led_at m idx) { mode = led_1shot; tmr = tmr_set ticks on })

-- The chain of `if` on the mode, for a timer that has expired.
abbrev pub advance : LedMode → Led → Led
advance led_blink_off x = record (pin_set x) { tmr = u16 (x.tmr + x.ton); mode = led_blink_on }
advance led_blink_on x = record (pin_clear x) { tmr = u16 (x.tmr + x.toff); mode = led_blink_off }
advance led_1shot x = record (pin_clear x) { mode = led_off_mode }
advance _ x = x

unfoldable pub led_process : ℕ → Leds → LedIndex → Leds
led_process ticks l idx =
    let x = led_at l idx in if tmr_expired ticks x.tmr then set_led l idx (advance x.mode x) else l

unfoldable pub led_run : ℕ → Leds → Leds
unfolding led_process
led_run ticks l = led_process ticks (led_process ticks l led_green) led_blue
