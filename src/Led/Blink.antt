-- ===== src/Led/Blink.antt =====
-- The pins of src/led.c show the modes, and the modes follow their timers.
use bmsnode_firmware.Prelude.{
  ℕ, ◌+◌, ◌≡◌, ◌≢◌, ◌⊎◌, Bool, true, false, not, List, [], ◌∷◌, arith, u16,
}
use bmsnode_firmware.Tmr.{tmr_set, tmr_expired}
use bmsnode_firmware.Led.{
  Led, Leds, LedMode, led_off_mode, led_on_mode, led_blink_off, led_blink_on, led_1shot, LedIndex,
  led_green, led_blue, led_at, led_on, led_off, led_blink, led_oneshot, led_process, led_run,
  advance,
}

abbrev pub is_lit : LedMode → Bool
is_lit led_on_mode = true
is_lit led_blink_on = true
is_lit led_1shot = true
is_lit _ = false

-- Each pin is on exactly in the modes that light the LED.
pub record IsShown (l : Leds) : Type 0 where
  pub green : l.green.pin ≡ is_lit l.green.mode
  pub blue : l.blue.pin ≡ is_lit l.blue.mode

pub data Op : Type 0 where
  on off : LedIndex → Op
  blink : LedIndex → ℕ → ℕ → Op
  oneshot : LedIndex → ℕ → Op
  run : Op

-- A call of the module at the tick `ticks`.
abbrev pub call : ℕ → Leds → Op → Leds
call ticks l (on idx) = led_on l idx
call ticks l (off idx) = led_off l idx
call ticks l (blink idx a b) = led_blink ticks l idx a b
call ticks l (oneshot idx a) = led_oneshot ticks l idx a
call ticks l run = led_run ticks l

call-IsShown : (ticks : ℕ) (l : Leds) (op : Op) → IsShown l → IsShown (call ticks l op)
unfolding led_on led_off led_blink led_oneshot led_run
call-IsShown ticks l (on idx) h = ground arith
call-IsShown ticks l (off idx) h = ground arith
call-IsShown ticks l (blink idx a b) h = ground arith
call-IsShown ticks l (oneshot idx a) h = ground arith
call-IsShown ticks l run h = ground arith

abbrev pub calls : Leds → List (ℕ × Op) → Leds
calls l [] = l
calls l ((ticks, op) ∷ ops) = calls (call ticks l op) ops

-- Whatever is called, and whenever, each pin is on exactly in the modes on, blinking on and one
-- shot.
pub calls-IsShown : (ops : List (ℕ × Op)) (l : Leds) → IsShown l → IsShown (calls l ops)
calls-IsShown [] l h = h
calls-IsShown ((ticks, op) ∷ ops) l h =
    calls-IsShown ops (call ticks l op) (call-IsShown ticks l op h)

-- A one shot of a time other than 0 lights its LED, leaves the other alone, stays until the timer
-- has expired, and then is off.
pub led_oneshot_lem :
    (start now time : ℕ) (l : Leds) (idx : LedIndex)
    → time ≢ 0
    → let m = led_oneshot start l idx time in
      ((led_at m idx).pin ≡ true)
      × ((tmr_expired now (tmr_set start time) ≡ false) → led_process now m idx ≡ m)
      × ((tmr_expired now (tmr_set start time) ≡ true)
          → ((led_at (led_process now m idx) idx).pin ≡ false)
            × ((led_at (led_process now m idx) idx).mode ≡ led_off_mode))
unfolding led_oneshot led_process
led_oneshot_lem start now time l led_green h = ground arith
led_oneshot_lem start now time l led_blue h = ground arith

-- One turn of a blinking LED: two expiries bring it back to the same mode and pin, and its timer
-- moves on by exactly the on and the off time.
pub blink_turn :
    (x : Led)
    → (x.mode ≡ led_blink_on) ⊎ (x.mode ≡ led_blink_off)
    → x.pin ≡ is_lit x.mode
    → let y = advance x.mode x in
      let z = advance y.mode y in
      (y.pin ≡ not x.pin) × (z ≡ record x { tmr = u16 (x.tmr + x.ton + x.toff) })
blink_turn x m p = ground arith
