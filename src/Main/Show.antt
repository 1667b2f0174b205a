-- ===== src/Main/Show.antt =====
-- The blue LED of a node of src/main.c shows the state, by the patterns of doc/blink-patterns.md.
use bmsnode_firmware.Prelude.{ℕ, ◌≡◌, refl, ap, ◌∙◌, Bool, true, false, Option, none, some, arith}
use bmsnode_firmware.Tmr.{tmr_process}
use bmsnode_firmware.Pkt.{PktPtr, null, rxbuf_ptr}
use bmsnode_firmware.Cfg.{Eeprom}
use bmsnode_firmware.Led.{
  LedMode, led_off_mode, led_blink_off, led_blink_on, Led, Leds, led_off, led_blink, led_oneshot,
  led_process, led_run,
}
use bmsnode_firmware.Board.{Board}
use bmsnode_firmware.Kissm.{
  Event, evt_exit, evt_entry, State, kissm_initial, app_state, Kissm, kissm_run, transition,
}
use bmsnode_firmware.Node.{Node, Env, rxc_isr}
use bmsnode_firmware.Cmd.Code.{ticks_of}
use bmsnode_firmware.Cmd.Show.{
  SameShow, IsNoBrighter, Untouched, testmode_run-SameShow, cmd_process-Untouched,
}
use bmsnode_firmware.Main.{next_event, free_packet}
use bmsnode_firmware.Main.States.{
  NodeState, powerup, idle, dfu, shunt, testmode, sleep, AppEvent, tmr_fuel, schedule_state,
  powerup_handler, idle_handler, dfu_handler, shunt_handler, testmode_handler, sleep_handler,
  handler, same,
}
use bmsnode_firmware.Main.Graph.{leads, handler-Handles}
use bmsnode_firmware.Main.Machine.{is_outer, in_state}

abbrev pub is_blinking : LedMode → Bool
is_blinking led_blink_off = true
is_blinking led_blink_on = true
is_blinking _ = false

-- The milliseconds on and off: START, ACTIVE, DFUWAKE, SHUNT and TESTMODE.
abbrev pub pattern : NodeState → ℕ × ℕ
pattern powerup = (50, 50)
pattern idle = (200, 200)
pattern dfu = (1000, 1000)
pattern shunt = (800, 200)
pattern testmode = (200, 800)
pattern sleep = (0, 0)

abbrev pub Blinks : ℕ × ℕ → Led → Type 0
Blinks (on, off) x = (is_blinking x.mode ≡ true) × (x.ton ≡ on) × (x.toff ≡ off)

-- The LED is lit in no other part of a blink than the one that is on.
abbrev pub IsInPhase : Led → Type 0
IsInPhase x = x.pin ≡ true → x.mode ≡ led_blink_on

-- Asleep the LED is off; in `testmode`, where a test function may drive the pin, the times alone
-- are promised, and before the first pass nothing.
abbrev pub Shows : State NodeState → Led → Type 0
Shows kissm_initial x = Unit
Shows (app_state sleep) x = (x.mode ≡ led_off_mode) × (x.pin ≡ false)
Shows (app_state testmode) x = Blinks (pattern testmode) x
Shows (app_state p) x = Blinks (pattern p) x × IsInPhase x

abbrev pub is_testing : State NodeState → Bool
is_testing (app_state testmode) = true
is_testing _ = false

Blinks-same : (t : ℕ × ℕ) (b c : Board) → SameShow b c → Blinks t b.leds.blue → Blinks t c.leds.blue
Blinks-same (on, off) b c e v = (ap is_blinking e.mode ∙ v.0, e.ton ∙ v.1, e.toff ∙ v.2)

phase-same :
    (t : ℕ × ℕ) (b c : Board)
    → SameShow b c
    → IsNoBrighter b c
    → Blinks t b.leds.blue × IsInPhase b.leds.blue
    → Blinks t c.leds.blue × IsInPhase c.leds.blue
phase-same t b c e lit (v, phase) = (Blinks-same t b c e v, λ h. e.mode ∙ phase (lit h))

pub Shows-same :
    (s : State NodeState) (b c : Board)
    → SameShow b c
    → (is_testing s ≡ false → IsNoBrighter b c)
    → Shows s b.leds.blue
    → Shows s c.leds.blue
Shows-same kissm_initial b c e lit v = v
Shows-same (app_state powerup) b c e lit v = phase-same (50, 50) b c e (lit refl) v
Shows-same (app_state idle) b c e lit v = phase-same (200, 200) b c e (lit refl) v
Shows-same (app_state dfu) b c e lit v = phase-same (1000, 1000) b c e (lit refl) v
Shows-same (app_state shunt) b c e lit v = phase-same (800, 200) b c e (lit refl) v
Shows-same (app_state testmode) b c e lit v = Blinks-same (200, 800) b c e v
Shows-same (app_state sleep) b c e lit (off, dark) =
    let fainter = lit refl in (e.mode ∙ off, ground (arith, fainter))

-- What running the LEDs keeps of the blue one.
pub record Blinked (x y : Led) : Type 0 where
  pub blinking : is_blinking y.mode ≡ is_blinking x.mode
  pub ton : y.ton ≡ x.ton
  pub toff : y.toff ≡ x.toff
  pub phase : IsInPhase x → IsInPhase y
  pub off : x.mode ≡ led_off_mode → (y.mode ≡ led_off_mode) × (y.pin ≡ x.pin)

pub led_run-Blinked : (ticks : ℕ) (l : Leds) → Blinked l.blue (led_run ticks l).blue
unfolding led_run led_process
led_run-Blinked ticks l = ground arith

Blinks-Blinked : (t : ℕ × ℕ) (x y : Led) → Blinked x y → Blinks t x → Blinks t y
Blinks-Blinked (on, off) x y e v = (e.blinking ∙ v.0, e.ton ∙ v.1, e.toff ∙ v.2)

phase-Blinked :
    (t : ℕ × ℕ) (x y : Led) → Blinked x y → Blinks t x × IsInPhase x → Blinks t y × IsInPhase y
phase-Blinked t x y e (v, phase) = (Blinks-Blinked t x y e v, e.phase phase)

pub Shows-Blinked : (s : State NodeState) (x y : Led) → Blinked x y → Shows s x → Shows s y
Shows-Blinked kissm_initial x y e v = v
Shows-Blinked (app_state powerup) x y e v = phase-Blinked (50, 50) x y e v
Shows-Blinked (app_state idle) x y e v = phase-Blinked (200, 200) x y e v
Shows-Blinked (app_state dfu) x y e v = phase-Blinked (1000, 1000) x y e v
Shows-Blinked (app_state shunt) x y e v = phase-Blinked (800, 200) x y e v
Shows-Blinked (app_state testmode) x y e v = Blinks-Blinked (200, 800) x y e v
Shows-Blinked (app_state sleep) x y e (off, dark) =
    let (mode, pin) = e.off off in (mode, pin ∙ dark)

pub handler-SameShow :
    (env : Env) (p : NodeState) (e : Event AppEvent) (n : Node)
    → is_outer e ≡ true
    → SameShow n.board (handler env p e n).0.board
unfolding powerup_handler idle_handler dfu_handler shunt_handler testmode_handler sleep_handler
    schedule_state led_oneshot
handler-SameShow env powerup e n o = ground arith
handler-SameShow env idle e n o = ground arith
handler-SameShow env dfu e n o = ground arith
handler-SameShow env shunt e n o = ground arith
handler-SameShow env testmode e n o =
    ground (arith, testmode_run-SameShow env.hw (ticks_of n) n.test n.board)
handler-SameShow env sleep e n o = ground arith

handler-IsNoBrighter :
    (env : Env) (p : NodeState) (e : Event AppEvent) (n : Node)
    → is_outer e ≡ true
    → is_testing (app_state p) ≡ false
    → IsNoBrighter n.board (handler env p e n).0.board
unfolding powerup_handler idle_handler dfu_handler shunt_handler testmode_handler sleep_handler
    schedule_state led_oneshot
handler-IsNoBrighter env powerup e n o h = ground arith
handler-IsNoBrighter env idle e n o h = ground arith
handler-IsNoBrighter env dfu e n o h = ground arith
handler-IsNoBrighter env shunt e n o h = ground arith
handler-IsNoBrighter env testmode e n o h = absurd (ground arith)
handler-IsNoBrighter env sleep e n o h = ground arith

entry-Shows :
    (env : Env) (q : NodeState) (n : Node)
    → Shows (app_state q) (handler env q evt_entry n).0.board.leds.blue
unfolding powerup_handler idle_handler dfu_handler shunt_handler testmode_handler sleep_handler
    schedule_state led_blink led_off
entry-Shows env powerup n = ((refl, refl, refl), λ h. refl)
entry-Shows env idle n = ((refl, refl, refl), λ h. refl)
entry-Shows env dfu n = ((refl, refl, refl), λ h. refl)
entry-Shows env shunt n = ((refl, refl, refl), λ h. refl)
entry-Shows env testmode n = (refl, refl, refl)
entry-Shows env sleep n = (refl, refl)

-- A node whose blue LED shows its state.
abbrev pub IsShown : Kissm NodeState × Node → Type 0
IsShown y = Shows y.0.p_ps y.1.board.leds.blue

transition-IsShown :
    (env : Env) (p : NodeState) (m : Node) (ns : Option NodeState)
    → Shows (app_state p) m.board.leds.blue
    → leads p ns ≡ true
    → IsShown (transition (handler env) same (in_state (app_state p)) (m, ns))
transition-IsShown env p m none v d = v
transition-IsShown env p m (some q) v d =
    let crosses : same p q ≡ false = ground arith in
    rw crosses (entry-Shows env q (handler env p evt_exit m).0)

pub run-IsShown :
    (env : Env) (s : State NodeState) (e : Event AppEvent) (n : Node)
    → is_outer e ≡ true
    → Shows s n.board.leds.blue
    → IsShown (kissm_run (handler env) same e (in_state s, n))
unfolding kissm_run
run-IsShown env kissm_initial e n o v = entry-Shows env powerup n
run-IsShown env (app_state p) e n o v =
    let out = handler env p e n in
    transition-IsShown env p out.0 out.1
      (Shows-same (app_state p) n.board out.0.board (handler-SameShow env p e n o)
        (handler-IsNoBrighter env p e n o) v)
      (handler-Handles env p e n).edge

module _ (crc8 : ℕ → ℕ → ℕ) (ee : Eeprom) (env : Env) where
  pub next_event-Untouched : (n : Node) → Untouched n.board (next_event crc8 ee env n).0.0.board
  next_event-Untouched n =
      let m = record n { tmr = (tmr_process tmr_fuel n.tmr).0 } in
      ground (arith, cmd_process-Untouched crc8 ee env m)

  pub free_packet-IsShown :
      (k : Kissm NodeState) (p : PktPtr) (n : Node) → IsShown (k, n) → IsShown (k, free_packet p n)
  free_packet-IsShown k null n v = v
  free_packet-IsShown k rxbuf_ptr n v = v

module _ (crc8 : ℕ → ℕ → ℕ) (ee : Eeprom) where
  pub rxc-IsShown :
      (rxcif : Bool) (ch : ℕ) (y : Kissm NodeState × Node)
      → IsShown y
      → IsShown (y.0, rxc_isr crc8 rxcif ch y.1)
  unfolding rxc_isr
  rxc-IsShown true ch y v = v
  rxc-IsShown false ch y v = v
