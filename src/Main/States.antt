-- ===== src/Main/States.antt =====
-- The six states of src/main.c, the events that they handle, and the set-up of the board.
use bmsnode_firmware.Prelude.{
  ℕ, ◌+◌, Bool, true, false, ◌||◌, Option, none, some, ◌==◌, if◌then◌else◌,
}
use bmsnode_firmware.LinkedList.{Ptr}
use bmsnode_firmware.Prelude.Int.{to_u16}
use bmsnode_firmware.Ser.{ser_is_active}
use bmsnode_firmware.Pkt.{PktPtr, pkt_is_active}
use bmsnode_firmware.Tmr.{tmr_schedule}
use bmsnode_firmware.Adc.{board_temp, adc_powerup, adc_powerdown, adc_get_cellmv, adc_get_temp_c}
use bmsnode_firmware.Led.{led_green, led_blue, led_on, led_off, led_blink, led_oneshot}
use bmsnode_firmware.Shunt.{ShuntStatus, shunt_start, shunt_stop, shunt_run, is_off}
use bmsnode_firmware.TestMode.{TestmodeStatus, testmode_run, is_testmode_off}
use bmsnode_firmware.Kissm.{Event, evt_exit, evt_entry, evt_app}
use bmsnode_firmware.Node.{Node, Env}
use bmsnode_firmware.Cmd.Code.{
  pkt_cmd, ticks_of, cmd_ping, cmd_dfu_code, cmd_shunton, cmd_shuntoff, cmd_testmode_code,
}

-- The application events; `evt_cmd` points to the packet.
pub data AppEvent : Type 0 where
  evt_tmr evt_timeout : AppEvent
  evt_cmd : PktPtr → AppEvent

-- The states of the application.
pub data NodeState : Type 0 where
  powerup idle dfu shunt testmode sleep : NodeState

-- The address of `state_tmr`, its id, and fuel for a list of one timer.
abbrev pub state_tmr : Ptr
state_tmr = 2

abbrev pub state_tmr_id : ℕ
state_tmr_id = 1

abbrev pub tmr_fuel : ℕ
tmr_fuel = 2

unfoldable pub device_init : Node → Node
device_init n =
    let s = record n.ser { rxcie = true; dreie = false; txcie = false; rxen = true; txen = true } in
    let b = n.board in
    record n {
      ser = s;
      board = record b {
        extio = false;
        loadon = false;
        adc = record b.adc { refon = false };
        leds = record b.leds {
          green = record b.leds.green { pin = false };
          blue = record b.leds.blue { pin = false };
        };
      };
    }

abbrev pub wdt_reset : Node → Node
wdt_reset n = record n { mcu = record n.mcu { wdt_resets = n.mcu.wdt_resets + 1 } }

abbrev pub wdt_enable : Bool → Node → Node
wdt_enable on n = record n { mcu = record n.mcu { wdt_enabled = on } }

-- `tmr_schedule(&state_tmr, STATE_TMR, millisec, false)`
unfoldable pub schedule_state : ℕ → Node → Node
schedule_state millisec n = record n {
  tmr = tmr_schedule tmr_fuel n.tmr state_tmr state_tmr_id millisec false;
}

abbrev pub blink_blue : ℕ → ℕ → Node → Node
blink_blue on off n =
    let b = n.board in
    record n { board = record b { leds = led_blink (ticks_of n) b.leds led_blue on off } }

abbrev pub green_oneshot : ℕ → Node → Node
green_oneshot on n =
    let b = n.board in
    record n { board = record b { leds = led_oneshot (ticks_of n) b.leds led_green on } }

unfoldable pub powerup_handler : Event AppEvent → Node → Node × Option NodeState
powerup_handler evt_entry n = (schedule_state 1000 (blink_blue 50 50 n), none)
powerup_handler (evt_app evt_timeout) n = (n, some idle)
powerup_handler _ n = (wdt_reset n, none)

-- The state that a command leads to from `idle`.
abbrev pub idle_command : ℕ → Node → Node × Option NodeState
idle_command cmd n =
    if cmd == cmd_dfu_code
    then (n, some dfu)
    else if cmd == cmd_shunton
    then (n, some shunt)
    else if cmd == cmd_testmode_code
    then (n, some testmode)
    else if cmd == cmd_ping
    then (green_oneshot 1000 n, none)
    else (n, none)

unfoldable pub idle_handler : Bool → Event AppEvent → Node → Node × Option NodeState
idle_handler rxcif evt_entry n = (blink_blue 200 200 (schedule_state 1000 n), none)
idle_handler rxcif evt_exit n = (n, none)
idle_handler rxcif (evt_app (evt_cmd p)) n = idle_command (pkt_cmd n) (schedule_state 1000 n)
idle_handler rxcif (evt_app evt_timeout) n = (n, some sleep)
idle_handler rxcif _ n =
    let m = wdt_reset n in
    (if pkt_is_active m.pkt || ser_is_active rxcif m.ser then schedule_state 1000 m else m, none)

unfoldable pub dfu_handler : Event AppEvent → Node → Node × Option NodeState
dfu_handler evt_entry n = (blink_blue 1000 1000 (schedule_state 8000 n), none)
dfu_handler (evt_app evt_timeout) n = (n, some idle)
dfu_handler _ n = (wdt_reset n, none)

-- A call of `shunt_run`, which reads the cell voltage and, as an unsigned number, the temperature.
abbrev pub run_shunt : Env → Node → Node × ShuntStatus
run_shunt env n =
    let b = n.board in
    let tempc = to_u16 (adc_get_temp_c env.hw b.adc board_temp) in
    let (s, status) =
      shunt_run (ticks_of n) n.cfg.parms (adc_get_cellmv b.adc n.cfg.parms) tempc b.shunt in
    (record n { board = record b { shunt = s } }, status)

abbrev pub stop_shunt : Node → Node
stop_shunt n = let b = n.board in record n { board = record b { shunt = shunt_stop b.shunt } }

abbrev pub start_shunt : Node → Node
start_shunt n =
    let b = n.board in
    record n { board = record b { shunt = shunt_start (ticks_of n) n.cfg.parms b.shunt } }

-- Back to `idle` when the module that a state runs has stopped.
abbrev pub idle_when : Bool → Node → Node × Option NodeState
idle_when true n = (n, some idle)
idle_when false n = (n, none)

unfoldable pub shunt_handler : Env → Event AppEvent → Node → Node × Option NodeState
shunt_handler env evt_entry n = (start_shunt (blink_blue 800 200 n), none)
shunt_handler env (evt_app (evt_cmd p)) n =
    if pkt_cmd n == cmd_shuntoff then (stop_shunt n, some idle) else (n, none)
shunt_handler env evt_exit n = (n, none)
shunt_handler env _ n = let (m, status) = run_shunt env n in idle_when (is_off status) (wdt_reset m)

abbrev pub run_testmode : Env → Node → Node × TestmodeStatus
run_testmode env n =
    let ((test, board), status) = testmode_run env.hw (ticks_of n) (n.test, n.board) in
    (record n { test = test; board = board }, status)

unfoldable pub testmode_handler : Env → Event AppEvent → Node → Node × Option NodeState
testmode_handler env evt_entry n = (blink_blue 200 800 n, none)
testmode_handler env evt_exit n = (n, none)
testmode_handler env _ n =
    let (m, status) = run_testmode env (wdt_reset n) in idle_when (is_testmode_off status) m

-- All that the entry of `sleep` does before `sleep_mode`, which then stops the processor until an
-- interrupt. What interrupts do meanwhile is a step of its own.
abbrev pub power_down : Node → Node
power_down n =
    let b = n.board in
    let c = record b {
      adc = record (adc_powerdown b.adc) { refon = false };
      leds = led_off (led_off b.leds led_blue) led_green;
      extio = false;
      loadon = false;
    } in
    record (wdt_enable false n) { board = c }

abbrev pub sleep_mode : Node → Node
sleep_mode n = record n { mcu = record n.mcu { sleeps = n.mcu.sleeps + 1 } }

abbrev pub power_up : Node → Node
power_up n =
    let b = n.board in
    let c = record b { leds = led_on b.leds led_blue; adc = adc_powerup (ticks_of n) b.adc } in
    wdt_enable true (record n { board = c })

unfoldable pub sleep_handler : Event AppEvent → Node → Node × Option NodeState
sleep_handler evt_entry n = (sleep_mode (power_down n), none)
sleep_handler evt_exit n = (power_up n, none)
sleep_handler _ n = (n, some idle)

abbrev pub handler : Env → NodeState → Event AppEvent → Node → Node × Option NodeState
handler env powerup e n = powerup_handler e n
handler env idle e n = idle_handler env.rxcif e n
handler env dfu e n = dfu_handler e n
handler env shunt e n = shunt_handler env e n
handler env testmode e n = testmode_handler env e n
handler env sleep e n = sleep_handler e n

abbrev pub same : NodeState → NodeState → Bool
same powerup powerup = true
same idle idle = true
same dfu dfu = true
same shunt shunt = true
same testmode testmode = true
same sleep sleep = true
same _ _ = false
