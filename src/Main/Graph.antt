-- ===== src/Main/Graph.antt =====
-- The states of src/main.c, the ways between them, and what a node that sleeps has switched off.
use bmsnode_firmware.Prelude.{◌≡◌, Bool, true, false, Option, none, some, arith}
use bmsnode_firmware.Kissm.{Event, evt_exit, evt_entry}
use bmsnode_firmware.Node.{Node, Env}
use bmsnode_firmware.Main.States.{
  NodeState, powerup, idle, dfu, shunt, testmode, sleep, AppEvent, schedule_state, powerup_handler,
  idle_handler, dfu_handler, shunt_handler, testmode_handler, sleep_handler, handler,
}

-- The transitions of the application.
abbrev pub is_edge : NodeState → NodeState → Bool
is_edge powerup idle = true
is_edge idle dfu = true
is_edge idle shunt = true
is_edge idle testmode = true
is_edge idle sleep = true
is_edge dfu idle = true
is_edge shunt idle = true
is_edge testmode idle = true
is_edge sleep idle = true
is_edge _ _ = false

abbrev pub leads : NodeState → Option NodeState → Bool
leads p none = true
leads p (some q) = is_edge p q

-- The watchdog is off from the entry to `sleep` to the exit from it.
abbrev pub wdt_after : NodeState → Event AppEvent → Bool → Bool
wdt_after sleep evt_entry w = false
wdt_after sleep evt_exit w = true
wdt_after _ _ w = w

-- All that a handler may do to the receive buffer, the state and the watchdog; it leaves the
-- transmit side and the configuration as they are.
pub record Handles (p : NodeState) (e : Event AppEvent) (n : Node) (out : Node × Option NodeState)
    : Type 0 where
  pub packet : out.0.pkt ≡ n.pkt
  pub edge : leads p out.1 ≡ true
  pub wdt : out.0.mcu.wdt_enabled ≡ wdt_after p e n.mcu.wdt_enabled
  pub kept : (out.0.tx ≡ n.tx) × (out.0.ser ≡ n.ser) × (out.0.cfg ≡ n.cfg)

powerup-Handles : (e : Event AppEvent) (n : Node) → Handles powerup e n (powerup_handler e n)
unfolding powerup_handler schedule_state
powerup-Handles e n = ground arith

idle-Handles : (r : Bool) (e : Event AppEvent) (n : Node) → Handles idle e n (idle_handler r e n)
unfolding idle_handler schedule_state
idle-Handles r e n = ground arith

dfu-Handles : (e : Event AppEvent) (n : Node) → Handles dfu e n (dfu_handler e n)
unfolding dfu_handler schedule_state
dfu-Handles e n = ground arith

shunt-Handles :
    (env : Env) (e : Event AppEvent) (n : Node) → Handles shunt e n (shunt_handler env e n)
unfolding shunt_handler
shunt-Handles env e n = ground arith

testmode-Handles :
    (env : Env) (e : Event AppEvent) (n : Node) → Handles testmode e n (testmode_handler env e n)
unfolding testmode_handler
testmode-Handles env e n = ground arith

sleep-Handles : (e : Event AppEvent) (n : Node) → Handles sleep e n (sleep_handler e n)
unfolding sleep_handler
sleep-Handles e n = ground arith

pub handler-Handles :
    (env : Env) (p : NodeState) (e : Event AppEvent) (n : Node) → Handles p e n (handler env p e n)
handler-Handles env powerup e n = powerup-Handles e n
handler-Handles env idle e n = idle-Handles env.rxcif e n
handler-Handles env dfu e n = dfu-Handles e n
handler-Handles env shunt e n = shunt-Handles env e n
handler-Handles env testmode e n = testmode-Handles env e n
handler-Handles env sleep e n = sleep-Handles e n
