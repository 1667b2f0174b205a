-- ===== src/Main/Load/Handlers.antt =====
-- The loads of the board under the handlers of src/main.c.
use bmsnode_firmware.Prelude.{
  ◌≡◌, inl, inr, Bool, true, false, not, Option, none, some, arith, ◌==◌, Bool-cases,
}
use bmsnode_firmware.Shunt.{is_off}
use bmsnode_firmware.TestMode.{is_testmode_off}
use bmsnode_firmware.TestMode.Load.{
  testmode_run-Tested, shunt_start-Accounts, shunt_stop-Accounts, shunt_run-Accounts,
}
use bmsnode_firmware.Kissm.{
  Event, evt_none, evt_any, evt_exit, evt_entry, evt_app, State, app_state,
}
use bmsnode_firmware.Node.{Node, Env}
use bmsnode_firmware.Cmd.Load.{NodeAccounts}
use bmsnode_firmware.Main.States.{
  NodeState, powerup, idle, dfu, shunt, testmode, sleep, AppEvent, evt_timeout, evt_tmr, evt_cmd,
  schedule_state, powerup_handler, idle_handler, dfu_handler, shunt_handler, testmode_handler,
  sleep_handler, handler, run_shunt, run_testmode, wdt_reset, stop_shunt, idle_when,
}
use bmsnode_firmware.Cmd.Code.{ticks_of, pkt_cmd, cmd_shuntoff}
use bmsnode_firmware.Adc.{adc_get_cellmv, adc_get_temp_c, board_temp}
use bmsnode_firmware.Prelude.Int.{to_u16}
use mathlib.Core.Path.{subst}
use bmsnode_firmware.Main.Machine.{is_outer}

abbrev pub is_shunting : State NodeState → Bool
is_shunting (app_state shunt) = true
is_shunting _ = false

-- After an event that the main loop makes: a state that is left accounts for nothing.
abbrev pub remains : NodeState → Option NodeState → Bool
remains p none = is_shunting (app_state p)
remains p (some q) = false

abbrev pub Kept : NodeState → Node × Option NodeState → Type 0
Kept p (n, ns) = NodeAccounts (remains p ns) n

powerup_keeps :
    (e : Event AppEvent) (n : Node) → NodeAccounts false n → Kept powerup (powerup_handler e n)
unfolding powerup_handler schedule_state
powerup_keeps e n v = ground (arith, v.load, v.forced, v.outside, v.driven, v.stopped)

idle_keeps :
    (r : Bool) (e : Event AppEvent) (n : Node)
    → NodeAccounts false n
    → Kept idle (idle_handler r e n)
unfolding idle_handler schedule_state
idle_keeps r e n v = ground (arith, v.load, v.forced, v.outside, v.driven, v.stopped)

dfu_keeps : (e : Event AppEvent) (n : Node) → NodeAccounts false n → Kept dfu (dfu_handler e n)
unfolding dfu_handler schedule_state
dfu_keeps e n v = ground (arith, v.load, v.forced, v.outside, v.driven, v.stopped)

sleep_keeps :
    (e : Event AppEvent) (n : Node) → NodeAccounts false n → Kept sleep (sleep_handler e n)
unfolding sleep_handler
sleep_keeps e n v = ground (arith, v.load, v.forced, v.outside, v.driven, v.stopped)

stops_shunt : (n : Node) → NodeAccounts true n → NodeAccounts false (stop_shunt n)
stops_shunt n v = shunt_stop-Accounts true n.test n.board v

runs_shunt :
    (env : Env) (n : Node)
    → NodeAccounts true n
    → let (m, status) = run_shunt env n in Kept shunt (idle_when (is_off status) (wdt_reset m))
runs_shunt env n v =
    let b = n.board in
    let r =
      shunt_run-Accounts (ticks_of n) n.cfg.parms (adc_get_cellmv b.adc n.cfg.parms)
        (to_u16 (adc_get_temp_c env.hw b.adc board_temp)) n.test b v in
    elim (Bool-cases (is_off (run_shunt env n).1)) [
      | inl off ↦ rw off (subst (λ w. NodeAccounts (not w) (wdt_reset (run_shunt env n).0)) off r)
      | inr on ↦ rw on (subst (λ w. NodeAccounts (not w) (wdt_reset (run_shunt env n).0)) on r)
    ]

shunt_keeps :
    (env : Env) (e : Event AppEvent) (n : Node)
    → is_outer e ≡ true
    → NodeAccounts true n
    → Kept shunt (shunt_handler env e n)
unfolding shunt_handler
shunt_keeps env evt_none n o v = runs_shunt env n v
shunt_keeps env evt_any n o v = runs_shunt env n v
shunt_keeps env evt_exit n o v = v
shunt_keeps env evt_entry n o v = absurd (ground arith)
shunt_keeps env (evt_app evt_tmr) n o v = runs_shunt env n v
shunt_keeps env (evt_app evt_timeout) n o v = runs_shunt env n v
shunt_keeps env (evt_app (evt_cmd p)) n o v = elim (Bool-cases (pkt_cmd n == cmd_shuntoff)) [
  | inl off ↦ rw off (stops_shunt n v)
  | inr other ↦ rw other v
]

runs_testmode :
    (env : Env) (n : Node)
    → NodeAccounts false n
    → let (m, status) = run_testmode env (wdt_reset n) in
      Kept testmode (idle_when (is_testmode_off status) m)
runs_testmode env n v =
    let r = testmode_run-Tested false env.hw (ticks_of n) (n.test, n.board) v in
    elim (Bool-cases (is_testmode_off (run_testmode env (wdt_reset n)).1)) [
      | inl off ↦ rw off r.holds
      | inr on ↦ rw on r.holds
    ]

testmode_keeps :
    (env : Env) (e : Event AppEvent) (n : Node)
    → is_outer e ≡ true
    → NodeAccounts false n
    → Kept testmode (testmode_handler env e n)
unfolding testmode_handler
testmode_keeps env evt_none n o v = runs_testmode env n v
testmode_keeps env evt_any n o v = runs_testmode env n v
testmode_keeps env evt_exit n o v = v
testmode_keeps env evt_entry n o v = absurd (ground arith)
testmode_keeps env (evt_app e) n o v = runs_testmode env n v

pub handler_keeps :
    (env : Env) (p : NodeState) (e : Event AppEvent) (n : Node)
    → is_outer e ≡ true
    → NodeAccounts (is_shunting (app_state p)) n
    → Kept p (handler env p e n)
handler_keeps env powerup e n o v = powerup_keeps e n v
handler_keeps env idle e n o v = idle_keeps env.rxcif e n v
handler_keeps env dfu e n o v = dfu_keeps e n v
handler_keeps env shunt e n o v = shunt_keeps env e n o v
handler_keeps env testmode e n o v = testmode_keeps env e n o v
handler_keeps env sleep e n o v = sleep_keeps e n v

pub exit_keeps :
    (env : Env) (p : NodeState) (n : Node)
    → NodeAccounts false n
    → NodeAccounts false (handler env p evt_exit n).0
unfolding powerup_handler idle_handler dfu_handler shunt_handler testmode_handler sleep_handler
exit_keeps env powerup n v = v
exit_keeps env idle n v = v
exit_keeps env dfu n v = v
exit_keeps env shunt n v = v
exit_keeps env testmode n v = v
exit_keeps env sleep n v = ground (arith, v.load, v.forced, v.outside, v.driven, v.stopped)

pub entry_keeps :
    (env : Env) (q : NodeState) (n : Node)
    → NodeAccounts false n
    → NodeAccounts (is_shunting (app_state q)) (handler env q evt_entry n).0
unfolding powerup_handler idle_handler dfu_handler shunt_handler testmode_handler sleep_handler
    schedule_state
entry_keeps env powerup n v = ground (arith, v.load, v.forced, v.outside, v.driven, v.stopped)
entry_keeps env idle n v = ground (arith, v.load, v.forced, v.outside, v.driven, v.stopped)
entry_keeps env dfu n v = ground (arith, v.load, v.forced, v.outside, v.driven, v.stopped)
entry_keeps env shunt n v =
    let r = shunt_start-Accounts false (ticks_of n) n.cfg.parms n.test n.board v in
    record {
      load = r.load;
      forced = r.forced;
      outside = r.outside;
      driven = r.driven;
      stopped = r.stopped;
    }
entry_keeps env testmode n v = ground (arith, v.load, v.forced, v.outside, v.driven, v.stopped)
entry_keeps env sleep n v = ground (arith, v.load, v.forced, v.outside, v.driven, v.stopped)
