-- ===== src/Main/StateTimer.antt =====
-- The state timer of src/main.c: what the handlers do to it.
use bmsnode_firmware.Prelude.{
  ℕ, ◌≡◌, sym, ◌⊎◌, inl, inr, Bool, true, false, ◌||◌, [], ◌∷◌, arith, if◌then◌else◌, get_or,
}
use mathlib.Core.Path.{subst}
use bmsnode_firmware.Tmr.{Tmr, tmr_schedule}
use bmsnode_firmware.Tmr.Schedule.{IsScheduled, tmr_schedule-IsScheduled}
use bmsnode_firmware.Pkt
use bmsnode_firmware.Ser
use bmsnode_firmware.Kissm.{Event, evt_none, evt_any, evt_exit, evt_entry, evt_app}
use bmsnode_firmware.Node.{Node, Env}
use bmsnode_firmware.Main.States.{
  NodeState, powerup, idle, dfu, shunt, testmode, sleep, AppEvent, evt_tmr, evt_timeout, evt_cmd,
  state_tmr, state_tmr_id, tmr_fuel, schedule_state, idle_command, wdt_reset, powerup_handler,
  idle_handler, dfu_handler, shunt_handler, testmode_handler, sleep_handler, handler,
}

abbrev pub schedule : ℕ → Tmr → Tmr
schedule millisec t = tmr_schedule tmr_fuel t state_tmr state_tmr_id millisec false

-- The state timer is the one that is scheduled, for once; or none is.
abbrev pub IsArmed : Tmr → Type 0
IsArmed t =
    IsScheduled t (state_tmr ∷ []) × (t.periodic state_tmr ≡ 0) × (t.id state_tmr ≡ state_tmr_id)

abbrev pub IsClear : Tmr → Type 0
IsClear t = IsScheduled t []

abbrev pub HasTimer : Tmr → Type 0
HasTimer t = IsArmed t ⊎ IsClear t

pub schedule-IsArmed : (millisec : ℕ) (t : Tmr) → HasTimer t → IsArmed (schedule millisec t)
schedule-IsArmed millisec t (inl a) =
    let (s, timeout, once, id, others) =
      tmr_schedule-IsScheduled 2 t 2 1 millisec false (2 ∷ []) a.0 (ground arith) (ground arith)
        (omega arith) in
    (s, once, id)
schedule-IsArmed millisec t (inr c) =
    let (s, timeout, once, id, others) =
      tmr_schedule-IsScheduled 2 t 2 1 millisec false [] c (ground arith) (ground arith)
        (omega arith) in
    (s, once, id)

-- Handlers only ever schedule the state timer: what scheduling keeps, they keep.
module _ (Q : Tmr → Type 0)
    (closed : (millisec : ℕ) (t : Tmr) → Q t → Q (schedule millisec t)) where
  powerup_keeps : (e : Event AppEvent) (n : Node) → Q n.tmr → Q (powerup_handler e n).0.tmr
  unfolding powerup_handler schedule_state
  powerup_keeps evt_entry n q = closed 1000 n.tmr q
  powerup_keeps evt_none n q = q
  powerup_keeps evt_any n q = q
  powerup_keeps evt_exit n q = q
  powerup_keeps (evt_app evt_tmr) n q = q
  powerup_keeps (evt_app evt_timeout) n q = q
  powerup_keeps (evt_app (evt_cmd p)) n q = q

  dfu_keeps : (e : Event AppEvent) (n : Node) → Q n.tmr → Q (dfu_handler e n).0.tmr
  unfolding dfu_handler schedule_state
  dfu_keeps evt_entry n q = closed 8000 n.tmr q
  dfu_keeps evt_none n q = q
  dfu_keeps evt_any n q = q
  dfu_keeps evt_exit n q = q
  dfu_keeps (evt_app evt_tmr) n q = q
  dfu_keeps (evt_app evt_timeout) n q = q
  dfu_keeps (evt_app (evt_cmd p)) n q = q

  idle_command-tmr : (cmd : ℕ) (n : Node) → (idle_command cmd n).0.tmr ≡ n.tmr
  idle_command-tmr cmd n = ground arith

  when_active :
      (active : Bool) (n : Node) → Q n.tmr → Q (if active then schedule_state 1000 n else n).tmr
  unfolding schedule_state
  when_active true n q = closed 1000 n.tmr q
  when_active false n q = q

  idle_keeps : (r : Bool) (e : Event AppEvent) (n : Node) → Q n.tmr → Q (idle_handler r e n).0.tmr
  unfolding idle_handler schedule_state
  idle_keeps r evt_entry n q = closed 1000 n.tmr q
  idle_keeps r evt_exit n q = q
  idle_keeps r (evt_app evt_timeout) n q = q
  idle_keeps r (evt_app (evt_cmd p)) n q =
      let m = schedule_state 1000 n in
      subst Q (sym (idle_command-tmr (get_or n.pkt.rxbuf 2 0) m)) (closed 1000 n.tmr q)
  idle_keeps r evt_none n q =
      when_active (Pkt.pkt_is_active n.pkt || Ser.ser_is_active r n.ser) (wdt_reset n) q
  idle_keeps r evt_any n q =
      when_active (Pkt.pkt_is_active n.pkt || Ser.ser_is_active r n.ser) (wdt_reset n) q
  idle_keeps r (evt_app evt_tmr) n q =
      when_active (Pkt.pkt_is_active n.pkt || Ser.ser_is_active r n.ser) (wdt_reset n) q

  shunt-tmr : (env : Env) (e : Event AppEvent) (n : Node) → (shunt_handler env e n).0.tmr ≡ n.tmr
  unfolding shunt_handler
  shunt-tmr env e n = ground arith

  testmode-tmr :
      (env : Env) (e : Event AppEvent) (n : Node) → (testmode_handler env e n).0.tmr ≡ n.tmr
  unfolding testmode_handler
  testmode-tmr env e n = ground arith

  sleep-tmr : (e : Event AppEvent) (n : Node) → (sleep_handler e n).0.tmr ≡ n.tmr
  unfolding sleep_handler
  sleep-tmr e n = ground arith

  pub handler_keeps :
      (env : Env) (p : NodeState) (e : Event AppEvent) (n : Node)
      → Q n.tmr
      → Q (handler env p e n).0.tmr
  handler_keeps env powerup e n q = powerup_keeps e n q
  handler_keeps env idle e n q = idle_keeps env.rxcif e n q
  handler_keeps env dfu e n q = dfu_keeps e n q
  handler_keeps env shunt e n q = subst Q (sym (shunt-tmr env e n)) q
  handler_keeps env testmode e n q = subst Q (sym (testmode-tmr env e n)) q
  handler_keeps env sleep e n q = subst Q (sym (sleep-tmr e n)) q
