-- ===== src/Main/Awake.antt =====
-- A node of src/main.c that is awake and waits goes on: the states that wait for the state timer
-- have it scheduled.
use bmsnode_firmware.Prelude.{
  ℕ, ◌≡◌, refl, sym, ap, ◌∙◌, ◌≢◌, ◌⊎◌, inl, inr, Bool, true, false, Option, none, some, [], ◌∷◌,
  arith, ◌==◌, Bool-cases,
}
use mathlib.Core.Path.{subst}
use bmsnode_firmware.LinkedList
use bmsnode_firmware.Tmr.{Tmr, tmr_process, tmr_expired}
use bmsnode_firmware.Tmr.Schedule.{Processed, tmr_process_lem, tmr_process-id}
use bmsnode_firmware.Pkt.{PktPtr, null, rxbuf_ptr}
use bmsnode_firmware.Cfg.{Eeprom}
use bmsnode_firmware.Kissm.{
  Event, evt_exit, evt_entry, evt_app, State, kissm_initial, app_state, Kissm, kissm_run,
  transition,
}
use bmsnode_firmware.Node.{Node, Env}
use bmsnode_firmware.Cmd.Buffer.{cmd_process-tmr}
use bmsnode_firmware.Main.{main_step, next_event, run_background, free_packet}
use bmsnode_firmware.Main.States.{
  NodeState, powerup, idle, dfu, shunt, testmode, sleep, AppEvent, evt_timeout, state_tmr,
  state_tmr_id, schedule_state, powerup_handler, idle_handler, dfu_handler, handler, same,
}
use bmsnode_firmware.Main.Graph.{leads, handler-Handles}
use bmsnode_firmware.Main.Machine.{in_state, to_powerup}
use bmsnode_firmware.Main.StateTimer.{
  schedule, IsArmed, IsClear, HasTimer, schedule-IsArmed, handler_keeps,
}

-- The states that wait for a timeout.
abbrev pub waits : State NodeState → Bool
waits (app_state powerup) = true
waits (app_state idle) = true
waits (app_state dfu) = true
waits _ = false

entry-IsArmed :
    (env : Env) (q : NodeState) (n : Node)
    → waits (app_state q) ≡ true
    → HasTimer n.tmr
    → IsArmed (handler env q evt_entry n).0.tmr
unfolding powerup_handler idle_handler dfu_handler schedule_state
entry-IsArmed env powerup n w h = schedule-IsArmed 1000 n.tmr h
entry-IsArmed env idle n w h = schedule-IsArmed 1000 n.tmr h
entry-IsArmed env dfu n w h = schedule-IsArmed 8000 n.tmr h
entry-IsArmed env shunt n w h = absurd (ground arith)
entry-IsArmed env testmode n w h = absurd (ground arith)
entry-IsArmed env sleep n w h = absurd (ground arith)

-- What `tmr_process` makes of the one timer.
pub clear_process : (t : Tmr) → IsClear t → let (u, p) = tmr_process 2 t in (p ≡ 0) × (u ≡ t)
clear_process t c =
    let (first, done) = tmr_process_lem 2 t [] c (omega arith) in
    (first, subst (λ p. Processed t [] p (tmr_process 2 t).0) first done)

pub armed_process :
    (t : Tmr)
    → IsArmed t
    → let (u, p) = tmr_process 2 t in
      ((p ≡ 0) × (u ≡ t)) ⊎ ((p ≡ state_tmr) × IsClear u × (u.id state_tmr ≡ state_tmr_id))
armed_process t (s, once, id) =
    let (first, done) = tmr_process_lem 2 t (2 ∷ []) s (omega arith) in
    let same_id = ap (λ (f : ℕ → ℕ). f 2) (tmr_process-id 2 t) ∙ id in
    elim (Bool-cases (tmr_expired t.systick (t.timeout 2))) [
      | inl late ↦
          let at : (tmr_process 2 t).1 ≡ 2 = first ∙ rw late refl in
          let out = subst (λ p. Processed t (2 ∷ []) p (tmr_process 2 t).0) at done in
          inr (at, (rw once at out).0, same_id)
      | inr early ↦
          let at : (tmr_process 2 t).1 ≡ 0 = first ∙ rw early refl in
          inl (at, subst (λ p. Processed t (2 ∷ []) p (tmr_process 2 t).0) at done)
    ]

-- The event and the timers of a pass: either the state timer has fired and is gone, or the timers
-- are as they were.
abbrev pub Fired : Event AppEvent → Tmr → Type 0
Fired e u = (e ≡ evt_app evt_timeout) × IsClear u

module _ (crc8 : ℕ → ℕ → ℕ) (ee : Eeprom) (env : Env) where
  next_event_same :
      (n : Node)
      → (tmr_process 2 n.tmr).1 ≡ 0
      → (tmr_process 2 n.tmr).0 ≡ n.tmr
      → (next_event crc8 ee env n).0.0.tmr ≡ n.tmr
  next_event_same n none_late u =
      let m = record n { tmr = (tmr_process 2 n.tmr).0 } in
      let quiet : ((tmr_process 2 n.tmr).1 == LinkedList.null) ≡ true = ground arith in
      rw quiet (cmd_process-tmr crc8 ee env m ∙ u)

  next_event_tmr :
      (n : Node)
      → IsArmed n.tmr
      → let ((m, p), e) = next_event crc8 ee env n in IsArmed m.tmr ⊎ Fired e m.tmr
  next_event_tmr n a = elim (armed_process n.tmr a) [
    | inl (none_late, u) ↦ inl (subst IsArmed (sym (next_event_same n none_late u)) a)
    | inr (ours, clear, id) ↦
        let (u, p) = tmr_process 2 n.tmr in
        let late : (p == LinkedList.null) ≡ false = ground arith in
        let state_late : (u.id p == state_tmr_id) ≡ true =
          ap (λ k. u.id k == state_tmr_id) ours ∙ ap (λ i. i == state_tmr_id) id in
        rw (late, state_late) (inr (refl, clear))
  ]

  next_event-HasTimer : (n : Node) → HasTimer n.tmr → HasTimer (next_event crc8 ee env n).0.0.tmr
  next_event-HasTimer n (inl a) = elim (next_event_tmr n a) [
    | inl armed ↦ inl armed
    | inr (e, clear) ↦ inr clear
  ]
  next_event-HasTimer n (inr c) =
      let (p, u) = clear_process n.tmr c in inr (subst IsClear (sym (next_event_same n p u)) c)

-- A timeout leaves every state that waits for one.
timeout_leaves :
    (env : Env) (p : NodeState) (n : Node)
    → waits (app_state p) ≡ true
    → (handler env p (evt_app evt_timeout) n).1 ≢ none
unfolding powerup_handler idle_handler dfu_handler
timeout_leaves env powerup n w = ground arith
timeout_leaves env idle n w = ground arith
timeout_leaves env dfu n w = ground arith
timeout_leaves env shunt n w = absurd (ground arith)
timeout_leaves env testmode n w = absurd (ground arith)
timeout_leaves env sleep n w = absurd (ground arith)

-- The one timer, and that it is scheduled where it is waited for.
pub record IsAwake (y : Kissm NodeState × Node) : Type 0 where
  pub timer : HasTimer y.1.tmr
  pub armed : waits y.0.p_ps ≡ true → IsArmed y.1.tmr

arms_again : (millisec : ℕ) (t : Tmr) → IsArmed t → IsArmed (schedule millisec t)
arms_again millisec t a = schedule-IsArmed millisec t (inl a)

has_again : (millisec : ℕ) (t : Tmr) → HasTimer t → HasTimer (schedule millisec t)
has_again millisec t h = inl (schedule-IsArmed millisec t h)

transition-IsAwake :
    (env : Env) (p : NodeState) (m : Node) (ns : Option NodeState)
    → HasTimer m.tmr
    → (ns ≡ none → waits (app_state p) ≡ true → IsArmed m.tmr)
    → leads p ns ≡ true
    → IsAwake (transition (handler env) same (in_state (app_state p)) (m, ns))
transition-IsAwake env p m none h a d = record { timer = h; armed = a refl }
transition-IsAwake env p m (some q) h a d =
    let crosses : same p q ≡ false = ground arith in
    let x = (handler env p evt_exit m).0 in
    let hx = handler_keeps HasTimer has_again env p evt_exit m h in
    rw crosses (record {
      timer = handler_keeps HasTimer has_again env q evt_entry x hx;
      armed = λ w. entry-IsArmed env q x w hx;
    })

pub run-IsAwake :
    (env : Env) (s : State NodeState) (e : Event AppEvent) (n : Node)
    → HasTimer n.tmr
    → (waits s ≡ true → IsArmed n.tmr ⊎ Fired e n.tmr)
    → IsAwake (kissm_run (handler env) same e (in_state s, n))
unfolding kissm_run
run-IsAwake env kissm_initial e n h a = record {
  timer = handler_keeps HasTimer has_again env powerup evt_entry n h;
  armed = λ w. entry-IsArmed env powerup n refl h;
}
run-IsAwake env (app_state p) e n h a =
    let out = handler env p e n in
    transition-IsAwake env p out.0 out.1 (handler_keeps HasTimer has_again env p e n h)
      (λ stays w. elim (a w) [
        | inl armed ↦ handler_keeps IsArmed arms_again env p e n armed
        | inr (late, clear) ↦
            absurd (timeout_leaves env p n w (ap (λ e. (handler env p e n).1) (sym late) ∙ stays))
      ])
      (handler-Handles env p e n).edge

pub free_packet-IsAwake :
    (k : Kissm NodeState) (p : PktPtr) (n : Node) → IsAwake (k, n) → IsAwake (k, free_packet p n)
free_packet-IsAwake k null n v = v
free_packet-IsAwake k rxbuf_ptr n v = record { timer = v.timer; armed = v.armed }

module _ (crc8 : ℕ → ℕ → ℕ) (ee : Eeprom) (env : Env) where
  pass-IsAwake :
      (s : State NodeState) (n : Node)
      → IsAwake (in_state s, n)
      → IsAwake (main_step crc8 ee env (in_state s, n))
  unfolding main_step
  pass-IsAwake s n v =
      let b = run_background env n in
      let ((m, p), e) = next_event crc8 ee env b in
      let (k, m') = kissm_run (handler env) same e (in_state s, m) in
      free_packet-IsAwake k p m' (
        run-IsAwake env s e m (next_event-HasTimer crc8 ee env b v.timer)
          (λ w. next_event_tmr crc8 ee env b (v.armed w)))

  -- Every pass of the main loop keeps this: at most the state timer is scheduled, and in the states
  -- `powerup`, `idle` and `dfu`, which wait for its timeout, it is, for one expiry.
  pub main_step-IsAwake :
      (y : Kissm NodeState × Node)
      → y.0.app_init_state ≡ powerup
      → IsAwake y
      → IsAwake (main_step crc8 ee env y)
  main_step-IsAwake (k, n) i v =
      subst (λ j. IsAwake (main_step crc8 ee env (j, n))) (to_powerup k i)
        (pass-IsAwake k.p_ps n (record { timer = v.timer; armed = v.armed }))
