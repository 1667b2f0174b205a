-- ===== src/Main/Timeout.antt =====
-- A node of src/main.c whose state timer has expired goes on to the next state, and one that sleeps
-- wakes up.
use bmsnode_firmware.Prelude.{
  ℕ, ◌≡◌, refl, sym, ap, ◌∙◌, ◌⊎◌, inl, inr, Bool, true, false, some, [], ◌∷◌, arith, ◌==◌, length,
}
use mathlib.Core.Path.{subst}
use bmsnode_firmware.LinkedList
use bmsnode_firmware.Tmr.{Tmr, tmr_process, tmr_expired}
use bmsnode_firmware.Tmr.Schedule.{tmr_process_lem, tmr_process-id}
use bmsnode_firmware.Cfg.{Eeprom}
use bmsnode_firmware.Kissm.{Event, evt_app, app_state, Kissm, kissm_run, transition}
use bmsnode_firmware.Node.{Node, Env}
use bmsnode_firmware.Main.{main_init, main_step, next_event, run_background}
use bmsnode_firmware.Main.States.{
  NodeState, powerup, idle, dfu, shunt, testmode, sleep, AppEvent, evt_timeout, state_tmr,
  state_tmr_id, powerup_handler, idle_handler, dfu_handler, handler, same,
}
use bmsnode_firmware.Main.Machine.{in_state, to_powerup, sleep_handler_wakes}
use bmsnode_firmware.Main.Loop.{next_event-is_outer}
use bmsnode_firmware.Main.StateTimer.{IsArmed}
use bmsnode_firmware.Main.Awake.{waits}
use bmsnode_firmware.Main.Life.{Run-IsAwake}
use bmsnode_firmware.Main.Run.{Run, Run-IsRunning}

-- The state that follows when nothing happens.
abbrev pub follower : NodeState → NodeState
follower idle = sleep
follower _ = idle

abbrev pub is_late : Tmr → Bool
is_late t = tmr_expired t.systick (t.timeout state_tmr)

timeout_moves :
    (env : Env) (p : NodeState) (n : Node)
    → waits (app_state p) ≡ true
    → (handler env p (evt_app evt_timeout) n).1 ≡ some (follower p)
unfolding powerup_handler idle_handler dfu_handler
timeout_moves env powerup n w = refl
timeout_moves env idle n w = refl
timeout_moves env dfu n w = refl
timeout_moves env shunt n w = absurd (ground arith)
timeout_moves env testmode n w = absurd (ground arith)
timeout_moves env sleep n w = absurd (ground arith)

late_process :
    (t : Tmr)
    → IsArmed t
    → is_late t ≡ true
    → let (u, p) = tmr_process 2 t in
      ((p == LinkedList.null) ≡ false) × ((u.id p == state_tmr_id) ≡ true)
late_process t (s, once, id) late =
    let (u, p) = tmr_process 2 t in
    let at : (tmr_process 2 t).1 ≡ 2 =
      (tmr_process_lem 2 t (2 ∷ []) s (omega arith)).0 ∙ rw late refl in
    let same_id = ap (λ (f : ℕ → ℕ). f 2) (tmr_process-id 2 t) ∙ id in
    (ground arith, ap (λ k. u.id k == state_tmr_id) at ∙ ap (λ i. i == state_tmr_id) same_id)

-- A handler that asks for another state gets it.
moved :
    (env : Env) (p q : NodeState) (e : Event AppEvent) (n : Node)
    → (handler env p e n).1 ≡ some q
    → same p q ≡ false
    → (kissm_run (handler env) same e (in_state (app_state p), n)).0.p_ps ≡ app_state q
unfolding kissm_run
moved env p q e n asks other =
    let m = (handler env p e n).0 in
    subst
      (λ ns. (transition (handler env) same (in_state (app_state p)) (m, ns)).0.p_ps ≡ app_state q)
      (sym asks) (rw other refl)

not_itself : (p : NodeState) → waits (app_state p) ≡ true → same p (follower p) ≡ false
not_itself p w = ground arith

-- The state goes on by itself: its timer has expired, or it is `sleep`.
abbrev pub GoesOn : NodeState → Tmr → Type 0
GoesOn p t = ((waits (app_state p) ≡ true) × (is_late t ≡ true)) ⊎ (p ≡ sleep)

module _ (crc8 : ℕ → ℕ → ℕ) (ee : Eeprom) (env : Env) where
  next_event_late :
      (n : Node)
      → IsArmed n.tmr
      → is_late n.tmr ≡ true
      → (next_event crc8 ee env n).1 ≡ evt_app evt_timeout
  next_event_late n a late =
      let (some_late, ours) = late_process n.tmr a late in rw (some_late, ours) refl

  pub late_pass :
      (p : NodeState) (n : Node)
      → waits (app_state p) ≡ true
      → IsArmed n.tmr
      → is_late n.tmr ≡ true
      → (main_step crc8 ee env (in_state (app_state p), n)).0.p_ps ≡ app_state (follower p)
  unfolding main_step
  late_pass p n w a late =
      let b = run_background env n in
      let ((m, ptr), e) = next_event crc8 ee env b in
      let fires = next_event_late b a late in
      moved env p (follower p) e m
        (subst (λ e. (handler env p e m).1 ≡ some (follower p)) (sym fires)
          (timeout_moves env p m w))
        (not_itself p w)

  sleep_pass :
      (n : Node) → (main_step crc8 ee env (in_state (app_state sleep), n)).0.p_ps ≡ app_state idle
  unfolding main_step
  sleep_pass n =
      let b = run_background env n in
      let ((m, ptr), e) = next_event crc8 ee env b in
      moved env sleep idle e m
        (ap (λ out. out.1) (sleep_handler_wakes e m (next_event-is_outer crc8 ee env b))) refl

  on_pass :
      (p : NodeState) (n : Node)
      → (waits (app_state p) ≡ true → IsArmed n.tmr)
      → GoesOn p n.tmr
      → (main_step crc8 ee env (in_state (app_state p), n)).0.p_ps ≡ app_state (follower p)
  on_pass p n a (inl (w, late)) = late_pass p n w (a w) late
  on_pass p n a (inr asleep) =
      subst
        (λ q. (main_step crc8 ee env (in_state (app_state q), n)).0.p_ps ≡ app_state (follower q))
        (sym asleep) (sleep_pass n)

  -- In every state that a node reaches from its start: when the state timer of `powerup`, `idle` or
  -- `dfu` has expired, the next pass goes on, to `idle`, `sleep` and `idle`; and when a node that
  -- sleeps is woken, the next pass goes to `idle`.
  pub Run-follower :
      (n : Node) (z : Kissm NodeState × Node) (p : NodeState)
      → length n.pkt.rxbuf ≡ 16
      → Run crc8 ee (main_init crc8 ee n) z
      → z.0.p_ps ≡ app_state p
      → GoesOn p z.1.tmr
      → (main_step crc8 ee env z).0.p_ps ≡ app_state (follower p)
  Run-follower n (k, m) p h r here go =
      let awake = Run-IsAwake crc8 ee n (k, m) h r in
      let initial = (Run-IsRunning crc8 ee n (k, m) h r).initial in
      let same_state : in_state (app_state p) ≡ k = ap in_state (sym here) ∙ to_powerup k initial in
      subst (λ j. (main_step crc8 ee env (j, m)).0.p_ps ≡ app_state (follower p)) same_state
        (on_pass p m (λ w. awake.armed (ap waits here ∙ w)) go)
