-- ===== src/Main/Preempt/Pass.antt =====
-- A pass of the main loop of src/main.c without interrupts is the steps of the main loop one after
-- another.
use bmsnode_firmware.Prelude.{
  ℕ, zero, suc, ◌≤◌, ◌≡◌, refl, inl, inr, Bool, true, false, arith, ◌==◌, Bool-cases,
}
use bmsnode_firmware.LinkedList
use bmsnode_firmware.Tmr.{tmr_process, tmr_expired}
use bmsnode_firmware.Pkt.{PktPtr, null, rxbuf_ptr, pkt_is_active, pkt_ready, pkt_rx_free}
use bmsnode_firmware.Cfg.{Eeprom}
use bmsnode_firmware.Kissm.{Event, evt_none, evt_app, Kissm}
use bmsnode_firmware.Node.{Node, Env}
use bmsnode_firmware.Cmd.{run_command, watch_packet, cmd_process, process_packet, finish_command}
use bmsnode_firmware.Cmd.Code.{ticks_of}
use bmsnode_firmware.Led.{led_run}
use bmsnode_firmware.Main.{cmd_event, main_step, next_event, run_background}
use bmsnode_firmware.Main.States.{AppEvent, NodeState, evt_timeout, state_tmr_id, tmr_fuel}
use mathlib.Core.Path.{subst}
use bmsnode_firmware.Main.Run
use bmsnode_firmware.Main.Run.{Run}
use bmsnode_firmware.Main.Preempt.{
  Preempted, start, after, main, rxc, tick, dre, txc, Point, Moment, step, at_leds, at_adc,
  at_timers, at_ready, at_command, at_release, at_watch, at_machine, after_ready, after_command,
}

-- The moment between two passes.
abbrev pub between : Kissm NodeState × Node → Moment
between (k, n) = record { kissm = k; node = n; point = at_leds }

module _ (crc8 : ℕ → ℕ → ℕ) (ee : Eeprom) (env : Env) where
  pub steps : ℕ → Moment → Moment
  steps zero t = t
  steps (suc j) t = steps j (step crc8 ee env t)

  -- From a point on, some number of steps, at most `j`, leads there.
  abbrev Leads : ℕ → Moment → Moment → Type 0
  Leads most t u = (j : ℕ) × (j ≤ most) × (steps j t ≡ u)

  more : (most : ℕ) (t u : Moment) → Leads most (step crc8 ee env t) u → Leads (suc most) t u
  unfolding steps
  more most t u (j, le, e) = (suc j, omega arith, e)

  abbrev moment : Kissm NodeState → Node → Point → Moment
  moment k n p = record { kissm = k; node = n; point = p }

  -- The state machine, with the packet that the event names.
  abbrev finished : Kissm NodeState → (Node × PktPtr) × Event AppEvent → Moment
  finished k ((m, p), e) = step crc8 ee env (step crc8 ee env (moment k m (at_machine e p)))

  machine :
      (k : Kissm NodeState) (most : ℕ) (out : (Node × PktPtr) × Event AppEvent)
      → 2 ≤ most
      → Leads most (moment k out.0.0 (at_machine out.1 out.0.1)) (finished k out)
  unfolding steps
  machine k most out le = (2, omega arith, refl)

  -- The steps of `cmd_process`, from its last one on.
  watch :
      (k : Kissm NodeState) (n : Node)
      → Leads 4 (moment k n at_watch) (finished k ((watch_packet n, null), evt_none))
  unfolding steps step watch_packet
  watch k n = elim (Bool-cases n.pkt_waiting) [
    | inl waiting ↦ elim (Bool-cases (tmr_expired (ticks_of n) n.pkt_timeout)) [
      | inl late ↦ (4, omega arith, rw (waiting, late) refl)
      | inr early ↦ (3, omega arith, rw (waiting, early) refl)
    ]
    | inr fresh ↦ elim (Bool-cases (pkt_is_active n.pkt)) [
      | inl active ↦ (4, omega arith, rw (fresh, active) refl)
      | inr still ↦ (3, omega arith, rw (fresh, still) refl)
    ]
  ]

  -- What a pass makes of the result of the command processor.
  abbrev as_event : Node × PktPtr → (Node × PktPtr) × Event AppEvent
  as_event (n, p) = ((n, p), cmd_event p)

  returned :
      (k : Kissm NodeState) (out : Node × Bool)
      → Leads 5 (moment k out.0 (after_command out.1)) (finished k (as_event (finish_command out)))
  unfolding step
  returned k (n, true) = machine k 5 (as_event (n, rxbuf_ptr)) (omega arith)
  returned k (n, false) =
      more 4 (moment k n at_release) (finished k (as_event (finish_command (n, false))))
        (watch k (record n { pkt = pkt_rx_free n.pkt }))

  picked :
      (k : Kissm NodeState) (n : Node) (p : PktPtr)
      → Leads 6
          (moment k n (after_ready p))
          (finished k (as_event (process_packet crc8 ee env n p)))
  unfolding step
  picked k n null = let (j, le, e) = watch k n in (j, omega arith, e)
  picked k n rxbuf_ptr =
      let out = run_command crc8 ee env (record n { pkt_waiting = false }) in
      more 5 (moment k n at_command) (finished k (as_event (finish_command out))) (returned k out)

  ready :
      (k : Kissm NodeState) (n : Node)
      → Leads 7 (moment k n at_ready) (finished k (as_event (cmd_process crc8 ee env n)))
  unfolding step cmd_process
  ready k n =
      let (pkt, p) = pkt_ready n.pkt in
      more 6 (moment k n at_ready)
        (finished k (as_event (process_packet crc8 ee env (record n { pkt = pkt }) p)))
        (picked k (record n { pkt = pkt }) p)

  timers :
      (k : Kissm NodeState) (n : Node)
      → Leads 8 (moment k n at_timers) (finished k (next_event crc8 ee env n))
  unfolding step
  timers k n =
      let (tmr, expired) = tmr_process tmr_fuel n.tmr in
      let m = record n { tmr = tmr } in
      more 7 (moment k n at_timers) (finished k (next_event crc8 ee env n))
        (elim (Bool-cases (expired == LinkedList.null)) [
          | inl quiet ↦ rw quiet (ready k m)
          | inr late ↦ elim (Bool-cases (tmr.id expired == state_tmr_id)) [
            | inl ours ↦
                rw (late, ours) (machine k 7 ((m, null), evt_app evt_timeout) (omega arith))
            | inr other ↦ rw (late, other) (machine k 7 ((m, null), evt_none) (omega arith))
          ]
        ])

  -- Without interrupts, the steps of the main loop from one pass to the next do what `main_step`
  -- does, and they are at most ten.
  pub steps-main_step :
      (y : Kissm NodeState × Node)
      → (j : ℕ) × (j ≤ 10) × (steps j (between y) ≡ between (main_step crc8 ee env y))
  unfolding step main_step
  steps-main_step (k, n) =
      let b = n.board in
      let lit = record n { board = record b { leds = led_run (ticks_of n) b.leds } } in
      let done = finished k (next_event crc8 ee env (run_background env n)) in
      more 9 (moment k n at_leds) done
        (more 8 (moment k lit at_adc) done (timers k (run_background env n)))

module _ (crc8 : ℕ → ℕ → ℕ) (ee : Eeprom) where
  steps-Preempted :
      (env : Env) (j : ℕ) {t u : Moment}
      → Preempted crc8 ee t u
      → Preempted crc8 ee t (steps crc8 ee env j u)
  unfolding steps
  steps-Preempted env zero r = r
  steps-Preempted env (suc j) r = steps-Preempted env j (after r (main env))

  -- What happens with interrupts between the passes only is among what happens with interrupts
  -- between any two steps.
  pub Run-Preempted :
      {y z : Kissm NodeState × Node} → Run crc8 ee y z → Preempted crc8 ee (between y) (between z)
  Run-Preempted Run.start = start
  Run-Preempted {y} (Run.after {z = x} r (Run.pass env)) =
      let (j, le, e) = steps-main_step crc8 ee env x in
      subst (Preempted crc8 ee (between y)) e (steps-Preempted env j (Run-Preempted r))
  Run-Preempted (Run.after r (Run.rxc f ch)) = after (Run-Preempted r) (rxc f ch)
  Run-Preempted (Run.after r Run.tick) = after (Run-Preempted r) tick
  Run-Preempted (Run.after r (Run.dre f)) = after (Run-Preempted r) (dre f)
  Run-Preempted (Run.after r Run.txc) = after (Run-Preempted r) txc
