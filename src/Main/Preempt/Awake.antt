-- ===== src/Main/Preempt/Awake.antt =====
-- The state timer of a node of src/main.c whose main loop is interrupted between any two of its
-- steps.
use bmsnode_firmware.Prelude.{
  ℕ, ◌≡◌, refl, sym, ap, ◌∙◌, ◌⊎◌, inl, inr, true, false, arith, ◌==◌, length,
}
use mathlib.Core.Path.{subst}
use bmsnode_firmware.LinkedList
use bmsnode_firmware.Tmr.{Tmr, tmr_process, tick_isr}
use bmsnode_firmware.Pkt.{PktPtr, null, rxbuf_ptr}
use bmsnode_firmware.Cfg.{Eeprom}
use bmsnode_firmware.Kissm.{Event, State, Kissm}
use bmsnode_firmware.Node.{Node, Env, rxc_isr}
use bmsnode_firmware.Cmd.Buffer.{run_command-tmr}
use bmsnode_firmware.Main.{main_init}
use bmsnode_firmware.Main.States.{AppEvent, NodeState, powerup, tmr_fuel, state_tmr_id}
use bmsnode_firmware.Main.Machine.{in_state, to_powerup}
use bmsnode_firmware.Main.StateTimer.{IsArmed, IsClear, HasTimer}
use bmsnode_firmware.Main.Awake.{waits, clear_process, armed_process, Fired, run-IsAwake}
use bmsnode_firmware.Main.Life.{main_init-IsAwake}
use bmsnode_firmware.Main.Preempt.{
  Preempted, start, after, main, rxc, tick, dre, txc, Occurs, Point, Moment, step, step_at, at_leds,
  at_adc, at_timers, at_ready, at_command, at_release, at_watch, at_reset, at_timeout, at_machine,
  at_free, after_timers, no_packet,
}
use bmsnode_firmware.Main.Preempt.Pass.{between}
use bmsnode_firmware.Main.Preempt.Owned.{IsSound, Preempted-IsSound}

-- The timer has fired, and the state machine is about to get the timeout.
abbrev pub Firing : Point → Tmr → Type 0
Firing (at_machine e p) t = Fired e t
Firing _ t = ⊥

-- At most the state timer is scheduled; and a state that waits for it has it scheduled, or is about
-- to get the timeout.
pub record IsWaking (t : Moment) : Type 0 where
  pub timer : HasTimer t.node.tmr
  pub armed : waits t.kissm.p_ps ≡ true → IsArmed t.node.tmr ⊎ Firing t.point t.node.tmr

-- The timers after `tmr_process`, and where the main loop goes.
timers_armed :
    (t : Tmr)
    → IsArmed t
    → let (u, p) = tmr_process tmr_fuel t in
      IsArmed u
      ⊎ (IsClear u × Firing (after_timers (p == LinkedList.null) (u.id p == state_tmr_id)) u)
timers_armed t a = elim (armed_process t a) [
  | inl (none_late, same_timers) ↦ inl (subst IsArmed (sym same_timers) a)
  | inr (ours, clear, id) ↦
      let (u, p) = tmr_process 2 t in
      let late : (p == LinkedList.null) ≡ false = ground arith in
      let state_late : (u.id p == state_tmr_id) ≡ true =
        ap (λ k. u.id k == state_tmr_id) ours ∙ ap (λ i. i == state_tmr_id) id in
      rw (late, state_late) (inr (clear, (refl, clear)))
]

timers-HasTimer : (t : Tmr) → HasTimer t → HasTimer (tmr_process tmr_fuel t).0
timers-HasTimer t (inl a) = elim (timers_armed t a) [
  | inl armed ↦ inl armed
  | inr (clear, firing) ↦ inr clear
]
timers-HasTimer t (inr c) = inr (subst IsClear (sym (clear_process t c).1) c)

-- A step that is not about the timer leaves it as it was.
quiet :
    (s : State NodeState) (t u : Tmr) (p : Point)
    → u ≡ t
    → (waits s ≡ true → IsArmed t ⊎ ⊥)
    → waits s ≡ true
    → IsArmed u ⊎ Firing p u
quiet s t u p e a w = elim (a w) [
  | inl armed ↦ inl (subst IsArmed (sym e) armed)
  | inr never ↦ absurd never
]

ticked : (p : Point) (t : Tmr) → Firing p t → Firing p (tick_isr t)
unfolding tick_isr
ticked (at_machine e p) t f = (f.0, f.1)
ticked _ t f = f

module _ (crc8 : ℕ → ℕ → ℕ) (ee : Eeprom) where
  abbrev At : Kissm NodeState → Node → Point → Moment
  At k n p = record { kissm = k; node = n; point = p }

  timers-IsWaking :
      (env : Env) (k : Kissm NodeState) (n : Node)
      → IsWaking (At k n at_timers)
      → IsWaking (step_at crc8 ee env k n at_timers)
  timers-IsWaking env k n v = record {
    timer = timers-HasTimer n.tmr v.timer;
    armed = λ w. elim (v.armed w) [
      | inl armed ↦ elim (timers_armed n.tmr armed) [
        | inl still ↦ inl still
        | inr (clear, firing) ↦ inr firing
      ]
      | inr never ↦ absurd never
    ];
  }

  machine-IsWaking :
      (env : Env) (s : State NodeState) (n : Node) (e : Event AppEvent) (p : PktPtr)
      → IsWaking (At (in_state s) n (at_machine e p))
      → IsWaking (step_at crc8 ee env (in_state s) n (at_machine e p))
  machine-IsWaking env s n e p v =
      let w = run-IsAwake env s e n v.timer v.armed in
      record { timer = w.timer; armed = λ h. inl (w.armed h) }

  step_at-IsWaking :
      (env : Env) (k : Kissm NodeState) (n : Node) (p : Point)
      → k.app_init_state ≡ powerup
      → IsWaking (At k n p)
      → IsWaking (step_at crc8 ee env k n p)
  step_at-IsWaking env k n at_leds i v = record { timer = v.timer; armed = v.armed }
  step_at-IsWaking env k n at_adc i v = record { timer = v.timer; armed = v.armed }
  step_at-IsWaking env k n at_timers i v = timers-IsWaking env k n v
  step_at-IsWaking env k n at_ready i v = record {
    timer = v.timer;
    armed = quiet k.p_ps n.tmr n.tmr _ refl v.armed;
  }
  step_at-IsWaking env k n at_command i v =
      let m = record n { pkt_waiting = false } in
      let same_timers = run_command-tmr crc8 ee env m in
      record {
        timer = subst HasTimer (sym same_timers) v.timer;
        armed = quiet k.p_ps n.tmr _ _ same_timers v.armed;
      }
  step_at-IsWaking env k n at_release i v = record { timer = v.timer; armed = v.armed }
  step_at-IsWaking env k n at_watch i v = record {
    timer = v.timer;
    armed = quiet k.p_ps n.tmr n.tmr _ refl v.armed;
  }
  step_at-IsWaking env k n at_reset i v = record {
    timer = v.timer;
    armed = quiet k.p_ps n.tmr n.tmr no_packet refl v.armed;
  }
  step_at-IsWaking env k n at_timeout i v = record {
    timer = v.timer;
    armed = quiet k.p_ps n.tmr n.tmr no_packet refl v.armed;
  }
  step_at-IsWaking env k n (at_machine e p) i v =
      subst (λ j. IsWaking (step_at crc8 ee env j n (at_machine e p))) (to_powerup k i)
        (machine-IsWaking env k.p_ps n e p (record { timer = v.timer; armed = v.armed }))
  step_at-IsWaking env k n (at_free null) i v = record { timer = v.timer; armed = v.armed }
  step_at-IsWaking env k n (at_free rxbuf_ptr) i v = record { timer = v.timer; armed = v.armed }

  Occurs-IsWaking : {t u : Moment} → Occurs crc8 ee t u → IsSound crc8 t → IsWaking t → IsWaking u
  unfolding step rxc_isr tick_isr
  Occurs-IsWaking {t} (main env) s v =
      step_at-IsWaking env t.kissm t.node t.point s.initial
        (record { timer = v.timer; armed = v.armed })
  Occurs-IsWaking (rxc true ch) s v = record { timer = v.timer; armed = v.armed }
  Occurs-IsWaking (rxc false ch) s v = v
  Occurs-IsWaking {t} tick s v = record {
    timer = v.timer;
    armed = λ w. elim (v.armed w) [
      | inl armed ↦ inl armed
      | inr firing ↦ inr (ticked t.point t.node.tmr firing)
    ];
  }
  Occurs-IsWaking (dre f) s v = record { timer = v.timer; armed = v.armed }
  Occurs-IsWaking txc s v = record { timer = v.timer; armed = v.armed }

  -- From the start on, wherever interrupts fall between the steps of the main loop: at most the
  -- state timer is scheduled, and in the states `powerup`, `idle` and `dfu`, which wait for its
  -- timeout, it is scheduled for one expiry, or the timeout is just being passed to the state
  -- machine.
  pub Preempted-IsWaking :
      (n : Node) (t : Moment)
      → length n.pkt.rxbuf ≡ 16
      → Preempted crc8 ee (between (main_init crc8 ee n)) t
      → IsWaking t
  Preempted-IsWaking n t h start =
      let v = main_init-IsAwake crc8 ee n in
      record { timer = v.timer; armed = λ w. inl (v.armed w) }
  Preempted-IsWaking n t h (after r e) =
      Occurs-IsWaking e (Preempted-IsSound crc8 ee n _ h r) (Preempted-IsWaking n _ h r)
