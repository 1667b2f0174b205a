-- ===== src/Main/Lull.antt =====
-- A node of src/main.c in the state `idle` while nothing arrives and nothing is sent: when it falls
-- asleep.
pub mod Pass
use bmsnode_firmware.Prelude.{
  ℕ, suc, ◌+◌, ◌-◌, ◌<◌, ◌≡◌, refl, sym, ap, ap₂, ◌∙◌, inl, inr, false, ◌&&◌, arith, ltb, leb, ◌==◌,
  if◌then◌else◌, Bool-cases, u16, length, set,
}
use mathlib.Core.Path.{subst}
use bmsnode_firmware.LinkedList
use bmsnode_firmware.Tmr.{Tmr, tick_isr, tmr_set, tmr_expired}
use bmsnode_firmware.Tmr.Expiry.{tmr_expired-set}
use bmsnode_firmware.Pkt.{null}
use bmsnode_firmware.Cfg.{Eeprom}
use bmsnode_firmware.Kissm.{Kissm, app_state}
use bmsnode_firmware.Node.{Node, Env}
use bmsnode_firmware.Main.{main_init, main_step, run_background}
use bmsnode_firmware.Main.States.{sleep, NodeState, idle, state_tmr}
use bmsnode_firmware.Main.Machine.{to_powerup, in_state}
use bmsnode_firmware.Main.StateTimer.{IsArmed}
use bmsnode_firmware.Main.Awake.{waits}
use bmsnode_firmware.Main.Life.{Run-IsAwake}
use bmsnode_firmware.Main.Run.{Run, Run-IsRunning}
use bmsnode_firmware.Main.Timeout.{late_pass, is_late}
use bmsnode_firmware.Main.Lull.Pass.{IsSilent, watch_packet-tmr, unanswered-IsSilent, silent_pass}

module _ (crc8 : ℕ → ℕ → ℕ) (ee : Eeprom) where
  -- What happens in a lull, with the number of its ticks: ticks, and passes that see no byte.
  pub data Lull (y : Kissm NodeState × Node) : ℕ → Kissm NodeState × Node → Type 0 where
    begin : Lull y 0 y
    pass :
        {k : ℕ} {z : Kissm NodeState × Node} (env : Env)
        → env.rxcif ≡ false
        → Lull y k z
        → Lull y k (main_step crc8 ee env z)
    tick :
        {k : ℕ} {z : Kissm NodeState × Node}
        → Lull y k z
        → Lull y (suc k) (z.0, record z.1 { tmr = tick_isr z.1.tmr })

-- Idle and silent for `k` ticks since `now`.
record Idles (now k : ℕ) (z : Kissm NodeState × Node) : Type 0 where
  state : z.0 ≡ in_state (app_state idle)
  armed : IsArmed z.1.tmr
  deadline : z.1.tmr.timeout state_tmr ≡ tmr_set now 1000
  clock : z.1.tmr.systick ≡ u16 (now + k)
  silent : IsSilent z.1

Idles-is_late :
    (now k : ℕ) (z : Kissm NodeState × Node)
    → Idles now k z
    → k < 65536
    → is_late z.1.tmr ≡ (leb 1000 k && ltb k 33768)
Idles-is_late now k z v h =
    ap₂ tmr_expired v.clock v.deadline ∙ tmr_expired-set now 1000 k (omega arith) h

module _ (crc8 : ℕ → ℕ → ℕ) (ee : Eeprom) (env : Env) where
  pass-Idles :
      (now k : ℕ) (z : Kissm NodeState × Node)
      → k < 1000
      → env.rxcif ≡ false
      → Idles now k z
      → Idles now k (main_step crc8 ee env z)
  pass-Idles now k (s, n) h quiet v =
      let b = run_background env n in
      let tmr = watch_packet-tmr (record b { pkt = record b.pkt { ready_packet = null } }) in
      let early : is_late n.tmr ≡ false = ground (arith, Idles-is_late now k (s, n) v) in
      let silent =
        unanswered-IsSilent b (record { packet = v.silent.packet; serial = v.silent.serial }) in
      let same_timer = λ (P : Tmr → Type 0) (p : P n.tmr). subst P (sym tmr) p in
      subst (λ x. Idles now k (main_step crc8 ee env (x, n))) (sym v.state)
        (subst (Idles now k) (sym (silent_pass crc8 ee env n v.silent v.armed early quiet))
          (record {
            state = refl;
            armed = same_timer IsArmed v.armed;
            deadline = same_timer (λ t. t.timeout state_tmr ≡ tmr_set now 1000) v.deadline;
            clock = same_timer (λ t. t.systick ≡ u16 (now + k)) v.clock;
            silent = record { packet = silent.packet; serial = silent.serial };
          }))

tick-Idles :
    (now k : ℕ) (z : Kissm NodeState × Node)
    → Idles now k z
    → Idles now (suc k) (z.0, record z.1 { tmr = tick_isr z.1.tmr })
unfolding tick_isr
tick-Idles now k z v = record {
  state = v.state;
  armed = v.armed;
  deadline = v.deadline;
  clock = omega (arith, v.clock);
  silent = record { packet = v.silent.packet; serial = v.silent.serial };
}

module _ (crc8 : ℕ → ℕ → ℕ) (ee : Eeprom) where
  Lull-Idles :
      (now : ℕ) (y : Kissm NodeState × Node) (k : ℕ) (z : Kissm NodeState × Node)
      → Idles now 0 y
      → k < 1000
      → Lull crc8 ee y k z
      → Idles now k z
  Lull-Idles now y k z v h begin = v
  Lull-Idles now y k z v h (pass {k = j} {z = x} env quiet l) =
      pass-Idles crc8 ee env now j x h quiet (Lull-Idles now y j x v h l)
  Lull-Idles now y k z v h (tick {k = j} {z = x} l) =
      tick-Idles now j x (Lull-Idles now y j x v (omega arith) l)

  late_sleeps :
      (env : Env) (now : ℕ) (z : Kissm NodeState × Node)
      → Idles now 1000 z
      → (main_step crc8 ee env z).0.p_ps ≡ app_state sleep
  late_sleeps env now (s, n) v =
      subst (λ x. (main_step crc8 ee env (x, n)).0.p_ps ≡ app_state sleep) (sym v.state)
        (late_pass crc8 ee env idle n refl v.armed (Idles-is_late now 1000 (s, n) v (omega arith)))

  -- A node that has come from its start to `idle`, whose state timer has just been set for 1000 ms
  -- at a 16 bit tick, and which is silent, stays in `idle` for the next 999 ticks of a lull, however
  -- passes and ticks alternate. After one more tick, a pass that sees no byte goes to `sleep` when
  -- this was the 1000th tick, and stays in `idle` before.
  pub idle_falls_asleep :
      (n : Node) (y z : Kissm NodeState × Node) (k : ℕ) (env : Env)
      → length n.pkt.rxbuf ≡ 16
      → Run crc8 ee (main_init crc8 ee n) y
      → y.0.p_ps ≡ app_state idle
      → y.1.tmr.systick < 65536
      → y.1.tmr.timeout state_tmr ≡ tmr_set y.1.tmr.systick 1000
      → IsSilent y.1
      → k < 1000
      → Lull crc8 ee y k z
      → env.rxcif ≡ false
      → let next = main_step crc8 ee env (z.0, record z.1 { tmr = tick_isr z.1.tmr }) in
        (z.0.p_ps ≡ app_state idle) × (next.0.p_ps ≡ app_state (if k == 999 then sleep else idle))
  idle_falls_asleep n y z k env size r at tick16 set silent h l quiet =
      let now = y.1.tmr.systick in
      let running = Run-IsRunning crc8 ee n y size r in
      let armed = (Run-IsAwake crc8 ee n y size r).armed (ap waits at) in
      let begins : Idles now 0 y = record {
        state = sym (to_powerup y.0 running.initial) ∙ ap in_state at;
        armed = armed;
        deadline = set;
        clock = omega arith;
        silent = record { packet = silent.packet; serial = silent.serial };
      } in
      let v = Lull-Idles now y k z begins h l in
      let w = tick-Idles now k z v in
      let after_tick : Kissm NodeState × Node = (z.0, record z.1 { tmr = tick_isr z.1.tmr }) in
      let idles = λ (x : Kissm NodeState). x.p_ps in
      (
        ap idles v.state,
        elim (Bool-cases (k == 999)) [
          | inl last ↦
              let last_tick : suc k ≡ 1000 = ground (arith, last) in
              rw last
                (late_sleeps env now after_tick (subst (λ j. Idles now j after_tick) last_tick w))
          | inr before ↦
              let u =
                pass-Idles crc8 ee env now (suc k) after_tick (ground (arith, before)) quiet w in
              rw before (ap idles u.state)
        ],
      )
