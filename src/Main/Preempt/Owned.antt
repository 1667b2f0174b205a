-- ===== src/Main/Preempt/Owned.antt =====
-- The receive buffer, the watchdog and the state of a node of src/main.c whose main loop is
-- interrupted between any two of its steps.
use bmsnode_firmware.Prelude.{ℕ, ◌≡◌, refl, sym, ◌∙◌, Bool, true, false, not, arith, ◌==◌, length}
use mathlib.Core.Path.{subst}
use bmsnode_firmware.Pkt.{Pkt, PktPtr, null, rxbuf_ptr, is_null, pkt_ready, pkt_reset, pkt_rx_free}
use bmsnode_firmware.Pkt.Owner.{
  System, IsOwned, byte, pick_up, free, reset, here, next, Reach-IsOwned,
}
use bmsnode_firmware.Cfg.{Eeprom}
use bmsnode_firmware.Kissm.{Event, State, Kissm}
use bmsnode_firmware.Node.{Node, Env, rxc_isr}
use bmsnode_firmware.Cmd.{run_command}
use bmsnode_firmware.Cmd.Buffer.{run_command-pkt, run_command-wdt}
use bmsnode_firmware.Main.{main_init}
use bmsnode_firmware.Main.States.{AppEvent, NodeState, powerup, tmr_fuel, state_tmr_id}
use bmsnode_firmware.Main.Machine.{is_outer, is_awake, in_state, to_powerup, run-Ran}
use bmsnode_firmware.LinkedList
use bmsnode_firmware.Tmr.{tmr_process}
use bmsnode_firmware.Main.Run.{main_init-IsRunning}
use bmsnode_firmware.Main.Preempt.{
  Preempted, start, after, main, rxc, tick, dre, txc, Occurs, Point, Moment, step, step_at, at_leds,
  at_adc, at_timers, at_ready, at_command, at_release, at_watch, at_reset, at_timeout, at_machine,
  at_free, no_packet, after_timers, after_watch, after_ready, after_command,
}
use bmsnode_firmware.Main.Preempt.Pass.{between}

-- The main loop has a packet that `pkt_ready` has returned and that is not yet freed.
abbrev pub holds : Point → Bool
holds at_command = true
holds at_release = true
holds (at_machine e p) = not (is_null p)
holds (at_free p) = not (is_null p)
holds _ = false

-- An event for the state machine is not one of its own.
abbrev pub IsOuter : Point → Type 0
IsOuter (at_machine e p) = is_outer e ≡ true
IsOuter _ = Unit {0}

abbrev pub client_of : Moment → System
client_of t = record { pkt = t.node.pkt; held = holds t.point }

module _ (crc8 : ℕ → ℕ → ℕ) where
  pub record IsSound (t : Moment) : Type 0 where
    pub initial : t.kissm.app_init_state ≡ powerup
    pub owned : IsOwned crc8 (client_of t)
    pub watched : t.node.mcu.wdt_enabled ≡ is_awake t.kissm.p_ps
    pub outer : IsOuter t.point

after_timers_free :
    (quiet ours : Bool)
    → (holds (after_timers quiet ours) ≡ false) × IsOuter (after_timers quiet ours)
after_timers_free true ours = (refl, tt)
after_timers_free false true = (refl, refl)
after_timers_free false false = (refl, refl)

after_watch_free : (n : Node) → (holds (after_watch n) ≡ false) × IsOuter (after_watch n)
after_watch_free n = ground arith

module _ (crc8 : ℕ → ℕ → ℕ) where
  -- A step of the main loop to another point, as the client of the packet processor.
  moved :
      (k : Kissm NodeState) (n m : Node) (p q : Point)
      → IsSound crc8 (record { kissm = k; node = n; point = p })
      → IsOwned crc8 (record { pkt = m.pkt; held = holds q })
      → m.mcu.wdt_enabled ≡ n.mcu.wdt_enabled
      → IsOuter q
      → IsSound crc8 (record { kissm = k; node = m; point = q })
  moved k n m p q v o w outer = record {
    initial = v.initial;
    owned = o;
    watched = w ∙ v.watched;
    outer = outer;
  }

  held_same :
      (s : Pkt) (a b : Bool)
      → a ≡ b
      → IsOwned crc8 (record { pkt = s; held = b })
      → IsOwned crc8 (record { pkt = s; held = a })
  held_same s a b e o = subst (λ h. IsOwned crc8 (record { pkt = s; held = h })) (sym e) o

  after_ready-IsOwned :
      (s : Pkt) (p : PktPtr)
      → IsOwned crc8 (record { pkt = s; held = not (is_null p) })
      → IsOwned crc8 (record { pkt = s; held = holds (after_ready p) }) × IsOuter (after_ready p)
  after_ready-IsOwned s null o = (o, tt)
  after_ready-IsOwned s rxbuf_ptr o = (o, tt)

  after_command-IsOwned :
      (s : Pkt) (ret : Bool)
      → IsOwned crc8 (record { pkt = s; held = true })
      → IsOwned crc8 (record { pkt = s; held = holds (after_command ret) })
        × IsOuter (after_command ret)
  after_command-IsOwned s true o = (o, refl)
  after_command-IsOwned s false o = (o, tt)

  freed-IsOwned :
      (s : Pkt)
      → IsOwned crc8 (record { pkt = s; held = true })
      → IsOwned crc8 (record { pkt = pkt_rx_free s; held = false })
  freed-IsOwned s o = Reach-IsOwned crc8 o (next here (free (record { pkt = s; held = true }) refl))

module _ (crc8 : ℕ → ℕ → ℕ) (ee : Eeprom) where
  machine-IsSound :
      (env : Env) (s : State NodeState) (n : Node) (e : Event AppEvent) (p : PktPtr)
      → IsSound crc8 (record { kissm = in_state s; node = n; point = at_machine e p })
      → IsSound crc8 (step_at crc8 ee env (in_state s) n (at_machine e p))
  machine-IsSound env s n e p v =
      let ran = run-Ran env s e n v.outer in
      record {
        initial = ran.initial;
        owned =
            subst (λ x. IsOwned crc8 (record { pkt = x; held = not (is_null p) })) (sym ran.packet)
              v.owned;
        watched = ran.watched v.watched;
        outer = tt;
      }

  step_at-IsSound :
      (env : Env) (k : Kissm NodeState) (n : Node) (p : Point)
      → IsSound crc8 (record { kissm = k; node = n; point = p })
      → IsSound crc8 (step_at crc8 ee env k n p)
  step_at-IsSound env k n at_leds v = record {
    initial = v.initial;
    owned = v.owned;
    watched = v.watched;
    outer = tt;
  }
  step_at-IsSound env k n at_adc v = record {
    initial = v.initial;
    owned = v.owned;
    watched = v.watched;
    outer = tt;
  }
  step_at-IsSound env k n at_timers v =
      let (tmr, expired) = tmr_process tmr_fuel n.tmr in
      let (unheld, outer) =
        after_timers_free (expired == LinkedList.null) (tmr.id expired == state_tmr_id) in
      moved crc8 k n (record n { tmr = tmr }) at_timers _ v
        (held_same crc8 n.pkt _ false unheld v.owned) refl outer
  step_at-IsSound env k n at_ready v =
      let (pkt, ready) = pkt_ready n.pkt in
      let (o, outer) = after_ready-IsOwned crc8 pkt ready (
        Reach-IsOwned crc8 v.owned
          (next here (pick_up (record { pkt = n.pkt; held = false }) refl))) in
      moved crc8 k n (record n { pkt = pkt }) at_ready _ v o refl outer
  step_at-IsSound env k n at_command v =
      let m = record n { pkt_waiting = false } in
      let (out, ret) = run_command crc8 ee env m in
      let (o, outer) = after_command-IsOwned crc8 out.pkt ret (
        subst (λ x. IsOwned crc8 (record { pkt = x; held = true }))
          (sym (run_command-pkt crc8 ee env m)) v.owned) in
      moved crc8 k n out at_command _ v o (run_command-wdt crc8 ee env m) outer
  step_at-IsSound env k n at_release v =
      moved crc8 k n (record n { pkt = pkt_rx_free n.pkt }) at_release at_watch v
        (freed-IsOwned crc8 n.pkt v.owned) refl tt
  step_at-IsSound env k n at_watch v =
      let (unheld, outer) = after_watch_free n in
      moved crc8 k n n at_watch _ v (held_same crc8 n.pkt _ false unheld v.owned) refl outer
  step_at-IsSound env k n at_reset v =
      moved crc8 k n (record n { pkt = pkt_reset n.pkt; pkt_waiting = false }) at_reset no_packet v
        (Reach-IsOwned crc8 v.owned (next here (reset (record { pkt = n.pkt; held = false }) refl)))
        refl refl
  step_at-IsSound env k n at_timeout v = record {
    initial = v.initial;
    owned = v.owned;
    watched = v.watched;
    outer = refl;
  }
  step_at-IsSound env k n (at_machine e p) v =
      subst (λ j. IsSound crc8 (step_at crc8 ee env j n (at_machine e p))) (to_powerup k v.initial)
        (machine-IsSound env k.p_ps n e p
          (record { initial = refl; owned = v.owned; watched = v.watched; outer = v.outer }))
  step_at-IsSound env k n (at_free null) v = record {
    initial = v.initial;
    owned = v.owned;
    watched = v.watched;
    outer = tt;
  }
  step_at-IsSound env k n (at_free rxbuf_ptr) v =
      moved crc8 k n (record n { pkt = pkt_rx_free n.pkt }) (at_free rxbuf_ptr) at_leds v
        (freed-IsOwned crc8 n.pkt v.owned) refl tt

  pub Occurs-IsSound : {t u : Moment} → Occurs crc8 ee t u → IsSound crc8 t → IsSound crc8 u
  unfolding step rxc_isr
  Occurs-IsSound {t} (main env) v =
      step_at-IsSound env t.kissm t.node t.point
        (record { initial = v.initial; owned = v.owned; watched = v.watched; outer = v.outer })
  Occurs-IsSound {t} (rxc true ch) v = record {
    initial = v.initial;
    owned = Reach-IsOwned crc8 v.owned (next here (byte (client_of t) ch));
    watched = v.watched;
    outer = v.outer;
  }
  Occurs-IsSound (rxc false ch) v = v
  Occurs-IsSound tick v = record {
    initial = v.initial;
    owned = v.owned;
    watched = v.watched;
    outer = v.outer;
  }
  Occurs-IsSound (dre f) v = record {
    initial = v.initial;
    owned = v.owned;
    watched = v.watched;
    outer = v.outer;
  }
  Occurs-IsSound txc v = record {
    initial = v.initial;
    owned = v.owned;
    watched = v.watched;
    outer = v.outer;
  }

  -- From the start on, wherever interrupts fall between the steps of the main loop: the receive
  -- buffer has exactly one owner or none and is marked accordingly, the main loop being the owner
  -- from the pick-up of a packet until it frees it; the parser stays within its buffer; and the
  -- watchdog is on in every state but `sleep`.
  pub Preempted-IsSound :
      (n : Node) (t : Moment)
      → length n.pkt.rxbuf ≡ 16
      → Preempted crc8 ee (between (main_init crc8 ee n)) t
      → IsSound crc8 t
  Preempted-IsSound n t h start =
      let v = main_init-IsRunning crc8 ee n h in
      record { initial = v.initial; owned = v.owned; watched = v.watched; outer = tt }
  Preempted-IsSound n t h (after r e) = Occurs-IsSound e (Preempted-IsSound n _ h r)
