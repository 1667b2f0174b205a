-- ===== src/Main/Loop.antt =====
-- What every pass of the main loop of src/main.c keeps: the receive buffer is never lost, the state
-- follows the transitions, and the watchdog and the outputs go with it.
use bmsnode_firmware.Prelude.{
  ℕ, ◌≡◌, refl, sym, ap, ◌∙◌, ◌⊎◌, inl, inr, true, not, arith, ◌==◌, Bool-cases,
}
use mathlib.Core.Path.{subst}
use bmsnode_firmware.Pkt.{is_null, PktPtr, null, rxbuf_ptr}
use bmsnode_firmware.Pkt.Owner.{IsOwned, free, here, next, Reach-IsOwned}
use bmsnode_firmware.Cfg.{Eeprom}
use bmsnode_firmware.Kissm.{State, app_state, Kissm, kissm_run}
use bmsnode_firmware.Node.{Node, Env}
use bmsnode_firmware.LinkedList
use bmsnode_firmware.Tmr.{tmr_process}
use bmsnode_firmware.Cmd.Buffer.{client, cmd_process-IsOwned, cmd_process-wdt}
use bmsnode_firmware.Main.{free_packet, main_step, next_event, run_background}
use bmsnode_firmware.Main.States.{tmr_fuel, state_tmr_id, NodeState, powerup, sleep, handler, same}
use bmsnode_firmware.Main.Machine.{
  is_outer, is_awake, is_move, IsQuiet, in_state, to_powerup, run-Ran,
}

module _ (crc8 : ℕ → ℕ → ℕ) where
  -- What holds between the passes: nobody but the packet processor has the receive buffer, and the
  -- watchdog is off exactly in the state `sleep`.
  pub record IsRunning (y : Kissm NodeState × Node) : Type 0 where
    pub initial : y.0.app_init_state ≡ powerup
    pub owned : IsOwned crc8 (client (y.1, null))
    pub watched : y.1.mcu.wdt_enabled ≡ is_awake y.0.p_ps

module _ (crc8 : ℕ → ℕ → ℕ) (ee : Eeprom) (env : Env) where
  pub next_event-is_outer : (n : Node) → is_outer (next_event crc8 ee env n).1 ≡ true
  next_event-is_outer n = ground arith

  next_event-IsOwned :
      (n : Node)
      → IsOwned crc8 (client (n, null))
      → IsOwned crc8 (client (next_event crc8 ee env n).0)
  next_event-IsOwned n o =
      let (tmr, expired) = tmr_process tmr_fuel n.tmr in
      elim (Bool-cases (expired == LinkedList.null)) [
        | inl quiet ↦ rw quiet (cmd_process-IsOwned crc8 ee env (record n { tmr = tmr }) o)
        | inr late ↦ elim (Bool-cases (tmr.id expired == state_tmr_id)) [
          | inl ours ↦ rw (late, ours) o
          | inr other ↦ rw (late, other) o
        ]
      ]

  next_event-wdt : (n : Node) → (next_event crc8 ee env n).0.0.mcu.wdt_enabled ≡ n.mcu.wdt_enabled
  next_event-wdt n =
      let (tmr, expired) = tmr_process tmr_fuel n.tmr in
      ground (arith, cmd_process-wdt crc8 ee env (record n { tmr = tmr }))

  free_packet-IsOwned :
      (p : PktPtr) (n : Node)
      → IsOwned crc8 (client (n, p))
      → IsOwned crc8 (client (free_packet p n, null))
  free_packet-IsOwned null n o = o
  free_packet-IsOwned rxbuf_ptr n o =
      Reach-IsOwned crc8 o (next here (free (client (n, rxbuf_ptr)) refl))

  free_packet-keeps :
      (p : PktPtr) (n : Node)
      → ((free_packet p n).mcu ≡ n.mcu) × (IsQuiet n → IsQuiet (free_packet p n))
  free_packet-keeps null n = (refl, λ q. q)
  free_packet-keeps rxbuf_ptr n = (
    refl,
    λ q. record {
      converter0 = q.converter0;
      converter1 = q.converter1;
      reference = q.reference;
      green = q.green;
      blue = q.blue;
      extio = q.extio;
      loadon = q.loadon;
      watchdog = q.watchdog;
    },
  )

  pass_facts :
      (s : State NodeState) (n : Node)
      → IsRunning crc8 (in_state s, n)
      → let z = main_step crc8 ee env (in_state s, n) in
        IsRunning crc8 z
        × ((z.0.p_ps ≡ s) ⊎ (is_move s z.0.p_ps ≡ true))
        × (z.0.p_ps ≡ app_state sleep → IsQuiet z.1)
  unfolding main_step
  pass_facts s n v =
      let b = run_background env n in
      let ((m, p), e) = next_event crc8 ee env b in
      let out = kissm_run (handler env) same e (in_state s, m) in
      let ran = run-Ran env s e m (next_event-is_outer b) in
      let held = next_event-IsOwned b v.owned in
      let w = ran.watched (next_event-wdt b ∙ v.watched) in
      let freed = free_packet-keeps p out.1 in
      let kept =
        subst (λ x. IsOwned crc8 (record { pkt = x; held = not (is_null p) })) (sym ran.packet)
          held in
      (
        record {
          initial = ran.initial;
          owned = free_packet-IsOwned p out.1 kept;
          watched = ap (λ c. c.wdt_enabled) freed.0 ∙ w;
        },
        ran.moved,
        λ h. freed.1 (ran.quiet h),
      )

  -- Every pass of the main loop keeps this: the receive buffer has at most one owner, which is
  -- never a pass that is over, so no packet is leaked; and the watchdog is on in every state but
  -- `sleep`. A pass stays in its state or takes one of the application's transitions, and when it
  -- ends in `sleep` the converters, the LEDs and the outputs are off.
  pub main_step-IsRunning :
      (y : Kissm NodeState × Node)
      → IsRunning crc8 y
      → let z = main_step crc8 ee env y in
        IsRunning crc8 z
        × ((z.0.p_ps ≡ y.0.p_ps) ⊎ (is_move y.0.p_ps z.0.p_ps ≡ true))
        × (z.0.p_ps ≡ app_state sleep → IsQuiet z.1)
  main_step-IsRunning (k, n) v =
      let v' : IsRunning crc8 (in_state k.p_ps, n) = record {
        initial = refl;
        owned = v.owned;
        watched = v.watched;
      } in
      subst
        (λ j.
          let z = main_step crc8 ee env (j, n) in
          IsRunning crc8 z
          × ((z.0.p_ps ≡ k.p_ps) ⊎ (is_move k.p_ps z.0.p_ps ≡ true))
          × (z.0.p_ps ≡ app_state sleep → IsQuiet z.1))
        (to_powerup k v.initial) (pass_facts k.p_ps n v')
