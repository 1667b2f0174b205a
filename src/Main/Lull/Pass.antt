-- ===== src/Main/Lull/Pass.antt =====
-- A pass of src/main.c in the state `idle` that sees no byte, no packet and no expired timer.
use bmsnode_firmware.Prelude.{ℕ, ◌≡◌, refl, ap₂, ◌∙◌, false, [], ◌∷◌, arith}
use mathlib.Core.Path.{subst}
use bmsnode_firmware.LinkedList
use bmsnode_firmware.Tmr.{Tmr, tmr_process}
use bmsnode_firmware.Tmr.Schedule.{Processed, tmr_process_lem}
use bmsnode_firmware.Ser.{ser_is_active}
use bmsnode_firmware.Pkt.{null, pkt_is_active, pkt_ready, pkt_reset}
use bmsnode_firmware.Cfg.{Eeprom}
use bmsnode_firmware.Kissm.{evt_none, app_state, kissm_run}
use bmsnode_firmware.Node.{Node, Env}
use bmsnode_firmware.Cmd.{watch_packet, cmd_process}
use bmsnode_firmware.Main.{main_step, next_event, run_background}
use bmsnode_firmware.Main.States.{idle, tmr_fuel, idle_handler, handler, same, wdt_reset}
use bmsnode_firmware.Main.Machine.{in_state}
use bmsnode_firmware.Main.StateTimer.{IsArmed}
use bmsnode_firmware.Main.Timeout.{is_late}

-- No packet is under way or waits, and the serial module has nothing to do.
pub record IsSilent (n : Node) : Type 0 where
  pub packet : pkt_is_active n.pkt ≡ false
  pub serial : ser_is_active false n.ser ≡ false

early_process :
    (t : Tmr) → IsArmed t → is_late t ≡ false → tmr_process tmr_fuel t ≡ (t, LinkedList.null)
early_process t (s, once, id) early =
    let (at, kept) = tmr_process_lem 2 t (2 ∷ []) s (omega arith) in
    let none_late : (tmr_process 2 t).1 ≡ LinkedList.null = at ∙ rw early refl in
    let same_timers = subst (λ p. Processed t (2 ∷ []) p (tmr_process 2 t).0) none_late kept in
    ap₂ (λ (u : Tmr) (p : LinkedList.Ptr). (u, p)) same_timers none_late

watch_packet-IsSilent : (n : Node) → IsSilent n → IsSilent (watch_packet n)
unfolding watch_packet pkt_is_active pkt_reset
watch_packet-IsSilent n v = ground (arith, v.packet, v.serial)

pub watch_packet-tmr : (n : Node) → (watch_packet n).tmr ≡ n.tmr
unfolding watch_packet
watch_packet-tmr n = ground arith

none_ready : (n : Node) → IsSilent n → n.pkt.ready_packet ≡ null
unfolding pkt_is_active
none_ready n v = ground (arith, v.packet)

-- The node when the command processor has found no packet.
abbrev pub unanswered : Node → Node
unanswered n = watch_packet (record n { pkt = record n.pkt { ready_packet = null } })

pub unanswered-IsSilent : (n : Node) → IsSilent n → IsSilent (unanswered n)
unfolding pkt_is_active
unanswered-IsSilent n v =
    watch_packet-IsSilent (record n { pkt = record n.pkt { ready_packet = null } })
      (record { packet = ground (arith, v.packet); serial = v.serial })

module _ (crc8 : ℕ → ℕ → ℕ) (ee : Eeprom) (env : Env) where
  cmd_process_silent :
      (n : Node) → n.pkt.ready_packet ≡ null → cmd_process crc8 ee env n ≡ (unanswered n, null)
  unfolding cmd_process pkt_ready
  cmd_process_silent n h = rw h refl

  next_event_silent :
      (n : Node)
      → IsSilent n
      → tmr_process tmr_fuel n.tmr ≡ (n.tmr, LinkedList.null)
      → next_event crc8 ee env n ≡ ((unanswered n, null), evt_none)
  next_event_silent n v early = rw (early, cmd_process_silent n (none_ready n v)) refl

  idle_silent :
      (n : Node)
      → IsSilent n
      → env.rxcif ≡ false
      → kissm_run (handler env) same evt_none (in_state (app_state idle), n)
        ≡ (in_state (app_state idle), wdt_reset n)
  unfolding kissm_run idle_handler
  idle_silent n v quiet = rw (quiet, v.packet, v.serial) refl

  -- A pass of a silent node changes neither the state nor the state timer.
  pub silent_pass :
      (n : Node)
      → IsSilent n
      → IsArmed n.tmr
      → is_late n.tmr ≡ false
      → env.rxcif ≡ false
      → main_step crc8 ee env (in_state (app_state idle), n)
        ≡ (in_state (app_state idle), wdt_reset (unanswered (run_background env n)))
  unfolding main_step
  silent_pass n v a early quiet =
      let b = run_background env n in
      let u : IsSilent b = record { packet = v.packet; serial = v.serial } in
      rw
        (
          next_event_silent b u (early_process n.tmr a early),
          idle_silent (unanswered b) (unanswered-IsSilent b u) quiet,
        )
        refl
