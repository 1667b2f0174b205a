-- ===== src/Main/Unattended/Pass.antt =====
-- A pass of the main loop of src/main.c in a state that does not run the test functions.
use bmsnode_firmware.Prelude.{
  ℕ, ◌≡◌, refl, sym, ap, ◌∙◌, inl, inr, Bool, true, false, Option, none, some, arith, Bool-cases,
}
use mathlib.Core.Path.{subst}
use bmsnode_firmware.Tmr.{tmr_process}
use bmsnode_firmware.Pkt.{pkt_rx_free, PktPtr, null, rxbuf_ptr, pkt_ready, pkt_reset}
use bmsnode_firmware.Cfg.{Eeprom}
use bmsnode_firmware.Kissm.{
  Event, evt_exit, evt_entry, evt_app, State, kissm_initial, app_state, Kissm, kissm_run,
  transition,
}
use bmsnode_firmware.Node.{Node, Env}
use bmsnode_firmware.Cmd.{watch_packet, process_packet, cmd_process}
use bmsnode_firmware.Main.{main_step, next_event, run_background, free_packet, cmd_event}
use bmsnode_firmware.Main.States.{
  NodeState, powerup, idle, dfu, shunt, testmode, sleep, AppEvent, evt_cmd, tmr_fuel,
  schedule_state, powerup_handler, idle_handler, dfu_handler, sleep_handler, handler, same,
}
use bmsnode_firmware.Main.Machine.{in_state}

-- The states that do not run the test functions.
abbrev pub is_unattended : State NodeState → Bool
is_unattended (app_state shunt) = false
is_unattended (app_state testmode) = false
is_unattended _ = true

abbrev is_command : Event AppEvent → Bool
is_command (evt_app (evt_cmd p)) = true
is_command _ = false

-- The test function and the shunt are as they were, and no packet is ready.
pub record Leaves (n m : Node) : Type 0 where
  pub test : m.test ≡ n.test
  pub shunt : m.board.shunt ≡ n.board.shunt
  pub packet : n.pkt.ready_packet ≡ null → m.pkt.ready_packet ≡ null

pub Leaves-trans : (n m k : Node) → Leaves n m → Leaves m k → Leaves n k
Leaves-trans n m k a b = record {
  test = b.test ∙ a.test;
  shunt = b.shunt ∙ a.shunt;
  packet = λ h. b.packet (a.packet h);
}

handler-Leaves :
    (env : Env) (p : NodeState) (e : Event AppEvent) (n : Node)
    → is_unattended (app_state p) ≡ true
    → Leaves n (handler env p e n).0
unfolding powerup_handler idle_handler dfu_handler sleep_handler schedule_state
handler-Leaves env powerup e n u = ground arith
handler-Leaves env idle e n u = ground arith
handler-Leaves env dfu e n u = ground arith
handler-Leaves env sleep e n u = ground arith
handler-Leaves env shunt e n u = absurd (ground arith)
handler-Leaves env testmode e n u = absurd (ground arith)

abbrev stays_unattended : Option NodeState → Bool
stays_unattended none = true
stays_unattended (some q) = is_unattended (app_state q)

handler_unattended :
    (env : Env) (p : NodeState) (e : Event AppEvent) (n : Node)
    → is_unattended (app_state p) ≡ true
    → is_command e ≡ false
    → stays_unattended (handler env p e n).1 ≡ true
unfolding powerup_handler idle_handler dfu_handler sleep_handler
handler_unattended env powerup e n u c = ground arith
handler_unattended env idle e n u c = ground arith
handler_unattended env dfu e n u c = ground arith
handler_unattended env sleep e n u c = ground arith
handler_unattended env shunt e n u c = absurd (ground arith)
handler_unattended env testmode e n u c = absurd (ground arith)

-- The same over a run of the state machine.
pub record Rests (n : Node) (out : Kissm NodeState × Node) : Type 0 where
  pub state : is_unattended out.0.p_ps ≡ true
  pub leaves : Leaves n out.1

transition-Rests :
    (env : Env) (p : NodeState) (n m : Node) (ns : Option NodeState)
    → is_unattended (app_state p) ≡ true
    → stays_unattended ns ≡ true
    → Leaves n m
    → Rests n (transition (handler env) same (in_state (app_state p)) (m, ns))
transition-Rests env p n m none u s l = record { state = u; leaves = l }
transition-Rests env p n m (some q) u s l = elim (Bool-cases (same p q)) [
  | inl again ↦ rw again (record { state = u; leaves = l })
  | inr other ↦
      let x = (handler env p evt_exit m).0 in
      let entry = handler-Leaves env q evt_entry x s in
      let exit = handler-Leaves env p evt_exit m u in
      rw other (record { state = s; leaves = Leaves-trans n x _ (Leaves-trans n m x l exit) entry })
]

run-Rests :
    (env : Env) (s : State NodeState) (e : Event AppEvent) (n : Node)
    → is_unattended s ≡ true
    → is_command e ≡ false
    → Rests n (kissm_run (handler env) same e (in_state s, n))
unfolding kissm_run
run-Rests env kissm_initial e n u c = record {
  state = refl;
  leaves = handler-Leaves env powerup evt_entry n refl;
}
run-Rests env (app_state p) e n u c =
    let out = handler env p e n in
    transition-Rests env p n out.0 out.1 u (handler_unattended env p e n u c)
      (handler-Leaves env p e n u)

module _ (crc8 : ℕ → ℕ → ℕ) (ee : Eeprom) (env : Env) where
  watch_packet-Leaves : (n : Node) → Leaves n (watch_packet n)
  unfolding watch_packet pkt_reset
  watch_packet-Leaves n = ground arith

  -- With no packet ready, the command processor returns none.
  process_none :
      (n : Node) (p : PktPtr)
      → p ≡ null
      → let (m, q) = process_packet crc8 ee env n p in (q ≡ null) × Leaves n m
  process_none n p h =
      subst (λ p. let (m, q) = process_packet crc8 ee env n p in (q ≡ null) × Leaves n m) (sym h)
        (refl, watch_packet-Leaves n)

  cmd_process_none :
      (n : Node)
      → n.pkt.ready_packet ≡ null
      → let (m, q) = cmd_process crc8 ee env n in (q ≡ null) × Leaves n m
  unfolding cmd_process pkt_ready
  cmd_process_none n h =
      let k = record n { pkt = record n.pkt { ready_packet = null } } in
      let (none_ready, l) = process_none k n.pkt.ready_packet h in
      (none_ready, record { test = l.test; shunt = l.shunt; packet = λ e. l.packet refl })

  next_event-Leaves :
      (n : Node)
      → n.pkt.ready_packet ≡ null
      → let ((m, p), e) = next_event crc8 ee env n in Leaves n m × (is_command e ≡ false)
  next_event-Leaves n h =
      let m = record n { tmr = (tmr_process tmr_fuel n.tmr).0 } in
      let (none_ready, l) = cmd_process_none m h in
      let quiet : is_command (cmd_event (cmd_process crc8 ee env m).1) ≡ false =
        ap (λ p. is_command (cmd_event p)) none_ready in
      ground (arith, l.test, l.shunt, l.packet, quiet)

  free_packet-Leaves : (p : PktPtr) (n : Node) → Leaves n (free_packet p n)
  unfolding pkt_rx_free
  free_packet-Leaves null n = ground arith
  free_packet-Leaves rxbuf_ptr n = ground arith

  pub pass-Rests :
      (s : State NodeState) (n : Node)
      → is_unattended s ≡ true
      → n.pkt.ready_packet ≡ null
      → Rests n (main_step crc8 ee env (in_state s, n))
  unfolding main_step
  pass-Rests s n u h =
      let b = run_background env n in
      let ((m, p), e) = next_event crc8 ee env b in
      let (l, c) = next_event-Leaves b h in
      let out = kissm_run (handler env) same e (in_state s, m) in
      let r = run-Rests env s e m u c in
      let all = Leaves-trans m out.1 (free_packet p out.1) r.leaves (free_packet-Leaves p out.1) in
      record {
        state = r.state;
        leaves =
            Leaves-trans n m (free_packet p out.1)
              (record { test = l.test; shunt = l.shunt; packet = l.packet }) all;
      }
