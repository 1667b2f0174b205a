-- ===== src/Main/Load.antt =====
-- What keeps the loads of a node of src/main.c on, from its start on: the state `shunt`, or a test
-- function.
pub mod Handlers
use bmsnode_firmware.Main.Load.Handlers.{
  is_shunting, remains, handler_keeps, exit_keeps, entry_keeps,
}
use bmsnode_firmware.Prelude.{ℕ, ◌-◌, ◌≡◌, sym, ◌∙◌, Bool, true, false, Option, none, some, arith}
use bmsnode_firmware.Cfg.{Eeprom}
use bmsnode_firmware.Pkt.{PktPtr, null, rxbuf_ptr}
use bmsnode_firmware.Kissm.{Event, State, kissm_initial, app_state, Kissm, kissm_run, transition}
use bmsnode_firmware.Node.{Node, Env}
use bmsnode_firmware.Cmd.Load.{NodeAccounts}
use bmsnode_firmware.Main.{free_packet}
use bmsnode_firmware.Main.States.{NodeState, powerup, AppEvent, handler, same, device_init}
use bmsnode_firmware.Main.{main_init}
use bmsnode_firmware.Main.Run
use bmsnode_firmware.Kissm.{kissm_init}
use bmsnode_firmware.Node.{rxc_isr}
use bmsnode_firmware.Main.Reset.{IsReset}
use bmsnode_firmware.Main.Graph.{leads, handler-Handles}
use bmsnode_firmware.Main.Machine.{is_outer, in_state}

-- A node whose loads are accounted for by its state and by test mode.
abbrev pub IsAccounted : Kissm NodeState × Node → Type 0
IsAccounted y = NodeAccounts (is_shunting y.0.p_ps) y.1

transition-IsAccounted :
    (env : Env) (p : NodeState) (m : Node) (ns : Option NodeState)
    → NodeAccounts (remains p ns) m
    → leads p ns ≡ true
    → IsAccounted (transition (handler env) same (in_state (app_state p)) (m, ns))
transition-IsAccounted env p m none v d = v
transition-IsAccounted env p m (some q) v d =
    let crosses : same p q ≡ false = ground arith in
    rw crosses (entry_keeps env q _ (exit_keeps env p m v))

pub run-IsAccounted :
    (env : Env) (s : State NodeState) (e : Event AppEvent) (n : Node)
    → is_outer e ≡ true
    → IsAccounted (in_state s, n)
    → IsAccounted (kissm_run (handler env) same e (in_state s, n))
unfolding kissm_run
run-IsAccounted env kissm_initial e n o v = entry_keeps env powerup n v
run-IsAccounted env (app_state p) e n o v =
    let out = handler env p e n in
    transition-IsAccounted env p out.0 out.1 (handler_keeps env p e n o v)
      (handler-Handles env p e n).edge

module _ (crc8 : ℕ → ℕ → ℕ) (ee : Eeprom) (env : Env) where
  pub free_packet-Accounts :
      (w : Bool) (p : PktPtr) (n : Node) → NodeAccounts w n → NodeAccounts w (free_packet p n)
  free_packet-Accounts w null n v = v
  free_packet-Accounts w rxbuf_ptr n v = v

module _ (crc8 : ℕ → ℕ → ℕ) (ee : Eeprom) where
  pub rxc-IsAccounted :
      (rxcif : Bool) (ch : ℕ) (y : Kissm NodeState × Node)
      → IsAccounted y
      → IsAccounted (y.0, rxc_isr crc8 rxcif ch y.1)
  unfolding rxc_isr
  rxc-IsAccounted true ch (k, n) v = v
  rxc-IsAccounted false ch (k, n) v = v

  pub main_init-IsAccounted : (n : Node) → IsReset n → IsAccounted (main_init crc8 ee n)
  unfolding main_init kissm_init device_init
  main_init-IsAccounted n h = record {
    load = λ on. absurd (ground (arith, h.shunt));
    forced = λ on. absurd (ground (arith, h.timer));
    outside = λ on. absurd (ground arith);
    driven = h.level.1 ∙ sym h.level.0;
    stopped = λ off. (h.level.0, h.timer.0);
  }
