-- ===== src/Main/Unattended.antt =====
-- A test function that is on outside the state `testmode` of src/main.c, as TESTMODE leaves it when
-- it is received in the state `powerup` or `dfu`.
pub mod Pass
use bmsnode_firmware.Main.Unattended.Pass.{is_unattended, Leaves-trans, Rests, pass-Rests}
use bmsnode_firmware.Prelude.{ℕ, ◌-◌, ◌≡◌, refl, ap, ◌∙◌, Bool, true}
use mathlib.Core.Path.{subst}
use bmsnode_firmware.Ser.{dre_isr, txc_isr}
use bmsnode_firmware.Tmr.{tick_isr}
use bmsnode_firmware.Pkt.{Pkt, null}
use bmsnode_firmware.Cfg.{Eeprom}
use bmsnode_firmware.Board.{Board}
use bmsnode_firmware.Ser.{dre_isr, txc_isr}
use bmsnode_firmware.Tmr.{tick_isr}
use bmsnode_firmware.Kissm.{State, Kissm}
use bmsnode_firmware.Node.{Node, Env}
use bmsnode_firmware.Main.{main_step, next_event, run_background}
use bmsnode_firmware.Main.States.{NodeState, powerup, shunt}
use bmsnode_firmware.Main.Machine.{in_state, to_powerup, run-Ran}
use bmsnode_firmware.Main.Loop.{next_event-is_outer}

module _ (crc8 : ℕ → ℕ → ℕ) (ee : Eeprom) where
  -- What happens while no byte arrives: passes, ticks, and transmit interrupts.
  pub data Silence (y : Kissm NodeState × Node) : Kissm NodeState × Node → Type 0 where
    begin : Silence y y
    pass :
        {z : Kissm NodeState × Node} (env : Env) → Silence y z → Silence y (main_step crc8 ee env z)
    tick :
        {z : Kissm NodeState × Node}
        → Silence y z
        → Silence y (z.0, record z.1 { tmr = tick_isr z.1.tmr })
    dre :
        {z : Kissm NodeState × Node} (dreif : Bool)
        → Silence y z
        → Silence y (z.0, record z.1 { ser = (dre_isr dreif z.1.ser).0 })
    txc :
        {z : Kissm NodeState × Node}
        → Silence y z
        → Silence y (z.0, record z.1 { ser = txc_isr z.1.ser })

  record IsUnattended (n : Node) (z : Kissm NodeState × Node) : Type 0 where
    initial : z.0.app_init_state ≡ powerup
    rests : Rests n z
    packet : z.1.pkt.ready_packet ≡ null

  main_step-initial :
      (env : Env) (s : State NodeState) (n : Node)
      → (main_step crc8 ee env (in_state s, n)).0.app_init_state ≡ powerup
  unfolding main_step
  main_step-initial env s n =
      let ((m, p), e) = next_event crc8 ee env (run_background env n) in
      (run-Ran env s e m (next_event-is_outer crc8 ee env (run_background env n))).initial

  pass-IsUnattended :
      (env : Env) (n : Node) (z : Kissm NodeState × Node)
      → IsUnattended n z
      → IsUnattended n (main_step crc8 ee env z)
  pass-IsUnattended env n (k, m) v =
      subst (λ j. IsUnattended n (main_step crc8 ee env (j, m))) (to_powerup k v.initial)
        (let out = main_step crc8 ee env (in_state k.p_ps, m) in
          let r = pass-Rests crc8 ee env k.p_ps m v.rests.state v.packet in
          record {
            initial = main_step-initial env k.p_ps m;
            rests = record {
              state = r.state;
              leaves = Leaves-trans n m out.1 v.rests.leaves r.leaves;
            };
            packet = r.leaves.packet v.packet;
          })

  moved-IsUnattended :
      (n : Node) (z w : Kissm NodeState × Node)
      → IsUnattended n z
      → w.0 ≡ z.0
      → w.1.test ≡ z.1.test
      → w.1.board ≡ z.1.board
      → w.1.pkt ≡ z.1.pkt
      → IsUnattended n w
  moved-IsUnattended n z w v k t b p = record {
    initial = ap (λ (x : Kissm NodeState). x.app_init_state) k ∙ v.initial;
    rests = record {
      state = ap (λ (x : Kissm NodeState). is_unattended x.p_ps) k ∙ v.rests.state;
      leaves = record {
        test = t ∙ v.rests.leaves.test;
        shunt = ap (λ (x : Board). x.shunt) b ∙ v.rests.leaves.shunt;
        packet = λ h. ap (λ (x : Pkt). x.ready_packet) p ∙ v.rests.leaves.packet h;
      };
    };
    packet = ap (λ (x : Pkt). x.ready_packet) p ∙ v.packet;
  }

  silence :
      (y z : Kissm NodeState × Node)
      → y.0.app_init_state ≡ powerup
      → is_unattended y.0.p_ps ≡ true
      → y.1.pkt.ready_packet ≡ null
      → Silence y z
      → IsUnattended y.1 z
  silence y z i u h begin = record {
    initial = i;
    rests = record { state = u; leaves = record { test = refl; shunt = refl; packet = λ e. e } };
    packet = h;
  }
  silence y z i u h (pass {z = x} env r) = pass-IsUnattended env y.1 x (silence y x i u h r)
  silence y z i u h (tick {z = x} r) =
      moved-IsUnattended y.1 x _ (silence y x i u h r) refl refl refl refl
  silence y z i u h (dre {z = x} f r) =
      moved-IsUnattended y.1 x _ (silence y x i u h r) refl refl refl refl
  silence y z i u h (txc {z = x} r) =
      moved-IsUnattended y.1 x _ (silence y x i u h r) refl refl refl refl

  -- A test function that is on in a state other than `testmode` and `shunt`, with no packet ready,
  -- is not ended as long as no byte arrives, whatever time passes: the test function and the shunt
  -- stay as they are, and the node never enters the state that counts the minute.
  pub unattended_test_stays :
      (y z : Kissm NodeState × Node)
      → y.0.app_init_state ≡ powerup
      → is_unattended y.0.p_ps ≡ true
      → y.1.pkt.ready_packet ≡ null
      → Silence y z
      → (z.1.test ≡ y.1.test)
        × (z.1.board.shunt ≡ y.1.board.shunt)
        × (is_unattended z.0.p_ps ≡ true)
  unattended_test_stays y z i u h r =
      let v = silence y z i u h r in (v.rests.leaves.test, v.rests.leaves.shunt, v.rests.state)
