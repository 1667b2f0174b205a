-- ===== src/Tests/Drive.antt =====
-- The measurements and the outputs: temperature, filter, LEDs, shunt and test mode.
use bmsnode_firmware.Shunt.Settle
use bmsnode_firmware.Shunt.Settle.{Regulates, target, shunt_settles}
use bmsnode_firmware.Shunt.{shunt_limit, Shunt, is_off, volt_level, temp_limit, shunt_run}
use bmsnode_firmware.Tmr.{tmr_expired}
use bmsnode_firmware.Pins.{Ports, Output, extio, blue, init_ports}
use bmsnode_firmware.Pins.Outputs.{Represents, IsDriven, write_all, set_all, outputs_lem}
use bmsnode_firmware.Main.States.{device_init}
use bmsnode_firmware.Prelude.{
  ℕ, zero, suc, ◌+◌, ◌-◌, ◌≡◌, refl, ap, ◌∙◌, ◌≢◌, Bool, true, false, List, [], ◌∷◌, arith,
  if◌then◌else◌,
}
use mathlib.Core.Path.{subst}
use bmsnode_firmware.Tests.Data.{env, parms, shunting, node, hw, shunting, board, test, parms}
use bmsnode_firmware.Tmr.{tmr_expired}
use bmsnode_firmware.Therm.Curve.{IsNearest, adc_to_temp-IsNearest}
use bmsnode_firmware.Shunt.{volt_level, temp_limit, shunt_run}
use bmsnode_firmware.Main.Cold.{IsCold, run_shunt_cold}
use bmsnode_firmware.Main.States.{run_shunt}
use bmsnode_firmware.Cmd.Code.{ticks_of}
use bmsnode_firmware.Node.{Node}
use bmsnode_firmware.Adc.{adc_get_temp_c, adc_get_cellmv}
use bmsnode_firmware.TestMode.{TestMode, testmode_run}
use bmsnode_firmware.TestMode.Expiry.{IsAllOff, Runs, begun, ran, testmode_ends}
use bmsnode_firmware.Board.{Board}

abbrev vrange : ℕ
vrange = 100

due : tmr_expired 30500 shunting.loop_timeout ≡ true
unfolding tmr_expired
due = refl

late : tmr_expired 30500 shunting.shunt_timeout ≡ true
unfolding tmr_expired
late = refl

adc_to_temp-IsNearest_example : IsNearest 7 560
adc_to_temp-IsNearest_example =
    adc_to_temp-IsNearest 7 560 (omega arith) (omega arith) (omega arith)

-- A board at -17 degrees whose shunt is at level 9.
abbrev cold_node : Node
cold_node = record node {
  board = record board {
    shunt = record shunting { pwm = 9; loop_timeout = 65000; shunt_timeout = 10000 };
    adc = record board.adc { results = 700 ∷ 100 ∷ 100 ∷ 300 ∷ [] };
  };
}

cold : IsCold env cold_node 16
unfolding adc_get_temp_c tmr_expired
cold = record {
  cold = refl;
  short = omega arith;
  limit = omega arith;
  on = refl;
  due = refl;
  byte = omega arith;
}

run_shunt_cold_example :
    let s = cold_node.board.shunt in
    let late = tmr_expired (ticks_of cold_node) s.shunt_timeout in
    let asked = volt_level parms s.vrange (adc_get_cellmv cold_node.board.adc parms) in
    let (m, status) = run_shunt env cold_node in
    (m.board.shunt.pwm ≡ (if late then 0 else s.pwm - 1))
    × (late ≡ false → asked.0 ≢ 0 → status ≡ shunt_limit)
run_shunt_cold_example = run_shunt_cold env cold_node 16 cold

expired_self : (t : ℕ) → tmr_expired t t ≡ true
unfolding tmr_expired
expired_self t = ground arith

-- Test mode is run each time just when its second expires.
polled : ℕ → TestMode × Board
polled zero = (test, board)
polled (suc n) = let before = polled n in (testmode_run hw before.0.test_timeout before).0

polled-Runs : (n : ℕ) → Runs (test, board) n (polled n)
unfolding polled
polled-Runs zero = begun
polled-Runs (suc n) =
    let before = polled n in
    let t = before.0.test_timeout in
    let next = (testmode_run hw t before).0 in
    let count : (if tmr_expired t t then n + 1 else n) ≡ suc n =
      ap (λ late. if late then n + 1 else n) (expired_self t) ∙ omega arith in
    subst (λ k. Runs (test, board) k next) count (ran hw t (polled-Runs n))

testmode_ends_example : IsAllOff (polled 60) × ((polled 60).1.adc.refon ≡ board.adc.refon)
testmode_ends_example =
    testmode_ends (test, board) 60 (polled 60) refl (polled-Runs 60) (omega arith)

-- The blue LED on, the external output on, and the blue LED off.
abbrev writes : List (Output × Bool)
writes = (blue, true) ∷ (extio, true) ∷ (blue, false) ∷ []

abbrev ports : Ports
ports = record { porta = record { dir = 0; out = 255 }; portb = record { dir = 0; out = 255 } }

outputs_lem_example :
    let q = write_all writes (init_ports ports) in
    Represents q (set_all writes (device_init node).board) × IsDriven q
outputs_lem_example = outputs_lem writes ports node

-- The shunt at level 1, and a low cell, for which the level is 0.
abbrev low : Shunt
low = record shunting { pwm = 1; cmp1 = 1 }

abbrev low_after : Shunt
low_after = (shunt_run 1000 parms 3000 20 low).0

low_way : Regulates parms 3000 20 low 1 low_after
unfolding tmr_expired
low_way = Settle.ran 1000 refl Settle.begun

low-target : target parms 3000 20 low ≡ 0
unfolding volt_level temp_limit
low-target = refl

shunt_settles_example :
    (low_after.pwm ≡ target parms 3000 20 low)
    × (low_after.cmp1 ≡ target parms 3000 20 low)
    × (is_off low_after.status ≡ false)
shunt_settles_example =
    shunt_settles parms 3000 20 low 1 low_after refl (omega arith) refl low_way
      (omega (arith, low-target)) (omega (arith, low-target))
