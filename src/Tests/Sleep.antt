-- ===== src/Tests/Sleep.antt =====
-- A node that comes to `idle` after its first second, and falls asleep.
use bmsnode_firmware.Prelude.{ℕ, zero, suc, ◌≡◌, refl, arith}
use bmsnode_firmware.Prelude.{ℕ, zero, suc, ◌≡◌, refl, arith}
use bmsnode_firmware.Crc.{crc8_ccitt_update}
use bmsnode_firmware.Tests.Data.{node, env, eeprom}
use bmsnode_firmware.Ser.{ser_flush, ser_is_active}
use bmsnode_firmware.Pkt.{pkt_reset, pkt_is_active, pkt_ready}
use bmsnode_firmware.Kissm.{Kissm, app_state, kissm_init, kissm_run}
use bmsnode_firmware.Tmr.{
  tick_isr, tmr_expired, tmr_set, tmr_schedule, tmr_unschedule, tmr_process, tmr_init,
}
use bmsnode_firmware.LinkedList.{list_iter, list_remove, list_add}
use bmsnode_firmware.Node.{Node}
use bmsnode_firmware.Cmd.{cmd_process, watch_packet}
use bmsnode_firmware.Main.{main_init, main_step}
use bmsnode_firmware.Main.States.{powerup_handler, schedule_state, device_init, NodeState}
use bmsnode_firmware.Main.Run.{Run, start, after, pass}
use bmsnode_firmware.Main.Lull.{Lull, idle_falls_asleep}
use bmsnode_firmware.Main.Lull.Pass.{IsSilent}
use bmsnode_firmware.Main.States.{idle, sleep, state_tmr, idle_handler}
use bmsnode_firmware.Tests.Whole.{ticks, ticks-Run, started, second_on}

-- The first pass in `idle`.
abbrev idling : Kissm NodeState × Node
idling = main_step crc8_ccitt_update eeprom env second_on

idling-Run : Run crc8_ccitt_update eeprom started idling
idling-Run = after (ticks-Run 1000 (after start (pass env))) (pass env)

-- The tick has wrapped.
just_idle :
    (idling.0.p_ps ≡ app_state idle)
    × (idling.1.tmr.systick ≡ 464)
    × (idling.1.tmr.timeout state_tmr ≡ tmr_set idling.1.tmr.systick 1000)
unfolding ticks main_step main_init kissm_init kissm_run tick_isr tmr_expired tmr_set tmr_schedule
    tmr_unschedule tmr_process list_iter list_remove list_add powerup_handler schedule_state
    device_init tmr_init cmd_process watch_packet pkt_ready pkt_reset pkt_is_active idle_handler
just_idle = (refl, refl, refl)

idling-IsSilent : IsSilent idling.1
unfolding ticks main_step main_init kissm_init kissm_run tick_isr tmr_expired tmr_set tmr_schedule
    tmr_unschedule tmr_process list_iter list_remove list_add powerup_handler schedule_state
    device_init tmr_init cmd_process watch_packet pkt_ready pkt_reset pkt_is_active idle_handler
    ser_is_active ser_flush
idling-IsSilent = record { packet = refl; serial = refl }

ticks-Lull : (k : ℕ) (y : Kissm NodeState × Node) → Lull crc8_ccitt_update eeprom y k (ticks k y)
unfolding ticks
ticks-Lull zero y = Lull.begin
ticks-Lull (suc k) y = Lull.tick (ticks-Lull k y)

abbrev last_idle : Kissm NodeState × Node
last_idle = ticks 999 idling

idle_falls_asleep_example :
    let next =
      main_step crc8_ccitt_update eeprom env
        (last_idle.0, record last_idle.1 { tmr = tick_isr last_idle.1.tmr }) in
    (last_idle.0.p_ps ≡ app_state idle) × (next.0.p_ps ≡ app_state sleep)
idle_falls_asleep_example =
    idle_falls_asleep crc8_ccitt_update eeprom node idling last_idle 999 env refl idling-Run
      just_idle.0 (omega (arith, just_idle.1)) just_idle.2 idling-IsSilent (omega arith)
      (ticks-Lull 999 idling) refl
