-- ===== src/Main/Cold.antt =====
-- The shunt of src/shunt.c at temperatures below 0, as `run_shunt` of src/main.c's state `shunt`
-- reads them.
use bmsnode_firmware.Prelude.{ℕ, ◌-◌, ◌≤◌, ◌<◌, ◌≡◌, ◌≢◌, true, false, List, arith, if◌then◌else◌}
use bmsnode_firmware.Prelude.Int.{negsuc, to_u16}
use bmsnode_firmware.Tmr.{tmr_expired}
use bmsnode_firmware.Adc.{adc_get_temp_c, adc_get_cellmv, board_temp}
use bmsnode_firmware.Shunt.{
  ShuntStatus, shunt_limit, Shunt, is_off, temphi, volt_level, temp_limit, shunt_run, shunt_pass,
  shunt_set, shunt_stop,
}
use bmsnode_firmware.Shunt.Regulate.{temp_limit_cold, volt_level_lem}
use bmsnode_firmware.Node.{Node, Env}
use bmsnode_firmware.Cmd.Code.{ticks_of}
use bmsnode_firmware.Main.States.{run_shunt}

-- The shunt is on, its loop is due, and the board is below 0 degrees.
pub record IsCold (env : Env) (n : Node) (below : ℕ) : Type 0 where
  pub cold : adc_get_temp_c env.hw n.board.adc board_temp ≡ negsuc below
  pub short : below < 32768
  pub limit : temphi n.cfg.parms ≤ 127
  pub on : is_off n.board.shunt.status ≡ false
  pub due : tmr_expired (ticks_of n) n.board.shunt.loop_timeout ≡ true
  pub byte : n.board.shunt.pwm < 256

-- The level goes down, and why.
abbrev GoesDown : ℕ → List ℕ → ℕ → Shunt → Shunt × ShuntStatus → Type 0
GoesDown ticks parms cellmv s (t, status) =
    (t.pwm ≡ (if tmr_expired ticks s.shunt_timeout then 0 else s.pwm - 1))
    × (tmr_expired ticks s.shunt_timeout ≡ false
        → (volt_level parms s.vrange cellmv).0 ≢ 0
        → status ≡ shunt_limit)

temp_limit_limits :
    (parms : List ℕ) (trange below level : ℕ) (status : ShuntStatus)
    → below < 32768
    → temphi parms ≤ 127
    → level ≢ 0
    → (temp_limit parms trange (to_u16 (negsuc below)) (level, status)).1 ≡ shunt_limit
unfolding temp_limit
temp_limit_limits parms trange below level status short limit some_level = ground arith

shunt_run_cold :
    (ticks : ℕ) (parms : List ℕ) (cellmv below : ℕ) (s : Shunt)
    → below < 32768
    → temphi parms ≤ 127
    → is_off s.status ≡ false
    → tmr_expired ticks s.loop_timeout ≡ true
    → s.pwm < 256
    → GoesDown ticks parms cellmv s (shunt_run ticks parms cellmv (to_u16 (negsuc below)) s)
unfolding shunt_run shunt_pass shunt_set shunt_stop
shunt_run_cold ticks parms cellmv below s short limit on due byte =
    let (level, status) = volt_level parms s.vrange cellmv in
    let small : level ≤ 255 = (volt_level_lem parms s.vrange cellmv).2 in
    let none_left = temp_limit_cold parms s.trange below level status short limit small in
    let limited = temp_limit_limits parms s.trange below level status short limit in
    rw (on, due) (ground (arith, none_left, limited))

-- In the state `shunt`, with an upper temperature limit from 0 to 127 degrees, a run of the shunt
-- that is due and reads a board temperature below 0 takes the level one count down, or to 0 when
-- the idle timeout has expired, whatever the voltage; and if that has not expired and the voltage
-- asks for a level, the status is that of a temperature at the upper limit. The code reads a
-- negative temperature as a large unsigned number.
pub run_shunt_cold :
    (env : Env) (n : Node) (below : ℕ)
    → IsCold env n below
    → let s = n.board.shunt in
      let late = tmr_expired (ticks_of n) s.shunt_timeout in
      let asked = volt_level n.cfg.parms s.vrange (adc_get_cellmv n.board.adc n.cfg.parms) in
      let (m, status) = run_shunt env n in
      (m.board.shunt.pwm ≡ (if late then 0 else s.pwm - 1))
      × (late ≡ false → asked.0 ≢ 0 → status ≡ shunt_limit)
run_shunt_cold env n below h = rw h.cold (
    shunt_run_cold (ticks_of n) n.cfg.parms (adc_get_cellmv n.board.adc n.cfg.parms) below
      n.board.shunt h.short h.limit h.on h.due h.byte)
