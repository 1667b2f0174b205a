-- ===== src/Shunt.antt =====
-- The cell balancing of src/shunt.c and src/shunt.h: a PWM level that follows the cell voltage,
-- limited by the board temperature, one count per pass, on the waveform timer TCA0.
pub mod Regulate
pub mod Safety
pub mod Settle
use bmsnode_firmware.Prelude.{
  ℕ, ◌+◌, ◌-◌, ◌*◌, ◌/◌, Bool, true, false, List, ltb, leb, ◌==◌, if◌then◌else◌, u8, u16,
}
use bmsnode_firmware.Tmr.{tmr_set, tmr_expired}
use bmsnode_firmware.Prelude.Int.{from_u8, to_u16}
use bmsnode_firmware.Cfg.Offset
use bmsnode_firmware.Cfg.{get8, get16}

-- `SHUNT_NOTUSED` is declared and never assigned.
pub data ShuntStatus : Type 0 where
  shunt_off shunt_idle shunt_on shunt_notused shunt_limit : ShuntStatus

-- The statics of shunt.c and the registers of TCA0 that it writes: the compare value, the output
-- bit of CTRLC, the waveform enable of CTRLB, the period, and the timer enable of CTRLA.
pub record Shunt : Type 0 where
  pub shunt_timeout : ℕ
  pub loop_timeout : ℕ
  pub status : ShuntStatus
  pub vrange : ℕ
  pub trange : ℕ
  pub pwm : ℕ
  pub cmp1 : ℕ
  pub cmp1ov : Bool
  pub cmp1en : Bool
  pub period : ℕ
  pub timer_on : Bool

abbrev pub shunt_loop_time : ℕ
shunt_loop_time = 100

-- The four parameters that it reads: two voltages, and two signed temperatures, which the code
-- compares as unsigned 16 bit numbers.
abbrev pub shuntmax : List ℕ → ℕ
shuntmax parms = get16 parms Offset.shuntmax

abbrev pub shuntmin : List ℕ → ℕ
shuntmin parms = get16 parms Offset.shuntmin

abbrev pub temphi : List ℕ → ℕ
temphi parms = to_u16 (from_u8 (get8 parms Offset.temphi))

abbrev pub templo : List ℕ → ℕ
templo parms = to_u16 (from_u8 (get8 parms Offset.templo))

unfoldable pub shunt_set : Shunt → ℕ → Shunt
shunt_set s newpwm = record s { pwm = newpwm; cmp1 = newpwm }

unfoldable pub shunt_start : ℕ → List ℕ → Shunt → Shunt
unfolding shunt_set
shunt_start ticks parms s =
    let t = record s { cmp1 = 0; cmp1ov = false; cmp1en = true; period = 256; timer_on = true } in
    record (shunt_set t 0) {
      shunt_timeout = tmr_set ticks 30000;
      loop_timeout = tmr_set ticks 1;
      vrange = u16 (shuntmax parms + 65536 - shuntmin parms);
      trange = u16 (temphi parms + 65536 - templo parms);
      status = shunt_idle;
    }

unfoldable pub shunt_stop : Shunt → Shunt
unfolding shunt_set
shunt_stop s = record (shunt_set s 0) { timer_on = false; cmp1ov = false; status = shunt_off }

-- The idle timeout starts anew.
unfoldable pub shunt_get_status : ℕ → Shunt → Shunt × ShuntStatus
shunt_get_status ticks s = (record s { shunt_timeout = tmr_set ticks 30000 }, s.status)

unfoldable pub shunt_get_pwm : Shunt → ℕ
shunt_get_pwm s = s.pwm

-- The level and the status that the voltage asks for. A division by zero, which C leaves undefined,
-- gives 0 here; Shunt/Regulate.antt shows when there is none.
unfoldable pub volt_level : List ℕ → ℕ → ℕ → ℕ × ShuntStatus
volt_level parms vrange cellmv =
    if leb cellmv (shuntmin parms)
    then (0, shunt_idle)
    else if leb (shuntmax parms) cellmv
    then (255, shunt_on)
    else let pwmv = (cellmv - shuntmin parms) * 256 / vrange in
      (if ltb 255 pwmv then 255 else pwmv, shunt_on)

-- The limit that the temperature sets, applied to a level other than 0.
unfoldable pub temp_limit : List ℕ → ℕ → ℕ → ℕ × ShuntStatus → ℕ × ShuntStatus
temp_limit parms trange tempc (newpwm, status) =
    if newpwm == 0
    then (newpwm, status)
    else if leb (temphi parms) tempc
    then (0, shunt_limit)
    else if leb tempc (templo parms)
    then (newpwm, status)
    else let pwmt = u16 (u16 (temphi parms + 65536 - tempc) * 256) / trange in
      if ltb pwmt newpwm then (u8 pwmt, shunt_limit) else (newpwm, status)

-- One count towards the level; `pwm + adjust` is stored in a byte.
abbrev pub adjust : ℕ → ℕ → ℕ
adjust newpwm pwm =
    if ltb pwm newpwm then u8 (pwm + 1) else if ltb newpwm pwm then u8 (pwm + 255) else pwm

-- A pass of the loop once its timeout has expired. `tempc` is the temperature as it stands in the
-- unsigned 16 bit variable.
unfoldable pub shunt_pass : ℕ → List ℕ → ℕ → ℕ → Shunt → Shunt
unfolding shunt_set shunt_stop
shunt_pass ticks parms cellmv tempc s =
    let t = record s { loop_timeout = u16 (s.loop_timeout + shunt_loop_time) } in
    let (level, status) = temp_limit parms t.trange tempc (volt_level parms t.vrange cellmv) in
    let u = shunt_set (record t { status = status }) (adjust level t.pwm) in
    if tmr_expired ticks u.shunt_timeout then shunt_stop u else u

abbrev pub is_off : ShuntStatus → Bool
is_off shunt_off = true
is_off _ = false

unfoldable pub shunt_run : ℕ → List ℕ → ℕ → ℕ → Shunt → Shunt × ShuntStatus
unfolding shunt_stop
shunt_run ticks parms cellmv tempc s =
    if is_off s.status
    then (shunt_stop s, shunt_off)
    else if tmr_expired ticks s.loop_timeout
    then (let t = shunt_pass ticks parms cellmv tempc s in (t, t.status))
    else (s, s.status)
