-- ===== src/Adc.antt =====
-- The analog inputs of src/adc.c and src/adc.h: sampling of four channels, smoothing, and the
-- values in millivolts and degrees.
pub mod Filter
use bmsnode_firmware.Prelude.{
  ℕ, ◌+◌, ◌-◌, ◌*◌, ◌/◌, Bool, true, false, ◌&&◌, List, ltb, if◌then◌else◌, u16, u32, get_or, set,
}
use bmsnode_firmware.Prelude.Int.{ℤ, from_u16, to_u16, from_u8}
use bmsnode_firmware.Tmr.{tmr_set, tmr_expired}
use bmsnode_firmware.Cfg.Offset
use bmsnode_firmware.Cfg.{get16}
use bmsnode_firmware.Therm.{adc_to_temp}

-- The two converters.
pub data Converter : Type 0 where
  adc0 adc1 : Converter

-- The reference that is selected.
pub data RefSel : Type 0 where
  intref vddref : RefSel

-- What the hardware gives: the result of a conversion for the converter, the mux position and the
-- reference, and the two calibration bytes of the temperature sensor.
pub record AdcHw : Type 0 where
  pub result : Converter → ℕ → RefSel → ℕ
  pub tempsense0 : ℕ
  pub tempsense1 : ℕ

-- The statics of adc.c, the enable bits of the converters and the pin that feeds the dividers.
pub record Adc : Type 0 where
  pub results : List ℕ
  pub adc_timeout : ℕ
  pub adc0_enabled : Bool
  pub adc1_enabled : Bool
  pub refon : Bool

pub data Channel : Type 0 where
  cellv board_temp ext_temp mcu_temp : Channel

abbrev pub channel_index : Channel → ℕ
channel_index cellv = 0
channel_index board_temp = 1
channel_index ext_temp = 2
channel_index mcu_temp = 3

pub record ChannelMap : Type 0 where
  pub padc : Converter
  pub muxpos : ℕ
  pub refsel : RefSel

abbrev pub channels : Channel → ChannelMap
channels cellv = record { padc = adc1; muxpos = 3; refsel = intref }
channels board_temp = record { padc = adc0; muxpos = 4; refsel = vddref }
channels ext_temp = record { padc = adc0; muxpos = 11; refsel = vddref }
channels mcu_temp = record { padc = adc0; muxpos = 0x1E; refsel = intref }

unfoldable pub adc_powerup : ℕ → Adc → Adc
adc_powerup ticks a = record a {
  refon = true;
  adc1_enabled = true;
  adc0_enabled = true;
  adc_timeout = tmr_set ticks 3;
}

unfoldable pub adc_powerdown : Adc → Adc
adc_powerdown a = record a { adc0_enabled = false; adc1_enabled = false; refon = false }

-- `smoothed` is a 16 bit variable, and so are the products on the target.
unfoldable pub adc_filter : ℕ → ℕ → ℕ
adc_filter sample smoothed =
    let sum = u16 (u16 (sample * 8) + u16 (smoothed * (32 - 8))) in u16 (sum + 16) / 32

-- The second of two conversions is returned.
unfoldable pub adc_sample : AdcHw → ChannelMap → ℕ
adc_sample hw ch = hw.result ch.padc ch.muxpos ch.refsel

abbrev pub collect_one : AdcHw → List ℕ → Channel → List ℕ
collect_one hw results ch =
    let idx = channel_index ch in
    set results idx (adc_filter (adc_sample hw (channels ch)) (get_or results idx 0))

unfoldable pub adc_collect : AdcHw → Adc → Adc
unfolding adc_filter adc_sample
adc_collect hw a = record a {
  results =
      collect_one hw
        (collect_one hw (collect_one hw (collect_one hw a.results cellv) board_temp) ext_temp)
        mcu_temp;
}

unfoldable pub adc_run : AdcHw → ℕ → Adc → Adc
unfolding adc_collect
adc_run hw ticks a =
    if a.adc1_enabled && tmr_expired ticks a.adc_timeout
    then adc_collect hw (record a { adc_timeout = u16 (a.adc_timeout + 100) })
    else a

unfoldable pub adc_get_raw : Adc → List ℕ
adc_get_raw a = a.results

-- `voffset` is signed and is added in 32 bits.
unfoldable pub adc_get_cellmv : Adc → List ℕ → ℕ
adc_get_cellmv a parms =
    let mv1024 = u32 (get_or a.results 0 0 * get16 parms Offset.vscale) / 1024 in
    let voffset = get16 parms Offset.voffset in
    let extended = if ltb voffset 32768 then voffset else voffset + 4294901760 in
    u16 (u32 (mv1024 + extended))

-- The sensor inside the controller: the difference is taken in 16 bits on the target.
abbrev pub mcu_degrees : AdcHw → ℕ → ℤ
mcu_degrees hw reading =
    let offset = to_u16 (from_u8 hw.tempsense1) in
    let scaled = u32 (u16 (reading + 65536 - offset) * hw.tempsense0) in
    let kelvin = u32 (scaled + 0x80) / 256 in from_u16 (u16 (u32 (kelvin + 4294967296 - 273)))

unfoldable pub adc_get_temp_c : AdcHw → Adc → Channel → ℤ
unfolding adc_to_temp
adc_get_temp_c hw a mcu_temp = mcu_degrees hw (get_or a.results 3 0)
adc_get_temp_c hw a ch = adc_to_temp (get_or a.results (channel_index ch) 0)
