-- ===== src/Cmd/Report.antt =====
-- What a controller reads from the replies to STATUS, ADCRAW and UID of src/cmd.c, by the layout of
-- doc/command.md.
use bmsnode_firmware.Prelude.{
  ℕ, zero, suc, ◌+◌, ◌*◌, ◌/◌, ◌≤◌, ◌<◌, ◌≡◌, refl, ap, ◌∙◌, List, [], ◌∷◌, ◌++◌, arith, u8, u16-lt,
  length, get_or, All,
}
use bmsnode_firmware.Prelude.Int.{ℤ, pos, negsuc, to_u16, from_u16, int16}
use bmsnode_firmware.Cfg.{Eeprom}
use bmsnode_firmware.Adc.{
  AdcHw, Adc, Channel, cellv, board_temp, ext_temp, mcu_temp, adc_get_cellmv, adc_get_temp_c,
}
use bmsnode_firmware.Therm.{adc_to_temp}
use bmsnode_firmware.Therm.Curve.{adc_to_temp_range}
use bmsnode_firmware.Adc.Filter
use bmsnode_firmware.Prelude.Int.{◌≤ℤ◌}
use bmsnode_firmware.Shunt.{shunt_get_status, shunt_get_pwm}
use bmsnode_firmware.Node.{Node, Env}
use bmsnode_firmware.Cmd.{temp_bytes, cmd_status}
use bmsnode_firmware.Cmd.Code.{word_bytes, ticks_of, node_id, status_code, cmd_status_code}
use bmsnode_firmware.Cmd.Reply.{CanSend, Replies, send_reply-Replies}

-- A little endian word of a payload.
abbrev pub word_at : List ℕ → ℕ → ℕ
word_at p i = get_or p i 0 + 256 * get_or p (i + 1) 0

abbrev pub signed_at : List ℕ → ℕ → ℤ
signed_at p i = from_u16 (word_at p i)

-- The reply to STATUS, field by field.
pub record StatusReport (env : Env) (n : Node) (p : List ℕ) : Type 0 where
  pub size : length p ≡ 10
  pub millivolts : word_at p 0 ≡ adc_get_cellmv n.board.adc n.cfg.parms
  pub board : signed_at p 2 ≡ adc_get_temp_c env.hw n.board.adc board_temp
  pub shunt : get_or p 4 0 ≡ status_code n.board.shunt.status
  pub pwm : get_or p 5 0 ≡ n.board.shunt.pwm
  pub ext : signed_at p 6 ≡ adc_get_temp_c env.hw n.board.adc ext_temp
  pub mcu : signed_at p 8 ≡ adc_get_temp_c env.hw n.board.adc mcu_temp

word_back : (w : ℕ) → w < 65536 → u8 w + 256 * u8 (w / 256) ≡ w
word_back w h = omega arith

to_u16-lt : (t : ℤ) → to_u16 t < 65536
to_u16-lt (pos n) = omega arith
to_u16-lt (negsuc n) = omega arith

adc_get_cellmv-lt : (a : Adc) (parms : List ℕ) → adc_get_cellmv a parms < 65536
unfolding adc_get_cellmv
adc_get_cellmv-lt a parms = ground arith

from_to : (w : ℕ) → w < 65536 → int16 (from_u16 w) ≡ from_u16 w
from_to w h = ground arith

-- A temperature as its two bytes, and back.
int16_fits : (t : ℤ) → negsuc 27 ≤ℤ t → t ≤ℤ pos 117 → int16 t ≡ t
int16_fits (pos n) lo hi = ground arith
int16_fits (negsuc n) lo hi = ground arith

get_or-All : (xs : List ℕ) (i : ℕ) → All (λ x. x ≤ 1023) xs → get_or xs i 0 ≤ 1023
get_or-All [] i v = omega arith
get_or-All (x ∷ xs) zero v = v.0
get_or-All (x ∷ xs) (suc i) v = get_or-All xs i v.1

table_fits : (reading : ℕ) → reading ≤ 1023 → int16 (adc_to_temp reading) ≡ adc_to_temp reading
table_fits reading h =
    let (lo, hi) = adc_to_temp_range reading h in int16_fits (adc_to_temp reading) lo hi

temp_fits :
    (hw : AdcHw) (a : Adc) (ch : Channel)
    → Filter.IsValid a
    → int16 (adc_get_temp_c hw a ch) ≡ adc_get_temp_c hw a ch
unfolding adc_get_temp_c
temp_fits hw a cellv v = table_fits (get_or a.results 0 0) (get_or-All a.results 0 v.in_range)
temp_fits hw a board_temp v = table_fits (get_or a.results 1 0) (get_or-All a.results 1 v.in_range)
temp_fits hw a ext_temp v = table_fits (get_or a.results 2 0) (get_or-All a.results 2 v.in_range)
temp_fits hw a mcu_temp v = from_to _ (u16-lt _)

-- Two bytes of a payload that hold a temperature.
temp_read :
    (hw : AdcHw) (a : Adc) (ch : Channel)
    → Filter.IsValid a
    → let w = to_u16 (adc_get_temp_c hw a ch) in
      from_u16 (u8 w + 256 * u8 (w / 256)) ≡ adc_get_temp_c hw a ch
temp_read hw a ch v =
    let t = adc_get_temp_c hw a ch in
    ap from_u16 (word_back (to_u16 t) (to_u16-lt t)) ∙ temp_fits hw a ch v

module _ (crc8 : ℕ → ℕ → ℕ) (ee : Eeprom) (env : Env) where
  -- STATUS is answered from the node's address by 10 bytes from which a controller reads, by the
  -- layout of doc/command.md, the millivolts, the three temperatures with their sign, the state of
  -- the shunt and its level. The smoothed readings are at most 1023.
  pub cmd_status_lem :
      (n : Node)
      → CanSend n
      → Filter.IsValid n.board.adc
      → (p : List ℕ) × Replies crc8 n (node_id n) cmd_status_code p (cmd_status crc8 ee env n)
        × StatusReport env n p
  unfolding cmd_status shunt_get_status shunt_get_pwm
  cmd_status_lem n c v =
      let a = n.board.adc in
      let mv = adc_get_cellmv a n.cfg.parms in
      let p =
        word_bytes mv
        ++ temp_bytes (adc_get_temp_c env.hw a board_temp)
        ++ (status_code n.board.shunt.status ∷ n.board.shunt.pwm ∷ [])
        ++ temp_bytes (adc_get_temp_c env.hw a ext_temp)
        ++ temp_bytes (adc_get_temp_c env.hw a mcu_temp) in
      let b = n.board in
      let m = record n { board = record b { shunt = (shunt_get_status (ticks_of n) b.shunt).0 } } in
      let r =
        send_reply-Replies crc8 ee env m (node_id m) cmd_status_code p 10
          (record { ring = c.ring; tx = c.tx }) (omega arith) (omega arith) in
      (
        p,
        record { can = r.can; bytes = r.bytes; whole = r.whole },
        record {
          size = refl;
          millivolts = word_back mv (adc_get_cellmv-lt a n.cfg.parms);
          board = temp_read env.hw a board_temp v;
          shunt = refl;
          pwm = refl;
          ext = temp_read env.hw a ext_temp v;
          mcu = temp_read env.hw a mcu_temp v;
        },
      )
