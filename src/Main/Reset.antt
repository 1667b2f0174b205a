-- ===== src/Main/Reset.antt =====
-- A node of src/main.c as a reset and the start-up code of the C runtime leave it: every static
-- object has its size and is zero or initialised, and the timer of the shunt is stopped.
use bmsnode_firmware.Prelude.{◌≡◌, true, false, length}
use bmsnode_firmware.Adc.Filter
use bmsnode_firmware.Pkt.Send
use bmsnode_firmware.Shunt.{is_off}
use bmsnode_firmware.TestMode.{is_testmode_off}
use bmsnode_firmware.Node.{Node}

pub record IsReset (n : Node) : Type 0 where
  pub rxbuf : length n.pkt.rxbuf ≡ 16
  pub txbuf : length n.ser.txbuf ≡ 32
  pub txpkt : Send.IsValid n.tx
  pub shunt : is_off n.board.shunt.status ≡ true
  pub level : (n.board.shunt.pwm ≡ 0) × (n.board.shunt.cmp1 ≡ 0)
  pub timer : (n.board.shunt.timer_on ≡ false) × (n.board.shunt.cmp1ov ≡ false)
  pub readings : Filter.IsValid n.board.adc
  pub test : is_testmode_off n.test.test_state ≡ true
