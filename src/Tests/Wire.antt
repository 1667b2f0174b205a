-- ===== src/Tests/Wire.antt =====
-- Rows of preambles, a timeout that is left over, and one test function after another.
use bmsnode_firmware.Prelude.{
  ℕ, ◌+◌, ◌<◌, ◌≡◌, refl, ◌⊎◌, inl, inr, true, false, [], ◌∷◌, ◌++◌, arith, ◌==◌, if◌then◌else◌,
  u16,
}
use bmsnode_firmware.Prelude.Int.{to_u16}
use bmsnode_firmware.Crc.{crc_from, crc8_ccitt_update}
use bmsnode_firmware.Tests.Data.{node, test, env, eeprom, pkt, parms, shunting, hw, board, adc}
use bmsnode_firmware.Tests.Whole.{ping, pkt-Waits}
use bmsnode_firmware.Node.{Node, rxc_isr}
use bmsnode_firmware.Pkt.{
  pkt_ready, Pkt, parse_all, pkt_parser, pkt_is_active, rxbuf_ptr, null, preamble,
  in_search_or_sync,
}
use bmsnode_firmware.Pkt.Frame.{opened, body, packet_crc}
use bmsnode_firmware.Pkt.Owner.{IsOwned, has_ready}
use bmsnode_firmware.Pkt.Flush.{bytes-IsOwned, flush, flush-receive}
use bmsnode_firmware.Cmd.{cmd_process, watch_packet}
use bmsnode_firmware.Cmd.Code.{ticks_of}
use bmsnode_firmware.Cmd.Exchange.{receive_bytes}
use bmsnode_firmware.Cmd.Stale.{stale_timeout}
use bmsnode_firmware.Adc.{board_temp, adc_get_temp_c}
use bmsnode_firmware.Tmr.{tmr_expired}
use bmsnode_firmware.TestMode.{TestMode, testmode_shunt, testmode_on, testmode_run}
use bmsnode_firmware.TestMode.Expiry.{IsAllOff, begun, ran}
use bmsnode_firmware.TestMode.Switch.{switch_unguards}
use bmsnode_firmware.Board.{Board}

-- A parser in the middle of a header.
abbrev opening : Pkt
opening = parse_all crc8_ccitt_update pkt (0x55 ∷ 0xF0 ∷ 0 ∷ 7 ∷ [])

pkt-IsOwned : IsOwned crc8_ccitt_update (record { pkt = pkt; held = false })
pkt-IsOwned = ground arith

opening-IsOwned : IsOwned crc8_ccitt_update (record { pkt = opening; held = false })
opening-IsOwned =
    bytes-IsOwned crc8_ccitt_update (0x55 ∷ 0xF0 ∷ 0 ∷ 7 ∷ []) (record { pkt = pkt; held = false })
      pkt-IsOwned

flush-receive_example :
    let t = flush crc8_ccitt_update 13 opening in
    (in_search_or_sync t.state ≡ true)
    × (t.rxbuf_inuse ≡ has_ready t)
    × ((has_ready t ≡ true)
        ⊎ ((parse_all crc8_ccitt_update t
              (opened 3 (body ping ++ packet_crc crc8_ccitt_update ping ∷ []))).ready_packet
            ≡ rxbuf_ptr))
flush-receive_example =
    flush-receive crc8_ccitt_update 13 3 ping opening opening-IsOwned (omega arith) (omega arith)

abbrev wrong : ℕ
wrong = packet_crc crc8_ccitt_update ping + 1

under_way : pkt_is_active (parse_all crc8_ccitt_update pkt (0x55 ∷ 0xF0 ∷ 0 ∷ [])) ≡ true
unfolding parse_all pkt_parser pkt_is_active
under_way = refl

still : (parse_all crc8_ccitt_update pkt (0x55 ∷ 0xF0 ∷ 0 ∷ [])).ready_packet ≡ null
unfolding parse_all pkt_parser
still = refl

plain : (packet_crc crc8_ccitt_update ping == preamble) ≡ false
unfolding crc_from crc8_ccitt_update
plain = refl

-- The node when the packet with the wrong check byte has been dropped.
abbrev dropped : Node
dropped =
    receive_bytes crc8_ccitt_update (7 ∷ 1 ∷ 0 ∷ wrong ∷ [])
      (cmd_process crc8_ccitt_update eeprom env
        (receive_bytes crc8_ccitt_update (0x55 ∷ 0xF0 ∷ 0 ∷ []) node)).0

abbrev over : Node
over = record dropped { tmr = record dropped.tmr { systick = u16 (ticks_of node + 6000) } }

still_2 : (parse_all crc8_ccitt_update dropped.pkt (0x55 ∷ 0xF0 ∷ 0 ∷ [])).ready_packet ≡ null
unfolding parse_all pkt_parser receive_bytes rxc_isr cmd_process pkt_ready pkt_is_active
    watch_packet crc8_ccitt_update crc_from
still_2 = refl

stale_timeout_example :
    (dropped.pkt.ready_packet ≡ null)
    × ((receive_bytes crc8_ccitt_update
          (7 ∷ 1 ∷ 0 ∷ packet_crc crc8_ccitt_update ping ∷ [])
          (cmd_process crc8_ccitt_update eeprom env
            (receive_bytes crc8_ccitt_update (0x55 ∷ 0xF0 ∷ 0 ∷ []) over)).0).pkt.ready_packet
        ≡ null)
    × ((receive_bytes crc8_ccitt_update
          (0x55 ∷ 0xF0 ∷ 0 ∷ 7 ∷ 1 ∷ 0 ∷ packet_crc crc8_ccitt_update ping ∷ [])
          over).pkt.ready_packet
        ≡ rxbuf_ptr)
stale_timeout_example =
    stale_timeout crc8_ccitt_update eeprom env node dropped 0 0 6000 wrong ping ping
      (0x55 ∷ 0xF0 ∷ 0 ∷ []) (7 ∷ 1 ∷ 0 ∷ wrong ∷ []) (0x55 ∷ 0xF0 ∷ 0 ∷ [])
      (7 ∷ 1 ∷ 0 ∷ packet_crc crc8_ccitt_update ping ∷ []) pkt-Waits refl refl (omega arith)
      (omega arith) (ground arith) refl still under_way (omega arith) (omega arith) (omega arith)
      refl (refl, (refl, (refl, (plain, tt)))) refl still_2

-- The board is hot while the shunt test runs.
abbrev hot : Board
hot = record board { shunt = shunting; adc = record adc { results = 512 ∷ 900 ∷ 900 ∷ 900 ∷ [] } }

abbrev shunt_test : TestMode
shunt_test = record test { test_state = testmode_shunt }

above_60 : 60 < to_u16 (adc_get_temp_c hw hot.adc board_temp)
unfolding adc_get_temp_c
above_60 = omega arith

-- The external output is switched on, and the first second is seen expired.
abbrev switched : TestMode × Board
switched = testmode_on 500 parms 2 0 0 (shunt_test, hot)

switch_unguards_example :
    let s = (testmode_run hw 1600 switched).0 in
    IsAllOff (testmode_run hw 500 (shunt_test, hot)).0
    × (s.1.shunt.status ≡ hot.shunt.status)
    × (s.1.shunt.pwm ≡ hot.shunt.pwm)
    × (s.1.shunt.cmp1 ≡ hot.shunt.cmp1)
    × (s.1.shunt.timer_on ≡ hot.shunt.timer_on)
switch_unguards_example =
    switch_unguards hw 500 500 parms 2 0 0 shunt_test hot
      (if tmr_expired 1600 switched.0.test_timeout then 0 + 1 else 0)
      (testmode_run hw 1600 switched).0 refl above_60 (inr (inl refl)) (ran hw 1600 begun)
      (ground arith)
