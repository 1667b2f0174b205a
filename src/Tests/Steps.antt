-- ===== src/Tests/Steps.antt =====
-- The main loop step by step with interrupts between, rows of preambles, replies that other nodes
-- hear, a timeout that is left over, and one test function after another.
use bmsnode_firmware.Prelude.{ℕ, zero, suc, ◌≡◌, refl, true, false, List, [], ◌∷◌}
use bmsnode_firmware.Crc.{crc8_ccitt_update}
use bmsnode_firmware.Tests.Data.{node, env, eeprom}
use bmsnode_firmware.Tests.Whole.{node-IsReset, started}
use bmsnode_firmware.Ser.{buf_cnt, txc_isr, dre_isr, ser_is_active}
use bmsnode_firmware.Ser.Queue.{contents}
use bmsnode_firmware.Ser.Duplex.{drain}
use bmsnode_firmware.Node.{rxc_isr}
use bmsnode_firmware.Pkt.{pkt_reset, pkt_parser}
use bmsnode_firmware.Main.States.{powerup_handler, device_init, schedule_state}
use bmsnode_firmware.Tmr.{tmr_init}
use bmsnode_firmware.Kissm.{kissm_init}
use bmsnode_firmware.Main.{main_init}
use bmsnode_firmware.Main.Load.{IsAccounted}
use bmsnode_firmware.Cmd.Link.{IsFit}
use bmsnode_firmware.Main.Preempt.{Preempted, start, after, main, rxc, Moment, step}
use bmsnode_firmware.Main.Preempt.Pass.{between}
use bmsnode_firmware.Main.Preempt.Owned.{IsSound, Preempted-IsSound}
use bmsnode_firmware.Main.Preempt.Held.{begin, go, is_taken, Handling-rxbuf}
use bmsnode_firmware.Main.Preempt.Fit.{Preempted-IsFit, Preempted-drains}
use bmsnode_firmware.Main.Preempt.Awake.{IsWaking, Preempted-IsWaking}
use bmsnode_firmware.Main.Preempt.Outputs.{pair_of, Preempted-IsAccounted}
use bmsnode_firmware.Main.Preempt.Movers.{with_byte, step-rxc_isr}

-- A byte that arrives while the main loop is at the LEDs, another at the converters, and a tick.
abbrev moment : Moment
moment =
    let byte = λ (t : Moment). record t { node = rxc_isr crc8_ccitt_update true 0x55 t.node } in
    byte (step crc8_ccitt_update eeprom env (byte (between started)))

reached : Preempted crc8_ccitt_update eeprom (between started) moment
reached = after (after (after start (rxc true 0x55)) (main env)) (rxc true 0x55)

Preempted-IsSound_example : IsSound crc8_ccitt_update moment
Preempted-IsSound_example = Preempted-IsSound crc8_ccitt_update eeprom node moment refl reached

Preempted-IsFit_example : IsFit moment.node
Preempted-IsFit_example = Preempted-IsFit crc8_ccitt_update eeprom node moment node-IsReset reached

Preempted-drains_example :
    let s = moment.node.ser in
    ((drain (buf_cnt s) s).1 ≡ contents s)
    × (let t = txc_isr (dre_isr true (drain (buf_cnt s) s).0).0 in
        (ser_is_active false t ≡ false) × (t.rxen ≡ true) × (t.txen ≡ false))
Preempted-drains_example =
    Preempted-drains crc8_ccitt_update eeprom node moment node-IsReset reached

Preempted-IsWaking_example : IsWaking moment
Preempted-IsWaking_example = Preempted-IsWaking crc8_ccitt_update eeprom node moment refl reached

Preempted-IsAccounted_example : IsAccounted (pair_of crc8_ccitt_update eeprom moment)
Preempted-IsAccounted_example =
    Preempted-IsAccounted crc8_ccitt_update eeprom node moment node-IsReset reached

-- The main loop without interrupts for some of its steps.
stepped : ℕ → Moment
stepped zero = between started
stepped (suc j) = step crc8_ccitt_update eeprom env (stepped j)

step-rxc_isr_example :
    step crc8_ccitt_update eeprom env (with_byte crc8_ccitt_update true 0xF0 moment)
    ≡ with_byte crc8_ccitt_update true 0xF0 (step crc8_ccitt_update eeprom env moment)
unfolding step
step-rxc_isr_example =
    step-rxc_isr crc8_ccitt_update eeprom env node moment true 0xF0 refl reached refl

-- Bytes that arrive one after another.
abbrev bytes_after : List ℕ → Moment → Moment
bytes_after [] t = t
bytes_after (b ∷ bs) t =
    bytes_after bs (record t { node = rxc_isr crc8_ccitt_update true b t.node })

bytes-reached :
    (bs : List ℕ) (t : Moment)
    → Preempted crc8_ccitt_update eeprom (between started) t
    → Preempted crc8_ccitt_update eeprom (between started) (bytes_after bs t)
bytes-reached [] t r = r
bytes-reached (b ∷ bs) t r = bytes-reached bs _ (after r (rxc true b))

-- A PING to address 7 has come in.
abbrev pinged : Moment
pinged = bytes_after (0x55 ∷ 0xF0 ∷ 0 ∷ 7 ∷ 1 ∷ 0 ∷ 0x3 ∷ []) (between started)

taken : is_taken pinged ≡ true
unfolding rxc_isr pkt_parser main_init pkt_reset powerup_handler device_init schedule_state tmr_init
    kissm_init crc8_ccitt_update
taken = refl

Handling-rxbuf_example :
    (with_byte crc8_ccitt_update true 0x55 pinged).node.pkt.rxbuf ≡ pinged.node.pkt.rxbuf
Handling-rxbuf_example =
    Handling-rxbuf crc8_ccitt_update eeprom node pinged
      (with_byte crc8_ccitt_update true 0x55 pinged) refl
      (bytes-reached (0x55 ∷ 0xF0 ∷ 0 ∷ 7 ∷ 1 ∷ 0 ∷ 0x3 ∷ []) (between started) start)
      (go begin taken (rxc true 0x55))
