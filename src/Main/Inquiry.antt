-- ===== src/Main/Inquiry.antt =====
-- A STATUS request to a node of src/main.c in any state that it reaches, and what the one who asked
-- reads from the reply.
use bmsnode_firmware.Prelude.{
  ℕ, ◌≤◌, ◌≡◌, refl, sym, ◌∙◌, ◌≢◌, true, false, List, [], ◌∷◌, ◌++◌, arith, length, set,
}
use mathlib.Core.Path.{subst}
use bmsnode_firmware.Adc.Filter
use bmsnode_firmware.LinkedList
use bmsnode_firmware.Tmr.{tmr_process}
use bmsnode_firmware.Ser.{buf_cnt}
use bmsnode_firmware.Ser.Duplex.{drain}
use bmsnode_firmware.Pkt.{Pkt, PktPtr, null, rxbuf_ptr, parse_all, in_search_or_sync}
use bmsnode_firmware.Pkt.Frame.{Packet, body, opened, packet_crc}
use bmsnode_firmware.Cfg.{Eeprom}
use bmsnode_firmware.Kissm.{Kissm, State, kissm_run}
use bmsnode_firmware.Node.{Node, Env}
use bmsnode_firmware.Cmd.{cmd_process}
use bmsnode_firmware.Cmd.Code.{node_id, cmd_status_code}
use bmsnode_firmware.Cmd.Reply.{CanSend}
use bmsnode_firmware.Cmd.Report.{StatusReport}
use bmsnode_firmware.Cmd.Exchange.{
  Waits, Received, Holds, receive_bytes, receive_bytes-pkt, picked_up, arrived,
}
use bmsnode_firmware.Cmd.Inquiry.{reported}
use bmsnode_firmware.Adc.Filter.{Is10Bit}
use bmsnode_firmware.Main.{main_init, main_step, next_event, run_background, free_packet}
use bmsnode_firmware.Main.States.{NodeState, powerup, tmr_fuel, handler, same}
use bmsnode_firmware.Main.Machine.{in_state, to_powerup, run-Ran}
use bmsnode_firmware.Main.Loop.{next_event-is_outer}
use bmsnode_firmware.Main.Run.{Run, Run-IsRunning}
use bmsnode_firmware.Main.Reset.{IsReset}
use bmsnode_firmware.Main.Fit.{Run-IsFit}
use bmsnode_firmware.Main.Readings.{ReadsTenBits, Run-readings, run_background-IsValid}

-- The node when a pass comes to the command processor.
abbrev pub before_command : Env → Node → Node
before_command env n =
    let b = run_background env n in record b { tmr = (tmr_process tmr_fuel b.tmr).0 }

-- No timer has expired.
abbrev pub NoneExpired : Node → Type 0
NoneExpired n = (tmr_process tmr_fuel n.tmr).1 ≡ LinkedList.null

free_packet-ser : (p : PktPtr) (n : Node) → (free_packet p n).ser ≡ n.ser
free_packet-ser null n = refl
free_packet-ser rxbuf_ptr n = refl

module _ (crc8 : ℕ → ℕ → ℕ) (ee : Eeprom) (env : Env) where
  -- A pass queues what the command processor queues.
  pass-ser :
      (s : State NodeState) (n : Node)
      → NoneExpired n
      → (main_step crc8 ee env (in_state s, n)).1.ser
        ≡ (cmd_process crc8 ee env (before_command env n)).0.ser
  unfolding main_step
  pass-ser s n quiet =
      let b = run_background env n in
      let ((m, p), e) = next_event crc8 ee env b in
      let out = kissm_run (handler env) same e (in_state s, m) in
      let called : (next_event crc8 ee env b).0.0.ser
          ≡ (cmd_process crc8 ee env (before_command env n)).0.ser =
        ground (arith, quiet) in
      let kept = (run-Ran env s e m (next_event-is_outer crc8 ee env b)).kept in
      free_packet-ser p out.1 ∙ kept.1 ∙ called

  main_step-ser :
      (k : Kissm NodeState) (n : Node)
      → k.app_init_state ≡ powerup
      → NoneExpired n
      → (main_step crc8 ee env (k, n)).1.ser
        ≡ (cmd_process crc8 ee env (before_command env n)).0.ser
  main_step-ser k n i quiet =
      subst
        (λ j.
          (main_step crc8 ee env (j, n)).1.ser
          ≡ (cmd_process crc8 ee env (before_command env n)).0.ser)
        (to_powerup k i) (pass-ser k.p_ps n quiet)

  -- What a pass over a ready STATUS request queues.
  pass_reports :
      (k : Kissm NodeState) (n : Node) (p : Packet) (other : Pkt)
      → k.app_init_state ≡ powerup
      → NoneExpired n
      → CanSend n
      → Is10Bit env.hw
      → Filter.IsValid n.board.adc
      → buf_cnt n.ser ≡ 0
      → node_id n ≢ 0
      → p.addr ≡ node_id n
      → p.cmd ≡ cmd_status_code
      → Holds p n.pkt
      → Waits other
      → let s = (main_step crc8 ee env (k, n)).1.ser in
        (payload : List ℕ) × StatusReport env (picked_up (before_command env n)) payload
        × Received
            (node_id n)
            cmd_status_code
            payload
            (parse_all crc8 other (drain (buf_cnt s) s).1)
  pass_reports k n p other i quiet c ten v empty set mine asks h w =
      let m = before_command env n in
      let (payload, report, answer) =
        reported crc8 ee env m p other (record { ring = c.ring; tx = c.tx })
          (run_background-IsValid env n ten v) empty set mine asks h w in
      (
        payload,
        report,
        subst
            (λ s.
              Received (node_id n) cmd_status_code payload
                (parse_all crc8 other (drain (buf_cnt s) s).1))
            (sym (main_step-ser k n i quiet)) answer.1,
      )

  -- In every state that a node reaches from a reset with converters of 10 bits: when it has an
  -- address, nothing to send, no expired timer and a free receive buffer, and the bytes of a STATUS
  -- request to it arrive, then the next pass of the main loop queues the reply. After the
  -- interrupts have sent what is queued, another waiting parser has the reply ready, from whose 10
  -- bytes of payload one reads, by the layout of doc/command.md, the millivolts, the three
  -- temperatures with their sign, the state of the shunt and its level.
  pub Run-reports :
      (n : Node) (z : Kissm NodeState × Node) (k : ℕ) (p : Packet) (other : Pkt)
      → IsReset n
      → (r : Run crc8 ee (main_init crc8 ee n) z) → ReadsTenBits r
      → Is10Bit env.hw
      → length p.payload ≤ 12
      → p.cmd ≡ cmd_status_code
      → node_id z.1 ≢ 0
      → p.addr ≡ node_id z.1
      → buf_cnt z.1.ser ≡ 0
      → NoneExpired z.1
      → in_search_or_sync z.1.pkt.state ≡ true
      → z.1.pkt.rxbuf_inuse ≡ false
      → Waits other
      → let bytes = opened k (body p ++ packet_crc crc8 p ∷ []) in
        let s = (main_step crc8 ee env (z.0, receive_bytes crc8 bytes z.1)).1.ser in
        (payload : List ℕ) × StatusReport env (run_background env z.1) payload
        × Received
            (node_id z.1)
            cmd_status_code
            payload
            (parse_all crc8 other (drain (buf_cnt s) s).1)
  Run-reports n z k p other h r reads ten le asks set mine empty quiet waits free w =
      let bytes = opened k (body p ++ packet_crc crc8 p ∷ []) in
      let running = Run-IsRunning crc8 ee n z h.rxbuf r in
      let link = (Run-IsFit crc8 ee n z h r).link in
      let m = record z.1 { pkt = parse_all crc8 z.1.pkt bytes } in
      let (payload, report, got) =
        pass_reports z.0 m p other running.initial quiet
          (record { ring = link.ring; tx = link.packet }) ten (Run-readings crc8 ee n z h r reads)
          empty set mine asks
          (arrived crc8 ee env k p z.1.pkt le
            (record { state = waits; free = free; size = running.owned.valid.size }))
          w in
      (
        payload,
        record {
          size = report.size;
          millivolts = report.millivolts;
          board = report.board;
          shunt = report.shunt;
          pwm = report.pwm;
          ext = report.ext;
          mcu = report.mcu;
        },
        subst
            (λ x.
              let s = (main_step crc8 ee env (z.0, x)).1.ser in
              Received (node_id z.1) cmd_status_code payload
                (parse_all crc8 other (drain (buf_cnt s) s).1))
            (sym (receive_bytes-pkt crc8 bytes z.1)) got,
      )
