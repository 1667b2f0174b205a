-- ===== src/Cmd/Exchange.antt =====
-- A request on the wire and its reply, through the receive interrupt of src/ser.c, src/pkt.c and
-- src/cmd.c, and back to the one who asked.
use bmsnode_firmware.Prelude.{
  get_or-take, ℕ, ◌+◌, ◌-◌, ◌≤◌, ◌<◌, ◌≡◌, refl, sym, ap, ap₂, ◌∙◌, ◌≢◌, Bool, true, false, List,
  [], ◌∷◌, ◌++◌, arith, ◌==◌, length, get_or, set, take, take_all,
}
use mathlib.Core.Path.{subst}
use bmsnode_firmware.Ser.{buf_cnt}
use bmsnode_firmware.Ser.Queue.{contents}
use bmsnode_firmware.Ser.Duplex.{drain, drain_returns}
use bmsnode_firmware.Pkt.{
  Pkt, PktPtr, null, rxbuf_ptr, pkt_parser, parse_all, pkt_ready, in_search_or_sync, pkt_flag_reply,
}
use bmsnode_firmware.Pkt.Frame.{Packet, body, opened, packet_crc, wire}
use bmsnode_firmware.Pkt.Receive.{receive_lem}
use bmsnode_firmware.Pkt.Send.{length-wire}
use bmsnode_firmware.Cfg.{Eeprom}
use bmsnode_firmware.Node.{Node, Env, rxc_isr}
use bmsnode_firmware.Cmd.{
  finish_command, process_packet, run_command, finish_command, process_packet, cmd_process,
}
use bmsnode_firmware.Cmd.Code.{node_id, pkt_addr, pkt_cmd}
use bmsnode_firmware.Cmd.Reply.{reply_packet, CanSend, Replies}
use bmsnode_firmware.Cmd.Ack.{is_acked, run_command_acks}

-- The reply is in the receive buffer of the one who asked, ready to be picked up.
pub record Received (addr cmd : ℕ) (payload : List ℕ) (s : Pkt) : Type 0 where
  pub ready : s.ready_packet ≡ rxbuf_ptr
  pub bytes :
      take (4 + length payload) s.rxbuf ≡ pkt_flag_reply ∷ addr ∷ cmd ∷ length payload ∷ payload

-- A parser that waits, with a free buffer of 16 bytes.
pub record Waits (s : Pkt) : Type 0 where
  pub state : in_search_or_sync s.state ≡ true
  pub free : s.rxbuf_inuse ≡ false
  pub size : length s.rxbuf ≡ 16

module _ (crc8 : ℕ → ℕ → ℕ) where
  -- What a reply queued into an empty ring is to another parser, once the interrupts have sent it.
  pub Replies-Received :
      (n : Node) (addr cmd : ℕ) (payload : List ℕ) (out : Node × Bool) (other : Pkt)
      → Replies crc8 n addr cmd payload out
      → buf_cnt n.ser ≡ 0
      → length payload ≤ 12
      → Waits other
      → (out.1 ≡ true)
        × Received addr cmd payload (parse_all crc8 other (drain (buf_cnt out.0.ser) out.0.ser).1)
  Replies-Received n addr cmd payload out other r empty le w =
      let p = reply_packet addr cmd payload in
      let room : length (wire crc8 p) ≤ 31 - buf_cnt n.ser = omega (arith, length-wire crc8 p) in
      let none_before : contents n.ser ≡ [] = rw empty in
      let queued : contents out.0.ser ≡ wire crc8 p =
        r.bytes ∙ ap₂ ◌++◌ none_before (take_all (wire crc8 p) _ room) in
      let sent : (drain (buf_cnt out.0.ser) out.0.ser).1 ≡ wire crc8 p =
        (drain_returns out.0.ser r.can.ring).0 ∙ queued in
      let (st, bytes, ready, inuse) =
        receive_lem crc8 3 p (packet_crc crc8 p) other le w.state w.free w.size in
      let good : (packet_crc crc8 p == packet_crc crc8 p) ≡ true = ground arith in
      (
        r.whole.1 room,
        subst (λ l. Received addr cmd payload (parse_all crc8 other l)) (sym sent)
            (record { ready = rw good at ready; bytes = bytes }),
      )

  -- The outcome of cmd_process where the packet was answered and goes on, and the reply arrives.
  abbrev pub Answered : ℕ → ℕ → List ℕ → Pkt → Node × PktPtr → Type 0
  Answered addr cmd payload other (m, ret) =
      (ret ≡ rxbuf_ptr)
      × Received addr cmd payload (parse_all crc8 other (drain (buf_cnt m.ser) m.ser).1)

  -- Bytes that arrive at a node, with the receive flag up.
  unfoldable pub receive_bytes : List ℕ → Node → Node
  receive_bytes [] n = n
  receive_bytes (b ∷ bs) n = receive_bytes bs (rxc_isr crc8 true b n)

  pub receive_bytes-pkt :
      (bs : List ℕ) (n : Node) → receive_bytes bs n ≡ record n { pkt = parse_all crc8 n.pkt bs }
  unfolding receive_bytes rxc_isr parse_all
  receive_bytes-pkt [] n = refl
  receive_bytes-pkt (b ∷ bs) n = receive_bytes-pkt bs (record n { pkt = pkt_parser crc8 n.pkt b })

-- A packet goes on to the caller when its command says so.
handed_on : (out : Node × Bool) → out.1 ≡ true → finish_command out ≡ (out.0, rxbuf_ptr)
handed_on (n, true) e = refl
handed_on (n, false) e = absurd (ground arith)

-- What a node has when the bytes of a packet have arrived.
pub record Holds (p : Packet) (s : Pkt) : Type 0 where
  pub ready : s.ready_packet ≡ rxbuf_ptr
  pub addr : get_or s.rxbuf 1 0 ≡ p.addr
  pub cmd : get_or s.rxbuf 2 0 ≡ p.cmd

-- The node when cmd_process has taken the packet.
abbrev pub picked_up : Node → Node
picked_up n = record n { pkt = record n.pkt { ready_packet = null }; pkt_waiting = false }

module _ (crc8 : ℕ → ℕ → ℕ) (ee : Eeprom) (env : Env) where
  pub arrived :
      (k : ℕ) (p : Packet) (s : Pkt)
      → length p.payload ≤ 12
      → Waits s
      → Holds p (parse_all crc8 s (opened k (body p ++ packet_crc crc8 p ∷ [])))
  arrived k p s le w =
      let (st, bytes, ready, inuse) =
        receive_lem crc8 k p (packet_crc crc8 p) s le w.state w.free w.size in
      let good : (packet_crc crc8 p == packet_crc crc8 p) ≡ true = ground arith in
      let field : (i : ℕ)
          → i < 4 + length p.payload
          → get_or (parse_all crc8 s (opened k (body p ++ packet_crc crc8 p ∷ []))).rxbuf i 0
            ≡ get_or (body p) i 0 =
        λ i h. sym (get_or-take _ _ i 0 h) ∙ ap (λ l. get_or l i 0) bytes in
      record { ready = rw good at ready; addr = field 1 (omega arith); cmd = field 2 (omega arith) }

  -- A ready packet that is answered goes on to the main loop.
  pub answered :
      (n : Node) (p : Packet) (other : Pkt) (addr cmd : ℕ) (payload : List ℕ)
      → buf_cnt n.ser ≡ 0
      → length payload ≤ 12
      → Holds p n.pkt
      → Waits other
      → Replies crc8 (picked_up n) addr cmd payload (run_command crc8 ee env (picked_up n))
      → Answered crc8 addr cmd payload other (cmd_process crc8 ee env n)
  unfolding cmd_process pkt_ready
  answered n p other addr cmd payload empty le h w r =
      let out = run_command crc8 ee env (picked_up n) in
      let (all, got) =
        Replies-Received crc8 (picked_up n) addr cmd payload out other r empty le w in
      let k = record n { pkt = record n.pkt { ready_packet = null } } in
      subst (λ ptr. Answered crc8 addr cmd payload other (process_packet crc8 ee env k ptr))
        (sym h.ready)
        (subst (Answered crc8 addr cmd payload other) (sym (handed_on out all)) (refl, got))

  -- A ready packet that is acknowledged goes on to the main loop.
  acked :
      (n : Node) (p : Packet) (other : Pkt)
      → CanSend n
      → buf_cnt n.ser ≡ 0
      → node_id n ≢ 0
      → p.addr ≡ node_id n
      → is_acked p.cmd ≡ true
      → Holds p n.pkt
      → Waits other
      → Answered crc8 p.addr p.cmd [] other (cmd_process crc8 ee env n)
  acked n p other c empty set mine ack h w =
      let m = picked_up n in
      let r =
        run_command_acks crc8 ee env m (record { ring = c.ring; tx = c.tx }) set (h.addr ∙ mine)
          (ap is_acked h.cmd ∙ ack) in
      let Outcome = λ (a : ℕ) (c : ℕ). Answered crc8 a c [] other (cmd_process crc8 ee env n) in
      subst (λ a. Outcome a p.cmd) h.addr
        (subst (λ c. Outcome (pkt_addr m) c) h.cmd
          (answered n p other (pkt_addr m) (pkt_cmd m) [] empty (omega arith) h w r))

  -- A packet with a command that is acknowledged and the address of this node arrives at a node that
  -- has nothing to send. Then the command processor queues the reply and passes the packet on, and
  -- after the interrupts have sent what is queued, another waiting parser has the reply ready: the
  -- reply flag, the address and the command of the request, and no payload.
  pub request_reply :
      (k : ℕ) (p : Packet) (n : Node) (other : Pkt)
      → length p.payload ≤ 12
      → is_acked p.cmd ≡ true
      → node_id n ≢ 0
      → p.addr ≡ node_id n
      → CanSend n
      → buf_cnt n.ser ≡ 0
      → Waits n.pkt
      → Waits other
      → let asked = receive_bytes crc8 (opened k (body p ++ packet_crc crc8 p ∷ [])) n in
        let (m, ret) = cmd_process crc8 ee env asked in
        (ret ≡ rxbuf_ptr)
        × Received p.addr p.cmd [] (parse_all crc8 other (drain (buf_cnt m.ser) m.ser).1)
  request_reply k p n other le ack set mine c empty w v =
      let bytes = opened k (body p ++ packet_crc crc8 p ∷ []) in
      let m = record n { pkt = parse_all crc8 n.pkt bytes } in
      subst (λ x. Answered crc8 p.addr p.cmd [] other (cmd_process crc8 ee env x))
        (sym (receive_bytes-pkt crc8 bytes n))
        (acked m p other (record { ring = c.ring; tx = c.tx }) empty set mine ack
          (arrived k p n.pkt le w) v)
