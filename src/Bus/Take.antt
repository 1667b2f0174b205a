-- ===== src/Bus/Take.antt =====
-- A packet in the receive buffer of one node, and the buffer after it, in src/pkt.c and src/cmd.c.
use bmsnode_firmware.Prelude.{
  get_or-take, ℕ, suc, ◌+◌, ◌≤◌, ◌<◌, ◌≡◌, refl, sym, ap, ◌∙◌, inl, inr, Bool, true, false, ◌&&◌,
  arith, ◌==◌, if◌then◌else◌, Bool-cases, length, get_or, drop,
}
use bmsnode_firmware.Ser.{Ser, buf_cnt}
use mathlib.Core.Path.{subst}
use bmsnode_firmware.Pkt.{
  TxPacket, Pkt, parse_all, rxbuf_ptr, null, rx_search, pkt_ready, pkt_reset, pkt_rx_free,
  in_search_or_sync,
}
use bmsnode_firmware.Pkt.Frame.{Packet, body, packet_crc, wire}
use bmsnode_firmware.Pkt.Receive.{receive_lem}
use bmsnode_firmware.Pkt.Idle.{length-parse_all}
use bmsnode_firmware.Cfg.{Cfg, Eeprom, cfg_uid, get8}
use bmsnode_firmware.Cfg.Offset
use bmsnode_firmware.Node.{Node, Env}
use bmsnode_firmware.Cmd.{cmd_process, run_command, finish_command, watch_packet}
use bmsnode_firmware.Cmd.Code.{pkt_addr, pkt_cmd, cmd_addr_code, cmd_uid_code}
use bmsnode_firmware.Cmd.Address.{is_for_me}
use bmsnode_firmware.Cmd.Buffer.{run_command-pkt}
use bmsnode_firmware.Cmd.Link.{IsLink, NodeLink}
use bmsnode_firmware.Cmd.Discover.{number_of}
use bmsnode_firmware.Cmd.Exchange.{Waits, picked_up}
use bmsnode_firmware.Cmd.Discover.{get_or-drop_four}
use bmsnode_firmware.Main.{free_packet}

-- A node that waits for a packet, has nothing to send, and has its receiver on.
pub record IsIdle (n : Node) : Type 0 where
  pub waits : Waits n.pkt
  pub blank : n.pkt.ready_packet ≡ null
  pub link : NodeLink n
  pub silent : buf_cnt n.ser ≡ 0
  pub receiving : n.ser.rxen ≡ true

-- Whether a packet asks a node with this configuration for something.
abbrev pub wants : Cfg → Packet → Bool
wants c p =
    if p.cmd == cmd_addr_code
    then cfg_uid c == number_of p.payload
    else if get8 c.parms Offset.addr == 0
    then p.addr == 0 && p.cmd == cmd_uid_code
    else p.addr == get8 c.parms Offset.addr

-- A packet whose payload has a number if its command asks for one.
pub record IsWhole (p : Packet) : Type 0 where
  pub size : length p.payload ≤ 12
  pub number : (p.cmd == cmd_addr_code) ≡ true → 4 ≤ length p.payload

-- The node at the end of its turn has the buffer back.
pub record Freed (n m : Node) : Type 0 where
  pub waits : Waits m.pkt
  pub blank : m.pkt.ready_packet ≡ null
  pub tx : m.tx ≡ n.tx
  pub ser : m.ser ≡ n.ser
  pub cfg : m.cfg ≡ n.cfg

pub Freed-IsLink : (n m : Node) → Freed n m → NodeLink n → NodeLink m
Freed-IsLink n m f v =
    subst (λ (t : TxPacket). IsLink t m.ser) (sym f.tx)
      (subst (λ (x : Ser). IsLink n.tx x) (sym f.ser) v)

pub freed :
    (out : Node × Bool)
    → out.0.pkt.state ≡ rx_search
    → out.0.pkt.ready_packet ≡ null
    → length out.0.pkt.rxbuf ≡ 16
    → let (m, p) = finish_command out in Freed out.0 (free_packet p m)
unfolding watch_packet pkt_reset pkt_rx_free
freed (n, true) st blank size = record {
  waits = record { state = ap in_search_or_sync st; free = refl; size = size };
  blank = blank;
  tx = refl;
  ser = refl;
  cfg = refl;
}
freed (n, false) st blank size = record {
  waits = record { state = ground arith; free = ground arith; size = ground arith };
  blank = ground arith;
  tx = ground arith;
  ser = ground arith;
  cfg = ground arith;
}

-- The bytes of a packet that has come in.
pub record Holding (p : Packet) (s : Pkt) : Type 0 where
  pub state : s.state ≡ rx_search
  pub ready : s.ready_packet ≡ rxbuf_ptr
  pub size : length s.rxbuf ≡ 16
  pub field : (i : ℕ) → i < 4 + length p.payload → get_or s.rxbuf i 0 ≡ get_or (body p) i 0

pub holding_wants :
    (p : Packet) (n : Node) → IsWhole p → Holding p n.pkt → is_for_me n ≡ wants n.cfg p
holding_wants p n whole h =
    let a : pkt_addr n ≡ p.addr = h.field 1 (omega arith) in
    let c : pkt_cmd n ≡ p.cmd = h.field 2 (omega arith) in
    elim (Bool-cases (p.cmd == cmd_addr_code)) [
      | inl naming ↦
          let four = whole.number naming in
          let at : (i : ℕ) → i < 4 → get_or (drop 4 n.pkt.rxbuf) i 0 ≡ get_or p.payload i 0 = λ i l.
            get_or-drop_four n.pkt.rxbuf i ∙ h.field (suc (suc (suc (suc i)))) (omega arith) in
          rw (a, c, at 0 (omega arith), at 1 (omega arith), at 2 (omega arith), at 3 (omega arith))
            refl
      | inr plain ↦ rw (a, c, plain) refl
    ]

pub held :
    (crc8 : ℕ → ℕ → ℕ) (p : Packet) (s : Pkt)
    → length p.payload ≤ 12
    → Waits s
    → Holding p (parse_all crc8 s (wire crc8 p))
held crc8 p s le w =
    let (st, bytes, ready, inuse) =
      receive_lem crc8 3 p (packet_crc crc8 p) s le w.state w.free w.size in
    let good : (packet_crc crc8 p == packet_crc crc8 p) ≡ true = ground arith in
    record {
      state = st;
      ready = rw good at ready;
      size = length-parse_all crc8 s (wire crc8 p) ∙ w.size;
      field = λ i h. sym (get_or-take _ _ i 0 h) ∙ ap (λ l. get_or l i 0) bytes;
    }

module _ (crc8 : ℕ → ℕ → ℕ) (ee : Eeprom) (env : Env) where
  -- The call of `cmd_process` with the packet of `h`.
  abbrev pub ran : Node → Node × Bool
  ran n = run_command crc8 ee env (picked_up n)

  pub processed :
      (p : Packet) (n : Node)
      → Holding p n.pkt
      → let (m, q) = cmd_process crc8 ee env n in Freed (ran n).0 (free_packet q m)
  unfolding cmd_process pkt_ready
  processed p n h =
      let same : (ran n).0.pkt ≡ record n.pkt { ready_packet = null } =
        run_command-pkt crc8 ee env (picked_up n) in
      rw h.ready (
        freed (ran n) (ap (λ (x : Pkt). x.state) same ∙ h.state)
          (ap (λ (x : Pkt). x.ready_packet) same) (ap (λ (x : Pkt). length x.rxbuf) same ∙ h.size))
