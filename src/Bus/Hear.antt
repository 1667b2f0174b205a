-- ===== src/Bus/Hear.antt =====
-- One node that takes the bytes of a packet from the wire, in src/ser.c, src/pkt.c and src/cmd.c.
use bmsnode_firmware.Prelude.{
  ℕ, ◌-◌, ◌≤◌, ◌≡◌, sym, ap, ap₂, ◌∙◌, ◌⊎◌, inl, inr, Bool, true, false, List, [], ◌++◌, arith,
  ◌==◌, length, take_all,
}
use bmsnode_firmware.Ser.{Ser, buf_cnt}
use bmsnode_firmware.Ser.Duplex.{drain, drain_returns}
use bmsnode_firmware.Ser.Queue.{contents}
use mathlib.Core.Path.{subst}
use bmsnode_firmware.Pkt.{parse_all, null, pkt_reset}
use bmsnode_firmware.Pkt.Frame.{Packet, wire}
use bmsnode_firmware.Pkt.Send.{length-wire}
use bmsnode_firmware.Cfg.{Cfg, Eeprom, cfg_uid, get8}
use bmsnode_firmware.Cfg.Offset
use bmsnode_firmware.Node.{Node, Env}
use bmsnode_firmware.Cmd.{cmd_process, watch_packet}
use bmsnode_firmware.Cmd.Code.{node_id, cmd_addr_code}
use bmsnode_firmware.Cmd.Address.{run_command_foreign}
use bmsnode_firmware.Cmd.Link.{NodeLink, run_command-IsLink}
use bmsnode_firmware.Cmd.Discover.{number_of}
use bmsnode_firmware.Cmd.Exchange.{Waits, receive_bytes, receive_bytes-pkt, picked_up}
use bmsnode_firmware.Cmd.Reply.{CanSend, reply_packet}
use bmsnode_firmware.Cmd.Recover.{nothing_ready}
use bmsnode_firmware.Cmd.Speak.{Speaks, run_command-Answers}
use bmsnode_firmware.Cmd.Discover.{length-drop_four}
use bmsnode_firmware.Main.{free_packet}
use bmsnode_firmware.Bus.{hear, spoken}
use bmsnode_firmware.Bus.Take.{
  IsIdle, wants, IsWhole, Freed, Freed-IsLink, Holding, held, holding_wants, ran, processed,
}

module _ (crc8 : ℕ → ℕ → ℕ) where
  -- What a node `m` says that had the configuration `c`: a reply with its address, and for ADDR with its number.
  pub record Reply (c : Cfg) (m : Node) : Type 0 where
    pub addr : ℕ
    pub cmd : ℕ
    pub payload : List ℕ
    pub whole : IsWhole (reply_packet addr cmd payload)
    pub bytes : spoken m ≡ wire crc8 (reply_packet addr cmd payload)
    pub names : (addr ≡ get8 c.parms Offset.addr) ⊎ (addr ≡ node_id m)
    pub number : (cmd == cmd_addr_code) ≡ true → number_of payload ≡ cfg_uid c

  -- A node that has heard a packet and become `m`.
  pub record Heard (s : Ser) (c : Cfg) (p : Packet) (m : Node) : Type 0 where
    pub waits : Waits m.pkt
    pub blank : m.pkt.ready_packet ≡ null
    pub link : NodeLink m
    pub foreign : wants c p ≡ false → (m.ser ≡ s) × (m.cfg ≡ c)
    pub answer : (m.ser ≡ s) ⊎ Reply c m

module _ (crc8 : ℕ → ℕ → ℕ) (ee : Eeprom) (env : Env) where
  Speaks-Reply :
      (n m : Node) (out : Node × Bool)
      → Speaks crc8 n out
      → buf_cnt n.ser ≡ 0
      → m.ser ≡ out.0.ser
      → m.cfg ≡ out.0.cfg
      → Reply crc8 n.cfg m
  Speaks-Reply n m out said silent ser cfg =
      let r = said.replies in
      let p = reply_packet said.addr said.cmd said.payload in
      let none_before : contents n.ser ≡ [] = rw silent in
      let room : length (wire crc8 p) ≤ 31 - buf_cnt n.ser =
        omega (arith, length-wire crc8 p, said.size) in
      let queued : contents out.0.ser ≡ wire crc8 p =
        r.bytes ∙ ap₂ ◌++◌ none_before (take_all (wire crc8 p) _ room) in
      record {
        addr = said.addr;
        cmd = said.cmd;
        payload = said.payload;
        whole = record { size = said.size; number = λ h. (said.number h).0 };
        bytes =
            ap (λ (x : Ser). (drain (buf_cnt x) x).1) ser
            ∙ (drain_returns out.0.ser r.can.ring).0
            ∙ queued;
        names = elim said.names [
          | inl e ↦ inl e
          | inr e ↦ inr (e ∙ sym (ap (λ (x : Cfg). get8 x.parms Offset.addr) cfg))
        ];
        number = λ h. (said.number h).1;
      }

  -- A node that is idle hears a packet.
  heard :
      (p : Packet) (n : Node)
      → IsWhole p
      → Holding p n.pkt
      → NodeLink n
      → buf_cnt n.ser ≡ 0
      → let (m, q) = cmd_process crc8 ee env n in Heard crc8 n.ser n.cfg p (free_packet q m)
  heard p n whole h link silent =
      let f = processed crc8 ee env p n h in
      let v = run_command-IsLink crc8 ee env (picked_up n) link in
      let can : CanSend (picked_up n) = record { ring = link.ring; tx = link.packet } in
      record {
        waits = f.waits;
        blank = f.blank;
        link = Freed-IsLink (ran crc8 ee env n).0 _ f v;
        foreign = λ w.
            let e = run_command_foreign crc8 ee env (picked_up n) (holding_wants p n whole h ∙ w) in
            (
              f.ser ∙ ap (λ (x : Node × Bool). x.0.ser) e,
              f.cfg ∙ ap (λ (x : Node × Bool). x.0.cfg) e,
            );
        answer =
            elim (run_command-Answers crc8 ee env (picked_up n) can
              (length-drop_four n.pkt.rxbuf h.size)) [
                | inl same ↦ inl (f.ser ∙ same)
                | inr said ↦ inr (
                    Speaks-Reply (picked_up n)
                      (free_packet (cmd_process crc8 ee env n).1 (cmd_process crc8 ee env n).0)
                      (ran crc8 ee env n) said silent f.ser f.cfg)
              ];
      }

  pub hear-Heard :
      (p : Packet) (n : Node)
      → IsWhole p
      → IsIdle n
      → Heard crc8 n.ser n.cfg p (hear crc8 ee (wire crc8 p) env n)
  hear-Heard p n whole idle =
      let a = record n { pkt = parse_all crc8 n.pkt (wire crc8 p) } in
      let h =
        heard p a whole (held crc8 p n.pkt whole.size idle.waits)
          (record { packet = idle.link.packet; ring = idle.link.ring; step = idle.link.step })
          idle.silent in
      let Then = λ (x : Node).
        Heard crc8 n.ser n.cfg p (let (m, q) = cmd_process crc8 ee env x in free_packet q m) in
      subst Then (sym (receive_bytes-pkt crc8 (wire crc8 p) n)) h

  watched : (n : Node) → Waits n.pkt → n.pkt.ready_packet ≡ null → Freed n (watch_packet n)
  unfolding watch_packet pkt_reset
  watched n w blank = record {
    waits = record {
      state = ground (arith, w);
      free = ground (arith, w);
      size = ground (arith, w);
    };
    blank = ground arith;
    tx = ground arith;
    ser = ground arith;
    cfg = ground arith;
  }

  -- A node that hears nothing.
  pub hear-nothing :
      (n : Node) → IsIdle n → IsIdle (hear crc8 ee [] env n) × ((hear crc8 ee [] env n).cfg ≡ n.cfg)
  unfolding receive_bytes
  hear-nothing n idle =
      let f = watched n idle.waits idle.blank in
      let e = nothing_ready crc8 ee env n idle.blank in
      rw e (
        record {
          waits = f.waits;
          blank = f.blank;
          link = Freed-IsLink n (watch_packet n) f idle.link;
          silent = ap buf_cnt f.ser ∙ idle.silent;
          receiving = ap (λ (x : Ser). x.rxen) f.ser ∙ idle.receiving;
        },
        f.cfg,
      )
