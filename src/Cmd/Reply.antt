-- ===== src/Cmd/Reply.antt =====
-- What a node answers in src/cmd.c.
use bmsnode_firmware.Prelude.{
  ℕ, ◌-◌, ◌≤◌, ◌≡◌, refl, sym, ap, ◌∙◌, ◌↔◌, Bool, true, List, [], ◌∷◌, ◌++◌, arith, ◌==◌,
  if◌then◌else◌, length, get_or, set, take, replicate,
}
use bmsnode_firmware.Ser.{buf_cnt}
use bmsnode_firmware.Ser.Queue
use bmsnode_firmware.Ser.Queue.{contents}
use bmsnode_firmware.Pkt.{pkt_flag_reply}
use bmsnode_firmware.Pkt.Frame.{Packet, wire}
use bmsnode_firmware.Pkt.Send
use bmsnode_firmware.Pkt.Send.{pkt_send_lem}
use bmsnode_firmware.Cfg.{Cfg, Eeprom, cfg_set, cfg_get}
use mathlib.Core.Path.{subst}
use bmsnode_firmware.Cfg.Parm.{
  parm_bounds, IsParm, parm_bytes, value_bytes, cfg_get_lem, cfg_set_value, cfg_set_accepts,
}
use bmsnode_firmware.Node.{Node, Env}
use bmsnode_firmware.Cmd.{send_reply, cmd_ack, cmd_setparm, cmd_getparm}
use bmsnode_firmware.Cmd.Code.{node_id, pkt_addr, pkt_cmd, pkt_len, pkt_payload, cmd_getparm_code}

abbrev pub reply_packet : ℕ → ℕ → List ℕ → Packet
reply_packet addr cmd payload = record {
  flags = pkt_flag_reply;
  addr = addr;
  cmd = cmd;
  payload = payload;
}

-- A node that can send: its ring and its transmit packet are well formed.
pub record CanSend (n : Node) : Type 0 where
  pub ring : Queue.IsValid n.ser
  pub tx : Send.IsValid n.tx

-- The buffer of `cmd_getparm`.
abbrev pub getparm_buffer : ℕ → List ℕ
getparm_buffer id = set (replicate 12 0) 0 id

abbrev pub sent_len : ℕ → ℕ
sent_len len = if len == 0 then 1 else len

pub length-cfg_get :
    (n : Node) (id : ℕ)
    → let (pld, len) = cfg_get n.cfg 12 (getparm_buffer id) in
      (length pld ≡ 12) × (sent_len len ≤ 12)
unfolding cfg_get
length-cfg_get n id = ground arith

module _ (crc8 : ℕ → ℕ → ℕ) where
  -- The outcome of a command that answers with a packet: the node `n` has become `out.0`.
  pub record Replies (n : Node) (addr cmd : ℕ) (payload : List ℕ) (out : Node × Bool) : Type 0 where
    pub can : CanSend out.0
    pub bytes :
        contents out.0.ser
        ≡ contents n.ser ++ take (31 - buf_cnt n.ser) (wire crc8 (reply_packet addr cmd payload))
    pub whole :
        (out.1 ≡ true) ↔ (length (wire crc8 (reply_packet addr cmd payload)) ≤ 31 - buf_cnt n.ser)

  module _ (ee : Eeprom) (env : Env) where
    pub send_reply-Replies :
        (n : Node) (addr cmd : ℕ) (payload : List ℕ) (len : ℕ)
        → CanSend n
        → len ≤ 12
        → len ≤ length payload
        → Replies n addr cmd (take len payload) (send_reply crc8 ee env n addr cmd payload len)
    send_reply-Replies n addr cmd payload len c h k =
        let s = pkt_send_lem crc8 n.tx n.ser pkt_flag_reply addr cmd payload len c.tx c.ring h k in
        record { can = record { ring = s.1; tx = s.0 }; bytes = s.2; whole = s.3 }

    pub cmd_ack-Replies :
        (n : Node) → CanSend n → Replies n (pkt_addr n) (pkt_cmd n) [] (cmd_ack crc8 ee env n)
    unfolding cmd_ack
    cmd_ack-Replies n c =
        send_reply-Replies n (pkt_addr n) (pkt_cmd n) [] 0 c (omega arith) (omega arith)

    cmd_getparm-Replies :
        (n : Node) (payload : List ℕ)
        → CanSend n
        → let (pld, len) = cfg_get n.cfg 12 (getparm_buffer (get_or (pkt_payload n) 0 0)) in
          sent_len len ≤ 12
          → take (sent_len len) pld ≡ payload
          → Replies n (node_id n) cmd_getparm_code payload (cmd_getparm crc8 ee env n)
    unfolding cmd_getparm
    cmd_getparm-Replies n payload c h e =
        let (pld, len) = cfg_get n.cfg 12 (getparm_buffer (get_or (pkt_payload n) 0 0)) in
        subst (λ p. Replies n (node_id n) cmd_getparm_code p (cmd_getparm crc8 ee env n)) e
          (send_reply-Replies n (node_id n) cmd_getparm_code pld (sent_len len) c h
            (omega (arith, (length-cfg_get n (get_or (pkt_payload n) 0 0)).0)))

    -- The payload of a `cmd_getparm` reply: the id and the value, or the id alone for a bad one.
    pub cmd_getparm_lem :
        (n : Node)
        → CanSend n
        → let id = get_or (pkt_payload n) 0 0 in
          (IsParm id
            → Replies n
                (node_id n)
                cmd_getparm_code
                (id ∷ parm_bytes id n.cfg.parms)
                (cmd_getparm crc8 ee env n))
          × ((IsParm id → ⊥)
              → Replies n (node_id n) cmd_getparm_code (id ∷ []) (cmd_getparm crc8 ee env n))
    cmd_getparm_lem n c =
        let id = get_or (pkt_payload n) 0 0 in
        let buf = getparm_buffer id in
        let (good, bad) = cfg_get_lem n.cfg 12 buf (omega arith) (omega arith) in
        (
          λ p.
              let few = parm_bounds id p in
              let got = good p (omega arith) in
              let e : sent_len (cfg_get n.cfg 12 buf).1 ≡ (cfg_get n.cfg 12 buf).1 =
                ground (arith, got) in
              cmd_getparm-Replies n _ c (ground (arith, got, few))
                (ap (λ k. take k (cfg_get n.cfg 12 buf).0) e ∙ got.1),
          λ no.
              let none_got = bad (λ q. no q.0) in
              cmd_getparm-Replies n _ c (ground (arith, none_got))
                (rw (none_got.0, none_got.1) refl),
        )

    -- A parameter that SETPARM has accepted is what GETPARM then answers: the reply to a later
    -- packet for the same id has the id and the value that was set.
    pub cmd_setparm-cmd_getparm :
        (n k : Node)
        → length n.cfg.parms ≡ 26
        → CanSend k
        → (cfg_set crc8 ee n.cfg (pkt_len n) (pkt_payload n)).1 ≡ true
        → k.cfg ≡ (cmd_setparm crc8 ee env n).0.cfg
        → get_or (pkt_payload k) 0 0 ≡ get_or (pkt_payload n) 0 0
        → let id = get_or (pkt_payload n) 0 0 in
          Replies k
            (node_id k)
            cmd_getparm_code
            (id ∷ value_bytes id (pkt_payload n))
            (cmd_getparm crc8 ee env k)
    unfolding cmd_setparm
    cmd_setparm-cmd_getparm n k h c ok e same =
        let id = get_or (pkt_payload n) 0 0 in
        let d = (cfg_set crc8 ee n.cfg (pkt_len n) (pkt_payload n)).0 in
        let p = ((cfg_set_accepts crc8 ee n.cfg (pkt_len n) (pkt_payload n)).0.0 ok).0 in
        let value = (cfg_set_value crc8 ee n.cfg d (pkt_len n) (pkt_payload n) h ok refl).0 in
        let bytes : parm_bytes id k.cfg.parms ≡ value_bytes id (pkt_payload n) =
          ap (λ (x : Cfg). parm_bytes id x.parms) e ∙ value in
        let got = (cmd_getparm_lem k c).0 (subst IsParm (sym same) p) in
        subst (λ l. Replies k (node_id k) cmd_getparm_code l (cmd_getparm crc8 ee env k))
          (ap (λ i. i ∷ parm_bytes i k.cfg.parms) same ∙ ap (λ l. id ∷ l) bytes) got
