-- ===== src/Bus/Rest.antt =====
-- The nodes on one wire when a packet and its answer have reached them.
use bmsnode_firmware.Prelude.{
  ℕ, ◌≡◌, refl, sym, ap, ◌∙◌, ◌⊎◌, inl, inr, true, false, List, [], map, arith, ◌==◌, Bool-cases,
  All,
}
use mathlib.Core.Path.{subst}
use mathlib.Core.List.{Memᴰ}
use bmsnode_firmware.Ser.{Ser, buf_cnt}
use bmsnode_firmware.Ser.Duplex.{drained}
use bmsnode_firmware.Pkt.Frame.{Packet, wire}
use bmsnode_firmware.Cfg.{Cfg, Eeprom}
use bmsnode_firmware.Node.{Node}
use bmsnode_firmware.Cmd.Reply.{reply_packet}
use bmsnode_firmware.Bus.{Station, hearing, said, respond, turn}
use bmsnode_firmware.Bus.Members.{
  Apart, Differ, Pairwise, Silent, all_at, members, pair_cases, All-map, both_differ, keeps-Differ,
}
use bmsnode_firmware.Bus.Take.{IsIdle, IsWhole, wants}
use bmsnode_firmware.Bus.Hear.{Reply, hear-Heard, hear-nothing}
use bmsnode_firmware.Bus.Voice.{wants_one, other_unwanted, after, heard, answer_loud, voices}

flip : (c d : Cfg) → Apart c d → Apart d c
flip c d (number, address) = (λ e. number (sym e), λ e. address (sym e))

module _ (crc8 : ℕ → ℕ → ℕ) (ee : Eeprom) (p : Packet) (whole : IsWhole p) where
  abbrev asking : Station → Station
  asking = after crc8 ee p whole

  -- What the bytes on the wire are to a node that has heard the packet: nothing, or a packet that
  -- asks it for nothing unless it has queued something itself.
  abbrev Unasked : List ℕ → Node → Type 0
  Unasked r m =
      (r ≡ [])
      ⊎ ((q : Packet) × IsWhole q × (r ≡ wire crc8 q) × (buf_cnt m.ser ≡ 0 → wants m.cfg q ≡ false))

  abbrev Rests : Station → Station → Type 0
  Rests t u = IsIdle u.node × (u.node.cfg ≡ t.node.cfg)

  hear-Rests :
      (r : List ℕ) (t : Station) → IsIdle t.node → Unasked r t.node → Rests t (hearing crc8 ee r t)
  hear-Rests r t idle (inl e) = rw e (hear-nothing crc8 ee t.env t.node idle)
  hear-Rests r t idle (inr (q, w, e, u)) =
      let h = hear-Heard crc8 ee t.env q t.node w idle in
      let (ser, cfg) = h.foreign (u idle.silent) in
      rw e (
        record {
          waits = h.waits;
          blank = h.blank;
          link = h.link;
          silent = ap buf_cnt ser ∙ idle.silent;
          receiving = ap (λ (x : Ser). x.rxen) ser ∙ idle.receiving;
        },
        cfg,
      )

  respond-Rests :
      (r : List ℕ) (s : Station)
      → IsIdle s.node
      → Unasked r (asking s).node
      → Rests (asking s) (respond crc8 ee r (asking s))
  respond-Rests r s idle u =
      let h = heard crc8 ee p whole s idle in
      let t = asking s in
      elim (Bool-cases (buf_cnt t.node.ser == 0)) [
        | inl quiet ↦
            let rest : IsIdle t.node = record {
              waits = h.waits;
              blank = h.blank;
              link = h.link;
              silent = ground arith;
              receiving = elim h.answer [
                | inl same ↦ ap (λ (x : Ser). x.rxen) same ∙ idle.receiving
                | inr r ↦ absurd (answer_loud crc8 ee p whole s.node.cfg t.node r (ground arith))
              ];
            } in
            rw quiet (hear-Rests r t rest u)
        | inr loud ↦
            let (ring, step, none_left, on) = drained t.node.ser h.link.ring h.link.step in
            rw loud (
              record {
                waits = h.waits;
                blank = h.blank;
                link = record { packet = h.link.packet; ring = ring; step = step };
                silent = none_left;
                receiving = on;
              },
              refl,
            )
      ]

  -- A node other than the speaker.
  not_speaker :
      (s t : Station) (r : Reply crc8 s.node.cfg (asking s).node)
      → IsIdle t.node
      → wants s.node.cfg p ≡ true
      → Differ s t
      → Differ (asking s) (asking t)
      → wants (asking t).node.cfg (reply_packet r.addr r.cmd r.payload) ≡ false
  not_speaker s t r idle mine d d' =
      let other = wants_one p s.node.cfg t.node.cfg d mine in
      let kept = ((heard crc8 ee p whole t idle).foreign other).1 in
      other_unwanted crc8 ee s.node.cfg (asking t).node.cfg (asking s).node r
        (subst (Apart s.node.cfg) (sym kept) d) d'

  unasked :
      (ss : List Station)
      → All (λ s. IsIdle s.node) ss
      → Pairwise Differ ss
      → Pairwise Differ (map asking ss)
      → (t : Station) → Memᴰ t ss
      → Unasked (said (map asking ss)) (asking t).node
  unasked ss idle d d' t m = elim (voices crc8 ee p whole ss idle d) [
    | inl e ↦ inl e
    | inr v ↦ inr (
      reply_packet v.reply.addr v.reply.cmd v.reply.payload,
      v.reply.whole,
      v.bytes ∙ v.reply.bytes,
      λ silent.
          let before = all_at (λ s. IsIdle s.node) ss idle m in
          elim (pair_cases (λ s t. Differ s t × Differ (asking s) (asking t)) ss
            (both_differ asking ss d d') v.member m) [
              | inl same ↦ absurd (
                  answer_loud crc8 ee p whole v.speaker.node.cfg (asking v.speaker).node v.reply
                    (subst (λ s. Silent (asking s)) (sym same) silent))
              | inr (inl (a, b)) ↦ not_speaker v.speaker t v.reply before v.asked a b
              | inr (inr (a, b)) ↦
                  not_speaker v.speaker t v.reply before v.asked
                    (flip t.node.cfg v.speaker.node.cfg a)
                    (flip (asking t).node.cfg (asking v.speaker).node.cfg b)
            ],
    )
  ]

  pub turn_rests :
      (ss : List Station)
      → All (λ s. IsIdle s.node) ss
      → Pairwise Differ ss
      → Pairwise Differ (map asking ss)
      → All (λ s. IsIdle s.node) (turn crc8 ee (wire crc8 p) ss)
        × Pairwise Differ (turn crc8 ee (wire crc8 p) ss)
  turn_rests ss idle d d' =
      let reply = respond crc8 ee (said (map asking ss)) in
      let rests = λ (t : Station) (m : Memᴰ t ss).
        respond-Rests (said (map asking ss)) t (all_at (λ s. IsIdle s.node) ss idle m)
          (unasked ss idle d d' t m) in
      (
        All-map (λ s. IsIdle s.node) reply (map asking ss)
            (All-map (λ s. IsIdle (reply s).node) asking ss
              (members (λ s. IsIdle (reply (asking s)).node) ss (λ t m. (rests t m).0))),
        keeps-Differ reply (map asking ss)
            (All-map (λ s. (reply s).node.cfg ≡ s.node.cfg) asking ss
              (members (λ s. (reply (asking s)).node.cfg ≡ (asking s).node.cfg) ss
                (λ t m. (rests t m).1)))
            d',
      )
