-- ===== src/Pkt/Steps.antt =====
-- The receive state machine of src/pkt.c one byte and one field of the packet at a time.
use bmsnode_firmware.Prelude.{
  ℕ, zero, suc, ◌+◌, ◌≤◌, ◌<◌, ◌≡◌, refl, ap, ◌∙◌, true, false, List, [], ◌∷◌, ◌++◌, append-nil,
  append_assoc, arith, ltb, ◌==◌, if◌then◌else◌, u8, length, get_or, take, replicate, length-append,
  length-set, get_or-set_self, take-set,
}
use bmsnode_firmware.Crc.{crc_from, crc_from-append}
use bmsnode_firmware.Pkt.{
  Pkt, RxState, rx_search, rx_sync, rx_header, rx_data, rx_check, PktPtr, rxbuf_ptr, preamble, sync,
  in_search_or_sync, dispatch, take_byte, end_header, pkt_parser, parse_all, pkt_rx_alloc,
  pkt_rx_free,
}
use bmsnode_firmware.Pkt.Frame.{Packet, body, opened}

module _ (crc8 : ℕ → ℕ → ℕ) where
  pub parse_all-append :
      (xs ys : List ℕ) (s : Pkt)
      → parse_all crc8 s (xs ++ ys) ≡ parse_all crc8 (parse_all crc8 s xs) ys
  unfolding parse_all
  parse_all-append [] ys s = refl
  parse_all-append (x ∷ xs) ys s = parse_all-append xs ys (pkt_parser crc8 s x)

  -- The state after `stored` has been read into the buffer; `r` is what was ready before.
  pub record HasStored (st : RxState) (stored : List ℕ) (r : PktPtr) (s : Pkt) : Type 0 where
    pub state : s.state ≡ st
    pub size : length s.rxbuf ≡ 16
    pub pbuf : s.pbuf ≡ rxbuf_ptr
    pub inuse : s.rxbuf_inuse ≡ true
    pub idx : s.idx ≡ length stored
    pub crc : s.crc ≡ crc_from crc8 0 stored
    pub bytes : take (length stored) s.rxbuf ≡ stored
    pub ready : s.ready_packet ≡ r

  take_byte-HasStored :
      {st : RxState} {r : PktPtr} {s : Pkt} (stored : List ℕ) (b : ℕ)
      → HasStored st stored r s
      → length stored < 16
      → HasStored st (stored ++ b ∷ []) r (take_byte crc8 s b)
  unfolding crc_from
  take_byte-HasStored {s} stored b h lt =
      let n = length stored in
      let e : length (stored ++ b ∷ []) ≡ suc n = omega (arith, length-append stored (b ∷ [])) in
      record {
        state = h.state;
        size = ground (arith, h, length-set s.rxbuf n b);
        pbuf = h.pbuf;
        inuse = h.inuse;
        idx = omega (arith, e, h.idx);
        crc = rw (crc_from-append crc8 stored (b ∷ []) 0, h.crc);
        bytes = rw (e, h.pbuf, h.idx, take-set s.rxbuf n b (omega (arith, h.size)), h.bytes);
        ready = h.ready;
      }

  parser_at :
      {st : RxState} (s : Pkt) (b : ℕ) → s.state ≡ st → pkt_parser crc8 s b ≡ dispatch crc8 st s b
  unfolding pkt_parser
  parser_at s b e = ap (λ st. dispatch crc8 st s b) e

  header_step :
      {r : PktPtr} {s : Pkt} (stored : List ℕ) (b : ℕ)
      → HasStored rx_header stored r s
      → length stored < 3
      → HasStored rx_header (stored ++ b ∷ []) r (pkt_parser crc8 s b)
  unfolding dispatch
  header_step {s} stored b h lt =
      let no : (u8 (s.idx + 1) == 4) ≡ false = ground (arith, h.idx) in
      rw (parser_at s b h.state, no) (take_byte-HasStored stored b h (omega arith))

  -- The length byte, with the three that came before it.
  length_step :
      {r : PktPtr} {s : Pkt} (stored : List ℕ) (n : ℕ)
      → HasStored rx_header stored r s
      → length stored ≡ 3
      → pkt_parser crc8 s n ≡ end_header crc8 (take_byte crc8 s n)
        × (get_or (take_byte crc8 s n).rxbuf 3 0 ≡ n)
  unfolding dispatch
  length_step {s} stored n h e =
      let four : (u8 (s.idx + 1) == 4) ≡ true = ground (arith, h.idx) in
      let at : s.idx ≡ 3 = omega (arith, h.idx) in
      (
        rw (parser_at s n h.state, four),
        rw (h.pbuf, at, get_or-set_self s.rxbuf 3 n 0 (omega (arith, h.size))),
      )

  relabel :
      {st : RxState} {stored : List ℕ} {r : PktPtr} {s : Pkt} (st' : RxState) (n : ℕ)
      → HasStored st stored r s
      → HasStored st' stored r (record s { state = st'; len = n })
  relabel st' n h = record {
    state = refl;
    size = h.size;
    pbuf = h.pbuf;
    inuse = h.inuse;
    idx = h.idx;
    crc = h.crc;
    bytes = h.bytes;
    ready = h.ready;
  }

  relen :
      {st : RxState} {stored : List ℕ} {r : PktPtr} {s : Pkt} (n : ℕ)
      → HasStored st stored r s
      → HasStored st stored r (record s { len = n })
  relen n h = record {
    state = h.state;
    size = h.size;
    pbuf = h.pbuf;
    inuse = h.inuse;
    idx = h.idx;
    crc = h.crc;
    bytes = h.bytes;
    ready = h.ready;
  }

  suc_ne : (n : ℕ) → (suc n == 0) ≡ false
  suc_ne n = ground arith

  abbrev pub after_length : ℕ → RxState
  after_length zero = rx_check
  after_length (suc n) = rx_data

  pub length_ok :
      {r : PktPtr} {s : Pkt} (stored : List ℕ) (n : ℕ)
      → HasStored rx_header stored r s
      → length stored ≡ 3
      → n ≤ 12
      → HasStored (after_length n) (stored ++ n ∷ []) r (pkt_parser crc8 s n)
        × ((pkt_parser crc8 s n).len ≡ n)
  unfolding end_header
  length_ok stored zero h e le =
      let (step, len) = length_step stored 0 h e in
      rw (step, len) (relabel rx_check 0 (take_byte-HasStored stored 0 h (omega arith)), refl)
  length_ok stored (suc n) h e le =
      let (step, len) = length_step stored (suc n) h e in
      let fits : ltb 12 (suc n) ≡ false = ground arith in
      rw (step, len, fits, suc_ne n)
        (relabel rx_data (suc n) (take_byte-HasStored stored (suc n) h (omega arith)), refl)

  pub length_too_big :
      {r : PktPtr} {s : Pkt} (stored : List ℕ) (n : ℕ)
      → HasStored rx_header stored r s
      → length stored ≡ 3
      → 12 < n
      → let t = pkt_parser crc8 s n in
        (t.state ≡ rx_search) × (t.rxbuf_inuse ≡ false) × (t.ready_packet ≡ r)
  unfolding end_header
  length_too_big {s} stored n h e le =
      let (step, len) = length_step stored n h e in
      let big : ltb 12 n ≡ true = ground arith in
      let pos : (n == 0) ≡ false = ground arith in rw (step, len, big, pos) (refl, refl, h.ready)

  data_step :
      {r : PktPtr} {s : Pkt} (stored : List ℕ) (b n : ℕ)
      → HasStored rx_data stored r s
      → length stored < 16
      → s.len ≡ suc n
      → n < 12
      → HasStored (after_length n) (stored ++ b ∷ []) r (pkt_parser crc8 s b)
        × ((pkt_parser crc8 s b).len ≡ n)
  unfolding dispatch
  data_step {s} stored b zero h lt e le =
      let last : u8 (s.len + 255) ≡ 0 = omega arith in
      rw (parser_at s b h.state, last)
        (relabel rx_check 0 (take_byte-HasStored stored b h lt), refl)
  data_step {s} stored b (suc n) h lt e le =
      let more : u8 (s.len + 255) ≡ suc n = omega arith in
      rw (parser_at s b h.state, more, suc_ne n)
        (relen (suc n) (take_byte-HasStored stored b h lt), refl)

  -- The payload bytes, all of them.
  pub data_loop :
      {r : PktPtr} (bs stored : List ℕ) (s : Pkt)
      → HasStored (after_length (length bs)) stored r s
      → s.len ≡ length bs
      → length bs ≤ 12
      → length stored + length bs ≤ 16
      → HasStored rx_check (stored ++ bs) r (parse_all crc8 s bs)
  unfolding parse_all
  data_loop [] stored s h e le fit = rw append-nil h
  data_loop (b ∷ bs) stored s h e le fit =
      let step = data_step stored b (length bs) h (omega arith) e (omega arith) in
      let grown = length-append stored (b ∷ []) in
      rw (← append_assoc stored (b ∷ []) bs) (
        data_loop bs (stored ++ b ∷ []) (pkt_parser crc8 s b) step.0 step.1 (omega arith)
          (omega (arith, grown)))

  pub check_step :
      {r : PktPtr} {s : Pkt} (stored : List ℕ) (c : ℕ)
      → HasStored rx_check stored r s
      → let t = pkt_parser crc8 s c in
        let good = c == crc_from crc8 0 stored in
        (t.state ≡ rx_search)
        × (take (length stored) t.rxbuf ≡ stored)
        × (t.ready_packet ≡ (if good then rxbuf_ptr else r))
        × (t.rxbuf_inuse ≡ good)
  unfolding dispatch pkt_rx_free
  check_step {s} stored c h = rw (parser_at s c h.state) (ground (arith, h))

  -- The state in which the header is read.
  abbrev pub opened_state : Pkt → Pkt
  opened_state s = record s {
    state = rx_header;
    rxbuf_inuse = true;
    pbuf = rxbuf_ptr;
    idx = 0;
    crc = 0;
  }

  sync_step :
      (s : Pkt)
      → s.state ≡ rx_sync
      → s.rxbuf_inuse ≡ false
      → pkt_parser crc8 s sync ≡ opened_state s
  unfolding dispatch pkt_rx_alloc
  sync_step s e u = rw (parser_at s sync e) (ground arith)

  preamble_step :
      (s : Pkt)
      → in_search_or_sync s.state ≡ true
      → pkt_parser crc8 s preamble ≡ record s { state = rx_sync }
  unfolding pkt_parser dispatch
  preamble_step s e = ground arith

  preambles :
      (k : ℕ) (rest : List ℕ) (s : Pkt)
      → s.state ≡ rx_sync
      → s.rxbuf_inuse ≡ false
      → parse_all crc8 s (replicate k preamble ++ sync ∷ rest)
        ≡ parse_all crc8 (opened_state s) rest
  unfolding parse_all
  preambles zero rest s e u = ap (λ t. parse_all crc8 t rest) (sync_step s e u)
  preambles (suc k) rest s e u =
      ap (λ t. parse_all crc8 t (replicate k preamble ++ sync ∷ rest))
        (preamble_step s (ground arith))
      ∙ preambles k rest (record s { state = rx_sync }) refl u

  -- Preambles and the sync byte, from a state that waits for a packet.
  pub opening :
      (k : ℕ) (rest : List ℕ) (s : Pkt)
      → in_search_or_sync s.state ≡ true
      → s.rxbuf_inuse ≡ false
      → parse_all crc8 s (opened k rest) ≡ parse_all crc8 (opened_state s) rest
  unfolding parse_all
  opening k rest s e u =
      ap (λ t. parse_all crc8 t (replicate k preamble ++ sync ∷ rest)) (preamble_step s e)
      ∙ preambles k rest (record s { state = rx_sync }) refl u

  opened-HasStored :
      (s : Pkt) → length s.rxbuf ≡ 16 → HasStored rx_header [] s.ready_packet (opened_state s)
  unfolding crc_from
  opened-HasStored s v = ground arith

  -- The three header bytes before the length.
  pub header_3 :
      (s : Pkt) (a b c : ℕ)
      → length s.rxbuf ≡ 16
      → HasStored rx_header
          (a ∷ b ∷ c ∷ [])
          s.ready_packet
          (parse_all crc8 (opened_state s) (a ∷ b ∷ c ∷ []))
  unfolding parse_all
  header_3 s a b c v =
      header_step (a ∷ b ∷ []) c
        (header_step (a ∷ []) b (header_step [] a (opened-HasStored s v) (omega arith))
          (omega arith))
        (omega arith)

  abbrev pub at_length : Pkt → Packet → Pkt
  at_length s p = parse_all crc8 (opened_state s) (p.flags ∷ p.addr ∷ p.cmd ∷ [])

  pub phases :
      (s : Pkt) (p : Packet) (c : ℕ)
      → parse_all crc8 (opened_state s) (body p ++ c ∷ [])
        ≡ pkt_parser crc8
            (parse_all crc8 (pkt_parser crc8 (at_length s p) (length p.payload)) p.payload)
            c
  unfolding parse_all
  phases s p c =
      parse_all-append p.payload (c ∷ []) (pkt_parser crc8 (at_length s p) (length p.payload))
