-- ===== src/Pkt/Owner.antt =====
-- The one receive buffer of src/pkt.c has one owner at a time: nobody, the parser while it collects
-- a packet, the slot of the packet that is ready, or the client that has picked it up.
use bmsnode_firmware.Prelude.{
  ℕ, ◌≡◌, refl, ◌≢◌, Bool, true, false, not, Option, none, some, List, [], ◌∷◌, arith,
}
use bmsnode_firmware.Pkt.{
  Pkt, RxState, rx_search, rx_sync, rx_header, rx_data, rx_check, is_null, in_search_or_sync,
  dispatch, pkt_parser, parse_all, pkt_reset, pkt_rx_free, pkt_ready,
}
use bmsnode_firmware.Pkt.Bounds.{IsValid, pkt_parser-IsValid}

-- The packet processor with its client, which holds the packet from `pkt_ready` to `pkt_rx_free`.
pub record System : Type 0 where
  pub pkt : Pkt
  pub held : Bool

abbrev pub collecting : Pkt → Bool
collecting s = not (in_search_or_sync s.state)

abbrev pub has_ready : Pkt → Bool
has_ready s = not (is_null s.ready_packet)

-- At most one owner, and the flag says whether there is one.
pub data Owner : Type 0 where
  nobody parser ready_slot client : Owner

abbrev pub owner_of : Bool → Bool → Bool → Option Owner
owner_of false false false = some nobody
owner_of true false false = some parser
owner_of false true false = some ready_slot
owner_of false false true = some client
owner_of _ _ _ = none

abbrev pub is_owned : Option Owner → Bool
is_owned (some nobody) = false
is_owned _ = true

abbrev pub owner : System → Option Owner
owner y = owner_of (collecting y.pkt) (has_ready y.pkt) y.held

module _ (crc8 : ℕ → ℕ → ℕ) where
  pub record IsOwned (y : System) : Type 0 where
    pub valid : IsValid crc8 y.pkt
    pub one_owner : owner y ≢ none
    pub flag : y.pkt.rxbuf_inuse ≡ is_owned (owner y)

  -- A byte arrives at any time; the client picks a packet up when it holds none, and frees the one
  -- that it holds; `cmd_process` resets the processor when it holds none.
  pub data Step : System → System → Type 0 where
    byte : (y : System) (b : ℕ) → Step y (record y { pkt = pkt_parser crc8 y.pkt b })
    pick_up :
        (y : System)
        → y.held ≡ false
        → Step y (record y { pkt = (pkt_ready y.pkt).0; held = not (is_null (pkt_ready y.pkt).1) })
    free :
        (y : System) → y.held ≡ true → Step y (record y { pkt = pkt_rx_free y.pkt; held = false })
    reset : (y : System) → y.held ≡ false → Step y (record y { pkt = pkt_reset y.pkt })

  pub data Reach (y : System) : System → Type 0 where
    here : Reach y y
    next : {t u : System} → Reach y t → Step t u → Reach y u

  dispatch-one_owner :
      (st : RxState) (y : System) (b : ℕ)
      → y.pkt.state ≡ st
      → IsOwned y
      → let z = record y { pkt = dispatch crc8 st y.pkt b } in
        (owner z ≢ none) × (z.pkt.rxbuf_inuse ≡ is_owned (owner z))
  unfolding dispatch
  dispatch-one_owner rx_search y b e o = ground (arith, o.flag)
  dispatch-one_owner rx_sync y b e o = ground (arith, o.flag)
  dispatch-one_owner rx_header y b e o = ground (arith, o.flag, o.valid.header e)
  dispatch-one_owner rx_data y b e o = ground (arith, o.flag, o.valid.payload e)
  dispatch-one_owner rx_check y b e o = ground (arith, o.flag, o.valid.check e)

  byte-IsOwned :
      (y : System) (b : ℕ) → IsOwned y → IsOwned (record y { pkt = pkt_parser crc8 y.pkt b })
  unfolding pkt_parser
  byte-IsOwned y b o =
      let step = dispatch-one_owner y.pkt.state y b refl o in
      record { valid = pkt_parser-IsValid crc8 y.pkt b o.valid; one_owner = step.0; flag = step.1 }

  Step-IsOwned : {y z : System} → Step y z → IsOwned y → IsOwned z
  unfolding pkt_ready pkt_rx_free pkt_reset
  Step-IsOwned (byte y b) o = byte-IsOwned y b o
  Step-IsOwned (pick_up y h) o = ground arith
  Step-IsOwned (free y h) o = ground arith
  Step-IsOwned (reset y h) o = ground arith

  -- Whatever bytes arrive and whenever the client picks up, frees or resets, the receive buffer
  -- has at most one owner, the flag is set exactly while it has one, and the parser stays within
  -- its buffer.
  pub Reach-IsOwned : {y z : System} → IsOwned y → Reach y z → IsOwned z
  Reach-IsOwned o here = o
  Reach-IsOwned o (next r st) = Step-IsOwned st (Reach-IsOwned o r)

  -- What an arriving byte leaves alone while a packet is ready or held.
  pub record IsKept (s t : Pkt) : Type 0 where
    pub buffer : t.rxbuf ≡ s.rxbuf
    pub ready : t.ready_packet ≡ s.ready_packet
    pub inuse : t.rxbuf_inuse ≡ s.rxbuf_inuse
    pub idle : in_search_or_sync t.state ≡ true

  pub pkt_parser-IsKept :
      (s : Pkt) (b : ℕ)
      → in_search_or_sync s.state ≡ true
      → s.rxbuf_inuse ≡ true
      → IsKept s (pkt_parser crc8 s b)
  unfolding pkt_parser dispatch
  pkt_parser-IsKept s b i u = ground arith

  -- A packet that is ready or held by the client is not touched by any bytes that arrive: the
  -- parser drops whole packets until the buffer is freed.
  pub parse_all-IsKept :
      (bs : List ℕ) (s : Pkt)
      → in_search_or_sync s.state ≡ true
      → s.rxbuf_inuse ≡ true
      → IsKept s (parse_all crc8 s bs)
  unfolding parse_all
  parse_all-IsKept [] s i u = ground arith
  parse_all-IsKept (b ∷ bs) s i u =
      let k = pkt_parser-IsKept s b i u in
      ground (arith, k, parse_all-IsKept bs (pkt_parser crc8 s b) k.idle)
