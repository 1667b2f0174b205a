-- ===== src/Pkt/Bounds.antt =====
-- The receive state machine of src/pkt.c writes inside its 16 byte buffer, and keeps the crc of
-- what it has stored.
use bmsnode_firmware.Prelude.{
  ℕ, suc, ◌+◌, ◌≤◌, ◌<◌, ◌≡◌, refl, ◌⊎◌, inl, inr, List, [], ◌∷◌, arith, length, get_or, set, take,
  length-set, get_or-set_self, get_or-set_ne, take-set,
}
use bmsnode_firmware.Crc.{crc_from, crc_from-append}
use bmsnode_firmware.Pkt.{
  Pkt, RxState, rx_search, rx_sync, rx_header, rx_data, rx_check, rxbuf_ptr, dispatch, pkt_parser,
}

module _ (crc8 : ℕ → ℕ → ℕ) where
  -- The crc of the first `n` bytes.
  abbrev pub crc_of : ℕ → List ℕ → ℕ
  crc_of n buf = crc_from crc8 0 (take n buf)

  -- What the parser has stored: the buffer is the one it allocated, its crc is that of the bytes
  -- before `idx`, and the length field is at most 12 and says how many bytes are still to come.
  pub record IsValid (s : Pkt) : Type 0 where
    pub size : length s.rxbuf ≡ 16
    pub header :
        s.state ≡ rx_header → (s.pbuf ≡ rxbuf_ptr) × (s.idx < 4) × (s.crc ≡ crc_of s.idx s.rxbuf)
    pub payload :
        s.state ≡ rx_data
        → (s.pbuf ≡ rxbuf_ptr)
          × (4 ≤ s.idx)
          × (0 < s.len)
          × (s.idx + s.len ≡ 4 + get_or s.rxbuf 3 0)
          × (get_or s.rxbuf 3 0 ≤ 12)
          × (s.crc ≡ crc_of s.idx s.rxbuf)
    pub check :
        s.state ≡ rx_check
        → (s.pbuf ≡ rxbuf_ptr)
          × (s.idx ≡ 4 + get_or s.rxbuf 3 0)
          × (get_or s.rxbuf 3 0 ≤ 12)
          × (s.crc ≡ crc_of s.idx s.rxbuf)

  pub crc_of-set :
      (buf : List ℕ) (i b : ℕ)
      → i < length buf
      → crc_of (i + 1) (set buf i b) ≡ crc8 (crc_of i buf) b
  unfolding crc_from
  crc_of-set buf i b h =
      let e : i + 1 ≡ suc i = omega arith in
      rw (e, take-set buf i b h, crc_from-append crc8 (take i buf) (b ∷ []) 0)

  pub crc_of_zero : (buf : List ℕ) → crc_of 0 buf ≡ 0
  unfolding crc_from
  crc_of_zero buf = refl

  dispatch-IsValid :
      (st : RxState) (s : Pkt) (b : ℕ) → s.state ≡ st → IsValid s → IsValid (dispatch crc8 st s b)
  unfolding dispatch
  dispatch-IsValid rx_search s b e v = ground arith
  dispatch-IsValid rx_sync s b e v = ground (arith, crc_of_zero s.rxbuf)
  dispatch-IsValid rx_header s b e v = ground (
    arith,
    v.header e,
    crc_of-set s.rxbuf s.idx b,
    length-set s.rxbuf s.idx b,
    get_or-set_self s.rxbuf s.idx b 0,
  )
  dispatch-IsValid rx_data s b e v = ground (
    arith,
    v.payload e,
    crc_of-set s.rxbuf s.idx b,
    length-set s.rxbuf s.idx b,
    get_or-set_ne s.rxbuf s.idx 3 b 0,
  )
  dispatch-IsValid rx_check s b e v = ground arith

  -- Every byte keeps the parser well formed.
  pub pkt_parser-IsValid : (s : Pkt) (b : ℕ) → IsValid s → IsValid (pkt_parser crc8 s b)
  unfolding pkt_parser
  pkt_parser-IsValid s b v = dispatch-IsValid s.state s b refl v

  -- Where the parser stores a byte it stores it into the receive buffer, inside its 16 bytes.
  pub stores_in_bounds :
      (s : Pkt)
      → IsValid s
      → (s.state ≡ rx_header) ⊎ (s.state ≡ rx_data)
      → (s.pbuf ≡ rxbuf_ptr) × (s.idx < length s.rxbuf)
  stores_in_bounds s v (inl e) = ground (arith, v.header e, v.size)
  stores_in_bounds s v (inr e) = ground (arith, v.payload e, v.size)
