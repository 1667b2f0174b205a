-- ===== src/Ser.antt =====
-- The serial transmit side of src/ser.c: a ring of 32 bytes that holds at most 31, and the
-- transmit and receive switches of the one-wire USART. The receive interrupt, which hands the byte
-- to the packet parser, is in Node.antt.
pub mod Queue
pub mod Duplex
pub mod Interleave
use bmsnode_firmware.Prelude.{
  ℕ, zero, suc, ◌+◌, ◌-◌, ◌%◌, Bool, true, false, not, ◌||◌, Option, none, some, List, ltb, ◌==◌,
  if◌then◌else◌, u8, get_or, set,
}

-- The statics of ser.c, and the bits of USART0 that it switches: DREIE, TXCIE and RXCIE of CTRLA,
-- RXEN and TXEN of CTRLB.
pub record Ser : Type 0 where
  pub headp : ℕ
  pub tailp : ℕ
  pub txbuf : List ℕ
  pub dreie : Bool
  pub txcie : Bool
  pub rxcie : Bool
  pub rxen : Bool
  pub txen : Bool

-- `(headp - tailp) & 0x1F`
abbrev pub buf_cnt : Ser → ℕ
buf_cnt s = (s.headp + 256 - s.tailp) % 32

abbrev pub buf_notempty : Ser → Bool
buf_notempty s = not (s.headp == s.tailp)

abbrev pub buf_notfull : Ser → Bool
buf_notfull s = ltb (buf_cnt s) 31

abbrev pub rxint_enable : Ser → Ser
rxint_enable s = record s { rxcie = true }

abbrev pub rxint_disable : Ser → Ser
rxint_disable s = record s { rxcie = false }

-- `rxcif` is the receive flag of USART0.STATUS.
unfoldable pub ser_is_active : Bool → Ser → Bool
ser_is_active rxcif s = buf_notempty s || s.dreie || s.txcie || rxcif

-- `txbuf[headp++] = byte; headp &= 0x1F;`
abbrev pub put_byte : Ser → ℕ → Ser
put_byte s byte = record s { txbuf = set s.txbuf s.headp byte; headp = u8 (s.headp + 1) % 32 }

-- The loop of `ser_write`; the first argument is `len`.
pub write_loop : ℕ → List ℕ → ℕ → Ser → Ser × ℕ
write_loop zero buf cnt s = (s, cnt)
write_loop (suc len) buf cnt s =
    let more = write_loop len buf (u8 (cnt + 1)) (put_byte s (get_or buf cnt 0)) in
    if buf_notfull s then more else (s, cnt)

-- Switches the wire to transmit and enables both transmit interrupts.
abbrev pub start_tx : Ser → Ser
start_tx s = record s { rxen = false; txen = true; dreie = true; txcie = true }

-- The count of bytes taken is the result.
unfoldable pub ser_write : Ser → List ℕ → ℕ → Ser × ℕ
unfolding write_loop
ser_write s buf len =
    let (s', cnt) = write_loop len buf 0 (rxint_disable s) in (rxint_enable (start_tx s'), cnt)

-- The critical section ends by enabling the receive interrupt.
unfoldable pub ser_flush : Ser → Ser
ser_flush s =
    rxint_enable (record (rxint_disable s) { dreie = false; txcie = false; headp = 0; tailp = 0 })

-- `dreif` is the data register flag of USART0.STATUS; the result has the byte that is sent.
unfoldable pub dre_isr : Bool → Ser → Ser × Option ℕ
dre_isr dreif s =
    if buf_notempty s
    then if dreif
      then (record s { tailp = u8 (s.tailp + 1) % 32 }, some (get_or s.txbuf s.tailp 0))
      else (s, none)
    else (record s { dreie = false }, none)

unfoldable pub txc_isr : Ser → Ser
txc_isr s =
    if buf_notempty s
    then record s { dreie = true; txcie = true }
    else record s { txcie = false; txen = false; rxen = true }
