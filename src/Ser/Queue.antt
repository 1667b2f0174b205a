-- ===== src/Ser/Queue.antt =====
-- The transmit ring is a queue of at most 31 bytes: what `ser_write` puts in and what the data
-- register interrupt takes out.
use bmsnode_firmware.Prelude.{
  ℕ, zero, suc, ◌+◌, ◌-◌, ◌%◌, ◌≤◌, ◌<◌, ◌≡◌, refl, ap, ap₂, ◌∙◌, ◌≢◌, ◌↔◌, ◌⊎◌, inl, inr, Bool,
  false, Option, none, some, List, [], ◌∷◌, ◌++◌, append-nil, append_assoc, arith, Bool-cases,
  ltb→lt, u8, length, get_or, set, take, drop, length-set, get_or-set_self, get_or-set_ne, drop_at,
}
use Prim.Native.Nat.{min}
use bmsnode_firmware.Ser.{
  Ser, buf_cnt, buf_notfull, rxint_disable, put_byte, write_loop, ser_write, dre_isr,
}

pub record IsValid (s : Ser) : Type 0 where
  pub size : length s.txbuf ≡ 32
  pub head_in : s.headp < 32
  pub tail_in : s.tailp < 32

module _ (buf : List ℕ) where
  -- The `n` bytes from index `t` on, round the ring.
  abbrev pub window : ℕ → ℕ → List ℕ
  window t zero = []
  window t (suc n) = get_or buf t 0 ∷ window ((t + 1) % 32) n

-- The bytes waiting to be sent, oldest first.
abbrev pub contents : Ser → List ℕ
contents s = window s.txbuf s.tailp (buf_cnt s)

length-window : (buf : List ℕ) (t n : ℕ) → length (window buf t n) ≡ n
length-window buf t zero = refl
length-window buf t (suc n) = ap suc (length-window buf ((t + 1) % 32) n)

-- The queue never holds more than 31 bytes.
pub length-contents : (s : Ser) → length (contents s) ≡ buf_cnt s
length-contents s = length-window s.txbuf s.tailp (buf_cnt s)

-- Writing just behind a window extends it.
window-set :
    (buf : List ℕ) (x n t i : ℕ)
    → length buf ≡ 32
    → t < 32
    → n < 31
    → i ≡ (t + n) % 32
    → window (set buf i x) t (suc n) ≡ window buf t n ++ x ∷ []
window-set buf x zero t i hs ht hn e =
    let e' : i ≡ t = omega arith in rw (e', get_or-set_self buf t x 0 (omega arith))
window-set buf x (suc n) t i hs ht hn e =
    ap₂ ◌∷◌ (get_or-set_ne buf i t x 0 (omega arith))
      (window-set buf x n ((t + 1) % 32) i hs (omega arith) (omega arith) (omega arith))

module _ {s : Ser} (v : IsValid s) (byte : ℕ) (room : buf_cnt s < 31) where
  pub put_byte-IsValid : IsValid (put_byte s byte)
  put_byte-IsValid = ground (arith, length-set s.txbuf s.headp byte)

  buf_cnt-put_byte : buf_cnt (put_byte s byte) ≡ suc (buf_cnt s)
  buf_cnt-put_byte = omega arith

  pub contents-put_byte : contents (put_byte s byte) ≡ contents s ++ byte ∷ []
  contents-put_byte =
      rw buf_cnt-put_byte
        (window-set s.txbuf byte (buf_cnt s) s.tailp s.headp v.size v.tail_in room (omega arith))

-- What the loop leaves: `cnt` counts what went in, and the bytes from `start` on are appended.
record Wrote (s : Ser) (buf : List ℕ) (start len : ℕ) (out : Ser × ℕ) : Type 0 where
  valid : IsValid out.0
  count : out.1 ≡ start + min len (31 - buf_cnt s)
  bytes : contents out.0 ≡ contents s ++ take (min len (31 - buf_cnt s)) (drop start buf)

Wrote-put_byte :
    {s : Ser} (v : IsValid s) (buf : List ℕ) (start len : ℕ) (out : Ser × ℕ)
    → buf_cnt s < 31
    → start < length buf
    → Wrote (put_byte s (get_or buf start 0)) buf (start + 1) len out
    → Wrote s buf start (suc len) out
Wrote-put_byte {s} v buf start len out room h w = record {
  valid = w.valid;
  count = omega (arith, w.count, one_more);
  bytes = w.bytes ∙ grow;
}
  where
    byte : ℕ
    byte = get_or buf start 0

    n : ℕ
    n = min len (31 - buf_cnt (put_byte s byte))

    one_more : buf_cnt (put_byte s byte) ≡ suc (buf_cnt s)
    one_more = buf_cnt-put_byte v byte room

    e : min (suc len) (31 - buf_cnt s) ≡ suc n
    e = omega (arith, one_more)

    grow :
        contents (put_byte s byte) ++ take n (drop (start + 1) buf)
        ≡ contents s ++ take (min (suc len) (31 - buf_cnt s)) (drop start buf)
    grow =
        rw (contents-put_byte v byte room, e, drop_at buf start 0 h)
          (append_assoc (contents s) (byte ∷ []) (take n (drop (start + 1) buf)))

write_loop-Wrote :
    (len : ℕ) (buf : List ℕ) (start : ℕ) (s : Ser)
    → IsValid s
    → start + len ≤ length buf
    → start + len < 256
    → Wrote s buf start len (write_loop len buf start s)
unfolding write_loop
write_loop-Wrote zero buf start s v h w =
    let e : min 0 (31 - buf_cnt s) ≡ 0 = omega arith in
    record { valid = v; count = omega arith; bytes = rw (e, append-nil) }
write_loop-Wrote (suc len) buf start s v h w = elim (Bool-cases (buf_notfull s)) [
  | inr full ↦
      let e : min (suc len) (31 - buf_cnt s) ≡ 0 = ground arith in
      rw full (record { valid = v; count = omega (arith, e); bytes = rw (e, append-nil) })
  | inl free ↦
      let room : buf_cnt s < 31 = ltb→lt _ _ free in
      let next : u8 (start + 1) ≡ start + 1 = omega arith in
      rw (free, next)
        (Wrote-put_byte v buf start len _ room (omega arith) (
          write_loop-Wrote len buf (start + 1) (put_byte s (get_or buf start 0))
            (put_byte-IsValid v (get_or buf start 0) room) (omega arith) (omega arith)))
]

write_loop-IsValid :
    (len : ℕ) (buf : List ℕ) (cnt : ℕ) (s : Ser) → IsValid s → IsValid (write_loop len buf cnt s).0
unfolding write_loop
write_loop-IsValid zero buf cnt s v = v
write_loop-IsValid (suc len) buf cnt s v = elim (Bool-cases (buf_notfull s)) [
  | inr full ↦ rw full v
  | inl free ↦
      let byte = get_or buf cnt 0 in
      rw free (
        write_loop-IsValid len buf (u8 (cnt + 1)) (put_byte s byte)
          (put_byte-IsValid v byte (ltb→lt _ _ free)))
]

-- The ring stays well formed whatever is written.
pub ser_write-IsValid :
    (s : Ser) (buf : List ℕ) (len : ℕ) → IsValid s → IsValid (ser_write s buf len).0
unfolding ser_write
ser_write-IsValid s buf len v =
    let loop = write_loop-IsValid len buf 0 (rxint_disable s) (omega (arith, v)) in
    omega (arith, loop)

-- `ser_write` takes as many of the `len` bytes as fit into a ring of 31, in order and behind what
-- is waiting, returns their number, and keeps the ring well formed.
pub ser_write_lem :
    (s : Ser) (buf : List ℕ) (len : ℕ)
    → IsValid s
    → len ≤ length buf
    → len < 256
    → IsValid (ser_write s buf len).0
      × ((ser_write s buf len).1 ≡ min len (31 - buf_cnt s))
      × (contents (ser_write s buf len).0 ≡ contents s ++ take (min len (31 - buf_cnt s)) buf)
unfolding ser_write
ser_write_lem s buf len v h w =
    let loop =
      write_loop-Wrote len buf 0 (rxint_disable s) (omega (arith, v)) (omega arith) (omega arith) in
    (omega (arith, loop.valid), omega (arith, loop.count), loop.bytes)

abbrev pub sent : Option ℕ → List ℕ
sent none = []
sent (some b) = b ∷ []

window_of_ne_zero :
    (buf : List ℕ) (t n : ℕ)
    → n ≢ 0
    → window buf t n ≡ get_or buf t 0 ∷ window buf ((t + 1) % 32) (n - 1)
window_of_ne_zero buf t zero h = absurd (h refl)
window_of_ne_zero buf t (suc n) h = ap (λ k. window buf t (suc k)) (omega arith)

-- The data register interrupt sends the oldest byte and leaves the rest in the queue; with nothing
-- to send, or with the data register taken, it sends nothing and leaves the queue.
pub dre_isr_lem :
    (dreif : Bool) (s : Ser)
    → IsValid s
    → IsValid (dre_isr dreif s).0
      × (contents s ≡ sent (dre_isr dreif s).1 ++ contents (dre_isr dreif s).0)
      × (((dre_isr dreif s).1 ≡ none) ↔ ((dreif ≡ false) ⊎ (contents s ≡ [])))
unfolding dre_isr
dre_isr_lem dreif s v = ground (arith, window_of_ne_zero s.txbuf s.tailp (buf_cnt s))
