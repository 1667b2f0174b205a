-- ===== src/Ser/Interleave.antt =====
-- `ser_write` of src/ser.c masks the receive interrupt only: the data register interrupt may take
-- bytes out of the ring while the loop puts bytes in. The interrupts here fall before the loop's
-- test and between the test and the store of a byte; the store through `headp++` and the mask of
-- `headp` are taken as one assignment.
use bmsnode_firmware.Prelude.{
  ℕ, zero, suc, ◌+◌, ◌≤◌, ◌<◌, ◌≡◌, refl, sym, ap, ◌∙◌, ◌⊎◌, inl, inr, Bool, List, [], ◌∷◌, ◌++◌,
  append-nil, append_assoc, arith, if◌then◌else◌, Bool-cases, ltb→lt, u8, length, get_or, take,
  drop, length-append, drop_at,
}
use bmsnode_firmware.Ser.{
  ser_write, write_loop, Ser, buf_cnt, buf_notfull, put_byte, dre_isr, rxint_disable, rxint_enable,
  start_tx,
}
use bmsnode_firmware.Ser.Queue.{
  contents-put_byte, put_byte-IsValid, IsValid, contents, sent, length-contents, dre_isr_lem,
}

-- Data register interrupts, one after another, each with its flag, and the bytes that they send.
pub interrupts : List Bool → Ser → Ser × List ℕ
interrupts [] s = (s, [])
interrupts (dreif ∷ more) s =
    let (t, out) = dre_isr dreif s in let (u, rest) = interrupts more t in (u, sent out ++ rest)

-- `write_loop` with interrupts: `before cnt` come before the test and `between cnt` after it, when
-- `cnt` bytes are taken. The second result is what they send.
pub interrupted_loop : (before between : ℕ → List Bool) → ℕ → List ℕ → ℕ → Ser → (Ser × ℕ) × List ℕ
unfolding interrupts
interrupted_loop before between zero buf cnt s =
    let (t, out) = interrupts (before cnt) s in ((t, cnt), out)
interrupted_loop before between (suc len) buf cnt s =
    let (t, out) = interrupts (before cnt) s in
    let (u, more) = interrupts (between cnt) t in
    let (r, rest) =
      interrupted_loop before between len buf (u8 (cnt + 1)) (put_byte u (get_or buf cnt 0)) in
    if buf_notfull t then (r, out ++ more ++ rest) else ((t, cnt), out)

-- `ser_write` with interrupts.
unfoldable pub interrupted_write :
    (before between : ℕ → List Bool) → Ser → List ℕ → ℕ → (Ser × ℕ) × List ℕ
unfolding interrupted_loop
interrupted_write before between s buf len =
    let ((t, cnt), out) = interrupted_loop before between len buf 0 (rxint_disable s) in
    ((rxint_enable (start_tx t), cnt), out)

-- The interrupts have sent the oldest bytes and left the others.
record Sends (s t : Ser) (out : List ℕ) : Type 0 where
  valid : IsValid t
  bytes : contents s ≡ out ++ contents t

interrupts-Sends :
    (flags : List Bool) (s : Ser)
    → IsValid s
    → Sends s (interrupts flags s).0 (interrupts flags s).1
unfolding interrupts
interrupts-Sends [] s v = record { valid = v; bytes = refl }
interrupts-Sends (f ∷ fs) s v =
    let (valid, bytes, none_sent) = dre_isr_lem f s v in
    let ih = interrupts-Sends fs (dre_isr f s).0 valid in
    let first = sent (dre_isr f s).1 in
    record {
      valid = ih.valid;
      bytes = bytes ∙ ap (λ l. first ++ l) ih.bytes ∙ sym (append_assoc first _ _);
    }

Sends-le : {s t : Ser} {out : List ℕ} → Sends s t out → buf_cnt t ≤ buf_cnt s
Sends-le {s} {t} {out} h =
    let e = ap length h.bytes ∙ length-append out (contents t) in
    omega (arith, length-contents s, length-contents t, e)

-- From the loop with `len` bytes to go and `cnt` taken: the bytes that the interrupts have sent and
-- those in the ring, and why the loop has ended.
record Passed (buf : List ℕ) (len cnt : ℕ) (s : Ser) (r : (Ser × ℕ) × List ℕ) : Type 0 where
  valid : IsValid r.0.0
  taken : ℕ
  count : r.0.1 ≡ cnt + taken
  few : taken ≤ len
  ended : (taken ≡ len) ⊎ (buf_cnt r.0.0 ≡ 31)
  bytes : r.1 ++ contents r.0.0 ≡ contents s ++ take taken (drop cnt buf)

stopped :
    (buf : List ℕ) (len cnt : ℕ) (s t : Ser) (out : List ℕ)
    → Sends s t out
    → (len ≡ 0) ⊎ (buf_cnt t ≡ 31)
    → Passed buf len cnt s ((t, cnt), out)
stopped buf len cnt s t out h e = record {
  valid = h.valid;
  taken = 0;
  count = omega arith;
  few = omega arith;
  ended = elim e [ inl none_left ↦ inl (sym none_left) | inr full ↦ inr full ];
  bytes = sym h.bytes ∙ sym (append-nil (contents s));
}

put_more :
    (buf : List ℕ) (len cnt : ℕ) (s t u : Ser) (out more : List ℕ) (r : (Ser × ℕ) × List ℕ)
    → Sends s t out
    → Sends t u more
    → buf_cnt u < 31
    → cnt < length buf
    → Passed buf len (cnt + 1) (put_byte u (get_or buf cnt 0)) r
    → Passed buf (suc len) cnt s (r.0, out ++ more ++ r.1)
put_more buf len cnt s t u out more r h k room w p =
    let byte = get_or buf cnt 0 in
    let rest = take p.taken (drop (cnt + 1) buf) in
    let all = drop_at buf cnt 0 w in
    record {
      valid = p.valid;
      taken = suc p.taken;
      count = omega (arith, p.count);
      few = omega (arith, p.few);
      ended = elim p.ended [ inl e ↦ inl (ap suc e) | inr full ↦ inr full ];
      bytes =
          append_assoc (out ++ more) r.1 (contents r.0.0)
          ∙ ap (λ l. (out ++ more) ++ l) p.bytes
          ∙ ap (λ l. (out ++ more) ++ (l ++ rest)) (contents-put_byte k.valid byte room)
          ∙ ap (λ l. (out ++ more) ++ l) (append_assoc (contents u) (byte ∷ []) rest)
          ∙ append_assoc out more (contents u ++ byte ∷ rest)
          ∙ ap (λ l. out ++ l) (sym (append_assoc more (contents u) (byte ∷ rest)))
          ∙ ap (λ l. out ++ (l ++ byte ∷ rest)) (sym k.bytes)
          ∙ sym (append_assoc out (contents t) (byte ∷ rest))
          ∙ ap (λ l. l ++ byte ∷ rest) (sym h.bytes)
          ∙ ap (λ l. contents s ++ take (suc p.taken) l) (sym all);
    }

interrupted_loop-Passed :
    (before between : ℕ → List Bool) (len : ℕ) (buf : List ℕ) (cnt : ℕ) (s : Ser)
    → IsValid s
    → cnt + len ≤ length buf
    → cnt + len < 256
    → Passed buf len cnt s (interrupted_loop before between len buf cnt s)
unfolding interrupted_loop
interrupted_loop-Passed before between zero buf cnt s v h w =
    stopped buf zero cnt s _ _ (interrupts-Sends (before cnt) s v) (inl refl)
interrupted_loop-Passed before between (suc len) buf cnt s v h w =
    let (t, out) = interrupts (before cnt) s in
    let first = interrupts-Sends (before cnt) s v in
    elim (Bool-cases (buf_notfull t)) [
      | inr full ↦
          let e : buf_cnt t ≡ 31 = ground arith in
          rw full (stopped buf (suc len) cnt s t out first (inr e))
      | inl free ↦
          let (u, more) = interrupts (between cnt) t in
          let second = interrupts-Sends (between cnt) t first.valid in
          let room : buf_cnt u < 31 = omega (arith, Sends-le second, ltb→lt _ _ free) in
          let next : u8 (cnt + 1) ≡ cnt + 1 = omega arith in
          rw (free, next)
            (put_more buf len cnt s t u out more _ first second room (omega arith) (
              interrupted_loop-Passed before between len buf (cnt + 1)
                (put_byte u (get_or buf cnt 0))
                (put_byte-IsValid second.valid (get_or buf cnt 0) room) (omega arith)
                (omega arith)))
    ]

uninterrupted_loop :
    (len : ℕ) (buf : List ℕ) (cnt : ℕ) (s : Ser)
    → interrupted_loop (λ k. []) (λ k. []) len buf cnt s ≡ (write_loop len buf cnt s, [])
unfolding interrupted_loop interrupts write_loop
uninterrupted_loop zero buf cnt s = refl
uninterrupted_loop (suc len) buf cnt s = elim (Bool-cases (buf_notfull s)) [
  | inr full ↦ rw full refl
  | inl free ↦ rw free (uninterrupted_loop len buf (u8 (cnt + 1)) (put_byte s (get_or buf cnt 0)))
]

uninterrupted_write :
    (s : Ser) (buf : List ℕ) (len : ℕ)
    → interrupted_write (λ k. []) (λ k. []) s buf len ≡ (ser_write s buf len, [])
unfolding interrupted_write ser_write
uninterrupted_write s buf len =
    ap (λ (r : (Ser × ℕ) × List ℕ). ((rxint_enable (start_tx r.0.0), r.0.1), r.1))
      (uninterrupted_loop len buf 0 (rxint_disable s))

-- A write of `len` bytes, fewer than 256 and no more than the buffer has, from a well formed ring,
-- with any data register interrupts before the loop's tests and between a test and the store of a
-- byte (a store and the step of its index count as one). The ring stays well formed. The loop takes
-- bytes until all are taken or 31 are in the ring. No byte is lost, doubled or put out of order:
-- what the interrupts send, followed by what is in the ring at the end, is what was in it before,
-- followed by the first bytes of the buffer, as many as the count that is returned. Without
-- interrupts this is `ser_write`.
pub interrupted_write_lem :
    (before between : ℕ → List Bool) (s : Ser) (buf : List ℕ) (len : ℕ)
    → IsValid s
    → len ≤ length buf
    → len < 256
    → let ((t, n), out) = interrupted_write before between s buf len in
      IsValid t
      × (n ≤ len)
      × ((n ≡ len) ⊎ (buf_cnt t ≡ 31))
      × (out ++ contents t ≡ contents s ++ take n buf)
      × (interrupted_write (λ k. []) (λ k. []) s buf len ≡ (ser_write s buf len, []))
unfolding interrupted_write
interrupted_write_lem before between s buf len v h w =
    let quiet = rxint_disable s in
    let p =
      interrupted_loop-Passed before between len buf 0 quiet
        (record { size = v.size; head_in = v.head_in; tail_in = v.tail_in }) (omega arith)
        (omega arith) in
    let k : p.taken ≡ (interrupted_loop before between len buf 0 quiet).0.1 =
      omega (arith, p.count) in
    (
      record { size = p.valid.size; head_in = p.valid.head_in; tail_in = p.valid.tail_in },
      omega (arith, p.few, k),
      elim p.ended [ inl e ↦ inl (sym k ∙ e) | inr full ↦ inr full ],
      p.bytes ∙ ap (λ k. contents s ++ take k buf) k,
      uninterrupted_write s buf len,
    )
