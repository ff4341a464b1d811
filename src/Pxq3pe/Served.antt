-- ===== src/Pxq3pe/Served.antt =====
-- What `pxq3pe_thread` of drivers/media/pci/ptx/pxq3pe_pci.c hands to the demultiplexer.
use ptx.Base.{
  ℕ, ◌+◌, ◌-◌, ◌*◌, ◌/◌, ◌%◌, ◌^◌, ◌<◌, ◌≤◌, ◌≡◌, refl, sym, ap, ap₂, ◌∙◌, false, some, List, ◌++◌,
  append_assoc, ◌==◌, arith, take, drop, length, length-take, length-drop, length-append, ring,
  ring_is, ring-wrap, drop-take, take-take, take-append_le, drop-append_le, take-append_ge,
  drop-append_ge,
}
use native.Mathlib.Nat.{mod-add-mod, mod-lt}
use ptx.Pxq3pe.Ring.{Pxq3peAdap, ts_size}
use ptx.Pxq3pe.Stored.{IsWell, stored}
use ptx.Pxq3pe.Thread.{pxq3pe_thread, round_size, xor_packets}
use ptx.Pxq3pe.Cleared.{cleared, length-clear, take-clear, drop-clear}
use ptx.Pxq3pe.Clear.{clear, xor_packets_lem}

module _ (idx xor : List ℕ) where
  -- The bytes of a round, and what is left, in terms of the queue.
  round_size_lem :
      (p : Pxq3peAdap)
      → IsWell p
      → (round_size p ≤ p.s_buf_byte_cnt)
        × (p.s_buf_start + round_size p ≤ p.s_buf_size)
        × (0 < p.s_buf_byte_cnt → 0 < round_size p)
  unfolding round_size
  round_size_lem p w = let start_in = w.start_in in ground (arith, start_in)

  take-stored :
      (p : Pxq3peAdap) (sz : ℕ)
      → IsWell p
      → sz ≤ p.s_buf_byte_cnt
      → p.s_buf_start + sz ≤ p.s_buf_size
      → take sz (stored p) ≡ take sz (drop p.s_buf_start p.s_buf)
  unfolding stored
  take-stored p sz w h within =
      take-take sz p.s_buf_byte_cnt (ring p.s_buf_start p.s_buf) h
      ∙ ap (take sz) (ring_is p.s_buf_start p.s_buf)
      ∙ take-append_le sz (drop p.s_buf_start p.s_buf) (take p.s_buf_start p.s_buf)
          (omega (arith, within, length-drop p.s_buf_start p.s_buf, w.size))

  -- A buffer that keeps what lies before the read index and behind the round's bytes.
  drop-stored :
      (p : Pxq3peAdap) (sz start : ℕ) (rbuf : List ℕ)
      → IsWell p
      → sz ≤ p.s_buf_byte_cnt
      → p.s_buf_start + sz ≤ p.s_buf_size
      → length rbuf ≡ p.s_buf_size - p.s_buf_start
      → drop sz rbuf ≡ drop sz (drop p.s_buf_start p.s_buf)
      → start ≡ (p.s_buf_start + sz) % p.s_buf_size
      → take (p.s_buf_byte_cnt - sz) (ring start (take p.s_buf_start p.s_buf ++ rbuf))
        ≡ drop sz (stored p)
  unfolding stored
  drop-stored p sz start rbuf w h within n same e =
      let s = p.s_buf_start in
      let b = p.s_buf in
      let size = w.size in
      let front = take s b in
      let nf : length front ≡ s = omega (arith, length-take s b, w.start_in, size) in
      let n2 : length (front ++ rbuf) ≡ p.s_buf_size =
        omega (arith, length-append front rbuf, n, nf, w.start_in) in
      let behind : drop (s + sz) (front ++ rbuf) ≡ drop sz (drop s b) =
        drop-append_ge (s + sz) sz front rbuf (omega (arith, nf)) ∙ same in
      let before : take (s + sz) (front ++ rbuf) ≡ front ++ take sz rbuf =
        take-append_ge (s + sz) sz front rbuf (omega (arith, nf)) in
      let rest = drop sz (drop s b) in
      let room : p.s_buf_byte_cnt - sz ≤ length (rest ++ front) = omega (
        arith,
        length-append rest front,
        length-drop sz (drop s b),
        length-drop s b,
        size,
        nf,
        w.cnt_in,
        within,
        h,
      ) in
      ap (take (p.s_buf_byte_cnt - sz)) (
        ring-wrap (front ++ rbuf) (s + sz) start (omega (arith, n2, w.some_room))
          (omega (arith, n2, within)) (e ∙ ap (λ k. (s + sz) % k) (sym n2))
        ∙ ring_is (s + sz) (front ++ rbuf)
        ∙ ap₂ (λ x y. x ++ y) behind before
        ∙ sym (append_assoc rest front (take sz rbuf)))
      ∙ take-append_le (p.s_buf_byte_cnt - sz) (rest ++ front) (take sz rbuf) room
      ∙ ap (take (p.s_buf_byte_cnt - sz)) (
          sym (drop-append_le sz (drop s b) front (omega (arith, within, length-drop s b, size)))
          ∙ ap (drop sz) (sym (ring_is s b)))
      ∙ sym (drop-take sz p.s_buf_byte_cnt (p.s_buf_byte_cnt - sz) (ring s b) refl)

  -- A round of the thread that finds bytes hands over the first ones in the queue, cleared, and takes
  -- just these out of it; the buffer stays well formed.
  pub pxq3pe_thread_lem :
      (p : Pxq3peAdap)
      → IsWell p
      → 0 < p.s_buf_byte_cnt
      → (sz : ℕ) × (q : Pxq3peAdap) × (0 < sz)
        × (sz ≡ round_size p)
        × (pxq3pe_thread idx xor p ≡ (q, some (cleared idx xor (take sz (stored p)))))
        × IsWell q
        × (stored q ≡ drop sz (stored p))
        × (q.s_buf_byte_cnt + sz ≡ p.s_buf_byte_cnt)
        × (q.s_buf_size ≡ p.s_buf_size)
        × (q.s_buf_start ≡ (p.s_buf_start + sz) % p.s_buf_size)
        × (q.t_buf ≡ p.t_buf)
        × (q.t_buf_idx ≡ p.t_buf_idx)
  unfolding pxq3pe_thread cleared stored
  pxq3pe_thread_lem p w pos =
      let sz = round_size p in
      let (few, within, progress) = round_size_lem p w in
      let b = p.s_buf in
      let tail = drop p.s_buf_start b in
      let whole = sz / ts_size * ts_size in
      let rbuf = xor_packets idx xor (sz / ts_size) 0 0 tail in
      let start = (p.s_buf_start + sz) % 2 ^ 32 % p.s_buf_size in
      let done : rbuf ≡ clear idx xor 0 whole tail = xor_packets_lem idx xor (sz / ts_size) tail in
      let n : length rbuf ≡ p.s_buf_size - p.s_buf_start =
        ap length done
        ∙ length-clear idx xor 0 whole tail
        ∙ omega (arith, length-drop p.s_buf_start b, w.size) in
      let same : drop sz rbuf ≡ drop sz tail =
        ap (drop sz) done ∙ drop-clear idx xor 0 whole sz tail (omega arith) in
      let fine : (p.s_buf_start + sz) % 2 ^ 32 ≡ p.s_buf_start + sz =
        omega (arith, within, w.no_wrap) in
      let at : start ≡ (p.s_buf_start + sz) % p.s_buf_size = ap (λ k. k % p.s_buf_size) fine in
      let q : Pxq3peAdap = record p {
        s_buf = take p.s_buf_start b ++ rbuf;
        s_buf_start = start;
        s_buf_byte_cnt = p.s_buf_byte_cnt - sz;
      } in
      let first = take sz (stored p) in
      let first_eq : first ≡ take sz tail = take-stored p sz w few within in
      let count : length first ≡ sz = omega (
        arith,
        ap length first_eq,
        length-take sz tail,
        length-drop p.s_buf_start b,
        w.size,
        within,
      ) in
      let out : take sz rbuf ≡ cleared idx xor first =
        ap (take sz) done
        ∙ take-clear idx xor 0 whole sz tail (omega arith)
        ∙ ap₂ (λ k l. clear idx xor 0 (k / ts_size * ts_size) l) (sym count) (sym first_eq) in
      let some_stored : (p.s_buf_byte_cnt == 0) ≡ false = ground (arith, pos) in
      let left : p.s_buf_start + p.s_buf_byte_cnt ≡ p.s_buf_start + sz + (p.s_buf_byte_cnt - sz) =
        omega (arith, few) in
      let well : IsWell q = record {
        size = omega (
          arith,
          length-append (take p.s_buf_start b) rbuf,
          length-take p.s_buf_start b,
          n,
          w.size,
          w.start_in,
        );
        some_room = w.some_room;
        no_wrap = w.no_wrap;
        start_in = mod-lt ((p.s_buf_start + sz) % 2 ^ 32) w.some_room;
        cnt_in = omega (arith, w.cnt_in);
        stop_is =
            w.stop_is
            ∙ ap (λ k. k % p.s_buf_size) left
            ∙ sym (mod-add-mod (p.s_buf_start + sz) p.s_buf_size (p.s_buf_byte_cnt - sz))
            ∙ ap (λ k. (k + (p.s_buf_byte_cnt - sz)) % p.s_buf_size) (sym at);
      } in
      (
        sz,
        q,
        progress pos,
        refl,
        rw (pxq3pe_thread, some_stored) (ap (λ l. (q, some l)) out),
        well,
        drop-stored p sz start rbuf w few within n same at,
        omega (arith, few),
        refl,
        at,
        refl,
        refl,
      )
