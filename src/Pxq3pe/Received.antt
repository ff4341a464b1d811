-- ===== src/Pxq3pe/Received.antt =====
-- What an adapter of drivers/media/pci/ptx/pxq3pe_pci.c makes of the packets that it receives.
use ptx.Base.{
  ℕ, ◌+◌, ◌%◌, ◌<◌, ◌≤◌, ◌≡◌, ◌⊎◌, refl, sym, ap, ap₂, ◌∙◌, some, List, [], ◌++◌, append_assoc,
  append-nil, leb, arith, length, last, last_whole, last-append_last, length-take, memcpy_fits,
  spliced, length-spliced, take-spliced, Bool-cases, inl, inr, ring,
}
use native.Mathlib.Nat.{mod-mod_of_dvd, dvd_of_mod-eq-zero}
use ptx.Pxq3pe.Ring.{Pxq3peAdap, ts_size, pkt_bufsz}
use ptx.Pxq3pe.Stored.{IsWell, stored, pending}
use ptx.Pxq3pe.Put.{pxq3pe_dma_put_stream_lem}
use ptx.Pxq3pe.Irq.{receive_packet}

-- `t_buf` has its size and holds whole packets, fewer than fill it, and the ring buffer could hold all
-- that fills it. What waits in the ring buffer is whole packets too, none of which is cut by its end.
pub record IsFed (p : Pxq3peAdap) : Type 0 where
  pub well : IsWell p
  pub size : length p.t_buf ≡ pkt_bufsz
  pub aligned : p.t_buf_idx % ts_size ≡ 0
  pub not_full : p.t_buf_idx < pkt_bufsz
  pub larger : pkt_bufsz ≤ p.s_buf_size
  pub whole : p.s_buf_size % ts_size ≡ 0
  pub start_at : p.s_buf_start % ts_size ≡ 0
  pub cnt_at : p.s_buf_byte_cnt % ts_size ≡ 0

-- From `p` to `q` the bytes of `xs` came in: some of the oldest of those that wait in `t_buf` went to
-- the queue, which keeps its newest, and the others wait.
abbrev pub Takes : Pxq3peAdap → List ℕ → Pxq3peAdap → Type 0
Takes p xs q =
    (flushed : List ℕ) × (stored q ≡ last p.s_buf_size (stored p ++ flushed))
    × (flushed ++ pending q ≡ pending p ++ xs)
    × (q.s_buf_size ≡ p.s_buf_size)

length-stored : (p : Pxq3peAdap) → IsWell p → length (stored p) ≤ p.s_buf_size
unfolding stored
length-stored p w =
    omega (arith, w.cnt_in, length-take p.s_buf_byte_cnt (ring p.s_buf_start p.s_buf))

stored_whole : (p : Pxq3peAdap) → IsWell p → stored p ≡ last p.s_buf_size (stored p ++ [])
stored_whole p w = sym (
    ap (last p.s_buf_size) (append-nil (stored p))
    ∙ last_whole p.s_buf_size (stored p) (length-stored p w))

pub Takes-nothing : (p : Pxq3peAdap) → IsWell p → Takes p [] p
Takes-nothing p w = ([], stored_whole p w, sym (append-nil (pending p)), refl)

-- What came in one after the other came in.
pub Takes-Takes :
    (p q r : Pxq3peAdap) (xs ys : List ℕ) → Takes p xs q → Takes q ys r → Takes p (xs ++ ys) r
Takes-Takes p q r xs ys (f, ef, wf, sf) (g, eg, wg, sg) = (
  f ++ g,
  eg
      ∙ ap₂ (λ n l. last n (l ++ g)) sf ef
      ∙ last-append_last p.s_buf_size (stored p ++ f) g
      ∙ ap (last p.s_buf_size) (append_assoc (stored p) f g),
  append_assoc f g (pending r)
      ∙ ap (λ l. f ++ l) wg
      ∙ sym (append_assoc f (pending q) ys)
      ∙ ap (λ l. l ++ ys) wf
      ∙ append_assoc (pending p) xs ys,
  sg ∙ sf,
)

IsWell-refilled :
    (p : Pxq3peAdap) (t : List ℕ) (i : ℕ)
    → IsWell p
    → IsWell (record p { t_buf = t; t_buf_idx = i })
IsWell-refilled p t i w = record {
  size = w.size;
  some_room = w.some_room;
  no_wrap = w.no_wrap;
  start_in = w.start_in;
  cnt_in = w.cnt_in;
  stop_is = w.stop_is;
}

-- An index in a ring of whole packets.
pub mod_whole : (k size : ℕ) → size % ts_size ≡ 0 → k % ts_size ≡ 0 → k % size % ts_size ≡ 0
mod_whole k size h e = mod-mod_of_dvd ts_size k (dvd_of_mod-eq-zero ts_size h) ∙ e

start_after :
    (p : Pxq3peAdap) (start : ℕ)
    → IsFed p
    → start ≡ p.s_buf_start ⊎ start ≡ (p.s_buf_stop + (p.t_buf_idx + ts_size)) % p.s_buf_size
    → start % ts_size ≡ 0
start_after p start f (inl e) = omega (arith, e, f.start_at)
start_after p start f (inr e) =
    let stop_at : p.s_buf_stop % ts_size ≡ 0 =
      ap (λ k. k % ts_size) f.well.stop_is
      ∙ mod_whole (p.s_buf_start + p.s_buf_byte_cnt) p.s_buf_size f.whole
          (omega (arith, f.start_at, f.cnt_at)) in
    ap (λ k. k % ts_size) e
    ∙ mod_whole (p.s_buf_stop + (p.t_buf_idx + ts_size)) p.s_buf_size f.whole
        (omega (arith, stop_at, f.aligned))

-- An adapter receives a packet without leaving its buffers, is then fed as before, and has taken the
-- packet.
pub receive_packet_lem :
    (p : Pxq3peAdap) (packet : List ℕ)
    → IsFed p
    → length packet ≡ ts_size
    → (q : Pxq3peAdap) × (receive_packet p packet ≡ some q) × IsFed q × Takes p packet q
unfolding receive_packet stored
receive_packet_lem p packet f n =
    let room : p.t_buf_idx + length packet ≤ length p.t_buf =
      omega (arith, f.size, f.aligned, f.not_full, n) in
    let filled : p.t_buf_idx + ts_size ≡ p.t_buf_idx + length packet = omega (arith, n) in
    let t_buf = spliced p.t_buf p.t_buf_idx packet in
    let p1 : Pxq3peAdap = record p { t_buf = t_buf; t_buf_idx = p.t_buf_idx + ts_size } in
    let fits = memcpy_fits p.t_buf p.t_buf_idx packet room in
    let waits : pending p1 ≡ pending p ++ packet =
      take-spliced p.t_buf p.t_buf_idx (p.t_buf_idx + ts_size) packet room filled in
    let same : length t_buf ≡ pkt_bufsz = length-spliced p.t_buf p.t_buf_idx packet room ∙ f.size in
    let w1 : IsWell p1 = IsWell-refilled p t_buf (p.t_buf_idx + ts_size) f.well in
    elim (Bool-cases (leb pkt_bufsz (p.t_buf_idx + ts_size))) [
      | inl full ↦
          let (q, put, w, kept, size_eq, t_eq, cnt_eq, start_eq) =
            pxq3pe_dma_put_stream_lem p1 w1 (omega (arith, same, n, room, f.size))
              (omega (arith, f.larger, f.not_full, f.aligned)) in
          (
            record q { t_buf_idx = 0 },
            rw (receive_packet, fits, full, put) refl,
            record {
              well = IsWell-refilled q q.t_buf 0 w;
              size = ap length t_eq ∙ same;
              aligned = omega arith;
              not_full = omega arith;
              larger = omega (arith, size_eq, f.larger);
              whole = omega (arith, size_eq, f.whole);
              start_at = start_after p q.s_buf_start f start_eq;
              cnt_at = omega (arith, cnt_eq, f.cnt_at, f.aligned, f.whole);
            },
            (
              pending p ++ packet,
              kept ∙ ap (λ l. last p.s_buf_size (stored p ++ l)) waits,
              append-nil (pending p ++ packet),
              size_eq,
            ),
          )
      | inr part ↦ (
        p1,
        rw (receive_packet, fits, part) refl,
        record {
          well = w1;
          size = same;
          aligned = omega (arith, f.aligned);
          not_full = ground (arith, part);
          larger = f.larger;
          whole = f.whole;
          start_at = f.start_at;
          cnt_at = f.cnt_at;
        },
        ([], stored_whole p f.well, waits, refl),
      )
    ]
