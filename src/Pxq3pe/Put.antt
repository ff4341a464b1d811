-- ===== src/Pxq3pe/Put.antt =====
-- That `pxq3pe_dma_put_stream` of drivers/media/pci/ptx/pxq3pe_pci.c puts bytes in a queue of bounded size.
use ptx.Base.{
  ℕ, ◌+◌, ◌-◌, ◌%◌, ◌^◌, ◌<◌, ◌≤◌, ◌≡◌, refl, sym, ap, ap₂, ◌∙◌, inl, inr, some, List, min, ◌⊎◌,
  ◌++◌, ◌==◌, leb, arith, Bool-cases, drop, length, length-take, length-drop, length-append, last,
  last_is, last_whole, ring, length-ring, drop-append_le, drop-drop,
}
use native.Mathlib.Nat.{mod-add-mod, add-mod_right, mod-eq_of_lt, mod-lt}
use ptx.Pxq3pe.Ring.{Pxq3peAdap, pxq3pe_dma_put_stream, put_counts}
use ptx.Pxq3pe.Stored.{IsWell, stored, stored-ring, pending, put_bytes_lem}

-- The indices, once `t_buf_idx` bytes more are in a buffer of the same size.
put_counts_lem :
    (p : Pxq3peAdap) (stop : ℕ)
    → 0 < p.s_buf_size
    → p.s_buf_size < 2 ^ 31
    → p.s_buf_start < p.s_buf_size
    → p.s_buf_byte_cnt ≤ p.s_buf_size
    → p.s_buf_stop < p.s_buf_size
    → p.t_buf_idx ≤ p.s_buf_size
    → stop < p.s_buf_size
    → stop ≡ (p.s_buf_stop + p.t_buf_idx) % p.s_buf_size
    → (put_counts p).s_buf_stop ≡ stop
      × (put_counts p).s_buf_byte_cnt ≡ min p.s_buf_size (p.s_buf_byte_cnt + p.t_buf_idx)
      × ((put_counts p).s_buf_start ≡ stop × (put_counts p).s_buf_byte_cnt ≡ p.s_buf_size
          ⊎ (put_counts p).s_buf_start ≡ p.s_buf_start
            × (put_counts p).s_buf_byte_cnt ≡ p.s_buf_byte_cnt + p.t_buf_idx)
unfolding put_counts
put_counts_lem p stop pos small start_in cnt_in stop_in fits new_in e =
    let fine : (p.s_buf_stop + p.t_buf_idx) % 2 ^ 32 ≡ p.s_buf_stop + p.t_buf_idx =
      omega (arith, small, stop_in, fits) in
    let fine2 : (p.s_buf_byte_cnt + p.t_buf_idx) % 2 ^ 32 ≡ p.s_buf_byte_cnt + p.t_buf_idx =
      omega (arith, small, cnt_in, fits) in
    elim (Bool-cases (p.s_buf_byte_cnt == p.s_buf_size)) [
      | inl full ↦ (
        rw (put_counts, full, fine, sym e) refl,
        rw (put_counts, full) ground (arith, full),
        inl (rw (put_counts, full, fine, sym e) refl, rw (put_counts, full) ground (arith, full)),
      )
      | inr part ↦ elim (Bool-cases (leb (p.s_buf_byte_cnt + p.t_buf_idx) p.s_buf_size)) [
        | inl room ↦ (
          rw (put_counts, part, fine2, room, fine, sym e) refl,
          rw (put_counts, part, fine2, room) ground (arith, room),
          inr (rw (put_counts, part, fine2, room) refl, rw (put_counts, part, fine2, room) refl),
        )
        | inr over ↦ (
          rw (put_counts, part, fine2, over, fine, sym e) refl,
          rw (put_counts, part, fine2, over) ground (arith, over),
          inl (
            rw (put_counts, part, fine2, over, fine, sym e) refl,
            rw (put_counts, part, fine2, over) refl,
          ),
        )
      ]
    ]

-- Nothing but the indices changes.
abbrev Keeps : Pxq3peAdap → Pxq3peAdap → Type 0
Keeps p q =
    (q.s_buf ≡ p.s_buf)
    × (q.s_buf_size ≡ p.s_buf_size)
    × (q.t_buf ≡ p.t_buf)
    × (q.t_buf_idx ≡ p.t_buf_idx)

put_counts-Keeps : (p : Pxq3peAdap) → Keeps p (put_counts p)
unfolding put_counts
put_counts-Keeps p = elim (Bool-cases (p.s_buf_byte_cnt == p.s_buf_size)) [
  | inl full ↦ rw (put_counts, full) (refl, refl, refl, refl)
  | inr part ↦ elim (Bool-cases (leb ((p.s_buf_byte_cnt + p.t_buf_idx) % 2 ^ 32) p.s_buf_size)) [
    | inl room ↦ rw (put_counts, part, room) (refl, refl, refl, refl)
    | inr over ↦ rw (put_counts, part, over) (refl, refl, refl, refl)
  ]
]

-- The write index is still the read index advanced by the count.
stop_after :
    (p : Pxq3peAdap) (start stop cnt : ℕ)
    → IsWell p
    → stop ≡ (p.s_buf_stop + p.t_buf_idx) % p.s_buf_size
    → stop < p.s_buf_size
    → start ≡ stop × cnt ≡ p.s_buf_size
      ⊎ start ≡ p.s_buf_start × cnt ≡ p.s_buf_byte_cnt + p.t_buf_idx
    → stop ≡ (start + cnt) % p.s_buf_size
stop_after p start stop cnt w e new_in (inl (s, c)) =
    sym (mod-eq_of_lt new_in)
    ∙ sym (add-mod_right stop p.s_buf_size)
    ∙ ap₂ (λ a b. (a + b) % p.s_buf_size) (sym s) (sym c)
stop_after p start stop cnt w e new_in (inr (s, c)) =
    let sum : p.s_buf_start + p.s_buf_byte_cnt + p.t_buf_idx ≡ start + cnt = omega (arith, s, c) in
    e
    ∙ ap (λ k. (k + p.t_buf_idx) % p.s_buf_size) w.stop_is
    ∙ mod-add-mod (p.s_buf_start + p.s_buf_byte_cnt) p.s_buf_size p.t_buf_idx
    ∙ ap (λ k. k % p.s_buf_size) sum

-- Put and seen from the end: the ring has lost its oldest bytes, of which the count takes the newest.
drop-put :
    (size cnt len : ℕ) (r src : List ℕ)
    → length r ≡ size
    → length src ≡ len
    → cnt ≤ size
    → len ≤ size
    → drop (size - min size (cnt + len)) (drop len r ++ src)
      ≡ last size (drop (size - cnt) r ++ src)
drop-put size cnt len r src hr hs hc hl =
    let old = drop (size - cnt) r in
    let n : length (old ++ src) ≡ cnt + len =
      omega (arith, length-append old src, length-drop (size - cnt) r, hr, hs, hc) in
    elim (Bool-cases (leb (cnt + len) size)) [
      | inl room ↦
          let within : cnt + len ≤ size = ground (arith, room) in
          drop-append_le (size - min size (cnt + len)) (drop len r) src
            (omega (arith, within, length-drop len r, hr))
          ∙ ap (λ l. l ++ src)
              (drop-drop len (size - min size (cnt + len)) (size - cnt) r (omega (arith, within)))
          ∙ sym (last_whole size (old ++ src) (omega (arith, n, within)))
      | inr over ↦
          let past : size < cnt + len = ground (arith, over) in
          let whole : size - min size (cnt + len) ≡ 0 = omega (arith, past) in
          ap (λ k. drop k (drop len r ++ src)) whole
          ∙ ap (λ l. l ++ src)
              (sym (drop-drop (size - cnt) (cnt + len - size) len r (omega (arith, hc, hl, past))))
          ∙ sym (
              drop-append_le (cnt + len - size) old src
                (omega (arith, length-drop (size - cnt) r, hr, hl, past, hc)))
          ∙ last_is size (cnt + len - size) (old ++ src) (omega (arith, n))
    ]

-- Where the buffer is well formed and has room for all that is put, `pxq3pe_dma_put_stream` stays in it,
-- leaves it well formed, and what is stored is then the last `s_buf_size` bytes of what was stored
-- followed by what was put: where the buffer overflows, the oldest bytes are lost and no others.
pub pxq3pe_dma_put_stream_lem :
    (p : Pxq3peAdap)
    → IsWell p
    → p.t_buf_idx ≤ length p.t_buf
    → p.t_buf_idx ≤ p.s_buf_size
    → (q : Pxq3peAdap) × (pxq3pe_dma_put_stream p ≡ some q)
      × IsWell q
      × (stored q ≡ last p.s_buf_size (stored p ++ pending p))
      × (q.s_buf_size ≡ p.s_buf_size)
      × (q.t_buf ≡ p.t_buf)
      × (q.s_buf_byte_cnt ≡ min p.s_buf_size (p.s_buf_byte_cnt + p.t_buf_idx))
      × ((q.s_buf_start ≡ p.s_buf_start)
          ⊎ (q.s_buf_start ≡ (p.s_buf_stop + p.t_buf_idx) % p.s_buf_size))
unfolding pxq3pe_dma_put_stream
pxq3pe_dma_put_stream_lem p w filled fits =
    let (buf, done, same, turned) = put_bytes_lem p w filled fits in
    let p1 : Pxq3peAdap = record p { s_buf = buf } in
    let q = put_counts p1 in
    let (buf_eq, size_eq, t_eq, idx_eq) = put_counts-Keeps p1 in
    let stop_in : p.s_buf_stop < p.s_buf_size =
      omega (arith, w.stop_is, mod-lt (p.s_buf_start + p.s_buf_byte_cnt) w.some_room) in
    let stop = (p.s_buf_stop + p.t_buf_idx) % p.s_buf_size in
    let new_in : stop < p.s_buf_size = mod-lt (p.s_buf_stop + p.t_buf_idx) w.some_room in
    let (stop_eq, cnt_eq, start_eq) =
      put_counts_lem p1 stop w.some_room w.no_wrap w.start_in w.cnt_in stop_in fits new_in refl in
    let start_in : q.s_buf_start < p.s_buf_size = ground (arith, start_eq, w.start_in, new_in) in
    let well : IsWell q = record {
      size = ap length buf_eq ∙ same ∙ sym size_eq;
      some_room = omega (arith, size_eq, w.some_room);
      no_wrap = omega (arith, size_eq, w.no_wrap);
      start_in = omega (arith, size_eq, start_in);
      cnt_in = omega (arith, size_eq, cnt_eq);
      stop_is =
          stop_eq
          ∙ stop_after p q.s_buf_start stop q.s_buf_byte_cnt w refl new_in start_eq
          ∙ ap (λ n. (q.s_buf_start + q.s_buf_byte_cnt) % n) (sym size_eq);
    } in
    let long = length-ring p.s_buf_stop p.s_buf (omega (arith, stop_in, w.size)) ∙ w.size in
    let n : length (pending p) ≡ p.t_buf_idx =
      omega (arith, filled, length-take p.t_buf_idx p.t_buf) in
    (
      q,
      rw (pxq3pe_dma_put_stream, done) refl,
      well,
      stored-ring q well
          ∙ ap₂ (λ k l. drop k l) (ap₂ (λ a b. a - b) size_eq cnt_eq)
              (ap₂ (λ k l. ring k l) stop_eq buf_eq ∙ turned)
          ∙ drop-put p.s_buf_size p.s_buf_byte_cnt p.t_buf_idx (ring p.s_buf_stop p.s_buf)
              (pending p) long n w.cnt_in fits
          ∙ ap (λ l. last p.s_buf_size (l ++ pending p)) (sym (stored-ring p w)),
      size_eq,
      t_eq,
      cnt_eq,
      elim start_eq [ inl (moved, _) ↦ inr moved | inr (stays, _) ↦ inl stays ],
    )
