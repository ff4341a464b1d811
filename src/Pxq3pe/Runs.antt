-- ===== src/Pxq3pe/Runs.antt =====
-- The interrupt and the thread of drivers/media/pci/ptx/pxq3pe_pci.c, in any order, for one adapter.
use ptx.Base.{
  ℕ, ◌+◌, ◌%◌, ◌<◌, ◌≤◌, ◌≡◌, refl, sym, ap, ap₂, ◌∙◌, none, some, List, [], ◌++◌, append_assoc,
  append-nil, arith, take, drop, length, Bool-cases, inl, inr, ◌==◌, last_whole, length-append,
  length-take, append-take-drop, ring, length-ring,
}
use mathlib.Core.Path.{subst}
use mathlib.Core.Option.{some-injective, none-ne-some}
use ptx.Pxq3pe.Ring.{Pxq3peAdap, ts_size}
use ptx.Pxq3pe.Stored.{stored, pending}
use ptx.Pxq3pe.Thread.{pxq3pe_thread, round_size}
use ptx.Pxq3pe.Irq.{receive_packet}
use ptx.Pxq3pe.Cleared.{cleared, cleared-append}
use ptx.Pxq3pe.Served.{pxq3pe_thread_lem}
use ptx.Pxq3pe.Received.{IsFed, Takes, receive_packet_lem, mod_whole}

-- All the bytes that an adapter holds, oldest first.
abbrev pub held : Pxq3peAdap → List ℕ
held p = stored p ++ pending p

module _ (idx xor : List ℕ) where
  -- A run of an adapter: the bytes that came in, and those that the demultiplexer was handed. The
  -- adapter has room for each packet that comes in.
  pub data Run : Pxq3peAdap → List ℕ → List ℕ → Pxq3peAdap → Type 0 where
    ended : (p : Pxq3peAdap) → Run p [] [] p
    packet_in :
        (p q r : Pxq3peAdap) (packet xs out : List ℕ)
        → length packet ≡ ts_size
        → p.s_buf_byte_cnt + p.t_buf_idx + ts_size ≤ p.s_buf_size
        → receive_packet p packet ≡ some q
        → Run q xs out r
        → Run p (packet ++ xs) out r
    nothing_out :
        (p r : Pxq3peAdap) (xs out : List ℕ)
        → pxq3pe_thread idx xor p ≡ (p, none)
        → Run p xs out r
        → Run p xs out r
    bytes_out :
        (p q r : Pxq3peAdap) (bytes xs out : List ℕ)
        → pxq3pe_thread idx xor p ≡ (q, some bytes)
        → Run q xs out r
        → Run p xs (bytes ++ out) r

-- With room for what came in, nothing is lost.
held-Takes :
    (p q : Pxq3peAdap) (packet : List ℕ)
    → IsFed p
    → length packet ≡ ts_size
    → p.s_buf_byte_cnt + p.t_buf_idx + ts_size ≤ p.s_buf_size
    → Takes p packet q
    → held q ≡ held p ++ packet
unfolding stored
held-Takes p q packet f n room (flushed, es, ew, _) =
    let few : length (stored p ++ flushed) ≤ p.s_buf_size = omega (
      arith,
      n,
      room,
      length-append (stored p) flushed,
      length-append flushed (pending q),
      length-append (pending p) packet,
      ap length ew,
      length-take p.t_buf_idx p.t_buf,
      length-take p.s_buf_byte_cnt (ring p.s_buf_start p.s_buf),
    ) in
    ap (λ l. l ++ pending q) (es ∙ last_whole p.s_buf_size (stored p ++ flushed) few)
    ∙ append_assoc (stored p) flushed (pending q)
    ∙ ap (λ l. stored p ++ l) ew
    ∙ sym (append_assoc (stored p) (pending p) packet)

-- An adapter that holds nothing for the thread hands nothing over.
some_stored :
    (idx xor : List ℕ) (p q : Pxq3peAdap) (bytes : List ℕ)
    → pxq3pe_thread idx xor p ≡ (q, some bytes)
    → 0 < p.s_buf_byte_cnt
unfolding pxq3pe_thread
some_stored idx xor p q bytes e = elim (Bool-cases (p.s_buf_byte_cnt == 0)) [
  | inl empty ↦
      let idle : pxq3pe_thread idx xor p ≡ (p, none) = rw (pxq3pe_thread, empty) refl in
      absurd (none-ne-some bytes (ap (λ r. r.1) (sym idle ∙ e)))
  | inr more ↦ ground (arith, more)
]

round_size-whole : (p : Pxq3peAdap) → IsFed p → round_size p % ts_size ≡ 0
unfolding round_size
round_size-whole p f =
    let whole = f.whole in
    let start_at = f.start_at in let cnt_at = f.cnt_at in ground (arith, whole, start_at, cnt_at)

module _ (idx xor : List ℕ) where
  -- A round that hands bytes over takes them out of what the adapter holds, and keeps the adapter fed.
  thread-held :
      (p q : Pxq3peAdap) (bytes xs : List ℕ)
      → IsFed p
      → pxq3pe_thread idx xor p ≡ (q, some bytes)
      → IsFed q × (bytes ++ cleared idx xor (held q ++ xs) ≡ cleared idx xor (held p ++ xs))
  unfolding stored
  thread-held p q bytes xs f e =
      let (sz, q', pos, size_is, handed, well, left, count, size_eq, start_eq, t_eq, i_eq) =
        pxq3pe_thread_lem idx xor p f.well (some_stored idx xor p q bytes e) in
      let same : q' ≡ q = ap (λ r. r.0) (sym handed ∙ e) in
      let first = take sz (stored p) in
      let bytes_eq : bytes ≡ cleared idx xor first =
        some-injective bytes (cleared idx xor first) (ap (λ r. r.1) (sym e ∙ handed)) in
      let whole : sz % ts_size ≡ 0 = ap (λ k. k % ts_size) size_is ∙ round_size-whole p f in
      let n : length first % ts_size ≡ 0 = omega (
        arith,
        whole,
        count,
        length-take sz (stored p),
        f.well.cnt_in,
        f.well.start_in,
        f.well.size,
        length-take p.s_buf_byte_cnt (ring p.s_buf_start p.s_buf),
        length-ring p.s_buf_start p.s_buf (omega (arith, f.well.start_in, f.well.size)),
      ) in
      let rest : first ++ (held q' ++ xs) ≡ held p ++ xs =
        ap (λ l. first ++ (l ++ xs)) (ap₂ (λ k l. k ++ l) left (ap₂ (λ k l. take k l) i_eq t_eq))
        ∙ sym (append_assoc first (drop sz (stored p) ++ pending p) xs)
        ∙ ap (λ l. l ++ xs)
            (sym (append_assoc first (drop sz (stored p)) (pending p))
              ∙ ap (λ l. l ++ pending p) (append-take-drop sz (stored p))) in
      subst
        (λ r. IsFed r × (bytes ++ cleared idx xor (held r ++ xs) ≡ cleared idx xor (held p ++ xs)))
        same
        (
          record {
            well = well;
            size = ap length t_eq ∙ f.size;
            aligned = omega (arith, i_eq, f.aligned);
            not_full = omega (arith, i_eq, f.not_full);
            larger = omega (arith, size_eq, f.larger);
            whole = omega (arith, size_eq, f.whole);
            start_at =
                ap (λ k. k % ts_size) start_eq
                ∙ mod_whole (p.s_buf_start + sz) p.s_buf_size f.whole
                    (omega (arith, whole, f.start_at));
            cnt_at = omega (arith, count, whole, f.cnt_at);
          },
          ap (λ l. l ++ cleared idx xor (held q' ++ xs)) bytes_eq
              ∙ sym (cleared-append idx xor first (held q' ++ xs) n)
              ∙ ap (cleared idx xor) rest,
        )

  -- Whatever the order in which packets come in and the thread runs, as long as there is room for each
  -- packet: what the demultiplexer was handed, followed by what the adapter still holds, cleared, is
  -- what the adapter held at first followed by all that came in, cleared. So no byte is lost, doubled,
  -- reordered or cleared twice.
  pub Run-cleared :
      (p r : Pxq3peAdap) (xs out : List ℕ)
      → IsFed p
      → Run idx xor p xs out r
      → IsFed r × (out ++ cleared idx xor (held r) ≡ cleared idx xor (held p ++ xs))
  Run-cleared p r xs out f (ended _) = (f, ap (cleared idx xor) (sym (append-nil (held p))))
  Run-cleared p r xs out f (packet_in _ q _ packet later _ n room e rest) =
      let (q', got, fed, takes) = receive_packet_lem p packet f n in
      let same : q' ≡ q = some-injective q' q (sym got ∙ e) in
      let (fr, eq) = Run-cleared q r later out (subst IsFed same fed) rest in
      let holds : held q ≡ held p ++ packet =
        subst (λ s. held s ≡ held p ++ packet) same (held-Takes p q' packet f n room takes) in
      (
        fr,
        eq
            ∙ ap (λ l. cleared idx xor (l ++ later)) holds
            ∙ ap (cleared idx xor) (append_assoc (held p) packet later),
      )
  Run-cleared p r xs out f (nothing_out _ _ _ _ e rest) = Run-cleared p r xs out f rest
  Run-cleared p r xs out f (bytes_out _ q _ bytes _ later e rest) =
      let (fq, handed) = thread-held p q bytes xs f e in
      let (fr, eq) = Run-cleared q r xs later fq rest in
      (fr, append_assoc bytes later (cleared idx xor (held r)) ∙ ap (λ l. bytes ++ l) eq ∙ handed)
