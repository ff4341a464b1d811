-- ===== src/Pxq3pe/Tests.antt =====
-- Witnesses and runs of the model of drivers/media/pci/ptx/pxq3pe_pci.c.
use ptx.Base.{
  ℕ, ◌+◌, ◌==◌, if◌then◌else◌, ◌%◌, ◌<◌, ◌≡◌, ◌⊎◌, refl, true, false, some, List, [], ◌∷◌, ◌++◌,
  arith, take, drop, last, replicate, length-replicate, modify,
}
use ptx.Base.Int.{pos, eio}
use ptx.Pxq3pe.{
  Pxq3peAdap, pxq3pe_dma_put_stream, IsWell, stored, pending, pxq3pe_dma_put_stream_lem,
  idx_default, xor_default, pxq3pe_thread, round_size, cleared, pxq3pe_thread_lem, Receiver,
  Pxq3peCard, pxq3pe_irq, dma_on, IsFed, AllFed, Handled, brought, pxq3pe_irq-Delivered, held, Run,
  Run-cleared, receive_packet, receive_packet_lem, Takes, pxq3pe_dma, demod_addr, dma_idx, dma_port,
  emptied, pxq3pe_dma-never_off, pxq3pe_dma-on,
}

-- A ring of four bytes that holds two, and three to be put.
abbrev small : Pxq3peAdap
small = record {
  t_buf = 7 ∷ 8 ∷ 9 ∷ [];
  s_buf = 1 ∷ 2 ∷ 3 ∷ 4 ∷ [];
  t_buf_idx = 3;
  s_buf_size = 4;
  s_buf_start = 1;
  s_buf_stop = 3;
  s_buf_byte_cnt = 2;
}

small-IsWell : IsWell small
small-IsWell = record {
  size = refl;
  some_room = omega arith;
  no_wrap = omega arith;
  start_in = omega arith;
  cnt_in = omega arith;
  stop_is = refl;
}

pxq3pe_dma_put_stream_lem_example :
    (q : Pxq3peAdap) × (pxq3pe_dma_put_stream small ≡ some q)
    × IsWell q
    × (stored q ≡ last 4 (stored small ++ pending small))
    × (q.s_buf_size ≡ 4)
    × (q.t_buf ≡ small.t_buf)
    × (q.s_buf_byte_cnt ≡ 4)
    × ((q.s_buf_start ≡ 1) ⊎ (q.s_buf_start ≡ 2))
pxq3pe_dma_put_stream_lem_example =
    pxq3pe_dma_put_stream_lem small small-IsWell (omega arith) (omega arith)

pxq3pe_thread_lem_example :
    (sz : ℕ) × (q : Pxq3peAdap) × (0 < sz)
    × (sz ≡ round_size small)
    × (pxq3pe_thread idx_default xor_default small
        ≡ (q, some (cleared idx_default xor_default (take sz (stored small)))))
    × IsWell q
    × (stored q ≡ drop sz (stored small))
    × (q.s_buf_byte_cnt + sz ≡ 2)
    × (q.s_buf_size ≡ 4)
    × (q.s_buf_start ≡ (1 + sz) % 4)
    × (q.t_buf ≡ small.t_buf)
    × (q.t_buf_idx ≡ 3)
pxq3pe_thread_lem_example =
    pxq3pe_thread_lem idx_default xor_default small small-IsWell (omega arith)

-- An adapter that is fed, with empty buffers.
abbrev fresh : Pxq3peAdap
fresh = record {
  t_buf = replicate 58656 0;
  s_buf = replicate 117312 0;
  t_buf_idx = 0;
  s_buf_size = 117312;
  s_buf_start = 0;
  s_buf_stop = 0;
  s_buf_byte_cnt = 0;
}

fresh-IsFed : IsFed fresh
fresh-IsFed = record {
  well = record {
    size = length-replicate {A = ℕ} 117312 0;
    some_room = omega arith;
    no_wrap = omega arith;
    start_in = omega arith;
    cnt_in = omega arith;
    stop_is = omega arith;
  };
  size = length-replicate {A = ℕ} 58656 0;
  aligned = omega arith;
  not_full = omega arith;
  larger = omega arith;
  whole = omega arith;
  start_at = omega arith;
  cnt_at = omega arith;
}

abbrev fresh_receiver : Receiver
fresh_receiver = record { on = true; priv = fresh }

abbrev fresh_card : Pxq3peCard
fresh_card = record {
  adapn = 5;
  adap = fresh_receiver ∷ fresh_receiver ∷ fresh_receiver ∷ fresh_receiver ∷ fresh_receiver ∷ [];
  dat = replicate 234624 0xC7;
  on0 = true;
  on1 = false;
}

fresh_card-AllFed : AllFed fresh_card.adap
fresh_card-AllFed = AllFed.one_more fresh-IsFed (
    AllFed.one_more fresh-IsFed (
      AllFed.one_more fresh-IsFed
        (AllFed.one_more fresh-IsFed (AllFed.one_more fresh-IsFed AllFed.no_more))))

-- A device that signals a whole transfer of channel 0 of port 0.
abbrev signals : ℕ → ℕ → ℕ × ℕ
signals r s = (if r == 0x808 then 1 else if r == 0xAC8 then 58656 else 0, s)

abbrev sink : ℕ → ℕ → ℕ → ℕ
sink v r s = s

pxq3pe_irq-Delivered_example :
    (c' : Pxq3peCard) × (s' : ℕ) × (pxq3pe_irq signals sink fresh_card 0 ≡ some (c', s'))
    × Handled fresh_card 4 fresh_receiver (brought signals sink fresh_card 4 true 0) c'
pxq3pe_irq-Delivered_example =
    pxq3pe_irq-Delivered fresh_card 4 fresh_receiver (omega arith)
      (length-replicate {A = ℕ} 234624 0xC7) fresh_card-AllFed refl signals sink 0

-- A packet comes in.
abbrev packet_c7 : List ℕ
packet_c7 = 0xC7 ∷ replicate 187 0

came :
    (q : Pxq3peAdap) × (receive_packet fresh packet_c7 ≡ some q) × IsFed q × Takes fresh packet_c7 q
came = receive_packet_lem fresh packet_c7 fresh-IsFed refl

came-Run : Run idx_default xor_default fresh (packet_c7 ++ []) [] came.0
came-Run =
    Run.packet_in fresh came.0 came.0 packet_c7 [] [] refl (omega arith) came.1 (Run.ended came.0)

Run-cleared_example :
    IsFed came.0
    × ([] ++ cleared idx_default xor_default (held came.0)
        ≡ cleared idx_default xor_default (held fresh ++ (packet_c7 ++ [])))
Run-cleared_example =
    Run-cleared idx_default xor_default fresh came.0 (packet_c7 ++ []) [] fresh-IsFed came-Run

abbrev eight : Pxq3peCard
eight = record fresh_card { adapn = 8 }

pxq3pe_dma-never_off_example :
    pxq3pe_dma signals signals sink sink 0x1000 0 (demod_addr 0) false eight 0 ≡ (pos 0, eight, 0)
pxq3pe_dma-never_off_example =
    pxq3pe_dma-never_off signals signals sink sink 0x1000 0 eight 0 (omega arith) refl

pxq3pe_dma-on_example :
    let (answer, c', _) = pxq3pe_dma signals signals sink sink 0x1000 0 0x18 true eight 0 in
    let port = dma_port (dma_idx 0x18 8) in
    (c'.adap ≡ modify eight.adap 0 emptied)
    × ((answer ≡ pos 0) × (dma_on c' port ≡ true) ⊎ (answer ≡ eio) × (dma_on c' port ≡ false))
pxq3pe_dma-on_example = pxq3pe_dma-on signals signals sink sink 0x1000 0 0x18 eight 0
