-- ===== src/Section/PmtReturns.antt =====
-- That `doPMT` of apps/dvb/cmds/pmt.c returns, whatever the bytes.
use ptx.Base.{
  ℕ, zero, suc, ◌+◌, ◌-◌, ◌*◌, ◌/◌, ◌%◌, ◌^◌, ◌<◌, ◌≤◌, ◌≡◌, ◌⊎◌, refl, ◌||◌, some, List, [], ◌∷◌,
  ◌==◌, ◌=/=◌, ltb, arith, drop, Bool-cases, inl, inr,
}
use ptx.Base.Int.{pos}
use ptx.Splitter.Crc.{byte}
use ptx.Section.Pat.{same_ver}
use ptx.Section.Pmt.{
  Es, Pmt, prog_desc, es_desc, desc_loop, one_es, es_streams, accept_pmt, do_pmt, pid_at,
}

-- A loop over descriptors ends, not before where it began.
desc_loop-ends :
    {S : Type 0} (handle : List ℕ → S → S) (buf : List ℕ) (fuel i n b : ℕ) (s : S)
    → n - i < fuel
    → (b' : ℕ) × (s' : S) × (desc_loop handle buf fuel i n b s ≡ some (b', s')) × (b ≤ b')
unfolding desc_loop
desc_loop-ends handle buf zero i n b s h = absurd (omega (arith, h))
desc_loop-ends handle buf (suc fuel) i n b s h =
    let d = drop b buf in
    let size = byte d 1 + 2 in
    elim (Bool-cases (ltb i n)) [
      | inr over ↦ (b, s, rw (desc_loop, over) refl, omega arith)
      | inl more ↦
          let less : i < n = ground (arith, more) in
          let (b', s', e, later) =
            desc_loop-ends handle buf fuel (i + size) n (b + size) (handle d s)
              (omega (arith, h, less)) in
          (b', s', rw (desc_loop, more) e, omega (arith, later))
    ]

-- The loop over the streams ends.
es_streams-ends :
    (buf : List ℕ) (fuel len b : ℕ) (es : List Es)
    → len - b < fuel
    → (n : ℕ) × (es' : List Es) × (es_streams buf fuel len b es ≡ some (n, es'))
unfolding es_streams one_es
es_streams-ends buf zero len b es h = absurd (omega (arith, h))
es_streams-ends buf (suc fuel) len b [] h = (0, [], refl)
es_streams-ends buf (suc fuel) len b (x ∷ es) h =
    let d = drop b buf in
    let esinfo_len = byte d 3 % 2 ^ 4 + byte d 4 in
    let (b', x', e, later) =
      desc_loop-ends es_desc buf (esinfo_len + 1) 0 esinfo_len (b + 5)
        (record x { es_type = byte d 0; es_pid = pid_at d 1 }) (omega arith) in
    elim (Bool-cases (ltb (b + 4) len)) [
      | inr over ↦ (0, x ∷ es, rw (es_streams, over) refl)
      | inl more ↦
          let less : b + 4 < len = ground (arith, more) in
          let (n, es', e') = es_streams-ends buf fuel len b' es (omega (arith, h, less, later)) in
          (suc n, x' ∷ es', rw (es_streams, more, one_es, e, e') refl)
    ]

accept_pmt-ends :
    (buf : List ℕ) (len ver prog_id : ℕ) (pmt : Pmt)
    → (p : Pmt) × (accept_pmt buf len ver prog_id pmt ≡ some p)
unfolding accept_pmt
accept_pmt-ends buf len ver prog_id pmt =
    let pinfo_len = byte buf 10 % 2 ^ 4 * 2 ^ 8 + byte buf 11 in
    let (b, ecm, e, _) =
      desc_loop-ends prog_desc buf (pinfo_len + 1) 0 pinfo_len 12 pmt.prog_ecm (omega arith) in
    let (n, es, e') = es_streams-ends buf (len + 1) len b pmt.es (omega arith) in
    (
      record {
        ver = pos ver;
        prog_id = prog_id;
        pcr_pid = pid_at buf 8;
        prog_ecm = ecm;
        num_es = n;
        es = es;
      },
      rw (accept_pmt, e, e') refl,
    )

-- Whatever a section holds, `doPMT` returns 0, 1 or 2, and where it does not return 0 it has changed
-- nothing.
pub do_pmt-returns :
    (buf : List ℕ) (pmt : Pmt)
    → (answer : ℕ) × (pmt' : Pmt) × (do_pmt buf pmt ≡ some (answer, pmt'))
      × ((answer ≡ 0) ⊎ (pmt' ≡ pmt) × ((answer ≡ 1) ⊎ (answer ≡ 2)))
unfolding do_pmt
do_pmt-returns buf pmt =
    let len = byte buf 1 % 2 ^ 4 * 2 ^ 8 + byte buf 2 + 3 in
    let prog_id = byte buf 3 * 2 ^ 8 + byte buf 4 in
    let ver = byte buf 5 / 2 ^ 5 % 2 ^ 3 * 2 ^ 4 in
    let (p, e) = accept_pmt-ends buf len ver prog_id pmt in
    elim (Bool-cases ((byte buf 0 =/= 2) || (byte buf 1 % 2 == 1))) [
      | inl bad ↦ (2, pmt, rw (do_pmt, bad) refl, inr (refl, inr refl))
      | inr good ↦
          elim (Bool-cases ((byte buf 5 % 2 == 0) || (byte buf 6 =/= 0) || (byte buf 7 =/= 0))) [
            | inl bad ↦ (2, pmt, rw (do_pmt, good, bad) refl, inr (refl, inr refl))
            | inr current ↦ elim (Bool-cases (same_ver ver pmt.ver)) [
              | inr new ↦ (0, p, rw (do_pmt, good, current, new, e) refl, inl refl)
              | inl old ↦ elim (Bool-cases (prog_id == pmt.prog_id)) [
                | inl same ↦
                    (1, pmt, rw (do_pmt, good, current, old, same) refl, inr (refl, inl refl))
                | inr other ↦
                    (2, pmt, rw (do_pmt, good, current, old, other) refl, inr (refl, inr refl))
              ]
            ]
          ]
    ]
