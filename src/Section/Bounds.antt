-- ===== src/Section/Bounds.antt =====
-- That `doSection` of apps/dvb/cmds/section.c stays inside its buffer and the packet.
use ptx.Base.{
  ℕ, zero, suc, ◌+◌, ◌-◌, ◌*◌, ◌%◌, ◌^◌, ◌≤◌, ◌≡◌, refl, ◌∙◌, Bool, true, false, ◌||◌, not, Option,
  some, List, ◌++◌, ◌==◌, ◌=/=◌, ltb, leb, if◌then◌else◌, take, drop, length, arith, Bool-cases,
  inl, inr,
}
use ptx.Section.Assemble.{
  Secbuf, packet_byte, has_bit, payload, call, fill_section, start_loop, both, do_section,
}
use ptx.Section.Copy.{copy-some, length-written}

-- What is filled is within the section, and the section within the buffer.
pub record IsWell (m : ℕ) (sec : Secbuf) : Type 0 where
  pub within : sec.cur ≤ sec.len
  pub fits : sec.len ≤ sec.max
  pub size : sec.max ≡ m
  pub full : length sec.buf ≡ sec.max

module _ {D : Type 0} (cb : List ℕ → D → ℕ × D) (m : ℕ) (packet : List ℕ)
    (whole : length packet ≡ 188) where
  abbrev Done : Option (ℕ × Secbuf × D) → Type 0
  Done r = (ret : ℕ) × (sec : Secbuf) × (d : D) × (r ≡ some (ret, sec, d)) × IsWell m sec

  abbrev written : ℕ → ℕ → ℕ → Secbuf → Secbuf
  written b to n sec = record sec {
    buf = take to sec.buf ++ (take n (drop b packet) ++ drop (to + n) sec.buf);
  }

  fill_section-IsWell :
      (b len : ℕ) (sec : Secbuf) (d : D)
      → b + len ≤ 188
      → IsWell m sec
      → (more : Bool) × (ret : ℕ) × (sec' : Secbuf) × (d' : D) × (fill_section cb packet b len sec d
          ≡ some (more, ret, sec', d'))
        × IsWell m sec'
  unfolding fill_section
  fill_section-IsWell b len sec d h w =
      elim (Bool-cases ((len == 0) || (sec.len == 0) || ltb 0x0f sec.cc)) [
        | inl skip ↦ (true, 0, sec, d, rw (skip, fill_section) refl, w)
        | inr go ↦ elim (Bool-cases (packet_byte packet 3 % 2 ^ 4 =/= (sec.cc + 1) % 2 ^ 4)) [
          | inl gap ↦ (
            false,
            1,
            record sec { cc = 0x20 },
            d,
            rw (go, gap, fill_section) refl,
            record { within = w.within; fits = w.fits; size = w.size; full = w.full },
          )
          | inr fit ↦
              let sec1 : Secbuf = record sec { cc = (sec.cc + 1) % 2 ^ 4 } in
              elim (Bool-cases (ltb (sec.cur + len) sec.len)) [
                | inl part ↦
                    let sec2 = written b sec.cur len sec1 in
                    let room : sec.cur + len ≤ sec.max = ground (arith, part, w.fits) in
                    (
                      true,
                      0,
                      record sec2 { cur = sec.cur + len },
                      d,
                      rw (go, fit, part, fill_section, copy-some packet b sec.cur len sec1 h room)
                          refl,
                      record {
                        within = ground (arith, part);
                        fits = w.fits;
                        size = w.size;
                        full =
                            length-written packet b sec.cur len sec.buf (omega (arith, h, whole))
                              (omega (arith, room, w.full))
                            ∙ w.full;
                      },
                    )
                | inr last ↦
                    let n = sec.len - sec.cur in
                    let sec2 = written b sec.cur n sec1 in
                    let some_left : b + n ≤ 188 = ground (arith, last, h) in
                    let room : sec.cur + n ≤ sec.max = omega (arith, w.within, w.fits) in
                    let (r, sec3, d') = call cb 0 sec2 d in
                    (
                      true,
                      r,
                      sec3,
                      d',
                      rw
                          (
                            go,
                            fit,
                            last,
                            fill_section,
                            copy-some packet b sec.cur n sec1 some_left room,
                          )
                          refl,
                      record {
                        within = w.within;
                        fits = w.fits;
                        size = w.size;
                        full =
                            length-written packet b sec.cur n sec.buf
                              (omega (arith, some_left, whole)) (omega (arith, room, w.full))
                            ∙ w.full;
                      },
                    )
              ]
        ]
      ]

  start_loop-IsWell :
      (fuel b nlen ret : ℕ) (sec : Secbuf) (d : D)
      → b + nlen ≤ 188
      → IsWell m sec
      → Done (start_loop cb fuel packet b nlen ret sec d)
  unfolding start_loop
  start_loop-IsWell zero b nlen ret sec d h w = (ret, sec, d, refl, w)
  start_loop-IsWell (suc fuel) b nlen ret sec d h w =
      let size = packet_byte packet (b + 1) % 2 ^ 4 * 2 ^ 8 + packet_byte packet (b + 2) + 3 in
      let sec1 : Secbuf = record sec { len = size; cur = 0; cc = packet_byte packet 3 % 2 ^ 4 } in
      elim (Bool-cases (ltb nlen 3 || (packet_byte packet b == 0xff))) [
        | inl end ↦ (ret, sec, d, rw (end, start_loop) refl, w)
        | inr go ↦
            let header : ltb 188 (b + 3) ≡ false = ground (arith, go, h) in
            elim (Bool-cases (ltb sec.max size)) [
              | inl long ↦ (
                ret,
                record sec1 { len = 0 },
                d,
                rw (go, header, long, start_loop) refl,
                record { within = omega arith; fits = omega arith; size = w.size; full = w.full },
              )
              | inr short ↦ elim (Bool-cases (ltb nlen size)) [
                | inl part ↦
                    let sec2 = written b 0 nlen sec1 in
                    let room : 0 + nlen ≤ sec.max = ground (arith, part, short) in
                    (
                      ret,
                      record sec2 { cur = nlen },
                      d,
                      rw
                          (
                            go,
                            header,
                            short,
                            part,
                            start_loop,
                            copy-some packet b 0 nlen sec1 h room,
                          )
                          refl,
                      record {
                        within = ground (arith, part);
                        fits = ground (arith, short);
                        size = w.size;
                        full =
                            length-written packet b 0 nlen sec.buf (omega (arith, h, whole))
                              (omega (arith, room, w.full))
                            ∙ w.full;
                      },
                    )
                | inr all ↦
                    let sec2 = written b 0 size sec1 in
                    let room : 0 + size ≤ sec.max = ground (arith, short) in
                    let inside : b + size ≤ 188 = ground (arith, all, h) in
                    let (ret', sec3, d') = call cb ret sec2 d in
                    let w3 : IsWell m sec3 = record {
                      within = omega arith;
                      fits = omega (arith, room);
                      size = w.size;
                      full =
                          length-written packet b 0 size sec.buf (omega (arith, inside, whole))
                            (omega (arith, room, w.full))
                          ∙ w.full;
                    } in
                    rw
                      (
                        go,
                        header,
                        short,
                        all,
                        start_loop,
                        copy-some packet b 0 size sec1 inside room,
                      )
                      (start_loop-IsWell fuel (b + size) (nlen - size) ret' sec3 d'
                        (ground (arith, all, h)) w3)
              ]
            ]
      ]

  both-IsWell :
      (b len nlen : ℕ) (sec : Secbuf) (d : D)
      → b + len + nlen ≤ 188
      → IsWell m sec
      → Done (both cb packet b len nlen sec d)
  unfolding both
  both-IsWell b len nlen sec d h w =
      let (more, ret, sec', d', e, w') = fill_section-IsWell b len sec d (omega (arith, h)) w in
      elim (Bool-cases more) [
        | inl on ↦ rw (e, both, on) (start_loop-IsWell 62 (b + len) nlen ret sec' d' h w')
        | inr off ↦ (ret, sec', d', rw (e, both, off) refl, w')
      ]

-- The payload is within the packet, and so is the part of it that the pointer leads over.
abbrev pub IsSound : List ℕ → Type 0
IsSound packet =
    payload packet
      + (if has_bit (packet_byte packet 1) 6 then 1 + packet_byte packet (payload packet) else 0)
    ≤ 188

-- A packet of 188 bytes whose payload and pointer are within it never makes the code read behind
-- it or write behind the buffer of the section, whatever lengths its sections state; and what is
-- filled stays within the section, and the section within the buffer.
pub do_section-IsWell :
    {D : Type 0}
    → (cb : List ℕ → D → ℕ × D) (m : ℕ) (packet : List ℕ) (sec : Secbuf) (d : D)
    → length packet ≡ 188
    → IsSound packet
    → IsWell m sec
    → (ret : ℕ) × (sec' : Secbuf) × (d' : D) × (do_section cb packet sec d ≡ some (ret, sec', d'))
      × IsWell m sec'
unfolding do_section
do_section-IsWell cb m packet sec d whole sound w =
    let b = payload packet in
    elim (Bool-cases (not (has_bit (packet_byte packet 3) 4) || has_bit (packet_byte packet 1) 7)) [
      | inl skip ↦ (0, sec, d, rw (do_section, skip) refl, w)
      | inr go ↦ elim (Bool-cases (has_bit (packet_byte packet 1) 6)) [
        | inl pusi ↦
            let inside : b + (1 + packet_byte packet b) ≤ 188 = rw pusi at sound in
            let in_packet : ltb b 188 ≡ true = ground (arith, inside) in
            rw (do_section, go, pusi, in_packet)
              (both-IsWell cb m packet whole (b + 1) (packet_byte packet b)
                (188 - b - (packet_byte packet b + 1)) sec d (omega (arith, inside)) w)
        | inr rest ↦
            let inside : b + 0 ≤ 188 = rw rest at sound in
            let in_packet : leb b 188 ≡ true = ground (arith, inside) in
            rw (do_section, go, rest, in_packet)
              (both-IsWell cb m packet whole b (188 - b) 0 sec d (omega (arith, inside)) w)
      ]
    ]
