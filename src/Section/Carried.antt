-- ===== src/Section/Carried.antt =====
-- That `doSection` of apps/dvb/cmds/section.c hands over a section once its last packet has come.
use ptx.Base.{
  ℕ, ◌+◌, ◌-◌, ◌%◌, ◌^◌, ◌<◌, ◌≤◌, ◌≡◌, refl, ap, sym, ◌∙◌, true, false, ◌||◌, Option, none, some,
  List, [], ◌∷◌, ◌++◌, ◌==◌, ◌=/=◌, ltb, take, drop, length, arith,
}
use ptx.Section.Assemble.{
  Secbuf, packet_byte, has_bit, payload, call, fill_section, start_loop, both, do_section,
}
use ptx.Section.Copy.{copy-some, length-written}
use ptx.Section.Whole.{take-written, take-all}

-- A packet that continues a section: it has a payload and no adaptation field, no error, starts no
-- section, and has the counter `cc`.
pub record Continues (cc : ℕ) (p : List ℕ) : Type 0 where
  pub size : length p ≡ 188
  pub carries : has_bit (packet_byte p 3) 4 ≡ true
  pub no_error : has_bit (packet_byte p 1) 7 ≡ false
  pub no_start : has_bit (packet_byte p 1) 6 ≡ false
  pub no_field : has_bit (packet_byte p 3) 5 ≡ false
  pub counter : packet_byte p 3 % 2 ^ 4 ≡ cc

-- The packets hold what is left of `s` behind its first `cur` bytes, 184 bytes in each but the last.
abbrev pub Carries : List ℕ → ℕ → ℕ → List ℕ → List (List ℕ) → Type 0
Carries s cur cc p [] =
    Continues cc p
    × (length s ≤ cur + 184)
    × (take (length s - cur) (drop 4 p) ≡ take (length s - cur) (drop cur s))
Carries s cur cc p (q ∷ rest) =
    Continues cc p
    × (cur + 184 < length s)
    × (take 184 (drop 4 p) ≡ take 184 (drop cur s))
    × Carries s (cur + 184) ((cc + 1) % 2 ^ 4) q rest

-- The first bytes of `s` are in the buffer, and its length is known.
pub record IsBegun (s : List ℕ) (sec : Secbuf) : Type 0 where
  pub begun : sec.cur < sec.len
  pub all : sec.len ≡ length s
  pub in_step : sec.cc < 2 ^ 4
  pub fits : sec.len ≤ sec.max
  pub full : length sec.buf ≡ sec.max
  pub front : take sec.cur sec.buf ≡ take sec.cur s

module _ {D : Type 0} (cb : List ℕ → D → ℕ × D) where
  -- `doSection` for each packet.
  unfoldable pub run : List (List ℕ) → Secbuf → D → Option (Secbuf × D)
  run [] sec d = some (sec, d)
  run (p ∷ rest) sec d = elim (do_section cb p sec d) [
    | none ↦ none
    | some (ret, sec', d') ↦ run rest sec' d'
  ]

  no_more :
      (p : List ℕ) (b ret : ℕ) (sec : Secbuf) (d : D)
      → start_loop cb 62 p b 0 ret sec d ≡ some (ret, sec, d)
  unfolding start_loop
  no_more p b ret sec d = refl

  do_section-fill :
      (n : ℕ) (p : List ℕ) (sec sec' : Secbuf) (d d' : D) (ret : ℕ)
      → Continues n p
      → fill_section cb p 4 184 sec d ≡ some (true, ret, sec', d')
      → do_section cb p sec d ≡ some (ret, sec', d')
  unfolding do_section both
  do_section-fill n p sec sec' d d' ret c e =
      rw (do_section, c.carries, c.no_error, c.no_start, c.no_field, both, e)
        (no_more p (payload p + (188 - payload p)) ret sec' d')

  abbrev stepped : List ℕ → ℕ → Secbuf → Secbuf
  stepped p n sec = record sec {
    cc = (sec.cc + 1) % 2 ^ 4;
    buf = take sec.cur sec.buf ++ (take n (drop 4 p) ++ drop (sec.cur + n) sec.buf);
  }

  fill-part :
      (s p : List ℕ) (sec : Secbuf) (d : D)
      → IsBegun s sec
      → Continues ((sec.cc + 1) % 2 ^ 4) p
      → sec.cur + 184 < length s
      → fill_section cb p 4 184 sec d
        ≡ some (true, 0, record (stepped p 184 sec) { cur = sec.cur + 184 }, d)
  unfolding fill_section
  fill-part s p sec d h c more =
      let sec1 : Secbuf = record sec { cc = (sec.cc + 1) % 2 ^ 4 } in
      let some_left : ((sec.len == 0) || ltb 0x0f sec.cc) ≡ false =
        ground (arith, h.begun, h.in_step) in
      let fit : (packet_byte p 3 % 2 ^ 4 =/= (sec.cc + 1) % 2 ^ 4) ≡ false =
        ground (arith, c.counter) in
      let part : ltb (sec.cur + 184) sec.len ≡ true = ground (arith, h.all, more) in
      let room : sec.cur + 184 ≤ sec.max = omega (arith, h.all, more, h.fits) in
      rw (fill_section, some_left, fit, part, copy-some p 4 sec.cur 184 sec1 (omega arith) room)
        refl

  fill-last :
      (s p : List ℕ) (sec : Secbuf) (d : D)
      → IsBegun s sec
      → Continues ((sec.cc + 1) % 2 ^ 4) p
      → length s ≤ sec.cur + 184
      → let n = sec.len - sec.cur in
        let (ret, sec', d') = call cb 0 (stepped p n sec) d in
        fill_section cb p 4 184 sec d ≡ some (true, ret, sec', d')
  unfolding fill_section
  fill-last s p sec d h c enough =
      let n = sec.len - sec.cur in
      let sec1 : Secbuf = record sec { cc = (sec.cc + 1) % 2 ^ 4 } in
      let some_left : ((sec.len == 0) || ltb 0x0f sec.cc) ≡ false =
        ground (arith, h.begun, h.in_step) in
      let fit : (packet_byte p 3 % 2 ^ 4 =/= (sec.cc + 1) % 2 ^ 4) ≡ false =
        ground (arith, c.counter) in
      let last : ltb (sec.cur + 184) sec.len ≡ false = ground (arith, h.all, enough) in
      let room : sec.cur + n ≤ sec.max = omega (arith, h.begun, h.fits) in
      let inside : 4 + n ≤ 188 = omega (arith, h.all, enough) in
      rw (fill_section, some_left, fit, last, copy-some p 4 sec.cur n sec1 inside room) refl

  IsBegun-part :
      (s p : List ℕ) (sec : Secbuf)
      → IsBegun s sec
      → length p ≡ 188
      → sec.cur + 184 < length s
      → take 184 (drop 4 p) ≡ take 184 (drop sec.cur s)
      → IsBegun s (record (stepped p 184 sec) { cur = sec.cur + 184 })
  IsBegun-part s p sec h whole more same = record {
    begun = omega (arith, h.all, more);
    all = h.all;
    in_step = omega arith;
    fits = h.fits;
    full =
        length-written p 4 sec.cur 184 sec.buf (omega (arith, whole))
          (omega (arith, h.full, h.all, more, h.fits))
        ∙ h.full;
    front =
        take-written sec.cur 184 sec.buf (take 184 (drop 4 p)) (drop (sec.cur + 184) sec.buf) s
          h.front same (omega (arith, more));
  }

  written_whole :
      (s p : List ℕ) (sec : Secbuf)
      → IsBegun s sec
      → take (length s - sec.cur) (drop 4 p) ≡ take (length s - sec.cur) (drop sec.cur s)
      → take sec.len (stepped p (sec.len - sec.cur) sec).buf ≡ s
  written_whole s p sec h same =
      let n = length s - sec.cur in
      let len : sec.cur + n ≡ length s = omega (arith, h.begun, h.all) in
      let w =
        take-written sec.cur n sec.buf (take n (drop 4 p)) (drop (sec.cur + n) sec.buf) s h.front
          same (omega (arith, len)) in
      rw (h.all) (
        ap (λ k. take k (take sec.cur sec.buf ++ (take n (drop 4 p) ++ drop (sec.cur + n) sec.buf)))
          (sym len)
        ∙ (w ∙ take-all s (sec.cur + n) len))

  -- Where the first bytes of a section are in the buffer, and packets follow in step that carry the
  -- rest of it, 184 bytes in each but the last, and stuffing behind it, the callback is called once, with
  -- exactly the section, and with its data as they were.
  pub run-Carries :
      (s p : List ℕ) (rest : List (List ℕ)) (sec : Secbuf) (d : D)
      → IsBegun s sec
      → Carries s sec.cur ((sec.cc + 1) % 2 ^ 4) p rest
      → (sec' : Secbuf) × (run (p ∷ rest) sec d ≡ some (sec', (cb s d).1))
  unfolding run
  run-Carries s p [] sec d h (c, enough, same) =
      let n = sec.len - sec.cur in
      let e =
        do_section-fill ((sec.cc + 1) % 2 ^ 4) p sec (stepped p n sec) d
          (cb (take sec.len (stepped p n sec).buf) d).1
          (0 + (cb (take sec.len (stepped p n sec).buf) d).0) c (fill-last s p sec d h c enough) in
      (
        stepped p n sec,
        rw (run, e) (ap (λ l. some (stepped p n sec, (cb l d).1)) (written_whole s p sec h same)),
      )
  run-Carries s p (q ∷ rest) sec d h (c, more, same, later) =
      let sec1 : Secbuf = record (stepped p 184 sec) { cur = sec.cur + 184 } in
      let e =
        do_section-fill ((sec.cc + 1) % 2 ^ 4) p sec sec1 d d 0 c (fill-part s p sec d h c more) in
      let ih = run-Carries s q rest sec1 d (IsBegun-part s p sec h c.size more same) later in
      (ih.0, rw (run, e) ih.1)
