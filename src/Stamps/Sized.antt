-- ===== src/Stamps/Sized.antt =====
-- That apps/dvb/cmds/fixpcr.c ends, and writes the packets that it reads, with other time stamps.
use ptx.Base.{
  ℕ, ◌+◌, ◌-◌, ◌*◌, ◌/◌, ◌%◌, ◌^◌, ◌≤◌, ◌≡◌, inl, inr, refl, ◌∙◌, Bool, not, ◌&&◌, ◌||◌, none, some,
  Option, List, ◌==◌, ◌=/=◌, ltb, leb, if◌then◌else◌, arith, length, take, memcpy, length-memcpy,
  take-memcpy, if-both, Bool-cases, Option-cases, get_or,
}
use ptx.Splitter.Crc.{byte, get_pid}
use ptx.Stamps.Clock.{
  set_pts, pts_bytes, pcr_bytes, escr_bytes, get_pcr, get_pts, get_escr, pts_diff,
}
use ptx.Stamps.Packet.{
  Stamps, PacketOutcome, bailout, overrun, stuck, next, fix_pcr, shift_pcr, shift_pes, set_step,
  fix_rate, fix_dts, fix_pts, fix_escr, fix_pes, fix_packet, and_then, has_pts, has_dts, has_pcr,
  pcr_at, sr_steps, is_aac,
}
use ptx.Stamps.Sequence.{first_header, find_sequence-first}

-- What goes on is as long as the packet and has its header, and no search runs out of rounds.
unfoldable pub Kept : List ℕ → PacketOutcome → Type 0
Kept packet bailout = Unit
Kept packet overrun = Unit
Kept packet stuck = 1 ≤ 0
Kept packet (next b s) = (length b ≡ length packet) × (take 4 b ≡ take 4 packet)

-- The same for the bytes alone.
abbrev pub Same : List ℕ → List ℕ → Type 0
Same packet b = (length b ≡ length packet) × (take 4 b ≡ take 4 packet)

memcpy-Same :
    (packet buf : List ℕ) (i : ℕ) (src b : List ℕ)
    → 4 ≤ i
    → Same packet buf
    → memcpy buf i src ≡ some b
    → Same packet b
memcpy-Same packet buf i src b h (len, head) e =
    (length-memcpy buf i src b e ∙ len, take-memcpy buf i 4 src b h e ∙ head)

set_pts-Same :
    (packet buf : List ℕ) (p val : ℕ) (b : List ℕ)
    → 4 ≤ p
    → Same packet buf
    → set_pts buf p val ≡ some b
    → Same packet b
unfolding set_pts
set_pts-Same packet buf p val b h same e =
    memcpy-Same packet buf p (pts_bytes (byte buf p) val) b h same e

stay : (packet buf : List ℕ) (s : Stamps) → Same packet buf → Kept packet (next buf s)
unfolding Kept
stay packet buf s h = h

written-Kept :
    (packet : List ℕ) (o : Option (List ℕ)) (f : List ℕ → PacketOutcome)
    → ((b : List ℕ) → o ≡ some b → Kept packet (f b))
    → Kept packet (elim o [ none ↦ overrun | some b ↦ f b ])
unfolding Kept
written-Kept packet none f h = tt
written-Kept packet (some b) f h = h b refl

and_then-Kept :
    (packet : List ℕ) (o : PacketOutcome) (f : List ℕ → Stamps → PacketOutcome)
    → Kept packet o
    → ((b : List ℕ) (s : Stamps) → Same packet b → Kept packet (f b s))
    → Kept packet (and_then o f)
unfolding Kept
and_then-Kept packet bailout f h k = tt
and_then-Kept packet overrun f h k = tt
and_then-Kept packet stuck f h k = h
and_then-Kept packet (next b s) f h k = k b s h

fix_pcr-Kept :
    (packet : List ℕ) (force : Bool) (pid : ℕ) (buf : List ℕ) (s : Stamps)
    → Same packet buf
    → Kept packet (fix_pcr force pid buf s)
unfolding fix_pcr Kept
fix_pcr-Kept packet force pid buf s h =
    let (new, s') = shift_pcr (get_pcr buf (pcr_at buf)) (record s { pcr_pid = pid }) in
    let write = memcpy buf 6 (pcr_bytes new) in
    let refused = (s.pcr_pid =/= 0x2000) && (pid =/= s.pcr_pid) && not force in
    let after : PacketOutcome = elim write [ none ↦ overrun | some b ↦ next b s' ] in
    if-both (Kept packet) (has_pcr buf) (if refused then bailout else after) (next buf s)
      (λ _.
        if-both (Kept packet) refused bailout after (λ _. tt)
          (λ _.
            written-Kept packet write (λ b. next b s')
              (λ b e. memcpy-Same packet buf 6 (pcr_bytes new) b (omega arith) h e)))
      (λ _. h)

fix_rate-Kept :
    (packet buf : List ℕ) (p st : ℕ) (s : Stamps)
    → Same packet buf
    → Kept packet (fix_rate buf p st s)
unfolding fix_rate Kept
fix_rate-Kept packet buf p st s h =
    let j = p + (9 + byte buf (p + 8)) in
    let found = find_sequence-first buf 188 j (omega arith) (omega arith) in
    elim (Option-cases (first_header buf (181 - j) j)) [
      | inl no_header ↦ rw (fix_rate, found, no_header) h
      | inr (k, header) ↦ rw (fix_rate, found, header) h
    ]

fix_dts-Kept :
    (packet buf : List ℕ) (p st : ℕ) (s : Stamps)
    → Same packet buf
    → Kept packet (fix_dts buf p st s)
unfolding fix_dts
fix_dts-Kept packet buf p st s h =
    let (new, s') = shift_pes (leb 3 st) (get_pts buf (p + 14) * 300) st s in
    let write = set_pts buf (p + 14) (new / 300) in
    if-both (Kept packet) (has_dts buf p)
      (elim write [ none ↦ overrun | some b ↦ if leb 35 st then fix_rate b p st s' else next b s' ])
      (next buf s)
      (λ _.
        written-Kept packet write (λ b. if leb 35 st then fix_rate b p st s' else next b s')
          (λ b e.
            let same = set_pts-Same packet buf (p + 14) (new / 300) b (omega arith) h e in
            if-both (Kept packet) (leb 35 st) (fix_rate b p st s') (next b s')
              (λ _. fix_rate-Kept packet b p st s' same) (λ _. stay packet b s' same)))
      (λ _. stay packet buf s h)

fix_pts-Kept :
    (packet buf : List ℕ) (p st : ℕ) (s : Stamps)
    → Same packet buf
    → Kept packet (fix_pts buf p st s)
unfolding fix_pts
fix_pts-Kept packet buf p st s h =
    let dts = has_dts buf p in
    let (new, s') = shift_pes (leb 3 st && not dts) (get_pts buf (p + 9) * 300) st s in
    let q = p + (9 + byte buf (p + 8)) in
    elim (Bool-cases (has_pts buf p)) [
      | inr without ↦ rw (fix_pts, without) (stay packet buf s h)
      | inl has ↦
          rw (fix_pts, has)
            (written-Kept packet (set_pts buf (p + 9) (new / 300)) _ (λ b e.
              let same = set_pts-Same packet buf (p + 9) (new / 300) b (omega arith) h e in
              if-both (Kept packet) (leb 3 st && ltb st 35 && is_aac b q)
                (next b (set_step st (get_or sr_steps (byte b (q + 2) / 2 ^ 2 % 2 ^ 4) 0) s'))
                (if leb 35 st && not dts then fix_rate b p st s' else next b s')
                (λ _.
                  stay packet b
                    (set_step st (get_or sr_steps (byte b (q + 2) / 2 ^ 2 % 2 ^ 4) 0) s') same)
                (λ _.
                  if-both (Kept packet) (leb 35 st && not dts) (fix_rate b p st s') (next b s')
                    (λ _. fix_rate-Kept packet b p st s' same) (λ _. stay packet b s' same))))
    ]

fix_escr-Kept :
    (packet buf : List ℕ) (p : ℕ) (s : Stamps) → Same packet buf → Kept packet (fix_escr buf p s)
unfolding fix_escr
fix_escr-Kept packet buf p s h =
    let q = p + 9 + (if has_pts buf p then 5 else 0) + (if has_dts buf p then 5 else 0) in
    let src = escr_bytes (pts_diff (get_escr buf q) s.offset) in
    let after : PacketOutcome = elim (memcpy buf q src) [ none ↦ overrun | some b ↦ next b s ] in
    let same = stay packet buf s h in
    if-both (Kept packet) (not (byte buf (p + 7) / 2 ^ 5 % 2 == 1)) (next buf s)
      (if leb 188 (q + 6) then next buf s else after) (λ _. same)
      (λ _.
        if-both (Kept packet) (leb 188 (q + 6)) (next buf s) after (λ _. same)
          (λ _.
            written-Kept packet (memcpy buf q src) (λ b. next b s)
              (λ b e. stay packet b s (memcpy-Same packet buf q src b (omega arith) h e))))

fix_pes-Kept : (packet buf : List ℕ) (s : Stamps) → Same packet buf → Kept packet (fix_pes buf s)
unfolding fix_pes
fix_pes-Kept packet buf s h =
    let p = if byte buf 3 / 2 ^ 5 % 2 == 1 then 4 + (byte buf 4 + 1) else 4 in
    let id = byte buf (p + 3) in
    let st = id - 0xbd in
    let same = stay packet buf s h in
    let all =
      and_then-Kept packet (fix_dts buf p st s) _ (fix_dts-Kept packet buf p st s h) (λ b1 s1 h1.
        and_then-Kept packet (fix_pts b1 p st s1) _ (fix_pts-Kept packet b1 p st s1 h1)
          (λ b2 s2 h2. fix_escr-Kept packet b2 p s2 h2)) in
    if-both (Kept packet) ((byte buf 1 / 2 ^ 6 % 2 == 0) || (byte buf 3 / 2 ^ 4 % 2 == 0))
      (next buf s) _ (λ _. same)
      (λ _.
        if-both (Kept packet) (leb 188 (p + 14)) (next buf s) _ (λ _. same)
          (λ _.
            if-both (Kept packet)
              ((byte buf p =/= 0) || (byte buf (p + 1) =/= 0) || (byte buf (p + 2) =/= 1))
              (next buf s) _ (λ _. same)
              (λ _.
                if-both (Kept packet) ((id =/= 0xbd) && (ltb id 0xbf || ltb 0xef id)) (next buf s) _
                  (λ _. same) (λ _. all))))

pub fix_packet-Kept :
    (force : Bool) (packet : List ℕ) (s : Stamps) → Kept packet (fix_packet force packet s)
unfolding fix_packet
fix_packet-Kept force packet s =
    let pid = get_pid packet 1 in
    let own : Same packet packet = (refl, refl) in
    if-both (Kept packet) (ltb pid 0x30 || (pid == 0x1fff) || (byte packet 1 / 2 ^ 7 % 2 == 1))
      (next packet s) _ (λ _. stay packet packet s own)
      (λ _.
        and_then-Kept packet (fix_pcr force pid packet s) fix_pes
          (fix_pcr-Kept packet force pid packet s own) (λ b t h'. fix_pes-Kept packet b t h'))
