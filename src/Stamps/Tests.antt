-- ===== src/Stamps/Tests.antt =====
-- Packets for apps/dvb/cmds/fixpcr.c, and the theorems applied to them.
use ptx.Base.{
  ℕ, ◌-◌, ◌*◌, ◌/◌, ◌^◌, ◌<◌, ◌≡◌, refl, true, false, some, List, ◌∷◌, ◌++◌, arith, replicate,
}
use ptx.Stamps.Clock.{pts_threshold, get_pcr, plain_pcr, get_pts, set_pts, get_escr}
use ptx.Stamps.Packet.{
  Stamps, no_pes, pes_of, next, pcr_at, fix_pcr, fix_dts, fix_escr, find_sequence,
}
use ptx.Stamps.Stream.{Ended, start_stamps, fix_stream}
use ptx.Stamps.Sequence.{first_header, find_sequence-first}
use ptx.Stamps.RoundTrip.{Around, escr_at, set_pts_lem, fix_escr-lost}
use ptx.Stamps.Paced.{Paced, fix_pcr-Paced}
use ptx.Stamps.Decoded.{Stamped, step_after, fix_dts-Stamped}
use ptx.Stamps.Ended.{Follow, Through, packets_in, fix_stream-ends}

abbrev at_first : Stamps
at_first = start_stamps (replicate 3 no_pes)

-- A packet whose PCR is 0, where GStreamer has added 6 to its first byte.
abbrev pcr_packet : List ℕ
pcr_packet = 0x47 ∷ 1 ∷ 0 ∷ 0x20 ∷ 7 ∷ 0x10 ∷ 6 ∷ replicate 181 0

-- A video PES with a PTS, a DTS and an ESCR, and a sequence header.
abbrev pes_packet : List ℕ
pes_packet =
    0x47
    ∷ 0x41
    ∷ 0
    ∷ 0x10
    ∷ 0
    ∷ 0
    ∷ 1
    ∷ 0xe0
    ∷ 0
    ∷ 0
    ∷ 0x80
    ∷ 0xe0
    ∷ 17
    ∷ (replicate 16 0xff ++ (0 ∷ 0 ∷ 0 ∷ 1 ∷ 0xb3 ∷ replicate 154 4))

set_pts_lem_example :
    (b : List ℕ) × (set_pts pes_packet 13 0x123456789 ≡ some b)
    × (get_pts b 13 ≡ 0x123456789)
    × Around pes_packet 13 5 b
set_pts_lem_example = set_pts_lem pes_packet 13 0x123456789 (omega arith) (omega arith)

fix_escr-lost_example :
    (b : List ℕ) × (fix_escr pes_packet 4 at_first ≡ next b at_first)
    × (get_escr b (escr_at pes_packet 4) < 2 ^ 13 * 300)
fix_escr-lost_example = fix_escr-lost pes_packet 4 at_first refl (omega arith) refl

find_sequence-first_example :
    find_sequence pes_packet 188 13 ≡ some (first_header pes_packet (181 - 13) 13)
find_sequence-first_example = find_sequence-first pes_packet 188 13 (omega arith) (omega arith)

-- The header begins at the second of the three zeros.
first_header_test : first_header pes_packet 168 13 ≡ some 30
unfolding first_header
first_header_test = refl

get_pcr_test : get_pcr pcr_packet 6 ≡ 0
unfolding get_pcr
get_pcr_test = refl

offset_test : at_first.offset ≡ 0
unfolding start_stamps
offset_test = refl

prev_pcr_test : at_first.prev_pcr ≡ 54000000
unfolding start_stamps
prev_pcr_test = refl

fix_pcr-Paced_example :
    (b : List ℕ) × (new : ℕ) × (offset : ℕ) × (fix_pcr false 0x100 pcr_packet at_first
      ≡ next b (record at_first { offset = offset; prev_pcr = new; pcr_pid = 0x100 }))
    × (plain_pcr b 6 ≡ new)
    × Paced pts_threshold (get_pcr pcr_packet (pcr_at pcr_packet)) at_first.prev_pcr new offset
    × Around pcr_packet 6 6 b
unfolding start_stamps
fix_pcr-Paced_example =
    fix_pcr-Paced false 0x100 pcr_packet at_first (omega arith) refl refl
      (omega (arith, get_pcr_test)) (omega (arith, offset_test)) (omega (arith, prev_pcr_test))

get_pts_test : get_pts pes_packet 18 ≡ 2 ^ 33 - 1
unfolding get_pts
get_pts_test = refl

fix_dts-Stamped_example :
    (b : List ℕ) × (new : ℕ) × (s' : Stamps) × (fix_dts pes_packet 4 35 at_first ≡ next b s')
    × (get_pts b 18 ≡ new / 300)
    × Stamped (get_pts pes_packet 18 * 300) 35 at_first new s'
    × ((pes_of s' 35).step ≡ step_after b 4 (pes_of at_first 35).step)
    × Around pes_packet 18 5 b
unfolding start_stamps
fix_dts-Stamped_example =
    fix_dts-Stamped pes_packet 4 35 at_first refl (omega arith) (omega arith) (omega arith)
      (omega (arith, get_pts_test)) (omega arith) (omega arith) (omega arith)

fix_stream-ends_example :
    (e : Ended) × (out : List (List ℕ)) × (fix_stream false
        (λ _. true)
        400
        (1 ∷ (pcr_packet ++ pes_packet))
        0
        at_first
      ≡ some (e, out))
    × Follow out (packets_in 400 (1 ∷ (pcr_packet ++ pes_packet)))
    × Through e out (packets_in 400 (1 ∷ (pcr_packet ++ pes_packet)))
fix_stream-ends_example =
    fix_stream-ends false (λ _. true) 400 (1 ∷ (pcr_packet ++ pes_packet)) 0 at_first (omega arith)
