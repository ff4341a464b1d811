-- ===== src/Splitter/Tests.antt =====
-- Runs of the functions of apps/cdev/recpt1/tssplitter_lite.c, and the theorems applied at concrete
-- packets.
use ptx.Base.{
  ℕ, zero, suc, ◌+◌, ◌<◌, ◌≤◌, ◌≡◌, ◌⊎◌, refl, true, false, ◌&&◌, ◌||◌, not, Option, none, some,
  List, [], ◌∷◌, ◌++◌, map, arith, ◌==◌, if◌then◌else◌, length, replicate, take, drop,
}
use ptx.Base.Int.{pos}
use ptx.Splitter.Crc.{byte, get_pid, get_crc32, crc_loop, crc_bits, crc_bit, crc_bytes}
use ptx.Splitter.Residue.{get_crc32-append}
use ptx.Splitter.Rebuild.{chosen, max_pid, Program, programs, programs_of, service_at, recreate_pat}
use ptx.Splitter.Rebuilt.{NotNit, seen, original, recreate_pat_lem}
use ptx.Splitter.Sid.{analyze_sid, comma_num}
use ptx.Splitter.State.{TsResult, tss_success, Splitter, split_startup}
use ptx.Splitter.Select.{
  max_services, scan_start, is_nil, scan_pat, analyze_pat, select_all, select_one, verdict, atoi,
  digits_value, same_word, mark, fall_back,
}
use ptx.Splitter.Selected.{marked, analyze_pat-marked}
use ptx.Splitter.Wanted.{wanted, any_met, any_pid, marks-analyze_pat}
use ptx.Splitter.Pmt.{start_section, analyze_pmt}
use ptx.Splitter.Streams.{Stream, encode, mark_streams, analyze_pmt-encode}
use ptx.Splitter.Stall.{any_success, pmt_stall}
use ptx.Splitter.Split.{packets, Progress, split_ts}
use ptx.Splitter.Filter.{filtered, is_pat, continues, split_ts-filtered}

abbrev digits : List ℕ
digits = b'1' ∷ b'2' ∷ b'3' ∷ b'4' ∷ b'5' ∷ b'6' ∷ b'7' ∷ b'8' ∷ b'9' ∷ []

-- The published check value of CRC-32/MPEG-2.
get_crc32-digits : get_crc32 digits 9 ≡ 0x0376e6e7
unfolding get_crc32 crc_loop crc_bits crc_bit
get_crc32-digits = refl

get_crc32-append_example :
    get_crc32
      (digits ++ crc_bytes (get_crc32 digits 9))
      (length (digits ++ crc_bytes (get_crc32 digits 9)))
    ≡ 0
get_crc32-append_example = get_crc32-append digits

-- A PAT with the NIT, service 0x400 on PID 0x101 and service 0x401 on PID 0x1f0.
abbrev pat_packet : List ℕ
pat_packet =
    (0x47 ∷ 0x60 ∷ 0x00 ∷ 0x10 ∷ 0x00 ∷ 0x00 ∷ 0xb0 ∷ 0x15 ∷ 0x7f ∷ 0xe0 ∷ 0xc1 ∷ 0x00 ∷ 0x00 ∷ [])
    ++ (0x00 ∷ 0x00 ∷ 0xe0 ∷ 0x10 ∷ 0x04 ∷ 0x00 ∷ 0xe1 ∷ 0x01 ∷ 0x04 ∷ 0x01 ∷ 0xe1 ∷ 0xf0 ∷ [])

abbrev position : ℕ → ℕ
position j = if j == 0x101 then 17 else 0

chosen-NotNit : (left i : ℕ) → NotNit pat_packet (chosen left i position)
unfolding chosen get_pid
chosen-NotNit zero i = tt
chosen-NotNit (suc left) i = ground (arith, chosen-NotNit left (i + 1))

recreate_pat_lem_example :
    ((recreate_pat pat_packet position ≡ none) × (41 < length (chosen max_pid 0 position)))
    ⊎ ((pat : List ℕ) × (recreate_pat pat_packet position ≡ some pat)
        × (length pat ≡ 188)
        × (get_crc32
              (take (byte pat 7 + 3) (drop 5 pat))
              (length (take (byte pat 7 + 3) (drop 5 pat)))
            ≡ 0)
        × (map seen (programs_of pat) ≡ map (original pat_packet) (chosen max_pid 0 position)))
recreate_pat_lem_example = recreate_pat_lem pat_packet position (chosen-NotNit max_pid 0)

abbrev fresh : Splitter
unfolding split_startup
fresh = split_startup (b'1' ∷ b'0' ∷ b'2' ∷ b'4' ∷ [])

analyze_pat-marked_example :
    let sc = scan_pat 0 fresh.sid_list (programs_of pat_packet) (scan_start fresh) in
    ((analyze_pat 0 true pat_packet fresh ≡ none)
      × ((max_services < length (programs_of pat_packet))
          ⊎ (max_services < sc.retain)
          ⊎ (41 < length (marked max_pid 0 sc.pmt_pids))))
    ⊎ ((length (programs_of pat_packet) ≤ max_services)
        × (sc.retain ≤ max_services)
        × (sp' : Splitter) × (pat : List ℕ) × (analyze_pat 0 true pat_packet fresh
            ≡ some (sp', tss_success))
        × (sp'.pat ≡ some pat)
        × (map (λ (q : ℕ × ℕ). q.1) (map seen (programs_of pat)) ≡ marked max_pid 0 sp'.pmt_pids))
unfolding fresh
analyze_pat-marked_example = analyze_pat-marked 0 pat_packet fresh refl (λ j. refl)

abbrev splitter_of : Option (Splitter × TsResult) → Splitter
splitter_of none = fresh
splitter_of (some (sp, r)) = sp

abbrev analysed : Splitter
analysed = splitter_of (analyze_pat 0 true pat_packet fresh)

analysed_whole : analyze_pat 0 true pat_packet fresh ≡ some (analysed, tss_success)
unfolding analyze_pat fresh split_startup recreate_pat chosen programs_of programs scan_pat
    select_all select_one verdict get_pid service_at mark fall_back analyze_sid comma_num atoi
    digits_value same_word
analysed_whole = refl

-- Of the two programs of the packet the first is kept.
marks-analyze_pat_example :
    let progs = programs_of pat_packet in
    let sids = fresh.sid_list in
    let avail = map (λ (p : Program). p.service_id) progs in
    let nothing = not (is_nil sids) && not (any_met 0 avail sids progs) in
    analysed.pmt_pids 0x101 ≡ (
      if any_pid (λ p. nothing || wanted 0 avail sids p) 0x101 progs
      then 1
      else fresh.pmt_pids 0x101)
unfolding fresh
marks-analyze_pat_example =
    marks-analyze_pat 0 true pat_packet fresh analysed tss_success 0x101 refl analysed_whole

-- A PMT on PID 0x101 with a video and an audio stream.
abbrev two_streams : List Stream
two_streams =
    record { es_type = 0x02; es_pid = 0x111; info = 0x52 ∷ 0x01 ∷ 0x00 ∷ [] }
    ∷ record { es_type = 0x0f; es_pid = 0x112; info = [] }
    ∷ []

abbrev pmt_head : List ℕ
pmt_head =
    0x47 ∷ 0x41 ∷ 0x01 ∷ 0x10 ∷ 0x00 ∷ 0x02 ∷ 0xb0 ∷ 0x1a ∷ 0x04 ∷ 0x00 ∷ 0xc1 ∷ 0x00 ∷ 0x00 ∷ 0xe1
    ∷ 0x00 ∷ 0xf0 ∷ 0x00 ∷ []

abbrev pmt_packet : List ℕ
unfolding encode
pmt_packet = pmt_head ++ (encode two_streams ++ replicate 158 0xff)

analyze_pmt-encode_example :
    let (sp', result) = analyze_pmt pmt_packet 1 fresh in
    let pid = get_pid pmt_packet 1 in
    (result ≡ tss_success)
    × (sp'.section_remain pid ≡ 0)
    × (sp'.pids ≡ mark_streams 1 two_streams (start_section pmt_packet pid 1 fresh).pids)
unfolding encode
analyze_pmt-encode_example =
    analyze_pmt-encode 1 two_streams pmt_head (replicate 158 0xff) pmt_packet fresh refl
      (omega arith, (omega arith, tt)) refl refl refl (omega arith)

-- A section of 253 bytes behind its length field, of 256 with it.
abbrev long_packet : List ℕ
long_packet =
    0x47 ∷ 0x41 ∷ 0x01 ∷ 0x10 ∷ 0x00 ∷ 0x02 ∷ 0xb0 ∷ 0xfd ∷ 0x04 ∷ 0x00 ∷ 0xc1 ∷ 0x00 ∷ 0x00 ∷ 0xe1
    ∷ 0x00 ∷ 0xf0 ∷ 0x00 ∷ []

abbrev next_packet : List ℕ
next_packet = 0x47 ∷ 0x01 ∷ 0x01 ∷ 0x11 ∷ []

pmt_stall_example : any_success 1 (long_packet ∷ next_packet ∷ []) fresh ≡ false
unfolding get_pid
pmt_stall_example =
    pmt_stall 1 long_packet (next_packet ∷ []) fresh refl (omega arith) refl (refl, refl, tt)

-- Two packets: a PAT, and one of the marked PID 0x111.
abbrev running : Splitter
running = record fresh {
  pids = λ j. if j == 0x111 then 1 else 0;
  pat = some pat_packet;
  pmt_retain = pos 0;
  pat_count = 0xff;
}

abbrev two_packets : List ℕ
two_packets =
    (0x47 ∷ 0x60 ∷ 0x00 ∷ 0x10 ∷ replicate 184 0) ++ (0x47 ∷ 0x01 ∷ 0x11 ∷ 0x10 ∷ replicate 184 7)

split_ts-filtered_example :
    (g : Progress) × (split_ts 376 two_packets running
      ≡ some (g, filtered running.pids 0x10 pat_packet 0 (packets 2 two_packets)))
    × (g.result ≡ tss_success)
unfolding packets get_pid fresh
split_ts-filtered_example =
    split_ts-filtered 2 two_packets pat_packet running refl (omega arith) (omega arith) refl
      (is_pat refl, (continues refl, tt))
