-- ===== src/Section/PmtSection.antt =====
-- That `doPMT` of apps/dvb/cmds/pmt.c reads back what a PMT section says.
use ptx.Base.{
  ℕ, zero, suc, ◌+◌, ◌*◌, ◌/◌, ◌%◌, ◌^◌, ◌<◌, ◌≤◌, ◌≡◌, refl, sym, ap, ap₂, ◌∙◌, Bool, true, false,
  ◌&&◌, some, List, [], ◌∷◌, ◌++◌, append_assoc, ◌==◌, ltb, arith, drop, length, length-append,
}
use ptx.Base.Int.{pos}
use ptx.Section.Pat.{same_ver}
use ptx.Section.Pmt.{Es, Pmt, prog_desc, es_desc, desc_loop, one_es, es_streams, accept_pmt, do_pmt}
use ptx.Section.Descriptors.{
  Descriptor, PmtStream, all_desc_bytes, all_whole, apply_descs, desc_loop-reads, prog_desc-whole,
  es_desc-whole, drop-front, both_true,
}

abbrev pub stream_bytes : PmtStream → List ℕ
stream_bytes st =
    let n = length (all_desc_bytes st.descs) in
    st.kind
    ∷ (0xe0 + st.pid / 2 ^ 8)
    ∷ (st.pid % 2 ^ 8)
    ∷ (0xf0 + n / 2 ^ 8)
    ∷ (n % 2 ^ 8)
    ∷ all_desc_bytes st.descs

unfoldable pub all_stream_bytes : List PmtStream → List ℕ
all_stream_bytes [] = []
all_stream_bytes (st ∷ sts) = stream_bytes st ++ all_stream_bytes sts

-- The descriptors of a stream are shorter than 256 bytes, and its PID has 13 bits.
abbrev pub is_short : PmtStream → Bool
is_short st =
    ltb (length (all_desc_bytes st.descs)) (2 ^ 8) && (ltb st.pid (2 ^ 13) && all_whole st.descs)

unfoldable pub all_short : List PmtStream → Bool
all_short [] = true
all_short (st ∷ sts) = is_short st && all_short sts

-- An element of the array, and the array, once the streams are read into them.
abbrev pub stream_of : PmtStream → Es → Es
stream_of st e = apply_descs es_desc st.descs (record e { es_type = st.kind; es_pid = st.pid })

unfoldable pub fills : List PmtStream → List Es → List Es
fills [] es = es
fills (st ∷ sts) [] = []
fills (st ∷ sts) (e ∷ es) = stream_of st e ∷ fills sts es

one_es-reads :
    (st : PmtStream) (pre rest : List ℕ) (b : ℕ) (e : Es)
    → b ≡ length pre
    → is_short st ≡ true
    → one_es (pre ++ (stream_bytes st ++ rest)) b e
      ≡ some (b + length (stream_bytes st), stream_of st e)
unfolding one_es
one_es-reads st pre rest b e at short =
    let n = length (all_desc_bytes st.descs) in
    let five =
      st.kind
      ∷ (0xe0 + st.pid / 2 ^ 8)
      ∷ (st.pid % 2 ^ 8)
      ∷ (0xf0 + n / 2 ^ 8)
      ∷ (n % 2 ^ 8)
      ∷ [] in
    let (few, others) =
      both_true (ltb n (2 ^ 8)) (ltb st.pid (2 ^ 13) && all_whole st.descs) short in
    let (low, whole) = both_true (ltb st.pid (2 ^ 13)) (all_whole st.descs) others in
    let n_low : n < 2 ^ 8 = ground (arith, few) in
    let pid_low : st.pid < 2 ^ 13 = ground (arith, low) in
    let len : (0xf0 + n / 2 ^ 8) % 2 ^ 4 + n % 2 ^ 8 ≡ n = omega (arith, n_low) in
    let id : (0xe0 + st.pid / 2 ^ 8) % 2 ^ 5 * 2 ^ 8 + st.pid % 2 ^ 8 ≡ st.pid =
      omega (arith, pid_low) in
    let buf = pre ++ (stream_bytes st ++ rest) in
    let here : drop b buf ≡ stream_bytes st ++ rest =
      drop-front pre (stream_bytes st ++ rest) b at in
    let join : buf ≡ pre ++ five ++ (all_desc_bytes st.descs ++ rest) =
      sym (append_assoc pre five (all_desc_bytes st.descs ++ rest)) in
    let first : one_es buf b e
        ≡ desc_loop es_desc buf ((0xf0 + n / 2 ^ 8) % 2 ^ 4 + n % 2 ^ 8 + 1) 0
            ((0xf0 + n / 2 ^ 8) % 2 ^ 4 + n % 2 ^ 8) (b + 5)
            (record e {
              es_type = st.kind;
              es_pid = (0xe0 + st.pid / 2 ^ 8) % 2 ^ 5 * 2 ^ 8 + st.pid % 2 ^ 8;
            }) =
      rw (one_es, here) refl in
    first
    ∙ ap₂
        (λ k i.
          desc_loop es_desc buf (k + 1) 0 k (b + 5) (record e { es_type = st.kind; es_pid = i }))
        len id
    ∙ ap
        (λ l.
          desc_loop es_desc l (n + 1) 0 n (b + 5) (record e { es_type = st.kind; es_pid = st.pid }))
        join
    ∙ desc_loop-reads es_desc es_desc-whole st.descs (pre ++ five) rest (n + 1) 0 n (b + 5)
        (record e { es_type = st.kind; es_pid = st.pid })
        (omega (arith, at, length-append pre five)) (omega arith) (omega arith) whole
    ∙ ap (λ m. some (m, stream_of st e)) (omega arith)

es_streams-reads :
    (sts : List PmtStream) (pre crc : List ℕ) (fuel len b : ℕ) (es : List Es)
    → b ≡ length pre
    → length crc ≡ 4
    → len ≡ b + length (all_stream_bytes sts) + 4
    → length sts < fuel
    → length sts ≤ length es
    → all_short sts ≡ true
    → es_streams (pre ++ (all_stream_bytes sts ++ crc)) fuel len b es
      ≡ some (length sts, fills sts es)
unfolding es_streams all_stream_bytes all_short fills
es_streams-reads sts pre crc zero len b es at c e h room short = absurd (omega (arith, h))
es_streams-reads [] pre crc (suc fuel) len b [] at c e h room short = refl
es_streams-reads [] pre crc (suc fuel) len b (x ∷ es) at c e h room short =
    let over : ltb (b + 4) len ≡ false = ground (arith, e) in rw (es_streams, over) refl
es_streams-reads (st ∷ sts) pre crc (suc fuel) len b [] at c e h room short =
    absurd (omega (arith, room))
es_streams-reads (st ∷ sts) pre crc (suc fuel) len b (x ∷ es) at c e h room short =
    let later = all_stream_bytes sts ++ crc in
    let (first, others) = both_true (is_short st) (all_short sts) short in
    let total = length-append (stream_bytes st) (all_stream_bytes sts) in
    let b' = b + length (stream_bytes st) in
    let more : ltb (b + 4) len ≡ true = ground (arith, e, total) in
    let regroup : pre ++ ((stream_bytes st ++ all_stream_bytes sts) ++ crc)
        ≡ pre ++ (stream_bytes st ++ later) =
      ap (λ l. pre ++ l) (append_assoc (stream_bytes st) (all_stream_bytes sts) crc) in
    let join : pre ++ (stream_bytes st ++ later) ≡ pre ++ stream_bytes st ++ later =
      sym (append_assoc pre (stream_bytes st) later) in
    let read = one_es-reads st pre later b x at first in
    let ih : es_streams (pre ++ (stream_bytes st ++ later)) fuel len b' es
        ≡ some (length sts, fills sts es) =
      ap (λ l. es_streams l fuel len b' es) join
      ∙ es_streams-reads sts (pre ++ stream_bytes st) crc fuel len b' es
          (omega (arith, at, length-append pre (stream_bytes st))) c (omega (arith, e, total))
          (omega (arith, h)) (omega (arith, room)) others in
    ap (λ l. es_streams l (suc fuel) len b (x ∷ es)) regroup ∙ rw (es_streams, more, read, ih) refl

length-streams : (sts : List PmtStream) → length sts ≤ length (all_stream_bytes sts)
unfolding all_stream_bytes
length-streams [] = omega arith
length-streams (st ∷ sts) =
    omega (arith, length-streams sts, length-append (stream_bytes st) (all_stream_bytes sts))

-- A PMT section: its header with the byte that holds the version, the descriptors of the programme,
-- its streams, and four bytes that are not read.
module _ (ver_byte prog_id pcr_pid : ℕ) (pds : List Descriptor) (sts : List PmtStream)
    (crc : List ℕ) where
  abbrev pub section_len : ℕ
  section_len = 9 + length (all_desc_bytes pds) + length (all_stream_bytes sts) + 4

  abbrev pub pmt_header : List ℕ
  pmt_header =
      let n = section_len in
      let m = length (all_desc_bytes pds) in
      2
      ∷ (0xb0 + n / 2 ^ 8)
      ∷ (n % 2 ^ 8)
      ∷ (prog_id / 2 ^ 8)
      ∷ (prog_id % 2 ^ 8)
      ∷ ver_byte
      ∷ 0
      ∷ 0
      ∷ (0xe0 + pcr_pid / 2 ^ 8)
      ∷ (pcr_pid % 2 ^ 8)
      ∷ (0xf0 + m / 2 ^ 8)
      ∷ (m % 2 ^ 8)
      ∷ []

  abbrev pub pmt_section : List ℕ
  pmt_section = pmt_header ++ (all_desc_bytes pds ++ (all_stream_bytes sts ++ crc))

  -- The version as the code keeps it.
  abbrev pub kept_ver : ℕ
  kept_ver = ver_byte / 2 ^ 5 % 2 ^ 3 * 2 ^ 4

  -- What the section says, read into a structure.
  abbrev pub as_read : Pmt → Pmt
  as_read pmt = record {
    ver = pos kept_ver;
    prog_id = prog_id;
    pcr_pid = pcr_pid;
    prog_ecm = apply_descs prog_desc pds pmt.prog_ecm;
    num_es = length sts;
    es = fills sts pmt.es;
  }

  accept_pmt-section :
      (pmt : Pmt)
      → length crc ≡ 4
      → section_len < 2 ^ 12
      → pcr_pid < 2 ^ 13
      → all_whole pds ≡ true
      → all_short sts ≡ true
      → length sts ≤ length pmt.es
      → accept_pmt pmt_section (section_len + 3) kept_ver prog_id pmt ≡ some (as_read pmt)
  unfolding accept_pmt all_stream_bytes
  accept_pmt-section pmt c small pcr whole short room =
      let m = length (all_desc_bytes pds) in
      let after = all_stream_bytes sts ++ crc in
      let len : (0xf0 + m / 2 ^ 8) % 2 ^ 4 * 2 ^ 8 + m % 2 ^ 8 ≡ m = omega (arith, small) in
      let id : (0xe0 + pcr_pid / 2 ^ 8) % 2 ^ 5 * 2 ^ 8 + pcr_pid % 2 ^ 8 ≡ pcr_pid =
        omega (arith, pcr) in
      let descs =
        desc_loop-reads prog_desc prog_desc-whole pds pmt_header after (m + 1) 0 m 12 pmt.prog_ecm
          refl (omega arith) (omega arith) whole in
      let join : pmt_section ≡ pmt_header ++ all_desc_bytes pds ++ after =
        sym (append_assoc pmt_header (all_desc_bytes pds) after) in
      let streams : es_streams pmt_section (section_len + 3 + 1) (section_len + 3) (12 + m) pmt.es
          ≡ some (length sts, fills sts pmt.es) =
        ap (λ l. es_streams l (section_len + 3 + 1) (section_len + 3) (12 + m) pmt.es) join
        ∙ es_streams-reads sts (pmt_header ++ all_desc_bytes pds) crc (section_len + 3 + 1)
            (section_len + 3) (12 + m) pmt.es
            (omega (arith, length-append pmt_header (all_desc_bytes pds))) c (omega arith)
            (omega (arith, length-streams sts)) room short in
      rw (accept_pmt, len, descs, streams, id) refl

  pub do_pmt-pmt_section :
      (pmt : Pmt)
      → length crc ≡ 4
      → section_len < 2 ^ 12
      → section_len / 2 ^ 8 % 2 ≡ 0
      → prog_id < 2 ^ 16
      → pcr_pid < 2 ^ 13
      → ver_byte % 2 ≡ 1
      → same_ver kept_ver pmt.ver ≡ false
      → all_whole pds ≡ true
      → all_short sts ≡ true
      → length sts ≤ length pmt.es
      → do_pmt pmt_section pmt ≡ some (0, as_read pmt)
  unfolding do_pmt
  do_pmt-pmt_section pmt c small even prog pcr current new whole short room =
      let n = section_len in
      let header : ((0xb0 + n / 2 ^ 8) % 2 == 1) ≡ false = ground (arith, even) in
      let applies : (ver_byte % 2 == 0) ≡ false = ground (arith, current) in
      let len : (0xb0 + n / 2 ^ 8) % 2 ^ 4 * 2 ^ 8 + n % 2 ^ 8 + 3 ≡ n + 3 = omega (arith, small) in
      let id : prog_id / 2 ^ 8 * 2 ^ 8 + prog_id % 2 ^ 8 ≡ prog_id = omega arith in
      let read = accept_pmt-section pmt c small pcr whole short room in
      rw (do_pmt, header, applies, new, len, id, read) refl
