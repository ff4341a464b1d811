-- ===== src/Splitter/Streams.antt =====
-- The loop of `AnalyzePmt` (apps/cdev/recpt1/tssplitter_lite.c) over a list of streams, written as
-- a PMT writes it.
use ptx.Base.{
  ℕ, zero, suc, ◌+◌, ◌*◌, ◌/◌, ◌%◌, ◌^◌, ◌<◌, ◌≤◌, ◌≡◌, ap, ◌∙◌, true, false, List, [], ◌∷◌, ◌++◌,
  append_assoc, arith, ◌==◌, if◌then◌else◌, length, length-append, leb,
}
use ptx.Splitter.Crc.{byte, get_pid}
use ptx.Splitter.Rebuilt.{byte-append}
use ptx.Splitter.State.{Splitter, tss_success, update}
use ptx.Splitter.Pmt.{
  es_loop, u8, info_end, length12, starts, start_section, n_all, scan_streams, analyze_pmt,
}

-- A stream of a PMT: its type, its PID, and its descriptors.
pub record Stream : Type 0 where
  pub es_type : ℕ
  pub es_pid : ℕ
  pub info : List ℕ

abbrev pub stream_head : Stream → List ℕ
stream_head s =
    s.es_type
    ∷ (0xe0 + s.es_pid / 2 ^ 8)
    ∷ (s.es_pid % 2 ^ 8)
    ∷ (0xf0 + length s.info / 2 ^ 8)
    ∷ (length s.info % 2 ^ 8)
    ∷ []

unfoldable pub encode : List Stream → List ℕ
encode [] = []
encode (s ∷ rest) = stream_head s ++ (s.info ++ encode rest)

abbrev pub AllPids : List Stream → Type 0
AllPids [] = Unit
AllPids (s ∷ rest) = (s.es_pid < 2 ^ 13) × AllPids rest

-- The marks after the streams: each PID but those of streams of type 0x0d.
unfoldable pub mark_streams : ℕ → List Stream → (ℕ → ℕ) → ℕ → ℕ
mark_streams mark [] pids = pids
mark_streams mark (s ∷ rest) pids =
    mark_streams mark rest (if s.es_type == 0x0d then pids else update pids s.es_pid mark)

-- What the loop reads of a stream that stands behind `pre`.
module _ (s : Stream) (pre tail : List ℕ) (n : ℕ) (e : n ≡ length pre) where
  abbrev at : List ℕ
  at = pre ++ (stream_head s ++ tail)

  type-at : byte at n ≡ s.es_type
  type-at = byte-append pre (stream_head s ++ tail) 0 n (omega arith)

  pid-at : s.es_pid < 2 ^ 13 → get_pid at (n + 1) ≡ s.es_pid
  unfolding get_pid
  pid-at h =
      rw
        (
          byte-append pre (stream_head s ++ tail) 1 (n + 1) (omega arith),
          byte-append pre (stream_head s ++ tail) 2 (n + 1 + 1) (omega arith),
        )
        (omega arith)

  next-at :
      n + 5 + length s.info < 200
      → u8 (n + 4 + byte at (n + 3) % 2 ^ 4 * 2 ^ 8 + byte at (n + 4) + 1) ≡ n + 5 + length s.info
  next-at h =
      rw
        (
          byte-append pre (stream_head s ++ tail) 3 (n + 3) (omega arith),
          byte-append pre (stream_head s ++ tail) 4 (n + 4) (omega arith),
        )
        (omega arith)

regroup :
    (pre hd info enc rest : List ℕ)
    → pre ++ (hd ++ ((info ++ enc) ++ rest)) ≡ ((pre ++ hd) ++ info) ++ (enc ++ rest)
regroup pre hd info enc rest = simp append_assoc

length-encode : (ss : List Stream) → length ss * 5 ≤ length (encode ss)
unfolding encode
length-encode [] = omega arith
length-encode (s ∷ ss) = omega (arith, length-append s.info (encode ss), length-encode ss)

remain-start :
    (buf : List ℕ) (pid mark : ℕ) (sp : Splitter)
    → length12 buf 6 + 3 < 2 ^ 16
    → (start_section buf pid mark sp).section_remain pid ≡ length12 buf 6 + 3
unfolding start_section
remain-start buf pid mark sp h = ground arith

n_all-fits : (remain : ℕ) → remain ≤ 183 → n_all remain 5 ≡ remain
unfolding n_all
n_all-fits remain h = ground arith

module _ (mark : ℕ) where
  es_loop-encode :
      (ss : List Stream) (left : ℕ) (pre rest : List ℕ) (last n : ℕ) (pids : ℕ → ℕ)
      → AllPids ss
      → n ≡ length pre
      → n + length (encode ss) + 4 ≡ last
      → last < 200
      → length ss < left
      → es_loop left (pre ++ (encode ss ++ rest)) last n mark pids
        ≡ (true, mark_streams mark ss pids)
  unfolding es_loop encode mark_streams
  es_loop-encode ss zero pre rest last n pids p e l b f = absurd (omega arith)
  es_loop-encode [] (suc left) pre rest last n pids p e l b f =
      let stop : leb (n + 5) last ≡ false = ground arith in rw (stop, es_loop)
  es_loop-encode (s ∷ ss) (suc left) pre rest last n pids p e l b f =
      let tail = (s.info ++ encode ss) ++ rest in
      let len = length-append s.info (encode ss) in
      let go : leb (n + 5) last ≡ true = ground arith in
      let pids' = if s.es_type == 0x0d then pids else update pids s.es_pid mark in
      let pre' = (pre ++ stream_head s) ++ s.info in
      let ih =
        es_loop-encode ss left pre' rest last (n + 5 + length s.info) pids' p.1
          (omega
            (arith, length-append (pre ++ stream_head s) s.info, length-append pre (stream_head s)))
          (omega (arith, len)) b (omega arith) in
      rw
        (
          go,
          es_loop,
          type-at s pre tail n e,
          pid-at s pre tail n e p.0,
          next-at s pre tail n e (omega (arith, len)),
        )
        (ap (λ l. es_loop left l last (n + 5 + length s.info) mark pids')
            (regroup pre (stream_head s) s.info (encode ss) rest)
          ∙ ih)

  scan_streams-done :
      (buf : List ℕ) (pid offset n : ℕ) (sp : Splitter) (m : ℕ → ℕ)
      → let nall = n_all (sp.section_remain pid) offset in
        es_loop (nall + 1) buf (nall + offset) n mark sp.pids ≡ (true, m)
        → n_all (sp.section_remain pid) offset ≡ sp.section_remain pid
        → let (sp', result) = scan_streams buf pid offset n mark sp in
          (result ≡ tss_success) × (sp'.section_remain pid ≡ 0) × (sp'.pids ≡ m)
  unfolding scan_streams
  scan_streams-done buf pid offset n sp m loop all = ground arith

  -- A packet that starts a PMT and holds the whole section, its streams, with PIDs of 13 bits, behind
  -- the descriptors of the programme: `AnalyzePmt` succeeds, nothing is left of the section, and beyond what the
  -- start of the section marks exactly the PIDs of its streams are marked, but for those of type
  -- 0x0d.
  pub analyze_pmt-encode :
      (ss : List Stream) (pre rest buf : List ℕ) (sp : Splitter)
      → buf ≡ pre ++ (encode ss ++ rest)
      → AllPids ss
      → starts buf ≡ true
      → info_end buf ≡ length pre
      → length12 buf 6 + 8 ≡ length pre + length (encode ss) + 4
      → length pre + length (encode ss) + 4 ≤ 188
      → let (sp', result) = analyze_pmt buf mark sp in
        let pid = get_pid buf 1 in
        (result ≡ tss_success)
        × (sp'.section_remain pid ≡ 0)
        × (sp'.pids ≡ mark_streams mark ss (start_section buf pid mark sp).pids)
  unfolding analyze_pmt
  analyze_pmt-encode ss pre rest buf sp e p st ie size fits =
      let pid = get_pid buf 1 in
      let sp1 = start_section buf pid mark sp in
      let nall = n_all (sp1.section_remain pid) 5 in
      let remain : sp1.section_remain pid ≡ length12 buf 6 + 3 =
        remain-start buf pid mark sp (omega arith) in
      let all : nall ≡ length12 buf 6 + 3 =
        n_all-fits (sp1.section_remain pid) (omega arith) ∙ remain in
      let loop : es_loop (nall + 1) buf (nall + 5) (info_end buf) mark sp1.pids
          ≡ (true, mark_streams mark ss sp1.pids) =
        ap (λ l. es_loop (nall + 1) l (nall + 5) (info_end buf) mark sp1.pids) e
        ∙ es_loop-encode ss (nall + 1) pre rest (nall + 5) (info_end buf) sp1.pids p ie
            (omega arith) (omega arith) (omega (arith, length-encode ss)) in
      let done =
        scan_streams-done buf pid 5 (info_end buf) sp1 (mark_streams mark ss sp1.pids) loop
          (omega arith) in
      rw st done
