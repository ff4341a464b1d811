-- ===== src/Splitter/Pmt.antt =====
-- `AnalyzePmt` of apps/cdev/recpt1/tssplitter_lite.c: the PIDs that a PMT names are marked.
use ptx.Base.{
  ℕ, zero, suc, ◌+◌, ◌-◌, ◌*◌, ◌/◌, ◌%◌, ◌^◌, Bool, true, false, ◌&&◌, List, ◌==◌, ◌=/=◌, ltb, leb,
  if◌then◌else◌, map,
}
use ptx.Splitter.Crc.{byte, get_pid}
use ptx.Splitter.State.{TsResult, tss_success, tss_error, section_continue, Splitter, update}

abbrev pub u8 : ℕ → ℕ
u8 n = n % 2 ^ 8

-- A length of 12 bits at `buf[i]` and `buf[i + 1]`.
abbrev pub length12 : List ℕ → ℕ → ℕ
length12 buf i = byte buf i % 2 ^ 4 * 2 ^ 8 + byte buf (i + 1)

-- `buf[1] & 0x40`: the packet starts a section.
abbrev pub starts : List ℕ → Bool
starts buf = byte buf 1 / 2 ^ 6 % 2 == 1

-- `buf[10] & 0x3e`
abbrev pub version_of : List ℕ → ℕ
version_of buf = byte buf 10 / 2 % 2 ^ 5 * 2

-- The descriptors from `p` up to `n`: the PID of each descriptor of conditional access. Each round
-- passes two bytes at least, and `n` is below 256.
unfoldable pub ecm_loop : ℕ → List ℕ → ℕ → ℕ → ℕ → (ℕ → ℕ) → ℕ → ℕ
ecm_loop zero buf n p mark pids = pids
ecm_loop (suc fuel) buf n p mark pids =
    let len = byte buf (p + 1) in
    let at = p + 2 in
    let pids' =
      if (byte buf p == 0x09) && leb 4 len && leb (at + len) n
      then update pids ((byte buf (at + 2) * 2 ^ 8 + byte buf (at + 3)) % 2 ^ 13) mark
      else pids in
    elim (ltb p n) [ true ↦ ecm_loop fuel buf n (at + len) mark pids' | false ↦ pids ]

-- The elementary streams from `n` up to `last`: each PID, but for streams of type 0x0d. `n` is a
-- byte and wraps. `left` is how many rounds are allowed, one more than `Nall`: at the end of the
-- last `retry_count` is over `Nall`, and the answer is an error, here false.
unfoldable pub es_loop : ℕ → List ℕ → ℕ → ℕ → ℕ → (ℕ → ℕ) → Bool × (ℕ → ℕ)
es_loop zero buf last n mark pids = (false, pids)
es_loop (suc left) buf last n mark pids =
    let pids' = if byte buf n == 0x0d then pids else update pids (get_pid buf (n + 1)) mark in
    let n' = u8 (n + 4 + byte buf (n + 3) % 2 ^ 4 * 2 ^ 8 + byte buf (n + 4) + 1) in
    elim (leb (n + 5) last) [ true ↦ es_loop left buf last n' mark pids' | false ↦ (true, pids) ]

-- The start of a section: its size with its header, its version for each kept PMT with this PID,
-- the PID of the PCR, and the PIDs of the programme's ECMs. The descriptors end at a byte, `N`.
abbrev pub info_end : List ℕ → ℕ
info_end buf = u8 (length12 buf 15 + 5 + 12)

unfoldable pub set_version : ℕ → ℕ → ℕ × ℕ → ℕ × ℕ
set_version pid v (p, old) = if p == pid then (p, v) else (p, old)

unfoldable pub start_section : List ℕ → ℕ → ℕ → Splitter → Splitter
start_section buf pid mark sp = record sp {
  section_remain = update sp.section_remain pid ((length12 buf 6 + 3) % 2 ^ 16);
  pmt_version = map (set_version pid (version_of buf)) sp.pmt_version;
  pids = ecm_loop 128 buf (info_end buf) 17 mark (update sp.pids (get_pid buf 13) mark);
}

-- `Nall`: what is left of the section, cut to a byte first, and to what the packet holds then.
unfoldable pub n_all : ℕ → ℕ → ℕ
n_all remain payload_offset =
    let n = u8 remain in if ltb (188 - payload_offset) n then 188 - payload_offset else n

-- From the second half of the function on, with the offset of the payload and the first stream.
unfoldable pub scan_streams : List ℕ → ℕ → ℕ → ℕ → ℕ → Splitter → Splitter × TsResult
scan_streams buf pid payload_offset n mark sp =
    let nall = n_all (sp.section_remain pid) payload_offset in
    let (fine, pids') = es_loop (nall + 1) buf (nall + payload_offset) n mark sp.pids in
    let sp' = record sp {
      packet_seq = update sp.packet_seq pid (byte buf 3 % 2 ^ 4);
      pids = pids';
    } in
    let remain = sp.section_remain pid - nall in
    if fine
    then (
      record sp' { section_remain = update sp.section_remain pid remain },
      if ltb 0 remain then section_continue else tss_success,
    )
    else (sp', tss_error)

unfoldable pub analyze_pmt : List ℕ → ℕ → Splitter → Splitter × TsResult
analyze_pmt buf mark sp =
    let pid = get_pid buf 1 in
    if starts buf
    then scan_streams buf pid 5 (info_end buf) mark (start_section buf pid mark sp)
    else if sp.section_remain pid == 0
    then (sp, tss_error)
    else if byte buf 3 % 2 ^ 4 =/= (sp.packet_seq pid + 1) % 2 ^ 4
    then (sp, tss_error)
    else scan_streams buf pid 4 4 mark sp
