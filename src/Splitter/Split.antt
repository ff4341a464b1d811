-- ===== src/Splitter/Split.antt =====
-- `ReadTs`, `RescanPID` and `split_ts` of apps/cdev/recpt1/tssplitter_lite.c. A buffer is the list
-- of its packets of 188 bytes.
use ptx.Base.{
  ℕ, zero, suc, ◌+◌, ◌-◌, ◌*◌, ltb, length, ◌/◌, ◌%◌, ◌^◌, Bool, true, false, ◌&&◌, ◌||◌, not,
  Option, none, some, List, [], ◌∷◌, ◌==◌, ◌=/=◌, if◌then◌else◌, set, take, drop,
}
use ptx.Splitter.Crc.{byte, get_pid}
use ptx.Splitter.State.{
  TsResult, tss_success, tss_error, tss_null, Splitter, update, zeros, same_count,
}
use ptx.Splitter.Select.{analyze_pat}
use ptx.Splitter.Pmt.{starts, version_of, analyze_pmt}

-- `count` packets of 188 bytes.
unfoldable pub packets : ℕ → List ℕ → List (List ℕ)
packets zero d = []
packets (suc count) d = take 188 d ∷ packets count (drop 188 d)

abbrev pub is_success : TsResult → Bool
is_success tss_success = true
is_success _ = false

-- Both bytes of the PID of a PMT that has been taken are overwritten.
abbrev pub hide_pid : List ℕ → List ℕ
hide_pid buf = set (set buf 1 0xff) 2 0xff

-- The PMT branch of `ReadTs`: the splitter, and the packet as it is left.
unfoldable pub read_pmt : List ℕ → Splitter → Splitter × List ℕ
read_pmt buf sp =
    let pid = get_pid buf 1 in
    if sp.pmt_pids pid == 1
    then (let (sp', result) = analyze_pmt buf 1 sp in
        if is_success result
        then (
          record sp' {
            pmt_pids = update sp'.pmt_pids pid ((sp'.pmt_pids pid + 1) % 2 ^ 8);
            pmt_counter = sp'.pmt_counter + 1;
          },
          hide_pid buf,
        )
        else (sp', buf))
    else (sp, buf)

module _ (uninit : ℕ) (alloc : Bool) where
  -- The PAT branch.
  unfoldable pub read_pat : List ℕ → Splitter → Option (Splitter × TsResult)
  read_pat buf sp =
      if get_pid buf 1 == 0 then analyze_pat uninit alloc buf sp else some (sp, tss_success)

  -- The loop over the packets that it looks at. `none`: a write past the end of a buffer.
  unfoldable pub read_loop : List (List ℕ) → Splitter → Option (Splitter × TsResult × List (List ℕ))
  read_loop [] sp = some (sp, tss_error, [])
  read_loop (buf ∷ rest) sp = elim (read_pat buf sp) [
    | none ↦ none
    | some (sp1, result) ↦
        let (sp2, buf') = read_pmt buf sp1 in
        elim (is_success result) [
          | false ↦ some (sp1, result, buf ∷ rest)
          | true ↦ elim (same_count sp2.pmt_counter sp2.pmt_retain) [
            | true ↦ some (sp2, tss_success, buf' ∷ rest)
            | false ↦ elim (read_loop rest sp2) [
              | none ↦ none
              | some (sp3, result', rest') ↦ some (sp3, result', buf' ∷ rest')
            ]
          ]
        ]
  ]

  -- `while(length - index - LENGTH_PACKET > 0)`: the last packet is not looked at.
  unfoldable pub read_ts : ℕ → List ℕ → Splitter → Option (Splitter × TsResult × List (List ℕ))
  read_ts size d sp = read_loop (packets ((size - 1) / 188) d) sp

-- The bytes of the table of PIDs are counted down, those at 0 stay.
unfoldable pub rescan_pid : List ℕ → Splitter → Splitter × TsResult
rescan_pid buf sp =
    let sp1 =
      if same_count sp.pmt_counter sp.pmt_retain
      then record sp {
        pids = sp.pmt_pids;
        pmt_counter = 0;
        section_remain = zeros;
        packet_seq = zeros;
      }
      else sp in
    let (sp2, result) = analyze_pmt buf 2 sp1 in
    let sp3 = if is_success result then record sp2 { pmt_counter = sp2.pmt_counter + 1 } else sp2 in
    if same_count sp3.pmt_counter sp3.pmt_retain
    then (record sp3 { pids = λ i. sp3.pids i - 1 }, tss_success)
    else (sp3, tss_null)

-- The counter of the PATs that are put out, in the low four bits.
unfoldable pub next_count : ℕ → List ℕ → ℕ
next_count count pat =
    if count == 0xff
    then byte pat 3
    else if (count + 1) % 0x10 == 0
    then count + 1 - 0x10
    else count + 1

-- The version of the kept PMT with this PID, the first one; the variable keeps its value where
-- there is none.
unfoldable pub version_for : ℕ → List (ℕ × ℕ) → ℕ → ℕ
version_for pid [] old = old
version_for pid ((p, v) ∷ rest) old = if p == pid then v else version_for pid rest old

-- The locals of the loop of `split_ts` that outlive a round.
pub record Progress : Type 0 where
  pub sp : Splitter
  pub version : ℕ
  pub result : TsResult

-- Whether a packet of a kept PMT makes the code look at it again, from the version found.
abbrev pub changed : List ℕ → ℕ → Splitter → Bool
changed buf version sp =
    not (same_count sp.pmt_counter sp.pmt_retain) || (starts buf && (version =/= version_of buf))

unfoldable pub check_pmt : List ℕ → Progress → Progress
check_pmt buf g =
    let pid = get_pid buf 1 in
    if g.sp.pmt_pids pid == 0
    then g
    else (let v = if starts buf then version_for pid g.sp.pmt_version g.version else g.version in
        if changed buf v g.sp
        then (let (sp', r) = rescan_pid buf g.sp in record { sp = sp'; version = v; result = r })
        else record g { version = v })

-- One round: the packet put out, if any. `none`: there is no PAT yet, and the code reads through
-- a null pointer.
unfoldable pub split_one : List ℕ → Progress → Option (Progress × Option (List ℕ))
split_one buf g =
    if get_pid buf 1 == 0
    then elim g.sp.pat [
      | none ↦ none
      | some pat ↦
          let count = next_count g.sp.pat_count pat in
          let pat' = set pat 3 count in
          some (record g { sp = record g.sp { pat_count = count; pat = some pat' } }, some pat')
    ]
    else (let g' = check_pmt buf g in
        some (g', if g'.sp.pids (get_pid buf 1) == 0 then none else some buf))

abbrev pub put : Option (List ℕ) → List (List ℕ) → List (List ℕ)
put none out = out
put (some p) out = p ∷ out

unfoldable pub split_loop : List (List ℕ) → Progress → Option (Progress × List (List ℕ))
split_loop [] g = some (g, [])
split_loop (buf ∷ rest) g = elim (split_one buf g) [
  | none ↦ none
  | some (g', out) ↦ elim (split_loop rest g') [
    | none ↦ none
    | some (g'', outs) ↦ some (g'', put out outs)
  ]
]

-- `while(sbuf->size > s_offset)`: a last packet that is cut short is read whole. `dbuf` has as many bytes
-- as `sbuf`, and `none` is also a write past its end.
unfoldable pub split_ts : ℕ → List ℕ → Splitter → Option (Progress × List (List ℕ))
split_ts size d sp =
    elim (split_loop (packets ((size + 187) / 188) d)
      (record { sp = sp; version = 0; result = tss_success })) [
        | none ↦ none
        | some (g, out) ↦ if ltb size (188 * length out) then none else some (g, out)
      ]
