-- ===== src/Splitter/State.antt =====
-- apps/cdev/recpt1/tssplitter_lite.h: `struct splitter`, and `split_startup`. An array indexed by
-- a PID is a function.
use ptx.Base.{ℕ, ◌==◌, Bool, false, Option, none, List, [], if◌then◌else◌}
use ptx.Base.Int.{ℤ, pos, negsuc}
use ptx.Splitter.Sid.{analyze_sid}

-- The TSS_ results and SECTION_CONTINUE.
pub data TsResult : Type 0 where
  tss_success tss_error tss_null section_continue : TsResult

-- `pmt_version[0 .. pmt_retain)`: PID and version.
pub record Splitter : Type 0 where
  pub pids : ℕ → ℕ
  pub pmt_pids : ℕ → ℕ
  pub pat : Option (List ℕ)
  pub sid_list : List (List ℕ)
  pub pat_count : ℕ
  pub pmt_retain : ℤ
  pub pmt_counter : ℕ
  pub avail_pmts : List ℕ
  pub pmt_version : List (ℕ × ℕ)
  pub section_remain : ℕ → ℕ
  pub packet_seq : ℕ → ℕ

abbrev pub update : (ℕ → ℕ) → ℕ → ℕ → ℕ → ℕ
update f i v j = if j == i then v else f j

abbrev pub zeros : ℕ → ℕ
zeros i = 0

-- `pmt_counter == pmt_retain`
abbrev pub same_count : ℕ → ℤ → Bool
same_count n (pos m) = n == m
same_count n (negsuc m) = false

-- `pmt_retain` is -1 until a PAT has been read.
unfoldable pub split_startup : List ℕ → Splitter
split_startup sid = record {
  pids = zeros;
  pmt_pids = zeros;
  pat = none;
  sid_list = analyze_sid sid;
  pat_count = 0xff;
  pmt_retain = negsuc 0;
  pmt_counter = 0;
  avail_pmts = [];
  pmt_version = [];
  section_remain = zeros;
  packet_seq = zeros;
}
