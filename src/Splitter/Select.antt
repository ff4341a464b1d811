-- ===== src/Splitter/Select.antt =====
-- `AnalyzePat` of apps/cdev/recpt1/tssplitter_lite.c: which programs of a PAT are kept.
use ptx.Base.{
  ℕ, zero, suc, ◌+◌, ◌-◌, ◌*◌, Bool, true, false, ◌&&◌, ◌||◌, not, Option, none, some, List, [],
  ◌∷◌, ◌++◌, map, ◌==◌, ltb, leb, length, if◌then◌else◌, get_or,
}
use ptx.Base.Int.{ℤ, pos, negsuc}
use ptx.Splitter.Rebuild.{Program, programs_of, recreate_pat}
use ptx.Splitter.State.{TsResult, tss_success, tss_null, Splitter, update, zeros}

-- The elements of `avail_sids`, `avail_pmts` and `pmt_version`.
abbrev pub max_services : ℕ
max_services = 50

abbrev pub is_space : ℕ → Bool
is_space c = (c == b' ') || (leb 9 c && leb c 13)

-- The digits at the start of a text.
unfoldable pub digits_value : ℕ → List ℕ → ℕ
digits_value acc [] = acc
digits_value acc (c ∷ rest) =
    if leb b'0' c && leb c b'9' then digits_value (acc * 10 + (c - b'0')) rest else acc

abbrev pub negated : ℕ → ℤ
negated zero = pos 0
negated (suc n) = negsuc n

-- `atoi`: spaces, a sign, digits. A number that does not fit an `int` is not a case that the
-- standard defines.
unfoldable pub atoi : List ℕ → ℤ
atoi [] = pos 0
atoi (c ∷ rest) =
    let skip = atoi rest in
    if is_space c
    then skip
    else if c == b'-'
    then negated (digits_value 0 rest)
    else if c == b'+'
    then pos (digits_value 0 rest)
    else pos (digits_value 0 (c ∷ rest))

abbrev pub lower : ℕ → ℕ
lower c = if leb b'A' c && leb c b'Z' then c + 32 else c

-- `!strcasecmp(a, b)`
unfoldable pub same_word : List ℕ → List ℕ → Bool
same_word [] [] = true
same_word [] (_ ∷ _) = false
same_word (_ ∷ _) [] = false
same_word (a ∷ xs) (b ∷ ys) = (lower a == lower b) && same_word xs ys

abbrev pub is_number : ℕ → ℤ → Bool
is_number n (pos m) = n == m
is_number n (negsuc m) = false

-- What one entry of the list says of one program.
pub data Verdict : Type 0 where
  keep pass keep_stop epg_stop : Verdict

abbrev pub keep_if : Bool → Verdict
keep_if true = keep
keep_if false = pass

-- The ladder of tests. `avail_sids` holds the services of the PAT; `uninit` is what an element
-- that was not set holds.
unfoldable pub verdict : ℕ → List ℕ → List ℕ → Program → Verdict
verdict uninit avail_sids sid p =
    if is_number p.service_id (atoi sid)
    then keep
    else if same_word sid (b'h' ∷ b'd' ∷ []) || same_word sid (b's' ∷ b'd' ∷ b'1' ∷ [])
    then keep_if (p.service_id == get_or avail_sids 0 uninit)
    else if same_word sid (b's' ∷ b'd' ∷ b'2' ∷ [])
    then keep_if (p.service_id == get_or avail_sids 1 uninit)
    else if same_word sid (b's' ∷ b'd' ∷ b'3' ∷ [])
    then keep_if (p.service_id == get_or avail_sids 2 uninit)
    else if same_word sid (b'1' ∷ b's' ∷ b'e' ∷ b'g' ∷ [])
    then keep_if (p.pid == 0x1fc8)
    else if same_word sid (b'a' ∷ b'l' ∷ b'l' ∷ [])
    then keep_stop
    else if same_word sid (b'e' ∷ b'p' ∷ b'g' ∷ [])
    then epg_stop
    else pass

-- The splitter and the locals of the scan.
pub record Scan : Type 0 where
  pub pids : ℕ → ℕ
  pub pmt_pids : ℕ → ℕ
  pub at : ℕ → ℕ
  pub retain : ℕ
  pub versions : List (ℕ × ℕ)
  pub found : Bool

abbrev pub is_nil : List (List ℕ) → Bool
is_nil [] = true
is_nil (_ ∷ _) = false

abbrev pub scan_start : Splitter → Scan
scan_start sp = record {
  pids = sp.pids;
  pmt_pids = sp.pmt_pids;
  at = zeros;
  retain = 0;
  versions = [];
  found = false;
}

module _ (uninit : ℕ) where
  -- The program is kept: its PID is marked, and its version is not set yet. The array of versions
  -- has `max_services` elements: where there are more, `analyze_pat` has no result.
  unfoldable pub mark : Program → Scan → Scan
  mark p sc = record sc {
    pids = update sc.pids p.pid 1;
    pmt_pids = update sc.pmt_pids p.pid 1;
    at = update sc.at p.pid p.at;
    retain = sc.retain + 1;
    versions = sc.versions ++ ((p.pid, uninit) ∷ []);
    found = true;
  }

  unfoldable pub mark_epg : Scan → Scan
  mark_epg sc = record sc {
    pids = update (update (update (update sc.pids 0x11 1) 0x12 1) 0x26 1) 0x27 1;
    found = true;
  }

  -- The loop over the list for one program.
  unfoldable pub select_one : List ℕ → List (List ℕ) → Program → Scan → Scan
  select_one avail [] p sc = sc
  select_one avail (sid ∷ rest) p sc = elim (verdict uninit avail sid p) [
    | keep ↦ select_one avail rest p (mark p sc)
    | pass ↦ select_one avail rest p sc
    | keep_stop ↦ mark p sc
    | epg_stop ↦ mark_epg sc
  ]

  -- For each program in turn. `avail` is `avail_sids`, which has `max_services` elements, and `chosen_sid`, a
  -- text for the log, has room for as many programs kept: what has more `analyze_pat` refuses.
  unfoldable pub select_all : List ℕ → List (List ℕ) → List Program → Scan → Scan
  select_all avail sids [] sc = sc
  select_all avail sids (p ∷ rest) sc = select_all avail sids rest (select_one avail sids p sc)

  -- Nothing was found: every program is kept.
  unfoldable pub fall_back : List Program → Scan → Scan
  fall_back [] sc = sc
  fall_back (p ∷ rest) sc = fall_back rest (mark p sc)

  -- Both passes, and the fall-back where a list was given and nothing was found.
  unfoldable pub scan_pat : List (List ℕ) → List Program → Scan → Scan
  scan_pat sids progs sc =
      let sc' = select_all (map (λ p. p.service_id) progs) sids progs sc in
      elim (not (is_nil sids) && not sc'.found) [ true ↦ fall_back progs sc' | false ↦ sc' ]

  -- `none` where it writes past the end of `avail_sids` and `avail_pmts` or of the array of versions, or
  -- `RecreatePat` past the end of its buffer; `alloc` says whether its allocation succeeds. A PAT is taken
  -- only once.
  unfoldable pub analyze_pat : Bool → List ℕ → Splitter → Option (Splitter × TsResult)
  analyze_pat alloc buf sp = elim sp.pat [
    | some pat ↦ some (sp, tss_success)
    | none ↦
        let progs = programs_of buf in
        let sc = scan_pat sp.sid_list progs (scan_start sp) in
        let sp' : Splitter = record sp {
          pids = sc.pids;
          pmt_pids = sc.pmt_pids;
          pmt_retain = pos sc.retain;
          avail_pmts = map (λ p. p.pid) progs;
          pmt_version = sc.versions;
        } in
        if ltb max_services (length progs) || ltb max_services sc.retain
        then none
        else elim (recreate_pat buf sc.at) [
          | none ↦ none
          | some pat ↦
              if alloc
              then some (record sp' { pat = some pat }, tss_success)
              else some (sp', tss_null)
        ]
  ]
