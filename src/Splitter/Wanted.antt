-- ===== src/Splitter/Wanted.antt =====
-- Which programs the scan of `AnalyzePat` (apps/cdev/recpt1/tssplitter_lite.c) keeps, against the
-- list of services.
use ptx.Base.{
  get_or, ℕ, ◌≡◌, refl, ◌∙◌, Bool, true, false, ◌&&◌, ◌||◌, not, List, [], ◌∷◌, map, arith, ◌==◌,
  some, none, if◌then◌else◌, Bool-cases, inl, inr,
}
use ptx.Splitter.Rebuild.{Program, programs_of}
use ptx.Splitter.State.{TsResult, Splitter}
use ptx.Splitter.Select.{
  Verdict, keep_if, same_word, is_number, atoi, keep, pass, keep_stop, epg_stop, verdict, Scan,
  mark, mark_epg, select_one, select_all, fall_back, scan_pat, is_nil, scan_start, analyze_pat,
}

-- What the words of a list ask for: the service with a place in the PAT, the one on the PID of 1seg, all,
-- or no program but the tables of the guide.
pub data Request : Type 0 where
  nth : ℕ → Request
  one_seg all_services guide no_word : Request

abbrev pub words : List (List ℕ × Request)
words =
    (b'h' ∷ b'd' ∷ [], nth 0)
    ∷ (b's' ∷ b'd' ∷ b'1' ∷ [], nth 0)
    ∷ (b's' ∷ b'd' ∷ b'2' ∷ [], nth 1)
    ∷ (b's' ∷ b'd' ∷ b'3' ∷ [], nth 2)
    ∷ (b'1' ∷ b's' ∷ b'e' ∷ b'g' ∷ [], one_seg)
    ∷ (b'a' ∷ b'l' ∷ b'l' ∷ [], all_services)
    ∷ (b'e' ∷ b'p' ∷ b'g' ∷ [], guide)
    ∷ []

abbrev pub look_up : List ℕ → List (List ℕ × Request) → Request
look_up sid [] = no_word
look_up sid ((w, r) ∷ rest) = if same_word sid w then r else look_up sid rest

abbrev pub asks : ℕ → List ℕ → Program → Request → Verdict
asks uninit avail p (nth k) = keep_if (p.service_id == get_or avail k uninit)
asks uninit avail p one_seg = keep_if (p.pid == 0x1fc8)
asks uninit avail p all_services = keep_stop
asks uninit avail p guide = epg_stop
asks uninit avail p no_word = pass

-- What an entry means for a program: a number keeps the service with that number, and a word what it
-- asks for.
unfoldable pub means : ℕ → List ℕ → List ℕ → Program → Verdict
means uninit avail sid p =
    if is_number p.service_id (atoi sid) then keep else asks uninit avail p (look_up sid words)

verdict-means :
    (uninit : ℕ) (avail sid : List ℕ) (p : Program)
    → verdict uninit avail sid p ≡ means uninit avail sid p
unfolding verdict means
verdict-means uninit avail sid p = ground arith

-- Some entry keeps the program, and no entry before it ends the list with `epg`.
unfoldable pub wanted : ℕ → List ℕ → List (List ℕ) → Program → Bool
wanted uninit avail [] p = false
wanted uninit avail (sid ∷ rest) p =
    let later = wanted uninit avail rest p in
    elim (means uninit avail sid p) [
      | keep ↦ true
      | pass ↦ later
      | keep_stop ↦ true
      | epg_stop ↦ false
    ]

-- Some entry keeps the program or ends the list for it.
unfoldable pub met_by : ℕ → List ℕ → List (List ℕ) → Program → Bool
met_by uninit avail [] p = false
met_by uninit avail (sid ∷ rest) p =
    let later = met_by uninit avail rest p in
    elim (means uninit avail sid p) [ pass ↦ later | _ ↦ true ]

unfoldable pub any_met : ℕ → List ℕ → List (List ℕ) → List Program → Bool
any_met uninit avail sids [] = false
any_met uninit avail sids (p ∷ rest) = met_by uninit avail sids p || any_met uninit avail sids rest

-- Some program with PID `j` satisfies the test.
unfoldable pub any_pid : (Program → Bool) → ℕ → List Program → Bool
any_pid test j [] = false
any_pid test j (p ∷ rest) = (test p && (j == p.pid)) || any_pid test j rest

module _ (uninit : ℕ) (avail : List ℕ) where
  marks-select_one :
      (sids : List (List ℕ)) (p : Program) (sc : Scan) (j : ℕ)
      → (select_one uninit avail sids p sc).pmt_pids j
        ≡ (if wanted uninit avail sids p && (j == p.pid) then 1 else sc.pmt_pids j)
  unfolding select_one wanted mark mark_epg
  marks-select_one [] p sc j = refl
  marks-select_one (sid ∷ rest) p sc j =
      rw (select_one, verdict-means uninit avail sid p)
        (ground (arith, marks-select_one rest p (mark uninit p sc) j, marks-select_one rest p sc j))

  marks-select_all :
      (sids : List (List ℕ)) (progs : List Program) (sc : Scan) (j : ℕ)
      → (select_all uninit avail sids progs sc).pmt_pids j
        ≡ (if any_pid (wanted uninit avail sids) j progs then 1 else sc.pmt_pids j)
  unfolding select_all any_pid
  marks-select_all sids [] sc j = refl
  marks-select_all sids (p ∷ rest) sc j = ground (
    arith,
    marks-select_all sids rest (select_one uninit avail sids p sc) j,
    marks-select_one sids p sc j,
  )

module _ (uninit : ℕ) (avail : List ℕ) where
  found-select_one :
      (sids : List (List ℕ)) (p : Program) (sc : Scan)
      → (select_one uninit avail sids p sc).found ≡ (sc.found || met_by uninit avail sids p)
  unfolding select_one met_by mark mark_epg
  found-select_one [] p sc = ground arith
  found-select_one (sid ∷ rest) p sc =
      rw (select_one, verdict-means uninit avail sid p)
        (ground (arith, found-select_one rest p (mark uninit p sc), found-select_one rest p sc))

  found-select_all :
      (sids : List (List ℕ)) (progs : List Program) (sc : Scan)
      → (select_all uninit avail sids progs sc).found
        ≡ (sc.found || any_met uninit avail sids progs)
  unfolding select_all any_met
  found-select_all sids [] sc = ground arith
  found-select_all sids (p ∷ rest) sc = ground (
    arith,
    found-select_all sids rest (select_one uninit avail sids p sc),
    found-select_one sids p sc,
  )

marks-fall_back :
    (uninit : ℕ) (progs : List Program) (sc : Scan) (j : ℕ)
    → (fall_back uninit progs sc).pmt_pids j
      ≡ (if any_pid (λ p. true) j progs then 1 else sc.pmt_pids j)
unfolding fall_back any_pid mark
marks-fall_back uninit [] sc j = refl
marks-fall_back uninit (p ∷ rest) sc j =
    ground (arith, marks-fall_back uninit rest (mark uninit p sc) j)

any_pid_all :
    (test : Program → Bool) (j : ℕ) (progs : List Program)
    → any_pid test j progs ≡ true
    → any_pid (λ p. true) j progs ≡ true
unfolding any_pid
any_pid_all test j [] h = h
any_pid_all test j (p ∷ rest) h = ground (arith, any_pid_all test j rest)

marks-scan_pat :
    (uninit : ℕ) (sids : List (List ℕ)) (progs : List Program) (sc : Scan) (j : ℕ)
    → sc.found ≡ false
    → let avail = map (λ (p : Program). p.service_id) progs in
      let nothing = not (is_nil sids) && not (any_met uninit avail sids progs) in
      (scan_pat uninit sids progs sc).pmt_pids j
      ≡ (if any_pid (λ p. nothing || wanted uninit avail sids p) j progs then 1 else sc.pmt_pids j)
unfolding scan_pat
marks-scan_pat uninit sids progs sc j f =
    let avail = map (λ (p : Program). p.service_id) progs in
    let sc' = select_all uninit avail sids progs sc in
    let met : sc'.found ≡ any_met uninit avail sids progs =
      found-select_all uninit avail sids progs sc ∙ rw f in
    elim (Bool-cases (not (is_nil sids) && not sc'.found)) [
      | inl e ↦
          rw (e, scan_pat, ← met, e)
            (ground (
              arith,
              marks-fall_back uninit progs sc' j,
              marks-select_all uninit avail sids progs sc j,
              any_pid_all (wanted uninit avail sids) j progs,
            ))
      | inr e ↦ rw (e, scan_pat, ← met, e) (marks-select_all uninit avail sids progs sc j)
    ]

-- What `AnalyzePat` stores as the marks is what the scan leaves there.
analyze_pat-pmt_pids :
    (uninit : ℕ) (alloc : Bool) (buf : List ℕ) (sp sp' : Splitter) (r : TsResult) (j : ℕ)
    → sp.pat ≡ none
    → analyze_pat uninit alloc buf sp ≡ some (sp', r)
    → sp'.pmt_pids j ≡ (scan_pat uninit sp.sid_list (programs_of buf) (scan_start sp)).pmt_pids j
unfolding analyze_pat
analyze_pat-pmt_pids uninit alloc buf sp sp' r j e h = ground arith

-- Where there is no PAT yet and the code writes past none of its arrays: analysing a packet marks the PID of
-- a PMT exactly where some program of the packet with that
-- PID is wanted by the list, which is to say that an entry keeps it before any that asks for the guide
-- (a number keeps the service that has it, "hd" and "sd1" the first service of the PAT, "sd2" and "sd3"
-- the next ones, "1seg" the one on PID 0x1fc8, "all" any), or, where a list is given and no program meets an entry, exactly the
-- PIDs of all programs; the other marks stay.
pub marks-analyze_pat :
    (uninit : ℕ) (alloc : Bool) (buf : List ℕ) (sp sp' : Splitter) (r : TsResult) (j : ℕ)
    → sp.pat ≡ none
    → analyze_pat uninit alloc buf sp ≡ some (sp', r)
    → let progs = programs_of buf in
      let sids = sp.sid_list in
      let avail = map (λ (p : Program). p.service_id) progs in
      let nothing = not (is_nil sids) && not (any_met uninit avail sids progs) in
      sp'.pmt_pids j
      ≡ (if any_pid (λ p. nothing || wanted uninit avail sids p) j progs then 1 else sp.pmt_pids j)
marks-analyze_pat uninit alloc buf sp sp' r j e h =
    analyze_pat-pmt_pids uninit alloc buf sp sp' r j e h
    ∙ marks-scan_pat uninit sp.sid_list (programs_of buf) (scan_start sp) j refl
