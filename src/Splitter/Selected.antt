-- ===== src/Splitter/Selected.antt =====
-- Which PIDs `AnalyzePat` of apps/cdev/recpt1/tssplitter_lite.c marks, and that the PAT which it
-- makes lists exactly these.
use ptx.Base.{
  ◌<◌, ◌≤◌, sym, length, ltb, ltb→lt, ltb-ge, ℕ, zero, suc, ◌+◌, ◌≡◌, ◌≢◌, ◌⊎◌, inl, inr, refl, ap,
  ◌∙◌, true, ◌&&◌, not, none, some, List, [], ◌∷◌, map, arith, ◌==◌, if◌then◌else◌, Bool-cases,
}
use ptx.Base.Int.{pos}
use ptx.Splitter.Crc.{byte, get_pid}
use ptx.Splitter.Rebuild.{Program, programs, programs_of, rounds, chosen, max_pid}
use ptx.Splitter.Rebuilt.{NotNit, original, seen, recreate_pat_lem}
use ptx.Splitter.State.{tss_success, Splitter}
use ptx.Splitter.Select.{
  max_services, Verdict, keep, pass, keep_stop, epg_stop, verdict, Scan, mark, mark_epg, select_one,
  select_all, fall_back, scan_pat, scan_start, is_nil, analyze_pat,
}

-- A program found in `buf`.
record IsProgram (buf : List ℕ) (p : Program) : Type 0 where
  placed : p.at ≢ 0
  read : get_pid buf (p.at + 2) ≡ p.pid
  not_nit : p.pid ≢ 0x0010

abbrev ArePrograms : List ℕ → List Program → Type 0
ArePrograms buf [] = Unit
ArePrograms buf (p ∷ rest) = IsProgram buf p × ArePrograms buf rest

programs-ArePrograms :
    (left : ℕ) (buf : List ℕ) (i : ℕ) → i ≢ 0 → ArePrograms buf (programs left buf i)
unfolding programs
programs-ArePrograms zero buf i h = tt
programs-ArePrograms (suc left) buf i h =
    let rest = programs-ArePrograms left buf (i + 4) (omega arith) in
    elim (Bool-cases (get_pid buf (i + 2) == 0x0010)) [
      | inl nit ↦ rw nit rest
      | inr other ↦ rw other (record { placed = h; read = refl; not_nit = ground arith }, rest)
    ]

programs_of-ArePrograms : (buf : List ℕ) → ArePrograms buf (programs_of buf)
unfolding programs_of
programs_of-ArePrograms buf = programs-ArePrograms (rounds (byte buf 7)) buf 13 (omega arith)

-- For each PID: it has no position and no mark, or it is marked 1 and its position is that of an
-- entry with this PID, which is not the NIT's.
abbrev Marked : List ℕ → (ℕ → ℕ) → (ℕ → ℕ) → ℕ → Type 0
Marked buf at pm j =
    ((at j ≡ 0) × (pm j ≡ 0))
    ⊎ ((at j ≢ 0) × (pm j ≡ 1) × (get_pid buf (at j + 2) ≡ j) × (j ≢ 0x0010))

abbrev ScanMarked : List ℕ → Scan → Type 0
ScanMarked buf sc = (j : ℕ) → Marked buf sc.at sc.pmt_pids j

module _ (uninit : ℕ) (buf : List ℕ) where
  mark-ScanMarked :
      (p : Program) (sc : Scan)
      → IsProgram buf p
      → ScanMarked buf sc
      → ScanMarked buf (mark uninit p sc)
  unfolding mark
  mark-ScanMarked p sc h m j = ground (arith, m j)

  select_one-ScanMarked :
      (avail : List ℕ) (sids : List (List ℕ)) (p : Program) (sc : Scan)
      → IsProgram buf p
      → ScanMarked buf sc
      → ScanMarked buf (select_one uninit avail sids p sc)
  unfolding select_one mark_epg
  select_one-ScanMarked avail [] p sc h m = m
  select_one-ScanMarked avail (sid ∷ rest) p sc h m =
      go (verdict uninit avail sid p) refl
        (select_one-ScanMarked avail rest p (mark uninit p sc) h (mark-ScanMarked p sc h m))
        (select_one-ScanMarked avail rest p sc h m)
    where
      go :
          (v : Verdict)
          → verdict uninit avail sid p ≡ v
          → ScanMarked buf (select_one uninit avail rest p (mark uninit p sc))
          → ScanMarked buf (select_one uninit avail rest p sc)
          → ScanMarked buf (select_one uninit avail (sid ∷ rest) p sc)
      go keep e k q = rw (e, select_one) k
      go pass e k q = rw (e, select_one) q
      go keep_stop e k q = rw (e, select_one) (mark-ScanMarked p sc h m)
      go epg_stop e k q = rw (e, select_one) m

  select_all-ScanMarked :
      (avail : List ℕ) (sids : List (List ℕ)) (progs : List Program) (sc : Scan)
      → ArePrograms buf progs
      → ScanMarked buf sc
      → ScanMarked buf (select_all uninit avail sids progs sc)
  unfolding select_all
  select_all-ScanMarked avail sids [] sc h m = m
  select_all-ScanMarked avail sids (p ∷ rest) sc h m =
      select_all-ScanMarked avail sids rest (select_one uninit avail sids p sc) h.1
        (select_one-ScanMarked avail sids p sc h.0 m)

  fall_back-ScanMarked :
      (progs : List Program) (sc : Scan)
      → ArePrograms buf progs
      → ScanMarked buf sc
      → ScanMarked buf (fall_back uninit progs sc)
  unfolding fall_back
  fall_back-ScanMarked [] sc h m = m
  fall_back-ScanMarked (p ∷ rest) sc h m =
      fall_back-ScanMarked rest (mark uninit p sc) h.1 (mark-ScanMarked p sc h.0 m)

  scan_pat-ScanMarked :
      (sids : List (List ℕ)) (progs : List Program) (sc : Scan)
      → ArePrograms buf progs
      → ScanMarked buf sc
      → ScanMarked buf (scan_pat uninit sids progs sc)
  unfolding scan_pat
  scan_pat-ScanMarked sids progs sc h m =
      let sc' = select_all uninit (map (λ (p : Program). p.service_id) progs) sids progs sc in
      let m' =
        select_all-ScanMarked (map (λ (p : Program). p.service_id) progs) sids progs sc h m in
      elim (Bool-cases (not (is_nil sids) && not sc'.found)) [
        | inl e ↦ rw (e, scan_pat) (fall_back-ScanMarked progs sc' h m')
        | inr e ↦ rw (e, scan_pat) m'
      ]

-- The PIDs from `i` on that carry a mark.
unfoldable pub marked : ℕ → ℕ → (ℕ → ℕ) → List ℕ
marked zero i pm = []
marked (suc left) i pm = if pm i == 0 then marked left (i + 1) pm else i ∷ marked left (i + 1) pm

module _ (buf : List ℕ) (at pm : ℕ → ℕ) (m : (j : ℕ) → Marked buf at pm j) where
  chosen-NotNit : (left i : ℕ) → NotNit buf (chosen left i at)
  unfolding chosen
  chosen-NotNit zero i = tt
  chosen-NotNit (suc left) i = ground (arith, m i, chosen-NotNit left (i + 1))

  pids-chosen : (left i : ℕ) → map (λ p. get_pid buf (p + 2)) (chosen left i at) ≡ marked left i pm
  unfolding chosen marked
  pids-chosen zero i = refl
  pids-chosen (suc left) i = ground (arith, m i, pids-chosen left (i + 1))

second-original :
    (buf xs : List ℕ)
    → map (λ (q : ℕ × ℕ). q.1) (map (original buf) xs) ≡ map (λ p. get_pid buf (p + 2)) xs
second-original buf [] = refl
second-original buf (x ∷ xs) = ap (λ l. get_pid buf (x + 2) ∷ l) (second-original buf xs)

length-map : (f : ℕ → ℕ) (xs : List ℕ) → length (map f xs) ≡ length xs
length-map f [] = refl
length-map f (x ∷ xs) = ap suc (length-map f xs)

-- Analysing a packet on a splitter that has no PAT and no marks, with memory for the new packet:
-- either there are more than 50 programs, or the list keeps programs more than 50 times, or more than 41
-- PIDs are to be kept, and the code writes past one of its arrays; or it succeeds, and the PAT that it
-- stores lists, read by the same loop, exactly the PIDs that are then marked as
-- PMTs to keep, each once, in increasing order.
pub analyze_pat-marked :
    (uninit : ℕ) (buf : List ℕ) (sp : Splitter)
    → sp.pat ≡ none
    → ((j : ℕ) → sp.pmt_pids j ≡ 0)
    → let sc = scan_pat uninit sp.sid_list (programs_of buf) (scan_start sp) in
      ((analyze_pat uninit true buf sp ≡ none)
        × ((max_services < length (programs_of buf))
            ⊎ (max_services < sc.retain)
            ⊎ (41 < length (marked max_pid 0 sc.pmt_pids))))
      ⊎ ((length (programs_of buf) ≤ max_services)
          × (sc.retain ≤ max_services)
          × (sp' : Splitter) × (pat : List ℕ) × (analyze_pat uninit true buf sp
              ≡ some (sp', tss_success))
          × (sp'.pat ≡ some pat)
          × (map (λ (q : ℕ × ℕ). q.1) (map seen (programs_of pat)) ≡ marked max_pid 0 sp'.pmt_pids))
unfolding analyze_pat
analyze_pat-marked uninit buf sp e z =
    let progs = programs_of buf in
    let sc = scan_pat uninit sp.sid_list progs (scan_start sp) in
    let m : ScanMarked buf sc =
      scan_pat-ScanMarked uninit buf sp.sid_list progs (scan_start sp) (programs_of-ArePrograms buf)
        (λ j. inl (refl, z j)) in
    let listed = pids-chosen buf sc.at sc.pmt_pids m max_pid 0 in
    let size : length (chosen max_pid 0 sc.at) ≡ length (marked max_pid 0 sc.pmt_pids) =
      sym (length-map (λ p. get_pid buf (p + 2)) (chosen max_pid 0 sc.at)) ∙ ap length listed in
    elim (Bool-cases (ltb max_services (length progs))) [
      | inl many ↦ inl (rw (e, many, analyze_pat), inl (ltb→lt max_services (length progs) many))
      | inr few ↦ elim (Bool-cases (ltb max_services sc.retain)) [
        | inl often ↦
            inl (rw (e, few, often, analyze_pat), inr (inl (ltb→lt max_services sc.retain often)))
        | inr seldom ↦
            elim (recreate_pat_lem buf sc.at (chosen-NotNit buf sc.at sc.pmt_pids m max_pid 0)) [
              | inl (long, over) ↦
                  inl
                    (rw (e, few, seldom, long, analyze_pat), inr (inr (omega (arith, size, over))))
              | inr (pat, made, _, _, lists) ↦ inr (
                ltb-ge max_services (length progs) few,
                ltb-ge max_services sc.retain seldom,
                record sp {
                  pids = sc.pids;
                  pmt_pids = sc.pmt_pids;
                  pmt_retain = pos sc.retain;
                  avail_pmts = map (λ (p : Program). p.pid) progs;
                  pmt_version = sc.versions;
                  pat = some pat;
                },
                pat,
                rw (e, few, seldom, made, analyze_pat),
                refl,
                rw lists (
                    second-original buf (chosen max_pid 0 sc.at)
                    ∙ pids-chosen buf sc.at sc.pmt_pids m max_pid 0),
              )
            ]
      ]
    ]
