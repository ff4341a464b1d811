-- ===== src/Section/Pat.antt =====
-- `doPAT` of apps/dvb/cmds/pat.c.
use ptx.Base.{
  ℕ, zero, suc, ◌+◌, ◌-◌, ◌*◌, ◌/◌, ◌%◌, ◌^◌, ◌<◌, ◌≤◌, ◌≡◌, refl, ap, ◌∙◌, Bool, true, false, ◌&&◌,
  ◌||◌, Option, none, some, List, [], ◌∷◌, ◌++◌, append_assoc, append-nil, sym, ◌==◌, ◌=/=◌, ltb,
  if◌then◌else◌, length, length-append, arith, Bool-cases, inl, inr,
}
use ptx.Base.Int.{ℤ, pos, negsuc}
use ptx.Splitter.Crc.{byte}
use ptx.Splitter.Rebuilt.{byte-append}

-- `struct pat`, its programs as pairs of `prog_id` and `pmt_pid`. `ver` is VER_NONE, -1, at first.
pub record Pat : Type 0 where
  pub ver : ℤ
  pub ts_id : ℕ
  pub prog : List (ℕ × ℕ)

abbrev pub max_program : ℕ
max_program = 8

abbrev pub same_ver : ℕ → ℤ → Bool
same_ver n (pos m) = n == m
same_ver n (negsuc m) = false

-- The loop over the programs, from `p` on. `none`: a program is written behind the array, or the
-- memory for a PMT is refused, and the code writes through a null pointer.
module _ (alloc : ℕ → Bool) where
  unfoldable pub pat_loop : ℕ → List ℕ → ℕ → List (ℕ × ℕ) → Option (List (ℕ × ℕ))
  pat_loop zero buf p prog = some prog
  pat_loop (suc left) buf p prog =
      let prog_id = byte buf p * 2 ^ 8 + byte buf (p + 1) in
      let pid = (byte buf (p + 2) * 2 ^ 8 + byte buf (p + 3)) % 2 ^ 13 in
      if prog_id == 0
      then pat_loop left buf (p + 4) prog
      else if ltb (length prog) max_program && alloc (length prog)
      then pat_loop left buf (p + 4) (prog ++ ((prog_id, pid) ∷ []))
      else none

  -- `buf[1] & 0xf0 != 0xb0` is `buf[1] & 1`, since `!=` binds tighter; and of `buf[5] & 0x3e0` the
  -- highest three bits are left.
  unfoldable pub do_pat : List ℕ → Pat → Option (ℕ × Pat)
  do_pat buf pat =
      let len = byte buf 1 % 2 ^ 4 * 2 ^ 8 + byte buf 2 in
      let ts_id = byte buf 3 * 2 ^ 8 + byte buf 4 in
      let ver = byte buf 5 / 2 ^ 5 % 2 ^ 3 * 2 ^ 4 in
      if (byte buf 0 =/= 0) || (byte buf 1 % 2 == 1)
      then some (2, pat)
      else if (byte buf 5 % 2 == 0) || (byte buf 6 =/= 0) || (byte buf 7 =/= 0)
      then some (2, pat)
      else if (ts_id == pat.ts_id) && same_ver ver pat.ver
      then some (1, pat)
      else elim (pat_loop ((len - 9) / 4) buf 8 []) [
        | none ↦ none
        | some prog ↦ some (0, record { ver = pos ver; ts_id = ts_id; prog = prog })
      ]

-- The programs as a PAT writes them.
unfoldable pub pat_entries : List (ℕ × ℕ) → List ℕ
pat_entries [] = []
pat_entries ((prog_id, pid) ∷ rest) =
    (prog_id / 2 ^ 8) ∷ (prog_id % 2 ^ 8) ∷ (0xe0 + pid / 2 ^ 8) ∷ (pid % 2 ^ 8) ∷ pat_entries rest

abbrev pub AllPrograms : List (ℕ × ℕ) → Type 0
AllPrograms [] = Unit
AllPrograms (q ∷ rest) = (q.0 < 2 ^ 16) × (q.1 < 2 ^ 13) × AllPrograms rest

-- The entry of the NIT has the number 0.
unfoldable pub services : List (ℕ × ℕ) → List (ℕ × ℕ)
services [] = []
services (q ∷ rest) = if q.0 == 0 then services rest else q ∷ services rest

pat_loop-entries :
    (qs prog : List (ℕ × ℕ)) (pre rest : List ℕ) (p : ℕ)
    → AllPrograms qs
    → p ≡ length pre
    → length prog + length (services qs) ≤ max_program
    → pat_loop (λ i. true) (length qs) (pre ++ (pat_entries qs ++ rest)) p prog
      ≡ some (prog ++ services qs)
unfolding pat_loop pat_entries services
pat_loop-entries [] prog pre rest p a e k = rw (append-nil prog) refl
pat_loop-entries ((prog_id, pid) ∷ qs) prog pre rest p a e k =
    let four = (prog_id / 2 ^ 8) ∷ (prog_id % 2 ^ 8) ∷ (0xe0 + pid / 2 ^ 8) ∷ (pid % 2 ^ 8) ∷ [] in
    let tail = pat_entries qs ++ rest in
    let b0 = byte-append pre (four ++ tail) 0 p (omega (arith, e)) in
    let b1 = byte-append pre (four ++ tail) 1 (p + 1) (omega (arith, e)) in
    let b2 = byte-append pre (four ++ tail) 2 (p + 2) (omega (arith, e)) in
    let b3 = byte-append pre (four ++ tail) 3 (p + 3) (omega (arith, e)) in
    let id : prog_id / 2 ^ 8 * 2 ^ 8 + prog_id % 2 ^ 8 ≡ prog_id = omega arith in
    let low : ((0xe0 + pid / 2 ^ 8) * 2 ^ 8 + pid % 2 ^ 8) % 2 ^ 13 ≡ pid = omega (arith, a.1) in
    let ih : (acc : List (ℕ × ℕ))
        → length acc + length (services qs) ≤ max_program
        → pat_loop (λ i. true) (length qs) (pre ++ (four ++ tail)) (p + 4) acc
          ≡ some (acc ++ services qs) =
      λ acc h.
        ap (λ l. pat_loop (λ i. true) (length qs) l (p + 4) acc) (sym (append_assoc pre four tail))
        ∙ pat_loop-entries qs acc (pre ++ four) rest (p + 4) a.2
            (omega (arith, e, length-append pre four)) h in
    elim (Bool-cases (prog_id == 0)) [
      | inl nit ↦ rw (pat_loop, b0, b1, b2, b3, id, low, nit) (ih prog (rw nit at k))
      | inr service ↦
          let k' : length prog + suc (length (services qs)) ≤ max_program = rw service at k in
          let q : ℕ × ℕ = (prog_id, pid) in
          let room : ltb (length prog) max_program ≡ true = ground (arith, k') in
          rw (pat_loop, b0, b1, b2, b3, id, low, service, room)
            (ih (prog ++ (q ∷ [])) (omega (arith, k', length-append prog (q ∷ [])))
              ∙ ap some (append_assoc prog (q ∷ []) (services qs)))
    ]

-- The section of a PAT: `flags` holds the version and the bit that says it is in force.
abbrev pub pat_section : ℕ → ℕ → List (ℕ × ℕ) → List ℕ → List ℕ
pat_section ts_id flags qs crc =
    let len = 9 + length qs * 4 in
    (0x00
      ∷ (0xb0 + len / 2 ^ 8)
      ∷ (len % 2 ^ 8)
      ∷ (ts_id / 2 ^ 8)
      ∷ (ts_id % 2 ^ 8)
      ∷ flags
      ∷ 0x00
      ∷ 0x00
      ∷ [])
    ++ (pat_entries qs ++ crc)

-- A PAT in force that is written into one section of at most 61 programs, eight of them services at
-- most, and is not the one at hand, is read as its services in their order, with its stream's number
-- and the bits that the code takes for its version.
pub do_pat-pat_section :
    (ts_id flags : ℕ) (qs : List (ℕ × ℕ)) (crc : List ℕ) (pat : Pat)
    → ts_id < 2 ^ 16
    → flags % 2 ≡ 1
    → length qs < 62
    → AllPrograms qs
    → length (services qs) ≤ max_program
    → ((ts_id == pat.ts_id) && same_ver (flags / 2 ^ 5 % 2 ^ 3 * 2 ^ 4) pat.ver) ≡ false
    → do_pat (λ i. true) (pat_section ts_id flags qs crc) pat
      ≡ some (
        0,
        record { ver = pos (flags / 2 ^ 5 % 2 ^ 3 * 2 ^ 4); ts_id = ts_id; prog = services qs },
      )
unfolding do_pat
do_pat-pat_section ts_id flags qs crc pat h f short a k new =
    let len = 9 + length qs * 4 in
    let high : (0xb0 + len / 2 ^ 8) % 2 ^ 4 * 2 ^ 8 + len % 2 ^ 8 ≡ len = omega (arith, short) in
    let low_bit : (0xb0 + len / 2 ^ 8) % 2 ≡ 0 = omega (arith, short) in
    let count : (len - 9) / 4 ≡ length qs = omega arith in
    let ts : ts_id / 2 ^ 8 * 2 ^ 8 + ts_id % 2 ^ 8 ≡ ts_id = omega arith in
    let pre =
      0x00
      ∷ (0xb0 + len / 2 ^ 8)
      ∷ (len % 2 ^ 8)
      ∷ (ts_id / 2 ^ 8)
      ∷ (ts_id % 2 ^ 8)
      ∷ flags
      ∷ 0x00
      ∷ 0x00
      ∷ [] in
    let loop = pat_loop-entries qs [] pre crc 8 a refl (omega (arith, k)) in
    let read_as : ℕ → Option (ℕ × Pat) = λ t.
      some
        (0, record { ver = pos (flags / 2 ^ 5 % 2 ^ 3 * 2 ^ 4); ts_id = t; prog = services qs }) in
    rw (do_pat, high, low_bit, count, ts, f, new, loop) (ap read_as ts)
