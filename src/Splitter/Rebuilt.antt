-- ===== src/Splitter/Rebuilt.antt =====
-- The packet that `RecreatePat` of apps/cdev/recpt1/tssplitter_lite.c makes, read back.
use ptx.Base.{
  ℕ, zero, suc, ◌+◌, ◌-◌, ◌*◌, ◌%◌, ◌^◌, ◌≤◌, ◌≡◌, refl, false, ap, sym, List, [], ◌∷◌, ◌++◌,
  append_assoc, map, arith, ◌==◌, ltb, ◌<◌, ◌⊎◌, inl, inr, none, some, Bool-cases, length,
  replicate, take, drop, length-append, length-replicate, take-append,
}
use ptx.Splitter.Crc.{byte, get_pid, get_crc32, crc_bytes}
use ptx.Splitter.Residue.{get_crc32-append}
use ptx.Splitter.Rebuild.{
  entries, section, head, rebuilt, Program, service_at, rounds, programs, programs_of, chosen,
  max_pid, recreate_pat,
}

pub byte-append : (xs ys : List ℕ) (j k : ℕ) → k ≡ length xs + j → byte (xs ++ ys) k ≡ byte ys j
byte-append [] ys j k e = ap (byte ys) (omega arith)
byte-append (x ∷ xs) ys j zero e = absurd (omega arith)
byte-append (x ∷ xs) ys j (suc k) e = byte-append xs ys j k (omega arith)

length-entries : (buf positions : List ℕ) → length (entries buf positions) ≡ length positions * 4
unfolding entries
length-entries buf [] = refl
length-entries buf (p ∷ rest) = omega (arith, length-entries buf rest)

length-section :
    (buf positions : List ℕ) → length (section buf positions) ≡ 12 + length positions * 4
unfolding section
length-section buf positions = omega (arith, length-entries buf positions)

-- What the loop reads of an entry that was copied from position `p` of `buf`.
module _ (buf pre rest : List ℕ) (p i : ℕ) (e : i ≡ length pre) where
  abbrev copied : List ℕ
  copied = pre ++ (byte buf p ∷ byte buf (p + 1) ∷ byte buf (p + 2) ∷ byte buf (p + 3) ∷ rest)

  service_at-copied : service_at copied i ≡ service_at buf p
  unfolding service_at
  service_at-copied =
      let ys = byte buf p ∷ byte buf (p + 1) ∷ byte buf (p + 2) ∷ byte buf (p + 3) ∷ rest in
      rw (byte-append pre ys 0 i (omega arith), byte-append pre ys 1 (i + 1) (omega arith))

  get_pid-copied : get_pid copied (i + 2) ≡ get_pid buf (p + 2)
  unfolding get_pid
  get_pid-copied =
      let ys = byte buf p ∷ byte buf (p + 1) ∷ byte buf (p + 2) ∷ byte buf (p + 3) ∷ rest in
      let e3 : p + 2 + 1 ≡ p + 3 = omega arith in
      rw (
        byte-append pre ys 2 (i + 2) (omega arith),
        byte-append pre ys 3 (i + 2 + 1) (omega arith),
        e3,
      )

abbrev pub seen : Program → ℕ × ℕ
seen q = (q.service_id, q.pid)

abbrev pub original : List ℕ → ℕ → ℕ × ℕ
original buf p = (service_at buf p, get_pid buf (p + 2))

-- No kept entry is that of the NIT.
abbrev pub NotNit : List ℕ → List ℕ → Type 0
NotNit buf [] = Unit
NotNit buf (p ∷ rest) = ((get_pid buf (p + 2) == 0x0010) ≡ false) × NotNit buf rest

programs-entries :
    (buf positions pre rest : List ℕ) (i : ℕ)
    → i ≡ length pre
    → NotNit buf positions
    → map seen (programs (length positions) (pre ++ (entries buf positions ++ rest)) i)
      ≡ map (original buf) positions
unfolding programs entries
programs-entries buf [] pre rest i e h = refl
programs-entries buf (p ∷ ps) pre rest i e h =
    let four = byte buf p ∷ byte buf (p + 1) ∷ byte buf (p + 2) ∷ byte buf (p + 3) ∷ [] in
    let tail = entries buf ps ++ rest in
    let ih =
      programs-entries buf ps (pre ++ four) rest (i + 4) (omega (arith, length-append pre four))
        h.1 in
    rw (get_pid-copied buf pre tail p i e, h.0, service_at-copied buf pre tail p i e)
      (ap (λ l. original buf p ∷ l) (rw (append_assoc pre four tail) at ih))

module _ (buf positions : List ℕ) where
  abbrev n : ℕ
  n = length positions * 4

  abbrev crc : ℕ
  crc = get_crc32 (section buf positions) (12 + n)

  abbrev fill : List ℕ
  fill = replicate (188 - (5 + (12 + n) + 4)) 0xff

  length-rebuilt : length positions ≤ 41 → length (rebuilt buf positions) ≡ 188
  unfolding rebuilt head
  length-rebuilt h = omega (
    arith,
    length-append (section buf positions ++ crc_bytes crc) fill,
    length-append (section buf positions) (crc_bytes crc),
    length-section buf positions,
    length-replicate {A = ℕ} (188 - (5 + (12 + n) + 4)) 0xff,
  )

  size-rebuilt : length positions ≤ 41 → byte (rebuilt buf positions) 7 ≡ n + 13
  unfolding rebuilt head section
  size-rebuilt h = omega arith

  drop-rebuilt : drop 5 (rebuilt buf positions) ≡ (section buf positions ++ crc_bytes crc) ++ fill
  unfolding rebuilt head
  drop-rebuilt = refl

  length-summed : length (section buf positions ++ crc_bytes crc) ≡ n + 13 + 3
  length-summed =
      omega
        (arith, length-append (section buf positions) (crc_bytes crc), length-section buf positions)

  section-rebuilt :
      length positions ≤ 41
      → take (byte (rebuilt buf positions) 7 + 3) (drop 5 (rebuilt buf positions))
        ≡ section buf positions ++ crc_bytes crc
  section-rebuilt h =
      rw (size-rebuilt h, drop-rebuilt, ← length-summed)
        (take-append (section buf positions ++ crc_bytes crc) fill)

  nit-rebuilt : get_pid (rebuilt buf positions) 15 ≡ 0x0010
  unfolding rebuilt head section get_pid
  nit-rebuilt = refl

  -- The first 17 bytes, up to the entries kept.
  start-rebuilt :
      (pre rest : List ℕ) × (length pre ≡ 17)
      × (rebuilt buf positions ≡ pre ++ (entries buf positions ++ rest))
  unfolding rebuilt head section
  start-rebuilt =
      let pre : List ℕ =
        byte buf 0
        ∷ byte buf 1
        ∷ byte buf 2
        ∷ byte buf 3
        ∷ byte buf 4
        ∷ byte buf 5
        ∷ byte buf 6
        ∷ ((length positions * 4 + 0x0d) % 2 ^ 8)
        ∷ byte buf 8
        ∷ byte buf 9
        ∷ byte buf 10
        ∷ byte buf 11
        ∷ byte buf 12
        ∷ 0x00
        ∷ 0x00
        ∷ 0xe0
        ∷ 0x10
        ∷ [] in
      (
        pre,
        crc_bytes crc ++ fill,
        refl,
        ap (λ l. pre ++ l) (append_assoc (entries buf positions) (crc_bytes crc) fill),
      )

  checksum-rebuilt :
      length positions ≤ 41
      → let s = take (byte (rebuilt buf positions) 7 + 3) (drop 5 (rebuilt buf positions)) in
        get_crc32 s (length s) ≡ 0
  checksum-rebuilt h =
      rw (section-rebuilt h, ← length-section buf positions)
        (get_crc32-append (section buf positions))

  programs-rebuilt :
      length positions ≤ 41
      → NotNit buf positions
      → map seen (programs_of (rebuilt buf positions)) ≡ map (original buf) positions
  unfolding programs_of programs
  programs-rebuilt h k =
      let (pre, rest, l, e) = start-rebuilt in
      let r : rounds (n + 13) ≡ suc (length positions) = omega arith in
      rw (size-rebuilt h, r, nit-rebuilt)
        (rw e (programs-entries buf positions pre rest 17 (sym l) k))

-- Where `RecreatePat` makes a packet, and no kept entry is that of the NIT: it has 188 bytes; its
-- section, of the length that it states, has the checksum 0; and the loop of `AnalyzePat` reads
-- from it exactly the kept programs, in the order of their PIDs. It makes none exactly where more
-- than 41 entries are kept.
pub recreate_pat_lem :
    (buf : List ℕ) (pos : ℕ → ℕ)
    → NotNit buf (chosen max_pid 0 pos)
    → ((recreate_pat buf pos ≡ none) × (41 < length (chosen max_pid 0 pos)))
      ⊎ ((pat : List ℕ) × (recreate_pat buf pos ≡ some pat)
          × (length pat ≡ 188)
          × (get_crc32
                (take (byte pat 7 + 3) (drop 5 pat))
                (length (take (byte pat 7 + 3) (drop 5 pat)))
              ≡ 0)
          × (map seen (programs_of pat) ≡ map (original buf) (chosen max_pid 0 pos)))
unfolding recreate_pat
recreate_pat_lem buf pos k =
    let kept = chosen max_pid 0 pos in
    elim (Bool-cases (ltb 176 (12 + length kept * 4))) [
      | inl long ↦ inl (rw long, ground arith)
      | inr fits ↦
          let h : length kept ≤ 41 = ground arith in
          inr (
            rebuilt buf kept,
            rw fits,
            length-rebuilt buf kept h,
            checksum-rebuilt buf kept h,
            programs-rebuilt buf kept h k,
          )
    ]
