-- ===== src/Splitter/Rebuild.antt =====
-- The loops of `AnalyzePat` over the programs of a PAT, and `RecreatePat`, of
-- apps/cdev/recpt1/tssplitter_lite.c.
use ptx.Base.{
  ℕ, zero, suc, ◌+◌, ◌-◌, ◌*◌, ◌/◌, ◌%◌, ◌^◌, Option, none, some, List, [], ◌∷◌, ◌++◌, ◌==◌, ltb,
  if◌then◌else◌, length, replicate,
}
use ptx.Splitter.Crc.{byte, get_pid, get_crc32, crc_bytes}

-- `pid_num * 4` bytes: the four bytes at each of the positions.
unfoldable pub entries : List ℕ → List ℕ → List ℕ
entries buf [] = []
entries buf (p ∷ rest) =
    byte buf p ∷ byte buf (p + 1) ∷ byte buf (p + 2) ∷ byte buf (p + 3) ∷ entries buf rest

-- The nonzero positions of the table `pos` from index `i` on, in the order of the PIDs.
unfoldable pub chosen : ℕ → ℕ → (ℕ → ℕ) → List ℕ
chosen zero i pos = []
chosen (suc left) i pos =
    if pos i == 0 then chosen left (i + 1) pos else pos i ∷ chosen left (i + 1) pos

abbrev pub max_pid : ℕ
max_pid = 8192

-- `y`: the header from the table's identifier on, with the new length, the entry of the NIT, and
-- the entries kept.
unfoldable pub section : List ℕ → List ℕ → List ℕ
unfolding entries
section buf positions =
    byte buf 5
    ∷ byte buf 6
    ∷ ((length positions * 4 + 0x0d) % 2 ^ 8)
    ∷ byte buf 8
    ∷ byte buf 9
    ∷ byte buf 10
    ∷ byte buf 11
    ∷ byte buf 12
    ∷ 0x00
    ∷ 0x00
    ∷ 0xe0
    ∷ 0x10
    ∷ entries buf positions

unfoldable pub head : List ℕ → List ℕ
head buf = byte buf 0 ∷ byte buf 1 ∷ byte buf 2 ∷ byte buf 3 ∷ byte buf 4 ∷ []

-- The new packet: the packet's header, the section, its checksum, and 0xff up to 188 bytes.
unfoldable pub rebuilt : List ℕ → List ℕ → List ℕ
rebuilt buf positions =
    let y = section buf positions in
    let n = 12 + length positions * 4 in
    head buf ++ (y ++ crc_bytes (get_crc32 y n)) ++ replicate (188 - (5 + n + 4)) 0xff

-- `none` where the section does not fit the 176 bytes of `y`: the code writes past its end.
unfoldable pub recreate_pat : List ℕ → (ℕ → ℕ) → Option (List ℕ)
recreate_pat buf pos =
    let positions = chosen max_pid 0 pos in
    if ltb 176 (12 + length positions * 4) then none else some (rebuilt buf positions)

-- A program of a PAT: its position in the packet, its service and the PID of its PMT.
pub record Program : Type 0 where
  pub at : ℕ
  pub service_id : ℕ
  pub pid : ℕ

unfoldable pub service_at : List ℕ → ℕ → ℕ
service_at buf i = byte buf i * 2 ^ 8 + byte buf (i + 1)

-- The rounds of `for(i = 13; i < (size + 8) - 4; i = i + 4)`.
abbrev pub rounds : ℕ → ℕ
rounds size = (size - 9 + 3) / 4

-- The loop from position `i` on; the entry of the NIT, PID 0x0010, is passed over.
unfoldable pub programs : ℕ → List ℕ → ℕ → List Program
programs zero buf i = []
programs (suc left) buf i =
    let rest = programs left buf (i + 4) in
    let pid = get_pid buf (i + 2) in
    if pid == 0x0010
    then rest
    else record { at = i; service_id = service_at buf i; pid = pid } ∷ rest

unfoldable pub programs_of : List ℕ → List Program
programs_of buf = programs (rounds (byte buf 7)) buf 13
