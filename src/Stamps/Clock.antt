-- ===== src/Stamps/Clock.antt =====
-- The time stamps in the bytes of a packet: `pts_diff`, `get_pcr`, `get_pts` and `set_pts` of
-- apps/dvb/cmds/fixpcr.c with its writes of a PCR and an ESCR, and `get_pcr` of restamp.c.
use ptx.Base.{ℕ, ◌+◌, ◌-◌, ◌*◌, ◌/◌, ◌%◌, ◌^◌, Option, List, [], ◌∷◌, ltb, if◌then◌else◌, memcpy}
use ptx.Splitter.Crc.{byte}

-- `PTS_MSB << 1`, where the time stamps start again, and in units of 27 MHz.
abbrev pub pts_end : ℕ
pts_end = 2 ^ 33

abbrev pub pts_threshold : ℕ
pts_threshold = 45000 * 300

abbrev pub uint64 : ℕ → ℕ
uint64 x = x % 2 ^ 64

-- An `int` of which only the lowest 32 bits are right, as it is widened to 64.
abbrev pub widened : ℕ → ℕ
widened x = let y = x % 2 ^ 32 in if ltb y (2 ^ 31) then y else y + (2 ^ 64 - 2 ^ 32)

unfoldable pub pts_diff : ℕ → ℕ → ℕ
pts_diff a b = let c = if ltb a b then uint64 (a + pts_end * 300) else a in uint64 (c + 2 ^ 64 - b)

-- The lowest 25 bits of the base at `p`, which both programs read alike.
abbrev pub pcr_low : List ℕ → ℕ → ℕ
pcr_low buf p =
    byte buf (p + 1) * 2 ^ 17
    + byte buf (p + 2) * 2 ^ 9
    + byte buf (p + 3) * 2
    + byte buf (p + 4) / 2 ^ 7 % 2

abbrev pub pcr_ext : List ℕ → ℕ → ℕ
pcr_ext buf p = byte buf (p + 4) % 2 * 2 ^ 8 + byte buf (p + 5)

-- The first byte is 6 too high, since the streams come from a GStreamer that adds 6.
unfoldable pub get_pcr : List ℕ → ℕ → ℕ
get_pcr buf p =
    uint64
      (uint64 (uint64 (byte buf p + 2 ^ 64 - 6) * 2 ^ 25 + pcr_low buf p) * 300 + pcr_ext buf p)

-- `get_pcr` of restamp.c.
unfoldable pub plain_pcr : List ℕ → ℕ → ℕ
plain_pcr buf p = (byte buf p * 2 ^ 25 + pcr_low buf p) * 300 + pcr_ext buf p

unfoldable pub get_pts : List ℕ → ℕ → ℕ
get_pts buf p =
    byte buf p / 2 % 2 ^ 3 * 2 ^ 30
    + byte buf (p + 1) * 2 ^ 22
    + byte buf (p + 2) / 2 % 2 ^ 7 * 2 ^ 15
    + byte buf (p + 3) * 2 ^ 7
    + byte buf (p + 4) / 2

-- The five bytes that `set_pts` writes, where the first has been `b`.
unfoldable pub pts_bytes : ℕ → ℕ → List ℕ
pts_bytes b val =
    (b / 2 ^ 4 % 2 ^ 4 * 2 ^ 4 + val / 2 ^ 30 % 2 ^ 3 * 2 + b % 2)
    ∷ (val / 2 ^ 22 % 2 ^ 8)
    ∷ (val / 2 ^ 15 % 2 ^ 7 * 2 + 1)
    ∷ (val / 2 ^ 7 % 2 ^ 8)
    ∷ (val % 2 ^ 7 * 2 + 1)
    ∷ []

unfoldable pub set_pts : List ℕ → ℕ → ℕ → Option (List ℕ)
set_pts buf p val = memcpy buf p (pts_bytes (byte buf p) val)

-- The bytes of a PCR that are written.
unfoldable pub pcr_bytes : ℕ → List ℕ
pcr_bytes newpts =
    let base = newpts / 300 in
    let ext = newpts % 300 in
    (base / 2 ^ 25 % 2 ^ 8)
    ∷ (base / 2 ^ 17 % 2 ^ 8)
    ∷ (base / 2 ^ 9 % 2 ^ 8)
    ∷ (base / 2 % 2 ^ 8)
    ∷ (base % 2 * 2 ^ 7 + (0x3e + ext / 2 ^ 8 % 2))
    ∷ (ext % 2 ^ 8)
    ∷ []

-- The ESCR at `p`.
unfoldable pub get_escr : List ℕ → ℕ → ℕ
get_escr buf p =
    let base = widened (
      byte buf p / 2 ^ 3 % 2 ^ 3 * 2 ^ 30
      + byte buf p % 2 ^ 2 * 2 ^ 28
      + byte buf (p + 1) * 2 ^ 20
      + byte buf (p + 2) / 2 ^ 3 % 2 ^ 5 * 2 ^ 15
      + byte buf (p + 2) % 2 ^ 2 * 2 ^ 13
      + byte buf (p + 3) * 2 ^ 5
      + byte buf (p + 4) / 2 ^ 3 % 2 ^ 5) in
    let ext = byte buf (p + 4) % 2 ^ 2 * 2 ^ 7 + byte buf (p + 5) / 2 in uint64 (base * 300 + ext)

-- The bytes of an ESCR that are written, with shifts to the left as in the code.
unfoldable pub escr_bytes : ℕ → List ℕ
escr_bytes newpts =
    let base = newpts / 300 in
    let ext = newpts % 300 in
    (base * 2 ^ 29 / 2 ^ 3 % 2 ^ 3 * 2 ^ 3 + 4 + base * 2 ^ 28 % 2 ^ 2)
    ∷ (base * 2 ^ 20 % 2 ^ 8)
    ∷ (base * 2 ^ 12 / 2 ^ 3 % 2 ^ 5 * 2 ^ 3 + 4 + base * 2 ^ 13 % 2 ^ 2)
    ∷ (base * 2 ^ 5 % 2 ^ 8)
    ∷ (base * 2 ^ 3 / 2 ^ 3 % 2 ^ 5 * 2 ^ 3 + 4 + ext / 2 ^ 7 % 2 ^ 2)
    ∷ (ext % 2 ^ 7 * 2 + 1)
    ∷ []
