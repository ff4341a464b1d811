-- ===== src/Splitter/Crc.antt =====
-- `GetPid` and `GetCrc32` of apps/cdev/recpt1/tssplitter_lite.c.
use ptx.Base.{
  ℕ, zero, suc, ◌+◌, ◌*◌, ◌/◌, ◌%◌, ◌^◌, List, [], ◌∷◌, bit_xor, ◌=/=◌, if◌then◌else◌, get_or, take,
}

abbrev pub byte : List ℕ → ℕ → ℕ
byte buf i = get_or buf i 0

-- The 13 bits at `buf[i]` and `buf[i + 1]`.
unfoldable pub get_pid : List ℕ → ℕ → ℕ
get_pid buf i = byte buf i % 2 ^ 5 * 2 ^ 8 + byte buf (i + 1)

-- The body of the inner loop: `crc` is shifted, and the polynomial is added where the bit shifted
-- out differs from the bit of the data.
unfoldable pub crc_bit : ℕ → ℕ → ℕ
crc_bit crc b =
    let c = crc / 2 ^ 31 % 2 in
    let shifted = crc * 2 % 2 ^ 32 in
    (if c =/= b then bit_xor shifted 0x04c11db7 else shifted) % 2 ^ 32

-- The inner loop, with `left` bits still to go, the highest first.
unfoldable pub crc_bits : ℕ → ℕ → ℕ → ℕ
crc_bits zero x crc = crc
crc_bits (suc left) x crc = crc_bits left x (crc_bit crc (x / 2 ^ left % 2))

unfoldable pub crc_loop : List ℕ → ℕ → ℕ
crc_loop [] crc = crc
crc_loop (x ∷ rest) crc = crc_loop rest (crc_bits 8 x crc)

unfoldable pub get_crc32 : List ℕ → ℕ → ℕ
get_crc32 buf len = crc_loop (take len buf) 0xffffffff

-- The four bytes of a checksum as `RecreatePat` stores it.
abbrev pub crc_bytes : ℕ → List ℕ
crc_bytes crc =
    (crc / 2 ^ 24 % 2 ^ 8) ∷ (crc / 2 ^ 16 % 2 ^ 8) ∷ (crc / 2 ^ 8 % 2 ^ 8) ∷ (crc % 2 ^ 8) ∷ []
