-- ===== src/Splitter/Residue.antt =====
-- The checksum of apps/cdev/recpt1/tssplitter_lite.c over data that ends in its own checksum.
use ptx.Base.{
  ℕ, zero, suc, ◌*◌, ◌/◌, ◌%◌, ◌^◌, ◌<◌, ◌≡◌, refl, ap, List, [], ◌∷◌, ◌++◌, arith, length, take,
}
use ptx.Splitter.Crc.{crc_bit, crc_bits, crc_loop, get_crc32, crc_bytes}

crc_bit-lt : (crc b : ℕ) → crc_bit crc b < 2 ^ 32
unfolding crc_bit
crc_bit-lt crc b = omega arith

crc_bits-lt : (left x crc : ℕ) → crc < 2 ^ 32 → crc_bits left x crc < 2 ^ 32
unfolding crc_bits
crc_bits-lt zero x crc h = h
crc_bits-lt (suc left) x crc h =
    crc_bits-lt left x (crc_bit crc (x / 2 ^ left % 2)) (crc_bit-lt _ _)

pub crc_loop-lt : (bs : List ℕ) (crc : ℕ) → crc < 2 ^ 32 → crc_loop bs crc < 2 ^ 32
unfolding crc_loop
crc_loop-lt [] crc h = h
crc_loop-lt (x ∷ rest) crc h = crc_loop-lt rest (crc_bits 8 x crc) (crc_bits-lt 8 x crc h)

-- A bit of data equal to the one shifted out leaves a plain shift.
crc_bit-top : (crc b d : ℕ) → b ≡ crc / 2 ^ 31 % 2 → d ≡ crc * 2 % 2 ^ 32 → crc_bit crc b ≡ d
unfolding crc_bit
crc_bit-top crc b d e f = ground arith

-- A byte equal to the eight bits at the top is shifted out without a trace.
crc_bits-top :
    (crc x : ℕ) → crc < 2 ^ 32 → x ≡ crc / 2 ^ 24 → crc_bits 8 x crc ≡ crc * 2 ^ 8 % 2 ^ 32
unfolding crc_bits
crc_bits-top crc x h e = rw (
  crc_bit-top crc (x / 2 ^ 7 % 2) (crc * 2 % 2 ^ 32) (omega arith) (omega arith),
  crc_bit-top (crc * 2 % 2 ^ 32) (x / 2 ^ 6 % 2) (crc * 2 ^ 2 % 2 ^ 32) (omega arith) (omega arith),
  crc_bit-top (crc * 2 ^ 2 % 2 ^ 32) (x / 2 ^ 5 % 2) (crc * 2 ^ 3 % 2 ^ 32) (omega arith)
      (omega arith),
  crc_bit-top (crc * 2 ^ 3 % 2 ^ 32) (x / 2 ^ 4 % 2) (crc * 2 ^ 4 % 2 ^ 32) (omega arith)
      (omega arith),
  crc_bit-top (crc * 2 ^ 4 % 2 ^ 32) (x / 2 ^ 3 % 2) (crc * 2 ^ 5 % 2 ^ 32) (omega arith)
      (omega arith),
  crc_bit-top (crc * 2 ^ 5 % 2 ^ 32) (x / 2 ^ 2 % 2) (crc * 2 ^ 6 % 2 ^ 32) (omega arith)
      (omega arith),
  crc_bit-top (crc * 2 ^ 6 % 2 ^ 32) (x / 2 ^ 1 % 2) (crc * 2 ^ 7 % 2 ^ 32) (omega arith)
      (omega arith),
  crc_bit-top (crc * 2 ^ 7 % 2 ^ 32) (x / 2 ^ 0 % 2) (crc * 2 ^ 8 % 2 ^ 32) (omega arith)
      (omega arith),
)

crc_loop-append :
    (xs ys : List ℕ) (crc : ℕ) → crc_loop (xs ++ ys) crc ≡ crc_loop ys (crc_loop xs crc)
unfolding crc_loop
crc_loop-append [] ys crc = refl
crc_loop-append (x ∷ xs) ys crc = crc_loop-append xs ys (crc_bits 8 x crc)

crc_loop-crc_bytes : (crc : ℕ) → crc < 2 ^ 32 → crc_loop (crc_bytes crc) crc ≡ 0
unfolding crc_loop
crc_loop-crc_bytes crc h =
    rw
      (
        crc_bits-top crc (crc / 2 ^ 24 % 2 ^ 8) h (omega arith),
        crc_bits-top (crc * 2 ^ 8 % 2 ^ 32) (crc / 2 ^ 16 % 2 ^ 8) (omega arith) (omega arith),
        crc_bits-top (crc * 2 ^ 8 % 2 ^ 32 * 2 ^ 8 % 2 ^ 32) (crc / 2 ^ 8 % 2 ^ 8) (omega arith)
            (omega arith),
        crc_bits-top (crc * 2 ^ 8 % 2 ^ 32 * 2 ^ 8 % 2 ^ 32 * 2 ^ 8 % 2 ^ 32) (crc % 2 ^ 8)
            (omega arith) (omega arith),
      )
      (omega arith)

take-length : (xs : List ℕ) → take (length xs) xs ≡ xs
take-length [] = refl
take-length (x ∷ xs) = ap (λ l. x ∷ l) (take-length xs)

-- A receiver's check: over any data followed by the four bytes of its checksum, the checksum is 0.
pub get_crc32-append :
    (xs : List ℕ)
    → let crc = get_crc32 xs (length xs) in
      get_crc32 (xs ++ crc_bytes crc) (length (xs ++ crc_bytes crc)) ≡ 0
unfolding get_crc32
get_crc32-append xs =
    let crc = crc_loop xs 0xffffffff in
    rw
      (
        take-length xs,
        take-length (xs ++ crc_bytes crc),
        crc_loop-append xs (crc_bytes crc) 0xffffffff,
      )
      (crc_loop-crc_bytes crc (crc_loop-lt xs 0xffffffff (omega arith)))
