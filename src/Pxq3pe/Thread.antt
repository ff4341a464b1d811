-- ===== src/Pxq3pe/Thread.antt =====
-- `pxq3pe_thread` of drivers/media/pci/ptx/pxq3pe_pci.c. The tables `idx` and `xor` are parameters, since
-- they are parameters of the kernel module.
use ptx.Base.{
  ℕ, zero, suc, ◌+◌, ◌-◌, ◌*◌, ◌/◌, ◌%◌, ◌^◌, Option, none, some, List, [], ◌∷◌, ◌++◌, ◌==◌, ltb,
  if◌then◌else◌, take, drop, get_or, modify, bit_xor,
}
use ptx.Pxq3pe.Ring.{Pxq3peAdap, ts_size}

-- What the tables hold where the kernel module is loaded without parameters.
abbrev pub idx_default : List ℕ
idx_default = 0 ∷ 0 ∷ 3 ∷ 1 ∷ 0 ∷ 2 ∷ 1 ∷ 2 ∷ []

abbrev pub xor_default : List ℕ
xor_default = 0x2F ∷ 0x46 ∷ 0x56 ∷ 0xE3 ∷ []

-- `int sz`, the bytes of this round: those up to the end of the buffer, or all that is stored.
unfoldable pub round_size : Pxq3peAdap → ℕ
round_size p =
    let sz = p.s_buf_size - p.s_buf_start in
    if ltb p.s_buf_byte_cnt sz then p.s_buf_byte_cnt else sz

module _ (idx xor : List ℕ) where
  -- `b ^= xor[idx[k]]`
  abbrev pub xor_byte : ℕ → ℕ → ℕ
  xor_byte k b = bit_xor b (get_or xor (get_or idx k 0) 0) % 2 ^ 8

  -- `for (k = 0; k < 8; k++, i++)`, with `left` rounds left.
  unfoldable pub xor_group : ℕ → ℕ → ℕ → List ℕ → ℕ × List ℕ
  xor_group zero k i rbuf = (i, rbuf)
  xor_group (suc left) k i rbuf = xor_group left (k + 1) (i + 1) (modify rbuf i (xor_byte k))

  -- `while (i < j * PTX_TS_SIZE)`
  unfoldable pub xor_packet : ℕ → ℕ → ℕ → List ℕ → ℕ × List ℕ
  xor_packet zero j i rbuf = (i, rbuf)
  xor_packet (suc fuel) j i rbuf =
      let (i', rbuf') = xor_group 8 0 i rbuf in
      let rest = xor_packet fuel j i' rbuf' in if ltb i (j * ts_size) then rest else (i, rbuf)

  -- `while (j < sz / PTX_TS_SIZE)`, with `left` rounds left.
  unfoldable pub xor_packets : ℕ → ℕ → ℕ → List ℕ → List ℕ
  xor_packets zero j i rbuf = rbuf
  xor_packets (suc left) j i rbuf =
      let (i', rbuf') = xor_packet 24 (j + 1) (i + 4) rbuf in xor_packets left (j + 1) i' rbuf'

  -- A round of the loop, and what it hands to the demultiplexer, if anything.
  unfoldable pub pxq3pe_thread : Pxq3peAdap → Pxq3peAdap × Option (List ℕ)
  pxq3pe_thread p =
      if p.s_buf_byte_cnt == 0
      then (p, none)
      else (let sz = round_size p in
          let rbuf = xor_packets (sz / ts_size) 0 0 (drop p.s_buf_start p.s_buf) in
          (
            record p {
              s_buf = take p.s_buf_start p.s_buf ++ rbuf;
              s_buf_start = (p.s_buf_start + sz) % 2 ^ 32 % p.s_buf_size;
              s_buf_byte_cnt = p.s_buf_byte_cnt - sz;
            },
            some (take sz rbuf),
          ))
