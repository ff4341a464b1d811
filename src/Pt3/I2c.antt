-- ===== src/Pt3/I2c.antt =====
-- The instructions that `pt3_i2c_xfr` of drivers/media/pci/ptx/pt3_pci.c writes for a transfer, two
-- in a byte.
use ptx.Base.{
  ℕ, zero, suc, ◌+◌, ◌*◌, ◌/◌, ◌%◌, ◌^◌, Bool, true, false, List, [], ◌∷◌, ◌++◌, ◌==◌,
  if◌then◌else◌,
}

-- `enum pt3_i2c_cmd`, the commands that are used
abbrev pub i_end : ℕ
i_end = 0

abbrev pub i_clock_l : ℕ
i_clock_l = 2

abbrev pub i_clock_h : ℕ
i_clock_h = 3

abbrev pub i_data_l : ℕ
i_data_l = 4

abbrev pub i_data_h : ℕ
i_data_h = 5

abbrev pub i_data_l_nop : ℕ
i_data_l_nop = 0x08

abbrev pub i_data_h_nop : ℕ
i_data_h_nop = 0x0c

abbrev pub i_data_h_read : ℕ
i_data_h_read = 0x0d

abbrev pub i_data_h_ack0 : ℕ
i_data_h_ack0 = 0x0e

-- The locals that `i2c_shoot` changes: `mem` holds the bytes written, `offset` is its length.
pub record Shooter : Type 0 where
  pub filled : Bool
  pub buf : ℕ
  pub mem : List ℕ

-- `buf |= dat << 4`: the bits are apart, since an instruction has four.
unfoldable pub i2c_shoot : ℕ → Shooter → Shooter
i2c_shoot dat s =
    if s.filled
    then (let b = (s.buf + dat * 2 ^ 4) % 2 ^ 8 in
        record { filled = false; buf = b; mem = s.mem ++ (b ∷ []) })
    else record s { filled = true; buf = dat }

-- The inner loop of `i2c_w`, with `left` bits still to go, the highest first.
unfoldable pub shoot_bits : ℕ → ℕ → Shooter → Shooter
shoot_bits zero x s = s
shoot_bits (suc left) x s =
    shoot_bits left x (i2c_shoot (if x / 2 ^ left % 2 == 1 then i_data_h_nop else i_data_l_nop) s)

unfoldable pub i2c_w : List ℕ → Shooter → Shooter
i2c_w [] s = s
i2c_w (x ∷ rest) s = i2c_w rest (i2c_shoot i_data_h_ack0 (shoot_bits 8 x s))

unfoldable pub shoot_reads : ℕ → Shooter → Shooter
shoot_reads zero s = s
shoot_reads (suc left) s = shoot_reads left (i2c_shoot i_data_h_read s)

-- `i == size - 1` in the last of the rounds that are left.
unfoldable pub i2c_r : ℕ → Shooter → Shooter
i2c_r zero s = s
i2c_r (suc left) s =
    i2c_r left (i2c_shoot (if left == 0 then i_data_h_nop else i_data_l_nop) (shoot_reads 8 s))

-- `struct i2c_msg`: `flags == I2C_M_RD` is `rd`, the only flag that the callers use; `buf` holds
-- `len` bytes.
pub record Msg : Type 0 where
  pub addr : ℕ
  pub rd : Bool
  pub len : ℕ
  pub buf : List ℕ

abbrev pub address_byte : Msg → ℕ
address_byte m = (m.addr * 2 + (if m.rd then 1 else 0)) % 2 ^ 8

unfoldable pub shoot_start : Shooter → Shooter
shoot_start s =
    i2c_shoot i_clock_l (i2c_shoot i_data_l (i2c_shoot i_clock_h (i2c_shoot i_data_h s)))

unfoldable pub shoot_body : Msg → Shooter → Shooter
shoot_body m s = if m.rd then i2c_r m.len s else i2c_w m.buf s

unfoldable pub shoot_msg : Msg → Shooter → Shooter
shoot_msg m s = shoot_body m (i2c_w (address_byte m ∷ []) (shoot_start s))

unfoldable pub shoot_msgs : List Msg → Shooter → Shooter
shoot_msgs [] s = s
shoot_msgs (m ∷ rest) s = shoot_msgs rest (shoot_msg m s)

-- The stop, the end, and a second end where the last byte is half full.
unfoldable pub shoot_stop : Shooter → Shooter
shoot_stop s =
    let s' = i2c_shoot i_end (i2c_shoot i_data_h (i2c_shoot i_clock_h (i2c_shoot i_data_l s))) in
    if s'.filled then i2c_shoot i_end s' else s'

-- The memory of the FPGA for a transfer.
unfoldable pub i2c_code : List Msg → List ℕ
i2c_code msgs = (shoot_stop (shoot_msgs msgs (record { filled = false; buf = 0; mem = [] }))).mem
