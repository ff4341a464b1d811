-- ===== src/Pt3/Codes.antt =====
-- The instructions of a transfer of drivers/media/pci/ptx/pt3_pci.c as a flat list, part by part.
use ptx.Base.{ℕ, zero, suc, ◌/◌, ◌%◌, ◌^◌, List, [], ◌∷◌, ◌++◌, ◌==◌, if◌then◌else◌}
use ptx.Pt3.I2c.{
  i_end, i_clock_l, i_clock_h, i_data_l, i_data_h, i_data_l_nop, i_data_h_nop, i_data_h_read,
  i_data_h_ack0, Msg, address_byte,
}

-- The instructions of each part.
unfoldable pub bit_codes : ℕ → ℕ → List ℕ
bit_codes zero x = []
bit_codes (suc left) x =
    (if x / 2 ^ left % 2 == 1 then i_data_h_nop else i_data_l_nop) ∷ bit_codes left x

unfoldable pub byte_codes : List ℕ → List ℕ
byte_codes [] = []
byte_codes (x ∷ rest) = bit_codes 8 x ++ (i_data_h_ack0 ∷ byte_codes rest)

unfoldable pub read_bit_codes : ℕ → List ℕ
read_bit_codes zero = []
read_bit_codes (suc left) = i_data_h_read ∷ read_bit_codes left

unfoldable pub read_codes : ℕ → List ℕ
read_codes zero = []
read_codes (suc left) =
    read_bit_codes 8 ++ ((if left == 0 then i_data_h_nop else i_data_l_nop) ∷ read_codes left)

-- The low half of a byte is the first instruction.
unfoldable pub unpack : List ℕ → List ℕ
unpack [] = []
unpack (b ∷ rest) = (b % 2 ^ 4) ∷ (b / 2 ^ 4) ∷ unpack rest

abbrev pub start_codes : List ℕ
start_codes = i_data_h ∷ i_clock_h ∷ i_data_l ∷ i_clock_l ∷ []

unfoldable pub body_codes : Msg → List ℕ
body_codes m = if m.rd then read_codes m.len else byte_codes m.buf

unfoldable pub msg_codes : Msg → List ℕ
msg_codes m = start_codes ++ (byte_codes (address_byte m ∷ []) ++ body_codes m)

unfoldable pub msgs_codes : List Msg → List ℕ
msgs_codes [] = []
msgs_codes (m ∷ rest) = msg_codes m ++ msgs_codes rest

abbrev pub stop_codes : List ℕ
stop_codes = i_data_l ∷ i_clock_h ∷ i_data_h ∷ i_end ∷ []
