-- ===== src/Pt3/Packed.antt =====
-- That the bytes which `pt3_i2c_xfr` (drivers/media/pci/ptx/pt3_pci.c) packs for the memory of the FPGA
-- are the instructions of the transfer.
use ptx.Base.{
  ℕ, zero, suc, ◌+◌, ◌*◌, ◌/◌, ◌%◌, ◌^◌, ◌<◌, ◌≡◌, refl, ap, ◌∙◌, sym, true, false, List, [], ◌∷◌,
  ◌++◌, append_assoc, append-nil, arith, ◌==◌, if◌then◌else◌, Bool-cases, inl, inr, ◌⊎◌,
}
use ptx.Pt3.I2c.{
  i_end, i_clock_l, i_clock_h, i_data_l, i_data_h, i_data_l_nop, i_data_h_nop, i_data_h_read,
  i_data_h_ack0, Shooter, i2c_shoot, shoot_bits, i2c_w, shoot_reads, i2c_r, Msg, address_byte,
  shoot_start, shoot_body, shoot_msg, shoot_msgs, shoot_stop, i2c_code,
}
use ptx.Pt3.Codes.{
  unpack, bit_codes, byte_codes, read_bit_codes, read_codes, start_codes, body_codes, msg_codes,
  msgs_codes, stop_codes,
}

-- The shooter has written the instructions: all are in the memory, or the last one waits.
data Holds : Shooter → List ℕ → Type 0 where
  even :
      (b : ℕ) (mem is : List ℕ)
      → unpack mem ≡ is
      → Holds (record { filled = false; buf = b; mem = mem }) is
  odd :
      (b : ℕ) (mem is : List ℕ)
      → b < 2 ^ 4
      → unpack mem ++ (b ∷ []) ≡ is
      → Holds (record { filled = true; buf = b; mem = mem }) is

unpack-append : (xs ys : List ℕ) → unpack (xs ++ ys) ≡ unpack xs ++ unpack ys
unfolding unpack
unpack-append [] ys = refl
unpack-append (x ∷ xs) ys = ap (λ l. (x % 2 ^ 4) ∷ (x / 2 ^ 4) ∷ l) (unpack-append xs ys)

unpack-pair :
    (b i : ℕ) (mem : List ℕ)
    → b < 2 ^ 4
    → i < 2 ^ 4
    → unpack (mem ++ ((b + i * 2 ^ 4) % 2 ^ 8 ∷ [])) ≡ (unpack mem ++ (b ∷ [])) ++ (i ∷ [])
unfolding unpack
unpack-pair b i mem h k =
    let low : (b + i * 2 ^ 4) % 2 ^ 8 % 2 ^ 4 ≡ b = omega arith in
    let high : (b + i * 2 ^ 4) % 2 ^ 8 / 2 ^ 4 ≡ i = omega arith in
    unpack-append mem ((b + i * 2 ^ 4) % 2 ^ 8 ∷ [])
    ∙ (rw (low, high) refl ∙ sym (append_assoc (unpack mem) (b ∷ []) (i ∷ [])))

i2c_shoot-Holds :
    (i : ℕ) (s : Shooter) (is : List ℕ)
    → i < 2 ^ 4
    → Holds s is
    → Holds (i2c_shoot i s) (is ++ (i ∷ []))
unfolding i2c_shoot
i2c_shoot-Holds i _ _ h (even b mem is e) = odd i mem (is ++ (i ∷ [])) h (ap (λ l. l ++ (i ∷ [])) e)
i2c_shoot-Holds i _ _ h (odd b mem is k e) =
    even ((b + i * 2 ^ 4) % 2 ^ 8) (mem ++ ((b + i * 2 ^ 4) % 2 ^ 8 ∷ [])) (is ++ (i ∷ []))
      (unpack-pair b i mem k h ∙ ap (λ l. l ++ (i ∷ [])) e)

-- One more instruction, and then a part.
Holds-cons :
    (s : Shooter) (is js : List ℕ) (i : ℕ)
    → Holds s ((is ++ (i ∷ [])) ++ js)
    → Holds s (is ++ (i ∷ js))
Holds-cons s is js i h = rw (append_assoc is (i ∷ []) js) at h

shoot_bits-Holds :
    (left x : ℕ) (s : Shooter) (is : List ℕ)
    → Holds s is
    → Holds (shoot_bits left x s) (is ++ bit_codes left x)
unfolding shoot_bits bit_codes
shoot_bits-Holds zero x s is h = rw (append-nil is) h
shoot_bits-Holds (suc left) x s is h =
    let i = if x / 2 ^ left % 2 == 1 then i_data_h_nop else i_data_l_nop in
    Holds-cons (shoot_bits left x (i2c_shoot i s)) is (bit_codes left x) i (
      shoot_bits-Holds left x (i2c_shoot i s) (is ++ (i ∷ []))
        (i2c_shoot-Holds i s is (ground arith) h))

shoot_reads-Holds :
    (left : ℕ) (s : Shooter) (is : List ℕ)
    → Holds s is
    → Holds (shoot_reads left s) (is ++ read_bit_codes left)
unfolding shoot_reads read_bit_codes
shoot_reads-Holds zero s is h = rw (append-nil is) h
shoot_reads-Holds (suc left) s is h =
    Holds-cons (shoot_reads left (i2c_shoot i_data_h_read s)) is (read_bit_codes left) i_data_h_read
      (shoot_reads-Holds left (i2c_shoot i_data_h_read s) (is ++ (i_data_h_read ∷ []))
        (i2c_shoot-Holds i_data_h_read s is (omega arith) h))

i2c_w-Holds :
    (dat : List ℕ) (s : Shooter) (is : List ℕ)
    → Holds s is
    → Holds (i2c_w dat s) (is ++ byte_codes dat)
unfolding i2c_w byte_codes
i2c_w-Holds [] s is h = rw (append-nil is) h
i2c_w-Holds (x ∷ rest) s is h =
    let s1 = shoot_bits 8 x s in
    let h1 =
      i2c_shoot-Holds i_data_h_ack0 s1 (is ++ bit_codes 8 x) (omega arith)
        (shoot_bits-Holds 8 x s is h) in
    let h2 =
      i2c_w-Holds rest (i2c_shoot i_data_h_ack0 s1) ((is ++ bit_codes 8 x) ++ (i_data_h_ack0 ∷ []))
        h1 in
    rw
      (
        append_assoc (is ++ bit_codes 8 x) (i_data_h_ack0 ∷ []) (byte_codes rest),
        append_assoc is (bit_codes 8 x) (i_data_h_ack0 ∷ byte_codes rest),
      )
      at h2

i2c_r-Holds :
    (size : ℕ) (s : Shooter) (is : List ℕ)
    → Holds s is
    → Holds (i2c_r size s) (is ++ read_codes size)
unfolding i2c_r read_codes
i2c_r-Holds zero s is h = rw (append-nil is) h
i2c_r-Holds (suc left) s is h =
    let i = if left == 0 then i_data_h_nop else i_data_l_nop in
    let s1 = shoot_reads 8 s in
    let h1 =
      i2c_shoot-Holds i s1 (is ++ read_bit_codes 8) (ground arith) (shoot_reads-Holds 8 s is h) in
    let h2 = i2c_r-Holds left (i2c_shoot i s1) ((is ++ read_bit_codes 8) ++ (i ∷ [])) h1 in
    rw
      (
        append_assoc (is ++ read_bit_codes 8) (i ∷ []) (read_codes left),
        append_assoc is (read_bit_codes 8) (i ∷ read_codes left),
      )
      at h2

four-Holds :
    (a b c d : ℕ) (s : Shooter) (is : List ℕ)
    → (a < 2 ^ 4) × (b < 2 ^ 4) × (c < 2 ^ 4) × (d < 2 ^ 4)
    → Holds s is
    → Holds (i2c_shoot d (i2c_shoot c (i2c_shoot b (i2c_shoot a s)))) (is ++ (a ∷ b ∷ c ∷ d ∷ []))
four-Holds a b c d s is k h =
    let s1 = i2c_shoot a s in
    let s2 = i2c_shoot b s1 in
    let s3 = i2c_shoot c s2 in
    let s4 = i2c_shoot d s3 in
    let is1 = is ++ (a ∷ []) in
    let is2 = is1 ++ (b ∷ []) in
    let is3 = is2 ++ (c ∷ []) in
    let h3 =
      i2c_shoot-Holds c s2 is2 k.2 (i2c_shoot-Holds b s1 is1 k.1 (i2c_shoot-Holds a s is k.0 h)) in
    Holds-cons s4 is (b ∷ c ∷ d ∷ []) a (
      Holds-cons s4 is1 (c ∷ d ∷ []) b
        (Holds-cons s4 is2 (d ∷ []) c (i2c_shoot-Holds d s3 is3 k.3 h3)))

shoot_start-Holds :
    (s : Shooter) (is : List ℕ) → Holds s is → Holds (shoot_start s) (is ++ start_codes)
unfolding shoot_start
shoot_start-Holds s is h =
    four-Holds i_data_h i_clock_h i_data_l i_clock_l s is
      (omega arith, omega arith, omega arith, omega arith) h

shoot_body-Holds :
    (m : Msg) (s : Shooter) (is : List ℕ) → Holds s is → Holds (shoot_body m s) (is ++ body_codes m)
unfolding shoot_body body_codes
shoot_body-Holds m s is h = elim (Bool-cases m.rd) [
  | inl reading ↦ rw reading (i2c_r-Holds m.len s is h)
  | inr writing ↦ rw writing (i2c_w-Holds m.buf s is h)
]

shoot_msg-Holds :
    (m : Msg) (s : Shooter) (is : List ℕ) → Holds s is → Holds (shoot_msg m s) (is ++ msg_codes m)
unfolding shoot_msg msg_codes
shoot_msg-Holds m s is h =
    let adr = address_byte m ∷ [] in
    let h1 = i2c_w-Holds adr (shoot_start s) (is ++ start_codes) (shoot_start-Holds s is h) in
    let h2 =
      shoot_body-Holds m (i2c_w adr (shoot_start s)) ((is ++ start_codes) ++ byte_codes adr) h1 in
    rw
      (
        append_assoc (is ++ start_codes) (byte_codes adr) (body_codes m),
        append_assoc is start_codes (byte_codes adr ++ body_codes m),
      )
      at h2

shoot_msgs-Holds :
    (msgs : List Msg) (s : Shooter) (is : List ℕ)
    → Holds s is
    → Holds (shoot_msgs msgs s) (is ++ msgs_codes msgs)
unfolding shoot_msgs msgs_codes
shoot_msgs-Holds [] s is h = rw (append-nil is) h
shoot_msgs-Holds (m ∷ rest) s is h =
    rw (append_assoc is (msg_codes m) (msgs_codes rest)) at
      (shoot_msgs-Holds rest (shoot_msg m s) (is ++ msg_codes m) (shoot_msg-Holds m s is h))

-- The last half is filled up: nothing waits at the end.
pad-unpack :
    (s : Shooter) (is : List ℕ)
    → Holds s is
    → let s' = if s.filled then i2c_shoot i_end s else s in
      (unpack s'.mem ≡ is) ⊎ (unpack s'.mem ≡ is ++ (i_end ∷ []))
unfolding i2c_shoot
pad-unpack _ _ (even b mem is e) = inl e
pad-unpack _ _ (odd b mem is k e) =
    inr (unpack-pair b i_end mem k (omega arith) ∙ ap (λ l. l ++ (i_end ∷ [])) e)

-- The bytes that are packed for a transfer hold, four bits each and the lower four first, just these
-- instructions: for each message a start, the bits of its address byte, and the bits of its bytes, or
-- eight reads for each byte that is read, with the acknowledgements, the last byte read not being
-- acknowledged; then a stop and the end. Where their number is odd, one more end fills the last byte.
pub unpack-i2c_code :
    (msgs : List Msg)
    → (unpack (i2c_code msgs) ≡ msgs_codes msgs ++ stop_codes)
      ⊎ (unpack (i2c_code msgs) ≡ (msgs_codes msgs ++ stop_codes) ++ (i_end ∷ []))
unfolding i2c_code shoot_stop unpack
unpack-i2c_code msgs =
    let s0 : Shooter = record { filled = false; buf = 0; mem = [] } in
    let s1 = shoot_msgs msgs s0 in
    let h : Holds s1 (msgs_codes msgs) = shoot_msgs-Holds msgs s0 [] (even 0 [] [] refl) in
    pad-unpack (i2c_shoot i_end (i2c_shoot i_data_h (i2c_shoot i_clock_h (i2c_shoot i_data_l s1))))
      (msgs_codes msgs ++ stop_codes)
      (four-Holds i_data_l i_clock_h i_data_h i_end s1 (msgs_codes msgs)
        (omega arith, omega arith, omega arith, omega arith) h)
