-- ===== src/Tuner/Terrestrial.antt =====
-- `mxl301rf_tune` of drivers/media/tuners/mxl301rf.c: the frequency as the chip takes it.
use ptx.Base.{
  ℕ, zero, suc, ◌+◌, ◌-◌, ◌*◌, ◌/◌, ◌%◌, ◌^◌, ◌<◌, ◌≤◌, ◌≡◌, ◌∙◌, inl, inr, refl, ◌&&◌, Option,
  none, some, List, [], ◌∷◌, ltb, leb, if◌then◌else◌, arith, Bool-cases, set,
}
use native.Mathlib.Nat.{mul_comm, mul_right_comm, mul-add, mul-le-mul_left}

-- The locals of the loop.
pub record Digits : Type 0 where
  pub dig_rf : ℕ
  pub tmp : ℕ
  pub fdiv : ℕ

-- One round: the next binary digit of the frequency in MHz.
unfoldable pub digit : Digits → Digits
digit d =
    let f = d.fdiv / 2 in
    if ltb f d.tmp
    then record { dig_rf = (d.dig_rf * 2 + 1) % 2 ^ 32; tmp = d.tmp - f; fdiv = f }
    else record { dig_rf = d.dig_rf * 2 % 2 ^ 32; tmp = d.tmp; fdiv = f }

unfoldable pub digit_loop : ℕ → Digits → Digits
digit_loop zero d = d
digit_loop (suc left) d = digit_loop left (digit d)

-- `MHz` is 1000000.
unfoldable pub digits_of : ℕ → ℕ
digits_of freq =
    let d =
      digit_loop 6 (record { dig_rf = freq / 1000000; tmp = freq % 1000000; fdiv = 1000000 }) in
    if ltb 7812 d.tmp then d.dig_rf + 1 else d.dig_rf

-- `struct shf_dvbt`
pub record Shift : Type 0 where
  pub freq : ℕ
  pub freq_th : ℕ
  pub shf_val : ℕ
  pub shf_dir : ℕ

-- The first row of the table that holds the frequency, if any; `kHz` is 1000.
unfoldable pub shift_for : List Shift → ℕ → Option Shift
shift_for [] f = none
shift_for (row ∷ rest) f =
    let later = shift_for rest f in
    if leb ((row.freq - row.freq_th) * 1000) f && leb f ((row.freq + row.freq_th) * 1000)
    then some row
    else later

abbrev pub rf_dat : List ℕ
rf_dat =
    0x13 ∷ 0x00 ∷ 0x3b ∷ 0xc0 ∷ 0x3b ∷ 0x80 ∷ 0x10 ∷ 0x95 ∷ 0x1a ∷ 0x05 ∷ 0x61 ∷ 0x00 ∷ 0x62 ∷ 0xa0
    ∷ 0x11 ∷ 0x40 ∷ 0x12 ∷ 0x0e ∷ 0x13 ∷ 0x01 ∷ []

abbrev pub with_shift : Option Shift → List ℕ → List ℕ
with_shift none dat = dat
with_shift (some row) dat = set (set dat 11 row.shf_val) 13 (0xa0 + row.shf_dir)

-- The twenty bytes that are sent to the tuner.
unfoldable pub rf_bytes : List Shift → ℕ → List ℕ
rf_bytes table freq =
    let d = digits_of freq in
    with_shift (shift_for table freq) (set (set rf_dat 15 (d % 2 ^ 8)) 17 (d / 2 ^ 8 % 2 ^ 8))

-- The digits so far and the rest make up the frequency, in units of `g`.
record IsSplit (g freq : ℕ) (d : Digits) : Type 0 where
  unit : d.fdiv ≡ g
  whole : d.dig_rf * g + d.tmp ≡ freq
  rest : d.tmp ≤ g

module _ (freq : ℕ) (h : freq < 1000000000) where
  abbrev start : Digits
  start = record { dig_rf = freq / 1000000; tmp = freq % 1000000; fdiv = 1000000 }

  round-IsSplit : (g : ℕ) (d : Digits) → 0 < g → IsSplit (g + g) freq d → IsSplit g freq (digit d)
  unfolding digit
  round-IsSplit g d g_pos s =
      let x = d.dig_rf in
      let twice : x * (g + g) ≡ x * g + x * g = mul-add x g g in
      let even_digit : x * 2 * g ≡ x * g * 2 = mul_right_comm x 2 g in
      let odd_digit : (x * 2 + 1) * g ≡ x * 2 * g + g =
        mul_comm (x * 2 + 1) g ∙ (mul-add g (x * 2) 1 ∙ omega (arith, mul_comm g (x * 2))) in
      let small : x * 1 ≤ x * g = mul-le-mul_left x (omega (arith, g_pos)) in
      let half : d.fdiv / 2 ≡ g = omega (arith, s.unit) in
      let fits : x * 2 + 1 < 2 ^ 32 = omega (arith, h, twice, small, s.whole) in
      let same : x * 2 % 2 ^ 32 ≡ x * 2 = omega (arith, fits) in
      let next : (x * 2 + 1) % 2 ^ 32 ≡ x * 2 + 1 = omega (arith, fits) in
      elim (Bool-cases (ltb (d.fdiv / 2) d.tmp)) [
        | inl one ↦
            rw (one, half)
              (record {
                unit = refl;
                whole = rw next (ground (arith, one, half, twice, even_digit, odd_digit, s.whole));
                rest = ground (arith, one, half, s.rest);
              })
        | inr nil ↦
            rw (nil, half)
              (record {
                unit = refl;
                whole = rw same (ground (arith, nil, twice, even_digit, s.whole));
                rest = ground (arith, nil, half);
              })
      ]

  after_six : IsSplit 15625 freq (digit_loop 6 start)
  unfolding digit_loop
  after_six =
      let d1 = digit start in
      let d2 = digit d1 in
      let d3 = digit d2 in
      let d4 = digit d3 in
      let s1 =
        round-IsSplit 500000 start (omega arith)
          (record { unit = refl; whole = omega arith; rest = omega arith }) in
      let s2 = round-IsSplit 250000 d1 (omega arith) s1 in
      let s3 = round-IsSplit 125000 d2 (omega arith) s2 in
      let s4 = round-IsSplit 62500 d3 (omega arith) s3 in
      round-IsSplit 15625 (digit d4) (omega arith) (round-IsSplit 31250 d4 (omega arith) s4)

-- For a frequency below 1 GHz, the number is the frequency in units of 1/64 MHz, to the nearest: half
-- a unit and half a hertz off at most. It fits the two bytes for it.
pub digits_of_nearest :
    (freq : ℕ)
    → freq < 1000000000
    → (digits_of freq * 15625 ≤ freq + 7813)
      × (freq ≤ digits_of freq * 15625 + 7813)
      × (digits_of freq < 2 ^ 16)
unfolding digits_of
digits_of_nearest freq h = let s = after_six freq h in ground (arith, s.whole, s.rest)
