-- ===== src/Tuner/Satellite.antt =====
-- `qm1d1c004x_tune` of drivers/media/tuners/qm1d1c004x.c: the settings of the synthesizer.
use ptx.Base.{
  ℕ, ◌+◌, ◌-◌, ◌*◌, ◌/◌, ◌%◌, ◌^◌, ◌<◌, ◌≤◌, ◌≡◌, ◌&&◌, List, [], ◌∷◌, ltb, leb, if◌then◌else◌,
  arith, map, bit_or, bit_and,
}

-- 32 bits, in which the function computes.
abbrev pub w32 : ℕ → ℕ
w32 n = n % 2 ^ 32

abbrev pub xtal : ℕ
xtal = 16000

-- `f_kHz`, from the frequency of the property cache.
unfoldable pub f_khz : ℕ → ℕ
f_khz frequency = w32 (frequency + (2 ^ 32 - 500))

-- `i`: the next multiple of the reference.
unfoldable pub nearest : ℕ → ℕ
nearest f = w32 (w32 (f + xtal / 2) / xtal * xtal)

-- `N` and `A` are bytes.
unfoldable pub n_of : ℕ → ℕ
n_of i = (i / (4 * xtal) + (2 ^ 32 - 3)) % 2 ^ 8

unfoldable pub a_of : ℕ → ℕ
a_of i = (i / xtal + (2 ^ 32 - 4 * (n_of i + 1)) + (2 ^ 32 - 5)) % 2 ^ 8

-- `sd`, the bits of an `int`. `b` is the difference of two unsigned numbers, and so never negative.
unfoldable pub sd_of : ℕ → ℕ → ℕ
sd_of f i = w32 (0x100000 / xtal * w32 (f + (2 ^ 32 - i)))

-- `fgap_tab`, from the second row on: the lower bounds with the two settings of the row before.
abbrev pub fgap_tab : List (ℕ × ℕ × ℕ × ℕ)
fgap_tab =
    (1950000, 2151000, 1, 7)
    ∷ (1800000, 1950000, 1, 6)
    ∷ (1600000, 1800000, 1, 5)
    ∷ (1450000, 1600000, 1, 4)
    ∷ (1250000, 1450000, 1, 3)
    ∷ (1200000, 1250000, 1, 2)
    ∷ (975000, 1200000, 0, 7)
    ∷ (950000, 975000, 0, 6)
    ∷ []

-- What the loop over the bands writes to register 2, one value for each band that holds `f`.
unfoldable pub bands : List (ℕ × ℕ × ℕ × ℕ) → ℕ → ℕ → List ℕ
bands [] reg f = []
bands ((low, high, div2, vco) ∷ rest) reg f =
    let later = bands rest reg f in
    if leb low f && ltb f high then (reg % 2 ^ 4 + div2 * 2 ^ 7 + vco * 2 ^ 4) ∷ later else later

-- The registers 6, 7, 9, 10 and 11 from what they held.
unfoldable pub reg_06 : ℕ → ℕ → ℕ
reg_06 old n = bit_or (bit_and old 0x40) n

unfoldable pub reg_07 : ℕ → ℕ → ℕ
reg_07 old a = old / 2 ^ 4 % 2 ^ 4 * 2 ^ 4 + a % 2 ^ 4

unfoldable pub reg_09 : ℕ → ℕ → ℕ
reg_09 old sd = old / 2 ^ 6 % 2 ^ 2 * 2 ^ 6 + sd / 2 ^ 16 % 2 ^ 6

abbrev pub reg_0a : ℕ → ℕ
reg_0a sd = sd / 2 ^ 8 % 2 ^ 8

abbrev pub reg_0b : ℕ → ℕ
reg_0b sd = sd % 2 ^ 8

-- For a frequency in the bands of the tuner: the two dividers give the multiple of 16 MHz that is
-- nearest to it, N fits its six bits and A its four; and the 22 bits of the registers 9, 10 and 11
-- hold 65 times the rest, in two's complement where the rest is negative.
pub divider_lem :
    (f old : ℕ)
    → 950000 ≤ f
    → f < 2151000
    → let i = nearest f in
      let sd = sd_of f i in
      let bits = reg_09 old sd % 2 ^ 6 * 2 ^ 16 + reg_0a sd * 2 ^ 8 + reg_0b sd in
      ((4 * (n_of i + 1) + a_of i + 5) * xtal ≡ i)
      × (f ≤ i + xtal / 2)
      × (i ≤ f + xtal / 2)
      × (n_of i < 2 ^ 6)
      × (a_of i < 2 ^ 4)
      × (bits ≡ (65 * f + 2 ^ 22 - 65 * i) % 2 ^ 22)
unfolding nearest n_of a_of sd_of reg_09
divider_lem f old h k =
    let m = (f + 8000) / 16000 in
    let i : nearest f ≡ m * 16000 = omega arith in
    let n : n_of (m * 16000) ≡ m / 4 - 3 = omega arith in
    let a : a_of (m * 16000) ≡ m % 4 + 3 = omega (arith, n) in
    let sd : sd_of f (m * 16000) % 2 ^ 22 ≡ (65 * f + 2 ^ 22 - 65 * (m * 16000)) % 2 ^ 22 =
      omega arith in
    rw i (
      omega (arith, n, a),
      omega arith,
      omega arith,
      omega (arith, n),
      omega (arith, a),
      omega (arith, sd),
    )

-- For a frequency in the bands of the tuner, exactly one band's setting is written to register 2, and
-- its low half is what the register held.
pub bands_one :
    (f reg : ℕ)
    → 950000 ≤ f
    → f < 2151000
    → map (λ v. v % 2 ^ 4) (bands fgap_tab reg f) ≡ reg % 2 ^ 4 ∷ []
unfolding bands
bands_one f reg h k = ground arith
