-- ===== src/Demod/Channels.antt =====
-- What the frequency maps of drivers/media/dvb-frontends/tc90522.c give, and that they may be
-- applied again: `tc90522_tune` writes the result over the frequency that it was given.
use ptx.Base.{ℕ, ◌+◌, ◌-◌, ◌*◌, ◌^◌, ◌<◌, ◌≤◌, ◌≡◌, sym, ◌∙◌, ap, arith}
use ptx.Demod.Frequency.{fno2khz, s_khz, fno2hz, t_hz_catv, t_hz}

fno2khz_range : (fno : ℕ) → fno < 50 → (1049480 ≤ fno2khz fno) × (fno2khz fno ≤ 3224000)
unfolding fno2khz
fno2khz_range fno h = ground arith

s_khz_range : (f : ℕ) → 0 < f → f < 2 ^ 32 → (1049480 ≤ s_khz f) × (s_khz f ≤ 3224000)
unfolding s_khz
s_khz_range f h k =
    ground
      (arith, fno2khz_range 14 (omega arith), fno2khz_range 4 (omega arith), fno2khz_range (f - 1))

s_khz_real : (f : ℕ) → 1049480 ≤ f → f ≤ 3224000 → s_khz f ≡ f
unfolding s_khz
s_khz_real f h k = ground arith

-- Any ISDB-S setting but 0 gives a frequency from 1049480 to 3224000 kHz, and tuning again keeps
-- that frequency.
pub s_khz_stable :
    (f : ℕ)
    → 0 < f
    → f < 2 ^ 32
    → (1049480 ≤ s_khz f) × (s_khz f ≤ 3224000) × (s_khz (s_khz f) ≡ s_khz f)
s_khz_stable f h k = let r = s_khz_range f h k in (r.0, r.1, s_khz_real (s_khz f) r.0 r.1)

fno2hz_range : (n : ℕ) → n < 128 → (93142857 ≤ fno2hz n) × (fno2hz n ≤ 767142857)
unfolding fno2hz
fno2hz_range n h = ground arith

t_hz_catv_range : (f : ℕ) → f < 64 → (93142857 ≤ t_hz_catv f) × (t_hz_catv f ≤ 767142857)
unfolding t_hz_catv
t_hz_catv_range f h = ground (arith, fno2hz_range (f - 1), fno2hz_range (f - 10), fno2hz_range 77)

t_hz_number : (f : ℕ) → f < 90000000 → (93142857 ≤ t_hz f) × (t_hz f ≤ 767142857)
unfolding t_hz
t_hz_number f h = ground (
  arith,
  fno2hz_range 77,
  fno2hz_range (f - 128),
  t_hz_catv_range (f - 64),
  fno2hz_range (f + 50),
  fno2hz_range (f + 9),
  fno2hz_range (f - 1),
)

t_hz_real : (f : ℕ) → 90000000 ≤ f → t_hz f ≡ f
unfolding t_hz
t_hz_real f h = ground arith

-- Every ISDB-T setting below 90 MHz gives a frequency from 93142857 to 767142857 Hz, 0 and the
-- numbers that name no channel included, and tuning again keeps that frequency.
pub t_hz_stable :
    (f : ℕ) → f < 90000000 → (93142857 ≤ t_hz f) × (t_hz f ≤ 767142857) × (t_hz (t_hz f) ≡ t_hz f)
t_hz_stable f h = let r = t_hz_number f h in (r.0, r.1, t_hz_real (t_hz f) (omega (arith, r.0)))

fno2hz_uhf : (n : ℕ) → 63 ≤ n → n ≤ 112 → fno2hz n ≡ 95142857 + 6000000 * n
unfolding fno2hz
fno2hz_uhf n h k = ground arith

t_hz-fno2hz :
    (ch : ℕ)
    → 13 ≤ ch
    → ch ≤ 62
    → (t_hz ch ≡ fno2hz (ch + 50)) × (t_hz (ch + 50 + 128) ≡ fno2hz (ch + 50))
unfolding t_hz
t_hz-fno2hz ch h k =
    let e : ch + 50 + 128 - 128 ≡ ch + 50 = omega arith in
    (ground arith, ground (arith, ap fno2hz e))

-- The UHF channels 13 to 62 are 6 MHz apart from 473142857 Hz on, whether they are given by their
-- channel number or by their frequency number, the I/O number plus 128.
pub t_hz_uhf :
    (ch : ℕ)
    → 13 ≤ ch
    → ch ≤ 62
    → (t_hz ch ≡ 473142857 + 6000000 * (ch - 13)) × (t_hz (ch + 50 + 128) ≡ t_hz ch)
t_hz_uhf ch h k =
    let e = t_hz-fno2hz ch h k in
    (e.0 ∙ fno2hz_uhf (ch + 50) (omega arith) (omega arith) ∙ omega arith, e.1 ∙ sym e.0)
