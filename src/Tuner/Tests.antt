-- ===== src/Tuner/Tests.antt =====
-- Frequencies of real channels in the tuners' functions, and the theorems applied to them.
use ptx.Base.{◌+◌, ◌-◌, ◌*◌, ◌/◌, ◌%◌, ◌^◌, ◌<◌, ◌≤◌, ◌≡◌, refl, arith}
use ptx.Tuner.Satellite.{nearest, n_of, a_of, sd_of, reg_09, reg_0a, reg_0b, xtal, divider_lem}
use ptx.Tuner.Terrestrial.{digits_of, digit_loop, digit, digits_of_nearest}

-- BS-15, 1318000 kHz.
divider_lem_example :
    let i = nearest 1318000 in
    let sd = sd_of 1318000 i in
    let bits = reg_09 0 sd % 2 ^ 6 * 2 ^ 16 + reg_0a sd * 2 ^ 8 + reg_0b sd in
    ((4 * (n_of i + 1) + a_of i + 5) * xtal ≡ i)
    × (1318000 ≤ i + xtal / 2)
    × (i ≤ 1318000 + xtal / 2)
    × (n_of i < 2 ^ 6)
    × (a_of i < 2 ^ 4)
    × (bits ≡ (65 * 1318000 + 2 ^ 22 - 65 * i) % 2 ^ 22)
divider_lem_example = divider_lem 1318000 0 (omega arith) (omega arith)

-- UHF 27, 557142857 Hz.
digits_27 : digits_of 557142857 ≡ 35657
unfolding digits_of digit_loop digit
digits_27 = refl

digits_of_nearest_example :
    (digits_of 557142857 * 15625 ≤ 557142857 + 7813)
    × (557142857 ≤ digits_of 557142857 * 15625 + 7813)
    × (digits_of 557142857 < 2 ^ 16)
digits_of_nearest_example = digits_of_nearest 557142857 (omega arith)
