-- ===== src/Demod/Frequency.antt =====
-- The frequency maps of `tc90522_tune` in drivers/media/dvb-frontends/tc90522.c: a channel number
-- or a real frequency to the frequency for the tuner, in kHz for ISDB-S and in Hz for ISDB-T.
use ptx.Base.{ℕ, ◌+◌, ◌-◌, ◌*◌, ◌%◌, ◌^◌, ltb, leb, if◌then◌else◌}

abbrev pub u32 : ℕ → ℕ
u32 n = n % 2 ^ 32

unfoldable pub fno2khz : ℕ → ℕ
fno2khz fno =
    if ltb fno 12
    then 1049480 + 38360 * fno
    else if ltb fno 23
    then 1068660 + 38360 * (fno - 12)
    else if ltb fno 35
    then 1613000 + 40000 * (fno - 23)
    else u32 (1553000 + u32 (40000 * (fno - 35)))

unfoldable pub s_khz : ℕ → ℕ
s_khz f =
    if ltb 3224000 f
    then fno2khz 14
    else if leb 1049480 f
    then f
    else if ltb 50 f
    then fno2khz 4
    else fno2khz (u32 (f + 2 ^ 32 - 1))

unfoldable pub fno2hz : ℕ → ℕ
fno2hz fno = u32 (
    (if ltb 112 fno
        then 557
        else 93
          + 6 * fno
          + (if ltb fno 12 then 0 else if ltb fno 17 then 2 else if ltb fno 63 then 0 else 2))
      * 1000000
    + 142857)

-- Each subtraction stands behind a test that makes it exact.
unfoldable pub t_hz_catv : ℕ → ℕ
t_hz_catv f = if ltb 22 f then fno2hz (f - 1) else if ltb 12 f then fno2hz (f - 10) else fno2hz 77

unfoldable pub t_hz : ℕ → ℕ
t_hz f =
    if leb 90000000 f
    then f
    else if ltb 255 f
    then fno2hz 77
    else if ltb 127 f
    then fno2hz (f - 128)
    else if ltb 63 f
    then t_hz_catv (f - 64)
    else if ltb 62 f
    then fno2hz 77
    else if ltb 12 f
    then fno2hz (f + 50)
    else if ltb 3 f
    then fno2hz (f + 9)
    else if ltb 0 f
    then fno2hz (f - 1)
    else fno2hz 77
