-- ===== src/Demod/Tests.antt =====
-- Runs of the demodulator's functions at concrete inputs, and the theorems applied to them.
use ptx.Base.{ℕ, ◌+◌, ◌%◌, ◌^◌, ◌≡◌, refl, Bool, true, false, [], ◌∷◌, ◌==◌, if◌then◌else◌}
use ptx.Base.Int.{ℤ, pos}
use ptx.Demod.Frequency.{s_khz, fno2khz, t_hz, t_hz_catv, fno2hz}
use ptx.Demod.Tune.{Read, Tuning, t_loop, s_loop, tc90522_tune}
use ptx.Demod.Locked.{Outcome, LockedT, LockedS, tune_isdbt, tune_isdbs}

-- The ISDB-S number 0 is no setting: its predecessor wraps round, and the map gives 113 MHz.
s_khz_zero : s_khz 0 ≡ 113000
unfolding s_khz fno2khz
s_khz_zero = refl

catv_13 : t_hz (13 + 64) ≡ 111142857
unfolding t_hz t_hz_catv fno2hz
catv_13 = refl

-- A bus with no state whose registers hold what a locked chip shows; the table holds 0x4010 in
-- slot 1.
abbrev locked_read : ℕ → ℕ → Unit {0} → Read × Unit {0}
locked_read adr len s = (
  record {
    ok = true;
    bytes =
        if adr == 0xb0
        then 8 ∷ []
        else if adr == 0xce
        then 0 ∷ 0 ∷ 0x40 ∷ 0x10 ∷ 0 ∷ 0 ∷ []
        else if adr == 0xe6
        then 0x40 ∷ 0x10 ∷ []
        else 0 ∷ [];
  },
  tt,
)

abbrev write_ok : ℕ → ℕ → Unit {0} → Bool × Unit {0}
write_ok adr dat s = (true, tt)

abbrev accept : ℕ → Unit {0} → ℤ × Unit {0}
accept f s = (pos 0, tt)

abbrev request : Tuning
request = record { isdbt = true; frequency = 27; stream_id = 0x4010; festat = 0; stat = 0 }

tune_isdbt_example :
    let (ret, t', s') = tc90522_tune locked_read write_ok accept true request tt in
    Outcome locked_read write_ok accept
      (LockedT locked_read write_ok accept)
      (t_loop locked_read write_ok accept 999)
      (t_hz 27)
      tt
      ret
      t'
      s'
tune_isdbt_example = tune_isdbt locked_read write_ok accept request tt refl

tune_isdbs_example :
    let (ret, t', s') =
      tc90522_tune locked_read write_ok accept true (record request { isdbt = false }) tt in
    Outcome locked_read write_ok accept
      (LockedS locked_read write_ok accept (0x4010 % 2 ^ 16))
      (s_loop locked_read write_ok accept (0x4010 % 2 ^ 16) 999)
      (s_khz 27)
      tt
      ret
      t'
      s'
tune_isdbs_example =
    tune_isdbs locked_read write_ok accept (record request { isdbt = false }) tt refl
