-- ===== src/Demod/Tune.antt =====
-- `tc90522_cn_raw` and `tc90522_tune` of drivers/media/dvb-frontends/tc90522.c. The i2c bus is a
-- state of any type, with what `i2c_transfer` makes of a register read and write (`tc90522_r` and
-- `tc90522_w`), and so is the tuner's `set_params`.
use ptx.Base.{
  ℕ, zero, suc, ◌+◌, ◌*◌, ◌/◌, ◌%◌, ◌^◌, Bool, true, false, not, ◌&&◌, ◌||◌, Option, none, some,
  List, ◌==◌, ◌=/=◌, if◌then◌else◌, get_or, drop,
}
use ptx.Base.Int.{ℤ, pos, nonzero, eio, etimedout}
use ptx.Demod.Number.{tc90522_n2int}
use ptx.Demod.Frequency.{s_khz, t_hz}

-- What a read returns: whether the transfer succeeded, and the bytes that the buffer then holds.
pub record Read : Type 0 where
  pub ok : Bool
  pub bytes : List ℕ

-- FE_HAS_SIGNAL | FE_HAS_CARRIER | FE_HAS_LOCK
abbrev pub has_lock : ℕ
has_lock = 0x13

abbrev pub bit : ℕ → ℕ → Bool
bit x k = x / 2 ^ k % 2 == 1

-- The cached properties that tuning reads and writes, the status that the demodulator keeps, and
-- the status that it reports.
pub record Tuning : Type 0 where
  pub isdbt : Bool
  pub frequency : ℕ
  pub stream_id : ℕ
  pub festat : ℕ
  pub stat : ℕ

module _ {W : Type 0} (r : ℕ → ℕ → W → Read × W) (w : ℕ → ℕ → W → Bool × W)
    (set_params : ℕ → W → ℤ × W) where
  -- `tc90522_cn_raw`: the raw carrier to noise ratio, or -EIO; and what it stores in `*raw`, a
  -- `u16`, if anything.
  unfoldable pub tc90522_cn_raw : Bool → W → ℤ × Option ℕ × W
  tc90522_cn_raw isdbs s =
      let len = if isdbs then 2 else 3 in
      let (buf, s') = r (if isdbs then 0xbc else 0x8b) len s in
      let cn = tc90522_n2int buf.bytes len in
      if buf.ok then (pos cn, some (cn % 2 ^ 16), s') else (eio, none, s')

  -- One round of the ISDB-T loop: `some` answer leaves the loop, with true for a lock.
  unfoldable pub t_round : W → Option Bool × W
  t_round s =
      let (a, s1) = r 0x80 1 s in
      if a.ok
      then (let (b, s2) = r 0xb0 1 s1 in
          if b.ok
          then (let status = get_or a.bytes 0 0 in
              let retryov = bit status 7 in
              let lock0 = not (bit status 3) in
              let lock1 = bit (get_or b.bytes 0 0) 3 in
              if lock0 && lock1
              then (some true, s2)
              else if retryov
              then (some false, s2)
              else (none, s2))
          else (some false, s2))
      else (some false, s1)

  unfoldable pub t_loop : ℕ → W → Bool × W
  t_loop zero s = (false, s)
  t_loop (suc cnt) s =
      let (answer, s') = t_round s in
      elim answer [ some locked ↦ (locked, s') | none ↦ t_loop cnt s' ]

  -- Whether slot `i` of the table of streams in `buf` is the one asked for, and is accepted.
  unfoldable pub s_slot : ℕ → ℕ → List ℕ → W → Bool × W
  s_slot set_id i buf s =
      let tsid = tc90522_n2int (drop (i * 2) buf) 2 in
      if (tsid == 0) || (tsid == 0xffff)
      then (false, s)
      else if (set_id == tsid) || (set_id == i)
      then (let (ok1, s1) = w 0x8f (tsid / 2 ^ 8) s in
          if ok1
          then (let (ok2, s2) = w 0x90 (tsid % 2 ^ 8) s1 in
              if ok2
              then (let (back, s3) = r 0xe6 2 s2 in
                  (back.ok && (tc90522_n2int back.bytes 2 == tsid), s3))
              else (false, s2))
          else (false, s1))
      else (false, s)

  -- The slots `i`, `i + 1`, ... for as many rounds as are left. `data` is a buffer of its own
  -- here: the read of register 0xe6 goes into the first two bytes of the table, whose slot 0 has
  -- been looked at by then.
  unfoldable pub s_slots : ℕ → ℕ → ℕ → List ℕ → W → Bool × W
  s_slots set_id zero i buf s = (false, s)
  s_slots set_id (suc left) i buf s =
      let (hit, s') = s_slot set_id i buf s in
      elim hit [ true ↦ (true, s') | false ↦ s_slots set_id left (i + 1) buf s' ]

  -- One round of the ISDB-S loop. The answer of the first two reads is not looked at.
  unfoldable pub s_round : ℕ → W → Bool × W
  s_round set_id s =
      let (a, s1) = r 0xc3 1 s in
      if bit (get_or a.bytes 0 0) 4
      then (false, s1)
      else (let (b, s2) = r 0xce 2 s1 in
          if (get_or b.bytes 0 0 =/= 0) || (get_or b.bytes 1 0 =/= 0)
          then (let (c, s3) = r 0xc3 1 s2 in
              if c.ok
              then (let (d, s4) = r 0xce 16 s3 in
                  if d.ok then s_slots set_id 8 0 d.bytes s4 else (false, s4))
              else (false, s3))
          else (false, s2))

  unfoldable pub s_loop : ℕ → ℕ → W → Bool × W
  s_loop set_id zero s = (false, s)
  s_loop set_id (suc cnt) s =
      let (hit, s') = s_round set_id s in
      elim hit [ true ↦ (true, s') | false ↦ s_loop set_id cnt s' ]

  -- The end of `tc90522_tune`, after the loop.
  abbrev pub reported : Tuning → Bool → ℤ × Tuning
  reported t true = (pos 0, record t { festat = has_lock; stat = has_lock })
  reported t false = (etimedout, record t { stat = t.festat })

  -- The frequency is mapped in place, and the tuner is set to it.
  unfoldable pub tc90522_tune : Bool → Tuning → W → ℤ × Tuning × W
  tc90522_tune retune t s =
      if retune
      then (let f = if t.isdbt then t_hz t.frequency else s_khz t.frequency in
          let t' = record t { festat = 0; frequency = f } in
          let (err, s1) = set_params f s in
          if nonzero err
          then (eio, t', s1)
          else (let (locked, s2) =
                if t.isdbt then t_loop 999 s1 else s_loop (t.stream_id % 2 ^ 16) 999 s1 in
              let (ret, t'') = reported t' locked in (ret, t'', s2)))
      else (pos 0, t, s)
