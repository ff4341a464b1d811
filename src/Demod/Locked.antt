-- ===== src/Demod/Locked.antt =====
-- What an answer of `tc90522_tune` (drivers/media/dvb-frontends/tc90522.c) says of the chip.
use ptx.Base.{
  ℕ, zero, suc, ◌+◌, ◌*◌, ◌/◌, ◌%◌, ◌^◌, ◌<◌, ◌≡◌, ◌≢◌, refl, ap, ◌∙◌, ◌⊎◌, inl, inr, Bool, true,
  false, some, List, arith, get_or, drop, Bool-cases, Option-cases,
}
use ptx.Base.Int.{ℤ, pos, nonzero, eio, etimedout}
use ptx.Demod.Number.{tc90522_n2int}
use ptx.Demod.Frequency.{s_khz, t_hz}
use ptx.Demod.Tune.{
  Read, Tuning, has_lock, bit, t_round, t_loop, s_slot, s_slots, s_round, s_loop, tc90522_tune,
}

module _ {W : Type 0} (r : ℕ → ℕ → W → Read × W) (w : ℕ → ℕ → W → Bool × W)
    (set_params : ℕ → W → ℤ × W) where
  -- The two status reads of an ISDB-T lock, made one after the other, the second leaving the bus
  -- at `s'`.
  pub record LockedT (s' : W) : Type 0 where
    pub before : W
    pub first_ok : (r 0x80 1 before).0.ok ≡ true
    pub second_ok : (r 0xb0 1 (r 0x80 1 before).1).0.ok ≡ true
    pub lock0 : bit (get_or (r 0x80 1 before).0.bytes 0 0) 3 ≡ false
    pub lock1 : bit (get_or (r 0xb0 1 (r 0x80 1 before).1).0.bytes 0 0) 3 ≡ true
    pub after : (r 0xb0 1 (r 0x80 1 before).1).1 ≡ s'

  LockedT-of_round :
      (s : W) → (t_round r w set_params s).0 ≡ some true → LockedT (t_round r w set_params s).1
  unfolding t_round
  LockedT-of_round s h = record {
    before = s;
    first_ok = ground arith;
    second_ok = ground arith;
    lock0 = ground arith;
    lock1 = ground arith;
    after = ground arith;
  }

  LockedT-of_loop :
      (cnt : ℕ) (s : W)
      → (t_loop r w set_params cnt s).0 ≡ true
      → LockedT (t_loop r w set_params cnt s).1
  unfolding t_loop
  LockedT-of_loop zero s h = absurd (ground arith)
  LockedT-of_loop (suc cnt) s h = elim (Option-cases (t_round r w set_params s).0) [
    | inl e ↦
        rw (e, t_loop) (LockedT-of_loop cnt (t_round r w set_params s).1 (rw (e, t_loop) at h))
    | inr (l, e) ↦
        let h' : l ≡ true = rw (e, t_loop) at h in
        rw (e, t_loop) (LockedT-of_round s (e ∙ ap some h'))
  ]

  -- Slot `slot` of the table `buf` holds a valid identifier, which is the one asked for or stands
  -- in the slot asked for; both its bytes were written from the bus state `start` on, and register
  -- 0xe6 then read back as that identifier.
  pub record SlotAccepted (set_id slot : ℕ) (buf : List ℕ) (s' : W) : Type 0 where
    pub start : W
    pub tsid : ℕ
    pub of_table : tc90522_n2int (drop (slot * 2) buf) 2 ≡ tsid
    pub nonzero_id : tsid ≢ 0
    pub not_erased : tsid ≢ 0xffff
    pub asked : (set_id ≡ tsid) ⊎ (set_id ≡ slot)
    pub high_written : (w 0x8f (tsid / 2 ^ 8) start).0 ≡ true
    pub low_written : (w 0x90 (tsid % 2 ^ 8) (w 0x8f (tsid / 2 ^ 8) start).1).0 ≡ true
    pub read_back :
        let s2 = (w 0x90 (tsid % 2 ^ 8) (w 0x8f (tsid / 2 ^ 8) start).1).1 in
        let (back, s3) = r 0xe6 2 s2 in
        (back.ok ≡ true) × (tc90522_n2int back.bytes 2 ≡ tsid) × (s3 ≡ s')

  SlotAccepted-of_slot :
      (set_id i : ℕ) (buf : List ℕ) (s : W)
      → (s_slot r w set_params set_id i buf s).0 ≡ true
      → SlotAccepted set_id i buf (s_slot r w set_params set_id i buf s).1
  unfolding s_slot
  SlotAccepted-of_slot set_id i buf s h = record {
    start = s;
    tsid = tc90522_n2int (drop (i * 2) buf) 2;
    of_table = refl;
    nonzero_id = ground arith;
    not_erased = ground arith;
    asked = ground arith;
    high_written = ground arith;
    low_written = ground arith;
    read_back = ground arith;
  }

  -- An ISDB-S lock: a slot of a table that was read in the same round has been accepted.
  pub record LockedS (set_id : ℕ) (s' : W) : Type 0 where
    pub table_at : W
    pub table_ok : (r 0xce 16 table_at).0.ok ≡ true
    pub slot : ℕ
    pub slot_in : slot < 8
    pub accepted : SlotAccepted set_id slot (r 0xce 16 table_at).0.bytes s'

  slots_hit :
      (set_id left i : ℕ) (buf : List ℕ) (s : W)
      → (s_slots r w set_params set_id left i buf s).0 ≡ true
      → (slot : ℕ) × (slot < i + left)
        × SlotAccepted set_id slot buf (s_slots r w set_params set_id left i buf s).1
  unfolding s_slots
  slots_hit set_id zero i buf s h = absurd (ground arith)
  slots_hit set_id (suc left) i buf s h =
      elim (Bool-cases (s_slot r w set_params set_id i buf s).0) [
        | inl e ↦ (i, omega arith, rw (e, s_slots) (SlotAccepted-of_slot set_id i buf s e))
        | inr e ↦
            let (slot, below, acc) =
              slots_hit set_id left (i + 1) buf (s_slot r w set_params set_id i buf s).1
                (rw (e, s_slots) at h) in
            (slot, omega arith, rw (e, s_slots) acc)
      ]

  round_hit :
      (set_id : ℕ) (s : W)
      → (s_round r w set_params set_id s).0 ≡ true
      → (t : W) × ((r 0xce 16 t).0.ok ≡ true)
        × (s_round r w set_params set_id s
            ≡ s_slots r w set_params set_id 8 0 (r 0xce 16 t).0.bytes (r 0xce 16 t).1)
  unfolding s_round
  round_hit set_id s h = ((r 0xc3 1 (r 0xce 2 (r 0xc3 1 s).1).1).1, ground arith, ground arith)

  LockedS-of_round :
      (set_id : ℕ) (s : W)
      → (s_round r w set_params set_id s).0 ≡ true
      → LockedS set_id (s_round r w set_params set_id s).1
  LockedS-of_round set_id s h =
      let (t, fine, e) = round_hit set_id s h in
      let (slot, below, acc) =
        slots_hit set_id 8 0 (r 0xce 16 t).0.bytes (r 0xce 16 t).1 (rw e at h) in
      record {
        table_at = t;
        table_ok = fine;
        slot = slot;
        slot_in = omega arith;
        accepted = rw e acc;
      }

  LockedS-of_loop :
      (set_id cnt : ℕ) (s : W)
      → (s_loop r w set_params set_id cnt s).0 ≡ true
      → LockedS set_id (s_loop r w set_params set_id cnt s).1
  unfolding s_loop
  LockedS-of_loop set_id zero s h = absurd (ground arith)
  LockedS-of_loop set_id (suc cnt) s h = elim (Bool-cases (s_round r w set_params set_id s).0) [
    | inl e ↦ rw (e, s_loop) (LockedS-of_round set_id s e)
    | inr e ↦
        rw (e, s_loop)
          (LockedS-of_loop set_id cnt (s_round r w set_params set_id s).1 (rw (e, s_loop) at h))
  ]

  -- What tuning can answer and leave behind, where the tuner is given `f` on the bus `s0` and `loop` is
  -- what the wait for the lock makes of the bus then: the tuner refuses `f`; or it takes it, and there is
  -- no lock within the 999 rounds, which is reported as such; or it takes it and there is a lock, of which
  -- `Locked` says what it means.
  abbrev pub Outcome : (W → Type 0) → (W → Bool × W) → ℕ → W → ℤ → Tuning → W → Type 0
  Outcome Locked loop f s0 ret t s =
      (t.frequency ≡ f)
      × ((nonzero (set_params f s0).0 ≡ true)
            × (ret ≡ eio)
            × (t.festat ≡ 0)
            × (s ≡ (set_params f s0).1)
          ⊎ (nonzero (set_params f s0).0 ≡ false)
            × (ret ≡ etimedout)
            × (t.festat ≡ 0)
            × (t.stat ≡ 0)
            × (loop (set_params f s0).1 ≡ (false, s))
          ⊎ (nonzero (set_params f s0).0 ≡ false)
            × (ret ≡ pos 0)
            × (t.festat ≡ has_lock)
            × (t.stat ≡ has_lock)
            × (loop (set_params f s0).1 ≡ (true, s))
            × Locked s)

  -- Tuning to ISDB-T gives the tuner the mapped frequency, and answers -EIO just where the tuner refuses
  -- it. Otherwise it answers 0 just where the wait of 999 rounds finds a lock, which it reports and
  -- remembers, and then both status reads of one round succeeded and showed the lock bits; and
  -- -ETIMEDOUT, with no status remembered, just where the wait finds none.
  pub tune_isdbt :
      (t : Tuning) (s : W)
      → t.isdbt ≡ true
      → let (ret, t', s') = tc90522_tune r w set_params true t s in
        Outcome LockedT (t_loop r w set_params 999) (t_hz t.frequency) s ret t' s'
  unfolding tc90522_tune
  tune_isdbt t s e = ground (arith, LockedT-of_loop 999 (set_params (t_hz t.frequency) s).1)

  -- Tuning to ISDB-S gives the tuner the mapped frequency, and answers -EIO just where the tuner refuses
  -- it. Otherwise it answers 0 just where the wait of 999 rounds finds a lock, which it reports and
  -- remembers, and then a slot of a table that was read without error holds a valid identifier, equal
  -- to the 16 bits asked for or in the slot that they number, which was written to the chip and read
  -- back; and -ETIMEDOUT, with no status remembered, just where the wait finds none.
  pub tune_isdbs :
      (t : Tuning) (s : W)
      → t.isdbt ≡ false
      → let (ret, t', s') = tc90522_tune r w set_params true t s in
        Outcome
          (LockedS (t.stream_id % 2 ^ 16))
          (s_loop r w set_params (t.stream_id % 2 ^ 16) 999)
          (s_khz t.frequency)
          s
          ret
          t'
          s'
  unfolding tc90522_tune
  tune_isdbs t s e =
      ground
        (arith, LockedS-of_loop (t.stream_id % 2 ^ 16) 999 (set_params (s_khz t.frequency) s).1)
