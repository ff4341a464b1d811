-- ===== src/Pt3/Xfr.antt =====
-- `pt3_i2c_flush` and `pt3_i2c_xfr` of drivers/media/pci/ptx/pt3_pci.c.
use ptx.Base.{
  ℕ, zero, suc, ◌+◌, ◌/◌, ◌%◌, ◌^◌, ◌≡◌, ◌⊎◌, inl, inr, refl, Bool, true, false, ◌||◌, Option, none,
  some, is_some, List, [], ◌∷◌, ◌==◌, ltb, if◌then◌else◌, arith, length, map, Bool-cases,
  Option-cases,
}
use ptx.Base.Int.{ℤ, pos, eio, enotsupp}
use ptx.Pt3.I2c.{Msg, i2c_code}

-- The card as the code sees it: what reading the register PT3_REG_I2C_R does, what writing a value
-- to PT3_REG_I2C_W and the instructions to the memory do, and the memory as it is read.
module _ {σ : Type 0} (readl : σ → ℕ × σ) (writel : ℕ → σ → σ) (store : List ℕ → σ → σ)
    (readb : σ → ℕ → ℕ) where
  -- `i2c_wait` reads until bit 0 is off, with no limit; `none`: it still reads after `fuel` rounds.
  unfoldable pub i2c_wait : ℕ → σ → Option (ℕ × σ)
  i2c_wait zero s = none
  i2c_wait (suc fuel) s =
      let (val, s') = readl s in
      let again = i2c_wait fuel s' in if val % 2 == 0 then some (val, s') else again

  -- `val & 0b0110`
  abbrev pub is_dirty : ℕ → Bool
  is_dirty val = ltb 0 (val / 2 % 4)

  -- One round of the loop: wait, start the sequence, wait.
  unfoldable pub flush_round : ℕ → ℕ → σ → Option (ℕ × σ)
  flush_round fuel start_addr s = elim (i2c_wait fuel s) [
    | none ↦ none
    | some (val, s1) ↦ i2c_wait fuel (writel (2 ^ 16 + start_addr) s1)
  ]

  unfoldable pub flush_loop : ℕ → ℕ → ℕ → ℕ → σ → Option (ℕ × σ)
  flush_loop fuel start_addr zero val s = some (val, s)
  flush_loop fuel start_addr (suc i) val s = elim (is_dirty val) [
    | false ↦ some (val, s)
    | true ↦ elim (flush_round fuel start_addr s) [
      | none ↦ none
      | some (val', s') ↦ flush_loop fuel start_addr i val' s'
    ]
  ]

  unfoldable pub pt3_i2c_flush : ℕ → ℕ → σ → Option (ℤ × σ)
  pt3_i2c_flush fuel start_addr s = elim (flush_loop fuel start_addr 999 6 s) [
    | none ↦ none
    | some (val, s') ↦ some (if is_dirty val then eio else pos 0, s')
  ]

  -- The bytes that were read, from the start of the memory for each message.
  abbrev pub first_bytes : ℕ → ℕ → (ℕ → ℕ) → List ℕ
  first_bytes zero j mem = []
  first_bytes (suc left) j mem = mem j ∷ first_bytes left (j + 1) mem

  unfoldable pub read_back : σ → Msg → Msg
  read_back s m = if m.rd then record m { buf = first_bytes m.len 0 (readb s) } else m

  -- The first message is only written, `for(i = 1; ...)`.
  abbrev pub read_all : σ → List Msg → List Msg
  read_all s [] = []
  read_all s (m ∷ rest) = m ∷ map (read_back s) rest

  abbrev pub refused : List Msg → Bool
  refused [] = true
  refused (m ∷ rest) = ltb 3 (length (m ∷ rest)) || m.rd

  -- The result, the messages with the bytes read, and the card.
  unfoldable pub pt3_i2c_xfr : ℕ → List Msg → σ → Option (ℤ × List Msg × σ)
  pt3_i2c_xfr fuel msgs s =
      if refused msgs
      then some (enotsupp, msgs, s)
      else elim (pt3_i2c_flush fuel 0 (store (i2c_code msgs) s)) [
        | none ↦ none
        | some (err, s') ↦ elim err [
          | pos zero ↦ some (pos (length msgs), read_all s' msgs, s')
          | _ ↦ some (eio, msgs, s')
        ]
      ]

  flush_round-some :
      (fuel start_addr : ℕ) (s : σ)
      → ((t : σ) → is_some (i2c_wait fuel t) ≡ true)
      → is_some (flush_round fuel start_addr s) ≡ true
  unfolding flush_round
  flush_round-some fuel start_addr s stops = elim (Option-cases (i2c_wait fuel s)) [
    | inl e ↦ absurd (ground (arith, e, stops s))
    | inr (v, e) ↦ rw (is_some, flush_round, e) (stops (writel (2 ^ 16 + start_addr) v.1))
  ]

  flush_loop-some :
      (fuel start_addr i val : ℕ) (s : σ)
      → ((t : σ) → is_some (i2c_wait fuel t) ≡ true)
      → is_some (flush_loop fuel start_addr i val s) ≡ true
  unfolding flush_loop
  flush_loop-some fuel start_addr zero val s stops = refl
  flush_loop-some fuel start_addr (suc i) val s stops = elim (Bool-cases (is_dirty val)) [
    | inr clean ↦ rw (is_some, flush_loop, clean) refl
    | inl dirty ↦ elim (Option-cases (flush_round fuel start_addr s)) [
      | inl e ↦ absurd (ground (arith, e, flush_round-some fuel start_addr s stops))
      | inr (v, e) ↦
          rw (is_some, flush_loop, dirty, e) (flush_loop-some fuel start_addr i v.0 v.1 stops)
    ]
  ]

  pt3_i2c_flush-some :
      (fuel start_addr : ℕ) (s : σ)
      → ((t : σ) → is_some (i2c_wait fuel t) ≡ true)
      → (s' : σ) × ((pt3_i2c_flush fuel start_addr s ≡ some (eio, s'))
          ⊎ (pt3_i2c_flush fuel start_addr s ≡ some (pos 0, s')))
  unfolding pt3_i2c_flush
  pt3_i2c_flush-some fuel start_addr s stops =
      elim (Option-cases (flush_loop fuel start_addr 999 6 s)) [
        | inl e ↦ absurd (ground (arith, e, flush_loop-some fuel start_addr 999 6 s stops))
        | inr (v, e) ↦ elim (Bool-cases (is_dirty v.0)) [
          | inl dirty ↦ (v.1, inl (rw (pt3_i2c_flush, e, dirty) refl))
          | inr clean ↦ (v.1, inr (rw (pt3_i2c_flush, e, clean) refl))
        ]
      ]

  -- On a card where each sequence stops within `fuel` reads, a transfer comes to an end: it is
  -- refused, with the card untouched, or the bus stays dirty and the messages are as they were, or
  -- the count of the messages is returned and each message that reads, but the first, holds the bytes
  -- of the memory.
  pub pt3_i2c_xfr-returns :
      (fuel : ℕ) (msgs : List Msg) (s : σ)
      → ((t : σ) → is_some (i2c_wait fuel t) ≡ true)
      → ((refused msgs ≡ true) × (pt3_i2c_xfr fuel msgs s ≡ some (enotsupp, msgs, s)))
        ⊎ ((refused msgs ≡ false)
            × (s' : σ) × ((pt3_i2c_xfr fuel msgs s ≡ some (eio, msgs, s'))
                ⊎ (pt3_i2c_xfr fuel msgs s ≡ some (pos (length msgs), read_all s' msgs, s'))))
  unfolding pt3_i2c_xfr
  pt3_i2c_xfr-returns fuel msgs s stops = elim (Bool-cases (refused msgs)) [
    | inl off ↦ inl (off, rw (pt3_i2c_xfr, off) refl)
    | inr on ↦
        let run = pt3_i2c_flush-some fuel 0 (store (i2c_code msgs) s) stops in
        elim run.1 [
          | inl e ↦ inr (on, run.0, inl (rw (pt3_i2c_xfr, on, e) refl))
          | inr e ↦ inr (on, run.0, inr (rw (pt3_i2c_xfr, on, e) refl))
        ]
  ]
