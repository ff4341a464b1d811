-- ===== src/Pt3/Handed.antt =====
-- Which blocks `pt3_thread` of drivers/media/pci/ptx/pt3_pci.c hands over, and how many.
use ptx.Base.{
  ℕ, zero, suc, ◌+◌, ◌%◌, ◌<◌, ◌≤◌, ◌≡◌, refl, ap, Bool, true, false, List, [], ◌∷◌, ◌==◌,
  if◌then◌else◌, arith, Bool-cases, inl, inr, length, not,
}
use ptx.Pt3.Ring.{ts_block_cnt}
use ptx.Pt3.Dma.{
  Dma, ptx_ts_sync, ptx_ts_not_sync, Turn, thread, device, device_write, handed, in_turn, after,
  thread_round-full, thread_round-empty,
}

in_turn_lem :
    (turns : List Turn) (d : Dma) → handed turns d ≡ in_turn (length (handed turns d)) d.ts_blk_idx
unfolding handed in_turn
in_turn_lem [] d = refl
in_turn_lem (device i v ∷ rest) d = in_turn_lem rest (device_write i v d)
in_turn_lem (thread ∷ rest) d =
    elim (Bool-cases (d.first ((d.ts_blk_idx + 1) % ts_block_cnt) == ptx_ts_sync)) [
      | inl full ↦
          rw
            (
              handed,
              ap (λ p. p.0) (thread_round-full d full),
              ap (λ p. p.1) (thread_round-full d full),
            )
            (ap (λ l. d.ts_blk_idx ∷ l) (in_turn_lem rest (after d)))
      | inr empty ↦
          rw
            (
              handed,
              ap (λ p. p.0) (thread_round-empty d empty),
              ap (λ p. p.1) (thread_round-empty d empty),
            )
            (in_turn_lem rest d)
    ]

abbrev one_if : Bool → ℕ
one_if b = if b then 1 else 0

-- How many of the first `n` blocks begin with the sync byte.
unfoldable pub synced : ℕ → (ℕ → ℕ) → ℕ
synced zero first = 0
synced (suc n) first = synced n first + one_if (first n == ptx_ts_sync)

-- How often the device writes the sync byte.
unfoldable pub sync_writes : List Turn → ℕ
sync_writes [] = 0
sync_writes (thread ∷ rest) = sync_writes rest
sync_writes (device i v ∷ rest) = one_if (v == ptx_ts_sync) + sync_writes rest

abbrev put_first : ℕ → ℕ → (ℕ → ℕ) → ℕ → ℕ
put_first i v first j = if j == i then v else first j

synced-above : (n i v : ℕ) (first : ℕ → ℕ) → n ≤ i → synced n (put_first i v first) ≡ synced n first
unfolding synced
synced-above zero i v first h = refl
synced-above (suc n) i v first h =
    let other : (n == i) ≡ false = ground (arith, h) in
    let ih = synced-above n i v first (omega (arith, h)) in rw (other, ih) refl

synced-put :
    (n i v : ℕ) (first : ℕ → ℕ)
    → i < n
    → synced n (put_first i v first) + one_if (first i == ptx_ts_sync)
      ≡ synced n first + one_if (v == ptx_ts_sync)
unfolding synced
synced-put zero i v first h = absurd (omega (arith, h))
synced-put (suc n) i v first h = elim (Bool-cases (n == i)) [
  | inl here ↦
      let e : n ≡ i = ground (arith, here) in
      let below = synced-above n i v first (omega (arith, e)) in rw (here, below, e) (omega arith)
  | inr other ↦
      let ih = synced-put n i v first (ground (arith, other, h)) in rw (other) (omega (arith, ih))
]

-- The blocks that begin with the sync byte, and one more where the block at hand does not.
abbrev pub budget : Dma → ℕ
budget d = synced ts_block_cnt d.first + one_if (not (d.first d.ts_blk_idx == ptx_ts_sync))

budget-after :
    (d : Dma)
    → d.ts_blk_idx < ts_block_cnt
    → (d.first ((d.ts_blk_idx + 1) % ts_block_cnt) == ptx_ts_sync) ≡ true
    → suc (budget (after d)) ≡ budget d
budget-after d h full =
    let put = synced-put ts_block_cnt d.ts_blk_idx ptx_ts_not_sync d.first h in
    let moved : ((d.ts_blk_idx + 1) % ts_block_cnt == d.ts_blk_idx) ≡ false = ground (arith, h) in
    elim (Bool-cases (d.first d.ts_blk_idx == ptx_ts_sync)) [
      | inl marked ↦ rw (moved, full, marked) (omega (arith, rw marked at put))
      | inr blank ↦ rw (moved, full, blank) (omega (arith, rw blank at put))
    ]

budget-device :
    (i v : ℕ) (d : Dma)
    → i < ts_block_cnt
    → d.ts_blk_idx < ts_block_cnt
    → budget (device_write i v d) ≤ one_if (v == ptx_ts_sync) + budget d
budget-device i v d hi h =
    let put = synced-put ts_block_cnt i v d.first hi in
    elim (Bool-cases (d.ts_blk_idx == i)) [
      | inl here ↦ let e : d.ts_blk_idx ≡ i = ground (arith, here) in ground (arith, put, e, here)
      | inr other ↦ rw other (ground (arith, put))
    ]

-- The device writes into the ring.
unfoldable pub InRing : List Turn → Type 0
InRing [] = Unit
InRing (thread ∷ rest) = InRing rest
InRing (device i v ∷ rest) = (i < ts_block_cnt) × InRing rest

paid :
    (turns : List Turn) (d : Dma)
    → d.ts_blk_idx < ts_block_cnt
    → InRing turns
    → length (handed turns d) ≤ budget d + sync_writes turns
unfolding handed sync_writes InRing
paid [] d h r = omega arith
paid (device i v ∷ rest) d h r =
    omega (arith, paid rest (device_write i v d) h r.1, budget-device i v d r.0 h)
paid (thread ∷ rest) d h r =
    elim (Bool-cases (d.first ((d.ts_blk_idx + 1) % ts_block_cnt) == ptx_ts_sync)) [
      | inl full ↦
          rw
            (
              handed,
              ap (λ p. p.0) (thread_round-full d full),
              ap (λ p. p.1) (thread_round-full d full),
            )
            (omega (arith, paid rest (after d) (omega arith) r, budget-after d h full))
      | inr empty ↦
          rw
            (
              handed,
              ap (λ p. p.0) (thread_round-empty d empty),
              ap (λ p. p.1) (thread_round-empty d empty),
            )
            (paid rest d h r)
    ]

-- Whatever the device writes into the ring and whenever it does, the thread hands over the blocks in the
-- order of the ring, from the one it stands at, none left out; and no more of them than begin with the
-- sync byte at first, or are given it by the device, and one: no mark of the device is used twice.
pub handed-in_turn :
    (turns : List Turn) (d : Dma)
    → d.ts_blk_idx < ts_block_cnt
    → InRing turns
    → (handed turns d ≡ in_turn (length (handed turns d)) d.ts_blk_idx)
      × (length (handed turns d) ≤ synced ts_block_cnt d.first + 1 + sync_writes turns)
handed-in_turn turns d h r =
    let most : budget d ≤ synced ts_block_cnt d.first + 1 = ground arith in
    (in_turn_lem turns d, omega (arith, paid turns d h r, most))
