-- ===== src/Pt3/Dma.antt =====
-- `pt3_dma_run` and `pt3_thread` of drivers/media/pci/ptx/pt3_pci.c.
use ptx.Base.{
  ℕ, zero, suc, ◌+◌, ◌%◌, ◌<◌, ◌≡◌, ◌≢◌, ◌-◌, refl, ap, ◌∙◌, Bool, true, false, Option, none, some,
  List, [], ◌∷◌, ◌==◌, ltb, if◌then◌else◌, arith, Bool-cases, inl, inr, Option-cases,
}
use ptx.Base.Int.{ℤ, pos, negsuc, nonzero, etimedout}
use ptx.Pt3.Ring.{ts_block_cnt}

abbrev pub ptx_ts_sync : ℕ
ptx_ts_sync = 0x47

abbrev pub ptx_ts_not_sync : ℕ
ptx_ts_not_sync = 0x74

-- A write to a register of the adapter's DMA.
pub data RegWrite : Type 0 where
  dma_ctl dma_desc : ℕ → RegWrite

-- `struct pt3_adap`: the block to read, the first byte of each block, and the registers written,
-- newest first.
pub record Dma : Type 0 where
  pub ts_blk_idx : ℕ
  pub first : ℕ → ℕ
  pub writes : List RegWrite

-- The loop over the 17 blocks.
abbrev pub clear_blocks : (ℕ → ℕ) → ℕ → ℕ
clear_blocks first i = if ltb i ts_block_cnt then ptx_ts_not_sync else first i

-- `readl` is what reading PT3_STATUS does to the device.
module _ {σ : Type 0} (readl : σ → ℕ × σ) where
  -- `while (i--)`: the value of `i` at the end. Where the loop runs out, `i` ends at -1.
  unfoldable pub stop_loop : ℕ → σ → ℤ × σ
  stop_loop zero s = (negsuc 0, s)
  stop_loop (suc i) s =
      let (status, s') = readl s in
      let rest = stop_loop i s' in if status % 2 == 0 then (pos i, s') else rest

  -- `return i ? 0 : -ETIMEDOUT`
  abbrev pub run_result : ℤ → ℤ
  run_result i = if nonzero i then pos 0 else etimedout

  unfoldable pub pt3_dma_run : ℕ → Bool → Dma → σ → ℤ × Dma × σ
  pt3_dma_run desc_adr true d s = (
    run_result (pos ts_block_cnt),
    record {
      ts_blk_idx = 0;
      first = clear_blocks d.first;
      writes = dma_ctl 1 ∷ dma_desc desc_adr ∷ dma_ctl 2 ∷ d.writes;
    },
    s,
  )
  pt3_dma_run desc_adr false d s =
      let (i, s') = stop_loop 999 s in
      (run_result i, record d { writes = dma_ctl 2 ∷ d.writes }, s')

  -- Which of `n` reads of the status is the first that says the DMA has stopped.
  unfoldable pub first_stopped : ℕ → σ → Option ℕ
  first_stopped zero s = none
  first_stopped (suc n) s =
      let (status, s') = readl s in
      if status % 2 == 0
      then some 0
      else elim (first_stopped n s') [ none ↦ none | some k ↦ some (k + 1) ]

-- One round of the loop of `pt3_thread`: the block handed to the demultiplexer, if any.
unfoldable pub thread_round : Dma → Dma × Option ℕ
thread_round d =
    let next = (d.ts_blk_idx + 1) % ts_block_cnt in
    if d.first next == ptx_ts_sync
    then (
      record d {
        ts_blk_idx = next;
        first = λ j. if j == d.ts_blk_idx then ptx_ts_not_sync else d.first j;
      },
      some d.ts_blk_idx,
    )
    else (d, none)

-- The thread and the device take turns: a round of the thread, or the device writes the first byte
-- of a block.
pub data Turn : Type 0 where
  thread : Turn
  device : ℕ → ℕ → Turn

abbrev pub device_write : ℕ → ℕ → Dma → Dma
device_write i v d = record d { first = λ j. if j == i then v else d.first j }

abbrev pub hand_over : Option ℕ → List ℕ → List ℕ
hand_over none later = later
hand_over (some k) later = k ∷ later

-- The blocks handed over, in the order of time.
unfoldable pub handed : List Turn → Dma → List ℕ
handed [] d = []
handed (device i v ∷ rest) d = handed rest (device_write i v d)
handed (thread ∷ rest) d = let (d', out) = thread_round d in hand_over out (handed rest d')

-- `n` blocks from block `i` on, round the ring.
unfoldable pub in_turn : ℕ → ℕ → List ℕ
in_turn zero i = []
in_turn (suc n) i = i ∷ in_turn n ((i + 1) % ts_block_cnt)

abbrev pub after : Dma → Dma
after d = record d {
  ts_blk_idx = (d.ts_blk_idx + 1) % ts_block_cnt;
  first = λ j. if j == d.ts_blk_idx then ptx_ts_not_sync else d.first j;
}

pub thread_round-full :
    (d : Dma)
    → (d.first ((d.ts_blk_idx + 1) % ts_block_cnt) == ptx_ts_sync) ≡ true
    → thread_round d ≡ (after d, some d.ts_blk_idx)
unfolding thread_round
thread_round-full d full = rw full refl

pub thread_round-empty :
    (d : Dma)
    → (d.first ((d.ts_blk_idx + 1) % ts_block_cnt) == ptx_ts_sync) ≡ false
    → thread_round d ≡ (d, none)
unfolding thread_round
thread_round-empty d empty = rw empty refl

first_stopped-lt :
    {σ : Type 0} → (readl : σ → ℕ × σ) (n k : ℕ) (s : σ) → first_stopped readl n s ≡ some k → k < n
unfolding first_stopped
first_stopped-lt readl zero k s e = absurd (ground arith)
first_stopped-lt readl (suc n) k s e = elim (Bool-cases ((readl s).0 % 2 == 0)) [
  | inl stopped ↦ ground arith
  | inr busy ↦ elim (Option-cases (first_stopped readl n (readl s).1)) [
    | inl never ↦ absurd (ground arith)
    | inr (j, found) ↦ let lt = first_stopped-lt readl n j (readl s).1 found in ground arith
  ]
]

nonzero-answer : (i : ℕ) → i ≢ 0 → (if nonzero (pos i) then pos 0 else etimedout) ≡ pos 0
nonzero-answer zero h = absurd (h refl)
nonzero-answer (suc i) h = refl

-- What the loop's counter is at the end.
abbrev left_of : ℕ → Option ℕ → ℤ
left_of n none = negsuc 0
left_of n (some k) = pos (n - 1 - k)

stop_loop-first_stopped :
    {σ : Type 0}
    → (readl : σ → ℕ × σ) (n : ℕ) (s : σ)
    → (stop_loop readl n s).0 ≡ left_of n (first_stopped readl n s)
unfolding stop_loop first_stopped
stop_loop-first_stopped readl zero s = refl
stop_loop-first_stopped readl (suc n) s =
    let ih = stop_loop-first_stopped readl n (readl s).1 in
    elim (Bool-cases ((readl s).0 % 2 == 0)) [
      | inl stopped ↦ rw (stop_loop, first_stopped, stopped) (ap pos (omega arith))
      | inr busy ↦ elim (Option-cases (first_stopped readl n (readl s).1)) [
        | inl never ↦ rw (stop_loop, first_stopped, busy, never) (rw never at ih)
        | inr (k, found) ↦
            rw (stop_loop, first_stopped, busy, found) ((rw found at ih) ∙ ap pos (omega arith))
      ]
    ]

-- Stopping the DMA answers -ETIMEDOUT exactly where the very last of the 999 reads is the first
-- that says it has stopped; where none of them says so, it answers 0.
pub dma_stop_answer :
    {σ : Type 0}
    → (readl : σ → ℕ × σ) (desc_adr : ℕ) (d : Dma) (s : σ)
    → (pt3_dma_run readl desc_adr false d s).0 ≡ elim (first_stopped readl 999 s) [
      | none ↦ pos 0
      | some k ↦ if k == 998 then etimedout else pos 0
    ]
unfolding pt3_dma_run
dma_stop_answer readl desc_adr d s =
    rw (stop_loop-first_stopped readl 999 s) (elim (Option-cases (first_stopped readl 999 s)) [
      | inl never ↦ rw never refl
      | inr (k, found) ↦
          let k_lt = first_stopped-lt readl 999 k s found in
          rw found (elim (Bool-cases (k == 998)) [
            | inl last ↦ let e : 998 - k ≡ 0 = ground arith in rw (last, e) refl
            | inr before ↦ rw before (nonzero-answer (998 - k) (ground arith))
          ])
    ])
