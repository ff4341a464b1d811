-- ===== src/Pxq3pe/Switched.antt =====
-- What `pxq3pe_dma` of drivers/media/pci/ptx/pxq3pe_pci.c does to the card.
use ptx.Base.{
  ℕ, zero, suc, ◌+◌, ◌*◌, ◌^◌, ◌<◌, ◌≡◌, ◌⊎◌, refl, ap, ◌∙◌, Bool, true, false, ◌==◌, ◌=/=◌,
  if◌then◌else◌, bit_and, bit_or, arith, Bool-cases, inl, inr, modify,
}
use ptx.Base.Int.{ℤ, pos, eio}
use ptx.Pxq3pe.Irq.{Pxq3peCard, dma_on, dma_offset_port}
use ptx.Pxq3pe.Dma.{
  pxq3pe_dma, dma_start, off_returns, dma_idx, dma_port, emptied, dma_tsmode, irq_active,
  irq_enable,
}

-- The addresses of the demodulators in the table of `pxq3pe_probe`.
abbrev pub demod_addr : ℕ → ℕ
demod_addr k = 0x10 + 2 * k

below_eight :
    (P : ℕ → Type 0) → P 0 → P 1 → P 2 → P 3 → P 4 → P 5 → P 6 → P 7 → (k : ℕ) → k < 8 → P k
below_eight P p0 p1 p2 p3 p4 p5 p6 p7 zero h = p0
below_eight P p0 p1 p2 p3 p4 p5 p6 p7 (suc zero) h = p1
below_eight P p0 p1 p2 p3 p4 p5 p6 p7 (suc (suc zero)) h = p2
below_eight P p0 p1 p2 p3 p4 p5 p6 p7 (suc (suc (suc zero))) h = p3
below_eight P p0 p1 p2 p3 p4 p5 p6 p7 (suc (suc (suc (suc zero)))) h = p4
below_eight P p0 p1 p2 p3 p4 p5 p6 p7 (suc (suc (suc (suc (suc zero))))) h = p5
below_eight P p0 p1 p2 p3 p4 p5 p6 p7 (suc (suc (suc (suc (suc (suc zero)))))) h = p6
below_eight P p0 p1 p2 p3 p4 p5 p6 p7 (suc (suc (suc (suc (suc (suc (suc zero))))))) h = p7
below_eight P p0 p1 p2 p3 p4 p5 p6 p7 (suc (suc (suc (suc (suc (suc (suc (suc k)))))))) h =
    absurd (omega (arith, h))

off_returns-eight :
    (on : Bool) (k : ℕ) → k < 8 → off_returns 8 0 (dma_idx (demod_addr k) 8) on ≡ true
unfolding off_returns
off_returns-eight true k h =
    below_eight (λ j. off_returns 8 0 (dma_idx (demod_addr j) 8) true ≡ true) refl refl refl refl
      refl refl refl refl k h
off_returns-eight false k h = refl

module _ {σ : Type 0} (readb readl : ℕ → σ → ℕ × σ) (writeb writel : ℕ → ℕ → σ → σ) where
  -- On a card with the eight adapters of the table, turning an adapter's transfers off does nothing at
  -- all, whatever is on: the loop finds another adapter of the same port and takes it for one that is
  -- in use, so the port is never turned off.
  pub pxq3pe_dma-never_off :
      (dma_adr k : ℕ) (c : Pxq3peCard) (s : σ)
      → k < 8
      → c.adapn ≡ 8
      → pxq3pe_dma readb readl writeb writel dma_adr k (demod_addr k) false c s ≡ (pos 0, c, s)
  unfolding pxq3pe_dma
  pxq3pe_dma-never_off dma_adr k c s h n =
      let port = dma_port (dma_idx (demod_addr k) c.adapn) in
      let returns : off_returns c.adapn 0 (dma_idx (demod_addr k) c.adapn) (dma_on c port) ≡ true =
        ap (λ m. off_returns m 0 (dma_idx (demod_addr k) m) (dma_on c port)) n
        ∙ off_returns-eight (dma_on c port) k h in
      rw (pxq3pe_dma, returns) refl

  -- What turning a port on can come to.
  abbrev Started : ℕ → Pxq3peCard → ℤ × Pxq3peCard × σ → Type 0
  Started port c r =
      (r.1.adap ≡ c.adap)
      × ((r.0 ≡ pos 0) × (dma_on r.1 port ≡ true) ⊎ (r.0 ≡ eio) × (dma_on r.1 port ≡ false))

  started :
      (dma_adr port : ℕ) (c : Pxq3peCard) (s : σ)
      → dma_on c port ≡ false
      → Started port c (dma_start readb readl writeb writel dma_adr port c s)
  unfolding dma_start
  started dma_adr port c s off =
      let mode = dma_offset_port * port + dma_tsmode in
      let r1 = readb mode s in
      let s2 = if bit_and r1.0 0x80 == 0 then writeb (bit_or r1.0 0x80) mode r1.1 else r1.1 in
      let val = 3 * 2 ^ (port * 2) in
      let r4 = readl irq_active (writel val irq_enable s2) in
      elim (Bool-cases (val =/= bit_and r4.0 val)) [
        | inl fails ↦ rw (dma_start, fails) (refl, inr (refl, off))
        | inr works ↦ elim (Bool-cases (port == 0)) [
          | inl zeroth ↦ rw (dma_start, works, zeroth) (refl, inl (refl, refl))
          | inr other ↦ rw (dma_start, works, other) (refl, inl (refl, refl))
        ]
      ]

  -- Turning an adapter's transfers on empties its buffer and no other adapter's, and answers 0 with the
  -- port on or -EIO with the port off.
  pub pxq3pe_dma-on :
      (dma_adr k addr : ℕ) (c : Pxq3peCard) (s : σ)
      → let (answer, c', _) = pxq3pe_dma readb readl writeb writel dma_adr k addr true c s in
        let port = dma_port (dma_idx addr c.adapn) in
        (c'.adap ≡ modify c.adap k emptied)
        × ((answer ≡ pos 0) × (dma_on c' port ≡ true) ⊎ (answer ≡ eio) × (dma_on c' port ≡ false))
  unfolding pxq3pe_dma
  pxq3pe_dma-on dma_adr k addr c s =
      let port = dma_port (dma_idx addr c.adapn) in
      elim (Bool-cases (dma_on c port)) [
        | inl running ↦ rw (pxq3pe_dma, running) (refl, inl (refl, running))
        | inr stopped ↦
            rw (pxq3pe_dma, stopped)
              (started dma_adr port (record c { adap = modify c.adap k emptied }) s stopped)
      ]
