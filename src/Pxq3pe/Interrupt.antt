-- ===== src/Pxq3pe/Interrupt.antt =====
-- The whole of `pxq3pe_irq` of drivers/media/pci/ptx/pxq3pe_pci.c, whatever the device answers.
use ptx.Base.{
  ℕ, ◌+◌, ◌*◌, ◌<◌, ◌≤◌, ◌≡◌, refl, Bool, some, List, [], ◌==◌, ◌=/=◌, if◌then◌else◌, arith, take,
  drop, length, length-take, length-drop, memcpy_fits, spliced, length-spliced, get_elem?, bit_and,
  Bool-cases, inl, inr,
}
use ptx.Pxq3pe.Ring.{pkt_num, pkt_bufsz}
use ptx.Pxq3pe.Irq.{
  Receiver, Pxq3peCard, irq_transfer, irq_handle, irq_restart, pxq3pe_irq, dma_on, dma_offset_port,
  dma_offset_ch, dma_mgmt, dma_xfr_stat, irq_clear, irq_stat,
}
use ptx.Pxq3pe.Received.{Takes-nothing}
use ptx.Pxq3pe.Routed.{AllFed, routed, Delivered, irq_packets-routed, fed_at}

-- The bytes of the buffer of a channel of a port.
abbrev pub transfer : Pxq3peCard → ℕ → ℕ → List ℕ
transfer c port ch = take pkt_bufsz (drop (pkt_bufsz * (port * 2 + ch)) c.dat)

-- What the interrupt brings to adapter `k`, which is on or not: nothing, where the card signals nothing
-- or the transfer is not of a whole buffer, and else its packets of the transfer of the channel and
-- the port that the lowest four bits of the status signal.
unfoldable pub brought :
    {σ : Type 0} → (ℕ → σ → ℕ × σ) → (ℕ → ℕ → σ → σ) → Pxq3peCard → ℕ → Bool → σ → List ℕ
brought readl writel c k on s =
    let (stat, s1) = readl irq_stat s in
    let ch = if bit_and stat 0b0101 =/= 0 then 0 else 1 in
    let port = if bit_and stat 0b0011 =/= 0 then 0 else 1 in
    let (mgmt, s2) = readl (dma_offset_port * port + dma_mgmt) (writel stat irq_clear s1) in
    let (xfr, s3) = readl (dma_offset_port * port + dma_offset_ch * ch + dma_xfr_stat) s2 in
    if bit_and stat 0b1111 == 0
    then []
    else if bit_and xfr 0x3FFFFF == pkt_bufsz
    then routed on pkt_num port k (transfer c port ch)
    else []

-- The card after the interrupt, where `xs` is brought to adapter `k`.
abbrev pub Handled : Pxq3peCard → ℕ → Receiver → List ℕ → Pxq3peCard → Type 0
Handled c k a xs c' = AllFed c'.adap × (length c'.dat ≡ length c.dat) × Delivered k a xs c'.adap

bit_below : (t : Bool) → (if t then 0 else 1) < 2
bit_below t = ground arith

module _ (c : Pxq3peCard) (k : ℕ) (a : Receiver) (in_card : k < c.adapn)
    (mapped : length c.dat ≡ pkt_bufsz * 4) (fs : AllFed c.adap)
    (at : get_elem? c.adap k ≡ some a) where
  unserved : Handled c k a [] c
  unserved = (fs, refl, (a, at, refl, Takes-nothing a.priv (fed_at c.adap k a fs at).well))

  irq_transfer_lem :
      (port ch : ℕ)
      → port < 2
      → ch < 2
      → (c' : Pxq3peCard) × (irq_transfer port ch c ≡ some c')
        × Handled c k a (routed a.on pkt_num port k (transfer c port ch)) c'
  unfolding irq_transfer
  irq_transfer_lem port ch hp hc =
      let start = pkt_bufsz * (port * 2 + ch) in
      let n : length (transfer c port ch) ≡ pkt_bufsz = omega (
        arith,
        hp,
        hc,
        mapped,
        length-take pkt_bufsz (drop start c.dat),
        length-drop start c.dat,
      ) in
      let (tbuf, adap, loops, same, fed, delivered) =
        irq_packets-routed c.adapn port k in_card pkt_num (transfer c port ch) c.adap a
          (omega (arith, n)) fs at in
      let room : start + length tbuf ≤ length c.dat = omega (arith, same, n, mapped, hp, hc) in
      (
        record c { dat = spliced c.dat start tbuf; adap = adap },
        rw (irq_transfer, loops, memcpy_fits c.dat start tbuf room) refl,
        (fed, length-spliced c.dat start tbuf room, delivered),
      )

  module _ {σ : Type 0} (readl : ℕ → σ → ℕ × σ) (writel : ℕ → ℕ → σ → σ) where
    irq_handle_lem :
        (irqstat port ch : ℕ) (s : σ)
        → port < 2
        → ch < 2
        → (c' : Pxq3peCard) × (s' : σ) × (irq_handle readl writel irqstat port ch c s
            ≡ some (c', s'))
          × Handled c k a
              (let r2 = readl (dma_offset_port * port + dma_mgmt) (writel irqstat irq_clear s) in
                let r3 = readl (dma_offset_port * port + dma_offset_ch * ch + dma_xfr_stat) r2.1 in
                if bit_and r3.0 0x3FFFFF == pkt_bufsz
                then routed a.on pkt_num port k (transfer c port ch)
                else [])
              c'
    unfolding irq_handle
    irq_handle_lem irqstat port ch s hp hc =
        let r2 = readl (dma_offset_port * port + dma_mgmt) (writel irqstat irq_clear s) in
        let r3 = readl (dma_offset_port * port + dma_offset_ch * ch + dma_xfr_stat) r2.1 in
        let restart = irq_restart readl writel port ch r2.0 in
        elim (Bool-cases (bit_and r3.0 0x3FFFFF == pkt_bufsz)) [
          | inl full ↦
              let (c', moved, served) = irq_transfer_lem port ch hp hc in
              (c', restart (dma_on c' port) r3.1, rw (irq_handle, full, moved) refl, rw full served)
          | inr part ↦
              (c, restart (dma_on c port) r3.1, rw (irq_handle, part) refl, rw part unserved)
        ]

    -- Where every adapter is fed and the transfer buffers are mapped, the interrupt returns whatever the
    -- device answers, without leaving a buffer, and every adapter is fed as before. Adapter `k` takes
    -- nothing where it is off, or the card signals nothing, or the transfer of the channel and the port
    -- that the status signals is not of a whole buffer; and else just its packets of that transfer, which
    -- are those with the first byte of the adapter of that port, in their order.
    pub pxq3pe_irq-Delivered :
        (s : σ)
        → (c' : Pxq3peCard) × (s' : σ) × (pxq3pe_irq readl writel c s ≡ some (c', s'))
          × Handled c k a (brought readl writel c k a.on s) c'
    unfolding pxq3pe_irq brought
    pxq3pe_irq-Delivered s =
        let r1 = readl irq_stat s in
        let ch = if bit_and r1.0 0b0101 =/= 0 then 0 else 1 in
        let port = if bit_and r1.0 0b0011 =/= 0 then 0 else 1 in
        let hc : ch < 2 = bit_below (bit_and r1.0 0b0101 =/= 0) in
        let hp : port < 2 = bit_below (bit_and r1.0 0b0011 =/= 0) in
        elim (Bool-cases (bit_and r1.0 0b1111 == 0)) [
          | inl foreign ↦ (c, r1.1, rw (pxq3pe_irq, foreign) refl, rw (brought, foreign) unserved)
          | inr ours ↦
              let (c', s', handled, served) = irq_handle_lem r1.0 port ch r1.1 hp hc in
              (c', s', rw (pxq3pe_irq, ours) handled, rw (brought, ours) served)
        ]
