-- ===== src/Pxq3pe/Dma.antt =====
-- `pxq3pe_dma` of drivers/media/pci/ptx/pxq3pe_pci.c: a port's transfers turned on and off.
use ptx.Base.{
  ℕ, zero, suc, ◌+◌, ◌-◌, ◌*◌, ◌/◌, ◌^◌, Bool, true, false, not, ◌&&◌, ◌||◌, ◌==◌, ◌=/=◌,
  if◌then◌else◌, modify, bit_and, bit_or,
}
use ptx.Base.Int.{ℤ, pos, eio}
use ptx.Pxq3pe.Ring.{pkt_bufsz}
use ptx.Pxq3pe.Irq.{Receiver, Pxq3peCard, dma_on, dma_offset_port, dma_offset_ch, dma_mgmt}

abbrev pub irq_active : ℕ
irq_active = 0x814

abbrev pub irq_disable : ℕ
irq_disable = 0x818

abbrev pub irq_enable : ℕ
irq_enable = 0x81C

abbrev pub dma_tsmode : ℕ
dma_tsmode = 0xA00

abbrev pub dma_adr_lo : ℕ
dma_adr_lo = 0xAC0

abbrev pub dma_adr_hi : ℕ
dma_adr_hi = 0xAC4

abbrev pub dma_ctl_reg : ℕ
dma_ctl_reg = 0xACC

-- `idx`, from the address of the adapter's demodulator.
abbrev pub dma_idx : ℕ → ℕ → ℕ
dma_idx addr adapn = bit_and (addr / 2) (adapn - 1)

-- `port = !(idx & 4)`
abbrev pub dma_port : ℕ → ℕ
dma_port idx = if bit_and idx 4 == 0 then 1 else 0

abbrev pub set_dma_on : ℕ → Bool → Pxq3peCard → Pxq3peCard
set_dma_on port v c = if port == 0 then record c { on0 = v } else record c { on1 = v }

-- The loop over the adapters before the port is turned off, with `left` adapters left: whether it
-- returns.
unfoldable pub off_returns : ℕ → ℕ → ℕ → Bool → Bool
off_returns zero i idx on = false
off_returns (suc left) i idx on =
    not on
    || ((idx =/= i) && (bit_and i 4 == bit_and idx 4) && on)
    || off_returns left (i + 1) idx on

-- The buffer emptied.
abbrev pub emptied : Receiver → Receiver
emptied a = record a {
  priv = record a.priv { s_buf_byte_cnt = 0; s_buf_stop = 0; s_buf_start = 0 };
}

-- An access to a register of the device, `b` for a byte and `l` for a word.
module _ {σ : Type 0} (readb readl : ℕ → σ → ℕ × σ) (writeb writel : ℕ → ℕ → σ → σ) where
  -- What is left to do once the loop has not returned.
  unfoldable pub dma_off : ℕ → Pxq3peCard → σ → Pxq3peCard × σ
  dma_off port c s =
      let mgmt = dma_offset_port * port + dma_mgmt in
      let (i, s1) = readb mgmt s in
      let s2 = if bit_and i 0b1100 == 4 then writeb (bit_and i 0xFD) mgmt s1 else s1 in
      (set_dma_on port false c, writeb (3 * 2 ^ (port * 2)) irq_disable s2)

  -- The registers of channel `i` of a port.
  unfoldable pub cfg_channel : ℕ → ℕ → ℕ → σ → σ
  cfg_channel dma_adr port i s =
      let at = dma_offset_port * port + dma_offset_ch * i in
      let (val, s1) = readl (dma_offset_port * port + dma_mgmt) s in
      let s2 = writel (dma_adr + pkt_bufsz * (port * 2 + i)) (at + dma_adr_lo) s1 in
      let s3 = writel 0 (at + dma_adr_hi) s2 in
      let s4 = writel 0x11C0E520 (at + dma_ctl_reg) s3 in
      writel (bit_or val (3 * 2 ^ (i * 16))) (dma_offset_port * port + dma_mgmt) s4

  -- The port turned on, where it is off.
  unfoldable pub dma_start : ℕ → ℕ → Pxq3peCard → σ → ℤ × Pxq3peCard × σ
  dma_start dma_adr port c s =
      let mode = dma_offset_port * port + dma_tsmode in
      let (i, s1) = readb mode s in
      let s2 = if bit_and i 0x80 == 0 then writeb (bit_or i 0x80) mode s1 else s1 in
      let val = 3 * 2 ^ (port * 2) in
      let s3 = writel val irq_enable s2 in
      let (active, s4) = readl irq_active s3 in
      if val =/= bit_and active val then (eio, c, s4) else (
        pos 0,
        set_dma_on port true c,
        cfg_channel dma_adr port 1 (cfg_channel dma_adr port 0 s4),
      )

  -- `k` is the index of the adapter, `addr` the address of its demodulator, `dma_adr` that of the
  -- transfer buffers.
  unfoldable pub pxq3pe_dma : ℕ → ℕ → ℕ → Bool → Pxq3peCard → σ → ℤ × Pxq3peCard × σ
  pxq3pe_dma dma_adr k addr false c s =
      let idx = dma_idx addr c.adapn in
      let port = dma_port idx in
      if off_returns c.adapn 0 idx (dma_on c port)
      then (pos 0, c, s)
      else (let (c', s') = dma_off port c s in (pos 0, c', s'))
  pxq3pe_dma dma_adr k addr true c s =
      let port = dma_port (dma_idx addr c.adapn) in
      let c1 = record c { adap = modify c.adap k emptied } in
      if dma_on c port then (pos 0, c1, s) else dma_start dma_adr port c1 s
