-- ===== src/Pxq3pe/Irq.antt =====
-- `pxq3pe_irq` of drivers/media/pci/ptx/pxq3pe_pci.c: the packets of a finished transfer go to the
-- adapters that their first bytes name.
use ptx.Base.{
  ℕ, zero, suc, ◌+◌, ◌*◌, ◌^◌, Bool, ◌&&◌, Option, none, some, List, ◌++◌, ◌==◌, ◌=/=◌, ltb, leb,
  if◌then◌else◌, take, drop, get_or, get_elem?, set, memcpy, bit_and, bit_or,
}
use ptx.Pxq3pe.Ring.{Pxq3peAdap, ts_size, pkt_num, pkt_bufsz, pxq3pe_dma_put_stream}

abbrev pub irq_stat : ℕ
irq_stat = 0x808

abbrev pub irq_clear : ℕ
irq_clear = 0x80C

abbrev pub dma_offset_port : ℕ
dma_offset_port = 0x140

abbrev pub dma_mgmt : ℕ
dma_mgmt = 0xAE0

abbrev pub dma_offset_ch : ℕ
dma_offset_ch = 0x10

abbrev pub dma_xfr_stat : ℕ
dma_xfr_stat = 0xAC8

-- `struct ptx_adap`, as far as the interrupt reads it.
pub record Receiver : Type 0 where
  pub on : Bool
  pub priv : Pxq3peAdap

-- `struct pxq3pe_card` with the adapters of its `struct ptx_card`: `on0` and `on1` are `dma.ON`.
pub record Pxq3peCard : Type 0 where
  pub adapn : ℕ
  pub adap : List Receiver
  pub dat : List ℕ
  pub on0 : Bool
  pub on1 : Bool

abbrev pub dma_on : Pxq3peCard → ℕ → Bool
dma_on c port = if port == 0 then c.on0 else c.on1

-- Where a packet that begins with `b` goes: index `adapn` and above is nowhere.
unfoldable pub packet_adap : ℕ → ℕ → ℕ → ℕ
packet_adap adapn port b =
    (if port == 0 then 4 else 0)
    + (if b == 0xC7
        then 0
        else if b == 0x47
        then 1
        else if b == 0x07
        then 2
        else if b == 0x87
        then 3
        else adapn)

-- A packet for an adapter, which puts the packets in its buffer when it has 312 of them.
unfoldable pub receive_packet : Pxq3peAdap → List ℕ → Option Pxq3peAdap
receive_packet p packet = elim (memcpy p.t_buf p.t_buf_idx packet) [
  | none ↦ none
  | some t_buf ↦
      let p1 : Pxq3peAdap = record p { t_buf = t_buf; t_buf_idx = p.t_buf_idx + ts_size } in
      if leb pkt_bufsz p1.t_buf_idx
      then elim (pxq3pe_dma_put_stream p1) [
        | none ↦ none
        | some p2 ↦ some (record p2 { t_buf_idx = 0 })
      ]
      else some p1
]

-- The body of the loop, for the packet at `&tbuf[i]`: the packet and the adapters after it.
unfoldable pub irq_packet : ℕ → ℕ → List ℕ → List Receiver → Option (List ℕ × List Receiver)
irq_packet adapn port packet adap =
    let idx = packet_adap adapn port (get_or packet 0 0) in
    elim (get_elem? adap idx) [
      | none ↦ some (packet, adap)
      | some a ↦
          if ltb idx adapn && a.on
          then elim (receive_packet a.priv (set packet 0 0x47)) [
            | none ↦ none
            | some p ↦ some (set packet 0 0x47, set adap idx (record a { priv = p }))
          ]
          else some (packet, adap)
    ]

-- `for (i = 0; i < PKT_BUFSZ; i += PTX_TS_SIZE)`, with `left` rounds left: `tbuf` begins at `&tbuf[i]`.
unfoldable pub irq_packets : ℕ → ℕ → ℕ → List ℕ → List Receiver → Option (List ℕ × List Receiver)
irq_packets zero adapn port tbuf adap = some (tbuf, adap)
irq_packets (suc left) adapn port tbuf adap =
    elim (irq_packet adapn port (take ts_size tbuf) adap) [
      | none ↦ none
      | some (packet, adap1) ↦ elim (irq_packets left adapn port (drop ts_size tbuf) adap1) [
        | none ↦ none
        | some (rest, adap2) ↦ some (packet ++ rest, adap2)
      ]
    ]

-- The transfer buffer of a channel of a port, which the loop works on, and its packets delivered.
unfoldable pub irq_transfer : ℕ → ℕ → Pxq3peCard → Option Pxq3peCard
irq_transfer port ch c =
    let at = pkt_bufsz * (port * 2 + ch) in
    elim (irq_packets pkt_num c.adapn port (take pkt_bufsz (drop at c.dat)) c.adap) [
      | none ↦ none
      | some (tbuf, adap) ↦ elim (memcpy c.dat at tbuf) [
        | none ↦ none
        | some dat ↦ some (record c { dat = dat; adap = adap })
      ]
    ]

-- `readl` and `writel` are what an access to a register does to the device.
module _ {σ : Type 0} (readl : ℕ → σ → ℕ × σ) (writel : ℕ → ℕ → σ → σ) where
  -- `if (c->dma.ON[port])`, the transfer is started again.
  unfoldable pub irq_restart : ℕ → ℕ → ℕ → Bool → σ → σ
  irq_restart port ch dmamgmt on s =
      if on
      then writel (bit_or dmamgmt (2 * 2 ^ (ch * 16))) (dma_offset_port * port + dma_mgmt) s
      else s

  -- The interrupt of a port and a channel.
  unfoldable pub irq_handle : ℕ → ℕ → ℕ → Pxq3peCard → σ → Option (Pxq3peCard × σ)
  irq_handle irqstat port ch c s0 =
      let s1 = writel irqstat irq_clear s0 in
      let (dmamgmt, s2) = readl (dma_offset_port * port + dma_mgmt) s1 in
      let (xfr, s3) = readl (dma_offset_port * port + dma_offset_ch * ch + dma_xfr_stat) s2 in
      let transferred =
        if bit_and xfr 0x3FFFFF == pkt_bufsz then irq_transfer port ch c else some c in
      elim transferred [
        | none ↦ none
        | some c' ↦ some (c', irq_restart port ch dmamgmt (dma_on c' port) s3)
      ]

  unfoldable pub pxq3pe_irq : Pxq3peCard → σ → Option (Pxq3peCard × σ)
  pxq3pe_irq c s =
      let (irqstat, s1) = readl irq_stat s in
      let ch = if bit_and irqstat 0b0101 =/= 0 then 0 else 1 in
      let port = if bit_and irqstat 0b0011 =/= 0 then 0 else 1 in
      if bit_and irqstat 0b1111 == 0 then some (c, s1) else irq_handle irqstat port ch c s1
