-- ===== src/Pxq3pe/Ring.antt =====
-- `struct pxq3pe_adap` and `pxq3pe_dma_put_stream` of drivers/media/pci/ptx/pxq3pe_pci.c. An `u32`
-- wraps at 2^32.
use ptx.Base.{
  ℕ, ◌+◌, ◌-◌, ◌*◌, ◌%◌, ◌^◌, Option, none, some, List, ◌==◌, leb, if◌then◌else◌, take, drop,
  memcpy,
}

abbrev pub ts_size : ℕ
ts_size = 188

abbrev pub pkt_num : ℕ
pkt_num = 312

abbrev pub pkt_bufsz : ℕ
pkt_bufsz = ts_size * pkt_num

pub record Pxq3peAdap : Type 0 where
  pub t_buf : List ℕ
  pub s_buf : List ℕ
  pub t_buf_idx : ℕ
  pub s_buf_size : ℕ
  pub s_buf_start : ℕ
  pub s_buf_stop : ℕ
  pub s_buf_byte_cnt : ℕ

-- The bytes that one `memcpy` can take before the end of the buffer.
unfoldable pub save_size : Pxq3peAdap → ℕ
save_size p =
    let len = p.t_buf_idx in
    if leb len (p.s_buf_size - p.s_buf_stop) then len else p.s_buf_size - p.s_buf_stop

-- Both calls of `memcpy`: nothing where one of them leaves the buffer.
unfoldable pub put_bytes : Pxq3peAdap → Option (List ℕ)
put_bytes p =
    let savesz = save_size p in
    let remain = p.t_buf_idx - savesz in
    elim (memcpy p.s_buf p.s_buf_stop (take savesz p.t_buf)) [
      | none ↦ none
      | some first ↦
          if remain == 0 then some first else memcpy first 0 (take remain (drop savesz p.t_buf))
    ]

-- The indices after the copy.
unfoldable pub put_counts : Pxq3peAdap → Pxq3peAdap
put_counts p =
    let len = p.t_buf_idx in
    let stop = (p.s_buf_stop + len) % 2 ^ 32 % p.s_buf_size in
    let p1 : Pxq3peAdap = record p { s_buf_stop = stop } in
    if p.s_buf_byte_cnt == p.s_buf_size
    then record p1 { s_buf_start = stop }
    else if leb ((p.s_buf_byte_cnt + len) % 2 ^ 32) p.s_buf_size
    then record p1 { s_buf_byte_cnt = (p.s_buf_byte_cnt + len) % 2 ^ 32 }
    else record p1 { s_buf_start = stop; s_buf_byte_cnt = p.s_buf_size }

unfoldable pub pxq3pe_dma_put_stream : Pxq3peAdap → Option Pxq3peAdap
pxq3pe_dma_put_stream p = elim (put_bytes p) [
  | none ↦ none
  | some buf ↦ some (put_counts (record p { s_buf = buf }))
]
