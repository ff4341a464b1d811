-- ===== src/Pt3/Ring.antt =====
-- `dma_create` in `pt3_probe` of drivers/media/pci/ptx/pt3_pci.c: the descriptors of the DMA, in pages
-- of 204, for 17 blocks of 47 pages each.
use ptx.Base.{ℕ, zero, suc, ◌+◌, ◌-◌, ◌*◌, ◌/◌, List, [], ◌∷◌, ◌==◌, if◌then◌else◌}

-- The enumeration's constants.
abbrev pub desc_sz : ℕ
desc_sz = 20

abbrev pub desc_max : ℕ
desc_max = 204

abbrev pub desc_page_sz : ℕ
desc_page_sz = 4080

abbrev pub ts_page_cnt : ℕ
ts_page_cnt = 47

abbrev pub ts_block_cnt : ℕ
ts_block_cnt = 17

-- `struct dma_desc`, with the address that the device finds it at.
pub record Desc : Type 0 where
  pub adr : ℕ
  pub page_addr : ℕ
  pub page_size : ℕ
  pub next_desc : ℕ

-- The locals of `dma_create` and the descriptors filled so far, newest first: `prev` is the first.
pub record DmaProgress : Type 0 where
  pub descs : List Desc
  pub desc_todo : ℕ
  pub desc_pg_idx : ℕ
  pub desc_addr : ℕ

-- `if (prev) prev->next_desc = desc_addr;`
abbrev pub link_prev : ℕ → List Desc → List Desc
link_prev desc_addr [] = []
link_prev desc_addr (prev ∷ rest) = record prev { next_desc = desc_addr } ∷ rest

-- `desc_adr` and `ts_adr` are the addresses of the descriptor pages and of the blocks.
module _ (desc_adr ts_adr : ℕ → ℕ) where
  -- `if (!desc_todo)`: on to the next descriptor page.
  unfoldable pub next_page : DmaProgress → DmaProgress
  next_page p =
      if p.desc_todo == 0
      then record p {
        desc_todo = desc_max;
        desc_pg_idx = p.desc_pg_idx + 1;
        desc_addr = desc_adr p.desc_pg_idx;
      }
      else p

  -- The body of the inner loop, for page `j` of block `i`. The pointer `curr` and the address `desc_addr`
  -- that the card is given for the same memory go on together, and are one number here.
  unfoldable pub add_desc : ℕ → ℕ → DmaProgress → DmaProgress
  add_desc i j p0 =
      let p = next_page p0 in
      record {
        descs =
            record {
              adr = p.desc_addr;
              page_addr = ts_adr i + desc_page_sz * j;
              page_size = desc_page_sz;
              next_desc = desc_adr 0;
            }
            ∷ link_prev p.desc_addr p.descs;
        desc_todo = p.desc_todo - 1;
        desc_pg_idx = p.desc_pg_idx;
        desc_addr = p.desc_addr + desc_sz;
      }

  -- `left` rounds from page `j` on.
  unfoldable pub add_block : ℕ → ℕ → ℕ → DmaProgress → DmaProgress
  add_block zero i j p = p
  add_block (suc left) i j p = add_block left i (j + 1) (add_desc i j p)

  -- `left` rounds from block `i` on.
  unfoldable pub add_blocks : ℕ → ℕ → DmaProgress → DmaProgress
  add_blocks zero i p = p
  add_blocks (suc left) i p = add_blocks left (i + 1) (add_block ts_page_cnt i 0 p)

  unfoldable pub dma_create : DmaProgress
  dma_create =
      add_blocks ts_block_cnt 0
        (record { descs = []; desc_todo = 0; desc_pg_idx = 0; desc_addr = 0 })

-- `roundup(TS_PAGE_CNT * p->ts_blk_cnt, DESC_MAX)`, the number of descriptor pages allocated.
abbrev pub desc_pg_cnt : ℕ
desc_pg_cnt = (ts_page_cnt * ts_block_cnt + desc_max - 1) / desc_max * desc_max
