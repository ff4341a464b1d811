-- ===== src/Pt3/Memory.antt =====
-- The memory that `dma_create` allocates and `pt3_remove` frees, and the ways out of `pt3_probe`, of
-- drivers/media/pci/ptx/pt3_pci.c.
use ptx.Base.{
  ℕ, zero, suc, ◌+◌, ◌≡◌, refl, Bool, true, false, ◌&&◌, List, [], ◌∷◌, Option, none, some,
  if◌then◌else◌, replicate, arith, Bool-cases, inl, inr,
}
use ptx.Pt3.Ring.{ts_block_cnt, desc_pg_cnt}

-- The two arrays, and the DMA memory of each element.
pub data Block : Type 0 where
  ts_array desc_array : Block
  ts_page desc_page : ℕ → Block

-- `p->ts_info` and `p->desc_info`: for each element, whether its `dat` is set.
pub record Info : Type 0 where
  pub ts_info : Option (List Bool)
  pub desc_info : Option (List Bool)

-- A loop over the elements from `i` on, up to the first that gets no memory. It answers whether all
-- did, the elements, and what has been allocated, newest first.
unfoldable pub alloc_pages :
    (ℕ → Block) → (ℕ → Bool) → ℕ → ℕ → List Block → Bool × List Bool × List Block
alloc_pages block ok zero i t = (true, [], t)
alloc_pages block ok (suc left) i t =
    let (fine, flags, t') = alloc_pages block ok left (i + 1) (block i ∷ t) in
    if ok i then (fine, true ∷ flags, t') else (false, replicate (suc left) false, t)

-- What the kernel answers: the two `kcalloc`, and `pci_alloc_consistent` for each element.
pub record Memory : Type 0 where
  pub ts_array_ok : Bool
  pub desc_array_ok : Bool
  pub desc_ok : ℕ → Bool
  pub ts_ok : ℕ → Bool

abbrev pub array_of : Bool → ℕ → Option (List Bool)
array_of ok n = if ok then some (replicate n false) else none

unfoldable pub alloc_arrays : Memory → List Block → List Block
alloc_arrays m t =
    let t' = if m.ts_array_ok then ts_array ∷ t else t in
    if m.desc_array_ok then desc_array ∷ t' else t'

-- With `desc_cnt` descriptor pages and `ts_cnt` blocks.
module _ (desc_cnt ts_cnt : ℕ) where
  unfoldable pub alloc_all : Memory → List Block → Bool × Info × List Block
  alloc_all m t =
      let (fine, flags, t1) = alloc_pages desc_page m.desc_ok desc_cnt 0 t in
      let (fine2, flags2, t2) = alloc_pages ts_page m.ts_ok ts_cnt 0 t1 in
      if fine
      then (fine2, record { ts_info = some flags2; desc_info = some flags }, t2)
      else (false, record { ts_info = some (replicate ts_cnt false); desc_info = some flags }, t1)

  unfoldable pub alloc_dma : Memory → List Block → Bool × Info × List Block
  alloc_dma m t0 =
      let t = alloc_arrays m t0 in
      if m.ts_array_ok && m.desc_array_ok then alloc_all m t else (
        false,
        record {
          ts_info = array_of m.ts_array_ok ts_cnt;
          desc_info = array_of m.desc_array_ok desc_cnt;
        },
        t,
      )

unfoldable pub dma_alloc : Memory → List Block → Bool × Info × List Block
dma_alloc = alloc_dma desc_pg_cnt ts_block_cnt

unfoldable pub free_pages : (ℕ → Block) → ℕ → List Bool → List Block → List Block
free_pages block i [] t = t
free_pages block i (flag ∷ rest) t = free_pages block (i + 1) rest (if flag then block i ∷ t else t)

abbrev pub free_array : (ℕ → Block) → Block → Option (List Bool) → List Block → List Block
free_array block array none t = t
free_array block array (some flags) t = array ∷ free_pages block 0 flags t

-- What `pt3_remove` frees of one adapter, newest first.
unfoldable pub dma_free : Info → List Block → List Block
dma_free info t =
    free_array desc_page desc_array info.desc_info (free_array ts_page ts_array info.ts_info t)

-- The sum of a weight over a list. With the weight that is 1 at one block it counts the block.
unfoldable pub total : (Block → ℕ) → List Block → ℕ
total w [] = 0
total w (b ∷ rest) = w b + total w rest

module _ (w : Block → ℕ) where
  total-free_none :
      (block : ℕ → Block) (n i : ℕ) (t : List Block)
      → total w (free_pages block i (replicate n false) t) ≡ total w t
  unfolding free_pages
  total-free_none block zero i t = refl
  total-free_none block (suc n) i t = total-free_none block n (i + 1) t

  total-free_more :
      (block : ℕ → Block) (flags : List Bool) (i : ℕ) (b : Block) (t : List Block)
      → total w (free_pages block i flags (b ∷ t)) ≡ w b + total w (free_pages block i flags t)
  unfolding free_pages total
  total-free_more block [] i b t = refl
  total-free_more block (false ∷ rest) i b t = total-free_more block rest (i + 1) b t
  total-free_more block (true ∷ rest) i b t = omega (
    arith,
    total-free_more block rest (i + 1) (block i) (b ∷ t),
    total-free_more block rest (i + 1) b t,
    total-free_more block rest (i + 1) (block i) t,
  )

  total-alloc_pages :
      (block : ℕ → Block) (ok : ℕ → Bool) (left i : ℕ) (t u : List Block)
      → let (fine, flags, t') = alloc_pages block ok left i t in
        total w t' + total w u ≡ total w t + total w (free_pages block i flags u)
  unfolding alloc_pages free_pages total
  total-alloc_pages block ok zero i t u = refl
  total-alloc_pages block ok (suc left) i t u =
      let ih = total-alloc_pages block ok left (i + 1) (block i ∷ t) u in
      let (fine, flags, t') = alloc_pages block ok left (i + 1) (block i ∷ t) in
      elim (Bool-cases (ok i)) [
        | inl good ↦ rw good (omega (arith, ih, total-free_more block flags (i + 1) (block i) u))
        | inr bad ↦ rw bad (omega (arith, total-free_none block left (i + 1) u))
      ]

  alloc_all-freed :
      (nd nt : ℕ) (m : Memory) (t : List Block)
      → let (fine, info, t') = alloc_all nd nt m t in
        total w (dma_free info []) + total w t ≡ total w t' + w ts_array + w desc_array
  unfolding alloc_all dma_free total
  alloc_all-freed nd nt m t =
      let (fine, flags, t1) = alloc_pages desc_page m.desc_ok nd 0 t in
      let (fine2, flags2, t2) = alloc_pages ts_page m.ts_ok nt 0 t1 in
      let freed = free_pages ts_page 0 flags2 [] in
      let bare = free_pages ts_page 0 (replicate nt false) [] in
      elim (Bool-cases fine) [
        | inl all ↦ rw all (
            omega (
              arith,
              total-alloc_pages desc_page m.desc_ok nd 0 t (ts_array ∷ freed),
              total-alloc_pages ts_page m.ts_ok nt 0 t1 [],
            ))
        | inr some_failed ↦ rw some_failed (
            omega (
              arith,
              total-alloc_pages desc_page m.desc_ok nd 0 t (ts_array ∷ bare),
              total-free_none ts_page nt 0 [],
            ))
      ]

  alloc_dma-freed :
      (nd nt : ℕ) (m : Memory)
      → let (fine, info, t) = alloc_dma nd nt m [] in total w (dma_free info []) ≡ total w t
  unfolding alloc_dma alloc_arrays dma_free total
  alloc_dma-freed nd nt m = ground (
    arith,
    alloc_all-freed nd nt m (desc_array ∷ ts_array ∷ []),
    total-free_none ts_page nt 0 [],
    total-free_none desc_page nd 0 [],
    total-free_none desc_page nd 0 (ts_array ∷ free_pages ts_page 0 (replicate nt false) []),
  )

  -- Whatever of the arrays and of the DMA memory is refused, what `pt3_remove` frees of the adapter
  -- is what `dma_create` got, each block as often as it was allocated.
  pub dma_free-dma_alloc :
      (m : Memory) → let (fine, info, t) = dma_alloc m [] in total w (dma_free info []) ≡ total w t
  unfolding dma_alloc
  dma_free-dma_alloc m = alloc_dma-freed desc_pg_cnt ts_block_cnt m
