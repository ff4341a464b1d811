-- ===== src/Pt3/Circular.antt =====
-- The ring of descriptors that `dma_create` (drivers/media/pci/ptx/pt3_pci.c) builds.
use ptx.Base.{
  ℕ, zero, suc, ◌+◌, ◌-◌, ◌*◌, ◌/◌, ◌%◌, ◌<◌, ◌≡◌, refl, ap, false, List, [], ◌∷◌, ◌==◌, arith,
  Bool-cases, inl, inr,
}
use ptx.Pt3.Ring.{
  desc_sz, desc_max, desc_page_sz, ts_page_cnt, ts_block_cnt, Desc, DmaProgress, link_prev,
  next_page, add_desc, add_block, add_blocks, dma_create,
}

module _ (desc_adr ts_adr : ℕ → ℕ) where
  -- Where descriptor `k` stands, and the page that it describes, of block `k / 47`.
  abbrev pub slot : ℕ → ℕ
  slot k = desc_adr (k / desc_max) + desc_sz * (k % desc_max)

  abbrev pub page : ℕ → ℕ
  page k = ts_adr (k / ts_page_cnt) + desc_page_sz * (k % ts_page_cnt)

  abbrev pub desc : ℕ → ℕ → Desc
  desc k next = record {
    adr = slot k;
    page_addr = page k;
    page_size = desc_page_sz;
    next_desc = next;
  }

  -- The first `k` descriptors, newest first, each with the address of the one behind it.
  unfoldable pub chain : ℕ → List Desc
  chain zero = []
  chain (suc k) = desc k (slot (suc k)) ∷ chain k

  -- The ring of `k` descriptors: the newest leads back to the start of the first page.
  unfoldable pub ring : ℕ → List Desc
  ring zero = []
  ring (suc k) = desc k (desc_adr 0) ∷ chain k

  -- The state after `k` descriptors.
  record IsAt (k : ℕ) (p : DmaProgress) : Type 0 where
    descs : p.descs ≡ ring k
    todo : p.desc_todo ≡ (desc_max - k % desc_max) % desc_max
    pages : p.desc_pg_idx ≡ (k + (desc_max - 1)) / desc_max
    addr : (p.desc_todo == 0) ≡ false → p.desc_addr ≡ slot k

  link_prev-ring : (k : ℕ) → link_prev (slot k) (ring k) ≡ chain k
  unfolding ring chain
  link_prev-ring zero = refl
  link_prev-ring (suc k) = refl

  next_page-IsAt :
      (k : ℕ) (p : DmaProgress)
      → IsAt k p
      → let p' = next_page desc_adr ts_adr p in
        (p'.descs ≡ ring k)
        × (p'.desc_todo ≡ desc_max - k % desc_max)
        × (p'.desc_pg_idx ≡ k / desc_max + 1)
        × (p'.desc_addr ≡ slot k)
  unfolding next_page
  next_page-IsAt k p h = elim (Bool-cases (p.desc_todo == 0)) [
    | inl full ↦
        let at0 : k % desc_max ≡ 0 = ground (arith, h.todo) in
        rw full (
          h.descs,
          omega (arith, at0),
          omega (arith, h.pages, at0),
          (let e : p.desc_pg_idx ≡ k / desc_max = omega (arith, h.pages, at0) in
              omega (arith, ap desc_adr e, at0)),
        )
    | inr room ↦
        rw room (h.descs, ground (arith, h.todo), ground (arith, h.todo, h.pages), h.addr room)
  ]

  add_desc-IsAt :
      (k i j : ℕ) (p : DmaProgress)
      → IsAt k p
      → i ≡ k / ts_page_cnt
      → j ≡ k % ts_page_cnt
      → IsAt (suc k) (add_desc desc_adr ts_adr i j p)
  unfolding add_desc ring
  add_desc-IsAt k i j p h e f =
      let p' = next_page desc_adr ts_adr p in
      let n = next_page-IsAt k p h in
      let linked : link_prev p'.desc_addr p'.descs ≡ chain k = rw (n.0, n.3) (link_prev-ring k) in
      record {
        descs = rw (linked, n.3, e, f) refl;
        todo = omega (arith, n.1);
        pages = omega (arith, n.2);
        addr = λ more.
            let inside : k % desc_max + 1 < desc_max = ground (arith, n.1, more) in
            let same : suc k / desc_max ≡ k / desc_max = omega (arith, inside) in
            let next : suc k % desc_max ≡ k % desc_max + 1 = omega (arith, inside) in
            omega (arith, n.3, ap desc_adr same, next);
      }

  add_block-IsAt :
      (left i j : ℕ) (p : DmaProgress)
      → IsAt (i * ts_page_cnt + j) p
      → j + left ≡ ts_page_cnt
      → IsAt ((i + 1) * ts_page_cnt) (add_block desc_adr ts_adr left i j p)
  unfolding add_block
  add_block-IsAt zero i j p h e =
      let k : i * ts_page_cnt + j ≡ (i + 1) * ts_page_cnt = omega arith in rw k at h
  add_block-IsAt (suc left) i j p h e =
      let h1 = add_desc-IsAt (i * ts_page_cnt + j) i j p h (omega arith) (omega arith) in
      let k : suc (i * ts_page_cnt + j) ≡ i * ts_page_cnt + (j + 1) = omega arith in
      add_block-IsAt left i (j + 1) (add_desc desc_adr ts_adr i j p) (rw k at h1) (omega arith)

  add_blocks-IsAt :
      (left i : ℕ) (p : DmaProgress)
      → IsAt (i * ts_page_cnt) p
      → IsAt ((i + left) * ts_page_cnt) (add_blocks desc_adr ts_adr left i p)
  unfolding add_blocks
  add_blocks-IsAt zero i p h =
      let k : i * ts_page_cnt ≡ (i + 0) * ts_page_cnt = omega arith in rw k at h
  add_blocks-IsAt (suc left) i p h =
      let start : i * ts_page_cnt ≡ i * ts_page_cnt + 0 = omega arith in
      let h1 = add_block-IsAt ts_page_cnt i 0 p (rw start at h) refl in
      let k : (i + 1 + left) * ts_page_cnt ≡ (i + suc left) * ts_page_cnt = omega arith in
      rw k at (add_blocks-IsAt left (i + 1) (add_block desc_adr ts_adr ts_page_cnt i 0 p) h1)

  -- Where every allocation succeeds, the 799 descriptors describe the pages of the 17 blocks in
  -- their order, stand one behind the other in the descriptor pages, and form one ring: each leads to
  -- the one behind it, across the ends of the descriptor pages too, and the last to the first. Four
  -- descriptor pages are used.
  pub dma_create-ring :
      ((dma_create desc_adr ts_adr).descs ≡ ring (ts_page_cnt * ts_block_cnt))
      × ((dma_create desc_adr ts_adr).desc_pg_idx ≡ 4)
  unfolding dma_create ring
  dma_create-ring =
      let start : DmaProgress = record {
        descs = [];
        desc_todo = 0;
        desc_pg_idx = 0;
        desc_addr = 0;
      } in
      let h =
        add_blocks-IsAt ts_block_cnt 0 start
          record { descs = refl; todo = refl; pages = refl; addr = λ e. absurd (ground arith) } in
      (h.descs, h.pages)
