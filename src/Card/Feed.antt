-- ===== src/Card/Feed.antt =====
-- `ptx_start_feed` and `ptx_stop_feed` of drivers/media/pci/ptx/ptx_common.c.
use ptx.Base.{ℕ, true, false, ◌∷◌, if◌then◌else◌, set}
use ptx.Base.Int.{ℤ, pos}
use ptx.Card.{Card, dma, thread_run, thread_stop, Kthread, null, err_ptr, adap_of}

abbrev pub set_kthread : ℕ → Kthread → Card → Card
set_kthread i k c = record c { adaps = set c.adaps i (record (adap_of c i) { kthread = k }) }

-- `IS_ERR(kthread) ? PTR_ERR(kthread) : dma(adap, true)`, with the answer of `dma`.
unfoldable pub start_dma : ℕ → ℤ → Kthread → Card → Card × ℤ
start_dma i answer (err_ptr e) c = (c, e)
start_dma i answer _ c = (record c { trace = dma i true ∷ c.trace }, answer)

-- `spawned` is what `kthread_run` returns, `answer` what the card's `dma` does.
unfoldable pub ptx_start_feed : ℕ → Kthread → ℤ → Card → Card × ℤ
unfolding start_dma
ptx_start_feed i spawned answer c =
    let c' =
      if c.thread
      then (let c1 = set_kthread i spawned c in record c1 { trace = thread_run i ∷ c1.trace })
      else c in
    start_dma i answer (adap_of c' i).kthread c'

abbrev pub stop_thread : ℕ → Kthread → Card → Card
stop_thread i null c = c
stop_thread i _ c = record c { trace = thread_stop i ∷ c.trace }

unfoldable pub ptx_stop_feed : ℕ → Card → Card × ℤ
ptx_stop_feed i c =
    let c' = record c { trace = dma i false ∷ c.trace } in
    (stop_thread i (adap_of c i).kthread c', pos 0)
