-- ===== src/Card/Stream.antt =====
-- The order of the calls when a feed starts and stops: `ptx_start_feed` and `ptx_stop_feed` of
-- drivers/media/pci/ptx/ptx_common.c.
use ptx.Base.{ℕ, ◌<◌, ◌≡◌, true, false, ◌∷◌, arith, length, get_or-set_self}
use ptx.Base.Int.{ℤ}
use ptx.Card.{Card, dma, thread_run, thread_stop, Kthread, null, task, err_ptr, zeroed, adap_of}
use ptx.Card.Feed.{ptx_start_feed, ptx_stop_feed}

module _ (i : ℕ) (c : Card) (h : i < length c.adaps) where
  -- On a card with a thread: a feed that starts runs the thread before the DMA and answers what
  -- the card's `dma` answers, and stopping it then stops the DMA before the thread. If the thread
  -- cannot be created, `ptx_start_feed` answers the error and does not touch the DMA.
  pub feed_order :
      (answer e : ℤ)
      → c.thread ≡ true
      → let (started, r) = ptx_start_feed i task answer c in
        let (failed, s) = ptx_start_feed i (err_ptr e) answer c in
        (r ≡ answer)
        × ((ptx_stop_feed i started).0.trace
            ≡ thread_stop i ∷ dma i false ∷ dma i true ∷ thread_run i ∷ c.trace)
        × (s ≡ e)
        × (failed.trace ≡ thread_run i ∷ c.trace)
  unfolding ptx_start_feed ptx_stop_feed
  feed_order answer e th = ground (
    arith,
    get_or-set_self c.adaps i (record (adap_of c i) { kthread = task }) zeroed h,
    get_or-set_self c.adaps i (record (adap_of c i) { kthread = err_ptr e }) zeroed h,
  )

  -- On a card without a thread, whose adapter has none, only the DMA is started and stopped.
  pub feed_without_thread :
      (spawned : Kthread) (answer : ℤ)
      → c.thread ≡ false
      → (adap_of c i).kthread ≡ null
      → let (started, r) = ptx_start_feed i spawned answer c in
        (r ≡ answer) × ((ptx_stop_feed i started).0.trace ≡ dma i false ∷ dma i true ∷ c.trace)
  unfolding ptx_start_feed ptx_stop_feed
  feed_without_thread spawned answer th k = ground arith
