-- ===== src/Recorder/Waiting.antt =====
-- That `enqueue` and `dequeue` of apps/cdev/recpt1/recpt1.c return, whatever the other threads do while
-- they wait.
use ptx.Base.{
  ℕ, zero, suc, ◌+◌, ◌<◌, ◌≤◌, ◌≡◌, ◌⊎◌, refl, ◌∙◌, Bool, true, false, Option, none, some, [], ◌∷◌,
  ◌++◌, ◌==◌, ltb, if◌then◌else◌, arith, Bool-cases, inl, inr,
}
use ptx.Recorder.Queue.{QueueT, Shared, enqueue_now, dequeue_now, waited, await, enqueue, dequeue}
use ptx.Recorder.Fifo.{IsQueue, queued, enqueue_now-queued, dequeue_now-queued}

if_false : {A : Type 0} (b : Bool) (x y : A) → b ≡ false → (if b then x else y) ≡ y
if_false b x y h = rw h refl

module _ {A : Type 0} (others : ℕ → Shared A → Shared A) where
  -- From one shared state to another by waits, the first of which has the number given.
  pub data Waits : ℕ → Shared A → Shared A → Type 0 where
    no_wait : (n : ℕ) (sh : Shared A) → Waits n sh sh
    one_wait : (n : ℕ) (sh sh1 : Shared A) → Waits (n + 1) (waited others n sh) sh1 → Waits n sh sh1

module _ {A : Type 0} (others : ℕ → Shared A → Shared A)
    (keep : (n : ℕ) (sh : Shared A) → IsQueue sh.queue → IsQueue (others n sh).queue) where
  -- How a wait for a count to be positive ends.
  abbrev Ends : ℕ → Shared A → (QueueT A → ℕ) → Option (Shared A × Bool) → Type 0
  Ends n sh count r =
      (sh1 : Shared A) × (b : Bool) × (r ≡ some (sh1, b))
      × Waits others n sh sh1
      × IsQueue sh1.queue
      × ((b ≡ true) × (0 < count sh1.queue) ⊎ (b ≡ false) × (sh1.f_exit ≡ true))

  exits : (n : ℕ) (sh : Shared A) → 60 ≤ n → (waited others n sh).f_exit ≡ true
  unfolding waited
  exits n sh h = let many : ltb 60 (n + 1) ≡ true = ground (arith, h) in rw many refl

  stays_below : (n : ℕ) (sh : Shared A) → (waited others n sh).f_exit ≡ false → n < 60
  stays_below n sh stay = elim (Bool-cases (ltb n 60)) [
    | inl less ↦ ground (arith, less)
    | inr late ↦ let exit = exits n sh (ground (arith, late)) in absurd (cc (exit, stay))
  ]

  kept : (n : ℕ) (sh : Shared A) → IsQueue sh.queue → IsQueue (waited others n sh).queue
  unfolding waited
  kept n sh w = keep n sh w

  await-Ends :
      (count : QueueT A → ℕ) (fuel n : ℕ) (sh : Shared A)
      → fuel + n ≡ 61
      → n ≤ 60
      → IsQueue sh.queue
      → Ends n sh count (await others count fuel n sh)
  unfolding await
  await-Ends count zero n sh e h w = absurd (omega (arith, e, h))
  await-Ends count (suc fuel) n sh e h w =
      let sh1 = waited others n sh in
      let w1 : IsQueue sh1.queue = kept n sh w in
      elim (Bool-cases (count sh.queue == 0)) [
        | inr found ↦ (
          sh,
          true,
          rw (await, found) refl,
          Waits.no_wait n sh,
          w,
          inl (refl, ground (arith, found)),
        )
        | inl empty ↦ elim (Bool-cases sh1.f_exit) [
          | inl exit ↦ (
            sh1,
            false,
            rw (await, empty, exit) refl,
            Waits.one_wait n sh sh1 (Waits.no_wait (n + 1) sh1),
            w1,
            inr (refl, exit),
          )
          | inr stay ↦
              let soon : n < 60 = stays_below n sh stay in
              let again : await others count (suc fuel) n sh ≡ await others count fuel (n + 1) sh1 =
                rw (await, empty) (if_false sh1.f_exit (some (sh1, false)) _ stay) in
              let (sh2, b, e2, ws, w2, how) =
                await-Ends count fuel (n + 1) sh1 (omega (arith, e)) (omega (arith, soon)) w1 in
              (sh2, b, again ∙ e2, Waits.one_wait n sh sh2 ws, w2, how)
        ]
      ]

  -- Where the other threads keep the queue in order, `enqueue` returns after 61 waits at most, with the
  -- queue in order: either there was room after some waits, and the buffer went to the end of the queue
  -- as it was then, or the recorder exits and the queue is as the other threads left it.
  pub enqueue-returns :
      (x : A) (sh : Shared A)
      → IsQueue sh.queue
      → (sh' : Shared A) × (sh1 : Shared A) × (enqueue others x sh ≡ some sh')
        × IsQueue sh'.queue
        × Waits others 0 sh sh1
        × ((0 < sh1.queue.num_avail) × (queued sh'.queue ≡ queued sh1.queue ++ (some x ∷ []))
            ⊎ (sh' ≡ sh1) × (sh1.f_exit ≡ true))
  unfolding enqueue
  enqueue-returns x sh w =
      let (sh1, b, e, ws, w1, how) = await-Ends (λ q. q.num_avail) 61 0 sh refl (omega arith) w in
      elim how [
        | inl (found, room) ↦
            let (w2, e2) = enqueue_now-queued x sh1.queue w1 room in
            (
              record sh1 { queue = enqueue_now x sh1.queue },
              sh1,
              rw (enqueue, e, found) refl,
              w2,
              ws,
              inl (room, e2),
            )
        | inr (lost, exit) ↦ (sh1, sh1, rw (enqueue, e, lost) refl, w1, ws, inr (refl, exit))
      ]

  -- Where the other threads keep the queue in order, `dequeue` returns after 61 waits at most, with the
  -- queue in order: either there was a buffer after some waits, and the answer is the first in the
  -- queue as it was then and is taken out, or the recorder exits and the answer is a null pointer.
  pub dequeue-returns :
      (sh : Shared A)
      → IsQueue sh.queue
      → (sh' : Shared A) × (answer : Option A) × (sh1 : Shared A) × (dequeue others sh
          ≡ some (sh', answer))
        × IsQueue sh'.queue
        × Waits others 0 sh sh1
        × ((0 < sh1.queue.num_used) × (queued sh1.queue ≡ answer ∷ queued sh'.queue)
            ⊎ (sh' ≡ sh1) × (sh1.f_exit ≡ true) × (answer ≡ none))
  unfolding dequeue
  dequeue-returns sh w =
      let (sh1, b, e, ws, w1, how) = await-Ends (λ q. q.num_used) 61 0 sh refl (omega arith) w in
      elim how [
        | inl (found, used) ↦
            let (w2, e2) = dequeue_now-queued sh1.queue w1 used in
            (
              record sh1 { queue = (dequeue_now sh1.queue).0 },
              (dequeue_now sh1.queue).1,
              sh1,
              rw (dequeue, e, found) refl,
              w2,
              ws,
              inl (used, e2),
            )
        | inr (lost, exit) ↦
            (sh1, none, sh1, rw (dequeue, e, lost) refl, w1, ws, inr (refl, exit, refl))
      ]
