-- ===== src/Recorder/Queue.antt =====
-- The queue of apps/cdev/recpt1/recpt1.c and recpt1.h, by which the main thread hands buffers to the
-- reader thread. The functions hold the queue's lock but where they wait.
use ptx.Base.{
  ℕ, zero, suc, ◌+◌, ◌-◌, ◌*◌, ◌/◌, ◌%◌, ◌^◌, Bool, true, false, ◌||◌, Option, none, some, List,
  ◌==◌, ltb, if◌then◌else◌, get_or, set, replicate,
}

-- `struct _QUEUE_T`: `buffer` holds pointers, `in` is `next_in`.
pub record QueueT (A : Type 0) : Type 0 where
  pub next_in : ℕ
  pub out : ℕ
  pub size : ℕ
  pub num_avail : ℕ
  pub num_used : ℕ
  pub buffer : List (Option A)

-- What the threads share: the queue and `f_exit`.
pub record Shared (A : Type 0) : Type 0 where
  pub queue : QueueT A
  pub f_exit : Bool

-- An `unsigned int`.
abbrev pub uint : ℕ → ℕ
uint n = n % 2 ^ 32

module _ {A : Type 0} where
  -- `sizeof(QUEUE_T)` and `calloc` are arguments: `calloc` says whether it gives so many bytes. `memsize`
  -- is an `int`, so above 2 ^ 31 the bytes asked for are those of the negative number as a `size_t`. The
  -- memory holds as many pointers as there is room for behind the structure.
  unfoldable pub create_queue : ℕ → (ℕ → Bool) → ℕ → Option (QueueT A)
  create_queue header calloc size =
      let memsize = uint (header + size * 8) in
      let bytes = if ltb memsize (2 ^ 31) then memsize else memsize + (2 ^ 64 - 2 ^ 32) in
      if calloc bytes
      then some (record {
        next_in = 0;
        out = 0;
        size = uint size;
        num_avail = uint size;
        num_used = 0;
        buffer = replicate ((bytes - header) / 8) none;
      })
      else none

  -- `enqueue` once there is room.
  unfoldable pub enqueue_now : A → QueueT A → QueueT A
  enqueue_now x q = record q {
    buffer = set q.buffer q.next_in (some x);
    next_in = uint (q.next_in + 1) % q.size;
    num_avail = q.num_avail - 1;
    num_used = uint (q.num_used + 1);
  }

  -- `dequeue` once there is a buffer.
  unfoldable pub dequeue_now : QueueT A → QueueT A × Option A
  dequeue_now q = (
    record q {
      out = uint (q.out + 1) % q.size;
      num_avail = uint (q.num_avail + 1);
      num_used = q.num_used - 1;
    },
    get_or q.buffer q.out none,
  )

  -- A wait on a condition for a second: `others n` is what the other threads do during the wait `n`.
  module _ (others : ℕ → Shared A → Shared A) where
    -- The shared state after a wait, with `f_exit` set after too many.
    unfoldable pub waited : ℕ → Shared A → Shared A
    waited retry_count sh =
        let sh1 = others retry_count sh in
        record sh1 { f_exit = ltb 60 (retry_count + 1) || sh1.f_exit }

    -- The loops of `enqueue` and `dequeue`, `while(p_queue->num_avail == 0)` and
    -- `while(p_queue->num_used == 0)`: whether the count is positive at the end, or the recorder exits.
    unfoldable pub await : (QueueT A → ℕ) → ℕ → ℕ → Shared A → Option (Shared A × Bool)
    await count zero retry_count sh = none
    await count (suc fuel) retry_count sh =
        let sh1 = waited retry_count sh in
        let rest = await count fuel (retry_count + 1) sh1 in
        if count sh.queue == 0
        then if sh1.f_exit then some (sh1, false) else rest
        else some (sh, true)

    unfoldable pub enqueue : A → Shared A → Option (Shared A)
    enqueue x sh0 = elim (await (λ q. q.num_avail) 61 0 sh0) [
      | none ↦ none
      | some (sh, room) ↦
          if room then some (record sh { queue = enqueue_now x sh.queue }) else some sh
    ]

    -- The answer is `NULL` where the recorder exits.
    unfoldable pub dequeue : Shared A → Option (Shared A × Option A)
    dequeue sh0 = elim (await (λ q. q.num_used) 61 0 sh0) [
      | none ↦ none
      | some (sh, found) ↦
          let (q, x) = dequeue_now sh.queue in
          if found then some (record sh { queue = q }, x) else some (sh, none)
    ]
