-- ===== src/Recorder/Fifo.antt =====
-- That the queue of apps/cdev/recpt1/recpt1.c hands buffers over in the order in which they came.
use ptx.Base.{
  ℕ, suc, ◌+◌, ◌-◌, ◌%◌, ◌^◌, ◌<◌, ◌≤◌, ◌≡◌, sym, ap, ap₂, ◌∙◌, Option, none, some, List, [], ◌∷◌,
  ◌++◌, arith, take, drop, length, get_or, set, length-replicate, length-set, length-drop,
  length-ring, ring, ring-head, ring-wrap, ring-ring, take-ring, ring-spliced, set-spliced,
  drop-append_le, drop-drop, take-append_le, ring_is, append-nil, append_assoc, Bool, true, ltb,
  lt→ltb, if◌then◌else◌, Bool-cases, inl, inr, refl, replicate, ◌*◌, ◌/◌,
}
use mathlib.Core.Path.{subst}
use mathlib.Core.Option.{none-ne-some, some-injective}
use native.Mathlib.Nat.{mod-add-mod, mod-eq_of_lt, mod-lt}
use ptx.Recorder.Queue.{QueueT, uint, create_queue, enqueue_now, dequeue_now}

module _ {A : Type 0} where
  -- The counters agree with each other and with the indices, which lie in the buffer.
  pub record IsQueue (q : QueueT A) : Type 0 where
    pub length_is : length q.buffer ≡ q.size
    pub some_room : 0 < q.size
    pub no_wrap : q.size < 2 ^ 31
    pub out_in : q.out < q.size
    pub counted : q.num_avail + q.num_used ≡ q.size
    pub in_is : q.next_in ≡ (q.out + q.num_used) % q.size

  -- What is in the queue, first the one to be handed over first.
  unfoldable pub queued : QueueT A → List (Option A)
  queued q = take q.num_used (ring q.out q.buffer)

module _ {A : Type 0} where
  -- The structure of a new queue of `n` buffers.
  abbrev new_queue : ℕ → QueueT A
  new_queue n = record {
    next_in = 0;
    out = 0;
    size = n;
    num_avail = n;
    num_used = 0;
    buffer = replicate n none;
  }

  create_queue-new_queue :
      (header : ℕ) (calloc : ℕ → Bool) (n : ℕ) (q : QueueT A)
      → header + n * 8 < 2 ^ 31
      → create_queue header calloc n ≡ some q
      → new_queue n ≡ q
  unfolding create_queue
  create_queue-new_queue header calloc n q small made =
      let fine : uint n ≡ n = omega (arith, small) in
      let bytes : uint (header + n * 8) ≡ header + n * 8 = omega (arith, small) in
      let positive : ltb (header + n * 8) (2 ^ 31) ≡ true =
        lt→ltb (header + n * 8) (2 ^ 31) small in
      let places : (header + n * 8 - header) / 8 ≡ n = omega arith in
      let unfolded : create_queue {A = A} header calloc n
          ≡ (if calloc (header + n * 8) then some (new_queue n) else none) =
        rw (create_queue, bytes, positive, places, fine) refl in
      elim (Bool-cases (calloc (header + n * 8))) [
        | inl given ↦
            let got : create_queue header calloc n ≡ some (new_queue n) =
              unfolded ∙ rw given refl in
            some-injective (new_queue n) q (sym got ∙ made)
        | inr refused ↦
            let got : create_queue {A = A} header calloc n ≡ none = unfolded ∙ rw refused refl in
            absurd (none-ne-some q (sym got ∙ made))
      ]

  new_queue-IsQueue : (n : ℕ) → 0 < n → n < 2 ^ 31 → IsQueue (new_queue n)
  new_queue-IsQueue n pos small = record {
    length_is = length-replicate n none;
    some_room = pos;
    no_wrap = small;
    out_in = pos;
    counted = omega arith;
    in_is = sym (mod-eq_of_lt pos);
  }

  -- With room in the queue, a buffer goes to its end.
  pub enqueue_now-queued :
      (x : A) (q : QueueT A)
      → IsQueue q
      → 0 < q.num_avail
      → IsQueue (enqueue_now x q) × (queued (enqueue_now x q) ≡ queued q ++ (some x ∷ []))
  unfolding enqueue_now queued
  enqueue_now-queued x q w room =
      let n = q.size in
      let at = q.next_in in
      let len = w.length_is in
      let b = set q.buffer at (some x) in
      let used_in : q.num_used < n = omega (arith, w.counted, room) in
      let at_in : at < n = omega (arith, w.in_is, mod-lt (q.out + q.num_used) w.some_room) in
      let fine : uint (at + 1) ≡ at + 1 = omega (arith, w.no_wrap, at_in) in
      let more : uint (q.num_used + 1) ≡ q.num_used + 1 = omega (arith, w.no_wrap, used_in) in
      let len' : length b ≡ n = length-set q.buffer at (some x) ∙ len in
      let sum : q.out + q.num_used + 1 ≡ q.out + (q.num_used + 1) = omega arith in
      let next : (at + 1) % n ≡ (q.out + (q.num_used + 1)) % n =
        ap (λ k. (k + 1) % n) w.in_is
        ∙ mod-add-mod (q.out + q.num_used) n 1
        ∙ ap (λ k. k % n) sum in
      let at_len : at < length q.buffer = omega (arith, at_in, len) in
      (
        record {
          length_is = len';
          some_room = w.some_room;
          no_wrap = w.no_wrap;
          out_in = w.out_in;
          counted = omega (arith, w.counted, room, more);
          in_is = ap (λ k. k % n) fine ∙ next ∙ ap (λ k. (q.out + k) % n) (sym more);
        },
        ap (λ k. take k (ring q.out b)) more
            ∙ take-ring q.out (q.num_used + 1) ((at + 1) % n) b (omega (arith, w.out_in, len'))
                (omega (arith, used_in, len'))
                (next ∙ ap (λ k. (q.out + (q.num_used + 1)) % k) (sym len'))
            ∙ ap₂ (λ k l. drop (k - (q.num_used + 1)) l) len'
                (ring-wrap b (at + 1) ((at + 1) % n) (omega (arith, w.some_room, len'))
                    (omega (arith, at_in, len')) (ap (λ k. (at + 1) % k) (sym len'))
                  ∙ ap (ring (at + 1)) (set-spliced q.buffer at (some x) at_len)
                  ∙ ring-spliced q.buffer at (some x ∷ []) (omega (arith, at_len)))
            ∙ drop-append_le (n - (q.num_used + 1)) (drop 1 (ring at q.buffer)) (some x ∷ []) (
                omega (
                  arith,
                  length-drop 1 (ring at q.buffer),
                  length-ring at q.buffer (omega (arith, at_len)),
                  len,
                  used_in,
                ))
            ∙ ap (λ l. l ++ (some x ∷ []))
                (drop-drop 1 (n - (q.num_used + 1)) (n - q.num_used) (ring at q.buffer)
                    (omega (arith, used_in))
                  ∙ ap (λ k. drop (k - q.num_used) (ring at q.buffer)) (sym len)
                  ∙ sym (
                      take-ring q.out q.num_used at q.buffer (omega (arith, w.out_in, len))
                        (omega (arith, used_in, len))
                        (w.in_is ∙ ap (λ k. (q.out + q.num_used) % k) (sym len)))),
      )

  -- With a buffer in the queue, the first one goes out.
  pub dequeue_now-queued :
      (q : QueueT A)
      → IsQueue q
      → 0 < q.num_used
      → IsQueue (dequeue_now q).0 × (queued q ≡ (dequeue_now q).1 ∷ queued (dequeue_now q).0)
  unfolding dequeue_now queued
  dequeue_now-queued q w some_used =
      let n = q.size in
      let len = w.length_is in
      let b = q.buffer in
      let r = ring q.out b in
      let out_len : q.out < length b = omega (arith, w.out_in, len) in
      let fine : uint (q.out + 1) ≡ q.out + 1 = omega (arith, w.no_wrap, w.out_in) in
      let more : uint (q.num_avail + 1) ≡ q.num_avail + 1 =
        omega (arith, w.no_wrap, w.counted, some_used) in
      let one_more : q.num_used ≡ suc (q.num_used - 1) = omega (arith, some_used) in
      let sum : q.out + q.num_used ≡ q.out + 1 + (q.num_used - 1) = omega (arith, some_used) in
      let next : uint (q.out + 1) % n ≡ (q.out + 1) % n = ap (λ k. k % n) fine in
      let turned : ring 1 r ≡ ring (uint (q.out + 1) % n) b =
        ring-ring q.out 1 (uint (q.out + 1) % n) b out_len (omega (arith, out_len))
          (next ∙ ap (λ k. (q.out + 1) % k) (sym len)) in
      let room : q.num_used - 1 ≤ length (drop 1 r) =
        omega
          (arith, length-drop 1 r, length-ring q.out b (omega (arith, out_len)), len, w.counted) in
      (
        record {
          length_is = len;
          some_room = w.some_room;
          no_wrap = w.no_wrap;
          out_in = mod-lt (uint (q.out + 1)) w.some_room;
          counted = omega (arith, w.counted, more, some_used);
          in_is =
              w.in_is
              ∙ ap (λ k. k % n) sum
              ∙ sym (mod-add-mod (q.out + 1) n (q.num_used - 1))
              ∙ ap (λ k. (k + (q.num_used - 1)) % n) (sym next);
        },
        ap₂ (λ k l. take k l) one_more (ring-head q.out b none out_len)
            ∙ ap (λ l. get_or b q.out none ∷ l)
                (sym (take-append_le (q.num_used - 1) (drop 1 r) (take 1 r) room)
                  ∙ ap (take (q.num_used - 1)) (sym (ring_is 1 r) ∙ turned)),
      )

module _ {A : Type 0} where
  -- A run of the queue: what went in, and what came out. A buffer goes in where there is room, and comes
  -- out where there is one.
  pub data QueueRun : QueueT A → List (Option A) → List (Option A) → QueueT A → Type 0 where
    ended : (p : QueueT A) → QueueRun p [] [] p
    goes_in :
        (p r : QueueT A) (x : A) (ins outs : List (Option A))
        → 0 < p.num_avail
        → QueueRun (enqueue_now x p) ins outs r
        → QueueRun p (some x ∷ ins) outs r
    comes_out :
        (p r : QueueT A) (ins outs : List (Option A))
        → 0 < p.num_used
        → QueueRun (dequeue_now p).0 ins outs r
        → QueueRun p ins ((dequeue_now p).1 ∷ outs) r

  in_order :
      (p r : QueueT A) (ins outs : List (Option A))
      → IsQueue p
      → QueueRun p ins outs r
      → IsQueue r × (outs ++ queued r ≡ queued p ++ ins)
  in_order p r ins outs w (ended _) = (w, sym (append-nil (queued p)))
  in_order p r ins outs w (goes_in _ _ x later _ room rest) =
      let (w1, e1) = enqueue_now-queued x p w room in
      let (w2, e2) = in_order (enqueue_now x p) r later outs w1 rest in
      (w2, e2 ∙ ap (λ l. l ++ later) e1 ∙ append_assoc (queued p) (some x ∷ []) later)
  in_order p r ins outs w (comes_out _ _ _ later found rest) =
      let (w1, e1) = dequeue_now-queued p w found in
      let (w2, e2) = in_order (dequeue_now p).0 r ins later w1 rest in
      (w2, ap (λ l. (dequeue_now p).1 ∷ l) e2 ∙ ap (λ l. l ++ ins) (sym e1))

  -- From a new queue on whose structure and pointers take less than 2 ^ 31 bytes, whatever the order in
  -- which buffers go in and come out: those that came out, followed by those still in the queue, are
  -- those that went in, in their order, and the counters agree.
  pub QueueRun-in_order :
      (header : ℕ) (calloc : ℕ → Bool) (size : ℕ) (q r : QueueT A) (ins outs : List (Option A))
      → 0 < size
      → header + size * 8 < 2 ^ 31
      → create_queue header calloc size ≡ some q
      → QueueRun q ins outs r
      → IsQueue r × (outs ++ queued r ≡ ins)
  unfolding queued
  QueueRun-in_order header calloc size q r ins outs pos small made run =
      let new = create_queue-new_queue header calloc size q small made in
      in_order (new_queue size) r ins outs (new_queue-IsQueue size pos (omega (arith, small)))
        (subst (λ p. QueueRun p ins outs r) (sym new) run)
