-- ===== src/Recorder/Tests.antt =====
-- Witnesses for the recorder's queue, writes, directories and devices.
use ptx.Base.{
  ℕ, ◌<◌, ◌≡◌, ◌⊎◌, refl, Bool, true, false, Option, none, some, List, [], ◌∷◌, ◌++◌, arith, ◌==◌,
  if◌then◌else◌, take, take,
}
use ptx.Base.Int.{ℤ, pos, negsuc}
use ptx.Recorder.Queue.{create_queue, enqueue_now, dequeue_now}
use ptx.Recorder.Parents.{parents}
use ptx.Recorder.{
  QueueT, Shared, enqueue, IsQueue, queued, QueueRun, QueueRun-in_order, Waits, enqueue-returns,
  mkpath, make_all, mkpath-parents, TuneData, tune, Holds, open_fds, tune-closes,
}

abbrev two_places : QueueT ℕ
two_places = record {
  next_in = 0;
  out = 0;
  size = 2;
  num_avail = 2;
  num_used = 0;
  buffer = none ∷ none ∷ [];
}

-- A structure of 136 bytes, and memory as it is asked for.
made_two : create_queue 136 (λ bytes. true) 2 ≡ some two_places
unfolding create_queue
made_two = refl

-- A queue of two, into which 7 and 8 go, and out of which one comes.
abbrev after_two : QueueT ℕ
after_two = (dequeue_now (enqueue_now 8 (enqueue_now 7 two_places))).0

two_run :
    QueueRun two_places
      (some 7 ∷ some 8 ∷ [])
      ((dequeue_now (enqueue_now 8 (enqueue_now 7 two_places))).1 ∷ [])
      after_two
unfolding enqueue_now
two_run = QueueRun.goes_in two_places after_two 7 _ _ (omega arith) (
    QueueRun.goes_in (enqueue_now 7 two_places) after_two 8 _ _ (omega arith) (
      QueueRun.comes_out (enqueue_now 8 (enqueue_now 7 two_places)) after_two _ _ (omega arith)
        (QueueRun.ended after_two)))

QueueRun-in_order_example :
    IsQueue after_two
    × ((dequeue_now (enqueue_now 8 (enqueue_now 7 two_places))).1 ∷ [] ++ queued after_two
        ≡ some 7 ∷ some 8 ∷ [])
QueueRun-in_order_example =
    QueueRun-in_order 136 (λ bytes. true) 2 two_places after_two (some 7 ∷ some 8 ∷ [])
      ((dequeue_now (enqueue_now 8 (enqueue_now 7 two_places))).1 ∷ []) (omega arith) (omega arith)
      made_two two_run

-- A full queue of one, which nobody empties.
abbrev full_one : QueueT ℕ
full_one = record {
  next_in = 0;
  out = 0;
  size = 1;
  num_avail = 0;
  num_used = 1;
  buffer = some 5 ∷ [];
}

full_one-IsQueue : IsQueue full_one
full_one-IsQueue = record {
  length_is = refl;
  some_room = omega arith;
  no_wrap = omega arith;
  out_in = omega arith;
  counted = refl;
  in_is = refl;
}

abbrev full_shared : Shared ℕ
full_shared = record { queue = full_one; f_exit = false }

abbrev idle : ℕ → Shared ℕ → Shared ℕ
idle n sh = sh

enqueue-returns_example :
    (sh' : Shared ℕ) × (sh1 : Shared ℕ) × (enqueue idle 6 full_shared ≡ some sh')
    × IsQueue sh'.queue
    × Waits idle 0 full_shared sh1
    × ((0 < sh1.queue.num_avail) × (queued sh'.queue ≡ queued sh1.queue ++ (some 6 ∷ []))
        ⊎ (sh' ≡ sh1) × (sh1.f_exit ≡ true))
enqueue-returns_example = enqueue-returns idle (λ n sh w. w) 6 full_shared full_one-IsQueue

-- A file system whose state is the directories made so far: only "/" is there.
abbrev stat_root : List ℕ → List (List ℕ) → Option Bool
stat_root path s = none

abbrev mkdir_any : List ℕ → List (List ℕ) → Bool × List (List ℕ)
mkdir_any path s = (true, path ∷ s)

-- The path "/a//b".
abbrev path_ab : List ℕ
path_ab = 0x2F ∷ 0x61 ∷ 0x2F ∷ 0x2F ∷ 0x62 ∷ []

mkpath-parents_example :
    mkpath stat_root mkdir_any path_ab []
    ≡ some (make_all stat_root mkdir_any (parents [] false path_ab ++ (path_ab ∷ [])) [])
mkpath-parents_example = mkpath-parents stat_root mkdir_any path_ab []

path_ab-parents : parents [] false path_ab ≡ (0x2F ∷ 0x61 ∷ []) ∷ []
unfolding parents
path_ab-parents = refl

-- A file, as its bytes, that takes one byte at a time.
abbrev write_one : List ℕ → List ℕ → ℤ × List ℕ
write_one bytes s = (pos 1, s ++ take 1 bytes)

abbrev bytes_of : List ℕ → List ℕ
bytes_of s = s

-- Devices that cannot be opened but for number 5, and whose frequency can be set.
abbrev open_five : ℕ → ℕ → ℤ × ℕ
open_five d s = if d == 5 then (pos 3, s) else (negsuc 1, s)

abbrev keep_state : ℕ → ℕ → ℕ
keep_state fd s = s

abbrev succeeds : ℕ → ℕ → Bool × ℕ
succeeds fd s = (true, s)

abbrev stays_on : ℕ → Bool
stays_on s = false

abbrev idle_tuner : TuneData
idle_tuner = record { tfd = negsuc 0; satellite = true; tune_persistent = true; calls = [] }

tune-closes_example :
    (answer : ℤ) × (t' : TuneData) × (s' : ℕ) × (tune open_five keep_state succeeds succeeds
        stays_on 1 none
        (4 ∷ 5 ∷ [])
        idle_tuner
        0
      ≡ some (answer, t', s'))
    × ((answer ≡ pos 0) × ((fd : ℕ) × Holds fd (open_fds idle_tuner.calls) t')
        ⊎ (answer ≡ pos 1) × (open_fds t'.calls ≡ open_fds idle_tuner.calls))
tune-closes_example =
    tune-closes open_five keep_state succeeds succeeds stays_on 1 none (4 ∷ 5 ∷ []) idle_tuner 0 0
      refl refl
