-- ===== src/Recorder/Tune.antt =====
-- `tune` and `close_tuner` of apps/cdev/recpt1/recpt1core.c, with the descriptors that they open and
-- close. What the calls answer is an argument, and the calls made are recorded.
use ptx.Base.{
  ℕ, zero, suc, ◌+◌, Bool, true, false, Option, none, some, List, [], ◌∷◌, leb, if◌then◌else◌,
}
use ptx.Base.Int.{ℤ, pos, negsuc}

abbrev pub max_retry : ℕ
max_retry = 2

-- The calls to the system that are recorded.
pub data OsCall : Type 0 where
  opened closed lnb_enable lnb_disable set_channel : ℕ → OsCall

-- `thread_data`, as far as it is used here: the descriptor, -1 where there is none, and whether the
-- channel of `table` is one of a satellite; `calls` are those made, newest first.
pub record TuneData : Type 0 where
  pub tfd : ℤ
  pub satellite : Bool
  pub tune_persistent : Bool
  pub calls : List OsCall

abbrev pub call_os : OsCall → TuneData → TuneData
call_os k t = record t { calls = k ∷ t.calls }

-- How the body of the loop over the devices ends.
pub data DeviceEnd : Type 0 where
  returns found goes_on : DeviceEnd

-- `tdata->tfd = open(...)`, where it succeeds.
abbrev pub with_file : ℕ → TuneData → TuneData
with_file fd t = record t { tfd = pos fd; calls = opened fd ∷ t.calls }

-- What the calls do to the system, and what they answer: `open_dev` gives a descriptor or an error,
-- `set_freq` and `disable` whether the call succeeded, `exiting` the value of `f_exit`.
module _ {σ : Type 0} (open_dev : ℕ → σ → ℤ × σ) (enable : ℕ → σ → σ)
    (disable set_freq : ℕ → σ → Bool × σ) (exiting : σ → Bool) where
  -- `close_tuner` for a descriptor.
  unfoldable pub close_fd : ℕ → TuneData → σ → ℤ × TuneData × σ
  close_fd fd t s =
      let (fine, s1) = if t.satellite then disable fd s else (true, s) in
      let t1 = if t.satellite then call_os (lnb_disable fd) t else t in
      (
        if fine then pos 0 else pos 1,
        record t1 { tfd = negsuc 0; calls = closed fd ∷ t1.calls },
        s1,
      )

  -- A descriptor below 0 stands for no file, and closing it fails without effect.
  unfoldable pub close_tuner : TuneData → σ → ℤ × TuneData × σ
  close_tuner t s = elim t.tfd [
    | pos fd ↦ close_fd fd t s
    | negsuc _ ↦ (pos 0, record t { tfd = negsuc 0 }, s)
  ]

  unfoldable pub power_lnb : ℕ → TuneData → σ → TuneData × σ
  power_lnb fd t s = if t.satellite then (call_os (lnb_enable fd) t, enable fd s) else (t, s)

  -- The loop for the device that was asked for, whether it was tuned.
  unfoldable pub set_loop : ℕ → ℕ → TuneData → σ → Option (Bool × TuneData × σ)
  set_loop zero fd t s = none
  set_loop (suc fuel) fd t s =
      let (fine, s1) = set_freq fd s in
      let t1 = call_os (set_channel fd) t in
      let again = set_loop fuel fd t1 s1 in
      let (_, t2, s2) = close_tuner t1 s1 in
      if fine
      then some (true, t1, s1)
      else if t1.tune_persistent
      then if exiting s1 then some (false, t2, s2) else again
      else some (false, call_os (closed fd) t1, s1)

  -- Where a device is asked for: whether it was tuned.
  unfoldable pub tune_device : ℕ → ℕ → TuneData → σ → Option (Bool × TuneData × σ)
  tune_device fuel device t s =
      let (tfd, s1) = open_dev device s in
      elim tfd [
        | negsuc e ↦ some (false, record t { tfd = negsuc e }, s1)
        | pos fd ↦ let (t2, s2) = power_lnb fd (with_file fd t) s1 in set_loop fuel fd t2 s2
      ]

  -- `while(ioctl(...) < 0 && count < MAX_RETRY)`, with `left` counts left: whether the recorder exits,
  -- and `count` at the end.
  unfoldable pub retry_loop : ℕ → ℕ → ℕ → TuneData → σ → Bool × ℕ × TuneData × σ
  retry_loop zero count fd t s =
      let (_, s1) = set_freq fd s in (false, count, call_os (set_channel fd) t, s1)
  retry_loop (suc left) count fd t s =
      let (fine, s1) = set_freq fd s in
      let t1 = call_os (set_channel fd) t in
      let (_, t2, s2) = close_tuner t1 s1 in
      let again = retry_loop left (count + 1) fd t1 s1 in
      if fine then (false, count, t1, s1) else if exiting s1 then (true, count, t2, s2) else again

  -- An open device, where the tuner is persistent.
  unfoldable pub try_again : ℕ → TuneData → σ → DeviceEnd × TuneData × σ
  try_again fd t s =
      let (exit, count, t1, s1) = retry_loop max_retry 0 fd t s in
      let (_, t2, s2) = close_tuner t1 s1 in
      if exit
      then (DeviceEnd.returns, t1, s1)
      else if leb max_retry count
      then (DeviceEnd.goes_on, t2, s2)
      else (DeviceEnd.found, t1, s1)

  -- An open device, tuned or given up.
  unfoldable pub try_device : ℕ → TuneData → σ → DeviceEnd × TuneData × σ
  try_device fd t s =
      let (fine, s1) = set_freq fd s in
      let t1 = call_os (set_channel fd) t in
      if t.tune_persistent
      then try_again fd t s
      else if fine
      then (DeviceEnd.found, t1, s1)
      else (DeviceEnd.goes_on, record t1 { tfd = negsuc 0; calls = closed fd ∷ t1.calls }, s1)

  -- The loop over the devices, and the test behind it: whether one was tuned.
  unfoldable pub tune_devices : List ℕ → TuneData → σ → Bool × TuneData × σ
  tune_devices [] t s = (elim t.tfd [ pos _ ↦ true | negsuc _ ↦ false ], t, s)
  tune_devices (device ∷ devices) t s =
      let (tfd, s1) = open_dev device s in
      elim tfd [
        | negsuc e ↦ tune_devices devices (record t { tfd = negsuc e }) s1
        | pos fd ↦
            let (t2, s2) = power_lnb fd (with_file fd t) s1 in
            let (how, t3, s3) = try_device fd t2 s2 in
            let later = tune_devices devices t3 s3 in
            elim how [
              | DeviceEnd.returns ↦ (false, t3, s3)
              | DeviceEnd.found ↦ (true, t3, s3)
              | DeviceEnd.goes_on ↦ later
            ]
      ]

  -- `tune`, from the channel's entry in the table on: `device` is the one asked for, `devices` are those
  -- to be tried where none is. The answer 0 stands for success.
  unfoldable pub tune : ℕ → Option ℕ → List ℕ → TuneData → σ → Option (ℤ × TuneData × σ)
  tune fuel none devices t s =
      let (fine, t1, s1) = tune_devices devices t s in some (if fine then pos 0 else pos 1, t1, s1)
  tune fuel (some device) devices t s = elim (tune_device fuel device t s) [
    | none ↦ none
    | some (fine, t1, s1) ↦ some (if fine then pos 0 else pos 1, t1, s1)
  ]
