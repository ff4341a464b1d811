-- ===== src/Recorder/Devices.antt =====
-- What the loop over the devices in `tune` of apps/cdev/recpt1/recpt1core.c leaves open, and `tune` as a
-- whole.
use ptx.Base.{
  ℕ, zero, suc, ◌+◌, ◌≡◌, ◌⊎◌, refl, ap, ◌∙◌, Bool, true, false, Option, none, some, List, [], ◌∷◌,
  leb, if-both, if◌then◌else◌, Bool-cases, inl, inr,
}
use mathlib.Core.Path.{subst}
use ptx.Base.Int.{ℤ, pos, negsuc}
use ptx.Recorder.Tune.{
  TuneData, closed, set_channel, close_tuner, power_lnb, retry_loop, DeviceEnd, try_again,
  try_device, tune_devices, tune, call_os, with_file, max_retry,
}
use ptx.Recorder.Descriptors.{
  without, open_fds, without-first, Holds, Released, ℤ-cases, Left, device_stops,
  close_tuner-Released, power_lnb-Holds, tune_device-Left,
}

module _ {σ : Type 0} (open_dev : ℕ → σ → ℤ × σ) (enable : ℕ → σ → σ)
    (disable set_freq : ℕ → σ → Bool × σ) (exiting : σ → Bool) where
  -- What the retries leave: where the recorder exits, the file is closed.
  retry_loop-Holds :
      (left count fd : ℕ) (held : List ℕ) (t : TuneData) (s : σ)
      → Holds fd held t
      → let (exit, _, t', _) =
          retry_loop open_dev enable disable set_freq exiting left count fd t s in
        ((exit ≡ true) × (open_fds t'.calls ≡ held)) ⊎ ((exit ≡ false) × Holds fd held t')
  unfolding retry_loop open_fds
  retry_loop-Holds zero count fd held t s h = inr (refl, h)
  retry_loop-Holds (suc left) count fd held t s h =
      let r = set_freq fd s in
      let t1 = call_os (set_channel fd) t in
      elim (Bool-cases r.0) [
        | inl fine ↦ rw (retry_loop, fine) (inr (refl, h))
        | inr fails ↦ elim (Bool-cases (exiting r.1)) [
          | inl exit ↦
              rw (retry_loop, fails, exit)
                (inl (
                  refl,
                  (close_tuner-Released open_dev enable disable set_freq exiting fd held t1 r.1
                      h).1,
                ))
          | inr stays ↦
              rw (retry_loop, fails, stays) (retry_loop-Holds left (count + 1) fd held t1 r.1 h)
        ]
      ]

  -- What the body of the loop over the devices leaves.
  abbrev LeftBy : List ℕ → DeviceEnd → TuneData → Type 0
  LeftBy held how t =
      ((how ≡ DeviceEnd.returns) × (open_fds t.calls ≡ held))
      ⊎ ((how ≡ DeviceEnd.found) × ((fd : ℕ) × Holds fd held t))
      ⊎ ((how ≡ DeviceEnd.goes_on) × Released held t)

  abbrev Result : List ℕ → DeviceEnd × TuneData × σ → Type 0
  Result held (how, t, _) = LeftBy held how t

  try_again-LeftBy :
      (fd : ℕ) (held : List ℕ) (t : TuneData) (s : σ)
      → Holds fd held t
      → Result held (try_again open_dev enable disable set_freq exiting fd t s)
  unfolding try_again open_fds
  try_again-LeftBy fd held t s h =
      let r = retry_loop open_dev enable disable set_freq exiting max_retry 0 fd t s in
      let closing = close_tuner open_dev enable disable set_freq exiting r.2 r.3 in
      elim (retry_loop-Holds max_retry 0 fd held t s h) [
        | inl (exit, closed_again) ↦ rw (try_again, exit) (inl (refl, closed_again))
        | inr (stays, still) ↦
            rw (try_again, stays)
              (if-both (Result held) (leb max_retry r.1) (DeviceEnd.goes_on, closing.1, closing.2)
                (DeviceEnd.found, r.2, r.3)
                (λ _. inr (
                  inr (
                    refl,
                    close_tuner-Released open_dev enable disable set_freq exiting fd held r.2 r.3
                        still,
                  )))
                (λ _. inr (inl (refl, (fd, still)))))
      ]

  try_device-LeftBy :
      (fd : ℕ) (held : List ℕ) (t : TuneData) (s : σ)
      → Holds fd held t
      → Result held (try_device open_dev enable disable set_freq exiting fd t s)
  unfolding try_device open_fds
  try_device-LeftBy fd held t s h =
      let r = set_freq fd s in
      let t1 = call_os (set_channel fd) t in
      let t2 = record t1 { tfd = negsuc 0; calls = closed fd ∷ t1.calls } in
      if-both (Result held) t.tune_persistent
        (try_again open_dev enable disable set_freq exiting fd t s)
        (if r.0 then (DeviceEnd.found, t1, r.1) else (DeviceEnd.goes_on, t2, r.1))
        (λ _. try_again-LeftBy fd held t s h)
        (λ _.
          if-both (Result held) r.0 (DeviceEnd.found, t1, r.1) (DeviceEnd.goes_on, t2, r.1)
            (λ _. inr (inl (refl, (fd, h))))
            (λ _. inr (inr (refl, ((0, refl), ap (without fd) h.1 ∙ without-first fd held)))))

  tune_devices-Left :
      (devices : List ℕ) (t : TuneData) (s : σ) (e : ℕ)
      → t.tfd ≡ negsuc e
      → let (fine, t', _) = tune_devices open_dev enable disable set_freq exiting devices t s in
        Left (open_fds t.calls) fine t'
  unfolding tune_devices open_fds
  tune_devices-Left [] t s e none_yet = rw (tune_devices, none_yet) (inr (refl, refl))
  tune_devices-Left (device ∷ devices) t s e none_yet = elim (ℤ-cases (open_dev device s).0) [
    | inr (k, fails) ↦
        rw (tune_devices, fails)
          (tune_devices-Left devices (record t { tfd = negsuc k }) (open_dev device s).1 k refl)
    | inl (fd, opens) ↦
        let s1 = (open_dev device s).1 in
        let held = open_fds t.calls in
        let r = power_lnb open_dev enable disable set_freq exiting fd (with_file fd t) s1 in
        let h =
          power_lnb-Holds open_dev enable disable set_freq exiting fd held (with_file fd t) s1
            (refl, refl) in
        let q = try_device open_dev enable disable set_freq exiting fd r.0 r.1 in
        let later = tune_devices open_dev enable disable set_freq exiting devices q.1 q.2 in
        elim (try_device-LeftBy fd held r.0 r.1 h) [
          | inl (how, same) ↦ rw (tune_devices, opens, how) (inr (refl, same))
          | inr (inl (how, holds)) ↦ rw (tune_devices, opens, how) (inl (refl, holds))
          | inr (inr (how, ((k, gone), same))) ↦
              rw (tune_devices, opens, how)
                (subst (λ l. Left l later.0 later.1) same
                  (tune_devices-Left devices q.1 q.2 k gone))
        ]
  ]

  -- The same in terms of the answer.
  answered :
      (held : List ℕ) (fine : Bool) (t : TuneData)
      → Left held fine t
      → let answer = if fine then pos 0 else pos 1 in
        (answer ≡ pos 0) × ((fd : ℕ) × Holds fd held t)
        ⊎ (answer ≡ pos 1) × (open_fds t.calls ≡ held)
  answered held fine t (inl (e, h)) = inl (ap (λ b. if b then pos 0 else pos 1) e, h)
  answered held fine t (inr (e, h)) = inr (ap (λ b. if b then pos 0 else pos 1) e, h)

  -- Where the tuner has no file at first and, if a device is asked for, the tries of it end within `n`
  -- rounds: `tune` returns. Where it answers 0, the tuner has one more file open, its own; where it
  -- answers 1, just the files are open that were.
  pub tune-closes :
      (n : ℕ) (device : Option ℕ) (devices : List ℕ) (t : TuneData) (s : σ) (e : ℕ)
      → t.tfd ≡ negsuc e
      → elim device [
        | none ↦ true
        | some d ↦ device_stops open_dev enable disable set_freq exiting n d t s
      ]
        ≡ true
      → (answer : ℤ) × (t' : TuneData) × (s' : σ) × (tune open_dev enable disable set_freq exiting n
            device devices t s
          ≡ some (answer, t', s'))
        × ((answer ≡ pos 0) × ((fd : ℕ) × Holds fd (open_fds t.calls) t')
            ⊎ (answer ≡ pos 1) × (open_fds t'.calls ≡ open_fds t.calls))
  unfolding tune
  tune-closes n none devices t s e none_yet h =
      let r = tune_devices open_dev enable disable set_freq exiting devices t s in
      (
        if r.0 then pos 0 else pos 1,
        r.1,
        r.2,
        refl,
        answered (open_fds t.calls) r.0 r.1 (tune_devices-Left devices t s e none_yet),
      )
  tune-closes n (some d) devices t s e none_yet h =
      let (fine, t', s', tried, left) =
        tune_device-Left open_dev enable disable set_freq exiting n d t s h in
      (
        if fine then pos 0 else pos 1,
        t',
        s',
        rw (tune, tried) refl,
        answered (open_fds t.calls) fine t' left,
      )
