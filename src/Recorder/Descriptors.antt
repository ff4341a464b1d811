-- ===== src/Recorder/Descriptors.antt =====
-- Which descriptors `tune` of apps/cdev/recpt1/recpt1core.c leaves open.
use ptx.Base.{
  ℕ, zero, suc, ◌≡◌, ◌⊎◌, refl, sym, ap, ◌∙◌, Bool, true, false, not, ◌||◌, some, List, [], ◌∷◌,
  ◌==◌, if◌then◌else◌, arith, Bool-cases, inl, inr,
}
use ptx.Base.Int.{ℤ, pos, negsuc}
use ptx.Recorder.Tune.{
  OsCall, TuneData, opened, closed, lnb_enable, lnb_disable, set_channel, close_fd, close_tuner,
  power_lnb, set_loop, tune_device, call_os, with_file,
}

-- The descriptors in `held` but for one occurrence of `fd`.
unfoldable pub without : ℕ → List ℕ → List ℕ
without fd [] = []
without fd (x ∷ xs) = let rest = x ∷ without fd xs in if x == fd then xs else rest

-- The descriptors that the calls, newest first, have left open.
unfoldable pub open_fds : List OsCall → List ℕ
open_fds [] = []
open_fds (opened fd ∷ calls) = fd ∷ open_fds calls
open_fds (closed fd ∷ calls) = without fd (open_fds calls)
open_fds (lnb_enable _ ∷ calls) = open_fds calls
open_fds (lnb_disable _ ∷ calls) = open_fds calls
open_fds (set_channel _ ∷ calls) = open_fds calls

pub without-first : (fd : ℕ) (held : List ℕ) → without fd (fd ∷ held) ≡ held
unfolding without
without-first fd held = let same : (fd == fd) ≡ true = ground arith in rw same refl

-- The tuner has the file `fd`, which is open besides those of `held`.
abbrev pub Holds : ℕ → List ℕ → TuneData → Type 0
Holds fd held t = (t.tfd ≡ pos fd) × (open_fds t.calls ≡ fd ∷ held)

-- The tuner has no file, and those of `held` are open.
abbrev pub Released : List ℕ → TuneData → Type 0
Released held t = ((e : ℕ) × (t.tfd ≡ negsuc e)) × (open_fds t.calls ≡ held)

-- What a try leaves: the tuner has a file, open besides those of `held`, or there are just those.
abbrev pub Left : List ℕ → Bool → TuneData → Type 0
Left held fine t =
    ((fine ≡ true) × ((fd : ℕ) × Holds fd held t)) ⊎ ((fine ≡ false) × (open_fds t.calls ≡ held))

pub ℤ-cases : (z : ℤ) → ((n : ℕ) × (z ≡ pos n)) ⊎ ((n : ℕ) × (z ≡ negsuc n))
ℤ-cases (pos n) = inl (n, refl)
ℤ-cases (negsuc n) = inr (n, refl)

module _ {σ : Type 0} (open_dev : ℕ → σ → ℤ × σ) (enable : ℕ → σ → σ)
    (disable set_freq : ℕ → σ → Bool × σ) (exiting : σ → Bool) where
  pub close_tuner-Released :
      (fd : ℕ) (held : List ℕ) (t : TuneData) (s : σ)
      → Holds fd held t
      → Released held (close_tuner open_dev enable disable set_freq exiting t s).1
  unfolding close_tuner close_fd open_fds
  close_tuner-Released fd held t s (file, is_open) =
      let gone = ap (without fd) is_open ∙ without-first fd held in
      elim (Bool-cases t.satellite) [
        | inl sat ↦ rw (close_tuner, file, close_fd, sat) ((0, refl), gone)
        | inr ground_wave ↦ rw (close_tuner, file, close_fd, ground_wave) ((0, refl), gone)
      ]

  pub power_lnb-Holds :
      (fd : ℕ) (held : List ℕ) (t : TuneData) (s : σ)
      → Holds fd held t
      → Holds fd held (power_lnb open_dev enable disable set_freq exiting fd t s).0
  unfolding power_lnb open_fds
  power_lnb-Holds fd held t s h = elim (Bool-cases t.satellite) [
    | inl sat ↦ rw (power_lnb, sat) h
    | inr ground_wave ↦ rw (power_lnb, ground_wave) h
  ]

  -- Whether the loop for one device ends within `n` rounds.
  unfoldable pub stops : ℕ → Bool → ℕ → σ → Bool
  stops zero persistent fd s = false
  stops (suc n) persistent fd s =
      let (fine, s1) = set_freq fd s in
      fine || not persistent || exiting s1 || stops n persistent fd s1

  set_loop-again :
      (n fd : ℕ) (t : TuneData) (s : σ)
      → (set_freq fd s).0 ≡ false
      → t.tune_persistent ≡ true
      → exiting (set_freq fd s).1 ≡ false
      → set_loop open_dev enable disable set_freq exiting (suc n) fd t s
        ≡ set_loop open_dev enable disable set_freq exiting n fd
            (call_os (set_channel fd) t)
            (set_freq fd s).1
  unfolding set_loop
  set_loop-again n fd t s fails keeps stays = rw (set_loop, fails, keeps, stays) refl

  set_loop-Left :
      (n fd : ℕ) (held : List ℕ) (t : TuneData) (s : σ)
      → Holds fd held t
      → stops n t.tune_persistent fd s ≡ true
      → (fine : Bool) × (t' : TuneData) × (s' : σ) × (set_loop open_dev enable disable set_freq
            exiting n fd t s
          ≡ some (fine, t', s'))
        × Left held fine t'
  unfolding set_loop stops open_fds
  set_loop-Left zero fd held t s h e = absurd (cc e)
  set_loop-Left (suc n) fd held t s (file, is_open) e =
      let r = set_freq fd s in
      let t1 = call_os (set_channel fd) t in
      let closing = close_tuner open_dev enable disable set_freq exiting t1 r.1 in
      elim (Bool-cases r.0) [
        | inl fine ↦ (true, t1, r.1, rw (set_loop, fine) refl, inl (refl, (fd, (file, is_open))))
        | inr fails ↦ elim (Bool-cases t.tune_persistent) [
          | inr once ↦ (
            false,
            call_os (closed fd) t1,
            r.1,
            rw (set_loop, fails, once) refl,
            inr (refl, ap (without fd) is_open ∙ without-first fd held),
          )
          | inl keeps ↦ elim (Bool-cases (exiting r.1)) [
            | inl exit ↦ (
              false,
              closing.1,
              closing.2,
              rw (set_loop, fails, keeps, exit) refl,
              inr (refl, (close_tuner-Released fd held t1 r.1 (file, is_open)).1),
            )
            | inr stays ↦
                let less : stops (suc n) t.tune_persistent fd s ≡ stops n t.tune_persistent fd r.1 =
                  rw (stops, fails, keeps, stays) refl in
                let (fine, t', s', e', left) =
                  set_loop-Left n fd held t1 r.1 (file, is_open) (sym less ∙ e) in
                (fine, t', s', set_loop-again n fd t s fails keeps stays ∙ e', left)
          ]
        ]
      ]

  -- Whether a try of the device asked for ends within `n` rounds.
  unfoldable pub device_stops : ℕ → ℕ → TuneData → σ → Bool
  device_stops n device t s =
      let (tfd, s1) = open_dev device s in
      elim tfd [
        | negsuc _ ↦ true
        | pos fd ↦
            let (t2, s2) =
              power_lnb open_dev enable disable set_freq exiting fd (with_file fd t) s1 in
            stops n t2.tune_persistent fd s2
      ]

  pub tune_device-Left :
      (n device : ℕ) (t : TuneData) (s : σ)
      → device_stops n device t s ≡ true
      → (fine : Bool) × (t' : TuneData) × (s' : σ) × (tune_device open_dev enable disable set_freq
            exiting n device t s
          ≡ some (fine, t', s'))
        × Left (open_fds t.calls) fine t'
  unfolding tune_device device_stops open_fds
  tune_device-Left n device t s e = elim (ℤ-cases (open_dev device s).0) [
    | inl (fd, opens) ↦
        let s1 = (open_dev device s).1 in
        let h : Holds fd (open_fds t.calls) (with_file fd t) = (refl, refl) in
        let r = power_lnb open_dev enable disable set_freq exiting fd (with_file fd t) s1 in
        let same : device_stops n device t s ≡ stops n r.0.tune_persistent fd r.1 =
          rw (device_stops, opens) refl in
        let (fine, t', s', e', left) =
          set_loop-Left n fd (open_fds t.calls) r.0 r.1
            (power_lnb-Holds fd (open_fds t.calls) (with_file fd t) s1 h) (sym same ∙ e) in
        (fine, t', s', rw (tune_device, opens) e', left)
    | inr (k, fails) ↦ (
      false,
      record t { tfd = negsuc k },
      (open_dev device s).1,
      rw (tune_device, fails) refl,
      inr (refl, refl),
    )
  ]
