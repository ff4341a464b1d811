-- ===== src/Card/Twice.antt =====
-- `ptx_register_fe` and `ptx_unregister_fe` of drivers/media/pci/ptx/ptx_common.c, where the tuner's
-- probe fails after it has stored its client, as those of drivers/media/tuners may.
use ptx.Base.{ℕ, ◌+◌, ◌≡◌, refl, true, false, Option, none, some, List, ◌∷◌, arith, Bool, ◌∙◌}
use ptx.Card.{DelSys, demod, tuner, fe_memory, client, Call, acquire, Frontend}
use ptx.Card.Subdev.{
  Probe, FrontendAnswers, blank, accept_fe, ptx_register_subdev, ptx_unregister_fe, ptx_register_fe,
}
use ptx.Card.Owned.{
  Weight, acquired, released, owned_fe, owned_chips, IsSound, Held, tuner_priv-register_demod,
  Held-register_subdev,
}

-- The probe stores its client in the front end, and then no driver is bound to it.
pub record StoredUnbound (p : Probe) : Type 0 where
  pub requested : p.requested ≡ true
  pub created : p.created ≡ true
  pub stored : p.stored ≡ true
  pub unbound : p.bound ≡ false

module _ (w : Weight) where
  -- With `c` more, what the trace took is what it gave back and `n`.
  abbrev Short : ℕ → List Call → ℕ → Type 0
  Short c t n = acquired w t + c ≡ released w t + n

  Short-unregister_fe :
      (c i : ℕ) (o : Option Frontend) (t : List Call) (n : ℕ)
      → Short c t (n + owned_fe w i o)
      → Short c (ptx_unregister_fe i o t) n
  unfolding ptx_unregister_fe acquired released
  Short-unregister_fe c i none t n h = ground arith
  Short-unregister_fe c i (some fe) t n h = ground arith

  Short-accept_fe :
      (c i : ℕ) (accepted : Bool) (fe : Frontend) (t : List Call) (n : ℕ)
      → fe.frontend_priv ≡ false
      → Short c t (n + w (fe_memory i) + owned_chips w i fe)
      → let (o, t') = accept_fe i accepted fe t in Short c t' (n + owned_fe w i o)
  unfolding accept_fe acquired released
  Short-accept_fe c i accepted fe t n f h =
      ground (arith, Short-unregister_fe c i (some fe) t n (ground arith))

  Short-register_tuner :
      (i : ℕ) (p : Probe) (fe : Frontend) (t : List Call) (n : ℕ)
      → StoredUnbound p
      → fe.tuner_priv ≡ none
      → Held w t (n + owned_chips w i fe)
      → let (fe', t') = ptx_register_subdev i tuner p fe t in
        Short (w (client i tuner)) t' (n + owned_chips w i fe')
        × (fe'.frontend_priv ≡ fe.frontend_priv)
  unfolding ptx_register_subdev acquired released
  Short-register_tuner i p fe t n s z h =
      ground (arith, s.requested, s.created, s.stored, s.unbound)

  -- Where the tuner's probe stores its client and then fails, and the demodulator's is sound: the front end that
  -- is registered nevertheless, or refused, gives the tuner's client back once more than it was taken
  -- when it is unregistered, and all else that was taken as often as it was taken (counted by any weight on the resources).
  pub unregister_fe-twice :
      (i : ℕ) (sys : DelSys) (e : FrontendAnswers) (t : List Call)
      → e.allocated ≡ true
      → IsSound e.demod_probe
      → StoredUnbound e.tuner_probe
      → acquired w t ≡ released w t
      → let (o, t1) = ptx_register_fe i sys e t in
        let t2 = ptx_unregister_fe i o t1 in acquired w t2 + w (client i tuner) ≡ released w t2
  unfolding ptx_register_fe acquired released
  unregister_fe-twice i sys e t al sd st h =
      let t0 = acquire (fe_memory i) ∷ t in
      let (fe1, t1) = ptx_register_subdev i demod e.demod_probe (blank sys) t0 in
      let (fe2, t2) = ptx_register_subdev i tuner e.tuner_probe fe1 t1 in
      let first =
        Held-register_subdev w i demod e.demod_probe (blank sys) t0 (w (fe_memory i)) sd
          (omega arith) refl in
      let kept : fe1.tuner_priv ≡ none = tuner_priv-register_demod i e.demod_probe (blank sys) t0 in
      let second = Short-register_tuner i e.tuner_probe fe1 t1 (w (fe_memory i)) st kept first.0 in
      let (o, t3) = accept_fe i e.fe_accepted fe2 t2 in
      let third : Short (w (client i tuner)) t3 (0 + owned_fe w i o) =
        Short-accept_fe (w (client i tuner)) i e.fe_accepted fe2 t2 0 (second.1 ∙ first.1)
          (omega (arith, second.0)) in
      let fourth = Short-unregister_fe (w (client i tuner)) i o t3 0 third in
      rw (al, ptx_register_fe) (omega (arith, fourth))
