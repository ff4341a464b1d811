-- ===== src/Card/Owned.antt =====
-- What the registration of drivers/media/pci/ptx/ptx_common.c holds, and what its trace took and
-- gave back. A weight on the resources stands for counting: the weight that is 1 at one resource
-- and 0 elsewhere counts that resource.
use ptx.Base.{
  ℕ, ◌+◌, ◌≡◌, refl, ◌∙◌, Bool, true, false, Option, none, some, List, [], ◌∷◌, arith,
  if◌then◌else◌,
}
use ptx.Card.{
  DelSys, Chip, demod, tuner, Resource, fe_memory, fe_registered, client, module_ref, dvb_adapter,
  dvb_demux, dmx_device, Call, acquire, release, Client, Frontend, Adap,
}
use ptx.Card.Subdev.{
  Probe, ptx_register_subdev, ptx_unregister_fe, FrontendAnswers, blank, accept_fe, ptx_register_fe,
}
use ptx.Card.Adapter.{unregister_one}

abbrev pub Weight : Type 0
Weight = Resource → ℕ

-- The weight of what the trace acquired, and of what it released.
unfoldable pub acquired : Weight → List Call → ℕ
acquired w [] = 0
acquired w (acquire r ∷ t) = w r + acquired w t
acquired w (_ ∷ t) = acquired w t

unfoldable pub released : Weight → List Call → ℕ
released w [] = 0
released w (release r ∷ t) = w r + released w t
released w (_ ∷ t) = released w t

module _ (w : Weight) where
  abbrev pub owned_client : ℕ → Chip → Option Client → ℕ
  owned_client i chip none = 0
  owned_client i chip (some c) = w (client i chip) + (if c.driver then w (module_ref i chip) else 0)

  abbrev pub owned_chips : ℕ → Frontend → ℕ
  owned_chips i fe = owned_client i demod fe.demodulator_priv + owned_client i tuner fe.tuner_priv

  abbrev pub owned_fe : ℕ → Option Frontend → ℕ
  owned_fe i none = 0
  owned_fe i (some fe) =
      w (fe_memory i) + owned_chips i fe + (if fe.frontend_priv then w (fe_registered i) else 0)

  abbrev pub owned_adap : ℕ → Adap → ℕ
  owned_adap i a =
      owned_fe i a.fe
      + (if a.filter then w (dmx_device i) else 0)
      + (if a.cnt_storage then w (dvb_demux i) else 0)
      + (if a.name then w (dvb_adapter i) else 0)

  -- `held t n` says that what the trace took and did not give back weighs `n`.
  abbrev pub Held : List Call → ℕ → Type 0
  Held t n = acquired w t ≡ released w t + n

-- The probe stores its client when and only when it succeeds, which those of the tuners do where the bus
-- fails in none of their writes, and a bound driver's module can be pinned.
pub record IsSound (p : Probe) : Type 0 where
  pub stored_bound : p.stored ≡ p.bound
  pub bound_pinned : p.bound ≡ true → p.pinned ≡ true

pub tuner_priv-register_demod :
    (i : ℕ) (p : Probe) (fe : Frontend) (t : List Call)
    → (ptx_register_subdev i demod p fe t).0.tuner_priv ≡ fe.tuner_priv
unfolding ptx_register_subdev
tuner_priv-register_demod i p fe t = ground arith

module _ (w : Weight) where
  pub Held-unregister_fe :
      (i : ℕ) (o : Option Frontend) (t : List Call) (n : ℕ)
      → Held w t (n + owned_fe w i o)
      → Held w (ptx_unregister_fe i o t) n
  unfolding ptx_unregister_fe acquired released
  Held-unregister_fe i none t n h = ground arith
  Held-unregister_fe i (some fe) t n h = ground arith

  pub Held-register_subdev :
      (i : ℕ) (chip : Chip) (p : Probe) (fe : Frontend) (t : List Call) (n : ℕ)
      → IsSound p
      → Held w t (n + owned_chips w i fe)
      → owned_client w i chip (elim chip [ demod ↦ fe.demodulator_priv | tuner ↦ fe.tuner_priv ])
        ≡ 0
      → let (fe', t') = ptx_register_subdev i chip p fe t in
        Held w t' (n + owned_chips w i fe') × (fe'.frontend_priv ≡ fe.frontend_priv)
  unfolding ptx_register_subdev acquired released
  Held-register_subdev i demod p fe t n s h z = ground arith
  Held-register_subdev i tuner p fe t n s h z = ground arith

  Held-accept_fe :
      (i : ℕ) (accepted : Bool) (fe : Frontend) (t : List Call) (n : ℕ)
      → fe.frontend_priv ≡ false
      → Held w t (n + w (fe_memory i) + owned_chips w i fe)
      → let (o, t') = accept_fe i accepted fe t in Held w t' (n + owned_fe w i o)
  unfolding accept_fe acquired released
  Held-accept_fe i accepted fe t n f h =
      ground (arith, Held-unregister_fe i (some fe) t n (ground arith))

  Held-register_chips :
      (i : ℕ) (d u : Probe) (sys : DelSys) (t : List Call) (n : ℕ)
      → IsSound d
      → IsSound u
      → Held w t n
      → let (fe1, t1) = ptx_register_subdev i demod d (blank sys) t in
        let (fe2, t2) = ptx_register_subdev i tuner u fe1 t1 in
        (fe2.frontend_priv ≡ false) × Held w t2 (n + owned_chips w i fe2)
  Held-register_chips i d u sys t n sd su h =
      let (fe1, t1) = ptx_register_subdev i demod d (blank sys) t in
      let first = Held-register_subdev i demod d (blank sys) t n sd (omega arith) refl in
      let kept = tuner_priv-register_demod i d (blank sys) t in
      let second = Held-register_subdev i tuner u fe1 t1 n su first.0 (rw kept) in
      (second.1 ∙ first.1, second.0)

  pub Held-register_fe :
      (i : ℕ) (sys : DelSys) (e : FrontendAnswers) (t : List Call) (n : ℕ)
      → IsSound e.demod_probe
      → IsSound e.tuner_probe
      → Held w t n
      → let (o, t') = ptx_register_fe i sys e t in Held w t' (n + owned_fe w i o)
  unfolding ptx_register_fe acquired released
  Held-register_fe i sys e t n sd st h =
      let (fe1, t1) =
        ptx_register_subdev i demod e.demod_probe (blank sys) (acquire (fe_memory i) ∷ t) in
      let (fe2, t2) = ptx_register_subdev i tuner e.tuner_probe fe1 t1 in
      let chips =
        Held-register_chips i e.demod_probe e.tuner_probe sys (acquire (fe_memory i) ∷ t)
          (n + w (fe_memory i)) sd st (omega arith) in
      ground (arith, Held-accept_fe i e.fe_accepted fe2 t2 n chips.0 chips.1)

  pub Held-unregister_one :
      (i : ℕ) (a : Adap) (t : List Call) (n : ℕ)
      → Held w t (n + owned_adap w i a)
      → Held w (unregister_one i a t) n
  unfolding unregister_one acquired released
  Held-unregister_one i a t n h = ground arith
