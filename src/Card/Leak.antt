-- ===== src/Card/Leak.antt =====
-- Registration and its undoing, `ptx_register_adap` and `ptx_unregister_adap` of
-- drivers/media/pci/ptx/ptx_common.c: nothing is leaked and nothing is given back twice.
use ptx.Base.{
  ◌∙◌, ℕ, zero, suc, ◌+◌, ◌<◌, ◌≤◌, ◌≡◌, refl, Bool, true, false, Option, none, some, List, [], ◌∷◌,
  arith, Bool-cases, inl, inr, length, set, modify, get_or, length-set, length-modify, length-take,
  get_or-set_ne, ltb, take,
}
use ptx.Base.Int.{ℤ, nonzero}
use ptx.Card.{
  DelSys, dvb_adapter, dvb_demux, dmx_device, Call, acquire, Frontend, Adap, Card, zeroed, adap_of,
}
use ptx.Card.Lnb.{ptx_sleep}
use ptx.Card.Subdev.{FrontendAnswers, ptx_register_fe}
use ptx.Card.Adapter.{
  AdapterAnswers, attach_fe, with_dmxdev, register_one, register_loop, ptx_register_adap,
  ptx_unregister_adap,
}
use ptx.Card.Owned.{
  Weight, acquired, released, owned_fe, owned_adap, Held, IsSound, Held-register_fe,
  Held-unregister_one,
}

-- An adapter that holds nothing.
abbrev pub IsUnused : Adap → Type 0
IsUnused a = (a.fe ≡ none) × (a.filter ≡ false) × (a.cnt_storage ≡ false) × (a.name ≡ false)

-- The probes are sound, and `dvb_dmx_init` has memory for its counters whenever it succeeds.
pub record AnswersSound (e : AdapterAnswers) : Type 0 where
  pub demod_sound : IsSound e.front.demod_probe
  pub tuner_sound : IsSound e.front.tuner_probe
  pub counted : e.counters_ok ≡ e.demux_ok

module _ (w : Weight) where
  Held-attach_fe :
      (i : ℕ) (a : Adap) (o : Option Frontend) (t : List Call) (n : ℕ)
      → a.fe ≡ none
      → Held w t (n + owned_adap w i a + owned_fe w i o)
      → let (err, a', t') = attach_fe a (o, t) in Held w t' (n + owned_adap w i a')
  unfolding attach_fe
  Held-attach_fe i a none t n f h = ground arith
  Held-attach_fe i a (some fe) t n f h = ground arith

  Held-with_dmxdev :
      (i : ℕ) (sys : DelSys) (e : FrontendAnswers) (err : ℤ) (a : Adap) (t : List Call) (n : ℕ)
      → IsSound e.demod_probe
      → IsSound e.tuner_probe
      → a.fe ≡ none
      → a.filter ≡ false
      → Held w t (n + owned_adap w i a)
      → let (err', a', t') = with_dmxdev i sys e err a t in Held w t' (n + owned_adap w i a')
  unfolding with_dmxdev acquired released
  Held-with_dmxdev i sys e err a t n sd st f g h = elim (Bool-cases (nonzero err)) [
    | inl bad ↦ rw bad h
    | inr ok ↦
        let t1 = acquire (dmx_device i) ∷ t in
        let a1 : Adap = record a { filter = true } in
        let got = Held-register_fe w i sys e t1 (n + owned_adap w i a1) sd st (ground arith) in
        rw ok (
          Held-attach_fe i a1 (ptx_register_fe i sys e t1).0 (ptx_register_fe i sys e t1).1 n f got)
  ]

  Held-register_one :
      (i : ℕ) (sys : DelSys) (e : AdapterAnswers) (a : Adap) (t : List Call) (n : ℕ)
      → AnswersSound e
      → IsUnused a
      → Held w t n
      → let (err, a', t') = register_one i sys e a t in Held w t' (n + owned_adap w i a')
  unfolding register_one acquired released
  Held-register_one i sys e a t n s u h =
      let a1 : Adap = record a { name = true } in
      let a2 : Adap = record a1 { dmx_close = true; cnt_storage = e.counters_ok } in
      let t2 = acquire (dvb_demux i) ∷ acquire (dvb_adapter i) ∷ t in
      elim (Bool-cases e.demux_ok) [
        | inl ok ↦
            let counters : e.counters_ok ≡ true = s.counted ∙ ok in
            let held : Held w t2 (n + owned_adap w i a2) = ground (arith, counters, u, h) in
            let rest =
              Held-with_dmxdev i sys e.front e.dmxdev_err a2 t2 n s.demod_sound s.tuner_sound u.0
                u.1 held in
            ground (arith, rest, ok)
        | inr bad ↦ ground (arith, bad)
      ]

  -- What the adapters from index `i` on hold together.
  abbrev pub owned_list : ℕ → List Adap → ℕ
  owned_list i [] = 0
  owned_list i (a ∷ rest) = owned_adap w i a + owned_list (i + 1) rest

  owned_list-set :
      (xs : List Adap) (i k j : ℕ) (a : Adap)
      → j ≡ i + k
      → k < length xs
      → owned_list i (set xs k a) + owned_adap w j (get_or xs k zeroed)
        ≡ owned_list i xs + owned_adap w j a
  owned_list-set [] i k j a e h = absurd (omega arith)
  owned_list-set (x ∷ xs) i zero j a e h = let e' : j ≡ i = omega arith in rw e' (omega arith)
  owned_list-set (x ∷ xs) i (suc k) j a e h =
      omega (arith, owned_list-set xs (i + 1) k j a (omega arith) (omega arith))

  owned_list-on :
      (xs : List Adap) (i k : ℕ) (b : Bool)
      → owned_list i (modify xs k (λ a. record a { on = b })) ≡ owned_list i xs
  owned_list-on [] i k b = refl
  owned_list-on (x ∷ xs) i zero b = refl
  owned_list-on (x ∷ xs) i (suc k) b = omega (arith, owned_list-on xs (i + 1) k b)

  owned_adap_unused : (i : ℕ) (a : Adap) → IsUnused a → owned_adap w i a ≡ 0
  owned_adap_unused i a u = ground arith

  Held-unregister_adap :
      (xs : List Adap) (i : ℕ) (t : List Call) (n : ℕ)
      → Held w t (n + owned_list i xs)
      → Held w (ptx_unregister_adap i xs t) n
  unfolding ptx_unregister_adap
  Held-unregister_adap [] i t n h = omega arith
  Held-unregister_adap (a ∷ rest) i t n h =
      Held-unregister_one w i a (ptx_unregister_adap (i + 1) rest t) n
        (Held-unregister_adap rest (i + 1) t (n + owned_adap w i a) (omega arith))

  trace-sleep :
      (answer : ℕ → ℤ) (i : ℕ) (c : Card)
      → (acquired w (ptx_sleep answer i c).0.trace ≡ acquired w c.trace)
        × (released w (ptx_sleep answer i c).0.trace ≡ released w c.trace)
  unfolding ptx_sleep acquired released
  trace-sleep answer i c = ground arith

adaps-sleep :
    (answer : ℕ → ℤ) (i : ℕ) (c : Card)
    → (ptx_sleep answer i c).0.adaps ≡ modify c.adaps i (λ a. record a { on = false })
unfolding ptx_sleep
adaps-sleep answer i c = ground arith

IsUnused-on :
    (xs : List Adap) (k j : ℕ) (b : Bool)
    → IsUnused (get_or xs j zeroed)
    → IsUnused (get_or (modify xs k (λ a. record a { on = b })) j zeroed)
IsUnused-on [] k j b u = u
IsUnused-on (x ∷ xs) zero zero b u = u
IsUnused-on (x ∷ xs) zero (suc j) b u = u
IsUnused-on (x ∷ xs) (suc k) zero b u = u
IsUnused-on (x ∷ xs) (suc k) (suc j) b u = IsUnused-on xs k j b u

-- What the loop of `ptx_register_adap` keeps: the trace accounts for what the adapters hold, and
-- the adapters from index `i` on hold nothing.
pub record IsPartial (w : Weight) (i : ℕ) (c : Card) : Type 0 where
  pub accounted : Held w c.trace (owned_list w 0 c.adaps)
  pub unused : (j : ℕ) → i ≤ j → IsUnused (adap_of c j)

module _ (w : Weight) (answers : ℕ → AdapterAnswers) (answer : ℕ → ℤ)
    (sound : (i : ℕ) → AnswersSound (answers i)) where
  Held-store :
      (i : ℕ) (sys : DelSys) (c : Card)
      → i < length c.adaps
      → IsPartial w i c
      → let (err, a, t) = register_one i sys (answers i) (adap_of c i) c.trace in
        Held w t (owned_list w 0 (set c.adaps i a))
  Held-store i sys c h p =
      let (err, a, t) = register_one i sys (answers i) (adap_of c i) c.trace in
      let u = p.unused i (omega arith) in
      omega (
        arith,
        Held-register_one w i sys (answers i) (adap_of c i) c.trace (owned_list w 0 c.adaps)
            (sound i) u p.accounted,
        owned_list-set w c.adaps 0 i i a (omega arith) h,
        owned_adap_unused w i (adap_of c i) u,
      )

  IsPartial-sleep :
      (i : ℕ) (sys : DelSys) (c : Card)
      → i < length c.adaps
      → IsPartial w i c
      → let (err, a, t) = register_one i sys (answers i) (adap_of c i) c.trace in
        IsPartial w (i + 1) (ptx_sleep answer i (record c { adaps = set c.adaps i a; trace = t })).0
  IsPartial-sleep i sys c h p =
      let (err, a, t) = register_one i sys (answers i) (adap_of c i) c.trace in
      let c' : Card = record c { adaps = set c.adaps i a; trace = t } in
      record {
        accounted =
            rw (adaps-sleep answer i c', owned_list-on w c'.adaps 0 i false)
              (omega (arith, trace-sleep w answer i c', Held-store i sys c h p));
        unused = λ j le. rw (adaps-sleep answer i c') (
            IsUnused-on c'.adaps i j false
              (rw (get_or-set_ne c.adaps i j a zeroed (omega arith)) (p.unused j (omega arith))));
      }

  Held-register_loop :
      (info : List DelSys) (i : ℕ) (c : Card)
      → i + length info ≤ length c.adaps
      → IsPartial w i c
      → let c' = (register_loop answers answer info i c).0 in
        Held w c'.trace (owned_list w 0 c'.adaps)
  unfolding register_loop
  Held-register_loop [] i c h p = p.accounted
  Held-register_loop (sys ∷ rest) i c h p =
      let (err, a, t) = register_one i sys (answers i) (adap_of c i) c.trace in
      let c' : Card = record c { adaps = set c.adaps i a; trace = t } in
      elim (Bool-cases (nonzero err)) [
        | inl bad ↦ rw (bad, register_loop) (Held-store i sys c (omega arith) p)
        | inr ok ↦
            rw (ok, register_loop)
              (Held-register_loop rest (i + 1) (ptx_sleep answer i c').0
                (rw (adaps-sleep answer i c') (
                  omega (
                    arith,
                    length-modify c'.adaps i (λ (x : Adap). record x { on = false }),
                    length-set c.adaps i a,
                  )))
                (IsPartial-sleep i sys c (omega arith) p))
      ]

  length-take_le : (n : ℕ) (xs : List DelSys) → length (take n xs) ≤ n
  length-take_le n xs = omega (arith, length-take n xs)

  -- Where each probe stores its client just when it binds its driver, the module of a bound driver can
  -- be pinned, and `dvb_dmx_init` has memory for its counters whenever it succeeds: however the registration of a card's adapters ends, at whichever
  -- step of whichever adapter, `ptx_unregister_adap` afterwards gives back exactly what it took,
  -- each resource as often as it was acquired (counted by any weight on the resources).
  pub register_adap-unregister_adap :
      (max_adapters : ℕ) (info : List DelSys) (thread : Bool) (c : Card)
      → IsPartial w 0 c
      → let c' = (ptx_register_adap answers answer max_adapters info thread c).0 in
        let t = ptx_unregister_adap 0 c'.adaps c'.trace in acquired w t ≡ released w t
  unfolding ptx_register_adap
  register_adap-unregister_adap max_adapters info thread c p =
      elim (Bool-cases (ltb max_adapters (length c.adaps))) [
        | inl bad ↦ rw bad (done c p.accounted)
        | inr ok ↦ rw ok (
            done (register_loop answers answer (take (length c.adaps) info) 0 c1).0 (
              Held-register_loop (take (length c.adaps) info) 0 c1
                (omega (arith, length-take_le (length c.adaps) info))
                (record { accounted = p.accounted; unused = p.unused })))
      ]
    where
      c1 : Card
      c1 = record c { thread = thread }

      done :
          (c' : Card)
          → Held w c'.trace (owned_list w 0 c'.adaps)
          → let t = ptx_unregister_adap 0 c'.adaps c'.trace in acquired w t ≡ released w t
      done c' h = omega (arith, Held-unregister_adap w c'.adaps 0 c'.trace 0 (omega arith))
