-- ===== src/Card/Tests.antt =====
-- Runs of the card's operations at concrete inputs, and the theorems applied to them.
use ptx.Base.{ℕ, ◌+◌, ◌≡◌, refl, ◌↔◌, true, false, Option, none, some, [], ◌∷◌}
use ptx.Base.Int.{ℤ, pos}
use ptx.Card.{tuner, client, DelSys, isdbs, isdbt, lnb, zeroed, Card, Frontend, adap_of}
use ptx.Card.Lnb.{lnb_needed, ptx_sleep}
use ptx.Card.Subdev.{Probe, FrontendAnswers, ptx_register_fe, ptx_unregister_fe, blank}
use ptx.Card.Adapter.{AdapterAnswers, ptx_register_adap, ptx_unregister_adap}
use ptx.Card.Power.{Receives, sleep, wakeup, run, lnb_level, Alternates, level-run}
use ptx.Card.Owned.{Weight, acquired, released, IsSound}
use ptx.Card.Twice.{unregister_fe-twice}
use ptx.Card.Leak.{register_adap-unregister_adap}

abbrev front : DelSys → Option Frontend
front sys = some (record (blank sys) { frontend_priv = true })

-- Two adapters, the first for ISDB-S, on a card as `ptx_alloc` leaves its flag.
abbrev two : Card
two = record {
  adaps = record zeroed { fe = front isdbs } ∷ record zeroed { fe = front isdbt } ∷ [];
  lnb_on = true;
  thread = true;
  trace = [];
}

abbrev answer : ℕ → ℤ
answer i = pos 0

power_run :
    (run answer (sleep 0 ∷ wakeup 1 ∷ wakeup 0 ∷ sleep 1 ∷ []) two).trace
    ≡ lnb true ∷ lnb false ∷ []
unfolding run ptx_sleep lnb_needed
power_run = refl

level-run_example :
    let t = (run answer (sleep 0 ∷ wakeup 0 ∷ []) two).trace in
    ((lnb_level true t ≡ true) ↔ Receives (run answer (sleep 0 ∷ wakeup 0 ∷ []) two).adaps)
    × Alternates true t
unfolding lnb_level
level-run_example =
    level-run answer (sleep 0) (wakeup 0 ∷ []) true two (record { level = refl; changes = tt })

abbrev good_probe : Probe
good_probe = record {
  requested = true;
  created = true;
  stored = true;
  bound = true;
  pinned = true;
  op_sleep = false;
  op_init = false;
}

-- The second adapter's front end is refused by the core.
abbrev answers : ℕ → AdapterAnswers
answers i = record {
  adapter_ok = true;
  demux_ok = true;
  counters_ok = true;
  dmxdev_err = pos 0;
  front = record {
    allocated = true;
    demod_probe = good_probe;
    tuner_probe = good_probe;
    fe_accepted = elim i [ ℕ.zero ↦ true | ℕ.suc _ ↦ false ];
  };
}

abbrev bare : Card
bare = record { adaps = zeroed ∷ zeroed ∷ []; lnb_on = true; thread = false; trace = [] }

abbrev one_each : Weight
one_each r = 1

bare-unused :
    (j : ℕ)
    → let a = adap_of bare j in
      (a.fe ≡ none) × (a.filter ≡ false) × (a.cnt_storage ≡ false) × (a.name ≡ false)
bare-unused ℕ.zero = (refl, refl, refl, refl)
bare-unused (ℕ.suc ℕ.zero) = (refl, refl, refl, refl)
bare-unused (ℕ.suc (ℕ.suc j)) = (refl, refl, refl, refl)

good_probe-IsSound : IsSound good_probe
good_probe-IsSound = record { stored_bound = refl; bound_pinned = λ h. refl }

register_adap-unregister_adap_example :
    let c' = (ptx_register_adap answers answer 8 (isdbs ∷ isdbt ∷ []) true bare).0 in
    let t = ptx_unregister_adap 0 c'.adaps c'.trace in acquired one_each t ≡ released one_each t
unfolding acquired released
register_adap-unregister_adap_example =
    register_adap-unregister_adap one_each answers answer
      (λ i. record {
        demod_sound = good_probe-IsSound;
        tuner_sound = good_probe-IsSound;
        counted = refl;
      })
      8 (isdbs ∷ isdbt ∷ []) true bare (record { accounted = refl; unused = λ j le. bare-unused j })

-- The probe of a tuner that does not answer on the bus.
abbrev failed_tuner : Probe
failed_tuner = record good_probe { bound = false; pinned = false }

abbrev half_answers : FrontendAnswers
half_answers = record {
  allocated = true;
  demod_probe = good_probe;
  tuner_probe = failed_tuner;
  fe_accepted = true;
}

unregister_fe-twice_example :
    let (o, t1) = ptx_register_fe 0 isdbs half_answers [] in
    let t2 = ptx_unregister_fe 0 o t1 in
    acquired one_each t2 + one_each (client 0 tuner) ≡ released one_each t2
unfolding acquired released
unregister_fe-twice_example =
    unregister_fe-twice one_each 0 isdbs half_answers [] refl
      (record { stored_bound = refl; bound_pinned = λ b. refl })
      (record { requested = refl; created = refl; stored = refl; unbound = refl }) refl
