-- ===== src/Card/Power.antt =====
-- The power of the LNB under any sequence of `ptx_sleep` and `ptx_wakeup`.
use ptx.Base.{
  ℕ, zero, suc, ◌≡◌, refl, ◌↔◌, Bool, true, false, ◌&&◌, not, some, List, [], ◌∷◌, arith, ◌==◌,
  if◌then◌else◌, get_or, modify, length-modify, sym, ap, ◌∙◌, Bool-cases, Option-cases, inl, inr,
  length, ◌<◌,
}
use ptx.Base.Int.{ℤ}
use ptx.Card.{is_isdbs, Adap, Frontend, Card, Call, lnb, zeroed, adap_of}
use ptx.Card.Lnb.{lnb_needed, ptx_sleep, ptx_wakeup}

-- Some adapter is ON and receives ISDB-S, and no adapter before it lacks a front end.
pub data Receives : List Adap → Type 0 where
  here :
      {a : Adap} {fe : Frontend} {rest : List Adap}
      → a.fe ≡ some fe
      → is_isdbs fe.delsys ≡ true
      → a.on ≡ true
      → Receives (a ∷ rest)
  later :
      {a : Adap} {fe : Frontend} {rest : List Adap}
      → a.fe ≡ some fe
      → Receives rest
      → Receives (a ∷ rest)

Receives-of_needed : (xs : List Adap) → lnb_needed xs ≡ true → Receives xs
unfolding lnb_needed
Receives-of_needed [] h = absurd (cc h)
Receives-of_needed (a ∷ rest) h = elim (Option-cases a.fe) [
  | inl e ↦ absurd (ground arith)
  | inr (fe, e) ↦ elim (Bool-cases (is_isdbs fe.delsys && a.on)) [
    | inl hit ↦ here e (ground arith) (ground arith)
    | inr miss ↦ later e (Receives-of_needed rest (ground arith))
  ]
]

needed_of_Receives : {xs : List Adap} → Receives xs → lnb_needed xs ≡ true
unfolding lnb_needed
needed_of_Receives (here e s o) = ground arith
needed_of_Receives (later e r) = ground (arith, needed_of_Receives r)

-- The loop of `ptx_lnb` asks for power exactly when some adapter is ON, receives ISDB-S, and has
-- no adapter without a front end before it.
pub lnb_needed-Receives : (xs : List Adap) → (lnb_needed xs ≡ true) ↔ Receives xs
lnb_needed-Receives xs = (Receives-of_needed xs, needed_of_Receives)

-- A call of `ptx_sleep` or `ptx_wakeup` by the DVB core, for the adapter of the given index.
pub data Op : Type 0 where
  sleep wakeup : ℕ → Op

module _ (answer : ℕ → ℤ) where
  unfoldable pub step : Op → Card → Card
  unfolding ptx_sleep ptx_wakeup
  step (sleep i) c = (ptx_sleep answer i c).0
  step (wakeup i) c = (ptx_wakeup answer i c).0

  unfoldable pub run : List Op → Card → Card
  unfolding step
  run [] c = c
  run (o ∷ rest) c = run rest (step o c)

-- The level that the calls of the card's `lnb` have left, from the level before the first.
unfoldable pub lnb_level : Bool → List Call → Bool
lnb_level b [] = b
lnb_level b (lnb l ∷ t) = l
lnb_level b (_ ∷ t) = lnb_level b t

-- Each call of the card's `lnb` changes the level.
abbrev pub Alternates : Bool → List Call → Type 0
Alternates b [] = Unit
Alternates b (lnb l ∷ t) = (l ≡ not (lnb_level b t)) × Alternates b t
Alternates b (_ ∷ t) = Alternates b t

-- The flag `lnbON` is what the hardware has been told, and it is told of changes only.
pub record IsSynced (b : Bool) (c : Card) : Type 0 where
  pub level : lnb_level b c.trace ≡ c.lnb_on
  pub changes : Alternates b c.trace

module _ (answer : ℕ → ℤ) where
  step-IsSynced : (o : Op) {b : Bool} {c : Card} → IsSynced b c → IsSynced b (step answer o c)
  unfolding step lnb_level
  step-IsSynced (sleep i) v = ground arith
  step-IsSynced (wakeup i) v = ground arith

  lnb_on-step : (o : Op) (c : Card) → (step answer o c).lnb_on ≡ lnb_needed (step answer o c).adaps
  unfolding step
  lnb_on-step (sleep i) c = ground arith
  lnb_on-step (wakeup i) c = ground arith

  run-IsSynced :
      (ops : List Op) {b : Bool} {c : Card} → IsSynced b c → IsSynced b (run answer ops c)
  unfolding run
  run-IsSynced [] v = v
  run-IsSynced (o ∷ ops) v = run-IsSynced ops (step-IsSynced o v)

  lnb_on-run :
      (ops : List Op) (c : Card)
      → c.lnb_on ≡ lnb_needed c.adaps
      → (run answer ops c).lnb_on ≡ lnb_needed (run answer ops c).adaps
  unfolding run
  lnb_on-run [] c h = h
  lnb_on-run (o ∷ ops) c h = lnb_on-run ops (step answer o c) (lnb_on-step o c)

  -- After any nonempty sequence of calls of `ptx_sleep` and `ptx_wakeup`, from a card whose flag
  -- `lnbON` is the level of its hardware, whether or not that level is the one needed: the LNB has
  -- power exactly when some adapter is ON, receives ISDB-S and has no adapter without a front end
  -- before it; and each call of the card's `lnb` has changed the level.
  pub level-run :
      (o : Op) (ops : List Op) (b : Bool) (c : Card)
      → IsSynced b c
      → let t = (run answer (o ∷ ops) c).trace in
        ((lnb_level b t ≡ true) ↔ Receives (run answer (o ∷ ops) c).adaps) × Alternates b t
  unfolding run
  level-run o ops b c v =
      let w = run-IsSynced ops (step-IsSynced o v) in
      let e = lnb_on-run ops (step answer o c) (lnb_on-step o c) in
      let k = lnb_needed-Receives (run answer ops (step answer o c)).adaps in
      ((λ h. k.0 (sym e ∙ sym w.level ∙ h), λ r. w.level ∙ e ∙ k.1 r), w.changes)

-- Whether the last call for adapter `i` woke it up, from its state before.
unfoldable pub last_state : ℕ → List Op → Bool → Bool
last_state i [] b = b
last_state i (sleep j ∷ ops) b = last_state i ops (if j == i then false else b)
last_state i (wakeup j ∷ ops) b = last_state i ops (if j == i then true else b)

on-modify :
    (xs : List Adap) (j i : ℕ) (b : Bool)
    → i < length xs
    → (get_or (modify xs j (λ a. record a { on = b })) i zeroed).on
      ≡ (if j == i then b else (get_or xs i zeroed).on)
on-modify [] j i b h = absurd (omega arith)
on-modify (x ∷ xs) zero zero b h = refl
on-modify (x ∷ xs) zero (suc i) b h = ground arith
on-modify (x ∷ xs) (suc j) zero b h = ground arith
on-modify (x ∷ xs) (suc j) (suc i) b h = ground (arith, on-modify xs j i b)

module _ (answer : ℕ → ℤ) where
  on-step :
      (o : Op) (i : ℕ) (c : Card)
      → i < length c.adaps
      → ((adap_of (step answer o c) i).on ≡ last_state i (o ∷ []) (adap_of c i).on)
        × (length (step answer o c).adaps ≡ length c.adaps)
  unfolding step last_state
  on-step (sleep j) i c h =
      ground
        (arith, on-modify c.adaps j i false, length-modify c.adaps j (λ a. record a { on = false }))
  on-step (wakeup j) i c h =
      ground
        (arith, on-modify c.adaps j i true, length-modify c.adaps j (λ a. record a { on = true }))

  last_state-cons :
      (o : Op) (ops : List Op) (i : ℕ) (b : Bool)
      → last_state i (o ∷ ops) b ≡ last_state i ops (last_state i (o ∷ []) b)
  unfolding last_state
  last_state-cons (sleep j) ops i b = refl
  last_state-cons (wakeup j) ops i b = refl

  -- After any sequence of calls an adapter of the card is ON exactly when its last call was
  -- `ptx_wakeup`, or when it had none and was ON before.
  pub on-run :
      (ops : List Op) (i : ℕ) (c : Card)
      → i < length c.adaps
      → (adap_of (run answer ops c) i).on ≡ last_state i ops (adap_of c i).on
  unfolding run last_state
  on-run [] i c h = refl
  on-run (o ∷ ops) i c h =
      let k = on-step o i c h in
      on-run ops i (step answer o c) (omega arith)
      ∙ ap (last_state i ops) k.0
      ∙ sym (last_state-cons o ops i (adap_of c i).on)
