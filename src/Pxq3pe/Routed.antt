-- ===== src/Pxq3pe/Routed.antt =====
-- That `pxq3pe_irq` of drivers/media/pci/ptx/pxq3pe_pci.c delivers every packet to the adapter that it is
-- for and to no other.
use ptx.Base.{
  ℕ, zero, suc, ◌*◌, ◌<◌, ◌≤◌, ◌≡◌, ◌≢◌, refl, sym, ap, ap₂, ◌∙◌, ◌&&◌, ◌-◌, leb, Bool, true, false,
  some, List, [], ◌∷◌, ◌++◌, ◌==◌, ltb, if◌then◌else◌, arith, take, drop, length, length-take,
  length-drop, length-set, length-append, get_or, get_elem?, set, Bool-cases, Option-cases, inl,
  inr, lt→ltb,
}
use mathlib.Core.Path.{subst}
use mathlib.Core.Option.{some-injective}
use ptx.Pxq3pe.Ring.{ts_size}
use ptx.Pxq3pe.Irq.{Receiver, packet_adap, irq_packet, irq_packets}
use ptx.Pxq3pe.Received.{IsFed, Takes, Takes-nothing, Takes-Takes, receive_packet_lem}

-- The first bytes of the packets for the four adapters of a port.
abbrev pub first_byte : ℕ → ℕ
first_byte j = if j == 0 then 0xC7 else if j == 1 then 0x47 else if j == 2 then 0x07 else 0x87

-- Whether a packet that begins with `b` is for adapter `k`: port 0 has the adapters from 4 to 7, and
-- port 1 those from 0 to 3.
abbrev pub is_for : ℕ → ℕ → ℕ → Bool
is_for port k b =
    if port == 0
    then leb 4 k && ltb k 8 && (b == first_byte (k - 4))
    else ltb k 4 && (b == first_byte k)

packet_adap-is_for :
    (adapn port k b : ℕ) → k < adapn → (packet_adap adapn port b == k) ≡ is_for port k b
unfolding packet_adap
packet_adap-is_for adapn port k b h = ground (arith, h)

-- The packets of a transfer for adapter `k`, one after the other, each with the byte 0x47 first; none
-- where it is off.
unfoldable pub routed : Bool → ℕ → ℕ → ℕ → List ℕ → List ℕ
routed on zero port k tbuf = []
routed on (suc left) port k tbuf =
    let later = routed on left port k (drop ts_size tbuf) in
    let packet = take ts_size tbuf in
    if on && is_for port k (get_or packet 0 0) then set packet 0 0x47 ++ later else later

-- Each adapter of a card is fed.
pub data AllFed : List Receiver → Type 0 where
  no_more : AllFed []
  one_more : {a : Receiver} {rest : List Receiver} → IsFed a.priv → AllFed rest → AllFed (a ∷ rest)

pub fed_at :
    (adap : List Receiver) (i : ℕ) (a : Receiver)
    → AllFed adap
    → get_elem? adap i ≡ some a
    → IsFed a.priv
fed_at [] i a f e = absurd (cc e)
fed_at (b ∷ rest) zero a (one_more f fs) e = subst (λ r. IsFed r.priv) (some-injective b a e) f
fed_at (b ∷ rest) (suc i) a (one_more f fs) e = fed_at rest i a fs e

AllFed-set :
    (adap : List Receiver) (i : ℕ) (a : Receiver)
    → AllFed adap
    → IsFed a.priv
    → AllFed (set adap i a)
AllFed-set [] i a fs f = no_more
AllFed-set (b ∷ rest) zero a (one_more _ fs) f = one_more f fs
AllFed-set (b ∷ rest) (suc i) a (one_more g fs) f = one_more g (AllFed-set rest i a fs f)

get_elem?-set_self :
    (adap : List Receiver) (i : ℕ) (a b : Receiver)
    → get_elem? adap i ≡ some a
    → get_elem? (set adap i b) i ≡ some b
get_elem?-set_self [] i a b e = absurd (cc e)
get_elem?-set_self (c ∷ rest) zero a b e = refl
get_elem?-set_self (c ∷ rest) (suc i) a b e = get_elem?-set_self rest i a b e

get_elem?-set_ne :
    (adap : List Receiver) (i j : ℕ) (b : Receiver)
    → i ≢ j
    → get_elem? (set adap i b) j ≡ get_elem? adap j
get_elem?-set_ne [] i j b n = refl
get_elem?-set_ne (c ∷ rest) zero zero b n = absurd (n refl)
get_elem?-set_ne (c ∷ rest) zero (suc j) b n = refl
get_elem?-set_ne (c ∷ rest) (suc i) zero b n = refl
get_elem?-set_ne (c ∷ rest) (suc i) (suc j) b n = get_elem?-set_ne rest i j b (λ e. n (ap suc e))

ne_of : (i k : ℕ) → (i == k) ≡ false → i ≢ k
ne_of i k h e = ground (arith, h, e)

-- Adapter `k` after the bytes of `xs` came in for it.
abbrev pub Delivered : ℕ → Receiver → List ℕ → List Receiver → Type 0
Delivered k a xs adap =
    (b : Receiver) × (get_elem? adap k ≡ some b) × (b.on ≡ a.on) × Takes a.priv xs b.priv

module _ (adapn port k : ℕ) (in_card : k < adapn) where
  -- What a packet brings to adapter `k`.
  abbrev share : Bool → List ℕ → List ℕ
  share on packet =
      if on && (packet_adap adapn port (get_or packet 0 0) == k) then set packet 0 0x47 else []

  irq_packet_lem :
      (packet : List ℕ) (adap : List Receiver) (a : Receiver)
      → length packet ≡ ts_size
      → AllFed adap
      → get_elem? adap k ≡ some a
      → (packet' : List ℕ) × (adap' : List Receiver) × (irq_packet adapn port packet adap
          ≡ some (packet', adap'))
        × (length packet' ≡ ts_size)
        × AllFed adap'
        × Delivered k a (share a.on packet) adap'
  unfolding irq_packet
  irq_packet_lem packet adap a n fs at =
      let i = packet_adap adapn port (get_or packet 0 0) in
      elim (Bool-cases (i == k)) [
        | inl mine ↦
            let same : i ≡ k = ground (arith, mine) in
            let here : get_elem? adap i ≡ some a = ap (get_elem? adap) same ∙ at in
            elim (Bool-cases a.on) [
              | inr off ↦
                  let refused : (ltb i adapn && a.on) ≡ false =
                    ap₂ (λ x y. x && y) (lt→ltb i adapn (omega (arith, same, in_card))) off in
                  let nothing : share a.on packet ≡ [] = rw (off) refl in
                  (
                    packet,
                    adap,
                    rw (irq_packet, here, refused) refl,
                    n,
                    fs,
                    (
                      a,
                      at,
                      refl,
                      subst (λ l. Takes a.priv l a.priv) (sym nothing)
                          (Takes-nothing a.priv (fed_at adap k a fs at).well),
                    ),
                  )
              | inl on ↦
                  let mark : length (set packet 0 0x47) ≡ ts_size = length-set packet 0 0x47 ∙ n in
                  let (q, got, fed, takes) =
                    receive_packet_lem a.priv (set packet 0 0x47) (fed_at adap k a fs at) mark in
                  let b : Receiver = record a { priv = q } in
                  let whole : share a.on packet ≡ set packet 0 0x47 = rw (on, mine) refl in
                  let passes : (ltb i adapn && a.on) ≡ true =
                    ap₂ (λ x y. x && y) (lt→ltb i adapn (omega (arith, same, in_card))) on in
                  (
                    set packet 0 0x47,
                    set adap i b,
                    rw (irq_packet, here, passes, got) refl,
                    mark,
                    AllFed-set adap i b fs fed,
                    (
                      b,
                      ap (λ j. get_elem? (set adap i b) j) (sym same)
                          ∙ get_elem?-set_self adap i a b here,
                      refl,
                      subst (λ l. Takes a.priv l q) (sym whole) takes,
                    ),
                  )
            ]
        | inr other ↦
            let differs : i ≢ k = λ e. ne_of i k other e in
            let nothing : share a.on packet ≡ [] = ground (arith, other) in
            let kept : Takes a.priv (share a.on packet) a.priv =
              subst (λ l. Takes a.priv l a.priv) (sym nothing)
                (Takes-nothing a.priv (fed_at adap k a fs at).well) in
            elim (Option-cases (get_elem? adap i)) [
              | inl nowhere ↦
                  (packet, adap, rw (irq_packet, nowhere) refl, n, fs, (a, at, refl, kept))
              | inr (c, there) ↦ elim (Bool-cases (ltb i adapn && c.on)) [
                | inl passes ↦
                    let mark : length (set packet 0 0x47) ≡ ts_size =
                      length-set packet 0 0x47 ∙ n in
                    let (q, got, fed, takes) =
                      receive_packet_lem c.priv (set packet 0 0x47) (fed_at adap i c fs there)
                        mark in
                    let d : Receiver = record c { priv = q } in
                    (
                      set packet 0 0x47,
                      set adap i d,
                      rw (irq_packet, there, passes, got) refl,
                      mark,
                      AllFed-set adap i d fs fed,
                      (a, get_elem?-set_ne adap i k d differs ∙ at, refl, kept),
                    )
                | inr stays ↦
                    (packet, adap, rw (irq_packet, there, stays) refl, n, fs, (a, at, refl, kept))
              ]
            ]
      ]

  share_first :
      (on : Bool) (left : ℕ) (tbuf : List ℕ)
      → share on (take ts_size tbuf) ++ routed on left port k (drop ts_size tbuf)
        ≡ routed on (suc left) port k tbuf
  unfolding routed
  share_first on left tbuf =
      let b = get_or (take ts_size tbuf) 0 0 in
      ap
        (λ t.
          (if on && t then set (take ts_size tbuf) 0 0x47 else [])
          ++ routed on left port k (drop ts_size tbuf))
        (packet_adap-is_for adapn port k b in_card)
      ∙ elim (Bool-cases (on && is_for port k b)) [
        | inl mine ↦ rw (routed, mine) refl
        | inr other ↦ rw (routed, other) refl
      ]

  -- Where every adapter of the card is fed, the loop over the packets of a transfer
  -- leaves no buffer, keeps every adapter fed, and adapter `k`, if it is on, takes just the packets that
  -- their first bytes and the port say are its own, in their order.
  pub irq_packets-routed :
      (left : ℕ) (tbuf : List ℕ) (adap : List Receiver) (a : Receiver)
      → left * ts_size ≤ length tbuf
      → AllFed adap
      → get_elem? adap k ≡ some a
      → (tbuf' : List ℕ) × (adap' : List Receiver) × (irq_packets left adapn port tbuf adap
          ≡ some (tbuf', adap'))
        × (length tbuf' ≡ length tbuf)
        × AllFed adap'
        × Delivered k a (routed a.on left port k tbuf) adap'
  unfolding irq_packets routed
  irq_packets-routed zero tbuf adap a h fs at =
      (tbuf, adap, refl, refl, fs, (a, at, refl, Takes-nothing a.priv (fed_at adap k a fs at).well))
  irq_packets-routed (suc left) tbuf adap a h fs at =
      let packet = take ts_size tbuf in
      let n : length packet ≡ ts_size = omega (arith, h, length-take ts_size tbuf) in
      let (packet1, adap1, e1, n1, fs1, (b, at1, on1, takes1)) =
        irq_packet_lem packet adap a n fs at in
      let (rest, adap2, e2, n2, fs2, (c, at2, on2, takes2)) =
        irq_packets-routed left (drop ts_size tbuf) adap1 b
          (omega (arith, h, length-drop ts_size tbuf)) fs1 at1 in
      let own : routed b.on left port k (drop ts_size tbuf)
          ≡ routed a.on left port k (drop ts_size tbuf) =
        ap (λ o. routed o left port k (drop ts_size tbuf)) on1 in
      let takes3 = subst (λ l. Takes b.priv l c.priv) own takes2 in
      let both = Takes-Takes a.priv b.priv c.priv (share a.on packet) _ takes1 takes3 in
      (
        packet1 ++ rest,
        adap2,
        rw (irq_packets, e1, e2) refl,
        omega (arith, length-append packet1 rest, n1, n2, h, length-drop ts_size tbuf),
        fs2,
        (c, at2, on2 ∙ on1, subst (λ l. Takes a.priv l c.priv) (share_first a.on left tbuf) both),
      )
