-- ===== src/Section/Said.antt =====
-- What the descriptors of a PMT mean, and that `set_ca` and the loops of apps/dvb/cmds/pmt.c take them so.
use ptx.Base.{
  ℕ, ◌+◌, ◌*◌, ◌/◌, ◌%◌, ◌^◌, ◌≡◌, refl, ap, ◌∙◌, Bool, true, false, ◌&&◌, List, [], ◌∷◌, map, ◌==◌,
  ◌=/=◌, ltb, leb, if◌then◌else◌, arith, Bool-cases, inl, inr,
}
use ptx.Section.Pmt.{Ca, Es, set_ca, prog_desc, es_desc}
use ptx.Section.Descriptors.{Descriptor, desc_bytes, is_whole, all_whole, apply_descs, both_true}

-- A descriptor by what it says: a system of conditional access with the PID of its messages, without
-- or with a type and a second PID; the tag of a component; or anything else.
pub data Said : Type 0 where
  ca_plain : ℕ → ℕ → Said
  ca_full : ℕ → ℕ → ℕ → ℕ → Said
  component : ℕ → Said
  other : ℕ → List ℕ → Said

-- Its bytes. The two bits in front of a PID without more are 0, and 3 with more; a third is set too.
unfoldable pub coded : Said → Descriptor
coded (ca_plain id pid) = record {
  desc_tag = 0x09;
  body = (id / 2 ^ 8) ∷ (id % 2 ^ 8) ∷ (0x20 + pid / 2 ^ 8) ∷ (pid % 2 ^ 8) ∷ [];
}
coded (ca_full id pid kind kc) = record {
  desc_tag = 0x09;
  body =
      (id / 2 ^ 8)
      ∷ (id % 2 ^ 8)
      ∷ (0xe0 + pid / 2 ^ 8)
      ∷ (pid % 2 ^ 8)
      ∷ kind
      ∷ (0xe0 + kc / 2 ^ 8)
      ∷ (kc % 2 ^ 8)
      ∷ [];
}
coded (component t) = record { desc_tag = 0x52; body = t ∷ [] }
coded (other t b) = record { desc_tag = t; body = b }

-- The numbers fit in their bits, and any other descriptor has a tag of its own.
abbrev pub is_sayable : Said → Bool
is_sayable (ca_plain id pid) = ltb pid (2 ^ 13)
is_sayable (ca_full id pid kind kc) = ltb pid (2 ^ 13) && ltb kc (2 ^ 13)
is_sayable (component t) = true
is_sayable (other t b) = (t =/= 0x09) && (t =/= 0x52)

unfoldable pub all_sayable : List Said → Bool
all_sayable [] = true
all_sayable (d ∷ ds) = is_sayable d && all_sayable ds

-- The conditional access that a descriptor leaves: only that of ARIB, number 5, is taken; 0x1fff stands
-- for no second PID.
unfoldable pub access : Said → Ca → Ca
access (ca_plain id pid) old =
    if id == 5 then record { cas_id = id; ca_pid = pid; ca_kc_pid = 0x1fff; kind = 0 } else old
access (ca_full id pid kind kc) old =
    if id == 5 then record { cas_id = id; ca_pid = pid; ca_kc_pid = kc; kind = kind } else old
access (component t) old = old
access (other t b) old = old

unfoldable pub tagged : Said → ℕ → ℕ
tagged (component t) old = t
tagged (ca_plain id pid) old = old
tagged (ca_full id pid kind kc) old = old
tagged (other t b) old = old

unfoldable pub all_access : List Said → Ca → Ca
all_access [] ca = ca
all_access (d ∷ ds) ca = all_access ds (access d ca)

unfoldable pub all_tagged : List Said → ℕ → ℕ
all_tagged [] t = t
all_tagged (d ∷ ds) t = all_tagged ds (tagged d t)

prog_desc-access :
    (d : Said) (ca : Ca) → is_sayable d ≡ true → prog_desc (desc_bytes (coded d)) ca ≡ access d ca
unfolding prog_desc set_ca coded access
prog_desc-access (ca_plain id pid) ca h =
    let number : id / 2 ^ 8 * 2 ^ 8 + id % 2 ^ 8 ≡ id = omega arith in
    let first : (0x20 + pid / 2 ^ 8) % 2 ^ 5 * 2 ^ 8 + pid % 2 ^ 8 ≡ pid = ground (arith, h) in
    let no_more : leb 3 ((0x20 + pid / 2 ^ 8) / 2 ^ 6 % 2 ^ 2) ≡ false = ground (arith, h) in
    elim (Bool-cases (id == 5)) [
      | inl arib ↦
          let taken : (id =/= 5) ≡ false = ground (arith, arib) in
          rw (number, first, no_more, taken, arib) refl
      | inr none_of ↦
          let passed : (id =/= 5) ≡ true = ground (arith, none_of) in
          rw (number, first, no_more, passed, none_of) refl
    ]
prog_desc-access (ca_full id pid kind kc) ca h =
    let number : id / 2 ^ 8 * 2 ^ 8 + id % 2 ^ 8 ≡ id = omega arith in
    let first : (0xe0 + pid / 2 ^ 8) % 2 ^ 5 * 2 ^ 8 + pid % 2 ^ 8 ≡ pid = ground (arith, h) in
    let second : (0xe0 + kc / 2 ^ 8) % 2 ^ 5 * 2 ^ 8 + kc % 2 ^ 8 ≡ kc = ground (arith, h) in
    let more : leb 3 ((0xe0 + pid / 2 ^ 8) / 2 ^ 6 % 2 ^ 2) ≡ true = ground (arith, h) in
    elim (Bool-cases (id == 5)) [
      | inl arib ↦
          let taken : (id =/= 5) ≡ false = ground (arith, arib) in
          rw (number, first, second, more, taken, arib) refl
      | inr none_of ↦
          let passed : (id =/= 5) ≡ true = ground (arith, none_of) in
          rw (number, first, second, more, passed, none_of) refl
    ]
prog_desc-access (component t) ca h = refl
prog_desc-access (other t b) ca h =
    let no_ca : (t == 0x09) ≡ false = ground (arith, h) in rw no_ca refl

es_desc-access :
    (d : Said) (e : Es)
    → is_sayable d ≡ true
    → es_desc (desc_bytes (coded d)) e
      ≡ record e { es_ecm = access d e.es_ecm; tag = tagged d e.tag }
unfolding es_desc prog_desc coded access tagged
es_desc-access (ca_plain id pid) e h =
    ap (λ c. record e { es_ecm = c }) (prog_desc-access (ca_plain id pid) e.es_ecm h)
es_desc-access (ca_full id pid kind kc) e h =
    ap (λ c. record e { es_ecm = c }) (prog_desc-access (ca_full id pid kind kc) e.es_ecm h)
es_desc-access (component t) e h = refl
es_desc-access (other t b) e h =
    let no_ca : (t == 0x09) ≡ false = ground (arith, h) in
    let no_tag : (t == 0x52) ≡ false = ground (arith, h) in rw (no_ca, no_tag) refl

pub prog_descs-access :
    (ds : List Said) (ca : Ca)
    → all_sayable ds ≡ true
    → apply_descs prog_desc (map coded ds) ca ≡ all_access ds ca
unfolding apply_descs all_access all_sayable
prog_descs-access [] ca h = refl
prog_descs-access (d ∷ ds) ca h =
    let (first, others) = both_true (is_sayable d) (all_sayable ds) h in
    ap (apply_descs prog_desc (map coded ds)) (prog_desc-access d ca first)
    ∙ prog_descs-access ds (access d ca) others

pub es_descs-access :
    (ds : List Said) (e : Es)
    → all_sayable ds ≡ true
    → apply_descs es_desc (map coded ds) e
      ≡ record e { es_ecm = all_access ds e.es_ecm; tag = all_tagged ds e.tag }
unfolding apply_descs all_access all_tagged all_sayable
es_descs-access [] e h = refl
es_descs-access (d ∷ ds) e h =
    let (first, others) = both_true (is_sayable d) (all_sayable ds) h in
    ap (apply_descs es_desc (map coded ds)) (es_desc-access d e first)
    ∙ es_descs-access ds (record e { es_ecm = access d e.es_ecm; tag = tagged d e.tag }) others

is_whole-coded : (d : Said) → is_sayable d ≡ true → is_whole (coded d) ≡ true
unfolding coded
is_whole-coded (ca_plain id pid) h = ground (arith, h)
is_whole-coded (ca_full id pid kind kc) h = refl
is_whole-coded (component t) h = refl
is_whole-coded (other t b) h = ground (arith, h)

pub all_whole-coded : (ds : List Said) → all_sayable ds ≡ true → all_whole (map coded ds) ≡ true
unfolding all_sayable all_whole
all_whole-coded [] h = refl
all_whole-coded (d ∷ ds) h =
    let (first, others) = both_true (is_sayable d) (all_sayable ds) h in
    rw (is_whole-coded d first) (all_whole-coded ds others)
