-- ===== src/Section/Descriptors.antt =====
-- The descriptors of a PMT, and that `doPMT` of apps/dvb/cmds/pmt.c reads them.
use ptx.Base.{
  ◌||◌, ◌/◌, ◌%◌, ◌^◌, ℕ, zero, suc, ◌+◌, ◌<◌, ◌≤◌, ◌≡◌, refl, sym, ap, ◌∙◌, Bool, true, false,
  ◌&&◌, some, List, [], ◌∷◌, ◌++◌, append_assoc, ◌==◌, ltb, leb, if◌then◌else◌, arith, drop,
  drop-append_ge, length, length-append, get_or, Bool-cases, inl, inr,
}
use ptx.Splitter.Crc.{byte}
use ptx.Section.Pmt.{desc_ca, desc_stream_id, Ca, Es, set_ca, prog_desc, es_desc, desc_loop}

-- A descriptor, as its tag and its body.
pub record Descriptor : Type 0 where
  pub desc_tag : ℕ
  pub body : List ℕ

-- A stream of a programme.
pub record PmtStream : Type 0 where
  pub kind : ℕ
  pub pid : ℕ
  pub descs : List Descriptor

abbrev pub desc_bytes : Descriptor → List ℕ
desc_bytes d = d.desc_tag ∷ length d.body ∷ d.body

unfoldable pub all_desc_bytes : List Descriptor → List ℕ
all_desc_bytes [] = []
all_desc_bytes (d ∷ ds) = desc_bytes d ++ all_desc_bytes ds

-- The body of a CA descriptor holds the type and the second PID, or neither is there: the type is read
-- behind four bytes, and the second PID where the highest two bits before the first are ones.
abbrev pub holds_ca : List ℕ → Bool
holds_ca body = leb 7 (length body) || ((length body == 4) && ltb (byte body 2) 0xc0)

-- What the code reads of a descriptor is in its body.
abbrev pub is_whole : Descriptor → Bool
is_whole d =
    if d.desc_tag == desc_ca
    then holds_ca d.body
    else if d.desc_tag == desc_stream_id
    then leb 1 (length d.body)
    else true

unfoldable pub all_whole : List Descriptor → Bool
all_whole [] = true
all_whole (d ∷ ds) = is_whole d && all_whole ds

get_or-append_lt :
    (xs ys : List ℕ) (i d : ℕ) → i < length xs → get_or (xs ++ ys) i d ≡ get_or xs i d
get_or-append_lt [] ys i d h = absurd (omega (arith, h))
get_or-append_lt (x ∷ xs) ys zero d h = refl
get_or-append_lt (x ∷ xs) ys (suc i) d h = get_or-append_lt xs ys i d (omega (arith, h))

set_ca-long :
    (d : Descriptor) (rest : List ℕ) (filter : Bool) (ca : Ca)
    → 7 ≤ length d.body
    → set_ca (desc_bytes d ++ rest) filter ca ≡ set_ca (desc_bytes d) filter ca
unfolding set_ca
set_ca-long d rest filter ca h =
    let b = d.body in
    rw
      (
        get_or-append_lt b rest 0 0 (omega (arith, h)),
        get_or-append_lt b rest 1 0 (omega (arith, h)),
        get_or-append_lt b rest 2 0 (omega (arith, h)),
        get_or-append_lt b rest 3 0 (omega (arith, h)),
        get_or-append_lt b rest 4 0 (omega (arith, h)),
        get_or-append_lt b rest 5 0 (omega (arith, h)),
        get_or-append_lt b rest 6 0 (omega (arith, h)),
      )
      refl

set_ca-short :
    (d : Descriptor) (rest : List ℕ) (filter : Bool) (ca : Ca)
    → length d.body ≡ 4
    → byte d.body 2 < 0xc0
    → set_ca (desc_bytes d ++ rest) filter ca ≡ set_ca (desc_bytes d) filter ca
unfolding set_ca
set_ca-short d rest filter ca four low =
    let b = d.body in
    let no_type : ltb 4 (length b) ≡ false = ground (arith, four) in
    let no_pid : leb 3 (get_or b 2 0 / 2 ^ 6 % 2 ^ 2) ≡ false = ground (arith, low) in
    rw
      (
        get_or-append_lt b rest 0 0 (omega (arith, four)),
        get_or-append_lt b rest 1 0 (omega (arith, four)),
        get_or-append_lt b rest 2 0 (omega (arith, four)),
        get_or-append_lt b rest 3 0 (omega (arith, four)),
        no_type,
        no_pid,
      )
      refl

set_ca-whole :
    (d : Descriptor) (rest : List ℕ) (filter : Bool) (ca : Ca)
    → holds_ca d.body ≡ true
    → set_ca (desc_bytes d ++ rest) filter ca ≡ set_ca (desc_bytes d) filter ca
set_ca-whole d rest filter ca h = elim (Bool-cases (leb 7 (length d.body))) [
  | inl long ↦ set_ca-long d rest filter ca (ground (arith, long))
  | inr not_long ↦
      set_ca-short d rest filter ca (ground (arith, not_long, h)) (ground (arith, not_long, h))
]

pub prog_desc-whole :
    (d : Descriptor) (rest : List ℕ) (ca : Ca)
    → is_whole d ≡ true
    → prog_desc (desc_bytes d ++ rest) ca ≡ prog_desc (desc_bytes d) ca
unfolding prog_desc
prog_desc-whole d rest ca h = elim (Bool-cases (d.desc_tag == desc_ca)) [
  | inl is_ca ↦ rw (is_ca) (set_ca-whole d rest true ca (rw is_ca at h))
  | inr other ↦ rw (other) refl
]

pub es_desc-whole :
    (d : Descriptor) (rest : List ℕ) (e : Es)
    → is_whole d ≡ true
    → es_desc (desc_bytes d ++ rest) e ≡ es_desc (desc_bytes d) e
unfolding es_desc
es_desc-whole d rest e h = elim (Bool-cases (d.desc_tag == desc_ca)) [
  | inl is_ca ↦
      rw (is_ca)
        (ap (λ ca. record e { es_ecm = ca }) (set_ca-whole d rest true e.es_ecm (rw is_ca at h)))
  | inr other ↦ elim (Bool-cases (d.desc_tag == desc_stream_id)) [
    | inl is_id ↦
        rw (other, is_id)
          (ap (λ t. record e { tag = t })
            (get_or-append_lt d.body rest 0 0 (ground (arith, other, is_id, h))))
    | inr none_of ↦ rw (other, none_of) refl
  ]
]

-- What a list of descriptors changes.
unfoldable pub apply_descs : {S : Type 0} → (List ℕ → S → S) → List Descriptor → S → S
apply_descs handle [] s = s
apply_descs handle (d ∷ ds) s = apply_descs handle ds (handle (desc_bytes d) s)

pub both_true : (a b : Bool) → (a && b) ≡ true → (a ≡ true) × (b ≡ true)
both_true true b h = (refl, h)
both_true false b h = absurd (cc h)

pub drop-front : (pre rest : List ℕ) (b : ℕ) → b ≡ length pre → drop b (pre ++ rest) ≡ rest
drop-front pre rest b e = drop-append_ge b 0 pre rest (omega (arith, e))

module _ {S : Type 0} (handle : List ℕ → S → S)
    (local : (d : Descriptor) (rest : List ℕ) (s : S)
      → is_whole d ≡ true
      → handle (desc_bytes d ++ rest) s ≡ handle (desc_bytes d) s) where
  desc_loop-step :
      (d : Descriptor) (pre rest : List ℕ) (fuel i n b : ℕ) (s : S)
      → b ≡ length pre
      → i < n
      → is_whole d ≡ true
      → desc_loop handle (pre ++ (desc_bytes d ++ rest)) (suc fuel) i n b s
        ≡ desc_loop handle
            (pre ++ (desc_bytes d ++ rest))
            fuel
            (i + (length d.body + 2))
            n
            (b + (length d.body + 2))
            (handle (desc_bytes d) s)
  unfolding desc_loop
  desc_loop-step d pre rest fuel i n b s e h whole =
      let buf = pre ++ (desc_bytes d ++ rest) in
      let more : ltb i n ≡ true = ground (arith, h) in
      let at : drop b buf ≡ desc_bytes d ++ rest = drop-front pre (desc_bytes d ++ rest) b e in
      let first : desc_loop handle buf (suc fuel) i n b s
          ≡ desc_loop handle buf fuel (i + (byte (drop b buf) 1 + 2)) n
              (b + (byte (drop b buf) 1 + 2)) (handle (drop b buf) s) =
        rw (desc_loop, more) refl in
      first
      ∙ ap (λ l. desc_loop handle buf fuel (i + (byte l 1 + 2)) n (b + (byte l 1 + 2)) (handle l s))
          at
      ∙ ap (desc_loop handle buf fuel (i + (length d.body + 2)) n (b + (length d.body + 2)))
          (local d rest s whole)

  pub desc_loop-reads :
      (ds : List Descriptor) (pre rest : List ℕ) (fuel i n b : ℕ) (s : S)
      → b ≡ length pre
      → n ≡ i + length (all_desc_bytes ds)
      → length (all_desc_bytes ds) < fuel
      → all_whole ds ≡ true
      → desc_loop handle (pre ++ (all_desc_bytes ds ++ rest)) fuel i n b s
        ≡ some (b + length (all_desc_bytes ds), apply_descs handle ds s)
  unfolding desc_loop all_desc_bytes all_whole apply_descs
  desc_loop-reads ds pre rest zero i n b s e en h whole = absurd (omega (arith, h))
  desc_loop-reads [] pre rest (suc fuel) i n b s e en h whole =
      let over : ltb i n ≡ false = ground (arith, en) in
      let same : b ≡ b + 0 = omega arith in rw (desc_loop, over) (ap (λ k. some (k, s)) same)
  desc_loop-reads (d ∷ ds) pre rest (suc fuel) i n b s e en h whole =
      let len = length-append (desc_bytes d) (all_desc_bytes ds) in
      let k = length d.body + 2 in
      let later = all_desc_bytes ds ++ rest in
      let regroup : pre ++ ((desc_bytes d ++ all_desc_bytes ds) ++ rest)
          ≡ pre ++ (desc_bytes d ++ later) =
        ap (λ l. pre ++ l) (append_assoc (desc_bytes d) (all_desc_bytes ds) rest) in
      let join : pre ++ (desc_bytes d ++ later) ≡ pre ++ desc_bytes d ++ later =
        sym (append_assoc pre (desc_bytes d) later) in
      let first : is_whole d ≡ true = (both_true (is_whole d) (all_whole ds) whole).0 in
      let others : all_whole ds ≡ true = (both_true (is_whole d) (all_whole ds) whole).1 in
      ap (λ l. desc_loop handle l (suc fuel) i n b s) regroup
      ∙ desc_loop-step d pre later fuel i n b s e (omega (arith, en, len)) first
      ∙ ap (λ l. desc_loop handle l fuel (i + k) n (b + k) (handle (desc_bytes d) s)) join
      ∙ desc_loop-reads ds (pre ++ desc_bytes d) rest fuel (i + k) n (b + k)
          (handle (desc_bytes d) s) (omega (arith, e, length-append pre (desc_bytes d)))
          (omega (arith, en, len)) (omega (arith, h, len)) others
      ∙ ap (λ m. some (m, apply_descs handle ds (handle (desc_bytes d) s))) (omega (arith, len))
