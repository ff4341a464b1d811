-- ===== src/Stamps/Sequence.antt =====
-- That the loop of apps/dvb/cmds/fixpcr.c which skips bytes finds the first sequence header.
use ptx.Base.{
  ℕ, zero, suc, ◌+◌, ◌-◌, ◌<◌, ◌≤◌, ◌≡◌, ◌⊎◌, inl, inr, refl, sym, ap, ap₂, ◌∙◌, Bool, true, false,
  ◌&&◌, ◌||◌, Option, none, some, List, ◌==◌, ◌=/=◌, ltb, if◌then◌else◌, arith, ltb→lt, ltb-ge,
  Bool-cases,
}
use ptx.Splitter.Crc.{byte}
use ptx.Stamps.Packet.{skip, find_sequence}

-- The bytes 00 00 01 b3.
abbrev pub is_header : ℕ → ℕ → ℕ → ℕ → Bool
is_header a b c d = (a == 0) && (b == 0) && (c == 1) && (d == 0xb3)

abbrev pub header_at : List ℕ → ℕ → Bool
header_at buf j = is_header (byte buf j) (byte buf (j + 1)) (byte buf (j + 2)) (byte buf (j + 3))

-- The first header of those at `left` places from `j` on, each of which is looked at.
unfoldable pub first_header : List ℕ → ℕ → ℕ → Option ℕ
first_header buf zero j = none
first_header buf (suc left) j =
    let rest = first_header buf left (j + 1) in if header_at buf j then some j else rest

abbrev skip_of : ℕ → ℕ → ℕ → ℕ → ℕ
skip_of a b c d =
    if b =/= 0
    then 2
    else if ltb 1 c
    then 3
    else if c == 0
    then 1
    else if (a =/= 0) || (d =/= 0xb3)
    then 3
    else 0

-- What the bytes that are skipped are not, where `e` and `f` are the two that follow.
skip_of-cases :
    (a b c d e f : ℕ)
    → ((skip_of a b c d ≡ 0) × (is_header a b c d ≡ true))
      ⊎ ((skip_of a b c d ≡ 1) × (is_header a b c d ≡ false))
      ⊎ ((skip_of a b c d ≡ 2) × (is_header a b c d ≡ false) × (is_header b c d e ≡ false))
      ⊎ ((skip_of a b c d ≡ 3)
          × (is_header a b c d ≡ false)
          × (is_header b c d e ≡ false)
          × (is_header c d e f ≡ false))
skip_of-cases a b c d e f = elim (Bool-cases (b =/= 0)) [
  | inl h1 ↦ inr (inr (inl (rw h1 refl, ground (arith, h1), ground (arith, h1))))
  | inr h1 ↦ elim (Bool-cases (ltb 1 c)) [
    | inl h2 ↦
        inr
          (inr (inr (rw (h1, h2) refl, ground (arith, h2), ground (arith, h2), ground (arith, h2))))
    | inr h2 ↦ elim (Bool-cases (c == 0)) [
      | inl h3 ↦ inr (inl (rw (h1, h2, h3) refl, ground (arith, h3)))
      | inr h3 ↦ elim (Bool-cases ((a =/= 0) || (d =/= 0xb3))) [
        | inl h4 ↦ inr (
            inr (
              inr (
                rw (h1, h2, h3, h4) refl,
                ground (arith, h4),
                ground (arith, h3),
                ground (arith, h3),
              )))
        | inr h4 ↦ inl (rw (h1, h2, h3, h4) refl, ground (arith, h1, h2, h3, h4))
      ]
    ]
  ]
]

first_header-step :
    (buf : List ℕ) (left j : ℕ)
    → header_at buf j ≡ false
    → first_header buf left j ≡ first_header buf (left - 1) (j + 1)
unfolding first_header
first_header-step buf zero j h = refl
first_header-step buf (suc left) j h =
    rw (first_header, h) (ap (λ n. first_header buf n (j + 1)) (omega arith))

first_header-to :
    (buf : List ℕ) (left j left' j' k1 k2 k3 : ℕ)
    → k1 ≡ j + 1
    → k2 ≡ j + 2
    → k3 ≡ j + 3
    → is_header (byte buf j) (byte buf k1) (byte buf k2) (byte buf k3) ≡ false
    → left' ≡ left - 1
    → j' ≡ j + 1
    → first_header buf left j ≡ first_header buf left' j'
first_header-to buf left j left' j' k1 k2 k3 e1 e2 e3 h el ej =
    let none_here : header_at buf j ≡ false = rw (sym e1, sym e2, sym e3) h in
    first_header-step buf left j none_here ∙ ap₂ (λ l m. first_header buf l m) (sym el) (sym ej)

-- As many steps as bytes that are skipped.
first_header-skip :
    (buf : List ℕ) (left j n : ℕ)
    → skip buf j ≡ n
    → ((n ≡ 0) × (header_at buf j ≡ true))
      ⊎ ((0 < n) × (first_header buf left j ≡ first_header buf (left - n) (j + n)))
unfolding skip
first_header-skip buf left j n en =
    elim (skip_of-cases (byte buf j) (byte buf (j + 1)) (byte buf (j + 2)) (byte buf (j + 3))
      (byte buf (j + 4)) (byte buf (j + 5))) [
        | inl (e, h) ↦ inl (sym en ∙ e, h)
        | inr (inl (e, h)) ↦
            let n1 : n ≡ 1 = sym en ∙ e in
            inr (
              omega (arith, n1),
              first_header-to buf left j (left - n) (j + n) (j + 1) (j + 2) (j + 3) refl refl refl h
                  (omega (arith, n1)) (omega (arith, n1)),
            )
        | inr (inr (inl (e, h, h'))) ↦
            let n2 : n ≡ 2 = sym en ∙ e in
            inr (
              omega (arith, n2),
              first_header-to buf left j (left - 1) (j + 1) (j + 1) (j + 2) (j + 3) refl refl refl h
                    refl refl
                  ∙ first_header-to buf (left - 1) (j + 1) (left - n) (j + n) (j + 2) (j + 3)
                      (j + 4) (omega arith) (omega arith) (omega arith) h' (omega (arith, n2))
                      (omega (arith, n2)),
            )
        | inr (inr (inr (e, h, h', h''))) ↦
            let n3 : n ≡ 3 = sym en ∙ e in
            inr (
              omega (arith, n3),
              first_header-to buf left j (left - 1) (j + 1) (j + 1) (j + 2) (j + 3) refl refl refl h
                    refl refl
                  ∙ first_header-to buf (left - 1) (j + 1) (left - 2) (j + 2) (j + 2) (j + 3)
                      (j + 4) (omega arith) (omega arith) (omega arith) h' (omega arith)
                      (omega arith)
                  ∙ first_header-to buf (left - 2) (j + 2) (left - n) (j + n) (j + 3) (j + 4)
                      (j + 5) (omega arith) (omega arith) (omega arith) h'' (omega (arith, n3))
                      (omega (arith, n3)),
            )
      ]

-- The loop ends, and finds the first of the sequence headers that begin in the packet eight bytes or more
-- before its end, if there is one, although it goes on by up to three bytes at a time.
pub find_sequence-first :
    (buf : List ℕ) (fuel j : ℕ)
    → 0 < fuel
    → 182 ≤ j + fuel
    → find_sequence buf fuel j ≡ some (first_header buf (181 - j) j)
unfolding find_sequence first_header
find_sequence-first buf zero j some_fuel h = absurd (omega (arith, some_fuel))
find_sequence-first buf (suc fuel) j some_fuel h =
    let n = skip buf j in
    elim (Bool-cases (ltb (j + 7) 188)) [
      | inr out ↦
          let after = ltb-ge (j + 7) 188 out in
          let no_place : 181 - j ≡ 0 = omega (arith, after) in
          rw (find_sequence, out, no_place) refl
      | inl inside ↦
          let before = ltb→lt (j + 7) 188 inside in
          elim (first_header-skip buf (181 - j) j n refl) [
            | inl (e, here) ↦
                let places : 181 - j ≡ suc (180 - j) = omega (arith, before) in
                rw (find_sequence, inside, e, places, here) refl
            | inr (e, same) ↦
                let moves : (n == 0) ≡ false = ground (arith, e) in
                let rest =
                  find_sequence-first buf fuel (j + n) (omega (arith, h, before))
                    (omega (arith, h, e)) in
                let left : 181 - (j + n) ≡ 181 - j - n = omega arith in
                rw (find_sequence, inside, moves, rest, left, same) refl
          ]
    ]
