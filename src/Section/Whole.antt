-- ===== src/Section/Whole.antt =====
-- That `doSection` of apps/dvb/cmds/section.c puts a section together from the packets that carry it.
use ptx.Base.{
  ℕ, zero, suc, ◌+◌, ◌-◌, ◌*◌, ◌%◌, ◌^◌, ◌<◌, ◌≤◌, ◌≡◌, refl, ap, ap₂, sym, ◌∙◌, ◌||◌, Option, none,
  some, List, [], ◌∷◌, ◌++◌, append_assoc, ◌==◌, ltb, take, drop, length, arith, Bool-cases,
  Option-cases, ◌⊎◌, inl, inr, length-take,
}
use ptx.Section.Assemble.{Secbuf, packet_byte, copy, call, start_loop}

module _ {D : Type 0} (cb : List ℕ → D → ℕ × D) where
  -- A round of the loop, whatever fuel is left: it is the last, or it goes on with three bytes less or
  -- fewer still.
  abbrev Ends : List ℕ → ℕ → ℕ → ℕ → Secbuf → D → Type 0
  Ends packet b nlen ret sec d =
      (r : Option (ℕ × Secbuf × D)) × ((fuel : ℕ)
        → start_loop cb (suc fuel) packet b nlen ret sec d ≡ r)

  abbrev GoesOn : List ℕ → ℕ → ℕ → ℕ → Secbuf → D → Type 0
  GoesOn packet b nlen ret sec d =
      (b' : ℕ) × (n' : ℕ) × (ret' : ℕ) × (sec' : Secbuf) × (d' : D) × (n' + 3 ≤ nlen)
      × ((fuel : ℕ)
          → start_loop cb (suc fuel) packet b nlen ret sec d
            ≡ start_loop cb fuel packet b' n' ret' sec' d')

  one_round :
      (packet : List ℕ) (b nlen ret : ℕ) (sec : Secbuf) (d : D)
      → Ends packet b nlen ret sec d ⊎ GoesOn packet b nlen ret sec d
  unfolding start_loop
  one_round packet b nlen ret sec d =
      let size = packet_byte packet (b + 1) % 2 ^ 4 * 2 ^ 8 + packet_byte packet (b + 2) + 3 in
      let sec1 : Secbuf = record sec { len = size; cur = 0; cc = packet_byte packet 3 % 2 ^ 4 } in
      elim (Bool-cases (ltb nlen 3 || (packet_byte packet b == 0xff))) [
        | inl end ↦ inl (some (ret, sec, d), λ fuel. rw (start_loop, end) refl)
        | inr go ↦ elim (Bool-cases (ltb 188 (b + 3))) [
          | inl behind ↦ inl (none, λ fuel. rw (start_loop, go, behind) refl)
          | inr header ↦ elim (Bool-cases (ltb sec.max size)) [
            | inl long ↦ inl (
              some (ret, record sec1 { len = 0 }, d),
              λ fuel. rw (start_loop, go, header, long) refl,
            )
            | inr short ↦ elim (Bool-cases (ltb nlen size)) [
              | inl part ↦ elim (Option-cases (copy packet b 0 nlen sec1)) [
                | inl over ↦ inl (none, λ fuel. rw (start_loop, go, header, short, part, over) refl)
                | inr (sec2, fine) ↦ inl (
                  some (ret, record sec2 { cur = nlen }, d),
                  λ fuel. rw (start_loop, go, header, short, part, fine) refl,
                )
              ]
              | inr all ↦ elim (Option-cases (copy packet b 0 size sec1)) [
                | inl over ↦ inl (none, λ fuel. rw (start_loop, go, header, short, all, over) refl)
                | inr (sec2, fine) ↦
                    let (ret', sec3, d') = call cb ret sec2 d in
                    inr (
                      b + size,
                      nlen - size,
                      ret',
                      sec3,
                      d',
                      ground (arith, all),
                      λ fuel. rw (start_loop, go, header, short, all, fine) refl,
                    )
              ]
            ]
          ]
        ]
      ]

  -- Where the loop is allowed more rounds than a third of the bytes that are left, one round more
  -- changes nothing.
  pub start_loop_enough :
      (fuel : ℕ) (packet : List ℕ) (b nlen ret : ℕ) (sec : Secbuf) (d : D)
      → nlen < 3 * fuel
      → start_loop cb (suc fuel) packet b nlen ret sec d
        ≡ start_loop cb fuel packet b nlen ret sec d
  start_loop_enough zero packet b nlen ret sec d h = absurd (omega (arith, h))
  start_loop_enough (suc fuel) packet b nlen ret sec d h =
      elim (one_round packet b nlen ret sec d) [
        | inl (r, e) ↦ e (suc fuel) ∙ sym (e fuel)
        | inr (b', n', ret', sec', d', less, e) ↦
            e (suc fuel)
            ∙ (start_loop_enough fuel packet b' n' ret' sec' d' (omega (arith, h, less))
                ∙ sym (e fuel))
      ]

take-nil : (n : ℕ) → take {A = ℕ} n [] ≡ []
take-nil zero = refl
take-nil (suc n) = refl

take-split : (m n : ℕ) (s : List ℕ) → take m s ++ take n (drop m s) ≡ take (m + n) s
take-split zero n s = let e : n ≡ 0 + n = omega arith in ap (λ k. take k s) e
take-split (suc m) n [] = take-nil n ∙ sym (take-nil (suc m + n))
take-split (suc m) n (x ∷ s) =
    let e : suc (m + n) ≡ suc m + n = omega arith in
    ap (λ l. x ∷ l) (take-split m n s) ∙ ap (λ k. take k (x ∷ s)) e

take-front : (a c : List ℕ) (n : ℕ) → n ≡ length a → take n (a ++ c) ≡ a
take-front [] c n e = ap (λ k. take k c) e
take-front (x ∷ a) c zero e = absurd (omega arith)
take-front (x ∷ a) c (suc n) e = ap (λ l. x ∷ l) (take-front a c n (omega arith))

pub take-all : (s : List ℕ) (n : ℕ) → n ≡ length s → take n s ≡ s
take-all [] zero e = refl
take-all [] (suc n) e = refl
take-all (x ∷ s) zero e = absurd (omega arith)
take-all (x ∷ s) (suc n) e = ap (λ l. x ∷ l) (take-all s n (omega arith))

-- The bytes up to `cur + n` of a buffer, after `n` bytes have been put behind `cur` others.
pub take-written :
    (cur n : ℕ) (buf bytes tail s : List ℕ)
    → take cur buf ≡ take cur s
    → bytes ≡ take n (drop cur s)
    → cur + n ≤ length s
    → take (cur + n) (take cur buf ++ (bytes ++ tail)) ≡ take (cur + n) s
take-written cur n buf bytes tail s e f h =
    let front = take cur buf ++ bytes in
    let whole : front ≡ take (cur + n) s = ap₂ (λ x y. x ++ y) e f ∙ take-split cur n s in
    let size : cur + n ≡ length front =
      omega (arith, ap length whole, length-take (cur + n) s, h) in
    ap (take (cur + n)) (sym (append_assoc (take cur buf) bytes tail))
    ∙ (take-front front tail (cur + n) size ∙ whole)
