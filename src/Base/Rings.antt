-- ===== src/Base/Rings.antt =====
-- Arrays read and written round their end.
use Prim.Native.Nat.{ℕ, zero, suc, ◌+◌, ◌-◌, ◌%◌, ◌<◌, ◌≤◌}
use mathlib.Core.Path.{◌≡◌, refl, ap, ap₂, sym, ◌∙◌}
use mathlib.Core.Logic.{inl, inr}
use mathlib.Core.List.{List, [], ◌∷◌, ◌++◌, append_assoc, append-nil}
use native.Mathlib.Omega.{arith}
use native.Mathlib.Nat.{mod-eq_of_lt, mod_self, mod-eq-sub-mod}
use ptx.Base.Tests.{ltb, ltb→lt, ltb-ge, Bool-cases}
use ptx.Base.Lists.{get_or, take, drop, length, length-take, length-drop, length-append}
use ptx.Base.Slices.{
  last, ring, take-append_le, take-append_ge, drop-append_le, drop-append_ge, drop-drop,
  take-drop_join, drop_all, take_all, append-take-drop, take-take,
}

module _ {ℓ} {A : Type ℓ} where
  pub length-ring : (i : ℕ) (xs : List A) → i ≤ length xs → length (ring i xs) ≡ length xs
  unfolding ring
  length-ring i xs h =
      omega (arith, h, length-append (drop i xs) (take i xs), length-drop i xs, length-take i xs)

  ring_end : (xs : List A) (n : ℕ) → n ≡ length xs → ring n xs ≡ ring 0 xs
  unfolding ring
  ring_end xs n e =
      ap₂ (λ a b. a ++ b) (drop_all n xs (omega (arith, e))) (take_all n xs (omega (arith, e)))
      ∙ sym (append-nil xs)

  -- An index that reached the end is back at the start.
  pub ring-wrap :
      (xs : List A) (i j : ℕ)
      → 0 < length xs
      → i ≤ length xs
      → j ≡ i % length xs
      → ring j xs ≡ ring i xs
  ring-wrap xs i j pos h e = elim (Bool-cases (ltb i (length xs))) [
    | inl less ↦
        let same : j ≡ i = e ∙ mod-eq_of_lt (ltb→lt i (length xs) less) in ap (λ k. ring k xs) same
    | inr more ↦
        let full : i ≡ length xs = omega (arith, h, ltb-ge i (length xs) more) in
        let zeroth : j ≡ 0 = e ∙ ap (λ k. k % length xs) full ∙ mod_self (length xs) in
        ap (λ k. ring k xs) zeroth ∙ sym (ring_end xs i full)
  ]

  ring-ring_short :
      (s c : ℕ) (xs : List A) → s + c ≤ length xs → ring c (ring s xs) ≡ ring (s + c) xs
  unfolding ring
  ring-ring_short s c xs h =
      let within : c ≤ length (drop s xs) = omega (arith, h, length-drop s xs) in
      ap₂ (λ a b. a ++ b)
        (drop-append_le c (drop s xs) (take s xs) within
          ∙ ap (λ l. l ++ take s xs) (drop-drop s c (s + c) xs refl))
        (take-append_le c (drop s xs) (take s xs) within)
      ∙ append_assoc (drop (s + c) xs) (take s xs) (take c (drop s xs))
      ∙ ap (λ l. drop (s + c) xs ++ l) (take-drop_join s c (s + c) xs refl)

  ring-ring_long :
      (s c r : ℕ) (xs : List A)
      → s ≤ length xs
      → s + c ≡ length xs + r
      → r ≤ s
      → ring c (ring s xs) ≡ ring r xs
  unfolding ring
  ring-ring_long s c r xs h e hr =
      let past : c ≡ length (drop s xs) + r = omega (arith, h, e, length-drop s xs) in
      ap₂ (λ a b. a ++ b) (drop-append_ge c r (drop s xs) (take s xs) past)
        (take-append_ge c r (drop s xs) (take s xs) past
          ∙ ap (λ l. drop s xs ++ l) (take-take r s xs hr))
      ∙ sym (append_assoc (drop r (take s xs)) (drop s xs) (take r xs))
      ∙ ap (λ l. l ++ take r xs)
          (sym (drop-append_le r (take s xs) (drop s xs) (omega (arith, h, hr, length-take s xs)))
            ∙ ap (drop r) (append-take-drop s xs))

  -- A ring turned twice is turned once, by the sum.
  pub ring-ring :
      (s c j : ℕ) (xs : List A)
      → s < length xs
      → c ≤ length xs
      → j ≡ (s + c) % length xs
      → ring c (ring s xs) ≡ ring j xs
  ring-ring s c j xs hs hc e = elim (Bool-cases (ltb (length xs) (s + c))) [
    | inl long ↦
        let past = ltb→lt (length xs) (s + c) long in
        let over : s + c ≡ length xs + (s + c - length xs) = omega (arith, past) in
        let back : j ≡ s + c - length xs =
          e ∙ mod-eq-sub-mod (omega (arith, past)) ∙ mod-eq_of_lt (omega (arith, hs, hc, past)) in
        ring-ring_long s c (s + c - length xs) xs (omega (arith, hs)) over (omega (arith, hc))
        ∙ ap (λ k. ring k xs) (sym back)
    | inr short ↦
        let within = ltb-ge (length xs) (s + c) short in
        ring-ring_short s c xs within ∙ sym (ring-wrap xs (s + c) j (omega (arith, hs)) within e)
  ]

  -- A ring that has turned by `c` ends with the `c` elements that were first.
  pub drop-ring :
      (c n : ℕ) (xs : List A) → c ≤ length xs → n ≡ length xs - c → drop n (ring c xs) ≡ take c xs
  unfolding ring
  drop-ring c n xs h e =
      drop-append_ge n 0 (drop c xs) (take c xs) (omega (arith, h, e, length-drop c xs))

  pub last_is : (n k : ℕ) (xs : List A) → k ≡ length xs - n → drop k xs ≡ last n xs
  unfolding last
  last_is n k xs e = ap (λ j. drop j xs) e

  pub last_whole : (n : ℕ) (xs : List A) → length xs ≤ n → last n xs ≡ xs
  last_whole n xs h = sym (last_is n 0 xs (omega (arith, h)))

  -- What was cut off before more came would be cut off after.
  pub last-append_last : (n : ℕ) (xs ys : List A) → last n (last n xs ++ ys) ≡ last n (xs ++ ys)
  last-append_last n xs ys =
      let k = length xs - n in
      let m = length (drop k xs ++ ys) - n in
      let joined : drop k xs ++ ys ≡ drop k (xs ++ ys) =
        sym (drop-append_le k xs ys (omega arith)) in
      ap (λ l. last n (l ++ ys)) (sym (last_is n k xs refl))
      ∙ sym (last_is n m (drop k xs ++ ys) refl)
      ∙ ap (drop m) joined
      ∙ drop-drop k m (k + m) (xs ++ ys) refl
      ∙ last_is n (k + m) (xs ++ ys)
          (omega (arith, length-append xs ys, length-append (drop k xs) ys, length-drop k xs))

  pub ring_is : (i : ℕ) (xs : List A) → ring i xs ≡ drop i xs ++ take i xs
  unfolding ring
  ring_is i xs = refl

  -- The first `c` from the read index on are the last `c` from the write index on.
  pub take-ring :
      (s c j : ℕ) (xs : List A)
      → s < length xs
      → c ≤ length xs
      → j ≡ (s + c) % length xs
      → take c (ring s xs) ≡ drop (length xs - c) (ring j xs)
  take-ring s c j xs hs hc e =
      let n = length-ring s xs (omega (arith, hs)) in
      sym (drop-ring c (length xs - c) (ring s xs) (omega (arith, n, hc)) (omega (arith, n)))
      ∙ ap (drop (length xs - c)) (ring-ring s c j xs hs hc e)

  pub drop-get_or :
      (i : ℕ) (xs : List A) (d : A) → i < length xs → drop i xs ≡ get_or xs i d ∷ drop (i + 1) xs
  drop-get_or i [] d h = absurd (omega (arith, h))
  drop-get_or zero (x ∷ xs) d h = refl
  drop-get_or (suc i) (x ∷ xs) d h =
      let next : suc (i + 1) ≡ suc i + 1 = omega arith in
      drop-get_or i xs d (omega (arith, h)) ∙ ap (λ k. get_or xs i d ∷ drop k (x ∷ xs)) next

  pub ring-head :
      (i : ℕ) (xs : List A) (d : A) → i < length xs → ring i xs ≡ get_or xs i d ∷ drop 1 (ring i xs)
  unfolding ring
  ring-head i xs d h =
      let e = drop-get_or i xs d h in
      ap (λ l. l ++ take i xs) e ∙ ap (λ l. get_or xs i d ∷ drop 1 (l ++ take i xs)) (sym e)
