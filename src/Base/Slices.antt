-- ===== src/Base/Slices.antt =====
-- Parts of C arrays: what `take`, `drop` and `++` do to each other, and rings.
use Prim.Native.Nat.{ℕ, zero, suc, ◌+◌, ◌-◌, ◌≤◌}
use mathlib.Core.Path.{◌≡◌, refl, ap, sym, ◌∙◌}
use mathlib.Core.List.{List, [], ◌∷◌, ◌++◌}
use mathlib.Core.Option.{Option, none, some}
use native.Mathlib.Omega.{arith}
use ptx.Base.Tests.{if◌then◌else◌, leb}
use ptx.Base.Lists.{take, drop, length}

module _ {ℓ} {A : Type ℓ} where
  -- `memcpy` into an array at an index: nothing where it would pass the end.
  unfoldable pub memcpy : List A → ℕ → List A → Option (List A)
  memcpy dst i src =
      if leb (i + length src) (length dst)
      then some (take i dst ++ (src ++ drop (i + length src) dst))
      else none

  -- The last `n`.
  unfoldable pub last : ℕ → List A → List A
  last n xs = drop (length xs - n) xs

  -- What the elements of a ring are from index `i` on.
  unfoldable pub ring : ℕ → List A → List A
  ring i xs = drop i xs ++ take i xs

module _ {ℓ} {A : Type ℓ} where
  pub take-nil : (n : ℕ) → take {A = A} n [] ≡ []
  take-nil zero = refl
  take-nil (suc n) = refl

  pub drop-nil : (n : ℕ) → drop {A = A} n [] ≡ []
  drop-nil zero = refl
  drop-nil (suc n) = refl

  pub take_all : (n : ℕ) (xs : List A) → length xs ≤ n → take n xs ≡ xs
  take_all n [] h = take-nil n
  take_all zero (x ∷ xs) h = absurd (omega (arith, h))
  take_all (suc n) (x ∷ xs) h = ap (λ l. x ∷ l) (take_all n xs (omega (arith, h)))

  pub drop_all : (n : ℕ) (xs : List A) → length xs ≤ n → drop n xs ≡ []
  drop_all n [] h = drop-nil n
  drop_all zero (x ∷ xs) h = absurd (omega (arith, h))
  drop_all (suc n) (x ∷ xs) h = drop_all n xs (omega (arith, h))

  pub append-take-drop : (n : ℕ) (xs : List A) → take n xs ++ drop n xs ≡ xs
  append-take-drop zero xs = refl
  append-take-drop (suc n) [] = refl
  append-take-drop (suc n) (x ∷ xs) = ap (λ l. x ∷ l) (append-take-drop n xs)

  pub take-append_le : (n : ℕ) (xs ys : List A) → n ≤ length xs → take n (xs ++ ys) ≡ take n xs
  take-append_le zero xs ys h = refl
  take-append_le (suc n) [] ys h = absurd (omega (arith, h))
  take-append_le (suc n) (x ∷ xs) ys h = ap (λ l. x ∷ l) (take-append_le n xs ys (omega (arith, h)))

  pub drop-append_le :
      (n : ℕ) (xs ys : List A) → n ≤ length xs → drop n (xs ++ ys) ≡ drop n xs ++ ys
  drop-append_le zero xs ys h = refl
  drop-append_le (suc n) [] ys h = absurd (omega (arith, h))
  drop-append_le (suc n) (x ∷ xs) ys h = drop-append_le n xs ys (omega (arith, h))

  pub take-append_ge :
      (n k : ℕ) (xs ys : List A) → n ≡ length xs + k → take n (xs ++ ys) ≡ xs ++ take k ys
  take-append_ge n k [] ys h = let e : n ≡ k = omega (arith, h) in ap (λ m. take m ys) e
  take-append_ge zero k (x ∷ xs) ys h = absurd (omega (arith, h))
  take-append_ge (suc n) k (x ∷ xs) ys h =
      ap (λ l. x ∷ l) (take-append_ge n k xs ys (omega (arith, h)))

  pub drop-append_ge :
      (n k : ℕ) (xs ys : List A) → n ≡ length xs + k → drop n (xs ++ ys) ≡ drop k ys
  drop-append_ge n k [] ys h = let e : n ≡ k = omega (arith, h) in ap (λ m. drop m ys) e
  drop-append_ge zero k (x ∷ xs) ys h = absurd (omega (arith, h))
  drop-append_ge (suc n) k (x ∷ xs) ys h = drop-append_ge n k xs ys (omega (arith, h))

  pub drop-drop : (m n k : ℕ) (xs : List A) → k ≡ m + n → drop n (drop m xs) ≡ drop k xs
  drop-drop zero n k xs h = let e : n ≡ k = omega (arith, h) in ap (λ j. drop j xs) e
  drop-drop (suc m) n k [] h = drop-nil n ∙ sym (drop-nil k)
  drop-drop (suc m) n zero (x ∷ xs) h = absurd (omega (arith, h))
  drop-drop (suc m) n (suc k) (x ∷ xs) h = drop-drop m n k xs (omega (arith, h))

  pub take-take : (m n : ℕ) (xs : List A) → m ≤ n → take m (take n xs) ≡ take m xs
  take-take zero n xs h = refl
  take-take (suc m) zero xs h = absurd (omega (arith, h))
  take-take (suc m) (suc n) [] h = refl
  take-take (suc m) (suc n) (x ∷ xs) h = ap (λ l. x ∷ l) (take-take m n xs (omega (arith, h)))

  -- Two parts that follow each other are one.
  pub take-drop_join :
      (m n k : ℕ) (xs : List A) → k ≡ m + n → take m xs ++ take n (drop m xs) ≡ take k xs
  take-drop_join zero n k xs h = let e : n ≡ k = omega (arith, h) in ap (λ j. take j xs) e
  take-drop_join (suc m) n k [] h = take-nil n ∙ sym (take-nil k)
  take-drop_join (suc m) n zero (x ∷ xs) h = absurd (omega (arith, h))
  take-drop_join (suc m) n (suc k) (x ∷ xs) h =
      ap (λ l. x ∷ l) (take-drop_join m n k xs (omega (arith, h)))

  pub take-drop_min : (m n : ℕ) (xs : List A) → m ≤ n → take m xs ++ drop m (take n xs) ≡ take n xs
  take-drop_min m n xs h =
      ap (λ l. l ++ drop m (take n xs)) (sym (take-take m n xs h)) ∙ append-take-drop m (take n xs)

  pub drop-take : (m n k : ℕ) (xs : List A) → k ≡ n - m → drop m (take n xs) ≡ take k (drop m xs)
  drop-take zero n k xs h = let e : n ≡ k = omega (arith, h) in ap (λ j. take j xs) e
  drop-take (suc m) zero k xs h =
      let e : 0 ≡ k = omega (arith, h) in ap (λ j. take j (drop (suc m) xs)) e
  drop-take (suc m) (suc n) k [] h = sym (take-nil k)
  drop-take (suc m) (suc n) k (x ∷ xs) h = drop-take m n k xs (omega (arith, h))
