-- ===== src/Pxq3pe/Cleared.antt =====
-- Bytes cleared as `pxq3pe_thread` of drivers/media/pci/ptx/pxq3pe_pci.c does, in parts and put together.
use ptx.Base.{
  ℕ, zero, suc, ◌+◌, ◌*◌, ◌/◌, ◌%◌, ◌≤◌, ◌≡◌, refl, ap, ap₂, ◌∙◌, List, [], ◌∷◌, ◌++◌, arith, take,
  drop, length, length-append,
}
use ptx.Pxq3pe.Ring.{ts_size}
use ptx.Pxq3pe.Clear.{clear, clear_byte}

module _ (idx xor : List ℕ) where
  pub length-clear : (i n : ℕ) (xs : List ℕ) → length (clear idx xor i n xs) ≡ length xs
  unfolding clear
  length-clear i zero xs = refl
  length-clear i (suc n) [] = refl
  length-clear i (suc n) (x ∷ xs) = ap suc (length-clear (i + 1) n xs)

  pub take-clear :
      (i n m : ℕ) (xs : List ℕ)
      → n ≤ m
      → take m (clear idx xor i n xs) ≡ clear idx xor i n (take m xs)
  unfolding clear
  take-clear i zero m xs h = refl
  take-clear i (suc n) zero xs h = absurd (omega (arith, h))
  take-clear i (suc n) (suc m) [] h = refl
  take-clear i (suc n) (suc m) (x ∷ xs) h =
      ap (λ l. clear_byte idx xor i x ∷ l) (take-clear (i + 1) n m xs (omega (arith, h)))

  pub drop-clear : (i n m : ℕ) (xs : List ℕ) → n ≤ m → drop m (clear idx xor i n xs) ≡ drop m xs
  unfolding clear
  drop-clear i zero m xs h = refl
  drop-clear i (suc n) zero xs h = absurd (omega (arith, h))
  drop-clear i (suc n) (suc m) [] h = refl
  drop-clear i (suc n) (suc m) (x ∷ xs) h = drop-clear (i + 1) n m xs (omega (arith, h))

  -- Only where a position stands in its packet counts.
  clear-period :
      (i j n : ℕ) (xs : List ℕ)
      → i % ts_size ≡ j % ts_size
      → clear idx xor i n xs ≡ clear idx xor j n xs
  unfolding clear
  clear-period i j zero xs h = refl
  clear-period i j (suc n) [] h = refl
  clear-period i j (suc n) (x ∷ xs) h =
      ap₂ (λ y l. y ∷ l) (rw (h) refl) (clear-period (i + 1) (j + 1) n xs (omega (arith, h)))

  clear-append :
      (i a b m : ℕ) (xs ys : List ℕ)
      → length xs ≡ a
      → m ≡ a + b
      → clear idx xor i m (xs ++ ys) ≡ clear idx xor i a xs ++ clear idx xor (i + a) b ys
  unfolding clear
  clear-append i zero b m [] ys h e =
      let same : m ≡ b = omega (arith, e) in
      let at : i ≡ i + 0 = omega arith in ap₂ (λ n j. clear idx xor j n ys) same at
  clear-append i (suc a) b m [] ys h e = absurd (omega (arith, h))
  clear-append i zero b m (x ∷ xs) ys h e = absurd (omega (arith, h))
  clear-append i (suc a) b zero (x ∷ xs) ys h e = absurd (omega (arith, e))
  clear-append i (suc a) b (suc m) (x ∷ xs) ys h e =
      let at : i + 1 + a ≡ i + suc a = omega arith in
      ap (λ l. clear_byte idx xor i x ∷ l)
        (clear-append (i + 1) a b m xs ys (omega (arith, h)) (omega (arith, e))
          ∙ ap (λ j. clear idx xor (i + 1) a xs ++ clear idx xor j b ys) at)

  -- The whole packets of a stream, cleared.
  unfoldable pub cleared : List ℕ → List ℕ
  cleared xs = clear idx xor 0 (length xs / ts_size * ts_size) xs

  -- Whole packets are cleared each by itself.
  pub cleared-append :
      (xs ys : List ℕ) → length xs % ts_size ≡ 0 → cleared (xs ++ ys) ≡ cleared xs ++ cleared ys
  unfolding cleared
  cleared-append xs ys h =
      let a = length xs / ts_size * ts_size in
      let b = length ys / ts_size * ts_size in
      let whole : length xs ≡ a = omega (arith, h) in
      clear-append 0 a b (length (xs ++ ys) / ts_size * ts_size) xs ys whole
        (omega (arith, length-append xs ys, h))
      ∙ ap (λ l. clear idx xor 0 a xs ++ l) (clear-period (0 + a) 0 b ys (omega arith))
