-- ===== src/Base/Splice.antt =====
-- What `memcpy` into an array gives, by itself and in a ring.
use Prim.Native.Nat.{ℕ, zero, suc, ◌+◌, ◌<◌, ◌≤◌}
use mathlib.Core.Path.{◌≡◌, refl, ap, ap₂, sym, ◌∙◌}
use mathlib.Core.Logic.{inl, inr}
use mathlib.Core.Bool.{true}
use mathlib.Core.List.{List, [], ◌∷◌, ◌++◌, append_assoc, append-nil}
use mathlib.Core.Option.{none, some, none-ne-some, some-injective}
use native.Mathlib.Omega.{arith}
use ptx.Base.Tests.{leb, Bool-cases}
use ptx.Base.Lists.{set, take, drop, length, length-take, length-drop, length-append}
use ptx.Base.Slices.{
  ring, memcpy, take-append_le, take-take, take-append_ge, drop-append_le, drop-append_ge,
  drop-drop, drop_all, take_all,
}

leb_yes : (a b : ℕ) → a ≤ b → leb a b ≡ true
leb_yes a b h = ground arith

module _ {ℓ} {A : Type ℓ} where
  abbrev pub spliced : List A → ℕ → List A → List A
  spliced dst i src = take i dst ++ (src ++ drop (i + length src) dst)

  pub memcpy_fits :
      (dst : List A) (i : ℕ) (src : List A)
      → i + length src ≤ length dst
      → memcpy dst i src ≡ some (spliced dst i src)
  unfolding memcpy
  memcpy_fits dst i src h = rw (leb_yes (i + length src) (length dst) h) refl

  pub length-spliced :
      (dst : List A) (i : ℕ) (src : List A)
      → i + length src ≤ length dst
      → length (spliced dst i src) ≡ length dst
  length-spliced dst i src h = omega (
    arith,
    h,
    length-append (take i dst) (src ++ drop (i + length src) dst),
    length-append src (drop (i + length src) dst),
    length-take i dst,
    length-drop (i + length src) dst,
  )

  -- Where `memcpy` has a result, the bytes fit, and it is what is spliced.
  pub memcpy-spliced :
      (dst : List A) (i : ℕ) (src b : List A)
      → memcpy dst i src ≡ some b
      → (i + length src ≤ length dst) × (spliced dst i src ≡ b)
  unfolding memcpy
  memcpy-spliced dst i src b e = elim (Bool-cases (leb (i + length src) (length dst))) [
    | inl fits ↦
        let room : i + length src ≤ length dst = ground (arith, fits) in
        (room, some-injective (spliced dst i src) b (sym (memcpy_fits dst i src room) ∙ e))
    | inr out ↦
        let nothing : memcpy dst i src ≡ none = rw (memcpy, out) refl in
        absurd (none-ne-some b (sym nothing ∙ e))
  ]

  pub length-memcpy :
      (dst : List A) (i : ℕ) (src b : List A) → memcpy dst i src ≡ some b → length b ≡ length dst
  length-memcpy dst i src b e =
      let (room, same) = memcpy-spliced dst i src b e in
      ap length (sym same) ∙ length-spliced dst i src room

  -- What lies before the place is kept.
  pub take-memcpy :
      (dst : List A) (i n : ℕ) (src b : List A)
      → n ≤ i
      → memcpy dst i src ≡ some b
      → take n b ≡ take n dst
  take-memcpy dst i n src b h e =
      let (room, same) = memcpy-spliced dst i src b e in
      ap (take n) (sym same)
      ∙ take-append_le n (take i dst) (src ++ drop (i + length src) dst)
          (omega (arith, h, room, length-take i dst))
      ∙ take-take n i dst h

  pub take-spliced :
      (dst : List A) (i n : ℕ) (src : List A)
      → i + length src ≤ length dst
      → n ≡ i + length src
      → take n (spliced dst i src) ≡ take i dst ++ src
  take-spliced dst i n src h e =
      let start : i ≡ length (take i dst) = omega (arith, h, length-take i dst) in
      take-append_ge n (length src) (take i dst) (src ++ drop (i + length src) dst)
        (omega (arith, e, start))
      ∙ ap (λ l. take i dst ++ l)
          (take-append_le (length src) src (drop (i + length src) dst) (omega arith)
            ∙ take_all (length src) src (omega arith))

  pub drop-spliced :
      (dst : List A) (i n : ℕ) (src : List A)
      → i + length src ≤ length dst
      → n ≡ i + length src
      → drop n (spliced dst i src) ≡ drop n dst
  drop-spliced dst i n src h e =
      let start : i ≡ length (take i dst) = omega (arith, h, length-take i dst) in
      drop-append_ge n (length src) (take i dst) (src ++ drop (i + length src) dst)
        (omega (arith, e, start))
      ∙ drop-append_ge (length src) 0 src (drop (i + length src) dst) (omega arith)
      ∙ ap (λ k. drop k dst) (sym e)

  -- Written where it fits, the ring from the end of what was written has it last.
  pub ring-spliced :
      (dst : List A) (i : ℕ) (src : List A)
      → i + length src ≤ length dst
      → ring (i + length src) (spliced dst i src) ≡ drop (length src) (ring i dst) ++ src
  unfolding ring
  ring-spliced dst i src h =
      ap₂ (λ a b. a ++ b) (drop-spliced dst i (i + length src) src h refl)
        (take-spliced dst i (i + length src) src h refl)
      ∙ sym (append_assoc (drop (i + length src) dst) (take i dst) src)
      ∙ ap (λ l. l ++ src)
          (ap (λ l. l ++ take i dst) (sym (drop-drop i (length src) (i + length src) dst refl))
            ∙ sym (
                drop-append_le (length src) (drop i dst) (take i dst)
                  (omega (arith, h, length-drop i dst))))

  -- Written in two parts, the first up to the end and the second from the start.
  pub ring-spliced_twice :
      (dst : List A) (i : ℕ) (xs ys : List A)
      → i + length xs ≡ length dst
      → length ys ≤ i
      → ring (length ys) (spliced (spliced dst i xs) 0 ys)
        ≡ drop (length xs + length ys) (ring i dst) ++ (xs ++ ys)
  unfolding ring
  ring-spliced_twice dst i xs ys full fits =
      let first = spliced dst i xs in
      let same = length-spliced dst i xs (omega (arith, full)) in
      let start : i ≡ length (take i dst) = omega (arith, full, length-take i dst) in
      let written : first ≡ take i dst ++ xs =
        ap (λ l. take i dst ++ (xs ++ l)) (drop_all (i + length xs) dst (omega (arith, full)))
        ∙ ap (λ l. take i dst ++ l) (append-nil xs) in
      ap₂ (λ a b. a ++ b)
        (drop-spliced first 0 (length ys) ys (omega (arith, full, fits, same)) (omega arith)
          ∙ ap (drop (length ys)) written
          ∙ drop-append_le (length ys) (take i dst) xs (omega (arith, fits, start)))
        (take-spliced first 0 (length ys) ys (omega (arith, full, fits, same)) (omega arith))
      ∙ append_assoc (drop (length ys) (take i dst)) xs ys
      ∙ ap (λ l. l ++ (xs ++ ys))
          (sym (
            drop-append_ge (length xs + length ys) (length ys) (drop i dst) (take i dst)
              (omega (arith, full, length-drop i dst))))

  pub set-spliced :
      (xs : List A) (i : ℕ) (v : A) → i < length xs → set xs i v ≡ spliced xs i (v ∷ [])
  set-spliced [] i v h = absurd (omega (arith, h))
  set-spliced (x ∷ xs) zero v h = refl
  set-spliced (x ∷ xs) (suc i) v h =
      let next : suc (i + 1) ≡ suc i + 1 = omega arith in
      ap (λ l. x ∷ l) (set-spliced xs i v (omega (arith, h)))
      ∙ ap (λ k. x ∷ (take i xs ++ (v ∷ drop k (x ∷ xs)))) next
