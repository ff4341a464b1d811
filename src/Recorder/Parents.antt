-- ===== src/Recorder/Parents.antt =====
-- Which directories `mkpath` of apps/cdev/recpt1/mkpath.c makes, and in which order.
use ptx.Base.{
  ℕ, zero, suc, ◌+◌, ◌<◌, ◌≡◌, refl, sym, ap, ap₂, ◌∙◌, Bool, true, false, Option, none, some, List,
  [], ◌∷◌, ◌++◌, append_assoc, append-nil, ◌==◌, if◌then◌else◌, arith, take, drop, length,
  length-drop, Bool-cases, Option-cases, inl, inr,
}
use mathlib.Core.Option.{none-ne-some, some-ne-none, some-injective}
use ptx.Recorder.Mkpath.{slash, strchr, do_mkdir, mkpath_loop, mkpath}

-- The directories above a path, from the outermost on: what stands before each separator that follows
-- another byte. `front` has been read, and `inside` says whether its last byte is one of a name.
unfoldable pub parents : List ℕ → Bool → List ℕ → List (List ℕ)
parents front inside [] = []
parents front inside (c ∷ rest) =
    let later = parents (front ++ (c ∷ [])) false rest in
    let name = parents (front ++ (c ∷ [])) true rest in
    if c == slash then if inside then front ∷ later else later else name

module _ {σ : Type 0} (stat : List ℕ → σ → Option Bool) (mkdir : List ℕ → σ → Bool × σ) where
  -- Directories made in turn, up to the first that fails.
  unfoldable pub make_all : List (List ℕ) → σ → Bool × σ
  make_all [] s = (true, s)
  make_all (d ∷ ds) s =
      let (fine, s1) = do_mkdir stat mkdir d s in
      let rest = make_all ds s1 in if fine then rest else (false, s1)

at_start : (c : ℕ) (rest : List ℕ) → (c == slash) ≡ true → strchr (c ∷ rest) ≡ some 0
unfolding strchr
at_start c rest found = rw (strchr, found) refl

at_later :
    (c : ℕ) (rest : List ℕ) (m : ℕ)
    → (c == slash) ≡ false
    → strchr rest ≡ some m
    → strchr (c ∷ rest) ≡ some (suc m)
unfolding strchr
at_later c rest m other there = rw (strchr, other, there) refl

parents-none : (front pp : List ℕ) (inside : Bool) → strchr pp ≡ none → parents front inside pp ≡ []
unfolding parents strchr
parents-none front [] inside e = refl
parents-none front (c ∷ rest) inside e = elim (Bool-cases (c == slash)) [
  | inl found ↦ absurd (some-ne-none 0 (sym (at_start c rest found) ∙ e))
  | inr other ↦ elim (Option-cases (strchr rest)) [
    | inl end ↦ rw (parents, other) (parents-none (front ++ (c ∷ [])) rest true end)
    | inr (m, there) ↦ absurd (some-ne-none (suc m) (sym (at_later c rest m other there) ∙ e))
  ]
]

-- The directories from the first separator on, which stands behind `n` bytes.
abbrev behind : List ℕ → List ℕ → ℕ → List (List ℕ)
behind front pp n = parents (front ++ take (suc n) pp) false (drop (suc n) pp)

parents-inside :
    (front pp : List ℕ) (n : ℕ)
    → strchr pp ≡ some n
    → parents front true pp ≡ (front ++ take n pp) ∷ behind front pp n
unfolding parents strchr
parents-inside front [] n e = absurd (none-ne-some n e)
parents-inside front (c ∷ rest) n e = elim (Bool-cases (c == slash)) [
  | inl found ↦
      let at = at_start c rest found in
      let zeroth : 0 ≡ n = some-injective 0 n (sym at ∙ e) in
      let first : parents front true (c ∷ rest) ≡ front ∷ parents (front ++ (c ∷ [])) false rest =
        rw (parents, found) refl in
      first
      ∙ ap (λ d. d ∷ parents (front ++ (c ∷ [])) false rest) (sym (append-nil front))
      ∙ ap (λ k. (front ++ take k (c ∷ rest)) ∷ behind front (c ∷ rest) k) zeroth
  | inr other ↦ elim (Option-cases (strchr rest)) [
    | inl end ↦
        let at : strchr (c ∷ rest) ≡ none = rw (strchr, other, end) refl in
        absurd (none-ne-some n (sym at ∙ e))
    | inr (m, there) ↦
        let at = at_later c rest m other there in
        let more : suc m ≡ n = some-injective (suc m) n (sym at ∙ e) in
        let first : parents front true (c ∷ rest) ≡ parents (front ++ (c ∷ [])) true rest =
          rw (parents, other) refl in
        let joined : front ++ (c ∷ []) ++ take m rest ≡ front ++ (c ∷ take m rest) =
          append_assoc front (c ∷ []) (take m rest) in
        let onward : front ++ (c ∷ []) ++ take (suc m) rest ≡ front ++ (c ∷ take (suc m) rest) =
          append_assoc front (c ∷ []) (take (suc m) rest) in
        first
        ∙ parents-inside (front ++ (c ∷ [])) rest m there
        ∙ ap₂ (λ d l. d ∷ parents l false (drop (suc m) rest)) joined onward
        ∙ ap (λ k. (front ++ take k (c ∷ rest)) ∷ behind front (c ∷ rest) k) more
  ]
]

-- Where the separator stands at once, nothing is made for it.
parents-outside :
    (front pp : List ℕ) (n : ℕ)
    → strchr pp ≡ some n
    → parents front false pp
      ≡ (if n == 0 then behind front pp n else ((front ++ take n pp) ∷ behind front pp n))
unfolding parents strchr
parents-outside front [] n e = absurd (none-ne-some n e)
parents-outside front (c ∷ rest) n e = elim (Bool-cases (c == slash)) [
  | inl found ↦
      let at = at_start c rest found in
      let zeroth : 0 ≡ n = some-injective 0 n (sym at ∙ e) in
      let first : parents front false (c ∷ rest) ≡ parents (front ++ (c ∷ [])) false rest =
        rw (parents, found) refl in
      first
      ∙ ap
          (λ k.
            if k == 0
            then behind front (c ∷ rest) k
            else ((front ++ take k (c ∷ rest)) ∷ behind front (c ∷ rest) k))
          zeroth
  | inr other ↦ elim (Option-cases (strchr rest)) [
    | inl end ↦
        let at : strchr (c ∷ rest) ≡ none = rw (strchr, other, end) refl in
        absurd (none-ne-some n (sym at ∙ e))
    | inr (m, there) ↦
        let at = at_later c rest m other there in
        let more : suc m ≡ n = some-injective (suc m) n (sym at ∙ e) in
        let later : (n == 0) ≡ false = ground (arith, more) in
        let same : parents front false (c ∷ rest) ≡ parents front true (c ∷ rest) =
          rw (parents, other) refl in
        rw (later) (same ∙ parents-inside front (c ∷ rest) n e)
  ]
]

strchr-in : (pp : List ℕ) (n : ℕ) → strchr pp ≡ some n → n < length pp
unfolding strchr
strchr-in [] n e = absurd (none-ne-some n e)
strchr-in (c ∷ rest) n e = elim (Bool-cases (c == slash)) [
  | inl found ↦
      let zeroth : 0 ≡ n = some-injective 0 n (sym (at_start c rest found) ∙ e) in
      omega (arith, zeroth)
  | inr other ↦ elim (Option-cases (strchr rest)) [
    | inl end ↦
        let at : strchr (c ∷ rest) ≡ none = rw (strchr, other, end) refl in
        absurd (none-ne-some n (sym at ∙ e))
    | inr (m, there) ↦
        let more : suc m ≡ n = some-injective (suc m) n (sym (at_later c rest m other there) ∙ e) in
        omega (arith, more, strchr-in rest m there)
  ]
]

split_status : {σ : Type 0} (r : Bool × σ) → r ≡ (if r.0 then (true, r.1) else (false, r.1))
split_status (true, s) = refl
split_status (false, s) = refl

module _ {σ : Type 0} (stat : List ℕ → σ → Option Bool) (mkdir : List ℕ → σ → Bool × σ) where
  make_all_fine :
      (d : List ℕ) (ds : List (List ℕ)) (s : σ)
      → (do_mkdir stat mkdir d s).0 ≡ true
      → make_all stat mkdir (d ∷ ds) s ≡ make_all stat mkdir ds (do_mkdir stat mkdir d s).1
  unfolding make_all
  make_all_fine d ds s fine = rw (make_all, fine) refl

  make_all_fails :
      (d : List ℕ) (ds : List (List ℕ)) (s : σ)
      → (do_mkdir stat mkdir d s).0 ≡ false
      → make_all stat mkdir (d ∷ ds) s ≡ (false, (do_mkdir stat mkdir d s).1)
  unfolding make_all
  make_all_fails d ds s fails = rw (make_all, fails) refl

  mkpath_loop-parents :
      (fuel : ℕ) (front pp : List ℕ) (s : σ)
      → length pp < fuel
      → mkpath_loop stat mkdir fuel front pp s
        ≡ some (make_all stat mkdir (parents front false pp) s)
  unfolding mkpath_loop make_all
  mkpath_loop-parents zero front pp s h = absurd (omega (arith, h))
  mkpath_loop-parents (suc fuel) front pp s h = elim (Option-cases (strchr pp)) [
    | inl end ↦
        rw (mkpath_loop, end)
          (ap (λ l. some (make_all stat mkdir l s)) (sym (parents-none front pp false end)))
    | inr (n, there) ↦
        let next = mkpath_loop-parents fuel (front ++ take (suc n) pp) (drop (suc n) pp) in
        let less : length (drop (suc n) pp) < fuel =
          omega (arith, h, length-drop (suc n) pp, strchr-in pp n there) in
        elim (Bool-cases (n == 0)) [
          | inl zeroth ↦
              let outside : parents front false pp ≡ behind front pp n =
                parents-outside front pp n there ∙ rw zeroth refl in
              rw (mkpath_loop, there, zeroth)
                (next s less ∙ ap (λ l. some (make_all stat mkdir l s)) (sym outside))
          | inr named ↦
              let d = front ++ take n pp in
              let outside : parents front false pp ≡ d ∷ behind front pp n =
                parents-outside front pp n there ∙ rw named refl in
              let made = do_mkdir stat mkdir d s in
              rw (mkpath_loop, there, named)
                (elim (Bool-cases made.0) [
                  | inl fine ↦ rw fine (
                      next made.1 less
                      ∙ ap some (sym (make_all_fine d (behind front pp n) s fine))
                      ∙ ap (λ l. some (make_all stat mkdir l s)) (sym outside))
                  | inr fails ↦ rw fails (
                      ap some (sym (make_all_fails d (behind front pp n) s fails))
                      ∙ ap (λ l. some (make_all stat mkdir l s)) (sym outside))
                ])
        ]
  ]

  make_all-append :
      (ds : List (List ℕ)) (d : List ℕ) (s : σ)
      → (let (fine, s1) = make_all stat mkdir ds s in
          if fine then do_mkdir stat mkdir d s1 else (false, s1))
        ≡ make_all stat mkdir (ds ++ (d ∷ [])) s
  unfolding make_all
  make_all-append [] d s = split_status (do_mkdir stat mkdir d s)
  make_all-append (e ∷ ds) d s = elim (Bool-cases (do_mkdir stat mkdir e s).0) [
    | inl fine ↦ rw (fine) (make_all-append ds d (do_mkdir stat mkdir e s).1)
    | inr fails ↦ rw (fails) refl
  ]

  -- Whatever the file system does, `mkpath` returns, and has made the directories above the path, from
  -- the outermost on, and then the path itself, each by `do_mkdir`, up to the first that fails, whose
  -- failure it answers.
  pub mkpath-parents :
      (path : List ℕ) (s : σ)
      → mkpath stat mkdir path s
        ≡ some (make_all stat mkdir (parents [] false path ++ (path ∷ [])) s)
  unfolding mkpath
  mkpath-parents path s =
      rw (mkpath, mkpath_loop-parents (length path + 1) [] path s (omega arith))
        (ap some (make_all-append (parents [] false path) path s))
