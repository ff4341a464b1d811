-- ===== src/Splitter/Pieces.antt =====
-- `AnalyzeSid` of apps/cdev/recpt1/tssplitter_lite.c against the text that a list of services is
-- written as.
use ptx.Base.{
  ℕ, zero, suc, ◌+◌, ◌<◌, ◌≡◌, refl, ap, ◌∙◌, false, none, some, List, [], ◌∷◌, ◌++◌, arith, ◌==◌,
  length,
}
use ptx.Splitter.Sid.{comma, comma_num, until_comma, after_comma, is_empty, sid_loop, analyze_sid}

-- The pieces with a comma between each two.
unfoldable pub join : List ℕ → List (List ℕ) → List ℕ
join x [] = x
join x (y ∷ rest) = x ++ (comma ∷ join y rest)

abbrev pub NoComma : List ℕ → Type 0
NoComma [] = Unit
NoComma (c ∷ rest) = ((c == comma) ≡ false) × NoComma rest

abbrev pub AllNoComma : List (List ℕ) → Type 0
AllNoComma [] = Unit
AllNoComma (x ∷ rest) = NoComma x × AllNoComma rest

-- The last of the pieces `x`, `xs` is not empty.
abbrev pub EndsFull : List ℕ → List (List ℕ) → Type 0
EndsFull x [] = is_empty x ≡ false
EndsFull x (y ∷ rest) = EndsFull y rest

module _ (r : List ℕ) where
  until_comma-append : (x : List ℕ) → NoComma x → until_comma (x ++ (comma ∷ r)) ≡ x
  unfolding until_comma
  until_comma-append [] h = refl
  until_comma-append (c ∷ x) h = ground (arith, until_comma-append x h.1)

  after_comma-append : (x : List ℕ) → NoComma x → after_comma (x ++ (comma ∷ r)) ≡ some r
  unfolding after_comma
  after_comma-append [] h = refl
  after_comma-append (c ∷ x) h = ground (arith, after_comma-append x h.1)

  comma_num-append : (x : List ℕ) → NoComma x → comma_num (x ++ (comma ∷ r)) ≡ 1 + comma_num r
  unfolding comma_num
  comma_num-append [] h = refl
  comma_num-append (c ∷ x) h = ground (arith, comma_num-append x h.1)

  append-full : (x : List ℕ) → is_empty (x ++ (comma ∷ r)) ≡ false
  append-full [] = refl
  append-full (c ∷ x) = refl

comma_num-none : (x : List ℕ) → NoComma x → comma_num x ≡ 0
unfolding comma_num
comma_num-none [] h = refl
comma_num-none (c ∷ x) h = ground (arith, comma_num-none x h.1)

until_comma-none : (x : List ℕ) → NoComma x → until_comma x ≡ x
unfolding until_comma
until_comma-none [] h = refl
until_comma-none (c ∷ x) h = ground (arith, until_comma-none x h.1)

after_comma-none : (x : List ℕ) → NoComma x → after_comma x ≡ none
unfolding after_comma
after_comma-none [] h = refl
after_comma-none (c ∷ x) h = ground (arith, after_comma-none x h.1)

comma_num-join :
    (x : List ℕ) (xs : List (List ℕ)) → AllNoComma (x ∷ xs) → comma_num (join x xs) ≡ length xs
unfolding join
comma_num-join x [] h = comma_num-none x h.0
comma_num-join x (y ∷ ys) h =
    comma_num-append (join y ys) x h.0 ∙ omega (arith, comma_num-join y ys h.1)

join-full : (x : List ℕ) (xs : List (List ℕ)) → EndsFull x xs → is_empty (join x xs) ≡ false
unfolding join
join-full x [] f = f
join-full x (y ∷ ys) f = append-full (join y ys) x

cut-join :
    (x y : List ℕ) (ys : List (List ℕ))
    → NoComma x
    → (until_comma (join x (y ∷ ys)) ≡ x) × (after_comma (join x (y ∷ ys)) ≡ some (join y ys))
unfolding join
cut-join x y ys h = (until_comma-append (join y ys) x h, after_comma-append (join y ys) x h)

join_one : (x : List ℕ) → join x [] ≡ x
unfolding join
join_one x = refl

cut_last :
    (x : List ℕ) → NoComma x → (until_comma (join x []) ≡ x) × (after_comma (join x []) ≡ none)
unfolding join
cut_last x h = (until_comma-none x h, after_comma-none x h)

sid_loop-join :
    (fuel commas i : ℕ) (x : List ℕ) (xs : List (List ℕ))
    → length xs < fuel
    → AllNoComma (x ∷ xs)
    → EndsFull x xs
    → sid_loop fuel commas i (join x xs) ≡ x ∷ xs
unfolding sid_loop
sid_loop-join zero commas i x xs h a f = absurd (omega arith)
sid_loop-join (suc fuel) commas i x [] h a f =
    rw (join-full x [] f, sid_loop) (rw ((cut_last x a.0).0, (cut_last x a.0).1))
sid_loop-join (suc fuel) commas i x (y ∷ ys) h a f =
    rw (join-full x (y ∷ ys) f, sid_loop)
      (rw ((cut-join x y ys a.0).0, (cut-join x y ys a.0).1)
        (ap (λ l. x ∷ l) (sid_loop-join fuel commas (i + 1) y ys (omega arith) a.1 f)))

-- Pieces without commas, the last not empty, written with commas between them, are what
-- `AnalyzeSid` finds in the text, in their order, empty pieces included.
pub analyze_sid-join :
    (x : List ℕ) (xs : List (List ℕ))
    → AllNoComma (x ∷ xs)
    → EndsFull x xs
    → analyze_sid (join x xs) ≡ x ∷ xs
unfolding analyze_sid
analyze_sid-join x [] a f =
    rw (join-full x [] f, comma_num-join x [] a) (ap (λ l. l ∷ []) (join_one x))
analyze_sid-join x (y ∷ ys) a f = ground (
  arith,
  join-full x (y ∷ ys) f,
  comma_num-join x (y ∷ ys) a,
  sid_loop-join (comma_num (join x (y ∷ ys)) + 2) (comma_num (join x (y ∷ ys))) 0 x (y ∷ ys)
      (omega (arith, comma_num-join x (y ∷ ys) a)) a f,
)
