-- ===== src/Splitter/Sid.antt =====
-- `AnalyzeSid` of apps/cdev/recpt1/tssplitter_lite.c: the list of wanted services, a text with
-- commas. A text is the list of its bytes. The code cuts the text in place; the model returns the
-- pieces.
use ptx.Base.{
  ℕ, zero, suc, ◌+◌, Bool, true, false, not, ◌||◌, Option, none, some, List, [], ◌∷◌, ◌==◌, ltb,
  if◌then◌else◌,
}

abbrev pub comma : ℕ
comma = b','

unfoldable pub comma_num : List ℕ → ℕ
comma_num [] = 0
comma_num (c ∷ rest) = (if c == comma then 1 else 0) + comma_num rest

-- The text up to the first comma, which becomes the end of the piece, and what follows it.
unfoldable pub until_comma : List ℕ → List ℕ
until_comma [] = []
until_comma (c ∷ rest) = if c == comma then [] else c ∷ until_comma rest

unfoldable pub after_comma : List ℕ → Option (List ℕ)
after_comma [] = none
after_comma (c ∷ rest) = if c == comma then some rest else after_comma rest

abbrev pub is_empty : List ℕ → Bool
is_empty [] = true
is_empty (_ ∷ _) = false

-- The rest of the pieces, if the text goes on behind a comma.
unfoldable pub sid_next : (List ℕ → List (List ℕ)) → Option (List ℕ) → List (List ℕ)
sid_next again none = []
sid_next again (some q) = again q

-- The loop goes on while there is text left or while fewer pieces than commas have been found.
unfoldable pub sid_loop : ℕ → ℕ → ℕ → List ℕ → List (List ℕ)
unfolding sid_next
sid_loop zero commas i p = []
sid_loop (suc fuel) commas i p = elim (not (is_empty p) || ltb i commas) [
  | true ↦ until_comma p ∷ sid_next (sid_loop fuel commas (i + 1)) (after_comma p)
  | false ↦ []
]

-- Each round but the last passes a comma.
unfoldable pub analyze_sid : List ℕ → List (List ℕ)
analyze_sid sid =
    if is_empty sid
    then []
    else if comma_num sid == 0
    then sid ∷ []
    else sid_loop (comma_num sid + 2) (comma_num sid) 0 sid
