-- ===== src/Recorder/Mkpath.antt =====
-- apps/cdev/recpt1/mkpath.c: a directory and those above it are made. A path is the list of its bytes.
use ptx.Base.{
  ℕ, zero, suc, ◌+◌, Bool, true, false, Option, none, some, List, [], ◌∷◌, ◌++◌, ◌==◌,
  if◌then◌else◌, take, drop, length,
}

abbrev pub slash : ℕ
slash = 0x2F

-- `strchr(s, '/')`: how far behind the start it is found.
unfoldable pub strchr : List ℕ → Option ℕ
strchr [] = none
strchr (c ∷ s) =
    if c == slash then some 0 else elim (strchr s) [ none ↦ none | some n ↦ some (suc n) ]

-- `stat` says whether there is a directory, `none` where it fails; `mkdir` says whether it succeeded.
module _ {σ : Type 0} (stat : List ℕ → σ → Option Bool) (mkdir : List ℕ → σ → Bool × σ) where
  -- Whether the status is 0.
  unfoldable pub do_mkdir : List ℕ → σ → Bool × σ
  do_mkdir path s = elim (stat path s) [ none ↦ mkdir path s | some is_dir ↦ (is_dir, s) ]

  -- The loop, where `copypath` is the bytes of `front` followed by those of `pp`; it ends where the
  -- status is not 0 or no separator is left.
  unfoldable pub mkpath_loop : ℕ → List ℕ → List ℕ → σ → Option (Bool × σ)
  mkpath_loop zero front pp s = none
  mkpath_loop (suc fuel) front pp s = elim (strchr pp) [
    | none ↦ some (true, s)
    | some n ↦
        let (fine, s1) = if n == 0 then (true, s) else do_mkdir (front ++ take n pp) s in
        let rest = mkpath_loop fuel (front ++ take (suc n) pp) (drop (suc n) pp) s1 in
        if fine then rest else some (false, s1)
  ]

  unfoldable pub mkpath : List ℕ → σ → Option (Bool × σ)
  mkpath path s = elim (mkpath_loop (length path + 1) [] path s) [
    | none ↦ none
    | some (fine, s1) ↦ some (if fine then do_mkdir path s1 else (false, s1))
  ]
