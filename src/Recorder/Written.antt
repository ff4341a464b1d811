-- ===== src/Recorder/Written.antt =====
-- That the loop of `reader_func` in apps/cdev/recpt1/recpt1.c writes a buffer whole, or up to an error.
use ptx.Base.{ℕ, ◌<◌, ◌≤◌, ◌≡◌, ◌⊎◌, List, ◌++◌, take, length}
use ptx.Base.Int.{ℤ, pos, negsuc}

-- What `write` is documented to do with some bytes (at least one) of a file that holds `old`: it takes
-- the first of them, at least one, to the end of the file and answers how many; or it answers an error
-- and the file holds what it did.
abbrev pub WriteAnswer : List ℕ → List ℕ → ℤ → List ℕ → Type 0
WriteAnswer bytes old wc new =
    ((n : ℕ) × (wc ≡ pos n) × (0 < n) × (n ≤ length bytes) × (new ≡ old ++ take n bytes))
    ⊎ ((e : ℕ) × (wc ≡ negsuc e) × (new ≡ old))
