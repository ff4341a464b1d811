-- ===== src/Recorder/Write.antt =====
-- How `reader_func` of apps/cdev/recpt1/recpt1.c writes to the recording, where it has no decoder, no
-- splitter and no socket.
use ptx.Base.{
  ℕ, zero, suc, Bool, true, false, Option, none, some, List, ltb, ◌==◌, if◌then◌else◌, take, drop,
  length,
}
use ptx.Base.Int.{ℤ, pos, negsuc}

abbrev pub size_chank : ℕ
size_chank = 1316

-- What `write` returns, and what it has done to the file.
module _ {σ : Type 0} (write : List ℕ → σ → ℤ × σ) where
  -- How the loop goes on after a call: with the bytes that are left, or not at all.
  unfoldable pub after_write : List ℕ → ℤ → Option (List ℕ)
  after_write rest (pos wc) = some (drop wc rest)
  after_write rest (negsuc _) = none

  -- The loop that writes to the output file, where `rest` is the bytes at `buf.rest + offset`: whether
  -- there was no error.
  unfoldable pub write_loop : ℕ → List ℕ → σ → Option (Bool × σ)
  write_loop zero rest s = none
  write_loop (suc fuel) rest s =
      let ws = if ltb (length rest) size_chank then length rest else size_chank in
      let (wc, s1) = write (take ws rest) s in
      if length rest == 0 then some (true, s) else elim (after_write rest wc) [
        | none ↦ some (false, s1)
        | some left ↦ write_loop fuel left s1
      ]
