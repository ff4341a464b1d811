-- ===== src/Pt3/Tests.antt =====
-- Runs of the functions of drivers/media/pci/ptx/pt3_pci.c, and the theorems applied to them.
use ptx.Base.{
  ℕ, ◌+◌, ◌*◌, ◌≤◌, ◌≡◌, refl, true, false, none, some, is_some, List, [], ◌∷◌, ◌++◌, ◌⊎◌, ◌==◌,
  if◌then◌else◌, arith, length,
}
use ptx.Base.Int.{pos, eio, etimedout}
use ptx.Pt3.I2c.{i_end, Msg, i2c_code}
use ptx.Pt3.Codes.{unpack, msgs_codes, stop_codes}
use ptx.Pt3.Packed.{unpack-i2c_code}
use ptx.Pt3.Xfr.{i2c_wait}
use ptx.Pt3.Ring.{dma_create}
use ptx.Pt3.Circular.{ring, dma_create-ring}
use ptx.Pt3.Dma.{
  Dma, RegWrite, pt3_dma_run, first_stopped, Turn, thread, device, handed, in_turn, dma_stop_answer,
}
use ptx.Pt3.Handed.{synced, sync_writes, InRing, handed-in_turn}
use ptx.Pt3.Memory.{Block, ts_page, Memory, dma_alloc, dma_free, total, dma_free-dma_alloc}
use ptx.Pt3.Probe.{Answers}

-- The register 0xb0 of the chip at 0x10 is selected, and two bytes are read from it.
abbrev select_msg : Msg
select_msg = record { addr = 0x10; rd = false; len = 1; buf = 0xb0 ∷ [] }

abbrev read_msg : Msg
read_msg = record { addr = 0x10; rd = true; len = 2; buf = 0 ∷ 0 ∷ [] }

unpack-i2c_code_example :
    (unpack (i2c_code (select_msg ∷ read_msg ∷ []))
      ≡ msgs_codes (select_msg ∷ read_msg ∷ []) ++ stop_codes)
    ⊎ (unpack (i2c_code (select_msg ∷ read_msg ∷ []))
        ≡ (msgs_codes (select_msg ∷ read_msg ∷ []) ++ stop_codes) ++ (i_end ∷ []))
unpack-i2c_code_example = unpack-i2c_code (select_msg ∷ read_msg ∷ [])

-- A card whose sequences stop at once; its state is the value of the status register.
abbrev status : ℕ → ℕ × ℕ
status s = (0, s)

abbrev ignore_write : ℕ → ℕ → ℕ
ignore_write v s = s

abbrev ignore_store : List ℕ → ℕ → ℕ
ignore_store l s = s

abbrev memory : ℕ → ℕ → ℕ
memory s j = j + 5

i2c_wait_example : (t : ℕ) → is_some (i2c_wait status ignore_write ignore_store memory 1 t) ≡ true
unfolding i2c_wait
i2c_wait_example t = refl

abbrev desc_pages : ℕ → ℕ
desc_pages i = 0x100000 + 0x1000 * i

abbrev blocks : ℕ → ℕ
blocks i = 0x1000000 + 0x40000 * i

dma_create-ring_example :
    ((dma_create desc_pages blocks).descs ≡ ring desc_pages blocks 799)
    × ((dma_create desc_pages blocks).desc_pg_idx ≡ 4)
dma_create-ring_example = dma_create-ring desc_pages blocks

abbrev new_dma : Dma
new_dma = record { ts_blk_idx = 0; first = λ j. 0x74; writes = [] }

abbrev turns : List Turn
turns = device 0 0x47 ∷ thread ∷ device 1 0x47 ∷ thread ∷ device 2 0x47 ∷ thread ∷ []

handed_two : handed turns new_dma ≡ 0 ∷ 1 ∷ []
unfolding handed ptx.Pt3.Dma.thread_round
handed_two = refl

turns-InRing : InRing turns
unfolding InRing
turns-InRing = (omega arith, (omega arith, (omega arith, tt)))

handed-in_turn_example :
    (handed turns new_dma ≡ in_turn (length (handed turns new_dma)) 0)
    × (length (handed turns new_dma) ≤ synced 17 new_dma.first + 1 + sync_writes turns)
handed-in_turn_example = handed-in_turn turns new_dma (omega arith) turns-InRing

-- A device that stops at the third read.
abbrev third : ℕ → ℕ × ℕ
third s = (if s == 2 then 0 else 1, s + 1)

dma_stop_answer_example :
    (pt3_dma_run third 0 false new_dma 0).0 ≡ elim (first_stopped third 999 0) [
      | none ↦ pos 0
      | some k ↦ if k == 998 then etimedout else pos 0
    ]
dma_stop_answer_example = dma_stop_answer third 0 new_dma 0

-- The fourth block gets no memory.
abbrev scarce : Memory
scarce = record {
  ts_array_ok = true;
  desc_array_ok = true;
  desc_ok = λ i. true;
  ts_ok = λ i. if i == 3 then false else true;
}

abbrev count_page : Block → ℕ
count_page (ts_page i) = if i == 2 then 1 else 0
count_page _ = 0

dma_free-dma_alloc_example :
    let (fine, info, t) = dma_alloc scarce [] in
    total count_page (dma_free info []) ≡ total count_page t
dma_free-dma_alloc_example = dma_free-dma_alloc count_page scarce

abbrev no_i2c : Answers
no_i2c = record {
  card = true;
  config = pos 0;
  revision = 1;
  bar_reg = true;
  bar_mem = true;
  version = 0x03000400;
  dma_ok = λ i. true;
  calls = λ k. if k == 1 then eio else pos 0;
}
