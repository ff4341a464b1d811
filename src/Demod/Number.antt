-- ===== src/Demod/Number.antt =====
-- `tc90522_n2int` of drivers/media/dvb-frontends/tc90522.c: big-endian bytes to an integer.
use ptx.Base.{ℕ, zero, suc, ◌+◌, ◌*◌, ◌%◌, ◌^◌, ◌<◌, ◌≡◌, ◌≢◌, refl, List, [], ◌∷◌, arith, take}

-- The loop over the first `n` bytes. `val` is a `u32`; after the shift its low byte is 0, so that
-- `val |= data[i]` adds the byte.
unfoldable pub n2int_loop : List ℕ → ℕ → ℕ
n2int_loop [] val = val
n2int_loop (b ∷ rest) val = n2int_loop rest (val * 256 % 2 ^ 32 + b)

unfoldable pub tc90522_n2int : List ℕ → ℕ → ℕ
unfolding n2int_loop
tc90522_n2int buf n = n2int_loop (take n buf) 0

-- The number that bytes in network order stand for, at any length.
unfoldable pub be_value : List ℕ → ℕ → ℕ
be_value [] acc = acc
be_value (b ∷ rest) acc = be_value rest (acc * 256 + b)

abbrev pub AllBytes : List ℕ → Type 0
AllBytes [] = Unit
AllBytes (b ∷ rest) = (b < 256) × AllBytes rest

n2int_loop-be_value :
    (bs : List ℕ) (v acc : ℕ)
    → AllBytes bs
    → v ≡ acc % 2 ^ 32
    → n2int_loop bs v ≡ be_value bs acc % 2 ^ 32
unfolding n2int_loop be_value
n2int_loop-be_value [] v acc h e = e
n2int_loop-be_value (b ∷ rest) v acc h e =
    n2int_loop-be_value rest (v * 256 % 2 ^ 32 + b) (acc * 256 + b) h.1 (omega arith)

AllBytes-take : (n : ℕ) (bs : List ℕ) → AllBytes bs → AllBytes (take n bs)
AllBytes-take zero bs h = tt
AllBytes-take (suc n) [] h = tt
AllBytes-take (suc n) (b ∷ rest) h = (h.0, AllBytes-take n rest h.1)

-- The conversion is the value of the first `n` bytes in network order, modulo 2^32.
pub n2int-be_value :
    (bs : List ℕ) (n : ℕ) → AllBytes bs → tc90522_n2int bs n ≡ be_value (take n bs) 0 % 2 ^ 32
unfolding tc90522_n2int
n2int-be_value bs n h = n2int_loop-be_value (take n bs) 0 0 (AllBytes-take n bs h) refl

-- Of five bytes the first is lost: wherever it is not 0 the result is not the number that the
-- bytes stand for.
pub n2int_five :
    (b0 b1 b2 b3 b4 : ℕ) (rest : List ℕ)
    → AllBytes (b0 ∷ b1 ∷ b2 ∷ b3 ∷ b4 ∷ rest)
    → b0 ≢ 0
    → tc90522_n2int (b0 ∷ b1 ∷ b2 ∷ b3 ∷ b4 ∷ rest) 5 ≢ be_value (b0 ∷ b1 ∷ b2 ∷ b3 ∷ b4 ∷ []) 0
unfolding tc90522_n2int be_value
n2int_five b0 b1 b2 b3 b4 rest h ne = omega arith
