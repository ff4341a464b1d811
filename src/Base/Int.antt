-- ===== src/Base/Int.antt =====
-- Signed integers over the native numbers, for the functions that return an error number.
use Prim.Native.Nat.{ℕ, zero, suc}
use mathlib.Core.Bool.{Bool, true, false}

-- `negsuc n` is -(n + 1).
pub data ℤ : Type 0 where
  pos : ℕ → ℤ
  negsuc : ℕ → ℤ

-- A C condition on an `int`: false at 0 only.
abbrev pub nonzero : ℤ → Bool
nonzero (pos n) = elim n [ zero ↦ false | suc _ ↦ true ]
nonzero (negsuc _) = true

-- The negated error numbers of the kernel that the drivers return.
abbrev pub eio : ℤ
eio = negsuc 4

abbrev pub enomem : ℤ
enomem = negsuc 11

abbrev pub efault : ℤ
efault = negsuc 13

abbrev pub enfile : ℤ
enfile = negsuc 22

abbrev pub erange : ℤ
erange = negsuc 33

abbrev pub etimedout : ℤ
etimedout = negsuc 109

abbrev pub enotsupp : ℤ
enotsupp = negsuc 523
