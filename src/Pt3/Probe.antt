-- ===== src/Pt3/Probe.antt =====
-- The ways out of `pt3_probe` of drivers/media/pci/ptx/pt3_pci.c.
use ptx.Base.{
  ℕ, zero, suc, ◌+◌, ◌*◌, ◌/◌, ◌%◌, ◌^◌, ◌<◌, ◌≡◌, Bool, true, false, ◌&&◌, ◌||◌, not, ◌==◌, ◌=/=◌,
  if◌then◌else◌, arith,
}
use ptx.Base.Int.{ℤ, pos, eio, enomem, enotsupp, nonzero}

-- What is answered on the way: whether the card got its memory, the configuration read and the
-- revision, whether the two memory regions are mapped, the version register, whether `dma_create`
-- succeeds for each of the adapters, and the results of the six calls that end the function.
pub record Answers : Type 0 where
  pub card : Bool
  pub config : ℤ
  pub revision : ℕ
  pub bar_reg : Bool
  pub bar_mem : Bool
  pub version : ℕ
  pub dma_ok : ℕ → Bool
  pub calls : ℕ → ℤ

-- `(version >> 8) & 0xFF00FF`
abbrev pub fpga : ℕ → ℕ
fpga version = version / 2 ^ 24 % 2 ^ 8 * 2 ^ 16 + version / 2 ^ 8 % 2 ^ 8

unfoldable pub all_ok : ℕ → ℕ → (ℕ → Bool) → Bool
all_ok zero i ok = true
all_ok (suc left) i ok = ok i && all_ok left (i + 1) ok

-- `a || b || ...`
unfoldable pub any_error : ℕ → ℕ → (ℕ → ℤ) → Bool
any_error zero i calls = false
any_error (suc left) i calls = nonzero (calls i) || any_error left (i + 1) calls

-- `ptx_abort` removes the card and returns the error.
abbrev pub abort : ℤ → ℤ × Bool
abort err = (err, true)

-- The result, and whether the card has been removed. A C truth value is 1.
unfoldable pub pt3_probe : Answers → ℤ × Bool
pt3_probe a =
    if not a.card || nonzero a.config
    then abort (pos 1)
    else if a.revision =/= 1
    then abort enotsupp
    else if not a.bar_reg || not a.bar_mem
    then abort eio
    else if fpga a.version =/= 0x030004
    then abort enotsupp
    else if not (all_ok 4 0 a.dma_ok)
    then abort enomem
    else if any_error 6 0 a.calls
    then abort (pos 1)
    else (pos 0, false)

any_error_at :
    (left i k : ℕ) (calls : ℕ → ℤ)
    → k < left
    → nonzero (calls (i + k)) ≡ true
    → any_error left i calls ≡ true
unfolding any_error
any_error_at zero i k calls h e = absurd (omega arith)
any_error_at (suc left) i zero calls h e =
    let at : i + 0 ≡ i = omega arith in ground (arith, rw at at e)
any_error_at (suc left) i (suc k) calls h e =
    let at : i + suc k ≡ i + 1 + k = omega arith in
    ground (arith, any_error_at left (i + 1) k calls (omega arith) (rw at at e))

-- What is checked before the six calls.
abbrev pub passes : Answers → Bool
passes a =
    a.card
    && not (nonzero a.config)
    && (a.revision == 1)
    && a.bar_reg
    && a.bar_mem
    && (fpga a.version == 0x030004)
    && all_ok 4 0 a.dma_ok

-- The card is removed exactly where the result is not 0.
pub pt3_probe-removes : (a : Answers) → (pt3_probe a).1 ≡ nonzero (pt3_probe a).0
unfolding pt3_probe
pt3_probe-removes a = ground arith

-- Where the checks pass and one of the six last calls fails, the result is 1, whatever the error is.
pub pt3_probe_one :
    (a : Answers) (k : ℕ)
    → k < 6
    → passes a ≡ true
    → nonzero (a.calls k) ≡ true
    → pt3_probe a ≡ (pos 1, true)
unfolding pt3_probe
pt3_probe_one a k h p e =
    let at : 0 + k ≡ k = omega arith in
    let failed : any_error 6 0 a.calls ≡ true = any_error_at 6 0 k a.calls h (rw at e) in
    ground arith
