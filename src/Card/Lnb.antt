-- ===== src/Card/Lnb.antt =====
-- `ptx_lnb`, `ptx_sleep` and `ptx_wakeup` of drivers/media/pci/ptx/ptx_common.c.
use ptx.Base.{ℕ, Bool, true, false, ◌&&◌, not, none, some, List, [], ◌∷◌, if◌then◌else◌, modify}
use ptx.Base.Int.{ℤ, pos}
use ptx.Card.{Adap, Card, lnb, fe_sleep, fe_wakeup, is_isdbs, adap_of}

-- The loop: it stops at the first adapter with no front end, and breaks at the first that is ON
-- and receives ISDB-S.
unfoldable pub lnb_needed : List Adap → Bool
lnb_needed [] = false
lnb_needed (a ∷ rest) = elim a.fe [
  | none ↦ false
  | some fe ↦ elim (is_isdbs fe.delsys && a.on) [ true ↦ true | false ↦ lnb_needed rest ]
]

abbrev pub differ : Bool → Bool → Bool
differ true b = not b
differ false b = b

unfoldable pub ptx_lnb : Card → Card
ptx_lnb c =
    let need = lnb_needed c.adaps in
    if differ c.lnb_on need then record c { lnb_on = need; trace = lnb need ∷ c.trace } else c

abbrev pub set_on : ℕ → Bool → Card → Card
set_on i b c = record c { adaps = modify c.adaps i (λ a. record a { on = b }) }

-- What the front end's own `sleep` and `init` answer, where it has them.
module _ (answer : ℕ → ℤ) where
  unfoldable pub ptx_sleep : ℕ → Card → Card × ℤ
  unfolding ptx_lnb
  ptx_sleep i c =
      let c' = ptx_lnb (set_on i false c) in
      if (adap_of c' i).sleep_hook
      then (record c' { trace = fe_sleep i ∷ c'.trace }, answer i)
      else (c', pos 0)

  unfoldable pub ptx_wakeup : ℕ → Card → Card × ℤ
  unfolding ptx_lnb
  ptx_wakeup i c =
      let c' = ptx_lnb (set_on i true c) in
      if (adap_of c' i).wakeup_hook
      then (record c' { trace = fe_wakeup i ∷ c'.trace }, answer i)
      else (c', pos 0)
