-- ===== src/Card/Adapter.antt =====
-- `ptx_register_adap` and `ptx_unregister_adap` of drivers/media/pci/ptx/ptx_common.c.
use ptx.Base.{
  ℕ, ◌+◌, Bool, true, false, Option, none, some, List, [], ◌∷◌, ltb, if◌then◌else◌, set, length,
  take,
}
use ptx.Base.Int.{ℤ, pos, nonzero, enfile, enomem, erange}
use ptx.Card.{
  DelSys, dvb_adapter, dvb_demux, dmx_device, Call, close_demux, acquire, release, Frontend, Adap,
  Card, adap_of,
}
use ptx.Card.Lnb.{ptx_sleep}
use ptx.Card.Subdev.{FrontendAnswers, ptx_register_fe, ptx_unregister_fe}

-- What the DVB core answers while one adapter is registered: whether `dvb_register_adapter` and
-- `dvb_dmx_init` succeed, whether the latter has memory for its counters, what `dvb_dmxdev_init` returns, and the answers for the front end.
pub record AdapterAnswers : Type 0 where
  pub adapter_ok : Bool
  pub demux_ok : Bool
  pub counters_ok : Bool
  pub dmxdev_err : ℤ
  pub front : FrontendAnswers

-- The front end is stored, its hooks are saved, and `ops.sleep` and `ops.init` become the card's.
abbrev pub hooked : Adap → Frontend → Adap
hooked a fe = record a {
  fe = some (record fe { op_sleep = true; op_init = true });
  sleep_hook = fe.op_sleep;
  wakeup_hook = fe.op_init;
}

unfoldable pub attach_fe : Adap → Option Frontend × List Call → ℤ × Adap × List Call
attach_fe a (none, t) = (enomem, record a { fe = none }, t)
attach_fe a (some fe, t) = (pos 0, hooked a fe, t)

-- `dvb_dmxdev_init` has returned `err`.
unfoldable pub with_dmxdev :
    ℕ → DelSys → FrontendAnswers → ℤ → Adap → List Call → ℤ × Adap × List Call
with_dmxdev i sys front err a t =
    if nonzero err
    then (err, a, t)
    else attach_fe (record a { filter = true })
        (ptx_register_fe i sys front (acquire (dmx_device i) ∷ t))

-- The body of the loop but for its last call, `ptx_sleep`.
unfoldable pub register_one : ℕ → DelSys → AdapterAnswers → Adap → List Call → ℤ × Adap × List Call
register_one i sys e a t =
    if e.adapter_ok
    then (let a1 = record a { name = true } in
        let t1 = acquire (dvb_adapter i) ∷ t in
        if e.demux_ok
        then with_dmxdev i sys e.front e.dmxdev_err
            (record a1 { dmx_close = true; cnt_storage = e.counters_ok })
            (acquire (dvb_demux i) ∷ t1)
        else (enomem, a1, t1))
    else (enfile, a, t)

module _ (answers : ℕ → AdapterAnswers) (sleep_answer : ℕ → ℤ) where
  -- The loop from adapter `i` on, over what is left of the table of subdevices.
  unfoldable pub register_loop : List DelSys → ℕ → Card → Card × ℤ
  register_loop [] i c = (c, pos 0)
  register_loop (sys ∷ rest) i c =
      let (err, a, t) = register_one i sys (answers i) (adap_of c i) c.trace in
      let c' = record c { adaps = set c.adaps i a; trace = t } in
      elim (nonzero err) [
        | true ↦ (c', err)
        | false ↦ register_loop rest (i + 1) (ptx_sleep sleep_answer i c').0
      ]

  -- The callers pass a table with one row for each adapter of the card.
  unfoldable pub ptx_register_adap : ℕ → List DelSys → Bool → Card → Card × ℤ
  ptx_register_adap max_adapters info thread c =
      if ltb max_adapters (length c.adaps)
      then (c, erange)
      else register_loop (take (length c.adaps) info) 0 (record c { thread = thread })

unfoldable pub unregister_one : ℕ → Adap → List Call → List Call
unfolding ptx_unregister_fe
unregister_one i a t =
    let t1 = ptx_unregister_fe i a.fe t in
    let t2 = if a.dmx_close then close_demux i ∷ t1 else t1 in
    let t3 = if a.filter then release (dmx_device i) ∷ t2 else t2 in
    let t4 = if a.cnt_storage then release (dvb_demux i) ∷ t3 else t3 in
    if a.name then release (dvb_adapter i) ∷ t4 else t4

-- The loop runs from the last adapter to the first.
unfoldable pub ptx_unregister_adap : ℕ → List Adap → List Call → List Call
ptx_unregister_adap i [] t = t
ptx_unregister_adap i (a ∷ rest) t = unregister_one i a (ptx_unregister_adap (i + 1) rest t)
