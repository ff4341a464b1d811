-- ===== src/Card/Subdev.antt =====
-- `ptx_register_subdev`, `ptx_unregister_subdev`, `ptx_register_fe` and `ptx_unregister_fe` of
-- drivers/media/pci/ptx/ptx_common.c.
use ptx.Base.{ℕ, Bool, true, false, ◌&&◌, Option, none, some, List, ◌∷◌, if◌then◌else◌, is_some}
use ptx.Card.{
  DelSys, Chip, demod, tuner, fe_memory, fe_registered, client, module_ref, Call, acquire, release,
  Client, Frontend,
}

-- What the kernel answers while the driver of one chip is attached: whether `request_module` and
-- `i2c_new_client_device` succeed, whether the chip's probe stores its client in the front end,
-- whether a driver is bound afterwards, whether `try_module_get` succeeds, and which of
-- `ops.sleep` and `ops.init` a demodulator's probe leaves set.
pub record Probe : Type 0 where
  pub requested : Bool
  pub created : Bool
  pub stored : Bool
  pub bound : Bool
  pub pinned : Bool
  pub op_sleep : Bool
  pub op_init : Bool

unfoldable pub ptx_unregister_subdev : ℕ → Chip → Option Client → List Call → List Call
ptx_unregister_subdev i chip none t = t
ptx_unregister_subdev i chip (some c) t =
    release (client i chip) ∷ (if c.driver then release (module_ref i chip) ∷ t else t)

-- What the probe of a chip stores in the front end.
unfoldable pub probed : Chip → Probe → Frontend → Frontend
probed demod p fe = record fe {
  demodulator_priv = if p.stored then some (record { driver = p.bound }) else fe.demodulator_priv;
  op_sleep = p.op_sleep;
  op_init = p.op_init;
}
probed tuner p fe = record fe {
  tuner_priv = if p.stored then some (record { driver = p.bound }) else fe.tuner_priv;
}

unfoldable pub ptx_register_subdev : ℕ → Chip → Probe → Frontend → List Call → Frontend × List Call
unfolding ptx_unregister_subdev probed
ptx_register_subdev i chip p fe t =
    if p.requested && p.created
    then (let t' = acquire (client i chip) ∷ t in
        if p.bound && p.pinned then (probed chip p fe, acquire (module_ref i chip) ∷ t') else (
          probed chip p fe,
          ptx_unregister_subdev i chip (some (record { driver = p.bound })) t',
        ))
    else (fe, t)

unfoldable pub ptx_unregister_fe : ℕ → Option Frontend → List Call → List Call
unfolding ptx_unregister_subdev
ptx_unregister_fe i none t = t
ptx_unregister_fe i (some fe) t =
    release (fe_memory i)
    ∷ ptx_unregister_subdev i demod fe.demodulator_priv (
        ptx_unregister_subdev i tuner fe.tuner_priv
          (if fe.frontend_priv then release (fe_registered i) ∷ t else t))

-- What `kzalloc`, the two attachments and `dvb_register_frontend` answer for one front end.
pub record FrontendAnswers : Type 0 where
  pub allocated : Bool
  pub demod_probe : Probe
  pub tuner_probe : Probe
  pub fe_accepted : Bool

-- A front end as `kzalloc` leaves it, for the delivery system of the subdevice table.
abbrev pub blank : DelSys → Frontend
blank sys = record {
  delsys = sys;
  demodulator_priv = none;
  tuner_priv = none;
  frontend_priv = false;
  op_sleep = false;
  op_init = false;
}

-- The end of `ptx_register_fe`: the core is asked only if both probes stored their client.
unfoldable pub accept_fe : ℕ → Bool → Frontend → List Call → Option Frontend × List Call
accept_fe i accepted fe t =
    if is_some fe.demodulator_priv && is_some fe.tuner_priv && accepted
    then (some (record fe { frontend_priv = true }), acquire (fe_registered i) ∷ t)
    else (none, ptx_unregister_fe i (some fe) t)

unfoldable pub ptx_register_fe :
    ℕ → DelSys → FrontendAnswers → List Call → Option Frontend × List Call
ptx_register_fe i sys e t =
    if e.allocated
    then (let (fe1, t1) =
          ptx_register_subdev i demod e.demod_probe (blank sys) (acquire (fe_memory i) ∷ t) in
        let (fe2, t2) = ptx_register_subdev i tuner e.tuner_probe fe1 t1 in
        accept_fe i e.fe_accepted fe2 t2)
    else (none, t)
