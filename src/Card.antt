-- ===== src/Card.antt =====
-- drivers/media/pci/ptx/ptx_common.h and ptx_common.c: the state of a card and of its adapters,
-- and the calls that the code makes to the DVB core, the i2c core and the card's own driver.
-- A call is recorded in a trace, newest first; what it answers is a parameter of the operations.
pub mod Lnb
pub mod Feed
pub mod Stream
pub mod Subdev
pub mod Adapter
pub mod Power
pub mod Owned
pub mod Leak
pub mod Twice
mod Tests
use ptx.Base.{ℕ, Bool, true, false, ◌&&◌, Option, none, some, List, [], ◌∷◌, if◌then◌else◌, get_or}
use ptx.Base.Int.{ℤ}

-- `enum fe_delivery_system`, as far as the code tells its values apart.
pub data DelSys : Type 0 where
  isdbs isdbt undefined : DelSys

abbrev pub is_isdbs : DelSys → Bool
is_isdbs isdbs = true
is_isdbs _ = false

-- The two i2c clients of a front end: its demodulator and its tuner.
pub data Chip : Type 0 where
  demod tuner : Chip

-- What the code acquires and gives back, for the adapter of the given index.
pub data Resource : Type 0 where
  dvb_adapter dvb_demux dmx_device fe_memory fe_registered : ℕ → Resource
  client module_ref : ℕ → Chip → Resource

pub data Call : Type 0 where
  lnb : Bool → Call
  fe_sleep fe_wakeup : ℕ → Call
  dma : ℕ → Bool → Call
  thread_run : ℕ → Call
  thread_stop : ℕ → Call
  close_demux : ℕ → Call
  acquire release : Resource → Call

-- `struct i2c_client`: whether a driver is bound to it.
pub record Client : Type 0 where
  pub driver : Bool

-- `struct dvb_frontend`: the delivery system in its property cache, the private pointers that the
-- probes of the two chips set, whether the core has registered it, and which of `ops.sleep` and
-- `ops.init` are set.
pub record Frontend : Type 0 where
  pub delsys : DelSys
  pub demodulator_priv : Option Client
  pub tuner_priv : Option Client
  pub frontend_priv : Bool
  pub op_sleep : Bool
  pub op_init : Bool

-- `struct task_struct *`: no thread, a thread, or an error pointer.
pub data Kthread : Type 0 where
  null : Kthread
  task : Kthread
  err_ptr : ℤ → Kthread

-- `struct ptx_adap`. `dmx_close` says that `dvb_dmx_init` has set `dmx.close`, `cnt_storage` that it has
-- memory for its counters, `filter` that `dvb_dmxdev_init` has set `dmxdev.filter`, `name` that the adapter has a name.
pub record Adap : Type 0 where
  pub on : Bool
  pub name : Bool
  pub dmx_close : Bool
  pub cnt_storage : Bool
  pub filter : Bool
  pub fe : Option Frontend
  pub kthread : Kthread
  pub sleep_hook : Bool
  pub wakeup_hook : Bool

-- An adapter as `kzalloc` leaves it.
abbrev pub zeroed : Adap
zeroed = record {
  on = false;
  name = false;
  dmx_close = false;
  cnt_storage = false;
  filter = false;
  fe = none;
  kthread = null;
  sleep_hook = false;
  wakeup_hook = false;
}

-- `struct ptx_card`: `adapn` is the length of `adaps`; `thread` says whether the card has one.
pub record Card : Type 0 where
  pub adaps : List Adap
  pub lnb_on : Bool
  pub thread : Bool
  pub trace : List Call

abbrev pub adap_of : Card → ℕ → Adap
adap_of c i = get_or c.adaps i zeroed
