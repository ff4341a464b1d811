-- ===== src/Lib.antt =====
-- The ptx drivers and tools: the DVB drivers of the Earthsoft PT3 and its kin, and the splitter that
-- records chosen services from a transport stream.
--
-- How the parts work together. drivers/media/pci/ptx/pt3_pci.c drives the PCIe bridge of the card; its
-- probe allocates the card and registers, through drivers/media/pci/ptx/ptx_common.c, one adapter for
-- each of the card's four receivers. A receiver is a demodulator (drivers/media/dvb-
-- frontends/tc90522.c) with a tuner (drivers/media/tuners), both reached over the I2C bus of the
-- bridge. Once tuned, the bridge writes blocks of the transport stream into a ring of memory, from
-- which a thread hands them to the kernel's demultiplexer. drivers/media/pci/ptx/pxq3pe_pci.c does the
-- same for the eight receivers of the PX-Q3PE: its interrupt sorts the packets of a transfer into the
-- buffers of the adapters, and a thread of each adapter descrambles and hands over what its buffer
-- holds. In user space the recorder (apps/cdev/recpt1/recpt1.c and recpt1core.c) opens and tunes a
-- device, reads its stream into buffers and hands them through a queue to a thread that writes them to
-- a file, after apps/cdev/recpt1/tssplitter_lite.c has kept the packets of the services asked for. The
-- tools of apps/dvb/cmds put the tables of a stream together from its packets (section.c), to find out
-- from the PAT (pat.c) and the PMTs (pmt.c) what a channel carries; fixpcr.c there makes the time
-- stamps of a recording consecutive.
--
-- The files:
--   Base        names, lists, options and signed integers that the other files share.
--   Card        drivers/media/pci/ptx/ptx_common.h and ptx_common.c. Card.antt has the structures,
--               Card/Lnb ptx_lnb, ptx_sleep and ptx_wakeup, Card/Feed the feeds, Card/Subdev and
--               Card/Adapter the registration and its reversal. Calls to the kernel are recorded in a
--               trace, and what the kernel answers is an argument. Card/Leak and Card/Twice
--               follow what is taken and given back, Twice where a tuner's probe fails after it
--               has stored its client.
--   Demod       drivers/media/dvb-frontends/tc90522.c. Demod/Number and Demod/Frequency have its
--               conversions, Demod/Tune tc90522_tune over a bus of any state.
--   Pt3         drivers/media/pci/ptx/pt3_pci.c. Pt3/I2c has the instructions that pt3_i2c_xfr packs,
--               Pt3/Codes these as a list, Pt3/Xfr pt3_i2c_flush and pt3_i2c_xfr, Pt3/Ring and
--               Pt3/Memory dma_create and what pt3_remove frees, Pt3/Dma pt3_dma_run and pt3_thread,
--               Pt3/Probe the ways out of pt3_probe.
--   Pxq3pe      drivers/media/pci/ptx/pxq3pe_pci.c. Pxq3pe/Ring has struct pxq3pe_adap and
--               pxq3pe_dma_put_stream, Pxq3pe/Irq pxq3pe_irq, Pxq3pe/Thread pxq3pe_thread, Pxq3pe/Dma
--               pxq3pe_dma. The device is any state that its registers are read from and written to.
--   Recorder    apps/cdev/recpt1. Recorder/Queue has the queue of recpt1.h and recpt1.c, Recorder/Write
--               the loop of reader_func that writes to the file, Recorder/Tune tune and close_tuner of
--               recpt1core.c, Recorder/Mkpath mkpath.c. What the other threads and the system do is an
--               argument.
--   Section     apps/dvb/cmds/section.c, pat.c and pmt.c, with the structures of nitscan.h beside
--               them. Section/Assemble has doSection, Section/Pat doPAT, Section/Pmt set_ca and doPMT.
--   Splitter    apps/cdev/recpt1/tssplitter_lite.c and tssplitter_lite.h. Splitter/Sid has AnalyzeSid,
--               Splitter/Crc GetCrc32 and GetPid, Splitter/Rebuild RecreatePat, Splitter/Select
--               AnalyzePat, Splitter/Pmt AnalyzePmt, Splitter/Split ReadTs, RescanPID and split_ts.
--   Stamps      apps/dvb/cmds/fixpcr.c, and get_pcr of restamp.c. Stamps/Clock has the time stamps as they
--               stand in a packet, Stamps/Packet what main does to a packet, Stamps/Stream its loop.
--   Tuner       drivers/media/tuners/qm1d1c004x.c and mxl301rf.c: what their tune functions compute.
-- The other modules of a part hold its proofs, and its Tests apply them at concrete inputs.
--
-- How the code is modelled. Integers are natural numbers with the wrap-around of their width written
-- out; an int that may be negative is the type of Base/Int. A table indexed by a PID is a function. A
-- packet is the list of its 188 bytes, and a read behind its end gives 0. Where the code writes past
-- the end of a buffer, or reads through a null pointer, the model has no result. Values of variables
-- that the code does not set are arguments.
--
-- Locks are not modelled: a function that holds one runs as a single step, and where it waits the
-- other threads may do anything that keeps the queue in order. pxq3pe_irq, pxq3pe_thread and a round of
-- pt3_thread run as single steps too, although they hold no lock: what the interrupt does in the middle of
-- a round of the thread is not modelled, which matters for sBufByteCnt, which both change. An address of
-- the memory that the card reads and the pointer to the same memory are one number.
--
-- Bounds. The waits for the recorder's queue end after 61 rounds by the code's own count, and the loop
-- over the separators of a path has one round more than there are bytes. The rounds of pxq3pe_irq and
-- of the descrambling are those of the code; the retries of a device that is asked for have no bound,
-- and their fuel is an argument, with the condition that they end within it. In AnalyzePmt the loops
-- over descriptors run on 128 rounds: each passes two bytes, and they end at a byte; the loop over the
-- streams has the code's own limit. In doPMT both loops have one round more than the bytes that they
-- pass. In fixpcr the search for a sequence header has 188 rounds, one for each byte of a packet, and
-- the loop over the input has one round more than there are bytes. The loop over a list of services
-- has one round more than there are pieces. The waits for the demodulator and for the DMA have the
-- code's 999 rounds; the wait for the I2C sequence has none, and its fuel is an argument, with the
-- condition that each sequence stops within it. The loop over the sections of a packet runs on 62
-- rounds: each takes three bytes or more of 183.
--
-- Not modelled: tc90522_status, whose arithmetic stands on functions of the kernel; ptx_alloc and
-- ptx_abort; the order in which the tuners write their registers; the I2C, the pins, the probe and the
-- removal of the PX-Q3PE; the other tuners; the drivers under drivers/video; em28xx, which is the
-- kernel's driver with a few lines changed; the messages of fixpcr, and what lies behind its table of
-- frame rates, which is taken as 0; the recorder's command line, messages, sockets, decoder and
-- channel tables; and the other tools of apps/dvb/cmds.
pub mod Base
pub mod Card
pub mod Demod
pub mod Pt3
pub mod Pxq3pe
pub mod Recorder
pub mod Section
pub mod Splitter
pub mod Stamps
pub mod Tuner
