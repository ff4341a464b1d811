-- ===== src/Section/PmtTests.antt =====
-- A PMT in `doPMT` of apps/dvb/cmds/pmt.c, and the theorems applied to it.
use ptx.Base.{ℕ, ◌≡◌, ◌⊎◌, some, List, [], ◌∷◌, replicate}
use ptx.Base.Int.{negsuc}
use ptx.Section.Pmt.{Ca, Es, Pmt, do_pmt}
use ptx.Section.Said.{ca_plain, ca_full, component, other, Said}
use ptx.Section.Meaning.{SaidStream}
use ptx.Section.PmtReturns.{do_pmt-returns}

abbrev no_ca : Ca
no_ca = record { cas_id = 0; ca_pid = 0x1fff; ca_kc_pid = 0x1fff; kind = 0 }

abbrev no_es : Es
no_es = record { es_type = 0; tag = 0; es_pid = 0; es_ecm = no_ca }

abbrev no_pmt : Pmt
no_pmt = record {
  ver = negsuc 0;
  prog_id = 0;
  pcr_pid = 0;
  prog_ecm = no_ca;
  num_es = 0;
  es = replicate 32 no_es;
}

-- A programme under ARIB's CAS with a video stream and an audio stream, which have their tags, the
-- latter with an access of its own.
abbrev programme : List Said
programme = ca_plain 5 0x110 ∷ ca_plain 10 0x113 ∷ other 0xf6 (1 ∷ []) ∷ []

abbrev two_streams : List SaidStream
two_streams =
    record { stream_kind = 0x02; stream_pid = 0x111; says = component 0 ∷ [] }
    ∷ record {
      stream_kind = 0x0f;
      stream_pid = 0x112;
      says = component 0x10 ∷ ca_full 5 0x114 7 0x115 ∷ [];
    }
    ∷ []

do_pmt-returns_example :
    (answer : ℕ) × (pmt' : Pmt) × (do_pmt (0x02 ∷ 0xb0 ∷ []) no_pmt ≡ some (answer, pmt'))
    × ((answer ≡ 0) ⊎ (pmt' ≡ no_pmt) × ((answer ≡ 1) ⊎ (answer ≡ 2)))
do_pmt-returns_example = do_pmt-returns (0x02 ∷ 0xb0 ∷ []) no_pmt
