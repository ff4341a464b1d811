-- ===== src/Section/Meaning.antt =====
-- That `doPMT` of apps/dvb/cmds/pmt.c reads a section as its descriptors mean it.
use ptx.Base.{ℕ, ◌*◌, ◌/◌, ◌%◌, ◌^◌, Bool, true, ◌&&◌, List, [], ◌∷◌, map, ltb, length}
use ptx.Base.Int.{pos}
use ptx.Section.Pmt.{Es, Pmt}
use ptx.Section.Descriptors.{PmtStream, all_desc_bytes}
use ptx.Section.PmtSection.{pmt_section, section_len}
use ptx.Section.Said.{Said, coded, all_sayable, all_access, all_tagged}

-- A stream by what its descriptors say.
pub record SaidStream : Type 0 where
  pub stream_kind : ℕ
  pub stream_pid : ℕ
  pub says : List Said

abbrev pub coded_stream : SaidStream → PmtStream
coded_stream st = record { kind = st.stream_kind; pid = st.stream_pid; descs = map coded st.says }

-- The descriptors take less than 256 bytes.
abbrev pub is_fit : SaidStream → Bool
is_fit st =
    ltb (length (all_desc_bytes (map coded st.says))) (2 ^ 8)
    && (ltb st.stream_pid (2 ^ 13) && all_sayable st.says)

unfoldable pub all_fit : List SaidStream → Bool
all_fit [] = true
all_fit (st ∷ sts) = is_fit st && all_fit sts

-- The array once it is filled.
unfoldable pub filled : List SaidStream → List Es → List Es
filled [] es = es
filled (st ∷ sts) [] = []
filled (st ∷ sts) (e ∷ es) =
    record {
      es_type = st.stream_kind;
      tag = all_tagged st.says e.tag;
      es_pid = st.stream_pid;
      es_ecm = all_access st.says e.es_ecm;
    }
    ∷ filled sts es

module _ (ver_byte prog_id pcr_pid : ℕ) (says : List Said) (sts : List SaidStream)
    (crc : List ℕ) where
  abbrev pub said_section : List ℕ
  said_section = pmt_section ver_byte prog_id pcr_pid (map coded says) (map coded_stream sts) crc

  abbrev pub said_len : ℕ
  said_len = section_len ver_byte prog_id pcr_pid (map coded says) (map coded_stream sts) crc

  -- The version as the code keeps it.
  abbrev pub said_ver : ℕ
  said_ver = ver_byte / 2 ^ 5 % 2 ^ 3 * 2 ^ 4

  -- The structure once it is filled.
  abbrev pub as_said : Pmt → Pmt
  as_said pmt = record {
    ver = pos said_ver;
    prog_id = prog_id;
    pcr_pid = pcr_pid;
    prog_ecm = all_access says pmt.prog_ecm;
    num_es = length sts;
    es = filled sts pmt.es;
  }
