-- ===== src/Section/Pmt.antt =====
-- `set_ca` and `doPMT` of apps/dvb/cmds/pmt.c. The pointer `b` is an index, and `bytes_at` what it points to.
use ptx.Base.{
  ℕ, zero, suc, ◌+◌, ◌*◌, ◌/◌, ◌%◌, ◌^◌, Bool, true, ◌&&◌, ◌||◌, Option, none, some, List, [], ◌∷◌,
  ◌==◌, ◌=/=◌, ltb, leb, if◌then◌else◌, drop,
}
use ptx.Base.Int.{ℤ, pos}
use ptx.Splitter.Crc.{byte}
use ptx.Section.Pat.{same_ver}

abbrev pub desc_ca : ℕ
desc_ca = 0x09

abbrev pub desc_stream_id : ℕ
desc_stream_id = 0x52

abbrev pub id_cas_arib : ℕ
id_cas_arib = 0x0005

abbrev pub max_es : ℕ
max_es = 32

-- `struct ca`, without the pointer to its section.
pub record Ca : Type 0 where
  pub cas_id : ℕ
  pub ca_pid : ℕ
  pub ca_kc_pid : ℕ
  pub kind : ℕ

-- An element of `es`.
pub record Es : Type 0 where
  pub es_type : ℕ
  pub tag : ℕ
  pub es_pid : ℕ
  pub es_ecm : Ca

-- `struct pmt`, where `es` has all its elements; `ver` is VER_NONE, -1, at first.
pub record Pmt : Type 0 where
  pub ver : ℤ
  pub prog_id : ℕ
  pub pcr_pid : ℕ
  pub prog_ecm : Ca
  pub num_es : ℕ
  pub es : List Es

-- The PID in the lowest 13 bits of two bytes.
abbrev pub pid_at : List ℕ → ℕ → ℕ
pid_at b i = byte b i % 2 ^ 5 * 2 ^ 8 + byte b (i + 1)

-- The structure after `set_ca`, which is as it was where the answer is 1.
unfoldable pub set_ca : List ℕ → Bool → Ca → Ca
set_ca b filter ca =
    let id = byte b 2 * 2 ^ 8 + byte b 3 in
    let dlen = byte b 4 / 2 ^ 6 % 2 ^ 2 in
    if byte b 0 =/= desc_ca then ca else if (id =/= id_cas_arib) && filter then ca else record {
      cas_id = id;
      ca_pid = pid_at b 4;
      ca_kc_pid = if leb 3 dlen then pid_at b 7 else 0x1fff;
      kind = if ltb 4 (byte b 1) then byte b 6 else 0;
    }

-- A descriptor in front of the streams, and one of a stream.
unfoldable pub prog_desc : List ℕ → Ca → Ca
prog_desc b ca = if byte b 0 == desc_ca then set_ca b true ca else ca

unfoldable pub es_desc : List ℕ → Es → Es
es_desc b e =
    if byte b 0 == desc_ca
    then record e { es_ecm = set_ca b true e.es_ecm }
    else if byte b 0 == desc_stream_id
    then record e { tag = byte b 2 }
    else e

-- `for (i=0; i<n; )` over descriptors from `b` on: where `b` is at the end, and what they changed.
unfoldable pub desc_loop :
    {S : Type 0} → (List ℕ → S → S) → List ℕ → ℕ → ℕ → ℕ → ℕ → S → Option (ℕ × S)
desc_loop handle buf zero i n b s = none
desc_loop handle buf (suc fuel) i n b s =
    let d = drop b buf in
    let size = byte d 1 + 2 in
    let rest = desc_loop handle buf fuel (i + size) n (b + size) (handle d s) in
    if ltb i n then rest else some (b, s)

-- A stream at `b`: where the next one is, and its element.
unfoldable pub one_es : List ℕ → ℕ → Es → Option (ℕ × Es)
one_es buf b e =
    let d = drop b buf in
    let esinfo_len = byte d 3 % 2 ^ 4 + byte d 4 in
    desc_loop es_desc buf (esinfo_len + 1) 0 esinfo_len (b + 5)
      (record e { es_type = byte d 0; es_pid = pid_at d 1 })

-- `while (b < sec->buf + len - 4)` from `b` on, with the elements of `es` that are not filled yet, whose end
-- is that of the array: how many were filled, and the elements.
unfoldable pub es_streams : List ℕ → ℕ → ℕ → ℕ → List Es → Option (ℕ × List Es)
es_streams buf zero len b es = none
es_streams buf (suc fuel) len b [] = some (0, [])
es_streams buf (suc fuel) len b (e ∷ es) =
    let next = one_es buf b e in
    if ltb (b + 4) len
    then elim next [
      | none ↦ none
      | some (b', e') ↦ elim (es_streams buf fuel len b' es) [
        | none ↦ none
        | some (n, es') ↦ some (suc n, e' ∷ es')
      ]
    ]
    else some (0, e ∷ es)

-- What is read into the structure once the section is accepted.
unfoldable pub accept_pmt : List ℕ → ℕ → ℕ → ℕ → Pmt → Option Pmt
accept_pmt buf len ver prog_id pmt =
    let pinfo_len = byte buf 10 % 2 ^ 4 * 2 ^ 8 + byte buf 11 in
    elim (desc_loop prog_desc buf (pinfo_len + 1) 0 pinfo_len 12 pmt.prog_ecm) [
      | none ↦ none
      | some (b, ecm) ↦ elim (es_streams buf (len + 1) len b pmt.es) [
        | none ↦ none
        | some (n, es) ↦ some (record {
          ver = pos ver;
          prog_id = prog_id;
          pcr_pid = pid_at buf 8;
          prog_ecm = ecm;
          num_es = n;
          es = es;
        })
      ]
    ]

-- `buf[1] & 0xf0 != 0xb0` is `buf[1] & 1`, since `!=` binds tighter; and of `buf[5] & 0x3e0` the
-- highest three bits are left.
unfoldable pub do_pmt : List ℕ → Pmt → Option (ℕ × Pmt)
do_pmt buf pmt =
    let len = byte buf 1 % 2 ^ 4 * 2 ^ 8 + byte buf 2 + 3 in
    let prog_id = byte buf 3 * 2 ^ 8 + byte buf 4 in
    let ver = byte buf 5 / 2 ^ 5 % 2 ^ 3 * 2 ^ 4 in
    if (byte buf 0 =/= 2) || (byte buf 1 % 2 == 1)
    then some (2, pmt)
    else if (byte buf 5 % 2 == 0) || (byte buf 6 =/= 0) || (byte buf 7 =/= 0)
    then some (2, pmt)
    else if same_ver ver pmt.ver && (prog_id == pmt.prog_id)
    then some (1, pmt)
    else if same_ver ver pmt.ver
    then some (2, pmt)
    else elim (accept_pmt buf len ver prog_id pmt) [ none ↦ none | some p ↦ some (0, p) ]
