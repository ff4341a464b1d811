-- ===== src/Stamps/Packet.antt =====
-- What `main` of apps/dvb/cmds/fixpcr.c does to a packet. The pointer `p` is an index, and the packets
-- are whole: a read behind the end gives 0, and a write there is an `overrun`.
use ptx.Base.{
  ℕ, zero, suc, ◌+◌, ◌-◌, ◌*◌, ◌/◌, ◌%◌, ◌^◌, Bool, not, ◌&&◌, ◌||◌, Option, none, some, List, [],
  ◌∷◌, ◌==◌, ◌=/=◌, ltb, leb, if◌then◌else◌, get_or, modify, memcpy,
}
use ptx.Splitter.Crc.{byte, get_pid}
use ptx.Stamps.Clock.{
  uint64, pts_threshold, pts_diff, get_pcr, get_pts, set_pts, pcr_bytes, get_escr, escr_bytes,
}

-- An element of `prev_pes`.
pub record Pes : Type 0 where
  pub val : ℕ
  pub step : ℕ

pub record Stamps : Type 0 where
  pub offset : ℕ
  pub prev_pcr : ℕ
  pub prev_pes : List Pes
  pub pcr_pid : ℕ

-- How a packet ends: the program gives up, or writes past the packet, or has looked for a sequence header
-- for more rounds than are allowed, or goes on with what it has changed.
pub data PacketOutcome : Type 0 where
  bailout : PacketOutcome
  overrun : PacketOutcome
  stuck : PacketOutcome
  next : List ℕ → Stamps → PacketOutcome

-- `fr_steps`, which has 15 elements, and `sr_steps`.
abbrev pub fr_steps : List ℕ
fr_steps =
    1 ∷ 1126125 ∷ 1125000 ∷ 1080000 ∷ 900900 ∷ 900000 ∷ 540000 ∷ 450450 ∷ 450000 ∷ 1 ∷ 1 ∷ 1 ∷ 1 ∷ 1
    ∷ 1 ∷ []

abbrev pub sr_steps : List ℕ
sr_steps =
    288000 ∷ 313469 ∷ 432000 ∷ 576000 ∷ 626938 ∷ 864000 ∷ 1152000 ∷ 1253877 ∷ 1728000 ∷ 2304000
    ∷ 2507755 ∷ 3456000 ∷ 1 ∷ 1 ∷ 1 ∷ 1 ∷ []

-- Both differences pass the limit.
abbrev pub jumps : ℕ → ℕ → ℕ → Bool
jumps limit new prev = ltb limit (pts_diff new prev) && ltb limit (pts_diff prev new)

-- The new PCR for the one read.
unfoldable pub shift_pcr : ℕ → Stamps → ℕ × Stamps
shift_pcr base s =
    let newpts = pts_diff base s.offset in
    let after = uint64 (s.prev_pcr + 4500 * 300) in
    if jumps pts_threshold newpts s.prev_pcr
    then (after, record s { offset = pts_diff base after; prev_pcr = after })
    else (newpts, record s { prev_pcr = newpts })

abbrev pub has_pcr : List ℕ → Bool
has_pcr buf = (byte buf 3 / 2 ^ 5 % 2 == 1) && leb 7 (byte buf 4) && (byte buf 5 / 2 ^ 4 % 2 == 1)

-- Where the PCR that counts is: the original one, if there is one.
abbrev pub pcr_at : List ℕ → ℕ
pcr_at buf = if leb 12 (byte buf 4) && (byte buf 5 / 2 ^ 3 % 2 == 1) then 13 else 6

unfoldable pub fix_pcr : Bool → ℕ → List ℕ → Stamps → PacketOutcome
fix_pcr force pid buf s =
    let (newpts, s') = shift_pcr (get_pcr buf (pcr_at buf)) (record s { pcr_pid = pid }) in
    if has_pcr buf
    then if (s.pcr_pid =/= 0x2000) && (pid =/= s.pcr_pid) && not force
      then bailout
      else elim (memcpy buf 6 (pcr_bytes newpts)) [ none ↦ overrun | some b ↦ next b s' ]
    else next buf s

abbrev pub no_pes : Pes
no_pes = record { val = 0; step = 0 }

abbrev pub pes_of : Stamps → ℕ → Pes
pes_of s st = get_or s.prev_pes st no_pes

abbrev pub set_step : ℕ → ℕ → Stamps → Stamps
set_step st step s = record s { prev_pes = modify s.prev_pes st (λ e. record e { step = step }) }

-- The new DTS or PTS for the one read, where `check` says that a jump is looked for.
unfoldable pub shift_pes : Bool → ℕ → ℕ → Stamps → ℕ × Stamps
shift_pes check base st s =
    let prev = pes_of s st in
    let newpts = pts_diff base s.offset in
    let after = uint64 (prev.val + prev.step) in
    if check && jumps (2 * pts_threshold) newpts prev.val
    then (
      after,
      record s {
        offset = pts_diff base after;
        prev_pes = modify s.prev_pes st (λ e. record e { val = after });
      },
    )
    else (newpts, record s { prev_pes = modify s.prev_pes st (λ e. record e { val = newpts }) })

-- How far the search for a sequence header goes on from `j`, and 0 where there is one.
unfoldable pub skip : List ℕ → ℕ → ℕ
skip buf j =
    if byte buf (j + 1) =/= 0
    then 2
    else if ltb 1 (byte buf (j + 2))
    then 3
    else if byte buf (j + 2) == 0
    then 1
    else if (byte buf j =/= 0) || (byte buf (j + 3) =/= 0xb3)
    then 3
    else 0

-- The loop that looks for a sequence header from `j` on: where it is, if there is one.
unfoldable pub find_sequence : List ℕ → ℕ → ℕ → Option (Option ℕ)
find_sequence buf zero j = none
find_sequence buf (suc fuel) j =
    let n = skip buf j in
    let rest = find_sequence buf fuel (j + n) in
    if ltb (j + 7) 188 then if n == 0 then some (some j) else rest else some none

-- The frame rate in the header of the sequence that a video PES at `p` begins with.
unfoldable pub fix_rate : List ℕ → ℕ → ℕ → Stamps → PacketOutcome
fix_rate buf p st s = elim (find_sequence buf 188 (p + (9 + byte buf (p + 8)))) [
  | none ↦ stuck
  | some none ↦ next buf s
  | some (some j) ↦ next buf (set_step st (get_or fr_steps (byte buf (j + 7) % 2 ^ 4) 0) s)
]

abbrev pub has_pts : List ℕ → ℕ → Bool
has_pts buf p = byte buf (p + 7) / 2 ^ 7 % 2 == 1

abbrev pub has_dts : List ℕ → ℕ → Bool
has_dts buf p = byte buf (p + 7) / 2 ^ 6 % 2 == 1

unfoldable pub fix_dts : List ℕ → ℕ → ℕ → Stamps → PacketOutcome
fix_dts buf p st s =
    let (newpts, s') = shift_pes (leb 3 st) (get_pts buf (p + 14) * 300) st s in
    if has_dts buf p
    then elim (set_pts buf (p + 14) (newpts / 300)) [
      | none ↦ overrun
      | some b ↦ if leb 35 st then fix_rate b p st s' else next b s'
    ]
    else next buf s

-- The body of an audio PES begins with a frame of AAC.
abbrev pub is_aac : List ℕ → ℕ → Bool
is_aac buf q =
    (byte buf q == 0xff) && (byte buf (q + 1) / 2 ^ 4 == 15) && (byte buf (q + 1) / 2 % 2 ^ 2 == 0)

unfoldable pub fix_pts : List ℕ → ℕ → ℕ → Stamps → PacketOutcome
fix_pts buf p st s =
    let dts = has_dts buf p in
    let (newpts, s') = shift_pes (leb 3 st && not dts) (get_pts buf (p + 9) * 300) st s in
    let q = p + (9 + byte buf (p + 8)) in
    if has_pts buf p
    then elim (set_pts buf (p + 9) (newpts / 300)) [
      | none ↦ overrun
      | some b ↦
          if leb 3 st && ltb st 35 && is_aac b q
          then next b (set_step st (get_or sr_steps (byte b (q + 2) / 2 ^ 2 % 2 ^ 4) 0) s')
          else if leb 35 st && not dts
          then fix_rate b p st s'
          else next b s'
    ]
    else next buf s

unfoldable pub fix_escr : List ℕ → ℕ → Stamps → PacketOutcome
fix_escr buf p s =
    let q = p + 9 + (if has_pts buf p then 5 else 0) + (if has_dts buf p then 5 else 0) in
    let newpts = pts_diff (get_escr buf q) s.offset in
    if not (byte buf (p + 7) / 2 ^ 5 % 2 == 1)
    then next buf s
    else if leb 188 (q + 6)
    then next buf s
    else elim (memcpy buf q (escr_bytes newpts)) [ none ↦ overrun | some b ↦ next b s ]

abbrev pub and_then : PacketOutcome → (List ℕ → Stamps → PacketOutcome) → PacketOutcome
and_then bailout f = bailout
and_then overrun f = overrun
and_then stuck f = stuck
and_then (next b s) f = f b s

-- The DTS, the PTS and the ESCR of a PES whose header begins in the packet.
unfoldable pub fix_pes : List ℕ → Stamps → PacketOutcome
fix_pes buf s =
    let p = if byte buf 3 / 2 ^ 5 % 2 == 1 then 4 + (byte buf 4 + 1) else 4 in
    let id = byte buf (p + 3) in
    let st = id - 0xbd in
    if (byte buf 1 / 2 ^ 6 % 2 == 0) || (byte buf 3 / 2 ^ 4 % 2 == 0)
    then next buf s
    else if leb 188 (p + 14)
    then next buf s
    else if (byte buf p =/= 0) || (byte buf (p + 1) =/= 0) || (byte buf (p + 2) =/= 1)
    then next buf s
    else if (id =/= 0xbd) && (ltb id 0xbf || ltb 0xef id)
    then next buf s
    else and_then (fix_dts buf p st s)
        (λ b1 s1. and_then (fix_pts b1 p st s1) (λ b2 s2. fix_escr b2 p s2))

unfoldable pub fix_packet : Bool → List ℕ → Stamps → PacketOutcome
fix_packet force buf s =
    let pid = get_pid buf 1 in
    if ltb pid 0x30 || (pid == 0x1fff) || (byte buf 1 / 2 ^ 7 % 2 == 1)
    then next buf s
    else and_then (fix_pcr force pid buf s) fix_pes
