-- ===== src/Stamps/RoundTrip.antt =====
-- What `set_pts` and the ESCR of apps/dvb/cmds/fixpcr.c hold when they are read again.
use ptx.Base.{
  ℕ, ◌+◌, ◌*◌, ◌/◌, ◌%◌, ◌^◌, ◌<◌, ◌≤◌, ◌≡◌, refl, ◌∙◌, false, some, List, leb, if◌then◌else◌,
  arith, take, drop, length, memcpy_fits, spliced, length-spliced, drop-spliced, take-append_le,
  take-take, length-take,
}
use ptx.Splitter.Crc.{byte}
use ptx.Stamps.Clock.{pts_end, pts_diff, get_pts, pts_bytes, set_pts, get_escr, escr_bytes}
use ptx.Stamps.Written.{get_pts-spliced, get_escr-spliced}
use ptx.Stamps.Packet.{Stamps, next, has_pts, has_dts, fix_escr}

-- What a write of `src` at `i` leaves of the bytes around it.
abbrev pub Around : List ℕ → ℕ → ℕ → List ℕ → Type 0
Around buf i n b =
    (take i b ≡ take i buf) × (drop (i + n) b ≡ drop (i + n) buf) × (length b ≡ length buf)

pub spliced-Around :
    (buf : List ℕ) (i : ℕ) (src : List ℕ)
    → i + length src ≤ length buf
    → Around buf i (length src) (spliced buf i src)
spliced-Around buf i src h = (
  take-append_le i (take i buf) _ (omega (arith, h, length-take i buf))
      ∙ take-take i i buf (omega arith),
  drop-spliced buf i (i + length src) src h refl,
  length-spliced buf i src h,
)

-- A time stamp of 33 bits that is written into a packet, with room for its five bytes, is the one
-- that is read there, and the bytes around it are as they were.
pub set_pts_lem :
    (buf : List ℕ) (p val : ℕ)
    → p + 5 ≤ length buf
    → val < pts_end
    → (b : List ℕ) × (set_pts buf p val ≡ some b) × (get_pts b p ≡ val) × Around buf p 5 b
unfolding set_pts pts_bytes
set_pts_lem buf p val h small =
    let src = pts_bytes (byte buf p) val in
    (
      spliced buf p src,
      memcpy_fits buf p src h,
      get_pts-spliced buf p (byte buf p) val h small,
      spliced-Around buf p src h,
    )

-- Where the ESCR of a PES is.
abbrev pub escr_at : List ℕ → ℕ → ℕ
escr_at buf p = p + 9 + (if has_pts buf p then 5 else 0) + (if has_dts buf p then 5 else 0)

-- Whatever ESCR a PES has, with the six bytes of it and one more in the packet: what `fixpcr` writes in
-- its place is below 2 ^ 13 ticks of 90 kHz, since all higher bits are shifted out.
pub fix_escr-lost :
    (buf : List ℕ) (p : ℕ) (s : Stamps)
    → byte buf (p + 7) / 2 ^ 5 % 2 ≡ 1
    → escr_at buf p + 6 < 188
    → length buf ≡ 188
    → (b : List ℕ) × (fix_escr buf p s ≡ next b s) × (get_escr b (escr_at buf p) < 2 ^ 13 * 300)
unfolding fix_escr escr_bytes
fix_escr-lost buf p s has fits whole =
    let q = escr_at buf p in
    let n = pts_diff (get_escr buf q) s.offset in
    let src = escr_bytes n in
    let room : q + 6 ≤ length buf = omega (arith, fits, whole) in
    let inside : leb 188 (q + 6) ≡ false = ground (arith, fits) in
    (
      spliced buf q src,
      rw (fix_escr, has, inside, memcpy_fits buf q src room) refl,
      get_escr-spliced buf q n room,
    )
