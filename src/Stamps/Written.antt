-- ===== src/Stamps/Written.antt =====
-- What `set_pts` and the writes of a PCR and an ESCR of apps/dvb/cmds/fixpcr.c leave in a packet.
use ptx.Base.{
  ℕ, zero, suc, ◌+◌, ◌*◌, ◌/◌, ◌%◌, ◌^◌, ◌<◌, ◌≤◌, ◌≡◌, refl, ap, ◌∙◌, List, [], ◌∷◌, ◌++◌, arith,
  take, drop, length, get_or, spliced,
}
use ptx.Splitter.Crc.{byte}
use ptx.Stamps.Clock.{
  pts_end, uint64, widened, plain_pcr, get_pts, pts_bytes, pcr_bytes, get_escr, escr_bytes,
}

get_or-spliced_first :
    (src rest : List ℕ) (k : ℕ) → k < length src → get_or (src ++ rest) k 0 ≡ get_or src k 0
get_or-spliced_first [] rest k h = absurd (omega (arith, h))
get_or-spliced_first (x ∷ src) rest zero h = refl
get_or-spliced_first (x ∷ src) rest (suc k) h = get_or-spliced_first src rest k (omega (arith, h))

get_or-take_append :
    (dst tail : List ℕ) (i j k : ℕ)
    → i ≤ length dst
    → j ≡ i + k
    → get_or (take i dst ++ tail) j 0 ≡ get_or tail k 0
get_or-take_append dst tail zero j k h e = ap (λ m. get_or tail m 0) (omega (arith, e))
get_or-take_append [] tail (suc i) j k h e = absurd (omega (arith, h))
get_or-take_append (x ∷ dst) tail (suc i) zero k h e = absurd (omega (arith, e))
get_or-take_append (x ∷ dst) tail (suc i) (suc j) k h e =
    get_or-take_append dst tail i j k (omega (arith, h)) (omega (arith, e))

-- The bytes that were written are read.
byte-spliced :
    (dst src : List ℕ) (i k : ℕ)
    → i ≤ length dst
    → k < length src
    → byte (spliced dst i src) (i + k) ≡ byte src k
byte-spliced dst src i k fits h =
    get_or-take_append dst (src ++ drop (i + length src) dst) i (i + k) k fits refl
    ∙ get_or-spliced_first src (drop (i + length src) dst) k h

byte-spliced_head :
    (dst src : List ℕ) (i : ℕ)
    → i ≤ length dst
    → 0 < length src
    → byte (spliced dst i src) i ≡ byte src 0
byte-spliced_head dst src i fits h =
    ap (λ j. byte (spliced dst i src) j) (omega arith) ∙ byte-spliced dst src i 0 fits h

pub get_pts-spliced :
    (buf : List ℕ) (p b val : ℕ)
    → p + 5 ≤ length buf
    → val < pts_end
    → get_pts (spliced buf p (pts_bytes b val)) p ≡ val
unfolding get_pts pts_bytes
get_pts-spliced buf p b val fits h =
    let src = pts_bytes b val in
    rw
      (
        get_pts,
        byte-spliced_head buf src p (omega (arith, fits)) (omega arith),
        byte-spliced buf src p 1 (omega (arith, fits)) (omega arith),
        byte-spliced buf src p 2 (omega (arith, fits)) (omega arith),
        byte-spliced buf src p 3 (omega (arith, fits)) (omega arith),
        byte-spliced buf src p 4 (omega (arith, fits)) (omega arith),
      )
      (omega (arith, h))

pub plain_pcr-spliced :
    (buf : List ℕ) (p n : ℕ)
    → p + 6 ≤ length buf
    → n < pts_end * 300
    → plain_pcr (spliced buf p (pcr_bytes n)) p ≡ n
unfolding plain_pcr pcr_bytes
plain_pcr-spliced buf p n fits h =
    let src = pcr_bytes n in
    rw
      (
        plain_pcr,
        byte-spliced_head buf src p (omega (arith, fits)) (omega arith),
        byte-spliced buf src p 1 (omega (arith, fits)) (omega arith),
        byte-spliced buf src p 2 (omega (arith, fits)) (omega arith),
        byte-spliced buf src p 3 (omega (arith, fits)) (omega arith),
        byte-spliced buf src p 4 (omega (arith, fits)) (omega arith),
        byte-spliced buf src p 5 (omega (arith, fits)) (omega arith),
      )
      (omega (arith, h))

-- All but the lowest bits of the base are shifted out.
escr_sum :
    (q e : ℕ)
    → (q * 2 ^ 29 / 2 ^ 3 % 2 ^ 3 * 2 ^ 3 + 4 + q * 2 ^ 28 % 2 ^ 2) / 2 ^ 3 % 2 ^ 3 * 2 ^ 30
        + (q * 2 ^ 29 / 2 ^ 3 % 2 ^ 3 * 2 ^ 3 + 4 + q * 2 ^ 28 % 2 ^ 2) % 2 ^ 2 * 2 ^ 28
        + q * 2 ^ 20 % 2 ^ 8 * 2 ^ 20
        + (q * 2 ^ 12 / 2 ^ 3 % 2 ^ 5 * 2 ^ 3 + 4 + q * 2 ^ 13 % 2 ^ 2) / 2 ^ 3 % 2 ^ 5 * 2 ^ 15
        + (q * 2 ^ 12 / 2 ^ 3 % 2 ^ 5 * 2 ^ 3 + 4 + q * 2 ^ 13 % 2 ^ 2) % 2 ^ 2 * 2 ^ 13
        + q * 2 ^ 5 % 2 ^ 8 * 2 ^ 5
        + (q * 2 ^ 3 / 2 ^ 3 % 2 ^ 5 * 2 ^ 3 + 4 + e / 2 ^ 7 % 2 ^ 2) / 2 ^ 3 % 2 ^ 5
      ≡ q % 2 ^ 3 * 2 ^ 10 + q % 2 ^ 5
escr_sum q e = omega arith

escr_bound : (x e : ℕ) → x < 2 ^ 13 → e < 300 → suc (uint64 (widened x * 300 + e)) ≤ 2 ^ 13 * 300
escr_bound x e h f = ground (arith, h, f)

pub get_escr-spliced :
    (buf : List ℕ) (p n : ℕ)
    → p + 6 ≤ length buf
    → get_escr (spliced buf p (escr_bytes n)) p < 2 ^ 13 * 300
unfolding get_escr escr_bytes
get_escr-spliced buf p n fits =
    let src = escr_bytes n in
    rw
      (
        get_escr,
        byte-spliced_head buf src p (omega (arith, fits)) (omega arith),
        byte-spliced buf src p 1 (omega (arith, fits)) (omega arith),
        byte-spliced buf src p 2 (omega (arith, fits)) (omega arith),
        byte-spliced buf src p 3 (omega (arith, fits)) (omega arith),
        byte-spliced buf src p 4 (omega (arith, fits)) (omega arith),
        byte-spliced buf src p 5 (omega (arith, fits)) (omega arith),
        escr_sum (n / 300) (n % 300),
      )
      (escr_bound (n / 300 % 2 ^ 3 * 2 ^ 10 + n / 300 % 2 ^ 5)
        ((n / 300 * 2 ^ 3 / 2 ^ 3 % 2 ^ 5 * 2 ^ 3 + 4 + n % 300 / 2 ^ 7 % 2 ^ 2) % 2 ^ 2 * 2 ^ 7
          + (n % 300 % 2 ^ 7 * 2 + 1) / 2)
        (omega arith) (omega arith))
