-- ===== src/Stamps/Paced.antt =====
-- That the time stamps which apps/dvb/cmds/fixpcr.c writes are consecutive.
use ptx.Base.{
  ℕ, ◌+◌, ◌*◌, ◌^◌, ◌<◌, ◌≤◌, ◌≡◌, ◌⊎◌, inl, inr, refl, sym, ap, ◌∙◌, Bool, true, false, ◌&&◌, none,
  some, List, ltb, arith, length, memcpy, memcpy_fits, spliced, not, ◌=/=◌, ltb-ge, Bool-cases,
}
use ptx.Stamps.Clock.{pts_end, pts_threshold, pts_diff, uint64, get_pcr, plain_pcr, pcr_bytes}
use ptx.Stamps.Written.{plain_pcr-spliced}
use ptx.Stamps.RoundTrip.{Around, spliced-Around}
use ptx.Stamps.Packet.{Stamps, overrun, next, jumps, shift_pcr, has_pcr, pcr_at, fix_pcr}

-- One of the two differences is within the limit.
abbrev pub Near : ℕ → ℕ → ℕ → Type 0
Near limit a b = (pts_diff a b ≤ limit) ⊎ (pts_diff b a ≤ limit)

pub jumps-Near : (limit a b : ℕ) → jumps limit a b ≡ false → Near limit a b
jumps-Near limit a b h = elim (Bool-cases (ltb limit (pts_diff a b))) [
  | inr le ↦ inl (ltb-ge limit (pts_diff a b) le)
  | inl gt ↦
      inr (ltb-ge limit (pts_diff b a) (ap (λ t. t && ltb limit (pts_diff b a)) (sym gt) ∙ h))
]

-- A step forward is as long as it is.
pub pts_diff_step : (a n : ℕ) → a < 2 ^ 63 → n < 2 ^ 62 → pts_diff (uint64 (a + n)) a ≡ n
unfolding pts_diff
pts_diff_step a n h k = ground (arith, h, k)

-- The offset that is chosen for a new time stamp gives it.
pub pts_diff_twice :
    (base new : ℕ)
    → base < pts_end * 300
    → new < pts_end * 300
    → pts_diff base (pts_diff base new) ≡ new
unfolding pts_diff
pts_diff_twice base new h k = ground (arith, h, k)

pub pts_diff_bound :
    (a b : ℕ) → a < pts_end * 300 → b < pts_end * 300 → pts_diff a b < pts_end * 300
unfolding pts_diff
pts_diff_bound a b h k = ground (arith, h, k)

-- A new time stamp and its offset, for one that is read.
abbrev pub Paced : ℕ → ℕ → ℕ → ℕ → ℕ → Type 0
Paced limit base prev new offset =
    Near limit new prev
    × (pts_diff base offset ≡ new)
    × (new < pts_end * 300)
    × (offset < pts_end * 300)

shift_pcr-Paced :
    (base : ℕ) (s : Stamps)
    → base < pts_end * 300
    → s.offset < pts_end * 300
    → s.prev_pcr + 4500 * 300 < pts_end * 300
    → (new : ℕ) × (offset : ℕ) × (shift_pcr base s
        ≡ (new, record s { offset = offset; prev_pcr = new }))
      × Paced pts_threshold base s.prev_pcr new offset
unfolding shift_pcr
shift_pcr-Paced base s small o room =
    let new = pts_diff base s.offset in
    let after = uint64 (s.prev_pcr + 4500 * 300) in
    let step = pts_diff_step s.prev_pcr (4500 * 300) (omega (arith, room)) (omega arith) in
    let fits : after < pts_end * 300 = omega (arith, room) in
    elim (Bool-cases (jumps pts_threshold new s.prev_pcr)) [
      | inl far ↦ (
        after,
        pts_diff base after,
        rw (shift_pcr, far) refl,
        (
          inl (omega (arith, step)),
          pts_diff_twice base after small fits,
          fits,
          pts_diff_bound base after small fits,
        ),
      )
      | inr near ↦ (
        new,
        s.offset,
        rw (shift_pcr, near) refl,
        (
          jumps-Near pts_threshold new s.prev_pcr near,
          refl,
          pts_diff_bound base s.offset small o,
          o,
        ),
      )
    ]

fix_pcr-writes :
    (force : Bool) (pid : ℕ) (buf : List ℕ) (s : Stamps) (new : ℕ) (s' : Stamps)
    → 12 ≤ length buf
    → has_pcr buf ≡ true
    → ((s.pcr_pid =/= 0x2000) && (pid =/= s.pcr_pid) && not force) ≡ false
    → shift_pcr (get_pcr buf (pcr_at buf)) (record s { pcr_pid = pid }) ≡ (new, s')
    → fix_pcr force pid buf s ≡ next (spliced buf 6 (pcr_bytes new)) s'
unfolding fix_pcr pcr_bytes
fix_pcr-writes force pid buf s new s' long has one e =
    let src = pcr_bytes new in
    let written = memcpy_fits buf 6 src (omega (arith, long)) in
    let state : fix_pcr force pid buf s
        ≡ elim (memcpy buf 6 src) [ none ↦ overrun | some b ↦ next b s' ] =
      rw (fix_pcr, has, one)
        (ap (λ (n, t). elim (memcpy buf 6 (pcr_bytes n)) [ none ↦ overrun | some b ↦ next b t ])
          e) in
    state ∙ ap (λ o. elim o [ none ↦ overrun | some b ↦ next b s' ]) written

-- A packet with a PCR, where the stamps stay below the end of the 33 bits and no other stream has had a
-- PCR, or the user has insisted: the PCR that is written is at most half a second before or after the one
-- before it, a decoder reads back what the program remembers, this is the PCR that came less the offset
-- that is kept, which stays in bounds, and the bytes around the PCR are as they were.
pub fix_pcr-Paced :
    (force : Bool) (pid : ℕ) (buf : List ℕ) (s : Stamps)
    → 12 ≤ length buf
    → has_pcr buf ≡ true
    → ((s.pcr_pid =/= 0x2000) && (pid =/= s.pcr_pid) && not force) ≡ false
    → get_pcr buf (pcr_at buf) < pts_end * 300
    → s.offset < pts_end * 300
    → s.prev_pcr + 4500 * 300 < pts_end * 300
    → (b : List ℕ) × (new : ℕ) × (offset : ℕ) × (fix_pcr force pid buf s
        ≡ next b (record s { offset = offset; prev_pcr = new; pcr_pid = pid }))
      × (plain_pcr b 6 ≡ new)
      × Paced pts_threshold (get_pcr buf (pcr_at buf)) s.prev_pcr new offset
      × Around buf 6 6 b
unfolding pcr_bytes
fix_pcr-Paced force pid buf s long has one small o room =
    let (new, offset, e, paced) =
      shift_pcr-Paced (get_pcr buf (pcr_at buf)) (record s { pcr_pid = pid }) small o room in
    let (near, same, fits, bound) = paced in
    (
      spliced buf 6 (pcr_bytes new),
      new,
      offset,
      fix_pcr-writes force pid buf s new
          (record s { offset = offset; prev_pcr = new; pcr_pid = pid }) long has one e,
      plain_pcr-spliced buf 6 new (omega (arith, long)) fits,
      paced,
      spliced-Around buf 6 (pcr_bytes new) (omega (arith, long)),
    )
