-- ===== src/Stamps/Decoded.antt =====
-- That the DTS which apps/dvb/cmds/fixpcr.c writes into a PES are consecutive.
use ptx.Base.{
  ◌-◌, Option-cases, inl, inr, ℕ, zero, suc, ◌+◌, ◌*◌, ◌/◌, ◌%◌, ◌^◌, ◌<◌, ◌≤◌, ◌≡◌, inl, inr, refl,
  ap, ◌∙◌, true, none, some, List, [], ◌∷◌, leb, if◌then◌else◌, arith, length, modify,
  length-modify, get_or, Bool-cases,
}
use ptx.Splitter.Crc.{byte}
use ptx.Stamps.Clock.{pts_end, pts_threshold, pts_diff, uint64, get_pts, set_pts}
use ptx.Stamps.RoundTrip.{Around, set_pts_lem}
use ptx.Stamps.Packet.{
  Pes, no_pes, Stamps, overrun, next, jumps, pes_of, set_step, shift_pes, fr_steps, fix_rate,
  has_dts, fix_dts,
}
use ptx.Stamps.Sequence.{first_header, find_sequence-first}
use ptx.Stamps.Paced.{Paced, jumps-Near, pts_diff_step, pts_diff_twice, pts_diff_bound}

get_or-modify :
    (pes : List Pes) (st : ℕ) (f : Pes → Pes) (d : Pes)
    → st < length pes
    → get_or (modify pes st f) st d ≡ f (get_or pes st d)
get_or-modify [] st f d h = absurd (omega (arith, h))
get_or-modify (x ∷ pes) zero f d h = refl
get_or-modify (x ∷ pes) (suc st) f d h = get_or-modify pes st f d (omega (arith, h))

-- What remains of a state whose steps change.
abbrev Unmoved : ℕ → Stamps → Stamps → Type 0
Unmoved st s s' = (s'.offset ≡ s.offset) × ((pes_of s' st).val ≡ (pes_of s st).val)

-- Where the search for a sequence header begins.
abbrev pub body_at : List ℕ → ℕ → ℕ
body_at b p = p + (9 + byte b (p + 8))

-- The duration of a frame after a PES at `p`: that of the first sequence header of its body, if there is
-- one.
unfoldable pub step_after : List ℕ → ℕ → ℕ → ℕ
step_after b p old = elim (first_header b (181 - body_at b p) (body_at b p)) [
  | none ↦ old
  | some j ↦ get_or fr_steps (byte b (j + 7) % 2 ^ 4) 0
]

fix_rate-Unmoved :
    (b : List ℕ) (p st : ℕ) (s : Stamps)
    → st < length s.prev_pes
    → (t : Stamps) × (fix_rate b p st s ≡ next b t)
      × Unmoved st s t
      × ((pes_of t st).step ≡ step_after b p (pes_of s st).step)
unfolding fix_rate step_after
fix_rate-Unmoved b p st s h =
    let found = find_sequence-first b 188 (body_at b p) (omega arith) (omega arith) in
    elim (Option-cases (first_header b (181 - body_at b p) (body_at b p))) [
      | inl no_header ↦
          (s, rw (fix_rate, found, no_header) refl, (refl, refl), rw (step_after, no_header) refl)
      | inr (j, header) ↦
          let rate = get_or fr_steps (byte b (j + 7) % 2 ^ 4) 0 in
          let same = get_or-modify s.prev_pes st (λ e. record e { step = rate }) no_pes h in
          (
            set_step st rate s,
            rw (fix_rate, found, header) refl,
            (refl, ap (λ e. e.val) same),
            rw (step_after, header) (ap (λ e. e.step) same),
          )
    ]

-- A state after a stamp of `st`.
unfoldable pub Stamped : ℕ → ℕ → Stamps → ℕ → Stamps → Type 0
Stamped base st s new s' =
    Paced (2 * pts_threshold) base (pes_of s st).val new s'.offset × ((pes_of s' st).val ≡ new)

stored :
    (s : Stamps) (st v : ℕ)
    → st < length s.prev_pes
    → (get_or (modify s.prev_pes st (λ e. record e { val = v })) st no_pes).val ≡ v
stored s st v h = ap (λ e. e.val) (get_or-modify s.prev_pes st (λ e. record e { val = v }) no_pes h)

same_step :
    (s : Stamps) (st v : ℕ)
    → st < length s.prev_pes
    → (get_or (modify s.prev_pes st (λ e. record e { val = v })) st no_pes).step
      ≡ (pes_of s st).step
same_step s st v h =
    ap (λ e. e.step) (get_or-modify s.prev_pes st (λ e. record e { val = v }) no_pes h)

shift_pes-Stamped :
    (base st : ℕ) (s : Stamps)
    → st < length s.prev_pes
    → base < pts_end * 300
    → s.offset < pts_end * 300
    → (pes_of s st).step ≤ 2 * pts_threshold
    → (pes_of s st).val + (pes_of s st).step < pts_end * 300
    → (new : ℕ) × (s' : Stamps) × (shift_pes true base st s ≡ (new, s'))
      × Stamped base st s new s'
      × (length s'.prev_pes ≡ length s.prev_pes)
      × ((pes_of s' st).step ≡ (pes_of s st).step)
unfolding shift_pes Stamped
shift_pes-Stamped base st s known small o slow room =
    let prev = pes_of s st in
    let new = pts_diff base s.offset in
    let after = uint64 (prev.val + prev.step) in
    let step = pts_diff_step prev.val prev.step (omega (arith, room)) (omega (arith, slow)) in
    let fits : after < pts_end * 300 = omega (arith, room) in
    elim (Bool-cases (jumps (2 * pts_threshold) new prev.val)) [
      | inl far ↦ (
        after,
        record s {
          offset = pts_diff base after;
          prev_pes = modify s.prev_pes st (λ e. record e { val = after });
        },
        rw (shift_pes, far) refl,
        (
          (
            inl (omega (arith, step, slow)),
            pts_diff_twice base after small fits,
            fits,
            pts_diff_bound base after small fits,
          ),
          stored s st after known,
        ),
        length-modify s.prev_pes st (λ e. record e { val = after }),
        same_step s st after known,
      )
      | inr near ↦ (
        new,
        record s { prev_pes = modify s.prev_pes st (λ e. record e { val = new }) },
        rw (shift_pes, near) refl,
        (
          (
            jumps-Near (2 * pts_threshold) new prev.val near,
            refl,
            pts_diff_bound base s.offset small o,
            o,
          ),
          stored s st new known,
        ),
        length-modify s.prev_pes st (λ e. record e { val = new }),
        same_step s st new known,
      )
    ]

fix_dts-writes :
    (buf : List ℕ) (p st : ℕ) (s : Stamps) (new : ℕ) (s' : Stamps) (b : List ℕ)
    → has_dts buf p ≡ true
    → shift_pes (leb 3 st) (get_pts buf (p + 14) * 300) st s ≡ (new, s')
    → set_pts buf (p + 14) (new / 300) ≡ some b
    → fix_dts buf p st s ≡ (if leb 35 st then fix_rate b p st s' else next b s')
unfolding fix_dts
fix_dts-writes buf p st s new s' b has e w =
    let state : fix_dts buf p st s ≡ elim (set_pts buf (p + 14) (new / 300)) [
      | none ↦ overrun
      | some c ↦ if leb 35 st then fix_rate c p st s' else next c s'
    ] =
      rw (fix_dts, has)
        (ap
          (λ (n, t). elim (set_pts buf (p + 14) (n / 300)) [
            | none ↦ overrun
            | some c ↦ if leb 35 st then fix_rate c p st t else next c t
          ])
          e) in
    state
    ∙ ap
        (λ o. elim o [
          | none ↦ overrun
          | some c ↦ if leb 35 st then fix_rate c p st s' else next c s'
        ])
        w

after_rate :
    (b : List ℕ) (p st : ℕ) (s : Stamps)
    → st < length s.prev_pes
    → (t : Stamps) × ((if leb 35 st then fix_rate b p st s else next b s) ≡ next b t)
      × Unmoved st s t
      × ((pes_of t st).step
          ≡ (if leb 35 st then step_after b p (pes_of s st).step else (pes_of s st).step))
after_rate b p st s h = elim (Bool-cases (leb 35 st)) [
  | inl video ↦
      let (t, e, unmoved, step) = fix_rate-Unmoved b p st s h in
      (t, rw video e, unmoved, rw video step)
  | inr audio ↦ (s, rw audio refl, (refl, refl), rw audio refl)
]

-- An audio or video PES with a DTS that is whole in the packet, where the stamps stay below the end of
-- the 33 bits: the DTS that is written is at most a second before or after the one of the PES before, it
-- is the DTS that came less the offset that is kept, the program remembers it for the stream, with the
-- duration of a frame that the first sequence header of a video PES states, if there is one, and else
-- the duration that it had, and the bytes around the DTS are as they were.
pub fix_dts-Stamped :
    (buf : List ℕ) (p st : ℕ) (s : Stamps)
    → has_dts buf p ≡ true
    → p + 19 ≤ length buf
    → 3 ≤ st
    → st < length s.prev_pes
    → get_pts buf (p + 14) < pts_end
    → s.offset < pts_end * 300
    → (pes_of s st).step ≤ 2 * pts_threshold
    → (pes_of s st).val + (pes_of s st).step < pts_end * 300
    → (b : List ℕ) × (new : ℕ) × (s' : Stamps) × (fix_dts buf p st s ≡ next b s')
      × (get_pts b (p + 14) ≡ new / 300)
      × Stamped (get_pts buf (p + 14) * 300) st s new s'
      × ((pes_of s' st).step
          ≡ (if leb 35 st then step_after b p (pes_of s st).step else (pes_of s st).step))
      × Around buf (p + 14) 5 b
unfolding Stamped
fix_dts-Stamped buf p st s has room av known small o slow early =
    let (new, s', e, stamped, size, kept_step) =
      shift_pes-Stamped (get_pts buf (p + 14) * 300) st s known (omega (arith, small)) o slow
        early in
    let ((near, same, fits, bound), kept) = stamped in
    let (b, w, read, around) =
      set_pts_lem buf (p + 14) (new / 300) (omega (arith, room)) (omega (arith, fits)) in
    let checked : leb 3 st ≡ true = ground (arith, av) in
    let known' : st < length s'.prev_pes = omega (arith, size, known) in
    let (t, rated, (off, val), step) = after_rate b p st s' known' in
    (
      b,
      new,
      t,
      fix_dts-writes buf p st s new s' b has (rw checked e) w ∙ rated,
      read,
      (
        (
          near,
          ap (λ f. pts_diff (get_pts buf (p + 14) * 300) f) off ∙ same,
          fits,
          omega (arith, off, bound),
        ),
        val ∙ kept,
      ),
      step ∙ ap (λ old. if leb 35 st then step_after b p old else old) kept_step,
      around,
    )
