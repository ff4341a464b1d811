-- ===== src/Splitter/Filter.antt =====
-- What `split_ts` of apps/cdev/recpt1/tssplitter_lite.c puts out.
use ptx.Base.{
  zero, suc, ◌*◌, ◌≤◌, ltb, ge→ltb, length, drop, ℕ, ◌+◌, ◌/◌, ◌%◌, ◌<◌, ◌≡◌, inl, inr, refl, ap,
  ◌∙◌, Bool, true, false, none, some, List, [], ◌∷◌, arith, ◌==◌, if◌then◌else◌, set, Bool-cases,
}
use ptx.Splitter.Crc.{byte, get_pid}
use ptx.Splitter.State.{tss_success, Splitter, same_count}
use ptx.Splitter.Pmt.{starts, version_of}
use ptx.Splitter.Split.{
  packets, split_ts, next_count, version_for, Progress, check_pmt, split_one, put, split_loop,
}

-- A packet that gives no cause to look at the PMTs again: it is a PAT, or no packet of a kept PMT,
-- or starts no section, or carries the version that is on record for its PID.
pub data Settled (sp : Splitter) (buf : List ℕ) : Type 0 where
  is_pat : (get_pid buf 1 == 0) ≡ true → Settled sp buf
  no_pmt : (sp.pmt_pids (get_pid buf 1) == 0) ≡ true → Settled sp buf
  continues : starts buf ≡ false → Settled sp buf
  same_version :
      ((old : ℕ) → version_for (get_pid buf 1) sp.pmt_version old ≡ version_of buf) → Settled sp buf

abbrev pub AllSettled : Splitter → List (List ℕ) → Type 0
AllSettled sp [] = Unit
AllSettled sp (buf ∷ rest) = Settled sp buf × AllSettled sp rest

-- The counter of the `k`-th PAT behind the one with `count`: the low four bits go round.
abbrev pub numbered : ℕ → ℕ → ℕ
numbered count k = count / 16 * 16 + (count + k) % 16

-- The counter of the next PAT: where none has been put out yet the byte of the rebuilt PAT, and else the
-- one behind the last.
abbrev pub first_number : ℕ → List ℕ → ℕ
first_number count pat = if count == 0xff then byte pat 3 else numbered count 1

-- The packets whose PID is marked, in order, and for each PAT the rebuilt one with its number, where
-- `k` have been put out.
unfoldable pub filtered : (ℕ → ℕ) → ℕ → List ℕ → ℕ → List (List ℕ) → List (List ℕ)
filtered pids count pat k [] = []
filtered pids count pat k (buf ∷ rest) =
    let later = filtered pids count pat (k + 1) rest in
    let others = filtered pids count pat k rest in
    if get_pid buf 1 == 0
    then set pat 3 (numbered count k) ∷ later
    else if pids (get_pid buf 1) == 0
    then others
    else buf ∷ others

-- The fields that settled packets leave alone.
abbrev Same : Splitter → Splitter → Type 0
Same s t =
    (s.pids ≡ t.pids)
    × (s.pmt_pids ≡ t.pmt_pids)
    × (s.pmt_version ≡ t.pmt_version)
    × (s.pmt_counter ≡ t.pmt_counter)
    × (s.pmt_retain ≡ t.pmt_retain)

check_pmt-Settled :
    (buf : List ℕ) (g : Progress)
    → (get_pid buf 1 == 0) ≡ false
    → same_count g.sp.pmt_counter g.sp.pmt_retain ≡ true
    → Settled g.sp buf
    → ((check_pmt buf g).sp ≡ g.sp) × ((check_pmt buf g).result ≡ g.result)
unfolding check_pmt
check_pmt-Settled buf g p c (is_pat e) = (ground arith, ground arith)
check_pmt-Settled buf g p c (no_pmt e) = (ground arith, ground arith)
check_pmt-Settled buf g p c (continues e) = (ground arith, ground arith)
check_pmt-Settled buf g p c (same_version e) =
    (ground (arith, e g.version), ground (arith, e g.version))

abbrev pub with_pat : Splitter → ℕ → List ℕ → Splitter
with_pat sp count pat = record sp { pat_count = count; pat = some pat }

Settled-with_pat :
    (sp : Splitter) (count : ℕ) (pat buf : List ℕ)
    → Settled sp buf
    → Settled (with_pat sp count pat) buf
Settled-with_pat sp count pat buf (is_pat e) = is_pat e
Settled-with_pat sp count pat buf (no_pmt e) = no_pmt e
Settled-with_pat sp count pat buf (continues e) = continues e
Settled-with_pat sp count pat buf (same_version e) = same_version e

AllSettled-with_pat :
    (sp : Splitter) (count : ℕ) (pat : List ℕ) (bufs : List (List ℕ))
    → AllSettled sp bufs
    → AllSettled (with_pat sp count pat) bufs
AllSettled-with_pat sp count pat [] h = tt
AllSettled-with_pat sp count pat (buf ∷ rest) h =
    (Settled-with_pat sp count pat buf h.0, AllSettled-with_pat sp count pat rest h.1)

abbrev next_pat : Splitter → List ℕ → List ℕ
next_pat sp pat = set pat 3 (next_count sp.pat_count pat)

split_one-pat_own :
    (buf : List ℕ) (g : Progress) (pat : List ℕ)
    → (get_pid buf 1 == 0) ≡ true
    → g.sp.pat ≡ some pat
    → split_one buf g
      ≡ some (
        record g { sp = with_pat g.sp (next_count g.sp.pat_count pat) (next_pat g.sp pat) },
        some (next_pat g.sp pat),
      )
unfolding split_one
split_one-pat_own buf g pat p k = rw (p, split_one, k)

split_one-pat :
    (buf : List ℕ) (g : Progress) (sp : Splitter) (pat : List ℕ)
    → (get_pid buf 1 == 0) ≡ true
    → g.sp ≡ sp
    → sp.pat ≡ some pat
    → split_one buf g
      ≡ some (
        record g { sp = with_pat sp (next_count sp.pat_count pat) (next_pat sp pat) },
        some (next_pat sp pat),
      )
split_one-pat buf g sp pat p e k = rw (← e) (split_one-pat_own buf g pat p (rw e k))

split_one-other :
    (buf : List ℕ) (g : Progress) (sp : Splitter)
    → (get_pid buf 1 == 0) ≡ false
    → (check_pmt buf g).sp ≡ sp
    → split_one buf g
      ≡ some (check_pmt buf g, if sp.pids (get_pid buf 1) == 0 then none else some buf)
unfolding split_one
split_one-other buf g sp p e = rw (p, split_one, e)

check_pmt-same :
    (buf : List ℕ) (g : Progress) (sp : Splitter)
    → g.sp ≡ sp
    → (get_pid buf 1 == 0) ≡ false
    → same_count sp.pmt_counter sp.pmt_retain ≡ true
    → Settled sp buf
    → ((check_pmt buf g).sp ≡ sp) × ((check_pmt buf g).result ≡ g.result)
check_pmt-same buf g sp e p c s =
    let (kept, result) = check_pmt-Settled buf g p (rw e c) (rw e s) in (kept ∙ e, result)

put_if :
    (b : Bool) (buf : List ℕ) (out : List (List ℕ))
    → put (if b then none else some buf) out ≡ (if b then out else buf ∷ out)
put_if true buf out = refl
put_if false buf out = refl

set-set : (xs : List ℕ) (i a b : ℕ) → set (set xs i a) i b ≡ set xs i b
set-set [] i a b = refl
set-set (x ∷ xs) zero a b = refl
set-set (x ∷ xs) (suc i) a b = ap (λ l. x ∷ l) (set-set xs i a b)

-- Below a high nibble of ones, the counter goes on as numbered.
next_count-numbered :
    (count k : ℕ) (pat : List ℕ)
    → count < 240
    → next_count (numbered count k) pat ≡ numbered count (k + 1)
unfolding next_count
next_count-numbered count k pat h = ground (arith, h)

next_count-first :
    (count : ℕ) (pat : List ℕ)
    → first_number count pat < 240
    → count < 256
    → next_count count pat ≡ numbered (first_number count pat) 0
unfolding next_count
next_count-first count pat h b = ground (arith, h, b)

split_loop-filtered :
    (bufs : List (List ℕ)) (g : Progress) (sp : Splitter) (count k : ℕ) (pat p : List ℕ)
    → g.sp ≡ sp
    → sp.pat ≡ some p
    → ((v : ℕ) → set p 3 v ≡ set pat 3 v)
    → count < 240
    → next_count sp.pat_count p ≡ numbered count k
    → same_count sp.pmt_counter sp.pmt_retain ≡ true
    → AllSettled sp bufs
    → (g' : Progress) × (split_loop bufs g ≡ some (g', filtered sp.pids count pat k bufs))
      × (g'.result ≡ g.result)
unfolding split_loop filtered
split_loop-filtered [] g sp count k pat p e has same low at c h = (g, refl, refl)
split_loop-filtered (buf ∷ rest) g sp count k pat p e has same low at c h =
    elim (Bool-cases (get_pid buf 1 == 0)) [
      | inl is ↦
          let next : next_count (next_count sp.pat_count p) (next_pat sp p)
              ≡ numbered count (k + 1) =
            ap (λ n. next_count n (next_pat sp p)) at
            ∙ next_count-numbered count k (next_pat sp p) low in
          let sp' = with_pat sp (next_count sp.pat_count p) (next_pat sp p) in
          let g1 : Progress = record g { sp = sp' } in
          let (g', ih, result) =
            split_loop-filtered rest g1 sp' count (k + 1) pat (next_pat sp p) refl refl
              (λ v. set-set p 3 (next_count sp.pat_count p) v ∙ same v) low next c
              (AllSettled-with_pat sp (next_count sp.pat_count p) (next_pat sp p) rest h.1) in
          let first : next_pat sp p ≡ set pat 3 (numbered count k) =
            ap (set p 3) at ∙ same (numbered count k) in
          (
            g',
            rw (split_one-pat buf g sp p is e has, split_loop, ih, is)
                (ap (λ l. some (g', l ∷ filtered sp.pids count pat (k + 1) rest)) first),
            result,
          )
      | inr other ↦
          let (kept, result) = check_pmt-same buf g sp e other c h.0 in
          let (g', ih, result') =
            split_loop-filtered rest (check_pmt buf g) sp count k pat p kept has same low at c
              h.1 in
          (
            g',
            rw (split_one-other buf g sp other kept, split_loop, ih, other)
                (ap (λ l. some (g', l))
                  (put_if (sp.pids (get_pid buf 1) == 0) buf (filtered sp.pids count pat k rest))),
            result' ∙ result,
          )
    ]

length-filtered :
    (pids : ℕ → ℕ) (count : ℕ) (pat : List ℕ) (k : ℕ) (bufs : List (List ℕ))
    → length (filtered pids count pat k bufs) ≤ length bufs
unfolding filtered
length-filtered pids count pat k [] = omega arith
length-filtered pids count pat k (buf ∷ rest) =
    ground
      (arith, length-filtered pids count pat (k + 1) rest, length-filtered pids count pat k rest)

length-packets : (count : ℕ) (d : List ℕ) → length (packets count d) ≡ count
unfolding packets
length-packets zero d = refl
length-packets (suc count) d = omega (arith, length-packets count (drop 188 d))

-- A buffer of whole packets: when a PAT has been rebuilt, its counter is a byte and the number of the next PAT below 240, the kept PMTs
-- have all been read and no packet of the buffer gives cause to read them again, `split_ts` returns
-- TSS_SUCCESS, stays inside of its output buffer, and puts out, in order, the packets whose PID is
-- marked, and in place of each PAT packet the rebuilt PAT, numbered round in the low four bits, from the
-- counter behind the last PAT, or from the one in the rebuilt PAT where none was put out yet.
pub split_ts-filtered :
    (count : ℕ) (d pat : List ℕ) (sp : Splitter)
    → sp.pat ≡ some pat
    → sp.pat_count < 256
    → first_number sp.pat_count pat < 240
    → same_count sp.pmt_counter sp.pmt_retain ≡ true
    → AllSettled sp (packets count d)
    → (g : Progress) × (split_ts (188 * count) d sp
        ≡ some (g, filtered sp.pids (first_number sp.pat_count pat) pat 0 (packets count d)))
      × (g.result ≡ tss_success)
unfolding split_ts
split_ts-filtered count d pat sp p u8 low c h =
    let out = filtered sp.pids (first_number sp.pat_count pat) pat 0 (packets count d) in
    let (g, runs, result) =
      split_loop-filtered (packets count d) (record { sp = sp; version = 0; result = tss_success })
        sp (first_number sp.pat_count pat) 0 pat pat refl p (λ v. refl) low
        (next_count-first sp.pat_count pat low u8) c h in
    let all : (188 * count + 187) / 188 ≡ count = omega arith in
    let few : 188 * length out ≤ 188 * count = omega (
      arith,
      length-filtered sp.pids (first_number sp.pat_count pat) pat 0 (packets count d),
      length-packets count d,
    ) in
    let fits : ltb (188 * count) (188 * length out) ≡ false =
      ge→ltb (188 * count) (188 * length out) few in
    (g, rw (split_ts, all, runs, fits) refl, result)
