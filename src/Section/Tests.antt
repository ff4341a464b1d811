-- ===== src/Section/Tests.antt =====
-- Packets in `doSection` of apps/dvb/cmds/section.c, and the theorems applied to them.
use ptx.Base.{true, take, ℕ, ◌≡◌, refl, some, List, [], ◌∷◌, ◌++◌, arith, replicate}
use ptx.Section.Assemble.{Secbuf, do_section}
use ptx.Base.Int.{pos, negsuc}
use ptx.Section.Pat.{Pat, pat_section, services, do_pat, do_pat-pat_section}
use ptx.Section.Carried.{run, run-Carries}
use ptx.Section.Bounds.{IsWell, do_section-IsWell}

-- A section of eight bytes behind its pointer, and stuffing.
abbrev short_packet : List ℕ
short_packet =
    (0x47 ∷ 0x40 ∷ 0x00 ∷ 0x10 ∷ 0x00 ∷ 0x70 ∷ 0xb0 ∷ 0x05 ∷ 1 ∷ 2 ∷ 3 ∷ 4 ∷ 5 ∷ [])
    ++ replicate 175 0xff

abbrev new_buf : Secbuf
new_buf = record { max = 16; cur = 0; len = 0; cc = 0; buf = replicate 16 0 }

abbrev log : List ℕ → List (List ℕ) → ℕ × List (List ℕ)
log s d = (0, s ∷ d)

do_section-IsWell_example :
    (ret : ℕ) × (sec' : Secbuf) × (d' : List (List ℕ)) × (do_section log short_packet new_buf []
      ≡ some (ret, sec', d'))
    × IsWell 16 sec'
do_section-IsWell_example =
    do_section-IsWell log 16 short_packet new_buf [] refl (omega arith)
      (record { within = omega arith; fits = omega arith; size = refl; full = refl })

-- The NIT and two services.
abbrev three_programs : List (ℕ × ℕ)
three_programs = (0, 0x10) ∷ (0x400, 0x101) ∷ (0x401, 0x1f0) ∷ []

abbrev no_pat : Pat
no_pat = record { ver = negsuc 0; ts_id = 0xffff; prog = [] }

do_pat-pat_section_example :
    do_pat (λ i. true) (pat_section 0x7fe0 0xc1 three_programs (1 ∷ 2 ∷ 3 ∷ 4 ∷ [])) no_pat
    ≡ some
        (0, record { ver = pos 0x60; ts_id = 0x7fe0; prog = (0x400, 0x101) ∷ (0x401, 0x1f0) ∷ [] })
unfolding services
do_pat-pat_section_example =
    do_pat-pat_section 0x7fe0 0xc1 three_programs (1 ∷ 2 ∷ 3 ∷ 4 ∷ []) no_pat (omega arith) refl
      (omega arith)
      (omega arith, omega arith, (omega arith, omega arith, (omega arith, omega arith, tt)))
      (omega arith) refl

-- A section of 200 bytes, of which ten have come.
abbrev long_section : List ℕ
long_section = 0x02 ∷ 0xb0 ∷ 0xc5 ∷ replicate 197 7

abbrev begun_buf : Secbuf
begun_buf = record {
  max = 256;
  cur = 10;
  len = 200;
  cc = 3;
  buf = take 10 long_section ++ replicate 246 0;
}

abbrev second : List ℕ
second = 0x47 ∷ 0x01 ∷ 0x00 ∷ 0x14 ∷ replicate 184 7

abbrev third : List ℕ
third = (0x47 ∷ 0x01 ∷ 0x00 ∷ 0x15 ∷ replicate 6 7) ++ replicate 178 0xff

run-Carries_example :
    (sec' : Secbuf) × (run log (second ∷ third ∷ []) begun_buf [] ≡ some (sec', long_section ∷ []))
run-Carries_example =
    run-Carries log long_section second (third ∷ []) begun_buf []
      (record {
        begun = omega arith;
        all = refl;
        in_step = omega arith;
        fits = omega arith;
        full = refl;
        front = refl;
      })
      (
        record {
          size = refl;
          carries = refl;
          no_error = refl;
          no_start = refl;
          no_field = refl;
          counter = refl;
        },
        omega arith,
        refl,
        (
          record {
            size = refl;
            carries = refl;
            no_error = refl;
            no_start = refl;
            no_field = refl;
            counter = refl;
          },
          omega arith,
          refl,
        ),
      )
