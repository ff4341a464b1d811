-- ===== src/Section/Copy.antt =====
-- The `memcpy` of `doSection` (apps/dvb/cmds/section.c) within its bounds.
use ptx.Base.{
  ℕ, ◌+◌, ◌≤◌, ◌≡◌, some, List, ◌++◌, take, drop, length, arith, length-append, length-take,
  length-drop,
}
use ptx.Section.Assemble.{Secbuf, copy}

pub copy-some :
    (packet : List ℕ) (b to n : ℕ) (sec : Secbuf)
    → b + n ≤ 188
    → to + n ≤ sec.max
    → copy packet b to n sec
      ≡ some (record sec {
        buf = take to sec.buf ++ (take n (drop b packet) ++ drop (to + n) sec.buf);
      })
unfolding copy
copy-some packet b to n sec h k = ground arith

pub length-written :
    (packet : List ℕ) (b to n : ℕ) (buf : List ℕ)
    → b + n ≤ length packet
    → to + n ≤ length buf
    → length (take to buf ++ (take n (drop b packet) ++ drop (to + n) buf)) ≡ length buf
length-written packet b to n buf h k = omega (
  arith,
  length-append (take to buf) (take n (drop b packet) ++ drop (to + n) buf),
  length-append (take n (drop b packet)) (drop (to + n) buf),
  length-take to buf,
  length-take n (drop b packet),
  length-drop b packet,
  length-drop (to + n) buf,
)
