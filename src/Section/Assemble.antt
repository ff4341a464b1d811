-- ===== src/Section/Assemble.antt =====
-- `struct secbuf` of apps/dvb/cmds/nitscan.h and `doSection` of apps/dvb/cmds/section.c.
use ptx.Base.{
  ℕ, zero, suc, ◌+◌, ◌-◌, ◌*◌, ◌/◌, ◌%◌, ◌^◌, Bool, true, false, ◌&&◌, ◌||◌, not, Option, none,
  some, List, ◌++◌, ◌==◌, ◌=/=◌, ltb, leb, if◌then◌else◌, get_or, take, drop,
}

-- `cc` is 0x20 where the sections are out of step. `buf` has `max` bytes.
pub record Secbuf : Type 0 where
  pub max : ℕ
  pub cur : ℕ
  pub len : ℕ
  pub cc : ℕ
  pub buf : List ℕ

abbrev pub packet_byte : List ℕ → ℕ → ℕ
packet_byte packet i = get_or packet i 0

abbrev pub has_bit : ℕ → ℕ → Bool
has_bit x k = x / 2 ^ k % 2 == 1

-- `memcpy(sec->buf + to, b, n)` from the packet's byte `b` on. `none`: it reads behind the packet or
-- writes behind the buffer.
unfoldable pub copy : List ℕ → ℕ → ℕ → ℕ → Secbuf → Option Secbuf
copy packet b to n sec =
    if leb (b + n) 188 && leb (to + n) sec.max
    then some
        (record sec { buf = take to sec.buf ++ (take n (drop b packet) ++ drop (to + n) sec.buf) })
    else none

-- Where the payload starts.
abbrev pub payload : List ℕ → ℕ
payload packet = if has_bit (packet_byte packet 3) 5 then 4 + (packet_byte packet 4 + 1) else 4

-- `cb` is called with the section's bytes and its own data, and answers a number.
module _ {D : Type 0} (cb : List ℕ → D → ℕ × D) where
  abbrev pub call : ℕ → Secbuf → D → ℕ × Secbuf × D
  call ret sec d = let (r, d') = cb (take sec.len sec.buf) d in (ret + r, sec, d')

  -- What is done with the `len` bytes at `b` that belong to the section at hand. `inl`: the counter
  -- does not fit, and the function returns 1.
  unfoldable pub fill_section : List ℕ → ℕ → ℕ → Secbuf → D → Option (Bool × ℕ × Secbuf × D)
  fill_section packet b len sec d =
      if (len == 0) || (sec.len == 0) || ltb 0x0f sec.cc
      then some (true, 0, sec, d)
      else if packet_byte packet 3 % 2 ^ 4 =/= (sec.cc + 1) % 2 ^ 4
      then some (false, 1, record sec { cc = 0x20 }, d)
      else (let sec1 = record sec { cc = (sec.cc + 1) % 2 ^ 4 } in
          if ltb (sec.cur + len) sec.len
          then elim (copy packet b sec.cur len sec1) [
            | none ↦ none
            | some sec2 ↦ some (true, 0, record sec2 { cur = sec.cur + len }, d)
          ]
          else elim (copy packet b sec.cur (sec.len - sec.cur) sec1) [
            | none ↦ none
            | some sec2 ↦ let (r, sec3, d') = call 0 sec2 d in some (true, r, sec3, d')
          ])

  -- The loop over the sections that start in the packet, with `nlen` bytes left at `b`. Each round
  -- takes three bytes at least. `none`: it reads the header of a section behind the packet, or copies
  -- from behind it.
  unfoldable pub start_loop : ℕ → List ℕ → ℕ → ℕ → ℕ → Secbuf → D → Option (ℕ × Secbuf × D)
  start_loop zero packet b nlen ret sec d = some (ret, sec, d)
  start_loop (suc fuel) packet b nlen ret sec d =
      let size = packet_byte packet (b + 1) % 2 ^ 4 * 2 ^ 8 + packet_byte packet (b + 2) + 3 in
      let sec1 = record sec { len = size; cur = 0; cc = packet_byte packet 3 % 2 ^ 4 } in
      if ltb nlen 3 || (packet_byte packet b == 0xff)
      then some (ret, sec, d)
      else if ltb 188 (b + 3)
      then none
      else if ltb sec.max size
      then some (ret, record sec1 { len = 0 }, d)
      else if ltb nlen size
      then elim (copy packet b 0 nlen sec1) [
        | none ↦ none
        | some sec2 ↦ some (ret, record sec2 { cur = nlen }, d)
      ]
      else elim (copy packet b 0 size sec1) [
        | none ↦ none
        | some sec2 ↦
            let (ret', sec3, d') = call ret sec2 d in
            start_loop fuel packet (b + size) (nlen - size) ret' sec3 d'
      ]

  -- The two parts: `len` bytes at `b` end the section at hand, and `nlen` behind them start others.
  unfoldable pub both : List ℕ → ℕ → ℕ → ℕ → Secbuf → D → Option (ℕ × Secbuf × D)
  both packet b len nlen sec d = elim (fill_section packet b len sec d) [
    | none ↦ none
    | some (more, ret, sec', d') ↦
        if more then start_loop 62 packet (b + len) nlen ret sec' d' else some (ret, sec', d')
  ]

  -- Where a payload starts behind the packet's end, the code goes on with a negative length, or reads
  -- its pointer there: the model gives no
  -- result, but where no section is at hand or the counter does not fit.
  unfoldable pub do_section : List ℕ → Secbuf → D → Option (ℕ × Secbuf × D)
  do_section packet sec d =
      let b = payload packet in
      if not (has_bit (packet_byte packet 3) 4) || has_bit (packet_byte packet 1) 7
      then some (0, sec, d)
      else if has_bit (packet_byte packet 1) 6
      then (if ltb b 188
          then both packet (b + 1) (packet_byte packet b) (188 - b - (packet_byte packet b + 1)) sec
              d
          else none)
      else if leb b 188
      then both packet b (188 - b) 0 sec d
      else if (sec.len == 0) || ltb 0x0f sec.cc
      then some (0, sec, d)
      else if packet_byte packet 3 % 2 ^ 4 =/= (sec.cc + 1) % 2 ^ 4
      then some (1, record sec { cc = 0x20 }, d)
      else none
