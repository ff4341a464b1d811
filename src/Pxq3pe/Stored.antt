-- ===== src/Pxq3pe/Stored.antt =====
-- What the ring buffer of drivers/media/pci/ptx/pxq3pe_pci.c holds, as a queue of bytes of bounded
-- size.
use ptx.Base.{
  ℕ, ◌+◌, ◌-◌, ◌%◌, ◌^◌, ◌<◌, ◌≤◌, ◌≡◌, refl, sym, ap, ap₂, ◌∙◌, inl, inr, true, false, some, List,
  ◌++◌, ◌==◌, leb, arith, Bool-cases, take, drop, length, length-take, length-drop, ring, take-ring,
  ring-wrap, spliced, memcpy_fits, length-spliced, ring-spliced, ring-spliced_twice, take-drop_join,
}
use native.Mathlib.Nat.{mod-eq_of_lt, mod-lt, mod-eq-sub-mod}
use ptx.Pxq3pe.Ring.{Pxq3peAdap, put_bytes, save_size}

-- The indices lie in the buffer, whose size is as stated, and the write index is the read index
-- advanced by the count.
pub record IsWell (p : Pxq3peAdap) : Type 0 where
  pub size : length p.s_buf ≡ p.s_buf_size
  pub some_room : 0 < p.s_buf_size
  pub no_wrap : p.s_buf_size < 2 ^ 31
  pub start_in : p.s_buf_start < p.s_buf_size
  pub cnt_in : p.s_buf_byte_cnt ≤ p.s_buf_size
  pub stop_is : p.s_buf_stop ≡ (p.s_buf_start + p.s_buf_byte_cnt) % p.s_buf_size

-- The bytes that wait for the thread, oldest first.
unfoldable pub stored : Pxq3peAdap → List ℕ
stored p = take p.s_buf_byte_cnt (ring p.s_buf_start p.s_buf)

-- What is to be put: the filled part of `t_buf`.
abbrev pub pending : Pxq3peAdap → List ℕ
pending p = take p.t_buf_idx p.t_buf

-- What is stored is the end of the ring as the writer sees it.
pub stored-ring :
    (p : Pxq3peAdap)
    → IsWell p
    → stored p ≡ drop (p.s_buf_size - p.s_buf_byte_cnt) (ring p.s_buf_stop p.s_buf)
unfolding stored
stored-ring p w =
    let size = w.size in
    take-ring p.s_buf_start p.s_buf_byte_cnt p.s_buf_stop p.s_buf (omega (arith, w.start_in, size))
      (omega (arith, w.cnt_in, size))
      (w.stop_is ∙ ap (λ n. (p.s_buf_start + p.s_buf_byte_cnt) % n) (sym size))
    ∙ ap (λ n. drop (n - p.s_buf_byte_cnt) (ring p.s_buf_stop p.s_buf)) size

-- The copy stays in the buffer, and puts the bytes at the end of the ring.
abbrev pub PutAtEnd : Pxq3peAdap → Type 0
PutAtEnd p =
    (buf : List ℕ) × (put_bytes p ≡ some buf)
    × (length buf ≡ p.s_buf_size)
    × (ring ((p.s_buf_stop + p.t_buf_idx) % p.s_buf_size) buf
        ≡ drop p.t_buf_idx (ring p.s_buf_stop p.s_buf) ++ pending p)

put_bytes_short :
    (p : Pxq3peAdap)
    → IsWell p
    → p.t_buf_idx ≤ length p.t_buf
    → p.s_buf_stop < p.s_buf_size
    → leb p.t_buf_idx (p.s_buf_size - p.s_buf_stop) ≡ true
    → PutAtEnd p
unfolding put_bytes save_size
put_bytes_short p w filled stop_in short =
    let saves : save_size p ≡ p.t_buf_idx = rw (save_size, short) refl in
    let size = w.size in
    let src = pending p in
    let n : length src ≡ p.t_buf_idx = omega (arith, filled, length-take p.t_buf_idx p.t_buf) in
    let room : p.s_buf_stop + length src ≤ length p.s_buf =
      ground (arith, short, n, size, stop_in) in
    let all : (p.t_buf_idx - p.t_buf_idx == 0) ≡ true = ground arith in
    let buf = spliced p.s_buf p.s_buf_stop src in
    let same : length buf ≡ p.s_buf_size = length-spliced p.s_buf p.s_buf_stop src room ∙ size in
    let wraps : (p.s_buf_stop + p.t_buf_idx) % p.s_buf_size
        ≡ (p.s_buf_stop + length src) % length buf =
      ap₂ (λ a b. (p.s_buf_stop + a) % b) (sym n) (sym same) in
    (
      buf,
      rw (put_bytes, saves, memcpy_fits p.s_buf p.s_buf_stop src room, saves, all) refl,
      same,
      ring-wrap buf (p.s_buf_stop + length src) ((p.s_buf_stop + p.t_buf_idx) % p.s_buf_size)
            (omega (arith, same, stop_in)) (omega (arith, room, same, size)) wraps
          ∙ ring-spliced p.s_buf p.s_buf_stop src room
          ∙ ap (λ k. drop k (ring p.s_buf_stop p.s_buf) ++ src) n,
    )

put_bytes_long :
    (p : Pxq3peAdap)
    → IsWell p
    → p.t_buf_idx ≤ length p.t_buf
    → p.s_buf_stop < p.s_buf_size
    → p.t_buf_idx ≤ p.s_buf_size
    → leb p.t_buf_idx (p.s_buf_size - p.s_buf_stop) ≡ false
    → PutAtEnd p
unfolding put_bytes save_size
put_bytes_long p w filled stop_in fits long =
    let saves : save_size p ≡ p.s_buf_size - p.s_buf_stop = rw (save_size, long) refl in
    let size = w.size in
    let savesz = p.s_buf_size - p.s_buf_stop in
    let more : savesz < p.t_buf_idx = ground (arith, long) in
    let xs = take savesz p.t_buf in
    let ys = take (p.t_buf_idx - savesz) (drop savesz p.t_buf) in
    let nx : length xs ≡ savesz = omega (arith, filled, more, length-take savesz p.t_buf) in
    let ny : length ys ≡ p.t_buf_idx - savesz = omega (
      arith,
      filled,
      more,
      length-drop savesz p.t_buf,
      length-take (p.t_buf_idx - savesz) (drop savesz p.t_buf),
    ) in
    let both : xs ++ ys ≡ pending p =
      take-drop_join savesz (p.t_buf_idx - savesz) p.t_buf_idx p.t_buf (omega (arith, more)) in
    let room : p.s_buf_stop + length xs ≤ length p.s_buf = omega (arith, nx, size, stop_in) in
    let some_left : (p.t_buf_idx - savesz == 0) ≡ false = ground (arith, more) in
    let first = spliced p.s_buf p.s_buf_stop xs in
    let same1 = length-spliced p.s_buf p.s_buf_stop xs room in
    let room2 : 0 + length ys ≤ length first = omega (arith, same1, size, ny, more, fits) in
    let turned : (p.s_buf_stop + p.t_buf_idx) % p.s_buf_size ≡ length ys =
      mod-eq-sub-mod (omega (arith, more, stop_in))
      ∙ mod-eq_of_lt (omega (arith, more, stop_in, fits))
      ∙ omega (arith, ny, more, stop_in) in
    let sum : length xs + length ys ≡ p.t_buf_idx = omega (arith, nx, ny, more) in
    (
      spliced first 0 ys,
      rw
          (
            put_bytes,
            saves,
            memcpy_fits p.s_buf p.s_buf_stop xs room,
            saves,
            some_left,
            memcpy_fits first 0 ys room2,
          )
          refl,
      length-spliced first 0 ys room2 ∙ same1 ∙ size,
      ap (λ j. ring j (spliced first 0 ys)) turned
          ∙ ring-spliced_twice p.s_buf p.s_buf_stop xs ys (omega (arith, nx, size, stop_in))
              (omega (arith, ny, fits, more, stop_in))
          ∙ ap₂ (λ k l. drop k (ring p.s_buf_stop p.s_buf) ++ l) sum both,
    )

pub put_bytes_lem :
    (p : Pxq3peAdap)
    → IsWell p
    → p.t_buf_idx ≤ length p.t_buf
    → p.t_buf_idx ≤ p.s_buf_size
    → PutAtEnd p
put_bytes_lem p w filled fits =
    let turn = mod-lt (p.s_buf_start + p.s_buf_byte_cnt) w.some_room in
    let stop_in : p.s_buf_stop < p.s_buf_size = omega (arith, w.stop_is, turn) in
    elim (Bool-cases (leb p.t_buf_idx (p.s_buf_size - p.s_buf_stop))) [
      | inl short ↦ put_bytes_short p w filled stop_in short
      | inr long ↦ put_bytes_long p w filled stop_in fits long
    ]
