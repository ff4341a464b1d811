-- ===== src/Pxq3pe/Clear.antt =====
-- What the loops of `pxq3pe_thread` of drivers/media/pci/ptx/pxq3pe_pci.c do to the bytes.
use ptx.Base.{
  ℕ, zero, suc, ◌+◌, ◌-◌, ◌*◌, ◌%◌, ◌<◌, ◌≤◌, ◌≡◌, refl, sym, ap, ◌∙◌, true, false, List, [], ◌∷◌,
  ltb, if◌then◌else◌, arith, modify,
}
use ptx.Pxq3pe.Ring.{ts_size}
use ptx.Pxq3pe.Thread.{xor_byte, xor_group, xor_packet, xor_packets}

module _ (idx xor : List ℕ) where
  -- The byte at position `i` of a stream of packets: the four bytes of the header are clear, the others
  -- go round the table by eights.
  abbrev pub clear_byte : ℕ → ℕ → ℕ
  clear_byte i b = if ltb (i % ts_size) 4 then b else xor_byte idx xor ((i % ts_size - 4) % 8) b

  -- The first `n` bytes, the first of which is at position `i`.
  unfoldable pub clear : ℕ → ℕ → List ℕ → List ℕ
  clear i zero xs = xs
  clear i (suc n) [] = []
  clear i (suc n) (x ∷ xs) = clear_byte i x ∷ clear (i + 1) n xs

modify_ext :
    (xs : List ℕ) (n : ℕ) (f g : ℕ → ℕ) → ((b : ℕ) → f b ≡ g b) → modify xs n f ≡ modify xs n g
modify_ext [] n f g h = refl
modify_ext (x ∷ xs) zero f g h = ap (λ y. y ∷ xs) (h x)
modify_ext (x ∷ xs) (suc n) f g h = ap (λ l. x ∷ l) (modify_ext xs n f g h)

modify_id : (xs : List ℕ) (n : ℕ) → modify xs n (λ b. b) ≡ xs
modify_id [] n = refl
modify_id (x ∷ xs) zero = refl
modify_id (x ∷ xs) (suc n) = ap (λ l. x ∷ l) (modify_id xs n)

module _ (idx xor : List ℕ) where
  clear-step :
      (i n j : ℕ) (xs : List ℕ)
      → j ≡ i + n
      → modify (clear idx xor i n xs) n (clear_byte idx xor j) ≡ clear idx xor i (suc n) xs
  unfolding clear
  clear-step i zero j [] e = refl
  clear-step i zero j (x ∷ xs) e =
      let same : j ≡ i = omega (arith, e) in ap (λ k. clear_byte idx xor k x ∷ xs) same
  clear-step i (suc n) j [] e = refl
  clear-step i (suc n) j (x ∷ xs) e =
      ap (λ l. clear_byte idx xor i x ∷ l) (clear-step (i + 1) n j xs (omega (arith, e)))

  -- The next byte, and what the code does to it.
  clear-next :
      (n m : ℕ) (f : ℕ → ℕ) (xs : List ℕ)
      → m ≡ n + 1
      → ((b : ℕ) → f b ≡ clear_byte idx xor n b)
      → modify (clear idx xor 0 n xs) n f ≡ clear idx xor 0 m xs
  clear-next n m f xs e h =
      let next : suc n ≡ m = omega (arith, e) in
      modify_ext (clear idx xor 0 n xs) n f (clear_byte idx xor n) h
      ∙ clear-step 0 n n xs (omega arith)
      ∙ ap (λ k. clear idx xor 0 k xs) next

  -- In the header nothing is to be done.
  clear-header :
      (left n m : ℕ) (xs : List ℕ)
      → m ≡ n + left
      → n % ts_size + left ≤ 4
      → clear idx xor 0 n xs ≡ clear idx xor 0 m xs
  clear-header zero n m xs e h =
      let same : n ≡ m = omega (arith, e) in ap (λ k. clear idx xor 0 k xs) same
  clear-header (suc left) n m xs e h =
      let header : ltb (n % ts_size) 4 ≡ true = ground (arith, h) in
      sym (modify_id (clear idx xor 0 n xs) n)
      ∙ clear-next n (n + 1) (λ b. b) xs refl (λ b. rw header refl)
      ∙ clear-header left (n + 1) m xs (omega (arith, e)) (omega (arith, h))

  -- Eight bytes from position `q` on, which is one where the table begins.
  xor_group-clear :
      (left k q i m : ℕ) (xs : List ℕ)
      → k + left ≡ 8
      → i ≡ q + k
      → m ≡ i + left
      → 4 ≤ q % ts_size
      → (q % ts_size - 4) % 8 ≡ 0
      → xor_group idx xor left k i (clear idx xor 0 i xs) ≡ (m, clear idx xor 0 m xs)
  unfolding xor_group
  xor_group-clear zero k q i m xs s at e h he =
      let same : i ≡ m = omega (arith, e) in ap (λ j. (j, clear idx xor 0 j xs)) same
  xor_group-clear (suc left) k q i m xs s at e h he =
      let within : i % ts_size ≡ q % ts_size + k = omega (arith, s, at, h, he) in
      let body : ltb (i % ts_size) 4 ≡ false = ground (arith, h, within) in
      let entry : (i % ts_size - 4) % 8 ≡ k = omega (arith, s, h, he, within) in
      ap (xor_group idx xor left (k + 1) (i + 1))
        (clear-next i (i + 1) (xor_byte idx xor k) xs refl (λ b. rw (body, entry) refl))
      ∙ xor_group-clear left (k + 1) q (i + 1) m xs (omega (arith, s)) (omega (arith, at))
          (omega (arith, e)) h he

  -- From `rounds` groups before the end of the packet to its end.
  xor_packet-clear :
      (rounds fuel j i m : ℕ) (xs : List ℕ)
      → rounds ≤ fuel
      → rounds ≤ 23
      → m ≡ j * ts_size
      → i + 8 * rounds ≡ m
      → 0 < j
      → xor_packet idx xor fuel j i (clear idx xor 0 i xs) ≡ (m, clear idx xor 0 m xs)
  unfolding xor_packet
  xor_packet-clear rounds zero j i m xs h h23 e at pos =
      let same : i ≡ m = omega (arith, h, at) in ap (λ n. (n, clear idx xor 0 n xs)) same
  xor_packet-clear zero (suc fuel) j i m xs h h23 e at pos =
      let same : i ≡ m = omega (arith, at) in
      let over : ltb i (j * ts_size) ≡ false = ground (arith, e, same) in
      rw (xor_packet, over) (ap (λ n. (n, clear idx xor 0 n xs)) same)
  xor_packet-clear (suc rounds) (suc fuel) j i m xs h h23 e at pos =
      let more : ltb i (j * ts_size) ≡ true = ground (arith, e, at) in
      rw (xor_packet, more)
        (ap (λ r. xor_packet idx xor fuel j r.0 r.1)
            (xor_group-clear 8 0 i i (i + 8) xs refl (omega arith) refl
              (omega (arith, h23, e, at, pos)) (omega (arith, h23, e, at, pos)))
          ∙ xor_packet-clear rounds fuel j (i + 8) m xs (omega (arith, h)) (omega (arith, h23)) e
              (omega (arith, at)) pos)

  -- The loops clear whole packets, the headers left as they are.
  xor_packets-clear :
      (left j i m : ℕ) (xs : List ℕ)
      → i ≡ j * ts_size
      → m ≡ (j + left) * ts_size
      → xor_packets idx xor left j i (clear idx xor 0 i xs) ≡ clear idx xor 0 m xs
  unfolding xor_packets
  xor_packets-clear zero j i m xs e em =
      let same : i ≡ m = omega (arith, e, em) in ap (λ n. clear idx xor 0 n xs) same
  xor_packets-clear (suc left) j i m xs e em =
      let next = (j + 1) * ts_size in
      ap (λ l. xor_packets idx xor (suc left) j i l)
        (clear-header 4 i (i + 4) xs refl (omega (arith, e)))
      ∙ ap (λ r. xor_packets idx xor left (j + 1) r.0 r.1)
          (xor_packet-clear 23 24 (j + 1) (i + 4) next xs (omega arith) (omega arith) refl
            (omega (arith, e)) (omega arith))
      ∙ xor_packets-clear left (j + 1) next m xs refl (omega (arith, em))

  -- The loops over `n` packets change just their bytes, and each as its place in its packet says: the
  -- four bytes of the header not at all, the others with the entry of the table that goes round by eights.
  pub xor_packets_lem :
      (n : ℕ) (xs : List ℕ) → xor_packets idx xor n 0 0 xs ≡ clear idx xor 0 (n * ts_size) xs
  unfolding clear
  xor_packets_lem n xs = xor_packets-clear n 0 0 (n * ts_size) xs (omega arith) (omega arith)
