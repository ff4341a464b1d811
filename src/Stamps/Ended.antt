-- ===== src/Stamps/Ended.antt =====
-- That apps/dvb/cmds/fixpcr.c ends, and what it has written then.
use ptx.Base.{
  ℕ, zero, suc, ◌+◌, ◌<◌, ◌≤◌, ◌≡◌, ◌⊎◌, inl, inr, refl, ◌∙◌, Bool, true, false, none, some, Option,
  List, [], ◌∷◌, ◌==◌, ltb, if◌then◌else◌, arith, length, take, drop, length-take, length-drop,
  if-both, Bool-cases, ltb-ge,
}
use ptx.Stamps.Packet.{Stamps, PacketOutcome, bailout, overrun, stuck, next, fix_packet}
use ptx.Stamps.Sized.{Kept, fix_packet-Kept}
use ptx.Stamps.Stream.{Ended, returned, overran, to_sync, fix_stream}

length-to_sync : (input : List ℕ) → length (to_sync input) ≤ length input
unfolding to_sync
length-to_sync [] = omega arith
length-to_sync (c ∷ input) =
    if-both (λ l. length l ≤ suc (length input)) (c == 0x47) (c ∷ input) (to_sync input)
      (λ _. omega arith) (λ _. omega (arith, length-to_sync input))

-- The packets of an input: 188 bytes from each sync byte that is not inside of one.
unfoldable pub packets_in : ℕ → List ℕ → List (List ℕ)
packets_in zero input = []
packets_in (suc fuel) input =
    let here = to_sync input in
    let rest = packets_in fuel (drop 188 here) in
    if ltb (length here) 188 then [] else take 188 here ∷ rest

-- The packets that were written are the first of those that came, each of 188 bytes and with the four
-- bytes of its header as they were.
unfoldable pub Follow : List (List ℕ) → List (List ℕ) → Type 0
Follow [] ins = Unit
Follow (b ∷ out) [] = 1 ≤ 0
Follow (b ∷ out) (p ∷ ins) = (length b ≡ 188) × (take 4 b ≡ take 4 p) × Follow out ins

-- It has returned 0 and written all, or it has stopped before.
abbrev pub Through : Ended → List (List ℕ) → List (List ℕ) → Type 0
Through e out ins =
    ((e ≡ returned 0) × (length out ≡ length ins))
    ⊎ (((e ≡ returned 1) ⊎ (e ≡ overran)) × (length out < length ins))

abbrev Goes : Option (Ended × List (List ℕ)) → List (List ℕ) → Type 0
Goes run ins =
    (e : Ended) × (out : List (List ℕ)) × (run ≡ some (e, out)) × Follow out ins × Through e out ins

-- How the rest of the stream ends after a packet.
stream-after :
    (o : PacketOutcome) (force : Bool) (can_write : ℕ → Bool) (fuel : ℕ) (input : List ℕ) (n : ℕ)
    (packet : List ℕ) (ins : List (List ℕ))
    → length packet ≡ 188
    → Kept packet o
    → ((s : Stamps) → Goes (fix_stream force can_write fuel input (n + 1) s) ins)
    → Goes
        (elim o [
          | bailout ↦ some (returned 1, [])
          | overrun ↦ some (overran, [])
          | stuck ↦ none
          | next b s' ↦ elim (can_write n) [
            | false ↦ some (returned 1, [])
            | true ↦ elim (fix_stream force can_write fuel input (n + 1) s') [
              | none ↦ none
              | some (e, out) ↦ some (e, b ∷ out)
            ]
          ]
        ])
        (packet ∷ ins)
unfolding Kept Follow
stream-after bailout force can_write fuel input n packet ins size h rest =
    (returned 1, [], refl, tt, inr (inl refl, omega arith))
stream-after overrun force can_write fuel input n packet ins size h rest =
    (overran, [], refl, tt, inr (inr refl, omega arith))
stream-after stuck force can_write fuel input n packet ins size h rest = absurd (omega (arith, h))
stream-after (next b s') force can_write fuel input n packet ins size h rest =
    let (e, out, eq, follow, through) = rest s' in
    elim (Bool-cases (can_write n)) [
      | inr full ↦ (returned 1, [], rw full refl, tt, inr (inl refl, omega arith))
      | inl wrote ↦ (
        e,
        b ∷ out,
        rw (wrote, eq) refl,
        (h.0 ∙ size, h.1, follow),
        elim through [
          | inl (fine, all) ↦ inl (fine, omega (arith, all))
          | inr (how, fewer) ↦ inr (how, omega (arith, fewer))
        ],
      )
    ]

-- Whatever comes in and whichever writes fail, the program ends within one round more than there are
-- bytes, and no search for a sequence header runs out of its rounds. It has returned 0, and written a
-- packet for each one that came in; or it has returned 1 or written past a packet, and has written one
-- for each of the first of them. Each is of 188 bytes and has the header of the packet that came.
pub fix_stream-ends :
    (force : Bool) (can_write : ℕ → Bool) (fuel : ℕ) (input : List ℕ) (n : ℕ) (s : Stamps)
    → length input < fuel
    → (e : Ended) × (out : List (List ℕ)) × (fix_stream force can_write fuel input n s
        ≡ some (e, out))
      × Follow out (packets_in fuel input)
      × Through e out (packets_in fuel input)
unfolding fix_stream packets_in Follow
fix_stream-ends force can_write zero input n s h = absurd (omega (arith, h))
fix_stream-ends force can_write (suc fuel) input n s h =
    let here = to_sync input in
    let shorter = length-to_sync input in
    elim (Bool-cases (ltb (length here) 188)) [
      | inl short ↦ (
        returned 0,
        [],
        rw (fix_stream, short) refl,
        tt,
        rw (packets_in, short) (inl (refl, refl)),
      )
      | inr enough ↦
          let whole = ltb-ge (length here) 188 enough in
          let left = length-drop 188 here in
          let packet = take 188 here in
          let size : length packet ≡ 188 = omega (arith, whole, length-take 188 here) in
          let (e, out, eq, follow, through) =
            stream-after (fix_packet force packet s) force can_write fuel (drop 188 here) n packet
              (packets_in fuel (drop 188 here)) size (fix_packet-Kept force packet s)
              (λ t.
                fix_stream-ends force can_write fuel (drop 188 here) (n + 1) t
                  (omega (arith, h, shorter, whole, left))) in
          (
            e,
            out,
            rw (fix_stream, enough) eq,
            rw (packets_in, enough) follow,
            rw (packets_in, enough) through,
          )
    ]
