-- ===== src/Stamps/Stream.antt =====
-- The loop of `main` of apps/dvb/cmds/fixpcr.c over its input, which is the list of its bytes.
use ptx.Base.{
  ℕ, zero, suc, ◌+◌, ◌-◌, ◌*◌, Bool, true, false, Option, none, some, List, [], ◌∷◌, ◌++◌, ◌==◌,
  ltb, if◌then◌else◌, take, drop, length, replicate,
}
use ptx.Stamps.Packet.{Pes, Stamps, bailout, overrun, stuck, next, fix_packet}

-- The state at first; three elements of `prev_pes` are not set, and keep what they were.
abbrev pub start_pts : ℕ
start_pts = 54000000

unfoldable pub start_stamps : List Pes → Stamps
start_stamps unset = record {
  offset = 0;
  prev_pcr = start_pts;
  prev_pes =
      take 3 unset
      ++ (replicate 32 (record { val = start_pts - 1920 * 300; step = 1920 * 300 })
          ++ replicate 16 (record { val = start_pts - 3003 * 300; step = 3003 * 300 }));
  pcr_pid = 0x2000;
}

-- What `getchar` leaves, from a sync byte on.
unfoldable pub to_sync : List ℕ → List ℕ
to_sync [] = []
to_sync (c ∷ input) = if c == 0x47 then c ∷ input else to_sync input

-- How the program ends: what it returns, or that it writes past a packet.
pub data Ended : Type 0 where
  returned : ℕ → Ended
  overran : Ended

-- The loop, where `can_write` says which calls of `fwrite` succeed, and the packets that were written.
unfoldable pub fix_stream :
    Bool → (ℕ → Bool) → ℕ → List ℕ → ℕ → Stamps → Option (Ended × List (List ℕ))
fix_stream force can_write zero input n s = none
fix_stream force can_write (suc fuel) input n s =
    let here = to_sync input in
    if ltb (length here) 188
    then some (returned 0, [])
    else elim (fix_packet force (take 188 here) s) [
      | bailout ↦ some (returned 1, [])
      | overrun ↦ some (overran, [])
      | stuck ↦ none
      | next b s' ↦ elim (can_write n) [
        | false ↦ some (returned 1, [])
        | true ↦ elim (fix_stream force can_write fuel (drop 188 here) (n + 1) s') [
          | none ↦ none
          | some (e, out) ↦ some (e, b ∷ out)
        ]
      ]
    ]
