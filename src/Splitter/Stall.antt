-- ===== src/Splitter/Stall.antt =====
-- Sections of a multiple of 256 bytes in `AnalyzePmt` (apps/cdev/recpt1/tssplitter_lite.c): what is
-- left of the section is cut to a byte before it is compared with the room in the packet.
use ptx.Base.{ℕ, ◌+◌, ◌%◌, ◌^◌, ◌<◌, ◌≡◌, ◌≢◌, refl, Bool, true, false, List, [], ◌∷◌, arith}
use ptx.Splitter.Crc.{get_pid}
use ptx.Splitter.State.{Splitter, tss_success}
use ptx.Splitter.Pmt.{info_end, length12, starts, start_section, n_all, scan_streams, analyze_pmt}

-- What is left of the section of a PID is a positive multiple of 256.
pub record IsStalled (pid : ℕ) (sp : Splitter) : Type 0 where
  pub left : sp.section_remain pid ≢ 0
  pub multiple : sp.section_remain pid % 2 ^ 8 ≡ 0

module _ (mark : ℕ) where
  scan_streams-IsStalled :
      (buf : List ℕ) (pid offset n : ℕ) (sp : Splitter)
      → IsStalled pid sp
      → let (sp', result) = scan_streams buf pid offset n mark sp in
        IsStalled pid sp' × (result ≢ tss_success)
  unfolding scan_streams n_all
  scan_streams-IsStalled buf pid offset n sp v = ground arith

  remain-start :
      (buf : List ℕ) (sp : Splitter)
      → length12 buf 6 + 3 < 2 ^ 16
      → (length12 buf 6 + 3) % 2 ^ 8 ≡ 0
      → IsStalled (get_pid buf 1) (start_section buf (get_pid buf 1) mark sp)
  unfolding start_section
  remain-start buf sp h k = record { left = ground arith; multiple = ground arith }

  analyze_pmt-first :
      (buf : List ℕ) (sp : Splitter)
      → starts buf ≡ true
      → length12 buf 6 + 3 < 2 ^ 16
      → (length12 buf 6 + 3) % 2 ^ 8 ≡ 0
      → let (sp', result) = analyze_pmt buf mark sp in
        IsStalled (get_pid buf 1) sp' × (result ≢ tss_success)
  unfolding analyze_pmt
  analyze_pmt-first buf sp st h k = rw st (
      scan_streams-IsStalled buf (get_pid buf 1) 5 (info_end buf)
        (start_section buf (get_pid buf 1) mark sp) (remain-start buf sp h k))

  analyze_pmt-next :
      (buf : List ℕ) (sp : Splitter)
      → starts buf ≡ false
      → IsStalled (get_pid buf 1) sp
      → let (sp', result) = analyze_pmt buf mark sp in
        IsStalled (get_pid buf 1) sp' × (result ≢ tss_success)
  unfolding analyze_pmt
  analyze_pmt-next buf sp st v = ground (arith, scan_streams-IsStalled buf (get_pid buf 1) 4 4 sp v)

  -- Whether one of the packets completes the section.
  unfoldable pub any_success : List (List ℕ) → Splitter → Bool
  any_success [] sp = false
  any_success (buf ∷ rest) sp =
      let (sp', result) = analyze_pmt buf mark sp in
      elim result [ tss_success ↦ true | _ ↦ any_success rest sp' ]

  -- The packets continue the section of `pid`.
  abbrev pub Continue : ℕ → List (List ℕ) → Type 0
  Continue pid [] = Unit
  Continue pid (buf ∷ rest) = (starts buf ≡ false) × (get_pid buf 1 ≡ pid) × Continue pid rest

  any_success-IsStalled :
      (pid : ℕ) (bufs : List (List ℕ)) (sp : Splitter)
      → Continue pid bufs
      → IsStalled pid sp
      → any_success bufs sp ≡ false
  unfolding any_success
  any_success-IsStalled pid [] sp c v = refl
  any_success-IsStalled pid (buf ∷ rest) sp c v =
      let (sp', result) = analyze_pmt buf mark sp in
      let k : IsStalled pid sp' × (result ≢ tss_success) =
        rw (c.1) at (analyze_pmt-next buf sp c.0 (rw (c.1) v)) in
      ground (arith, any_success-IsStalled pid rest sp' c.2 k.0, k.1)

  -- A PMT whose section, with its header, has 256 bytes or a multiple of them is never completed:
  -- neither the packet that starts it nor any number of packets that continue it makes
  -- `AnalyzePmt` succeed.
  pub pmt_stall :
      (buf : List ℕ) (bufs : List (List ℕ)) (sp : Splitter)
      → starts buf ≡ true
      → length12 buf 6 + 3 < 2 ^ 16
      → (length12 buf 6 + 3) % 2 ^ 8 ≡ 0
      → Continue (get_pid buf 1) bufs
      → any_success (buf ∷ bufs) sp ≡ false
  unfolding any_success
  pmt_stall buf bufs sp st h k c =
      let (sp', result) = analyze_pmt buf mark sp in
      let v = analyze_pmt-first buf sp st h k in
      ground (arith, any_success-IsStalled (get_pid buf 1) bufs sp' c v.0, v.1)
