-- ===== src/Lzss/Bounds.antt =====
-- src/unlzss.c: the decompression ends inside of its buffers on any input.
use adplug.Base.{ℕ, zero, suc, ◌+◌, ◌-◌, ◌*◌, ◌/◌, ◌^◌, ◌≤◌, ◌<◌, ◌≡◌, refl, arith, bit_and, bit_or}
use adplug.Base.{length, All, All-get_elem?, get_elem?-of_lt}
use adplug.Base.{true, false, ◌==◌, ltb, leb, Bool-cases, inl, inr, if_both}
use adplug.Base.{Outcome, ◌>>=◌, Returns}
use adplug.Base.Bits.{bit_or-lt, bit_and-le, bit_and-65280}
use adplug.Base.Loops.{Progress, rounds-Returns}
use adplug.Lzss.{Buffers, Lzss, Turn, put_output, put_work, work_at, next_byte, literal, copy_loop}
use adplug.Lzss.{copy, decode_flag, round, start, decompress}

-- The buffers are as long as their sizes say, and the input has bytes.
pub record AreBuffers (b : Buffers) : Type 0 where
  pub there : b.input_size ≤ length b.input
  pub bytes : All (λ c. c < 256) b.input

-- The window's place is in the first 4096 bytes, and the output fits.
pub record IsInside (b : Buffers) (s : Lzss) : Type 0 where
  pub in_window : s.edi < 4096
  pub counted : s.output_size ≡ length s.output
  pub fits : s.output_size ≤ b.output_maxsize

module _ (b : Buffers) (are : AreBuffers b) where
  abbrev left : Lzss → ℕ
  left s = b.input_size - s.input_idx

  abbrev Ends : Unit {0} × Lzss → Type 0
  Ends (_, s) = IsInside b s

  abbrev Turns : ℕ → Turn → Type 0
  Turns before = Progress (IsInside b) Ends left before

  Returns-put_work :
      (before : ℕ) (code : ℕ) (s : Lzss) (next : Lzss → Outcome Turn)
      → IsInside b s
      → ((s' : Lzss)
          → IsInside b s'
          → s'.input_idx ≡ s.input_idx
          → s'.output_size ≡ s.output_size
          → Returns (Turns before) (next s'))
      → Returns (Turns before) (put_work code s >>= next)
  unfolding put_work
  Returns-put_work before code s next h k =
      let in_work : ltb s.edi 65536 ≡ true = ground (arith, h.in_window) in
      rw in_work (
        k _
          (record {
            in_window = omega (arith, bit_and-le 12 (s.edi + 1) 4095 (omega arith));
            counted = h.counted;
            fits = h.fits;
          })
          refl refl)

  put_output-IsInside :
      (code : ℕ) (s : Lzss)
      → IsInside b s
      → leb b.output_maxsize s.output_size ≡ false
      → IsInside b (put_output code s)
  put_output-IsInside code s h e = record {
    in_window = h.in_window;
    counted = omega (arith, h.counted);
    fits = ground arith;
  }

  literal-Turns :
      (before : ℕ) (s : Lzss)
      → IsInside b s
      → left s ≤ before
      → Returns (Turns before) (literal b s)
  unfolding literal next_byte
  literal-Turns before s h near = elim (Bool-cases (leb b.input_size s.input_idx)) [
    | inl e ↦ rw (e, Returns) h
    | inr e ↦
        let (code, here) = get_elem?-of_lt b.input s.input_idx (ground (arith, are.there)) in
        let room : s.input_idx < b.input_size = ground arith in
        let s1 : Lzss = record s { input_idx = s.input_idx + 1 } in
        let h1 : IsInside b s1 = record {
          in_window = h.in_window;
          counted = h.counted;
          fits = h.fits;
        } in
        rw (e, here)
          (Returns-put_work before code s1 _ h1 (λ s2 h2 same _.
            elim (Bool-cases (leb b.output_maxsize s2.output_size)) [
              | inl full ↦ rw (full, Returns) h2
              | inr free ↦
                  rw (free, Returns) (put_output-IsInside code s2 h2 free, omega (arith, same))
            ]))
  ]

  copy_loop-Turns :
      (before length ebx : ℕ) (s : Lzss)
      → ebx < 4096
      → IsInside b s
      → left s < before
      → Returns (Turns before) (copy_loop b length ebx s)
  unfolding copy_loop work_at
  copy_loop-Turns before zero ebx s small h less = (h, less)
  copy_loop-Turns before (suc length) ebx s small h less =
      elim (Bool-cases (leb b.output_maxsize s.output_size)) [
        | inl full ↦ rw (full, Returns) h
        | inr free ↦
            let in_work : ltb ebx 65536 ≡ true = ground arith in
            rw (free, in_work)
              (Returns-put_work before (s.work ebx) s _ h (λ s1 h1 same size.
                copy_loop-Turns before length (bit_and (ebx + 1) 4095) (put_output (s.work ebx) s1)
                  (omega (arith, bit_and-le 12 (ebx + 1) 4095 (omega arith)))
                  (put_output-IsInside (s.work ebx) s1 h1 (rw size free)) (omega (arith, same))))
      ]

  copy-Turns :
      (before : ℕ) (s : Lzss) → IsInside b s → left s ≤ before → Returns (Turns before) (copy b s)
  unfolding copy next_byte
  copy-Turns before s h near = elim (Bool-cases (leb b.input_size s.input_idx)) [
    | inl e ↦ rw (e, Returns) h
    | inr e ↦
        let (low, at_low) = get_elem?-of_lt b.input s.input_idx (ground (arith, are.there)) in
        let s1 : Lzss = record s { input_idx = s.input_idx + 1 } in
        let h1 : IsInside b s1 = record {
          in_window = h.in_window;
          counted = h.counted;
          fits = h.fits;
        } in
        elim (Bool-cases (leb b.input_size (s.input_idx + 1))) [
          | inl e1 ↦ rw (e, at_low, e1, Returns) h1
          | inr e1 ↦
              let (high, at_high) =
                get_elem?-of_lt b.input (s.input_idx + 1) (ground (arith, are.there)) in
              let s2 : Lzss = record s { input_idx = s.input_idx + 1 + 1 } in
              let h2 : IsInside b s2 = record {
                in_window = h.in_window;
                counted = h.counted;
                fits = h.fits;
              } in
              let low_lt = All-get_elem? (λ c. c < 256) b.input s.input_idx low are.bytes at_low in
              let high_lt =
                All-get_elem? (λ c. c < 256) b.input (s.input_idx + 1) high are.bytes at_high in
              let place =
                bit_or-lt 12 (bit_and (high * 2 ^ 4) 0xff00) low
                  (omega (arith, bit_and-65280 (high * 2 ^ 4), high_lt)) (omega (arith, low_lt)) in
              let room : s.input_idx + 1 < b.input_size = ground arith in
              rw (e, at_low, e1, at_high)
                (copy_loop-Turns before (bit_and high 0x0f + 3) _ s2 place h2 (omega arith))
        ]
  ]

  decode_flag-Turns :
      (before : ℕ) (s : Lzss)
      → IsInside b s
      → left s ≤ before
      → Returns (Turns before) (decode_flag b s)
  decode_flag-Turns before s h near =
      if_both (Returns (Turns before)) (bit_and s.dx 1 == 0) _ _ (copy-Turns before s h near)
        (literal-Turns before s h near)

  round-Turns : (s : Lzss) → IsInside b s → Returns (Turns (left s)) (round b s)
  unfolding round next_byte
  round-Turns s h =
      let s1 : Lzss = record s { dx = s.dx / 2 } in
      let h1 : IsInside b s1 = record {
        in_window = h.in_window;
        counted = h.counted;
        fits = h.fits;
      } in
      elim (Bool-cases (s.dx / 2 / 2 ^ 8 == 0)) [
        | inr e ↦ rw e (decode_flag-Turns (left s) s1 h1 (omega arith))
        | inl e ↦ elim (Bool-cases (leb b.input_size s.input_idx)) [
          | inl e1 ↦ rw (e, e1, Returns) h1
          | inr e1 ↦
              let (code, here) = get_elem?-of_lt b.input s.input_idx (ground (arith, are.there)) in
              let s2 : Lzss = record s { dx = bit_or 0xff00 code; input_idx = s.input_idx + 1 } in
              let h2 : IsInside b s2 = record {
                in_window = h.in_window;
                counted = h.counted;
                fits = h.fits;
              } in
              rw (e, e1, here) (decode_flag-Turns (left s) s2 h2 (omega arith))
        ]
      ]

  -- On any input of bytes the decompression ends, after no more rounds than the input has bytes, and
  -- one. It reads and writes inside of its buffers and its window only, and its result is the number
  -- of the bytes that it wrote, which is no more than the output has room for.
  pub decompress-IsInside : Returns (λ (x : Unit {0} × Lzss). IsInside b x.1) (decompress b)
  unfolding decompress start
  decompress-IsInside =
      rounds-Returns (IsInside b) Ends left (round b) round-Turns (suc b.input_size) (start b)
        (record { in_window = omega arith; counted = refl; fits = omega arith }) (omega arith)
