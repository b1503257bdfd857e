-- ===== src/Sixdepack/Decode/Bounds.antt =====
-- src/sixdepack.cpp: the decoder ends inside of its buffers and of its tree, on any input.
use adplug.Base.{ℕ, zero, suc, ◌+◌, ◌-◌, ◌*◌, ◌/◌, ◌≤◌, ◌<◌, ◌≡◌, refl, arith, List}
use adplug.Base.{[], ◌∷◌, length, get_elem?-of_lt, true, ◌==◌, ltb, ◌||◌}
use adplug.Base.{if◌then◌else◌, if_both, if_split}
use adplug.Base.{Returns, Returns-bind, Returns-option}
use adplug.Base.Loops.{Progress, rounds-Returns}
use adplug.Sixdepack.{Tree}
use adplug.Sixdepack.Decode.{Sixdepak, Buffers, Turn, inputcode}
use adplug.Sixdepack.Decode.{uncompress, put_byte, byte_back, copy, copy_code, put_code}
use adplug.Sixdepack.Decode.{copybits, copymin, round, do_decode, decode, maxbuf}
use adplug.Sixdepack.Shape.{inittree-IsValid}
use adplug.Sixdepack.Decode.Input.{
  IsInside, IsCode, NoSooner, left, uncompress-IsCode, inputcode-NoSooner,
}

module _ (b : Buffers) (there : b.input_size ≤ length b.wdbuf) where
  abbrev Inside : Sixdepak → Type 0
  Inside = IsInside b there

  abbrev ahead : Sixdepak → ℕ
  ahead = left b there

  abbrev Ends : (Unit {0}) × Sixdepak → Type 0
  Ends x = Inside x.1

  abbrev Turns : ℕ → Turn b → Type 0
  Turns = Progress Inside Ends ahead

  put_byte-IsInside :
      (c : ℕ) (s : Sixdepak) → Inside s → s.obufcount < b.output_size → Inside (put_byte b c s)
  unfolding put_byte
  put_byte-IsInside c s h room = record {
    tree = h.tree;
    in_input = h.in_input;
    bits = h.bits;
    counted = omega (arith, h.counted);
    fits = omega arith;
  }

  byte_back-ok :
      (dist : ℕ) (s : Sixdepak)
      → Inside s
      → 1 ≤ dist
      → Returns (λ (c : ℕ). Unit {0}) (byte_back b dist s)
  unfolding byte_back
  byte_back-ok dist s h far =
      if_split (Returns (λ (c : ℕ). Unit {0})) (ltb s.obufcount dist) _ _ (λ before. tt)
        (λ on.
          let inside : dist - 1 < length s.obuf = ground (arith, h.counted) in
          let (c, e) = get_elem?-of_lt s.obuf (dist - 1) inside in rw e tt)

  copy-Progress :
      (before len dist : ℕ) (s : Sixdepak)
      → Inside s
      → 1 ≤ dist
      → ahead s < before
      → Returns (Turns before) (copy b len dist s)
  unfolding copy put_byte
  copy-Progress before zero dist s h far less = (h, less)
  copy-Progress before (suc len) dist s h far less =
      if_split (Returns (Turns before)) (s.obufcount == b.output_size) _ _ (λ full. h)
        (λ free.
          let room : s.obufcount < b.output_size = ground (arith, h.fits) in
          Returns-bind (λ (c : ℕ). Unit {0}) (Turns before) (byte_back b dist s) _
            (byte_back-ok dist s h far)
            (λ c _.
              copy-Progress before len dist (put_byte b c s) (put_byte-IsInside c s h room) far
                less))

  copy_code-Progress :
      (before t : ℕ) (s : Sixdepak)
      → Inside s
      → t ≤ 1517
      → ahead s < before
      → Returns (Turns before) (copy_code b t s)
  unfolding copy_code copybits copymin
  copy_code-Progress before t s h small less =
      let index = t / 253 in
      let len = t + 3 - index * 253 in
      let low : index < 6 = omega arith in
      let far : 3 ≤ len = omega arith in
      let in_range : ltb index 6 ≡ true = ground arith in
      let (least, e) =
        get_elem?-of_lt {A = ℕ} (0 ∷ 16 ∷ 80 ∷ 336 ∷ 1360 ∷ 5456 ∷ []) index (omega arith) in
      rw (in_range, e)
        (Returns-bind (NoSooner b there s) (Turns before) (inputcode b (2 * index + 4) 0 0 s) _
          (inputcode-NoSooner b there (2 * index + 4) 0 0 s h (omega arith))
          (λ x on.
            copy-Progress before len (x.0 + least + len) x.1 on.0 (omega arith)
              (omega (arith, on.1))))

  put_code-Progress :
      (before c : ℕ) (s : Sixdepak)
      → Inside s
      → c ≤ 1774
      → ahead s < before
      → Returns (Turns before) (put_code b c s)
  unfolding put_code put_byte
  put_code-Progress before c s h small less =
      let R = Returns (Turns before) in
      if_split R (c == 256) _ _ (λ over. h)
        (λ other.
          if_split R (ltb c 256) _ _
            (λ byte.
              if_split R (s.obufcount == b.output_size) _ _ (λ full. h)
                (λ free. (put_byte-IsInside c s h (ground (arith, h.fits)), less)))
            (λ copied. copy_code-Progress before (c - 257) s h (omega arith) less))

  round-Progress : (s : Sixdepak) → Inside s → Returns (Turns (ahead s)) (round b s)
  unfolding round
  round-Progress s h =
      Returns-option (IsCode b there s) (Turns (ahead s)) (uncompress b s) _ _
        (uncompress-IsCode b there s h) h
        (λ x (code, on). put_code-Progress (ahead s) x.0 x.1 on.0 code on.1)

  do_decode-IsInside : (memory : Tree) → Returns Ends (do_decode b memory)
  unfolding do_decode
  do_decode-IsInside memory =
      rounds-Returns Inside Ends ahead (round b) round-Progress (suc (16 * b.input_size)) _
        (record {
          tree = inittree-IsValid memory;
          in_input = omega arith;
          bits = omega arith;
          counted = refl;
          fits = omega arith;
        })
        (omega arith)

-- What the caller gets: as many bytes as were asked for and fit, and their number.
abbrev pub IsUnpacked : ℕ → ℕ × List ℕ → Type 0
IsUnpacked dstbytes x = (x.0 ≡ length x.1) × (x.0 ≤ dstbytes) × (x.0 ≤ 43008)

-- Of any packed words at all, with `source` at least as long as its size in bytes says, `decode` ends
-- without an access outside of its buffers and of its tree. The number that it returns is that of the
-- bytes that it wrote, and no larger than `dstbytes` or the 42 KB of a buffer.
pub decode-IsUnpacked :
    (source : List ℕ) (srcbytes dstbytes : ℕ) (memory : Tree)
    → srcbytes / 2 ≤ length source
    → Returns (IsUnpacked dstbytes) (decode source srcbytes dstbytes memory)
unfolding decode
decode-IsUnpacked source srcbytes dstbytes memory there =
    let size = if ltb 43008 dstbytes then 43008 else dstbytes in
    let size_le : (size ≤ dstbytes) × (size ≤ 43008) = (ground arith, ground arith) in
    let b : Buffers = record { wdbuf = source; input_size = srcbytes / 2; output_size = size } in
    if_both (Returns (IsUnpacked dstbytes))
      (ltb srcbytes 2 || (ltb (maxbuf - 4096) srcbytes || ltb dstbytes 1)) _ _
      (refl, omega arith, omega arith)
      (Returns-bind (Ends b there) (IsUnpacked dstbytes) (do_decode b memory) _
        (do_decode-IsInside b there memory)
        (λ x on. (on.counted, omega (arith, on.fits, size_le), omega (arith, on.fits, size_le))))
