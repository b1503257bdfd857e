-- ===== src/Sixdepack/Decode.antt =====
-- src/sixdepack.cpp and src/sixdepack.h: what the decoder reads and writes. The output is kept with
-- its last byte first.
mod Tests
pub mod Input
pub mod Bounds
use adplug.Base.{ℕ, zero, suc, ◌+◌, ◌-◌, ◌*◌, ◌/◌, ◌%◌, ◌^◌, bit_and, bit_or, List, [], ◌∷◌}
use adplug.Base.{get_elem?, Bool, true, false, not, ◌&&◌, ◌||◌, ◌==◌, ltb, leb, if◌then◌else◌}
use adplug.Base.{Outcome, ok, stuck, fault, ◌>>=◌, deref, Option, none, some}
use adplug.Base.Loops.{Round, return_with, next_round, rounds}
use adplug.Sixdepack.{Tree, inner, maxchar, succmax, codesperrange, inittree, updatemodel}

-- The packed words, and the room for the output.
pub record Buffers : Type 0 where
  pub wdbuf : List ℕ
  pub input_size : ℕ
  pub output_size : ℕ

pub record Sixdepak : Type 0 where
  pub tree : Tree
  pub ibitcount : ℕ
  pub ibitbuffer : ℕ
  pub ibufcount : ℕ
  pub obuf : List ℕ
  pub obufcount : ℕ

-- The size of a distance in bits, and the smallest distance.
pub copybits : ℕ → Outcome ℕ
copybits range = if ltb range 6 then ok (2 * range + 4) else fault

pub copymin : ℕ → Outcome ℕ
copymin range = deref (get_elem? (0 ∷ 16 ∷ 80 ∷ 336 ∷ 1360 ∷ 5456 ∷ []) range)

pub bitvalue : ℕ → Outcome ℕ
bitvalue bit = if ltb bit 14 then ok (2 ^ bit) else fault

-- `ibitbuffer & 0x8000`, and the shift behind it.
abbrev pub top_bit : Sixdepak → Bool
top_bit s = not (bit_and s.ibitbuffer 0x8000 == 0)

abbrev pub shifted : Sixdepak → Sixdepak
shifted s = record s { ibitbuffer = s.ibitbuffer * 2 % 2 ^ 16 }

module _ (b : Buffers) where
  -- The next bit, if the input has one.
  pub next_bit : Sixdepak → Outcome (Option (Bool × Sixdepak))
  next_bit s =
      if s.ibitcount == 0
      then (if s.ibufcount == b.input_size then ok none else (do
        w ← deref (get_elem? b.wdbuf s.ibufcount)
        let s1 = record s { ibitbuffer = w; ibufcount = s.ibufcount + 1; ibitcount = 15 }
        ok (some (top_bit s1, shifted s1))))
      else ok (some (top_bit s, shifted (record s { ibitcount = s.ibitcount - 1 })))

  -- The loop of `inputcode` from the bit `i` on; at the end of the input the code is 0.
  pub inputcode : ℕ → ℕ → ℕ → Sixdepak → Outcome (ℕ × Sixdepak)
  inputcode zero i code s = ok (code, s)
  inputcode (suc n) i code s = next_bit s >>= λ bit. elim bit [
    | none ↦ ok (0, s)
    | some x ↦ bitvalue i >>= λ v. inputcode n (i + 1) (if x.0 then bit_or code v else code) x.1
  ]

  -- The way down to a leaf, from the node `a`; `none` is the end of the input.
  pub walk : ℕ → ℕ → Sixdepak → Outcome (Option (ℕ × Sixdepak))
  walk zero a s = stuck
  walk (suc fuel) a s = next_bit s >>= λ bit. elim bit [
    | none ↦ ok none
    | some x ↦ (if x.0 then inner a x.1.tree.rghtc else inner a x.1.tree.leftc) >>= λ a1.
        if leb a1 maxchar then walk fuel a1 x.1 else ok (some (a1, x.1))
  ]

  -- A bit is read in each round of `walk`.
  abbrev pub all_bits : ℕ
  all_bits = 16 * b.input_size

  -- `uncompress`; `none` is `TERMINATE` at the end of the input.
  pub uncompress : Sixdepak → Outcome (Option (ℕ × Sixdepak))
  uncompress s = walk (suc all_bits) 1 s >>= λ leaf. elim leaf [
    | none ↦ ok none
    | some x ↦ updatemodel (x.0 - succmax) x.1.tree >>= λ t.
        ok (some (x.0 - succmax, record x.1 { tree = t }))
  ]

  abbrev pub Turn : Type 0
  Turn = Round (Unit {0}) Sixdepak

  pub put_byte : ℕ → Sixdepak → Sixdepak
  put_byte c s = record s { obuf = c ∷ s.obuf; obufcount = s.obufcount + 1 }

  -- `obuf[obufcount - dist]`, or a zero before the start.
  pub byte_back : ℕ → Sixdepak → Outcome ℕ
  byte_back dist s = if ltb s.obufcount dist then ok 0 else deref (get_elem? s.obuf (dist - 1))

  -- The copy of `len` bytes.
  pub copy : ℕ → ℕ → Sixdepak → Outcome Turn
  copy zero dist s = ok (next_round s)
  copy (suc len) dist s =
      if s.obufcount == b.output_size
      then ok (return_with tt s)
      else byte_back dist s >>= λ c. copy len dist (put_byte c s)

  pub copy_code : ℕ → Sixdepak → Outcome Turn
  copy_code t s = do
    let index = t / codesperrange
    let len = t + 3 - index * codesperrange
    bits ← copybits index
    (code, s1) ← inputcode bits 0 0 s
    least ← copymin index
    copy len (code + least + len) s1

  pub put_code : ℕ → Sixdepak → Outcome Turn
  put_code c s =
      if c == 256
      then ok (return_with tt s)
      else if ltb c 256
      then (if s.obufcount == b.output_size
          then ok (return_with tt s)
          else ok (next_round (put_byte c s)))
      else copy_code (c - 257) s

  -- One round of `for (;;)`.
  pub round : Sixdepak → Outcome Turn
  round s =
      uncompress s >>= λ x. elim x [ none ↦ ok (return_with tt s) | some y ↦ put_code y.0 y.1 ]

  pub do_decode : Tree → Outcome (Unit {0} × Sixdepak)
  do_decode memory = rounds (suc all_bits) round (record {
    tree = inittree memory;
    ibitcount = 0;
    ibitbuffer = 0;
    ibufcount = 0;
    obuf = [];
    obufcount = 0;
  })

abbrev pub maxbuf : ℕ
maxbuf = 42 * 1024

-- `decode`: the bytes that it wrote, the last one first, and their number.
pub decode : List ℕ → ℕ → ℕ → Tree → Outcome (ℕ × List ℕ)
decode source srcbytes dstbytes memory =
    if ltb srcbytes 2 || (ltb (maxbuf - 4096) srcbytes || ltb dstbytes 1) then ok (0, []) else (do
      let size = if ltb maxbuf dstbytes then maxbuf else dstbytes
      (_, s) ←
          do_decode (record { wdbuf = source; input_size = srcbytes / 2; output_size = size })
            memory
      ok (s.obufcount, s.obuf))
