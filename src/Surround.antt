-- ===== src/Surround.antt =====
-- src/surroundopl.cpp and src/surroundopl.h: a chip that plays on two others, the second one a little
-- higher. Registers and values are numbers, not negative. The doubles of `calcFNum()` are a parameter;
-- the sound buffers and the log are left out.
mod Tests
pub mod Arrays
pub mod Calls
pub mod Mirror
pub mod Pitches
pub mod Writes
use adplug.Base.{ℕ, ◌+◌, ◌-◌, ◌*◌, ◌/◌, ◌%◌, ◌^◌, bit_and, bit_or, List, ◌∷◌, replicate}
use adplug.Base.{Bool, true, false, ◌&&◌, ◌||◌, ◌==◌, ltb, leb, if◌then◌else◌, Outcome, ok, ◌>>=◌}
use adplug.Base.Opl.{Opl, write, setchip, init}
use adplug.Surround.Arrays.{get2, set2}

-- `calcFNum()` for a number and a block, transposed to another block, with the offset of the chip; and
-- the tests and the cast of its result.
pub record Pitch : Type 1 where
  pub Double : Type 0
  pub calc : ℕ → ℕ → ℕ → Double
  pub too_high : Double → Bool
  pub too_low : Double → Bool
  pub to_uint16 : Double → ℕ

-- `opl_a` and `opl_b` are the calls that the two chips received.
pub record Surround : Type 0 where
  pub opl_a : Opl
  pub opl_b : Opl
  pub curr_chip : ℕ
  pub fm_reg : List (List ℕ)
  pub tweaked_reg : List (List ℕ)
  pub tweaked_block : List (List ℕ)
  pub current_fnum : List (List ℕ)

module _ (pitch : Pitch) where
  -- The block and the number before the sanity check.
  pub move_block : ℕ → ℕ → ℕ × ℕ
  move_block block fnum =
      let new = pitch.calc fnum block block in
      if pitch.too_high new
      then (if ltb 6 block
          then (block, fnum)
          else (block + 1, pitch.to_uint16 (pitch.calc fnum block (block + 1))))
      else if pitch.too_low new
      then (if block == 0
          then (block, fnum)
          else (block - 1, pitch.to_uint16 (pitch.calc fnum block (block - 1))))
      else (block, pitch.to_uint16 new)

  pub transpose : ℕ → ℕ → ℕ × ℕ
  transpose block fnum =
      let (new_block, new_fnum) = move_block block fnum in
      if ltb 1023 new_fnum then (block, fnum) else (new_block, new_fnum)

-- The end of `write`, which is also how it sends an additional register.
pub write_b : ℕ → ℕ → Surround → Outcome Surround
write_b reg val s = do
  tweaked ← set2 s.tweaked_reg s.curr_chip reg (val % 2 ^ 8)
  ok (record s { opl_b = write reg val ∷ s.opl_b; tweaked_reg = tweaked })

-- `(x & ~0x1F) | (block << 2) | ((fnum >> 8) & 0x03)`
abbrev pub with_pitch : ℕ → ℕ → ℕ → ℕ
with_pitch x block fnum =
    bit_or (bit_or (bit_and x (2 ^ 32 - 1 - 0x1f)) (block * 2 ^ 2)) (bit_and (fnum / 2 ^ 8) 0x03)

-- Registers 0xb0 to 0xb8.
pub write_high : ℕ → ℕ → ℕ → ℕ × ℕ → Surround → Outcome Surround
write_high reg c val (block, fnum) s = do
  blocks ← set2 s.tweaked_block s.curr_chip c (block % 2 ^ 8)
  fnums ← set2 s.current_fnum s.curr_chip c (fnum % 2 ^ 8)
  let s1 = record s { tweaked_block = blocks; current_fnum = fnums }
  low ← get2 s1.tweaked_reg s1.curr_chip (0xa0 + c)
  s2 ← if low == bit_and fnum 0xff then ok s1 else write_b (0xa0 + c) (bit_and fnum 0xff) s1
  write_b reg (with_pitch val block fnum) s2

-- Registers 0xa0 to 0xa8.
pub write_low : ℕ → ℕ → ℕ × ℕ → Surround → Outcome Surround
write_low reg c (block, fnum) s = do
  high ← get2 s.fm_reg s.curr_chip (0xb0 + c)
  let new_b0 = with_pitch high block fnum % 2 ^ 8
  old_b0 ← get2 s.tweaked_reg s.curr_chip (0xb0 + c)
  s1 ← if bit_and new_b0 0x20 == 0 || old_b0 == new_b0 then ok s else write_b (0xb0 + c) new_b0 s
  write_b reg (bit_and fnum 0xff) s1

-- The registers of a frequency, of which the last seven are no channel's.
pub write_channel : Pitch → ℕ → ℕ → ℕ → Surround → Outcome Surround
write_channel pitch reg c val s = do
  high ← get2 s.fm_reg s.curr_chip (0xb0 + c)
  low ← get2 s.fm_reg s.curr_chip (0xa0 + c)
  let block = bit_and (high / 2 ^ 2) 0x07
  let fnum = bit_or (bit_and high 0x03 * 2 ^ 8) low
  let new = transpose pitch block fnum
  if leb 0xb0 reg && leb reg 0xb8
      then write_high reg c val new s
      else if leb 0xa0 reg && leb reg 0xa8
      then write_low reg c new s
      else write_b reg val s

pub write_reg : Pitch → ℕ → ℕ → Surround → Outcome Surround
write_reg pitch reg val s = do
  fm ← set2 s.fm_reg s.curr_chip reg (val % 2 ^ 8)
  let s1 = record s { opl_a = write reg val ∷ s.opl_a; fm_reg = fm }
  if reg / 2 ^ 4 == 0xa || reg / 2 ^ 4 == 0xb
      then write_channel pitch reg (bit_and reg 0x0f) val s1
      else write_b reg val s1

abbrev pub zeros : ℕ → List (List ℕ)
zeros n = replicate 2 (replicate n 0)

-- `init`, which selects the first chip of both, and leaves the chip that is its own selection.
pub init_all : Surround → Surround
init_all s = record s {
  opl_a = setchip 0 ∷ init ∷ s.opl_a;
  opl_b = setchip 0 ∷ init ∷ s.opl_b;
  fm_reg = zeros 256;
  tweaked_reg = zeros 256;
  tweaked_block = zeros 9;
  current_fnum = zeros 9;
}

pub select_chip : ℕ → Surround → Surround
select_chip n s = record s {
  opl_a = setchip n ∷ s.opl_a;
  opl_b = setchip n ∷ s.opl_b;
  curr_chip = if ltb n 2 then n else s.curr_chip;
}
