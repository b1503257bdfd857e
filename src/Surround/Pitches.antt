-- ===== src/Surround/Pitches.antt =====
-- src/surroundopl.cpp: the frequency that the second chip gets.
use adplug.Base.{ℕ, zero, suc, ◌+◌, ◌*◌, ◌/◌, ◌%◌, ◌^◌, ◌≤◌, ◌<◌, ◌≡◌, arith, ◌⊎◌}
use adplug.Base.{ltb, Bool-cases, inl, inr}
use adplug.Surround.{Pitch, move_block, transpose}

-- The doubles for the offset of 128.0 that a chip begins with. Each step of `calcFNum()` is exact then,
-- since its numbers are far below 2^53 but for a power of two: a double is the fraction of the two
-- numbers.
abbrev pub default_pitch : Pitch
default_pitch = record {
  Double = ℕ × ℕ;
  calc = λ fnum block new_block. (fnum * 2 ^ block * 129, 2 ^ new_block * 128);
  too_high = λ (n, d). ltb (991 * d) n;
  too_low = λ (n, d). ltb n (32 * d);
  to_uint16 = λ (n, d). n / d % 2 ^ 16;
}

-- In the range of a chip.
abbrev pub InRange : ℕ × ℕ → Type 0
InRange (block, fnum) = (block < 8) × (fnum < 1024)

move_block-lt : (pitch : Pitch) (block fnum : ℕ) → block < 8 → (move_block pitch block fnum).0 < 8
unfolding move_block
move_block-lt pitch block fnum small = ground arith

-- Whatever the offset is and whatever the doubles come to, the second chip gets a block and a number
-- that it has room for.
pub transpose-InRange :
    (pitch : Pitch) (block fnum : ℕ)
    → block < 8
    → fnum < 1024
    → InRange (transpose pitch block fnum)
unfolding transpose
transpose-InRange pitch block fnum hb hf =
    elim (Bool-cases (ltb 1023 (move_block pitch block fnum).1)) [
      | inl e ↦ rw e (hb, hf)
      | inr e ↦ rw e (move_block-lt pitch block fnum hb, ground arith)
    ]

-- A number that would be above 991 goes to the next block, one below 32 to the block before, and any
-- other keeps its block.
abbrev pub InBlock : ℕ → ℕ → ℕ → Type 0
InBlock block fnum new_block =
    ((new_block ≡ block + 1) × (991 * 128 < fnum * 129))
    ⊎ (((new_block + 1 ≡ block) × (fnum * 129 < 32 * 128))
        ⊎ ((new_block ≡ block) × (32 * 128 ≤ fnum * 129) × (fnum * 129 ≤ 991 * 128)))

-- The frequency `fnum * 2 ^ block` is raised by a 128th, up to what the new number rounds off.
abbrev pub Raised : ℕ → ℕ → ℕ × ℕ → Type 0
Raised block fnum (new_block, new_fnum) =
    InBlock block fnum new_block
    × (new_fnum * 2 ^ new_block * 128 ≤ fnum * 2 ^ block * 129)
    × (fnum * 2 ^ block * 129 < (new_fnum + 1) * 2 ^ new_block * 128)

-- It stays, where there is no block above or below.
abbrev pub Stays : ℕ → ℕ → ℕ × ℕ → Type 0
Stays block fnum (new_block, new_fnum) =
    (new_block ≡ block)
    × (new_fnum ≡ fnum)
    × (((block ≡ 7) × (991 * 128 < fnum * 129)) ⊎ ((block ≡ 0) × (fnum * 129 < 32 * 128)))

-- With the offset that a surround chip begins with, a number of a chip's range is raised by a
-- 128th, and only rounded down to a number of its new block: that is the next one where the raised
-- number would be above 991, the one before where it would be below 32, and else its own. But the
-- number stays as it is where it would have to leave the highest block or the lowest.
pub transpose-default :
    (block fnum : ℕ)
    → block < 8
    → fnum < 1024
    → Raised block fnum (transpose default_pitch block fnum)
      ⊎ Stays block fnum (transpose default_pitch block fnum)
unfolding transpose move_block
transpose-default zero fnum hb hf = ground arith
transpose-default (suc zero) fnum hb hf = ground arith
transpose-default (suc (suc zero)) fnum hb hf = ground arith
transpose-default (suc (suc (suc zero))) fnum hb hf = ground arith
transpose-default (suc (suc (suc (suc zero)))) fnum hb hf = ground arith
transpose-default (suc (suc (suc (suc (suc zero))))) fnum hb hf = ground arith
transpose-default (suc (suc (suc (suc (suc (suc zero)))))) fnum hb hf = ground arith
transpose-default (suc (suc (suc (suc (suc (suc (suc zero))))))) fnum hb hf = ground arith
transpose-default (suc (suc (suc (suc (suc (suc (suc (suc block)))))))) fnum hb hf =
    absurd (omega arith)
