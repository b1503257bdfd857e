-- ===== src/Bam/Straight.antt =====
-- src/bam.cpp: songs without jumps, what they mean, and reading their bytes.
pub mod Carries
use adplug.Base.{
  ℕ, zero, suc, ◌+◌, ◌-◌, ◌*◌, ◌/◌, ◌%◌, ◌^◌, ◌≤◌, ◌<◌, ◌≡◌, refl, sym, ap, ◌∙◌, arith,
}
use adplug.Base.{
  bit_and, List, [], ◌∷◌, ◌++◌, length, get_elem?, drop, set, All, Option, none, some,
}
use adplug.Base.{Bool, true, false, not, ◌==◌, ltb, leb, Bool-cases, inl, inr, if◌then◌else◌}
use adplug.Base.{get_elem?-drop, drop-drop, drop-append, length-drop, length-append, length-set}
use adplug.Base.{
  get_elem?-of_le, lt-of_get_elem?, get_elem?-of_lt, Outcome, ok, ◌>>=◌, Returns, Returns-map,
}
use adplug.Base.Bits.{bit_and-15, bit_and-240, bit_and-255}
use adplug.Base.Loops.{next_round, return_with, rounds}
use adplug.Base.Opl.{Opl, write}
use adplug.Player.{op_table}
use adplug.Bam.{Bam, Label, freq, byte_at, skip, start_note, stop_note, write_regs, instrument_regs}
use adplug.Bam.{define_instrument, set_label, command, wait, round, update}

-- The commands that go straight on: `note` is a note and its frequency, `reserved` a code without a
-- meaning.
pub data Straight : Type 0 where
  note : ℕ → ℕ → ℕ → Straight
  stop : ℕ → Straight
  instrument : ℕ → List ℕ → Straight
  mark : ℕ → Straight
  reserved : ℕ → Straight

abbrev pub code : Straight → List ℕ
code (note c n f) = (16 + c) ∷ n ∷ []
code (stop c) = (32 + c) ∷ []
code (instrument c vals) = (48 + c) ∷ vals
code (mark c) = (80 + c) ∷ []
code (reserved c) = (64 + c) ∷ []

abbrev pub codes : List Straight → List ℕ
codes [] = []
codes (s ∷ ss) = code s ++ codes ss

abbrev pub IsStraight : Straight → Type 0
IsStraight (note c n f) = (c < 16) × (get_elem? freq n ≡ some f)
IsStraight (stop c) = c < 16
IsStraight (instrument c vals) = (c < 16) × (length vals ≡ 11)
IsStraight (mark c) = c < 16
IsStraight (reserved c) = c < 16

abbrev pub write_all : List ℕ → List ℕ → Opl → Opl
write_all [] vals o = o
write_all (reg ∷ regs) [] o = o
write_all (reg ∷ regs) (val ∷ vals) o = write_all regs vals (write reg val ∷ o)

abbrev pub set_up : Option ℕ → ℕ → List ℕ → Opl → Opl
set_up none c vals o = o
set_up (some op) c vals o = write_all (instrument_regs op c) vals o

-- What the commands do to the chip, which has nine channels.
abbrev pub sound : Straight → Opl → Opl
sound (note c n f) o =
    if ltb c 9 then write (0xb0 + c) (f / 256 + 32) ∷ write (0xa0 + c) (f % 256) ∷ o else o
sound (stop c) o = if ltb c 9 then write (0xb0 + c) 0 ∷ o else o
sound (instrument c vals) o = set_up (get_elem? op_table c) c vals o
sound (mark c) o = o
sound (reserved c) o = o

abbrev pub sounds : List Straight → Opl → Opl
sounds [] o = o
sounds (s ∷ ss) o = sounds ss (sound s o)

-- The position is before the bytes `ahead`.
pub record IsBefore (ahead song : List ℕ) (label : List Label) (pos : ℕ) : Type 0 where
  pub here : drop pos song ≡ ahead
  pub short : length song < 2 ^ 63
  pub labels : length label ≡ 16

abbrev pub Before : List ℕ → Bam → Type 0
Before ahead p = IsBefore ahead p.song p.label p.pos

pub byte_at-ok :
    (ahead : List ℕ) (p : Bam) (i b : ℕ)
    → Before ahead p
    → get_elem? ahead i ≡ some b
    → byte_at p i ≡ ok b
unfolding byte_at
byte_at-ok ahead p i b h e =
    let there : get_elem? p.song (p.pos + i) ≡ some b =
      sym (get_elem?-drop p.pos i p.song) ∙ ap (λ xs. get_elem? xs i) h.here ∙ e in
    let inside = lt-of_get_elem? p.song (p.pos + i) b there in
    let same : (p.pos + i) % 2 ^ 64 ≡ p.pos + i = omega (arith, h.short, inside) in rw (same, there)

-- Past the bytes `xs`.
pub skip-Before :
    (xs tail : List ℕ) (p : Bam)
    → Before (xs ++ tail) p
    → 0 < length xs
    → ((p.pos + length xs) % 2 ^ 64 ≡ p.pos + length xs) × Before tail (skip (length xs) p)
unfolding skip
skip-Before xs tail p h some_byte =
    let ahead : length (drop p.pos p.song) ≡ length xs + length tail =
      ap length h.here ∙ length-append xs tail in
    let room = length-drop p.pos p.song (omega (arith, ahead)) in
    let up : (p.pos + length xs) % 2 ^ 64 ≡ p.pos + length xs =
      omega (arith, h.short, room, ahead) in
    let rest : drop (p.pos + length xs) p.song ≡ tail =
      sym (drop-drop p.pos (length xs) p.song)
      ∙ ap (drop (length xs)) h.here
      ∙ drop-append xs tail in
    (up, record { here = rw up rest; short = h.short; labels = h.labels })
