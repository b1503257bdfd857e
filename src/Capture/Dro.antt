-- ===== src/Capture/Dro.antt =====
-- src/dro.cpp and src/dro.h: the player of versions 0 and 1 of DOSBox's raw captures.
mod Tests
pub mod Load
pub mod Playback
pub mod Reset
use adplug.Base.{
  ℕ, zero, suc, ◌+◌, ◌-◌, ◌*◌, ◌%◌, ◌^◌, bit_or, List, ◌∷◌, get_elem?, Bool, true, false,
}
use adplug.Base.{◌||◌, ◌==◌, ltb, leb, if◌then◌else◌, Outcome, ok, ◌>>=◌, deref}
use adplug.Base.Loops.{Round, return_with, next_round, rounds}
use adplug.Base.Opl.{Opl, write, setchip, init}
use adplug.Capture.Tags.{Tag}

pub data Version : Type 0 where
  dro_v0 : Version
  dro_v1 : ℕ → ℕ → Version

pub record Dro : Type 0 where
  pub opl : Opl
  pub song : List ℕ
  pub length : ℕ
  pub pos : ℕ
  pub delay : ℕ
  pub data_offset : ℕ
  pub version : Version
  pub tag : Tag

-- `data[iPos]`, and `iPos` after `iPos++`.
pub byte_at : Dro → ℕ → Outcome ℕ
byte_at p i = deref (get_elem? p.song i)

abbrev pub after : Dro → ℕ
after p = (p.pos + 1) % 2 ^ 32

-- The commands, behind their code. Each returns false where the song ends inside of it.
pub short_delay : Dro → Outcome (Round Bool Dro)
short_delay p = if leb p.length p.pos then ok (return_with false p) else (do
  value ← byte_at p p.pos
  ok (return_with true (record p { pos = after p; delay = value + 1 })))

pub long_delay : Dro → Outcome (Round Bool Dro)
long_delay p = if leb p.length (after p) then ok (return_with false p) else (do
  low ← byte_at p p.pos
  high ← byte_at p (after p)
  ok (
      return_with true
        (record p { pos = (p.pos + 2) % 2 ^ 32; delay = bit_or low (high * 2 ^ 8) + 1 })))

pub write_value : ℕ → Dro → Outcome (Round Bool Dro)
write_value index p = do
  value ← byte_at p p.pos
  ok (next_round (record p { pos = after p; opl = write index value ∷ p.opl }))

-- A normal write; the code 4 stands before a register that has the number of a command.
pub normal_write : ℕ → Dro → Outcome (Round Bool Dro)
normal_write index p =
    if index == 0x04
    then (if leb p.length (after p)
        then ok (return_with false p)
        else (do index' ← byte_at p p.pos; write_value index' (record p { pos = after p })))
    else (if leb p.length p.pos then ok (return_with false p) else write_value index p)

pub command : ℕ → Dro → Outcome (Round Bool Dro)
command index p =
    if index == 0x00
    then short_delay p
    else if index == 0x01
    then long_delay p
    else if index == 0x02 || index == 0x03
    then ok (next_round (record p { opl = setchip (index - 0x02) ∷ p.opl }))
    else normal_write index p

-- One round of `while (iPos < iLength)`. The return behind the loop is that of false.
pub round : Dro → Outcome (Round Bool Dro)
round p = elim (ltb p.pos p.length) [
  | true ↦ do index ← byte_at p p.pos; command index (record p { pos = after p })
  | false ↦ ok (return_with (ltb p.pos p.length) p)
]

pub update : Dro → Outcome (Bool × Dro)
update p = rounds (suc p.length) round p

-- `for(i = 0; i < 256; i++) opl->write(i, 0);`, from `i` with `n` to go.
pub clear_registers : ℕ → ℕ → Opl → Opl
clear_registers zero i o = o
clear_registers (suc n) i o = clear_registers n (i + 1) (write i 0 ∷ o)

pub rewind : Dro → Dro
rewind p = record p {
  delay = 0;
  pos = 0;
  opl =
      setchip 0
      ∷ clear_registers 256 0 (setchip 1 ∷ clear_registers 256 0 (setchip 0 ∷ init ∷ p.opl));
}
