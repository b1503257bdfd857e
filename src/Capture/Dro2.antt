-- ===== src/Capture/Dro2.antt =====
-- src/dro2.cpp and src/dro2.h: the player of version 2 of DOSBox's raw captures, pairs of a code and
-- a value.
mod Tests
pub mod Load
pub mod Playback
use adplug.Base.{ℕ, suc, ◌+◌, ◌*◌, ◌%◌, ◌^◌, bit_and, List, ◌∷◌, get_elem?, Bool, true, false}
use adplug.Base.{◌==◌, ltb, if◌then◌else◌, Outcome, ok, ◌>>=◌, deref}
use adplug.Base.Loops.{Round, return_with, next_round, rounds}
use adplug.Base.Opl.{Opl, write, setchip, init}
use adplug.Capture.Tags.{Tag}

pub record Dro2 : Type 0 where
  pub opl : Opl
  pub cmd_delay_s : ℕ
  pub cmd_delay_l : ℕ
  pub conv_table_len : ℕ
  pub conv_table : List ℕ
  pub song : List ℕ
  pub length : ℕ
  pub pos : ℕ
  pub delay : ℕ
  pub tag : Tag

-- A normal write. A code beyond the table ends the song.
pub normal_write : ℕ → ℕ → Dro2 → Outcome (Round Bool Dro2)
normal_write index value p =
    let chip = if bit_and index 0x80 == 0 then 0 else 1 in
    let index' = if bit_and index 0x80 == 0 then index else bit_and index 0x7f in
    let p' = record p { opl = setchip chip ∷ p.opl } in
    elim (ltb index' p.conv_table_len) [
      | false ↦ ok (return_with false p')
      | true ↦ do
        reg ← deref (get_elem? p.conv_table index')
        ok (next_round (record p' { opl = write reg value ∷ p'.opl }))
    ]

pub command : ℕ → ℕ → Dro2 → Outcome (Round Bool Dro2)
command index value p =
    if index == p.cmd_delay_s
    then ok (return_with true (record p { delay = value + 1 }))
    else if index == p.cmd_delay_l
    then ok (return_with true (record p { delay = (value + 1) * 2 ^ 8 }))
    else normal_write index value p

-- One round of `while (iPos < iLength)`: `iPos++` twice, and the command. The return behind the loop
-- is that of false.
pub round : Dro2 → Outcome (Round Bool Dro2)
round p = elim (ltb p.pos p.length) [
  | true ↦ do
    index ← deref (get_elem? p.song p.pos)
    value ← deref (get_elem? p.song ((p.pos + 1) % 2 ^ 32))
    command index value (record p { pos = (p.pos + 2) % 2 ^ 32 })
  | false ↦ ok (return_with (ltb p.pos p.length) p)
]

-- Each round but the last moves the position on.
pub update : Dro2 → Outcome (Bool × Dro2)
update p = rounds (suc p.length) round p

pub rewind : Dro2 → Dro2
rewind p = record p { delay = 0; pos = 0; opl = init ∷ p.opl }
