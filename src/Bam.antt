-- ===== src/Bam.antt =====
-- src/bam.cpp and src/bam.h: the player of Bob's AdLib Music, a byte code of notes, instruments,
-- labels, jumps and waits.
mod Tests
pub mod Load
pub mod Playback
pub mod Straight
pub mod Broken
use adplug.Base.{ℕ, suc, ◌+◌, ◌-◌, ◌/◌, ◌%◌, ◌^◌, bit_and, List, [], ◌∷◌, get_elem?, set, replicate}
use adplug.Base.{Bool, true, false, not, ◌==◌, ltb, leb, if◌then◌else◌, Outcome, ok, ◌>>=◌, deref}
use adplug.Base.Loops.{Round, return_with, next_round, rounds}
use adplug.Base.Opl.{Opl, write, init}
use adplug.Player.{op_table}

pub record Label : Type 0 where
  pub target : ℕ
  pub defined : Bool
  pub count : ℕ

pub record Bam : Type 0 where
  pub opl : Opl
  pub song : List ℕ
  pub del : ℕ
  pub pos : ℕ
  pub size : ℕ
  pub gosub : ℕ
  pub songend : Bool
  pub chorus : Bool
  pub label : List Label

abbrev pub freq : List ℕ
freq =
    172 ∷ 182 ∷ 193 ∷ 205 ∷ 217 ∷ 230 ∷ 243 ∷ 258 ∷ 274 ∷ 290 ∷ 307 ∷ 326 ∷ 345 ∷ 365 ∷ 387 ∷ 410
    ∷ 435 ∷ 460 ∷ 489 ∷ 517 ∷ 547 ∷ 580 ∷ 614 ∷ 651 ∷ 1369 ∷ 1389 ∷ 1411 ∷ 1434 ∷ 1459 ∷ 1484 ∷ 1513
    ∷ 1541 ∷ 1571 ∷ 1604 ∷ 1638 ∷ 1675 ∷ 2393 ∷ 2413 ∷ 2435 ∷ 2458 ∷ 2483 ∷ 2508 ∷ 2537 ∷ 2565
    ∷ 2595 ∷ 2628 ∷ 2662 ∷ 2699 ∷ 3417 ∷ 3437 ∷ 3459 ∷ 3482 ∷ 3507 ∷ 3532 ∷ 3561 ∷ 3589 ∷ 3619
    ∷ 3652 ∷ 3686 ∷ 3723 ∷ 4441 ∷ 4461 ∷ 4483 ∷ 4506 ∷ 4531 ∷ 4556 ∷ 4585 ∷ 4613 ∷ 4643 ∷ 4676
    ∷ 4710 ∷ 4747 ∷ 5465 ∷ 5485 ∷ 5507 ∷ 5530 ∷ 5555 ∷ 5580 ∷ 5609 ∷ 5637 ∷ 5667 ∷ 5700 ∷ 5734
    ∷ 5771 ∷ 6489 ∷ 6509 ∷ 6531 ∷ 6554 ∷ 6579 ∷ 6604 ∷ 6633 ∷ 6661 ∷ 6691 ∷ 6724 ∷ 6758 ∷ 6795
    ∷ 7513 ∷ 7533 ∷ 7555 ∷ 7578 ∷ 7603 ∷ 7628 ∷ 7657 ∷ 7685 ∷ 7715 ∷ 7748 ∷ 7782 ∷ 7819 ∷ 7858
    ∷ 7898 ∷ 7942 ∷ 7988 ∷ 8037 ∷ 8089 ∷ 8143 ∷ 8191 ∷ 8191 ∷ 8191 ∷ 8191 ∷ 8191 ∷ 8191 ∷ 8191
    ∷ 8191 ∷ 8191 ∷ 8191 ∷ 8191 ∷ 8191 ∷ []

abbrev pub unset : Label
unset = record { target = 0; defined = false; count = 255 }

pub rewind : Bam → Bam
rewind p = record p {
  pos = 0;
  songend = false;
  del = 0;
  gosub = 0;
  chorus = false;
  label = record unset { defined = true } ∷ replicate 15 unset;
  opl = write 1 32 ∷ init ∷ p.opl;
}

-- `song[pos + i]`, and `pos += n`.
pub byte_at : Bam → ℕ → Outcome ℕ
byte_at p i = deref (get_elem? p.song ((p.pos + i) % 2 ^ 64))

pub skip : ℕ → Bam → Bam
skip n p = record p { pos = (p.pos + n) % 2 ^ 64 }

pub start_note : ℕ → Bam → Outcome Bam
start_note c p =
    if ltb c 9
    then (do
      note ← byte_at p 1
      f ← deref (get_elem? freq note)
      ok (
          skip 2 (record p {
            opl = write (0xb0 + c) (f / 2 ^ 8 + 32) ∷ write (0xa0 + c) (bit_and f 255) ∷ p.opl;
          })))
    else ok (skip 2 p)

pub stop_note : ℕ → Bam → Bam
stop_note c p = skip 1 (if ltb c 9 then (record p { opl = write (0xb0 + c) 0 ∷ p.opl }) else p)

-- `opl->write(reg, song[pos + i])` for a list of registers, with `i` counting up.
pub write_regs : List ℕ → ℕ → Bam → Outcome Bam
write_regs [] i p = ok p
write_regs (reg ∷ regs) i p = do
  val ← byte_at p i
  write_regs regs (suc i) (record p { opl = write reg val ∷ p.opl })

-- The registers of a channel's instrument in the order of its bytes.
abbrev pub instrument_regs : ℕ → ℕ → List ℕ
instrument_regs op c =
    (0x20 + op)
    ∷ (0x23 + op)
    ∷ (0x40 + op)
    ∷ (0x43 + op)
    ∷ (0x60 + op)
    ∷ (0x63 + op)
    ∷ (0x80 + op)
    ∷ (0x83 + op)
    ∷ (0xe0 + op)
    ∷ (0xe3 + op)
    ∷ (0xc0 + c)
    ∷ []

pub define_instrument : ℕ → Bam → Outcome Bam
define_instrument c p =
    if ltb c 9
    then (do
      op ← deref (get_elem? op_table c)
      p' ← write_regs (instrument_regs op c) 1 p
      ok (skip 12 p'))
    else ok (skip 12 p)

pub set_label : ℕ → Bam → Outcome Bam
set_label c p = do
  l ← deref (get_elem? p.label c)
  let p' = skip 1 p
  ok (record p' { label = set p.label c (record l { target = p'.pos; defined = true }) })

-- A finite loop: its count is 255 while it is undefined.
pub finite_loop : ℕ → ℕ → Label → Bam → Bam
finite_loop times c l p =
    if l.count == 0
    then (skip 2 (record p { label = set p.label c (record l { count = 255 }) }))
    else (record p {
      label = set p.label c (record l {
        count = if ltb l.count 255 then l.count - 1 else (times + 2 ^ 8 - 1) % 2 ^ 8;
      });
      pos = l.target;
    })

-- `switch(song[pos+1])` of a jump to a label that is defined.
pub jump_as : ℕ → ℕ → Label → Bam → Bam
jump_as how c l p =
    if how == 254
    then (record p { pos = l.target; songend = true })
    else if how == 255
    then (if not p.chorus
        then (record p { chorus = true; gosub = (p.pos + 2) % 2 ^ 64; pos = l.target })
        else skip 2 p)
    else if how == 0
    then skip 2 p
    else finite_loop how c l p

-- A jump to a label that is not defined does nothing; it does not even skip the command.
pub jump : ℕ → Bam → Outcome Bam
jump c p = do
  l ← deref (get_elem? p.label c)
  if l.defined then (do how ← byte_at p 1; ok (jump_as how c l p)) else ok p

pub end_chorus : Bam → Bam
end_chorus p = if p.chorus then (record p { pos = p.gosub; chorus = false }) else skip 1 p

-- `switch(cmd)`
pub command : ℕ → ℕ → Bam → Outcome Bam
command cmd c p =
    if cmd == 0
    then ok (record p { pos = 0; songend = true })
    else if cmd == 16
    then start_note c p
    else if cmd == 32
    then ok (stop_note c p)
    else if cmd == 48
    then define_instrument c p
    else if cmd == 80
    then set_label c p
    else if cmd == 96
    then jump c p
    else if cmd == 112
    then ok (end_chorus p)
    else ok (skip 1 p)

-- A byte of 128 or more ends the loop and is a wait.
pub wait : ℕ → Bam → Round Bool Bam
wait code p = return_with (not p.songend) (skip 1 (record p { del = code - 127 }))

-- One round of `while(song[pos] < 128)`, and the rest of `update` behind the last one.
pub round : Bam → Outcome (Round Bool Bam)
round p = do
  code ← byte_at p 0
  if ltb code 128
      then (do p' ← command (bit_and code 240) (bit_and code 15) p; ok (next_round p'))
      else ok (wait code p)

-- Not every song lets the loop end, so that the fuel is an argument.
pub update : ℕ → Bam → Outcome (Bool × Bam)
update fuel p =
    if not (p.del == 0)
    then ok (not p.songend, record p { del = p.del - 1 })
    else if leb p.size p.pos
    then rounds fuel round (record p { pos = 0; songend = true })
    else rounds fuel round p
