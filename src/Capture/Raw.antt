-- ===== src/Capture/Raw.antt =====
-- src/raw.cpp and src/raw.h: the player of captures in RDOS's format, pairs of a parameter and a
-- command.
mod Tests
pub mod Load
pub mod Playback
use adplug.Base.{ℕ, suc, ◌+◌, ◌-◌, ◌*◌, ◌%◌, ◌^◌, List, ◌∷◌, get_elem?, Bool, true, false, not}
use adplug.Base.{◌&&◌, ◌||◌, ◌==◌, leb, if◌then◌else◌, Outcome, ok, ◌>>=◌, deref}
use adplug.Base.Loops.{Round, return_with, next_round, rounds}
use adplug.Base.Opl.{Opl, write, setchip, init}
use adplug.Capture.Tags.{Tag}

pub record Item : Type 0 where
  pub param : ℕ
  pub command : ℕ

pub record Raw : Type 0 where
  pub opl : Opl
  pub song : List Item
  pub length : ℕ
  pub pos : ℕ
  pub clock : ℕ
  pub speed : ℕ
  pub del : ℕ
  pub songend : Bool
  pub tag : Tag

pub rewind : Raw → Raw
rewind p = record p {
  pos = 0;
  del = 0;
  speed = p.clock;
  songend = false;
  opl = write 1 32 ∷ init ∷ p.opl;
}

pub item_at : Raw → Outcome Item
item_at p = deref (get_elem? p.song p.pos)

-- `while (data[pos++].command || setspeed)`, and the return behind the loop.
pub end_round : Bool → Raw → Outcome (Round Bool Raw)
end_round setspeed p = do
  item ← item_at p
  let p' = record p { pos = (p.pos + 1) % 2 ^ 64 }
  ok (
      if not (item.command == 0) || setspeed
      then next_round p'
      else return_with (not p'.songend) p')

-- The speed stands in the item behind its command.
pub set_speed : Raw → Outcome (Round Bool Raw)
set_speed p =
    let p' = record p { pos = (p.pos + 1) % 2 ^ 64 } in
    if leb p'.length p'.pos then ok (return_with false p') else (do
      item ← item_at p'
      end_round true (record p' { speed = (item.param + item.command * 2 ^ 8) % 2 ^ 16 }))

-- `switch(data[pos].command)`
pub command : Item → Raw → Outcome (Round Bool Raw)
command item p =
    if item.command == 0
    then end_round false (record p { del = (item.param + 2 ^ 8 - 1) % 2 ^ 8 })
    else if item.command == 2
    then (if item.param == 0
        then set_speed p
        else end_round false (record p { opl = setchip (item.param - 1) ∷ p.opl }))
    else if item.command == 0xff
    then (if item.param == 0xff
        then ok (return_with false (record (rewind p) { songend = true }))
        else end_round false p)
    else end_round false (record p { opl = write item.command item.param ∷ p.opl })

-- One round of the `do` loop.
pub round : Raw → Outcome (Round Bool Raw)
round p =
    if leb p.length p.pos then ok (return_with false p) else (do item ← item_at p; command item p)

pub update : Raw → Outcome (Bool × Raw)
update p =
    if leb p.length p.pos
    then ok (false, p)
    else if not (p.del == 0)
    then ok (not p.songend, record p { del = p.del - 1 })
    else rounds (suc p.length) round p
