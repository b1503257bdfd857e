-- ===== src/Capture/Got.antt =====
-- src/got.cpp and src/got.h: the player of God of Thunder's music, a list of register writes with
-- delays. There are no floats: `rate` is its number, and `timer`, which is `rate` or
-- `rate / (float)del`, is the pair of `rate` and the divisor.
mod Tests
pub mod Load
pub mod Playback
pub mod Length
use adplug.Base.{ℕ, suc, ◌+◌, ◌%◌, ◌^◌, List, ◌∷◌, get_elem?, Bool, true, false, not, ◌&&◌}
use adplug.Base.{◌==◌, ltb, leb, if◌then◌else◌, Outcome, ok, ◌>>=◌, deref}
use adplug.Base.Loops.{Round, return_with, next_round, rounds}
use adplug.Base.Opl.{Opl, write, init}

pub record Event : Type 0 where
  pub time : ℕ
  pub reg : ℕ
  pub val : ℕ

pub record Got : Type 0 where
  pub opl : Opl
  pub events : List Event
  pub size : ℕ
  pub pos : ℕ
  pub del : ℕ
  pub songend : Bool
  pub rate : ℕ
  pub timer : ℕ × ℕ

-- Behind the loop of `update`.
pub end_update : Got → Bool × Got
end_update p =
    let p' =
      if leb p.size p.pos
      then (record p { pos = 0; songend = true })
      else (record p { timer = (p.rate, p.del) }) in
    (not p'.songend, p')

pub play_event : Event → Got → Got
play_event e p = record p {
  del = e.time;
  opl = write e.reg e.val ∷ p.opl;
  pos = (p.pos + 1) % 2 ^ 64;
}

-- One round of `do { … } while (!del && pos < size)`, and the rest of `update` behind the last one.
pub round : Got → Outcome (Round Bool Got)
round p = do
  e ← deref (get_elem? p.events p.pos)
  let p' = play_event e p
  let (more, q) = end_update p'
  ok (if p'.del == 0 && ltb p'.pos p'.size then next_round p' else return_with more q)

pub update : Got → Outcome (Bool × Got)
update p = rounds (suc p.size) round p

pub rewind : Got → Got
rewind p = record p {
  pos = 0;
  del = 0;
  timer = (p.rate, 1);
  songend = false;
  opl = write 1 32 ∷ init ∷ p.opl;
}
