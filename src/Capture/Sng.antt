-- ===== src/Capture/Sng.antt =====
-- src/sng.cpp and src/sng.h: the player of SNG files, a list of register writes in which the register 0
-- is a pause.
mod Tests
pub mod Playback
use adplug.Base.{
  ℕ, zero, suc, ◌+◌, ◌-◌, ◌/◌, ◌%◌, ◌^◌, List, [], ◌∷◌, get_elem?, Option, none, some,
}
use adplug.Base.{Bool, true, false, not, ◌&&◌, ◌==◌, leb, if◌then◌else◌, Outcome, ok, ◌>>=◌, deref}
use adplug.Base.Loops.{Round, return_with, next_round, rounds}
use adplug.Base.Opl.{Opl, write, init}
use adplug.Base.Stream.{BinIo, same_bytes}
use adplug.Provider.{Provider}

pub record Event : Type 0 where
  pub val : ℕ
  pub reg : ℕ

pub record Header : Type 0 where
  pub length : ℕ
  pub start : ℕ
  pub loop : ℕ
  pub delay : ℕ
  pub compressed : Bool

pub record Sng : Type 0 where
  pub opl : Opl
  pub header : Header
  pub events : List Event
  pub del : ℕ
  pub pos : ℕ
  pub songend : Bool

pub rewind : Sng → Sng
rewind p = record p {
  pos = p.header.start;
  del = p.header.delay;
  songend = false;
  opl = write 1 32 ∷ init ∷ p.opl;
}

-- `pos++`, and back to the loop's start from the end.
pub advance : Sng → Sng
advance p =
    let next = (p.pos + 1) % 2 ^ 16 in
    if leb p.header.length next
    then (record p { pos = p.header.loop; songend = true })
    else (record p { pos = next })

abbrev pub event_at : Sng → Outcome Event
event_at p = deref (get_elem? p.events p.pos)

-- One round of `while(data[pos].reg)`.
pub round : Sng → Outcome (Round (Unit {0}) Sng)
round p = do
  e ← event_at p
  ok (
      if e.reg == 0
      then return_with tt p
      else next_round (advance (record p { opl = write e.reg e.val ∷ p.opl })))

-- Behind the loop, at a pause.
pub pause : Event → Sng → Bool × Sng
pause e p =
    let p1 = if p.header.compressed then p else (record p { opl = write e.reg e.val ∷ p.opl }) in
    let p2 = if e.val == 0 then p1 else (record p1 { del = e.val - 1 }) in
    let p3 = advance p2 in (not p3.songend, p3)

-- The song's end is no end of the loop: a song without a pause has none, so that the fuel is an argument.
pub update : ℕ → Sng → Outcome (Bool × Sng)
update fuel p =
    if p.header.compressed && not (p.del == 0)
    then ok (not p.songend, record p { del = p.del - 1 })
    else (do (_, q) ← rounds fuel round p; e ← event_at q; ok (pause e q))

abbrev pub sng_id : List ℕ
sng_id = b'O' ∷ b'b' ∷ b's' ∷ b'M' ∷ []

module _ (io : BinIo) where
  pub read_events : ℕ → io.Stream → List Event × io.Stream
  read_events zero f = ([], f)
  read_events (suc n) f =
      let (val, f1) = io.read_int 1 f in
      let (reg, f2) = io.read_int 1 f1 in
      let (rest, f3) = read_events n f2 in
      (record { val = val % 2 ^ 8; reg = reg % 2 ^ 8 } ∷ rest, f3)

  -- The lengths of the file are in bytes, and those of the player in events.
  pub read_header : io.Stream → Header × io.Stream
  read_header f =
      let (length, f1) = io.read_int 2 f in
      let (start, f2) = io.read_int 2 f1 in
      let (loop, f3) = io.read_int 2 f2 in
      let (delay, f4) = io.read_int 1 f3 in
      let (compressed, f5) = io.read_int 1 f4 in
      (
        record {
          length = length % 2 ^ 16 / 2;
          start = start % 2 ^ 16 / 2;
          loop = loop % 2 ^ 16 / 2;
          delay = delay % 2 ^ 8;
          compressed = not (compressed == 0);
        },
        f5,
      )

  pub load : Provider io → List ℕ → Opl → Option Sng
  load fp filename opl = elim (fp.open_file filename) [
    | none ↦ none
    | some f ↦
        let (id, f1) = io.read_buffer 4 f in
        let (header, f2) = read_header f1 in
        if not (same_bytes id sng_id)
        then none
        else some (
            rewind (record {
              opl = opl;
              header = header;
              events = (read_events header.length f2).0;
              del = 0;
              pos = 0;
              songend = false;
            }))
  ]
