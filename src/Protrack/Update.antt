-- ===== src/Protrack/Update.antt =====
-- src/protrack.cpp: `CmodPlayer::update`, the order list, and `rewind`.
pub mod Orders
pub mod Safe
use adplug.Base.{ℕ, zero, suc, ◌+◌, ◌-◌, ◌*◌, ◌/◌, ◌%◌, ◌^◌, bit_and, bit_or, List, [], ◌∷◌}
use adplug.Base.{get_elem?, Bool, true, false, not, ◌||◌, ◌==◌, ltb, leb, if◌then◌else◌}
use adplug.Base.{Outcome, ok, stuck, ◌>>=◌, deref, map}
use adplug.Base.Opl.{Opl, write, setchip, init}
use adplug.Protrack.{Channel, Mod, write_reg}
use adplug.Protrack.Timer.{timer_effects}
use adplug.Protrack.Row.{Row, play_channels}

pub jump : ℕ → Mod → Mod
jump neword p = record p { songend = if leb neword p.ord then true else p.songend; ord = neword }

-- The loop of `resolve_order`. Jumps that lead to one another have no end, so the fuel is an argument.
pub jumps : ℕ → Mod → Outcome (Bool × Mod)
jumps zero p = stuck
jumps (suc fuel) p = do
  e ← deref (get_elem? p.order p.ord)
  let rest = jumps fuel (jump (e - 128) p)
  if ltb e 128
      then ok (true, p)
      else if e - 128 == p.ord
      then ok (false, jump (e - 128) p)
      else rest

pub resolve_order : ℕ → Mod → Outcome (Bool × Mod)
resolve_order fuel p =
    if ltb p.ord p.length
    then jumps fuel p
    else ok (true, record p { songend = true; ord = p.restartpos })

-- The speed compensation and the step to the next row.
pub next_row : Row → Mod
next_row r =
    let p = record r.player { del = (r.player.speed + 2 ^ 8 - 1 + r.pattern_delay) % 2 ^ 8 } in
    if r.pattbreak
    then p
    else if leb p.nrows (p.row + 1)
    then (record p { row = 0; ord = (p.ord + 1) % 2 ^ 64 })
    else (record p { row = p.row + 1 })

-- The row at the song's place, and the step behind it.
pub play_position : ℕ → Mod → Outcome (Bool × Mod)
play_position fuel p = do
  pattnr ← deref (get_elem? p.order p.ord)
  r ←
      play_channels p.nchans p.row pattnr 0
        (record { player = p; pattbreak = false; pattern_delay = 0 })
  (_, q) ← resolve_order fuel (next_row r)
  ok (not q.songend, q)

-- A tick that plays a row.
pub play_row : ℕ → Mod → Outcome (Bool × Mod)
play_row fuel p0 = do
  (found, p) ← resolve_order fuel p0
  if found then play_position fuel p else ok (not p.songend, p)

pub update : ℕ → Mod → Outcome (Bool × Mod)
update fuel p = if p.speed == 0 then ok (false, p) else (do
  p1 ← timer_effects p.nchans 0 p
  if p1.del == 0 then play_row fuel p1 else ok (not p1.songend, record p1 { del = p1.del - 1 }))

-- `memset` of a channel.
abbrev pub no_channel : Channel
no_channel = record {
  freq = 0;
  nextfreq = 0;
  oct = 0;
  vol1 = 0;
  vol2 = 0;
  inst = 0;
  fx = 0;
  info1 = 0;
  info2 = 0;
  key = false;
  nextoct = 0;
  note = 0;
  portainfo = 0;
  vibinfo1 = 0;
  vibinfo2 = 0;
  arppos = 0;
  arpspdcnt = 0;
  trigger = 0;
}

-- `for(i=0;i<length;i++) nop = (order[i] > nop ? order[i] : nop);`
pub count_patterns : ℕ → ℕ → List ℕ → ℕ → Outcome ℕ
count_patterns zero i order nop = ok nop
count_patterns (suc n) i order nop = do
  e ← deref (get_elem? order i)
  count_patterns n (i + 1) order (if ltb nop e then e else nop)

-- The reset of the chip, with the extensions of the OPL3 if the song has them.
pub reset_chip : Bool → Opl → Opl
reset_chip opl3 o =
    let o1 = write 1 32 ∷ init ∷ o in
    if opl3 then setchip 0 ∷ write 5 1 ∷ write 1 32 ∷ setchip 1 ∷ o1 else o1

pub rewind : Mod → Outcome Mod
rewind p = do
  nop ← if p.nop == 0 then count_patterns p.length 0 p.order 0 else ok p.nop
  let tremolo : ℕ = if bit_and p.flags 16 == 0 then 0 else 128
  let regbd = if bit_and p.flags 32 == 0 then tremolo else bit_or tremolo 64
  let p1 = record p {
    songend = false;
    del = 0;
    ord = 0;
    row = 0;
    regbd = regbd;
    tempo = p.bpm;
    speed = p.initspeed;
    channel = map (λ c. no_channel) p.channel;
    nop = nop;
    opl = reset_chip (not (bit_and p.flags 8 == 0)) p.opl;
  }
  ok (if regbd == 0 then p1 else write_reg 0xbd regbd p1)
