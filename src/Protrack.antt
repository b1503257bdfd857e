-- ===== src/Protrack.antt =====
-- src/protrack.cpp and src/protrack.h: `CmodPlayer`, the player that the module formats share. This
-- module has its state and the operations on a single channel. An array is a list of the size that it
-- has in the source, and an access outside of it is a fault; `data`, which is indexed by constants
-- only, has a field for each byte. `row` is the member `rw`. The log is left out.
mod Tests
pub mod Timer
pub mod Row
pub mod Update
pub mod Patterns
pub mod Slides
pub mod Safety
use adplug.Base.{ℕ, ◌+◌, ◌-◌, ◌*◌, ◌/◌, ◌%◌, ◌^◌, bit_and, bit_or, List, [], ◌∷◌, Option}
use adplug.Base.{get_elem?, set, Bool, true, false, not, ◌&&◌, ◌==◌, ltb, leb, if◌then◌else◌}
use adplug.Base.{Outcome, ok, ◌>>=◌, deref}
use adplug.Base.Opl.{Opl, write, setchip}
use adplug.Player.{op_table}

pub record Instrument : Type 0 where
  pub data0 : ℕ
  pub data1 : ℕ
  pub data2 : ℕ
  pub data3 : ℕ
  pub data4 : ℕ
  pub data5 : ℕ
  pub data6 : ℕ
  pub data7 : ℕ
  pub data8 : ℕ
  pub data9 : ℕ
  pub data10 : ℕ
  pub arpstart : ℕ
  pub arpspeed : ℕ
  pub misc : ℕ
  -- A signed char, kept as its byte.
  pub slide : ℕ

pub record Tracks : Type 0 where
  pub note : ℕ
  pub command : ℕ
  pub inst : ℕ
  pub param2 : ℕ
  pub param1 : ℕ

pub record Channel : Type 0 where
  pub freq : ℕ
  pub nextfreq : ℕ
  pub oct : ℕ
  pub vol1 : ℕ
  pub vol2 : ℕ
  pub inst : ℕ
  pub fx : ℕ
  pub info1 : ℕ
  pub info2 : ℕ
  pub key : Bool
  pub nextoct : ℕ
  pub note : ℕ
  pub portainfo : ℕ
  pub vibinfo1 : ℕ
  pub vibinfo2 : ℕ
  pub arppos : ℕ
  pub arpspdcnt : ℕ
  -- A signed char that is never negative.
  pub trigger : ℕ

pub record Mod : Type 0 where
  pub opl : Opl
  pub inst : List Instrument
  pub tracks : List (List Tracks)
  pub order : List ℕ
  pub arplist : Option (List ℕ)
  pub arpcmd : Option (List ℕ)
  pub initspeed : ℕ
  pub tempo : ℕ
  pub trackord : List (List ℕ)
  pub bpm : ℕ
  pub nop : ℕ
  pub length : ℕ
  pub restartpos : ℕ
  pub activechan : ℕ
  pub flags : ℕ
  pub curchip : ℕ
  pub channel : List Channel
  pub speed : ℕ
  pub del : ℕ
  pub songend : Bool
  pub regbd : ℕ
  pub notetable : List ℕ
  pub row : ℕ
  pub ord : ℕ
  pub nrows : ℕ
  pub npats : ℕ
  pub nchans : ℕ

-- `flags & Decimal` and so on.
pub is_decimal : Mod → Bool
is_decimal p = not (bit_and p.flags 1 == 0)

pub is_faust : Mod → Bool
is_faust p = not (bit_and p.flags 2 == 0)

pub no_key_on : Mod → Bool
no_key_on p = not (bit_and p.flags 4 == 0)

abbrev pub write_reg : ℕ → ℕ → Mod → Mod
write_reg reg val p = record p { opl = write reg val ∷ p.opl }

pub channel_at : Mod → ℕ → Outcome Channel
channel_at p chan = deref (get_elem? p.channel chan)

pub inst_at : Mod → ℕ → Outcome Instrument
inst_at p i = deref (get_elem? p.inst i)

abbrev pub set_channel : ℕ → Channel → Mod → Mod
set_channel chan c p = record p { channel = set p.channel chan c }

-- A change of a channel, also one that depends on its instrument.
pub modify : ℕ → (Channel → Channel) → Mod → Outcome Mod
modify chan f p = do c ← channel_at p chan; ok (set_channel chan (f c) p)

pub modify_by : ℕ → (Instrument → Channel → Channel) → Mod → Outcome Mod
modify_by chan f p = do c ← channel_at p chan; i ← inst_at p c.inst; ok (set_channel chan (f i c) p)

-- `set_opl_chip` and the channel of the chip.
abbrev pub opl_channel : ℕ → ℕ
opl_channel chan = chan % 9

pub set_opl_chip : ℕ → Mod → Mod
set_opl_chip chan p =
    let newchip : ℕ = if ltb chan 9 then 0 else 1 in
    if newchip == p.curchip
    then p
    else (record p { opl = setchip newchip ∷ p.opl; curchip = newchip })

abbrev pub op_at : ℕ → Outcome ℕ
op_at chan = deref (get_elem? op_table (opl_channel chan))

-- `63 - vol + (data & 192)` on an `int`.
pub level : ℕ → ℕ → ℕ
level vol scaling = (63 + 2 ^ 32 - vol + bit_and scaling 192) % 2 ^ 32

-- `((63 - (vol & 63) + (data & 63)) >> 1) + (data & 192)`
pub level_alt : ℕ → ℕ → ℕ
level_alt vol scaling = (63 - bit_and vol 63 + bit_and scaling 63) / 2 + bit_and scaling 192

pub setvolume_alt : ℕ → Mod → Outcome Mod
setvolume_alt chan p0 = do
  let p = set_opl_chip chan p0
  c ← channel_at p chan
  i ← inst_at p c.inst
  op ← op_at chan
  ok (
      write_reg (0x43 + op) (level_alt c.vol1 i.data10)
        (write_reg (0x40 + op) (level_alt c.vol2 i.data9) p))

pub setvolume : ℕ → Mod → Outcome Mod
setvolume chan p0 =
    let p = set_opl_chip chan p0 in
    if is_faust p then setvolume_alt chan p else (do
      c ← channel_at p chan
      i ← inst_at p c.inst
      op ← op_at chan
      ok (
          write_reg (0x43 + op) (level c.vol1 i.data10)
            (write_reg (0x40 + op) (level c.vol2 i.data9) p)))

pub setfreq : ℕ → Mod → Outcome Mod
setfreq chan p0 = do
  let p = set_opl_chip chan p0
  c ← channel_at p chan
  let high = bit_and c.freq 768 / 2 ^ 8 + c.oct * 4
  ok (
      write_reg (0xb0 + opl_channel chan) (if c.key then bit_or high 32 else high)
        (write_reg (0xa0 + opl_channel chan) (bit_and c.freq 255) p))

-- The instrument's registers, the last one first.
pub instrument_writes : ℕ → ℕ → Instrument → Opl → Opl
instrument_writes oplchan op i o =
    write 0xbd i.misc
    ∷ write (0xc0 + oplchan) i.data0
    ∷ write (0xe3 + op) i.data8
    ∷ write (0xe0 + op) i.data7
    ∷ write (0x83 + op) i.data6
    ∷ write (0x80 + op) i.data5
    ∷ write (0x63 + op) i.data4
    ∷ write (0x60 + op) i.data3
    ∷ write (0x23 + op) i.data2
    ∷ write (0x20 + op) i.data1
    ∷ o

pub playnote : ℕ → Mod → Outcome Mod
playnote chan p0 = do
  let p = set_opl_chip chan p0
  op ← op_at chan
  c ← channel_at p chan
  let p1 = if no_key_on p then p else write_reg (0xb0 + opl_channel chan) 0 p
  i ← inst_at p1 c.inst
  let p2 = record p1 { opl = instrument_writes (opl_channel chan) op i p1.opl }
  p3 ← modify chan (λ c. record c { key = true }) p2
  p4 ← setfreq chan p3
  p5 ← if is_faust p4 then modify chan (λ c. record c { vol1 = 63; vol2 = 63 }) p4 else ok p4
  setvolume chan p5

-- The key off is the note 127.
pub clip_note : ℕ → ℕ
clip_note note = if ltb 96 note then 96 else if ltb note 1 then 1 else note

pub setnote : ℕ → ℕ → Mod → Outcome Mod
setnote chan note p =
    if note == 127
    then (do p1 ← modify chan (λ c. record c { key = false }) p; setfreq chan p1)
    else (do
      f ← deref (get_elem? p.notetable ((clip_note note - 1) % 12))
      modify_by chan
          (λ i c. record c {
            freq = (f + i.slide + (if ltb i.slide 128 then 0 else 2 ^ 16 - 2 ^ 8)) % 2 ^ 16;
            oct = (clip_note note - 1) / 12;
          })
          p)

pub slide_down : ℕ → Channel → Channel
slide_down amount c =
    let freq = (c.freq + 2 ^ 16 - amount) % 2 ^ 16 in
    if leb freq 342
    then (if c.oct == 0
        then (record c { freq = 342 })
        else (record c { freq = freq * 2 % 2 ^ 16; oct = c.oct - 1 }))
    else (record c { freq = freq })

pub slide_up : ℕ → Channel → Channel
slide_up amount c =
    let freq = (c.freq + amount) % 2 ^ 16 in
    if leb 686 freq
    then (if ltb c.oct 7
        then (record c { freq = freq / 2; oct = c.oct + 1 })
        else (record c { freq = 686 }))
    else (record c { freq = freq })

-- `freq + (oct << 10)`, for the channel and for the note that its portamento goes to.
abbrev pub pitch : Channel → ℕ
pitch c = c.freq + c.oct * 2 ^ 10

abbrev pub target : Channel → ℕ
target c = c.nextfreq + c.nextoct * 2 ^ 10

pub arrive : Channel → Channel
arrive c = record c { freq = c.nextfreq; oct = c.nextoct }

pub rise : ℕ → Channel → Channel
rise info c =
    if ltb (pitch c) (target c)
    then (let c1 = slide_up info c in if ltb (target c1) (pitch c1) then arrive c1 else c1)
    else c

pub fall : ℕ → Channel → Channel
fall info c =
    if ltb (target c) (pitch c)
    then (let c1 = slide_down info c in if ltb (pitch c1) (target c1) then arrive c1 else c1)
    else c

pub tone_portamento : ℕ → ℕ → Mod → Outcome Mod
tone_portamento chan info p = do p1 ← modify chan (λ c. fall info (rise info c)) p; setfreq chan p1
