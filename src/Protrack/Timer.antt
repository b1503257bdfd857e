-- ===== src/Protrack/Timer.antt =====
-- src/protrack.cpp: the rest of the operations on a channel, and the effects that `CmodPlayer::update`
-- carries out at every tick.
pub mod Keeps
pub mod Safe
pub mod Arpeggio
pub mod Ticks
use adplug.Base.{
  ℕ, zero, suc, ◌+◌, ◌-◌, ◌*◌, ◌/◌, ◌%◌, ◌^◌, bit_and, List, [], ◌∷◌, Option, none, some,
}
use adplug.Base.{get_elem?, Bool, true, false, not, ◌&&◌, ◌==◌, ltb, leb, if◌then◌else◌}
use adplug.Base.{Outcome, ok, ◌>>=◌, deref}
use adplug.Base.Opl.{write}
use adplug.Protrack.{Instrument, Channel, Mod, is_decimal, write_reg, channel_at, inst_at}
use adplug.Protrack.{set_channel, modify, modify_by, opl_channel, set_opl_chip, op_at}
use adplug.Protrack.{setvolume, setfreq, playnote, setnote, slide_down, slide_up, tone_portamento}

abbrev pub vibratotab : List ℕ
vibratotab =
    1 ∷ 2 ∷ 3 ∷ 4 ∷ 5 ∷ 6 ∷ 7 ∷ 8 ∷ 9 ∷ 10 ∷ 11 ∷ 12 ∷ 13 ∷ 14 ∷ 15 ∷ 16 ∷ 16 ∷ 15 ∷ 14 ∷ 13 ∷ 12
    ∷ 11 ∷ 10 ∷ 9 ∷ 8 ∷ 7 ∷ 6 ∷ 5 ∷ 4 ∷ 3 ∷ 2 ∷ 1 ∷ []

-- One round of the loop of `vibrato`; the loop that takes 64 off is a remainder.
pub vibrato_step : ℕ → Channel → Outcome Channel
vibrato_step depth c0 =
    let trigger = (c0.trigger + 1) % 64 in
    let c = record c0 { trigger = trigger } in
    if leb 16 trigger && ltb trigger 48
    then (do v ← deref (get_elem? vibratotab (trigger - 16)); ok (slide_down (v / (16 - depth)) c))
    else if ltb trigger 16
    then (do v ← deref (get_elem? vibratotab (trigger + 16)); ok (slide_up (v / (16 - depth)) c))
    else (do v ← deref (get_elem? vibratotab (trigger - 48)); ok (slide_up (v / (16 - depth)) c))

pub vibrato_steps : ℕ → ℕ → Channel → Outcome Channel
vibrato_steps zero depth c = ok c
vibrato_steps (suc n) depth c = do c1 ← vibrato_step depth c; vibrato_steps n depth c1

pub vibrato : ℕ → ℕ → ℕ → Mod → Outcome Mod
vibrato chan speed depth p = if speed == 0 then ok p else if depth == 0 then ok p else (do
  c ← channel_at p chan
  c1 ← vibrato_steps speed (if ltb 14 depth then 14 else depth) c
  setfreq chan (set_channel chan c1 p))

pub louder : ℕ → ℕ → ℕ
louder amount vol = if ltb (vol + amount) 63 then vol + amount else 63

pub softer : ℕ → ℕ → ℕ
softer amount vol = if ltb amount vol then vol - amount else 0

pub vol_up : ℕ → Channel → Channel
vol_up amount c = record c { vol1 = louder amount c.vol1; vol2 = louder amount c.vol2 }

pub vol_down : ℕ → Channel → Channel
vol_down amount c = record c { vol1 = softer amount c.vol1; vol2 = softer amount c.vol2 }

-- The modulator's volume is changed for an additive instrument only.
pub vol_up_alt : ℕ → Instrument → Channel → Channel
vol_up_alt amount i c = record c {
  vol1 = louder amount c.vol1;
  vol2 = if bit_and i.data0 1 == 0 then c.vol2 else louder amount c.vol2;
}

pub vol_down_alt : ℕ → Instrument → Channel → Channel
vol_down_alt amount i c = record c {
  vol1 = softer amount c.vol1;
  vol2 = if bit_and i.data0 1 == 0 then c.vol2 else softer amount c.vol2;
}

-- A change of the pitch or the volume, and the registers that it goes to.
pub bend : ℕ → (Channel → Channel) → Mod → Outcome Mod
bend chan f p = do p1 ← modify chan f p; setfreq chan p1

pub fade : ℕ → (Instrument → Channel → Channel) → Mod → Outcome Mod
fade chan f p = do p1 ← modify_by chan f p; setvolume chan p1

-- `info`, an unsigned char.
pub info_of : Mod → Channel → ℕ
info_of p c =
    if is_decimal p then (c.info1 * 10 + c.info2) % 2 ^ 8 else (c.info1 * 16 + c.info2) % 2 ^ 8

pub arp_waveforms : ℕ → ℕ → Mod → Mod
arp_waveforms op cmd p =
    if cmd == 0
    then p
    else (let p1 = if cmd / 10 == 0 then p else write_reg (0xe3 + op) (cmd / 10 - 1) p in
        let p2 = if cmd % 10 == 0 then p1 else write_reg (0xe0 + op) (cmd % 10 - 1) p1 in
        if ltb cmd 10 then write_reg (0xe0 + op) (cmd - 1) p2 else p2)

-- `switch(arpcmd[arppos])`
pub arp_command : List ℕ → ℕ → ℕ → Mod → Outcome Mod
arp_command list chan cmd p =
    if cmd == 252
    then (do
      c ← channel_at p chan
      v ← deref (get_elem? list c.arppos)
      let vol = if ltb 63 v then 63 else v
      fade chan (λ i c. record c { vol1 = vol; vol2 = vol }) p)
    else if cmd == 253
    then bend chan (λ c. record c { key = false }) p
    else if cmd == 254
    then (do
      c ← channel_at p chan
      v ← deref (get_elem? list c.arppos)
      ok (set_channel chan (record c { arppos = v }) p))
    else (do op ← op_at chan; ok (arp_waveforms op cmd p))

pub arp_note : ℕ → ℕ → ℕ → Mod → Outcome Mod
arp_note chan note v p =
    if leb v 96
    then setnote chan (note + v) p
    else if leb 100 v
    then setnote chan (v - 100) p
    else ok p

-- The end of a step of a special arpeggio.
pub arp_next : List ℕ → ℕ → Mod → Outcome Mod
arp_next cmds chan p = do
  c ← channel_at p chan
  cmd ← deref (get_elem? cmds c.arppos)
  i ← inst_at p c.inst
  let arppos = if cmd == 255 then c.arppos else (c.arppos + 1) % 2 ^ 8
  ok (
      set_channel chan (record c { arppos = arppos; arpspdcnt = (i.arpspeed + 2 ^ 8 - 1) % 2 ^ 8 })
        p)

pub arp_step : List ℕ → List ℕ → ℕ → ℕ → Mod → Outcome Mod
arp_step list cmds chan cmd p = do
  p1 ← arp_command list chan cmd p
  c ← channel_at p1 chan
  cmd1 ← deref (get_elem? cmds c.arppos)
  p2 ←
      if cmd1 == 252
      then setnote chan c.note p1
      else (do v ← deref (get_elem? list c.arppos); arp_note chan c.note v p1)
  p3 ← setfreq chan p2
  arp_next cmds chan p3

pub arp_channel : List ℕ → List ℕ → ℕ → Mod → Outcome Mod
arp_channel list cmds chan p = do
  c ← channel_at p chan
  i ← inst_at p c.inst
  if i.arpstart == 0
      then ok p
      else if c.arpspdcnt == 0
      then (do
        cmd ← deref (get_elem? cmds c.arppos)
        if cmd == 255 then ok p else arp_step list cmds chan cmd p)
      else ok (set_channel chan (record c { arpspdcnt = c.arpspdcnt - 1 }) p)

-- `if(arplist && arpcmd && ...)`
pub arp_lists : Option (List ℕ) → Option (List ℕ) → ℕ → Mod → Outcome Mod
arp_lists none arpcmd chan p = ok p
arp_lists (some list) none chan p = ok p
arp_lists (some list) (some cmds) chan p = arp_channel list cmds chan p

pub special_arpeggio : ℕ → Mod → Outcome Mod
special_arpeggio chan p = arp_lists p.arplist p.arpcmd chan p

pub arpeggio : ℕ → Channel → Mod → Outcome Mod
arpeggio chan c p = do
  let trigger = if ltb c.trigger 2 then c.trigger + 1 else 0
  let offset : ℕ = if trigger == 0 then 0 else if trigger == 1 then c.info1 else c.info2
  p1 ← setnote chan (c.note + offset) (set_channel chan (record c { trigger = trigger }) p)
  setfreq chan p1

-- The slides that take a step up for the first digit and down for the second without one.
pub volume_slide : ℕ → Channel → Mod → Outcome Mod
volume_slide chan c p =
    if c.info1 == 0 then fade chan (λ i. vol_down c.info2) p else fade chan (λ i. vol_up c.info1) p

pub volume_slide_alt : ℕ → Channel → Mod → Outcome Mod
volume_slide_alt chan c p =
    if c.info1 == 0 then fade chan (vol_down_alt c.info2) p else fade chan (vol_up_alt c.info1) p

pub counted_slides : Channel → Channel
counted_slides c =
    let c1 =
      if c.info1 == 0 then c else (let u = slide_up 1 c in record u { info1 = u.info1 - 1 }) in
    if c.info2 == 0 then c1 else (let d = slide_down 1 c1 in record d { info2 = d.info2 - 1 })

-- The volume slide that the effects 5 and 6 go on to.
pub slow_slide : ℕ → Channel → Mod → Outcome Mod
slow_slide chan c p = if p.del % 4 == 0 then volume_slide chan c p else ok p

-- `switch(channel[chan].fx)`
pub timer_effect : ℕ → Mod → Outcome Mod
timer_effect chan p = do
  c ← channel_at p chan
  let info = info_of p c
  let fx = c.fx
  if fx == 0
      then (if info == 0 then ok p else arpeggio chan c p)
      else if fx == 1
      then bend chan (slide_up info) p
      else if fx == 2
      then bend chan (slide_down info) p
      else if fx == 3
      then tone_portamento chan c.portainfo p
      else if fx == 4
      then vibrato chan c.vibinfo1 c.vibinfo2 p
      else if fx == 5
      then (do p1 ← tone_portamento chan c.portainfo p; slow_slide chan c p1)
      else if fx == 6
      then (do p1 ← vibrato chan c.vibinfo1 c.vibinfo2 p; slow_slide chan c p1)
      else if fx == 10
      then slow_slide chan c p
      else if fx == 14
      then (if c.info1 == 3 && p.del % (c.info2 + 1) == 0 then playnote chan p else ok p)
      else if fx == 16
      then (if p.del % 4 == 0 then volume_slide_alt chan c p else ok p)
      else if fx == 20
      then (if ltb info 50
          then fade chan (vol_down_alt info) p
          else fade chan (vol_up_alt (info - 50)) p)
      else if fx == 26
      then volume_slide chan c p
      else if fx == 28
      then bend chan counted_slides p
      else ok p

-- The loop over the channels, with `n` to go; `chan` stays below 256, which it is kept in.
unfoldable pub timer_effects : ℕ → ℕ → Mod → Outcome Mod
timer_effects zero chan p = ok p
timer_effects (suc n) chan p = do
  p1 ← special_arpeggio chan (set_opl_chip chan p)
  p2 ← timer_effect chan p1
  timer_effects n (chan + 1) p2
