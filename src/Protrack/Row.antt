-- ===== src/Protrack/Row.antt =====
-- src/protrack.cpp: what `CmodPlayer::update` makes of the channels' entries in a row.
pub mod Safe
pub mod Plays
use adplug.Base.{ℕ, zero, suc, ◌+◌, ◌-◌, ◌*◌, ◌/◌, ◌%◌, ◌^◌, bit_and, bit_or, List, [], ◌∷◌}
use adplug.Base.{get_elem?, Bool, true, false, not, ◌&&◌, ◌==◌, ltb, leb, if◌then◌else◌}
use adplug.Base.{Outcome, ok, fault, ◌>>=◌, deref}
use adplug.Protrack.{Instrument, Tracks, Channel, Mod, is_faust, write_reg, channel_at}
use adplug.Protrack.{set_channel, modify, modify_by, set_opl_chip, op_at}
use adplug.Protrack.{setvolume, setnote, playnote, slide_down, slide_up}
use adplug.Protrack.Timer.{info_of, bend, fade, vol_up_alt, vol_down_alt}

-- The player in the middle of a row, and the locals `pattbreak` and `pattern_delay`.
pub record Row : Type 0 where
  pub player : Mod
  pub pattbreak : Bool
  pub pattern_delay : ℕ

-- The instrument's own volumes.
pub own_volumes : Instrument → Channel → Channel
own_volumes i c = record c { vol1 = 63 - bit_and i.data10 63; vol2 = 63 - bit_and i.data9 63 }

pub set_instrument : ℕ → Tracks → Mod → Outcome Mod
set_instrument chan t p = if t.inst == 0 then ok p else (do
  p1 ← modify chan (λ c. record c { inst = t.inst - 1 }) p
  if is_faust p1 then ok p1 else fade chan own_volumes p1)

pub take_note : ℕ → Tracks → Mod → Outcome Mod
take_note chan t p = if t.note == 0 then ok p else if t.command == 3 then ok p else (do
  p1 ← modify chan (λ c. record c { note = t.note }) p
  p2 ← setnote chan t.note p1
  modify_by chan
      (λ i c. record c { nextfreq = c.freq; nextoct = c.oct; arppos = i.arpstart; arpspdcnt = 0 })
      p2)

pub take_command : Tracks → Channel → Channel
take_command t c = record c { fx = t.command; info1 = t.param1; info2 = t.param2 }

-- `donote`
pub does_note : Tracks → Bool
does_note t = not (t.note == 0) && (not (t.command == 3) && not (t.note == 127))

-- The note that a tone portamento goes to, and its speed.
pub portamento_to : ℕ → Tracks → ℕ → Channel → Channel
portamento_to f t info c =
    let c1 =
      if t.note == 0
      then c
      else if t.note == 127
      then (record c { nextfreq = c.freq; nextoct = c.oct })
      else (record c { nextfreq = f; nextoct = (t.note - 1) / 12 }) in
    if info == 0 then c1 else (record c1 { portainfo = info })

-- The place of the note in the table.
pub note_place : ℕ → ℕ
note_place note = if ltb note 13 then note - 1 else if ltb 0 (note % 12) then note % 12 - 1 else 11

pub set_portamento : ℕ → Tracks → ℕ → Mod → Outcome Mod
set_portamento chan t info p = if t.note == 0 then modify chan (portamento_to 0 t info) p else (do
  f ← deref (get_elem? p.notetable (note_place t.note))
  modify chan (portamento_to f t info) p)

pub set_vibrato : Channel → Channel
set_vibrato c = record c { vibinfo1 = c.info1; vibinfo2 = c.info2 }

-- `info1 * 7` and `info2 * 7`, which are kept in unsigned chars and not compared with 63.
pub set_one_volume : Channel → Channel
set_one_volume c =
    if c.info1 == 0
    then (record c { vol2 = c.info2 * 7 % 2 ^ 8 })
    else (record c { vol1 = c.info1 * 7 % 2 ^ 8 })

pub clip_volume : ℕ → ℕ
clip_volume v = if ltb 63 v then 63 else v

-- A bit of the register 0xbd.
pub depth_bit : ℕ → ℕ → ℕ → ℕ
depth_bit bit info regbd = if info == 0 then bit_and regbd (255 - bit) else bit_or regbd bit

pub set_depth : ℕ → Mod → Mod
set_depth regbd p = write_reg 0xbd regbd (record p { regbd = regbd })

-- `switch(info1)` of the extended command, without the delay.
pub extended_effect : ℕ → Channel → Mod → Outcome Mod
extended_effect chan c p =
    if c.info1 == 0
    then ok (set_depth (depth_bit 128 c.info2 p.regbd) p)
    else if c.info1 == 1
    then ok (set_depth (depth_bit 64 c.info2 p.regbd) p)
    else if c.info1 == 4
    then fade chan (vol_up_alt c.info2) p
    else if c.info1 == 5
    then fade chan (vol_down_alt c.info2) p
    else if c.info1 == 6
    then bend chan (slide_up c.info2) p
    else if c.info1 == 7
    then bend chan (slide_down c.info2) p
    else ok p

-- `SA2 set speed` and `AMD set speed`
pub sa2_speed : ℕ → Mod → Mod
sa2_speed info p =
    let p1 = if leb info 0x1f then (record p { speed = info }) else p in
    let p2 = if leb 0x32 info then (record p1 { tempo = info }) else p1 in
    if info == 0 then (record p2 { songend = true }) else p2

pub amd_speed : ℕ → Mod → Mod
amd_speed info p =
    if leb info 31 && not (info == 0)
    then (record p { speed = info })
    else (record p { tempo = info })

-- Two waveforms; 15 leaves one alone.
pub set_waveforms : ℕ → Channel → Mod → Mod
set_waveforms op c p =
    let p1 = if c.info1 == 0x0f then p else write_reg (0xe3 + op) c.info1 p in
    if c.info2 == 0x0f then p1 else write_reg (0xe0 + op) c.info2 p1

-- The effects that change neither the place in the song nor the delay.
pub channel_effect : ℕ → Tracks → Channel → Mod → Outcome Mod
channel_effect chan t c p =
    let fx = c.fx in
    let info = info_of p c in
    if fx == 3
    then set_portamento chan t info p
    else if fx == 4
    then (if info == 0 then ok p else modify chan set_vibrato p)
    else if fx == 7
    then ok (record p { tempo = info })
    else if fx == 8
    then bend chan (λ c. record c { key = false }) p
    else if fx == 9
    then fade chan (λ i. set_one_volume) p
    else if fx == 12
    then fade chan (λ i c. record c { vol1 = clip_volume info; vol2 = clip_volume info }) p
    else if fx == 14
    then extended_effect chan c p
    else if fx == 15
    then ok (sa2_speed info p)
    else if fx == 17
    then fade chan
        (λ i c. record c {
          vol1 = clip_volume info;
          vol2 = if bit_and i.data0 1 == 0 then c.vol2 else clip_volume info;
        })
        p
    else if fx == 18
    then ok (amd_speed info p)
    else if fx == 19
    then ok (record p { speed = if info == 0 then info + 1 else info })
    else if fx == 21
    then fade chan (λ i c. record c { vol2 = clip_volume info }) p
    else if fx == 22
    then fade chan (λ i c. record c { vol1 = clip_volume info }) p
    else if fx == 23
    then bend chan (slide_up info) p
    else if fx == 24
    then bend chan (slide_down info) p
    else if fx == 25
    then (do op ← op_at chan; ok (set_waveforms op c p))
    else if fx == 27
    then ok (set_depth (depth_bit 64 c.info2 (depth_bit 128 c.info1 p.regbd)) p)
    else ok p

pub position_jump : ℕ → Mod → Mod
position_jump info p = record p {
  row = 0;
  songend = if leb info p.ord then true else p.songend;
  ord = info;
}

pub pattern_break : ℕ → Mod → Mod
pattern_break info p = record p {
  row = if ltb info p.nrows then info else 0;
  ord = (p.ord + 1) % 2 ^ 64;
}

-- `switch(channel[chan].fx)`
pub row_effect : ℕ → Tracks → Row → Outcome Row
row_effect chan t r = do
  c ← channel_at r.player chan
  let info = info_of r.player c
  if c.fx == 11
      then ok (record r { pattbreak = true; player = position_jump info r.player })
      else if c.fx == 13
      then (if r.pattbreak
          then ok r
          else ok (record r { pattbreak = true; player = pattern_break info r.player }))
      else if c.fx == 14 && c.info1 == 8
      then ok (record r { pattern_delay = c.info2 * r.player.speed % 2 ^ 8 })
      else if c.fx == 29
      then ok (record r { pattern_delay = info })
      else (do p ← channel_effect chan t c r.player; ok (record r { player = p }))

-- An entry of a track that is played on a channel.
pub play_entry : ℕ → Tracks → Row → Outcome Row
play_entry chan t r = do
  p1 ← set_instrument chan t r.player
  p2 ← take_note chan t p1
  p3 ← modify chan (take_command t) p2
  p4 ← if does_note t then playnote chan p3 else ok p3
  row_effect chan t (record r { player = p4 })

-- `(activechan >> (31 - chan)) & 1`; a shift by a negative number is undefined.
pub is_active : ℕ → Mod → Outcome Bool
is_active chan p = if ltb 31 chan then fault else ok (p.activechan / 2 ^ (31 - chan) % 2 == 1)

-- The row `row` of a track on a channel. The tracks are counted from 1.
pub play_track : ℕ → ℕ → ℕ → Row → Outcome Row
play_track row track chan r = if track == 0 then ok r else (do
  rows ← deref (get_elem? r.player.tracks (track - 1))
  t ← deref (get_elem? rows row)
  play_entry chan t r)

-- A channel of the row `row` of the pattern `pattnr`.
pub play_channel : ℕ → ℕ → ℕ → Row → Outcome Row
play_channel row pattnr chan r = do
  let p = set_opl_chip chan r.player
  active ← is_active chan p
  if active
      then (do
        pattern ← deref (get_elem? p.trackord pattnr)
        track ← deref (get_elem? pattern chan)
        play_track row track chan (record r { player = p }))
      else ok (record r { player = p })

pub play_channels : ℕ → ℕ → ℕ → ℕ → Row → Outcome Row
play_channels zero row pattnr chan r = ok r
play_channels (suc n) row pattnr chan r = do
  r1 ← play_channel row pattnr chan r
  play_channels n row pattnr (chan + 1) r1
