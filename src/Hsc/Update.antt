-- ===== src/Hsc/Update.antt =====
-- src/hsc.cpp: `ChscPlayer::update`, one tick of the HSC player.
pub mod Channel
pub mod Safe
use adplug.Base.{ℕ, zero, suc, ◌+◌, ◌-◌, ◌*◌, ◌/◌, ◌%◌, ◌^◌, bit_and, bit_or, List, [], ◌∷◌}
use adplug.Base.{get_elem?, set, Bool, true, false, not, ◌&&◌, ◌||◌, ◌==◌, ltb, leb, if◌then◌else◌}
use adplug.Base.{Outcome, ok, ◌>>=◌, deref}
use adplug.Base.Opl.{Opl, write, init}
use adplug.Hsc.{Hsc, Note, Chan, and_not, write_reg, instr_at, channel_at}
use adplug.Hsc.{setfreq, setvolume, setinstr}
use adplug.Player.{op_table, note_table}

-- A signed char in an `int` sum that goes into 16 bits.
pub sign_extend : ℕ → ℕ
sign_extend b = if ltb b 128 then b else b + (2 ^ 16 - 2 ^ 8)

pub set_chan : ℕ → Chan → Hsc → Hsc
set_chan chan c p = record p { channel = set p.channel chan c }

-- The global effects.
pub global_effect : ℕ → Hsc → Hsc
global_effect eff_op p =
    if eff_op == 1
    then (record p { pattbreak = (p.pattbreak + 1) % 2 ^ 8 })
    else if eff_op == 3
    then (record p { fadein = 31 })
    else if eff_op == 5
    then (record p { mode6 = true })
    else if eff_op == 6
    then (record p { mode6 = false })
    else p

-- The manual slides, up for the effects 0x10 and down for 0x20.
pub slide_by : Bool → ℕ → Chan → Chan
slide_by true eff_op c = record c {
  freq = (c.freq + eff_op) % 2 ^ 16;
  slide = (c.slide + eff_op) % 2 ^ 8;
}
slide_by false eff_op c = record c {
  freq = (c.freq + 2 ^ 16 - eff_op) % 2 ^ 16;
  slide = (c.slide + 2 ^ 8 - eff_op) % 2 ^ 8;
}

pub slide_effect : ℕ → ℕ → ℕ → ℕ → Hsc → Outcome Hsc
slide_effect chan note effect eff_op p = do
  c ← channel_at p chan
  let c' = slide_by (not (bit_and effect 0x10 == 0)) eff_op c
  let p' = set_chan chan c' p
  if note == 0 then setfreq chan c'.freq p' else ok p'

-- The volume effects; `inst` is the channel's instrument.
pub carrier_volume : ℕ → ℕ → ℕ → Hsc → Outcome Hsc
carrier_volume chan vol inst p = do
  op ← deref (get_elem? op_table chan)
  ins2 ← instr_at p inst 2
  ok (write_reg (0x43 + op) (bit_or vol (and_not ins2 63)) p)

-- Both branches of the source's test write the same value here, as `inst` is the channel's.
pub modulator_volume : ℕ → ℕ → ℕ → Hsc → Outcome Hsc
modulator_volume chan vol inst p = do
  op ← deref (get_elem? op_table chan)
  ins8 ← instr_at p inst 8
  ins3 ← instr_at p inst 3
  if bit_and ins8 1 == 0
      then ok (write_reg (0x40 + op) (bit_or vol (and_not ins3 63)) p)
      else ok (write_reg (0x40 + op) (bit_or vol (and_not ins3 63)) p)

pub instrument_volume : ℕ → ℕ → ℕ → Hsc → Outcome Hsc
instrument_volume chan vol inst p = do
  p' ← carrier_volume chan vol inst p
  op ← deref (get_elem? op_table chan)
  ins8 ← instr_at p' inst 8
  ins3 ← instr_at p' inst 3
  if bit_and ins8 1 == 0
      then ok p'
      else ok (write_reg (0x40 + op) (bit_or vol (and_not ins3 63)) p')

pub feedback : ℕ → ℕ → ℕ → Hsc → Outcome Hsc
feedback chan eff_op inst p = do
  ins8 ← instr_at p inst 8
  ok (write_reg (0xc0 + chan) (bit_and ins8 1 + eff_op * 2) p)

-- `switch (effect & 0xf0)`
pub effect_step : ℕ → ℕ → ℕ → ℕ → Hsc → Outcome Hsc
effect_step chan note effect inst p =
    let eff_op = bit_and effect 0x0f in
    let kind = bit_and effect 0xf0 in
    if kind == 0
    then ok (global_effect eff_op p)
    else if kind == 0x20 || kind == 0x10
    then slide_effect chan note effect eff_op p
    else if kind == 0x60
    then feedback chan eff_op inst p
    else if kind == 0xa0
    then carrier_volume chan (eff_op * 4) inst p
    else if kind == 0xb0
    then modulator_volume chan (eff_op * 4) inst p
    else if kind == 0xc0
    then instrument_volume chan (eff_op * 4) inst p
    else if kind == 0xd0
    then ok (record p { pattbreak = (p.pattbreak + 1) % 2 ^ 8; songpos = eff_op; songend = true })
    else if kind == 0xf0
    then ok (record p { speed = eff_op + 1; del = eff_op + 1 })
    else ok p

-- The drum of a channel in six-voice mode.
pub play_drum : ℕ → Hsc → Hsc
play_drum chan p =
    let drum = λ (off on : ℕ). record p {
      opl = write 0xbd (and_not p.bd off) ∷ p.opl;
      bd = bit_or p.bd on;
    } in
    let p' =
      if chan == 6
      then drum 16 48
      else if chan == 7
      then drum 1 33
      else if chan == 8
      then drum 2 34
      else p in
    write_reg 0xbd p'.bd p'

-- `note` is the pattern's note less one.
pub pause_note : ℕ → Hsc → Outcome Hsc
pause_note chan p = do
  a ← deref (get_elem? p.adl_freq chan)
  let a' = and_not a 32
  ok (write_reg (0xb0 + chan) a' (record p { adl_freq = set p.adl_freq chan a' }))

pub play_note : ℕ → ℕ → ℕ → Hsc → Outcome Hsc
play_note chan note inst p = do
  c ← channel_at p chan
  base ← deref (get_elem? note_table (note % 12))
  ins11 ← instr_at p inst 11
  let okt = bit_and (note / 12) 7 * 4
  let fnr = (base + ins11 + sign_extend c.slide) % 2 ^ 16
  let key = if not p.mode6 || ltb chan 6 then bit_or okt 32 else okt
  let p1 = write_reg (0xb0 + chan) 0 (record p {
    channel = set p.channel chan (record c { freq = fnr });
    adl_freq = set p.adl_freq chan key;
  })
  p2 ← setfreq chan fnr p1
  ok (if p2.mode6 then play_drum chan p2 else p2)

pub note_step : ℕ → ℕ → ℕ → Hsc → Outcome Hsc
note_step chan note inst p =
    let note' = note - 1 in
    if note' == 0x7f - 1 || not (and_not (note' / 12) 7 == 0)
    then pause_note chan p
    else play_note chan (if p.mtkmode then (note' + 2 ^ 8 - 1) % 2 ^ 8 else note') inst p

-- `if(note) channel[chan].slide = 0;`
pub reset_slide : ℕ → ℕ → Hsc → Outcome Hsc
reset_slide chan note p = do
  c ← channel_at p chan
  ok (if note == 0 then p else set_chan chan (record c { slide = 0 }) p)

pub fade : ℕ → Hsc → Outcome Hsc
fade chan p = if p.fadein == 0 then ok p else setvolume chan (p.fadein * 2) (p.fadein * 2) p

-- One channel of a row.
pub channel_step : ℕ → Note → Hsc → Outcome Hsc
channel_step chan n p =
    if bit_and n.note 128 == 0
    then (do
      c ← channel_at p chan
      p1 ← reset_slide chan n.note p
      p2 ← effect_step chan n.note n.effect c.inst p1
      p3 ← fade chan p2
      if n.note == 0 then ok p3 else note_step chan n.note c.inst p3)
    else setinstr chan n.effect p

-- All channels of the row at `pattoff`, with `n` channels to go.
pub row_steps : ℕ → ℕ → ℕ → ℕ → Hsc → Outcome Hsc
row_steps zero chan pattnr pattoff p = ok p
row_steps (suc n) chan pattnr pattoff p = do
  pattern ← deref (get_elem? p.patterns pattnr)
  entry ← deref (get_elem? pattern pattoff)
  p' ← channel_step chan entry p
  row_steps n (chan + 1) pattnr (pattoff + 1) p'

-- The arrangement: where the song goes on, and the pattern to play there.
pub arrange : Hsc → Outcome (ℕ × Hsc)
arrange p = do
  pattnr ← deref (get_elem? p.song p.songpos)
  if leb 0xb2 pattnr
      then (do
        first ← deref (get_elem? p.song 0)
        ok (first, record p { songend = true; songpos = 0 }))
      else if not (bit_and pattnr 128 == 0) && leb pattnr 0xb1
      then (do
        next ← deref (get_elem? p.song (bit_and pattnr 127))
        ok (next, record p { songpos = bit_and pattnr 127; pattpos = 0; songend = true }))
      else ok (pattnr, p)

-- `songpos++; songpos %= 50; if(!songpos) songend = 1;`
pub next_position : Hsc → Hsc
next_position p =
    let songpos = (p.songpos + 1) % 2 ^ 8 % 50 in
    record p { songpos = songpos; songend = if songpos == 0 then true else p.songend }

-- From the label `skip_pattern_data` on.
pub advance : Hsc → Hsc
advance p =
    let p1 = record p { del = p.speed } in
    if p1.pattbreak == 0
    then (let p2 = record p1 { pattpos = bit_and (p1.pattpos + 1) 63 } in
        if p2.pattpos == 0 then next_position p2 else p2)
    else next_position (record p1 { pattpos = 0; pattbreak = 0 })

-- A tick that plays a row.
pub play_row : Hsc → Outcome Hsc
play_row p = do
  (pattnr, p1) ← arrange (record p { fadein = p.fadein - 1 })
  p2 ← if leb 50 pattnr then ok p1 else row_steps 9 0 pattnr (p1.pattpos * 9) p1
  ok (advance p2)

pub update : Hsc → Outcome (Bool × Hsc)
update p =
    let del = (p.del + 2 ^ 32 - 1) % 2 ^ 32 in
    let p1 = record p { del = del } in
    if del == 0 then (do p2 ← play_row p1; ok (not p2.songend, p2)) else ok (not p1.songend, p1)
