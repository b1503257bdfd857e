-- ===== src/Protrack/Tests.antt =====
-- A song of one channel, one pattern and one row, and an order list that jumps in a circle.
use adplug.Base.{
  length, All, ℕ, [], ◌∷◌, none, some, refl, ap, arith, false, ok, stuck, Returns, ◌≡◌, ◌<◌,
  get_elem?,
}
use adplug.Protrack.{Instrument, Tracks, Channel, Mod, channel_at, tone_portamento, pitch, target}
use adplug.Protrack.Timer.{timer_effects}
use adplug.Protrack.Update.{no_channel, update, rewind}
use adplug.Protrack.Update.Orders.{update-circle}
use adplug.Protrack.Update.Safe.{rewind-IsValid}
use adplug.Protrack.Patterns.{init_trackord, realloc_patterns}
use adplug.Protrack.Patterns.Numbered.{Given, init_trackord-realloc_patterns}
use adplug.Protrack.Safety.{Shape, IsTrack, Lands, plays, HasSong, IsValid}
use adplug.Protrack.Slides.{IsNearer, tone_portamento-IsNearer, glide, glide-arrives}

abbrev instrument : Instrument
instrument = record {
  data0 = 1;
  data1 = 0x21;
  data2 = 0x21;
  data3 = 0xf0;
  data4 = 0xf0;
  data5 = 0x0f;
  data6 = 0x0f;
  data7 = 0;
  data8 = 0;
  data9 = 0x10;
  data10 = 0;
  arpstart = 0;
  arpspeed = 0;
  misc = 0;
  slide = 255;
}

abbrev entry : Tracks
entry = record { note = 49; command = 14; inst = 1; param2 = 3; param1 = 4 }

abbrev channel : Channel
channel = record no_channel {
  freq = 340;
  oct = 3;
  nextfreq = 458;
  nextoct = 5;
  fx = 3;
  portainfo = 9;
}

abbrev player : Mod
player = record {
  opl = [];
  inst = instrument ∷ [];
  tracks = (entry ∷ []) ∷ [];
  order = 0 ∷ [];
  arplist = none;
  arpcmd = none;
  initspeed = 6;
  tempo = 125;
  trackord = (1 ∷ []) ∷ [];
  bpm = 125;
  nop = 1;
  length = 1;
  restartpos = 0;
  activechan = 0xffffffff;
  flags = 0;
  curchip = 0;
  channel = channel ∷ [];
  speed = 6;
  del = 0;
  songend = false;
  regbd = 0;
  notetable = 340 ∷ 363 ∷ 385 ∷ 408 ∷ 432 ∷ 458 ∷ 485 ∷ 514 ∷ 544 ∷ 577 ∷ 611 ∷ 647 ∷ [];
  row = 0;
  ord = 0;
  nrows = 1;
  npats = 1;
  nchans = 1;
}

abbrev shape : Shape
shape = record { chans = 1; rows = 1; pats = 1; insts = 1 }

player-HasSong :
    HasSong shape 1 player.inst player.tracks player.order player.arplist player.arpcmd
      player.trackord player.length player.restartpos player.notetable player.nrows player.nchans
player-HasSong = record {
  inst_count = refl;
  arpstarts = omega arith;
  whole_tracks = omega arith;
  pattern_count = refl;
  whole_patterns = omega arith;
  lists = tt;
  commands = tt;
  lands = player-lands;
  restarts = (0, refl, omega arith);
  note_count = refl;
  row_count = refl;
  some_row = omega arith;
  channel_count = refl;
  few_channels = omega arith;
}
  where
    player-lands : (ord : ℕ) → ord < 1 → Lands player.order 1 1 ord
    player-lands ord h =
        let first : ord ≡ 0 = omega arith in
        let read : get_elem? player.order ord ≡ some 0 = ap (get_elem? player.order) first in
        plays read (omega arith) (omega arith)

rewind-IsValid_example : Returns (IsValid shape 1) (rewind player)
rewind-IsValid_example = rewind-IsValid shape 1 player player-HasSong refl (omega arith)

tone_portamento-IsNearer_example :
    Returns
      (λ (q : Mod). (d : Channel) × (channel_at q 0 ≡ ok d) × IsNearer channel d)
      (tone_portamento 0 9 player)
unfolding channel_at
tone_portamento-IsNearer_example =
    tone_portamento-IsNearer 9 channel (omega arith) (omega arith) (omega arith) (omega arith)
      (omega arith) (omega arith) (omega arith) 0 player refl

glide-arrives_example : pitch (glide 2200 9 channel) ≡ target channel
glide-arrives_example =
    glide-arrives 2200 9 channel (omega arith) (omega arith) (omega arith) (omega arith)
      (omega arith) (omega arith) (omega arith)

abbrev circle : Mod
circle = record player { order = 129 ∷ 128 ∷ []; length = 2; nchans = 0; channel = [] }

update-circle_example : update 1000 circle ≡ stuck
unfolding timer_effects
update-circle_example =
    update-circle 1000 0 1 circle circle (omega arith) refl refl refl (omega arith) (omega arith)
      refl refl

abbrev song_shape : Shape
song_shape = record { chans = 2; rows = 1; pats = 2; insts = 1 }

init_trackord-realloc_patterns_example :
    Returns
      (λ (q : Mod).
        (length q.tracks ≡ 4) × All (IsTrack song_shape) q.tracks × Given song_shape 4 q.trackord)
      (init_trackord (realloc_patterns 2 1 2 (channel ∷ channel ∷ []) player))
init_trackord-realloc_patterns_example =
    init_trackord-realloc_patterns song_shape (omega arith) (channel ∷ channel ∷ []) player
      (omega arith)
