-- ===== src/Capture/Got/Tests.antt =====
-- A song of two events, which is played, and a file of three.
use adplug.Base.{List, [], ◌∷◌, some, refl, arith, false, Returns}
use adplug.Base.Opl.{write, init}
use adplug.Base.Bytes.{io}
use adplug.Provider.{Provider}
use adplug.Capture.Got.{Got, Event, update, rewind}
use adplug.Base.{ℕ, ◌+◌, ◌≡◌, ltb}
use adplug.Player.Length.{Clock, songlength}
use adplug.Capture.Got.Length.{got_class, songlength-at_start}
use adplug.Capture.Got.Playback.{write_all, Over, play_on-Over}
use adplug.Base.Loops.{play_on}

abbrev song : List Event
song = record { time = 5; reg = 0x20; val = 1 } ∷ record { time = 0; reg = 0xa0; val = 0x98 } ∷ []

abbrev two_events : Got
two_events = record {
  opl = [];
  events = song;
  size = 2;
  pos = 0;
  del = 0;
  songend = false;
  rate = 120;
  timer = (120, 1);
}

play_on-Over_example :
    Returns (Over (write_all song (write 1 32 ∷ init ∷ []))) (play_on update 2 (rewind two_events))
play_on-Over_example = play_on-Over two_events refl (omega arith) (omega arith)

abbrev disk : Provider io
disk = record {
  open_file = λ name. some (record {
    bytes = 1 ∷ 0 ∷ 5 ∷ 0x20 ∷ 1 ∷ 0 ∷ 0xa0 ∷ 0x98 ∷ 0 ∷ 0 ∷ 0 ∷ 0 ∷ [];
    at = 0;
    ended = false;
  });
}

-- A clock that counts the updates.
abbrev counter : Clock Got
counter = record {
  Time = ℕ;
  start = 0;
  pass = λ p t. t + 1;
  in_limit = λ t. ltb t 600000;
  whole = λ t. t;
  before = ltb;
}

songlength-at_start_example :
    Returns
      (λ (x : ℕ × Got). (x.1.opl ≡ []) × (x.1.pos ≡ 0) × (x.1.songend ≡ false))
      (songlength got_class counter 2 two_events)
songlength-at_start_example =
    songlength-at_start counter two_events refl (omega arith) (omega arith)
