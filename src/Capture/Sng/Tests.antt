-- ===== src/Capture/Sng/Tests.antt =====
-- A song of a write and a pause, at the pause of its loop.
use adplug.Base.{[], ◌∷◌, refl, arith, false, Returns}
use adplug.Capture.Sng.{Sng, update}
use adplug.Capture.Sng.Playback.{IsValid, Stays, update-Stays}

abbrev song : Sng
song = record {
  opl = [];
  header = record { length = 2; start = 0; loop = 0; delay = 0; compressed = false };
  events = record { val = 7; reg = 0x20 } ∷ record { val = 3; reg = 0 } ∷ [];
  del = 0;
  pos = 0;
  songend = false;
}

song-IsValid : IsValid 1 song
song-IsValid = record {
  all_there = refl;
  short = omega arith;
  loops = omega arith;
  in_song = omega arith;
  at_pause = (record { val = 3; reg = 0 }, refl, refl);
  here = omega arith;
}

update-Stays_example : Returns (Stays 1) (update 4 song)
update-Stays_example = update-Stays 1 song song-IsValid
