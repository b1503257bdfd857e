-- ===== src/Capture/Raw/Tests.antt =====
-- A capture of a write, a delay and the end, and its file.
use adplug.Base.{[], ◌∷◌, some, refl, arith, false, Returns}
use adplug.Base.Bytes.{io}
use adplug.Provider.{Provider}
use adplug.Capture.Tags.{no_tag}
use adplug.Capture.Raw.{Raw, update}
use adplug.Capture.Raw.Playback.{IsValid, Plays, update-Plays}

abbrev capture : Raw
capture = record {
  opl = [];
  song =
      record { param = 1; command = 0x20 }
      ∷ record { param = 2; command = 0 }
      ∷ record { param = 0xff; command = 0xff }
      ∷ [];
  length = 3;
  pos = 0;
  clock = 0x2000;
  speed = 0x2000;
  del = 0;
  songend = false;
  tag = no_tag;
}

capture-IsValid : IsValid capture
capture-IsValid = record {
  all_there = refl;
  short = omega arith;
  in_song = omega arith;
  waits = omega arith;
}

update-Plays_example : Returns (Plays capture) (update capture)
update-Plays_example = update-Plays capture capture-IsValid

abbrev disk : Provider io
disk = record {
  open_file = λ name. some (record {
    bytes =
        b'R' ∷ b'A' ∷ b'W' ∷ b'A' ∷ b'D' ∷ b'A' ∷ b'T' ∷ b'A' ∷ 0 ∷ 0x20 ∷ 1 ∷ 0x20 ∷ 2 ∷ 0 ∷ 0xff
        ∷ 0xff ∷ 0x1a ∷ [];
    at = 0;
    ended = false;
  });
}
