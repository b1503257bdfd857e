-- ===== src/Capture/Dro/Tests.antt =====
-- A capture of a write and a short delay, and its file.
use adplug.Base.{[], ◌∷◌, some, refl, arith, false, Returns}
use adplug.Base.Bytes.{io}
use adplug.Provider.{Provider}
use adplug.Capture.Tags.{no_tag}
use adplug.Capture.Dro.{Dro, dro_v0, update}
use adplug.Capture.Dro.Load.{load}
use adplug.Capture.Dro.Load.Accepts.{IsLoaded, load-IsAccepted}
use adplug.Capture.Dro.Playback.{GotOn, update-GotOn}

abbrev capture : Dro
capture = record {
  opl = [];
  song = 0x20 ∷ 1 ∷ 0 ∷ 9 ∷ [];
  length = 4;
  pos = 0;
  delay = 0;
  data_offset = 24;
  version = dro_v0;
  tag = no_tag;
}

update-GotOn_example : Returns (GotOn capture) (update capture)
update-GotOn_example =
    update-GotOn capture (record { all_there = refl; in_song = omega arith }) (omega arith)

abbrev disk : Provider io
disk = record {
  open_file = λ name. some (record {
    bytes =
        b'D' ∷ b'B' ∷ b'R' ∷ b'A' ∷ b'W' ∷ b'O' ∷ b'P' ∷ b'L' ∷ 0 ∷ 0 ∷ 1 ∷ 0 ∷ 0 ∷ 0 ∷ 0 ∷ 0 ∷ 4
        ∷ 0 ∷ 0 ∷ 0 ∷ 0 ∷ 0 ∷ 0 ∷ 0 ∷ 0x20 ∷ 1 ∷ 0 ∷ 9 ∷ [];
    at = 0;
    ended = false;
  });
}

load-IsAccepted_example : Returns IsLoaded (load io disk [] [])
load-IsAccepted_example = load-IsAccepted io disk [] []
