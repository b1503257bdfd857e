-- ===== src/Capture/Dro2/Tests.antt =====
-- A capture of a write and a delay.
use adplug.Base.{[], ◌∷◌, refl, arith, Returns}
use adplug.Capture.Tags.{no_tag}
use adplug.Capture.Dro2.{Dro2, update}
use adplug.Capture.Dro2.Playback.{IsValid, Advanced, update-Advanced}

-- Code 0 is register 0x20, code 1 the short delay.
abbrev capture : Dro2
capture = record {
  opl = [];
  cmd_delay_s = 1;
  cmd_delay_l = 2;
  conv_table_len = 1;
  conv_table = 0x20 ∷ [];
  song = 0 ∷ 0x21 ∷ 1 ∷ 9 ∷ [];
  length = 4;
  pos = 0;
  delay = 0;
  tag = no_tag;
}

capture-IsValid : IsValid capture
capture-IsValid = record {
  all_there = refl;
  table_there = refl;
  pairs = refl;
  short = omega arith;
  at_pair = refl;
  in_song = omega arith;
}

update-Advanced_example : Returns (Advanced capture) (update capture)
update-Advanced_example = update-Advanced capture capture-IsValid
