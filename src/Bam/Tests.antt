-- ===== src/Bam/Tests.antt =====
-- A file of a note, its end and a wait, and the songs that `update` does not return from.
use adplug.Base.{
  ℕ, List, [], ◌∷◌, length, some, refl, arith, true, false, Returns, ◌≡◌, ◌+◌, ◌-◌, Bool,
}
use adplug.Base.{fault, stuck, replicate}
use adplug.Base.Opl.{write, init}
use adplug.Base.Bytes.{io}
use adplug.Base.Stream.{read_bytes}
use adplug.Base.Stream.{same_bytes}
use adplug.Provider.{Provider, filesize}
use adplug.Bam.{Bam, unset, rewind, update}
use adplug.Bam.Broken.{update-hangs, update-overruns}
use adplug.Bam.Load.{load, load-Played}
use adplug.Bam.Straight.{Straight, note, stop, instrument, codes, sounds}

abbrev playing : List ℕ → Bam
playing song = record {
  opl = [];
  song = song;
  del = 0;
  pos = 0;
  size = length song;
  gosub = 0;
  songend = false;
  chorus = false;
  label = replicate 16 unset;
}

abbrev commands : List Straight
commands =
    instrument 2 (1 ∷ 2 ∷ 3 ∷ 4 ∷ 5 ∷ 6 ∷ 7 ∷ 8 ∷ 9 ∷ 10 ∷ 11 ∷ []) ∷ note 2 24 1369 ∷ stop 2 ∷ []

abbrev song : List ℕ
song = 50 ∷ 1 ∷ 2 ∷ 3 ∷ 4 ∷ 5 ∷ 6 ∷ 7 ∷ 8 ∷ 9 ∷ 10 ∷ 11 ∷ 18 ∷ 24 ∷ 34 ∷ 130 ∷ 0 ∷ []

abbrev disk : Provider io
disk = record {
  open_file =
      λ name. some (record { bytes = b'C' ∷ b'B' ∷ b'M' ∷ b'F' ∷ song; at = 0; ended = false });
}

abbrev loaded : Bam
loaded = record (playing song) {
  opl = write 1 32 ∷ init ∷ [];
  label = record unset { defined = true } ∷ replicate 15 unset;
}

load-loaded : load io disk [] [] ≡ some loaded
unfolding load rewind filesize read_bytes same_bytes
load-loaded = refl

load-Played_example :
    Returns
      (λ (x : Bool × Bam).
        (x.1.opl ≡ sounds commands (write 1 32 ∷ init ∷ []))
        × (x.1.del ≡ 130 - 127)
        × (x.1.pos ≡ length (codes commands) + 1))
      (update 4 loaded)
load-Played_example =
    load-Played io disk [] [] loaded commands 130 (0 ∷ []) load-loaded refl (omega arith)
      ((omega arith, refl), ((omega arith, refl), (omega arith, tt))) (omega arith)

update-hangs_example : update 1000 (playing (99 ∷ 254 ∷ [])) ≡ stuck
update-hangs_example =
    update-hangs 3 unset (playing (99 ∷ 254 ∷ [])) (omega arith)
      (record { here = refl; short = omega arith; playing = refl; inside = omega arith }) refl refl
      1000

update-overruns_example : update 8 (playing (16 ∷ 127 ∷ 129 ∷ [])) ≡ fault
update-overruns_example =
    update-overruns 0 127 (playing (16 ∷ 127 ∷ 129 ∷ [])) (omega arith) (omega arith)
      (record { here = refl; short = omega arith; playing = refl; inside = omega arith }) refl 7
