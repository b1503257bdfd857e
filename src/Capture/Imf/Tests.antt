-- ===== src/Capture/Imf/Tests.antt =====
-- A song of two events in a file, and the theorems about it.
use adplug.Base.{List, [], ◌∷◌, none, some, refl, arith, false, Returns}
use adplug.Base.Opl.{write, init}
use adplug.Base.Bytes.{io, io-IsLawful}
use adplug.Provider.{Provider}
use adplug.Capture.Imf.{Imf, Event, rewind}
use adplug.Capture.Imf.Load.{blank, load}
use adplug.Capture.Imf.Load.Song.{IsLoaded, load-IsLoaded}
use adplug.Capture.Imf.Playback.{Over, write_all}
use adplug.Capture.Imf.Playback.{play_through, play_through-rewind}

abbrev song : List Event
song = record { reg = 0x20; val = 1; time = 5 } ∷ record { reg = 0xa0; val = 0x98; time = 0 } ∷ []

abbrev two_events : Imf
two_events = record (blank []) { events = song; size = 2 }

play_through-rewind_example :
    Returns (Over (write_all song (write 1 32 ∷ init ∷ []))) (play_through 2 (rewind two_events))
play_through-rewind_example = play_through-rewind two_events refl (omega arith)

-- The header, the song's length in bytes and its two events.
abbrev disk : Provider io
disk = record {
  open_file = λ name. some (record {
    bytes =
        b'A' ∷ b'D' ∷ b'L' ∷ b'I' ∷ b'B' ∷ 1 ∷ 0 ∷ 0 ∷ 1 ∷ 8 ∷ 0 ∷ 0 ∷ 0 ∷ 0x20 ∷ 1 ∷ 5 ∷ 0 ∷ 0xa0
        ∷ 0x98 ∷ 0 ∷ 0 ∷ [];
    at = 0;
    ended = false;
  });
}

load-IsLoaded_example :
    Returns IsLoaded (load io disk none (b'a' ∷ b'.' ∷ b'i' ∷ b'm' ∷ b'f' ∷ []) [])
load-IsLoaded_example =
    load-IsLoaded io disk io-IsLawful none (b'a' ∷ b'.' ∷ b'i' ∷ b'm' ∷ b'f' ∷ []) [] tt
