-- ===== src/Capture/Dro2/Load.antt =====
-- src/dro2.cpp: `Cdro2Player::load`. `none` is the return of false.
use adplug.Base.{ℕ, ◌+◌, ◌*◌, ◌-◌, ◌%◌, ◌^◌, ◌≡◌, ◌<◌, arith, List, [], ◌∷◌, Option, none, some}
use adplug.Base.{Bool, true, false, not, ◌||◌, ◌==◌, ltb, leb, if◌then◌else◌, Bool-cases, inl, inr}
use adplug.Base.{if_both, Option-cases, refl}
use adplug.Base.Opl.{Opl}
use adplug.Base.Stream.{BinIo, IsLawful}
use adplug.Provider.{Provider, filesize}
use adplug.Capture.Tags.{Tag, no_tag, has_tag_size, tag_marker, read_tag}
use adplug.Base.Stream.{same_bytes}
use adplug.Capture.Dro2.{Dro2, rewind}
use adplug.Capture.Dro2.Playback.{IsValid, rewind-IsValid}

abbrev pub dro_id : List ℕ
dro_id = b'D' ∷ b'B' ∷ b'R' ∷ b'A' ∷ b'W' ∷ b'O' ∷ b'P' ∷ b'L' ∷ []

module _ (io : BinIo) where
  -- The tag, if there is room for one and it begins with its marker.
  pub find_tag : io.Stream → Tag × io.Stream
  find_tag f =
      let (size, f1) = filesize io f in
      let (is_tag, f2) = tag_marker io f1 in
      if has_tag_size size (io.pos f1)
      then if is_tag then read_tag io no_tag f2 else (no_tag, f2)
      else (no_tag, f1)

  -- What follows the checks: the code table, the song and the tag.
  pub read_song : ℕ → Opl → io.Stream → Dro2
  read_song size opl f =
      let (delay_s, f1) = io.read_int 1 f in
      let (delay_l, f2) = io.read_int 1 f1 in
      let (table_len, f3) = io.read_int 1 f2 in
      let (table, f4) = io.read_buffer (table_len % 2 ^ 8) f3 in
      let (song, f5) = io.read_buffer size f4 in
      record {
        opl = opl;
        cmd_delay_s = delay_s % 2 ^ 8;
        cmd_delay_l = delay_l % 2 ^ 8;
        conv_table_len = table_len % 2 ^ 8;
        conv_table = table;
        song = song;
        length = size;
        pos = 0;
        delay = 0;
        tag = (find_tag f5).0;
      }

  -- The checks of the format and the compression.
  pub read_format : ℕ → Opl → io.Stream → Option Dro2
  read_format size opl f =
      let (format, f1) = io.read_int 1 (io.ignore 1 (io.ignore 4 f)) in
      let (compression, f2) = io.read_int 1 f1 in
      if not (format % 2 ^ 32 == 0) || not (compression % 2 ^ 32 == 0)
      then none
      else some (rewind (read_song size opl f2))

  -- The length in pairs, which is checked and then doubled, and the rest of the header.
  pub read_length : Opl → io.Stream → Option Dro2
  read_length opl f =
      let (stored, f1) = io.read_int 4 f in
      let pairs = stored % 2 ^ 32 in
      let (size, f2) = filesize io f1 in
      if leb (2 ^ 30) pairs || ltb ((size + 2 ^ 64 - io.pos f2) % 2 ^ 64) pairs
      then none
      else read_format (pairs * 2 % 2 ^ 32) opl f2

  pub load : Provider io → List ℕ → Opl → Option Dro2
  load fp filename opl = elim (fp.open_file filename) [
    | none ↦ none
    | some f ↦
        let (id, f1) = io.read_buffer 8 f in
        let (version, f2) = io.read_int 4 f1 in
        if not (same_bytes id dro_id) || not (version % 2 ^ 32 == 2)
        then none
        else read_length opl f2
  ]

-- What a loader leaves: nothing, or a song that is valid and at its start.
abbrev pub IsLoaded : Option Dro2 → Type 0
IsLoaded none = Unit {0}
IsLoaded (some p) = IsValid p × (p.pos ≡ 0)

rewind-IsLoaded : (b : Bool) (p : Dro2) → IsValid p → IsLoaded (if b then none else some (rewind p))
unfolding rewind
rewind-IsLoaded true p v = tt
rewind-IsLoaded false p v = (rewind-IsValid p v, refl)

module _ (io : BinIo) (lawful : IsLawful io) where
  read_song-IsValid :
      (pairs : ℕ) (opl : Opl) (f : io.Stream)
      → pairs < 2 ^ 30
      → IsValid (read_song io (pairs * 2 % 2 ^ 32) opl f)
  unfolding read_song
  read_song-IsValid pairs opl f small = record {
    all_there = lawful.length-read_buffer _ _;
    table_there = lawful.length-read_buffer _ _;
    pairs = omega arith;
    short = omega arith;
    at_pair = refl;
    in_song = omega arith;
  }

  read_format-IsLoaded :
      (pairs : ℕ) (opl : Opl) (f : io.Stream)
      → pairs < 2 ^ 30
      → IsLoaded (read_format io (pairs * 2 % 2 ^ 32) opl f)
  unfolding read_format
  read_format-IsLoaded pairs opl f small = rewind-IsLoaded _ _ (read_song-IsValid pairs opl _ small)

  read_length-IsLoaded : (opl : Opl) (f : io.Stream) → IsLoaded (read_length io opl f)
  unfolding read_length
  read_length-IsLoaded opl f =
      let pairs = (io.read_int 4 f).0 % 2 ^ 32 in
      elim (Bool-cases (leb (2 ^ 30) pairs)) [
        | inl e ↦ rw e tt
        | inr e ↦
            rw e (if_both IsLoaded _ none _ tt (read_format-IsLoaded pairs opl _ (ground arith)))
      ]

  -- For streams that keep to the laws of the library a file that is accepted gives a valid song, at
  -- its start, whatever the file holds.
  pub load-IsPlayable :
      (fp : Provider io) (filename : List ℕ) (opl : Opl) → IsLoaded (load io fp filename opl)
  unfolding load
  load-IsPlayable fp filename opl = elim (Option-cases (fp.open_file filename)) [
    | inl e ↦ rw (e, load) tt
    | inr (f, e) ↦ rw (e, load) (if_both IsLoaded _ none _ tt (read_length-IsLoaded opl _))
  ]
