-- ===== src/Capture/Raw/Load.antt =====
-- src/raw.cpp: `CrawPlayer::load`. `none` is the return of false.
use adplug.Base.{ℕ, zero, suc, ◌-◌, ◌/◌, ◌%◌, ◌^◌, ◌<◌, ◌≡◌, refl, ap, arith}
use adplug.Base.{List, [], ◌∷◌, length, Option, none, some, Bool, true, false, not, ◌&&◌, ◌||◌}
use adplug.Base.{◌==◌, leb, if◌then◌else◌, Option-cases, inl, inr}
use adplug.Base.Opl.{Opl}
use adplug.Base.Stream.{BinIo, IsLawful}
use adplug.Provider.{Provider, filesize, filesize-lt}
use adplug.Capture.Tags.{Tag, no_tag, desc_section}
use adplug.Base.Stream.{same_bytes}
use adplug.Capture.Raw.{Raw, Item, rewind}
use adplug.Capture.Raw.Playback.{IsValid, rewind-IsValid}

abbrev raw_id : List ℕ
raw_id = b'R' ∷ b'A' ∷ b'W' ∷ b'A' ∷ b'D' ∷ b'A' ∷ b'T' ∷ b'A' ∷ []

-- What is known while the items are read: whether the tag's marker was found, and the tag so far.
pub record Reading : Type 0 where
  pub tagdata : Bool
  pub tag : Tag

module _ (io : BinIo) where
  -- Behind an item of two bytes 0xff: the tag's marker, an old comment, or neither.
  pub after_end : Reading → io.Stream → Reading × io.Stream
  after_end r f =
      let (tag_code, f1) = io.read_int 1 f in
      let (desc, f2) = io.read_text 1023 f1 in
      if tag_code == 0x1a
      then (record r { tagdata = true }, f1)
      else if tag_code == 0
      then (record r { tag = record r.tag { desc = desc } }, f2)
      else (r, io.seek_back 1 f1)

  pub read_item : Reading → io.Stream → Item × Reading × io.Stream
  read_item r f =
      let (param, f1) = io.read_int 1 f in
      let (command, f2) = io.read_int 1 f1 in
      let item : Item = record { param = param % 2 ^ 8; command = command % 2 ^ 8 } in
      let (r', f3) = after_end r f2 in
      if r.tagdata
      then (record { param = 0xff; command = 0xff }, r, f)
      else if item.param == 0xff && item.command == 0xff
      then (item, r', f3)
      else (item, r, f2)

  pub read_items : ℕ → Reading → io.Stream → List Item × Reading × io.Stream
  read_items zero r f = ([], r, f)
  read_items (suc n) r f =
      let (item, r1, f1) = read_item r f in
      let (items, r2, f2) = read_items n r1 f1 in (item ∷ items, r2, f2)

  -- The author of an older tag, which has no marker.
  pub no_author_marker : Tag → io.Stream → Tag
  no_author_marker tag f =
      let (c, f1) = io.read_int 1 f in
      let f2 = io.seek_back 1 f1 in
      if leb 0x20 c
      then (let (author, f3) = io.read_text 60 f2 in
          let (desc, f4) = io.read_text 1023 f3 in record tag { author = author; desc = desc })
      else (desc_section io tag f2).0

  pub read_raw_tag : Tag → io.Stream → Tag
  read_raw_tag tag f =
      let (title, f1) = io.read_text 40 f in
      let tag' = record tag { title = title } in
      let (marker, f2) = io.read_int 1 f1 in
      if not (marker == 0x1b)
      then no_author_marker tag' (io.seek_back 1 f2)
      else (let (author, f3) = io.read_text 40 f2 in
          (desc_section io (record tag' { author = author }) f3).0)

  pub read_song : ℕ → ℕ → Opl → io.Stream → Raw
  read_song clock size opl f =
      let (items, r, f1) = read_items size (record { tagdata = false; tag = no_tag }) f in
      record {
        opl = opl;
        song = items;
        length = size;
        pos = 0;
        clock = clock;
        speed = 0;
        del = 0;
        songend = false;
        tag = if r.tagdata then read_raw_tag r.tag f1 else r.tag;
      }

  pub load : Provider io → List ℕ → Opl → Option Raw
  load fp filename opl = elim (fp.open_file filename) [
    | none ↦ none
    | some f ↦
        let (id, f1) = io.read_buffer 8 f in
        let (clock, f2) = io.read_int 2 f1 in
        let (size, f3) = filesize io f2 in
        if not (same_bytes id raw_id) || leb size 10
        then none
        else some (rewind (read_song (clock % 2 ^ 16) ((size - 10) / 2) opl f3))
  ]

  length-read_items : (n : ℕ) (r : Reading) (f : io.Stream) → length (read_items n r f).0 ≡ n
  unfolding read_items
  length-read_items zero r f = refl
  length-read_items (suc n) r f =
      let (item, r1, f1) = read_item r f in ap suc (length-read_items n r1 f1)

  read_song-IsValid :
      (clock size : ℕ) (opl : Opl) (f : io.Stream)
      → size < 2 ^ 63
      → IsValid (read_song clock size opl f)
  unfolding read_song
  read_song-IsValid clock size opl f small = record {
    all_there = length-read_items size _ f;
    short = small;
    in_song = omega arith;
    waits = omega arith;
  }

-- What a loader leaves: nothing, or a song that is valid and at its start.
abbrev pub IsLoaded : Option Raw → Type 0
IsLoaded none = Unit {0}
IsLoaded (some p) = IsValid p × (p.pos ≡ 0) × (p.songend ≡ false) × (p.speed ≡ p.clock)

rewind-IsLoaded : (b : Bool) (p : Raw) → IsValid p → IsLoaded (if b then none else some (rewind p))
unfolding rewind
rewind-IsLoaded true p v = tt
rewind-IsLoaded false p v = (rewind-IsValid p v, refl, refl, refl)

-- For streams that keep to the laws of the library a file that is accepted gives a valid song at its
-- start, at its clock's speed, whatever the file holds and wherever its tag is.
pub load-IsTrack :
    (io : BinIo)
    → IsLawful io
    → (fp : Provider io) (filename : List ℕ) (opl : Opl) → IsLoaded (load io fp filename opl)
unfolding load
load-IsTrack io lawful fp filename opl = elim (Option-cases (fp.open_file filename)) [
  | inl e ↦ rw (e, load) tt
  | inr (f, e) ↦
      let small = filesize-lt io lawful (io.read_int 2 (io.read_buffer 8 f).1).1 in
      rw (e, load) (rewind-IsLoaded _ _ (read_song-IsValid io _ _ opl _ (omega (arith, small))))
]
